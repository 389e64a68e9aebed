-- ===== src/Broker.antt =====
-- EMQX, as src/floodgate/exhook_server.py relies on it, and what a subscriber gets of a message that
-- passes the hook.
pub mod Delivery
pub mod ZeroHop
mod Tests
use floodgate.Common.{String, Option, none, some, ◌≡◌, ◌≢◌}
use floodgate.Config.{Config}
use floodgate.Portnum.{lookup}
use floodgate.Service.{Service}
use floodgate.Process.{World}
use floodgate.ExHook.{
  Message, ValuedResponse, ignore, stop_and_return, no_value, message, on_message_publish,
}

-- A message that carries no denial of its own.
abbrev pub IsAllowed : Message → Type 0
IsAllowed msg = lookup msg.headers "allow_publish" ≢ some "false"

-- `deliver` is the message that goes to the subscribers after an answer, if any; `failed` what
-- becomes of one whose call failed or took longer than `request_timeout`. For a message that carries
-- no denial of its own, EMQX goes on with its own message after IGNORE and after a failed call (the
-- README's failure policy), and with the answer's after STOP_AND_RETURN, unless that answer has the
-- header `allow_publish` with the value `false`, which denies the message.
pub record Broker : Type 0 where
  pub deliver : Message → ValuedResponse → Option Message
  pub failed : Message → Option Message
  pub ignored :
      (msg : Message)
      → IsAllowed msg
      → deliver msg (record { type = ignore; value = no_value }) ≡ some msg
  pub unmodified : (msg : Message) → IsAllowed msg → failed msg ≡ some msg
  pub denied :
      (msg answer : Message)
      → lookup answer.headers "allow_publish" ≡ some "false"
      → deliver msg (record { type = stop_and_return; value = message answer }) ≡ none
  pub replaced :
      (msg answer : Message)
      → lookup answer.headers "allow_publish" ≢ some "false"
      → deliver msg (record { type = stop_and_return; value = message answer }) ≡ some answer

-- Whether the answer reaches EMQX within `request_timeout`.
pub data Outcome : Type 0 where
  in_time too_late : Outcome

abbrev answered : Broker → Outcome → Message → Option ValuedResponse → Option Message
answered broker too_late msg r = broker.failed msg
answered broker in_time msg none = broker.failed msg
answered broker in_time msg (some r) = broker.deliver msg r

-- What the subscribers get of a message that is published.
unfoldable pub delivered :
    {Envelope Packet : Type 0}
    → Broker
    → World Envelope Packet
    → Config
    → Outcome
    → Message
    → Service
    → Option Message
delivered broker world config outcome msg s =
    answered broker outcome msg (on_message_publish world config msg s).0
