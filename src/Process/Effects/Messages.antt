-- ===== src/Process/Effects/Messages.antt =====
-- What process_message of src/floodgate/zerohop.py does to the state that the threads share: a
-- sequence of increments and log records that the message alone decides.
use floodgate.Common.{String, true, Option, none, some, List, length, ◌≡◌}
use floodgate.Bytes.{Bytes}
use floodgate.Value.{int, Fields, field, end}
use floodgate.Value.Int.{ℤ, pos}
use floodgate.Stats
use floodgate.Stats.{Counter, inc}
use floodgate.Config.{Config}
use floodgate.Config.Policy.{should_zerohop}
use floodgate.Topic.{parse_meshtastic_topic}
use floodgate.Zerohop.{ZerohopResult, peek_meta}
use floodgate.Service.{Service, warning}
use floodgate.Process.Describe.{description, drop_description}
use floodgate.Process
use floodgate.Process.{
  ProcessResult, World, drop_check, drop_packet, pass_packet, keep_packet, modify_packet,
  is_zero_hop, hop_value, finish, zerohop_stage, process_packet, process_parsed,
  process_message_inner, process_message, recover, zerohop_of, unhandled,
}
use floodgate.Process.Effects.{
  Act, perform, all_own, Effect, pure-Effect, lift-Effect, count-Effect, log-Effect, bind-Effect,
  if-Effect, entry-Effect, recover_at,
}

module _ {Envelope Packet : Type 0} (world : World Envelope Packet) where
  drop_packet-Effect :
      (topic channel encoding : String) (payload : Bytes) (portnum : Option String)
      → Effect (drop_packet world topic channel encoding payload portnum)
  unfolding drop_packet
  drop_packet-Effect topic channel encoding payload portnum =
      entry-Effect Stats.dropped
        (drop_description (peek_meta world.proto world.json encoding payload) portnum) "dropped"
        topic channel encoding Process.drop

  pass_packet-Effect :
      (topic channel encoding : String) (payload : Bytes)
      → Effect (pass_packet world topic channel encoding payload)
  unfolding pass_packet
  pass_packet-Effect topic channel encoding payload =
      entry-Effect Stats.passthru
        (description (peek_meta world.proto world.json encoding payload) end) "passthru" topic
        channel encoding Process.passthru

  keep_packet-Effect :
      (topic channel encoding : String) (meta : Fields)
      → Effect (keep_packet world topic channel encoding meta)
  unfolding keep_packet
  keep_packet-Effect topic channel encoding meta =
      entry-Effect Stats.noop (description meta (field "hop_limit" (int (pos 0)) end)) "noop" topic
        channel encoding Process.passthru

  modify_packet-Effect :
      (topic channel encoding : String) (modified : Option Bytes) (old_hop : Option ℤ)
      (meta : Fields)
      → Effect (modify_packet world topic channel encoding modified old_hop meta)
  unfolding modify_packet
  modify_packet-Effect topic channel encoding modified old_hop meta =
      entry-Effect Stats.zerohop (description meta (field "hop_limit" (hop_value old_hop) end))
        "zerohop" topic channel encoding (Process.modify modified)

  finish-Effect :
      (topic channel encoding : String) (payload : Bytes) (r : ZerohopResult)
      → Effect (finish world topic channel encoding payload r)
  unfolding finish
  finish-Effect topic channel encoding payload (none, none, meta) =
      bind-Effect (count-Effect Stats.errors) λ _.
        bind-Effect
          (log-Effect warning "warn" "warn" topic channel encoding
            (field "bytes" (int (pos (length payload))) end))
          λ _. pure-Effect Process.passthru
  finish-Effect topic channel encoding payload (none, some hops, meta) =
      if-Effect (is_zero_hop (some hops)) (keep_packet-Effect topic channel encoding meta)
        (modify_packet-Effect topic channel encoding none (some hops) meta)
  finish-Effect topic channel encoding payload (some bytes, old_hop, meta) =
      if-Effect (is_zero_hop old_hop) (keep_packet-Effect topic channel encoding meta)
        (modify_packet-Effect topic channel encoding (some bytes) old_hop meta)

  zerohop_stage-Effect :
      (config : Config) (topic channel encoding : String) (payload : Bytes)
      → Effect (zerohop_stage world config topic channel encoding payload)
  unfolding zerohop_stage
  zerohop_stage-Effect config topic channel encoding payload =
      bind-Effect (lift-Effect (should_zerohop config channel)) λ wanted.
        if-Effect wanted
          (bind-Effect (lift-Effect (zerohop_of world encoding payload))
            λ result. finish-Effect topic channel encoding payload result)
          (pass_packet-Effect topic channel encoding payload)

  process_packet-Effect :
      (config : Config) (topic channel encoding : String) (payload : Bytes)
      → Effect (process_packet world config topic channel encoding payload)
  unfolding process_packet
  process_packet-Effect config topic channel encoding payload =
      bind-Effect (lift-Effect (drop_check world config channel encoding payload)) λ decision.
        if-Effect (decision.0) (drop_packet-Effect topic channel encoding payload decision.1)
          (zerohop_stage-Effect config topic channel encoding payload)

  process_parsed-Effect :
      (config : Config) (topic : String) (payload : Bytes) (parsed : Option (String × String))
      → Effect (process_parsed world config topic payload parsed)
  unfolding process_parsed
  process_parsed-Effect config topic payload none =
      bind-Effect (count-Effect Stats.skipped) λ _. pure-Effect Process.passthru
  process_parsed-Effect config topic payload (some (channel, encoding)) =
      process_packet-Effect config topic channel encoding payload

  -- The acts of a message and its result, whatever the state at the time.
  pub message_acts :
      (topic : String) (payload : Bytes) (config : Config)
      → (result : ProcessResult) × ((acts : List Act) × ((all_own acts ≡ true)
            × ((s : Service)
                → process_message world topic payload config s ≡ (result, perform acts s))))
  unfolding process_message process_message_inner
  message_acts topic payload config =
      let e = process_parsed-Effect config topic payload (parse_meshtastic_topic topic) in
      recover_at (process_parsed world config topic payload (parse_meshtastic_topic topic)) e.result
        e.acts e.runs e.owns
