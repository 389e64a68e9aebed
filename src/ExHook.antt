-- ===== src/ExHook.antt =====
-- src/floodgate/exhook_server.py: what the hook provider answers to EMQX, in the messages of
-- proto/emqx/exhook.proto.
pub mod Reporter
pub mod Answers
pub mod Startup
mod Tests
use floodgate.Common.{
  ℕ, String, Bool, Option, none, some, List, [], ◌∷◌, ◌==◌, if◌then◌else◌, or_else, map,
}
use floodgate.Bytes.{Bytes}
use floodgate.Value.{Value, str, get}
use floodgate.Config.{Config}
use floodgate.Service.{Service}
use floodgate.Process.{ProcessResult, action_modify, action_drop, World, process_message}

-- The message of a PUBLISH; the headers are a map.
pub record Message : Type 0 where
  pub node : String
  pub id : String
  pub qos : ℕ
  pub from : String
  pub topic : String
  pub payload : Bytes
  pub timestamp : ℕ
  pub headers : List (String × String)

pub data ResponsedType : Type 0 where
  continue ignore stop_and_return : ResponsedType

-- The oneof of a ValuedResponse.
pub data ResponseValue : Type 0 where
  no_value : ResponseValue
  bool_result : Bool → ResponseValue
  message : Message → ResponseValue

pub record ValuedResponse : Type 0 where
  pub type : ResponsedType
  pub value : ResponseValue

-- `headers[key] = value`
unfoldable pub set_header : List (String × String) → String → String → List (String × String)
set_header [] key value = (key, value) ∷ []
set_header ((k, v) ∷ headers) key value =
    let rest = set_header headers key value in
    if k == key then (k, value) ∷ headers else (k, v) ∷ rest

-- The payload of a response cannot be set to None: that raises.
abbrev modified_response : Message → Option Bytes → Option ValuedResponse
modified_response msg none = none
modified_response msg (some payload) =
    some (record { type = stop_and_return; value = message (record msg { payload = payload }) })

abbrev pub denied : Message → Message
denied msg = record msg { headers = set_header msg.headers "allow_publish" "false" }

-- The response that goes with the result of process_message.
unfoldable pub respond : Message → ProcessResult → Option ValuedResponse
respond msg result =
    if result.action == action_modify
    then modified_response msg result.payload
    else if result.action == action_drop
    then some (record { type = stop_and_return; value = message (denied msg) })
    else some (record { type = ignore; value = no_value })

-- OnMessagePublish
unfoldable pub on_message_publish :
    {Envelope Packet : Type 0}
    → World Envelope Packet
    → Config
    → Message
    → Service
    → Option ValuedResponse × Service
on_message_publish world config msg s =
    let (result, s') = process_message world msg.topic msg.payload config s in
    (respond msg result, s')

pub record HookSpec : Type 0 where
  pub name : String
  pub topics : List String

abbrev hook_of : Value → Option (List HookSpec)
hook_of (str topic_filter) =
    some (record { name = "message.publish"; topics = topic_filter ∷ [] } ∷ [])
hook_of _ = none

-- OnProviderLoaded: the hooks of a LoadedResponse. A topic that is no text raises.
unfoldable pub on_provider_loaded : Config → Option (List HookSpec)
on_provider_loaded config = hook_of (or_else (get config.values "topic_filter") (str "msh/#"))

-- The hooks that do nothing, and what they answer: EmptySuccess, or a ValuedResponse.
pub data Hook : Type 0 where
  client_connect client_connack client_connected client_disconnected client_authenticate : Hook
  client_authorize client_subscribe client_unsubscribe session_created session_subscribed : Hook
  session_unsubscribed session_resumed session_discarded session_takenover : Hook
  session_terminated message_delivered message_dropped message_acked provider_unloaded : Hook

pub data HookResponse : Type 0 where
  empty_success : HookResponse
  valued : ValuedResponse → HookResponse

unfoldable pub on_hook : Hook → HookResponse
on_hook client_authenticate = valued (record { type = ignore; value = no_value })
on_hook client_authorize = valued (record { type = ignore; value = no_value })
on_hook _ = empty_success
