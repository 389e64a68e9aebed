-- ===== src/Process.antt =====
-- process_message and _process_message_inner of src/floodgate/zerohop.py, with _fmt_node.
pub mod Format
pub mod Describe
pub mod Accounts
pub mod Verdicts
pub mod Laws
pub mod Bypass
pub mod Results
pub mod Decides
pub mod Recorded
pub mod Records
pub mod Effects
mod Tests
use floodgate.Common.{
  String, Bool, true, false, Option, none, some, List, [], ◌∷◌, ◌++◌, length, ◌==◌, if◌then◌else◌,
  or_else,
}
use floodgate.Common.Text.{Casing}
use floodgate.Bytes.{Bytes}
use floodgate.Value.{Value, null, bool, int, str, Fields, end, field, get, truthy}
use floodgate.Value.Int.{ℤ, pos}
use floodgate.Value.Json.{JsonCodec}
use floodgate.Proto.{Meshtastic}
use floodgate.Decrypt.{Aes}
use floodgate.Stats
use floodgate.Stats.{Counter}
use floodgate.Config.{Config}
use floodgate.Config.Policy.{should_zerohop, should_drop}
use floodgate.Topic.{parse_meshtastic_topic}
use floodgate.Portnum.{extract_portnum_json, extract_portnum_protobuf}
use floodgate.Zerohop.{ZerohopResult, zerohop_json, zerohop_protobuf, peek_meta, is_zero}
use floodgate.Service.{Service, Exec, pure, lift, count, log, info, warning, error, ◌>>=◌, ◌>>◌}
use floodgate.Process.Describe.{entry, meta_get, description, drop_description}

abbrev pub action_passthru : String
action_passthru = "passthru"

abbrev pub action_modify : String
action_modify = "modify"

abbrev pub action_drop : String
action_drop = "drop"

pub record ProcessResult : Type 0 where
  pub action : String
  pub payload : Option Bytes

abbrev pub passthru : ProcessResult
passthru = record { action = action_passthru; payload = none }

abbrev pub modify : Option Bytes → ProcessResult
modify payload = record { action = action_modify; payload = payload }

abbrev pub drop : ProcessResult
drop = record { action = action_drop; payload = none }

-- What the process imports: the JSON module, the generated protobuf classes, AES and the case tables.
pub record World (Envelope Packet : Type 0) : Type 0 where
  pub json : JsonCodec
  pub proto : Meshtastic Envelope Packet
  pub aes : Aes
  pub casing : Casing

abbrev pub unhandled : String
unhandled = "Unhandled exception processing topic"

abbrev with_portnum : Option String → Option Bool → Option (Bool × Option String)
with_portnum portnum none = none
with_portnum portnum (some b) = some (b, portnum)

-- `old_hop == 0`
abbrev pub is_zero_hop : Option ℤ → Bool
is_zero_hop none = false
is_zero_hop (some z) = is_zero z

abbrev pub hop_value : Option ℤ → Value
hop_value none = null
hop_value (some z) = int z

-- The handler of process_message. Its record has no `extra` dict.
abbrev pub recover : Option ProcessResult × Service → ProcessResult × Service
recover (some result, s) = (result, s)
recover (none, s) = (
  passthru,
  record {
    stats = Stats.inc Stats.errors s.stats;
    records = s.records ++ record { level = error; message = unhandled; extra = end } ∷ [];
  },
)

module _ {Envelope Packet : Type 0} (world : World Envelope Packet) where
  pub portnum_of : String → Bytes → Option String
  portnum_of encoding payload =
      if encoding == "json"
      then extract_portnum_json world.json world.casing payload
      else extract_portnum_protobuf world.proto world.aes payload

  pub zerohop_of : String → Bytes → Option ZerohopResult
  zerohop_of encoding payload =
      if encoding == "json"
      then zerohop_json world.json payload
      else zerohop_protobuf world.proto payload

  -- The drop check: whether to drop, and the portnum that it read. The portnum is read only where
  -- the filter is on.
  pub drop_check : Config → String → String → Bytes → Option (Bool × Option String)
  drop_check config channel encoding payload =
      if truthy (meta_get config.values "drop_enabled")
      then with_portnum (portnum_of encoding payload)
          (should_drop config channel (portnum_of encoding payload))
      else some (false, none)

  pub drop_packet : String → String → String → Bytes → Option String → Exec ProcessResult
  drop_packet topic channel encoding payload portnum = do
    count Stats.dropped
    rest ← lift (drop_description (peek_meta world.proto world.json encoding payload) portnum)
    log info "dropped" (entry "dropped" topic channel encoding rest)
    pure drop

  pub pass_packet : String → String → String → Bytes → Exec ProcessResult
  pass_packet topic channel encoding payload = do
    count Stats.passthru
    rest ← lift (description (peek_meta world.proto world.json encoding payload) end)
    log info "passthru" (entry "passthru" topic channel encoding rest)
    pure passthru

  -- `old_hop == 0`: nothing to change.
  pub keep_packet : String → String → String → Fields → Exec ProcessResult
  keep_packet topic channel encoding meta = do
    count Stats.noop
    rest ← lift (description meta (field "hop_limit" (int (pos 0)) end))
    log info "noop" (entry "noop" topic channel encoding rest)
    pure passthru

  pub modify_packet :
      String → String → String → Option Bytes → Option ℤ → Fields → Exec ProcessResult
  modify_packet topic channel encoding modified old_hop meta = do
    count Stats.zerohop
    rest ← lift (description meta (field "hop_limit" (hop_value old_hop) end))
    log info "zerohop" (entry "zerohop" topic channel encoding rest)
    pure (modify modified)

  pub finish : String → String → String → Bytes → ZerohopResult → Exec ProcessResult
  finish topic channel encoding payload (none, none, meta) = do
    count Stats.errors
    log warning "warn"
        (entry "warn" topic channel encoding (field "bytes" (int (pos (length payload))) end))
    pure passthru
  finish topic channel encoding payload (modified, old_hop, meta) =
      if is_zero_hop old_hop
      then keep_packet topic channel encoding meta
      else modify_packet topic channel encoding modified old_hop meta

  pub zerohop_stage : Config → String → String → String → Bytes → Exec ProcessResult
  zerohop_stage config topic channel encoding payload = do
    wanted ← lift (should_zerohop config channel)
    if wanted
        then (do
          result ← lift (zerohop_of encoding payload)
          finish topic channel encoding payload result)
        else pass_packet topic channel encoding payload

  pub process_packet : Config → String → String → String → Bytes → Exec ProcessResult
  process_packet config topic channel encoding payload = do
    decision ← lift (drop_check config channel encoding payload)
    if decision.0
        then drop_packet topic channel encoding payload decision.1
        else zerohop_stage config topic channel encoding payload

  pub process_parsed : Config → String → Bytes → Option (String × String) → Exec ProcessResult
  process_parsed config topic payload none = do count Stats.skipped; pure passthru
  process_parsed config topic payload (some (channel, encoding)) =
      process_packet config topic channel encoding payload

  -- _process_message_inner
  pub process_message_inner : String → Bytes → Config → Exec ProcessResult
  process_message_inner topic payload config =
      process_parsed config topic payload (parse_meshtastic_topic topic)

  unfoldable pub process_message : String → Bytes → Config → Service → ProcessResult × Service
  process_message topic payload config s = recover (process_message_inner topic payload config s)
