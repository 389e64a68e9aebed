-- ===== src/Zerohop.antt =====
-- The payload functions of src/floodgate/zerohop.py: _peek_meta, _extract_proto_meta,
-- zerohop_protobuf and zerohop_json. Metadata is a dict; an exception that leaves a function is
-- `none`. The free-text warnings and debug lines are left out.
pub mod Hops
pub mod Json
pub mod Protobuf
pub mod Meta
pub mod Sound
mod Tests
use floodgate.Common.{
  String, Bool, true, false, not, ◌&&◌, ◌||◌, Option, none, some, List, [], ◌∷◌, if◌then◌else◌,
  or_else, eqb, ◌==◌,
}
use floodgate.Bytes.{Bytes}
use floodgate.Value.{Value, null, int, obj, Fields, end, field, get, insert, is_int, has_key}
use floodgate.Value.Int.{ℤ, pos, negsuc, ◌-ℤ◌, max_zero}
use floodgate.Value.Json.{JsonCodec}
use floodgate.Proto.{Meshtastic}
use floodgate.Portnum.{as_dict, first, from_descriptor}

abbrev copied : Option Value → String → Fields → Fields
copied none meta_key meta = meta
copied (some v) meta_key meta = insert meta meta_key v

-- for src_key, meta_key in pairs: if it is there, meta[meta_key] = …
unfoldable pub collect : (String → Option Value) → List (String × String) → Fields → Fields
collect source [] meta = meta
collect source ((key, meta_key) ∷ pairs) meta =
    collect source pairs (copied (source key) meta_key meta)

abbrev json_keys : List (String × String)
json_keys =
    ("id", "packet_id")
    ∷ ("from", "sender")
    ∷ ("to", "destination")
    ∷ ("hop_start", "hop_start")
    ∷ ("via_mqtt", "via_mqtt")
    ∷ []

unfoldable pub json_meta : Fields → Fields
json_meta d = collect (get d) json_keys end

abbrev proto_keys : List (String × String)
proto_keys =
    ("id", "packet_id")
    ∷ ("to", "destination")
    ∷ ("hop_start", "hop_start")
    ∷ ("via_mqtt", "via_mqtt")
    ∷ ("relay_node", "relay_node")
    ∷ ("next_hop", "next_hop")
    ∷ []

abbrev pub ZerohopResult : Type 0
ZerohopResult = Option Bytes × Option ℤ × Fields

-- (None, None, {})
abbrev pub failed : ZerohopResult
failed = (none, none, end)

-- An integer field, once the code has checked that it is one.
abbrev pub int_field : Option Value → ℤ
int_field (some (int z)) = z
int_field _ = pos 0

-- A hop field that is there and is no integer.
abbrev is_bad : Option Value → Bool
is_bad none = false
is_bad (some v) = not (is_int v)

unfoldable pub has_bad_hops : Fields → Bool
has_bad_hops d =
    is_bad (get d "hop_limit") || is_bad (get d "hop_start") || is_bad (get d "hops_away")

-- The effective hop limit.
unfoldable pub json_hops : Fields → ℤ
json_hops d =
    if has_key d "hop_limit"
    then int_field (get d "hop_limit")
    else if has_key d "hop_start" && has_key d "hops_away"
    then max_zero (int_field (get d "hop_start") -ℤ int_field (get d "hops_away"))
    else pos 0

abbrev pub is_zero : ℤ → Bool
is_zero (pos n) = eqb n 0
is_zero (negsuc n) = false

abbrev dumped : Option Bytes → ℤ → Fields → Option ZerohopResult
dumped none hops meta = none
dumped (some bytes) hops meta = some (some bytes, some hops, meta)

-- zerohop_json, of a decoded object.
unfoldable pub zerohop_dict : JsonCodec → Fields → Option ZerohopResult
zerohop_dict json d =
    if has_bad_hops d
    then some failed
    else if is_zero (json_hops d)
    then some (none, some (pos 0), json_meta d)
    else dumped (json.dumps (obj (insert d "hop_limit" (int (pos 0))))) (json_hops d) (json_meta d)

abbrev zerohop_decoded : JsonCodec → Option Fields → Option ZerohopResult
zerohop_decoded json none = some failed
zerohop_decoded json (some d) = zerohop_dict json d

unfoldable pub zerohop_json : JsonCodec → Bytes → Option ZerohopResult
zerohop_json json payload = zerohop_decoded json (as_dict (json.loads payload))

module _ {Envelope Packet : Type 0} (proto : Meshtastic Envelope Packet) where
  -- The sender, by the descriptor's name for the field or else by the usual attributes.
  abbrev sender : Packet → Option String → Option Value
  sender pkt (some name) = some (or_else (proto.attribute pkt name) null)
  sender pkt none = first (proto.attribute pkt "from_") (proto.attribute pkt "from")

  -- _extract_proto_meta
  unfoldable pub extract_proto_meta : Packet → Fields
  extract_proto_meta pkt =
      copied (sender pkt (from_descriptor proto pkt)) "sender"
        (collect (proto.attribute pkt) proto_keys end)

  unfoldable pub zerohop_packet : Envelope → Packet → ZerohopResult
  zerohop_packet envelope pkt =
      if eqb (proto.hop_limit pkt) 0 then (none, some (pos 0), extract_proto_meta pkt) else (
        some (proto.serialize (proto.zero_hop envelope)),
        some (pos (proto.hop_limit pkt)),
        extract_proto_meta pkt,
      )

  abbrev zerohop_of : Envelope → Option Packet → ZerohopResult
  zerohop_of envelope none = failed
  zerohop_of envelope (some pkt) = zerohop_packet envelope pkt

  abbrev zerohop_parsed : Option Envelope → ZerohopResult
  zerohop_parsed none = failed
  zerohop_parsed (some envelope) = zerohop_of envelope (proto.packet envelope)

  -- zerohop_protobuf; the ImportError of _load_protos is not caught.
  unfoldable pub zerohop_protobuf : Bytes → Option ZerohopResult
  zerohop_protobuf payload =
      if proto.importable then some (zerohop_parsed (proto.parse payload)) else none

  abbrev meta_of : Option Packet → Fields
  meta_of none = end
  meta_of (some pkt) = extract_proto_meta pkt

  abbrev peek_envelope : Option Envelope → Fields
  peek_envelope none = end
  peek_envelope (some envelope) = meta_of (proto.packet envelope)

  abbrev peek_json : Option Fields → Fields
  peek_json none = end
  peek_json (some d) = json_meta d

  -- _peek_meta. A JSON value that is no object gives {}: a list or a text may hold the key, but
  -- indexing it by the key raises.
  unfoldable pub peek_meta : JsonCodec → String → Bytes → Fields
  peek_meta json encoding payload =
      if encoding == "json"
      then peek_json (as_dict (json.loads payload))
      else if proto.importable
      then peek_envelope (proto.parse payload)
      else end
