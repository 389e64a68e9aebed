-- ===== src/Zerohop/Sound.antt =====
-- A result of src/floodgate/zerohop.py that has no bytes has the hop limit 0, or none.
use floodgate.Common.{Option, none, some, ◌≡◌, refl, Option-cases, Bool-cases, inl, inr, eqb}
use floodgate.Bytes.{Bytes}
use floodgate.Value.{obj, Fields, insert, int}
use floodgate.Value.Int.{pos}
use floodgate.Value.Json.{JsonCodec}
use floodgate.Proto.{Meshtastic}
use floodgate.Portnum.{as_dict}
use floodgate.Zerohop.{
  ZerohopResult, zerohop_packet, zerohop_parsed, zerohop_protobuf, zerohop_dict, zerohop_json,
  has_bad_hops, json_hops, is_zero,
}

-- Without bytes, a result has the hop limit 0 or none.
abbrev pub IsSound : Option ZerohopResult → Type 0
IsSound (some (none, some hops, meta)) = hops ≡ pos 0
IsSound _ = Unit

zerohop_dict-IsSound : (json : JsonCodec) (d : Fields) → IsSound (zerohop_dict json d)
unfolding zerohop_dict
zerohop_dict-IsSound json d = elim (Bool-cases (has_bad_hops d)) [
  | inl b ↦ rw b tt
  | inr b ↦ elim (Bool-cases (is_zero (json_hops d))) [
    | inl z ↦ rw (b, z) refl
    | inr z ↦ elim (Option-cases (json.dumps (obj (insert d "hop_limit" (int (pos 0)))))) [
      | inl n ↦ rw (b, z, n) tt
      | inr (bytes, n) ↦ rw (b, z, n) tt
    ]
  ]
]

pub zerohop_json-IsSound :
    (json : JsonCodec) (payload : Bytes) → IsSound (zerohop_json json payload)
unfolding zerohop_json
zerohop_json-IsSound json payload = elim (Option-cases (as_dict (json.loads payload))) [
  | inl e ↦ rw e tt
  | inr (d, e) ↦ rw e (zerohop_dict-IsSound json d)
]

module _ {Envelope Packet : Type 0} (proto : Meshtastic Envelope Packet) where
  zerohop_packet-IsSound :
      (env : Envelope) (pkt : Packet) → IsSound (some (zerohop_packet proto env pkt))
  unfolding zerohop_packet
  zerohop_packet-IsSound env pkt = elim (Bool-cases (eqb (proto.hop_limit pkt) 0)) [
    | inl e ↦ rw e refl
    | inr e ↦ rw e tt
  ]

  zerohop_parsed-IsSound : (o : Option Envelope) → IsSound (some (zerohop_parsed proto o))
  zerohop_parsed-IsSound none = tt
  zerohop_parsed-IsSound (some env) = elim (Option-cases (proto.packet env)) [
    | inl e ↦ rw e tt
    | inr (pkt, e) ↦ rw e (zerohop_packet-IsSound env pkt)
  ]

  pub zerohop_protobuf-IsSound : (payload : Bytes) → IsSound (zerohop_protobuf proto payload)
  unfolding zerohop_protobuf
  zerohop_protobuf-IsSound payload = elim (Bool-cases proto.importable) [
    | inl e ↦ simp e (zerohop_parsed-IsSound (proto.parse payload))
    | inr e ↦ simp e tt
  ]
