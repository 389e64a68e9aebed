-- ===== src/Process/Bypass.antt =====
-- A sender that _fmt_node of src/floodgate/zerohop.py cannot format.
use floodgate.Common.{
  String, Bool, true, false, Option, none, some, ◌≡◌, ◌⊎◌, refl, ◌∙◌, Option-cases, Bool-cases, inl,
  inr, if◌then◌else◌,
}
use floodgate.Bytes.{Bytes}
use floodgate.Value.{Value, Items, float, arr, obj, Fields, end, field, get, insert, int}
use floodgate.Value.Int.{pos}
use floodgate.Value.Json.{JsonCodec}
use floodgate.Config.{Config}
use floodgate.Config.Policy.{should_zerohop}
use floodgate.Topic.{parse_meshtastic_topic}
use floodgate.Portnum.{as_dict}
use floodgate.Zerohop.{
  ZerohopResult, json_meta, zerohop_dict, zerohop_json, peek_meta, has_bad_hops, json_hops, is_zero,
}
use floodgate.Zerohop.Meta.{json_meta_sender, json_meta_destination}
use floodgate.Service.{Service}
use floodgate.Process.Format.{fmt_node}
use floodgate.Process.Describe.{description, drop_description}
use floodgate.Process.{
  ProcessResult, passthru, World, drop_check, zerohop_of, process_message, is_zero_hop, hop_value,
}
use floodgate.Process.Verdicts.{finished, zerohop_verdict, packet_verdict, process_packet_case}

-- A value that `08x` cannot format: a float, a list or an object.
abbrev pub HasNoFormat : Value → Type 0
HasNoFormat v =
    ((t : Bool) × (r : String) × (v ≡ float t r))
    ⊎ ((xs : Items) × (v ≡ arr xs))
    ⊎ ((e : Fields) × (v ≡ obj e))

-- Metadata with a node that _fmt_node raises on.
abbrev HasBadNode : Fields → Type 0
HasBadNode meta = (fmt_node (get meta "sender") ≡ none) ⊎ (fmt_node (get meta "destination") ≡ none)

fmt_node_raises : (v : Value) → HasNoFormat v → fmt_node (some v) ≡ none
unfolding fmt_node
fmt_node_raises v (inl (t, r, e)) = rw e
fmt_node_raises v (inr (inl (xs, e))) = rw e
fmt_node_raises v (inr (inr (d, e))) = rw e

json_meta-HasBadNode :
    (d : Fields) (v : Value)
    → HasNoFormat v
    → (get d "from" ≡ some v) ⊎ (get d "to" ≡ some v)
    → HasBadNode (json_meta d)
json_meta-HasBadNode d v n (inl e) = inl (rw (json_meta_sender d, e) (fmt_node_raises v n))
json_meta-HasBadNode d v n (inr e) = inr (rw (json_meta_destination d, e) (fmt_node_raises v n))

description-none : (meta hops : Fields) → HasBadNode meta → description meta hops ≡ none
unfolding description
description-none meta hops (inl e) = rw e
description-none meta hops (inr e) = elim (Option-cases (fmt_node (get meta "sender"))) [
  | inl f ↦ rw f
  | inr (from, f) ↦ rw (f, e)
]

drop_description-none :
    (meta : Fields) (portnum : Option String)
    → HasBadNode meta
    → drop_description meta portnum ≡ none
unfolding drop_description
drop_description-none meta portnum (inl e) = rw e
drop_description-none meta portnum (inr e) = elim (Option-cases (fmt_node (get meta "sender"))) [
  | inl f ↦ rw f
  | inr (from, f) ↦ rw (f, e)
]

either_passes : (b : Bool) → (if b then passthru else passthru) ≡ passthru
either_passes true = refl
either_passes false = refl

finished_passes : (r : ZerohopResult) → HasBadNode r.2 → finished r ≡ passthru
finished_passes (none, none, meta) e = refl
finished_passes (none, some hops, meta) e =
    rw (description-none meta (field "hop_limit" (int hops) end) e) (either_passes (is_zero hops))
finished_passes (some bytes, old_hop, meta) e =
    rw (description-none meta (field "hop_limit" (hop_value old_hop) end) e)
      (either_passes (is_zero_hop old_hop))

-- A result that carries the metadata of `d`, or that failed.
zerohop_dict_passes :
    (json : JsonCodec) (d : Fields) (wanted : Option Bool)
    → HasBadNode (json_meta d)
    → zerohop_verdict wanted (zerohop_dict json d) ≡ passthru
unfolding zerohop_dict
zerohop_dict_passes json d none e = refl
zerohop_dict_passes json d (some false) e = refl
zerohop_dict_passes json d (some true) e = elim (Bool-cases (has_bad_hops d)) [
  | inl b ↦ rw b
  | inr b ↦ elim (Bool-cases (is_zero (json_hops d))) [
    | inl z ↦ rw (b, z)
    | inr z ↦ elim (Option-cases (json.dumps (obj (insert d "hop_limit" (int (pos 0)))))) [
      | inl n ↦ rw (b, z, n)
      | inr (bytes, n) ↦
          rw (b, z, n) (finished_passes (some bytes, some (json_hops d), json_meta d) e)
    ]
  ]
]

pub peek_meta_json :
    {Envelope Packet : Type 0} (world : World Envelope Packet) (payload : Bytes) (d : Fields)
    → as_dict (world.json.loads payload) ≡ some d
    → peek_meta world.proto world.json "json" payload ≡ json_meta d
unfolding peek_meta
peek_meta_json world payload d e = rw e

pub zerohop_json_of :
    {Envelope Packet : Type 0} (world : World Envelope Packet) (payload : Bytes) (d : Fields)
    → as_dict (world.json.loads payload) ≡ some d
    → zerohop_of world "json" payload ≡ zerohop_dict world.json d
unfolding zerohop_of zerohop_json
zerohop_json_of world payload d e = rw e

packet_passes :
    {Envelope Packet : Type 0} (world : World Envelope Packet) (payload : Bytes)
    (o : Option (Bool × Option String)) (r : ProcessResult)
    → ((portnum : Option String)
        → drop_description (peek_meta world.proto world.json "json" payload) portnum ≡ none)
    → r ≡ passthru
    → packet_verdict world "json" payload o r ≡ passthru
packet_passes world payload none r h e = refl
packet_passes world payload (some (true, portnum)) r h e = rw (h portnum)
packet_passes world payload (some (false, portnum)) r h e = e

-- Whatever the configuration, a JSON packet whose `from` or `to` is a float, a list or an object
-- passes through unchanged: it is never dropped and never zero-hopped.
pub process_message_unprintable :
    {Envelope Packet : Type 0} (world : World Envelope Packet) (topic : String) (payload : Bytes)
    (config : Config) (s : Service) (channel : String) (d : Fields) (v : Value)
    → parse_meshtastic_topic topic ≡ some (channel, "json")
    → as_dict (world.json.loads payload) ≡ some d
    → HasNoFormat v
    → (get d "from" ≡ some v) ⊎ (get d "to" ≡ some v)
    → (process_message world topic payload config s).0 ≡ passthru
process_message_unprintable world topic payload config s channel d v t l n u =
    let e = json_meta-HasBadNode d v n u in
    let undescribed : (portnum : Option String)
        → drop_description (peek_meta world.proto world.json "json" payload) portnum ≡ none =
      λ portnum.
        rw (peek_meta_json world payload d l) (drop_description-none (json_meta d) portnum e) in
    let unchanged : zerohop_verdict (should_zerohop config channel)
          (zerohop_of world "json" payload)
        ≡ passthru =
      rw (zerohop_json_of world payload d l)
        (zerohop_dict_passes world.json d (should_zerohop config channel) e) in
    process_packet_case world topic payload config s channel "json" t
    ∙ packet_passes world payload (drop_check world config channel "json" payload) _ undescribed
        unchanged
