-- ===== src/Broker/ZeroHop.antt =====
-- The promise of src/floodgate: on a zero-hop channel no packet that can be read is delivered with
-- hops left.
pub mod Protobuf
pub mod Json
use floodgate.Common.{
  String, Bool, true, false, Option, none, some, List, [], ◌∷◌, ◌≡◌, ◌≢◌, ◌⊎◌, ◌↔◌, inl, inr, refl,
  sym, ap, ◌∙◌, arith, ◌==◌, eq_iff, eqb, Bool-cases, Option-cases, if◌then◌else◌,
}
use floodgate.Bytes.{Bytes}
use floodgate.Value.{Value, bool, int, obj, Fields, field, end, get, insert, truthy}
use floodgate.Value.Int.{ℤ, pos}
use floodgate.Value.Distinct.{IsDistinct, insert-HasDistinctKeys}
use floodgate.Config.{Config, item}
use floodgate.Config.Load.{Machine}
use floodgate.Config.Policy.{should_zerohop, should_drop}
use floodgate.Config.Policy.Loaded.{should_zerohop_iff, should_drop_iff}
use floodgate.Config.Valid.Loads.{Loads}
use floodgate.Common.Text.{contains}
use floodgate.Topic.{parse_meshtastic_topic}
use floodgate.Portnum.{lookup, as_dict}
use floodgate.Zerohop.{
  ZerohopResult, json_meta, json_hops, has_bad_hops, is_zero, zerohop_dict, zerohop_packet,
  zerohop_protobuf, extract_proto_meta, peek_meta,
}
use floodgate.Service.{Service}
use floodgate.Process.Format.{fmt_node, fmt_relay}
use floodgate.Process.Describe.{meta_get, description, drop_description}
use floodgate.Process.{
  ProcessResult, passthru, modify, drop, World, drop_check, zerohop_of, process_message,
  is_zero_hop, hop_value, portnum_of,
}
use floodgate.Process.Verdicts.{finished, zerohop_verdict, packet_verdict, process_packet_case}
use floodgate.Process.Bypass.{zerohop_json_of, peek_meta_json}
use floodgate.ExHook.{Message}
use floodgate.Process.Laws.Drops.{IsToDrop, process_message-drop_iff}
use floodgate.Broker.{Broker, in_time, IsAllowed, delivered}
use floodgate.Broker.Delivery.{delivered-passthru, delivered-drop, delivered-modify}

-- Metadata whose nodes and relay have a format: with the firmware's packets all three are numbers.
pub record HasNodes (meta : Fields) : Type 0 where
  pub from : String
  pub to : String
  pub relay : Value
  pub from_node : fmt_node (get meta "sender") ≡ some from
  pub to_node : fmt_node (get meta "destination") ≡ some to
  pub relay_node : fmt_relay (get meta "relay_node") ≡ some relay

description-HasNodes :
    (meta hops : Fields) → HasNodes meta → (d : Fields) × (description meta hops ≡ some d)
unfolding description
description-HasNodes meta hops n = elim (Option-cases (description meta hops)) [
  | inl e ↦ absurd (ground (arith, rw (n.from_node, n.to_node, n.relay_node) at e))
  | inr found ↦ found
]

drop_description-HasNodes :
    (meta : Fields) (portnum : Option String)
    → HasNodes meta
    → (d : Fields) × (drop_description meta portnum ≡ some d)
unfolding drop_description
drop_description-HasNodes meta portnum n = elim (Option-cases (drop_description meta portnum)) [
  | inl e ↦ absurd (ground (arith, rw (n.from_node, n.to_node) at e))
  | inr found ↦ found
]

-- A result of a zero-hop function after which a payload with the property is delivered: the original
-- where nothing is to be changed, or else the bytes of the result.
abbrev pub Settles : (Bytes → Type 0) → Bytes → ZerohopResult → Type 0
Settles P payload (none, none, meta) = ⊥
Settles P payload (none, some hops, meta) = (is_zero hops ≡ true) × P payload
Settles P payload (some bytes, old_hop, meta) =
    (is_zero_hop old_hop ≡ false) × P bytes × HasNodes meta

finished-Settles :
    (P : Bytes → Type 0) (payload : Bytes) (r : ZerohopResult)
    → Settles P payload r
    → ((finished r ≡ passthru) × P payload)
      ⊎ ((bytes : Bytes) × (finished r ≡ modify (some bytes)) × P bytes)
finished-Settles P payload (none, none, meta) h = absurd h
finished-Settles P payload (none, some hops, meta) (z, p) = inl (rw z refl, p)
finished-Settles P payload (some bytes, old_hop, meta) (z, p, n) =
    let (d, e) = description-HasNodes meta (field "hop_limit" (hop_value old_hop) end) n in
    inr (bytes, rw (z, e) refl, p)

-- The zero-hop filter is on, and it is on for the channel.
abbrev pub IsZeroHopChannel :
    {machine : Machine} {config_path : Option String} {config : Config}
    → Loads machine config_path config
    → String
    → Type 0
IsZeroHopChannel l channel =
    (item l.values "zerohop_enabled" ≡ bool true) × (contains l.zerohop channel ≡ true)

module _ {Envelope Packet : Type 0} (broker : Broker) (world : World Envelope Packet) where
  -- Withheld, if it is to be dropped, or delivered with a payload that has the property, everything
  -- else kept.
  abbrev pub DeliversOnly : (Bytes → Type 0) → Config → Message → Option Message → Type 0
  DeliversOnly P config msg o =
      ((o ≡ none) × IsToDrop world msg.topic msg.payload config)
      ⊎ ((bytes : Bytes) × (o ≡ some (record msg { payload = bytes })) × P bytes)

  pub packet-DeliversOnly :
      (P : Bytes → Type 0) (config : Config) (msg : Message) (s : Service)
      (channel encoding : String) (decision : Bool × Option String) (r : ZerohopResult)
      → parse_meshtastic_topic msg.topic ≡ some (channel, encoding)
      → drop_check world config channel encoding msg.payload ≡ some decision
      → should_zerohop config channel ≡ some true
      → zerohop_of world encoding msg.payload ≡ some r
      → Settles P msg.payload r
      → HasNodes (peek_meta world.proto world.json encoding msg.payload)
      → IsAllowed msg
      → DeliversOnly P config msg (delivered broker world config in_time msg s)
  packet-DeliversOnly P config msg s channel encoding (true, portnum) r t k w z h n a =
      let (d, e) =
        drop_description-HasNodes (peek_meta world.proto world.json encoding msg.payload) portnum
          n in
      let dropped =
        process_packet_case world msg.topic msg.payload config s channel encoding t
        ∙ rw (k, e) refl in
      inl (
        delivered-drop broker world config msg s dropped,
        (process_message-drop_iff world msg.topic msg.payload config s).0 dropped,
      )
  packet-DeliversOnly P config msg s channel encoding (false, portnum) r t k w z h n a =
      let result = process_packet_case world msg.topic msg.payload config s channel encoding t in
      elim (finished-Settles P msg.payload r h) [
        | inl (e, p) ↦ inr (
          msg.payload,
          delivered-passthru broker world config msg s a (result ∙ rw (k, w, z) e),
          p,
        )
        | inr (bytes, e, p) ↦
            inr (
              bytes,
              delivered-modify broker world config msg s bytes a (result ∙ rw (k, w, z) e),
              p,
            )
      ]
