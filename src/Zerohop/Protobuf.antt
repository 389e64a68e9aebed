-- ===== src/Zerohop/Protobuf.antt =====
-- What zerohop_protobuf does to an envelope.
use floodgate.Common.{
  ◌<◌, String, true, false, none, some, ◌≡◌, ◌≢◌, refl, sym, ap, ◌∙◌, arith, inl, inr, Option-cases,
  ◌==◌, eq_iff,
}
use floodgate.Bytes.{Bytes}
use floodgate.Value.{Fields, end}
use floodgate.Value.Int.{ℤ, pos}
use floodgate.Proto.{Meshtastic}
use floodgate.Decrypt.{Aes}
use floodgate.Portnum.{
  from_descriptor, read_from_field, packet_portnum, extract_portnum_protobuf, first-some,
}
use floodgate.Zerohop.{
  proto_keys, ZerohopResult, failed, copied, sender, extract_proto_meta, zerohop_packet,
  zerohop_parsed, zerohop_protobuf,
}
use floodgate.Zerohop.Json.{collect_cong}

module _ {Envelope Packet : Type 0} (proto : Meshtastic Envelope Packet) where
  -- What a successful zerohop_protobuf has read and written.
  pub record IsZeroedEnvelope (payload bytes : Bytes) (hops : ℤ) (meta : Fields) : Type 0 where
    pub before : Envelope
    pub packet : Packet
    pub parsed : proto.parse payload ≡ some before
    pub has_packet : proto.packet before ≡ some packet
    pub limit : hops ≡ pos (proto.hop_limit packet)
    pub positive : 0 < proto.hop_limit packet
    pub reparsed : proto.parse bytes ≡ some (proto.zero_hop before)
    pub cleared : proto.packet (proto.zero_hop before) ≡ some (proto.zeroed packet)
    pub metadata : meta ≡ extract_proto_meta proto packet

  attribute_same :
      (pkt : Packet) (name : String)
      → (name == "hop_limit") ≡ false
      → proto.attribute (proto.zeroed pkt) name ≡ proto.attribute pkt name
  attribute_same pkt name h =
      proto.attribute-zeroed pkt name (λ e. ground (arith, h, (eq_iff name "hop_limit").1 e))

  from_descriptor-zeroed :
      (pkt : Packet) → from_descriptor proto (proto.zeroed pkt) ≡ from_descriptor proto pkt
  unfolding from_descriptor
  from_descriptor-zeroed pkt =
      rw (proto.descriptor-zeroed pkt "from", proto.descriptor-zeroed pkt "from_")

  -- The name that the descriptor gives is one of the two.
  from_descriptor_name :
      (pkt : Packet) (name : String)
      → from_descriptor proto pkt ≡ some name
      → (name == "hop_limit") ≡ false
  unfolding from_descriptor
  from_descriptor_name pkt name h =
      elim (first-some (proto.descriptor pkt "from") (proto.descriptor pkt "from_") name h) [
        | inl e ↦ rw (proto.descriptor_name pkt "from" name e)
        | inr (_, e) ↦ rw (proto.descriptor_name pkt "from_" name e)
      ]

  sender_attribute :
      (pkt : Packet) (name : String)
      → from_descriptor proto pkt ≡ some name
      → proto.attribute (proto.zeroed pkt) name ≡ proto.attribute pkt name
  sender_attribute pkt name h = attribute_same pkt name (from_descriptor_name pkt name h)

  sender-zeroed :
      (pkt : Packet)
      → sender proto (proto.zeroed pkt) (from_descriptor proto (proto.zeroed pkt))
        ≡ sender proto pkt (from_descriptor proto pkt)
  sender-zeroed pkt =
      rw (from_descriptor-zeroed pkt) (elim (Option-cases (from_descriptor proto pkt)) [
        | inl e ↦ rw (e, attribute_same pkt "from_" refl, attribute_same pkt "from" refl)
        | inr (name, e) ↦ rw (e, sender_attribute pkt name e)
      ])

  extract_proto_meta-zeroed :
      (pkt : Packet) → extract_proto_meta proto (proto.zeroed pkt) ≡ extract_proto_meta proto pkt
  unfolding extract_proto_meta
  extract_proto_meta-zeroed pkt = rw (sender-zeroed pkt) (
      ap (copied (sender proto pkt (from_descriptor proto pkt)) "sender") (
        collect_cong (proto.attribute (proto.zeroed pkt)) (proto.attribute pkt) proto_keys end (
          attribute_same pkt "id" refl,
          (
            attribute_same pkt "to" refl,
            (
              attribute_same pkt "hop_start" refl,
              (
                attribute_same pkt "via_mqtt" refl,
                (attribute_same pkt "relay_node" refl, (attribute_same pkt "next_hop" refl, tt)),
              ),
            ),
          ),
        )))

  zeroed_packet :
      (env : Envelope) (pkt : Packet)
      → zerohop_packet proto env (proto.zeroed pkt)
        ≡ (none, some (pos 0), extract_proto_meta proto pkt)
  unfolding zerohop_packet
  zeroed_packet env pkt = rw (proto.hop_limit-zeroed pkt, extract_proto_meta-zeroed pkt)

  reparsed_packet :
      (env : Envelope) (pkt : Packet)
      → proto.packet env ≡ some pkt
      → zerohop_parsed proto (proto.parse (proto.serialize (proto.zero_hop env)))
        ≡ (none, some (pos 0), extract_proto_meta proto pkt)
  reparsed_packet env pkt h =
      rw (proto.parse-serialize (proto.zero_hop env), proto.packet-zero_hop env pkt h)
        (zeroed_packet (proto.zero_hop env) pkt)

  zerohop_protobuf_parsed :
      (payload : Bytes) (r : ZerohopResult)
      → zerohop_protobuf proto payload ≡ some r
      → (proto.importable ≡ true) × (zerohop_parsed proto (proto.parse payload) ≡ r)
  unfolding zerohop_protobuf
  zerohop_protobuf_parsed payload r h = ground arith

  zerohop_packet_sound :
      (env : Envelope) (pkt : Packet) (bytes : Bytes) (hops : ℤ) (meta : Fields)
      → zerohop_packet proto env pkt ≡ (some bytes, some hops, meta)
      → (0 < proto.hop_limit pkt)
        × (hops ≡ pos (proto.hop_limit pkt))
        × (bytes ≡ proto.serialize (proto.zero_hop env))
        × (meta ≡ extract_proto_meta proto pkt)
  unfolding zerohop_packet
  zerohop_packet_sound env pkt bytes hops meta h = ground arith

  bytes_ne_failed :
      {bytes : Bytes} {hops : ℤ} {meta : Fields}
      → ◌≢◌ {A = ZerohopResult} failed (some bytes, some hops, meta)
  bytes_ne_failed e = cc

  -- Where zerohop_protobuf returns bytes, the payload parsed to an envelope with a packet whose hop
  -- limit is the one returned and above 0, and the bytes parse to that envelope with its hop limit
  -- zeroed. The metadata are the packet's.
  pub zerohop_protobuf-IsZeroedEnvelope :
      (payload bytes : Bytes) (hops : ℤ) (meta : Fields)
      → zerohop_protobuf proto payload ≡ some (some bytes, some hops, meta)
      → IsZeroedEnvelope payload bytes hops meta
  zerohop_protobuf-IsZeroedEnvelope payload bytes hops meta h =
      let parsed = (zerohop_protobuf_parsed payload (some bytes, some hops, meta) h).1 in
      elim (Option-cases (proto.parse payload)) [
        | inl e ↦ absurd (bytes_ne_failed (rw e at parsed))
        | inr (env, e) ↦ elim (Option-cases (proto.packet env)) [
          | inl f ↦ absurd (bytes_ne_failed (rw (e, f) at parsed))
          | inr (pkt, f) ↦
              let (more, limit, out, data_of) =
                zerohop_packet_sound env pkt bytes hops meta (rw (e, f) at parsed) in
              record {
                before = env;
                packet = pkt;
                parsed = e;
                has_packet = f;
                limit = limit;
                positive = more;
                reparsed = ap proto.parse out ∙ proto.parse-serialize (proto.zero_hop env);
                cleared = proto.packet-zero_hop env pkt f;
                metadata = data_of;
              }
        ]
      ]

  zerohop_importable :
      (payload bytes : Bytes)
      → proto.importable ≡ true
      → zerohop_protobuf proto payload ≡ some (zerohop_parsed proto (proto.parse payload))
  unfolding zerohop_protobuf
  zerohop_importable payload bytes h = simp h

  -- What zerohop_protobuf has written it leaves alone the next time: the hop limit is 0 already, and
  -- the metadata are the same.
  pub zerohop_protobuf_again :
      (payload bytes : Bytes) (hops : ℤ) (meta : Fields)
      → zerohop_protobuf proto payload ≡ some (some bytes, some hops, meta)
      → zerohop_protobuf proto bytes ≡ some (none, some (pos 0), meta)
  zerohop_protobuf_again payload bytes hops meta h =
      let z = zerohop_protobuf-IsZeroedEnvelope payload bytes hops meta h in
      let there = (zerohop_protobuf_parsed payload (some bytes, some hops, meta) h).0 in
      zerohop_importable bytes bytes there
      ∙ ap some (
          rw (z.reparsed, z.cleared)
            (zeroed_packet (proto.zero_hop z.before) z.packet
              ∙ ap (λ (m : Fields). (none, some (pos 0), m)) (sym z.metadata)))

  read_from_field-zeroed :
      (pkt : Packet) → read_from_field proto (proto.zeroed pkt) ≡ read_from_field proto pkt
  unfolding read_from_field
  read_from_field-zeroed pkt =
      rw (from_descriptor-zeroed pkt) (elim (Option-cases (from_descriptor proto pkt)) [
        | inl e ↦ rw e
        | inr (name, e) ↦ rw (e, sender_attribute pkt name e)
      ])

  packet_portnum-zeroed :
      (aes : Aes) (pkt : Packet)
      → packet_portnum proto aes (proto.zeroed pkt) ≡ packet_portnum proto aes pkt
  unfolding packet_portnum
  packet_portnum-zeroed aes pkt =
      simp (proto.encrypted-zeroed pkt, read_from_field-zeroed pkt, attribute_same pkt "id" refl)

  -- Zeroing the hop limit does not change the portnum that the drop filter reads from the payload.
  pub extract_portnum-zerohop :
      (aes : Aes) (payload bytes : Bytes) (hops : ℤ) (meta : Fields)
      → zerohop_protobuf proto payload ≡ some (some bytes, some hops, meta)
      → extract_portnum_protobuf proto aes bytes ≡ extract_portnum_protobuf proto aes payload
  unfolding extract_portnum_protobuf
  extract_portnum-zerohop aes payload bytes hops meta h =
      let z = zerohop_protobuf-IsZeroedEnvelope payload bytes hops meta h in
      simp (z.reparsed, z.cleared, z.parsed, z.has_packet, packet_portnum-zeroed aes z.packet)

  -- For a payload that parses to an envelope with a packet, no exception is left.
  pub zerohop_protobuf-packet :
      (payload : Bytes) (env : Envelope) (pkt : Packet)
      → proto.importable ≡ true
      → proto.parse payload ≡ some env
      → proto.packet env ≡ some pkt
      → zerohop_protobuf proto payload ≡ some (zerohop_packet proto env pkt)
  unfolding zerohop_protobuf
  zerohop_protobuf-packet payload env pkt i e p = simp i (rw (e, p) refl)
