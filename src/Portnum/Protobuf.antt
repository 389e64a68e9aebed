-- ===== src/Portnum/Protobuf.antt =====
-- What extract_portnum_protobuf reads: the portnum of a packet under the default key.
use floodgate.Common.{
  ℕ, String, true, false, Option, none, some, ◌≡◌, ◌↔◌, ◌⊎◌, inl, inr, refl, Bool-cases,
  Option-cases,
}
use floodgate.Bytes.{Bytes}
use floodgate.Value.{Value, int, truthy}
use floodgate.Value.Int.{ℤ, pos}
use floodgate.Proto.{Meshtastic}
use floodgate.Decrypt.{Aes, decrypt, default_key, build_nonce}
use floodgate.Portnum.{
  as_int, read_from_field, from_descriptor, or_zero, packet_portnum, extract_portnum_protobuf,
  >>=-eq-some,
}

module _ {Envelope Packet : Type 0} (proto : Meshtastic Envelope Packet) where
  -- The name of the sender's field, by the descriptor.
  abbrev IsFromName : Packet → String → Type 0
  IsFromName pkt name =
      (proto.descriptor pkt "from" ≡ some name)
      ⊎ ((proto.descriptor pkt "from" ≡ none) × (proto.descriptor pkt "from_" ≡ some name))

  -- The sender: what the field holds, and 0 where there is none or where that is falsy.
  pub data IsSender (pkt : Packet) : Value → Type 0 where
    held :
        (name : String) (sender : Value)
        → IsFromName pkt name
        → proto.attribute pkt name ≡ some sender
        → truthy sender ≡ true
        → IsSender pkt sender
    unnamed :
        proto.descriptor pkt "from" ≡ none
        → proto.descriptor pkt "from_" ≡ none
        → IsSender pkt (int (pos 0))
    unheld :
        (name : String)
        → IsFromName pkt name
        → proto.attribute pkt name ≡ none
        → IsSender pkt (int (pos 0))
    falsy :
        (name : String) (sender : Value)
        → IsFromName pkt name
        → proto.attribute pkt name ≡ some sender
        → truthy sender ≡ false
        → IsSender pkt (int (pos 0))

  -- A packet whose encrypted part is a Data message with the portnum `number`, encrypted under the
  -- default key and the nonce of the packet's id and sender.
  pub record IsEncrypted (aes : Aes) (pkt : Packet) (number : ℕ) : Type 0 where
    pub id : Value
    pub packet_id : ℤ
    pub from_node : ℤ
    pub plaintext : Bytes
    pub ciphertext : Bytes
    pub has_id : proto.attribute pkt "id" ≡ some id
    pub id_number : as_int id ≡ some packet_id
    pub sender : Value
    pub has_sender : IsSender pkt sender
    pub from_number : as_int sender ≡ some from_node
    pub has_encrypted : proto.encrypted pkt ≡ some ciphertext
    pub sealed : aes.ctr default_key (build_nonce packet_id from_node) plaintext ≡ some ciphertext
    pub is_data : proto.parse_data plaintext ≡ some number

  from_name :
      (pkt : Packet) (name : String) → IsFromName pkt name → from_descriptor proto pkt ≡ some name
  unfolding from_descriptor
  from_name pkt name (inl e) = rw e refl
  from_name pkt name (inr (n, e)) = rw (n, e) refl

  attribute-IsSender :
      (pkt : Packet) (name : String) (o : Option Value)
      → IsFromName pkt name
      → proto.attribute pkt name ≡ o
      → IsSender pkt (or_zero o)
  attribute-IsSender pkt name none n e = unheld name n e
  attribute-IsSender pkt name (some v) n e = elim (Bool-cases (truthy v)) [
    | inl t ↦ rw t (held name v n e t)
    | inr f ↦ rw f (falsy name v n e f)
  ]

  read_from_field-IsSender : (pkt : Packet) → IsSender pkt (read_from_field proto pkt)
  unfolding read_from_field from_descriptor
  read_from_field-IsSender pkt = elim (Option-cases (proto.descriptor pkt "from")) [
    | inr (name, e) ↦ rw e (attribute-IsSender pkt name (proto.attribute pkt name) (inl e) refl)
    | inl n ↦ elim (Option-cases (proto.descriptor pkt "from_")) [
      | inr (name, e) ↦
          rw (n, e) (attribute-IsSender pkt name (proto.attribute pkt name) (inr (n, e)) refl)
      | inl m ↦ rw (n, m) (unnamed n m)
    ]
  ]

  IsSender-read_from_field :
      (pkt : Packet) (v : Value) → IsSender pkt v → read_from_field proto pkt ≡ v
  unfolding read_from_field
  IsSender-read_from_field pkt _ (held name v n a t) = rw (from_name pkt name n, a, t) refl
  IsSender-read_from_field pkt _ (unnamed n m) = unfold from_descriptor in rw (n, m) refl
  IsSender-read_from_field pkt _ (unheld name n a) = rw (from_name pkt name n, a) refl
  IsSender-read_from_field pkt _ (falsy name v n a f) = rw (from_name pkt name n, a, f) refl

  packet_portnum_sound :
      (aes : Aes) (pkt : Packet) (name : String)
      → packet_portnum proto aes pkt ≡ some name
      → (number : ℕ) × IsEncrypted aes pkt number × (proto.portnum_name number ≡ some name)
  unfolding packet_portnum decrypt
  packet_portnum_sound aes pkt name h =
      let (ciphertext, e, h1) = >>=-eq-some (proto.encrypted pkt) _ h in
      let (from_node, f, h2) = >>=-eq-some (as_int (read_from_field proto pkt)) _ h1 in
      let (packet_id, i, h3) = >>=-eq-some _ _ h2 in
      let (id, g, i') = >>=-eq-some _ _ i in
      let (plaintext, p, h4) = >>=-eq-some _ _ h3 in
      let (number, n, h5) = >>=-eq-some _ _ h4 in
      (
        number,
        record {
          id = id;
          packet_id = packet_id;
          from_node = from_node;
          plaintext = plaintext;
          ciphertext = ciphertext;
          has_id = g;
          id_number = i';
          sender = read_from_field proto pkt;
          has_sender = read_from_field-IsSender pkt;
          from_number = f;
          has_encrypted = e;
          sealed =
              aes.symmetric default_key (build_nonce packet_id from_node) ciphertext plaintext p;
          is_data = n;
        },
        h5,
      )

  packet_portnum_complete :
      (aes : Aes) (pkt : Packet) (name : String) (number : ℕ)
      → IsEncrypted aes pkt number
      → proto.portnum_name number ≡ some name
      → packet_portnum proto aes pkt ≡ some name
  unfolding packet_portnum decrypt
  packet_portnum_complete aes pkt name number c n =
      let open_again =
        aes.symmetric default_key (build_nonce c.packet_id c.from_node) c.plaintext c.ciphertext
          c.sealed in
      rw (
        c.has_encrypted,
        IsSender-read_from_field pkt c.sender c.has_sender,
        c.from_number,
        c.has_id,
        c.id_number,
        open_again,
        c.is_data,
        n,
      )

  -- A protobuf payload has a portnum exactly if the generated modules can be imported, it parses to
  -- an envelope with a packet, and that packet's encrypted part is a Data message of a known portnum
  -- under the default key and the nonce of its id and its sender. The sender is what the field named
  -- by the descriptor holds, and 0 where there is no such field or where what it holds is falsy.
  pub extract_portnum_protobuf_iff :
      (aes : Aes) (payload : Bytes) (name : String)
      → (extract_portnum_protobuf proto aes payload ≡ some name) ↔ (
          (proto.importable ≡ true)
          × ((env : Envelope) × (pkt : Packet) × (number : ℕ) × (proto.parse payload ≡ some env)
              × (proto.packet env ≡ some pkt)
              × IsEncrypted aes pkt number
              × (proto.portnum_name number ≡ some name)))
  unfolding extract_portnum_protobuf
  extract_portnum_protobuf_iff aes payload name = (
    λ h. elim (Bool-cases proto.importable) [
      | inr absent ↦ cc (rw absent at h)
      | inl present ↦
          let (env, e, k) = >>=-eq-some (proto.parse payload) _ (simp present at h) in
          let (pkt, p, l) = >>=-eq-some (proto.packet env) _ k in
          let (number, c, n) = packet_portnum_sound aes pkt name l in
          (present, (env, pkt, number, e, p, c, n))
    ],
    λ (present, (env, pkt, number, e, p, c, n)).
        simp present (rw (e, p) (packet_portnum_complete aes pkt name number c n)),
  )
