-- ===== src/Decrypt/Nonce.antt =====
-- The layout of the AES nonce, and what it tells apart.
use floodgate.Common.{
  ℕ, ◌^◌, ◌<◌, [], ◌∷◌, ◌++◌, ◌≡◌, ◌↔◌, refl, ap, sym, ◌∙◌, arith, length, All, All-append, take,
  drop,
}
use floodgate.Value.Int.{ℤ, pos, negsuc, low_bits}
use floodgate.Bytes.{
  Bytes, IsByte, to_bytes_le, from_bytes_le, to_bytes_le-IsByte, from_bytes_le-to_bytes_le,
}
use floodgate.Decrypt.{build_nonce}

low_bits_64 : (z : ℤ) → low_bits 64 z < 256 ^ 8
unfolding low_bits
low_bits_64 (pos n) = omega arith
low_bits_64 (negsuc n) = omega arith

low_bits_32 : (z : ℤ) → low_bits 32 z < 256 ^ 4
unfolding low_bits
low_bits_32 (pos n) = omega arith
low_bits_32 (negsuc n) = omega arith

pub record HasLayout (nonce : Bytes) (packet_id from_node : ℕ) : Type 0 where
  pub size : length nonce ≡ 16
  pub bytes : All IsByte nonce
  pub id_bytes : from_bytes_le (take 8 nonce) ≡ packet_id
  pub node_bytes : from_bytes_le (take 4 (drop 8 nonce)) ≡ from_node
  pub extra_bytes : drop 12 nonce ≡ 0 ∷ 0 ∷ 0 ∷ 0 ∷ []

-- For every packet id and node number, negative ones included: the nonce has 16 bytes, the first
-- eight spell the low 64 bits of the id and the next four the low 32 bits of the node, both least
-- significant byte first, and the last four are zero.
pub build_nonce-HasLayout :
    (packet_id from_node : ℤ)
    → HasLayout (build_nonce packet_id from_node) (low_bits 64 packet_id) (low_bits 32 from_node)
unfolding build_nonce
build_nonce-HasLayout packet_id from_node =
    let id_part : Bytes = to_bytes_le 8 (low_bits 64 packet_id) in
    let node_part : Bytes = to_bytes_le 4 (low_bits 32 from_node) in
    let extra : Bytes = 0 ∷ 0 ∷ 0 ∷ 0 ∷ [] in
    let extra_fits : All IsByte extra = omega arith in
    record {
      size = refl;
      bytes =
          All-append IsByte id_part (node_part ++ extra)
            (to_bytes_le-IsByte 8 (low_bits 64 packet_id))
            (All-append IsByte node_part extra (to_bytes_le-IsByte 4 (low_bits 32 from_node))
              extra_fits);
      id_bytes = from_bytes_le-to_bytes_le 8 (low_bits 64 packet_id) (low_bits_64 packet_id);
      node_bytes = from_bytes_le-to_bytes_le 4 (low_bits 32 from_node) (low_bits_32 from_node);
      extra_bytes = refl;
    }

-- Two packets share a nonce exactly when their ids agree in 64 bits and their nodes in 32.
build_nonce_inj :
    (i j f g : ℤ)
    → (build_nonce i f ≡ build_nonce j g)
      ↔ ((low_bits 64 i ≡ low_bits 64 j) × (low_bits 32 f ≡ low_bits 32 g))
build_nonce_inj i j f g =
    let a = build_nonce-HasLayout i f in
    let b = build_nonce-HasLayout j g in
    (
      λ e. (
        sym a.id_bytes ∙ ap (λ n. from_bytes_le (take 8 n)) e ∙ b.id_bytes,
        sym a.node_bytes ∙ ap (λ n. from_bytes_le (take 4 (drop 8 n))) e ∙ b.node_bytes,
      ),
      λ h. unfold build_nonce in cc,
    )
