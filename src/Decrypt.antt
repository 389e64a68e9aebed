-- ===== src/Decrypt.antt =====
-- src/floodgate/decrypt.py: the nonce and the call of AES-128-CTR. A byte is a number below 256.
pub mod Nonce
mod Tests
use floodgate.Common.{◌≡◌, some, Option, List, [], ◌∷◌, ◌++◌}
use floodgate.Value.Int.{ℤ, low_bits}
use floodgate.Bytes.{Bytes, to_bytes_le}

-- The AES cipher of the `cryptography` package in counter mode, by key, nonce and data; `none` where
-- it raises. The package documents that one call both encrypts and decrypts.
pub record Aes : Type 0 where
  pub ctr : Bytes → Bytes → Bytes → Option Bytes
  pub symmetric :
      (key nonce text cipher : Bytes)
      → ctr key nonce text ≡ some cipher
      → ctr key nonce cipher ≡ some text

-- d4f1bb3a20290759f0bcffabcf4e6901
abbrev pub default_key : Bytes
default_key =
    0xd4 ∷ 0xf1 ∷ 0xbb ∷ 0x3a ∷ 0x20 ∷ 0x29 ∷ 0x07 ∷ 0x59 ∷ 0xf0 ∷ 0xbc ∷ 0xff ∷ 0xab ∷ 0xcf ∷ 0x4e
    ∷ 0x69 ∷ 0x01 ∷ []

unfoldable pub build_nonce : ℤ → ℤ → Bytes
unfolding to_bytes_le
build_nonce packet_id from_node =
    to_bytes_le 8 (low_bits 64 packet_id)
    ++ to_bytes_le 4 (low_bits 32 from_node)
    ++ 0 ∷ 0 ∷ 0 ∷ 0 ∷ []

unfoldable pub decrypt : Aes → Bytes → ℤ → ℤ → Bytes → Option Bytes
decrypt aes ciphertext packet_id from_node key =
    aes.ctr key (build_nonce packet_id from_node) ciphertext
