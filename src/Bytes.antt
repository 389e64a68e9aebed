-- ===== src/Bytes.antt =====
-- Python's `int.to_bytes` in little-endian order, and its inverse.
use native.Mathlib.Nat.{pow-suc}
use floodgate.Common.{
  ℕ, zero, suc, ◌+◌, ◌*◌, ◌/◌, ◌%◌, ◌^◌, ◌<◌, List, [], ◌∷◌, ◌≡◌, refl, ap, arith, length, All,
}

abbrev pub Bytes : Type 0
Bytes = List ℕ

abbrev pub IsByte : ℕ → Type 0
IsByte b = b < 256

unfoldable pub to_bytes_le : ℕ → ℕ → Bytes
to_bytes_le zero v = []
to_bytes_le (suc k) v = (v % 256) ∷ to_bytes_le k (v / 256)

unfoldable pub from_bytes_le : Bytes → ℕ
from_bytes_le [] = 0
from_bytes_le (b ∷ bs) = b + 256 * from_bytes_le bs

pub length-to_bytes_le : (k v : ℕ) → length (to_bytes_le k v) ≡ k
unfolding to_bytes_le
length-to_bytes_le zero v = refl
length-to_bytes_le (suc k) v = ap suc (length-to_bytes_le k (v / 256))

pub to_bytes_le-IsByte : (k v : ℕ) → All IsByte (to_bytes_le k v)
unfolding to_bytes_le
to_bytes_le-IsByte zero v = tt
to_bytes_le-IsByte (suc k) v = (omega arith, to_bytes_le-IsByte k (v / 256))

-- A number that fits is read back from its bytes.
pub from_bytes_le-to_bytes_le : (k v : ℕ) → v < 256 ^ k → from_bytes_le (to_bytes_le k v) ≡ v
unfolding from_bytes_le to_bytes_le
from_bytes_le-to_bytes_le zero v h = omega arith
from_bytes_le-to_bytes_le (suc k) v h =
    let small : v < 256 ^ k * 256 = rw pow-suc at h in
    let ih = from_bytes_le-to_bytes_le k (v / 256) (omega arith) in omega arith
