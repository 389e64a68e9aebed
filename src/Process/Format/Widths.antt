-- ===== src/Process/Format/Widths.antt =====
-- What _fmt_node and the `relay` entry of src/floodgate/zerohop.py write for a number: the hexadecimal
-- digits of the number, as many as the width.
use Prim.Native.String
use floodgate.Common.{ℕ, ◌<◌, ◌≡◌, refl, String, true, some, arith}
use floodgate.Value.{int, str, truthy}
use floodgate.Value.Int.{ℤ, pos, negsuc, low_bits}
use floodgate.Process.Format.{fmt_node, fmt_relay, fmt_08x}
use floodgate.Process.Format.Hex.{chars}
use floodgate.Process.Format.Hex.Digits.{of_hex, pad-hex}

-- A node number of 32 bits is written as `!` and eight digits, and they are read again as the number.
pub fmt_node-number :
    (n : ℕ)
    → n < 4294967296
    → (t : String) × ((fmt_node (some (int (pos n))) ≡ some (String.◌++◌ "!" t))
        × ((chars t ≡ 8) × (of_hex t ≡ n)))
unfolding fmt_node fmt_08x
fmt_node-number n h = (_, (refl, pad-hex 7 n h))

low_bits_below : (z : ℤ) → low_bits 8 z < 256
unfolding low_bits
low_bits_below (pos n) = omega arith
low_bits_below (negsuc n) = omega arith

-- The relay of a packet, a truthy integer of either sign, is written as two digits, and they are read
-- as its low byte in two's complement.
fmt_relay-byte :
    (z : ℤ)
    → truthy (int z) ≡ true
    → (t : String) × ((fmt_relay (some (int z)) ≡ some (str t))
        × ((chars t ≡ 2) × (of_hex t ≡ low_bits 8 z)))
unfolding fmt_relay
fmt_relay-byte z h = (_, (rw h refl, pad-hex 1 (low_bits 8 z) (low_bits_below z)))
