-- ===== src/Process/Format/Hex.antt =====
-- Hexadecimal digits, as Python's format `x` writes them.
pub mod Digits
use Prim.Native.Char.{Char}
use Prim.Native.String.{[], ◌∷◌}
use floodgate.Common.{ℕ, zero, suc, ◌+◌, ◌-◌, ◌/◌, ◌%◌, String, ltb, if◌then◌else◌}

abbrev nth : String → ℕ → Char
nth [] k = "0"
nth (c ∷ s) zero = c
nth (c ∷ s) (suc k) = nth s k

abbrev pub hex_digit : ℕ → Char
hex_digit d = nth "0123456789abcdef" d

-- The digits of `n` in front of `acc`; the fuel bounds their number.
unfoldable pub hex_from : ℕ → ℕ → String → String
hex_from zero n acc = acc
hex_from (suc fuel) n acc =
    let out : String = hex_digit (n % 16) ∷ acc in
    let rest = hex_from fuel (n / 16) out in if ltb n 16 then out else rest

unfoldable pub hex : ℕ → String
hex n = hex_from (n + 1) n ""

abbrev pub chars : String → ℕ
chars [] = 0
chars (c ∷ s) = suc (chars s)

abbrev pub zeros : ℕ → String → String
zeros zero s = s
zeros (suc k) s = "0" ∷ zeros k s

-- Zeros in front, up to a width.
unfoldable pub pad : ℕ → String → String
pad width s = zeros (width - chars s) s
