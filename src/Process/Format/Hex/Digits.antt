-- ===== src/Process/Format/Hex/Digits.antt =====
-- The hexadecimal digits that src/floodgate/zerohop.py writes are read again as the number, and fill
-- their width.
use Prim.Native.Char.{Char, code}
use Prim.Native.String.{[], ◌∷◌}
use floodgate.Common.{
  ℕ, zero, suc, ◌+◌, ◌-◌, ◌*◌, ◌/◌, ◌%◌, ◌≤◌, ◌<◌, ◌≡◌, refl, ap, ◌∙◌, String, Bool, true, false,
  ◌&&◌, arith, ltb, leb, eqb, if◌then◌else◌, Bool-cases, inl, inr, ◌⊎◌,
}
use floodgate.Process.Format.Hex.{hex_digit, hex_from, hex, chars, zeros, pad}

-- The value of a digit, of a text after a number, and of a text.
abbrev digit_value : Char → ℕ
digit_value c = if leb (code c) 57 then code c - 48 else code c - 87

unfoldable pub value_from : ℕ → String → ℕ
value_from a [] = a
value_from a (c ∷ s) = value_from (16 * a + digit_value c) s

unfoldable pub of_hex : String → ℕ
of_hex s = value_from 0 s

all_below : (ℕ → Bool) → ℕ → Bool
all_below p zero = true
all_below p (suc n) = p n && all_below p n

and_both : (a b : Bool) → (a && b) ≡ true → (a ≡ true) × (b ≡ true)
and_both true true h = (refl, refl)
and_both true false h = absurd (ground (arith, h))
and_both false b h = absurd (ground (arith, h))

below_suc : (d n : ℕ) → d < suc n → (d ≡ n) ⊎ (d < n)
below_suc d n h = elim (Bool-cases (ltb d n)) [
  | inl e ↦ inr (ground (arith, e))
  | inr e ↦ inl (ground (arith, e, h))
]

eqb_sound : (a b : ℕ) → eqb a b ≡ true → a ≡ b
eqb_sound a b h = ground (arith, h)

all_below_sound : (p : ℕ → Bool) (n d : ℕ) → all_below p n ≡ true → d < n → p d ≡ true
unfolding all_below
all_below_sound p zero d h lt = absurd (omega arith)
all_below_sound p (suc n) d h lt = elim (below_suc d n lt) [
  | inl e ↦ ap p e ∙ (and_both (p n) (all_below p n) h).0
  | inr e ↦ all_below_sound p n d (and_both (p n) (all_below p n) h).1 e
]

reads_back : ℕ → Bool
reads_back d = eqb (digit_value (hex_digit d)) d

digit_value-hex_digit : (d : ℕ) → d < 16 → digit_value (hex_digit d) ≡ d
unfolding all_below reads_back
digit_value-hex_digit d h =
    eqb_sound (digit_value (hex_digit d)) d (all_below_sound reads_back 16 d refl h)

ltb_sound : (a b : ℕ) → ltb a b ≡ true → a < b
ltb_sound a b h = ground (arith, h)

ltb_complete : (a b : ℕ) → ltb a b ≡ false → b ≤ a
ltb_complete a b h = ground (arith, h)

-- With fuel above the number, the digits are read as the number.
value_from-hex_from :
    (fuel n : ℕ) (acc : String) → n < fuel → value_from 0 (hex_from fuel n acc) ≡ value_from n acc
unfolding value_from hex_from
value_from-hex_from zero n acc h = absurd (omega arith)
value_from-hex_from (suc fuel) n acc h = elim (Bool-cases (ltb n 16)) [
  | inl e ↦ rw e (
      ap (λ k. value_from k acc)
        (omega (arith, digit_value-hex_digit (n % 16) (omega arith), ltb_sound n 16 e)))
  | inr e ↦ rw e (
      value_from-hex_from fuel (n / 16) (hex_digit (n % 16) ∷ acc)
        (omega (arith, ltb_complete n 16 e))
      ∙ ap (λ k. value_from k acc) (omega (arith, digit_value-hex_digit (n % 16) (omega arith))))
]

chars-zeros : (k : ℕ) (s : String) → chars (zeros k s) ≡ k + chars s
chars-zeros zero s = omega arith
chars-zeros (suc k) s = omega (arith, chars-zeros k s)

value_from-zeros : (k : ℕ) (s : String) → value_from 0 (zeros k s) ≡ value_from 0 s
unfolding value_from
value_from-zeros zero s = refl
value_from-zeros (suc k) s = value_from-zeros k s

abbrev pow16 : ℕ → ℕ
pow16 zero = 1
pow16 (suc w) = 16 * pow16 w

-- A number below 16 ^ (w + 1) has at most w + 1 digits.
chars-hex_from :
    (fuel w n : ℕ) (acc : String)
    → n < pow16 (suc w)
    → chars (hex_from fuel n acc) ≤ suc w + chars acc
unfolding hex_from
chars-hex_from zero w n acc h = omega arith
chars-hex_from (suc fuel) zero n acc h = elim (Bool-cases (ltb n 16)) [
  | inl e ↦ rw e (omega arith)
  | inr e ↦ absurd (ground (arith, e, h))
]
chars-hex_from (suc fuel) (suc w) n acc h = elim (Bool-cases (ltb n 16)) [
  | inl e ↦ rw e (omega arith)
  | inr e ↦
      rw e (omega (arith, chars-hex_from fuel w (n / 16) (hex_digit (n % 16) ∷ acc) (omega arith)))
]

-- The padded digits of a number that fits the width: as many as the width, and read as the number.
pub pad-hex :
    (w n : ℕ)
    → n < pow16 (suc w)
    → (chars (pad (suc w) (hex n)) ≡ suc w) × (of_hex (pad (suc w) (hex n)) ≡ n)
unfolding pad hex of_hex value_from
pad-hex w n h = (
  omega (
    arith,
    chars-zeros (suc w - chars (hex_from (n + 1) n "")) (hex_from (n + 1) n ""),
    chars-hex_from (n + 1) w n "" h,
  ),
  value_from-zeros (suc w - chars (hex_from (n + 1) n "")) (hex_from (n + 1) n "")
      ∙ value_from-hex_from (n + 1) n "" (omega arith),
)
