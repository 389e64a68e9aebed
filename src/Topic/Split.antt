-- ===== src/Topic/Split.antt =====
-- Python's `str.split("/")` and `"/".join`, inverse to one another.
use Prim.Native.Char.{Char, code}
use Prim.Native.String
use Prim.Native.String.{[], ◌∷◌}
use mathlib.Core.List.{List, [], ◌∷◌}
use mathlib.Core.Path.{ap₂}
use text.Mathlib.TextEquality.{Char-path}
use text.Mathlib.TextLemmas.{nil-append, cons-append}
use floodgate.Common.{
  String, ℕ, All, ◌∙◌, ◌≡◌, ◌≢◌, refl, sym, ap, arith, eqb, if◌then◌else◌, Bool-cases, inl, inr,
}

-- A character in front of the first part.
prepend : Char → List String → List String
prepend c [] = (c ∷ []) ∷ []
prepend c (p ∷ ps) = (c ∷ p) ∷ ps

abbrev slash : ℕ
slash = b'/'

unfoldable pub split : String → List String
unfolding prepend
split [] = "" ∷ []
split (c ∷ s) = let rest = split s in if eqb (code c) slash then "" ∷ rest else prepend c rest

unfoldable pub join : List String → String
join [] = ""
join (p ∷ []) = p
join (p ∷ q ∷ ps) = String.◌++◌ p ("/" ∷ join (q ∷ ps))

abbrev pub NoSlash : String → Type 0
NoSlash [] = Unit
NoSlash (c ∷ s) = (code c ≢ slash) × NoSlash s

prepend-ne-nil : (c : Char) (ps : List String) → prepend c ps ≢ []
unfolding prepend
prepend-ne-nil c [] h = cc
prepend-ne-nil c (p ∷ ps) h = cc

split-ne-nil : (s : String) → split s ≢ []
unfolding split
split-ne-nil [] h = cc
split-ne-nil (c ∷ s) h = ground (arith, prepend-ne-nil c (split s))

join-prepend : (c : Char) (ps : List String) → ps ≢ [] → join (prepend c ps) ≡ c ∷ join ps
unfolding join prepend
join-prepend c [] h = absurd (h refl)
join-prepend c (p ∷ []) h = refl
join-prepend c (p ∷ q ∷ ps) h = rw cons-append

join-empty : (ps : List String) → ps ≢ [] → join ("" ∷ ps) ≡ "/" ∷ join ps
unfolding join
join-empty [] h = absurd (h refl)
join-empty (p ∷ ps) h = rw nil-append

pub join-split : (s : String) → join (split s) ≡ s
unfolding split
join-split [] = unfold join in refl
join-split (c ∷ s) = elim (Bool-cases (eqb (code c) slash)) [
  | inl e ↦ rw e (
      join-empty (split s) (split-ne-nil s)
      ∙ ap₂ {C = String} ◌∷◌ (sym (Char-path c "/" (ground arith))) (join-split s))
  | inr e ↦ rw e (join-prepend c (split s) (split-ne-nil s) ∙ ap (λ t. c ∷ t) (join-split s))
]

split-prefix : (p : String) (s : String) → NoSlash p → split (String.◌++◌ p ("/" ∷ s)) ≡ p ∷ split s
unfolding split
split-prefix [] s h = rw nil-append
split-prefix (c ∷ p) s (n, h) = rw (cons-append, split) (ground (arith, split-prefix p s h))

split-single : (p : String) → NoSlash p → split p ≡ p ∷ []
unfolding split
split-single [] h = refl
split-single (c ∷ p) (n, h) = ground (arith, split-single p h)

pub split-join : (ps : List String) → ps ≢ [] → All NoSlash ps → split (join ps) ≡ ps
unfolding join
split-join [] n h = absurd (n refl)
split-join (p ∷ []) n (h, _) = split-single p h
split-join (p ∷ q ∷ ps) n (h, hs) =
    split-prefix p (join (q ∷ ps)) h ∙ ap (λ t. p ∷ t) (split-join (q ∷ ps) (λ e. cc) hs)

All-prepend :
    (c : Char) (ps : List String) → code c ≢ slash → All NoSlash ps → All NoSlash (prepend c ps)
unfolding prepend
All-prepend c [] n _ = ((n, tt), tt)
All-prepend c (p ∷ ps) n (h, hs) = ((n, h), hs)

-- No part of a split holds a slash.
pub All-split : (s : String) → All NoSlash (split s)
unfolding split
All-split [] = (tt, tt)
All-split (c ∷ s) = elim (Bool-cases (eqb (code c) slash)) [
  | inl e ↦ rw e (tt, All-split s)
  | inr e ↦ rw e (All-prepend c (split s) (ground arith) (All-split s))
]
