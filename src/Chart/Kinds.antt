-- ===== src/Chart/Kinds.antt =====
-- How scripts/check_chart.py sorts the documents by their kind.
use mathlib.Core.Path.{subst}
use mathlib.Core.Option.{some_inj}
use floodgate.Common.{
  String, true, false, some, List, [], ◌∷◌, ◌≡◌, ◌≢◌, refl, ap, ◌∙◌, arith, inl, inr, if◌then◌else◌,
  Bool-cases, eq_iff,
}
use floodgate.Value.{Value, str, truthy}
use floodgate.Portnum.{>>=-eq-some}
use floodgate.Chart.{subscript, is_text, non_empty, of_kind}

-- Every document that is not empty has a kind, and none has this one.
pub data NoneOf (kind : String) : List Value → Type 0 where
  no_more : NoneOf kind []
  empty_here :
      {d : Value} {docs : List Value} → truthy d ≡ false → NoneOf kind docs → NoneOf kind (d ∷ docs)
  another :
      {d k : Value} {docs : List Value}
      → truthy d ≡ true
      → subscript d "kind" ≡ some k
      → k ≢ str kind
      → NoneOf kind docs
      → NoneOf kind (d ∷ docs)

-- Every document that is not empty has a kind, and this one alone has this kind.
pub data OnlyOne (kind : String) (one : Value) : List Value → Type 0 where
  this :
      {k : Value} {docs : List Value}
      → truthy one ≡ true
      → subscript one "kind" ≡ some k
      → k ≡ str kind
      → NoneOf kind docs
      → OnlyOne kind one (one ∷ docs)
  empty_first :
      {d : Value} {docs : List Value}
      → truthy d ≡ false
      → OnlyOne kind one docs
      → OnlyOne kind one (d ∷ docs)
  not_this :
      {d k : Value} {docs : List Value}
      → truthy d ≡ true
      → subscript d "kind" ≡ some k
      → k ≢ str kind
      → OnlyOne kind one docs
      → OnlyOne kind one (d ∷ docs)

is_text-str : (text : String) (v : Value) → is_text text v ≡ true → v ≡ str text
is_text-str text (str s) h = ap str ((eq_iff s text).0 h)
is_text-str text _ h = absurd (ground (arith, h))

str-is_text : (text : String) (v : Value) → v ≡ str text → is_text text v ≡ true
str-is_text text v h = rw h ((eq_iff text text).1 refl)

not_text : (text : String) (v : Value) → is_text text v ≡ false → v ≢ str text
not_text text v h e = absurd (ground (arith, h, str-is_text text v e))

other_text : (text : String) (v : Value) → v ≢ str text → is_text text v ≡ false
other_text text v n = elim (Bool-cases (is_text text v)) [
  | inl e ↦ absurd (n (is_text-str text v e))
  | inr e ↦ e
]

of_kind-cons :
    (kind : String) (d : Value) (docs out : List Value)
    → of_kind kind (d ∷ docs) ≡ some out
    → (k : Value) × ((subscript d "kind" ≡ some k)
        × ((rest : List Value) × ((of_kind kind docs ≡ some rest)
              × ((if is_text kind k then d ∷ rest else rest) ≡ out))))
unfolding of_kind
of_kind-cons kind d docs out h =
    let (k, e, h1) = >>=-eq-some (subscript d "kind") _ h in
    let (rest, f, h2) =
      >>=-eq-some (of_kind kind docs) (λ rest. some (if is_text kind k then d ∷ rest else rest))
        h1 in
    (k, (e, (rest, (f, some_inj.0 h2))))

one_left : (d one : Value) (rest : List Value) → d ∷ rest ≡ one ∷ [] → (d ≡ one) × (rest ≡ [])
one_left d one rest h = (cc, cc)

not_left : (d : Value) (rest : List Value) → d ∷ rest ≢ []
not_left d rest h = cc

of_kind-NoneOf :
    (kind : String) (docs : List Value) → of_kind kind (non_empty docs) ≡ some [] → NoneOf kind docs
unfolding non_empty
of_kind-NoneOf kind [] h = no_more
of_kind-NoneOf kind (d ∷ docs) h = elim (Bool-cases (truthy d)) [
  | inr p ↦ empty_here p (of_kind-NoneOf kind docs (rw p at h))
  | inl p ↦
      let (k, (e, (rest, (f, g)))) = of_kind-cons kind d (non_empty docs) [] (rw p at h) in
      elim (Bool-cases (is_text kind k)) [
        | inl t ↦ absurd (not_left d rest (rw t at g))
        | inr t ↦
            another p e (not_text kind k t) (of_kind-NoneOf kind docs (f ∙ ap some (rw t at g)))
      ]
]

NoneOf-of_kind :
    (kind : String) {docs : List Value} → NoneOf kind docs → of_kind kind (non_empty docs) ≡ some []
unfolding of_kind non_empty
NoneOf-of_kind kind no_more = refl
NoneOf-of_kind kind (empty_here p n) = rw p (NoneOf-of_kind kind n)
NoneOf-of_kind kind (another {d} {k} p e t n) =
    rw (p, e, NoneOf-of_kind kind n, other_text kind k t) refl

pub of_kind-OnlyOne :
    (kind : String) (one : Value) (docs : List Value)
    → of_kind kind (non_empty docs) ≡ some (one ∷ [])
    → OnlyOne kind one docs
unfolding of_kind non_empty
of_kind-OnlyOne kind one [] h = absurd (ground (arith, h))
of_kind-OnlyOne kind one (d ∷ docs) h = elim (Bool-cases (truthy d)) [
  | inr p ↦ empty_first p (of_kind-OnlyOne kind one docs (rw p at h))
  | inl p ↦
      let (k, (e, (rest, (f, g)))) = of_kind-cons kind d (non_empty docs) (one ∷ []) (rw p at h) in
      elim (Bool-cases (is_text kind k)) [
        | inl t ↦
            let (same, none_left) = one_left d one rest (rw t at g) in
            subst (λ x. OnlyOne kind x (d ∷ docs)) same
              (this p e (is_text-str kind k t) (of_kind-NoneOf kind docs (f ∙ ap some none_left)))
        | inr t ↦
            not_this p e (not_text kind k t)
              (of_kind-OnlyOne kind one docs (f ∙ ap some (rw t at g)))
      ]
]

pub OnlyOne-of_kind :
    (kind : String) (one : Value) {docs : List Value}
    → OnlyOne kind one docs
    → of_kind kind (non_empty docs) ≡ some (one ∷ [])
unfolding of_kind non_empty
OnlyOne-of_kind kind one (empty_first p o) = rw p (OnlyOne-of_kind kind one o)
OnlyOne-of_kind kind one (this {k} p e t n) =
    rw (p, e, NoneOf-of_kind kind n, str-is_text kind k t) refl
OnlyOne-of_kind kind one (not_this {d} {k} p e t o) =
    rw (p, e, OnlyOne-of_kind kind one o, other_text kind k t) refl
