-- ===== src/Value/Distinct.antt =====
-- Dictionaries hold a key once, at every depth of a value.
use mathlib.Core.Path.{subst}
use floodgate.Common.{
  String, none, some, ◌≡◌, refl, arith, ◌==◌, eq_iff, if◌then◌else◌, false, Bool-cases, inl, inr,
  ◌∙◌,
}
use floodgate.Value.{
  Value, null, bool, int, float, str, arr, obj, other, Items, nil, cons, Fields, end, field, get,
  insert,
}
use floodgate.Value.Laws.{get-insert}

unfoldable mutual
  pub IsDistinct : Value → Type 0
  IsDistinct null = Unit
  IsDistinct (bool b) = Unit
  IsDistinct (int z) = Unit
  IsDistinct (float t r) = Unit
  IsDistinct (str s) = Unit
  IsDistinct (arr xs) = AreDistinct xs
  IsDistinct (obj d) = HasDistinctKeys d
  IsDistinct (other t r) = Unit

  pub AreDistinct : Items → Type 0
  AreDistinct nil = Unit
  AreDistinct (cons x xs) = IsDistinct x × AreDistinct xs

  pub HasDistinctKeys : Fields → Type 0
  HasDistinctKeys end = Unit
  HasDistinctKeys (field k v d) = (get d k ≡ none) × IsDistinct v × HasDistinctKeys d

other_key :
    (k j : String) (d : Fields) (v : Value)
    → get d j ≡ none
    → (j == k) ≡ false
    → (if k == j then some v else get d j) ≡ none
other_key k j d v h e = ground (arith, eq_iff k j, eq_iff j k, h)

pub insert-HasDistinctKeys :
    (d : Fields) (k : String) (v : Value)
    → IsDistinct v
    → HasDistinctKeys d
    → HasDistinctKeys (insert d k v)
unfolding IsDistinct insert
insert-HasDistinctKeys end k v hv hd = (unfold get in refl, hv, tt)
insert-HasDistinctKeys (field j w d) k v hv (h, hw, hd) = elim (Bool-cases (j == k)) [
  | inl e ↦
      let absent : get d k ≡ none = subst (λ i. get d i ≡ none) ((eq_iff j k).0 e) h in
      rw e (absent, hv, hd)
  | inr e ↦
      rw e (get-insert d k j v ∙ other_key k j d v h e, hw, insert-HasDistinctKeys d k v hv hd)
]
