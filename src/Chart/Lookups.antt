-- ===== src/Chart/Lookups.antt =====
-- What the lookups of scripts/check_chart.py find.
use mathlib.Core.Path.{subst}
use mathlib.Core.Option.{some_inj}
use floodgate.Common.{
  String, true, false, some, ◌≡◌, ◌≢◌, refl, sym, arith, inl, inr, Bool-cases, or_else,
}
use floodgate.Value.{
  Value, null, bool, int, float, str, arr, obj, other, Fields, end, field, get, truthy,
}
use floodgate.Value.Int.{pos}
use floodgate.Value.Laws.{found_in}
use floodgate.Chart.{Checker, is_in, subscript, dot_get, or_empty, equals_zero}

pub subscript-some :
    (v : Value) (k : String) (w : Value)
    → subscript v k ≡ some w
    → (d : Fields) × ((v ≡ obj d) × (get d k ≡ some w))
subscript-some (obj d) k w h = (d, (refl, h))
subscript-some null k w h = absurd (ground (arith, h))
subscript-some (bool b) k w h = absurd (ground (arith, h))
subscript-some (int z) k w h = absurd (ground (arith, h))
subscript-some (float t r) k w h = absurd (ground (arith, h))
subscript-some (str s) k w h = absurd (ground (arith, h))
subscript-some (arr items) k w h = absurd (ground (arith, h))
subscript-some (other t r) k w h = absurd (ground (arith, h))

pub dot_get-obj :
    (w : Value) (k : String) (v : Value)
    → dot_get w k ≡ some v
    → (d : Fields) × ((w ≡ obj d) × (or_else (get d k) null ≡ v))
dot_get-obj (obj d) k v h = (d, (refl, some_inj.0 h))
dot_get-obj null k v h = absurd (ground (arith, h))
dot_get-obj (bool b) k v h = absurd (ground (arith, h))
dot_get-obj (int z) k v h = absurd (ground (arith, h))
dot_get-obj (float t r) k v h = absurd (ground (arith, h))
dot_get-obj (str s) k v h = absurd (ground (arith, h))
dot_get-obj (arr items) k v h = absurd (ground (arith, h))
dot_get-obj (other t r) k v h = absurd (ground (arith, h))

-- What `(w or {}).get(k)` finds.
pub dot_get-some :
    (w : Value) (k : String) (v : Value)
    → dot_get (or_empty w) k ≡ some v
    → v ≢ null
    → (d : Fields) × ((w ≡ obj d) × (get d k ≡ some v))
unfolding get
dot_get-some w k v h n = elim (Bool-cases (truthy w)) [
  | inl e ↦ let (d, (f, g)) = dot_get-obj w k v (rw e at h) in (d, (f, found_in d k v g n))
  | inr e ↦ absurd (n (sym (some_inj.0 (rw e at h))))
]

-- Where a key is in `v or {}`, `v` counts as true.
pub is_in-or_empty :
    (checker : Checker) (v : Value) (k : String)
    → is_in checker k (or_empty v) ≡ some true
    → (truthy v ≡ true) × (is_in checker k v ≡ some true)
unfolding is_in get
is_in-or_empty checker v k h = elim (Bool-cases (truthy v)) [
  | inl e ↦ (e, rw e at h)
  | inr e ↦ absurd (ground (arith, rw e at h))
]

-- A number that is equal to 0.
pub data IsZero : Value → Type 0 where
  zero_int : IsZero (int (pos 0))
  zero_bool : IsZero (bool false)
  zero_float : (r : String) → IsZero (float false r)

pub equals_zero-IsZero : (v : Value) → equals_zero v ≡ true → IsZero v
equals_zero-IsZero (int (pos n)) h = subst (λ n. IsZero (int (pos n))) (ground (arith, h)) zero_int
equals_zero-IsZero (bool false) h = zero_bool
equals_zero-IsZero (float false r) h = zero_float r
equals_zero-IsZero _ h = absurd (ground (arith, h))

pub IsZero-equals_zero : (v : Value) → IsZero v → equals_zero v ≡ true
IsZero-equals_zero _ zero_int = refl
IsZero-equals_zero _ zero_bool = refl
IsZero-equals_zero _ (zero_float r) = refl

pub not_zero_null : (v : Value) → equals_zero v ≡ true → v ≢ null
not_zero_null v h e = absurd (ground (arith, rw e at h))

pub truthy-get : (d : Fields) (k : String) (v : Value) → get d k ≡ some v → truthy (obj d) ≡ true
unfolding truthy get
truthy-get end k v h = absurd (ground (arith, h))
truthy-get (field j x d) k v h = refl

pub obj_not_null : (d : Fields) → obj d ≢ null
obj_not_null d e = cc
