-- ===== src/Chart/Membership.antt =====
-- What `key in v` finds in scripts/check_chart.py.
use mathlib.Core.Path.{subst}
use mathlib.Core.Option.{some_inj}
use Prim.Native.Char.{Char}
use Prim.Native.String.{[], ◌∷◌}
use floodgate.Common.{
  String, Bool, true, some, ◌≡◌, refl, sym, ap, arith, inl, inr, Bool-cases, Option-cases, ◌==◌,
  eq_iff,
}
use floodgate.Value.{
  Value, null, bool, int, float, str, arr, obj, other, Items, nil, cons, Fields, get,
}
use floodgate.Chart.{Checker, is_prefix, is_within, is_item, is_in}

-- A text that begins with another, and one that has another within it.
pub data IsPrefix : String → String → Type 0 where
  nothing : (s : String) → IsPrefix "" s
  one_more : (c : Char) (p s : String) → IsPrefix p s → IsPrefix (c ∷ p) (c ∷ s)

pub data IsWithin (p : String) : String → Type 0 where
  at_start : (s : String) → IsPrefix p s → IsWithin p s
  further : (c : Char) (s : String) → IsWithin p s → IsWithin p (c ∷ s)

pub data IsItem (k : String) : Items → Type 0 where
  first_item : (items : Items) → IsItem k (cons (str k) items)
  later_item : (v : Value) (items : Items) → IsItem k items → IsItem k (cons v items)

-- A dict that has the key, a list that has the text, a text that has it within it, or another object
-- that says so.
pub data Contains (checker : Checker) (k : String) : Value → Type 0 where
  in_dict : (d : Fields) (v : Value) → get d k ≡ some v → Contains checker k (obj d)
  in_list : (items : Items) → IsItem k items → Contains checker k (arr items)
  in_text : (s : String) → IsWithin k s → Contains checker k (str s)
  in_other :
      (t : Bool) (r : String)
      → checker.is_member k (other t r) ≡ some true
      → Contains checker k (other t r)

same_char : (c d : Char) → ((c ∷ "") == (d ∷ "")) ≡ true → c ≡ d
same_char c d h = let e : ◌≡◌ {A = String} (c ∷ "") (d ∷ "") = (eq_iff (c ∷ "") (d ∷ "")).0 h in cc

is_prefix-IsPrefix : (p s : String) → is_prefix p s ≡ true → IsPrefix p s
unfolding is_prefix
is_prefix-IsPrefix [] s h = nothing s
is_prefix-IsPrefix (c ∷ p) [] h = absurd (ground (arith, h))
is_prefix-IsPrefix (c ∷ p) (d ∷ s) h =
    subst (λ x. IsPrefix (c ∷ p) (x ∷ s)) (same_char c d (ground (arith, h)))
      (one_more c p s (is_prefix-IsPrefix p s (ground (arith, h))))

IsPrefix-is_prefix : (p s : String) → IsPrefix p s → is_prefix p s ≡ true
unfolding is_prefix
IsPrefix-is_prefix _ _ (nothing s) = refl
IsPrefix-is_prefix _ _ (one_more c p s h) =
    rw ((eq_iff (c ∷ "") (c ∷ "")).1 refl, IsPrefix-is_prefix p s h)

is_within-IsWithin : (p s : String) → is_within p s ≡ true → IsWithin p s
unfolding is_within
is_within-IsWithin p [] h = at_start [] (is_prefix-IsPrefix p [] h)
is_within-IsWithin p (c ∷ s) h = elim (Bool-cases (is_prefix p (c ∷ s))) [
  | inl e ↦ at_start (c ∷ s) (is_prefix-IsPrefix p (c ∷ s) e)
  | inr e ↦ further c s (is_within-IsWithin p s (ground (arith, e, h)))
]

starts : (p s : String) → is_prefix p s ≡ true → is_within p s ≡ true
unfolding is_within
starts p [] e = e
starts p (c ∷ s) e = rw e

IsWithin-is_within : (p s : String) → IsWithin p s → is_within p s ≡ true
unfolding is_within
IsWithin-is_within p _ (at_start s h) = starts p s (IsPrefix-is_prefix p s h)
IsWithin-is_within p _ (further c s h) = ground (arith, IsWithin-is_within p s h)

is_item-IsItem : (k : String) (items : Items) → is_item k items ≡ true → IsItem k items
unfolding is_item
is_item-IsItem k nil h = absurd (ground (arith, h))
is_item-IsItem k (cons (str s) items) h = elim (Bool-cases (s == k)) [
  | inl e ↦ subst (λ x. IsItem k (cons (str x) items)) (sym ((eq_iff s k).0 e)) (first_item items)
  | inr e ↦ later_item (str s) items (is_item-IsItem k items (ground (arith, e, h)))
]
is_item-IsItem k (cons v items) h = later_item v items (is_item-IsItem k items h)

IsItem-is_item : (k : String) (items : Items) → IsItem k items → is_item k items ≡ true
unfolding is_item
IsItem-is_item k _ (first_item items) = rw (eq_iff k k).1 refl
IsItem-is_item k _ (later_item (str s) items h) = ground (arith, IsItem-is_item k items h)
IsItem-is_item k _ (later_item v items h) = IsItem-is_item k items h

pub is_in-Contains :
    (checker : Checker) (k : String) (v : Value)
    → is_in checker k v ≡ some true
    → Contains checker k v
unfolding is_in
is_in-Contains checker k (obj d) h = elim (Option-cases (get d k)) [
  | inl e ↦ absurd (ground (arith, e, h))
  | inr (v, e) ↦ in_dict d v e
]
is_in-Contains checker k (arr items) h = in_list items (is_item-IsItem k items (some_inj.0 h))
is_in-Contains checker k (str s) h = in_text s (is_within-IsWithin k s (some_inj.0 h))
is_in-Contains checker k (other t r) h = in_other t r h
is_in-Contains checker k null h = absurd (ground (arith, h))
is_in-Contains checker k (bool b) h = absurd (ground (arith, h))
is_in-Contains checker k (int z) h = absurd (ground (arith, h))
is_in-Contains checker k (float t r) h = absurd (ground (arith, h))

pub Contains-is_in :
    (checker : Checker) (k : String) (v : Value)
    → Contains checker k v
    → is_in checker k v ≡ some true
unfolding is_in
Contains-is_in checker k _ (in_dict d v e) = rw e refl
Contains-is_in checker k _ (in_list items h) = ap some (IsItem-is_item k items h)
Contains-is_in checker k _ (in_text s h) = ap some (IsWithin-is_within k s h)
Contains-is_in checker k _ (in_other t r h) = h
