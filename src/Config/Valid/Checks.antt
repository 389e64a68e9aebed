-- ===== src/Config/Valid/Checks.antt =====
-- The checks of _validate_values one by one: when each adds no error, and what it leaves alone.
use text.Mathlib.TextPositions.{eq_refl}
use floodgate.Common.{
  ℕ, String, Bool, true, false, Option, none, some, List, [], ◌∷◌, ◌++◌, ◌≡◌, ◌≢◌, ◌↔◌, refl, arith,
  Option-cases, ◌==◌, if◌then◌else◌, inl, inr, eq_iff,
}
use floodgate.Common.Text.{contains}
use floodgate.Value.{Value, null, bool, int, str, Fields, insert, is_bool}
use floodgate.Value.Int.{pos, negsuc}
use floodgate.Value.Laws.{get-insert}
use floodgate.Config.{item, Problem}
use floodgate.Config.Validate.{
  Checked, problem, write, store, check_bool, check_int, in_range, check_topic_filter,
  is_topic_filter, normal_text,
}
use floodgate.Config.Valid.{IsBool, IsIntWithin, IsOneOf, IsNormal, IsNonEmpty}

abbrev pub Clean : Checked → Type 0
Clean s = s.1 ≡ []

pub not_Clean : (errors : List Problem) (p : Problem) → errors ++ p ∷ [] ≢ []
not_Clean [] p e = cc
not_Clean (q ∷ errors) p e = cc

false_ne_true : ◌≢◌ {A = Bool} false true
false_ne_true e = cc

-- A check that adds one error where its test fails.
Clean-guard :
    (b : Bool) (s : Checked) (p : Problem) {P : Type 0}
    → (b ≡ true) ↔ P
    → Clean (if b then s else problem s p) ↔ (Clean s × P)
Clean-guard true s p (to, from) = (λ c. (c, to refl), λ h. h.0)
Clean-guard false s p (to, from) =
    (λ c. absurd (not_Clean s.1 p c), λ h. absurd (false_ne_true (from h.1)))

is_bool_iff : (v : Value) → (is_bool v ≡ true) ↔ IsBool v
is_bool_iff (bool b) = (λ _. (b, refl), λ _. refl)
is_bool_iff null = (λ h. cc, λ h. cc (h.1))
is_bool_iff _ = (λ h. cc, λ h. cc (h.1))

in_range_iff :
    (low : ℕ) (high : Option ℕ) (v : Value) → (in_range low high v ≡ true) ↔ IsIntWithin low high v
unfolding in_range
in_range_iff low none (int (pos n)) = (λ h. (n, refl, ground arith, tt), λ h. ground (arith, h))
in_range_iff low (some most) (int (pos n)) =
    (λ h. (n, refl, ground arith, ground arith), λ h. ground (arith, h))
in_range_iff low high (int (negsuc n)) = (λ h. absurd (ground arith), λ h. cc (h.1))
in_range_iff low high null = (λ h. cc, λ h. cc (h.1))
in_range_iff low high _ = (λ h. cc, λ h. cc (h.1))

is_topic_filter_iff : (v : Value) → (is_topic_filter v ≡ true) ↔ IsNonEmpty v
unfolding is_topic_filter
is_topic_filter_iff (str s) =
    (λ h. (s, refl, ground (arith, eq_iff s "")), λ h. ground (arith, eq_iff s "", h))
is_topic_filter_iff null = (λ h. cc, λ h. cc (h.1))
is_topic_filter_iff _ = (λ h. cc, λ h. cc (h.1))

pub Clean-check_bool :
    (key : String) (s : Checked)
    → Clean (check_bool key s) ↔ (Clean s × IsBool (item s.0.values key))
unfolding check_bool
Clean-check_bool key s = Clean-guard _ s _ (is_bool_iff (item s.0.values key))

pub check_bool-keeps : (key : String) (s : Checked) → (check_bool key s).0 ≡ s.0
unfolding check_bool
check_bool-keeps key s = ground arith

pub Clean-check_int :
    (key : String) (low : ℕ) (high : Option ℕ) (s : Checked)
    → Clean (check_int key low high s) ↔ (Clean s × IsIntWithin low high (item s.0.values key))
unfolding check_int
Clean-check_int key low high s = Clean-guard _ s _ (in_range_iff low high (item s.0.values key))

pub check_int-keeps :
    (key : String) (low : ℕ) (high : Option ℕ) (s : Checked) → (check_int key low high s).0 ≡ s.0
unfolding check_int
check_int-keeps key low high s = ground arith

pub Clean-check_topic_filter :
    (s : Checked)
    → Clean (check_topic_filter s) ↔ (Clean s × IsNonEmpty (item s.0.values "topic_filter"))
unfolding check_topic_filter
Clean-check_topic_filter s =
    Clean-guard _ s _ (is_topic_filter_iff (item s.0.values "topic_filter"))

pub check_topic_filter-keeps : (s : Checked) → (check_topic_filter s).0 ≡ s.0
unfolding check_topic_filter
check_topic_filter-keeps s = ground arith

stored : (d : Fields) (key name : String) → item (insert d key (str name)) key ≡ str name
stored d key name = rw (get-insert, eq_refl)

module _ (change : String → String) (allowed : List String) where
  normal_text-none :
      (v : Value) → normal_text change allowed v ≡ none → IsNormal change allowed v → ⊥
  unfolding normal_text
  normal_text-none (str s) h n = ground (arith, n)
  normal_text-none null h n = cc (n.1)
  normal_text-none _ h n = cc (n.1)

  normal_text-some :
      (v : Value) (name : String)
      → normal_text change allowed v ≡ some name
      → (contains allowed name ≡ true) × IsNormal change allowed v
  unfolding normal_text
  normal_text-some (str s) name h = (ground arith, (s, refl, ground arith))
  normal_text-some null name h = cc
  normal_text-some _ name h = cc

  -- Storing a text in an accepted spelling.
  pub Clean-store :
      (v : Value) (key : String) (p : Problem) (s : Checked)
      → Clean (store (normal_text change allowed v) key p s) ↔ (Clean s × IsNormal change allowed v)
  Clean-store v key p s = elim (Option-cases (normal_text change allowed v)) [
    | inl bad ↦ rw bad (λ c. absurd (not_Clean s.1 p c), λ h. absurd (normal_text-none v bad h.1))
    | inr (name, good) ↦ rw good (λ c. (c, (normal_text-some v name good).1), λ h. h.0)
  ]

  pub store-exact :
      (v : Value) (key : String) (p : Problem) (s : Checked) (n : IsNormal change allowed v)
      → store (normal_text change allowed v) key p s ≡ write s key (str (change n.0))
  unfolding normal_text
  store-exact v key p s (t, e, member) = rw (e, normal_text, member)

  pub store-IsOneOf :
      (v : Value) (key : String) (p : Problem) (s : Checked)
      → Clean (store (normal_text change allowed v) key p s)
      → IsOneOf allowed (item (store (normal_text change allowed v) key p s).0.values key)
  store-IsOneOf v key p s c = elim (Option-cases (normal_text change allowed v)) [
    | inl bad ↦ absurd (not_Clean s.1 p (rw bad at c))
    | inr (name, good) ↦
        rw good (name, stored s.0.values key name, (normal_text-some v name good).0)
  ]

pub store-frame :
    (o : Option String) (key : String) (p : Problem) (s : Checked) (k : String)
    → (key == k) ≡ false
    → item (store o key p s).0.values k ≡ item s.0.values k
store-frame none key p s k h = refl
store-frame (some name) key p s k h = rw (get-insert, h)
