-- ===== src/Config/Load/Keys.antt =====
-- Which keys a configuration file may have, and the dict that the file's values are merged into.
use mathlib.Core.Path.{subst}
use floodgate.Common.{
  String, true, false, none, List, [], ◌∷◌, ◌≡◌, ◌↔◌, inl, inr, refl, sym, arith, ◌==◌, eq_iff, All,
  Bool-cases, Option-cases,
}
use floodgate.Common.Text.{contains}
use floodgate.Value.{Value, Fields}
use floodgate.Config.{default_config, default_keys, removed_keys, ConfigError, Result, ok, raised}
use floodgate.Config.Validate.{sorted, minus, common}
use floodgate.Config.Load.{
  Key, mapping, non_text_keys, text_keys, update, rejection, reject_bad_keys, merge_keys,
  merge_document,
}
use floodgate.Config.Valid.Lists.{sorted-nil}

pub contains-elim :
    (P : String → Type 0) (xs : List String) (k : String) → contains xs k ≡ true → All P xs → P k
unfolding contains
contains-elim P [] k h all = cc
contains-elim P (x ∷ xs) k h (p, all) = elim (Bool-cases (k == x)) [
  | inl e ↦ subst P (sym ((eq_iff k x).0 e)) p
  | inr e ↦ contains-elim P xs k (ground arith) all
]

-- No default key is a removed one.
not_removed : (k : String) → contains default_keys k ≡ true → contains removed_keys k ≡ false
unfolding contains
not_removed k h =
    contains-elim (λ j. contains removed_keys j ≡ false) default_keys k h
      (
        refl,
        (
          refl,
          (
            refl,
            (refl, (refl, (refl, (refl, (refl, (refl, (refl, (refl, (refl, (refl, tt)))))))))),
          ),
        ),
      )

abbrev IsKnown : String → Type 0
IsKnown k = contains default_keys k ≡ true

common-nil : (a b : List String) → common a b ≡ [] → All (λ x. contains b x ≡ false) a
unfolding common
common-nil [] b h = tt
common-nil (x ∷ a) b h = elim (Bool-cases (contains b x)) [
  | inl e ↦ cc (rw e at h)
  | inr e ↦ (e, common-nil a b (rw e at h))
]

nil-common : (a b : List String) → All (λ x. contains b x ≡ false) a → common a b ≡ []
unfolding common
nil-common [] b h = refl
nil-common (x ∷ a) b (e, h) = rw e (nil-common a b h)

unknown : List String → List String
unknown keys = minus (minus keys default_keys) removed_keys

unknown-nil :
    (keys : List String)
    → unknown keys ≡ []
    → All (λ k. contains removed_keys k ≡ false) keys
    → All IsKnown keys
unfolding unknown minus
unknown-nil [] h g = tt
unknown-nil (k ∷ keys) h (g, gs) = elim (Bool-cases (contains default_keys k)) [
  | inl e ↦ (e, unknown-nil keys (rw e at h) gs)
  | inr e ↦ cc (rw (e, g) at h)
]

nil-unknown : (keys : List String) → All IsKnown keys → unknown keys ≡ []
unfolding unknown minus
nil-unknown [] h = refl
nil-unknown (k ∷ keys) (e, h) = rw e (nil-unknown keys h)

rejection-none :
    (source : String) (removed unknowns : List String)
    → rejection source removed unknowns ≡ none
    → (removed ≡ []) × (unknowns ≡ [])
unfolding rejection
rejection-none source [] [] h = (refl, refl)
rejection-none source [] (u ∷ us) h = cc
rejection-none source (r ∷ rs) us h = cc

All-not_removed :
    (keys : List String) → All IsKnown keys → All (λ k. contains removed_keys k ≡ false) keys
All-not_removed [] h = tt
All-not_removed (k ∷ keys) (e, h) = (not_removed k e, All-not_removed keys h)

pub reject_bad_keys_iff :
    (keys : List String) (source : String) → (reject_bad_keys keys source ≡ none) ↔ All IsKnown keys
reject_bad_keys_iff keys source = (known, accepted)
  where
    known : reject_bad_keys keys source ≡ none → All IsKnown keys
    known h =
        let (r, u) =
          rejection-none source (sorted (common keys removed_keys)) (sorted (unknown keys))
            (unfold reject_bad_keys unknown in h) in
        unknown-nil keys (sorted-nil _ u) (common-nil keys removed_keys (sorted-nil _ r))

    accepted : All IsKnown keys → reject_bad_keys keys source ≡ none
    accepted h =
        let r = nil-common keys removed_keys (All-not_removed keys h) in
        let u : minus (minus keys default_keys) removed_keys ≡ [] =
          unfold unknown in (nil-unknown keys h) in
        unfold reject_bad_keys in rw (r, u)

-- A file's keys are all texts, and default keys.
pub record HasKnownKeys (m : List (Key × Value)) : Type 0 where
  pub all_texts : non_text_keys m ≡ []
  pub all_known : All IsKnown (text_keys m)

merge_keys_sound :
    (path : String) (m : List (Key × Value)) (bad : List String) (d : Fields)
    → merge_keys path m bad ≡ ok d
    → (bad ≡ []) × (reject_bad_keys (text_keys m) path ≡ none) × (d ≡ update default_config m)
merge_keys_sound path m [] d h = elim (Option-cases (reject_bad_keys (text_keys m) path)) [
  | inl fine ↦
      let e : ◌≡◌ {A = Result ConfigError Fields} (ok (update default_config m)) (ok d) =
        unfold merge_keys in (rw (fine, merge_keys) at h) in
      (refl, fine, cc)
  | inr (p, bad) ↦
      let e : ◌≡◌ {A = Result ConfigError Fields} (raised p) (ok d) =
        unfold merge_keys in (rw (bad, merge_keys) at h) in
      cc
]
merge_keys_sound path m (b ∷ bs) d h = unfold merge_keys in cc

-- A mapping is merged exactly if each of its keys is a text and one of the thirteen that have a
-- default. Then the dict is the defaults, updated by the mapping.
pub merge_document_iff :
    (path : String) (m : List (Key × Value)) (d : Fields)
    → (merge_document path (mapping m) ≡ ok d) ↔ (HasKnownKeys m × (d ≡ update default_config m))
merge_document_iff path m d = (known, accepted)
  where
    known : merge_document path (mapping m) ≡ ok d → HasKnownKeys m × (d ≡ update default_config m)
    known h =
        let (t, fine, e) =
          merge_keys_sound path m (non_text_keys m) d (unfold merge_document in h) in
        (record { all_texts = t; all_known = (reject_bad_keys_iff (text_keys m) path).0 fine }, e)

    accepted :
        HasKnownKeys m × (d ≡ update default_config m) → merge_document path (mapping m) ≡ ok d
    accepted (h, e) =
        let a = (reject_bad_keys_iff (text_keys m) path).1 h.all_known in
        let t = h.all_texts in unfold merge_document in rw (t, a, merge_keys, e)
