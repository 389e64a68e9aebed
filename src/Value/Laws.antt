-- ===== src/Value/Laws.antt =====
-- The laws of dictionaries, and of equality tests on texts.
use floodgate.Common.{
  String, some, ◌≡◌, ◌≢◌, refl, sym, ap, ◌∙◌, arith, ◌==◌, eq_iff, if◌then◌else◌, or_else,
  Option-cases, inl, inr,
}
use floodgate.Value.{Value, null, Fields, end, field, get, insert}

pub get-insert :
    (d : Fields) (k j : String) (v : Value)
    → get (insert d k v) j ≡ (if k == j then some v else get d j)
unfolding get insert
get-insert end k j v = refl
get-insert (field i w d) k j v =
    ground (arith, eq_iff k j, eq_iff i k, eq_iff i j, get-insert d k j v)

-- A value other than None that `get` finds or takes for an absent key is there.
pub found_in :
    (d : Fields) (k : String) (w : Value) → or_else (get d k) null ≡ w → w ≢ null → get d k ≡ some w
found_in d k w h n = elim (Option-cases (get d k)) [
  | inl e ↦ absurd (n (sym (rw e at h)))
  | inr (v, e) ↦ e ∙ ap some (rw e at h)
]
