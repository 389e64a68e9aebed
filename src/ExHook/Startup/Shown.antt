-- ===== src/ExHook/Startup/Shown.antt =====
-- How the startup lines of src/floodgate/exhook_server.py show a list and a set of texts.
use Prim.Native.String
use Prim.Native.String.{compare}
use floodgate.Common.{String, ◌||◌, List, [], ◌∷◌, ◌≡◌, refl, arith, ◌==◌, eq_iff, ◌∙◌, ap}
use floodgate.Common.Text.{contains}
use floodgate.Config.Validate.{insert_sorted, sorted}
use floodgate.ExHook.Startup.{join}

-- Texts with a comma and a space between them.
pub data IsJoined : List String → String → Type 0 where
  no_texts : IsJoined [] ""
  one_text : (s : String) → IsJoined (s ∷ []) s
  more_texts :
      (s t rest : String) (ts : List String)
      → IsJoined (t ∷ ts) rest
      → IsJoined (s ∷ t ∷ ts) (String.◌++◌ s (String.◌++◌ ", " rest))

pub join-IsJoined : (ss : List String) → IsJoined ss (join ss)
unfolding join
join-IsJoined [] = no_texts
join-IsJoined (s ∷ []) = one_text s
join-IsJoined (s ∷ t ∷ ts) = more_texts s t (join (t ∷ ts)) ts (join-IsJoined (t ∷ ts))

contains-insert_sorted :
    (x : String) (ys : List String) (s : String)
    → contains (insert_sorted x ys) s ≡ (s == x || contains ys s)
unfolding insert_sorted contains
contains-insert_sorted x [] s = refl
contains-insert_sorted x (y ∷ ys) s =
    ground (arith, eq_iff x y, eq_iff s x, eq_iff s y, contains-insert_sorted x ys s)

pub contains-sorted : (xs : List String) (s : String) → contains (sorted xs) s ≡ contains xs s
unfolding sorted contains
contains-sorted [] s = refl
contains-sorted (x ∷ xs) s =
    contains-insert_sorted x (sorted xs) s ∙ ap (λ b. s == x || b) (contains-sorted xs s)
