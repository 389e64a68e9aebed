-- ===== src/Topic.antt =====
-- parse_meshtastic_topic of src/floodgate/zerohop.py, with Python's `str.split` on a slash.
pub mod Split
pub mod Laws
mod Tests
use mathlib.Core.List.{reverse}
use text.Mathlib.Text.{starts_with}
use floodgate.Common.{
  ℕ, zero, suc, String, Option, none, some, List, [], ◌∷◌, not, ◌||◌, ltb, length, if◌then◌else◌,
  ◌==◌,
}
use floodgate.Common.Text.{contains}
use floodgate.Topic.Split.{split}

-- `parts[k]`; the caller has checked that the index is in range.
abbrev part : List String → ℕ → String
part [] k = ""
part (x ∷ xs) zero = x
part (x ∷ xs) (suc k) = part xs k

-- `parts[-k - 1]`.
abbrev part_back : List String → ℕ → String
part_back parts k = part (reverse parts) k

abbrev pub encodings : List String
encodings = "e" ∷ "json" ∷ []

unfoldable pub parse_meshtastic_topic : String → Option (String × String)
unfolding contains split
parse_meshtastic_topic topic =
    let parts = split topic in
    if ltb (length parts) 5 || not (part parts 0 == "msh")
    then none
    else if not (starts_with (part_back parts 0) "!")
    then none
    else if not (contains encodings (part_back parts 2))
    then none
    else some (part_back parts 1, part_back parts 2)
