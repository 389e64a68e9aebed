-- ===== src/Common/Text.antt =====
-- Membership of texts in lists, which stand for Python's sets, tuples and key views of strings, and
-- the case mappings.
use floodgate.Common.{String, Bool, false, ◌||◌, List, [], ◌∷◌, ◌==◌}

unfoldable pub contains : List String → String → Bool
contains [] s = false
contains (x ∷ xs) s = s == x || contains xs s

-- `str.upper` and `str.lower`, over Python's Unicode tables.
pub record Casing : Type 0 where
  pub upper : String → String
  pub lower : String → String
