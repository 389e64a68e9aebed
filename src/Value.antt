-- ===== src/Value.antt =====
-- The values that `json.loads` and `yaml.safe_load` build, as Python sees them, and the
-- dictionaries with text keys that they hold.
pub mod Int
pub mod Laws
pub mod Distinct
pub mod Json
use floodgate.Common.{
  String, Bool, true, false, ◌||◌, Option, none, some, ◌==◌, if◌then◌else◌, eqb, not, is_some,
}
use floodgate.Value.Int.{ℤ, pos, negsuc}

-- A float, and any other object (a YAML date, say), is kept by its truth value and its `repr`: the
-- code never computes with one.
mutual
  pub data Value : Type 0 where
    null : Value
    bool : Bool → Value
    int : ℤ → Value
    float : Bool → String → Value
    str : String → Value
    arr : Items → Value
    obj : Fields → Value
    other : Bool → String → Value

  pub data Items : Type 0 where
    nil : Items
    cons : Value → Items → Items

  pub data Fields : Type 0 where
    end : Fields
    field : String → Value → Fields → Fields

-- `d.get(key)`, with `none` for an absent key.
unfoldable pub get : Fields → String → Option Value
get end k = none
get (field j v d) k = if j == k then some v else get d k

-- `d[key] = v`: in place, or at the end.
unfoldable pub insert : Fields → String → Value → Fields
insert end k v = field k v end
insert (field j w d) k v = if j == k then field k v d else field j w (insert d k v)

abbrev pub has_key : Fields → String → Bool
has_key d k = is_some (get d k)

-- `isinstance(v, int)` without the Booleans.
abbrev pub is_int : Value → Bool
is_int (int z) = true
is_int _ = false

abbrev pub is_bool : Value → Bool
is_bool (bool b) = true
is_bool _ = false

-- `bool(v)`.
unfoldable pub truthy : Value → Bool
truthy null = false
truthy (bool b) = b
truthy (int (pos n)) = not (eqb n 0)
truthy (int (negsuc n)) = true
truthy (float t r) = t
truthy (str s) = not (s == "")
truthy (arr nil) = false
truthy (arr (cons x xs)) = true
truthy (obj end) = false
truthy (obj (field k v d)) = true
truthy (other t r) = t
