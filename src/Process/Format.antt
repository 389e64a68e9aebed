-- ===== src/Process/Format.antt =====
-- _fmt_node of src/floodgate/zerohop.py, the `relay` entry of the log records, and the hexadecimal
-- formats `08x` and `02x`. `none` is an exception.
pub mod Hex
pub mod Widths
use Prim.Native.String
use floodgate.Common.{
  ℕ, zero, suc, ◌+◌, ◌-◌, String, Bool, true, false, Option, none, some, if◌then◌else◌,
}
use floodgate.Value.{Value, null, bool, int, str, truthy}
use floodgate.Value.Int.{ℤ, pos, negsuc, low_bits}
use floodgate.Process.Format.Hex.{hex, pad}

-- `f"{n:08x}"`: the sign counts for the width.
unfoldable pub fmt_08x : ℤ → String
fmt_08x (pos n) = pad 8 (hex n)
fmt_08x (negsuc n) = String.◌++◌ "-" (pad 7 (hex (n + 1)))

abbrev int_of_bool : Bool → ℤ
int_of_bool true = pos 1
int_of_bool false = pos 0

-- A node that is neither None, a text nor an integer has no format `08x`.
unfoldable pub fmt_node : Option Value → Option String
fmt_node none = some "?"
fmt_node (some null) = some "?"
fmt_node (some (str s)) = some s
fmt_node (some (int z)) = some (String.◌++◌ "!" (fmt_08x z))
fmt_node (some (bool b)) = some (String.◌++◌ "!" (fmt_08x (int_of_bool b)))
fmt_node (some _) = none

abbrev low_byte : ℤ → Option Value
low_byte z = some (str (pad 2 (hex (low_bits 8 z))))

abbrev masked : Value → Option Value
masked (int z) = low_byte z
masked (bool b) = low_byte (int_of_bool b)
masked _ = none

-- `f"{relay & 0xFF:02x}" if relay else None`
unfoldable pub fmt_relay : Option Value → Option Value
fmt_relay none = some null
fmt_relay (some v) = if truthy v then masked v else some null
