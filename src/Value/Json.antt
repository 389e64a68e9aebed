-- ===== src/Value/Json.antt =====
-- Python's `json` module, as the code uses it: `loads` of bytes, and `dumps` followed by `encode`;
-- `none` is an exception. What it loads has no repeated keys, and what it dumps it loads again.
use floodgate.Common.{Option, some, ◌≡◌}
use floodgate.Bytes.{Bytes}
use floodgate.Value.{Value}
use floodgate.Value.Distinct.{IsDistinct}

pub record JsonCodec : Type 0 where
  pub loads : Bytes → Option Value
  pub dumps : Value → Option Bytes
  pub loads-IsDistinct : (b : Bytes) (v : Value) → loads b ≡ some v → IsDistinct v
  pub loads-dumps : (v : Value) (b : Bytes) → IsDistinct v → dumps v ≡ some b → loads b ≡ some v
