-- ===== src/Chart.antt =====
-- scripts/check_chart.py: what it says of the documents of a rendered Helm chart.
pub mod Kinds
pub mod Lookups
pub mod Membership
pub mod ConfigMap
pub mod Deployment
pub mod Passes
mod Tests
use Prim.Native.Char
use Prim.Native.String.{[], ◌∷◌}
use mathlib.Core.List
use floodgate.Common.{
  ℕ, String, Bool, true, false, not, ◌&&◌, ◌||◌, eqb, Option, none, some, List, ◌++◌, ◌==◌,
  if◌then◌else◌, or_else, is_some,
}
use floodgate.Value.{
  Value, null, bool, int, float, str, arr, obj, other, Items, nil, cons, Fields, end, get, has_key,
  truthy,
}
use floodgate.Value.Int.{pos, negsuc}
use floodgate.Config.{Config, ConfigError, LoadError, config_error, uncaught, Result, ok, raised}
use floodgate.Config.Load.{Machine, FileRead, load_config}
use floodgate.Portnum.{◌>>=◌}

-- PyYAML on a text, what load_config finds around it, the name of the temporary file, and `in` on an
-- object that is no dict, list or text, a YAML set for one; `none` is a TypeError.
pub record Checker : Type 0 where
  pub machine : Machine
  pub parse : String → FileRead
  pub temporary : String
  pub is_member : String → Value → Option Bool

pub data ChartProblem : Type 0 where
  not_one_config : ChartProblem
  config_rejected : ConfigError → ChartProblem
  not_one_deployment : ChartProblem
  no_checksum : ChartProblem
  not_zero_unavailable : Value → ChartProblem

-- The temporary file has the text; the others are as before.
abbrev pub written : Checker → String → Machine
written checker text = record (checker.machine) {
  read_file = λ path.
      if path == checker.temporary then checker.parse text else checker.machine.read_file path;
}

is_prefix : String → String → Bool
is_prefix [] s = true
is_prefix (c ∷ p) [] = false
is_prefix (c ∷ p) (d ∷ s) = (c ∷ "") == (d ∷ "") && is_prefix p s

is_within : String → String → Bool
is_within p [] = is_prefix p []
is_within p (c ∷ s) = is_prefix p (c ∷ s) || is_within p s

is_item : String → Items → Bool
is_item k nil = false
is_item k (cons (str s) items) = s == k || is_item k items
is_item k (cons _ items) = is_item k items

-- `key in v`; `none` is a TypeError.
unfoldable pub is_in : Checker → String → Value → Option Bool
unfolding is_prefix is_within is_item
is_in checker k (obj d) = some (has_key d k)
is_in checker k (str s) = some (is_within k s)
is_in checker k (arr items) = some (is_item k items)
is_in checker k (other t r) = checker.is_member k (other t r)
is_in checker k _ = none

-- `v[key]`, for a text as the key; `none` is an exception.
abbrev pub subscript : Value → String → Option Value
subscript (obj d) k = get d k
subscript _ k = none

-- `v.get(key)`, with None where it is absent; `none` is an exception.
abbrev pub dot_get : Value → String → Option Value
dot_get (obj d) k = some (or_else (get d k) null)
dot_get _ k = none

-- `v or {}`
abbrev pub or_empty : Value → Value
or_empty v = if truthy v then v else obj end

-- `v != 0`, the other way round. A bool and a float are numbers.
abbrev pub equals_zero : Value → Bool
equals_zero (int (pos n)) = eqb n 0
equals_zero (bool b) = not b
equals_zero (float t r) = not t
equals_zero _ = false

-- `v == text`
abbrev pub is_text : String → Value → Bool
is_text text (str s) = s == text
is_text text _ = false

-- `[d for d in docs if d]`
unfoldable pub non_empty : List Value → List Value
non_empty List.[] = List.[]
non_empty (List.◌∷◌ d docs) =
    let rest = non_empty docs in if truthy d then List.◌∷◌ d rest else rest

-- `[d for d in docs if d["kind"] == kind]`
unfoldable pub of_kind : String → List Value → Option (List Value)
of_kind kind List.[] = some List.[]
of_kind kind (List.◌∷◌ d docs) = do
  k ← subscript d "kind"
  rest ← of_kind kind docs
  some (if is_text kind k then List.◌∷◌ d rest else rest)

-- Only a ConfigError is caught.
abbrev rejection_of : Result LoadError Config → Option (List ChartProblem)
rejection_of (ok config) = some List.[]
rejection_of (raised (config_error e)) = some (List.◌∷◌ (config_rejected e) List.[])
rejection_of (raised uncaught) = none

abbrev rejected : Checker → String → Option (List ChartProblem)
rejected checker text = rejection_of (load_config (written checker text) (some checker.temporary))

-- `f.write` of what is no text raises.
abbrev loaded_text : Checker → Value → Option (List ChartProblem)
loaded_text checker (str text) = rejected checker text
loaded_text checker _ = none

abbrev load_chart : Checker → Value → Bool → Option (List ChartProblem)
load_chart checker cm false = some (List.◌∷◌ not_one_config List.[])
load_chart checker cm true = do
  data_value ← subscript cm "data"
  text ← subscript data_value "config.yaml"
  loaded_text checker text

-- `configmaps[0].get("data", {})`
abbrev pub data_of : Value → Option Value
data_of (obj d) = some (or_else (get d "data") (obj end))
data_of _ = none

-- The first part of main: the problems with the ConfigMap.
unfoldable pub config_problems : Checker → List Value → Option (List ChartProblem)
config_problems checker (List.◌∷◌ cm List.[]) = do
  data_value ← data_of cm
  found ← is_in checker "config.yaml" data_value
  load_chart checker cm found
config_problems checker _ = some (List.◌∷◌ not_one_config List.[])

abbrev checksum_problems : Bool → List ChartProblem
checksum_problems true = List.[]
checksum_problems false = List.◌∷◌ no_checksum List.[]

abbrev unavailable_problems : Value → List ChartProblem
unavailable_problems v =
    if equals_zero v then List.[] else List.◌∷◌ (not_zero_unavailable v) List.[]

-- Whether the pod template's annotations have the checksum.
unfoldable pub has_annotation : Checker → Value → Option Bool
has_annotation checker spec = do
  template ← subscript spec "template"
  metadata ← subscript template "metadata"
  annotations ← dot_get metadata "annotations"
  is_in checker "checksum/config" (or_empty annotations)

unfoldable pub max_unavailable_of : Value → Option Value
max_unavailable_of spec = do
  strategy ← dot_get spec "strategy"
  rolling ← dot_get (or_empty strategy) "rollingUpdate"
  dot_get (or_empty rolling) "maxUnavailable"

-- The second part: the problems with the Deployment.
unfoldable pub deployment_problems : Checker → List Value → Option (List ChartProblem)
deployment_problems checker (List.◌∷◌ d List.[]) = do
  spec ← subscript d "spec"
  found ← has_annotation checker spec
  max_unavailable ← max_unavailable_of spec
  some (checksum_problems found ++ unavailable_problems max_unavailable)
deployment_problems checker _ = some (List.◌∷◌ not_one_deployment List.[])

abbrev exit_status : List ChartProblem → ℕ
exit_status List.[] = 0
exit_status (List.◌∷◌ p ps) = 1

-- main: the exit status and the problems that are printed; `none` is an exception. The documents are
-- what PyYAML makes of standard input.
unfoldable pub check_chart : Checker → Option (List Value) → Option (ℕ × List ChartProblem)
check_chart checker input = do
  parsed ← input
  let docs = non_empty parsed
  configmaps ← of_kind "ConfigMap" docs
  deployments ← of_kind "Deployment" docs
  problems ← config_problems checker configmaps
  more ← deployment_problems checker deployments
  some (exit_status (problems ++ more), problems ++ more)
