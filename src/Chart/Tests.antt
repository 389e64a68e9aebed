-- ===== src/Chart/Tests.antt =====
-- A rendered chart for scripts/check_chart.py.
use floodgate.Common.{none, some, [], ◌∷◌, ◌≡◌, ◌≢◌}
use floodgate.Value.{Value, null, int, str, obj, Fields, field, end}
use floodgate.Value.Int.{pos}
use floodgate.Config.Load.{document, mapping}
use floodgate.Config.Samples
use floodgate.Common.{refl, inr}
use floodgate.Value.{get, truthy}
use floodgate.Config.Load.{chosen_path}
use floodgate.Config.Load.Merge.{IsMerged}
use floodgate.Config.Valid.Loads.{Loads}
use floodgate.Chart.{Checker, written, check_chart}
use floodgate.Chart.Lookups.{zero_int}
use floodgate.Chart.Membership.{in_dict}
use floodgate.Chart.Kinds.{empty_first, this, not_this, another, no_more}
use floodgate.Chart.ConfigMap.{HasConfig}
use floodgate.Chart.Deployment.{IsRolledSafely}
use floodgate.Chart.Passes.{IsSafeChart, check_chart-passes_iff}

abbrev checker : Checker
checker = record {
  machine = Samples.machine;
  parse = λ text. document (mapping Samples.file);
  temporary = "/tmp/rendered.yaml";
  is_member = λ k v. none;
}

abbrev config_map : Value
config_map = obj (
    field "kind" (str "ConfigMap")
      (field "data" (obj (field "config.yaml" (str "drop_enabled: true") end)) end))

abbrev pod : Fields
pod =
    field "metadata"
      (obj (field "annotations" (obj (field "checksum/config" (str "e3b0") end)) end)) end

abbrev strategy : Fields
strategy = field "rollingUpdate" (obj (field "maxUnavailable" (int (pos 0)) end)) end

abbrev deployment : Value
deployment = obj (
    field "kind" (str "Deployment")
      (field "spec" (obj (field "template" (obj pod) (field "strategy" (obj strategy) end))) end))

-- The file that the check writes is the sample configuration.
merged :
    IsMerged
      (written checker "drop_enabled: true")
      (chosen_path (written checker "drop_enabled: true") (some "/tmp/rendered.yaml"))
      Samples.merged_values
unfolding chosen_path
merged = inr (Samples.file, refl, Samples.known_keys, refl)

accepted_text :
    Loads (written checker "drop_enabled: true") (some "/tmp/rendered.yaml") Samples.loaded
accepted_text = record {
  values = Samples.merged_values;
  zerohop = "LongFast" ∷ [];
  scope = some ("LongFast" ∷ []);
  names = "TEXT_MESSAGE_APP" ∷ [];
  merge = merged;
  accepts = Samples.accepted;
  result = Samples.loaded-normalised;
}

config_held : HasConfig checker config_map
unfolding get
config_held = record {
  top = _;
  data_fields = _;
  text = "drop_enabled: true";
  config = Samples.loaded;
  is_top = refl;
  has_data = refl;
  has_text = refl;
  loads = accepted_text;
}

rolls : IsRolledSafely checker deployment
unfolding get truthy
rolls = record {
  top = _;
  spec = _;
  template = _;
  metadata = _;
  annotations = _;
  strategy = _;
  rolling = _;
  max_unavailable = _;
  is_top = refl;
  has_spec = refl;
  has_template = refl;
  has_metadata = refl;
  has_annotations = refl;
  counts = refl;
  has_checksum = in_dict _ _ refl;
  has_strategy = refl;
  has_rolling = refl;
  has_max = refl;
  none_unavailable = zero_int;
}

not_config : ◌≢◌ {A = Value} (str "Deployment") (str "ConfigMap")
not_config e = cc

not_deployment : ◌≢◌ {A = Value} (str "ConfigMap") (str "Deployment")
not_deployment e = cc

safe : IsSafeChart checker (some (null ∷ config_map ∷ deployment ∷ []))
unfolding get truthy
safe = record {
  docs = null ∷ config_map ∷ deployment ∷ [];
  config_map = config_map;
  deployment = deployment;
  parses = refl;
  one_config = empty_first refl (this refl refl refl (another refl refl not_config no_more));
  one_deployment =
      empty_first refl (not_this refl refl not_deployment (this refl refl refl no_more));
  has_config = config_held;
  is_rolled_safely = rolls;
}

check_chart-passes_iff_example :
    check_chart checker (some (null ∷ config_map ∷ deployment ∷ [])) ≡ some (0, [])
check_chart-passes_iff_example =
    (check_chart-passes_iff checker (some (null ∷ config_map ∷ deployment ∷ []))).1 safe
