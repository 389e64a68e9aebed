-- ===== src/Config/Samples.antt =====
-- A configuration file for src/floodgate/config.py, and what load_config makes of it.
use floodgate.Common.{
  String, true, Option, none, some, [], ◌∷◌, List, ◌≡◌, refl, ◌==◌, if◌then◌else◌, arith, inl, inr,
  eq_iff, ◌≢◌,
}
use floodgate.Common.Text.{contains}
use floodgate.Value.{Value, bool, str, arr, nil, cons, Fields, insert, get}
use floodgate.Samples.{same_case}
use floodgate.Config.{Config, default_config}
use floodgate.Config.Load.{
  non_text_keys, text_keys, chosen_path, Machine, Key, text, mapping, document, missing, update,
}
use floodgate.Config.Load.Keys.{HasKnownKeys}
use floodgate.Config.Load.Merge.{IsMerged}
use floodgate.Config.Valid.{Accepts}
use floodgate.Config.Valid.Complete.{normalised}
use floodgate.Config.Valid.Loads.{Loads}

abbrev pub file : List (Key × Value)
file =
    (text "drop_enabled", bool true)
    ∷ (text "drop_portnums", arr (cons (str "TEXT_MESSAGE_APP") nil))
    ∷ (text "zerohop_channels", arr (cons (str "LongFast") nil))
    ∷ []

abbrev pub machine : Machine
machine = record {
  env = record {
    log_format_var = some "json";
    casing = same_case;
    portnums = some ("TEXT_MESSAGE_APP" ∷ "POSITION_APP" ∷ []);
    close_match = λ name known. none;
  };
  config_var = none;
  read_file = λ path. if path == "floodgate.yaml" then document (mapping file) else missing;
}

abbrev pub merged_values : Fields
merged_values = update default_config file

abbrev pub loaded : Config
loaded =
    normalised merged_values "INFO" "json" ("LongFast" ∷ []) (some ("LongFast" ∷ []))
      ("TEXT_MESSAGE_APP" ∷ [])

pub known_keys : HasKnownKeys file
unfolding non_text_keys text_keys contains
known_keys = record { all_texts = refl; all_known = (refl, (refl, (refl, tt))) }

pub named : ◌≢◌ {A = String} "msh/#" ""
named e = ground (arith, (eq_iff "msh/#" "").1 e)

abbrev pub accepted :
    Accepts machine.env merged_values
      ("LongFast" ∷ [])
      (some ("LongFast" ∷ []))
      ("TEXT_MESSAGE_APP" ∷ [])
unfolding update insert get contains
accepted = record {
  zerohop_enabled = (true, refl);
  drop_enabled = (true, refl);
  stats_log = (true, refl);
  grpc_port = (9000, refl, omega arith, omega arith);
  health_port = (8080, refl, omega arith, omega arith);
  grpc_max_workers = (16, refl, omega arith, tt);
  stats_interval_s = (60, refl, omega arith, tt);
  log_level = ("INFO", refl, refl);
  log_format = ("json", refl, refl);
  topic_filter = ("msh/#", refl, named);
  zerohop_channels = inr refl;
  drop_channels = inl (refl, refl);
  drop_portnums = inr refl;
  known = (refl, tt);
}

abbrev pub path : Option String
path = some "floodgate.yaml"

pub read : IsMerged machine (chosen_path machine path) merged_values
unfolding chosen_path
read = inr (file, refl, known_keys, refl)

pub loaded-normalised :
    loaded
    ≡ normalised merged_values
        (machine.env.casing.upper accepted.log_level.0)
        (machine.env.casing.lower accepted.log_format.0)
        ("LongFast" ∷ [])
        (some ("LongFast" ∷ []))
        ("TEXT_MESSAGE_APP" ∷ [])
unfolding accepted
loaded-normalised = refl

abbrev pub loads : Loads machine path loaded
loads = record {
  values = merged_values;
  zerohop = "LongFast" ∷ [];
  scope = some ("LongFast" ∷ []);
  names = "TEXT_MESSAGE_APP" ∷ [];
  merge = read;
  accepts = accepted;
  result = loaded-normalised;
}
