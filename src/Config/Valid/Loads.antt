-- ===== src/Config/Valid/Loads.antt =====
-- load_config as a whole: exactly what it returns, and for which files.
use floodgate.Common.{String, Option, List, [], ◌∷◌, ◌≡◌, ◌≢◌, ◌↔◌, refl, sym, ap, ◌∙◌, inl, inr}
use floodgate.Value.{Fields}
use floodgate.Config.{Result-cases, Config, LoadError, Result, ok, raised}
use floodgate.Config.Validate.{Checked, validate_values}
use floodgate.Config.Load.{Machine, load_config, merged, chosen_path, unresolved, report, source_of}
use floodgate.Config.Load.Merge.{IsMerged, merged_iff}
use floodgate.Config.Valid.{Accepts}
use floodgate.Config.Valid.Sound.{Clean-Accepts}
use floodgate.Config.Valid.Complete.{normalised, validate_values_complete}

-- The loaded configuration is that of an acceptable dict, normalised.
pub record Loads (machine : Machine) (config_path : Option String) (c : Config) : Type 0 where
  pub values : Fields
  pub zerohop : List String
  pub scope : Option (List String)
  pub names : List String
  pub merge : IsMerged machine (chosen_path machine config_path) values
  pub accepts : Accepts machine.env values zerohop scope names
  pub result :
      c
      ≡ normalised values
          (machine.env.casing.upper accepts.log_level.0)
          (machine.env.casing.lower accepts.log_format.0)
          zerohop
          scope
          names

report_sound :
    (source : String) (s : Checked) (c : Config) → report source s ≡ ok c → (s.1 ≡ []) × (s.0 ≡ c)
report_sound source (config, []) c h = (refl, cc)
report_sound source (config, p ∷ ps) c h = cc

raised_ne_ok : (e : LoadError) (c : Config) → ◌≢◌ {A = Result LoadError Config} (raised e) (ok c)
raised_ne_ok e c h = cc

load-Loads :
    (machine : Machine) (config_path : Option String) (c : Config)
    → load_config machine config_path ≡ ok c
    → Loads machine config_path c
load-Loads machine config_path c h =
    elim (Result-cases (merged machine (chosen_path machine config_path))) [
      | inr (e, bad) ↦
          absurd (raised_ne_ok e c (unfold load_config in (rw (bad, load_config) at h)))
      | inl (d, good) ↦
          let source = source_of (chosen_path machine config_path) in
          let checked = validate_values machine.env (unresolved d) in
          let e : report source checked ≡ ok c =
            unfold load_config in (rw (good, load_config) at h) in
          let (clean, same) = report_sound source checked c e in
          let (zerohop, scope, names, a) = Clean-Accepts machine.env d clean in
          record {
            values = d;
            zerohop = zerohop;
            scope = scope;
            names = names;
            merge = (merged_iff machine (chosen_path machine config_path) d).0 good;
            accepts = a;
            result =
                sym same
                ∙ ap (λ (s : Checked). s.0)
                    (validate_values_complete machine.env d zerohop scope names a);
          }
    ]

Loads-load :
    (machine : Machine) (config_path : Option String) (c : Config)
    → Loads machine config_path c
    → load_config machine config_path ≡ ok c
Loads-load machine config_path c l =
    let done = validate_values_complete machine.env l.values l.zerohop l.scope l.names l.accepts in
    let good = (merged_iff machine (chosen_path machine config_path) l.values).1 l.merge in
    unfold load_config in rw (good, done, load_config) (ap ok (sym l.result))

-- load_config returns a configuration exactly if there is no file, the file is empty, or it is a
-- mapping whose keys all have a default, and if the defaults updated by it are acceptable (every value of its type and in its range, every list a list of texts,
-- every portnum known). What it returns is that dict with the log level in capitals and the log
-- format, the environment's if it names one, in small letters, and the three sets that the lists
-- denote.
pub load_config_iff :
    (machine : Machine) (config_path : Option String) (c : Config)
    → (load_config machine config_path ≡ ok c) ↔ Loads machine config_path c
load_config_iff machine config_path c =
    (load-Loads machine config_path c, Loads-load machine config_path c)
