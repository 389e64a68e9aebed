-- ===== src/Config/Load.antt =====
-- load_config and _reject_bad_keys of src/floodgate/config.py.
pub mod Keys
pub mod Merge
use floodgate.Common.{String, Option, none, some, List, [], ◌∷◌, ◌==◌, if◌then◌else◌}
use floodgate.Value.{Value, Fields, insert}
use floodgate.Config.{
  Config, default_config, default_keys, removed_keys, ConfigError, not_found, not_yaml,
  not_readable, not_mapping, not_text_keys, bad_keys, bad_values, LoadError, config_error, uncaught,
  Result, ok, raised,
}
use floodgate.Config.Validate.{Env, Checked, sorted, minus, common, validate_values}

-- A key of a YAML mapping; one that is no string is kept by its `repr`.
pub data Key : Type 0 where
  text : String → Key
  non_text : String → Key

-- What `yaml.safe_load` makes of a file, by the cases that the code tells apart.
pub data Document : Type 0 where
  empty : Document
  mapping : List (Key × Value) → Document
  scalar_or_list : Value → Document

-- What becomes of opening and parsing a path. A `crash` is an exception that is neither a YAMLError
-- nor an OSError of `open`: a UnicodeDecodeError, a ValueError of PyYAML, or one of `is_file`.
pub data FileRead : Type 0 where
  missing : FileRead
  yaml_error : FileRead
  os_error : FileRead
  crash : FileRead
  document : Document → FileRead

-- The machine: the validation's surroundings, $FLOODGATE_CONFIG, and the file system behind PyYAML.
pub record Machine : Type 0 where
  pub env : Env
  pub config_var : Option String
  pub read_file : String → FileRead

unfoldable pub non_text_keys : List (Key × Value) → List String
non_text_keys [] = []
non_text_keys ((text k, v) ∷ m) = non_text_keys m
non_text_keys ((non_text r, v) ∷ m) = r ∷ non_text_keys m

unfoldable pub text_keys : List (Key × Value) → List String
text_keys [] = []
text_keys ((text k, v) ∷ m) = k ∷ text_keys m
text_keys ((non_text r, v) ∷ m) = text_keys m

-- `config.update(user_config)`.
unfoldable pub update : Fields → List (Key × Value) → Fields
update d [] = d
update d ((text k, v) ∷ m) = update (insert d k v) m
update d ((non_text r, v) ∷ m) = update d m

rejection : String → List String → List String → Option ConfigError
rejection source [] [] = none
rejection source removed unknown = some (bad_keys source removed unknown)

-- _reject_bad_keys: the error that it raises, if it does.
pub reject_bad_keys : List String → String → Option ConfigError
unfolding rejection sorted minus common
reject_bad_keys user_keys source =
    let removed = sorted (common user_keys removed_keys) in
    let unknown = sorted (minus (minus user_keys default_keys) removed_keys) in
    rejection source removed unknown

-- The dict of the defaults and the file, before validation.
merge_keys : String → List (Key × Value) → List String → Result ConfigError Fields
unfolding reject_bad_keys
merge_keys path m [] = elim (reject_bad_keys (text_keys m) path) [
  | some e ↦ raised e
  | none ↦ ok (update default_config m)
]
merge_keys path m bad = raised (not_text_keys path bad)

pub merge_document : String → Document → Result ConfigError Fields
unfolding merge_keys non_text_keys text_keys update
merge_document path empty = merge_keys path [] []
merge_document path (scalar_or_list v) = raised (not_mapping path v)
merge_document path (mapping m) = merge_keys path m (non_text_keys m)

abbrev as_load_error : Result ConfigError Fields → Result LoadError Fields
as_load_error (ok d) = ok d
as_load_error (raised e) = raised (config_error e)

pub merge_file : String → FileRead → Result LoadError Fields
unfolding merge_document
merge_file path missing = raised (config_error (not_found path))
merge_file path yaml_error = raised (config_error (not_yaml path))
merge_file path os_error = raised (config_error (not_readable path))
merge_file path crash = raised uncaught
merge_file path (document d) = as_load_error (merge_document path d)

-- The path that is read, if any: the argument, or the variable; an empty one is none.
unfoldable pub chosen_path : Machine → Option String → Option String
chosen_path machine config_path =
    let path : Option String = elim config_path [ some p ↦ some p | none ↦ machine.config_var ] in
    elim path [ none ↦ none | some p ↦ if p == "" then none else some p ]

pub merged : Machine → Option String → Result LoadError Fields
unfolding merge_file
merged machine path = elim path [
  | none ↦ ok default_config
  | some p ↦ merge_file p (machine.read_file p)
]

abbrev pub source_of : Option String → String
source_of none = "built-in defaults"
source_of (some p) = p

abbrev pub report : String → Checked → Result LoadError Config
report source (config, []) = ok config
report source (config, p ∷ errors) = raised (config_error (bad_values source (p ∷ errors)))

abbrev pub unresolved : Fields → Config
unresolved d = record {
  values = d;
  zerohop_channels_set = none;
  drop_channels_set = none;
  drop_portnums_set = none;
}

-- load_config, less its setting of a logger's level.
unfoldable pub load_config : Machine → Option String → Result LoadError Config
unfolding validate_values merged chosen_path
load_config machine config_path =
    let path = chosen_path machine config_path in
    elim (merged machine path) [
      | raised e ↦ raised e
      | ok values ↦ report (source_of path) (validate_values machine.env (unresolved values))
    ]
