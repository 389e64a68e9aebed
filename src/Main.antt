-- ===== src/Main.antt =====
-- main of src/floodgate/__main__.py: the configuration that is served, or the exit, and the logging
-- that is set up around load_config.
pub mod Policies
pub mod Endings
pub mod Serves
mod Tests
use floodgate.Common.{
  ℕ, String, Bool, true, false, Option, none, some, List, [], ◌∷◌, ◌==◌, if◌then◌else◌,
}
use floodgate.Value.{Value, str, insert}
use floodgate.Config.{Config, ConfigError, LoadError, config_error, uncaught, ok, raised, item}
use floodgate.Config.Load.{Machine, load_config}
use floodgate.LogSetup.Install.{basic, Logging, configure_logging}

-- The command line.
pub record Args : Type 0 where
  pub config : Option String
  pub verbose : Bool

abbrev pub with_verbose : Bool → Config → Config
with_verbose true config = record config { values = insert config.values "log_level" (str "DEBUG") }
with_verbose false config = config

-- The levels of the logging module, by name.
abbrev level_numbers : List (String × ℕ)
level_numbers =
    ("DEBUG", 10) ∷ ("INFO", 20) ∷ ("WARNING", 30) ∷ ("ERROR", 40) ∷ ("CRITICAL", 50) ∷ []

abbrev find_level : String → List (String × ℕ) → Option ℕ
find_level name [] = none
find_level name ((k, n) ∷ rest) =
    let later = find_level name rest in if name == k then some n else later

-- `getattr(logging, name)`, for the name of a level.
unfoldable pub level_number : Value → Option ℕ
level_number (str name) = find_level name level_numbers
level_number _ = none

-- logging.basicConfig does nothing where the root logger has a handler.
unfoldable pub basic_config : Logging → Logging
basic_config l = elim l.handlers [
  | [] ↦ record l { handlers = basic ∷ []; root_level = 20 }
  | _ ∷ _ ↦ l
]

-- How main ends: with `sys.exit` and a status, with an exception, or with `serve` called.
pub data Ending : Type 0 where
  exits : ℕ → ConfigError → Logging → Ending
  raises : Logging → Ending
  serves : Config → Logging → Ending

abbrev pub set_level : ℕ → Logging → Logging
set_level level l = record l { floodgate_level = level }

abbrev pub serve_with : Config → ℕ → Logging → Option Logging → Ending
serve_with config level before none = raises before
serve_with config level before (some l) = serves config (set_level level l)

abbrev pub configure : Bool → Config → Logging → Option ℕ → Ending
configure has_json config l none = raises l
configure has_json config l (some level) =
    serve_with config level l (configure_logging has_json level (item config.values "log_format") l)

-- load_config ends with the level of the logger `floodgate` set to the configured one.
abbrev pub leveled : Config → Logging → Option ℕ → Logging
leveled config l none = l
leveled config l (some level) = set_level level l

abbrev pub go_on : Bool → Args → Config → Logging → Ending
go_on has_json args config l =
    let config' = with_verbose args.verbose config in
    configure has_json config' (leveled config l (level_number (item config.values "log_level")))
      (level_number (item config'.values "log_level"))

-- A ConfigError is caught, and no other exception.
abbrev refused : LoadError → Logging → Ending
refused (config_error e) l = exits 2 e l
refused uncaught l = raises l

-- main, from the parsed command line, with the state of logging; the Bool says whether
-- python-json-logger can be imported.
unfoldable pub main : Bool → Machine → Args → Logging → Ending
main has_json machine args l = elim (load_config machine args.config) [
  | raised e ↦ refused e (basic_config l)
  | ok config ↦ go_on has_json args config (basic_config l)
]
