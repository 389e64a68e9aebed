-- ===== src/LogSetup/Install.antt =====
-- build_formatter and configure_logging of src/floodgate/log_setup.py: the handlers of the root
-- logger, and the levels.
use floodgate.Common.{ℕ, Bool, false, Option, none, some, List, [], ◌∷◌, ◌==◌, if◌then◌else◌}
use floodgate.Value.{Value, str}

-- A handler writes to stderr, with a formatter: that of basicConfig, or one that was built.
pub data Formatter : Type 0 where
  basic json_lines structured_text : Formatter

-- The root logger, and the level of the logger `floodgate`.
pub record Logging : Type 0 where
  pub handlers : List Formatter
  pub root_level : ℕ
  pub floodgate_level : ℕ

abbrev is_json : Value → Bool
is_json (str s) = s == "json"
is_json _ = false

-- `none` is the ImportError where neither module of python-json-logger can be imported.
unfoldable pub build_formatter : Bool → Value → Option Formatter
build_formatter has_json log_format =
    if is_json log_format
    then (if has_json then some json_lines else none)
    else some structured_text

abbrev install : ℕ → Option Formatter → Logging → Option Logging
install level none l = none
install level (some formatter) l = some (record l { handlers = formatter ∷ []; root_level = level })

-- Where the formatter cannot be built, nothing has been changed.
unfoldable pub configure_logging : Bool → ℕ → Value → Logging → Option Logging
configure_logging has_json level log_format l =
    install level (build_formatter has_json log_format) l
