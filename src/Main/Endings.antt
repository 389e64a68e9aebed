-- ===== src/Main/Endings.antt =====
-- The logging that main of src/floodgate/__main__.py leaves, and each way in which it ends.
use floodgate.Common.{
  ℕ, String, Bool, true, false, none, some, [], ◌∷◌, ◌≡◌, ◌⊎◌, refl, ap, arith, ◌∙◌, inl, inr,
  or_else,
}
use floodgate.Common.Text.{contains}
use floodgate.Value.{Value, null, str}
use floodgate.Value.Laws.{get-insert}
use floodgate.Config.{
  Config, ConfigError, config_error, uncaught, ok, raised, Result-cases, item, log_levels,
  log_formats,
}
use floodgate.Config.Load.{Machine, load_config}
use floodgate.Config.Load.Keys.{contains-elim}
use floodgate.Config.Valid.Loads.{Loads, load_config_iff}
use floodgate.LogSetup.Install.{
  Formatter, json_lines, structured_text, Logging, build_formatter, configure_logging,
}
use floodgate.Main.{
  Args, with_verbose, basic_config, Ending, exits, raises, serves, level_number, leveled, configure,
  go_on, main,
}
use floodgate.Main.Policies.{verbose_get}

-- The formatter that a configured format asks for, and the number of a configured level.
pub data IsFormatter : Value → Formatter → Type 0 where
  json_format : IsFormatter (str "json") json_lines
  text_format : IsFormatter (str "text") structured_text

pub data IsLevel : Value → ℕ → Type 0 where
  debug : IsLevel (str "DEBUG") 10
  info : IsLevel (str "INFO") 20
  warning : IsLevel (str "WARNING") 30
  error : IsLevel (str "ERROR") 40
  critical : IsLevel (str "CRITICAL") 50

-- Whatever logging was before, the root logger has one handler, with the formatter that is asked
-- for, and both loggers have the level that is asked for.
pub record IsConfigured (args : Args) (config : Config) (after : Logging) : Type 0 where
  pub formatter : Formatter
  pub level : ℕ
  pub one_handler : after.handlers ≡ formatter ∷ []
  pub is_formatter : IsFormatter (item config.values "log_format") formatter
  pub root_leveled : after.root_level ≡ level
  pub floodgate_leveled : after.floodgate_level ≡ level
  pub is_level : IsLevel (item config.values "log_level") level
  pub verbose_debug : args.verbose ≡ true → level ≡ 10

IsLevel-number : (v : Value) (n : ℕ) → IsLevel v n → level_number v ≡ some n
unfolding level_number
IsLevel-number _ _ debug = refl
IsLevel-number _ _ info = refl
IsLevel-number _ _ warning = refl
IsLevel-number _ _ error = refl
IsLevel-number _ _ critical = refl

-- The formatter is built, unless it is for JSON and python-json-logger is missing.
IsFormatter-built :
    (has_json : Bool) (v : Value) (f : Formatter)
    → IsFormatter v f
    → (build_formatter has_json v ≡ some f)
      ⊎ ((has_json ≡ false) × ((v ≡ str "json") × (build_formatter has_json v ≡ none)))
unfolding build_formatter
IsFormatter-built true _ _ json_format = inl refl
IsFormatter-built false _ _ json_format = inr (refl, (refl, refl))
IsFormatter-built has_json _ _ text_format = inl refl

known-IsLevel : (name : String) → contains log_levels name ≡ true → (n : ℕ) × IsLevel (str name) n
known-IsLevel name h =
    contains-elim (λ k. (n : ℕ) × IsLevel (str k) n) log_levels name h
      ((10, debug), ((20, info), ((30, warning), ((40, error), ((50, critical), tt)))))

known-IsFormatter :
    (name : String) → contains log_formats name ≡ true → (f : Formatter) × IsFormatter (str name) f
known-IsFormatter name h =
    contains-elim (λ k. (f : Formatter) × IsFormatter (str k) f) log_formats name h
      ((structured_text, text_format), ((json_lines, json_format), tt))

module _ (machine : Machine) (args : Args) (c : Config) (l : Loads machine args.config c) where
  level_item : item c.values "log_level" ≡ str (machine.env.casing.upper l.accepts.log_level.0)
  level_item = rw l.result (rw (get-insert, get-insert) refl)

  format_item :
      item (with_verbose args.verbose c).values "log_format"
      ≡ str (machine.env.casing.lower l.accepts.log_format.0)
  format_item =
      ap (λ g. or_else g null) (verbose_get args.verbose c "log_format" refl)
      ∙ rw l.result (rw get-insert refl)

  served-IsLevel :
      (verbose : Bool)
      → (n : ℕ) × (IsLevel (item (with_verbose verbose c).values "log_level") n
          × (verbose ≡ true → n ≡ 10))
  served-IsLevel true = (10, (rw get-insert debug, λ e. refl))
  served-IsLevel false =
      let (n, e) =
        known-IsLevel (machine.env.casing.upper l.accepts.log_level.0) l.accepts.log_level.2 in
      (n, (rw level_item e, λ e. absurd (ground (arith, e))))

  served-IsFormatter :
      (f : Formatter) × IsFormatter (item (with_verbose args.verbose c).values "log_format") f
  served-IsFormatter =
      let (f, e) =
        known-IsFormatter (machine.env.casing.lower l.accepts.log_format.0)
          l.accepts.log_format.2 in
      (f, rw format_item e)

-- Where the formatter can be built, configure_logging replaces whatever handlers there were.
configured :
    (has_json : Bool) (args : Args) (config : Config) (level : ℕ) (formatter : Formatter)
    (l : Logging)
    → build_formatter has_json (item config.values "log_format") ≡ some formatter
    → IsFormatter (item config.values "log_format") formatter
    → IsLevel (item config.values "log_level") level
    → (args.verbose ≡ true → level ≡ 10)
    → (after : Logging) × ((configure has_json config l
            (level_number (item config.values "log_level"))
          ≡ serves config after)
        × IsConfigured args config after)
unfolding configure_logging
configured has_json args config level formatter l f g e v = (
  _,
  (
    rw (IsLevel-number (item config.values "log_level") level e, f) refl,
    record {
      formatter = formatter;
      level = level;
      one_handler = refl;
      is_formatter = g;
      root_leveled = refl;
      floodgate_leveled = refl;
      is_level = e;
      verbose_debug = v;
    },
  ),
)

unconfigured :
    (has_json : Bool) (config : Config) (level : ℕ) (l : Logging)
    → build_formatter has_json (item config.values "log_format") ≡ none
    → IsLevel (item config.values "log_level") level
    → configure has_json config l (level_number (item config.values "log_level")) ≡ raises l
unfolding configure_logging
unconfigured has_json config level l f e =
    rw (IsLevel-number (item config.values "log_level") level e, f) refl

loaded_logging :
    (has_json : Bool) (machine : Machine) (args : Args) (before : Logging) (c : Config)
    → load_config machine args.config ≡ ok c
    → main has_json machine args before ≡ go_on has_json args c (basic_config before)
unfolding main
loaded_logging has_json machine args before c h = rw (main, h) refl

-- main logs and exits with status 2.
abbrev pub Exits : Machine → Args → Logging → Ending → Type 0
Exits machine args before r =
    (e : ConfigError) × (load_config machine args.config ≡ raised (config_error e))
    × (r ≡ exits 2 e (basic_config before))

-- main lets an exception through: of load_config, or since python-json-logger is missing.
abbrev pub Raises : Bool → Machine → Args → Ending → Type 0
Raises has_json machine args r =
    (l : Logging) × (r ≡ raises l)
    × ((load_config machine args.config ≡ raised uncaught)
        ⊎ ((has_json ≡ false)
            × ((c : Config) × (load_config machine args.config ≡ ok c)
                × (item (with_verbose args.verbose c).values "log_format" ≡ str "json"))))

-- main serves what was loaded, with logging set up.
abbrev pub Serves : Machine → Args → Ending → Type 0
Serves machine args r =
    (c : Config) × (after : Logging) × (load_config machine args.config ≡ ok c)
    × (r ≡ serves (with_verbose args.verbose c) after)
    × IsConfigured args (with_verbose args.verbose c) after

loaded_cases :
    (has_json : Bool) (machine : Machine) (args : Args) (before : Logging) (c : Config)
    → load_config machine args.config ≡ ok c
    → Raises has_json machine args (main has_json machine args before)
      ⊎ Serves machine args (main has_json machine args before)
loaded_cases has_json machine args before c h =
    let l = (load_config_iff machine args.config c).0 h in
    let config = with_verbose args.verbose c in
    let (level, (e, v)) = served-IsLevel machine args c l args.verbose in
    let (formatter, f) = served-IsFormatter machine args c l in
    let l' = leveled c (basic_config before) (level_number (item c.values "log_level")) in
    let start = loaded_logging has_json machine args before c h in
    elim (IsFormatter-built has_json (item config.values "log_format") formatter f) [
      | inl built ↦
          let (after, (g, k)) = configured has_json args config level formatter l' built f e v in
          inr (c, after, h, start ∙ g, k)
      | inr (missing, (is_json, not_built)) ↦ inl (
        l',
        start ∙ unconfigured has_json config level l' not_built e,
        inr (missing, (c, h, is_json)),
      )
    ]

pub main-cases :
    (has_json : Bool) (machine : Machine) (args : Args) (before : Logging)
    → Exits machine args before (main has_json machine args before)
      ⊎ (Raises has_json machine args (main has_json machine args before)
          ⊎ Serves machine args (main has_json machine args before))
unfolding main
main-cases has_json machine args before = elim (Result-cases (load_config machine args.config)) [
  | inl (c, h) ↦ inr (loaded_cases has_json machine args before c h)
  | inr (config_error e, h) ↦ inl (e, h, rw (main, h) refl)
  | inr (uncaught, h) ↦ inr (inl (basic_config before, rw (main, h) refl, inl h))
]
