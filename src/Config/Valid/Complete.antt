-- ===== src/Config/Valid/Complete.antt =====
-- Validation accepts every acceptable dict, and what it makes of it.
use mathlib.Core.Path.{subst}
use floodgate.Common.{String, false, ◌==◌, Option, some, none, List, [], ◌≡◌, refl, sym, ◌∙◌}
use floodgate.Value.{Value, str, Fields, insert}
use floodgate.Value.Laws.{get-insert}
use floodgate.Config.{Config, item, log_levels, log_formats}
use floodgate.Config.Validate.{
  Env, Checked, check_log_level, check_log_format, check_topic_filter, check_channels,
  check_portnums, validate_values, write, labelled_format, env_fmt,
}
use floodgate.Config.Load.{unresolved}
use floodgate.Config.Valid.{Accepts, IsNonEmpty, Denotes, DenotesScope, format_value}
use floodgate.Config.Valid.Checks.{Clean-check_topic_filter, check_topic_filter-keeps, store-exact}
use floodgate.Config.Valid.Lists.{check_channels_complete, check_portnums_complete, with_channels}
use floodgate.Config.Valid.Stages.{PlainFields, plain, plain-keeps, Clean-plain}

-- The accepted dict with its two normal spellings, and the three sets.
abbrev pub normalised :
    Fields → String → String → List String → Option (List String) → List String → Config
normalised d level format zerohop scope names = record {
  values = insert (insert d "log_level" (str level)) "log_format" (str format);
  zerohop_channels_set = some zerohop;
  drop_channels_set = some scope;
  drop_portnums_set = some names;
}

labelled_format-insert :
    (o : Option String) (d : Fields) (v : Value)
    → (labelled_format o (insert d "log_level" v)).0 ≡ (labelled_format o d).0
labelled_format-insert (some text) d v = refl
labelled_format-insert none d v = rw get-insert

module _ (env : Env) (d : Fields) (zerohop : List String) (scope : Option (List String))
    (names : List String) (a : Accepts env d zerohop scope names) where
  abbrev level : String
  level = env.casing.upper a.log_level.0

  abbrev format : String
  format = env.casing.lower a.log_format.0

  plain_stage : ◌≡◌ {A = Checked} (plain (unresolved d, [])) (unresolved d, [])
  plain_stage =
      let start : Checked = (unresolved d, []) in
      let fields : PlainFields d = record {
        zerohop_enabled = a.zerohop_enabled;
        drop_enabled = a.drop_enabled;
        stats_log = a.stats_log;
        grpc_port = a.grpc_port;
        health_port = a.health_port;
        grpc_max_workers = a.grpc_max_workers;
        stats_interval_s = a.stats_interval_s;
      } in
      let c = (Clean-plain start).1 (refl, fields) in λ i. (plain-keeps start i, c i)

  level_stage :
      check_log_level env (unresolved d, []) ≡ write (unresolved d, []) "log_level" (str level)
  unfolding check_log_level
  level_stage =
      store-exact env.casing.upper log_levels (item d "log_level") "log_level" _ _ a.log_level

  abbrev leveled : Checked
  leveled = write (unresolved d, []) "log_level" (str level)

  abbrev formatted : Checked
  formatted = write leveled "log_format" (str format)

  format_stage : check_log_format env leveled ≡ formatted
  unfolding check_log_format
  format_stage =
      let same = labelled_format-insert (env_fmt env) d (str level) in
      store-exact env.casing.lower log_formats (format_value env leveled.0.values) "log_format" _ _
        (a.log_format.0, same ∙ a.log_format.1, a.log_format.2)

  formatted_item :
      (k : String)
      → ("log_level" == k) ≡ false
      → ("log_format" == k) ≡ false
      → item formatted.0.values k ≡ item d k
  formatted_item k h g = rw (get-insert, g, get-insert, h)

  topic_stage : check_topic_filter formatted ≡ formatted
  topic_stage =
      let fits = subst IsNonEmpty (sym (formatted_item "topic_filter" refl refl)) a.topic_filter in
      let c = (Clean-check_topic_filter formatted).1 (refl, fits) in
      λ i. (check_topic_filter-keeps formatted i, c i)

  channels_stage : check_channels formatted ≡ (with_channels formatted.0 zerohop scope, [])
  channels_stage =
      check_channels_complete formatted zerohop scope
        (subst (λ v. Denotes v zerohop) (sym (formatted_item "zerohop_channels" refl refl))
          a.zerohop_channels)
        (subst (λ v. DenotesScope zerohop v scope) (sym (formatted_item "drop_channels" refl refl))
          a.drop_channels)

  portnums_stage :
      check_portnums env (with_channels formatted.0 zerohop scope, [])
      ≡ (normalised d level format zerohop scope names, [])
  portnums_stage =
      check_portnums_complete env (with_channels formatted.0 zerohop scope, []) names refl
        (subst (λ v. Denotes v names) (sym (formatted_item "drop_portnums" refl refl))
          a.drop_portnums)
        a.known

  pub validate_values_complete :
      validate_values env (unresolved d) ≡ (normalised d level format zerohop scope names, [])
  unfolding validate_values
  validate_values_complete =
      rw (plain_stage, level_stage, format_stage, topic_stage, channels_stage) portnums_stage
