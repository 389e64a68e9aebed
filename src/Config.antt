-- ===== src/Config.antt =====
-- The data of src/floodgate/config.py: the configuration, its defaults and its errors.
pub mod Policy
pub mod Validate
pub mod Load
pub mod Valid
pub mod Samples
mod Tests
use floodgate.Common.{
  ℕ, String, Bool, true, false, Option, none, some, List, [], ◌∷◌, or_else, ◌≡◌, ◌⊎◌, inl, inr,
  refl,
}
use floodgate.Value.{Value, null, bool, int, str, arr, Items, nil, cons, Fields, end, field, get}
use floodgate.Value.Int.{pos}

-- The dict that `load_config` returns. The three sets that it computes stand under the keys
-- `_zerohop_channels_set`, `_drop_channels_set` and `_drop_portnums_set` of the same dict; `none` is
-- an absent key. A set of strings is a list. The set of drop channels may be None: all channels.
pub record Config : Type 0 where
  pub values : Fields
  pub zerohop_channels_set : Option (List String)
  pub drop_channels_set : Option (Option (List String))
  pub drop_portnums_set : Option (List String)

abbrev pub inherit_zerohop_channels : String
inherit_zerohop_channels = "zerohop_channels"

-- _REMOVED_KEYS, without their explanations.
abbrev pub removed_keys : List String
removed_keys = "channel_policy" ∷ "channel_blacklist" ∷ "channel_whitelist" ∷ []

abbrev default_channels : Items
default_channels = cons (str "LongTurbo") (
    cons (str "LongFast") (
      cons (str "LongModerate") (
        cons (str "MediumFast") (
          cons (str "MediumSlow")
            (cons (str "ShortFast") (cons (str "ShortSlow") (cons (str "ShortTurbo") nil)))))))

-- DEFAULT_CONFIG
abbrev pub default_config : Fields
default_config = field "zerohop_enabled" (bool true) (
    field "zerohop_channels" (arr default_channels) (
      field "drop_enabled" (bool false) (
        field "drop_channels" (str inherit_zerohop_channels) (
          field "drop_portnums" (arr nil) (
            field "grpc_port" (int (pos 9000)) (
              field "grpc_max_workers" (int (pos 16)) (
                field "health_port" (int (pos 8080)) (
                  field "topic_filter" (str "msh/#") (
                    field "stats_interval_s" (int (pos 60)) (
                      field "log_level" (str "INFO") (
                        field "log_format" (str "text")
                          (field "stats_log" (bool true) end))))))))))))

abbrev pub default_keys : List String
default_keys =
    "zerohop_enabled" ∷ "zerohop_channels" ∷ "drop_enabled" ∷ "drop_channels" ∷ "drop_portnums"
    ∷ "grpc_port" ∷ "grpc_max_workers" ∷ "health_port" ∷ "topic_filter" ∷ "stats_interval_s"
    ∷ "log_level" ∷ "log_format" ∷ "stats_log" ∷ []

abbrev pub log_levels : List String
log_levels = "DEBUG" ∷ "INFO" ∷ "WARNING" ∷ "ERROR" ∷ "CRITICAL" ∷ []

abbrev pub log_formats : List String
log_formats = "text" ∷ "json" ∷ []

-- One line of the list of invalid values, by what the message names.
pub data Problem : Type 0 where
  not_bool : String → Value → Problem
  not_int_within : String → ℕ → Option ℕ → Value → Problem
  not_log_level : Value → Problem
  not_log_format : String → Value → Problem
  not_topic_filter : Value → Problem
  not_list : String → Value → Problem
  not_texts : String → Items → Problem
  not_drop_channels : Value → Problem
  not_portnum : String → Option String → Problem

-- ConfigError
pub data ConfigError : Type 0 where
  not_found : String → ConfigError
  not_yaml : String → ConfigError
  not_readable : String → ConfigError
  not_mapping : String → Value → ConfigError
  not_text_keys : String → List String → ConfigError
  bad_keys : String → List String → List String → ConfigError
  bad_values : String → List Problem → ConfigError

-- A result, or the exception that was raised in its place.
pub data Result {ℓ} (E : Type 0) (A : Type ℓ) : Type ℓ where
  ok : A → Result E A
  raised : E → Result E A

-- What load_config raises: a ConfigError, or another exception, that nothing in it catches.
pub data LoadError : Type 0 where
  config_error : ConfigError → LoadError
  uncaught : LoadError

pub Result-cases :
    {E A : Type 0} (r : Result E A) → ((a : A) × (r ≡ ok a)) ⊎ ((e : E) × (r ≡ raised e))
Result-cases (ok a) = inl (a, refl)
Result-cases (raised e) = inr (e, refl)

-- `config[key]`, for the keys of DEFAULT_CONFIG: a loaded dict holds them all, so a KeyError, which
-- would be None here, does not happen.
abbrev pub item : Fields → String → Value
item d k = or_else (get d k) null
