-- ===== src/Config/Valid.antt =====
-- What load_config promises of the configuration that it returns.
pub mod Checks
pub mod Lists
pub mod Stages
pub mod Sound
pub mod Complete
pub mod Loads
use floodgate.Common.{
  ℕ, String, Bool, true, false, Option, none, some, List, [], ◌∷◌, ◌≡◌, ◌≢◌, ◌≤◌, ◌⊎◌, All,
}
use floodgate.Common.Text.{contains}
use floodgate.Value.{Value, null, bool, int, str, arr, Items, nil, cons, Fields}
use floodgate.Value.Int.{pos}
use floodgate.Config.{inherit_zerohop_channels, log_levels, log_formats, item}
use floodgate.Config.Validate.{Env, env_fmt, labelled_format}

abbrev pub IsBool : Value → Type 0
IsBool v = (b : Bool) × (v ≡ bool b)

abbrev pub AtMost : ℕ → Option ℕ → Type 0
AtMost n none = Unit
AtMost n (some most) = n ≤ most

-- An integer, and no Boolean, in a range of positive numbers.
abbrev pub IsIntWithin : ℕ → Option ℕ → Value → Type 0
IsIntWithin low high v = (n : ℕ) × (v ≡ int (pos n)) × (low ≤ n) × AtMost n high

abbrev pub IsOneOf : List String → Value → Type 0
IsOneOf allowed v = (s : String) × (v ≡ str s) × (contains allowed s ≡ true)

-- A text with an accepted spelling, once its case is changed.
abbrev pub IsNormal : (String → String) → List String → Value → Type 0
IsNormal change allowed v = (s : String) × (v ≡ str s) × (contains allowed (change s) ≡ true)

abbrev pub IsNonEmpty : Value → Type 0
IsNonEmpty v = (s : String) × (v ≡ str s) × (s ≢ "")

-- The YAML list of some texts.
abbrev pub items_of : List String → Items
items_of [] = nil
items_of (s ∷ ss) = cons (str s) (items_of ss)

-- A value that stands for a set of texts: null, or a list of them.
abbrev pub Denotes : Value → List String → Type 0
Denotes v names = ((v ≡ null) × (names ≡ [])) ⊎ (v ≡ arr (items_of names))

-- A value that stands for the scope of the drop filter, where the zero-hop channels are given: null
-- or an empty list for all channels, the word `zerohop_channels`, or a list of channels.
abbrev pub DenotesScope : List String → Value → Option (List String) → Type 0
DenotesScope zerohop v none = (v ≡ null) ⊎ (v ≡ arr nil)
DenotesScope zerohop v (some names) =
    ((v ≡ str inherit_zerohop_channels) × (names ≡ zerohop))
    ⊎ ((names ≢ []) × (v ≡ arr (items_of names)))

-- Every name is one of Meshtastic's, where those can be imported.
abbrev pub AreKnown : Option (List String) → List String → Type 0
AreKnown none names = Unit
AreKnown (some known) names = All (λ name. contains known name ≡ true) names

-- The text that names the log format: the variable's, or else the dict's.
abbrev pub format_value : Env → Fields → Value
format_value env d = (labelled_format (env_fmt env) d).0

-- A dict that validation accepts, with the three sets that its lists denote.
pub record Accepts (env : Env) (d : Fields) (zerohop : List String) (scope : Option (List String))
    (names : List String) : Type 0 where
  pub zerohop_enabled : IsBool (item d "zerohop_enabled")
  pub drop_enabled : IsBool (item d "drop_enabled")
  pub stats_log : IsBool (item d "stats_log")
  pub grpc_port : IsIntWithin 1 (some 65535) (item d "grpc_port")
  pub health_port : IsIntWithin 1 (some 65535) (item d "health_port")
  pub grpc_max_workers : IsIntWithin 1 none (item d "grpc_max_workers")
  pub stats_interval_s : IsIntWithin 1 none (item d "stats_interval_s")
  pub log_level : IsNormal env.casing.upper log_levels (item d "log_level")
  pub log_format : IsNormal env.casing.lower log_formats (format_value env d)
  pub topic_filter : IsNonEmpty (item d "topic_filter")
  pub zerohop_channels : Denotes (item d "zerohop_channels") zerohop
  pub drop_channels : DenotesScope zerohop (item d "drop_channels") scope
  pub drop_portnums : Denotes (item d "drop_portnums") names
  pub known : AreKnown env.portnums names
