-- ===== src/ExHook/Startup.antt =====
-- _log_startup_policy and _format_drop_channel_scope of src/floodgate/exhook_server.py.
pub mod Shown
pub mod Truth
use Prim.Native.Char.{Char}
use Prim.Native.String
use Prim.Native.String.{[], ◌∷◌}
use mathlib.Core.List
use mathlib.Core.Option
use floodgate.Common.{
  String, Bool, true, false, ◌&&◌, Option, none, some, List, ◌++◌, if◌then◌else◌, or_else,
}
use floodgate.Value.{
  Value, bool, int, str, arr, obj, Items, nil, cons, Fields, end, field, get, truthy,
}
use floodgate.Value.Int.{pos}
use floodgate.Config.{Config}
use floodgate.Config.Validate.{sorted}
use floodgate.Service.{Level, info, warning}

-- A log line: its level, its format and the format's arguments.
pub record Line : Type 0 where
  pub level : Level
  pub message : String
  pub args : List Value

-- The lines that were logged, and whether the code got to its end: `false` is an exception.
abbrev pub Said : Type 0
Said = Bool × List Line

abbrev pub say : Level → String → List Value → Said
say level message args =
    (true, List.◌∷◌ (record { level = level; message = message; args = args }) List.[])

infixr 20 ◌then◌
abbrev pub ◌then◌ : Said → Said → Said
(true, lines) then (ended, more) = (ended, lines ++ more)
(false, lines) then _ = (false, lines)

-- `", ".join(…)` of texts.
unfoldable pub join : List String → String
join List.[] = ""
join (List.◌∷◌ s List.[]) = s
join (List.◌∷◌ s (List.◌∷◌ t ts)) = String.◌++◌ s (String.◌++◌ ", " (join (List.◌∷◌ t ts)))

characters : String → List String
characters [] = List.[]
characters (c ∷ s) = List.◌∷◌ (c ∷ "") (characters s)

keys : Fields → List String
keys end = List.[]
keys (field k v d) = List.◌∷◌ k (keys d)

abbrev add_text : Value → Option (List String) → Option (List String)
add_text (str s) rest = Option.map (λ ss. List.◌∷◌ s ss) rest
add_text _ rest = none

unfoldable pub all_texts : Items → Option (List String)
all_texts nil = some List.[]
all_texts (cons v items) = add_text v (all_texts items)

-- The texts that `join` iterates over; `none` is its TypeError. A set or another iterable of YAML's
-- is one too, although the code could join some of them.
unfoldable pub iterated : Value → Option (List String)
unfolding characters keys
iterated (arr items) = all_texts items
iterated (str s) = some (characters s)
iterated (obj d) = some (keys d)
iterated _ = none

-- `config.get(key, []) or []`
abbrev pub listed : Config → String → Value
listed config key =
    let v = or_else (get config.values key) (arr nil) in if truthy v then v else arr nil

-- What is said of a joined list, and what is said after it.
abbrev pub say_joined : Level → String → Option (List String) → List Value → Said
say_joined level message none more = (false, List.[])
say_joined level message (some ss) more = say level message (List.◌∷◌ (str (join ss)) more)

abbrev pub channel_scope : Option (Option (List String)) → String
channel_scope (some (some drop_set)) =
    String.◌++◌ "channels [" (String.◌++◌ (join (sorted drop_set)) "]")
channel_scope _ = "all channels"

-- _format_drop_channel_scope
unfoldable pub format_drop_channel_scope : Config → String
format_drop_channel_scope config = channel_scope config.drop_channels_set

abbrev pub zerohop_disabled : String
zerohop_disabled = "Zerohop DISABLED — packets will not be zero-hopped"

abbrev pub zerohop_empty : String
zerohop_empty = "Zerohop ENABLED — `zerohop_channels` is empty, no channels will be zero-hopped"

abbrev pub zerohop_on : String
zerohop_on = "Zerohop ENABLED — zero-hopping packets on: %s"

abbrev pub drop_disabled : String
drop_disabled = "Drop DISABLED"

abbrev pub drop_empty : String
drop_empty = "Drop ENABLED but `drop_portnums` is empty — drop is a no-op"

abbrev pub drop_on : String
drop_on = "Drop ENABLED — dropping portnums [%s] on %s"

unfoldable pub say_zerohop : Config → Said
say_zerohop config =
    if truthy (or_else (get config.values "zerohop_enabled") (bool true))
    then (if truthy (listed config "zerohop_channels")
        then say_joined info zerohop_on (iterated (listed config "zerohop_channels")) List.[]
        else say info zerohop_empty List.[])
    else say info zerohop_disabled List.[]

unfoldable pub say_drop : Config → Said
say_drop config =
    if truthy (or_else (get config.values "drop_enabled") (bool false))
    then (if truthy (listed config "drop_portnums")
        then say_joined info drop_on (iterated (listed config "drop_portnums"))
            (List.◌∷◌ (str (format_drop_channel_scope config)) List.[])
        else say warning drop_empty List.[])
    else say info drop_disabled List.[]

abbrev pub topic_line : Config → Line
topic_line config = record {
  level = info;
  message = "Topic filter: %s";
  args = List.◌∷◌ (or_else (get config.values "topic_filter") (str "msh/#")) List.[];
}

abbrev pub interval_line : Config → Line
interval_line config = record {
  level = info;
  message = "Stats will be logged every %d seconds";
  args = List.◌∷◌ (or_else (get config.values "stats_interval_s") (int (pos 60))) List.[];
}

abbrev pub outcomes_line : Line
outcomes_line = record {
  level = info;
  message =
      "Per-message outcomes ([ZEROHOP]/[PASSTHRU]/[NOOP]/[DROPPED]) logged at INFO. Run with -v for verbose DEBUG.";
  args = List.[];
}

-- _log_startup_policy
unfoldable pub log_startup_policy : Config → Said
log_startup_policy config =
    (true, List.◌∷◌ (topic_line config) List.[])
    then say_zerohop config
    then say_drop config
    then (true, List.◌∷◌ (interval_line config) (List.◌∷◌ outcomes_line List.[]))
