-- ===== src/Config/Policy.antt =====
-- should_zerohop and should_drop of src/floodgate/config.py. `none` is the KeyError of a dict that
-- lacks a computed set.
pub mod Loaded
use mathlib.Core.Option
use floodgate.Common.{
  String, Bool, true, false, not, Option, none, some, List, or_else, if◌then◌else◌,
}
use floodgate.Common.Text.{contains}
use floodgate.Value.{bool, get, truthy}
use floodgate.Config.{Config}

unfoldable pub should_zerohop : Config → String → Option Bool
should_zerohop config channel_name =
    if not (truthy (or_else (get config.values "zerohop_enabled") (bool true)))
    then some false
    else Option.map (λ set. contains set channel_name) config.zerohop_channels_set

-- The last two tests of `should_drop`: the channel's scope.
abbrev in_drop_scope : Option (List String) → String → Bool
in_drop_scope none channel_name = true
in_drop_scope (some channels) channel_name = contains channels channel_name

abbrev drop_named : Config → String → String → Option Bool
drop_named config channel_name portnum = elim config.drop_portnums_set [
  | none ↦ none
  | some names ↦
      if not (contains names portnum)
      then some false
      else Option.map (λ scope. in_drop_scope scope channel_name) config.drop_channels_set
]

unfoldable pub should_drop : Config → String → Option String → Option Bool
should_drop config channel_name portnum =
    if not (truthy (or_else (get config.values "drop_enabled") (bool false)))
    then some false
    else elim portnum [ none ↦ some false | some name ↦ drop_named config channel_name name ]
