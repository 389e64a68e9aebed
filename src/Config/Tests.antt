-- ===== src/Config/Tests.antt =====
-- The configuration file of the samples, loaded.
use floodgate.Common.{String, true, some, ◌≡◌, ◌↔◌, Bool}
use floodgate.Common.Text.{contains}
use floodgate.Value.{bool}
use floodgate.Config.{item, ok}
use floodgate.Config.Policy.{should_zerohop, should_drop}
use floodgate.Config.Policy.Loaded.{should_zerohop_iff, should_drop_iff, InScope}
use floodgate.Config.Load.{load_config}
use floodgate.Config.Valid.Loads.{Loads, load_config_iff}
use floodgate.Config.Samples.{machine, path, loaded, loads}

load_config_iff_example :
    (load_config machine (some "floodgate.yaml") ≡ ok loaded)
    ↔ Loads machine (some "floodgate.yaml") loaded
load_config_iff_example = load_config_iff machine (some "floodgate.yaml") loaded

should_zerohop_iff_example :
    ((b : Bool) × (should_zerohop loaded "LongFast" ≡ some b))
    × ((should_zerohop loaded "LongFast" ≡ some true) ↔ (
        (item loads.values "zerohop_enabled" ≡ bool true)
        × (contains loads.zerohop "LongFast" ≡ true)))
should_zerohop_iff_example = should_zerohop_iff machine path loaded loads "LongFast"

should_drop_iff_example :
    ((b : Bool) × (should_drop loaded "LongFast" (some "TEXT_MESSAGE_APP") ≡ some b))
    × ((should_drop loaded "LongFast" (some "TEXT_MESSAGE_APP") ≡ some true) ↔ (
        (item loads.values "drop_enabled" ≡ bool true)
        × ((name : String) × (some "TEXT_MESSAGE_APP" ≡ some name)
            × (contains loads.names name ≡ true))
        × InScope loads.scope "LongFast"))
should_drop_iff_example =
    should_drop_iff machine path loaded loads "LongFast" (some "TEXT_MESSAGE_APP")
