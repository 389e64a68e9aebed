-- ===== src/Main/Policies.antt =====
-- What is served by src/floodgate/__main__.py decides as the loaded configuration does.
use floodgate.Common.{String, Bool, true, false, Option, ◌≡◌, refl, ◌==◌}
use floodgate.Value.{get}
use floodgate.Value.Laws.{get-insert}
use floodgate.Config.{Config}
use floodgate.Config.Policy.{should_zerohop, should_drop}
use floodgate.Main.{with_verbose}

pub verbose_get :
    (b : Bool) (c : Config) (k : String)
    → ("log_level" == k) ≡ false
    → get (with_verbose b c).values k ≡ get c.values k
verbose_get true c k e = rw (get-insert, e)
verbose_get false c k e = refl

pub should_drop-with_verbose :
    (b : Bool) (c : Config) (channel : String) (portnum : Option String)
    → should_drop (with_verbose b c) channel portnum ≡ should_drop c channel portnum
unfolding should_drop
should_drop-with_verbose true c channel portnum = rw (verbose_get true c "drop_enabled" refl)
should_drop-with_verbose false c channel portnum = refl

pub should_zerohop-with_verbose :
    (b : Bool) (c : Config) (channel : String)
    → should_zerohop (with_verbose b c) channel ≡ should_zerohop c channel
unfolding should_zerohop
should_zerohop-with_verbose true c channel = rw (verbose_get true c "zerohop_enabled" refl)
should_zerohop-with_verbose false c channel = refl
