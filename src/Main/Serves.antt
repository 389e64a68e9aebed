-- ===== src/Main/Serves.antt =====
-- main of src/floodgate/__main__.py together with start of src/floodgate/exhook_server.py.
use floodgate.Common.{String, true, Option, ◌≡◌}
use floodgate.Config.Policy.{should_zerohop, should_drop}
use floodgate.LogSetup.Install.{Logging}
use floodgate.Config.{Config}
use floodgate.Config.Load.{Machine}
use floodgate.Config.Valid.Loads.{Loads}
use floodgate.Main.{Args}

-- The configuration that is served decides on every packet as a loaded one does.
pub record IsServed (machine : Machine) (args : Args) (served : Config) (after : Logging)
    : Type 0 where
  pub loaded : Config
  pub loads : Loads machine args.config loaded
  pub same_drops :
      (channel : String) (portnum : Option String)
      → should_drop served channel portnum ≡ should_drop loaded channel portnum
  pub same_zerohops :
      (channel : String) → should_zerohop served channel ≡ should_zerohop loaded channel
  pub verbose_debug : args.verbose ≡ true → after.root_level ≡ 10
