-- ===== src/Main/Tests.antt =====
-- A verbose start of src/floodgate/__main__.py with the sample's configuration file.
use floodgate.LogSetup.Install.{Logging, basic}
use floodgate.Common.{[], ◌∷◌, some, true}
use floodgate.Config.{Config}
use floodgate.Main.{Args}
use floodgate.Server.{Host}

abbrev args : Args
args = record { config = some "floodgate.yaml"; verbose = true }

abbrev before : Logging
before = record { handlers = basic ∷ basic ∷ []; root_level = 30; floodgate_level = 0 }

abbrev host : Host
host = record {
  has_protos = true;
  accepts_workers = λ v. true;
  bind_grpc = λ v. some 9000;
  starts_grpc = true;
  bind_http = λ v. some 8080;
}
