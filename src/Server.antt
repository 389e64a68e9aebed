-- ===== src/Server.antt =====
-- RunningServer, start and serve of src/floodgate/exhook_server.py, and start_health_server of
-- src/floodgate/health.py: what is brought up, in which order, and what is left where that fails.
pub mod Start
pub mod Threads
mod Tests
use floodgate.Common.{
  ℕ, String, Bool, true, false, Option, none, some, List, [], ◌∷◌, ◌++◌, if◌then◌else◌, or_else,
}
use floodgate.Value.{Value, int, get}
use floodgate.Value.Int.{pos}
use floodgate.Config.{Config}
use floodgate.Stats.{Snapshot}
use floodgate.Service.{Level, info, error}
use floodgate.ExHook.Startup.{Line, Said, log_startup_policy}

-- A listening socket: none, one whose server does not serve, one that is served, one that is closed.
pub data Listener : Type 0 where
  absent : Listener
  bound : ℕ → Listener
  serving : ℕ → Listener
  closed : Listener

-- The thread of _stats_reporter: in `wait`, between a wait that has timed out and the reset, between
-- the reset and the log line, or at its end.
pub data Reporter : Type 0 where
  not_started waiting due ended : Reporter
  holding : Snapshot → Reporter

-- What gRPC, the thread pool and the operating system do when they are asked. `none` is an exception.
pub record Host : Type 0 where
  pub has_protos : Bool
  pub accepts_workers : Value → Bool
  pub bind_grpc : Value → Option ℕ
  pub starts_grpc : Bool
  pub bind_http : Value → Option ℕ

-- What `start` brings up.
pub record Server : Type 0 where
  pub grpc : Listener
  pub health : Listener
  pub reporter : Reporter
  pub lines : List Line

abbrev pub down : Server
down = record { grpc = absent; health = absent; reporter = not_started; lines = [] }

-- The ports of a RunningServer.
pub record Ports : Type 0 where
  pub grpc_port : ℕ
  pub health_port : ℕ

abbrev pub setting : Config → String → ℕ → Value
setting config key default = or_else (get config.values key) (int (pos default))

abbrev line : Level → String → List Value → Line
line level message args = record { level = level; message = message; args = args }

abbrev number : ℕ → Value
number n = int (pos n)

-- The exception's type and text are left out of the arguments.
abbrev failure : Config → Line
failure config =
    line error "Failed to start gRPC server on port %d: %s(%s)"
      (setting config "grpc_port" 9000 ∷ [])

-- start_health_server: the server is bound, then served by its own thread.
unfoldable pub start_health_server : Host → Value → Server → Option ℕ × Server
start_health_server host port s = elim (host.bind_http port) [
  | none ↦ (none, s)
  | some bound_port ↦ (
    some bound_port,
    record s {
      health = serving bound_port;
      lines =
          s.lines
          ++ line info "Health check listening on port %d  GET /health" (number bound_port ∷ [])
            ∷ [];
    },
  )
]

abbrev started : ℕ → ℕ → Said → Server → Option Ports × Server
started grpc_port health_port (false, lines) s = (none, record s { lines = s.lines ++ lines })
started grpc_port health_port (true, lines) s = (
  some (record { grpc_port = grpc_port; health_port = health_port }),
  record s { lines = s.lines ++ lines; reporter = waiting },
)

-- `start` from where the health server is up.
abbrev announced : Config → ℕ → Option ℕ × Server → Option Ports × Server
announced config grpc_port (none, s) = (none, s)
announced config grpc_port (some health_port, s) =
    started grpc_port health_port (log_startup_policy config) (record s {
      lines =
          s.lines
          ++ line info "ExHook gRPC server listening on port %d  (max_workers=%d)"
              (number grpc_port ∷ setting config "grpc_max_workers" 16 ∷ [])
            ∷ line info "Waiting for EMQX to connect and register ExHook..." []
            ∷ [];
    })

-- `start` from the `try` block.
abbrev start_grpc : Host → Config → Server → Option Ports × Server
start_grpc host config s = elim (host.bind_grpc (setting config "grpc_port" 9000)) [
  | none ↦ (none, record s { lines = s.lines ++ failure config ∷ [] })
  | some grpc_port ↦
      if host.starts_grpc
      then announced config grpc_port (
          start_health_server host (setting config "health_port" 8080)
            (record s { grpc = serving grpc_port }))
      else (none, record s { grpc = bound grpc_port; lines = s.lines ++ failure config ∷ [] })
]

-- start: the handles, or `none` for an exception, and what is up then.
unfoldable pub start : Host → Config → Option Ports × Server
start host config =
    if host.has_protos
    then (if host.accepts_workers (setting config "grpc_max_workers" 16)
        then start_grpc host config down
        else (none, down))
    else (none, down)
