-- ===== src/Server/Threads.antt =====
-- The threads of a started floodgate, of src/floodgate/exhook_server.py: the gRPC workers in
-- OnMessagePublish, the reporter of _stats_reporter, and the thread that is in `serve` or in
-- RunningServer.stop. A step is one statement of one thread that reads or writes what they share.
pub mod Counting
pub mod Conserves
pub mod Shutdown
pub mod Lifecycle
pub mod Totals
use mathlib.Core.List
use floodgate.Common.{ℕ, Bool, true, false, List, [], ◌∷◌, ◌++◌, ◌≡◌, ◌≢◌}
use floodgate.Config.{Config}
use floodgate.Stats.{Snapshot, reset}
use floodgate.Service
use floodgate.Service.{Service}
use floodgate.Process.{World}
use floodgate.Process.Effects.Messages.{message_acts}
use floodgate.Process.Effects.{Act, perform_one}
use floodgate.ExHook.{Message}
use floodgate.ExHook.Reporter.{cycle_records}
use floodgate.Server.{
  Server, Listener, bound, serving, closed, Reporter, waiting, due, ended, holding,
}

-- Where the thread is that started the server: blocked until gRPC terminates, after each statement
-- of `stop`, or at the end of `serve`.
pub data Control : Type 0 where
  blocked stop_set grpc_stopped health_shut stopped served : Control

-- The shared state, what each worker has still to do, and where the other two threads are.
pub record System : Type 0 where
  pub service : Service
  pub workers : List (List Act)
  pub grpc : Listener
  pub health : Listener
  pub reporter : Reporter
  pub stop_event : Bool
  pub control : Control

-- The threads of what `start` has brought up; nothing has happened yet.
abbrev pub launched : Server → System
launched s = record {
  service = Service.start;
  workers = [];
  grpc = s.grpc;
  health = s.health;
  reporter = s.reporter;
  stop_event = false;
  control = blocked;
}

-- `shutdown` ends the loop that serves, and leaves the socket open for `server_close`.
unfoldable pub shut : Listener → Listener
shut (serving port) = bound port
shut l = l

-- The statements of RunningServer.stop.
abbrev pub set_stop_event : System → System
set_stop_event s = record s { stop_event = true; control = stop_set }

abbrev pub stop_grpc : System → System
stop_grpc s = record s { grpc = closed; control = grpc_stopped }

abbrev pub shutdown_health : System → System
shutdown_health s = record s { health = shut s.health; control = health_shut }

abbrev pub close_health : System → System
close_health s = record s { health = closed; control = stopped }

-- gRPC terminates by itself.
abbrev pub grpc_terminates : System → System
grpc_terminates s = record s { grpc = closed }

-- The `finally` of `serve`, where the wait returned since gRPC has terminated, and where it raised.
abbrev pub serve_ends : System → System
serve_ends s = record s { stop_event = true; control = served }

-- The reporter's wait times out with the event unset; then it resets the rolling counters, whatever
-- has become of the event; and then it logs what they were.
abbrev pub reporter_due : System → System
reporter_due s = record s { reporter = due }

abbrev pub reporter_wakes : System → System
reporter_wakes s =
    let (snap, stats') = reset s.service.stats in
    record s { service = record (s.service) { stats = stats' }; reporter = holding snap }

abbrev pub reporter_logs : ℕ → Bool → Snapshot → System → System
reporter_logs interval_s stats_log snap s = record s {
  service = record (s.service) {
    records = s.service.records ++ cycle_records interval_s stats_log snap;
  };
  reporter = waiting;
}

abbrev pub reporter_ends : System → System
reporter_ends s = record s { reporter = ended }

-- The increments and records of OnMessagePublish in their order, by the theorem that it makes these
-- whatever the state.
abbrev pub acts_of :
    {Envelope Packet : Type 0} → World Envelope Packet → Config → Message → List Act
acts_of world config msg = (message_acts world msg.topic msg.payload config).1.0

module _ {Envelope Packet : Type 0} (world : World Envelope Packet) (config : Config)
    (interval_s : ℕ) (stats_log : Bool) where
  -- A step of one thread, with the messages that it takes in.
  pub data Step (s : System) : List Message → System → Type 0 where
    accept :
        (msg : Message) (port : ℕ)
        → s.grpc ≡ serving port
        → Step s (msg ∷ []) (record s { workers = acts_of world config msg ∷ s.workers })
    work :
        (before after : List (List Act)) (act : Act) (acts : List Act)
        → s.workers ≡ before ++ ((act ∷ acts) ∷ after)
        → Step s []
            (record s { service = perform_one act s.service; workers = before ++ (acts ∷ after) })
    time_out : s.reporter ≡ waiting → s.stop_event ≡ false → Step s [] (reporter_due s)
    wake : s.reporter ≡ due → Step s [] (reporter_wakes s)
    report :
        (snap : Snapshot)
        → s.reporter ≡ holding snap
        → Step s [] (reporter_logs interval_s stats_log snap s)
    end_reporter : s.reporter ≡ waiting → s.stop_event ≡ true → Step s [] (reporter_ends s)
    begin_stop : s.control ≡ blocked → Step s [] (set_stop_event s)
    end_grpc : s.control ≡ stop_set → Step s [] (stop_grpc s)
    end_health : s.control ≡ grpc_stopped → Step s [] (shutdown_health s)
    end_socket : s.control ≡ health_shut → Step s [] (close_health s)
    terminate : (port : ℕ) → s.grpc ≡ serving port → Step s [] (grpc_terminates s)
    end_serve : s.control ≡ blocked → s.grpc ≡ closed → Step s [] (serve_ends s)
    interrupt : s.control ≡ blocked → Step s [] (serve_ends s)

  -- Steps in turn, with the messages that they take in, the last first.
  pub data Reaches (s : System) : List Message → System → Type 0 where
    here : Reaches s [] s
    next :
        {ms ns : List Message} {t u : System}
        → Reaches s ms t
        → Step t ns u
        → Reaches s (ns ++ ms) u
