-- ===== src/Server/Start.antt =====
-- Where `start` of src/floodgate/exhook_server.py returns, and what it leaves where it raises.
use floodgate.Common.{
  ℕ, true, false, Option, none, some, ◌≡◌, refl, inl, inr, Bool-cases, Option-cases, arith,
}
use floodgate.Config.{Config}
use floodgate.ExHook.Startup.{log_startup_policy, Said}
use floodgate.Server.Threads.{launched}
use floodgate.Server.Threads.Conserves.{booted}
use floodgate.Server.{
  absent, serving, not_started, waiting, Host, Server, down, Ports, setting, start_health_server,
  started, start_grpc, start,
}

-- One of the five answers that `start` needs is a refusal.
pub data Refuses (host : Host) (config : Config) : Type 0 where
  without_protos : host.has_protos ≡ false → Refuses host config
  without_workers :
      host.accepts_workers (setting config "grpc_max_workers" 16) ≡ false → Refuses host config
  without_port : host.bind_grpc (setting config "grpc_port" 9000) ≡ none → Refuses host config
  without_grpc : host.starts_grpc ≡ false → Refuses host config
  without_health : host.bind_http (setting config "health_port" 8080) ≡ none → Refuses host config

-- Everything is up, on the ports that were bound, and the threads begin there; or something was
-- refused, and neither the health server nor the reporter was started, and the gRPC server serves
-- only where the health port was refused.
pub data Brought (host : Host) (config : Config) : Option Ports × Server → Type 0 where
  all_up :
      (ports : Ports) (s : Server)
      → host.bind_grpc (setting config "grpc_port" 9000) ≡ some ports.grpc_port
      → host.bind_http (setting config "health_port" 8080) ≡ some ports.health_port
      → s.grpc ≡ serving ports.grpc_port
      → s.health ≡ serving ports.health_port
      → s.reporter ≡ waiting
      → launched s ≡ booted ports.grpc_port ports.health_port
      → Brought host config (some ports, s)
  gave_up :
      (s : Server)
      → Refuses host config
      → s.health ≡ absent
      → s.reporter ≡ not_started
      → ((port : ℕ)
          → s.grpc ≡ serving port
          → host.bind_http (setting config "health_port" 8080) ≡ none)
      → Brought host config (none, s)

started-Brought :
    (host : Host) (config : Config) (g h : ℕ) (said : Said) (s : Server)
    → said.0 ≡ true
    → host.bind_grpc (setting config "grpc_port" 9000) ≡ some g
    → host.bind_http (setting config "health_port" 8080) ≡ some h
    → s.grpc ≡ serving g
    → s.health ≡ serving h
    → Brought host config (started g h said s)
started-Brought host config g h (true, lines) s e p q u v =
    all_up (record { grpc_port = g; health_port = h }) _ p q u v refl (rw (u, v) refl)
started-Brought host config g h (false, lines) s e p q u v = absurd (ground (arith, e))

module _ (host : Host) (config : Config) (says : (log_startup_policy config).0 ≡ true) where
  start_grpc-Brought : Brought host config (start_grpc host config down)
  unfolding start_health_server
  start_grpc-Brought = elim (Option-cases (host.bind_grpc (setting config "grpc_port" 9000))) [
    | inl e ↦
        simp (start_grpc, e)
          (gave_up _ (without_port e) refl refl (λ port h. absurd (ground (arith, h))))
    | inr (g, e) ↦ elim (Bool-cases host.starts_grpc) [
      | inl f ↦ elim (Option-cases (host.bind_http (setting config "health_port" 8080))) [
        | inl h ↦
            simp (start_grpc, start_health_server, e, f, h)
              (gave_up _ (without_health h) refl refl (λ port x. h))
        | inr (p, h) ↦
            simp (start_grpc, start_health_server, e, f, h)
              (started-Brought host config g p (log_startup_policy config) _ says e h refl refl)
      ]
      | inr f ↦
          simp (start_grpc, e, f)
            (gave_up _ (without_grpc f) refl refl (λ port h. absurd (ground (arith, h))))
    ]
  ]

  pub start-Brought : Brought host config (start host config)
  unfolding start
  start-Brought = elim (Bool-cases host.has_protos) [
    | inl e ↦ elim (Bool-cases (host.accepts_workers (setting config "grpc_max_workers" 16))) [
      | inl f ↦ simp (e, f) start_grpc-Brought
      | inr f ↦
          simp (e, f)
            (gave_up down (without_workers f) refl refl (λ port h. absurd (ground (arith, h))))
    ]
    | inr e ↦
        simp e (gave_up down (without_protos e) refl refl (λ port h. absurd (ground (arith, h))))
  ]
