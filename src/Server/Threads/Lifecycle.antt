-- ===== src/Server/Threads/Lifecycle.antt =====
-- From the start to the end of floodgate's threads in src/floodgate/exhook_server.py.
use floodgate.Common.{ℕ, ◌+◌, Bool, true, false, List, [], ◌∷◌, ◌≡◌, ◌≢◌, refl, ap, arith, length}
use floodgate.Config.{Config}
use floodgate.Stats.{Counter, read, reset}
use floodgate.Process.{World}
use floodgate.Process.Effects.{Act}
use floodgate.ExHook.{Message}
use floodgate.Server.{
  Reporter, not_started, waiting, due, ended, holding, Listener, absent, bound, serving, closed,
}
use floodgate.Server.Threads.{
  System, shut, Step, accept, work, time_out, wake, report, end_reporter, begin_stop, end_grpc,
  end_health, end_socket, terminate, end_serve, interrupt, Reaches, here, next, Control, blocked,
  stop_set, grpc_stopped, health_shut, stopped, served,
}
use floodgate.Server.Threads.Counting.{acts_count, pending, gains, stats_logged}
use floodgate.Server.Threads.Conserves.{booted, held, Reaches-lifetime, Reaches-logged}
use floodgate.Server.Threads.Shutdown.{backlog, steps_left, reporter_left, run_down}

-- What holds where the starting thread is at a point of `serve` and `stop`.
abbrev Holds : Control → (grpc health : Listener) → (stop_event : Bool) → Type 0
Holds blocked grpc health stop_event = stop_event ≡ false
Holds stop_set grpc health stop_event = stop_event ≡ true
Holds grpc_stopped grpc health stop_event = (stop_event ≡ true) × (grpc ≡ closed)
Holds health_shut grpc health stop_event =
    (stop_event ≡ true) × ((grpc ≡ closed) × ((port : ℕ) → health ≢ serving port))
Holds stopped grpc health stop_event = (stop_event ≡ true) × ((grpc ≡ closed) × (health ≡ closed))
Holds served grpc health stop_event = stop_event ≡ true

closed_Holds :
    (c : Control) (grpc health : Listener) (b : Bool)
    → Holds c grpc health b
    → Holds c closed health b
closed_Holds blocked grpc health b h = h
closed_Holds stop_set grpc health b h = h
closed_Holds grpc_stopped grpc health b (h, e) = (h, refl)
closed_Holds health_shut grpc health b (h, (e, k)) = (h, (refl, k))
closed_Holds stopped grpc health b (h, (e, k)) = (h, (refl, k))
closed_Holds served grpc health b h = h

-- The reporter was started, and has ended only where the stop event is set.
abbrev Reports : Reporter → (stop_event : Bool) → Type 0
Reports not_started stop_event = ⊥
Reports ended stop_event = stop_event ≡ true
Reports _ stop_event = Unit

record IsOrderly (s : System) : Type 0 where
  control_holds : Holds s.control s.grpc s.health s.stop_event
  reports : Reports s.reporter s.stop_event

set_Reports : (r : Reporter) (b : Bool) → Reports r b → Reports r true
set_Reports not_started b h = absurd h
set_Reports waiting b h = tt
set_Reports ended b h = refl
set_Reports due b h = tt
set_Reports (holding snap) b h = tt

not_serving : (l : Listener) (port : ℕ) → shut l ≢ serving port
unfolding shut
not_serving absent port e = ground (arith, e)
not_serving (bound p) port e = ground (arith, e)
not_serving (serving p) port e = ground (arith, e)
not_serving closed port e = ground (arith, e)

reporter_rests : (r : Reporter) (b : Bool) → Reports r b → reporter_left r ≡ 0 → r ≡ ended
reporter_rests not_started b h e = absurd h
reporter_rests ended b h e = refl
reporter_rests due b h e = absurd (ground (arith, e))
reporter_rests waiting b h e = absurd (ground (arith, e))
reporter_rests (holding snap) b h e = absurd (ground (arith, e))

pub acts_count-none : (c : Counter) (acts : List Act) → length acts ≡ 0 → acts_count c acts ≡ 0
acts_count-none c [] e = refl
acts_count-none c (act ∷ acts) e = absurd (omega (arith, e))

pub pending-backlog :
    (c : Counter) (workers : List (List Act)) → backlog workers ≡ 0 → pending c workers ≡ 0
pending-backlog c [] e = refl
pending-backlog c (acts ∷ workers) e =
    omega (
      arith,
      acts_count-none c acts (omega (arith, e)),
      pending-backlog c workers (omega (arith, e)),
    )

module _ {Envelope Packet : Type 0} (world : World Envelope Packet) (config : Config)
    (interval_s : ℕ) where
  Step-IsOrderly :
      (stats_log : Bool) {s t : System} {ms : List Message}
      → IsOrderly s
      → Step world config interval_s stats_log s ms t
      → IsOrderly t
  unfolding reset
  Step-IsOrderly b h (accept msg port e) = record {
    control_holds = h.control_holds;
    reports = h.reports;
  }
  Step-IsOrderly b h (work before after act acts e) = record {
    control_holds = h.control_holds;
    reports = h.reports;
  }
  Step-IsOrderly b h (time_out e f) = record { control_holds = h.control_holds; reports = tt }
  Step-IsOrderly b h (wake e) = record { control_holds = h.control_holds; reports = tt }
  Step-IsOrderly b h (report snap e) = record { control_holds = h.control_holds; reports = tt }
  Step-IsOrderly b h (end_reporter e f) = record { control_holds = h.control_holds; reports = f }
  Step-IsOrderly b {s} h (begin_stop e) = record {
    control_holds = refl;
    reports = set_Reports s.reporter s.stop_event h.reports;
  }
  Step-IsOrderly b h (end_grpc e) = record {
    control_holds = (rw e at h.control_holds, refl);
    reports = h.reports;
  }
  Step-IsOrderly b {s} h (end_health e) =
      let (set, stop) = rw e at h.control_holds in
      record { control_holds = (set, (stop, not_serving s.health)); reports = h.reports }
  Step-IsOrderly b h (end_socket e) =
      let (set, (stop, off)) = rw e at h.control_holds in
      record { control_holds = (set, (stop, refl)); reports = h.reports }
  Step-IsOrderly b {s} h (terminate port e) = record {
    control_holds = closed_Holds s.control s.grpc s.health s.stop_event h.control_holds;
    reports = h.reports;
  }
  Step-IsOrderly b {s} h (end_serve e f) = record {
    control_holds = refl;
    reports = set_Reports s.reporter s.stop_event h.reports;
  }
  Step-IsOrderly b {s} h (interrupt e) = record {
    control_holds = refl;
    reports = set_Reports s.reporter s.stop_event h.reports;
  }

  module _ (grpc health : ℕ) where
    Reaches-IsOrderly :
        (stats_log : Bool) {s : System} {ms : List Message}
        → Reaches world config interval_s stats_log (booted grpc health) ms s
        → IsOrderly s
    Reaches-IsOrderly b here = record { control_holds = refl; reports = tt }
    Reaches-IsOrderly b (next r step) = Step-IsOrderly b (Reaches-IsOrderly b r) step

    at_rest :
        (c : Counter) {t : System} {ms : List Message}
        → Reaches world config interval_s true (booted grpc health) ms t
        → steps_left t ≡ 0
        → (backlog t.workers ≡ 0)
          × ((t.reporter ≡ ended)
              × ((read t.service.stats.lifetime c ≡ gains world config c ms)
                  × (stats_logged c t.service.records + read t.service.stats.rolling c
                      ≡ gains world config c ms)))
    at_rest c {t} {ms} r done =
        let idle = pending-backlog c t.workers (omega (arith, done)) in
        let over =
          reporter_rests t.reporter t.stop_event (Reaches-IsOrderly true r).reports
            (omega (arith, done)) in
        let lifetime = Reaches-lifetime world config interval_s grpc health true c r in
        let logged = Reaches-logged world config interval_s grpc health c r in
        (
          omega (arith, done),
          (over, (omega (arith, idle, lifetime), omega (arith, idle, ap (held c) over, logged))),
        )

    -- Once `stop` has stopped gRPC, the threads can go on to where the workers have done all that the
    -- messages asked for and the reporter has ended; then each lifetime counter is the sum of what the messages add, and with `stats_log` on the stats records and the
    -- rolling counter make up the same sum.
    pub stop-finishes :
        (c : Counter) {s : System} {ms : List Message}
        → Reaches world config interval_s true (booted grpc health) ms s
        → s.control ≡ grpc_stopped
        → (t : System) × (Reaches world config interval_s true (booted grpc health) ms t
            × ((backlog t.workers ≡ 0)
                × ((t.reporter ≡ ended)
                    × ((read t.service.stats.lifetime c ≡ gains world config c ms)
                        × (stats_logged c t.service.records + read t.service.stats.rolling c
                            ≡ gains world config c ms)))))
    stop-finishes c {s} {ms} r e =
        let orderly = Reaches-IsOrderly true r in
        let (set, stop) = rw e at orderly.control_holds in
        let (t, (q, done)) =
          run_down world config interval_s true (steps_left s) (omega arith)
            (record { no_messages = stop; is_set = set }) r in
        (t, (q, at_rest c q done))
