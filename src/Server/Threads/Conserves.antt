-- ===== src/Server/Threads/Conserves.antt =====
-- No increment of a message is lost, in whatever order the threads of src/floodgate/exhook_server.py
-- take their steps.
use floodgate.Common.{ℕ, ◌+◌, Bool, true, false, List, [], ◌∷◌, ◌++◌, ◌≡◌, refl, ap, arith, All}
use floodgate.Config.{Config}
use floodgate.Stats.{Counter, read, sum, reset}
use floodgate.Stats.Conservation.{read-no_counts}
use floodgate.Service
use floodgate.Service.{Service}
use floodgate.Process.{World}
use floodgate.Process.Effects.Messages.{message_acts}
use floodgate.Process.Effects.{Act, counts, logs, all_own, is_stats, unless_true}
use floodgate.ExHook.{Message}
use floodgate.ExHook.Reporter.{cycle_records}
use floodgate.Server.{Reporter, waiting, holding, serving}
use floodgate.Server.Threads.{
  System, Step, accept, work, time_out, wake, report, end_reporter, begin_stop, end_grpc,
  end_health, end_socket, terminate, end_serve, interrupt, Reaches, here, next, blocked,
}
use floodgate.Server.Threads.Counting.{
  pending, gains, stats_logged, pending-middle, gains-++, stats_logged-++, perform_one-lifetime,
  gain-acts_of, perform_one-rolling, stats_logged-cycle_records,
}

-- Everything has been started, and nothing has happened yet.
abbrev pub booted : (grpc health : ℕ) → System
booted grpc health = record {
  service = Service.start;
  workers = [];
  grpc = serving grpc;
  health = serving health;
  reporter = waiting;
  stop_event = false;
  control = blocked;
}

-- What the reporter has reset, and not logged yet.
abbrev pub held : Counter → Reporter → ℕ
held c (holding snap) = read snap.counts c
held c _ = 0

HeldSum : Reporter → Type 0
HeldSum (holding snap) = snap.total ≡ sum snap.counts
HeldSum _ = Unit

abbrev Own : List Act → Type 0
Own acts = all_own acts ≡ true

-- No worker has a record of the reporter to log, and a snapshot's total is the sum of its counters.
record IsSound (s : System) : Type 0 where
  own : All Own s.workers
  held_sum : HeldSum s.reporter

Own-head : (act : Act) (acts : List Act) → Own (act ∷ acts) → (all_own (act ∷ []) ≡ true) × Own acts
Own-head (counts c) acts h = (refl, h)
Own-head (logs r) acts h =
    let (e, own) = unless_true (is_stats r) (all_own acts) h in (rw e refl, own)

All-middle :
    (before after : List (List Act)) (acts : List Act)
    → All Own (before ++ (acts ∷ after))
    → Own acts
All-middle [] after acts (h, k) = h
All-middle (w ∷ before) after acts (h, k) = All-middle before after acts k

All-replace :
    (before after : List (List Act)) (acts others : List Act)
    → All Own (before ++ (acts ∷ after))
    → Own others
    → All Own (before ++ (others ∷ after))
All-replace [] after acts others (h, k) own = (own, k)
All-replace (w ∷ before) after acts others (h, k) own =
    (h, All-replace before after acts others k own)

module _ {Envelope Packet : Type 0} (world : World Envelope Packet) (config : Config)
    (interval_s : ℕ) (stats_log : Bool) where
  Step-IsSound :
      {s t : System} {ms : List Message}
      → IsSound s
      → Step world config interval_s stats_log s ms t
      → IsSound t
  unfolding reset HeldSum
  Step-IsSound h (accept msg port e) = record {
    own = ((message_acts world msg.topic msg.payload config).1.1.0, h.own);
    held_sum = h.held_sum;
  }
  Step-IsSound h (work before after act acts e) =
      let own = rw e at h.own in
      record {
        own =
            All-replace before after (act ∷ acts) acts own
              (Own-head act acts (All-middle before after (act ∷ acts) own)).1;
        held_sum = h.held_sum;
      }
  Step-IsSound h (time_out e f) = record { own = h.own; held_sum = tt }
  Step-IsSound h (wake e) = record { own = h.own; held_sum = refl }
  Step-IsSound h (report snap e) = record { own = h.own; held_sum = tt }
  Step-IsSound h (end_reporter e f) = record { own = h.own; held_sum = tt }
  Step-IsSound h (begin_stop e) = record { own = h.own; held_sum = h.held_sum }
  Step-IsSound h (end_grpc e) = record { own = h.own; held_sum = h.held_sum }
  Step-IsSound h (end_health e) = record { own = h.own; held_sum = h.held_sum }
  Step-IsSound h (end_socket e) = record { own = h.own; held_sum = h.held_sum }
  Step-IsSound h (terminate port e) = record { own = h.own; held_sum = h.held_sum }
  Step-IsSound h (end_serve e f) = record { own = h.own; held_sum = h.held_sum }
  Step-IsSound h (interrupt e) = record { own = h.own; held_sum = h.held_sum }

  Step-lifetime :
      (c : Counter) {s t : System} {ms : List Message}
      → Step world config interval_s stats_log s ms t
      → read t.service.stats.lifetime c + pending c t.workers
        ≡ read s.service.stats.lifetime c + pending c s.workers + gains world config c ms
  unfolding reset
  Step-lifetime c (accept msg port e) = omega (arith, gain-acts_of world config c msg)
  Step-lifetime c {s} (work before after act acts e) = omega (
    arith,
    ap (pending c) e,
    pending-middle c before after (act ∷ acts),
    pending-middle c before after acts,
    perform_one-lifetime c act s.service,
  )
  Step-lifetime c (time_out e f) = omega arith
  Step-lifetime c (wake e) = omega arith
  Step-lifetime c (report snap e) = omega arith
  Step-lifetime c (end_reporter e f) = omega arith
  Step-lifetime c (begin_stop e) = omega arith
  Step-lifetime c (end_grpc e) = omega arith
  Step-lifetime c (end_health e) = omega arith
  Step-lifetime c (end_socket e) = omega arith
  Step-lifetime c (terminate port e) = omega arith
  Step-lifetime c (end_serve e f) = omega arith
  Step-lifetime c (interrupt e) = omega arith

-- What was logged of a counter, what is about to be, and what is still to be reset.
abbrev accounted : Counter → System → ℕ
accounted c s =
    stats_logged c s.service.records
    + held c s.reporter
    + read s.service.stats.rolling c
    + pending c s.workers

module _ {Envelope Packet : Type 0} (world : World Envelope Packet) (config : Config)
    (interval_s : ℕ) where
  Step-accounted :
      (c : Counter) {s t : System} {ms : List Message}
      → IsSound s
      → Step world config interval_s true s ms t
      → accounted c t ≡ accounted c s + gains world config c ms
  unfolding reset HeldSum
  Step-accounted c h (accept msg port e) = omega (arith, gain-acts_of world config c msg)
  Step-accounted c {s} h (work before after act acts e) =
      let own = rw e at h.own in
      omega (
        arith,
        ap (pending c) e,
        pending-middle c before after (act ∷ acts),
        pending-middle c before after acts,
        perform_one-rolling c act s.service
            (Own-head act acts (All-middle before after (act ∷ acts) own)).0,
      )
  Step-accounted c h (time_out e f) = omega (arith, ap (held c) e)
  Step-accounted c h (wake e) = omega (arith, ap (held c) e, read-no_counts c)
  Step-accounted c {s} h (report snap e) = omega (
    arith,
    ap (held c) e,
    stats_logged-++ c s.service.records (cycle_records interval_s true snap),
    stats_logged-cycle_records c interval_s snap (rw e at h.held_sum),
  )
  Step-accounted c h (end_reporter e f) = omega (arith, ap (held c) e)
  Step-accounted c h (begin_stop e) = omega arith
  Step-accounted c h (end_grpc e) = omega arith
  Step-accounted c h (end_health e) = omega arith
  Step-accounted c h (end_socket e) = omega arith
  Step-accounted c h (terminate port e) = omega arith
  Step-accounted c h (end_serve e f) = omega arith
  Step-accounted c h (interrupt e) = omega arith

booted-IsSound : (grpc health : ℕ) → IsSound (booted grpc health)
unfolding HeldSum
booted-IsSound grpc health = record { own = tt; held_sum = tt }

module _ {Envelope Packet : Type 0} (world : World Envelope Packet) (config : Config)
    (interval_s grpc health : ℕ) where
  Reaches-IsSound :
      (stats_log : Bool) {s : System} {ms : List Message}
      → Reaches world config interval_s stats_log (booted grpc health) ms s
      → IsSound s
  Reaches-IsSound stats_log here = booted-IsSound grpc health
  Reaches-IsSound stats_log (next r step) =
      Step-IsSound world config interval_s stats_log (Reaches-IsSound stats_log r) step

  -- However the threads interleave since the start, each lifetime counter, with what the workers have
  -- still to add to it, is the sum of what the messages that were taken in add by themselves.
  pub Reaches-lifetime :
      (stats_log : Bool) (c : Counter) {s : System} {ms : List Message}
      → Reaches world config interval_s stats_log (booted grpc health) ms s
      → read s.service.stats.lifetime c + pending c s.workers ≡ gains world config c ms
  Reaches-lifetime stats_log c here = omega (arith, read-no_counts c)
  Reaches-lifetime stats_log c (next {ms} {ns} r step) = omega (
    arith,
    Reaches-lifetime stats_log c r,
    Step-lifetime world config interval_s stats_log c step,
    gains-++ world config c ns ms,
  )

  -- However the threads interleave since the start, with `stats_log` on, what the stats records say
  -- of a counter, what the reporter has reset and not logged yet, what is rolling and what the
  -- workers have still to add make up the sum of what the messages add by themselves.
  pub Reaches-logged :
      (c : Counter) {s : System} {ms : List Message}
      → Reaches world config interval_s true (booted grpc health) ms s
      → stats_logged c s.service.records
          + held c s.reporter
          + read s.service.stats.rolling c
          + pending c s.workers
        ≡ gains world config c ms
  Reaches-logged c here = omega (arith, read-no_counts c)
  Reaches-logged c (next {ms} {ns} r step) = omega (
    arith,
    Reaches-logged c r,
    Step-accounted world config interval_s c (Reaches-IsSound true r) step,
    gains-++ world config c ns ms,
  )
