-- ===== src/Server/Threads/Shutdown.antt =====
-- What follows once RunningServer.stop of src/floodgate/exhook_server.py has set the stop event and
-- stopped gRPC: every order of the threads' steps comes to an end.
use floodgate.Common.{
  ℕ, zero, suc, ◌+◌, ◌≤◌, ◌<◌, Bool, true, List, [], ◌∷◌, ◌++◌, ◌≡◌, ◌⊎◌, refl, ap, arith, inl, inr,
  length,
}
use floodgate.Config.{Config}
use floodgate.Stats.{reset}
use floodgate.Process.{World}
use floodgate.Process.Effects.{Act}
use floodgate.ExHook.{Message}
use floodgate.Server.{Reporter, not_started, waiting, due, ended, holding, closed}
use floodgate.Server.Threads.{
  System, Step, accept, work, time_out, wake, report, end_reporter, begin_stop, end_grpc,
  end_health, end_socket, terminate, end_serve, interrupt, Reaches, here, next, Control, blocked,
  stop_set, grpc_stopped, health_shut, stopped, served,
}

-- gRPC takes no more messages, and the stop event is set.
pub record IsDraining (s : System) : Type 0 where
  pub no_messages : s.grpc ≡ closed
  pub is_set : s.stop_event ≡ true

abbrev pub backlog : List (List Act) → ℕ
backlog [] = 0
backlog (acts ∷ workers) = length acts + backlog workers

abbrev pub reporter_left : Reporter → ℕ
reporter_left due = 3
reporter_left (holding snap) = 2
reporter_left waiting = 1
reporter_left _ = 0

abbrev pub control_left : Control → ℕ
control_left blocked = 4
control_left stop_set = 3
control_left grpc_stopped = 2
control_left health_shut = 1
control_left _ = 0

-- How many steps the threads have left at most.
abbrev pub steps_left : System → ℕ
steps_left s = backlog s.workers + reporter_left s.reporter + control_left s.control

backlog-middle :
    (before after : List (List Act)) (acts : List Act)
    → backlog (before ++ (acts ∷ after)) ≡ backlog before + length acts + backlog after
backlog-middle [] after acts = omega arith
backlog-middle (w ∷ before) after acts = omega (arith, backlog-middle before after acts)

data Busy (workers : List (List Act)) : Type 0 where
  busy :
      (before after : List (List Act)) (act : Act) (acts : List Act)
      → workers ≡ before ++ ((act ∷ acts) ∷ after)
      → Busy workers

later : (acts : List Act) {workers : List (List Act)} → Busy workers → Busy (acts ∷ workers)
later acts (busy before after act rest e) =
    busy (acts ∷ before) after act rest (ap (λ ws. acts ∷ ws) e)

-- The workers have nothing left to do, or one of them has.
backlog-cases : (workers : List (List Act)) → (backlog workers ≡ 0) ⊎ Busy workers
backlog-cases [] = inl refl
backlog-cases ((act ∷ acts) ∷ workers) = inr (busy [] workers act acts refl)
backlog-cases ([] ∷ workers) = elim (backlog-cases workers) [
  | inl e ↦ inl (omega (arith, e))
  | inr b ↦ inr (later [] b)
]

module _ {Envelope Packet : Type 0} (world : World Envelope Packet) (config : Config)
    (interval_s : ℕ) (stats_log : Bool) where
  abbrev pub steps :
      {s t : System} {ms : List Message} → Reaches world config interval_s stats_log s ms t → ℕ
  steps here = 0
  steps (next r step) = suc (steps r)

  Step-drains :
      {s t : System} {ms : List Message}
      → IsDraining s
      → Step world config interval_s stats_log s ms t
      → (steps_left t < steps_left s) × (IsDraining t × (ms ≡ []))
  unfolding reset
  Step-drains d (accept msg port e) = absurd (ground (arith, e, d.no_messages))
  Step-drains d (work before after act acts e) = (
    omega (
      arith,
      ap backlog e,
      backlog-middle before after (act ∷ acts),
      backlog-middle before after acts,
    ),
    (record { no_messages = d.no_messages; is_set = d.is_set }, refl),
  )
  Step-drains d (time_out e f) = absurd (ground (arith, f, d.is_set))
  Step-drains d (wake e) = (
    omega (arith, ap reporter_left e),
    (record { no_messages = d.no_messages; is_set = d.is_set }, refl),
  )
  Step-drains d (report snap e) = (
    omega (arith, ap reporter_left e),
    (record { no_messages = d.no_messages; is_set = d.is_set }, refl),
  )
  Step-drains d (end_reporter e f) = (
    omega (arith, ap reporter_left e),
    (record { no_messages = d.no_messages; is_set = d.is_set }, refl),
  )
  Step-drains d (begin_stop e) = (
    omega (arith, ap control_left e),
    (record { no_messages = d.no_messages; is_set = refl }, refl),
  )
  Step-drains d (end_grpc e) =
      (omega (arith, ap control_left e), (record { no_messages = refl; is_set = d.is_set }, refl))
  Step-drains d (end_health e) = (
    omega (arith, ap control_left e),
    (record { no_messages = d.no_messages; is_set = d.is_set }, refl),
  )
  Step-drains d (end_socket e) = (
    omega (arith, ap control_left e),
    (record { no_messages = d.no_messages; is_set = d.is_set }, refl),
  )
  Step-drains d (terminate port e) = absurd (ground (arith, e, d.no_messages))
  Step-drains d (end_serve e f) = (
    omega (arith, ap control_left e),
    (record { no_messages = d.no_messages; is_set = refl }, refl),
  )
  Step-drains d (interrupt e) = (
    omega (arith, ap control_left e),
    (record { no_messages = d.no_messages; is_set = refl }, refl),
  )

  reporter_step :
      (s : System) (r : Reporter)
      → IsDraining s
      → s.reporter ≡ r
      → (reporter_left r ≡ 0) ⊎ ((t : System) × Step world config interval_s stats_log s [] t)
  reporter_step s not_started d e = inl refl
  reporter_step s due d e = inr (_, wake e)
  reporter_step s waiting d e = inr (_, end_reporter e d.is_set)
  reporter_step s ended d e = inl refl
  reporter_step s (holding snap) d e = inr (_, report snap e)

  control_step :
      (s : System) (c : Control)
      → s.control ≡ c
      → (control_left c ≡ 0) ⊎ ((t : System) × Step world config interval_s stats_log s [] t)
  control_step s blocked e = inr (_, begin_stop e)
  control_step s stop_set e = inr (_, end_grpc e)
  control_step s grpc_stopped e = inr (_, end_health e)
  control_step s health_shut e = inr (_, end_socket e)
  control_step s stopped e = inl refl
  control_step s served e = inl refl

  -- Some thread can take a step, unless none has any left.
  can_step :
      (s : System)
      → IsDraining s
      → (steps_left s ≡ 0) ⊎ ((t : System) × Step world config interval_s stats_log s [] t)
  can_step s d = elim (backlog-cases s.workers) [
    | inr (busy before after act acts e) ↦ inr (_, work before after act acts e)
    | inl e ↦ elim (reporter_step s s.reporter d refl) [
      | inr step ↦ inr step
      | inl f ↦ elim (control_step s s.control refl) [
        | inr step ↦ inr step
        | inl g ↦ inl (omega (arith, e, f, g))
      ]
    ]
  ]

  -- From where gRPC is stopped and the stop event is set, no run of the threads takes in a message,
  -- or is longer than the steps that are left, in whatever order they are taken: what the workers
  -- have still to do, at most the reset, the log line and the end of the reporter, and the rest of
  -- `stop`.
  pub Reaches-ends :
      {s t : System} {ms : List Message}
      → IsDraining s
      → (r : Reaches world config interval_s stats_log s ms t)
      → (steps r + steps_left t ≤ steps_left s) × (IsDraining t × (ms ≡ []))
  Reaches-ends d here = (omega arith, (d, refl))
  Reaches-ends d (next {ms} {ns} r step) =
      let (bound, (e, none_before)) = Reaches-ends d r in
      let (less, (f, none_now)) = Step-drains e step in
      (omega (arith, bound, less), (f, rw (none_before, none_now) refl))

  pub run_down :
      (fuel : ℕ) {o s : System} {ms : List Message}
      → steps_left s ≤ fuel
      → IsDraining s
      → Reaches world config interval_s stats_log o ms s
      → (t : System) × (Reaches world config interval_s stats_log o ms t × (steps_left t ≡ 0))
  run_down zero {s} h d r = (s, (r, omega (arith, h)))
  run_down (suc fuel) {s} h d r = elim (can_step s d) [
    | inl e ↦ (s, (r, e))
    | inr (t, step) ↦
        let (less, (f, e)) = Step-drains d step in
        run_down fuel (omega (arith, h, less)) f (next r step)
  ]
