-- ===== src/Server/Threads/Counting.antt =====
-- How often what the workers have still to do increments a counter, and what the log of the reporter
-- says of it.
use floodgate.Common.{
  ℕ, ◌+◌, true, List, [], ◌∷◌, ◌++◌, ◌≡◌, refl, ap, ◌∙◌, arith, if◌then◌else◌, Bool-cases, inl, inr,
  ltb,
}
use floodgate.Value.{get}
use floodgate.Config.{Config}
use floodgate.Stats.{Counter, counter_name, Snapshot, read, sum, inc}
use floodgate.Stats.Conservation.{same, read-bump, read-no_counts}
use floodgate.Service.{Service, LogRecord, start}
use floodgate.Process.{World}
use floodgate.Process.Effects.Messages.{message_acts}
use floodgate.Process.Effects.{
  Act, counts, logs, perform, perform_one, is_stats, all_own, unless_true,
}
use floodgate.ExHook.{Message, on_message_publish}
use floodgate.ExHook.Reporter.{
  cycle_records, number_of, stats_fields, logged-stats_record, read-sum,
}
use floodgate.Server.Threads.{acts_of}

abbrev pub act_count : Counter → Act → ℕ
act_count c (counts d) = if same d c then 1 else 0
act_count c (logs r) = 0

abbrev pub acts_count : Counter → List Act → ℕ
acts_count c [] = 0
acts_count c (act ∷ acts) = act_count c act + acts_count c acts

-- What the workers have still to add to a counter.
abbrev pub pending : Counter → List (List Act) → ℕ
pending c [] = 0
pending c (acts ∷ workers) = acts_count c acts + pending c workers

-- What a message by itself adds to a counter.
abbrev pub gain :
    {Envelope Packet : Type 0} → World Envelope Packet → Config → Counter → Message → ℕ
gain world config c msg = read (on_message_publish world config msg start).1.stats.lifetime c

abbrev pub gains :
    {Envelope Packet : Type 0} → World Envelope Packet → Config → Counter → List Message → ℕ
gains world config c [] = 0
gains world config c (msg ∷ ms) = gain world config c msg + gains world config c ms

-- What the records of the reporter say of a counter, in all.
abbrev pub stats_logged : Counter → List LogRecord → ℕ
stats_logged c [] = 0
stats_logged c (r ∷ rs) =
    (if is_stats r then number_of (get r.extra (counter_name c)) else 0) + stats_logged c rs

pub pending-middle :
    (c : Counter) (before after : List (List Act)) (acts : List Act)
    → pending c (before ++ (acts ∷ after)) ≡ pending c before + acts_count c acts + pending c after
pending-middle c [] after acts = omega arith
pending-middle c (w ∷ before) after acts = omega (arith, pending-middle c before after acts)

pub gains-++ :
    {Envelope Packet : Type 0} (world : World Envelope Packet) (config : Config) (c : Counter)
    (ns ms : List Message)
    → gains world config c (ns ++ ms) ≡ gains world config c ns + gains world config c ms
gains-++ world config c [] ms = omega arith
gains-++ world config c (n ∷ ns) ms = omega (arith, gains-++ world config c ns ms)

pub stats_logged-++ :
    (c : Counter) (rs qs : List LogRecord)
    → stats_logged c (rs ++ qs) ≡ stats_logged c rs + stats_logged c qs
stats_logged-++ c [] qs = omega arith
stats_logged-++ c (r ∷ rs) qs = omega (arith, stats_logged-++ c rs qs)

pub perform_one-lifetime :
    (c : Counter) (act : Act) (s : Service)
    → read (perform_one act s).stats.lifetime c ≡ read s.stats.lifetime c + act_count c act
unfolding inc
perform_one-lifetime c (counts d) s = read-bump d c s.stats.lifetime
perform_one-lifetime c (logs r) s = omega arith

perform-lifetime :
    (c : Counter) (acts : List Act) (s : Service)
    → read (perform acts s).stats.lifetime c ≡ read s.stats.lifetime c + acts_count c acts
unfolding perform
perform-lifetime c [] s = omega arith
perform-lifetime c (act ∷ acts) s =
    omega (arith, perform-lifetime c acts (perform_one act s), perform_one-lifetime c act s)

-- A message's acts add to a counter what the message does by itself.
pub gain-acts_of :
    {Envelope Packet : Type 0} (world : World Envelope Packet) (config : Config) (c : Counter)
    (msg : Message)
    → gain world config c msg ≡ acts_count c (acts_of world config msg)
unfolding on_message_publish
gain-acts_of world config c msg =
    let (result, (acts, (own, runs))) = message_acts world msg.topic msg.payload config in
    ap (λ (p : _ × Service). read p.1.stats.lifetime c) (runs start)
    ∙ omega (arith, perform-lifetime c acts start, read-no_counts c)

-- What one act does to the log of the reporter and to a rolling counter together.
pub perform_one-rolling :
    (c : Counter) (act : Act) (s : Service)
    → all_own (act ∷ []) ≡ true
    → stats_logged c (perform_one act s).records + read (perform_one act s).stats.rolling c
      ≡ stats_logged c s.records + read s.stats.rolling c + act_count c act
unfolding inc
perform_one-rolling c (counts d) s h = omega (arith, read-bump d c s.stats.rolling)
perform_one-rolling c (logs r) s h =
    let silent : (if is_stats r then number_of (get r.extra (counter_name c)) else 0) ≡ 0 =
      rw ((unless_true (is_stats r) true h).0) refl in
    omega (arith, silent, stats_logged-++ c s.records (r ∷ []))

pub stats_logged-cycle_records :
    (c : Counter) (interval_s : ℕ) (snap : Snapshot)
    → snap.total ≡ sum snap.counts
    → stats_logged c (cycle_records interval_s true snap) ≡ read snap.counts c
unfolding cycle_records stats_fields get
stats_logged-cycle_records c interval_s snap e = elim (Bool-cases (ltb 0 snap.total)) [
  | inl f ↦ rw f (omega (arith, logged-stats_record c interval_s snap))
  | inr f ↦ rw f (ground (arith, f, e, read-sum c snap.counts))
]
