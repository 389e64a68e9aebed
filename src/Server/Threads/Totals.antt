-- ===== src/Server/Threads/Totals.antt =====
-- How many messages the counters of src/floodgate/zerohop.py stand for.
use floodgate.Common.{Bool, ℕ, ◌+◌, ◌*◌, ◌≤◌, List, [], ◌∷◌, ◌≡◌, refl, ap, ◌∙◌, arith, length}
use floodgate.Config.{Config}
use floodgate.Stats
use floodgate.Stats.{Counter, Counts, Stats, sum, read, inc, bump, snapshot, errors}
use floodgate.Service
use floodgate.Service.{Service}
use floodgate.Process.{World}
use floodgate.Process.Accounts.{counted, failed_early, failed_late, process_message_accounts}
use floodgate.ExHook.{Message, on_message_publish}
use floodgate.Server.Threads.{System, Reaches}
use floodgate.Server.Threads.Counting.{gains}
use floodgate.Server.Threads.Conserves.{booted, Reaches-lifetime}
use floodgate.Server.Threads.Shutdown.{backlog}
use floodgate.Server.Threads.Lifecycle.{pending-backlog}

sum-bump : (c : Counter) (n : Counts) → sum (bump c n) ≡ sum n + 1
sum-bump Stats.zerohop n = omega arith
sum-bump Stats.passthru n = omega arith
sum-bump Stats.noop n = omega arith
sum-bump Stats.dropped n = omega arith
sum-bump Stats.skipped n = omega arith
sum-bump Stats.errors n = omega arith

sum-inc : (c : Counter) (s t : Stats) → t ≡ inc c s → sum t.lifetime ≡ sum s.lifetime + 1
unfolding inc
sum-inc c s t e = ap (λ (x : Stats). sum x.lifetime) e ∙ sum-bump c s.lifetime

module _ {Envelope Packet : Type 0} (world : World Envelope Packet) (config : Config) where
  -- What a message adds to all counters together.
  abbrev added : Message → ℕ
  added msg = sum (on_message_publish world config msg Service.start).1.stats.lifetime

  added-bounds : (msg : Message) → (1 ≤ added msg) × (added msg ≤ 2)
  unfolding on_message_publish inc
  added-bounds msg =
      elim (process_message_accounts world msg.topic msg.payload config Service.start) [
        | counted c e a ↦
            (omega (arith, sum-inc c Stats.init _ e), omega (arith, sum-inc c Stats.init _ e))
        | failed_early r e ↦ (
          omega (arith, sum-inc errors Stats.init _ e),
          omega (arith, sum-inc errors Stats.init _ e),
        )
        | failed_late c r e ↦
            let twice = sum-inc errors (inc c Stats.init) _ e in
            let once = sum-inc c Stats.init (inc c Stats.init) refl in
            (omega (arith, twice, once), omega (arith, twice, once))
      ]

  -- What messages add to all counters together, counter by counter.
  abbrev all_gains : List Message → ℕ
  all_gains ms =
      gains world config Stats.zerohop ms
      + gains world config Stats.passthru ms
      + gains world config Stats.noop ms
      + gains world config Stats.dropped ms
      + gains world config Stats.skipped ms
      + gains world config Stats.errors ms

  all_gains-bounds :
      (ms : List Message) → (length ms ≤ all_gains ms) × (all_gains ms ≤ 2 * length ms)
  all_gains-bounds [] = (omega arith, omega arith)
  all_gains-bounds (m ∷ ms) =
      let (low, high) = all_gains-bounds ms in
      let (one, two) = added-bounds m in (omega (arith, low, one), omega (arith, high, two))

  told :
      (interval_s grpc health : ℕ) (stats_log : Bool) (c : Counter) {s : System} {ms : List Message}
      → Reaches world config interval_s stats_log (booted grpc health) ms s
      → backlog s.workers ≡ 0
      → read s.service.stats.lifetime c ≡ gains world config c ms
  told interval_s grpc health stats_log c {s} r idle = omega (
    arith,
    Reaches-lifetime world config interval_s grpc health stats_log c r,
    pending-backlog c s.workers idle,
  )

  -- Once the workers have done what they took in, the total that the health check tells is between
  -- the number of messages that were taken in since the start and twice that: no message is missed,
  -- and none is counted more than twice.
  pub Reaches-total :
      (interval_s grpc health : ℕ) (stats_log : Bool) {s : System} {ms : List Message}
      → Reaches world config interval_s stats_log (booted grpc health) ms s
      → backlog s.workers ≡ 0
      → (length ms ≤ (snapshot s.service.stats).total)
        × ((snapshot s.service.stats).total ≤ 2 * length ms)
  unfolding snapshot
  Reaches-total interval_s grpc health stats_log {s} {ms} r idle =
      let (low, high) = all_gains-bounds ms in
      let all : sum s.service.stats.lifetime ≡ all_gains ms = omega (
        arith,
        told interval_s grpc health stats_log Stats.zerohop r idle,
        told interval_s grpc health stats_log Stats.passthru r idle,
        told interval_s grpc health stats_log Stats.noop r idle,
        told interval_s grpc health stats_log Stats.dropped r idle,
        told interval_s grpc health stats_log Stats.skipped r idle,
        told interval_s grpc health stats_log Stats.errors r idle,
      ) in
      (omega (arith, all, low), omega (arith, all, high))
