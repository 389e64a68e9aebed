-- ===== src/Stats.antt =====
-- AntifloodStats of src/floodgate/zerohop.py: the packet counters, rolling and lifetime.
pub mod Conservation
use floodgate.Common.{String, ℕ, ◌+◌, Option, none, some, List, [], ◌∷◌}

-- _COUNTER_NAMES
pub data Counter : Type 0 where
  zerohop passthru noop dropped skipped errors : Counter

abbrev pub counter_name : Counter → String
counter_name zerohop = "zerohop"
counter_name passthru = "passthru"
counter_name noop = "noop"
counter_name dropped = "dropped"
counter_name skipped = "skipped"
counter_name errors = "errors"

-- One number for each counter: the fields of the dataclass, or the values of a dict over the names.
pub record Counts : Type 0 where
  pub zerohop_count : ℕ
  pub passthru_count : ℕ
  pub noop_count : ℕ
  pub dropped_count : ℕ
  pub skipped_count : ℕ
  pub errors_count : ℕ

abbrev pub no_counts : Counts
no_counts = record {
  zerohop_count = 0;
  passthru_count = 0;
  noop_count = 0;
  dropped_count = 0;
  skipped_count = 0;
  errors_count = 0;
}

-- `getattr(self, counter)`.
abbrev pub read : Counts → Counter → ℕ
read n zerohop = n.zerohop_count
read n passthru = n.passthru_count
read n noop = n.noop_count
read n dropped = n.dropped_count
read n skipped = n.skipped_count
read n errors = n.errors_count

-- `setattr(self, counter, getattr(self, counter) + 1)`.
abbrev pub bump : Counter → Counts → Counts
bump zerohop n = record n { zerohop_count = n.zerohop_count + 1 }
bump passthru n = record n { passthru_count = n.passthru_count + 1 }
bump noop n = record n { noop_count = n.noop_count + 1 }
bump dropped n = record n { dropped_count = n.dropped_count + 1 }
bump skipped n = record n { skipped_count = n.skipped_count + 1 }
bump errors n = record n { errors_count = n.errors_count + 1 }

abbrev pub sum : Counts → ℕ
sum n =
    n.zerohop_count + n.passthru_count + n.noop_count + n.dropped_count + n.skipped_count
    + n.errors_count

pub record Stats : Type 0 where
  pub rolling : Counts
  pub lifetime : Counts

abbrev pub init : Stats
init = record { rolling = no_counts; lifetime = no_counts }

-- What `snapshot` and `reset` return.
pub record Snapshot : Type 0 where
  pub counts : Counts
  pub total : ℕ

unfoldable pub inc : Counter → Stats → Stats
inc counter s = record { rolling = bump counter s.rolling; lifetime = bump counter s.lifetime }

unfoldable pub total : Stats → ℕ
total s = sum s.rolling

unfoldable pub snapshot : Stats → Snapshot
snapshot s = record { counts = s.lifetime; total = sum s.lifetime }

unfoldable pub reset : Stats → Snapshot × Stats
reset s = (
  record { counts = s.rolling; total = sum s.rolling },
  record { rolling = no_counts; lifetime = s.lifetime },
)

-- A call by one of the threads. Each runs under the lock, so what the threads do together is a
-- sequence of calls.
pub data Call : Type 0 where
  call_inc : Counter → Call
  call_snapshot : Call
  call_reset : Call

-- The calls in turn, with the snapshots that the resets return.
unfoldable pub run : List Call → Stats → List Snapshot × Stats
unfolding inc reset
run [] s = ([], s)
run (call_inc c ∷ calls) s = run calls (inc c s)
run (call_snapshot ∷ calls) s = run calls s
run (call_reset ∷ calls) s =
    let (snap, s') = reset s in let (snaps, t) = run calls s' in (snap ∷ snaps, t)
