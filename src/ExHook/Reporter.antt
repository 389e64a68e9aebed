-- ===== src/ExHook/Reporter.antt =====
-- _stats_reporter of src/floodgate/exhook_server.py, among the calls of other threads.
use floodgate.Common.{
  ℕ, Bool, true, List, [], ◌∷◌, ◌++◌, ◌+◌, ◌≡◌, Option, some, arith, ltb, Bool-cases, inl, inr, ◌≤◌,
  if◌then◌else◌, refl,
}
use floodgate.Value.{Value, int, str, Fields, end, field, get}
use floodgate.Value.Int.{pos}
use floodgate.Stats
use floodgate.Stats.{
  counter_name, Counter, Stats, Snapshot, Call, call_inc, call_snapshot, call_reset, read, inc,
  reset, sum, Counts,
}
use floodgate.Service.{Service, LogRecord, info, start}
use floodgate.Stats.Conservation.{incs, read-bump, read-no_counts}

abbrev number : ℕ → Value
number n = int (pos n)

unfoldable pub stats_fields : ℕ → Snapshot → Fields
stats_fields interval_s snap = field "event" (str "stats") (
    field "interval_s" (number interval_s) (
      field "zerohop" (number snap.counts.zerohop_count) (
        field "passthru" (number snap.counts.passthru_count) (
          field "noop" (number snap.counts.noop_count) (
            field "dropped" (number snap.counts.dropped_count) (
              field "skipped" (number snap.counts.skipped_count) (
                field "errors" (number snap.counts.errors_count)
                  (field "total" (number snap.total) end))))))))

abbrev pub stats_record : ℕ → Snapshot → LogRecord
stats_record interval_s snap = record {
  level = info;
  message = "stats";
  extra = stats_fields interval_s snap;
}

-- The records that one cycle adds. The debug line of an empty interval is left out.
unfoldable pub cycle_records : ℕ → Bool → Snapshot → List LogRecord
cycle_records interval_s stats_log snap =
    if stats_log then (if ltb 0 snap.total then stats_record interval_s snap ∷ [] else []) else []

-- The counters' calls in turn, where each reset is a cycle of the reporter. The stop event ends the
-- sequence.
unfoldable pub stats_reporter : ℕ → Bool → List Call → Service → Service
unfolding cycle_records
stats_reporter interval_s stats_log [] s = s
stats_reporter interval_s stats_log (call_inc c ∷ calls) s =
    stats_reporter interval_s stats_log calls (record s { stats = inc c s.stats })
stats_reporter interval_s stats_log (call_snapshot ∷ calls) s =
    stats_reporter interval_s stats_log calls s
stats_reporter interval_s stats_log (call_reset ∷ calls) s =
    let (snap, stats') = reset s.stats in
    stats_reporter interval_s stats_log calls
      (record { stats = stats'; records = s.records ++ cycle_records interval_s stats_log snap })

abbrev pub number_of : Option Value → ℕ
number_of (some (int (pos n))) = n
number_of _ = 0

-- What the records say of a counter, in all.
unfoldable pub logged : Counter → List LogRecord → ℕ
logged c [] = 0
logged c (r ∷ rs) = number_of (get r.extra (counter_name c)) + logged c rs

logged-++ : (c : Counter) (rs qs : List LogRecord) → logged c (rs ++ qs) ≡ logged c rs + logged c qs
unfolding logged
logged-++ c [] qs = omega arith
logged-++ c (r ∷ rs) qs = omega (arith, logged-++ c rs qs)

pub logged-stats_record :
    (c : Counter) (interval_s : ℕ) (snap : Snapshot)
    → number_of (get (stats_fields interval_s snap) (counter_name c)) ≡ read snap.counts c
unfolding stats_fields get
logged-stats_record Stats.zerohop interval_s snap = refl
logged-stats_record Stats.passthru interval_s snap = refl
logged-stats_record Stats.noop interval_s snap = refl
logged-stats_record Stats.dropped interval_s snap = refl
logged-stats_record Stats.skipped interval_s snap = refl
logged-stats_record Stats.errors interval_s snap = refl

pub read-sum : (c : Counter) (n : Counts) → read n c ≤ sum n
read-sum Stats.zerohop n = omega arith
read-sum Stats.passthru n = omega arith
read-sum Stats.noop n = omega arith
read-sum Stats.dropped n = omega arith
read-sum Stats.skipped n = omega arith
read-sum Stats.errors n = omega arith

logged-cycle_records :
    (c : Counter) (interval_s : ℕ) (n : Counts)
    → logged c (cycle_records interval_s true (record { counts = n; total = sum n })) ≡ read n c
unfolding logged cycle_records
logged-cycle_records c interval_s n = elim (Bool-cases (ltb 0 (sum n))) [
  | inl e ↦
      rw e (omega (arith, logged-stats_record c interval_s (record { counts = n; total = sum n })))
  | inr e ↦ rw e (ground (arith, e, read-sum c n))
]

logged-stats_reporter :
    (c : Counter) (interval_s : ℕ) (calls : List Call) (s : Service)
    → logged c (stats_reporter interval_s true calls s).records
        + read (stats_reporter interval_s true calls s).stats.rolling c
      ≡ logged c s.records + read s.stats.rolling c + incs c calls
unfolding stats_reporter inc reset
logged-stats_reporter c interval_s [] s = omega arith
logged-stats_reporter c interval_s (call_inc d ∷ calls) s = omega (
  arith,
  logged-stats_reporter c interval_s calls (record s { stats = inc d s.stats }),
  read-bump d c s.stats.rolling,
)
logged-stats_reporter c interval_s (call_snapshot ∷ calls) s =
    logged-stats_reporter c interval_s calls s
logged-stats_reporter c interval_s (call_reset ∷ calls) s =
    let (snap, stats') = reset s.stats in
    let rs = cycle_records interval_s true snap in
    omega (
      arith,
      logged-stats_reporter c interval_s calls
          (record { stats = stats'; records = s.records ++ rs }),
      logged-++ c s.records rs,
      logged-cycle_records c interval_s s.stats.rolling,
      read-no_counts c,
    )

-- With `stats_log` on, the periodic log misses no message: whatever the calls since the start, what
-- the stats records say of a counter, in all, and what is still rolling make up its increments.
stats_reporter-logs :
    (c : Counter) (interval_s : ℕ) (calls : List Call)
    → logged c (stats_reporter interval_s true calls start).records
        + read (stats_reporter interval_s true calls start).stats.rolling c
      ≡ incs c calls
unfolding logged
stats_reporter-logs c interval_s calls =
    omega (arith, logged-stats_reporter c interval_s calls start, read-no_counts c)
