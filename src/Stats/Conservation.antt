-- ===== src/Stats/Conservation.antt =====
-- No increment is lost: what the counters show after any sequence of calls.
use floodgate.Common.{ℕ, ◌+◌, Bool, true, false, List, [], ◌∷◌, ◌≡◌, refl, arith, if◌then◌else◌}
use floodgate.Stats.{
  Counter, zerohop, passthru, noop, dropped, skipped, errors, Counts, read, bump, no_counts, Stats,
  Snapshot, init, inc, reset, Call, call_inc, call_snapshot, call_reset, run,
}

abbrev pub same : Counter → Counter → Bool
same zerohop zerohop = true
same passthru passthru = true
same noop noop = true
same dropped dropped = true
same skipped skipped = true
same errors errors = true
same _ _ = false

-- How often a sequence of calls increments a counter.
abbrev pub incs : Counter → List Call → ℕ
incs c [] = 0
incs c (call_inc d ∷ calls) = (if same d c then 1 else 0) + incs c calls
incs c (_ ∷ calls) = incs c calls

-- What the reported snapshots say of a counter, all together.
abbrev pub reported : Counter → List Snapshot → ℕ
reported c [] = 0
reported c (snap ∷ snaps) = read snap.counts c + reported c snaps

pub read-bump :
    (d c : Counter) (n : Counts) → read (bump d n) c ≡ read n c + (if same d c then 1 else 0)
read-bump zerohop c n = ground arith
read-bump passthru c n = ground arith
read-bump noop c n = ground arith
read-bump dropped c n = ground arith
read-bump skipped c n = ground arith
read-bump errors c n = ground arith

pub read-no_counts : (c : Counter) → read no_counts c ≡ 0
read-no_counts zerohop = refl
read-no_counts _ = refl

pub lifetime-run :
    (c : Counter) (calls : List Call) (s : Stats)
    → read (run calls s).1.lifetime c ≡ read s.lifetime c + incs c calls
unfolding run
lifetime-run c [] s = omega arith
lifetime-run c (call_inc d ∷ calls) s =
    omega (arith, lifetime-run c calls (inc d s), read-bump d c s.lifetime)
lifetime-run c (call_snapshot ∷ calls) s = lifetime-run c calls s
lifetime-run c (call_reset ∷ calls) s = lifetime-run c calls (reset s).1

reported-run :
    (c : Counter) (calls : List Call) (s : Stats)
    → reported c (run calls s).0 + read (run calls s).1.rolling c ≡ read s.rolling c + incs c calls
unfolding run
reported-run c [] s = omega arith
reported-run c (call_inc d ∷ calls) s =
    omega (arith, reported-run c calls (inc d s), read-bump d c s.rolling)
reported-run c (call_snapshot ∷ calls) s = reported-run c calls s
reported-run c (call_reset ∷ calls) s =
    omega (arith, reported-run c calls (reset s).1, read-no_counts c)

-- Whatever the calls since the start, and in whatever order: each lifetime counter is the number of
-- its increments, and so is the sum of the reset snapshots and the rolling counter.
run_conserves :
    (c : Counter) (calls : List Call)
    → (read (run calls init).1.lifetime c ≡ incs c calls)
      × (reported c (run calls init).0 + read (run calls init).1.rolling c ≡ incs c calls)
run_conserves c calls = (
  omega (arith, lifetime-run c calls init, read-no_counts c),
  omega (arith, reported-run c calls init, read-no_counts c),
)

-- The calls of two threads, in an order that keeps each thread's own.
pub data Interleaves : List Call → List Call → List Call → Type 0 where
  done : Interleaves [] [] []
  left : {xs ys zs : List Call} (x : Call) → Interleaves xs ys zs → Interleaves (x ∷ xs) ys (x ∷ zs)
  right :
      {xs ys zs : List Call} (y : Call) → Interleaves xs ys zs → Interleaves xs (y ∷ ys) (y ∷ zs)

incs-cons :
    (c : Counter) (x : Call) (xs : List Call) → incs c (x ∷ xs) ≡ incs c (x ∷ []) + incs c xs
incs-cons c (call_inc d) xs = omega arith
incs-cons c call_snapshot xs = omega arith
incs-cons c call_reset xs = omega arith

incs-Interleaves :
    (c : Counter) {xs ys zs : List Call} → Interleaves xs ys zs → incs c zs ≡ incs c xs + incs c ys
incs-Interleaves c done = omega arith
incs-Interleaves c (left {xs} {ys} {zs} x m) =
    omega (arith, incs-Interleaves c m, incs-cons c x xs, incs-cons c x zs)
incs-Interleaves c (right {xs} {ys} {zs} y m) =
    omega (arith, incs-Interleaves c m, incs-cons c y ys, incs-cons c y zs)

-- However two threads' calls interleave, each lifetime counter ends at the sum of what the two
-- threads increment it.
run_interleaved :
    (c : Counter) {xs ys zs : List Call}
    → Interleaves xs ys zs
    → read (run zs init).1.lifetime c ≡ incs c xs + incs c ys
run_interleaved c {zs} m =
    omega (arith, incs-Interleaves c m, lifetime-run c zs init, read-no_counts c)
