-- ===== src/Health/Body.antt =====
-- What a health check tells of the counters.
use mathlib.Core.Option.{some_inj}
use floodgate.Common.{
  ℕ, ◌+◌, String, Option, none, some, ◌≡◌, ◌≢◌, refl, ◌∙◌, arith, ◌==◌, eq_iff, Bool-cases, inl,
  inr, ap, List, [], ◌∷◌, length, sym,
}
use floodgate.Bytes.{Bytes}
use floodgate.Value.{Value, int, str, obj, Fields, get}
use floodgate.Value.Int.{pos}
use floodgate.Value.Distinct.{IsDistinct}
use floodgate.Value.Json.{JsonCodec}
use floodgate.Stats
use floodgate.Stats.Conservation.{incs, lifetime-run, read-no_counts}
use floodgate.Stats.{Counter, counter_name, read, init, run, Call, snapshot, Stats}
use floodgate.Health.{
  content_type, content_length, Response, snapshot_fields, health_body, sent, do_get,
}

health_body-IsDistinct : (stats : Stats) → IsDistinct (health_body stats)
unfolding IsDistinct get
health_body-IsDistinct stats = (
  refl,
  tt,
  (
    refl,
    (refl, tt, (refl, tt, (refl, tt, (refl, tt, (refl, tt, (refl, tt, (refl, tt, tt))))))),
    tt,
  ),
)

snapshot_fields-read :
    (c : Counter) (stats : Stats)
    → get (snapshot_fields (snapshot stats)) (counter_name c)
      ≡ some (int (pos (read stats.lifetime c)))
unfolding get snapshot
snapshot_fields-read Stats.zerohop stats = refl
snapshot_fields-read Stats.passthru stats = refl
snapshot_fields-read Stats.noop stats = refl
snapshot_fields-read Stats.dropped stats = refl
snapshot_fields-read Stats.skipped stats = refl
snapshot_fields-read Stats.errors stats = refl

-- The answer with a body.
abbrev pub healthy : Bytes → Response
healthy body = record {
  status = 200;
  headers = content_type "application/json" ∷ content_length (length body) ∷ [];
  body = some body;
}

sent-healthy :
    (o : Option Bytes) (r : Response)
    → sent o ≡ some r
    → (body : Bytes) × ((o ≡ some body) × (r ≡ healthy body))
sent-healthy none r h = absurd (ground (arith, h))
sent-healthy (some body) r h = (body, (refl, sym (some_inj.0 h)))

not_found_ne :
    (r : Response)
    → some (record { status = 404; headers = []; body = none }) ≡ some r
    → r.status ≢ 200
not_found_ne r h e = absurd (ground (arith, ap (λ (r : Response). r.status) (some_inj.0 h), e))

pub do_get-healthy :
    (json : JsonCodec) (path : String) (stats : Stats) (r : Response)
    → do_get json path stats ≡ some r
    → r.status ≡ 200
    → (path ≡ "/health")
      × ((body : Bytes) × ((json.dumps (health_body stats) ≡ some body) × (r ≡ healthy body)))
unfolding do_get
do_get-healthy json path stats r h ok = elim (Bool-cases (path == "/health")) [
  | inl e ↦
      ((eq_iff path "/health").0 e, sent-healthy (json.dumps (health_body stats)) r (rw e at h))
  | inr e ↦ absurd (not_found_ne r (rw e at h) ok)
]

-- What a body tells, read from what it loads to: the status, a number for each counter, and
-- their sum.
pub record Tells (loaded : Option Value) (counts : Counter → ℕ) : Type 0 where
  pub fields : Fields
  pub counters : Fields
  pub is_object : loaded ≡ some (obj fields)
  pub status : get fields "status" ≡ some (str "ok")
  pub stats : get fields "stats" ≡ some (obj counters)
  pub total :
      get counters "total"
      ≡ some (
          int (
            pos (
              counts Stats.zerohop
              + counts Stats.passthru
              + counts Stats.noop
              + counts Stats.dropped
              + counts Stats.skipped
              + counts Stats.errors)))
  pub told : (c : Counter) → get counters (counter_name c) ≡ some (int (pos (counts c)))

pub body-Tells :
    (json : JsonCodec) (stats : Stats) (body : Bytes)
    → json.dumps (health_body stats) ≡ some body
    → Tells (json.loads body) (read stats.lifetime)
unfolding get snapshot
body-Tells json stats body d = record {
  fields = _;
  counters = snapshot_fields (snapshot stats);
  is_object = json.loads-dumps (health_body stats) body (health_body-IsDistinct stats) d;
  status = refl;
  stats = refl;
  total = refl;
  told = λ c. snapshot_fields-read c stats;
}

counted : (calls : List Call) (c : Counter) → read (run calls init).1.lifetime c ≡ incs c calls
counted calls c = omega (arith, lifetime-run c calls init, read-no_counts c)

-- A GET that is answered 200 was for /health. The answer says that its body is JSON, and how long it
-- is; the body loads to an object with the status `ok` and with the counters and their total, and
-- after any calls since the start each counter in it is the number of its increments.
pub do_get-counts :
    (json : JsonCodec) (path : String) (calls : List Call) (r : Response)
    → do_get json path (run calls init).1 ≡ some r
    → r.status ≡ 200
    → (path ≡ "/health")
      × ((body : Bytes) × ((r ≡ healthy body) × Tells (json.loads body) (λ c. incs c calls)))
do_get-counts json path calls r h ok =
    let stats = (run calls init).1 in
    let (p, (body, (d, e))) = do_get-healthy json path stats r h ok in
    let t = body-Tells json stats body d in
    (
      p,
      (
        body,
        (
          e,
          record {
            fields = t.fields;
            counters = t.counters;
            is_object = t.is_object;
            status = t.status;
            stats = t.stats;
            total =
                t.total
                ∙ ap (λ n. some (int (pos n)))
                    (omega (
                      arith,
                      counted calls Stats.zerohop,
                      counted calls Stats.passthru,
                      counted calls Stats.noop,
                      counted calls Stats.dropped,
                      counted calls Stats.skipped,
                      counted calls Stats.errors,
                    ));
            told = λ c.
                t.told c
                ∙ ap (λ n. some (int (pos n)))
                    (omega (arith, lifetime-run c calls init, read-no_counts c));
          },
        ),
      ),
    )
