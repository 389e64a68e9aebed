-- ===== src/Health/Tests.antt =====
-- A health check of src/floodgate/health.py, by a JSON module that knows the shape of its body.
use mathlib.Core.Path.{subst}
use mathlib.Core.Option.{some_inj}
use mathlib.Core.Option
use floodgate.Common.Text.{contains}
use floodgate.Common.{
  ℕ, ◌+◌, true, String, Option, none, some, false, sym, ap, ◌∙◌, Bool-cases, Option-cases, inl, inr,
  List, [], ◌∷◌, ◌≡◌, refl, arith, ◌==◌, eq_iff, ◌&&◌, if◌then◌else◌,
}
use floodgate.Bytes.{Bytes}
use floodgate.Value.{Value, int, str, obj, Fields, field, end, get}
use floodgate.Value.Int.{pos}
use floodgate.Value.Distinct.{IsDistinct, HasDistinctKeys}
use floodgate.Value.Json.{JsonCodec}
use floodgate.Stats.{
  Counter, Call, call_inc, call_reset, zerohop, dropped, init, inc, reset, run, snapshot,
}
use floodgate.Stats.Conservation.{incs}
use floodgate.Health.{do_get}
use floodgate.ExHook.{Message}
use floodgate.Samples.{world}
use floodgate.Config.Samples.{loaded}
use floodgate.Server.Threads.{System, Reaches, accept, here, next, acts_of}
use floodgate.Server.Threads.Counting.{gains, pending}
use floodgate.Server.Threads.Conserves.{booted}
use floodgate.Health.Messages.{do_get-messages}
use floodgate.Health.Body.{healthy, Tells, do_get-counts}

abbrev names : List String
names = "zerohop" ∷ "passthru" ∷ "noop" ∷ "dropped" ∷ "skipped" ∷ "errors" ∷ "total" ∷ []

-- The dict of some names and numbers, and the numbers of a dict of those names.
unfoldable dict_of : List String → Bytes → Fields
dict_of (k ∷ ks) (n ∷ bytes) = field k (int (pos n)) (dict_of ks bytes)
dict_of _ _ = end

unfoldable numbers_of : List String → Fields → Option Bytes
numbers_of [] end = some []
numbers_of (k ∷ ks) (field j (int (pos n)) d) =
    let rest = numbers_of ks d in if j == k then Option.map (λ bytes. n ∷ bytes) rest else none
numbers_of _ _ = none

dict_of-numbers_of :
    (ks : List String) (d : Fields) (bytes : Bytes)
    → numbers_of ks d ≡ some bytes
    → dict_of ks bytes ≡ d
unfolding dict_of numbers_of
dict_of-numbers_of [] end bytes h = refl
dict_of-numbers_of (k ∷ ks) (field j (int (pos n)) d) bytes h = elim (Bool-cases (j == k)) [
  | inr e ↦ absurd (ground (arith, h, e))
  | inl e ↦ elim (Option-cases (numbers_of ks d)) [
    | inl f ↦ absurd (ground (arith, h, e, f))
    | inr (rest, f) ↦
        let same : n ∷ rest ≡ bytes = some_inj.0 (rw (e, f) at h) in
        let tail : dict_of ks rest ≡ d = dict_of-numbers_of ks d rest f in
        let key : j ≡ k = (eq_iff j k).0 e in ap (dict_of (k ∷ ks)) (sym same) ∙ cc
  ]
]
dict_of-numbers_of _ _ bytes h = absurd (ground (arith, h))

get-dict_of :
    (ks : List String) (bytes : Bytes) (j : String)
    → contains ks j ≡ false
    → get (dict_of ks bytes) j ≡ none
unfolding dict_of get contains
get-dict_of [] bytes j h = refl
get-dict_of (k ∷ ks) [] j h = refl
get-dict_of (k ∷ ks) (n ∷ bytes) j h =
    ground (arith, h, eq_iff k j, eq_iff j k, get-dict_of ks bytes j)

AreDifferent : List String → Type 0
AreDifferent [] = Unit
AreDifferent (k ∷ ks) = (contains ks k ≡ false) × AreDifferent ks

dict_of-HasDistinctKeys :
    (ks : List String) (bytes : Bytes) → AreDifferent ks → HasDistinctKeys (dict_of ks bytes)
unfolding dict_of AreDifferent IsDistinct
dict_of-HasDistinctKeys [] bytes h = tt
dict_of-HasDistinctKeys (k ∷ ks) [] h = tt
dict_of-HasDistinctKeys (k ∷ ks) (n ∷ bytes) (h, hs) =
    (get-dict_of ks bytes k h, tt, dict_of-HasDistinctKeys ks bytes hs)

abbrev body_of : Fields → Value
body_of d = obj (field "status" (str "ok") (field "stats" (obj d) end))

abbrev loads : Bytes → Option Value
loads bytes = some (body_of (dict_of names bytes))

abbrev dumps : Value → Option Bytes
dumps (obj (field k (str s) (field j (obj d) end))) =
    if k == "status" && s == "ok" && j == "stats" then numbers_of names d else none
dumps _ = none

loads-dumps : (v : Value) (b : Bytes) → IsDistinct v → dumps v ≡ some b → loads b ≡ some v
loads-dumps (obj (field k (str s) (field j (obj d) end))) b n h =
    ground
      (arith, h, eq_iff k "status", eq_iff s "ok", eq_iff j "stats", dict_of-numbers_of names d b)
loads-dumps _ b n h = cc

names_differ : AreDifferent names
unfolding AreDifferent contains
names_differ = (refl, (refl, (refl, (refl, (refl, (refl, (refl, tt)))))))

loads-IsDistinct : (b : Bytes) (v : Value) → loads b ≡ some v → IsDistinct v
unfolding IsDistinct get
loads-IsDistinct b v h =
    subst IsDistinct (some_inj.0 h)
      (refl, tt, (refl, dict_of-HasDistinctKeys names b names_differ, tt))

abbrev json : JsonCodec
json = record {
  loads = loads;
  dumps = dumps;
  loads-IsDistinct = loads-IsDistinct;
  loads-dumps = loads-dumps;
}

abbrev calls : List Call
calls = call_inc zerohop ∷ call_reset ∷ call_inc zerohop ∷ call_inc dropped ∷ []

abbrev bytes : Bytes
bytes = 2 ∷ 0 ∷ 0 ∷ 1 ∷ 0 ∷ 0 ∷ 3 ∷ []

answered : do_get json "/health" (run calls init).1 ≡ some (healthy bytes)
unfolding do_get run inc reset snapshot numbers_of
answered = refl

do_get-counts_example :
    ◌≡◌ {A = String} "/health" "/health"
    × ((body : Bytes) × ((healthy bytes ≡ healthy body)
          × Tells (json.loads body) (λ c. incs c calls)))
do_get-counts_example = do_get-counts json "/health" calls (healthy bytes) answered refl

abbrev publish : Message
publish = record {
  node = "emqx@127.0.0.1";
  id = "0006";
  qos = 0;
  from = "gateway";
  topic = "msh/US/2/json/LongFast/!abcd1234";
  payload = 5 ∷ [];
  timestamp = 1700000000;
  headers = [];
}

-- A message has been taken in, and its worker has not counted it yet.
abbrev taken_in : System
taken_in = record (booted 9000 8080) { workers = acts_of world loaded publish ∷ [] }

abbrev taken_in_run : Reaches world loaded 60 true (booted 9000 8080) (publish ∷ []) taken_in
taken_in_run = next here (accept publish 9000 refl)

abbrev none_counted : Bytes
none_counted = 0 ∷ 0 ∷ 0 ∷ 0 ∷ 0 ∷ 0 ∷ 0 ∷ []

answered_early : do_get json "/health" taken_in.service.stats ≡ some (healthy none_counted)
unfolding do_get snapshot numbers_of
answered_early = refl

do_get-messages_example :
    (body : Bytes) × (counts : Counter → ℕ) × (healthy none_counted ≡ healthy body)
    × Tells (json.loads body) counts
    × ((c : Counter) → counts c + pending c taken_in.workers ≡ gains world loaded c (publish ∷ []))
do_get-messages_example =
    do_get-messages json world loaded 60 9000 8080 true "/health" (healthy none_counted)
      taken_in_run answered_early refl
