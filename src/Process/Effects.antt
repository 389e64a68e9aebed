-- ===== src/Process/Effects.antt =====
-- Methods that do the same to the state that the threads share whatever the state is: a sequence of
-- increments and log records.
pub mod Messages
use floodgate.Common.{
  String, Bool, true, false, Option, none, some, List, [], ◌∷◌, ◌++◌, length, ◌≡◌, refl, ◌==◌,
  arith, if◌then◌else◌,
}
use floodgate.Bytes.{Bytes}
use floodgate.Value.{Value, str, int, Fields, field, end, get}
use floodgate.Value.Int.{ℤ, pos}
use floodgate.Stats
use floodgate.Stats.{Counter, inc}
use floodgate.Config.{Config}
use floodgate.Config.Policy.{should_zerohop}
use floodgate.Topic.{parse_meshtastic_topic}
use floodgate.Zerohop.{ZerohopResult, peek_meta}
use floodgate.Service.{
  Service, LogRecord, Level, Exec, pure, lift, count, log, error, info, warning, ◌>>=◌, ◌>>◌,
}
use floodgate.Process.Describe.{entry, description, drop_description}
use floodgate.Process
use floodgate.Process.{
  ProcessResult, World, drop_check, drop_packet, pass_packet, keep_packet, modify_packet,
  is_zero_hop, hop_value, finish, zerohop_stage, process_packet, process_parsed,
  process_message_inner, process_message, recover, zerohop_of, unhandled,
}

pub data Act : Type 0 where
  counts : Counter → Act
  logs : LogRecord → Act

abbrev pub perform_one : Act → Service → Service
perform_one (counts c) s = record s { stats = inc c s.stats }
perform_one (logs r) s = record s { records = s.records ++ r ∷ [] }

unfoldable pub perform : List Act → Service → Service
perform [] s = s
perform (a ∷ acts) s = perform acts (perform_one a s)

perform-++ : (xs ys : List Act) (s : Service) → perform (xs ++ ys) s ≡ perform ys (perform xs s)
unfolding perform
perform-++ [] ys s = refl
perform-++ (a ∷ xs) ys s = perform-++ xs ys (perform_one a s)

abbrev is_stats_event : Option Value → Bool
is_stats_event (some (str event)) = event == "stats"
is_stats_event _ = false

-- A record of the stats reporter.
abbrev pub is_stats : LogRecord → Bool
is_stats r = is_stats_event (get r.extra "event")

-- No act logs a record of the stats reporter.
abbrev pub all_own : List Act → Bool
all_own [] = true
all_own (counts c ∷ acts) = all_own acts
all_own (logs r ∷ acts) = if is_stats r then false else all_own acts

pub unless_true : (b c : Bool) → (if b then false else c) ≡ true → (b ≡ false) × (c ≡ true)
unless_true true c h = absurd (ground (arith, h))
unless_true false c h = (refl, h)

all_own-++ : (xs ys : List Act) → all_own xs ≡ true → all_own ys ≡ true → all_own (xs ++ ys) ≡ true
all_own-++ [] ys h k = k
all_own-++ (counts c ∷ xs) ys h k = all_own-++ xs ys h k
all_own-++ (logs r ∷ xs) ys h k =
    let (e, own) = unless_true (is_stats r) (all_own xs) h in rw e (all_own-++ xs ys own k)

-- A method that always does the same acts, with the same result.
pub record Effect {A : Type 0} (m : Exec A) : Type 0 where
  pub result : Option A
  pub acts : List Act
  pub runs : (s : Service) → m s ≡ (result, perform acts s)
  pub owns : all_own acts ≡ true

pub pure-Effect : {A : Type 0} (a : A) → Effect (pure a)
unfolding perform
pure-Effect a = record { result = some a; acts = []; runs = λ s. refl; owns = refl }

pub lift-Effect : {A : Type 0} (o : Option A) → Effect (lift o)
unfolding perform
lift-Effect o = record { result = o; acts = []; runs = λ s. refl; owns = refl }

pub count-Effect : (c : Counter) → Effect (count c)
unfolding perform
count-Effect c = record { result = some tt; acts = counts c ∷ []; runs = λ s. refl; owns = refl }

pub log-Effect :
    (level : Level) (message outcome topic channel encoding : String) (rest : Fields)
    → Effect (log level message (entry outcome topic channel encoding rest))
unfolding perform get
log-Effect level message outcome topic channel encoding rest = record {
  result = some tt;
  acts =
      logs (record {
        level = level;
        message = message;
        extra = entry outcome topic channel encoding rest;
      })
      ∷ [];
  runs = λ s. refl;
  owns = refl;
}

bind_at :
    {A B : Type 0} (m : Exec A) (f : A → Exec B) (o : Option A) (acts : List Act)
    → ((s : Service) → m s ≡ (o, perform acts s))
    → all_own acts ≡ true
    → ((a : A) → Effect (f a))
    → Effect (m >>= f)
bind_at m f none acts runs owns k = record {
  result = none;
  acts = acts;
  runs = λ s. rw (runs s) refl;
  owns = owns;
}
bind_at m f (some a) acts runs owns k = record {
  result = (k a).result;
  acts = acts ++ (k a).acts;
  runs = λ s. rw (runs s, perform-++ acts (k a).acts s) ((k a).runs (perform acts s));
  owns = all_own-++ acts (k a).acts owns (k a).owns;
}

pub bind-Effect :
    {A B : Type 0} {m : Exec A} {f : A → Exec B}
    → Effect m
    → ((a : A) → Effect (f a))
    → Effect (m >>= f)
bind-Effect {m} {f} e k = bind_at m f e.result e.acts e.runs e.owns k

pub if-Effect :
    {A : Type 0} (b : Bool) {m n : Exec A} → Effect m → Effect n → Effect (if b then m else n)
if-Effect true e f = e
if-Effect false e f = f

-- A count, then a message record of the outcome, unless describing the message raises.
pub entry-Effect :
    (c : Counter) (rest : Option Fields) (outcome topic channel encoding : String)
    (result : ProcessResult)
    → Effect (do
      count c
      described ← lift rest
      log info outcome (entry outcome topic channel encoding described)
      pure result)
entry-Effect c rest outcome topic channel encoding result = bind-Effect (count-Effect c) λ _.
    bind-Effect (lift-Effect rest) λ described.
      bind-Effect (log-Effect info outcome outcome topic channel encoding described)
        λ _. pure-Effect result

pub recover_at :
    (m : Exec ProcessResult) (o : Option ProcessResult) (acts : List Act)
    → ((s : Service) → m s ≡ (o, perform acts s))
    → all_own acts ≡ true
    → (result : ProcessResult) × ((all : List Act) × ((all_own all ≡ true)
          × ((s : Service) → recover (m s) ≡ (result, perform all s))))
unfolding get perform
recover_at m (some r) acts runs owns = (r, (acts, (owns, λ s. rw (runs s) refl)))
recover_at m none acts runs owns = (
  Process.passthru,
  (
    acts
        ++ counts Stats.errors
          ∷ logs (record { level = error; message = unhandled; extra = end })
          ∷ [],
    (
      all_own-++ acts _ owns refl,
      λ s.
          rw
            (
              runs s,
              perform-++ acts
                  (counts Stats.errors
                    ∷ logs (record { level = error; message = unhandled; extra = end })
                    ∷ [])
                  s,
            )
            refl,
    ),
  ),
)
