-- ===== src/Broker/Tests.antt =====
-- A broker that does what src/floodgate/exhook_server.py relies on, and packets on its way.
use floodgate.Common.{
  String, Option, none, some, [], ◌∷◌, ◌≡◌, ◌≢◌, refl, ap, inl, inr, ◌==◌, eq_iff, if◌then◌else◌,
  Bool-cases,
}
use floodgate.Samples.{message}
use floodgate.Portnum.{lookup}
use floodgate.ExHook
use floodgate.ExHook.{Message, ValuedResponse, ResponseValue, stop_and_return, ResponsedType}
use floodgate.Broker.{Broker}
use floodgate.Broker.ZeroHop.Protobuf
use floodgate.Broker.ZeroHop.Json

abbrev allowed : Option String → Message → Option Message
allowed none answer = some answer
allowed (some v) answer = if v == "false" then none else some answer

abbrev answer_of : Message → ResponseValue → Option Message
answer_of msg (ExHook.message answer) = allowed (lookup answer.headers "allow_publish") answer
answer_of msg _ = some msg

abbrev deliver : Message → ValuedResponse → Option Message
deliver msg r = elim r.type [ ExHook.stop_and_return ↦ answer_of msg r.value | _ ↦ some msg ]

allowed_denied : (o : Option String) (answer : Message) → o ≡ some "false" → allowed o answer ≡ none
allowed_denied o answer e = rw e refl

allowed_replaced :
    (o : Option String) (answer : Message) → o ≢ some "false" → allowed o answer ≡ some answer
allowed_replaced none answer n = refl
allowed_replaced (some v) answer n = elim (Bool-cases (v == "false")) [
  | inl e ↦ absurd (n (ap some ((eq_iff v "false").0 e)))
  | inr e ↦ rw e refl
]

abbrev broker : Broker
broker = record {
  deliver = deliver;
  failed = λ msg. some msg;
  ignored = λ msg a. refl;
  unmodified = λ msg a. refl;
  denied = λ msg answer e. allowed_denied (lookup answer.headers "allow_publish") answer e;
  replaced = λ msg answer n. allowed_replaced (lookup answer.headers "allow_publish") answer n;
}

abbrev publish : String → Message
publish topic = record {
  node = "emqx@127.0.0.1";
  id = "0006";
  qos = 0;
  from = "gateway";
  topic = topic;
  payload = 5 ∷ [];
  timestamp = 1700000000;
  headers = ("protocol", "mqtt") ∷ [];
}

abbrev protobuf_topic : String
protobuf_topic = "msh/US/2/e/LongFast/!abcd1234"

abbrev json_topic : String
json_topic = "msh/US/2/json/LongFast/!abcd1234"
