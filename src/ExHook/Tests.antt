-- ===== src/ExHook/Tests.antt =====
-- Calls of the hook provider of src/floodgate/exhook_server.py.
use floodgate.Common.{String, some, [], ◌∷◌, ◌≡◌, ◌≢◌}
use floodgate.Value.{str}
use floodgate.Config.{item}
use floodgate.Config.Samples.{machine, path, loaded, loads}
use floodgate.Samples.{world}
use floodgate.Service.{start}
use floodgate.ExHook.{Message, ValuedResponse, on_message_publish, on_provider_loaded}
use floodgate.ExHook.Answers.{Answers, on_message_publish-Answers, on_provider_loaded-hooks}
use floodgate.ExHook.Startup.Truth.{Announced, log_startup_policy-tells}

abbrev publish : Message
publish = record {
  node = "emqx@127.0.0.1";
  id = "0006";
  qos = 0;
  from = "gateway";
  topic = "msh/US/2/json/LongFast/!abcd1234";
  payload = 5 ∷ [];
  timestamp = 1700000000;
  headers = ("protocol", "mqtt") ∷ [];
}

on_message_publish-Answers_example :
    (r : ValuedResponse) × ((on_message_publish world loaded publish start).0 ≡ some r)
    × Answers world loaded publish r
on_message_publish-Answers_example = on_message_publish-Answers world loaded publish start

on_provider_loaded-hooks_example :
    (topic_filter : String) × (topic_filter ≢ "")
    × (item loads.values "topic_filter" ≡ str topic_filter)
    × (on_provider_loaded loaded
        ≡ some (record { name = "message.publish"; topics = topic_filter ∷ [] } ∷ []))
on_provider_loaded-hooks_example = on_provider_loaded-hooks machine path loaded loads

log_startup_policy-tells_example : Announced loaded
log_startup_policy-tells_example = log_startup_policy-tells machine path loaded loads
