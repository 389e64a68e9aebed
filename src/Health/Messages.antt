-- ===== src/Health/Messages.antt =====
-- What a health check tells of the messages that the workers have taken in.
use floodgate.Common.{String, ℕ, ◌+◌, Bool, List, some, ◌≡◌}
use floodgate.Bytes.{Bytes}
use floodgate.Value.Json.{JsonCodec}
use floodgate.Config.{Config}
use floodgate.Stats.{Counter, read}
use floodgate.Process.{World}
use floodgate.ExHook.{Message}
use floodgate.Server.Threads.{System, Reaches}
use floodgate.Server.Threads.Counting.{gains, pending}
use floodgate.Server.Threads.Conserves.{booted, Reaches-lifetime}
use floodgate.Health.{Response, do_get}
use floodgate.Health.Body.{healthy, do_get-healthy, Tells, body-Tells}

-- At any time since the start, however the threads interleave: a GET that is answered 200 has a body
-- that loads to an object with the status `ok` and the counters, and each counter in it, with what
-- the workers have still to add to it, is the sum of what the messages that were taken in add by
-- themselves.
pub do_get-messages :
    {Envelope Packet : Type 0} (json : JsonCodec) (world : World Envelope Packet) (config : Config)
    (interval_s grpc health : ℕ) (stats_log : Bool) (path : String) {s : System} {ms : List Message}
    (r : Response)
    → Reaches world config interval_s stats_log (booted grpc health) ms s
    → do_get json path s.service.stats ≡ some r
    → r.status ≡ 200
    → (body : Bytes) × (counts : Counter → ℕ) × (r ≡ healthy body)
      × Tells (json.loads body) counts
      × ((c : Counter) → counts c + pending c s.workers ≡ gains world config c ms)
do_get-messages json world config interval_s grpc health stats_log path {s} r run h ok =
    let (p, (body, (d, e))) = do_get-healthy json path s.service.stats r h ok in
    (
      body,
      read s.service.stats.lifetime,
      e,
      body-Tells json s.service.stats body d,
      λ c. Reaches-lifetime world config interval_s grpc health stats_log c run,
    )
