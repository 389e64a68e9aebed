-- ===== src/Health.antt =====
-- _HealthHandler.do_GET of src/floodgate/health.py.
pub mod Body
pub mod Messages
mod Tests
use floodgate.Common.{ℕ, String, Option, none, some, List, [], ◌∷◌, length, ◌==◌, if◌then◌else◌}
use floodgate.Bytes.{Bytes}
use floodgate.Value.{Value, int, str, obj, Fields, field, end}
use floodgate.Value.Int.{pos}
use floodgate.Value.Json.{JsonCodec}
use floodgate.Stats.{Stats, Snapshot, snapshot}

-- The two headers of an answer. The length is written in decimal digits.
pub data Header : Type 0 where
  content_type : String → Header
  content_length : ℕ → Header

-- The status, the headers, and the body where there is one.
pub record Response : Type 0 where
  pub status : ℕ
  pub headers : List Header
  pub body : Option Bytes

-- The dict that `snapshot` returns.
abbrev pub snapshot_fields : Snapshot → Fields
snapshot_fields snap = field "zerohop" (int (pos snap.counts.zerohop_count)) (
    field "passthru" (int (pos snap.counts.passthru_count)) (
      field "noop" (int (pos snap.counts.noop_count)) (
        field "dropped" (int (pos snap.counts.dropped_count)) (
          field "skipped" (int (pos snap.counts.skipped_count)) (
            field "errors" (int (pos snap.counts.errors_count))
              (field "total" (int (pos snap.total)) end))))))

abbrev pub health_body : Stats → Value
health_body stats =
    obj (field "status" (str "ok") (field "stats" (obj (snapshot_fields (snapshot stats))) end))

abbrev sent : Option Bytes → Option Response
sent none = none
sent (some body) = some (record {
  status = 200;
  headers = content_type "application/json" ∷ content_length (length body) ∷ [];
  body = some body;
})

-- do_GET; `none` is an exception of the encoder.
unfoldable pub do_get : JsonCodec → String → Stats → Option Response
do_get json path stats =
    if path == "/health"
    then sent (json.dumps (health_body stats))
    else some (record { status = 404; headers = []; body = none })
