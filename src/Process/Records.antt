-- ===== src/Process/Records.antt =====
-- The records that process_message of src/floodgate/zerohop.py logs.
use floodgate.Common.{String, List, [], ◌∷◌, ◌++◌, ◌≡◌}
use floodgate.Bytes.{Bytes}
use floodgate.Value.{end}
use floodgate.Config.{Config}
use floodgate.Service.{Service, LogRecord, error}
use floodgate.Process
use floodgate.Process.{
  ProcessResult, action_passthru, action_modify, action_drop, drop_check, drop_packet, pass_packet,
  keep_packet, modify_packet, is_zero_hop, hop_value, finish, zerohop_stage, process_packet,
  zerohop_of, unhandled,
}
use floodgate.Process.Recorded.{Reports, Recorded}

-- The records after a message, and what they say of its action.
pub data Logs (topic : String) (result : ProcessResult) (before after : List LogRecord)
    : Type 0 where
  silent : after ≡ before → Logs topic result before after
  reported :
      (added : LogRecord)
      → after ≡ before ++ added ∷ []
      → Reports topic result.action added.extra
      → Logs topic result before after
  caught :
      result ≡ Process.passthru
      → after ≡ before ++ record { level = error; message = unhandled; extra = end } ∷ []
      → Logs topic result before after
