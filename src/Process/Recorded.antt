-- ===== src/Process/Recorded.antt =====
-- What the stages of _process_message_inner of src/floodgate/zerohop.py log.
use floodgate.Common.{
  String, Bool, true, false, Option, none, some, List, [], ◌∷◌, ◌++◌, ◌≡◌, ◌⊎◌, inl, inr, refl,
  Option-cases, if◌then◌else◌, length,
}
use floodgate.Bytes.{Bytes}
use floodgate.Value.{str, int, Fields, field, end, get}
use floodgate.Value.Int.{ℤ, pos}
use floodgate.Config.{Config}
use floodgate.Config.Policy.{should_zerohop}
use floodgate.Portnum.{lookup}
use floodgate.Zerohop.{ZerohopResult, peek_meta}
use floodgate.Service.{Service, LogRecord, Exec}
use floodgate.LogSetup.{outcome_tags}
use floodgate.Process.Describe.{entry, description, drop_description}
use floodgate.Process.{
  ProcessResult, action_passthru, action_modify, action_drop, World, drop_check, drop_packet,
  pass_packet, keep_packet, modify_packet, is_zero_hop, hop_value, finish, zerohop_stage,
  process_packet, process_parsed, zerohop_of,
}

-- The action that goes with an outcome.
abbrev pub outcome_actions : List (String × String)
outcome_actions =
    ("zerohop", action_modify)
    ∷ ("passthru", action_passthru)
    ∷ ("noop", action_passthru)
    ∷ ("dropped", action_drop)
    ∷ ("warn", action_passthru)
    ∷ []

-- A message record for a topic, with an outcome that has a tag and that goes with the action.
pub record Reports (topic action : String) (extra : Fields) : Type 0 where
  pub outcome : String
  pub tag : String
  pub is_message : get extra "event" ≡ some (str "message")
  pub has_topic : get extra "topic" ≡ some (str topic)
  pub has_outcome : get extra "outcome" ≡ some (str outcome)
  pub has_tag : lookup outcome_tags outcome ≡ some tag
  pub has_action : lookup outcome_actions outcome ≡ some action

-- A return has logged nothing, or one record. An exception was raised before anything was logged.
abbrev pub Recorded : String → List LogRecord → Option ProcessResult × Service → Type 0
Recorded topic before (some r, s) =
    (s.records ≡ before)
    ⊎ ((added : LogRecord) × (s.records ≡ before ++ added ∷ [])
        × Reports topic r.action added.extra)
Recorded topic before (none, s) = s.records ≡ before

Reports-entry :
    (outcome tag action topic channel encoding : String) (rest : Fields)
    → lookup outcome_tags outcome ≡ some tag
    → lookup outcome_actions outcome ≡ some action
    → Reports topic action (entry outcome topic channel encoding rest)
unfolding get
Reports-entry outcome tag action topic channel encoding rest t a = record {
  outcome = outcome;
  tag = tag;
  is_message = refl;
  has_topic = refl;
  has_outcome = refl;
  has_tag = t;
  has_action = a;
}

either-Recorded :
    (topic : String) (b : Bool) (m n : Exec ProcessResult) (s : Service)
    → Recorded topic s.records (m s)
    → Recorded topic s.records (n s)
    → Recorded topic s.records ((if b then m else n) s)
either-Recorded topic true m n s h k = h
either-Recorded topic false m n s h k = k

module _ {Envelope Packet : Type 0} (world : World Envelope Packet) where
  drop_packet-Recorded :
      (topic channel encoding : String) (payload : Bytes) (portnum : Option String) (s : Service)
      → Recorded topic s.records (drop_packet world topic channel encoding payload portnum s)
  unfolding drop_packet lookup
  drop_packet-Recorded topic channel encoding payload portnum s =
      elim (Option-cases
        (drop_description (peek_meta world.proto world.json encoding payload) portnum)) [
          | inl e ↦ rw e refl
          | inr (rest, e) ↦ rw e (
              inr (
                _,
                refl,
                Reports-entry "dropped" "[DROPPED]" action_drop topic channel encoding rest refl
                    refl,
              ))
        ]

  pass_packet-Recorded :
      (topic channel encoding : String) (payload : Bytes) (s : Service)
      → Recorded topic s.records (pass_packet world topic channel encoding payload s)
  unfolding pass_packet lookup
  pass_packet-Recorded topic channel encoding payload s =
      elim (Option-cases (description (peek_meta world.proto world.json encoding payload) end)) [
        | inl e ↦ rw e refl
        | inr (rest, e) ↦ rw e (
            inr (
              _,
              refl,
              Reports-entry "passthru" "[PASSTHRU]" action_passthru topic channel encoding rest refl
                  refl,
            ))
      ]

  keep_packet-Recorded :
      (topic channel encoding : String) (meta : Fields) (s : Service)
      → Recorded topic s.records (keep_packet world topic channel encoding meta s)
  unfolding keep_packet lookup
  keep_packet-Recorded topic channel encoding meta s =
      elim (Option-cases (description meta (field "hop_limit" (int (pos 0)) end))) [
        | inl e ↦ rw e refl
        | inr (rest, e) ↦ rw e (
            inr (
              _,
              refl,
              Reports-entry "noop" "[NOOP]" action_passthru topic channel encoding rest refl refl,
            ))
      ]

  modify_packet-Recorded :
      (topic channel encoding : String) (modified : Option Bytes) (old_hop : Option ℤ)
      (meta : Fields) (s : Service)
      → Recorded topic s.records
          (modify_packet world topic channel encoding modified old_hop meta s)
  unfolding modify_packet lookup
  modify_packet-Recorded topic channel encoding modified old_hop meta s =
      elim (Option-cases (description meta (field "hop_limit" (hop_value old_hop) end))) [
        | inl e ↦ rw e refl
        | inr (rest, e) ↦ rw e (
            inr (
              _,
              refl,
              Reports-entry "zerohop" "[ZEROHOP]" action_modify topic channel encoding rest refl
                  refl,
            ))
      ]

  finish-Recorded :
      (topic channel encoding : String) (payload : Bytes) (r : ZerohopResult) (s : Service)
      → Recorded topic s.records (finish world topic channel encoding payload r s)
  unfolding finish lookup
  finish-Recorded topic channel encoding payload (none, none, meta) s = inr (
    _,
    refl,
    Reports-entry "warn" "[WARN]" action_passthru topic channel encoding
        (field "bytes" (int (pos (length payload))) end) refl refl,
  )
  finish-Recorded topic channel encoding payload (none, some hops, meta) s =
      either-Recorded topic (is_zero_hop (some hops)) _ _ s
        (keep_packet-Recorded topic channel encoding meta s)
        (modify_packet-Recorded topic channel encoding none (some hops) meta s)
  finish-Recorded topic channel encoding payload (some bytes, old_hop, meta) s =
      either-Recorded topic (is_zero_hop old_hop) _ _ s
        (keep_packet-Recorded topic channel encoding meta s)
        (modify_packet-Recorded topic channel encoding (some bytes) old_hop meta s)

  zerohop_stage-Recorded :
      (config : Config) (topic channel encoding : String) (payload : Bytes) (s : Service)
      → Recorded topic s.records (zerohop_stage world config topic channel encoding payload s)
  unfolding zerohop_stage
  zerohop_stage-Recorded config topic channel encoding payload s =
      elim (Option-cases (should_zerohop config channel)) [
        | inl e ↦ rw e refl
        | inr (true, e) ↦ elim (Option-cases (zerohop_of world encoding payload)) [
          | inl f ↦ rw (e, f) refl
          | inr (r, f) ↦ rw (e, f) (finish-Recorded topic channel encoding payload r s)
        ]
        | inr (false, e) ↦ rw e (pass_packet-Recorded topic channel encoding payload s)
      ]

  process_packet-Recorded :
      (config : Config) (topic channel encoding : String) (payload : Bytes) (s : Service)
      → Recorded topic s.records (process_packet world config topic channel encoding payload s)
  unfolding process_packet
  process_packet-Recorded config topic channel encoding payload s =
      elim (Option-cases (drop_check world config channel encoding payload)) [
        | inl e ↦ rw e refl
        | inr ((true, portnum), e) ↦
            rw e (drop_packet-Recorded topic channel encoding payload portnum s)
        | inr ((false, portnum), e) ↦
            rw e (zerohop_stage-Recorded config topic channel encoding payload s)
      ]

  pub process_parsed-Recorded :
      (config : Config) (topic : String) (payload : Bytes) (parsed : Option (String × String))
      (s : Service)
      → Recorded topic s.records (process_parsed world config topic payload parsed s)
  unfolding process_parsed
  process_parsed-Recorded config topic payload none s = inl refl
  process_parsed-Recorded config topic payload (some (channel, encoding)) s =
      process_packet-Recorded config topic channel encoding payload s
