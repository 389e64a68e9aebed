-- ===== src/Process/Accounts.antt =====
-- Which counters a message increments, on every path through process_message.
use floodgate.Common.{
  String, Bool, true, false, Option, none, some, ◌≡◌, ◌⊎◌, inl, inr, refl, ap, Option-cases,
  if◌then◌else◌,
}
use floodgate.Bytes.{Bytes}
use floodgate.Value.{Fields, end, field, int}
use floodgate.Value.Int.{ℤ, pos}
use floodgate.Stats.{Stats, Counter, zerohop, passthru, noop, dropped, skipped, errors, inc}
use floodgate.Config.{Config}
use floodgate.Config.Policy.{should_zerohop}
use floodgate.Topic.{parse_meshtastic_topic}
use floodgate.Zerohop.{ZerohopResult, peek_meta}
use floodgate.Service.{Service, Exec}
use floodgate.Process.Describe.{description, drop_description}
use floodgate.Process
use floodgate.Process.{
  ProcessResult, action_passthru, action_modify, action_drop, World, drop_check, drop_packet,
  pass_packet, keep_packet, modify_packet, is_zero_hop, hop_value, finish, zerohop_stage,
  process_packet, process_parsed, process_message_inner, process_message, recover, zerohop_of,
}

-- The action that goes with a counter.
abbrev pub action_of : Counter → String
action_of dropped = action_drop
action_of zerohop = action_modify
action_of _ = action_passthru

-- A return has incremented one counter, and its action is the counter's. An exception was raised
-- before or after the one increment.
abbrev Accounted : Stats → Option ProcessResult × Service → Type 0
Accounted before (some r, s) = (c : Counter) × (s.stats ≡ inc c before) × (r.action ≡ action_of c)
Accounted before (none, s) = (s.stats ≡ before) ⊎ ((c : Counter) × (s.stats ≡ inc c before))

-- The counters after a message, and what becomes of it.
pub data Outcome (before : Stats) (result : ProcessResult) (after : Stats) : Type 0 where
  counted :
      (c : Counter)
      → after ≡ inc c before
      → result.action ≡ action_of c
      → Outcome before result after
  failed_early : result ≡ Process.passthru → after ≡ inc errors before → Outcome before result after
  failed_late :
      (c : Counter)
      → result ≡ Process.passthru
      → after ≡ inc errors (inc c before)
      → Outcome before result after

recover-Outcome :
    (before : Stats) (p : Option ProcessResult × Service)
    → Accounted before p
    → Outcome before (recover p).0 (recover p).1.stats
recover-Outcome before (some r, s) (c, e, a) = counted c e a
recover-Outcome before (none, s) (inl e) = failed_early refl (ap (inc errors) e)
recover-Outcome before (none, s) (inr (c, e)) = failed_late c refl (ap (inc errors) e)

module _ {Envelope Packet : Type 0} (world : World Envelope Packet) where
  drop_packet-Accounted :
      (topic channel encoding : String) (payload : Bytes) (portnum : Option String) (s : Service)
      → Accounted s.stats (drop_packet world topic channel encoding payload portnum s)
  unfolding drop_packet
  drop_packet-Accounted topic channel encoding payload portnum s =
      elim (Option-cases
        (drop_description (peek_meta world.proto world.json encoding payload) portnum)) [
          | inl e ↦ rw e (inr (dropped, refl))
          | inr (rest, e) ↦ rw e (dropped, refl, refl)
        ]

  pass_packet-Accounted :
      (topic channel encoding : String) (payload : Bytes) (s : Service)
      → Accounted s.stats (pass_packet world topic channel encoding payload s)
  unfolding pass_packet
  pass_packet-Accounted topic channel encoding payload s =
      elim (Option-cases (description (peek_meta world.proto world.json encoding payload) end)) [
        | inl e ↦ rw e (inr (passthru, refl))
        | inr (rest, e) ↦ rw e (passthru, refl, refl)
      ]

  keep_packet-Accounted :
      (topic channel encoding : String) (meta : Fields) (s : Service)
      → Accounted s.stats (keep_packet world topic channel encoding meta s)
  unfolding keep_packet
  keep_packet-Accounted topic channel encoding meta s =
      elim (Option-cases (description meta (field "hop_limit" (int (pos 0)) end))) [
        | inl e ↦ rw e (inr (noop, refl))
        | inr (rest, e) ↦ rw e (noop, refl, refl)
      ]

  modify_packet-Accounted :
      (topic channel encoding : String) (modified : Option Bytes) (old_hop : Option ℤ)
      (meta : Fields) (s : Service)
      → Accounted s.stats (modify_packet world topic channel encoding modified old_hop meta s)
  unfolding modify_packet
  modify_packet-Accounted topic channel encoding modified old_hop meta s =
      elim (Option-cases (description meta (field "hop_limit" (hop_value old_hop) end))) [
        | inl e ↦ rw e (inr (zerohop, refl))
        | inr (rest, e) ↦ rw e (zerohop, refl, refl)
      ]

  either :
      (b : Bool) (m n : Exec ProcessResult) (s : Service)
      → Accounted s.stats (m s)
      → Accounted s.stats (n s)
      → Accounted s.stats ((if b then m else n) s)
  either true m n s h k = h
  either false m n s h k = k

  finish-Accounted :
      (topic channel encoding : String) (payload : Bytes) (r : ZerohopResult) (s : Service)
      → Accounted s.stats (finish world topic channel encoding payload r s)
  unfolding finish
  finish-Accounted topic channel encoding payload (none, none, meta) s = (errors, refl, refl)
  finish-Accounted topic channel encoding payload (none, some hops, meta) s =
      either (is_zero_hop (some hops)) _ _ s (keep_packet-Accounted topic channel encoding meta s)
        (modify_packet-Accounted topic channel encoding none (some hops) meta s)
  finish-Accounted topic channel encoding payload (some bytes, old_hop, meta) s =
      either (is_zero_hop old_hop) _ _ s (keep_packet-Accounted topic channel encoding meta s)
        (modify_packet-Accounted topic channel encoding (some bytes) old_hop meta s)

  zerohop_stage-Accounted :
      (config : Config) (topic channel encoding : String) (payload : Bytes) (s : Service)
      → Accounted s.stats (zerohop_stage world config topic channel encoding payload s)
  unfolding zerohop_stage
  zerohop_stage-Accounted config topic channel encoding payload s =
      elim (Option-cases (should_zerohop config channel)) [
        | inl e ↦ rw e (inl refl)
        | inr (true, e) ↦ elim (Option-cases (zerohop_of world encoding payload)) [
          | inl f ↦ rw (e, f) (inl refl)
          | inr (r, f) ↦ rw (e, f) (finish-Accounted topic channel encoding payload r s)
        ]
        | inr (false, e) ↦ rw e (pass_packet-Accounted topic channel encoding payload s)
      ]

  process_packet-Accounted :
      (config : Config) (topic channel encoding : String) (payload : Bytes) (s : Service)
      → Accounted s.stats (process_packet world config topic channel encoding payload s)
  unfolding process_packet
  process_packet-Accounted config topic channel encoding payload s =
      elim (Option-cases (drop_check world config channel encoding payload)) [
        | inl e ↦ rw e (inl refl)
        | inr ((true, portnum), e) ↦
            rw e (drop_packet-Accounted topic channel encoding payload portnum s)
        | inr ((false, portnum), e) ↦
            rw e (zerohop_stage-Accounted config topic channel encoding payload s)
      ]

  process_parsed-Accounted :
      (config : Config) (topic : String) (payload : Bytes) (parsed : Option (String × String))
      (s : Service)
      → Accounted s.stats (process_parsed world config topic payload parsed s)
  unfolding process_parsed
  process_parsed-Accounted config topic payload none s = (skipped, refl, refl)
  process_parsed-Accounted config topic payload (some (channel, encoding)) s =
      process_packet-Accounted config topic channel encoding payload s

  -- Every message increments one counter and gets the action that goes with it (drop with
  -- `dropped`, modify with `zerohop`, otherwise passthru), or an exception was caught: then it
  -- passes through, and `errors` is incremented, besides the message's own counter where the
  -- exception came after that was incremented.
  pub process_message_accounts :
      (topic : String) (payload : Bytes) (config : Config) (s : Service)
      → Outcome s.stats
          (process_message world topic payload config s).0
          (process_message world topic payload config s).1.stats
  unfolding process_message process_message_inner
  process_message_accounts topic payload config s =
      recover-Outcome s.stats
        (process_parsed world config topic payload (parse_meshtastic_topic topic) s)
        (process_parsed-Accounted config topic payload (parse_meshtastic_topic topic) s)
