-- ===== src/Process/Verdicts.antt =====
-- The result of process_message on every path, exceptions included, as a function of what the
-- checks say.
use floodgate.Common.{
  String, Bool, true, false, Option, none, some, ◌≡◌, inl, inr, refl, Option-cases, if◌then◌else◌,
}
use floodgate.Bytes.{Bytes}
use floodgate.Value.{Fields, end, field, int}
use floodgate.Value.Int.{ℤ, pos}
use floodgate.Config.{Config}
use floodgate.Config.Policy.{should_zerohop}
use floodgate.Topic.{parse_meshtastic_topic}
use floodgate.Zerohop.{ZerohopResult, peek_meta}
use floodgate.Service.{Service}
use floodgate.Process.Describe.{description, drop_description}
use floodgate.Process.{
  ProcessResult, passthru, modify, drop, World, drop_check, drop_packet, pass_packet, keep_packet,
  modify_packet, is_zero_hop, hop_value, finish, zerohop_stage, process_packet, process_parsed,
  process_message_inner, process_message, recover, zerohop_of,
}

-- What becomes of the message, an exception being caught.
abbrev pub verdict : Option ProcessResult × Service → ProcessResult
verdict p = (recover p).0

-- `m` if the condition is met, and passthru if not.
abbrev pub otherwise_pass : {A : Type 0} → Option A → ProcessResult → ProcessResult
otherwise_pass none m = passthru
otherwise_pass (some a) m = m

abbrev pub finished : ZerohopResult → ProcessResult
finished (none, none, meta) = passthru
finished (modified, old_hop, meta) =
    if is_zero_hop old_hop
    then passthru
    else otherwise_pass (description meta (field "hop_limit" (hop_value old_hop) end))
        (modify modified)

abbrev pub zerohop_verdict : Option Bool → Option ZerohopResult → ProcessResult
zerohop_verdict none r = passthru
zerohop_verdict (some false) r = passthru
zerohop_verdict (some true) none = passthru
zerohop_verdict (some true) (some r) = finished r

module _ {Envelope Packet : Type 0} (world : World Envelope Packet) where
  verdict-pass_packet :
      (topic channel encoding : String) (payload : Bytes) (s : Service)
      → verdict (pass_packet world topic channel encoding payload s) ≡ passthru
  unfolding pass_packet
  verdict-pass_packet topic channel encoding payload s =
      elim (Option-cases (description (peek_meta world.proto world.json encoding payload) end)) [
        | inl e ↦ rw e
        | inr (rest, e) ↦ rw e
      ]

  verdict-keep_packet :
      (topic channel encoding : String) (meta : Fields) (s : Service)
      → verdict (keep_packet world topic channel encoding meta s) ≡ passthru
  unfolding keep_packet
  verdict-keep_packet topic channel encoding meta s =
      elim (Option-cases (description meta (field "hop_limit" (int (pos 0)) end))) [
        | inl e ↦ rw e
        | inr (rest, e) ↦ rw e
      ]

  verdict-modify_packet :
      (topic channel encoding : String) (modified : Option Bytes) (old_hop : Option ℤ)
      (meta : Fields) (s : Service)
      → verdict (modify_packet world topic channel encoding modified old_hop meta s)
        ≡ otherwise_pass
            (description meta (field "hop_limit" (hop_value old_hop) end))
            (modify modified)
  unfolding modify_packet
  verdict-modify_packet topic channel encoding modified old_hop meta s =
      elim (Option-cases (description meta (field "hop_limit" (hop_value old_hop) end))) [
        | inl e ↦ rw e
        | inr (rest, e) ↦ rw e
      ]

  verdict-drop_packet :
      (topic channel encoding : String) (payload : Bytes) (portnum : Option String) (s : Service)
      → verdict (drop_packet world topic channel encoding payload portnum s)
        ≡ otherwise_pass
            (drop_description (peek_meta world.proto world.json encoding payload) portnum)
            drop
  unfolding drop_packet
  verdict-drop_packet topic channel encoding payload portnum s =
      elim (Option-cases
        (drop_description (peek_meta world.proto world.json encoding payload) portnum)) [
          | inl e ↦ rw e
          | inr (rest, e) ↦ rw e
        ]

  finish_either :
      (topic channel encoding : String) (modified : Option Bytes) (old_hop : Option ℤ)
      (meta : Fields) (s : Service) (b : Bool)
      → verdict (
          (if b
              then keep_packet world topic channel encoding meta
              else modify_packet world topic channel encoding modified old_hop meta)
            s)
        ≡ (if b
            then passthru
            else otherwise_pass
                (description meta (field "hop_limit" (hop_value old_hop) end))
                (modify modified))
  finish_either topic channel encoding modified old_hop meta s true =
      verdict-keep_packet topic channel encoding meta s
  finish_either topic channel encoding modified old_hop meta s false =
      verdict-modify_packet topic channel encoding modified old_hop meta s

  verdict-finish :
      (topic channel encoding : String) (payload : Bytes) (r : ZerohopResult) (s : Service)
      → verdict (finish world topic channel encoding payload r s) ≡ finished r
  unfolding finish
  verdict-finish topic channel encoding payload (none, none, meta) s = refl
  verdict-finish topic channel encoding payload (none, some hops, meta) s =
      finish_either topic channel encoding none (some hops) meta s (is_zero_hop (some hops))
  verdict-finish topic channel encoding payload (some bytes, old_hop, meta) s =
      finish_either topic channel encoding (some bytes) old_hop meta s (is_zero_hop old_hop)

  verdict-zerohop_stage :
      (config : Config) (topic channel encoding : String) (payload : Bytes) (s : Service)
      → verdict (zerohop_stage world config topic channel encoding payload s)
        ≡ zerohop_verdict (should_zerohop config channel) (zerohop_of world encoding payload)
  unfolding zerohop_stage
  verdict-zerohop_stage config topic channel encoding payload s =
      elim (Option-cases (should_zerohop config channel)) [
        | inl e ↦ rw e
        | inr (true, e) ↦ elim (Option-cases (zerohop_of world encoding payload)) [
          | inl f ↦ rw (e, f)
          | inr (r, f) ↦ rw (e, f) (verdict-finish topic channel encoding payload r s)
        ]
        | inr (false, e) ↦ rw e (verdict-pass_packet topic channel encoding payload s)
      ]

  -- What is to become of a packet, from what the checks say.
  abbrev pub packet_verdict :
      String → Bytes → Option (Bool × Option String) → ProcessResult → ProcessResult
  packet_verdict encoding payload none otherwise = passthru
  packet_verdict encoding payload (some (true, portnum)) otherwise =
      otherwise_pass (drop_description (peek_meta world.proto world.json encoding payload) portnum)
        drop
  packet_verdict encoding payload (some (false, portnum)) otherwise = otherwise

  verdict-process_packet :
      (config : Config) (topic channel encoding : String) (payload : Bytes) (s : Service)
      → verdict (process_packet world config topic channel encoding payload s)
        ≡ packet_verdict encoding payload
            (drop_check world config channel encoding payload)
            (zerohop_verdict (should_zerohop config channel) (zerohop_of world encoding payload))
  unfolding process_packet
  verdict-process_packet config topic channel encoding payload s =
      elim (Option-cases (drop_check world config channel encoding payload)) [
        | inl e ↦ rw e
        | inr ((true, portnum), e) ↦
            rw e (verdict-drop_packet topic channel encoding payload portnum s)
        | inr ((false, portnum), e) ↦
            rw e (verdict-zerohop_stage config topic channel encoding payload s)
      ]

  pub process_packet_case :
      (topic : String) (payload : Bytes) (config : Config) (s : Service) (channel encoding : String)
      → parse_meshtastic_topic topic ≡ some (channel, encoding)
      → (process_message world topic payload config s).0
        ≡ packet_verdict encoding payload
            (drop_check world config channel encoding payload)
            (zerohop_verdict (should_zerohop config channel) (zerohop_of world encoding payload))
  unfolding process_message process_message_inner process_parsed
  process_packet_case topic payload config s channel encoding h =
      rw h (verdict-process_packet config topic channel encoding payload s)

  pub process_other_case :
      (topic : String) (payload : Bytes) (config : Config) (s : Service)
      → parse_meshtastic_topic topic ≡ none
      → (process_message world topic payload config s).0 ≡ passthru
  unfolding process_message process_message_inner process_parsed
  process_other_case topic payload config s h = rw h
