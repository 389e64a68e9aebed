-- ===== src/Process/Laws/Modifies.antt =====
-- When process_message of src/floodgate/zerohop.py modifies a message.
use floodgate.Common.{
  String, Bool, true, false, Option, none, some, ◌≡◌, ◌↔◌, inl, inr, refl, sym, ap, ◌∙◌,
  Option-cases, if◌then◌else◌,
}
use floodgate.Bytes.{Bytes}
use floodgate.Value.{Fields, end, field, int}
use floodgate.Value.Int.{ℤ}
use floodgate.Config.{Config}
use floodgate.Config.Policy.{should_zerohop}
use floodgate.Topic.{parse_meshtastic_topic}
use floodgate.Zerohop.{ZerohopResult, peek_meta}
use floodgate.Service.{Service}
use floodgate.Process.Describe.{description, drop_description}
use floodgate.Process.{
  ProcessResult, passthru, modify, World, drop_check, is_zero_hop, hop_value, process_message,
  zerohop_of,
}
use floodgate.Process.Verdicts.{
  otherwise_pass, finished, zerohop_verdict, packet_verdict, process_packet_case,
  process_other_case,
}
use floodgate.Process.Laws.{passthru_ne_modify, otherwise_ne_modify}

module _ {Envelope Packet : Type 0} (world : World Envelope Packet) where
  -- A message that is to be modified: its topic is a packet topic, the drop filter passes it,
  -- should_zerohop says yes to its channel, its payload has a modified form for a hop limit that is
  -- not 0, and its record can be written.
  pub record IsToModify (topic : String) (payload bytes : Bytes) (config : Config) : Type 0 where
    pub channel : String
    pub encoding : String
    pub portnum : Option String
    pub old_hop : Option ℤ
    pub meta : Fields
    pub described : Fields
    pub parsed : parse_meshtastic_topic topic ≡ some (channel, encoding)
    pub kept : drop_check world config channel encoding payload ≡ some (false, portnum)
    pub wanted : should_zerohop config channel ≡ some true
    pub changed : zerohop_of world encoding payload ≡ some (some bytes, old_hop, meta)
    pub not_zero : is_zero_hop old_hop ≡ false
    pub described_as : description meta (field "hop_limit" (hop_value old_hop) end) ≡ some described

  otherwise_modify :
      {A : Type 0} (o : Option A) (hop : Bool) (modified : Option Bytes) (bytes : Bytes)
      → (if hop then passthru else otherwise_pass o (modify modified)) ≡ modify (some bytes)
      → (hop ≡ false) × ((a : A) × (o ≡ some a)) × (modified ≡ some bytes)
  otherwise_modify o true modified bytes h = absurd (passthru_ne_modify (some bytes) h)
  otherwise_modify none false modified bytes h = absurd (passthru_ne_modify (some bytes) h)
  otherwise_modify (some a) false modified bytes h =
      (refl, (a, refl), ap (λ (r : ProcessResult). r.payload) h)

  finished-modify :
      (modified : Option Bytes) (old_hop : Option ℤ) (meta : Fields) (bytes : Bytes)
      → finished (modified, old_hop, meta) ≡ modify (some bytes)
      → (is_zero_hop old_hop ≡ false)
        × ((d : Fields) × (description meta (field "hop_limit" (hop_value old_hop) end) ≡ some d))
        × (modified ≡ some bytes)
  finished-modify none none meta bytes h = absurd (passthru_ne_modify (some bytes) h)
  finished-modify none (some hops) meta bytes h =
      otherwise_modify (description meta (field "hop_limit" (int hops) end))
        (is_zero_hop (some hops)) none bytes h
  finished-modify (some new) old_hop meta bytes h =
      otherwise_modify (description meta (field "hop_limit" (hop_value old_hop) end))
        (is_zero_hop old_hop) (some new) bytes h

  zerohop_modify_sound :
      (topic : String) (payload bytes : Bytes) (config : Config) (channel encoding : String)
      (portnum : Option String) (wanted : Option Bool) (result : Option ZerohopResult)
      → parse_meshtastic_topic topic ≡ some (channel, encoding)
      → drop_check world config channel encoding payload ≡ some (false, portnum)
      → should_zerohop config channel ≡ wanted
      → zerohop_of world encoding payload ≡ result
      → zerohop_verdict wanted result ≡ modify (some bytes)
      → IsToModify topic payload bytes config
  zerohop_modify_sound topic payload bytes config channel encoding portnum none result t k w z h =
      absurd (passthru_ne_modify (some bytes) h)
  zerohop_modify_sound topic payload bytes config channel encoding portnum (some false) result t k w
        z h =
      absurd (passthru_ne_modify (some bytes) h)
  zerohop_modify_sound topic payload bytes config channel encoding portnum (some true) none t k w z
        h =
      absurd (passthru_ne_modify (some bytes) h)
  zerohop_modify_sound topic payload bytes config channel encoding portnum (some true)
        (some (modified, old_hop, meta)) t k w z h =
      let (not_zero, (described, d), same) = finished-modify modified old_hop meta bytes h in
      record {
        channel = channel;
        encoding = encoding;
        portnum = portnum;
        old_hop = old_hop;
        meta = meta;
        described = described;
        parsed = t;
        kept = k;
        wanted = w;
        changed = z ∙ ap (λ m. some (m, old_hop, meta)) same;
        not_zero = not_zero;
        described_as = d;
      }

  packet_modify_sound :
      (topic : String) (payload bytes : Bytes) (config : Config) (channel encoding : String)
      (o : Option (Bool × Option String))
      → parse_meshtastic_topic topic ≡ some (channel, encoding)
      → drop_check world config channel encoding payload ≡ o
      → packet_verdict world encoding payload o
          (zerohop_verdict (should_zerohop config channel) (zerohop_of world encoding payload))
        ≡ modify (some bytes)
      → IsToModify topic payload bytes config
  packet_modify_sound topic payload bytes config channel encoding none t e h =
      absurd (passthru_ne_modify (some bytes) h)
  packet_modify_sound topic payload bytes config channel encoding (some (true, portnum)) t e h =
      absurd (
        otherwise_ne_modify
          (drop_description (peek_meta world.proto world.json encoding payload) portnum)
          (some bytes) h)
  packet_modify_sound topic payload bytes config channel encoding (some (false, portnum)) t e h =
      zerohop_modify_sound topic payload bytes config channel encoding portnum _ _ t e refl refl h

  process_message-modify_sound :
      (topic : String) (payload bytes : Bytes) (config : Config) (s : Service)
      → (process_message world topic payload config s).0 ≡ modify (some bytes)
      → IsToModify topic payload bytes config
  process_message-modify_sound topic payload bytes config s h =
      elim (Option-cases (parse_meshtastic_topic topic)) [
        | inl t ↦ absurd (
            passthru_ne_modify (some bytes)
              (sym (process_other_case world topic payload config s t) ∙ h))
        | inr ((channel, encoding), t) ↦
            packet_modify_sound topic payload bytes config channel encoding _ t refl
              (sym (process_packet_case world topic payload config s channel encoding t) ∙ h)
      ]

  process_message-modify_complete :
      (topic : String) (payload bytes : Bytes) (config : Config) (s : Service)
      → IsToModify topic payload bytes config
      → (process_message world topic payload config s).0 ≡ modify (some bytes)
  process_message-modify_complete topic payload bytes config s m = rw (
    process_packet_case world topic payload config s m.channel m.encoding m.parsed,
    m.kept,
    m.wanted,
    m.changed,
    m.not_zero,
    m.described_as,
  )

  -- process_message answers with modified bytes exactly if the topic is a packet topic, the drop
  -- filter passes the message, should_zerohop says yes to its channel, the zero-hop function returns
  -- those bytes for a hop limit that was not 0, and the record of the change can be written.
  pub process_message-modify_iff :
      (topic : String) (payload bytes : Bytes) (config : Config) (s : Service)
      → ((process_message world topic payload config s).0 ≡ modify (some bytes))
        ↔ IsToModify topic payload bytes config
  process_message-modify_iff topic payload bytes config s = (
    process_message-modify_sound topic payload bytes config s,
    process_message-modify_complete topic payload bytes config s,
  )
