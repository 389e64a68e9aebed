-- ===== src/Process/Laws/Drops.antt =====
-- When process_message of src/floodgate/zerohop.py drops a message.
use mathlib.Core.Path.{subst}
use floodgate.Common.{
  String, Bool, true, false, Option, none, some, ◌≡◌, ◌≢◌, ◌↔◌, inl, inr, refl, sym, ◌∙◌, arith,
  Option-cases, Bool-cases, ◌==◌, eq_iff, or_else,
}
use floodgate.Bytes.{Bytes}
use floodgate.Value.{Value, null, bool, Fields, end, field, int, get, truthy}
use floodgate.Config.{Config}
use floodgate.Config.Policy.{should_zerohop, should_drop}
use floodgate.Topic.{parse_meshtastic_topic}
use floodgate.Portnum.{extract_portnum_json, extract_portnum_protobuf}
use floodgate.Zerohop.{ZerohopResult, peek_meta}
use floodgate.Service.{Service}
use floodgate.Process.Describe.{description, drop_description}
use floodgate.Process.{
  ProcessResult, drop, World, drop_check, is_zero_hop, hop_value, process_message, zerohop_of,
  portnum_of,
}
use floodgate.Process.Verdicts.{
  otherwise_pass, finished, zerohop_verdict, packet_verdict, process_packet_case,
  process_other_case,
}
use floodgate.Process.Laws.{passthru_ne_drop, neither}

module _ {Envelope Packet : Type 0} (world : World Envelope Packet) where
  -- The portnum of a payload, by the encoding that the topic names.
  pub data IsPortnum (payload : Bytes) (name : String) : String → Type 0 where
    by_json :
        extract_portnum_json world.json world.casing payload ≡ some name
        → IsPortnum payload name "json"
    by_protobuf :
        (encoding : String)
        → encoding ≢ "json"
        → extract_portnum_protobuf world.proto world.aes payload ≡ some name
        → IsPortnum payload name encoding

  portnum_of-IsPortnum :
      (payload : Bytes) (name encoding : String)
      → portnum_of world encoding payload ≡ some name
      → IsPortnum payload name encoding
  unfolding portnum_of
  portnum_of-IsPortnum payload name encoding h = elim (Bool-cases (encoding == "json")) [
    | inl e ↦
        subst (IsPortnum payload name) (sym ((eq_iff encoding "json").0 e)) (by_json (rw e at h))
    | inr e ↦ by_protobuf encoding (λ f. ground (arith, e, eq_iff encoding "json", f)) (rw e at h)
  ]

  IsPortnum-portnum_of :
      (payload : Bytes) (name encoding : String)
      → IsPortnum payload name encoding
      → portnum_of world encoding payload ≡ some name
  unfolding portnum_of
  IsPortnum-portnum_of payload name _ (by_json e) = e
  IsPortnum-portnum_of payload name _ (by_protobuf encoding n e) =
      elim (Bool-cases (encoding == "json")) [
        | inl f ↦ absurd (n ((eq_iff encoding "json").0 f))
        | inr f ↦ rw f e
      ]

  -- A message that is to be dropped: its topic is a packet topic, its portnum can be read and
  -- should_drop says yes to it, and its record can be written.
  pub record IsToDrop (topic : String) (payload : Bytes) (config : Config) : Type 0 where
    pub channel : String
    pub encoding : String
    pub name : String
    pub described : Fields
    pub parsed : parse_meshtastic_topic topic ≡ some (channel, encoding)
    pub readable : IsPortnum payload name encoding
    pub wanted : should_drop config channel (some name) ≡ some true
    pub described_as :
        drop_description (peek_meta world.proto world.json encoding payload) (some name)
        ≡ some described

  portnum_default : (o : Option Value) → truthy (or_else o (bool false)) ≡ truthy (or_else o null)
  unfolding truthy
  portnum_default none = refl
  portnum_default (some v) = refl

  should_drop-none :
      (config : Config) (channel : String) → should_drop config channel none ≢ some true
  unfolding should_drop
  should_drop-none config channel h = ground arith

  should_drop_enabled :
      (config : Config) (channel : String) (portnum : Option String)
      → should_drop config channel portnum ≡ some true
      → truthy (or_else (get config.values "drop_enabled") null) ≡ true
  unfolding should_drop
  should_drop_enabled config channel portnum h =
      ground (arith, portnum_default (get config.values "drop_enabled"))

  drop_check_sound :
      (config : Config) (channel encoding : String) (payload : Bytes) (portnum : Option String)
      → drop_check world config channel encoding payload ≡ some (true, portnum)
      → (should_drop config channel portnum ≡ some true)
        × (portnum_of world encoding payload ≡ portnum)
  unfolding drop_check
  drop_check_sound config channel encoding payload portnum h = ground arith

  drop_check_complete :
      (config : Config) (channel encoding : String) (payload : Bytes) (portnum : Option String)
      → should_drop config channel portnum ≡ some true
      → portnum_of world encoding payload ≡ portnum
      → drop_check world config channel encoding payload ≡ some (true, portnum)
  unfolding drop_check
  drop_check_complete config channel encoding payload portnum h e =
      rw (should_drop_enabled config channel portnum h, e, h)

  otherwise_drop :
      {A : Type 0} (o : Option A) → otherwise_pass o drop ≡ drop → (a : A) × (o ≡ some a)
  otherwise_drop none h = absurd (passthru_ne_drop h)
  otherwise_drop (some a) h = (a, refl)

  finished_ne_drop : (r : ZerohopResult) → finished r ≢ drop
  finished_ne_drop (none, none, meta) h = passthru_ne_drop h
  finished_ne_drop (none, some hops, meta) h =
      neither (is_zero_hop (some hops)) (description meta (field "hop_limit" (int hops) end)) none h
  finished_ne_drop (some bytes, old_hop, meta) h =
      neither (is_zero_hop old_hop) (description meta (field "hop_limit" (hop_value old_hop) end))
        (some bytes) h

  zerohop_ne_drop :
      (wanted : Option Bool) (r : Option ZerohopResult) → zerohop_verdict wanted r ≢ drop
  zerohop_ne_drop none r h = passthru_ne_drop h
  zerohop_ne_drop (some false) r h = passthru_ne_drop h
  zerohop_ne_drop (some true) none h = passthru_ne_drop h
  zerohop_ne_drop (some true) (some r) h = finished_ne_drop r h

  packet_drop_sound :
      (topic : String) (payload : Bytes) (config : Config) (channel encoding : String)
      (o : Option (Bool × Option String)) (r : ProcessResult)
      → parse_meshtastic_topic topic ≡ some (channel, encoding)
      → drop_check world config channel encoding payload ≡ o
      → r ≢ drop
      → packet_verdict world encoding payload o r ≡ drop
      → IsToDrop topic payload config
  packet_drop_sound topic payload config channel encoding none r t e n h =
      absurd (passthru_ne_drop h)
  packet_drop_sound topic payload config channel encoding (some (false, portnum)) r t e n h =
      absurd (n h)
  packet_drop_sound topic payload config channel encoding (some (true, none)) r t e n h =
      absurd (
        should_drop-none config channel (drop_check_sound config channel encoding payload none e).0)
  packet_drop_sound topic payload config channel encoding (some (true, some name)) r t e n h =
      let (wanted, readable) = drop_check_sound config channel encoding payload (some name) e in
      let (described, d) =
        otherwise_drop
          (drop_description (peek_meta world.proto world.json encoding payload) (some name)) h in
      record {
        channel = channel;
        encoding = encoding;
        name = name;
        described = described;
        parsed = t;
        readable = portnum_of-IsPortnum payload name encoding readable;
        wanted = wanted;
        described_as = d;
      }

  process_message-drop_sound :
      (topic : String) (payload : Bytes) (config : Config) (s : Service)
      → (process_message world topic payload config s).0 ≡ drop
      → IsToDrop topic payload config
  process_message-drop_sound topic payload config s h =
      elim (Option-cases (parse_meshtastic_topic topic)) [
        | inl t ↦
            absurd (passthru_ne_drop (sym (process_other_case world topic payload config s t) ∙ h))
        | inr ((channel, encoding), t) ↦
            packet_drop_sound topic payload config channel encoding _ _ t refl
              (zerohop_ne_drop (should_zerohop config channel) (zerohop_of world encoding payload))
              (sym (process_packet_case world topic payload config s channel encoding t) ∙ h)
      ]

  process_message-drop_complete :
      (topic : String) (payload : Bytes) (config : Config) (s : Service)
      → IsToDrop topic payload config
      → (process_message world topic payload config s).0 ≡ drop
  process_message-drop_complete topic payload config s d =
      let e =
        drop_check_complete config d.channel d.encoding payload (some d.name) d.wanted
          (IsPortnum-portnum_of payload d.name d.encoding d.readable) in
      rw (
        process_packet_case world topic payload config s d.channel d.encoding d.parsed,
        e,
        d.described_as,
      )

  -- process_message drops a message exactly if its topic is a packet topic, its portnum can be read,
  -- as JSON where the topic says so and as protobuf otherwise,
  -- should_drop says yes to that portnum, and the record of the drop can be written.
  pub process_message-drop_iff :
      (topic : String) (payload : Bytes) (config : Config) (s : Service)
      → ((process_message world topic payload config s).0 ≡ drop) ↔ IsToDrop topic payload config
  process_message-drop_iff topic payload config s = (
    process_message-drop_sound topic payload config s,
    process_message-drop_complete topic payload config s,
  )
