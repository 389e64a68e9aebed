-- ===== src/Process/Results.antt =====
-- The results that process_message of src/floodgate/zerohop.py can have: a message is modified only
-- with bytes.
use floodgate.Common.{
  String, Bool, true, false, Option, none, some, ◌≡◌, ◌⊎◌, refl, ap, ◌==◌, Option-cases, Bool-cases,
  inl, inr, if◌then◌else◌,
}
use floodgate.Bytes.{Bytes}
use floodgate.Value.{field, end}
use floodgate.Config.{Config}
use floodgate.Config.Policy.{should_zerohop}
use floodgate.Topic.{parse_meshtastic_topic}
use floodgate.Zerohop.{ZerohopResult}
use floodgate.Zerohop.Sound.{IsSound, zerohop_json-IsSound, zerohop_protobuf-IsSound}
use floodgate.Service.{Service}
use floodgate.Process.Describe.{description, drop_description}
use floodgate.Zerohop.{peek_meta}
use floodgate.Process.{
  ProcessResult, passthru, modify, drop, World, drop_check, zerohop_of, process_message,
  is_zero_hop, hop_value,
}
use floodgate.Process.Verdicts.{
  otherwise_pass, finished, zerohop_verdict, packet_verdict, process_packet_case,
  process_other_case,
}

abbrev pub IsResult : ProcessResult → Type 0
IsResult r = (r ≡ passthru) ⊎ (r ≡ drop) ⊎ ((bytes : Bytes) × (r ≡ modify (some bytes)))

module _ {Envelope Packet : Type 0} (world : World Envelope Packet) where
  zerohop_of-IsSound :
      (encoding : String) (payload : Bytes) → IsSound (zerohop_of world encoding payload)
  unfolding zerohop_of
  zerohop_of-IsSound encoding payload = elim (Bool-cases (encoding == "json")) [
    | inl e ↦ rw e (zerohop_json-IsSound world.json payload)
    | inr e ↦ rw e (zerohop_protobuf-IsSound world.proto payload)
  ]

  modified-IsResult :
      {A : Type 0} (o : Option A) (b : Bool) (bytes : Bytes)
      → IsResult (if b then passthru else otherwise_pass o (modify (some bytes)))
  modified-IsResult o true bytes = inl refl
  modified-IsResult none false bytes = inl refl
  modified-IsResult (some a) false bytes = inr (inr (bytes, refl))

  zerohop_verdict-IsResult :
      (wanted : Option Bool) (r : Option ZerohopResult)
      → IsSound r
      → IsResult (zerohop_verdict wanted r)
  zerohop_verdict-IsResult none r h = inl refl
  zerohop_verdict-IsResult (some false) r h = inl refl
  zerohop_verdict-IsResult (some true) none h = inl refl
  zerohop_verdict-IsResult (some true) (some (none, none, meta)) h = inl refl
  zerohop_verdict-IsResult (some true) (some (none, some hops, meta)) h =
      inl (ap (λ z. finished (none, some z, meta)) h)
  zerohop_verdict-IsResult (some true) (some (some bytes, old_hop, meta)) h =
      modified-IsResult (description meta (field "hop_limit" (hop_value old_hop) end))
        (is_zero_hop old_hop) bytes

  otherwise-IsResult : {A : Type 0} (o : Option A) → IsResult (otherwise_pass o drop)
  otherwise-IsResult none = inl refl
  otherwise-IsResult (some a) = inr (inl refl)

  packet_verdict-IsResult :
      (encoding : String) (payload : Bytes) (o : Option (Bool × Option String)) (r : ProcessResult)
      → IsResult r
      → IsResult (packet_verdict world encoding payload o r)
  packet_verdict-IsResult encoding payload none r h = inl refl
  packet_verdict-IsResult encoding payload (some (true, portnum)) r h =
      otherwise-IsResult
        (drop_description (peek_meta world.proto world.json encoding payload) portnum)
  packet_verdict-IsResult encoding payload (some (false, portnum)) r h = h

  -- A message passes, is dropped, or is modified with bytes.
  pub process_message-IsResult :
      (topic : String) (payload : Bytes) (config : Config) (s : Service)
      → IsResult (process_message world topic payload config s).0
  process_message-IsResult topic payload config s =
      elim (Option-cases (parse_meshtastic_topic topic)) [
        | inl t ↦ inl (process_other_case world topic payload config s t)
        | inr ((channel, encoding), t) ↦
            rw (process_packet_case world topic payload config s channel encoding t) (
              packet_verdict-IsResult encoding payload
                (drop_check world config channel encoding payload) _
                (zerohop_verdict-IsResult (should_zerohop config channel)
                  (zerohop_of world encoding payload) (zerohop_of-IsSound encoding payload)))
      ]
