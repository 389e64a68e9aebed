-- ===== src/Portnum.antt =====
-- src/floodgate/portnum.py: the portnum name of a payload, or None.
pub mod Json
pub mod Protobuf
mod Tests
use floodgate.Common.{
  ℕ, String, Bool, true, false, Option, none, some, List, [], ◌∷◌, ◌==◌, if◌then◌else◌, or_else,
  ◌≡◌, ◌⊎◌, inl, inr, refl,
}
use floodgate.Common.Text.{Casing}
use floodgate.Bytes.{Bytes}
use floodgate.Value.{Value, null, bool, int, str, arr, obj, Fields, end, field, get, truthy}
use floodgate.Value.Int.{ℤ, pos, negsuc}
use floodgate.Value.Json.{JsonCodec}
use floodgate.Proto.{Meshtastic}
use floodgate.Decrypt.{Aes, decrypt, default_key}

infixl 5 ◌>>=◌
abbrev pub ◌>>=◌ {ℓ κ} : {A : Type ℓ} {B : Type κ} → Option A → (A → Option B) → Option B
none >>= k = none
some a >>= k = k a

pub >>=-eq-some {ℓ κ} :
    {A : Type ℓ} {B : Type κ} (m : Option A) (f : A → Option B) {b : B}
    → (m >>= f) ≡ some b
    → (a : A) × (m ≡ some a) × (f a ≡ some b)
>>=-eq-some none f h = cc
>>=-eq-some (some a) f h = (a, refl, h)

-- _JSON_TYPE_TO_PORTNUM
abbrev pub type_table : List (String × String)
type_table =
    ("text", "TEXT_MESSAGE_APP")
    ∷ ("telemetry", "TELEMETRY_APP")
    ∷ ("nodeinfo", "NODEINFO_APP")
    ∷ ("position", "POSITION_APP")
    ∷ ("waypoint", "WAYPOINT_APP")
    ∷ ("neighborinfo", "NEIGHBORINFO_APP")
    ∷ ("traceroute", "TRACEROUTE_APP")
    ∷ ("detection", "DETECTION_SENSOR_APP")
    ∷ ("paxcounter", "PAXCOUNTER_APP")
    ∷ ("gpios_changed", "REMOTE_HARDWARE_APP")
    ∷ ("gpios_read_reply", "REMOTE_HARDWARE_APP")
    ∷ []

unfoldable pub lookup : List (String × String) → String → Option String
lookup [] k = none
lookup ((j, v) ∷ m) k = if j == k then some v else lookup m k

-- `isinstance(v, dict)` and `isinstance(v, str)`, of `d.get(key)`.
abbrev pub as_dict : Option Value → Option Fields
as_dict (some (obj d)) = some d
as_dict _ = none

abbrev pub as_text : Option Value → Option String
as_text (some (str s)) = some s
as_text _ = none

-- `payload.decoded.portnum`
unfoldable pub nested_portnum : Fields → Option String
nested_portnum d = do
  nested ← as_dict (get d "payload")
  decoded ← as_dict (get nested "decoded")
  as_text (get decoded "portnum")

unfoldable pub typed_portnum : Casing → Fields → Option String
typed_portnum casing d = do
  type_str ← as_text (get d "type")
  lookup type_table (casing.lower type_str)

abbrev pub first : {A : Type 0} → Option A → Option A → Option A
first (some s) rest = some s
first none rest = rest

pub first-some :
    {A : Type 0} (a b : Option A) (v : A)
    → first a b ≡ some v
    → (a ≡ some v) ⊎ ((a ≡ none) × (b ≡ some v))
first-some none b v h = inr (refl, h)
first-some (some s) b v h = inl h

unfoldable pub dict_portnum : Casing → Fields → Option String
dict_portnum casing d =
    first (nested_portnum d) (first (as_text (get d "portnum")) (typed_portnum casing d))

unfoldable pub extract_portnum_json : JsonCodec → Casing → Bytes → Option String
extract_portnum_json json casing payload = do
  d ← as_dict (json.loads payload)
  dict_portnum casing d

-- A Python int; a Boolean is one too, and any other value raises a TypeError under `&`.
abbrev pub as_int : Value → Option ℤ
as_int (int z) = some z
as_int (bool true) = some (pos 1)
as_int (bool false) = some (pos 0)
as_int _ = none

abbrev pub or_zero : Option Value → Value
or_zero none = int (pos 0)
or_zero (some v) = if truthy v then v else int (pos 0)

module _ {Envelope Packet : Type 0} (proto : Meshtastic Envelope Packet) where
  -- `fields.get("from") or fields.get("from_")`
  unfoldable pub from_descriptor : Packet → Option String
  from_descriptor pkt = first (proto.descriptor pkt "from") (proto.descriptor pkt "from_")

  -- `getattr(pkt, field.name, …)`, if there is a field.
  abbrev pub named_attribute : Packet → Option String → Option Value
  named_attribute pkt none = none
  named_attribute pkt (some name) = proto.attribute pkt name

  -- _read_from_field
  unfoldable pub read_from_field : Packet → Value
  read_from_field pkt = or_zero (named_attribute pkt (from_descriptor pkt))

  -- The steps between the import and the name; an exception at any of them gives None.
  unfoldable pub packet_portnum : Aes → Packet → Option String
  packet_portnum aes pkt = do
    ciphertext ← proto.encrypted pkt
    from_node ← as_int (read_from_field pkt)
    packet_id ← (do id ← proto.attribute pkt "id"; as_int id)
    plaintext ← decrypt aes ciphertext packet_id from_node default_key
    number ← proto.parse_data plaintext
    proto.portnum_name number

  unfoldable pub extract_portnum_protobuf : Aes → Bytes → Option String
  extract_portnum_protobuf aes payload =
      if proto.importable
      then (do env ← proto.parse payload; pkt ← proto.packet env; packet_portnum aes pkt)
      else none
