-- ===== src/Proto.antt =====
-- The generated Meshtastic protobuf classes, as the code uses them. Their source is not part of the
-- repository: this is the interface that the model takes as a parameter.
use floodgate.Common.{ℕ, String, Bool, Option, some, ◌≡◌, ◌≢◌}
use floodgate.Bytes.{Bytes}
use floodgate.Value.{Value}

-- `importable` says whether the modules can be imported. `parse` is ServiceEnvelope's
-- ParseFromString, `none` where it raises. `packet` is the envelope's packet, if HasField says that
-- it has one. `attribute` is `getattr(pkt, name, None)`, with `none` for None and for an exception,
-- and `descriptor` the name of a field in DESCRIPTOR.fields_by_name, which is its key. `encrypted` is the encrypted
-- variant, if WhichOneof says that it is set. `zero_hop` sets `packet.hop_limit` to 0: documented to
-- change that field and no other. `parse_data` is the portnum of a parsed Data message, and
-- `portnum_name` is PortNum.Name.
pub record Meshtastic (Envelope Packet : Type 0) : Type 0 where
  pub importable : Bool
  pub parse : Bytes → Option Envelope
  pub serialize : Envelope → Bytes
  pub packet : Envelope → Option Packet
  pub hop_limit : Packet → ℕ
  pub attribute : Packet → String → Option Value
  pub descriptor : Packet → String → Option String
  pub encrypted : Packet → Option Bytes
  pub zero_hop : Envelope → Envelope
  pub parse_data : Bytes → Option ℕ
  pub portnum_name : ℕ → Option String
  pub descriptor_name : (p : Packet) (key name : String) → descriptor p key ≡ some name → name ≡ key
  pub parse-serialize : (e : Envelope) → parse (serialize e) ≡ some e
  pub zeroed : Packet → Packet
  pub packet-zero_hop :
      (e : Envelope) (p : Packet) → packet e ≡ some p → packet (zero_hop e) ≡ some (zeroed p)
  pub hop_limit-zeroed : (p : Packet) → hop_limit (zeroed p) ≡ 0
  pub attribute-zeroed :
      (p : Packet) (name : String)
      → name ≢ "hop_limit"
      → attribute (zeroed p) name ≡ attribute p name
  pub descriptor-zeroed :
      (p : Packet) (name : String) → descriptor (zeroed p) name ≡ descriptor p name
  pub encrypted-zeroed : (p : Packet) → encrypted (zeroed p) ≡ encrypted p
