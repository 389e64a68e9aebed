-- ===== src/Portnum/Tests.antt =====
-- Payloads of src/floodgate/portnum.py, read.
use floodgate.Common.{ℕ, true, some, [], ◌∷◌, ◌≡◌, ◌↔◌}
use floodgate.Value.{Fields, obj}
use floodgate.Samples.{json, proto, aes, same_case}
use floodgate.Portnum.{extract_portnum_json, extract_portnum_protobuf}
use floodgate.Portnum.Json.{Names, extract_portnum_json_iff}
use floodgate.Portnum.Protobuf.{IsEncrypted, extract_portnum_protobuf_iff}

extract_portnum_json_iff_example :
    (extract_portnum_json json same_case (5 ∷ []) ≡ some "TEXT_MESSAGE_APP")
    ↔ ((d : Fields) × (json.loads (5 ∷ []) ≡ some (obj d)) × Names same_case d "TEXT_MESSAGE_APP")
extract_portnum_json_iff_example =
    extract_portnum_json_iff json same_case (5 ∷ []) "TEXT_MESSAGE_APP"

extract_portnum_protobuf_iff_example :
    (extract_portnum_protobuf proto aes (5 ∷ []) ≡ some "TEXT_MESSAGE_APP") ↔ (
      (proto.importable ≡ true)
      × ((env : ℕ) × (pkt : ℕ) × (number : ℕ) × (proto.parse (5 ∷ []) ≡ some env)
          × (proto.packet env ≡ some pkt)
          × IsEncrypted proto aes pkt number
          × (proto.portnum_name number ≡ some "TEXT_MESSAGE_APP")))
extract_portnum_protobuf_iff_example =
    extract_portnum_protobuf_iff proto aes (5 ∷ []) "TEXT_MESSAGE_APP"
