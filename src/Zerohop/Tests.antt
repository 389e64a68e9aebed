-- ===== src/Zerohop/Tests.antt =====
-- Payloads of src/floodgate/zerohop.py, zeroed.
use floodgate.Common.{inl, inr, ◌≢◌, arith, some, none, [], ◌∷◌, ◌≡◌, ◌↔◌, refl}
use floodgate.Value.{Fields, obj, get, insert}
use floodgate.Value.Int.{pos}
use floodgate.Portnum.{extract_portnum_protobuf}
use floodgate.Samples.{json, proto, aes, message}
use floodgate.Zerohop.{
  json_meta, has_bad_hops, json_hops, zerohop_dict, zerohop_json, zerohop_protobuf,
  extract_proto_meta, zerohop_packet, failed,
}
use floodgate.Zerohop.Hops.{HopsAreInts, EffectiveHops, own}
use floodgate.Zerohop.Json.{IsZeroed, zerohop_json-IsZeroed, zeroed}
use floodgate.Zerohop.Json.Branches.{
  zerohop_json_again, zerohop_json-failed_iff, zerohop_json-zeroed,
}
use floodgate.Zerohop.Protobuf.{
  IsZeroedEnvelope, zerohop_protobuf-IsZeroedEnvelope, zerohop_protobuf_again,
  extract_portnum-zerohop,
}

json_zeroed : zerohop_json json (5 ∷ []) ≡ some (some (0 ∷ []), some (pos 5), json_meta (message 5))
unfolding zerohop_json zerohop_dict has_bad_hops json_hops get insert
json_zeroed = refl

zerohop_json-IsZeroed_example : IsZeroed json (5 ∷ []) (0 ∷ []) (pos 5) (json_meta (message 5))
zerohop_json-IsZeroed_example =
    zerohop_json-IsZeroed json (5 ∷ []) (0 ∷ []) (pos 5) (json_meta (message 5)) json_zeroed

zerohop_json_again_example :
    zerohop_json json (0 ∷ []) ≡ some (none, some (pos 0), json_meta (message 5))
zerohop_json_again_example =
    zerohop_json_again json (5 ∷ []) (0 ∷ []) (pos 5) (json_meta (message 5)) json_zeroed

zerohop_json-failed_iff_example :
    (zerohop_json json (5 ∷ []) ≡ some failed)
    ↔ ((d : Fields) → json.loads (5 ∷ []) ≡ some (obj d) → ¬ HopsAreInts d)
zerohop_json-failed_iff_example = zerohop_json-failed_iff json (5 ∷ [])

protobuf_zeroed :
    zerohop_protobuf proto (5 ∷ []) ≡ some (some (0 ∷ []), some (pos 5), extract_proto_meta proto 5)
unfolding zerohop_protobuf zerohop_packet
protobuf_zeroed = refl

zerohop_protobuf-IsZeroedEnvelope_example :
    IsZeroedEnvelope proto (5 ∷ []) (0 ∷ []) (pos 5) (extract_proto_meta proto 5)
zerohop_protobuf-IsZeroedEnvelope_example =
    zerohop_protobuf-IsZeroedEnvelope proto (5 ∷ []) (0 ∷ []) (pos 5) (extract_proto_meta proto 5)
      protobuf_zeroed

zerohop_protobuf_again_example :
    zerohop_protobuf proto (0 ∷ []) ≡ some (none, some (pos 0), extract_proto_meta proto 5)
zerohop_protobuf_again_example =
    zerohop_protobuf_again proto (5 ∷ []) (0 ∷ []) (pos 5) (extract_proto_meta proto 5)
      protobuf_zeroed

extract_portnum-zerohop_example :
    extract_portnum_protobuf proto aes (0 ∷ []) ≡ extract_portnum_protobuf proto aes (5 ∷ [])
extract_portnum-zerohop_example =
    extract_portnum-zerohop proto aes (5 ∷ []) (0 ∷ []) (pos 5) (extract_proto_meta proto 5)
      protobuf_zeroed

hops_are_ints : HopsAreInts (message 5)
unfolding get
hops_are_ints = record { hop_limit = inr (pos 5, refl); hop_start = inl refl; hops_away = inl refl }

five_hops : EffectiveHops (message 5) (pos 5)
unfolding get
five_hops = own (pos 5) refl

some_hops : pos 5 ≢ pos 0
some_hops e = ground (arith, e)

dumped_to : json.dumps (obj (zeroed (message 5))) ≡ some (0 ∷ [])
unfolding insert
dumped_to = refl

zerohop_json-zeroed_example :
    (zerohop_json json (5 ∷ []) ≡ some (some (0 ∷ []), some (pos 5), json_meta (message 5)))
    × (json.loads (0 ∷ []) ≡ some (obj (zeroed (message 5))))
zerohop_json-zeroed_example =
    zerohop_json-zeroed json (5 ∷ []) (0 ∷ []) (message 5) (pos 5) refl hops_are_ints five_hops
      some_hops dumped_to
