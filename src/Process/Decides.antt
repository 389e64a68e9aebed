-- ===== src/Process/Decides.antt =====
-- Under a loaded configuration the drop check of src/floodgate/zerohop.py always decides.
use floodgate.Common.{
  String, Bool, true, false, Option, none, some, ◌≡◌, refl, inl, inr, ◌==◌, Bool-cases,
}
use floodgate.Bytes.{Bytes}
use floodgate.Value.{truthy}
use floodgate.Config.{Config}
use floodgate.Config.Load.{Machine}
use floodgate.Config.Policy.Loaded.{should_drop_iff}
use floodgate.Config.Valid.Loads.{Loads}
use floodgate.Zerohop.{zerohop_protobuf, extract_proto_meta, peek_meta}
use floodgate.Process.Describe.{meta_get}
use floodgate.Process.{World, drop_check, zerohop_of, portnum_of}

module _ {Envelope Packet : Type 0} (world : World Envelope Packet) where
  pub drop_check-decides :
      (machine : Machine) (config_path : Option String) (config : Config)
      → Loads machine config_path config
      → (channel encoding : String) (payload : Bytes)
      → (d : Bool × Option String) × (drop_check world config channel encoding payload ≡ some d)
  unfolding drop_check
  drop_check-decides machine config_path config l channel encoding payload =
      let portnum = portnum_of world encoding payload in
      let (b, e) = (should_drop_iff machine config_path config l channel portnum).0 in
      elim (Bool-cases (truthy (meta_get config.values "drop_enabled"))) [
        | inl on ↦ ((b, portnum), rw (on, e) refl)
        | inr off ↦ ((false, none), rw off refl)
      ]

  pub zerohop_of-protobuf :
      (encoding : String) (payload : Bytes)
      → (encoding == "json") ≡ false
      → zerohop_of world encoding payload ≡ zerohop_protobuf world.proto payload
  unfolding zerohop_of
  zerohop_of-protobuf encoding payload e = rw e

  pub peek_meta-protobuf :
      (encoding : String) (payload : Bytes) (env : Envelope) (pkt : Packet)
      → (encoding == "json") ≡ false
      → world.proto.importable ≡ true
      → world.proto.parse payload ≡ some env
      → world.proto.packet env ≡ some pkt
      → peek_meta world.proto world.json encoding payload ≡ extract_proto_meta world.proto pkt
  unfolding peek_meta
  peek_meta-protobuf encoding payload env pkt j i e p = rw j (simp i (rw (e, p) refl))
