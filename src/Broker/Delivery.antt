-- ===== src/Broker/Delivery.antt =====
-- What is delivered, from what process_message of src/floodgate/zerohop.py says.
use floodgate.Common.{
  String, none, some, List, [], ◌∷◌, ◌≡◌, refl, arith, ◌==◌, eq_iff, if◌then◌else◌,
}
use floodgate.Bytes.{Bytes}
use floodgate.Config.{Config}
use floodgate.Portnum.{lookup}
use floodgate.Service.{Service}
use floodgate.Process.{passthru, modify, drop, World, process_message}
use floodgate.ExHook.{Message, set_header, denied, respond, on_message_publish}
use floodgate.Broker.{Broker, in_time, too_late, IsAllowed, delivered}

pub lookup-set_header :
    (headers : List (String × String)) (k v j : String)
    → lookup (set_header headers k v) j ≡ (if k == j then some v else lookup headers j)
unfolding lookup set_header
lookup-set_header [] k v j = refl
lookup-set_header ((i, w) ∷ headers) k v j =
    ground (arith, eq_iff k j, eq_iff i k, eq_iff i j, lookup-set_header headers k v j)

lookup-denied : (msg : Message) → lookup (denied msg).headers "allow_publish" ≡ some "false"
lookup-denied msg = lookup-set_header msg.headers "allow_publish" "false" "allow_publish"

module _ {Envelope Packet : Type 0} (broker : Broker) (world : World Envelope Packet)
    (config : Config) (msg : Message) (s : Service) where
  pub delivered-passthru :
      IsAllowed msg
      → (process_message world msg.topic msg.payload config s).0 ≡ passthru
      → delivered broker world config in_time msg s ≡ some msg
  unfolding delivered on_message_publish respond
  delivered-passthru a e = rw e (broker.ignored msg a)

  pub delivered-late : IsAllowed msg → delivered broker world config too_late msg s ≡ some msg
  unfolding delivered
  delivered-late a = broker.unmodified msg a

  pub delivered-drop :
      (process_message world msg.topic msg.payload config s).0 ≡ drop
      → delivered broker world config in_time msg s ≡ none
  unfolding delivered on_message_publish respond
  delivered-drop e = rw e (broker.denied msg (denied msg) (lookup-denied msg))

  pub delivered-modify :
      (bytes : Bytes)
      → IsAllowed msg
      → (process_message world msg.topic msg.payload config s).0 ≡ modify (some bytes)
      → delivered broker world config in_time msg s ≡ some (record msg { payload = bytes })
  unfolding delivered on_message_publish respond
  delivered-modify bytes a e = rw e (broker.replaced msg (record msg { payload = bytes }) a)
