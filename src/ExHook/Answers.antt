-- ===== src/ExHook/Answers.antt =====
-- What EMQX is answered: exactly when a publish is denied, when its payload is replaced, and when it
-- is left alone; and what it is asked to hook.
use floodgate.Common.{
  String, Option, some, [], ◌∷◌, ◌≡◌, ◌≢◌, refl, sym, ◌∙◌, inl, inr, arith, Option-cases,
}
use floodgate.Bytes.{Bytes}
use floodgate.Value.{str, Fields, get}
use floodgate.Config.{Config, item}
use floodgate.Config.Load.{Machine}
use floodgate.Config.Valid.Loads.{Loads}
use floodgate.Config.Policy.Loaded.{kept}
use floodgate.Service.{Service}
use floodgate.Process.{World}
use floodgate.Process.Laws.{passthru_ne_drop, passthru_ne_modify}
use floodgate.Process.Laws.Drops.{IsToDrop, process_message-drop_iff}
use floodgate.Process.Laws.Modifies.{IsToModify, process_message-modify_iff}
use floodgate.Process.Results.{process_message-IsResult}
use floodgate.ExHook.{
  Message, ValuedResponse, ignore, stop_and_return, no_value, message, denied, respond,
  on_message_publish, on_provider_loaded,
}

module _ {Envelope Packet : Type 0} (world : World Envelope Packet) where
  -- The answer to a publish: to one that is to be dropped, to one that is to be modified, and to any
  -- other.
  pub data Answers (config : Config) (msg : Message) : ValuedResponse → Type 0 where
    denies :
        IsToDrop world msg.topic msg.payload config
        → Answers config msg (record { type = stop_and_return; value = message (denied msg) })
    replaces :
        (bytes : Bytes)
        → IsToModify world msg.topic msg.payload bytes config
        → Answers config msg
            (record { type = stop_and_return; value = message (record msg { payload = bytes }) })
    ignores :
        ¬ IsToDrop world msg.topic msg.payload config
        → ((bytes : Bytes) → ¬ IsToModify world msg.topic msg.payload bytes config)
        → Answers config msg (record { type = ignore; value = no_value })

  -- OnMessagePublish never raises. It denies a message that is to be dropped by the header
  -- `allow_publish: false`, answers one that is to be modified with its payload replaced, all its
  -- other fields kept, and ignores every other.
  pub on_message_publish-Answers :
      (config : Config) (msg : Message) (s : Service)
      → (r : ValuedResponse) × ((on_message_publish world config msg s).0 ≡ some r)
        × Answers config msg r
  unfolding on_message_publish respond
  on_message_publish-Answers config msg s =
      elim (process_message-IsResult world msg.topic msg.payload config s) [
        | inl e ↦ (
          _,
          rw e refl,
          ignores
              (λ d.
                passthru_ne_drop
                  (sym e ∙ (process_message-drop_iff world msg.topic msg.payload config s).1 d))
              (λ bytes m. passthru_ne_modify (some bytes) (
                sym e
                ∙ (process_message-modify_iff world msg.topic msg.payload bytes config s).1 m)),
        )
        | inr (inl e) ↦ (
          _,
          rw e refl,
          denies ((process_message-drop_iff world msg.topic msg.payload config s).0 e),
        )
        | inr (inr (bytes, e)) ↦ (
          _,
          rw e refl,
          replaces bytes
              ((process_message-modify_iff world msg.topic msg.payload bytes config s).0 e),
        )
      ]

get-text : (d : Fields) (k s : String) → item d k ≡ str s → get d k ≡ some (str s)
get-text d k s h = elim (Option-cases (get d k)) [
  | inl absent ↦ ground (arith, absent)
  | inr (v, present) ↦ ground (arith, present)
]

-- Under a loaded configuration OnProviderLoaded never raises: it asks for the publish hook on the
-- configured topic filter, which is not empty.
pub on_provider_loaded-hooks :
    (machine : Machine) (config_path : Option String) (c : Config) (l : Loads machine config_path c)
    → (topic_filter : String) × (topic_filter ≢ "")
      × (item l.values "topic_filter" ≡ str topic_filter)
      × (on_provider_loaded c
          ≡ some (record { name = "message.publish"; topics = topic_filter ∷ [] } ∷ []))
unfolding on_provider_loaded
on_provider_loaded-hooks machine config_path c l =
    let (f, e, n) = l.accepts.topic_filter in
    (
      f,
      n,
      e,
      rw (
        kept machine config_path c l "topic_filter" refl refl,
        get-text l.values "topic_filter" f e,
      ),
    )
