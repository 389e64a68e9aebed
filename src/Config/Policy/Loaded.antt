-- ===== src/Config/Policy/Loaded.antt =====
-- What the two filters decide under a loaded configuration.
use floodgate.Common.{
  String, Bool, true, false, ◌&&◌, Option, none, some, List, ◌≡◌, ◌↔◌, refl, ap, ◌∙◌, arith,
  if◌then◌else◌, inl, inr, ◌==◌, Option-cases,
}
use floodgate.Common.Text.{contains}
use floodgate.Value.{bool, get, truthy, Fields}
use floodgate.Value.Laws.{get-insert}
use floodgate.Config.{Config, item}
use floodgate.Config.Policy.{should_zerohop, should_drop, in_drop_scope}
use floodgate.Config.Load.{Machine}
use floodgate.Config.Valid.Loads.{Loads}

pub get-bool : (d : Fields) (k : String) (b : Bool) → item d k ≡ bool b → get d k ≡ some (bool b)
get-bool d k b h = elim (Option-cases (get d k)) [
  | inl absent ↦ ground (arith, absent)
  | inr (v, present) ↦ ground (arith, present)
]

abbrev pub named_in_scope : List String → Option (List String) → String → Option String → Bool
named_in_scope names scope channel none = false
named_in_scope names scope channel (some name) = contains names name && in_drop_scope scope channel

abbrev pub InScope : Option (List String) → String → Type 0
InScope none channel = Unit
InScope (some channels) channel = contains channels channel ≡ true

InScope-iff :
    (scope : Option (List String)) (channel : String)
    → (in_drop_scope scope channel ≡ true) ↔ InScope scope channel
InScope-iff none channel = (λ _. tt, λ _. refl)
InScope-iff (some channels) channel = (λ h. h, λ h. h)

module _ (machine : Machine) (config_path : Option String) (c : Config)
    (l : Loads machine config_path c) where
  -- A key other than the two that are normalised has the value of the merged dict.
  pub kept :
      (k : String)
      → ("log_level" == k) ≡ false
      → ("log_format" == k) ≡ false
      → get c.values k ≡ get l.values k
  kept k h g = rw l.result (rw (get-insert, g, get-insert, h))

  pub zerohop_value :
      (channel : String)
      → should_zerohop c channel
        ≡ some (if l.accepts.zerohop_enabled.0 then contains l.zerohop channel else false)
  unfolding should_zerohop truthy
  zerohop_value channel =
      let (b, e) = l.accepts.zerohop_enabled in
      let found = kept "zerohop_enabled" refl refl ∙ get-bool l.values "zerohop_enabled" b e in
      let set : c.zerohop_channels_set ≡ some l.zerohop =
        ap (λ (x : Config). x.zerohop_channels_set) l.result in
      rw (found, set) (ground arith)

  pub drop_value :
      (channel : String) (portnum : Option String)
      → should_drop c channel portnum
        ≡ some (
            if l.accepts.drop_enabled.0
            then named_in_scope l.names l.scope channel portnum
            else false)
  unfolding should_drop truthy
  drop_value channel portnum =
      let (b, e) = l.accepts.drop_enabled in
      let found = kept "drop_enabled" refl refl ∙ get-bool l.values "drop_enabled" b e in
      let names : c.drop_portnums_set ≡ some l.names =
        ap (λ (x : Config). x.drop_portnums_set) l.result in
      let scope : c.drop_channels_set ≡ some l.scope =
        ap (λ (x : Config). x.drop_channels_set) l.result in
      rw (found) (ground (arith, names, scope))

  -- Under a loaded configuration should_zerohop always answers, and says yes exactly if
  -- `zerohop_enabled` is true and the channel is one of the zero-hop channels.
  pub should_zerohop_iff :
      (channel : String)
      → ((b : Bool) × (should_zerohop c channel ≡ some b))
        × ((should_zerohop c channel ≡ some true)
            ↔ ((item l.values "zerohop_enabled" ≡ bool true) × (contains l.zerohop channel ≡ true)))
  should_zerohop_iff channel =
      let v = zerohop_value channel in
      let e = l.accepts.zerohop_enabled.1 in
      ((_, v), (λ h. (ground (arith, v, e), ground (arith, v, e)), λ h. ground (arith, v, e)))

  -- Under a loaded configuration should_drop always answers, and says yes exactly if `drop_enabled`
  -- is true, the portnum is known and among the names to drop, and the channel is in the scope,
  -- where the scope None has every channel.
  pub should_drop_iff :
      (channel : String) (portnum : Option String)
      → ((b : Bool) × (should_drop c channel portnum ≡ some b))
        × ((should_drop c channel portnum ≡ some true) ↔ (
            (item l.values "drop_enabled" ≡ bool true)
            × ((name : String) × (portnum ≡ some name) × (contains l.names name ≡ true))
            × InScope l.scope channel))
  should_drop_iff channel none =
      let v = drop_value channel none in
      let e = l.accepts.drop_enabled.1 in
      ((_, v), (λ h. absurd (ground (arith, v, e)), λ h. cc (h.1.1)))
  should_drop_iff channel (some name) =
      let v = drop_value channel (some name) in
      let e = l.accepts.drop_enabled.1 in
      (
        (_, v),
        (
          λ h. (
            ground (arith, v, e),
            (name, refl, ground (arith, v, e)),
            (InScope-iff l.scope channel).0 (ground (arith, v, e)),
          ),
          λ h.
              let inside = (InScope-iff l.scope channel).1 h.2 in
              let listed : contains l.names name ≡ true = ground (arith, h.1.1, h.1.2) in
              ground (arith, v, e, h.0),
        ),
      )
