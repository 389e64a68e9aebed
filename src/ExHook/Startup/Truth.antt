-- ===== src/ExHook/Startup/Truth.antt =====
-- What the startup lines of src/floodgate/exhook_server.py say is what the two filters do.
use Prim.Native.String
use floodgate.Config.Validate.{sorted}
use floodgate.Common.{
  String, Bool, true, false, Option, none, some, List, [], ◌∷◌, ◌++◌, ◌≡◌, ◌↔◌, arith, refl, ap,
  ◌∙◌, inl, inr, ◌⊎◌, or_else, if◌then◌else◌, ◌==◌,
}
use floodgate.Common.Text.{contains}
use floodgate.Value.{Value, null, bool, str, arr, nil, get, truthy}
use floodgate.Config.{Config, item}
use floodgate.Config.Policy.{should_zerohop, should_drop}
use floodgate.Config.Policy.Loaded.{kept, get-bool, zerohop_value, drop_value, named_in_scope}
use floodgate.Config.Load.{Machine}
use floodgate.Config.Valid.{items_of, Denotes}
use floodgate.Config.Valid.Loads.{Loads}
use floodgate.Service.{Level, info, warning}
use floodgate.ExHook.Startup.Shown.{IsJoined, join-IsJoined, contains-sorted}
use floodgate.ExHook.Startup.{
  topic_line, interval_line, outcomes_line, Line, join, all_texts, iterated, listed,
  format_drop_channel_scope, say_zerohop, say_drop, log_startup_policy, zerohop_disabled,
  zerohop_empty, zerohop_on, drop_disabled, drop_empty, drop_on,
}

-- What a line about zero-hopping says, and what it then means.
pub data TellsZeroHop (config : Config) : List Line → Type 0 where
  none_zero_hopped :
      (message : String)
      → (message ≡ zerohop_disabled) ⊎ (message ≡ zerohop_empty)
      → ((channel : String) → should_zerohop config channel ≡ some false)
      → TellsZeroHop config (record { level = info; message = message; args = [] } ∷ [])
  zero_hopped_on :
      (channels : List String) (shown : String)
      → IsJoined channels shown
      → ((channel : String) → should_zerohop config channel ≡ some (contains channels channel))
      → TellsZeroHop config
          (record { level = info; message = zerohop_on; args = str shown ∷ [] } ∷ [])

-- A portnum that could be read and is in a list.
abbrev IsNamed : List String → Option String → Type 0
IsNamed names none = ⊥
IsNamed names (some name) = contains names name ≡ true

pub data TellsDrop (config : Config) : List Line → Type 0 where
  none_dropped :
      (level : Level) (message : String)
      → ((level ≡ info) × (message ≡ drop_disabled)) ⊎ ((level ≡ warning) × (message ≡ drop_empty))
      → ((channel : String) (portnum : Option String)
          → should_drop config channel portnum ≡ some false)
      → TellsDrop config (record { level = level; message = message; args = [] } ∷ [])
  dropped_everywhere :
      (names : List String) (shown : String)
      → IsJoined names shown
      → ((channel : String) (portnum : Option String)
          → (should_drop config channel portnum ≡ some true) ↔ IsNamed names portnum)
      → TellsDrop config (
          record { level = info; message = drop_on; args = str shown ∷ str "all channels" ∷ [] }
          ∷ [])
  dropped_on :
      (names channels : List String) (shown scope : String)
      → IsJoined names shown
      → IsJoined channels scope
      → ((channel : String) (portnum : Option String)
          → (should_drop config channel portnum ≡ some true)
            ↔ (IsNamed names portnum × (contains channels channel ≡ true)))
      → TellsDrop config (
          record {
            level = info;
            message = drop_on;
            args = str shown ∷ str (String.◌++◌ "channels [" (String.◌++◌ scope "]")) ∷ [];
          }
          ∷ [])

everywhere :
    (names : List String) (channel : String) (portnum : Option String) (o : Option Bool)
    → o ≡ some (named_in_scope names none channel portnum)
    → (o ≡ some true) ↔ IsNamed names portnum
everywhere names channel none o e = (λ h. ground (arith, e, h), λ h. absurd h)
everywhere names channel (some name) o e = (λ h. ground (arith, e, h), λ h. ground (arith, e, h))

within :
    (names channels : List String) (channel : String) (portnum : Option String) (o : Option Bool)
    → o ≡ some (named_in_scope names (some channels) channel portnum)
    → (o ≡ some true) ↔ (IsNamed names portnum × (contains (sorted channels) channel ≡ true))
within names channels channel none o e = (λ h. ground (arith, e, h), λ (h, k). absurd h)
within names channels channel (some name) o e = (
  λ h. ground (arith, e, h, contains-sorted channels channel),
  λ (h, k). ground (arith, e, h, k, contains-sorted channels channel),
)

all_texts-items_of : (names : List String) → all_texts (items_of names) ≡ some names
unfolding all_texts
all_texts-items_of [] = refl
all_texts-items_of (n ∷ names) = rw (all_texts-items_of names) refl

items-listed :
    (names : List String)
    → (if truthy (arr (items_of names)) then arr (items_of names) else arr nil)
      ≡ arr (items_of names)
unfolding truthy
items-listed [] = refl
items-listed (n ∷ names) = refl

-- The list that stands for some names.
Denotes-listed :
    (found : Option Value) (names : List String)
    → Denotes (or_else found null) names
    → (if truthy (or_else found (arr nil)) then or_else found (arr nil) else arr nil)
      ≡ arr (items_of names)
unfolding truthy
Denotes-listed none names (inl (e, f)) = rw f refl
Denotes-listed none names (inr e) = cc
Denotes-listed (some v) names (inl (e, f)) = rw (e, f) refl
Denotes-listed (some v) names (inr e) = rw e (items-listed names)

nothing_named :
    (scope : Option (List String)) (channel : String) (portnum : Option String)
    → named_in_scope [] scope channel portnum ≡ false
unfolding contains
nothing_named scope channel none = refl
nothing_named scope channel (some name) = refl

module _ (c : Config) where
  tell_zerohop :
      (b : Bool) (channels : List String)
      → truthy (or_else (get c.values "zerohop_enabled") (bool true)) ≡ b
      → listed c "zerohop_channels" ≡ arr (items_of channels)
      → ((channel : String)
          → should_zerohop c channel ≡ some (if b then contains channels channel else false))
      → (lines : List Line) × ((say_zerohop c ≡ (true, lines)) × TellsZeroHop c lines)
  unfolding say_zerohop truthy iterated contains all_texts join
  tell_zerohop false channels e f v =
      (_, (rw e refl, none_zero_hopped zerohop_disabled (inl refl) v))
  tell_zerohop true [] e f v = (_, (rw (e, f) refl, none_zero_hopped zerohop_empty (inr refl) v))
  tell_zerohop true (n ∷ channels) e f v = (
    _,
    (
      rw (e, f, all_texts-items_of channels) refl,
      zero_hopped_on (n ∷ channels) _ (join-IsJoined (n ∷ channels)) v,
    ),
  )

  tell_drop :
      (b : Bool) (names : List String) (scope : Option (List String))
      → truthy (or_else (get c.values "drop_enabled") (bool false)) ≡ b
      → listed c "drop_portnums" ≡ arr (items_of names)
      → c.drop_channels_set ≡ some scope
      → ((channel : String) (portnum : Option String)
          → should_drop c channel portnum
            ≡ some (if b then named_in_scope names scope channel portnum else false))
      → (lines : List Line) × ((say_drop c ≡ (true, lines)) × TellsDrop c lines)
  unfolding say_drop truthy iterated contains format_drop_channel_scope all_texts join
  tell_drop false names scope e f g v =
      (_, (rw e refl, none_dropped info drop_disabled (inl (refl, refl)) v))
  tell_drop true [] scope e f g v = (
    _,
    (
      rw (e, f) refl,
      none_dropped warning drop_empty (inr (refl, refl))
          λ channel portnum. v channel portnum ∙ ap some (nothing_named scope channel portnum),
    ),
  )
  tell_drop true (n ∷ names) none e f g v = (
    _,
    (
      rw (e, f, g, all_texts-items_of names) refl,
      dropped_everywhere (n ∷ names) _ (join-IsJoined (n ∷ names))
          λ channel portnum. everywhere (n ∷ names) channel portnum _ (v channel portnum),
    ),
  )
  tell_drop true (n ∷ names) (some channels) e f g v = (
    _,
    (
      rw (e, f, g, all_texts-items_of names) refl,
      dropped_on (n ∷ names) (sorted channels) _ _ (join-IsJoined (n ∷ names))
          (join-IsJoined (sorted channels))
          λ channel portnum. within (n ∷ names) channels channel portnum _ (v channel portnum),
    ),
  )

-- The startup lines of a configuration, where its code gets to its end.
pub record Announced (c : Config) : Type 0 where
  pub zerohop_lines : List Line
  pub drop_lines : List Line
  pub said : log_startup_policy c ≡ (
    true,
    topic_line c ∷ (zerohop_lines ++ (drop_lines ++ interval_line c ∷ outcomes_line ∷ [])),
  )
  pub tells_zerohop : TellsZeroHop c zerohop_lines
  pub tells_drop : TellsDrop c drop_lines

announce :
    (c : Config) (z d : List Line)
    → say_zerohop c ≡ (true, z)
    → say_drop c ≡ (true, d)
    → TellsZeroHop c z
    → TellsDrop c d
    → Announced c
unfolding log_startup_policy
announce c z d e f tz td = record {
  zerohop_lines = z;
  drop_lines = d;
  said = rw (e, f) refl;
  tells_zerohop = tz;
  tells_drop = td;
}

module _ (machine : Machine) (config_path : Option String) (c : Config)
    (l : Loads machine config_path c) where
  kept_list :
      (key : String) (names : List String)
      → ("log_level" == key) ≡ false
      → ("log_format" == key) ≡ false
      → Denotes (item l.values key) names
      → listed c key ≡ arr (items_of names)
  kept_list key names h g d =
      rw (kept machine config_path c l key h g) (Denotes-listed (get l.values key) names d)

  -- A configuration with the loaded one's values, but for the log level, and with its policy.
  pub same_policy-Announced :
      (c' : Config)
      → ((k : String) → ("log_level" == k) ≡ false → get c'.values k ≡ get c.values k)
      → c'.drop_channels_set ≡ c.drop_channels_set
      → ((channel : String) → should_zerohop c' channel ≡ should_zerohop c channel)
      → ((channel : String) (portnum : Option String)
          → should_drop c' channel portnum ≡ should_drop c channel portnum)
      → Announced c'
  unfolding truthy
  same_policy-Announced c' same same_set zerohops drops =
      let (bz, ez) = l.accepts.zerohop_enabled in
      let (bd, ed) = l.accepts.drop_enabled in
      let scope : c.drop_channels_set ≡ some l.scope =
        ap (λ (x : Config). x.drop_channels_set) l.result in
      let (z, (e, tz)) =
        tell_zerohop c' bz l.zerohop
          (ap (λ g. truthy (or_else g (bool true)))
            (same "zerohop_enabled" refl
              ∙ kept machine config_path c l "zerohop_enabled" refl refl
              ∙ get-bool l.values "zerohop_enabled" bz ez))
          (rw (same "zerohop_channels" refl)
            (kept_list "zerohop_channels" l.zerohop refl refl l.accepts.zerohop_channels))
          (λ channel. zerohops channel ∙ zerohop_value machine config_path c l channel) in
      let (d, (f, td)) =
        tell_drop c' bd l.names l.scope
          (ap (λ g. truthy (or_else g (bool false)))
            (same "drop_enabled" refl
              ∙ kept machine config_path c l "drop_enabled" refl refl
              ∙ get-bool l.values "drop_enabled" bd ed))
          (rw (same "drop_portnums" refl)
            (kept_list "drop_portnums" l.names refl refl l.accepts.drop_portnums))
          (same_set ∙ scope)
          (λ channel portnum.
            drops channel portnum ∙ drop_value machine config_path c l channel portnum) in
      announce c' z d e f tz td

  -- Under a loaded configuration the startup lines are logged to the last, and what they say holds:
  -- where they say that zero-hopping is disabled or has no channels, no channel is zero-hopped, and
  -- otherwise the channels that are listed are; where they say that the drop filter is disabled or a
  -- no-op, no packet is dropped, and otherwise exactly those whose portnum is listed are, on all
  -- channels where the line says so, and otherwise on the channels that it lists.
  pub log_startup_policy-tells : Announced c
  log_startup_policy-tells =
      same_policy-Announced c (λ k e. refl) refl (λ channel. refl) (λ channel portnum. refl)
