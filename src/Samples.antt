-- ===== src/Samples.antt =====
-- Small instances of what src/floodgate imports, for the examples: a JSON module that knows one
-- shape of packet, protobuf classes whose messages are their hop limits, and an AES that is the
-- identity.
use mathlib.Core.Path.{subst}
use mathlib.Core.Option.{some_inj}
use floodgate.Common.{
  zero, suc, ℕ, String, true, ◌&&◌, Option, none, some, [], ◌∷◌, ◌≡◌, ◌≢◌, refl, sym, arith, ◌==◌,
  eq_iff, if◌then◌else◌,
}
use floodgate.Common.Text.{Casing}
use floodgate.Bytes.{Bytes}
use floodgate.Value.{Value, int, str, arr, nil, obj, Fields, end, field, get}
use floodgate.Value.Int.{pos}
use floodgate.Value.Distinct.{IsDistinct}
use floodgate.Value.Json.{JsonCodec}
use floodgate.Proto.{Meshtastic}
use floodgate.Decrypt.{Aes}
use floodgate.Process.{World}

-- A text message of the firmware, with a hop limit.
abbrev pub message : ℕ → Fields
message n = field "hop_limit" (int (pos n)) (field "type" (str "text") end)

-- One whose sender is a list.
abbrev pub forged : ℕ → Fields
forged n = field "hop_limit" (int (pos n)) (field "type" (str "text") (field "from" (arr nil) end))

abbrev loads : Bytes → Option Value
loads (n ∷ []) = some (obj (message n))
loads (n ∷ zero ∷ []) = some (obj (forged n))
loads _ = none

abbrev dumps : Value → Option Bytes
dumps (obj (field k (int (pos n)) (field j (str s) end))) =
    if k == "hop_limit" && j == "type" && s == "text" then some (n ∷ []) else none
dumps _ = none

pub loads-IsDistinct : (b : Bytes) (v : Value) → loads b ≡ some v → IsDistinct v
unfolding IsDistinct get
loads-IsDistinct (n ∷ []) v h = subst IsDistinct (some_inj.0 h) (refl, tt, (refl, tt, tt))
loads-IsDistinct (n ∷ zero ∷ []) v h =
    subst IsDistinct (some_inj.0 h) (refl, tt, (refl, tt, (refl, tt, tt)))
loads-IsDistinct [] v h = absurd (ground (arith, h))
loads-IsDistinct (n ∷ suc m ∷ []) v h = absurd (ground (arith, h))
loads-IsDistinct (n ∷ m ∷ k ∷ b) v h = absurd (ground (arith, h))

pub loads-dumps : (v : Value) (b : Bytes) → IsDistinct v → dumps v ≡ some b → loads b ≡ some v
loads-dumps (obj (field k (int (pos n)) (field j (str s) end))) b d h =
    ground (arith, h, eq_iff k "hop_limit", eq_iff j "type", eq_iff s "text")
loads-dumps _ b d h = cc

abbrev pub json : JsonCodec
json = record {
  loads = loads;
  dumps = dumps;
  loads-IsDistinct = loads-IsDistinct;
  loads-dumps = loads-dumps;
}

abbrev pub same_case : Casing
same_case = record { upper = λ s. s; lower = λ s. s }

abbrev pub aes : Aes
aes = record { ctr = λ key nonce text. some text; symmetric = λ key nonce text cipher h. sym h }

abbrev parse : Bytes → Option ℕ
parse (h ∷ []) = some h
parse _ = none

abbrev attribute : ℕ → String → Option Value
attribute p name = if name == "hop_limit" then some (int (pos p)) else some (int (pos 7))

abbrev descriptor : ℕ → String → Option String
descriptor p key = if key == "from" then some "from" else none

pub descriptor-name : (p : ℕ) (key name : String) → descriptor p key ≡ some name → name ≡ key
descriptor-name p key name h = ground (arith, h, eq_iff key "from")

pub attribute-zeroed :
    (p : ℕ) (name : String) → name ≢ "hop_limit" → attribute 0 name ≡ attribute p name
attribute-zeroed p name h = ground (arith, h, eq_iff name "hop_limit")

-- A packet is its hop limit; each is a text message in cipher.
abbrev pub proto : Meshtastic ℕ ℕ
proto = record {
  importable = true;
  parse = parse;
  serialize = λ h. h ∷ [];
  packet = some;
  hop_limit = λ h. h;
  attribute = attribute;
  descriptor = descriptor;
  encrypted = λ h. some (8 ∷ 1 ∷ []);
  zero_hop = λ h. 0;
  parse_data = λ b. some 1;
  portnum_name = λ n. some "TEXT_MESSAGE_APP";
  descriptor_name = descriptor-name;
  parse-serialize = λ e. refl;
  zeroed = λ h. 0;
  packet-zero_hop = λ e p h. refl;
  hop_limit-zeroed = λ p. refl;
  attribute-zeroed = attribute-zeroed;
  descriptor-zeroed = λ p name. refl;
  encrypted-zeroed = λ p. refl;
}

abbrev pub world : World ℕ ℕ
world = record { json = json; proto = proto; aes = aes; casing = same_case }
