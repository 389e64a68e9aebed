-- ===== src/LogSetup.antt =====
-- src/floodgate/log_setup.py: _escape and the lines of StructuredTextFormatter. A Python string is
-- the list of its code points.
pub mod Escape
pub mod Lines
pub mod Install
mod Tests
use Prim.Native.Char.{code}
use Prim.Native.String
use floodgate.Common.{
  ℕ, String, Bool, true, false, not, ◌&&◌, ◌||◌, Option, none, some, List, [], ◌∷◌, ◌++◌, ◌≡◌, ◌≢◌,
  ◌≤◌, All, ◌==◌, eqb, if◌then◌else◌,
}
use floodgate.Value.{Value, null, str, Fields, get}
use floodgate.Portnum.{lookup}

abbrev pub Text : Type 0
Text = List ℕ

unfoldable pub codes : String → Text
codes String.[] = []
codes (String.◌∷◌ c s) = code c ∷ codes s

-- A code point of a letter or a digit.
abbrev pub IsPlain : ℕ → Type 0
IsPlain c = (48 ≤ c) × (c ≤ 122) × (c ≢ 92) × (c ≢ 61)

-- What Python says of characters and values: `str.isprintable`, the `repr` of a character without
-- its quotes, `str.upper`, and `str` of a value that is no string. The printable ASCII characters
-- are documented to be printable; the `repr` of a character that is not printable is documented to
-- be an escape, a backslash, a letter and digits, such as \n, \x1b or \u2028.
pub record Python : Type 0 where
  pub is_printable : ℕ → Bool
  pub repr : ℕ → Text
  pub upper : String → String
  pub shown : Value → Text
  pub ascii : (c : ℕ) → 32 ≤ c → c ≤ 126 → is_printable c ≡ true
  pub letter : ℕ → ℕ
  pub digits : ℕ → Text
  pub escapes :
      (c : ℕ)
      → is_printable c ≡ false
      → (repr c ≡ 92 ∷ letter c ∷ digits c) × IsPlain (letter c) × All IsPlain (digits c)

-- _NEEDS_QUOTING: a space, a quote, a backslash and an equals sign.
abbrev pub needs_quoting : ℕ → Bool
needs_quoting c = eqb c 32 || eqb c 34 || eqb c 92 || eqb c 61

abbrev pub is_empty : Text → Bool
is_empty [] = true
is_empty (c ∷ text) = false

module _ (python : Python) where
  unfoldable pub is_bare : Text → Bool
  is_bare [] = true
  is_bare (c ∷ text) = python.is_printable c && not (needs_quoting c) && is_bare text

  unfoldable pub escape_char : ℕ → Text
  escape_char c =
      if eqb c 34 || eqb c 92
      then 92 ∷ c ∷ []
      else if python.is_printable c
      then c ∷ []
      else python.repr c

  unfoldable pub escape_chars : Text → Text
  escape_chars [] = []
  escape_chars (c ∷ text) = escape_char c ++ escape_chars text

  -- _escape, of the text of a value.
  unfoldable pub escape : Text → Text
  escape text =
      if not (is_empty text) && is_bare text then text else 34 ∷ escape_chars text ++ 34 ∷ []

  -- `str(value)`
  unfoldable pub str_of : Value → Text
  str_of (str s) = codes s
  str_of v = python.shown v

abbrev pub message_keys : List String
message_keys =
    "topic" ∷ "channel" ∷ "encoding" ∷ "portnum" ∷ "id" ∷ "from" ∷ "to" ∷ "hop_limit" ∷ "hop_start"
    ∷ "relay" ∷ "via_mqtt" ∷ "bytes" ∷ []

abbrev pub stats_keys : List String
stats_keys =
    "interval_s" ∷ "zerohop" ∷ "passthru" ∷ "noop" ∷ "dropped" ∷ "skipped" ∷ "errors" ∷ "total" ∷ []

abbrev pub outcome_tags : List (String × String)
outcome_tags =
    ("zerohop", "[ZEROHOP]")
    ∷ ("passthru", "[PASSTHRU]")
    ∷ ("noop", "[NOOP]")
    ∷ ("dropped", "[DROPPED]")
    ∷ ("warn", "[WARN]")
    ∷ []

-- `" ".join(parts)`
unfoldable pub join_words : List Text → Text
join_words [] = []
join_words (w ∷ []) = w
join_words (w ∷ v ∷ ws) = w ++ 32 ∷ join_words (v ∷ ws)

abbrev pub key_value : String → Text → Text
key_value key text = codes key ++ 61 ∷ text

-- The part for a key, where the record has a value for it that is not None.
abbrev pub part_of : (Value → Text) → String → Option Value → List Text
part_of show key none = []
part_of show key (some null) = []
part_of show key (some v) = key_value key (show v) ∷ []

unfoldable pub parts_of : (Value → Text) → Fields → List String → List Text
parts_of show extra [] = []
parts_of show extra (key ∷ keys) = part_of show key (get extra key) ++ parts_of show extra keys

-- The display label of an outcome.
unfoldable pub tag_of : Python → String → Text
tag_of python outcome = elim (lookup outcome_tags outcome) [
  | some tag ↦ codes tag
  | none ↦ 91 ∷ codes (python.upper outcome) ++ 93 ∷ []
]

abbrev outcome_of : Option Value → String
outcome_of (some (str s)) = s
outcome_of _ = ""

-- _format_message, for a record whose outcome is a text.
unfoldable pub message_parts : Python → Fields → List Text
message_parts python extra =
    tag_of python (outcome_of (get extra "outcome"))
    ∷ parts_of (λ v. escape python (str_of python v)) extra message_keys

unfoldable pub format_message : Python → Fields → Text
format_message python extra = join_words (message_parts python extra)

-- _format_stats
unfoldable pub format_stats : Python → Fields → Text
format_stats python extra = join_words (codes "[STATS]" ∷ parts_of (str_of python) extra stats_keys)

abbrev event_of : Option Value → String
event_of (some (str s)) = s
event_of _ = ""

-- StructuredTextFormatter.format: what becomes of a record's message, by its event.
unfoldable pub format : Python → Text → Fields → Text
format python msg extra =
    if event_of (get extra "event") == "message"
    then format_message python extra
    else if event_of (get extra "event") == "stats"
    then format_stats python extra
    else msg
