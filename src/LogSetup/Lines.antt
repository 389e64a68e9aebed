-- ===== src/LogSetup/Lines.antt =====
-- How a reader takes the message lines of src/floodgate/log_setup.py: as the words that were joined.
use mathlib.Core.Path.{subst}
use mathlib.Core.Option.{some_inj}
use mathlib.Core.List.{append-nil}
use floodgate.Common.{
  String, true, Option, none, some, List, [], ◌∷◌, ◌≡◌, refl, ◌∙◌, arith, All, All-append, ◌==◌,
  Bool-cases, inl, inr,
}
use floodgate.Value.{Value, null, str, Fields, get}
use floodgate.Portnum.{lookup}
use floodgate.LogSetup.{
  Text, Python, codes, escape, str_of, message_keys, outcome_tags, join_words, key_value, part_of,
  parts_of, tag_of, message_parts, format_message,
}
use floodgate.LogSetup.Escape.{
  outside, read_words, Walks, read_words-Walks, Walks-++, is_simple, is_simple-Walks,
  is_simple-IsPrintable, escape-Walks, IsPrintable, escape-IsPrintable,
}

abbrev IsWord : Text → Type 0
IsWord t = Walks outside t outside

-- Words that are joined by spaces are read again.
read_words-join_words :
    (w : Text) (ws : List Text)
    → All IsWord (w ∷ ws)
    → read_words outside (join_words (w ∷ ws)) ≡ (w, ws)
unfolding join_words read_words
read_words-join_words w [] (h, hs) = (rw append-nil at (read_words-Walks outside outside w [] h))
read_words-join_words w (v ∷ vs) (h, hs) =
    read_words-Walks outside outside w (32 ∷ join_words (v ∷ vs)) h
    ∙ rw (read_words-join_words v vs hs, append-nil) refl

key_value-IsWord :
    (key : String) (t : Text) → is_simple (codes key) ≡ true → IsWord t → IsWord (key_value key t)
unfolding Walks
key_value-IsWord key t k h =
    Walks-++ outside outside outside (codes key) (61 ∷ t) (is_simple-Walks (codes key) k) (refl, h)

part_of-All :
    (P : Text → Type 0) (show : Value → Text) (key : String) (o : Option Value)
    → ((v : Value) → P (key_value key (show v)))
    → All P (part_of show key o)
part_of-All P show key none h = tt
part_of-All P show key (some null) h = tt
part_of-All P show key (some v) h = (h v, tt)

-- What holds of each `key=value` holds of all parts.
parts_of-All :
    (P : Text → Type 0) (show : Value → Text) (extra : Fields) (keys : List String)
    → ((key : String) (v : Value) → is_simple (codes key) ≡ true → P (key_value key (show v)))
    → All (λ key. is_simple (codes key) ≡ true) keys
    → All P (parts_of show extra keys)
unfolding parts_of
parts_of-All P show extra [] h k = tt
parts_of-All P show extra (key ∷ keys) h (k, ks) =
    All-append P (part_of show key (get extra key)) (parts_of show extra keys)
      (part_of-All P show key (get extra key) (λ v. h key v k))
      (parts_of-All P show extra keys h ks)

lookup-All :
    (P : String → Type 0) (table : List (String × String)) (key value : String)
    → All (λ p. P p.1) table
    → lookup table key ≡ some value
    → P value
unfolding lookup
lookup-All P [] key value h e = cc
lookup-All P ((j, v) ∷ table) key value (h, hs) e = elim (Bool-cases (j == key)) [
  | inl same ↦ subst P (some_inj.0 (rw same at e)) h
  | inr other ↦ lookup-All P table key value hs (rw other at e)
]

simple_keys : All (λ key. is_simple (codes key) ≡ true) message_keys
unfolding is_simple codes
simple_keys = (
  refl,
  (refl, (refl, (refl, (refl, (refl, (refl, (refl, (refl, (refl, (refl, (refl, tt))))))))))),
)

simple_tags : All (λ p. is_simple (codes p.1) ≡ true) outcome_tags
unfolding is_simple codes
simple_tags = (refl, (refl, (refl, (refl, (refl, tt)))))

tag_of-known :
    (python : Python) (outcome tag : String)
    → lookup outcome_tags outcome ≡ some tag
    → tag_of python outcome ≡ codes tag
unfolding tag_of
tag_of-known python outcome tag e = rw (e, tag_of)

-- The line of a message with one of the five known outcomes is read as the words that it was made
-- of, whatever the topic, the channel and the other values are: the outcome's tag, and `key=value`
-- for each field that the record has. No value can end a word or begin another field.
pub read_words-format_message :
    (python : Python) (extra : Fields) (outcome tag : String)
    → get extra "outcome" ≡ some (str outcome)
    → lookup outcome_tags outcome ≡ some tag
    → read_words outside (format_message python extra)
      ≡ (codes tag, parts_of (λ v. escape python (str_of python v)) extra message_keys)
unfolding format_message message_parts
read_words-format_message python extra outcome tag o e =
    let shown : Value → Text = λ v. escape python (str_of python v) in
    rw (o, tag_of-known python outcome tag e)
      (read_words-join_words (codes tag) (parts_of shown extra message_keys) (
        is_simple-Walks (codes tag)
            (lookup-All (λ t. is_simple (codes t) ≡ true) outcome_tags outcome tag simple_tags e),
        parts_of-All IsWord shown extra message_keys
            (λ key v k. key_value-IsWord key (shown v) k (escape-Walks python (str_of python v)))
            simple_keys,
      ))

module _ (python : Python) where
  join_words-IsPrintable :
      (ws : List Text) → All (IsPrintable python) ws → IsPrintable python (join_words ws)
  unfolding join_words
  join_words-IsPrintable [] h = tt
  join_words-IsPrintable (w ∷ []) (h, hs) = h
  join_words-IsPrintable (w ∷ v ∷ vs) (h, hs) =
      All-append _ w (32 ∷ join_words (v ∷ vs)) h
        (python.ascii 32 (omega arith) (omega arith), join_words-IsPrintable (v ∷ vs) hs)

  key_value-IsPrintable :
      (key : String) (t : Text)
      → is_simple (codes key) ≡ true
      → IsPrintable python t
      → IsPrintable python (key_value key t)
  key_value-IsPrintable key t k h =
      All-append _ (codes key) (61 ∷ t) (is_simple-IsPrintable python (codes key) k)
        (python.ascii 61 (omega arith) (omega arith), h)

  -- The line of a message with a known outcome has printable characters only: whatever the values
  -- are, none of them can break the line.
  pub format_message-IsPrintable :
      (extra : Fields) (outcome tag : String)
      → get extra "outcome" ≡ some (str outcome)
      → lookup outcome_tags outcome ≡ some tag
      → All (λ c. python.is_printable c ≡ true) (format_message python extra)
  unfolding format_message message_parts
  format_message-IsPrintable extra outcome tag o e =
      let shown : Value → Text = λ v. escape python (str_of python v) in
      let simple_tag =
        lookup-All (λ t. is_simple (codes t) ≡ true) outcome_tags outcome tag simple_tags e in
      rw (o, tag_of-known python outcome tag e)
        (join_words-IsPrintable (codes tag ∷ parts_of shown extra message_keys) (
          is_simple-IsPrintable python (codes tag) simple_tag,
          parts_of-All (IsPrintable python) shown extra message_keys
              (λ key v k.
                key_value-IsPrintable key (shown v) k (escape-IsPrintable python (str_of python v)))
              simple_keys,
        ))
