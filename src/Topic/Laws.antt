-- ===== src/Topic/Laws.antt =====
-- Which topics parse_meshtastic_topic accepts, and what it reads from them.
use mathlib.Core.Path.{subst}
use mathlib.Core.List.{reverse-append}
use text.Mathlib.Text.{starts_with}
use floodgate.Common.{
  ◌≤◌, ◌<◌, String, true, false, ◌&&◌, Option, none, some, List, [], ◌∷◌, ◌++◌, ◌≡◌, ◌≢◌, ◌↔◌, ◌⊎◌,
  inl, inr, refl, ap, sym, ◌∙◌, arith, ltb, length, length-append, All, if◌then◌else◌, ◌==◌, eq_iff,
  Bool-cases,
}
use floodgate.Common.Text.{contains}
use floodgate.Topic.Split.{split, join, join-split, split-join, All-split, NoSlash}
use floodgate.Topic.{parse_meshtastic_topic, part_back, encodings}

last_three :
    (xs : List String)
    → 3 ≤ length xs
    → (mid : List String) × (a : String) × (b : String) × (c : String) × (xs
        ≡ mid ++ a ∷ b ∷ c ∷ [])
last_three [] h = absurd (omega arith)
last_three (x ∷ []) h = absurd (omega arith)
last_three (x ∷ y ∷ []) h = absurd (omega arith)
last_three (x ∷ y ∷ z ∷ []) h = ([], x, y, z, refl)
last_three (x ∷ y ∷ z ∷ w ∷ r) h =
    let (mid, a, b, c, e) = last_three (y ∷ z ∷ w ∷ r) (omega arith) in
    (x ∷ mid, a, b, c, ap (λ t. x ∷ t) e)

-- What the code tests, once the parts are named.
abbrev read_parts : String → String → String → String → Option (String × String)
read_parts first enc channel node =
    if (first == "msh") && (starts_with node "!" && contains encodings enc)
    then some (channel, enc)
    else none

part_back_ending :
    (xs : List String) (a b c : String)
    → (part_back (xs ++ a ∷ b ∷ c ∷ []) 0 ≡ c)
      × (part_back (xs ++ a ∷ b ∷ c ∷ []) 1 ≡ b)
      × (part_back (xs ++ a ∷ b ∷ c ∷ []) 2 ≡ a)
part_back_ending xs a b c = rw (reverse-append xs (a ∷ b ∷ c ∷ [])) (refl, refl, refl)

parse_parts :
    (topic first : String) (mid : List String) (enc channel node : String)
    → mid ≢ []
    → split topic ≡ first ∷ mid ++ enc ∷ channel ∷ node ∷ []
    → parse_meshtastic_topic topic ≡ read_parts first enc channel node
unfolding parse_meshtastic_topic
parse_parts topic first [] enc channel node n e = absurd (n refl)
parse_parts topic first (m ∷ mid) enc channel node n e =
    let (last, before, third) = part_back_ending (first ∷ m ∷ mid) enc channel node in
    let long : ltb (length (first ∷ (m ∷ mid) ++ enc ∷ channel ∷ node ∷ [])) 5 ≡ false =
      ground (arith, length-append mid (enc ∷ channel ∷ node ∷ [])) in
    rw (e, long, last, before, third) (ground arith)

parse_short : (topic : String) → length (split topic) < 5 → parse_meshtastic_topic topic ≡ none
unfolding parse_meshtastic_topic
parse_short topic h = ground arith

-- The shape of a packet topic: `msh`, at least one part of prefix, the encoding, the channel and a
-- node that starts with `!`, none of which holds a slash.
pub record IsPacketTopic (topic channel encoding : String) : Type 0 where
  pub middle : List String
  pub node : String
  pub prefixed : middle ≢ []
  pub plain : All NoSlash ("msh" ∷ middle ++ encoding ∷ channel ∷ node ∷ [])
  pub spelled : topic ≡ join ("msh" ∷ middle ++ encoding ∷ channel ∷ node ∷ [])
  pub is_node : starts_with node "!" ≡ true
  pub supported : (encoding ≡ "e") ⊎ (encoding ≡ "json")

tail-ne-nil : (xs : List String) (a : String) → xs ++ a ∷ [] ≢ []
tail-ne-nil [] a h = cc
tail-ne-nil (x ∷ xs) a h = cc

parse_sound :
    (topic channel encoding first : String) (mid : List String) (enc chan node : String)
    → mid ≢ []
    → split topic ≡ first ∷ mid ++ enc ∷ chan ∷ node ∷ []
    → parse_meshtastic_topic topic ≡ some (channel, encoding)
    → IsPacketTopic topic channel encoding
unfolding contains
parse_sound topic channel encoding first mid enc chan node n e h =
    let read = parse_parts topic first mid enc chan node n e in
    let first_msh : first ≡ "msh" = ground (arith, eq_iff first "msh") in
    let same_enc : enc ≡ encoding = ground arith in
    let same_chan : chan ≡ channel = ground arith in
    let parts : split topic ≡ "msh" ∷ mid ++ encoding ∷ channel ∷ node ∷ [] = cc in
    record {
      middle = mid;
      node = node;
      prefixed = n;
      plain = subst (All NoSlash) parts (All-split topic);
      spelled = sym (join-split topic) ∙ ap join parts;
      is_node = ground arith;
      supported = ground (arith, eq_iff enc "e", eq_iff enc "json");
    }

none_ne_some : {a : String × String} → none ≢ some a
none_ne_some e = cc

parse_long :
    (topic channel encoding : String)
    → parse_meshtastic_topic topic ≡ some (channel, encoding)
    → 5 ≤ length (split topic)
parse_long topic channel encoding h = elim (Bool-cases (ltb (length (split topic)) 5)) [
  | inl short ↦ absurd (none_ne_some (sym (parse_short topic (ground arith)) ∙ h))
  | inr long ↦ ground arith
]

ne-nil_of_length : (xs ys : List String) → 4 ≤ length (xs ++ ys) → length ys ≡ 3 → xs ≢ []
ne-nil_of_length [] ys h k = absurd (omega arith)
ne-nil_of_length (x ∷ xs) ys h k = λ e. cc

parse-IsPacketTopic :
    (topic channel encoding : String)
    → parse_meshtastic_topic topic ≡ some (channel, encoding)
    → IsPacketTopic topic channel encoding
parse-IsPacketTopic topic channel encoding h =
    from_parts (split topic) refl (parse_long topic channel encoding h)
  where
    from_parts :
        (xs : List String) → split topic ≡ xs → 5 ≤ length xs → IsPacketTopic topic channel encoding
    from_parts [] e k = absurd (omega arith)
    from_parts (first ∷ xs) e k =
        let (mid, a, b, c, same) = last_three xs (omega arith) in
        let n =
          ne-nil_of_length mid (a ∷ b ∷ c ∷ [])
            (let four : 4 ≤ length xs = omega arith in subst (λ t. 4 ≤ length t) same four) refl in
        parse_sound topic channel encoding first mid a b c n (e ∙ ap (λ t. first ∷ t) same) h

IsPacketTopic-parse :
    (topic channel encoding : String)
    → IsPacketTopic topic channel encoding
    → parse_meshtastic_topic topic ≡ some (channel, encoding)
unfolding contains
IsPacketTopic-parse topic channel encoding t =
    let parts : split topic ≡ "msh" ∷ t.middle ++ encoding ∷ channel ∷ t.node ∷ [] =
      ap split t.spelled ∙ split-join _ (λ e. cc) t.plain in
    ground (
      arith,
      parse_parts topic "msh" t.middle encoding channel t.node t.prefixed parts,
      eq_iff encoding "e",
      eq_iff encoding "json",
      t.supported,
      t.is_node,
    )

-- A topic is read as (channel, encoding) exactly when it is a packet topic of that channel and
-- encoding: the two directions of `parse_meshtastic_topic`, for a prefix of any depth.
pub parse_meshtastic_topic_iff :
    (topic channel encoding : String)
    → (parse_meshtastic_topic topic ≡ some (channel, encoding))
      ↔ IsPacketTopic topic channel encoding
parse_meshtastic_topic_iff topic channel encoding =
    (parse-IsPacketTopic topic channel encoding, IsPacketTopic-parse topic channel encoding)
