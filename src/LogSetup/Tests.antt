-- ===== src/LogSetup/Tests.antt =====
-- A line of src/floodgate/log_setup.py, for a topic with a line break.
use floodgate.Common.{ℕ, true, ◌&&◌, some, [], ◌∷◌, ◌≡◌, refl, arith, ◌≤◌, All, leb}
use floodgate.Value.{str, Fields, field, end, get}
use floodgate.Portnum.{lookup}
use floodgate.LogSetup.{
  Text, Python, IsPlain, codes, escape, str_of, message_keys, outcome_tags, parts_of,
  format_message,
}
use floodgate.LogSetup.Escape.{outside, read_words}
use floodgate.LogSetup.Lines.{read_words-format_message, format_message-IsPrintable}

ascii : (c : ℕ) → 32 ≤ c → c ≤ 126 → (leb 32 c && leb c 126) ≡ true
ascii c low high = ground arith

x-IsPlain : IsPlain 120
x-IsPlain = (omega arith, omega arith, λ e. omega arith, λ e. omega arith)

zero-IsPlain : IsPlain 48
zero-IsPlain = (omega arith, omega arith, λ e. omega arith, λ e. omega arith)

abbrev python : Python
python = record {
  is_printable = λ c. leb 32 c && leb c 126;
  repr = λ c. 92 ∷ 120 ∷ 48 ∷ [];
  upper = λ s. s;
  shown = λ v. 49 ∷ [];
  ascii = ascii;
  letter = λ c. 120;
  digits = λ c. 48 ∷ [];
  escapes = λ c h. (refl, x-IsPlain, (zero-IsPlain, tt));
}

abbrev forged : Text
forged = 97 ∷ 10 ∷ 34 ∷ 32 ∷ 98 ∷ []

abbrev extra : Fields
extra = field "event" (str "message") (
    field "outcome" (str "dropped") (
      field "topic" (str "msh/x y/2/e/LongFast/!abcd1234")
        (field "channel" (str "Long \"Fast") end)))

has_outcome : get extra "outcome" ≡ some (str "dropped")
unfolding get
has_outcome = refl

has_tag : lookup outcome_tags "dropped" ≡ some "[DROPPED]"
unfolding lookup
has_tag = refl

read_words-format_message_example :
    read_words outside (format_message python extra)
    ≡ (codes "[DROPPED]", parts_of (λ v. escape python (str_of python v)) extra message_keys)
read_words-format_message_example =
    read_words-format_message python extra "dropped" "[DROPPED]" has_outcome has_tag

format_message-IsPrintable_example :
    All (λ c. python.is_printable c ≡ true) (format_message python extra)
format_message-IsPrintable_example =
    format_message-IsPrintable python extra "dropped" "[DROPPED]" has_outcome has_tag
