-- ===== src/Config/Validate.antt =====
-- _validate_values of src/floodgate/config.py and its helpers.
use Prim.Native.String.{compare}
use text.Mathlib.Text.{is_lt, is_eq}
use floodgate.Common.{
  ℕ, String, Bool, true, false, not, ◌&&◌, Option, none, some, List, [], ◌∷◌, ◌++◌, ◌==◌,
  if◌then◌else◌, map,
}
use floodgate.Common.Text.{Casing, contains}
use floodgate.Value.{Value, null, int, str, arr, Items, nil, cons, Fields, insert, is_bool}
use floodgate.Value.Int.{pos, leb_ℤ}
use floodgate.Config.{
  Config, inherit_zerohop_channels, log_levels, log_formats, Problem, not_bool, not_int_within,
  not_log_level, not_log_format, not_topic_filter, not_list, not_texts, not_drop_channels,
  not_portnum, Result, ok, raised, item,
}

-- What the process finds around it: the variable FLOODGATE_LOG_FORMAT, Python's case mappings, the
-- names of the generated PortNum enum (`none` if it cannot be imported) and the nearest match that
-- `difflib` finds among them.
pub record Env : Type 0 where
  pub log_format_var : Option String
  pub casing : Casing
  pub portnums : Option (List String)
  pub close_match : String → List String → Option String

-- Into a sorted list without repetitions.
unfoldable pub insert_sorted : String → List String → List String
insert_sorted x [] = x ∷ []
insert_sorted x (y ∷ ys) =
    if is_eq (compare x y)
    then y ∷ ys
    else if is_lt (compare x y)
    then x ∷ y ∷ ys
    else y ∷ insert_sorted x ys

-- `sorted` of a set of strings.
unfoldable pub sorted : List String → List String
unfolding insert_sorted
sorted [] = []
sorted (x ∷ xs) = insert_sorted x (sorted xs)

-- `a - b` and `a & b`, on sets of strings.
unfoldable pub minus : List String → List String → List String
unfolding contains
minus [] b = []
minus (x ∷ a) b = let rest = minus a b in if contains b x then rest else x ∷ rest

unfoldable pub common : List String → List String → List String
unfolding contains
common [] b = []
common (x ∷ a) b = let rest = common a b in if contains b x then x ∷ rest else rest

-- The entries of a list that are strings, and those that are not.
unfoldable pub texts : Items → List String
texts nil = []
texts (cons (str s) xs) = s ∷ texts xs
texts (cons _ xs) = texts xs

unfoldable pub non_texts : Items → Items
non_texts nil = nil
non_texts (cons (str s) xs) = non_texts xs
non_texts (cons x xs) = cons x (non_texts xs)

unfoldable pub check_texts : String → Items → Items → Result Problem (List String)
check_texts key items nil = ok (texts items)
check_texts key items bad = raised (not_texts key bad)

-- _validate_string_list
unfoldable pub validate_string_list : Value → String → Result Problem (List String)
unfolding check_texts texts non_texts
validate_string_list null key = ok []
validate_string_list (arr items) key = check_texts key items (non_texts items)
validate_string_list value key = raised (not_list key value)

unfoldable pub as_scope : Result Problem (List String) → Result Problem (Option (List String))
as_scope (ok names) = ok (some names)
as_scope (raised p) = raised p

-- _resolve_drop_channels
unfoldable pub resolve_drop_channels : Value → List String → Result Problem (Option (List String))
unfolding validate_string_list as_scope
resolve_drop_channels null zerohop_set = ok none
resolve_drop_channels (str s) zerohop_set =
    if s == inherit_zerohop_channels
    then ok (some zerohop_set)
    else raised (not_drop_channels (str s))
resolve_drop_channels (arr nil) zerohop_set = ok none
resolve_drop_channels (arr (cons x xs)) zerohop_set =
    as_scope (validate_string_list (arr (cons x xs)) "drop_channels")
resolve_drop_channels value zerohop_set = raised (not_drop_channels value)

-- The dict and the errors so far.
abbrev pub Checked : Type 0
Checked = Config × List Problem

abbrev pub problem : Checked → Problem → Checked
problem (config, errors) p = (config, errors ++ p ∷ [])

abbrev pub write : Checked → String → Value → Checked
write (config, errors) k v = (record config { values = insert config.values k v }, errors)

unfoldable pub check_bool : String → Checked → Checked
check_bool key s =
    let value = item s.0.values key in if is_bool value then s else problem s (not_bool key value)

unfoldable pub in_range : ℕ → Option ℕ → Value → Bool
in_range low high (int n) =
    leb_ℤ (pos low) n && elim high [ none ↦ true | some most ↦ leb_ℤ n (pos most) ]
in_range low high _ = false

-- _check_int
unfoldable pub check_int : String → ℕ → Option ℕ → Checked → Checked
unfolding in_range
check_int key low high s =
    let value = item s.0.values key in
    if in_range low high value then s else problem s (not_int_within key low high value)

unfoldable pub normal_text : (String → String) → List String → Value → Option String
unfolding contains
normal_text change allowed (str s) = if contains allowed (change s) then some (change s) else none
normal_text change allowed _ = none

-- The accepted spelling is written to the dict; where there is none, an error is added.
abbrev pub store : Option String → String → Problem → Checked → Checked
store (some name) key p s = write s key (str name)
store none key p s = problem s p

unfoldable pub check_log_level : Env → Checked → Checked
unfolding normal_text
check_log_level env s =
    let level = item s.0.values "log_level" in
    store (normal_text env.casing.upper log_levels level) "log_level" (not_log_level level) s

-- `os.environ.get(…) or None`
abbrev pub env_fmt : Env → Option String
env_fmt env = elim env.log_format_var [
  | none ↦ none
  | some text ↦ if text == "" then none else some text
]

-- `fmt, label`
abbrev pub labelled_format : Option String → Fields → Value × String
labelled_format (some text) d = (str text, "FLOODGATE_LOG_FORMAT")
labelled_format none d = (item d "log_format", "`log_format`")

unfoldable pub check_log_format : Env → Checked → Checked
unfolding normal_text
check_log_format env s =
    let fmt = labelled_format (env_fmt env) s.0.values in
    store (normal_text env.casing.lower log_formats fmt.0) "log_format" (not_log_format fmt.1 fmt.0)
      s

unfoldable pub is_topic_filter : Value → Bool
is_topic_filter (str s) = not (s == "")
is_topic_filter _ = false

unfoldable pub check_topic_filter : Checked → Checked
unfolding is_topic_filter
check_topic_filter s =
    let value = item s.0.values "topic_filter" in
    if is_topic_filter value then s else problem s (not_topic_filter value)

-- The first `try` block: the two sets of channels. The first is kept where the second raises.
unfoldable pub check_channels : Checked → Checked
unfolding resolve_drop_channels
check_channels (config, errors) =
    elim (validate_string_list (item config.values "zerohop_channels") "zerohop_channels") [
      | raised p ↦ (config, errors ++ p ∷ [])
      | ok zerohop ↦
          let config' : Config = record config { zerohop_channels_set = some zerohop } in
          elim (resolve_drop_channels (item config.values "drop_channels") zerohop) [
            | raised p ↦ (config', errors ++ p ∷ [])
            | ok scope ↦ (record config' { drop_channels_set = some scope }, errors)
          ]
    ]

-- _check_portnum_names: the errors that it appends.
unfoldable pub unknown_portnums : Env → List String → List String → List Problem
unfolding sorted minus
unknown_portnums env known names =
    map (λ name. not_portnum name (env.close_match (env.casing.upper name) known))
      (sorted (minus names known))

unfoldable pub portnum_problems : Env → List String → List Problem
unfolding unknown_portnums
portnum_problems env names = elim env.portnums [
  | none ↦ []
  | some known ↦ unknown_portnums env known names
]

-- The second `try` block.
unfoldable pub check_portnums : Env → Checked → Checked
unfolding validate_string_list portnum_problems
check_portnums env (config, errors) =
    elim (validate_string_list (item config.values "drop_portnums") "drop_portnums") [
      | raised p ↦ (config, errors ++ p ∷ [])
      | ok names ↦
          (record config { drop_portnums_set = some names }, errors ++ portnum_problems env names)
    ]

-- _validate_values, from the dict and no errors.
unfoldable pub validate_values : Env → Config → Checked
validate_values env config =
    let s = check_bool "zerohop_enabled" (config, []) in
    let s = check_bool "drop_enabled" s in
    let s = check_bool "stats_log" s in
    let s = check_int "grpc_port" 1 (some 65535) s in
    let s = check_int "health_port" 1 (some 65535) s in
    let s = check_int "grpc_max_workers" 1 none s in
    let s = check_int "stats_interval_s" 1 none s in
    let s = check_log_level env s in
    let s = check_log_format env s in
    let s = check_topic_filter s in let s = check_channels s in check_portnums env s
