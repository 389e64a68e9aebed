-- ===== src/Config/Valid/Lists.antt =====
-- The checks of the three lists of texts: what each accepts, and the sets that it stores.
use floodgate.Common.{
  String, true, Option, none, some, List, [], ◌∷◌, ◌++◌, ◌≡◌, ◌≢◌, ◌↔◌, refl, sym, ap, ◌∙◌, arith,
  inl, inr, eq_iff, map, All, Bool-cases, Option-cases,
}
use floodgate.Common.Text.{contains}
use floodgate.Value.{Value, null, str, arr, Items, nil, cons}
use floodgate.Config.{
  Result-cases, Config, inherit_zerohop_channels, item, Problem, Result, ok, raised,
}
use floodgate.Config.Validate.{
  Env, Checked, check_channels, check_portnums, texts, non_texts, check_texts, as_scope, sorted,
  minus, insert_sorted, validate_string_list, resolve_drop_channels, portnum_problems,
  unknown_portnums,
}
use floodgate.Config.Valid.{items_of, Denotes, DenotesScope, AreKnown}
use floodgate.Config.Valid.Checks.{Clean, not_Clean}

texts-items_of : (names : List String) → texts (items_of names) ≡ names
unfolding texts
texts-items_of [] = refl
texts-items_of (n ∷ names) = ap (λ ns. n ∷ ns) (texts-items_of names)

non_texts-items_of : (names : List String) → non_texts (items_of names) ≡ nil
unfolding non_texts
non_texts-items_of [] = refl
non_texts-items_of (n ∷ names) = non_texts-items_of names

items_of-texts : (items : Items) → non_texts items ≡ nil → items ≡ items_of (texts items)
unfolding texts non_texts
items_of-texts nil h = refl
items_of-texts (cons (str s) xs) h = ap (λ ys. cons (str s) ys) (items_of-texts xs h)
items_of-texts (cons null xs) h = cc
items_of-texts (cons _ xs) h = cc

check_texts_sound :
    (key : String) (items bad : Items) (names : List String)
    → non_texts items ≡ bad
    → check_texts key items bad ≡ ok names
    → arr items ≡ arr (items_of names)
unfolding check_texts
check_texts_sound key items nil names b h =
    let same : texts items ≡ names = cc in ap arr (items_of-texts items b ∙ ap items_of same)
check_texts_sound key items (cons x xs) names b h = cc

-- _validate_string_list returns a set exactly for the values that denote it.
pub validate_string_list_sound :
    (v : Value) (key : String) (names : List String)
    → validate_string_list v key ≡ ok names
    → Denotes v names
unfolding validate_string_list
validate_string_list_sound null key names h = inl (refl, cc)
validate_string_list_sound (arr items) key names h =
    inr (check_texts_sound key items (non_texts items) names refl h)
validate_string_list_sound _ key names h = cc

pub validate_string_list_complete :
    (v : Value) (key : String) (names : List String)
    → Denotes v names
    → validate_string_list v key ≡ ok names
unfolding validate_string_list
validate_string_list_complete v key names (inl (e, n)) = rw (e, n)
validate_string_list_complete v key names (inr e) =
    rw (e, validate_string_list, non_texts-items_of names) (ap ok (texts-items_of names))

as_scope-none : (r : Result Problem (List String)) → as_scope r ≡ ok none → ⊥
unfolding as_scope
as_scope-none (ok names) h = cc
as_scope-none (raised p) h = cc

as_scope-some :
    (r : Result Problem (List String)) (names : List String)
    → as_scope r ≡ ok (some names)
    → r ≡ ok names
unfolding as_scope
as_scope-some (ok found) names h = cc
as_scope-some (raised p) names h = cc

list_scope :
    {zerohop : List String} (x : Value) (xs : Items) (names : List String)
    → Denotes (arr (cons x xs)) names
    → DenotesScope zerohop (arr (cons x xs)) (some names)
list_scope x xs names (inl (e, _)) = cc
list_scope x xs [] (inr e) = cc
list_scope x xs (n ∷ names) (inr e) = inr (λ h. cc, e)

pub resolve_drop_channels_sound :
    (v : Value) (zerohop : List String) (scope : Option (List String))
    → resolve_drop_channels v zerohop ≡ ok scope
    → DenotesScope zerohop v scope
unfolding resolve_drop_channels
resolve_drop_channels_sound null zerohop none h = inl refl
resolve_drop_channels_sound null zerohop (some names) h = cc
resolve_drop_channels_sound (str s) zerohop none h = absurd (ground arith)
resolve_drop_channels_sound (str s) zerohop (some names) h =
    inl (ground (arith, eq_iff s inherit_zerohop_channels), ground arith)
resolve_drop_channels_sound (arr nil) zerohop none h = inr refl
resolve_drop_channels_sound (arr nil) zerohop (some names) h = cc
resolve_drop_channels_sound (arr (cons x xs)) zerohop none h = absurd (as_scope-none _ h)
resolve_drop_channels_sound (arr (cons x xs)) zerohop (some names) h =
    list_scope x xs names
      (validate_string_list_sound (arr (cons x xs)) "drop_channels" names (as_scope-some _ names h))
resolve_drop_channels_sound _ zerohop scope h = cc

pub resolve_drop_channels_complete :
    (v : Value) (zerohop : List String) (scope : Option (List String))
    → DenotesScope zerohop v scope
    → resolve_drop_channels v zerohop ≡ ok scope
unfolding resolve_drop_channels
resolve_drop_channels_complete v zerohop none (inl e) = rw e
resolve_drop_channels_complete v zerohop none (inr e) = rw e
resolve_drop_channels_complete v zerohop (some names) (inl (e, n)) = rw (e, n) (ground arith)
resolve_drop_channels_complete v zerohop (some []) (inr (n, e)) = absurd (n refl)
resolve_drop_channels_complete v zerohop (some (x ∷ names)) (inr (n, e)) = rw (
  e,
  validate_string_list_complete (arr (items_of (x ∷ names))) "drop_channels" (x ∷ names) (inr refl),
)

-- The sets that check_channels stores.
abbrev pub with_channels : Config → List String → Option (List String) → Config
with_channels config zerohop scope = record config {
  zerohop_channels_set = some zerohop;
  drop_channels_set = some scope;
}

pub check_channels_complete :
    (s : Checked) (zerohop : List String) (scope : Option (List String))
    → Denotes (item s.0.values "zerohop_channels") zerohop
    → DenotesScope zerohop (item s.0.values "drop_channels") scope
    → check_channels s ≡ (with_channels s.0 zerohop scope, s.1)
check_channels_complete s zerohop scope z d =
    let first = validate_string_list_complete _ "zerohop_channels" zerohop z in
    let second = resolve_drop_channels_complete _ zerohop scope d in
    unfold check_channels in rw (first, second, check_channels)

pub check_channels_sound :
    (s : Checked)
    → Clean (check_channels s)
    → (zerohop : List String) × (scope : Option (List String)) × Clean s
      × Denotes (item s.0.values "zerohop_channels") zerohop
      × DenotesScope zerohop (item s.0.values "drop_channels") scope
check_channels_sound s c =
    elim (Result-cases
      (validate_string_list (item s.0.values "zerohop_channels") "zerohop_channels")) [
        | inr (p, bad) ↦
            absurd (not_Clean s.1 p (unfold check_channels in (rw (bad, check_channels) at c)))
        | inl (zerohop, good) ↦
            elim (Result-cases (resolve_drop_channels (item s.0.values "drop_channels") zerohop)) [
              | inr (p, bad) ↦
                  absurd (
                    not_Clean s.1 p
                      (unfold check_channels in (rw (good, bad, check_channels) at c)))
              | inl (scope, fine) ↦ (
                zerohop,
                scope,
                unfold check_channels in (rw (good, fine, check_channels) at c),
                validate_string_list_sound _ _ zerohop good,
                resolve_drop_channels_sound _ zerohop scope fine,
              )
            ]
      ]

ne-nil-insert_sorted : (x : String) (ys : List String) → insert_sorted x ys ≢ []
unfolding insert_sorted
ne-nil-insert_sorted x [] h = cc
ne-nil-insert_sorted x (y ∷ ys) h = ground arith

-- No difference, no problem.
map-nil : {A B : Type 0} (f : A → B) (xs : List A) → map f xs ≡ [] → xs ≡ []
map-nil f [] h = refl
map-nil f (x ∷ xs) h = cc

pub sorted-nil : (xs : List String) → sorted xs ≡ [] → xs ≡ []
unfolding sorted
sorted-nil [] h = refl
sorted-nil (x ∷ xs) h = absurd (ne-nil-insert_sorted x (sorted xs) h)

pub minus-nil : (a b : List String) → minus a b ≡ [] → All (λ x. contains b x ≡ true) a
unfolding minus
minus-nil [] b h = tt
minus-nil (x ∷ a) b h = elim (Bool-cases (contains b x)) [
  | inl e ↦ (e, minus-nil a b (rw e at h))
  | inr e ↦ cc (rw e at h)
]

pub nil-minus : (a b : List String) → All (λ x. contains b x ≡ true) a → minus a b ≡ []
unfolding minus
nil-minus [] b h = refl
nil-minus (x ∷ a) b (e, h) = rw e (nil-minus a b h)

unknown_portnums_iff :
    (env : Env) (known names : List String)
    → (unknown_portnums env known names ≡ []) ↔ All (λ name. contains known name ≡ true) names
unknown_portnums_iff env known names = (
  λ h.
      minus-nil names known
        (sorted-nil (minus names known) (unfold unknown_portnums in map-nil _ _ h)),
  λ h. unfold unknown_portnums in (rw (nil-minus names known h)),
)

pub portnum_problems_iff :
    (env : Env) (names : List String)
    → (portnum_problems env names ≡ []) ↔ AreKnown env.portnums names
portnum_problems_iff env names = elim (Option-cases env.portnums) [
  | inl absent ↦ (λ h. rw absent tt, λ h. unfold portnum_problems in rw absent)
  | inr (known, present) ↦
      let some_problems : portnum_problems env names ≡ unknown_portnums env known names =
        unfold portnum_problems in rw present in
      let (to, from) = unknown_portnums_iff env known names in
      (λ h. rw present (to (sym some_problems ∙ h)), λ h. some_problems ∙ from (rw present at h))
]

append-nil_parts : (xs ys : List Problem) → xs ++ ys ≡ [] → (xs ≡ []) × (ys ≡ [])
append-nil_parts [] ys h = (refl, h)
append-nil_parts (x ∷ xs) ys h = cc

pub check_portnums_complete :
    (env : Env) (s : Checked) (names : List String)
    → Clean s
    → Denotes (item s.0.values "drop_portnums") names
    → AreKnown env.portnums names
    → check_portnums env s ≡ (record s.0 { drop_portnums_set = some names }, [])
check_portnums_complete env s names c d k =
    let listed = validate_string_list_complete _ "drop_portnums" names d in
    let known = (portnum_problems_iff env names).1 k in
    unfold check_portnums in rw (listed, known, c, check_portnums)

pub check_portnums_sound :
    (env : Env) (s : Checked)
    → Clean (check_portnums env s)
    → (names : List String) × Clean s
      × Denotes (item s.0.values "drop_portnums") names
      × AreKnown env.portnums names
check_portnums_sound env s c =
    elim (Result-cases (validate_string_list (item s.0.values "drop_portnums") "drop_portnums")) [
      | inr (p, bad) ↦
          absurd (not_Clean s.1 p (unfold check_portnums in (rw (bad, check_portnums) at c)))
      | inl (names, good) ↦
          let both : s.1 ++ portnum_problems env names ≡ [] =
            unfold check_portnums in (rw (good, check_portnums) at c) in
          let (before, known) = append-nil_parts _ _ both in
          (
            names,
            before,
            validate_string_list_sound _ _ names good,
            (portnum_problems_iff env names).0 known,
          )
    ]

-- The check of the channels leaves the dict's own keys alone.
pub check_channels-keeps : (s : Checked) → (check_channels s).0.values ≡ s.0.values
unfolding check_channels
check_channels-keeps s = ground arith
