-- ===== src/Portnum/Json.antt =====
-- The order in which extract_portnum_json probes a payload.
use floodgate.Common.{String, Option, none, some, ◌≡◌, ◌≢◌, ◌↔◌, arith, Option-cases, inl, inr}
use floodgate.Common.Text.{Casing}
use floodgate.Bytes.{Bytes}
use floodgate.Value.{Value, null, str, obj, Fields, get}
use floodgate.Value.Json.{JsonCodec}
use floodgate.Portnum.{
  type_table, lookup, as_dict, as_text, nested_portnum, typed_portnum, first, dict_portnum,
  extract_portnum_json, >>=-eq-some, first-some,
}

-- A wrapped packet that names its portnum: payload.decoded.portnum.
pub record IsWrapped (d : Fields) (name : String) : Type 0 where
  pub payload : Fields
  pub decoded : Fields
  pub has_payload : get d "payload" ≡ some (obj payload)
  pub has_decoded : get payload "decoded" ≡ some (obj decoded)
  pub has_portnum : get decoded "portnum" ≡ some (str name)

abbrev pub NotWrapped : Fields → Type 0
NotWrapped d = (name : String) → IsWrapped d name → ⊥

abbrev pub NoText : Fields → String → Type 0
NoText d key = (s : String) → get d key ≢ some (str s)

-- The three probes, each only where those before it find nothing.
pub data Names (casing : Casing) (d : Fields) (name : String) : Type 0 where
  wrapped : IsWrapped d name → Names casing d name
  top_level : NotWrapped d → get d "portnum" ≡ some (str name) → Names casing d name
  by_type :
      (type_str : String)
      → NotWrapped d
      → NoText d "portnum"
      → get d "type" ≡ some (str type_str)
      → lookup type_table (casing.lower type_str) ≡ some name
      → Names casing d name

pub as_dict-some : (o : Option Value) (d : Fields) → as_dict o ≡ some d → o ≡ some (obj d)
as_dict-some (some (obj d)) e h = cc
as_dict-some none e h = cc
as_dict-some (some null) e h = cc
as_dict-some (some _) e h = cc

as_text-some : (o : Option Value) (s : String) → as_text o ≡ some s → o ≡ some (str s)
as_text-some (some (str s)) e h = cc
as_text-some none e h = cc
as_text-some (some null) e h = cc
as_text-some (some _) e h = cc

nested_portnum_iff :
    (d : Fields) (name : String) → (nested_portnum d ≡ some name) ↔ IsWrapped d name
unfolding nested_portnum
nested_portnum_iff d name = (
  λ h.
      let (p, hp, k) = >>=-eq-some _ _ h in
      let (q, hq, l) = >>=-eq-some _ _ k in
      record {
        payload = p;
        decoded = q;
        has_payload = as_dict-some _ p hp;
        has_decoded = as_dict-some _ q hq;
        has_portnum = as_text-some _ name l;
      },
  λ w. rw (w.has_payload, w.has_decoded, w.has_portnum),
)

-- None, where no probe finds a text.
not_wrapped : (d : Fields) → nested_portnum d ≡ none → NotWrapped d
not_wrapped d h name w = ground (arith, h, (nested_portnum_iff d name).1 w)

no_text : (d : Fields) (key : String) → as_text (get d key) ≡ none → NoText d key
no_text d key h s e = cc (rw e at h)

typed_portnum-some :
    (casing : Casing) (d : Fields) (name : String)
    → typed_portnum casing d ≡ some name
    → (type_str : String) × (as_text (get d "type") ≡ some type_str)
      × (lookup type_table (casing.lower type_str) ≡ some name)
unfolding typed_portnum
typed_portnum-some casing d name h = >>=-eq-some _ _ h

dict_portnum-Names :
    (casing : Casing) (d : Fields) (name : String)
    → dict_portnum casing d ≡ some name
    → Names casing d name
dict_portnum-Names casing d name h =
    let rest = first (as_text (get d "portnum")) (typed_portnum casing d) in
    let opened : first (nested_portnum d) rest ≡ some name = unfold dict_portnum in h in
    elim (first-some (nested_portnum d) rest name opened) [
      | inl e ↦ wrapped ((nested_portnum_iff d name).0 e)
      | inr (e, later) ↦
          elim (first-some (as_text (get d "portnum")) (typed_portnum casing d) name later) [
            | inl f ↦ top_level (not_wrapped d e) (as_text-some _ name f)
            | inr (f, t) ↦
                let (ty, g, l) = typed_portnum-some casing d name t in
                by_type ty (not_wrapped d e) (no_text d "portnum" f) (as_text-some _ ty g) l
          ]
    ]

none_of_NotWrapped : (d : Fields) → NotWrapped d → nested_portnum d ≡ none
none_of_NotWrapped d n = elim (Option-cases (nested_portnum d)) [
  | inl e ↦ e
  | inr (s, e) ↦ absurd (n s ((nested_portnum_iff d s).0 e))
]

none_of_NoText : (d : Fields) (key : String) → NoText d key → as_text (get d key) ≡ none
none_of_NoText d key n = elim (Option-cases (as_text (get d key))) [
  | inl e ↦ e
  | inr (s, e) ↦ absurd (n s (as_text-some _ s e))
]

Names-dict_portnum :
    (casing : Casing) (d : Fields) (name : String)
    → Names casing d name
    → dict_portnum casing d ≡ some name
unfolding dict_portnum
Names-dict_portnum casing d name (wrapped w) = let e = (nested_portnum_iff d name).1 w in rw e
Names-dict_portnum casing d name (top_level n e) = rw (none_of_NotWrapped d n, e)
Names-dict_portnum casing d name (by_type ty n t e l) =
    let typed : typed_portnum casing d ≡ some name = unfold typed_portnum in rw (e, l) in
    rw (none_of_NotWrapped d n, none_of_NoText d "portnum" t, typed)

-- A JSON payload has a portnum exactly if it is an object, and the first of the three probes that
-- finds a text gives it: a wrapped packet's, the top level's, and the firmware's type, looked up in
-- lower case.
pub extract_portnum_json_iff :
    (json : JsonCodec) (casing : Casing) (payload : Bytes) (name : String)
    → (extract_portnum_json json casing payload ≡ some name)
      ↔ ((d : Fields) × (json.loads payload ≡ some (obj d)) × Names casing d name)
unfolding extract_portnum_json
extract_portnum_json_iff json casing payload name = (
  λ h.
      let (d, e, k) = >>=-eq-some _ _ h in
      (d, as_dict-some _ d e, dict_portnum-Names casing d name k),
  λ (d, e, n). rw e (Names-dict_portnum casing d name n),
)
