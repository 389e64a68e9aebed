-- ===== src/Zerohop/Json/Branches.antt =====
-- zerohop_json of src/floodgate/zerohop.py on each of its branches, and twice over.
use floodgate.Common.{
  true, false, none, some, ◌≡◌, ◌≢◌, ◌↔◌, refl, sym, ap, ◌∙◌, arith, inl, inr, Bool-cases,
  Option-cases,
}
use floodgate.Bytes.{Bytes}
use floodgate.Value.{int, obj, Fields}
use floodgate.Value.Int.{ℤ, pos}
use floodgate.Value.Distinct.{IsDistinct, insert-HasDistinctKeys}
use floodgate.Value.Json.{JsonCodec}
use floodgate.Portnum.{as_dict}
use floodgate.Portnum.Json.{as_dict-some}
use floodgate.Zerohop.{
  json_meta, failed, has_bad_hops, json_hops, is_zero, zerohop_dict, zerohop_json,
}
use floodgate.Zerohop.Hops.{HopsAreInts, EffectiveHops, EffectiveHops-json_hops}
use floodgate.Zerohop.Json.{
  bytes_ne_failed, has_bad_hops-zeroed, has_bad_hops_iff, is_zero_iff, json_hops-zeroed,
  json_meta-zeroed, obj-IsDistinct, obj_keys, zeroed, zerohop_dict_sound, zerohop_json_dict,
}

pub zerohop_loaded :
    (json : JsonCodec) (payload : Bytes) (d : Fields)
    → json.loads payload ≡ some (obj d)
    → zerohop_json json payload ≡ zerohop_dict json d
unfolding zerohop_json
zerohop_loaded json payload d e = rw e

zerohop_dict_noop :
    (json : JsonCodec) (d : Fields)
    → has_bad_hops d ≡ false
    → json_hops d ≡ pos 0
    → zerohop_dict json d ≡ some (none, some (pos 0), json_meta d)
unfolding zerohop_dict
zerohop_dict_noop json d h e = rw (h, e)

-- What zerohop_json has written it leaves alone the next time: the hop limit is 0 already, and the
-- metadata are the same.
pub zerohop_json_again :
    (json : JsonCodec) (payload bytes : Bytes) (hops : ℤ) (meta : Fields)
    → zerohop_json json payload ≡ some (some bytes, some hops, meta)
    → zerohop_json json bytes ≡ some (none, some (pos 0), meta)
zerohop_json_again json payload bytes hops meta h =
    elim (zerohop_json_dict json payload (some bytes, some hops, meta) h) [
      | inr (e, f) ↦ absurd (bytes_ne_failed f)
      | inl (d, e, f) ↦
          let (fine, more, dumped_to, limit, data_of) =
            zerohop_dict_sound json d bytes hops meta f in
          let distinct =
            insert-HasDistinctKeys d "hop_limit" (int (pos 0)) (unfold IsDistinct in tt)
              (obj_keys d (json.loads-IsDistinct payload (obj d) e)) in
          let reloaded =
            json.loads-dumps (obj (zeroed d)) bytes (obj-IsDistinct (zeroed d) distinct)
              dumped_to in
          zerohop_loaded json bytes (zeroed d) reloaded
          ∙ zerohop_dict_noop json (zeroed d) (has_bad_hops-zeroed d fine) (json_hops-zeroed d)
          ∙ ap (λ m. some (none, some (pos 0), m)) (json_meta-zeroed d ∙ data_of)
    ]

dict_ne_failed :
    (json : JsonCodec) (d : Fields) → has_bad_hops d ≡ false → zerohop_dict json d ≢ some failed
unfolding zerohop_dict
dict_ne_failed json d h e = ground (arith, h, e)

bad_dict :
    (json : JsonCodec) (d : Fields) → has_bad_hops d ≡ true → zerohop_dict json d ≡ some failed
unfolding zerohop_dict
bad_dict json d h = rw h

no_dict :
    (json : JsonCodec) (payload : Bytes)
    → as_dict (json.loads payload) ≡ none
    → zerohop_json json payload ≡ some failed
unfolding zerohop_json
no_dict json payload e = rw e

-- zerohop_json reports a failure exactly for a payload that is no object with integer hop fields: no
-- JSON, no object, or a hop field of another type.
pub zerohop_json-failed_iff :
    (json : JsonCodec) (payload : Bytes)
    → (zerohop_json json payload ≡ some failed)
      ↔ ((d : Fields) → json.loads payload ≡ some (obj d) → ¬ HopsAreInts d)
zerohop_json-failed_iff json payload = (to, from)
  where
    to :
        zerohop_json json payload ≡ some failed
        → (d : Fields) → json.loads payload ≡ some (obj d)
        → ¬ HopsAreInts d
    to h d e i =
        dict_ne_failed json d ((has_bad_hops_iff d).1 i) (sym (zerohop_loaded json payload d e) ∙ h)

    from :
        ((d : Fields) → json.loads payload ≡ some (obj d) → ¬ HopsAreInts d)
        → zerohop_json json payload ≡ some failed
    from n = elim (Option-cases (as_dict (json.loads payload))) [
      | inl e ↦ no_dict json payload e
      | inr (d, e) ↦
          let loaded = as_dict-some _ d e in
          elim (Bool-cases (has_bad_hops d)) [
            | inl bad ↦ zerohop_loaded json payload d loaded ∙ bad_dict json d bad
            | inr fine ↦ absurd (n d loaded ((has_bad_hops_iff d).0 fine))
          ]
    ]

not_zero_hops : (z : ℤ) → z ≢ pos 0 → is_zero z ≡ false
not_zero_hops z n = elim (Bool-cases (is_zero z)) [
  | inl e ↦ absurd (n ((is_zero_iff z).0 e))
  | inr e ↦ e
]

-- zerohop_json returns the object with its hop limit zeroed, as `dumps` writes it, with the effective
-- hop limit that it had, for every object whose hop fields are integers, whose effective hop limit is
-- not 0 and that `dumps` can write with its hop limit zeroed. What is returned loads to the zeroed
-- object.
pub zerohop_json-zeroed :
    (json : JsonCodec) (payload bytes : Bytes) (d : Fields) (hops : ℤ)
    → json.loads payload ≡ some (obj d)
    → HopsAreInts d
    → EffectiveHops d hops
    → hops ≢ pos 0
    → json.dumps (obj (zeroed d)) ≡ some bytes
    → (zerohop_json json payload ≡ some (some bytes, some hops, json_meta d))
      × (json.loads bytes ≡ some (obj (zeroed d)))
zerohop_json-zeroed json payload bytes d hops e i h n w =
    let counted = EffectiveHops-json_hops d hops h in
    let distinct =
      insert-HasDistinctKeys d "hop_limit" (int (pos 0)) (unfold IsDistinct in tt)
        (obj_keys d (json.loads-IsDistinct payload (obj d) e)) in
    (
      zerohop_loaded json payload d e
          ∙ (unfold zerohop_dict in
              rw ((has_bad_hops_iff d).1 i, counted, not_zero_hops hops n, w) refl),
      json.loads-dumps (obj (zeroed d)) bytes (obj-IsDistinct (zeroed d) distinct) w,
    )

pub zerohop_json-noop :
    (json : JsonCodec) (payload : Bytes) (d : Fields)
    → json.loads payload ≡ some (obj d)
    → HopsAreInts d
    → EffectiveHops d (pos 0)
    → zerohop_json json payload ≡ some (none, some (pos 0), json_meta d)
zerohop_json-noop json payload d e i z =
    zerohop_loaded json payload d e
    ∙ zerohop_dict_noop json d ((has_bad_hops_iff d).1 i) (EffectiveHops-json_hops d (pos 0) z)
