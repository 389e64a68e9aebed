-- ===== src/Zerohop/Json.antt =====
-- What zerohop_json does to a JSON packet.
pub mod Branches
use mathlib.Core.Path.{subst}
use floodgate.Zerohop.Hops.{IsIntField, HopsAreInts, EffectiveHops, own, json_hops-EffectiveHops}
use floodgate.Common.{
  String, true, false, Option, none, some, List, [], ◌∷◌, ◌≡◌, ◌≢◌, ◌⊎◌, ◌↔◌, refl, sym, ap, ◌∙◌,
  arith, All, inl, inr, Bool-cases, Option-cases, ◌==◌, eq_iff,
}
use floodgate.Bytes.{Bytes}
use floodgate.Value.{Value, null, int, obj, Fields, end, get, insert}
use floodgate.Value.Int.{ℤ, pos, negsuc}
use floodgate.Value.Laws.{get-insert}
use floodgate.Value.Distinct.{IsDistinct, HasDistinctKeys, insert-HasDistinctKeys}
use floodgate.Value.Json.{JsonCodec}
use floodgate.Portnum.{as_dict}
use floodgate.Portnum.Json.{as_dict-some}
use floodgate.Zerohop.{
  copied, collect, json_keys, json_meta, ZerohopResult, failed, has_bad_hops, json_hops, is_zero,
  zerohop_dict, is_bad, zerohop_json,
}

pub collect_cong :
    (f g : String → Option Value) (pairs : List (String × String)) (meta : Fields)
    → All (λ p. f p.0 ≡ g p.0) pairs
    → collect f pairs meta ≡ collect g pairs meta
unfolding collect
collect_cong f g [] meta h = refl
collect_cong f g ((k, m) ∷ pairs) meta (e, h) =
    rw e (collect_cong f g pairs (copied (g k) m meta) h)

-- The object with its hop limit zeroed.
abbrev pub zeroed : Fields → Fields
zeroed d = insert d "hop_limit" (int (pos 0))

get-zeroed : (d : Fields) (k : String) → ("hop_limit" == k) ≡ false → get (zeroed d) k ≡ get d k
get-zeroed d k h = rw (get-insert, h)

json_meta-zeroed : (d : Fields) → json_meta (zeroed d) ≡ json_meta d
unfolding json_meta
json_meta-zeroed d = collect_cong (get (zeroed d)) (get d) json_keys end (
  get-zeroed d "id" refl,
  (
    get-zeroed d "from" refl,
    (get-zeroed d "to" refl, (get-zeroed d "hop_start" refl, (get-zeroed d "via_mqtt" refl, tt))),
  ),
)

pub hop_limit-zeroed : (d : Fields) → get (zeroed d) "hop_limit" ≡ some (int (pos 0))
hop_limit-zeroed d = rw get-insert

pub json_hops-zeroed : (d : Fields) → json_hops (zeroed d) ≡ pos 0
unfolding json_hops
json_hops-zeroed d = ground (arith, hop_limit-zeroed d)

has_bad_hops-zeroed : (d : Fields) → has_bad_hops d ≡ false → has_bad_hops (zeroed d) ≡ false
unfolding has_bad_hops
has_bad_hops-zeroed d h =
    ground (arith, hop_limit-zeroed d, get-zeroed d "hop_start" refl, get-zeroed d "hops_away" refl)

is_bad_iff : (o : Option Value) → (is_bad o ≡ false) ↔ IsIntField o
is_bad_iff none = (λ _. inl refl, λ _. refl)
is_bad_iff (some (int z)) = (λ _. inr (z, refl), λ _. refl)
is_bad_iff (some null) = (λ h. cc, λ h. ground (arith, h))
is_bad_iff (some _) = (λ h. cc, λ h. ground (arith, h))

pub has_bad_hops_iff : (d : Fields) → (has_bad_hops d ≡ false) ↔ HopsAreInts d
unfolding has_bad_hops
has_bad_hops_iff d = (
  λ h. record {
    hop_limit = (is_bad_iff (get d "hop_limit")).0 (ground arith);
    hop_start = (is_bad_iff (get d "hop_start")).0 (ground arith);
    hops_away = (is_bad_iff (get d "hops_away")).0 (ground arith);
  },
  λ h. rw (
    (is_bad_iff (get d "hop_limit")).1 h.hop_limit,
    (is_bad_iff (get d "hop_start")).1 h.hop_start,
    (is_bad_iff (get d "hops_away")).1 h.hops_away,
  ),
)

limit_effective :
    (d : Fields) (hops : ℤ) → HopsAreInts d → json_hops d ≡ hops → EffectiveHops d hops
limit_effective d hops i e = subst (EffectiveHops d) e (json_hops-EffectiveHops d i)

-- What a successful zerohop_json has read and written.
pub record IsZeroed (json : JsonCodec) (payload bytes : Bytes) (hops : ℤ) (meta : Fields)
    : Type 0 where
  pub before : Fields
  pub after : Fields
  pub loaded : json.loads payload ≡ some (obj before)
  pub integers : HopsAreInts before
  pub limit : EffectiveHops before hops
  pub positive : hops ≢ pos 0
  pub reloaded : json.loads bytes ≡ some (obj after)
  pub cleared : get after "hop_limit" ≡ some (int (pos 0))
  pub hopless : EffectiveHops after (pos 0)
  pub others : (k : String) → k ≢ "hop_limit" → get after k ≡ get before k
  pub metadata : (meta ≡ json_meta before) × (meta ≡ json_meta after)

zerohop_dict_sound :
    (json : JsonCodec) (d : Fields) (bytes : Bytes) (hops : ℤ) (meta : Fields)
    → zerohop_dict json d ≡ some (some bytes, some hops, meta)
    → (has_bad_hops d ≡ false)
      × (is_zero (json_hops d) ≡ false)
      × (json.dumps (obj (zeroed d)) ≡ some bytes)
      × (json_hops d ≡ hops)
      × (json_meta d ≡ meta)
unfolding zerohop_dict
zerohop_dict_sound json d bytes hops meta h = ground arith

pub is_zero_iff : (z : ℤ) → (is_zero z ≡ true) ↔ (z ≡ pos 0)
is_zero_iff (pos n) = ground arith
is_zero_iff (negsuc n) = ground arith

bytes_ne_failed :
    {bytes : Bytes} {hops : ℤ} {meta : Fields}
    → ◌≢◌ {A = ZerohopResult} (some bytes, some hops, meta) failed
bytes_ne_failed e = cc

pub not_zero : (z : ℤ) → is_zero z ≡ false → z ≢ pos 0
not_zero (pos n) h e = ground arith
not_zero (negsuc n) h e = cc

pub obj_keys : (d : Fields) → IsDistinct (obj d) → HasDistinctKeys d
unfolding IsDistinct
obj_keys d h = h

pub obj-IsDistinct : (d : Fields) → HasDistinctKeys d → IsDistinct (obj d)
unfolding IsDistinct
obj-IsDistinct d h = h

str_ne : (k : String) → k ≢ "hop_limit" → ("hop_limit" == k) ≡ false
str_ne k h = elim (Bool-cases ("hop_limit" == k)) [
  | inl e ↦ absurd (h (sym ((eq_iff "hop_limit" k).0 e)))
  | inr e ↦ e
]

zerohop_json_dict :
    (json : JsonCodec) (payload : Bytes) (r : ZerohopResult)
    → zerohop_json json payload ≡ some r
    → ((d : Fields) × (json.loads payload ≡ some (obj d)) × (zerohop_dict json d ≡ some r))
      ⊎ ((as_dict (json.loads payload) ≡ none) × (r ≡ failed))
unfolding zerohop_json
zerohop_json_dict json payload r h = elim (Option-cases (as_dict (json.loads payload))) [
  | inl e ↦ inr (e, ground (arith, e))
  | inr (d, e) ↦ inl (d, as_dict-some _ d e, ground (arith, e))
]

-- Where zerohop_json returns bytes, the payload was an object whose hop fields are integers, its
-- effective hop limit is the one returned and not 0, and the bytes decode to the same object but for
-- a hop limit of 0. The metadata are those of both.
pub zerohop_json-IsZeroed :
    (json : JsonCodec) (payload bytes : Bytes) (hops : ℤ) (meta : Fields)
    → zerohop_json json payload ≡ some (some bytes, some hops, meta)
    → IsZeroed json payload bytes hops meta
zerohop_json-IsZeroed json payload bytes hops meta h =
    elim (zerohop_json_dict json payload (some bytes, some hops, meta) h) [
      | inr (e, f) ↦ absurd (bytes_ne_failed f)
      | inl (d, e, f) ↦
          let (fine, more, dumped_to, limit, data_of) =
            zerohop_dict_sound json d bytes hops meta f in
          let distinct =
            insert-HasDistinctKeys d "hop_limit" (int (pos 0)) (unfold IsDistinct in tt)
              (obj_keys d (json.loads-IsDistinct payload (obj d) e)) in
          record {
            before = d;
            after = zeroed d;
            loaded = e;
            integers = (has_bad_hops_iff d).0 fine;
            limit = limit_effective d hops ((has_bad_hops_iff d).0 fine) limit;
            positive = λ z. not_zero (json_hops d) more (limit ∙ z);
            reloaded =
                json.loads-dumps (obj (zeroed d)) bytes (obj-IsDistinct (zeroed d) distinct)
                  dumped_to;
            cleared = hop_limit-zeroed d;
            hopless = own (pos 0) (hop_limit-zeroed d);
            others = λ k n. get-zeroed d k (str_ne k n);
            metadata = (sym data_of, sym data_of ∙ sym (json_meta-zeroed d));
          }
    ]
