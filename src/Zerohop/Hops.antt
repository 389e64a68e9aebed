-- ===== src/Zerohop/Hops.antt =====
-- The hop fields of a JSON packet, and its effective hop limit by the rule that the comments of
-- zerohop_json of src/floodgate/zerohop.py give.
use floodgate.Common.{
  ℕ, ◌+◌, ◌-◌, Option, none, some, ◌≡◌, ◌⊎◌, inl, inr, refl, arith, leb, Bool-cases, Option-cases,
  ap,
}
use floodgate.Value.{Value, int, Fields, get}
use floodgate.Value.Int.{ℤ, pos, pos_part, neg_part, sub_ℕ, max_zero, ◌-ℤ◌}
use floodgate.Zerohop.{json_hops}

-- A field that is absent or holds an integer (and no Boolean).
abbrev pub IsIntField : Option Value → Type 0
IsIntField o = (o ≡ none) ⊎ ((z : ℤ) × (o ≡ some (int z)))

pub record HopsAreInts (d : Fields) : Type 0 where
  pub hop_limit : IsIntField (get d "hop_limit")
  pub hop_start : IsIntField (get d "hop_start")
  pub hops_away : IsIntField (get d "hops_away")

-- The hops that are left to a packet: its own hop limit, or else what the hops it has made leave of
-- those it started with, and none where one of the two is not given.
pub data EffectiveHops (d : Fields) : ℤ → Type 0 where
  own : (hops : ℤ) → get d "hop_limit" ≡ some (int hops) → EffectiveHops d hops
  remaining :
      (start away : ℤ)
      → get d "hop_limit" ≡ none
      → get d "hop_start" ≡ some (int start)
      → get d "hops_away" ≡ some (int away)
      → EffectiveHops d (pos (pos_part start + neg_part away - (neg_part start + pos_part away)))
  unknown :
      get d "hop_limit" ≡ none
      → (get d "hop_start" ≡ none) ⊎ (get d "hops_away" ≡ none)
      → EffectiveHops d (pos 0)

max_zero-sub_ℕ : (a b : ℕ) → max_zero (sub_ℕ a b) ≡ pos (a - b)
max_zero-sub_ℕ a b = elim (Bool-cases (leb b a)) [
  | inl e ↦ rw e refl
  | inr e ↦ rw e (ap pos (ground (arith, e)))
]

pub EffectiveHops-json_hops : (d : Fields) (hops : ℤ) → EffectiveHops d hops → json_hops d ≡ hops
unfolding json_hops ◌-ℤ◌
EffectiveHops-json_hops d _ (own hops e) = rw e refl
EffectiveHops-json_hops d _ (remaining start away n s a) =
    rw (n, s, a) (max_zero-sub_ℕ (pos_part start + neg_part away) (neg_part start + pos_part away))
EffectiveHops-json_hops d _ (unknown n (inl s)) = rw (n, s) refl
EffectiveHops-json_hops d _ (unknown n (inr a)) = elim (Option-cases (get d "hop_start")) [
  | inl s ↦ rw (n, s) refl
  | inr (v, s) ↦ rw (n, s, a) refl
]

-- Integer hop fields give a packet an effective hop limit.
pub effective : (d : Fields) → HopsAreInts d → (hops : ℤ) × EffectiveHops d hops
effective d i = elim i.hop_limit [
  | inr (z, e) ↦ (z, own z e)
  | inl n ↦ elim i.hop_start [
    | inl s ↦ (_, unknown n (inl s))
    | inr (start, s) ↦ elim i.hops_away [
      | inl a ↦ (_, unknown n (inr a))
      | inr (away, a) ↦ (_, remaining start away n s a)
    ]
  ]
]

pub json_hops-EffectiveHops : (d : Fields) → HopsAreInts d → EffectiveHops d (json_hops d)
json_hops-EffectiveHops d i =
    let (hops, e) = effective d i in rw (EffectiveHops-json_hops d hops e) e
