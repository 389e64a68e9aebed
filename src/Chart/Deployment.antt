-- ===== src/Chart/Deployment.antt =====
-- When scripts/check_chart.py has nothing to say of the Deployment.
use mathlib.Core.Option.{some_inj}
use floodgate.Common.{
  Bool, true, false, some, List, [], ◌∷◌, ◌++◌, ◌≡◌, ◌≢◌, refl, sym, ap, ◌∙◌, arith, inl, inr,
  Bool-cases,
}
use floodgate.Value.{Value, null, obj, Fields, get, truthy}
use floodgate.Portnum.{◌>>=◌, >>=-eq-some}
use floodgate.Chart.{
  Checker, ChartProblem, is_in, subscript, dot_get, or_empty, equals_zero, has_annotation,
  max_unavailable_of, checksum_problems, unavailable_problems, deployment_problems,
}
use floodgate.Value.Laws.{found_in}
use floodgate.Chart.Membership.{Contains, is_in-Contains, Contains-is_in}
use floodgate.Chart.Lookups.{
  subscript-some, dot_get-obj, dot_get-some, is_in-or_empty, not_zero_null, truthy-get, IsZero,
  equals_zero-IsZero, IsZero-equals_zero, obj_not_null,
}

-- The Deployment's pods carry the checksum, and a roll-out leaves none of them unavailable.
pub record IsRolledSafely (checker : Checker) (d : Value) : Type 0 where
  pub top : Fields
  pub spec : Fields
  pub template : Fields
  pub metadata : Fields
  pub annotations : Value
  pub strategy : Fields
  pub rolling : Fields
  pub max_unavailable : Value
  pub is_top : d ≡ obj top
  pub has_spec : get top "spec" ≡ some (obj spec)
  pub has_template : get spec "template" ≡ some (obj template)
  pub has_metadata : get template "metadata" ≡ some (obj metadata)
  pub has_annotations : get metadata "annotations" ≡ some annotations
  pub counts : truthy annotations ≡ true
  pub has_checksum : Contains checker "checksum/config" annotations
  pub has_strategy : get spec "strategy" ≡ some (obj strategy)
  pub has_rolling : get strategy "rollingUpdate" ≡ some (obj rolling)
  pub has_max : get rolling "maxUnavailable" ≡ some max_unavailable
  pub none_unavailable : IsZero max_unavailable

pub append-none : (ps qs : List ChartProblem) → ps ++ qs ≡ [] → (ps ≡ []) × (qs ≡ [])
append-none [] qs h = (refl, h)
append-none (p ∷ ps) qs h = cc

checksum-none : (found : Bool) → checksum_problems found ≡ [] → found ≡ true
checksum-none true h = refl
checksum-none false h = absurd (ground (arith, h))

unavailable-none : (v : Value) → unavailable_problems v ≡ [] → equals_zero v ≡ true
unavailable-none v h = elim (Bool-cases (equals_zero v)) [
  | inl e ↦ e
  | inr e ↦ absurd (ground (arith, rw e at h))
]

truthy_not_null : (v : Value) → truthy v ≡ true → v ≢ null
unfolding truthy
truthy_not_null v h e = absurd (ground (arith, rw e at h))

module _ (checker : Checker) where
  has_annotation-obj :
      (spec : Value) (found : Bool)
      → has_annotation checker spec ≡ some found
      → (d : Fields) × (spec ≡ obj d)
  unfolding has_annotation
  has_annotation-obj spec found h =
      let (tv, e, h1) = >>=-eq-some (subscript spec "template") _ h in
      let (d, (f, g)) = subscript-some spec "template" tv e in (d, f)

  has_annotation-true :
      (spec : Fields)
      → has_annotation checker (obj spec) ≡ some true
      → (template : Fields) × ((metadata : Fields) × ((annotations : Value) × ((get spec "template"
                ≡ some (obj template))
              × ((get template "metadata" ≡ some (obj metadata))
                  × ((get metadata "annotations" ≡ some annotations)
                      × ((truthy annotations ≡ true)
                          × (is_in checker "checksum/config" annotations ≡ some true)))))))
  unfolding has_annotation truthy
  has_annotation-true spec h =
      let (tv, e1, h1) = >>=-eq-some (get spec "template") _ h in
      let (mv, e2, h2) = >>=-eq-some (subscript tv "metadata") _ h1 in
      let (av, e3, h3) = >>=-eq-some (dot_get mv "annotations") _ h2 in
      let (template, (is_t, has_m)) = subscript-some tv "metadata" mv e2 in
      let (metadata, (is_m, has_a)) = dot_get-obj mv "annotations" av e3 in
      let (counts, has_c) = is_in-or_empty checker av "checksum/config" h3 in
      (
        template,
        (
          metadata,
          (
            av,
            (
              e1 ∙ ap some is_t,
              (
                has_m ∙ ap some is_m,
                (
                  found_in metadata "annotations" av has_a (truthy_not_null av counts),
                  (counts, has_c),
                ),
              ),
            ),
          ),
        ),
      )

  max_unavailable_of-some :
      (spec : Fields) (max_unavailable : Value)
      → max_unavailable_of (obj spec) ≡ some max_unavailable
      → max_unavailable ≢ null
      → (strategy : Fields) × ((rolling : Fields) × ((get spec "strategy" ≡ some (obj strategy))
            × ((get strategy "rollingUpdate" ≡ some (obj rolling))
                × (get rolling "maxUnavailable" ≡ some max_unavailable))))
  unfolding max_unavailable_of
  max_unavailable_of-some spec max_unavailable h n =
      let (sv, e1, h1) =
        >>=-eq-some (dot_get (obj spec) "strategy")
          (λ strategy. dot_get (or_empty strategy) "rollingUpdate" >>= λ rolling.
            dot_get (or_empty rolling) "maxUnavailable")
          h in
      let (rv, e2, h2) =
        >>=-eq-some (dot_get (or_empty sv) "rollingUpdate")
          (λ rolling. dot_get (or_empty rolling) "maxUnavailable") h1 in
      let (r, (is_r, has_max)) = dot_get-some rv "maxUnavailable" max_unavailable h2 n in
      let (s, (is_s, has_r)) =
        dot_get-some sv "rollingUpdate" rv e2 (λ e. obj_not_null r (sym is_r ∙ e)) in
      (
        s,
        (
          r,
          (
            found_in spec "strategy" (obj s) (some_inj.0 e1 ∙ is_s) (obj_not_null s),
            (has_r ∙ ap some is_r, has_max),
          ),
        ),
      )

  rolled :
      (d spec_value : Value) (found : Bool) (max_unavailable : Value)
      → subscript d "spec" ≡ some spec_value
      → has_annotation checker spec_value ≡ some found
      → max_unavailable_of spec_value ≡ some max_unavailable
      → found ≡ true
      → equals_zero max_unavailable ≡ true
      → IsRolledSafely checker d
  rolled d spec_value found max_unavailable a b c checked zero =
      let (top, (is_top, has_spec)) = subscript-some d "spec" spec_value a in
      let (spec, is_spec) = has_annotation-obj spec_value found b in
      let (template, (metadata, (annotations, (e1, (e2, (e3, (e4, e5))))))) =
        has_annotation-true spec
          (ap (has_annotation checker) (sym is_spec) ∙ b ∙ ap some checked) in
      let (strategy, (rolling, (f1, (f2, f3)))) =
        max_unavailable_of-some spec max_unavailable (ap max_unavailable_of (sym is_spec) ∙ c)
          (not_zero_null max_unavailable zero) in
      record {
        top = top;
        spec = spec;
        template = template;
        metadata = metadata;
        annotations = annotations;
        strategy = strategy;
        rolling = rolling;
        max_unavailable = max_unavailable;
        is_top = is_top;
        has_spec = has_spec ∙ ap some is_spec;
        has_template = e1;
        has_metadata = e2;
        has_annotations = e3;
        counts = e4;
        has_checksum = is_in-Contains checker "checksum/config" annotations e5;
        has_strategy = f1;
        has_rolling = f2;
        has_max = f3;
        none_unavailable = equals_zero-IsZero max_unavailable zero;
      }

  pub deployment_problems-none :
      (ds : List Value)
      → deployment_problems checker ds ≡ some []
      → (d : Value) × ((ds ≡ d ∷ []) × IsRolledSafely checker d)
  unfolding deployment_problems
  deployment_problems-none [] h = absurd (ground (arith, h))
  deployment_problems-none (d ∷ e ∷ ds) h = absurd (ground (arith, h))
  deployment_problems-none (d ∷ []) h =
      let (sv, e1, h1) = >>=-eq-some (subscript d "spec") _ h in
      let (found, e2, h2) = >>=-eq-some (has_annotation checker sv) _ h1 in
      let (max, e3, h3) = >>=-eq-some (max_unavailable_of sv) _ h2 in
      let (p, q) =
        append-none (checksum_problems found) (unavailable_problems max) (some_inj.0 h3) in
      (d, (refl, rolled d sv found max e1 e2 e3 (checksum-none found p) (unavailable-none max q)))

  IsRolledSafely-checked :
      (d : Value) (r : IsRolledSafely checker d) → has_annotation checker (obj r.spec) ≡ some true
  unfolding has_annotation
  IsRolledSafely-checked d r =
      rw (r.has_template, r.has_metadata, r.has_annotations, r.counts)
        (Contains-is_in checker "checksum/config" r.annotations r.has_checksum)

  IsRolledSafely-max :
      (d : Value) (r : IsRolledSafely checker d)
      → max_unavailable_of (obj r.spec) ≡ some r.max_unavailable
  unfolding max_unavailable_of
  IsRolledSafely-max d r =
      rw
        (
          r.has_strategy,
          truthy-get r.strategy "rollingUpdate" (obj r.rolling) r.has_rolling,
          r.has_rolling,
          truthy-get r.rolling "maxUnavailable" r.max_unavailable r.has_max,
          r.has_max,
        )
        refl

  pub IsRolledSafely-none :
      (d : Value) → IsRolledSafely checker d → deployment_problems checker (d ∷ []) ≡ some []
  unfolding deployment_problems
  IsRolledSafely-none d r =
      rw
        (
          r.is_top,
          r.has_spec,
          IsRolledSafely-checked d r,
          IsRolledSafely-max d r,
          IsZero-equals_zero r.max_unavailable r.none_unavailable,
        )
        refl
