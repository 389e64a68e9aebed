-- ===== src/Chart/Passes.antt =====
-- Which rendered charts pass scripts/check_chart.py.
use mathlib.Core.Option.{some_inj}
use floodgate.Common.{ℕ, Option, some, List, [], ◌++◌, ◌≡◌, ◌↔◌, refl, ap, ◌∙◌}
use floodgate.Value.{Value}
use floodgate.Portnum.{>>=-eq-some}
use floodgate.Chart.{
  Checker, ChartProblem, non_empty, of_kind, config_problems, deployment_problems, exit_status,
  check_chart,
}
use floodgate.Chart.Kinds.{OnlyOne, of_kind-OnlyOne, OnlyOne-of_kind}
use floodgate.Chart.ConfigMap.{HasConfig, config_problems-none, HasConfig-none}
use floodgate.Chart.Deployment.{
  IsRolledSafely, append-none, deployment_problems-none, IsRolledSafely-none,
}

-- What the check asks of the documents.
pub record IsSafeChart (checker : Checker) (input : Option (List Value)) : Type 0 where
  pub docs : List Value
  pub config_map : Value
  pub deployment : Value
  pub parses : input ≡ some docs
  pub one_config : OnlyOne "ConfigMap" config_map docs
  pub one_deployment : OnlyOne "Deployment" deployment docs
  pub has_config : HasConfig checker config_map
  pub is_rolled_safely : IsRolledSafely checker deployment

exit_none :
    (ps : List ChartProblem)
    → ◌≡◌ {A = ℕ × List ChartProblem} (exit_status ps, ps) (0, [])
    → ps ≡ []
exit_none ps h = ap (λ (p : ℕ × List ChartProblem). p.1) h

check_chart-IsSafeChart :
    (checker : Checker) (input : Option (List Value))
    → check_chart checker input ≡ some (0, [])
    → IsSafeChart checker input
unfolding check_chart
check_chart-IsSafeChart checker input h =
    let (docs, e1, h1) = >>=-eq-some input _ h in
    let (cms, e2, h2) = >>=-eq-some (of_kind "ConfigMap" (non_empty docs)) _ h1 in
    let (ds, e3, h3) = >>=-eq-some (of_kind "Deployment" (non_empty docs)) _ h2 in
    let (ps, e4, h4) = >>=-eq-some (config_problems checker cms) _ h3 in
    let (qs, e5, h5) = >>=-eq-some (deployment_problems checker ds) _ h4 in
    let (p, q) = append-none ps qs (exit_none (ps ++ qs) (some_inj.0 h5)) in
    let (cm, (is_cm, config)) = config_problems-none checker cms (e4 ∙ ap some p) in
    let (d, (is_d, rolls)) = deployment_problems-none checker ds (e5 ∙ ap some q) in
    record {
      docs = docs;
      config_map = cm;
      deployment = d;
      parses = e1;
      one_config = of_kind-OnlyOne "ConfigMap" cm docs (e2 ∙ ap some is_cm);
      one_deployment = of_kind-OnlyOne "Deployment" d docs (e3 ∙ ap some is_d);
      has_config = config;
      is_rolled_safely = rolls;
    }

IsSafeChart-check_chart :
    (checker : Checker) (input : Option (List Value))
    → IsSafeChart checker input
    → check_chart checker input ≡ some (0, [])
unfolding check_chart
IsSafeChart-check_chart checker input c =
    rw
      (
        c.parses,
        OnlyOne-of_kind "ConfigMap" c.config_map c.one_config,
        OnlyOne-of_kind "Deployment" c.deployment c.one_deployment,
        HasConfig-none checker c.config_map c.has_config,
        IsRolledSafely-none checker c.deployment c.is_rolled_safely,
      )
      refl

-- The check ends with status 0 and no problem exactly if standard input parses, every document that
-- is not empty has a kind, there is one ConfigMap, whose config.yaml is a text that load_config accepts, and one
-- Deployment, whose pod template carries the checksum annotation and whose maxUnavailable is the
-- integer 0, false or a float 0.0.
pub check_chart-passes_iff :
    (checker : Checker) (input : Option (List Value))
    → (check_chart checker input ≡ some (0, [])) ↔ IsSafeChart checker input
check_chart-passes_iff checker input =
    (check_chart-IsSafeChart checker input, IsSafeChart-check_chart checker input)
