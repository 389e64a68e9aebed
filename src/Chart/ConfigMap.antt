-- ===== src/Chart/ConfigMap.antt =====
-- When scripts/check_chart.py has nothing to say of the ConfigMap.
use floodgate.Common.{
  String, Bool, true, false, some, List, [], ◌∷◌, ◌≡◌, ◌≢◌, refl, sym, ap, ◌∙◌, arith, inl, inr,
}
use floodgate.Value.{Value, str, obj, Fields, get}
use floodgate.Config.{Config, LoadError, config_error, uncaught, raised, Result-cases}
use floodgate.Config.Load.{load_config}
use floodgate.Config.Valid.Loads.{Loads, load_config_iff}
use floodgate.Portnum.{>>=-eq-some}
use floodgate.Chart.{
  Checker, written, is_in, subscript, rejection_of, rejected, loaded_text, load_chart, data_of,
  config_problems,
}
use floodgate.Chart.Lookups.{subscript-some}

-- The ConfigMap holds a text that load_config accepts.
pub record HasConfig (checker : Checker) (cm : Value) : Type 0 where
  pub top : Fields
  pub data_fields : Fields
  pub text : String
  pub config : Config
  pub is_top : cm ≡ obj top
  pub has_data : get top "data" ≡ some (obj data_fields)
  pub has_text : get data_fields "config.yaml" ≡ some (str text)
  pub loads : Loads (written checker text) (some checker.temporary) config

not_rejected : (e : LoadError) → rejection_of (raised e) ≢ some []
not_rejected (config_error e) h = ground (arith, h)
not_rejected uncaught h = ground (arith, h)

module _ (checker : Checker) where
  loaded_text-none :
      (v : Value)
      → loaded_text checker v ≡ some []
      → (text : String) × ((v ≡ str text)
          × ((config : Config) × Loads (written checker text) (some checker.temporary) config))
  loaded_text-none (str text) h =
      elim (Result-cases (load_config (written checker text) (some checker.temporary))) [
        | inl (c, e) ↦ (
          text,
          (refl, (c, (load_config_iff (written checker text) (some checker.temporary) c).0 e)),
        )
        | inr (x, e) ↦ absurd (not_rejected x (ap rejection_of (sym e) ∙ h))
      ]
  loaded_text-none _ h = absurd (ground (arith, h))

  load_chart-none :
      (cm : Value) (found : Bool) → load_chart checker cm found ≡ some [] → HasConfig checker cm
  load_chart-none cm false h = absurd (ground (arith, h))
  load_chart-none cm true h =
      let (dv, e, h1) = >>=-eq-some (subscript cm "data") _ h in
      let (tv, f, h2) = >>=-eq-some (subscript dv "config.yaml") (loaded_text checker) h1 in
      let (top, (a, b)) = subscript-some cm "data" dv e in
      let (fields, (c, d)) = subscript-some dv "config.yaml" tv f in
      let (text, (g, (config, l))) = loaded_text-none tv h2 in
      record {
        top = top;
        data_fields = fields;
        text = text;
        config = config;
        is_top = a;
        has_data = b ∙ ap some c;
        has_text = d ∙ ap some g;
        loads = l;
      }

  pub config_problems-none :
      (cms : List Value)
      → config_problems checker cms ≡ some []
      → (cm : Value) × ((cms ≡ cm ∷ []) × HasConfig checker cm)
  unfolding config_problems
  config_problems-none [] h = absurd (ground (arith, h))
  config_problems-none (cm ∷ dm ∷ cms) h = absurd (ground (arith, h))
  config_problems-none (cm ∷ []) h =
      let (dv, e, h1) = >>=-eq-some (data_of cm) _ h in
      let (found, f, h2) =
        >>=-eq-some (is_in checker "config.yaml" dv) (load_chart checker cm) h1 in
      (cm, (refl, load_chart-none cm found h2))

  HasConfig-load : (cm : Value) → HasConfig checker cm → load_chart checker cm true ≡ some []
  HasConfig-load cm c =
      let accepted =
        (load_config_iff (written checker c.text) (some checker.temporary) c.config).1 c.loads in
      rw (load_chart, c.is_top, c.has_data, c.has_text) (rw (loaded_text, rejected, accepted) refl)

  pub HasConfig-none :
      (cm : Value) → HasConfig checker cm → config_problems checker (cm ∷ []) ≡ some []
  unfolding config_problems is_in
  HasConfig-none cm c =
      rw (c.is_top, c.has_data, c.has_text)
        (ap (λ v. load_chart checker v true) (sym c.is_top) ∙ HasConfig-load cm c)
