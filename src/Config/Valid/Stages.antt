-- ===== src/Config/Valid/Stages.antt =====
-- The chain of checks of _validate_values, in the order that it makes them.
use mathlib.Core.Path.{subst}
use floodgate.Common.{ℕ, String, false, Option, none, some, ◌≡◌, ◌↔◌, refl, sym, ◌∙◌, ◌==◌}
use floodgate.Value.{Fields}
use floodgate.Config.{Config, item, log_levels, log_formats}
use floodgate.Config.Validate.{
  Env, Checked, check_bool, check_int, check_log_level, check_log_format, labelled_format, env_fmt,
}
use floodgate.Config.Valid.{IsBool, IsIntWithin, IsNormal, format_value}
use floodgate.Config.Valid.Checks.{
  Clean, Clean-check_bool, check_bool-keeps, Clean-check_int, check_int-keeps, Clean-store,
  store-frame,
}

-- What the checks of the Booleans and the integers ask of a dict.
pub record PlainFields (d : Fields) : Type 0 where
  pub zerohop_enabled : IsBool (item d "zerohop_enabled")
  pub drop_enabled : IsBool (item d "drop_enabled")
  pub stats_log : IsBool (item d "stats_log")
  pub grpc_port : IsIntWithin 1 (some 65535) (item d "grpc_port")
  pub health_port : IsIntWithin 1 (some 65535) (item d "health_port")
  pub grpc_max_workers : IsIntWithin 1 none (item d "grpc_max_workers")
  pub stats_interval_s : IsIntWithin 1 none (item d "stats_interval_s")

-- A check that leaves the dict alone, and adds no error exactly if the dict satisfies `P`.
record Guards (f : Checked → Checked) (P : Fields → Type 0) : Type 0 where
  cleans : (s : Checked) → Clean (f s) ↔ (Clean s × P s.0.values)
  keeps : (s : Checked) → (f s).0 ≡ s.0

Guards-IsBool : (key : String) → Guards (check_bool key) (λ d. IsBool (item d key))
Guards-IsBool key = record { cleans = Clean-check_bool key; keeps = check_bool-keeps key }

Guards-int :
    (key : String) (low : ℕ) (high : Option ℕ)
    → Guards (check_int key low high) (λ d. IsIntWithin low high (item d key))
Guards-int key low high = record {
  cleans = Clean-check_int key low high;
  keeps = check_int-keeps key low high;
}

-- One check after another.
infixl 20 ◌then_guards◌
◌then_guards◌ :
    {f g : Checked → Checked} {P Q : Fields → Type 0}
    → Guards f P
    → Guards g Q
    → Guards (λ s. g (f s)) (λ d. P d × Q d)
◌then_guards◌ {f} {g} {P} {Q} a b = record {
  cleans = λ s. (
    λ c.
        let (before, q) = (b.cleans (f s)).0 c in
        let (start, p) = (a.cleans s).0 before in
        (start, (p, subst (λ (c : Config). Q c.values) (a.keeps s) q)),
    λ h.
        (b.cleans (f s)).1
          ((a.cleans s).1 (h.0, h.1.0), subst (λ (c : Config). Q c.values) (sym (a.keeps s)) h.1.1),
  );
  keeps = λ s. b.keeps (f s) ∙ a.keeps s;
}

-- The checks of the Booleans and of the integers.
abbrev pub plain : Checked → Checked
plain s = check_int "stats_interval_s" 1 none (
    check_int "grpc_max_workers" 1 none (
      check_int "health_port" 1 (some 65535) (
        check_int "grpc_port" 1 (some 65535)
          (check_bool "stats_log" (check_bool "drop_enabled" (check_bool "zerohop_enabled" s))))))

abbrev PlainTuple : Fields → Type 0
PlainTuple d =
    (((((IsBool (item d "zerohop_enabled") × IsBool (item d "drop_enabled"))
            × IsBool (item d "stats_log"))
          × IsIntWithin 1 (some 65535) (item d "grpc_port"))
        × IsIntWithin 1 (some 65535) (item d "health_port"))
      × IsIntWithin 1 none (item d "grpc_max_workers"))
    × IsIntWithin 1 none (item d "stats_interval_s")

Guards-plain : Guards plain PlainTuple
Guards-plain =
    Guards-IsBool "zerohop_enabled"
    then_guards Guards-IsBool "drop_enabled"
    then_guards Guards-IsBool "stats_log"
    then_guards Guards-int "grpc_port" 1 (some 65535)
    then_guards Guards-int "health_port" 1 (some 65535)
    then_guards Guards-int "grpc_max_workers" 1 none
    then_guards Guards-int "stats_interval_s" 1 none

pub plain-keeps : (s : Checked) → (plain s).0 ≡ s.0
plain-keeps = Guards-plain.keeps

pub Clean-plain : (s : Checked) → Clean (plain s) ↔ (Clean s × PlainFields s.0.values)
Clean-plain s =
    let (to, from) = Guards-plain.cleans s in
    (
      λ c.
          let (start, h) = to c in
          (
            start,
            record {
              zerohop_enabled = h.0.0.0.0.0.0;
              drop_enabled = h.0.0.0.0.0.1;
              stats_log = h.0.0.0.0.1;
              grpc_port = h.0.0.0.1;
              health_port = h.0.0.1;
              grpc_max_workers = h.0.1;
              stats_interval_s = h.1;
            },
          ),
      λ h. from (
        h.0,
        (
          (
            (
              (((h.1.zerohop_enabled, h.1.drop_enabled), h.1.stats_log), h.1.grpc_port),
              h.1.health_port,
            ),
            h.1.grpc_max_workers,
          ),
          h.1.stats_interval_s,
        ),
      ),
    )

pub Clean-check_log_level :
    (env : Env) (s : Checked)
    → Clean (check_log_level env s)
      ↔ (Clean s × IsNormal env.casing.upper log_levels (item s.0.values "log_level"))
unfolding check_log_level
Clean-check_log_level env s =
    Clean-store env.casing.upper log_levels (item s.0.values "log_level") "log_level" _ s

pub Clean-check_log_format :
    (env : Env) (s : Checked)
    → Clean (check_log_format env s)
      ↔ (Clean s × IsNormal env.casing.lower log_formats (format_value env s.0.values))
unfolding check_log_format
Clean-check_log_format env s =
    Clean-store env.casing.lower log_formats (format_value env s.0.values) "log_format" _ s

-- The check of the level leaves what the check of the format reads.
pub format_value-check_log_level :
    (env : Env) (s : Checked)
    → format_value env (check_log_level env s).0.values ≡ format_value env s.0.values
format_value-check_log_level env s = from_var (env_fmt env)
  where
    from_var :
        (o : Option String)
        → (labelled_format o (check_log_level env s).0.values).0 ≡ (labelled_format o s.0.values).0
    from_var (some text) = refl
    from_var none = unfold check_log_level in store-frame _ "log_level" _ s "log_format" refl

-- What the two checks of texts leave alone.
pub texts-frame :
    (env : Env) (s : Checked) (k : String)
    → ("log_level" == k) ≡ false
    → ("log_format" == k) ≡ false
    → item (check_log_format env (check_log_level env s)).0.values k ≡ item s.0.values k
unfolding check_log_level check_log_format
texts-frame env s k h g =
    store-frame _ "log_format" _ (check_log_level env s) k g ∙ store-frame _ "log_level" _ s k h
