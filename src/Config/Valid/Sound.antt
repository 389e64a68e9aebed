-- ===== src/Config/Valid/Sound.antt =====
-- Validation adds no error only for a dict that is acceptable.
use mathlib.Core.Path.{subst}
use floodgate.Common.{String, false, ◌==◌, Option, List, [], ◌≡◌, refl, ap, ◌∙◌}
use floodgate.Value.{Fields}
use floodgate.Config.{Config, item, log_levels, log_formats}
use floodgate.Config.Validate.{
  Env, check_log_level, check_log_format, check_topic_filter, check_channels, validate_values,
}
use floodgate.Config.Load.{unresolved}
use floodgate.Config.Valid.{Accepts, IsNormal, IsNonEmpty, Denotes, DenotesScope, format_value}
use floodgate.Config.Valid.Checks.{Clean, Clean-check_topic_filter, check_topic_filter-keeps}
use floodgate.Config.Valid.Lists.{check_channels_sound, check_portnums_sound, check_channels-keeps}
use floodgate.Config.Valid.Stages.{
  plain, plain-keeps, Clean-plain, Clean-check_log_level, Clean-check_log_format,
  format_value-check_log_level, texts-frame,
}

pub Clean-Accepts :
    (env : Env) (d : Fields)
    → Clean (validate_values env (unresolved d))
    → (zerohop : List String) × (scope : Option (List String)) × (names : List String) × Accepts env
        d zerohop scope names
Clean-Accepts env d c =
    let s0 = plain (unresolved d, []) in
    let s1 = check_log_level env s0 in
    let s2 = check_log_format env s1 in
    let s3 = check_topic_filter s2 in
    let s4 = check_channels s3 in
    let (names, c4, portnums, known) = check_portnums_sound env s4 (unfold validate_values in c) in
    let (zerohop, scope, c3, channels, drop) = check_channels_sound s3 c4 in
    let (c2, topic) = (Clean-check_topic_filter s2).0 c3 in
    let (c1, format) = (Clean-check_log_format env s1).0 c2 in
    let (c0, level) = (Clean-check_log_level env s0).0 c1 in
    let (start, fields) = (Clean-plain (unresolved d, [])).0 c0 in
    let same : s0.0.values ≡ d = ap (λ (x : Config). x.values) (plain-keeps (unresolved d, [])) in
    let kept : s3.0.values ≡ s2.0.values =
      ap (λ (x : Config). x.values) (check_topic_filter-keeps s2) in
    let frame = λ (k : String) (h : ("log_level" == k) ≡ false) (g : ("log_format" == k) ≡ false).
      texts-frame env s0 k h g ∙ ap (λ x. item x k) same in
    let at_channels =
      λ (k : String) (h : ("log_level" == k) ≡ false) (g : ("log_format" == k) ≡ false).
        ap (λ x. item x k) kept ∙ frame k h g in
    let at_portnums =
      ap (λ x. item x "drop_portnums") (check_channels-keeps s3)
      ∙ at_channels "drop_portnums" refl refl in
    (
      zerohop,
      scope,
      names,
      record {
        zerohop_enabled = fields.zerohop_enabled;
        drop_enabled = fields.drop_enabled;
        stats_log = fields.stats_log;
        grpc_port = fields.grpc_port;
        health_port = fields.health_port;
        grpc_max_workers = fields.grpc_max_workers;
        stats_interval_s = fields.stats_interval_s;
        log_level =
            subst (λ x. IsNormal env.casing.upper log_levels (item x "log_level")) same level;
        log_format =
            subst (IsNormal env.casing.lower log_formats)
              (format_value-check_log_level env s0 ∙ ap (format_value env) same) format;
        topic_filter = subst IsNonEmpty (frame "topic_filter" refl refl) topic;
        zerohop_channels =
            subst (λ v. Denotes v zerohop) (at_channels "zerohop_channels" refl refl) channels;
        drop_channels =
            subst (λ v. DenotesScope zerohop v scope) (at_channels "drop_channels" refl refl) drop;
        drop_portnums = subst (λ v. Denotes v names) at_portnums portnums;
        known = known;
      },
    )
