-- ===== src/Process/Laws.antt =====
-- The three actions of src/floodgate/zerohop.py differ, and what that says of the verdicts.
pub mod Drops
pub mod Modifies
use floodgate.Common.{
  String, Bool, true, false, Option, none, some, List, ◌≡◌, ◌≢◌, ◌⊎◌, ◌↔◌, inl, inr, refl, sym, ap,
  ◌∙◌, ◌==◌, arith, Bool-cases, Option-cases, if◌then◌else◌, or_else, eq_iff,
}
use floodgate.Bytes.{Bytes}
use floodgate.Value.{Value, null, bool, Fields, end, field, int, get, truthy}
use floodgate.Value.Int.{ℤ, pos}
use floodgate.Config.{Config}
use floodgate.Config.Policy.{should_zerohop, should_drop}
use floodgate.Topic.{parse_meshtastic_topic}
use floodgate.Zerohop.{ZerohopResult, peek_meta}
use floodgate.Service.{Service, Exec}
use floodgate.Process.Describe.{description, drop_description}
use floodgate.Process.{
  ProcessResult, passthru, modify, drop, World, drop_check, drop_packet, pass_packet, keep_packet,
  modify_packet, is_zero_hop, hop_value, finish, zerohop_stage, process_packet, process_parsed,
  process_message_inner, process_message, recover, zerohop_of, portnum_of,
}
use floodgate.Process.Verdicts.{
  otherwise_pass, finished, zerohop_verdict, packet_verdict, process_packet_case,
  process_other_case,
}

pub different : {a b : ProcessResult} → (a.action == b.action) ≡ false → a ≢ b
different {a} {b} h e =
    let same : (a.action == b.action) ≡ true =
      (eq_iff a.action b.action).1 (ap (λ (r : ProcessResult). r.action) e) in
    cc

pub passthru_ne_drop : passthru ≢ drop
passthru_ne_drop = different refl

pub passthru_ne_modify : (bytes : Option Bytes) → passthru ≢ modify bytes
passthru_ne_modify bytes = different refl

pub drop_ne_modify : (bytes : Option Bytes) → drop ≢ modify bytes
drop_ne_modify bytes = different refl

pub neither :
    {A : Type 0} (b : Bool) (o : Option A) (bytes : Option Bytes)
    → (if b then passthru else otherwise_pass o (modify bytes)) ≢ drop
neither true o bytes h = passthru_ne_drop h
neither false none bytes h = passthru_ne_drop h
neither false (some a) bytes h = drop_ne_modify bytes (sym h)

pub otherwise_ne_modify :
    {A : Type 0} (o : Option A) (bytes : Option Bytes) → otherwise_pass o drop ≢ modify bytes
otherwise_ne_modify none bytes h = passthru_ne_modify bytes h
otherwise_ne_modify (some a) bytes h = drop_ne_modify bytes h
