-- ===== src/NodeGate.antt =====
-- src/owned_node_gate.rs: the gate that wants N of M owned nodes healthy. A probe is a result of
-- `OwnedNodeHealth`; `urls[index]` out of range is a panic, here `none`.
pub mod Summary
mod Tests
use mathlib.Core.Option
use Prim.Native.Nat.{bit_xor, pred}
use kaspa_frontier_engine.Base.{
  ℕ, zero, suc, ◌+◌, ◌-◌, ◌*◌, ◌/◌, ◌%◌, ◌^◌, ◌≤◌, ◌<◌, max, min, ◌≡◌, refl, sym, ap, subst, ◌∙◌,
  ◌≢◌, ◌↔◌, ◌⊎◌, inl, inr, Bool, true, false, not, ◌&&◌, ◌||◌, Option, none, some, List, [], ◌∷◌,
  ◌++◌, map, arith, ltb, leb, nat_beq, if◌then◌else◌, nat_beq_iff, Bool-cases, Option-cases,
  is_some, saturating_sub, checked_add, u64_bound, u128_bound, i64_bound, Result, ok, err, ◌>>=◌,
  ◌>>◌, fail_if, ok_or, to_i64, is_ok, Result-cases,
}
use kaspa_frontier_engine.Base.Lists.{
  length, all, any, any-append, retain, All, All-append, All-retain, All-imp, length-append,
}
use kaspa_frontier_engine.Base.Eq.{Eq, ◌==◌, nat_eq}
use kaspa_frontier_engine.Base.Text.{
  Text, text, text_beq_iff, text_eq, is_empty, is_ascii_digit, is_ascii_lowercase,
  is_ascii_uppercase, is_ascii_alphanumeric, is_ascii_hexdigit, lower, is_whitespace,
}
use kaspa_frontier_engine.Base.Text.{
  text_beq, len, to_ascii_lowercase, trim_start, trim, starts_with,
}
use kaspa_frontier_engine.Base.Map.{
  Map, Set, AllEntries, AllEntries-lookup, AllEntries-insert, AllEntries-update, AllEntries-erase,
  AllEntries-imp, AllEntries-contains, contains, lookup-empty, lookup-insert, lookup-erase,
  lookup-update, map_laws,
}
use kaspa_frontier_engine.Base.Map.{lookup, insert, erase, update}
use mathlib.Core.List.{Memᴰ}
use kaspa_frontier_engine.Network.{NetworkError, require_tn10}
use kaspa_frontier_engine.OwnedNode.{
  WrpcServerInfo, WrpcBlockDagInfo, OwnedNodeHealth, OwnedNodeAssessment, NodeError,
  lag_out_of_range, no_utxo_index, still_importing, zero_header_count, no_peers, not_synced,
  index_out_of_range, headers_without_bodies, has_ibd_peers, responses_disagree, behind_public,
  invalid_version, version_too_old, of_network, Stage, healthy, utxo_commit, dag_incomplete,
  body_sync, ibd, no_connections, finishing_sync, missing_utxoindex, unreachable,
  max_internal_daa_delta, max_header_body_gap, header_gap, daa_is_zero, headers_missing,
  owned_node_stage, parse_u64, parse_version, is_too_old, in_network, abs_diff, dag_delta,
  local_score, assess_owned_node, Candidate, comes_before, least, select_primary,
  next_failover_index, choose_failover_index,
}

pub record OwnedNodeGateReport : Type 0 where
  pub url : Text
  pub is_healthy : Bool
  pub stage : Stage
  pub error : Option NodeError
  pub health : Option OwnedNodeHealth
  pub assessment : Option OwnedNodeAssessment

pub record OwnedNodeGateSummary : Type 0 where
  pub public_daa : ℕ
  pub max_daa_lag : ℕ
  pub required_healthy : ℕ
  pub healthy_nodes : ℕ
  pub gate_healthy : Bool
  pub selected_url : Option Text
  pub reports : List OwnedNodeGateReport

abbrev pub Probe : Type 0
Probe = Result NodeError OwnedNodeHealth

-- The report of a probe that answered, from the assessment.
abbrev pub report_of :
    Text → OwnedNodeHealth → Result NodeError OwnedNodeAssessment → OwnedNodeGateReport
report_of url h (ok assessment) = record {
  url = url;
  is_healthy = true;
  stage = owned_node_stage h;
  error = none;
  health = some h;
  assessment = some assessment;
}
report_of url h (err e) = record {
  url = url;
  is_healthy = false;
  stage = owned_node_stage h;
  error = some e;
  health = some h;
  assessment = none;
}

unfoldable pub report_from_probe : Text → Probe → ℕ → ℕ → OwnedNodeGateReport
report_from_probe url (ok h) public_daa max_daa_lag =
    report_of url h (assess_owned_node h public_daa max_daa_lag)
report_from_probe url (err e) public_daa max_daa_lag = record {
  url = url;
  is_healthy = false;
  stage = unreachable;
  error = some e;
  health = none;
  assessment = none;
}

-- Each url with its probe.
unfoldable pub evaluate_owned_node_gate : List (Text × Probe) → ℕ → ℕ → List OwnedNodeGateReport
evaluate_owned_node_gate [] public_daa max_daa_lag = []
evaluate_owned_node_gate ((url, probe) ∷ rest) public_daa max_daa_lag =
    report_from_probe url probe public_daa max_daa_lag
    ∷ evaluate_owned_node_gate rest public_daa max_daa_lag

-- `enumerate().filter_map(..)`, from an index on.
unfoldable pub candidates_from : ℕ → List OwnedNodeGateReport → List Candidate
candidates_from index [] = []
candidates_from index (report ∷ rest) =
    let others = candidates_from (index + 1) rest in
    elim report.assessment [ none ↦ others | some assessment ↦ (index, assessment) ∷ others ]

unfoldable pub count_healthy : List OwnedNodeGateReport → ℕ
count_healthy [] = 0
count_healthy (report ∷ rest) = let n = count_healthy rest in if report.is_healthy then n + 1 else n

unfoldable pub url_at : List Text → ℕ → Option Text
url_at [] index = none
url_at (url ∷ urls) index = if nat_beq index 0 then some url else url_at urls (index - 1)

-- The url of the selected node, and a panic on a wrong index.
abbrev pub select_url : List Text → Option ℕ → Option (Option Text)
select_url urls none = some none
select_url urls (some index) = Option.map some (url_at urls index)

abbrev pub summary_with : List OwnedNodeGateReport → ℕ → ℕ → ℕ → Option Text → OwnedNodeGateSummary
summary_with reports public_daa max_daa_lag required_healthy selected_url = record {
  public_daa = public_daa;
  max_daa_lag = max_daa_lag;
  required_healthy = required_healthy;
  healthy_nodes = count_healthy reports;
  gate_healthy = leb required_healthy (count_healthy reports);
  selected_url = selected_url;
  reports = reports;
}

unfoldable pub summarize_gate :
    List OwnedNodeGateReport → List Text → ℕ → ℕ → ℕ → Option OwnedNodeGateSummary
summarize_gate reports urls public_daa max_daa_lag required_healthy =
    Option.map (summary_with reports public_daa max_daa_lag required_healthy)
      (select_url urls (select_primary (candidates_from 0 reports)))

-- The summary, or the message that names how many nodes are healthy.
unfoldable pub run_owned_node_gate :
    List (Text × Probe) → ℕ → ℕ → ℕ → Option (Result ℕ OwnedNodeGateSummary)
run_owned_node_gate probes public_daa max_daa_lag required_healthy =
    Option.map
      (λ summary. if not summary.gate_healthy then err summary.healthy_nodes else ok summary)
      (summarize_gate (evaluate_owned_node_gate probes public_daa max_daa_lag)
        (map (λ p. p.0) probes) public_daa max_daa_lag required_healthy)

unfoldable pub resolve_gate_urls : List Text → Bool → Result Text (List Text)
resolve_gate_urls [] dual =
    if dual
    then ok (text "ws://127.0.0.1:18210" ∷ text "ws://127.0.0.1:28210" ∷ [])
    else ok (text "ws://127.0.0.1:18210" ∷ [])
resolve_gate_urls (url ∷ urls) dual =
    if dual
    then err (text "--dual cannot be combined with explicit --url values")
    else ok (url ∷ urls)
