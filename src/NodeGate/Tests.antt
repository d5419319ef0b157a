-- ===== src/NodeGate/Tests.antt =====
-- Runs of the gate, and its theorem at a concrete input.
use mathlib.Core.Option
use kaspa_frontier_engine.Base.{
  ℕ, ◌≡◌, refl, true, false, Option, none, some, List, [], ◌∷◌, map, Result, ok, err, is_ok,
}
use kaspa_frontier_engine.Base.Eq.{nat_eq}
use kaspa_frontier_engine.Base.Text.{Text, text, text_eq}
use kaspa_frontier_engine.Base.Text.{text_beq, to_ascii_lowercase, trim_start, trim, starts_with}
use kaspa_frontier_engine.Network.{require_tn10}
use kaspa_frontier_engine.OwnedNode.{
  OwnedNodeHealth, no_peers, owned_node_stage, parse_u64, parse_version, assess_owned_node, least,
  select_primary,
}
use kaspa_frontier_engine.NodeGate.{
  OwnedNodeGateSummary, Probe, report_from_probe, evaluate_owned_node_gate, candidates_from,
  count_healthy, url_at, summarize_gate, run_owned_node_gate, resolve_gate_urls,
}
use kaspa_frontier_engine.NodeGate.Summary.{Summarizes, summarize_gate_lem}
use kaspa_frontier_engine.Network.{contains_text, is_unsupported_testnet_name}
use kaspa_frontier_engine.OwnedNode.{
  decimal, trim_start_v, before_dash, split_dots, version_of_parts,
}

abbrev node : ℕ → OwnedNodeHealth
node score = record {
  server = record {
    has_utxo_index = true;
    is_synced = true;
    network_id = text "testnet-10";
    rpc_api_revision = 0;
    rpc_api_version = 1;
    server_version = text "2.0.1";
    virtual_daa_score = score;
  };
  dag = record {
    network = text "testnet-10";
    virtual_daa_score = score;
    block_count = 1000;
    header_count = 1000;
  };
  connected_peers = 8;
  ibd_peers = 0;
}

abbrev probes : List (Text × Probe)
probes = (text "a", ok (node 1000)) ∷ (text "b", err no_peers) ∷ (text "c", ok (node 1004)) ∷ []

-- Everything that a run computes with.
everything : ℕ
unfolding assess_owned_node owned_node_stage parse_version version_of_parts split_dots before_dash
    trim_start_v parse_u64 decimal trim trim_start require_tn10 is_unsupported_testnet_name
    contains_text starts_with to_ascii_lowercase text_beq least select_primary report_from_probe
    evaluate_owned_node_gate candidates_from count_healthy url_at summarize_gate run_owned_node_gate
    resolve_gate_urls
everything = 0

abbrev selection : Result ℕ OwnedNodeGateSummary → Option Text × ℕ
selection (ok s) = (s.selected_url, s.healthy_nodes)
selection (err n) = (none, n)

gate_run : Option.map selection (run_owned_node_gate probes 1005 100 2) ≡ some (some (text "c"), 2)
unfolding everything
gate_run = refl

gate_closed : Option.map is_ok (run_owned_node_gate probes 1005 100 3) ≡ some false
unfolding everything
gate_closed = refl

dual_with_urls : is_ok (resolve_gate_urls (text "a" ∷ []) true) ≡ false
unfolding everything
dual_with_urls = refl

summarize_gate_lem_example :
    (s : OwnedNodeGateSummary) × (summarize_gate
        (evaluate_owned_node_gate probes 1005 100)
        (map (λ entry. entry.0) probes)
        1005
        100
        2
      ≡ some s)
    × Summarizes probes 1005 100 2 s
summarize_gate_lem_example = summarize_gate_lem probes 1005 100 2
