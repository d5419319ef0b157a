-- ===== src/OwnedNode/Tests.antt =====
-- Runs of the health checks, and the theorems at concrete inputs.
use kaspa_frontier_engine.Base.{
  ℕ, ◌+◌, ◌<◌, ◌≡◌, refl, ◌≢◌, ◌⊎◌, true, some, List, [], ◌∷◌, arith, ok, err,
}
use kaspa_frontier_engine.Base.Eq.{nat_eq}
use kaspa_frontier_engine.Base.Text.{text, text_eq}
use kaspa_frontier_engine.Base.Text.{text_beq, to_ascii_lowercase, trim_start, trim, starts_with}
use kaspa_frontier_engine.Network.{require_tn10}
use kaspa_frontier_engine.OwnedNode.{
  OwnedNodeHealth, OwnedNodeAssessment, behind_public, invalid_version, owned_node_stage, parse_u64,
  parse_version, assess_owned_node, Candidate, least, select_primary, next_failover_index,
  choose_failover_index,
}
use kaspa_frontier_engine.Network.{contains_text, is_unsupported_testnet_name}
use kaspa_frontier_engine.OwnedNode.{
  decimal, trim_start_v, before_dash, split_dots, version_of_parts,
}
use kaspa_frontier_engine.OwnedNode.Choice.{IsBest, choose_failover_total}
use mathlib.Core.List.{Memᴰ}

abbrev node : OwnedNodeHealth
node = record {
  server = record {
    has_utxo_index = true;
    is_synced = true;
    network_id = text "testnet-10";
    rpc_api_revision = 0;
    rpc_api_version = 1;
    server_version = text "v2.0.1-abc";
    virtual_daa_score = 1000;
  };
  dag = record {
    network = text "testnet-10";
    virtual_daa_score = 1001;
    block_count = 1000;
    header_count = 1000;
  };
  connected_peers = 8;
  ibd_peers = 0;
}

abbrev assessed_at : ℕ → OwnedNodeAssessment
assessed_at lag = record {
  local_daa = 1001;
  public_daa = 1001 + lag;
  behind_public_daa = lag;
  server_dag_delta = 1;
  header_body_gap = 0;
  connected_peers = 8;
  ibd_peers = 0;
}

-- Everything that a run computes with.
everything : ℕ
unfolding assess_owned_node owned_node_stage parse_version version_of_parts split_dots before_dash
    trim_start_v parse_u64 decimal trim trim_start require_tn10 is_unsupported_testnet_name
    contains_text starts_with to_ascii_lowercase text_beq least select_primary next_failover_index
    choose_failover_index
everything = 0

assess_run : assess_owned_node node 1005 100 ≡ ok (assessed_at 4)
unfolding everything
assess_run = refl

far_behind : assess_owned_node node 1102 100 ≡ err (behind_public 101)
unfolding everything
far_behind = refl

old_version : parse_version (text "1.9.9") ≡ ok (1, 9, 9)
unfolding everything
old_version = refl

four_parts : parse_version (text "2.0.1.0") ≡ err (invalid_version (text "2.0.1.0"))
unfolding everything
four_parts = refl

abbrev candidates : List Candidate
candidates = (0, assessed_at 5) ∷ (1, assessed_at 2) ∷ (2, assessed_at 2) ∷ []

select_run : select_primary candidates ≡ some 1
unfolding everything
select_run = refl

-- The failed node is chosen again where it is a candidate.
failed_again : choose_failover_index 1 3 candidates ≡ ok 1
unfolding everything
failed_again = refl

choose_failover_total_example :
    (i : ℕ) × (choose_failover_index 0 3 candidates ≡ ok i)
    × (i < 3)
    × (((a : OwnedNodeAssessment) × Memᴰ (i, a) candidates × IsBest (i, a) candidates)
        ⊎ ((candidates ≡ []) × (1 < 3 → i ≢ 0)))
choose_failover_total_example =
    choose_failover_total 0 3 candidates (omega arith)
      (omega arith, (omega arith, (omega arith, tt)))
