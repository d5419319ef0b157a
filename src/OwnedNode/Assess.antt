-- ===== src/OwnedNode/Assess.antt =====
-- What an accepted assessment says of the node.
use kaspa_frontier_engine.Base.{ℕ, ◌≤◌, ◌≡◌, true, false, saturating_sub, ok, is_ok}
use kaspa_frontier_engine.Base.Eq.{nat_eq}
use kaspa_frontier_engine.Base.Text.{text_eq}
use kaspa_frontier_engine.Network.{require_tn10}
use kaspa_frontier_engine.OwnedNode.{
  OwnedNodeHealth, healthy, max_internal_daa_delta, owned_node_stage, parse_version, is_too_old,
  dag_delta, local_score,
}

-- The conditions under which a node is accepted.
pub record IsAcceptable (h : OwnedNodeHealth) (public_daa max_daa_lag : ℕ) : Type 0 where
  pub lag_allowed : (1 ≤ max_daa_lag) × (max_daa_lag ≤ 100000)
  pub server_network : is_ok (require_tn10 h.server.network_id) ≡ true
  pub dag_network : is_ok (require_tn10 h.dag.network) ≡ true
  pub stage : owned_node_stage h ≡ healthy
  pub version :
      (v : ℕ × ℕ × ℕ) × (parse_version h.server.server_version ≡ ok v) × (is_too_old v ≡ false)
  pub agreement : dag_delta h ≤ max_internal_daa_delta
  pub recent : saturating_sub public_daa (local_score h) ≤ max_daa_lag
