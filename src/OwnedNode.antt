-- ===== src/OwnedNode.antt =====
-- src/owned_node.rs: the health checks of an operator's own node, and the choice of a node of a pool.
-- The probe over a socket is not modelled: `OwnedNodeHealth` is what it returns.
pub mod Assess
pub mod Choice
mod Tests
use mathlib.Core.Option
use Prim.Native.Nat.{bit_xor, pred}
use kaspa_frontier_engine.Base.{
  ℕ, zero, suc, ◌+◌, ◌-◌, ◌*◌, ◌/◌, ◌%◌, ◌^◌, ◌≤◌, ◌<◌, max, min, ◌≡◌, refl, sym, ap, subst, ◌∙◌,
  ◌≢◌, ◌↔◌, ◌⊎◌, inl, inr, Bool, true, false, not, ◌&&◌, ◌||◌, Option, none, some, List, [], ◌∷◌,
  ◌++◌, map, arith, ltb, leb, nat_beq, if◌then◌else◌, nat_beq_iff, Bool-cases, Option-cases,
  is_some, saturating_sub, checked_add, u64_bound, u128_bound, i64_bound, Result, ok, err, ◌>>=◌,
  ◌>>◌, fail_if, ok_or, to_i64, is_ok, Result-cases,
}
use kaspa_frontier_engine.Base.Lists.{
  length, all, any, any-append, retain, All, All-append, All-retain, All-imp, length-append,
}
use kaspa_frontier_engine.Base.Eq.{Eq, ◌==◌, nat_eq}
use kaspa_frontier_engine.Base.Text.{
  Text, text, text_beq_iff, text_eq, is_empty, is_ascii_digit, is_ascii_lowercase,
  is_ascii_uppercase, is_ascii_alphanumeric, is_ascii_hexdigit, lower, is_whitespace,
}
use kaspa_frontier_engine.Base.Text.{
  text_beq, len, to_ascii_lowercase, trim_start, trim, starts_with,
}
use kaspa_frontier_engine.Base.Map.{
  Map, Set, AllEntries, AllEntries-lookup, AllEntries-insert, AllEntries-update, AllEntries-erase,
  AllEntries-imp, AllEntries-contains, contains, lookup-empty, lookup-insert, lookup-erase,
  lookup-update, map_laws,
}
use kaspa_frontier_engine.Base.Map.{lookup, insert, erase, update}
use kaspa_frontier_engine.Network.{NetworkError, require_tn10}

-- `WrpcServerInfo` and `WrpcBlockDagInfo` of src/wrpc.rs.
pub record WrpcServerInfo : Type 0 where
  pub has_utxo_index : Bool
  pub is_synced : Bool
  pub network_id : Text
  pub rpc_api_revision : ℕ
  pub rpc_api_version : ℕ
  pub server_version : Text
  pub virtual_daa_score : ℕ

pub record WrpcBlockDagInfo : Type 0 where
  pub network : Text
  pub virtual_daa_score : ℕ
  pub block_count : ℕ
  pub header_count : ℕ

pub record OwnedNodeHealth : Type 0 where
  pub server : WrpcServerInfo
  pub dag : WrpcBlockDagInfo
  pub connected_peers : ℕ
  pub ibd_peers : ℕ

pub record OwnedNodeAssessment : Type 0 where
  pub local_daa : ℕ
  pub public_daa : ℕ
  pub behind_public_daa : ℕ
  pub server_dag_delta : ℕ
  pub header_body_gap : ℕ
  pub connected_peers : ℕ
  pub ibd_peers : ℕ

-- The messages of `EngineError`, without their texts.
pub data NodeError : Type 0 where
  lag_out_of_range no_utxo_index still_importing zero_header_count no_peers not_synced : NodeError
  index_out_of_range : NodeError
  headers_without_bodies has_ibd_peers responses_disagree behind_public : ℕ → NodeError
  invalid_version version_too_old : Text → NodeError
  of_network : NetworkError → NodeError

pub data Stage : Type 0 where
  healthy utxo_commit dag_incomplete body_sync ibd no_connections : Stage
  finishing_sync missing_utxoindex unreachable : Stage

abbrev pub max_internal_daa_delta : ℕ
max_internal_daa_delta = 100

abbrev pub max_header_body_gap : ℕ
max_header_body_gap = 100

abbrev pub is_zero : ℕ → Bool
is_zero n = nat_beq n 0

abbrev pub header_gap : OwnedNodeHealth → ℕ
header_gap h = saturating_sub h.dag.header_count h.dag.block_count

abbrev pub daa_is_zero : OwnedNodeHealth → Bool
daa_is_zero h = is_zero h.server.virtual_daa_score || is_zero h.dag.virtual_daa_score

abbrev pub headers_missing : OwnedNodeHealth → Bool
headers_missing h = ltb 0 h.dag.virtual_daa_score && is_zero h.dag.header_count

unfoldable pub owned_node_stage : OwnedNodeHealth → Stage
owned_node_stage h =
    if not h.server.has_utxo_index
    then missing_utxoindex
    else if daa_is_zero h
    then utxo_commit
    else if headers_missing h
    then dag_incomplete
    else if ltb max_header_body_gap (header_gap h)
    then body_sync
    else if ltb 0 h.ibd_peers
    then ibd
    else if is_zero h.connected_peers
    then no_connections
    else if not h.server.is_synced
    then finishing_sync
    else healthy

unfoldable pub decimal : ℕ → Text → ℕ
decimal acc [] = acc
decimal acc (c ∷ s) = decimal (acc * 10 + (c - b'0')) s

-- `str::parse::<u64>`: a sign `+` may stand first.
abbrev pub after_plus : Text → Text
after_plus [] = []
after_plus (c ∷ s) = if nat_beq c b'+' then s else c ∷ s

unfoldable pub parse_u64 : Text → Option ℕ
parse_u64 raw =
    let digits = after_plus raw in
    if is_empty digits || not (all is_ascii_digit digits)
    then none
    else if ltb (decimal 0 digits) u64_bound
    then some (decimal 0 digits)
    else none

unfoldable pub trim_start_v : Text → Text
trim_start_v [] = []
trim_start_v (c ∷ s) = let rest = trim_start_v s in if nat_beq c b'v' then rest else c ∷ s

-- What stands before the first `-`.
unfoldable pub before_dash : Text → Text
before_dash [] = []
before_dash (c ∷ s) = if nat_beq c b'-' then [] else c ∷ before_dash s

-- `str::split('.')`: the first part, and the others.
unfoldable pub split_dots : Text → Text × List Text
split_dots [] = ([], [])
split_dots (c ∷ s) =
    let (part, parts) = split_dots s in
    if nat_beq c b'.' then ([], part ∷ parts) else (c ∷ part, parts)

abbrev pub three : Option ℕ → Option ℕ → Option ℕ → Option (ℕ × ℕ × ℕ)
three (some major) (some minor) (some patch) = some (major, minor, patch)
three _ _ _ = none

-- Exactly three parts.
unfoldable pub version_of_parts : Text × List Text → Option (ℕ × ℕ × ℕ)
version_of_parts (a, b ∷ c ∷ []) = three (parse_u64 a) (parse_u64 b) (parse_u64 c)
version_of_parts _ = none

unfoldable pub parse_version : Text → Result NodeError (ℕ × ℕ × ℕ)
parse_version raw =
    ok_or (version_of_parts (split_dots (before_dash (trim_start_v (trim raw)))))
      (invalid_version raw)

-- `version < (2, 0, 1)`, in the order of tuples.
abbrev pub is_too_old : ℕ × ℕ × ℕ → Bool
is_too_old (major, minor, patch) =
    ltb major 2 || (nat_beq major 2 && (ltb minor 0 || (nat_beq minor 0 && ltb patch 1)))

abbrev pub in_network : Result NetworkError (Unit {0}) → Result NodeError (Unit {0})
in_network (ok done) = ok tt
in_network (err e) = err (of_network e)

abbrev pub abs_diff : ℕ → ℕ → ℕ
abs_diff a b = saturating_sub (max a b) (min a b)

abbrev pub dag_delta : OwnedNodeHealth → ℕ
dag_delta h = abs_diff h.server.virtual_daa_score h.dag.virtual_daa_score

abbrev pub local_score : OwnedNodeHealth → ℕ
local_score h = max h.server.virtual_daa_score h.dag.virtual_daa_score

unfoldable pub assess_owned_node : OwnedNodeHealth → ℕ → ℕ → Result NodeError OwnedNodeAssessment
assess_owned_node h public_daa max_daa_lag = do
  fail_if (is_zero max_daa_lag || ltb 100000 max_daa_lag) lag_out_of_range
  in_network (require_tn10 h.server.network_id)
  in_network (require_tn10 h.dag.network)
  fail_if (not h.server.has_utxo_index) no_utxo_index
  fail_if (daa_is_zero h) still_importing
  fail_if (headers_missing h) zero_header_count
  fail_if (ltb max_header_body_gap (header_gap h)) (headers_without_bodies (header_gap h))
  fail_if (ltb 0 h.ibd_peers) (has_ibd_peers h.ibd_peers)
  fail_if (is_zero h.connected_peers) no_peers
  fail_if (not h.server.is_synced) not_synced
  version ← parse_version h.server.server_version
  fail_if (is_too_old version) (version_too_old h.server.server_version)
  fail_if (ltb max_internal_daa_delta (dag_delta h)) (responses_disagree (dag_delta h))
  let behind = saturating_sub public_daa (local_score h)
  fail_if (ltb max_daa_lag behind) (behind_public behind)
  ok (record {
    local_daa = local_score h;
    public_daa = public_daa;
    behind_public_daa = behind;
    server_dag_delta = dag_delta h;
    header_body_gap = header_gap h;
    connected_peers = h.connected_peers;
    ibd_peers = h.ibd_peers;
  })

abbrev pub Candidate : Type 0
Candidate = ℕ × OwnedNodeAssessment

-- The order of the keys `(behind_public_daa, index)`.
abbrev pub comes_before : Candidate → Candidate → Bool
comes_before (i, a) (j, b) =
    ltb a.behind_public_daa b.behind_public_daa
    || (nat_beq a.behind_public_daa b.behind_public_daa && ltb i j)

-- `min_by_key`: of equal keys the first.
unfoldable pub least : Candidate → List Candidate → Candidate
least best [] = best
least best (c ∷ cs) = least (if comes_before c best then c else best) cs

unfoldable pub select_primary : List Candidate → Option ℕ
select_primary [] = none
select_primary (c ∷ cs) = some (least c cs).0

unfoldable pub next_failover_index : ℕ → ℕ → Result NodeError ℕ
next_failover_index failed_index count =
    if is_zero count || leb count failed_index
    then err index_out_of_range
    else ok ((failed_index + 1) % count)

unfoldable pub choose_failover_index : ℕ → ℕ → List Candidate → Result NodeError ℕ
choose_failover_index failed_index count candidates = elim (select_primary candidates) [
  | some index ↦ ok index
  | none ↦ next_failover_index failed_index count
]
