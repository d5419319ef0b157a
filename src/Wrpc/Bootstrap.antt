-- ===== src/Wrpc/Bootstrap.antt =====
-- src/wrpc.rs: the projection rebuilt from a REST scan, `bootstrap_addresses` with `full_snapshot`, and the check of
-- the frames that the scan has made obsolete.
use kaspa_frontier_engine.Base.{
  ℕ, Bool, true, false, not, Option, none, some, List, [], ◌∷◌, ◌++◌, ltb, leb, if◌then◌else◌,
  Result, ok, ◌>>=◌, ◌>>◌, fail_if,
}
use kaspa_frontier_engine.Base.Eq.{nat_eq}
use kaspa_frontier_engine.Base.Text.{Text, text_eq}
use kaspa_frontier_engine.Base.Map.{Map, Set, contains}
use kaspa_frontier_engine.Base.Map.{insert}
use kaspa_frontier_engine.Wrpc.{
  RpcOutpoint, RpcUtxoEntry, RpcUtxoEntryRef, WrpcNotification, WrpcError, validate_entry,
  entry_key, validate_watched_addresses, require_watched, to_appearance, maturity_daa, to_confirmed,
  utxos_changed, virtual_daa_score_changed, foreign_address, duplicate_in_snapshot,
}
use kaspa_frontier_engine.Base.Ordered.{insert_ordered}
use kaspa_frontier_engine.Outpoint.{Outpoint, outpoint_eq}
use kaspa_frontier_engine.Wrpc.Projection.{
  WrpcDepositSnapshot, WrpcDepositProjection, point_before, schedule, Changes, no_changes,
}

-- src/rest.rs: an output as the REST scan returns it. Its outpoint and entry have the fields of the node's.
pub record AddressUtxo : Type 0 where
  pub address : Text
  pub outpoint : RpcOutpoint
  pub utxo_entry : RpcUtxoEntry

abbrev pub entry_of : AddressUtxo → RpcUtxoEntryRef
entry_of utxo = record {
  address = some utxo.address;
  outpoint = utxo.outpoint;
  utxo_entry = utxo.utxo_entry;
}

-- The loop over the outputs of a snapshot.
unfoldable pub replace_all :
    Set Text
    → Map Outpoint RpcUtxoEntryRef
    → List AddressUtxo
    → Result WrpcError (Map Outpoint RpcUtxoEntryRef)
replace_all watched replacement [] = ok replacement
replace_all watched replacement (utxo ∷ utxos) = do
  fail_if (not (contains utxo.address watched)) foreign_address
  let entry = entry_of utxo
  validate_entry entry
  fail_if (contains (entry_key entry) replacement) duplicate_in_snapshot
  replace_all watched (insert_ordered point_before (entry_key entry) entry replacement) utxos

-- `previous.difference(&current)`
unfoldable pub difference :
    Map Outpoint RpcUtxoEntryRef → Map Outpoint RpcUtxoEntryRef → List Outpoint
difference [] current = []
difference ((key, entry) ∷ previous) current =
    let rest = difference previous current in if contains key current then rest else key ∷ rest

-- The loop that schedules what is not mature yet.
unfoldable pub schedule_all :
    ℕ
    → Map ℕ (List Outpoint)
    → Map Outpoint RpcUtxoEntryRef
    → Result WrpcError (Map ℕ (List Outpoint))
schedule_all virtual_daa scheduled [] = ok scheduled
schedule_all virtual_daa scheduled ((key, entry) ∷ live) = do
  maturity ← maturity_daa entry
  schedule_all virtual_daa
      (if ltb virtual_daa maturity then schedule maturity key scheduled else scheduled) live

abbrev pub Shown : Type 0
Shown = Set Outpoint × Changes

-- An output that is mature is confirmed.
unfoldable pub confirm_shown :
    Set Outpoint → Changes → Outpoint → RpcUtxoEntryRef → ℕ → Bool → Result WrpcError Shown
confirm_shown mature seen key entry virtual_daa false = ok (mature, seen)
confirm_shown mature seen key entry virtual_daa true = do
  deposit ← to_confirmed entry virtual_daa
  ok (insert key tt mature, record seen { confirmed = seen.confirmed ++ deposit ∷ [] })

-- One round of the loop of `full_snapshot`.
unfoldable pub show_one : ℕ → Shown → Outpoint → RpcUtxoEntryRef → Result WrpcError Shown
show_one virtual_daa (mature, changes) key entry = do
  appearance ← to_appearance entry virtual_daa
  maturity ← maturity_daa entry
  let seen = record changes { observed = changes.observed ++ appearance ∷ [] }
  confirm_shown mature seen key entry virtual_daa (leb maturity virtual_daa)

unfoldable pub show_all : ℕ → Shown → Map Outpoint RpcUtxoEntryRef → Result WrpcError Shown
show_all virtual_daa shown [] = ok shown
show_all virtual_daa shown ((key, entry) ∷ live) = do
  shown' ← show_one virtual_daa shown key entry
  show_all virtual_daa shown' live

abbrev pub Bootstrapped : Type 0
Bootstrapped = Result WrpcError (WrpcDepositSnapshot × WrpcDepositProjection)

-- `full_snapshot`, at the score that the projection has.
unfoldable pub full_snapshot : WrpcDepositProjection → ℕ → List Outpoint → Bootstrapped
full_snapshot projection virtual_daa disappeared = do
  shown ← show_all virtual_daa (projection.mature, no_changes) projection.live
  ok (
    record {
      virtual_daa = virtual_daa;
      observed = shown.1.observed;
      confirmed = shown.1.confirmed;
      disappeared_outpoints = disappeared;
    },
    record projection { mature = shown.0 },
  )

unfoldable pub bootstrap_addresses :
    WrpcDepositProjection → ℕ → List AddressUtxo → List Text → Bootstrapped
bootstrap_addresses projection virtual_daa utxos watched_addresses = do
  watched ← validate_watched_addresses watched_addresses
  replacement ← replace_all watched [] utxos
  scheduled ← schedule_all virtual_daa [] replacement
  full_snapshot
      (record {
        virtual_daa = some virtual_daa;
        live = replacement;
        maturity_schedule = scheduled;
        mature = [];
        unobserved = [];
      })
      virtual_daa (difference projection.live replacement)

-- `apply_after_resnapshot_addresses`, which only checks the addresses.
unfoldable pub require_all_watched : Set Text → List RpcUtxoEntryRef → Result WrpcError (Unit {0})
require_all_watched watched [] = ok tt
require_all_watched watched (entry ∷ entries) = do
  require_watched entry watched
  require_all_watched watched entries

unfoldable pub apply_after_resnapshot_addresses :
    WrpcNotification → List Text → Result WrpcError (Option WrpcDepositSnapshot)
apply_after_resnapshot_addresses (virtual_daa_score_changed score) watched_addresses = do
  watched ← validate_watched_addresses watched_addresses
  ok none
apply_after_resnapshot_addresses (utxos_changed added removed) watched_addresses = do
  watched ← validate_watched_addresses watched_addresses
  require_all_watched watched (added ++ removed)
  ok none
