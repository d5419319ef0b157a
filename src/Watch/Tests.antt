-- ===== src/Watch/Tests.antt =====
-- Two polls of one address, and the theorems at concrete inputs.
use kaspa_frontier_engine.Base.{true, ◌≡◌, refl, false, List, [], ◌∷◌}
use kaspa_frontier_engine.Base.Lists.{length}
use kaspa_frontier_engine.Base.Eq.{nat_eq}
use kaspa_frontier_engine.Base.Text.{text, text_eq}
use kaspa_frontier_engine.Base.Text.{text_beq}
use kaspa_frontier_engine.Base.Map.{lookup, insert, erase}
use kaspa_frontier_engine.Outpoint.{outpoint_eq, outpoint_beq}
use kaspa_frontier_engine.Exchange.{
  PendingDeposit, ConfirmedDeposit, UtxoAppearance, DepositTracker, pending_count, required,
  required_for, pending_key, confirmed_key, to_pending, to_confirmed, on_utxo_added,
  on_utxo_removed, retain_pending, on_virtual_daa, ConfirmedWithdrawal, WithdrawalUtxo,
  WithdrawalExpectation, daa_confirmations, matches_expected, confirm_one, find_map,
  confirm_withdrawal, with_default_confirmations,
}
use kaspa_frontier_engine.Watch.{
  AddressUtxo, DepositWatch, collect, add_one, add_new, drop_gone, credit, candidates, apply, new,
}
use kaspa_frontier_engine.Watch.Credits.{Poll, apply_all, DistinctKeys, AreFresh, credited_once}
use kaspa_frontier_engine.Base.Lists.{All}
use kaspa_frontier_engine.Base.Map.{AllEntries}
use kaspa_frontier_engine.Watch.Candidates.{IsConsistent}
use kaspa_frontier_engine.Watch.Coverage.{IsHeld, in_snapshot, apply-IsConsistent, new-IsConsistent}

abbrev deposit : AddressUtxo
deposit = record {
  address = text "kaspatest:abc";
  outpoint = record { tx_id = text "tx1"; output_index = 0 };
  utxo_entry = record { amount = 5; block_daa_score = 1000; is_coinbase = false };
}

abbrev watcher : DepositWatch
watcher = record {
  tracker = record { required_confirmations = 60; pending = [] };
  seen = [];
  credited = [];
}

abbrev polls : List Poll
polls =
    record { virtual_daa = 1010; utxos = deposit ∷ [] }
    ∷ record { virtual_daa = 1060; utxos = deposit ∷ [] }
    ∷ record { virtual_daa = 1061; utxos = [] }
    ∷ record { virtual_daa = 1070; utxos = deposit ∷ [] }
    ∷ []

-- The output vanishes and comes back after its credit: it is credited once.
one_credit : length (apply_all watcher polls).0 ≡ 1
unfolding apply_all apply candidates add_new add_one on_utxo_added drop_gone on_utxo_removed
    on_virtual_daa retain_pending credit collect insert erase lookup text_beq outpoint_beq
one_credit = refl

credited_once_example :
    DistinctKeys (apply_all watcher polls).0 × AreFresh [] (apply_all watcher polls).0
credited_once_example = credited_once watcher polls

watcher-IsConsistent : IsConsistent watcher
unfolding new kaspa_frontier_engine.Exchange.new
watcher-IsConsistent = new-IsConsistent 60

apply-IsConsistent_example :
    IsConsistent (apply watcher 1010 (deposit ∷ [])).1
    × All (λ u. IsHeld u.outpoint (apply watcher 1010 (deposit ∷ [])).1) (deposit ∷ [])
    × AllEntries
        (λ k p. in_snapshot k (deposit ∷ []) ≡ true)
        (apply watcher 1010 (deposit ∷ [])).1.tracker.pending
apply-IsConsistent_example = apply-IsConsistent watcher 1010 (deposit ∷ []) watcher-IsConsistent
