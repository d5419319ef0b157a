-- ===== src/Exchange/Tests.antt =====
-- Runs of the tracker on the scores of its unit tests, and the theorems at concrete inputs.
use kaspa_frontier_engine.Base.{◌≡◌, ◌↔◌, refl, true, false, ◌||◌, none, [], ◌∷◌, arith, is_some}
use kaspa_frontier_engine.Base.Lists.{length}
use kaspa_frontier_engine.Base.Eq.{nat_eq}
use kaspa_frontier_engine.Base.Text.{text, text_eq}
use kaspa_frontier_engine.Base.Text.{text_beq}
use kaspa_frontier_engine.Base.Map.{insert}
use kaspa_frontier_engine.Outpoint.{Outpoint, outpoint_eq}
use kaspa_frontier_engine.Exchange.{
  UtxoAppearance, DepositTracker, required_for, on_utxo_added, retain_pending, on_virtual_daa,
  ConfirmedWithdrawal, WithdrawalUtxo, WithdrawalExpectation, matches_expected, confirm_one,
  find_map, confirm_withdrawal, with_default_confirmations,
}
use kaspa_frontier_engine.Exchange.Tracker.{has_key}
use kaspa_frontier_engine.Exchange.{new}
use kaspa_frontier_engine.Exchange.Tracker.{added_then_confirmed}
use mathlib.Core.List.{Memᴰ}
use kaspa_frontier_engine.Exchange.Withdrawal.{IsPaid, confirm_withdrawal_iff}

abbrev tx1 : Outpoint
tx1 = record { tx_id = text "tx1"; output_index = 0 }

abbrev fresh : UtxoAppearance
fresh = record {
  tx_id = text "tx1";
  output_index = 0;
  address = text "kaspatest:abc";
  amount_sompi = 100000000;
  block_daa_score = 1000;
  virtual_daa = 1000;
  is_coinbase = false;
}

abbrev tracker : DepositTracker
tracker = record { required_confirmations = 60; pending = [] }

-- A fresh output is not dropped: it confirms at depth 60.
fresh_confirms_later :
    let (hit, waiting) = on_utxo_added tracker fresh in
    (hit ≡ none)
    × ((on_virtual_daa waiting 1050).0 ≡ [])
    × (length (on_virtual_daa waiting 1060).0 ≡ 1)
unfolding on_utxo_added on_virtual_daa retain_pending insert
fresh_confirms_later = (refl, refl, refl)

default_confirmations : with_default_confirmations ≡ new 60
unfolding with_default_confirmations
default_confirmations = refl

added_then_confirmed_example :
    let (hit, waiting) = on_utxo_added tracker fresh in
    (is_some hit || has_key tx1 (on_virtual_daa waiting 1060).0) ≡ true
added_then_confirmed_example =
    added_then_confirmed tracker fresh 1060 tt (unfold required_for in omega arith)

abbrev expected : WithdrawalExpectation
expected = record {
  tx_id = text "w1";
  dest = text "kaspatest:bob";
  amount_sompi = 25000000;
  output_index = 0;
}

abbrev output : WithdrawalUtxo
output = record {
  tx_id = text "w1";
  output_index = 0;
  amount_sompi = 25000000;
  block_daa_score = 1000;
  address = text "kaspatest:bob";
}

abbrev confirmation : ConfirmedWithdrawal
confirmation = record {
  tx_id = text "w1";
  dest = text "kaspatest:bob";
  amount_sompi = 25000000;
  output_index = 0;
  block_daa_score = 1000;
  confirmations = 60;
}

withdrawal_waits : confirm_withdrawal expected 1059 (output ∷ []) 60 ≡ none
unfolding confirm_withdrawal find_map confirm_one matches_expected text_beq
withdrawal_waits = refl

confirm_withdrawal_iff_example :
    (is_some (confirm_withdrawal expected 1060 (output ∷ []) 60) ≡ true)
    ↔ ((u : WithdrawalUtxo) × Memᴰ u (output ∷ []) × IsPaid expected 1060 60 u)
confirm_withdrawal_iff_example = confirm_withdrawal_iff expected 1060 (output ∷ []) 60
