-- ===== src/Deposits/Tests.antt =====
-- A deposit from its observation to its reversal, on a small ledger.
use kaspa_frontier_engine.Base.{ℕ, ◌≡◌, refl, ◌≢◌, false, some, [], ◌∷◌, arith, ok}
use kaspa_frontier_engine.Base.Lists.{All}
use kaspa_frontier_engine.Base.Eq.{nat_eq}
use kaspa_frontier_engine.Base.Text.{text, text_eq}
use kaspa_frontier_engine.Base.Text.{text_beq, len, trim_start, trim}
use kaspa_frontier_engine.Base.Map.{lookup, insert, update}
use kaspa_frontier_engine.Outpoint.{Outpoint, outpoint_eq, outpoint_beq}
use kaspa_frontier_engine.Exchange.{UtxoAppearance, ConfirmedDeposit}
use kaspa_frontier_engine.EventKey.{event_key, digits}
use kaspa_frontier_engine.Outbox.{OutboxRow}
use kaspa_frontier_engine.Deposits.{
  DepositLedger, next_id, find_event, new_event, insert_outbox, same_facts, first_row, seen_again,
  observe_at, observe_one, credit_row, credit_at, confirm_at, confirm_one, reverse_row, reverse_at,
  disappear_at, disappear_one, observe_all, confirm_all, disappear_all, reconcile, reverse_found,
  reverse_credited_on_reorg,
}
use kaspa_frontier_engine.Outbox.{
  ClaimedLedgerEvent, claim_next_delivery, lease_times, validate_lease, validate_owner,
  select_claim, claim_selected, update_where, event_of, leased, acknowledged_row,
}
use kaspa_frontier_engine.Deposits.Rows.{credit_of, reverse_of}
use kaspa_frontier_engine.Deposits.Later.{Extends}
use kaspa_frontier_engine.Deposits.Sent.{sent}
use kaspa_frontier_engine.Deposits.Invariant.{IsSound}
use kaspa_frontier_engine.Deposits.Runs.{reconciles, reverses, LedgerRun, stop, next}
use kaspa_frontier_engine.Deposits.History.{
  run-IsSound, run-Extends, reversed_run, claimed_id, acknowledged_run,
}
use kaspa_frontier_engine.Deposits.Again.{Observed, Credited, Quiet}
use kaspa_frontier_engine.Deposits.Settles.{reconcile-settles}
use kaspa_frontier_engine.Deposits.Twice.{reconcile_twice}

abbrev empty : DepositLedger
empty = record { deposits = []; legacy_credits = []; outbox = [] }

abbrev point : Outpoint
point = record { tx_id = text "ab"; output_index = 1 }

abbrev gone : Outpoint
gone = record { tx_id = text "cd"; output_index = 0 }

abbrev seen_output : UtxoAppearance
seen_output = record {
  tx_id = text "ab";
  output_index = 1;
  address = text "k";
  amount_sompi = 500;
  block_daa_score = 90;
  virtual_daa = 100;
  is_coinbase = false;
}

abbrev seen_gone : UtxoAppearance
seen_gone = record {
  tx_id = text "cd";
  output_index = 0;
  address = text "k";
  amount_sompi = 7;
  block_daa_score = 95;
  virtual_daa = 100;
  is_coinbase = false;
}

abbrev settled_output : ConfirmedDeposit
settled_output = record {
  tx_id = text "ab";
  output_index = 1;
  address = text "k";
  amount_sompi = 500;
  block_daa_score = 90;
  confirmations = 10;
  is_coinbase = false;
}

abbrev first_ledger : DepositLedger
first_ledger = record {
  deposits =
      (point, credit_row 100 (first_row 100 false seen_output))
      ∷ (
        gone,
        reverse_row 100 (text "disappeared before confirmation") (first_row 100 false seen_gone),
      )
      ∷ [];
  legacy_credits = [];
  outbox =
      (1, new_event (text "credit") point 500 (text "k"))
      ∷ (2, new_event (text "reverse") gone 7 (text "k"))
      ∷ [];
}

abbrev second_ledger : DepositLedger
second_ledger = record {
  deposits =
      (point, reverse_row 120 (text "reorg") (credit_row 100 (first_row 100 false seen_output)))
      ∷ (
        gone,
        reverse_row 100 (text "disappeared before confirmation") (first_row 100 false seen_gone),
      )
      ∷ [];
  legacy_credits = [];
  outbox =
      (1, new_event (text "credit") point 500 (text "k"))
      ∷ (2, new_event (text "reverse") gone 7 (text "k"))
      ∷ (3, new_event (text "reverse") point 500 (text "k"))
      ∷ [];
}

-- The definitions that a run computes with.
everything : ℕ
unfolding reconcile observe_all observe_one observe_at confirm_all confirm_one confirm_at credit_at
    disappear_all disappear_one disappear_at reverse_at reverse_credited_on_reorg reverse_found
    same_facts first_row credit_of reverse_of IsSound sent claim_next_delivery claim_selected
    lease_times validate_lease validate_owner select_claim update_where len insert_outbox find_event
    next_id lookup insert update text_beq trim trim_start event_key digits outpoint_beq
everything = 0

first_run :
    reconcile empty 100 (seen_output ∷ seen_gone ∷ []) (settled_output ∷ []) (gone ∷ [])
    ≡ ok first_ledger
unfolding everything
first_run = refl

reorg_run : reverse_credited_on_reorg first_ledger 120 point (text " reorg ") ≡ ok second_ledger
unfolding everything
reorg_run = refl

whole_run : LedgerRun empty second_ledger
whole_run =
    next
      (reconciles 100 (seen_output ∷ seen_gone ∷ []) (settled_output ∷ []) (gone ∷ [])
        (omega arith, tt) (omega arith, tt) first_run)
      (next (reverses 120 point (text " reorg ") (omega arith) reorg_run) stop)

empty-IsSound : IsSound empty
unfolding everything
empty-IsSound j hj = (refl, refl)

run-IsSound_example : IsSound second_ledger
run-IsSound_example = run-IsSound empty second_ledger whole_run empty-IsSound

reorg_step : LedgerRun first_ledger second_ledger
reorg_step = next (reverses 120 point (text " reorg ") (omega arith) reorg_run) stop

run-Extends_example : Extends first_ledger.deposits second_ledger.deposits
run-Extends_example = run-Extends first_ledger second_ledger reorg_step

-- The output that had disappeared is back, and deep enough.
abbrev settled_gone : ConfirmedDeposit
settled_gone = record {
  tx_id = text "cd";
  output_index = 0;
  address = text "k";
  amount_sompi = 7;
  block_daa_score = 95;
  confirmations = 40;
  is_coinbase = false;
}

abbrev back_ledger : DepositLedger
back_ledger = record first_ledger {
  deposits =
      (point, credit_row 100 (first_row 100 false seen_output))
      ∷ (
        gone,
        seen_again 140 (
            reverse_row 100 (text "disappeared before confirmation")
              (first_row 100 false seen_gone)),
      )
      ∷ [];
}

back_run : reconcile first_ledger 140 (seen_gone ∷ []) (settled_gone ∷ []) [] ≡ ok back_ledger
unfolding everything
back_run = refl

back_step : LedgerRun first_ledger back_ledger
back_step =
    next (reconciles 140 (seen_gone ∷ []) (settled_gone ∷ []) [] (omega arith, tt) tt back_run) stop

gone_found :
    lookup gone first_ledger.deposits
    ≡ some
        (reverse_row 100 (text "disappeared before confirmation") (first_row 100 false seen_gone))
unfolding everything
gone_found = refl

reversed_run_example : credit_of gone back_ledger.outbox ≡ credit_of gone first_ledger.outbox
reversed_run_example =
    reversed_run first_ledger back_ledger gone
      (reverse_row 100 (text "disappeared before confirmation") (first_row 100 false seen_gone))
      (omega arith) back_step gone_found refl

reconcile-settles_example :
    All (Observed first_ledger.deposits) (seen_output ∷ seen_gone ∷ [])
    × All (Credited first_ledger.deposits) (settled_output ∷ [])
    × All (Quiet first_ledger.deposits) (gone ∷ [])
reconcile-settles_example =
    reconcile-settles empty 100 (seen_output ∷ seen_gone ∷ []) (settled_output ∷ []) (gone ∷ [])
      first_ledger (omega arith, tt) (omega arith, tt) first_run

reconcile_twice_example :
    (again : DepositLedger) × (reconcile first_ledger 110
        (seen_output ∷ seen_gone ∷ [])
        (settled_output ∷ [])
        (gone ∷ [])
      ≡ ok again)
    × (again.outbox ≡ first_ledger.outbox)
reconcile_twice_example =
    reconcile_twice empty 100 110 (seen_output ∷ seen_gone ∷ []) (settled_output ∷ []) (gone ∷ [])
      first_ledger (omega arith, tt) (omega arith, tt) first_run (omega arith)

abbrev done_event : OutboxRow
done_event =
    acknowledged_row (leased (text "w1") 130 (new_event (text "credit") point 500 (text "k")))

abbrev done_ledger : DepositLedger
done_ledger = record first_ledger {
  outbox = (1, done_event) ∷ (2, new_event (text "reverse") gone 7 (text "k")) ∷ [];
}

abbrev done_later : DepositLedger
done_later = record second_ledger {
  outbox =
      (1, done_event)
      ∷ (2, new_event (text "reverse") gone 7 (text "k"))
      ∷ (3, new_event (text "reverse") point 500 (text "k"))
      ∷ [];
}

done_run : reverse_credited_on_reorg done_ledger 120 point (text " reorg ") ≡ ok done_later
unfolding everything
done_run = refl

abbrev next_event : ClaimedLedgerEvent
next_event = record {
  event = event_of 2 (new_event (text "reverse") gone 7 (text "k"));
  attempts = 1;
}

next_claim : claim_next_delivery done_later.outbox (text "w2") 500 30 ≡ (
  ok (some next_event),
  (1, done_event)
      ∷ (2, leased (text "w2") 530 (new_event (text "reverse") gone 7 (text "k")))
      ∷ (3, new_event (text "reverse") point 500 (text "k"))
      ∷ [],
)
unfolding everything
next_claim = refl

done_found : lookup 1 done_ledger.outbox ≡ some done_event
unfolding everything
done_found = refl

acknowledged_run_example :
    (lookup 1 done_later.outbox ≡ some done_event)
    × (claimed_id (claim_next_delivery done_later.outbox (text "w2") 500 30).0 ≢ some 1)
acknowledged_run_example =
    acknowledged_run done_ledger done_later 1 done_event (text "w2") 500 30
      (next (reverses 120 point (text " reorg ") (omega arith) done_run) stop) done_found refl
