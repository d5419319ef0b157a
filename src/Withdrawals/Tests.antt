-- ===== src/Withdrawals/Tests.antt =====
-- Runs of the payment ledger, and the theorems at concrete inputs.
use kaspa_frontier_engine.Base.{ℕ, ◌≡◌, ◌≢◌, refl, true, some, [], ◌∷◌, arith, ok, err, is_ok}
use kaspa_frontier_engine.Base.Eq.{nat_eq}
use kaspa_frontier_engine.Base.Text.{text, text_eq}
use kaspa_frontier_engine.Base.Text.{text_beq, len}
use kaspa_frontier_engine.Base.Map.{lookup, insert, update}
use kaspa_frontier_engine.Outpoint.{Outpoint, outpoint_eq, outpoint_beq}
use kaspa_frontier_engine.Exchange.{WithdrawalExpectation, WithdrawalUtxo}
use kaspa_frontier_engine.Withdrawals.{
  observed, confirmed, moved_backwards, WithdrawalRecord, WithdrawalLedger, key_of,
  validate_expectation, validate_observation, registered, register_at, register, set_observed,
  set_confirmed, update_last_checked, write_row, observe, advance_change, advance_row, advance,
}
use kaspa_frontier_engine.Network.{is_valid_testnet_address}
use kaspa_frontier_engine.Withdrawals.Invariant.{IsSound}
use kaspa_frontier_engine.Withdrawals.Moves.{
  Reach, here, next, registers, observes, advances, Follows, Reach-Follows,
}
use kaspa_frontier_engine.Withdrawals.Progress.{
  Reach-IsSound, IsAdvanced, advance_confirms, observe_then_advance,
}

abbrev expected : WithdrawalExpectation
expected = record {
  tx_id = text "aaaaaaaaaaaaaaaaaaaaaaaaaaaaaaaaaaaaaaaaaaaaaaaaaaaaaaaaaaaaaaaa";
  dest = text "kaspatest:qptv6u8kel95drh2p2z492cyksk8lpetep286fngqu5j9nk57g642lzf748kt";
  amount_sompi = 25000000;
  output_index = 1;
}

abbrev seen : WithdrawalUtxo
seen = record {
  tx_id = expected.tx_id;
  output_index = 1;
  amount_sompi = 25000000;
  block_daa_score = 1000;
  address = expected.dest;
}

abbrev key : Outpoint
key = key_of expected

abbrev fresh : WithdrawalRecord
fresh = registered expected 60

abbrev observed_at : ℕ → WithdrawalRecord
observed_at v = record fresh {
  state = observed;
  observed_block_daa = some 1000;
  last_checked_daa = v;
}

abbrev confirmed_at : ℕ → WithdrawalRecord
confirmed_at v = record (observed_at v) { state = confirmed; confirmed_daa = some v }

abbrev table : WithdrawalRecord → WithdrawalLedger
table row = (key, row) ∷ []

registers_run : register [] expected 60 ≡ ok (fresh, table fresh)
unfolding is_valid_testnet_address register validate_expectation register_at lookup insert text_beq
    len outpoint_beq
registers_run = refl

observes_run :
    observe (table fresh) expected 1010 seen ≡ ok (observed_at 1010, table (observed_at 1010))
unfolding observe validate_observation set_observed write_row lookup update text_beq outpoint_beq
observes_run = refl

advances_run :
    advance (table (observed_at 1010)) expected 1060 (some true)
    ≡ ok (confirmed_at 1060, table (confirmed_at 1060))
unfolding advance advance_row advance_change set_confirmed write_row lookup update text_beq
    outpoint_beq
advances_run = refl

too_early :
    advance (table (observed_at 1010)) expected 1059 (some true)
    ≡ ok (observed_at 1059, table (observed_at 1059))
unfolding advance advance_row advance_change update_last_checked write_row lookup update text_beq
    outpoint_beq
too_early = refl

backwards_refused :
    advance (table (observed_at 1010)) expected 1009 (some true) ≡ err moved_backwards
unfolding advance lookup text_beq outpoint_beq
backwards_refused = refl

whole_run : Reach [] (table (confirmed_at 1060))
whole_run =
    next
      (next (next here (registers expected 60 fresh registers_run))
        (observes expected 1010 seen (observed_at 1010) observes_run))
      (advances expected 1060 (some true) (confirmed_at 1060) advances_run)

last_run : Reach (table (observed_at 1010)) (table (confirmed_at 1060))
last_run = next here (advances expected 1060 (some true) (confirmed_at 1060) advances_run)

Reach-IsSound_example : IsSound (table (confirmed_at 1060))
Reach-IsSound_example = Reach-IsSound tt whole_run

Reach-Follows_example :
    (row' : WithdrawalRecord) × (lookup key (table (confirmed_at 1060)) ≡ some row')
    × Follows (observed_at 1010) row'
Reach-Follows_example =
    Reach-Follows key (observed_at 1010) last_run (unfold lookup text_beq outpoint_beq in refl)

advance_confirms_example :
    (row' : WithdrawalRecord) × (ledger' : WithdrawalLedger) × (advance
        (table (observed_at 1010))
        expected
        1060
        (some true)
      ≡ ok (row', ledger'))
    × (lookup key ledger' ≡ some row')
    × IsAdvanced (observed_at 1010) row' 1000 1060 (some true)
    × ((other : Outpoint)
        → other ≢ key
        → lookup other ledger' ≡ lookup other (table (observed_at 1010)))
advance_confirms_example =
    advance_confirms (table (observed_at 1010)) expected 1060 1000 (some true) (observed_at 1010)
      (unfold lookup text_beq outpoint_beq in refl) refl refl (omega arith) (omega arith)
      (omega arith)

observes_backwards :
    observe (table (observed_at 1050)) expected 1010 seen
    ≡ ok (observed_at 1010, table (observed_at 1010))
unfolding observe validate_observation set_observed write_row lookup update text_beq outpoint_beq
observes_backwards = refl

-- The score 1010 that `advance` refuses is accepted after an `observe` at it.
going_back_refused :
    advance (table (observed_at 1050)) expected 1010 (some true) ≡ err moved_backwards
unfolding advance lookup text_beq outpoint_beq
going_back_refused = refl

observe_then_advance_example :
    ((observed_at 1010).last_checked_daa ≡ 1010)
    × (is_ok (advance (table (observed_at 1010)) expected 1010 (some true)) ≡ true)
observe_then_advance_example =
    observe_then_advance (table (observed_at 1050)) expected 1010 seen (some true)
      (observed_at 1010) (table (observed_at 1010)) observes_backwards
