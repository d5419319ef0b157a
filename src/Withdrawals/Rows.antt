-- ===== src/Withdrawals/Rows.antt =====
-- What a successful call of the ledger has read and written.
use kaspa_frontier_engine.Base.{
  ℕ, ◌≤◌, ◌<◌, max, ◌≡◌, ◌↔◌, ◌⊎◌, inl, inr, Bool, true, false, Option, none, some, arith,
  Option-cases, i64_bound, ok,
}
use kaspa_frontier_engine.Base.Eq.{nat_eq}
use kaspa_frontier_engine.Base.Text.{text_beq_iff, text_eq}
use kaspa_frontier_engine.Base.Map.{lookup-insert, lookup-update}
use kaspa_frontier_engine.Base.Map.{lookup, insert, update}
use kaspa_frontier_engine.Outpoint.{Outpoint, outpoint_eq, outpoint_beq_iff}
use kaspa_frontier_engine.Exchange.{WithdrawalExpectation, WithdrawalUtxo}
use kaspa_frontier_engine.Withdrawals.{
  WithdrawalRecord, WithdrawalLedger, key_of, expectation_beq, registered, register_at, register,
  is_rejected, set_observed, differs, write_row, observe, advance_row, advance,
}

pub write_row_lem :
    (ledger : WithdrawalLedger) (key : Outpoint) (change : WithdrawalRecord → WithdrawalRecord)
    {row : WithdrawalRecord}
    → lookup key ledger ≡ some row
    → write_row ledger key change ≡ ok (change row, update key change ledger)
unfolding write_row
write_row_lem ledger key change found =
    rw (lookup-update key key change ledger) (ground (arith, found, outpoint_beq_iff key key))

-- The row that a call has found, and its guards.
pub record Observes (ledger : WithdrawalLedger) (expected : WithdrawalExpectation) (v : ℕ)
    (seen : WithdrawalUtxo) (row : WithdrawalRecord) : Type 0 where
  pub found : lookup (key_of expected) ledger ≡ some row
  pub open_state : is_rejected row.state ≡ false
  pub same_block : differs row.observed_block_daa seen.block_daa_score ≡ false
  pub in_past : seen.block_daa_score ≤ v
  pub fits : v < i64_bound

pub observe-ok :
    (ledger : WithdrawalLedger) (expected : WithdrawalExpectation) (v : ℕ) (seen : WithdrawalUtxo)
    (row' : WithdrawalRecord) (ledger' : WithdrawalLedger)
    → observe ledger expected v seen ≡ ok (row', ledger')
    → (row : WithdrawalRecord) × Observes ledger expected v seen row
      × (row' ≡ set_observed seen.block_daa_score v row)
      × (ledger' ≡ update (key_of expected) (set_observed seen.block_daa_score v) ledger)
unfolding observe
observe-ok ledger expected v seen row' ledger' h =
    elim (Option-cases (lookup (key_of expected) ledger)) [
      | inl missing ↦ absurd (ground arith)
      | inr (row, found) ↦ (
        row,
        record {
          found = found;
          open_state = ground arith;
          same_block = ground arith;
          in_past = ground arith;
          fits = ground arith;
        },
        ground (
          arith,
          write_row_lem ledger (key_of expected) (set_observed seen.block_daa_score v) found,
        ),
        ground (
          arith,
          write_row_lem ledger (key_of expected) (set_observed seen.block_daa_score v) found,
        ),
      )
    ]

pub advance-ok :
    (ledger : WithdrawalLedger) (expected : WithdrawalExpectation) (v : ℕ) (accepted : Option Bool)
    (row' : WithdrawalRecord) (ledger' : WithdrawalLedger)
    → advance ledger expected v accepted ≡ ok (row', ledger')
    → (row : WithdrawalRecord) × (lookup (key_of expected) ledger ≡ some row)
      × (row.last_checked_daa ≤ v)
      × (row' ≡ advance_row v accepted row row)
      × (ledger' ≡ update (key_of expected) (advance_row v accepted row) ledger)
unfolding advance
advance-ok ledger expected v accepted row' ledger' h =
    elim (Option-cases (lookup (key_of expected) ledger)) [
      | inl missing ↦ absurd (ground arith)
      | inr (row, found) ↦ (
        row,
        found,
        ground arith,
        ground (arith, write_row_lem ledger (key_of expected) (advance_row v accepted row) found),
        ground (arith, write_row_lem ledger (key_of expected) (advance_row v accepted row) found),
      )
    ]

-- Expectations are compared field by field.
pub expectation_beq_iff : (a b : WithdrawalExpectation) → (expectation_beq a b ≡ true) ↔ (a ≡ b)
unfolding expectation_beq
expectation_beq_iff a b = ground (arith, text_beq_iff a.tx_id b.tx_id, text_beq_iff a.dest b.dest)

-- The tests of a registration change nothing of what is looked up.
register-register_at :
    (ledger : WithdrawalLedger) (expected : WithdrawalExpectation) (n : ℕ) (row' : WithdrawalRecord)
    (ledger' : WithdrawalLedger)
    → register ledger expected n ≡ ok (row', ledger')
    → register_at ledger expected (max n 1) (lookup (key_of expected) ledger) ≡ ok (row', ledger')
unfolding register
register-register_at ledger expected n row' ledger' h = ground arith

-- The tests of a registration that went through pass on any other table.
pub register-on :
    (ledger other : WithdrawalLedger) (expected : WithdrawalExpectation) (n : ℕ)
    (row' : WithdrawalRecord) (ledger' : WithdrawalLedger)
    → register ledger expected n ≡ ok (row', ledger')
    → register other expected n
      ≡ register_at other expected (max n 1) (lookup (key_of expected) other)
unfolding register
register-on ledger other expected n row' ledger' h = ground arith

-- A row with the same facts is returned.
pub register_at-same :
    (ledger : WithdrawalLedger) (expected : WithdrawalExpectation) (n : ℕ) (row : WithdrawalRecord)
    → row.expected ≡ expected
    → row.required_confirmations ≡ n
    → register_at ledger expected n (some row) ≡ ok (row, ledger)
unfolding register_at
register_at-same ledger expected n row same count =
    ground (arith, expectation_beq_iff row.expected expected)

-- A registration has found the row with the same facts, or there was none and it has inserted it.
pub register-ok :
    (ledger : WithdrawalLedger) (expected : WithdrawalExpectation) (n : ℕ) (row' : WithdrawalRecord)
    (ledger' : WithdrawalLedger)
    → register ledger expected n ≡ ok (row', ledger')
    → ((lookup (key_of expected) ledger ≡ some row')
        × (row'.expected ≡ expected)
        × (row'.required_confirmations ≡ max n 1)
        × (ledger' ≡ ledger))
      ⊎ ((lookup (key_of expected) ledger ≡ none)
          × (row' ≡ registered expected (max n 1))
          × (ledger' ≡ insert (key_of expected) row' ledger))
unfolding register_at
register-ok ledger expected n row' ledger' h =
    let at = register-register_at ledger expected n row' ledger' h in
    elim (Option-cases (lookup (key_of expected) ledger)) [
      | inl missing ↦ inr (
        missing,
        ground (
          arith,
          at,
          lookup-insert (key_of expected) (key_of expected) (registered expected (max n 1)) ledger,
          outpoint_beq_iff (key_of expected) (key_of expected),
        ),
        ground (
          arith,
          at,
          lookup-insert (key_of expected) (key_of expected) (registered expected (max n 1)) ledger,
          outpoint_beq_iff (key_of expected) (key_of expected),
        ),
      )
      | inr (row, found) ↦ inl (
        ground (arith, at, expectation_beq_iff row.expected expected),
        ground (arith, at, expectation_beq_iff row.expected expected),
        ground (arith, at),
        ground (arith, at),
      )
    ]
