-- ===== src/Withdrawals/Invariant.antt =====
-- The invariant of the rows, which every successful call keeps.
use kaspa_frontier_engine.Base.{
  ℕ, ◌+◌, ◌≤◌, max, ◌≡◌, refl, inl, inr, Bool, true, false, not, Option, none, some, arith, is_some,
  ok,
}
use kaspa_frontier_engine.Base.Eq.{nat_eq}
use kaspa_frontier_engine.Base.Text.{text_eq}
use kaspa_frontier_engine.Base.Map.{AllEntries, AllEntries-insert, AllEntries-update}
use kaspa_frontier_engine.Outpoint.{Outpoint, outpoint_eq}
use kaspa_frontier_engine.Exchange.{WithdrawalExpectation, WithdrawalUtxo}
use kaspa_frontier_engine.Withdrawals.{
  WithdrawalState, pending, confirmed, WithdrawalRecord, WithdrawalLedger, key_of, registered,
  register, is_rejected, set_observed, set_rejected, set_confirmed, update_last_checked, observe,
  advance_change, advance_row, advance,
}
use kaspa_frontier_engine.Withdrawals.Rows.{observe-ok, advance-ok, register-ok}

abbrev pub is_pending : WithdrawalState → Bool
is_pending pending = true
is_pending _ = false

abbrev pub is_confirmed : WithdrawalState → Bool
is_confirmed confirmed = true
is_confirmed _ = false

-- A confirmation was counted from the observed block, to the required depth.
abbrev pub IsDeepAt : ℕ → Option ℕ → Option ℕ → Type 0
IsDeepAt required block none = Unit
IsDeepAt required none (some at) = ⊥
IsDeepAt required (some block) (some at) = block + required ≤ at

-- A row stands under its key and needs a depth of one at least; it has a block exactly when it is
-- past `pending`, a confirmation score when it is confirmed, and a rejection score exactly when it
-- is rejected; a confirmation score is deep enough.
pub record RowIsSound (key : Outpoint) (row : WithdrawalRecord) : Type 0 where
  pub keyed : key_of row.expected ≡ key
  pub depth : 1 ≤ row.required_confirmations
  pub block : is_some row.observed_block_daa ≡ not (is_pending row.state)
  pub score : is_confirmed row.state ≡ true → is_some row.confirmed_daa ≡ true
  pub rejection : is_some row.rejected_daa ≡ is_rejected row.state
  pub deep : IsDeepAt row.required_confirmations row.observed_block_daa row.confirmed_daa

abbrev pub IsSound : WithdrawalLedger → Type 0
IsSound ledger = AllEntries RowIsSound ledger

registered-RowIsSound :
    (expected : WithdrawalExpectation) (n : ℕ)
    → 1 ≤ n
    → RowIsSound (key_of expected) (registered expected n)
registered-RowIsSound expected n h = record {
  keyed = refl;
  depth = h;
  block = refl;
  score = λ e. cc;
  rejection = refl;
  deep = tt;
}

set_observed-RowIsSound :
    (key : Outpoint) (block v : ℕ) (row : WithdrawalRecord)
    → RowIsSound key row
    → RowIsSound key (set_observed block v row)
unfolding set_observed
set_observed-RowIsSound key block v row h = ground arith

advance_row-RowIsSound :
    (key : Outpoint) (v : ℕ) (accepted : Option Bool) (row : WithdrawalRecord)
    → RowIsSound key row
    → RowIsSound key (advance_row v accepted row row)
unfolding advance_row advance_change set_rejected set_confirmed update_last_checked
advance_row-RowIsSound key v accepted row h = ground arith

-- Every successful call keeps the table sound; a failed one is rolled back.
pub observe-IsSound :
    (ledger : WithdrawalLedger) (expected : WithdrawalExpectation) (v : ℕ) (seen : WithdrawalUtxo)
    (row' : WithdrawalRecord) (ledger' : WithdrawalLedger)
    → IsSound ledger
    → observe ledger expected v seen ≡ ok (row', ledger')
    → IsSound ledger'
observe-IsSound ledger expected v seen row' ledger' h e =
    let (row, facts, returned, written) = observe-ok ledger expected v seen row' ledger' e in
    rw written (
      AllEntries-update RowIsSound (key_of expected) (set_observed seen.block_daa_score v) ledger h
        (λ r found. set_observed-RowIsSound (key_of expected) seen.block_daa_score v r))

pub advance-IsSound :
    (ledger : WithdrawalLedger) (expected : WithdrawalExpectation) (v : ℕ) (accepted : Option Bool)
    (row' : WithdrawalRecord) (ledger' : WithdrawalLedger)
    → IsSound ledger
    → advance ledger expected v accepted ≡ ok (row', ledger')
    → IsSound ledger'
advance-IsSound ledger expected v accepted row' ledger' h e =
    let (row, found, forward, returned, written) =
      advance-ok ledger expected v accepted row' ledger' e in
    rw written (
      AllEntries-update RowIsSound (key_of expected) (advance_row v accepted row) ledger h
        (λ r found' p.
          let same : row ≡ r = cc (found, found') in
          rw same (advance_row-RowIsSound (key_of expected) v accepted r p)))

pub register-IsSound :
    (ledger : WithdrawalLedger) (expected : WithdrawalExpectation) (n : ℕ) (row' : WithdrawalRecord)
    (ledger' : WithdrawalLedger)
    → IsSound ledger
    → register ledger expected n ≡ ok (row', ledger')
    → IsSound ledger'
register-IsSound ledger expected n row' ledger' h e =
    elim (register-ok ledger expected n row' ledger' e) [
      | inl (found, facts, depth, same) ↦ rw same h
      | inr (missing, new_row, inserted) ↦ rw inserted (
          AllEntries-insert RowIsSound (key_of expected) row' ledger h
            (rw new_row (registered-RowIsSound expected (max n 1) (omega arith))))
    ]
