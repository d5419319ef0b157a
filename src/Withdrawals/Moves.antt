-- ===== src/Withdrawals/Moves.antt =====
-- How rows change over any sequence of calls: facts stay, the observed block stays, and the state
-- goes forward only.
use kaspa_frontier_engine.Base.{
  ℕ, ◌≡◌, subst, inl, inr, Bool, true, false, Option, some, arith, Bool-cases, is_some, ok,
}
use kaspa_frontier_engine.Base.Eq.{nat_eq}
use kaspa_frontier_engine.Base.Text.{text_eq}
use kaspa_frontier_engine.Base.Map.{lookup-insert, lookup-update}
use kaspa_frontier_engine.Base.Map.{lookup, update}
use kaspa_frontier_engine.Outpoint.{Outpoint, outpoint_eq, outpoint_beq, outpoint_beq_iff}
use kaspa_frontier_engine.Exchange.{WithdrawalExpectation, WithdrawalUtxo}
use kaspa_frontier_engine.Withdrawals.{
  WithdrawalState, pending, observed, confirmed, rejected, WithdrawalRecord, WithdrawalLedger,
  key_of, register, is_rejected, set_observed, set_rejected, set_confirmed, update_last_checked,
  observe, advance_change, advance_row, advance,
}
use kaspa_frontier_engine.Withdrawals.Rows.{observe-ok, advance-ok, register-ok}

-- `pending` may be observed; what is observed may be confirmed or rejected; what is confirmed may
-- still be rejected; what is rejected stays so.
abbrev pub allowed : WithdrawalState → WithdrawalState → Bool
allowed pending s = true
allowed observed pending = false
allowed observed s = true
allowed confirmed confirmed = true
allowed confirmed rejected = true
allowed confirmed s = false
allowed rejected rejected = true
allowed rejected s = false

-- A later version of a row.
pub record Follows (row row' : WithdrawalRecord) : Type 0 where
  pub facts : row'.expected ≡ row.expected
  pub depth : row'.required_confirmations ≡ row.required_confirmations
  pub block :
      is_some row.observed_block_daa ≡ true → row'.observed_block_daa ≡ row.observed_block_daa
  pub score : is_some row.confirmed_daa ≡ true → row'.confirmed_daa ≡ row.confirmed_daa
  pub state : allowed row.state row'.state ≡ true

Follows-refl : (row : WithdrawalRecord) → Follows row row
Follows-refl row = ground arith

Follows-trans : {a b c : WithdrawalRecord} → Follows a b → Follows b c → Follows a c
Follows-trans h k = ground arith

set_observed-Follows :
    (block v : ℕ) (row : WithdrawalRecord)
    → is_rejected row.state ≡ false
    → Follows row (set_observed block v row)
unfolding set_observed
set_observed-Follows block v row h = ground arith

advance_row-Follows :
    (v : ℕ) (accepted : Option Bool) (row : WithdrawalRecord)
    → Follows row (advance_row v accepted row row)
unfolding advance_row advance_change set_rejected set_confirmed update_last_checked
advance_row-Follows v accepted row = ground arith

-- One successful call of the ledger; a failed one is rolled back.
pub data Step (ledger : WithdrawalLedger) (ledger' : WithdrawalLedger) : Type 0 where
  registers :
      (expected : WithdrawalExpectation) (n : ℕ) (row : WithdrawalRecord)
      → register ledger expected n ≡ ok (row, ledger')
      → Step ledger ledger'
  observes :
      (expected : WithdrawalExpectation) (v : ℕ) (seen : WithdrawalUtxo) (row : WithdrawalRecord)
      → observe ledger expected v seen ≡ ok (row, ledger')
      → Step ledger ledger'
  advances :
      (expected : WithdrawalExpectation) (v : ℕ) (accepted : Option Bool) (row : WithdrawalRecord)
      → advance ledger expected v accepted ≡ ok (row, ledger')
      → Step ledger ledger'

pub data Reach (start : WithdrawalLedger) : WithdrawalLedger → Type 0 where
  here : Reach start start
  next :
      {ledger ledger' : WithdrawalLedger}
      → Reach start ledger
      → Step ledger ledger'
      → Reach start ledger'

-- An update by a change that a row follows keeps every row, and every row follows.
update-Follows :
    (ledger : WithdrawalLedger) (key k : Outpoint) (change : WithdrawalRecord → WithdrawalRecord)
    (found_row row : WithdrawalRecord)
    → lookup key ledger ≡ some found_row
    → Follows found_row (change found_row)
    → lookup k ledger ≡ some row
    → (row' : WithdrawalRecord) × (lookup k (update key change ledger) ≡ some row')
      × Follows row row'
update-Follows ledger key k change found_row row found follows e =
    elim (Bool-cases (outpoint_beq k key)) [
      | inl same ↦
          let path = (outpoint_beq_iff k key).0 same in
          let one : found_row ≡ row = cc (found, e, path) in
          (
            change row,
            ground (arith, lookup-update k key change ledger, same, e),
            subst (λ r. Follows r (change r)) one follows,
          )
      | inr differ ↦
          (row, ground (arith, lookup-update k key change ledger, differ, e), Follows-refl row)
    ]

Step-Follows :
    {ledger ledger' : WithdrawalLedger} (k : Outpoint) (row : WithdrawalRecord)
    → Step ledger ledger'
    → lookup k ledger ≡ some row
    → (row' : WithdrawalRecord) × (lookup k ledger' ≡ some row') × Follows row row'
Step-Follows {ledger} {ledger'} k row (registers expected n r e) found =
    elim (register-ok ledger expected n r ledger' e) [
      | inl (old, facts, depth, same) ↦ (row, rw same found, Follows-refl row)
      | inr (missing, new_row, inserted) ↦ (
        row,
        ground (
          arith,
          inserted,
          missing,
          found,
          lookup-insert k (key_of expected) r ledger,
          outpoint_beq_iff k (key_of expected),
        ),
        Follows-refl row,
      )
    ]
Step-Follows {ledger} {ledger'} k row (observes expected v seen r e) found =
    let (old, facts, returned, written) = observe-ok ledger expected v seen r ledger' e in
    rw written (
      update-Follows ledger (key_of expected) k (set_observed seen.block_daa_score v) old row
        facts.found (set_observed-Follows seen.block_daa_score v old facts.open_state) found)
Step-Follows {ledger} {ledger'} k row (advances expected v accepted r e) found =
    let (old, there, forward, returned, written) =
      advance-ok ledger expected v accepted r ledger' e in
    rw written (
      update-Follows ledger (key_of expected) k (advance_row v accepted old) old row there
        (advance_row-Follows v accepted old) found)

-- Over any sequence of successful calls a row stays in the table with its facts and its required
-- depth; a block once observed and a confirmation score once written never change; and the state
-- goes forward only, so that a rejected payment stays rejected.
pub Reach-Follows :
    {start ledger : WithdrawalLedger} (k : Outpoint) (row : WithdrawalRecord)
    → Reach start ledger
    → lookup k start ≡ some row
    → (row' : WithdrawalRecord) × (lookup k ledger ≡ some row') × Follows row row'
Reach-Follows k row here found = (row, found, Follows-refl row)
Reach-Follows k row (next r s) found =
    let (mid, there, first) = Reach-Follows k row r found in
    let (last, at_end, second) = Step-Follows k mid s there in
    (last, at_end, Follows-trans first second)
