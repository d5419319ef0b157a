-- ===== src/Withdrawals/Progress.antt =====
-- What the ledger reaches from an empty table, and the calls that get a payment there.
use kaspa_frontier_engine.Base.{
  ℕ, ◌+◌, ◌≤◌, ◌<◌, max, ◌≡◌, ◌≢◌, ◌⊎◌, ◌↔◌, none, is_some, ap, ◌∙◌, inl, inr, Bool, true, false,
  Option, some, arith, i64_bound, ok, is_ok,
}
use kaspa_frontier_engine.Base.Eq.{nat_eq}
use kaspa_frontier_engine.Base.Text.{text_eq}
use kaspa_frontier_engine.Base.Map.{lookup-insert, lookup-update}
use kaspa_frontier_engine.Base.Map.{lookup, update}
use kaspa_frontier_engine.Outpoint.{Outpoint, outpoint_eq, outpoint_beq_iff}
use kaspa_frontier_engine.Exchange.{WithdrawalExpectation, WithdrawalUtxo}
use kaspa_frontier_engine.Withdrawals.{
  rejected, confirmed, set_rejected, update_last_checked, WithdrawalRecord, WithdrawalLedger,
  key_of, register_at, register, is_rejected, set_observed, set_confirmed, observe, advance_change,
  advance_row, advance,
}
use kaspa_frontier_engine.Withdrawals.Rows.{
  observe-ok, register-ok, write_row_lem, register-on, register_at-same,
}
use kaspa_frontier_engine.Withdrawals.Invariant.{
  IsSound, observe-IsSound, advance-IsSound, register-IsSound,
}
use kaspa_frontier_engine.Withdrawals.Moves.{registers, observes, advances, Reach, here, next}

-- Every table that the calls reach from a sound one is sound. In particular a confirmed payment has an
-- observed block, and was confirmed at least the required depth above it.
pub Reach-IsSound :
    {start ledger : WithdrawalLedger} → IsSound start → Reach start ledger → IsSound ledger
Reach-IsSound h here = h
Reach-IsSound h (next {ledger} {ledger'} r (registers expected n row e)) =
    register-IsSound ledger expected n row ledger' (Reach-IsSound h r) e
Reach-IsSound h (next {ledger} {ledger'} r (observes expected v seen row e)) =
    observe-IsSound ledger expected v seen row ledger' (Reach-IsSound h r) e
Reach-IsSound h (next {ledger} {ledger'} r (advances expected v accepted row e)) =
    advance-IsSound ledger expected v accepted row ledger' (Reach-IsSound h r) e

-- A registration that went through can be repeated: it returns the same row and changes nothing.
pub register_twice :
    (ledger : WithdrawalLedger) (expected : WithdrawalExpectation) (n : ℕ) (row : WithdrawalRecord)
    (ledger' : WithdrawalLedger)
    → register ledger expected n ≡ ok (row, ledger')
    → register ledger' expected n ≡ ok (row, ledger')
register_twice ledger expected n row ledger' h =
    let found : (lookup (key_of expected) ledger' ≡ some row)
        × (row.expected ≡ expected)
        × (row.required_confirmations ≡ max n 1) =
      elim (register-ok ledger expected n row ledger' h) [
        | inl (was, facts, count, same) ↦ (ground (arith, was, same), facts, count)
        | inr (missing, made, grown) ↦ (
          ground (
            arith,
            grown,
            lookup-insert (key_of expected) (key_of expected) row ledger,
            outpoint_beq_iff (key_of expected) (key_of expected),
          ),
          ground (arith, made),
          ground (arith, made),
        )
      ] in
    let (at, facts, count) = found in
    register-on ledger ledger' expected n row ledger' h
    ∙ ap (register_at ledger' expected (max n 1)) at
    ∙ register_at-same ledger' expected (max n 1) row facts count

-- The answer confirms a payment: it is accepted and its block is deep enough.
abbrev pub IsAnswered : WithdrawalRecord → ℕ → ℕ → Option Bool → Type 0
IsAnswered row block v accepted = (accepted ≡ some true) × (block + row.required_confirmations ≤ v)

-- What an answer makes of a payment that is seen in a block and not rejected. It is rejected exactly by
-- the answer that it is not accepted, confirmed exactly by an answer at its depth or if it was
-- confirmed and is not rejected, and else as it was. Its confirmation has the first score at which it
-- was confirmed.
pub record IsAdvanced (row row' : WithdrawalRecord) (block v : ℕ) (accepted : Option Bool)
    : Type 0 where
  pub facts : row'.expected ≡ row.expected
  pub depth : row'.required_confirmations ≡ row.required_confirmations
  pub seen : row'.observed_block_daa ≡ some block
  pub checked : row'.last_checked_daa ≡ v
  pub rejects : (row'.state ≡ rejected) ↔ (accepted ≡ some false)
  pub confirms :
      (row'.state ≡ confirmed)
      ↔ (IsAnswered row block v accepted ⊎ ((row.state ≡ confirmed) × (accepted ≢ some false)))
  pub waits : (row'.state ≡ rejected) ⊎ (row'.state ≡ confirmed) ⊎ (row'.state ≡ row.state)
  pub score :
      (row'.confirmed_daa ≡ row.confirmed_daa)
      ⊎ ((row.confirmed_daa ≡ none) × (row'.confirmed_daa ≡ some v))
  pub scored :
      (is_some row'.confirmed_daa ≡ true)
      ↔ (IsAnswered row block v accepted ⊎ (is_some row.confirmed_daa ≡ true))

advance_row-IsAdvanced :
    (row : WithdrawalRecord) (block v : ℕ) (accepted : Option Bool)
    → row.observed_block_daa ≡ some block
    → is_rejected row.state ≡ false
    → 1 ≤ row.required_confirmations
    → IsAdvanced row (advance_row v accepted row row) block v accepted
unfolding advance_row advance_change set_rejected set_confirmed update_last_checked
advance_row-IsAdvanced row block v none seen live deep = ground arith
advance_row-IsAdvanced row block v (some true) seen live deep = ground arith
advance_row-IsAdvanced row block v (some false) seen live deep = ground arith

-- An answer for a registered payment that is seen in a block, not rejected and of a required depth of
-- one at least, at a score below 2^63 that is not below the one checked last: the call succeeds and
-- returns the row that it stores, with that score as the one checked last. The row is rejected exactly by
-- the answer that the payment is not accepted, confirmed exactly by an acceptance at the required depth
-- or if it was confirmed and is not rejected, and else in the state that it had; its confirmation score
-- is the one it had, or this score if it had none and the acceptance is deep enough; its payment, depth
-- and block stay, and so do the rows of the other payments.
pub advance_confirms :
    (ledger : WithdrawalLedger) (expected : WithdrawalExpectation) (v block : ℕ)
    (accepted : Option Bool) (row : WithdrawalRecord)
    → lookup (key_of expected) ledger ≡ some row
    → row.observed_block_daa ≡ some block
    → is_rejected row.state ≡ false
    → 1 ≤ row.required_confirmations
    → row.last_checked_daa ≤ v
    → v < i64_bound
    → (row' : WithdrawalRecord) × (ledger' : WithdrawalLedger) × (advance ledger expected v accepted
        ≡ ok (row', ledger'))
      × (lookup (key_of expected) ledger' ≡ some row')
      × IsAdvanced row row' block v accepted
      × ((other : Outpoint) → other ≢ key_of expected → lookup other ledger' ≡ lookup other ledger)
unfolding advance
advance_confirms ledger expected v block accepted row found seen live deep forward fits =
    let key = key_of expected in
    let change = advance_row v accepted row in
    (
      change row,
      update key change ledger,
      ground (arith, write_row_lem ledger key change found),
      ground (arith, found, lookup-update key key change ledger, outpoint_beq_iff key key),
      advance_row-IsAdvanced row block v accepted seen live deep,
      λ other apart.
          ground (arith, apart, lookup-update other key change ledger, outpoint_beq_iff other key),
    )

-- After an observation at a score an `advance` at that score is never refused as going backwards,
-- whatever score was checked before: `observe` overwrites the score that `advance` compares with.
pub observe_then_advance :
    (ledger : WithdrawalLedger) (expected : WithdrawalExpectation) (v : ℕ) (seen : WithdrawalUtxo)
    (accepted : Option Bool) (row : WithdrawalRecord) (ledger' : WithdrawalLedger)
    → observe ledger expected v seen ≡ ok (row, ledger')
    → (row.last_checked_daa ≡ v) × (is_ok (advance ledger' expected v accepted) ≡ true)
unfolding set_observed advance
observe_then_advance ledger expected v seen accepted row ledger' h =
    let (old, facts, made, written) = observe-ok ledger expected v seen row ledger' h in
    let found' : lookup (key_of expected) ledger' ≡ some row = ground (
      arith,
      facts.found,
      made,
      written,
      lookup-update (key_of expected) (key_of expected) (set_observed seen.block_daa_score v)
          ledger,
      outpoint_beq_iff (key_of expected) (key_of expected),
    ) in
    (
      ground arith,
      ground (
        arith,
        facts.fits,
        found',
        write_row_lem ledger' (key_of expected) (advance_row v accepted row) found',
      ),
    )
