-- ===== src/Outbox/Writes.antt =====
-- What the calls on the outbox write: at most one row, which is not acknowledged, and never what its
-- event says.
use kaspa_frontier_engine.Base.{
  ℕ, ◌≡◌, refl, subst, ◌⊎◌, inl, inr, Bool, true, false, not, ◌&&◌, Option, none, some, arith, leb,
  Bool-cases, is_some, Result, ok, Result-cases,
}
use kaspa_frontier_engine.Base.Eq.{nat_eq}
use kaspa_frontier_engine.Base.Text.{Text, text_eq}
use kaspa_frontier_engine.Base.Text.{trim}
use kaspa_frontier_engine.Base.Map.{lookup, update}
use kaspa_frontier_engine.Outbox.{
  OutboxRow, Outbox, OutboxError, raced, not_owned, not_open, not_dead, ClaimedLedgerEvent,
  DeliveryFailureOutcome, update_where, acknowledged_row, acknowledge_event, claimable,
  select_claim, leased, claim_selected, lease_times, claim_next_delivery, held_by,
  acknowledge_claim, release_claim, failure, fail_claim, requeue_dead_letter,
}
use kaspa_frontier_engine.Outbox.Leases.{update_where-ok, fail_claim-ok}

-- A write keeps what the event says.
abbrev pub Keeps : (OutboxRow → OutboxRow) → Type 0
Keeps change =
    (r : OutboxRow)
    → ((change r).event_key ≡ r.event_key)
      × ((change r).amount_sompi ≡ r.amount_sompi)
      × ((change r).address ≡ r.address)
      × ((change r).kind ≡ r.kind)
      × ((change r).tx_id ≡ r.tx_id)
      × ((change r).output_index ≡ r.output_index)

pub record Writes (outbox outbox' : Outbox) : Type 0 where
  pub id : ℕ
  pub row : OutboxRow
  pub change : OutboxRow → OutboxRow
  pub found : lookup id outbox ≡ some row
  pub open_row : row.acknowledged ≡ false
  pub keeps : Keeps change
  pub written : outbox' ≡ update id change outbox

-- The calls of the workers and of the operator.
pub data Call : Outbox → Outbox → Type 0 where
  claims :
      {outbox outbox' : Outbox} (owner : Text) (now lease : ℕ)
      (result : Result OutboxError (Option ClaimedLedgerEvent))
      → claim_next_delivery outbox owner now lease ≡ (result, outbox')
      → Call outbox outbox'
  acknowledges :
      {outbox outbox' : Outbox} (id : ℕ) (owner : Text)
      → acknowledge_claim outbox id owner ≡ ok outbox'
      → Call outbox outbox'
  marks :
      {outbox outbox' : Outbox} (id : ℕ)
      → acknowledge_event outbox id ≡ ok outbox'
      → Call outbox outbox'
  releases :
      {outbox outbox' : Outbox} (id : ℕ) (owner error : Text)
      → release_claim outbox id owner error ≡ ok outbox'
      → Call outbox outbox'
  fails :
      {outbox outbox' : Outbox} (id : ℕ) (owner error : Text) (now next most : ℕ)
      (outcome : DeliveryFailureOutcome)
      → fail_claim outbox id owner error now next most ≡ ok (outcome, outbox')
      → Call outbox outbox'
  requeues :
      {outbox outbox' : Outbox} (id now : ℕ)
      → requeue_dead_letter outbox id now ≡ ok outbox'
      → Call outbox outbox'

update_where-Writes :
    (outbox : Outbox) (id : ℕ) (test : OutboxRow → Bool) (change : OutboxRow → OutboxRow)
    (error : OutboxError) (outbox' : Outbox)
    → ((row : OutboxRow) → test row ≡ true → row.acknowledged ≡ false)
    → Keeps change
    → update_where outbox id test change error ≡ ok outbox'
    → Writes outbox outbox'
update_where-Writes outbox id test change error outbox' opens keeps h =
    let (row, found, passes, written) = update_where-ok outbox id test change error outbox' h in
    record {
      id = id;
      row = row;
      change = change;
      found = found;
      open_row = opens row passes;
      keeps = keeps;
      written = written;
    }

claim_selected-Writes :
    (outbox : Outbox) (owner : Text) (now until : ℕ) (first : Option (ℕ × ℕ))
    (result : Result OutboxError (Option ClaimedLedgerEvent)) (outbox' : Outbox)
    → claim_selected outbox owner now until first ≡ (result, outbox')
    → (outbox' ≡ outbox) ⊎ Writes outbox outbox'
unfolding claim_selected
claim_selected-Writes outbox owner now until none result outbox' h = inl (ground arith)
claim_selected-Writes outbox owner now until (some (at, id)) result outbox' h =
    elim (Result-cases (update_where outbox id (claimable now) (leased owner until) raced)) [
      | inl (after, wrote) ↦
          let writes : Writes outbox after =
            update_where-Writes outbox id (claimable now) (leased owner until) raced after
              (λ row free. ground (arith, free)) (λ r. (refl, refl, refl, refl, refl, refl))
              wrote in
          let same : after ≡ outbox' = ground (arith, wrote) in
          inr (subst (Writes outbox) same writes)
      | inr (e, failed) ↦ inl (ground (arith, failed))
    ]

claim-Writes :
    (outbox : Outbox) (owner : Text) (now lease : ℕ)
    (result : Result OutboxError (Option ClaimedLedgerEvent)) (outbox' : Outbox)
    → claim_next_delivery outbox owner now lease ≡ (result, outbox')
    → (outbox' ≡ outbox) ⊎ Writes outbox outbox'
unfolding claim_next_delivery
claim-Writes outbox owner now lease result outbox' h =
    elim (Result-cases (lease_times owner now lease)) [
      | inl ((n, until), timed) ↦
          claim_selected-Writes outbox owner n until (select_claim n outbox) result outbox'
            (rw timed at h)
      | inr (e, failed) ↦ inl (ground (arith, failed))
    ]

failure-Keeps :
    (error : Text) (now next most attempts : ℕ) → Keeps (failure error now next most attempts).1
unfolding failure
failure-Keeps error now next most attempts r = elim (Bool-cases (leb most attempts)) [
  | inl dead ↦ rw dead (refl, refl, refl, refl, refl, refl)
  | inr again ↦ rw again (refl, refl, refl, refl, refl, refl)
]

-- Every call that succeeds writes at most one row.
pub call-Writes :
    (outbox outbox' : Outbox) → Call outbox outbox' → (outbox' ≡ outbox) ⊎ Writes outbox outbox'
unfolding acknowledge_claim acknowledge_event release_claim requeue_dead_letter fail_claim
call-Writes outbox outbox' (claims owner now lease result h) =
    claim-Writes outbox owner now lease result outbox' h
call-Writes outbox outbox' (acknowledges id owner h) = inr (
    update_where-Writes outbox id (held_by owner) acknowledged_row (not_owned id) outbox'
      (λ row held. ground (arith, held)) (λ r. (refl, refl, refl, refl, refl, refl)) (ground arith))
call-Writes outbox outbox' (marks id h) = inr (
    update_where-Writes outbox id (λ row. not row.acknowledged && not (is_some row.lease_owner))
      acknowledged_row (not_open id) outbox' (λ row held. ground (arith, held))
      (λ r. (refl, refl, refl, refl, refl, refl)) h)
call-Writes outbox outbox' (releases id owner error h) = inr (
    update_where-Writes outbox id (held_by owner)
      (λ row. record row { lease_owner = none; lease_until = none; last_error = some (trim error) })
      (not_owned id) outbox' (λ row held. ground (arith, held))
      (λ r. (refl, refl, refl, refl, refl, refl)) (ground arith))
call-Writes outbox outbox' (fails id owner error now next most outcome h) =
    let (row, found, result, written) =
      fail_claim-ok outbox id owner error now next most outcome outbox' h in
    inr (record {
      id = id;
      row = row;
      change = (failure error now next most row.attempts).1;
      found = found;
      open_row = ground (arith, found);
      keeps = failure-Keeps error now next most row.attempts;
      written = written;
    })
call-Writes outbox outbox' (requeues id now h) = inr (
    update_where-Writes outbox id (λ row. not row.acknowledged && row.dead_lettered)
      (λ row. record row {
        dead_lettered = false;
        dead_lettered_at = none;
        attempts = 0;
        next_attempt_at = now;
        last_error = none;
        lease_owner = none;
        lease_until = none;
      })
      (not_dead id) outbox' (λ row held. ground (arith, held))
      (λ r. (refl, refl, refl, refl, refl, refl)) (ground arith))
