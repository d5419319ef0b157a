-- ===== src/Delivery/Rounds.antt =====
-- What one round does: the receiver's answer is honest, and the loop's reaction loses nothing.
use kaspa_frontier_engine.Base.{
  ℕ, ◌+◌, ◌≡◌, refl, sym, ap, subst, ◌∙◌, inl, inr, true, some, arith, leb, nat_beq_iff, Bool-cases,
  Option-cases, checked_add, u64_bound, Result, ok, err, Result-cases,
}
use kaspa_frontier_engine.Base.Eq.{nat_eq}
use kaspa_frontier_engine.Base.Text.{Text, text_eq}
use kaspa_frontier_engine.Base.Map.{AllEntries-update, lookup-update}
use kaspa_frontier_engine.Base.Map.{lookup}
use kaspa_frontier_engine.Outbox.{
  OutboxRow, Outbox, ClaimedLedgerEvent, LedgerEvent, event_of, DeliveryFailureOutcome, not_owned,
  acknowledged_row, leased, claim_next_delivery, held_by, acknowledge_claim, failure, fail_claim,
}
use kaspa_frontier_engine.Receiver.{
  DeliveryEnvelope, Inbox, InboxOutcome, accepted, duplicate, conflict, ReceiverError, accept,
}
use kaspa_frontier_engine.Delivery.{
  DeliveryPolicy, retry_delay_seconds, stored_error, record_delivery_failure, body_of, Answer,
  success, answer_of, receive, Fate, request_lost, response_lost, answered, Round, through, send,
}
use kaspa_frontier_engine.Outbox.Leases.{update_where-ok, fail_claim-ok, claim-Claims}
use kaspa_frontier_engine.Receiver.Once.{takes, passes_over, nothing, Deliveries-Keeps}
use kaspa_frontier_engine.Delivery.Recorded.{
  InInbox, Recorded, Stays, quiet-Recorded, Stored, accept-Stored,
}

accept-Stays :
    (inbox : Inbox) (header : Text) (delivery : DeliveryEnvelope) (at : ℕ) (outcome : InboxOutcome)
    (inbox' : Inbox)
    → accept inbox header delivery at ≡ ok (outcome, inbox')
    → Stays inbox inbox'
accept-Stays inbox header delivery at accepted inbox' done =
    (Deliveries-Keeps (takes header delivery at nothing done)).rows_stay
accept-Stays inbox header delivery at duplicate inbox' done =
    (Deliveries-Keeps (
      passes_over header delivery at duplicate nothing done
        (λ same. ground (arith, same)))).rows_stay
accept-Stays inbox header delivery at conflict inbox' done =
    (Deliveries-Keeps (
      passes_over header delivery at conflict nothing done
        (λ same. ground (arith, same)))).rows_stay

-- What the receiver does to its inbox, and what its success says.
abbrev pub Honest : Inbox → LedgerEvent → Answer × Inbox → Type 0
Honest inbox event (answer, inbox') = Stays inbox inbox' × (answer ≡ success → Stored inbox' event)

answer-Honest :
    (inbox : Inbox) (event : LedgerEvent) (at : ℕ)
    (result : Result ReceiverError (InboxOutcome × Inbox))
    → accept inbox event.event_key (body_of event) at ≡ result
    → Honest inbox event (answer_of inbox result)
answer-Honest inbox event at (ok (accepted, inbox')) done = (
  accept-Stays inbox event.event_key (body_of event) at accepted inbox' done,
  λ fine. accept-Stored inbox event at accepted inbox' done (λ same. ground (arith, same)),
)
answer-Honest inbox event at (ok (duplicate, inbox')) done = (
  accept-Stays inbox event.event_key (body_of event) at duplicate inbox' done,
  λ fine. accept-Stored inbox event at duplicate inbox' done (λ same. ground (arith, same)),
)
answer-Honest inbox event at (ok (conflict, inbox')) done = (
  accept-Stays inbox event.event_key (body_of event) at conflict inbox' done,
  λ fine. absurd (ground (arith, fine)),
)
answer-Honest inbox event at (err e) done =
    (λ k stored found. found, λ fine. absurd (ground (arith, fine)))

through-Honest :
    (fate : Fate) (inbox : Inbox) (event : LedgerEvent) (result : Answer × Inbox)
    → Honest inbox event result
    → Honest inbox event (through fate inbox result)
through-Honest (request_lost error) inbox event (answer, inbox') h =
    (λ k stored found. found, λ fine. absurd (ground (arith, fine)))
through-Honest (response_lost error) inbox event (answer, inbox') h =
    (h.0, λ fine. absurd (ground (arith, fine)))
through-Honest answered inbox event (answer, inbox') h = h

pub send-Honest :
    (round : Round) (inbox : Inbox) (event : LedgerEvent)
    → Honest inbox event (send round inbox event)
unfolding send receive
send-Honest round inbox event =
    through-Honest round.fate inbox event
      (answer_of inbox (accept inbox event.event_key (body_of event) round.received_at))
      (answer-Honest inbox event round.received_at
        (accept inbox event.event_key (body_of event) round.received_at) refl)

-- The row of a claim says what the claim says.
abbrev pub ClaimOf : Outbox → ClaimedLedgerEvent → Type 0
ClaimOf outbox claim =
    (row : OutboxRow)
    → lookup claim.event.id outbox ≡ some row
    → event_of claim.event.id row ≡ claim.event

pub claim-ClaimOf :
    (outbox : Outbox) (owner : Text) (now lease : ℕ) (claim : ClaimedLedgerEvent) (outbox' : Outbox)
    → claim_next_delivery outbox owner now lease ≡ (ok (some claim), outbox')
    → ClaimOf outbox' claim
claim-ClaimOf outbox owner now lease claim outbox' done row' found' =
    let (row, claims) = claim-Claims outbox owner now lease claim outbox' done in
    let id = claim.event.id in
    let after : lookup id outbox' ≡ some (leased owner (now + lease) row) =
      rw
        (
          claims.written,
          lookup-update id id (leased owner (now + lease)) outbox,
          (nat_beq_iff id id).1 refl,
          claims.found,
        )
        refl in
    let one : row' ≡ leased owner (now + lease) row =
      some_row row' (leased owner (now + lease) row) (sym found' ∙ after) in
    ap (event_of id) one ∙ sym claims.reported.0
  where
    some_row : (a b : OutboxRow) → some a ≡ some b → a ≡ b
    some_row a b h = cc

pub acknowledge-Recorded :
    (outbox : Outbox) (inbox : Inbox) (owner : Text) (claim : ClaimedLedgerEvent) (outbox' : Outbox)
    → acknowledge_claim outbox claim.event.id owner ≡ ok outbox'
    → ClaimOf outbox claim
    → Stored inbox claim.event
    → Recorded outbox inbox
    → Recorded outbox' inbox
unfolding acknowledge_claim
acknowledge-Recorded outbox inbox owner claim outbox' done of (stored, there, k, t, o, a, d) h =
    let id = claim.event.id in
    let (row, found, held, written) =
      update_where-ok outbox id (held_by owner) acknowledged_row (not_owned id) outbox'
        (ground (arith, done)) in
    subst (λ x. Recorded x inbox) (sym written)
      (AllEntries-update (λ i r. r.acknowledged ≡ true → InInbox inbox r) id acknowledged_row outbox
        h
        (λ r here old now_done.
          let says = of r here in
          (
            stored,
            rw (ap (λ e. e.event_key) says) there,
            (
              k ∙ sym (ap (λ e. e.kind) says),
              t ∙ sym (ap (λ e. e.tx_id) says),
              o ∙ sym (ap (λ e. e.output_index) says),
              a ∙ sym (ap (λ e. e.amount_sompi) says),
              d ∙ sym (ap (λ e. e.address) says),
            ),
          )))

pub failure-Recorded :
    (outbox : Outbox) (inbox : Inbox) (claim : ClaimedLedgerEvent) (owner error : Text) (now : ℕ)
    (policy : DeliveryPolicy) (outcome : DeliveryFailureOutcome) (outbox' : Outbox)
    → record_delivery_failure outbox claim owner error now policy ≡ ok (outcome, outbox')
    → Recorded outbox inbox
    → Recorded outbox' inbox
unfolding record_delivery_failure failure
failure-Recorded outbox inbox claim owner error now policy outcome outbox' done h =
    let delay =
      retry_delay_seconds claim.attempts policy.retry_base_seconds policy.retry_max_seconds in
    let id = claim.event.id in
    let note = stored_error error in
    elim (Option-cases (checked_add u64_bound now delay)) [
      | inl over ↦ absurd (ground (arith, done, over))
      | inr (next, fits) ↦
          elim (Result-cases (fail_claim outbox id owner note now next policy.max_attempts)) [
            | inr (e, refused) ↦ absurd (ground (arith, done, fits, refused))
            | inl ((outcome', after), wrote) ↦
                let (row, found, result, written) =
                  fail_claim-ok outbox id owner note now next policy.max_attempts outcome' after
                    wrote in
                let same : after ≡ outbox' = ground (arith, done, fits, wrote) in
                subst (λ x. Recorded x inbox) (sym written ∙ same)
                  (quiet-Recorded outbox inbox id
                    (failure note now next policy.max_attempts row.attempts).1
                    (λ r. elim (Bool-cases (leb policy.max_attempts row.attempts)) [
                      | inl dead ↦ rw dead (refl, refl)
                      | inr again ↦ rw again (refl, refl)
                    ])
                    h)
          ]
    ]
