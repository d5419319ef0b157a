-- ===== src/Delivery/Lossless.antt =====
-- The whole loop: what it acknowledges has arrived, and has arrived once.
use kaspa_frontier_engine.Base.{
  ℕ, ◌+◌, ◌-◌, ◌^◌, ◌≤◌, ◌<◌, min, ◌≡◌, refl, ap, subst, inl, inr, Option, none, some, List, [],
  ◌∷◌, arith, u64_bound, Result, ok, err, Result-cases,
}
use kaspa_frontier_engine.Base.Eq.{nat_eq}
use kaspa_frontier_engine.Base.Text.{Text, text_eq}
use kaspa_frontier_engine.Outbox.{
  Outbox, OutboxError, ClaimedLedgerEvent, LedgerEvent, claim_next_delivery, acknowledge_claim,
}
use kaspa_frontier_engine.Receiver.{
  DeliveryEnvelope, Inbox, InboxOutcome, accepted, duplicate, conflict, ReceiverError, accept,
}
use kaspa_frontier_engine.Delivery.{
  DeliveryPolicy, or_max, checked_mul, DeliveryReport, DeliverError, lease_seconds,
  retry_delay_seconds, record_delivery_failure, body_of, Answer, success, failed, answer_of,
  receive, Fate, request_lost, response_lost, answered, Round, through, send, settle, Delivered,
  deliver,
}
use native.Mathlib.Nat.{mul-le-mul_left, pow-le-pow_right}
use kaspa_frontier_engine.Receiver.Once.{
  Deliveries, takes, passes_over, nothing, Keeps, Deliveries-Keeps,
}
use kaspa_frontier_engine.Delivery.Recorded.{Recorded, Stored, claim-Recorded, Stays-Recorded}
use kaspa_frontier_engine.Delivery.Rounds.{
  ClaimOf, send-Honest, claim-ClaimOf, acknowledge-Recorded, failure-Recorded,
}

settle-Recorded :
    (policy : DeliveryPolicy) (owner : Text) (now : ℕ) (report report' : DeliveryReport)
    (outbox : Outbox) (inbox : Inbox) (claim : ClaimedLedgerEvent) (answer : Answer)
    (outbox' : Outbox)
    → settle policy owner now report outbox claim answer ≡ ok (report', outbox')
    → ClaimOf outbox claim
    → (answer ≡ success → Stored inbox claim.event)
    → Recorded outbox inbox
    → Recorded outbox' inbox
unfolding settle
settle-Recorded policy owner now report report' outbox inbox claim success outbox' done of there h =
    elim (Result-cases (acknowledge_claim outbox claim.event.id owner)) [
      | inr (e, refused) ↦ absurd (ground (arith, done, refused))
      | inl (after, wrote) ↦
          let same : after ≡ outbox' = ground (arith, done, wrote) in
          subst (λ x. Recorded x inbox) same
            (acknowledge-Recorded outbox inbox owner claim after wrote of (there refl) h)
    ]
settle-Recorded policy owner now report report' outbox inbox claim (failed error) outbox' done of
      there h =
    elim (Result-cases (record_delivery_failure outbox claim owner error now policy)) [
      | inr (e, refused) ↦ absurd (ground (arith, done, refused))
      | inl ((outcome, after), wrote) ↦
          let same : after ≡ outbox' = ground (arith, done, wrote) in
          subst (λ x. Recorded x inbox) same
            (failure-Recorded outbox inbox claim owner error now policy outcome after wrote h)
    ]

-- The deliveries that have reached the receiver so far.
abbrev Reached : Inbox → Inbox → Type 0
Reached start inbox = (keys : List Text) × Deliveries start keys inbox

accept-Reached :
    (start inbox : Inbox) (header : Text) (delivery : DeliveryEnvelope) (at : ℕ)
    (outcome : InboxOutcome) (inbox' : Inbox)
    → accept inbox header delivery at ≡ ok (outcome, inbox')
    → Reached start inbox
    → Reached start inbox'
accept-Reached start inbox header delivery at accepted inbox' done (keys, run) =
    (delivery.event.key ∷ keys, takes header delivery at run done)
accept-Reached start inbox header delivery at duplicate inbox' done (keys, run) =
    (keys, passes_over header delivery at duplicate run done (λ same. ground (arith, same)))
accept-Reached start inbox header delivery at conflict inbox' done (keys, run) =
    (keys, passes_over header delivery at conflict run done (λ same. ground (arith, same)))

answer-Reached :
    (start inbox : Inbox) (event : LedgerEvent) (at : ℕ)
    (result : Result ReceiverError (InboxOutcome × Inbox))
    → accept inbox event.event_key (body_of event) at ≡ result
    → Reached start inbox
    → Reached start (answer_of inbox result).1
answer-Reached start inbox event at (ok (accepted, inbox')) done h =
    accept-Reached start inbox event.event_key (body_of event) at accepted inbox' done h
answer-Reached start inbox event at (ok (duplicate, inbox')) done h =
    accept-Reached start inbox event.event_key (body_of event) at duplicate inbox' done h
answer-Reached start inbox event at (ok (conflict, inbox')) done h =
    accept-Reached start inbox event.event_key (body_of event) at conflict inbox' done h
answer-Reached start inbox event at (err e) done h = h

through-Reached :
    (start inbox : Inbox) (fate : Fate) (result : Answer × Inbox)
    → Reached start inbox
    → Reached start result.1
    → Reached start (through fate inbox result).1
through-Reached start inbox (request_lost error) (answer, inbox') before after = before
through-Reached start inbox (response_lost error) (answer, inbox') before after = after
through-Reached start inbox answered (answer, inbox') before after = after

send-Reached :
    (start inbox : Inbox) (round : Round) (event : LedgerEvent)
    → Reached start inbox
    → Reached start (send round inbox event).1
unfolding send receive
send-Reached start inbox round event h =
    through-Reached start inbox round.fate
      (answer_of inbox (accept inbox event.event_key (body_of event) round.received_at)) h
      (answer-Reached start inbox event round.received_at
        (accept inbox event.event_key (body_of event) round.received_at) refl h)

-- What the loop keeps.
abbrev pub Lossless : Inbox → Outbox × Inbox → Type 0
Lossless start (outbox, inbox) = Recorded outbox inbox × Reached start inbox

deliver-Lossless :
    (start : Inbox) (policy : DeliveryPolicy) (owner : Text) (report : DeliveryReport)
    (outbox : Outbox) (inbox : Inbox) (rounds : List Round)
    → Lossless start (outbox, inbox)
    → Lossless start (deliver policy owner report outbox inbox rounds).1
unfolding deliver
deliver-Lossless start policy owner report outbox inbox [] h = h
deliver-Lossless start policy owner report outbox inbox (round ∷ rounds) (recorded, reached) =
    let claimed = claim_next_delivery outbox owner round.now lease_seconds in
    let after =
      claim-Recorded outbox inbox owner round.now lease_seconds claimed.0 claimed.1 refl recorded in
    elim (Result-cases claimed.0) [
      | inr (e, refused) ↦ rw (deliver, refused) (after, reached)
      | inl (none, idle) ↦ rw (deliver, idle) (after, reached)
      | inl (some claim, taken) ↦
          let whole =
            ap (λ (r : Result OutboxError (Option ClaimedLedgerEvent)). (r, claimed.1)) taken in
          let of = claim-ClaimOf outbox owner round.now lease_seconds claim claimed.1 whole in
          let (stays, there) = send-Honest round inbox claim.event in
          let sent = send round inbox claim.event in
          let kept = Stays-Recorded claimed.1 inbox sent.1 stays after in
          let arrived = send-Reached start inbox round claim.event reached in
          elim (Result-cases (settle policy owner round.now report claimed.1 claim sent.0)) [
            | inr (e, refused) ↦ rw (deliver, taken, refused) (kept, arrived)
            | inl ((report', outbox''), settled) ↦
                let recorded'' =
                  settle-Recorded policy owner round.now report report' claimed.1 sent.1 claim
                    sent.0 outbox'' settled of there kept in
                rw (deliver, taken, settled)
                  (deliver-Lossless start policy owner report' outbox'' sent.1 rounds
                    (recorded'', arrived))
          ]
    ]

-- Where every acknowledged event is in the receiver's inbox, with its kind, outpoint, amount and address, that stays
-- so through any number of rounds, whatever requests or answers are lost and however the loop ends; and the receiver accepts
-- no event key twice meanwhile, and keeps every row that it had.
pub deliver-lossless :
    (policy : DeliveryPolicy) (owner : Text) (report : DeliveryReport) (outbox : Outbox)
    (inbox : Inbox) (rounds : List Round) (result : Result DeliverError DeliveryReport)
    (outbox' : Outbox) (inbox' : Inbox)
    → Recorded outbox inbox
    → deliver policy owner report outbox inbox rounds ≡ (result, (outbox', inbox'))
    → Recorded outbox' inbox' × ((keys : List Text) × Keeps inbox keys inbox')
deliver-lossless policy owner report outbox inbox rounds result outbox' inbox' h done =
    let kept = deliver-Lossless inbox policy owner report outbox inbox rounds (h, ([], nothing)) in
    let (recorded, (keys, run)) = subst (λ (r : Delivered). Lossless inbox r.1) done kept in
    (recorded, (keys, Deliveries-Keeps run))

delay_mono :
    (b most x y : ℕ)
    → x ≤ y
    → min (or_max (checked_mul u64_bound b x)) most ≤ min (or_max (checked_mul u64_bound b y)) most
delay_mono b most x y h = let grows = mul-le-mul_left b h in ground (arith, grows)

shift_mono : (attempts : ℕ) → 2 ^ min (attempts - 1) 63 ≤ 2 ^ min (attempts + 1 - 1) 63
shift_mono attempts = pow-le-pow_right (omega arith) (omega arith)

-- The delay before a retry is at most its maximum; it does not fall from one attempt to the next; and it is its base for the first
-- attempt, where that is within the maximum.
pub retry_delay-bounded :
    (attempts base_seconds max_seconds : ℕ)
    → base_seconds < u64_bound
    → (retry_delay_seconds attempts base_seconds max_seconds ≤ max_seconds)
      × (retry_delay_seconds attempts base_seconds max_seconds
          ≤ retry_delay_seconds (attempts + 1) base_seconds max_seconds)
      × (retry_delay_seconds 1 base_seconds max_seconds ≡ min base_seconds max_seconds)
unfolding retry_delay_seconds
retry_delay-bounded attempts base_seconds max_seconds small = (
  ground arith,
  delay_mono base_seconds max_seconds (2 ^ min (attempts - 1) 63) (2 ^ min (attempts + 1 - 1) 63)
      (shift_mono attempts),
  ground (arith, small),
)
