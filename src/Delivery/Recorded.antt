-- ===== src/Delivery/Recorded.antt =====
-- Nothing is lost: the loop acknowledges an event only when its facts are in the receiver's inbox.
use kaspa_frontier_engine.Base.{
  ℕ, ◌≡◌, refl, sym, ap, subst, ◌∙◌, ◌≢◌, inl, inr, true, Option, none, some, arith, Bool-cases,
  Option-cases, Result, ok, Result-cases,
}
use kaspa_frontier_engine.Base.Eq.{nat_eq}
use kaspa_frontier_engine.Base.Text.{Text, text_beq_iff, text_eq}
use kaspa_frontier_engine.Base.Map.{AllEntries, AllEntries-update, AllEntries-imp, lookup-insert}
use kaspa_frontier_engine.Base.Map.{lookup, insert, update}
use kaspa_frontier_engine.Outbox.{
  OutboxRow, Outbox, OutboxError, ClaimedLedgerEvent, LedgerEvent, event_of, raced, update_where,
  claimable, select_claim, leased, claim_selected, lease_times, claim_next_delivery,
}
use kaspa_frontier_engine.Receiver.{
  Inbox, InboxRow, InboxOutcome, conflict, accept, accept_at, same_facts, row_of,
}
use kaspa_frontier_engine.Delivery.{body_of}
use kaspa_frontier_engine.Outbox.Leases.{update_where-ok}
use kaspa_frontier_engine.Receiver.Invariant.{accept-ok}

-- The inbox has the facts of an event.
abbrev pub SameFacts : InboxRow → OutboxRow → Type 0
SameFacts stored row =
    (stored.kind ≡ row.kind)
    × (stored.tx_id ≡ row.tx_id)
    × (stored.output_index ≡ row.output_index)
    × (stored.amount_sompi ≡ row.amount_sompi)
    × (stored.address ≡ row.address)

abbrev pub InInbox : Inbox → OutboxRow → Type 0
InInbox inbox row =
    (stored : InboxRow) × (lookup row.event_key inbox ≡ some stored) × SameFacts stored row

-- Every event that is acknowledged is in the inbox.
abbrev pub Recorded : Outbox → Inbox → Type 0
Recorded outbox inbox = AllEntries (λ id row. row.acknowledged ≡ true → InInbox inbox row) outbox

-- Rows that the inbox has stay.
abbrev pub Stays : Inbox → Inbox → Type 0
Stays before after =
    (k : Text) (stored : InboxRow) → lookup k before ≡ some stored → lookup k after ≡ some stored

pub Stays-Recorded :
    (outbox : Outbox) (before after : Inbox)
    → Stays before after
    → Recorded outbox before
    → Recorded outbox after
Stays-Recorded outbox before after stays h =
    AllEntries-imp (λ id row. row.acknowledged ≡ true → InInbox before row)
      (λ id row. row.acknowledged ≡ true → InInbox after row) outbox
      (λ id row old done.
        let (stored, found, same) = old done in (stored, stays row.event_key stored found, same))
      h

-- A write that acknowledges nothing.
pub quiet-Recorded :
    (outbox : Outbox) (inbox : Inbox) (id : ℕ) (change : OutboxRow → OutboxRow)
    → ((r : OutboxRow)
        → ((change r).acknowledged ≡ r.acknowledged) × (event_of id (change r) ≡ event_of id r))
    → Recorded outbox inbox
    → Recorded (update id change outbox) inbox
quiet-Recorded outbox inbox id change keeps h =
    AllEntries-update (λ i row. row.acknowledged ≡ true → InInbox inbox row) id change outbox h
      (λ r found old done.
        let (same_ack, same_event) = keeps r in
        let (stored, there, (k, t, o, a, d)) = old (sym same_ack ∙ done) in
        (
          stored,
          rw (ap (λ e. e.event_key) same_event) there,
          (
            k ∙ sym (ap (λ e. e.kind) same_event),
            t ∙ sym (ap (λ e. e.tx_id) same_event),
            o ∙ sym (ap (λ e. e.output_index) same_event),
            a ∙ sym (ap (λ e. e.amount_sompi) same_event),
            d ∙ sym (ap (λ e. e.address) same_event),
          ),
        ))

claim_selected-Recorded :
    (outbox : Outbox) (inbox : Inbox) (owner : Text) (now until : ℕ) (first : Option (ℕ × ℕ))
    (result : Result OutboxError (Option ClaimedLedgerEvent)) (outbox' : Outbox)
    → claim_selected outbox owner now until first ≡ (result, outbox')
    → Recorded outbox inbox
    → Recorded outbox' inbox
unfolding claim_selected
claim_selected-Recorded outbox inbox owner now until none result outbox' done h =
    let same : outbox ≡ outbox' = ground (arith, done) in subst (λ o. Recorded o inbox) same h
claim_selected-Recorded outbox inbox owner now until (some (at, id)) result outbox' done h =
    elim (Result-cases (update_where outbox id (claimable now) (leased owner until) raced)) [
      | inl (after, wrote) ↦
          let (row, found, free, written) =
            update_where-ok outbox id (claimable now) (leased owner until) raced after wrote in
          let same : after ≡ outbox' = ground (arith, done, wrote) in
          subst (λ o. Recorded o inbox) (sym written ∙ same)
            (quiet-Recorded outbox inbox id (leased owner until) (λ r. (refl, refl)) h)
      | inr (e, refused) ↦
          let same : outbox ≡ outbox' = ground (arith, done, refused) in
          subst (λ o. Recorded o inbox) same h
    ]

pub claim-Recorded :
    (outbox : Outbox) (inbox : Inbox) (owner : Text) (now lease : ℕ)
    (result : Result OutboxError (Option ClaimedLedgerEvent)) (outbox' : Outbox)
    → claim_next_delivery outbox owner now lease ≡ (result, outbox')
    → Recorded outbox inbox
    → Recorded outbox' inbox
unfolding claim_next_delivery
claim-Recorded outbox inbox owner now lease result outbox' done h =
    elim (Result-cases (lease_times owner now lease)) [
      | inl ((n, until), timed) ↦
          claim_selected-Recorded outbox inbox owner n until (select_claim n outbox) result outbox'
            (rw timed at done) h
      | inr (e, refused) ↦
          let same : outbox ≡ outbox' = ground (arith, done, refused) in
          subst (λ o. Recorded o inbox) same h
    ]

-- What the receiver has of an event that it answers with success.
abbrev pub Stored : Inbox → LedgerEvent → Type 0
Stored inbox event =
    (stored : InboxRow) × (lookup event.event_key inbox ≡ some stored)
    × (stored.kind ≡ event.kind)
    × (stored.tx_id ≡ event.tx_id)
    × (stored.output_index ≡ event.output_index)
    × (stored.amount_sompi ≡ event.amount_sompi)
    × (stored.address ≡ event.address)

pub accept-Stored :
    (inbox : Inbox) (event : LedgerEvent) (at : ℕ) (outcome : InboxOutcome) (inbox' : Inbox)
    → accept inbox event.event_key (body_of event) at ≡ ok (outcome, inbox')
    → outcome ≢ conflict
    → Stored inbox' event
unfolding accept_at same_facts
accept-Stored inbox event at outcome inbox' done fine =
    let (passes, at_row) = accept-ok inbox event.event_key (body_of event) at outcome inbox' done in
    elim (Option-cases (lookup event.event_key inbox)) [
      | inl missing ↦
          let row = row_of (body_of event) event.amount_sompi at in
          let same : inbox' ≡ insert event.event_key row inbox = ground (arith, at_row, missing) in
          (
            row,
            rw
                (
                  same,
                  lookup-insert event.event_key event.event_key row inbox,
                  (text_beq_iff event.event_key event.event_key).1 refl,
                )
                refl,
            refl,
            refl,
            refl,
            refl,
            refl,
          )
      | inr (stored, found) ↦
          let same : inbox' ≡ inbox = ground (arith, at_row, found) in
          elim (Bool-cases (same_facts stored (body_of event) event.amount_sompi)) [
            | inr other ↦ absurd (fine (ground (arith, at_row, found, other)))
            | inl equal ↦ (
              stored,
              rw same found,
              (text_beq_iff stored.kind event.kind).0 (ground (arith, equal)),
              (text_beq_iff stored.tx_id event.tx_id).0 (ground (arith, equal)),
              ground (arith, equal),
              ground (arith, equal),
              (text_beq_iff stored.address event.address).0 (ground (arith, equal)),
            )
          ]
    ]
