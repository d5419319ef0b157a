-- ===== src/Outbox/Leases.antt =====
-- A claim and its lease: who may act on an event, and until when.
use kaspa_frontier_engine.Base.{
  ℕ, ◌+◌, ◌-◌, ◌≤◌, ◌<◌, ◌≡◌, refl, sym, ap, subst, ◌∙◌, ◌≢◌, inl, inr, Bool, true, false, some,
  arith, leb, nat_beq_iff, Bool-cases, Option-cases, ok, err, is_ok, Result-cases,
}
use kaspa_frontier_engine.Base.Eq.{nat_eq}
use kaspa_frontier_engine.Base.Text.{Text, text_beq_iff, text_eq}
use kaspa_frontier_engine.Base.Text.{text_beq}
use kaspa_frontier_engine.Base.Map.{lookup-update}
use kaspa_frontier_engine.Base.Map.{lookup, update}
use kaspa_frontier_engine.Outbox.{
  OutboxRow, Outbox, OutboxError, raced, not_owned, ClaimedLedgerEvent, event_of,
  DeliveryFailureOutcome, retry_scheduled, validate_owner, validate_lease, update_where,
  acknowledged_row, claimable, select_claim, leased, claim_selected, lease_times,
  claim_next_delivery, held_by, acknowledge_claim, release_claim, failure, fail_claim,
}

pub update_where-ok :
    (outbox : Outbox) (id : ℕ) (test : OutboxRow → Bool) (change : OutboxRow → OutboxRow)
    (error : OutboxError) (outbox' : Outbox)
    → update_where outbox id test change error ≡ ok outbox'
    → (row : OutboxRow) × (lookup id outbox ≡ some row)
      × (test row ≡ true)
      × (outbox' ≡ update id change outbox)
unfolding update_where
update_where-ok outbox id test change error outbox' h = elim (Option-cases (lookup id outbox)) [
  | inl missing ↦ absurd (ground arith)
  | inr (row, found) ↦ (row, found, ground arith, ground arith)
]

update_where-refused :
    (outbox : Outbox) (id : ℕ) (test : OutboxRow → Bool) (change : OutboxRow → OutboxRow)
    (error : OutboxError) (row : OutboxRow)
    → lookup id outbox ≡ some row
    → test row ≡ false
    → update_where outbox id test change error ≡ err error
unfolding update_where
update_where-refused outbox id test change error row found fails = ground (arith, found)

lease_times-ok :
    (owner : Text) (now lease : ℕ) (n until : ℕ)
    → lease_times owner now lease ≡ ok (n, until)
    → (n ≡ now) × (until ≡ now + lease)
unfolding lease_times
lease_times-ok owner now lease n until h = (ground arith, ground arith)

-- What a claim has found, and what it has written.
pub record Claims (outbox : Outbox) (owner : Text) (now lease : ℕ) (c : ClaimedLedgerEvent)
    (outbox' : Outbox) (row : OutboxRow) : Type 0 where
  pub found : lookup c.event.id outbox ≡ some row
  pub free : claimable now row ≡ true
  pub written : outbox' ≡ update c.event.id (leased owner (now + lease)) outbox
  pub reported : (c.event ≡ event_of c.event.id row) × (c.attempts ≡ row.attempts + 1)

claim_selected-ok :
    (outbox : Outbox) (owner : Text) (now until at id : ℕ) (c : ClaimedLedgerEvent)
    (outbox' : Outbox)
    → claim_selected outbox owner now until (some (at, id)) ≡ (ok (some c), outbox')
    → (row : OutboxRow) × (lookup id outbox ≡ some row)
      × (c.event.id ≡ id)
      × (claimable now row ≡ true)
      × (outbox' ≡ update id (leased owner until) outbox)
      × (c.event ≡ event_of id row)
      × (c.attempts ≡ row.attempts + 1)
unfolding claim_selected
claim_selected-ok outbox owner now until at id c outbox' h =
    elim (Result-cases (update_where outbox id (claimable now) (leased owner until) raced)) [
      | inl (after, wrote) ↦
          let (row, found, free, written) =
            update_where-ok outbox id (claimable now) (leased owner until) raced after wrote in
          let read : lookup id after ≡ some (leased owner until row) = ground (
            arith,
            found,
            written,
            lookup-update id id (leased owner until) outbox,
            nat_beq_iff id id,
          ) in
          (
            row,
            found,
            ground (arith, wrote, read),
            free,
            ground (arith, wrote, written),
            ground (arith, wrote, read),
            ground (arith, wrote, read),
          )
      | inr (e, failed) ↦ absurd (ground (arith, failed))
    ]

pub claim-Claims :
    (outbox : Outbox) (owner : Text) (now lease : ℕ) (c : ClaimedLedgerEvent) (outbox' : Outbox)
    → claim_next_delivery outbox owner now lease ≡ (ok (some c), outbox')
    → (row : OutboxRow) × Claims outbox owner now lease c outbox' row
unfolding claim_next_delivery
claim-Claims outbox owner now lease c outbox' h =
    elim (Result-cases (lease_times owner now lease)) [
      | inl ((n, until), timed) ↦
          let (same_now, same_until) = lease_times-ok owner now lease n until timed in
          let selected : claim_selected outbox owner n until (select_claim n outbox)
              ≡ (ok (some c), outbox') =
            ground (arith, timed) in
          elim (Option-cases (select_claim n outbox)) [
            | inl nobody ↦ absurd (unfold claim_selected in ground (arith, selected, nobody))
            | inr ((at, id), first) ↦
                let (row, found, same, free, written, key, count) =
                  claim_selected-ok outbox owner n until at id c outbox' (rw first at selected) in
                (
                  row,
                  record {
                    found = rw same found;
                    free = rw (← same_now) free;
                    written = ground (arith, written, same, same_until);
                    reported = (rw (← same) at key, count);
                  },
                )
          ]
      | inr (e, failed) ↦ absurd (ground (arith, failed))
    ]

-- The row of a claim, after it.
claimed_row :
    (outbox : Outbox) (owner : Text) (now lease : ℕ) (c : ClaimedLedgerEvent) (outbox' : Outbox)
    (row : OutboxRow)
    → Claims outbox owner now lease c outbox' row
    → lookup c.event.id outbox' ≡ some (leased owner (now + lease) row)
claimed_row outbox owner now lease c outbox' row claims = ground (
  arith,
  claims.found,
  claims.written,
  lookup-update c.event.id c.event.id (leased owner (now + lease)) outbox,
  nat_beq_iff c.event.id c.event.id,
)

-- The next claim after a claim, by anybody and before the lease ends, returns another event.
pub claims_differ :
    (outbox : Outbox) (owner other : Text) (now lease later lease' : ℕ) (c d : ClaimedLedgerEvent)
    (outbox' outbox'' : Outbox)
    → claim_next_delivery outbox owner now lease ≡ (ok (some c), outbox')
    → later < now + lease
    → claim_next_delivery outbox' other later lease' ≡ (ok (some d), outbox'')
    → d.event.id ≢ c.event.id
claims_differ outbox owner other now lease later lease' c d outbox' outbox'' h early k same =
    let (row, claims) = claim-Claims outbox owner now lease c outbox' h in
    let (row', again) = claim-Claims outbox' other later lease' d outbox'' k in
    let after = claimed_row outbox owner now lease c outbox' row claims in
    let one : leased owner (now + lease) row ≡ row' = cc (after, again.found, same) in
    let expired : claimable later (leased owner (now + lease) row) ≡ true =
      subst (λ r. claimable later r ≡ true) (sym one) again.free in
    ground (arith, expired)

claimed-owner :
    (outbox : Outbox) (owner : Text) (now lease : ℕ) (c : ClaimedLedgerEvent) (outbox' : Outbox)
    → claim_next_delivery outbox owner now lease ≡ (ok (some c), outbox')
    → validate_owner owner ≡ ok tt
unfolding claim_next_delivery lease_times validate_lease
claimed-owner outbox owner now lease c outbox' h = elim (Result-cases (validate_owner owner)) [
  | inl (done, valid) ↦ valid
  | inr (e, bad) ↦ absurd (ground (arith, bad))
]

-- Right after a claim its owner's acknowledgement goes through, and no other owner's acknowledgement,
-- release or failure of that event does.
pub owner_acknowledges :
    (outbox : Outbox) (owner other error : Text) (now lease at next most : ℕ)
    (c : ClaimedLedgerEvent) (outbox' : Outbox)
    → claim_next_delivery outbox owner now lease ≡ (ok (some c), outbox')
    → other ≢ owner
    → (acknowledge_claim outbox' c.event.id owner ≡ ok (update c.event.id acknowledged_row outbox'))
      × (is_ok (acknowledge_claim outbox' c.event.id other) ≡ false)
      × (is_ok (release_claim outbox' c.event.id other error) ≡ false)
      × (is_ok (fail_claim outbox' c.event.id other error at next most) ≡ false)
unfolding acknowledge_claim release_claim fail_claim update_where
owner_acknowledges outbox owner other error now lease at next most c outbox' h differ =
    let (row, claims) = claim-Claims outbox owner now lease c outbox' h in
    let after = claimed_row outbox owner now lease c outbox' row claims in
    let valid = claimed-owner outbox owner now lease c outbox' h in
    let open_row : row.acknowledged ≡ false = ground (arith, claims.free) in
    let mine : text_beq owner owner ≡ true = (text_beq_iff owner owner).1 refl in
    let not_theirs : text_beq owner other ≡ false =
      ground (arith, text_beq_iff owner other, differ) in
    (
      ground (arith, after, valid, open_row, mine),
      ground (arith, after, not_theirs),
      ground (arith, after, not_theirs),
      ground (arith, after, not_theirs),
    )

-- The next claim after an event was acknowledged, by anybody and at any time, returns another event.
pub acknowledged_stays :
    (outbox : Outbox) (owner other : Text) (id later lease : ℕ) (outbox' outbox'' : Outbox)
    (d : ClaimedLedgerEvent)
    → acknowledge_claim outbox id owner ≡ ok outbox'
    → claim_next_delivery outbox' other later lease ≡ (ok (some d), outbox'')
    → d.event.id ≢ id
unfolding acknowledge_claim
acknowledged_stays outbox owner other id later lease outbox' outbox'' d h k same =
    let wrote : update_where outbox id (held_by owner) acknowledged_row (not_owned id)
        ≡ ok outbox' =
      ground arith in
    let (row, found, held, written) =
      update_where-ok outbox id (held_by owner) acknowledged_row (not_owned id) outbox' wrote in
    let (row', again) = claim-Claims outbox' other later lease d outbox'' k in
    let after : lookup id outbox' ≡ some (acknowledged_row row) =
      ground
        (arith, found, written, lookup-update id id acknowledged_row outbox, nat_beq_iff id id) in
    let one : acknowledged_row row ≡ row' = cc (after, again.found, same) in
    let free : claimable later (acknowledged_row row) ≡ true =
      subst (λ r. claimable later r ≡ true) (sym one) again.free in
    ground (arith, free)

pub fail_claim-ok :
    (outbox : Outbox) (id : ℕ) (owner error : Text) (now next most : ℕ)
    (outcome : DeliveryFailureOutcome) (outbox' : Outbox)
    → fail_claim outbox id owner error now next most ≡ ok (outcome, outbox')
    → (row : OutboxRow) × (lookup id outbox ≡ some row)
      × (outcome ≡ (failure error now next most row.attempts).0)
      × (outbox' ≡ update id (failure error now next most row.attempts).1 outbox)
unfolding fail_claim
fail_claim-ok outbox id owner error now next most outcome outbox' h =
    elim (Option-cases (lookup id outbox)) [
      | inl missing ↦ absurd (ground arith)
      | inr (row, found) ↦ (row, found, ground arith, ground arith)
    ]

-- An event that is claimed right after a failure of it was given another attempt: its attempts were
-- below the maximum, and the time of the retry has come. A dead letter is not claimed.
pub fail_delays :
    (outbox : Outbox) (owner other error : Text) (id now next most later lease : ℕ)
    (outcome : DeliveryFailureOutcome) (outbox' outbox'' : Outbox) (d : ClaimedLedgerEvent)
    → fail_claim outbox id owner error now next most ≡ ok (outcome, outbox')
    → claim_next_delivery outbox' other later lease ≡ (ok (some d), outbox'')
    → d.event.id ≡ id
    → (outcome ≡ retry_scheduled (d.attempts - 1) next) × (d.attempts - 1 < most) × (next ≤ later)
unfolding failure
fail_delays outbox owner other error id now next most later lease outcome outbox' outbox'' d h k
      same =
    let (row, found, result, written) =
      fail_claim-ok outbox id owner error now next most outcome outbox' h in
    let change = (failure error now next most row.attempts).1 in
    let (row', again) = claim-Claims outbox' other later lease d outbox'' k in
    let after : lookup id outbox' ≡ some (change row) =
      ground (arith, found, written, lookup-update id id change outbox, nat_beq_iff id id) in
    let one : change row ≡ row' = cc (after, again.found, same) in
    let free : claimable later (change row) ≡ true =
      subst (λ r. claimable later r ≡ true) (sym one) again.free in
    let count : d.attempts ≡ (change row).attempts + 1 =
      again.reported.1 ∙ ap (λ r. r.attempts + 1) (sym one) in
    elim (Bool-cases (leb most row.attempts)) [
      | inl exhausted ↦ absurd (ground (arith, free, exhausted))
      | inr left ↦ (
        ground (arith, result, count, left),
        ground (arith, count, left),
        ground (arith, free, left),
      )
    ]
