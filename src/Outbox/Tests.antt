-- ===== src/Outbox/Tests.antt =====
-- Runs of the outbox, and the theorems at concrete inputs.
use kaspa_frontier_engine.Base.{
  ℕ, ◌-◌, ◌≤◌, ◌<◌, ◌≡◌, refl, ◌≢◌, true, false, none, some, [], ◌∷◌, arith, ok, err, is_ok,
}
use kaspa_frontier_engine.Base.Eq.{nat_eq}
use kaspa_frontier_engine.Base.Text.{Text, text, text_eq}
use kaspa_frontier_engine.Base.Text.{text_beq, len, trim_start, trim}
use kaspa_frontier_engine.Base.Map.{lookup, update}
use kaspa_frontier_engine.Outbox.{
  OutboxRow, Outbox, not_open, ClaimedLedgerEvent, event_of, retry_scheduled, dead_letter,
  validate_owner, validate_delivery_error, validate_lease, update_where, acknowledged_row,
  acknowledge_event, select_claim, leased, claim_selected, lease_times, claim_next_delivery,
  acknowledge_claim, release_claim, failure, fail_claim, requeue_dead_letter,
}
use kaspa_frontier_engine.Outbox.Leases.{claims_differ, owner_acknowledges, fail_delays}

abbrev fresh : Text → OutboxRow
fresh key = record {
  event_key = key;
  kind = text "credit";
  tx_id = text "a";
  output_index = 0;
  amount_sompi = 5;
  address = text "kaspatest:q";
  acknowledged = false;
  dead_lettered = false;
  dead_lettered_at = none;
  attempts = 0;
  next_attempt_at = 0;
  lease_owner = none;
  lease_until = none;
  last_error = none;
}

abbrev outbox : Outbox
outbox = (1, fresh (text "credit:a:0")) ∷ (2, fresh (text "credit:b:0")) ∷ []

abbrev held : Outbox
held = (1, leased (text "w1") 130 (fresh (text "credit:a:0"))) ∷ (2, fresh (text "credit:b:0")) ∷ []

abbrev both_held : Outbox
both_held =
    (1, leased (text "w1") 130 (fresh (text "credit:a:0")))
    ∷ (2, leased (text "w2") 140 (fresh (text "credit:b:0")))
    ∷ []

abbrev acked : Outbox
acked =
    (1, acknowledged_row (leased (text "w1") 130 (fresh (text "credit:a:0"))))
    ∷ (2, fresh (text "credit:b:0"))
    ∷ []

abbrev retry_at : ℕ → OutboxRow
retry_at next = record (fresh (text "credit:a:0")) {
  attempts = 1;
  next_attempt_at = next;
  last_error = some (text "503");
}

abbrev alone : Outbox
alone = (1, leased (text "w1") 130 (fresh (text "credit:a:0"))) ∷ []

-- Everything that a run computes with.
everything : ℕ
unfolding claim_next_delivery claim_selected lease_times validate_lease validate_owner
    validate_delivery_error select_claim update_where acknowledge_claim acknowledge_event
    release_claim fail_claim failure requeue_dead_letter lookup update trim trim_start len text_beq
everything = 0

abbrev first_claim : ClaimedLedgerEvent
first_claim = record { event = event_of 1 (fresh (text "credit:a:0")); attempts = 1 }

abbrev second_claim : ClaimedLedgerEvent
second_claim = record { event = event_of 2 (fresh (text "credit:b:0")); attempts = 1 }

claim_run : claim_next_delivery outbox (text "w1") 100 30 ≡ (ok (some first_claim), held)
unfolding everything
claim_run = refl

next_claim_run : claim_next_delivery held (text "w2") 110 30 ≡ (ok (some second_claim), both_held)
unfolding everything
next_claim_run = refl

acknowledge_run : acknowledge_claim held 1 (text "w1") ≡ ok acked
unfolding everything
acknowledge_run = refl

open_only : acknowledge_event held 1 ≡ err (not_open 1)
unfolding everything
open_only = refl

fail_run :
    fail_claim alone 1 (text "w1") (text " 503 ") 105 200 3
    ≡ ok (retry_scheduled 1 200, (1, retry_at 200) ∷ [])
unfolding everything
fail_run = refl

dead_run :
    fail_claim alone 1 (text "w1") (text "503") 105 200 1
    ≡ ok (
      dead_letter 1,
      (1, record (retry_at 0) { dead_lettered = true; dead_lettered_at = some 105 }) ∷ [],
    )
unfolding everything
dead_run = refl

abbrev retried : Outbox
retried = (1, leased (text "w2") 230 (retry_at 200)) ∷ []

abbrev third_claim : ClaimedLedgerEvent
third_claim = record { event = event_of 1 (fresh (text "credit:a:0")); attempts = 2 }

retry_run :
    claim_next_delivery ((1, retry_at 200) ∷ []) (text "w2") 200 30
    ≡ (ok (some third_claim), retried)
unfolding everything
retry_run = refl

claims_differ_example : second_claim.event.id ≢ first_claim.event.id
claims_differ_example =
    claims_differ outbox (text "w1") (text "w2") 100 30 110 30 first_claim second_claim held
      both_held claim_run (omega arith) next_claim_run

owner_acknowledges_example :
    (acknowledge_claim held 1 (text "w1") ≡ ok (update 1 acknowledged_row held))
    × (is_ok (acknowledge_claim held 1 (text "w2")) ≡ false)
    × (is_ok (release_claim held 1 (text "w2") (text "503")) ≡ false)
    × (is_ok (fail_claim held 1 (text "w2") (text "503") 105 200 3) ≡ false)
owner_acknowledges_example =
    owner_acknowledges outbox (text "w1") (text "w2") (text "503") 100 30 105 200 3 first_claim held
      claim_run (λ same. ground (arith, same))

after_acknowledgement : claim_next_delivery acked (text "w2") 500 30 ≡ (
  ok (some second_claim),
  (1, acknowledged_row (leased (text "w1") 130 (fresh (text "credit:a:0"))))
      ∷ (2, leased (text "w2") 530 (fresh (text "credit:b:0")))
      ∷ [],
)
unfolding everything
after_acknowledgement = refl

fail_delays_example :
    (retry_scheduled 1 200 ≡ retry_scheduled (2 - 1) 200) × (2 - 1 < 3) × (200 ≤ 200)
fail_delays_example =
    fail_delays alone (text "w1") (text "w2") (text " 503 ") 1 105 200 3 200 30
      (retry_scheduled 1 200) ((1, retry_at 200) ∷ []) retried third_claim fail_run retry_run refl
