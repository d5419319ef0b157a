-- ===== src/Delivery.antt =====
-- src/bin/tn10_outbox.rs: the loop that delivers the outbox to a webhook, here the receiver of
-- src/bin/tn10_outbox_receiver.rs. The clock and the network are given: a round says at what times it happens, and whether the
-- request or its answer is lost. The receiver decodes the fields that the sender encodes.
pub mod Recorded
pub mod Rounds
pub mod Lossless
mod Tests
use mathlib.Core.Option
use Prim.Native.Nat.{bit_xor, pred}
use kaspa_frontier_engine.Base.{
  ℕ, zero, suc, ◌+◌, ◌-◌, ◌*◌, ◌/◌, ◌%◌, ◌^◌, ◌≤◌, ◌<◌, max, min, ◌≡◌, refl, sym, ap, subst, ◌∙◌,
  ◌≢◌, ◌↔◌, ◌⊎◌, inl, inr, Bool, true, false, not, ◌&&◌, ◌||◌, Option, none, some, List, [], ◌∷◌,
  ◌++◌, map, arith, ltb, leb, nat_beq, if◌then◌else◌, nat_beq_iff, Bool-cases, Option-cases,
  is_some, saturating_sub, checked_add, u64_bound, u128_bound, i64_bound, Result, ok, err, ◌>>=◌,
  ◌>>◌, fail_if, ok_or, to_i64, is_ok, Result-cases,
}
use kaspa_frontier_engine.Base.Lists.{
  length, all, any, any-append, retain, All, All-append, All-retain, All-imp, length-append, IsOnce,
}
use kaspa_frontier_engine.Base.Eq.{Eq, ◌==◌, nat_eq}
use kaspa_frontier_engine.Base.Text.{
  Text, text, text_beq_iff, text_eq, is_empty, is_ascii_digit, is_ascii_lowercase,
  is_ascii_uppercase, is_ascii_alphanumeric, is_ascii_hexdigit, lower, is_whitespace,
}
use kaspa_frontier_engine.Base.Text.{
  text_beq, len, to_ascii_lowercase, trim_start, trim, starts_with,
}
use kaspa_frontier_engine.Base.Map.{
  Map, Set, AllEntries, AllEntries-lookup, AllEntries-insert, AllEntries-update, AllEntries-erase,
  AllEntries-imp, AllEntries-contains, contains, lookup-empty, lookup-insert, lookup-erase,
  lookup-update, map_laws,
}
use kaspa_frontier_engine.Base.Map.{lookup, insert, erase, update}
use kaspa_frontier_engine.Outbox.{
  OutboxRow, Outbox, OutboxError, ClaimedLedgerEvent, LedgerEvent, event_of, DeliveryFailureOutcome,
  retry_scheduled, dead_letter, raced, not_owned, update_where, acknowledged_row, claimable,
  select_claim, leased, claim_selected, lease_times, claim_next_delivery, held_by,
  acknowledge_claim, failure, fail_claim,
}
use kaspa_frontier_engine.Receiver.{
  DeliveryEnvelope, IncomingLedgerEvent, Inbox, InboxRow, InboxOutcome, accepted, duplicate,
  conflict, ReceiverError, accept, accept_at, validate_delivery, same_facts, row_of,
}
use kaspa_frontier_engine.Base.Integers.{pos}

pub record DeliveryPolicy : Type 0 where
  pub max_attempts : ℕ
  pub retry_base_seconds : ℕ
  pub retry_max_seconds : ℕ

pub record DeliveryReport : Type 0 where
  pub delivered : ℕ
  pub retry_scheduled : ℕ
  pub dead_lettered : ℕ

pub data DeliverError : Type 0 where
  retry_time_overflow : DeliverError
  outbox_failed : OutboxError → DeliverError

abbrev pub lease_seconds : ℕ
lease_seconds = 60

abbrev pub or_max : Option ℕ → ℕ
or_max none = u64_bound - 1
or_max (some n) = n

abbrev pub checked_mul : ℕ → ℕ → ℕ → Option ℕ
checked_mul bound a b = if ltb (a * b) bound then some (a * b) else none

unfoldable pub retry_delay_seconds : ℕ → ℕ → ℕ → ℕ
retry_delay_seconds attempts base_seconds max_seconds =
    let shift = min (saturating_sub attempts 1) 63 in
    min (or_max (checked_mul u64_bound base_seconds (2 ^ shift))) max_seconds

abbrev pub of_outbox {ℓ} : {A : Type ℓ} → Result OutboxError A → Result DeliverError A
of_outbox (ok a) = ok a
of_outbox (err e) = err (outbox_failed e)

abbrev pub stored_error : Text → Text
stored_error error =
    if leb (len error) 1024
    then error
    else text "webhook delivery failed; details exceeded storage limit"

unfoldable pub record_delivery_failure :
    Outbox
    → ClaimedLedgerEvent
    → Text
    → Text
    → ℕ
    → DeliveryPolicy
    → Result DeliverError (DeliveryFailureOutcome × Outbox)
record_delivery_failure outbox claim owner error now policy = do
  let delay = retry_delay_seconds claim.attempts policy.retry_base_seconds policy.retry_max_seconds
  next_attempt_at ← ok_or (checked_add u64_bound now delay) retry_time_overflow
  of_outbox (
      fail_claim outbox claim.event.id owner (stored_error error) now next_attempt_at
        policy.max_attempts)

-- The body of the request, as the receiver decodes it.
abbrev pub body_of : LedgerEvent → DeliveryEnvelope
body_of event = record {
  schema_version = 1;
  event = record {
    id = pos event.id;
    key = event.event_key;
    kind = event.kind;
    tx_id = event.tx_id;
    output_index = event.output_index;
    amount_sompi = event.amount_sompi;
    address = event.address;
  };
}

-- What the sender sees.
pub data Answer : Type 0 where
  success : Answer
  failed : (error : Text) → Answer

-- The answer of `receive` and its inbox.
abbrev pub answer_of : Inbox → Result ReceiverError (InboxOutcome × Inbox) → Answer × Inbox
answer_of inbox (ok (accepted, inbox')) = (success, inbox')
answer_of inbox (ok (duplicate, inbox')) = (success, inbox')
answer_of inbox (ok (conflict, inbox')) =
    (failed (text "webhook returned HTTP 409 Conflict"), inbox')
answer_of inbox (err e) = (failed (text "webhook returned HTTP 400 Bad Request"), inbox)

unfoldable pub receive : Inbox → LedgerEvent → ℕ → Answer × Inbox
receive inbox event received_at =
    answer_of inbox (accept inbox event.event_key (body_of event) received_at)

-- A round of the loop, with what the network does in it.
pub data Fate : Type 0 where
  request_lost response_lost : (error : Text) → Fate
  answered : Fate

pub record Round : Type 0 where
  pub now : ℕ
  pub received_at : ℕ
  pub fate : Fate

abbrev pub through : Fate → Inbox → Answer × Inbox → Answer × Inbox
through (request_lost error) inbox (answer, inbox') = (failed error, inbox)
through (response_lost error) inbox (answer, inbox') = (failed error, inbox')
through answered inbox (answer, inbox') = (answer, inbox')

unfoldable pub send : Round → Inbox → LedgerEvent → Answer × Inbox
send round inbox event = through round.fate inbox (receive inbox event round.received_at)

abbrev pub reported : DeliveryFailureOutcome → DeliveryReport → DeliveryReport
reported (retry_scheduled attempts at) report = record report {
  retry_scheduled = report.retry_scheduled + 1;
}
reported (dead_letter attempts) report = record report { dead_lettered = report.dead_lettered + 1 }

-- What the loop does with the answer.
unfoldable pub settle :
    DeliveryPolicy
    → Text
    → ℕ
    → DeliveryReport
    → Outbox
    → ClaimedLedgerEvent
    → Answer
    → Result DeliverError (DeliveryReport × Outbox)
settle policy owner now report outbox claim success = do
  outbox' ← of_outbox (acknowledge_claim outbox claim.event.id owner)
  ok (record report { delivered = report.delivered + 1 }, outbox')
settle policy owner now report outbox claim (failed error) = do
  outcome ← record_delivery_failure outbox claim owner error now policy
  ok (reported outcome.0 report, outcome.1)

abbrev pub Delivered : Type 0
Delivered = Result DeliverError DeliveryReport × (Outbox × Inbox)

-- The `while` loop, a round for every event up to its limit.
unfoldable pub deliver :
    DeliveryPolicy → Text → DeliveryReport → Outbox → Inbox → List Round → Delivered
deliver policy owner report outbox inbox [] = (ok report, (outbox, inbox))
deliver policy owner report outbox inbox (round ∷ rounds) =
    let (claimed, outbox') = claim_next_delivery outbox owner round.now lease_seconds in
    elim claimed [
      | err e ↦ (err (outbox_failed e), (outbox', inbox))
      | ok none ↦ (ok report, (outbox', inbox))
      | ok (some claim) ↦
          let (answer, inbox') = send round inbox claim.event in
          elim (settle policy owner round.now report outbox' claim answer) [
            | err e ↦ (err e, (outbox', inbox'))
            | ok (report', outbox'') ↦ deliver policy owner report' outbox'' inbox' rounds
          ]
    ]
