-- ===== src/Outbox.antt =====
-- src/deposit_ledger.rs: the outbox of the deposit ledger, whose events a worker claims under a lease,
-- delivers, and acknowledges, releases or fails. The table `deposit_outbox` is a map by its primary key; an
-- `UPDATE ... WHERE` that has to change one row fails where the row is missing or the condition does not
-- hold. A call that fails after its commit keeps the new table, so the table is returned with the
-- error too.
pub mod Leases
pub mod Writes
mod Tests
use mathlib.Core.Option
use Prim.Native.Nat.{bit_xor, pred}
use kaspa_frontier_engine.Base.{
  ℕ, zero, suc, ◌+◌, ◌-◌, ◌*◌, ◌/◌, ◌%◌, ◌^◌, ◌≤◌, ◌<◌, max, min, ◌≡◌, refl, sym, ap, subst, ◌∙◌,
  ◌≢◌, ◌↔◌, ◌⊎◌, inl, inr, Bool, true, false, not, ◌&&◌, ◌||◌, Option, none, some, List, [], ◌∷◌,
  ◌++◌, map, arith, ltb, leb, nat_beq, if◌then◌else◌, nat_beq_iff, Bool-cases, Option-cases,
  is_some, saturating_sub, checked_add, u64_bound, u128_bound, i64_bound, Result, ok, err, ◌>>=◌,
  ◌>>◌, fail_if, ok_or, to_i64, is_ok, Result-cases,
}
use kaspa_frontier_engine.Base.Lists.{
  length, all, any, any-append, retain, All, All-append, All-retain, All-imp, length-append, IsOnce,
}
use kaspa_frontier_engine.Base.Eq.{Eq, ◌==◌, nat_eq}
use kaspa_frontier_engine.Base.Text.{
  Text, text, text_beq_iff, text_eq, is_empty, is_ascii_digit, is_ascii_lowercase,
  is_ascii_uppercase, is_ascii_alphanumeric, is_ascii_hexdigit, lower, is_whitespace,
}
use kaspa_frontier_engine.Base.Text.{
  text_beq, len, to_ascii_lowercase, trim_start, trim, starts_with,
}
use kaspa_frontier_engine.Base.Map.{
  Map, Set, AllEntries, AllEntries-lookup, AllEntries-insert, AllEntries-update, AllEntries-erase,
  AllEntries-imp, AllEntries-contains, contains, lookup-empty, lookup-insert, lookup-erase,
  lookup-update, map_laws,
}
use kaspa_frontier_engine.Base.Map.{lookup, insert, erase, update}

-- A row that the ledger inserted decodes, so decoding fails only on the count of attempts.
pub record OutboxRow : Type 0 where
  pub event_key : Text
  pub kind : Text
  pub tx_id : Text
  pub output_index : ℕ
  pub amount_sompi : ℕ
  pub address : Text
  pub acknowledged : Bool
  pub dead_lettered : Bool
  pub dead_lettered_at : Option ℕ
  pub attempts : ℕ
  pub next_attempt_at : ℕ
  pub lease_owner : Option Text
  pub lease_until : Option ℕ
  pub last_error : Option Text

-- The table `deposit_outbox`.
abbrev pub Outbox : Type 0
Outbox = Map ℕ OutboxRow

pub data OutboxError : Type 0 where
  bad_owner bad_delivery_error bad_lease bad_max_attempts retry_not_later : OutboxError
  exceeds_integer_range lease_overflow raced invalid_attempts : OutboxError
  not_owned not_open not_dead : ℕ → OutboxError

pub record LedgerEvent : Type 0 where
  pub id : ℕ
  pub event_key : Text
  pub kind : Text
  pub tx_id : Text
  pub output_index : ℕ
  pub amount_sompi : ℕ
  pub address : Text

pub record ClaimedLedgerEvent : Type 0 where
  pub event : LedgerEvent
  pub attempts : ℕ

pub data DeliveryFailureOutcome : Type 0 where
  retry_scheduled : ℕ → ℕ → DeliveryFailureOutcome
  dead_letter : ℕ → DeliveryFailureOutcome

abbrev pub Done : Type 0
Done = Result OutboxError Outbox

unfoldable pub validate_owner : Text → Result OutboxError (Unit {0})
validate_owner owner = fail_if (is_empty (trim owner) || ltb 128 (len owner)) bad_owner

unfoldable pub validate_delivery_error : Text → Result OutboxError (Unit {0})
validate_delivery_error error =
    fail_if (is_empty (trim error) || ltb 1024 (len (trim error))) bad_delivery_error

unfoldable pub validate_lease : Text → ℕ → Result OutboxError (Unit {0})
validate_lease owner lease_seconds = do
  validate_owner owner
  fail_if (nat_beq lease_seconds 0 || ltb 3600 lease_seconds) bad_lease

abbrev pub owned_by : Text → Option Text → Bool
owned_by owner none = false
owned_by owner (some o) = o == owner

-- `UPDATE ... WHERE id=? AND test`, with the error for a count of changed rows other than one.
unfoldable pub update_where :
    Outbox → ℕ → (OutboxRow → Bool) → (OutboxRow → OutboxRow) → OutboxError → Done
update_where outbox id test change error = do
  row ← ok_or (lookup id outbox) error
  fail_if (not (test row)) error
  ok (update id change outbox)

abbrev pub acknowledged_row : OutboxRow → OutboxRow
acknowledged_row row = record row {
  acknowledged = true;
  lease_owner = none;
  lease_until = none;
  last_error = none;
}

unfoldable pub acknowledge_event : Outbox → ℕ → Done
acknowledge_event outbox id =
    update_where outbox id (λ row. not row.acknowledged && not (is_some row.lease_owner))
      acknowledged_row (not_open id)

abbrev pub lease_expired : ℕ → Option ℕ → Bool
lease_expired now none = true
lease_expired now (some until) = leb until now

-- The condition of a claim.
abbrev pub claimable : ℕ → OutboxRow → Bool
claimable now row =
    not row.acknowledged
    && not row.dead_lettered
    && leb row.next_attempt_at now
    && lease_expired now row.lease_until

-- `ORDER BY next_attempt_at, id LIMIT 1`, among the claimable rows.
abbrev pub earlier : ℕ × ℕ → ℕ × ℕ → Bool
earlier (at, id) (at', id') = ltb at at' || (nat_beq at at' && ltb id id')

abbrev pub first_of : ℕ × ℕ → Option (ℕ × ℕ) → ℕ × ℕ
first_of c none = c
first_of c (some d) = if earlier c d then c else d

unfoldable pub select_claim : ℕ → Outbox → Option (ℕ × ℕ)
select_claim now [] = none
select_claim now ((id, row) ∷ outbox) =
    let rest = select_claim now outbox in
    if claimable now row then some (first_of (row.next_attempt_at, id) rest) else rest

abbrev pub leased : Text → ℕ → OutboxRow → OutboxRow
leased owner until row = record row {
  lease_owner = some owner;
  lease_until = some until;
  attempts = row.attempts + 1;
}

abbrev pub event_of : ℕ → OutboxRow → LedgerEvent
event_of id row = record {
  id = id;
  event_key = row.event_key;
  kind = row.kind;
  tx_id = row.tx_id;
  output_index = row.output_index;
  amount_sompi = row.amount_sompi;
  address = row.address;
}

-- The row of the claim is read back after the write.
abbrev pub read_claim : ℕ → Option OutboxRow → Result OutboxError (Option ClaimedLedgerEvent)
read_claim id none = err raced
read_claim id (some row) =
    if ltb row.attempts (2 ^ 32)
    then ok (some (record { event = event_of id row; attempts = row.attempts }))
    else err invalid_attempts

abbrev pub Claim : Type 0
Claim = Result OutboxError (Option ClaimedLedgerEvent) × Outbox

-- The write of a claim, which commits before the row is decoded.
abbrev pub commit_claim : Outbox → ℕ → Done → Claim
commit_claim outbox id (err e) = (err e, outbox)
commit_claim outbox id (ok outbox') = (read_claim id (lookup id outbox'), outbox')

-- The transaction of a claim, on the row that it has selected.
unfoldable pub claim_selected : Outbox → Text → ℕ → ℕ → Option (ℕ × ℕ) → Claim
claim_selected outbox owner now until none = (ok none, outbox)
claim_selected outbox owner now until (some (at, id)) =
    commit_claim outbox id (update_where outbox id (claimable now) (leased owner until) raced)

-- The tests before the transaction: the time of the call and of the lease's end.
unfoldable pub lease_times : Text → ℕ → ℕ → Result OutboxError (ℕ × ℕ)
lease_times owner now_epoch_seconds lease_seconds = do
  validate_lease owner lease_seconds
  now ← to_i64 now_epoch_seconds exceeds_integer_range
  sum ← ok_or (checked_add u64_bound now_epoch_seconds lease_seconds) lease_overflow
  until ← to_i64 sum exceeds_integer_range
  ok (now, until)

abbrev pub claim_at : Outbox → Text → Result OutboxError (ℕ × ℕ) → Claim
claim_at outbox owner (err e) = (err e, outbox)
claim_at outbox owner (ok (now, until)) =
    claim_selected outbox owner now until (select_claim now outbox)

unfoldable pub claim_next_delivery : Outbox → Text → ℕ → ℕ → Claim
claim_next_delivery outbox owner now_epoch_seconds lease_seconds =
    claim_at outbox owner (lease_times owner now_epoch_seconds lease_seconds)

-- The condition of the calls on a claim.
abbrev pub held_by : Text → OutboxRow → Bool
held_by owner row = not row.acknowledged && owned_by owner row.lease_owner

unfoldable pub acknowledge_claim : Outbox → ℕ → Text → Done
acknowledge_claim outbox id owner = do
  validate_owner owner
  update_where outbox id (held_by owner) acknowledged_row (not_owned id)

unfoldable pub release_claim : Outbox → ℕ → Text → Text → Done
release_claim outbox id owner error = do
  validate_owner owner
  validate_delivery_error error
  update_where outbox id (held_by owner)
      (λ row. record row { lease_owner = none; lease_until = none; last_error = some (trim error) })
      (not_owned id)

-- The outcome of a failure, and its write.
unfoldable pub failure : Text → ℕ → ℕ → ℕ → ℕ → DeliveryFailureOutcome × (OutboxRow → OutboxRow)
failure error now next_attempt_at max_attempts attempts =
    if leb max_attempts attempts
    then (
      dead_letter attempts,
      λ row. record row {
        lease_owner = none;
        lease_until = none;
        last_error = some (trim error);
        next_attempt_at = 0;
        dead_lettered = true;
        dead_lettered_at = some now;
      },
    )
    else (
      retry_scheduled attempts next_attempt_at,
      λ row. record row {
        lease_owner = none;
        lease_until = none;
        last_error = some (trim error);
        next_attempt_at = next_attempt_at;
      },
    )

unfoldable pub fail_claim :
    Outbox → ℕ → Text → Text → ℕ → ℕ → ℕ → Result OutboxError (DeliveryFailureOutcome × Outbox)
fail_claim outbox id owner error now_epoch_seconds next_attempt_at max_attempts = do
  validate_owner owner
  validate_delivery_error error
  fail_if (nat_beq max_attempts 0 || ltb 100 max_attempts) bad_max_attempts
  fail_if (leb next_attempt_at now_epoch_seconds) retry_not_later
  now ← to_i64 now_epoch_seconds exceeds_integer_range
  next ← to_i64 next_attempt_at exceeds_integer_range
  row ← ok_or (lookup id outbox) (not_owned id)
  fail_if (not (held_by owner row)) (not_owned id)
  fail_if (leb (2 ^ 32) row.attempts) invalid_attempts
  let (outcome, change) = failure error now next max_attempts row.attempts
  ok (outcome, update id change outbox)

unfoldable pub requeue_dead_letter : Outbox → ℕ → ℕ → Done
requeue_dead_letter outbox id now_epoch_seconds = do
  now ← to_i64 now_epoch_seconds exceeds_integer_range
  update_where outbox id (λ row. not row.acknowledged && row.dead_lettered)
      (λ row. record row {
        dead_lettered = false;
        dead_lettered_at = none;
        attempts = 0;
        next_attempt_at = now;
        last_error = none;
        lease_owner = none;
        lease_until = none;
      })
      (not_dead id)
