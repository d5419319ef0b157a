-- ===== src/Receiver.antt =====
-- src/outbox_receiver.rs: the inbox that takes each webhook delivery once. The table `receiver_inbox` is
-- a map by its primary key `event_key`. `accept` runs in one immediate transaction: an error leaves the
-- table as it was, and a result carries the new table. Decoding the rows of a table that somebody else
-- has written, and `open` with its schema checks, are not modelled.
pub mod Invariant
pub mod Once
mod Tests
use mathlib.Core.Option
use Prim.Native.Nat.{bit_xor, pred}
use kaspa_frontier_engine.Base.{
  ℕ, zero, suc, ◌+◌, ◌-◌, ◌*◌, ◌/◌, ◌%◌, ◌^◌, ◌≤◌, ◌<◌, max, min, ◌≡◌, refl, sym, ap, subst, ◌∙◌,
  ◌≢◌, ◌↔◌, ◌⊎◌, inl, inr, Bool, true, false, not, ◌&&◌, ◌||◌, Option, none, some, List, [], ◌∷◌,
  ◌++◌, map, arith, ltb, leb, nat_beq, if◌then◌else◌, nat_beq_iff, Bool-cases, Option-cases,
  is_some, saturating_sub, checked_add, u64_bound, u128_bound, i64_bound, Result, ok, err, ◌>>=◌,
  ◌>>◌, fail_if, ok_or, to_i64, is_ok, Result-cases,
}
use kaspa_frontier_engine.Base.Lists.{
  length, all, any, any-append, retain, All, All-append, All-retain, All-imp, length-append,
}
use kaspa_frontier_engine.Base.Eq.{Eq, ◌==◌, nat_eq}
use kaspa_frontier_engine.Base.Text.{
  Text, text, text_beq_iff, text_eq, is_empty, is_ascii_digit, is_ascii_lowercase,
  is_ascii_uppercase, is_ascii_alphanumeric, is_ascii_hexdigit, lower, is_whitespace,
}
use kaspa_frontier_engine.Base.Text.{
  text_beq, len, to_ascii_lowercase, trim_start, trim, starts_with,
}
use kaspa_frontier_engine.Base.Map.{
  Map, Set, AllEntries, AllEntries-lookup, AllEntries-insert, AllEntries-update, AllEntries-erase,
  AllEntries-imp, AllEntries-contains, contains, lookup-empty, lookup-insert, lookup-erase,
  lookup-update, map_laws,
}
use kaspa_frontier_engine.Base.Map.{lookup, insert, erase, update}
use kaspa_frontier_engine.Base.Integers.{ℤ, pos, negsuc, is_positive}
use kaspa_frontier_engine.Network.{is_valid_testnet_address}
use kaspa_frontier_engine.EventKey.{event_key, is_kind, is_tx_id}

pub record IncomingLedgerEvent : Type 0 where
  pub id : ℤ
  pub key : Text
  pub kind : Text
  pub tx_id : Text
  pub output_index : ℕ
  pub amount_sompi : ℕ
  pub address : Text

pub record DeliveryEnvelope : Type 0 where
  pub schema_version : ℕ
  pub event : IncomingLedgerEvent

pub data InboxOutcome : Type 0 where
  accepted duplicate conflict : InboxOutcome

pub data ReceiverError : Type 0 where
  unsupported_schema : ℕ → ReceiverError
  id_not_positive bad_kind bad_txid zero_amount key_mismatch header_mismatch : ReceiverError
  exceeds_integer_range : ReceiverError
  not_testnet_address : Text → ReceiverError

pub record InboxRow : Type 0 where
  pub schema_version : ℕ
  pub kind : Text
  pub tx_id : Text
  pub output_index : ℕ
  pub amount_sompi : ℕ
  pub address : Text
  pub sender_event_id : ℤ
  pub received_at : ℕ

-- The table `receiver_inbox`.
abbrev pub Inbox : Type 0
Inbox = Map Text InboxRow

unfoldable pub validate_delivery : Text → DeliveryEnvelope → Result ReceiverError (Unit {0})
validate_delivery idempotency_key delivery = do
  fail_if (not (nat_beq delivery.schema_version 1)) (unsupported_schema delivery.schema_version)
  let event = delivery.event
  fail_if (not (is_positive event.id)) id_not_positive
  fail_if (not (is_kind event.kind)) bad_kind
  fail_if (not (is_tx_id event.tx_id)) bad_txid
  fail_if (nat_beq event.amount_sompi 0) zero_amount
  fail_if (not (is_valid_testnet_address event.address)) (not_testnet_address event.address)
  fail_if (not (event.key == event_key event.kind event.tx_id event.output_index)) key_mismatch
  fail_if (not (idempotency_key == event.key)) header_mismatch

-- The row that is there carries the facts of the delivery.
unfoldable pub same_facts : InboxRow → DeliveryEnvelope → ℕ → Bool
same_facts existing delivery amount =
    nat_beq existing.schema_version delivery.schema_version
    && existing.kind == delivery.event.kind
    && existing.tx_id == delivery.event.tx_id
    && nat_beq existing.output_index delivery.event.output_index
    && nat_beq existing.amount_sompi amount
    && existing.address == delivery.event.address

abbrev pub row_of : DeliveryEnvelope → ℕ → ℕ → InboxRow
row_of delivery amount received_at = record {
  schema_version = delivery.schema_version;
  kind = delivery.event.kind;
  tx_id = delivery.event.tx_id;
  output_index = delivery.event.output_index;
  amount_sompi = amount;
  address = delivery.event.address;
  sender_event_id = delivery.event.id;
  received_at = received_at;
}

-- What the transaction does with the row that it has found.
unfoldable pub accept_at : Inbox → DeliveryEnvelope → ℕ → ℕ → Option InboxRow → InboxOutcome × Inbox
accept_at inbox delivery amount received_at (some existing) =
    (if same_facts existing delivery amount then duplicate else conflict, inbox)
accept_at inbox delivery amount received_at none =
    (accepted, insert delivery.event.key (row_of delivery amount received_at) inbox)

unfoldable pub accept :
    Inbox → Text → DeliveryEnvelope → ℕ → Result ReceiverError (InboxOutcome × Inbox)
accept inbox idempotency_key delivery received_at = do
  validate_delivery idempotency_key delivery
  received ← to_i64 received_at exceeds_integer_range
  amount ← to_i64 delivery.event.amount_sompi exceeds_integer_range
  ok (accept_at inbox delivery amount received (lookup delivery.event.key inbox))

unfoldable pub count : Inbox → ℕ
count inbox = length inbox
