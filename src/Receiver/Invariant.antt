-- ===== src/Receiver/Invariant.antt =====
-- What the rows of the inbox keep.
use kaspa_frontier_engine.Base.{
  ℕ, ◌≤◌, ◌<◌, ◌≡◌, inl, inr, true, arith, Option-cases, i64_bound, ok,
}
use kaspa_frontier_engine.Base.Eq.{nat_eq}
use kaspa_frontier_engine.Base.Text.{Text, text_beq_iff, text_eq}
use kaspa_frontier_engine.Base.Map.{AllEntries, AllEntries-insert}
use kaspa_frontier_engine.Base.Map.{lookup, insert}
use kaspa_frontier_engine.Network.{is_valid_testnet_address}
use kaspa_frontier_engine.EventKey.{event_key, is_kind, is_tx_id}
use kaspa_frontier_engine.Receiver.{
  DeliveryEnvelope, InboxOutcome, InboxRow, Inbox, validate_delivery, row_of, accept_at, accept,
}

-- A row's key is the one of its facts, which are those of a delivery that passed the checks.
pub record RowIsSound (key : Text) (row : InboxRow) : Type 0 where
  pub keyed : key ≡ event_key row.kind row.tx_id row.output_index
  pub kind_known : is_kind row.kind ≡ true
  pub hex : is_tx_id row.tx_id ≡ true
  pub positive : 1 ≤ row.amount_sompi
  pub storable : row.amount_sompi < i64_bound
  pub on_testnet : is_valid_testnet_address row.address ≡ true
  pub version : row.schema_version ≡ 1

abbrev pub IsSound : Inbox → Type 0
IsSound inbox = AllEntries RowIsSound inbox

-- What a delivery that was not refused has passed, and what was done with it.
pub record Passes (idempotency_key : Text) (delivery : DeliveryEnvelope) (received_at : ℕ)
    : Type 0 where
  pub row_sound :
      RowIsSound delivery.event.key (row_of delivery delivery.event.amount_sompi received_at)
  pub header : idempotency_key ≡ delivery.event.key

pub accept-ok :
    (inbox : Inbox) (header : Text) (delivery : DeliveryEnvelope) (at : ℕ) (outcome : InboxOutcome)
    (inbox' : Inbox)
    → accept inbox header delivery at ≡ ok (outcome, inbox')
    → Passes header delivery at
      × ((outcome, inbox')
          ≡ accept_at inbox delivery delivery.event.amount_sompi at
              (lookup delivery.event.key inbox))
unfolding accept validate_delivery
accept-ok inbox header delivery at outcome inbox' h = (
  record {
    row_sound = record {
      keyed =
          (text_beq_iff delivery.event.key
              (event_key delivery.event.kind delivery.event.tx_id delivery.event.output_index)).0
            (ground arith);
      kind_known = ground arith;
      hex = ground arith;
      positive = ground arith;
      storable = ground arith;
      on_testnet = ground arith;
      version = ground arith;
    };
    header = (text_beq_iff header delivery.event.key).0 (ground arith);
  },
  ground arith,
)

-- A delivery keeps the inbox sound.
pub accept-IsSound :
    (inbox : Inbox) (header : Text) (delivery : DeliveryEnvelope) (at : ℕ) (outcome : InboxOutcome)
    (inbox' : Inbox)
    → IsSound inbox
    → accept inbox header delivery at ≡ ok (outcome, inbox')
    → IsSound inbox'
unfolding accept_at
accept-IsSound inbox header delivery at outcome inbox' sound h =
    let (passes, done) = accept-ok inbox header delivery at outcome inbox' h in
    elim (Option-cases (lookup delivery.event.key inbox)) [
      | inl fresh ↦
          let grown : inbox'
              ≡ insert delivery.event.key (row_of delivery delivery.event.amount_sompi at) inbox =
            ground (arith, done, fresh) in
          rw grown (
            AllEntries-insert RowIsSound delivery.event.key
              (row_of delivery delivery.event.amount_sompi at) inbox sound passes.row_sound)
      | inr (row, found) ↦ let same : inbox' ≡ inbox = ground (arith, done, found) in rw same sound
    ]
