-- ===== src/Delivery/Tests.antt =====
-- An event whose first answer is lost: the second delivery is a duplicate, and is acknowledged.
use kaspa_frontier_engine.Base.{ℕ, ◌≤◌, min, ◌≡◌, refl, false, none, List, [], ◌∷◌, arith, ok}
use kaspa_frontier_engine.Base.Eq.{nat_eq}
use kaspa_frontier_engine.Base.Text.{Text, text, text_eq}
use kaspa_frontier_engine.Base.Text.{text_beq, len, trim_start, trim}
use kaspa_frontier_engine.Base.Map.{lookup, insert, update}
use kaspa_frontier_engine.Outbox.{
  OutboxRow, event_of, update_where, acknowledged_row, select_claim, claim_selected, lease_times,
  claim_next_delivery, acknowledge_claim, failure, fail_claim,
}
use kaspa_frontier_engine.Receiver.{Inbox, accept, accept_at, validate_delivery, same_facts, row_of}
use kaspa_frontier_engine.Delivery.{
  DeliveryPolicy, DeliveryReport, retry_delay_seconds, record_delivery_failure, body_of, receive,
  response_lost, answered, Round, send, settle, deliver,
}
use kaspa_frontier_engine.Outbox.{validate_owner, validate_lease, validate_delivery_error}
use kaspa_frontier_engine.Network.{is_valid_testnet_address}
use kaspa_frontier_engine.EventKey.{event_key, digits}
use kaspa_frontier_engine.Receiver.Once.{Keeps}
use kaspa_frontier_engine.Delivery.Recorded.{Recorded}
use kaspa_frontier_engine.Delivery.Lossless.{deliver-lossless, retry_delay-bounded}

abbrev tx_id : Text
tx_id = text "0123456789abcdef0123456789abcdef0123456789abcdef0123456789abcdef"

abbrev credit : OutboxRow
credit = record {
  event_key = event_key (text "credit") tx_id 0;
  kind = text "credit";
  tx_id = tx_id;
  output_index = 0;
  amount_sompi = 500;
  address = text "kaspatest:qptv6u8kel95drh2p2z492cyksk8lpetep286fngqu5j9nk57g642lzf748kt";
  acknowledged = false;
  dead_lettered = false;
  dead_lettered_at = none;
  attempts = 0;
  next_attempt_at = 0;
  lease_owner = none;
  lease_until = none;
  last_error = none;
}

abbrev policy : DeliveryPolicy
policy = record { max_attempts = 5; retry_base_seconds = 10; retry_max_seconds = 60 }

abbrev rounds : List Round
rounds =
    record { now = 100; received_at = 101; fate = response_lost (text "timeout") }
    ∷ record { now = 110; received_at = 111; fate = answered }
    ∷ []

abbrev no_report : DeliveryReport
no_report = record { delivered = 0; retry_scheduled = 0; dead_lettered = 0 }

abbrev done_row : OutboxRow
done_row = acknowledged_row (record credit { attempts = 2; next_attempt_at = 110 })

abbrev done_inbox : Inbox
done_inbox = (event_key (text "credit") tx_id 0, row_of (body_of (event_of 1 credit)) 500 101) ∷ []

-- Everything that a run computes with.
everything : ℕ
unfolding deliver claim_next_delivery claim_selected lease_times validate_owner validate_lease
    validate_delivery_error select_claim update_where acknowledge_claim fail_claim failure settle
    send receive record_delivery_failure retry_delay_seconds accept validate_delivery accept_at
    same_facts lookup insert update text_beq len trim trim_start event_key digits
    is_valid_testnet_address
everything = 0

deliver_run : deliver policy (text "w") no_report ((1, credit) ∷ []) [] rounds ≡ (
  ok (record { delivered = 1; retry_scheduled = 1; dead_lettered = 0 }),
  ((1, done_row) ∷ [], done_inbox),
)
unfolding everything
deliver_run = refl

deliver-lossless_example :
    Recorded ((1, done_row) ∷ []) done_inbox × ((keys : List Text) × Keeps [] keys done_inbox)
deliver-lossless_example =
    deliver-lossless policy (text "w") no_report ((1, credit) ∷ []) [] rounds
      (ok (record { delivered = 1; retry_scheduled = 1; dead_lettered = 0 })) ((1, done_row) ∷ [])
      done_inbox ((λ done. absurd (ground (arith, done))), tt) deliver_run

retry_delay-bounded_example :
    (retry_delay_seconds 3 10 60 ≤ 60)
    × (retry_delay_seconds 3 10 60 ≤ retry_delay_seconds 4 10 60)
    × (retry_delay_seconds 1 10 60 ≡ min 10 60)
retry_delay-bounded_example = retry_delay-bounded 3 10 60 (omega arith)
