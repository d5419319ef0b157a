-- ===== src/Receiver/Tests.antt =====
-- Runs of the inbox on the delivery of its unit tests, and the theorems at concrete inputs.
use kaspa_frontier_engine.Base.{ℕ, ◌≡◌, refl, ◌≢◌, ◌⊎◌, some, [], ◌∷◌, ◌++◌, arith, ok, err}
use kaspa_frontier_engine.Base.Eq.{nat_eq}
use kaspa_frontier_engine.Base.Text.{Text, text, text_eq}
use kaspa_frontier_engine.Base.Text.{text_beq, len}
use kaspa_frontier_engine.Base.Map.{lookup, insert}
use kaspa_frontier_engine.Base.Integers.{pos}
use kaspa_frontier_engine.Network.{is_valid_testnet_address}
use kaspa_frontier_engine.EventKey.{event_key}
use kaspa_frontier_engine.Receiver.{
  DeliveryEnvelope, accepted, conflict, ReceiverError, InboxRow, Inbox, validate_delivery,
  same_facts, row_of, accept_at, accept,
}
use kaspa_frontier_engine.EventKey.{digits}
use kaspa_frontier_engine.Receiver.Invariant.{IsSound, accept-IsSound}
use kaspa_frontier_engine.Receiver.Once.{
  nothing, takes, passes_over, Keeps, Deliveries-Keeps, conflict-facts,
}

abbrev tx_id : Text
tx_id = text "aaaaaaaaaaaaaaaaaaaaaaaaaaaaaaaaaaaaaaaaaaaaaaaaaaaaaaaaaaaaaaaa"

abbrev key : Text
key = text "credit:" ++ tx_id ++ text ":0"

abbrev delivery : ℕ → DeliveryEnvelope
delivery amount = record {
  schema_version = 1;
  event = record {
    id = pos 1;
    key = key;
    kind = text "credit";
    tx_id = tx_id;
    output_index = 0;
    amount_sompi = amount;
    address = text "kaspatest:qptv6u8kel95drh2p2z492cyksk8lpetep286fngqu5j9nk57g642lzf748kt";
  };
}

abbrev inbox : Inbox
inbox = (key, row_of (delivery 10) 10 7) ∷ []

-- Everything that a run computes with.
everything : ℕ
unfolding accept validate_delivery accept_at same_facts lookup insert text_beq len event_key digits
    is_valid_testnet_address
everything = 0

accept_run : accept [] key (delivery 10) 7 ≡ ok (accepted, inbox)
unfolding everything
accept_run = refl

conflict_run : accept inbox key (delivery 11) 8 ≡ ok (conflict, inbox)
unfolding everything
conflict_run = refl

wrong_header : accept inbox (text "x") (delivery 10) 8 ≡ err ReceiverError.header_mismatch
unfolding everything
wrong_header = refl

inbox-IsSound : IsSound inbox
inbox-IsSound = accept-IsSound [] key (delivery 10) 7 accepted inbox tt accept_run

Deliveries-Keeps_example : Keeps [] (key ∷ []) inbox
Deliveries-Keeps_example = Deliveries-Keeps (
    passes_over key (delivery 11) 8 conflict (takes key (delivery 10) 7 nothing accept_run)
      conflict_run (λ same. ground (arith, same)))

conflict-facts_example :
    (row : InboxRow) × (lookup key inbox ≡ some row)
    × (row.kind ≡ text "credit")
    × (row.tx_id ≡ tx_id)
    × (row.output_index ≡ 0)
    × ((row.amount_sompi ≢ 11) ⊎ (row.address ≢ (delivery 11).event.address))
conflict-facts_example =
    conflict-facts inbox key (delivery 11) 8 inbox inbox-IsSound (omega arith, tt) (omega arith)
      conflict_run
