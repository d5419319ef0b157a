-- ===== src/Deposits/Rows.antt =====
-- What a call that succeeds has done: to the row that it found, and to the events of each outpoint.
use kaspa_frontier_engine.Base.{
  ℕ, ◌^◌, ◌<◌, ◌≡◌, refl, ◌⊎◌, inl, inr, true, Option, none, some, arith, if◌then◌else◌,
  Option-cases, ok,
}
use kaspa_frontier_engine.Base.Eq.{◌==◌, nat_eq}
use kaspa_frontier_engine.Base.Text.{Text, text, text_eq}
use kaspa_frontier_engine.Base.Text.{text_beq, trim}
use kaspa_frontier_engine.Base.Map.{contains}
use kaspa_frontier_engine.Base.Map.{lookup, insert, update}
use kaspa_frontier_engine.Outpoint.{Outpoint, outpoint_eq}
use kaspa_frontier_engine.Exchange.{UtxoAppearance, ConfirmedDeposit}
use kaspa_frontier_engine.EventKey.{event_key}
use kaspa_frontier_engine.Outbox.{Outbox}
use kaspa_frontier_engine.Deposits.{
  DepositState, pending, credited, reversed, DepositRow, DepositLedger, insert_outbox, same_facts,
  first_row, seen_again, appearance_key, observe_at, observe_one, deposit_key, credit_at,
  confirm_at, confirm_one, reverse_at, reverse_found, reverse_credited_on_reorg,
}
use kaspa_frontier_engine.Deposits.Sent.{Facts, sent, sent-insert_outbox, key-beq}

abbrev pub facts : DepositRow → Facts
facts row = (row.amount_sompi, row.address)

-- The events of an outpoint.
unfoldable pub credit_of : Outpoint → Outbox → Option Facts
credit_of key outbox = sent (event_key (text "credit") key.tx_id key.output_index) outbox

unfoldable pub reverse_of : Outpoint → Outbox → Option Facts
reverse_of key outbox = sent (event_key (text "reverse") key.tx_id key.output_index) outbox

-- An event is sent unless it was.
abbrev pub sent_once : Option Facts → Facts → Option Facts
sent_once none new = some new
sent_once (some old) new = some old

module _ (j key : Outpoint) (hj : j.output_index < 2 ^ 32) (hk : key.output_index < 2 ^ 32)
    (amount : ℕ) (address : Text) (outbox : Outbox) where
  pub credit_of-credit :
      credit_of j (insert_outbox (text "credit") key amount address outbox)
      ≡ (if j == key then sent_once (credit_of j outbox) (amount, address) else credit_of j outbox)
  unfolding credit_of text_beq
  credit_of-credit = ground (
    arith,
    sent-insert_outbox (event_key (text "credit") j.tx_id j.output_index) (text "credit") key amount
        address outbox,
    key-beq (text "credit") (text "credit") key j refl refl hk hj,
  )

  pub reverse_of-credit :
      reverse_of j (insert_outbox (text "credit") key amount address outbox) ≡ reverse_of j outbox
  unfolding reverse_of text_beq
  reverse_of-credit = ground (
    arith,
    sent-insert_outbox (event_key (text "reverse") j.tx_id j.output_index) (text "credit") key
        amount address outbox,
    key-beq (text "credit") (text "reverse") key j refl refl hk hj,
  )

  pub credit_of-reverse :
      credit_of j (insert_outbox (text "reverse") key amount address outbox) ≡ credit_of j outbox
  unfolding credit_of text_beq
  credit_of-reverse = ground (
    arith,
    sent-insert_outbox (event_key (text "credit") j.tx_id j.output_index) (text "reverse") key
        amount address outbox,
    key-beq (text "reverse") (text "credit") key j refl refl hk hj,
  )

  pub reverse_of-reverse :
      reverse_of j (insert_outbox (text "reverse") key amount address outbox) ≡ (
        if j == key then sent_once (reverse_of j outbox) (amount, address) else reverse_of j outbox)
  unfolding reverse_of text_beq
  reverse_of-reverse = ground (
    arith,
    sent-insert_outbox (event_key (text "reverse") j.tx_id j.output_index) (text "reverse") key
        amount address outbox,
    key-beq (text "reverse") (text "reverse") key j refl refl hk hj,
  )

-- An observation either sees a row again, with the same facts, or adds one.
pub observe_one-ok :
    (daa : ℕ) (ledger : DepositLedger) (item : UtxoAppearance) (ledger' : DepositLedger)
    → observe_one daa ledger item ≡ ok ledger'
    → ((row : DepositRow) × (lookup (appearance_key item) ledger.deposits ≡ some row)
        × (same_facts row item.address item.amount_sompi item.block_daa_score item.is_coinbase
            ≡ true)
        × (ledger' ≡ record ledger {
          deposits = update (appearance_key item) (seen_again daa) ledger.deposits;
        }))
      ⊎ ((lookup (appearance_key item) ledger.deposits ≡ none)
          × (ledger' ≡ record ledger {
            deposits =
                insert
                  (appearance_key item)
                  (first_row daa (contains (appearance_key item) ledger.legacy_credits) item)
                  ledger.deposits;
          }))
unfolding observe_one observe_at
observe_one-ok daa ledger item ledger' h =
    elim (Option-cases (lookup (appearance_key item) ledger.deposits)) [
      | inl missing ↦ inr (missing, ground (arith, missing))
      | inr (row, found) ↦ inl (row, found, ground (arith, found), ground (arith, found))
    ]

pub confirm_one-ok :
    (daa : ℕ) (ledger : DepositLedger) (item : ConfirmedDeposit) (ledger' : DepositLedger)
    → confirm_one daa ledger item ≡ ok ledger'
    → (row : DepositRow) × (lookup (deposit_key item) ledger.deposits ≡ some row)
      × (same_facts row item.address item.amount_sompi item.block_daa_score item.is_coinbase ≡ true)
      × (ledger' ≡ credit_at daa ledger (deposit_key item) row)
unfolding confirm_one confirm_at same_facts
confirm_one-ok daa ledger item ledger' h =
    elim (Option-cases (lookup (deposit_key item) ledger.deposits)) [
      | inl missing ↦ absurd (ground arith)
      | inr (row, found) ↦ (row, found, ground arith, ground arith)
    ]

reverse_found-ok :
    (daa : ℕ) (evidence : Text) (ledger : DepositLedger) (key : Outpoint) (row : DepositRow)
    (state : DepositState) (ledger' : DepositLedger)
    → reverse_found daa evidence ledger key row state ≡ ok ledger'
    → ((state ≡ reversed) × (ledger' ≡ ledger))
      ⊎ ((state ≡ credited) × (ledger' ≡ reverse_at daa evidence ledger key row))
unfolding reverse_found
reverse_found-ok daa evidence ledger key row reversed ledger' h = inl (refl, ground arith)
reverse_found-ok daa evidence ledger key row credited ledger' h = inr (refl, ground arith)
reverse_found-ok daa evidence ledger key row pending ledger' h = absurd (ground arith)

pub reverse_credited_on_reorg-ok :
    (ledger : DepositLedger) (daa : ℕ) (key : Outpoint) (evidence : Text) (ledger' : DepositLedger)
    → reverse_credited_on_reorg ledger daa key evidence ≡ ok ledger'
    → (row : DepositRow) × (lookup key ledger.deposits ≡ some row)
      × (((row.state ≡ reversed) × (ledger' ≡ ledger))
          ⊎ ((row.state ≡ credited) × (ledger' ≡ reverse_at daa (trim evidence) ledger key row)))
unfolding reverse_credited_on_reorg
reverse_credited_on_reorg-ok ledger daa key evidence ledger' h =
    elim (Option-cases (lookup key ledger.deposits)) [
      | inl missing ↦ absurd (ground arith)
      | inr (row, found) ↦
          let done : reverse_found daa (trim evidence) ledger key row row.state ≡ ok ledger' =
            ground (arith, found) in
          (row, found, reverse_found-ok daa (trim evidence) ledger key row row.state ledger' done)
    ]
