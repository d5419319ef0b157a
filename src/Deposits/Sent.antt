-- ===== src/Deposits/Sent.antt =====
-- What the outbox says of an event, by its key, and what an insertion and a worker's writes do to it.
use kaspa_frontier_engine.Base.{
  ℕ, ◌+◌, ◌^◌, ◌<◌, max, ◌≡◌, refl, sym, ◌∙◌, inl, inr, true, not, ◌&&◌, Option, none, some, [],
  ◌∷◌, arith, if◌then◌else◌, Bool-cases, is_some,
}
use kaspa_frontier_engine.Base.Eq.{◌==◌, nat_eq}
use kaspa_frontier_engine.Base.Text.{Text, text_beq_iff, text_eq}
use kaspa_frontier_engine.Base.Text.{text_beq}
use kaspa_frontier_engine.Base.Map.{AllEntries, AllEntries-imp}
use kaspa_frontier_engine.Base.Map.{insert, update}
use kaspa_frontier_engine.Outpoint.{Outpoint, outpoint_eq, outpoint_beq, outpoint_beq_iff}
use kaspa_frontier_engine.EventKey.{event_key, is_kind, event_key_inj}
use kaspa_frontier_engine.Outbox.{OutboxRow, Outbox}
use kaspa_frontier_engine.Deposits.{next_id, find_event, new_event, insert_outbox}

abbrev pub Facts : Type 0
Facts = ℕ × Text

-- The amount and the address of the event with a key.
unfoldable pub sent : Text → Outbox → Option Facts
sent j [] = none
sent j ((id, row) ∷ outbox) =
    if row.event_key == j then some (row.amount_sompi, row.address) else sent j outbox

pub sent-find_event :
    (j : Text) (outbox : Outbox) → is_some (find_event j outbox) ≡ is_some (sent j outbox)
unfolding sent find_event
sent-find_event j [] = refl
sent-find_event j ((id, row) ∷ outbox) = ground (arith, sent-find_event j outbox)

-- No row has the next id.
pub below_next : (outbox : Outbox) → AllEntries (λ id row. id < next_id outbox) outbox
unfolding next_id
below_next [] = tt
below_next ((id, row) ∷ outbox) = (
  omega arith,
  AllEntries-imp (λ i r. i < next_id outbox) (λ i r. i < max (id + 1) (next_id outbox)) outbox
      (λ i r h. omega arith) (below_next outbox),
)

-- So an insertion under it is another row of the table.
sent-insert :
    (j : Text) (n : ℕ) (row : OutboxRow) (outbox : Outbox)
    → AllEntries (λ id r. id < n) outbox
    → sent j (insert n row outbox) ≡ (
        if is_some (sent j outbox)
        then sent j outbox
        else if row.event_key == j
        then some (row.amount_sompi, row.address)
        else none)
unfolding sent insert
sent-insert j n row [] below = ground arith
sent-insert j n row ((id, r) ∷ outbox) below =
    ground (arith, below.0, sent-insert j n row outbox below.1)

-- An insertion sends the event unless its key was there, and changes no other.
pub sent-insert_outbox :
    (j kind : Text) (key : Outpoint) (amount : ℕ) (address : Text) (outbox : Outbox)
    → sent j (insert_outbox kind key amount address outbox) ≡ (
        if text_beq (event_key kind key.tx_id key.output_index) j && not (is_some (sent j outbox))
        then some (amount, address)
        else sent j outbox)
unfolding insert_outbox
sent-insert_outbox j kind key amount address outbox =
    let k = event_key kind key.tx_id key.output_index in
    let row = new_event kind key amount address in
    ground (
      arith,
      sent-find_event k outbox,
      text_beq_iff k j,
      sent-insert j (next_id outbox) row outbox (below_next outbox),
    )

-- A write to one row that keeps what the event says.
pub sent-update :
    (j : Text) (id : ℕ) (change : OutboxRow → OutboxRow) (outbox : Outbox)
    → ((r : OutboxRow)
        → ((change r).event_key ≡ r.event_key)
          × ((change r).amount_sompi ≡ r.amount_sompi)
          × ((change r).address ≡ r.address))
    → sent j (update id change outbox) ≡ sent j outbox
unfolding sent update
sent-update j id change [] keeps = refl
sent-update j id change ((i, r) ∷ outbox) keeps =
    ground (arith, keeps r, sent-update j id change outbox keeps)

-- Two events have the same key where they have the same kind and outpoint.
pub key-beq :
    (kind kind' : Text) (a b : Outpoint)
    → is_kind kind ≡ true
    → is_kind kind' ≡ true
    → a.output_index < 2 ^ 32
    → b.output_index < 2 ^ 32
    → text_beq (event_key kind a.tx_id a.output_index) (event_key kind' b.tx_id b.output_index)
      ≡ (text_beq kind kind' && outpoint_beq b a)
key-beq kind kind' a b hk hk' ha hb =
    let same =
      text_beq_iff (event_key kind a.tx_id a.output_index)
        (event_key kind' b.tx_id b.output_index) in
    elim (Bool-cases (text_beq kind kind' && outpoint_beq b a)) [
      | inl eq ↦
          let kinds : kind ≡ kind' = (text_beq_iff kind kind').0 (ground arith) in
          let points : b ≡ a = (outpoint_beq_iff b a).0 (ground arith) in
          same.1 (cc (kinds, points)) ∙ sym eq
      | inr ne ↦
          elim (Bool-cases (
            text_beq (event_key kind a.tx_id a.output_index)
              (event_key kind' b.tx_id b.output_index))) [
                | inl eq ↦
                    let (kinds, txs, indexes) =
                      event_key_inj kind kind' a.tx_id b.tx_id a.output_index b.output_index hk hk'
                        ha hb (same.0 eq) in
                    let k = (text_beq_iff kind kind').1 kinds in
                    let p = (outpoint_beq_iff b a).1 (cc (txs, indexes)) in
                    absurd (ground (arith, k, p, ne))
                | inr ne' ↦ ne' ∙ sym ne
              ]
    ]
