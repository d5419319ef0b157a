-- ===== src/Receiver/Once.antt =====
-- What a run of deliveries takes: each event once, whatever arrives again.
use kaspa_frontier_engine.Base.{
  ℕ, ◌+◌, ◌^◌, ◌<◌, ◌≡◌, sym, ap, ◌∙◌, ◌≢◌, ◌⊎◌, inl, inr, true, none, some, List, [], ◌∷◌, arith,
  nat_beq, Bool-cases, Option-cases, is_some, i64_bound, ok,
}
use kaspa_frontier_engine.Base.Lists.{length, All, All-imp, IsOnce}
use kaspa_frontier_engine.Base.Eq.{nat_eq}
use kaspa_frontier_engine.Base.Text.{Text, text_beq_iff, text_eq}
use kaspa_frontier_engine.Base.Map.{AllEntries, AllEntries-lookup, lookup-insert}
use kaspa_frontier_engine.Base.Map.{lookup, insert}
use kaspa_frontier_engine.Base.Integers.{ℤ, is_positive}
use kaspa_frontier_engine.EventKey.{event_key_inj}
use kaspa_frontier_engine.Receiver.{
  DeliveryEnvelope, InboxOutcome, accepted, duplicate, conflict, InboxRow, Inbox, validate_delivery,
  same_facts, row_of, accept_at, accept, count,
}
use kaspa_frontier_engine.Receiver.Invariant.{RowIsSound, IsSound, accept-ok}

-- A taken delivery can arrive again, under another id and at another time: it is a duplicate and
-- changes nothing.
pub accept_again :
    (inbox : Inbox) (header : Text) (delivery : DeliveryEnvelope) (at later : ℕ) (id : ℤ)
    (inbox' : Inbox)
    → accept inbox header delivery at ≡ ok (accepted, inbox')
    → is_positive id ≡ true
    → later < i64_bound
    → accept inbox' header (record delivery { event = record delivery.event { id = id } }) later
      ≡ ok (duplicate, inbox')
unfolding accept validate_delivery accept_at same_facts
accept_again inbox header delivery at later id inbox' h good fits =
    let key = delivery.event.key in
    let row = row_of delivery delivery.event.amount_sompi at in
    let (passes, done) = accept-ok inbox header delivery at accepted inbox' h in
    let fresh : inbox' ≡ insert key row inbox = ground (arith, done) in
    let found : lookup key inbox' ≡ some row =
      ground (arith, fresh, lookup-insert key key row inbox, text_beq_iff key key) in
    ground (
      arith,
      found,
      text_beq_iff delivery.event.kind delivery.event.kind,
      text_beq_iff delivery.event.tx_id delivery.event.tx_id,
      text_beq_iff delivery.event.address delivery.event.address,
    )

-- A run of deliveries that were not refused: the keys that it accepted, latest first. A refused
-- delivery changes nothing.
pub data Deliveries : Inbox → List Text → Inbox → Type 0 where
  nothing : {inbox : Inbox} → Deliveries inbox [] inbox
  takes :
      {inbox left left' : Inbox} {keys : List Text} (header : Text) (delivery : DeliveryEnvelope)
      (at : ℕ)
      → Deliveries inbox keys left
      → accept left header delivery at ≡ ok (accepted, left')
      → Deliveries inbox (delivery.event.key ∷ keys) left'
  passes_over :
      {inbox left left' : Inbox} {keys : List Text} (header : Text) (delivery : DeliveryEnvelope)
      (at : ℕ) (outcome : InboxOutcome)
      → Deliveries inbox keys left
      → accept left header delivery at ≡ ok (outcome, left')
      → outcome ≢ accepted
      → Deliveries inbox keys left'

taken :
    (left : Inbox) (header : Text) (delivery : DeliveryEnvelope) (at : ℕ) (left' : Inbox)
    → accept left header delivery at ≡ ok (accepted, left')
    → (lookup delivery.event.key left ≡ none)
      × (left' ≡ insert delivery.event.key (row_of delivery delivery.event.amount_sompi at) left)
unfolding accept_at
taken left header delivery at left' h =
    let (passes, done) = accept-ok left header delivery at accepted left' h in
    elim (Option-cases (lookup delivery.event.key left)) [
      | inl fresh ↦ (fresh, ground (arith, done, fresh))
      | inr (row, found) ↦ absurd (ground (arith, done, found))
    ]

passed_over :
    (left : Inbox) (header : Text) (delivery : DeliveryEnvelope) (at : ℕ) (outcome : InboxOutcome)
    (left' : Inbox)
    → accept left header delivery at ≡ ok (outcome, left')
    → outcome ≢ accepted
    → left' ≡ left
unfolding accept_at
passed_over left header delivery at outcome left' h other =
    let (passes, done) = accept-ok left header delivery at outcome left' h in
    elim (Option-cases (lookup delivery.event.key left)) [
      | inl fresh ↦ absurd (other (ground (arith, done, fresh)))
      | inr (row, found) ↦ ground (arith, done, found)
    ]

length-insert :
    (k : Text) (row : InboxRow) (inbox : Inbox)
    → lookup k inbox ≡ none
    → length (insert k row inbox) ≡ length inbox + 1
unfolding lookup insert
length-insert k row [] h = omega arith
length-insert k row ((j, r) ∷ inbox) h = ground (arith, length-insert k row inbox (ground arith))

-- The row at a key is there already or was not accepted in the run.
pub record Keeps (inbox : Inbox) (keys : List Text) (left : Inbox) : Type 0 where
  pub once : IsOnce keys
  pub recorded : All (λ k. is_some (lookup k left) ≡ true) keys
  pub new_keys : All (λ k. lookup k inbox ≡ none) keys
  pub rows_stay : (k : Text) (row : InboxRow) → lookup k inbox ≡ some row → lookup k left ≡ some row
  pub counted : count left ≡ count inbox + length keys

-- In a run of deliveries no event key is accepted twice, and none that was in the inbox before; every
-- accepted key is in the inbox at the end; no row that was there is changed or removed; and the inbox
-- grows by one row for each accepted key.
pub Deliveries-Keeps :
    {inbox left : Inbox} {keys : List Text} → Deliveries inbox keys left → Keeps inbox keys left
unfolding count IsOnce
Deliveries-Keeps nothing = record {
  once = tt;
  recorded = tt;
  new_keys = tt;
  rows_stay = λ k row h. h;
  counted = omega arith;
}
Deliveries-Keeps (passes_over {inbox} {left} {left'} header delivery at outcome r h other) =
    rw (passed_over left header delivery at outcome left' h other) (Deliveries-Keeps r)
Deliveries-Keeps (takes {inbox} {left} {left'} {keys} header delivery at r h) =
    let key = delivery.event.key in
    let row = row_of delivery delivery.event.amount_sompi at in
    let (fresh, grown) = taken left header delivery at left' h in
    let before = Deliveries-Keeps r in
    let stays : (k : Text) (old : InboxRow)
        → lookup k left ≡ some old
        → lookup k (insert key row left) ≡ some old =
      λ k old there.
        ground (arith, there, lookup-insert k key row left, text_beq_iff k key, fresh) in
    rw grown (record {
      once = (
        All-imp (λ k. is_some (lookup k left) ≡ true) (λ k. key ≢ k)
            (λ k there same. ground (arith, there, fresh, ap (λ x. lookup x left) same)) keys
            before.recorded,
        before.once,
      );
      recorded = (
        ground (arith, lookup-insert key key row left, text_beq_iff key key),
        All-imp (λ k. is_some (lookup k left) ≡ true)
            (λ k. is_some (lookup k (insert key row left)) ≡ true)
            (λ k there. ground (arith, there, lookup-insert k key row left)) keys before.recorded,
      );
      new_keys = (
        elim (Option-cases (lookup key inbox)) [
          | inl nobody ↦ nobody
          | inr (old, found) ↦ absurd (ground (arith, before.rows_stay key old found, fresh))
        ],
        before.new_keys,
      );
      rows_stay = λ k old found. stays k old (before.rows_stay k old found);
      counted = ground (arith, before.counted, length-insert key row left fresh);
    })

-- A delivery conflicts only over its amount or its address: the row under its key has the same kind,
-- transaction and output index, since the key determines them.
pub conflict-facts :
    (inbox : Inbox) (header : Text) (delivery : DeliveryEnvelope) (at : ℕ) (inbox' : Inbox)
    → IsSound inbox
    → AllEntries (λ k row. row.output_index < 2 ^ 32) inbox
    → delivery.event.output_index < 2 ^ 32
    → accept inbox header delivery at ≡ ok (conflict, inbox')
    → (row : InboxRow) × (lookup delivery.event.key inbox ≡ some row)
      × (row.kind ≡ delivery.event.kind)
      × (row.tx_id ≡ delivery.event.tx_id)
      × (row.output_index ≡ delivery.event.output_index)
      × ((row.amount_sompi ≢ delivery.event.amount_sompi) ⊎ (row.address ≢ delivery.event.address))
unfolding accept_at same_facts
conflict-facts inbox header delivery at inbox' sound indices index h =
    let event = delivery.event in
    let (passes, done) = accept-ok inbox header delivery at conflict inbox' h in
    elim (Option-cases (lookup event.key inbox)) [
      | inl fresh ↦ absurd (ground (arith, done, fresh))
      | inr (row, found) ↦
          let old = AllEntries-lookup RowIsSound event.key inbox sound found in
          let new = passes.row_sound in
          let (kinds, txs, indexes) =
            event_key_inj row.kind event.kind row.tx_id event.tx_id row.output_index
              event.output_index old.kind_known new.kind_known
              (AllEntries-lookup (λ k r. r.output_index < 2 ^ 32) event.key inbox indices found)
              index (sym old.keyed ∙ new.keyed) in
          (
            row,
            found,
            kinds,
            txs,
            indexes,
            elim (Bool-cases (nat_beq row.amount_sompi event.amount_sompi)) [
              | inl amounts ↦ inr (λ addresses. ground (
                arith,
                done,
                found,
                old.version,
                new.version,
                text_beq_iff row.kind event.kind,
                text_beq_iff row.tx_id event.tx_id,
                text_beq_iff row.address event.address,
              ))
              | inr amounts ↦ inl (ground arith)
            ],
          )
    ]
