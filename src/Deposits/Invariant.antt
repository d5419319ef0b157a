-- ===== src/Deposits/Invariant.antt =====
-- The agreement of the rows with the events that were sent, which every call keeps.
use kaspa_frontier_engine.Base.{
  ℕ, ◌^◌, ◌<◌, ◌≡◌, refl, sym, subst, ◌⊎◌, inl, inr, Bool, true, false, Option, none, some, arith,
  Bool-cases, Option-cases, is_some,
}
use kaspa_frontier_engine.Base.Eq.{◌==◌, nat_eq}
use kaspa_frontier_engine.Base.Text.{Text, text, text_eq}
use kaspa_frontier_engine.Base.Map.{contains, lookup-update}
use kaspa_frontier_engine.Base.Map.{lookup, update}
use kaspa_frontier_engine.Outpoint.{Outpoint, outpoint_eq, outpoint_beq, outpoint_beq_iff}
use kaspa_frontier_engine.Exchange.{UtxoAppearance}
use kaspa_frontier_engine.Outbox.{Outbox}
use kaspa_frontier_engine.Deposits.{
  DepositState, pending, credited, reversed, DepositRow, DepositLedger, insert_outbox, first_row,
  seen_again, credit_row, is_pending, credit_at, reverse_row, reverse_at, disappear_at,
  disappear_one,
}
use kaspa_frontier_engine.Deposits.Sent.{Facts}
use kaspa_frontier_engine.Deposits.Rows.{
  facts, credit_of, reverse_of, sent_once, credit_of-credit, reverse_of-credit, credit_of-reverse,
  reverse_of-reverse,
}

-- What was sent of a deposit, by its state: nothing while it is pending; its credit, unless an earlier
-- system had credited it, once it is credited; its reversal, after at most its credit, once it is reversed.
abbrev pub AgreesIn : DepositState → DepositRow → Option Facts → Option Facts → Bool → Type 0
AgreesIn pending row credit reverse legacy =
    (credit ≡ none) × (reverse ≡ none) × (row.credited_daa ≡ none) × (row.reversed_daa ≡ none)
AgreesIn credited row credit reverse legacy =
    ((credit ≡ some (facts row)) ⊎ ((credit ≡ none) × (legacy ≡ true)))
    × (reverse ≡ none)
    × (is_some row.credited_daa ≡ true)
    × (row.reversed_daa ≡ none)
AgreesIn reversed row credit reverse legacy =
    (reverse ≡ some (facts row))
    × ((credit ≡ none) ⊎ ((credit ≡ some (facts row)) × (is_some row.credited_daa ≡ true)))
    × (is_some row.reversed_daa ≡ true)

-- Nothing is sent of an outpoint that was not observed.
abbrev pub Agrees : Option DepositRow → Option Facts → Option Facts → Bool → Type 0
Agrees none credit reverse legacy = (credit ≡ none) × (reverse ≡ none)
Agrees (some row) credit reverse legacy = AgreesIn row.state row credit reverse legacy

abbrev pub AgreesAt : DepositLedger → Outpoint → Type 0
AgreesAt ledger j =
    Agrees (lookup j ledger.deposits) (credit_of j ledger.outbox) (reverse_of j ledger.outbox)
      (contains j ledger.legacy_credits)

-- Of every outpoint, whose index is a `u32`.
unfoldable pub IsSound : DepositLedger → Type 0
IsSound ledger = (j : Outpoint) → j.output_index < 2 ^ 32 → AgreesAt ledger j

pub seen-Agrees :
    (daa : ℕ) (row : DepositRow) (credit reverse : Option Facts) (legacy : Bool)
    (state : DepositState)
    → AgreesIn state row credit reverse legacy
    → AgreesIn state (seen_again daa row) credit reverse legacy
seen-Agrees daa row credit reverse legacy pending h = h
seen-Agrees daa row credit reverse legacy credited h = h
seen-Agrees daa row credit reverse legacy reversed h = h

pub first-Agrees :
    (daa : ℕ) (item : UtxoAppearance) (credit reverse : Option Facts) (legacy : Bool)
    → Agrees none credit reverse legacy
    → Agrees (some (first_row daa legacy item)) credit reverse legacy
unfolding first_row
first-Agrees daa item credit reverse true h = (inr (h.0, refl), h.1, refl, refl)
first-Agrees daa item credit reverse false h = (h.0, h.1, refl, refl)

credit-Agrees :
    (daa : ℕ) (row : DepositRow) (credit reverse : Option Facts) (legacy : Bool)
    → row.state ≡ pending
    → Agrees (some row) credit reverse legacy
    → Agrees (some (credit_row daa row)) (sent_once credit (facts row)) reverse legacy
credit-Agrees daa row credit reverse legacy state h =
    let (no_credit, no_reverse, never, kept) =
      subst (λ s. AgreesIn s row credit reverse legacy) state h in
    (inl (ground (arith, no_credit)), no_reverse, refl, kept)

reverse-Agrees :
    (daa : ℕ) (reason : Text) (row : DepositRow) (credit reverse : Option Facts) (legacy : Bool)
    → (row.state ≡ pending) ⊎ (row.state ≡ credited)
    → Agrees (some row) credit reverse legacy
    → Agrees (some (reverse_row daa reason row)) credit (sent_once reverse (facts row)) legacy
reverse-Agrees daa reason row credit reverse legacy (inl state) h =
    let (no_credit, no_reverse, never, kept) =
      subst (λ s. AgreesIn s row credit reverse legacy) state h in
    (ground (arith, no_reverse), inl no_credit, refl)
reverse-Agrees daa reason row credit reverse legacy (inr state) h =
    let (once, no_reverse, at, kept) = subst (λ s. AgreesIn s row credit reverse legacy) state h in
    (
      ground (arith, no_reverse),
      elim once [ inl told ↦ inr (told, at) | inr old ↦ inl old.0 ],
      refl,
    )

pub is_pending-state : (state : DepositState) → is_pending state ≡ true → state ≡ pending
is_pending-state pending h = refl
is_pending-state credited h = absurd (ground arith)
is_pending-state reversed h = absurd (ground arith)

-- A change of one row, with the events that it sends.
module _ (ledger : DepositLedger) (key j : Outpoint) (hk : key.output_index < 2 ^ 32)
    (hj : j.output_index < 2 ^ 32) where
  update-AgreesAt :
      (change : DepositRow → DepositRow) (outbox : Outbox) (row : DepositRow)
      → lookup key ledger.deposits ≡ some row
      → ((j == key) ≡ false
          → (credit_of j outbox ≡ credit_of j ledger.outbox)
            × (reverse_of j outbox ≡ reverse_of j ledger.outbox))
      → (Agrees
            (some row)
            (credit_of key ledger.outbox)
            (reverse_of key ledger.outbox)
            (contains key ledger.legacy_credits)
          → Agrees
              (some (change row))
              (credit_of key outbox)
              (reverse_of key outbox)
              (contains key ledger.legacy_credits))
      → AgreesAt ledger j
      → AgreesAt (record ledger { deposits = update key change ledger.deposits; outbox = outbox }) j
  update-AgreesAt change outbox row found apart here h = elim (Bool-cases (outpoint_beq j key)) [
    | inl same ↦
        let path = (outpoint_beq_iff j key).0 same in
        let h' : Agrees (lookup key ledger.deposits) (credit_of key ledger.outbox)
            (reverse_of key ledger.outbox) (contains key ledger.legacy_credits) =
          subst (AgreesAt ledger) path h in
        subst
          (AgreesAt
            (record ledger { deposits = update key change ledger.deposits; outbox = outbox }))
          (sym path)
          (rw
            (lookup-update key key change ledger.deposits, (outpoint_beq_iff key key).1 refl, found)
            (here (rw found at h')))
    | inr differ ↦
        let (c, r) = apart differ in rw (lookup-update j key change ledger.deposits, differ, c, r) h
  ]

  pub reverse_at-AgreesAt :
      (daa : ℕ) (reason : Text) (row : DepositRow)
      → lookup key ledger.deposits ≡ some row
      → (row.state ≡ pending) ⊎ (row.state ≡ credited)
      → AgreesAt ledger j
      → AgreesAt (reverse_at daa reason ledger key row) j
  unfolding reverse_at
  reverse_at-AgreesAt daa reason row found state h =
      let outbox = insert_outbox (text "reverse") key row.amount_sompi row.address ledger.outbox in
      update-AgreesAt (reverse_row daa reason) outbox row found
        (λ differ. (
          credit_of-reverse j key hj hk row.amount_sompi row.address ledger.outbox,
          rw (reverse_of-reverse j key hj hk row.amount_sompi row.address ledger.outbox, differ),
        ))
        (λ before.
          rw
            (
              credit_of-reverse key key hk hk row.amount_sompi row.address ledger.outbox,
              reverse_of-reverse key key hk hk row.amount_sompi row.address ledger.outbox,
              (outpoint_beq_iff key key).1 refl,
            )
            (reverse-Agrees daa reason row (credit_of key ledger.outbox)
              (reverse_of key ledger.outbox) (contains key ledger.legacy_credits) state before))
        h

  pub credit_at-AgreesAt :
      (daa : ℕ) (row : DepositRow)
      → lookup key ledger.deposits ≡ some row
      → AgreesAt ledger j
      → AgreesAt (credit_at daa ledger key row) j
  unfolding credit_at
  credit_at-AgreesAt daa row found h =
      let outbox = insert_outbox (text "credit") key row.amount_sompi row.address ledger.outbox in
      elim (Bool-cases (is_pending row.state)) [
        | inl waits ↦ rw waits (
            update-AgreesAt (credit_row daa) outbox row found
              (λ differ. (
                rw (
                  credit_of-credit j key hj hk row.amount_sompi row.address ledger.outbox,
                  differ,
                ),
                reverse_of-credit j key hj hk row.amount_sompi row.address ledger.outbox,
              ))
              (λ before.
                rw
                  (
                    reverse_of-credit key key hk hk row.amount_sompi row.address ledger.outbox,
                    credit_of-credit key key hk hk row.amount_sompi row.address ledger.outbox,
                    (outpoint_beq_iff key key).1 refl,
                  )
                  (credit-Agrees daa row (credit_of key ledger.outbox)
                    (reverse_of key ledger.outbox) (contains key ledger.legacy_credits)
                    (is_pending-state row.state waits) before))
              h)
        | inr done ↦ rw done h
      ]

  pub disappear_one-AgreesAt :
      (daa : ℕ) → AgreesAt ledger j → AgreesAt (disappear_one daa ledger key) j
  unfolding disappear_one disappear_at
  disappear_one-AgreesAt daa h = elim (Option-cases (lookup key ledger.deposits)) [
    | inl missing ↦ rw missing h
    | inr (row, found) ↦ elim (Bool-cases (is_pending row.state)) [
      | inl waits ↦
          rw (found, waits)
            (reverse_at-AgreesAt daa (text "disappeared before confirmation") row found
              (inl (is_pending-state row.state waits)) h)
      | inr done ↦ rw (found, done) h
    ]
  ]
