-- ===== src/Deposits/Calls.antt =====
-- Every call of the ledger keeps the agreement of its rows with the events that were sent.
use kaspa_frontier_engine.Base.{
  ℕ, ◌^◌, ◌<◌, ◌≡◌, refl, sym, subst, inl, inr, Bool, true, Option, none, List, [], ◌∷◌, arith,
  Bool-cases, Option-cases, ok, Result-cases,
}
use kaspa_frontier_engine.Base.Lists.{All}
use kaspa_frontier_engine.Base.Eq.{nat_eq}
use kaspa_frontier_engine.Base.Text.{Text, text_eq}
use kaspa_frontier_engine.Base.Text.{trim}
use kaspa_frontier_engine.Base.Map.{contains, lookup-insert, lookup-update}
use kaspa_frontier_engine.Base.Map.{lookup, insert, update}
use kaspa_frontier_engine.Outpoint.{Outpoint, outpoint_eq, outpoint_beq, outpoint_beq_iff}
use kaspa_frontier_engine.Exchange.{UtxoAppearance, ConfirmedDeposit}
use kaspa_frontier_engine.Deposits.{
  DepositState, pending, credited, reversed, DepositRow, DepositLedger, import_legacy_credit,
  first_row, seen_again, appearance_key, observe_one, deposit_key, confirm_one, disappear_one,
  observe_all, confirm_all, disappear_all, reconcile, reverse_credited_on_reorg,
}
use kaspa_frontier_engine.Deposits.Sent.{Facts}
use kaspa_frontier_engine.Deposits.Rows.{
  credit_of, reverse_of, observe_one-ok, confirm_one-ok, reverse_credited_on_reorg-ok,
}
use kaspa_frontier_engine.Deposits.Invariant.{
  AgreesIn, Agrees, AgreesAt, IsSound, seen-Agrees, first-Agrees, credit_at-AgreesAt,
  disappear_one-AgreesAt, reverse_at-AgreesAt,
}

seen-AgreesAt :
    (daa : ℕ) (ledger : DepositLedger) (key j : Outpoint)
    → AgreesAt ledger j
    → AgreesAt (record ledger { deposits = update key (seen_again daa) ledger.deposits }) j
seen-AgreesAt daa ledger key j h = elim (Bool-cases (outpoint_beq j key)) [
  | inl same ↦ elim (Option-cases (lookup j ledger.deposits)) [
    | inl missing ↦
        rw (lookup-update j key (seen_again daa) ledger.deposits, same, missing) (rw missing at h)
    | inr (row, found) ↦
        rw (lookup-update j key (seen_again daa) ledger.deposits, same, found)
          (seen-Agrees daa row (credit_of j ledger.outbox) (reverse_of j ledger.outbox)
            (contains j ledger.legacy_credits) row.state (rw found at h))
  ]
  | inr differ ↦ rw (lookup-update j key (seen_again daa) ledger.deposits, differ) h
]

first-AgreesAt :
    (daa : ℕ) (ledger : DepositLedger) (item : UtxoAppearance) (key j : Outpoint)
    → lookup key ledger.deposits ≡ none
    → AgreesAt ledger j
    → AgreesAt
        (record ledger {
          deposits =
              insert key (first_row daa (contains key ledger.legacy_credits) item) ledger.deposits;
        })
        j
first-AgreesAt daa ledger item key j missing h = elim (Bool-cases (outpoint_beq j key)) [
  | inl same ↦
      let row = first_row daa (contains key ledger.legacy_credits) item in
      let path = (outpoint_beq_iff j key).0 same in
      let before : Agrees (lookup key ledger.deposits) (credit_of key ledger.outbox)
          (reverse_of key ledger.outbox) (contains key ledger.legacy_credits) =
        subst (AgreesAt ledger) path h in
      subst (AgreesAt (record ledger { deposits = insert key row ledger.deposits })) (sym path) (
        rw (lookup-insert key key row ledger.deposits, (outpoint_beq_iff key key).1 refl)
          (first-Agrees daa item (credit_of key ledger.outbox) (reverse_of key ledger.outbox)
            (contains key ledger.legacy_credits) (rw missing at before)))
  | inr differ ↦
      rw
        (
          lookup-insert j key (first_row daa (contains key ledger.legacy_credits) item)
              ledger.deposits,
          differ,
        )
        h
]

observe_one-AgreesAt :
    (daa : ℕ) (ledger : DepositLedger) (item : UtxoAppearance) (ledger' : DepositLedger)
    (j : Outpoint)
    → observe_one daa ledger item ≡ ok ledger'
    → AgreesAt ledger j
    → AgreesAt ledger' j
observe_one-AgreesAt daa ledger item ledger' j done h =
    elim (observe_one-ok daa ledger item ledger' done) [
      | inl (row, found, same, new) ↦ rw new (seen-AgreesAt daa ledger (appearance_key item) j h)
      | inr (missing, new) ↦
          rw new (first-AgreesAt daa ledger item (appearance_key item) j missing h)
    ]

observe_all-IsSound :
    (daa : ℕ) (ledger : DepositLedger) (items : List UtxoAppearance) (ledger' : DepositLedger)
    → observe_all daa ledger items ≡ ok ledger'
    → IsSound ledger
    → IsSound ledger'
unfolding observe_all IsSound
observe_all-IsSound daa ledger [] ledger' done h = subst IsSound (ground arith) h
observe_all-IsSound daa ledger (item ∷ items) ledger' done h =
    elim (Result-cases (observe_one daa ledger item)) [
      | inl (next, one) ↦
          observe_all-IsSound daa next items ledger' (rw one at done)
            (λ j hj. observe_one-AgreesAt daa ledger item next j one (h j hj))
      | inr (e, failed) ↦ absurd (ground (arith, failed))
    ]

confirm_all-IsSound :
    (daa : ℕ) (ledger : DepositLedger) (items : List ConfirmedDeposit) (ledger' : DepositLedger)
    → All (λ item. item.output_index < 2 ^ 32) items
    → confirm_all daa ledger items ≡ ok ledger'
    → IsSound ledger
    → IsSound ledger'
unfolding confirm_all IsSound
confirm_all-IsSound daa ledger [] ledger' small done h = subst IsSound (ground arith) h
confirm_all-IsSound daa ledger (item ∷ items) ledger' small done h =
    elim (Result-cases (confirm_one daa ledger item)) [
      | inl (next, one) ↦
          let (row, found, same, new) = confirm_one-ok daa ledger item next one in
          confirm_all-IsSound daa next items ledger' small.1 (rw one at done) (λ j hj.
            rw new
              (credit_at-AgreesAt ledger (deposit_key item) j small.0 hj daa row found (h j hj)))
      | inr (e, failed) ↦ absurd (ground (arith, failed))
    ]

disappear_all-IsSound :
    (daa : ℕ) (ledger : DepositLedger) (keys : List Outpoint)
    → All (λ key. key.output_index < 2 ^ 32) keys
    → IsSound ledger
    → IsSound (disappear_all daa ledger keys)
unfolding disappear_all IsSound
disappear_all-IsSound daa ledger [] small h = h
disappear_all-IsSound daa ledger (key ∷ keys) small h =
    disappear_all-IsSound daa (disappear_one daa ledger key) keys small.1
      (λ j hj. disappear_one-AgreesAt ledger key j small.0 hj daa (h j hj))

pub reconcile-ok :
    (ledger : DepositLedger) (daa : ℕ) (observed : List UtxoAppearance)
    (deposits : List ConfirmedDeposit) (disappeared : List Outpoint) (ledger' : DepositLedger)
    → reconcile ledger daa observed deposits disappeared ≡ ok ledger'
    → (seen : DepositLedger) × (credits : DepositLedger) × (observe_all daa ledger observed
        ≡ ok seen)
      × (confirm_all daa seen deposits ≡ ok credits)
      × (ledger' ≡ disappear_all daa credits disappeared)
unfolding reconcile
reconcile-ok ledger daa observed deposits disappeared ledger' done =
    elim (Result-cases (observe_all daa ledger observed)) [
      | inl (seen, first) ↦ elim (Result-cases (confirm_all daa seen deposits)) [
        | inl (credits, second) ↦ (seen, credits, first, second, ground (arith, first, second))
        | inr (e, failed) ↦ absurd (ground (arith, first, failed))
      ]
      | inr (e, failed) ↦ absurd (ground (arith, failed))
    ]

-- A reconciliation that succeeds keeps the agreement of every row with the events that were sent, where
-- the indexes of the outputs that it names are `u32`s.
pub reconcile-IsSound :
    (ledger : DepositLedger) (daa : ℕ) (observed : List UtxoAppearance)
    (deposits : List ConfirmedDeposit) (disappeared : List Outpoint) (ledger' : DepositLedger)
    → All (λ item. item.output_index < 2 ^ 32) deposits
    → All (λ key. key.output_index < 2 ^ 32) disappeared
    → reconcile ledger daa observed deposits disappeared ≡ ok ledger'
    → IsSound ledger
    → IsSound ledger'
reconcile-IsSound ledger daa observed deposits disappeared ledger' hd hg done h =
    let (seen, credits, first, second, last) =
      reconcile-ok ledger daa observed deposits disappeared ledger' done in
    let h1 = observe_all-IsSound daa ledger observed seen first h in
    let h2 = confirm_all-IsSound daa seen deposits credits hd second h1 in
    subst IsSound (sym last) (disappear_all-IsSound daa credits disappeared hg h2)

pub reverse_credited_on_reorg-IsSound :
    (ledger : DepositLedger) (daa : ℕ) (key : Outpoint) (evidence : Text) (ledger' : DepositLedger)
    → key.output_index < 2 ^ 32
    → reverse_credited_on_reorg ledger daa key evidence ≡ ok ledger'
    → IsSound ledger
    → IsSound ledger'
unfolding IsSound
reverse_credited_on_reorg-IsSound ledger daa key evidence ledger' hk done h j hj =
    let (row, found, outcome) = reverse_credited_on_reorg-ok ledger daa key evidence ledger' done in
    elim outcome [
      | inl (was, same) ↦ rw same (h j hj)
      | inr (was, new) ↦
          rw new (
            reverse_at-AgreesAt ledger key j hk hj daa (trim evidence) row found (inr was) (h j hj))
    ]

legacy-Agrees :
    (row : DepositRow) (credit reverse : Option Facts) (legacy : Bool) (state : DepositState)
    → AgreesIn state row credit reverse legacy
    → AgreesIn state row credit reverse true
legacy-Agrees row credit reverse legacy pending h = h
legacy-Agrees row credit reverse legacy credited (once, no_reverse, at, kept) =
    (elim once [ inl told ↦ inl told | inr old ↦ inr (old.0, refl) ], no_reverse, at, kept)
legacy-Agrees row credit reverse legacy reversed h = h

pub import_legacy_credit-IsSound :
    (ledger : DepositLedger) (key : Outpoint)
    → IsSound ledger
    → IsSound (import_legacy_credit ledger key)
unfolding IsSound import_legacy_credit
import_legacy_credit-IsSound ledger key h j hj = elim (Bool-cases (outpoint_beq j key)) [
  | inl same ↦ elim (Option-cases (lookup j ledger.deposits)) [
    | inl missing ↦ rw missing (rw missing at (h j hj))
    | inr (row, found) ↦
        rw (found, lookup-insert j key tt ledger.legacy_credits, same)
          (legacy-Agrees row (credit_of j ledger.outbox) (reverse_of j ledger.outbox)
            (contains j ledger.legacy_credits) row.state (rw found at (h j hj)))
  ]
  | inr differ ↦ rw (lookup-insert j key tt ledger.legacy_credits, differ) (h j hj)
]
