-- ===== src/Deposits/Settles.antt =====
-- What a reconciliation leaves: every row that it named has come to rest.
use kaspa_frontier_engine.Base.{
  ℕ, ◌^◌, ◌<◌, ◌≡◌, refl, sym, subst, inl, inr, List, [], ◌∷◌, arith, Bool-cases, Option-cases, ok,
  Result-cases,
}
use kaspa_frontier_engine.Base.Lists.{All, All-imp}
use kaspa_frontier_engine.Base.Eq.{nat_eq}
use kaspa_frontier_engine.Base.Text.{text, text_eq}
use kaspa_frontier_engine.Base.Map.{Map, lookup-update}
use kaspa_frontier_engine.Base.Map.{lookup}
use kaspa_frontier_engine.Outpoint.{Outpoint, outpoint_eq, outpoint_beq, outpoint_beq_iff}
use kaspa_frontier_engine.Exchange.{UtxoAppearance, ConfirmedDeposit}
use kaspa_frontier_engine.Deposits.{
  DepositRow, DepositLedger, appearance_key, deposit_key, credit_row, is_pending, credit_at,
  confirm_one, reverse_row, reverse_at, disappear_at, disappear_one, confirm_all, disappear_all,
  reconcile,
}
use kaspa_frontier_engine.Deposits.Rows.{confirm_one-ok}
use kaspa_frontier_engine.Deposits.Later.{Later, Later-trans, Extends, credit_at-Later}
use kaspa_frontier_engine.Deposits.Runs.{confirm_all-Later, disappear_all-Later}
use kaspa_frontier_engine.Deposits.Calls.{reconcile-ok}
use kaspa_frontier_engine.Deposits.Again.{
  Settled, Quiet, Matches-Extends, Settled-Extends, confirm_one-bounds, Observed, Credited,
  observe_all-Observed,
}

confirm_one-Settled :
    (daa : ℕ) (ledger : DepositLedger) (item : ConfirmedDeposit) (ledger' : DepositLedger)
    → confirm_one daa ledger item ≡ ok ledger'
    → Settled ledger'.deposits (deposit_key item)
unfolding credit_at
confirm_one-Settled daa ledger item ledger' done =
    let (row, found, same, new) = confirm_one-ok daa ledger item ledger' done in
    let key = deposit_key item in
    let here = (outpoint_beq_iff key key).1 refl in
    elim (Bool-cases (is_pending row.state)) [
      | inl waits ↦ (
        credit_row daa row,
        rw (new, waits, lookup-update key key (credit_row daa) ledger.deposits, here, found) refl,
        refl,
      )
      | inr settled ↦ (row, rw (new, settled) found, settled)
    ]

confirm_one-Credited :
    (daa : ℕ) (ledger : DepositLedger) (item : ConfirmedDeposit) (ledger' : DepositLedger)
    → item.output_index < 2 ^ 32
    → confirm_one daa ledger item ≡ ok ledger'
    → Credited ledger'.deposits item
confirm_one-Credited daa ledger item ledger' small done =
    let (row, found, same, new) = confirm_one-ok daa ledger item ledger' done in
    let (ha, hb) = confirm_one-bounds daa ledger item ledger' done in
    let later : Later ledger ledger' =
      subst (Later ledger) (sym new)
        (credit_at-Later daa ledger (deposit_key item) row small found) in
    (
      Matches-Extends ledger.deposits ledger'.deposits (deposit_key item) item.address
          item.amount_sompi item.block_daa_score item.is_coinbase later.extends
          (row, found, same, ha, hb),
      confirm_one-Settled daa ledger item ledger' done,
    )

pub Credited-Extends :
    (before after : Map Outpoint DepositRow) (item : ConfirmedDeposit)
    → Extends before after
    → Credited before item
    → Credited after item
Credited-Extends before after item ext (same, settled) = (
  Matches-Extends before after (deposit_key item) item.address item.amount_sompi
      item.block_daa_score item.is_coinbase ext same,
  Settled-Extends before after (deposit_key item) ext settled,
)

confirm_all-Credited :
    (daa : ℕ) (ledger : DepositLedger) (items : List ConfirmedDeposit) (ledger' : DepositLedger)
    → All (λ item. item.output_index < 2 ^ 32) items
    → confirm_all daa ledger items ≡ ok ledger'
    → All (Credited ledger'.deposits) items
unfolding confirm_all
confirm_all-Credited daa ledger [] ledger' small done = tt
confirm_all-Credited daa ledger (item ∷ items) ledger' small done =
    elim (Result-cases (confirm_one daa ledger item)) [
      | inl (mid, one) ↦
          let rest = rw one at done in
          (
            Credited-Extends mid.deposits ledger'.deposits item
                (confirm_all-Later daa mid items ledger' small.1 rest).extends
                (confirm_one-Credited daa ledger item mid small.0 one),
            confirm_all-Credited daa mid items ledger' small.1 rest,
          )
      | inr (e, failed) ↦ absurd (ground (arith, failed))
    ]

disappear_one-Quiet :
    (daa : ℕ) (ledger : DepositLedger) (key : Outpoint)
    → Quiet (disappear_one daa ledger key).deposits key
unfolding disappear_one disappear_at reverse_at
disappear_one-Quiet daa ledger key row' found' = elim (Option-cases (lookup key ledger.deposits)) [
  | inl missing ↦ absurd (ground (arith, missing))
  | inr (row, found) ↦ elim (Bool-cases (is_pending row.state)) [
    | inl waits ↦ ground (
      arith,
      found,
      waits,
      lookup-update key key (reverse_row daa (text "disappeared before confirmation"))
          ledger.deposits,
      (outpoint_beq_iff key key).1 refl,
    )
    | inr done ↦ ground (arith, found, done)
  ]
]

-- The third loop adds no row and makes none pending.
disappear_one-keeps :
    (daa : ℕ) (ledger : DepositLedger) (key j : Outpoint)
    → Quiet ledger.deposits j
    → Quiet (disappear_one daa ledger key).deposits j
unfolding disappear_one disappear_at reverse_at
disappear_one-keeps daa ledger key j quiet = elim (Bool-cases (outpoint_beq j key)) [
  | inl same ↦
      subst (Quiet (disappear_one daa ledger key).deposits) (sym ((outpoint_beq_iff j key).0 same))
        (disappear_one-Quiet daa ledger key)
  | inr differ ↦ elim (Option-cases (lookup key ledger.deposits)) [
    | inl missing ↦ rw missing quiet
    | inr (row, found) ↦ elim (Bool-cases (is_pending row.state)) [
      | inl waits ↦
          rw
            (
              found,
              waits,
              lookup-update j key (reverse_row daa (text "disappeared before confirmation"))
                  ledger.deposits,
              differ,
            )
            quiet
      | inr done ↦ rw (found, done) quiet
    ]
  ]
]

disappear_all-keeps :
    (daa : ℕ) (ledger : DepositLedger) (keys : List Outpoint) (j : Outpoint)
    → Quiet ledger.deposits j
    → Quiet (disappear_all daa ledger keys).deposits j
unfolding disappear_all
disappear_all-keeps daa ledger [] j quiet = quiet
disappear_all-keeps daa ledger (key ∷ keys) j quiet =
    disappear_all-keeps daa (disappear_one daa ledger key) keys j
      (disappear_one-keeps daa ledger key j quiet)

disappear_all-Quiet :
    (daa : ℕ) (ledger : DepositLedger) (keys : List Outpoint)
    → All (Quiet (disappear_all daa ledger keys).deposits) keys
unfolding disappear_all
disappear_all-Quiet daa ledger [] = tt
disappear_all-Quiet daa ledger (key ∷ keys) = (
  disappear_all-keeps daa (disappear_one daa ledger key) keys key
      (disappear_one-Quiet daa ledger key),
  disappear_all-Quiet daa (disappear_one daa ledger key) keys,
)

-- After a reconciliation that succeeds, every observed and every confirmed output has a row with its facts, the confirmed ones
-- are not pending, and no disappeared one is.
pub reconcile-settles :
    (ledger : DepositLedger) (daa : ℕ) (observed : List UtxoAppearance)
    (deposits : List ConfirmedDeposit) (disappeared : List Outpoint) (ledger' : DepositLedger)
    → All (λ item. item.output_index < 2 ^ 32) deposits
    → All (λ key. key.output_index < 2 ^ 32) disappeared
    → reconcile ledger daa observed deposits disappeared ≡ ok ledger'
    → All (Observed ledger'.deposits) observed
      × All (Credited ledger'.deposits) deposits
      × All (Quiet ledger'.deposits) disappeared
reconcile-settles ledger daa observed deposits disappeared ledger' hd hg done =
    let (seen, credits, first, second, last) =
      reconcile-ok ledger daa observed deposits disappeared ledger' done in
    let h2 = confirm_all-Later daa seen deposits credits hd second in
    let h3 : Later credits ledger' =
      subst (Later credits) (sym last) (disappear_all-Later daa credits disappeared hg) in
    let h23 = Later-trans seen credits ledger' h2 h3 in
    (
      All-imp (Observed seen.deposits) (Observed ledger'.deposits)
          (λ item.
            Matches-Extends seen.deposits ledger'.deposits (appearance_key item) item.address
              item.amount_sompi item.block_daa_score item.is_coinbase h23.extends)
          observed (observe_all-Observed daa ledger observed seen first),
      All-imp (Credited credits.deposits) (Credited ledger'.deposits)
          (λ item. Credited-Extends credits.deposits ledger'.deposits item h3.extends) deposits
          (confirm_all-Credited daa seen deposits credits hd second),
      subst (λ l. All (Quiet l.deposits) disappeared) (sym last)
          (disappear_all-Quiet daa credits disappeared),
    )
