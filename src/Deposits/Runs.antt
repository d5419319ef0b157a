-- ===== src/Deposits/Runs.antt =====
-- The runs of the ledger and of the workers, and what a run leaves of every row.
use kaspa_frontier_engine.Base.{
  ℕ, ◌^◌, ◌<◌, ◌≡◌, refl, sym, ap, subst, ◌∙◌, inl, inr, some, List, [], ◌∷◌, arith, nat_beq,
  nat_beq_iff, Bool-cases, ok, Result-cases,
}
use kaspa_frontier_engine.Base.Lists.{All}
use kaspa_frontier_engine.Base.Eq.{nat_eq}
use kaspa_frontier_engine.Base.Text.{Text, text, text_eq}
use kaspa_frontier_engine.Base.Text.{trim}
use kaspa_frontier_engine.Base.Map.{lookup-update}
use kaspa_frontier_engine.Base.Map.{lookup}
use kaspa_frontier_engine.Outpoint.{Outpoint, outpoint_eq}
use kaspa_frontier_engine.Exchange.{UtxoAppearance, ConfirmedDeposit}
use kaspa_frontier_engine.EventKey.{event_key}
use kaspa_frontier_engine.Outbox.{Outbox}
use kaspa_frontier_engine.Deposits.{
  DepositLedger, import_legacy_credit, observe_one, deposit_key, confirm_one, disappear_one,
  observe_all, confirm_all, disappear_all, reconcile, reverse_credited_on_reorg,
}
use kaspa_frontier_engine.Outbox.Writes.{Call, Writes, call-Writes}
use kaspa_frontier_engine.Deposits.Sent.{sent, sent-update}
use kaspa_frontier_engine.Deposits.Rows.{credit_of, confirm_one-ok, reverse_credited_on_reorg-ok}
use kaspa_frontier_engine.Deposits.Later.{
  Later, Frozen, Later-refl, Later-trans, observe_one-Later, credit_at-Later, reverse_at-Later,
  disappear_one-Later,
}
use kaspa_frontier_engine.Deposits.Calls.{reconcile-ok}

-- The calls that change the ledger.
pub data LedgerStep : DepositLedger → DepositLedger → Type 0 where
  imports :
      {ledger : DepositLedger} (key : Outpoint)
      → LedgerStep ledger (import_legacy_credit ledger key)
  reconciles :
      {ledger ledger' : DepositLedger} (daa : ℕ) (observed : List UtxoAppearance)
      (deposits : List ConfirmedDeposit) (disappeared : List Outpoint)
      → All (λ item. item.output_index < 2 ^ 32) deposits
      → All (λ key. key.output_index < 2 ^ 32) disappeared
      → reconcile ledger daa observed deposits disappeared ≡ ok ledger'
      → LedgerStep ledger ledger'
  reverses :
      {ledger ledger' : DepositLedger} (daa : ℕ) (key : Outpoint) (evidence : Text)
      → key.output_index < 2 ^ 32
      → reverse_credited_on_reorg ledger daa key evidence ≡ ok ledger'
      → LedgerStep ledger ledger'
  delivers :
      {ledger : DepositLedger} {outbox' : Outbox}
      → Call ledger.outbox outbox'
      → LedgerStep ledger (record ledger { outbox = outbox' })

pub data LedgerRun : DepositLedger → DepositLedger → Type 0 where
  stop : {ledger : DepositLedger} → LedgerRun ledger ledger
  next : {a b c : DepositLedger} → LedgerStep a b → LedgerRun b c → LedgerRun a c

pub observe_all-Later :
    (daa : ℕ) (ledger : DepositLedger) (items : List UtxoAppearance) (ledger' : DepositLedger)
    → observe_all daa ledger items ≡ ok ledger'
    → Later ledger ledger'
unfolding observe_all
observe_all-Later daa ledger [] ledger' done =
    subst (Later ledger) (ground arith) (Later-refl ledger)
observe_all-Later daa ledger (item ∷ items) ledger' done =
    elim (Result-cases (observe_one daa ledger item)) [
      | inl (mid, one) ↦
          Later-trans ledger mid ledger' (observe_one-Later daa ledger item mid one)
            (observe_all-Later daa mid items ledger' (rw one at done))
      | inr (e, failed) ↦ absurd (ground (arith, failed))
    ]

pub confirm_all-Later :
    (daa : ℕ) (ledger : DepositLedger) (items : List ConfirmedDeposit) (ledger' : DepositLedger)
    → All (λ item. item.output_index < 2 ^ 32) items
    → confirm_all daa ledger items ≡ ok ledger'
    → Later ledger ledger'
unfolding confirm_all
confirm_all-Later daa ledger [] ledger' small done =
    subst (Later ledger) (ground arith) (Later-refl ledger)
confirm_all-Later daa ledger (item ∷ items) ledger' small done =
    elim (Result-cases (confirm_one daa ledger item)) [
      | inl (mid, one) ↦
          let (row, found, same, new) = confirm_one-ok daa ledger item mid one in
          Later-trans ledger mid ledger'
            (subst (Later ledger) (sym new)
              (credit_at-Later daa ledger (deposit_key item) row small.0 found))
            (confirm_all-Later daa mid items ledger' small.1 (rw one at done))
      | inr (e, failed) ↦ absurd (ground (arith, failed))
    ]

pub disappear_all-Later :
    (daa : ℕ) (ledger : DepositLedger) (keys : List Outpoint)
    → All (λ key. key.output_index < 2 ^ 32) keys
    → Later ledger (disappear_all daa ledger keys)
unfolding disappear_all
disappear_all-Later daa ledger [] small = Later-refl ledger
disappear_all-Later daa ledger (key ∷ keys) small =
    Later-trans ledger (disappear_one daa ledger key)
      (disappear_all daa (disappear_one daa ledger key) keys)
      (disappear_one-Later daa ledger key small.0)
      (disappear_all-Later daa (disappear_one daa ledger key) keys small.1)

sent-Writes :
    (outbox outbox' : Outbox) (j : Text) → Writes outbox outbox' → sent j outbox' ≡ sent j outbox
sent-Writes outbox outbox' j w =
    ap (sent j) w.written
    ∙ sent-update j w.id w.change outbox (λ r. let (a, b, c, d, e, g) = w.keeps r in (a, b, c))

pub sent-Call :
    (outbox outbox' : Outbox) (j : Text) → Call outbox outbox' → sent j outbox' ≡ sent j outbox
sent-Call outbox outbox' j call = elim (call-Writes outbox outbox' call) [
  | inl same ↦ ap (sent j) same
  | inr w ↦ sent-Writes outbox outbox' j w
]

-- A row that is acknowledged is not written.
Frozen-Call : (outbox outbox' : Outbox) → Call outbox outbox' → Frozen outbox outbox'
Frozen-Call outbox outbox' call id row found done = elim (call-Writes outbox outbox' call) [
  | inl same ↦ rw same found
  | inr w ↦ elim (Bool-cases (nat_beq id w.id)) [
    | inl here ↦
        let there = subst (λ i. lookup i outbox ≡ some row) ((nat_beq_iff id w.id).0 here) found in
        let w_found = w.found in
        let w_open = w.open_row in absurd (ground (arith, there, w_found, w_open, done))
    | inr differ ↦ rw (w.written, lookup-update id w.id w.change outbox, differ) found
  ]
]

pub step-Later : (before after : DepositLedger) → LedgerStep before after → Later before after
unfolding import_legacy_credit
step-Later before after (imports key) = record {
  extends = λ j row found. (Later-refl before).extends j row found;
  tells = λ j f h. h;
  silent = λ j row hj found state. refl;
  frozen = λ id row found done. found;
}
step-Later before after (reconciles daa observed deposits disappeared hd hg done) =
    let (seen, credits, first, second, last) =
      reconcile-ok before daa observed deposits disappeared after done in
    let h1 = observe_all-Later daa before observed seen first in
    let h2 = confirm_all-Later daa seen deposits credits hd second in
    let h3 = disappear_all-Later daa credits disappeared hg in
    Later-trans before seen after h1
      (Later-trans seen credits after h2 (subst (Later credits) (sym last) h3))
step-Later before after (reverses daa key evidence hk done) =
    let (row, found, outcome) = reverse_credited_on_reorg-ok before daa key evidence after done in
    elim outcome [
      | inl (was, same) ↦ subst (Later before) (sym same) (Later-refl before)
      | inr (was, new) ↦
          subst (Later before) (sym new) (reverse_at-Later daa (trim evidence) before key row hk)
    ]
step-Later before after (delivers {outbox' = outbox'} call) = record {
  extends = λ j row found. (Later-refl before).extends j row found;
  tells = λ j f h. sent-Call before.outbox outbox' j call ∙ h;
  silent = λ j row hj found state.
      unfold credit_of in
      sent-Call before.outbox outbox' (event_key (text "credit") j.tx_id j.output_index) call;
  frozen = Frozen-Call before.outbox outbox' call;
}

pub run-Later : (before after : DepositLedger) → LedgerRun before after → Later before after
run-Later before after stop = Later-refl before
run-Later before after (next {b = mid} step run) =
    Later-trans before mid after (step-Later before mid step) (run-Later mid after run)
