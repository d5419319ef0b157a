-- ===== src/Deposits/History.antt =====
-- The rows and the events of the ledger over whole runs of its calls and of the workers'.
use kaspa_frontier_engine.Base.{
  ℕ, ◌^◌, ◌<◌, ◌≡◌, refl, subst, ◌≢◌, true, Option, none, some, Result, err, arith, ok,
}
use kaspa_frontier_engine.Base.Eq.{nat_eq}
use kaspa_frontier_engine.Base.Text.{Text, text, text_eq}
use kaspa_frontier_engine.Base.Map.{lookup}
use kaspa_frontier_engine.Outpoint.{Outpoint, outpoint_eq}
use kaspa_frontier_engine.EventKey.{event_key}
use kaspa_frontier_engine.Outbox.{OutboxError, OutboxRow, Outbox}
use kaspa_frontier_engine.Deposits.{reversed, DepositRow, DepositLedger}
use kaspa_frontier_engine.Outbox.{ClaimedLedgerEvent, claim_next_delivery}
use kaspa_frontier_engine.Outbox.Leases.{claim-Claims}
use kaspa_frontier_engine.Deposits.Sent.{Facts, sent}
use kaspa_frontier_engine.Deposits.Rows.{credit_of, reverse_of}
use kaspa_frontier_engine.Deposits.Later.{Extends}
use kaspa_frontier_engine.Deposits.Invariant.{IsSound}
use kaspa_frontier_engine.Deposits.Calls.{
  reconcile-IsSound, reverse_credited_on_reorg-IsSound, import_legacy_credit-IsSound,
}
use kaspa_frontier_engine.Deposits.Runs.{
  LedgerStep, LedgerRun, imports, reconciles, reverses, delivers, stop, next, sent-Call, run-Later,
}

step-IsSound :
    (before after : DepositLedger) → LedgerStep before after → IsSound before → IsSound after
unfolding IsSound credit_of reverse_of
step-IsSound before after (imports key) h = import_legacy_credit-IsSound before key h
step-IsSound before after (reconciles daa observed deposits disappeared hd hg done) h =
    reconcile-IsSound before daa observed deposits disappeared after hd hg done h
step-IsSound before after (reverses daa key evidence hk done) h =
    reverse_credited_on_reorg-IsSound before daa key evidence after hk done h
step-IsSound before after (delivers {outbox' = outbox'} call) h = λ j hj.
    rw
      (
        sent-Call before.outbox outbox' (event_key (text "credit") j.tx_id j.output_index) call,
        sent-Call before.outbox outbox' (event_key (text "reverse") j.tx_id j.output_index) call,
      )
      (h j hj)

-- From a ledger that agrees with its outbox, every run of its calls and of the workers' leads to one that
-- does. It agrees where, of every outpoint, nothing was sent while it is not observed or is pending; the
-- credit and no reversal if it is credited, or no credit if an earlier system had credited it; and the
-- reversal, with the credit or without, if it is reversed; each with the row's amount and address.
pub run-IsSound :
    (before after : DepositLedger) → LedgerRun before after → IsSound before → IsSound after
run-IsSound before after stop h = h
run-IsSound before after (next {b = mid} step run) h =
    run-IsSound mid after run (step-IsSound before mid step h)

-- Over any run a deposit keeps its address, its amount, its block, its coinbase flag and the time at which it was first
-- seen; it does not go back to pending, and stays reversed once it is.
pub run-Extends :
    (before after : DepositLedger) → LedgerRun before after → Extends before.deposits after.deposits
run-Extends before after run = (run-Later before after run).extends

-- Over any run an event that was sent stays, with its amount and its address.
pub run-sent :
    (before after : DepositLedger) (key : Text) (f : Facts)
    → LedgerRun before after
    → sent key before.outbox ≡ some f
    → sent key after.outbox ≡ some f
run-sent before after key f run h = (run-Later before after run).tells key f h

-- Over any run from a ledger where a deposit is reversed, no credit of it is sent: it has the credit that it had, or none.
pub reversed_run :
    (before after : DepositLedger) (key : Outpoint) (row : DepositRow)
    → key.output_index < 2 ^ 32
    → LedgerRun before after
    → lookup key before.deposits ≡ some row
    → row.state ≡ reversed
    → credit_of key after.outbox ≡ credit_of key before.outbox
reversed_run before after key row hk run found state =
    (run-Later before after run).silent key row hk found state

-- The number of the event that a claim returns, if it returns one.
abbrev pub claimed_id : Result OutboxError (Option ClaimedLedgerEvent) → Option ℕ
claimed_id (ok (some claim)) = some claim.event.id
claimed_id (ok none) = none
claimed_id (err e) = none

claimed_id-free :
    (outbox : Outbox) (id : ℕ) (row : OutboxRow) (owner : Text) (now lease : ℕ)
    (result : Result OutboxError (Option ClaimedLedgerEvent)) (outbox' : Outbox)
    → lookup id outbox ≡ some row
    → row.acknowledged ≡ true
    → claim_next_delivery outbox owner now lease ≡ (result, outbox')
    → claimed_id result ≢ some id
claimed_id-free outbox id row owner now lease (err e) outbox' found done h = λ same. cc
claimed_id-free outbox id row owner now lease (ok none) outbox' found done h = λ same. cc
claimed_id-free outbox id row owner now lease (ok (some claim)) outbox' found done claimed =
    let (row', claims) = claim-Claims outbox owner now lease claim outbox' claimed in
    λ same.
      let here : claim.event.id ≡ id = cc in
      let there = subst (λ i. lookup i outbox ≡ some row') here claims.found in
      let free = claims.free in absurd (ground (arith, there, found, free, done))

-- Over any run from an outbox where an event is acknowledged, its row stays as it is, and a claim after the
-- run, by any owner at any time, does not return it.
pub acknowledged_run :
    (before after : DepositLedger) (id : ℕ) (row : OutboxRow) (owner : Text) (now lease : ℕ)
    → LedgerRun before after
    → lookup id before.outbox ≡ some row
    → row.acknowledged ≡ true
    → (lookup id after.outbox ≡ some row)
      × (claimed_id (claim_next_delivery after.outbox owner now lease).0 ≢ some id)
acknowledged_run before after id row owner now lease run found done =
    let kept = (run-Later before after run).frozen id row found done in
    (
      kept,
      claimed_id-free after.outbox id row owner now lease
          (claim_next_delivery after.outbox owner now lease).0
          (claim_next_delivery after.outbox owner now lease).1 kept done refl,
    )
