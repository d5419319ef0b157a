-- ===== src/Deposits/Twice.antt =====
-- The same reconciliation once more: it succeeds, and sends nothing.
use kaspa_frontier_engine.Base.{
  ℕ, ◌^◌, ◌<◌, ◌≡◌, refl, sym, subst, ◌∙◌, inl, inr, false, List, [], ◌∷◌, arith, Bool-cases,
  Option-cases, i64_bound, ok,
}
use kaspa_frontier_engine.Base.Lists.{All, All-imp}
use kaspa_frontier_engine.Base.Eq.{nat_eq}
use kaspa_frontier_engine.Base.Text.{text_eq}
use kaspa_frontier_engine.Base.Map.{lookup-update}
use kaspa_frontier_engine.Base.Map.{lookup, update}
use kaspa_frontier_engine.Outpoint.{Outpoint, outpoint_eq, outpoint_beq}
use kaspa_frontier_engine.Exchange.{UtxoAppearance, ConfirmedDeposit}
use kaspa_frontier_engine.Deposits.{
  DepositLedger, same_facts, seen_again, appearance_key, observe_at, observe_one, is_pending,
  credit_at, confirm_at, confirm_one, disappear_at, disappear_one, observe_all, confirm_all,
  disappear_all, reconcile,
}
use kaspa_frontier_engine.Deposits.Later.{
  Later-refl, Extends, Extends-update, seen-Succeeds, Succeeds-trans, some_inj,
}
use kaspa_frontier_engine.Deposits.Again.{Matches-Extends, Quiet, Observed, Credited}
use kaspa_frontier_engine.Deposits.Settles.{Credited-Extends, reconcile-settles}

-- What seeing rows again changes: neither the outbox nor a state.
record SeenOnly (before after : DepositLedger) : Type 0 where
  pub extends : Extends before.deposits after.deposits
  pub quiet : (key : Outpoint) → Quiet before.deposits key → Quiet after.deposits key
  pub same_outbox : after.outbox ≡ before.outbox

SeenOnly-seen_again :
    (daa : ℕ) (ledger : DepositLedger) (key : Outpoint)
    → SeenOnly ledger (record ledger { deposits = update key (seen_again daa) ledger.deposits })
SeenOnly-seen_again daa ledger key = record {
  extends = Extends-update key (seen_again daa) ledger.deposits (λ r f. seen-Succeeds daa r);
  quiet = λ j quiet row' found'. elim (Bool-cases (outpoint_beq j key)) [
    | inl same ↦ elim (Option-cases (lookup j ledger.deposits)) [
      | inl missing ↦ absurd (
          ground
            (arith, missing, same, found', lookup-update j key (seen_again daa) ledger.deposits))
      | inr (row, found) ↦
          let still = quiet row found in
          ground (
            arith,
            found,
            same,
            found',
            still,
            lookup-update j key (seen_again daa) ledger.deposits,
          )
    ]
    | inr differ ↦
        quiet row' (rw (lookup-update j key (seen_again daa) ledger.deposits, differ) at found')
  ];
  same_outbox = refl;
}

observe_again :
    (daa : ℕ) (ledger : DepositLedger) (item : UtxoAppearance)
    → Observed ledger.deposits item
    → observe_one daa ledger item
      ≡ ok (record ledger {
        deposits = update (appearance_key item) (seen_again daa) ledger.deposits;
      })
unfolding observe_one observe_at
observe_again daa ledger item (row, found, same, ha, hb) = ground (arith, found, same, ha, hb)

observe_all_again :
    (daa : ℕ) (ledger : DepositLedger) (items : List UtxoAppearance)
    → All (Observed ledger.deposits) items
    → (seen : DepositLedger) × (observe_all daa ledger items ≡ ok seen) × SeenOnly ledger seen
unfolding observe_all
observe_all_again daa ledger [] h = (
  ledger,
  refl,
  record { extends = (Later-refl ledger).extends; quiet = λ key quiet. quiet; same_outbox = refl },
)
observe_all_again daa ledger (item ∷ items) h =
    let mid : DepositLedger = record ledger {
      deposits = update (appearance_key item) (seen_again daa) ledger.deposits;
    } in
    let one = SeenOnly-seen_again daa ledger (appearance_key item) in
    let rest : All (Observed mid.deposits) items =
      All-imp (Observed ledger.deposits) (Observed mid.deposits)
        (λ i.
          Matches-Extends ledger.deposits mid.deposits (appearance_key i) i.address i.amount_sompi
            i.block_daa_score i.is_coinbase one.extends)
        items h.1 in
    let (seen, done, more) = observe_all_again daa mid items rest in
    (
      seen,
      rw (observe_again daa ledger item h.0) done,
      record {
        extends = λ j row found.
            let (row', found', s) = one.extends j row found in
            let (row'', found'', s') = more.extends j row' found' in
            (row'', found'', Succeeds-trans row row' row'' s s');
        quiet = λ key quiet. more.quiet key (one.quiet key quiet);
        same_outbox = more.same_outbox;
      },
    )

confirm_again :
    (daa : ℕ) (ledger : DepositLedger) (item : ConfirmedDeposit)
    → Credited ledger.deposits item
    → confirm_one daa ledger item ≡ ok ledger
unfolding confirm_one confirm_at credit_at same_facts
confirm_again daa ledger item ((row, found, same, ha, hb), (row', found', settled)) =
    let one : row' ≡ row = some_inj row' row (sym found' ∙ found) in
    let done : is_pending row.state ≡ false = subst (λ r. is_pending r.state ≡ false) one settled in
    ground (arith, found, same, ha, hb, done)

confirm_all_again :
    (daa : ℕ) (ledger : DepositLedger) (items : List ConfirmedDeposit)
    → All (Credited ledger.deposits) items
    → confirm_all daa ledger items ≡ ok ledger
unfolding confirm_all
confirm_all_again daa ledger [] h = refl
confirm_all_again daa ledger (item ∷ items) h =
    rw (confirm_again daa ledger item h.0) (confirm_all_again daa ledger items h.1)

disappear_again :
    (daa : ℕ) (ledger : DepositLedger) (key : Outpoint)
    → Quiet ledger.deposits key
    → disappear_one daa ledger key ≡ ledger
unfolding disappear_one disappear_at
disappear_again daa ledger key quiet = elim (Option-cases (lookup key ledger.deposits)) [
  | inl missing ↦ rw missing refl
  | inr (row, found) ↦ rw (found, quiet row found) refl
]

disappear_all_again :
    (daa : ℕ) (ledger : DepositLedger) (keys : List Outpoint)
    → All (Quiet ledger.deposits) keys
    → disappear_all daa ledger keys ≡ ledger
unfolding disappear_all
disappear_all_again daa ledger [] h = refl
disappear_all_again daa ledger (key ∷ keys) h =
    rw (disappear_again daa ledger key h.0) (disappear_all_again daa ledger keys h.1)

-- A reconciliation that has succeeded succeeds once more, at any time that is an `i64`, and sends nothing
-- then.
pub reconcile_twice :
    (ledger : DepositLedger) (daa later : ℕ) (observed : List UtxoAppearance)
    (deposits : List ConfirmedDeposit) (disappeared : List Outpoint) (ledger' : DepositLedger)
    → All (λ item. item.output_index < 2 ^ 32) deposits
    → All (λ key. key.output_index < 2 ^ 32) disappeared
    → reconcile ledger daa observed deposits disappeared ≡ ok ledger'
    → later < i64_bound
    → (again : DepositLedger) × (reconcile ledger' later observed deposits disappeared ≡ ok again)
      × (again.outbox ≡ ledger'.outbox)
unfolding reconcile
reconcile_twice ledger daa later observed deposits disappeared ledger' hd hg done small =
    let (h1, h2, h3) =
      reconcile-settles ledger daa observed deposits disappeared ledger' hd hg done in
    let (seen, first, only) = observe_all_again later ledger' observed h1 in
    let second = confirm_all_again later seen deposits (
      All-imp (Credited ledger'.deposits) (Credited seen.deposits)
        (λ item. Credited-Extends ledger'.deposits seen.deposits item only.extends) deposits h2) in
    let third =
      disappear_all_again later seen disappeared
        (All-imp (Quiet ledger'.deposits) (Quiet seen.deposits) only.quiet disappeared h3) in
    (seen, ground (arith, first, second, third, small), only.same_outbox)
