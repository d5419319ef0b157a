-- ===== src/Deposits/Again.antt =====
-- What a reconciliation leaves, and why the same reconciliation once more sends nothing.
use kaspa_frontier_engine.Base.{
  ℕ, ◌<◌, ◌≡◌, refl, ap, ◌∙◌, inl, inr, Bool, true, false, some, List, [], ◌∷◌, arith, Option-cases,
  i64_bound, ok, Result-cases,
}
use kaspa_frontier_engine.Base.Lists.{All}
use kaspa_frontier_engine.Base.Eq.{nat_eq}
use kaspa_frontier_engine.Base.Text.{Text, text_beq_iff, text_eq}
use kaspa_frontier_engine.Base.Map.{Map, contains, lookup-insert, lookup-update}
use kaspa_frontier_engine.Base.Map.{lookup}
use kaspa_frontier_engine.Outpoint.{Outpoint, outpoint_eq, outpoint_beq_iff}
use kaspa_frontier_engine.Exchange.{UtxoAppearance, ConfirmedDeposit}
use kaspa_frontier_engine.Deposits.{
  DepositState, pending, credited, reversed, DepositRow, DepositLedger, same_facts, first_row,
  seen_again, appearance_key, observe_one, deposit_key, is_pending, confirm_at, confirm_one,
  observe_all,
}
use kaspa_frontier_engine.Deposits.Rows.{observe_one-ok}
use kaspa_frontier_engine.Deposits.Later.{Succeeds, Extends, Moves}
use kaspa_frontier_engine.Deposits.Runs.{observe_all-Later}

-- There is a row with the facts, which are `i64`s.
abbrev pub Matches : Map Outpoint DepositRow → Outpoint → Text → ℕ → ℕ → Bool → Type 0
Matches deposits key address amount block coinbase =
    (row : DepositRow) × (lookup key deposits ≡ some row)
    × (same_facts row address amount block coinbase ≡ true)
    × (amount < i64_bound)
    × (block < i64_bound)

-- There is a row, and it is not pending.
abbrev pub Settled : Map Outpoint DepositRow → Outpoint → Type 0
Settled deposits key =
    (row : DepositRow) × (lookup key deposits ≡ some row) × (is_pending row.state ≡ false)

-- No row of the outpoint is pending.
abbrev pub Quiet : Map Outpoint DepositRow → Outpoint → Type 0
Quiet deposits key =
    (row : DepositRow) → lookup key deposits ≡ some row → is_pending row.state ≡ false

same_facts-Succeeds :
    (before after : DepositRow) (address : Text) (amount block : ℕ) (coinbase : Bool)
    → Succeeds before after
    → same_facts after address amount block coinbase
      ≡ same_facts before address amount block coinbase
unfolding same_facts
same_facts-Succeeds before after address amount block coinbase s =
    let (b, c, f) = s.same_block in
    let a = ap (λ x. x.0) s.same_facts in let d = ap (λ x. x.1) s.same_facts in rw (a, b, c, d) refl

pub Matches-Extends :
    (before after : Map Outpoint DepositRow) (key : Outpoint) (address : Text) (amount block : ℕ)
    (coinbase : Bool)
    → Extends before after
    → Matches before key address amount block coinbase
    → Matches after key address amount block coinbase
Matches-Extends before after key address amount block coinbase ext (row, found, same, ha, hb) =
    let (row', found', s) = ext key row found in
    (row', found', same_facts-Succeeds row row' address amount block coinbase s ∙ same, ha, hb)

is_pending-Moves : (a b : DepositState) → is_pending a ≡ false → Moves a b → is_pending b ≡ false
is_pending-Moves pending b h m = absurd (ground arith)
is_pending-Moves credited pending h m = absurd (m refl)
is_pending-Moves credited credited h m = refl
is_pending-Moves credited reversed h m = refl
is_pending-Moves reversed b h m = ap is_pending m

pub Settled-Extends :
    (before after : Map Outpoint DepositRow) (key : Outpoint)
    → Extends before after
    → Settled before key
    → Settled after key
Settled-Extends before after key ext (row, found, done) =
    let (row', found', s) = ext key row found in
    (row', found', is_pending-Moves row.state row'.state done s.moves)

same_facts-first :
    (daa : ℕ) (legacy : Bool) (item : UtxoAppearance)
    → same_facts
        (first_row daa legacy item)
        item.address
        item.amount_sompi
        item.block_daa_score
        item.is_coinbase
      ≡ true
unfolding same_facts first_row
same_facts-first daa legacy item = ground (arith, (text_beq_iff item.address item.address).1 refl)

observe_one-bounds :
    (daa : ℕ) (ledger : DepositLedger) (item : UtxoAppearance) (ledger' : DepositLedger)
    → observe_one daa ledger item ≡ ok ledger'
    → (item.amount_sompi < i64_bound) × (item.block_daa_score < i64_bound)
unfolding observe_one
observe_one-bounds daa ledger item ledger' h = (ground arith, ground arith)

pub confirm_one-bounds :
    (daa : ℕ) (ledger : DepositLedger) (item : ConfirmedDeposit) (ledger' : DepositLedger)
    → confirm_one daa ledger item ≡ ok ledger'
    → (item.amount_sompi < i64_bound) × (item.block_daa_score < i64_bound)
unfolding confirm_one confirm_at
confirm_one-bounds daa ledger item ledger' h =
    elim (Option-cases (lookup (deposit_key item) ledger.deposits)) [
      | inl missing ↦ absurd (ground (arith, missing))
      | inr (row, found) ↦ (ground (arith, found), ground (arith, found))
    ]

abbrev pub Observed : Map Outpoint DepositRow → UtxoAppearance → Type 0
Observed deposits item =
    Matches deposits (appearance_key item) item.address item.amount_sompi item.block_daa_score
      item.is_coinbase

abbrev pub Credited : Map Outpoint DepositRow → ConfirmedDeposit → Type 0
Credited deposits item =
    Matches deposits (deposit_key item) item.address item.amount_sompi item.block_daa_score
      item.is_coinbase
    × Settled deposits (deposit_key item)

observe_one-Observed :
    (daa : ℕ) (ledger : DepositLedger) (item : UtxoAppearance) (ledger' : DepositLedger)
    → observe_one daa ledger item ≡ ok ledger'
    → Observed ledger'.deposits item
observe_one-Observed daa ledger item ledger' done =
    let (ha, hb) = observe_one-bounds daa ledger item ledger' done in
    let key = appearance_key item in
    let here = (outpoint_beq_iff key key).1 refl in
    elim (observe_one-ok daa ledger item ledger' done) [
      | inl (row, found, same, new) ↦ (
        seen_again daa row,
        rw (new, lookup-update key key (seen_again daa) ledger.deposits, here, found) refl,
        unfold same_facts in same,
        ha,
        hb,
      )
      | inr (missing, new) ↦ (
        first_row daa (contains key ledger.legacy_credits) item,
        rw
            (
              new,
              lookup-insert key key (first_row daa (contains key ledger.legacy_credits) item)
                  ledger.deposits,
              here,
            )
            refl,
        same_facts-first daa (contains key ledger.legacy_credits) item,
        ha,
        hb,
      )
    ]

pub observe_all-Observed :
    (daa : ℕ) (ledger : DepositLedger) (items : List UtxoAppearance) (ledger' : DepositLedger)
    → observe_all daa ledger items ≡ ok ledger'
    → All (Observed ledger'.deposits) items
unfolding observe_all
observe_all-Observed daa ledger [] ledger' done = tt
observe_all-Observed daa ledger (item ∷ items) ledger' done =
    elim (Result-cases (observe_one daa ledger item)) [
      | inl (mid, one) ↦
          let rest = rw one at done in
          (
            Matches-Extends mid.deposits ledger'.deposits (appearance_key item) item.address
                item.amount_sompi item.block_daa_score item.is_coinbase
                (observe_all-Later daa mid items ledger' rest).extends
                (observe_one-Observed daa ledger item mid one),
            observe_all-Observed daa mid items ledger' rest,
          )
      | inr (e, failed) ↦ absurd (ground (arith, failed))
    ]
