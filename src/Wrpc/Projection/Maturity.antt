-- ===== src/Wrpc/Projection/Maturity.antt =====
-- How deep a deposit is that a notification confirms.
use kaspa_frontier_engine.Base.{
  ℕ, ◌+◌, ◌-◌, ◌≤◌, ◌≡◌, refl, subst, inl, inr, Option, none, some, List, [], ◌∷◌, ◌++◌, arith, leb,
  Bool-cases, Option-cases, ok, Result-cases,
}
use kaspa_frontier_engine.Base.Lists.{All, All-append}
use kaspa_frontier_engine.Base.Eq.{nat_eq}
use kaspa_frontier_engine.Base.Text.{text_eq}
use kaspa_frontier_engine.Base.Map.{Map, AllEntries, contains}
use kaspa_frontier_engine.Base.Map.{lookup, insert}
use kaspa_frontier_engine.Wrpc.{
  RpcUtxoEntryRef, entry_key, to_appearance, required_depth, maturity_daa, to_confirmed,
}
use kaspa_frontier_engine.Outpoint.{Outpoint, outpoint_eq}
use kaspa_frontier_engine.Exchange.{ConfirmedDeposit}
use kaspa_frontier_engine.Wrpc.Projection.{Matured, mature_at, mature_keys, pop_mature}

-- The score at which an output is mature.
abbrev pub due : RpcUtxoEntryRef → ℕ
due entry = entry.utxo_entry.block_daa_score + required_depth entry.utxo_entry.is_coinbase

-- A deposit that is as deep at a score as its kind requires.
abbrev pub IsDeep : ℕ → ConfirmedDeposit → Type 0
IsDeep daa deposit =
    (deposit.block_daa_score + required_depth deposit.is_coinbase ≤ daa)
    × (deposit.confirmations ≡ daa - deposit.block_daa_score)

-- A key is scheduled no sooner than its live entry is mature.
abbrev pub NotSooner : Map Outpoint RpcUtxoEntryRef → ℕ → Outpoint → Type 0
NotSooner live m key = (entry : RpcUtxoEntryRef) → lookup key live ≡ some entry → due entry ≤ m

abbrev pub WellScheduled : Map Outpoint RpcUtxoEntryRef → Map ℕ (List Outpoint) → Type 0
WellScheduled live scheduled = AllEntries (λ m keys. All (NotSooner live m) keys) scheduled

-- An output that is scheduled already is not scheduled sooner than this entry of it is mature.
abbrev pub Unhurried : Map ℕ (List Outpoint) → RpcUtxoEntryRef → Type 0
Unhurried scheduled entry =
    AllEntries (λ m keys. All (λ key. key ≡ entry_key entry → due entry ≤ m) keys) scheduled

pub maturity_daa-due : (entry : RpcUtxoEntryRef) (n : ℕ) → maturity_daa entry ≡ ok n → n ≡ due entry
unfolding maturity_daa
maturity_daa-due entry n h = ground arith

pub to_confirmed-IsDeep :
    (entry : RpcUtxoEntryRef) (daa : ℕ) (deposit : ConfirmedDeposit)
    → to_confirmed entry daa ≡ ok deposit
    → due entry ≤ daa
    → IsDeep daa deposit
unfolding to_confirmed to_appearance
to_confirmed-IsDeep entry daa deposit h deep = elim (Option-cases entry.address) [
  | inl missing ↦ absurd (ground (arith, missing))
  | inr (address, found) ↦
      let block : deposit.block_daa_score ≡ entry.utxo_entry.block_daa_score =
        ground (arith, h, found) in
      let coinbase : deposit.is_coinbase ≡ entry.utxo_entry.is_coinbase =
        ground (arith, h, found) in
      let count : deposit.confirmations ≡ daa - entry.utxo_entry.block_daa_score =
        ground (arith, h, found) in
      (rw (block, coinbase) deep, rw (block, count) refl)
]

pub snoc-IsDeep :
    (daa : ℕ) (confirmed : List ConfirmedDeposit) (deposit : ConfirmedDeposit)
    → All (IsDeep daa) confirmed
    → IsDeep daa deposit
    → All (IsDeep daa) (confirmed ++ deposit ∷ [])
snoc-IsDeep daa confirmed deposit h deep =
    All-append (IsDeep daa) confirmed (deposit ∷ []) h (deep, tt)

mature_at-IsDeep :
    (daa : ℕ) (m m' : Matured) (key : Outpoint) (found : Option RpcUtxoEntryRef)
    → mature_at daa m key found ≡ ok m'
    → ((entry : RpcUtxoEntryRef) → found ≡ some entry → due entry ≤ daa)
    → All (IsDeep daa) m.1
    → All (IsDeep daa) m'.1
unfolding mature_at
mature_at-IsDeep daa (mature, confirmed) m' key none done come h =
    let same : (mature, confirmed) ≡ m' = ground (arith, done) in
    subst (λ (x : Matured). All (IsDeep daa) x.1) same h
mature_at-IsDeep daa (mature, confirmed) m' key (some entry) done come h =
    elim (Bool-cases (contains key mature)) [
      | inl before ↦
          let same : (mature, confirmed) ≡ m' = ground (arith, done, before) in
          subst (λ (x : Matured). All (IsDeep daa) x.1) same h
      | inr first ↦ elim (Result-cases (to_confirmed entry daa)) [
        | inl (deposit, made) ↦
            let same : (insert key tt mature, confirmed ++ deposit ∷ []) ≡ m' =
              ground (arith, done, first, made) in
            subst (λ (x : Matured). All (IsDeep daa) x.1) same
              (snoc-IsDeep daa confirmed deposit h
                (to_confirmed-IsDeep entry daa deposit made (come entry refl)))
        | inr (e, failed) ↦ absurd (ground (arith, first, failed))
      ]
    ]

mature_keys-IsDeep :
    (daa at : ℕ) (live : Map Outpoint RpcUtxoEntryRef) (m m' : Matured) (keys : List Outpoint)
    → at ≤ daa
    → All (NotSooner live at) keys
    → mature_keys daa live m keys ≡ ok m'
    → All (IsDeep daa) m.1
    → All (IsDeep daa) m'.1
unfolding mature_keys
mature_keys-IsDeep daa at live m m' [] come well done h =
    let same : m ≡ m' = ground (arith, done) in subst (λ (x : Matured). All (IsDeep daa) x.1) same h
mature_keys-IsDeep daa at live m m' (key ∷ keys) come well done h =
    elim (Result-cases (mature_at daa m key (lookup key live))) [
      | inl (mid, one) ↦ mature_keys-IsDeep daa at live mid m' keys come well.1 (rw one at done) (
          mature_at-IsDeep daa m mid key (lookup key live) one
            (λ entry found. let sooner = well.0 entry found in omega (arith, sooner, come)) h)
      | inr (e, failed) ↦ absurd (ground (arith, failed))
    ]

pub pop_mature-IsDeep :
    (daa : ℕ) (live : Map Outpoint RpcUtxoEntryRef) (m m' : Matured)
    (scheduled left : Map ℕ (List Outpoint))
    → WellScheduled live scheduled
    → pop_mature daa live m scheduled ≡ ok (m', left)
    → All (IsDeep daa) m.1
    → All (IsDeep daa) m'.1 × WellScheduled live left
unfolding pop_mature
pop_mature-IsDeep daa live m m' [] left well done h =
    let same : m ≡ m' = ground (arith, done) in
    let none_left : [] ≡ left = ground (arith, done) in
    (subst (λ (x : Matured). All (IsDeep daa) x.1) same h, subst (WellScheduled live) none_left tt)
pop_mature-IsDeep daa live m m' ((at, keys) ∷ rest) left well done h =
    elim (Bool-cases (leb at daa)) [
      | inr future ↦
          let same : m ≡ m' = ground (arith, done, future) in
          let kept : (at, keys) ∷ rest ≡ left = ground (arith, done, future) in
          (
            subst (λ (x : Matured). All (IsDeep daa) x.1) same h,
            subst (WellScheduled live) kept well,
          )
      | inl come ↦ elim (Result-cases (mature_keys daa live m keys)) [
        | inl (mid, one) ↦
            pop_mature-IsDeep daa live mid m' rest left well.1 (rw (come, one) at done)
              (mature_keys-IsDeep daa at live m mid keys (ground (arith, come)) well.0 one h)
        | inr (e, failed) ↦ absurd (ground (arith, come, failed))
      ]
    ]
