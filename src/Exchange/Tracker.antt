-- ===== src/Exchange/Tracker.antt =====
-- Pending deposits: none is lost, none is confirmed before its depth.
use kaspa_frontier_engine.Base.{
  ℕ, ◌+◌, ◌-◌, ◌≤◌, ◌<◌, ◌≡◌, refl, sym, subst, ◌⊎◌, inl, inr, Bool, true, ◌||◌, none, some, List,
  [], ◌∷◌, arith, leb, if◌then◌else◌, Bool-cases, is_some, saturating_sub,
}
use kaspa_frontier_engine.Base.Lists.{length, any, All}
use kaspa_frontier_engine.Base.Eq.{◌==◌, nat_eq}
use kaspa_frontier_engine.Base.Text.{text_eq}
use kaspa_frontier_engine.Base.Map.{
  Map, AllEntries, AllEntries-insert, contains, lookup-insert, lookup-erase,
}
use kaspa_frontier_engine.Base.Map.{lookup, insert}
use kaspa_frontier_engine.Outpoint.{Outpoint, outpoint_eq, outpoint_beq_iff}
use kaspa_frontier_engine.Exchange.{
  PendingDeposit, ConfirmedDeposit, UtxoAppearance, DepositTracker, pending_count, required,
  required_for, pending_key, confirmed_key, to_pending, to_confirmed, on_utxo_added,
  on_utxo_removed, retain_pending, on_virtual_daa,
}

-- A confirmed deposit has the depth that it needs, counted from its block.
abbrev pub IsDeep : ℕ → ℕ → ConfirmedDeposit → Type 0
IsDeep confirmations virtual_daa c =
    (c.confirmations ≡ virtual_daa - c.block_daa_score)
    × (required confirmations c.is_coinbase ≤ c.confirmations)

-- A pending deposit stands under its own key.
abbrev pub IsKeyed : DepositTracker → Type 0
IsKeyed tracker = AllEntries (λ k p. pending_key p ≡ k) tracker.pending

abbrev pub has_key : Outpoint → List ConfirmedDeposit → Bool
has_key k cs = any (λ c. k == confirmed_key c) cs

pub retain_pending-IsDeep :
    (r v : ℕ) (m : Map Outpoint PendingDeposit) → All (IsDeep r v) (retain_pending r v m).0
unfolding retain_pending
retain_pending-IsDeep r v [] = tt
retain_pending-IsDeep r v ((k, p) ∷ m) = ground (arith, retain_pending-IsDeep r v m)

pub retain_pending-shallow :
    (r v : ℕ) (m : Map Outpoint PendingDeposit)
    → AllEntries (λ k p. v - p.block_daa_score < required r p.is_coinbase) (retain_pending r v m).1
unfolding retain_pending
retain_pending-shallow r v [] = tt
retain_pending-shallow r v ((k, p) ∷ m) = ground (arith, retain_pending-shallow r v m)

retain_pending-length :
    (r v : ℕ) (m : Map Outpoint PendingDeposit)
    → length (retain_pending r v m).0 + length (retain_pending r v m).1 ≡ length m
unfolding retain_pending
retain_pending-length r v [] = refl
retain_pending-length r v ((k, p) ∷ m) = ground (arith, retain_pending-length r v m)

-- What holds of every entry holds of those that are kept.
pub retain_pending-All :
    (P : Outpoint → PendingDeposit → Type 0) (r v : ℕ) (m : Map Outpoint PendingDeposit)
    → AllEntries P m
    → AllEntries P (retain_pending r v m).1
unfolding retain_pending
retain_pending-All P r v [] h = tt
retain_pending-All P r v ((k, p) ∷ m) h = ground (arith, retain_pending-All P r v m h.1)

-- What holds of the key of every entry holds of the keys of those that are confirmed.
pub retain_pending-All_keys :
    (P : Outpoint → Type 0) (r v : ℕ) (m : Map Outpoint PendingDeposit)
    → AllEntries (λ k p. pending_key p ≡ k) m
    → AllEntries (λ k p. P k) m
    → All (λ c. P (confirmed_key c)) (retain_pending r v m).0
unfolding retain_pending
retain_pending-All_keys P r v [] keyed h = tt
retain_pending-All_keys P r v ((k, p) ∷ m) keyed h =
    let here : P (pending_key p) = subst P (sym keyed.0) h.0 in
    ground (arith, here, retain_pending-All_keys P r v m keyed.1 h.1)

-- A key that was pending is confirmed or kept.
pub retain_pending-has_key :
    (r v : ℕ) (m : Map Outpoint PendingDeposit) (k : Outpoint)
    → AllEntries (λ k p. pending_key p ≡ k) m
    → contains k m ≡ true
    → (has_key k (retain_pending r v m).0 || contains k (retain_pending r v m).1) ≡ true
unfolding retain_pending lookup
retain_pending-has_key r v [] k keyed h = h
retain_pending-has_key r v ((j, p) ∷ m) k keyed h =
    ground (arith, keyed.0, retain_pending-has_key r v m k keyed.1)

-- One update of the DAA score confirms exactly the deposits that are deep enough: what is confirmed
-- has its depth, what stays pending has not, and together they are as many as before.
pub on_virtual_daa_partition :
    (tracker : DepositTracker) (v : ℕ)
    → let (confirmed, tracker') = on_virtual_daa tracker v in
      All (IsDeep tracker.required_confirmations v) confirmed
      × AllEntries
          (λ k p. v - p.block_daa_score < required tracker.required_confirmations p.is_coinbase)
          tracker'.pending
      × (length confirmed + pending_count tracker' ≡ pending_count tracker)
      × (tracker'.required_confirmations ≡ tracker.required_confirmations)
unfolding on_virtual_daa
on_virtual_daa_partition tracker v =
    let r = tracker.required_confirmations in
    (
      retain_pending-IsDeep r v tracker.pending,
      retain_pending-shallow r v tracker.pending,
      retain_pending-length r v tracker.pending,
      refl,
    )

-- The two ways of an added output: confirmed at once, or pending.
pub on_utxo_added-cases :
    (tracker : DepositTracker) (seen : UtxoAppearance)
    → ((on_utxo_added tracker seen ≡ (
      some (to_confirmed (to_pending seen) (seen.virtual_daa - seen.block_daa_score)),
      tracker,
    ))
        × (required tracker.required_confirmations seen.is_coinbase
            ≤ seen.virtual_daa - seen.block_daa_score))
      ⊎ (on_utxo_added tracker seen ≡ (
        none,
        record tracker {
          pending = insert (pending_key (to_pending seen)) (to_pending seen) tracker.pending;
        },
      ))
unfolding on_utxo_added
on_utxo_added-cases tracker seen =
    elim (Bool-cases
      (leb (required_for tracker seen.is_coinbase) (seen.virtual_daa - seen.block_daa_score))) [
        | inl deep ↦ inl (rw deep, ground arith)
        | inr shallow ↦ inr (rw shallow)
      ]

pub on_utxo_added-IsKeyed :
    (tracker : DepositTracker) (seen : UtxoAppearance)
    → IsKeyed tracker
    → IsKeyed (on_utxo_added tracker seen).1
on_utxo_added-IsKeyed tracker seen h = elim (on_utxo_added-cases tracker seen) [
  | inl (at_once, _) ↦ rw at_once h
  | inr waits ↦ rw waits (
      AllEntries-insert (λ k p. pending_key p ≡ k) (pending_key (to_pending seen)) (to_pending seen)
        tracker.pending h refl)
]

retain_pending-deep :
    (r v : ℕ) (m : Map Outpoint PendingDeposit) (k : Outpoint) (p : PendingDeposit)
    → AllEntries (λ k p. pending_key p ≡ k) m
    → lookup k m ≡ some p
    → required r p.is_coinbase ≤ v - p.block_daa_score
    → has_key k (retain_pending r v m).0 ≡ true
unfolding retain_pending lookup
retain_pending-deep r v [] k p keyed found deep = cc
retain_pending-deep r v ((j, q) ∷ m) k p keyed found deep =
    ground (arith, keyed.0, retain_pending-deep r v m k p keyed.1)

-- On a tracker whose entries stand under their own keys, a deposit that is seen is confirmed at once,
-- or the update that follows confirms it if the deposit is deep enough at its DAA score.
pub added_then_confirmed :
    (tracker : DepositTracker) (seen : UtxoAppearance) (v : ℕ)
    → IsKeyed tracker
    → required_for tracker seen.is_coinbase ≤ v - seen.block_daa_score
    → let (hit, tracker') = on_utxo_added tracker seen in
      (is_some hit || has_key (pending_key (to_pending seen)) (on_virtual_daa tracker' v).0) ≡ true
unfolding on_utxo_added on_virtual_daa
added_then_confirmed tracker seen v keyed deep =
    let confirmations = saturating_sub seen.virtual_daa seen.block_daa_score in
    let key = pending_key (to_pending seen) in
    elim (Bool-cases (leb (required_for tracker seen.is_coinbase) confirmations)) [
      | inl at_once ↦ rw at_once
      | inr shallow ↦ rw shallow (
          retain_pending-deep tracker.required_confirmations v
            (insert key (to_pending seen) tracker.pending) key (to_pending seen)
            (AllEntries-insert (λ k p. pending_key p ≡ k) key (to_pending seen) tracker.pending
              keyed refl)
            (ground (
              arith,
              lookup-insert key key (to_pending seen) tracker.pending,
              outpoint_beq_iff key key,
            ))
            (unfold required_for in deep))
    ]

-- A removed deposit is no longer pending, and the others stay.
pub on_utxo_removed_lem :
    (tracker : DepositTracker) (key k : Outpoint)
    → let (found, tracker') = on_utxo_removed tracker key in
      (found ≡ contains key tracker.pending)
      × (lookup k tracker'.pending ≡ (if k == key then none else lookup k tracker.pending))
unfolding on_utxo_removed
on_utxo_removed_lem tracker key k = (refl, lookup-erase k key tracker.pending)
