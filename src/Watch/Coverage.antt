-- ===== src/Watch/Coverage.antt =====
-- A tick of the watcher against the snapshot that it is given.
use kaspa_frontier_engine.Base.{ℕ, ◌≡◌, refl, sym, ◌∙◌, Bool, true, ◌||◌, List, [], ◌∷◌, arith}
use kaspa_frontier_engine.Base.Lists.{any, All, All-imp}
use kaspa_frontier_engine.Base.Eq.{◌==◌, nat_eq}
use kaspa_frontier_engine.Base.Text.{text_eq}
use kaspa_frontier_engine.Base.Map.{
  Set, AllEntries, AllEntries-imp, contains, lookup-empty, lookup-insert,
}
use kaspa_frontier_engine.Base.Map.{lookup, insert}
use kaspa_frontier_engine.Outpoint.{Outpoint, outpoint_eq, outpoint_beq_iff}
use kaspa_frontier_engine.Exchange
use kaspa_frontier_engine.Exchange.{
  PendingDeposit, ConfirmedDeposit, UtxoAppearance, DepositTracker, pending_count, required,
  required_for, pending_key, confirmed_key, to_pending, to_confirmed, on_utxo_added,
  on_utxo_removed, retain_pending, on_virtual_daa, ConfirmedWithdrawal, WithdrawalUtxo,
  WithdrawalExpectation, daa_confirmations, matches_expected, confirm_one, find_map,
  confirm_withdrawal, with_default_confirmations,
}
use kaspa_frontier_engine.Exchange.Tracker.{IsDeep, has_key}
use kaspa_frontier_engine.Watch.{AddressUtxo, DepositWatch, collect, credit, candidates, apply, new}
use kaspa_frontier_engine.Watch.Loops.{
  IsSnapshot, collect-IsSnapshot, collect-contains, contains-seen,
}
use kaspa_frontier_engine.Watch.Candidates.{
  IsConsistent, candidates-current, candidates-cover, candidates-IsDeep, candidates-IsKeyed,
  candidates-watched,
}

-- What crediting keeps, and what it leaves credited.
credit-All :
    (P : ConfirmedDeposit → Type 0) (s : Set Outpoint) (cs : List ConfirmedDeposit)
    → All P cs
    → All P (credit s cs).0
unfolding credit
credit-All P s [] h = tt
credit-All P s (c ∷ cs) h = ground (arith, credit-All P (insert (confirmed_key c) tt s) cs h.1)

credit-contains :
    (s : Set Outpoint) (cs : List ConfirmedDeposit) (k : Outpoint)
    → (contains k s || has_key k cs) ≡ true
    → contains k (credit s cs).1 ≡ true
unfolding credit
credit-contains s [] k h = ground arith
credit-contains s (c ∷ cs) k h = ground (
  arith,
  credit-contains (insert (confirmed_key c) tt s) cs k,
  lookup-insert k (confirmed_key c) tt s,
)

-- The snapshot of a tick holds an outpoint.
abbrev pub in_snapshot : Outpoint → List AddressUtxo → Bool
in_snapshot k utxos = any (λ u. k == u.outpoint) utxos

-- The outpoint is pending or credited.
abbrev pub IsHeld : Outpoint → DepositWatch → Type 0
IsHeld k watch = (contains k watch.tracker.pending || contains k watch.credited) ≡ true

All-snapshot :
    (P : Outpoint → Type 0) (utxos : List AddressUtxo)
    → ((k : Outpoint) → in_snapshot k utxos ≡ true → P k)
    → All (λ u. P u.outpoint) utxos
All-snapshot P [] f = tt
All-snapshot P (u ∷ us) f = (
  f u.outpoint (ground (arith, (outpoint_beq_iff u.outpoint u.outpoint).1 refl)),
  All-snapshot P us (λ k h. f k (ground (arith, h))),
)

module _ (watch : DepositWatch) (v : ℕ) (utxos : List AddressUtxo)
    (before : IsConsistent watch) where
  collected-IsSnapshot : IsSnapshot (collect [] utxos)
  collected-IsSnapshot = collect-IsSnapshot [] utxos tt

  apply-keeps : IsConsistent (apply watch v utxos).1
  unfolding apply
  apply-keeps =
      let current = collect [] utxos in
      record {
        keyed = candidates-IsKeyed watch v current collected-IsSnapshot before;
        watched =
            AllEntries-imp (λ k p. contains k current ≡ true) _ _
              (λ k p h. rw (contains-seen k current) h)
              (candidates-watched watch v current collected-IsSnapshot before);
        covered = λ k h. ground (
          arith,
          candidates-cover watch v current collected-IsSnapshot before k,
          contains-seen k current,
          credit-contains watch.credited (candidates watch v current).0 k,
        );
      }

  -- The watcher remembers the outpoints of the snapshot and no others.
  seen-in_snapshot : (k : Outpoint) → contains k (apply watch v utxos).1.seen ≡ in_snapshot k utxos
  unfolding apply
  seen-in_snapshot k =
      let current = collect [] utxos in
      ground (
        arith,
        contains-seen k current,
        collect-contains k [] utxos,
        lookup-empty {V = AddressUtxo} k,
      )

  -- A tick leads from a consistent watcher to a consistent one (see `IsConsistent`). Afterwards every
  -- output of the tick's snapshot is pending or credited, so that none is lost, and what is pending
  -- stands in the snapshot.
  pub apply-IsConsistent :
      IsConsistent (apply watch v utxos).1
      × All (λ u. IsHeld u.outpoint (apply watch v utxos).1) utxos
      × AllEntries (λ k p. in_snapshot k utxos ≡ true) (apply watch v utxos).1.tracker.pending
  apply-IsConsistent =
      let kept = apply-keeps in
      (
        kept,
        All-snapshot (λ k. IsHeld k (apply watch v utxos).1) utxos
            (λ k h. kept.covered k (seen-in_snapshot k ∙ h)),
        AllEntries-imp (λ k p. contains k (apply watch v utxos).1.seen ≡ true) _ _
            (λ k p h. sym (seen-in_snapshot k) ∙ h) kept.watched,
      )

  -- What a tick reports as confirmed stands in its snapshot, is as deep as it has to be (a coinbase
  -- output at least its maturity), and its depth is counted from its block.
  pub confirmed-in_snapshot :
      All (λ c. in_snapshot (confirmed_key c) utxos ≡ true) (apply watch v utxos).0.confirmed
      × All (IsDeep watch.tracker.required_confirmations v) (apply watch v utxos).0.confirmed
  unfolding apply
  confirmed-in_snapshot =
      let current = collect [] utxos in
      (
        credit-All (λ c. in_snapshot (confirmed_key c) utxos ≡ true) watch.credited _
            (All-imp (λ c. contains (confirmed_key c) current ≡ true) _
              (λ c h. ground (
                arith,
                collect-contains (confirmed_key c) [] utxos,
                lookup-empty {V = AddressUtxo} (confirmed_key c),
              ))
              _ (candidates-current watch v current collected-IsSnapshot before)),
        credit-All (IsDeep watch.tracker.required_confirmations v) watch.credited _
            (candidates-IsDeep watch v current collected-IsSnapshot before),
      )

pub new-IsConsistent : (r : ℕ) → IsConsistent (new r)
unfolding new Exchange.new lookup
new-IsConsistent r = record { keyed = tt; watched = tt; covered = λ k h. h }
