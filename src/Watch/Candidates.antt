-- ===== src/Watch/Candidates.antt =====
-- The candidates of a tick of the watcher, before the credited ones are left out.
use kaspa_frontier_engine.Base.{ℕ, ◌≡◌, subst, ◌∙◌, inl, inr, true, ◌||◌, arith, Bool-cases}
use kaspa_frontier_engine.Base.Lists.{any-append, All, All-append}
use kaspa_frontier_engine.Base.Eq.{◌==◌, nat_eq}
use kaspa_frontier_engine.Base.Text.{text_eq}
use kaspa_frontier_engine.Base.Map.{Map, AllEntries, AllEntries-imp, AllEntries-contains, contains}
use kaspa_frontier_engine.Outpoint.{Outpoint, outpoint_eq}
use kaspa_frontier_engine.Exchange.{
  DepositTracker, pending_key, confirmed_key, retain_pending, on_virtual_daa,
}
use kaspa_frontier_engine.Exchange.Tracker.{
  IsDeep, IsKeyed, has_key, retain_pending-IsDeep, retain_pending-All, retain_pending-All_keys,
  retain_pending-has_key,
}
use kaspa_frontier_engine.Watch.{AddressUtxo, DepositWatch, add_new, drop_gone, candidates}
use kaspa_frontier_engine.Watch.Loops.{
  IsSnapshot, AllEntries-outpoint, add_new-All, add_new-hits, add_new-required, add_new-IsKeyed,
  add_new-IsDeep, add_new-contains, add_new-covers, drop_gone-lookup, drop_gone-All,
  drop_gone-current, drop_gone-required,
}

-- Every pending outpoint was in the last snapshot, under its own key, and every outpoint of the last
-- snapshot is pending or credited.
pub record IsConsistent (watch : DepositWatch) : Type 0 where
  pub keyed : IsKeyed watch.tracker
  pub watched : AllEntries (λ k p. contains k watch.seen ≡ true) watch.tracker.pending
  pub covered :
      (k : Outpoint)
      → contains k watch.seen ≡ true
      → (contains k watch.tracker.pending || contains k watch.credited) ≡ true

-- The trackers after the two loops of a tick.
abbrev first_tracker : DepositWatch → ℕ → Map Outpoint AddressUtxo → DepositTracker
first_tracker watch v current = (add_new v watch.seen watch.tracker current).2

abbrev second_tracker : DepositWatch → ℕ → Map Outpoint AddressUtxo → DepositTracker
second_tracker watch v current = (drop_gone current (first_tracker watch v current) watch.seen).1

module _ (watch : DepositWatch) (v : ℕ) (current : Map Outpoint AddressUtxo)
    (snap : IsSnapshot current) (before : IsConsistent watch) where
  keyed₂ : IsKeyed (second_tracker watch v current)
  keyed₂ =
      drop_gone-All (λ k p. pending_key p ≡ k) current (first_tracker watch v current) watch.seen
        (add_new-IsKeyed v watch.seen watch.tracker current before.keyed)

  -- After the first loop every pending key was seen or stands in the snapshot.
  seen_or_current :
      AllEntries
        (λ k p. (contains k watch.seen || contains k current) ≡ true)
        (first_tracker watch v current).pending
  seen_or_current =
      add_new-All (λ k. (contains k watch.seen || contains k current) ≡ true) v watch.seen
        watch.tracker current
        (AllEntries-outpoint (λ k. (contains k watch.seen || contains k current) ≡ true) current
          snap
          (AllEntries-imp (λ k u. contains k current ≡ true) _ current (λ k u h. ground arith)
            (AllEntries-contains current)))
        (AllEntries-imp (λ k p. contains k watch.seen ≡ true) _ watch.tracker.pending
          (λ k p h. ground arith) before.watched)

  pending_current :
      AllEntries (λ k p. contains k current ≡ true) (second_tracker watch v current).pending
  pending_current =
      drop_gone-current current (first_tracker watch v current) watch.seen seen_or_current

  -- Every candidate stands in the snapshot.
  pub candidates-current :
      All (λ c. contains (confirmed_key c) current ≡ true) (candidates watch v current).0
  unfolding candidates on_virtual_daa
  candidates-current =
      All-append (λ c. contains (confirmed_key c) current ≡ true)
        (retain_pending (second_tracker watch v current).required_confirmations v
          (second_tracker watch v current).pending).0
        (add_new v watch.seen watch.tracker current).1
        (retain_pending-All_keys (λ k. contains k current ≡ true) _ v
          (second_tracker watch v current).pending keyed₂ pending_current)
        (add_new-hits (λ k. contains k current ≡ true) v watch.seen watch.tracker current
          (AllEntries-outpoint (λ k. contains k current ≡ true) current snap
            (AllEntries-contains current)))

  -- Every outpoint of the snapshot that was not credited is a candidate or pending.
  pub candidates-cover :
      (k : Outpoint)
      → contains k current ≡ true
      → (contains k watch.credited
          || has_key k (candidates watch v current).0
          || contains k (candidates watch v current).1.pending)
        ≡ true
  unfolding candidates on_virtual_daa
  candidates-cover k h =
      let first = first_tracker watch v current in
      let second = second_tracker watch v current in
      let gone = drop_gone-lookup current first watch.seen k in
      let kept = retain_pending-has_key second.required_confirmations v second.pending k keyed₂ in
      let split =
        any-append (λ c. k == confirmed_key c)
          (retain_pending second.required_confirmations v second.pending).0
          (add_new v watch.seen watch.tracker current).1 in
      elim (Bool-cases (contains k watch.seen)) [
        | inl old ↦ ground (
          arith,
          gone,
          kept,
          split,
          before.covered k old,
          add_new-contains v watch.seen watch.tracker current k,
        )
        | inr fresh ↦ ground (
          arith,
          gone,
          kept,
          split,
          add_new-covers v watch.seen watch.tracker current k snap h fresh,
        )
      ]

  pub candidates-IsDeep :
      All (IsDeep watch.tracker.required_confirmations v) (candidates watch v current).0
  unfolding candidates on_virtual_daa
  candidates-IsDeep =
      let second = second_tracker watch v current in
      let same : second.required_confirmations ≡ watch.tracker.required_confirmations =
        drop_gone-required current (first_tracker watch v current) watch.seen
        ∙ add_new-required v watch.seen watch.tracker current in
      All-append (IsDeep watch.tracker.required_confirmations v)
        (retain_pending second.required_confirmations v second.pending).0
        (add_new v watch.seen watch.tracker current).1
        (subst
          (λ r. All (IsDeep r v) (retain_pending second.required_confirmations v second.pending).0)
          same (retain_pending-IsDeep second.required_confirmations v second.pending))
        (add_new-IsDeep v watch.seen watch.tracker current)

  pub candidates-IsKeyed : IsKeyed (candidates watch v current).1
  unfolding candidates on_virtual_daa
  candidates-IsKeyed = retain_pending-All (λ k p. pending_key p ≡ k) _ v _ keyed₂

  pub candidates-watched :
      AllEntries (λ k p. contains k current ≡ true) (candidates watch v current).1.pending
  unfolding candidates on_virtual_daa
  candidates-watched = retain_pending-All (λ k p. contains k current ≡ true) _ v _ pending_current
