-- ===== src/Watch/Loops.antt =====
-- The two loops of a tick, one entry at a time: what they keep, add and drop.
use kaspa_frontier_engine.Base.{
  ℕ, ◌-◌, ◌≤◌, ◌≡◌, refl, sym, subst, ◌∙◌, ◌⊎◌, inl, inr, true, false, not, ◌&&◌, ◌||◌, Option,
  none, some, List, [], ◌∷◌, map, arith, if◌then◌else◌, Bool-cases,
}
use kaspa_frontier_engine.Base.Lists.{any, All}
use kaspa_frontier_engine.Base.Eq.{◌==◌, nat_eq}
use kaspa_frontier_engine.Base.Text.{text_eq}
use kaspa_frontier_engine.Base.Map.{
  Map, Set, AllEntries, AllEntries-insert, AllEntries-erase, AllEntries-imp, contains,
  lookup-insert, lookup-erase,
}
use kaspa_frontier_engine.Base.Map.{lookup, insert, erase}
use kaspa_frontier_engine.Outpoint.{Outpoint, outpoint_eq, outpoint_beq, outpoint_beq_iff}
use kaspa_frontier_engine.Exchange.{
  PendingDeposit, ConfirmedDeposit, DepositTracker, required, pending_key, confirmed_key,
  to_pending, to_confirmed, on_utxo_removed,
}
use kaspa_frontier_engine.Exchange.Tracker.{IsDeep, IsKeyed, has_key, on_utxo_added-cases}
use kaspa_frontier_engine.Watch.{
  AddressUtxo, collect, appearance, push, add_one, add_new, drop_gone,
}

-- The entries of a collected snapshot stand under their outpoints.
abbrev pub IsSnapshot : Map Outpoint AddressUtxo → Type 0
IsSnapshot current = AllEntries (λ k u. u.outpoint ≡ k) current

pub collect-IsSnapshot :
    (m : Map Outpoint AddressUtxo) (us : List AddressUtxo)
    → IsSnapshot m
    → IsSnapshot (collect m us)
unfolding collect
collect-IsSnapshot m [] h = h
collect-IsSnapshot m (u ∷ us) h =
    collect-IsSnapshot (insert u.outpoint u m) us
      (AllEntries-insert (λ k v. v.outpoint ≡ k) u.outpoint u m h refl)

pub collect-contains :
    (k : Outpoint) (m : Map Outpoint AddressUtxo) (us : List AddressUtxo)
    → contains k (collect m us) ≡ (contains k m || any (λ u. k == u.outpoint) us)
unfolding collect
collect-contains k m [] = ground arith
collect-contains k m (u ∷ us) =
    ground (arith, collect-contains k (insert u.outpoint u m) us, lookup-insert k u.outpoint u m)

pub contains-seen :
    (k : Outpoint) (m : Map Outpoint AddressUtxo)
    → contains {V = Unit {0}} k (map (λ ku. (ku.0, tt)) m) ≡ contains k m
unfolding lookup
contains-seen k [] = refl
contains-seen k ((j, u) ∷ m) = ground (arith, contains-seen k m)

-- What holds of every key holds of every entry's own outpoint.
pub AllEntries-outpoint :
    (P : Outpoint → Type 0) (m : Map Outpoint AddressUtxo)
    → IsSnapshot m
    → AllEntries (λ k u. P k) m
    → AllEntries (λ k u. P u.outpoint) m
AllEntries-outpoint P [] snap h = tt
AllEntries-outpoint P ((k, u) ∷ m) snap h =
    (subst P (sym snap.0) h.0, AllEntries-outpoint P m snap.1 h.1)

All-push :
    (P : ConfirmedDeposit → Type 0) (hit : Option ConfirmedDeposit) (cs : List ConfirmedDeposit)
    → All P (push hit [])
    → All P cs
    → All P (push hit cs)
All-push P none cs h hs = hs
All-push P (some c) cs h hs = (h.0, hs)

-- One entry of the first loop: it was seen, it is deep enough at once, or it becomes pending.
add_one-cases :
    (v : ℕ) (seen : Set Outpoint) (tracker : DepositTracker) (key : Outpoint) (u : AddressUtxo)
    → ((contains key seen ≡ true) × (add_one v seen tracker key u ≡ (none, tracker)))
      ⊎ ((add_one v seen tracker key u ≡ (
        some (to_confirmed (to_pending (appearance v u)) (v - u.utxo_entry.block_daa_score)),
        tracker,
      ))
          × (required tracker.required_confirmations u.utxo_entry.is_coinbase
              ≤ v - u.utxo_entry.block_daa_score))
      ⊎ (add_one v seen tracker key u ≡ (
        none,
        record tracker {
          pending = insert u.outpoint (to_pending (appearance v u)) tracker.pending;
        },
      ))
unfolding add_one
add_one-cases v seen tracker key u = elim (Bool-cases (contains key seen)) [
  | inl old ↦ inl (old, rw old)
  | inr fresh ↦ elim (on_utxo_added-cases tracker (appearance v u)) [
    | inl (at_once, deep) ↦ inr (inl (rw (fresh, at_once), deep))
    | inr waits ↦ inr (inr (rw (fresh, waits)))
  ]
]

module _ (P : Outpoint → Type 0) (v : ℕ) (seen : Set Outpoint) where
  -- The first loop keeps what holds of the pending keys, if it holds of those that it adds.
  add_one-All :
      (tracker : DepositTracker) (key : Outpoint) (u : AddressUtxo)
      → P u.outpoint
      → AllEntries (λ k p. P k) tracker.pending
      → AllEntries (λ k p. P k) (add_one v seen tracker key u).1.pending
  add_one-All tracker key u p h = elim (add_one-cases v seen tracker key u) [
    | inl (_, old) ↦ rw old h
    | inr (inl (at_once, _)) ↦ rw at_once h
    | inr (inr waits) ↦ rw waits (
        AllEntries-insert (λ k p. P k) u.outpoint (to_pending (appearance v u)) tracker.pending h p)
  ]

  pub add_new-All :
      (tracker : DepositTracker) (m : Map Outpoint AddressUtxo)
      → AllEntries (λ k u. P u.outpoint) m
      → AllEntries (λ k p. P k) tracker.pending
      → AllEntries (λ k p. P k) (add_new v seen tracker m).2.pending
  unfolding add_new
  add_new-All tracker [] hm h = h
  add_new-All tracker ((key, u) ∷ m) hm h =
      add_new-All (add_one v seen tracker key u).1 m hm.1 (add_one-All tracker key u hm.0 h)

  -- What holds of the outpoints of a snapshot holds of the deposits confirmed at once.
  add_one-hit :
      (tracker : DepositTracker) (key : Outpoint) (u : AddressUtxo)
      → P u.outpoint
      → All (λ c. P (confirmed_key c)) (push (add_one v seen tracker key u).0 [])
  add_one-hit tracker key u p = elim (add_one-cases v seen tracker key u) [
    | inl (_, old) ↦ rw old tt
    | inr (inl (at_once, _)) ↦ rw at_once (p, tt)
    | inr (inr waits) ↦ rw waits tt
  ]

  pub add_new-hits :
      (tracker : DepositTracker) (m : Map Outpoint AddressUtxo)
      → AllEntries (λ k u. P u.outpoint) m
      → All (λ c. P (confirmed_key c)) (add_new v seen tracker m).1
  unfolding add_new
  add_new-hits tracker [] hm = tt
  add_new-hits tracker ((key, u) ∷ m) hm =
      All-push (λ c. P (confirmed_key c)) (add_one v seen tracker key u).0 _
        (add_one-hit tracker key u hm.0) (add_new-hits (add_one v seen tracker key u).1 m hm.1)

module _ (v : ℕ) (seen : Set Outpoint) where
  add_one-required :
      (tracker : DepositTracker) (key : Outpoint) (u : AddressUtxo)
      → (add_one v seen tracker key u).1.required_confirmations ≡ tracker.required_confirmations
  add_one-required tracker key u = elim (add_one-cases v seen tracker key u) [
    | inl (_, old) ↦ rw old
    | inr (inl (at_once, _)) ↦ rw at_once
    | inr (inr waits) ↦ rw waits
  ]

  pub add_new-required :
      (tracker : DepositTracker) (m : Map Outpoint AddressUtxo)
      → (add_new v seen tracker m).2.required_confirmations ≡ tracker.required_confirmations
  unfolding add_new
  add_new-required tracker [] = refl
  add_new-required tracker ((key, u) ∷ m) =
      add_new-required (add_one v seen tracker key u).1 m ∙ add_one-required tracker key u

  pub add_new-IsKeyed :
      (tracker : DepositTracker) (m : Map Outpoint AddressUtxo)
      → IsKeyed tracker
      → IsKeyed (add_new v seen tracker m).2
  unfolding add_new
  add_new-IsKeyed tracker [] h = h
  add_new-IsKeyed tracker ((key, u) ∷ m) h =
      add_new-IsKeyed (add_one v seen tracker key u).1 m
        (elim (add_one-cases v seen tracker key u) [
          | inl (_, old) ↦ rw old h
          | inr (inl (at_once, _)) ↦ rw at_once h
          | inr (inr waits) ↦ rw waits (
              AllEntries-insert (λ k p. pending_key p ≡ k) u.outpoint (to_pending (appearance v u))
                tracker.pending h refl)
        ])

  -- The deposits that the first loop confirms are deep enough.
  pub add_new-IsDeep :
      (tracker : DepositTracker) (m : Map Outpoint AddressUtxo)
      → All (IsDeep tracker.required_confirmations v) (add_new v seen tracker m).1
  unfolding add_new
  add_new-IsDeep tracker [] = tt
  add_new-IsDeep tracker ((key, u) ∷ m) =
      let rest =
        rw (add_one-required tracker key u) at
          (add_new-IsDeep (add_one v seen tracker key u).1 m) in
      All-push (IsDeep tracker.required_confirmations v) (add_one v seen tracker key u).0 _
        (elim (add_one-cases v seen tracker key u) [
          | inl (_, old) ↦ rw old tt
          | inr (inl (at_once, deep)) ↦ rw at_once ((refl, deep), tt)
          | inr (inr waits) ↦ rw waits tt
        ])
        rest

  has_key-push :
      (k : Outpoint) (hit : Option ConfirmedDeposit) (cs : List ConfirmedDeposit)
      → has_key k (push hit cs) ≡ (has_key k (push hit []) || has_key k cs)
  has_key-push k none cs = refl
  has_key-push k (some c) cs = ground arith

  -- A pending key stays pending.
  add_one-contains :
      (tracker : DepositTracker) (key k : Outpoint) (u : AddressUtxo)
      → contains k tracker.pending ≡ true
      → contains k (add_one v seen tracker key u).1.pending ≡ true
  add_one-contains tracker key k u h = elim (add_one-cases v seen tracker key u) [
    | inl (_, old) ↦ rw old h
    | inr (inl (at_once, _)) ↦ rw at_once h
    | inr (inr waits) ↦
        rw waits
          (ground (arith, lookup-insert k u.outpoint (to_pending (appearance v u)) tracker.pending))
  ]

  pub add_new-contains :
      (tracker : DepositTracker) (m : Map Outpoint AddressUtxo) (k : Outpoint)
      → contains k tracker.pending ≡ true
      → contains k (add_new v seen tracker m).2.pending ≡ true
  unfolding add_new
  add_new-contains tracker [] k h = h
  add_new-contains tracker ((key, u) ∷ m) k h =
      add_new-contains (add_one v seen tracker key u).1 m k (add_one-contains tracker key k u h)

  -- A new key is confirmed at once or pending.
  add_one-covers :
      (tracker : DepositTracker) (key k : Outpoint) (u : AddressUtxo)
      → u.outpoint ≡ k
      → contains key seen ≡ false
      → (has_key k (push (add_one v seen tracker key u).0 [])
          || contains k (add_one v seen tracker key u).1.pending)
        ≡ true
  add_one-covers tracker key k u own fresh = elim (add_one-cases v seen tracker key u) [
    | inl (seen_before, _) ↦ absurd (cc)
    | inr (inl (at_once, _)) ↦ rw at_once (ground (arith, outpoint_beq_iff k u.outpoint))
    | inr (inr waits) ↦ rw waits (
        ground (
          arith,
          lookup-insert k u.outpoint (to_pending (appearance v u)) tracker.pending,
          outpoint_beq_iff k u.outpoint,
        ))
  ]

  pub add_new-covers :
      (tracker : DepositTracker) (m : Map Outpoint AddressUtxo) (k : Outpoint)
      → IsSnapshot m
      → contains k m ≡ true
      → contains k seen ≡ false
      → (has_key k (add_new v seen tracker m).1 || contains k (add_new v seen tracker m).2.pending)
        ≡ true
  unfolding add_new lookup
  add_new-covers tracker [] k snap h fresh = cc
  add_new-covers tracker ((key, u) ∷ m) k snap h fresh =
      let tracker' = (add_one v seen tracker key u).1 in
      let hit = (add_one v seen tracker key u).0 in
      let pushed = has_key-push k hit (add_new v seen tracker' m).1 in
      elim (Bool-cases (outpoint_beq k key)) [
        | inl same ↦
            let path = (outpoint_beq_iff k key).0 same in
            ground (
              arith,
              pushed,
              add_one-covers tracker key k u (snap.0 ∙ sym path)
                  (subst (λ j. contains j seen ≡ false) path fresh),
              add_new-contains tracker' m k,
            )
        | inr differ ↦
            ground (arith, pushed, add_new-covers tracker' m k snap.1 (ground arith) fresh)
      ]

-- The second loop drops the pending outputs that were seen and are gone, and nothing else.
pub drop_gone-lookup :
    (current : Map Outpoint AddressUtxo) (tracker : DepositTracker) (seen : Set Outpoint)
    (k : Outpoint)
    → lookup k (drop_gone current tracker seen).1.pending
      ≡ (if contains k seen && not (contains k current) then none else lookup k tracker.pending)
unfolding drop_gone lookup on_utxo_removed
drop_gone-lookup current tracker [] k = refl
drop_gone-lookup current tracker ((key, _) ∷ seen) k = elim (Bool-cases (contains key current)) [
  | inl here ↦
      rw here (ground (arith, drop_gone-lookup current tracker seen k, outpoint_beq_iff k key))
  | inr gone ↦
      let tracker' = record tracker { pending = erase key tracker.pending } in
      rw gone (
        ground (
          arith,
          drop_gone-lookup current tracker' seen k,
          lookup-erase k key tracker.pending,
          outpoint_beq_iff k key,
        ))
]

pub drop_gone-All :
    (P : Outpoint → PendingDeposit → Type 0) (current : Map Outpoint AddressUtxo)
    (tracker : DepositTracker) (seen : Set Outpoint)
    → AllEntries P tracker.pending
    → AllEntries P (drop_gone current tracker seen).1.pending
unfolding drop_gone on_utxo_removed
drop_gone-All P current tracker [] h = h
drop_gone-All P current tracker ((key, _) ∷ seen) h = elim (Bool-cases (contains key current)) [
  | inl here ↦ rw here (drop_gone-All P current tracker seen h)
  | inr gone ↦
      let tracker' = record tracker { pending = erase key tracker.pending } in
      rw gone (
        drop_gone-All P current tracker' seen (
          AllEntries-erase P key tracker.pending
            (AllEntries-imp P _ tracker.pending (λ k p x _. x) h)))
]

-- What is pending after it and was seen stands in the snapshot.
pub drop_gone-current :
    (current : Map Outpoint AddressUtxo) (tracker : DepositTracker) (seen : Set Outpoint)
    → AllEntries (λ k p. (contains k seen || contains k current) ≡ true) tracker.pending
    → AllEntries (λ k p. contains k current ≡ true) (drop_gone current tracker seen).1.pending
unfolding drop_gone lookup on_utxo_removed
drop_gone-current current tracker [] h = h
drop_gone-current current tracker ((key, gone_unit) ∷ seen) h =
    elim (Bool-cases (contains key current)) [
      | inl here ↦ rw here (
          drop_gone-current current tracker seen (
            AllEntries-imp
              (λ k p. (contains k ((key, gone_unit) ∷ seen) || contains k current) ≡ true)
              (λ k p. (contains k seen || contains k current) ≡ true) tracker.pending
              (λ k p x. ground (arith, outpoint_beq_iff k key)) h))
      | inr gone ↦
          let tracker' = record tracker { pending = erase key tracker.pending } in
          rw gone (
            drop_gone-current current tracker' seen (
              AllEntries-erase (λ k p. (contains k seen || contains k current) ≡ true) key
                tracker.pending
                (AllEntries-imp
                  (λ k p. (contains k ((key, gone_unit) ∷ seen) || contains k current) ≡ true)
                  (λ k p.
                    outpoint_beq key k ≡ false → (contains k seen || contains k current) ≡ true)
                  tracker.pending
                  (λ k p x differ. ground (arith, outpoint_beq_iff k key, outpoint_beq_iff key k))
                  h)))
    ]

pub drop_gone-required :
    (current : Map Outpoint AddressUtxo) (tracker : DepositTracker) (seen : Set Outpoint)
    → (drop_gone current tracker seen).1.required_confirmations ≡ tracker.required_confirmations
unfolding drop_gone on_utxo_removed
drop_gone-required current tracker [] = refl
drop_gone-required current tracker ((key, _) ∷ seen) = elim (Bool-cases (contains key current)) [
  | inl here ↦ rw here (drop_gone-required current tracker seen)
  | inr gone ↦
      rw gone
        (drop_gone-required current (record tracker { pending = erase key tracker.pending }) seen)
]
