-- ===== src/Wrpc/Rebuilt.antt =====
-- A projection that was rebuilt from a scan: what it holds, and what it confirms.
use kaspa_frontier_engine.Base.{
  ℕ, ◌≤◌, ◌≡◌, refl, subst, inl, inr, Bool, true, false, ◌||◌, some, List, [], ◌∷◌, ◌++◌, arith,
  ltb, leb, Bool-cases, ok, Result-cases,
}
use kaspa_frontier_engine.Base.Lists.{any, All}
use kaspa_frontier_engine.Base.Eq.{nat_eq}
use kaspa_frontier_engine.Base.Text.{Text, text_eq}
use kaspa_frontier_engine.Base.Map.{Map, Set, AllEntries, AllEntries-imp, contains, lookup-empty}
use kaspa_frontier_engine.Base.Map.{lookup}
use kaspa_frontier_engine.Wrpc.{
  RpcUtxoEntryRef, validate_entry, entry_key, validate_watched_addresses, to_appearance,
  maturity_daa, to_confirmed,
}
use kaspa_frontier_engine.Base.Ordered.{
  insert_ordered, lookup-insert_ordered, AllEntries-insert_ordered,
}
use kaspa_frontier_engine.Outpoint.{Outpoint, outpoint_eq, outpoint_beq, outpoint_beq_iff}
use kaspa_frontier_engine.Wrpc.Projection.{
  WrpcDepositSnapshot, WrpcDepositProjection, point_before, schedule, Changes, no_changes,
}
use kaspa_frontier_engine.Wrpc.Bootstrap.{
  AddressUtxo, entry_of, replace_all, schedule_all, Shown, confirm_shown, show_one, show_all,
  full_snapshot, bootstrap_addresses,
}
use kaspa_frontier_engine.Wrpc.Projection.Maturity.{
  due, IsDeep, NotSooner, WellScheduled, maturity_daa-due, to_confirmed-IsDeep, snoc-IsDeep,
}
use kaspa_frontier_engine.Wrpc.Projection.Deep.{schedule-All}

-- Every entry is the one that its key finds.
abbrev Findable : Map Outpoint RpcUtxoEntryRef → Map Outpoint RpcUtxoEntryRef → Type 0
Findable whole part = AllEntries (λ key entry. lookup key whole ≡ some entry) part

insert-Findable :
    (key : Outpoint) (entry : RpcUtxoEntryRef) (m : Map Outpoint RpcUtxoEntryRef)
    → contains key m ≡ false
    → Findable m m
    → Findable (insert_ordered point_before key entry m) (insert_ordered point_before key entry m)
insert-Findable key entry m fresh h =
    let whole = insert_ordered point_before key entry m in
    AllEntries-insert_ordered point_before (λ k e. lookup k whole ≡ some e) key entry m
      (AllEntries-imp (λ k e. lookup k m ≡ some e) (λ k e. lookup k whole ≡ some e) m
        (λ k e found. elim (Bool-cases (outpoint_beq k key)) [
          | inl same ↦
              let there =
                subst (λ i. lookup i m ≡ some e) ((outpoint_beq_iff k key).0 same) found in
              absurd (ground (arith, there, fresh))
          | inr differ ↦ rw (lookup-insert_ordered point_before k key entry m, differ) found
        ])
        h)
      (rw (lookup-insert_ordered point_before key key entry m, (outpoint_beq_iff key key).1 refl)
        refl)

replace_all-Findable :
    (watched : Set Text) (utxos : List AddressUtxo) (m m' : Map Outpoint RpcUtxoEntryRef)
    → replace_all watched m utxos ≡ ok m'
    → Findable m m
    → Findable m' m'
unfolding replace_all
replace_all-Findable watched [] m m' done h =
    let same : m ≡ m' = ground (arith, done) in subst (λ x. Findable x x) same h
replace_all-Findable watched (utxo ∷ utxos) m m' done h =
    let key = entry_key (entry_of utxo) in
    elim (Result-cases (validate_entry (entry_of utxo))) [
      | inr (e, failed) ↦ absurd (ground (arith, failed))
      | inl (x, valid) ↦ elim (Bool-cases (contains key m)) [
        | inl there ↦ absurd (ground (arith, valid, there))
        | inr fresh ↦
            let rest : replace_all watched (insert_ordered point_before key (entry_of utxo) m) utxos
                ≡ ok m' =
              ground (arith, done, valid, fresh) in
            replace_all-Findable watched utxos (insert_ordered point_before key (entry_of utxo) m)
              m' rest (insert-Findable key (entry_of utxo) m fresh h)
      ]
    ]

schedule_all-WellScheduled :
    (daa : ℕ) (whole part : Map Outpoint RpcUtxoEntryRef)
    (scheduled scheduled' : Map ℕ (List Outpoint))
    → schedule_all daa scheduled part ≡ ok scheduled'
    → Findable whole part
    → WellScheduled whole scheduled
    → WellScheduled whole scheduled'
unfolding schedule_all
schedule_all-WellScheduled daa whole [] scheduled scheduled' done h well =
    let same : scheduled ≡ scheduled' = ground (arith, done) in
    subst (WellScheduled whole) same well
schedule_all-WellScheduled daa whole ((key, entry) ∷ part) scheduled scheduled' done h well =
    elim (Result-cases (maturity_daa entry)) [
      | inr (e, failed) ↦ absurd (ground (arith, failed))
      | inl (maturity, at) ↦
          let own = maturity_daa-due entry maturity at in
          let new = schedule-All (NotSooner whole) maturity key scheduled well (λ e found.
            let found' = h.0 in
            let same : entry ≡ e = ground (arith, found, found') in
            rw (← same) (omega (arith, own))) in
          elim (Bool-cases (ltb daa maturity)) [
            | inl future ↦
                schedule_all-WellScheduled daa whole part (schedule maturity key scheduled)
                  scheduled' (rw (at, future) at done) h.1 new
            | inr past ↦
                schedule_all-WellScheduled daa whole part scheduled scheduled'
                  (rw (at, past) at done) h.1 well
          ]
    ]

confirm_shown-IsDeep :
    (daa : ℕ) (mature : Set Outpoint) (seen : Changes) (key : Outpoint) (entry : RpcUtxoEntryRef)
    (deep : Bool) (shown : Shown)
    → confirm_shown mature seen key entry daa deep ≡ ok shown
    → (deep ≡ true → due entry ≤ daa)
    → All (IsDeep daa) seen.confirmed
    → All (IsDeep daa) shown.1.confirmed
unfolding confirm_shown
confirm_shown-IsDeep daa mature seen key entry false shown done come h =
    let same : (mature, seen) ≡ shown = ground (arith, done) in
    subst (λ (x : Shown). All (IsDeep daa) x.1.confirmed) same h
confirm_shown-IsDeep daa mature seen key entry true shown done come h =
    elim (Result-cases (to_confirmed entry daa)) [
      | inr (e, failed) ↦ absurd (ground (arith, failed))
      | inl (deposit, made) ↦
          let same : seen.confirmed ++ deposit ∷ [] ≡ shown.1.confirmed =
            ground (arith, done, made) in
          subst (All (IsDeep daa)) same (
            snoc-IsDeep daa seen.confirmed deposit h
              (to_confirmed-IsDeep entry daa deposit made (come refl)))
    ]

show_all-IsDeep :
    (daa : ℕ) (live : Map Outpoint RpcUtxoEntryRef) (shown shown' : Shown)
    → show_all daa shown live ≡ ok shown'
    → All (IsDeep daa) shown.1.confirmed
    → All (IsDeep daa) shown'.1.confirmed
unfolding show_all show_one
show_all-IsDeep daa [] shown shown' done h =
    let same : shown ≡ shown' = ground (arith, done) in
    subst (λ (x : Shown). All (IsDeep daa) x.1.confirmed) same h
show_all-IsDeep daa ((key, entry) ∷ live) (mature, changes) shown' done h =
    elim (Result-cases (to_appearance entry daa)) [
      | inr (e, failed) ↦ absurd (ground (arith, failed))
      | inl (appearance, seen) ↦ elim (Result-cases (maturity_daa entry)) [
        | inr (e, failed) ↦ absurd (ground (arith, seen, failed))
        | inl (maturity, at) ↦
            let own = maturity_daa-due entry maturity at in
            let looked = record changes { observed = changes.observed ++ appearance ∷ [] } in
            elim (Result-cases (confirm_shown mature looked key entry daa (leb maturity daa))) [
              | inr (e, failed) ↦ absurd (ground (arith, seen, at, failed))
              | inl (mid, one) ↦ show_all-IsDeep daa live mid shown' (rw (seen, at, one) at done) (
                  confirm_shown-IsDeep daa mature looked key entry (leb maturity daa) mid one
                    (λ deep. ground (arith, deep, own)) h)
            ]
      ]
    ]

abbrev scanned : Outpoint → List AddressUtxo → Bool
scanned j utxos = any (λ u. outpoint_beq j (entry_key (entry_of u))) utxos

replace_all-live :
    (watched : Set Text) (utxos : List AddressUtxo) (m m' : Map Outpoint RpcUtxoEntryRef)
    (j : Outpoint)
    → replace_all watched m utxos ≡ ok m'
    → contains j m' ≡ (contains j m || scanned j utxos)
unfolding replace_all
replace_all-live watched [] m m' j done =
    let same : m ≡ m' = ground (arith, done) in
    subst (λ x. contains j x ≡ (contains j m || false)) same (ground arith)
replace_all-live watched (utxo ∷ utxos) m m' j done =
    let key = entry_key (entry_of utxo) in
    elim (Result-cases (validate_entry (entry_of utxo))) [
      | inr (e, failed) ↦ absurd (ground (arith, failed))
      | inl (x, valid) ↦ elim (Bool-cases (contains key m)) [
        | inl there ↦ absurd (ground (arith, valid, there))
        | inr fresh ↦
            let next = insert_ordered point_before key (entry_of utxo) m in
            let rest : replace_all watched next utxos ≡ ok m' =
              ground (arith, done, valid, fresh) in
            ground (
              arith,
              replace_all-live watched utxos next m' j rest,
              lookup-insert_ordered point_before j key (entry_of utxo) m,
            )
      ]
    ]

-- A scan that is accepted leaves exactly its outputs live, at its score, with a schedule in which no output is sooner than it is
-- mature, and confirms only deposits that are as deep at the score as their kind requires.
pub bootstrap-rebuilds :
    (projection : WrpcDepositProjection) (daa : ℕ) (utxos : List AddressUtxo)
    (watched_addresses : List Text) (snapshot : WrpcDepositSnapshot) (after : WrpcDepositProjection)
    → bootstrap_addresses projection daa utxos watched_addresses ≡ ok (snapshot, after)
    → ((j : Outpoint)
        → contains j after.live ≡ any (λ u. outpoint_beq j (entry_key (entry_of u))) utxos)
      × (after.virtual_daa ≡ some daa)
      × WellScheduled after.live after.maturity_schedule
      × All (IsDeep daa) snapshot.confirmed
unfolding bootstrap_addresses full_snapshot
bootstrap-rebuilds projection daa utxos watched_addresses snapshot after done =
    elim (Result-cases (validate_watched_addresses watched_addresses)) [
      | inr (e, failed) ↦ absurd (ground (arith, failed))
      | inl (watched, valid) ↦ elim (Result-cases (replace_all watched [] utxos)) [
        | inr (e, failed) ↦ absurd (ground (arith, valid, failed))
        | inl (live, replaced) ↦ elim (Result-cases (schedule_all daa [] live)) [
          | inr (e, failed) ↦ absurd (ground (arith, valid, replaced, failed))
          | inl (scheduled, put) ↦ elim (Result-cases (show_all daa ([], no_changes) live)) [
            | inr (e, failed) ↦ absurd (ground (arith, valid, replaced, put, failed))
            | inl (shown, showed) ↦
                let same_live : after.live ≡ live =
                  ground (arith, done, valid, replaced, put, showed) in
                let same_score : after.virtual_daa ≡ some daa =
                  ground (arith, done, valid, replaced, put, showed) in
                let same_schedule : after.maturity_schedule ≡ scheduled =
                  ground (arith, done, valid, replaced, put, showed) in
                let same_confirmed : snapshot.confirmed ≡ shown.1.confirmed =
                  ground (arith, done, valid, replaced, put, showed) in
                let found = replace_all-Findable watched utxos [] live replaced tt in
                (
                  λ j. rw same_live (
                      ground (
                        arith,
                        replace_all-live watched utxos [] live j replaced,
                        lookup-empty {V = RpcUtxoEntryRef} j,
                      )),
                  same_score,
                  rw (same_live, same_schedule)
                      (schedule_all-WellScheduled daa live live [] scheduled put found tt),
                  rw same_confirmed (show_all-IsDeep daa live ([], no_changes) shown showed tt),
                )
          ]
        ]
      ]
    ]
