-- ===== src/Wrpc/Projection/Deep.antt =====
-- No notification confirms a deposit that is not deep enough.
use kaspa_frontier_engine.Base.{
  ℕ, ◌≤◌, ◌≡◌, refl, subst, ◌∙◌, ◌≢◌, inl, inr, Option, some, List, [], ◌∷◌, ◌++◌, arith, ltb,
  Bool-cases, Option-cases, ok, Result-cases,
}
use kaspa_frontier_engine.Base.Lists.{All, All-append, All-imp}
use kaspa_frontier_engine.Base.Eq.{nat_eq}
use kaspa_frontier_engine.Base.Text.{Text, text_eq}
use kaspa_frontier_engine.Base.Map.{
  Map, Set, AllEntries, AllEntries-lookup, AllEntries-imp, lookup-erase,
}
use kaspa_frontier_engine.Base.Map.{lookup, erase}
use kaspa_frontier_engine.Wrpc.{RpcUtxoEntryRef, entry_key, require_watched}
use kaspa_frontier_engine.Base.Ordered.{
  insert_ordered, lookup-insert_ordered, AllEntries-insert_ordered,
}
use kaspa_frontier_engine.Outpoint.{Outpoint, outpoint_eq, outpoint_beq, outpoint_beq_iff}
use kaspa_frontier_engine.Wrpc.Projection.{
  point_before, or_empty, schedule, State, vanish, remove_at, remove_one, each,
}
use kaspa_frontier_engine.Wrpc.Projection.Maturity.{
  due, IsDeep, NotSooner, WellScheduled, Unhurried,
}

-- What the loops of a change keep, at the score that the projection has.
pub record Good (score : Option ℕ) (state : State) : Type 0 where
  pub scheduled : WellScheduled state.0.live state.0.maturity_schedule
  pub same_score : state.0.virtual_daa ≡ score
  pub deep : (daa : ℕ) → score ≡ some daa → All (IsDeep daa) state.1.confirmed

-- Fewer live outputs.
erase-WellScheduled :
    (live : Map Outpoint RpcUtxoEntryRef) (key : Outpoint) (scheduled : Map ℕ (List Outpoint))
    → WellScheduled live scheduled
    → WellScheduled (erase key live) scheduled
erase-WellScheduled live key scheduled h =
    AllEntries-imp (λ m keys. All (NotSooner live m) keys)
      (λ m keys. All (NotSooner (erase key live) m) keys) scheduled
      (λ m keys.
        All-imp (NotSooner live m) (NotSooner (erase key live) m)
          (λ j sooner entry found. sooner entry (ground (arith, found, lookup-erase j key live)))
          keys)
      h

remove_one-Good :
    (score : Option ℕ) (watched : Set Text) (state state' : State) (entry : RpcUtxoEntryRef)
    → remove_one watched state entry ≡ ok state'
    → Good score state
    → Good score state' × (state'.0.maturity_schedule ≡ state.0.maturity_schedule)
unfolding remove_one remove_at require_watched
remove_one-Good score watched (projection, changes) state' entry done good =
    elim (Option-cases (lookup (entry_key entry) projection.live)) [
      | inl missing ↦
          let same : (projection, vanish (entry_key entry) changes) ≡ state' =
            ground (arith, done, missing) in
          subst
            (λ (s : State). Good score s × (s.0.maturity_schedule ≡ projection.maturity_schedule))
            same
            (
              record { scheduled = good.scheduled; same_score = good.same_score; deep = good.deep },
              refl,
            )
      | inr (existing, found) ↦
          let live = erase (entry_key entry) projection.live in
          let same_schedule : state'.0.maturity_schedule ≡ projection.maturity_schedule =
            ground (arith, done, found) in
          let same_live : state'.0.live ≡ live = ground (arith, done, found) in
          let same_daa : state'.0.virtual_daa ≡ projection.virtual_daa =
            ground (arith, done, found) in
          let same_confirmed : state'.1.confirmed ≡ changes.confirmed =
            ground (arith, done, found) in
          let kept =
            erase-WellScheduled projection.live (entry_key entry) projection.maturity_schedule
              good.scheduled in
          (
            record {
              scheduled = rw (same_live, same_schedule) kept;
              same_score = same_daa ∙ good.same_score;
              deep = λ daa known. rw same_confirmed (good.deep daa known);
            },
            same_schedule,
          )
    ]

pub removed-Good :
    (score : Option ℕ) (watched : Set Text) (entries : List RpcUtxoEntryRef) (state state' : State)
    → each (remove_one watched) state entries ≡ ok state'
    → Good score state
    → Good score state' × (state'.0.maturity_schedule ≡ state.0.maturity_schedule)
unfolding each
removed-Good score watched [] state state' done good =
    let same : state ≡ state' = ground (arith, done) in
    subst (λ (s : State). Good score s × (s.0.maturity_schedule ≡ state.0.maturity_schedule)) same
      (good, refl)
removed-Good score watched (entry ∷ entries) state state' done good =
    elim (Result-cases (remove_one watched state entry)) [
      | inl (mid, one) ↦
          let (first, kept) = remove_one-Good score watched state mid entry one good in
          let (rest, still) =
            removed-Good score watched entries mid state' (rw one at done) first in
          (rest, still ∙ kept)
      | inr (e, failed) ↦ absurd (ground (arith, failed))
    ]

-- What holds of every key that is scheduled, and of the new one.
pub schedule-All :
    (P : ℕ → Outpoint → Type 0) (m : ℕ) (key : Outpoint) (scheduled : Map ℕ (List Outpoint))
    → AllEntries (λ at keys. All (P at) keys) scheduled
    → P m key
    → AllEntries (λ at keys. All (P at) keys) (schedule m key scheduled)
unfolding schedule
schedule-All P m key scheduled h new =
    let old : All (P m) (or_empty (lookup m scheduled)) = elim (Option-cases (lookup m scheduled)) [
      | inl missing ↦ rw missing tt
      | inr (keys, found) ↦
          rw found (AllEntries-lookup (λ at ks. All (P at) ks) m scheduled h found)
    ] in
    AllEntries-insert_ordered ltb (λ at ks. All (P at) ks) m
      (or_empty (lookup m scheduled) ++ key ∷ []) scheduled h
      (All-append (P m) (or_empty (lookup m scheduled)) (key ∷ []) old (new, tt))

pub schedule-Unhurried :
    (m : ℕ) (key : Outpoint) (scheduled : Map ℕ (List Outpoint)) (entry : RpcUtxoEntryRef)
    → key ≢ entry_key entry
    → Unhurried scheduled entry
    → Unhurried (schedule m key scheduled) entry
schedule-Unhurried m key scheduled entry differ h =
    schedule-All (λ at k. k ≡ entry_key entry → due entry ≤ at) m key scheduled h
      (λ same. absurd (differ same))

-- A new output with its own maturity.
pub admit-WellScheduled :
    (live : Map Outpoint RpcUtxoEntryRef) (scheduled : Map ℕ (List Outpoint))
    (entry : RpcUtxoEntryRef)
    → WellScheduled live scheduled
    → Unhurried scheduled entry
    → WellScheduled
        (insert_ordered point_before (entry_key entry) entry live)
        (schedule (due entry) (entry_key entry) scheduled)
admit-WellScheduled live scheduled entry well calm =
    let key = entry_key entry in
    let after = insert_ordered point_before key entry live in
    let both : AllEntries (λ m keys. All (NotSooner after m) keys) scheduled =
      still_well live scheduled entry well calm in
    schedule-All (NotSooner after) (due entry) key scheduled both (λ e found.
      let same : entry ≡ e = ground (
        arith,
        found,
        lookup-insert_ordered point_before key key entry live,
        (outpoint_beq_iff key key).1 refl,
      ) in
      rw (← same) (omega arith))
  where
    still_key :
        (live : Map Outpoint RpcUtxoEntryRef) (entry : RpcUtxoEntryRef) (m : ℕ) (j : Outpoint)
        → NotSooner live m j
        → (j ≡ entry_key entry → due entry ≤ m)
        → NotSooner (insert_ordered point_before (entry_key entry) entry live) m j
    still_key live entry m j sooner calm e found =
        elim (Bool-cases (outpoint_beq j (entry_key entry))) [
          | inl same ↦
              let one : entry ≡ e = ground (
                arith,
                found,
                same,
                lookup-insert_ordered point_before j (entry_key entry) entry live,
              ) in
              rw (← one) (calm ((outpoint_beq_iff j (entry_key entry)).0 same))
          | inr differ ↦ sooner e (
              ground (
                arith,
                found,
                differ,
                lookup-insert_ordered point_before j (entry_key entry) entry live,
              ))
        ]

    still_keys :
        (live : Map Outpoint RpcUtxoEntryRef) (entry : RpcUtxoEntryRef) (m : ℕ)
        (keys : List Outpoint)
        → All (NotSooner live m) keys
        → All (λ key. key ≡ entry_key entry → due entry ≤ m) keys
        → All (NotSooner (insert_ordered point_before (entry_key entry) entry live) m) keys
    still_keys live entry m [] h k = tt
    still_keys live entry m (j ∷ js) h k =
        (still_key live entry m j h.0 k.0, still_keys live entry m js h.1 k.1)

    still_well :
        (live : Map Outpoint RpcUtxoEntryRef) (scheduled : Map ℕ (List Outpoint))
        (entry : RpcUtxoEntryRef)
        → WellScheduled live scheduled
        → Unhurried scheduled entry
        → WellScheduled (insert_ordered point_before (entry_key entry) entry live) scheduled
    still_well live [] entry h k = tt
    still_well live ((m, keys) ∷ rest) entry h k =
        (still_keys live entry m keys h.0 k.0, still_well live rest entry h.1 k.1)
