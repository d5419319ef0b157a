-- ===== src/Wrpc/Projection/Added.antt =====
-- The loop over the added entries confirms only what is deep enough.
use kaspa_frontier_engine.Base.{
  ℕ, ◌≤◌, ◌≡◌, refl, sym, subst, ◌≢◌, ◌⊎◌, inl, inr, Bool, true, false, not, ◌&&◌, Option, none,
  some, List, [], ◌∷◌, ◌++◌, map, arith, leb, Option-cases, ok, Result-cases,
}
use kaspa_frontier_engine.Base.Lists.{All, IsOnce}
use kaspa_frontier_engine.Base.Eq.{nat_eq}
use kaspa_frontier_engine.Base.Text.{Text, text_eq}
use kaspa_frontier_engine.Base.Map.{Map, Set, contains}
use kaspa_frontier_engine.Base.Map.{lookup, insert}
use kaspa_frontier_engine.Wrpc.{
  RpcUtxoEntryRef, entry_key, require_watched, to_appearance, maturity_daa, to_confirmed,
}
use kaspa_frontier_engine.Outpoint.{Outpoint, outpoint_eq}
use kaspa_frontier_engine.Wrpc.Projection.{
  WrpcDepositProjection, schedule, Changes, State, admit, confirm_new, admit_at, add_at, add_one,
  each,
}
use kaspa_frontier_engine.Wrpc.Projection.Maturity.{
  due, IsDeep, WellScheduled, Unhurried, maturity_daa-due, to_confirmed-IsDeep, snoc-IsDeep,
}
use kaspa_frontier_engine.Wrpc.Projection.Deep.{schedule-Unhurried, admit-WellScheduled, Good}

confirm_new-Good :
    (score : Option ℕ) (projection : WrpcDepositProjection) (seen : Changes)
    (entry : RpcUtxoEntryRef) (daa : ℕ) (deep : Bool) (state : State)
    → confirm_new projection seen entry daa deep ≡ ok state
    → score ≡ some daa
    → (deep ≡ true → due entry ≤ daa)
    → Good score (projection, seen)
    → Good score state × (state.0.maturity_schedule ≡ projection.maturity_schedule)
unfolding confirm_new
confirm_new-Good score projection seen entry daa false state done known come good =
    let same : (projection, seen) ≡ state = ground (arith, done) in
    subst (λ (s : State). Good score s × (s.0.maturity_schedule ≡ projection.maturity_schedule))
      same (good, refl)
confirm_new-Good score projection seen entry daa true state done known come good =
    elim (Result-cases (to_confirmed entry daa)) [
      | inl (deposit, made) ↦
          let new : State = (
            record projection { mature = insert (entry_key entry) tt projection.mature },
            record seen { confirmed = seen.confirmed ++ deposit ∷ [] },
          ) in
          let same : new ≡ state = ground (arith, done, made) in
          let deeper : (at : ℕ)
              → score ≡ some at
              → All (IsDeep at) (seen.confirmed ++ deposit ∷ []) =
            λ at known'.
              let one : daa ≡ at = ground (arith, known, known') in
              snoc-IsDeep at seen.confirmed deposit (good.deep at known') (
                subst (λ x. IsDeep x deposit) one
                  (to_confirmed-IsDeep entry daa deposit made (come refl))) in
          subst
            (λ (s : State). Good score s × (s.0.maturity_schedule ≡ projection.maturity_schedule))
            same
            (
              record { scheduled = good.scheduled; same_score = good.same_score; deep = deeper },
              refl,
            )
      | inr (e, failed) ↦ absurd (ground (arith, failed))
    ]

admit_at-Good :
    (score known : Option ℕ) (projection : WrpcDepositProjection) (changes : Changes)
    (entry : RpcUtxoEntryRef) (maturity : ℕ) (state : State)
    → admit_at (projection, changes) entry maturity known ≡ ok state
    → known ≡ score
    → maturity ≡ due entry
    → Good score (projection, changes)
    → Good score state × (state.0.maturity_schedule ≡ projection.maturity_schedule)
unfolding admit_at
admit_at-Good score none projection changes entry maturity state done same_known own good =
    let new : State = (
      record projection { unobserved = insert (entry_key entry) tt projection.unobserved },
      changes,
    ) in
    let same : new ≡ state = ground (arith, done) in
    subst (λ (s : State). Good score s × (s.0.maturity_schedule ≡ projection.maturity_schedule))
      same
      (record { scheduled = good.scheduled; same_score = good.same_score; deep = good.deep }, refl)
admit_at-Good score (some daa) projection changes entry maturity state done same_known own good =
    elim (Result-cases (to_appearance entry daa)) [
      | inl (appearance, seen) ↦
          confirm_new-Good score projection
            (record changes { observed = changes.observed ++ appearance ∷ [] }) entry daa
            (leb maturity daa && not (contains (entry_key entry) projection.mature)) state
            (rw seen at done) (sym same_known) (λ deep. ground (arith, deep, own))
            (record { scheduled = good.scheduled; same_score = good.same_score; deep = good.deep })
      | inr (e, failed) ↦ absurd (ground (arith, failed))
    ]

-- An entry is live already, or it is scheduled at its own maturity.
add_one-Good :
    (score : Option ℕ) (watched : Set Text) (state state' : State) (entry : RpcUtxoEntryRef)
    → add_one watched state entry ≡ ok state'
    → Good score state
    → Unhurried state.0.maturity_schedule entry
    → Good score state'
      × ((state'.0.maturity_schedule ≡ state.0.maturity_schedule)
          ⊎ (state'.0.maturity_schedule
              ≡ schedule (due entry) (entry_key entry) state.0.maturity_schedule))
unfolding add_one add_at require_watched admit
add_one-Good score watched (projection, changes) state' entry done good calm =
    let key = entry_key entry in
    elim (Option-cases (lookup key projection.live)) [
      | inr (existing, found) ↦
          let same : (projection, changes) ≡ state' = ground (arith, done, found) in
          subst
            (λ (s : State).
              Good score s
              × ((s.0.maturity_schedule ≡ projection.maturity_schedule)
                  ⊎ (s.0.maturity_schedule
                      ≡ schedule (due entry) key projection.maturity_schedule)))
            same (good, inl refl)
      | inl missing ↦ elim (Result-cases (maturity_daa entry)) [
        | inr (e, failed) ↦ absurd (ground (arith, missing, failed))
        | inl (maturity, at) ↦
            let own = maturity_daa-due entry maturity at in
            let new = admit projection entry maturity in
            let admitted : admit_at (new, changes) entry maturity projection.virtual_daa
                ≡ ok state' =
              ground (arith, done, missing, at) in
            let well : WellScheduled new.live new.maturity_schedule = rw own (
              admit-WellScheduled projection.live projection.maturity_schedule entry good.scheduled
                calm) in
            let (after, kept) =
              admit_at-Good score projection.virtual_daa new changes entry maturity state' admitted
                good.same_score own
                (record { scheduled = well; same_score = good.same_score; deep = good.deep }) in
            (after, inr (rw own at kept))
      ]
    ]

pub added-Good :
    (score : Option ℕ) (watched : Set Text) (entries : List RpcUtxoEntryRef) (state state' : State)
    → each (add_one watched) state entries ≡ ok state'
    → Good score state
    → All (Unhurried state.0.maturity_schedule) entries
    → IsOnce (map entry_key entries)
    → Good score state'
unfolding each IsOnce
added-Good score watched [] state state' done good calm once =
    let same : state ≡ state' = ground (arith, done) in subst (Good score) same good
added-Good score watched (entry ∷ entries) state state' done good calm once =
    elim (Result-cases (add_one watched state entry)) [
      | inl (mid, one) ↦
          let (first, moved) = add_one-Good score watched state mid entry one good calm.0 in
          let still : All (Unhurried mid.0.maturity_schedule) entries = elim moved [
            | inl same ↦ rw same calm.1
            | inr new ↦
                rw new (
                  rest (due entry) (entry_key entry) state.0.maturity_schedule entries once.0
                    calm.1)
          ] in
          added-Good score watched entries mid state' (rw one at done) first still once.1
      | inr (e, failed) ↦ absurd (ground (arith, failed))
    ]
  where
    rest :
        (m : ℕ) (key : Outpoint) (scheduled : Map ℕ (List Outpoint)) (es : List RpcUtxoEntryRef)
        → All (λ k. key ≢ k) (map entry_key es)
        → All (Unhurried scheduled) es
        → All (Unhurried (schedule m key scheduled)) es
    rest m key scheduled [] h k = tt
    rest m key scheduled (e ∷ es) h k =
        (schedule-Unhurried m key scheduled e h.0 k.0, rest m key scheduled es h.1 k.1)
