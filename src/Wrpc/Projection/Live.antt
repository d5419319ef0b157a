-- ===== src/Wrpc/Projection/Live.antt =====
-- Which outputs are live after a change.
use kaspa_frontier_engine.Base.{
  ℕ, ◌≡◌, sym, subst, inl, inr, Bool, true, false, not, ◌&&◌, ◌||◌, Option, none, some, List, [],
  ◌∷◌, ◌++◌, arith, leb, Bool-cases, Option-cases, ok, Result-cases,
}
use kaspa_frontier_engine.Base.Lists.{any}
use kaspa_frontier_engine.Base.Eq.{nat_eq}
use kaspa_frontier_engine.Base.Text.{Text, text_eq}
use kaspa_frontier_engine.Base.Map.{Set, contains, lookup-erase}
use kaspa_frontier_engine.Base.Map.{lookup}
use kaspa_frontier_engine.Wrpc.{
  RpcUtxoEntryRef, entry_key, require_watched, to_appearance, maturity_daa, to_confirmed,
}
use kaspa_frontier_engine.Base.Ordered.{lookup-insert_ordered}
use kaspa_frontier_engine.Outpoint.{Outpoint, outpoint_eq, outpoint_beq, outpoint_beq_iff}
use kaspa_frontier_engine.Wrpc.Projection.{
  WrpcDepositProjection, point_before, Changes, no_changes, State, remove_at, remove_one, admit,
  confirm_new, admit_at, add_at, add_one, each, apply_change,
}

abbrev pub names : Outpoint → List RpcUtxoEntryRef → Bool
names j entries = any (λ e. outpoint_beq j (entry_key e)) entries

remove_one-live :
    (watched : Set Text) (state state' : State) (entry : RpcUtxoEntryRef) (j : Outpoint)
    → remove_one watched state entry ≡ ok state'
    → contains j state'.0.live ≡ (contains j state.0.live && not (outpoint_beq j (entry_key entry)))
unfolding remove_one remove_at require_watched
remove_one-live watched (projection, changes) state' entry j done =
    elim (Option-cases (lookup (entry_key entry) projection.live)) [
      | inl missing ↦ elim (Bool-cases (outpoint_beq j (entry_key entry))) [
        | inl same ↦
            let gone : lookup j projection.live ≡ none =
              subst (λ k. lookup k projection.live ≡ none)
                (sym ((outpoint_beq_iff j (entry_key entry)).0 same)) missing in
            ground (arith, done, missing, same, gone)
        | inr differ ↦ ground (arith, done, missing, differ)
      ]
      | inr (existing, found) ↦
          ground (arith, done, found, lookup-erase j (entry_key entry) projection.live)
    ]

removed-live :
    (watched : Set Text) (entries : List RpcUtxoEntryRef) (state state' : State) (j : Outpoint)
    → each (remove_one watched) state entries ≡ ok state'
    → contains j state'.0.live ≡ (contains j state.0.live && not (names j entries))
unfolding each
removed-live watched [] state state' j done =
    let same : state ≡ state' = ground (arith, done) in
    subst (λ s. contains j s.0.live ≡ (contains j state.0.live && true)) same (ground arith)
removed-live watched (entry ∷ entries) state state' j done =
    elim (Result-cases (remove_one watched state entry)) [
      | inl (mid, one) ↦
          let first = remove_one-live watched state mid entry j one in
          let rest = removed-live watched entries mid state' j (rw one at done) in
          ground (arith, first, rest)
      | inr (e, failed) ↦ absurd (ground (arith, failed))
    ]

confirm_new-live :
    (projection : WrpcDepositProjection) (seen : Changes) (entry : RpcUtxoEntryRef) (daa : ℕ)
    (deep : Bool) (state : State)
    → confirm_new projection seen entry daa deep ≡ ok state
    → state.0.live ≡ projection.live
unfolding confirm_new
confirm_new-live projection seen entry daa false state done = ground arith
confirm_new-live projection seen entry daa true state done =
    elim (Result-cases (to_confirmed entry daa)) [
      | inl (deposit, deep) ↦ ground (arith, done, deep)
      | inr (e, failed) ↦ absurd (ground (arith, failed))
    ]

pub admit_at-live :
    (projection : WrpcDepositProjection) (changes : Changes) (entry : RpcUtxoEntryRef)
    (maturity : ℕ) (score : Option ℕ) (state : State)
    → admit_at (projection, changes) entry maturity score ≡ ok state
    → state.0.live ≡ projection.live
unfolding admit_at
admit_at-live projection changes entry maturity none state done = ground arith
admit_at-live projection changes entry maturity (some daa) state done =
    elim (Result-cases (to_appearance entry daa)) [
      | inl (appearance, seen) ↦
          confirm_new-live projection
            (record changes { observed = changes.observed ++ appearance ∷ [] }) entry daa
            (leb maturity daa && not (contains (entry_key entry) projection.mature)) state
            (rw seen at done)
      | inr (e, failed) ↦ absurd (ground (arith, failed))
    ]

add_one-live :
    (watched : Set Text) (state state' : State) (entry : RpcUtxoEntryRef) (j : Outpoint)
    → add_one watched state entry ≡ ok state'
    → contains j state'.0.live ≡ (contains j state.0.live || outpoint_beq j (entry_key entry))
unfolding add_one add_at require_watched admit
add_one-live watched (projection, changes) state' entry j done =
    let key = entry_key entry in
    elim (Option-cases (lookup key projection.live)) [
      | inr (existing, found) ↦ elim (Bool-cases (outpoint_beq j key)) [
        | inl same ↦
            let there : lookup j projection.live ≡ some existing =
              subst (λ k. lookup k projection.live ≡ some existing)
                (sym ((outpoint_beq_iff j key).0 same)) found in
            ground (arith, done, found, same, there)
        | inr differ ↦ ground (arith, done, found, differ)
      ]
      | inl missing ↦ elim (Result-cases (maturity_daa entry)) [
        | inr (e, failed) ↦ absurd (ground (arith, missing, failed))
        | inl (maturity, due) ↦
            let admitted : admit_at (admit projection entry maturity, changes) entry maturity
                  projection.virtual_daa
                ≡ ok state' =
              ground (arith, done, missing, due) in
            let same =
              admit_at-live (admit projection entry maturity) changes entry maturity
                projection.virtual_daa state' admitted in
            ground (arith, same, lookup-insert_ordered point_before j key entry projection.live)
      ]
    ]

added-live :
    (watched : Set Text) (entries : List RpcUtxoEntryRef) (state state' : State) (j : Outpoint)
    → each (add_one watched) state entries ≡ ok state'
    → contains j state'.0.live ≡ (contains j state.0.live || names j entries)
unfolding each
added-live watched [] state state' j done =
    let same : state ≡ state' = ground (arith, done) in
    subst (λ s. contains j s.0.live ≡ (contains j state.0.live || false)) same (ground arith)
added-live watched (entry ∷ entries) state state' j done =
    elim (Result-cases (add_one watched state entry)) [
      | inl (mid, one) ↦
          let first = add_one-live watched state mid entry j one in
          let rest = added-live watched entries mid state' j (rw one at done) in
          ground (arith, first, rest)
      | inr (e, failed) ↦ absurd (ground (arith, failed))
    ]

-- After a change that succeeds, an output is live where the change has added it, or where it was live and
-- the change has not removed it.
pub apply_change-live :
    (projection : WrpcDepositProjection) (watched : Set Text) (added removed : List RpcUtxoEntryRef)
    (state : State) (j : Outpoint)
    → apply_change projection watched added removed ≡ ok state
    → contains j state.0.live
      ≡ (names j added || (contains j projection.live && not (names j removed)))
unfolding apply_change
apply_change-live projection watched added removed state j done =
    elim (Result-cases (each (remove_one watched) (projection, no_changes) removed)) [
      | inl (mid, first) ↦
          let left = removed-live watched removed (projection, no_changes) mid j first in
          let all = added-live watched added mid state j (rw first at done) in
          ground (arith, left, all)
      | inr (e, failed) ↦ absurd (ground (arith, failed))
    ]
