-- ===== src/Wrpc/Projection/Confirms.antt =====
-- Every deposit that a notification or a scan confirms is deep enough, while the schedule is kept right.
use kaspa_frontier_engine.Base.{
  ℕ, ◌≡◌, refl, inl, inr, some, List, [], map, arith, ok, Result-cases,
}
use kaspa_frontier_engine.Base.Lists.{All, IsOnce}
use kaspa_frontier_engine.Base.Eq.{nat_eq}
use kaspa_frontier_engine.Base.Text.{Text, text_eq}
use kaspa_frontier_engine.Base.Map.{Set}
use kaspa_frontier_engine.Wrpc.{RpcUtxoEntryRef, entry_key}
use kaspa_frontier_engine.Outpoint.{outpoint_eq}
use kaspa_frontier_engine.Wrpc.Projection.{
  WrpcDepositProjection, no_changes, State, observe_all, pop_mature, apply_score, remove_one, each,
  apply_change,
}
use kaspa_frontier_engine.Wrpc.Projection.Maturity.{
  IsDeep, WellScheduled, Unhurried, pop_mature-IsDeep,
}
use kaspa_frontier_engine.Wrpc.Projection.Deep.{Good, removed-Good}
use kaspa_frontier_engine.Wrpc.Projection.Added.{added-Good}

-- Where no output is scheduled sooner than it is mature, a new virtual DAA score confirms only deposits that are
-- as deep at it as their kind requires, 60, or 1,000 for a coinbase, and leaves such a schedule.
pub apply_score-IsDeep :
    (projection : WrpcDepositProjection) (score : ℕ) (state : State)
    → WellScheduled projection.live projection.maturity_schedule
    → apply_score projection score ≡ ok state
    → All (IsDeep score) state.1.confirmed × WellScheduled state.0.live state.0.maturity_schedule
unfolding apply_score
apply_score-IsDeep projection score state well done =
    elim (Result-cases (observe_all score projection.live [] projection.unobserved)) [
      | inr (e, failed) ↦ absurd (ground (arith, failed))
      | inl (observed, seen) ↦
          elim (Result-cases (
            pop_mature score projection.live (projection.mature, [])
              projection.maturity_schedule)) [
                | inr (e, failed) ↦ absurd (ground (arith, seen, failed))
                | inl ((m, left), popped) ↦
                    let (deep, kept) =
                      pop_mature-IsDeep score projection.live (projection.mature, []) m
                        projection.maturity_schedule left well popped tt in
                    let same_live : state.0.live ≡ projection.live =
                      ground (arith, done, seen, popped) in
                    let same_left : state.0.maturity_schedule ≡ left =
                      ground (arith, done, seen, popped) in
                    let same : state.1.confirmed ≡ m.1 = ground (arith, done, seen, popped) in
                    (rw same deep, rw (same_live, same_left) kept)
              ]
    ]

-- Where no output is scheduled sooner than it is mature, a change confirms only deposits that are as deep at the score
-- of the projection as their kind requires, and leaves such a schedule, if it adds no output twice and none that is still
-- scheduled for a time before the maturity of the new entry.
pub apply_change-IsDeep :
    (projection : WrpcDepositProjection) (watched : Set Text) (added removed : List RpcUtxoEntryRef)
    (daa : ℕ) (state : State)
    → WellScheduled projection.live projection.maturity_schedule
    → projection.virtual_daa ≡ some daa
    → All (Unhurried projection.maturity_schedule) added
    → IsOnce (map entry_key added)
    → apply_change projection watched added removed ≡ ok state
    → All (IsDeep daa) state.1.confirmed × WellScheduled state.0.live state.0.maturity_schedule
unfolding apply_change
apply_change-IsDeep projection watched added removed daa state well known calm once done =
    elim (Result-cases (each (remove_one watched) (projection, no_changes) removed)) [
      | inr (e, failed) ↦ absurd (ground (arith, failed))
      | inl (mid, first) ↦
          let start : Good (some daa) (projection, no_changes) = record {
            scheduled = well;
            same_score = known;
            deep = λ at h. tt;
          } in
          let (good, kept) =
            removed-Good (some daa) watched removed (projection, no_changes) mid first start in
          let after =
            added-Good (some daa) watched added mid state (rw first at done) good (rw kept calm)
              once in
          (after.deep daa refl, after.scheduled)
    ]
