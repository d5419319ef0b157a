-- ===== src/Wrpc/Journal/Marks.antt =====
-- The checkpoint moved in one transaction or frame by frame, in a journal without gaps, in closed form.
use kaspa_frontier_engine.Base.{
  ℕ, zero, suc, ◌+◌, ◌≤◌, ◌<◌, ◌≡◌, refl, ap, subst, inl, inr, Option, none, some, arith, leb,
  if◌then◌else◌, Bool-cases, i64_bound, Result, ok, err, ◌>>=◌,
}
use kaspa_frontier_engine.Base.Lists.{length}
use kaspa_frontier_engine.Base.Eq.{nat_eq}
use kaspa_frontier_engine.Base.Text.{Text, text_beq_iff, text_eq}
use kaspa_frontier_engine.Base.Map.{insert_twice}
use kaspa_frontier_engine.Wrpc.{missing_frame, non_contiguous}
use kaspa_frontier_engine.Wrpc.Journal.{
  WrpcJournal, checkpoint_of, frame_rows, set_checkpoint, validate_source, Done, advance_checkpoint,
  mark_at, mark_applied, mark_through_at, mark_applied_through,
}
use kaspa_frontier_engine.Wrpc.Journal.Sequence.{find_frame-IsFrom, count_between-IsFrom}
use kaspa_frontier_engine.Wrpc.Journal.Invariant.{Gapless, checkpoint-set, rows-set}

-- The frames marked one after another, from the one after `at`.
unfoldable pub mark_each : Text → ℕ → ℕ → WrpcJournal → Done
mark_each source zero at journal = ok journal
mark_each source (suc count) at journal = do
  next ← mark_applied journal source (at + 1)
  mark_each source count (at + 1) next

abbrev pub as_option {ℓ κ} : {E : Type ℓ} {A : Type κ} → Result E A → Option A
as_option (ok a) = some a
as_option (err e) = none

module _ (source : Text) (valid : validate_source source ≡ ok tt) where
  pub mark-closed :
      (journal : WrpcJournal)
      (g : Gapless (frame_rows source journal) (checkpoint_of source journal))
      → checkpoint_of source journal + 1 < i64_bound
      → mark_applied journal source (checkpoint_of source journal + 1) ≡ (
          if leb (checkpoint_of source journal + 1) (g.start + length (frame_rows source journal))
          then ok (set_checkpoint source (checkpoint_of source journal + 1) journal)
          else err missing_frame)
  unfolding mark_applied mark_at advance_checkpoint
  mark-closed journal g small =
      let low = g.pruned_applied in
      ground (
        arith,
        valid,
        small,
        low,
        find_frame-IsFrom g.start (checkpoint_of source journal + 1) (frame_rows source journal)
            g.numbered,
      )

  pub through-closed :
      (journal : WrpcJournal)
      (g : Gapless (frame_rows source journal) (checkpoint_of source journal)) (n : ℕ)
      → checkpoint_of source journal < n
      → n < i64_bound
      → mark_applied_through journal source n ≡ (
          if leb n (g.start + length (frame_rows source journal))
          then ok (set_checkpoint source n journal)
          else err non_contiguous)
  unfolding mark_applied_through mark_through_at advance_checkpoint
  through-closed journal g n later small =
      let low = g.pruned_applied in
      ground (
        arith,
        valid,
        small,
        later,
        low,
        count_between-IsFrom g.start (checkpoint_of source journal) n (frame_rows source journal)
            g.numbered,
      )

  set_twice :
      (m n : ℕ) (journal : WrpcJournal)
      → set_checkpoint source n (set_checkpoint source m journal) ≡ set_checkpoint source n journal
  unfolding set_checkpoint
  set_twice m n journal =
      ap (λ c. record journal { wrpc_checkpoint = c })
        (insert_twice source n m journal.wrpc_checkpoint)

  -- After a mark, the rows are the same and the checkpoint is the mark.
  marked-Gapless :
      (at : ℕ) (journal : WrpcJournal)
      (g : Gapless (frame_rows source journal) (checkpoint_of source journal))
      → checkpoint_of source journal ≡ at
      → at + 1 ≤ g.start + length (frame_rows source journal)
      → (g' : Gapless
          (frame_rows source (set_checkpoint source (at + 1) journal))
          (checkpoint_of source (set_checkpoint source (at + 1) journal)))
        × (g'.start ≡ g.start)
        × (checkpoint_of source (set_checkpoint source (at + 1) journal) ≡ at + 1)
  marked-Gapless at journal g here fits =
      let low = g.pruned_applied in
      let same : checkpoint_of source (set_checkpoint source (at + 1) journal) ≡ at + 1 =
        rw (checkpoint-set source source (at + 1) journal, (text_beq_iff source source).1 refl)
          refl in
      (
        record {
          start = g.start;
          numbered = rw (rows-set source source (at + 1) journal) g.numbered;
          pruned_applied = omega (arith, same, low, here);
          applied_stored = rw (rows-set source source (at + 1) journal, same) fits;
        },
        refl,
        same,
      )

  marked :
      (at : ℕ) (journal : WrpcJournal)
      (g : Gapless (frame_rows source journal) (checkpoint_of source journal))
      → checkpoint_of source journal ≡ at
      → at + 1 < i64_bound
      → mark_applied journal source (at + 1) ≡ (
          if leb (at + 1) (g.start + length (frame_rows source journal))
          then ok (set_checkpoint source (at + 1) journal)
          else err missing_frame)
  marked at journal g here small =
      subst
        (λ a. mark_applied journal source (a + 1) ≡ (
          if leb (a + 1) (g.start + length (frame_rows source journal))
          then ok (set_checkpoint source (a + 1) journal)
          else err missing_frame))
        here (mark-closed journal g (omega (arith, here, small)))

  pub each-closed :
      (count at : ℕ) (journal : WrpcJournal)
      (g : Gapless (frame_rows source journal) (checkpoint_of source journal))
      → checkpoint_of source journal ≡ at
      → at + suc count < i64_bound
      → mark_each source (suc count) at journal ≡ (
          if leb (at + suc count) (g.start + length (frame_rows source journal))
          then ok (set_checkpoint source (at + suc count) journal)
          else err missing_frame)
  unfolding mark_each
  each-closed zero at journal g here small = ground (arith, marked at journal g here small)
  each-closed (suc count) at journal g here small =
      let first = marked at journal g here (omega (arith, small)) in
      let mid = set_checkpoint source (at + 1) journal in
      elim (Bool-cases (leb (at + 1) (g.start + length (frame_rows source journal)))) [
        | inr beyond ↦ ground (arith, first, beyond)
        | inl fits ↦
            let (g', same_start, there) = marked-Gapless at journal g here (ground (arith, fits)) in
            let rest = each-closed count (at + 1) mid g' there (omega (arith, small)) in
            let last = set_twice (at + 1) (at + 1 + suc count) journal in
            let rows = rows-set source source (at + 1) journal in
            let one : mark_each source (suc (suc count)) at journal
                ≡ mark_each source (suc count) (at + 1) mid =
              rw (first, fits) refl in
            let far : at + suc (suc count) ≡ at + 1 + suc count = omega arith in
            rw (one, rest, last, same_start, rows, far) refl
      ]
