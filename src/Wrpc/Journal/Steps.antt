-- ===== src/Wrpc/Journal/Steps.antt =====
-- The calls that delete frames or move the checkpoint, and the runs of all calls.
use kaspa_frontier_engine.Base.{
  ℕ, ◌+◌, ◌-◌, ◌≤◌, max, ◌≡◌, refl, sym, ap, subst, inl, inr, Bool, true, false, arith, leb,
  nat_beq, Bool-cases, is_some, ok,
}
use kaspa_frontier_engine.Base.Lists.{length}
use kaspa_frontier_engine.Base.Eq.{nat_eq}
use kaspa_frontier_engine.Base.Text.{Text, text_beq_iff, text_eq}
use kaspa_frontier_engine.Base.Text.{text_beq}
use kaspa_frontier_engine.Wrpc.{WrpcError, missing_frame, non_contiguous}
use kaspa_frontier_engine.Wrpc.Codec.{Serde}
use kaspa_frontier_engine.Wrpc.Journal.{
  WrpcJournal, find_frame, count_between, checkpoint_of, frame_rows, advance_checkpoint,
  record_frame, append, append_applied, checkpoint, delete_through, prune_applied, mark_at,
  mark_applied, mark_through_at, mark_applied_through,
}
use kaspa_frontier_engine.Wrpc.Journal.Sequence.{
  find_frame-IsFrom, count_between-IsFrom, above-IsFrom, rows_of-delete,
}
use kaspa_frontier_engine.Wrpc.Journal.Invariant.{
  Gapless, IsSound, insert_frame-IsSound, set_checkpoint-IsSound,
}
use kaspa_frontier_engine.Wrpc.Journal.Calls.{
  record_frame-IsSound, append-ok, append_applied-IsSound,
}

-- The calls of a process that receives frames and applies them.
pub data JournalStep (serde : Serde) : WrpcJournal → WrpcJournal → Type 0 where
  records :
      {journal journal' : WrpcJournal} (source raw_json : Text) (sequence : ℕ) (new : Bool)
      → record_frame serde journal source sequence raw_json ≡ ok (new, journal')
      → JournalStep serde journal journal'
  appends :
      {journal journal' : WrpcJournal} (source raw_json : Text) (sequence : ℕ)
      → append serde journal source raw_json ≡ ok (sequence, journal')
      → JournalStep serde journal journal'
  appends_applied :
      {journal journal' : WrpcJournal} (source raw_json : Text) (sequence : ℕ)
      → append_applied serde journal source raw_json ≡ ok (sequence, journal')
      → JournalStep serde journal journal'
  prunes :
      {journal journal' : WrpcJournal} (source : Text) (retained deleted : ℕ)
      → prune_applied journal source retained ≡ ok (deleted, journal')
      → JournalStep serde journal journal'
  marks :
      {journal journal' : WrpcJournal} (source : Text) (sequence : ℕ)
      → mark_applied journal source sequence ≡ ok journal'
      → JournalStep serde journal journal'
  marks_through :
      {journal journal' : WrpcJournal} (source : Text) (sequence : ℕ)
      → mark_applied_through journal source sequence ≡ ok journal'
      → JournalStep serde journal journal'

pub data JournalRun (serde : Serde) : WrpcJournal → WrpcJournal → Type 0 where
  stop : {journal : WrpcJournal} → JournalRun serde journal journal
  next : {a b c : WrpcJournal} → JournalStep serde a b → JournalRun serde b c → JournalRun serde a c

prune_applied-ok :
    (journal : WrpcJournal) (source : Text) (retained deleted : ℕ) (journal' : WrpcJournal)
    → prune_applied journal source retained ≡ ok (deleted, journal')
    → journal' ≡ record journal {
      wrpc_frames =
          delete_through source (checkpoint_of source journal - retained) journal.wrpc_frames;
    }
unfolding prune_applied checkpoint
prune_applied-ok journal source retained deleted journal' done = ground arith

prune_applied-IsSound :
    (journal : WrpcJournal) (source : Text) (retained deleted : ℕ) (journal' : WrpcJournal)
    → prune_applied journal source retained ≡ ok (deleted, journal')
    → IsSound journal
    → IsSound journal'
unfolding IsSound checkpoint_of
prune_applied-IsSound journal source retained deleted journal' done h s =
    let new = prune_applied-ok journal source retained deleted journal' done in
    let g = h s in
    let cutoff = checkpoint_of source journal - retained in
    let rows = rows_of-delete s source cutoff journal.wrpc_frames in
    elim (Bool-cases (text_beq s source)) [
      | inl same ↦
          let path = (text_beq_iff s source).0 same in
          let below : cutoff ≤ checkpoint_of s journal =
            omega (arith, ap (λ k. checkpoint_of k journal) path) in
          let low = g.pruned_applied in
          let high = g.applied_stored in
          let (numbered, count) =
            above-IsFrom g.start cutoff (frame_rows s journal) g.numbered
              (omega (arith, below, high)) in
          rw (new, rows, same)
            (record {
              start = max g.start cutoff;
              numbered = numbered;
              pruned_applied = omega (arith, low, below);
              applied_stored = omega (arith, count, high);
            })
      | inr differ ↦ rw (new, rows, differ) g
    ]

-- A checkpoint moves to a frame that is stored.
advance_checkpoint-IsSound :
    (journal : WrpcJournal) (source : Text) (n : ℕ) (error : WrpcError) (passes : Bool)
    (journal' : WrpcJournal)
    → advance_checkpoint journal source n error passes ≡ ok journal'
    → checkpoint_of source journal ≤ n
    → (passes ≡ true
        → (g : Gapless (frame_rows source journal) (checkpoint_of source journal))
        → n ≤ g.start + length (frame_rows source journal))
    → IsSound journal
    → IsSound journal'
unfolding advance_checkpoint
advance_checkpoint-IsSound journal source n error false journal' done up fits h =
    absurd (ground arith)
advance_checkpoint-IsSound journal source n error true journal' done up fits h =
    subst IsSound (ground arith) (set_checkpoint-IsSound journal source n up (fits refl) h)

mark_applied-IsSound :
    (journal : WrpcJournal) (source : Text) (n : ℕ) (journal' : WrpcJournal)
    → mark_applied journal source n ≡ ok journal'
    → IsSound journal
    → IsSound journal'
unfolding mark_applied mark_at
mark_applied-IsSound journal source n journal' done h =
    let rows = frame_rows source journal in
    elim (Bool-cases (leb n (checkpoint_of source journal))) [
      | inl old ↦ subst IsSound (ground (arith, done, old)) h
      | inr later ↦
          advance_checkpoint-IsSound journal source n missing_frame (is_some (find_frame n rows))
            journal' (ground (arith, done, later)) (ground (arith, later))
            (λ stored g. ground (arith, stored, find_frame-IsFrom g.start n rows g.numbered)) h
    ]

mark_applied_through-IsSound :
    (journal : WrpcJournal) (source : Text) (n : ℕ) (journal' : WrpcJournal)
    → mark_applied_through journal source n ≡ ok journal'
    → IsSound journal
    → IsSound journal'
unfolding mark_applied_through mark_through_at
mark_applied_through-IsSound journal source n journal' done h =
    let rows = frame_rows source journal in
    let at = checkpoint_of source journal in
    elim (Bool-cases (leb n at)) [
      | inl old ↦ subst IsSound (ground (arith, done, old)) h
      | inr later ↦
          advance_checkpoint-IsSound journal source n non_contiguous
            (nat_beq (count_between at n rows) (n - at)) journal' (ground (arith, done, later))
            (ground (arith, later))
            (λ full g.
              let low = g.pruned_applied in
              ground (arith, full, later, low, count_between-IsFrom g.start at n rows g.numbered))
            h
    ]

step-IsSound :
    (serde : Serde) (before after : WrpcJournal)
    → JournalStep serde before after
    → IsSound before
    → IsSound after
step-IsSound serde before after (records source raw n new h) =
    record_frame-IsSound serde before source n raw new after h
step-IsSound serde before after (appends source raw n h) = λ sound.
    let (free, new) = append-ok serde before source raw n after h in
    subst IsSound (sym new) (insert_frame-IsSound before source raw n free sound)
step-IsSound serde before after (appends_applied source raw n h) =
    append_applied-IsSound serde before source raw n after h
step-IsSound serde before after (prunes source retained deleted h) =
    prune_applied-IsSound before source retained deleted after h
step-IsSound serde before after (marks source n h) = mark_applied-IsSound before source n after h
step-IsSound serde before after (marks_through source n h) =
    mark_applied_through-IsSound before source n after h

-- From a journal without gaps every run of calls, on any sources, leads to one: each source's frames are numbered
-- by one, its checkpoint is not after the last of them, and none after the checkpoint was pruned.
pub calls-IsSound :
    (serde : Serde) (before after : WrpcJournal)
    → JournalRun serde before after
    → IsSound before
    → IsSound after
calls-IsSound serde before after stop h = h
calls-IsSound serde before after (next {b = mid} step run) h =
    calls-IsSound serde mid after run (step-IsSound serde before mid step h)
