-- ===== src/Wrpc/Journal/Calls.antt =====
-- The calls that store frames keep the journal without gaps.
use kaspa_frontier_engine.Base.{
  ℕ, ◌+◌, ◌<◌, ◌≡◌, refl, sym, ap, subst, ◌∙◌, inl, inr, Bool, true, false, Option, none, some,
  List, [], ◌∷◌, ◌++◌, arith, is_some, i64_bound, ok, Result-cases,
}
use kaspa_frontier_engine.Base.Eq.{nat_eq}
use kaspa_frontier_engine.Base.Text.{Text, text_beq_iff, text_eq}
use kaspa_frontier_engine.Wrpc.Codec.{Serde, decode_notification}
use kaspa_frontier_engine.Wrpc.Journal.{
  WrpcJournal, find_frame, checkpoint_of, frame_rows, next_sequence, insert_frame, set_checkpoint,
  has_pending, record_at, record_frame, append, append_applied,
}
use kaspa_frontier_engine.Wrpc.Journal.Sequence.{
  max_sequence-IsFrom, find_frame-IsFrom, has_pending-IsFrom,
}
use kaspa_frontier_engine.Wrpc.Journal.Invariant.{
  Gapless, IsSound, rows-insert_frame, checkpoint-insert_frame, insert_frame-IsSound,
  set_checkpoint-IsSound,
}

record_at-IsSound :
    (journal : WrpcJournal) (source : Text) (n : ℕ) (raw : Text) (found : Option Text) (new : Bool)
    (journal' : WrpcJournal)
    → record_at journal source n raw found ≡ ok (new, journal')
    → IsSound journal
    → IsSound journal'
unfolding record_at
record_at-IsSound journal source n raw (some existing) new journal' done h =
    subst IsSound (ground arith) h
record_at-IsSound journal source n raw none new journal' done h =
    elim (Result-cases (next_sequence source journal)) [
      | inl (expected, free) ↦
          let here : expected ≡ n = ground (arith, done, free) in
          let after : insert_frame source n raw journal ≡ journal' = ground (arith, done, free) in
          subst IsSound after (insert_frame-IsSound journal source raw n (free ∙ ap ok here) h)
      | inr (e, failed) ↦ absurd (ground (arith, failed))
    ]

pub record_frame-IsSound :
    (serde : Serde) (journal : WrpcJournal) (source : Text) (sequence : ℕ) (raw : Text) (new : Bool)
    (journal' : WrpcJournal)
    → record_frame serde journal source sequence raw ≡ ok (new, journal')
    → IsSound journal
    → IsSound journal'
unfolding record_frame
record_frame-IsSound serde journal source sequence raw new journal' done h =
    record_at-IsSound journal source sequence raw (find_frame sequence (frame_rows source journal))
      new journal'
      (elim (Result-cases (decode_notification serde raw)) [
        | inl (notification, decoded) ↦ ground (arith, done, decoded)
        | inr (e, failed) ↦ absurd (ground (arith, failed))
      ])
      h

-- What an append has done.
pub append-ok :
    (serde : Serde) (journal : WrpcJournal) (source raw : Text) (n : ℕ) (journal' : WrpcJournal)
    → append serde journal source raw ≡ ok (n, journal')
    → (next_sequence source journal ≡ ok n) × (journal' ≡ insert_frame source n raw journal)
unfolding append
append-ok serde journal source raw n journal' done =
    elim (Result-cases (next_sequence source journal)) [
      | inl (expected, free) ↦ elim (Result-cases (decode_notification serde raw)) [
        | inl (notification, decoded) ↦
            (ground (arith, done, free, decoded), ground (arith, done, free, decoded))
        | inr (e, failed) ↦ absurd (ground (arith, failed))
      ]
      | inr (e, failed) ↦ elim (Result-cases (decode_notification serde raw)) [
        | inl (notification, decoded) ↦ absurd (ground (arith, failed, decoded))
        | inr (e', failed') ↦ absurd (ground (arith, failed'))
      ]
    ]

append_applied-ok :
    (serde : Serde) (journal : WrpcJournal) (source raw : Text) (n : ℕ) (journal' : WrpcJournal)
    → append_applied serde journal source raw ≡ ok (n, journal')
    → (has_pending (checkpoint_of source journal) (frame_rows source journal) ≡ false)
      × (n ≡ checkpoint_of source journal + 1)
      × (n < i64_bound)
      × (journal' ≡ set_checkpoint source n (insert_frame source n raw journal))
unfolding append_applied
append_applied-ok serde journal source raw n journal' done =
    elim (Result-cases (decode_notification serde raw)) [
      | inl (notification, decoded) ↦ (
        ground (arith, done, decoded),
        ground (arith, done, decoded),
        ground (arith, done, decoded),
        ground (arith, done, decoded),
      )
      | inr (e, failed) ↦ absurd (ground (arith, failed))
    ]

-- With nothing pending, the frame that is appended as applied has the next number.
applied-next :
    (journal : WrpcJournal) (source : Text)
    → Gapless (frame_rows source journal) (checkpoint_of source journal)
    → has_pending (checkpoint_of source journal) (frame_rows source journal) ≡ false
    → checkpoint_of source journal + 1 < i64_bound
    → next_sequence source journal ≡ ok (checkpoint_of source journal + 1)
unfolding next_sequence
applied-next journal source g idle small =
    let rows = frame_rows source journal in
    let low = g.pruned_applied in
    let high = g.applied_stored in
    let top = max_sequence-IsFrom g.start rows g.numbered in
    let none_after =
      has_pending-IsFrom g.start (checkpoint_of source journal) rows g.numbered low in
    ground (arith, top, low, high, none_after, idle, small)

find_frame-last :
    (n : ℕ) (raw : Text) (rows : List (ℕ × Text))
    → is_some (find_frame n (rows ++ (n, raw) ∷ [])) ≡ true
unfolding find_frame
find_frame-last n raw [] = ground arith
find_frame-last n raw ((m, r) ∷ rows) = ground (arith, find_frame-last n raw rows)

pub append_applied-IsSound :
    (serde : Serde) (journal : WrpcJournal) (source raw : Text) (n : ℕ) (journal' : WrpcJournal)
    → append_applied serde journal source raw ≡ ok (n, journal')
    → IsSound journal
    → IsSound journal'
unfolding IsSound
append_applied-IsSound serde journal source raw n journal' done h =
    let (idle, number, small, new) = append_applied-ok serde journal source raw n journal' done in
    let free = applied-next journal source (h source) idle (rw number at small) in
    let mid = insert_frame source n raw journal in
    let inserted = insert_frame-IsSound journal source raw n (rw number free) h in
    let stored : is_some (find_frame n (frame_rows source mid)) ≡ true =
      rw (rows-insert_frame source source n raw journal, (text_beq_iff source source).1 refl)
        (find_frame-last n raw (frame_rows source journal)) in
    let same = checkpoint-insert_frame source source n raw journal in
    subst IsSound (sym new) (
      set_checkpoint-IsSound mid source n (omega (arith, same, number))
        (λ g.
          ground (arith, stored, find_frame-IsFrom g.start n (frame_rows source mid) g.numbered))
        inserted)
