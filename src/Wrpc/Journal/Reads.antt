-- ===== src/Wrpc/Journal/Reads.antt =====
-- What is read back of the journal, and the checkpoint moved in one transaction or frame by frame.
use kaspa_frontier_engine.Base.{
  ℕ, suc, ◌+◌, ◌≤◌, ◌<◌, ◌≡◌, refl, ◌≢◌, inl, inr, false, Option, none, some, List, [], ◌∷◌, ◌++◌,
  map, arith, Bool, nat_beq, ltb, ◌&&◌, leb, if◌then◌else◌, Bool-cases, i64_bound, ok, err,
  Result-cases,
}
use kaspa_frontier_engine.Base.Lists.{any, length}
use kaspa_frontier_engine.Base.Eq.{nat_eq}
use kaspa_frontier_engine.Base.Text.{Text, text_beq_iff, text_eq}
use kaspa_frontier_engine.Base.Text.{text_beq}
use kaspa_frontier_engine.Wrpc.Codec.{Serde}
use kaspa_frontier_engine.Wrpc.Journal.{
  WrpcFrame, WrpcJournal, checkpoint_of, frame_rows, validate_source, Done, append, frame_of,
  frames, mark_applied_through,
}
use kaspa_frontier_engine.Wrpc.Journal.Sequence.{IsFrom, append-IsFrom, order_by-IsFrom}
use kaspa_frontier_engine.Wrpc.Journal.Invariant.{
  IsSound, rows-insert_frame, checkpoint-set, next_sequence-lem,
}
use kaspa_frontier_engine.Wrpc.Journal.Calls.{append-ok}
use kaspa_frontier_engine.Wrpc.Journal.Marks.{mark_each, as_option, through-closed, each-closed}

append-source :
    (serde : Serde) (journal : WrpcJournal) (source raw : Text) (n : ℕ) (journal' : WrpcJournal)
    → append serde journal source raw ≡ ok (n, journal')
    → validate_source source ≡ ok tt
unfolding append
append-source serde journal source raw n journal' done =
    elim (Result-cases (validate_source source)) [
      | inl (x, valid) ↦ valid
      | inr (e, bad) ↦ absurd (ground (arith, bad))
    ]

map-append :
    (source : Text) (rows : List (ℕ × Text)) (row : ℕ × Text)
    → map (frame_of source) (rows ++ row ∷ [])
      ≡ map (frame_of source) rows ++ frame_of source row ∷ []
map-append source [] row = refl
map-append source (r ∷ rows) row = ground (arith, map-append source rows row)

-- The number of the last frame, and of the checkpoint where there is no frame.
abbrev pub last_number : ℕ → List WrpcFrame → ℕ
last_number at [] = at
last_number at (frame ∷ frames) = last_number frame.sequence frames

last_number-IsFrom :
    (source : Text) (start at : ℕ) (rows : List (ℕ × Text))
    → IsFrom start rows
    → start ≤ at
    → at ≤ start + length rows
    → last_number at (map (frame_of source) rows) ≡ start + length rows
unfolding IsFrom
last_number-IsFrom source start at [] h low high = omega arith
last_number-IsFrom source start at ((n, raw) ∷ rows) h low high =
    let rest =
      last_number-IsFrom source (start + 1) n rows h.1 (omega (arith, h.0)) (omega (arith, h.0)) in
    rw rest (omega arith)

-- In a journal without gaps, a frame that is appended is read back after those that were there, under the number
-- that the call returns, which is one more than that of the last frame, or than the checkpoint where there is no
-- frame; the other sources' frames stay.
pub frames-append :
    (serde : Serde) (journal : WrpcJournal) (source raw : Text) (n : ℕ) (journal' : WrpcJournal)
    → IsSound journal
    → append serde journal source raw ≡ ok (n, journal')
    → (before : List WrpcFrame) × (frames journal source ≡ ok before)
      × (n ≡ last_number (checkpoint_of source journal) before + 1)
      × (frames journal' source ≡ ok (before ++ frame_of source (n, raw) ∷ []))
      × ((other : Text) → other ≢ source → frames journal' other ≡ frames journal other)
unfolding frames IsSound
frames-append serde journal source raw n journal' sound done =
    let (free, new) = append-ok serde journal source raw n journal' done in
    let valid = append-source serde journal source raw n journal' done in
    let g = sound source in
    let rows = frame_rows source journal in
    let number = next_sequence-lem source journal n g free in
    let after : IsFrom g.start (rows ++ (n, raw) ∷ []) =
      rw number (append-IsFrom g.start rows raw g.numbered) in
    (
      map (frame_of source) rows,
      rw (valid, order_by-IsFrom g.start rows g.numbered) refl,
      rw
          (last_number-IsFrom source g.start (checkpoint_of source journal) rows g.numbered
            g.pruned_applied g.applied_stored)
          number,
      rw
          (
            new,
            valid,
            rows-insert_frame source source n raw journal,
            (text_beq_iff source source).1 refl,
            order_by-IsFrom g.start (rows ++ (n, raw) ∷ []) after,
            map-append source rows (n, raw),
          )
          refl,
      λ other differ.
          let apart : text_beq source other ≡ false =
            ground (arith, differ, text_beq_iff source other) in
          rw (new, rows-insert_frame other source n raw journal, apart) refl,
    )

-- The frame is stored.
abbrev pub is_stored : ℕ → List (ℕ × Text) → Bool
is_stored n rows = any (λ row. nat_beq row.0 n) rows

is_stored-IsFrom :
    (start n : ℕ) (rows : List (ℕ × Text))
    → IsFrom start rows
    → is_stored n rows ≡ (ltb start n && leb n (start + length rows))
unfolding IsFrom
is_stored-IsFrom start n [] h = ground arith
is_stored-IsFrom start n ((m, r) ∷ rows) h =
    ground (arith, h.0, is_stored-IsFrom (start + 1) n rows h.1)

-- The checkpoint that a call leaves, if it succeeds.
abbrev pub new_checkpoint : Text → Done → Option ℕ
new_checkpoint source (ok journal) = some (checkpoint_of source journal)
new_checkpoint source (err e) = none

module _ (source : Text) (valid : validate_source source ≡ ok tt) where
  -- In a journal without gaps, for a valid source and a frame number below 2^63, moving the checkpoint in
  -- one call to a later frame is the same as marking every frame up to it by itself. Where the frame is stored both succeed, and the checkpoint is then
  -- its number; where it is not stored both fail.
  pub mark_through-each :
      (count : ℕ) (journal : WrpcJournal)
      → IsSound journal
      → checkpoint_of source journal + suc count < i64_bound
      → (as_option (mark_applied_through journal source (checkpoint_of source journal + suc count))
          ≡ as_option (mark_each source (suc count) (checkpoint_of source journal) journal))
        × (new_checkpoint source
              (mark_applied_through journal source (checkpoint_of source journal + suc count))
            ≡ (if is_stored (checkpoint_of source journal + suc count) (frame_rows source journal)
                then some (checkpoint_of source journal + suc count)
                else none))
  unfolding IsSound
  mark_through-each count journal sound small =
      let g = sound source in
      let at = checkpoint_of source journal in
      let through = through-closed source valid journal g (at + suc count) (omega arith) small in
      let each = each-closed source valid count at journal g refl small in
      let moved = checkpoint-set source source (at + suc count) journal in
      let stored =
        is_stored-IsFrom g.start (at + suc count) (frame_rows source journal) g.numbered in
      let low = g.pruned_applied in
      elim (Bool-cases (leb (at + suc count) (g.start + length (frame_rows source journal)))) [
        | inl fits ↦ (
          ground (arith, through, each, fits),
          ground (arith, through, stored, fits, low, moved, (text_beq_iff source source).1 refl),
        )
        | inr beyond ↦
            (ground (arith, through, each, beyond), ground (arith, through, stored, beyond))
      ]
