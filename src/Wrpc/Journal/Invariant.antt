-- ===== src/Wrpc/Journal/Invariant.antt =====
-- The journal stays without gaps: the frames of a source are numbered by one, and the checkpoint is not
-- before the first that is missing at the front, nor after the last.
use kaspa_frontier_engine.Base.{
  ℕ, ◌+◌, ◌≤◌, ◌≡◌, refl, subst, inl, inr, false, List, [], ◌∷◌, ◌++◌, arith, if◌then◌else◌,
  Bool-cases, ok,
}
use kaspa_frontier_engine.Base.Lists.{length, length-append}
use kaspa_frontier_engine.Base.Eq.{◌==◌, nat_eq}
use kaspa_frontier_engine.Base.Text.{Text, text_beq_iff, text_eq}
use kaspa_frontier_engine.Base.Text.{text_beq}
use kaspa_frontier_engine.Base.Map.{lookup-insert}
use kaspa_frontier_engine.Wrpc.Journal.{
  WrpcJournal, checkpoint_of, frame_rows, next_sequence, insert_frame, set_checkpoint,
}
use kaspa_frontier_engine.Wrpc.Journal.Sequence.{
  IsFrom, append-IsFrom, max_sequence-IsFrom, rows_of-append,
}

-- Of one source: the frames up to `start` were pruned, and all of them were applied.
pub record Gapless (rows : List (ℕ × Text)) (at : ℕ) : Type 0 where
  pub start : ℕ
  pub numbered : IsFrom start rows
  pub pruned_applied : start ≤ at
  pub applied_stored : at ≤ start + length rows

unfoldable pub IsSound : WrpcJournal → Type 0
IsSound journal =
    (source : Text) → Gapless (frame_rows source journal) (checkpoint_of source journal)

pub rows-insert_frame :
    (s source : Text) (n : ℕ) (raw : Text) (journal : WrpcJournal)
    → frame_rows s (insert_frame source n raw journal)
      ≡ (if source == s then frame_rows s journal ++ (n, raw) ∷ [] else frame_rows s journal)
unfolding insert_frame
rows-insert_frame s source n raw journal =
    rows_of-append s journal.wrpc_frames (record { source = source; sequence = n; raw_json = raw })

pub checkpoint-insert_frame :
    (s source : Text) (n : ℕ) (raw : Text) (journal : WrpcJournal)
    → checkpoint_of s (insert_frame source n raw journal) ≡ checkpoint_of s journal
unfolding insert_frame checkpoint_of
checkpoint-insert_frame s source n raw journal = refl

pub checkpoint-set :
    (s source : Text) (n : ℕ) (journal : WrpcJournal)
    → checkpoint_of s (set_checkpoint source n journal)
      ≡ (if s == source then n else checkpoint_of s journal)
unfolding set_checkpoint checkpoint_of
checkpoint-set s source n journal = ground (arith, lookup-insert s source n journal.wrpc_checkpoint)

pub rows-set :
    (s source : Text) (n : ℕ) (journal : WrpcJournal)
    → frame_rows s (set_checkpoint source n journal) ≡ frame_rows s journal
unfolding set_checkpoint
rows-set s source n journal = refl

pub next_sequence-lem :
    (source : Text) (journal : WrpcJournal) (n : ℕ)
    → (g : Gapless (frame_rows source journal) (checkpoint_of source journal))
    → next_sequence source journal ≡ ok n
    → n ≡ g.start + length (frame_rows source journal) + 1
unfolding next_sequence
next_sequence-lem source journal n g h =
    let top = max_sequence-IsFrom g.start (frame_rows source journal) g.numbered in
    let low = g.pruned_applied in let high = g.applied_stored in ground (arith, top, low, high, h)

-- A change at one source that leaves the others as they were.
at_source :
    (journal journal' : WrpcJournal) (source s : Text)
    → ((source == s) ≡ false
        → (frame_rows s journal' ≡ frame_rows s journal)
          × (checkpoint_of s journal' ≡ checkpoint_of s journal))
    → Gapless (frame_rows source journal') (checkpoint_of source journal')
    → Gapless (frame_rows s journal) (checkpoint_of s journal)
    → Gapless (frame_rows s journal') (checkpoint_of s journal')
at_source journal journal' source s apart here g = elim (Bool-cases (text_beq source s)) [
  | inl same ↦
      subst (λ k. Gapless (frame_rows k journal') (checkpoint_of k journal'))
        ((text_beq_iff source s).0 same) here
  | inr differ ↦ let (rows, at) = apart differ in rw (rows, at) g
]

not_same : (s t : Text) → text_beq s t ≡ false → text_beq t s ≡ false
not_same s t h = ground (arith, h, text_beq_iff s t, text_beq_iff t s)

pub insert_frame-IsSound :
    (journal : WrpcJournal) (source raw : Text) (n : ℕ)
    → next_sequence source journal ≡ ok n
    → IsSound journal
    → IsSound (insert_frame source n raw journal)
unfolding IsSound
insert_frame-IsSound journal source raw n next h s =
    let g = h source in
    let number = next_sequence-lem source journal n g next in
    at_source journal (insert_frame source n raw journal) source s
      (λ differ. (
        rw (rows-insert_frame s source n raw journal, differ),
        checkpoint-insert_frame s source n raw journal,
      ))
      (rw
        (
          rows-insert_frame source source n raw journal,
          (text_beq_iff source source).1 refl,
          checkpoint-insert_frame source source n raw journal,
          number,
        )
        (record {
          start = g.start;
          numbered = append-IsFrom g.start (frame_rows source journal) raw g.numbered;
          pruned_applied = g.pruned_applied;
          applied_stored =
              longer g.start (checkpoint_of source journal) (frame_rows source journal)
                (g.start + length (frame_rows source journal) + 1, raw) g.applied_stored;
        }))
      (h s)
  where
    longer :
        (start at : ℕ) (rows : List (ℕ × Text)) (row : ℕ × Text)
        → at ≤ start + length rows
        → at ≤ start + length (rows ++ row ∷ [])
    longer start at rows row fits = omega (arith, length-append rows (row ∷ []))

pub set_checkpoint-IsSound :
    (journal : WrpcJournal) (source : Text) (n : ℕ)
    → checkpoint_of source journal ≤ n
    → ((g : Gapless (frame_rows source journal) (checkpoint_of source journal))
        → n ≤ g.start + length (frame_rows source journal))
    → IsSound journal
    → IsSound (set_checkpoint source n journal)
unfolding IsSound
set_checkpoint-IsSound journal source n up fits h s =
    let g = h source in
    at_source journal (set_checkpoint source n journal) source s
      (λ differ. (
        rows-set s source n journal,
        rw (checkpoint-set s source n journal, not_same source s differ),
      ))
      (rw
        (
          rows-set source source n journal,
          checkpoint-set source source n journal,
          (text_beq_iff source source).1 refl,
        )
        (record {
          start = g.start;
          numbered = g.numbered;
          pruned_applied = lower g.start (checkpoint_of source journal) n g.pruned_applied up;
          applied_stored = fits g;
        }))
      (h s)
  where
    lower : (a b c : ℕ) → a ≤ b → b ≤ c → a ≤ c
    lower a b c h k = omega arith
