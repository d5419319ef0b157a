-- ===== src/Wrpc/Replay/Again.antt =====
-- A replay that has come to the end changes nothing when it is run once more.
use kaspa_frontier_engine.Base.{
  ℕ, ◌≤◌, max, ◌≡◌, refl, sym, ap, subst, ◌∙◌, ◌⊎◌, inl, inr, true, Option, List, [], ◌∷◌, arith,
  leb, Bool-cases, ok, err, Result-cases,
}
use kaspa_frontier_engine.Base.Lists.{length, All, All-imp}
use kaspa_frontier_engine.Base.Eq.{nat_eq}
use kaspa_frontier_engine.Base.Text.{Text, text_beq_iff, text_eq}
use kaspa_frontier_engine.Base.Map.{lookup-insert}
use kaspa_frontier_engine.Wrpc.{WrpcError}
use kaspa_frontier_engine.Wrpc.Codec.{Serde}
use kaspa_frontier_engine.Wrpc.Journal.{
  WrpcFrame, WrpcJournal, checkpoint_of, set_checkpoint, validate_source, advance_checkpoint,
  checkpoint, frames, mark_at, mark_applied,
}
use kaspa_frontier_engine.Outpoint.{outpoint_eq}
use kaspa_frontier_engine.Wrpc.Projection.{
  WrpcDepositSnapshot, WrpcDepositProjection, default_projection,
}
use kaspa_frontier_engine.Wrpc.Replay.{
  WrpcReplayReport, Durable, reconcile_snapshot, Settled, settle, Replayed, project, replay_frames,
  Reported, report, read_journal, replay_into_ledger_addresses,
}

mark_at-ok :
    (journal : WrpcJournal) (source : Text) (n at : ℕ) (journal' : WrpcJournal)
    → mark_at journal source n at ≡ ok journal'
    → at ≡ checkpoint_of source journal
    → (journal'.wrpc_frames ≡ journal.wrpc_frames)
      × (n ≤ checkpoint_of source journal')
      × (checkpoint_of source journal ≤ checkpoint_of source journal')
unfolding mark_at advance_checkpoint set_checkpoint checkpoint_of
mark_at-ok journal source n at journal' done here = elim (Bool-cases (leb n at)) [
  | inl old ↦
      let same : journal ≡ journal' = ground (arith, done, old) in
      (
        ap (λ j. j.wrpc_frames) (sym same),
        subst (λ j. n ≤ checkpoint_of source j) same (ground (arith, old, here)),
        subst (λ j. checkpoint_of source journal ≤ checkpoint_of source j) same (ground arith),
      )
  | inr later ↦
      let same : set_checkpoint source n journal ≡ journal' = ground (arith, done, later) in
      let new : checkpoint_of source (set_checkpoint source n journal) ≡ n = ground (
        arith,
        lookup-insert source source n journal.wrpc_checkpoint,
        (text_beq_iff source source).1 refl,
      ) in
      let moved : checkpoint_of source journal' ≡ n =
        subst (λ j. checkpoint_of source j ≡ n) same new in
      (
        ap (λ j. j.wrpc_frames) (sym same),
        ground (arith, moved),
        ground (arith, moved, later, here),
      )
]

mark_applied-ok :
    (journal : WrpcJournal) (source : Text) (n : ℕ) (journal' : WrpcJournal)
    → mark_applied journal source n ≡ ok journal'
    → (journal'.wrpc_frames ≡ journal.wrpc_frames)
      × (n ≤ checkpoint_of source journal')
      × (checkpoint_of source journal ≤ checkpoint_of source journal')
unfolding mark_applied
mark_applied-ok journal source n journal' done =
    mark_at-ok journal source n (checkpoint_of source journal) journal' (ground (arith, done)) refl

settle-ok :
    (durable : Durable) (source : Text) (n : ℕ) (snapshot : Option WrpcDepositSnapshot)
    (x : Unit {0}) (durable' : Durable)
    → settle durable source n snapshot ≡ (ok x, durable')
    → mark_applied durable.0 source n ≡ ok durable'.0
unfolding settle
settle-ok (journal, ledger) source n snapshot x durable' done =
    elim (Result-cases (reconcile_snapshot ledger snapshot)) [
      | inr (e, failed) ↦ absurd (ground (arith, failed))
      | inl (ledger', reconciled) ↦ elim (Result-cases (mark_applied journal source n)) [
        | inr (e, failed) ↦ absurd (ground (arith, reconciled, failed))
        | inl (journal', made) ↦ ground (arith, done, reconciled, made)
      ]
    ]

leb-true : (a b : ℕ) → a ≤ b → leb a b ≡ true
leb-true a b h = ground arith

Settled-cases :
    (r : Settled)
    → ((x : Unit {0}) × (durable : Durable) × (r ≡ (ok x, durable)))
      ⊎ ((e : WrpcError) × (durable : Durable) × (r ≡ (err e, durable)))
Settled-cases (ok x, durable) = inl (x, durable, refl)
Settled-cases (err e, durable) = inr (e, durable, refl)

Replayed-cases :
    (r : Replayed)
    → ((projection : WrpcDepositProjection) × (durable : Durable) × (r ≡ (ok projection, durable)))
      ⊎ ((e : WrpcError) × (durable : Durable) × (r ≡ (err e, durable)))
Replayed-cases (ok projection, durable) = inl (projection, durable, refl)
Replayed-cases (err e, durable) = inr (e, durable, refl)

module _ (serde : Serde) (watched_addresses : List Text) (source : Text) where
  abbrev Through : ℕ → WrpcFrame → Type 0
  Through n frame = frame.sequence ≤ n

  -- What a replay has done, and that it does nothing on frames that it skips.
  replay_frames-ok :
      (start : ℕ) (projection projection' : WrpcDepositProjection) (durable durable' : Durable)
      (stored : List WrpcFrame)
      → replay_frames serde watched_addresses source start projection durable stored
        ≡ (ok projection', durable')
      → (durable'.0.wrpc_frames ≡ durable.0.wrpc_frames)
        × (checkpoint_of source durable.0 ≤ checkpoint_of source durable'.0)
        × All (Through (max start (checkpoint_of source durable'.0))) stored
        × ((later : ℕ) (kept : Durable)
            → All (Through later) stored
            → replay_frames serde watched_addresses source later projection kept stored
              ≡ (ok projection', kept))
  unfolding replay_frames
  replay_frames-ok start projection projection' durable durable' [] done =
      let same : durable ≡ durable' = ground (arith, done) in
      let end : projection ≡ projection' = ground (arith, done) in
      (
        ap (λ (d : Durable). d.0.wrpc_frames) (sym same),
        subst (λ (d : Durable). checkpoint_of source durable.0 ≤ checkpoint_of source d.0) same
            (ground arith),
        tt,
        λ later kept h. ap (λ p. (ok p, kept)) end,
      )
  replay_frames-ok start projection projection' durable durable' (frame ∷ rest) done =
      elim (Result-cases (project serde watched_addresses source projection frame)) [
        | inr (e, failed) ↦ absurd (ground (arith, failed))
        | inl ((snapshot, next), one) ↦ elim (Bool-cases (leb frame.sequence start)) [
          | inl old ↦
              let (same, up, through, again) =
                replay_frames-ok start next projection' durable durable' rest
                  (rw (replay_frames, one, old) at done) in
              (
                same,
                up,
                (ground (arith, old), through),
                λ later kept h.
                    rw (replay_frames, one, leb-true frame.sequence later h.0)
                      (again later kept h.1),
              )
          | inr new ↦ elim (Settled-cases (settle durable source frame.sequence snapshot)) [
            | inr (e, kept, failed) ↦ absurd (ground (arith, one, new, failed))
            | inl (x, mid, put) ↦
                let (same_frames, reached, higher) =
                  mark_applied-ok durable.0 source frame.sequence mid.0
                    (settle-ok durable source frame.sequence snapshot x mid put) in
                let (same, up, through, again) =
                  replay_frames-ok start next projection' mid durable' rest (
                    rw
                      (
                        replay_frames,
                        one,
                        new,
                        ap (λ (r : Settled). r.0) put,
                        ap (λ (r : Settled). r.1) put,
                      )
                      at done) in
                (
                  same ∙ same_frames,
                  omega (arith, higher, up),
                  (omega (arith, reached, up), through),
                  λ later kept h.
                      rw (replay_frames, one, leb-true frame.sequence later h.0)
                        (again later kept h.1),
                )
          ]
        ]
      ]

  read_journal-ok :
      (journal : WrpcJournal) (at : ℕ) (stored : List WrpcFrame)
      → read_journal serde watched_addresses source journal ≡ ok (at, stored)
      → (validate_source source ≡ ok tt) × (at ≡ checkpoint_of source journal)
  unfolding read_journal checkpoint
  read_journal-ok journal at stored done = elim (Result-cases (validate_source source)) [
    | inr (e, failed) ↦ absurd (ground (arith, failed))
    | inl (x, valid) ↦ elim (Result-cases (frames journal source)) [
      | inr (e, failed) ↦ absurd (ground (arith, valid, failed))
      | inl (found, read) ↦ (valid, ground (arith, done, valid, read))
    ]
  ]

  -- The same frames, at another checkpoint.
  read_journal-same :
      (journal journal' : WrpcJournal) (at : ℕ) (stored : List WrpcFrame)
      → read_journal serde watched_addresses source journal ≡ ok (at, stored)
      → journal'.wrpc_frames ≡ journal.wrpc_frames
      → read_journal serde watched_addresses source journal'
        ≡ ok (checkpoint_of source journal', stored)
  unfolding read_journal checkpoint frames
  read_journal-same journal journal' at stored done same =
      let (valid, here) = read_journal-ok journal at stored done in
      ground (arith, done, valid, same)

  report-durable :
      (count : ℕ) (projection : WrpcDepositProjection) (mid durable' : Durable)
      (result : WrpcReplayReport × WrpcDepositProjection)
      → report serde watched_addresses source count (ok projection, mid) ≡ (ok result, durable')
      → mid ≡ durable'
  report-durable count projection (journal, ledger) durable' result done =
      ap (λ (r : Reported serde watched_addresses source). r.1) done

  -- A replay that has come to the end is finished: run once more, it returns the same report and projection, and changes neither
  -- the journal nor the ledger.
  pub replay_again :
      (durable durable' : Durable) (result : WrpcReplayReport × WrpcDepositProjection)
      → replay_into_ledger_addresses serde watched_addresses source durable ≡ (ok result, durable')
      → replay_into_ledger_addresses serde watched_addresses source durable' ≡ (ok result, durable')
  unfolding replay_into_ledger_addresses
  replay_again durable durable' result done =
      elim (Result-cases (read_journal serde watched_addresses source durable.0)) [
        | inr (e, failed) ↦ absurd (ground (arith, failed))
        | inl ((at, stored), read) ↦
            let whole : report serde watched_addresses source (length stored) (
                  replay_frames serde watched_addresses source at default_projection durable stored)
                ≡ (ok result, durable') =
              rw (replay_into_ledger_addresses, read) at done in
            elim (Replayed-cases
              (replay_frames serde watched_addresses source at default_projection durable stored)) [
                | inr (e, mid, failed) ↦ absurd (ground (arith, whole, failed))
                | inl (projection, mid, ran) ↦
                    let ended = rw ran at whole in
                    let last =
                      report-durable (length stored) projection mid durable' result ended in
                    let (same, up, through, again) =
                      replay_frames-ok at default_projection projection durable mid stored ran in
                    let (valid, here) = read_journal-ok durable.0 at stored read in
                    let reread = read_journal-same durable.0 mid.0 at stored read same in
                    let c = checkpoint_of source mid.0 in
                    let all_old : All (Through c) stored =
                      All-imp (Through (max at c)) (Through c) (λ f h. omega (arith, h, here, up))
                        stored through in
                    let rerun = again c mid all_old in
                    subst
                      (λ (d : Durable).
                        replay_into_ledger_addresses serde watched_addresses source d
                        ≡ (ok result, durable'))
                      last (rw (replay_into_ledger_addresses, reread, rerun) ended)
              ]
      ]
