-- ===== src/Wrpc/Journal/Sequence.antt =====
-- The rows of one source, numbered without gaps, and what the queries say of them.
use kaspa_frontier_engine.Base.{
  ℕ, ◌+◌, ◌-◌, ◌≤◌, max, min, ◌≡◌, refl, sym, subst, inl, inr, not, ◌&&◌, List, [], ◌∷◌, ◌++◌,
  arith, ltb, leb, if◌then◌else◌, Bool-cases, is_some,
}
use kaspa_frontier_engine.Base.Lists.{length, retain}
use kaspa_frontier_engine.Base.Eq.{◌==◌, nat_eq}
use kaspa_frontier_engine.Base.Text.{Text, text_beq_iff, text_eq}
use kaspa_frontier_engine.Wrpc.Journal.{
  WrpcFrame, rows_of, max_sequence, find_frame, count_between, has_pending, delete_through,
  insert_row, order_by_sequence,
}

-- The rows are numbered by one, after `start`.
unfoldable pub IsFrom : ℕ → List (ℕ × Text) → Type 0
IsFrom start [] = Unit
IsFrom start ((n, raw) ∷ rows) = (n ≡ start + 1) × IsFrom (start + 1) rows

pub append-IsFrom :
    (start : ℕ) (rows : List (ℕ × Text)) (raw : Text)
    → IsFrom start rows
    → IsFrom start (rows ++ (start + length rows + 1, raw) ∷ [])
unfolding IsFrom
append-IsFrom start [] raw h = (omega arith, tt)
append-IsFrom start ((n, r) ∷ rows) raw h = (
  h.0,
  subst (λ k. IsFrom (start + 1) (rows ++ (k, raw) ∷ [])) (omega arith)
      (append-IsFrom (start + 1) rows raw h.1),
)

pub max_sequence-IsFrom :
    (start : ℕ) (rows : List (ℕ × Text))
    → IsFrom start rows
    → max start (max_sequence rows) ≡ start + length rows
unfolding IsFrom max_sequence
max_sequence-IsFrom start [] h = omega arith
max_sequence-IsFrom start ((n, r) ∷ rows) h =
    omega (arith, h.0, max_sequence-IsFrom (start + 1) rows h.1)

pub find_frame-IsFrom :
    (start n : ℕ) (rows : List (ℕ × Text))
    → IsFrom start rows
    → is_some (find_frame n rows) ≡ (ltb start n && leb n (start + length rows))
unfolding IsFrom find_frame
find_frame-IsFrom start n [] h = ground arith
find_frame-IsFrom start n ((m, r) ∷ rows) h =
    ground (arith, h.0, find_frame-IsFrom (start + 1) n rows h.1)

pub count_between-IsFrom :
    (start low high : ℕ) (rows : List (ℕ × Text))
    → IsFrom start rows
    → count_between low high rows ≡ min high (start + length rows) - max low start
unfolding IsFrom count_between
count_between-IsFrom start low high [] h = omega arith
count_between-IsFrom start low high ((m, r) ∷ rows) h =
    ground (arith, h.0, count_between-IsFrom (start + 1) low high rows h.1)

pub has_pending-IsFrom :
    (start at : ℕ) (rows : List (ℕ × Text))
    → IsFrom start rows
    → start ≤ at
    → has_pending at rows ≡ ltb at (start + length rows)
unfolding IsFrom
has_pending-IsFrom start at [] h low = ground arith
has_pending-IsFrom start at ((m, r) ∷ rows) h low = elim (Bool-cases (ltb start at)) [
  | inl above ↦
      ground (arith, h.0, above, has_pending-IsFrom (start + 1) at rows h.1 (ground (arith, above)))
  | inr here ↦ ground (arith, h.0, here)
]

-- The rows above a cutoff.
abbrev pub above : ℕ → List (ℕ × Text) → List (ℕ × Text)
above cutoff rows = retain (λ row. not (leb row.0 cutoff)) rows

pub above-IsFrom :
    (start cutoff : ℕ) (rows : List (ℕ × Text))
    → IsFrom start rows
    → cutoff ≤ start + length rows
    → IsFrom (max start cutoff) (above cutoff rows)
      × (max start cutoff + length (above cutoff rows) ≡ start + length rows)
unfolding IsFrom
above-IsFrom start cutoff [] h fits = (tt, omega arith)
above-IsFrom start cutoff ((m, r) ∷ rows) h fits =
    let (rest, count) = above-IsFrom (start + 1) cutoff rows h.1 (omega arith) in
    elim (Bool-cases (leb m cutoff)) [
      | inl gone ↦
          let same : max (start + 1) cutoff ≡ max start cutoff = ground (arith, h.0, gone) in
          (
            rw gone (subst (λ k. IsFrom k (above cutoff rows)) same rest),
            ground (arith, gone, count, same),
          )
      | inr kept ↦
          let same : max (start + 1) cutoff ≡ start + 1 = ground (arith, h.0, kept) in
          let low : max start cutoff ≡ start = ground (arith, h.0, kept) in
          (
            rw (kept, low) (h.0, subst (λ k. IsFrom k (above cutoff rows)) same rest),
            ground (arith, kept, low, same, count),
          )
    ]

insert_row-IsFrom :
    (row : ℕ × Text) (rows : List (ℕ × Text)) → IsFrom row.0 rows → insert_row row rows ≡ row ∷ rows
unfolding IsFrom insert_row
insert_row-IsFrom row [] h = refl
insert_row-IsFrom row (other ∷ rows) h = ground (arith, h.0)

pub order_by-IsFrom :
    (start : ℕ) (rows : List (ℕ × Text)) → IsFrom start rows → order_by_sequence rows ≡ rows
unfolding IsFrom order_by_sequence
order_by-IsFrom start [] h = refl
order_by-IsFrom start ((n, r) ∷ rows) h =
    rw (order_by-IsFrom (start + 1) rows h.1)
      (insert_row-IsFrom (n, r) rows (subst (λ k. IsFrom k rows) (sym h.0) h.1))

pub rows_of-append :
    (source : Text) (table : List WrpcFrame) (frame : WrpcFrame)
    → rows_of source (table ++ frame ∷ []) ≡ (
        if frame.source == source
        then rows_of source table ++ (frame.sequence, frame.raw_json) ∷ []
        else rows_of source table)
unfolding rows_of
rows_of-append source [] frame = ground arith
rows_of-append source (f ∷ table) frame = ground (arith, rows_of-append source table frame)

pub rows_of-delete :
    (source other : Text) (cutoff : ℕ) (table : List WrpcFrame)
    → rows_of source (delete_through other cutoff table)
      ≡ (if source == other then above cutoff (rows_of source table) else rows_of source table)
unfolding rows_of delete_through
rows_of-delete source other cutoff [] = ground arith
rows_of-delete source other cutoff (f ∷ table) = ground (
  arith,
  rows_of-delete source other cutoff table,
  text_beq_iff f.source other,
  text_beq_iff f.source source,
  text_beq_iff source other,
)
