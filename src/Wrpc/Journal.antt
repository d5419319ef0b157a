-- ===== src/Wrpc/Journal.antt =====
-- src/wrpc.rs: the journal of the frames that a source has sent, numbered without gaps, and the checkpoint up
-- to which the ledger has them. The table `wrpc_frames` is the list of its rows, `WHERE source=?1` is
-- `rows_of`, and `wrpc_checkpoint` is a map by the source. Every call is one transaction, so an error
-- leaves the journal as it was. A sequence is an `i64`: SQLite does not return a greater sum as an
-- integer.
pub mod Sequence
pub mod Invariant
pub mod Calls
pub mod Steps
pub mod Marks
pub mod Reads
use mathlib.Core.Option
use Prim.Native.Nat.{bit_xor, pred}
use kaspa_frontier_engine.Base.{
  ℕ, zero, suc, ◌+◌, ◌-◌, ◌*◌, ◌/◌, ◌%◌, ◌^◌, ◌≤◌, ◌<◌, max, min, ◌≡◌, refl, sym, ap, subst, ◌∙◌,
  ◌≢◌, ◌↔◌, ◌⊎◌, inl, inr, Bool, true, false, not, ◌&&◌, ◌||◌, Option, none, some, List, [], ◌∷◌,
  ◌++◌, map, arith, ltb, leb, nat_beq, if◌then◌else◌, nat_beq_iff, Bool-cases, Option-cases,
  is_some, saturating_sub, checked_add, u64_bound, u128_bound, i64_bound, Result, ok, err, ◌>>=◌,
  ◌>>◌, fail_if, ok_or, to_i64, is_ok, Result-cases,
}
use kaspa_frontier_engine.Base.Lists.{
  length, all, any, any-append, retain, All, All-append, All-retain, All-imp, length-append, IsOnce,
}
use kaspa_frontier_engine.Base.Eq.{Eq, ◌==◌, nat_eq}
use kaspa_frontier_engine.Base.Text.{
  Text, text, text_beq_iff, text_eq, is_empty, is_ascii_digit, is_ascii_lowercase,
  is_ascii_uppercase, is_ascii_alphanumeric, is_ascii_hexdigit, lower, is_whitespace,
}
use kaspa_frontier_engine.Base.Text.{
  text_beq, len, to_ascii_lowercase, trim_start, trim, starts_with,
}
use kaspa_frontier_engine.Base.Map.{
  Map, Set, AllEntries, AllEntries-lookup, AllEntries-insert, AllEntries-update, AllEntries-erase,
  AllEntries-imp, AllEntries-contains, contains, lookup-empty, lookup-insert, lookup-erase,
  lookup-update, map_laws,
}
use kaspa_frontier_engine.Base.Map.{lookup, insert, erase, update}
use kaspa_frontier_engine.Wrpc.{
  RpcOutpoint, RpcScriptPublicKey, RpcUtxoEntry, RpcUtxoEntryRef, WrpcNotification, WrpcError,
  max_wrpc_frame_bytes, max_wrpc_entries, is_hash, is_script, valid_covenant_id, validate_entry,
  entry_key, validate_entries, validate_utxo_change, watched_set, validate_watched_addresses,
  is_watched, require_watched, bool_beq, option_beq, same_entry, to_appearance, required_depth,
  maturity_daa, to_confirmed, utxos_changed, virtual_daa_score_changed, oversized_frame, bad_json,
  has_request_id, server_error, missing_method, missing_params, unsupported_method, not_one_variant,
  missing_variant, unexpected_id, unexpected_method, bad_subscription_id, too_many_entries,
  missing_address, bad_transaction_id, zero_amount, missing_script, bad_script, bad_covenant_id,
  duplicate_outpoint, bad_source, bad_sequence, exceeds_integer_range, conflicting_frame,
  sequence_gap, pending_frames, sequence_overflow, checkpoint_gap, missing_frame, non_contiguous,
  bad_address_count, duplicate_address, foreign_address, moved_backwards, removal_facts_changed,
  addition_facts_changed, maturity_overflow, duplicate_in_snapshot, missing_daa,
  not_testnet_address, ledger_failed,
}
use kaspa_frontier_engine.Wrpc.Codec.{Serde, decode_notification}

pub record WrpcFrame : Type 0 where
  pub source : Text
  pub sequence : ℕ
  pub raw_json : Text

pub record WrpcJournal : Type 0 where
  pub wrpc_frames : List WrpcFrame
  pub wrpc_checkpoint : Map Text ℕ

-- `SELECT sequence, raw_json FROM wrpc_frames WHERE source=?1`
unfoldable pub rows_of : Text → List WrpcFrame → List (ℕ × Text)
rows_of source [] = []
rows_of source (frame ∷ frames) =
    let rest = rows_of source frames in
    if frame.source == source then (frame.sequence, frame.raw_json) ∷ rest else rest

-- `COALESCE(MAX(sequence), 0)`
unfoldable pub max_sequence : List (ℕ × Text) → ℕ
max_sequence [] = 0
max_sequence ((sequence, raw) ∷ rows) = max sequence (max_sequence rows)

-- `SELECT raw_json ... WHERE sequence=?2`
unfoldable pub find_frame : ℕ → List (ℕ × Text) → Option Text
find_frame sequence [] = none
find_frame sequence ((n, raw) ∷ rows) =
    if nat_beq n sequence then some raw else find_frame sequence rows

-- `SELECT COUNT(*) ... WHERE sequence>?2 AND sequence<=?3`
unfoldable pub count_between : ℕ → ℕ → List (ℕ × Text) → ℕ
count_between low high [] = 0
count_between low high ((n, raw) ∷ rows) =
    let rest = count_between low high rows in if ltb low n && leb n high then suc rest else rest

abbrev pub or_zero : Option ℕ → ℕ
or_zero none = 0
or_zero (some n) = n

-- `COALESCE((SELECT sequence FROM wrpc_checkpoint WHERE source=?1), 0)`
unfoldable pub checkpoint_of : Text → WrpcJournal → ℕ
checkpoint_of source journal = or_zero (lookup source journal.wrpc_checkpoint)

abbrev pub frame_rows : Text → WrpcJournal → List (ℕ × Text)
frame_rows source journal = rows_of source journal.wrpc_frames

unfoldable pub next_sequence : Text → WrpcJournal → Result WrpcError ℕ
next_sequence source journal =
    to_i64 (max (max_sequence (frame_rows source journal)) (checkpoint_of source journal) + 1)
      sequence_overflow

unfoldable pub insert_frame : Text → ℕ → Text → WrpcJournal → WrpcJournal
insert_frame source sequence raw_json journal = record journal {
  wrpc_frames =
      journal.wrpc_frames
      ++ record { source = source; sequence = sequence; raw_json = raw_json } ∷ [];
}

-- `INSERT ... ON CONFLICT(source) DO UPDATE`
unfoldable pub set_checkpoint : Text → ℕ → WrpcJournal → WrpcJournal
set_checkpoint source sequence journal = record journal {
  wrpc_checkpoint = insert source sequence journal.wrpc_checkpoint;
}

unfoldable pub validate_source : Text → Result WrpcError (Unit {0})
validate_source source = fail_if (is_empty (trim source) || ltb 256 (len source)) bad_source

-- `SELECT EXISTS(... sequence>?2)`
abbrev pub has_pending : ℕ → List (ℕ × Text) → Bool
has_pending checkpoint rows = any (λ row. ltb checkpoint row.0) rows

-- The transaction of `record`, with the frame that is there.
unfoldable pub record_at :
    WrpcJournal → Text → ℕ → Text → Option Text → Result WrpcError (Bool × WrpcJournal)
record_at journal source sequence raw_json (some existing) =
    if existing == raw_json then ok (false, journal) else err conflicting_frame
record_at journal source sequence raw_json none = do
  expected ← next_sequence source journal
  fail_if (not (nat_beq sequence expected)) sequence_gap
  ok (true, insert_frame source sequence raw_json journal)

abbrev pub Done : Type 0
Done = Result WrpcError WrpcJournal

-- The transaction of the two calls that move the checkpoint, up to their test of the frames.
unfoldable pub advance_checkpoint : WrpcJournal → Text → ℕ → WrpcError → Bool → Done
advance_checkpoint journal source sequence error passes = do
  fail_if (not passes) error
  ok (set_checkpoint source sequence journal)

module _ (serde : Serde) where
  unfoldable pub record_frame :
      WrpcJournal → Text → ℕ → Text → Result WrpcError (Bool × WrpcJournal)
  record_frame journal source sequence raw_json = do
    validate_source source
    fail_if (nat_beq sequence 0) bad_sequence
    notification ← decode_notification serde raw_json
    n ← to_i64 sequence exceeds_integer_range
    record_at journal source n raw_json (find_frame n (frame_rows source journal))

  unfoldable pub append : WrpcJournal → Text → Text → Result WrpcError (ℕ × WrpcJournal)
  append journal source raw_json = do
    validate_source source
    notification ← decode_notification serde raw_json
    sequence ← next_sequence source journal
    ok (sequence, insert_frame source sequence raw_json journal)

  unfoldable pub append_applied : WrpcJournal → Text → Text → Result WrpcError (ℕ × WrpcJournal)
  append_applied journal source raw_json = do
    validate_source source
    notification ← decode_notification serde raw_json
    let checkpoint = checkpoint_of source journal
    fail_if (has_pending checkpoint (frame_rows source journal)) pending_frames
    sequence ← to_i64 (checkpoint + 1) sequence_overflow
    ok (sequence, set_checkpoint source sequence (insert_frame source sequence raw_json journal))

unfoldable pub checkpoint : WrpcJournal → Text → Result WrpcError ℕ
checkpoint journal source = do validate_source source; ok (checkpoint_of source journal)

-- `DELETE ... WHERE source=?1 AND sequence<=?2`
unfoldable pub delete_through : Text → ℕ → List WrpcFrame → List WrpcFrame
delete_through source cutoff frames =
    retain (λ frame. not (frame.source == source && leb frame.sequence cutoff)) frames

unfoldable pub prune_applied : WrpcJournal → Text → ℕ → Result WrpcError (ℕ × WrpcJournal)
prune_applied journal source retained = do
  at ← checkpoint journal source
  cutoff ← to_i64 (saturating_sub at retained) exceeds_integer_range
  let left = delete_through source cutoff journal.wrpc_frames
  ok (length journal.wrpc_frames - length left, record journal { wrpc_frames = left })

-- `ORDER BY sequence ASC`
unfoldable pub insert_row : ℕ × Text → List (ℕ × Text) → List (ℕ × Text)
insert_row row [] = row ∷ []
insert_row row (other ∷ rows) =
    if leb row.0 other.0 then row ∷ other ∷ rows else other ∷ insert_row row rows

unfoldable pub order_by_sequence : List (ℕ × Text) → List (ℕ × Text)
order_by_sequence [] = []
order_by_sequence (row ∷ rows) = insert_row row (order_by_sequence rows)

abbrev pub frame_of : Text → ℕ × Text → WrpcFrame
frame_of source row = record { source = source; sequence = row.0; raw_json = row.1 }

unfoldable pub frames : WrpcJournal → Text → Result WrpcError (List WrpcFrame)
frames journal source = do
  validate_source source
  ok (map (frame_of source) (order_by_sequence (frame_rows source journal)))

-- The test before a frame is marked as applied.
unfoldable pub mark_at : WrpcJournal → Text → ℕ → ℕ → Done
mark_at journal source sequence at = if leb sequence at then ok journal else do
  fail_if (not (nat_beq sequence (at + 1))) checkpoint_gap
  advance_checkpoint journal source sequence missing_frame
      (is_some (find_frame sequence (frame_rows source journal)))

unfoldable pub mark_applied : WrpcJournal → Text → ℕ → Done
mark_applied journal source sequence = do
  validate_source source
  fail_if (nat_beq sequence 0) bad_sequence
  n ← to_i64 sequence exceeds_integer_range
  mark_at journal source n (checkpoint_of source journal)

unfoldable pub mark_through_at : WrpcJournal → Text → ℕ → ℕ → Done
mark_through_at journal source sequence at =
    if leb sequence at
    then ok journal
    else advance_checkpoint journal source sequence non_contiguous
        (nat_beq (count_between at sequence (frame_rows source journal)) (sequence - at))

unfoldable pub mark_applied_through : WrpcJournal → Text → ℕ → Done
mark_applied_through journal source sequence = do
  validate_source source
  fail_if (nat_beq sequence 0) bad_sequence
  n ← to_i64 sequence exceeds_integer_range
  mark_through_at journal source n (checkpoint_of source journal)
