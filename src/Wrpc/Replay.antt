-- ===== src/Wrpc/Replay.antt =====
-- src/wrpc.rs: the replay of the journal into the deposit ledger. Each frame is one transaction on the ledger's database
-- and one on the journal's, so a call that fails at a frame keeps what the frames before it have
-- written, and the ledger's write of that frame where only its mark failed. The journal and the ledger are returned with the
-- error too.
pub mod Again
use mathlib.Core.Option
use Prim.Native.Nat.{bit_xor, pred}
use kaspa_frontier_engine.Base.{
  ℕ, zero, suc, ◌+◌, ◌-◌, ◌*◌, ◌/◌, ◌%◌, ◌^◌, ◌≤◌, ◌<◌, max, min, ◌≡◌, refl, sym, ap, subst, ◌∙◌,
  ◌≢◌, ◌↔◌, ◌⊎◌, inl, inr, Bool, true, false, not, ◌&&◌, ◌||◌, Option, none, some, List, [], ◌∷◌,
  ◌++◌, map, arith, ltb, leb, nat_beq, if◌then◌else◌, nat_beq_iff, Bool-cases, Option-cases,
  is_some, saturating_sub, checked_add, u64_bound, u128_bound, i64_bound, Result, ok, err, ◌>>=◌,
  ◌>>◌, fail_if, ok_or, to_i64, is_ok, Result-cases,
}
use kaspa_frontier_engine.Base.Lists.{
  length, all, any, any-append, retain, All, All-append, All-retain, All-imp, length-append, IsOnce,
}
use kaspa_frontier_engine.Base.Eq.{Eq, ◌==◌, nat_eq}
use kaspa_frontier_engine.Base.Text.{
  Text, text, text_beq_iff, text_eq, is_empty, is_ascii_digit, is_ascii_lowercase,
  is_ascii_uppercase, is_ascii_alphanumeric, is_ascii_hexdigit, lower, is_whitespace,
}
use kaspa_frontier_engine.Base.Text.{
  text_beq, len, to_ascii_lowercase, trim_start, trim, starts_with,
}
use kaspa_frontier_engine.Base.Map.{
  Map, Set, AllEntries, AllEntries-lookup, AllEntries-insert, AllEntries-update, AllEntries-erase,
  AllEntries-imp, AllEntries-contains, contains, lookup-empty, lookup-insert, lookup-erase,
  lookup-update, map_laws,
}
use kaspa_frontier_engine.Base.Map.{lookup, insert, erase, update}
use kaspa_frontier_engine.Wrpc.{
  RpcOutpoint, RpcScriptPublicKey, RpcUtxoEntry, RpcUtxoEntryRef, WrpcNotification, WrpcError,
  max_wrpc_frame_bytes, max_wrpc_entries, is_hash, is_script, valid_covenant_id, validate_entry,
  entry_key, validate_entries, validate_utxo_change, watched_set, validate_watched_addresses,
  is_watched, require_watched, bool_beq, option_beq, same_entry, to_appearance, required_depth,
  maturity_daa, to_confirmed, utxos_changed, virtual_daa_score_changed, oversized_frame, bad_json,
  has_request_id, server_error, missing_method, missing_params, unsupported_method, not_one_variant,
  missing_variant, unexpected_id, unexpected_method, bad_subscription_id, too_many_entries,
  missing_address, bad_transaction_id, zero_amount, missing_script, bad_script, bad_covenant_id,
  duplicate_outpoint, bad_source, bad_sequence, exceeds_integer_range, conflicting_frame,
  sequence_gap, pending_frames, sequence_overflow, checkpoint_gap, missing_frame, non_contiguous,
  bad_address_count, duplicate_address, foreign_address, moved_backwards, removal_facts_changed,
  addition_facts_changed, maturity_overflow, duplicate_in_snapshot, missing_daa,
  not_testnet_address, ledger_failed,
}
use kaspa_frontier_engine.Wrpc.Codec.{Serde, decode_notification}
use kaspa_frontier_engine.Wrpc.Journal.{
  WrpcFrame, WrpcJournal, rows_of, max_sequence, find_frame, count_between, or_zero, checkpoint_of,
  frame_rows, next_sequence, insert_frame, set_checkpoint, validate_source, has_pending, record_at,
  Done, advance_checkpoint, record_frame, append, append_applied, checkpoint, delete_through,
  prune_applied, insert_row, order_by_sequence, frame_of, frames, mark_at, mark_applied,
  mark_through_at, mark_applied_through,
}
use kaspa_frontier_engine.Base.Ordered.{insert_ordered, lookup-insert_ordered}
use kaspa_frontier_engine.Outpoint.{Outpoint, outpoint_eq, outpoint_beq, outpoint_beq_iff}
use kaspa_frontier_engine.Exchange.{UtxoAppearance, ConfirmedDeposit}
use kaspa_frontier_engine.Wrpc.Projection.{
  WrpcDepositSnapshot, WrpcDepositProjection, default_projection, text_before, point_before,
  or_empty, schedule, Changes, no_changes, State, observe_at, observe_all, Matured, mature_at,
  mature_keys, pop_mature, moves_backwards, apply_score, vanish, remove_at, remove_one, admit,
  confirm_new, admit_at, add_at, add_one, each, apply_change, has_changes, snapshot_of, Applied,
  finish, apply_strict, apply_addresses, live_count,
}
use kaspa_frontier_engine.Deposits.{DepositError, DepositLedger, Reconciled, reconcile}

pub record WrpcReplayReport : Type 0 where
  pub checkpoint : ℕ
  pub frame_count : ℕ
  pub live_utxos : ℕ

abbrev pub Durable : Type 0
Durable = WrpcJournal × DepositLedger

abbrev pub ledger_result : Reconciled → Result WrpcError DepositLedger
ledger_result (ok ledger) = ok ledger
ledger_result (err e) = err (ledger_failed e)

unfoldable pub reconcile_snapshot :
    DepositLedger → Option WrpcDepositSnapshot → Result WrpcError DepositLedger
reconcile_snapshot ledger none = ok ledger
reconcile_snapshot ledger (some snapshot) = ledger_result (
    reconcile ledger snapshot.virtual_daa snapshot.observed snapshot.confirmed
      snapshot.disappeared_outpoints)

abbrev pub Settled : Type 0
Settled = Result WrpcError (Unit {0}) × Durable

abbrev pub marked : WrpcJournal → DepositLedger → Done → Settled
marked journal ledger (ok journal') = (ok tt, (journal', ledger))
marked journal ledger (err e) = (err e, (journal, ledger))

abbrev pub settle_with : Durable → Text → ℕ → Result WrpcError DepositLedger → Settled
settle_with (journal, ledger) source sequence (err e) = (err e, (journal, ledger))
settle_with (journal, ledger) source sequence (ok ledger') =
    marked journal ledger' (mark_applied journal source sequence)

-- The end of a round: the ledger takes the snapshot, then the frame is marked.
unfoldable pub settle : Durable → Text → ℕ → Option WrpcDepositSnapshot → Settled
settle durable source sequence snapshot =
    settle_with durable source sequence (reconcile_snapshot durable.1 snapshot)

abbrev pub Replayed : Type 0
Replayed = Result WrpcError WrpcDepositProjection × Durable

module _ (serde : Serde) (watched_addresses : List Text) (source : Text) where
  -- What a frame does to the projection.
  unfoldable pub project : WrpcDepositProjection → WrpcFrame → Applied
  project projection frame = do
    notification ← decode_notification serde frame.raw_json
    apply_addresses projection notification watched_addresses

  -- The loop over the frames: those up to the checkpoint at the start only rebuild the projection.
  unfoldable pub replay_frames : ℕ → WrpcDepositProjection → Durable → List WrpcFrame → Replayed
  replay_frames start projection durable [] = (ok projection, durable)
  replay_frames start projection durable (frame ∷ rest) = elim (project projection frame) [
    | err e ↦ (err e, durable)
    | ok (snapshot, projection') ↦ elim (leb frame.sequence start) [
      | true ↦ replay_frames start projection' durable rest
      | false ↦
          let (settled, durable') = settle durable source frame.sequence snapshot in
          elim settled [
            | err e ↦ (err e, durable')
            | ok x ↦ replay_frames start projection' durable' rest
          ]
    ]
  ]

  -- The score of a notification that the snapshot has overtaken.
  abbrev pub is_overtaken : WrpcDepositProjection → WrpcNotification → Bool
  is_overtaken projection (utxos_changed added removed) = false
  is_overtaken projection (virtual_daa_score_changed score) =
      moves_backwards projection.virtual_daa score

  -- A frame that is pending: an overtaken score is only marked.
  unfoldable pub project_pending : WrpcDepositProjection → WrpcFrame → Applied
  project_pending projection frame = do
    notification ← decode_notification serde frame.raw_json
    if is_overtaken projection notification
        then ok (none, projection)
        else apply_addresses projection notification watched_addresses

  unfoldable pub apply_frames : ℕ → WrpcDepositProjection → Durable → List WrpcFrame → Replayed
  apply_frames start projection durable [] = (ok projection, durable)
  apply_frames start projection durable (frame ∷ rest) = elim (leb frame.sequence start) [
    | true ↦ apply_frames start projection durable rest
    | false ↦ elim (project_pending projection frame) [
      | err e ↦ (err e, durable)
      | ok (snapshot, projection') ↦
          let (settled, durable') = settle durable source frame.sequence snapshot in
          elim settled [
            | err e ↦ (err e, durable')
            | ok x ↦ apply_frames start projection' durable' rest
          ]
    ]
  ]

  abbrev pub Reported : Type 0
  Reported = Result WrpcError (WrpcReplayReport × WrpcDepositProjection) × Durable

  abbrev pub report : ℕ → Replayed → Reported
  report count (err e, durable) = (err e, durable)
  report count (ok projection, (journal, ledger)) = (
    do
      at ← checkpoint journal source
      ok (
        record { checkpoint = at; frame_count = count; live_utxos = live_count projection },
        projection,
      ),
    (journal, ledger),
  )

  -- The checkpoint at the start and the frames.
  unfoldable pub read_journal : WrpcJournal → Result WrpcError (ℕ × List WrpcFrame)
  read_journal journal = do
    at ← checkpoint journal source
    stored ← frames journal source
    ok (at, stored)

  unfoldable pub replay_into_ledger_addresses : Durable → Reported
  replay_into_ledger_addresses durable = elim (read_journal durable.0) [
    | err e ↦ (err e, durable)
    | ok (at, stored) ↦ report (length stored) (replay_frames at default_projection durable stored)
  ]

  unfoldable pub apply_pending_journal_frames : WrpcDepositProjection → Durable → Reported
  apply_pending_journal_frames projection durable = elim (read_journal durable.0) [
    | err e ↦ (err e, durable)
    | ok (at, stored) ↦ report (length stored) (apply_frames at projection durable stored)
  ]
