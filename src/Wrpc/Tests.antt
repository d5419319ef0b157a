-- ===== src/Wrpc/Tests.antt =====
-- Frames of two kinds through the codec, the journal, the projection and the replay.
use kaspa_frontier_engine.Base.{
  ℕ, ◌+◌, ◌≤◌, ◌≡◌, refl, ◌≢◌, false, not, ◌&&◌, ◌||◌, Option, none, some, List, [], ◌∷◌, ◌++◌, map,
  arith, nat_beq, if◌then◌else◌, ok, err, ◌>>=◌,
}
use kaspa_frontier_engine.Base.Lists.{any, All, IsOnce}
use kaspa_frontier_engine.Base.Eq.{nat_eq}
use kaspa_frontier_engine.Base.Text.{Text, text, text_eq}
use kaspa_frontier_engine.Base.Text.{text_beq, len, trim_start, trim}
use kaspa_frontier_engine.Base.Map.{Map, Set, contains}
use kaspa_frontier_engine.Base.Map.{lookup, insert, erase, update}
use kaspa_frontier_engine.Wrpc.{
  RpcUtxoEntryRef, WrpcNotification, is_hash, is_script, validate_entry, entry_key,
  validate_entries, validate_utxo_change, watched_set, validate_watched_addresses, require_watched,
  same_entry, to_appearance, required_depth, maturity_daa, to_confirmed, utxos_changed,
  virtual_daa_score_changed, sequence_gap,
}
use kaspa_frontier_engine.Wrpc.Codec.{Serde, decode_notification}
use kaspa_frontier_engine.Wrpc.Journal.{
  WrpcFrame, WrpcJournal, rows_of, max_sequence, find_frame, count_between, checkpoint_of,
  next_sequence, insert_frame, set_checkpoint, validate_source, record_at, advance_checkpoint,
  record_frame, append, checkpoint, delete_through, prune_applied, insert_row, order_by_sequence,
  frames, mark_at, mark_applied, mark_through_at, mark_applied_through,
}
use kaspa_frontier_engine.Base.Ordered.{insert_ordered}
use kaspa_frontier_engine.Outpoint.{Outpoint, outpoint_eq, outpoint_beq}
use kaspa_frontier_engine.Exchange.{UtxoAppearance, ConfirmedDeposit}
use kaspa_frontier_engine.Wrpc.Projection.{
  WrpcDepositSnapshot, WrpcDepositProjection, default_projection, text_before, point_before,
  schedule, Changes, no_changes, State, observe_at, observe_all, mature_at, mature_keys, pop_mature,
  apply_score, remove_at, remove_one, admit, confirm_new, admit_at, add_at, add_one, each,
  apply_change, has_changes, snapshot_of, finish, apply_strict, apply_addresses, live_count,
}
use kaspa_frontier_engine.Wrpc.Bootstrap.{
  AddressUtxo, entry_of, replace_all, difference, schedule_all, confirm_shown, show_one, show_all,
  full_snapshot, bootstrap_addresses,
}
use kaspa_frontier_engine.Wrpc.Replay.{
  WrpcReplayReport, Durable, reconcile_snapshot, settle, project, replay_frames, read_journal,
  replay_into_ledger_addresses,
}
use kaspa_frontier_engine.Deposits
use kaspa_frontier_engine.Deposits.{
  DepositError, DepositLedger, Reconciled, reconcile, confirm_all, confirm_one, confirm_at,
  credit_at, disappear_all, same_facts, first_row, insert_outbox, find_event, next_id, credit_row,
  new_event,
}
use kaspa_frontier_engine.Network.{is_valid_testnet_address}
use kaspa_frontier_engine.EventKey.{event_key, digits}
use kaspa_frontier_engine.Wrpc.Codec.{
  WrpcServerMessage, parse_message, exact_notification_variant, decode_utxos_changed,
  decode_virtual_daa, decode_payload,
}
use kaspa_frontier_engine.Wrpc.Valid.{IsEntry, decode_notification-valid}
use kaspa_frontier_engine.Wrpc.Journal.Sequence.{IsFrom}
use kaspa_frontier_engine.Wrpc.Journal.Invariant.{IsSound}
use kaspa_frontier_engine.Wrpc.Journal.Steps.{
  appends, marks_through, prunes, JournalRun, stop, next, calls-IsSound,
}
use kaspa_frontier_engine.Wrpc.Journal.{frame_rows}
use kaspa_frontier_engine.Wrpc.Journal.Marks.{mark_each, as_option}
use kaspa_frontier_engine.Wrpc.Journal.Reads.{
  last_number, is_stored, new_checkpoint, frames-append, mark_through-each,
}
use kaspa_frontier_engine.Wrpc.Projection.Live.{names, apply_change-live}
use kaspa_frontier_engine.Wrpc.Projection.Maturity.{IsDeep, WellScheduled}
use kaspa_frontier_engine.Wrpc.Projection.Confirms.{apply_score-IsDeep, apply_change-IsDeep}
use kaspa_frontier_engine.Wrpc.Rebuilt.{bootstrap-rebuilds}
use kaspa_frontier_engine.Wrpc.Replay.Again.{replay_again}

abbrev address : Text
address = text "kaspatest:qptv6u8kel95drh2p2z492cyksk8lpetep286fngqu5j9nk57g642lzf748kt"

abbrev tx_id : Text
tx_id = text "0123456789abcdef0123456789abcdef0123456789abcdef0123456789abcdef"

abbrev output : ℕ → RpcUtxoEntryRef
output block = record {
  address = some address;
  outpoint = record { transaction_id = tx_id; index = 0 };
  utxo_entry = record {
    amount = 500;
    script_public_key = record { script_public_key = some (text "20ac"); version = 0 };
    block_daa_score = block;
    is_coinbase = false;
    covenant_id = none;
    storage_mass = none;
  };
}

-- A payload, or an object of one.
data Json : Type 0 where
  payload : WrpcNotification → Json
  object : Text → WrpcNotification → Json

abbrev object_of : Json → Option (Map Text Json)
object_of (payload n) = none
object_of (object key n) = some ((key, payload n) ∷ [])

abbrev change_of : Json → Option (List RpcUtxoEntryRef × List RpcUtxoEntryRef)
change_of (payload (utxos_changed added removed)) = some (added, removed)
change_of _ = none

abbrev score_of : Json → Option ℕ
score_of (payload (virtual_daa_score_changed score)) = some score
score_of _ = none

abbrev notice : Text → Json → WrpcServerMessage Json
notice method params = record {
  id = none;
  method = some method;
  params = some params;
  error = false;
}

-- The frame `u` adds the output, `d` tells the score 160.
abbrev message_of : Text → Option (WrpcServerMessage Json)
message_of (c ∷ []) =
    if nat_beq c b'u'
    then some (
        notice (text "utxosChangedNotification")
          (object (text "UtxosChanged") (utxos_changed (output 100 ∷ []) [])))
    else if nat_beq c b'd'
    then some (
        notice (text "virtualDaaScoreChangedNotification")
          (object (text "VirtualDaaScoreChanged") (virtual_daa_score_changed 160)))
    else none
message_of _ = none

abbrev toy : Serde
toy = record {
  Value = Json;
  from_str = message_of;
  as_object = object_of;
  as_u64 = λ v. none;
  utxos_changed_params = change_of;
  virtual_daa_params = score_of;
}

-- Everything that a run computes with.
everything : ℕ
unfolding decode_notification parse_message decode_payload decode_utxos_changed decode_virtual_daa
    exact_notification_variant validate_utxo_change validate_entries validate_entry is_hash
    is_script is_valid_testnet_address text_beq len trim trim_start lookup insert update erase
    outpoint_beq append record_frame record_at next_sequence max_sequence rows_of checkpoint_of
    insert_frame validate_source find_frame count_between set_checkpoint mark_applied mark_at
    mark_applied_through mark_through_at advance_checkpoint prune_applied checkpoint delete_through
    order_by_sequence insert_row frames validate_watched_addresses watched_set apply_addresses
    apply_strict apply_score apply_change each remove_one remove_at add_one add_at admit admit_at
    confirm_new require_watched maturity_daa required_depth to_appearance to_confirmed same_entry
    schedule insert_ordered point_before text_before observe_all observe_at pop_mature mature_keys
    mature_at finish snapshot_of has_changes live_count
everything = 0

abbrev node : Text
node = text "node"

abbrev journal0 : WrpcJournal
journal0 = record { wrpc_frames = []; wrpc_checkpoint = [] }

abbrev frame : ℕ → Text → WrpcFrame
frame n raw = record { source = node; sequence = n; raw_json = raw }

abbrev journal1 : WrpcJournal
journal1 = record { wrpc_frames = frame 1 (text "u") ∷ []; wrpc_checkpoint = [] }

abbrev journal2 : WrpcJournal
journal2 = record {
  wrpc_frames = frame 1 (text "u") ∷ frame 2 (text "d") ∷ [];
  wrpc_checkpoint = [];
}

abbrev journal3 : WrpcJournal
journal3 = record journal2 { wrpc_checkpoint = (node, 2) ∷ [] }

abbrev journal4 : WrpcJournal
journal4 = record { wrpc_frames = frame 2 (text "d") ∷ []; wrpc_checkpoint = (node, 2) ∷ [] }

append_run : append toy journal0 node (text "u") ≡ ok (1, journal1)
unfolding everything
append_run = refl

append_next : append toy journal1 node (text "d") ≡ ok (2, journal2)
unfolding everything
append_next = refl

mark_run : mark_applied_through journal2 node 2 ≡ ok journal3
unfolding everything
mark_run = refl

prune_run : prune_applied journal3 node 1 ≡ ok (1, journal4)
unfolding everything
prune_run = refl

-- A frame that was pruned is not recorded again.
record_pruned : record_frame toy journal4 node 1 (text "u") ≡ err sequence_gap
unfolding everything
record_pruned = refl

journal0-IsSound : IsSound journal0
unfolding IsSound IsFrom everything
journal0-IsSound source = record {
  start = 0;
  numbered = tt;
  pruned_applied = omega arith;
  applied_stored = omega arith;
}

whole_journal : JournalRun toy journal0 journal4
whole_journal = next (appends node (text "u") 1 append_run) (
    next (appends node (text "d") 2 append_next)
      (next (marks_through node 2 mark_run) (next (prunes node 1 1 prune_run) stop)))

calls-IsSound_example : IsSound journal4
calls-IsSound_example = calls-IsSound toy journal0 journal4 whole_journal journal0-IsSound

frames-append_example :
    (before : List WrpcFrame) × (frames journal0 node ≡ ok before)
    × (1 ≡ last_number (checkpoint_of node journal0) before + 1)
    × (frames journal1 node ≡ ok (before ++ frame 1 (text "u") ∷ []))
    × ((other : Text) → other ≢ node → frames journal1 other ≡ frames journal0 other)
frames-append_example =
    frames-append toy journal0 node (text "u") 1 journal1 journal0-IsSound append_run

journal2-IsSound : IsSound journal2
journal2-IsSound =
    calls-IsSound toy journal0 journal2
      (next (appends node (text "u") 1 append_run)
        (next (appends node (text "d") 2 append_next) stop))
      journal0-IsSound

node_valid : validate_source node ≡ ok tt
unfolding everything
node_valid = refl

mark_through-each_example :
    (as_option (mark_applied_through journal2 node (checkpoint_of node journal2 + 2))
      ≡ as_option (mark_each node 2 (checkpoint_of node journal2) journal2))
    × (new_checkpoint node (mark_applied_through journal2 node (checkpoint_of node journal2 + 2))
        ≡ (if is_stored (checkpoint_of node journal2 + 2) (frame_rows node journal2)
            then some (checkpoint_of node journal2 + 2)
            else none))
unfolding everything
mark_through-each_example =
    mark_through-each node node_valid 1 journal2 journal2-IsSound (omega arith)

decode_run : decode_notification toy (text "u") ≡ ok (utxos_changed (output 100 ∷ []) [])
unfolding everything
decode_run = refl

decode_notification-valid_example :
    (1 ≤ 10000) × All IsEntry (output 100 ∷ []) × IsOnce (map entry_key (output 100 ∷ []))
decode_notification-valid_example =
    decode_notification-valid toy (text "u") (output 100 ∷ []) [] decode_run

abbrev watched : Set Text
watched = (address, tt) ∷ []

abbrev key : Outpoint
key = record { tx_id = tx_id; output_index = 0 }

abbrev appearance : ℕ → ℕ → UtxoAppearance
appearance block daa = record {
  tx_id = tx_id;
  output_index = 0;
  address = address;
  amount_sompi = 500;
  block_daa_score = block;
  virtual_daa = daa;
  is_coinbase = false;
}

abbrev deposit : ℕ → ℕ → ConfirmedDeposit
deposit block count = record {
  tx_id = tx_id;
  output_index = 0;
  address = address;
  amount_sompi = 500;
  block_daa_score = block;
  confirmations = count;
  is_coinbase = false;
}

abbrev at_150 : WrpcDepositProjection
at_150 = record default_projection { virtual_daa = some 150 }

abbrev waiting : WrpcDepositProjection
waiting = record {
  virtual_daa = some 150;
  live = (key, output 100) ∷ [];
  maturity_schedule = (160, key ∷ []) ∷ [];
  mature = [];
  unobserved = [];
}

abbrev waiting_changes : Changes
waiting_changes = record no_changes { observed = appearance 100 150 ∷ [] }

add_run : apply_change at_150 watched (output 100 ∷ []) [] ≡ ok (waiting, waiting_changes)
unfolding everything
add_run = refl

apply_change-live_example :
    contains key waiting.live
    ≡ (names key (output 100 ∷ []) || (contains key at_150.live && not (names key [])))
apply_change-live_example =
    apply_change-live at_150 watched (output 100 ∷ []) [] (waiting, waiting_changes) key add_run

apply_change-IsDeep_example :
    All (IsDeep 150) waiting_changes.confirmed
    × WellScheduled waiting.live waiting.maturity_schedule
unfolding IsOnce
apply_change-IsDeep_example =
    apply_change-IsDeep at_150 watched (output 100 ∷ []) [] 150 (waiting, waiting_changes) tt refl
      (tt, tt) (tt, tt) add_run

abbrev confirmed_state : State
confirmed_state = (
  record waiting { virtual_daa = some 160; maturity_schedule = []; mature = (key, tt) ∷ [] },
  record no_changes { confirmed = deposit 100 60 ∷ [] },
)

score_run : apply_score waiting 160 ≡ ok confirmed_state
unfolding everything
score_run = refl

waiting-WellScheduled : WellScheduled waiting.live waiting.maturity_schedule
waiting-WellScheduled =
    (apply_change-IsDeep at_150 watched (output 100 ∷ []) [] 150 (waiting, waiting_changes) tt refl
      (tt, tt) (unfold IsOnce in (tt, tt)) add_run).1

apply_score-IsDeep_example : All (IsDeep 160) (deposit 100 60 ∷ []) × WellScheduled waiting.live []
apply_score-IsDeep_example =
    apply_score-IsDeep waiting 160 confirmed_state waiting-WellScheduled score_run

-- An output that was removed and added again, in a later block, is confirmed by the schedule of its first entry: here with
-- 10 confirmations where 60 are required.
abbrev again : WrpcDepositProjection
again = record {
  virtual_daa = none;
  live = (key, output 150) ∷ [];
  maturity_schedule = (160, key ∷ []) ∷ (210, key ∷ []) ∷ [];
  mature = [];
  unobserved = (key, tt) ∷ [];
}

again_run :
    (do
      state ← apply_change default_projection watched (output 100 ∷ []) []
      gone ← apply_change state.0 watched [] (output 100 ∷ [])
      apply_change gone.0 watched (output 150 ∷ []) [])
    ≡ ok (again, no_changes)
unfolding everything
again_run = refl

early_run :
    apply_addresses again (virtual_daa_score_changed 160) (address ∷ [])
    ≡ ok (
      some (record {
        virtual_daa = 160;
        observed = appearance 150 160 ∷ [];
        confirmed = deposit 150 10 ∷ [];
        disappeared_outpoints = [];
      }),
      record again {
        virtual_daa = some 160;
        maturity_schedule = (210, key ∷ []) ∷ [];
        mature = (key, tt) ∷ [];
        unobserved = [];
      },
    )
unfolding everything
early_run = refl

abbrev scan : List AddressUtxo
scan =
    record {
      address = address;
      outpoint = (output 100).outpoint;
      utxo_entry = (output 100).utxo_entry;
    }
    ∷ []

abbrev scanned : WrpcDepositProjection
scanned = record waiting { virtual_daa = some 170; maturity_schedule = []; mature = (key, tt) ∷ [] }

abbrev scan_snapshot : WrpcDepositSnapshot
scan_snapshot = record {
  virtual_daa = 170;
  observed = appearance 100 170 ∷ [];
  confirmed = deposit 100 70 ∷ [];
  disappeared_outpoints = [];
}

scan_run :
    bootstrap_addresses default_projection 170 scan (address ∷ []) ≡ ok (scan_snapshot, scanned)
unfolding everything bootstrap_addresses replace_all schedule_all difference full_snapshot show_all
    show_one confirm_shown
scan_run = refl

bootstrap-rebuilds_example :
    ((j : Outpoint)
      → contains j scanned.live ≡ any (λ u. outpoint_beq j (entry_key (entry_of u))) scan)
    × (scanned.virtual_daa ≡ some 170)
    × WellScheduled scanned.live scanned.maturity_schedule
    × All (IsDeep 170) (deposit 100 70 ∷ [])
bootstrap-rebuilds_example =
    bootstrap-rebuilds default_projection 170 scan (address ∷ []) scan_snapshot scanned scan_run

abbrev no_deposits : DepositLedger
no_deposits = record { deposits = []; legacy_credits = []; outbox = [] }

abbrev one_deposit : DepositLedger
one_deposit = record {
  deposits = (key, credit_row 160 (first_row 160 false (appearance 100 160))) ∷ [];
  legacy_credits = [];
  outbox = (1, new_event (text "credit") key 500 address) ∷ [];
}

abbrev replayed : Durable
replayed = (journal3, one_deposit)

abbrev replay_result : WrpcReplayReport × WrpcDepositProjection
replay_result = (
  record { checkpoint = 2; frame_count = 2; live_utxos = 1 },
  record waiting { virtual_daa = some 160; maturity_schedule = []; mature = (key, tt) ∷ [] },
)

replay_run :
    replay_into_ledger_addresses toy (address ∷ []) node (journal2, no_deposits)
    ≡ (ok replay_result, replayed)
unfolding everything replay_into_ledger_addresses read_journal replay_frames project settle
    reconcile_snapshot reconcile Deposits.observe_all Deposits.observe_one Deposits.observe_at
    confirm_all confirm_one confirm_at credit_at disappear_all same_facts first_row insert_outbox
    find_event next_id event_key digits
replay_run = refl

replay_again_example :
    replay_into_ledger_addresses toy (address ∷ []) node replayed ≡ (ok replay_result, replayed)
replay_again_example =
    replay_again toy (address ∷ []) node (journal2, no_deposits) replayed replay_result replay_run
