-- ===== src/Wrpc/Projection.antt =====
-- src/wrpc.rs: the outputs of the watched addresses as the notifications tell them, with the schedule of
-- their maturity, and the deposits that every notification observes, confirms or takes away. A
-- `BTreeMap` is a list in the order of its keys; a `HashSet` is taken in the order of its insertions,
-- where the code takes it in any order. A call that fails gives its error, and what it leaves of the
-- projection is not modelled.
pub mod Live
pub mod Maturity
pub mod Deep
pub mod Added
pub mod Confirms
use mathlib.Core.Option
use Prim.Native.Nat.{bit_xor, pred}
use kaspa_frontier_engine.Base.{
  ℕ, zero, suc, ◌+◌, ◌-◌, ◌*◌, ◌/◌, ◌%◌, ◌^◌, ◌≤◌, ◌<◌, max, min, ◌≡◌, refl, sym, ap, subst, ◌∙◌,
  ◌≢◌, ◌↔◌, ◌⊎◌, inl, inr, Bool, true, false, not, ◌&&◌, ◌||◌, Option, none, some, List, [], ◌∷◌,
  ◌++◌, map, arith, ltb, leb, nat_beq, if◌then◌else◌, nat_beq_iff, Bool-cases, Option-cases,
  is_some, saturating_sub, checked_add, u64_bound, u128_bound, i64_bound, Result, ok, err, ◌>>=◌,
  ◌>>◌, fail_if, ok_or, to_i64, is_ok, Result-cases,
}
use kaspa_frontier_engine.Base.Lists.{
  length, all, any, any-append, retain, All, All-append, All-retain, All-imp, length-append, IsOnce,
}
use kaspa_frontier_engine.Base.Eq.{Eq, ◌==◌, nat_eq}
use kaspa_frontier_engine.Base.Text.{
  Text, text, text_beq_iff, text_eq, is_empty, is_ascii_digit, is_ascii_lowercase,
  is_ascii_uppercase, is_ascii_alphanumeric, is_ascii_hexdigit, lower, is_whitespace,
}
use kaspa_frontier_engine.Base.Text.{
  text_beq, len, to_ascii_lowercase, trim_start, trim, starts_with,
}
use kaspa_frontier_engine.Base.Map.{
  Map, Set, AllEntries, AllEntries-lookup, AllEntries-insert, AllEntries-update, AllEntries-erase,
  AllEntries-imp, AllEntries-contains, contains, lookup-empty, lookup-insert, lookup-erase,
  lookup-update, map_laws,
}
use kaspa_frontier_engine.Base.Map.{lookup, insert, erase, update}
use kaspa_frontier_engine.Wrpc.{
  RpcOutpoint, RpcScriptPublicKey, RpcUtxoEntry, RpcUtxoEntryRef, WrpcNotification, WrpcError,
  max_wrpc_frame_bytes, max_wrpc_entries, is_hash, is_script, valid_covenant_id, validate_entry,
  entry_key, validate_entries, validate_utxo_change, watched_set, validate_watched_addresses,
  is_watched, require_watched, bool_beq, option_beq, same_entry, to_appearance, required_depth,
  maturity_daa, to_confirmed, utxos_changed, virtual_daa_score_changed, oversized_frame, bad_json,
  has_request_id, server_error, missing_method, missing_params, unsupported_method, not_one_variant,
  missing_variant, unexpected_id, unexpected_method, bad_subscription_id, too_many_entries,
  missing_address, bad_transaction_id, zero_amount, missing_script, bad_script, bad_covenant_id,
  duplicate_outpoint, bad_source, bad_sequence, exceeds_integer_range, conflicting_frame,
  sequence_gap, pending_frames, sequence_overflow, checkpoint_gap, missing_frame, non_contiguous,
  bad_address_count, duplicate_address, foreign_address, moved_backwards, removal_facts_changed,
  addition_facts_changed, maturity_overflow, duplicate_in_snapshot, missing_daa,
  not_testnet_address, ledger_failed,
}
use kaspa_frontier_engine.Base.Ordered.{insert_ordered, lookup-insert_ordered}
use kaspa_frontier_engine.Outpoint.{Outpoint, outpoint_eq, outpoint_beq, outpoint_beq_iff}
use kaspa_frontier_engine.Exchange.{UtxoAppearance, ConfirmedDeposit}

pub record WrpcDepositSnapshot : Type 0 where
  pub virtual_daa : ℕ
  pub observed : List UtxoAppearance
  pub confirmed : List ConfirmedDeposit
  pub disappeared_outpoints : List Outpoint

pub record WrpcDepositProjection : Type 0 where
  pub virtual_daa : Option ℕ
  pub live : Map Outpoint RpcUtxoEntryRef
  pub maturity_schedule : Map ℕ (List Outpoint)
  pub mature : Set Outpoint
  pub unobserved : Set Outpoint

abbrev pub default_projection : WrpcDepositProjection
default_projection = record {
  virtual_daa = none;
  live = [];
  maturity_schedule = [];
  mature = [];
  unobserved = [];
}

-- The orders of the keys: texts by their characters, then the index.
unfoldable pub text_before : Text → Text → Bool
text_before s [] = false
text_before [] (d ∷ t) = true
text_before (c ∷ s) (d ∷ t) = ltb c d || (nat_beq c d && text_before s t)

unfoldable pub point_before : Outpoint → Outpoint → Bool
point_before a b =
    text_before a.tx_id b.tx_id || (a.tx_id == b.tx_id && ltb a.output_index b.output_index)

abbrev pub or_empty : Option (List Outpoint) → List Outpoint
or_empty none = []
or_empty (some keys) = keys

-- `entry(maturity).or_default().push(key)`
unfoldable pub schedule : ℕ → Outpoint → Map ℕ (List Outpoint) → Map ℕ (List Outpoint)
schedule maturity key m = insert_ordered ltb maturity (or_empty (lookup maturity m) ++ key ∷ []) m

-- What a notification has found so far.
pub record Changes : Type 0 where
  pub observed : List UtxoAppearance
  pub confirmed : List ConfirmedDeposit
  pub disappeared : List Outpoint

abbrev pub no_changes : Changes
no_changes = record { observed = []; confirmed = []; disappeared = [] }

abbrev pub State : Type 0
State = WrpcDepositProjection × Changes

-- The loop over the outputs that no snapshot has shown.
unfoldable pub observe_at :
    ℕ → List UtxoAppearance → Option RpcUtxoEntryRef → Result WrpcError (List UtxoAppearance)
observe_at daa observed none = ok observed
observe_at daa observed (some entry) = do
  appearance ← to_appearance entry daa
  ok (observed ++ appearance ∷ [])

unfoldable pub observe_all :
    ℕ
    → Map Outpoint RpcUtxoEntryRef
    → List UtxoAppearance
    → Set Outpoint
    → Result WrpcError (List UtxoAppearance)
observe_all daa live observed [] = ok observed
observe_all daa live observed ((key, x) ∷ keys) = do
  observed' ← observe_at daa observed (lookup key live)
  observe_all daa live observed' keys

abbrev pub Matured : Type 0
Matured = Set Outpoint × List ConfirmedDeposit

-- A key whose time has come: an output that is not live is skipped, and one that was confirmed too.
unfoldable pub mature_at :
    ℕ → Matured → Outpoint → Option RpcUtxoEntryRef → Result WrpcError Matured
mature_at daa (mature, confirmed) key none = ok (mature, confirmed)
mature_at daa (mature, confirmed) key (some entry) =
    if contains key mature
    then ok (mature, confirmed)
    else do deposit ← to_confirmed entry daa; ok (insert key tt mature, confirmed ++ deposit ∷ [])

unfoldable pub mature_keys :
    ℕ → Map Outpoint RpcUtxoEntryRef → Matured → List Outpoint → Result WrpcError Matured
mature_keys daa live m [] = ok m
mature_keys daa live m (key ∷ keys) = do
  m' ← mature_at daa m key (lookup key live)
  mature_keys daa live m' keys

-- The `while` loop over the schedule, which stops at the first time that has not come.
unfoldable pub pop_mature :
    ℕ
    → Map Outpoint RpcUtxoEntryRef
    → Matured
    → Map ℕ (List Outpoint)
    → Result WrpcError (Matured × Map ℕ (List Outpoint))
pop_mature daa live m [] = ok (m, [])
pop_mature daa live m ((maturity, keys) ∷ rest) =
    let after = mature_keys daa live m keys >>= λ m'. pop_mature daa live m' rest in
    if leb maturity daa then after else ok (m, (maturity, keys) ∷ rest)

abbrev pub moves_backwards : Option ℕ → ℕ → Bool
moves_backwards none score = false
moves_backwards (some previous) score = ltb score previous

unfoldable pub apply_score : WrpcDepositProjection → ℕ → Result WrpcError State
apply_score projection score = do
  fail_if (moves_backwards projection.virtual_daa score) moved_backwards
  observed ← observe_all score projection.live [] projection.unobserved
  matured ← pop_mature score projection.live (projection.mature, []) projection.maturity_schedule
  let ((mature, confirmed), left) = matured
  ok (
    record projection {
      virtual_daa = some score;
      unobserved = [];
      mature = mature;
      maturity_schedule = left;
    },
    record { observed = observed; confirmed = confirmed; disappeared = [] },
  )

abbrev pub vanish : Outpoint → Changes → Changes
vanish key changes = record changes { disappeared = changes.disappeared ++ key ∷ [] }

unfoldable pub remove_at : State → RpcUtxoEntryRef → Option RpcUtxoEntryRef → Result WrpcError State
remove_at (projection, changes) entry none = ok (projection, vanish (entry_key entry) changes)
remove_at (projection, changes) entry (some existing) =
    if same_entry existing entry
    then ok (
      record projection {
        live = erase (entry_key entry) projection.live;
        mature = erase (entry_key entry) projection.mature;
        unobserved = erase (entry_key entry) projection.unobserved;
      },
      if contains (entry_key entry) projection.unobserved
          then changes
          else vanish (entry_key entry) changes,
    )
    else err removal_facts_changed

-- One round of the loop over the removed entries.
unfoldable pub remove_one : Set Text → State → RpcUtxoEntryRef → Result WrpcError State
remove_one watched (projection, changes) entry = do
  require_watched entry watched
  remove_at (projection, changes) entry (lookup (entry_key entry) projection.live)

-- A new output, before its observation.
unfoldable pub admit : WrpcDepositProjection → RpcUtxoEntryRef → ℕ → WrpcDepositProjection
admit projection entry maturity = record projection {
  maturity_schedule = schedule maturity (entry_key entry) projection.maturity_schedule;
  live = insert_ordered point_before (entry_key entry) entry projection.live;
}

-- A new output that is mature already and was not confirmed is confirmed.
unfoldable pub confirm_new :
    WrpcDepositProjection → Changes → RpcUtxoEntryRef → ℕ → Bool → Result WrpcError State
confirm_new projection seen entry virtual_daa false = ok (projection, seen)
confirm_new projection seen entry virtual_daa true = do
  deposit ← to_confirmed entry virtual_daa
  ok (
    record projection { mature = insert (entry_key entry) tt projection.mature },
    record seen { confirmed = seen.confirmed ++ deposit ∷ [] },
  )

unfoldable pub admit_at : State → RpcUtxoEntryRef → ℕ → Option ℕ → Result WrpcError State
admit_at (projection, changes) entry maturity none =
    ok (
      record projection { unobserved = insert (entry_key entry) tt projection.unobserved },
      changes,
    )
admit_at (projection, changes) entry maturity (some virtual_daa) = do
  appearance ← to_appearance entry virtual_daa
  confirm_new projection (record changes { observed = changes.observed ++ appearance ∷ [] }) entry
      virtual_daa (leb maturity virtual_daa && not (contains (entry_key entry) projection.mature))

unfoldable pub add_at : State → RpcUtxoEntryRef → Option RpcUtxoEntryRef → Result WrpcError State
add_at (projection, changes) entry (some existing) =
    if same_entry existing entry then ok (projection, changes) else err addition_facts_changed
add_at (projection, changes) entry none = do
  maturity ← maturity_daa entry
  admit_at (admit projection entry maturity, changes) entry maturity projection.virtual_daa

-- One round of the loop over the added entries.
unfoldable pub add_one : Set Text → State → RpcUtxoEntryRef → Result WrpcError State
add_one watched (projection, changes) entry = do
  require_watched entry watched
  add_at (projection, changes) entry (lookup (entry_key entry) projection.live)

unfoldable pub each :
    (State → RpcUtxoEntryRef → Result WrpcError State)
    → State
    → List RpcUtxoEntryRef
    → Result WrpcError State
each step state [] = ok state
each step state (entry ∷ entries) = do state' ← step state entry; each step state' entries

unfoldable pub apply_change :
    WrpcDepositProjection
    → Set Text
    → List RpcUtxoEntryRef
    → List RpcUtxoEntryRef
    → Result WrpcError State
apply_change projection watched added removed = do
  state ← each (remove_one watched) (projection, no_changes) removed
  each (add_one watched) state added

unfoldable pub has_changes : Changes → Bool
has_changes changes = not (
    nat_beq (length changes.observed) 0
    && nat_beq (length changes.confirmed) 0
    && nat_beq (length changes.disappeared) 0)

-- The snapshot of the changes, once the virtual DAA score is known.
unfoldable pub snapshot_of : Option ℕ → Changes → Option WrpcDepositSnapshot
snapshot_of none changes = none
snapshot_of (some virtual_daa) changes =
    if has_changes changes
    then some (record {
      virtual_daa = virtual_daa;
      observed = changes.observed;
      confirmed = changes.confirmed;
      disappeared_outpoints = changes.disappeared;
    })
    else none

abbrev pub Applied : Type 0
Applied = Result WrpcError (Option WrpcDepositSnapshot × WrpcDepositProjection)

unfoldable pub finish : State → Option WrpcDepositSnapshot × WrpcDepositProjection
finish (projection, changes) = (snapshot_of projection.virtual_daa changes, projection)

unfoldable pub apply_strict : WrpcDepositProjection → WrpcNotification → Set Text → Applied
apply_strict projection (virtual_daa_score_changed score) watched = do
  state ← apply_score projection score
  ok (finish state)
apply_strict projection (utxos_changed added removed) watched = do
  state ← apply_change projection watched added removed
  ok (finish state)

unfoldable pub apply_addresses : WrpcDepositProjection → WrpcNotification → List Text → Applied
apply_addresses projection notification watched_addresses = do
  watched ← validate_watched_addresses watched_addresses
  apply_strict projection notification watched

unfoldable pub live_count : WrpcDepositProjection → ℕ
live_count projection = length projection.live
