-- ===== src/Deposits.antt =====
-- src/deposit_ledger.rs: the deposits, and the events that they put into the outbox. The tables
-- `deposits` and `legacy_credits` are maps by their primary key, of the rows as the ledger reads them: a
-- row that it wrote decodes, since every number that it stores has passed `to_i64`. `reconcile` and
-- `reverse_credited_on_reorg` run in one transaction, so an error leaves the tables as they were.
pub mod Sent
pub mod Rows
pub mod Invariant
pub mod Calls
pub mod Later
pub mod Runs
pub mod History
pub mod Again
pub mod Settles
pub mod Twice
mod Tests
use mathlib.Core.Option
use Prim.Native.Nat.{bit_xor, pred}
use kaspa_frontier_engine.Base.{
  ℕ, zero, suc, ◌+◌, ◌-◌, ◌*◌, ◌/◌, ◌%◌, ◌^◌, ◌≤◌, ◌<◌, max, min, ◌≡◌, refl, sym, ap, subst, ◌∙◌,
  ◌≢◌, ◌↔◌, ◌⊎◌, inl, inr, Bool, true, false, not, ◌&&◌, ◌||◌, Option, none, some, List, [], ◌∷◌,
  ◌++◌, map, arith, ltb, leb, nat_beq, if◌then◌else◌, nat_beq_iff, Bool-cases, Option-cases,
  is_some, saturating_sub, checked_add, u64_bound, u128_bound, i64_bound, Result, ok, err, ◌>>=◌,
  ◌>>◌, fail_if, ok_or, to_i64, is_ok, Result-cases,
}
use kaspa_frontier_engine.Base.Lists.{
  length, all, any, any-append, retain, All, All-append, All-retain, All-imp, length-append, IsOnce,
}
use kaspa_frontier_engine.Base.Eq.{Eq, ◌==◌, nat_eq}
use kaspa_frontier_engine.Base.Text.{
  Text, text, text_beq_iff, text_eq, is_empty, is_ascii_digit, is_ascii_lowercase,
  is_ascii_uppercase, is_ascii_alphanumeric, is_ascii_hexdigit, lower, is_whitespace,
}
use kaspa_frontier_engine.Base.Text.{
  text_beq, len, to_ascii_lowercase, trim_start, trim, starts_with,
}
use kaspa_frontier_engine.Base.Map.{
  Map, Set, AllEntries, AllEntries-lookup, AllEntries-insert, AllEntries-update, AllEntries-erase,
  AllEntries-imp, AllEntries-contains, contains, lookup-empty, lookup-insert, lookup-erase,
  lookup-update, map_laws,
}
use kaspa_frontier_engine.Base.Map.{lookup, insert, erase, update}
use kaspa_frontier_engine.Outpoint.{Outpoint, outpoint_eq, outpoint_beq, outpoint_beq_iff}
use kaspa_frontier_engine.Exchange.{UtxoAppearance, ConfirmedDeposit}
use kaspa_frontier_engine.EventKey.{event_key, is_kind, event_key_inj}
use kaspa_frontier_engine.Outbox.{OutboxRow, Outbox}

pub data DepositState : Type 0 where
  pending credited reversed : DepositState

-- The messages of `EngineError`, without their texts.
pub data DepositError : Type 0 where
  exceeds_integer_range outpoint_facts_changed never_observed confirmation_facts_changed :
      DepositError
  no_evidence unknown_outpoint not_credited : DepositError

pub record DepositRow : Type 0 where
  pub address : Text
  pub amount_sompi : ℕ
  pub block_daa_score : ℕ
  pub is_coinbase : Bool
  pub state : DepositState
  pub first_seen_daa : ℕ
  pub last_seen_daa : ℕ
  pub credited_daa : Option ℕ
  pub reversed_daa : Option ℕ
  pub reversal_reason : Option Text

pub record DepositLedger : Type 0 where
  pub deposits : Map Outpoint DepositRow
  pub legacy_credits : Set Outpoint
  pub outbox : Outbox

abbrev pub Reconciled : Type 0
Reconciled = Result DepositError DepositLedger

unfoldable pub import_legacy_credit : DepositLedger → Outpoint → DepositLedger
import_legacy_credit ledger key = record ledger {
  legacy_credits = insert key tt ledger.legacy_credits;
}

-- AUTOINCREMENT: one more than the largest id. Rows are never deleted.
unfoldable pub next_id : Outbox → ℕ
next_id [] = 1
next_id ((id, row) ∷ outbox) = max (id + 1) (next_id outbox)

-- The row with a key of the UNIQUE column `event_key`.
unfoldable pub find_event : Text → Outbox → Option OutboxRow
find_event key [] = none
find_event key ((id, row) ∷ outbox) =
    if row.event_key == key then some row else find_event key outbox

-- A row of an event with the columns' defaults.
abbrev pub new_event : Text → Outpoint → ℕ → Text → OutboxRow
new_event kind key amount_sompi address = record {
  event_key = event_key kind key.tx_id key.output_index;
  kind = kind;
  tx_id = key.tx_id;
  output_index = key.output_index;
  amount_sompi = amount_sompi;
  address = address;
  acknowledged = false;
  dead_lettered = false;
  dead_lettered_at = none;
  attempts = 0;
  next_attempt_at = 0;
  lease_owner = none;
  lease_until = none;
  last_error = none;
}

-- `INSERT OR IGNORE`: an event whose key is there already is ignored.
unfoldable pub insert_outbox : Text → Outpoint → ℕ → Text → Outbox → Outbox
insert_outbox kind key amount_sompi address outbox =
    if is_some (find_event (event_key kind key.tx_id key.output_index) outbox)
    then outbox
    else insert (next_id outbox) (new_event kind key amount_sompi address) outbox

abbrev pub bool_beq : Bool → Bool → Bool
bool_beq true b = b
bool_beq false b = not b

-- The facts that a row stores are those given.
unfoldable pub same_facts : DepositRow → Text → ℕ → ℕ → Bool → Bool
same_facts row address amount block_daa coinbase =
    row.address == address
    && nat_beq row.amount_sompi amount
    && nat_beq row.block_daa_score block_daa
    && bool_beq row.is_coinbase coinbase

-- The row that an outpoint that was not there gets.
unfoldable pub first_row : ℕ → Bool → UtxoAppearance → DepositRow
first_row daa legacy item = record {
  address = item.address;
  amount_sompi = item.amount_sompi;
  block_daa_score = item.block_daa_score;
  is_coinbase = item.is_coinbase;
  state = if legacy then credited else pending;
  first_seen_daa = daa;
  last_seen_daa = daa;
  credited_daa = if legacy then some daa else none;
  reversed_daa = none;
  reversal_reason = none;
}

abbrev pub seen_again : ℕ → DepositRow → DepositRow
seen_again daa row = record row { last_seen_daa = daa }

abbrev pub appearance_key : UtxoAppearance → Outpoint
appearance_key item = record { tx_id = item.tx_id; output_index = item.output_index }

unfoldable pub observe_at : ℕ → DepositLedger → UtxoAppearance → Option DepositRow → Reconciled
observe_at daa ledger item (some row) =
    if same_facts row item.address item.amount_sompi item.block_daa_score item.is_coinbase
    then ok
        (record ledger { deposits = update (appearance_key item) (seen_again daa) ledger.deposits })
    else err outpoint_facts_changed
observe_at daa ledger item none = ok (record ledger {
  deposits =
      insert (appearance_key item)
        (first_row daa (contains (appearance_key item) ledger.legacy_credits) item) ledger.deposits;
})

-- One round of the first loop.
unfoldable pub observe_one : ℕ → DepositLedger → UtxoAppearance → Reconciled
observe_one daa ledger item = do
  amount ← to_i64 item.amount_sompi exceeds_integer_range
  block_daa ← to_i64 item.block_daa_score exceeds_integer_range
  observe_at daa ledger item (lookup (appearance_key item) ledger.deposits)

abbrev pub deposit_key : ConfirmedDeposit → Outpoint
deposit_key item = record { tx_id = item.tx_id; output_index = item.output_index }

abbrev pub credit_row : ℕ → DepositRow → DepositRow
credit_row daa row = record row { state = credited; credited_daa = some daa }

abbrev pub is_pending : DepositState → Bool
is_pending pending = true
is_pending _ = false

-- The `UPDATE ... WHERE state='pending'`, and the event where it changed the row.
unfoldable pub credit_at : ℕ → DepositLedger → Outpoint → DepositRow → DepositLedger
credit_at daa ledger key row =
    if is_pending row.state
    then record ledger {
      deposits = update key (credit_row daa) ledger.deposits;
      outbox = insert_outbox (text "credit") key row.amount_sompi row.address ledger.outbox;
    }
    else ledger

unfoldable pub confirm_at : ℕ → DepositLedger → ConfirmedDeposit → DepositRow → Reconciled
confirm_at daa ledger item row = do
  fail_if (not (row.address == item.address)) confirmation_facts_changed
  amount ← to_i64 item.amount_sompi exceeds_integer_range
  fail_if (not (nat_beq row.amount_sompi amount)) confirmation_facts_changed
  block_daa ← to_i64 item.block_daa_score exceeds_integer_range
  fail_if (not (nat_beq row.block_daa_score block_daa && bool_beq row.is_coinbase item.is_coinbase))
      confirmation_facts_changed
  ok (credit_at daa ledger (deposit_key item) row)

-- One round of the second loop.
unfoldable pub confirm_one : ℕ → DepositLedger → ConfirmedDeposit → Reconciled
confirm_one daa ledger item = do
  row ← ok_or (lookup (deposit_key item) ledger.deposits) never_observed
  confirm_at daa ledger item row

abbrev pub reverse_row : ℕ → Text → DepositRow → DepositRow
reverse_row daa reason row = record row {
  state = reversed;
  reversed_daa = some daa;
  reversal_reason = some reason;
}

-- A row becomes reversed, and its reversal is sent.
unfoldable pub reverse_at : ℕ → Text → DepositLedger → Outpoint → DepositRow → DepositLedger
reverse_at daa reason ledger key row = record ledger {
  deposits = update key (reverse_row daa reason) ledger.deposits;
  outbox = insert_outbox (text "reverse") key row.amount_sompi row.address ledger.outbox;
}

unfoldable pub disappear_at : ℕ → DepositLedger → Outpoint → Option DepositRow → DepositLedger
disappear_at daa ledger key none = ledger
disappear_at daa ledger key (some row) =
    if is_pending row.state
    then reverse_at daa (text "disappeared before confirmation") ledger key row
    else ledger

-- One round of the third loop.
unfoldable pub disappear_one : ℕ → DepositLedger → Outpoint → DepositLedger
disappear_one daa ledger key = disappear_at daa ledger key (lookup key ledger.deposits)

unfoldable pub observe_all : ℕ → DepositLedger → List UtxoAppearance → Reconciled
observe_all daa ledger [] = ok ledger
observe_all daa ledger (item ∷ items) = do
  ledger' ← observe_one daa ledger item
  observe_all daa ledger' items

unfoldable pub confirm_all : ℕ → DepositLedger → List ConfirmedDeposit → Reconciled
confirm_all daa ledger [] = ok ledger
confirm_all daa ledger (item ∷ items) = do
  ledger' ← confirm_one daa ledger item
  confirm_all daa ledger' items

unfoldable pub disappear_all : ℕ → DepositLedger → List Outpoint → DepositLedger
disappear_all daa ledger [] = ledger
disappear_all daa ledger (key ∷ keys) = disappear_all daa (disappear_one daa ledger key) keys

unfoldable pub reconcile :
    DepositLedger → ℕ → List UtxoAppearance → List ConfirmedDeposit → List Outpoint → Reconciled
reconcile ledger virtual_daa observed confirmed disappeared = do
  daa ← to_i64 virtual_daa exceeds_integer_range
  seen ← observe_all daa ledger observed
  credits ← confirm_all daa seen confirmed
  ok (disappear_all daa credits disappeared)

unfoldable pub reverse_found :
    ℕ → Text → DepositLedger → Outpoint → DepositRow → DepositState → Reconciled
reverse_found daa evidence ledger key row reversed = ok ledger
reverse_found daa evidence ledger key row credited = ok (reverse_at daa evidence ledger key row)
reverse_found daa evidence ledger key row pending = err not_credited

unfoldable pub reverse_credited_on_reorg : DepositLedger → ℕ → Outpoint → Text → Reconciled
reverse_credited_on_reorg ledger virtual_daa key evidence = do
  fail_if (is_empty (trim evidence)) no_evidence
  daa ← to_i64 virtual_daa exceeds_integer_range
  row ← ok_or (lookup key ledger.deposits) unknown_outpoint
  reverse_found daa (trim evidence) ledger key row row.state
