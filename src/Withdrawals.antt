-- ===== src/Withdrawals.antt =====
-- src/withdrawal_ledger.rs: the durable state of outbound payments. The table is a map by its primary
-- key, of the rows as the ledger reads them: a row that it wrote decodes, since every number that it
-- stores has passed `to_i64`. A method runs in one transaction, so an error leaves the table as it
-- was and a result carries the new table.
pub mod Rows
pub mod Invariant
pub mod Moves
pub mod Progress
mod Tests
use mathlib.Core.Option
use Prim.Native.Nat.{bit_xor, pred}
use kaspa_frontier_engine.Base.{
  ℕ, zero, suc, ◌+◌, ◌-◌, ◌*◌, ◌/◌, ◌%◌, ◌^◌, ◌≤◌, ◌<◌, max, min, ◌≡◌, refl, sym, ap, subst, ◌∙◌,
  ◌≢◌, ◌↔◌, ◌⊎◌, inl, inr, Bool, true, false, not, ◌&&◌, ◌||◌, Option, none, some, List, [], ◌∷◌,
  ◌++◌, map, arith, ltb, leb, nat_beq, if◌then◌else◌, nat_beq_iff, Bool-cases, Option-cases,
  is_some, saturating_sub, checked_add, u64_bound, u128_bound, i64_bound, Result, ok, err, ◌>>=◌,
  ◌>>◌, fail_if, ok_or, to_i64, is_ok, Result-cases,
}
use kaspa_frontier_engine.Base.Lists.{
  length, all, any, any-append, retain, All, All-append, All-retain, All-imp, length-append,
}
use kaspa_frontier_engine.Base.Eq.{Eq, ◌==◌, nat_eq}
use kaspa_frontier_engine.Base.Text.{
  Text, text, text_beq_iff, text_eq, is_empty, is_ascii_digit, is_ascii_lowercase,
  is_ascii_uppercase, is_ascii_alphanumeric, is_ascii_hexdigit, lower, is_whitespace,
}
use kaspa_frontier_engine.Base.Text.{
  text_beq, len, to_ascii_lowercase, trim_start, trim, starts_with,
}
use kaspa_frontier_engine.Base.Map.{
  Map, Set, AllEntries, AllEntries-lookup, AllEntries-insert, AllEntries-update, AllEntries-erase,
  AllEntries-imp, AllEntries-contains, contains, lookup-empty, lookup-insert, lookup-erase,
  lookup-update, map_laws,
}
use kaspa_frontier_engine.Base.Map.{lookup, insert, erase, update}
use kaspa_frontier_engine.Outpoint.{Outpoint, outpoint_eq}
use kaspa_frontier_engine.Network.{is_valid_testnet_address}
use kaspa_frontier_engine.Exchange.{WithdrawalExpectation, WithdrawalUtxo}

pub data WithdrawalState : Type 0 where
  pending observed confirmed rejected : WithdrawalState

-- The messages of `EngineError`, without their texts.
pub data LedgerError : Type 0 where
  bad_txid zero_amount exceeds_integer_range facts_conflict disappeared not_registered : LedgerError
  observation_conflict block_exceeds_virtual needs_review block_changed moved_backwards :
      LedgerError
  not_testnet_address : Text → LedgerError

pub record WithdrawalRecord : Type 0 where
  pub expected : WithdrawalExpectation
  pub required_confirmations : ℕ
  pub state : WithdrawalState
  pub observed_block_daa : Option ℕ
  pub last_checked_daa : ℕ
  pub confirmed_daa : Option ℕ
  pub rejected_daa : Option ℕ
  pub rejection_reason : Option Text

-- The table `withdrawals`.
abbrev pub WithdrawalLedger : Type 0
WithdrawalLedger = Map Outpoint WithdrawalRecord

abbrev pub Outcome : Type 0
Outcome = Result LedgerError (WithdrawalRecord × WithdrawalLedger)

abbrev pub key_of : WithdrawalExpectation → Outpoint
key_of expected = record { tx_id = expected.tx_id; output_index = expected.output_index }

unfoldable pub expectation_beq : WithdrawalExpectation → WithdrawalExpectation → Bool
expectation_beq a b =
    a.tx_id == b.tx_id
    && a.dest == b.dest
    && nat_beq a.amount_sompi b.amount_sompi
    && nat_beq a.output_index b.output_index

unfoldable pub validate_expectation : WithdrawalExpectation → Result LedgerError (Unit {0})
validate_expectation expected = do
  fail_if (not (nat_beq (len expected.tx_id) 64) || not (all is_ascii_hexdigit expected.tx_id))
      bad_txid
  fail_if (not (is_valid_testnet_address expected.dest)) (not_testnet_address expected.dest)
  fail_if (nat_beq expected.amount_sompi 0) zero_amount

unfoldable pub validate_observation :
    WithdrawalExpectation → WithdrawalUtxo → Result LedgerError (Unit {0})
validate_observation expected seen =
    fail_if
      (not (seen.tx_id == expected.tx_id)
        || not (nat_beq seen.output_index expected.output_index)
        || not (seen.address == expected.dest)
        || not (nat_beq seen.amount_sompi expected.amount_sompi))
      observation_conflict

-- The row that `register` inserts.
abbrev pub registered : WithdrawalExpectation → ℕ → WithdrawalRecord
registered expected required = record {
  expected = expected;
  required_confirmations = required;
  state = pending;
  observed_block_daa = none;
  last_checked_daa = 0;
  confirmed_daa = none;
  rejected_daa = none;
  rejection_reason = none;
}

-- A row that is there has to carry the same facts, and is returned as it is.
unfoldable pub register_at :
    WithdrawalLedger → WithdrawalExpectation → ℕ → Option WithdrawalRecord → Outcome
register_at ledger expected required (some existing) =
    if not (expectation_beq existing.expected expected)
      || not (nat_beq existing.required_confirmations required)
    then err facts_conflict
    else ok (existing, ledger)
register_at ledger expected required none =
    let ledger' = insert (key_of expected) (registered expected required) ledger in
    do row ← ok_or (lookup (key_of expected) ledger') disappeared; ok (row, ledger')

unfoldable pub register : WithdrawalLedger → WithdrawalExpectation → ℕ → Outcome
register ledger expected required_confirmations = do
  validate_expectation expected
  required ← to_i64 (max required_confirmations 1) exceeds_integer_range
  amount ← to_i64 expected.amount_sompi exceeds_integer_range
  register_at ledger expected required (lookup (key_of expected) ledger)

abbrev pub is_rejected : WithdrawalState → Bool
is_rejected rejected = true
is_rejected _ = false

-- `CASE WHEN state='pending' THEN 'observed' ELSE state END`
abbrev pub observed_state : WithdrawalState → WithdrawalState
observed_state pending = observed
observed_state s = s

-- `COALESCE(o, v)`
abbrev pub coalesce : Option ℕ → ℕ → Option ℕ
coalesce none v = some v
coalesce (some u) v = some u

-- The four `UPDATE`s, on the row that they hit.
unfoldable pub set_observed : ℕ → ℕ → WithdrawalRecord → WithdrawalRecord
set_observed block_daa virtual_daa row = record row {
  state = observed_state row.state;
  observed_block_daa = coalesce row.observed_block_daa block_daa;
  last_checked_daa = virtual_daa;
}

unfoldable pub set_rejected : ℕ → WithdrawalRecord → WithdrawalRecord
set_rejected virtual_daa row = record row {
  state = rejected;
  last_checked_daa = virtual_daa;
  rejected_daa = some virtual_daa;
  rejection_reason = some (text "observed transaction is no longer accepted");
}

unfoldable pub set_confirmed : ℕ → WithdrawalRecord → WithdrawalRecord
set_confirmed virtual_daa row = record row {
  state = confirmed;
  last_checked_daa = virtual_daa;
  confirmed_daa = coalesce row.confirmed_daa virtual_daa;
}

unfoldable pub update_last_checked : ℕ → WithdrawalRecord → WithdrawalRecord
update_last_checked virtual_daa row = record row { last_checked_daa = virtual_daa }

-- `observed_block_daa.is_some_and(|stored| stored != score)`
abbrev pub differs : Option ℕ → ℕ → Bool
differs none score = false
differs (some stored) score = not (nat_beq stored score)

-- The row is written and read again.
unfoldable pub write_row :
    WithdrawalLedger → Outpoint → (WithdrawalRecord → WithdrawalRecord) → Outcome
write_row ledger key change =
    let ledger' = update key change ledger in
    do row ← ok_or (lookup key ledger') disappeared; ok (row, ledger')

unfoldable pub observe : WithdrawalLedger → WithdrawalExpectation → ℕ → WithdrawalUtxo → Outcome
observe ledger expected virtual_daa seen = do
  validate_observation expected seen
  virtual ← to_i64 virtual_daa exceeds_integer_range
  block ← to_i64 seen.block_daa_score exceeds_integer_range
  fail_if (ltb virtual block) block_exceeds_virtual
  row ← ok_or (lookup (key_of expected) ledger) not_registered
  fail_if (is_rejected row.state) needs_review
  fail_if (differs row.observed_block_daa seen.block_daa_score) block_changed
  write_row ledger (key_of expected) (set_observed block virtual)

-- The `UPDATE` that `advance` chooses for a row that is not rejected.
unfoldable pub advance_change :
    ℕ → Option Bool → WithdrawalRecord → WithdrawalRecord → WithdrawalRecord
advance_change virtual_daa (some false) row =
    if is_some row.observed_block_daa
    then set_rejected virtual_daa
    else update_last_checked virtual_daa
advance_change virtual_daa (some true) row = elim row.observed_block_daa [
  | none ↦ update_last_checked virtual_daa
  | some block_daa ↦
      if leb row.required_confirmations (saturating_sub virtual_daa block_daa)
      then set_confirmed virtual_daa
      else update_last_checked virtual_daa
]
advance_change virtual_daa none row = update_last_checked virtual_daa

-- A rejected row is left as it is.
unfoldable pub advance_row :
    ℕ → Option Bool → WithdrawalRecord → WithdrawalRecord → WithdrawalRecord
advance_row virtual_daa accepted row =
    if is_rejected row.state then (λ r. r) else advance_change virtual_daa accepted row

unfoldable pub advance : WithdrawalLedger → WithdrawalExpectation → ℕ → Option Bool → Outcome
advance ledger expected virtual_daa accepted = do
  virtual ← to_i64 virtual_daa exceeds_integer_range
  row ← ok_or (lookup (key_of expected) ledger) not_registered
  fail_if (ltb virtual_daa row.last_checked_daa) moved_backwards
  write_row ledger (key_of expected) (advance_row virtual accepted row)

unfoldable pub get : WithdrawalLedger → WithdrawalExpectation → Option WithdrawalRecord
get ledger expected = lookup (key_of expected) ledger
