-- ===== src/Wrpc.antt =====
-- src/wrpc.rs: the entries of the node's notifications, what makes them valid, and the deposits that they
-- stand for. An error stands for its message.
pub mod Codec
pub mod Valid
pub mod Journal
pub mod Projection
pub mod Bootstrap
pub mod Rebuilt
pub mod Replay
mod Tests
use mathlib.Core.Option
use Prim.Native.Nat.{bit_xor, pred}
use kaspa_frontier_engine.Base.{
  ℕ, zero, suc, ◌+◌, ◌-◌, ◌*◌, ◌/◌, ◌%◌, ◌^◌, ◌≤◌, ◌<◌, max, min, ◌≡◌, refl, sym, ap, subst, ◌∙◌,
  ◌≢◌, ◌↔◌, ◌⊎◌, inl, inr, Bool, true, false, not, ◌&&◌, ◌||◌, Option, none, some, List, [], ◌∷◌,
  ◌++◌, map, arith, ltb, leb, nat_beq, if◌then◌else◌, nat_beq_iff, Bool-cases, Option-cases,
  is_some, saturating_sub, checked_add, u64_bound, u128_bound, i64_bound, Result, ok, err, ◌>>=◌,
  ◌>>◌, fail_if, ok_or, to_i64, is_ok, Result-cases,
}
use kaspa_frontier_engine.Base.Lists.{
  length, all, any, any-append, retain, All, All-append, All-retain, All-imp, length-append, IsOnce,
}
use kaspa_frontier_engine.Base.Eq.{Eq, ◌==◌, nat_eq}
use kaspa_frontier_engine.Base.Text.{
  Text, text, text_beq_iff, text_eq, is_empty, is_ascii_digit, is_ascii_lowercase,
  is_ascii_uppercase, is_ascii_alphanumeric, is_ascii_hexdigit, lower, is_whitespace,
}
use kaspa_frontier_engine.Base.Text.{
  text_beq, len, to_ascii_lowercase, trim_start, trim, starts_with,
}
use kaspa_frontier_engine.Base.Map.{
  Map, Set, AllEntries, AllEntries-lookup, AllEntries-insert, AllEntries-update, AllEntries-erase,
  AllEntries-imp, AllEntries-contains, contains, lookup-empty, lookup-insert, lookup-erase,
  lookup-update, map_laws,
}
use kaspa_frontier_engine.Base.Map.{lookup, insert, erase, update}
use kaspa_frontier_engine.Outpoint.{Outpoint, outpoint_eq, outpoint_beq, outpoint_beq_iff}
use kaspa_frontier_engine.Exchange.{UtxoAppearance, ConfirmedDeposit}
use kaspa_frontier_engine.Deposits.{DepositError}
use kaspa_frontier_engine.Network.{
  coinbase_maturity_daa, default_deposit_confirmations, is_valid_testnet_address,
}

-- src/rpc.rs: an output as the node sends it.
pub record RpcOutpoint : Type 0 where
  pub transaction_id : Text
  pub index : ℕ

pub record RpcScriptPublicKey : Type 0 where
  pub script_public_key : Option Text
  pub version : ℕ

pub record RpcUtxoEntry : Type 0 where
  pub amount : ℕ
  pub script_public_key : RpcScriptPublicKey
  pub block_daa_score : ℕ
  pub is_coinbase : Bool
  pub covenant_id : Option Text
  pub storage_mass : Option ℕ

pub record RpcUtxoEntryRef : Type 0 where
  pub address : Option Text
  pub outpoint : RpcOutpoint
  pub utxo_entry : RpcUtxoEntry

pub data WrpcNotification : Type 0 where
  utxos_changed : (added removed : List RpcUtxoEntryRef) → WrpcNotification
  virtual_daa_score_changed : (virtual_daa_score : ℕ) → WrpcNotification

pub data WrpcError : Type 0 where
  oversized_frame bad_json has_request_id server_error missing_method missing_params : WrpcError
  unsupported_method not_one_variant missing_variant unexpected_id unexpected_method : WrpcError
  bad_subscription_id : WrpcError
  too_many_entries missing_address bad_transaction_id zero_amount missing_script bad_script :
      WrpcError
  bad_covenant_id duplicate_outpoint : WrpcError
  bad_source bad_sequence exceeds_integer_range conflicting_frame sequence_gap pending_frames :
      WrpcError
  sequence_overflow checkpoint_gap missing_frame non_contiguous : WrpcError
  bad_address_count duplicate_address foreign_address moved_backwards : WrpcError
  removal_facts_changed addition_facts_changed maturity_overflow duplicate_in_snapshot missing_daa :
      WrpcError
  not_testnet_address : Text → WrpcError
  ledger_failed : DepositError → WrpcError

abbrev pub max_wrpc_frame_bytes : ℕ
max_wrpc_frame_bytes = 4 * 1024 * 1024

abbrev pub max_wrpc_entries : ℕ
max_wrpc_entries = 10000

unfoldable pub is_hash : Text → Bool
is_hash value = nat_beq (len value) 64 && all is_ascii_hexdigit value

unfoldable pub is_script : Text → Bool
is_script script =
    not (is_empty script) && nat_beq (len script % 2) 0 && all is_ascii_hexdigit script

abbrev pub valid_covenant_id : Option Text → Bool
valid_covenant_id none = true
valid_covenant_id (some covenant_id) = is_hash covenant_id

unfoldable pub validate_entry : RpcUtxoEntryRef → Result WrpcError (Unit {0})
validate_entry entry = do
  address ← ok_or entry.address missing_address
  fail_if (not (is_valid_testnet_address address)) (not_testnet_address address)
  fail_if (not (is_hash entry.outpoint.transaction_id)) bad_transaction_id
  fail_if (nat_beq entry.utxo_entry.amount 0) zero_amount
  script ← ok_or entry.utxo_entry.script_public_key.script_public_key missing_script
  fail_if (not (is_script script)) bad_script
  fail_if (not (valid_covenant_id entry.utxo_entry.covenant_id)) bad_covenant_id

abbrev pub entry_key : RpcUtxoEntryRef → Outpoint
entry_key entry = record {
  tx_id = entry.outpoint.transaction_id;
  output_index = entry.outpoint.index;
}

-- The loop over the entries, with the outpoints that it has met.
unfoldable pub validate_entries : Set Outpoint → List RpcUtxoEntryRef → Result WrpcError (Unit {0})
validate_entries outpoints [] = ok tt
validate_entries outpoints (entry ∷ entries) = do
  validate_entry entry
  fail_if (contains (entry_key entry) outpoints) duplicate_outpoint
  validate_entries (insert (entry_key entry) tt outpoints) entries

unfoldable pub validate_utxo_change :
    List RpcUtxoEntryRef → List RpcUtxoEntryRef → Result WrpcError (Unit {0})
validate_utxo_change added removed = do
  fail_if (ltb max_wrpc_entries (length added + length removed)) too_many_entries
  validate_entries [] (added ++ removed)

-- The loop over the addresses, with those that it has met.
unfoldable pub watched_set : Set Text → List Text → Result WrpcError (Set Text)
watched_set watched [] = ok watched
watched_set watched (address ∷ addresses) = do
  fail_if (not (is_valid_testnet_address address)) (not_testnet_address address)
  fail_if (contains address watched) duplicate_address
  watched_set (insert address tt watched) addresses

unfoldable pub validate_watched_addresses : List Text → Result WrpcError (Set Text)
validate_watched_addresses addresses = do
  fail_if (nat_beq (length addresses) 0 || ltb 100 (length addresses)) bad_address_count
  watched_set [] addresses

abbrev pub is_watched : Option Text → Set Text → Bool
is_watched none watched = false
is_watched (some address) watched = contains address watched

unfoldable pub require_watched : RpcUtxoEntryRef → Set Text → Result WrpcError (Unit {0})
require_watched entry watched = fail_if (not (is_watched entry.address watched)) foreign_address

abbrev pub bool_beq : Bool → Bool → Bool
bool_beq true b = b
bool_beq false b = not b

abbrev pub option_beq {ℓ} : {A : Type ℓ} → (A → A → Bool) → Option A → Option A → Bool
option_beq beq none none = true
option_beq beq none (some b) = false
option_beq beq (some a) none = false
option_beq beq (some a) (some b) = beq a b

unfoldable pub same_entry : RpcUtxoEntryRef → RpcUtxoEntryRef → Bool
same_entry left right =
    option_beq text_beq left.address right.address
    && left.outpoint.transaction_id == right.outpoint.transaction_id
    && nat_beq left.outpoint.index right.outpoint.index
    && nat_beq left.utxo_entry.amount right.utxo_entry.amount
    && nat_beq left.utxo_entry.block_daa_score right.utxo_entry.block_daa_score
    && bool_beq left.utxo_entry.is_coinbase right.utxo_entry.is_coinbase
    && option_beq text_beq left.utxo_entry.script_public_key.script_public_key
        right.utxo_entry.script_public_key.script_public_key
    && nat_beq left.utxo_entry.script_public_key.version right.utxo_entry.script_public_key.version
    && option_beq text_beq left.utxo_entry.covenant_id right.utxo_entry.covenant_id
    && option_beq nat_beq left.utxo_entry.storage_mass right.utxo_entry.storage_mass

unfoldable pub to_appearance : RpcUtxoEntryRef → ℕ → Result WrpcError UtxoAppearance
to_appearance entry virtual_daa = do
  address ← ok_or entry.address missing_address
  ok (record {
    tx_id = entry.outpoint.transaction_id;
    output_index = entry.outpoint.index;
    address = address;
    amount_sompi = entry.utxo_entry.amount;
    block_daa_score = entry.utxo_entry.block_daa_score;
    virtual_daa = virtual_daa;
    is_coinbase = entry.utxo_entry.is_coinbase;
  })

unfoldable pub required_depth : Bool → ℕ
required_depth is_coinbase =
    if is_coinbase
    then max default_deposit_confirmations coinbase_maturity_daa
    else max default_deposit_confirmations 1

unfoldable pub maturity_daa : RpcUtxoEntryRef → Result WrpcError ℕ
maturity_daa entry =
    ok_or
      (checked_add u64_bound entry.utxo_entry.block_daa_score
        (required_depth entry.utxo_entry.is_coinbase))
      maturity_overflow

unfoldable pub to_confirmed : RpcUtxoEntryRef → ℕ → Result WrpcError ConfirmedDeposit
to_confirmed entry virtual_daa = do
  appearance ← to_appearance entry virtual_daa
  ok (record {
    tx_id = appearance.tx_id;
    output_index = appearance.output_index;
    address = appearance.address;
    amount_sompi = appearance.amount_sompi;
    block_daa_score = appearance.block_daa_score;
    confirmations = saturating_sub virtual_daa appearance.block_daa_score;
    is_coinbase = appearance.is_coinbase;
  })
