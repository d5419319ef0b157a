-- ===== src/Exchange.antt =====
-- src/exchange.rs: deposits that wait for their confirmations, and the test of an outbound payment.
-- DAA scores are numbers below 2^64; no operation adds to them. The iteration order of a `HashMap`
-- is the order of the association list.
pub mod Tracker
pub mod Withdrawal
mod Tests
use mathlib.Core.Option
use Prim.Native.Nat.{bit_xor, pred}
use kaspa_frontier_engine.Base.{
  ℕ, zero, suc, ◌+◌, ◌-◌, ◌*◌, ◌/◌, ◌%◌, ◌^◌, ◌≤◌, ◌<◌, max, min, ◌≡◌, refl, sym, ap, ◌∙◌, ◌≢◌, ◌↔◌,
  ◌⊎◌, inl, inr, Bool, true, false, not, ◌&&◌, ◌||◌, Option, none, some, List, [], ◌∷◌, ◌++◌, map,
  arith, ltb, leb, nat_beq, if◌then◌else◌, nat_beq_iff, Bool-cases, Option-cases, is_some,
  saturating_sub, checked_add, u64_bound, u128_bound, i64_bound, Result, ok, err, ◌>>=◌, ◌>>◌,
  fail_if, ok_or, to_i64, is_ok, Result-cases,
}
use kaspa_frontier_engine.Base.Lists.{
  length, all, retain, All, All-append, All-retain, All-imp, length-append,
}
use kaspa_frontier_engine.Base.Eq.{Eq, ◌==◌, nat_eq}
use kaspa_frontier_engine.Base.Text.{
  Text, text, text_beq_iff, text_eq, is_empty, is_ascii_digit, is_ascii_lowercase,
  is_ascii_uppercase, is_ascii_alphanumeric, is_ascii_hexdigit, lower, is_whitespace,
}
use kaspa_frontier_engine.Base.Text.{
  text_beq, len, to_ascii_lowercase, trim_start, trim, starts_with,
}
use kaspa_frontier_engine.Base.Map.{
  Map, Set, AllEntries, AllEntries-lookup, AllEntries-insert, AllEntries-update, AllEntries-erase,
  contains, lookup-empty, lookup-insert, lookup-erase, lookup-update, map_laws,
}
use kaspa_frontier_engine.Base.Map.{lookup, insert, erase, update}
use kaspa_frontier_engine.Outpoint.{Outpoint, outpoint_eq}
use kaspa_frontier_engine.Network.{coinbase_maturity_daa, default_deposit_confirmations}

pub record PendingDeposit : Type 0 where
  pub tx_id : Text
  pub output_index : ℕ
  pub address : Text
  pub amount_sompi : ℕ
  pub block_daa_score : ℕ
  pub is_coinbase : Bool

pub record ConfirmedDeposit : Type 0 where
  pub tx_id : Text
  pub output_index : ℕ
  pub address : Text
  pub amount_sompi : ℕ
  pub block_daa_score : ℕ
  pub confirmations : ℕ
  pub is_coinbase : Bool

pub record UtxoAppearance : Type 0 where
  pub tx_id : Text
  pub output_index : ℕ
  pub address : Text
  pub amount_sompi : ℕ
  pub block_daa_score : ℕ
  pub virtual_daa : ℕ
  pub is_coinbase : Bool

pub record DepositTracker : Type 0 where
  pub required_confirmations : ℕ
  pub pending : Map Outpoint PendingDeposit

-- `DepositTracker::new`
unfoldable pub new : ℕ → DepositTracker
new required_confirmations = record {
  required_confirmations = max required_confirmations 1;
  pending = [];
}

unfoldable pub with_default_confirmations : DepositTracker
unfolding new
with_default_confirmations = new default_deposit_confirmations

abbrev pub pending_count : DepositTracker → ℕ
pending_count tracker = length tracker.pending

-- The depth that a deposit needs: a coinbase output also waits for its maturity.
abbrev pub required : ℕ → Bool → ℕ
required confirmations is_coinbase =
    if is_coinbase then max confirmations coinbase_maturity_daa else confirmations

unfoldable pub required_for : DepositTracker → Bool → ℕ
required_for tracker is_coinbase = required tracker.required_confirmations is_coinbase

-- The key of a pending and of a confirmed deposit.
abbrev pub pending_key : PendingDeposit → Outpoint
pending_key p = record { tx_id = p.tx_id; output_index = p.output_index }

abbrev pub confirmed_key : ConfirmedDeposit → Outpoint
confirmed_key c = record { tx_id = c.tx_id; output_index = c.output_index }

abbrev pub to_pending : UtxoAppearance → PendingDeposit
to_pending seen = record {
  tx_id = seen.tx_id;
  output_index = seen.output_index;
  address = seen.address;
  amount_sompi = seen.amount_sompi;
  block_daa_score = seen.block_daa_score;
  is_coinbase = seen.is_coinbase;
}

abbrev pub to_confirmed : PendingDeposit → ℕ → ConfirmedDeposit
to_confirmed p confirmations = record {
  tx_id = p.tx_id;
  output_index = p.output_index;
  address = p.address;
  amount_sompi = p.amount_sompi;
  block_daa_score = p.block_daa_score;
  confirmations = confirmations;
  is_coinbase = p.is_coinbase;
}

unfoldable pub on_utxo_added :
    DepositTracker → UtxoAppearance → Option ConfirmedDeposit × DepositTracker
unfolding required_for
on_utxo_added tracker seen =
    let pending = to_pending seen in
    let confirmations = saturating_sub seen.virtual_daa seen.block_daa_score in
    if leb (required_for tracker seen.is_coinbase) confirmations
    then (some (to_confirmed pending confirmations), tracker)
    else (none, record tracker { pending = insert (pending_key pending) pending tracker.pending })

-- Whether the key was there, and the tracker without it.
unfoldable pub on_utxo_removed : DepositTracker → Outpoint → Bool × DepositTracker
on_utxo_removed tracker key =
    (contains key tracker.pending, record tracker { pending = erase key tracker.pending })

-- The closure of `retain`: what is deep enough is pushed to the confirmed ones and dropped.
unfoldable pub retain_pending :
    ℕ → ℕ → Map Outpoint PendingDeposit → List ConfirmedDeposit × Map Outpoint PendingDeposit
retain_pending deposit_required virtual_daa [] = ([], [])
retain_pending deposit_required virtual_daa ((k, p) ∷ m) =
    let (confirmed, kept) = retain_pending deposit_required virtual_daa m in
    let confirmations = saturating_sub virtual_daa p.block_daa_score in
    if leb (required deposit_required p.is_coinbase) confirmations
    then (to_confirmed p confirmations ∷ confirmed, kept)
    else (confirmed, (k, p) ∷ kept)

unfoldable pub on_virtual_daa : DepositTracker → ℕ → List ConfirmedDeposit × DepositTracker
on_virtual_daa tracker virtual_daa =
    let (confirmed, kept) =
      retain_pending tracker.required_confirmations virtual_daa tracker.pending in
    (confirmed, record tracker { pending = kept })

pub record ConfirmedWithdrawal : Type 0 where
  pub tx_id : Text
  pub dest : Text
  pub amount_sompi : ℕ
  pub output_index : ℕ
  pub block_daa_score : ℕ
  pub confirmations : ℕ

pub record WithdrawalUtxo : Type 0 where
  pub tx_id : Text
  pub output_index : ℕ
  pub amount_sompi : ℕ
  pub block_daa_score : ℕ
  pub address : Text

pub record WithdrawalExpectation : Type 0 where
  pub tx_id : Text
  pub dest : Text
  pub amount_sompi : ℕ
  pub output_index : ℕ

abbrev pub daa_confirmations : ℕ → ℕ → ℕ
daa_confirmations virtual_daa block_daa_score = saturating_sub virtual_daa block_daa_score

-- The output is the expected one, in all four facts.
unfoldable pub matches_expected : WithdrawalExpectation → WithdrawalUtxo → Bool
matches_expected expected utxo =
    utxo.tx_id == expected.tx_id
    && nat_beq utxo.output_index expected.output_index
    && nat_beq utxo.amount_sompi expected.amount_sompi
    && utxo.address == expected.dest

-- The closure of `find_map`.
unfoldable pub confirm_one :
    WithdrawalExpectation → ℕ → ℕ → WithdrawalUtxo → Option ConfirmedWithdrawal
confirm_one expected virtual_daa depth utxo =
    let confirmations = daa_confirmations virtual_daa utxo.block_daa_score in
    if not (matches_expected expected utxo)
    then none
    else if ltb confirmations depth
    then none
    else some (record {
      tx_id = utxo.tx_id;
      dest = expected.dest;
      amount_sompi = utxo.amount_sompi;
      output_index = utxo.output_index;
      block_daa_score = utxo.block_daa_score;
      confirmations = confirmations;
    })

-- `iter().find_map(f)`
unfoldable pub find_map {ℓ κ} : {A : Type ℓ} {B : Type κ} → (A → Option B) → List A → Option B
find_map f [] = none
find_map f (x ∷ xs) = let rest = find_map f xs in elim (f x) [ some b ↦ some b | none ↦ rest ]

unfoldable pub confirm_withdrawal :
    WithdrawalExpectation → ℕ → List WithdrawalUtxo → ℕ → Option ConfirmedWithdrawal
confirm_withdrawal expected virtual_daa dest_utxos depth =
    find_map (confirm_one expected virtual_daa (max depth 1)) dest_utxos
