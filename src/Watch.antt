-- ===== src/Watch.antt =====
-- src/watch.rs: the diff of a snapshot of unspent outputs against the last tick. The REST client is
-- outside: a tick takes the snapshot and the DAA score as arguments. Sums of `u64` wrap around, as
-- in a release build.
pub mod Credits
pub mod Loops
pub mod Candidates
pub mod Coverage
mod Tests
use mathlib.Core.Option
use Prim.Native.Nat.{bit_xor, pred}
use kaspa_frontier_engine.Base.{
  ℕ, zero, suc, ◌+◌, ◌-◌, ◌*◌, ◌/◌, ◌%◌, ◌^◌, ◌≤◌, ◌<◌, max, min, ◌≡◌, refl, sym, ap, subst, ◌∙◌,
  ◌≢◌, ◌↔◌, ◌⊎◌, inl, inr, Bool, true, false, not, ◌&&◌, ◌||◌, Option, none, some, List, [], ◌∷◌,
  ◌++◌, map, arith, ltb, leb, nat_beq, if◌then◌else◌, nat_beq_iff, Bool-cases, Option-cases,
  is_some, saturating_sub, checked_add, u64_bound, u128_bound, i64_bound, Result, ok, err, ◌>>=◌,
  ◌>>◌, fail_if, ok_or, to_i64, is_ok, Result-cases,
}
use kaspa_frontier_engine.Base.Lists.{
  length, all, any, any-append, retain, All, All-append, All-retain, All-imp, length-append,
}
use kaspa_frontier_engine.Base.Eq.{Eq, ◌==◌, nat_eq}
use kaspa_frontier_engine.Base.Text.{
  Text, text, text_beq_iff, text_eq, is_empty, is_ascii_digit, is_ascii_lowercase,
  is_ascii_uppercase, is_ascii_alphanumeric, is_ascii_hexdigit, lower, is_whitespace,
}
use kaspa_frontier_engine.Base.Text.{
  text_beq, len, to_ascii_lowercase, trim_start, trim, starts_with,
}
use kaspa_frontier_engine.Base.Map.{
  Map, Set, AllEntries, AllEntries-lookup, AllEntries-insert, AllEntries-update, AllEntries-erase,
  contains, lookup-empty, lookup-insert, lookup-erase, lookup-update, map_laws,
}
use kaspa_frontier_engine.Base.Map.{lookup, insert, erase, update}
use kaspa_frontier_engine.Outpoint.{Outpoint, outpoint_eq, outpoint_beq, outpoint_beq_iff}
use kaspa_frontier_engine.Network.{coinbase_maturity_daa, default_deposit_confirmations}
use kaspa_frontier_engine.Exchange.{
  PendingDeposit, ConfirmedDeposit, UtxoAppearance, DepositTracker, pending_count, required,
  required_for, pending_key, confirmed_key, to_pending, to_confirmed, on_utxo_added,
  on_utxo_removed, retain_pending, on_virtual_daa, ConfirmedWithdrawal, WithdrawalUtxo,
  WithdrawalExpectation, daa_confirmations, matches_expected, confirm_one, find_map,
  confirm_withdrawal, with_default_confirmations,
}
use kaspa_frontier_engine.Exchange.Tracker.{
  IsDeep, IsKeyed, has_key, retain_pending-IsDeep, retain_pending-All, retain_pending-All_keys,
  retain_pending-has_key, on_utxo_added-IsKeyed,
}
use kaspa_frontier_engine.Exchange

-- src/rest.rs: the fields of an output that the watcher reads.
pub record UtxoEntry : Type 0 where
  pub amount : ℕ
  pub block_daa_score : ℕ
  pub is_coinbase : Bool

pub record AddressUtxo : Type 0 where
  pub address : Text
  pub outpoint : Outpoint
  pub utxo_entry : UtxoEntry

pub record WatchTick : Type 0 where
  pub virtual_daa : ℕ
  pub confirmed : List ConfirmedDeposit
  pub newly_seen : ℕ
  pub disappeared : ℕ
  pub disappeared_outpoints : List Outpoint
  pub observed : List UtxoAppearance
  pub pending : ℕ
  pub utxo_sum_sompi : ℕ
  pub rest_balance_sompi : Option ℕ

pub record DepositWatch : Type 0 where
  pub tracker : DepositTracker
  pub seen : Set Outpoint
  pub credited : Set Outpoint

-- `DepositWatch::new`
unfoldable pub new : ℕ → DepositWatch
new required_confirmations = record {
  tracker = Exchange.new required_confirmations;
  seen = [];
  credited = [];
}

insert_all : Set Outpoint → List Outpoint → Set Outpoint
insert_all s [] = s
insert_all s (k ∷ ks) = insert_all (insert k tt s) ks

unfoldable pub import_credited : DepositWatch → List Outpoint → DepositWatch
unfolding insert_all
import_credited watch entries = record watch { credited = insert_all watch.credited entries }

-- `collect` into a map: a later output replaces an earlier one of the same outpoint.
unfoldable pub collect : Map Outpoint AddressUtxo → List AddressUtxo → Map Outpoint AddressUtxo
collect current [] = current
collect current (u ∷ us) = collect (insert u.outpoint u current) us

abbrev pub appearance : ℕ → AddressUtxo → UtxoAppearance
appearance virtual_daa u = record {
  tx_id = u.outpoint.tx_id;
  output_index = u.outpoint.output_index;
  address = u.address;
  amount_sompi = u.utxo_entry.amount;
  block_daa_score = u.utxo_entry.block_daa_score;
  virtual_daa = virtual_daa;
  is_coinbase = u.utxo_entry.is_coinbase;
}

abbrev pub push : Option ConfirmedDeposit → List ConfirmedDeposit → List ConfirmedDeposit
push none cs = cs
push (some c) cs = c ∷ cs

-- One entry of the first loop: an output seen before is skipped.
unfoldable pub add_one :
    ℕ
    → Set Outpoint
    → DepositTracker
    → Outpoint
    → AddressUtxo
    → Option ConfirmedDeposit × DepositTracker
add_one virtual_daa seen tracker key u =
    if contains key seen then (none, tracker) else on_utxo_added tracker (appearance virtual_daa u)

-- The first loop: how many outputs are new, the deposits that are deep enough at once, the tracker.
unfoldable pub add_new :
    ℕ
    → Set Outpoint
    → DepositTracker
    → Map Outpoint AddressUtxo
    → ℕ × List ConfirmedDeposit × DepositTracker
add_new virtual_daa seen tracker [] = (0, [], tracker)
add_new virtual_daa seen tracker ((key, u) ∷ current) =
    let (hit, tracker') = add_one virtual_daa seen tracker key u in
    let (count, hits, tracker'') = add_new virtual_daa seen tracker' current in
    ((if contains key seen then count else count + 1), push hit hits, tracker'')

-- The second loop: the outpoints of the last tick that are gone, and the tracker without them.
unfoldable pub drop_gone :
    Map Outpoint AddressUtxo → DepositTracker → Set Outpoint → List Outpoint × DepositTracker
drop_gone current tracker [] = ([], tracker)
drop_gone current tracker ((key, _) ∷ seen) =
    let tracker' = if contains key current then tracker else (on_utxo_removed tracker key).1 in
    let (gone, tracker'') = drop_gone current tracker' seen in
    ((if contains key current then gone else key ∷ gone), tracker'')

-- `confirmed.retain(|hit| self.credited.insert(key))`: what was credited before is dropped.
unfoldable pub credit : Set Outpoint → List ConfirmedDeposit → List ConfirmedDeposit × Set Outpoint
credit credited [] = ([], credited)
credit credited (c ∷ cs) =
    let (kept, credited') = credit (insert (confirmed_key c) tt credited) cs in
    ((if contains (confirmed_key c) credited then kept else c ∷ kept), credited')

sum_sompi : List AddressUtxo → ℕ
sum_sompi [] = 0
sum_sompi (u ∷ us) = (u.utxo_entry.amount + sum_sompi us) % u64_bound

-- The deposits that a tick finds confirmed, before those credited earlier are dropped, and the
-- tracker after it.
unfoldable pub candidates :
    DepositWatch → ℕ → Map Outpoint AddressUtxo → List ConfirmedDeposit × DepositTracker
candidates watch virtual_daa current =
    let (_, immediate, tracker₁) = add_new virtual_daa watch.seen watch.tracker current in
    let (_, tracker₂) = drop_gone current tracker₁ watch.seen in
    let (confirmed, tracker₃) = on_virtual_daa tracker₂ virtual_daa in
    (confirmed ++ immediate, tracker₃)

unfoldable pub apply : DepositWatch → ℕ → List AddressUtxo → WatchTick × DepositWatch
unfolding sum_sompi
apply watch virtual_daa utxos =
    let current = collect [] utxos in
    let (newly_seen, _, tracker₁) = add_new virtual_daa watch.seen watch.tracker current in
    let (gone, _) = drop_gone current tracker₁ watch.seen in
    let (found, tracker') = candidates watch virtual_daa current in
    let (confirmed, credited) = credit watch.credited found in
    (
      record {
        virtual_daa = virtual_daa;
        confirmed = confirmed;
        newly_seen = newly_seen;
        disappeared = length gone;
        disappeared_outpoints = gone;
        observed = map (λ ku. appearance virtual_daa ku.1) current;
        pending = pending_count tracker';
        utxo_sum_sompi = sum_sompi utxos;
        rest_balance_sompi = none;
      },
      record { tracker = tracker'; seen = map (λ ku. (ku.0, tt)) current; credited = credited },
    )

-- `validate_snapshot`
pub data SnapshotError : Type 0 where
  foreign_address : Text → SnapshotError
  duplicate_outpoint : SnapshotError

unfoldable pub validate_from :
    Text → Set Outpoint → List AddressUtxo → Result SnapshotError (Unit {0})
validate_from address outpoints [] = ok tt
validate_from address outpoints (u ∷ us) =
    let rest = validate_from address (insert u.outpoint tt outpoints) us in
    if not (u.address == address)
    then err (foreign_address u.address)
    else if contains u.outpoint outpoints
    then err duplicate_outpoint
    else rest

unfoldable pub validate_snapshot : Text → List AddressUtxo → Result SnapshotError (Unit {0})
unfolding validate_from
validate_snapshot address utxos = validate_from address [] utxos

unfoldable pub withdrawal_utxos : List AddressUtxo → List WithdrawalUtxo
withdrawal_utxos utxos =
    map
      (λ u. record {
        tx_id = u.outpoint.tx_id;
        output_index = u.outpoint.output_index;
        amount_sompi = u.utxo_entry.amount;
        block_daa_score = u.utxo_entry.block_daa_score;
        address = u.address;
      })
      utxos
