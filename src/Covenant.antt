-- ===== src/Covenant.antt =====
-- src/covenant.rs: the off-chain policy engines of a covenant, of a hash time-locked contract (HTLC)
-- and of a 2-of-3 escrow. Each keeps its coins in a map by their id. A method that fails has changed
-- nothing, so a result carries the new map. A hash of 32 bytes is a text of bytes.
pub mod Spending
pub mod Htlc
pub mod Escrow
pub mod Policy
mod Tests
use mathlib.Core.Option
use Prim.Native.Nat.{bit_xor, pred}
use kaspa_frontier_engine.Base.{
  ℕ, zero, suc, ◌+◌, ◌-◌, ◌*◌, ◌/◌, ◌%◌, ◌^◌, ◌≤◌, ◌<◌, max, min, ◌≡◌, refl, sym, ap, subst, ◌∙◌,
  ◌≢◌, ◌↔◌, ◌⊎◌, inl, inr, Bool, true, false, not, ◌&&◌, ◌||◌, Option, none, some, List, [], ◌∷◌,
  ◌++◌, map, arith, ltb, leb, nat_beq, if◌then◌else◌, nat_beq_iff, Bool-cases, Option-cases,
  is_some, saturating_sub, checked_add, u64_bound, u128_bound, i64_bound, Result, ok, err, ◌>>=◌,
  ◌>>◌, fail_if, ok_or, to_i64, is_ok, Result-cases,
}
use kaspa_frontier_engine.Base.Lists.{
  length, all, any, any-append, retain, All, All-append, All-retain, All-imp, length-append,
}
use kaspa_frontier_engine.Base.Eq.{Eq, ◌==◌, nat_eq}
use kaspa_frontier_engine.Base.Text.{
  Text, text, text_beq_iff, text_eq, is_empty, is_ascii_digit, is_ascii_lowercase,
  is_ascii_uppercase, is_ascii_alphanumeric, is_ascii_hexdigit, lower, is_whitespace,
}
use kaspa_frontier_engine.Base.Text.{
  text_beq, len, to_ascii_lowercase, trim_start, trim, starts_with,
}
use kaspa_frontier_engine.Base.Map.{
  Map, Set, AllEntries, AllEntries-lookup, AllEntries-insert, AllEntries-update, AllEntries-erase,
  AllEntries-imp, AllEntries-contains, contains, lookup-empty, lookup-insert, lookup-erase,
  lookup-update, map_laws,
}
use kaspa_frontier_engine.Base.Map.{lookup, insert, erase, update}

pub data CovenantError : Type 0 where
  missing : Text → CovenantError
  timelock_active : ℕ → ℕ → CovenantError
  destination_mismatch hashlock_mismatch : CovenantError
  htlc_settled escrow_settled : ℕ → CovenantError
  claim_window_closed refund_before_timelock : ℕ → ℕ → CovenantError
  escrow_release_actors escrow_buyer_refund_actors zk_must_use_node : CovenantError

pub record NativeCovenantUtxo : Type 0 where
  pub utxo_id : Text
  pub amount_sompi : ℕ
  pub covenant_script_hash : Text
  pub min_daa_timelock : ℕ
  pub allowed_destination_hash : Option Text

pub record HtlcUtxo : Type 0 where
  pub utxo_id : Text
  pub amount_sompi : ℕ
  pub payment_hash : ℕ
  pub refund_daa : ℕ
  pub status : ℕ

pub record Escrow2of3Utxo : Type 0 where
  pub utxo_id : Text
  pub amount_sompi : ℕ
  pub buyer_hash : ℕ
  pub seller_hash : ℕ
  pub arbiter_hash : ℕ
  pub refund_daa : ℕ
  pub status : ℕ

-- The coins of an engine.
abbrev pub Coins : Type 0 → Type 0
Coins V = Map Text V

abbrev pub CovenantPolicyEngine : Type 0
CovenantPolicyEngine = Coins NativeCovenantUtxo

abbrev pub HtlcPolicyEngine : Type 0
HtlcPolicyEngine = Coins HtlcUtxo

abbrev pub Escrow2of3PolicyEngine : Type 0
Escrow2of3PolicyEngine = Coins Escrow2of3Utxo

-- The coin that leaves an engine, and the engine without it.
abbrev pub Spend : Type 0 → Type 0
Spend V = Result CovenantError (V × Coins V)

-- `self.utxos.remove(utxo_id)`
unfoldable pub remove : {V : Type 0} → Coins V → Text → Spend V
remove utxos utxo_id = do
  spent ← ok_or (lookup utxo_id utxos) (missing utxo_id)
  ok (spent, erase utxo_id utxos)

-- `spent.status = n`
abbrev pub settle_htlc : ℕ → HtlcUtxo × HtlcPolicyEngine → Spend HtlcUtxo
settle_htlc n (spent, utxos) = ok (record spent { status = n }, utxos)

abbrev pub settle_escrow : ℕ → Escrow2of3Utxo × Escrow2of3PolicyEngine → Spend Escrow2of3Utxo
settle_escrow n (spent, utxos) = ok (record spent { status = n }, utxos)

unfoldable pub register_htlc : HtlcPolicyEngine → HtlcUtxo → HtlcPolicyEngine
register_htlc utxos utxo = insert utxo.utxo_id utxo utxos

unfoldable pub claim : HtlcPolicyEngine → Text → ℕ → ℕ → Spend HtlcUtxo
claim utxos utxo_id current_daa preimage_hash = do
  utxo ← ok_or (lookup utxo_id utxos) (missing utxo_id)
  fail_if (not (nat_beq utxo.status 0)) (htlc_settled utxo.status)
  fail_if (leb utxo.refund_daa current_daa) (claim_window_closed utxo.refund_daa current_daa)
  fail_if (not (nat_beq preimage_hash utxo.payment_hash)) hashlock_mismatch
  removed ← remove utxos utxo_id
  settle_htlc 1 removed

unfoldable pub refund : HtlcPolicyEngine → Text → ℕ → Spend HtlcUtxo
refund utxos utxo_id current_daa = do
  utxo ← ok_or (lookup utxo_id utxos) (missing utxo_id)
  fail_if (not (nat_beq utxo.status 0)) (htlc_settled utxo.status)
  fail_if (ltb current_daa utxo.refund_daa) (refund_before_timelock utxo.refund_daa current_daa)
  removed ← remove utxos utxo_id
  settle_htlc 2 removed

unfoldable pub register_escrow : Escrow2of3PolicyEngine → Escrow2of3Utxo → Escrow2of3PolicyEngine
register_escrow utxos utxo = insert utxo.utxo_id utxo utxos

unfoldable pub pair_ok : ℕ → ℕ → ℕ → ℕ → Bool
pair_ok a b left right = (nat_beq a left && nat_beq b right) || (nat_beq a right && nat_beq b left)

unfoldable pub release_to_seller : Escrow2of3PolicyEngine → Text → ℕ → ℕ → ℕ → Spend Escrow2of3Utxo
release_to_seller utxos utxo_id current_daa actor1 actor2 = do
  utxo ← ok_or (lookup utxo_id utxos) (missing utxo_id)
  fail_if (not (nat_beq utxo.status 0)) (escrow_settled utxo.status)
  fail_if (leb utxo.refund_daa current_daa) (claim_window_closed utxo.refund_daa current_daa)
  fail_if (not (pair_ok actor1 actor2 utxo.seller_hash utxo.arbiter_hash)) escrow_release_actors
  removed ← remove utxos utxo_id
  settle_escrow 1 removed

unfoldable pub refund_to_buyer : Escrow2of3PolicyEngine → Text → ℕ → ℕ → ℕ → Spend Escrow2of3Utxo
refund_to_buyer utxos utxo_id current_daa actor1 actor2 = do
  utxo ← ok_or (lookup utxo_id utxos) (missing utxo_id)
  fail_if (not (nat_beq utxo.status 0)) (escrow_settled utxo.status)
  fail_if (leb utxo.refund_daa current_daa) (claim_window_closed utxo.refund_daa current_daa)
  fail_if (not (pair_ok actor1 actor2 utxo.buyer_hash utxo.arbiter_hash)) escrow_buyer_refund_actors
  removed ← remove utxos utxo_id
  settle_escrow 2 removed

unfoldable pub timeout_to_buyer : Escrow2of3PolicyEngine → Text → ℕ → Spend Escrow2of3Utxo
timeout_to_buyer utxos utxo_id current_daa = do
  utxo ← ok_or (lookup utxo_id utxos) (missing utxo_id)
  fail_if (not (nat_beq utxo.status 0)) (escrow_settled utxo.status)
  fail_if (ltb current_daa utxo.refund_daa) (refund_before_timelock utxo.refund_daa current_daa)
  removed ← remove utxos utxo_id
  settle_escrow 3 removed

unfoldable pub register_covenant : CovenantPolicyEngine → NativeCovenantUtxo → CovenantPolicyEngine
register_covenant covenants utxo = insert utxo.utxo_id utxo covenants

unfoldable pub is_registered : CovenantPolicyEngine → Text → Bool
is_registered covenants utxo_id = contains utxo_id covenants

unfoldable pub inspect : CovenantPolicyEngine → Text → Option NativeCovenantUtxo
inspect covenants utxo_id = lookup utxo_id covenants

-- A covenant without a destination may go anywhere.
abbrev pub allows : Option Text → Text → Bool
allows none destination = true
allows (some allowed) destination = allowed == destination

unfoldable pub verify_and_spend :
    CovenantPolicyEngine → Text → ℕ → Text → Bool → Spend NativeCovenantUtxo
verify_and_spend covenants utxo_id current_daa_score destination_script_hash zk_attached = do
  fail_if zk_attached zk_must_use_node
  covenant ← ok_or (lookup utxo_id covenants) (missing utxo_id)
  fail_if (ltb current_daa_score covenant.min_daa_timelock)
      (timelock_active covenant.min_daa_timelock current_daa_score)
  fail_if (not (allows covenant.allowed_destination_hash destination_script_hash))
      destination_mismatch
  remove covenants utxo_id
