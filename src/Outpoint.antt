-- ===== src/Outpoint.antt =====
-- The key of a transaction output, `(String, u32)`: `DepositKey` of src/exchange.rs, the keys of the
-- sets of src/watch.rs, and the primary key of the ledgers' tables.
use kaspa_frontier_engine.Base.{ℕ, ◌≡◌, ◌↔◌, Bool, true, ◌&&◌, arith, nat_beq}
use kaspa_frontier_engine.Base.Eq.{Eq, ◌==◌, nat_eq}
use kaspa_frontier_engine.Base.Text.{Text, text_beq_iff, text_eq}

pub record Outpoint : Type 0 where
  pub tx_id : Text
  pub output_index : ℕ

unfoldable pub outpoint_beq : Outpoint → Outpoint → Bool
outpoint_beq a b = a.tx_id == b.tx_id && nat_beq a.output_index b.output_index

pub outpoint_beq_iff : (a b : Outpoint) → (outpoint_beq a b ≡ true) ↔ (a ≡ b)
unfolding outpoint_beq
outpoint_beq_iff a b = ground (arith, text_beq_iff a.tx_id b.tx_id)

instance abbrev pub outpoint_eq : Eq Outpoint
outpoint_eq = record { beq = outpoint_beq; beq_iff = outpoint_beq_iff }
