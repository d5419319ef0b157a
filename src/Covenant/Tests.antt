-- ===== src/Covenant/Tests.antt =====
-- Runs of the engines on the coins of their unit tests, and the theorems at concrete inputs.
use kaspa_frontier_engine.Base.{
  ℕ, ◌≤◌, ◌<◌, ◌≡◌, refl, ◌↔◌, ◌⊎◌, none, true, false, not, some, [], ◌∷◌, ok, err, is_ok,
}
use kaspa_frontier_engine.Base.Eq.{nat_eq}
use kaspa_frontier_engine.Base.Text.{text, text_eq}
use kaspa_frontier_engine.Base.Text.{text_beq}
use kaspa_frontier_engine.Base.Map.{lookup, insert, erase}
use kaspa_frontier_engine.Covenant.{
  hashlock_mismatch, zk_must_use_node, NativeCovenantUtxo, HtlcUtxo, Escrow2of3Utxo,
  CovenantPolicyEngine, HtlcPolicyEngine, Escrow2of3PolicyEngine, remove, register_htlc, claim,
  refund, register_escrow, pair_ok, release_to_seller, refund_to_buyer, timeout_to_buyer,
  register_covenant, verify_and_spend,
}
use kaspa_frontier_engine.Covenant.Htlc.{claim_xor_refund}
use kaspa_frontier_engine.Covenant.Escrow.{release, settle, escrow_outcomes, IsPair, PaysWhen}
use kaspa_frontier_engine.Covenant.Policy.{spend_iff}

abbrev h1 : HtlcUtxo
h1 = record {
  utxo_id = text "h1";
  amount_sompi = 1000;
  payment_hash = 42;
  refund_daa = 100;
  status = 0;
}

abbrev htlcs : HtlcPolicyEngine
htlcs = (text "h1", h1) ∷ []

abbrev e1 : Escrow2of3Utxo
e1 = record {
  utxo_id = text "e1";
  amount_sompi = 1000;
  buyer_hash = 1;
  seller_hash = 2;
  arbiter_hash = 3;
  refund_daa = 100;
  status = 0;
}

abbrev escrows : Escrow2of3PolicyEngine
escrows = (text "e1", e1) ∷ []

abbrev c1 : NativeCovenantUtxo
c1 = record {
  utxo_id = text "c1";
  amount_sompi = 1000;
  covenant_script_hash = text "s";
  min_daa_timelock = 100;
  allowed_destination_hash = some (text "d");
}

abbrev covenants : CovenantPolicyEngine
covenants = (text "c1", c1) ∷ []

-- Everything that a run computes with.
everything : ℕ
unfolding lookup insert erase text_beq remove register_htlc claim refund register_escrow pair_ok
    release_to_seller refund_to_buyer timeout_to_buyer register_covenant verify_and_spend
everything = 0

registers_run :
    (register_htlc [] h1 ≡ htlcs)
    × (register_escrow [] e1 ≡ escrows)
    × (register_covenant [] c1 ≡ covenants)
unfolding everything
registers_run = (refl, refl, refl)

claim_run : claim htlcs (text "h1") 99 42 ≡ ok (record h1 { status = 1 }, [])
unfolding everything
claim_run = refl

wrong_preimage : claim htlcs (text "h1") 99 43 ≡ err hashlock_mismatch
unfolding everything
wrong_preimage = refl

release_run : settle escrows (text "e1") (release 99 3 2) ≡ ok (record e1 { status = 1 }, [])
unfolding everything settle
release_run = refl

spend_run : verify_and_spend covenants (text "c1") 100 (text "d") false ≡ ok (c1, [])
unfolding everything
spend_run = refl

proof_refused : verify_and_spend covenants (text "c1") 100 (text "d") true ≡ err zk_must_use_node
unfolding everything
proof_refused = refl

claim_xor_refund_example :
    is_ok (claim htlcs (text "h1") 100 42) ≡ not (is_ok (refund htlcs (text "h1") 100))
claim_xor_refund_example =
    claim_xor_refund htlcs (text "h1") 100 h1 (unfold lookup text_beq in refl, refl)

escrow_outcomes_example :
    PaysWhen
      (release_to_seller escrows (text "e1") 99 3 2)
      (record e1 { status = 1 })
      (erase (text "e1") escrows)
      ((99 < 100) × IsPair 3 2 2 3)
    × PaysWhen
        (refund_to_buyer escrows (text "e1") 99 3 2)
        (record e1 { status = 2 })
        (erase (text "e1") escrows)
        ((99 < 100) × IsPair 3 2 1 3)
    × PaysWhen
        (timeout_to_buyer escrows (text "e1") 99)
        (record e1 { status = 3 })
        (erase (text "e1") escrows)
        (100 ≤ 99)
escrow_outcomes_example =
    escrow_outcomes escrows (text "e1") 99 3 2 e1 (unfold lookup text_beq in refl, refl)

-- A buyer who is the seller too.
abbrev own : Escrow2of3Utxo
own = record e1 { seller_hash = 1 }

spend_iff_example : (verify_and_spend covenants (text "c1") 100 (text "d") false ≡ ok (c1, [])) ↔ (
    (false ≡ false)
    × (lookup (text "c1") covenants ≡ some c1)
    × (100 ≤ 100)
    × ((c1.allowed_destination_hash ≡ none) ⊎ (c1.allowed_destination_hash ≡ some (text "d")))
    × ([] ≡ erase (text "c1") covenants))
spend_iff_example = spend_iff covenants (text "c1") 100 (text "d") false c1 []
