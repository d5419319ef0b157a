-- ===== src/Covenant/Htlc.antt =====
-- The hash time-locked contract: when a coin is claimed or refunded, and that this happens once.
use kaspa_frontier_engine.Base.{
  ℕ, ◌≤◌, ◌<◌, ◌≡◌, inl, inr, not, some, List, [], ◌∷◌, arith, Option-cases, ok, is_ok,
}
use kaspa_frontier_engine.Base.Lists.{IsOnce}
use kaspa_frontier_engine.Base.Eq.{nat_eq}
use kaspa_frontier_engine.Base.Text.{Text, text_eq}
use kaspa_frontier_engine.Base.Map.{lookup, erase}
use kaspa_frontier_engine.Covenant.{HtlcUtxo, HtlcPolicyEngine, claim, refund}
use kaspa_frontier_engine.Covenant.Spending.{Spends, start, spend, remove-found, Spends-IsOnce}

-- A coin that can still be settled.
abbrev pub IsOpen : HtlcPolicyEngine → Text → HtlcUtxo → Type 0
IsOpen utxos id utxo = (lookup id utxos ≡ some utxo) × (utxo.status ≡ 0)

pub claim-ok :
    (utxos : HtlcPolicyEngine) (id : Text) (daa preimage : ℕ) (spent : HtlcUtxo)
    (left : HtlcPolicyEngine)
    → claim utxos id daa preimage ≡ ok (spent, left)
    → (utxo : HtlcUtxo) × IsOpen utxos id utxo
      × (daa < utxo.refund_daa)
      × (preimage ≡ utxo.payment_hash)
      × (spent ≡ record utxo { status = 1 })
      × (left ≡ erase id utxos)
unfolding claim
claim-ok utxos id daa preimage spent left h = elim (Option-cases (lookup id utxos)) [
  | inl none_there ↦ absurd (ground arith)
  | inr (utxo, found) ↦
      let removed = remove-found utxos id found in
      (
        utxo,
        (found, ground arith),
        ground arith,
        ground arith,
        ground (arith, removed),
        ground (arith, removed),
      )
]

pub refund-ok :
    (utxos : HtlcPolicyEngine) (id : Text) (daa : ℕ) (spent : HtlcUtxo) (left : HtlcPolicyEngine)
    → refund utxos id daa ≡ ok (spent, left)
    → (utxo : HtlcUtxo) × IsOpen utxos id utxo
      × (utxo.refund_daa ≤ daa)
      × (spent ≡ record utxo { status = 2 })
      × (left ≡ erase id utxos)
unfolding refund
refund-ok utxos id daa spent left h = elim (Option-cases (lookup id utxos)) [
  | inl none_there ↦ absurd (ground arith)
  | inr (utxo, found) ↦
      let removed = remove-found utxos id found in
      (utxo, (found, ground arith), ground arith, ground (arith, removed), ground (arith, removed))
]

-- At every score an open coin is either claimed by its preimage or refunded, and never both: no
-- score leaves the coin stuck, and no score lets both sides take it.
pub claim_xor_refund :
    (utxos : HtlcPolicyEngine) (id : Text) (daa : ℕ) (utxo : HtlcUtxo)
    → IsOpen utxos id utxo
    → is_ok (claim utxos id daa utxo.payment_hash) ≡ not (is_ok (refund utxos id daa))
unfolding claim refund
claim_xor_refund utxos id daa utxo (found, live) =
    ground (arith, found, live, remove-found utxos id found)

-- A run of claims and refunds that succeed: the ids that they settle, latest first.
pub data HtlcRun : HtlcPolicyEngine → List Text → HtlcPolicyEngine → Type 0 where
  nothing : {utxos : HtlcPolicyEngine} → HtlcRun utxos [] utxos
  claims :
      {utxos left left' : HtlcPolicyEngine} {ids : List Text} (id : Text) (daa preimage : ℕ)
      (spent : HtlcUtxo)
      → HtlcRun utxos ids left
      → claim left id daa preimage ≡ ok (spent, left')
      → HtlcRun utxos (id ∷ ids) left'
  refunds :
      {utxos left left' : HtlcPolicyEngine} {ids : List Text} (id : Text) (daa : ℕ)
      (spent : HtlcUtxo)
      → HtlcRun utxos ids left
      → refund left id daa ≡ ok (spent, left')
      → HtlcRun utxos (id ∷ ids) left'

HtlcRun-Spends :
    {utxos left : HtlcPolicyEngine} {ids : List Text}
    → HtlcRun utxos ids left
    → Spends utxos ids left
HtlcRun-Spends nothing = start
HtlcRun-Spends (claims {left} {left'} id daa preimage spent r h) =
    let (utxo, open_coin, in_time, known, written, erased) =
      claim-ok left id daa preimage spent left' h in
    rw erased (spend id utxo (HtlcRun-Spends r) open_coin.0)
HtlcRun-Spends (refunds {left} {left'} id daa spent r h) =
    let (utxo, open_coin, late, written, erased) = refund-ok left id daa spent left' h in
    rw erased (spend id utxo (HtlcRun-Spends r) open_coin.0)

-- In a run of claims and refunds without a registration between them, no coin is settled twice.
pub settled-IsOnce :
    {utxos left : HtlcPolicyEngine} {ids : List Text} → HtlcRun utxos ids left → IsOnce ids
settled-IsOnce r = Spends-IsOnce (HtlcRun-Spends r)
