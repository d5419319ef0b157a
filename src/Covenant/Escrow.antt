-- ===== src/Covenant/Escrow.antt =====
-- The 2-of-3 escrow: who can move a coin, and when.
use kaspa_frontier_engine.Base.{
  ℕ, ◌≤◌, ◌<◌, ◌≡◌, ◌↔◌, ◌⊎◌, inl, inr, true, some, List, [], ◌∷◌, arith, Option-cases, ok, is_ok,
}
use kaspa_frontier_engine.Base.Lists.{IsOnce}
use kaspa_frontier_engine.Base.Eq.{nat_eq}
use kaspa_frontier_engine.Base.Text.{Text, text_eq}
use kaspa_frontier_engine.Base.Map.{lookup, erase}
use kaspa_frontier_engine.Covenant.{
  Escrow2of3Utxo, Escrow2of3PolicyEngine, Spend, pair_ok, release_to_seller, refund_to_buyer,
  timeout_to_buyer,
}
use kaspa_frontier_engine.Covenant.Spending.{Spends, start, spend, remove-found, Spends-IsOnce}

-- A coin that can still be settled.
abbrev pub IsOpen : Escrow2of3PolicyEngine → Text → Escrow2of3Utxo → Type 0
IsOpen utxos id utxo = (lookup id utxos ≡ some utxo) × (utxo.status ≡ 0)

-- The two actors are the two holders of the hashes, in either order.
abbrev pub IsPair : ℕ → ℕ → ℕ → ℕ → Type 0
IsPair a b left right = ((a ≡ left) × (b ≡ right)) ⊎ ((a ≡ right) × (b ≡ left))

-- The call succeeds exactly under the condition, and then it gives the coin with the status and takes
-- it out.
abbrev pub PaysWhen :
    Spend Escrow2of3Utxo → Escrow2of3Utxo → Escrow2of3PolicyEngine → Type 0 → Type 0
PaysWhen outcome paid left condition =
    ((is_ok outcome ≡ true) ↔ condition) × ((outcome ≡ ok (paid, left)) ↔ condition)

-- What the three ways to spend an open coin give. Before `refund_daa` the seller is paid exactly by the
-- seller's and the arbiter's hashes and the buyer exactly by the buyer's and the arbiter's, in either
-- order; the timeout pays the buyer exactly from `refund_daa` on. Each of them, when it pays, returns
-- the coin with its own status (1 seller, 2 buyer, 3 timeout) and takes it out of the engine.
pub escrow_outcomes :
    (utxos : Escrow2of3PolicyEngine) (id : Text) (daa a b : ℕ) (utxo : Escrow2of3Utxo)
    → IsOpen utxos id utxo
    → PaysWhen
        (release_to_seller utxos id daa a b)
        (record utxo { status = 1 })
        (erase id utxos)
        ((daa < utxo.refund_daa) × IsPair a b utxo.seller_hash utxo.arbiter_hash)
      × PaysWhen
          (refund_to_buyer utxos id daa a b)
          (record utxo { status = 2 })
          (erase id utxos)
          ((daa < utxo.refund_daa) × IsPair a b utxo.buyer_hash utxo.arbiter_hash)
      × PaysWhen
          (timeout_to_buyer utxos id daa)
          (record utxo { status = 3 })
          (erase id utxos)
          (utxo.refund_daa ≤ daa)
unfolding release_to_seller refund_to_buyer timeout_to_buyer pair_ok
escrow_outcomes utxos id daa a b utxo (found, live) =
    let removed = remove-found utxos id found in
    (
      ground (arith, found, live, removed),
      ground (arith, found, live, removed),
      ground (arith, found, live, removed),
    )

-- Two actors that could both release a coin to the seller and refund it to the buyer exist only if
-- buyer and seller have the same hash.
pub no_double_authority :
    (utxos : Escrow2of3PolicyEngine) (id : Text) (daa a b : ℕ) (utxo : Escrow2of3Utxo)
    → IsOpen utxos id utxo
    → is_ok (release_to_seller utxos id daa a b) ≡ true
    → is_ok (refund_to_buyer utxos id daa a b) ≡ true
    → utxo.buyer_hash ≡ utxo.seller_hash
no_double_authority utxos id daa a b utxo is_open released refunded =
    let (release_when, refund_when, timeout_when) = escrow_outcomes utxos id daa a b utxo is_open in
    ground (arith, release_when.0.0 released, refund_when.0.0 refunded)

-- A call that settles a coin.
pub data EscrowCall : Type 0 where
  release refund_buyer : ℕ → ℕ → ℕ → EscrowCall
  timeout : ℕ → EscrowCall

unfoldable pub settle : Escrow2of3PolicyEngine → Text → EscrowCall → Spend Escrow2of3Utxo
settle utxos id (release daa a b) = release_to_seller utxos id daa a b
settle utxos id (refund_buyer daa a b) = refund_to_buyer utxos id daa a b
settle utxos id (timeout daa) = timeout_to_buyer utxos id daa

-- The status that a call writes: 1 for the seller, 2 and 3 for the buyer.
abbrev pub status_of : EscrowCall → ℕ
status_of (release daa a b) = 1
status_of (refund_buyer daa a b) = 2
status_of (timeout daa) = 3

settle-ok :
    (utxos : Escrow2of3PolicyEngine) (id : Text) (call : EscrowCall) (spent : Escrow2of3Utxo)
    (left : Escrow2of3PolicyEngine)
    → settle utxos id call ≡ ok (spent, left)
    → (utxo : Escrow2of3Utxo) × IsOpen utxos id utxo
      × (spent ≡ record utxo { status = status_of call })
      × (left ≡ erase id utxos)
unfolding settle release_to_seller refund_to_buyer timeout_to_buyer
settle-ok utxos id call spent left h = elim (Option-cases (lookup id utxos)) [
  | inl none_there ↦ absurd (ground arith)
  | inr (utxo, found) ↦
      let removed = remove-found utxos id found in
      (utxo, (found, ground arith), ground (arith, removed), ground (arith, removed))
]

-- A run of calls that succeed: the ids that they settle, latest first.
pub data EscrowRun : Escrow2of3PolicyEngine → List Text → Escrow2of3PolicyEngine → Type 0 where
  nothing : {utxos : Escrow2of3PolicyEngine} → EscrowRun utxos [] utxos
  settles :
      {utxos left left' : Escrow2of3PolicyEngine} {ids : List Text} (id : Text) (call : EscrowCall)
      (spent : Escrow2of3Utxo)
      → EscrowRun utxos ids left
      → settle left id call ≡ ok (spent, left')
      → EscrowRun utxos (id ∷ ids) left'

EscrowRun-Spends :
    {utxos left : Escrow2of3PolicyEngine} {ids : List Text}
    → EscrowRun utxos ids left
    → Spends utxos ids left
EscrowRun-Spends nothing = start
EscrowRun-Spends (settles {left} {left'} id call spent r h) =
    let (utxo, open_coin, written, erased) = settle-ok left id call spent left' h in
    rw erased (spend id utxo (EscrowRun-Spends r) open_coin.0)

-- In a run of releases, refunds and timeouts without a registration between them, no coin is settled
-- twice.
pub escrow_settled-IsOnce :
    {utxos left : Escrow2of3PolicyEngine} {ids : List Text} → EscrowRun utxos ids left → IsOnce ids
escrow_settled-IsOnce r = Spends-IsOnce (EscrowRun-Spends r)
