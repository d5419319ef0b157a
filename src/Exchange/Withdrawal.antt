-- ===== src/Exchange/Withdrawal.antt =====
-- When an outbound payment counts as confirmed.
use kaspa_frontier_engine.Base.{
  ℕ, ◌-◌, ◌≤◌, max, ◌≡◌, refl, sym, subst, ◌∙◌, ◌↔◌, inl, inr, Bool-cases, Bool, true, ◌&&◌, some,
  List, [], ◌∷◌, arith, leb, Option-cases, is_some,
}
use mathlib.Core.List.{Memᴰ}
use mathlib.Core.List.Memᴰ.{head, tail}
use kaspa_frontier_engine.Base.Lists.{any}
use kaspa_frontier_engine.Base.Eq.{nat_eq}
use kaspa_frontier_engine.Base.Text.{text_beq_iff, text_eq}
use kaspa_frontier_engine.Outpoint.{outpoint_eq}
use kaspa_frontier_engine.Exchange.{
  ConfirmedWithdrawal, WithdrawalUtxo, WithdrawalExpectation, matches_expected, confirm_one,
  find_map, confirm_withdrawal,
}

-- An output that has the four expected facts, at a depth of at least one and of `depth`.
abbrev is_confirming : WithdrawalExpectation → ℕ → ℕ → WithdrawalUtxo → Bool
is_confirming expected virtual_daa depth utxo =
    matches_expected expected utxo && leb (max depth 1) (virtual_daa - utxo.block_daa_score)

confirm_withdrawal-any :
    (expected : WithdrawalExpectation) (virtual_daa : ℕ) (utxos : List WithdrawalUtxo) (depth : ℕ)
    → is_some (confirm_withdrawal expected virtual_daa utxos depth)
      ≡ any (is_confirming expected virtual_daa depth) utxos
unfolding confirm_withdrawal find_map confirm_one
confirm_withdrawal-any expected virtual_daa [] depth = refl
confirm_withdrawal-any expected virtual_daa (u ∷ us) depth =
    ground (arith, confirm_withdrawal-any expected virtual_daa us depth)

-- An output that pays what is expected, to the expected address, and is deep enough.
pub record IsPaid (expected : WithdrawalExpectation) (virtual_daa depth : ℕ) (utxo : WithdrawalUtxo)
    : Type 0 where
  pub tx_id : utxo.tx_id ≡ expected.tx_id
  pub index : utxo.output_index ≡ expected.output_index
  pub amount : utxo.amount_sompi ≡ expected.amount_sompi
  pub address : utxo.address ≡ expected.dest
  pub deep : max depth 1 ≤ virtual_daa - utxo.block_daa_score

is_confirming_iff :
    (expected : WithdrawalExpectation) (virtual_daa depth : ℕ) (u : WithdrawalUtxo)
    → (is_confirming expected virtual_daa depth u ≡ true) ↔ IsPaid expected virtual_daa depth u
unfolding matches_expected
is_confirming_iff expected virtual_daa depth u =
    ground (arith, text_beq_iff u.tx_id expected.tx_id, text_beq_iff u.address expected.dest)

any-Mem :
    (p : WithdrawalUtxo → Bool) (us : List WithdrawalUtxo)
    → any p us ≡ true
    → (u : WithdrawalUtxo) × Memᴰ u us × (p u ≡ true)
any-Mem p [] h = absurd (ground arith)
any-Mem p (u ∷ us) h = elim (Bool-cases (p u)) [
  | inl here ↦ (u, head refl, here)
  | inr differ ↦
      let (w, among, holds) = any-Mem p us (ground (arith, differ)) in (w, tail among, holds)
]

Mem-any :
    (p : WithdrawalUtxo → Bool) (u : WithdrawalUtxo) (us : List WithdrawalUtxo)
    → Memᴰ u us
    → p u ≡ true
    → any p us ≡ true
Mem-any p u [] m h = elim m [ ]
Mem-any p u (w ∷ us) (head e) h = ground (arith, subst (λ x. p x ≡ true) e h)
Mem-any p u (w ∷ us) (tail m) h = ground (arith, Mem-any p u us m h)

-- A payment is confirmed exactly when some output has the expected txid, index, amount and address
-- (an empty one too is compared) and is deep enough, at least one score above its block.
pub confirm_withdrawal_iff :
    (expected : WithdrawalExpectation) (virtual_daa : ℕ) (utxos : List WithdrawalUtxo) (depth : ℕ)
    → (is_some (confirm_withdrawal expected virtual_daa utxos depth) ≡ true)
      ↔ ((u : WithdrawalUtxo) × Memᴰ u utxos × IsPaid expected virtual_daa depth u)
confirm_withdrawal_iff expected virtual_daa utxos depth =
    let same = confirm_withdrawal-any expected virtual_daa utxos depth in
    let test = is_confirming_iff expected virtual_daa depth in
    (
      λ h.
          let (u, among, holds) =
            any-Mem (is_confirming expected virtual_daa depth) utxos (sym same ∙ h) in
          (u, among, (test u).0 holds),
      λ (u, among, paid).
          same ∙ Mem-any (is_confirming expected virtual_daa depth) u utxos among ((test u).1 paid),
    )

-- What a confirmation reports: the expected facts, and a depth that is counted from its block.
pub record Reports (expected : WithdrawalExpectation) (virtual_daa depth : ℕ)
    (c : ConfirmedWithdrawal) : Type 0 where
  pub tx_id : c.tx_id ≡ expected.tx_id
  pub dest : c.dest ≡ expected.dest
  pub amount : c.amount_sompi ≡ expected.amount_sompi
  pub index : c.output_index ≡ expected.output_index
  pub counted : c.confirmations ≡ virtual_daa - c.block_daa_score
  pub deep : max depth 1 ≤ c.confirmations

confirm_one-Reports :
    (expected : WithdrawalExpectation) (virtual_daa depth : ℕ) (u : WithdrawalUtxo)
    (c : ConfirmedWithdrawal)
    → confirm_one expected virtual_daa (max depth 1) u ≡ some c
    → Reports expected virtual_daa depth c
unfolding confirm_one matches_expected
confirm_one-Reports expected virtual_daa depth u c h =
    ground (arith, text_beq_iff u.tx_id expected.tx_id, text_beq_iff u.address expected.dest)

-- What is reported for a payment carries the expected txid, index, amount and destination, and its depth
-- is counted from its block and is at least the required one, which is 1 or more.
pub confirm_withdrawal-Reports :
    (expected : WithdrawalExpectation) (virtual_daa : ℕ) (utxos : List WithdrawalUtxo) (depth : ℕ)
    (c : ConfirmedWithdrawal)
    → confirm_withdrawal expected virtual_daa utxos depth ≡ some c
    → Reports expected virtual_daa depth c
unfolding confirm_withdrawal find_map
confirm_withdrawal-Reports expected virtual_daa [] depth c h = cc
confirm_withdrawal-Reports expected virtual_daa (u ∷ us) depth c h =
    elim (Option-cases (confirm_one expected virtual_daa (max depth 1) u)) [
      | inl none_here ↦ confirm_withdrawal-Reports expected virtual_daa us depth c (ground arith)
      | inr (c', here) ↦ confirm_one-Reports expected virtual_daa depth u c (ground arith)
    ]

any-imp :
    (p q : WithdrawalUtxo → Bool) (us : List WithdrawalUtxo)
    → ((u : WithdrawalUtxo) → p u ≡ true → q u ≡ true)
    → any p us ≡ true
    → any q us ≡ true
any-imp p q [] f h = h
any-imp p q (u ∷ us) f h = ground (arith, f u, any-imp p q us f)

-- A payment that is confirmed at one DAA score is confirmed at every later one while the outputs
-- stay, and at every smaller required depth.
pub confirm_withdrawal_mono :
    (expected : WithdrawalExpectation) (v v' : ℕ) (utxos : List WithdrawalUtxo) (depth depth' : ℕ)
    → v ≤ v'
    → depth' ≤ depth
    → is_some (confirm_withdrawal expected v utxos depth) ≡ true
    → is_some (confirm_withdrawal expected v' utxos depth') ≡ true
confirm_withdrawal_mono expected v v' utxos depth depth' hv hd h = rw confirm_withdrawal-any (
    any-imp (is_confirming expected v depth) (is_confirming expected v' depth') utxos
      (λ u p. ground arith) (rw confirm_withdrawal-any at h))
