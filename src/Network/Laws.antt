-- ===== src/Network/Laws.antt =====
-- The prefixes exclude one another, and the checksum test accepts testnet addresses alone.
use kaspa_frontier_engine.Base.{
  ◌≡◌, ◌↔◌, inl, inr, true, false, some, [], ◌∷◌, ◌++◌, arith, Option-cases,
}
use kaspa_frontier_engine.Base.Eq.{nat_eq}
use kaspa_frontier_engine.Base.Text.{Text, text, text_beq_iff, text_eq}
use kaspa_frontier_engine.Base.Text.{starts_with}
use kaspa_frontier_engine.Network.{
  mainnet, address_prefix_testnet, address_prefix_mainnet, classify_address, is_testnet_address,
  rsplit_colon, cashaddr_valid, is_valid_testnet_address,
}

-- No text has both prefixes: the colon of `kaspa:` stands where `kaspatest:` has a `t`.
starts_with_prefix_disjoint :
    (a : Text)
    → starts_with a address_prefix_testnet ≡ true
    → starts_with a address_prefix_mainnet ≡ false
unfolding starts_with
starts_with_prefix_disjoint a h = ground arith

-- An address is classified as one of mainnet exactly if it starts with `kaspa:`: the two prefixes exclude
-- each other, so the order of the two tests in `classify_address` does not matter.
pub classify_address-mainnet_iff :
    (a : Text) → (classify_address a ≡ mainnet) ↔ (starts_with a address_prefix_mainnet ≡ true)
unfolding classify_address
classify_address-mainnet_iff a = (
  λ h. ground (arith, starts_with_prefix_disjoint a),
  λ h. ground (arith, starts_with_prefix_disjoint a),
)

-- What stands before the last colon begins the text, and the colon follows.
starts_with-rsplit_colon :
    (a p q : Text) → rsplit_colon a ≡ some (p, q) → starts_with a (p ++ b':' ∷ []) ≡ true
unfolding rsplit_colon starts_with
starts_with-rsplit_colon [] p q h = cc
starts_with-rsplit_colon (c ∷ s) p q h = elim (Option-cases (rsplit_colon s)) [
  | inl last ↦ ground arith
  | inr ((p', q'), e) ↦ ground (arith, starts_with-rsplit_colon s p' q' e)
]

prefix-cashaddr_valid :
    (a prefix : Text) → cashaddr_valid a prefix ≡ true → starts_with a (prefix ++ b':' ∷ []) ≡ true
unfolding cashaddr_valid
prefix-cashaddr_valid a prefix h = elim (Option-cases (rsplit_colon a)) [
  | inl bare ↦ ground arith
  | inr ((p, q), e) ↦ ground (arith, starts_with-rsplit_colon a p q e, text_beq_iff p prefix)
]

-- An address with a valid testnet checksum is classified as one of a testnet.
pub is_valid-is_testnet :
    (a : Text) → is_valid_testnet_address a ≡ true → is_testnet_address a ≡ true
unfolding is_valid_testnet_address is_testnet_address
is_valid-is_testnet a h = ground (arith, prefix-cashaddr_valid a (text "kaspatest") h)
