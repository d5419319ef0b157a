-- ===== src/Covenant/Policy.antt =====
-- The covenant policy: what a spend demands.
use kaspa_frontier_engine.Base.{
  ℕ, ◌≤◌, ◌≡◌, refl, ap, ◌↔◌, ◌⊎◌, Option, inl, inr, Bool, true, false, none, some, arith,
  Option-cases, ok, err,
}
use kaspa_frontier_engine.Base.Eq.{nat_eq}
use kaspa_frontier_engine.Base.Text.{Text, text_beq_iff, text_eq}
use kaspa_frontier_engine.Base.Map.{lookup-erase}
use kaspa_frontier_engine.Base.Map.{lookup, erase}
use kaspa_frontier_engine.Covenant.{
  missing, NativeCovenantUtxo, CovenantPolicyEngine, inspect, allows, verify_and_spend,
}
use kaspa_frontier_engine.Covenant.Spending.{remove-found}

allows_lem :
    (allowed : Option Text) (destination : Text)
    → allows allowed destination ≡ true
    → (allowed ≡ none) ⊎ (allowed ≡ some destination)
allows_lem none destination h = inl refl
allows_lem (some a) destination h = inr (ap some ((text_beq_iff a destination).0 h))

allowed-allows :
    (allowed : Option Text) (destination : Text)
    → (allowed ≡ none) ⊎ (allowed ≡ some destination)
    → allows allowed destination ≡ true
allowed-allows none destination h = refl
allowed-allows (some a) destination (inl h) = absurd (ground arith)
allowed-allows (some a) destination (inr h) = (text_beq_iff a destination).1 (ground arith)

-- A spend succeeds exactly if no proof is attached, the covenant is registered, its time lock has
-- passed and its destination, where it has one, is the given one; it then returns the covenant as it
-- was registered and takes it out.
pub spend_iff :
    (covenants : CovenantPolicyEngine) (id : Text) (daa : ℕ) (destination : Text) (zk : Bool)
    (spent : NativeCovenantUtxo) (left : CovenantPolicyEngine)
    → (verify_and_spend covenants id daa destination zk ≡ ok (spent, left)) ↔ (
        (zk ≡ false)
        × (lookup id covenants ≡ some spent)
        × (spent.min_daa_timelock ≤ daa)
        × ((spent.allowed_destination_hash ≡ none)
            ⊎ (spent.allowed_destination_hash ≡ some destination))
        × (left ≡ erase id covenants))
unfolding verify_and_spend
spend_iff covenants id daa destination zk spent left = (
  λ h. elim (Option-cases (lookup id covenants)) [
    | inl none_there ↦ absurd (ground arith)
    | inr (coin, found) ↦
        let removed = remove-found covenants id found in
        let same : coin ≡ spent = ground (arith, removed) in
        let fits : allows coin.allowed_destination_hash destination ≡ true =
          ground (arith, removed) in
        (
          ground arith,
          ground (arith, removed),
          ground (arith, removed),
          allows_lem spent.allowed_destination_hash destination (ground arith),
          ground (arith, removed),
        )
  ],
  λ (no_proof, found, late, fits, gone).
      let allowed = allowed-allows spent.allowed_destination_hash destination fits in
      ground (arith, remove-found covenants id found),
)

-- After a spend the covenant is gone: it is not inspected, and spending it again is refused as
-- missing.
pub spend_again_missing :
    (covenants : CovenantPolicyEngine) (id : Text) (daa later : ℕ) (destination other : Text)
    (spent : NativeCovenantUtxo) (left : CovenantPolicyEngine)
    → verify_and_spend covenants id daa destination false ≡ ok (spent, left)
    → (inspect left id ≡ none) × (verify_and_spend left id later other false ≡ err (missing id))
unfolding inspect verify_and_spend
spend_again_missing covenants id daa later destination other spent left h =
    let (no_proof, found, late, fits, erased) =
      (spend_iff covenants id daa destination false spent left).0 h in
    let gone : lookup id left ≡ none =
      ground (arith, erased, lookup-erase id id covenants, text_beq_iff id id) in
    (gone, ground (arith, gone))
