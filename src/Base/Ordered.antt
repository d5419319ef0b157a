-- ===== src/Base/Ordered.antt =====
-- `BTreeMap`: a map in the order of its keys, by the test that an `Ord` makes. What is said of `lookup`
-- holds for any test.
use mathlib.Core.Path.{◌≡◌, refl}
use mathlib.Core.Bool.{Bool}
use mathlib.Core.Option.{some}
use mathlib.Core.List.{[], ◌∷◌}
use native.Mathlib.Omega.{arith}
use mathlib.Core.Path.{subst}
use mathlib.Core.Logic.{inl, inr}
use kaspa_frontier_engine.Base.Tests.{if◌then◌else◌, Bool-cases}
use kaspa_frontier_engine.Base.Eq.{Eq, ◌==◌}
use kaspa_frontier_engine.Base.Map.{Map, lookup, AllEntries}

module _ {ℓ κ} {K : Type ℓ} {V : Type κ} ⦃e : Eq K⦄ (before : K → K → Bool) where
  unfoldable pub insert_ordered : K → V → Map K V → Map K V
  insert_ordered k v [] = (k, v) ∷ []
  insert_ordered k v ((j, w) ∷ m) =
      if k == j
      then (j, v) ∷ m
      else if before k j
      then (k, v) ∷ (j, w) ∷ m
      else (j, w) ∷ insert_ordered k v m

  pub lookup-insert_ordered :
      (j k : K) (v : V) (m : Map K V)
      → lookup j (insert_ordered k v m) ≡ (if j == k then some v else lookup j m)
  unfolding lookup insert_ordered
  lookup-insert_ordered j k v [] = refl
  lookup-insert_ordered j k v ((i, w) ∷ m) =
      ground (arith, e.beq_iff j k, e.beq_iff k i, e.beq_iff j i, lookup-insert_ordered j k v m)

  -- What holds of every entry and of the new one.
  pub AllEntries-insert_ordered {μ} :
      (P : K → V → Type μ) (k : K) (v : V) (m : Map K V)
      → AllEntries P m
      → P k v
      → AllEntries P (insert_ordered k v m)
  unfolding insert_ordered
  AllEntries-insert_ordered P k v [] h p = (p, tt)
  AllEntries-insert_ordered P k v ((j, w) ∷ m) h p = elim (Bool-cases (e.beq k j)) [
    | inl same ↦ rw same (subst (λ i. P i v) ((e.beq_iff k j).0 same) p, h.1)
    | inr differ ↦ elim (Bool-cases (before k j)) [
      | inl first ↦ rw (differ, first) (p, h)
      | inr later ↦ rw (differ, later) (h.0, AllEntries-insert_ordered P k v m h.1 p)
    ]
  ]
