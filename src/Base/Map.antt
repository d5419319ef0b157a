-- ===== src/Base/Map.antt =====
-- `HashMap`, and an SQL table by its primary key, as an association list in insertion order.
-- A missing key is `none`. Keys are unique, so `update`, which is `UPDATE … WHERE key = k`, and
-- `insert` change the first entry of the key.
use mathlib.Core.Path.{◌≡◌, refl, sym, subst, subst₂}
use mathlib.Core.Logic.{inl, inr}
use mathlib.Core.Bool.{Bool, true, false}
use mathlib.Core.Option
use mathlib.Core.Option.{Option, none, some}
use mathlib.Core.List.{List, [], ◌∷◌}
use native.Mathlib.Omega.{arith}
use kaspa_frontier_engine.Base.Lists.{All}
use kaspa_frontier_engine.Base.Tests.{if◌then◌else◌, is_some, Bool-cases}
use kaspa_frontier_engine.Base.Eq.{Eq, ◌==◌}

-- `HashSet` is a map to nothing.
abbrev pub Set {ℓ} : Type ℓ → Type ℓ
Set K = List (K × Unit {0})

abbrev pub Map {ℓ κ} : Type ℓ → Type κ → Type (ℓ ⊔ κ)
Map K V = List (K × V)

module _ {ℓ κ} {K : Type ℓ} {V : Type κ} ⦃e : Eq K⦄ where
  unfoldable pub lookup : K → Map K V → Option V
  lookup k [] = none
  lookup k ((j, v) ∷ m) = if k == j then some v else lookup k m

  abbrev pub contains : K → Map K V → Bool
  contains k m = is_some (lookup k m)

  unfoldable pub insert : K → V → Map K V → Map K V
  insert k v [] = (k, v) ∷ []
  insert k v ((j, w) ∷ m) = if k == j then (j, v) ∷ m else (j, w) ∷ insert k v m

  unfoldable pub erase : K → Map K V → Map K V
  erase k [] = []
  erase k ((j, w) ∷ m) = let rest = erase k m in if k == j then rest else (j, w) ∷ rest

  unfoldable pub update : K → (V → V) → Map K V → Map K V
  update k f [] = []
  update k f ((j, w) ∷ m) = if k == j then (j, f w) ∷ m else (j, w) ∷ update k f m

  pub lookup-empty : (k : K) → lookup k [] ≡ none
  unfolding lookup
  lookup-empty k = refl

  pub lookup-insert :
      (j k : K) (v : V) (m : Map K V)
      → lookup j (insert k v m) ≡ (if j == k then some v else lookup j m)
  unfolding lookup insert
  lookup-insert j k v [] = refl
  lookup-insert j k v ((i, w) ∷ m) =
      ground (arith, e.beq_iff j k, e.beq_iff k i, e.beq_iff j i, lookup-insert j k v m)

  pub lookup-erase :
      (j k : K) (m : Map K V) → lookup j (erase k m) ≡ (if j == k then none else lookup j m)
  unfolding lookup erase
  lookup-erase j k [] = ground arith
  lookup-erase j k ((i, w) ∷ m) =
      ground (arith, e.beq_iff j k, e.beq_iff k i, e.beq_iff j i, lookup-erase j k m)

  pub lookup-update :
      (j k : K) (f : V → V) (m : Map K V)
      → lookup j (update k f m) ≡ (if j == k then Option.map f (lookup j m) else lookup j m)
  unfolding lookup update
  lookup-update j k f [] = ground arith
  lookup-update j k f ((i, w) ∷ m) =
      ground (arith, e.beq_iff j k, e.beq_iff k i, e.beq_iff j i, lookup-update j k f m)

  pub insert_twice : (k : K) (v w : V) (m : Map K V) → insert k v (insert k w m) ≡ insert k v m
  unfolding insert
  insert_twice k v w [] = ground (arith, e.beq_iff k k)
  insert_twice k v w ((j, u) ∷ m) = ground (arith, e.beq_iff k j, insert_twice k v w m)

  pub ruleset map_laws = (lookup-empty, lookup-insert, lookup-erase, lookup-update)

  -- What holds of every entry, under its key.
  abbrev pub AllEntries {μ} : (K → V → Type μ) → Map K V → Type μ
  AllEntries P m = All (λ kv. P kv.0 kv.1) m

  pub AllEntries-lookup {μ} :
      (P : K → V → Type μ) (k : K) (m : Map K V) {v : V}
      → AllEntries P m
      → lookup k m ≡ some v
      → P k v
  unfolding lookup
  AllEntries-lookup P k [] h found = cc
  AllEntries-lookup P k ((j, w) ∷ m) h found = elim (Bool-cases (e.beq k j)) [
    | inl same ↦ subst₂ P (sym ((e.beq_iff k j).0 same)) (ground arith) h.0
    | inr differ ↦ AllEntries-lookup P k m h.1 (ground arith)
  ]

  pub AllEntries-insert {μ} :
      (P : K → V → Type μ) (k : K) (v : V) (m : Map K V)
      → AllEntries P m
      → P k v
      → AllEntries P (insert k v m)
  unfolding insert
  AllEntries-insert P k v [] h p = (p, tt)
  AllEntries-insert P k v ((j, w) ∷ m) h p = elim (Bool-cases (e.beq k j)) [
    | inl same ↦ rw same (subst (λ i. P i v) ((e.beq_iff k j).0 same) p, h.1)
    | inr differ ↦ rw differ (h.0, AllEntries-insert P k v m h.1 p)
  ]

  -- An update has to keep what holds of the entry that it finds.
  pub AllEntries-update {μ} :
      (P : K → V → Type μ) (k : K) (f : V → V) (m : Map K V)
      → AllEntries P m
      → ((v : V) → lookup k m ≡ some v → P k v → P k (f v))
      → AllEntries P (update k f m)
  unfolding update lookup
  AllEntries-update P k f [] h step = tt
  AllEntries-update P k f ((j, w) ∷ m) h step = elim (Bool-cases (e.beq k j)) [
    | inl same ↦
        let path = (e.beq_iff k j).0 same in
        rw same
          (subst (λ i. P i (f w)) path (step w (rw same) (subst (λ i. P i w) (sym path) h.0)), h.1)
    | inr differ ↦
        rw differ (h.0, AllEntries-update P k f m h.1 (λ v found p. step v (rw differ found) p))
  ]

  -- An entry that is not erased has another key.
  pub AllEntries-erase {μ} :
      (P : K → V → Type μ) (k : K) (m : Map K V)
      → AllEntries (λ j v. e.beq k j ≡ false → P j v) m
      → AllEntries P (erase k m)
  unfolding erase
  AllEntries-erase P k [] h = tt
  AllEntries-erase P k ((j, w) ∷ m) h = elim (Bool-cases (e.beq k j)) [
    | inl same ↦ rw same (AllEntries-erase P k m h.1)
    | inr differ ↦ rw differ (h.0 differ, AllEntries-erase P k m h.1)
  ]

  pub AllEntries-imp {μ ν} :
      (P : K → V → Type μ) (Q : K → V → Type ν) (m : Map K V)
      → ((k : K) (v : V) → P k v → Q k v)
      → AllEntries P m
      → AllEntries Q m
  AllEntries-imp P Q [] f h = tt
  AllEntries-imp P Q ((j, w) ∷ m) f h = (f j w h.0, AllEntries-imp P Q m f h.1)

  contains_cons :
      (k : K) (kv : K × V) (m : Map K V) → contains k m ≡ true → contains k (kv ∷ m) ≡ true
  unfolding lookup
  contains_cons k kv m h = ground arith

  -- Every entry's key is contained.
  pub AllEntries-contains : (m : Map K V) → AllEntries (λ k v. contains k m ≡ true) m
  unfolding lookup
  AllEntries-contains [] = tt
  AllEntries-contains ((j, w) ∷ m) = (
    ground (arith, e.beq_iff j j),
    AllEntries-imp (λ k v. contains k m ≡ true) (λ k v. contains k ((j, w) ∷ m) ≡ true) m
        (λ k v. contains_cons k (j, w) m) (AllEntries-contains m),
  )
