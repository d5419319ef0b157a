-- ===== src/Base/Eq.antt =====
-- Rust's `Eq`, as an interface: a Boolean test that decides equality.
use Prim.Native.Nat.{ℕ}
use mathlib.Core.Path.{◌≡◌}
use mathlib.Core.Logic.{◌↔◌}
use mathlib.Core.Bool.{Bool, true}
use kaspa_frontier_engine.Base.Tests.{nat_beq, nat_beq_iff}

-- What a key of a `HashMap` or an element of a `HashSet` needs.
pub record Eq {ℓ} (Key : Type ℓ) : Type ℓ where
  pub beq : Key → Key → Bool
  -- The test holds of equal keys and of no others.
  pub beq_iff : (j k : Key) → (beq j k ≡ true) ↔ (j ≡ k)

instance abbrev pub nat_eq : Eq ℕ
nat_eq = record { beq_iff = nat_beq_iff; beq = nat_beq }

-- `==` of the source.
module _ {ℓ} {Key : Type ℓ} ⦃dict : Eq Key⦄ where
  infix 50 ◌==◌
  abbrev pub ◌==◌ : Key → Key → Bool
  j == k = dict.beq j k
