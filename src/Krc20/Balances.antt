-- ===== src/Krc20/Balances.antt =====
-- The sum of the balances of a token, and how each write moves it.
use kaspa_frontier_engine.Base.{
  ℕ, ◌+◌, ◌≤◌, ◌<◌, ◌≡◌, [], ◌∷◌, arith, if◌then◌else◌, u128_bound, ok,
}
use kaspa_frontier_engine.Base.Eq.{◌==◌, nat_eq}
use kaspa_frontier_engine.Base.Text.{Text, text_beq_iff, text_eq}
use kaspa_frontier_engine.Base.Map.{Map, lookup-insert}
use kaspa_frontier_engine.Base.Map.{lookup, insert}
use kaspa_frontier_engine.Krc20.{or_zero, add_balance}

unfoldable pub sum : Map Text ℕ → ℕ
sum [] = 0
sum ((_, v) ∷ m) = v + sum m

pub sum-insert :
    (k : Text) (v : ℕ) (m : Map Text ℕ) → sum (insert k v m) + or_zero (lookup k m) ≡ sum m + v
unfolding sum insert lookup
sum-insert k v [] = omega arith
sum-insert k v ((j, w) ∷ m) = ground (arith, sum-insert k v m)

pub or_zero-le-sum : (k : Text) (m : Map Text ℕ) → or_zero (lookup k m) ≤ sum m
unfolding sum lookup
or_zero-le-sum k [] = omega arith
or_zero-le-sum k ((j, w) ∷ m) = ground (arith, or_zero-le-sum k m)

-- The balances after an addition that goes through.
abbrev pub added : Text → ℕ → Map Text ℕ → Map Text ℕ
added a amount m = insert a (or_zero (lookup a m) + amount) (insert a (or_zero (lookup a m)) m)

-- Where the sum has room for the amount the addition goes through, and raises the sum by it.
module _ (a : Text) (amount : ℕ) (m : Map Text ℕ) (room : sum m + amount < u128_bound) where
  pub add_balance_lem : add_balance a amount m ≡ (ok tt, added a amount m)
  unfolding add_balance
  add_balance_lem = ground (arith, or_zero-le-sum a m)

  pub sum-added : sum (added a amount m) ≡ sum m + amount
  sum-added = ground (
    arith,
    sum-insert a (or_zero (lookup a m) + amount) (insert a (or_zero (lookup a m)) m),
    sum-insert a (or_zero (lookup a m)) m,
    lookup-insert a a (or_zero (lookup a m)) m,
    text_beq_iff a a,
  )

pub lookup-added :
    (b a : Text) (amount : ℕ) (m : Map Text ℕ)
    → or_zero (lookup b (added a amount m))
      ≡ (if b == a then or_zero (lookup a m) + amount else or_zero (lookup b m))
lookup-added b a amount m = ground (
  arith,
  lookup-insert b a (or_zero (lookup a m) + amount) (insert a (or_zero (lookup a m)) m),
  lookup-insert b a (or_zero (lookup a m)) m,
)
