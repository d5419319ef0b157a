-- ===== src/Covenant/Spending.antt =====
-- What leaves an engine leaves it once: the sequences of spends that the three engines share.
use kaspa_frontier_engine.Base.{◌≡◌, ◌≢◌, none, some, List, [], ◌∷◌, arith, ok}
use kaspa_frontier_engine.Base.Lists.{All, All-imp, IsOnce}
use kaspa_frontier_engine.Base.Eq.{nat_eq}
use kaspa_frontier_engine.Base.Text.{Text, text_beq_iff, text_eq}
use kaspa_frontier_engine.Base.Map.{lookup-erase}
use kaspa_frontier_engine.Base.Map.{lookup, erase}
use kaspa_frontier_engine.Covenant.{Coins, remove}

-- A run of spends: the ids in the order of spending, latest first.
pub data Spends {V : Type 0} : Coins V → List Text → Coins V → Type 0 where
  start : {coins : Coins V} → Spends coins [] coins
  spend :
      {coins left : Coins V} {ids : List Text} (id : Text) (coin : V)
      → Spends coins ids left
      → lookup id left ≡ some coin
      → Spends coins (id ∷ ids) (erase id left)

-- `remove` returns the coin that is there and takes it out.
pub remove-found :
    {V : Type 0}
    → (coins : Coins V) (id : Text) {coin : V} → lookup id coins ≡ some coin
    → remove coins id ≡ ok (coin, erase id coins)
unfolding remove
remove-found coins id found = ground (arith, found)

-- The ids of a run are gone.
pub spent-IsGone :
    {V : Type 0} {coins left : Coins V} {ids : List Text}
    → Spends coins ids left
    → All (λ id. lookup id left ≡ none) ids
spent-IsGone start = tt
spent-IsGone (spend {coins} {left} {ids} id coin r found) = (
  ground (arith, lookup-erase id id left, text_beq_iff id id),
  All-imp (λ k. lookup k left ≡ none) (λ k. lookup k (erase id left) ≡ none)
      (λ k gone. ground (arith, gone, lookup-erase k id left)) ids (spent-IsGone r),
)

-- No coin is spent twice in a run.
pub Spends-IsOnce :
    {V : Type 0} {coins left : Coins V} {ids : List Text} → Spends coins ids left → IsOnce ids
unfolding IsOnce
Spends-IsOnce start = tt
Spends-IsOnce (spend {coins} {left} {ids} id coin r found) = (
  All-imp (λ k. lookup k left ≡ none) (λ k. id ≢ k) (λ k gone same. cc (gone, found, same)) ids
      (spent-IsGone r),
  Spends-IsOnce r,
)
