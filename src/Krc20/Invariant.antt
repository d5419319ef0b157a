-- ===== src/Krc20/Invariant.antt =====
-- The invariant of the engine: a token stands under its ticker, its balances sum up to what was
-- minted, and what was minted is at most the supply cap, which fits a `u128`.
use kaspa_frontier_engine.Base.{ℕ, ◌≤◌, ◌<◌, ◌≡◌, arith, u128_bound, ok, err}
use kaspa_frontier_engine.Base.Eq.{nat_eq}
use kaspa_frontier_engine.Base.Text.{Text, text_eq}
use kaspa_frontier_engine.Base.Map.{AllEntries, AllEntries-insert}
use kaspa_frontier_engine.Krc20.{TokenState, Krc20StateEngine, Outcome, parse_u128, put_token}
use kaspa_frontier_engine.Krc20.Balances.{sum}

pub record TokenIsSound (ticker : Text) (t : TokenState) : Type 0 where
  pub named : t.ticker ≡ ticker
  pub summed : sum t.balances ≡ t.minted_supply
  pub capped : t.minted_supply ≤ t.max_supply
  pub bounded : t.max_supply < u128_bound

abbrev pub IsSound : Krc20StateEngine → Type 0
IsSound engine = AllEntries TokenIsSound engine.tokens

pub put_token-IsSound :
    (ticker : Text) (token : TokenState) (engine : Krc20StateEngine)
    → IsSound engine
    → TokenIsSound ticker token
    → IsSound (put_token ticker token engine)
unfolding put_token
put_token-IsSound ticker token engine h t =
    AllEntries-insert TokenIsSound ticker token engine.tokens h t

pub parse_u128-lt : (raw : Text) (n : ℕ) → parse_u128 raw ≡ ok n → n < u128_bound
unfolding parse_u128
parse_u128-lt raw n h = ground arith

-- What an operation has done to a sound engine: it went through and the engine is sound, or it
-- failed and nothing has changed.
abbrev pub Applied : Krc20StateEngine → Outcome → Type 0
Applied engine (ok _, engine') = IsSound engine'
Applied engine (err _, engine') = engine' ≡ engine
