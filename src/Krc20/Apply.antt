-- ===== src/Krc20/Apply.antt =====
-- Every operation on a sound engine goes through and keeps it sound, or fails and changes
-- nothing: the overflow errors between two writes cannot occur.
use kaspa_frontier_engine.Base.{
  ℕ, ◌+◌, ◌-◌, ◌≤◌, ◌<◌, max, ◌≡◌, refl, Option, some, arith, Result, ok, err,
}
use kaspa_frontier_engine.Base.Eq.{nat_eq}
use kaspa_frontier_engine.Base.Text.{Text, text_eq}
use kaspa_frontier_engine.Base.Map.{AllEntries-lookup}
use kaspa_frontier_engine.Base.Map.{lookup, insert}
use kaspa_frontier_engine.Krc20.{
  Krc20Error, Krc20Operation, deploy, mint, transfer, TokenState, Krc20StateEngine, or_zero,
  put_token, write_mint, write_transfer, commit_deploy, commit_mint, commit_transfer,
  checked_deploy, apply_deploy, checked_mint, apply_mint, checked_transfer, apply_transfer,
  apply_op,
}
use kaspa_frontier_engine.Krc20.Balances.{sum, sum-insert, added, add_balance_lem, sum-added}
use kaspa_frontier_engine.Krc20.Invariant.{
  TokenIsSound, IsSound, put_token-IsSound, parse_u128-lt, Applied,
}

-- A token found in a sound engine is sound.
pub token-IsSound :
    (ticker : Text) (engine : Krc20StateEngine) {token : TokenState}
    → IsSound engine
    → lookup ticker engine.tokens ≡ some token
    → TokenIsSound ticker token
token-IsSound ticker engine h found = AllEntries-lookup TokenIsSound ticker engine.tokens h found

-- The token after a mint, and after a transfer.
abbrev pub minted_token : Text → TokenState → ℕ → TokenState
minted_token sender token amount = record token {
  minted_supply = token.minted_supply + amount;
  balances = added sender amount token.balances;
}

abbrev pub moved_token : Text → Text → TokenState → ℕ → ℕ → TokenState
moved_token sender to token amount balance = record token {
  balances = added to amount (insert sender (balance - amount) token.balances);
}

module _ (ticker sender : Text) (token : TokenState) (t : TokenIsSound ticker token) where
  minted_token-IsSound :
      (amount : ℕ)
      → token.minted_supply + amount ≤ token.max_supply
      → TokenIsSound ticker (minted_token sender token amount)
  minted_token-IsSound amount room = record {
    named = t.named;
    summed = ground (arith, t, sum-added sender amount token.balances);
    capped = room;
    bounded = t.bounded;
  }

  pub write_mint_lem :
      (engine : Krc20StateEngine) (amount : ℕ)
      → token.minted_supply + amount ≤ token.max_supply
      → write_mint engine sender ticker token amount
        ≡ (ok tt, put_token ticker (minted_token sender token amount) engine)
  unfolding write_mint put_token
  write_mint_lem engine amount room =
      ground (arith, t, add_balance_lem sender amount token.balances)

  moved-room :
      (amount : ℕ)
      → amount ≤ or_zero (lookup sender token.balances)
      → sum (insert sender (or_zero (lookup sender token.balances) - amount) token.balances)
          + amount
        ≡ token.minted_supply
  moved-room amount cover =
      ground (
        arith,
        t,
        sum-insert sender (or_zero (lookup sender token.balances) - amount) token.balances,
      )

  moved_token-IsSound :
      (to : Text) (amount : ℕ)
      → amount ≤ or_zero (lookup sender token.balances)
      → TokenIsSound ticker
          (moved_token sender to token amount (or_zero (lookup sender token.balances)))
  moved_token-IsSound to amount cover = record {
    named = t.named;
    summed = ground (
      arith,
      t,
      moved-room amount cover,
      sum-added to amount
          (insert sender (or_zero (lookup sender token.balances) - amount) token.balances),
    );
    capped = t.capped;
    bounded = t.bounded;
  }

  pub write_transfer_lem :
      (to : Text) (engine : Krc20StateEngine) (amount : ℕ)
      → amount ≤ or_zero (lookup sender token.balances)
      → write_transfer engine sender to ticker token amount (or_zero (lookup sender token.balances))
        ≡ (
          ok tt,
          put_token ticker
              (moved_token sender to token amount (or_zero (lookup sender token.balances)))
              engine,
        )
  unfolding write_transfer put_token
  write_transfer_lem to engine amount cover = ground (
    arith,
    t,
    moved-room amount cover,
    add_balance_lem to amount
        (insert sender (or_zero (lookup sender token.balances) - amount) token.balances),
  )

module _ (to_uppercase : Text → Text) (engine : Krc20StateEngine) where
  -- What the tests of a mint have established.
  pub checked_mint-ok :
      (tick : Text) (amt : Option Text) (ticker : Text) (token : TokenState) (amount : ℕ)
      → checked_mint to_uppercase engine tick amt ≡ ok (ticker, token, amount)
      → (lookup ticker engine.tokens ≡ some token)
        × (0 < amount)
        × (amount ≤ token.limit_per_mint)
        × (amount ≤ token.max_supply - token.minted_supply)
  unfolding checked_mint
  checked_mint-ok tick amt ticker token amount h = ground arith

  pub checked_transfer-ok :
      (sender tick amt to ticker : Text) (token : TokenState) (amount balance : ℕ)
      → checked_transfer to_uppercase engine sender tick amt to
        ≡ ok (ticker, token, amount, balance)
      → (lookup ticker engine.tokens ≡ some token)
        × (0 < amount)
        × (balance ≡ or_zero (lookup sender token.balances))
        × (amount ≤ balance)
  unfolding checked_transfer
  checked_transfer-ok sender tick amt to ticker token amount balance h = ground arith

  checked_deploy-IsSound :
      (tick max lim : Text) (dec : Option ℕ) (ticker : Text) (token : TokenState)
      → checked_deploy to_uppercase engine tick max lim dec ≡ ok (ticker, token)
      → TokenIsSound ticker token
  unfolding checked_deploy sum
  checked_deploy-IsSound tick max lim dec ticker token h =
      ground (arith, parse_u128-lt max token.max_supply)

  module _ (h : IsSound engine) where
    commit_deploy-Applied :
        (tick cap lim : Text) (dec : Option ℕ) (r : Result Krc20Error (Text × TokenState))
        → checked_deploy to_uppercase engine tick cap lim dec ≡ r
        → Applied engine (commit_deploy engine r)
    unfolding commit_deploy
    commit_deploy-Applied tick cap lim dec (err x) e = refl
    commit_deploy-Applied tick cap lim dec (ok (ticker, token)) e =
        put_token-IsSound ticker token engine h
          (checked_deploy-IsSound tick cap lim dec ticker token e)

    commit_mint-Applied :
        (sender tick : Text) (amt : Option Text) (r : Result Krc20Error (Text × TokenState × ℕ))
        → checked_mint to_uppercase engine tick amt ≡ r
        → Applied engine (commit_mint engine sender r)
    unfolding commit_mint
    commit_mint-Applied sender tick amt (err x) e = refl
    commit_mint-Applied sender tick amt (ok (ticker, token, amount)) e =
        let facts = checked_mint-ok tick amt ticker token amount e in
        let t = token-IsSound ticker engine h facts.0 in
        let room : token.minted_supply + amount ≤ token.max_supply = ground (arith, facts, t) in
        rw (write_mint_lem ticker sender token t engine amount room) (
          put_token-IsSound ticker (minted_token sender token amount) engine h
            (minted_token-IsSound ticker sender token t amount room))

    commit_transfer-Applied :
        (sender tick amt to : Text) (r : Result Krc20Error (Text × TokenState × ℕ × ℕ))
        → checked_transfer to_uppercase engine sender tick amt to ≡ r
        → Applied engine (commit_transfer engine sender to r)
    unfolding commit_transfer
    commit_transfer-Applied sender tick amt to (err x) e = refl
    commit_transfer-Applied sender tick amt to (ok (ticker, token, amount, balance)) e =
        let facts = checked_transfer-ok sender tick amt to ticker token amount balance e in
        let t = token-IsSound ticker engine h facts.0 in
        let cover : amount ≤ or_zero (lookup sender token.balances) = ground (arith, facts) in
        rw (facts.2, write_transfer_lem ticker sender token t to engine amount cover)
          (put_token-IsSound ticker _ engine h
            (moved_token-IsSound ticker sender token t to amount cover))

    pub apply_op-Applied :
        (sender : Text) (op : Krc20Operation)
        → Applied engine (apply_op to_uppercase engine sender op)
    unfolding apply_op apply_deploy apply_mint apply_transfer
    apply_op-Applied sender (deploy tick cap lim dec) =
        commit_deploy-Applied tick cap lim dec _ refl
    apply_op-Applied sender (mint tick amt) = commit_mint-Applied sender tick amt _ refl
    apply_op-Applied sender (transfer tick amt to) =
        commit_transfer-Applied sender tick amt to _ refl
