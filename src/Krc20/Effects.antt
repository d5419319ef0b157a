-- ===== src/Krc20/Effects.antt =====
-- What the operations that go through do to the balances, as `get_balance` shows them.
use kaspa_frontier_engine.Base.{
  ℕ, ◌+◌, ◌-◌, ◌≤◌, ◌≡◌, refl, ◌&&◌, Option, none, some, arith, if◌then◌else◌, ok,
}
use kaspa_frontier_engine.Base.Eq.{◌==◌, nat_eq}
use kaspa_frontier_engine.Base.Text.{Text, text_beq_iff, text_eq}
use kaspa_frontier_engine.Base.Map.{lookup-insert}
use kaspa_frontier_engine.Base.Map.{lookup, insert}
use kaspa_frontier_engine.Krc20.{
  TokenState, Krc20StateEngine, or_zero, put_token, commit_mint, commit_transfer, checked_mint,
  apply_mint, checked_transfer, apply_transfer,
}
use kaspa_frontier_engine.Krc20.Balances.{lookup-added}
use kaspa_frontier_engine.Krc20.Invariant.{IsSound}
use kaspa_frontier_engine.Krc20.Apply.{
  checked_mint-ok, checked_transfer-ok, write_mint_lem, write_transfer_lem, minted_token,
  moved_token, token-IsSound,
}

abbrev pub token_balance : Option TokenState → Text → ℕ
token_balance none address = 0
token_balance (some token) address = or_zero (lookup address token.balances)

abbrev pub token_supply : Option TokenState → ℕ
token_supply none = 0
token_supply (some token) = token.minted_supply

-- The balance of an address, and the supply, under a normalised ticker.
abbrev pub balance_of : Krc20StateEngine → Text → Text → ℕ
balance_of engine ticker address = token_balance (lookup ticker engine.tokens) address

abbrev pub supply_of : Krc20StateEngine → Text → ℕ
supply_of engine ticker = token_supply (lookup ticker engine.tokens)

-- A transfer of `amount` under `ticker`: what the sender loses the destination gains, no other
-- balance of any token moves, and no supply does.
pub record IsTransfer (e e' : Krc20StateEngine) (ticker sender to : Text) (amount : ℕ)
    : Type 0 where
  pub balances :
      (t a : Text)
      → balance_of e' t a + (if t == ticker && a == sender then amount else 0)
        ≡ balance_of e t a + (if t == ticker && a == to then amount else 0)
  pub supplies : (t : Text) → supply_of e' t ≡ supply_of e t

pub record IsMint (e e' : Krc20StateEngine) (ticker sender : Text) (amount : ℕ) : Type 0 where
  pub balances :
      (t a : Text)
      → balance_of e' t a ≡ balance_of e t a + (if t == ticker && a == sender then amount else 0)
  pub supplies : (t : Text) → supply_of e' t ≡ supply_of e t + (if t == ticker then amount else 0)

module _ (engine : Krc20StateEngine) (ticker sender : Text) (token : TokenState)
    (found : lookup ticker engine.tokens ≡ some token) where
  minted-IsMint :
      (amount : ℕ)
      → IsMint engine
          (put_token ticker (minted_token sender token amount) engine)
          ticker
          sender
          amount
  unfolding put_token
  minted-IsMint amount = record {
    balances = λ t a. rw (lookup-insert t ticker (minted_token sender token amount) engine.tokens) (
        ground (
          arith,
          found,
          lookup-added a sender amount token.balances,
          text_beq_iff t ticker,
          text_beq_iff a sender,
        ));
    supplies = λ t.
        rw (lookup-insert t ticker (minted_token sender token amount) engine.tokens)
          (ground (arith, found, text_beq_iff t ticker));
  }

  moved-balance :
      (to a : Text) (amount : ℕ)
      → amount ≤ or_zero (lookup sender token.balances)
      → or_zero (
            lookup a
              (moved_token sender to token amount
                (or_zero (lookup sender token.balances))).balances)
          + (if a == sender then amount else 0)
        ≡ or_zero (lookup a token.balances) + (if a == to then amount else 0)
  moved-balance to a amount cover =
      let paid = insert sender (or_zero (lookup sender token.balances) - amount) token.balances in
      ground (
        arith,
        lookup-added a to amount paid,
        lookup-insert a sender (or_zero (lookup sender token.balances) - amount) token.balances,
        lookup-insert to sender (or_zero (lookup sender token.balances) - amount) token.balances,
        text_beq_iff a sender,
        text_beq_iff to sender,
        text_beq_iff a to,
      )

  moved-IsTransfer :
      (to : Text) (amount : ℕ)
      → amount ≤ or_zero (lookup sender token.balances)
      → IsTransfer engine
          (put_token ticker
            (moved_token sender to token amount (or_zero (lookup sender token.balances)))
            engine)
          ticker
          sender
          to
          amount
  unfolding put_token
  moved-IsTransfer to amount cover =
      let after = moved_token sender to token amount (or_zero (lookup sender token.balances)) in
      record {
        balances = λ t a.
            rw (lookup-insert t ticker after engine.tokens)
              (ground (arith, found, moved-balance to a amount cover, text_beq_iff t ticker));
        supplies = λ t.
            rw (lookup-insert t ticker after engine.tokens)
              (ground (arith, found, text_beq_iff t ticker));
      }

module _ (to_uppercase : Text → Text) (engine : Krc20StateEngine) (h : IsSound engine) where
  -- On a sound engine a transfer whose tests pass goes through, and moves the parsed amount of the
  -- normalised ticker from the sender to the destination and nothing else; an address that pays
  -- itself keeps its balance.
  pub apply_transfer-IsTransfer :
      (sender tick amt to ticker : Text) (token : TokenState) (amount balance : ℕ)
      → checked_transfer to_uppercase engine sender tick amt to
        ≡ ok (ticker, token, amount, balance)
      → let (r, engine') = apply_transfer to_uppercase engine sender tick amt to in
        (r ≡ ok tt) × IsTransfer engine engine' ticker sender to amount
  unfolding apply_transfer commit_transfer
  apply_transfer-IsTransfer sender tick amt to ticker token amount balance e =
      let facts =
        checked_transfer-ok to_uppercase engine sender tick amt to ticker token amount balance e in
      let cover : amount ≤ or_zero (lookup sender token.balances) = ground (arith, facts) in
      rw
        (
          e,
          facts.2,
          write_transfer_lem ticker sender token (token-IsSound ticker engine h facts.0) to engine
              amount cover,
        )
        (refl, moved-IsTransfer engine ticker sender token facts.0 to amount cover)

  -- On a sound engine a mint whose tests pass goes through, raises the sender's balance and the
  -- supply by the amount, which is at most the limit of the token, and leaves the supply within
  -- the cap.
  pub apply_mint-IsMint :
      (sender tick : Text) (amt : Option Text) (ticker : Text) (token : TokenState) (amount : ℕ)
      → checked_mint to_uppercase engine tick amt ≡ ok (ticker, token, amount)
      → let (r, engine') = apply_mint to_uppercase engine sender tick amt in
        (r ≡ ok tt)
        × IsMint engine engine' ticker sender amount
        × (amount ≤ token.limit_per_mint)
        × (supply_of engine' ticker ≤ token.max_supply)
  unfolding apply_mint commit_mint put_token
  apply_mint-IsMint sender tick amt ticker token amount e =
      let facts = checked_mint-ok to_uppercase engine tick amt ticker token amount e in
      let t = token-IsSound ticker engine h facts.0 in
      let room : token.minted_supply + amount ≤ token.max_supply = ground (arith, facts, t) in
      rw (e, write_mint_lem ticker sender token t engine amount room)
        (
          refl,
          minted-IsMint engine ticker sender token facts.0 amount,
          facts.2,
          rw (lookup-insert ticker ticker (minted_token sender token amount) engine.tokens)
              (ground (arith, text_beq_iff ticker ticker)),
        )
