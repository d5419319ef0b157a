-- ===== src/Krc20.antt =====
-- src/krc20.rs: the off-chain state machine of KRC-20 payloads. `serde_json::from_str` and the
-- Unicode case mapping of `str::to_uppercase` are parameters. A method returns its result beside
-- the state, since what was written before an error stays written.
pub mod Inscription
pub mod Balances
pub mod Invariant
pub mod Apply
pub mod Effects
pub mod Replay
mod Tests
use mathlib.Core.Option
use Prim.Native.Nat.{bit_xor, pred}
use kaspa_frontier_engine.Base.{
  ℕ, zero, suc, ◌+◌, ◌-◌, ◌*◌, ◌/◌, ◌%◌, ◌^◌, ◌≤◌, ◌<◌, max, min, ◌≡◌, refl, sym, ap, ◌∙◌, ◌≢◌, ◌↔◌,
  ◌⊎◌, inl, inr, Bool, true, false, not, ◌&&◌, ◌||◌, Option, none, some, List, [], ◌∷◌, ◌++◌, map,
  arith, ltb, leb, nat_beq, if◌then◌else◌, nat_beq_iff, Bool-cases, Option-cases, is_some,
  saturating_sub, checked_add, u64_bound, u128_bound, i64_bound, Result, ok, err, ◌>>=◌, ◌>>◌,
  fail_if, ok_or, to_i64, is_ok, Result-cases,
}
use kaspa_frontier_engine.Base.Lists.{
  length, all, retain, All, All-append, All-retain, All-imp, length-append,
}
use kaspa_frontier_engine.Base.Eq.{Eq, ◌==◌, nat_eq}
use kaspa_frontier_engine.Base.Text.{
  Text, text, text_beq_iff, text_eq, is_empty, is_ascii_digit, is_ascii_lowercase,
  is_ascii_uppercase, is_ascii_alphanumeric, is_ascii_hexdigit, lower, is_whitespace,
}
use kaspa_frontier_engine.Base.Text.{
  text_beq, len, to_ascii_lowercase, trim_start, trim, starts_with,
}
use kaspa_frontier_engine.Base.Map.{
  Map, Set, AllEntries, AllEntries-lookup, AllEntries-insert, AllEntries-update, AllEntries-erase,
  contains, lookup-empty, lookup-insert, lookup-erase, lookup-update, map_laws,
}
use kaspa_frontier_engine.Base.Map.{lookup, insert, erase, update}
use kaspa_frontier_engine.Network.{AddressNetwork, mainnet, testnet, other}
use kaspa_frontier_engine.Network.{classify_address}

pub data Krc20Error : Type 0 where
  invalid_protocol invalid_amount invalid_tick invalid_address missing_tx_id : Krc20Error
  already_exists not_found duplicate_tx parse : Text → Krc20Error
  mint_limit_exceeded supply_cap_exceeded : ℕ → ℕ → Krc20Error
  insufficient_balance : Text → ℕ → ℕ → Krc20Error

pub data Krc20Operation : Type 0 where
  deploy : Text → Text → Text → Option ℕ → Krc20Operation
  mint : Text → Option Text → Krc20Operation
  transfer : Text → Text → Text → Krc20Operation

pub record Krc20Envelope : Type 0 where
  pub p : Text
  pub op : Krc20Operation

pub record TokenState : Type 0 where
  pub ticker : Text
  pub max_supply : ℕ
  pub minted_supply : ℕ
  pub limit_per_mint : ℕ
  pub decimals : ℕ
  pub balances : Map Text ℕ

pub record Krc20StateEngine : Type 0 where
  pub tokens : Map Text TokenState
  pub seen_txids : Set Text

-- `Krc20StateEngine::new`
abbrev pub new : Krc20StateEngine
new = record { tokens = []; seen_txids = [] }

abbrev pub Outcome : Type 0
Outcome = Result Krc20Error (Unit {0}) × Krc20StateEngine

-- The value of a text of decimal digits, read from the left.
unfoldable pub decimal : ℕ → Text → ℕ
decimal acc [] = acc
decimal acc (c ∷ s) = decimal (acc * 10 + (c - b'0')) s

unfoldable pub parse_u128 : Text → Result Krc20Error ℕ
unfolding decimal
parse_u128 raw =
    if is_empty raw || not (all is_ascii_digit raw)
    then err invalid_amount
    else if ltb (decimal 0 raw) u128_bound
    then ok (decimal 0 raw)
    else err invalid_amount

unfoldable pub reject_cross_network : Text → Text → Result Krc20Error (Unit {0})
unfolding classify_address
reject_cross_network sender dest = elim (classify_address sender) [
  | testnet ↦ elim (classify_address dest) [ mainnet ↦ err invalid_address | _ ↦ ok tt ]
  | mainnet ↦ elim (classify_address dest) [ testnet ↦ err invalid_address | _ ↦ ok tt ]
  | other ↦ ok tt
]

-- A missing balance counts as zero.
abbrev pub or_zero : Option ℕ → ℕ
or_zero none = 0
or_zero (some n) = n

-- `*balances.entry(address).or_insert(0)`, and the checked addition into it. On overflow the
-- entry stays.
unfoldable pub add_balance : Text → ℕ → Map Text ℕ → Result Krc20Error (Unit {0}) × Map Text ℕ
add_balance address amount balances =
    let balance = or_zero (lookup address balances) in
    elim (checked_add u128_bound balance amount) [
      | none ↦ (err invalid_amount, insert address balance balances)
      | some total ↦ (ok tt, insert address total (insert address balance balances))
    ]

-- A token written back under its ticker, as `get_mut` leaves it.
unfoldable pub put_token : Text → TokenState → Krc20StateEngine → Krc20StateEngine
put_token ticker token engine = record engine { tokens = insert ticker token engine.tokens }

-- The amount of a mint: the limit of the deployment where none is given.
unfoldable pub mint_amount : TokenState → Option Text → Result Krc20Error ℕ
mint_amount token none = ok token.limit_per_mint
mint_amount token (some amt) =
    let raw = trim amt in if is_empty raw then ok token.limit_per_mint else parse_u128 raw

-- The writes of a mint: the minted supply first, then the balance.
unfoldable pub write_mint : Krc20StateEngine → Text → Text → TokenState → ℕ → Outcome
write_mint engine sender ticker token amount =
    elim (checked_add u128_bound token.minted_supply amount) [
      | none ↦ (err invalid_amount, engine)
      | some minted ↦
          let (r, balances) = add_balance sender amount token.balances in
          (
            r,
            put_token ticker (record token { minted_supply = minted; balances = balances }) engine,
          )
    ]

-- The writes of a transfer: the sender's new balance first, then the destination's.
unfoldable pub write_transfer : Krc20StateEngine → Text → Text → Text → TokenState → ℕ → ℕ → Outcome
write_transfer engine sender to ticker token amount balance =
    let (r, balances) = add_balance to amount (insert sender (balance - amount) token.balances) in
    (r, put_token ticker (record token { balances = balances }) engine)

-- The writes of an operation, behind its tests: an error of theirs comes before any write.
unfoldable pub commit_deploy : Krc20StateEngine → Result Krc20Error (Text × TokenState) → Outcome
commit_deploy engine (err e) = (err e, engine)
commit_deploy engine (ok (ticker, token)) = (ok tt, put_token ticker token engine)

unfoldable pub commit_mint :
    Krc20StateEngine → Text → Result Krc20Error (Text × TokenState × ℕ) → Outcome
commit_mint engine sender (err e) = (err e, engine)
commit_mint engine sender (ok (ticker, token, amount)) =
    write_mint engine sender ticker token amount

unfoldable pub commit_transfer :
    Krc20StateEngine → Text → Text → Result Krc20Error (Text × TokenState × ℕ × ℕ) → Outcome
commit_transfer engine sender to (err e) = (err e, engine)
commit_transfer engine sender to (ok (ticker, token, amount, balance)) =
    write_transfer engine sender to ticker token amount balance

-- The txid is recorded only after an operation that went through.
unfoldable pub record_txid : Text → Outcome → Outcome
record_txid tx_id (err e, engine) = (err e, engine)
record_txid tx_id (ok _, engine) =
    (ok tt, record engine { seen_txids = insert tx_id tt engine.seen_txids })

-- `normalize_tick` and the operations, for a case mapping.
module _ (to_uppercase : Text → Text) where
  unfoldable pub normalize_tick : Text → Result Krc20Error Text
  normalize_tick tick =
      let ticker = to_uppercase tick in
      if is_empty ticker || ltb 10 (len ticker) || not (all is_ascii_alphanumeric ticker)
      then err invalid_tick
      else ok ticker

  -- The tests of a deployment, and the token that it makes.
  unfoldable pub checked_deploy :
      Krc20StateEngine → Text → Text → Text → Option ℕ → Result Krc20Error (Text × TokenState)
  checked_deploy engine tick max lim dec = do
    ticker ← normalize_tick tick
    fail_if (contains ticker engine.tokens) (already_exists ticker)
    max_supply ← parse_u128 max
    limit ← parse_u128 lim
    ok (
      ticker,
      record {
        ticker = ticker;
        max_supply = max_supply;
        minted_supply = 0;
        limit_per_mint = limit;
        decimals = elim dec [ none ↦ 8 | some d ↦ d ];
        balances = [];
      },
    )

  unfoldable pub apply_deploy : Krc20StateEngine → Text → Text → Text → Option ℕ → Outcome
  apply_deploy engine tick max lim dec =
      commit_deploy engine (checked_deploy engine tick max lim dec)

  -- The tests of a mint: its ticker, the token and the amount.
  unfoldable pub checked_mint :
      Krc20StateEngine → Text → Option Text → Result Krc20Error (Text × TokenState × ℕ)
  checked_mint engine tick amt = do
    ticker ← normalize_tick tick
    token ← ok_or (lookup ticker engine.tokens) (not_found ticker)
    amount ← mint_amount token amt
    fail_if (nat_beq amount 0) invalid_amount
    fail_if (ltb token.limit_per_mint amount) (mint_limit_exceeded amount token.limit_per_mint)
    let remaining = saturating_sub token.max_supply token.minted_supply
    fail_if (ltb remaining amount) (supply_cap_exceeded amount remaining)
    ok (ticker, token, amount)

  unfoldable pub apply_mint : Krc20StateEngine → Text → Text → Option Text → Outcome
  apply_mint engine sender tick amt = commit_mint engine sender (checked_mint engine tick amt)

  -- The tests of a transfer: its ticker, the token, the amount and the sender's balance.
  unfoldable pub checked_transfer :
      Krc20StateEngine → Text → Text → Text → Text → Result Krc20Error (Text × TokenState × ℕ × ℕ)
  checked_transfer engine sender tick amt to = do
    fail_if (is_empty to) invalid_address
    reject_cross_network sender to
    ticker ← normalize_tick tick
    amount ← parse_u128 amt
    fail_if (nat_beq amount 0) invalid_amount
    token ← ok_or (lookup ticker engine.tokens) (not_found ticker)
    let balance = or_zero (lookup sender token.balances)
    fail_if (ltb balance amount) (insufficient_balance sender amount balance)
    ok (ticker, token, amount, balance)

  unfoldable pub apply_transfer : Krc20StateEngine → Text → Text → Text → Text → Outcome
  apply_transfer engine sender tick amt to =
      commit_transfer engine sender to (checked_transfer engine sender tick amt to)

  -- `match envelope.op`
  unfoldable pub apply_op : Krc20StateEngine → Text → Krc20Operation → Outcome
  apply_op engine sender (deploy tick max lim dec) = apply_deploy engine tick max lim dec
  apply_op engine sender (mint tick amt) = apply_mint engine sender tick amt
  apply_op engine sender (transfer tick amt to) = apply_transfer engine sender tick amt to

  unfoldable pub apply_envelope :
      Krc20StateEngine → Text → Text → Result Text Krc20Envelope → Outcome
  apply_envelope engine tx_id sender (err e) = (err (parse e), engine)
  apply_envelope engine tx_id sender (ok envelope) =
      if not (envelope.p == text "krc-20")
      then (err invalid_protocol, engine)
      else record_txid tx_id (apply_op engine sender envelope.op)

  unfoldable pub get_balance : Krc20StateEngine → Text → Text → ℕ
  get_balance engine ticker address = elim (lookup (to_uppercase ticker) engine.tokens) [
    | none ↦ 0
    | some token ↦ or_zero (lookup address token.balances)
  ]

  unfoldable pub minted : Krc20StateEngine → Text → Option ℕ
  minted engine ticker =
      Option.map (λ token. token.minted_supply) (lookup (to_uppercase ticker) engine.tokens)

-- `apply`, for a case mapping and a JSON parser.
module _ (to_uppercase : Text → Text) (from_str : Text → Result Text Krc20Envelope) where
  unfoldable pub apply : Krc20StateEngine → Text → Text → Text → Outcome
  apply engine tx_id sender raw_script_json =
      if is_empty tx_id
      then (err missing_tx_id, engine)
      else if contains tx_id engine.seen_txids
      then (err (duplicate_tx tx_id), engine)
      else apply_envelope to_uppercase engine tx_id sender (from_str raw_script_json)
