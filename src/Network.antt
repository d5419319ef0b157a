-- ===== src/Network.antt =====
-- src/network.rs: the networks of addresses, and the checksum of a testnet address.
-- Shifts and masks of `u64` are divisions and remainders by powers of two.
pub mod Laws
mod Tests
use mathlib.Core.Option
use Prim.Native.Nat.{bit_xor, pred}
use kaspa_frontier_engine.Base.{
  ℕ, zero, suc, ◌+◌, ◌-◌, ◌*◌, ◌/◌, ◌%◌, ◌^◌, ◌≤◌, ◌<◌, max, min, ◌≡◌, refl, sym, ap, ◌∙◌, ◌≢◌, ◌↔◌,
  ◌⊎◌, inl, inr, Bool, true, false, not, ◌&&◌, ◌||◌, Option, none, some, List, [], ◌∷◌, ◌++◌, map,
  arith, ltb, leb, nat_beq, if◌then◌else◌, nat_beq_iff, Bool-cases, Option-cases, is_some,
  saturating_sub, checked_add, u64_bound, u128_bound, i64_bound, Result, ok, err, ◌>>=◌, ◌>>◌,
  fail_if, ok_or, to_i64, is_ok, Result-cases,
}
use kaspa_frontier_engine.Base.Lists.{
  length, all, retain, All, All-append, All-retain, All-imp, length-append,
}
use kaspa_frontier_engine.Base.Eq.{Eq, ◌==◌, nat_eq}
use kaspa_frontier_engine.Base.Text.{
  Text, text, text_beq_iff, text_eq, is_empty, is_ascii_digit, is_ascii_lowercase,
  is_ascii_uppercase, is_ascii_alphanumeric, is_ascii_hexdigit, lower, is_whitespace,
}
use kaspa_frontier_engine.Base.Text.{
  text_beq, len, to_ascii_lowercase, trim_start, trim, starts_with,
}
use kaspa_frontier_engine.Base.Map.{
  Map, Set, AllEntries, AllEntries-lookup, AllEntries-insert, AllEntries-update, AllEntries-erase,
  contains, lookup-empty, lookup-insert, lookup-erase, lookup-update, map_laws,
}
use kaspa_frontier_engine.Base.Map.{lookup, insert, erase, update}

pub data AddressNetwork : Type 0 where
  mainnet testnet other : AddressNetwork

abbrev pub address_prefix_testnet : Text
address_prefix_testnet = text "kaspatest:"

abbrev pub address_prefix_mainnet : Text
address_prefix_mainnet = text "kaspa:"

-- `DEFAULT_DEPOSIT_CONFIRMATIONS` and `COINBASE_MATURITY_DAA`
abbrev pub default_deposit_confirmations : ℕ
default_deposit_confirmations = 60

abbrev pub coinbase_maturity_daa : ℕ
coinbase_maturity_daa = 1000

unfoldable pub classify_address : Text → AddressNetwork
unfolding starts_with
classify_address addr =
    if starts_with addr address_prefix_testnet
    then testnet
    else if starts_with addr address_prefix_mainnet
    then mainnet
    else other

unfoldable pub is_testnet_address : Text → Bool
unfolding classify_address
is_testnet_address addr = elim (classify_address addr) [ testnet ↦ true | _ ↦ false ]

unfoldable pub is_mainnet_address : Text → Bool
unfolding classify_address
is_mainnet_address addr = elim (classify_address addr) [ mainnet ↦ true | _ ↦ false ]

-- `rsplit_once(':')`: the parts before and after the last colon. The split of the rest, if it has
-- one, is the later one.
rsplit_at : ℕ → Text → Option (Text × Text) → Option (Text × Text)
rsplit_at c s (some (p, q)) = some (c ∷ p, q)
rsplit_at c s none = if nat_beq c b':' then some ([], s) else none

rsplit_colon : Text → Option (Text × Text)
unfolding rsplit_at
rsplit_colon [] = none
rsplit_colon (c ∷ s) = rsplit_at c s (rsplit_colon s)

abbrev charset : Text
charset = text "qpzry9x8gf2tvdw0s3jn54khce6mua7l"

-- `CHARSET.iter().position(|candidate| *candidate == symbol)`
position : ℕ → List ℕ → Option ℕ
position x [] = none
position x (y ∷ ys) = if nat_beq y x then some 0 else Option.map suc (position x ys)

-- The symbols of the payload as numbers, or `none` at one outside the character set.
symbols : Text → Option (List ℕ)
unfolding position
symbols [] = some []
symbols (c ∷ s) = elim (position c charset) [
  | none ↦ none
  | some index ↦ Option.map (λ values. index ∷ values) (symbols s)
]

-- One round of the inner loop: generator `g` is mixed in if bit `index` of `top` is set.
mix : ℕ → ℕ → ℕ → ℕ → ℕ
mix top index g checksum = if nat_beq (top / 2 ^ index % 2) 0 then checksum else bit_xor checksum g

polymod_step : ℕ → ℕ → ℕ
unfolding mix
polymod_step checksum value =
    let top = checksum / 2 ^ 35 in
    mix top 4 0x1e4f43e470 (
      mix top 3 0xae2eabe2a8 (
        mix top 2 0xf33e5fb3c4 (
          mix top 1 0x79b76d99e2
            (mix top 0 0x98f2bc8e61 (bit_xor (checksum % 2 ^ 35 * 2 ^ 5) value)))))

polymod_from : ℕ → List ℕ → ℕ
unfolding polymod_step
polymod_from checksum [] = checksum
polymod_from checksum (value ∷ values) = polymod_from (polymod_step checksum value) values

cashaddr_polymod : List ℕ → ℕ
unfolding polymod_from
cashaddr_polymod values = bit_xor (polymod_from 1 values) 1

payload_valid : Text → Text → Bool
unfolding symbols cashaddr_polymod
payload_valid prefix payload = elim (symbols payload) [
  | none ↦ false
  | some values ↦ nat_beq (cashaddr_polymod (map (λ byte. byte % 32) prefix ++ 0 ∷ values)) 0
]

cashaddr_valid : Text → Text → Bool
unfolding rsplit_colon payload_valid to_ascii_lowercase len text_beq
cashaddr_valid addr expected_prefix =
    if not (addr == to_ascii_lowercase addr) then false else elim (rsplit_colon addr) [
      | none ↦ false
      | some (prefix, payload) ↦
          if not (prefix == expected_prefix) || leb (len payload) 8
          then false
          else payload_valid prefix payload
    ]

unfoldable pub is_valid_testnet_address : Text → Bool
unfolding cashaddr_valid
is_valid_testnet_address addr = cashaddr_valid addr (text "kaspatest")

pub data NetworkError : Type 0 where
  unsupported_testnet wrong_network : Text → NetworkError

-- `str::contains`
unfoldable pub contains_text : Text → Text → Bool
contains_text [] part = is_empty part
contains_text (c ∷ s) part = starts_with (c ∷ s) part || contains_text s part

abbrev pub is_tn10_network_name : Text → Bool
is_tn10_network_name name = name == text "kaspa-testnet-10" || name == text "testnet-10"

unfoldable pub is_unsupported_testnet_name : Text → Bool
is_unsupported_testnet_name name =
    let n = to_ascii_lowercase name in
    contains_text n (text "testnet-11")
    || contains_text n (text "testnet-12")
    || contains_text n (text "kaspa-testnet-11")
    || contains_text n (text "kaspa-testnet-12")

-- Accept only the public TN10.
unfoldable pub require_tn10 : Text → Result NetworkError (Unit {0})
require_tn10 name =
    if is_tn10_network_name name
    then ok tt
    else if is_unsupported_testnet_name name
    then err (unsupported_testnet name)
    else err (wrong_network name)
