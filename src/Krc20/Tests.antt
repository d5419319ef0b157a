-- ===== src/Krc20/Tests.antt =====
-- Runs of the engine on the payloads of its unit tests, and the theorems at concrete inputs.
use kaspa_frontier_engine.Base.{
  ℕ, ◌-◌, ◌≤◌, ◌≡◌, refl, true, none, some, List, [], ◌∷◌, map, arith, nat_beq, if◌then◌else◌,
  Result, ok, err, is_ok,
}
use kaspa_frontier_engine.Base.Eq.{nat_eq}
use kaspa_frontier_engine.Base.Text.{Text, text, text_eq, is_ascii_lowercase}
use kaspa_frontier_engine.Base.Text.{text_beq, len, to_ascii_lowercase, trim}
use kaspa_frontier_engine.Base.Map.{lookup, insert}
use kaspa_frontier_engine.Krc20.{
  invalid_address, duplicate_tx, Krc20Operation, deploy, mint, transfer, Krc20Envelope, TokenState,
  Krc20StateEngine, new, parse_u128, reject_cross_network, add_balance, put_token, mint_amount,
  write_mint, write_transfer, commit_deploy, commit_mint, commit_transfer, record_txid,
  normalize_tick, checked_deploy, apply_deploy, checked_mint, apply_mint, checked_transfer,
  apply_transfer, apply_op, apply_envelope, apply, get_balance,
}
use kaspa_frontier_engine.Krc20.Balances.{sum}
use kaspa_frontier_engine.Krc20.Inscription.{
  kasplex_tick, digits_only, kasplex_transfer_inscription,
}
use kaspa_frontier_engine.Krc20.Invariant.{IsSound, Applied}
use kaspa_frontier_engine.Krc20.Effects.{
  IsTransfer, IsMint, supply_of, apply_transfer-IsTransfer, apply_mint-IsMint,
}
use kaspa_frontier_engine.Krc20.Replay.{Call, apply-Applied, apply_all, replay_refused}

-- A case mapping and a parser that know what the runs below need.
abbrev ascii_upper : Text → Text
ascii_upper s = map (λ c. if is_ascii_lowercase c then c - 32 else c) s

abbrev krc : Krc20Operation → Result Text Krc20Envelope
krc op = ok (record { p = text "krc-20"; op = op })

abbrev parse_few : Text → Result Text Krc20Envelope
parse_few raw =
    if nat_beq (len raw) 1
    then krc (deploy (text "kusdt") (text "1000000") (text "1000") none)
    else if nat_beq (len raw) 2
    then krc (mint (text "KUSDT") (some (text " 1000 ")))
    else if nat_beq (len raw) 3
    then krc (transfer (text "KUSDT") (text "250") (text "kaspatest:bob"))
    else err (text "EOF")

abbrev alice : Text
alice = text "kaspatest:alice"

abbrev token : TokenState
token = record {
  ticker = text "KUSDT";
  max_supply = 1000000;
  minted_supply = 1000;
  limit_per_mint = 1000;
  decimals = 8;
  balances = (alice, 1000) ∷ [];
}

abbrev ledger : Krc20StateEngine
ledger = record {
  tokens = (text "KUSDT", token) ∷ [];
  seen_txids = (text "t1", tt) ∷ (text "t2", tt) ∷ [];
}

-- Everything that a run computes with.
everything : ℕ
unfolding apply apply_envelope apply_op apply_deploy apply_mint apply_transfer commit_deploy
    commit_mint commit_transfer checked_deploy checked_mint checked_transfer write_mint
    write_transfer add_balance put_token record_txid mint_amount normalize_tick parse_u128
    reject_cross_network text_beq len trim lookup insert get_balance sum kasplex_tick digits_only
    to_ascii_lowercase
everything = 0

deploy_then_mint :
    apply_all ascii_upper parse_few new (
      record { tx_id = text "t1"; sender = alice; raw = text "d" }
      ∷ record { tx_id = text "t2"; sender = alice; raw = text "mm" }
      ∷ [])
    ≡ ledger
unfolding everything apply_all
deploy_then_mint = refl

transfer_run :
    let e = (apply ascii_upper parse_few ledger (text "t3") alice (text "ttt")).1 in
    (get_balance ascii_upper e (text "kusdt") alice ≡ 750)
    × (get_balance ascii_upper e (text "KUSDT") (text "kaspatest:bob") ≡ 250)
unfolding everything
transfer_run = (refl, refl)

cross_network_refused :
    (apply_transfer ascii_upper ledger alice (text "KUSDT") (text "1") (text "kaspa:qq")).0
    ≡ err invalid_address
unfolding everything
cross_network_refused = refl

-- Only the prefix of the destination is tested: a space and a quote go into the inscription.
transfer_inscription_with_space :
    is_ok (kasplex_transfer_inscription (text "tmbmn") (text "1") (text "kaspatest:a \" b")) ≡ true
unfolding kasplex_transfer_inscription everything
transfer_inscription_with_space = refl

ledger-IsSound : IsSound ledger
unfolding sum
ledger-IsSound =
    (record { named = refl; summed = refl; capped = omega arith; bounded = omega arith }, tt)

apply-Applied_example :
    Applied ledger (apply ascii_upper parse_few ledger (text "t3") alice (text "ttt"))
apply-Applied_example =
    apply-Applied ascii_upper parse_few ledger (text "t3") alice (text "ttt") ledger-IsSound

abbrev calls : List Call
calls =
    record { tx_id = text "t3"; sender = alice; raw = text "ttt" }
    ∷ record { tx_id = text "t3"; sender = alice; raw = text "mm" }
    ∷ []

apply_transfer-IsTransfer_example :
    let (r, e) =
      apply_transfer ascii_upper ledger alice (text "kusdt") (text "250") (text "kaspatest:bob") in
    (r ≡ ok tt) × IsTransfer ledger e (text "KUSDT") alice (text "kaspatest:bob") 250
unfolding everything
apply_transfer-IsTransfer_example =
    apply_transfer-IsTransfer ascii_upper ledger ledger-IsSound alice (text "kusdt") (text "250")
      (text "kaspatest:bob") (text "KUSDT") token 250 1000 refl

apply_mint-IsMint_example :
    let (r, e) = apply_mint ascii_upper ledger alice (text "kusdt") none in
    (r ≡ ok tt)
    × IsMint ledger e (text "KUSDT") alice 1000
    × (1000 ≤ token.limit_per_mint)
    × (supply_of e (text "KUSDT") ≤ token.max_supply)
unfolding everything
apply_mint-IsMint_example =
    apply_mint-IsMint ascii_upper ledger ledger-IsSound alice (text "kusdt") none (text "KUSDT")
      token 1000 refl

replay_refused_example :
    let later =
      apply_all ascii_upper parse_few
        (apply ascii_upper parse_few ledger (text "t3") alice (text "ttt")).1
        calls in
    apply ascii_upper parse_few later (text "t3") alice (text "d")
    ≡ (err (duplicate_tx (text "t3")), later)
unfolding everything
replay_refused_example =
    replay_refused ascii_upper parse_few ledger
      (record { tx_id = text "t3"; sender = alice; raw = text "ttt" }) calls alice (text "d") refl
