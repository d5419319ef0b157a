-- ===== src/Krc20/Replay.antt =====
-- Whole calls of `apply`: the invariant, atomicity, and the refusal of replays.
use kaspa_frontier_engine.Base.{
  ℕ, ◌≡◌, refl, ap, ◌⊎◌, inl, inr, true, false, List, [], ◌∷◌, arith, Bool-cases, Result, ok, err,
  Result-cases,
}
use kaspa_frontier_engine.Base.Eq.{◌==◌, nat_eq}
use kaspa_frontier_engine.Base.Text.{Text, text, text_beq_iff, text_eq, is_empty}
use kaspa_frontier_engine.Base.Map.{contains, lookup-insert}
use kaspa_frontier_engine.Krc20.{
  Krc20Error, invalid_protocol, missing_tx_id, duplicate_tx, parse, Krc20Operation, deploy, mint,
  transfer, Krc20Envelope, TokenState, Krc20StateEngine, Outcome, put_token, write_mint,
  write_transfer, commit_deploy, commit_mint, commit_transfer, record_txid, apply_deploy,
  apply_mint, apply_transfer, apply_op, apply_envelope, apply,
}
use kaspa_frontier_engine.Krc20.Invariant.{IsSound, Applied}
use kaspa_frontier_engine.Krc20.Apply.{apply_op-Applied}

-- One call: the txid, the sender and the payload.
pub record Call : Type 0 where
  pub tx_id : Text
  pub sender : Text
  pub raw : Text

record_txid-Applied :
    (engine : Krc20StateEngine) (tx_id : Text) (o : Outcome)
    → Applied engine o
    → Applied engine (record_txid tx_id o)
unfolding record_txid
record_txid-Applied engine tx_id (ok _, engine') h = h
record_txid-Applied engine tx_id (err x, engine') h = h

recorded-record_txid :
    (tx_id : Text) (o : Outcome)
    → (record_txid tx_id o).0 ≡ ok tt
    → contains tx_id (record_txid tx_id o).1.seen_txids ≡ true
unfolding record_txid
recorded-record_txid tx_id (err x, engine) h = cc
recorded-record_txid tx_id (ok _, engine) h =
    ground (arith, lookup-insert tx_id tx_id tt engine.seen_txids, text_beq_iff tx_id tx_id)

module _ (to_uppercase : Text → Text) (from_str : Text → Result Text Krc20Envelope) where
  -- How a call goes: it is refused before any write, or an operation runs and its success is
  -- recorded.
  apply_cases :
      (engine : Krc20StateEngine) (tx_id sender raw : Text)
      → ((x : Krc20Error) × (apply to_uppercase from_str engine tx_id sender raw ≡ (err x, engine)))
        ⊎ ((op : Krc20Operation) × (is_empty tx_id ≡ false)
            × (apply to_uppercase from_str engine tx_id sender raw
                ≡ record_txid tx_id (apply_op to_uppercase engine sender op)))
  unfolding apply apply_envelope
  apply_cases engine tx_id sender raw = elim (Bool-cases (is_empty tx_id)) [
    | inl missing ↦ inl (missing_tx_id, rw missing)
    | inr given ↦ elim (Bool-cases (contains tx_id engine.seen_txids)) [
      | inl seen ↦ inl (duplicate_tx tx_id, rw (given, seen))
      | inr fresh ↦ elim (Result-cases (from_str raw)) [
        | inr (x, e) ↦ inl (parse x, rw (given, fresh, e, apply_envelope))
        | inl (env, e) ↦ elim (Bool-cases (env.p == text "krc-20")) [
          | inl same ↦ inr (env.op, given, rw (given, fresh, e, apply_envelope, same))
          | inr differ ↦ inl (invalid_protocol, rw (given, fresh, e, apply_envelope, differ))
        ]
      ]
    ]
  ]

  -- A call on a sound engine goes through and leaves a sound engine, or fails and changes nothing,
  -- for every case mapping and every JSON parser.
  pub apply-Applied :
      (engine : Krc20StateEngine) (tx_id sender raw : Text)
      → IsSound engine
      → Applied engine (apply to_uppercase from_str engine tx_id sender raw)
  apply-Applied engine tx_id sender raw h = elim (apply_cases engine tx_id sender raw) [
    | inl (x, refused) ↦ rw refused
    | inr (op, _, ran) ↦
        rw ran
          (record_txid-Applied engine tx_id _ (apply_op-Applied to_uppercase engine h sender op))
  ]

  -- The engine after a sequence of calls; a failed one is dropped by the caller.
  unfoldable pub apply_all : Krc20StateEngine → List Call → Krc20StateEngine
  apply_all engine [] = engine
  apply_all engine (c ∷ calls) =
      apply_all (apply to_uppercase from_str engine c.tx_id c.sender c.raw).1 calls

  Applied-IsSound :
      (engine : Krc20StateEngine) (o : Outcome) → IsSound engine → Applied engine o → IsSound o.1
  Applied-IsSound engine (ok _, engine') h a = a
  Applied-IsSound engine (err _, engine') h a = rw a h

  -- From a sound engine, after any sequence of calls, failed ones included, the engine is sound.
  pub apply_all-IsSound :
      (engine : Krc20StateEngine) (calls : List Call)
      → IsSound engine
      → IsSound (apply_all engine calls)
  unfolding apply_all
  apply_all-IsSound engine [] h = h
  apply_all-IsSound engine (c ∷ calls) h =
      apply_all-IsSound (apply to_uppercase from_str engine c.tx_id c.sender c.raw).1 calls
        (Applied-IsSound engine _ h (apply-Applied engine c.tx_id c.sender c.raw h))

  -- The operations leave the recorded txids alone.
  seen-commit_mint :
      (engine : Krc20StateEngine) (sender : Text) (r : Result Krc20Error (Text × TokenState × ℕ))
      → (commit_mint engine sender r).1.seen_txids ≡ engine.seen_txids
  unfolding commit_mint write_mint put_token
  seen-commit_mint engine sender (err x) = refl
  seen-commit_mint engine sender (ok (ticker, token, amount)) = ground arith

  seen-commit_deploy :
      (engine : Krc20StateEngine) (r : Result Krc20Error (Text × TokenState))
      → (commit_deploy engine r).1.seen_txids ≡ engine.seen_txids
  unfolding commit_deploy put_token
  seen-commit_deploy engine (err x) = refl
  seen-commit_deploy engine (ok (ticker, token)) = refl

  seen-commit_transfer :
      (engine : Krc20StateEngine) (sender to : Text)
      (r : Result Krc20Error (Text × TokenState × ℕ × ℕ))
      → (commit_transfer engine sender to r).1.seen_txids ≡ engine.seen_txids
  unfolding commit_transfer write_transfer put_token
  seen-commit_transfer engine sender to (err x) = refl
  seen-commit_transfer engine sender to (ok (ticker, token, amount, balance)) = refl

  seen-apply_op :
      (engine : Krc20StateEngine) (sender : Text) (op : Krc20Operation)
      → (apply_op to_uppercase engine sender op).1.seen_txids ≡ engine.seen_txids
  unfolding apply_op apply_deploy apply_mint apply_transfer
  seen-apply_op engine sender (deploy tick cap lim dec) = seen-commit_deploy engine _
  seen-apply_op engine sender (mint tick amt) = seen-commit_mint engine sender _
  seen-apply_op engine sender (transfer tick amt to) = seen-commit_transfer engine sender to _

  seen-record_txid :
      (engine : Krc20StateEngine) (tx_id t : Text) (o : Outcome)
      → o.1.seen_txids ≡ engine.seen_txids
      → contains t engine.seen_txids ≡ true
      → contains t (record_txid tx_id o).1.seen_txids ≡ true
  unfolding record_txid
  seen-record_txid engine tx_id t (err x, engine') same h = rw same h
  seen-record_txid engine tx_id t (ok _, engine') same h =
      ground (arith, lookup-insert t tx_id tt engine'.seen_txids)

  -- A txid once recorded stays recorded.
  seen-apply :
      (engine : Krc20StateEngine) (c : Call) (t : Text)
      → contains t engine.seen_txids ≡ true
      → contains t (apply to_uppercase from_str engine c.tx_id c.sender c.raw).1.seen_txids ≡ true
  seen-apply engine c t h = elim (apply_cases engine c.tx_id c.sender c.raw) [
    | inl (x, refused) ↦ rw refused h
    | inr (op, _, ran) ↦
        rw ran (seen-record_txid engine c.tx_id t _ (seen-apply_op engine c.sender op) h)
  ]

  -- A call that goes through has a txid, which it records.
  recorded-apply :
      (engine : Krc20StateEngine) (c : Call)
      → (apply to_uppercase from_str engine c.tx_id c.sender c.raw).0 ≡ ok tt
      → (is_empty c.tx_id ≡ false)
        × (contains c.tx_id (apply to_uppercase from_str engine c.tx_id c.sender c.raw).1.seen_txids
            ≡ true)
  recorded-apply engine c h = elim (apply_cases engine c.tx_id c.sender c.raw) [
    | inl (x, refused) ↦ absurd (cc (ap (λ (o : Outcome). o.0) refused))
    | inr (op, given, ran) ↦ (given, rw ran (recorded-record_txid c.tx_id _ (rw ran at h)))
  ]

  seen-apply_all :
      (engine : Krc20StateEngine) (calls : List Call) (t : Text)
      → contains t engine.seen_txids ≡ true
      → contains t (apply_all engine calls).seen_txids ≡ true
  unfolding apply_all
  seen-apply_all engine [] t h = h
  seen-apply_all engine (c ∷ calls) t h =
      seen-apply_all (apply to_uppercase from_str engine c.tx_id c.sender c.raw).1 calls t
        (seen-apply engine c t h)

  -- Once a call with a txid has gone through, every later call with that txid is refused as a
  -- duplicate and changes nothing, whatever was called in between.
  pub replay_refused :
      (engine : Krc20StateEngine) (c : Call) (between : List Call) (sender raw : Text)
      → (apply to_uppercase from_str engine c.tx_id c.sender c.raw).0 ≡ ok tt
      → let later =
          apply_all (apply to_uppercase from_str engine c.tx_id c.sender c.raw).1 between in
        apply to_uppercase from_str later c.tx_id sender raw ≡ (err (duplicate_tx c.tx_id), later)
  unfolding apply
  replay_refused engine c between sender raw h =
      let facts = recorded-apply engine c h in
      let later = apply_all (apply to_uppercase from_str engine c.tx_id c.sender c.raw).1 between in
      ground (
        arith,
        facts,
        seen-apply_all (apply to_uppercase from_str engine c.tx_id c.sender c.raw).1 between c.tx_id
            facts.1,
      )
