-- ===== src/Deposits/Later.antt =====
-- What every call keeps of the ledger: the rows with their facts, and what was sent.
use kaspa_frontier_engine.Base.{
  ℕ, ◌^◌, ◌<◌, ◌≡◌, refl, sym, ap, subst, ◌∙◌, ◌≢◌, inl, inr, true, none, some, arith, Bool-cases,
  Option-cases, ok,
}
use kaspa_frontier_engine.Base.Eq.{nat_eq}
use kaspa_frontier_engine.Base.Text.{Text, text, text_eq}
use kaspa_frontier_engine.Base.Map.{Map, AllEntries-lookup, contains, lookup-insert, lookup-update}
use kaspa_frontier_engine.Base.Map.{lookup, insert, update}
use kaspa_frontier_engine.Outpoint.{Outpoint, outpoint_eq, outpoint_beq, outpoint_beq_iff}
use kaspa_frontier_engine.Exchange.{UtxoAppearance}
use kaspa_frontier_engine.Outbox.{OutboxRow, Outbox}
use kaspa_frontier_engine.Deposits.{
  DepositState, pending, credited, reversed, DepositRow, DepositLedger, next_id, new_event,
  insert_outbox, first_row, seen_again, appearance_key, observe_one, credit_row, is_pending,
  credit_at, reverse_row, reverse_at, disappear_at, disappear_one,
}
use kaspa_frontier_engine.Deposits.Sent.{Facts, sent, sent-insert_outbox, below_next}
use kaspa_frontier_engine.Deposits.Rows.{
  facts, credit_of, credit_of-credit, credit_of-reverse, observe_one-ok,
}
use kaspa_frontier_engine.Deposits.Invariant.{is_pending-state}

abbrev pub Moves : DepositState → DepositState → Type 0
Moves pending state = Unit
Moves credited state = state ≢ pending
Moves reversed state = state ≡ reversed

-- What a row keeps.
pub record Succeeds (before after : DepositRow) : Type 0 where
  pub same_facts : facts after ≡ facts before
  pub same_block :
      (after.block_daa_score ≡ before.block_daa_score)
      × (after.is_coinbase ≡ before.is_coinbase)
      × (after.first_seen_daa ≡ before.first_seen_daa)
  pub moves : Moves before.state after.state

Moves-refl : (a : DepositState) → Moves a a
Moves-refl pending = tt
Moves-refl credited = λ same. ground (arith, same)
Moves-refl reversed = refl

Moves-trans : (a b c : DepositState) → Moves a b → Moves b c → Moves a c
Moves-trans pending b c h k = tt
Moves-trans credited pending c h k = absurd (h refl)
Moves-trans credited credited c h k = k
Moves-trans credited reversed c h k = λ same. ground (arith, k, same)
Moves-trans reversed b c h k = let k' : Moves reversed c = subst (λ s. Moves s c) h k in k'

Succeeds-refl : (row : DepositRow) → Succeeds row row
Succeeds-refl row = record {
  same_facts = refl;
  same_block = (refl, refl, refl);
  moves = Moves-refl row.state;
}

pub Succeeds-trans : (a b c : DepositRow) → Succeeds a b → Succeeds b c → Succeeds a c
Succeeds-trans a b c h k =
    let (h1, h2, h3) = h.same_block in
    let (k1, k2, k3) = k.same_block in
    record {
      same_facts = k.same_facts ∙ h.same_facts;
      same_block = (k1 ∙ h1, k2 ∙ h2, k3 ∙ h3);
      moves = Moves-trans a.state b.state c.state h.moves k.moves;
    }

-- The table afterwards: every row is there, and keeps what it has to.
abbrev pub Extends : Map Outpoint DepositRow → Map Outpoint DepositRow → Type 0
Extends before after =
    (j : Outpoint) (row : DepositRow)
    → lookup j before ≡ some row
    → (row' : DepositRow) × (lookup j after ≡ some row') × Succeeds row row'

abbrev pub Tells : Outbox → Outbox → Type 0
Tells before after = (j : Text) (f : Facts) → sent j before ≡ some f → sent j after ≡ some f

-- No credit is sent for a deposit that is reversed.
abbrev pub Silent : DepositLedger → DepositLedger → Type 0
Silent before after =
    (j : Outpoint) (row : DepositRow)
    → j.output_index < 2 ^ 32
    → lookup j before.deposits ≡ some row
    → row.state ≡ reversed
    → credit_of j after.outbox ≡ credit_of j before.outbox

-- The rows of the acknowledged events stay as they are.
abbrev pub Frozen : Outbox → Outbox → Type 0
Frozen before after =
    (id : ℕ) (row : OutboxRow)
    → lookup id before ≡ some row
    → row.acknowledged ≡ true
    → lookup id after ≡ some row

-- What a call keeps, and so a run.
pub record Later (before after : DepositLedger) : Type 0 where
  pub extends : Extends before.deposits after.deposits
  pub tells : Tells before.outbox after.outbox
  pub silent : Silent before after
  pub frozen : Frozen before.outbox after.outbox

pub Later-refl : (a : DepositLedger) → Later a a
Later-refl a = record {
  extends = λ j row found. (row, found, Succeeds-refl row);
  tells = λ j f h. h;
  silent = λ j row hj found state. refl;
  frozen = λ id row found done. found;
}

pub Later-trans : (a b c : DepositLedger) → Later a b → Later b c → Later a c
Later-trans a b c h k = record {
  extends = λ j row found.
      let (row', found', s) = h.extends j row found in
      let (row'', found'', s') = k.extends j row' found' in
      (row'', found'', Succeeds-trans row row' row'' s s');
  tells = λ j f sent. k.tells j f (h.tells j f sent);
  silent = λ j row hj found state.
      let (row', found', s) = h.extends j row found in
      let moved : Moves reversed row'.state = subst (λ x. Moves x row'.state) state s.moves in
      k.silent j row' hj found' moved ∙ h.silent j row hj found state;
  frozen = λ id row found done. k.frozen id row (h.frozen id row found done) done;
}

reverse-Moves : (state : DepositState) → Moves state reversed
reverse-Moves pending = tt
reverse-Moves credited = λ same. ground (arith, same)
reverse-Moves reversed = refl

pub some_inj : (a b : DepositRow) → some a ≡ some b → a ≡ b
some_inj a b h = cc

pub Extends-update :
    (key : Outpoint) (change : DepositRow → DepositRow) (deposits : Map Outpoint DepositRow)
    → ((row : DepositRow) → lookup key deposits ≡ some row → Succeeds row (change row))
    → Extends deposits (update key change deposits)
Extends-update key change deposits kept j row found = elim (Bool-cases (outpoint_beq j key)) [
  | inl same ↦ (
    change row,
    rw (lookup-update j key change deposits, same, found),
    kept row (subst (λ k. lookup k deposits ≡ some row) ((outpoint_beq_iff j key).0 same) found),
  )
  | inr differ ↦ (row, rw (lookup-update j key change deposits, differ) found, Succeeds-refl row)
]

Extends-insert :
    (key : Outpoint) (new : DepositRow) (deposits : Map Outpoint DepositRow)
    → lookup key deposits ≡ none
    → Extends deposits (insert key new deposits)
Extends-insert key new deposits missing j row found = elim (Bool-cases (outpoint_beq j key)) [
  | inl same ↦
      let there =
        subst (λ k. lookup k deposits ≡ some row) ((outpoint_beq_iff j key).0 same) found in
      absurd (ground (arith, missing, there))
  | inr differ ↦ (row, rw (lookup-insert j key new deposits, differ) found, Succeeds-refl row)
]

Tells-insert_outbox :
    (kind : Text) (key : Outpoint) (amount : ℕ) (address : Text) (outbox : Outbox)
    → Tells outbox (insert_outbox kind key amount address outbox)
Tells-insert_outbox kind key amount address outbox j f h =
    ground (arith, h, sent-insert_outbox j kind key amount address outbox)

Frozen-insert_outbox :
    (kind : Text) (key : Outpoint) (amount : ℕ) (address : Text) (outbox : Outbox)
    → Frozen outbox (insert_outbox kind key amount address outbox)
unfolding insert_outbox
Frozen-insert_outbox kind key amount address outbox id row found done =
    let below = AllEntries-lookup (λ i r. i < next_id outbox) id outbox (below_next outbox) found in
    ground (
      arith,
      found,
      below,
      lookup-insert id (next_id outbox) (new_event kind key amount address) outbox,
    )

pub seen-Succeeds : (daa : ℕ) (row : DepositRow) → Succeeds row (seen_again daa row)
seen-Succeeds daa row = record {
  same_facts = refl;
  same_block = (refl, refl, refl);
  moves = Moves-refl row.state;
}

credit-Succeeds :
    (daa : ℕ) (row : DepositRow) → row.state ≡ pending → Succeeds row (credit_row daa row)
credit-Succeeds daa row state = record {
  same_facts = refl;
  same_block = (refl, refl, refl);
  moves = subst (λ s. Moves s credited) (sym state) tt;
}

reverse-Succeeds :
    (daa : ℕ) (reason : Text) (row : DepositRow) → Succeeds row (reverse_row daa reason row)
reverse-Succeeds daa reason row = record {
  same_facts = refl;
  same_block = (refl, refl, refl);
  moves = reverse-Moves row.state;
}

pub observe_one-Later :
    (daa : ℕ) (ledger : DepositLedger) (item : UtxoAppearance) (ledger' : DepositLedger)
    → observe_one daa ledger item ≡ ok ledger'
    → Later ledger ledger'
observe_one-Later daa ledger item ledger' done =
    elim (observe_one-ok daa ledger item ledger' done) [
      | inl (row, found, same, new) ↦ subst (Later ledger) (sym new) (record {
        extends =
            Extends-update (appearance_key item) (seen_again daa) ledger.deposits
              (λ r f. seen-Succeeds daa r);
        tells = λ j f h. h;
        silent = λ j r hj f state. refl;
        frozen = λ id r f done. f;
      })
      | inr (missing, new) ↦ subst (Later ledger) (sym new) (record {
        extends =
            Extends-insert (appearance_key item)
              (first_row daa (contains (appearance_key item) ledger.legacy_credits) item)
              ledger.deposits missing;
        tells = λ j f h. h;
        silent = λ j r hj f state. refl;
        frozen = λ id r f done. f;
      })
    ]

pub credit_at-Later :
    (daa : ℕ) (ledger : DepositLedger) (key : Outpoint) (row : DepositRow)
    → key.output_index < 2 ^ 32
    → lookup key ledger.deposits ≡ some row
    → Later ledger (credit_at daa ledger key row)
unfolding credit_at
credit_at-Later daa ledger key row hk found = elim (Bool-cases (is_pending row.state)) [
  | inl waits ↦
      let state = is_pending-state row.state waits in
      rw waits (record {
        extends = Extends-update key (credit_row daa) ledger.deposits (λ r f.
            credit-Succeeds daa r (
              subst (λ x. x ≡ pending) (ap (λ x. x.state) (some_inj row r (sym found ∙ f))) state));
        tells = Tells-insert_outbox (text "credit") key row.amount_sompi row.address ledger.outbox;
        silent = λ j r hj f over. elim (Bool-cases (outpoint_beq j key)) [
          | inl same ↦
              let there =
                subst (λ k. lookup k ledger.deposits ≡ some r) ((outpoint_beq_iff j key).0 same)
                  f in
              let one = ap (λ x. x.state) (some_inj row r (sym found ∙ there)) in
              absurd (ground (arith, one, state, over))
          | inr differ ↦
              rw (credit_of-credit j key hj hk row.amount_sompi row.address ledger.outbox, differ)
        ];
        frozen =
            Frozen-insert_outbox (text "credit") key row.amount_sompi row.address ledger.outbox;
      })
  | inr done ↦ rw done (Later-refl ledger)
]

pub reverse_at-Later :
    (daa : ℕ) (reason : Text) (ledger : DepositLedger) (key : Outpoint) (row : DepositRow)
    → key.output_index < 2 ^ 32
    → Later ledger (reverse_at daa reason ledger key row)
unfolding reverse_at
reverse_at-Later daa reason ledger key row hk = record {
  extends =
      Extends-update key (reverse_row daa reason) ledger.deposits
        (λ r f. reverse-Succeeds daa reason r);
  tells = Tells-insert_outbox (text "reverse") key row.amount_sompi row.address ledger.outbox;
  silent =
      λ j r hj f over. credit_of-reverse j key hj hk row.amount_sompi row.address ledger.outbox;
  frozen = Frozen-insert_outbox (text "reverse") key row.amount_sompi row.address ledger.outbox;
}

pub disappear_one-Later :
    (daa : ℕ) (ledger : DepositLedger) (key : Outpoint)
    → key.output_index < 2 ^ 32
    → Later ledger (disappear_one daa ledger key)
unfolding disappear_one disappear_at
disappear_one-Later daa ledger key hk = elim (Option-cases (lookup key ledger.deposits)) [
  | inl missing ↦ rw missing (Later-refl ledger)
  | inr (row, found) ↦ elim (Bool-cases (is_pending row.state)) [
    | inl waits ↦
        rw (found, waits)
          (reverse_at-Later daa (text "disappeared before confirmation") ledger key row hk)
    | inr done ↦ rw (found, done) (Later-refl ledger)
  ]
]
