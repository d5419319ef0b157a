-- ===== src/Watch/Credits.antt =====
-- No outpoint is credited twice: the credits of any sequence of ticks are distinct, and none was
-- imported as credited before.
use kaspa_frontier_engine.Base.{ℕ, ◌≡◌, refl, ap, false, List, [], ◌∷◌, ◌++◌, arith}
use kaspa_frontier_engine.Base.Lists.{All}
use kaspa_frontier_engine.Base.Eq.{nat_eq}
use kaspa_frontier_engine.Base.Text.{text_eq}
use kaspa_frontier_engine.Base.Map.{Set, contains, lookup-insert}
use kaspa_frontier_engine.Base.Map.{insert}
use kaspa_frontier_engine.Outpoint.{Outpoint, outpoint_eq, outpoint_beq_iff}
use kaspa_frontier_engine.Exchange.{ConfirmedDeposit, confirmed_key}
use kaspa_frontier_engine.Exchange.Tracker.{has_key}
use kaspa_frontier_engine.Watch.{AddressUtxo, DepositWatch, collect, credit, candidates, apply}

-- One poll: the DAA score and the snapshot.
pub record Poll : Type 0 where
  pub virtual_daa : ℕ
  pub utxos : List AddressUtxo

-- The deposits that a sequence of polls reports as confirmed, in order, and the watcher after it.
unfoldable pub apply_all : DepositWatch → List Poll → List ConfirmedDeposit × DepositWatch
apply_all watch [] = ([], watch)
apply_all watch (p ∷ polls) =
    let (tick, watch') = apply watch p.virtual_daa p.utxos in
    let (later, watch'') = apply_all watch' polls in (tick.confirmed ++ later, watch'')

-- No two of the deposits have the same key.
abbrev pub DistinctKeys : List ConfirmedDeposit → Type 0
DistinctKeys [] = Unit
DistinctKeys (c ∷ cs) = (has_key (confirmed_key c) cs ≡ false) × DistinctKeys cs

abbrev pub AreFresh : Set Outpoint → List ConfirmedDeposit → Type 0
AreFresh credited cs = All (λ c. contains (confirmed_key c) credited ≡ false) cs

-- Crediting in two steps is crediting once.
credit-append :
    (s : Set Outpoint) (xs ys : List ConfirmedDeposit)
    → credit s (xs ++ ys)
      ≡ ((credit s xs).0 ++ (credit (credit s xs).1 ys).0, (credit (credit s xs).1 ys).1)
unfolding credit
credit-append s [] ys = refl
credit-append s (c ∷ xs) ys = ground (arith, credit-append (insert (confirmed_key c) tt s) xs ys)

-- What was not in a larger set was not in a smaller one.
fresh_of_insert :
    (s : Set Outpoint) (k : Outpoint) (cs : List ConfirmedDeposit)
    → AreFresh (insert k tt s) cs
    → AreFresh s cs × (has_key k cs ≡ false)
fresh_of_insert s k [] h = (tt, refl)
fresh_of_insert s k (c ∷ cs) h = ground (
  arith,
  fresh_of_insert s k cs h.1,
  lookup-insert (confirmed_key c) k tt s,
  outpoint_beq_iff k (confirmed_key c),
  outpoint_beq_iff (confirmed_key c) k,
)

credit-fresh : (s : Set Outpoint) (cs : List ConfirmedDeposit) → AreFresh s (credit s cs).0
unfolding credit
credit-fresh s [] = tt
credit-fresh s (c ∷ cs) = ground (
  arith,
  fresh_of_insert s (confirmed_key c) (credit (insert (confirmed_key c) tt s) cs).0
      (credit-fresh (insert (confirmed_key c) tt s) cs),
)

credit-DistinctKeys : (s : Set Outpoint) (cs : List ConfirmedDeposit) → DistinctKeys (credit s cs).0
unfolding credit
credit-DistinctKeys s [] = tt
credit-DistinctKeys s (c ∷ cs) = ground (
  arith,
  credit-DistinctKeys (insert (confirmed_key c) tt s) cs,
  fresh_of_insert s (confirmed_key c) (credit (insert (confirmed_key c) tt s) cs).0
      (credit-fresh (insert (confirmed_key c) tt s) cs),
)

-- All candidates of a sequence of polls.
all_candidates : DepositWatch → List Poll → List ConfirmedDeposit
all_candidates watch [] = []
all_candidates watch (p ∷ polls) =
    (candidates watch p.virtual_daa (collect [] p.utxos)).0
    ++ all_candidates (apply watch p.virtual_daa p.utxos).1 polls

apply_all-credit :
    (watch : DepositWatch) (polls : List Poll)
    → (apply_all watch polls).0 ≡ (credit watch.credited (all_candidates watch polls)).0
unfolding apply_all all_candidates apply credit
apply_all-credit watch [] = refl
apply_all-credit watch (p ∷ polls) =
    let watch' = (apply watch p.virtual_daa p.utxos).1 in
    let found = (candidates watch p.virtual_daa (collect [] p.utxos)).0 in
    rw (credit-append watch.credited found (all_candidates watch' polls))
      (ap (λ t. (credit watch.credited found).0 ++ t) (apply_all-credit watch' polls))

-- Over any sequence of polls, from any watcher, no outpoint is reported as confirmed twice, and
-- none that was credited before, so a restart that imports its credits pays nothing twice.
pub credited_once :
    (watch : DepositWatch) (polls : List Poll)
    → DistinctKeys (apply_all watch polls).0 × AreFresh watch.credited (apply_all watch polls).0
credited_once watch polls = rw (apply_all-credit watch polls) (
  credit-DistinctKeys watch.credited (all_candidates watch polls),
  credit-fresh watch.credited (all_candidates watch polls),
)
