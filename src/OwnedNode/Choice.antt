-- ===== src/OwnedNode/Choice.antt =====
-- The choice among the nodes of a pool.
use kaspa_frontier_engine.Base.{
  ℕ, ◌+◌, ◌%◌, ◌≤◌, ◌<◌, ◌≡◌, refl, sym, ap, subst, ◌≢◌, ◌⊎◌, inl, inr, true, false, some, List, [],
  ◌∷◌, arith, ltb, if◌then◌else◌, Bool-cases, ok,
}
use kaspa_frontier_engine.Base.Lists.{All, All-imp}
use kaspa_frontier_engine.Base.Eq.{nat_eq}
use kaspa_frontier_engine.Base.Text.{text_eq}
use native.Mathlib.Nat.{mod-lt, mod-eq_of_lt, mod_self}
use mathlib.Core.List.{Memᴰ}
use mathlib.Core.List.Memᴰ.{head, tail}
use kaspa_frontier_engine.OwnedNode.{
  OwnedNodeAssessment, Candidate, comes_before, least, select_primary, next_failover_index,
  choose_failover_index,
}

-- No candidate of the list comes before the chosen one.
abbrev pub IsLeast : Candidate → List Candidate → Type 0
IsLeast c cs = All (λ d. comes_before d c ≡ false) cs

-- The order is total: what comes before is not preceded, and not to be preceded is transitive.
comes_before_asym : (a b : Candidate) → comes_before a b ≡ true → comes_before b a ≡ false
comes_before_asym a b h = ground arith

comes_before_trans :
    (a b c : Candidate)
    → comes_before b a ≡ false
    → comes_before c b ≡ false
    → comes_before c a ≡ false
comes_before_trans a b c h k = ground arith

least-IsLeast : (best : Candidate) (cs : List Candidate) → IsLeast (least best cs) (best ∷ cs)
unfolding least
least-IsLeast best [] = (ground arith, tt)
least-IsLeast best (c ∷ cs) = elim (Bool-cases (comes_before c best)) [
  | inl first ↦
      subst (λ m. IsLeast m (best ∷ c ∷ cs))
        (sym (ap (λ b. least (if b then c else best) cs) first))
        (let (not_c, others) = least-IsLeast c cs in
          (
            comes_before_trans (least c cs) c best not_c (comes_before_asym c best first),
            (not_c, others),
          ))
  | inr later ↦
      subst (λ m. IsLeast m (best ∷ c ∷ cs))
        (sym (ap (λ b. least (if b then c else best) cs) later))
        (let (not_best, others) = least-IsLeast best cs in
          (not_best, (comes_before_trans (least best cs) best c not_best later, others)))
]

pub least-Mem : (best : Candidate) (cs : List Candidate) → Memᴰ (least best cs) (best ∷ cs)
unfolding least
least-Mem best [] = head refl
least-Mem best (c ∷ cs) = elim (Bool-cases (comes_before c best)) [
  | inl first ↦ rw first (tail (least-Mem c cs))
  | inr later ↦
      rw later (elim (least-Mem best cs) [ head same ↦ head same | tail among ↦ tail (tail among) ])
]

-- The chosen index is that of a candidate, and no candidate has a smaller lag, or the same lag and a
-- smaller index.
pub select_primary_lem :
    (cs : List Candidate) (i : ℕ)
    → select_primary cs ≡ some i
    → (a : OwnedNodeAssessment) × Memᴰ (i, a) cs × IsLeast (i, a) cs
unfolding select_primary
select_primary_lem [] i h = absurd (ground arith)
select_primary_lem (c ∷ cs) i h =
    let same : (least c cs).0 ≡ i = ground arith in
    (
      (least c cs).1,
      subst (λ j. Memᴰ (j, (least c cs).1) (c ∷ cs)) same (least-Mem c cs),
      subst (λ j. IsLeast (j, (least c cs).1) (c ∷ cs)) same (least-IsLeast c cs),
    )

-- The candidates' indices lie in the pool.
abbrev pub InPool : ℕ → List Candidate → Type 0
InPool count cs = All (λ c. c.0 < count) cs

pub All-Memᴰ :
    (P : Candidate → Type 0) (c : Candidate) (cs : List Candidate) → All P cs → Memᴰ c cs → P c
All-Memᴰ P c [] none_there m = elim m [ ]
All-Memᴰ P c (d ∷ cs) (p, ps) (head e) = subst P (sym e) p
All-Memᴰ P c (d ∷ cs) (p, ps) (tail m) = All-Memᴰ P c cs ps m

-- The next index is one of the pool, and another one if the pool has more than one node.
next_failover_index_lem :
    (failed count : ℕ)
    → failed < count
    → (i : ℕ) × (next_failover_index failed count ≡ ok i) × (i < count) × (1 < count → i ≢ failed)
unfolding next_failover_index
next_failover_index_lem failed count inside = (
  (failed + 1) % count,
  ground arith,
  mod-lt (failed + 1) (omega arith),
  λ many. elim (Bool-cases (ltb (failed + 1) count)) [
    | inl before ↦ ground (arith, mod-eq_of_lt {n = failed + 1} {m = count} (ground arith))
    | inr last ↦
        let same : failed + 1 ≡ count = ground arith in rw same (ground (arith, mod_self count))
  ],
)

-- A smallest lag, and at that lag the smallest index.
abbrev pub IsBest : Candidate → List Candidate → Type 0
IsBest c cs =
    All
      (λ d.
        (c.1.behind_public_daa < d.1.behind_public_daa)
        ⊎ ((c.1.behind_public_daa ≡ d.1.behind_public_daa) × (c.0 ≤ d.0)))
      cs

IsLeast-IsBest : (c : Candidate) (cs : List Candidate) → IsLeast c cs → IsBest c cs
IsLeast-IsBest c cs h = All-imp (λ d. comes_before d c ≡ false) _ (λ d k. ground (arith, k)) cs h

-- For a failed node and candidates of the pool the failover always finds an index of the pool. If there are candidates, it
-- is the index of one whose lag is the smallest, and of those with that lag the smallest index, the
-- failed node among them if it is a candidate; otherwise it is not the failed node's if the pool has
-- two or more.
pub choose_failover_total :
    (failed count : ℕ) (cs : List Candidate)
    → failed < count
    → InPool count cs
    → (i : ℕ) × (choose_failover_index failed count cs ≡ ok i)
      × (i < count)
      × (((a : OwnedNodeAssessment) × Memᴰ (i, a) cs × IsBest (i, a) cs)
          ⊎ ((cs ≡ []) × (1 < count → i ≢ failed)))
unfolding choose_failover_index select_primary
choose_failover_total failed count [] inside pool =
    let (i, chosen, in_range, moved) = next_failover_index_lem failed count inside in
    (i, chosen, in_range, inr (refl, moved))
choose_failover_total failed count (c ∷ cs) inside pool = (
  (least c cs).0,
  refl,
  All-Memᴰ (λ d. d.0 < count) (least c cs) (c ∷ cs) pool (least-Mem c cs),
  inl ((least c cs).1, least-Mem c cs, IsLeast-IsBest (least c cs) (c ∷ cs) (least-IsLeast c cs)),
)
