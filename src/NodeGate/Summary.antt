-- ===== src/NodeGate/Summary.antt =====
-- What a gate that is evaluated from probes counts and selects.
use kaspa_frontier_engine.Base.{
  ℕ, ◌+◌, ◌-◌, ◌≤◌, ◌≡◌, refl, ap, inl, inr, Bool, true, false, none, some, List, [], ◌∷◌, map,
  arith, ltb, leb, Option-cases, is_some, ok, err, is_ok, Result-cases,
}
use kaspa_frontier_engine.Base.Lists.{length, retain, All, All-imp}
use kaspa_frontier_engine.Base.Eq.{nat_eq}
use kaspa_frontier_engine.Base.Text.{Text, text_eq}
use mathlib.Core.List.{Memᴰ}
use mathlib.Core.List.Memᴰ.{head, tail}
use kaspa_frontier_engine.OwnedNode.{
  OwnedNodeHealth, OwnedNodeAssessment, assess_owned_node, Candidate, select_primary,
}
use kaspa_frontier_engine.NodeGate.{
  OwnedNodeGateSummary, Probe, report_from_probe, evaluate_owned_node_gate, candidates_from,
  count_healthy, url_at, summary_with, summarize_gate,
}
use kaspa_frontier_engine.OwnedNode.Choice.{All-Memᴰ, select_primary_lem}

-- A probe that answered with a node that is accepted.
abbrev pub is_accepted : ℕ → ℕ → Text × Probe → Bool
is_accepted public_daa max_daa_lag (url, ok h) = is_ok (assess_owned_node h public_daa max_daa_lag)
is_accepted public_daa max_daa_lag (url, err e) = false

-- The url at an index, and its probe, which was assessed as given.
abbrev pub Backs : List (Text × Probe) → ℕ → ℕ → ℕ → OwnedNodeAssessment → Type 0
Backs probes public_daa max_daa_lag index a =
    (url : Text) × (h : OwnedNodeHealth) × (url_at (map (λ p. p.0) probes) index ≡ some url)
    × Memᴰ (url, ok h) probes
    × (assess_owned_node h public_daa max_daa_lag ≡ ok a)

Backs-tail :
    (entry : Text × Probe) (probes : List (Text × Probe)) (p l k i : ℕ) (a : OwnedNodeAssessment)
    → k + 1 ≤ i
    → Backs probes p l (i - (k + 1)) a
    → Backs (entry ∷ probes) p l (i - k) a
unfolding url_at
Backs-tail entry probes p l k i a later (url, h, at, among, assessed) =
    let index : i - k - 1 ≡ i - (k + 1) = omega arith in
    (url, h, ground (arith, at, index), tail among, assessed)

url_at-first : (url : Text) (urls : List Text) (k : ℕ) → url_at (url ∷ urls) (k - k) ≡ some url
unfolding url_at
url_at-first url urls k = let first : k - k ≡ 0 = omega arith in ground (arith, first)

candidates_from-Backs :
    (probes : List (Text × Probe)) (p l k : ℕ)
    → All
        (λ c. (k ≤ c.0) × Backs probes p l (c.0 - k) c.1)
        (candidates_from k (evaluate_owned_node_gate probes p l))
unfolding candidates_from evaluate_owned_node_gate report_from_probe
candidates_from-Backs [] p l k = tt
candidates_from-Backs ((url, err e) ∷ probes) p l k =
    All-imp (λ c. (k + 1 ≤ c.0) × Backs probes p l (c.0 - (k + 1)) c.1)
      (λ c. (k ≤ c.0) × Backs ((url, err e) ∷ probes) p l (c.0 - k) c.1)
      (λ c facts. (omega arith, Backs-tail (url, err e) probes p l k c.0 c.1 facts.0 facts.1))
      (candidates_from (k + 1) (evaluate_owned_node_gate probes p l))
      (candidates_from-Backs probes p l (k + 1))
candidates_from-Backs ((url, ok h) ∷ probes) p l k =
    let others =
      All-imp (λ c. (k + 1 ≤ c.0) × Backs probes p l (c.0 - (k + 1)) c.1)
        (λ c. (k ≤ c.0) × Backs ((url, ok h) ∷ probes) p l (c.0 - k) c.1)
        (λ c facts. (omega arith, Backs-tail (url, ok h) probes p l k c.0 c.1 facts.0 facts.1))
        (candidates_from (k + 1) (evaluate_owned_node_gate probes p l))
        (candidates_from-Backs probes p l (k + 1)) in
    elim (Result-cases (assess_owned_node h p l)) [
      | inl (a, assessed) ↦ rw assessed (
        (
          omega arith,
          (url, h, url_at-first url (map (λ entry. entry.0) probes) k, head refl, assessed),
        ),
        others,
      )
      | inr (e, refused) ↦ rw refused others
    ]

-- Each accepted probe gives one candidate and counts once.
count_healthy-accepted :
    (probes : List (Text × Probe)) (p l : ℕ)
    → count_healthy (evaluate_owned_node_gate probes p l) ≡ length (retain (is_accepted p l) probes)
unfolding count_healthy evaluate_owned_node_gate report_from_probe
count_healthy-accepted [] p l = refl
count_healthy-accepted ((url, err e) ∷ probes) p l = count_healthy-accepted probes p l
count_healthy-accepted ((url, ok h) ∷ probes) p l = elim (Result-cases (assess_owned_node h p l)) [
  | inl (a, assessed) ↦ ground (arith, assessed, count_healthy-accepted probes p l)
  | inr (e, refused) ↦ ground (arith, refused, count_healthy-accepted probes p l)
]

length-candidates_from :
    (probes : List (Text × Probe)) (p l k : ℕ)
    → length (candidates_from k (evaluate_owned_node_gate probes p l))
      ≡ count_healthy (evaluate_owned_node_gate probes p l)
unfolding count_healthy evaluate_owned_node_gate report_from_probe candidates_from
length-candidates_from [] p l k = refl
length-candidates_from ((url, err e) ∷ probes) p l k = length-candidates_from probes p l (k + 1)
length-candidates_from ((url, ok h) ∷ probes) p l k =
    elim (Result-cases (assess_owned_node h p l)) [
      | inl (a, assessed) ↦ ground (arith, assessed, length-candidates_from probes p l (k + 1))
      | inr (e, refused) ↦ ground (arith, refused, length-candidates_from probes p l (k + 1))
    ]

-- A candidate is selected exactly if there is one.
select_primary-length : (cs : List Candidate) → is_some (select_primary cs) ≡ ltb 0 (length cs)
unfolding select_primary
select_primary-length [] = refl
select_primary-length (c ∷ cs) = ground arith

-- What the gate's summary says of the probes.
pub record Summarizes (probes : List (Text × Probe)) (p l required : ℕ) (s : OwnedNodeGateSummary)
    : Type 0 where
  pub counted : s.healthy_nodes ≡ length (retain (is_accepted p l) probes)
  pub gate : s.gate_healthy ≡ leb required s.healthy_nodes
  pub none_selected : s.healthy_nodes ≡ 0 → s.selected_url ≡ none
  pub selected :
      1 ≤ s.healthy_nodes
      → (url : Text) × (h : OwnedNodeHealth) × (s.selected_url ≡ some url)
        × Memᴰ (url, ok h) probes
        × (is_ok (assess_owned_node h p l) ≡ true)

-- Summarizing the reports of probes does not panic. The summary counts the accepted probes and
-- compares them with the required number; without one it selects nothing, and otherwise the url of
-- an accepted probe.
pub summarize_gate_lem :
    (probes : List (Text × Probe)) (p l required : ℕ)
    → (s : OwnedNodeGateSummary) × (summarize_gate
          (evaluate_owned_node_gate probes p l)
          (map (λ entry. entry.0) probes)
          p
          l
          required
        ≡ some s)
      × Summarizes probes p l required s
unfolding summarize_gate
summarize_gate_lem probes p l required =
    let reports = evaluate_owned_node_gate probes p l in
    let cs = candidates_from 0 reports in
    let many : length cs ≡ count_healthy reports = length-candidates_from probes p l 0 in
    let any_selected = select_primary-length cs in
    elim (Option-cases (select_primary cs)) [
      | inl nobody ↦ (
        summary_with reports p l required none,
        ground (arith, nobody),
        record {
          counted = count_healthy-accepted probes p l;
          gate = refl;
          none_selected = λ h. refl;
          selected = λ h. absurd (ground (arith, nobody, many, any_selected));
        },
      )
      | inr (i, chosen) ↦
          let (a, among, best) = select_primary_lem cs i chosen in
          let (from_zero, (url, h, at, probed, assessed)) =
            All-Memᴰ (λ c. (0 ≤ c.0) × Backs probes p l (c.0 - 0) c.1) (i, a) cs
              (candidates_from-Backs probes p l 0) among in
          (
            summary_with reports p l required (some url),
            ground (arith, chosen, at),
            record {
              counted = count_healthy-accepted probes p l;
              gate = refl;
              none_selected = λ h. absurd (ground (arith, chosen, many, any_selected));
              selected = λ h'. (url, h, refl, probed, ap is_ok assessed);
            },
          )
    ]
