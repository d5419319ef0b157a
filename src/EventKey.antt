-- ===== src/EventKey.antt =====
-- The key of a ledger event, `format!("{}:{}:{}", kind, tx_id, output_index)`, which the sender's outbox in
-- src/deposit_ledger.rs and the receiver's inbox in src/outbox_receiver.rs both build.
use kaspa_frontier_engine.Base.{
  ℕ, zero, suc, ◌+◌, ◌-◌, ◌*◌, ◌/◌, ◌%◌, ◌^◌, ◌<◌, ◌≡◌, refl, sym, ap, ◌∙◌, ◌⊎◌, inl, inr, Bool,
  true, false, not, ◌&&◌, ◌||◌, [], ◌∷◌, ◌++◌, arith, ltb, leb, nat_beq, if◌then◌else◌, Bool-cases,
}
use kaspa_frontier_engine.Base.Lists.{length, all}
use kaspa_frontier_engine.Base.Eq.{◌==◌, nat_eq}
use kaspa_frontier_engine.Base.Text.{Text, text, text_beq_iff, text_eq, is_ascii_digit}
use kaspa_frontier_engine.Base.Text.{text_beq, len}
use native.Mathlib.Numerals.{unary_clauses}

-- A number in decimal, with as many digits as the fuel allows. A `u32` has at most ten.
unfoldable pub digits : ℕ → ℕ → Text
digits zero n = []
digits (suc fuel) n =
    if ltb n 10 then (b'0' + n) ∷ [] else digits fuel (n / 10) ++ (b'0' + n % 10) ∷ []

abbrev pub show_u32 : ℕ → Text
show_u32 n = digits 10 n

abbrev after_kind : Text → ℕ → Text
after_kind tx_id output_index = b':' ∷ (tx_id ++ (b':' ∷ show_u32 output_index))

unfoldable pub event_key : Text → Text → ℕ → Text
event_key kind tx_id output_index = kind ++ after_kind tx_id output_index

abbrev pub is_lower_hex : ℕ → Bool
is_lower_hex c = is_ascii_digit c || (leb b'a' c && leb c b'f')

abbrev pub is_tx_id : Text → Bool
is_tx_id tx_id = nat_beq (len tx_id) 64 && all is_lower_hex tx_id

abbrev pub is_kind : Text → Bool
is_kind kind = kind == text "credit" || kind == text "reverse"

-- The value of a decimal text.
value : ℕ → Text → ℕ
value acc [] = acc
value acc (c ∷ s) = value (acc * 10 + (c - b'0')) s

value-snoc : (acc : ℕ) (s : Text) (c : ℕ) → value acc (s ++ c ∷ []) ≡ value acc s * 10 + (c - b'0')
unfolding value
value-snoc acc [] c = refl
value-snoc acc (d ∷ s) c = value-snoc (acc * 10 + (d - b'0')) s c

tenth_below : (n w : ℕ) → n < w * 10 → n / 10 < w
tenth_below n w h = omega arith

value-digits : (fuel n : ℕ) → n < 10 ^ fuel → value 0 (digits fuel n) ≡ n
unfolding value digits
value-digits zero n h = omega arith
value-digits (suc fuel) n h = elim (Bool-cases (ltb n 10)) [
  | inl small ↦ ground (arith, small)
  | inr large ↦
      let rest = value-digits fuel (n / 10) (tenth_below n (10 ^ fuel) (simp unary_clauses at h)) in
      ground (arith, large, rest, value-snoc 0 (digits fuel (n / 10)) (b'0' + n % 10))
]

-- The printed form determines a `u32`.
show_u32_inj : (m n : ℕ) → m < 2 ^ 32 → n < 2 ^ 32 → show_u32 m ≡ show_u32 n → m ≡ n
show_u32_inj m n hm hn same =
    sym (value-digits 10 m (omega arith)) ∙ ap (value 0) same ∙ value-digits 10 n (omega arith)

-- Two texts of the same length in front of the same colon.
append_cancel : (s t p q : Text) → length s ≡ length t → s ++ p ≡ t ++ q → (s ≡ t) × (p ≡ q)
append_cancel [] [] p q h e = (refl, e)
append_cancel [] (d ∷ t) p q h e = absurd (ground arith)
append_cancel (c ∷ s) [] p q h e = absurd (ground arith)
append_cancel (c ∷ s) (d ∷ t) p q h e =
    let (rest, tails) = append_cancel s t p q (ground arith) (ground arith) in
    (ground (arith, rest), tails)

no_colon : Text → Bool
no_colon [] = true
no_colon (c ∷ s) = not (nat_beq c b':') && no_colon s

no_colon-snoc : (s : Text) (c : ℕ) → no_colon (s ++ c ∷ []) ≡ (no_colon s && not (nat_beq c b':'))
unfolding no_colon
no_colon-snoc [] c = ground arith
no_colon-snoc (d ∷ s) c = ground (arith, no_colon-snoc s c)

no_colon-digits : (fuel n : ℕ) → no_colon (digits fuel n) ≡ true
unfolding digits no_colon
no_colon-digits zero n = refl
no_colon-digits (suc fuel) n =
    ground
      (arith, no_colon-digits fuel (n / 10), no_colon-snoc (digits fuel (n / 10)) (b'0' + n % 10))

no_colon-split : (t q : Text) → no_colon (t ++ (b':' ∷ q)) ≡ false
unfolding no_colon
no_colon-split [] q = refl
no_colon-split (c ∷ t) q = ground (arith, no_colon-split t q)

-- A text is split at its last colon in one way.
last_colon :
    (s t p q : Text)
    → no_colon p ≡ true
    → no_colon q ≡ true
    → s ++ (b':' ∷ p) ≡ t ++ (b':' ∷ q)
    → (s ≡ t) × (p ≡ q)
last_colon [] [] p q hp hq e = (refl, ground (arith, e))
last_colon [] (d ∷ t) p q hp hq e =
    let whole : p ≡ t ++ (b':' ∷ q) = ground (arith, e) in
    absurd (ground (arith, ap no_colon whole, no_colon-split t q, hp))
last_colon (c ∷ s) [] p q hp hq e =
    let whole : s ++ (b':' ∷ p) ≡ q = ground (arith, e) in
    absurd (ground (arith, ap no_colon whole, no_colon-split s p, hq))
last_colon (c ∷ s) (d ∷ t) p q hp hq e =
    let (rest, ends) = last_colon s t p q hp hq (ground (arith, e)) in
    (ground (arith, rest, e), ends)

kind_cases : (kind : Text) → is_kind kind ≡ true → (kind ≡ text "credit") ⊎ (kind ≡ text "reverse")
kind_cases kind h = elim (Bool-cases (text_beq kind (text "credit"))) [
  | inl same ↦ inl ((text_beq_iff kind (text "credit")).0 same)
  | inr differ ↦ inr ((text_beq_iff kind (text "reverse")).0 (ground arith))
]

-- Two kinds that begin keys of the same text are the same.
kind_same : (k l p q : Text) → is_kind k ≡ true → is_kind l ≡ true → k ++ p ≡ l ++ q → k ≡ l
kind_same k l p q hk hl e = elim (kind_cases k hk) [
  | inl credit ↦ elim (kind_cases l hl) [
    | inl credit' ↦ credit ∙ sym credit'
    | inr reverse' ↦ absurd (ground (arith, credit, reverse'))
  ]
  | inr reverse ↦ elim (kind_cases l hl) [
    | inl credit' ↦ absurd (ground (arith, reverse, credit'))
    | inr reverse' ↦ reverse ∙ sym reverse'
  ]
]

-- The key determines the kind, the transaction and the index, whatever the transaction's text is.
pub event_key_inj :
    (k l s t : Text) (m n : ℕ)
    → is_kind k ≡ true
    → is_kind l ≡ true
    → m < 2 ^ 32
    → n < 2 ^ 32
    → event_key k s m ≡ event_key l t n
    → (k ≡ l) × (s ≡ t) × (m ≡ n)
unfolding event_key
event_key_inj k l s t m n hk hl hm hn e =
    let kinds = kind_same k l (after_kind s m) (after_kind t n) hk hl e in
    let (same_kind, tails) =
      append_cancel k l (after_kind s m) (after_kind t n) (ap length kinds) e in
    let (same_tx, ends) =
      last_colon s t (show_u32 m) (show_u32 n) (no_colon-digits 10 m) (no_colon-digits 10 n)
        (ground (arith, tails)) in
    (kinds, same_tx, show_u32_inj m n hm hn ends)
