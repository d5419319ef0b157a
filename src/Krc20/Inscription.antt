-- ===== src/Krc20/Inscription.antt =====
-- src/krc20.rs: the inscriptions that the Kasplex indexer reads. The code asks for compact lowercase
-- JSON.
use kaspa_frontier_engine.Base.{
  ℕ, ◌≤◌, max, ◌≡◌, refl, inl, inr, Bool, true, not, ◌&&◌, ◌||◌, [], ◌∷◌, ◌++◌, arith, leb,
  if◌then◌else◌, Result, ok, err, ◌>>=◌, Result-cases,
}
use kaspa_frontier_engine.Base.Lists.{all}
use kaspa_frontier_engine.Base.Eq.{nat_eq}
use kaspa_frontier_engine.Base.Text.{
  Text, text, text_eq, is_empty, is_ascii_digit, is_ascii_uppercase, is_ascii_alphanumeric,
  is_whitespace,
}
use kaspa_frontier_engine.Base.Text.{len, to_ascii_lowercase, trim}
use kaspa_frontier_engine.Network.{testnet, classify_address}
use kaspa_frontier_engine.Krc20.{Krc20Error, invalid_amount, invalid_tick, invalid_address}

-- The literal pieces of the format strings.
abbrev pub mint_head : Text
mint_head = text "{\"p\":\"krc-20\",\"op\":\"mint\",\"tick\":\""

abbrev transfer_head : Text
transfer_head = text "{\"p\":\"krc-20\",\"op\":\"transfer\",\"tick\":\""

abbrev deploy_head : Text
deploy_head = text "{\"p\":\"krc-20\",\"op\":\"deploy\",\"tick\":\""

abbrev amt_key : Text
amt_key = text "\",\"amt\":\""

abbrev to_key : Text
to_key = text "\",\"to\":\""

abbrev max_key : Text
max_key = text "\",\"max\":\""

abbrev lim_key : Text
lim_key = text "\",\"lim\":\""

abbrev pub closing : Text
closing = text "\"}"

unfoldable pub kasplex_tick : Text → Result Krc20Error Text
kasplex_tick tick =
    let ticker = to_ascii_lowercase (trim tick) in
    if not (leb 4 (len ticker) && leb (len ticker) 6) || not (all is_ascii_alphanumeric ticker)
    then err invalid_tick
    else ok ticker

-- `digits_only`
unfoldable pub digits_only : Text → Result Krc20Error Text
digits_only raw =
    if is_empty raw || not (all is_ascii_digit raw) then err invalid_amount else ok raw

unfoldable pub kasplex_mint_inscription : Text → Result Krc20Error Text
kasplex_mint_inscription tick = do tick' ← kasplex_tick tick; ok (mint_head ++ (tick' ++ closing))

unfoldable pub kasplex_transfer_inscription : Text → Text → Text → Result Krc20Error Text
kasplex_transfer_inscription tick amt to = do
  tick' ← kasplex_tick tick
  amt' ← digits_only amt
  let to' = to_ascii_lowercase (trim to)
  elim (classify_address to') [
    | testnet ↦ ok (transfer_head ++ (tick' ++ (amt_key ++ (amt' ++ (to_key ++ (to' ++ closing))))))
    | _ ↦ err invalid_address
  ]

unfoldable pub kasplex_deploy_inscription : Text → Text → Text → Result Krc20Error Text
kasplex_deploy_inscription tick max lim = do
  tick' ← kasplex_tick tick
  max' ← digits_only max
  lim' ← digits_only lim
  ok (deploy_head ++ (tick' ++ (max_key ++ (max' ++ (lim_key ++ (lim' ++ closing))))))

-- No whitespace and no uppercase letter.
abbrev pub is_compact : Text → Bool
is_compact s = all (λ c. not (is_whitespace c) && not (is_ascii_uppercase c)) s

all-append : (p : ℕ → Bool) (s t : Text) → all p (s ++ t) ≡ (all p s && all p t)
all-append p [] t = refl
all-append p (c ∷ s) t = ground (arith, all-append p s t)

digits-is_compact : (s : Text) → all is_ascii_digit s ≡ true → is_compact s ≡ true
digits-is_compact [] h = refl
digits-is_compact (c ∷ s) h = ground (arith, digits-is_compact s)

lowercase-is_compact :
    (s : Text)
    → all is_ascii_alphanumeric (to_ascii_lowercase s) ≡ true
    → is_compact (to_ascii_lowercase s) ≡ true
unfolding to_ascii_lowercase
lowercase-is_compact [] h = refl
lowercase-is_compact (c ∷ s) h = ground (arith, lowercase-is_compact s)

-- An accepted tick has four to six characters, letters and digits alone, none of them uppercase.
pub kasplex_tick-ok :
    (tick ticker : Text)
    → kasplex_tick tick ≡ ok ticker
    → (4 ≤ len ticker)
      × (len ticker ≤ 6)
      × (all is_ascii_alphanumeric ticker ≡ true)
      × (is_compact ticker ≡ true)
unfolding kasplex_tick
kasplex_tick-ok tick ticker h = ground (arith, lowercase-is_compact (trim tick))

-- A parsed run of digits is the text itself, and compact.
digits_only-ok : (raw s : Text) → digits_only raw ≡ ok s → (s ≡ raw) × (is_compact raw ≡ true)
unfolding digits_only
digits_only-ok raw s h = ground (arith, digits-is_compact raw)

-- Three pieces around a compact text.
compact_field :
    (a b c : Text)
    → is_compact a ≡ true
    → is_compact b ≡ true
    → is_compact c ≡ true
    → is_compact (a ++ (b ++ c)) ≡ true
compact_field a b c ha hb hc =
    let p = λ (x : ℕ). not (is_whitespace x) && not (is_ascii_uppercase x) in
    rw (all-append p a (b ++ c), all-append p b c, ha, hb, hc)

-- A mint inscription that is produced has no whitespace and no uppercase letter.
pub mint_inscription-is_compact :
    (tick s : Text) → kasplex_mint_inscription tick ≡ ok s → is_compact s ≡ true
unfolding kasplex_mint_inscription
mint_inscription-is_compact tick s h = elim (Result-cases (kasplex_tick tick)) [
  | inl (t, e) ↦
      let whole : mint_head ++ (t ++ closing) ≡ s = cc (rw e at h) in
      rw (← whole) (compact_field mint_head t closing refl ((kasplex_tick-ok tick t e).3) refl)
  | inr (x, e) ↦ absurd (cc (rw e at h))
]

-- So has a deployment inscription, whose amounts are the given ones.
pub deploy_inscription-is_compact :
    (tick max_supply lim s : Text)
    → kasplex_deploy_inscription tick max_supply lim ≡ ok s
    → is_compact s ≡ true
unfolding kasplex_deploy_inscription
deploy_inscription-is_compact tick max_supply lim s h = elim (Result-cases (kasplex_tick tick)) [
  | inr (x, e) ↦ absurd (cc (rw e at h))
  | inl (t, e) ↦ elim (Result-cases (digits_only max_supply)) [
    | inr (x, e₂) ↦ absurd (cc (rw (e, e₂) at h))
    | inl (m, e₂) ↦ elim (Result-cases (digits_only lim)) [
      | inr (x, e₃) ↦ absurd (cc (rw (e, e₂, e₃) at h))
      | inl (l, e₃) ↦
          let whole : deploy_head ++ (t ++ (max_key ++ (m ++ (lim_key ++ (l ++ closing))))) ≡ s =
            cc (rw (e, e₂, e₃) at h) in
          let max_ok : is_compact m ≡ true = ground (arith, digits_only-ok max_supply m e₂) in
          let lim_ok : is_compact l ≡ true = ground (arith, digits_only-ok lim l e₃) in
          rw (← whole) (
            compact_field deploy_head t (max_key ++ (m ++ (lim_key ++ (l ++ closing)))) refl
              (kasplex_tick-ok tick t e).3
              (compact_field max_key m (lim_key ++ (l ++ closing)) refl max_ok
                (compact_field lim_key l closing refl lim_ok refl)))
    ]
  ]
]
