-- ===== src/Wrpc/Valid.antt =====
-- What a notification that decodes satisfies.
use kaspa_frontier_engine.Base.{
  ◌+◌, ◌≤◌, ◌≡◌, sym, ◌≢◌, inl, inr, true, false, some, List, [], ◌∷◌, ◌++◌, map, arith, Bool-cases,
  Option-cases, ok, Result-cases,
}
use kaspa_frontier_engine.Base.Lists.{length, All, All-imp, IsOnce}
use kaspa_frontier_engine.Base.Eq.{nat_eq}
use kaspa_frontier_engine.Base.Text.{Text, text, text_eq}
use kaspa_frontier_engine.Base.Text.{text_beq}
use kaspa_frontier_engine.Base.Map.{Set, contains, lookup-insert}
use kaspa_frontier_engine.Base.Map.{insert}
use kaspa_frontier_engine.Wrpc.{
  RpcUtxoEntryRef, is_hash, validate_entry, entry_key, validate_entries, validate_utxo_change,
  utxos_changed,
}
use kaspa_frontier_engine.Outpoint.{Outpoint, outpoint_eq, outpoint_beq, outpoint_beq_iff}
use kaspa_frontier_engine.Network.{is_valid_testnet_address}
use kaspa_frontier_engine.Wrpc.Codec.{
  Serde, parse_message, exact_notification_variant, decode_utxos_changed, decode_virtual_daa,
  decode_payload, decode_notification,
}

-- An entry of a testnet address, with the transaction's hash and a positive amount.
unfoldable pub IsEntry : RpcUtxoEntryRef → Type 0
IsEntry entry =
    (address : Text) × (entry.address ≡ some address)
    × (is_valid_testnet_address address ≡ true)
    × (is_hash entry.outpoint.transaction_id ≡ true)
    × (entry.utxo_entry.amount ≢ 0)

validate_entry-IsEntry : (entry : RpcUtxoEntryRef) → validate_entry entry ≡ ok tt → IsEntry entry
unfolding validate_entry IsEntry
validate_entry-IsEntry entry h = elim (Option-cases entry.address) [
  | inl missing ↦ absurd (ground (arith, missing))
  | inr (address, found) ↦ (
    address,
    found,
    ground (arith, found),
    ground (arith, found),
    λ zero. absurd (ground (arith, found, zero)),
  )
]

abbrev Fresh : Set Outpoint → RpcUtxoEntryRef → Type 0
Fresh outpoints entry = contains (entry_key entry) outpoints ≡ false

-- One step of the loop, from behind.
entries-step :
    (outpoints : Set Outpoint) (entry : RpcUtxoEntryRef) (entries : List RpcUtxoEntryRef)
    → validate_entries outpoints (entry ∷ entries) ≡ ok tt
    → IsEntry entry
      × Fresh outpoints entry
      × (validate_entries (insert (entry_key entry) tt outpoints) entries ≡ ok tt)
unfolding validate_entries
entries-step outpoints entry entries h = elim (Result-cases (validate_entry entry)) [
  | inl (done, valid) ↦ elim (Bool-cases (contains (entry_key entry) outpoints)) [
    | inl there ↦ absurd (ground (arith, valid, there))
    | inr fresh ↦ (validate_entry-IsEntry entry valid, fresh, rw (valid, fresh) at h)
  ]
  | inr (e, failed) ↦ absurd (ground (arith, failed))
]

before_insert :
    (outpoints : Set Outpoint) (key : Outpoint) (entry : RpcUtxoEntryRef)
    → Fresh (insert key tt outpoints) entry
    → Fresh outpoints entry × (key ≢ entry_key entry)
before_insert outpoints key entry h = elim (Bool-cases (outpoint_beq (entry_key entry) key)) [
  | inl same ↦ absurd (ground (arith, same, h, lookup-insert (entry_key entry) key tt outpoints))
  | inr differ ↦ (
    ground (arith, differ, h, lookup-insert (entry_key entry) key tt outpoints),
    λ same. absurd (ground (arith, differ, (outpoint_beq_iff (entry_key entry) key).1 (sym same))),
  )
]

validate_entries-lem :
    (outpoints : Set Outpoint) (entries : List RpcUtxoEntryRef)
    → validate_entries outpoints entries ≡ ok tt
    → All IsEntry entries × All (Fresh outpoints) entries × IsOnce (map entry_key entries)
unfolding IsOnce
validate_entries-lem outpoints [] h = (tt, tt, tt)
validate_entries-lem outpoints (entry ∷ entries) h =
    let (valid, fresh, rest) = entries-step outpoints entry entries h in
    let key = entry_key entry in
    let (valids, freshes, once) = validate_entries-lem (insert key tt outpoints) entries rest in
    (
      (valid, valids),
      (
        fresh,
        All-imp (Fresh (insert key tt outpoints)) (Fresh outpoints)
            (λ e f. (before_insert outpoints key e f).0) entries freshes,
      ),
      (
        keys_apart key entries (
            All-imp (Fresh (insert key tt outpoints)) (λ e. key ≢ entry_key e)
              (λ e f. (before_insert outpoints key e f).1) entries freshes),
        once,
      ),
    )
  where
    keys_apart :
        (key : Outpoint) (es : List RpcUtxoEntryRef)
        → All (λ e. key ≢ entry_key e) es
        → All (λ k. key ≢ k) (map entry_key es)
    keys_apart key [] h = tt
    keys_apart key (e ∷ es) h = (h.0, keys_apart key es h.1)

module _ (serde : Serde) (added removed : List RpcUtxoEntryRef) where
  utxos_changed-checked :
      (payload : serde.Value)
      → decode_utxos_changed serde payload ≡ ok (utxos_changed added removed)
      → validate_utxo_change added removed ≡ ok tt
  unfolding decode_utxos_changed
  utxos_changed-checked payload h =
      elim (Result-cases (exact_notification_variant serde payload (text "UtxosChanged"))) [
        | inl (variant, one) ↦ elim (Option-cases (serde.utxos_changed_params variant)) [
          | inl bad ↦ absurd (ground (arith, one, bad))
          | inr (params, parsed) ↦ elim (Result-cases (validate_utxo_change params.0 params.1)) [
            | inl (done, valid) ↦
                let same : (params.0 ≡ added) × (params.1 ≡ removed) =
                  (ground (arith, h, one, parsed, valid), ground (arith, h, one, parsed, valid)) in
                rw (← same.0, ← same.1) valid
            | inr (e, failed) ↦ absurd (ground (arith, one, parsed, failed))
          ]
        ]
        | inr (e, failed) ↦ absurd (ground (arith, failed))
      ]

  virtual_daa-other :
      (payload : serde.Value) → decode_virtual_daa serde payload ≢ ok (utxos_changed added removed)
  unfolding decode_virtual_daa
  virtual_daa-other payload h =
      elim (Result-cases
        (exact_notification_variant serde payload (text "VirtualDaaScoreChanged"))) [
          | inl (variant, one) ↦ elim (Option-cases (serde.virtual_daa_params variant)) [
            | inl bad ↦ absurd (ground (arith, one, bad))
            | inr (score, parsed) ↦ absurd (ground (arith, one, parsed))
          ]
          | inr (e, failed) ↦ absurd (ground (arith, failed))
        ]

  payload-checked :
      (method : Text) (payload : serde.Value)
      → decode_payload serde method payload ≡ ok (utxos_changed added removed)
      → validate_utxo_change added removed ≡ ok tt
  unfolding decode_payload
  payload-checked method payload h =
      elim (Bool-cases (text_beq method (text "utxosChangedNotification"))) [
        | inl change ↦ utxos_changed-checked payload (rw change at h)
        | inr other ↦
            elim (Bool-cases (text_beq method (text "virtualDaaScoreChangedNotification"))) [
              | inl score ↦ absurd (virtual_daa-other payload (rw (other, score) at h))
              | inr unknown ↦ absurd (ground (arith, other, unknown))
            ]
      ]

  decode-checked :
      (raw : Text)
      → decode_notification serde raw ≡ ok (utxos_changed added removed)
      → validate_utxo_change added removed ≡ ok tt
  unfolding decode_notification
  decode-checked raw h = elim (Result-cases (parse_message serde raw)) [
    | inr (e, failed) ↦ absurd (ground (arith, failed))
    | inl (message, parsed) ↦ elim (Option-cases message.method) [
      | inl nameless ↦ absurd (ground (arith, parsed, nameless))
      | inr (method, named) ↦ elim (Option-cases message.params) [
        | inl bare ↦ absurd (ground (arith, parsed, named, bare))
        | inr (payload, filled) ↦
            payload-checked method payload (ground (arith, h, parsed, named, filled))
      ]
    ]
  ]

-- A notification that decodes to a change has at most 10,000 entries, each is of a testnet address with a
-- hash and a positive amount, and no output is named twice, not even as added and removed.
pub decode_notification-valid :
    (serde : Serde) (raw : Text) (added removed : List RpcUtxoEntryRef)
    → decode_notification serde raw ≡ ok (utxos_changed added removed)
    → (length added + length removed ≤ 10000)
      × All IsEntry (added ++ removed)
      × IsOnce (map entry_key (added ++ removed))
unfolding validate_utxo_change
decode_notification-valid serde raw added removed h =
    let checked = decode-checked serde added removed raw h in
    let entries : validate_entries [] (added ++ removed) ≡ ok tt = ground (arith, checked) in
    let (valid, fresh, once) = validate_entries-lem [] (added ++ removed) entries in
    (ground (arith, checked), valid, once)
