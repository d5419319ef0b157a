-- ===== src/Wrpc/Codec.antt =====
-- src/wrpc.rs: the messages of the node's wRPC endpoint, and what a notification that decodes satisfies.
use kaspa_frontier_engine.Base.{
  ℕ, Bool, false, not, Option, none, some, List, ltb, nat_beq, if◌then◌else◌, is_some, Result, ok,
  err, ◌>>=◌, ◌>>◌, fail_if, ok_or,
}
use kaspa_frontier_engine.Base.Lists.{length}
use kaspa_frontier_engine.Base.Eq.{◌==◌, nat_eq}
use kaspa_frontier_engine.Base.Text.{Text, text, text_eq}
use kaspa_frontier_engine.Base.Text.{len}
use kaspa_frontier_engine.Base.Map.{Map}
use kaspa_frontier_engine.Base.Map.{lookup}
use kaspa_frontier_engine.Wrpc.{
  RpcUtxoEntryRef, WrpcNotification, WrpcError, max_wrpc_frame_bytes, validate_utxo_change,
  utxos_changed, virtual_daa_score_changed, oversized_frame, bad_json, has_request_id, server_error,
  missing_method, missing_params, unsupported_method, not_one_variant, missing_variant,
  unexpected_id, unexpected_method, bad_subscription_id,
}
use kaspa_frontier_engine.Outpoint.{outpoint_eq}

-- `WrpcServerMessage`, whose `error` stands for its presence.
pub record WrpcServerMessage (Value : Type 0) : Type 0 where
  pub id : Option ℕ
  pub method : Option Text
  pub params : Option Value
  pub error : Bool

-- What serde_json does for the code: `from_str` at the message, `from_value` at the two payloads, and the
-- accessors of a value. `none` is an error.
pub record Serde : Type 1 where
  pub Value : Type 0
  pub from_str : Text → Option (WrpcServerMessage Value)
  pub as_object : Value → Option (Map Text Value)
  pub as_u64 : Value → Option ℕ
  pub utxos_changed_params : Value → Option (List RpcUtxoEntryRef × List RpcUtxoEntryRef)
  pub virtual_daa_params : Value → Option ℕ

abbrev pub is_id : ℕ → Option ℕ → Bool
is_id expected none = false
is_id expected (some id) = nat_beq id expected

abbrev pub is_method : Text → Option Text → Bool
is_method expected none = false
is_method expected (some method) = method == expected

module _ (serde : Serde) where
  unfoldable pub parse_message : Text → Result WrpcError (WrpcServerMessage serde.Value)
  parse_message raw = do
    fail_if (ltb max_wrpc_frame_bytes (len raw)) oversized_frame
    ok_or (serde.from_str raw) bad_json

  unfoldable pub response_params : Text → ℕ → Text → Result WrpcError serde.Value
  response_params raw expected_id expected_method = do
    message ← parse_message raw
    fail_if message.error server_error
    fail_if (not (is_id expected_id message.id)) unexpected_id
    fail_if (not (is_method expected_method message.method)) unexpected_method
    ok_or message.params missing_params

  -- The payload is an object with one entry, of the expected key.
  unfoldable pub exact_notification_variant : serde.Value → Text → Result WrpcError serde.Value
  exact_notification_variant payload expected = do
    object ← ok_or (serde.as_object payload) not_one_variant
    fail_if (not (nat_beq (length object) 1)) not_one_variant
    ok_or (lookup expected object) missing_variant

  unfoldable pub decode_utxos_changed : serde.Value → Result WrpcError WrpcNotification
  decode_utxos_changed payload = do
    variant ← exact_notification_variant payload (text "UtxosChanged")
    params ← ok_or (serde.utxos_changed_params variant) bad_json
    validate_utxo_change params.0 params.1
    ok (utxos_changed params.0 params.1)

  unfoldable pub decode_virtual_daa : serde.Value → Result WrpcError WrpcNotification
  decode_virtual_daa payload = do
    variant ← exact_notification_variant payload (text "VirtualDaaScoreChanged")
    score ← ok_or (serde.virtual_daa_params variant) bad_json
    ok (virtual_daa_score_changed score)

  unfoldable pub decode_payload : Text → serde.Value → Result WrpcError WrpcNotification
  decode_payload method payload =
      if method == text "utxosChangedNotification"
      then decode_utxos_changed payload
      else if method == text "virtualDaaScoreChangedNotification"
      then decode_virtual_daa payload
      else err unsupported_method

  unfoldable pub decode_notification : Text → Result WrpcError WrpcNotification
  decode_notification raw = do
    message ← parse_message raw
    fail_if (is_some message.id) has_request_id
    fail_if message.error server_error
    method ← ok_or message.method missing_method
    payload ← ok_or message.params missing_params
    decode_payload method payload

  abbrev pub numeric : Option serde.Value → Option ℕ
  numeric none = none
  numeric (some value) = serde.as_u64 value

  abbrev pub only_id : Option (Map Text serde.Value) → Option ℕ
  only_id none = none
  only_id (some object) =
      if nat_beq (length object) 1 then numeric (lookup (text "id") object) else none

  -- The numeric id of the only entry.
  unfoldable pub subscription_id : serde.Value → Option ℕ
  subscription_id params = only_id (serde.as_object params)

  unfoldable pub validate_subscription_ack : Text → ℕ → Text → Result WrpcError (Unit {0})
  validate_subscription_ack raw expected_id expected_method = do
    message ← parse_message raw
    fail_if message.error server_error
    fail_if (not (is_id expected_id message.id)) unexpected_id
    fail_if (not (is_method expected_method message.method)) unexpected_method
    params ← ok_or message.params bad_subscription_id
    id ← ok_or (subscription_id params) bad_subscription_id
    ok tt
