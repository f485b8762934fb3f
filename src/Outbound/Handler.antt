-- ===== src/Outbound/Handler.antt =====
-- channels-go/internal/outboundapi/handler.go: `POST /v1/outbound`.
use fieldwatchai_comms_openk.Prelude.{
  ℕ, Bool, true, false, not, ◌||◌, Option, none, some, [], ◌∷◌, if◌then◌else◌,
}
use fieldwatchai_comms_openk.Store.{Text}
use fieldwatchai_comms_openk.World.{M, ◌>>=◌, pure}
use fieldwatchai_comms_openk.Outbound.Api.{
  Service, Failure, not_found, internal, Receipt, Outcome, done, failed, reply_to_message,
  send_to_contact, send_to_endpoint,
}

-- `recipientSpec`
pub record RecipientSpec : Type 0 where
  pub contact_id : Text
  pub endpoint : Text

-- `sendRequest`
pub record SendRequest : Type 0 where
  pub in_reply_to_message_id : Text
  pub recipient : Option RecipientSpec
  pub channel_id : Text
  pub subject : Text
  pub text : Text

-- The `error` of a response.
pub data Error : Type 0 where
  invalid_json invalid_target invalid_channel_id invalid_in_reply_to_message_id : Error
  invalid_recipient invalid_contact_id channel_id_required : Error
  bad_request recipient_not_found dispatch_failed : Error

pub data Response : Type 0 where
  accepted : Receipt → Response
  rejected : Error → Response

-- The status of a response.
unfoldable pub status_of : Response → ℕ
status_of (accepted r) = 202
status_of (rejected recipient_not_found) = 404
status_of (rejected dispatch_failed) = 502
status_of (rejected invalid_json) = 400
status_of (rejected invalid_target) = 400
status_of (rejected invalid_channel_id) = 400
status_of (rejected invalid_in_reply_to_message_id) = 400
status_of (rejected invalid_recipient) = 400
status_of (rejected invalid_contact_id) = 400
status_of (rejected channel_id_required) = 400
status_of (rejected bad_request) = 400

-- The response to what the service returns.
unfoldable pub response_of : Outcome → Response
response_of (done r) = accepted r
response_of (failed Failure.bad_request) = rejected bad_request
response_of (failed not_found) = rejected recipient_not_found
response_of (failed internal) = rejected dispatch_failed

abbrev pub same : Bool → Bool → Bool
same true b = b
same false b = not b

abbrev pub is_set : Text → Bool
is_set [] = false
is_set (c ∷ s) = true

-- `hasRecipient`
abbrev pub has_recipient : Option RecipientSpec → Bool
has_recipient none = false
has_recipient (some r) = is_set r.contact_id || is_set r.endpoint

-- `*uuid.UUID` of a text: none where it is empty, and an error where it does not parse.
abbrev pub optional_id : (Text → Option ℕ) → Text → Option (Option ℕ)
optional_id parse [] = some none
optional_id parse (c ∷ s) = elim (parse (c ∷ s)) [ none ↦ none | some i ↦ some (some i) ]

-- `uuid.Parse` is `parse_uuid`.
module _ {F : Type 0} (s : Service) (parse_uuid : Text → Option ℕ) where
  abbrev responded : M F Outcome → M F Response
  responded m = do out ← m; pure (response_of out)

  unfoldable pub to_message : SendRequest → Option ℕ → M F Response
  to_message req none = pure (rejected invalid_in_reply_to_message_id)
  to_message req (some id) = responded (reply_to_message s id req.text)

  unfoldable pub to_contact : SendRequest → Option ℕ → Option ℕ → M F Response
  to_contact req channel_id none = pure (rejected invalid_contact_id)
  to_contact req channel_id (some id) =
      responded (send_to_contact s id channel_id req.text req.subject)

  unfoldable pub to_address : SendRequest → Option ℕ → Text → M F Response
  to_address req none endpoint = pure (rejected channel_id_required)
  to_address req (some channel_id) endpoint =
      responded (send_to_endpoint s channel_id endpoint req.text req.subject)

  -- The cases without a message to reply to.
  unfoldable pub to_recipient : SendRequest → Option ℕ → Option RecipientSpec → M F Response
  to_recipient req channel_id none = pure (rejected invalid_target)
  to_recipient req channel_id (some r) =
      if is_set r.contact_id
      then if is_set r.endpoint
        then pure (rejected invalid_recipient)
        else to_contact req channel_id (parse_uuid r.contact_id)
      else to_address req channel_id r.endpoint

  unfoldable pub with_channel : SendRequest → Option (Option ℕ) → M F Response
  with_channel req none = pure (rejected invalid_channel_id)
  with_channel req (some channel_id) =
      if is_set req.in_reply_to_message_id
      then to_message req (parse_uuid req.in_reply_to_message_id)
      else to_recipient req channel_id req.recipient

  -- `Handler.send`; `none` is a body that does not decode.
  unfoldable pub send : Option SendRequest → M F Response
  send none = pure (rejected invalid_json)
  send (some req) =
      if same (is_set req.in_reply_to_message_id) (has_recipient req.recipient)
      then pure (rejected invalid_target)
      else with_channel req (optional_id parse_uuid req.channel_id)
