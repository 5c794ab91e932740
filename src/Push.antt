-- ===== src/Push.antt =====
-- app/auth/pubsub_push.py: the authentication of a push delivery and the parsing of its envelope.
-- Verifying a token, JSON and base64 are the parameters `PushServices`.
pub mod Route
use brunova_knowledge_gatewa.Prelude.{
  ℕ, ◌*◌, String, ◌==◌, Bool, true, false, not, ◌&&◌, ◌||◌, List, Option, none, some, elem, [], ◌∷◌,
  leb, ltb, if◌then◌else◌,
}
use brunova_knowledge_gatewa.Prelude.Text.{len, is_empty, strip, partition}
use brunova_knowledge_gatewa.Errors.{
  Error, Result, ok, err, adapter, require, value_error, type_error, ◌>>=◌, ◌>>◌,
  pubsub_authentication_unavailable, invalid_pubsub_authentication, invalid_pubsub_identity,
  agent_signal_envelope_invalid, agent_signal_invalid,
}
use brunova_knowledge_gatewa.Json.{Json, boolean, text, array, object, lookup}
use brunova_knowledge_gatewa.Signals.Payload.{AgentSignalPayload, validate}

-- `PubSubPushEnvelope` and its `PubSubMessage`, whose field `data` is `content`
pub record PushEnvelope : Type 0 where
  pub content : String
  pub message_id : String
  pub publish_time : Option ℕ
  pub attributes : List (String × String)
  pub subscription : Option String

pub record ParsedPubSubSignal : Type 0 where
  pub payload : AgentSignalPayload
  pub message_id : String
  pub publish_time : Option ℕ
  pub attributes : List (String × String)

pub record PushRequest (B : Type 0) : Type 0 where
  pub authorization : Option String
  pub content_length : Option String
  pub body : B

-- what the code calls of other packages, where `B` is the type of byte strings
pub record PushServices (B : Type 0) : Type 0 where
  pub casefold : String → String
  -- id_token.verify_oauth2_token(token, …, audience); `none` is a `ValueError` or a `GoogleAuthError`
  pub verify_oauth2_token : String → String → Option (List (String × Json))
  -- int(s); `none` is a `ValueError`, and a negative number is 0, as the code only asks what exceeds
  -- the maximum
  pub int : String → Option ℕ
  pub size : B → ℕ
  -- the values of an envelope's and of a payload's JSON text, before their constraints
  pub read_envelope : B → Option PushEnvelope
  pub b64decode : String → Option B
  pub read_payload : B → Option AgentSignalPayload

-- AGENT_SIGNAL_PUSH_AUDIENCE and AGENT_SIGNAL_PUSH_SERVICE_ACCOUNT
pub record PushSettings : Type 0 where
  pub audience : String
  pub service_account : String

abbrev pub max_push_envelope_bytes : ℕ
max_push_envelope_bytes = 128 * 1024

abbrev pub max_signal_bytes : ℕ
max_signal_bytes = 64 * 1024

abbrev pub valid_google_issuers : List String
valid_google_issuers = "accounts.google.com" ∷ "https://accounts.google.com" ∷ []

-- `claims.get("iss") not in VALID_GOOGLE_ISSUERS`: a list or an object has no hash.
unfoldable pub is_google_issuer : Option Json → Result Bool
is_google_issuer (some (text issuer)) = ok (elem issuer valid_google_issuers)
is_google_issuer (some (array items)) = err type_error
is_google_issuer (some (object fields)) = err type_error
is_google_issuer _ = ok false

abbrev pub is_text : String → Option Json → Bool
is_text s (some (text t)) = t == s
is_text s _ = false

abbrev pub is_true : Option Json → Bool
is_true (some (boolean b)) = b
is_true _ = false

unfoldable pub check_identity : String → List (String × Json) → Result (List (String × Json))
unfolding is_google_issuer
check_identity expected_email claims = do
  google ← is_google_issuer (lookup "iss" claims)
  require
      (google
        && is_text expected_email (lookup "email" claims)
        && is_true (lookup "email_verified" claims))
      invalid_pubsub_identity 403
  ok claims

abbrev pub or_invalid {ℓ} : {A : Type ℓ} → Option A → Error → Result A
or_invalid none error = err error
or_invalid (some a) error = ok a

abbrev pub or_empty : Option String → String
or_empty none = ""
or_empty (some s) = s

module _ {B : Type 0} (services : PushServices B) where
  unfoldable pub check_token :
      String → String → Option (String × String) → Result (List (String × Json))
  unfolding check_identity
  check_token audience expected_email none = err (adapter invalid_pubsub_authentication 401)
  check_token audience expected_email (some (scheme, token)) = do
    require (services.casefold scheme == "bearer" && not (is_empty token))
        invalid_pubsub_authentication 401
    claims ←
        or_invalid (services.verify_oauth2_token token audience)
          (adapter invalid_pubsub_authentication 401)
    check_identity expected_email claims

  unfoldable pub verify_pubsub_oidc : PushSettings → Option String → Result (List (String × Json))
  unfolding check_token
  verify_pubsub_oidc settings authorization = do
    require (not (is_empty (strip settings.audience) || is_empty (strip settings.service_account)))
        pubsub_authentication_unavailable 503
    check_token (strip settings.audience) (strip settings.service_account)
        (partition b' ' (or_empty authorization))

  abbrev fits_number : Option ℕ → Bool
  fits_number none = false
  fits_number (some n) = leb n max_push_envelope_bytes

  -- the test of the header `Content-Length`
  unfoldable pub fits_header : Option String → Bool
  fits_header none = true
  fits_header (some content_length) =
      is_empty content_length || fits_number (services.int content_length)

  abbrev pub fits_subscription : Option String → Bool
  fits_subscription none = true
  fits_subscription (some subscription) = leb (len subscription) 512

  abbrev pub valid_envelope : PushEnvelope → Bool
  valid_envelope e =
      leb 1 (len e.message_id) && leb (len e.message_id) 256 && fits_subscription e.subscription

  abbrev check_value : Bool → Result (Unit {0})
  check_value true = ok tt
  check_value false = err value_error

  -- the `try` of `parse_pubsub_signal`
  unfoldable pub parse_envelope : B → Result ParsedPubSubSignal
  parse_envelope raw = do
    envelope ← or_invalid (services.read_envelope raw) value_error
    check_value (valid_envelope envelope)
    decoded ← or_invalid (services.b64decode envelope.content) value_error
    check_value (leb (services.size decoded) max_signal_bytes)
    read ← or_invalid (services.read_payload decoded) value_error
    payload ← validate read
    ok (record {
      payload = payload;
      message_id = envelope.message_id;
      publish_time = envelope.publish_time;
      attributes = envelope.attributes;
    })

  -- `except (ValidationError, ValueError, …)`: other exceptions go on.
  abbrev pub as_invalid : Result ParsedPubSubSignal → Result ParsedPubSubSignal
  as_invalid (ok parsed) = ok parsed
  as_invalid (err value_error) = err (adapter agent_signal_invalid 400)
  as_invalid (err error) = err error

  unfoldable pub parse_pubsub_signal : PushRequest B → Result ParsedPubSubSignal
  unfolding parse_envelope fits_header
  parse_pubsub_signal request = do
    require (fits_header request.content_length) agent_signal_envelope_invalid 400
    require (leb (services.size request.body) max_push_envelope_bytes) agent_signal_envelope_invalid
        400
    as_invalid (parse_envelope request.body)
