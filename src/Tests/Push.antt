-- ===== src/Tests/Push.antt =====
-- A push delivery of a signal, where the body of a request is the signal itself.
use brunova_knowledge_gatewa.Prelude.{
  ℕ, String, ◌==◌, ◌≡◌, refl, inl, true, false, List, [], ◌∷◌, Option, none, some, if◌then◌else◌,
  arith,
}
use brunova_knowledge_gatewa.Prelude.Text.{
  is_empty, strip, lstrip, rstrip, is_space, partition, matches_after,
}
use brunova_knowledge_gatewa.Errors.{Error, ok, err, adapter, type_error, agent_signal_invalid}
use brunova_knowledge_gatewa.Exec.{Exec}
use brunova_knowledge_gatewa.Json.{Json, Items, text, boolean, array, lookup}
use brunova_knowledge_gatewa.Storage.Log.Promises.{log_store-IsObjectStore}
use brunova_knowledge_gatewa.Storage.Log.{write, LogState, object, log_upload, arrive}
use brunova_knowledge_gatewa.Signals.Backend
use brunova_knowledge_gatewa.Signals.Backend.{blob_name}
use brunova_knowledge_gatewa.Signals.Record.{
  SignalStatus, AgentSignalRecord, from_delivery, checked_delivery,
}
use brunova_knowledge_gatewa.Signals.Inbox.{Delivery, receive, existing}
use brunova_knowledge_gatewa.Signals.Inbox.Receiving.{IsReceived, receive-IsReceived}
use brunova_knowledge_gatewa.Tests.Inbox.{accepts, store, no_size}
use brunova_knowledge_gatewa.Signals.Payload.{
  AgentSignalPayload, validate, valid_fields, type_specific_contract, is_token,
}
use brunova_knowledge_gatewa.Push.{
  PushServices, PushSettings, PushRequest, PushEnvelope, ParsedPubSubSignal, verify_pubsub_oidc,
  check_token, check_identity, is_google_issuer, fits_header, parse_envelope, parse_pubsub_signal,
}
use brunova_knowledge_gatewa.Push.Route.{
  deliver, receive_agent_signal, IsAuthentic, IsSettled, receive_agent_signal-IsSettled,
  receive_agent_signal-unauthentic, receive_agent_signal-acknowledged,
  receive_agent_signal-unhashable,
}
use brunova_knowledge_gatewa.Tests.Signals.{attention, whatsapp, contact, conversation}

abbrev claims : List (String × Json)
claims =
    ("iss", text "accounts.google.com")
    ∷ ("email", text "push@brunova.iam")
    ∷ ("email_verified", boolean true)
    ∷ []

abbrev envelope : PushEnvelope
envelope = record {
  content = "e30=";
  message_id = "m-1";
  publish_time = none;
  attributes = [];
  subscription = none;
}

abbrev verified : String → Option (List (String × Json))
verified token = if token == "signed" then some claims else none

abbrev services : PushServices AgentSignalPayload
services = record {
  casefold = λ s. s;
  verify_oauth2_token = λ token audience. verified token;
  int = λ s. none;
  size = λ body. 100;
  read_envelope = λ body. some envelope;
  b64decode = λ s. none;
  read_payload = λ body. some body;
}

abbrev services_of : AgentSignalPayload → PushServices AgentSignalPayload
services_of p = record services { b64decode = λ s. some p }

abbrev settings : PushSettings
settings = record { audience = "gateway"; service_account = "push@brunova.iam" }

abbrev request : Option String → AgentSignalPayload → PushRequest AgentSignalPayload
request authorization p = record { authorization = authorization; content_length = none; body = p }

-- the state is the list of the ids that were received
abbrev inbox : ParsedPubSubSignal → Exec (List String) Delivery
inbox parsed s = (
  ok (record {
    signal_id = parsed.payload.signal_id;
    signal_type = parsed.payload.signal_type;
    created = true;
    status = SignalStatus.pending;
  }),
  parsed.payload.signal_id ∷ s,
)

abbrev signal : AgentSignalPayload
signal = record attention { reason = ("code", text "call") ∷ [] }

received :
    receive_agent_signal
      (some inbox)
      (services_of signal)
      settings
      (request (some "bearer signed") signal)
      []
    ≡ (ok 204, signal.signal_id ∷ [])
unfolding receive_agent_signal verify_pubsub_oidc check_token check_identity is_google_issuer
    parse_pubsub_signal parse_envelope fits_header deliver strip lstrip rstrip is_space partition
    validate valid_fields is_token matches_after type_specific_contract lookup
received = refl

receive_agent_signal-IsSettled_example :
    (◌≡◌ {A = ℕ} 204 204)
    × IsAuthentic (services_of signal) settings (some "bearer signed")
    × IsSettled
        (services_of signal)
        (some inbox)
        (request (some "bearer signed") signal)
        []
        (signal.signal_id ∷ [])
receive_agent_signal-IsSettled_example =
    receive_agent_signal-IsSettled (services_of signal) (some inbox) settings
      (request (some "bearer signed") signal) 204 [] (signal.signal_id ∷ []) received

unsigned : ¬ IsAuthentic (services_of signal) settings none
unfolding partition
unsigned a = cc a.4

receive_agent_signal-unauthentic_example :
    (error : Error) × (receive_agent_signal
        (some inbox)
        (services_of signal)
        settings
        (request none signal)
        []
      ≡ (err error, []))
receive_agent_signal-unauthentic_example =
    receive_agent_signal-unauthentic (services_of signal) (some inbox) settings
      (request none signal) [] unsigned

abbrev listed : AgentSignalPayload
listed = record (whatsapp (array Items.nil)) { reason = ("code", text "call") ∷ [] }

authorized : verify_pubsub_oidc (services_of listed) settings (some "bearer signed") ≡ ok claims
unfolding verify_pubsub_oidc check_token check_identity is_google_issuer strip lstrip rstrip
    is_space partition lookup
authorized = refl

no_length : fits_header (services_of listed) none ≡ true
unfolding fits_header
no_length = refl

well_formed : valid_fields listed ≡ true
unfolding valid_fields is_token matches_after
well_formed = refl

chat_type_listed : lookup "chat_type" listed.metadata ≡ some (array Items.nil)
unfolding lookup
chat_type_listed = refl

receive_agent_signal-unhashable_example :
    receive_agent_signal
      (some inbox)
      (services_of listed)
      settings
      (request (some "bearer signed") listed)
      []
    ≡ (err type_error, [])
receive_agent_signal-unhashable_example =
    receive_agent_signal-unhashable (services_of listed) (some inbox) settings
      (request (some "bearer signed") listed) claims envelope listed listed contact conversation
      Items.nil [] authorized no_length (omega arith) refl refl refl (omega arith) refl well_formed
      refl refl refl refl chat_type_listed

authentic : IsAuthentic services settings (some "bearer signed")
authentic =
    (receive_agent_signal-IsSettled (services_of signal) (some inbox) settings
      (request (some "bearer signed") signal) 204 [] (signal.signal_id ∷ []) received).1

undecodable :
    parse_pubsub_signal services (request (some "bearer signed") signal)
    ≡ err (adapter agent_signal_invalid 400)
unfolding parse_pubsub_signal parse_envelope fits_header
undecodable = refl

configured :
    (is_empty (strip settings.audience) ≡ false)
    × (is_empty (strip settings.service_account) ≡ false)
unfolding strip lstrip rstrip is_space
configured = (refl, refl)

receive_agent_signal-acknowledged_example :
    receive_agent_signal (some inbox) services settings (request (some "bearer signed") signal) []
    ≡ (ok 204, [])
receive_agent_signal-acknowledged_example =
    receive_agent_signal-acknowledged services (some inbox) settings
      (request (some "bearer signed") signal) [] [] configured.0 configured.1 authentic
      (inl (agent_signal_invalid, 400, undecodable, refl))

-- The signal is stored in an empty bucket.
abbrev empty : LogState AgentSignalRecord
empty = record { log = []; pending = []; now = 7 }

abbrev first : AgentSignalRecord
first = from_delivery signal "m-1" none [] 7

abbrev filled : LogState AgentSignalRecord
filled = record { log = write "signals/sig-1.json" first ∷ []; pending = []; now = 8 }

abbrev delivery : Delivery
delivery = record {
  signal_id = "sig-1";
  signal_type = "attention";
  created = true;
  status = SignalStatus.pending;
}

stored_first :
    receive store (λ r. r) some "signals/" no_size 300 1000 signal "m-1" none [] empty
    ≡ (ok delivery, filled)
unfolding receive existing checked_delivery from_delivery validate valid_fields is_token
    matches_after type_specific_contract Backend.create blob_name log_upload arrive object
stored_first = refl

receive-IsReceived_example :
    (time : ℕ) × (r : AgentSignalRecord) × ((store.clock empty).0 ≡ time)
    × (checked_delivery signal "m-1" none [] time ≡ ok r)
    × IsReceived store
        (λ x. x)
        some
        "signals/"
        no_size
        300
        1000
        (store.clock empty).1
        filled
        r
        delivery
receive-IsReceived_example =
    receive-IsReceived store (λ r. r) some "signals/" no_size 300 1000
      (log_store-IsObjectStore AgentSignalRecord accepts) signal "m-1" none [] delivery empty filled
      stored_first
