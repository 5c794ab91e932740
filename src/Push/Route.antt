-- ===== src/Push/Route.antt =====
-- The route /events/agent-signals of app/main.py, which verifies, parses and stores a delivery. The
-- inbox's `receive` is `receive`, or nothing where no inbox is configured; the audit records are
-- left out.
use brunova_knowledge_gatewa.Prelude.{
  ℕ, ◌≤◌, le→leb, String, ◌==◌, ◌≡◌, refl, sym, ap, ◌∙◌, ◌⊎◌, inl, inr, Bool, true, false, List,
  Option, none, some, elem, arith, eq_iff, eq_refl, not, ◌&&◌, ◌||◌,
}
use brunova_knowledge_gatewa.Prelude.Text.{is_empty, strip, partition}
use brunova_knowledge_gatewa.Errors.{
  type_error, Code, Error, Result, ok, err, adapter, require, >>=-eq-ok, ok-injective,
  agent_signal_inbox_unavailable, agent_signal_persistence_failed, invalid_pubsub_authentication,
  invalid_pubsub_identity, pubsub_authentication_unavailable,
}
use brunova_knowledge_gatewa.Exec
use brunova_knowledge_gatewa.Exec.{Exec, pure, raise, lift, bind-eq-ok}
use brunova_knowledge_gatewa.Json.{Json, lookup, text, boolean, array, object, Items}
use brunova_knowledge_gatewa.Signals.Inbox.{Delivery}
use brunova_knowledge_gatewa.Signals.Payload.{
  AgentSignalPayload, WhatsAppContact, WhatsAppConversation, valid_fields, validate,
}
use brunova_knowledge_gatewa.Signals.Payload.Contract.{whatsapp_unhashable}
use brunova_knowledge_gatewa.Push.{
  PushEnvelope, fits_header, valid_envelope, max_push_envelope_bytes, max_signal_bytes,
  parse_envelope, PushServices, PushSettings, PushRequest, ParsedPubSubSignal, is_google_issuer,
  check_identity, check_token, verify_pubsub_oidc, parse_pubsub_signal, valid_google_issuers,
  or_invalid, or_empty, is_text, is_true,
}

-- the status code of the response
abbrev pub Status : Type 0
Status = ℕ

abbrev pub as_persistence_error : Error → Error
as_persistence_error (adapter code status) = adapter code status
as_persistence_error _ = adapter agent_signal_persistence_failed 503

module _ {S : Type 0} where
  abbrev pub stored : Result Delivery × S → Result Status × S
  stored (ok delivery, s) = (ok 204, s)
  stored (err error, s) = (err (as_persistence_error error), s)

  abbrev pub receive_with :
      Option (ParsedPubSubSignal → Exec S Delivery) → ParsedPubSubSignal → Exec S Delivery
  receive_with none parsed = raise (adapter agent_signal_inbox_unavailable 503)
  receive_with (some receive) parsed = receive parsed

  module _ (receive : Option (ParsedPubSubSignal → Exec S Delivery)) where
    -- What the parsing gave: a `WorkspaceAdapterError` is acknowledged.
    unfoldable pub deliver : Result ParsedPubSubSignal → Exec S Status
    deliver (ok parsed) s = stored (receive_with receive parsed s)
    deliver (err (adapter code status)) s = pure 204 s
    deliver (err error) s = raise error s

    unfoldable pub receive_agent_signal :
        {B : Type 0} → PushServices B → PushSettings → PushRequest B → Exec S Status
    unfolding deliver
    receive_agent_signal services settings request =
        Exec.◌>>=◌ (lift (verify_pubsub_oidc services settings request.authorization))
          (λ claims. deliver (parse_pubsub_signal services request))

require-eq-ok : (b : Bool) (code : Code) (n : ℕ) (u : Unit {0}) → require b code n ≡ ok u → b ≡ true
require-eq-ok true code n u h = refl
require-eq-ok false code n u h = cc

-- Google's token for the configured service account: the header is a bearer token that
-- was verified for the audience, and its claims name Google and the verified address of the account.
abbrev pub IsAuthentic : {B : Type 0} → PushServices B → PushSettings → Option String → Type 0
IsAuthentic services settings authorization =
    (scheme : String) × (token : String) × (claims : List (String × Json)) × (issuer : String)
    × (partition b' ' (or_empty authorization) ≡ some (scheme, token))
    × (services.casefold scheme ≡ "bearer")
    × (is_empty token ≡ false)
    × (services.verify_oauth2_token token (strip settings.audience) ≡ some claims)
    × (lookup "iss" claims ≡ some (text issuer))
    × (elem issuer valid_google_issuers ≡ true)
    × (lookup "email" claims ≡ some (text (strip settings.service_account)))
    × (lookup "email_verified" claims ≡ some (boolean true))

google_issuer :
    (issuer : Option Json) (b : Bool)
    → is_google_issuer issuer ≡ ok b
    → b ≡ true
    → (t : String) × (issuer ≡ some (text t)) × (elem t valid_google_issuers ≡ true)
unfolding is_google_issuer
google_issuer none b h e = cc
google_issuer (some (text t)) b h e = (t, refl, ok-injective h ∙ e)
google_issuer (some (array items)) b h e = cc
google_issuer (some (object fields)) b h e = cc
google_issuer (some Json.null) b h e = cc
google_issuer (some (boolean c)) b h e = cc
google_issuer (some (Json.number n)) b h e = cc

is_text_given : (s : String) (j : Option Json) → is_text s j ≡ true → j ≡ some (text s)
is_text_given s none h = cc
is_text_given s (some (text t)) h = ap (λ x. some (text x)) ((eq_iff t s).0 h)
is_text_given s (some j) h = cc

is_true_given : (j : Option Json) → is_true j ≡ true → j ≡ some (boolean true)
is_true_given none h = cc
is_true_given (some (boolean b)) h = ap (λ x. some (boolean x)) h
is_true_given (some j) h = cc

module _ {B : Type 0} (services : PushServices B) where
  check_identity-eq-ok :
      (email : String) (claims result : List (String × Json))
      → check_identity email claims ≡ ok result
      → (issuer : String) × (lookup "iss" claims ≡ some (text issuer))
        × (elem issuer valid_google_issuers ≡ true)
        × (lookup "email" claims ≡ some (text email))
        × (lookup "email_verified" claims ≡ some (boolean true))
  unfolding check_identity
  check_identity-eq-ok email claims result h =
      let (google, e, h1) = >>=-eq-ok (is_google_issuer (lookup "iss" claims)) _ h in
      let (u, e1, h2) =
        >>=-eq-ok
          (require
            (google
              && is_text email (lookup "email" claims)
              && is_true (lookup "email_verified" claims))
            invalid_pubsub_identity 403)
          _ h1 in
      let passed = require-eq-ok _ invalid_pubsub_identity 403 u e1 in
      let (issuer, given, known) = google_issuer (lookup "iss" claims) google e (ground arith) in
      (
        issuer,
        given,
        known,
        is_text_given email (lookup "email" claims) (ground arith),
        is_true_given (lookup "email_verified" claims) (ground arith),
      )

  check_token-eq-ok :
      (settings : PushSettings) (authorization : Option String) (o : Option (String × String))
      (result : List (String × Json))
      → partition b' ' (or_empty authorization) ≡ o
      → check_token services (strip settings.audience) (strip settings.service_account) o
        ≡ ok result
      → IsAuthentic services settings authorization
  unfolding check_token
  check_token-eq-ok settings authorization none result p h = cc
  check_token-eq-ok settings authorization (some (scheme, token)) result p h =
      let audience = strip settings.audience in
      let (u, e, h1) =
        >>=-eq-ok
          (require (services.casefold scheme == "bearer" && not (is_empty token))
            invalid_pubsub_authentication 401)
          _ h in
      let bearer = require-eq-ok _ invalid_pubsub_authentication 401 u e in
      let (claims, e1, h2) =
        >>=-eq-ok
          (or_invalid (services.verify_oauth2_token token audience)
            (adapter invalid_pubsub_authentication 401))
          _ h1 in
      let (issuer, given, known, email, verified) =
        check_identity-eq-ok (strip settings.service_account) claims result h2 in
      (
        scheme,
        token,
        claims,
        issuer,
        p,
        ground (arith, eq_iff (services.casefold scheme) "bearer"),
        ground arith,
        given_claims (services.verify_oauth2_token token audience) claims e1,
        given,
        known,
        email,
        verified,
      )
    where
      given_claims :
          (o : Option (List (String × Json))) (c : List (String × Json))
          → or_invalid o (adapter invalid_pubsub_authentication 401) ≡ ok c
          → o ≡ some c
      given_claims none c k = cc
      given_claims (some d) c k = ap some (ok-injective k)

  verify_pubsub_oidc-IsAuthentic :
      (settings : PushSettings) (authorization : Option String) (claims : List (String × Json))
      → verify_pubsub_oidc services settings authorization ≡ ok claims
      → IsAuthentic services settings authorization
  unfolding verify_pubsub_oidc
  verify_pubsub_oidc-IsAuthentic settings authorization claims h =
      let (u, e, h1) =
        >>=-eq-ok
          (require
            (not (is_empty (strip settings.audience) || is_empty (strip settings.service_account)))
            pubsub_authentication_unavailable 503)
          _ h in
      check_token-eq-ok settings authorization (partition b' ' (or_empty authorization)) claims refl
        h1

  IsAuthentic-verified :
      (settings : PushSettings) (authorization : Option String)
      → is_empty (strip settings.audience) ≡ false
      → is_empty (strip settings.service_account) ≡ false
      → IsAuthentic services settings authorization
      → (claims : List (String × Json)) × (verify_pubsub_oidc services settings authorization
          ≡ ok claims)
  unfolding verify_pubsub_oidc check_token check_identity is_google_issuer
  IsAuthentic-verified settings authorization audience account
        (scheme, token, claims, issuer, split, bearer, full, verified, iss, known, email, checked) =
      (
        claims,
        simp (
          audience,
          account,
          split,
          bearer,
          full,
          verified,
          iss,
          known,
          email,
          checked,
          eq_refl (strip settings.service_account),
        ),
      )

  module _ {S : Type 0} (receive : Option (ParsedPubSubSignal → Exec S Delivery)) where
    -- How a delivery that was acknowledged ended: its content is refused for good and nothing was
    -- stored, or the inbox returned for it.
    abbrev pub IsSettled : PushRequest B → S → S → Type 0
    IsSettled request s s' =
        ((code : Code) × (status : ℕ) × (parse_pubsub_signal services request
            ≡ err (adapter code status))
          × (s ≡ s'))
        ⊎ ((parsed : ParsedPubSubSignal) × (inbox : ParsedPubSubSignal → Exec S Delivery)
            × (delivery : Delivery) × (parse_pubsub_signal services request ≡ ok parsed)
            × (receive ≡ some inbox)
            × (inbox parsed s ≡ (ok delivery, s')))

    received :
        (o : Option (ParsedPubSubSignal → Exec S Delivery)) (parsed : ParsedPubSubSignal)
        (x : Result Delivery × S) (status : Status) (s s' : S)
        → receive_with o parsed s ≡ x
        → stored x ≡ (ok status, s')
        → (status ≡ 204)
          × (inbox : ParsedPubSubSignal → Exec S Delivery) × (delivery : Delivery) × (o
              ≡ some inbox)
          × (inbox parsed s ≡ (ok delivery, s'))
    received none parsed (ok d, t) status s s' e h = cc
    received none parsed (err x, t) status s s' e h = cc
    received (some inbox) parsed (ok d, t) status s s' e h = (
      sym (ok-injective (ap (λ y. y.0) h)),
      inbox,
      d,
      refl,
      e ∙ ap (λ (y : S). (ok d, y)) (ap (λ y. y.1) h),
    )
    received (some inbox) parsed (err x, t) status s s' e h = cc

    deliver-IsSettled :
        (request : PushRequest B) (s s' : S) (status : Status) (r : Result ParsedPubSubSignal)
        → parse_pubsub_signal services request ≡ r
        → deliver receive r s ≡ (ok status, s')
        → (status ≡ 204) × IsSettled request s s'
    unfolding deliver
    deliver-IsSettled request s s' status (ok parsed) p h =
        let (done, inbox, delivery, there, returned) =
          received receive parsed (receive_with receive parsed s) status s s' refl h in
        (done, inr (parsed, inbox, delivery, p, there, returned))
    deliver-IsSettled request s s' status (err (adapter code n)) p h =
        (sym (ok-injective (ap (λ x. x.0) h)), inl (code, n, p, ap (λ x. x.1) h))
    deliver-IsSettled request s s' status (err e) p h = cc

    -- A delivery that is acknowledged has status 204 and is authentic; it was either refused for its content, with
    -- nothing stored, or the inbox returned for what was parsed of it.
    pub receive_agent_signal-IsSettled :
        (settings : PushSettings) (request : PushRequest B) (status : Status) (s s' : S)
        → receive_agent_signal receive services settings request s ≡ (ok status, s')
        → (status ≡ 204)
          × IsAuthentic services settings request.authorization
          × IsSettled request s s'
    unfolding receive_agent_signal
    receive_agent_signal-IsSettled settings request status s s' h =
        let (claims, s1, e, h1) =
          bind-eq-ok (lift (verify_pubsub_oidc services settings request.authorization))
            (λ c. deliver receive (parse_pubsub_signal services request)) s s' status h in
        let (done, settled) =
          deliver-IsSettled request s1 s' status (parse_pubsub_signal services request) refl h1 in
        (
          done,
          verify_pubsub_oidc-IsAuthentic settings request.authorization claims (ap (λ x. x.0) e),
          rw (ap (λ x. x.1) e) settled,
        )

    -- A delivery that is not authentic is never stored: the request ends in an exception, and nothing
    -- has changed.
    pub receive_agent_signal-unauthentic :
        (settings : PushSettings) (request : PushRequest B) (s : S)
        → ¬ IsAuthentic services settings request.authorization
        → (error : Error) × (receive_agent_signal receive services settings request s
            ≡ (err error, s))
    unfolding receive_agent_signal
    receive_agent_signal-unauthentic settings request s foreign =
        refused (verify_pubsub_oidc services settings request.authorization) refl
      where
        refused :
            (r : Result (List (String × Json)))
            → verify_pubsub_oidc services settings request.authorization ≡ r
            → (error : Error) × (receive_agent_signal receive services settings request s
                ≡ (err error, s))
        refused (ok claims) e =
            absurd
              (foreign (verify_pubsub_oidc-IsAuthentic settings request.authorization claims e))
        refused (err error) e = (error, rw e)

    -- An authentic delivery whose content is a WhatsApp signal with a list as its `chat_type`, and is
    -- fine until there, is not acknowledged as refused for good: the request ends in a `TypeError`.
    pub receive_agent_signal-unhashable :
        (settings : PushSettings) (request : PushRequest B) (claims : List (String × Json))
        (envelope : PushEnvelope) (decoded : B) (p : AgentSignalPayload) (contact : WhatsAppContact)
        (conversation : WhatsAppConversation) (items : Items) (s : S)
        → verify_pubsub_oidc services settings request.authorization ≡ ok claims
        → fits_header services request.content_length ≡ true
        → services.size request.body ≤ max_push_envelope_bytes
        → services.read_envelope request.body ≡ some envelope
        → valid_envelope services envelope ≡ true
        → services.b64decode envelope.content ≡ some decoded
        → services.size decoded ≤ max_signal_bytes
        → services.read_payload decoded ≡ some p
        → valid_fields p ≡ true
        → p.signal_type ≡ "whatsapp_attention_required"
        → p.source ≡ "openwa"
        → p.contact ≡ some contact
        → p.conversation ≡ some conversation
        → lookup "chat_type" p.metadata ≡ some (array items)
        → receive_agent_signal receive services settings request s ≡ (err type_error, s)
    unfolding receive_agent_signal parse_pubsub_signal parse_envelope validate deliver
    receive_agent_signal-unhashable settings request claims envelope decoded p contact conversation
          items s verified header size read valid base64 fits payload fields type source there
          opened listed =
        simp (
          verified,
          header,
          le→leb _ _ size,
          read,
          valid,
          base64,
          le→leb _ _ fits,
          payload,
          fields,
          whatsapp_unhashable p contact conversation items type source there opened listed,
        )

    stored_returned :
        (parsed : ParsedPubSubSignal) (inbox : ParsedPubSubSignal → Exec S Delivery)
        (delivery : Delivery) (s s' : S)
        → receive ≡ some inbox
        → inbox parsed s ≡ (ok delivery, s')
        → stored (receive_with receive parsed s) ≡ (ok 204, s')
    stored_returned parsed inbox delivery s s' there returned = rw there (rw returned refl)

    -- Where the push authentication is configured, an authentic delivery is acknowledged whenever its
    -- content is refused for good, or the inbox returns for what is parsed of it.
    pub receive_agent_signal-acknowledged :
        (settings : PushSettings) (request : PushRequest B) (s s' : S)
        → is_empty (strip settings.audience) ≡ false
        → is_empty (strip settings.service_account) ≡ false
        → IsAuthentic services settings request.authorization
        → IsSettled request s s'
        → receive_agent_signal receive services settings request s ≡ (ok 204, s')
    unfolding receive_agent_signal deliver
    receive_agent_signal-acknowledged settings request s s' audience account authentic settled =
        let (claims, verified) =
          IsAuthentic-verified settings request.authorization audience account authentic in
        elim settled [
          | inl (code, status, refused, same) ↦
              rw verified (rw refused (ap (λ (x : S). (ok 204, x)) same))
          | inr (parsed, inbox, delivery, read, there, returned) ↦
              rw verified (rw read (stored_returned parsed inbox delivery s s' there returned))
        ]
