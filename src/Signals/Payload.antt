-- ===== src/Signals/Payload.antt =====
-- `AgentSignalPayload` of app/agent_signals.py: the common contract of a signal and its two
-- type-specific extensions. `ValueError` stands for every refusal that pydantic reports; the
-- `schema_version` admits one value and is left out, and so is the test that `occurred_at` has a
-- timezone, since an instant is a number here.
pub mod Contract
use brunova_knowledge_gatewa.Prelude.{
  ℕ, String, ◌==◌, Bool, true, false, not, ◌&&◌, ◌||◌, List, [], ◌∷◌, Option, none, some, all, elem,
  leb, length, eqb, if◌then◌else◌,
}
use brunova_knowledge_gatewa.Prelude.Text.{
  len, is_empty, strip, matches_after, is_alnum, is_lower, is_upper, is_digit, append,
}
use brunova_knowledge_gatewa.Errors.{Result, ok, err, value_error, type_error, ◌>>=◌, ◌>>◌}
use brunova_knowledge_gatewa.Json.{Json, boolean, text, array, object, lookup, put, keys}

pub data SignalPriority : Type 0 where
  attention urgent : SignalPriority

pub record WhatsAppContact : Type 0 where
  pub sender_phone : String
  pub sender_name : String
  pub hubspot_contact_id : Option String

pub record WhatsAppConversation : Type 0 where
  pub session_id : String
  pub chat_id : String
  pub message_id : String

pub record AgentSignalPayload : Type 0 where
  pub signal_id : String
  pub signal_type : String
  pub priority : SignalPriority
  pub occurred_at : ℕ
  pub source : String
  pub reason : List (String × Json)
  pub references : List (String × String)
  pub metadata : List (String × Json)
  pub actor_type : Option String
  pub actor_id : Option String
  pub contact : Option WhatsAppContact
  pub conversation : Option WhatsAppConversation
  pub preview : Option String

-- [A-Za-z0-9._:-]
abbrev pub is_token_char : ℕ → Bool
is_token_char c = is_alnum c || eqb c b'.' || eqb c b'_' || eqb c b':' || eqb c b'-'

-- ^[A-Za-z0-9][A-Za-z0-9._:-]{0,n}$
unfoldable pub is_token : ℕ → String → Bool
unfolding matches_after
is_token n = matches_after is_alnum is_token_char 0 n

abbrev when_given : {A : Type 0} → (A → Bool) → Option A → Bool
when_given p none = true
when_given p (some a) = p a

abbrev is_sized : ℕ → ℕ → String → Bool
is_sized lo hi s = leb lo (len s) && leb (len s) hi

abbrev valid_contact : WhatsAppContact → Bool
valid_contact c =
    is_sized 1 64 c.sender_phone
    && is_sized 1 256 c.sender_name
    && when_given (is_sized 0 128) c.hubspot_contact_id

abbrev valid_conversation : WhatsAppConversation → Bool
valid_conversation c =
    is_sized 1 256 c.session_id && is_sized 1 256 c.chat_id && is_sized 1 256 c.message_id

-- the constraints of the fields
unfoldable pub valid_fields : AgentSignalPayload → Bool
unfolding is_token matches_after
valid_fields p =
    is_token 127 p.signal_id
    && matches_after is_lower (λ c. is_lower c || is_digit c || eqb c b'_') 2 127 p.signal_type
    && matches_after is_lower (λ c. is_lower c || is_digit c || eqb c b'_' || eqb c b'-') 1 63
        p.source
    && leb 1 (length p.reason)
    && when_given (matches_after is_upper (λ c. is_upper c || is_digit c || eqb c b'_') 2 63)
        p.actor_type
    && when_given (is_token 199) p.actor_id
    && when_given valid_contact p.contact
    && when_given valid_conversation p.conversation
    && when_given (is_sized 0 500) p.preview

abbrev pub ensure : Bool → Result (Unit {0})
ensure true = ok tt
ensure false = err value_error

abbrev pub chat_types : List String
chat_types = "direct" ∷ "group" ∷ "unknown" ∷ []

-- `metadata.get("chat_type") not in {…}`: a list or an object has no hash, and raises `TypeError`.
unfoldable pub check_chat_type : Option Json → Result (Unit {0})
check_chat_type (some (text t)) = ensure (elem t chat_types)
check_chat_type (some (array items)) = err type_error
check_chat_type (some (object fields)) = err type_error
check_chat_type _ = err value_error

-- isinstance(metadata.get("is_test"), bool)
abbrev pub is_boolean : Option Json → Bool
is_boolean (some (boolean b)) = true
is_boolean _ = false

abbrev pub contact_reference : Option String → List (String × String)
contact_reference none = []
contact_reference (some id) = if is_empty id then [] else ("hubspot_contact_id", id) ∷ []

-- expected_references
unfoldable pub expected_references : WhatsAppContact → WhatsAppConversation → List (String × String)
expected_references contact conversation =
    ("session_id", conversation.session_id)
    ∷ ("chat_id", conversation.chat_id)
    ∷ ("message_id", conversation.message_id)
    ∷ contact_reference contact.hubspot_contact_id

abbrev agrees : Option String → String → Bool
agrees none value = true
agrees (some existing) value = existing == value

-- the loop that completes `references`
unfoldable pub bind_references :
    List (String × String) → List (String × String) → Result (List (String × String))
unfolding lookup put
bind_references [] references = ok references
bind_references ((key, value) ∷ expected) references =
    let rest = bind_references expected (put key value references) in
    if agrees (lookup key references) value then rest else err value_error

unfoldable pub whatsapp_references :
    Option WhatsAppContact
    → Option WhatsAppConversation
    → List (String × Json)
    → List (String × String)
    → Result (List (String × String))
whatsapp_references (some contact) (some conversation) metadata references = do
  check_chat_type (lookup "chat_type" metadata)
  ensure (is_boolean (lookup "is_test" metadata))
  bind_references (expected_references contact conversation) references
whatsapp_references _ _ metadata references = err value_error

abbrev is_given : {A : Type 0} → Option A → Bool
is_given none = false
is_given (some a) = true

abbrev is_text : Option String → String → Bool
is_text none s = false
is_text (some t) s = t == s

-- reason == {"code": "authoritative_work_available"}
abbrev is_wake_reason : List (String × Json) → Bool
is_wake_reason ((key, text value) ∷ []) = key == "code" && value == "authoritative_work_available"
is_wake_reason _ = false

abbrev wake_keys : List String
wake_keys = "work_item_id" ∷ "command_id" ∷ "correlation_id" ∷ []

-- set(references) == {"work_item_id", "command_id", "correlation_id"}
abbrev has_wake_keys : List (String × String) → Bool
has_wake_keys references =
    all (λ k. elem k wake_keys) (keys references) && all (λ k. elem k (keys references)) wake_keys

-- f"acquisition:{work_item_id}:ready:v1"
unfoldable pub wake_id : String → String
wake_id work_item_id = append "acquisition:" (append work_item_id ":ready:v1")

abbrev pub is_wake_id : String → Option String → Bool
is_wake_id signal_id none = false
is_wake_id signal_id (some work_item_id) = signal_id == wake_id work_item_id

abbrev has_wake_actor : Option String → Option String → Bool
has_wake_actor actor_type actor_id =
    (is_text actor_type "HUMAN_PORTAL" || is_text actor_type "PANCRACIO_GATEWAY")
    && is_given actor_id
    && (not (is_text actor_type "PANCRACIO_GATEWAY") || is_text actor_id "pancracio:gateway")

-- the checks of an `acquisition_work_available` signal before its references
unfoldable pub valid_wake : AgentSignalPayload → Bool
valid_wake p =
    p.source == "brunova_acquisition_portal"
    && has_wake_actor p.actor_type p.actor_id
    && is_wake_reason p.reason
    && eqb (length p.metadata) 0
    && not (is_given p.contact || is_given p.conversation || is_given p.preview)

-- the checks of its references
unfoldable pub valid_wake_references : List (String × String) → Bool
unfolding is_token
valid_wake_references references =
    has_wake_keys references && all (λ e. is_token 199 e.1) references

unfoldable pub valid_acquisition : AgentSignalPayload → Bool
valid_acquisition p =
    valid_wake p
    && valid_wake_references p.references
    && is_wake_id p.signal_id (lookup "work_item_id" p.references)

-- validate_type_specific_contract
unfoldable pub type_specific_contract : AgentSignalPayload → Result AgentSignalPayload
type_specific_contract p =
    if p.signal_type == "whatsapp_attention_required"
    then (do
      ensure (p.source == "openwa")
      references ← whatsapp_references p.contact p.conversation p.metadata p.references
      ok (record p { references = references }))
    else if p.signal_type == "acquisition_work_available"
    then (do ensure (valid_acquisition p); ok p)
    else ok p

-- model_validate: the fields, then the contract
unfoldable pub validate : AgentSignalPayload → Result AgentSignalPayload
unfolding type_specific_contract
validate p = do ensure (valid_fields p); type_specific_contract p
