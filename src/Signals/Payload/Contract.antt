-- ===== src/Signals/Payload/Contract.antt =====
-- The type-specific contract of app/agent_signals.py: what a validated signal refers to.
use brunova_knowledge_gatewa.Prelude.{
  String, ◌==◌, ◌≡◌, refl, Bool, true, false, List, [], ◌∷◌, Option, none, some, arith, eq_iff,
  eq_refl, Bool-cases, inl, inr, if◌then◌else◌, ap, sym, ◌∙◌, subst,
}
use brunova_knowledge_gatewa.Errors.{ok, err, type_error, >>=-eq-ok, ok-injective, ◌>>◌}
use brunova_knowledge_gatewa.Json.{Json, Items, array, lookup, put, lookup-put, put_same}
use brunova_knowledge_gatewa.Prelude.Text.{is_empty}
use brunova_knowledge_gatewa.Signals.Payload.{
  contact_reference, AgentSignalPayload, WhatsAppContact, WhatsAppConversation, bind_references,
  expected_references, whatsapp_references, type_specific_contract, check_chat_type, is_boolean,
  ensure, wake_id, is_wake_id, valid_acquisition,
}

-- Every entry of `expected` is among `references`, with its value.
abbrev pub Includes : List (String × String) → List (String × String) → Type 0
Includes references [] = Unit
Includes references ((key, value) ∷ expected) =
    (lookup key references ≡ some value) × Includes references expected

-- A binding that succeeds keeps every reference that was there.
bind_references_keeps :
    (expected references result : List (String × String)) (key value : String)
    → bind_references expected references ≡ ok result
    → lookup key references ≡ some value
    → lookup key result ≡ some value
unfolding bind_references
bind_references_keeps [] references result key value h k = ground arith
bind_references_keeps ((j, v) ∷ expected) references result key value h k = ground (
  arith,
  bind_references_keeps expected (put j v references) result key value,
  lookup-put j key v references,
  eq_iff j key,
  eq_iff value v,
)

-- After a binding the references include every expected entry.
bind_references-Includes :
    (expected references result : List (String × String))
    → bind_references expected references ≡ ok result
    → Includes result expected
unfolding bind_references
bind_references-Includes [] references result h = tt
bind_references-Includes ((j, v) ∷ expected) references result h = (
  bind_references_keeps expected (put j v references) result j v (ground arith)
      (ground (arith, lookup-put j j v references, eq_refl j)),
  bind_references-Includes expected (put j v references) result (ground arith),
)

bind_references_fixed :
    (expected references : List (String × String))
    → Includes references expected
    → bind_references expected references ≡ ok references
unfolding bind_references
bind_references_fixed [] references h = refl
bind_references_fixed ((j, v) ∷ expected) references (here, h) =
    rw (put_same j v references here)
      (ground (arith, eq_refl v, bind_references_fixed expected references h))

whatsapp_references_sound :
    (contact : WhatsAppContact) (conversation : WhatsAppConversation)
    (metadata : List (String × Json)) (references result : List (String × String))
    → whatsapp_references (some contact) (some conversation) metadata references ≡ ok result
    → bind_references (expected_references contact conversation) references ≡ ok result
unfolding whatsapp_references
whatsapp_references_sound contact conversation metadata references result h =
    let (_, typed, h1) = >>=-eq-ok (check_chat_type (lookup "chat_type" metadata)) _ h in
    let (_, tested, h2) = >>=-eq-ok (ensure (is_boolean (lookup "is_test" metadata))) _ h1 in h2

whatsapp_references_again :
    (contact : Option WhatsAppContact) (conversation : Option WhatsAppConversation)
    (metadata : List (String × Json)) (references result : List (String × String))
    → whatsapp_references contact conversation metadata references ≡ ok result
    → whatsapp_references contact conversation metadata result ≡ ok result
unfolding whatsapp_references
whatsapp_references_again none conversation metadata references result h = cc
whatsapp_references_again (some contact) none metadata references result h = cc
whatsapp_references_again (some contact) (some conversation) metadata references result h =
    let bound = whatsapp_references_sound contact conversation metadata references result h in
    let fixed =
      bind_references_fixed (expected_references contact conversation) result
        (bind_references-Includes _ references result bound) in
    let (_, typed, h1) = >>=-eq-ok (check_chat_type (lookup "chat_type" metadata)) _ h in
    let (_, tested, h2) = >>=-eq-ok (ensure (is_boolean (lookup "is_test" metadata))) _ h1 in
    rw (typed, tested) fixed

whatsapp_given :
    (contact : Option WhatsAppContact) (conversation : Option WhatsAppConversation)
    (metadata : List (String × Json)) (references result : List (String × String))
    → whatsapp_references contact conversation metadata references ≡ ok result
    → (c : WhatsAppContact) × (d : WhatsAppConversation) × (contact ≡ some c)
      × (conversation ≡ some d)
      × (bind_references (expected_references c d) references ≡ ok result)
unfolding whatsapp_references
whatsapp_given none conversation metadata references result h = cc
whatsapp_given (some contact) none metadata references result h = cc
whatsapp_given (some contact) (some conversation) metadata references result h = (
  contact,
  conversation,
  refl,
  refl,
  whatsapp_references_sound contact conversation metadata references result h,
)

-- Outside the WhatsApp extension a validated signal is the signal itself.
unchanged :
    (p result : AgentSignalPayload) (acquisition valid : Bool)
    → (if acquisition then ensure valid >> ok p else ok p) ≡ ok result
    → p ≡ result
unchanged p result true true h = ok-injective h
unchanged p result true false h = cc
unchanged p result false valid h = ok-injective h

-- A validated WhatsApp signal is the signal with its references bound.
record IsBound (p result : AgentSignalPayload) : Type 0 where
  references : List (String × String)
  opened : ensure (p.source == "openwa") ≡ ok tt
  bound : whatsapp_references p.contact p.conversation p.metadata p.references ≡ ok references
  same : record p { references = references } ≡ result

whatsapp-IsBound :
    (p result : AgentSignalPayload)
    → (p.signal_type == "whatsapp_attention_required") ≡ true
    → type_specific_contract p ≡ ok result
    → IsBound p result
unfolding type_specific_contract
whatsapp-IsBound p result whatsapp h =
    let (_, opened, h1) =
      >>=-eq-ok (ensure (p.source == "openwa")) _ (rw (whatsapp, type_specific_contract) at h) in
    let (references, bound, same) =
      >>=-eq-ok (whatsapp_references p.contact p.conversation p.metadata p.references) _ h1 in
    record { references = references; opened = opened; bound = bound; same = ok-injective same }

-- Validating a validated signal again, as every read from the store does, changes nothing.
pub type_specific_contract_idem :
    (p result : AgentSignalPayload)
    → type_specific_contract p ≡ ok result
    → type_specific_contract result ≡ ok result
unfolding type_specific_contract
type_specific_contract_idem p result h =
    elim (Bool-cases (p.signal_type == "whatsapp_attention_required")) [
      | inr other ↦
          let same =
            unchanged p result _ (valid_acquisition p) (rw (other, type_specific_contract) at h) in
          subst (λ r. type_specific_contract r ≡ ok r) same (h ∙ sym (ap ok same))
      | inl whatsapp ↦
          let b = whatsapp-IsBound p result whatsapp h in
          let again =
            whatsapp_references_again p.contact p.conversation p.metadata p.references b.references
              b.bound in
          subst (λ r. type_specific_contract r ≡ ok r) b.same (rw (whatsapp, b.opened, again))
    ]

first_named :
    (references : List (String × String)) (id : String)
    → is_empty id ≡ false
    → Includes references (contact_reference (some id))
    → lookup "hubspot_contact_id" references ≡ some id
first_named references String.[] full h = cc
first_named references (String.◌∷◌ c s) full h = h.0

contact_named :
    (references : List (String × String)) (given : Option String) (id : String)
    → Includes references (contact_reference given)
    → given ≡ some id
    → is_empty id ≡ false
    → lookup "hubspot_contact_id" references ≡ some id
contact_named references none id h e full = cc
contact_named references (some x) id h e full =
    let same : x ≡ id = ap (elim [ none ↦ x | some y ↦ y ]) e in
    let named : Includes references (contact_reference (some id)) =
      subst (λ y. Includes references (contact_reference (some y))) same h in
    first_named references id full named

-- A validated WhatsApp signal has a contact and a conversation, and its references name the
-- conversation's session, chat and message, and the contact's HubSpot id if there is one that is not
-- empty.
pub whatsapp_contract :
    (p result : AgentSignalPayload)
    → p.signal_type ≡ "whatsapp_attention_required"
    → type_specific_contract p ≡ ok result
    → (contact : WhatsAppContact) × (conversation : WhatsAppConversation) × (p.contact
        ≡ some contact)
      × (p.conversation ≡ some conversation)
      × (lookup "session_id" result.references ≡ some conversation.session_id)
      × (lookup "chat_id" result.references ≡ some conversation.chat_id)
      × (lookup "message_id" result.references ≡ some conversation.message_id)
      × ((id : String)
          → contact.hubspot_contact_id ≡ some id
          → is_empty id ≡ false
          → lookup "hubspot_contact_id" result.references ≡ some id)
unfolding expected_references
whatsapp_contract p result type h =
    let b = whatsapp-IsBound p result ((eq_iff _ _).1 type) h in
    let (contact, conversation, here, there, bound) =
      whatsapp_given p.contact p.conversation p.metadata p.references b.references b.bound in
    let (session, (chat, (message, named))) =
      subst (λ r. Includes r.references (expected_references contact conversation)) b.same
        (bind_references-Includes (expected_references contact conversation) p.references
          b.references bound) in
    (
      contact,
      conversation,
      here,
      there,
      session,
      chat,
      message,
      λ id given full.
          contact_named result.references contact.hubspot_contact_id id named given full,
    )

-- A validated WhatsApp signal keeps every reference that it came with.
pub whatsapp_keeps :
    (p result : AgentSignalPayload) (key value : String)
    → p.signal_type ≡ "whatsapp_attention_required"
    → type_specific_contract p ≡ ok result
    → lookup key p.references ≡ some value
    → lookup key result.references ≡ some value
whatsapp_keeps p result key value type h found =
    let b = whatsapp-IsBound p result ((eq_iff _ _).1 type) h in
    let (contact, conversation, here, there, bound) =
      whatsapp_given p.contact p.conversation p.metadata p.references b.references b.bound in
    subst (λ r. lookup key r.references ≡ some value) b.same
      (bind_references_keeps (expected_references contact conversation) p.references b.references
        key value bound found)

-- A WhatsApp signal whose `chat_type` is a list is not refused as invalid: the membership test
-- raises `TypeError`, which pydantic does not report.
pub whatsapp_unhashable :
    (p : AgentSignalPayload) (contact : WhatsAppContact) (conversation : WhatsAppConversation)
    (items : Items)
    → p.signal_type ≡ "whatsapp_attention_required"
    → p.source ≡ "openwa"
    → p.contact ≡ some contact
    → p.conversation ≡ some conversation
    → lookup "chat_type" p.metadata ≡ some (array items)
    → type_specific_contract p ≡ err type_error
unfolding type_specific_contract
whatsapp_unhashable p contact conversation items type source here there listed =
    simp (type, source, here, there) (unfold whatsapp_references check_chat_type in simp listed)

checked :
    (p result : AgentSignalPayload) (valid : Bool)
    → (ensure valid >> ok p) ≡ ok result
    → (valid ≡ true) × (p ≡ result)
checked p result true h = (refl, ok-injective h)
checked p result false h = cc

wake_id_given :
    (signal_id : String) (found : Option String)
    → is_wake_id signal_id found ≡ true
    → (work_item_id : String) × (found ≡ some work_item_id) × (signal_id ≡ wake_id work_item_id)
wake_id_given signal_id none h = cc
wake_id_given signal_id (some w) h = (w, refl, (eq_iff signal_id (wake_id w)).0 h)

-- A validated acquisition signal is the signal itself, and its id is that of its work item.
pub acquisition_contract :
    (p result : AgentSignalPayload)
    → p.signal_type ≡ "acquisition_work_available"
    → type_specific_contract p ≡ ok result
    → (work_item_id : String) × (p ≡ result)
      × (lookup "work_item_id" p.references ≡ some work_item_id)
      × (p.signal_id ≡ wake_id work_item_id)
unfolding type_specific_contract
acquisition_contract p result type h =
    let (valid, same) = checked p result (valid_acquisition p) (simp type at h) in
    let (work_item_id, found, named) =
      wake_id_given p.signal_id (lookup "work_item_id" p.references)
        (unfold valid_acquisition in ground arith) in
    (work_item_id, same, found, named)
