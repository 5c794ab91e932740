-- ===== src/Tests/Signals.antt =====
-- A WhatsApp signal and an acquisition signal, and an inbox of the first, kept in a log.
use brunova_knowledge_gatewa.Prelude.{
  ◌+◌, String, ◌≡◌, refl, false, [], ◌∷◌, none, some, leb, if◌then◌else◌,
}
use brunova_knowledge_gatewa.Prelude.Text.{matches_after, is_empty}
use brunova_knowledge_gatewa.Errors.{
  ok, err, adapter, agent_signal_already_claimed, agent_signal_claim_owner_mismatch,
}
use brunova_knowledge_gatewa.Json.{Json, boolean, text, lookup, put}
use brunova_knowledge_gatewa.Signals.Payload.{
  AgentSignalPayload, SignalPriority, WhatsAppContact, WhatsAppConversation, type_specific_contract,
  whatsapp_references, check_chat_type, bind_references, expected_references, valid_acquisition,
  valid_wake, valid_wake_references, is_token, wake_id,
}
use brunova_knowledge_gatewa.Signals.Payload.Contract.{whatsapp_contract}
use brunova_knowledge_gatewa.Signals.Record
use brunova_knowledge_gatewa.Signals.Record.{
  SignalStatus, AgentSignalRecord, from_delivery, as_claimed, as_completed, unclaimed, is_expired,
  transition_error, expire,
}
use brunova_knowledge_gatewa.Signals.Record.Lifecycle.{
  claims, completes, Reach, here, next, IsConsistent, Reach-IsConsistent, Reach-final,
}
use brunova_knowledge_gatewa.Signals.Record.Exclusion.{is_holder, claim_again, complete_by}

abbrev pub attention : AgentSignalPayload
attention = record {
  signal_id = "sig-1";
  signal_type = "attention";
  priority = SignalPriority.urgent;
  occurred_at = 3;
  source = "portal";
  reason = [];
  references = [];
  metadata = [];
  actor_type = none;
  actor_id = none;
  contact = none;
  conversation = none;
  preview = none;
}

abbrev pub contact : WhatsAppContact
contact = record { sender_phone = "5255"; sender_name = "Eva"; hubspot_contact_id = some "h1" }

abbrev pub conversation : WhatsAppConversation
conversation = record { session_id = "s"; chat_id = "c"; message_id = "m" }

abbrev pub whatsapp : Json → AgentSignalPayload
whatsapp chat_type = record attention {
  signal_type = "whatsapp_attention_required";
  source = "openwa";
  references = ("chat_id", "c") ∷ [];
  metadata = ("chat_type", chat_type) ∷ ("is_test", boolean false) ∷ [];
  contact = some contact;
  conversation = some conversation;
}

abbrev pub bound : AgentSignalPayload
bound = record (whatsapp (text "direct")) {
  references =
      ("chat_id", "c")
      ∷ ("session_id", "s")
      ∷ ("message_id", "m")
      ∷ ("hubspot_contact_id", "h1")
      ∷ [];
}

whatsapp_validated : type_specific_contract (whatsapp (text "direct")) ≡ ok bound
unfolding type_specific_contract whatsapp_references check_chat_type lookup bind_references
    expected_references put
whatsapp_validated = refl

whatsapp_contract_example :
    (x : WhatsAppContact) × (y : WhatsAppConversation) × (some contact ≡ some x)
    × (some conversation ≡ some y)
    × (lookup "session_id" bound.references ≡ some y.session_id)
    × (lookup "chat_id" bound.references ≡ some y.chat_id)
    × (lookup "message_id" bound.references ≡ some y.message_id)
    × ((id : String)
        → x.hubspot_contact_id ≡ some id
        → is_empty id ≡ false
        → lookup "hubspot_contact_id" bound.references ≡ some id)
whatsapp_contract_example =
    whatsapp_contract (whatsapp (text "direct")) bound refl whatsapp_validated

abbrev wake : AgentSignalPayload
wake = record attention {
  signal_id = "acquisition:w1:ready:v1";
  signal_type = "acquisition_work_available";
  source = "brunova_acquisition_portal";
  reason = ("code", text "authoritative_work_available") ∷ [];
  references = ("work_item_id", "w1") ∷ ("command_id", "c1") ∷ ("correlation_id", "x1") ∷ [];
  actor_type = some "HUMAN_PORTAL";
  actor_id = some "eva";
}

wake_validated : type_specific_contract wake ≡ ok wake
unfolding type_specific_contract valid_acquisition valid_wake valid_wake_references is_token lookup
    wake_id matches_after
wake_validated = refl

abbrev pub delivered : AgentSignalRecord
delivered = from_delivery attention "m1" none [] 10

abbrev pub held : AgentSignalRecord
held = as_claimed 300 20 "w1" delivered

pub claimed : Record.claim 300 20 "w1" delivered ≡ ok held
unfolding Record.claim is_expired from_delivery
claimed = refl

claim_again_example : Record.claim 300 25 "w2" held ≡ (
    if leb (20 + 300) 25
    then ok (as_claimed 300 25 "w2" held)
    else err (adapter agent_signal_already_claimed 409))
claim_again_example = claim_again 300 20 "w1" delivered held claimed 25 "w2"

complete_by_example : Record.complete 25 "done" [] (some "w2") held ≡ (
    if leb (20 + 300) 25
    then err transition_error
    else if is_holder "w1" (some "w2")
    then ok (as_completed 25 "done" [] held)
    else err (adapter agent_signal_claim_owner_mismatch 409))
complete_by_example = complete_by 300 20 "w1" delivered held claimed 25 "done" [] (some "w2")

abbrev finished : AgentSignalRecord
finished = as_completed 25 "done" [] held

finishing : Record.complete 25 "done" [] (some "w1") held ≡ ok finished
unfolding Record.complete is_expired from_delivery
finishing = refl

life : Reach 300 delivered finished
life = next (next here (claims 20 "w1" claimed)) (completes 25 "done" [] (some "w1") finishing)

Reach-IsConsistent_example : IsConsistent finished.status finished
Reach-IsConsistent_example = Reach-IsConsistent 300 attention "m1" none [] 10 finished life

Reach-final_example : finished ≡ finished
Reach-final_example = Reach-final {lease = 300} {r = finished} {r' = finished} refl here
