-- ===== src/Signals/Record/Lifecycle.antt =====
-- The lifecycle of a signal: the steps that app/agent_signals.py can take on a stored record, and what
-- holds of every record that they reach from a delivery.
use brunova_knowledge_gatewa.Prelude.{
  ℕ, ◌+◌, String, ◌≡◌, refl, true, false, List, [], Option, ◌⊎◌, inl, inr, none, some, ap, ◌∙◌,
  subst,
}
use brunova_knowledge_gatewa.Errors.{ok}
use brunova_knowledge_gatewa.Json.{Json}
use brunova_knowledge_gatewa.Signals.Payload.{AgentSignalPayload}
use brunova_knowledge_gatewa.Signals.Record.Inversion.{
  claim_sound, complete_sound, dismiss_sound, release_sound, expire_sound,
}
use brunova_knowledge_gatewa.Signals.Record.{
  SignalStatus, pending, claimed, completed, dismissed, AgentSignalRecord, from_delivery, is_open,
  claim, complete, dismiss, release, expire,
}

-- One write of the inbox to a record.
pub data Step (lease : ℕ) (r r' : AgentSignalRecord) : Type 0 where
  claims : (now : ℕ) (p : String) → claim lease now p r ≡ ok r' → Step lease r r'
  completes :
      (now : ℕ) (summary : String) (metadata : List (String × Json)) (p : Option String)
      → complete now summary metadata p r ≡ ok r'
      → Step lease r r'
  dismisses :
      (now : ℕ) (reason : String) (p : Option String)
      → dismiss now reason p r ≡ ok r'
      → Step lease r r'
  releases : (now : ℕ) (p : Option String) → release now p r ≡ ok r' → Step lease r r'
  expires : (now : ℕ) → expire now r ≡ some r' → Step lease r r'

pub data Reach (lease : ℕ) (r : AgentSignalRecord) : AgentSignalRecord → Type 0 where
  here : Reach lease r r
  next : {s t : AgentSignalRecord} → Reach lease r s → Step lease s t → Reach lease r t

-- Which fields are set in each status.
abbrev pub HasLease : AgentSignalRecord → Type 0
HasLease r =
    ((p : String) × (r.claimed_by ≡ some p))
    × ((t : ℕ) × (r.claimed_at ≡ some t))
    × ((t : ℕ) × (r.claim_expires_at ≡ some t))

abbrev pub HasNoLease : AgentSignalRecord → Type 0
HasNoLease r = (r.claimed_by ≡ none) × (r.claimed_at ≡ none) × (r.claim_expires_at ≡ none)

abbrev pub IsNotCompleted : AgentSignalRecord → Type 0
IsNotCompleted r =
    (r.completed_at ≡ none) × (r.completion_summary ≡ none) × (r.outcome_metadata ≡ [])

abbrev pub IsNotDismissed : AgentSignalRecord → Type 0
IsNotDismissed r = (r.dismissed_at ≡ none) × (r.dismissal_reason ≡ none)

abbrev pub IsConsistent : SignalStatus → AgentSignalRecord → Type 0
IsConsistent pending r = HasNoLease r × (IsNotCompleted r × IsNotDismissed r)
IsConsistent claimed r = HasLease r × (IsNotCompleted r × IsNotDismissed r)
IsConsistent completed r =
    HasLease r
    × ((t : ℕ) × (r.completed_at ≡ some t))
    × ((s : String) × (r.completion_summary ≡ some s))
    × IsNotDismissed r
IsConsistent dismissed r =
    (HasNoLease r ⊎ HasLease r)
    × IsNotCompleted r
    × ((t : ℕ) × (r.dismissed_at ≡ some t))
    × ((s : String) × (r.dismissal_reason ≡ some s))

-- An open record has no end, and all of a lease or nothing of it.
not_ended :
    (s : SignalStatus) (r : AgentSignalRecord)
    → is_open s ≡ true
    → IsConsistent s r
    → (HasNoLease r ⊎ HasLease r) × (IsNotCompleted r × IsNotDismissed r)
not_ended pending r o (lease, rest) = (inl lease, rest)
not_ended claimed r o (lease, rest) = (inr lease, rest)
not_ended completed r o h = cc
not_ended dismissed r o h = cc

abbrev Fits : AgentSignalRecord → Type 0
Fits r = IsConsistent r.status r

was_claimed : (r : AgentSignalRecord) → r.status ≡ claimed → Fits r → IsConsistent claimed r
was_claimed r held h = subst (λ s. IsConsistent s r) held h

Step-IsConsistent : {lease : ℕ} (r r' : AgentSignalRecord) → Step lease r r' → Fits r → Fits r'
Step-IsConsistent {lease} r r' (claims now p e) h =
    let (opened, _, same) = claim_sound r r' lease now p e in
    let (_, rest) = not_ended r.status r opened h in
    subst Fits same (((p, refl), (now, refl), (now + lease, refl)), rest)
Step-IsConsistent r r' (completes now summary metadata p e) h =
    let (held, _, _, same) = complete_sound r r' now summary metadata p e in
    let (has, (_, not_dismissed)) = was_claimed r held h in
    subst Fits same (has, (now, refl), (summary, refl), not_dismissed)
Step-IsConsistent r r' (dismisses now reason p e) h =
    let (opened, _, same) = dismiss_sound r r' now reason p e in
    let (has, (not_completed, _)) = not_ended r.status r opened h in
    subst Fits same (has, not_completed, (now, refl), (reason, refl))
Step-IsConsistent r r' (releases now p e) h =
    let (held, _, same) = release_sound r r' now p e in
    let (_, rest) = was_claimed r held h in subst Fits same ((refl, refl, refl), rest)
Step-IsConsistent r r' (expires now e) h =
    let (held, _, same) = expire_sound r r' now e in
    let (_, rest) = was_claimed r held h in subst Fits same ((refl, refl, refl), rest)

Reach-Fits : {lease : ℕ} {r r' : AgentSignalRecord} → Reach lease r r' → Fits r → Fits r'
Reach-Fits here h = h
Reach-Fits (next {s} {t} way step) h = Step-IsConsistent s t step (Reach-Fits way h)

-- Every record that is reached from a delivery has exactly the fields of its status set. The holder
-- and the two times of a lease are set while it is claimed and stay once it is completed, none of them is
-- while it is pending, and a dismissed record has all three or none. The time and the summary of a
-- completion are set exactly if it is completed, and only then is there outcome metadata. The time
-- and the reason of a dismissal are set exactly if it is dismissed.
pub Reach-IsConsistent :
    (lease : ℕ) (payload : AgentSignalPayload) (message_id : String) (published : Option ℕ)
    (attributes : List (String × String)) (now : ℕ) (r : AgentSignalRecord)
    → Reach lease (from_delivery payload message_id published attributes now) r
    → IsConsistent r.status r
Reach-IsConsistent lease payload message_id published attributes now r way =
    Reach-Fits way
      (unfold from_delivery in ((refl, refl, refl), ((refl, refl, refl), (refl, refl))))

-- A completed or dismissed record takes no step.
pub Step-is_open :
    {lease : ℕ} (r r' : AgentSignalRecord) → Step lease r r' → is_open r.status ≡ true
Step-is_open {lease} r r' (claims now p e) = (claim_sound r r' lease now p e).0
Step-is_open r r' (completes now summary metadata p e) =
    ap is_open (complete_sound r r' now summary metadata p e).0
Step-is_open r r' (dismisses now reason p e) = (dismiss_sound r r' now reason p e).0
Step-is_open r r' (releases now p e) = ap is_open (release_sound r r' now p e).0
Step-is_open r r' (expires now e) = ap is_open (expire_sound r r' now e).0

-- Two records of one delivery.
abbrev pub SameDelivery : AgentSignalRecord → AgentSignalRecord → Type 0
SameDelivery r r' =
    (r.payload ≡ r'.payload)
    × (r.received_at ≡ r'.received_at)
    × (r.pubsub_message_id ≡ r'.pubsub_message_id)

pub Step-SameDelivery : {lease : ℕ} (r r' : AgentSignalRecord) → Step lease r r' → SameDelivery r r'
Step-SameDelivery {lease} r r' (claims now p e) =
    subst (SameDelivery r) (claim_sound r r' lease now p e).2 (refl, refl, refl)
Step-SameDelivery r r' (completes now summary metadata p e) =
    subst (SameDelivery r) (complete_sound r r' now summary metadata p e).3 (refl, refl, refl)
Step-SameDelivery r r' (dismisses now reason p e) =
    subst (SameDelivery r) (dismiss_sound r r' now reason p e).2 (refl, refl, refl)
Step-SameDelivery r r' (releases now p e) =
    subst (SameDelivery r) (release_sound r r' now p e).2 (refl, refl, refl)
Step-SameDelivery r r' (expires now e) =
    subst (SameDelivery r) (expire_sound r r' now e).2 (refl, refl, refl)

-- The delivery behind a record never changes: the records that are reached from one another have the
-- same payload, time of receipt and Pub/Sub message.
pub Reach-keeps : {lease : ℕ} {r r' : AgentSignalRecord} → Reach lease r r' → SameDelivery r r'
Reach-keeps here = (refl, refl, refl)
Reach-keeps (next {s} {t} way step) =
    let (a, b, c) = Reach-keeps way in
    let (a', b', c') = Step-SameDelivery s t step in (a ∙ a', b ∙ b', c ∙ c')

-- A completed or dismissed record is final: whatever is reached from it is the record itself.
pub Reach-final :
    {lease : ℕ} {r r' : AgentSignalRecord} → is_open r.status ≡ false → Reach lease r r' → r ≡ r'
Reach-final shut here = refl
Reach-final shut (next {s} {t} way step) = cc (
  shut,
  Step-is_open s t step,
  ap (λ (x : AgentSignalRecord). is_open x.status) (Reach-final shut way),
)
