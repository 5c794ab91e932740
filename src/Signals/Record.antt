-- ===== src/Signals/Record.antt =====
-- `AgentSignalRecord` of app/agent_signals.py and the transitions of its status, as functions of the
-- record and of the time `now` that the operation read. Texts that a caller gives are already
-- stripped and checked by the operation.
pub mod Lifecycle
pub mod Exclusion
pub mod Inversion
use brunova_knowledge_gatewa.Prelude.{
  ℕ, ◌+◌, String, ◌==◌, Bool, true, false, not, ◌&&◌, ◌||◌, List, [], ◌∷◌, Option, none, some, leb,
  if◌then◌else◌,
}
use brunova_knowledge_gatewa.Errors.{
  Code, Error, Result, ok, err, adapter, value_error, ◌>>=◌, ◌>>◌, agent_signal_already_claimed,
  agent_signal_transition_invalid, agent_signal_claim_owner_mismatch,
}
use brunova_knowledge_gatewa.Json.{Json}
use brunova_knowledge_gatewa.Prelude.Text.{len}
use brunova_knowledge_gatewa.Signals.Payload.{AgentSignalPayload, validate}

pub data SignalStatus : Type 0 where
  pending claimed completed dismissed : SignalStatus

pub record AgentSignalRecord : Type 0 where
  pub payload : AgentSignalPayload
  pub status : SignalStatus
  pub received_at : ℕ
  pub updated_at : ℕ
  pub claimed_by : Option String
  pub claimed_at : Option ℕ
  pub claim_expires_at : Option ℕ
  pub completed_at : Option ℕ
  pub dismissed_at : Option ℕ
  pub completion_summary : Option String
  pub dismissal_reason : Option String
  pub outcome_metadata : List (String × Json)
  pub pubsub_message_id : String
  pub pubsub_publish_time : Option ℕ
  pub pubsub_attributes : List (String × String)

-- AgentSignalRecord.from_delivery
unfoldable pub from_delivery :
    AgentSignalPayload → String → Option ℕ → List (String × String) → ℕ → AgentSignalRecord
from_delivery payload message_id publish_time attributes now = record {
  payload = payload;
  status = pending;
  received_at = now;
  updated_at = now;
  claimed_by = none;
  claimed_at = none;
  claim_expires_at = none;
  completed_at = none;
  dismissed_at = none;
  completion_summary = none;
  dismissal_reason = none;
  outcome_metadata = [];
  pubsub_message_id = message_id;
  pubsub_publish_time = publish_time;
  pubsub_attributes = attributes;
}

-- `from_delivery` with the checks of the constructor: the payload is validated again, and the field
-- `pubsub_message_id` has 1 to 256 characters.
unfoldable pub checked_delivery :
    AgentSignalPayload → String → Option ℕ → List (String × String) → ℕ → Result AgentSignalRecord
checked_delivery payload message_id publish_time attributes now = do
  checked ← validate payload
  (if leb 1 (len message_id) && leb (len message_id) 256
      then ok (from_delivery checked message_id publish_time attributes now)
      else err value_error)

abbrev pub is_claimed : SignalStatus → Bool
is_claimed claimed = true
is_claimed _ = false

-- status in {PENDING, CLAIMED}
abbrev pub is_open : SignalStatus → Bool
is_open pending = true
is_open claimed = true
is_open _ = false

abbrev pub has_passed : Option ℕ → ℕ → Bool
has_passed none now = false
has_passed (some t) now = leb t now

-- _is_expired
unfoldable pub is_expired : AgentSignalRecord → ℕ → Bool
is_expired r now = is_claimed r.status && has_passed r.claim_expires_at now

abbrev pub transition_error : Error
transition_error = adapter agent_signal_transition_invalid 409

-- `claimed_by != principal_id` for a principal that is given
abbrev pub is_other : Option String → Option String → Bool
is_other none owner = false
is_other (some p) none = true
is_other (some p) (some owner) = not (owner == p)

abbrev pub as_claimed : ℕ → ℕ → String → AgentSignalRecord → AgentSignalRecord
as_claimed lease now principal_id r = record r {
  status = claimed;
  claimed_by = some principal_id;
  claimed_at = some now;
  claim_expires_at = some (now + lease);
  updated_at = now;
}

-- the transition of `claim`
unfoldable pub claim : ℕ → ℕ → String → AgentSignalRecord → Result AgentSignalRecord
claim lease now principal_id r =
    if is_claimed r.status && not (is_expired r now)
    then err (adapter agent_signal_already_claimed 409)
    else if not (is_open r.status)
    then err transition_error
    else ok (as_claimed lease now principal_id r)

abbrev pub as_completed : ℕ → String → List (String × Json) → AgentSignalRecord → AgentSignalRecord
as_completed now summary metadata r = record r {
  status = completed;
  completed_at = some now;
  completion_summary = some summary;
  outcome_metadata = metadata;
  updated_at = now;
}

-- the transition of `complete`
unfoldable pub complete :
    ℕ → String → List (String × Json) → Option String → AgentSignalRecord → Result AgentSignalRecord
complete now summary metadata principal_id r =
    if not (is_claimed r.status) || is_expired r now
    then err transition_error
    else if is_other principal_id r.claimed_by
    then err (adapter agent_signal_claim_owner_mismatch 409)
    else ok (as_completed now summary metadata r)

abbrev pub as_dismissed : ℕ → String → AgentSignalRecord → AgentSignalRecord
as_dismissed now reason r = record r {
  status = dismissed;
  dismissed_at = some now;
  dismissal_reason = some reason;
  updated_at = now;
}

-- the transition of `dismiss`
unfoldable pub dismiss : ℕ → String → Option String → AgentSignalRecord → Result AgentSignalRecord
dismiss now reason principal_id r =
    if not (is_open r.status)
    then err transition_error
    else if is_claimed r.status && is_other principal_id r.claimed_by
    then err (adapter agent_signal_claim_owner_mismatch 409)
    else ok (as_dismissed now reason r)

-- the update of `release` and of `_normalize_expired`
abbrev pub unclaimed : ℕ → AgentSignalRecord → AgentSignalRecord
unclaimed now r = record r {
  status = pending;
  claimed_by = none;
  claimed_at = none;
  claim_expires_at = none;
  updated_at = now;
}

-- the transition of `release`
unfoldable pub release : ℕ → Option String → AgentSignalRecord → Result AgentSignalRecord
release now principal_id r =
    if not (is_claimed r.status)
    then err transition_error
    else if is_other principal_id r.claimed_by
    then err (adapter agent_signal_claim_owner_mismatch 409)
    else ok (unclaimed now r)

-- the update of `_normalize_expired`, if there is one
unfoldable pub expire : ℕ → AgentSignalRecord → Option AgentSignalRecord
expire now r = if is_expired r now then some (unclaimed now r) else none

abbrev or_else : Option ℕ → Option ℕ → Option ℕ
or_else none b = b
or_else (some a) b = some a

-- The test of `cleanup` at a time `now`, for `now - retention` on the scale of instants, which has
-- no least element: `terminal_at < now - retention` is `terminal_at + retention < now`.
abbrev passed_retention : Option ℕ → ℕ → ℕ → Bool
passed_retention none retention now = false
passed_retention (some t) retention now = not (leb now (t + retention))

unfoldable pub is_removable : ℕ → ℕ → AgentSignalRecord → Bool
is_removable retention now r =
    not (is_open r.status) && passed_retention (or_else r.completed_at r.dismissed_at) retention now
