-- ===== src/Signals/Inbox.antt =====
-- `AgentSignalInbox` of app/agent_signals.py, over the backend of `Backend`. The clock is read from the
-- storage state at each call of `self._clock()`, and each storage call may find what other clients
-- have done. `dumps_size` is the size in bytes of the compact JSON text that `json.dumps` gives, if
-- it gives one.
pub mod Atomic
pub mod Listing
pub mod Selecting
pub mod Contention
pub mod Receiving
use brunova_knowledge_gatewa.Prelude.{
  ℕ, zero, suc, ◌+◌, String, ◌==◌, Bool, true, false, not, ◌&&◌, ◌||◌, List, [], ◌∷◌, map, Option,
  none, some, leb, ltb, eqb, keep, take, if◌then◌else◌,
}
use brunova_knowledge_gatewa.Prelude.Text.{len, is_empty, strip}
use brunova_knowledge_gatewa.Errors.{
  Code, Error, Result, ok, err, adapter, require, agent_signal_conflict, agent_signal_limit_invalid,
  completion_summary_invalid, dismissal_reason_invalid, outcome_metadata_invalid,
}
use brunova_knowledge_gatewa.Exec.{Exec, pure, raise, lift, attempt, ◌>>=◌, ◌>>◌}
use brunova_knowledge_gatewa.Json.{Json}
use brunova_knowledge_gatewa.Storage.{ObjectStore}
use brunova_knowledge_gatewa.Signals.Payload.{AgentSignalPayload, SignalPriority, attention, urgent}
use brunova_knowledge_gatewa.Signals.Record
use brunova_knowledge_gatewa.Signals.Record.{
  SignalStatus, pending, claimed, completed, dismissed, AgentSignalRecord, checked_delivery, expire,
}
use brunova_knowledge_gatewa.Signals.Backend
use brunova_knowledge_gatewa.Signals.Backend.{StoredSignal}

abbrev pub same_status : SignalStatus → SignalStatus → Bool
same_status pending pending = true
same_status claimed claimed = true
same_status completed completed = true
same_status dismissed dismissed = true
same_status _ _ = false

abbrev pub same_priority : SignalPriority → SignalPriority → Bool
same_priority attention attention = true
same_priority urgent urgent = true
same_priority _ _ = false

-- The arguments of `list` that select signals.
pub record Selection : Type 0 where
  pub status : Option SignalStatus
  pub priority : Option SignalPriority
  pub signal_type : Option String
  pub source : Option String

abbrev pub fits : {A : Type 0} → (A → A → Bool) → Option A → A → Bool
fits same none x = true
fits same (some y) x = same x y

unfoldable pub selects : Selection → AgentSignalRecord → Bool
selects selection item =
    fits same_status selection.status item.status
    && fits same_priority selection.priority item.payload.priority
    && fits ◌==◌ selection.signal_type item.payload.signal_type
    && fits ◌==◌ selection.source item.payload.source

abbrev rank : SignalPriority → ℕ
rank urgent = 0
rank attention = 1

-- the order of the sort key (rank, occurred_at, received_at)
unfoldable pub key_le : AgentSignalRecord → AgentSignalRecord → Bool
key_le a b =
    let p = rank a.payload.priority in
    let q = rank b.payload.priority in
    let o = a.payload.occurred_at in
    let o' = b.payload.occurred_at in
    ltb p q || (eqb p q && (ltb o o' || (eqb o o' && leb a.received_at b.received_at)))

unfoldable pub insert : AgentSignalRecord → List AgentSignalRecord → List AgentSignalRecord
unfolding key_le
insert x [] = x ∷ []
insert x (y ∷ ys) = if key_le x y then x ∷ y ∷ ys else y ∷ insert x ys

-- `records.sort(key=…)`, the stable sort of Python's lists
unfoldable pub sort : List AgentSignalRecord → List AgentSignalRecord
unfolding insert
sort [] = []
sort (x ∷ xs) = insert x (sort xs)

-- the result of `list`, for the records that were read
unfoldable pub select : Selection → ℕ → List AgentSignalRecord → List AgentSignalRecord
unfolding selects sort
select selection limit records = take limit (sort (keep (selects selection) records))

abbrev pub max_list_limit : ℕ
max_list_limit = 100

abbrev pub max_write_attempts : ℕ
max_write_attempts = 5

abbrev max_metadata_bytes : ℕ
max_metadata_bytes = 4096

abbrev pub fits_metadata : Option ℕ → Bool
fits_metadata none = false
fits_metadata (some size) = leb size max_metadata_bytes

-- a text that is neither blank nor longer than `max` once it is stripped
abbrev pub brief : ℕ → Code → String → Result String
brief max code s =
    let trimmed = strip s in
    if is_empty trimmed || not (leb (len trimmed) max) then err (adapter code 422) else ok trimmed

pub record Delivery : Type 0 where
  pub signal_id : String
  pub signal_type : String
  pub created : Bool
  pub status : SignalStatus

pub record StatusResult : Type 0 where
  pub pending_count : ℕ
  pub urgent_count : ℕ
  pub claimed_count : ℕ

abbrev pub count : (AgentSignalRecord → Bool) → List AgentSignalRecord → ℕ
count p [] = 0
count p (x ∷ xs) = if p x then suc (count p xs) else count p xs

module _ {C : Type 0} (store : ObjectStore C) (serialize : AgentSignalRecord → C)
    (parse : C → Option AgentSignalRecord) (prefix : String)
    (dumps_size : List (String × Json) → Option ℕ) (lease retention : ℕ) where
  abbrev pub now : Exec store.State ℕ
  now s = let (t, s') = store.clock s in (ok t, s')

  abbrev read : String → Exec store.State StoredSignal
  read = Backend.read store serialize parse prefix

  abbrev replace : AgentSignalRecord → ℕ → Exec store.State (Unit {0})
  replace = Backend.replace store serialize parse prefix

  -- the signal that a delivery answers for
  unfoldable pub existing : Bool → AgentSignalRecord → Exec store.State AgentSignalRecord
  existing true r = pure r
  existing false r = do item ← read r.payload.signal_id; pure item.value

  unfoldable pub receive :
      AgentSignalPayload → String → Option ℕ → List (String × String) → Exec store.State Delivery
  unfolding existing checked_delivery
  receive payload message_id publish_time attributes = do
    t ← now
    r ← lift (checked_delivery payload message_id publish_time attributes t)
    created ← Backend.create store serialize parse prefix r
    known ← existing created r
    pure (record {
      signal_id = known.payload.signal_id;
      signal_type = known.payload.signal_type;
      created = created;
      status = known.status;
    })

  -- the end of `_normalize_expired`: a write that lost a race is answered like one that won it
  unfoldable pub normalize_with :
      Option AgentSignalRecord → StoredSignal → Exec store.State StoredSignal
  normalize_with none item = pure item
  normalize_with (some updated) item = do
    attempt (replace updated item.generation)
    read updated.payload.signal_id

  unfoldable pub normalize_expired : StoredSignal → Exec store.State StoredSignal
  unfolding normalize_with expire
  normalize_expired item = do t ← now; normalize_with (expire t item.value) item

  unfoldable pub get : String → Exec store.State AgentSignalRecord
  unfolding normalize_expired
  get signal_id = do found ← read signal_id; item ← normalize_expired found; pure item.value

  -- the loop of `_update`
  unfoldable pub update_loop :
      ℕ
      → String
      → (AgentSignalRecord → Result AgentSignalRecord)
      → Exec store.State AgentSignalRecord
  update_loop zero signal_id transition = raise (adapter agent_signal_conflict 409)
  update_loop (suc attempts) signal_id transition =
      let rest = update_loop attempts signal_id transition in
      do
        item ← read signal_id
        updated ← lift (transition item.value)
        written ← attempt (replace updated item.generation)
        if written then pure updated else rest

  unfoldable pub update :
      String → (AgentSignalRecord → Result AgentSignalRecord) → Exec store.State AgentSignalRecord
  unfolding update_loop
  update signal_id transition = update_loop max_write_attempts signal_id transition

  unfoldable pub claim : String → String → Exec store.State AgentSignalRecord
  unfolding update
  claim signal_id principal_id = do t ← now; update signal_id (Record.claim lease t principal_id)

  unfoldable pub complete :
      String → String → List (String × Json) → Option String → Exec store.State AgentSignalRecord
  unfolding update
  complete signal_id completion_summary metadata principal_id = do
    summary ← lift (brief 1000 completion_summary_invalid completion_summary)
    lift (require (fits_metadata (dumps_size metadata)) outcome_metadata_invalid 422)
    t ← now
    update signal_id (Record.complete t summary metadata principal_id)

  unfoldable pub dismiss : String → String → Option String → Exec store.State AgentSignalRecord
  unfolding update
  dismiss signal_id reason principal_id = do
    normalized ← lift (brief 500 dismissal_reason_invalid reason)
    t ← now
    update signal_id (Record.dismiss t normalized principal_id)

  unfoldable pub release : String → Option String → Exec store.State AgentSignalRecord
  unfolding update
  release signal_id principal_id = do t ← now; update signal_id (Record.release t principal_id)

  -- the loop of `cleanup`
  unfoldable pub remove_ended : ℕ → List StoredSignal → ℕ → Exec store.State ℕ
  remove_ended t [] removed = pure removed
  remove_ended t (item ∷ items) removed =
      let skip = remove_ended t items removed in
      let next = remove_ended t items (suc removed) in
      if Record.is_removable retention t item.value
      then (do
        Backend.delete store serialize parse prefix item.value.payload.signal_id item.generation
        next)
      else skip

  unfoldable pub cleanup : Exec store.State ℕ
  unfolding remove_ended
  cleanup = do t ← now; items ← Backend.list store serialize parse prefix; remove_ended t items 0

  -- [self._normalize_expired(item).record for item in items]
  unfoldable pub normalize_all : List StoredSignal → Exec store.State (List AgentSignalRecord)
  unfolding normalize_expired
  normalize_all [] = pure []
  normalize_all (item ∷ items) =
      let rest = normalize_all items in
      do normal ← normalize_expired item; others ← rest; pure (normal.value ∷ others)

  unfoldable pub list : Selection → ℕ → Exec store.State (List AgentSignalRecord)
  unfolding cleanup normalize_all select
  list selection limit = do
    lift (require (leb 1 limit && leb limit max_list_limit) agent_signal_limit_invalid 422)
    cleanup
    items ← Backend.list store serialize parse prefix
    records ← normalize_all items
    pure (select selection limit records)

  unfoldable pub status : Exec store.State StatusResult
  unfolding cleanup normalize_all
  status = do
    cleanup
    items ← Backend.list store serialize parse prefix
    records ← normalize_all items
    pure (record {
      pending_count = count (λ r. same_status r.status pending) records;
      urgent_count =
          count (λ r. same_status r.status pending && same_priority r.payload.priority urgent)
            records;
      claimed_count = count (λ r. same_status r.status claimed) records;
    })
