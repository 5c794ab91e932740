-- ===== src/Tests/Inbox.antt =====
-- An inbox in a log of writes: a claim that wins at once, one that loses a race, and a listing.
use brunova_knowledge_gatewa.Prelude.{
  ℕ, String, ◌≡◌, refl, sym, ap, subst, ◌==◌, ◌&&◌, ◌⊎◌, ◌↔◌, ◌++◌, length, true, Bool, List, [],
  ◌∷◌, Option, none, some, eq_iff,
}
use brunova_knowledge_gatewa.Prelude.Text.{append}
use brunova_knowledge_gatewa.Errors.{Result, ok, err, adapter, agent_signal_already_claimed}
use brunova_knowledge_gatewa.Json.{Json}
use brunova_knowledge_gatewa.Storage.{ObjectStore}
use brunova_knowledge_gatewa.Storage.Log.Promises.{log_store-IsObjectStore}
use brunova_knowledge_gatewa.Storage.Log.{
  write, LogState, log_store, object, object_accepted, log_upload, arrive,
}
use brunova_knowledge_gatewa.Signals.Record
use brunova_knowledge_gatewa.Signals.Record.{
  AgentSignalRecord, SignalStatus, from_delivery, as_claimed, is_expired,
}
use brunova_knowledge_gatewa.Signals.Record.Lifecycle.{Step}
use brunova_knowledge_gatewa.Signals.Backend
use brunova_knowledge_gatewa.Signals.Backend.{StoredSignal, blob_name, stored}
use brunova_knowledge_gatewa.Signals.Backend.Replacing.{IsFiled, IsReplaced}
use brunova_knowledge_gatewa.Signals.Inbox
use brunova_knowledge_gatewa.Signals.Inbox.{
  Selection, selects, select, count, key_le, update, update_loop,
}
use brunova_knowledge_gatewa.Signals.Inbox.Atomic.{claim_call, run, run_atomic}
use brunova_knowledge_gatewa.Signals.Inbox.Contention.{Lost, Answers, update_settles}
use brunova_knowledge_gatewa.Signals.Inbox.Selecting.{IsSelected, IsInOrder}
use brunova_knowledge_gatewa.Signals.Inbox.Listing.{select_lem}
use brunova_knowledge_gatewa.Tests.Signals.{delivered, held}

abbrev pub accepts : String → AgentSignalRecord → Bool
accepts name r = name == append "signals/" (append r.payload.signal_id ".json")

abbrev pub store : ObjectStore AgentSignalRecord
store = log_store AgentSignalRecord accepts

abbrev pub no_size : List (String × Json) → Option ℕ
no_size metadata = some 2

abbrev at_start : LogState AgentSignalRecord
at_start = record { log = write "signals/sig-1.json" delivered ∷ []; pending = []; now = 20 }

abbrev at_end : LogState AgentSignalRecord
at_end = record {
  log = write "signals/sig-1.json" held ∷ write "signals/sig-1.json" delivered ∷ [];
  pending = [];
  now = 21;
}

filed : (s : LogState AgentSignalRecord) → IsFiled store (λ r. r) some "signals/" s
unfolding blob_name
filed s t signal_id r later (raw, g, found, parsed) =
    let named =
      (eq_iff _ _).0 (
        object_accepted accepts t.log (append "signals/" (append signal_id ".json")) raw g found) in
    let same : raw ≡ r = ap (elim [ none ↦ raw | some x ↦ x ]) parsed in
    subst
      (λ x.
        append "signals/" (append x.payload.signal_id ".json")
        ≡ append "signals/" (append signal_id ".json"))
      same (sym named)

claim_runs :
    run store (λ r. r) some "signals/" no_size 300 1000 (claim_call "w1") "sig-1" at_start
    ≡ (ok held, at_end)
unfolding Inbox.claim update update_loop Backend.read Backend.replace blob_name stored log_upload
    arrive object Record.claim is_expired from_delivery
claim_runs = refl

run_atomic_example :
    (r : AgentSignalRecord) × IsReplaced store
      (λ x. x)
      some
      "signals/"
      at_start
      at_end
      "sig-1"
      r
      held
    × Step 300 r held
run_atomic_example =
    run_atomic store (λ r. r) some "signals/" no_size 300 1000
      (log_store-IsObjectStore AgentSignalRecord accepts) (claim_call "w1") "sig-1" at_start at_end
      held (filed at_start) claim_runs

-- Another client claims the signal between the read and the write.
abbrev at_race : LogState AgentSignalRecord
at_race = record at_start { pending = [] ∷ (write "signals/sig-1.json" held ∷ []) ∷ [] }

abbrev raced : LogState AgentSignalRecord
raced = record at_end { now = 20 }

abbrev second_claim : AgentSignalRecord → Result AgentSignalRecord
second_claim = Record.claim 300 20 "w2"

race_answer :
    update store (λ r. r) some "signals/" no_size 300 1000 "sig-1" second_claim at_race
    ≡ (err (adapter agent_signal_already_claimed 409), raced)
unfolding update update_loop Backend.read Backend.replace blob_name stored log_upload arrive object
    Record.claim is_expired from_delivery
race_answer = refl

update_settles_example :
    (m : ℕ) × (t : LogState AgentSignalRecord) × Lost store
      (λ x. x)
      some
      "signals/"
      no_size
      300
      1000
      "sig-1"
      second_claim
      5
      m
      at_race
      t
    × Answers store
        (λ x. x)
        some
        "signals/"
        no_size
        300
        1000
        "sig-1"
        second_claim
        t
        m
        (update store (λ x. x) some "signals/" no_size 300 1000 "sig-1" second_claim at_race)
update_settles_example =
    update_settles store (λ r. r) some "signals/" no_size 300 1000 "sig-1" second_claim at_race

abbrev any_pending : Selection
any_pending = record {
  status = some SignalStatus.pending;
  priority = none;
  signal_type = none;
  source = none;
}

select_lem_example :
    (rest : List AgentSignalRecord) × ((r : AgentSignalRecord)
      → (selects any_pending r ≡ true) ↔ IsSelected any_pending r)
    × IsInOrder (select any_pending 1 (held ∷ delivered ∷ []) ++ rest)
    × ((p : AgentSignalRecord → Bool)
        → count p (select any_pending 1 (held ∷ delivered ∷ []) ++ rest)
          ≡ count (λ r. selects any_pending r && p r) (held ∷ delivered ∷ []))
    × ((length (select any_pending 1 (held ∷ delivered ∷ [])) ≡ 1) ⊎ (rest ≡ []))
select_lem_example = select_lem any_pending 1 (held ∷ delivered ∷ [])
