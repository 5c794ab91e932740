-- ===== src/Signals/Inbox/Contention.antt =====
-- How `AgentSignalInbox._update` of app/agent_signals.py meets writes of other clients: the rounds of
-- its loop as a relation on states, and what it answers after them.
use brunova_knowledge_gatewa.Prelude.{
  ℕ, zero, suc, String, ◌≡◌, ◌≢◌, ◌⊎◌, inl, inr, refl, sym, ap, subst, ◌∙◌, Option, List,
}
use brunova_knowledge_gatewa.Exec.{caught}
use brunova_knowledge_gatewa.Errors.{
  Error, Result, ok, err, adapter, object_conflict, agent_signal_conflict, value_error, type_error,
  assertion_error, key_error, os_error, http_exception,
}
use brunova_knowledge_gatewa.Json.{Json}
use brunova_knowledge_gatewa.Storage.{ObjectStore}
use brunova_knowledge_gatewa.Signals.Record.{AgentSignalRecord}
use brunova_knowledge_gatewa.Signals.Backend
use brunova_knowledge_gatewa.Signals.Backend.{StoredSignal}
use brunova_knowledge_gatewa.Signals.Inbox.{update_loop, update}

-- An error other than the conflict goes on through `attempt`.
caught_other : (e : Error) → e ≢ object_conflict → caught e ≡ err e
caught_other object_conflict other = absurd (other refl)
caught_other (adapter c n) other = refl
caught_other value_error other = refl
caught_other type_error other = refl
caught_other assertion_error other = refl
caught_other key_error other = refl
caught_other os_error other = refl
caught_other (http_exception n) other = refl

conflict_or : (e : Error) → (e ≡ object_conflict) ⊎ (e ≢ object_conflict)
conflict_or object_conflict = inl refl
conflict_or (adapter c n) = inr (λ h. cc)
conflict_or value_error = inr (λ h. cc)
conflict_or type_error = inr (λ h. cc)
conflict_or assertion_error = inr (λ h. cc)
conflict_or key_error = inr (λ h. cc)
conflict_or os_error = inr (λ h. cc)
conflict_or (http_exception n) = inr (λ h. cc)

module _ {C : Type 0} (store : ObjectStore C) (serialize : AgentSignalRecord → C)
    (parse : C → Option AgentSignalRecord) (prefix : String)
    (dumps_size : List (String × Json) → Option ℕ) (lease retention : ℕ) (signal_id : String)
    (transition : AgentSignalRecord → Result AgentSignalRecord) where
  -- A round reads `item` and computes `updated` from it.
  abbrev pub IsRead : store.State → StoredSignal → AgentSignalRecord → store.State → Type 0
  IsRead s item updated t =
      (Backend.read store serialize parse prefix signal_id s ≡ (ok item, t))
      × (transition item.value ≡ ok updated)

  -- Rounds that lost the race for the write: from a state with so many attempts left to another.
  pub data Lost : ℕ → ℕ → store.State → store.State → Type 0 where
    start : {n : ℕ} {s : store.State} → Lost n n s s
    lose :
        {n m : ℕ} {s t u v : store.State} (item : StoredSignal) (updated : AgentSignalRecord)
        → IsRead s item updated t
        → Backend.replace store serialize parse prefix updated item.generation t
          ≡ (err object_conflict, u)
        → Lost n m u v
        → Lost (suc n) m s v

  Lost-rounds :
      {n m : ℕ} {s t : store.State}
      → Lost n m s t
      → update_loop store serialize parse prefix dumps_size lease retention n signal_id transition s
        ≡ update_loop store serialize parse prefix dumps_size lease retention m signal_id transition
            t
  unfolding update_loop
  Lost-rounds start = refl
  Lost-rounds (lose item updated (was_read, changed) lost_race more) =
      rw (was_read, changed, lost_race) (Lost-rounds more)

  -- What the next round answers, with so many attempts left, when it does not lose the race: the
  -- updated record if its write succeeds; the error of the write if that is not the conflict, without
  -- another attempt; the error of the transition if the record that it read
  -- does not allow it, without a write; the error of the read; and a conflict with no attempt left.
  pub data Answers (t : store.State) : ℕ → Result AgentSignalRecord × store.State → Type 0 where
    wins :
        {m : ℕ} {u v : store.State} (item : StoredSignal) (updated : AgentSignalRecord)
        → IsRead t item updated u
        → Backend.replace store serialize parse prefix updated item.generation u ≡ (ok tt, v)
        → Answers t (suc m) (ok updated, v)
    breaks :
        {m : ℕ} {u v : store.State} (item : StoredSignal) (updated : AgentSignalRecord) (e : Error)
        → e ≢ object_conflict
        → IsRead t item updated u
        → Backend.replace store serialize parse prefix updated item.generation u ≡ (err e, v)
        → Answers t (suc m) (err e, v)
    refuses :
        {m : ℕ} {u : store.State} (item : StoredSignal) (e : Error)
        → Backend.read store serialize parse prefix signal_id t ≡ (ok item, u)
        → transition item.value ≡ err e
        → Answers t (suc m) (err e, u)
    fails :
        {m : ℕ} {u : store.State} (e : Error)
        → Backend.read store serialize parse prefix signal_id t ≡ (err e, u)
        → Answers t (suc m) (err e, u)
    gives_up : Answers t 0 (err (adapter agent_signal_conflict 409), t)

  Answers-update_loop :
      {m : ℕ} {t : store.State} {answer : Result AgentSignalRecord × store.State}
      → Answers t m answer
      → update_loop store serialize parse prefix dumps_size lease retention m signal_id transition t
        ≡ answer
  unfolding update_loop
  Answers-update_loop (wins item updated (was_read, changed) put) = rw (was_read, changed, put) refl
  Answers-update_loop (breaks item updated e other (was_read, changed) put) =
      rw (was_read, changed, put, caught_other e other) refl
  Answers-update_loop (refuses item e was_read refused) = rw (was_read, refused) refl
  Answers-update_loop (fails e failed) = rw failed refl
  Answers-update_loop gives_up = refl

  abbrev Settles : ℕ → store.State → Type 0
  Settles n s =
      (m : ℕ) × (t : store.State) × (answer : Result AgentSignalRecord × store.State) × Lost n m s t
      × Answers t m answer

  -- a round, given what the next rounds do
  Settles-write :
      (n : ℕ) (s u : store.State) (item : StoredSignal) (updated : AgentSignalRecord)
      (written : Result (Unit {0}) × store.State)
      → ((v : store.State) → Settles n v)
      → IsRead s item updated u
      → Backend.replace store serialize parse prefix updated item.generation u ≡ written
      → Settles (suc n) s
  Settles-write n s u item updated (ok done_it, v) rest is_read put =
      (suc n, s, (ok updated, v), start, wins item updated is_read put)
  Settles-write n s u item updated (err e, v) rest is_read put = elim (conflict_or e) [
    | inl same ↦
        let (m, t, answer, lost, answers) = rest v in
        (m, t, answer, lose item updated is_read (put ∙ ap (λ x. (err x, v)) same) lost, answers)
    | inr other ↦ (suc n, s, (err e, v), start, breaks item updated e other is_read put)
  ]

  Settles-transition :
      (n : ℕ) (s u : store.State) (item : StoredSignal) (changed : Result AgentSignalRecord)
      → ((v : store.State) → Settles n v)
      → Backend.read store serialize parse prefix signal_id s ≡ (ok item, u)
      → transition item.value ≡ changed
      → Settles (suc n) s
  Settles-transition n s u item (ok updated) rest was_read changed =
      Settles-write n s u item updated
        (Backend.replace store serialize parse prefix updated item.generation u) rest
        (was_read, changed) refl
  Settles-transition n s u item (err e) rest was_read changed =
      (suc n, s, (err e, u), start, refuses item e was_read changed)

  Settles-read :
      (n : ℕ) (s : store.State) (found : Result StoredSignal × store.State)
      → ((v : store.State) → Settles n v)
      → Backend.read store serialize parse prefix signal_id s ≡ found
      → Settles (suc n) s
  Settles-read n s (ok item, u) rest was_read =
      Settles-transition n s u item (transition item.value) rest was_read refl
  Settles-read n s (err e, u) rest was_read = (suc n, s, (err e, u), start, fails e was_read)

  settles : (n : ℕ) (s : store.State) → Settles n s
  settles zero s = (0, s, (err (adapter agent_signal_conflict 409), s), start, gives_up)
  settles (suc n) s =
      Settles-read n s (Backend.read store serialize parse prefix signal_id s) (λ v. settles n v)
        refl

  -- An update makes at most five attempts, from every state. After rounds that each read the signal
  -- anew, computed the transition of what was read and lost the race for the write, it answers in the
  -- state that they left: the updated record if its write succeeds; any other error of the write, of the
  -- transition or of the read, with no further attempt; and a conflict with status 409 if all five
  -- attempts lost.
  pub update_settles :
      (s : store.State)
      → (m : ℕ) × (t : store.State) × Lost 5 m s t
        × Answers t m
            (update store serialize parse prefix dumps_size lease retention signal_id transition s)
  unfolding update
  update_settles s =
      let (m, t, answer, lost, answers) = settles 5 s in
      (
        m,
        t,
        lost,
        subst (Answers t m) (sym (Lost-rounds lost ∙ Answers-update_loop answers)) answers,
      )
