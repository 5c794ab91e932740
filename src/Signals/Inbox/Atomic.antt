-- ===== src/Signals/Inbox/Atomic.antt =====
-- The updates of the inbox are atomic, whatever other clients of the bucket do between their calls.
use brunova_knowledge_gatewa.Prelude.{
  ℕ, zero, suc, String, ◌≡◌, sym, ap, ◌∙◌, subst, Bool, true, false, Option, List, if◌then◌else◌,
}
use brunova_knowledge_gatewa.Errors.{
  Result, ok, require, completion_summary_invalid, dismissal_reason_invalid,
  outcome_metadata_invalid, ok-injective,
}
use brunova_knowledge_gatewa.Exec.{
  Exec, pure, lift, attempt, ◌>>=◌, ◌>>◌, bind-eq-ok, attempt-eq-true, attempt_state,
}
use brunova_knowledge_gatewa.Json.{Json}
use brunova_knowledge_gatewa.Storage.{ObjectStore, IsObjectStore}
use brunova_knowledge_gatewa.Signals.Record.{AgentSignalRecord}
use brunova_knowledge_gatewa.Signals.Payload.{AgentSignalPayload}
use brunova_knowledge_gatewa.Signals.Record
use brunova_knowledge_gatewa.Signals.Record.Lifecycle.{
  Step, claims, completes, dismisses, releases, Step-SameDelivery,
}
use brunova_knowledge_gatewa.Signals.Backend
use brunova_knowledge_gatewa.Signals.Backend.{StoredSignal, stored, blob_name, downloaded, replaced}
use brunova_knowledge_gatewa.Signals.Inbox.{
  update_loop, update, claim, complete, dismiss, release, now, brief, fits_metadata,
}
use brunova_knowledge_gatewa.Signals.Backend.Replacing.{
  IsFiled, IsReplaced, read-Holds, replace_read, replace_later,
}

module _ {C : Type 0} (store : ObjectStore C) (serialize : AgentSignalRecord → C)
    (parse : C → Option AgentSignalRecord) (prefix : String)
    (dumps_size : List (String × Json) → Option ℕ) (lease retention : ℕ) where
  module _ (law : IsObjectStore store) where
    module _ (transition : AgentSignalRecord → Result AgentSignalRecord)
        (keeps : (r r' : AgentSignalRecord)
          → transition r ≡ ok r'
          → r.payload.signal_id ≡ r'.payload.signal_id) where
      abbrev loop :
          ℕ
          → String
          → (AgentSignalRecord → Result AgentSignalRecord)
          → Exec store.State AgentSignalRecord
      loop = update_loop store serialize parse prefix dumps_size lease retention

      abbrev answer :
          AgentSignalRecord
          → Exec store.State AgentSignalRecord
          → Bool
          → Exec store.State AgentSignalRecord
      answer updated rest written = if written then pure updated else rest

      abbrev write :
          Exec store.State AgentSignalRecord
          → ℕ
          → AgentSignalRecord
          → Exec store.State AgentSignalRecord
      write rest generation updated =
          attempt (Backend.replace store serialize parse prefix updated generation)
          >>= answer updated rest

      -- one round of the loop after its read, with what the next rounds give
      abbrev attempt_on :
          Exec store.State AgentSignalRecord → StoredSignal → Exec store.State AgentSignalRecord
      attempt_on rest item = lift (transition item.value) >>= write rest item.generation

      abbrev Claim : store.State → store.State → String → AgentSignalRecord → Type 0
      Claim s s' signal_id r' =
          (r : AgentSignalRecord) × IsReplaced store serialize parse prefix s s' signal_id r r'
          × (transition r ≡ ok r')

      -- A round whose read and transition succeeded, given what the next rounds do.
      round :
          (rest : Exec store.State AgentSignalRecord) (signal_id : String)
          (s s1 s2 s3 s' : store.State) (item : StoredSignal) (updated r' : AgentSignalRecord)
          (written : Bool)
          → IsFiled store serialize parse prefix s
          → (IsFiled store serialize parse prefix s3
              → rest s3 ≡ (ok r', s')
              → Claim s3 s' signal_id r')
          → Backend.read store serialize parse prefix signal_id s ≡ (ok item, s1)
          → lift (transition item.value) s1 ≡ (ok updated, s2)
          → attempt (Backend.replace store serialize parse prefix updated item.generation) s2
            ≡ (ok written, s3)
          → answer updated rest written s3 ≡ (ok r', s')
          → Claim s s' signal_id r'
      round rest signal_id s s1 s2 s3 s' item updated r' true filed next was_read changed tried h =
          let succeeded : transition item.value ≡ ok updated = ap (λ x. x.0) changed in
          let still : s1 ≡ s2 = ap (λ x. x.1) changed in
          let (was, later) =
            read-Holds store serialize parse prefix law signal_id s s1 item was_read in
          let named =
            ap (λ n. blob_name store serialize parse prefix n)
              (sym (keeps item.value updated succeeded))
            ∙ filed s1 signal_id item.value later was in
          let (u, put) =
            attempt-eq-true (Backend.replace store serialize parse prefix updated item.generation)
              s2 s3 tried in
          let done_it =
            replace_read store serialize parse prefix law signal_id item updated s s1 s3 u was_read
              (rw still put) named in
          let same : updated ≡ r' = ok-injective (ap (λ x. x.0) h) in
          let last : s3 ≡ s' = ap (λ x. x.1) h in
          subst (λ x. Claim s x signal_id r') last
            (subst (λ x. Claim s s3 signal_id x) same (item.value, done_it, succeeded))
      round rest signal_id s s1 s2 s3 s' item updated r' false filed next was_read changed tried h =
          let still : s1 ≡ s2 = ap (λ x. x.1) changed in
          let (_, later) =
            read-Holds store serialize parse prefix law signal_id s s1 item was_read in
          let failed =
            attempt_state (Backend.replace store serialize parse prefix updated item.generation) s2
              s3 (ok false) tried in
          let moved : store.Later s2 s3 =
            rw (← failed)
              (replace_later store serialize parse prefix law updated item.generation s2) in
          let from : store.Later s s3 = law.trans s s1 s3 later (rw still moved) in
          let (r, found, e) = next (λ t n r l. filed t n r (law.trans s s3 t from l)) h in
          (r, (found.0, law.trans s s3 found.0 from found.1, found.2, found.3, found.4), e)

      update_loop_atomic :
          (attempts : ℕ) (signal_id : String) (s s' : store.State) (r' : AgentSignalRecord)
          → IsFiled store serialize parse prefix s
          → loop attempts signal_id transition s ≡ (ok r', s')
          → Claim s s' signal_id r'
      unfolding update_loop
      update_loop_atomic zero signal_id s s' r' filed h = cc
      update_loop_atomic (suc attempts) signal_id s s' r' filed h =
          let rest = loop attempts signal_id transition in
          let (item, s1, was_read, h1) =
            bind-eq-ok (Backend.read store serialize parse prefix signal_id) (attempt_on rest) s s'
              r' h in
          let (updated, s2, changed, h2) =
            bind-eq-ok (lift (transition item.value)) (write rest item.generation) s1 s' r' h1 in
          let (written, s3, tried, h3) =
            bind-eq-ok
              (attempt (Backend.replace store serialize parse prefix updated item.generation))
              (answer updated rest) s2 s' r' h2 in
          round rest signal_id s s1 s2 s3 s' item updated r' written filed
            (λ f k. update_loop_atomic attempts signal_id s3 s' r' f k) was_read changed tried h3

  -- A call of one of the four operations that move a signal.
  pub data Call : Type 0 where
    claim_call : String → Call
    complete_call : String → List (String × Json) → Option String → Call
    dismiss_call : String → Option String → Call
    release_call : Option String → Call

  abbrev pub run : Call → String → Exec store.State AgentSignalRecord
  run (claim_call p) signal_id =
      claim store serialize parse prefix dumps_size lease retention signal_id p
  run (complete_call summary metadata p) signal_id =
      complete store serialize parse prefix dumps_size lease retention signal_id summary metadata p
  run (dismiss_call reason p) signal_id =
      dismiss store serialize parse prefix dumps_size lease retention signal_id reason p
  run (release_call p) signal_id =
      release store serialize parse prefix dumps_size lease retention signal_id p

  abbrev Outcome : store.State → store.State → String → AgentSignalRecord → Type 0
  Outcome s s' signal_id r' =
      (r : AgentSignalRecord) × IsReplaced store serialize parse prefix s s' signal_id r r'
      × Step lease r r'

  module _ (law : IsObjectStore store) where
    -- An update, with a transition that is a step, once the clock was read.
    update_step :
        (transition : ℕ → AgentSignalRecord → Result AgentSignalRecord)
        → ((now : ℕ) (r r' : AgentSignalRecord) → transition now r ≡ ok r' → Step lease r r')
        → (signal_id : String) (s s' : store.State) (r' : AgentSignalRecord)
        → IsFiled store serialize parse prefix s
        → (now store serialize parse prefix dumps_size lease retention >>= λ t.
              update store serialize parse prefix dumps_size lease retention signal_id
                (transition t))
            s
          ≡ (ok r', s')
        → Outcome s s' signal_id r'
    unfolding update
    update_step transition steps signal_id s s' r' filed h =
        let t = (store.clock s).0 in
        let s1 = (store.clock s).1 in
        let ticked = law.clock_later s in
        let (r, found, e) =
          update_loop_atomic law (transition t)
            (λ a b k.
              ap (λ (p : AgentSignalPayload). p.signal_id)
                (Step-SameDelivery a b (steps t a b k)).0)
            5 signal_id s1 s' r' (λ u n x l. filed u n x (law.trans s s1 u ticked l)) h in
        (
          r,
          (found.0, law.trans s s1 found.0 ticked found.1, found.2, found.3, found.4),
          steps t r r' e,
        )

    -- A call that returns a record has replaced the signal by one step of its lifecycle, whatever other
    -- clients do: at one moment of the call the object of the signal held a record from which the
    -- lifecycle steps to the returned one, and the next change of the bucket, with nothing in between,
    -- is the one that makes the object the text of the returned record. So no other client's update
    -- is lost. It is assumed that the store keeps its promises and that every record is
    -- kept under the name of its own signal.
    pub run_atomic :
        (call : Call) (signal_id : String) (s s' : store.State) (r' : AgentSignalRecord)
        → IsFiled store serialize parse prefix s
        → run call signal_id s ≡ (ok r', s')
        → Outcome s s' signal_id r'
    unfolding claim complete dismiss release
    run_atomic (claim_call p) signal_id s s' r' filed h =
        update_step (λ t. Record.claim lease t p) (λ t r x e. claims t p e) signal_id s s' r' filed
          h
    run_atomic (complete_call summary metadata p) signal_id s s' r' filed h =
        let (text, s1, e1, h1) =
          bind-eq-ok (lift (brief 1000 completion_summary_invalid summary))
            (λ text.
              lift (require (fits_metadata (dumps_size metadata)) outcome_metadata_invalid 422)
              >> (now store serialize parse prefix dumps_size lease retention >>= λ t.
                  update store serialize parse prefix dumps_size lease retention signal_id
                    (Record.complete t text metadata p)))
            s s' r' h in
        let (_, s2, e2, h2) =
          bind-eq-ok
            (lift (require (fits_metadata (dumps_size metadata)) outcome_metadata_invalid 422))
            (λ _. now store serialize parse prefix dumps_size lease retention >>= λ t.
              update store serialize parse prefix dumps_size lease retention signal_id
                (Record.complete t text metadata p))
            s1 s' r' h1 in
        let still : s ≡ s2 = ap (λ x. x.1) e1 ∙ ap (λ x. x.1) e2 in
        update_step (λ t. Record.complete t text metadata p)
          (λ t r x e. completes t text metadata p e) signal_id s s' r' filed (rw still h2)
    run_atomic (dismiss_call reason p) signal_id s s' r' filed h =
        let (text, s1, e1, h1) =
          bind-eq-ok (lift (brief 500 dismissal_reason_invalid reason))
            (λ text. now store serialize parse prefix dumps_size lease retention >>= λ t.
              update store serialize parse prefix dumps_size lease retention signal_id
                (Record.dismiss t text p))
            s s' r' h in
        let still : s ≡ s1 = ap (λ x. x.1) e1 in
        update_step (λ t. Record.dismiss t text p) (λ t r x e. dismisses t text p e) signal_id s s'
          r' filed (rw still h1)
    run_atomic (release_call p) signal_id s s' r' filed h =
        update_step (λ t. Record.release t p) (λ t r x e. releases t p e) signal_id s s' r' filed h
