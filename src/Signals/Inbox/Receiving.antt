-- ===== src/Signals/Inbox/Receiving.antt =====
-- `receive` of app/agent_signals.py: a delivery is stored once, and never over another record.
use brunova_knowledge_gatewa.Prelude.{
  ℕ, ◌<◌, String, ◌≡◌, refl, sym, ap, ◌∙◌, ◌⊎◌, inl, inr, Bool, true, false, List, Option, none,
  some, arith,
}
use brunova_knowledge_gatewa.Errors.{ok, ok-injective}
use brunova_knowledge_gatewa.Exec.{Exec, pure, lift, ◌>>=◌, bind-eq-ok, pair_eq}
use brunova_knowledge_gatewa.Json.{Json}
use brunova_knowledge_gatewa.Storage.{
  Reply, done, not_found, precondition_failed, unavailable, HasGeneration, ObjectStore,
  IsObjectStore,
}
use brunova_knowledge_gatewa.Signals.Payload.{AgentSignalPayload}
use brunova_knowledge_gatewa.Signals.Record.{AgentSignalRecord, checked_delivery}
use brunova_knowledge_gatewa.Signals.Backend
use brunova_knowledge_gatewa.Signals.Backend.{StoredSignal, blob_name, created}
use brunova_knowledge_gatewa.Signals.Backend.Replacing.{IsWritten, read_done}
use brunova_knowledge_gatewa.Signals.Inbox.{Delivery, now, existing, receive}

module _ {C : Type 0} (store : ObjectStore C) (serialize : AgentSignalRecord → C)
    (parse : C → Option AgentSignalRecord) (prefix : String)
    (dumps_size : List (String × Json) → Option ℕ) (lease retention : ℕ) where
  abbrev pub delivery_of : Bool → AgentSignalRecord → Delivery
  delivery_of made known = record {
    signal_id = known.payload.signal_id;
    signal_type = known.payload.signal_type;
    created = made;
    status = known.status;
  }

  abbrev known_for : AgentSignalRecord → Bool → Exec store.State Delivery
  known_for r made =
      existing store serialize parse prefix dumps_size lease retention made r >>= λ known.
      pure (delivery_of made known)

  abbrev store_delivery : AgentSignalRecord → Exec store.State Delivery
  store_delivery r = Backend.create store serialize parse prefix r >>= known_for r

  -- How a delivery was stored from `s` to `s'`. Either there was no object of the signal at `t`, and the next
  -- change made it the record; or the only write that was asked for was refused, in a state that has an
  -- object of the signal, and the rest is one read, which gives the record that the answer is about.
  abbrev pub IsReceived : store.State → store.State → AgentSignalRecord → Delivery → Type 0
  IsReceived s s' r d =
      ((t : store.State) × store.Later s t
        × (store.current t (blob_name store serialize parse prefix r.payload.signal_id) ≡ none)
        × IsWritten store serialize parse prefix s' r.payload.signal_id r
        × store.Next t s'
        × (d ≡ delivery_of true r))
      ⊎ ((known : AgentSignalRecord) × (s1 : store.State) × (x raw : C) × (k g : ℕ) × (store.upload
              (blob_name store serialize parse prefix r.payload.signal_id) (serialize r) 0 s
            ≡ (precondition_failed, s1))
          × (store.current s1 (blob_name store serialize parse prefix r.payload.signal_id)
              ≡ some (x, k))
          × (store.download (blob_name store serialize parse prefix r.payload.signal_id) s1
              ≡ (done (raw, g), s'))
          × (store.current s' (blob_name store serialize parse prefix r.payload.signal_id)
              ≡ some (raw, g))
          × (parse raw ≡ some known)
          × (d ≡ delivery_of false known))

  created-true : (x : Reply ℕ) → created x ≡ ok true → (g : ℕ) × (x ≡ done g)
  created-true (done g) h = (g, refl)
  created-true not_found h = cc
  created-true precondition_failed h = cc (ok-injective {a = false} {b = true} h)
  created-true unavailable h = cc

  created-false : (x : Reply ℕ) → created x ≡ ok false → x ≡ precondition_failed
  created-false (done g) h = cc (ok-injective {a = true} {b = false} h)
  created-false not_found h = cc
  created-false precondition_failed h = refl
  created-false unavailable h = cc

  -- An object that has not the generation 0 is there.
  present : (o : Option (C × ℕ)) → ¬ HasGeneration o 0 → (x : C) × (k : ℕ) × (o ≡ some (x, k))
  present none h = absurd (h refl)
  present (some (x, k)) h = (x, k, refl)

  module _ (law : IsObjectStore store) where
    no_object :
        (o : Option (C × ℕ))
        → HasGeneration o 0
        → ((x : C) (g : ℕ) → o ≡ some (x, g) → 0 < g)
        → o ≡ none
    no_object none has positive = refl
    no_object (some (x, g)) has positive = absurd (omega (arith, positive x g refl))

    known_for-IsReceived :
        (r : AgentSignalRecord) (made : Bool) (d : Delivery) (s s1 s' : store.State)
        → Backend.create store serialize parse prefix r s ≡ (ok made, s1)
        → known_for r made s1 ≡ (ok d, s')
        → IsReceived s s' r d
    unfolding existing Backend.create
    known_for-IsReceived r true d s s1 s' e h =
        let name = blob_name store serialize parse prefix r.payload.signal_id in
        let (g, uploaded) =
          created-true (store.upload name (serialize r) 0 s).0 (ap (λ x. x.0) e) in
        let moved = ap (λ x. x.1) e ∙ ap (λ x. x.1) h in
        let (t, from, was, now_is, positive, last) =
          law.upload_done name (serialize r) 0 g s s' (pair_eq uploaded moved) in
        inl (
          t,
          from,
          no_object (store.current t name) was (law.positive t name),
          (g, now_is),
          last,
          sym (ok-injective (ap (λ x. x.0) h)),
        )
    known_for-IsReceived r false d s s1 s' e h =
        let (known, s2, e2, h2) =
          bind-eq-ok (existing store serialize parse prefix dumps_size lease retention false r)
            (λ k. pure (delivery_of false k)) s1 s' d h in
        let (item, s3, read, h3) =
          bind-eq-ok (Backend.read store serialize parse prefix r.payload.signal_id)
            (λ i. pure i.value) s1 s2 known e2 in
        let name = blob_name store serialize parse prefix r.payload.signal_id in
        let refused : store.upload name (serialize r) 0 s ≡ (precondition_failed, s1) =
          pair_eq (created-false _ (ap (λ x. x.0) e)) (ap (λ x. x.1) e) in
        let (x, k, there) =
          present (store.current s1 name) (law.upload_refused name (serialize r) 0 s s1 refused) in
        let (raw, answered, parsed) =
          read_done store serialize parse prefix r.payload.signal_id s1 s3 item read in
        let arrived : s3 ≡ s' = ap (λ y. y.1) h3 ∙ ap (λ y. y.1) h2 in
        let downloaded_it : store.download name s1 ≡ (done (raw, item.generation), s') =
          answered ∙ ap (λ y. (done (raw, item.generation), y)) arrived in
        let (found, _, _) = law.download_done name s1 s' raw item.generation downloaded_it in
        inr (
          item.value,
          s1,
          x,
          raw,
          k,
          item.generation,
          refused,
          there,
          downloaded_it,
          found,
          parsed,
          sym (ok-injective (ap (λ x. x.0) h2))
              ∙ ap (delivery_of false) (sym (ok-injective (ap (λ x. x.0) h3))),
        )

    -- A delivery that was received has passed the checks of a record, as of a moment of the clock. Either
    -- its signal had no object, and the next change of the bucket, with nothing in between, made the
    -- object the new record, which the answer is about. Or the call's one attempt to write was refused
    -- because the signal had an object, the call did nothing else but read that object, and the answer is
    -- about the record that was read: a delivery that comes again replaces no record. It is assumed that
    -- the bucket keeps its promises.
    pub receive-IsReceived :
        (payload : AgentSignalPayload) (message_id : String) (publish_time : Option ℕ)
        (attributes : List (String × String)) (d : Delivery) (s s' : store.State)
        → receive store serialize parse prefix dumps_size lease retention payload message_id
            publish_time attributes s
          ≡ (ok d, s')
        → (time : ℕ) × (r : AgentSignalRecord) × ((store.clock s).0 ≡ time)
          × (checked_delivery payload message_id publish_time attributes time ≡ ok r)
          × IsReceived (store.clock s).1 s' r d
    unfolding receive
    receive-IsReceived payload message_id publish_time attributes d s s' h =
        let checked = λ (t : ℕ). checked_delivery payload message_id publish_time attributes t in
        let (time, s1, e, h1) =
          bind-eq-ok (now store serialize parse prefix dumps_size lease retention)
            (λ t. lift (checked t) >>= store_delivery) s s' d h in
        let (r, s2, e1, h2) = bind-eq-ok (lift (checked time)) store_delivery s1 s' d h1 in
        let (made, s3, e2, h3) =
          bind-eq-ok (Backend.create store serialize parse prefix r) (known_for r) s2 s' d h2 in
        let start = ap (λ x. x.1) e ∙ ap (λ x. x.1) e1 in
        (
          time,
          r,
          ok-injective (ap (λ x. x.0) e),
          ap (λ x. x.0) e1,
          known_for-IsReceived r made d (store.clock s).1 s3 s'
              (ap (Backend.create store serialize parse prefix r) start ∙ e2) h3,
        )
