-- ===== src/Hubspot/Tokens/Leases.antt =====
-- The refresh lease of app/adapters/hubspot/token_store.py: who holds it, and what happens to the connection
-- until it is given back.
use brunova_knowledge_gatewa.Prelude.{
  ℕ, ◌≤◌, String, ◌≡◌, ◌≢◌, ◌⊎◌, refl, sym, ap, ◌∙◌, subst, Bool, true, false, not, ◌&&◌, Option,
  none, some, eqb, arith, eq_iff, Bool-cases, Option-cases, inl, inr,
}
use brunova_knowledge_gatewa.Prelude.Text.{append}
use brunova_knowledge_gatewa.Errors.{
  ok, adapter, require, ok-injective, hubspot_refresh_in_progress,
}
use brunova_knowledge_gatewa.Exec.{lift, on_conflict, bind-eq-ok, on_conflict-eq-ok, pair_eq}
use brunova_knowledge_gatewa.Storage.{ObjectStore, IsObjectStore}
use brunova_knowledge_gatewa.Storage.Objects.{
  read_object, read_object_later, write_object_after_read, Matches-some,
}
use brunova_knowledge_gatewa.Hubspot.Tokens.{
  ConnectionState, active, refreshing, reauthorization_required, lock_runs, Codec, same_lock,
  decrypted, leased, lease_of, lock_connection, acquire_at, acquire_usable, acquire_from,
  complete_at, complete_held, complete_from, or_scope, HubSpotConnectionDocument, RefreshLease,
  unavailable_error, is_locked, needs_authorization, locked, refreshed, holds_lease, now,
  connection_parsed, read_connection, write_connection, usable, acquire_refresh_lease,
  complete_refresh, refresh_conflict, held,
}

some-injective : {A : Type 0} {a b : A} → some a ≡ some b → a ≡ b
some-injective {A} {a} h = ap (elim [ none ↦ a | some x ↦ x ]) h

not_required :
    (b : Bool) (u : Unit {0}) → require (not b) hubspot_refresh_in_progress 409 ≡ ok u → b ≡ false
not_required b u h = ground arith

-- The document is not being refreshed, or its lock has no end or one that has passed.
abbrev pub IsFree : ℕ → HubSpotConnectionDocument → Type 0
IsFree at d =
    (d.status ≢ refreshing)
    ⊎ (d.refresh_lock_expires_at ≡ none)
    ⊎ ((expires : ℕ) × (d.refresh_lock_expires_at ≡ some expires) × (expires ≤ at))

free_of :
    (status : ConnectionState) (expiry : Option ℕ) (at : ℕ)
    → lock_runs status expiry at ≡ false
    → (status ≢ refreshing)
      ⊎ (expiry ≡ none)
      ⊎ ((expires : ℕ) × (expiry ≡ some expires) × (expires ≤ at))
unfolding lock_runs
free_of refreshing none at h = inr (inl refl)
free_of refreshing (some expires) at h = inr (inr (expires, refl, ground (arith, h)))
free_of active expiry at h = inl (cc)
free_of reauthorization_required expiry at h = inl (cc)

unlocked-IsFree : (at : ℕ) (d : HubSpotConnectionDocument) → is_locked at d ≡ false → IsFree at d
unfolding is_locked
unlocked-IsFree at d h = free_of d.status d.refresh_lock_expires_at at h

module _ {C : Type 0} (store : ObjectStore C) (codec : Codec C) (prefix : String) where
  abbrev name : String
  name = append prefix "/connection.json"

  connection_parsed-eq-ok :
      (o : Option C) (d : HubSpotConnectionDocument)
      → connection_parsed store codec prefix o ≡ ok (some d)
      → (content : C) × (o ≡ some content) × (codec.parse_document content ≡ some d)
  unfolding connection_parsed
  connection_parsed-eq-ok none d h = cc
  connection_parsed-eq-ok (some content) d h = elim (Option-cases (codec.parse_document content)) [
    | inl nothing ↦ cc (rw (nothing, connection_parsed) at h)
    | inr (x, e) ↦
        let same : ok (some x) ≡ ok (some d) = rw (e, connection_parsed) at h in
        (content, refl, e ∙ ok-injective same)
  ]

  -- A connection that was read is the document of the object.
  read_connection_done :
      (d : HubSpotConnectionDocument) (g : ℕ) (s s' : store.State)
      → read_connection store codec prefix s ≡ (ok (some d, g), s')
      → (content : C) × (read_object store unavailable_error name s ≡ (ok (some content, g), s'))
        × (codec.parse_document content ≡ some d)
  unfolding read_connection
  read_connection_done d g s s' h =
      let (found, s1, e1, h1) =
        bind-eq-ok (read_object store unavailable_error name) _ s s' (some d, g) h in
      let (o, s2, e2, h2) =
        bind-eq-ok (lift (connection_parsed store codec prefix found.0)) _ s1 s' (some d, g) h1 in
      let last : ◌≡◌ {A = Option HubSpotConnectionDocument × ℕ} (o, found.1) (some d, g) =
        ok-injective (ap (λ x. x.0) h2) in
      let (content, is_content, parsed) =
        connection_parsed-eq-ok found.0 d (ap (λ x. x.0) e2 ∙ ap (λ x. ok x.0) last) in
      let arrived : s1 ≡ s' = ap (λ x. x.1) e2 ∙ ap (λ x. x.1) h2 in
      let exact : ◌≡◌ {A = Option C × ℕ} found (some content, g) =
        pair_eq is_content (ap (λ x. x.1) last) in
      (content, e1 ∙ pair_eq (ap ok exact) arrived, parsed)

  usable-eq-ok :
      (o : Option HubSpotConnectionDocument) (d : HubSpotConnectionDocument)
      → usable store codec prefix o ≡ ok d
      → (o ≡ some d) × (needs_authorization d.status ≡ false)
  unfolding usable
  usable-eq-ok none d h = cc
  usable-eq-ok (some x) d h = elim (Bool-cases (needs_authorization x.status)) [
    | inl bad ↦ cc (rw (bad, usable) at h)
    | inr good ↦
        let same = ok-injective (rw (good, usable) at h) in
        (
          ap some same,
          subst (λ (y : HubSpotConnectionDocument). needs_authorization y.status ≡ false) same good,
        )
  ]

  -- The connection of the bucket is a document, of a generation.
  abbrev pub IsConnection : store.State → HubSpotConnectionDocument → ℕ → Type 0
  IsConnection t d g =
      (content : C) × (store.current t name ≡ some (content, g))
      × (codec.parse_document content ≡ some d)

  -- A lease that an acquisition from `s` to `s'` gave: at one moment of it the connection was an
  -- authorized document with no lock that still ran, and at its end it is that document, locked under
  -- the lease's id and of the lease's generation.
  abbrev pub IsLeased : store.State → store.State → String → ℕ → RefreshLease → Type 0
  IsLeased s s' lock_id ttl lease =
      (t : store.State) × (d : HubSpotConnectionDocument) × (g : ℕ) × (at : ℕ) × store.Later s t
      × IsConnection t d g
      × (needs_authorization d.status ≡ false)
      × IsFree at d
      × (lease.lock_id ≡ lock_id)
      × (store.current s' name
          ≡ some (codec.write_document (locked at ttl lock_id d), lease.generation))
      × store.Next t s'

  -- A completion from `s` to `s'`: at one moment of it the connection had the generation and the lock
  -- id of the lease, and at its end it is that document with the new token.
  abbrev pub IsCompleted :
      store.State → store.State → RefreshLease → String → String → Option String → ℕ → Type 0
  IsCompleted s s' lease nonce token scope g' =
      (t : store.State) × (d : HubSpotConnectionDocument) × (at : ℕ) × store.Later s t
      × IsConnection t d lease.generation
      × (d.refresh_lock_id ≡ some lease.lock_id)
      × (store.current s' name
          ≡ some (
            codec.write_document
                (refreshed at (codec.encrypt nonce token) (or_scope scope lease.scope) d),
            g',
          ))
      × store.Next t s'

  same_parts :
      (lease : RefreshLease) (lock : Option String) (g : ℕ)
      → (eqb g lease.generation && same_lock lock lease.lock_id) ≡ true
      → (g ≡ lease.generation) × (lock ≡ some lease.lock_id)
  same_parts lease none g h = absurd (ground arith)
  same_parts lease (some id) g h = (ground arith, ap some (ground (arith, eq_iff id lease.lock_id)))

  lease_parts :
      (lease : RefreshLease) (d : HubSpotConnectionDocument) (g : ℕ)
      → holds_lease lease (some d) g ≡ true
      → (g ≡ lease.generation) × (d.refresh_lock_id ≡ some lease.lock_id)
  unfolding holds_lease
  lease_parts lease d g h = same_parts lease d.refresh_lock_id g h

  module _ (law : IsObjectStore store) where
    -- A document that was read, and the write that follows: at the moment of the write it was still the
    -- connection.
    replaced :
        (d d' : HubSpotConnectionDocument) (g g' now_at : ℕ) (s s1 s2 s' : store.State)
        → read_connection store codec prefix s ≡ (ok (some d, g), s1)
        → now store codec prefix s1 ≡ (ok now_at, s2)
        → write_connection store codec prefix d' g s2 ≡ (ok g', s')
        → (t : store.State) × store.Later s t
          × IsConnection t d g
          × (store.current s' name ≡ some (codec.write_document d', g'))
          × store.Next t s'
    replaced d d' g g' now_at s s1 s2 s' was_read clocked put =
        let (content, e, parsed) = read_connection_done d g s s1 was_read in
        let ticked : store.Later s1 s2 = rw (← ap (λ x. x.1) clocked) (law.clock_later s1) in
        let first : store.Later s s1 =
          rw (← ap (λ x. x.1) e) (read_object_later store unavailable_error law name s) in
        let (t, from, matches, now_is, last) =
          write_object_after_read store unavailable_error law name (codec.write_document d')
            (some content) g g' s s1 s2 s' e ticked put in
        (
          t,
          law.trans s s1 t first from,
          (
            content,
            Matches-some store unavailable_error (store.current t name) content g matches,
            parsed,
          ),
          now_is,
          last,
        )

    -- the end of an acquisition, from the test of the lock on
    acquired :
        (lock_id : String) (ttl : ℕ) (lease : RefreshLease) (d : HubSpotConnectionDocument)
        (found : Option HubSpotConnectionDocument) (g at : ℕ) (s s1 s2 s3 s' : store.State)
        → read_connection store codec prefix s ≡ (ok (found, g), s1)
        → lift (usable store codec prefix found) s1 ≡ (ok d, s2)
        → now store codec prefix s2 ≡ (ok at, s3)
        → acquire_at store codec prefix lock_id ttl g d at s3 ≡ (ok lease, s')
        → IsLeased s s' lock_id ttl lease
    acquired lock_id ttl lease d found g at s s1 s2 s3 s' was_read e2 e3 h3 =
        let (u, s4, e4, h4) =
          bind-eq-ok (lift (require (not (is_locked at d)) hubspot_refresh_in_progress 409))
            (lock_connection store codec prefix lock_id ttl g d at) s3 s' lease h3 in
        let (g', s5, e5, h5) =
          bind-eq-ok
            (on_conflict (adapter hubspot_refresh_in_progress 409)
              (write_connection store codec prefix (locked at ttl lock_id d) g))
            (lease_of store codec prefix lock_id d) s4 s' lease h4 in
        let (token, s6, e6, h6) =
          bind-eq-ok (lift (decrypted store codec prefix (codec.decrypt d.encrypted_refresh_token)))
            (leased store codec prefix lock_id d g') s5 s' lease h5 in
        let given : leased store codec prefix lock_id d g' token s6 ≡ (ok lease, s') = h6 in
        let lease_is = ok-injective (ap (λ x. x.0) given) in
        let (is_found, good) = usable-eq-ok found d (ap (λ x. x.0) e2) in
        let free : is_locked at d ≡ false = not_required (is_locked at d) u (ap (λ x. x.0) e4) in
        let read_d : read_connection store codec prefix s ≡ (ok (some d, g), s1) =
          was_read ∙ ap (λ o. (ok (o, g), s1)) is_found in
        let clocked : now store codec prefix s1 ≡ (ok at, s3) =
          ap (now store codec prefix) (ap (λ x. x.1) e2) ∙ e3 in
        let put : write_connection store codec prefix (locked at ttl lock_id d) g s3 ≡ (ok g', s') =
          ap (write_connection store codec prefix (locked at ttl lock_id d) g) (ap (λ x. x.1) e4)
          ∙ on_conflict-eq-ok (adapter hubspot_refresh_in_progress 409)
              (write_connection store codec prefix (locked at ttl lock_id d) g) s4 s5 g' e5
          ∙ ap (λ x. (ok g', x)) (ap (λ x. x.1) e6 ∙ ap (λ x. x.1) given) in
        let (t, from, was, now_is, last) =
          replaced d (locked at ttl lock_id d) g g' at s s1 s3 s' read_d clocked put in
        (
          t,
          d,
          g,
          at,
          from,
          was,
          good,
          unlocked-IsFree at d free,
          sym (ap (λ l. l.lock_id) lease_is),
          now_is
              ∙ ap (λ k. some (codec.write_document (locked at ttl lock_id d), k))
                  (ap (λ l. l.generation) lease_is),
          last,
        )

    -- A refresh lease is given only on a connection that is authorized and not locked by a lease that
    -- still runs: at one moment of the call the connection was such a document, and when the lease is
    -- given the bucket holds that document, locked under the lease's own id and generation. Two
    -- clients that race for a lease are told apart by the bucket: it is assumed that it keeps its
    -- promises.
    pub acquire_refresh_lease-unlocked :
        (lock_id : String) (ttl : ℕ) (lease : RefreshLease) (s s' : store.State)
        → acquire_refresh_lease store codec prefix lock_id ttl s ≡ (ok lease, s')
        → IsLeased s s' lock_id ttl lease
    unfolding acquire_refresh_lease
    acquire_refresh_lease-unlocked lock_id ttl lease s s' h =
        let ((found, g), s1, was_read, h1) =
          bind-eq-ok (read_connection store codec prefix)
            (acquire_from store codec prefix lock_id ttl) s s' lease h in
        let (d, s2, e2, h2) =
          bind-eq-ok (lift (usable store codec prefix found))
            (acquire_usable store codec prefix lock_id ttl g) s1 s' lease h1 in
        let (at, s3, e3, h3) =
          bind-eq-ok (now store codec prefix) (acquire_at store codec prefix lock_id ttl g d) s2 s'
            lease h2 in
        acquired lock_id ttl lease d found g at s s1 s2 s3 s' was_read e2 e3 h3

    held-eq-ok :
        (lease : RefreshLease) (o : Option HubSpotConnectionDocument) (g : ℕ)
        (d : HubSpotConnectionDocument)
        → held store codec prefix lease o g ≡ ok d
        → (o ≡ some d) × (g ≡ lease.generation) × (d.refresh_lock_id ≡ some lease.lock_id)
    unfolding holds_lease
    held-eq-ok lease none g d h = cc
    held-eq-ok lease (some x) g d h = elim (Bool-cases (holds_lease lease (some x) g)) [
      | inr other ↦ cc (rw other at h)
      | inl mine ↦
          let same = ok-injective (rw mine at h) in
          let (generation, lock) = lease_parts lease x g mine in
          (ap some same, generation, ap (λ y. y.refresh_lock_id) (sym same) ∙ lock)
    ]

    -- A refresh is completed only on a connection that still carries the lease: at the moment of its
    -- write the connection had the generation and the lock id of the lease, and afterwards it is that
    -- document, unlocked, active and with the new token. It is assumed that the bucket keeps its
    -- promises.
    pub complete_refresh-held :
        (lease : RefreshLease) (nonce token : String) (scope : Option String) (g' : ℕ)
        (s s' : store.State)
        → complete_refresh store codec prefix lease nonce token scope s ≡ (ok g', s')
        → IsCompleted s s' lease nonce token scope g'
    unfolding complete_refresh
    complete_refresh-held lease nonce token scope g' s s' h =
        let enc : String = codec.encrypt nonce token in
        let ((found, g), s1, was_read, h1) =
          bind-eq-ok (read_connection store codec prefix)
            (complete_from store codec prefix lease enc scope) s s' g' h in
        let (d, s2, e2, h2) =
          bind-eq-ok (lift (held store codec prefix lease found g))
            (complete_held store codec prefix lease enc scope g) s1 s' g' h1 in
        let (at, s3, e3, h3) =
          bind-eq-ok (now store codec prefix) (complete_at store codec prefix lease enc scope g d)
            s2 s' g' h2 in
        let (is_found, generation, lock) = held-eq-ok lease found g d (ap (λ x. x.0) e2) in
        let read_d : read_connection store codec prefix s ≡ (ok (some d, g), s1) =
          was_read ∙ ap (λ o. (ok (o, g), s1)) is_found in
        let clocked : now store codec prefix s1 ≡ (ok at, s3) =
          ap (now store codec prefix) (ap (λ x. x.1) e2) ∙ e3 in
        let fresh : HubSpotConnectionDocument = refreshed at enc (or_scope scope lease.scope) d in
        let put : write_connection store codec prefix fresh g s3 ≡ (ok g', s') =
          on_conflict-eq-ok refresh_conflict (write_connection store codec prefix fresh g) s3 s' g'
            h3 in
        let (t, from, was, now_is, last) = replaced d fresh g g' at s s1 s3 s' read_d clocked put in
        (t, d, at, from, subst (IsConnection t d) generation was, lock, now_is, last)

    -- A lease that was acquired and then completed, whatever other clients did in between: the refresh
    -- was not interrupted. The acquisition's write replaced the connection that it locked, with nothing
    -- in between. The completion's write replaced, with nothing in between, exactly the document and
    -- the generation that the acquisition wrote, so the stored connection is the connection that was
    -- leased with nothing changed but the new token, its scope, the time, the status and the lock. It
    -- is assumed that the bucket keeps its promises and that a document that is written can be read
    -- back.
    pub complete_refresh-acquire_refresh_lease :
        ((d : HubSpotConnectionDocument) → codec.parse_document (codec.write_document d) ≡ some d)
        → (lock_id nonce token : String) (scope : Option String) (ttl g' : ℕ) (lease : RefreshLease)
          (s s1 s2 s3 : store.State)
        → acquire_refresh_lease store codec prefix lock_id ttl s ≡ (ok lease, s1)
        → store.Later s1 s2
        → complete_refresh store codec prefix lease nonce token scope s2 ≡ (ok g', s3)
        → (t t' : store.State) × (d : HubSpotConnectionDocument) × (g : ℕ) × (at now_at : ℕ)
          × store.Later s t
          × IsConnection t d g
          × store.Next t s1
          × IsConnection t' (locked at ttl lock_id d) lease.generation
          × store.Later s2 t'
          × store.Next t' s3
          × (store.current s3 name
              ≡ some (
                codec.write_document (
                    refreshed now_at
                      (codec.encrypt nonce token)
                      (or_scope scope lease.scope)
                      (locked at ttl lock_id d)),
                g',
              ))
    complete_refresh-acquire_refresh_lease readable lock_id nonce token scope ttl g' lease s s1 s2
          s3 acquire later complete =
        let (t, d, g, at, from, was, _, _, _, put, last) =
          acquire_refresh_lease-unlocked lock_id ttl lease s s1 acquire in
        let (t', d', now_at, from', (content, here, parsed), _, now_is, last') =
          complete_refresh-held lease nonce token scope g' s2 s3 complete in
        let leased_d : HubSpotConnectionDocument = locked at ttl lock_id d in
        let same : codec.write_document leased_d ≡ content =
          law.versions s1 t' name (codec.write_document leased_d) content lease.generation
            (law.trans s1 s2 t' later from') put here in
        let same_d : d' ≡ leased_d =
          some-injective (sym parsed ∙ ap codec.parse_document (sym same) ∙ readable leased_d) in
        (
          t,
          t',
          d,
          g,
          at,
          now_at,
          from,
          was,
          last,
          (content, here, parsed ∙ ap some same_d),
          from',
          last',
          now_is
              ∙ ap
                  (λ x. some (
                    codec.write_document (
                        refreshed now_at (codec.encrypt nonce token) (or_scope scope lease.scope)
                          x),
                    g',
                  ))
                  same_d,
        )
