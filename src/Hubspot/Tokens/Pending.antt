-- ===== src/Hubspot/Tokens/Pending.antt =====
-- The pending authorizations of app/adapters/hubspot/token_store.py: a state is used once.
use brunova_knowledge_gatewa.Prelude.{
  ℕ, ◌<◌, String, ◌==◌, ◌≡◌, ◌≢◌, refl, ap, ◌∙◌, subst, Option, none, some, leb, arith, eq_iff,
  Bool-cases, Option-cases, inl, inr,
}
use brunova_knowledge_gatewa.Errors.{ok, ok-injective}
use brunova_knowledge_gatewa.Exec.{lift, on_conflict, bind-eq-ok, on_conflict-eq-ok}
use brunova_knowledge_gatewa.Storage.{ObjectStore, IsObjectStore}
use brunova_knowledge_gatewa.Storage.Objects.{
  read_object, delete_object, read_object_later, delete_object_after_read,
}
use brunova_knowledge_gatewa.Hubspot.Tokens.{
  Codec, PendingAuthorization, unavailable_error, state_invalid, read, now, pending_name,
  check_pending, unexpired, consume_checked, consume_deleted, consume_found, consume_pending,
}

module _ {C : Type 0} (store : ObjectStore C) (codec : Codec C) (prefix : String) where
  check_pending-eq-ok :
      (state : String) (o : Option C) (pending : PendingAuthorization)
      → check_pending store codec prefix state o ≡ ok pending
      → (content : C) × (o ≡ some content)
        × (codec.parse_pending content ≡ some pending)
        × (pending.state_digest ≡ codec.digest state)
  unfolding check_pending
  check_pending-eq-ok state none pending h = cc
  check_pending-eq-ok state (some content) pending h =
      elim (Option-cases (codec.parse_pending content)) [
        | inl nothing ↦ cc (rw (nothing, check_pending) at h)
        | inr (x, e) ↦ elim (Bool-cases (x.state_digest == codec.digest state)) [
          | inr other ↦ cc (rw (e, other, check_pending) at h)
          | inl mine ↦
              let same : x ≡ pending = ok-injective (rw (e, mine, check_pending) at h) in
              (
                content,
                refl,
                e ∙ ap some same,
                subst (λ (y : PendingAuthorization). y.state_digest ≡ codec.digest state) same
                    ((eq_iff _ _).0 mine),
              )
        ]
      ]

  unexpired-eq-ok :
      (p pending : PendingAuthorization) (at : ℕ)
      → unexpired p at ≡ ok pending
      → (p ≡ pending) × (at < p.expires_at)
  unexpired-eq-ok p pending at h = elim (Bool-cases (leb p.expires_at at)) [
    | inl old ↦ cc (rw old at h)
    | inr fresh ↦ (ok-injective (rw fresh at h), ground arith)
  ]

  -- A consumption from `s` to `s'` that gave a pending authorization: the bucket held it at `t`, the next
  -- change of the bucket, to `t'`, is the deletion, and an object of its generation never comes back.
  abbrev pub IsConsumed : store.State → store.State → String → PendingAuthorization → Type 0
  IsConsumed s s' state pending =
      (t t' : store.State) × (content : C) × (g at : ℕ) × (store.Later s t
        × store.Next t t'
        × store.Later t' s')
      × (store.current t (pending_name store codec prefix state) ≡ some (content, g))
      × (codec.parse_pending content ≡ some pending)
      × (pending.state_digest ≡ codec.digest state)
      × (store.current t' (pending_name store codec prefix state) ≡ none)
      × ((v : store.State) (y : C)
          → store.Later t' v
          → store.current v (pending_name store codec prefix state) ≢ some (y, g))
      × (now store codec prefix t' ≡ (ok at, s'))
      × (at < pending.expires_at)

  -- A callback's state is accepted only if the bucket held a pending authorization under the digest
  -- of the state, which was made for that state and had not expired when the clock was read after
  -- its deletion. The call's deletion removed exactly that object: nothing came between the moment
  -- that held it and the moment without it, and from then on the object of that name never again has
  -- its generation, so that no other consumption can delete it too. It is assumed that the bucket
  -- keeps its promises.
  pub consume_pending-deletes :
      (law : IsObjectStore store) (state : String) (pending : PendingAuthorization)
      (s s' : store.State)
      → consume_pending store codec prefix state s ≡ (ok pending, s')
      → IsConsumed s s' state pending
  unfolding consume_pending
  consume_pending-deletes law state pending s s' h =
      let name : String = pending_name store codec prefix state in
      let ((o, g), s1, was_read, h1) =
        bind-eq-ok (read store codec prefix name) (consume_found store codec prefix state) s s'
          pending h in
      let (p, s2, e2, h2) =
        bind-eq-ok (lift (check_pending store codec prefix state o))
          (consume_checked store codec prefix state g) s1 s' pending h1 in
      let (u, s3, e3, h3) =
        bind-eq-ok (on_conflict state_invalid (delete_object store unavailable_error name g))
          (consume_deleted store codec prefix p) s2 s' pending h2 in
      let (at, s4, e4, h4) =
        bind-eq-ok (now store codec prefix) (λ t. lift (unexpired p t)) s3 s' pending h3 in
      let (content, is_content, parsed, mine) = check_pending-eq-ok state o p (ap (λ x. x.0) e2) in
      let found : read_object store unavailable_error name s ≡ (ok (some content, g), s1) =
        was_read ∙ ap (λ x. (ok (x, g), s1)) is_content in
      let moved : store.Later s1 s2 = subst (store.Later s1) (ap (λ x. x.1) e2) (law.itself s1) in
      let (t, from, was, gone, last) =
        delete_object_after_read store unavailable_error law name content g s s1 s2 s3 u found moved
          (on_conflict-eq-ok state_invalid (delete_object store unavailable_error name g) s2 s3 u
            e3) in
      let first : store.Later s s1 =
        subst (store.Later s) (ap (λ x. x.1) found)
          (read_object_later store unavailable_error law name s) in
      let (same, fresh) = unexpired-eq-ok p pending at (ap (λ x. x.0) h4) in
      let arrived : s4 ≡ s' = ap (λ x. x.1) h4 in
      let ticked : store.Later s3 s' =
        subst (store.Later s3) (ap (λ x. x.1) e4 ∙ arrived) (law.clock_later s3) in
      (
        t,
        s3,
        content,
        g,
        at,
        (law.trans s s1 t first from, last, ticked),
        was,
        parsed ∙ ap some same,
        subst (λ (y : PendingAuthorization). y.state_digest ≡ codec.digest state) same mine,
        gone,
        λ v y l. law.never_again t s3 v name content y g (law.next_later t s3 last) l was gone,
        e4 ∙ ap (λ x. (ok at, x)) arrived,
        subst (λ (y : PendingAuthorization). at < y.expires_at) same fresh,
      )
