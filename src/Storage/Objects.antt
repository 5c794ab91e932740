-- ===== src/Storage/Objects.antt =====
-- One object of a bucket, as `CloudStorageOAuthStateBackend` of app/adapters/hubspot/token_store.py reads,
-- writes and deletes it: a missing object is read as nothing, of generation 0.
use brunova_knowledge_gatewa.Prelude.{
  ℕ, ◌<◌, String, ◌≡◌, refl, ap, ◌∙◌, Option, none, some, arith, ◌⊎◌, inl, inr,
}
use brunova_knowledge_gatewa.Errors.{Error, Result, ok, err, object_conflict, ok-injective}
use brunova_knowledge_gatewa.Exec.{Exec, pair_eq}
use brunova_knowledge_gatewa.Storage.{
  Reply, done, not_found, precondition_failed, unavailable, HasGeneration, ObjectStore,
  IsObjectStore, write_after_read, still_read,
}

module _ {C : Type 0} (store : ObjectStore C) (failure : Error) where
  abbrev pub read_reply : Reply (C × ℕ) → Result (Option C × ℕ)
  read_reply (done (content, g)) = ok (some content, g)
  read_reply not_found = ok (none, 0)
  read_reply _ = err failure

  abbrev pub write_reply : Reply ℕ → Result ℕ
  write_reply (done g) = ok g
  write_reply precondition_failed = err object_conflict
  write_reply _ = err failure

  abbrev pub delete_reply : Reply (Unit {0}) → Result (Unit {0})
  delete_reply (done u) = ok tt
  delete_reply unavailable = err failure
  delete_reply _ = err object_conflict

  unfoldable pub read_object : String → Exec store.State (Option C × ℕ)
  read_object name s = let (reply, s') = store.download name s in (read_reply reply, s')

  unfoldable pub write_object : String → C → ℕ → Exec store.State ℕ
  write_object name content g s =
      let (reply, s') = store.upload name content g s in (write_reply reply, s')

  unfoldable pub delete_object : String → ℕ → Exec store.State (Unit {0})
  delete_object name g s = let (reply, s') = store.delete name g s in (delete_reply reply, s')

  -- An object is what was read.
  abbrev pub Matches : Option (C × ℕ) → Option C → ℕ → Type 0
  Matches none read g = (none ≡ read) × (0 ≡ g)
  Matches (some (content, k)) read g = (some content ≡ read) × (k ≡ g)

  pub Matches-some :
      (o : Option (C × ℕ)) (content : C) (g : ℕ)
      → Matches o (some content) g
      → o ≡ some (content, g)
  Matches-some none content g m = cc (m.0)
  Matches-some (some (x, k)) content g m =
      ap some (pair_eq (ap (elim [ none ↦ x | some y ↦ y ]) m.0) m.1)

  read_reply-eq-ok :
      (r : Reply (C × ℕ)) (o : Option C) (g : ℕ)
      → read_reply r ≡ ok (o, g)
      → ((content : C) × (r ≡ done (content, g)) × (some content ≡ o)) ⊎ ((none ≡ o) × (0 ≡ g))
  read_reply-eq-ok (done (content, k)) o g h =
      let e : ◌≡◌ {A = Option C × ℕ} (some content, k) (o, g) = ok-injective h in
      inl (content, ap (λ n. done (content, n)) (ap (λ p. p.1) e), ap (λ p. p.0) e)
  read_reply-eq-ok not_found o g h =
      let e : ◌≡◌ {A = Option C × ℕ} (none, 0) (o, g) = ok-injective h in
      inr (ap (λ p. p.0) e, ap (λ p. p.1) e)
  read_reply-eq-ok precondition_failed o g h = cc
  read_reply-eq-ok unavailable o g h = cc

  write_reply-eq-ok : (r : Reply ℕ) (g : ℕ) → write_reply r ≡ ok g → r ≡ done g
  write_reply-eq-ok (done k) g h = ap (λ n. done n) (ok-injective h)
  write_reply-eq-ok not_found g h = cc
  write_reply-eq-ok precondition_failed g h = cc
  write_reply-eq-ok unavailable g h = cc

  delete_reply-eq-ok : (r : Reply (Unit {0})) (u : Unit {0}) → delete_reply r ≡ ok u → r ≡ done tt
  delete_reply-eq-ok (done v) u h = refl
  delete_reply-eq-ok not_found u h = cc
  delete_reply-eq-ok precondition_failed u h = cc
  delete_reply-eq-ok unavailable u h = cc

  absent :
      (o : Option (C × ℕ))
      → HasGeneration o 0
      → ((x : C) (g : ℕ) → o ≡ some (x, g) → 0 < g)
      → Matches o none 0
  absent none h positive = (refl, refl)
  absent (some (x, g)) h positive = absurd (omega (arith, positive x g refl))

  module _ (law : IsObjectStore store) where
    pub read_object_later : (name : String) (s : store.State) → store.Later s (read_object name s).1
    unfolding read_object
    read_object_later name s = law.download_later name s

    pub write_object_later :
        (name : String) (content : C) (g : ℕ) (s : store.State)
        → store.Later s (write_object name content g s).1
    unfolding write_object
    write_object_later name content g s = law.upload_later name content g s

    -- A read of an object that is there, and the state after it.
    pub read_object_found :
        (name : String) (s s' : store.State) (content : C) (g : ℕ)
        → read_object name s ≡ (ok (some content, g), s')
        → store.current s' name ≡ some (content, g)
    unfolding read_object
    read_object_found name s s' content g h =
        elim (read_reply-eq-ok (store.download name s).0 (some content) g (ap (λ x. x.0) h)) [
          | inr (nothing, _) ↦ cc
          | inl (c, e, same) ↦
              let (now_is, _, _) = law.download_done name s s' c g (pair_eq e (ap (λ x. x.1) h)) in
              now_is ∙ ap (elim [ none ↦ none | some x ↦ some (x, g) ]) same
        ]

    -- A conditional write after a read: it replaced what was read, whatever happened in between.
    pub write_object_after_read :
        (name : String) (content : C) (read : Option C) (g g' : ℕ) (s s1 s2 s' : store.State)
        → read_object name s ≡ (ok (read, g), s1)
        → store.Later s1 s2
        → write_object name content g s2 ≡ (ok g', s')
        → (t : store.State) × store.Later s1 t
          × Matches (store.current t name) read g
          × (store.current s' name ≡ some (content, g'))
          × store.Next t s'
    unfolding read_object write_object
    write_object_after_read name content read g g' s s1 s2 s' was_read later put =
        let uploaded : store.upload name content g s2 ≡ (done g', s') =
          pair_eq (write_reply-eq-ok _ g' (ap (λ x. x.0) put)) (ap (λ x. x.1) put) in
        let moved : (store.download name s).1 ≡ s1 = ap (λ x. x.1) was_read in
        elim (read_reply-eq-ok (store.download name s).0 read g (ap (λ x. x.0) was_read)) [
          | inl (c, e, same) ↦
              let (t, from, was, now_is, last) =
                write_after_read store law name c content g g' s s1 s2 s' (pair_eq e moved) later
                  uploaded in
              (t, from, rw was (same, refl), now_is, last)
          | inr (nothing, zero_g) ↦
              let (t, from, has, now_is, _, last) =
                law.upload_done name content g g' s2 s' uploaded in
              let gone =
                absent (store.current t name) (rw (← zero_g) at has)
                  (λ x k e. law.positive t name x k e) in
              (t, law.trans s1 s2 t later from, rw (← nothing, ← zero_g) gone, now_is, last)
        ]

    -- A conditional deletion of an object that was read: at its moment the object was still the one
    -- read, and afterwards it is gone.
    pub delete_object_after_read :
        (name : String) (content : C) (g : ℕ) (s s1 s2 s' : store.State) (u : Unit {0})
        → read_object name s ≡ (ok (some content, g), s1)
        → store.Later s1 s2
        → delete_object name g s2 ≡ (ok u, s')
        → (t : store.State) × store.Later s1 t
          × (store.current t name ≡ some (content, g))
          × (store.current s' name ≡ none)
          × store.Next t s'
    unfolding delete_object
    delete_object_after_read name content g s s1 s2 s' u was_read later put =
        let deleted : store.delete name g s2 ≡ (done tt, s') =
          pair_eq (delete_reply-eq-ok _ u (ap (λ x. x.0) put)) (ap (λ x. x.1) put) in
        let seen = read_object_found name s s1 content g was_read in
        let (t, from, has, gone, last) = law.delete_done name g s2 s' deleted in
        let history = law.trans s1 s2 t later from in
        (t, history, still_read store law name content g s1 t seen history has, gone, last)
