-- ===== src/Proposals/Store/Writing.antt =====
-- A document that is loaded and then written, in app/source_proposal_store.py: what the promises of the
-- store say of the two calls.
use brunova_knowledge_gatewa.Prelude.{
  ℕ, String, ◌≡◌, refl, sym, ap, ◌∙◌, arith, ◌<◌, List, [], Option, none, some, inl, inr, ◌⊎◌,
}
use brunova_knowledge_gatewa.Errors.{ok, ok-injective}
use brunova_knowledge_gatewa.Exec.{pair_eq}
use brunova_knowledge_gatewa.Storage.{
  Reply, done, not_found, precondition_failed, unavailable, HasGeneration, ObjectStore,
  IsObjectStore, has_generation,
}
use brunova_knowledge_gatewa.Proposals.{SourceProposalRecord}
use brunova_knowledge_gatewa.Proposals.Store.{Document, loaded, parsed, load, write, written}

module _ {C : Type 0} (store : ObjectStore C) (serialize : List SourceProposalRecord → C)
    (parse : C → Option (List SourceProposalRecord)) (object_name : String) where
  -- The document of an object, if there is one.
  abbrev pub Reads : Option (C × ℕ) → Document → ℕ → Type 0
  Reads none document generation = ◌≡◌ {A = Document × ℕ} ([], 0) (document, generation)
  Reads (some (content, g)) document generation = (parse content ≡ some document) × (g ≡ generation)

  -- The bucket holds a document in a state.
  abbrev pub Holds : store.State → Document → Type 0
  Holds t document = (g : ℕ) × Reads (store.current t object_name) document g

  written-eq-ok : (r : Reply ℕ) (u : Unit {0}) → written r ≡ ok u → (g : ℕ) × (r ≡ done g)
  written-eq-ok (done g) u h = (g, refl)
  written-eq-ok not_found u h = cc
  written-eq-ok precondition_failed u h = cc
  written-eq-ok unavailable u h = cc

  write_done :
      (document : Document) (g : ℕ) (s s' : store.State) (u : Unit {0})
      → write store serialize parse object_name document g s ≡ (ok u, s')
      → (g' : ℕ) × (store.upload object_name (serialize document) g s ≡ (done g', s'))
  unfolding write
  write_done document g s s' u h =
      let (g', e) = written-eq-ok _ u (ap (λ x. x.0) h) in (g', pair_eq e (ap (λ x. x.1) h))

  -- What a load that returned has read.
  unfoldable pub Loaded : Reply (C × ℕ) → Document → ℕ → Type 0
  Loaded x document g =
      ((content : C) × (x ≡ done (content, g)) × (parse content ≡ some document))
      ⊎ ((document ≡ []) × (g ≡ 0))

  pub loaded-eq-ok :
      (x : Reply (C × ℕ)) (document : Document) (g : ℕ)
      → loaded store serialize parse object_name x ≡ ok (document, g)
      → Loaded x document g
  unfolding Loaded
  loaded-eq-ok (done (content, k)) document g h = read (parse content) refl h
    where
      read :
          (o : Option Document)
          → parse content ≡ o
          → parsed k o ≡ ok (document, g)
          → Loaded (done (content, k)) document g
      read none e q = cc
      read (some d) e q =
          let same : ◌≡◌ {A = Document × ℕ} (d, k) (document, g) = ok-injective q in
          inl
            (content, ap (λ n. done (content, n)) (ap (λ p. p.1) same), e ∙ ap (λ p. some p.0) same)
  loaded-eq-ok not_found document g h =
      let same : ◌≡◌ {A = Document × ℕ} ([], 0) (document, g) = ok-injective h in
      inr (sym (ap (λ p. p.0) same), sym (ap (λ p. p.1) same))
  loaded-eq-ok precondition_failed document g h = cc
  loaded-eq-ok unavailable document g h = cc

  absent :
      (o : Option (C × ℕ))
      → HasGeneration o 0
      → ((x : C) (g : ℕ) → o ≡ some (x, g) → 0 < g)
      → Reads o [] 0
  absent none h positive = refl
  absent (some (x, g)) h positive = absurd (omega (arith, positive x g refl))

  -- A write that returned, of a document that was loaded: what it replaced, with nothing in between, is the
  -- document that was loaded, also if the load answered with a version from before.
  pub write_loaded :
      (law : IsObjectStore store) (document updated : Document) (g : ℕ) (s s1 s' : store.State)
      (u : Unit {0})
      → load store serialize parse object_name s ≡ (ok (document, g), s1)
      → write store serialize parse object_name updated g s1 ≡ (ok u, s')
      → (t : store.State) × store.Later s t
        × Holds t document
        × ((k : ℕ) × (store.current s' object_name ≡ some (serialize updated, k)))
        × store.Next t s'
  unfolding load Loaded
  write_loaded law document updated g s s1 s' u was_loaded put =
      let (g', uploaded) = write_done updated g s1 s' u put in
      let moved : (store.download_kept object_name s).1 ≡ s1 = ap (λ x. x.1) was_loaded in
      let first : store.Later s s1 = rw (← moved) (law.download_kept_later object_name s) in
      elim (loaded-eq-ok (store.download_kept object_name s).0 document g
        (ap (λ x. x.0) was_loaded)) [
          | inl (content, e, p) ↦
              let read : store.download_kept object_name s ≡ (done (content, g), s1) =
                pair_eq e moved in
              let (t, from, has, now_is, _, last) =
                law.upload_done object_name (serialize updated) g g' s1 s' uploaded in
              let (z, was) =
                has_generation store law (store.current t object_name) g has
                  (law.download_kept_pos object_name s s1 content g read) in
              let same : content ≡ z =
                law.download_kept_done object_name s s1 t content z g read from was in
              (
                t,
                law.trans s s1 t first from,
                (g, rw was (ap parse (sym same) ∙ p, refl)),
                (g', now_is),
                last,
              )
          | inr (nothing, zero_g) ↦
              let (t, from, has, now_is, _, last) =
                law.upload_done object_name (serialize updated) g g' s1 s' uploaded in
              let held =
                absent (store.current t object_name) (rw zero_g at has)
                  (λ x k e. law.positive t object_name x k e) in
              (t, law.trans s s1 t first from, (0, rw nothing held), (g', now_is), last)
        ]
