-- ===== src/Storage/Log/Promises.antt =====
-- The log of writes keeps what `IsObjectStore` promises.
use brunova_knowledge_gatewa.Prelude.{
  ℕ, suc, ◌<◌, String, ◌≡◌, refl, sym, ap, ◌∙◌, Bool, Option, none, some, List, [], ◌∷◌, ◌++◌,
  arith, length, length-append, ◌≢◌, eqb, false, eq_refl, eqb_iff, Bool-cases, inl, inr,
}
use mathlib.Core.List.{append_assoc}
use brunova_knowledge_gatewa.Storage.{
  Reply, done, precondition_failed, HasGeneration, IsObjectStore,
}
use brunova_knowledge_gatewa.Storage.Log.{
  Entry, write, remove, LogState, object, entry_at, generation_of, arrived, arrive, reply_object,
  Extends, OneMore, log_upload, log_delete, log_store, object_entry, entry_at-extends,
}

module _ (C : Type 0) (accepts : String → C → Bool) where
  Extends-trans : (a b c : LogState C) → Extends a b → Extends b c → Extends a c
  Extends-trans a b c (xs, p) (ys, q) =
      (ys ++ xs, append_assoc ys xs a.log ∙ ap (λ l. ys ++ l) p ∙ q)

  arrive_later : (s : LogState C) → Extends s (arrive s)
  unfolding arrive
  arrive_later s = later s.pending
    where
      later : (p : List (List (Entry C))) → Extends s (arrived p s)
      later [] = ([], refl)
      later (batch ∷ rest) = (batch, refl)

  Extends-versions :
      (a b : LogState C) (name : String) (x y : C) (g : ℕ)
      → Extends a b
      → object accepts a.log name ≡ some (x, g)
      → object accepts b.log name ≡ some (y, g)
      → x ≡ y
  Extends-versions a b name x y g (new, e) h k =
      let (at_a, fits, _) = object_entry accepts a.log name x g h in
      let (at_b, _, _) = object_entry accepts b.log name y g k in
      let kept : entry_at b.log g ≡ entry_at a.log g =
        rw (← e) (entry_at-extends new a.log g fits) in
      cc

  log_download_done :
      (name : String) (s s' : LogState C) (x : C) (g : ℕ)
      → (log_store C accepts).download name s ≡ (done (x, g), s')
      → (object accepts s'.log name ≡ some (x, g)) × (0 < g) × Extends s s'
  log_download_done name s s' x g h =
      let state : arrive s ≡ s' = ap (λ p. p.1) h in
      let found : object accepts (arrive s).log name ≡ some (x, g) =
        replied (object accepts (arrive s).log name) (ap (λ p. p.0) h) in
      let (_, _, pos) = object_entry accepts (arrive s).log name x g found in
      (rw (← state) found, pos, rw (← state) (arrive_later s))
    where
      replied : (o : Option (C × ℕ)) → reply_object o ≡ done (x, g) → o ≡ some (x, g)
      replied none e = cc
      replied (some o) e = ground arith

  log_upload_later :
      (name : String) (x : C) (g : ℕ) (s : LogState C) → Extends s (log_upload accepts name x g s).1
  unfolding log_upload
  log_upload_later name x g s =
      let (new, e) = arrive_later s in
      elim (Bool-cases (accepts name x)) [
        | inr refused ↦ rw refused (new, e)
        | inl taken ↦
            elim (Bool-cases (eqb (generation_of (object accepts (arrive s).log name)) g)) [
              | inl same ↦ rw (taken, same) (write name x ∷ new, ap (λ l. write name x ∷ l) e)
              | inr other ↦ rw (taken, other) (new, e)
            ]
      ]

  generation_has : (o : Option (C × ℕ)) (g : ℕ) → generation_of o ≡ g → HasGeneration o g
  generation_has none g e = sym e
  generation_has (some p) g e = e

  generation_of-eq : (o : Option (C × ℕ)) (g : ℕ) → HasGeneration o g → generation_of o ≡ g
  generation_of-eq none g h = sym h
  generation_of-eq (some p) g h = h

  differs : (n g : ℕ) → eqb n g ≡ false → n ≢ g
  differs n g h e = ground (arith, h, e)

  log_upload_done :
      (name : String) (x : C) (g g' : ℕ) (s s' : LogState C)
      → log_upload accepts name x g s ≡ (done g', s')
      → (t : LogState C) × Extends s t
        × HasGeneration (object accepts t.log name) g
        × (object accepts s'.log name ≡ some (x, g'))
        × (0 < g')
        × OneMore t s'
  unfolding log_upload
  log_upload_done name x g g' s s' h = elim (Bool-cases (accepts name x)) [
    | inr refused ↦ cc (rw refused at h)
    | inl taken ↦ elim (Bool-cases (eqb (generation_of (object accepts (arrive s).log name)) g)) [
      | inr other ↦ cc (rw (taken, other) at h)
      | inl same ↦
          let t = arrive s in
          let e : ◌≡◌ {A = Reply ℕ × LogState C}
              (done (suc (length t.log)), record t { log = write name x ∷ t.log }) (done g', s') =
            rw (taken, same) at h in
          let state : record t { log = write name x ∷ t.log } ≡ s' = ap (λ p. p.1) e in
          let number : ◌≡◌ {A = Reply ℕ} (done (suc (length t.log))) (done g') = ap (λ p. p.0) e in
          (
            t,
            arrive_later s,
            generation_has (object accepts t.log name) g ((eqb_iff _ _).0 same),
            rw (← state) (unfold object in ground (arith, eq_refl name, taken)),
            ground arith,
            rw (← state) (write name x, refl),
          )
    ]
  ]

  log_upload_refused :
      (name : String) (x : C) (g : ℕ) (s s' : LogState C)
      → log_upload accepts name x g s ≡ (precondition_failed, s')
      → ¬ HasGeneration (object accepts s'.log name) g
  unfolding log_upload
  log_upload_refused name x g s s' h = elim (Bool-cases (accepts name x)) [
    | inr refused ↦ cc (rw refused at h)
    | inl taken ↦ elim (Bool-cases (eqb (generation_of (object accepts (arrive s).log name)) g)) [
      | inl same ↦ cc (rw (taken, same) at h)
      | inr other ↦
          let state : arrive s ≡ s' = ap (λ p. p.1) (rw (taken, other) at h) in
          rw (← state) (λ has.
            absurd
              (differs _ g other (generation_of-eq (object accepts (arrive s).log name) g has)))
    ]
  ]

  -- An object that is written after a state has a greater generation than the log was long.
  later_generation :
      (new log : List (Entry C)) (name : String) (y : C) (k : ℕ)
      → object accepts log name ≡ none
      → object accepts (new ++ log) name ≡ some (y, k)
      → length log < k
  unfolding object
  later_generation [] log name y k gone h = cc
  later_generation (write n x ∷ new) log name y k gone h =
      ground (arith, later_generation new log name y k, length-append new log)
  later_generation (remove n ∷ new) log name y k gone h =
      ground (arith, later_generation new log name y k)

  log_never_again :
      (a b c : LogState C) (name : String) (x y : C) (g : ℕ)
      → Extends a b
      → Extends b c
      → object accepts a.log name ≡ some (x, g)
      → object accepts b.log name ≡ none
      → object accepts c.log name ≢ some (y, g)
  log_never_again a b c name x y g (new, e) (more, f) was gone again =
      let (_, old, _) = object_entry accepts a.log name x g was in
      let young = later_generation more b.log name y g gone (rw f again) in
      absurd (omega (arith, ap length e, length-append new a.log))

  log_delete_later :
      (name : String) (g : ℕ) (s : LogState C) → Extends s (log_delete accepts name g s).1
  unfolding log_delete
  log_delete_later name g s =
      let (new, e) = arrive_later s in
      elim (Bool-cases (eqb (generation_of (object accepts (arrive s).log name)) g)) [
        | inl same ↦ rw same (remove name ∷ new, ap (λ l. remove name ∷ l) e)
        | inr other ↦ rw other (new, e)
      ]

  log_delete_done :
      (name : String) (g : ℕ) (s s' : LogState C)
      → log_delete accepts name g s ≡ (done tt, s')
      → (t : LogState C) × Extends s t
        × HasGeneration (object accepts t.log name) g
        × (object accepts s'.log name ≡ none)
        × OneMore t s'
  unfolding log_delete
  log_delete_done name g s s' h =
      elim (Bool-cases (eqb (generation_of (object accepts (arrive s).log name)) g)) [
        | inr other ↦ cc (rw other at h)
        | inl same ↦
            let t = arrive s in
            let e : ◌≡◌ {A = Reply (Unit {0}) × LogState C}
                (done tt, record t { log = remove name ∷ t.log }) (done tt, s') =
              rw same at h in
            let state : record t { log = remove name ∷ t.log } ≡ s' = ap (λ p. p.1) e in
            (
              t,
              arrive_later s,
              generation_has (object accepts t.log name) g ((eqb_iff _ _).0 same),
              rw (← state) (unfold object in ground (arith, eq_refl name)),
              rw (← state) (remove name, refl),
            )
      ]

  pub log_store-IsObjectStore : IsObjectStore (log_store C accepts)
  log_store-IsObjectStore = record {
    itself = λ s. ([], refl);
    trans = Extends-trans;
    versions = Extends-versions;
    next_later = λ s t (e, q). (e ∷ [], q);
    never_again = log_never_again;
    clock_later = λ s. ([], refl);
    download_later = λ name s. arrive_later s;
    positive = λ s name x g h. (object_entry accepts s.log name x g h).2;
    download_done = log_download_done;
    download_kept_done = λ name s s' t x y g h later now.
        Extends-versions s' t name x y g later (log_download_done name s s' x g h).0 now;
    download_kept_pos = λ name s s' x g h. (log_download_done name s s' x g h).1;
    download_kept_later = λ name s. arrive_later s;
    upload_refused = log_upload_refused;
    upload_later = log_upload_later;
    upload_done = log_upload_done;
    delete_later = log_delete_later;
    delete_done = log_delete_done;
  }
