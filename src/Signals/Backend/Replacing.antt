-- ===== src/Signals/Backend/Replacing.antt =====
-- A signal that is read and then replaced, in app/agent_signals.py: what the promises of the store
-- say of the two calls.
use brunova_knowledge_gatewa.Prelude.{ℕ, String, ◌≡◌, refl, ap, ◌∙◌, Option, none, some}
use brunova_knowledge_gatewa.Errors.{ok, ok-injective}
use brunova_knowledge_gatewa.Exec.{pair_eq}
use brunova_knowledge_gatewa.Storage.{
  Reply, done, not_found, precondition_failed, unavailable, ObjectStore, IsObjectStore,
  write_after_read,
}
use brunova_knowledge_gatewa.Signals.Record.{AgentSignalRecord}
use brunova_knowledge_gatewa.Signals.Backend
use brunova_knowledge_gatewa.Signals.Backend.{StoredSignal, stored, blob_name, downloaded, replaced}

module _ {C : Type 0} (store : ObjectStore C) (serialize : AgentSignalRecord → C)
    (parse : C → Option AgentSignalRecord) (prefix : String) where
  -- The object of a signal holds a record.
  abbrev pub Holds : store.State → String → AgentSignalRecord → Type 0
  Holds t signal_id r =
      (raw : C) × (g : ℕ) × (store.current t (blob_name store serialize parse prefix signal_id)
        ≡ some (raw, g))
      × (parse raw ≡ some r)

  -- Every record is kept under the name of its own signal, in each state from `s` on.
  abbrev pub IsFiled : store.State → Type 0
  IsFiled s =
      (t : store.State) (signal_id : String) (r : AgentSignalRecord)
      → store.Later s t
      → Holds t signal_id r
      → blob_name store serialize parse prefix r.payload.signal_id
        ≡ blob_name store serialize parse prefix signal_id

  -- The object of a signal is the text of a record.
  abbrev pub IsWritten : store.State → String → AgentSignalRecord → Type 0
  IsWritten t signal_id r =
      (g : ℕ) × (store.current t (blob_name store serialize parse prefix signal_id)
        ≡ some (serialize r, g))

  downloaded-eq-ok :
      (r : Reply (C × ℕ)) (item : StoredSignal)
      → downloaded store serialize parse prefix r ≡ ok item
      → (raw : C) × (r ≡ done (raw, item.generation)) × (parse raw ≡ some item.value)
  unfolding stored
  downloaded-eq-ok (done (raw, g)) item h = parsed (parse raw) refl h
    where
      parsed :
          (o : Option AgentSignalRecord)
          → parse raw ≡ o
          → stored o g ≡ ok item
          → (x : C) × ◌≡◌ {A = Reply (C × ℕ)} (done (raw, g)) (done (x, item.generation))
            × (parse x ≡ some item.value)
      parsed none e k = cc
      parsed (some v) e k =
          let same = ok-injective k in
          (
            raw,
            ap (λ (i : StoredSignal). done (raw, i.generation)) same,
            e ∙ ap (λ (i : StoredSignal). some i.value) same,
          )
  downloaded-eq-ok not_found item h = cc
  downloaded-eq-ok precondition_failed item h = cc
  downloaded-eq-ok unavailable item h = cc

  pub read_done :
      (signal_id : String) (s s' : store.State) (item : StoredSignal)
      → Backend.read store serialize parse prefix signal_id s ≡ (ok item, s')
      → (raw : C) × (store.download (blob_name store serialize parse prefix signal_id) s
          ≡ (done (raw, item.generation), s'))
        × (parse raw ≡ some item.value)
  unfolding Backend.read
  read_done signal_id s s' item h =
      let (raw, e, p) = downloaded-eq-ok _ item (ap (λ x. x.0) h) in
      (raw, pair_eq e (ap (λ x. x.1) h), p)

  replaced-eq-ok : (x : Reply ℕ) (u : Unit {0}) → replaced x ≡ ok u → (g : ℕ) × (x ≡ done g)
  replaced-eq-ok (done g) u h = (g, refl)
  replaced-eq-ok not_found u h = cc
  replaced-eq-ok precondition_failed u h = cc
  replaced-eq-ok unavailable u h = cc

  replace_done :
      (r : AgentSignalRecord) (g : ℕ) (s s' : store.State) (u : Unit {0})
      → Backend.replace store serialize parse prefix r g s ≡ (ok u, s')
      → (g' : ℕ) × (store.upload
            (blob_name store serialize parse prefix r.payload.signal_id)
            (serialize r)
            g
            s
          ≡ (done g', s'))
  unfolding Backend.replace
  replace_done r g s s' u h =
      let (g', e) = replaced-eq-ok _ u (ap (λ x. x.0) h) in (g', pair_eq e (ap (λ x. x.1) h))

  abbrev pub IsReplaced :
      store.State → store.State → String → AgentSignalRecord → AgentSignalRecord → Type 0
  IsReplaced s s' signal_id r r' =
      (t : store.State) × store.Later s t
      × Holds t signal_id r
      × IsWritten s' signal_id r'
      × store.Next t s'

  module _ (law : IsObjectStore store) where
    pub read-Holds :
        (signal_id : String) (s s' : store.State) (item : StoredSignal)
        → Backend.read store serialize parse prefix signal_id s ≡ (ok item, s')
        → Holds s' signal_id item.value × store.Later s s'
    read-Holds signal_id s s' item h =
        let (raw, e, parsed) = read_done signal_id s s' item h in
        let (found, _, later) = law.download_done _ s s' raw item.generation e in
        ((raw, item.generation, found, parsed), later)

    -- A replacement that returned, of a record that was read.
    pub replace_read :
        (signal_id : String) (item : StoredSignal) (r' : AgentSignalRecord) (s s1 s' : store.State)
        (u : Unit {0})
        → Backend.read store serialize parse prefix signal_id s ≡ (ok item, s1)
        → Backend.replace store serialize parse prefix r' item.generation s1 ≡ (ok u, s')
        → blob_name store serialize parse prefix r'.payload.signal_id
          ≡ blob_name store serialize parse prefix signal_id
        → IsReplaced s s' signal_id item.value r'
    replace_read signal_id item r' s s1 s' u was_read written same =
        let (raw, e, parsed) = read_done signal_id s s1 item was_read in
        let (g', put) = replace_done r' item.generation s1 s' u written in
        let (_, _, first) = law.download_done _ s s1 raw item.generation e in
        let (t, from, was, now_is, last) =
          write_after_read store law _ raw (serialize r') item.generation g' s s1 s1 s' e
            (law.itself s1) (rw (← same) put) in
        (t, law.trans s s1 t first from, (raw, item.generation, was, parsed), (g', now_is), last)

    pub replace_later :
        (r : AgentSignalRecord) (g : ℕ) (s : store.State)
        → store.Later s (Backend.replace store serialize parse prefix r g s).1
    unfolding Backend.replace
    replace_later r g s = law.upload_later _ (serialize r) g s
