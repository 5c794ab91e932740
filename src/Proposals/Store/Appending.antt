-- ===== src/Proposals/Store/Appending.antt =====
-- What `YamlSourceProposalStore.create` of app/source_proposal_store.py leaves in the bucket.
use brunova_knowledge_gatewa.Prelude.{
  ℕ, String, ◌≡◌, true, false, List, [], ◌∷◌, ◌++◌, Option, some, any, ◌⊎◌,
}
use brunova_knowledge_gatewa.Storage.{done, ObjectStore}
use brunova_knowledge_gatewa.Proposals.{SourceProposalRecord}
use brunova_knowledge_gatewa.Proposals.Store.{Document, has_id}
use brunova_knowledge_gatewa.Proposals.Store.Writing.{Holds}

module _ {C : Type 0} (store : ObjectStore C) (serialize : List SourceProposalRecord → C)
    (parse : C → Option (List SourceProposalRecord)) (object_name : String) where
  -- A creation from `s` to `s'`. Either it ended with a read that gave a document which has the id of
  -- its record already; or its write replaced, with nothing in between, a document without the id by that
  -- document with the record appended.
  abbrev pub IsRecorded : store.State → store.State → SourceProposalRecord → Type 0
  IsRecorded s s' r =
      ((s1 : store.State) × (content : C) × (g : ℕ) × (document : Document) × store.Later s s1
        × (store.download_kept object_name s1 ≡ (done (content, g), s'))
        × (parse content ≡ some document)
        × (any (has_id r.proposal_id) document ≡ true))
      ⊎ ((t : store.State) × (document : Document) × store.Later s t
          × Holds store serialize parse object_name t document
          × (any (has_id r.proposal_id) document ≡ false)
          × ((k : ℕ) × (store.current s' object_name ≡ some (serialize (document ++ r ∷ []), k)))
          × store.Next t s')
