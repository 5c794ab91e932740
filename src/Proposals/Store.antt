-- ===== src/Proposals/Store.antt =====
-- app/source_proposal_store.py: one document of proposals, as one object of a bucket. The YAML text is
-- written and read by a library: `serialize` and `parse` are parameters, and `parse` gives nothing on
-- a text that is not a document.
pub mod Writing
pub mod Appending
use brunova_knowledge_gatewa.Prelude.{
  ℕ, zero, suc, String, ◌==◌, Bool, true, false, List, [], ◌∷◌, ◌++◌, Option, none, some, any, find,
  if◌then◌else◌,
}
use brunova_knowledge_gatewa.Errors.{
  Error, Result, ok, err, adapter, object_conflict, source_proposal_store_conflict,
  source_proposal_not_found, source_proposal_store_invalid, source_proposal_store_unavailable,
}
use brunova_knowledge_gatewa.Exec.{Exec, pure, raise, lift, attempt, ◌>>=◌, ◌>>◌}
use brunova_knowledge_gatewa.Storage.{
  Reply, done, not_found, precondition_failed, unavailable, ObjectStore,
}
use brunova_knowledge_gatewa.Proposals.{SourceProposal, SourceProposalRecord, from_proposal}

abbrev pub store_unavailable : Error
store_unavailable = adapter source_proposal_store_unavailable 503

abbrev pub Document : Type 0
Document = List SourceProposalRecord

abbrev pub written : Reply ℕ → Result (Unit {0})
written (done g) = ok tt
written precondition_failed = err object_conflict
written _ = err store_unavailable

-- the end of `_load`, of a text that parses or not
abbrev pub parsed : ℕ → Option Document → Result (Document × ℕ)
parsed generation none = err (adapter source_proposal_store_invalid 503)
parsed generation (some document) = ok (document, generation)

abbrev pub max_write_attempts : ℕ
max_write_attempts = 5

abbrev pub has_id : String → SourceProposalRecord → Bool
has_id proposal_id item = item.proposal_id == proposal_id

abbrev listed : Option SourceProposalRecord → Result SourceProposalRecord
listed none = err (adapter source_proposal_not_found 404)
listed (some proposal) = ok proposal

module _ {C : Type 0} (store : ObjectStore C) (serialize : List SourceProposalRecord → C)
    (parse : C → Option (List SourceProposalRecord)) (object_name : String) where
  -- `read` of the backend and `_load`: a missing object is the empty document of generation 0
  abbrev pub loaded : Reply (C × ℕ) → Result (Document × ℕ)
  loaded (done (content, generation)) = parsed generation (parse content)
  loaded not_found = ok ([], 0)
  loaded _ = err store_unavailable

  -- The backend keeps one blob object, which may remember a generation from an earlier call.
  unfoldable pub load : Exec store.State (Document × ℕ)
  load s = let (reply, s') = store.download_kept object_name s in (loaded reply, s')

  -- `write` of the backend
  unfoldable pub write : Document → ℕ → Exec store.State (Unit {0})
  write document generation s =
      let (reply, s') = store.upload object_name (serialize document) generation s in
      (written reply, s')

  abbrev pub answer :
      SourceProposalRecord
      → Exec store.State SourceProposalRecord
      → Bool
      → Exec store.State SourceProposalRecord
  answer r rest won = if won then pure r else rest

  -- one round of the loop of `create`, with what the next rounds give
  abbrev pub append_to :
      SourceProposalRecord
      → Exec store.State SourceProposalRecord
      → Document × ℕ
      → Exec store.State SourceProposalRecord
  append_to r rest (document, generation) =
      if any (has_id r.proposal_id) document
      then pure r
      else attempt (write (document ++ r ∷ []) generation) >>= answer r rest

  -- the loop of `create`
  unfoldable pub create_loop : ℕ → SourceProposalRecord → Exec store.State SourceProposalRecord
  create_loop zero r = raise (adapter source_proposal_store_conflict 409)
  create_loop (suc attempts) r = let rest = create_loop attempts r in load >>= append_to r rest

  unfoldable pub create : (String → String) → SourceProposal → Exec store.State SourceProposalRecord
  unfolding create_loop
  create sha256_hex proposal = do
    r ← lift (from_proposal sha256_hex proposal)
    create_loop max_write_attempts r

  unfoldable pub list : Exec store.State Document
  unfolding load
  list = do loaded_document ← load; pure loaded_document.0

  unfoldable pub get : String → Exec store.State SourceProposalRecord
  unfolding list
  get proposal_id = do proposals ← list; lift (listed (find (has_id proposal_id) proposals))
