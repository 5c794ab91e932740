-- ===== src/Signals/Backend.antt =====
-- `CloudStorageAgentSignalBackend` of app/agent_signals.py: signals as objects of a bucket, each write
-- conditional on a generation. The JSON text of a record is written and read by pydantic: `serialize`
-- and `parse` are parameters, and `parse` gives nothing on a `ValidationError`.
pub mod Replacing
use brunova_knowledge_gatewa.Prelude.{
  ℕ, String, Bool, true, false, Option, none, some, List, [], ◌∷◌, if◌then◌else◌,
}
use brunova_knowledge_gatewa.Prelude.Text.{append, ends_with}
use brunova_knowledge_gatewa.Errors.{
  Error, Result, ok, err, adapter, object_conflict, agent_signal_not_found,
  agent_signal_store_invalid, agent_signal_store_unavailable,
}
use brunova_knowledge_gatewa.Exec.{Exec, pure, raise, lift, ◌>>=◌}
use brunova_knowledge_gatewa.Storage.{
  Reply, done, not_found, precondition_failed, unavailable, ObjectStore,
}
use brunova_knowledge_gatewa.Signals.Payload.{AgentSignalPayload}
use brunova_knowledge_gatewa.Signals.Record.{AgentSignalRecord}

-- StoredSignal; `record` is a word of the language
pub record StoredSignal : Type 0 where
  pub value : AgentSignalRecord
  pub generation : ℕ

abbrev pub store_unavailable : Error
store_unavailable = adapter agent_signal_store_unavailable 503

-- The outcomes of a storage call, as each method turns them into results and exceptions.
abbrev pub created : Reply ℕ → Result Bool
created (done g) = ok true
created precondition_failed = ok false
created _ = err store_unavailable

abbrev pub replaced : Reply ℕ → Result (Unit {0})
replaced (done g) = ok tt
replaced precondition_failed = err object_conflict
replaced _ = err store_unavailable

abbrev deleted : Reply (Unit {0}) → Result (Unit {0})
deleted (done u) = ok tt
deleted unavailable = err store_unavailable
deleted _ = ok tt

-- `_stored`, of a text that parses or not
unfoldable pub stored : Option AgentSignalRecord → ℕ → Result StoredSignal
stored none generation = err (adapter agent_signal_store_invalid 503)
stored (some value) generation = ok (record { value = value; generation = generation })

module _ {C : Type 0} (store : ObjectStore C) (serialize : AgentSignalRecord → C)
    (parse : C → Option AgentSignalRecord) (prefix : String) where
  abbrev pub downloaded : Reply (C × ℕ) → Result StoredSignal
  downloaded (done (raw, generation)) = stored (parse raw) generation
  downloaded not_found = err (adapter agent_signal_not_found 404)
  downloaded _ = err store_unavailable

  abbrev version_downloaded : ℕ → Reply C → Result StoredSignal
  version_downloaded generation (done raw) = stored (parse raw) generation
  version_downloaded generation _ = err store_unavailable

  -- the name of `_blob(signal_id)`
  unfoldable pub blob_name : String → String
  blob_name signal_id = append prefix (append signal_id ".json")

  unfoldable pub create : AgentSignalRecord → Exec store.State Bool
  unfolding blob_name
  create r s =
      let (reply, s') = store.upload (blob_name r.payload.signal_id) (serialize r) 0 s in
      (created reply, s')

  unfoldable pub read : String → Exec store.State StoredSignal
  unfolding blob_name stored
  read signal_id s =
      let (reply, s') = store.download (blob_name signal_id) s in (downloaded reply, s')

  unfoldable pub replace : AgentSignalRecord → ℕ → Exec store.State (Unit {0})
  unfolding blob_name
  replace r generation s =
      let (reply, s') = store.upload (blob_name r.payload.signal_id) (serialize r) generation s in
      (replaced reply, s')

  unfoldable pub delete : String → ℕ → Exec store.State (Unit {0})
  unfolding blob_name
  delete signal_id generation s =
      let (reply, s') = store.delete (blob_name signal_id) generation s in (deleted reply, s')

  -- `blob.download_as_bytes()` and `_stored`, for a listed blob
  unfoldable pub read_listed : String → ℕ → Exec store.State StoredSignal
  unfolding stored
  read_listed name generation s =
      let (reply, s') = store.download_version name generation s in
      (version_downloaded generation reply, s')

  -- the loop of `list`
  unfoldable pub read_blobs : List (String × ℕ) → Exec store.State (List StoredSignal)
  unfolding read_listed ends_with
  read_blobs [] = pure []
  read_blobs ((name, generation) ∷ blobs) =
      let rest = read_blobs blobs in
      if ends_with ".json" name
      then (do item ← read_listed name generation; items ← rest; pure (item ∷ items))
      else rest

  abbrev blobs_listed : Reply (List (String × ℕ)) → Result (List (String × ℕ))
  blobs_listed (done blobs) = ok blobs
  blobs_listed _ = err store_unavailable

  unfoldable pub list_blobs : Exec store.State (List (String × ℕ))
  list_blobs s = let (reply, s') = store.list_blobs prefix s in (blobs_listed reply, s')

  unfoldable pub list : Exec store.State (List StoredSignal)
  unfolding read_blobs list_blobs
  list = do blobs ← list_blobs; read_blobs blobs
