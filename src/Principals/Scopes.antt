-- ===== src/Principals/Scopes.antt =====
-- `authorize_workspace_operation` and the allow-lists of app/auth/principals.py.
use brunova_knowledge_gatewa.Prelude.{◌≡◌, refl, ◌↔◌, true, Option, none, some, arith, elem}
use brunova_knowledge_gatewa.Errors.{ok, err, adapter, provider_denied}
use brunova_knowledge_gatewa.Registry.{SourceDefinition}
use brunova_knowledge_gatewa.Principals.{
  Principal, Capability, DeveloperPrincipalRecord, SignalWorkerPrincipalRecord, workspace,
  developer_record, worker_record, from_record, allows_provider, allows_capability, allows_source,
  source_allows, authorize_workspace_operation,
}

-- The grants that one operation needs, apart from the order in which the code asks for them.
abbrev pub MayOperate : Principal → Capability → Option SourceDefinition → Type 0
MayOperate p capability none =
    (allows_provider p workspace ≡ true) × (allows_capability p capability ≡ true)
MayOperate p capability (some source) =
    (allows_provider p workspace ≡ true)
    × (allows_capability p capability ≡ true)
    × (allows_source p source.id ≡ true)
    × (source_allows source.capabilities capability ≡ true)

-- `authorize_workspace_operation` returns exactly when the principal has the Workspace provider
-- and the capability and, if a source is given, is scoped to it and the source allows the operation.
pub authorize_workspace_operation_iff :
    (p : Principal) (capability : Capability) (source : Option SourceDefinition)
    → (authorize_workspace_operation p capability source ≡ ok tt) ↔ MayOperate p capability source
unfolding authorize_workspace_operation
authorize_workspace_operation_iff p capability none = ground arith
authorize_workspace_operation_iff p capability (some source) = ground arith

-- A signal worker is refused every Workspace operation, on any source or none.
pub authorize_workspace_operation-worker :
    (r : SignalWorkerPrincipalRecord) (capability : Capability) (source : Option SourceDefinition)
    → authorize_workspace_operation (from_record (worker_record r)) capability source
      ≡ err (adapter provider_denied 403)
unfolding authorize_workspace_operation from_record
authorize_workspace_operation-worker r capability source = refl

-- A developer's operation on a source is let through only for a source of the record's list.
pub authorize_workspace_operation-developer :
    (r : DeveloperPrincipalRecord) (capability : Capability) (source : SourceDefinition)
    → authorize_workspace_operation (from_record (developer_record r)) capability (some source)
      ≡ ok tt
    → (elem source.id r.sources ≡ true) × (r.providers.workspace ≡ true)
unfolding authorize_workspace_operation from_record
authorize_workspace_operation-developer r capability source h = ground arith
