-- ===== src/Tests/Tools.antt =====
-- The tools of a developer who may read and update the playbooks.
use brunova_knowledge_gatewa.Prelude.{
  ℕ, suc, String, ◌≡◌, ◌⊎◌, ◌↔◌, refl, true, false, none, some, [], ◌∷◌,
}
use brunova_knowledge_gatewa.Errors.{Result, ok, err, Error, key_error}
use brunova_knowledge_gatewa.Exec.{Exec}
use brunova_knowledge_gatewa.Json.{lookup}
use brunova_knowledge_gatewa.Registry
use brunova_knowledge_gatewa.Registry.{SourceDefinition, Classification}
use brunova_knowledge_gatewa.Principals.{
  from_record, Capability, developer, allows_provider, allows_capability, allows_source,
  source_allows, authorize_workspace_operation, authorize_provider, authorize_source_scope,
}
use brunova_knowledge_gatewa.Tools.Audit.{
  AuditRecord, success, describe, ToolCall, Callbacks, no_details,
}
use brunova_knowledge_gatewa.Tools.{
  tool_capabilities, management_only_tools, tool_authorization_error, tool_provider, contains,
  principal_can_see_tool, effective_developer_capabilities, execute_tool, check_call, check_scope,
  registered_source,
}
use brunova_knowledge_gatewa.Tools.Catalog.{MayUse, tool_authorization_error-MayUse}
use brunova_knowledge_gatewa.Tools.Execution.{MayCallOn, IsAnswer, execute_tool-MayCallOn}
use brunova_knowledge_gatewa.Tests.Access.{registry, ana}

ana_type : ana.type ≡ developer
unfolding from_record
ana_type = refl

tool_authorization_error-MayUse_example :
    (tool_authorization_error ana "rename_source_artifact" ≡ none)
    ↔ MayUse ana "rename_source_artifact"
tool_authorization_error-MayUse_example =
    tool_authorization_error-MayUse ana "rename_source_artifact" ana_type

sees :
    principal_can_see_tool ana "retrieve_document"
      (effective_developer_capabilities ana (some registry))
    ≡ true
unfolding principal_can_see_tool effective_developer_capabilities tool_authorization_error
    tool_provider contains tool_capabilities management_only_tools lookup from_record
    allows_provider allows_capability allows_source source_allows
sees = refl

-- an operation that counts its runs
abbrev counted : Exec ℕ String
counted n = (ok "text", suc n)

abbrev request : ToolCall
request = record {
  action = "retrieve_document";
  source_id = some "playbooks";
  destination_source_id = none;
  resource_id = some "doc";
}

-- the revision of a result is its text
abbrev callbacks : Callbacks String
callbacks = record {
  result_resource_id = none;
  candidate_count = none;
  proposal_id = none;
  created_resource_id = none;
  revision_id = some (λ t. ok t);
  artifact_version = none;
  asset_transformations = none;
}

abbrev entry : AuditRecord
entry = record {
  action = "retrieve_document";
  source_id = some "playbooks";
  source_classification = some Classification.internal_delivery;
  destination_source_id = none;
  result = success;
  http_status = 200;
  error_code = none;
  details = record (no_details (some "doc")) { revision_id = some "text" };
}

reads :
    execute_tool true (ok registry) ana request callbacks counted (4, [])
    ≡ (ok "text", (5, entry ∷ []))
unfolding execute_tool describe check_call check_scope registered_source Registry.get
    tool_capabilities lookup from_record authorize_workspace_operation authorize_provider
    authorize_source_scope allows_provider allows_capability allows_source source_allows
reads = refl

-- A callback that raises after the operation: the count stays, and the call raises.
undone :
    execute_tool false
      (ok registry)
      ana
      request
      (record callbacks { proposal_id = some (λ t. err key_error) })
      counted
      (4, [])
    ≡ (err key_error, (5, []))
unfolding execute_tool describe check_call check_scope registered_source Registry.get
    tool_capabilities lookup from_record authorize_workspace_operation authorize_provider
    authorize_source_scope allows_provider allows_capability allows_source source_allows
undone = refl

execute_tool-MayCallOn_example :
    ((◌≡◌ {A = ℕ} 5 4) × (e : Error) × (◌≡◌ {A = Result String} (ok "text") (err e)))
    ⊎ ((capability : Capability) × (raised : Result String) × (lookup "retrieve_document"
            tool_capabilities
          ≡ some capability)
        × MayCallOn registry ana capability (some "playbooks") none
        × (counted 4 ≡ (raised, 5))
        × IsAnswer callbacks (some "doc") raised (ok "text"))
execute_tool-MayCallOn_example =
    execute_tool-MayCallOn true ana registry request callbacks counted 4 5 [] (entry ∷ [])
      (ok "text") ana_type reads
