-- ===== src/Tools.antt =====
-- The authorization of tools in app/mcp_server.py: which principal may call a tool, which tools it sees, and
-- what `_execute_tool` checks, runs and records. The names of the acquisition tools are those of
-- app/acquisition.py.
pub mod Audit
pub mod Catalog
pub mod Execution
pub mod Auditing
use brunova_knowledge_gatewa.Prelude.{
  ℕ, String, ◌==◌, Bool, true, false, not, ◌&&◌, ◌||◌, Option, none, some, List, [], ◌∷◌, any, keep,
  elem, if◌then◌else◌, ltb, eqb,
}
use brunova_knowledge_gatewa.Prelude.Text.{starts_with, is_empty}
use brunova_knowledge_gatewa.Errors.{
  Code, Error, Result, ok, err, adapter, tool_denied, provider_denied, capability_denied,
  source_not_found, ◌>>=◌, ◌>>◌, require, artifact_reference_unavailable,
  artifact_reference_required,
}
use brunova_knowledge_gatewa.Exec.{Exec}
use brunova_knowledge_gatewa.Tools.Audit.{
  AuditRecord, ToolCall, Callbacks, describe, with_details, conclude,
}
use brunova_knowledge_gatewa.Json.{Json, lookup}
use brunova_knowledge_gatewa.Registry
use brunova_knowledge_gatewa.Registry.{Classification, SourceDefinition, SourceRegistry, is_active}
use brunova_knowledge_gatewa.Principals.{
  Principal, PrincipalType, management, developer, signal_worker, Provider, Capability,
  SignalWorkerOperation, allows_provider, allows_capability, allows_source, source_allows,
  authorize_workspace_operation,
}

-- TOOLS of app/acquisition.py
unfoldable pub acquisition_tools : List String
acquisition_tools =
    "acquisition_list_cycles" ∷ "acquisition_get_cycle" ∷ "acquisition_list_accounts"
    ∷ "acquisition_get_account" ∷ "acquisition_list_priorities" ∷ "acquisition_list_attention"
    ∷ "acquisition_get_attention" ∷ "acquisition_get_attention_counts" ∷ "acquisition_list_work"
    ∷ "acquisition_get_health" ∷ "acquisition_request_research" ∷ "acquisition_get_buyer_dry_run"
    ∷ "acquisition_request_buyer_dry_run" ∷ "acquisition_record_attention_disposition"
    ∷ "acquisition_authorize_controlled_effect" ∷ "acquisition_request_effect_reconciliation"
    ∷ "acquisition_acknowledge_effect_attention" ∷ "acquisition_edit_message_draft"
    ∷ "acquisition_get_effect" ∷ "acquisition_get_effect_bindings"
    ∷ "acquisition_list_effect_attention" ∷ "acquisition_list_crm"
    ∷ "acquisition_request_pre_outbound_sync" ∷ "acquisition_request_crm_reconciliation"
    ∷ "acquisition_review_commercial_handoff" ∷ "acquisition_accept_commercial_handoff"
    ∷ "acquisition_list_opportunity_pool" ∷ "acquisition_get_cycle_review"
    ∷ "acquisition_compose_wave" ∷ "acquisition_review_wave" ∷ "acquisition_request_reconsideration"
    ∷ "acquisition_stop_discovery" ∷ "acquisition_get_cycle_policy" ∷ "acquisition_resolve_accounts"
    ∷ "acquisition_retain_opportunity" ∷ "acquisition_pause_cycle"
    ∷ "acquisition_get_policy_settings" ∷ "acquisition_propose_discovery_limit"
    ∷ "acquisition_confirm_policy_proposal" ∷ "acquisition_get_operating_model"
    ∷ "acquisition_get_activation_preflight" ∷ "acquisition_get_discovery"
    ∷ "acquisition_request_discovery_planning" ∷ "acquisition_request_authenticated_research"
    ∷ "acquisition_record_commercial_calibration" ∷ "acquisition_record_work_plan"
    ∷ "acquisition_approve_conversation_worthiness" ∷ "acquisition_approve_work_plan"
    ∷ "acquisition_record_allocation_outcomes" ∷ "acquisition_record_exploratory_wave"
    ∷ "acquisition_record_exploratory_wave_review"
    ∷ "acquisition_record_target_resolution_direction"
    ∷ "acquisition_record_target_resolution_result" ∷ "acquisition_record_copy_review"
    ∷ "acquisition_record_7eb2_decisions_and_draft" ∷ "acquisition_authorize_7eb2_scania_attempt_1"
    ∷ "acquisition_record_discovery_investigation" ∷ "acquisition_request_candidate_investigation"
    ∷ "acquisition_begin_discovery_batch" ∷ "acquisition_finish_discovery_batch"
    ∷ "acquisition_archive_candidate" ∷ "acquisition_restore_candidate" ∷ []

unfoldable pub management_only_tools : List String
management_only_tools =
    "get_operation_history" ∷ "discover_source_candidates" ∷ "get_source_candidate_details"
    ∷ "create_source_proposal" ∷ "list_source_proposals" ∷ "get_source_proposal"
    ∷ "list_agent_signals" ∷ "get_agent_signal" ∷ "claim_agent_signal" ∷ "complete_agent_signal"
    ∷ "dismiss_agent_signal" ∷ "release_agent_signal" ∷ "agent_signal_status"
    ∷ "get_agent_signal_operation_history" ∷ "inspect_visual_asset" ∷ "edit_source_document_images"
    ∷ "inspect_docx_structure" ∷ "edit_source_docx" ∷ "validate_docx_structure" ∷ []

unfoldable pub signal_worker_tools : List (String × SignalWorkerOperation)
signal_worker_tools =
    ("list_agent_signals", SignalWorkerOperation.list)
    ∷ ("get_agent_signal", SignalWorkerOperation.get)
    ∷ ("claim_agent_signal", SignalWorkerOperation.claim)
    ∷ ("release_agent_signal", SignalWorkerOperation.release)
    ∷ ("complete_agent_signal", SignalWorkerOperation.complete)
    ∷ ("dismiss_agent_signal", SignalWorkerOperation.dismiss)
    ∷ []

unfoldable pub tool_capabilities : List (String × Capability)
tool_capabilities =
    ("list_sources", Capability.read)
    ∷ ("resolve_source_artifact", Capability.read)
    ∷ ("inspect_document_structure", Capability.read)
    ∷ ("inspect_document_tab", Capability.read)
    ∷ ("validate_document_structure", Capability.read)
    ∷ ("inspect_spreadsheet_structure", Capability.read)
    ∷ ("validate_spreadsheet_structure", Capability.read)
    ∷ ("list_source_documents", Capability.read)
    ∷ ("inspect_source_artifacts", Capability.read)
    ∷ ("retrieve_document", Capability.read)
    ∷ ("retrieve_sheet_range", Capability.read)
    ∷ ("inspect_sheet_validation", Capability.read)
    ∷ ("inspect_visual_asset", Capability.read)
    ∷ ("inspect_docx_structure", Capability.read)
    ∷ ("validate_docx_structure", Capability.read)
    ∷ ("copy_source_artifact", Capability.create)
    ∷ ("create_source_artifact", Capability.create)
    ∷ ("rename_source_artifact", Capability.update)
    ∷ ("create_document_tab", Capability.update)
    ∷ ("rename_document_tab", Capability.update)
    ∷ ("delete_document_tab", Capability.update)
    ∷ ("edit_source_document", Capability.update)
    ∷ ("edit_source_spreadsheet", Capability.update)
    ∷ ("edit_source_document_images", Capability.update)
    ∷ ("edit_source_docx", Capability.update)
    ∷ ("update_source_artifact", Capability.update)
    ∷ ("move_source_artifact", Capability.move)
    ∷ ("delete_source_artifact", Capability.delete)
    ∷ ("share_source_artifact", Capability.share)
    ∷ ("convert_source_artifact", Capability.convert)
    ∷ []

-- "agent_signal" in name
unfoldable pub contains : String → String → Bool
contains needle String.[] = is_empty needle
contains needle (String.◌∷◌ c s) = starts_with needle (String.◌∷◌ c s) || contains needle s

-- `_tool_provider`; the fields of `ProviderScope` are among its values, and no other value is a field
unfoldable pub tool_provider : String → Option Provider
unfolding contains starts_with
tool_provider name =
    if starts_with "acquisition_" name
    then none
    else if contains "agent_signal" name
    then none
    else if starts_with "hubspot_" name
    then some Provider.hubspot
    else if starts_with "n8n_" name
    then some Provider.n8n
    else if starts_with "openwa_" name
    then some Provider.openwa
    else some Provider.workspace

-- bool(getattr(self.providers, provider, False))
abbrev pub has_provider : Principal → Option Provider → Bool
has_provider principal none = false
has_provider principal (some provider) = allows_provider principal provider

abbrev pub operation_index : SignalWorkerOperation → ℕ
operation_index SignalWorkerOperation.list = 0
operation_index SignalWorkerOperation.get = 1
operation_index SignalWorkerOperation.claim = 2
operation_index SignalWorkerOperation.release = 3
operation_index SignalWorkerOperation.complete = 4
operation_index SignalWorkerOperation.dismiss = 5

-- SIGNAL_WORKER_TOOLS.get(name) in principal.signal_operations
abbrev pub may_operate : Principal → Option SignalWorkerOperation → Bool
may_operate principal none = false
may_operate principal (some operation) =
    any (λ o. eqb (operation_index o) (operation_index operation)) principal.signal_operations

-- the end of `_tool_authorization_error`, for a developer
abbrev pub capability_error : Principal → Option Capability → Option Code
capability_error principal none = some tool_denied
capability_error principal (some capability) =
    if allows_capability principal capability then none else some capability_denied

abbrev pub developer_error : Principal → String → Option Code
developer_error principal name =
    if elem name management_only_tools
    then some tool_denied
    else if not (has_provider principal (tool_provider name))
    then some provider_denied
    else capability_error principal (lookup name tool_capabilities)

abbrev is_management : PrincipalType → Bool
is_management management = true
is_management _ = false

abbrev pub error_of : PrincipalType → Principal → String → Option Code
error_of management principal name = none
error_of signal_worker principal name =
    if may_operate principal (lookup name signal_worker_tools) then none else some tool_denied
error_of developer principal name = developer_error principal name

unfoldable pub tool_authorization_error : Principal → String → Option Code
unfolding starts_with
tool_authorization_error principal name =
    if starts_with "acquisition_" name
    then (if is_management principal.type && elem name acquisition_tools
        then none
        else some tool_denied)
    else error_of principal.type principal name

abbrev pub all_capabilities : List Capability
all_capabilities =
    Capability.read ∷ Capability.create ∷ Capability.update ∷ Capability.move ∷ Capability.delete
    ∷ Capability.share ∷ Capability.convert ∷ []

-- a source on which the principal may use the capability
abbrev pub usable_source : Principal → Capability → SourceDefinition → Bool
usable_source principal capability source =
    allows_source principal source.id
    && (is_active source.status && source_allows source.capabilities capability)

abbrev sources_of : Option SourceRegistry → List SourceDefinition
sources_of none = []
sources_of (some registry) = registry.sources

abbrev pub capabilities_of :
    PrincipalType → Principal → List SourceDefinition → Option (List Capability)
capabilities_of developer principal sources = some (
    keep
      (λ capability.
        allows_capability principal capability && any (usable_source principal capability) sources)
      all_capabilities)
capabilities_of _ principal sources = none

-- `_effective_developer_capabilities`; without a runtime there is no source
unfoldable pub effective_developer_capabilities :
    Principal → Option SourceRegistry → Option (List Capability)
effective_developer_capabilities principal registry =
    capabilities_of principal.type principal (sources_of registry)

abbrev pub capability_index : Capability → ℕ
capability_index Capability.read = 0
capability_index Capability.create = 1
capability_index Capability.update = 2
capability_index Capability.move = 3
capability_index Capability.delete = 4
capability_index Capability.share = 5
capability_index Capability.convert = 6

abbrev pub has_capability : Option Capability → List Capability → Bool
has_capability none capabilities = false
has_capability (some capability) capabilities =
    any (λ c. eqb (capability_index c) (capability_index capability)) capabilities

abbrev pub shows : Option Code → Option Capability → Option (List Capability) → Bool
shows (some error) capability effective = false
shows none capability none = true
shows none capability (some effective) = has_capability capability effective

unfoldable pub principal_can_see_tool : Principal → String → Option (List Capability) → Bool
unfolding tool_authorization_error
principal_can_see_tool principal name effective =
    shows (tool_authorization_error principal name) (lookup name tool_capabilities) effective

-- the gateway's own tools in `list_tools`
unfoldable pub visible_tools : Principal → Option SourceRegistry → List String → List String
unfolding principal_can_see_tool effective_developer_capabilities
visible_tools principal registry = keep (λ name.
    principal_can_see_tool principal name (effective_developer_capabilities principal registry))

unfoldable pub registered_source : SourceRegistry → String → Result SourceDefinition
registered_source registry source_id = elim (Registry.get registry source_id) [
  | none ↦ err (adapter source_not_found 404)
  | some source ↦ ok source
]

-- `capability or "read"` and `capability or "move"`
abbrev pub or_capability : Option Capability → Capability → Capability
or_capability none default = default
or_capability (some capability) default = capability

abbrev pub is_developer : PrincipalType → Bool
is_developer developer = true
is_developer _ = false

-- `if source_id:` of an optional text
abbrev pub truthy : Option String → Option String
truthy none = none
truthy (some s) = if is_empty s then none else some s

-- a part of the checks that only a developer passes through
abbrev pub for_developer : Principal → Result (Unit {0}) → Result (Unit {0})
for_developer principal check = if is_developer principal.type then check else ok tt

unfoldable pub check_destination :
    SourceRegistry → Principal → Option Capability → Option String → Result (Unit {0})
unfolding registered_source
check_destination registry principal capability none = ok tt
check_destination registry principal capability (some destination_id) = for_developer principal (do
  destination ← registered_source registry destination_id
  authorize_workspace_operation principal (or_capability capability Capability.move)
      (some destination))

abbrev pub without_source : Principal → Option Capability → Result (Unit {0})
without_source principal none = ok tt
without_source principal (some capability) =
    for_developer principal (authorize_workspace_operation principal capability none)

abbrev pub with_source :
    SourceRegistry
    → Principal
    → Option Capability
    → Option String
    → SourceDefinition
    → Result (Unit {0})
with_source registry principal capability destination source = do
  for_developer principal (
      authorize_workspace_operation principal (or_capability capability Capability.read)
        (some source))
  check_destination registry principal capability (truthy destination)

-- The classification that the audit record names, and whether the checks before the call let it through.
abbrev pub checked_source :
    SourceRegistry
    → Principal
    → Option Capability
    → Option String
    → Result SourceDefinition
    → Option Classification × Result (Unit {0})
checked_source registry principal capability destination (err e) = (none, err e)
checked_source registry principal capability destination (ok source) =
    (some source.classification, with_source registry principal capability destination source)

unfoldable pub check_scope :
    SourceRegistry
    → Principal
    → Option Capability
    → Option String
    → Option String
    → Option Classification × Result (Unit {0})
unfolding registered_source check_destination
check_scope registry principal capability none destination =
    (none, without_source principal capability)
check_scope registry principal capability (some source_id) destination =
    checked_source registry principal capability destination (registered_source registry source_id)

abbrev pub lacks_capability : Principal → Option Capability → Bool
lacks_capability principal none = is_developer principal.type
lacks_capability principal (some capability) = false

unfoldable pub check_call :
    Result SourceRegistry
    → Principal
    → Option Capability
    → Option String
    → Option String
    → Option Classification × Result (Unit {0})
unfolding check_scope
check_call (err e) principal capability source_id destination = (none, err e)
check_call (ok registry) principal capability source_id destination =
    if lacks_capability principal capability
    then (none, err (adapter tool_denied 403))
    else check_scope registry principal capability (truthy source_id) destination

module _ {S T : Type 0} where
  -- the call of the operation, unless the checks raised
  abbrev pub run : Result (Unit {0}) → Exec S T → Exec S T
  run (err e) operation s = (err e, s)
  run (ok u) operation s = operation s

  -- `_execute_tool`: the state of the services and the audit log, the last record first.
  unfoldable pub execute_tool :
      Bool
      → Result SourceRegistry
      → Principal
      → ToolCall
      → Callbacks T
      → Exec S T
      → Exec (S × List AuditRecord) T
  unfolding check_call describe
  execute_tool enabled runtime principal request callbacks operation (s, log) =
      let (classification, checks) =
        check_call runtime principal (lookup request.action tool_capabilities) request.source_id
          request.destination_source_id in
      let (r, s') = run checks operation s in
      let (answer, log') =
        conclude enabled request classification (with_details callbacks request.resource_id r)
          log in
      (answer, (s', log'))

-- `_resolved_artifact_id`, with the codec's `decode`
unfoldable pub resolved_artifact_id :
    Option (String → String → Result String)
    → String
    → Option String
    → Option String
    → Result String
resolved_artifact_id codec source_id artifact_ref legacy_id = elim (truthy artifact_ref) [
  | some ref ↦ elim codec [
    | none ↦ err (adapter artifact_reference_unavailable 503)
    | some decode ↦ decode ref source_id
  ]
  | none ↦ elim (truthy legacy_id) [
    | some id ↦ ok id
    | none ↦ err (adapter artifact_reference_required 422)
  ]
]
