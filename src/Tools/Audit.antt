-- ===== src/Tools/Audit.antt =====
-- The audit records of `_execute_tool` in app/mcp_server.py: what its three calls of `emit_audit_record`
-- pass, what the callbacks compute from the result, and the switch of app/audit.py that turns the
-- output off.
use brunova_knowledge_gatewa.Prelude.{
  ℕ, String, Bool, Option, none, some, List, ◌∷◌, if◌then◌else◌, ltb,
}
use brunova_knowledge_gatewa.Errors.{Code, Result, ok, err, adapter, ◌>>=◌}
use brunova_knowledge_gatewa.Json.{Json}
use brunova_knowledge_gatewa.Registry.{Classification}

pub data AuditResult : Type 0 where
  success rejected error : AuditResult

pub data ErrorCode : Type 0 where
  of_adapter : Code → ErrorCode
  unhandled_error : ErrorCode

-- What the callbacks of `_execute_tool` compute from the result, for the record of a success.
pub record Details : Type 0 where
  pub resource_id : Option String
  pub candidate_count : Option ℕ
  pub proposal_id : Option String
  pub created_resource_id : Option String
  pub revision_id : Option String
  pub artifact_version : Option String
  pub asset_transformations : Option (List (List (String × Json)))

-- What `emit_audit_record` is given, as far as it depends on the authorization, the arguments that
-- every record repeats and the outcome. The conversions that it makes of the texts are not modelled.
pub record AuditRecord : Type 0 where
  pub action : String
  pub source_id : Option String
  pub source_classification : Option Classification
  pub destination_source_id : Option String
  pub result : AuditResult
  pub http_status : ℕ
  pub error_code : Option ErrorCode
  pub details : Details

-- The callbacks are code of the tools: each may be missing, and may raise.
pub record Callbacks (T : Type 0) : Type 0 where
  pub result_resource_id : Option (T → Result String)
  pub candidate_count : Option (T → Result ℕ)
  pub proposal_id : Option (T → Result String)
  pub created_resource_id : Option (T → Result String)
  pub revision_id : Option (T → Result String)
  pub artifact_version : Option (T → Result String)
  pub asset_transformations : Option (T → Result (List (List (String × Json))))

-- the details of a record that is not of a success
abbrev pub no_details : Option String → Details
no_details resource_id = record {
  resource_id = resource_id;
  candidate_count = none;
  proposal_id = none;
  created_resource_id = none;
  revision_id = none;
  artifact_version = none;
  asset_transformations = none;
}

-- `callback(result) if callback else None`
abbrev pub called {ℓ} : {T : Type 0} {X : Type ℓ} → Option (T → Result X) → T → Result (Option X)
called none value = ok none
called (some callback) value = do x ← callback value; ok (some x)

-- `result_resource_id(result) if result_resource_id else resource_id`
abbrev pub resource_of :
    {T : Type 0} → Option (T → Result String) → Option String → T → Result (Option String)
resource_of none resource_id value = ok resource_id
resource_of (some callback) resource_id value = do id ← callback value; ok (some id)

-- the calls of the callbacks among the arguments of the first `emit_audit_record`, in their order
unfoldable pub describe : {T : Type 0} → Callbacks T → Option String → T → Result Details
describe callbacks resource_id value = do
  id ← resource_of callbacks.result_resource_id resource_id value
  count ← called callbacks.candidate_count value
  proposal ← called callbacks.proposal_id value
  created ← called callbacks.created_resource_id value
  revision ← called callbacks.revision_id value
  version ← called callbacks.artifact_version value
  transformations ← called callbacks.asset_transformations value
  ok (record {
    resource_id = id;
    candidate_count = count;
    proposal_id = proposal;
    created_resource_id = created;
    revision_id = revision;
    artifact_version = version;
    asset_transformations = transformations;
  })

-- The arguments that the three calls of `emit_audit_record` share.
pub record ToolCall : Type 0 where
  pub action : String
  pub source_id : Option String
  pub destination_source_id : Option String
  pub resource_id : Option String

-- the call of `emit_audit_record` after the operation
abbrev pub success_record : ToolCall → Option Classification → Details → AuditRecord
success_record request classification details = record {
  action = request.action;
  source_id = request.source_id;
  source_classification = classification;
  destination_source_id = request.destination_source_id;
  result = success;
  http_status = 200;
  error_code = none;
  details = details;
}

-- the call under `except WorkspaceAdapterError as error`
abbrev pub adapter_record : ToolCall → Option Classification → Code → ℕ → AuditRecord
adapter_record request classification code status = record {
  action = request.action;
  source_id = request.source_id;
  source_classification = classification;
  destination_source_id = request.destination_source_id;
  result = if ltb status 500 then rejected else error;
  http_status = status;
  error_code = some (of_adapter code);
  details = no_details request.resource_id;
}

-- the call under `except Exception`
abbrev pub unhandled_record : ToolCall → Option Classification → AuditRecord
unhandled_record request classification = record {
  action = request.action;
  source_id = request.source_id;
  source_classification = classification;
  destination_source_id = request.destination_source_id;
  result = error;
  http_status = 500;
  error_code = some unhandled_error;
  details = no_details request.resource_id;
}

-- `emit_audit_record`, with whether WORKSPACE_AUDIT_ENABLED is on
abbrev pub emit_audit_record : Bool → AuditRecord → List AuditRecord → List AuditRecord
emit_audit_record enabled entry log = if enabled then entry ∷ log else log

module _ {T : Type 0} where
  -- the end of the `try` block after the operation, up to the emission
  abbrev pub with_details : Callbacks T → Option String → Result T → Result (T × Details)
  with_details callbacks resource_id r = do
    value ← r
    details ← describe callbacks resource_id value
    ok (value, details)

  -- the emission of the `try` block, or that of the `except` block that its exception reaches; the error
  -- that is raised in place of a `WorkspaceAdapterError` carries its code, and is written as it
  abbrev pub conclude :
      Bool
      → ToolCall
      → Option Classification
      → Result (T × Details)
      → List AuditRecord
      → Result T × List AuditRecord
  conclude enabled request classification (ok (value, details)) log =
      (ok value, emit_audit_record enabled (success_record request classification details) log)
  conclude enabled request classification (err (adapter code status)) log = (
    err (adapter code status),
    emit_audit_record enabled (adapter_record request classification code status) log,
  )
  conclude enabled request classification (err e) log =
      (err e, emit_audit_record enabled (unhandled_record request classification) log)
