-- ===== src/Errors.antt =====
-- app/adapters/google_workspace/errors.py: `WorkspaceAdapterError`, with its code and its HTTP
-- status. Its message is text for people that no code reads, and is left out. The other
-- constructors of `Error` are the Python exceptions that the modelled code lets through.
use brunova_knowledge_gatewa.Prelude.{ℕ, Bool, true, false, ◌≡◌, refl, ap}

-- The codes that the modelled parts raise, each spelled as in the source.
pub data Code : Type 0 where
  provider_denied capability_denied source_denied source_capability_denied : Code
  source_disabled source_policy_unconfigured source_not_allowed source_not_readable : Code
  resource_not_in_source mutation_approval_required source_not_found : Code
  archive_destination_not_found archive_destination_invalid mutation_input_invalid : Code
  mutation_audience_invalid : Code
  agent_signal_not_found agent_signal_already_claimed agent_signal_transition_invalid : Code
  agent_signal_claim_owner_mismatch agent_signal_conflict agent_signal_store_invalid : Code
  agent_signal_store_unavailable agent_signal_limit_invalid completion_summary_invalid : Code
  dismissal_reason_invalid outcome_metadata_invalid : Code
  source_proposal_invalid source_candidate_not_found source_proposal_store_conflict : Code
  source_proposal_not_found source_proposal_store_invalid source_proposal_store_unavailable : Code
  operation_history_limit_invalid : Code
  hubspot_tool_not_allowed hubspot_mutation_intent_required hubspot_approval_required : Code
  hubspot_arguments_invalid hubspot_arguments_too_large : Code
  hubspot_oauth_state_conflict hubspot_oauth_state_invalid hubspot_oauth_state_expired : Code
  hubspot_connection_conflict hubspot_not_connected hubspot_refresh_in_progress : Code
  hubspot_refresh_conflict hubspot_connection_invalid hubspot_state_unavailable : Code
  artifact_reference_invalid asset_reference_invalid docx_anchor_invalid : Code
  document_image_reference_invalid document_tab_reference_invalid : Code
  spreadsheet_sheet_reference_invalid : Code
  spreadsheet_range_invalid spreadsheet_operations_invalid spreadsheet_values_invalid : Code
  spreadsheet_sheet_title_duplicate spreadsheet_last_sheet_protected : Code
  spreadsheet_dimension_limit_exceeded spreadsheet_dimension_invalid : Code
  spreadsheet_cell_limit_exceeded spreadsheet_tab_limit_exceeded : Code
  openwa_approval_required openwa_approval_scope_mismatch : Code
  mutation_source_root_protected mutation_destination_invalid : Code
  credentials_unavailable domain_wide_delegation_invalid delegated_user_invalid : Code
  iam_signing_denied authentication_failed api_not_enabled insufficient_permissions : Code
  resource_not_found invalid_workspace_request workspace_rate_limited workspace_api_error : Code
  resource_type_invalid binary_size_invalid binary_revision_conflict : Code
  mutation_type_not_supported conversion_source_type_invalid conversion_target_invalid : Code
  pubsub_authentication_unavailable invalid_pubsub_authentication invalid_pubsub_identity : Code
  agent_signal_envelope_invalid agent_signal_invalid agent_signal_inbox_unavailable : Code
  agent_signal_persistence_failed : Code
  tool_denied artifact_reference_unavailable artifact_reference_required : Code

pub data Error : Type 0 where
  -- WorkspaceAdapterError(code, _, status_code)
  adapter : Code → ℕ → Error
  value_error type_error assertion_error key_error os_error : Error
  -- fastapi.HTTPException(status_code, _)
  http_exception : ℕ → Error
  -- the object changed since it was read: `AgentSignalObjectConflict`, `ProposalObjectConflict` and
  -- `ObjectConflict`
  object_conflict : Error

pub data Result {ℓ} (A : Type ℓ) : Type ℓ where
  ok : A → Result A
  err : Error → Result A

pub ok-injective {ℓ} : {A : Type ℓ} {a b : A} → ok a ≡ ok b → a ≡ b
ok-injective {A} {a} h = ap (elim [ ok x ↦ x | err e ↦ a ]) h

pub err-injective {ℓ} : {A : Type ℓ} {a b : Error} → ◌≡◌ {A = Result A} (err a) (err b) → a ≡ b
err-injective {A} {a} h = ap (elim [ ok x ↦ a | err e ↦ e ]) h

-- A call whose exception ends the caller, and the use of its result.
module _ {ℓ κ} {X : Type ℓ} {Y : Type κ} where
  infixl 5 ◌>>=◌
  abbrev pub ◌>>=◌ : Result X → (X → Result Y) → Result Y
  err raised >>= next = err raised
  ok value >>= next = next value

  -- Inversion of a bind that returned, for proofs where the parts stay shut.
  pub >>=-eq-ok :
      (call : Result X) (next : X → Result Y) {y : Y}
      → (call >>= next) ≡ ok y
      → (x : X) × (call ≡ ok x) × (next x ≡ ok y)
  >>=-eq-ok (err raised) next returned = cc
  >>=-eq-ok (ok value) next returned = (value, refl, returned)

infixl 5 ◌>>◌
abbrev pub ◌>>◌ {ℓ} : {Y : Type ℓ} → Result (Unit {0}) → Result Y → Result Y
check >> rest = check >>= λ _. rest

-- `if not condition: raise WorkspaceAdapterError(code, …, status)`
abbrev pub require : Bool → Code → ℕ → Result (Unit {0})
require true code status = ok tt
require false code status = err (adapter code status)
