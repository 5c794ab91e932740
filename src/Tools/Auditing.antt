-- ===== src/Tools/Auditing.antt =====
-- What `_execute_tool` of app/mcp_server.py records in the audit log.
use brunova_knowledge_gatewa.Prelude.{ℕ, ◌≡◌, ◌↔◌, Option, some, List, ◌∷◌}
use brunova_knowledge_gatewa.Errors.{Code, Result, ok, err, adapter}
use brunova_knowledge_gatewa.Exec.{Exec}
use brunova_knowledge_gatewa.Registry.{Classification}
use brunova_knowledge_gatewa.Tools.Audit.{AuditRecord, ToolCall, success, of_adapter}

module _ {T : Type 0} where
  -- What a record tells of an answer.
  abbrev pub Tells : AuditRecord → Result T → Type 0
  Tells entry r =
      ((entry.result ≡ success) ↔ ((t : T) × (r ≡ ok t)))
      × ((code : Code) (status : ℕ)
          → r ≡ err (adapter code status)
          → (entry.http_status ≡ status) × (entry.error_code ≡ some (of_adapter code)))

  abbrev pub IsAudited :
      ToolCall → Option Classification → Result T → List AuditRecord → List AuditRecord → Type 0
  IsAudited request classification r log log' =
      (entry : AuditRecord) × (log' ≡ entry ∷ log)
      × (entry.action ≡ request.action)
      × (entry.source_id ≡ request.source_id)
      × (entry.source_classification ≡ classification)
      × (entry.destination_source_id ≡ request.destination_source_id)
      × Tells entry r
