-- ===== src/Tests/History.antt =====
-- The history of two sources, one of which is blocked.
use brunova_knowledge_gatewa.Prelude.{
  ℕ, suc, ◌≤◌, String, ◌≡◌, refl, Option, none, List, [], ◌∷◌, All, length,
}
use brunova_knowledge_gatewa.Errors.{ok}
use brunova_knowledge_gatewa.Exec.{Exec}
use brunova_knowledge_gatewa.Registry
use brunova_knowledge_gatewa.SourceAccess.{
  SourceAccessPolicy, authorize_source, authorize_registered,
}
use brunova_knowledge_gatewa.History.{
  list_authorized_operation_history, allowed_source_ids, authorized_ids,
}
use brunova_knowledge_gatewa.History.Confinement.{
  IsOpen, IsAsked, list_authorized_operation_history-IsOpen,
}
use brunova_knowledge_gatewa.Tests.Access.{registry}

abbrev policy : SourceAccessPolicy
policy = record { registry = registry; blocked = "folder0002" ∷ [] }

-- an entry is the id of its source, and the state counts the queries
abbrev everything : Option String → Option ℕ → ℕ → Exec ℕ (List String)
everything source_id operation limit n = (ok ("contracts" ∷ "playbooks" ∷ "playbooks" ∷ []), suc n)

answer :
    list_authorized_operation_history (λ e. e) everything registry policy none none 1 0
    ≡ (ok ("playbooks" ∷ []), 1)
unfolding list_authorized_operation_history allowed_source_ids authorized_ids authorize_source
    authorize_registered Registry.get Registry.classify Registry.same_source
answer = refl

list_authorized_operation_history-IsOpen_example :
    ((1 ≤ 1) × (1 ≤ 50))
    × (length {A = String} ("playbooks" ∷ []) ≤ 1)
    × All (λ (entry : String). IsOpen policy entry × IsAsked none entry) ("playbooks" ∷ [])
list_authorized_operation_history-IsOpen_example =
    list_authorized_operation_history-IsOpen policy (λ e. e) everything none none 1
      ("playbooks" ∷ []) 0 1 answer
