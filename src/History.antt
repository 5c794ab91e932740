-- ===== src/History.antt =====
-- `list_authorized_operation_history` of app/operation_history.py. The store is a parameter: it answers a query
-- with entries, of which only the source is looked at.
pub mod Confinement
use brunova_knowledge_gatewa.Prelude.{
  ℕ, ◌*◌, String, Bool, true, false, not, ◌||◌, Option, none, some, List, [], ◌∷◌, map, keep, take,
  elem, ltb, min, if◌then◌else◌,
}
use brunova_knowledge_gatewa.Errors.{
  Result, ok, err, adapter, require, operation_history_limit_invalid, source_not_found,
}
use brunova_knowledge_gatewa.Exec.{Exec, pure, lift, ◌>>=◌, ◌>>◌}
use brunova_knowledge_gatewa.Registry
use brunova_knowledge_gatewa.Registry.{SourceDefinition, SourceRegistry}
use brunova_knowledge_gatewa.SourceAccess.{SourceAccessPolicy, AllowedSource, authorize_source}

abbrev pub max_operation_history_limit : ℕ
max_operation_history_limit = 50

-- `try: authorize_source(…) except WorkspaceAdapterError: continue`
abbrev pub returned : Result AllowedSource → Bool
returned (ok allowed) = true
returned (err e) = false

-- the loop over the sources of the registry
unfoldable pub authorized_ids : SourceAccessPolicy → List SourceDefinition → List String
authorized_ids policy [] = []
authorized_ids policy (source ∷ sources) =
    let rest = authorized_ids policy sources in
    if returned (authorize_source policy source false) then source.id ∷ rest else rest

abbrev pub selected_ids : Result AllowedSource → String → Result (List String)
selected_ids (err e) source_id = err e
selected_ids (ok allowed) source_id = ok (source_id ∷ [])

-- `allowed_source_ids`
unfoldable pub allowed_source_ids :
    SourceRegistry → SourceAccessPolicy → Option String → Result (List String)
unfolding authorized_ids
allowed_source_ids registry policy none = ok (authorized_ids policy registry.sources)
allowed_source_ids registry policy (some source_id) = elim (Registry.get registry source_id) [
  | none ↦ err (adapter source_not_found 404)
  | some selected ↦ selected_ids (authorize_source policy selected false) source_id
]

abbrev pub is_in_range : ℕ → Bool
is_in_range limit = not (ltb limit 1 || ltb max_operation_history_limit limit)

abbrev pub visible : {Entry : Type 0} → (Entry → String) → List String → ℕ → List Entry → List Entry
visible source_of ids limit entries =
    take limit (keep (λ entry. elem (source_of entry) ids) entries)

-- `list` is `store.list`
module _ {S Entry Operation : Type 0} (source_of : Entry → String)
    (list : Option String → Option Operation → ℕ → Exec S (List Entry)) where
  abbrev pub fetched : Option String → Option Operation → ℕ → List String → Exec S (List Entry)
  fetched source_id operation limit [] = pure []
  fetched source_id operation limit (id ∷ ids) =
      list source_id operation (min (limit * 5) (max_operation_history_limit * 5)) >>= λ entries.
      pure (visible source_of (id ∷ ids) limit entries)

  abbrev pub listed_for :
      SourceRegistry
      → SourceAccessPolicy
      → Option String
      → Option Operation
      → ℕ
      → Unit {0}
      → Exec S (List Entry)
  listed_for registry policy source_id operation limit checked =
      lift (allowed_source_ids registry policy source_id) >>= fetched source_id operation limit

  unfoldable pub list_authorized_operation_history :
      SourceRegistry
      → SourceAccessPolicy
      → Option String
      → Option Operation
      → ℕ
      → Exec S (List Entry)
  unfolding allowed_source_ids
  list_authorized_operation_history registry policy source_id operation limit =
      lift (require (is_in_range limit) operation_history_limit_invalid 422)
      >>= listed_for registry policy source_id operation limit
