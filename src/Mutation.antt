-- ===== src/Mutation.antt =====
-- app/policies/content_mutation.py: authorization and input validation of governed mutations. The
-- active principal of the call is an argument; `str.casefold` is a parameter.
pub mod Granting
pub mod Inputs
use brunova_knowledge_gatewa.Prelude.{
  ℕ, String, ◌==◌, Bool, true, false, not, ◌&&◌, ◌||◌, List, Option, none, some, leb, eqb,
  if◌then◌else◌,
}
use brunova_knowledge_gatewa.Prelude.Text.{
  len, is_empty, strip, every, matches, matches_after, partition, is_alnum, is_id_char, last_char,
}
use brunova_knowledge_gatewa.Errors.{
  Result, ok, err, adapter, require, ◌>>=◌, ◌>>◌, mutation_approval_required, source_not_found,
  source_capability_denied, archive_destination_not_found, archive_destination_invalid,
  mutation_input_invalid, mutation_audience_invalid,
}
use brunova_knowledge_gatewa.Registry.{SourceDefinition, SourceType, archive_destination, get}
use brunova_knowledge_gatewa.Principals.{
  Principal, PrincipalType, Capability, management, developer, signal_worker, source_allows,
  authorize_workspace_operation,
}
use brunova_knowledge_gatewa.SourceAccess.{AllowedSource, SourceAccessPolicy, authorize_source}

pub data MutationOperation : Type 0 where
  create update move delete share convert : MutationOperation

-- `operation.value`, as the capability that it names
abbrev pub capability_of : MutationOperation → Capability
capability_of create = Capability.create
capability_of update = Capability.update
capability_of move = Capability.move
capability_of delete = Capability.delete
capability_of share = Capability.share
capability_of convert = Capability.convert

-- [A-Za-z0-9._:/-]
abbrev pub is_reference_char : ℕ → Bool
is_reference_char c =
    is_alnum c || eqb c b'.' || eqb c b'_' || eqb c b':' || eqb c b'/' || eqb c b'-'

-- APPROVAL_REFERENCE_PATTERN.fullmatch
unfoldable pub is_approval_reference : String → Bool
unfolding matches_after
is_approval_reference = matches_after is_alnum is_reference_char 2 127

unfoldable pub normalized_approval_reference : String → Option String
normalized_approval_reference value =
    let candidate = strip value in if is_approval_reference candidate then some candidate else none

abbrev is_some : Option String → Bool
is_some none = false
is_some (some s) = true

-- the guard on the approval reference, which only management needs
unfoldable pub is_approved : PrincipalType → String → Bool
unfolding normalized_approval_reference
is_approved management reference = is_some (normalized_approval_reference reference)
is_approved developer reference = true
is_approved signal_worker reference = true

-- the scope check, which only developers undergo
unfoldable pub authorize_scope :
    PrincipalType → Principal → Capability → SourceDefinition → Result (Unit {0})
unfolding authorize_workspace_operation
authorize_scope developer principal capability source =
    authorize_workspace_operation principal capability (some source)
authorize_scope management principal capability source = ok tt
authorize_scope signal_worker principal capability source = ok tt

-- `authorize`, once the registry has been asked for the source
unfoldable pub authorize_found :
    SourceAccessPolicy
    → Principal
    → MutationOperation
    → Option SourceDefinition
    → Result AllowedSource
authorize_found policy principal operation none = err (adapter source_not_found 404)
authorize_found policy principal operation (some source) = do
  authorize_scope principal.type principal (capability_of operation) source
  allowed ← authorize_source policy source false
  require (source_allows source.capabilities (capability_of operation)) source_capability_denied 403
  ok allowed

-- `authorize`. The policy's registry is the access policy's own: the application makes both from
-- one registry.
unfoldable pub authorize :
    SourceAccessPolicy → Principal → String → MutationOperation → String → Result AllowedSource
unfolding authorize_found
authorize policy principal source_id operation approval_reference = do
  require (is_approved principal.type approval_reference) mutation_approval_required 403
  authorize_found policy principal operation (get policy.registry source_id)

abbrev is_archive : SourceType → Bool
is_archive archive_destination = true
is_archive _ = false

abbrev archive_found : SourceAccessPolicy → Option SourceDefinition → Result AllowedSource
archive_found policy none = err (adapter archive_destination_not_found 404)
archive_found policy (some source) = do
  require (is_archive source.source_type) archive_destination_invalid 403
  allowed ← authorize_source policy source false
  require source.capabilities.move source_capability_denied 403
  ok allowed

unfoldable pub authorize_archive_destination : SourceAccessPolicy → String → Result AllowedSource
authorize_archive_destination policy source_id =
    archive_found policy (get policy.registry source_id)

unfoldable pub validate_name : String → Result String
validate_name name =
    let candidate = strip name in
    if is_empty candidate || not (leb (len candidate) 100)
    then err (adapter mutation_input_invalid 422)
    else ok candidate

unfoldable pub validate_change : String → Result String
validate_change change =
    if is_empty (strip change) || not (leb (len change) 4000)
    then err (adapter mutation_input_invalid 422)
    else ok change

unfoldable pub validate_resource_id : String → Result String
unfolding matches
validate_resource_id resource_id =
    if not (matches is_id_char 10 200 resource_id)
    then err (adapter mutation_input_invalid 422)
    else ok resource_id

-- [A-Za-z0-9.!#$%&'*+/=?^_`{|}~-]
abbrev pub is_local_char : ℕ → Bool
is_local_char c =
    is_alnum c
    || eqb c b'.'
    || eqb c b'!'
    || (leb 35 c && leb c 39)
    || (leb 42 c && leb c 43)
    || eqb c b'/'
    || eqb c b'='
    || eqb c b'?'
    || (leb 94 c && leb c 96)
    || (leb 123 c && leb c 126)
    || eqb c b'-'

-- [A-Za-z0-9.-]
abbrev pub is_domain_char : ℕ → Bool
is_domain_char c = is_alnum c || eqb c b'.' || eqb c b'-'

-- [A-Za-z0-9](?:[A-Za-z0-9.-]{0,187}[A-Za-z0-9])?, a text that begins and ends in [A-Za-z0-9]
unfoldable pub is_domain : String → Bool
unfolding matches_after last_char
is_domain s =
    matches_after is_alnum is_domain_char 0 188 s
    && elim (last_char s) [ none ↦ false | some c ↦ is_alnum c ]

-- AUDIENCE_PATTERN.fullmatch: neither side of `@` may hold another `@`.
unfoldable pub is_audience : String → Bool
unfolding partition matches is_domain
is_audience s = elim (partition b'@' s) [
  | none ↦ false
  | some (name, domain) ↦ matches is_local_char 1 64 name && is_domain domain
]

module _ (casefold : String → String) where
  unfoldable pub normalized_audience : String → Option String
  unfolding is_audience
  normalized_audience audience =
      let candidate = casefold (strip audience) in
      if leb (len candidate) 254 && is_audience candidate then some candidate else none

  unfoldable pub validate_audience : String → Result String
  unfolding normalized_audience
  validate_audience audience = elim (normalized_audience audience) [
    | none ↦ err (adapter mutation_audience_invalid 422)
    | some candidate ↦ ok candidate
  ]
