-- ===== src/Middleware/DefaultDeny.antt =====
-- What the middleware of app/middleware/authentication.py lets through to the application.
use brunova_knowledge_gatewa.Prelude.{
  ℕ, String, ◌≡◌, refl, ◌≢◌, ◌⊎◌, inl, inr, true, false, not, ◌||◌, List, [], ◌∷◌, Option, none,
  some, arith, eq_iff, Bool-cases, Option-cases,
}
use brunova_knowledge_gatewa.Prelude.Text.{starts_with}
use brunova_knowledge_gatewa.Errors.{Result, ok, err}
use brunova_knowledge_gatewa.Principals.{
  Principal, PrincipalType, PrincipalResolver, management, developer, signal_worker, workspace,
  read, allows_provider, allows_capability, allows_source, resolve, Resolution,
}
use brunova_knowledge_gatewa.Middleware.{
  is_public, check_protected, Request, Denial, admitted, segments, segments_authorization,
  developer_http_authorization, developer_outcome, authorize_path, after_resolution, check, reject,
  after_authenticate,
}

-- A path of one source: `/sources/<id>/...`, but not the discovery of sources.
abbrev pub IsSourcePath : Principal → List String → Type 0
IsSourcePath p parts =
    (source_id : String) × (rest : List String) × (parts ≡ "sources" ∷ source_id ∷ rest)
    × (source_id ≢ "discover")
    × (allows_source p source_id ≡ true)

-- The paths that a principal of each type may ask for.
abbrev pub MayAsk : PrincipalType → Principal → String → Type 0
MayAsk management p path = Unit
MayAsk signal_worker p path = starts_with "/mcp" path ≡ true
MayAsk developer p path =
    (starts_with "/mcp" path ≡ true)
    ⊎ ((allows_provider p workspace ≡ true)
        × (allows_capability p read ≡ true)
        × IsSourcePath p (segments path))

segments_authorization-none :
    (p : Principal) (parts : List String)
    → segments_authorization p parts ≡ none
    → IsSourcePath p parts
unfolding segments_authorization
segments_authorization-none p (first ∷ source_id ∷ rest) h = (
  source_id,
  rest,
  ground (arith, eq_iff first "sources"),
  ground (arith, eq_iff source_id "discover"),
  ground arith,
)
segments_authorization-none p [] h = cc
segments_authorization-none p (x ∷ []) h = cc

developer_authorization_none :
    (path : String) (p : Principal)
    → developer_http_authorization path p ≡ none
    → MayAsk developer p path
unfolding developer_http_authorization
developer_authorization_none path p h = elim (Bool-cases (starts_with "/mcp" path)) [
  | inl mcp ↦ inl mcp
  | inr other ↦
      inr (ground arith, ground arith, segments_authorization-none p (segments path) (ground arith))
]

developer_outcome_sound :
    (path : String) (p q : Principal) (denial : Option Denial)
    → developer_outcome path p denial ≡ admitted q
    → (p ≡ q) × (denial ≡ none)
unfolding reject
developer_outcome_sound path p q none h = (cc, refl)
developer_outcome_sound path p q (some d) h = cc

authorize_path_sound :
    (path : String) (p q : Principal) (type : PrincipalType)
    → authorize_path path p type ≡ admitted q
    → (p ≡ q) × MayAsk type p path
unfolding authorize_path
authorize_path_sound path p q management h = (cc, tt)
authorize_path_sound path p q developer h =
    let (same, allowed) =
      developer_outcome_sound path p q (developer_http_authorization path p) h in
    (same, developer_authorization_none path p allowed)
authorize_path_sound path p q signal_worker h = ground arith

-- What holds of a request whose principal reaches the application.
pub record IsAuthenticated (sha256_hex casefold : String → String)
    (factory : Option PrincipalResolver) (now : ℕ) (request : Request) (p : Principal)
    : Type 0 where
  pub resolver : PrincipalResolver
  pub configured : factory ≡ some resolver
  pub resolved : resolve sha256_hex casefold resolver now request.authorization ≡ ok (some p, none)
  pub allowed : MayAsk p.type p request.url_path

after_resolution_sound :
    (path : String) (p : Principal) (resolution : Resolution)
    → after_resolution path resolution ≡ admitted p
    → (resolution ≡ (some p, none)) × MayAsk p.type p path
unfolding after_resolution
after_resolution_sound path p (none, none) h = cc
after_resolution_sound path p (some q, none) h =
    let (same, allowed) = authorize_path_sound path q p q.type h in
    (ground arith, rw (← same) allowed)
after_resolution_sound path p (none, some e) h = cc
after_resolution_sound path p (some q, some e) h = cc

module _ (sha256_hex casefold : String → String) (factory : Option PrincipalResolver) (now : ℕ)
    (request : Request) where
  after_authenticate_sound :
      (resolver : PrincipalResolver) (p : Principal) (r : Result Resolution)
      → factory ≡ some resolver
      → resolve sha256_hex casefold resolver now request.authorization ≡ r
      → after_authenticate request.url_path r ≡ admitted p
      → IsAuthenticated sha256_hex casefold factory now request p
  after_authenticate_sound resolver p (err e) configured e' h = cc
  after_authenticate_sound resolver p (ok resolution) configured e h =
      let (same, allowed) = after_resolution_sound request.url_path p resolution h in
      record {
        resolver = resolver;
        configured = configured;
        resolved = rw (← same) e;
        allowed = allowed;
      }

  check_protected_sound :
      (p : Principal)
      → check_protected sha256_hex casefold factory now request ≡ admitted p
      → IsAuthenticated sha256_hex casefold factory now request p
  unfolding check_protected
  check_protected_sound p h = elim (Option-cases factory) [
    | inl missing ↦ cc (rw (missing, check_protected) at h)
    | inr (resolver, configured) ↦
        after_authenticate_sound resolver p
          (resolve sha256_hex casefold resolver now request.authorization) configured refl
          (rw (configured, check_protected) at h)
  ]

  -- The application runs with a principal only for an HTTP request, of a path that is not public,
  -- whose header resolves to that principal and whose path the principal's type may ask for.
  pub check_admitted :
      (p : Principal)
      → check sha256_hex casefold factory now request ≡ admitted p
      → (request.is_http ≡ true)
        × (is_public request.path ≡ false)
        × IsAuthenticated sha256_hex casefold factory now request p
  unfolding check
  check_admitted p h = elim (Bool-cases (not request.is_http || is_public request.path)) [
    | inl open' ↦ cc (rw (open', check) at h)
    | inr closed ↦ (ground arith, ground arith, check_protected_sound p (rw (closed, check) at h))
  ]
