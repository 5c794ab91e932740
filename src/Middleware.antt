-- ===== src/Middleware.antt =====
-- app/middleware/authentication.py: default-deny authentication in front of every HTTP capability.
-- A call of the middleware ends by running the application or by a rejection; both are values. The
-- path of `request.url`, which the web framework derives from the scope, is a field of the request.
pub mod DefaultDeny
pub mod Discretion
use brunova_knowledge_gatewa.Prelude.{
  ℕ, String, ◌≡◌, ◌==◌, Bool, true, false, not, ◌&&◌, ◌||◌, List, [], ◌∷◌, Option, none, some, elem,
  keep, if◌then◌else◌, ◌⊎◌, inl, inr,
}
use brunova_knowledge_gatewa.Prelude.Text.{starts_with, is_empty, split, partition}
use brunova_knowledge_gatewa.Errors.{Result, ok, err, Error}
use brunova_knowledge_gatewa.Principals.{
  Principal, PrincipalType, PrincipalResolver, AuthError, missing_authentication,
  invalid_authentication, principal_revoked, principal_expired, management, developer,
  signal_worker, workspace, read, allows_provider, allows_capability, allows_source, resolve,
  Resolution,
}

abbrev pub public_paths : List String
public_paths =
    "/health" ∷ "/docs" ∷ "/docs/oauth2-redirect" ∷ "/openapi.json" ∷ "/redoc"
    ∷ "/auth/hubspot/callback" ∷ "/events/agent-signals" ∷ []

-- scope.get("path") in PUBLIC_PATHS
unfoldable pub is_public : String → Bool
is_public path = elem path public_paths

pub record Request : Type 0 where
  -- scope["type"] == "http"
  pub is_http : Bool
  -- scope.get("path")
  pub path : String
  -- request.url.path
  pub url_path : String
  pub authorization : Option String

-- error codes of rejections
pub data Denial : Type 0 where
  authentication_unavailable provider_denied capability_denied source_denied tool_denied : Denial
  unauthenticated : AuthError → Denial

pub data Consumer : Type 0 where
  mcp_client api_client : Consumer

-- What `_reject` is given and what it answers: the audited code and the public one.
pub record Rejection : Type 0 where
  pub status_code : ℕ
  pub error_code : Denial
  pub public_error : Denial
  pub consumer : Consumer
  pub principal : Option (String × PrincipalType)
  pub provider : Option String
  pub source_id : Option String

pub data Outcome : Type 0 where
  -- the application runs, with the principal that is bound, if one is
  passed : Outcome
  admitted : Principal → Outcome
  rejected : Rejection → Outcome
  -- an exception that the middleware does not catch
  raised : Error → Outcome

-- [part for part in path.split("/") if part]
unfoldable pub segments : String → List String
unfolding split
segments path = keep (λ part. not (is_empty part)) (split b'/' path)

-- `_developer_http_authorization`, for the segments of a path
unfoldable pub segments_authorization : Principal → List String → Option Denial
unfolding allows_source
segments_authorization principal (first ∷ source_id ∷ rest) =
    if first == "sources"
    then (if source_id == "discover"
        then some tool_denied
        else if allows_source principal source_id
        then none
        else some source_denied)
    else some tool_denied
segments_authorization principal _ = some tool_denied

-- `_developer_http_authorization`
unfoldable pub developer_http_authorization : String → Principal → Option Denial
unfolding starts_with allows_provider allows_capability segments_authorization segments
developer_http_authorization path principal =
    if starts_with "/mcp" path
    then none
    else if not (allows_provider principal workspace)
    then some provider_denied
    else if not (allows_capability principal read)
    then some capability_denied
    else if starts_with "/auth/hubspot" path
    then some provider_denied
    else segments_authorization principal (segments path)

abbrev segments_source_id : List String → Option String
segments_source_id (first ∷ source_id ∷ rest) =
    if first == "sources" then (if source_id == "discover" then none else some source_id) else none
segments_source_id _ = none

-- `_developer_http_source_id`
unfoldable pub developer_http_source_id : String → Option String
unfolding segments
developer_http_source_id path = segments_source_id (segments path)

abbrev pub is_hidden : Denial → Bool
is_hidden (unauthenticated principal_revoked) = true
is_hidden (unauthenticated principal_expired) = true
is_hidden _ = false

-- `_reject`: revocation and expiry are not told apart in public.
unfoldable pub reject :
    ℕ
    → Denial
    → Consumer
    → Option (String × PrincipalType)
    → Option String
    → Option String
    → Outcome
reject status_code error_code consumer principal provider source_id = rejected (record {
  status_code = status_code;
  error_code = error_code;
  public_error =
      if is_hidden error_code then unauthenticated invalid_authentication else error_code;
  consumer = consumer;
  principal = principal;
  provider = provider;
  source_id = source_id;
})

abbrev described : Option Principal → Option (String × PrincipalType)
described none = none
described (some p) = some (p.id, p.type)

abbrev consumer_of : String → Consumer
consumer_of url_path = if starts_with "/mcp" url_path then mcp_client else api_client

-- the provider that the audit record of a refused developer names
abbrev denied_provider : String → String
denied_provider url_path =
    if starts_with "/auth/hubspot" url_path
    then "hubspot"
    else if starts_with "/sources/" url_path
    then "workspace"
    else "gateway"

abbrev developer_outcome : String → Principal → Option Denial → Outcome
developer_outcome url_path principal none = admitted principal
developer_outcome url_path principal (some denial) =
    reject 403 denial (consumer_of url_path) (described (some principal))
      (some (denied_provider url_path)) (developer_http_source_id url_path)

-- the checks on an authenticated principal, by its type
unfoldable pub authorize_path : String → Principal → PrincipalType → Outcome
unfolding developer_http_authorization developer_http_source_id reject starts_with
authorize_path url_path principal developer =
    developer_outcome url_path principal (developer_http_authorization url_path principal)
authorize_path url_path principal signal_worker =
    if not (starts_with "/mcp" url_path)
    then reject 403 tool_denied (consumer_of url_path) (described (some principal))
        (some "agent_signals") none
    else admitted principal
authorize_path url_path principal management = admitted principal

-- `if error_code: reject`, then `assert principal is not None`
unfoldable pub after_resolution : String → Resolution → Outcome
unfolding authorize_path reject
after_resolution url_path (principal, some error) =
    reject 401 (unauthenticated error) (consumer_of url_path) (described principal) none none
after_resolution url_path (none, none) = raised Error.assertion_error
after_resolution url_path (some principal, none) = authorize_path url_path principal principal.type

abbrev after_authenticate : String → Result Resolution → Outcome
after_authenticate url_path (err e) = raised e
after_authenticate url_path (ok resolution) = after_resolution url_path resolution

module _ (sha256_hex casefold : String → String) where
  -- The checks of `__call__` on a protected path. The factory gives no authenticator if it raises
  -- `GatewayAuthenticationConfigurationError`.
  unfoldable pub check_protected : Option PrincipalResolver → ℕ → Request → Outcome
  unfolding after_resolution reject
  check_protected none now request =
      reject 503 authentication_unavailable (consumer_of request.url_path) none none none
  check_protected (some resolver) now request =
      after_authenticate request.url_path
        (resolve sha256_hex casefold resolver now request.authorization)

  -- `__call__` up to the end of its checks
  unfoldable pub check : Option PrincipalResolver → ℕ → Request → Outcome
  unfolding check_protected
  check factory now request =
      if not request.is_http || is_public request.path
      then passed
      else check_protected factory now request

  -- `__call__`: the application is a function of the bound principal, which it may rebind. The
  -- `finally` clause resets the binding; a call that binds nothing leaves it to the application.
  unfoldable pub call {ℓ} :
      {A : Type ℓ}
      → (Principal → A × Principal)
      → Option PrincipalResolver
      → ℕ
      → Request
      → Principal
      → (A ⊎ Outcome) × Principal
  unfolding check
  call app factory now request active = elim (check factory now request) [
    | passed ↦ let (a, active') = app active in (inl a, active')
    | admitted principal ↦ let (a, _) = app principal in (inl a, active)
    | rejected r ↦ (inr (rejected r), active)
    | raised e ↦ (inr (raised e), active)
  ]
