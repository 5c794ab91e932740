-- ===== src/Middleware/Discretion.antt =====
-- What a rejected caller of app/middleware/authentication.py learns, and what it leaves behind.
use brunova_knowledge_gatewa.Prelude.{
  ℕ, String, ◌≡◌, refl, ◌≢◌, ◌⊎◌, inl, inr, true, false, Option, none, some, arith, Bool-cases, not,
  ◌||◌, ◌↔◌, if◌then◌else◌,
}
use brunova_knowledge_gatewa.Prelude.Text.{starts_with}
use brunova_knowledge_gatewa.Errors.{Result, ok, err}
use brunova_knowledge_gatewa.Principals.{
  Principal, PrincipalType, PrincipalResolver, management, developer, signal_worker, Resolution,
  invalid_authentication,
}
use brunova_knowledge_gatewa.Middleware.{
  Request, Denial, Rejection, Outcome, passed, admitted, rejected, raised, is_hidden, is_public,
  developer_http_authorization, developer_outcome, authorize_path, after_resolution,
  after_authenticate, check_protected, check, call, unauthenticated,
}

-- The checks of a protected path end in the application or in a rejection that does not tell
-- a revoked or expired token from an unknown one.
abbrev pub IsDiscreet : Outcome → Type 0
IsDiscreet passed = ⊥
IsDiscreet (admitted p) = Unit
IsDiscreet (rejected r) = is_hidden r.public_error ≡ false
IsDiscreet (raised e) = Unit

public_error-shown :
    (d : Denial)
    → is_hidden (if is_hidden d then unauthenticated invalid_authentication else d) ≡ false
public_error-shown d = ground arith

authorize_path-IsDiscreet :
    (path : String) (p : Principal) (type : PrincipalType) → IsDiscreet (authorize_path path p type)
unfolding authorize_path
authorize_path-IsDiscreet path p management = tt
authorize_path-IsDiscreet path p developer = outcome (developer_http_authorization path p)
  where
    outcome : (d : Option Denial) → IsDiscreet (developer_outcome path p d)
    outcome none = tt
    outcome (some d) = public_error-shown d
authorize_path-IsDiscreet path p signal_worker = elim (Bool-cases (starts_with "/mcp" path)) [
  | inl mcp ↦ rw mcp tt
  | inr other ↦ rw other refl
]

after_resolution-IsDiscreet :
    (path : String) (resolution : Resolution) → IsDiscreet (after_resolution path resolution)
unfolding after_resolution
after_resolution-IsDiscreet path (none, none) = tt
after_resolution-IsDiscreet path (some p, none) = authorize_path-IsDiscreet path p p.type
after_resolution-IsDiscreet path (none, some e) = public_error-shown (unauthenticated e)
after_resolution-IsDiscreet path (some p, some e) = public_error-shown (unauthenticated e)

after_authenticate-IsDiscreet :
    (path : String) (r : Result Resolution) → IsDiscreet (after_authenticate path r)
after_authenticate-IsDiscreet path (ok resolution) = after_resolution-IsDiscreet path resolution
after_authenticate-IsDiscreet path (err e) = tt

module _ (sha256_hex casefold : String → String) (now : ℕ) (request : Request) where
  check_protected-IsDiscreet :
      (factory : Option PrincipalResolver)
      → IsDiscreet (check_protected sha256_hex casefold factory now request)
  unfolding check_protected
  check_protected-IsDiscreet none = refl
  check_protected-IsDiscreet (some resolver) = after_authenticate-IsDiscreet request.url_path _

  -- Whatever the registry, a rejection never tells the caller that its token is revoked or expired.
  pub check_hides_revocation :
      (factory : Option PrincipalResolver) (r : Rejection)
      → check sha256_hex casefold factory now request ≡ rejected r
      → is_hidden r.public_error ≡ false
  unfolding check
  check_hides_revocation factory r h =
      elim (Bool-cases (not request.is_http || is_public request.path)) [
        | inl open' ↦ cc (rw (open', check) at h)
        | inr closed ↦
            let e : check_protected sha256_hex casefold factory now request ≡ rejected r =
              rw (closed, check) at h in
            rw e at (check_protected-IsDiscreet factory)
      ]

  -- A request goes through unauthenticated exactly off HTTP or on a public path.
  pub check_passed_iff :
      (factory : Option PrincipalResolver)
      → (check sha256_hex casefold factory now request ≡ passed)
        ↔ ((request.is_http ≡ false) ⊎ (is_public request.path ≡ true))
  unfolding check
  check_passed_iff factory = (
    λ h. elim (Bool-cases (not request.is_http || is_public request.path)) [
      | inl open' ↦ ground arith
      | inr closed ↦
          let e : check_protected sha256_hex casefold factory now request ≡ passed =
            rw (closed, check) at h in
          absurd (rw e at (check_protected-IsDiscreet factory))
    ],
    λ h. ground arith,
  )

  -- A call that does not pass through leaves the bound principal as it was, whatever the
  -- application binds meanwhile.
  pub call_restores {ℓ} :
      {A : Type ℓ} (app : Principal → A × Principal) (factory : Option PrincipalResolver)
      (active : Principal)
      → check sha256_hex casefold factory now request ≢ passed
      → (call sha256_hex casefold app factory now request active).1 ≡ active
  unfolding call
  call_restores app factory active h = restored (check sha256_hex casefold factory now request) refl
    where
      restored :
          (o : Outcome)
          → check sha256_hex casefold factory now request ≡ o
          → (call sha256_hex casefold app factory now request active).1 ≡ active
      restored passed e = absurd (h e)
      restored (admitted p) e = rw (e, call)
      restored (rejected r) e = rw (e, call)
      restored (raised x) e = rw (e, call)
