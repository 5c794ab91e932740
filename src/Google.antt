-- ===== src/Google.antt =====
-- Calls of Google's client libraries and `map_google_error` of
-- app/adapters/google_workspace/errors.py, which gives their exceptions the codes of the gateway.
use brunova_knowledge_gatewa.Prelude.{
  ℕ, String, ◌≡◌, ap, Bool, ◌&&◌, ◌||◌, List, [], ◌∷◌, Option, none, some, any, eqb, if◌then◌else◌,
}
use brunova_knowledge_gatewa.Prelude.Text.{contains}
use brunova_knowledge_gatewa.Errors.{
  Error, Result, ok, err, ok-injective, adapter, os_error, credentials_unavailable,
  domain_wide_delegation_invalid, delegated_user_invalid, iam_signing_denied, authentication_failed,
  api_not_enabled, insufficient_permissions, resource_not_found, invalid_workspace_request,
  workspace_rate_limited, workspace_api_error,
}
use brunova_knowledge_gatewa.Exec.{Exec, pair_eq}

-- What a call raises, with the exception's text in lower case. `auth_error` is a `GoogleAuthError` of
-- neither of the two classes before it. No method but `_drive` catches an `OSError`.
pub data ClientError : Type 0 where
  default_credentials_error : ClientError
  refresh_error auth_error : String → ClientError
  http_error : Option ℕ → String → ClientError
  io_error : ClientError

pub data Answer (A : Type 0) : Type 0 where
  returned : A → Answer A
  raised : ClientError → Answer A

-- A call of a client library, where `S` is the state of the service.
abbrev pub Call : Type 0 → Type 0 → Type 0
Call S A = S → Answer A × S

abbrev pub mentions : List String → String → Bool
mentions markers text = any (λ marker. contains marker text) markers

unfoldable pub map_refresh_error : String → Error
unfolding contains
map_refresh_error text =
    if mentions ("unauthorized_client" ∷ "access_denied" ∷ []) text
    then adapter domain_wide_delegation_invalid 403
    else if mentions ("invalid_grant" ∷ "invalid email" ∷ "user id" ∷ []) text
    then adapter delegated_user_invalid 403
    else if mentions ("iam.serviceaccountcredentials" ∷ "signblob" ∷ []) text
    then adapter iam_signing_denied 403
    else adapter authentication_failed 503

unfoldable pub map_auth_error : String → Error
unfolding contains
map_auth_error text =
    if mentions ("iam.serviceaccountcredentials" ∷ "signblob" ∷ []) text
    then adapter iam_signing_denied 403
    else adapter authentication_failed 503

unfoldable pub map_http_error : Option ℕ → String → Error
unfolding contains
map_http_error none text = adapter workspace_api_error 502
map_http_error (some status) text =
    if eqb status 403
      && mentions ("accessnotconfigured" ∷ "servicedisabled" ∷ "api has not been used" ∷ []) text
    then adapter api_not_enabled 503
    else if eqb status 401 || eqb status 403
    then adapter insufficient_permissions 403
    else if eqb status 404
    then adapter resource_not_found 404
    else if eqb status 400
    then adapter invalid_workspace_request 422
    else if eqb status 429
    then adapter workspace_rate_limited 503
    else adapter workspace_api_error 502

-- `except (GoogleAuthError, HttpError) as error: raise map_google_error(error)`
unfoldable pub map_google_error : ClientError → Error
unfolding map_refresh_error map_auth_error map_http_error
map_google_error default_credentials_error = adapter credentials_unavailable 503
map_google_error (refresh_error text) = map_refresh_error text
map_google_error (auth_error text) = map_auth_error text
map_google_error (http_error status text) = map_http_error status text
map_google_error io_error = os_error

module _ {S A : Type 0} where
  abbrev pub answered : Answer A × S → Result A × S
  answered (returned a, s) = (ok a, s)
  answered (raised e, s) = (err (map_google_error e), s)

  -- A call within the `try` of a method.
  abbrev pub execute : Call S A → Exec S A
  execute call s = answered (call s)

  pub answered-eq-ok :
      (r : Answer A × S) (a : A) (s' : S) → answered r ≡ (ok a, s') → r ≡ (returned a, s')
  answered-eq-ok (returned b, s) a s' h =
      pair_eq (ap returned (ok-injective {a = b} {b = a} (ap (λ x. x.0) h))) (ap (λ x. x.1) h)
  answered-eq-ok (raised e, s) a s' h = cc
