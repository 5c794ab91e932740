-- ===== src/Tests/Requests.antt =====
-- Requests to the gateway: of a developer, of a revoked one, and of a path that is public.
use brunova_knowledge_gatewa.Prelude.{◌≡◌, refl, true, false, [], ◌∷◌, none, some}
use brunova_knowledge_gatewa.Prelude.Text.{partition, every, starts_with, split}
use brunova_knowledge_gatewa.Principals.{
  PrincipalResolver, PrincipalType, from_record, resolve, bearer_token, resolve_token,
  compare_digest, is_ascii, find_record, resolve_record, is_expired_at, allows_provider,
  allows_capability, allows_source, worker_record, PrincipalStatus, principal_revoked,
  invalid_authentication,
}
use brunova_knowledge_gatewa.Middleware.{
  Request, Rejection, Consumer, unauthenticated, admitted, rejected, is_public, check,
  check_protected, after_resolution, authorize_path, developer_http_authorization, segments,
  segments_authorization, reject,
}
use brunova_knowledge_gatewa.Middleware.DefaultDeny.{IsAuthenticated, check_admitted}
use brunova_knowledge_gatewa.Tests.Access.{digest, casefold, resolver, ana, worker}

abbrev get_file : Request
get_file = record {
  is_http = true;
  path = "/sources/playbooks/files";
  url_path = "/sources/playbooks/files";
  authorization = some "bearer token-of-ana";
}

ana_admitted : check digest casefold (some resolver) 7 get_file ≡ admitted ana
unfolding check is_public check_protected resolve bearer_token partition resolve_token
    compare_digest is_ascii every find_record resolve_record is_expired_at from_record
    after_resolution authorize_path developer_http_authorization starts_with allows_provider
    allows_capability segments split segments_authorization allows_source
ana_admitted = refl

check_admitted_example :
    (get_file.is_http ≡ true)
    × (is_public get_file.path ≡ false)
    × IsAuthenticated digest casefold (some resolver) 7 get_file ana
check_admitted_example = check_admitted digest casefold (some resolver) 7 get_file ana ana_admitted

-- a resolver whose only record is revoked
abbrev stale : PrincipalResolver
stale = record resolver {
  records = worker_record (record (worker "w1") { status = PrincipalStatus.revoked }) ∷ [];
}

abbrev post_signal : Request
post_signal = record {
  is_http = true;
  path = "/mcp";
  url_path = "/mcp";
  authorization = some "bearer token-of-worker";
}

abbrev refusal : Rejection
refusal = record {
  status_code = 401;
  error_code = unauthenticated principal_revoked;
  public_error = unauthenticated invalid_authentication;
  consumer = Consumer.mcp_client;
  principal = some ("w1", PrincipalType.signal_worker);
  provider = none;
  source_id = none;
}

worker_refused : check digest casefold (some stale) 7 post_signal ≡ rejected refusal
unfolding check is_public check_protected resolve bearer_token partition resolve_token
    compare_digest is_ascii every find_record resolve_record from_record after_resolution reject
    starts_with
worker_refused = refl
