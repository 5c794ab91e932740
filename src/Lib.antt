-- ===== src/Lib.antt =====
-- Brunova Knowledge Gateway: an HTTP and MCP gateway to the Google Workspace documents, the CRM and the
-- signals of a company. A request is authenticated and confined by the middleware, its principal is
-- checked against scopes, sources and mutation policies, and signals from Pub/Sub go through a leased
-- inbox in a bucket. This library models these parts of the repository and proves what makes them
-- correct.
--
-- The files and the code that they model:
--   Errors         app/adapters/google_workspace/errors.py: `WorkspaceAdapterError` and exceptions as values
--   Exec           methods that call a storage service: a state, a result, and `try`/`except` on conflicts
--   Storage        what Google Cloud Storage promises: objects with generations, conditional writes
--   Storage/Log    a store that keeps these promises, used at concrete values
--   Storage/Objects  reads, writes and deletions of one object of a bucket
--   Json           JSON values and `dict`s
--   Registry       app/source_registry.py and app/policies/classification.py
--   Principals     app/auth/principals.py and app/auth/gateway_auth.py
--   Middleware     app/middleware/authentication.py
--   SourceAccess   app/policies/source_access.py
--   Mutation       app/policies/content_mutation.py
--   Signals        app/agent_signals.py: Payload (the contract of a signal), Record (the transitions of
--                  its status), Backend (its object in the bucket) and Inbox (the operations)
--   Hubspot        app/policies/hubspot.py; Hubspot/Tokens is app/adapters/hubspot/token_store.py with the
--                  documents of app/adapters/hubspot/models.py
--   References     app/artifact_refs.py
--   Ranges         the A1 ranges of app/policies/workspace.py and the column names of
--                  app/adapters/google_workspace/validation.py
--   Sheets         `SpreadsheetMutationPolicy` of app/policies/workspace.py
--   Proposals      app/source_governance.py and app/source_discovery/interface.py; Proposals/Store is
--                  app/source_proposal_store.py
--   Tools          the tool catalog, the authorization of tools and `_execute_tool` of app/mcp_server.py; Tools/Audit
--                  has its audit records, with the switch of app/audit.py
--   History        `list_authorized_operation_history` of app/operation_history.py
--   Approval       app/openwa_approval.py
--   Knowledge      deleting, sharing, renaming and moving an artifact in app/knowledge.py; Knowledge/Mutations
--                  has the operations
--   Google         `map_google_error` of app/adapters/google_workspace/errors.py, and calls of Google's clients
--   Drive          app/adapters/google_workspace/drive.py: Drive/Ancestors (a resource and the folders above it),
--                  Drive/Listing (the files of the sources), Drive/Changes (changes of a file),
--                  Drive/Discovery (with app/source_discovery/google_workspace.py), and Drive/Governed, which
--                  joins it to Knowledge
--   Push           app/auth/pubsub_push.py; Push/Route is the route /events/agent-signals of app/main.py
--   Tests          the theorems at concrete values
--
-- The middleware uses the resolver of Principals; Mutation uses the registry, the principals and
-- SourceAccess; Signals/Inbox composes Record with Backend over the interface ObjectStore, and
-- Proposals/Store and Hubspot/Tokens stand on the same interface. Sheets reads its ranges by
-- Ranges. Tools asks Principals and Registry before it runs an operation, which is a parameter.
-- Knowledge puts Mutation and SourceAccess before the calls of the provider, whose interface Drive
-- fills. Push verifies and parses what the inbox of Signals receives.
--
-- Operations keep the source's names. A method that only computes is a function into `Result`; one that
-- calls the bucket is an `Exec`, so what it did before an exception stays done. A time is the number
-- of its instant in microseconds, and the clock is a part of the store's state. The loops of
-- `_update` and of `create` run on their five attempts (MAX_WRITE_ATTEMPTS), as in the source; the loop
-- of `column_name` has one round more than the number, which is enough, since the number falls in each;
-- the walk to the ancestors recurs on the rounds that the maximal depth leaves and on the
-- pending list, one of which falls; every other loop runs over a list or a text.
--
-- Parameters stand for code outside the repository: the SHA-256 digest, `str.casefold`, the size of the
-- text that `json.dumps` writes, the JSON text of a signal record and the YAML text of the
-- proposals (`serialize`, `parse`), AES-GCM, base64 and the JSON text of references and OAuth documents,
-- the decimal digits beyond ASCII, the digests of approvals, the client of Google Drive, the verification of
-- Google's identity tokens, the callbacks of `_execute_tool`, and the object store. An interface stands for the store of the
-- operation history. Left out are the messages of errors, audit output beyond the records of Tools, the reading of
-- YAML, environment and settings (whether the audit is enabled is an argument), and the adapters to Google Docs and Sheets, HubSpot, n8n and OpenWA.
pub mod Prelude
pub mod Errors
pub mod Exec
pub mod Storage
pub mod Approval
pub mod History
pub mod Google
pub mod Drive
pub mod Push
pub mod Json
pub mod Knowledge
pub mod Registry
pub mod Principals
pub mod Middleware
pub mod SourceAccess
pub mod Mutation
pub mod Signals
pub mod Hubspot
pub mod Proposals
pub mod Ranges
pub mod References
pub mod Sheets
pub mod Tools
pub mod Tests
