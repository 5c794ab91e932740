-- ===== src/Tests/Tokens.antt =====
-- The OAuth state in a bucket of its own: one authorization that is used up, and one refresh.
use brunova_knowledge_gatewa.Prelude.{ℕ, ◌≡◌, refl, [], ◌∷◌, true, Option, none, some}
use brunova_knowledge_gatewa.Prelude.Text.{append}
use brunova_knowledge_gatewa.Errors.{ok}
use brunova_knowledge_gatewa.Storage.{ObjectStore}
use brunova_knowledge_gatewa.Storage.Log.{
  write, remove, LogState, log_store, log_upload, log_delete, arrive, object,
}
use brunova_knowledge_gatewa.Storage.Log.Promises.{log_store-IsObjectStore}
use brunova_knowledge_gatewa.Storage.Objects.{read_object, write_object, delete_object}
use brunova_knowledge_gatewa.Hubspot.Tokens.{
  Codec, PendingAuthorization, HubSpotConnectionDocument, RefreshLease, ConnectionState, is_locked,
  locked, refreshed, holds_lease, pending_name, check_pending, consume_pending, connection_parsed,
  read_connection, usable, acquire_refresh_lease, complete_refresh,
}
use brunova_knowledge_gatewa.Hubspot.Tokens.Pending.{IsConsumed, consume_pending-deletes}
use brunova_knowledge_gatewa.Hubspot.Tokens.Leases.{
  IsConnection, complete_refresh-acquire_refresh_lease,
}

-- the two texts, each as what it says
data Content : Type 0 where
  pending_text : PendingAuthorization → Content
  document_text : HubSpotConnectionDocument → Content

abbrev parse_pending : Content → Option PendingAuthorization
parse_pending (pending_text pending) = some pending
parse_pending (document_text document) = none

abbrev parse_document : Content → Option HubSpotConnectionDocument
parse_document (pending_text pending) = none
parse_document (document_text document) = some document

abbrev codec : Codec Content
codec = record {
  write_pending = pending_text;
  parse_pending = parse_pending;
  write_document = document_text;
  parse_document = parse_document;
  digest = append "d";
  encrypt = λ nonce token. append nonce token;
  decrypt = some;
}

abbrev store : ObjectStore Content
store = log_store Content (λ name content. true)

abbrev pending : PendingAuthorization
pending = record { state_digest = "dx"; code_verifier = "v"; created_at = 0; expires_at = 9 }

abbrev awaiting : LogState Content
awaiting = record {
  log = write "h/pending/dx.json" (pending_text pending) ∷ [];
  pending = [];
  now = 3;
}

abbrev consumed : LogState Content
consumed = record {
  log = remove "h/pending/dx.json" ∷ write "h/pending/dx.json" (pending_text pending) ∷ [];
  pending = [];
  now = 4;
}

consume_runs : consume_pending store codec "h" "x" awaiting ≡ (ok pending, consumed)
unfolding consume_pending check_pending pending_name read_object delete_object log_delete arrive
    object
consume_runs = refl

consume_pending-deletes_example : IsConsumed store codec "h" awaiting consumed "x" pending
consume_pending-deletes_example =
    consume_pending-deletes store codec "h" (log_store-IsObjectStore Content (λ name content. true))
      "x" pending awaiting consumed consume_runs

abbrev connection : HubSpotConnectionDocument
connection = record {
  encrypted_refresh_token = "t0";
  token_scope = some "crm";
  connected_at = 0;
  updated_at = 0;
  account = record { portal_id = some "7"; account_name = none; user_id = none; user_email = none };
  status = ConnectionState.active;
  refresh_lock_id = none;
  refresh_lock_expires_at = none;
}

abbrev lease : RefreshLease
lease = record { lock_id = "l1"; generation = 2; refresh_token = "t0"; scope = some "crm" }

abbrev connected : LogState Content
connected = record {
  log = write "h/connection.json" (document_text connection) ∷ [];
  pending = [];
  now = 10;
}

abbrev leased : LogState Content
leased = record connected {
  log = write "h/connection.json" (document_text (locked 10 30 "l1" connection)) ∷ connected.log;
  now = 11;
}

abbrev completed : LogState Content
completed = record leased {
  log =
      write "h/connection.json"
        (document_text (refreshed 11 "nt1" (some "crm") (locked 10 30 "l1" connection)))
      ∷ leased.log;
  now = 12;
}

acquire_runs : acquire_refresh_lease store codec "h" "l1" 30 connected ≡ (ok lease, leased)
unfolding acquire_refresh_lease read_connection connection_parsed usable is_locked locked
    read_object write_object log_upload arrive object
acquire_runs = refl

complete_runs : complete_refresh store codec "h" lease "n" "t1" none leased ≡ (ok 3, completed)
unfolding complete_refresh read_connection connection_parsed holds_lease locked refreshed
    read_object write_object log_upload arrive object
complete_runs = refl

complete_refresh-acquire_refresh_lease_example :
    (t t' : LogState Content) × (d : HubSpotConnectionDocument) × (g : ℕ) × (at now_at : ℕ)
    × store.Later connected t
    × IsConnection store codec "h" t d g
    × store.Next t leased
    × IsConnection store codec "h" t' (locked at 30 "l1" d) 2
    × store.Later leased t'
    × store.Next t' completed
    × (store.current completed "h/connection.json"
        ≡ some (document_text (refreshed now_at "nt1" (some "crm") (locked at 30 "l1" d)), 3))
complete_refresh-acquire_refresh_lease_example =
    complete_refresh-acquire_refresh_lease store codec "h"
      (log_store-IsObjectStore Content (λ name content. true)) (λ d. refl) "l1" "n" "t1" none 30 3
      lease connected leased leased completed acquire_runs ([], refl) complete_runs
