-- ===== src/Hubspot/Tokens.antt =====
-- app/adapters/hubspot/token_store.py and its documents in app/adapters/hubspot/models.py: the OAuth state
-- of the HubSpot connection in a bucket. The JSON text of a document, the digest of a state and the
-- encryption of a refresh token are parameters; the random numbers that a call draws (the id of a
-- lock, the nonce of an encryption) are its arguments.
pub mod Pending
pub mod Leases
use brunova_knowledge_gatewa.Prelude.{
  ℕ, ◌+◌, String, ◌==◌, Bool, true, false, not, ◌&&◌, Option, none, some, leb, eqb, if◌then◌else◌,
}
use brunova_knowledge_gatewa.Prelude.Text.{append, is_empty}
use brunova_knowledge_gatewa.Errors.{
  Error, Result, ok, err, adapter, require, hubspot_oauth_state_conflict,
  hubspot_oauth_state_invalid, hubspot_oauth_state_expired, hubspot_connection_conflict,
  hubspot_not_connected, hubspot_refresh_in_progress, hubspot_refresh_conflict,
  hubspot_connection_invalid, hubspot_state_unavailable,
}
use brunova_knowledge_gatewa.Exec.{Exec, pure, raise, lift, attempt, on_conflict, ◌>>=◌, ◌>>◌}
use brunova_knowledge_gatewa.Storage.{ObjectStore}
use brunova_knowledge_gatewa.Storage.Objects.{read_object, write_object, delete_object}

pub record PendingAuthorization : Type 0 where
  pub state_digest : String
  pub code_verifier : String
  pub created_at : ℕ
  pub expires_at : ℕ

pub record HubSpotAccountMetadata : Type 0 where
  pub portal_id : Option String
  pub account_name : Option String
  pub user_id : Option String
  pub user_email : Option String

pub data ConnectionState : Type 0 where
  active refreshing reauthorization_required : ConnectionState

pub record HubSpotConnectionDocument : Type 0 where
  pub encrypted_refresh_token : String
  pub token_scope : Option String
  pub connected_at : ℕ
  pub updated_at : ℕ
  pub account : HubSpotAccountMetadata
  pub status : ConnectionState
  pub refresh_lock_id : Option String
  pub refresh_lock_expires_at : Option ℕ

pub record RefreshLease : Type 0 where
  pub lock_id : String
  pub generation : ℕ
  pub refresh_token : String
  pub scope : Option String

-- What `status` tells: the account if there is a connection, and whether it must be authorized again.
pub data ConnectionStatus : Type 0 where
  disconnected : ConnectionStatus
  connected reauthorization : HubSpotAccountMetadata → ConnectionStatus

abbrev no_account : HubSpotAccountMetadata
no_account = record { portal_id = none; account_name = none; user_id = none; user_email = none }

abbrev given_account : Option HubSpotAccountMetadata → HubSpotAccountMetadata
given_account none = no_account
given_account (some account) = account

abbrev pub unavailable_error : Error
unavailable_error = adapter hubspot_state_unavailable 503

abbrev pub state_invalid : Error
state_invalid = adapter hubspot_oauth_state_invalid 400

abbrev pub refresh_conflict : Error
refresh_conflict = adapter hubspot_refresh_conflict 409

-- `status == "refreshing"` with a lock that has not expired
unfoldable pub lock_runs : ConnectionState → Option ℕ → ℕ → Bool
lock_runs refreshing (some expires) now = not (leb expires now)
lock_runs refreshing none now = false
lock_runs active expires now = false
lock_runs reauthorization_required expires now = false

unfoldable pub is_locked : ℕ → HubSpotConnectionDocument → Bool
unfolding lock_runs
is_locked now document = lock_runs document.status document.refresh_lock_expires_at now

abbrev pub needs_authorization : ConnectionState → Bool
needs_authorization reauthorization_required = true
needs_authorization _ = false

-- the document that `acquire_refresh_lease` writes
unfoldable pub locked : ℕ → ℕ → String → HubSpotConnectionDocument → HubSpotConnectionDocument
locked now ttl lock_id document = record document {
  status = refreshing;
  refresh_lock_id = some lock_id;
  refresh_lock_expires_at = some (now + ttl);
  updated_at = now;
}

-- the document that `complete_refresh` writes; `scope or lease.scope`
abbrev pub or_scope : Option String → Option String → Option String
or_scope none other = other
or_scope (some scope) other = if is_empty scope then other else some scope

unfoldable pub refreshed :
    ℕ → String → Option String → HubSpotConnectionDocument → HubSpotConnectionDocument
refreshed now encrypted scope document = record document {
  encrypted_refresh_token = encrypted;
  token_scope = scope;
  status = active;
  refresh_lock_id = none;
  refresh_lock_expires_at = none;
  updated_at = now;
}

-- the document that `fail_refresh` writes
unfoldable pub unlocked : ℕ → Bool → HubSpotConnectionDocument → HubSpotConnectionDocument
unlocked now invalid document = record document {
  status = if invalid then reauthorization_required else active;
  refresh_lock_id = none;
  refresh_lock_expires_at = none;
  updated_at = now;
}

abbrev pub same_lock : Option String → String → Bool
same_lock none lock_id = false
same_lock (some id) lock_id = id == lock_id

-- `generation == lease.generation` and `document.refresh_lock_id == lease.lock_id`
unfoldable pub holds_lease : RefreshLease → Option HubSpotConnectionDocument → ℕ → Bool
holds_lease lease none generation = false
holds_lease lease (some document) generation =
    eqb generation lease.generation && same_lock document.refresh_lock_id lease.lock_id

abbrev status_of : HubSpotConnectionDocument → ConnectionStatus
status_of document =
    if needs_authorization document.status
    then reauthorization document.account
    else connected document.account

abbrev pub unexpired : PendingAuthorization → ℕ → Result PendingAuthorization
unexpired pending t =
    if leb pending.expires_at t then err (adapter hubspot_oauth_state_expired 400) else ok pending

-- The JSON texts of the two documents, the digest of a state, and the encryption of a refresh token.
pub record Codec (C : Type 0) : Type 0 where
  pub write_pending : PendingAuthorization → C
  pub parse_pending : C → Option PendingAuthorization
  pub write_document : HubSpotConnectionDocument → C
  pub parse_document : C → Option HubSpotConnectionDocument
  pub digest : String → String
  pub encrypt : String → String → String
  pub decrypt : String → Option String

module _ {C : Type 0} (store : ObjectStore C) (codec : Codec C) (prefix : String) where
  abbrev pub read : String → Exec store.State (Option C × ℕ)
  read = read_object store unavailable_error

  abbrev pub now : Exec store.State ℕ
  now s = let (t, s') = store.clock s in (ok t, s')

  abbrev pub connection_name : String
  connection_name = append prefix "/connection.json"

  unfoldable pub pending_name : String → String
  pending_name state = append prefix (append "/pending/" (append (codec.digest state) ".json"))

  unfoldable pub create_pending : String → PendingAuthorization → Exec store.State ℕ
  create_pending state pending =
      on_conflict (adapter hubspot_oauth_state_conflict 409)
        (write_object store unavailable_error (pending_name state) (codec.write_pending pending) 0)

  -- the checks of `consume_pending` on what it read
  unfoldable pub check_pending : String → Option C → Result PendingAuthorization
  check_pending state none = err state_invalid
  check_pending state (some content) = elim (codec.parse_pending content) [
    | none ↦ err state_invalid
    | some pending ↦
        if pending.state_digest == codec.digest state then ok pending else err state_invalid
  ]

  -- the stages of `consume_pending`, the last first
  abbrev pub consume_deleted :
      PendingAuthorization → Unit {0} → Exec store.State PendingAuthorization
  consume_deleted pending deleted = now >>= λ t. lift (unexpired pending t)

  abbrev pub consume_checked :
      String → ℕ → PendingAuthorization → Exec store.State PendingAuthorization
  consume_checked state generation pending =
      on_conflict state_invalid
        (delete_object store unavailable_error (pending_name state) generation)
      >>= consume_deleted pending

  abbrev pub consume_found : String → Option C × ℕ → Exec store.State PendingAuthorization
  consume_found state found = lift (check_pending state found.0) >>= consume_checked state found.1

  unfoldable pub consume_pending : String → Exec store.State PendingAuthorization
  consume_pending state = read (pending_name state) >>= consume_found state

  -- `_read_connection`, of what was read
  unfoldable pub connection_parsed : Option C → Result (Option HubSpotConnectionDocument)
  connection_parsed none = ok none
  connection_parsed (some content) = elim (codec.parse_document content) [
    | none ↦ err (adapter hubspot_connection_invalid 503)
    | some document ↦ ok (some document)
  ]

  unfoldable pub read_connection : Exec store.State (Option HubSpotConnectionDocument × ℕ)
  read_connection = do
    found ← read connection_name
    document ← lift (connection_parsed found.0)
    pure (document, found.1)

  abbrev pub write_connection : HubSpotConnectionDocument → ℕ → Exec store.State ℕ
  write_connection document generation =
      write_object store unavailable_error connection_name (codec.write_document document)
        generation

  unfoldable pub save_connection :
      String → String → Option String → Option HubSpotAccountMetadata → Exec store.State ℕ
  save_connection nonce refresh_token scope account = do
    current ← read_connection
    t ← now
    on_conflict (adapter hubspot_connection_conflict 409) (
        write_connection
          (record {
            encrypted_refresh_token = codec.encrypt nonce refresh_token;
            token_scope = scope;
            connected_at = t;
            updated_at = t;
            account = given_account account;
            status = active;
            refresh_lock_id = none;
            refresh_lock_expires_at = none;
          })
          current.1)

  unfoldable pub status : Exec store.State ConnectionStatus
  status = do
    current ← read_connection
    pure (elim current.0 [ none ↦ disconnected | some document ↦ status_of document ])

  -- the first check of `acquire_refresh_lease`
  unfoldable pub usable : Option HubSpotConnectionDocument → Result HubSpotConnectionDocument
  usable none = err (adapter hubspot_not_connected 409)
  usable (some document) =
      if needs_authorization document.status
      then err (adapter hubspot_not_connected 409)
      else ok document

  abbrev pub decrypted : Option String → Result String
  decrypted none = err (adapter hubspot_connection_invalid 503)
  decrypted (some value) = ok value

  -- the stages of `acquire_refresh_lease`, the last first
  abbrev pub leased :
      String → HubSpotConnectionDocument → ℕ → String → Exec store.State RefreshLease
  leased lock_id document generation token = pure (record {
    lock_id = lock_id;
    generation = generation;
    refresh_token = token;
    scope = document.token_scope;
  })

  abbrev pub lease_of : String → HubSpotConnectionDocument → ℕ → Exec store.State RefreshLease
  lease_of lock_id document generation =
      lift (decrypted (codec.decrypt document.encrypted_refresh_token))
      >>= leased lock_id document generation

  abbrev pub lock_connection :
      String → ℕ → ℕ → HubSpotConnectionDocument → ℕ → Unit {0} → Exec store.State RefreshLease
  lock_connection lock_id ttl generation document t free =
      on_conflict (adapter hubspot_refresh_in_progress 409)
        (write_connection (locked t ttl lock_id document) generation)
      >>= lease_of lock_id document

  abbrev pub acquire_at :
      String → ℕ → ℕ → HubSpotConnectionDocument → ℕ → Exec store.State RefreshLease
  acquire_at lock_id ttl generation document t =
      lift (require (not (is_locked t document)) hubspot_refresh_in_progress 409)
      >>= lock_connection lock_id ttl generation document t

  abbrev pub acquire_usable :
      String → ℕ → ℕ → HubSpotConnectionDocument → Exec store.State RefreshLease
  acquire_usable lock_id ttl generation document =
      now >>= acquire_at lock_id ttl generation document

  abbrev pub acquire_from :
      String → ℕ → Option HubSpotConnectionDocument × ℕ → Exec store.State RefreshLease
  acquire_from lock_id ttl current =
      lift (usable current.0) >>= acquire_usable lock_id ttl current.1

  unfoldable pub acquire_refresh_lease : String → ℕ → Exec store.State RefreshLease
  acquire_refresh_lease lock_id ttl = read_connection >>= acquire_from lock_id ttl

  abbrev pub held :
      RefreshLease → Option HubSpotConnectionDocument → ℕ → Result HubSpotConnectionDocument
  held lease none generation = err refresh_conflict
  held lease (some document) generation =
      if holds_lease lease (some document) generation then ok document else err refresh_conflict

  -- the stages of `complete_refresh`, the last first
  abbrev pub complete_at :
      RefreshLease → String → Option String → ℕ → HubSpotConnectionDocument → ℕ → Exec store.State ℕ
  complete_at lease encrypted scope generation document t =
      on_conflict refresh_conflict
        (write_connection (refreshed t encrypted (or_scope scope lease.scope) document) generation)

  abbrev pub complete_held :
      RefreshLease → String → Option String → ℕ → HubSpotConnectionDocument → Exec store.State ℕ
  complete_held lease encrypted scope generation document =
      now >>= complete_at lease encrypted scope generation document

  abbrev pub complete_from :
      RefreshLease
      → String
      → Option String
      → Option HubSpotConnectionDocument × ℕ
      → Exec store.State ℕ
  complete_from lease encrypted scope current =
      lift (held lease current.0 current.1) >>= complete_held lease encrypted scope current.1

  unfoldable pub complete_refresh :
      RefreshLease → String → String → Option String → Exec store.State ℕ
  complete_refresh lease nonce refresh_token scope =
      read_connection >>= complete_from lease (codec.encrypt nonce refresh_token) scope

  abbrev fail_with :
      RefreshLease → Bool → Option HubSpotConnectionDocument → ℕ → Exec store.State (Unit {0})
  fail_with lease invalid none generation = pure tt
  fail_with lease invalid (some document) generation =
      if holds_lease lease (some document) generation
      then (do
        t ← now
        attempt (write_connection (unlocked t invalid document) generation)
        pure tt)
      else pure tt

  unfoldable pub fail_refresh : RefreshLease → Bool → Exec store.State (Unit {0})
  fail_refresh lease invalid = do
    current ← read_connection
    fail_with lease invalid current.0 current.1

  abbrev update_with :
      HubSpotAccountMetadata → Option HubSpotConnectionDocument → ℕ → Exec store.State (Unit {0})
  update_with account none generation = pure tt
  update_with account (some document) generation = do
    t ← now
    attempt (write_connection (record document { account = account; updated_at = t }) generation)
    pure tt

  unfoldable pub update_account : HubSpotAccountMetadata → Exec store.State (Unit {0})
  update_account account = do current ← read_connection; update_with account current.0 current.1
