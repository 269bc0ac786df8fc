-- ===== src/ControlPlane/Snapshots.antt =====
-- internal/controlplane/snapshot.go: restoring a store from a snapshot. A range over a map goes through its
-- entries in order, so that of several errors another one may come first in Go.
pub mod Restored
pub mod Identities
use remote_dev_skillkit.Prelude.{
  ℕ, String, Bool, true, false, not, ◌&&◌, ◌||◌, Option, none, some, List, [], ◌∷◌, Dict, get, put,
  get_or, ◌==◌, ◌!=◌, string_eq, is_some, if◌then◌else◌, map,
}
use remote_dev_skillkit.Prelude.Text.{trim_space}
use remote_dev_skillkit.Prelude.Errors.{Checked, passed, refused, required, refuse_if, ◌>>=◌, ◌>>◌}
use remote_dev_skillkit.ControlPlane.Protocol.{
  EndpointRole, EndpointState, TaskStatus, SessionStatus, session_terminal, endpoint_role_eq,
  endpoint_state_eq,
}
use remote_dev_skillkit.ControlPlane.Session.{
  Time, Session, Endpoint, Event, Task, Lease, Host, IdempotencyKey, IdempotencyRecord, TaskRecord,
  LeaseRecord, idempotency_key_eq,
}
use remote_dev_skillkit.ControlPlane.Store.{MemoryStore}
use remote_dev_skillkit.ControlPlane.Tasks.{is_terminal}
use remote_dev_skillkit.ControlPlane.Endpoints.{has_all, constrained_endpoint_capabilities}

pub record SnapshotIdempotency : Type 0 where
  pub session_id : String
  pub from_endpoint_id : String
  pub key : String
  pub fingerprint : String
  pub event : Event

pub record StoreSnapshot : Type 0 where
  pub schema_version : String
  pub sessions : List Session
  pub events : Dict String (List Event)
  pub idempotency : List SnapshotIdempotency
  pub task_idempotency : Dict String TaskRecord
  pub cancel_idempotency : Dict String TaskRecord
  pub result_idempotency : Dict String TaskRecord
  pub leases : Dict String LeaseRecord
  pub terminal_at : Dict String Time
  pub hosts : List Host

pub data RestoreError : Type 0 where
  unsupported_schema : String → RestoreError
  missing_id invalid_binding live_task_outside_ceiling missing_scope invalid_lease terminal_lease :
      RestoreError
  duplicate_session duplicate_join_code duplicate_endpoint duplicate_key events_of_no_session
        key_of_no_session :
      String → RestoreError

-- The maps that are built up session by session.
pub record Rebuilt : Type 0 where
  pub sessions : Dict String Session
  pub join_codes : Dict String String
  pub endpoints : Dict String Endpoint

-- The endpoints of a session with their capabilities limited again, and all endpoints so far.
unfoldable pub restore_endpoints :
    Session
    → List Endpoint
    → Dict String Endpoint
    → Checked RestoreError (List Endpoint × Dict String Endpoint)
restore_endpoints session [] endpoints = passed ([], endpoints)
restore_endpoints session (e ∷ es) endpoints = do
  refuse_if (e.id == "" || e.session_id != session.id) invalid_binding
  refuse_if (is_some (get e.id endpoints)) (duplicate_endpoint e.id)
  let limited = record e {
    capabilities = constrained_endpoint_capabilities session e.role e.capabilities [];
  }
  rest ← restore_endpoints session es (put e.id limited endpoints)
  passed (limited ∷ rest.0, rest.1)

abbrev pub routes_to : Option Endpoint → String → List String → Bool
routes_to none session_id capabilities = false
routes_to (some e) session_id capabilities =
    e.session_id == session_id
    && e.role == EndpointRole.target
    && has_all e.capabilities capabilities

-- Whether every live task has a target of the session with the capabilities it needs.
unfoldable pub are_routed : String → Dict String Endpoint → List Task → Bool
are_routed session_id endpoints [] = true
are_routed session_id endpoints (t ∷ ts) =
    let rest = are_routed session_id endpoints ts in
    if is_terminal t.status
    then rest
    else if routes_to (get t.target_endpoint_id endpoints) session_id t.capabilities
    then rest
    else false

unfoldable pub restore_session : Session → Rebuilt → Checked RestoreError Rebuilt
restore_session session r = do
  refuse_if (session.id == "" || session.join_code == "") missing_id
  refuse_if (is_some (get session.id r.sessions)) (duplicate_session session.id)
  refuse_if (is_some (get session.join_code r.join_codes)) (duplicate_join_code session.join_code)
  bound ← restore_endpoints session session.endpoints r.endpoints
  refuse_if (not (are_routed session.id bound.1 session.tasks)) live_task_outside_ceiling
  passed (record {
    sessions = put session.id (record session { endpoints = bound.0 }) r.sessions;
    join_codes = put session.join_code session.id r.join_codes;
    endpoints = bound.1;
  })

unfoldable pub restore_sessions : List Session → Rebuilt → Checked RestoreError Rebuilt
restore_sessions [] r = passed r
restore_sessions (s ∷ ss) r = do next ← restore_session s r; restore_sessions ss next

unfoldable pub restore_events :
    Dict String Session → Dict String (List Event) → Checked RestoreError (Dict String (List Event))
restore_events sessions [] = passed []
restore_events sessions ((session_id, events) ∷ rest) = do
  refuse_if (not (is_some (get session_id sessions))) (events_of_no_session session_id)
  others ← restore_events sessions rest
  passed (put session_id events others)

-- A session without events gets the empty log.
unfoldable pub with_empty_logs :
    Dict String Session → Dict String (List Event) → Dict String (List Event)
with_empty_logs [] events = events
with_empty_logs ((session_id, s) ∷ rest) events =
    put session_id (get_or session_id [] events) (with_empty_logs rest events)

unfoldable pub restore_idempotency :
    Dict String Session
    → List SnapshotIdempotency
    → Dict IdempotencyKey IdempotencyRecord
    → Checked RestoreError (Dict IdempotencyKey IdempotencyRecord)
restore_idempotency sessions [] built = passed built
restore_idempotency sessions (r ∷ rest) built = do
  let key : IdempotencyKey = record {
    session_id = r.session_id;
    from_endpoint_id = r.from_endpoint_id;
    key = r.key;
  }
  refuse_if (r.session_id == "" || r.key == "") missing_scope
  refuse_if (not (is_some (get r.session_id sessions))) (key_of_no_session r.session_id)
  refuse_if (is_some (get key built)) (duplicate_key r.key)
  restore_idempotency sessions rest
      (put key (record { fingerprint = r.fingerprint; event = r.event }) built)

-- Whether a lease belongs to an endpoint and its session, and whether neither of them has ended.
abbrev pub is_bound : String → Lease → Option Endpoint → Option Session → Bool
is_bound endpoint_id lease (some e) (some s) =
    endpoint_id != "" && lease.endpoint_id == endpoint_id && e.session_id == lease.session_id
is_bound endpoint_id lease _ _ = false

abbrev pub has_ended : Option Endpoint → Option Session → Bool
has_ended (some e) (some s) =
    session_terminal s.status || e.state == EndpointState.closed || e.state == EndpointState.revoked
has_ended _ _ = false

unfoldable pub check_leases : Rebuilt → Dict String LeaseRecord → Checked RestoreError (Unit {0})
check_leases r [] = passed tt
check_leases r ((endpoint_id, l) ∷ rest) = do
  refuse_if
      (not (
        is_bound endpoint_id l.current (get endpoint_id r.endpoints)
          (get l.current.session_id r.sessions)))
      invalid_lease
  refuse_if (has_ended (get endpoint_id r.endpoints) (get l.current.session_id r.sessions))
      terminal_lease
  check_leases r rest

unfoldable pub hosts_from_snapshot : List Host → Dict String Host → Dict String Host
hosts_from_snapshot [] built = built
hosts_from_snapshot (h ∷ hs) built =
    let versioned = record h {
      schema_version = if h.schema_version == "" then "rdev.host.v1" else h.schema_version;
    } in
    let skipped = hosts_from_snapshot hs built in
    let added = hosts_from_snapshot hs (put h.identity_fingerprint versioned built) in
    if trim_space h.identity_fingerprint == "" || trim_space h.host_id == "" then skipped else added

-- `RestoreSnapshot`, of a snapshot whose schema is not the empty one.
unfoldable pub restore_checked : StoreSnapshot → MemoryStore → Checked RestoreError MemoryStore
restore_checked snapshot m = do
  refuse_if (snapshot.schema_version != "rdev.control-plane-snapshot.v1")
      (unsupported_schema snapshot.schema_version)
  built ←
      restore_sessions snapshot.sessions (record { sessions = []; join_codes = []; endpoints = [] })
  events ← restore_events built.sessions snapshot.events
  idempotency ← restore_idempotency built.sessions snapshot.idempotency []
  check_leases built snapshot.leases
  passed (record m {
    sessions = built.sessions;
    join_codes = built.join_codes;
    events = with_empty_logs built.sessions events;
    idempotency = idempotency;
    task_idempotency = snapshot.task_idempotency;
    cancel_idempotency = snapshot.cancel_idempotency;
    result_idempotency = snapshot.result_idempotency;
    leases = snapshot.leases;
    terminal_at = snapshot.terminal_at;
    hosts = hosts_from_snapshot snapshot.hosts [];
  })

unfoldable pub restore_snapshot : StoreSnapshot → MemoryStore → Checked RestoreError MemoryStore
restore_snapshot snapshot m =
    if snapshot.schema_version == "" then passed m else restore_checked snapshot m
