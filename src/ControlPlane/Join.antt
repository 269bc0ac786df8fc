-- ===== src/ControlPlane/Join.antt =====
-- internal/controlplane/store.go, host.go: `JoinSession`, `JoinByCode`, and the host directory.
pub mod Ceiling
use Prim.Native.String.{◌++◌ as ◌<>◌}
use remote_dev_skillkit.Prelude.{
  String, Bool, true, false, ◌&&◌, ◌||◌, Option, none, some, List, [], ◌∷◌, if◌then◌else◌, ◌==◌,
  ◌!=◌, string_eq, get, get_or, put, any, find?, pos,
}
use remote_dev_skillkit.Prelude.Text.{trim_space}
use remote_dev_skillkit.Exec.{ok, pure, fail_if, require, gets, ◌>>=◌, ◌>>◌}
use remote_dev_skillkit.ControlPlane.Protocol.{
  SessionStatus, EndpointRole, EndpointState, EventType, Transport, ErrorCode, protocol, text,
  invalid_join_code_error, endpoint_role_eq, transport_eq, session_terminal,
}
use remote_dev_skillkit.ControlPlane.Session.{
  Time, Session, Endpoint, EndpointSpec, Event, Host, Lease,
}
use remote_dev_skillkit.ControlPlane.World.{World}
use remote_dev_skillkit.ControlPlane.Store.{
  State, Store, refusal, put_store, find_session, no_session, no_event, now, new_id,
  session_expired,
}
use remote_dev_skillkit.ControlPlane.Append.{append_event_locked}
use remote_dev_skillkit.ControlPlane.Leases.{issue_lease_locked}
use remote_dev_skillkit.ControlPlane.Endpoints.{
  constrained_endpoint_capabilities, with_endpoint, endpoint_identity_key, or_text, role_text,
}
use remote_dev_skillkit.ControlPlane.Lifecycle.{refuse_expired}
use remote_dev_skillkit.ControlPlane.Events.{visible_events}

-- The directory entry of a host after a join; the operator's name for it stays.
abbrev pub refreshed : Host → Session → Endpoint → Time → Host
refreshed h session e t = record h {
  capabilities = e.capabilities;
  state = e.state;
  last_seen_at = t;
  last_session_id = session.id;
  last_endpoint_id = e.id;
  platform = or_text h.platform e.platform;
  display_name = or_text h.display_name e.name;
}

abbrev pub new_host : String → Endpoint → Time → Host
new_host host_id e t = record {
  schema_version = "rdev.host.v1";
  host_id = host_id;
  identity_fingerprint = e.identity_fingerprint;
  display_name = e.name;
  platform = e.platform;
  capabilities = [];
  state = EndpointState.unset;
  first_seen_at = t;
  last_seen_at = t;
  last_session_id = "";
  last_endpoint_id = "";
}

unfoldable pub put_host : Host → Session → Endpoint → Time → Store (Unit {0})
put_host h session e t =
    put_store
      (λ m. record m { hosts = put e.identity_fingerprint (refreshed h session e t) m.hosts })

module _ ⦃w : World⦄ where
  abbrev pub upsert_over : Option Host → Session → Endpoint → Time → Store (Unit {0})
  upsert_over (some h) session e t s = put_host h session e t s
  upsert_over none session e t s =
      let m = (do id ← new_id "hst"; put_host (new_host id e t) session e t) in (ok tt, (m s).1)

  -- `UpsertHostLocked`; without randomness a new host gets no entry, and that is no error.
  unfoldable pub upsert_host_locked : Session → Endpoint → Time → Store (Unit {0})
  upsert_host_locked session e t =
      if e.role != EndpointRole.target || trim_space e.identity_fingerprint == ""
      then pure tt
      else (λ s. upsert_over (get e.identity_fingerprint s.hosts) session e t s)

abbrev pub joined_role : EndpointSpec → EndpointRole
joined_role spec = if spec.role == EndpointRole.unset then EndpointRole.target else spec.role

abbrev joined_transport : EndpointSpec → Transport
joined_transport spec = if spec.transport == Transport.unset then Transport.poll else spec.transport

-- Whether an endpoint is the one that joins again.
unfoldable pub same_identity : Session → EndpointSpec → Endpoint → Bool
unfolding endpoint_identity_key
same_identity session spec e =
    endpoint_identity_key session.id e.role e.identity_fingerprint e.platform
      == endpoint_identity_key session.id (joined_role spec) spec.identity_fingerprint spec.platform
    && spec.identity_fingerprint != ""

abbrev pub is_target : Endpoint → Bool
is_target e = e.role == EndpointRole.target

abbrev pub rejoined : Session → EndpointSpec → Endpoint → Time → Endpoint
rejoined session spec e t = record e {
  name = or_text spec.name e.name;
  capabilities =
      constrained_endpoint_capabilities session (joined_role spec) spec.capabilities e.capabilities;
  transport = joined_transport spec;
  state = EndpointState.online;
  last_seen_at = t;
  host_version = if spec.host_version != "" then spec.host_version else e.host_version;
  host_commit = if spec.host_version != "" then spec.host_commit else e.host_commit;
}

abbrev pub first_joined : Session → EndpointSpec → String → Time → Endpoint
first_joined session spec id t = record {
  schema_version = "rdev.endpoint.v1";
  id = id;
  session_id = session.id;
  role = joined_role spec;
  name = spec.name;
  platform = spec.platform;
  identity_fingerprint = spec.identity_fingerprint;
  capabilities = constrained_endpoint_capabilities session (joined_role spec) spec.capabilities [];
  state = EndpointState.online;
  transport = joined_transport spec;
  received_seq = 0;
  processed_seq = 0;
  last_seen_at = t;
  host_version = spec.host_version;
  host_commit = spec.host_commit;
}

abbrev pub single_target_taken : Session → EndpointSpec → Bool
single_target_taken session spec =
    session.join_policy == "single-target"
    && joined_role spec == EndpointRole.target
    && any is_target session.endpoints

module _ ⦃w : World⦄ where
  -- The session with the endpoint, online, and the host directory after it.
  unfoldable pub store_endpoint : Session → Endpoint → Store Session
  store_endpoint session e = do
    updated ← now
    let joined = with_endpoint (record session { status = SessionStatus.online }) e updated
    put_store (λ m. record m { sessions = put session.id joined m.sessions })
    seen ← now
    upsert_host_locked joined e seen
    pure joined

  unfoldable pub join_again : Session → EndpointSpec → Endpoint → Store (Endpoint × Bool)
  join_again session spec e = do
    t ← now
    let endpoint = rejoined session spec e t
    store_endpoint session endpoint
    pure (endpoint, false)

  abbrev pub chosen_id : EndpointSpec → Store String
  chosen_id spec = if spec.endpoint_id == "" then new_id "end" else pure spec.endpoint_id

  unfoldable pub join_first : Session → EndpointSpec → Store (Endpoint × Bool)
  join_first session spec = do
    fail_if (single_target_taken session spec) (
        refusal ErrorCode.join_policy_rejected
          "single-target session already has a different target" false)
    id ← chosen_id spec
    t ← now
    let endpoint = first_joined session spec id t
    store_endpoint session endpoint
    pure (endpoint, true)

  abbrev pub join_over : Option Endpoint → Session → EndpointSpec → Store (Endpoint × Bool)
  join_over none session spec = join_first session spec
  join_over (some e) session spec = join_again session spec e

  -- `joinEndpointLocked`: the endpoint, and whether it is new.
  unfoldable pub join_endpoint_locked : Session → EndpointSpec → Store (Endpoint × Bool)
  join_endpoint_locked session spec =
      join_over (find? (same_identity session spec) session.endpoints) session spec

  abbrev hello_event : Endpoint → Event
  hello_event e = record no_event {
    type = EventType.hello;
    from_endpoint_id = "gateway";
    to_endpoint_id = e.id;
    idempotency_key = "join-hello:" <> e.id;
    payload = some (("role", text (role_text e.role)) ∷ ("endpoint", text e.id) ∷ []);
  }

  abbrev pub greet : Bool → String → Endpoint → Store (Unit {0})
  greet false session_id e = pure tt
  greet true session_id e = do append_event_locked session_id (hello_event e) true; pure tt

  -- `JoinSession`
  unfoldable pub join_session : String → EndpointSpec → Store (Session × Endpoint × Lease)
  join_session session_id spec = do
    session ← find_session session_id
    expired ← session_expired session
    refuse_expired expired session_id
    fail_if (session_terminal session.status)
        (refusal ErrorCode.terminal_session "session is terminal" false)
    (endpoint, created) ← join_endpoint_locked session spec
    joined ← gets (λ s. get_or session_id no_session s.sessions)
    lease ←
        issue_lease_locked joined endpoint spec.lease_ttl_ms spec.renew_after_ms spec.retry_after_ms
    greet created session_id endpoint
    after_hello ← gets (λ s. get_or session_id no_session s.sessions)
    pure (after_hello, endpoint, lease)

  abbrev pub session_of_code : String → Store String
  session_of_code join_code s =
      require (get join_code s.join_codes) (protocol invalid_join_code_error) s

  -- The end of `JoinByCode`: the session, and the events that the endpoint sees.
  abbrev pub joined_view :
      String → Endpoint → Lease → Store (Session × Endpoint × Lease × List Event)
  joined_view session_id endpoint lease s = (
    ok (
      get_or session_id no_session s.sessions,
      endpoint,
      lease,
      visible_events (get_or session_id [] s.events) endpoint 0 (pos 0),
    ),
    s,
  )

  -- `JoinByCode` takes the mutex three times: `first_gap` and `second_gap` are what other callers
  -- do to the state meanwhile.
  unfoldable pub join_by_code :
      (State → State)
      → (State → State)
      → String
      → EndpointSpec
      → Store (Session × Endpoint × Lease × List Event)
  join_by_code first_gap second_gap join_code spec = do
    session_id ← session_of_code join_code
    λ s. (ok tt, first_gap s)
    (session, endpoint, lease) ← join_session session_id spec
    λ s. (ok tt, second_gap s)
    joined_view session_id endpoint lease
