-- ===== src/ControlPlane/Reads.antt =====
-- internal/controlplane/store.go: how targets and agents read a session.
use remote_dev_skillkit.Prelude.{
  ℕ, String, Bool, true, false, not, ◌||◌, List, [], if◌then◌else◌, ◌==◌, string_eq, get_or, ltb,
  find?, ℤ, pos,
}
use remote_dev_skillkit.Prelude.Int.{ltb_ℤ}
use remote_dev_skillkit.Exec.{ok, pure, fail_if, require, ◌>>=◌, ◌>>◌}
use remote_dev_skillkit.ControlPlane.Protocol.{
  SessionStatus, EndpointRole, EndpointState, ErrorCode, Failure, Transport, endpoint_state_eq,
  session_terminal,
}
use remote_dev_skillkit.ControlPlane.Session.{
  Time, Session, Event, Endpoint, EventCursor, EventReplayState, Lease,
}
use remote_dev_skillkit.ControlPlane.World.{World}
use remote_dev_skillkit.ControlPlane.Store.{
  Store, refusal, find_session, no_session, now, session_expired,
}
use remote_dev_skillkit.ControlPlane.Leases.{
  issue_lease_locked, authorize_lease_locked, no_lease_record,
}
use remote_dev_skillkit.ControlPlane.Lifecycle.{expire_session_locked, refuse_expired}
use remote_dev_skillkit.ControlPlane.Endpoints.{with_endpoint}
use remote_dev_skillkit.ControlPlane.Events.{visible_events}
use remote_dev_skillkit.ControlPlane.Work.{put_session}

abbrev pub has_endpoint_id : String → Endpoint → Bool
has_endpoint_id id e = e.id == id

abbrev pub endpoint_not_found : Failure
endpoint_not_found = refusal ErrorCode.endpoint_not_found "endpoint not found" true

abbrev pub snapshot_required : Failure
snapshot_required =
    refusal ErrorCode.snapshot_required "event cursor is older than compacted snapshot" true

abbrev pub max_seq : ℕ → ℕ → ℕ
max_seq new old = if ltb old new then new else old

-- The endpoint after the cursor's report.
abbrev pub reported : Endpoint → EventCursor → Bool → Time → Endpoint
reported e cursor reconnecting t = record e {
  received_seq = max_seq cursor.received_seq e.received_seq;
  processed_seq = max_seq cursor.processed_seq e.processed_seq;
  state =
      if reconnecting
      then EndpointState.online
      else if cursor.endpoint_state == EndpointState.unset
      then e.state
      else cursor.endpoint_state;
  last_seen_at = t;
}

abbrev pub recovered : Session → Bool → Session
recovered session true = record session { status = SessionStatus.recovered }
recovered session false = session

-- A limit that is not positive, or above the batch limit of the session, is the batch limit.
abbrev pub page_limit : ℤ → Session → ℤ
page_limit limit session =
    if not (ltb_ℤ (pos 0) limit) || ltb_ℤ session.limits.event_batch limit
    then session.limits.event_batch
    else limit

abbrev pub replay_state : Session → Bool → ℕ → EventReplayState
replay_state session reconnecting last_seq = record {
  snapshot_required = false;
  snapshot_seq = session.snapshot_seq;
  last_seq = last_seq;
  retry_after_ms = session.retry_after_ms;
  reconnecting = reconnecting;
}

module _ ⦃w : World⦄ where
  -- `MemoryStore.Session`
  unfoldable pub read_session : String → Store Session
  read_session session_id = do expire_session_locked session_id; find_session session_id

  -- The checks that `EventsAfter` and `PeekEventsAfter` share once the session has not run out: the
  -- endpoint, and whether it is reconnecting.
  unfoldable pub check_cursor : Session → EventCursor → Store (Endpoint × Bool)
  check_cursor session cursor = do
    fail_if (session_terminal session.status)
        (refusal ErrorCode.terminal_session "session is terminal" false)
    fail_if (ltb cursor.after_seq session.snapshot_seq) snapshot_required
    endpoint ←
        require (find? (has_endpoint_id cursor.endpoint_id) session.endpoints) endpoint_not_found
    reconnecting ← authorize_lease_locked session endpoint.id cursor.lease_secret
    pure (endpoint, reconnecting)

  -- `EventsAfter`; the replay state that it returns beside an error is left out.
  unfoldable pub events_after :
      String → EventCursor → ℤ → Store (List Event × Lease × EventReplayState)
  events_after session_id cursor limit = do
    session ← find_session session_id
    expired ← session_expired session
    refuse_expired expired session_id
    (endpoint, reconnecting) ← check_cursor session cursor
    seen ← now
    updated ← now
    let after = reported endpoint cursor reconnecting seen
    let stored = with_endpoint (recovered session reconnecting) after updated
    put_session session_id stored
    lease ← issue_lease_locked stored after (pos 0) (pos 0) (pos 0)
    λ s. (
      ok (
        visible_events (get_or session_id [] s.events) after cursor.after_seq
            (page_limit limit stored),
        lease,
        replay_state session reconnecting (get_or session_id no_session s.sessions).last_seq,
      ),
      s,
    )

  -- `PeekEventsAfter`: the same without a write.
  unfoldable pub peek_events_after :
      String → EventCursor → ℤ → Store (List Event × Lease × EventReplayState)
  peek_events_after session_id cursor limit = do
    session ← find_session session_id
    expired ← session_expired session
    fail_if expired (refusal ErrorCode.terminal_session "session is expired" false)
    (endpoint, reconnecting) ← check_cursor session cursor
    λ s. (
      ok (
        visible_events (get_or session_id [] s.events) endpoint cursor.after_seq
            (page_limit limit session),
        (get_or endpoint.id no_lease_record s.leases).current,
        replay_state session reconnecting session.last_seq,
      ),
      s,
    )

  abbrev pub agent_reader : Endpoint
  agent_reader = record {
    schema_version = "";
    id = "";
    session_id = "";
    role = EndpointRole.agent;
    name = "";
    platform = "";
    identity_fingerprint = "";
    capabilities = [];
    state = EndpointState.unset;
    transport = Transport.unset;
    received_seq = 0;
    processed_seq = 0;
    last_seen_at = pos 0;
    host_version = "";
    host_commit = "";
  }

  -- `EventsAfterForAgent`
  unfoldable pub events_after_for_agent : String → ℕ → ℤ → Store (List Event × EventReplayState)
  events_after_for_agent session_id after_seq limit = do
    expire_session_locked session_id
    session ← find_session session_id
    fail_if (ltb after_seq session.snapshot_seq) snapshot_required
    λ s. (
      ok (
        visible_events (get_or session_id [] s.events) agent_reader after_seq
            (page_limit limit session),
        replay_state session false session.last_seq,
      ),
      s,
    )

  -- `ValidateLease`
  unfoldable pub validate_lease : String → String → String → Store (Unit {0})
  validate_lease session_id endpoint_id secret = do
    session ← find_session session_id
    expired ← session_expired session
    refuse_expired expired session_id
    fail_if (session_terminal session.status)
        (refusal ErrorCode.terminal_session "session is terminal" false)
    require (find? (has_endpoint_id endpoint_id) session.endpoints) endpoint_not_found
    authorize_lease_locked session endpoint_id secret
    pure tt
