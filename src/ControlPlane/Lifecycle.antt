-- ===== src/ControlPlane/Lifecycle.antt =====
-- internal/controlplane/store.go: how a session is created, closed, revoked and runs out.
pub mod Ended
use Prim.Native.String.{◌++◌ as ◌<>◌}
use remote_dev_skillkit.Prelude.{
  String, Bool, true, false, ◌&&◌, ◌||◌, Option, none, some, List, [], ◌∷◌, map, is_some,
  if◌then◌else◌, ◌==◌, ◌!=◌, string_eq, Dict, get, get_or, put, delete, ℤ, pos,
}
use remote_dev_skillkit.Prelude.Int.{int_eq, ltb_ℤ}
use remote_dev_skillkit.Prelude.Text.{trim_space, trim_slashes}
use remote_dev_skillkit.Exec.{Result, ok, err, pure, fail, fail_if, ◌>>=◌, ◌>>◌}
use remote_dev_skillkit.ControlPlane.Protocol.{
  SessionStatus, EndpointState, EventType, TaskStatus, ErrorCode, text, session_status_eq,
  session_terminal,
}
use remote_dev_skillkit.ControlPlane.Session.{
  Time, Limits, GatewayCandidate, Session, SessionSpec, Endpoint, Event, Task, LeaseRecord,
}
use remote_dev_skillkit.ControlPlane.World.{World}
use remote_dev_skillkit.ControlPlane.Store.{
  MemoryStore, Store, refusal, put_store, find_session, no_session, no_event, now, new_id,
  new_join_code, session_expired,
}
use remote_dev_skillkit.ControlPlane.Append.{append_event_locked}
use remote_dev_skillkit.ControlPlane.Leases.{or_default}
use remote_dev_skillkit.ControlPlane.Tasks.{transition}
use remote_dev_skillkit.ControlPlane.Endpoints.{or_text}

-- `Limits.withDefaults`
unfoldable pub with_defaults : Limits → Limits
with_defaults l = record l {
  event_payload_bytes = or_default l.event_payload_bytes (pos 65536);
  event_batch = or_default l.event_batch (pos 100);
  artifact_chunk_bytes = or_default l.artifact_chunk_bytes (pos 1048576);
  inline_task_summary_bytes = or_default l.inline_task_summary_bytes (pos 32768);
}

abbrev url_of : GatewayCandidate → String
url_of c = trim_slashes (trim_space c.url)

-- The loop of `selectedGatewayURL`: the best so far is kept on a draw.
best_candidate : String → ℤ → List GatewayCandidate → String
best_candidate selected priority [] = selected
best_candidate selected priority (c ∷ cs) =
    let better = url_of c != "" && (selected == "" || ltb_ℤ c.priority priority) in
    best_candidate (if better then url_of c else selected) (if better then c.priority else priority)
      cs

unfoldable pub selected_gateway_url : String → List GatewayCandidate → String
unfolding best_candidate
selected_gateway_url explicit candidates =
    let url = trim_slashes (trim_space explicit) in
    if url != "" then url else best_candidate "" (pos 0) candidates

-- What `NewSession` makes of a spec under its id and its join code.
unfoldable pub session_of : SessionSpec → String → String → Time → Session
unfolding with_defaults selected_gateway_url
session_of spec id join_code t = record {
  schema_version = "rdev.session.v1";
  id = id;
  join_code = join_code;
  profile = or_text (trim_space spec.profile) "attended-temporary";
  status = SessionStatus.created;
  reason = spec.reason;
  capabilities = spec.capabilities;
  join_policy = or_text (trim_space spec.join_policy) "single-target";
  gateway_candidates = spec.gateway_candidates;
  selected_gateway_url = selected_gateway_url spec.selected_gateway_url spec.gateway_candidates;
  endpoints = [];
  tasks = [];
  artifacts = [];
  last_seq = 0;
  snapshot_seq = spec.snapshot_seq;
  authority_id = spec.authority_id;
  limits = with_defaults spec.limits;
  reconnect_grace_ms = spec.reconnect_grace_ms;
  retry_after_ms = spec.retry_after_ms;
  notify_url = trim_space spec.notify_url;
  notify_secret = "";
  latest_event = no_event;
  created_at = t;
  updated_at = t;
  expires_at = spec.expires_at;
}

-- A revoked endpoint, as `terminateSessionLocked` and `expireSessionLocked` leave it.
abbrev pub revoked_at : Time → Endpoint → Endpoint
revoked_at t e = record e { state = EndpointState.revoked; last_seen_at = t }

-- The leases without those of the endpoints.
unfoldable pub delete_leases : List Endpoint → Dict String LeaseRecord → Dict String LeaseRecord
delete_leases [] leases = leases
delete_leases (e ∷ es) leases = delete_leases es (delete e.id leases)

abbrev pub kept_or_moved : Task → Result Task → Task
kept_or_moved t (ok t') = t'
kept_or_moved t (err e) = t

-- An unfinished task is canceled when its session runs out.
unfoldable pub canceled_at : Time → Task → Task
unfolding transition
canceled_at now t = kept_or_moved t (transition t TaskStatus.canceled now)

-- What both ways to end a session write, `tasks` being the tasks that it ends with.
unfoldable pub end_session :
    String → SessionStatus → (List Task → List Task) → Time → MemoryStore → MemoryStore
unfolding delete_leases
end_session session_id status tasks t m =
    let session = get_or session_id no_session m.sessions in
    record m {
      sessions =
          put session_id
            (record session {
              endpoints = map (revoked_at t) session.endpoints;
              tasks = tasks session.tasks;
              status = status;
              updated_at = t;
            })
            m.sessions;
      leases = delete_leases session.endpoints m.leases;
      terminal_at = put session_id t m.terminal_at;
    }

abbrev close_event : String → Event
close_event idempotency_key = record no_event {
  type = EventType.close;
  from_endpoint_id = "gateway.lifecycle";
  idempotency_key = idempotency_key;
}

abbrev pub expiry_event : Event
expiry_event = record (close_event "") { payload = some (("reason", text "session expired") ∷ []) }

module _ ⦃w : World⦄ where
  -- `storeNewSessionLocked`
  unfoldable pub store_new_session_locked : Session → Store Session
  store_new_session_locked session s =
      (do
        fail_if (is_some (get session.id s.sessions))
            (refusal ErrorCode.idempotency_conflict "session id is already in use" false)
        fail_if (is_some (get session.join_code s.join_codes))
            (refusal ErrorCode.idempotency_conflict "join code is already in use" false)
        put_store (λ m. record m {
          sessions = put session.id session m.sessions;
          join_codes = put session.join_code session.id m.join_codes;
          events = put session.id [] m.events;
        })
        pure session)
        s

  -- `CreateSession`
  unfoldable pub create_session : SessionSpec → Store Session
  create_session spec = do
    t ← now
    id ← new_id "ses"
    join_code ← new_join_code
    store_new_session_locked (session_of spec id join_code t)

  -- `terminateSessionLocked`
  unfoldable pub terminate_session_locked :
      String → SessionStatus → String → Store (Session × Event)
  terminate_session_locked session_id status idempotency_key = do
    find_session session_id
    event ← append_event_locked session_id (close_event idempotency_key) true
    t ← now
    put_store (end_session session_id status (λ tasks. tasks) t)
    λ s. (ok (get_or session_id no_session s.sessions, event), s)

  -- `CloseSession`
  unfoldable pub close_session : String → Store (Session × Event)
  close_session session_id =
      terminate_session_locked session_id SessionStatus.closed ("close:" <> session_id)

  -- `RevokeSession`
  unfoldable pub revoke_session : String → Store (Session × Event)
  revoke_session session_id = do
    session ← find_session session_id
    if session.status == SessionStatus.revoked
        then pure (session, no_event)
        else terminate_session_locked session_id SessionStatus.revoked ("revoke:" <> session_id)

  -- `_, _ = s.appendEventLocked(...)`: an error of the append is dropped.
  unfoldable pub log_expiry : String → Store (Unit {0})
  log_expiry session_id s = (ok tt, (append_event_locked session_id expiry_event false s).1)

  -- What `expireSessionLocked` does to a session that has run out.
  unfoldable pub expire_now : String → Store (Unit {0})
  expire_now session_id = do
    t ← now
    log_expiry session_id
    put_store (end_session session_id SessionStatus.closed (map (canceled_at t)) t)

  abbrev pub expire_over : Option Session → String → Store (Unit {0})
  expire_over none session_id = pure tt
  expire_over (some session) session_id = if session_terminal session.status then pure tt else (do
    expired ← session_expired session
    if expired then expire_now session_id else pure tt)

  -- `expireSessionLocked`; no caller reads its result.
  unfoldable pub expire_session_locked : String → Store (Unit {0})
  expire_session_locked session_id s = expire_over (get session_id s.sessions) session_id s

  -- `if s.sessionExpired(session) { s.expireSessionLocked(id); return err }`
  unfoldable pub refuse_expired : Bool → String → Store (Unit {0})
  refuse_expired false session_id = pure tt
  refuse_expired true session_id = do
    expire_session_locked session_id
    fail (refusal ErrorCode.terminal_session "session is expired" false)
