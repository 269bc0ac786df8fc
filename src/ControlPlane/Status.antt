-- ===== src/ControlPlane/Status.antt =====
-- internal/controlplane/session.go: DeriveStatus, the status that a session's state and
-- its latest event amount to, and Snapshot, what a session shows of itself.
pub mod Reported
use remote_dev_skillkit.Prelude.{
  ℕ, String, Bool, true, false, not, ◌&&◌, ◌||◌, Option, none, some, List, [], ◌∷◌, ℤ, pos, get,
  ◌==◌, ◌!=◌, string_eq, any, if◌then◌else◌, ◌≡◌, ◌↔◌, ◌⊎◌, arith, Bool-cases, inl, inr, refl,
}
use remote_dev_skillkit.ControlPlane.Protocol.{
  SessionStatus, EndpointState, EventType, Transport, DerivedStatus, Value, Payload, flag, whole,
  opaque, transport_eq, endpoint_state_eq, endpoint_online_state,
}
use remote_dev_skillkit.ControlPlane.Session.{
  Session, Endpoint, Event, Task, ArtifactRef, GatewayCandidate, Limits,
}
use remote_dev_skillkit.ControlPlane.World.{World}
use remote_dev_skillkit.ControlPlane.Append.{string_payload}

pub record StatusSummary : Type 0 where
  pub status : DerivedStatus
  pub user_summary : String
  pub agent_next_action : String
  pub selected_gateway_url : String
  pub transport : Transport
  pub last_seq : ℕ
  pub snapshot_seq : ℕ
  pub latest_event : Event
  pub recoverable : Bool
  pub retry_after_ms : ℤ
  pub online : Bool

pub record SessionSnapshot : Type 0 where
  pub session : Session
  pub endpoints : List Endpoint
  pub tasks : List Task
  pub artifacts : List ArtifactRef
  pub status : StatusSummary
  pub gateway_candidates : List GatewayCandidate
  pub selected_gateway_url : String
  pub limits : Limits
  pub reconnect_grace_ms : ℤ
  pub retry_after_ms : ℤ

-- `Transport(text)`
unfoldable pub transport_of : String → Transport
transport_of s =
    if s == ""
    then Transport.unset
    else if s == "wss"
    then Transport.wss
    else if s == "sse"
    then Transport.sse
    else if s == "long-poll"
    then Transport.long_poll
    else if s == "poll"
    then Transport.poll
    else if s == "mesh"
    then Transport.mesh
    else if s == "provider"
    then Transport.provider
    else if s == "local"
    then Transport.local_link
    else Transport.other s

bool_of : Option Value → Bool
bool_of (some (flag b)) = b
bool_of _ = false

unfoldable pub bool_payload : Payload → String → Bool
unfolding bool_of
bool_payload none key = false
bool_payload (some m) key = bool_of (get key m)

unfoldable pub endpoint_online : List Endpoint → Bool
endpoint_online es = any (λ e. endpoint_online_state e.state) es

unfoldable pub endpoint_busy : List Endpoint → Bool
endpoint_busy es = any (λ e. e.state == EndpointState.busy) es

-- `firstEndpointTransport`, or the unset one.
unfoldable pub first_endpoint_transport : List Endpoint → Transport
first_endpoint_transport [] = Transport.unset
first_endpoint_transport (e ∷ es) =
    let rest = first_endpoint_transport es in
    if e.transport != Transport.unset then e.transport else rest

module _ ⦃w : World⦄ where
  int_or : ℤ → Option ℤ → ℤ
  int_or fallback none = fallback
  int_or fallback (some n) = n

  int_of : Option Value → ℤ → ℤ
  unfolding int_or
  int_of (some (whole n)) fallback = n
  int_of (some (opaque n)) fallback = int_or fallback (w.int_of_float n)
  int_of _ fallback = fallback

  unfoldable pub int_payload : Payload → String → ℤ → ℤ
  unfolding int_of
  int_payload none key fallback = fallback
  int_payload (some m) key fallback = int_of (get key m) fallback

  abbrev pub waiting : Session → StatusSummary
  waiting s = record {
    status = DerivedStatus.waiting;
    user_summary = "Waiting for the target to connect.";
    agent_next_action = "wait for the next session event";
    selected_gateway_url = s.selected_gateway_url;
    transport = first_endpoint_transport s.endpoints;
    last_seq = s.last_seq;
    snapshot_seq = s.snapshot_seq;
    latest_event = s.latest_event;
    recoverable = false;
    retry_after_ms = s.retry_after_ms;
    online = false;
  }

  abbrev pub by_online : Bool → StatusSummary → StatusSummary
  by_online false t = t
  by_online true t = record t {
    status = DerivedStatus.online;
    online = true;
    user_summary = "The target is online.";
    agent_next_action = "send tasks or continue watching session events";
  }

  abbrev pub by_busy : Bool → StatusSummary → StatusSummary
  by_busy false t = t
  by_busy true t = record t {
    status = DerivedStatus.busy;
    online = true;
    user_summary = "The target is busy running a task.";
    agent_next_action = "wait for the task result event";
  }

  abbrev closed_summary : StatusSummary → StatusSummary
  closed_summary t = record t {
    status = DerivedStatus.closed;
    user_summary = "The session is closed.";
    agent_next_action = "do not send new tasks";
  }

  -- `switch s.Status`
  unfoldable pub by_session : SessionStatus → StatusSummary → StatusSummary
  by_session SessionStatus.joining t = record t {
    status = DerivedStatus.joining;
    user_summary = "The target is joining the session.";
  }
  by_session SessionStatus.reconnecting t = record t {
    status = DerivedStatus.reconnecting;
    recoverable = true;
    user_summary = "The target is reconnecting.";
    agent_next_action =
        "wait for the endpoint to resume before asking the user to rerun the command";
  }
  by_session SessionStatus.recovered t = record t {
    status = DerivedStatus.recovered;
    online = true;
    recoverable = true;
    user_summary = "The target recovered its connection.";
  }
  by_session SessionStatus.failed t = record t {
    status = DerivedStatus.failed;
    user_summary = "The session failed.";
    agent_next_action = "surface the structured error and recovery action";
  }
  by_session SessionStatus.closed t = closed_summary t
  by_session SessionStatus.revoked t = closed_summary t
  by_session _ t = t

  unfoldable pub by_helper : String → StatusSummary → StatusSummary
  by_helper phase t =
      if phase == "downloading"
      then record t {
        status = DerivedStatus.helper_downloading;
        user_summary = "The helper is downloading.";
        agent_next_action = "wait for helper verification or ready event";
      }
      else if phase == "verifying"
      then record t {
        status = DerivedStatus.helper_verifying;
        user_summary = "The helper is verifying its checksum.";
        agent_next_action = "wait for helper ready event";
      }
      else if phase == "ready"
      then record t {
        status = DerivedStatus.online;
        online = true;
        user_summary = "The helper is ready.";
        agent_next_action = "continue with session tasks";
      }
      else t

  unfoldable pub by_gateway : Payload → StatusSummary → StatusSummary
  by_gateway p t =
      if string_payload p "action" == "failed" || string_payload p "action" == "trying"
      then record t {
        status = DerivedStatus.gateway_switching;
        recoverable = true;
        user_summary = "The connection is switching gateways.";
        agent_next_action = "wait while rdev tries the next gateway candidate";
        retry_after_ms = int_payload p "retry_after_ms" t.retry_after_ms;
      }
      else t

  -- The transport of an event, where it names one, and else the one selected where none was known.
  abbrev named_transport : Payload → Transport → Transport
  named_transport p known =
      if transport_of (string_payload p "transport") != Transport.unset
      then transport_of (string_payload p "transport")
      else if known == Transport.unset
      then transport_of (string_payload p "selected")
      else known

  abbrev pub is_degraded : Payload → Bool
  is_degraded p = bool_payload p "degraded" || string_payload p "action" == "wss-failed"

  unfoldable pub by_transport : Payload → StatusSummary → StatusSummary
  by_transport p t =
      if is_degraded p
      then record t {
        status = DerivedStatus.transport_degraded;
        online = true;
        recoverable = true;
        user_summary = "The target is online through a fallback transport.";
        agent_next_action = "continue normally; rdev will keep the fallback transport alive";
        transport = named_transport p t.transport;
      }
      else t

  -- `switch s.LatestEvent.Type`
  unfoldable pub by_event : EventType → Payload → StatusSummary → StatusSummary
  by_event EventType.helper p t = by_helper (string_payload p "phase") t
  by_event EventType.gateway p t = by_gateway p t
  by_event EventType.transport p t = by_transport p t
  by_event EventType.task p t = record t {
    status = DerivedStatus.busy;
    online = true;
    user_summary = "A task is active.";
    agent_next_action = "wait for task.result";
  }
  by_event EventType.close p t = closed_summary t
  by_event _ p t = t

  unfoldable pub derive_status : Session → StatusSummary
  derive_status s = by_event s.latest_event.type s.latest_event.payload (
      by_session s.status
        (by_busy (endpoint_busy s.endpoints) (by_online (endpoint_online s.endpoints) (waiting s))))

  abbrev pub session_snapshot : Session → SessionSnapshot
  session_snapshot s = record {
    session = record s { notify_secret = "" };
    endpoints = s.endpoints;
    tasks = s.tasks;
    artifacts = s.artifacts;
    status = derive_status s;
    gateway_candidates = s.gateway_candidates;
    selected_gateway_url = s.selected_gateway_url;
    limits = s.limits;
    reconnect_grace_ms = s.reconnect_grace_ms;
    retry_after_ms = s.retry_after_ms;
  }
