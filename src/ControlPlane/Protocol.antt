-- ===== src/ControlPlane/Protocol.antt =====
-- internal/controlplane/session.go, store.go: the protocol's words and its structured errors.
-- The Go types are strings: `unset` is the empty text, `other` any text that has no constant.
use remote_dev_skillkit.Prelude.{
  ℕ, String, Bool, true, false, Option, none, List, Dict, Eq, String_discrete, ℤ, pos,
}

pub data SessionStatus : Type 0 where
  created joining online busy waiting degraded reconnecting recovered closed failed revoked :
      SessionStatus
  other : String → SessionStatus

pub data EndpointRole : Type 0 where
  unset target agent operator gateway worker workspace adapter : EndpointRole
  other : String → EndpointRole

pub data EndpointState : Type 0 where
  unset joining online busy degraded reconnecting offline closed revoked : EndpointState
  other : String → EndpointState

pub data Transport : Type 0 where
  unset wss sse long_poll poll mesh provider local_link : Transport
  other : String → Transport

pub data EventType : Type 0 where
  unset hello helper gateway transport status task task_progress task_result artifact interrupt
        close :
      EventType
  other : String → EventType

pub data TaskStatus : Type 0 where
  queued offered running paused succeeded failed canceled : TaskStatus
  other : String → TaskStatus

pub data DerivedStatus : Type 0 where
  joining helper_downloading helper_verifying gateway_switching online busy transport_degraded
        reconnecting recovered waiting failed closed :
      DerivedStatus

pub data ErrorCode : Type 0 where
  invalid_join_code join_policy_rejected unauthorized_endpoint lease_expired stale_replica
        snapshot_required payload_too_large too_many_events artifact_offset_mismatch
        checksum_mismatch invalid_task task_not_found task_already_terminal session_closed
        authority_mismatch idempotency_conflict capability_unavailable endpoint_not_found
        stale_cursor terminal_session :
      ErrorCode

unfoldable pub EndpointRole_discrete : Discrete EndpointRole
EndpointRole_discrete = hlevel String_discrete

unfoldable pub EventType_discrete : Discrete EventType
EventType_discrete = hlevel String_discrete

unfoldable pub TaskStatus_discrete : Discrete TaskStatus
TaskStatus_discrete = hlevel String_discrete

unfoldable pub EndpointState_discrete : Discrete EndpointState
EndpointState_discrete = hlevel String_discrete

unfoldable pub SessionStatus_discrete : Discrete SessionStatus
SessionStatus_discrete = hlevel String_discrete

unfoldable pub Transport_discrete : Discrete Transport
Transport_discrete = hlevel String_discrete

instance abbrev pub endpoint_role_eq : Eq EndpointRole
endpoint_role_eq = record { dec = EndpointRole_discrete }

instance abbrev pub event_type_eq : Eq EventType
event_type_eq = record { dec = EventType_discrete }

instance abbrev pub task_status_eq : Eq TaskStatus
task_status_eq = record { dec = TaskStatus_discrete }

instance abbrev pub endpoint_state_eq : Eq EndpointState
endpoint_state_eq = record { dec = EndpointState_discrete }

instance abbrev pub session_status_eq : Eq SessionStatus
session_status_eq = record { dec = SessionStatus_discrete }

instance abbrev pub transport_eq : Eq Transport
transport_eq = record { dec = Transport_discrete }

-- `sessionTerminal`
unfoldable pub session_terminal : SessionStatus → Bool
session_terminal SessionStatus.closed = true
session_terminal SessionStatus.failed = true
session_terminal SessionStatus.revoked = true
session_terminal _ = false

-- `endpointOnlineState`
unfoldable pub endpoint_online_state : EndpointState → Bool
endpoint_online_state EndpointState.online = true
endpoint_online_state EndpointState.busy = true
endpoint_online_state EndpointState.degraded = true
endpoint_online_state _ = false

-- A value of a Go `map[string]any`. `opaque n` is a value of any other type: a number with a
-- fraction, a nested map, ...
pub data Value : Type 0 where
  nil : Value
  text : String → Value
  texts : List String → Value
  flag : Bool → Value
  whole : ℤ → Value
  opaque : ℕ → Value

-- `none` is Go's nil map.
abbrev pub Payload : Type 0
Payload = Option (Dict String Value)

pub record ProtocolError : Type 0 where
  pub schema_version : String
  pub code : ErrorCode
  pub message : String
  pub recoverable : Bool
  pub retry_after_ms : ℤ
  pub user_summary : String
  pub agent_next_action : String
  pub details : Payload

-- What a Go `error` can be here: a `ProtocolError`, a failed read of randomness, a value that JSON
-- cannot encode, or a plain message.
pub data Failure : Type 0 where
  protocol : ProtocolError → Failure
  no_entropy not_encodable : Failure
  plain : String → Failure

unfoldable pub default_user_summary : ErrorCode → String → String
default_user_summary ErrorCode.terminal_session m =
    "This session has ended; ask the operator (or the Agent) for a fresh session."
default_user_summary _ m = m

unfoldable pub default_agent_next_action : ErrorCode → String
default_agent_next_action ErrorCode.snapshot_required =
    "fetch the session snapshot and resume from snapshot_seq"
default_agent_next_action ErrorCode.idempotency_conflict =
    "reuse the original payload for this idempotency key or choose a new key"
default_agent_next_action ErrorCode.capability_unavailable =
    "wait for a matching endpoint or choose a different adapter"
default_agent_next_action ErrorCode.unauthorized_endpoint = "resume or renew the endpoint lease"
default_agent_next_action ErrorCode.lease_expired = "resume or renew the endpoint lease"
default_agent_next_action ErrorCode.terminal_session = "do not send new work to this session"
default_agent_next_action ErrorCode.session_closed = "do not send new work to this session"
default_agent_next_action _ = "inspect the structured error and retry only if recoverable"

-- `MemoryStore.err`
unfoldable pub protocol_error : ErrorCode → String → Bool → ProtocolError
unfolding default_user_summary default_agent_next_action
protocol_error code message recoverable = record {
  schema_version = "rdev.error.v1";
  code = code;
  message = message;
  recoverable = recoverable;
  retry_after_ms = pos 500;
  user_summary = default_user_summary code message;
  agent_next_action = default_agent_next_action code;
  details = none;
}

unfoldable pub invalid_join_code_error : ProtocolError
invalid_join_code_error = record {
  schema_version = "rdev.error.v1";
  code = ErrorCode.invalid_join_code;
  message = "join code is invalid";
  recoverable = false;
  retry_after_ms = pos 0;
  user_summary = "The session join code is invalid or no longer active.";
  agent_next_action = "create a fresh session and use its generated join code";
  details = none;
}
