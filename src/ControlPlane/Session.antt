-- ===== src/ControlPlane/Session.antt =====
-- internal/controlplane/session.go, store.go, host.go: the records of the control plane.
-- A time is the number of nanoseconds since Go's zero time; UTC() changes no instant. Go's deep
-- copies (clone, cloneEndpoints, cloneMap, ...) are the values themselves here.
use remote_dev_skillkit.Prelude.{ℕ, String, Bool, Option, List, Dict, Eq, String_discrete, ℤ}
use remote_dev_skillkit.ControlPlane.Protocol.{
  SessionStatus, EndpointRole, EndpointState, Transport, EventType, TaskStatus, Payload,
}

abbrev pub Time : Type 0
Time = ℤ

pub record GatewayCandidate : Type 0 where
  pub authority_id : String
  pub url : String
  pub priority : ℤ
  pub kind : String

pub record Limits : Type 0 where
  pub event_payload_bytes : ℤ
  pub event_batch : ℤ
  pub artifact_chunk_bytes : ℤ
  pub inline_task_summary_bytes : ℤ
  pub terminal_grace_millis : ℤ
  pub idempotency_retention_seq : ℤ

pub record SessionSpec : Type 0 where
  pub profile : String
  pub reason : String
  pub capabilities : List String
  pub join_policy : String
  pub gateway_candidates : List GatewayCandidate
  pub selected_gateway_url : String
  pub authority_id : String
  pub limits : Limits
  pub reconnect_grace_ms : ℤ
  pub retry_after_ms : ℤ
  pub snapshot_seq : ℕ
  pub expires_at : Time
  pub notify_url : String

pub record Endpoint : Type 0 where
  pub schema_version : String
  pub id : String
  pub session_id : String
  pub role : EndpointRole
  pub name : String
  pub platform : String
  pub identity_fingerprint : String
  pub capabilities : List String
  pub state : EndpointState
  pub transport : Transport
  pub received_seq : ℕ
  pub processed_seq : ℕ
  pub last_seen_at : Time
  pub host_version : String
  pub host_commit : String

pub record Event : Type 0 where
  pub schema_version : String
  pub id : String
  pub session_id : String
  pub seq : ℕ
  pub type : EventType
  pub from_endpoint_id : String
  pub to_endpoint_id : String
  pub task_id : String
  pub idempotency_key : String
  pub payload : Payload
  pub created_at : Time

pub record TargetSelector : Type 0 where
  pub role : EndpointRole
  pub platform : String
  pub capabilities : List String

pub record Task : Type 0 where
  pub schema_version : String
  pub id : String
  pub session_id : String
  pub target_endpoint_id : String
  pub target_selector : TargetSelector
  pub adapter : String
  pub intent : String
  pub capabilities : List String
  pub payload : Payload
  pub limits : Payload
  pub attempt_id : String
  pub idempotency_key : String
  pub status : TaskStatus
  pub created_at : Time
  pub started_at : Option Time
  pub ended_at : Option Time

pub record ArtifactRef : Type 0 where
  pub schema_version : String
  pub id : String
  pub session_id : String
  pub task_id : String
  pub kind : String
  pub name : String
  pub size_bytes : ℤ
  pub sha256 : String
  pub content_type : String
  pub upload_offset : ℤ
  pub complete : Bool

pub record Session : Type 0 where
  pub schema_version : String
  pub id : String
  pub join_code : String
  pub profile : String
  pub status : SessionStatus
  pub reason : String
  pub capabilities : List String
  pub join_policy : String
  pub gateway_candidates : List GatewayCandidate
  pub selected_gateway_url : String
  pub endpoints : List Endpoint
  pub tasks : List Task
  pub artifacts : List ArtifactRef
  pub last_seq : ℕ
  pub snapshot_seq : ℕ
  pub authority_id : String
  pub limits : Limits
  pub reconnect_grace_ms : ℤ
  pub retry_after_ms : ℤ
  pub notify_url : String
  pub notify_secret : String
  pub latest_event : Event
  pub created_at : Time
  pub updated_at : Time
  pub expires_at : Time

pub record LeaseSpec : Type 0 where
  pub id : String
  pub session_id : String
  pub endpoint_id : String
  pub generation : ℤ
  pub secret : String
  pub transport : Transport
  pub selected_gateway_url : String
  pub lease_ttl_ms : ℤ
  pub renew_after_ms : ℤ
  pub retry_after_ms : ℤ

pub record Lease : Type 0 where
  pub schema_version : String
  pub id : String
  pub session_id : String
  pub endpoint_id : String
  pub generation : ℤ
  pub secret : String
  pub transport : Transport
  pub selected_gateway_url : String
  pub renew_after : Time
  pub expires_at : Time
  pub server_time : Time
  pub lease_ttl_ms : ℤ
  pub renew_after_ms : ℤ
  pub retry_after_ms : ℤ

pub record EndpointSpec : Type 0 where
  pub endpoint_id : String
  pub role : EndpointRole
  pub name : String
  pub platform : String
  pub identity_fingerprint : String
  pub capabilities : List String
  pub transport : Transport
  pub lease_ttl_ms : ℤ
  pub renew_after_ms : ℤ
  pub retry_after_ms : ℤ
  pub previous_lease_secret : String
  pub host_version : String
  pub host_commit : String

pub record EventCursor : Type 0 where
  pub endpoint_id : String
  pub lease_secret : String
  pub after_seq : ℕ
  pub received_seq : ℕ
  pub processed_seq : ℕ
  pub visible_role : EndpointRole
  pub endpoint_state : EndpointState

pub record EventReplayState : Type 0 where
  pub snapshot_required : Bool
  pub snapshot_seq : ℕ
  pub last_seq : ℕ
  pub retry_after_ms : ℤ
  pub reconnecting : Bool

pub record TaskSpec : Type 0 where
  pub target_endpoint_id : String
  pub target_selector : TargetSelector
  pub adapter : String
  pub intent : String
  pub capabilities : List String
  pub payload : Payload
  pub limits : Payload
  pub attempt_id : String
  pub idempotency_key : String

pub record Host : Type 0 where
  pub schema_version : String
  pub host_id : String
  pub identity_fingerprint : String
  pub display_name : String
  pub platform : String
  pub capabilities : List String
  pub state : EndpointState
  pub first_seen_at : Time
  pub last_seen_at : Time
  pub last_session_id : String
  pub last_endpoint_id : String

-- The Go struct `idempotencyKey`.
pub record IdempotencyKey : Type 0 where
  pub session_id : String
  pub from_endpoint_id : String
  pub key : String

unfoldable pub IdempotencyKey_discrete : Discrete IdempotencyKey
IdempotencyKey_discrete = hlevel String_discrete

instance abbrev pub idempotency_key_eq : Eq IdempotencyKey
idempotency_key_eq = record { dec = IdempotencyKey_discrete }

-- The Go struct `idempotencyRecord`.
pub record IdempotencyRecord : Type 0 where
  pub fingerprint : String
  pub event : Event

-- The Go struct `taskRecord`.
pub record TaskRecord : Type 0 where
  pub task_id : String
  pub event_id : String

-- The Go struct `leaseRecord`; its missing map is the empty one.
pub record LeaseRecord : Type 0 where
  pub current : Lease
  pub previous_secrets : Dict String Time
