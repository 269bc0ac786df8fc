-- ===== src/Tests/Data.antt =====
-- A clock, randomness and a session with one target and one finished task, to run the model on.
use remote_dev_skillkit.Prelude.{
  String, true, false, ◌≡◌, ◌≢◌, ◌==◌, string_eq, arith, none, some, [], ◌∷◌, pos,
}
use remote_dev_skillkit.ControlPlane.Protocol.{
  SessionStatus, EndpointRole, EndpointState, EventType, TaskStatus, Transport,
}
use remote_dev_skillkit.ControlPlane.Session.{
  Session, SessionSpec, Endpoint, EndpointSpec, Event, Task, TaskSpec, Limits, Lease, LeaseRecord,
  ArtifactRef,
}
use remote_dev_skillkit.ControlPlane.World.{World}
use remote_dev_skillkit.ControlPlane.Store.{
  MemoryStore, State, new_memory_store, no_session, no_event,
}

-- The clock stands still, and every draw of randomness is the same.
instance abbrev pub test_world : World
test_world = record {
  clock = λ n. pos 1_000;
  entropy = λ n. some 7;
  marshal = λ m. some "{}";
  marshal_fingerprint = λ f. some "print";
  quote = λ s. s;
  sprint = λ v. "value";
  int_of_float = λ n. none;
}

abbrev pub limits : Limits
limits = record {
  event_payload_bytes = pos 1_000;
  event_batch = pos 100;
  artifact_chunk_bytes = pos 1_000;
  inline_task_summary_bytes = pos 1_000;
  terminal_grace_millis = pos 1_000;
  idempotency_retention_seq = pos 1_000;
}

abbrev pub spec : SessionSpec
spec = record {
  profile = "";
  reason = "test";
  capabilities = "shell" ∷ [];
  join_policy = "";
  gateway_candidates = [];
  selected_gateway_url = "";
  authority_id = "";
  limits = limits;
  reconnect_grace_ms = pos 5_000;
  retry_after_ms = pos 1_000;
  snapshot_seq = 0;
  expires_at = pos 0;
  notify_url = "";
}

abbrev pub target : Endpoint
target = record {
  schema_version = "rdev.endpoint.v1";
  id = "end";
  session_id = "ses";
  role = EndpointRole.target;
  name = "host";
  platform = "linux";
  identity_fingerprint = "f";
  capabilities = "shell" ∷ [];
  state = EndpointState.online;
  transport = Transport.poll;
  received_seq = 0;
  processed_seq = 0;
  last_seen_at = pos 1_000;
  host_version = "";
  host_commit = "";
}

abbrev pub offered : Task
offered = record {
  schema_version = "rdev.task.v1";
  id = "task";
  session_id = "ses";
  target_endpoint_id = "end";
  target_selector = record { role = EndpointRole.unset; platform = ""; capabilities = [] };
  adapter = "shell";
  intent = "test";
  capabilities = "shell" ∷ [];
  payload = none;
  limits = none;
  attempt_id = "attempt";
  idempotency_key = "key";
  status = TaskStatus.offered;
  created_at = pos 1_000;
  started_at = none;
  ended_at = none;
}

abbrev pub finished : Task
finished = record offered {
  id = "old";
  status = TaskStatus.succeeded;
  started_at = some (pos 1_000);
  ended_at = some (pos 1_000);
}

abbrev pub task_spec : TaskSpec
task_spec = record {
  target_endpoint_id = "";
  target_selector = offered.target_selector;
  adapter = "shell";
  intent = "test";
  capabilities = "shell" ∷ [];
  payload = none;
  limits = none;
  attempt_id = "";
  idempotency_key = "key";
}

abbrev pub hello : Event
hello = record no_event {
  type = EventType.hello;
  from_endpoint_id = "agent";
  idempotency_key = "key";
}

abbrev pub first_event : Event
first_event = record hello { id = "evt"; session_id = "ses"; seq = 1 }

abbrev pub session : Session
session = record no_session {
  id = "ses";
  status = SessionStatus.online;
  capabilities = "shell" ∷ [];
  join_policy = "single-target";
  endpoints = target ∷ [];
  tasks = finished ∷ offered ∷ [];
  last_seq = 1;
  limits = limits;
  reconnect_grace_ms = pos 5_000;
}

abbrev pub store : MemoryStore
store = record new_memory_store {
  sessions = ("ses", session) ∷ [];
  join_codes = ("CODE", "ses") ∷ [];
  events = ("ses", first_event ∷ []) ∷ [];
}

abbrev pub at_start : MemoryStore → State
at_start m = record { store = m; reads = 0; draws = 0; notified = [] }

abbrev pub artifact : ArtifactRef
artifact = record {
  schema_version = "rdev.artifact-ref.v1";
  id = "art";
  session_id = "ses";
  task_id = "task";
  kind = "log";
  name = "out";
  size_bytes = pos 10;
  sha256 = "";
  content_type = "text/plain";
  upload_offset = pos 5;
  complete = true;
}

abbrev pub lease : Lease
lease = record {
  schema_version = "rdev.lease.v1";
  id = "lease";
  session_id = "ses";
  endpoint_id = "end";
  generation = pos 1;
  secret = "first";
  transport = Transport.poll;
  selected_gateway_url = "";
  renew_after = pos 2_000;
  expires_at = pos 6_000;
  server_time = pos 1_000;
  lease_ttl_ms = pos 1;
  renew_after_ms = pos 1;
  retry_after_ms = pos 1;
}

abbrev pub lease_record : LeaseRecord
lease_record = record { current = lease; previous_secrets = [] }

abbrev pub joiner : EndpointSpec
joiner = record {
  endpoint_id = "";
  role = EndpointRole.agent;
  name = "agent";
  platform = "linux";
  identity_fingerprint = "g";
  capabilities = [];
  transport = Transport.poll;
  lease_ttl_ms = pos 0;
  renew_after_ms = pos 0;
  retry_after_ms = pos 0;
  previous_lease_secret = "";
  host_version = "";
  host_commit = "";
}

abbrev pub Apart : String → String → Type 0
Apart a b = a ≢ b

pub unequal_by_test : (a b : String) → (a == b) ≡ false → Apart a b
unequal_by_test a b h = ground arith
