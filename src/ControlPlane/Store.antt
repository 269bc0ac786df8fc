-- ===== src/ControlPlane/Store.antt =====
-- internal/controlplane/store.go: the state of `MemoryStore`, and the actions on it that every
-- method uses. The mutex makes each method one action.
use remote_dev_skillkit.Prelude.{
  ℕ, suc, String, Bool, false, not, Option, none, some, List, [], Dict, if◌then◌else◌, get,
  string_eq, pos, ◌≡◌, arith,
}
use remote_dev_skillkit.Prelude.Int.{int_eq}
use remote_dev_skillkit.Exec.{Result, Exec, ok, err, pure, require, ◌>>=◌}
use remote_dev_skillkit.ControlPlane.Protocol.{
  SessionStatus, EventType, ErrorCode, Failure, protocol, no_entropy, protocol_error,
}
use remote_dev_skillkit.ControlPlane.Session.{
  Time, Limits, Event, Session, Host, IdempotencyKey, IdempotencyRecord, TaskRecord, LeaseRecord,
}
use remote_dev_skillkit.ControlPlane.World.{World, is_zero, before, id_text, join_code_text}

-- The maps of the Go struct. `has_hook` says whether `onEvent` is set.
pub record MemoryStore : Type 0 where
  pub sessions : Dict String Session
  pub join_codes : Dict String String
  pub events : Dict String (List Event)
  pub idempotency : Dict IdempotencyKey IdempotencyRecord
  pub task_idempotency : Dict String TaskRecord
  pub cancel_idempotency : Dict String TaskRecord
  pub result_idempotency : Dict String TaskRecord
  pub leases : Dict String LeaseRecord
  pub terminal_at : Dict String Time
  pub hosts : Dict String Host
  pub has_hook : Bool

-- A call of `onEvent`.
pub record Notification : Type 0 where
  pub session_id : String
  pub event : Event
  pub notify_url : String

-- The store, how often the clock and the randomness were read, and the calls of the hook so far.
pub record State : Type 0 where
  pub store : MemoryStore
  pub open store use *
  pub reads : ℕ
  pub draws : ℕ
  pub notified : List Notification

-- `NewMemoryStore`
abbrev pub new_memory_store : MemoryStore
new_memory_store = record {
  sessions = [];
  join_codes = [];
  events = [];
  idempotency = [];
  task_idempotency = [];
  cancel_idempotency = [];
  result_idempotency = [];
  leases = [];
  terminal_at = [];
  hosts = [];
  has_hook = false;
}

abbrev pub Store : Type 0 → Type 0
Store A = Exec State A

-- `s.err(code, message, recoverable)` as an error value.
abbrev pub refusal : ErrorCode → String → Bool → Failure
refusal code message recoverable = protocol (protocol_error code message recoverable)

abbrev pub session_not_found : Failure
session_not_found = refusal ErrorCode.invalid_join_code "session not found" false

abbrev pub update_store : (MemoryStore → MemoryStore) → State → State
update_store f s = record s { store = f s.store }

unfoldable pub put_store : (MemoryStore → MemoryStore) → Store (Unit {0})
put_store f s = (ok tt, update_store f s)

-- The lookup `s.sessions[sessionID]` with its error.
abbrev pub find_session : String → Store Session
find_session session_id s = require (get session_id s.sessions) session_not_found s

-- The zero values of `Event` and `Session`.
abbrev pub no_event : Event
no_event = record {
  schema_version = "";
  id = "";
  session_id = "";
  seq = 0;
  type = EventType.unset;
  from_endpoint_id = "";
  to_endpoint_id = "";
  task_id = "";
  idempotency_key = "";
  payload = none;
  created_at = pos 0;
}

abbrev no_limits : Limits
no_limits = record {
  event_payload_bytes = pos 0;
  event_batch = pos 0;
  artifact_chunk_bytes = pos 0;
  inline_task_summary_bytes = pos 0;
  terminal_grace_millis = pos 0;
  idempotency_retention_seq = pos 0;
}

abbrev pub no_session : Session
no_session = record {
  schema_version = "";
  id = "";
  join_code = "";
  profile = "";
  status = SessionStatus.other "";
  reason = "";
  capabilities = [];
  join_policy = "";
  gateway_candidates = [];
  selected_gateway_url = "";
  endpoints = [];
  tasks = [];
  artifacts = [];
  last_seq = 0;
  snapshot_seq = 0;
  authority_id = "";
  limits = no_limits;
  reconnect_grace_ms = pos 0;
  retry_after_ms = pos 0;
  notify_url = "";
  notify_secret = "";
  latest_event = no_event;
  created_at = pos 0;
  updated_at = pos 0;
  expires_at = pos 0;
}

abbrev pub id_result : String → Option ℕ → Result String
id_result prefix none = err no_entropy
id_result prefix (some raw) = ok (id_text prefix raw)

abbrev pub join_code_result : Option ℕ → Result String
join_code_result none = err no_entropy
join_code_result (some raw) = ok (join_code_text raw)

abbrev pub drawn_or_empty : String → Option ℕ → String
drawn_or_empty prefix none = ""
drawn_or_empty prefix (some raw) = id_text prefix raw

module _ ⦃w : World⦄ where
  -- `s.now()`
  unfoldable pub now : Store Time
  now s = (ok (w.clock s.reads), record s { reads = suc s.reads })

  -- `newID(prefix)`
  unfoldable pub new_id : String → Store String
  new_id prefix s = (id_result prefix (w.entropy s.draws), record s { draws = suc s.draws })

  -- `newJoinCode()`
  unfoldable pub new_join_code : Store String
  new_join_code s = (join_code_result (w.entropy s.draws), record s { draws = suc s.draws })

  -- `id, _ = newID(prefix)`: the error leaves the empty text.
  unfoldable pub id_or_empty : String → Store String
  id_or_empty prefix s =
      (ok (drawn_or_empty prefix (w.entropy s.draws)), record s { draws = suc s.draws })

  -- `sessionExpired`
  unfoldable pub session_expired : Session → Store Bool
  unfolding now
  session_expired session =
      if is_zero session.expires_at
      then pure false
      else (do t ← now; pure (not (before t session.expires_at)))

-- The answer of `sessionExpired` when the clock reads `t`.
abbrev pub expired_at : Session → Time → Bool
expired_at session t =
    if is_zero session.expires_at then false else not (before t session.expires_at)

abbrev pub reads_for : Session → ℕ → ℕ
reads_for session n = if is_zero session.expires_at then n else suc n

module _ ⦃w : World⦄ where
  -- `session_expired` reads the clock once, or not at all for a session without an end.
  pub session_expired_lem :
      (session : Session) (s : State)
      → session_expired session s ≡ (
        ok (expired_at session (w.clock s.reads)),
        record s { reads = reads_for session s.reads },
      )
  unfolding session_expired
  session_expired_lem session s = ground arith
