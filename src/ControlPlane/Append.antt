-- ===== src/ControlPlane/Append.antt =====
-- internal/controlplane/store.go: `appendEventLocked`, through which every event enters a log.
pub mod Outcome
pub mod Replay
pub mod Stored
use mathlib.Core.Option
use remote_dev_skillkit.Prelude.{
  ℕ, ◌+◌, ◌%◌, ◌^◌, ltb, String, Bool, true, false, not, ◌&&◌, ◌||◌, Option, none, some, List, [],
  ◌∷◌, ◌++◌, Dict, if◌then◌else◌, ◌==◌, ◌!=◌, string_eq, get, get_or, put, pos,
}
use remote_dev_skillkit.Prelude.Int.{ltb_ℤ}
use remote_dev_skillkit.Prelude.Text.{byte_len, trim_space, trim_slashes}
use remote_dev_skillkit.Exec.{ok, pure, require, fail, fail_if, ◌>>=◌, ◌>>◌}
use remote_dev_skillkit.ControlPlane.Protocol.{
  EventType, ErrorCode, not_encodable, session_terminal, Value, text, Payload, event_type_eq,
}
use remote_dev_skillkit.ControlPlane.Session.{
  Time, Event, Session, IdempotencyKey, IdempotencyRecord, idempotency_key_eq,
}
use remote_dev_skillkit.ControlPlane.World.{World, EventFingerprint}
use remote_dev_skillkit.ControlPlane.Store.{
  MemoryStore, State, Store, Notification, refusal, find_session, now, new_id, session_expired,
}

-- A closed session still takes results, artifacts and its close event.
unfoldable pub open_to : Session → EventType → Bool
open_to session type =
    not (session_terminal session.status)
    || type == EventType.task_result
    || type == EventType.artifact
    || type == EventType.close

abbrev pub key_of : String → Event → IdempotencyKey
key_of session_id event = record {
  session_id = session_id;
  from_endpoint_id = event.from_endpoint_id;
  key = event.idempotency_key;
}

-- `eventFingerprint`, of what two events with one key must share.
abbrev pub fingerprint_of : Event → EventFingerprint
fingerprint_of event = record {
  type = event.type;
  from_endpoint_id = event.from_endpoint_id;
  to_endpoint_id = event.to_endpoint_id;
  task_id = event.task_id;
  payload = event.payload;
}

-- The schema and the session of an event are the store's, whatever the caller wrote.
abbrev pub stamp : String → Event → Event
stamp session_id event = record event { schema_version = "rdev.event.v1"; session_id = session_id }

-- `Session.WithEvent`, of an event that has its schema and its session.
unfoldable pub with_event : Session → Event → Time → Session
with_event session event t = record session {
  latest_event = event;
  last_seq = if ltb session.last_seq event.seq then event.seq else session.last_seq;
  updated_at = t;
}

-- The event under its new id and the next number; a uint64 wraps.
abbrev pub numbered : Session → Event → String → Time → Event
numbered session event id created = record event {
  id = id;
  seq = (session.last_seq + 1) % 2 ^ 64;
  created_at = created;
}

abbrev pub remembered :
    Option (IdempotencyKey × String)
    → Event
    → Dict IdempotencyKey IdempotencyRecord
    → Dict IdempotencyKey IdempotencyRecord
remembered none event m = m
remembered (some (key, print)) event m = put key (record { fingerprint = print; event = event }) m

module _ ⦃w : World⦄ where
  -- `stringPayload`
  unfoldable pub string_of : Option Value → String
  string_of none = ""
  string_of (some (text s)) = s
  string_of (some v) = w.sprint v

  unfoldable pub string_payload : Payload → String → String
  unfolding string_of
  string_payload none key = ""
  string_payload (some m) key = string_of (get key m)

  first_url : Payload → List String → String
  unfolding string_payload
  first_url p [] = ""
  first_url p (key ∷ keys) =
      let value = trim_slashes (trim_space (string_payload p key)) in
      if value != "" then value else first_url p keys

  unfoldable pub selected_gateway_url_from_event : Event → String
  unfolding first_url
  selected_gateway_url_from_event event =
      first_url event.payload ("selected_url" ∷ "next_url" ∷ "gateway_url" ∷ [])

  unfoldable pub json_payload_size : Payload → Option ℕ
  json_payload_size none = some 0
  json_payload_size (some m) = Option.map byte_len (w.marshal m)

  -- The `if enforceLimits` block.
  unfoldable pub check_payload : Bool → Session → Event → Store (Unit {0})
  check_payload false session event = pure tt
  check_payload true session event = do
    size ← require (json_payload_size event.payload) not_encodable
    fail_if (ltb_ℤ session.limits.event_payload_bytes (pos size))
        (refusal ErrorCode.payload_too_large "event payload is too large" true)

  -- An event of type `gateway` moves the session to the URL that it names.
  unfoldable pub switch_gateway : Session → Event → Session
  switch_gateway session event =
      let selected = selected_gateway_url_from_event event in
      record session {
        selected_gateway_url =
            if event.type == EventType.gateway && selected != ""
            then selected
            else session.selected_gateway_url;
      }

  -- What the store holds once an event has its id, its number and its time.
  unfoldable pub commit_event :
      String → Session → Event → Option (IdempotencyKey × String) → Time → MemoryStore → MemoryStore
  commit_event session_id session event remember updated m = record m {
    events = put session_id (get_or session_id [] m.events ++ event ∷ []) m.events;
    sessions = put session_id (with_event (switch_gateway session event) event updated) m.sessions;
    idempotency = remembered remember event m.idempotency;
  }

  -- The call of `onEvent`, if it is set.
  unfoldable pub notify : String → Session → Event → State → List Notification
  notify session_id session event s =
      if s.has_hook
      then s.notified
        ++ record { session_id = session_id; event = event; notify_url = session.notify_url } ∷ []
      else s.notified

  unfoldable pub append_new :
      String → Session → Event → Option (IdempotencyKey × String) → Store Event
  append_new session_id session event remember = do
    id ← new_id "evt"
    created ← now
    updated ← now
    let entry = numbered session event id created
    λ s. (
      ok entry,
      record s {
        store = commit_event session_id session entry remember updated s.store;
        notified = notify session_id session entry s;
      },
    )

  -- An event with a key: replayed, refused, or new.
  abbrev pub append_over :
      Option IdempotencyRecord → String → Session → Event → String → Store Event
  append_over none session_id session event print =
      append_new session_id session event (some (key_of session_id event, print))
  append_over (some r) session_id session event print =
      if r.fingerprint != print
      then fail (
          refusal ErrorCode.idempotency_conflict
            "idempotency key was reused with a different payload" true)
      else pure r.event

  unfoldable pub append_keyed : String → Session → Event → String → Store Event
  append_keyed session_id session event print s =
      append_over (get (key_of session_id event) s.idempotency) session_id session event print s

  -- `appendEventLocked` after its checks.
  unfoldable pub store_event : String → Session → Event → Store Event
  store_event session_id session event =
      if event.idempotency_key == ""
      then append_new session_id session (stamp session_id event) none
      else (do
        print ← require (w.marshal_fingerprint (fingerprint_of event)) not_encodable
        append_keyed session_id session (stamp session_id event) print)

  -- `appendEventLocked`
  unfoldable pub append_event_locked : String → Event → Bool → Store Event
  append_event_locked session_id event enforce_limits = do
    session ← find_session session_id
    fail_if (not (open_to session event.type))
        (refusal ErrorCode.terminal_session "session is terminal" false)
    expired ← session_expired session
    fail_if (expired && event.type != EventType.close)
        (refusal ErrorCode.terminal_session "session is expired" false)
    check_payload enforce_limits session event
    store_event session_id session event
