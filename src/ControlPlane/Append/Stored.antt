-- ===== src/ControlPlane/Append/Stored.antt =====
-- internal/controlplane/store.go: what `appendEventLocked` answers and leaves in the store.
use remote_dev_skillkit.Prelude.{
  ◌+◌, ◌%◌, ◌^◌, ltb, String, Bool, true, false, some, none, [], ◌∷◌, ◌++◌, ◌≡◌, ◌≢◌, ◌⊎◌, inl, inr,
  refl, ap, arith, get, get_or, put, if◌then◌else◌, string_eq, Bool-cases, Option, ◌∙◌,
}
use remote_dev_skillkit.Exec.{Result, ok, err}
use remote_dev_skillkit.ControlPlane.Protocol.{Failure}
use remote_dev_skillkit.ControlPlane.Session.{
  Time, Event, Session, IdempotencyKey, IdempotencyRecord, idempotency_key_eq,
}
use remote_dev_skillkit.ControlPlane.World.{World}
use remote_dev_skillkit.ControlPlane.Store.{State}
use remote_dev_skillkit.ControlPlane.Append.{
  open_to, key_of, fingerprint_of, append_event_locked, commit_event, with_event, switch_gateway,
  notify, numbered, stamp,
}
use remote_dev_skillkit.ControlPlane.Append.Outcome.{
  Appended, Remembers, rejected, replayed, fresh, append_event_locked-Appended,
}

module _ ⦃w : World⦄ where
  -- The idempotency records after an entry is stored.
  abbrev Recorded : String → Event → Event → State → State → Type 0
  Recorded session_id event entry s s' =
      ((event.idempotency_key ≡ "") × (s'.idempotency ≡ s.idempotency))
      ⊎ ((event.idempotency_key ≢ "")
          × ((print : String) × (w.marshal_fingerprint (fingerprint_of event) ≡ some print)
              × (get (key_of session_id event) s.idempotency ≡ none)
              × (s'.idempotency
                  ≡ put (key_of session_id event) (record { fingerprint = print; event = entry })
                      s.idempotency)))

  -- The call of the hook, where there is one.
  abbrev Notified : String → Session → Event → State → State → Type 0
  Notified session_id session entry s s' =
      ((s.has_hook ≡ false) × (s'.notified ≡ s.notified))
      ⊎ ((s.has_hook ≡ true)
          × (s'.notified
              ≡ s.notified
                ++ record {
                  session_id = session_id;
                  event = entry;
                  notify_url = session.notify_url;
                }
                  ∷ []))

  pub data Answered (session_id : String) (event : Event) (s : State) (r : Result Event)
      (s' : State) : Type 0 where
    refused :
        (e : Failure)
        → r ≡ err e
        → s'.store ≡ s.store
        → s'.notified ≡ s.notified
        → Answered session_id event s r s'
    known :
        (r' : IdempotencyRecord)
        → event.idempotency_key ≢ ""
        → get (key_of session_id event) s.idempotency ≡ some r'
        → w.marshal_fingerprint (fingerprint_of event) ≡ some r'.fingerprint
        → r ≡ ok r'.event
        → s'.store ≡ s.store
        → s'.notified ≡ s.notified
        → Answered session_id event s r s'
    stored :
        (session : Session) (id url : String) (created updated : Time) (entry : Event)
        → get session_id s.sessions ≡ some session
        → open_to session event.type ≡ true
        → r ≡ ok entry
        → entry ≡ record event {
          schema_version = "rdev.event.v1";
          id = id;
          session_id = session_id;
          seq = (session.last_seq + 1) % 2 ^ 64;
          created_at = created;
        }
        → s'.events ≡ put session_id (get_or session_id [] s.events ++ entry ∷ []) s.events
        → s'.sessions
          ≡ put session_id
              (record session {
                latest_event = entry;
                last_seq = if ltb session.last_seq entry.seq then entry.seq else session.last_seq;
                updated_at = updated;
                selected_gateway_url = url;
              })
              s.sessions
        → s'.store ≡ record s.store {
          events = s'.events;
          sessions = s'.sessions;
          idempotency = s'.idempotency;
        }
        → Recorded session_id event entry s s'
        → Notified session_id session entry s s'
        → Answered session_id event s r s'

  recorded :
      (session_id : String) (event entry : Event) (session : Session) (updated : Time)
      (s s' : State) (remember : Option (IdempotencyKey × String))
      → s'.store ≡ commit_event session_id session entry remember updated s.store
      → Remembers session_id event s remember
      → Recorded session_id event entry s s'
  unfolding commit_event
  recorded session_id event entry session updated s s' remember kept (inl (unkeyed, none_)) =
      inl (unkeyed, ap (λ m. m.idempotency) kept ∙ ground (arith, none_))
  recorded session_id event entry session updated s s' remember kept
        (inr (keyed, (print, is, encoded, unknown))) =
      inr (keyed, (print, encoded, unknown, ap (λ m. m.idempotency) kept ∙ ground (arith, is)))

  notify-Notified :
      (session_id : String) (session : Session) (entry : Event) (s s' : State)
      → s'.notified ≡ notify session_id session entry s
      → Notified session_id session entry s s'
  unfolding notify
  notify-Notified session_id session entry s s' h = elim (Bool-cases s.has_hook) [
    | inl hook ↦ inr (hook, ground (arith, h, hook))
    | inr plain ↦ inl (plain, ground (arith, h, plain))
  ]

  Appended-Answered :
      (session_id : String) (event : Event) (s : State) (r : Result Event) (s' : State)
      → Appended session_id event s r s'
      → Answered session_id event s r s'
  unfolding commit_event with_event switch_gateway
  Appended-Answered session_id event s r s' (rejected e failed same n) = refused e failed same n
  Appended-Answered session_id event s r s' (replayed r' keyed hit print answer same n) =
      known r' keyed hit print answer same n
  Appended-Answered session_id event s r s'
        (fresh session id created updated remember found opened keeps (answer, kept, n)) =
      let entry : Event = numbered session (stamp session_id event) id created in
      stored session id (switch_gateway session entry).selected_gateway_url created updated entry
        found opened answer refl (ap (λ m. m.events) kept) (ap (λ m. m.sessions) kept)
        (rw kept refl) (recorded session_id event entry session updated s s' remember kept keeps)
        (notify-Notified session_id session entry s s' n)

  -- An append of an event is refused with an error, or answered with the event of the record under its
  -- idempotency key, whose fingerprint is that of the event, and in both cases the store and the calls
  -- of the hook stay as they are; or the session is there and open to the event, and the event, with the
  -- next number, where a uint64 wraps, an id, a time, its session and schema, and the rest as it was
  -- given, is answered and stored once, at the end of the
  -- session's log. Then it is the latest event of the session, the last number is at least its
  -- own, it is recorded under its key if it has one, a key that had no record before, and the hook is
  -- called once if there is one; nothing else in the store changes but the session's time and the
  -- gateway that it has selected.
  pub append_event_locked-Answered :
      (session_id : String) (event : Event) (enforce : Bool) (s : State)
      → let m = append_event_locked session_id event enforce s in
        Answered session_id event s m.0 m.1
  append_event_locked-Answered session_id event enforce s =
      Appended-Answered session_id event s _ _
        (append_event_locked-Appended session_id event enforce s)
