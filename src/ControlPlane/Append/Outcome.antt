-- ===== src/ControlPlane/Append/Outcome.antt =====
-- The three ways in which `append_event_locked` ends.
use remote_dev_skillkit.Prelude.{
  ℕ, String, Bool, true, false, Option, none, some, ◌≡◌, refl, ◌≢◌, ◌⊎◌, inl, inr, arith, ◌==◌,
  ◌!=◌, ap, ◌∙◌, ◌&&◌, pos, string_eq, get, Bool-cases, Option-cases,
}
use remote_dev_skillkit.Prelude.Int.{ltb_ℤ, int_eq}
use remote_dev_skillkit.Exec.{Result, ok, err}
use remote_dev_skillkit.ControlPlane.Protocol.{
  EventType, ErrorCode, Failure, not_encodable, event_type_eq,
}
use remote_dev_skillkit.ControlPlane.Session.{
  Time, Event, Session, IdempotencyKey, IdempotencyRecord, idempotency_key_eq,
}
use remote_dev_skillkit.ControlPlane.World.{World}
use remote_dev_skillkit.ControlPlane.Store.{
  State, refusal, new_id, now, session_expired_lem, expired_at, reads_for,
}
use remote_dev_skillkit.ControlPlane.Append.{
  open_to, key_of, fingerprint_of, stamp, numbered, commit_event, notify, check_payload, append_new,
  append_keyed, append_event_locked, store_event, json_payload_size,
}

abbrev payload_too_large : Failure
payload_too_large = refusal ErrorCode.payload_too_large "event payload is too large" true

module _ ⦃w : World⦄ where
  -- What is remembered of an event under a key: its fingerprint, where nothing stands under the key yet.
  abbrev pub Printed : String → Event → State → Option (IdempotencyKey × String) → Type 0
  Printed session_id event s remember =
      (print : String) × (remember ≡ some (key_of session_id event, print))
      × (w.marshal_fingerprint (fingerprint_of event) ≡ some print)
      × (get (key_of session_id event) s.idempotency ≡ none)

  abbrev pub Remembers : String → Event → State → Option (IdempotencyKey × String) → Type 0
  Remembers session_id event s remember =
      ((event.idempotency_key ≡ "") × (remember ≡ none))
      ⊎ ((event.idempotency_key ≢ "") × Printed session_id event s remember)

  pub keyed-Printed :
      (session_id : String) (event : Event) (s : State)
      (remember : Option (IdempotencyKey × String))
      → event.idempotency_key ≢ ""
      → Remembers session_id event s remember
      → Printed session_id event s remember
  keyed-Printed session_id event s remember keyed (inl (unkeyed, none_)) = absurd (keyed unkeyed)
  keyed-Printed session_id event s remember keyed (inr (same, printed)) = printed

  -- Refused with nothing stored, replayed from the idempotency record, or stored under the next
  -- number.
  pub data Appended (session_id : String) (event : Event) (s : State) (r : Result Event)
      (s' : State) : Type 0 where
    rejected :
        (e : Failure)
        → r ≡ err e
        → s'.store ≡ s.store
        → s'.notified ≡ s.notified
        → Appended session_id event s r s'
    replayed :
        (record' : IdempotencyRecord)
        → event.idempotency_key ≢ ""
        → get (key_of session_id event) s.idempotency ≡ some record'
        → w.marshal_fingerprint (fingerprint_of event) ≡ some record'.fingerprint
        → r ≡ ok record'.event
        → s'.store ≡ s.store
        → s'.notified ≡ s.notified
        → Appended session_id event s r s'
    fresh :
        (session : Session) (id : String) (created updated : Time)
        (remember : Option (IdempotencyKey × String))
        → get session_id s.sessions ≡ some session
        → open_to session event.type ≡ true
        → Remembers session_id event s remember
        → (let entry = numbered session (stamp session_id event) id created in
            (r ≡ ok entry)
            × (s'.store ≡ commit_event session_id session entry remember updated s.store)
            × (s'.notified ≡ notify session_id session entry s))
        → Appended session_id event s r s'

  module _ (session_id : String) (event : Event) (session : Session) (s : State)
      (found : get session_id s.sessions ≡ some session)
      (opened : open_to session event.type ≡ true) where
    append_new-Appended :
        (a b : ℕ) (remember : Option (IdempotencyKey × String))
        → Remembers session_id event s remember
        → let m =
            append_new session_id session
              (stamp session_id event)
              remember
              (record s { reads = a; draws = b }) in
          Appended session_id event s m.0 m.1
    unfolding append_new new_id now notify
    append_new-Appended a b remember keeps = elim (Option-cases (w.entropy b)) [
      | inl miss ↦ rw (miss, append_new) (rejected _ refl refl refl)
      | inr (raw, hit) ↦
          rw (hit, append_new) (fresh session _ _ _ remember found opened keeps (refl, refl, refl))
    ]

    append_keyed-Appended :
        (a b : ℕ) (print : String)
        → event.idempotency_key ≢ ""
        → w.marshal_fingerprint (fingerprint_of event) ≡ some print
        → let m =
            append_keyed session_id session
              (stamp session_id event)
              print
              (record s { reads = a; draws = b }) in
          Appended session_id event s m.0 m.1
    unfolding append_keyed
    append_keyed-Appended a b print keyed encoded =
        elim (Option-cases (get (key_of session_id event) s.idempotency)) [
          | inl miss ↦
              rw (miss, append_keyed)
                (append_new-Appended a b (some (key_of session_id event, print))
                  (inr (keyed, (print, refl, encoded, miss))))
          | inr (r, hit) ↦ elim (Bool-cases (r.fingerprint != print)) [
            | inl differ ↦ rw (hit, append_keyed, differ) (rejected _ refl refl refl)
            | inr same ↦
                rw (hit, append_keyed, same)
                  (replayed r keyed hit (encoded ∙ ap some (ground arith)) refl refl refl)
          ]
        ]

  check_payload-run :
      (enforce : Bool) (session : Session) (event : Event) (s : State)
      → (check_payload enforce session event s ≡ (ok tt, s))
        ⊎ ((e : Failure) × (check_payload enforce session event s ≡ (err e, s)))
  unfolding check_payload
  check_payload-run false session event s = inl refl
  check_payload-run true session event s = elim (Option-cases (json_payload_size event.payload)) [
    | inl miss ↦ inr (not_encodable, rw (miss, check_payload))
    | inr (size, hit) ↦ elim (Bool-cases (ltb_ℤ session.limits.event_payload_bytes (pos size))) [
      | inl large ↦ inr (payload_too_large, rw (hit, check_payload, large))
      | inr fits ↦ inl (rw (hit, check_payload, fits))
    ]
  ]

  module _ (session_id : String) (event : Event) (session : Session) (s : State)
      (found : get session_id s.sessions ≡ some session)
      (opened : open_to session event.type ≡ true) where
    -- What follows the checks.
    store_event-Appended :
        (a : ℕ)
        → let m = store_event session_id session event (record s { reads = a }) in
          Appended session_id event s m.0 m.1
    unfolding store_event
    store_event-Appended a = elim (string_eq.dec event.idempotency_key "") [
      | yes unkeyed ↦
          rw (if_empty unkeyed, store_event)
            (append_new-Appended session_id event session s found opened a s.draws none
              (inl (unkeyed, refl)))
      | no keyed ↦ elim (Option-cases (w.marshal_fingerprint (fingerprint_of event))) [
        | inl miss ↦ rw (if_keyed keyed, store_event, miss) (rejected _ refl refl refl)
        | inr (print, hit) ↦
            rw (if_keyed keyed, store_event, hit)
              (append_keyed-Appended session_id event session s found opened a s.draws print keyed
                hit)
      ]
    ]
      where
        if_empty : event.idempotency_key ≡ "" → (event.idempotency_key == "") ≡ true
        if_empty e = ground arith

        if_keyed : event.idempotency_key ≢ "" → (event.idempotency_key == "") ≡ false
        if_keyed e = ground arith

  -- The three ways in which the call ends, in terms of the parts of the model.
  pub append_event_locked-Appended :
      (session_id : String) (event : Event) (enforce : Bool) (s : State)
      → let m = append_event_locked session_id event enforce s in
        Appended session_id event s m.0 m.1
  unfolding append_event_locked
  append_event_locked-Appended session_id event enforce s =
      elim (Option-cases (get session_id s.sessions)) [
        | inl miss ↦ rw (miss, append_event_locked) (rejected _ refl refl refl)
        | inr (session, found) ↦ elim (Bool-cases (open_to session event.type)) [
          | inl opened ↦
              elim (Bool-cases
                (expired_at session (w.clock s.reads) && event.type != EventType.close)) [
                  | inl late ↦
                      rw (found, append_event_locked, opened, session_expired_lem session s, late)
                        (rejected _ refl refl refl)
                  | inr timely ↦
                      elim (check_payload-run enforce session event
                        (record s { reads = reads_for session s.reads })) [
                          | inl fits ↦
                              rw
                                (
                                  found,
                                  append_event_locked,
                                  opened,
                                  session_expired_lem session s,
                                  timely,
                                  fits,
                                )
                                (store_event-Appended session_id event session s found opened
                                  (reads_for session s.reads))
                          | inr (e, large) ↦
                              rw
                                (
                                  found,
                                  append_event_locked,
                                  opened,
                                  session_expired_lem session s,
                                  timely,
                                  large,
                                )
                                (rejected e refl refl refl)
                        ]
                ]
          | inr shut ↦ rw (found, append_event_locked, shut) (rejected _ refl refl refl)
        ]
      ]
