-- ===== src/ControlPlane/Append/Replay.antt =====
-- internal/controlplane/store.go: an event that is sent again.
use mathlib.Core.Path.{subst}
use remote_dev_skillkit.ControlPlane.Protocol.{Failure}
use remote_dev_skillkit.Prelude.{
  String, Bool, some, ◌≡◌, ◌≢◌, ◌∙◌, sym, ap, ◌⊎◌, inl, inr, string_eq, get, get-put_self, arith,
}
use remote_dev_skillkit.Exec.{Result, ok, err}
use remote_dev_skillkit.ControlPlane.Session.{Event, IdempotencyRecord, idempotency_key_eq}
use remote_dev_skillkit.ControlPlane.World.{World}
use remote_dev_skillkit.ControlPlane.Store.{State, MemoryStore}
use remote_dev_skillkit.ControlPlane.Append.{
  key_of, fingerprint_of, commit_event, append_event_locked, numbered, stamp,
}
use remote_dev_skillkit.ControlPlane.Append.Outcome.{
  Appended, rejected, replayed, fresh, keyed-Printed, append_event_locked-Appended,
}

module _ ⦃w : World⦄ where
  -- What the store knows of an event after a call that has stored or replayed it.
  Knows : String → Event → MemoryStore → Event → Type 0
  Knows session_id event m e =
      (r : IdempotencyRecord) × (get (key_of session_id event) m.idempotency ≡ some r)
      × (r.event ≡ e)
      × (w.marshal_fingerprint (fingerprint_of event) ≡ some r.fingerprint)

  commit-Knows :
      (session_id : String) (event e : Event) (s s' : State) (r : Result Event)
      → event.idempotency_key ≢ ""
      → r ≡ ok e
      → Appended session_id event s r s'
      → Knows session_id event s'.store e
  unfolding Knows commit_event
  commit-Knows session_id event e s s' r keyed done (rejected c failed same n) =
      ground (arith, done, failed)
  commit-Knows session_id event e s s' r keyed done (replayed known k hit print answer same n) =
      (known, rw same hit, ground (arith, done, answer), print)
  commit-Knows session_id event e s s' r keyed done
        (fresh session id created updated remember found opened keeps (answer, stored, n)) =
      let (print, is, encoded, unknown) = keyed-Printed session_id event s remember keyed keeps in
      let entry = numbered session (stamp session_id event) id created in
      (
        record { fingerprint = print; event = entry },
        rw (stored, is)
            (get-put_self (key_of session_id event) (record { fingerprint = print; event = entry })
              s.idempotency),
        ground (arith, done, answer),
        encoded,
      )

  again :
      (session_id : String) (event e : Event) (s s' : State) (r : Result Event)
      → event.idempotency_key ≢ ""
      → Knows session_id event s.store e
      → Appended session_id event s r s'
      → ((r ≡ ok e) ⊎ ((c : Failure) × (r ≡ err c)))
        × (s'.store ≡ s.store)
        × (s'.notified ≡ s.notified)
  unfolding Knows
  again session_id event e s s' r keyed k (rejected c failed same n) = (inr (c, failed), same, n)
  again session_id event e s s' r keyed (known', hit', is, print')
        (replayed known k hit print answer same n) =
      (inl (answer ∙ ap ok (ground (arith, hit, hit', is))), same, n)
  again session_id event e s s' r keyed (known', hit', is, print')
        (fresh session id created updated remember found opened keeps stored) =
      let (print, is, encoded, unknown) = keyed-Printed session_id event s remember keyed keeps in
      ground (arith, unknown, hit')

  -- After a call has appended an event with an idempotency key and has returned the entry `e`, the
  -- same call on that store at any later time returns `e` again or fails; it never stores another
  -- event, changes nothing in the store, and does not call the hook.
  pub append_event_locked-twice :
      (session_id : String) (event e : Event) (enforce retry : Bool) (s t : State)
      → event.idempotency_key ≢ ""
      → (append_event_locked session_id event enforce s).0 ≡ ok e
      → t.store ≡ (append_event_locked session_id event enforce s).1.store
      → (let m = append_event_locked session_id event retry t in
          ((m.0 ≡ ok e) ⊎ ((c : Failure) × (m.0 ≡ err c)))
          × (m.1.store ≡ t.store)
          × (m.1.notified ≡ t.notified))
  append_event_locked-twice session_id event e enforce retry s t keyed done same =
      again session_id event e t _ _ keyed
        (subst (λ m. Knows session_id event m e) (sym same)
          (commit-Knows session_id event e s _ _ keyed done
            (append_event_locked-Appended session_id event enforce s)))
        (append_event_locked-Appended session_id event retry t)
