-- ===== src/ControlPlane/Status/Reported.antt =====
-- internal/controlplane/session.go: when the derived status says that the target is online.
use remote_dev_skillkit.Prelude.{
  String, String_discrete, Bool, if◌then◌else◌, true, false, ◌||◌, List, [], ◌∷◌, ◌==◌, string_eq,
  ◌≡◌, refl, arith, Bool-cases, inl, inr, sym,
}
use remote_dev_skillkit.ControlPlane.Protocol.{
  SessionStatus, EventType, Payload, session_status_eq, endpoint_state_eq, endpoint_online_state,
}
use remote_dev_skillkit.ControlPlane.Session.{Session, Endpoint}
use remote_dev_skillkit.ControlPlane.World.{World}
use remote_dev_skillkit.ControlPlane.Append.{string_payload}
use remote_dev_skillkit.ControlPlane.Status.{
  StatusSummary, endpoint_online, endpoint_busy, by_busy, by_online, by_session, by_helper,
  by_gateway, by_transport, by_event, derive_status, is_degraded, waiting,
}

busy-online : (es : List Endpoint) → endpoint_busy es ≡ true → endpoint_online es ≡ true
unfolding endpoint_busy endpoint_online endpoint_online_state
busy-online [] h = h
busy-online (e ∷ es) h = ground (arith, h, busy-online es)

unfoldable pub is_recovered : SessionStatus → Bool
is_recovered SessionStatus.recovered = true
is_recovered _ = false

downloading-ready : ◌==◌ {A = String} "downloading" "ready" ≡ false
unfolding String_discrete
downloading-ready = refl

verifying-ready : ◌==◌ {A = String} "verifying" "ready" ≡ false
unfolding String_discrete
verifying-ready = refl

or_false : (b : Bool) → b ≡ (b || false)
or_false true = refl
or_false false = refl

module _ ⦃w : World⦄ where
  -- An event that says that the target is there.
  unfoldable pub says_online : EventType → Payload → Bool
  says_online EventType.helper p = string_payload p "phase" == "ready"
  says_online EventType.transport p = is_degraded p
  says_online EventType.task p = true
  says_online _ p = false

  ready-online :
      (phase : String) (t u : StatusSummary)
      → u.online ≡ true
      → (if phase == "ready" then u else t).online ≡ (t.online || phase == "ready")
  ready-online phase t u h = ground arith

  quiet-online :
      (phase other : String) (t : StatusSummary)
      → (other == "ready") ≡ false
      → (phase == other) ≡ true
      → t.online ≡ (t.online || phase == "ready")
  quiet-online phase other t h k = ground (arith, h, k)

  by_helper-online :
      (phase : String) (t : StatusSummary)
      → (by_helper phase t).online ≡ (t.online || phase == "ready")
  unfolding by_helper
  by_helper-online phase t = elim (Bool-cases (phase == "downloading")) [
    | inl downloading ↦
        rw downloading (quiet-online phase "downloading" t downloading-ready downloading)
    | inr started ↦ elim (Bool-cases (phase == "verifying")) [
      | inl verifying ↦
          rw (started, verifying) (quiet-online phase "verifying" t verifying-ready verifying)
      | inr checked ↦ rw (started, checked) (ready-online phase t _ refl)
    ]
  ]

  by_event-online :
      (type : EventType) (p : Payload) (t : StatusSummary)
      → (by_event type p t).online ≡ (t.online || says_online type p)
  unfolding by_event says_online by_gateway by_transport
  by_event-online EventType.helper p t = by_helper-online (string_payload p "phase") t
  by_event-online EventType.gateway p t = ground arith
  by_event-online EventType.transport p t = ground arith
  by_event-online EventType.task p t = ground arith
  by_event-online EventType.unset p t = or_false t.online
  by_event-online EventType.hello p t = or_false t.online
  by_event-online EventType.status p t = or_false t.online
  by_event-online EventType.task_progress p t = or_false t.online
  by_event-online EventType.task_result p t = or_false t.online
  by_event-online EventType.artifact p t = or_false t.online
  by_event-online EventType.interrupt p t = or_false t.online
  by_event-online EventType.close p t = or_false t.online
  by_event-online (EventType.other x) p t = or_false t.online

  by_session-online :
      (status : SessionStatus) (t : StatusSummary)
      → (by_session status t).online ≡ (t.online || is_recovered status)
  unfolding by_session is_recovered
  by_session-online SessionStatus.created t = or_false t.online
  by_session-online SessionStatus.joining t = or_false t.online
  by_session-online SessionStatus.online t = or_false t.online
  by_session-online SessionStatus.busy t = or_false t.online
  by_session-online SessionStatus.waiting t = or_false t.online
  by_session-online SessionStatus.degraded t = or_false t.online
  by_session-online SessionStatus.reconnecting t = or_false t.online
  by_session-online SessionStatus.recovered t = ground arith
  by_session-online SessionStatus.closed t = or_false t.online
  by_session-online SessionStatus.failed t = or_false t.online
  by_session-online SessionStatus.revoked t = or_false t.online
  by_session-online (SessionStatus.other x) t = or_false t.online

  by_endpoints-online :
      (busy online : Bool) (t : StatusSummary)
      → t.online ≡ false
      → (busy ≡ true → online ≡ true)
      → (by_busy busy (by_online online t)).online ≡ online
  by_endpoints-online true online t h k = sym (k refl)
  by_endpoints-online false true t h k = refl
  by_endpoints-online false false t h k = h

  -- `DeriveStatus` says that the target is online just when an endpoint is online, busy or degraded, or the
  -- session has recovered, or the latest event says so: a helper that is ready, a transport that has
  -- fallen back, or a task.
  pub derive_status-online :
      (s : Session)
      → (derive_status s).online ≡ (
          endpoint_online s.endpoints
          || is_recovered s.status
          || says_online s.latest_event.type s.latest_event.payload)
  unfolding derive_status
  derive_status-online s =
      let ends =
        by_endpoints-online (endpoint_busy s.endpoints) (endpoint_online s.endpoints) (waiting s)
          refl (busy-online s.endpoints) in
      let inner =
        by_busy (endpoint_busy s.endpoints) (by_online (endpoint_online s.endpoints) (waiting s)) in
      let sessions = by_session-online s.status inner in
      let all =
        by_event-online s.latest_event.type s.latest_event.payload (by_session s.status inner) in
      ground (arith, ends, sessions, all)
