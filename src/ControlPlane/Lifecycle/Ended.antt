-- ===== src/ControlPlane/Lifecycle/Ended.antt =====
-- internal/controlplane/store.go: what is left of a session that has been ended.
use mathlib.Core.List.{Memᴰ}
use remote_dev_skillkit.Prelude.{
  String, none, some, List, [], ◌∷◌, map, ◌≡◌, refl, string_eq, Dict, get, get-put_self, get-delete,
  get_or_of-get, All, arith,
}
use remote_dev_skillkit.ControlPlane.Protocol.{SessionStatus, EndpointState}
use remote_dev_skillkit.ControlPlane.Session.{Session, Endpoint, Task, Time, LeaseRecord}
use remote_dev_skillkit.ControlPlane.Store.{MemoryStore, no_session}
use remote_dev_skillkit.ControlPlane.Lifecycle.{delete_leases, end_session, revoked_at}

kept_none :
    (id : String) (es : List Endpoint) (leases : Dict String LeaseRecord)
    → get id leases ≡ none
    → get id (delete_leases es leases) ≡ none
unfolding delete_leases
kept_none id [] leases h = h
kept_none id (e ∷ es) leases h = kept_none id es _ (rw get-delete (ground arith))

delete_leases-none :
    (e : Endpoint) (es : List Endpoint) (leases : Dict String LeaseRecord)
    → Memᴰ e es
    → get e.id (delete_leases es leases) ≡ none
unfolding delete_leases
delete_leases-none e [] leases h = elim h [ ]
delete_leases-none e (x ∷ es) leases (Memᴰ.head q) =
    kept_none e.id es _ (rw get-delete (ground (arith, q)))
delete_leases-none e (x ∷ es) leases (Memᴰ.tail h) = delete_leases-none e es _ h

revoked_everywhere :
    (t : Time) (es : List Endpoint)
    → All (λ e. e.state ≡ EndpointState.revoked) (map (revoked_at t) es)
revoked_everywhere t [] = tt
revoked_everywhere t (e ∷ es) = (refl, revoked_everywhere t es)

-- When a session that is there is ended with some status, it is stored in that status, with the tasks
-- that it is to end with and every endpoint revoked; the time is kept for the grace of results; and
-- no endpoint of the session has a lease.
pub end_session_lem :
    (session_id : String) (status : SessionStatus) (tasks : List Task → List Task) (t : Time)
    (m : MemoryStore) (session : Session)
    → get session_id m.sessions ≡ some session
    → (let n = end_session session_id status tasks t m in
        ((later : Session) × (get session_id n.sessions ≡ some later)
          × (later.status ≡ status)
          × (later.tasks ≡ tasks session.tasks)
          × All (λ e. e.state ≡ EndpointState.revoked) later.endpoints)
        × (get session_id n.terminal_at ≡ some t)
        × ((e : Endpoint) → Memᴰ e session.endpoints → get e.id n.leases ≡ none))
unfolding end_session
end_session_lem session_id status tasks t m session found =
    rw (get_or_of-get session_id no_session session m.sessions found) (
      (_, get-put_self session_id _ m.sessions, refl, refl, revoked_everywhere t session.endpoints),
      get-put_self session_id t m.terminal_at,
      λ e h. delete_leases-none e session.endpoints m.leases h,
    )
