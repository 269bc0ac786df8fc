-- ===== src/ControlPlane/Writes.antt =====
-- The abstract control plane: a step relation on the sessions and their event logs. The methods
-- of internal/controlplane/store.go are set against these steps in the files below.
pub mod Rules
pub mod Guards
pub mod Lifecycle
pub mod Tasks
pub mod Work
pub mod Results
pub mod Joining
pub mod Reading
pub mod Artifacts
pub mod Hosts
use remote_dev_skillkit.Prelude.{
  ℕ, ◌+◌, ◌%◌, ◌^◌, String, true, Option, none, some, List, [], ◌∷◌, ◌++◌, map, ◌≡◌, refl, set,
  string_eq, get, get_or, put, get-put, keep, leb, find_indexed, find?, arith,
}
use remote_dev_skillkit.Exec.{ok}
use remote_dev_skillkit.ControlPlane.Protocol.{TaskStatus, EndpointRole, session_terminal}
use remote_dev_skillkit.ControlPlane.Session.{Time, Session, Endpoint, Event, Task}
use remote_dev_skillkit.ControlPlane.Store.{MemoryStore}
use remote_dev_skillkit.ControlPlane.Append.{open_to, with_event}
use remote_dev_skillkit.ControlPlane.Tasks.{transition, has_id}
use remote_dev_skillkit.ControlPlane.Endpoints.{
  place_endpoint, constrained_endpoint_capabilities, endpoint_identity_key,
}
use remote_dev_skillkit.ControlPlane.Endpoints.Routing.{IsRoute}
use remote_dev_skillkit.ControlPlane.Lifecycle.{revoked_at, canceled_at}
use remote_dev_skillkit.ControlPlane.Reads.{has_endpoint_id}

-- Any number of transitions of a task.
pub data Advances (t : Task) : Task → Type 0 where
  stays : Advances t t
  moves :
      {u v : Task} (next : TaskStatus) (now : Time)
      → Advances t u
      → transition u next now ≡ ok v
      → Advances t v

-- What a step does to the tasks of a session whose endpoints are `es`. A task is offered to one of
-- them: a target that is online and has the capabilities of the task.
pub data TasksStep (es : List Endpoint) (ts us : List Task) : Type 0 where
  same : us ≡ ts → TasksStep es ts us
  advance :
      (task_id : String) (t u : Task) (i : ℕ)
      → find_indexed (has_id task_id) 0 ts ≡ some (t, i)
      → Advances t u
      → us ≡ set ts i u
      → TasksStep es ts us
  cancel_all : (now : Time) → us ≡ map (canceled_at now) ts → TasksStep es ts us
  offer :
      (t : Task) (e : Endpoint)
      → t.status ≡ TaskStatus.offered
      → t.target_endpoint_id ≡ e.id
      → IsRoute es t.capabilities e
      → us ≡ ts ++ t ∷ []
      → TasksStep es ts us

-- What a step does to the endpoints of a session. An endpoint that is placed has the capabilities
-- that the session lets an endpoint with its identity have; `role` is the role that the joiner names.
pub data EndpointsStep (session : Session) (fs : List Endpoint) : Type 0 where
  same : fs ≡ session.endpoints → EndpointsStep session fs
  revoke : (now : Time) → fs ≡ map (revoked_at now) session.endpoints → EndpointsStep session fs
  place :
      (e : Endpoint) (role : EndpointRole) (fingerprint platform : String)
      (advertised existing : List String)
      → endpoint_identity_key session.id e.role e.identity_fingerprint e.platform
        ≡ endpoint_identity_key session.id role fingerprint platform
      → e.capabilities ≡ constrained_endpoint_capabilities session role advertised existing
      → fs ≡ place_endpoint e session.endpoints
      → EndpointsStep session fs
  report :
      (e f : Endpoint) (id : String)
      → find? (has_endpoint_id id) session.endpoints ≡ some e
      → f.capabilities ≡ e.capabilities
      → f.role ≡ e.role
      → f.id ≡ e.id
      → fs ≡ place_endpoint f session.endpoints
      → EndpointsStep session fs

-- A session that keeps its identity, its ceiling and its last number.
pub record Updates (session session' : Session) : Type 0 where
  pub id : session'.id ≡ session.id
  pub capabilities : session'.capabilities ≡ session.capabilities
  pub join_policy : session'.join_policy ≡ session.join_policy
  pub last_seq : session'.last_seq ≡ session.last_seq
  pub terminal : session_terminal session.status ≡ true → session_terminal session'.status ≡ true
  pub tasks : TasksStep session.endpoints session.tasks session'.tasks
  pub endpoints : EndpointsStep session session'.endpoints

-- A session that an event of type `gateway` moved, or not.
abbrev pub switched : Session → String → Session
switched session url = record session { selected_gateway_url = url }

pub data Write (m n : MemoryStore) : Type 0 where
  quiet : n.sessions ≡ m.sessions → n.events ≡ m.events → Write m n
  append :
      (session_id : String) (session : Session) (entry : Event) (url : String) (t : Time)
      → get session_id m.sessions ≡ some session
      → open_to session entry.type ≡ true
      → entry.seq ≡ (session.last_seq + 1) % 2 ^ 64
      → entry.session_id ≡ session_id
      → n.sessions ≡ put session_id (with_event (switched session url) entry t) m.sessions
      → n.events ≡ put session_id (get_or session_id [] m.events ++ entry ∷ []) m.events
      → Write m n
  update :
      (session_id : String) (session session' : Session)
      → get session_id m.sessions ≡ some session
      → Updates session session'
      → n.sessions ≡ put session_id session' m.sessions
      → n.events ≡ m.events
      → Write m n
  create :
      (session : Session)
      → get session.id m.sessions ≡ none
      → session.last_seq ≡ 0
      → session.tasks ≡ []
      → session.endpoints ≡ []
      → n.sessions ≡ put session.id session m.sessions
      → n.events ≡ put session.id [] m.events
      → Write m n
  compact :
      (session_id : String) (session : Session) (snapshot_seq : ℕ)
      → get session_id m.sessions ≡ some session
      → n.sessions ≡ put session_id (record session { snapshot_seq = snapshot_seq }) m.sessions
      → n.events
        ≡ put session_id
            (keep (λ e. leb snapshot_seq e.seq) (get_or session_id [] m.events))
            m.events
      → Write m n

pub data Writes (m : MemoryStore) : MemoryStore → Type 0 where
  start : Writes m m
  then_write : {n p : MemoryStore} → Writes m n → Write n p → Writes m p

pub Writes-trans : {m n p : MemoryStore} → Writes m n → Writes n p → Writes m p
Writes-trans w start = w
Writes-trans w (then_write v step) = then_write (Writes-trans w v) step

pub single_step : {m n : MemoryStore} → Write m n → Writes m n
single_step step = then_write start step

-- Every session stands under its own id.
pub record IsKeyed (m : MemoryStore) : Type 0 where
  pub keyed :
      (session_id : String) (session : Session)
      → get session_id m.sessions ≡ some session
      → session.id ≡ session_id

Write-IsKeyed : {m n : MemoryStore} → Write m n → IsKeyed m → IsKeyed n
unfolding with_event
Write-IsKeyed (quiet e f) k = record { keyed = λ j x h. k.keyed j x (rw (← e) h) }
Write-IsKeyed {m} (append i session entry url t found opened e f g h) k = record {
  keyed = λ j x q. ground (
    arith,
    k.keyed j x,
    k.keyed i session found,
    get-put j i (with_event (switched session url) entry t) m.sessions,
  );
}
Write-IsKeyed {m} (update i session session' found u g h) k = record {
  keyed = λ j x q.
      ground (arith, k.keyed j x, k.keyed i session found, get-put j i session' m.sessions);
}
Write-IsKeyed {m} (create session absent e f l g h) k = record {
  keyed = λ j x q. ground (arith, k.keyed j x, get-put j session.id session m.sessions);
}
Write-IsKeyed {m} (compact i session seq found g h) k = record {
  keyed = λ j x q. ground (
    arith,
    k.keyed j x,
    k.keyed i session found,
    get-put j i (record session { snapshot_seq = seq }) m.sessions,
  );
}

pub Writes-IsKeyed : {m n : MemoryStore} → Writes m n → IsKeyed m → IsKeyed n
Writes-IsKeyed start k = k
Writes-IsKeyed (then_write v step) k = Write-IsKeyed step (Writes-IsKeyed v k)
