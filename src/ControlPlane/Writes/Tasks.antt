-- ===== src/ControlPlane/Writes/Tasks.antt =====
-- internal/controlplane/store.go: what the calls on the tasks of a session have in common.
use mathlib.Core.Path.{subst}
use remote_dev_skillkit.Prelude.{
  ℕ, String, Bool, true, false, Option, none, some, List, ◌≡◌, refl, string_eq, get, get_or_of-get,
  arith, if◌then◌else◌, find_indexed,
}
use remote_dev_skillkit.Exec.{ok, pure, lift, ◌>>=◌}
use remote_dev_skillkit.ControlPlane.Protocol.{TaskStatus, task_status_eq, event_type_eq}
use remote_dev_skillkit.ControlPlane.Session.{Session, Task, TaskRecord}
use remote_dev_skillkit.ControlPlane.World.{World}
use remote_dev_skillkit.ControlPlane.Store.{
  MemoryStore, Store, State, no_session, now, session_expired,
}
use remote_dev_skillkit.ControlPlane.Lifecycle.{refuse_expired}
use remote_dev_skillkit.ControlPlane.Tasks.{transition, find_task_locked, has_id}
use remote_dev_skillkit.ControlPlane.Work.{
  replace_task, refuse_if_expired, refuse_expired_over, task_and_event_locked,
}
use remote_dev_skillkit.ControlPlane.Writes.{
  Write, update, Advances, stays, moves, TasksStep, advance, EndpointsStep, Updates,
}
use remote_dev_skillkit.ControlPlane.Writes.Rules.{
  Refines, IsQuiet, IsQuiet-pure, IsQuiet-require, IsQuiet-bind, Refines-bind_quiet,
  IsQuiet-session_expired,
}
use remote_dev_skillkit.ControlPlane.Writes.Guards.{IsQuiet-find_session, Refines-assoc}
use remote_dev_skillkit.ControlPlane.Writes.Lifecycle.{refuse_expired-Refines}

-- A session whose tasks alone change.
pub tasks-Updates :
    (session : Session) (ts : List Task)
    → TasksStep session.endpoints session.tasks ts
    → Updates session (record session { tasks = ts })
tasks-Updates session ts step = record {
  id = refl;
  capabilities = refl;
  join_policy = refl;
  last_seq = refl;
  terminal = λ h. h;
  tasks = step;
  endpoints = EndpointsStep.same refl;
}

pub replace-Write :
    (session_id task_id : String) (x : MemoryStore) (session : Session) (t u : Task) (i : ℕ)
    → get session_id x.sessions ≡ some session
    → find_indexed (has_id task_id) 0 session.tasks ≡ some (t, i)
    → Advances t u
    → Write x (replace_task session_id i u x)
unfolding replace_task
replace-Write session_id task_id x session t u i found hit step =
    rw (get_or_of-get session_id no_session session x.sessions found) (
      update session_id session _ found
        (tasks-Updates session _ (advance task_id t u i hit step refl)) refl refl)

pub IsQuiet-find_task :
    (session_id task_id : String) → IsQuiet (find_task_locked session_id task_id)
unfolding find_task_locked
IsQuiet-find_task session_id task_id = IsQuiet-bind _ _ (IsQuiet-find_session session_id) λ session.
    IsQuiet-bind _ _ (IsQuiet-require (find_indexed (has_id task_id) 0 session.tasks) _)
      λ hit. IsQuiet-pure _

found_task :
    (session_id task_id : String) (s : State) (a : Task × ℕ × Session)
    → (find_task_locked session_id task_id s).0 ≡ ok a
    → (get session_id s.sessions ≡ some a.2)
      × (find_indexed (has_id task_id) 0 a.2.tasks ≡ some (a.0, a.1))
unfolding find_task_locked
found_task session_id task_id s (t, i, session) h = ground arith

pub find_task-Refines :
    {B : Type 0} (x : MemoryStore) (session_id task_id : String) (f : Task × ℕ × Session → Store B)
    → ((session : Session) (t : Task) (i : ℕ)
        → get session_id x.sessions ≡ some session
        → find_indexed (has_id task_id) 0 session.tasks ≡ some (t, i)
        → Refines x (f (t, i, session)))
    → Refines x (find_task_locked session_id task_id >>= f)
find_task-Refines x session_id task_id f h =
    Refines-bind_quiet x (find_task_locked session_id task_id) f
      (IsQuiet-find_task session_id task_id)
      λ a s e.
        let (found, hit) = found_task session_id task_id (record s { store = x }) a e in
        h a.2 a.0 a.1 found hit

pub IsQuiet-task_and_event :
    (session_id : String) (r : TaskRecord) → IsQuiet (task_and_event_locked session_id r)
unfolding task_and_event_locked
IsQuiet-task_and_event session_id r =
    IsQuiet-bind _ _ (IsQuiet-find_task session_id r.task_id) λ found.
      IsQuiet-bind _ _ (record { at = λ s. (IsQuiet-require _ _).at s }) λ event. IsQuiet-pure _

module _ ⦃w : World⦄ where
  refuse_over-Refines :
      {B : Type 0} (x : MemoryStore) (session_id : String) (o : Option Session)
      (f : Unit {0} → Store B)
      → Refines x (f tt)
      → Refines x (refuse_expired_over o session_id >>= f)
  refuse_over-Refines x session_id none f h = h
  refuse_over-Refines x session_id (some session) f h =
      Refines-assoc x (session_expired session) (λ expired. refuse_expired expired session_id) f
        (Refines-bind_quiet x (session_expired session) _ (IsQuiet-session_expired session)
          λ expired _ _. refuse_expired-Refines x expired session_id f (λ _. h))

  pub refuse_if_expired-Refines :
      {B : Type 0} (x : MemoryStore) (session_id : String) (f : Unit {0} → Store B)
      → Refines x (f tt)
      → Refines x (refuse_if_expired session_id >>= f)
  unfolding refuse_if_expired
  refuse_if_expired-Refines x session_id f h = record {
    at = (refuse_over-Refines x session_id (get session_id x.sessions) f h).at;
  }

  -- The transition that a task makes on the way, or none.
  advance_if : Bool → TaskStatus → Task → Store Task
  advance_if b next t = if b then (do now_is ← now; lift (transition t next now_is)) else pure t

  moves_if :
      (b : Bool) (next : TaskStatus) (t u : Task) (s : State)
      → (advance_if b next t s).0 ≡ ok u
      → Advances t u
  unfolding advance_if now
  moves_if true next t u s e = moves {u = t} next (w.clock s.reads) stays e
  moves_if false next t u s e = subst (Advances t) (ground arith) stays

  IsQuiet-advance_if : (b : Bool) (next : TaskStatus) (t : Task) → IsQuiet (advance_if b next t)
  unfolding advance_if now
  IsQuiet-advance_if true next t = record { at = λ s. refl }
  IsQuiet-advance_if false next t = record { at = λ s. refl }

  pub Refines-advance :
      {B : Type 0} (x : MemoryStore) (b : Bool) (next : TaskStatus) (t : Task) (f : Task → Store B)
      → ((u : Task) → Advances t u → Refines x (f u))
      → Refines x ((if b then (do now_is ← now; lift (transition t next now_is)) else pure t) >>= f)
  unfolding advance_if
  Refines-advance x b next t f h =
      Refines-bind_quiet x (advance_if b next t) f (IsQuiet-advance_if b next t)
        λ u s e. h u (moves_if b next t u (record s { store = x }) e)
