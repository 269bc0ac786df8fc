-- ===== src/ControlPlane/Invariants/Tasks.antt =====
-- internal/controlplane/store.go: what becomes of a task.
use mathlib.Core.Path.{subst}
use remote_dev_skillkit.Prelude.{
  ℕ, zero, suc, ◌+◌, ◌≤◌, String, true, some, List, [], ◌∷◌, ◌++◌, map, ◌≡◌, refl, ◌∙◌, ◌==◌,
  string_eq, get, put, get-put, set, find_indexed, arith, Bool-cases, inl, inr,
}
use remote_dev_skillkit.Exec.{Result, ok, err}
use remote_dev_skillkit.ControlPlane.Protocol.{TaskStatus}
use remote_dev_skillkit.ControlPlane.Session.{Session, Endpoint, Task, Time}
use remote_dev_skillkit.ControlPlane.World.{World}
use remote_dev_skillkit.ControlPlane.Store.{MemoryStore, State}
use remote_dev_skillkit.ControlPlane.Append.{with_event}
use remote_dev_skillkit.ControlPlane.Tasks.{transition, has_id, is_terminal}
use remote_dev_skillkit.ControlPlane.Lifecycle.{canceled_at, kept_or_moved}
use remote_dev_skillkit.ControlPlane.Writes.{
  Write, Writes, quiet, append, update, create, compact, start, then_write, IsKeyed, Advances,
  stays, moves, TasksStep, same, advance, cancel_all, offer,
}
use remote_dev_skillkit.ControlPlane.Machine.{Call, run, run-Writes}

pub Advances-trans : {t u v : Task} → Advances t u → Advances u v → Advances t v
Advances-trans a stays = a
Advances-trans a (moves next now b e) = moves next now (Advances-trans a b) e

transition-id :
    (t u : Task) (next : TaskStatus) (now : Time) → transition t next now ≡ ok u → u.id ≡ t.id
unfolding transition
transition-id t u next now e = ground arith

Advances-id : {t u : Task} → Advances t u → u.id ≡ t.id
Advances-id stays = refl
Advances-id {t} (moves {u} {v} next now a e) = transition-id u v next now e ∙ Advances-id a

-- A task that has ended makes no step.
pub Advances-ended : {t u : Task} → Advances t u → is_terminal t.status ≡ true → u ≡ t
unfolding transition
Advances-ended stays h = refl
Advances-ended {t} (moves {u} {v} next now a e) h = ground (arith, Advances-ended a h)

canceled-Advances : (now : Time) (t : Task) → Advances t (canceled_at now t)
unfolding canceled_at
canceled-Advances now t = by_result (transition t TaskStatus.canceled now) refl
  where
    by_result :
        (r : Result Task)
        → transition t TaskStatus.canceled now ≡ r
        → Advances t (kept_or_moved t r)
    by_result (ok u) e = moves TaskStatus.canceled now stays e
    by_result (err c) e = stays

-- The first task with an id in a list, and what has become of it in another list.
abbrev pub Becomes : String → ℕ → List Task → List Task → Type 0
Becomes task_id k ts us =
    (t : Task) (i : ℕ)
    → find_indexed (has_id task_id) k ts ≡ some (t, i)
    → (u : Task) × (find_indexed (has_id task_id) k us ≡ some (u, i)) × Advances t u

find-bound :
    (task_id : String) (k : ℕ) (ts : List Task) (t : Task) (i : ℕ)
    → find_indexed (has_id task_id) k ts ≡ some (t, i)
    → k ≤ i
find-bound task_id k [] t i h = ground arith
find-bound task_id k (x ∷ ts) t i h = ground (arith, find-bound task_id (suc k) ts t i)

cancel-Becomes :
    (task_id : String) (now : Time) (k : ℕ) (ts : List Task)
    → Becomes task_id k ts (map (canceled_at now) ts)
cancel-Becomes task_id now k [] t i h = ground arith
cancel-Becomes task_id now k (x ∷ ts) t i h = elim (Bool-cases (x.id == task_id)) [
  | inl hit ↦ (
    canceled_at now x,
    ground (arith, h, hit, Advances-id (canceled-Advances now x)),
    subst (λ y. Advances y (canceled_at now x)) (ground arith) (canceled-Advances now x),
  )
  | inr miss ↦
      let (u, found, a) = cancel-Becomes task_id now (suc k) ts t i (ground arith) in
      (u, ground (arith, miss, found, Advances-id (canceled-Advances now x)), a)
]

offer-Becomes :
    (task_id : String) (new : Task) (k : ℕ) (ts : List Task) → Becomes task_id k ts (ts ++ new ∷ [])
offer-Becomes task_id new k [] t i h = ground arith
offer-Becomes task_id new k (x ∷ ts) t i h = elim (Bool-cases (x.id == task_id)) [
  | inl hit ↦ (t, ground arith, stays)
  | inr miss ↦
      let (u, found, a) = offer-Becomes task_id new (suc k) ts t i (ground arith) in
      (u, ground arith, a)
]

advance-Becomes :
    (task_id id : String) (u v : Task) (k j : ℕ) (ts : List Task)
    → find_indexed (has_id id) k ts ≡ some (u, k + j)
    → Advances u v
    → Becomes task_id k ts (set ts j v)
advance-Becomes task_id id u v k j [] hit a t i h = ground arith
advance-Becomes task_id id u v k zero (x ∷ ts) hit a t i h = elim (Bool-cases (x.id == task_id)) [
  | inl mine ↦ (
    v,
    ground (arith, mine, h, first, Advances-id a),
    subst (λ y. Advances y v) (ground (arith, mine, h, first)) a,
  )
  | inr other ↦ (t, ground (arith, other, h, first, Advances-id a), stays)
]
  where
    first : x ≡ u
    first = ground (arith, hit, find-bound id (suc k) ts u (k + 0))
advance-Becomes task_id id u v k (suc j) (x ∷ ts) hit a t i h =
    elim (Bool-cases (x.id == task_id)) [
      | inl mine ↦ (t, ground (arith, mine, h), stays)
      | inr other ↦
          let (y, found, b) =
            advance-Becomes task_id id u v (suc k) j ts later a t i (ground (arith, other, h)) in
          (y, ground (arith, other, found), b)
    ]
  where
    later : find_indexed (has_id id) (suc k) ts ≡ some (u, suc k + j)
    later = ground (arith, hit)

step-Becomes :
    (task_id : String) (es : List Endpoint) (ts us : List Task)
    → TasksStep es ts us
    → Becomes task_id 0 ts us
step-Becomes task_id es ts us (same e) t i h = (t, rw e h, stays)
step-Becomes task_id es ts us (advance id u v j hit a e) t i h =
    rw e (advance-Becomes task_id id u v 0 j ts (ground (arith, hit)) a t i h)
step-Becomes task_id es ts us (cancel_all now e) t i h =
    rw e (cancel-Becomes task_id now 0 ts t i h)
step-Becomes task_id es ts us (offer new e s g r q) t i h =
    rw q (offer-Becomes task_id new 0 ts t i h)

-- The task `t` of a session, later.
abbrev pub Lives : String → String → MemoryStore → Task → ℕ → Type 0
Lives session_id task_id m t i =
    (session : Session) × (u : Task) × (get session_id m.sessions ≡ some session)
    × (find_indexed (has_id task_id) 0 session.tasks ≡ some (u, i))
    × Advances t u

-- A write under one id, where the tasks of the old session live on in the new.
lives-put :
    (session_id task_id id : String) (session old new : Session) (m : MemoryStore) (t : Task)
    (i : ℕ)
    → get session_id m.sessions ≡ some session
    → find_indexed (has_id task_id) 0 session.tasks ≡ some (t, i)
    → get id m.sessions ≡ some old
    → Becomes task_id 0 old.tasks new.tasks
    → (later : Session) × (u : Task) × (get session_id (put id new m.sessions) ≡ some later)
      × (find_indexed (has_id task_id) 0 later.tasks ≡ some (u, i))
      × Advances t u
lives-put session_id task_id id session old new m t i found hit there b =
    elim (string_eq.dec id session_id) [
      | yes e ↦
          let (u, hit', a) = b t i (rw (this e) hit) in
          (new, u, rw get-put (ground (arith, e)), hit', a)
      | no other ↦ (session, t, rw get-put (ground (arith, other, found)), hit, stays)
    ]
  where
    this : id ≡ session_id → old ≡ session
    this e = ground (arith, e, found, there)

Write-Lives :
    {m n : MemoryStore} (session_id task_id : String) (session : Session) (t : Task) (i : ℕ)
    → get session_id m.sessions ≡ some session
    → find_indexed (has_id task_id) 0 session.tasks ≡ some (t, i)
    → Write m n
    → Lives session_id task_id n t i
unfolding with_event
Write-Lives session_id task_id session t i found hit (quiet e f) =
    (session, t, rw e found, hit, stays)
Write-Lives {m} session_id task_id session t i found hit
      (append id old entry url now there o q k e f) =
    rw e
      (lives-put session_id task_id id session old _ m t i found hit there (λ x j h. (x, h, stays)))
Write-Lives {m} session_id task_id session t i found hit (update id old new there u e f) = rw e (
    lives-put session_id task_id id session old new m t i found hit there
      (step-Becomes task_id old.endpoints old.tasks new.tasks u.tasks))
Write-Lives {m} session_id task_id session t i found hit (create new absent z p q e f) =
    (session, t, rw (e, get-put) (ground (arith, absent, found)), hit, stays)
Write-Lives {m} session_id task_id session t i found hit (compact id old seq there e f) =
    rw e
      (lives-put session_id task_id id session old _ m t i found hit there (λ x j h. (x, h, stays)))

pub Writes-Lives :
    {m n : MemoryStore} (session_id task_id : String) (session : Session) (t : Task) (i : ℕ)
    → get session_id m.sessions ≡ some session
    → find_indexed (has_id task_id) 0 session.tasks ≡ some (t, i)
    → Writes m n
    → Lives session_id task_id n t i
Writes-Lives session_id task_id session t i found hit start = (session, t, found, hit, stays)
Writes-Lives session_id task_id session t i found hit (then_write w step) =
    let (mid, u, there, hit', a) = Writes-Lives session_id task_id session t i found hit w in
    let (later, v, there', hit'', b) = Write-Lives session_id task_id mid u i there hit' step in
    (later, v, there', hit'', Advances-trans a b)

module _ ⦃w : World⦄ where
  -- Whatever calls are made, in whatever order, on a store whose sessions stand under their own
  -- ids: the first task with an id in a session is there later at the same place, and what it has
  -- become it became by transitions that `Task.Transition` allows.
  pub run-Lives :
      (cs : List Call) (s : State) (session_id task_id : String) (session : Session) (t : Task)
      (i : ℕ)
      → IsKeyed s.store
      → get session_id s.sessions ≡ some session
      → find_indexed (has_id task_id) 0 session.tasks ≡ some (t, i)
      → Lives session_id task_id (run cs s).store t i
  run-Lives cs s session_id task_id session t i k found hit =
      Writes-Lives session_id task_id session t i found hit (run-Writes cs s k)

  -- Whatever calls are made, in whatever order, on a store whose sessions stand under their own
  -- ids: a task that has succeeded, failed or been canceled is there later without any change.
  pub run-ended_task :
      (cs : List Call) (s : State) (session_id task_id : String) (session : Session) (t : Task)
      (i : ℕ)
      → IsKeyed s.store
      → get session_id s.sessions ≡ some session
      → find_indexed (has_id task_id) 0 session.tasks ≡ some (t, i)
      → is_terminal t.status ≡ true
      → (later : Session) × (get session_id (run cs s).sessions ≡ some later)
        × (find_indexed (has_id task_id) 0 later.tasks ≡ some (t, i))
  run-ended_task cs s session_id task_id session t i k found hit ended =
      let (later, u, there, hit', a) = run-Lives cs s session_id task_id session t i k found hit in
      (later, there, rw (← Advances-ended a ended) hit')
