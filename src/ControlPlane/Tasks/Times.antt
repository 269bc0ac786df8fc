-- ===== src/ControlPlane/Tasks/Times.antt =====
-- internal/controlplane/session.go: the times that `Task.Transition` keeps.
use remote_dev_skillkit.Prelude.{true, ◌≡◌, is_some, ◌==◌, ◌||◌, arith}
use remote_dev_skillkit.Exec.{ok}
use remote_dev_skillkit.ControlPlane.Protocol.{TaskStatus, task_status_eq}
use remote_dev_skillkit.ControlPlane.Session.{Task, Time}
use remote_dev_skillkit.ControlPlane.Tasks.{is_terminal, transition}

-- A task has an end exactly when it has ended, and a start once it runs.
pub record IsTimed (t : Task) : Type 0 where
  pub ended : is_some t.ended_at ≡ is_terminal t.status
  pub started :
      (t.status == TaskStatus.running || t.status == TaskStatus.paused) ≡ true
      → is_some t.started_at ≡ true

-- A transition of a task keeps its times in line with its status.
pub transition-IsTimed :
    (t u : Task) (next : TaskStatus) (now : Time)
    → transition t next now ≡ ok u
    → IsTimed t
    → IsTimed u
unfolding transition
transition-IsTimed t u next now e h = record {
  ended = ground (arith, h.ended);
  started = λ g. ground (arith, h.started);
}
