-- ===== src/Workspace.antt =====
-- internal/workspace/lock.go: the lock file of a workspace. `Acquire` works on the file by system
-- calls that other processes' calls may come between, so it is a sequence of steps; a file that has been
-- removed keeps its inode for the process that has it open. Paths, the id of a lock and the file's
-- encoding come from outside, and no system call fails but for a file that is or is not there.
pub mod Acquiring
pub mod Sharing
pub mod Race
use Prim.Native.String.{◌++◌ as join}
use remote_dev_skillkit.Prelude.{
  ℕ, zero, suc, ◌+◌, ◌-◌, String, Bool, true, false, not, ◌&&◌, Option, none, some, ℤ, pos, ◌==◌,
  ◌!=◌, string_eq, nat_eq, if◌then◌else◌,
}
use remote_dev_skillkit.Prelude.Int.{ltb_ℤ, ◌+ℤ◌}
use remote_dev_skillkit.Prelude.Text.{trim_space}
use remote_dev_skillkit.Prelude.Errors.{Checked, passed, refused, required, refuse_if, ◌>>=◌, ◌>>◌}
use remote_dev_skillkit.ControlPlane.Session.{Time}
use remote_dev_skillkit.ControlPlane.World.{before}

pub record Lock : Type 0 where
  pub schema_version : String
  pub lock_id : String
  pub host_id : String
  pub task_id : String
  pub repo_root : String
  pub worktree_path : String
  pub base_ref : String
  pub branch : String
  pub owner_adapter : String
  pub created_at : Time
  pub expires_at : Time

pub record LockOptions : Type 0 where
  pub host_id : String
  pub task_id : String
  pub worktree_path : String
  pub base_ref : String
  pub branch : String
  pub owner_adapter : String
  pub ttl : ℤ

pub data LockError : Type 0 where
  missing_task_id missing_host_id bad_root : LockError
  -- The file is gone when it is read.
  not_found : LockError
  undecodable : LockError
  unsupported_schema : String → LockError
  -- `ErrLocked` with the holder's task, and after the last attempt.
  held_by : String → LockError
  changed : LockError
  owner_mismatch : LockError

abbrev pub lock_schema_version : String
lock_schema_version = "rdev.workspace-lock.v1"

-- `CanonicalDir` of the root, `newLockID` and `filepath.Clean`.
pub record Paths : Type 0 where
  pub canonical : Option String
  pub lock_id : String
  pub clean : String → String

-- The lock that `Acquire` writes. A duration that is not positive is two hours.
unfoldable pub new_lock : Paths → LockOptions → Time → Checked LockError Lock
new_lock paths o now = do
  refuse_if (trim_space o.task_id == "") missing_task_id
  refuse_if (trim_space o.host_id == "") missing_host_id
  root ← required paths.canonical bad_root
  passed (record {
    schema_version = lock_schema_version;
    lock_id = paths.lock_id;
    host_id = o.host_id;
    task_id = o.task_id;
    repo_root = root;
    worktree_path = if trim_space o.worktree_path == "" then "" else paths.clean o.worktree_path;
    base_ref = trim_space o.base_ref;
    branch = trim_space o.branch;
    owner_adapter = trim_space o.owner_adapter;
    created_at = now;
    expires_at = now +ℤ (if ltb_ℤ (pos 0) o.ttl then o.ttl else pos 7_200_000_000_000);
  })

-- What a lock file holds: nothing yet, a lock, or a text that is no lock.
pub data Content : Type 0 where
  empty : Content
  lock : Lock → Content
  other : Content

-- The file at the lock's path with its inode, and the next inode.
pub record Disk : Type 0 where
  pub entry : Option (ℕ × Content)
  pub next_inode : ℕ

unfoldable pub read_lock : Option (ℕ × Content) → Checked LockError Lock
read_lock none = refused not_found
read_lock (some (i, empty)) = refused undecodable
read_lock (some (i, other)) = refused undecodable
read_lock (some (i, lock l)) = do
  refuse_if (l.schema_version != lock_schema_version) (unsupported_schema l.schema_version)
  passed l

-- Where `Acquire` stands; a number is of the attempts that are left.
pub data Stage : Type 0 where
  opening reading removing : ℕ → Stage
  -- The inode of the file that was made.
  writing : ℕ → Stage
  holding : Stage
  failed : LockError → Stage

pub record Acquirer : Type 0 where
  pub wanted : Lock
  pub now : Time
  pub stage : Stage

-- After the reading of the file: an error, a lock that is in force, or an expired one.
abbrev pub after_read : Time → ℕ → Checked LockError Lock → Stage
after_read now n (refused e) = failed e
after_read now n (passed l) =
    if before now l.expires_at then failed (held_by l.task_id) else removing n

-- `os.OpenFile` with `O_CREATE|O_EXCL`
abbrev pub open_file : ℕ → Option (ℕ × Content) → Disk → Stage × Disk
open_file n none d = (
  writing d.next_inode,
  record { entry = some (d.next_inode, empty); next_inode = d.next_inode + 1 },
)
open_file n (some e) d = (reading n, d)

-- A write to an inode, which the path may no longer name.
abbrev pub written : ℕ → Lock → Option (ℕ × Content) → Option (ℕ × Content)
written i l none = none
written i l (some (j, c)) = if i == j then some (j, lock l) else some (j, c)

-- One system call of `Acquire`.
unfoldable pub acquire_step : Lock → Time → Stage → Disk → Stage × Disk
acquire_step l now (opening zero) d = (failed changed, d)
acquire_step l now (opening (suc n)) d = open_file (suc n) d.entry d
acquire_step l now (reading n) d = (after_read now n (read_lock d.entry), d)
acquire_step l now (removing n) d = (opening (n - 1), record d { entry = none })
acquire_step l now (writing i) d = (holding, record d { entry = written i l d.entry })
acquire_step l now holding d = (holding, d)
acquire_step l now (failed e) d = (failed e, d)

-- `Acquire` without another process in between, over a number of system calls.
unfoldable pub acquire_alone : ℕ → Lock → Time → Stage → Disk → Stage × Disk
acquire_alone zero l now s d = (s, d)
acquire_alone (suc k) l now s d =
    let (s', d') = acquire_step l now s d in acquire_alone k l now s' d'

unfoldable pub release : String → Bool → Disk → Checked LockError (Option Lock × Disk)
release task_id force d = released (read_lock d.entry) d.entry
  where
    removed : Lock → Checked LockError (Option Lock × Disk)
    removed l = passed (some l, record d { entry = none })

    released :
        Checked LockError Lock → Option (ℕ × Content) → Checked LockError (Option Lock × Disk)
    released r none = passed (none, d)
    released (refused e) (some x) = refused e
    released (passed l) (some x) = do
      refuse_if (not force && trim_space task_id != "" && l.task_id != task_id) owner_mismatch
      refuse_if (not force && trim_space task_id == "") owner_mismatch
      removed l
