-- ===== src/Workspace/Acquiring.antt =====
-- internal/workspace/lock.go: `Acquire` by itself.
use remote_dev_skillkit.Prelude.{
  ℕ, zero, suc, ◌+◌, ◌*◌, ◌<◌, true, false, Option, none, some, ◌!=◌, string_eq, ◌≡◌, ◌≢◌, nat_eq,
  refl, arith, ◌⊎◌, inl, inr, Bool-cases,
}
use native.Mathlib.Decide.{ℕ_discrete}
use remote_dev_skillkit.ControlPlane.Session.{Time}
use remote_dev_skillkit.ControlPlane.World.{before}
use remote_dev_skillkit.Workspace.{
  Lock, LockError, Disk, Content, empty, lock, other, read_lock, Stage, opening, reading, removing,
  writing, holding, failed, held_by, lock_schema_version, unsupported_schema, undecodable,
  acquire_step, acquire_alone,
}

-- How many system calls are left at most.
abbrev pub left_calls : Stage → ℕ
left_calls (opening n) = 3 * n + 2
left_calls (reading n) = 3 * n + 1
left_calls (removing n) = 3 * n
left_calls (writing i) = 1
left_calls holding = 0
left_calls (failed e) = 0

-- Every system call of `Acquire` leaves fewer to come, whatever other processes have done to the file
-- before it, until the lock is held or an error is answered: from its start there are at most eight.
pub acquire_step-ends :
    (l : Lock) (now : Time) (s : Stage) (d : Disk)
    → left_calls s ≢ 0
    → left_calls (acquire_step l now s d).0 < left_calls s
unfolding acquire_step
acquire_step-ends l now (opening zero) d h = ground arith
acquire_step-ends l now (opening (suc n)) d h = ground arith
acquire_step-ends l now (reading n) d h = ground arith
acquire_step-ends l now (removing n) d h = ground (arith, h)
acquire_step-ends l now (writing i) d h = ground arith
acquire_step-ends l now holding d h = ground arith
acquire_step-ends l now (failed e) d h = ground arith

-- What `Acquire` ends with when no other process touches the file, for each kind of file: not there, no
-- lock, a lock of another schema, one in force, and one that has expired. The conditions of the
-- three kinds of lock exclude each other.
abbrev pub Outcome : Lock → Time → Option (ℕ × Content) → ℕ → Stage × Disk → Type 0
Outcome l now none inode r =
    r ≡ (holding, record { entry = some (inode, lock l); next_inode = inode + 1 })
Outcome l now (some (i, lock old)) inode r =
    ((old.schema_version ≢ lock_schema_version)
      × (r ≡ (
        failed (unsupported_schema old.schema_version),
        record { entry = some (i, lock old); next_inode = inode },
      )))
    ⊎ (((old.schema_version ≡ lock_schema_version)
          × (before now old.expires_at ≡ true)
          × (r ≡ (
            failed (held_by old.task_id),
            record { entry = some (i, lock old); next_inode = inode },
          )))
        ⊎ ((old.schema_version ≡ lock_schema_version)
            × (before now old.expires_at ≡ false)
            × (r ≡ (holding, record { entry = some (inode, lock l); next_inode = inode + 1 }))))
Outcome l now (some (i, c)) inode r =
    r ≡ (failed undecodable, record { entry = some (i, c); next_inode = inode })

acquire_alone-done :
    (k : ℕ) (l : Lock) (now : Time) (d : Disk) → acquire_alone k l now holding d ≡ (holding, d)
unfolding acquire_alone acquire_step
acquire_alone-done zero l now d = refl
acquire_alone-done (suc k) l now d = acquire_alone-done k l now d

acquire_alone-failed :
    (k : ℕ) (l : Lock) (now : Time) (e : LockError) (d : Disk)
    → acquire_alone k l now (failed e) d ≡ (failed e, d)
unfolding acquire_alone acquire_step
acquire_alone-failed zero l now e d = refl
acquire_alone-failed (suc k) l now e d = acquire_alone-failed k l now e d

-- `Acquire` that runs undisturbed ends within eight system calls: it holds the lock where the file was not
-- there, or was a lock of the known schema that has expired, and the file then is its own; a lock in force,
-- a lock of another schema, and a file that is no lock, it leaves as they are, and fails with the
-- error for that.
pub acquire_alone-Outcome :
    (l : Lock) (now : Time) (e : Option (ℕ × Content)) (inode : ℕ)
    → Outcome l now e inode
        (acquire_alone 8 l now (opening 2) (record { entry = e; next_inode = inode }))
unfolding acquire_alone acquire_step read_lock ℕ_discrete
acquire_alone-Outcome l now none inode = ground arith
acquire_alone-Outcome l now (some (i, empty)) inode = refl
acquire_alone-Outcome l now (some (i, other)) inode = refl
acquire_alone-Outcome l now (some (i, lock old)) inode =
    elim (Bool-cases (old.schema_version != lock_schema_version)) [
      | inl foreign ↦ inl (ground (arith, foreign), rw foreign refl)
      | inr known ↦ elim (Bool-cases (before now old.expires_at)) [
        | inl in_force ↦ inr (inl (ground (arith, known), in_force, rw (known, in_force) refl))
        | inr over ↦ inr (inr (ground (arith, known), over, rw (known, over) (ground arith)))
      ]
    ]
