-- ===== src/Workspace/Race.antt =====
-- internal/workspace/lock.go: two processes that find an expired lock.
use remote_dev_skillkit.Prelude.{ℕ, ◌+◌, false, some, List, [], ◌∷◌, ◌≡◌, nat_eq, string_eq, arith}
use native.Mathlib.Decide.{ℕ_discrete}
use remote_dev_skillkit.ControlPlane.Session.{Time}
use remote_dev_skillkit.ControlPlane.World.{before}
use remote_dev_skillkit.Workspace.{
  Lock, lock, read_lock, opening, holding, acquire_step, Acquirer, lock_schema_version,
}
use remote_dev_skillkit.Workspace.Sharing.{turn, turns}

abbrev pub starting : Lock → Time → Acquirer
starting l now = record { wanted = l; now = now; stage = opening 2 }

-- Both read the expired lock; the first one removes it, makes its own and returns; the second one then
-- removes that file.
abbrev pub race : List ℕ
race = 0 ∷ 0 ∷ 1 ∷ 1 ∷ 0 ∷ 0 ∷ 0 ∷ 1 ∷ 1 ∷ 1 ∷ []

-- Two processes that acquire a workspace whose lock has expired for both can both succeed: there is an
-- order of their system calls after which each of them holds the lock, and the file is the second one's.
pub turns-race :
    (a b old : Lock) (s t : Time) (i inode : ℕ)
    → old.schema_version ≡ lock_schema_version
    → before s old.expires_at ≡ false
    → before t old.expires_at ≡ false
    → turns race
        (starting a s ∷ starting b t ∷ [])
        (record { entry = some (i, lock old); next_inode = inode })
      ≡ (
        record (starting a s) { stage = holding } ∷ record (starting b t) { stage = holding } ∷ [],
        record { entry = some (inode + 1, lock b); next_inode = inode + 1 + 1 },
      )
unfolding turns turn acquire_step read_lock ℕ_discrete
turns-race a b old s t i inode known over_a over_b = ground (arith, known, over_a, over_b)
