-- ===== src/Tests/Workspace.antt =====
-- Two processes that acquire the lock of a workspace.
use remote_dev_skillkit.Prelude.{◌<◌, ◌≤◌, none, some, [], ◌∷◌, ◌≡◌, refl, pos, arith}
use remote_dev_skillkit.Workspace.{Lock, Disk, lock, opening, holding, acquire_step, acquire_alone}
use remote_dev_skillkit.Workspace.Acquiring.{
  left_calls, acquire_step-ends, Outcome, acquire_alone-Outcome,
}
use remote_dev_skillkit.Workspace.Sharing.{turns, owners, turns-exclusive}
use remote_dev_skillkit.Workspace.Race.{starting, race, turns-race}

abbrev mine : Lock
mine = record {
  schema_version = "rdev.workspace-lock.v1";
  lock_id = "wlk_1";
  host_id = "host";
  task_id = "task";
  repo_root = "/repo";
  worktree_path = "";
  base_ref = "";
  branch = "";
  owner_adapter = "";
  created_at = pos 1_000;
  expires_at = pos 9_000;
}

abbrev yours : Lock
yours = record mine { task_id = "other" }

abbrev old : Lock
old = record mine { expires_at = pos 500 }

abbrev disk : Disk
disk = record { entry = some (3, lock old); next_inode = 4 }

acquire_step-ends_example :
    left_calls (acquire_step mine (pos 1_000) (opening 2) disk).0 < left_calls (opening 2)
acquire_step-ends_example = acquire_step-ends mine (pos 1_000) (opening 2) disk (ground arith)

acquire_alone-Outcome_example :
    Outcome mine
      (pos 1_000)
      (some (3, lock old))
      4
      (acquire_alone 8 mine (pos 1_000) (opening 2) disk)
acquire_alone-Outcome_example = acquire_alone-Outcome mine (pos 1_000) (some (3, lock old)) 4

turns-exclusive_example :
    owners
      (turns race
        (starting mine (pos 1_000) ∷ starting yours (pos 1_100) ∷ [])
        (record { entry = none; next_inode = 4 })).0
    ≤ 1
turns-exclusive_example =
    turns-exclusive (pos 1_100) race (starting mine (pos 1_000) ∷ starting yours (pos 1_100) ∷ [])
      (record { entry = none; next_inode = 4 }) (refl, (refl, tt))
      (ground arith, (ground arith, tt)) (refl, (refl, tt)) tt

turns-race_example :
    turns race (starting mine (pos 1_000) ∷ starting yours (pos 1_100) ∷ []) disk ≡ (
      record (starting mine (pos 1_000)) { stage = holding }
          ∷ record (starting yours (pos 1_100)) { stage = holding }
          ∷ [],
      record { entry = some (5, lock yours); next_inode = 6 },
    )
turns-race_example = turns-race mine yours old (pos 1_000) (pos 1_100) 3 4 refl refl refl
