-- ===== src/Workspace/Sharing.antt =====
-- internal/workspace/lock.go: several processes that acquire one lock, their system calls in any order.
use remote_dev_skillkit.Prelude.{
  ℕ, zero, suc, ◌+◌, ◌-◌, ◌≤◌, true, Option, none, some, List, [], ◌∷◌, ◌==◌, ◌!=◌, string_eq, ◌≡◌,
  nat_eq, refl, arith, Bool-cases, inl, inr, if◌then◌else◌, All, string_eq,
}
use remote_dev_skillkit.Prelude.Int.{◌≤ℤ◌}
use remote_dev_skillkit.ControlPlane.Session.{Time}
use remote_dev_skillkit.ControlPlane.World.{before}
use remote_dev_skillkit.Workspace.{
  Lock, Disk, Content, empty, lock, other, read_lock, Stage, opening, reading, removing, writing,
  holding, failed, after_read, written, acquire_step, Acquirer, lock_schema_version,
}

abbrev pub moved : Acquirer → Disk → Acquirer × Disk
moved a d = let (s, d') = acquire_step a.wanted a.now a.stage d in (record a { stage = s }, d')

-- One system call of the process at an index, which may be out of range.
unfoldable pub turn : ℕ → List Acquirer → Disk → List Acquirer × Disk
turn i [] d = ([], d)
turn i (a ∷ ps) d =
    let (rest, d') = turn (i - 1) ps d in
    let (first, d'') = moved a d in if i == 0 then (first ∷ ps, d'') else (a ∷ rest, d')

unfoldable pub turns : List ℕ → List Acquirer → Disk → List Acquirer × Disk
turns [] ps d = (ps, d)
turns (i ∷ is) ps d = let (ps', d') = turn i ps d in turns is ps' d'

-- Processes that have made the file and write or have written it.
abbrev pub is_owner : Stage → ℕ
is_owner (writing i) = 1
is_owner holding = 1
is_owner _ = 0

abbrev pub owners : List Acquirer → ℕ
owners [] = 0
owners (a ∷ ps) = is_owner a.stage + owners ps

abbrev is_there : Option (ℕ × Content) → ℕ
is_there none = 0
is_there (some e) = 1

abbrev IsNotRemoving : Stage → Type 0
IsNotRemoving (removing n) = ⊥
IsNotRemoving _ = Unit

module _ (t : Time) where
  -- A process whose clock has not passed `t`, and whose lock is in force until after it.
  record IsEarly (a : Acquirer) : Type 0 where
    not_after : a.now ≤ℤ t
    in_force : before t a.wanted.expires_at ≡ true
    keeps : IsNotRemoving a.stage

  abbrev pub IsInForce : Option (ℕ × Content) → Type 0
  IsInForce (some (i, lock l)) = before t l.expires_at ≡ true
  IsInForce _ = Unit

  read-kept :
      (now : Time) (n : ℕ) (e : Option (ℕ × Content))
      → now ≤ℤ t
      → IsInForce e
      → IsNotRemoving (after_read now n (read_lock e))
        × (is_owner (after_read now n (read_lock e)) ≡ 0)
  unfolding read_lock
  read-kept now n none early calm = (tt, refl)
  read-kept now n (some (i, empty)) early calm = (tt, refl)
  read-kept now n (some (i, other)) early calm = (tt, refl)
  read-kept now n (some (i, lock l)) early calm =
      elim (Bool-cases (l.schema_version != lock_schema_version)) [
        | inl foreign ↦ rw foreign (tt, refl)
        | inr known ↦
            let in_force : before now l.expires_at ≡ true = ground (arith, early, calm) in
            rw (known, in_force) (tt, refl)
      ]

  write-kept :
      (i : ℕ) (l : Lock) (e : Option (ℕ × Content))
      → before t l.expires_at ≡ true
      → IsInForce e
      → IsInForce (written i l e) × (is_there (written i l e) ≡ is_there e)
  write-kept i l none long calm = (tt, refl)
  write-kept i l (some (j, c)) long calm = elim (Bool-cases (i == j)) [
    | inl own ↦ rw own (long, refl)
    | inr lost ↦ rw lost (calm, refl)
  ]

  step-kept :
      (l : Lock) (now : Time) (s : Stage) (e : Option (ℕ × Content)) (n : ℕ)
      → now ≤ℤ t
      → before t l.expires_at ≡ true
      → IsNotRemoving s
      → IsInForce e
      → let r = acquire_step l now s (record { entry = e; next_inode = n }) in
        IsNotRemoving r.0
        × IsInForce r.1.entry
        × (is_owner r.0 + is_there e ≡ is_owner s + is_there r.1.entry)
  unfolding acquire_step
  step-kept l now (opening zero) e n early long keeps calm = (tt, calm, refl)
  step-kept l now (opening (suc k)) none n early long keeps calm = (tt, tt, refl)
  step-kept l now (opening (suc k)) (some e) n early long keeps calm = (tt, calm, refl)
  step-kept l now (reading k) e n early long keeps calm =
      let read = read-kept now k e early calm in (read.0, calm, ground (arith, read.1))
  step-kept l now (removing k) e n early long keeps calm = elim keeps [ ]
  step-kept l now (writing i) e n early long keeps calm =
      let write = write-kept i l e long calm in (tt, write.0, ground (arith, write.1))
  step-kept l now holding e n early long keeps calm = (tt, calm, refl)
  step-kept l now (failed x) e n early long keeps calm = (tt, calm, refl)

  turn-kept :
      (i : ℕ) (ps : List Acquirer) (d : Disk)
      → All IsEarly ps
      → IsInForce d.entry
      → let r = turn i ps d in
        All IsEarly r.0
        × IsInForce r.1.entry
        × (owners r.0 + is_there d.entry ≡ owners ps + is_there r.1.entry)
  unfolding turn
  turn-kept i [] d early calm = (tt, calm, refl)
  turn-kept i (a ∷ ps) d early calm =
      let one =
        step-kept a.wanted a.now a.stage d.entry d.next_inode early.0.not_after early.0.in_force
          early.0.keeps calm in
      let rest = turn-kept (i - 1) ps d early.1 calm in
      let first : IsEarly (moved a d).0 = record {
        not_after = early.0.not_after;
        in_force = early.0.in_force;
        keeps = one.0;
      } in
      elim (Bool-cases (i == 0)) [
        | inl here ↦ rw here ((first, early.1), one.1, ground (arith, one.2))
        | inr there ↦ rw there ((early.0, rest.0), rest.1, ground (arith, rest.2))
      ]

  turns-kept :
      (schedule : List ℕ) (ps : List Acquirer) (d : Disk)
      → All IsEarly ps
      → IsInForce d.entry
      → owners ps ≤ is_there d.entry
      → owners (turns schedule ps d).0 ≤ 1
  unfolding turns
  turns-kept [] ps d early calm few = ground (arith, few)
  turns-kept (i ∷ is) ps d early calm few =
      let (early', calm', balance) = turn-kept i ps d early calm in
      turns-kept is (turn i ps d).0 (turn i ps d).1 early' calm' (omega (arith, balance, few))

  owners-none : (ps : List Acquirer) → All (λ a. a.stage ≡ opening 2) ps → owners ps ≡ 0
  owners-none [] h = refl
  owners-none (a ∷ ps) h = ground (arith, h.0, owners-none ps h.1)

  starting-IsEarly :
      (ps : List Acquirer)
      → All (λ a. a.stage ≡ opening 2) ps
      → All (λ a. a.now ≤ℤ t) ps
      → All (λ a. before t a.wanted.expires_at ≡ true) ps
      → All IsEarly ps
  starting-IsEarly [] starts early long = tt
  starting-IsEarly (a ∷ ps) starts early long = (
    record { not_after = early.0; in_force = long.0; keeps = rw (starts.0) tt },
    starting-IsEarly ps starts.1 early.1 long.1,
  )

  -- Any number of processes that acquire one lock, with their system calls in any order, never have two
  -- of them past the making of the file, as long as no lock expires: there is a time that no process's
  -- clock has passed, and that lies before the expiry of every lock, the one in the file too.
  pub turns-exclusive :
      (schedule : List ℕ) (ps : List Acquirer) (d : Disk)
      → All (λ a. a.stage ≡ opening 2) ps
      → All (λ a. a.now ≤ℤ t) ps
      → All (λ a. before t a.wanted.expires_at ≡ true) ps
      → IsInForce d.entry
      → owners (turns schedule ps d).0 ≤ 1
  turns-exclusive schedule ps d starts early long calm =
      turns-kept schedule ps d (starting-IsEarly ps starts early long) calm
        (ground (arith, owners-none ps starts))
