-- ===== src/ControlPlane/Invariants/Logs.antt =====
-- internal/controlplane/store.go: the numbers of the events in a log.
use remote_dev_skillkit.Prelude.{
  ℕ, ◌+◌, ◌%◌, ◌^◌, ◌≤◌, ◌<◌, leb, String, Bool, true, false, some, List, [], ◌∷◌, ◌++◌, ◌≡◌, ◌≢◌,
  ◌==◌, string_eq, get, get_or, put, get-put, get_or-put, keep, arith, Bool-cases, inl, inr,
}
use remote_dev_skillkit.ControlPlane.Session.{Session, Event, Time}
use remote_dev_skillkit.ControlPlane.World.{World}
use remote_dev_skillkit.ControlPlane.Store.{MemoryStore, State, new_memory_store}
use remote_dev_skillkit.ControlPlane.Append.{with_event}
use remote_dev_skillkit.ControlPlane.Writes.{
  Write, Writes, quiet, append, update, create, compact, start, then_write, switched, IsKeyed,
}
use remote_dev_skillkit.ControlPlane.Invariants.Sessions.{Write-Remains}
use remote_dev_skillkit.ControlPlane.Machine.{Call, run, run-Writes}

-- The numbers of a log rise strictly from above `lo`, and none is above `hi`.
abbrev pub IsLog : ℕ → ℕ → List Event → Type 0
IsLog lo hi [] = lo ≤ hi
IsLog lo hi (e ∷ es) = (lo < e.seq) × IsLog e.seq hi es

IsLog-append :
    (lo hi : ℕ) (log : List Event) (e : Event)
    → IsLog lo hi log
    → hi < e.seq
    → IsLog lo e.seq (log ++ e ∷ [])
IsLog-append lo hi [] e h above = (omega arith, omega arith)
IsLog-append lo hi (x ∷ log) e (h, rest) above = (h, IsLog-append x.seq hi log e rest above)

IsLog-lower : (lo lo' hi : ℕ) (log : List Event) → lo ≤ lo' → IsLog lo' hi log → IsLog lo hi log
IsLog-lower lo lo' hi [] h g = omega arith
IsLog-lower lo lo' hi (x ∷ log) h (g, rest) = (omega arith, rest)

IsLog-keep :
    (p : Event → Bool) (lo hi : ℕ) (log : List Event) → IsLog lo hi log → IsLog lo hi (keep p log)
IsLog-keep p lo hi [] h = h
IsLog-keep p lo hi (x ∷ log) (h, rest) = elim (Bool-cases (p x)) [
  | inl kept ↦ rw kept (h, IsLog-keep p x.seq hi log rest)
  | inr left ↦
      rw left (IsLog-lower lo x.seq hi (keep p log) (omega arith) (IsLog-keep p x.seq hi log rest))
]

-- Every log is numbered so, up to the last number of its session.
pub record IsSequenced (m : MemoryStore) : Type 0 where
  pub log :
      (session_id : String) (session : Session)
      → get session_id m.sessions ≡ some session
      → IsLog 0 session.last_seq (get_or session_id [] m.events)

-- No session has used the last number of a uint64.
pub record HasNumbers (m : MemoryStore) : Type 0 where
  pub below :
      (session_id : String) (session : Session)
      → get session_id m.sessions ≡ some session
      → session.last_seq + 1 < 2 ^ 64

-- The log of one session after a step that writes under another id, or the same.
logged_put :
    (m : MemoryStore) (id session_id : String) (new session : Session) (log : List Event)
    → IsSequenced m
    → IsLog 0 new.last_seq log
    → get session_id (put id new m.sessions) ≡ some session
    → IsLog 0 session.last_seq (get_or session_id [] (put id log m.events))
logged_put m id session_id new session log q fits found = elim (string_eq.dec id session_id) [
  | yes same ↦ rw (get_or-put, same_key same, this same) fits
  | no other ↦ rw (get_or-put, other_key other) (q.log session_id session (there other))
]
  where
    same_key : id ≡ session_id → (id == session_id) ≡ true
    same_key e = ground arith

    other_key : id ≢ session_id → (id == session_id) ≡ false
    other_key e = ground arith

    this : id ≡ session_id → session ≡ new
    this e = ground (arith, get-put session_id id new m.sessions)

    there : id ≢ session_id → get session_id m.sessions ≡ some session
    there e = ground (arith, get-put session_id id new m.sessions)

-- The same, where the step leaves the logs alone.
kept_put :
    (m : MemoryStore) (id session_id : String) (old new session : Session)
    → IsSequenced m
    → get id m.sessions ≡ some old
    → new.last_seq ≡ old.last_seq
    → get session_id (put id new m.sessions) ≡ some session
    → IsLog 0 session.last_seq (get_or session_id [] m.events)
kept_put m id session_id old new session q hit same found = elim (string_eq.dec id session_id) [
  | yes e ↦ rw (this e, same, ← e) (q.log id old hit)
  | no other ↦ q.log session_id session (there other)
]
  where
    this : id ≡ session_id → session ≡ new
    this e = ground (arith, get-put session_id id new m.sessions)

    there : id ≢ session_id → get session_id m.sessions ≡ some session
    there e = ground (arith, get-put session_id id new m.sessions)

pub appended-last_seq :
    (session : Session) (url : String) (entry : Event) (t : Time)
    → entry.seq ≡ (session.last_seq + 1) % 2 ^ 64
    → session.last_seq + 1 < 2 ^ 64
    → (session.last_seq < entry.seq)
      × ((with_event (switched session url) entry t).last_seq ≡ entry.seq)
unfolding with_event
appended-last_seq session url entry t numbered room = ground arith

Write-IsSequenced : {m n : MemoryStore} → Write m n → HasNumbers m → IsSequenced m → IsSequenced n
Write-IsSequenced (quiet e f) b q = record { log = λ i s h. rw f (q.log i s (rw (← e) h)) }
Write-IsSequenced {m} (append id old entry url t hit o numbered i e f) b q = record {
  log = λ j s h.
      let (above, last) = appended-last_seq old url entry t numbered (b.below id old hit) in
      rw f (
        logged_put m id j (with_event (switched old url) entry t) s _ q
          (rw last (IsLog-append 0 old.last_seq _ entry (q.log id old hit) above)) (rw (← e) h));
}
Write-IsSequenced {m} (update id old new hit u e f) b q = record {
  log = λ j s h. rw f (kept_put m id j old new s q hit u.last_seq (rw (← e) h));
}
Write-IsSequenced {m} (create new absent zero t p e f) b q = record {
  log = λ j s h. rw f (logged_put m new.id j new s [] q (omega arith) (rw (← e) h));
}
Write-IsSequenced {m} (compact id old seq hit e f) b q = record {
  log = λ j s h. rw f (
      logged_put m id j (record old { snapshot_seq = seq }) s _ q
        (IsLog-keep (λ x. leb seq x.seq) 0 old.last_seq _ (q.log id old hit)) (rw (← e) h));
}

-- Numbers are never given back, so a store that has some left had some left before.
pub HasNumbers-before : {m n : MemoryStore} → Write m n → HasNumbers n → HasNumbers m
HasNumbers-before step b = record {
  below = λ i s h.
      let (later, hit, e) = Write-Remains i s h step in
      omega (arith, e.last_seq, b.below i later hit);
}

pub Writes-IsSequenced :
    {m n : MemoryStore} → Writes m n → HasNumbers n → IsSequenced m → IsSequenced n
Writes-IsSequenced start b q = q
Writes-IsSequenced (then_write w step) b q =
    let before = HasNumbers-before step b in
    Write-IsSequenced step before (Writes-IsSequenced w before q)

pub new-IsKeyed : IsKeyed new_memory_store
unfolding get
new-IsKeyed = record { keyed = λ i s h. ground arith }

pub new-IsSequenced : IsSequenced new_memory_store
unfolding get
new-IsSequenced = record { log = λ i s h. ground arith }

module _ ⦃w : World⦄ where
  -- Whatever calls are made, in whatever order, from an empty store: as long as no session has used
  -- up the numbers of a uint64, the events that each session's log holds have strictly rising
  -- numbers from 1 on, and none is above the last number of the session.
  pub run-IsSequenced :
      (cs : List Call) (s : State)
      → s.store ≡ new_memory_store
      → HasNumbers (run cs s).store
      → IsSequenced (run cs s).store
  run-IsSequenced cs s empty b =
      Writes-IsSequenced (run-Writes cs s (rw empty new-IsKeyed)) b (rw empty new-IsSequenced)
