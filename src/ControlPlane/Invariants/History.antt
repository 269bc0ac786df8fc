-- ===== src/ControlPlane/Invariants/History.antt =====
-- internal/controlplane/store.go: what has happened in a session is not rewritten.
use mathlib.Core.List.{Memᴰ}
use remote_dev_skillkit.Prelude.{
  ℕ, ◌≤◌, leb, String, Bool, true, false, some, List, [], ◌∷◌, ◌++◌, ◌≡◌, ◌⊎◌, ◌≢◌, ◌==◌, string_eq,
  get, get_or, put, get_or-put, keep, arith, Bool-cases, inl, inr,
}
use remote_dev_skillkit.ControlPlane.Session.{Session, Event}
use remote_dev_skillkit.ControlPlane.World.{World}
use remote_dev_skillkit.ControlPlane.Store.{MemoryStore, State}
use remote_dev_skillkit.ControlPlane.Writes.{
  Write, Writes, quiet, append, update, create, compact, start, then_write, IsKeyed,
}
use remote_dev_skillkit.ControlPlane.Invariants.Sessions.{Writes-Remains}
use remote_dev_skillkit.ControlPlane.Invariants.Logs.{
  HasNumbers, HasNumbers-before, appended-last_seq,
}
use remote_dev_skillkit.ControlPlane.Machine.{Call, run, run-Writes}

-- The events of `n` up to a number were in the log before.
abbrev pub Past : String → ℕ → MemoryStore → MemoryStore → Type 0
Past session_id seq m n =
    (e : Event)
    → Memᴰ e (get_or session_id [] n.events)
    → e.seq ≤ seq
    → Memᴰ e (get_or session_id [] m.events)

Mem-keep : (p : Event → Bool) (e : Event) (log : List Event) → Memᴰ e (keep p log) → Memᴰ e log
Mem-keep p e [] h = h
Mem-keep p e (x ∷ log) h = elim (Bool-cases (p x)) [
  | inl kept ↦ both (Mem-keep p e log) (rw kept at h)
  | inr left ↦ Memᴰ.tail (Mem-keep p e log (rw left at h))
]
  where
    both : (Memᴰ e (keep p log) → Memᴰ e log) → Memᴰ e (x ∷ keep p log) → Memᴰ e (x ∷ log)
    both f (Memᴰ.head q) = Memᴰ.head q
    both f (Memᴰ.tail q) = Memᴰ.tail (f q)

Mem-append : (e y : Event) (log : List Event) → Memᴰ e (log ++ y ∷ []) → Memᴰ e log ⊎ (e ≡ y)
Mem-append e y [] (Memᴰ.head q) = inr q
Mem-append e y [] (Memᴰ.tail q) = inl q
Mem-append e y (x ∷ log) (Memᴰ.head q) = inl (Memᴰ.head q)
Mem-append e y (x ∷ log) (Memᴰ.tail q) = elim (Mem-append e y log q) [
  | inl h ↦ inl (Memᴰ.tail h)
  | inr h ↦ inr h
]

-- Under another id nothing changes.
under_put :
    (session_id id : String) (seq : ℕ) (log : List Event) (m n : MemoryStore)
    → n.events ≡ put id log m.events
    → (id ≡ session_id
        → (e : Event) → Memᴰ e log
        → e.seq ≤ seq
        → Memᴰ e (get_or session_id [] m.events))
    → Past session_id seq m n
under_put session_id id seq log m n f here e h below = elim (string_eq.dec id session_id) [
  | yes same ↦ here same e (rw (f, get_or-put, same_key same) at h) below
  | no other ↦ rw (f, get_or-put, other_key other) at h
]
  where
    same_key : id ≡ session_id → (id == session_id) ≡ true
    same_key q = ground arith

    other_key : id ≢ session_id → (id == session_id) ≡ false
    other_key q = ground arith

Write-Past :
    {m n : MemoryStore} (session_id : String) (session : Session)
    → get session_id m.sessions ≡ some session
    → HasNumbers m
    → Write m n
    → Past session_id session.last_seq m n
Write-Past session_id session found b (quiet e f) = λ x h below. rw f at h
Write-Past {m} {n} session_id session found b (append id old entry url t hit o numbered i e f) =
    under_put session_id id session.last_seq _ m n f λ same x h below.
      let (above, last) = appended-last_seq old url entry t numbered (b.below id old hit) in
      elim (Mem-append x entry _ h) [
        | inl before ↦ rw same at before
        | inr new ↦ ground (arith, hit, found, above)
      ]
Write-Past session_id session found b (update id old new hit u e f) = λ x h below. rw f at h
Write-Past {m} {n} session_id session found b (create new absent zero t p e f) =
    under_put session_id new.id session.last_seq [] m n f λ same x h below. ground (arith, found)
Write-Past {m} {n} session_id session found b (compact id old seq hit e f) =
    under_put session_id id session.last_seq _ m n f
      λ same x h below. rw same at (Mem-keep (λ y. leb seq y.seq) x (get_or id [] m.events) h)

pub Writes-Past :
    {m n : MemoryStore} (session_id : String) (session : Session)
    → get session_id m.sessions ≡ some session
    → HasNumbers n
    → Writes m n
    → Past session_id session.last_seq m n
Writes-Past session_id session found b start x h below = h
Writes-Past session_id session found b (then_write w step) x h below =
    let (mid, hit, e) = Writes-Remains session_id session found w in
    let before = HasNumbers-before step b in
    Writes-Past session_id session found before w x
      (Write-Past session_id mid hit before step x h (omega (arith, e.last_seq, below))) below

module _ ⦃w : World⦄ where
  -- Whatever calls are made, in whatever order, on a store whose sessions stand under their own
  -- ids, and as long as no session has used up the numbers of a uint64: an event that a session's
  -- log holds later, with a number that the session had reached before, was in the log then.
  pub run-Past :
      (cs : List Call) (s : State) (session_id : String) (session : Session)
      → IsKeyed s.store
      → get session_id s.sessions ≡ some session
      → HasNumbers (run cs s).store
      → Past session_id session.last_seq s.store (run cs s).store
  run-Past cs s session_id session k found b =
      Writes-Past session_id session found b (run-Writes cs s k)
