-- ===== src/ControlPlane/Invariants/Sessions.antt =====
-- internal/controlplane/store.go: what no call takes from a session.
use remote_dev_skillkit.Prelude.{
  ◌≤◌, String, true, some, List, ◌≡◌, refl, ◌∙◌, string_eq, Dict, get, put, get-put, arith,
}
use remote_dev_skillkit.ControlPlane.Protocol.{session_terminal}
use remote_dev_skillkit.ControlPlane.Session.{Session, Event, Time}
use remote_dev_skillkit.ControlPlane.World.{World}
use remote_dev_skillkit.ControlPlane.Store.{MemoryStore, State}
use remote_dev_skillkit.ControlPlane.Append.{with_event}
use remote_dev_skillkit.ControlPlane.Writes.{
  Write, Writes, quiet, append, update, create, compact, start, then_write, switched, IsKeyed,
}
use remote_dev_skillkit.ControlPlane.Machine.{Call, run, run-Writes}

-- A later state of a session.
pub record Endures (session later : Session) : Type 0 where
  pub id : later.id ≡ session.id
  pub capabilities : later.capabilities ≡ session.capabilities
  pub join_policy : later.join_policy ≡ session.join_policy
  pub last_seq : session.last_seq ≤ later.last_seq
  pub terminal : session_terminal session.status ≡ true → session_terminal later.status ≡ true

Endures-refl : (session : Session) → Endures session session
Endures-refl session = record {
  id = refl;
  capabilities = refl;
  join_policy = refl;
  last_seq = omega arith;
  terminal = λ h. h;
}

Endures-trans : {a b c : Session} → Endures a b → Endures b c → Endures a c
Endures-trans e f = record {
  id = f.id ∙ e.id;
  capabilities = f.capabilities ∙ e.capabilities;
  join_policy = f.join_policy ∙ e.join_policy;
  last_seq = omega (arith, e.last_seq, f.last_seq);
  terminal = λ h. f.terminal (e.terminal h);
}

abbrev pub Remains : String → MemoryStore → Session → Type 0
Remains session_id m session =
    (later : Session) × (get session_id m.sessions ≡ some later) × Endures session later

-- A write under one id changes no other session.
pub after-put :
    (session_id id : String) (session old new : Session) (m : Dict String Session)
    → get session_id m ≡ some session
    → get id m ≡ some old
    → Endures old new
    → (later : Session) × (get session_id (put id new m) ≡ some later) × Endures session later
after-put session_id id session old new m found hit e = elim (string_eq.dec id session_id) [
  | yes same ↦ (new, rw get-put (ground arith), ground (arith, e))
  | no other ↦ (session, rw get-put (ground arith), Endures-refl session)
]

Endures-append :
    (session : Session) (url : String) (entry : Event) (t : Time)
    → Endures session (with_event (switched session url) entry t)
unfolding with_event
Endures-append session url entry t = record {
  id = refl;
  capabilities = refl;
  join_policy = refl;
  last_seq = ground arith;
  terminal = λ h. h;
}

pub Write-Remains :
    {m n : MemoryStore} (session_id : String) (session : Session)
    → get session_id m.sessions ≡ some session
    → Write m n
    → Remains session_id n session
Write-Remains session_id session found (quiet e f) = (session, rw e found, Endures-refl session)
Write-Remains session_id session found (append id old entry url t hit o s i e f) =
    rw e (after-put session_id id session old _ _ found hit (Endures-append old url entry t))
Write-Remains session_id session found (update id old new hit u e f) = rw e (
    after-put session_id id session old new _ found hit (record {
      id = u.id;
      capabilities = u.capabilities;
      join_policy = u.join_policy;
      last_seq = omega (arith, u.last_seq);
      terminal = u.terminal;
    }))
Write-Remains {m} session_id session found (create new absent l t p e f) =
    rw e (session, rw get-put (ground arith), Endures-refl session)
Write-Remains session_id session found (compact id old seq hit e f) = rw e (
    after-put session_id id session old _ _ found hit (record {
      id = refl;
      capabilities = refl;
      join_policy = refl;
      last_seq = omega arith;
      terminal = λ h. h;
    }))

pub Writes-Remains :
    {m n : MemoryStore} (session_id : String) (session : Session)
    → get session_id m.sessions ≡ some session
    → Writes m n
    → Remains session_id n session
Writes-Remains session_id session found start = (session, found, Endures-refl session)
Writes-Remains session_id session found (then_write w step) =
    let (mid, hit, e) = Writes-Remains session_id session found w in
    let (later, hit', f) = Write-Remains session_id mid hit step in (later, hit', Endures-trans e f)

module _ ⦃w : World⦄ where
  -- Whatever calls are made, in whatever order, on a store whose sessions stand under their own
  -- ids: a session that is there stays, with its id, its capabilities and its join policy; its last
  -- number never falls; and once it is closed, failed or revoked, it stays in such a status.
  pub run-Remains :
      (cs : List Call) (s : State) (session_id : String) (session : Session)
      → IsKeyed s.store
      → get session_id s.sessions ≡ some session
      → Remains session_id (run cs s).store session
  run-Remains cs s session_id session k found =
      Writes-Remains session_id session found (run-Writes cs s k)
