-- ===== src/ControlPlane/Writes/Rules.antt =====
-- How an action refines the step relation, one rule for each way to build it. `Refines x m` is about
-- the runs of `m` that start at the store `x`.
use remote_dev_skillkit.Prelude.{
  String, ◌+◌, ◌%◌, ◌^◌, Bool, true, false, Option, none, some, ◌≡◌, refl, sym, ◌∙◌, string_eq, get,
  get-put_self, arith,
}
use mathlib.Core.Path.{subst}
use remote_dev_skillkit.Exec
use remote_dev_skillkit.Exec.{
  Result, Exec, ok, err, pure, fail, lift, require, fail_if, gets, ◌>>=◌,
}
use remote_dev_skillkit.ControlPlane.Protocol.{Failure}
use remote_dev_skillkit.ControlPlane.Session.{Time, Session, Event, IdempotencyKey}
use remote_dev_skillkit.ControlPlane.World.{World}
use remote_dev_skillkit.ControlPlane.Store.{
  MemoryStore, State, Store, put_store, now, new_id, id_or_empty, new_join_code, session_expired,
  session_expired_lem,
}
use remote_dev_skillkit.ControlPlane.Append.{
  open_to, append_event_locked, commit_event, switch_gateway, with_event,
}
use remote_dev_skillkit.ControlPlane.Append.Outcome.{
  rejected, replayed, fresh, append_event_locked-Appended,
}
use remote_dev_skillkit.ControlPlane.Writes.{
  Write, Writes, append, start, single_step, Writes-trans, IsKeyed, Writes-IsKeyed,
}

-- The action leaves the store as it is.
pub record IsQuiet {A : Type 0} (m : Store A) : Type 0 where
  pub at : (s : State) → (m s).1.store ≡ s.store

pub record Refines {A : Type 0} (x : MemoryStore) (m : Store A) : Type 0 where
  pub at : IsKeyed x → (s : State) → Writes x (m (record s { store = x })).1.store

module _ {A : Type 0} where
  pub Refines-quiet : (x : MemoryStore) (m : Store A) → IsQuiet m → Refines x m
  Refines-quiet x m q = record {
    at = λ k s. subst (Writes x) (sym (q.at (record s { store = x }))) start;
  }

  pub IsQuiet-pure : (a : A) → IsQuiet (pure a)
  IsQuiet-pure a = record { at = λ s. refl }

  pub IsQuiet-fail : (e : Failure) → IsQuiet {A = A} (fail e)
  IsQuiet-fail e = record { at = λ s. refl }

  pub IsQuiet-lift : (r : Result A) → IsQuiet (lift r)
  IsQuiet-lift r = record { at = λ s. refl }

  pub IsQuiet-require : (o : Option A) (e : Failure) → IsQuiet (require o e)
  IsQuiet-require none e = record { at = λ s. refl }
  IsQuiet-require (some a) e = record { at = λ s. refl }

pub IsQuiet-fail_if : (b : Bool) (e : Failure) → IsQuiet (fail_if b e)
IsQuiet-fail_if true e = record { at = λ s. refl }
IsQuiet-fail_if false e = record { at = λ s. refl }

module _ {A B : Type 0} where
  continue_quiet :
      (r : Result A) (f : A → Store B) (x : MemoryStore) (t : State)
      → t.store ≡ x
      → ((a : A) → r ≡ ok a → Writes x (f a (record t { store = x })).1.store)
      → Writes x (Exec.continue r f t).1.store
  continue_quiet (ok a) f x t e h =
      subst (λ y. Writes x (f a (record t { store = y })).1.store) (sym e) (h a refl)
  continue_quiet (err c) f x t e h = subst (Writes x) (sym e) start

  pub Refines-bind_quiet :
      (x : MemoryStore) (m : Store A) (f : A → Store B)
      → IsQuiet m
      → ((a : A) (s : State) → (m (record s { store = x })).0 ≡ ok a → Refines x (f a))
      → Refines x (m >>= f)
  Refines-bind_quiet x m f q h = record {
    at = λ k s.
        let start_state : State = record s { store = x } in
        continue_quiet (m start_state).0 f x (m start_state).1 (q.at start_state)
          (λ a e. (h a s e).at k (m start_state).1);
  }

  continue_write :
      (r : Result A) (f : A → Store B) (x : MemoryStore) (t : State)
      → IsKeyed x
      → Writes x t.store
      → ((a : A) → Refines t.store (f a))
      → Writes x (Exec.continue r f t).1.store
  continue_write (ok a) f x t k w h = Writes-trans w ((h a).at (Writes-IsKeyed w k) t)
  continue_write (err c) f x t k w h = w

  pub Refines-bind :
      (x : MemoryStore) (m : Store A) (f : A → Store B)
      → Refines x m
      → ((y : MemoryStore) (a : A) → Writes x y → Refines y (f a))
      → Refines x (m >>= f)
  Refines-bind x m f w h = record {
    at = λ k s.
        let t : State = (m (record s { store = x })).1 in
        let first = w.at k s in
        continue_write (m (record s { store = x })).0 f x t k first (λ a. h t.store a first);
  }

  pub IsQuiet-bind :
      (m : Store A) (f : A → Store B) → IsQuiet m → ((a : A) → IsQuiet (f a)) → IsQuiet (m >>= f)
  IsQuiet-bind m f q h = record { at = λ s. after (m s).0 (m s).1 (q.at s) }
    where
      after :
          (r : Result A) (t : State)
          → {x : MemoryStore} → t.store ≡ x
          → (Exec.continue r f t).1.store ≡ x
      after (ok a) t e = (h a).at t ∙ e
      after (err c) t e = e

module _ {B : Type 0} where
  pub Refines-put :
      (x : MemoryStore) (g : MemoryStore → MemoryStore) (f : Unit {0} → Store B)
      → Write x (g x)
      → Refines (g x) (f tt)
      → Refines x (put_store g >>= f)
  unfolding put_store
  Refines-put x g f step h = record {
    at =
        λ k s. let first = single_step step in Writes-trans first (h.at (Writes-IsKeyed first k) s);
  }

pub Refines-last_put :
    (x : MemoryStore) (g : MemoryStore → MemoryStore) → Write x (g x) → Refines x (put_store g)
unfolding put_store
Refines-last_put x g step = record { at = λ k s. single_step step }

module _ ⦃w : World⦄ where
  pub IsQuiet-now : IsQuiet now
  unfolding now
  IsQuiet-now = record { at = λ s. refl }

  pub IsQuiet-new_id : (prefix : String) → IsQuiet (new_id prefix)
  unfolding new_id
  IsQuiet-new_id prefix = record { at = λ s. refl }

  pub IsQuiet-new_join_code : IsQuiet new_join_code
  unfolding new_join_code
  IsQuiet-new_join_code = record { at = λ s. refl }

  pub IsQuiet-id_or_empty : (prefix : String) → IsQuiet (id_or_empty prefix)
  unfolding id_or_empty
  IsQuiet-id_or_empty prefix = record { at = λ s. refl }

  pub IsQuiet-session_expired : (session : Session) → IsQuiet (session_expired session)
  IsQuiet-session_expired session = record { at = λ s. rw (session_expired_lem session s) refl }

-- What an append leaves alone in a session.
pub record SameParts (session session' : Session) : Type 0 where
  pub id : session'.id ≡ session.id
  pub capabilities : session'.capabilities ≡ session.capabilities
  pub join_policy : session'.join_policy ≡ session.join_policy
  pub tasks : session'.tasks ≡ session.tasks
  pub endpoints : session'.endpoints ≡ session.endpoints
  pub status : session'.status ≡ session.status

-- The session of `x` is still there in `y`, with the same parts.
abbrev pub StillThere : String → MemoryStore → MemoryStore → Type 0
StillThere session_id x y =
    (session : Session)
    → get session_id x.sessions ≡ some session
    → (session' : Session) × (get session_id y.sessions ≡ some session')
      × SameParts session session'

-- Either nothing was stored, or one event of the session.
abbrev pub Appends : String → MemoryStore → MemoryStore → Type 0
Appends session_id x y = Writes x y × StillThere session_id x y

unchanged-Appends : (session_id : String) (x y : MemoryStore) → y ≡ x → Appends session_id x y
unchanged-Appends session_id x y e = (
  subst (Writes x) (sym e) start,
  λ session found. (
    session,
    rw e found,
    record {
      id = refl;
      capabilities = refl;
      join_policy = refl;
      tasks = refl;
      endpoints = refl;
      status = refl;
    },
  ),
)

module _ ⦃w : World⦄ where
  commit-Appends :
      (session_id : String) (session : Session) (entry : Event)
      (remember : Option (IdempotencyKey × String)) (t : Time) (x : MemoryStore)
      → get session_id x.sessions ≡ some session
      → open_to session entry.type ≡ true
      → entry.seq ≡ (session.last_seq + 1) % 2 ^ 64
      → entry.session_id ≡ session_id
      → Appends session_id x (commit_event session_id session entry remember t x)
  unfolding commit_event switch_gateway with_event
  commit-Appends session_id session entry remember t x found opened numbered named = (
    single_step (append session_id session entry _ t found opened numbered named refl refl),
    λ old hit. (
      with_event (switch_gateway session entry) entry t,
      get-put_self session_id (with_event (switch_gateway session entry) entry t) x.sessions,
      ground (arith, found, hit),
    ),
  )

  -- An append is at most one step of the relation.
  pub append-Appends :
      (session_id : String) (event : Event) (enforce : Bool) (s : State)
      → Appends session_id s.store (append_event_locked session_id event enforce s).1.store
  append-Appends session_id event enforce s =
      elim (append_event_locked-Appended session_id event enforce s) [
        | rejected e r same n ↦ unchanged-Appends session_id _ _ same
        | replayed rec keyed hit print r same n ↦ unchanged-Appends session_id _ _ same
        | fresh session id created updated remember found opened keeps (r, stored, n) ↦
            rw stored
              (commit-Appends session_id session _ remember updated s.store found opened refl refl)
      ]

  continue_append :
      {B : Type 0} (r : Result Event) (f : Event → Store B) (session_id : String) (x : MemoryStore)
      (t : State)
      → IsKeyed x
      → Appends session_id x t.store
      → ((e : Event) (y : MemoryStore) → Appends session_id x y → Refines y (f e))
      → Writes x (Exec.continue r f t).1.store
  continue_append (ok e) f session_id x t k a h =
      Writes-trans a.0 ((h e t.store a).at (Writes-IsKeyed a.0 k) t)
  continue_append (err c) f session_id x t k a h = a.0

  pub Refines-append :
      {B : Type 0} (x : MemoryStore) (session_id : String) (event : Event) (enforce : Bool)
      (f : Event → Store B)
      → ((e : Event) (y : MemoryStore) → Appends session_id x y → Refines y (f e))
      → Refines x (append_event_locked session_id event enforce >>= f)
  Refines-append x session_id event enforce f h = record {
    at = λ k s.
        let t : State × Unit {0} =
          ((append_event_locked session_id event enforce (record s { store = x })).1, tt) in
        continue_append (append_event_locked session_id event enforce (record s { store = x })).0 f
          session_id x t.0 k (append-Appends session_id event enforce (record s { store = x })) h;
  }

  pub Refines-last_append :
      (x : MemoryStore) (session_id : String) (event : Event) (enforce : Bool)
      → Refines x (append_event_locked session_id event enforce)
  Refines-last_append x session_id event enforce = record {
    at = λ k s. (append-Appends session_id event enforce (record s { store = x })).0;
  }
