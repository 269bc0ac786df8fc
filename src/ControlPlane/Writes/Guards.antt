-- ===== src/ControlPlane/Writes/Guards.antt =====
-- More rules for `Refines`: what a guard that passed says of what follows it.
use remote_dev_skillkit.Prelude.{
  String, Bool, true, false, Option, none, some, ◌≡◌, refl, string_eq, get, if◌then◌else◌,
}
use remote_dev_skillkit.Exec
use remote_dev_skillkit.Exec.{Result, ok, err, fail, lift, require, fail_if, ◌>>=◌}
use remote_dev_skillkit.ControlPlane.Protocol.{Failure}
use remote_dev_skillkit.ControlPlane.Session.{Session}
use remote_dev_skillkit.ControlPlane.Store.{
  MemoryStore, State, Store, find_session, session_not_found,
}
use remote_dev_skillkit.ControlPlane.Writes.{Writes, start}
use remote_dev_skillkit.ControlPlane.Writes.Rules.{Refines, IsQuiet, IsQuiet-require}

module _ {A B : Type 0} (x : MemoryStore) where
  pub Refines-lift :
      (r : Result A) (f : A → Store B)
      → ((a : A) → r ≡ ok a → Refines x (f a))
      → Refines x (lift r >>= f)
  Refines-lift (ok a) f h = h a refl
  Refines-lift (err e) f h = record { at = λ k s. start }

  pub Refines-require :
      (o : Option A) (e : Failure) (f : A → Store B)
      → ((a : A) → o ≡ some a → Refines x (f a))
      → Refines x (require o e >>= f)
  Refines-require none e f h = record { at = λ k s. start }
  Refines-require (some a) e f h = record { at = λ k s. (h a refl).at k s }

module _ {B : Type 0} (x : MemoryStore) where
  pub Refines-guard :
      (b : Bool) (e : Failure) (f : Unit {0} → Store B)
      → (b ≡ false → Refines x (f tt))
      → Refines x (fail_if b e >>= f)
  Refines-guard true e f h = record { at = λ k s. start }
  Refines-guard false e f h = record { at = λ k s. (h refl).at k s }

  pub Refines-find_session :
      (session_id : String) (f : Session → Store B)
      → ((session : Session) → get session_id x.sessions ≡ some session → Refines x (f session))
      → Refines x (find_session session_id >>= f)
  Refines-find_session session_id f h = record {
    at = (Refines-require x (get session_id x.sessions) session_not_found f h).at;
  }

  -- An action that looks at the store first.
  pub Refines-read :
      {A : Type 0} (look : MemoryStore → A) (m : A → Store B)
      → Refines x (m (look x))
      → Refines x (λ s. m (look s.store) s)
  Refines-read look m h = record { at = h.at }

pub IsQuiet-find_session : (session_id : String) → IsQuiet (find_session session_id)
IsQuiet-find_session session_id = record {
  at = λ s. (IsQuiet-require (get session_id s.sessions) session_not_found).at s;
}

pub Refines-if :
    {B : Type 0} (x : MemoryStore) (b : Bool) (m n : Store B)
    → (b ≡ true → Refines x m)
    → (b ≡ false → Refines x n)
    → Refines x (if b then m else n)
Refines-if x true m n h k = h refl
Refines-if x false m n h k = k refl

failing :
    {A B : Type 0} {x : MemoryStore} (r : Result A) (f : Unit {0} → Store B) (e : Failure)
    (t : State)
    → Writes x t.store
    → Writes x
        (Exec.continue
          (Exec.continue r (λ _. fail {A = Unit {0}} e) t).0
          f
          (Exec.continue r (λ _. fail {A = Unit {0}} e) t).1).1.store
failing (ok a) f e t w = w
failing (err c) f e t w = w

-- What fails in the end keeps the steps that were made before.
pub Refines-fails :
    {A B : Type 0} (x : MemoryStore) (m : Store A) (f : Unit {0} → Store B) (e : Failure)
    → Refines x m
    → Refines x ((m >>= λ _. fail {A = Unit {0}} e) >>= f)
Refines-fails x m f e h = record {
  at = λ k s. failing (m (record s { store = x })).0 f e (m (record s { store = x })).1 (h.at k s);
}

continue_assoc :
    {A B C : Type 0} {x : MemoryStore} (r : Result A) (g : A → Store B) (f : B → Store C)
    (t : State)
    → Writes x (Exec.continue r (λ a. g a >>= f) t).1.store
    → Writes x (Exec.continue (Exec.continue r g t).0 f (Exec.continue r g t).1).1.store
continue_assoc (ok a) g f t w = w
continue_assoc (err e) g f t w = w

pub Refines-assoc :
    {A B C : Type 0} (x : MemoryStore) (m : Store A) (g : A → Store B) (f : B → Store C)
    → Refines x (m >>= λ a. g a >>= f)
    → Refines x ((m >>= g) >>= f)
Refines-assoc x m g f h = record {
  at = λ k s.
      continue_assoc (m (record s { store = x })).0 g f (m (record s { store = x })).1 (h.at k s);
}
