-- ===== src/Prelude/Errors.antt =====
-- The result of a Go function that answers a value or an error and changes nothing.
use mathlib.Core.Bool.{Bool, true, false}
use mathlib.Core.Option.{Option, none, some}
use mathlib.Core.Path.{◌≡◌, refl}
use native.Mathlib.Omega.{arith}

pub data Checked (E A : Type 0) : Type 0 where
  passed : A → Checked E A
  refused : E → Checked E A

module _ {E A : Type 0} where
  -- A value that is missing is the error.
  abbrev pub required : Option A → E → Checked E A
  required none e = refused e
  required (some a) e = passed a

  -- The error alone, where the function returns nothing else.
  abbrev pub error_of : Checked E A → Option E
  error_of (passed a) = none
  error_of (refused e) = some e

module _ {E : Type 0} where
  -- `if b { return err }`
  abbrev pub refuse_if : Bool → E → Checked E (Unit {0})
  refuse_if true e = refused e
  refuse_if false e = passed tt

module _ {E A B : Type 0} where
  infixl 10 ◌>>=◌ ◌>>◌
  abbrev pub ◌>>=◌ : Checked E A → (A → Checked E B) → Checked E B
  passed a >>= f = f a
  refused e >>= f = refused e

  abbrev pub ◌>>◌ : Checked E A → Checked E B → Checked E B
  m >> n = m >>= λ _. n

  -- What is passed on has passed every part.
  pub >>=-passed :
      (m : Checked E A) (f : A → Checked E B) {b : B}
      → (m >>= f) ≡ passed b
      → (a : A) × (m ≡ passed a) × (f a ≡ passed b)
  >>=-passed (passed a) f h = (a, refl, h)
  >>=-passed (refused e) f h = ground arith
