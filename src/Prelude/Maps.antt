-- ===== src/Prelude/Maps.antt =====
-- Go maps as association lists. A range over a map goes through the entries in their order here;
-- Go leaves that order open.
use mathlib.Core.List.{List, [], ◌∷◌}
use mathlib.Core.Option.{Option, none, some}
use mathlib.Core.Path.{◌≡◌, refl}
use native.Mathlib.Omega.{arith}
use remote_dev_skillkit.Prelude.Booleans.{Eq, ◌==◌, if◌then◌else◌}

abbrev pub Dict : Type 0 → Type 0 → Type 0
Dict K V = List (K × V)

module _ {K V : Type 0} ⦃e : Eq K⦄ where
  unfoldable pub get : K → Dict K V → Option V
  get k [] = none
  get k ((j, v) ∷ m) = if j == k then some v else get k m

  -- The value at a key, or the zero value where the key is missing.
  unfoldable pub get_or : K → V → Dict K V → V
  get_or k d [] = d
  get_or k d ((j, v) ∷ m) = if j == k then v else get_or k d m

  unfoldable pub put : K → V → Dict K V → Dict K V
  put k v [] = (k, v) ∷ []
  put k v ((j, w) ∷ m) = if j == k then (k, v) ∷ m else (j, w) ∷ put k v m

  unfoldable pub delete : K → Dict K V → Dict K V
  delete k [] = []
  delete k ((j, v) ∷ m) = if j == k then delete k m else (j, v) ∷ delete k m

  pub get-put :
      (j k : K) (v : V) (m : Dict K V) → get j (put k v m) ≡ (if k == j then some v else get j m)
  unfolding get put
  get-put j k v [] = refl
  get-put j k v ((i, w) ∷ m) = ground (arith, get-put j k v m)

  pub get-put_self : (k : K) (v : V) (m : Dict K V) → get k (put k v m) ≡ some v
  unfolding get put
  get-put_self k v m = rw get-put (ground arith)

  pub get_or-put :
      (j k : K) (d v : V) (m : Dict K V)
      → get_or j d (put k v m) ≡ (if k == j then v else get_or j d m)
  unfolding get_or put
  get_or-put j k d v [] = refl
  get_or-put j k d v ((i, w) ∷ m) = ground (arith, get_or-put j k d v m)

  pub get-delete :
      (j k : K) (m : Dict K V) → get j (delete k m) ≡ (if k == j then none else get j m)
  unfolding get delete
  get-delete j k [] = ground arith
  get-delete j k ((i, w) ∷ m) = ground (arith, get-delete j k m)

  pub get_or_of-get : (k : K) (d v : V) (m : Dict K V) → get k m ≡ some v → get_or k d m ≡ v
  unfolding get get_or
  get_or_of-get k d v [] h = cc
  get_or_of-get k d v ((j, w) ∷ m) h = ground (arith, get_or_of-get k d v m)

pub ruleset dict_laws = (get-put, get_or-put, get-delete)
