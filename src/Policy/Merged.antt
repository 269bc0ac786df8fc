-- ===== src/Policy/Merged.antt =====
-- internal/policy/capabilities.go: what MergeTemporaryCapabilities answers.
use remote_dev_skillkit.Prelude.{
  if◌then◌else◌, ◌≢◌, All, String, Bool, true, false, ◌||◌, ◌&&◌, List, [], ◌∷◌, ◌++◌, ◌==◌, ◌!=◌,
  string_eq, ◌≡◌, arith, any, ap, ◌∙◌, refl,
}
use remote_dev_skillkit.Prelude.Text.{trim_space}
use remote_dev_skillkit.ControlPlane.Endpoints.{contains}
use remote_dev_skillkit.ControlPlane.Endpoints.Ceiling.{IsDistinct}
use remote_dev_skillkit.Policy.Capabilities.{Capability}
use remote_dev_skillkit.Policy.{
  Merging, keep, merge_explicit, merge_defaults, merge_temporary_capabilities, temporary_defaults,
}

-- A capability that an operator names.
abbrev pub names : List String → Capability → Bool
names explicit x = x != "" && any (λ raw. trim_space raw == x) explicit

contains-++ :
    (xs : List Capability) (c x : Capability)
    → contains (xs ++ c ∷ []) x ≡ (contains xs x || c == x)
contains-++ [] c x = ground arith
contains-++ (y ∷ ys) c x = ground (arith, contains-++ ys c x)

merge_explicit-seen :
    (m : Merging) (explicit : List String) (x : Capability)
    → contains (merge_explicit m explicit).seen x ≡ (contains m.seen x || names explicit x)
unfolding merge_explicit
merge_explicit-seen m [] x = ground arith
merge_explicit-seen m (raw ∷ rest) x =
    let ih =
      merge_explicit-seen
        (if trim_space raw == "" || contains m.seen (trim_space raw)
          then m
          else keep m (trim_space raw))
        rest x in
    ground (arith, ih)

merge_defaults-seen :
    (m : Merging) (defaults : List Capability) (x : Capability)
    → contains (merge_defaults m defaults).seen x ≡ (contains m.seen x || contains defaults x)
unfolding merge_defaults
merge_defaults-seen m [] x = ground arith
merge_defaults-seen m (value ∷ rest) x =
    let ih = merge_defaults-seen (if contains m.seen value then m else keep m value) rest x in
    ground (arith, ih)

snoc-All :
    (xs : List Capability) (x c : Capability)
    → c ≢ x
    → All (λ y. y ≢ x) xs
    → All (λ y. y ≢ x) (xs ++ c ∷ [])
snoc-All [] x c h all = (h, tt)
snoc-All (y ∷ ys) x c h (first, rest) = (first, snoc-All ys x c h rest)

snoc-IsDistinct :
    (xs : List Capability) (c : Capability)
    → contains xs c ≡ false
    → IsDistinct xs
    → IsDistinct (xs ++ c ∷ [])
snoc-IsDistinct [] c h d = (tt, tt)
snoc-IsDistinct (x ∷ xs) c h (all, d) =
    let apart : c ≢ x = ground (arith, h) in
    let rest : contains xs c ≡ false = ground (arith, h) in
    (snoc-All xs x c apart all, snoc-IsDistinct xs c rest d)

-- The two lists hold the same capabilities, and the result holds none twice.
abbrev IsKept : Merging → Type 0
IsKept m = ((x : Capability) → contains m.result x ≡ contains m.seen x) × IsDistinct m.result

keep-IsKept :
    (m : Merging) (c : Capability) → contains m.seen c ≡ false → IsKept m → IsKept (keep m c)
keep-IsKept m c new (same, distinct) = (
  λ x. contains-++ m.result c x ∙ ground (arith, same x),
  snoc-IsDistinct m.result c (same c ∙ new) distinct,
)

IsKept-unless :
    (b : Bool) (m n : Merging) → IsKept m → (b ≡ false → IsKept n) → IsKept (if b then m else n)
IsKept-unless true m n h k = h
IsKept-unless false m n h k = k refl

merge_explicit-IsKept :
    (m : Merging) (explicit : List String) → IsKept m → IsKept (merge_explicit m explicit)
unfolding merge_explicit
merge_explicit-IsKept m [] h = h
merge_explicit-IsKept m (raw ∷ rest) h =
    let known = trim_space raw == "" || contains m.seen (trim_space raw) in
    let more = keep m (trim_space raw) in
    merge_explicit-IsKept (if known then m else more) rest
      (IsKept-unless known m more h (λ new. keep-IsKept m (trim_space raw) (ground (arith, new)) h))

merge_defaults-IsKept :
    (m : Merging) (defaults : List Capability) → IsKept m → IsKept (merge_defaults m defaults)
unfolding merge_defaults
merge_defaults-IsKept m [] h = h
merge_defaults-IsKept m (value ∷ rest) h =
    merge_defaults-IsKept (if contains m.seen value then m else keep m value) rest
      (IsKept-unless (contains m.seen value) m (keep m value) h (λ new. keep-IsKept m value new h))

-- The merged list holds the capabilities that are named and the defaults of the temporary mode, no others,
-- and none of them twice.
pub merge_temporary_capabilities_lem :
    (explicit : List String)
    → ((x : Capability)
        → contains (merge_temporary_capabilities explicit) x
          ≡ (names explicit x || contains temporary_defaults x))
      × IsDistinct (merge_temporary_capabilities explicit)
unfolding merge_temporary_capabilities
merge_temporary_capabilities_lem explicit =
    let start : Merging = record { result = []; seen = [] } in
    let named = merge_explicit start explicit in
    let kept =
      merge_defaults-IsKept named temporary_defaults
        (merge_explicit-IsKept start explicit ((λ x. refl), tt)) in
    (
      λ x.
          kept.0 x
          ∙ merge_defaults-seen named temporary_defaults x
          ∙ ap (λ b. b || contains temporary_defaults x) (merge_explicit-seen start explicit x),
      kept.1,
    )
