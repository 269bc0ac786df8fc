-- ===== src/ControlPlane/Endpoints/Ceiling.antt =====
-- internal/controlplane/store.go: what a session lets a target do.
use remote_dev_skillkit.Prelude.{
  String, Bool, true, false, not, ◌||◌, ◌&&◌, List, [], ◌∷◌, ◌≡◌, ◌≢◌, ◌==◌, string_eq, All,
  is_empty, if◌then◌else◌, arith, Bool-cases, inl, inr,
}
use remote_dev_skillkit.Prelude.Text.{trim_space}
use remote_dev_skillkit.ControlPlane.Protocol.{EndpointRole, endpoint_role_eq}
use remote_dev_skillkit.ControlPlane.Session.{Session}
use remote_dev_skillkit.ControlPlane.Endpoints.{
  contains, allows, distinct_capabilities, constrained_endpoint_capabilities,
}

-- What is kept of a list of capabilities passes the test, is not empty, and is not in `seen`.
abbrev Kept : (String → Bool) → List String → String → Type 0
Kept permitted seen c = (permitted c ≡ true) × (c ≢ "") × (contains seen c ≡ false)

All-weaken :
    {P Q : String → Type 0} (xs : List String) → ((x : String) → P x → Q x) → All P xs → All Q xs
All-weaken [] f h = tt
All-weaken (x ∷ xs) f (h, hs) = (f x h, All-weaken xs f hs)

distinct_capabilities-All :
    (permitted : String → Bool) (seen cs : List String)
    → All (Kept permitted seen) (distinct_capabilities permitted seen cs)
unfolding distinct_capabilities
distinct_capabilities-All permitted seen [] = tt
distinct_capabilities-All permitted seen (c ∷ cs) =
    elim (Bool-cases
      (trim_space c == "" || contains seen (trim_space c) || not (permitted (trim_space c)))) [
        | inl dropped ↦ rw dropped (distinct_capabilities-All permitted seen cs)
        | inr kept ↦ rw kept (
          passes (trim_space c) kept,
          All-weaken _ (λ x (p, e, n). (p, e, later x n))
              (distinct_capabilities-All permitted (trim_space c ∷ seen) cs),
        )
      ]
  where
    passes :
        (d : String)
        → (d == "" || contains seen d || not (permitted d)) ≡ false
        → Kept permitted seen d
    passes d h = ground arith

    later : (x : String) → contains (trim_space c ∷ seen) x ≡ false → contains seen x ≡ false
    later x h = ground arith

-- No element stands twice.
abbrev pub IsDistinct : List String → Type 0
IsDistinct [] = Unit
IsDistinct (x ∷ xs) = All (λ y. y ≢ x) xs × IsDistinct xs

distinct_capabilities-IsDistinct :
    (permitted : String → Bool) (seen cs : List String)
    → IsDistinct (distinct_capabilities permitted seen cs)
unfolding distinct_capabilities
distinct_capabilities-IsDistinct permitted seen [] = tt
distinct_capabilities-IsDistinct permitted seen (c ∷ cs) =
    elim (Bool-cases
      (trim_space c == "" || contains seen (trim_space c) || not (permitted (trim_space c)))) [
        | inl dropped ↦ rw dropped (distinct_capabilities-IsDistinct permitted seen cs)
        | inr kept ↦ rw kept (
          All-weaken _ (λ x (p, e, n). differs x n)
              (distinct_capabilities-All permitted (trim_space c ∷ seen) cs),
          distinct_capabilities-IsDistinct permitted (trim_space c ∷ seen) cs,
        )
      ]
  where
    differs : (x : String) → contains (trim_space c ∷ seen) x ≡ false → x ≢ trim_space c
    differs x h = ground arith

-- The capabilities that a session with a list of capabilities gives to the target role lie within
-- that list, whatever is advertised and whatever was there before; none of them is empty, and none
-- stands twice.
pub constrained-within :
    (session : Session) (advertised existing : List String)
    → is_empty session.capabilities ≡ false
    → All
        (λ c. (allows session.capabilities c ≡ true) × (c ≢ ""))
        (constrained_endpoint_capabilities session EndpointRole.target advertised existing)
      × IsDistinct
          (constrained_endpoint_capabilities session EndpointRole.target advertised existing)
unfolding constrained_endpoint_capabilities
constrained-within session advertised existing listed =
    let permitted : String → Bool = λ c.
      not (EndpointRole.target == EndpointRole.target && not (is_empty session.capabilities))
      || allows session.capabilities c in
    (
      All-weaken {P = Kept permitted []} _ (λ c (p, e, n). (only c p, e))
          (distinct_capabilities-All permitted []
            (if is_empty advertised then existing else advertised)),
      distinct_capabilities-IsDistinct permitted []
          (if is_empty advertised then existing else advertised),
    )
  where
    only :
        (c : String)
        → (not (EndpointRole.target == EndpointRole.target && not (is_empty session.capabilities))
            || allows session.capabilities c)
          ≡ true
        → allows session.capabilities c ≡ true
    only c h = ground (arith, h, listed)
