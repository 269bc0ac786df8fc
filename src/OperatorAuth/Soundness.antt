-- ===== src/OperatorAuth/Soundness.antt =====
-- internal/operatorauth/auth.go: whom an authorizer lets pass.
use text.Mathlib.Text.{starts_with}
use remote_dev_skillkit.Prelude.{
  String, true, false, some, List, [], ◌∷◌, ◌==◌, string_eq, ◌≡◌, ◌≢◌, ◌⊎◌, inl, inr, arith,
  is_empty, find?, Bool-cases, Option-cases,
}
use remote_dev_skillkit.Prelude.Text.{trim_space}
use remote_dev_skillkit.Prelude.Errors.{passed}
use remote_dev_skillkit.OperatorAuth.{
  Principal, Authorizer, AuthLibrary, without_prefix, normalized_principal, check_principals,
  new_authorizer, hash_token, principal_has_role, authorize_bearer, validate_hash,
}

-- A principal of a list has a property.
abbrev pub Exists : (Principal → Type 0) → List Principal → Type 0
Exists P [] = ⊥
Exists P (p ∷ ps) = P p ⊎ Exists P ps

module _ (l : AuthLibrary) where
  -- A principal with the hash of a token, which may act in one of the roles.
  pub record IsBearer (token : String) (allowed : List String) (p : Principal) : Type 0 where
    pub holds : trim_space p.token_hash ≡ hash_token l token
    pub well_formed : validate_hash l (trim_space p.token_hash) ≡ true
    pub permitted : principal_has_role l (normalized_principal l p) allowed ≡ true

  check_principals-find :
      (given : List Principal) (seen : List String) (checked : List Principal) (p : Principal)
      (token : String) (allowed : List String)
      → check_principals l seen given ≡ passed checked
      → find? (λ q. q.token_hash == hash_token l token) checked ≡ some p
      → principal_has_role l p allowed ≡ true
      → Exists (IsBearer token allowed) given
  unfolding check_principals
  check_principals-find [] seen checked p token allowed h found permitted = ground (arith, h, found)
  check_principals-find (g ∷ gs) seen checked p token allowed h found permitted =
      let (others, rest, made, formed) : (others : List Principal) × (check_principals l
              ((normalized_principal l g).id ∷ seen) gs
            ≡ passed others)
          × (checked ≡ normalized_principal l g ∷ others)
          × (validate_hash l (trim_space g.token_hash) ≡ true) =
        ground (arith, h) in
      elim (Bool-cases (trim_space g.token_hash == hash_token l token)) [
        | inl own ↦
            let same : normalized_principal l g ≡ p = ground (arith, found, made, own) in
            inl (record {
              holds = ground (arith, own);
              well_formed = formed;
              permitted = rw same permitted;
            })
        | inr other ↦ inr (
            check_principals-find gs ((normalized_principal l g).id ∷ seen) others p token allowed
              rest (ground (arith, found, made, other)) permitted)
      ]

  check_principals-not_empty :
      (g : Principal) (gs checked : List Principal)
      → check_principals l [] (g ∷ gs) ≡ passed checked
      → is_empty checked ≡ false
  unfolding check_principals
  check_principals-not_empty g gs checked h = ground (arith, h)

  -- An authorizer that `New` makes lets a request pass only if its header is "Bearer " and a token whose
  -- hash is the well-formed hash of one of the given principals, and that principal, with its roles
  -- normalized, is an admin, has one of the allowed roles, or no roles are asked for.
  pub authorize_bearer-principal :
      (given : List Principal) (a : Authorizer) (header : String) (allowed : List String)
      → new_authorizer l given ≡ passed a
      → authorize_bearer l a header allowed ≡ true
      → (starts_with header "Bearer " ≡ true)
        × (trim_space (without_prefix "Bearer " header) ≢ "")
        × Exists (IsBearer (trim_space (without_prefix "Bearer " header)) allowed) given
  unfolding new_authorizer authorize_bearer
  authorize_bearer-principal [] a header allowed made admitted = ground (arith, made)
  authorize_bearer-principal (g ∷ gs) a header allowed made admitted =
      let token = trim_space (without_prefix "Bearer " header) in
      let (checked, passed_, fields) : (checked : List Principal) × (check_principals l [] (g ∷ gs)
            ≡ passed checked)
          × (a ≡ record { principals = checked; hosted = [] }) =
        ground (arith, made) in
      let some_ : is_empty checked ≡ false = check_principals-not_empty g gs checked passed_ in
      elim (Option-cases (find? (λ q. q.token_hash == hash_token l token) checked)) [
        | inl absent ↦ ground (arith, admitted, fields, some_, absent)
        | inr (p, found) ↦ (
          ground (arith, admitted, fields, some_),
          ground (arith, admitted, fields, some_),
          check_principals-find (g ∷ gs) [] checked p token allowed passed_ found
              (ground (arith, admitted, fields, some_, found)),
        )
      ]
