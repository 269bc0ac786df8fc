-- ===== src/Tests/OperatorAuth.antt =====
-- An operator file with one principal, and a request with its token.
use text.Mathlib.Text.{starts_with}
use remote_dev_skillkit.Prelude.{true, [], ◌∷◌, ◌≡◌, ◌≢◌, refl, String_discrete}
use remote_dev_skillkit.Prelude.Text.{byte_len, trim_space}
use native.Mathlib.Decide.{ℕ_discrete}
use remote_dev_skillkit.Prelude.Errors.{passed}
use remote_dev_skillkit.OperatorAuth.{
  Principal, Authorizer, AuthLibrary, new_authorizer, check_principals, normalize_roles,
  collect_roles, validate_hash, authorize_bearer, hash_token, principal_has_role, without_prefix,
}
use remote_dev_skillkit.OperatorAuth.Soundness.{Exists, IsBearer, authorize_bearer-principal}

abbrev library : AuthLibrary
library = record {
  is_hex = λ s. true;
  to_lower = λ s. s;
  sha256_hex = λ s. "aaaaaaaaaaaaaaaaaaaaaaaaaaaaaaaaaaaaaaaaaaaaaaaaaaaaaaaaaaaaaaaa";
  sort = λ roles. roles;
}

abbrev operator : Principal
operator = record {
  id = "operator";
  roles = "operator" ∷ "operator" ∷ "unknown" ∷ [];
  token_hash = "sha256:aaaaaaaaaaaaaaaaaaaaaaaaaaaaaaaaaaaaaaaaaaaaaaaaaaaaaaaaaaaaaaaa";
}

abbrev authorizer : Authorizer
authorizer = record { principals = record operator { roles = "operator" ∷ [] } ∷ []; hosted = [] }

made : new_authorizer library (operator ∷ []) ≡ passed authorizer
unfolding new_authorizer check_principals normalize_roles collect_roles validate_hash trim_space
    String_discrete ℕ_discrete byte_len
made = refl

admitted : authorize_bearer library authorizer "Bearer rdev_1" ("operator" ∷ []) ≡ true
unfolding authorize_bearer hash_token principal_has_role trim_space String_discrete ℕ_discrete
admitted = refl

authorize_bearer-principal_example :
    (starts_with "Bearer rdev_1" "Bearer " ≡ true)
    × (trim_space (without_prefix "Bearer " "Bearer rdev_1") ≢ "")
    × Exists
        (IsBearer library (trim_space (without_prefix "Bearer " "Bearer rdev_1")) ("operator" ∷ []))
        (operator ∷ [])
authorize_bearer-principal_example =
    authorize_bearer-principal library (operator ∷ []) authorizer "Bearer rdev_1" ("operator" ∷ [])
      made admitted
