-- ===== src/OperatorAuth.antt =====
-- internal/operatorauth/auth.go: the principals of an operator file, and whether a bearer token lets a
-- request pass. Other sources of tokens are functions of the header and the roles; SHA-256 and
-- strings.ToLower are arguments.
pub mod Soundness
use Prim.Native.String.{◌++◌ as join, len, slice}
use text.Mathlib.Text.{starts_with}
use remote_dev_skillkit.Prelude.{
  ℕ, String, Bool, true, false, not, ◌&&◌, ◌||◌, Option, none, some, List, [], ◌∷◌, ◌==◌, ◌!=◌,
  string_eq, nat_eq, if◌then◌else◌, any, is_empty, map, find?,
}
use remote_dev_skillkit.Prelude.Text.{byte_len, trim_space}
use remote_dev_skillkit.Prelude.Errors.{Checked, passed, refused, required, refuse_if, ◌>>=◌, ◌>>◌}

pub record Principal : Type 0 where
  pub id : String
  pub roles : List String
  pub token_hash : String

-- An enabled source other than the principals.
abbrev pub BearerAuthSource : Type 0
BearerAuthSource = String → List String → Bool

pub record Authorizer : Type 0 where
  pub principals : List Principal
  pub hosted : List BearerAuthSource

pub data AuthError : Type 0 where
  no_principal missing_id duplicate_id missing_role missing_hash bad_hash : AuthError

-- `hex.DecodeString` of a text that succeeds, `strings.ToLower`, and SHA-256 in hexadecimal.
pub record AuthLibrary : Type 0 where
  pub is_hex : String → Bool
  pub to_lower : String → String
  pub sha256_hex : String → String
  -- `sort.Strings`
  pub sort : List String → List String

-- `strings.TrimPrefix`
abbrev pub without_prefix : String → String → String
without_prefix prefix s = if starts_with s prefix then slice s (len prefix) (len s) else s

abbrev pub has_role : String → List String → Bool
has_role role roles = any (λ r. r == role) roles

module _ (l : AuthLibrary) where
  -- The loop of `normalizeRoles`; `seen` holds the roles before.
  unfoldable pub collect_roles : List String → List String → List String
  collect_roles seen [] = []
  collect_roles seen (given ∷ rest) =
      let role = trim_space (l.to_lower given) in
      let skipped = collect_roles seen rest in
      let added = collect_roles (role ∷ seen) rest in
      if role == "" || has_role role seen
      then skipped
      else if role == "admin" || role == "operator" || role == "issuer" || role == "auditor"
      then role ∷ added
      else skipped

  unfoldable pub normalize_roles : List String → List String
  normalize_roles roles = l.sort (collect_roles [] roles)

  unfoldable pub validate_hash : String → Bool
  validate_hash value =
      starts_with value "sha256:"
      && byte_len (without_prefix "sha256:" value) == 64
      && l.is_hex (without_prefix "sha256:" value)

  abbrev pub normalized_principal : Principal → Principal
  normalized_principal p = record {
    id = trim_space p.id;
    roles = normalize_roles p.roles;
    token_hash = trim_space p.token_hash;
  }

  -- The loop of `New`; `seen` holds the ids before.
  unfoldable pub check_principals :
      List String → List Principal → Checked AuthError (List Principal)
  check_principals seen [] = passed []
  check_principals seen (given ∷ rest) = do
    refuse_if ((normalized_principal given).id == "") missing_id
    refuse_if (has_role (normalized_principal given).id seen) duplicate_id
    refuse_if (is_empty (normalized_principal given).roles) missing_role
    refuse_if ((normalized_principal given).token_hash == "") missing_hash
    refuse_if (not (validate_hash (normalized_principal given).token_hash)) bad_hash
    others ← check_principals ((normalized_principal given).id ∷ seen) rest
    passed (normalized_principal given ∷ others)

  unfoldable pub new_authorizer : List Principal → Checked AuthError Authorizer
  new_authorizer principals = do
    refuse_if (is_empty principals) no_principal
    checked ← check_principals [] principals
    passed (record { principals = checked; hosted = [] })

  -- A source that may be nil, and whether it is enabled.
  unfoldable pub enabled_sources : List (Option (Bool × BearerAuthSource)) → List BearerAuthSource
  enabled_sources [] = []
  enabled_sources (none ∷ rest) = enabled_sources rest
  enabled_sources (some (enabled, f) ∷ rest) =
      let others = enabled_sources rest in if enabled then f ∷ others else others

  abbrev authorizer_of : List Principal → Checked AuthError Authorizer
  authorizer_of [] = passed (record { principals = []; hosted = [] })
  authorizer_of (p ∷ ps) = new_authorizer (p ∷ ps)

  unfoldable pub new_combined_sources :
      List Principal → List (Option (Bool × BearerAuthSource)) → Checked AuthError Authorizer
  new_combined_sources principals hosted = do
    refuse_if (is_empty principals && is_empty hosted) no_principal
    made ← authorizer_of principals
    refuse_if (is_empty made.principals && is_empty (enabled_sources hosted)) no_principal
    passed (record made { hosted = enabled_sources hosted })

  unfoldable pub hash_token : String → String
  hash_token token = join "sha256:" (l.sha256_hex token)

  unfoldable pub principal_has_role : Principal → List String → Bool
  principal_has_role p allowed =
      is_empty allowed || has_role "admin" p.roles || any (λ r. has_role r p.roles) allowed

  -- The loops of `AuthorizeBearer`: the first principal with the token decides, and without one any
  -- source may.
  abbrev pub decided : Option Principal → List BearerAuthSource → String → List String → Bool
  decided none sources header allowed = any (λ f. f header allowed) sources
  decided (some p) sources header allowed = principal_has_role p allowed

  abbrev pub with_token : Authorizer → String → List String → String → Bool
  with_token a header allowed token =
      if token == ""
      then false
      else decided (find? (λ p. p.token_hash == hash_token token) a.principals) a.hosted header
          allowed

  -- `AuthorizeBearer`, of an authorizer that is not nil.
  unfoldable pub authorize_bearer : Authorizer → String → List String → Bool
  authorize_bearer a header allowed =
      if is_empty a.principals && is_empty a.hosted
      then true
      else if not (starts_with header "Bearer ")
      then false
      else with_token a header allowed (trim_space (without_prefix "Bearer " header))
