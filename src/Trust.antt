-- ===== src/Trust.antt =====
-- internal/model/trust.go, trust_bundle.go and trust_bundle_update.go: the keys that a gateway's
-- hosts trust, in a bundle that is signed, checked and replaced. Times are instants.
pub mod Bundle
pub mod WellFormed
pub mod Updates
use remote_dev_skillkit.Prelude.{
  ℕ, String, Bool, Option, none, some, List, [], ◌∷◌, ℤ, ◌==◌, ◌!=◌, string_eq, nat_eq, not, true,
  false, ◌||◌, if◌then◌else◌,
}
use Prim.Native.String.{◌++◌ as join}
use remote_dev_skillkit.Prelude.Errors.{Checked, passed, refused, required, refuse_if, ◌>>=◌, ◌>>◌}
use remote_dev_skillkit.ControlPlane.Session.{Time}
use remote_dev_skillkit.ControlPlane.World.{is_zero, before, after}

abbrev pub Bytes : Type 0
Bytes = List ℕ

pub record TrustKey : Type 0 where
  pub key_id : String
  pub signing_alg : String
  pub public_key : String
  pub status : String
  pub not_before : Time
  pub not_after : Option Time
  pub revoked_at : Option Time
  pub revoked_reason : String

pub record SignedTrustBundle : Type 0 where
  pub schema_version : String
  pub bundle_id : String
  pub sequence : ℤ
  pub issued_at : Time
  pub not_before : Time
  pub not_after : Time
  pub previous_bundle_hash : String
  pub keys : List TrustKey
  pub signing_alg : String
  pub signing_key_id : String
  pub signature : String

pub record SignedTrustBundleSpec : Type 0 where
  pub bundle_id : String
  pub sequence : ℤ
  pub not_before : Time
  pub not_after : Time
  pub previous_bundle_hash : String
  pub keys : List TrustKey
  pub signing_key_id : String

-- One trusted key, the root of a bundle's signature.
pub record TrustBundle : Type 0 where
  pub signing_key_id : String
  pub signing_alg : String
  pub public_key : String

-- The four errors of the package with the text that wraps them, and those of decoding a key or
-- encoding a bundle.
pub data TrustError : Type 0 where
  invalid : String → TrustError
  expired : TrustError
  bad_signature : String → TrustError
  key_revoked : String → TrustError
  unsupported_algorithm : String → TrustError
  malformed_key : TrustError
  key_length : ℕ → TrustError
  encoding_failed : TrustError

-- The packages ed25519, base64, json and sha256 of the standard library, over lists of bytes. `marshal`
-- is `json.Marshal` of a bundle.
pub record Crypto : Type 0 where
  pub encode64 : Bytes → String
  pub decode64 : String → Option Bytes
  pub marshal : SignedTrustBundle → Option Bytes
  pub sha256_hex : Bytes → String
  -- Of a private key and a message.
  pub sign : Bytes → Bytes → Bytes
  -- Of a public key, a message and a signature.
  pub verify : Bytes → Bytes → Bytes → Bool
  pub public_of : Bytes → Bytes

abbrev pub signed_trust_bundle_schema_version : String
signed_trust_bundle_schema_version = "rdev.trust-bundle.v1"

abbrev pub ed25519_alg : String
ed25519_alg = "ed25519"

-- `NewTrustKey`, of the encoded public key.
unfoldable pub new_trust_key : String → String → String → Time → TrustKey
new_trust_key key_id public_key status now = record {
  key_id = key_id;
  signing_alg = ed25519_alg;
  public_key = public_key;
  status = if status == "" then "active" else status;
  not_before = now;
  not_after = none;
  revoked_at = none;
  revoked_reason = "";
}

abbrev pub root_of : TrustKey → TrustBundle
root_of k = record {
  signing_key_id = k.key_id;
  signing_alg = k.signing_alg;
  public_key = k.public_key;
}

past_end : Option Time → Time → Bool
past_end none now = false
past_end (some end) now = after now end

unfoldable pub active_at : TrustKey → Time → Bool
unfolding past_end
active_at k now =
    if k.status != "active"
    then false
    else if is_zero k.not_before || before now k.not_before
    then false
    else not (past_end k.not_after now)

-- `Key`: the first key with the id.
unfoldable pub trust_key_of : String → List TrustKey → Option TrustKey
trust_key_of key_id [] = none
trust_key_of key_id (k ∷ ks) =
    let rest = trust_key_of key_id ks in if k.key_id == key_id then some k else rest

active_key : Option TrustKey → String → Time → Checked TrustError TrustBundle
active_key none key_id now = refused (invalid "key not found")
active_key (some k) key_id now = do
  refuse_if (k.status == "revoked") (key_revoked key_id)
  refuse_if (not (active_at k now)) (invalid "key is not active")
  passed (root_of k)

unfoldable pub active_trust_bundle :
    SignedTrustBundle → String → Time → Checked TrustError TrustBundle
unfolding active_key
active_trust_bundle b key_id now = active_key (trust_key_of key_id b.keys) key_id now
