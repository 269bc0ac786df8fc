-- ===== src/Trust/Bundle.antt =====
-- internal/model/trust.go and trust_bundle.go: the checks of a bundle, and making, signing and
-- verifying one.
use remote_dev_skillkit.Prelude.{
  String, Bool, Option, none, some, List, [], ◌∷◌, ℤ, pos, ◌==◌, ◌!=◌, string_eq, nat_eq, not,
  false, ◌||◌, ◌&&◌, length, any, is_some, is_empty, if◌then◌else◌,
}
use Prim.Native.String.{◌++◌ as join}
use remote_dev_skillkit.Prelude.Int.{ltb_ℤ, ◌+ℤ◌}
use remote_dev_skillkit.Prelude.Errors.{Checked, passed, required, refuse_if, ◌>>=◌, ◌>>◌}
use remote_dev_skillkit.ControlPlane.Session.{Time}
use remote_dev_skillkit.ControlPlane.World.{is_zero, before, after}
use remote_dev_skillkit.Trust.{
  Bytes, TrustKey, SignedTrustBundle, SignedTrustBundleSpec, TrustBundle, TrustError, Crypto,
  trust_key_of, root_of, ed25519_alg, signed_trust_bundle_schema_version, invalid, expired,
  bad_signature, key_revoked, unsupported_algorithm, malformed_key, key_length, encoding_failed,
}

-- 24 hours, in nanoseconds.
abbrev pub one_day : ℤ
one_day = pos 86_400_000_000_000

abbrev pub is_revoked : Option TrustKey → Bool
is_revoked none = false
is_revoked (some k) = k.status == "revoked"

module _ (c : Crypto) where
  -- `TrustBundle.Ed25519PublicKey`
  unfoldable pub ed25519_public_key : TrustBundle → Checked TrustError Bytes
  ed25519_public_key b = do
    refuse_if (b.signing_alg != ed25519_alg) (unsupported_algorithm b.signing_alg)
    key ← required (c.decode64 b.public_key) malformed_key
    refuse_if (length key != 32) (key_length (length key))
    passed key

  unfoldable pub validate_trust_key : TrustKey → Checked TrustError (Unit {0})
  validate_trust_key k = do
    refuse_if (k.key_id == "") (invalid "key id is required")
    refuse_if (k.signing_alg != ed25519_alg) (invalid "unsupported key algorithm")
    refuse_if (k.status != "active" && k.status != "retired" && k.status != "revoked")
        (invalid "unsupported key status")
    refuse_if (is_zero k.not_before) (invalid "key not_before is required")
    refuse_if (k.status == "revoked" && not (is_some k.revoked_at))
        (invalid "revoked key requires revoked_at")
    ed25519_public_key (root_of k)
    passed tt

  -- The loop over the keys; `seen` holds the ids of those before.
  unfoldable pub validate_keys : List String → List TrustKey → Checked TrustError (Unit {0})
  validate_keys seen [] = passed tt
  validate_keys seen (k ∷ ks) = do
    validate_trust_key k
    refuse_if (any (λ id. id == k.key_id) seen) (invalid "duplicate key id")
    validate_keys (k.key_id ∷ seen) ks

  unfoldable pub validate_for_signing : SignedTrustBundle → Checked TrustError (Unit {0})
  validate_for_signing b = do
    refuse_if (b.schema_version != signed_trust_bundle_schema_version)
        (invalid "unsupported schema version")
    refuse_if (b.bundle_id == "" || not (ltb_ℤ (pos 0) b.sequence))
        (invalid "missing bundle identity")
    refuse_if
        (is_zero b.issued_at
          || is_zero b.not_before
          || is_zero b.not_after
          || not (before b.not_before b.not_after))
        (invalid "invalid validity window")
    refuse_if (b.signing_alg != ed25519_alg || b.signing_key_id == "")
        (invalid "unsupported signing metadata")
    refuse_if (is_empty b.keys) (invalid "at least one key is required")
    validate_keys [] b.keys

  -- The bundle that `NewSignedTrustBundle` checks.
  abbrev pub bundle_of : SignedTrustBundleSpec → Time → SignedTrustBundle
  bundle_of spec now =
      let from = if is_zero spec.not_before then now else spec.not_before in
      record {
        schema_version = signed_trust_bundle_schema_version;
        bundle_id = spec.bundle_id;
        sequence = spec.sequence;
        issued_at = now;
        not_before = from;
        not_after = if is_zero spec.not_after then from +ℤ one_day else spec.not_after;
        previous_bundle_hash = spec.previous_bundle_hash;
        keys = spec.keys;
        signing_alg = ed25519_alg;
        signing_key_id = spec.signing_key_id;
        signature = "";
      }

  unfoldable pub new_signed_trust_bundle :
      SignedTrustBundleSpec → Time → Checked TrustError SignedTrustBundle
  new_signed_trust_bundle spec now = do
    refuse_if (spec.bundle_id == "") (invalid "bundle id is required")
    refuse_if (not (ltb_ℤ (pos 0) spec.sequence)) (invalid "sequence must be positive")
    refuse_if (spec.signing_key_id == "") (invalid "signing key id is required")
    validate_for_signing (bundle_of spec now)
    passed (bundle_of spec now)

  unfoldable pub signing_bytes : SignedTrustBundle → Checked TrustError Bytes
  signing_bytes b = required (c.marshal (record b { signature = "" })) encoding_failed

  unfoldable pub hash_of : SignedTrustBundle → Checked TrustError String
  hash_of b = do content ← signing_bytes b; passed (join "sha256:" (c.sha256_hex content))

  unfoldable pub sign_bundle : SignedTrustBundle → Bytes → Checked TrustError SignedTrustBundle
  sign_bundle b private_key = do
    validate_for_signing b
    message ← signing_bytes b
    passed (record b { signature = c.encode64 (c.sign private_key message) })

  unfoldable pub verify_bundle :
      SignedTrustBundle → TrustBundle → Time → Checked TrustError (Unit {0})
  verify_bundle b root now = do
    validate_for_signing b
    refuse_if (b.signature == "") (bad_signature "missing signature")
    refuse_if (before now b.not_before || after now b.not_after) expired
    refuse_if (root.signing_key_id != b.signing_key_id) (invalid "trust root key id mismatch")
    public_key ← ed25519_public_key root
    signature ← required (c.decode64 b.signature) (bad_signature "malformed signature")
    message ← signing_bytes b
    refuse_if (not (c.verify public_key message signature)) (bad_signature "")
    refuse_if (is_revoked (trust_key_of root.signing_key_id b.keys))
        (key_revoked root.signing_key_id)

  -- `VerifyUpdate`
  unfoldable pub verify_update :
      SignedTrustBundle → SignedTrustBundle → TrustBundle → Time → Checked TrustError (Unit {0})
  verify_update b previous root now = do
    verify_bundle b root now
    refuse_if (not (ltb_ℤ previous.sequence b.sequence)) (invalid "sequence must increase")
    hash ← hash_of previous
    refuse_if (b.previous_bundle_hash != hash) (invalid "previous bundle hash mismatch")
