-- ===== src/Gateway/Renewal.antt =====
-- internal/gateway/memory.go: a host that trusts the gateway's key follows its renewals.
use remote_dev_skillkit.Prelude.{
  String, true, false, [], ◌∷◌, pos, some, ◌≡◌, arith, ap, sym, ◌∙◌, length, String_discrete,
}
use remote_dev_skillkit.Prelude.Int.{◌+ℤ◌, wrap_int64}
use remote_dev_skillkit.Prelude.Errors.{passed, >>=-passed}
use remote_dev_skillkit.Trust.{
  Bytes, SignedTrustBundle, SignedTrustBundleSpec, TrustBundle, active_trust_bundle, trust_key_of,
  ed25519_alg, new_trust_key,
}
use remote_dev_skillkit.Trust.Bundle.{
  new_signed_trust_bundle, hash_of, verify_update, is_revoked, one_day,
}
use remote_dev_skillkit.Trust.WellFormed.{validate_for_signing_lem}
use remote_dev_skillkit.Trust.Updates.{
  verify_update_lem, verify_bundle_lem, sign_bundle-verify, sign_bundle-passed, root_by,
}
use remote_dev_skillkit.ControlPlane.Session.{Time}
use remote_dev_skillkit.ControlPlane.World.{before, after}
use remote_dev_skillkit.Gateway.{Config}
use remote_dev_skillkit.Gateway.Bundles.{renewed_bundle, own_key}
use remote_dev_skillkit.Gateway.Following.{
  IsInt64, renewed_bundle-passed, new_signed_trust_bundle-passed, wrap_int64-rises,
}

module _ (config : Config)
    (base64 : (x : Bytes) → config.crypto.decode64 (config.crypto.encode64 x) ≡ some x)
    (base64_empty : config.crypto.decode64 "" ≡ some [])
    (signatures : (key m : Bytes) → length (config.crypto.sign key m) ≡ 64)
    (public_keys : (key : Bytes) → length (config.crypto.public_of key) ≡ 32)
    (ed25519 : (key m : Bytes)
      → config.crypto.verify (config.crypto.public_of key) m (config.crypto.sign key m) ≡ true)
    (own : config.public_key ≡ config.crypto.public_of config.private_key) where
  abbrev root_with : Bytes → TrustBundle
  root_with key = record {
    signing_key_id = config.signing_id;
    signing_alg = ed25519_alg;
    public_key = config.crypto.encode64 key;
  }

  -- The root of a host that trusts the gateway's key.
  abbrev own_root : TrustBundle
  own_root = root_with config.public_key

  -- The spec of a renewal.
  abbrev renewal : SignedTrustBundle → String → Time → SignedTrustBundleSpec
  renewal b hash now = record {
    bundle_id = b.bundle_id;
    sequence = wrap_int64 (b.sequence +ℤ pos 1);
    not_before = now;
    not_after = now +ℤ one_day;
    previous_bundle_hash = hash;
    keys = own_key config now ∷ [];
    signing_key_id = config.signing_id;
  }

  own-not_revoked :
      (now : Time) → is_revoked (trust_key_of config.signing_id (own_key config now ∷ [])) ≡ false
  unfolding trust_key_of new_trust_key String_discrete
  own-not_revoked now = ground arith

  -- What `RenewSignedTrustBundle` puts in place of a bundle, `VerifyUpdate` accepts on a host that
  -- holds that bundle and trusts the gateway's key, at any time that lies in the new window. The
  -- number of the old bundle is a Go integer, and the libraries do what is said at `sign_bundle-verify`.
  pub renewed_bundle-verify :
      (b next : SignedTrustBundle) (now later : Time)
      → IsInt64 b.sequence
      → renewed_bundle config b now ≡ passed next
      → before later next.not_before ≡ false
      → after later next.not_after ≡ false
      → verify_update config.crypto next b own_root later ≡ passed tt
  unfolding renewed_bundle
  renewed_bundle-verify b next now later size h begun over =
      let (root, active, h₁) = >>=-passed (active_trust_bundle b config.signing_id now) _ h in
      let (hash, hashed, h₂) = >>=-passed (hash_of config.crypto b) _ h₁ in
      let (bare, made, h₃) = >>=-passed (new_signed_trust_bundle config.crypto _ now) _ h₂ in
      let (link, number, valid) = renewed_bundle-passed config b next now h in
      let (m, encoded, fine, signed) =
        sign_bundle-passed config.crypto bare next config.private_key h₃ in
      let fields =
        new_signed_trust_bundle-passed config.crypto (renewal b hash now) now bare made in
      let good = (validate_for_signing_lem config.crypto next).0 valid in
      let rises = wrap_int64-rises b.sequence size (rw (sym number) good.numbered) in
      let kept =
        ap (λ x. is_revoked (trust_key_of x.signing_key_id x.keys)) fields ∙ own-not_revoked now in
      let verified =
        sign_bundle-verify config.crypto base64 base64_empty signatures public_keys ed25519 bare
          next config.private_key later h₃
          (sym (ap (λ x. before later x.not_before) signed) ∙ begun)
          (sym (ap (λ x. after later x.not_after) signed) ∙ over) kept in
      let root_same : root_by config.crypto bare config.private_key ≡ own_root =
        ap (λ x. root_by config.crypto x config.private_key) fields ∙ ap root_with (sym own) in
      (verify_update_lem config.crypto next b own_root later).1 (
        (verify_bundle_lem config.crypto next own_root later).0 (rw (sym root_same) verified),
        rw number rises,
        link,
      )
