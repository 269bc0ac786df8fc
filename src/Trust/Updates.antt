-- ===== src/Trust/Updates.antt =====
-- internal/model/trust_bundle.go: what a signed bundle and an accepted update are.
use remote_dev_skillkit.Prelude.{
  some, [], string_eq, nat_eq, true, false, length, ◌≡◌, ◌≢◌, ◌↔◌, arith, refl, ap,
}
use remote_dev_skillkit.Prelude.Int.{ltb_ℤ}
use remote_dev_skillkit.Prelude.Errors.{passed, >>=-passed}
use remote_dev_skillkit.ControlPlane.Session.{Time}
use remote_dev_skillkit.ControlPlane.World.{before, after}
use remote_dev_skillkit.Trust.{
  Bytes, SignedTrustBundle, TrustBundle, Crypto, trust_key_of, ed25519_alg,
}
use remote_dev_skillkit.Trust.Bundle.{
  ed25519_public_key, validate_for_signing, verify_bundle, sign_bundle, signing_bytes, hash_of,
  verify_update, is_revoked,
}
use remote_dev_skillkit.Trust.WellFormed.{IsWellFormed, validate_for_signing_lem}

module _ (c : Crypto) where
  -- The signature of a bundle is one of its other fields under the key of a root.
  pub record IsSigned (b : SignedTrustBundle) (root : TrustBundle) : Type 0 where
    pub key : Bytes
    pub signature : Bytes
    pub message : Bytes
    pub algorithm : root.signing_alg ≡ ed25519_alg
    pub key_decodes : c.decode64 root.public_key ≡ some key
    pub key_size : length key ≡ 32
    pub signature_decodes : c.decode64 b.signature ≡ some signature
    pub encodes : c.marshal (record b { signature = "" }) ≡ some message
    pub verifies : c.verify key message signature ≡ true

  pub record IsVerified (b : SignedTrustBundle) (root : TrustBundle) (now : Time) : Type 0 where
    pub well_formed : IsWellFormed c b
    pub signed : b.signature ≢ ""
    pub begun : before now b.not_before ≡ false
    pub not_over : after now b.not_after ≡ false
    pub same_key : root.signing_key_id ≡ b.signing_key_id
    pub by_root : IsSigned b root
    pub not_revoked : is_revoked (trust_key_of root.signing_key_id b.keys) ≡ false

  ed25519_public_key-passed :
      (root : TrustBundle) (key : Bytes)
      → ed25519_public_key c root ≡ passed key
      → (root.signing_alg ≡ ed25519_alg)
        × (c.decode64 root.public_key ≡ some key)
        × (length key ≡ 32)
  unfolding ed25519_public_key
  ed25519_public_key-passed root key h = ground (arith, h)

  -- `Verify` accepts a bundle at a time just when it is well formed, the time lies in its window, the
  -- root is the one it names and verifies its signature over all the other fields, and the bundle
  -- does not say that this key is revoked.
  pub verify_bundle_lem :
      (b : SignedTrustBundle) (root : TrustBundle) (now : Time)
      → (verify_bundle c b root now ≡ passed tt) ↔ IsVerified b root now
  unfolding verify_bundle signing_bytes ed25519_public_key
  verify_bundle_lem b root now = (
    (λ h. record {
      well_formed = (validate_for_signing_lem c b).0 (ground (arith, h));
      signed = ground (arith, h);
      begun = ground (arith, h);
      not_over = ground (arith, h);
      same_key = ground (arith, h);
      by_root =
          let (key, key_eq, s, s_eq, m, m_eq, ver) : (key : Bytes) × (ed25519_public_key c root
                ≡ passed key)
              × (s : Bytes) × (c.decode64 b.signature ≡ some s)
              × (m : Bytes) × (c.marshal (record b { signature = "" }) ≡ some m)
              × (c.verify key m s ≡ true) =
            ground (arith, h) in
          let (alg, decodes, size) = ed25519_public_key-passed root key key_eq in
          record {
            key = key;
            signature = s;
            message = m;
            algorithm = alg;
            key_decodes = decodes;
            key_size = size;
            signature_decodes = s_eq;
            encodes = m_eq;
            verifies = ver;
          };
      not_revoked = ground (arith, h);
    }),
    (λ v.
        let valid = (validate_for_signing_lem c b).1 v.well_formed in
        let s = v.by_root in
        ground (
          arith, valid, v.signed, v.begun, v.not_over, v.same_key, s.algorithm, s.key_decodes,
          s.key_size, s.signature_decodes, s.encodes, s.verifies, v.not_revoked,
        )),
  )

  -- An update that `VerifyUpdate` accepts is verified, has a larger sequence number than the bundle
  -- before it, and names the hash of that one; and every such update is accepted.
  pub verify_update_lem :
      (b previous : SignedTrustBundle) (root : TrustBundle) (now : Time)
      → (verify_update c b previous root now ≡ passed tt) ↔ (
          IsVerified b root now
          × (ltb_ℤ previous.sequence b.sequence ≡ true)
          × (hash_of c previous ≡ passed b.previous_bundle_hash))
  unfolding verify_update
  verify_update_lem b previous root now =
      let verified = verify_bundle_lem b root now in
      (
        (λ h. (verified.0 (ground (arith, h)), ground (arith, h), ground (arith, h))),
        (λ v. ground (arith, verified.1 v.0, v.1, v.2)),
      )

  -- The root for a private key and the signer that a bundle names.
  abbrev pub root_by : SignedTrustBundle → Bytes → TrustBundle
  root_by b private_key = record {
    signing_key_id = b.signing_key_id;
    signing_alg = ed25519_alg;
    public_key = c.encode64 (c.public_of private_key);
  }

  abbrev pub signed_by : SignedTrustBundle → Bytes → Bytes → SignedTrustBundle
  signed_by b private_key m = record b { signature = c.encode64 (c.sign private_key m) }

  pub sign_bundle-passed :
      (b signed : SignedTrustBundle) (private_key : Bytes)
      → sign_bundle c b private_key ≡ passed signed
      → (m : Bytes) × (c.marshal (record b { signature = "" }) ≡ some m)
        × (validate_for_signing c (signed_by b private_key m) ≡ passed tt)
        × (signed ≡ signed_by b private_key m)
  unfolding sign_bundle signing_bytes validate_for_signing
  sign_bundle-passed b signed private_key h =
      let (u, valid, h₁) = >>=-passed (validate_for_signing c b) _ h in
      let (m, encoded, h₂) = >>=-passed (signing_bytes c b) _ h₁ in
      (m, ground (arith, encoded), valid, ground (arith, h₂))

  module _ (base64 : (x : Bytes) → c.decode64 (c.encode64 x) ≡ some x)
      (base64_empty : c.decode64 "" ≡ some [])
      (signatures : (key m : Bytes) → length (c.sign key m) ≡ 64)
      (public_keys : (key : Bytes) → length (c.public_of key) ≡ 32)
      (ed25519 : (key m : Bytes) → c.verify (c.public_of key) m (c.sign key m) ≡ true) where
    encoded_signature : (key m : Bytes) → c.encode64 (c.sign key m) ≢ ""
    encoded_signature key m eq =
        ground (arith, base64 (c.sign key m), ap c.decode64 eq, base64_empty, signatures key m)

    -- What `Sign` answers under a private key, `Verify` accepts under the root with its public key and
    -- the signer's id, at any time in the window, unless the bundle says that this key is revoked. Base
    -- 64 decodes what it encodes, Ed25519 verifies its own signatures, and its keys and signatures have
    -- their sizes.
    pub sign_bundle-verify :
        (b signed : SignedTrustBundle) (private_key : Bytes) (now : Time)
        → sign_bundle c b private_key ≡ passed signed
        → before now b.not_before ≡ false
        → after now b.not_after ≡ false
        → is_revoked (trust_key_of b.signing_key_id b.keys) ≡ false
        → verify_bundle c signed (root_by b private_key) now ≡ passed tt
    sign_bundle-verify b signed private_key now h begun over kept =
        let (m, encoded, valid, eq) = sign_bundle-passed b signed private_key h in
        rw (
          eq,
          (verify_bundle_lem (signed_by b private_key m) (root_by b private_key) now).1 record {
            well_formed = (validate_for_signing_lem c (signed_by b private_key m)).0 valid;
            signed = encoded_signature private_key m;
            begun = begun;
            not_over = over;
            same_key = refl;
            by_root = record {
              key = c.public_of private_key;
              signature = c.sign private_key m;
              message = m;
              algorithm = refl;
              key_decodes = base64 (c.public_of private_key);
              key_size = public_keys private_key;
              signature_decodes = base64 (c.sign private_key m);
              encodes = encoded;
              verifies = ed25519 private_key m;
            };
            not_revoked = kept;
          },
        )
