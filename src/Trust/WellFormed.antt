-- ===== src/Trust/WellFormed.antt =====
-- internal/model/trust_bundle.go: what the checks of a bundle accept.
use remote_dev_skillkit.Prelude.{
  String, some, List, [], ◌∷◌, pos, ◌==◌, string_eq, nat_eq, true, false, length, any, is_some,
  is_empty, ◌≡◌, ◌≢◌, ◌↔◌, arith, ◌⊎◌, refl,
}
use remote_dev_skillkit.Prelude.Int.{ltb_ℤ}
use remote_dev_skillkit.Prelude.Errors.{passed}
use remote_dev_skillkit.ControlPlane.World.{is_zero, before}
use remote_dev_skillkit.Trust.{
  Bytes, TrustKey, SignedTrustBundle, Crypto, ed25519_alg, signed_trust_bundle_schema_version,
}
use remote_dev_skillkit.Trust.Bundle.{
  ed25519_public_key, validate_trust_key, validate_keys, validate_for_signing,
}

module _ (c : Crypto) where
  -- A key of a known status with a usable public key; a revoked one has the time of that.
  pub record IsTrustKey (k : TrustKey) : Type 0 where
    pub named : k.key_id ≢ ""
    pub algorithm : k.signing_alg ≡ ed25519_alg
    pub status : (k.status ≡ "active") ⊎ ((k.status ≡ "retired") ⊎ (k.status ≡ "revoked"))
    pub begins : is_zero k.not_before ≡ false
    pub dated : k.status ≡ "revoked" → is_some k.revoked_at ≡ true
    pub decodes : (key : Bytes) × (c.decode64 k.public_key ≡ some key) × (length key ≡ 32)

  -- Keys with different ids, none of them among the ids of a list.
  abbrev pub AreTrustKeys : List String → List TrustKey → Type 0
  AreTrustKeys seen [] = Unit
  AreTrustKeys seen (k ∷ ks) =
      IsTrustKey k × (any (λ id. id == k.key_id) seen ≡ false) × AreTrustKeys (k.key_id ∷ seen) ks

  pub record IsWellFormed (b : SignedTrustBundle) : Type 0 where
    pub schema : b.schema_version ≡ signed_trust_bundle_schema_version
    pub named : b.bundle_id ≢ ""
    pub numbered : ltb_ℤ (pos 0) b.sequence ≡ true
    pub issued : is_zero b.issued_at ≡ false
    pub begins : is_zero b.not_before ≡ false
    pub ends : is_zero b.not_after ≡ false
    pub window : before b.not_before b.not_after ≡ true
    pub algorithm : b.signing_alg ≡ ed25519_alg
    pub signer : b.signing_key_id ≢ ""
    pub has_keys : is_empty b.keys ≡ false
    pub keys : AreTrustKeys [] b.keys

  validate_trust_key_lem : (k : TrustKey) → (validate_trust_key c k ≡ passed tt) ↔ IsTrustKey k
  unfolding validate_trust_key ed25519_public_key
  validate_trust_key_lem k = (
    (λ h. record {
      named = ground (arith, h);
      algorithm = ground (arith, h);
      status = ground (arith, h);
      begins = ground (arith, h);
      dated = ground (arith, h);
      decodes = ground (arith, h);
    }),
    (λ i. ground (arith, i.named, i.algorithm, i.status, i.begins, i.dated, i.decodes)),
  )

  validate_keys_lem :
      (seen : List String) (ks : List TrustKey)
      → (validate_keys c seen ks ≡ passed tt) ↔ AreTrustKeys seen ks
  unfolding validate_keys
  validate_keys_lem seen [] = ((λ h. tt), (λ i. refl))
  validate_keys_lem seen (k ∷ ks) =
      let one = validate_trust_key_lem k in
      let rest = validate_keys_lem (k.key_id ∷ seen) ks in
      ((λ h. ground (arith, h, one.0, rest.0)), (λ i. ground (arith, one.1 i.0, i.1, rest.1 i.2)))

  -- A bundle passes the checks before signing just when it is well formed: schema, id, a positive
  -- sequence, a window that is not empty, the algorithm and a signer, and usable keys with different
  -- ids.
  pub validate_for_signing_lem :
      (b : SignedTrustBundle) → (validate_for_signing c b ≡ passed tt) ↔ IsWellFormed b
  unfolding validate_for_signing
  validate_for_signing_lem b =
      let keys_ = validate_keys_lem [] b.keys in
      (
        (λ h. record {
          schema = ground (arith, h);
          named = ground (arith, h);
          numbered = ground (arith, h);
          issued = ground (arith, h);
          begins = ground (arith, h);
          ends = ground (arith, h);
          window = ground (arith, h);
          algorithm = ground (arith, h);
          signer = ground (arith, h);
          has_keys = ground (arith, h);
          keys = keys_.0 (ground (arith, h));
        }),
        (λ i. ground (
          arith,
          i.schema,
          i.named,
          i.numbered,
          i.issued,
          i.begins,
          i.ends,
          i.window,
          i.algorithm,
          i.signer,
          i.has_keys,
          keys_.1 i.keys,
        )),
      )
