-- ===== src/Gateway/Bundles.antt =====
-- internal/gateway/memory.go: making, renewing and replacing the signed bundle of trusted keys.
use Prim.Native.String.{◌++◌ as join}
use remote_dev_skillkit.Prelude.{String, Bool, true, false, [], ◌∷◌, ℤ, pos, if◌then◌else◌}
use remote_dev_skillkit.Prelude.Int.{◌+ℤ◌, wrap_int64}
use remote_dev_skillkit.Prelude.Errors.{Checked, passed, refused, ◌>>=◌, ◌>>◌}
use remote_dev_skillkit.Trust.{
  TrustKey, SignedTrustBundle, TrustBundle, TrustError, active_trust_bundle, new_trust_key,
}
use remote_dev_skillkit.Trust.Bundle.{
  one_day, new_signed_trust_bundle, sign_bundle, hash_of, verify_update,
}
use remote_dev_skillkit.ControlPlane.Session.{Time}
use remote_dev_skillkit.ControlPlane.World.{World, before}
use remote_dev_skillkit.ControlPlane.Store.{State}
use remote_dev_skillkit.Gateway.{Config, MemoryGateway, append_audit, clock, ticked}

-- An hour, in nanoseconds.
abbrev pub one_hour : ℤ
one_hour = pos 3_600_000_000_000

module _ (config : Config) where
  -- `NewTrustKey` of the gateway's own key.
  abbrev pub own_key : Time → TrustKey
  own_key now =
      new_trust_key config.signing_id (config.crypto.encode64 config.public_key) "active" now

  unfoldable pub initial_signed_trust_bundle : Time → Checked TrustError SignedTrustBundle
  initial_signed_trust_bundle now = do
    b ←
        new_signed_trust_bundle config.crypto
          (record {
            bundle_id = "dev-gateway";
            sequence = pos 1;
            not_before = now;
            not_after = now +ℤ one_day;
            previous_bundle_hash = "";
            keys = own_key now ∷ [];
            signing_key_id = config.signing_id;
          })
          now
    sign_bundle config.crypto b config.private_key

  -- The bundle after `b`.
  unfoldable pub renewed_bundle : SignedTrustBundle → Time → Checked TrustError SignedTrustBundle
  renewed_bundle b now = do
    active_trust_bundle b config.signing_id now
    hash ← hash_of config.crypto b
    next ←
        new_signed_trust_bundle config.crypto
          (record {
            bundle_id = b.bundle_id;
            sequence = wrap_int64 (b.sequence +ℤ pos 1);
            not_before = now;
            not_after = now +ℤ one_day;
            previous_bundle_hash = hash;
            keys = own_key now ∷ [];
            signing_key_id = config.signing_id;
          })
          now
    sign_bundle config.crypto next config.private_key

  module _ ⦃w : World⦄ where
    abbrev pub with_bundle :
        String → String → String → SignedTrustBundle → MemoryGateway → MemoryGateway
    with_bundle actor action message next g =
        append_audit
          (record {
            actor = actor;
            action = action;
            target_id = next.bundle_id;
            message = join message (config.decimal next.sequence);
          })
          (record g { trust_bundle = next })

    abbrev pub after_renewal :
        Checked TrustError SignedTrustBundle
        → MemoryGateway
        → Checked TrustError (SignedTrustBundle × Bool) × MemoryGateway
    after_renewal (refused e) g = (refused e, g)
    after_renewal (passed next) g = (
      passed (next, true),
      with_bundle "gateway" "trust_bundle.renew" "renewed trust bundle to sequence " next g,
    )

    unfoldable pub renew_signed_trust_bundle :
        MemoryGateway → Checked TrustError (SignedTrustBundle × Bool) × MemoryGateway
    renew_signed_trust_bundle g =
        if before (clock g +ℤ one_hour) g.trust_bundle.not_after
        then (passed (g.trust_bundle, false), ticked g)
        else after_renewal (renewed_bundle g.trust_bundle (clock g)) (ticked g)

    abbrev pub after_update :
        Checked TrustError (Unit {0})
        → SignedTrustBundle
        → MemoryGateway
        → Checked TrustError SignedTrustBundle × MemoryGateway
    after_update (refused e) next g = (refused e, g)
    after_update (passed u) next g = (
      passed next,
      with_bundle "operator" "trust_bundle.update" "updated trust bundle to sequence " next g,
    )

    abbrev pub under_root :
        Checked TrustError TrustBundle
        → SignedTrustBundle
        → MemoryGateway
        → Checked TrustError SignedTrustBundle × MemoryGateway
    under_root (refused e) next g = (refused e, g)
    under_root (passed root) next g =
        after_update (verify_update config.crypto next g.trust_bundle root (clock g)) next
          (ticked g)

    unfoldable pub update_signed_trust_bundle :
        SignedTrustBundle → MemoryGateway → Checked TrustError SignedTrustBundle × MemoryGateway
    update_signed_trust_bundle next g =
        under_root (active_trust_bundle g.trust_bundle next.signing_key_id (clock g)) next
          (ticked g)

  -- `NewMemoryGatewayWithSigningKey`, whose error is a panic there.
  unfoldable pub new_memory_gateway : State → Time → Checked TrustError MemoryGateway
  new_memory_gateway control now = do
    b ← initial_signed_trust_bundle now
    passed (record { control = control; audit = []; trust_bundle = b })
