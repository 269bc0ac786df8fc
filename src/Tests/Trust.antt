-- ===== src/Tests/Trust.antt =====
-- A gateway with a toy code, signature and hash, its first bundle and a renewal.
use Prim.Native.Char.{code}
use remote_dev_skillkit.Prelude.{
  ℕ, zero, suc, ◌+◌, String, true, false, Option, some, List, [], ◌∷◌, ◌≡◌, ◌↔◌, refl, pos, ◌==◌,
  string_eq, nat_eq, String_discrete, if◌then◌else◌, length, arith,
}
use mathlib.Core.Option.{map}
use remote_dev_skillkit.Prelude.Int.{ℤ_discrete, ◌+ℤ◌, wrap_int64}
use native.Mathlib.Decide.{ℕ_discrete}
use remote_dev_skillkit.Prelude.Errors.{passed}
use remote_dev_skillkit.Trust.{
  Bytes, Crypto, SignedTrustBundle, new_trust_key, active_at, active_trust_bundle, trust_key_of,
}
use remote_dev_skillkit.Trust.Bundle.{
  new_signed_trust_bundle, sign_bundle, hash_of, verify_update, verify_bundle, validate_for_signing,
  validate_keys, validate_trust_key, ed25519_public_key, signing_bytes, is_revoked,
}
use remote_dev_skillkit.Trust.WellFormed.{IsWellFormed, validate_for_signing_lem}
use remote_dev_skillkit.Trust.Updates.{
  IsVerified, verify_bundle_lem, verify_update_lem, sign_bundle-verify, root_by,
}
use remote_dev_skillkit.Gateway.{Config, MemoryGateway}
use remote_dev_skillkit.Gateway.Bundles.{initial_signed_trust_bundle, renewed_bundle, own_key}
use remote_dev_skillkit.Gateway.Runs.{GatewayCall, create, renew, audit, update, gateway_run}
use remote_dev_skillkit.Gateway.Log.{Continues, gateway_run-Continues}
use remote_dev_skillkit.Gateway.Following.{Follows, gateway_run-Follows}
use remote_dev_skillkit.Gateway.Renewal.{renewed_bundle-verify}
use remote_dev_skillkit.Tests.Data.{test_world, spec, store, at_start}

-- A number in unary, with an end mark.
written : ℕ → String → String
written zero s = String.◌∷◌ "b" s
written (suc n) s = String.◌∷◌ "a" (written n s)

encoded : Bytes → String
encoded [] = ""
encoded (n ∷ ns) = written n (encoded ns)

decoded : ℕ → String → Option Bytes
decoded k String.[] = some []
decoded k (String.◌∷◌ c s) =
    let more = decoded (suc k) s in
    let rest = decoded 0 s in if code c == 97 then more else map (λ xs. k ∷ xs) rest

decoded-written :
    (k n : ℕ) (s : String) (xs : Bytes)
    → decoded 0 s ≡ some xs
    → decoded k (written n s) ≡ some ((k + n) ∷ xs)
unfolding decoded written ℕ_discrete
decoded-written k zero s xs h = ground (arith, h)
decoded-written k (suc n) s xs h = ground (arith, decoded-written (suc k) n s xs h)

decoded-encoded : (x : Bytes) → decoded 0 (encoded x) ≡ some x
unfolding encoded decoded
decoded-encoded [] = refl
decoded-encoded (n ∷ ns) = ground (arith, decoded-written 0 n (encoded ns) ns (decoded-encoded ns))

bytes : ℕ → Bytes
bytes zero = []
bytes (suc n) = 7 ∷ bytes n

abbrev crypto : Crypto
crypto = record {
  encode64 = encoded;
  decode64 = decoded 0;
  marshal = λ b. some (1 ∷ 2 ∷ []);
  sha256_hex = λ m. "hash";
  sign = λ key m. bytes 64;
  verify = λ key m s. length s == 64;
  public_of = λ key. bytes 32;
}

base64_empty : decoded 0 "" ≡ some []
unfolding decoded
base64_empty = refl

signature_size : length (bytes 64) ≡ 64
unfolding bytes
signature_size = refl

public_key_size : length (bytes 32) ≡ 32
unfolding bytes
public_key_size = refl

signature_verifies : (length (bytes 64) == 64) ≡ true
unfolding bytes ℕ_discrete
signature_verifies = refl

abbrev config : Config
config = record {
  crypto = crypto;
  decimal = λ n. "n";
  signing_id = "gateway-dev";
  public_key = bytes 32;
  private_key = [];
}

abbrev first_bundle : SignedTrustBundle
first_bundle = record {
  schema_version = "rdev.trust-bundle.v1";
  bundle_id = "dev-gateway";
  sequence = pos 1;
  issued_at = pos 1_000;
  not_before = pos 1_000;
  not_after = pos 86_400_000_001_000;
  previous_bundle_hash = "";
  keys = own_key config (pos 1_000) ∷ [];
  signing_alg = "ed25519";
  signing_key_id = "gateway-dev";
  signature = encoded (bytes 64);
}

made : initial_signed_trust_bundle config (pos 1_000) ≡ passed first_bundle
unfolding initial_signed_trust_bundle new_signed_trust_bundle sign_bundle validate_for_signing
    validate_keys validate_trust_key ed25519_public_key signing_bytes new_trust_key encoded decoded
    written bytes String_discrete ℤ_discrete ℕ_discrete ◌+ℤ◌
made = refl

abbrev later : ℕ
later = 86_400_000_000_000

abbrev second_bundle : SignedTrustBundle
second_bundle = record first_bundle {
  sequence = pos 2;
  issued_at = pos later;
  not_before = pos later;
  not_after = pos (later + 86_400_000_000_000);
  previous_bundle_hash = "sha256:hash";
  keys = own_key config (pos later) ∷ [];
}

renewed : renewed_bundle config first_bundle (pos later) ≡ passed second_bundle
unfolding renewed_bundle active_trust_bundle active_at trust_key_of hash_of new_signed_trust_bundle
    sign_bundle validate_for_signing validate_keys validate_trust_key ed25519_public_key
    signing_bytes new_trust_key encoded decoded written bytes String_discrete ℤ_discrete ℕ_discrete
    ◌+ℤ◌ wrap_int64
renewed = refl

renewed_bundle-verify_example :
    verify_update crypto second_bundle first_bundle
      (record {
        signing_key_id = "gateway-dev";
        signing_alg = "ed25519";
        public_key = encoded (bytes 32);
      })
      (pos later)
    ≡ passed tt
unfolding bytes
renewed_bundle-verify_example =
    renewed_bundle-verify config decoded-encoded base64_empty (λ key m. signature_size)
      (λ key. public_key_size) (λ key m. signature_verifies) refl first_bundle second_bundle
      (pos later) (pos later) (ground arith) renewed refl refl

validate_for_signing_lem_example :
    (validate_for_signing crypto first_bundle ≡ passed tt) ↔ IsWellFormed crypto first_bundle
validate_for_signing_lem_example = validate_for_signing_lem crypto first_bundle

verify_bundle_lem_example :
    (verify_bundle crypto first_bundle (root_by crypto first_bundle []) (pos later) ≡ passed tt)
    ↔ IsVerified crypto first_bundle (root_by crypto first_bundle []) (pos later)
verify_bundle_lem_example =
    verify_bundle_lem crypto first_bundle (root_by crypto first_bundle []) (pos later)

verify_update_lem_example :
    (verify_update crypto second_bundle first_bundle (root_by crypto first_bundle []) (pos later)
      ≡ passed tt)
    ↔ (IsVerified crypto second_bundle (root_by crypto first_bundle []) (pos later)
        × (true ≡ true)
        × (hash_of crypto first_bundle ≡ passed "sha256:hash"))
verify_update_lem_example =
    verify_update_lem crypto second_bundle first_bundle (root_by crypto first_bundle []) (pos later)

abbrev unsigned : SignedTrustBundle
unsigned = record first_bundle { signature = "" }

signed_again : sign_bundle crypto unsigned [] ≡ passed first_bundle
unfolding sign_bundle validate_for_signing validate_keys validate_trust_key ed25519_public_key
    signing_bytes new_trust_key encoded decoded written bytes String_discrete ℤ_discrete ℕ_discrete
signed_again = refl

not_revoked : is_revoked (trust_key_of "gateway-dev" unsigned.keys) ≡ false
unfolding trust_key_of new_trust_key String_discrete
not_revoked = refl

sign_bundle-verify_example :
    verify_bundle crypto first_bundle (root_by crypto unsigned []) (pos later) ≡ passed tt
sign_bundle-verify_example =
    sign_bundle-verify crypto decoded-encoded base64_empty (λ key m. signature_size)
      (λ key. public_key_size) (λ key m. signature_verifies) unsigned first_bundle [] (pos later)
      signed_again refl refl not_revoked

abbrev gateway : MemoryGateway
gateway = record { control = at_start store; audit = []; trust_bundle = first_bundle }

abbrev calls : List GatewayCall
calls =
    create spec
    ∷ renew
    ∷ audit (record { actor = "target"; action = "read"; target_id = "end"; message = "" })
    ∷ update second_bundle
    ∷ []

gateway_run-Continues_example : Continues [] (gateway_run config calls gateway).audit
gateway_run-Continues_example = gateway_run-Continues config calls gateway

gateway_run-Follows_example :
    Follows crypto first_bundle (gateway_run config calls gateway).trust_bundle
gateway_run-Follows_example =
    gateway_run-Follows config calls gateway (ground arith) (tt, (tt, (tt, (ground arith, tt))))
