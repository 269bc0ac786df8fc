-- ===== src/Gateway/Following.antt =====
-- internal/gateway/memory.go: the bundle of trusted keys in every run of the gateway.
use remote_dev_skillkit.Prelude.{
  ◌<◌, ◌^◌, true, List, [], ◌∷◌, ℤ, pos, negsuc, Bool-cases, inl, inr, ◌≡◌, refl, arith, All, ap,
  sym, ◌∙◌,
}
use remote_dev_skillkit.Prelude.Int.{◌+ℤ◌, ltb_ℤ, pos_part, wrap_int64}
use remote_dev_skillkit.Prelude.Errors.{Checked, passed, refused, >>=-passed}
use remote_dev_skillkit.Exec.{Result, ok, err}
use remote_dev_skillkit.Trust.{
  SignedTrustBundle, SignedTrustBundleSpec, Crypto, TrustBundle, TrustError, active_trust_bundle,
}
use remote_dev_skillkit.Trust.Bundle.{
  new_signed_trust_bundle, bundle_of, hash_of, verify_update, validate_for_signing,
}
use remote_dev_skillkit.Trust.WellFormed.{IsWellFormed, validate_for_signing_lem}
use remote_dev_skillkit.Trust.Updates.{verify_update_lem, sign_bundle-passed}
use remote_dev_skillkit.ControlPlane.Session.{Time}
use remote_dev_skillkit.ControlPlane.World.{World, before}
use remote_dev_skillkit.ControlPlane.Store.{State, Store}
use remote_dev_skillkit.Gateway.{
  Config, MemoryGateway, AuditEntry, append_audit, audited, after_call, clock, ticked,
}
use remote_dev_skillkit.Gateway.Bundles.{
  renewed_bundle, renew_signed_trust_bundle, update_signed_trust_bundle, one_hour, after_renewal,
  after_update, under_root,
}
use remote_dev_skillkit.Gateway.Sessions.{
  audited_create_session, audited_join_session, audited_submit_task, audited_cancel_task,
  audited_close_session, audited_revoke_session, audited_rename_host, audited_join_by_code,
  audited_resume_task,
}
use remote_dev_skillkit.Gateway.Runs.{
  GatewayCall, control, create, join_code, join, submit, cancel, resume, close, revoke, rename,
  audit, renew, update, gateway_step, gateway_run,
}

-- An integer of 64 bits; only the upper bound is used.
abbrev pub IsInt64 : ℤ → Type 0
IsInt64 z = pos_part z < 2 ^ 63

module _ (c : Crypto) where
  -- Any number of replacements of a bundle: each has a larger sequence number, names the hash of the
  -- one before it, and is well formed.
  pub data Follows (b : SignedTrustBundle) : SignedTrustBundle → Type 0 where
    stays : Follows b b
    moves :
        {m n : SignedTrustBundle}
        → Follows b m
        → ltb_ℤ m.sequence n.sequence ≡ true
        → hash_of c m ≡ passed n.previous_bundle_hash
        → IsWellFormed c n
        → Follows b n

  Follows-trans : {a b d : SignedTrustBundle} → Follows a b → Follows b d → Follows a d
  Follows-trans p stays = p
  Follows-trans p (moves q rise link good) = moves (Follows-trans p q) rise link good

pub wrap_int64-rises :
    (z : ℤ)
    → IsInt64 z
    → ltb_ℤ (pos 0) (wrap_int64 (z +ℤ pos 1)) ≡ true
    → ltb_ℤ z (wrap_int64 (z +ℤ pos 1)) ≡ true
unfolding wrap_int64 ◌+ℤ◌
wrap_int64-rises (pos n) size h = ground arith
wrap_int64-rises (negsuc n) size h = ground arith

wrap_int64-IsInt64 : (z : ℤ) → IsInt64 (wrap_int64 z)
unfolding wrap_int64
wrap_int64-IsInt64 (pos n) = ground arith
wrap_int64-IsInt64 (negsuc n) = ground arith

pub new_signed_trust_bundle-passed :
    (c : Crypto) (spec : SignedTrustBundleSpec) (now : Time) (b : SignedTrustBundle)
    → new_signed_trust_bundle c spec now ≡ passed b
    → b ≡ bundle_of c spec now
unfolding new_signed_trust_bundle
new_signed_trust_bundle-passed c spec now b h = ground (arith, h)

module _ (config : Config) where
  pub renewed_bundle-passed :
      (b next : SignedTrustBundle) (now : Time)
      → renewed_bundle config b now ≡ passed next
      → (hash_of config.crypto b ≡ passed next.previous_bundle_hash)
        × (next.sequence ≡ wrap_int64 (b.sequence +ℤ pos 1))
        × (validate_for_signing config.crypto next ≡ passed tt)
  unfolding renewed_bundle
  renewed_bundle-passed b next now h =
      let (root, active, h₁) = >>=-passed (active_trust_bundle b config.signing_id now) _ h in
      let (hash, hashed, h₂) = >>=-passed (hash_of config.crypto b) _ h₁ in
      let (bare, made, h₃) = >>=-passed (new_signed_trust_bundle config.crypto _ now) _ h₂ in
      let (m, encoded, valid, signed) =
        sign_bundle-passed config.crypto bare next config.private_key h₃ in
      let fields = new_signed_trust_bundle-passed config.crypto _ now bare made in
      (
        hashed
            ∙ ap passed (
                sym (
                  ap (λ x. x.previous_bundle_hash) signed
                  ∙ ap (λ x. x.previous_bundle_hash) fields)),
        ap (λ x. x.sequence) signed ∙ ap (λ x. x.sequence) fields,
        ap (validate_for_signing config.crypto) signed ∙ valid,
      )

  renewed_bundle-Follows :
      (b next : SignedTrustBundle) (now : Time)
      → IsInt64 b.sequence
      → renewed_bundle config b now ≡ passed next
      → Follows config.crypto b next × IsInt64 next.sequence
  renewed_bundle-Follows b next now size h =
      let (hashed, number, valid) = renewed_bundle-passed b next now h in
      let good = (validate_for_signing_lem config.crypto next).0 valid in
      let rises = wrap_int64-rises b.sequence size (rw (sym number) good.numbered) in
      (
        moves stays (rw number rises) hashed good,
        rw number (wrap_int64-IsInt64 (b.sequence +ℤ pos 1)),
      )

-- The numbers that a call brings are Go integers.
abbrev pub HasInt64 : GatewayCall → Type 0
HasInt64 (update next) = IsInt64 next.sequence
HasInt64 _ = Unit

module _ ⦃w : World⦄ (config : Config) where
  -- A replacement of the bundle by calls, and the size of its number.
  abbrev Replaced : SignedTrustBundle → SignedTrustBundle → Type 0
  Replaced b n = Follows config.crypto b n × IsInt64 n.sequence

  append_audit-bundle :
      (entry : AuditEntry) (g : MemoryGateway)
      → (append_audit entry g).trust_bundle ≡ g.trust_bundle
  unfolding append_audit
  append_audit-bundle entry g = refl

  audited-bundle :
      {A : Type 0} (entry : A → AuditEntry) (m : Store A) (g : MemoryGateway)
      → (audited entry m g).1.trust_bundle ≡ g.trust_bundle
  unfolding audited append_audit
  audited-bundle {A} entry m g = go (m g.control)
    where
      go : (r : Result A × State) → (after_call entry r g).1.trust_bundle ≡ g.trust_bundle
      go (ok a, s) = append_audit-bundle (entry a) (record g { control = s })
      go (err e, s) = refl

  after_renewal-Replaced :
      (o : Checked TrustError SignedTrustBundle) (g : MemoryGateway) (now : Time)
      → IsInt64 g.trust_bundle.sequence
      → renewed_bundle config g.trust_bundle now ≡ o
      → Replaced g.trust_bundle (after_renewal config o g).1.trust_bundle
  unfolding append_audit
  after_renewal-Replaced (refused e) g now size h = (stays, size)
  after_renewal-Replaced (passed next) g now size h =
      renewed_bundle-Follows config g.trust_bundle next now size h

  renew-Replaced :
      (g : MemoryGateway)
      → IsInt64 g.trust_bundle.sequence
      → Replaced g.trust_bundle (renew_signed_trust_bundle config g).1.trust_bundle
  unfolding renew_signed_trust_bundle
  renew-Replaced g size =
      let renewed = after_renewal-Replaced _ (ticked g) (clock g) size refl in
      elim (Bool-cases (before (clock g +ℤ one_hour) g.trust_bundle.not_after)) [
        | inl fresh ↦ rw fresh (stays, size)
        | inr old ↦ rw old renewed
      ]

  after_update-Replaced :
      (r : Checked TrustError (Unit {0})) (next : SignedTrustBundle) (root : TrustBundle)
      (now : Time) (g : MemoryGateway)
      → IsInt64 g.trust_bundle.sequence
      → IsInt64 next.sequence
      → verify_update config.crypto next g.trust_bundle root now ≡ r
      → Replaced g.trust_bundle (after_update config r next g).1.trust_bundle
  unfolding append_audit
  after_update-Replaced (refused e) next root now g size given h = (stays, size)
  after_update-Replaced (passed u) next root now g size given h =
      let (verified, rise, link) =
        (verify_update_lem config.crypto next g.trust_bundle root now).0 h in
      (moves stays rise link verified.well_formed, given)

  under_root-Replaced :
      (r : Checked TrustError TrustBundle) (next : SignedTrustBundle) (g : MemoryGateway)
      → IsInt64 g.trust_bundle.sequence
      → IsInt64 next.sequence
      → Replaced g.trust_bundle (under_root config r next g).1.trust_bundle
  under_root-Replaced (refused e) next g size given = (stays, size)
  under_root-Replaced (passed root) next g size given =
      after_update-Replaced _ next root (clock g) (ticked g) size given refl

  update-Replaced :
      (next : SignedTrustBundle) (g : MemoryGateway)
      → IsInt64 g.trust_bundle.sequence
      → IsInt64 next.sequence
      → Replaced g.trust_bundle (update_signed_trust_bundle config next g).1.trust_bundle
  unfolding update_signed_trust_bundle
  update-Replaced next g size given = under_root-Replaced _ next (ticked g) size given

  untouched : {b n : SignedTrustBundle} → IsInt64 b.sequence → n ≡ b → Replaced b n
  untouched size same = rw same (stays, size)

  step-Replaced :
      (c : GatewayCall) (g : MemoryGateway)
      → IsInt64 g.trust_bundle.sequence
      → HasInt64 c
      → Replaced g.trust_bundle (gateway_step config c g).trust_bundle
  unfolding gateway_step audited_create_session audited_join_session audited_submit_task
      audited_cancel_task audited_close_session audited_revoke_session audited_rename_host
      audited_join_by_code audited_resume_task
  step-Replaced (control c) g size given = (stays, size)
  step-Replaced (create spec) g size given = untouched size (audited-bundle _ _ g)
  step-Replaced (join_code gap gap' code spec) g size given = untouched size (audited-bundle _ _ g)
  step-Replaced (join session_id spec) g size given = untouched size (audited-bundle _ _ g)
  step-Replaced (submit session_id spec) g size given = untouched size (audited-bundle _ _ g)
  step-Replaced (cancel session_id task_id reason key) g size given =
      untouched size (audited-bundle _ _ g)
  step-Replaced (resume gap session_id task_id checkpoint_id key) g size given =
      untouched size (audited-bundle _ _ g)
  step-Replaced (close session_id) g size given = untouched size (audited-bundle _ _ g)
  step-Replaced (revoke session_id) g size given = untouched size (audited-bundle _ _ g)
  step-Replaced (rename host_id name) g size given = untouched size (audited-bundle _ _ g)
  step-Replaced (audit entry) g size given = untouched size (append_audit-bundle entry g)
  step-Replaced renew g size given = renew-Replaced g size
  step-Replaced (update next) g size given = update-Replaced next g size given

  -- In any run of the gateway whose numbers are Go integers, the bundle of trusted keys changes only
  -- to well-formed bundles with larger sequence numbers, each of which names the hash of the one
  -- before it.
  pub gateway_run-Follows :
      (cs : List GatewayCall) (g : MemoryGateway)
      → IsInt64 g.trust_bundle.sequence
      → All HasInt64 cs
      → Follows config.crypto g.trust_bundle (gateway_run config cs g).trust_bundle
  unfolding gateway_run
  gateway_run-Follows [] g size given = stays
  gateway_run-Follows (c ∷ cs) g size given =
      let (first, size') = step-Replaced c g size given.0 in
      Follows-trans config.crypto first
        (gateway_run-Follows cs (gateway_step config c g) size' given.1)
