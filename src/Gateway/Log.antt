-- ===== src/Gateway/Log.antt =====
-- internal/gateway/memory.go: the audit log in every run of the gateway.
use remote_dev_skillkit.Prelude.{
  ℕ, ◌+◌, List, [], ◌∷◌, ◌++◌, pos, length, length-append, ◌≡◌, refl, arith, ◌∙◌, sym, ap,
  Bool-cases, inl, inr,
}
use mathlib.Core.List.{append_assoc, append-nil}
use remote_dev_skillkit.Prelude.Errors.{Checked, passed, refused}
use remote_dev_skillkit.Exec.{Result, ok, err}
use remote_dev_skillkit.Audit.{AuditEvent}
use remote_dev_skillkit.Prelude.Int.{◌+ℤ◌}
use remote_dev_skillkit.Trust.{SignedTrustBundle, TrustBundle, TrustError}
use remote_dev_skillkit.ControlPlane.World.{World, before}
use remote_dev_skillkit.ControlPlane.Store.{State, Store}
use remote_dev_skillkit.Gateway.{
  Config, MemoryGateway, AuditEntry, append_audit, audited, after_call, clock, ticked,
}
use remote_dev_skillkit.Gateway.Sessions.{
  audited_create_session, audited_join_session, audited_submit_task, audited_cancel_task,
  audited_close_session, audited_revoke_session, audited_rename_host, audited_join_by_code,
  audited_resume_task,
}
use remote_dev_skillkit.Gateway.Bundles.{
  renewed_bundle, renew_signed_trust_bundle, update_signed_trust_bundle, one_hour, after_renewal,
  after_update, under_root,
}
use remote_dev_skillkit.Gateway.Runs.{
  GatewayCall, control, create, join_code, join, submit, cancel, resume, close, revoke, rename,
  audit, renew, update, gateway_step, gateway_run,
}

-- Events with consecutive sequence numbers after `n`.
abbrev pub Numbered : ℕ → List AuditEvent → Type 0
Numbered n [] = Unit
Numbered n (e ∷ es) = (e.sequence ≡ pos (n + 1)) × Numbered (n + 1) es

-- A log that goes on as another one: with events that are numbered by their places.
pub record Continues (before after : List AuditEvent) : Type 0 where
  pub new : List AuditEvent
  pub appended : after ≡ before ++ new
  pub numbered : Numbered (length before) new

Numbered-append :
    (n : ℕ) (es fs : List AuditEvent) (m : ℕ)
    → n + length es ≡ m
    → Numbered n es
    → Numbered m fs
    → Numbered n (es ++ fs)
Numbered-append n [] fs m eq h k = ground (arith, eq, k)
Numbered-append n (e ∷ es) fs m eq h k =
    (h.0, Numbered-append (n + 1) es fs m (omega (arith, eq)) h.1 k)

Continues-refl : (es : List AuditEvent) → Continues es es
Continues-refl es = record { new = []; appended = sym (append-nil es); numbered = tt }

Continues-trans : {a b c : List AuditEvent} → Continues a b → Continues b c → Continues a c
Continues-trans {a} {b} {c} p q = record {
  new = p.new ++ q.new;
  appended = q.appended ∙ ap (λ k. k ++ q.new) p.appended ∙ append_assoc a p.new q.new;
  numbered =
      Numbered-append (length a) p.new q.new (length b)
        (sym (length-append a p.new) ∙ ap length (sym p.appended)) p.numbered q.numbered;
}

module _ ⦃w : World⦄ where
  append_audit-Continues :
      (entry : AuditEntry) (g : MemoryGateway) → Continues g.audit (append_audit entry g).audit
  unfolding append_audit
  append_audit-Continues entry g = record { new = _; appended = refl; numbered = (refl, tt) }

  audited-Continues :
      {A : Type 0} (entry : A → AuditEntry) (m : Store A) (g : MemoryGateway)
      → Continues g.audit (audited entry m g).1.audit
  unfolding audited
  audited-Continues {A} entry m g = go (m g.control)
    where
      go : (r : Result A × State) → Continues g.audit (after_call entry r g).1.audit
      go (ok a, s) = append_audit-Continues (entry a) (record g { control = s })
      go (err e, s) = Continues-refl g.audit

  module _ (config : Config) where
    after_renewal-Continues :
        (r : Checked TrustError SignedTrustBundle) (g : MemoryGateway)
        → Continues g.audit (after_renewal config r g).1.audit
    after_renewal-Continues (refused e) g = Continues-refl g.audit
    after_renewal-Continues (passed next) g =
        append_audit-Continues _ (record g { trust_bundle = next })

    renew-Continues :
        (g : MemoryGateway) → Continues g.audit (renew_signed_trust_bundle config g).1.audit
    unfolding renew_signed_trust_bundle
    renew-Continues g =
        let renewed =
          after_renewal-Continues (renewed_bundle config g.trust_bundle (clock g)) (ticked g) in
        elim (Bool-cases (before (clock g +ℤ one_hour) g.trust_bundle.not_after)) [
          | inl fresh ↦ rw fresh (Continues-refl g.audit)
          | inr old ↦ rw old renewed
        ]

    after_update-Continues :
        (r : Checked TrustError (Unit {0})) (next : SignedTrustBundle) (g : MemoryGateway)
        → Continues g.audit (after_update config r next g).1.audit
    after_update-Continues (refused e) next g = Continues-refl g.audit
    after_update-Continues (passed u) next g =
        append_audit-Continues _ (record g { trust_bundle = next })

    under_root-Continues :
        (r : Checked TrustError TrustBundle) (next : SignedTrustBundle) (g : MemoryGateway)
        → Continues g.audit (under_root config r next g).1.audit
    under_root-Continues (refused e) next g = Continues-refl g.audit
    under_root-Continues (passed root) next g = after_update-Continues _ next (ticked g)

    update-Continues :
        (next : SignedTrustBundle) (g : MemoryGateway)
        → Continues g.audit (update_signed_trust_bundle config next g).1.audit
    unfolding update_signed_trust_bundle
    update-Continues next g = under_root-Continues _ next (ticked g)

    step-Continues :
        (c : GatewayCall) (g : MemoryGateway) → Continues g.audit (gateway_step config c g).audit
    unfolding gateway_step audited_create_session audited_join_session audited_submit_task
        audited_cancel_task audited_close_session audited_revoke_session audited_rename_host
        audited_join_by_code audited_resume_task
    step-Continues (control c) g = Continues-refl g.audit
    step-Continues (create spec) g = audited-Continues _ _ g
    step-Continues (join_code gap gap' code spec) g = audited-Continues _ _ g
    step-Continues (join session_id spec) g = audited-Continues _ _ g
    step-Continues (submit session_id spec) g = audited-Continues _ _ g
    step-Continues (cancel session_id task_id reason key) g = audited-Continues _ _ g
    step-Continues (resume gap session_id task_id checkpoint_id key) g = audited-Continues _ _ g
    step-Continues (close session_id) g = audited-Continues _ _ g
    step-Continues (revoke session_id) g = audited-Continues _ _ g
    step-Continues (rename host_id name) g = audited-Continues _ _ g
    step-Continues (audit entry) g = append_audit-Continues entry g
    step-Continues renew g = renew-Continues g
    step-Continues (update next) g = update-Continues next g

    -- Any calls of the gateway in any order only add to the audit log: the events in it stay, and the
    -- new ones are numbered by their places, without a gap.
    pub gateway_run-Continues :
        (cs : List GatewayCall) (g : MemoryGateway)
        → Continues g.audit (gateway_run config cs g).audit
    unfolding gateway_run
    gateway_run-Continues [] g = Continues-refl g.audit
    gateway_run-Continues (c ∷ cs) g =
        Continues-trans (step-Continues c g) (gateway_run-Continues cs (gateway_step config c g))
