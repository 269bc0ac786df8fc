-- ===== src/ControlPlane/Leases/Rotation.antt =====
-- internal/controlplane/store.go: which secrets are good after a lease is renewed.
use remote_dev_skillkit.Prelude.{
  String, Bool, true, false, none, ◌≡◌, refl, ◌≢◌, ◌==◌, string_eq, get, get_or, put, get_or_of-get,
  get-put_self, ap, sym, ◌∙◌, arith, ℤ, if◌then◌else◌, some,
}
use remote_dev_skillkit.Prelude.Int.{◌+ℤ◌}
use remote_dev_skillkit.Exec.{Result, ok, err}
use remote_dev_skillkit.ControlPlane.Protocol.{ErrorCode}
use remote_dev_skillkit.ControlPlane.Session.{Session, Endpoint, Lease, LeaseRecord, Time}
use remote_dev_skillkit.ControlPlane.World.{World, after, millis}
use remote_dev_skillkit.ControlPlane.Store.{State, refusal, now, id_or_empty}
use remote_dev_skillkit.ControlPlane.Leases.{
  check_secret, retire_secret, no_lease_record, prune_expired_lease_secrets, issue_lease_locked,
  authorize_lease_locked,
}

-- The answer to the secret of a lease that another one has replaced.
abbrev pub answer_after : Time → Time → Result Bool
answer_after until t =
    if after t until
    then err (refusal ErrorCode.unauthorized_endpoint "lease secret does not match endpoint" true)
    else ok true

-- The answer to the secret of the current lease.
abbrev pub answer_now : Session → Lease → Time → Result Bool
answer_now session lease t =
    if after t lease.expires_at
    then if after t (lease.expires_at +ℤ millis session.reconnect_grace_ms)
      then err (refusal ErrorCode.lease_expired "lease expired outside reconnect grace" true)
      else ok true
    else ok false

module _ ⦃w : World⦄ where
  -- The secrets that are left are those of the record that was there.
  pruned-current :
      (r : LeaseRecord) (t : Time) → (prune_expired_lease_secrets r t).current ≡ r.current
  unfolding prune_expired_lease_secrets
  pruned-current r t = ground arith

  retired-secret :
      (session : Session) (r : LeaseRecord)
      → r.current.secret ≢ ""
      → get r.current.secret (retire_secret session r).previous_secrets
        ≡ some (r.current.expires_at +ℤ millis session.reconnect_grace_ms)
  unfolding retire_secret
  retired-secret session r given = ground (
    arith,
    given,
    get-put_self r.current.secret (r.current.expires_at +ℤ millis session.reconnect_grace_ms)
        r.previous_secrets,
  )

  -- What issuing leaves for the endpoint.
  issued_form :
      (session : Session) (endpoint : Endpoint) (ttl renew retry : ℤ) (s : State)
      → (l : Lease) × ((issue_lease_locked session endpoint ttl renew retry s).0 ≡ ok l)
        × ((issue_lease_locked session endpoint ttl renew retry s).1.leases
            ≡ put endpoint.id
                (record (retire_secret session (
                  prune_expired_lease_secrets
                    (get_or endpoint.id no_lease_record s.leases)
                    (w.clock s.reads))) { current = l })
                s.leases)
  unfolding issue_lease_locked now id_or_empty
  issued_form session endpoint ttl renew retry s = (_, refl, refl)

  module _ (session : Session) (endpoint : Endpoint) (ttl renew retry : ℤ) (s : State)
      (lease : Lease) (old : LeaseRecord) (found : get endpoint.id s.leases ≡ some old)
      (done : (issue_lease_locked session endpoint ttl renew retry s).0 ≡ ok lease)
      (given : old.current.secret ≢ "") (differs : old.current.secret ≢ lease.secret) where
    issued :
        (r : LeaseRecord) × (get endpoint.id
            (issue_lease_locked session endpoint ttl renew retry s).1.leases
          ≡ some r)
        × (r.current ≡ lease)
        × (get old.current.secret r.previous_secrets
            ≡ some (old.current.expires_at +ℤ millis session.reconnect_grace_ms))
    issued =
        let (l, answer, left) = issued_form session endpoint ttl renew retry s in
        let before = prune_expired_lease_secrets old (w.clock s.reads) in
        let same : get_or endpoint.id no_lease_record s.leases ≡ old =
          get_or_of-get endpoint.id no_lease_record old s.leases found in
        let kept = pruned-current old (w.clock s.reads) in
        (
          record (retire_secret session before) { current = l },
          ap (get endpoint.id) left
              ∙ get-put_self endpoint.id _ s.leases
              ∙ ap
                  (λ o.
                    some
                      (record (retire_secret session
                        (prune_expired_lease_secrets o (w.clock s.reads))) { current = l }))
                  same,
          ground (arith, answer, done),
          ap (λ c. get c.secret (retire_secret session before).previous_secrets) (sym kept)
              ∙ retired-secret session before (λ e. given (ap (λ c. c.secret) (sym kept) ∙ e))
              ∙ ap (λ c. some (c.expires_at +ℤ millis session.reconnect_grace_ms)) kept,
        )

  authorize-record :
      (session : Session) (id secret : String) (r : LeaseRecord) (s : State)
      → get id s.leases ≡ some r
      → secret ≢ ""
      → (authorize_lease_locked session id secret s).0
        ≡ check_secret session r secret (w.clock s.reads)
  unfolding authorize_lease_locked now
  authorize-record session id secret r s found given =
      let empty : (secret == "") ≡ false = ground (arith, given) in rw (found, empty) refl

  replaced-secret :
      (session : Session) (r : LeaseRecord) (secret : String) (until t : Time)
      → secret ≢ r.current.secret
      → get secret r.previous_secrets ≡ some until
      → check_secret session r secret t ≡ answer_after until t
  unfolding check_secret
  replaced-secret session r secret until t differs there =
      let other : (r.current.secret == secret) ≡ false = ground (arith, differs) in
      rw (other, there) refl

  current-secret :
      (session : Session) (r : LeaseRecord) (t : Time)
      → check_secret session r r.current.secret t ≡ answer_now session r.current t
  unfolding check_secret
  current-secret session r t =
      let own : (r.current.secret == r.current.secret) ≡ true = ground arith in rw own refl

  -- Once a lease has been issued to an endpoint that had one with another secret, neither secret
  -- empty, and as long as the leases stay as that left them: the secret of the lease before it asks the endpoint to recover until
  -- the reconnect grace of its own lease is over, and is then refused; the new secret is good until
  -- its lease ends, then asks for a recovery for the time of the grace, and has then expired.
  pub authorize_lease_locked-issue :
      (session : Session) (endpoint : Endpoint) (ttl renew retry : ℤ) (s later : State)
      (lease : Lease) (old : LeaseRecord)
      → get endpoint.id s.leases ≡ some old
      → (issue_lease_locked session endpoint ttl renew retry s).0 ≡ ok lease
      → old.current.secret ≢ ""
      → lease.secret ≢ ""
      → old.current.secret ≢ lease.secret
      → later.leases ≡ (issue_lease_locked session endpoint ttl renew retry s).1.leases
      → ((authorize_lease_locked session endpoint.id old.current.secret later).0
          ≡ answer_after
              (old.current.expires_at +ℤ millis session.reconnect_grace_ms)
              (w.clock later.reads))
        × ((authorize_lease_locked session endpoint.id lease.secret later).0
            ≡ answer_now session lease (w.clock later.reads))
  authorize_lease_locked-issue session endpoint ttl renew retry s later lease old found done given
        new_given differs same =
      let (r, there, current, retired) =
        issued session endpoint ttl renew retry s lease old found done given differs in
      let held = ap (get endpoint.id) same ∙ there in
      let t = w.clock later.reads in
      (
        authorize-record session endpoint.id old.current.secret r later held given
            ∙ replaced-secret session r old.current.secret _ t
                (λ e. differs (e ∙ ap (λ l. l.secret) current)) retired,
        authorize-record session endpoint.id lease.secret r later held new_given
            ∙ ap (λ l. check_secret session r l.secret t) (sym current)
            ∙ current-secret session r t
            ∙ ap (λ l. answer_now session l t) current,
      )

-- A secret that is neither that of the current lease nor one of the secrets before it is refused.
pub check_secret_unknown :
    (session : Session) (r : LeaseRecord) (secret : String) (t : Time)
    → r.current.secret ≢ secret
    → get secret r.previous_secrets ≡ none
    → check_secret session r secret t
      ≡ err (refusal ErrorCode.unauthorized_endpoint "lease secret does not match endpoint" true)
unfolding check_secret
check_secret_unknown session r secret t differs unknown = rw (other, unknown) refl
  where
    other : (r.current.secret == secret) ≡ false
    other = ground arith
