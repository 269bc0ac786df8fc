-- ===== src/ControlPlane/Leases.antt =====
-- internal/controlplane/session.go: `NewLease`; store.go: leases are issued, renewed and checked.
pub mod Rotation
use remote_dev_skillkit.Prelude.{
  suc, ◌/◌, String, Bool, true, false, not, Option, none, some, [], if◌then◌else◌, ◌==◌, string_eq,
  get, get_or, put, any, keep, ℤ, pos, negsuc,
}
use remote_dev_skillkit.Prelude.Int.{int_eq, ◌+ℤ◌, sub_ℕ, wrap_int64}
use remote_dev_skillkit.Exec.{Result, ok, err, fail_if, require, lift, ◌>>=◌, ◌>>◌}
use remote_dev_skillkit.ControlPlane.Protocol.{Transport, ErrorCode}
use remote_dev_skillkit.ControlPlane.Session.{Time, Session, Endpoint, Lease, LeaseRecord}
use remote_dev_skillkit.ControlPlane.World.{World, after, millis}
use remote_dev_skillkit.ControlPlane.Store.{Store, refusal, now, id_or_empty}

abbrev no_lease : Lease
no_lease = record {
  schema_version = "";
  id = "";
  session_id = "";
  endpoint_id = "";
  generation = pos 0;
  secret = "";
  transport = Transport.unset;
  selected_gateway_url = "";
  renew_after = pos 0;
  expires_at = pos 0;
  server_time = pos 0;
  lease_ttl_ms = pos 0;
  renew_after_ms = pos 0;
  retry_after_ms = pos 0;
}

abbrev pub no_lease_record : LeaseRecord
no_lease_record = record { current = no_lease; previous_secrets = [] }

-- Go's `/` rounds towards zero.
third : ℤ → ℤ
third (pos n) = pos (n / 3)
third (negsuc n) = sub_ℕ 0 (suc n / 3)

abbrev pub or_default : ℤ → ℤ → ℤ
or_default v d = if v == pos 0 then d else v

-- `retryAfterMSOrSession`
unfoldable pub retry_after_ms_or_session : ℤ → ℤ → ℤ
retry_after_ms_or_session value session_retry =
    or_default value (or_default session_retry (pos 1_000))

-- `NewLease`, of a spec without an id: the lease under the id drawn for it.
unfoldable pub new_lease :
    Session
    → Endpoint
    → (generation : ℤ) → (secret id : String) → (ttl renew retry : ℤ) → Time
    → Lease
unfolding third millis ◌+ℤ◌
new_lease session endpoint generation secret id ttl renew retry t =
    let ttl_ms = or_default ttl (pos 60_000) in
    let renew_ms = or_default renew (third ttl_ms) in
    record {
      schema_version = "rdev.lease.v1";
      id = id;
      session_id = session.id;
      endpoint_id = endpoint.id;
      generation = generation;
      secret = secret;
      transport = endpoint.transport;
      selected_gateway_url = session.selected_gateway_url;
      renew_after = t +ℤ millis renew_ms;
      expires_at = t +ℤ millis ttl_ms;
      server_time = t;
      lease_ttl_ms = ttl_ms;
      renew_after_ms = renew_ms;
      retry_after_ms = or_default retry (pos 1_000);
    }

-- `pruneExpiredLeaseSecrets`: where a secret has run out, those that have not are copied.
unfoldable pub prune_expired_lease_secrets : LeaseRecord → Time → LeaseRecord
prune_expired_lease_secrets r t =
    if any (λ e. after t e.1) r.previous_secrets
    then record r { previous_secrets = keep (λ e. not (after t e.1)) r.previous_secrets }
    else r

-- The secret that a new lease replaces stays good until the reconnect grace of its lease is over.
unfoldable pub retire_secret : Session → LeaseRecord → LeaseRecord
unfolding ◌+ℤ◌ millis
retire_secret session r = if r.current.secret == "" then r else record r {
  previous_secrets =
      put r.current.secret (r.current.expires_at +ℤ millis session.reconnect_grace_ms)
        r.previous_secrets;
}

module _ ⦃w : World⦄ where
  -- `issueLeaseLocked`
  unfoldable pub issue_lease_locked : Session → Endpoint → ℤ → ℤ → ℤ → Store Lease
  unfolding new_lease prune_expired_lease_secrets retire_secret retry_after_ms_or_session
  issue_lease_locked session endpoint ttl renew retry = do
    t ← now
    secret ← id_or_empty "lease_secret"
    issued ← now
    id ← id_or_empty "lease"
    λ s.
        let r =
          retire_secret session
            (prune_expired_lease_secrets (get_or endpoint.id no_lease_record s.leases) t) in
        let lease =
          new_lease session endpoint (wrap_int64 (r.current.generation +ℤ pos 1)) secret id ttl
            renew (retry_after_ms_or_session retry session.retry_after_ms) issued in
        (
          ok lease,
          record s {
            store = record s.store {
              leases = put endpoint.id (record r { current = lease }) s.leases;
            };
          },
        )

-- What a secret that an earlier lease had is still good for.
abbrev pub previous_result : Option Time → Time → Result Bool
previous_result none t =
    err (refusal ErrorCode.unauthorized_endpoint "lease secret does not match endpoint" true)
previous_result (some until) t =
    if after t until
    then err (refusal ErrorCode.unauthorized_endpoint "lease secret does not match endpoint" true)
    else ok true

-- Whether a secret is good at the time `t`; `ok true` asks the endpoint to recover.
unfoldable pub check_secret : Session → LeaseRecord → String → Time → Result Bool
unfolding ◌+ℤ◌ millis
check_secret session r secret t =
    if r.current.secret == secret
    then if after t r.current.expires_at
      then if after t (r.current.expires_at +ℤ millis session.reconnect_grace_ms)
        then err (refusal ErrorCode.lease_expired "lease expired outside reconnect grace" true)
        else ok true
      else ok false
    else previous_result (get secret r.previous_secrets) t

module _ ⦃w : World⦄ where
  -- `authorizeLeaseLocked`
  unfoldable pub authorize_lease_locked : Session → String → String → Store Bool
  authorize_lease_locked session endpoint_id secret s =
      (do
        r ←
            require (get endpoint_id s.leases)
              (refusal ErrorCode.unauthorized_endpoint "endpoint lease is missing" true)
        fail_if (secret == "")
            (refusal ErrorCode.unauthorized_endpoint "endpoint lease is missing" true)
        t ← now
        lift (check_secret session r secret t))
        s
