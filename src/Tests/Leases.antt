-- ===== src/Tests/Leases.antt =====
-- A lease that is issued to the target, which had one.
use remote_dev_skillkit.Prelude.{
  some, [], ◌∷◌, ◌≡◌, refl, pos, string_eq, get, get_or, String_discrete,
}
use remote_dev_skillkit.Prelude.Int.{◌+ℤ◌, wrap_int64, ℤ_discrete}
use native.Mathlib.Decide.{ℕ_discrete}
use remote_dev_skillkit.Exec.{ok}
use remote_dev_skillkit.ControlPlane.Session.{Lease}
use remote_dev_skillkit.ControlPlane.World.{millis, id_text}
use remote_dev_skillkit.ControlPlane.Store.{State, now, id_or_empty, drawn_or_empty}
use remote_dev_skillkit.ControlPlane.Leases.{
  issue_lease_locked, authorize_lease_locked, new_lease, retire_secret, prune_expired_lease_secrets,
  retry_after_ms_or_session,
}
use remote_dev_skillkit.ControlPlane.Leases.Rotation.{
  answer_after, answer_now, authorize_lease_locked-issue,
}
use remote_dev_skillkit.Tests.Data.{
  Apart, unequal_by_test, test_world, target, session, store, at_start, lease_record,
}

-- The target has a lease.
abbrev leased : State
leased = at_start (record store { leases = ("end", lease_record) ∷ [] })

abbrev issuing : State
issuing = (issue_lease_locked session target (pos 0) (pos 0) (pos 0) leased).1

had : get "end" leased.leases ≡ some lease_record
unfolding get String_discrete
had = refl

abbrev issued_lease : Lease
issued_lease =
    new_lease session target (pos 2) (drawn_or_empty "lease_secret" (some 7))
      (drawn_or_empty "lease" (some 7)) (pos 0) (pos 0) (pos 1_000) (pos 1_000)

issues : (issue_lease_locked session target (pos 0) (pos 0) (pos 0) leased).0 ≡ ok issued_lease
unfolding issue_lease_locked now id_or_empty new_lease get_or retire_secret
    prune_expired_lease_secrets retry_after_ms_or_session wrap_int64 String_discrete ℤ_discrete
    ℕ_discrete
issues = refl

given : Apart "first" ""
unfolding String_discrete
given = unequal_by_test "first" "" refl

new_given : Apart issued_lease.secret ""
unfolding String_discrete id_text new_lease
new_given = unequal_by_test issued_lease.secret "" refl

rotated : Apart "first" issued_lease.secret
unfolding String_discrete id_text new_lease
rotated = unequal_by_test "first" issued_lease.secret refl

authorize_lease_locked-issue_example :
    ((authorize_lease_locked session "end" "first" issuing).0
      ≡ answer_after (pos 6_000 +ℤ millis (pos 5_000)) (pos 1_000))
    × ((authorize_lease_locked session "end" issued_lease.secret issuing).0
        ≡ answer_now session issued_lease (pos 1_000))
authorize_lease_locked-issue_example =
    authorize_lease_locked-issue session target (pos 0) (pos 0) (pos 0) leased issuing issued_lease
      lease_record had issues given new_given rotated refl
