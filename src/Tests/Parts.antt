-- ===== src/Tests/Parts.antt =====
-- The components at concrete inputs.
use mathlib.Core.List.{Memᴰ}
use remote_dev_skillkit.Prelude.{
  true, false, none, some, [], ◌∷◌, ◌≡◌, refl, ◌≢◌, pos, string_eq, get, All, find?, arith,
  String_discrete,
}
use remote_dev_skillkit.Prelude.Int.{ltb_ℤ}
use remote_dev_skillkit.Exec.{ok}
use remote_dev_skillkit.ControlPlane.Protocol.{
  SessionStatus, EndpointRole, EndpointState, TaskStatus, EndpointRole_discrete,
  TaskStatus_discrete, endpoint_online_state,
}
use remote_dev_skillkit.ControlPlane.Session.{Session, Endpoint, ArtifactRef}
use remote_dev_skillkit.ControlPlane.Append.{append_event_locked}
use remote_dev_skillkit.ControlPlane.Append.Stored.{Answered, append_event_locked-Answered}
use remote_dev_skillkit.ControlPlane.Tasks.{transition, is_terminal, valid_task_transition}
use remote_dev_skillkit.ControlPlane.Tasks.Times.{IsTimed, transition-IsTimed}
use remote_dev_skillkit.ControlPlane.Endpoints.{
  allows, constrained_endpoint_capabilities, route_task, route_selected, fits_selector,
}
use remote_dev_skillkit.ControlPlane.Endpoints.Routing.{IsRoute, route_task-IsRoute}
use remote_dev_skillkit.ControlPlane.Endpoints.Ceiling.{IsDistinct, constrained-within}
use remote_dev_skillkit.ControlPlane.Lifecycle.{end_session}
use remote_dev_skillkit.ControlPlane.Lifecycle.Ended.{end_session_lem}
use remote_dev_skillkit.Prelude.{Dict, String}
use remote_dev_skillkit.ControlPlane.Session.{Host}
use remote_dev_skillkit.ControlPlane.Session.{EndpointSpec}
use remote_dev_skillkit.ControlPlane.Endpoints.{distinct_capabilities}
use remote_dev_skillkit.ControlPlane.Join.{same_identity, rejoined}
use remote_dev_skillkit.ControlPlane.Join.Ceiling.{barred, disguised, rejoined-unlimited}
use remote_dev_skillkit.Tests.Data.{joiner}
use remote_dev_skillkit.ControlPlane.Hosts.{rename_in}
use remote_dev_skillkit.ControlPlane.Artifacts.{place_artifact}
use remote_dev_skillkit.ControlPlane.Artifacts.Offsets.{has_artifact_id, place_artifact-find}
use remote_dev_skillkit.Tests.Data.{
  Apart, unequal_by_test, test_world, target, offered, finished, task_spec, hello, session, store,
  at_start, artifact,
}

append_event_locked-Answered_example :
    Answered "ses" hello
      (at_start store)
      (append_event_locked "ses" hello true (at_start store)).0
      (append_event_locked "ses" hello true (at_start store)).1
append_event_locked-Answered_example =
    append_event_locked-Answered "ses" hello true (at_start store)

routed : route_task session task_spec ≡ ok target
unfolding route_task route_selected fits_selector String_discrete EndpointRole_discrete
    endpoint_online_state
routed = refl

route_task-IsRoute_example : IsRoute (target ∷ []) ("shell" ∷ []) target
route_task-IsRoute_example = route_task-IsRoute session task_spec target routed

constrained-within_example :
    All
      (λ c. (allows ("shell" ∷ []) c ≡ true) × (c ≢ ""))
      (constrained_endpoint_capabilities session EndpointRole.target ("shell" ∷ "root" ∷ []) [])
    × IsDistinct
        (constrained_endpoint_capabilities session EndpointRole.target ("shell" ∷ "root" ∷ []) [])
constrained-within_example = constrained-within session ("shell" ∷ "root" ∷ []) [] refl

ran :
    transition offered TaskStatus.running (pos 2_000)
    ≡ ok (record offered { status = TaskStatus.running; started_at = some (pos 2_000) })
unfolding transition is_terminal valid_task_transition TaskStatus_discrete
ran = refl

offered-IsTimed : IsTimed offered
unfolding is_terminal
offered-IsTimed = record { ended = refl; started = λ h. ground arith }

transition-IsTimed_example :
    IsTimed (record offered { status = TaskStatus.running; started_at = some (pos 2_000) })
transition-IsTimed_example =
    transition-IsTimed offered
      (record offered { status = TaskStatus.running; started_at = some (pos 2_000) })
      TaskStatus.running (pos 2_000) ran offered-IsTimed

second_given : Apart "b" ""
unfolding String_discrete
second_given = unequal_by_test "b" "" refl

found : get "ses" store.sessions ≡ some session
unfolding get String_discrete
found = refl

end_session_lem_example :
    (let n = end_session "ses" SessionStatus.closed (λ ts. ts) (pos 2_000) store in
      ((later : Session) × (get "ses" n.sessions ≡ some later)
        × (later.status ≡ SessionStatus.closed)
        × (later.tasks ≡ finished ∷ offered ∷ [])
        × All (λ e. e.state ≡ EndpointState.revoked) later.endpoints)
      × (get "ses" n.terminal_at ≡ some (pos 2_000))
      × ((e : Endpoint) → Memᴰ e (target ∷ []) → get e.id n.leases ≡ none))
end_session_lem_example =
    end_session_lem "ses" SessionStatus.closed (λ ts. ts) (pos 2_000) store session found

placed :
    place_artifact (record artifact { upload_offset = pos 9 }) (artifact ∷ [])
    ≡ some (record artifact { upload_offset = pos 9 } ∷ [])
unfolding place_artifact String_discrete
placed = refl

place_artifact-find_example :
    (find? (has_artifact_id "art") (record artifact { upload_offset = pos 9 } ∷ [])
      ≡ some (record artifact { upload_offset = pos 9 }))
    × (Apart "other" "art"
        → find? (has_artifact_id "other") (record artifact { upload_offset = pos 9 } ∷ [])
          ≡ find? (has_artifact_id "other") (artifact ∷ []))
    × ((old : ArtifactRef)
        → find? (has_artifact_id "art") (artifact ∷ []) ≡ some old
        → ltb_ℤ (pos 9) old.upload_offset ≡ false)
place_artifact-find_example =
    place_artifact-find (record artifact { upload_offset = pos 9 }) (artifact ∷ [])
      (record artifact { upload_offset = pos 9 } ∷ []) "other" placed

abbrev host : Host
host = record {
  schema_version = "rdev.host.v1";
  host_id = "hst";
  identity_fingerprint = "f";
  display_name = "host";
  platform = "linux";
  capabilities = [];
  state = EndpointState.online;
  first_seen_at = pos 1_000;
  last_seen_at = pos 1_000;
  last_session_id = "ses";
  last_endpoint_id = "end";
}

abbrev hosts : Dict String Host
hosts = ("f", host) ∷ []

abbrev hosts_later : Dict String Host
hosts_later = ("f", record host { display_name = "lab" }) ∷ []

renamed : rename_in "hst" "lab" hosts ≡ some (record host { display_name = "lab" }, hosts_later)
unfolding rename_in String_discrete
renamed = refl

abbrev greedy : EndpointSpec
greedy = record joiner { capabilities = "root" ∷ [] }

rejoined-unlimited_example :
    (same_identity session (disguised greedy target "a" "b") (barred target "a" "b") ≡ true)
    × ((rejoined session (disguised greedy target "a" "b") (barred target "a" "b") (pos 2_000)).role
        ≡ EndpointRole.target)
    × ((rejoined session
          (disguised greedy target "a" "b")
          (barred target "a" "b")
          (pos 2_000)).capabilities
        ≡ distinct_capabilities (λ c. true) [] ("root" ∷ []))
rejoined-unlimited_example =
    rejoined-unlimited session greedy target "a" "b" (pos 2_000) second_given refl
