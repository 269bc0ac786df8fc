-- ===== src/Tests/Snapshots.antt =====
-- Restoring the small control plane from a snapshot.
use mathlib.Core.List.{Memᴰ}
use remote_dev_skillkit.Prelude.{
  String, some, [], ◌∷◌, ◌≡◌, ◌≢◌, refl, get, put, get_or, string_eq, String_discrete,
}
use remote_dev_skillkit.Prelude.Errors.{passed}
use remote_dev_skillkit.Prelude.Text.{trim_space}
use native.Mathlib.Decide.{ℕ_discrete}
use remote_dev_skillkit.ControlPlane.Protocol.{EndpointRole_discrete}
use remote_dev_skillkit.ControlPlane.Session.{Session}
use remote_dev_skillkit.ControlPlane.Store.{MemoryStore, new_memory_store}
use remote_dev_skillkit.ControlPlane.Tasks.{is_terminal}
use remote_dev_skillkit.ControlPlane.Endpoints.{
  constrained_endpoint_capabilities, distinct_capabilities,
}
use remote_dev_skillkit.ControlPlane.Writes.{IsKeyed}
use remote_dev_skillkit.ControlPlane.Snapshots.{
  StoreSnapshot, restore_snapshot, restore_checked, restore_sessions, restore_session,
  restore_endpoints, are_routed, restore_events, with_empty_logs, restore_idempotency, check_leases,
  hosts_from_snapshot,
}
use remote_dev_skillkit.ControlPlane.Snapshots.Restored.{IsRestored, restore_snapshot-IsRestored}
use remote_dev_skillkit.ControlPlane.Snapshots.Identities.{restore_snapshot-shared_endpoint_id}
use remote_dev_skillkit.Tests.Data.{session, target, first_event, Apart, unequal_by_test}

abbrev saved : Session
saved = record session { join_code = "CODE" }

-- The target claims more than the session allows.
abbrev greedy : Session
greedy = record saved { endpoints = record target { capabilities = "shell" ∷ "root" ∷ [] } ∷ [] }

abbrev snapshot : StoreSnapshot
snapshot = record {
  schema_version = "rdev.control-plane-snapshot.v1";
  sessions = greedy ∷ [];
  events = ("ses", first_event ∷ []) ∷ [];
  idempotency = [];
  task_idempotency = [];
  cancel_idempotency = [];
  result_idempotency = [];
  leases = [];
  terminal_at = [];
  hosts = [];
}

abbrev restored : MemoryStore
restored = record new_memory_store {
  sessions = ("ses", saved) ∷ [];
  join_codes = ("CODE", "ses") ∷ [];
  events = ("ses", first_event ∷ []) ∷ [];
}

named : Apart snapshot.schema_version ""
unfolding String_discrete
named = unequal_by_test snapshot.schema_version "" refl

restores : restore_snapshot snapshot new_memory_store ≡ passed restored
unfolding restore_snapshot restore_checked restore_sessions restore_session restore_endpoints
    are_routed restore_events with_empty_logs restore_idempotency check_leases hosts_from_snapshot
    constrained_endpoint_capabilities distinct_capabilities get put get_or trim_space is_terminal
    String_discrete EndpointRole_discrete ℕ_discrete
restores = refl

restore_snapshot-IsRestored_example :
    IsKeyed restored
    × ((session_id : String) (s : Session)
        → get session_id restored.sessions ≡ some s
        → IsRestored session_id s)
restore_snapshot-IsRestored_example =
    restore_snapshot-IsRestored snapshot new_memory_store restored named restores

-- Another session with the same endpoint.
abbrev copied : Session
copied = record saved { id = "two"; join_code = "OTHER" }

abbrev shared : StoreSnapshot
shared = record snapshot { sessions = saved ∷ copied ∷ [] }

restore_snapshot-shared_endpoint_id_example :
    restore_snapshot shared new_memory_store ≢ passed restored
restore_snapshot-shared_endpoint_id_example =
    restore_snapshot-shared_endpoint_id shared new_memory_store restored [] (copied ∷ []) saved
      copied target target named refl (Memᴰ.head refl) (Memᴰ.head refl) (Memᴰ.head refl) refl
