-- ===== src/Tests/Compaction.antt =====
-- The log of the small control plane's session, compacted.
use remote_dev_skillkit.Prelude.{
  some, [], ◌∷◌, ◌≡◌, refl, pos, string_eq, get, leb, keep, String_discrete,
}
use remote_dev_skillkit.Exec.{ok}
use remote_dev_skillkit.ControlPlane.Store.{State}
use remote_dev_skillkit.ControlPlane.Events.{visible_events}
use remote_dev_skillkit.ControlPlane.Artifacts.{compact_events}
use remote_dev_skillkit.ControlPlane.Artifacts.Compaction.{log_of, compact_events-readers}
use remote_dev_skillkit.Tests.Data.{
  Apart, unequal_by_test, test_world, target, session, store, at_start, first_event,
}

-- Two events, of which the second is in the snapshot.
abbrev full : State
full = at_start (record store {
  events = ("ses", first_event ∷ record first_event { id = "two"; seq = 2 } ∷ []) ∷ [];
})

found : get "ses" full.sessions ≡ some session
unfolding get String_discrete
found = refl

elsewhere : Apart "ses" "two"
unfolding String_discrete
elsewhere = unequal_by_test "ses" "two" refl

compact_events-readers_example :
    ((compact_events "ses" 2 full).0 ≡ ok tt)
    × (log_of "ses" (compact_events "ses" 2 full).1 ≡ keep (λ x. leb 2 x.seq) (log_of "ses" full))
    × (visible_events (log_of "ses" (compact_events "ses" 2 full).1) target 2 (pos 0)
        ≡ visible_events (log_of "ses" full) target 2 (pos 0))
    × (log_of "two" (compact_events "ses" 2 full).1 ≡ log_of "two" full)
compact_events-readers_example =
    compact_events-readers "ses" session 2 full found "two" target 2 (pos 0) elsewhere refl
