-- ===== src/Tests/Status.antt =====
-- The status of the small control plane's greeted.
use remote_dev_skillkit.Prelude.{◌||◌, ◌≡◌, some, [], ◌∷◌}
use remote_dev_skillkit.ControlPlane.Protocol.{EventType, text}
use remote_dev_skillkit.ControlPlane.Session.{Session}
use remote_dev_skillkit.ControlPlane.Status.{endpoint_online, derive_status}
use remote_dev_skillkit.ControlPlane.Status.Reported.{
  says_online, is_recovered, derive_status-online,
}
use remote_dev_skillkit.Tests.Data.{session, first_event, test_world}

-- The helper on the target has just become ready.
abbrev greeted : Session
greeted = record session {
  latest_event = record first_event {
    type = EventType.helper;
    payload = some (("phase", text "ready") ∷ []);
  };
}

derive_status-online_example : (derive_status greeted).online ≡ (
    endpoint_online greeted.endpoints
    || is_recovered greeted.status
    || says_online greeted.latest_event.type greeted.latest_event.payload)
derive_status-online_example = derive_status-online greeted
