-- ===== src/ControlPlane/Events.antt =====
-- internal/controlplane/store.go: which events of a log an endpoint sees.
pub mod Paging
use remote_dev_skillkit.Prelude.{
  ℕ, suc, Bool, not, ◌&&◌, ◌||◌, List, [], ◌∷◌, if◌then◌else◌, ◌==◌, string_eq, leb, ℤ, pos,
}
use remote_dev_skillkit.Prelude.Int.{ltb_ℤ}
use remote_dev_skillkit.ControlPlane.Protocol.{EndpointRole, endpoint_role_eq}
use remote_dev_skillkit.ControlPlane.Session.{Endpoint, Event}

-- `eventVisibleToEndpoint`
unfoldable pub event_visible_to_endpoint : Event → Endpoint → Bool
event_visible_to_endpoint event e =
    e.role == EndpointRole.agent
    || e.role == EndpointRole.operator
    || event.to_endpoint_id == ""
    || event.to_endpoint_id == e.id

-- What the loop of `visibleEventsLocked` passes over.
abbrev pub is_shown : Endpoint → ℕ → Event → Bool
is_shown e after_seq event = not (leb event.seq after_seq) && event_visible_to_endpoint event e

-- The loop, with `taken` events collected so far; a limit that is not positive is none.
collect : Endpoint → ℕ → ℤ → ℕ → List Event → List Event
collect e after_seq limit taken [] = []
collect e after_seq limit taken (event ∷ rest) =
    let skipped = collect e after_seq limit taken rest in
    let more = collect e after_seq limit (suc taken) rest in
    let full = ltb_ℤ (pos 0) limit && not (ltb_ℤ (pos (suc taken)) limit) in
    if is_shown e after_seq event then event ∷ (if full then [] else more) else skipped

-- `visibleEventsLocked`, of the events of one session.
unfoldable pub visible_events : List Event → Endpoint → ℕ → ℤ → List Event
unfolding collect
visible_events log e after_seq limit = collect e after_seq limit 0 log
