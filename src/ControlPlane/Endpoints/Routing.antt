-- ===== src/ControlPlane/Endpoints/Routing.antt =====
-- internal/controlplane/store.go: where `routeTaskLocked` sends a task.
use mathlib.Core.List.{Memᴰ}
use mathlib.Core.Path.{subst}
use remote_dev_skillkit.Prelude.{
  String, Bool, true, false, List, [], ◌∷◌, ◌≡◌, refl, sym, ◌==◌, string_eq, arith, ◌&&◌, ◌||◌,
  if◌then◌else◌, Bool-cases, inl, inr, is_empty,
}
use remote_dev_skillkit.Exec.{ok}
use remote_dev_skillkit.ControlPlane.Protocol.{
  EndpointRole, endpoint_online_state, endpoint_role_eq,
}
use remote_dev_skillkit.ControlPlane.Session.{Session, Endpoint, TaskSpec}
use remote_dev_skillkit.ControlPlane.Endpoints.{
  has_all, route_named, route_selected, route_task, fits_selector,
}

-- An endpoint of the list that may take a task with these capabilities.
pub record IsRoute (es : List Endpoint) (required : List String) (e : Endpoint) : Type 0 where
  pub member : Memᴰ e es
  pub target : e.role ≡ EndpointRole.target
  pub online : endpoint_online_state e.state ≡ true
  pub capable : has_all e.capabilities required ≡ true

later :
    (x : Endpoint) (es : List Endpoint) (required : List String) (e : Endpoint)
    → IsRoute es required e
    → IsRoute (x ∷ es) required e
later x es required e r = record {
  member = Memᴰ.tail r.member;
  target = r.target;
  online = r.online;
  capable = r.capable;
}

here :
    (x : Endpoint) (es : List Endpoint) (required : List String) (e : Endpoint)
    → x ≡ e
    → x.role ≡ EndpointRole.target
    → endpoint_online_state x.state ≡ true
    → has_all x.capabilities required ≡ true
    → IsRoute (x ∷ es) required e
here x es required e same target online capable = record {
  member = Memᴰ.head (sym same);
  target = ground arith;
  online = ground arith;
  capable = ground arith;
}

named-IsRoute :
    (es : List Endpoint) (spec : TaskSpec) (e : Endpoint)
    → route_named es spec ≡ ok e
    → IsRoute es spec.capabilities e
unfolding route_named
named-IsRoute [] spec e h = ground arith
named-IsRoute (x ∷ es) spec e h = elim (Bool-cases (x.id == spec.target_endpoint_id)) [
  | inl hit ↦
      here x es spec.capabilities e (ground arith) (ground arith) (ground arith) (ground arith)
  | inr miss ↦ later x es spec.capabilities e (named-IsRoute es spec e (ground arith))
]

own_required :
    (have required other : List String)
    → has_all have (if is_empty required then other else required) ≡ true
    → has_all have required ≡ true
own_required have [] other h = refl
own_required have (c ∷ required) other h = h

fitting :
    (x : Endpoint) (es : List Endpoint) (spec : TaskSpec)
    → fits_selector spec x ≡ true
    → IsRoute (x ∷ es) spec.capabilities x
unfolding fits_selector
fitting x es spec h =
    let selector = spec.target_selector in
    parts (spec.target_selector.role == EndpointRole.unset || x.role == selector.role)
      (selector.platform == "" || x.platform == selector.platform) h
  where
    parts :
        (a b : Bool)
        → (a
            && b
            && x.role == EndpointRole.target
            && endpoint_online_state x.state
            && has_all x.capabilities (
                if is_empty spec.capabilities
                then spec.target_selector.capabilities
                else spec.capabilities))
          ≡ true
        → IsRoute (x ∷ es) spec.capabilities x
    parts true true g = elim (Bool-cases (x.role == EndpointRole.target)) [
      | inl target ↦ elim (Bool-cases (endpoint_online_state x.state)) [
        | inl online ↦ here x es spec.capabilities x refl (ground arith) online (
            own_required x.capabilities spec.capabilities spec.target_selector.capabilities
              (rw (target, online) at g))
        | inr offline ↦ ground arith
      ]
      | inr no_target ↦ ground arith
    ]
    parts true false g = ground arith
    parts false b g = ground arith

selected-IsRoute :
    (es : List Endpoint) (spec : TaskSpec) (e : Endpoint)
    → route_selected es spec ≡ ok e
    → IsRoute es spec.capabilities e
unfolding route_selected
selected-IsRoute [] spec e h = ground arith
selected-IsRoute (x ∷ es) spec e h = elim (Bool-cases (fits_selector spec x)) [
  | inl hit ↦ subst (IsRoute (x ∷ es) spec.capabilities) (ground arith) (fitting x es spec hit)
  | inr miss ↦ later x es spec.capabilities e (selected-IsRoute es spec e (ground arith))
]

-- The endpoint that a task is routed to is one of the session, is a target, is online, and has every
-- capability that the task asks for.
pub route_task-IsRoute :
    (session : Session) (spec : TaskSpec) (e : Endpoint)
    → route_task session spec ≡ ok e
    → IsRoute session.endpoints spec.capabilities e
unfolding route_task
route_task-IsRoute session spec e h = elim (Bool-cases (spec.target_endpoint_id == "")) [
  | inl unnamed ↦ selected-IsRoute session.endpoints spec e (ground arith)
  | inr named ↦ named-IsRoute session.endpoints spec e (ground arith)
]
