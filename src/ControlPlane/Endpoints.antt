-- ===== src/ControlPlane/Endpoints.antt =====
-- internal/controlplane/store.go, host.go: who joins a session and what it may do there, task
-- routing, and the host directory.
pub mod Routing
pub mod Ceiling
pub mod Identity
use Prim.Native.String.{◌++◌ as ◌<>◌}
use remote_dev_skillkit.Prelude.{
  String, Bool, true, not, ◌&&◌, ◌||◌, some, List, [], ◌∷◌, if◌then◌else◌, ◌==◌, ◌!=◌, string_eq,
  any, is_empty,
}
use remote_dev_skillkit.Prelude.Text.{trim_space}
use remote_dev_skillkit.Exec.{Result, ok, err}
use remote_dev_skillkit.ControlPlane.Protocol.{
  EndpointRole, ErrorCode, Failure, protocol, texts, protocol_error, endpoint_role_eq, transport_eq,
  endpoint_online_state,
}
use remote_dev_skillkit.ControlPlane.Session.{Time, Session, Endpoint, TaskSpec}
use remote_dev_skillkit.ControlPlane.Store.{refusal}

abbrev pub contains : List String → String → Bool
contains xs a = any (λ x. x == a) xs

-- `endpointHasCapabilities`
abbrev pub has_all : List String → List String → Bool
has_all have [] = true
has_all have (c ∷ required) = contains have c && has_all have required

-- The capabilities that pass `permitted`, trimmed, without the empty one and without doubles;
-- `seen` are those kept before.
unfoldable pub distinct_capabilities : (String → Bool) → List String → List String → List String
distinct_capabilities permitted seen [] = []
distinct_capabilities permitted seen (c ∷ cs) =
    let capability = trim_space c in
    let rest = distinct_capabilities permitted seen cs in
    let kept = capability ∷ distinct_capabilities permitted (capability ∷ seen) cs in
    if capability == "" || contains seen capability || not (permitted capability)
    then rest
    else kept

-- Whether a session's own list of capabilities names one.
abbrev pub allows : List String → String → Bool
allows allowed capability = any (λ c. trim_space c == capability) allowed

-- `constrainedEndpointCapabilities`
unfoldable pub constrained_endpoint_capabilities :
    Session → EndpointRole → List String → List String → List String
unfolding distinct_capabilities
constrained_endpoint_capabilities session role advertised existing =
    let requested = if is_empty advertised then existing else advertised in
    let limited = role == EndpointRole.target && not (is_empty session.capabilities) in
    distinct_capabilities (λ c. not limited || allows session.capabilities c) [] requested

-- `missingCapabilities`
unfoldable pub missing_capabilities : List String → List String → List String
unfolding distinct_capabilities
missing_capabilities available requested =
    distinct_capabilities (λ c. not (allows available c)) [] requested

-- `capabilityUnavailableError`
unfoldable pub capability_unavailable_error : List String → List String → Failure
unfolding missing_capabilities
capability_unavailable_error available requested =
    protocol
      (record (protocol_error ErrorCode.capability_unavailable
        "no online endpoint matches task capabilities" true) {
          agent_next_action =
              "request the missing capabilities and create a fresh session before retrying";
          details = some (
              ("missing_capabilities", texts (missing_capabilities available requested))
              ∷ ("requested_capabilities", texts requested)
              ∷ ("available_capabilities", texts available)
              ∷ []);
        })

-- A named endpoint: the first with the id decides.
unfoldable pub route_named : List Endpoint → TaskSpec → Result Endpoint
unfolding capability_unavailable_error
route_named [] spec = err (refusal ErrorCode.endpoint_not_found "target endpoint not found" true)
route_named (e ∷ es) spec =
    if e.id == spec.target_endpoint_id
    then if e.role != EndpointRole.target || not (endpoint_online_state e.state)
      then err (refusal ErrorCode.endpoint_not_found "target endpoint is not online" true)
      else if has_all e.capabilities spec.capabilities
      then ok e
      else err (capability_unavailable_error e.capabilities spec.capabilities)
    else route_named es spec

-- Whether an endpoint fits a task that names none.
unfoldable pub fits_selector : TaskSpec → Endpoint → Bool
unfolding endpoint_online_state
fits_selector spec e =
    let selector = spec.target_selector in
    let required =
      if is_empty spec.capabilities then selector.capabilities else spec.capabilities in
    (selector.role == EndpointRole.unset || e.role == selector.role)
    && (selector.platform == "" || e.platform == selector.platform)
    && e.role == EndpointRole.target
    && endpoint_online_state e.state
    && has_all e.capabilities required

unfoldable pub route_selected : List Endpoint → TaskSpec → Result Endpoint
unfolding fits_selector capability_unavailable_error
route_selected [] spec = err (capability_unavailable_error [] spec.capabilities)
route_selected (e ∷ es) spec = if fits_selector spec e then ok e else route_selected es spec

-- `routeTaskLocked`
unfoldable pub route_task : Session → TaskSpec → Result Endpoint
unfolding route_named route_selected
route_task session spec =
    if spec.target_endpoint_id == ""
    then route_selected session.endpoints spec
    else route_named session.endpoints spec

-- The loop of `WithEndpoint`: the first endpoint with the same id, other than the empty one, is
-- replaced; a new endpoint goes to the end.
unfoldable pub place_endpoint : Endpoint → List Endpoint → List Endpoint
place_endpoint e [] = e ∷ []
place_endpoint e (x ∷ xs) = if x.id == e.id && e.id != "" then e ∷ xs else x ∷ place_endpoint e xs

abbrev pub or_text : String → String → String
or_text v d = if v == "" then d else v

-- `Session.WithEndpoint`
unfoldable pub with_endpoint : Session → Endpoint → Time → Session
unfolding place_endpoint
with_endpoint session e t = record session {
  endpoints =
      place_endpoint
        (record e {
          schema_version = or_text e.schema_version "rdev.endpoint.v1";
          session_id = or_text e.session_id session.id;
        })
        session.endpoints;
  updated_at = t;
}

unfoldable pub role_text : EndpointRole → String
role_text EndpointRole.unset = ""
role_text EndpointRole.target = "target"
role_text EndpointRole.agent = "agent"
role_text EndpointRole.operator = "operator"
role_text EndpointRole.gateway = "gateway"
role_text EndpointRole.worker = "worker"
role_text EndpointRole.workspace = "workspace"
role_text EndpointRole.adapter = "adapter"
role_text (EndpointRole.other s) = s

-- `endpointIdentityKey`
unfoldable pub endpoint_identity_key : String → EndpointRole → String → String → String
unfolding role_text
endpoint_identity_key session_id role fingerprint platform =
    session_id <> "|" <> role_text role <> "|" <> fingerprint <> "|" <> platform
