-- ===== src/ControlPlane/Join/Ceiling.antt =====
-- internal/controlplane/store.go: a joiner that is taken for a target under another role.
use Prim.Native.String.{◌++◌ as ◌<>◌}
use remote_dev_skillkit.Prelude.{
  String, true, false, [], ◌≡◌, refl, ◌≢◌, string_eq, is_empty, arith,
}
use remote_dev_skillkit.ControlPlane.Protocol.{EndpointRole, EndpointRole_discrete}
use remote_dev_skillkit.ControlPlane.Session.{Session, Endpoint, EndpointSpec, Time}
use remote_dev_skillkit.ControlPlane.Endpoints.{
  constrained_endpoint_capabilities, distinct_capabilities,
}
use remote_dev_skillkit.ControlPlane.Endpoints.Identity.{endpoint_identity_key-shared}
use remote_dev_skillkit.ControlPlane.Join.{same_identity, rejoined}

-- A target whose fingerprint is two texts joined by a bar, and a joiner that names another role.
abbrev pub barred : Endpoint → String → String → Endpoint
barred e a b = record e { role = EndpointRole.target; identity_fingerprint = a <> "|" <> b }

abbrev pub disguised : EndpointSpec → Endpoint → String → String → EndpointSpec
disguised spec e a b = record spec {
  role = EndpointRole.other ("target|" <> a);
  identity_fingerprint = b;
  platform = e.platform;
}

-- A target whose fingerprint is two texts joined by a bar is taken for a joiner on its platform whose
-- role is the target role and the first text joined by a bar, and whose fingerprint is the second
-- text, not empty; when that joiner advertises capabilities, the endpoint stays a target and gets all
-- of them, trimmed, without the empty one and without doubles, whatever the session's capabilities are.
pub rejoined-unlimited :
    (session : Session) (spec : EndpointSpec) (e : Endpoint) (a b : String) (t : Time)
    → b ≢ ""
    → is_empty spec.capabilities ≡ false
    → (same_identity session (disguised spec e a b) (barred e a b) ≡ true)
      × ((rejoined session (disguised spec e a b) (barred e a b) t).role ≡ EndpointRole.target)
      × ((rejoined session (disguised spec e a b) (barred e a b) t).capabilities
          ≡ distinct_capabilities (λ c. true) [] spec.capabilities)
unfolding same_identity constrained_endpoint_capabilities EndpointRole_discrete
rejoined-unlimited session spec e a b t given advertised = (
  rw (endpoint_identity_key-shared session.id a b e.platform) (ground (arith, given)),
  refl,
  rw advertised refl,
)
