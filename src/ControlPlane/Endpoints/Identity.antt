-- ===== src/ControlPlane/Endpoints/Identity.antt =====
-- internal/controlplane/store.go: the texts by which a joiner is known again.
use Prim.Native.String.{◌++◌ as ◌<>◌}
use text.Mathlib.TextLemmas.{append_assoc}
use remote_dev_skillkit.Prelude.{String, ◌≡◌, refl}
use remote_dev_skillkit.ControlPlane.Protocol.{EndpointRole}
use remote_dev_skillkit.ControlPlane.Endpoints.{endpoint_identity_key, role_text}

prefixed : (x : String) → "target|" <> x ≡ "target" <> ("|" <> x)
prefixed x = append_assoc "target" "|" x

-- A target whose fingerprint is two texts joined by a bar has the identity key of an endpoint that
-- names the target role and the first text joined by a bar as its role, and the second text as its
-- fingerprint.
pub endpoint_identity_key-shared :
    (session_id a b platform : String)
    → endpoint_identity_key session_id EndpointRole.target (a <> "|" <> b) platform
      ≡ endpoint_identity_key session_id (EndpointRole.other ("target|" <> a)) b platform
unfolding endpoint_identity_key role_text
endpoint_identity_key-shared session_id a b platform = simp (append_assoc, prefixed) refl
