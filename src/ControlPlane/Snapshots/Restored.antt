-- ===== src/ControlPlane/Snapshots/Restored.antt =====
-- internal/controlplane/snapshot.go: what a store that has been restored holds.
use mathlib.Core.List.{Memᴰ}
use remote_dev_skillkit.Prelude.{
  false, is_some, String, true, Option, none, some, List, [], ◌∷◌, Dict, get, put, get-put, ◌==◌,
  string_eq, ◌≡◌, ◌≢◌, ◌⊎◌, inl, inr, refl, arith, All, Bool-cases, sym, ap, ◌∙◌,
}
use remote_dev_skillkit.Prelude.Errors.{passed, >>=-passed}
use remote_dev_skillkit.ControlPlane.Protocol.{EndpointRole, endpoint_role_eq}
use remote_dev_skillkit.ControlPlane.Session.{Session, Endpoint, Task}
use remote_dev_skillkit.ControlPlane.Store.{MemoryStore}
use remote_dev_skillkit.ControlPlane.Tasks.{is_terminal}
use remote_dev_skillkit.ControlPlane.Endpoints.{has_all, constrained_endpoint_capabilities}
use remote_dev_skillkit.ControlPlane.Writes.{IsKeyed}
use remote_dev_skillkit.ControlPlane.Snapshots.{
  StoreSnapshot, Rebuilt, restore_endpoints, routes_to, are_routed, restore_session,
  restore_sessions, restore_snapshot, restore_checked,
}

-- An endpoint of a session whose capabilities the session has limited.
pub record IsLimited (session : Session) (e : Endpoint) : Type 0 where
  pub bound : e.session_id ≡ session.id
  pub advertised : List String
  pub limited : e.capabilities ≡ constrained_endpoint_capabilities session e.role advertised []

-- A task that has ended, or that names one of the session's endpoints, which is a target with the
-- capabilities it needs.
abbrev pub IsRouted : Session → Task → Type 0
IsRouted session t =
    (is_terminal t.status ≡ true)
    ⊎ ((e : Endpoint) × Memᴰ e session.endpoints
        × (e.id ≡ t.target_endpoint_id)
        × (e.role ≡ EndpointRole.target)
        × (has_all e.capabilities t.capabilities ≡ true))

pub record IsRestored (session_id : String) (session : Session) : Type 0 where
  pub keyed : session.id ≡ session_id
  pub limited : All (IsLimited session) session.endpoints
  pub routed : All (IsRouted session) session.tasks

restore_endpoints-IsLimited :
    (session : Session) (es : List Endpoint) (endpoints : Dict String Endpoint)
    (r : List Endpoint × Dict String Endpoint)
    → restore_endpoints session es endpoints ≡ passed r
    → All (IsLimited session) r.0
unfolding restore_endpoints
restore_endpoints-IsLimited session [] endpoints r h = ground (arith, h)
restore_endpoints-IsLimited session (e ∷ es) endpoints r h =
    let limited : Endpoint = record e {
      capabilities = constrained_endpoint_capabilities session e.role e.capabilities [];
    } in
    let (rest, more, made, own) : (rest : List Endpoint × Dict String Endpoint) × (restore_endpoints
            session es (put e.id limited endpoints)
          ≡ passed rest)
        × (r ≡ (limited ∷ rest.0, rest.1))
        × (e.session_id ≡ session.id) =
      ground (arith, h) in
    rw made (
      record { bound = own; advertised = e.capabilities; limited = refl },
      restore_endpoints-IsLimited session es (put e.id limited endpoints) rest more,
    )

-- The limit does not look at the endpoints of the session.
with_endpoints-IsLimited :
    (session : Session) (fs es : List Endpoint)
    → All (IsLimited session) es
    → All (IsLimited (record session { endpoints = fs })) es
unfolding constrained_endpoint_capabilities
with_endpoints-IsLimited session fs [] h = tt
with_endpoints-IsLimited session fs (e ∷ es) h = (
  record { bound = h.0.bound; advertised = h.0.advertised; limited = h.0.limited },
  with_endpoints-IsLimited session fs es h.1,
)

-- What the table of endpoints holds after those of a session: what it held, and the new ones.
restore_endpoints-get :
    (session : Session) (es : List Endpoint) (endpoints : Dict String Endpoint)
    (r : List Endpoint × Dict String Endpoint) (id : String) (x : Endpoint)
    → restore_endpoints session es endpoints ≡ passed r
    → get id r.1 ≡ some x
    → (get id endpoints ≡ some x) ⊎ (Memᴰ x r.0 × (x.id ≡ id) × (x.session_id ≡ session.id))
unfolding restore_endpoints
restore_endpoints-get session [] endpoints r id x h found = inl (ground (arith, h, found))
restore_endpoints-get session (e ∷ es) endpoints r id x h found =
    let limited : Endpoint = record e {
      capabilities = constrained_endpoint_capabilities session e.role e.capabilities [];
    } in
    let (rest, more, made, own) : (rest : List Endpoint × Dict String Endpoint) × (restore_endpoints
            session es (put e.id limited endpoints)
          ≡ passed rest)
        × (r ≡ (limited ∷ rest.0, rest.1))
        × (e.session_id ≡ session.id) =
      ground (arith, h) in
    let same : r.0 ≡ limited ∷ rest.0 = ap (λ q. q.0) made in
    let there : get id rest.1 ≡ some x = ap (λ q. get id q.1) (sym made) ∙ found in
    elim (restore_endpoints-get session es (put e.id limited endpoints) rest id x more there) [
      | inl before ↦ elim (Bool-cases (e.id == id)) [
        | inl hit ↦
            let it : x ≡ limited = ground (arith, before, hit, get-put id e.id limited endpoints) in
            inr (rw same (Memᴰ.head it), ground (arith, it, hit), ap (λ y. y.session_id) it ∙ own)
        | inr miss ↦ inl (ground (arith, before, miss, get-put id e.id limited endpoints))
      ]
      | inr (member, named, bound) ↦ inr (rw same (Memᴰ.tail member), named, bound)
    ]

routes_to-target :
    (o : Option Endpoint) (session_id : String) (capabilities : List String)
    → routes_to o session_id capabilities ≡ true
    → (e : Endpoint) × (o ≡ some e)
      × (e.session_id ≡ session_id)
      × (e.role ≡ EndpointRole.target)
      × (has_all e.capabilities capabilities ≡ true)
routes_to-target none session_id capabilities h = ground (arith, h)
routes_to-target (some e) session_id capabilities h =
    (e, refl, ground (arith, h), ground (arith, h), ground (arith, h))

-- The endpoints of a table that belong to a session are those of its list.
abbrev OwnsThose : Session → Dict String Endpoint → Type 0
OwnsThose session endpoints =
    (id : String) (e : Endpoint)
    → get id endpoints ≡ some e
    → e.session_id ≡ session.id
    → Memᴰ e session.endpoints × (e.id ≡ id)

are_routed-IsRouted :
    (session : Session) (endpoints : Dict String Endpoint) (ts : List Task)
    → OwnsThose session endpoints
    → are_routed session.id endpoints ts ≡ true
    → All (IsRouted session) ts
unfolding are_routed
are_routed-IsRouted session endpoints [] owns h = tt
are_routed-IsRouted session endpoints (t ∷ ts) owns h = elim (Bool-cases (is_terminal t.status)) [
  | inl ended ↦
      (inl ended, are_routed-IsRouted session endpoints ts owns (ground (arith, h, ended)))
  | inr live ↦
      let target : routes_to (get t.target_endpoint_id endpoints) session.id t.capabilities ≡ true =
        ground (arith, h, live) in
      let (e, found, own, role, capable) =
        routes_to-target (get t.target_endpoint_id endpoints) session.id t.capabilities target in
      let (member, named) = owns t.target_endpoint_id e found own in
      (
        inr (e, member, named, role, capable),
        are_routed-IsRouted session endpoints ts owns (ground (arith, h, live)),
      )
]

AreRestored : Dict String Session → Type 0
AreRestored sessions =
    (session_id : String) (session : Session)
    → get session_id sessions ≡ some session
    → IsRestored session_id session

-- A session that is put under its id.
put-AreRestored :
    (session : Session) (sessions : Dict String Session)
    → IsRestored session.id session
    → AreRestored sessions
    → AreRestored (put session.id session sessions)
unfolding AreRestored
put-AreRestored session sessions own others = λ i s found. elim (Bool-cases (session.id == i)) [
  | inl same ↦
      let it : session ≡ s = ground (arith, found, same, get-put i session.id session sessions) in
      let id : session.id ≡ i = ground (arith, same) in subst_session it id
  | inr other ↦ others i s (ground (arith, found, other, get-put i session.id session sessions))
]
  where
    subst_session : {i : String} {s : Session} → session ≡ s → session.id ≡ i → IsRestored i s
    subst_session same id = rw (sym same, sym id) own

-- The endpoints of a table belong to sessions that are there.
AreOwned : Dict String Endpoint → Dict String Session → Type 0
AreOwned endpoints sessions =
    (id : String) (e : Endpoint)
    → get id endpoints ≡ some e
    → is_some (get e.session_id sessions) ≡ true

put-is_some :
    (i j : String) (session : Session) (sessions : Dict String Session)
    → (i ≡ j) ⊎ (is_some (get i sessions) ≡ true)
    → is_some (get i (put j session sessions)) ≡ true
put-is_some i j session sessions (inl same) = ground (arith, same, get-put i j session sessions)
put-is_some i j session sessions (inr there) = ground (arith, there, get-put i j session sessions)

restore_session-AreRestored :
    (session : Session) (r next : Rebuilt)
    → restore_session session r ≡ passed next
    → AreRestored r.sessions
    → AreOwned r.endpoints r.sessions
    → AreRestored next.sessions × AreOwned next.endpoints next.sessions
unfolding restore_session AreOwned
restore_session-AreRestored session r next h others owned =
    let (bound, limited, absent, routed, made, table) : (bound : List Endpoint
          × Dict String Endpoint)
        × (restore_endpoints session session.endpoints r.endpoints ≡ passed bound)
        × (is_some (get session.id r.sessions) ≡ false)
        × (are_routed session.id bound.1 session.tasks ≡ true)
        × (next.sessions ≡ put session.id (record session { endpoints = bound.0 }) r.sessions)
        × (next.endpoints ≡ bound.1) =
      ground (arith, h) in
    let now : Session = record session { endpoints = bound.0 } in
    let holds = restore_endpoints-get session session.endpoints r.endpoints bound in
    let owns : OwnsThose now bound.1 = λ id e found own. elim (holds id e limited found) [
      | inl before ↦
          let there = owned id e before in
          absurd (ground (arith, there, absent, ap (λ i. get i r.sessions) own))
      | inr (member, named, mine) ↦ (member, named)
    ] in
    let own : IsRestored session.id now = record {
      keyed = refl;
      limited =
          with_endpoints-IsLimited session bound.0 bound.0
            (restore_endpoints-IsLimited session session.endpoints r.endpoints bound limited);
      routed = are_routed-IsRouted now bound.1 session.tasks owns routed;
    } in
    (
      rw made (put-AreRestored now r.sessions own others),
      λ id e found. rw made (
          put-is_some e.session_id session.id now r.sessions
            (elim (holds id e limited (ap (get id) (sym table) ∙ found)) [
              | inl before ↦ inr (owned id e before)
              | inr (member, named, mine) ↦ inl mine
            ])),
    )

restore_sessions-AreRestored :
    (ss : List Session) (r next : Rebuilt)
    → restore_sessions ss r ≡ passed next
    → AreRestored r.sessions
    → AreOwned r.endpoints r.sessions
    → AreRestored next.sessions
unfolding restore_sessions
restore_sessions-AreRestored [] r next h others owned =
    let same : r ≡ next = ground (arith, h) in rw (sym same) others
restore_sessions-AreRestored (s ∷ ss) r next h others owned =
    let (mid, one, rest) = >>=-passed (restore_session s r) _ h in
    let (others', owned') = restore_session-AreRestored s r mid one others owned in
    restore_sessions-AreRestored ss mid next rest others' owned'

nothing-AreRestored : AreRestored []
unfolding AreRestored get
nothing-AreRestored i s found = ground (arith, found)

nothing-AreOwned : AreOwned [] []
unfolding AreOwned get
nothing-AreOwned i e found = ground (arith, found)

restore_checked-sessions :
    (snapshot : StoreSnapshot) (m n : MemoryStore)
    → restore_checked snapshot m ≡ passed n
    → AreRestored n.sessions
unfolding restore_checked
restore_checked-sessions snapshot m n h =
    let start : Rebuilt = record { sessions = []; join_codes = []; endpoints = [] } in
    let (built, made, same) : (built : Rebuilt) × (restore_sessions snapshot.sessions start
          ≡ passed built)
        × (n.sessions ≡ built.sessions) =
      ground (arith, h) in
    rw same (
      restore_sessions-AreRestored snapshot.sessions start built made nothing-AreRestored
        nothing-AreOwned)

-- A store that `RestoreSnapshot` makes of a snapshot with a schema has every session under its own id;
-- its endpoints belong to it and have capabilities within the session's limit, whatever the
-- snapshot said, and each of its tasks has ended, or names an endpoint of the session that is a target with
-- the capabilities it needs.
pub restore_snapshot-IsRestored :
    (snapshot : StoreSnapshot) (m n : MemoryStore)
    → snapshot.schema_version ≢ ""
    → restore_snapshot snapshot m ≡ passed n
    → IsKeyed n
      × ((session_id : String) (session : Session)
          → get session_id n.sessions ≡ some session
          → IsRestored session_id session)
unfolding restore_snapshot AreRestored
restore_snapshot-IsRestored snapshot m n named h =
    let all = restore_checked-sessions snapshot m n (ground (arith, named, h)) in
    (record { keyed = λ i s found. (all i s found).keyed }, all)
