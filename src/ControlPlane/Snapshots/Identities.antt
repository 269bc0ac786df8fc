-- ===== src/ControlPlane/Snapshots/Identities.antt =====
-- internal/controlplane/snapshot.go: endpoints of two sessions that have one id.
use mathlib.Core.List.{Memᴰ}
use remote_dev_skillkit.Prelude.{
  String, Bool, true, false, is_some, List, [], ◌∷◌, ◌++◌, Dict, get, put, get-put, ◌==◌, ◌||◌,
  string_eq, ◌≡◌, ◌≢◌, inl, inr, arith, Bool-cases, sym, ap, ◌∙◌,
}
use remote_dev_skillkit.Prelude.Errors.{passed, >>=-passed}
use remote_dev_skillkit.ControlPlane.Session.{Session, Endpoint}
use remote_dev_skillkit.ControlPlane.Store.{MemoryStore}
use remote_dev_skillkit.ControlPlane.Endpoints.{constrained_endpoint_capabilities}
use remote_dev_skillkit.ControlPlane.Snapshots.{
  StoreSnapshot, Rebuilt, restore_endpoints, restore_session, restore_sessions, restore_snapshot,
  restore_checked,
}

-- Whether an id is in a table of endpoints.
abbrev has : String → Dict String Endpoint → Bool
has id endpoints = is_some (get id endpoints)

put-has :
    (i j : String) (e : Endpoint) (m : Dict String Endpoint)
    → has i (put j e m) ≡ (j == i || has i m)
put-has i j e m = ground (arith, get-put i j e m)

-- One round of the loop over the endpoints of a session.
abbrev Round :
    Session
    → Endpoint
    → List Endpoint
    → Dict String Endpoint
    → List Endpoint × Dict String Endpoint
    → Type 0
Round session e es endpoints r =
    (rest : List Endpoint × Dict String Endpoint) × (restore_endpoints session es (
        put e.id
          (record e {
            capabilities = constrained_endpoint_capabilities session e.role e.capabilities [];
          })
          endpoints)
      ≡ passed rest)
    × (r.1 ≡ rest.1)
    × (has e.id endpoints ≡ false)

round :
    (session : Session) (e : Endpoint) (es : List Endpoint) (endpoints : Dict String Endpoint)
    (r : List Endpoint × Dict String Endpoint)
    → restore_endpoints session (e ∷ es) endpoints ≡ passed r
    → Round session e es endpoints r
unfolding restore_endpoints
round session e es endpoints r h = ground (arith, h)

restore_endpoints-keeps :
    (session : Session) (es : List Endpoint) (endpoints : Dict String Endpoint)
    (r : List Endpoint × Dict String Endpoint) (id : String)
    → restore_endpoints session es endpoints ≡ passed r
    → has id endpoints ≡ true
    → has id r.1 ≡ true
unfolding restore_endpoints
restore_endpoints-keeps session [] endpoints r id h there = ground (arith, h, there)
restore_endpoints-keeps session (e ∷ es) endpoints r id h there =
    let (rest, more, same, new) = round session e es endpoints r h in
    ap (has id) same
    ∙ restore_endpoints-keeps session es _ rest id more
        (put-has id e.id _ endpoints ∙ ground (arith, there))

restore_endpoints-has :
    (session : Session) (es : List Endpoint) (endpoints : Dict String Endpoint)
    (r : List Endpoint × Dict String Endpoint) (e : Endpoint)
    → restore_endpoints session es endpoints ≡ passed r
    → Memᴰ e es
    → has e.id r.1 ≡ true
restore_endpoints-has session [] endpoints r e h member = elim member [ ]
restore_endpoints-has session (x ∷ es) endpoints r e h (Memᴰ.head same) =
    let (rest, more, table, new) = round session x es endpoints r h in
    ap (has e.id) table
    ∙ restore_endpoints-keeps session es _ rest e.id more
        (put-has e.id x.id _ endpoints ∙ ground (arith, same))
restore_endpoints-has session (x ∷ es) endpoints r e h (Memᴰ.tail member) =
    let (rest, more, table, new) = round session x es endpoints r h in
    ap (has e.id) table ∙ restore_endpoints-has session es _ rest e more member

restore_endpoints-new :
    (session : Session) (es : List Endpoint) (endpoints : Dict String Endpoint)
    (r : List Endpoint × Dict String Endpoint) (e : Endpoint)
    → restore_endpoints session es endpoints ≡ passed r
    → Memᴰ e es
    → has e.id endpoints ≡ false
restore_endpoints-new session [] endpoints r e h member = elim member [ ]
restore_endpoints-new session (x ∷ es) endpoints r e h (Memᴰ.head same) =
    let (rest, more, table, new) = round session x es endpoints r h in
    ap (λ y. has y.id endpoints) same ∙ new
restore_endpoints-new session (x ∷ es) endpoints r e h (Memᴰ.tail member) =
    let (rest, more, table, new) = round session x es endpoints r h in
    let later = restore_endpoints-new session es _ rest e more member in
    ground (arith, sym (put-has e.id x.id _ endpoints) ∙ later)

restore_session-endpoints :
    (session : Session) (r next : Rebuilt)
    → restore_session session r ≡ passed next
    → (bound : List Endpoint × Dict String Endpoint) × (restore_endpoints session session.endpoints
          r.endpoints
        ≡ passed bound)
      × (next.endpoints ≡ bound.1)
unfolding restore_session
restore_session-endpoints session r next h = ground (arith, h)

-- An endpoint of a session among those to come has an id that is not there yet.
restore_sessions-new :
    (ss : List Session) (r next : Rebuilt) (b : Session) (f : Endpoint)
    → restore_sessions ss r ≡ passed next
    → Memᴰ b ss
    → Memᴰ f b.endpoints
    → has f.id r.endpoints ≡ false
unfolding restore_sessions
restore_sessions-new [] r next b f h member own = elim member [ ]
restore_sessions-new (s ∷ ss) r next b f h (Memᴰ.head same) own =
    let (mid, one, rest) = >>=-passed (restore_session s r) _ h in
    let (bound, made, table) =
      restore_session-endpoints b r mid (ap (λ x. restore_session x r) same ∙ one) in
    restore_endpoints-new b b.endpoints r.endpoints bound f made own
restore_sessions-new (s ∷ ss) r next b f h (Memᴰ.tail member) own =
    let (mid, one, rest) = >>=-passed (restore_session s r) _ h in
    let (bound, made, table) = restore_session-endpoints s r mid one in
    let later = restore_sessions-new ss mid next b f rest member own in
    elim (Bool-cases (has f.id r.endpoints)) [
      | inl there ↦
          let kept = restore_endpoints-keeps s s.endpoints r.endpoints bound f.id made there in
          ground (arith, later, kept, ap (has f.id) table)
      | inr new ↦ new
    ]

restore_sessions-apart :
    (xs ys : List Session) (r next : Rebuilt) (a b : Session) (e f : Endpoint)
    → restore_sessions (xs ++ a ∷ ys) r ≡ passed next
    → Memᴰ e a.endpoints
    → Memᴰ b ys
    → Memᴰ f b.endpoints
    → e.id ≢ f.id
unfolding restore_sessions
restore_sessions-apart [] ys r next a b e f h own member other same =
    let (mid, one, rest) = >>=-passed (restore_session a r) _ h in
    let (bound, made, table) = restore_session-endpoints a r mid one in
    let there = restore_endpoints-has a a.endpoints r.endpoints bound e made own in
    let new = restore_sessions-new ys mid next b f rest member other in
    ground (arith, there, new, ap (has f.id) table, ap (λ i. has i bound.1) same)
restore_sessions-apart (x ∷ xs) ys r next a b e f h own member other same =
    let (mid, one, rest) = >>=-passed (restore_session x r) _ h in
    restore_sessions-apart xs ys mid next a b e f rest own member other same

-- A snapshot with a schema that holds, among any others, a session and a later one of which two endpoints
-- have one id, is refused, whatever else it holds.
pub restore_snapshot-shared_endpoint_id :
    (snapshot : StoreSnapshot) (m n : MemoryStore) (xs ys : List Session) (a b : Session)
    (e f : Endpoint)
    → snapshot.schema_version ≢ ""
    → snapshot.sessions ≡ xs ++ a ∷ ys
    → Memᴰ e a.endpoints
    → Memᴰ b ys
    → Memᴰ f b.endpoints
    → e.id ≡ f.id
    → restore_snapshot snapshot m ≢ passed n
unfolding restore_snapshot restore_checked
restore_snapshot-shared_endpoint_id snapshot m n xs ys a b e f named listed own member other same
      h =
    let start : Rebuilt = record { sessions = []; join_codes = []; endpoints = [] } in
    let (built, all) : (built : Rebuilt) × (restore_sessions snapshot.sessions start
          ≡ passed built) =
      ground (arith, named, h) in
    restore_sessions-apart xs ys start built a b e f
      (ap (λ x. restore_sessions x start) (sym listed) ∙ all) own member other same
