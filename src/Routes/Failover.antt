-- ===== src/Routes/Failover.antt =====
-- internal/hostcmd/route_pool.go: what a reported failure of the active route does, and the bounds of a new
-- pool.
use remote_dev_skillkit.Prelude.{
  ℕ, ◌+◌, ◌-◌, ◌≤◌, ◌%◌, ◌^◌, true, false, not, ◌||◌, Option, none, some, List, [], ◌∷◌, map,
  length, ◌==◌, nat_eq, ◌≡◌, ◌≢◌, ◌⊎◌, inl, inr, refl, sym, ap, ◌∙◌, arith, Bool-cases, All, any,
  pos, string_eq,
}
use remote_dev_skillkit.Prelude.Int.{◌+ℤ◌, ◌≤ℤ◌}
use remote_dev_skillkit.ControlPlane.Session.{Time}
use remote_dev_skillkit.Routes.{
  RouteCandidate, RouteState, RoutePool, RouteConfig, RouteSnapshot, UrlLibrary, index_eq,
  candidate_eq, route_key, usable_route, safe_route_url, known_transport, normalize_route_transport,
  normalized, collect_routes,
}
use remote_dev_skillkit.Routes.Pool.{
  update_at, fastest_healthy, report_snapshot_failure, failed_route, index_of, Failover, answered,
  probes, candidate_at, set_active, reset_fast_streaks, replace_active, new_route_pool,
  with_route_defaults, is_usable, new_route, max_gateway_routes,
}
use remote_dev_skillkit.Routes.Choice.{IsFastest, fastest_healthy-IsFastest}

-- The routes after a failure of the one at `i`.
abbrev pub marked : Time → ℕ → RoutePool → List RouteState
marked now i p = update_at i (failed_route (now +ℤ p.config.cooldown)) p.routes

abbrev pub with_failure : Time → ℕ → RoutePool → RoutePool
with_failure now i p = record p { routes = marked now i p }

-- What the method answers: the route it changes to, or that it has to probe.
abbrev pub answer : RoutePool → ℕ → Option ℕ → Failover
answer p i none = probes i ((p.generation + 1) % 2 ^ 64)
answer p i (some j) = answered (candidate_at p j)

-- What leaving the route at `i` for the choice among the others does.
record Leaves (now : Time) (i : ℕ) (p : RoutePool) (f : Failover) (q : RoutePool) : Type 0 where
  fastest : IsFastest now (some i) p.routes q.active
  left : q.active ≢ some i
  next : q.generation ≡ (p.generation + 1) % 2 ^ 64
  answers : f ≡ answer p i q.active

set_active-other :
    (o : Option ℕ) (p : RoutePool)
    → p.active ≢ o
    → ((set_active o p).active ≡ o) × ((set_active o p).generation ≡ (p.generation + 1) % 2 ^ 64)
unfolding set_active
set_active-other o p apart = (ground (arith, apart), ground (arith, apart))

-- A usable route is not the excluded one.
usable-other :
    (now : Time) (i j : ℕ) (r : RouteState) → is_usable now (some i) j r ≡ true → some j ≢ some i
usable-other now i j r usable same = ground (arith, usable, same)

replace_active-Leaves :
    (now : Time) (i : ℕ) (o : Option ℕ) (p : RoutePool)
    → p.active ≡ some i
    → IsFastest now (some i) p.routes o
    → Leaves now i p (replace_active i o p).0 (replace_active i o p).1
unfolding reset_fast_streaks
replace_active-Leaves now i none p active best =
    let (moved, next) = set_active-other none p (ground (arith, active)) in
    record {
      fastest = rw moved best;
      left = λ eq. ground (arith, moved, eq);
      next = next;
      answers = rw (moved, next);
    }
replace_active-Leaves now i (some j) p active best =
    let other = usable-other now i j best.0 best.2 in
    let (moved, next) = set_active-other (some j) p (ground (arith, active, other)) in
    record {
      fastest = rw moved best;
      left = λ eq. other (sym moved ∙ eq);
      next = next;
      answers = rw moved;
    }

module _ (now later : Time) (i : ℕ) (s : RouteSnapshot) (p : RoutePool) where
  -- A reported failure of the active route, by a request that began with the pool's generation or
  -- without one, makes the fastest of the other routes active, or none where no other one is usable; the
  -- failed route is not active afterwards, the generation is the next one, and the answer is the
  -- new route's candidate or that the other routes are to be probed.
  pub report_snapshot_failure-leaves :
      p.initialized ≡ true
      → p.active ≡ some i
      → index_of s.candidate 0 p.routes ≡ some i
      → (s.generation ≡ 0) ⊎ (s.generation ≡ p.generation)
      → let q = (report_snapshot_failure now later s p).1 in
        IsFastest now (some i) (marked now i p) q.active
        × (q.active ≢ some i)
        × (q.generation ≡ (p.generation + 1) % 2 ^ 64)
        × ((report_snapshot_failure now later s p).0 ≡ answer (with_failure now i p) i q.active)
  unfolding report_snapshot_failure
  report_snapshot_failure-leaves ready active found current =
      let replaced : report_snapshot_failure now later s p
          ≡ replace_active i (fastest_healthy (marked now i p) now (some i))
              (with_failure now i p) =
        ground (arith, ready, active, found, current) in
      let left =
        replace_active-Leaves now i (fastest_healthy (marked now i p) now (some i))
          (with_failure now i p) active (fastest_healthy-IsFastest now (some i) (marked now i p)) in
      let all : Leaves now i (with_failure now i p) (report_snapshot_failure now later s p).0
          (report_snapshot_failure now later s p).1 =
        rw replaced left in
      (all.fastest, all.left, all.next, all.answers)

module _ (l : UrlLibrary) where
  -- Routes with different keys, none of them among those of a list.
  abbrev pub Unseen : List RouteCandidate → List RouteCandidate → Type 0
  Unseen seen [] = Unit
  Unseen seen (c ∷ cs) = (any (λ d. route_key d == route_key c) seen ≡ false) × Unseen (c ∷ seen) cs

  -- A route with a safe address, that is polled.
  abbrev pub IsSound : RouteCandidate → Type 0
  IsSound c =
      (safe_route_url l c.url ≡ true) × ((c.transport ≡ "poll") ⊎ (c.transport ≡ "long-poll"))

  normalized-IsSound :
      (c : RouteCandidate) → usable_route l (normalized l c) ≡ true → IsSound (normalized l c)
  unfolding normalize_route_transport known_transport
  normalized-IsSound c h = ground (arith, h)

  collect_routes-bounds :
      (room : ℕ) (seen given : List RouteCandidate)
      → (length (collect_routes l room seen given) ≤ room)
        × All IsSound (collect_routes l room seen given)
        × Unseen seen (collect_routes l room seen given)
  unfolding collect_routes
  collect_routes-bounds room seen [] = (ground arith, tt, tt)
  collect_routes-bounds room seen (c ∷ cs) =
      let skipped = collect_routes-bounds room seen cs in
      let added = collect_routes-bounds (room - 1) (normalized l c ∷ seen) cs in
      elim (Bool-cases (room == 0)) [
        | inl full ↦ rw full (ground arith, tt, tt)
        | inr open_ ↦
            elim (Bool-cases (
              not (usable_route l (normalized l c))
              || any (λ d. route_key d == route_key (normalized l c)) seen)) [
                | inl bad ↦ rw (open_, bad) skipped
                | inr good ↦
                    rw (open_, good)
                      (
                        ground (arith, added.0, open_),
                        (normalized-IsSound c (ground (arith, good)), added.1),
                        (ground (arith, good), added.2),
                      )
              ]
      ]

  candidates-new : (cs : List RouteCandidate) → map (λ r. r.candidate) (map new_route cs) ≡ cs
  candidates-new [] = refl
  candidates-new (c ∷ cs) = ap (λ k. c ∷ k) (candidates-new cs)

  new_route-length : (cs : List RouteCandidate) → length (map new_route cs) ≡ length cs
  new_route-length [] = refl
  new_route-length (c ∷ cs) = omega (arith, new_route-length cs)

  -- A new pool has at most 16 routes, all with a safe address, with the transport "poll" or "long-poll", and with
  -- different keys, and runs between 1 and 8 probes at a time.
  pub new_route_pool-bounds :
      (given : List RouteCandidate) (config : RouteConfig)
      → (length (new_route_pool l given config).routes ≤ 16)
        × All IsSound (map (λ r. r.candidate) (new_route_pool l given config).routes)
        × Unseen [] (map (λ r. r.candidate) (new_route_pool l given config).routes)
        × (pos 1 ≤ℤ (new_route_pool l given config).config.max_concurrent)
        × ((new_route_pool l given config).config.max_concurrent ≤ℤ pos 8)
  unfolding new_route_pool with_route_defaults
  new_route_pool-bounds given config =
      let (few, usable, unseen) = collect_routes-bounds max_gateway_routes [] given in
      let same = candidates-new (collect_routes l max_gateway_routes [] given) in
      (
        rw (new_route-length (collect_routes l max_gateway_routes [] given)) few,
        rw same usable,
        rw same unseen,
        ground arith,
        ground arith,
      )
