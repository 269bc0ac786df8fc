-- ===== src/Routes/Pool.antt =====
-- internal/hostcmd/route_pool.go: making a pool, the choice of a route, and the reports of requests.
-- The clock readings of a method are arguments.
use mathlib.Core.Option.{map as map_option}
use remote_dev_skillkit.Prelude.{
  ℕ, ◌+◌, ◌%◌, ◌^◌, ◌-◌, Bool, true, false, not, ◌&&◌, ◌||◌, Option, none, some, List, [], ◌∷◌, map,
  ℤ, pos, ◌==◌, ◌!=◌, string_eq, nat_eq, if◌then◌else◌, ltb,
}
use remote_dev_skillkit.Prelude.Int.{ltb_ℤ, ◌+ℤ◌, int_eq}
use remote_dev_skillkit.ControlPlane.Session.{Time}
use remote_dev_skillkit.ControlPlane.World.{is_zero, before}
use remote_dev_skillkit.Routes.{
  RouteCandidate, RouteState, RouteConfig, RoutePool, RouteSnapshot, UrlLibrary, collect_routes,
  index_eq, candidate_eq,
}

abbrev pub max_gateway_routes : ℕ
max_gateway_routes = 16

abbrev pub max_route_probe_workers : ℕ
max_route_probe_workers = 8

abbrev positive_or : ℤ → ℤ → ℤ
positive_or n default = if ltb_ℤ (pos 0) n then n else default

abbrev clamped : ℤ → ℤ
clamped n = if ltb_ℤ (pos max_route_probe_workers) n then pos max_route_probe_workers else n

-- The defaults of `newRoutePool`; times are in nanoseconds.
unfoldable pub with_route_defaults : RouteConfig → RouteConfig
with_route_defaults c = record {
  max_concurrent = clamped (positive_or c.max_concurrent (pos 4));
  probe_timeout = positive_or c.probe_timeout (pos 2_000_000_000);
  cooldown = positive_or c.cooldown (pos 10_000_000_000);
  reprobe_interval = if ltb_ℤ c.reprobe_interval (pos 0) then pos 0 else c.reprobe_interval;
}

abbrev pub new_route : RouteCandidate → RouteState
new_route c = record {
  candidate = c;
  healthy = false;
  latency = pos 0;
  failures = 0;
  cooldown_until = pos 0;
  fast_streak = 0;
  epoch = 0;
}

unfoldable pub new_route_pool : UrlLibrary → List RouteCandidate → RouteConfig → RoutePool
new_route_pool l candidates config = record {
  routes = map new_route (collect_routes l max_gateway_routes [] candidates);
  active = none;
  initialized = false;
  generation = 0;
  last_probe = pos 0;
  config = with_route_defaults config;
}

-- The element at an index.
abbrev pub at {ℓ} : {A : Type ℓ} → List A → ℕ → Option A
at [] i = none
at (x ∷ xs) i = if i == 0 then some x else at xs (i - 1)

-- A change of the element at an index.
abbrev pub update_at {ℓ} : {A : Type ℓ} → ℕ → (A → A) → List A → List A
update_at i f [] = []
update_at i f (x ∷ xs) = if i == 0 then f x ∷ xs else x ∷ update_at (i - 1) f xs

-- `routeEligibleLocked`, of an index in range.
abbrev pub is_eligible : Time → RouteState → Bool
is_eligible now r = is_zero r.cooldown_until || not (before now r.cooldown_until)

-- The condition under which `fastestHealthyLocked` looks at a route.
abbrev pub is_usable : Time → Option ℕ → ℕ → RouteState → Bool
is_usable now excluded i r = some i != excluded && r.healthy && is_eligible now r

-- Whether the route at `i` takes the place of the best one so far.
abbrev pub beats : ℕ → RouteState → Option (ℕ × RouteState) → Bool
beats i r none = true
beats i r (some (j, b)) = ltb_ℤ r.latency b.latency || (r.latency == b.latency && ltb i j)

-- The loop of `fastestHealthyLocked` from the route at `i` on.
unfoldable pub fastest_from :
    Time → Option ℕ → ℕ → Option (ℕ × RouteState) → List RouteState → Option (ℕ × RouteState)
fastest_from now excluded i best [] = best
fastest_from now excluded i best (r ∷ rs) =
    let kept = fastest_from now excluded (i + 1) best rs in
    let replaced = fastest_from now excluded (i + 1) (some (i, r)) rs in
    if is_usable now excluded i r && beats i r best then replaced else kept

abbrev pub index_of_best : Option (ℕ × RouteState) → Option ℕ
index_of_best none = none
index_of_best (some (i, r)) = some i

unfoldable pub fastest_healthy : List RouteState → Time → Option ℕ → Option ℕ
fastest_healthy routes now excluded = index_of_best (fastest_from now excluded 0 none routes)

unfoldable pub set_active : Option ℕ → RoutePool → RoutePool
set_active index p =
    if p.active == index
    then p
    else record p { active = index; generation = (p.generation + 1) % 2 ^ 64 }

abbrev pub without_streak : RouteState → RouteState
without_streak r = record r { fast_streak = 0 }

unfoldable pub reset_fast_streaks : RoutePool → RoutePool
reset_fast_streaks p = record p { routes = map without_streak p.routes }

-- `indexOfLocked`; `i` is the index of the first route.
unfoldable pub index_of : RouteCandidate → ℕ → List RouteState → Option ℕ
index_of c i [] = none
index_of c i (r ∷ rs) =
    let rest = index_of c (i + 1) rs in if r.candidate == c then some i else rest

abbrev pub at_active : Option ℕ → List RouteState → Option RouteState
at_active none rs = none
at_active (some i) rs = at rs i

-- The active route, where its index is in range.
abbrev pub active_route : RoutePool → Option RouteState
active_route p = at_active p.active p.routes

serving : Option RouteState → Time → Option RouteCandidate
serving none now = none
serving (some r) now = if r.healthy && is_eligible now r then some r.candidate else none

-- `currentLocked`
unfoldable pub current_route : RoutePool → Time → Option RouteCandidate
unfolding serving
current_route p now = if p.initialized then serving (active_route p) now else none

abbrev pub cleared : RouteState → RouteState
cleared r = record r { healthy = true; failures = 0; cooldown_until = pos 0; fast_streak = 0 }

abbrev pub report_on : Option ℕ → Option RouteState → RouteSnapshot → RoutePool → Bool × RoutePool
report_on (some i) (some r) s p =
    if r.candidate == s.candidate
    then (true, record p { routes = update_at i cleared p.routes })
    else (false, p)
report_on _ _ s p = (false, p)

unfoldable pub report_snapshot_success : RouteSnapshot → RoutePool → Bool × RoutePool
report_snapshot_success s p =
    if s.generation != p.generation then (false, p) else report_on p.active (active_route p) s p

unfoldable pub failed_route : Time → RouteState → RouteState
failed_route until r = record r {
  healthy = false;
  failures = r.failures + 1;
  fast_streak = 0;
  epoch = (r.epoch + 1) % 2 ^ 64;
  cooldown_until = until;
}

-- What is left to do after the first critical section of `reportSnapshotFailure`.
pub data Failover : Type 0 where
  answered : Option RouteCandidate → Failover
  -- `probeReplacement` without the route at an index, at a generation.
  probes : ℕ → ℕ → Failover

abbrev pub candidate_at : RoutePool → ℕ → Option RouteCandidate
candidate_at p i = map_option (λ r. r.candidate) (at p.routes i)

-- The active route at `failed` gives way to another one, or to none.
abbrev pub replace_active : ℕ → Option ℕ → RoutePool → Failover × RoutePool
replace_active failed none p =
    let stopped = set_active none p in
    (probes failed stopped.generation, reset_fast_streaks stopped)
replace_active failed (some i) p =
    (answered (candidate_at p i), reset_fast_streaks (set_active (some i) p))

abbrev pub after_failure : Time → Time → ℕ → RoutePool → Failover × RoutePool
after_failure now later i p =
    if p.initialized && p.active == some i
    then replace_active i (fastest_healthy p.routes now (some i)) p
    else (answered (current_route p later), p)

abbrev pub failure_at : Option ℕ → Time → Time → RouteSnapshot → RoutePool → Failover × RoutePool
failure_at none now later s p = (answered none, p)
failure_at (some i) now later s p =
    let marked = record p {
      routes = update_at i (failed_route (now +ℤ p.config.cooldown)) p.routes;
    } in
    if s.generation != 0 && (s.generation != p.generation || p.active != some i)
    then (answered (current_route p later), p)
    else after_failure now later i marked

-- `reportSnapshotFailure` up to its probes, where the context is not done. `now` is its own reading of
-- the clock, `later` the one of `currentLocked` or `current`.
unfoldable pub report_snapshot_failure :
    Time → Time → RouteSnapshot → RoutePool → Failover × RoutePool
report_snapshot_failure now later s p = failure_at (index_of s.candidate 0 p.routes) now later s p

-- `reportFailure`
unfoldable pub report_failure : Time → Time → RouteCandidate → RoutePool → Failover × RoutePool
report_failure now later c p =
    report_snapshot_failure now later (record { candidate = c; generation = 0 }) p

-- `currentSnapshot`
unfoldable pub current_snapshot : RoutePool → Time → Option RouteSnapshot
current_snapshot p now =
    map_option (λ c. record { candidate = c; generation = p.generation }) (current_route p now)

abbrev eligible_one : Option RouteState → Time → Bool
eligible_one none now = false
eligible_one (some r) now = is_eligible now r

abbrev eligible_at : Option ℕ → List RouteState → Time → Bool
eligible_at none rs now = false
eligible_at (some i) rs now = eligible_one (at rs i) now

-- `routeEligible`
unfoldable pub route_eligible : RoutePool → RouteCandidate → Time → Bool
route_eligible p c now = eligible_at (index_of c 0 p.routes) p.routes now
