-- ===== src/Tests/Routes.antt =====
-- A pool of two gateways: its making, a failure of the active one, and a run.
use remote_dev_skillkit.Prelude.{
  ℕ, ◌+◌, ◌%◌, ◌^◌, ◌≤◌, true, false, none, some, List, [], ◌∷◌, ◌≡◌, ◌≢◌, refl, pos, map, length,
  All, inr, arith, String_discrete,
}
use remote_dev_skillkit.Prelude.Int.{ℤ_discrete, ◌+ℤ◌, ◌≤ℤ◌}
use native.Mathlib.Decide.{ℕ_discrete}
use remote_dev_skillkit.Routes.{
  RouteCandidate, RouteState, RouteConfig, RoutePool, RouteSnapshot, UrlLibrary,
  RouteCandidate_discrete,
}
use remote_dev_skillkit.Routes.Pool.{
  new_route_pool, fastest_healthy, report_snapshot_failure, report_snapshot_success, index_of,
  fastest_from, set_active, reset_fast_streaks, failed_route,
}
use remote_dev_skillkit.Routes.Choice.{IsFastest, fastest_healthy-IsFastest}
use remote_dev_skillkit.Routes.Moves.{RouteCall, failed, replaced, probing, succeeded, route_run}
use remote_dev_skillkit.Routes.Probing.{start_probe, eligible_indices}
use remote_dev_skillkit.Routes.Generations.{route_run-generation}
use remote_dev_skillkit.Routes.Failover.{
  IsSound, marked, with_failure, answer, Unseen, report_snapshot_failure-leaves,
  new_route_pool-bounds,
}

abbrev urls : UrlLibrary
urls = record {
  parse = λ value. some (record {
    scheme = "https";
    opaque = "";
    has_user = false;
    hostname = value;
    port = "";
    path = "";
    force_query = false;
    raw_query = "";
    fragment = "";
  });
  to_lower = λ value. value;
}

abbrev near : RouteCandidate
near = record { url = "https://near"; transport = "long-poll" }

abbrev far : RouteCandidate
far = record { url = "https://far"; transport = "poll" }

abbrev config : RouteConfig
config = record {
  max_concurrent = pos 0;
  probe_timeout = pos 0;
  cooldown = pos 100;
  reprobe_interval = pos 0;
}

abbrev route : RouteCandidate → ℕ → RouteState
route c latency = record {
  candidate = c;
  healthy = true;
  latency = pos latency;
  failures = 0;
  cooldown_until = pos 0;
  fast_streak = 0;
  epoch = 1;
}

abbrev pool : RoutePool
pool = record {
  routes = route near 10 ∷ route far 30 ∷ [];
  active = some 0;
  initialized = true;
  generation = 1;
  last_probe = pos 1_000;
  config = config;
}

abbrev snapshot : RouteSnapshot
snapshot = record { candidate = near; generation = 1 }

abbrev calls : List RouteCall
calls =
    failed (pos 2_000) (pos 2_000) snapshot
    ∷ probing (pos 3_000)
    ∷ replaced (pos 3_000) 1 2 (
        record {
          index = 0;
          epoch = 2;
          result = record { healthy = true; latency = pos 5; failed = false };
          at = pos 3_000;
        }
        ∷ [])
    ∷ []

moved : (report_snapshot_failure (pos 2_000) (pos 2_000) snapshot pool).1.active ≡ some 1
unfolding report_snapshot_failure index_of fastest_healthy fastest_from RouteCandidate_discrete
    String_discrete ℤ_discrete ℕ_discrete ◌+ℤ◌ set_active reset_fast_streaks failed_route
moved = refl

found : index_of near 0 pool.routes ≡ some 0
unfolding index_of RouteCandidate_discrete String_discrete
found = refl

fastest_healthy-IsFastest_example :
    IsFastest (pos 2_000) none pool.routes (fastest_healthy pool.routes (pos 2_000) none)
fastest_healthy-IsFastest_example = fastest_healthy-IsFastest (pos 2_000) none pool.routes

-- Critical sections that leave the active route.
abbrev quiet_calls : List RouteCall
quiet_calls = probing (pos 3_000) ∷ succeeded snapshot ∷ []

stayed : (route_run quiet_calls pool).generation ≡ pool.generation
unfolding route_run start_probe report_snapshot_success ℕ_discrete eligible_indices ℤ_discrete
    RouteCandidate_discrete String_discrete
stayed = refl

route_run-generation_example : (route_run quiet_calls pool).active ≡ some 0
route_run-generation_example =
    route_run-generation quiet_calls pool (ground arith) (ground arith) stayed

report_snapshot_failure-leaves_example :
    let q = (report_snapshot_failure (pos 2_000) (pos 2_000) snapshot pool).1 in
    IsFastest (pos 2_000) (some 0) (marked (pos 2_000) 0 pool) q.active
    × (q.active ≢ some 0)
    × (q.generation ≡ (pool.generation + 1) % 2 ^ 64)
    × ((report_snapshot_failure (pos 2_000) (pos 2_000) snapshot pool).0
        ≡ answer (with_failure (pos 2_000) 0 pool) 0 q.active)
report_snapshot_failure-leaves_example =
    report_snapshot_failure-leaves (pos 2_000) (pos 2_000) 0 snapshot pool refl refl found
      (inr refl)

abbrev made : RoutePool
made = new_route_pool urls (near ∷ far ∷ near ∷ []) config

new_route_pool-bounds_example :
    (length made.routes ≤ 16)
    × All (IsSound urls) (map (λ r. r.candidate) made.routes)
    × Unseen urls [] (map (λ r. r.candidate) made.routes)
    × (pos 1 ≤ℤ made.config.max_concurrent)
    × (made.config.max_concurrent ≤ℤ pos 8)
new_route_pool-bounds_example = new_route_pool-bounds urls (near ∷ far ∷ near ∷ []) config
