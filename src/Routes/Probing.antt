-- ===== src/Routes/Probing.antt =====
-- internal/hostcmd/route_pool.go: what the methods do with the observations of their probes. A method
-- gives up the mutex while the probes run: its part before them and its part after them are
-- two functions.
use mathlib.Core.Option.{map as map_option}
use remote_dev_skillkit.Prelude.{
  ℕ, ◌+◌, ◌-◌, ◌/◌, ◌%◌, ◌^◌, Bool, true, false, not, ◌&&◌, ◌||◌, Option, none, some, List, [], ◌∷◌,
  any, length, ℤ, pos, ◌==◌, ◌!=◌, string_eq, nat_eq, if◌then◌else◌, ltb, leb, is_some,
}
use remote_dev_skillkit.Prelude.Int.{ltb_ℤ, ◌+ℤ◌, ◌-ℤ◌, int_eq}
use remote_dev_skillkit.ControlPlane.Session.{Time}
use remote_dev_skillkit.ControlPlane.World.{is_zero}
use remote_dev_skillkit.Routes.{
  RouteCandidate, RouteState, RoutePool, RouteProbeResult, RouteProbeObservation, index_eq,
  candidate_eq,
}
use remote_dev_skillkit.Routes.Pool.{
  update_at, at, is_eligible, fastest_healthy, set_active, reset_fast_streaks, active_route,
  current_route, candidate_at, beats, without_streak,
}

abbrev pub is_good : RouteProbeResult → Bool
is_good r = r.healthy && not r.failed

-- What an observation does to its route in `initialize`, in `probeReplacement` and in `probe`. `now` is the
-- reading of the clock that the cooldown counts from.
abbrev measured : RouteProbeResult → RouteState → RouteState
measured o r = record r { healthy = is_good o; latency = o.latency; epoch = (r.epoch + 1) % 2 ^ 64 }

abbrev cooling : Time → RouteState → RouteState
cooling until r = record r { failures = r.failures + 1; cooldown_until = until }

abbrev rested : RouteState → RouteState
rested r = record r { failures = 0; cooldown_until = pos 0 }

abbrev pub first_observed : Time → RouteProbeResult → RouteState → RouteState
first_observed until o r = if is_good o then measured o r else cooling until (measured o r)

abbrev pub replacement_observed : Time → RouteProbeResult → RouteState → RouteState
replacement_observed until o r =
    if is_good o then rested (measured o r) else cooling until (measured o r)

abbrev pub probe_observed : Time → RouteProbeResult → RouteState → RouteState
probe_observed until o r =
    if is_good o then rested (measured o r) else without_streak (cooling until (measured o r))

-- An observation counts only where the route's epoch is the one it was made in.
abbrev pub in_epoch : (RouteState → RouteState) → ℕ → RouteState → RouteState
in_epoch f epoch r = if r.epoch == epoch then f r else r

-- The loop over the observations; `change` takes the observation.
unfoldable pub take_up :
    (RouteProbeObservation → RouteState → RouteState)
    → List RouteProbeObservation
    → List RouteState
    → List RouteState
take_up change [] rs = rs
take_up change (o ∷ os) rs = take_up change os (update_at o.index (in_epoch (change o) o.epoch) rs)

abbrev pub selected : Option ℕ → RoutePool → Option RouteCandidate × RoutePool
selected none p = (none, p)
selected (some i) p = (candidate_at p i, set_active (some i) p)

-- What `initialize` finds before its probes: an answer, or the indices to probe.
pub data InitializeStart : Type 0 where
  done : Option RouteCandidate → InitializeStart
  probe_all : List ℕ → InitializeStart

abbrev indices_from : ℕ → List RouteState → List ℕ
indices_from i [] = []
indices_from i (r ∷ rs) = i ∷ indices_from (i + 1) rs

unfoldable pub start_initialize : RoutePool → InitializeStart
start_initialize p =
    if p.initialized
    then done (map_option (λ r. r.candidate) (active_route p))
    else if length p.routes == 0
    then done none
    else probe_all (indices_from 0 p.routes)

-- `initialize` after its probes, `none` being the error.
unfoldable pub finish_initialize :
    Time → List RouteProbeObservation → RoutePool → Option RouteCandidate × RoutePool
finish_initialize now os p =
    let routes = take_up (λ o. first_observed (o.at +ℤ p.config.cooldown) o.result) os p.routes in
    let probed = record p { routes = routes; initialized = true; last_probe = now } in
    selected (fastest_healthy routes now none) probed

-- `eligibleIndicesLocked`; `i` is the index of the first route.
unfoldable pub eligible_indices : Time → Option ℕ → ℕ → List RouteState → List ℕ
eligible_indices now excluded i [] = []
eligible_indices now excluded i (r ∷ rs) =
    let rest = eligible_indices now excluded (i + 1) rs in
    if some i == excluded || not (is_eligible now r)
    then rest
    else if r.healthy || not (is_zero r.cooldown_until)
    then i ∷ rest
    else rest

-- `probeReplacement` after its probes: without the route `excluded`, at the generation `expected`.
unfoldable pub finish_replacement :
    Time → ℕ → ℕ → List RouteProbeObservation → RoutePool → Option RouteCandidate × RoutePool
finish_replacement now excluded expected os p =
    let routes =
      take_up (λ o. replacement_observed (o.at +ℤ p.config.cooldown) o.result) os p.routes in
    let probed = record p { routes = routes } in
    if p.generation != expected || is_some p.active
    then (current_route probed now, probed)
    else selected (fastest_healthy routes now (some excluded)) probed

-- What `probe` remembers over its probes.
pub record ProbeStart : Type 0 where
  pub now : Time
  pub indices : List ℕ
  pub active : Option ℕ
  pub generation : ℕ

-- `probe` before its probes, where the pool is initialized; `none` where it is too early or no route is
-- to be probed.
unfoldable pub start_probe : Time → RoutePool → Option ProbeStart × RoutePool
start_probe now p =
    let indices = eligible_indices now none 0 p.routes in
    let started = record p { last_probe = now } in
    if not p.initialized
    then (none, p)
    else if ltb_ℤ (pos 0) p.config.reprobe_interval
        && not (is_zero p.last_probe)
        && ltb_ℤ (now -ℤ p.last_probe) p.config.reprobe_interval
    then (none, p)
    else if length indices == 0
    then (none, started)
    else (
      some (record { now = now; indices = indices; active = p.active; generation = p.generation }),
      started,
    )

abbrev counts : Option RouteState → RouteProbeObservation → Bool
counts none o = false
counts (some r) o = r.epoch == o.epoch

-- `observedHealthy`: the indices whose observation counted and was good. The epochs move on with
-- every observation that counts.
unfoldable pub observed_healthy : Time → List RouteProbeObservation → List RouteState → List ℕ
observed_healthy until [] rs = []
observed_healthy until (o ∷ os) rs =
    let rest =
      observed_healthy until os
        (update_at o.index (in_epoch (probe_observed until o.result) o.epoch) rs) in
    if counts (at rs o.index) o && is_good o.result then o.index ∷ rest else rest

abbrev pub reconcile : Time → Option ℕ → Option RouteState → RoutePool → Bool × RoutePool
reconcile now (some i) (some r) p =
    if r.healthy && is_eligible now r
    then (false, p)
    else (true, reset_fast_streaks (set_active (fastest_healthy p.routes now (some i)) p))
reconcile now _ _ p = (false, p)

-- `reconcileActiveHealthLocked`
unfoldable pub reconcile_active_health : Time → RoutePool → Bool × RoutePool
reconcile_active_health now p = reconcile now p.active (active_route p) p

-- Latency a fifth below that of the active route, which is positive.
abbrev is_faster : ℤ → ℤ → Bool
is_faster (pos active) (pos n) = ltb 0 n && leb n (active - active / 5)
is_faster _ _ = false

-- The loop that looks for a route to change to, from the route at `i` on.
unfoldable pub best_faster :
    Time → ℕ → ℤ → List ℕ → ℕ → Option (ℕ × RouteState) → List RouteState → Option (ℕ × RouteState)
best_faster now active latency observed i best [] = best
best_faster now active latency observed i best (r ∷ rs) =
    let kept = best_faster now active latency observed (i + 1) best rs in
    let replaced = best_faster now active latency observed (i + 1) (some (i, r)) rs in
    if i != active
      && any (λ j. j == i) observed
      && r.healthy
      && is_eligible now r
      && is_faster latency r.latency
      && beats i r best
    then replaced
    else kept

-- The streaks of the routes other than `best`, from the route at `i` on.
unfoldable pub only_streak : Option ℕ → ℕ → List RouteState → List RouteState
only_streak best i [] = []
only_streak best i (r ∷ rs) =
    let rest = only_streak best (i + 1) rs in
    if some i == best then r ∷ rest else without_streak r ∷ rest

abbrev pub longer_streak : RouteState → RouteState
longer_streak r = record r { fast_streak = r.fast_streak + 1 }

-- The end of `probe`: a route is changed to where it was faster twice in a row.
abbrev pub promote : Option (ℕ × RouteState) → RoutePool → Bool × RoutePool
promote none p = (false, record p { routes = only_streak none 0 p.routes })
promote (some (i, r)) p =
    let counted = record p {
      routes = update_at i longer_streak (only_streak (some i) 0 p.routes);
    } in
    if leb 2 (r.fast_streak + 1)
    then (true, reset_fast_streaks (set_active (some i) counted))
    else (false, counted)

abbrev pub elect : Option ℕ → RoutePool → Bool × RoutePool
elect none p = (false, p)
elect (some i) p = (true, set_active (some i) p)

-- The active route at `i` is not healthy: `best` takes its place.
abbrev pub leave : Option ℕ → RoutePool → Bool × RoutePool
leave best p = (is_some best, reset_fast_streaks (set_active best p))

-- The end of `probe` by what stands at the active index.
abbrev pub settle : Time → List ℕ → Option ℕ → Option RouteState → RoutePool → Bool × RoutePool
settle now observed (some i) (some r) p =
    if not r.healthy
    then leave (fastest_healthy p.routes now (some i)) p
    else if not (any (λ j. j == i) observed)
    then (false, reset_fast_streaks p)
    else if not (ltb_ℤ (pos 0) r.latency)
    then (false, p)
    else promote (best_faster now i r.latency observed 0 none p.routes) p
settle now observed _ _ p = elect (fastest_healthy p.routes now none) p

-- `probe` after its probes.
unfoldable pub finish_probe : ProbeStart → List RouteProbeObservation → RoutePool → Bool × RoutePool
finish_probe start os p =
    let until = start.now +ℤ p.config.cooldown in
    let probed = record p { routes = take_up (λ o. probe_observed until o.result) os p.routes } in
    if p.generation != start.generation || p.active != start.active
    then reconcile_active_health start.now probed
    else settle start.now (observed_healthy until os p.routes) probed.active (active_route probed)
        probed
