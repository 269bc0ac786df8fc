-- ===== src/Routes/Moves.antt =====
-- internal/hostcmd/route_pool.go: the critical sections of a pool's methods in any order, as the
-- mutex lets them come, and what they do to the active route and its generation.
use remote_dev_skillkit.Prelude.{
  ℕ, suc, ◌+◌, ◌-◌, ◌<◌, ◌%◌, ◌^◌, Bool, true, false, ◌&&◌, ◌||◌, Option, none, some, List, [], ◌∷◌,
  map, length, ◌==◌, ◌!=◌, nat_eq, ◌≡◌, ◌≢◌, ◌⊎◌, inl, inr, refl, ap, ◌∙◌, arith, Bool-cases,
  if◌then◌else◌, is_some, any, leb, ℤ, pos,
}
use remote_dev_skillkit.Prelude.Int.{ltb_ℤ}
use remote_dev_skillkit.ControlPlane.Session.{Time}
use remote_dev_skillkit.Routes.{
  RouteCandidate, RouteState, RoutePool, RouteSnapshot, RouteProbeObservation, index_eq,
  candidate_eq,
}
use remote_dev_skillkit.Routes.Pool.{
  at, update_at, set_active, reset_fast_streaks, fastest_healthy, report_snapshot_success,
  report_snapshot_failure, without_streak, failed_route, replace_active, index_of, failure_at,
  report_on, is_eligible,
}
use remote_dev_skillkit.Routes.Probing.{
  take_up, finish_initialize, finish_replacement, start_probe, finish_probe, ProbeStart,
  reconcile_active_health, settle, promote, elect, only_streak, reconcile, selected, best_faster,
  longer_streak,
}
use remote_dev_skillkit.Routes.Choice.{IsFastest, fastest_healthy-IsFastest}

-- A critical section, with the readings of the clock and the observations it uses.
pub data RouteCall : Type 0 where
  initialized : Time → List RouteProbeObservation → RouteCall
  succeeded : RouteSnapshot → RouteCall
  failed : Time → Time → RouteSnapshot → RouteCall
  replaced : Time → ℕ → ℕ → List RouteProbeObservation → RouteCall
  probing : Time → RouteCall
  probed : ProbeStart → List RouteProbeObservation → RouteCall

unfoldable pub route_step : RouteCall → RoutePool → RoutePool
route_step (initialized now os) p = (finish_initialize now os p).1
route_step (succeeded s) p = (report_snapshot_success s p).1
route_step (failed now later s) p = (report_snapshot_failure now later s p).1
route_step (replaced now excluded expected os) p = (finish_replacement now excluded expected os p).1
route_step (probing now) p = (start_probe now p).1
route_step (probed start os) p = (finish_probe start os p).1

unfoldable pub route_run : List RouteCall → RoutePool → RoutePool
unfolding route_step
route_run [] p = p
route_run (c ∷ cs) p = route_run cs (route_step c p)

abbrev pub candidates : List RouteState → List RouteCandidate
candidates rs = map (λ r. r.candidate) rs

abbrev pub InRange : Option ℕ → List RouteState → Type 0
InRange none rs = Unit
InRange (some i) rs = i < length rs

-- The active route stays, or it changes to a route of the pool or to none and the generation rises.
pub record Moves (p q : RoutePool) : Type 0 where
  pub same_candidates : candidates q.routes ≡ candidates p.routes
  pub counted :
      ((q.active ≡ p.active) × (q.generation ≡ p.generation))
      ⊎ ((q.active ≢ p.active)
          × (q.generation ≡ (p.generation + 1) % 2 ^ 64)
          × InRange q.active q.routes)

candidates-length :
    (rs ss : List RouteState) → candidates rs ≡ candidates ss → length rs ≡ length ss
candidates-length [] [] h = refl
candidates-length [] (s ∷ ss) h = ground (arith, h)
candidates-length (r ∷ rs) [] h = ground (arith, h)
candidates-length (r ∷ rs) (s ∷ ss) h = ap suc_ (candidates-length rs ss (ground (arith, h)))
  where
    suc_ : ℕ → ℕ
    suc_ n = suc n

update_at-candidates :
    (i : ℕ) (f : RouteState → RouteState) (rs : List RouteState)
    → ((r : RouteState) → (f r).candidate ≡ r.candidate)
    → candidates (update_at i f rs) ≡ candidates rs
update_at-candidates i f [] kept = refl
update_at-candidates i f (r ∷ rs) kept =
    ground (arith, kept r, update_at-candidates (i - 1) f rs kept)

take_up-candidates :
    (change : RouteProbeObservation → RouteState → RouteState) (os : List RouteProbeObservation)
    (rs : List RouteState)
    → ((o : RouteProbeObservation) (r : RouteState) → (change o r).candidate ≡ r.candidate)
    → candidates (take_up change os rs) ≡ candidates rs
unfolding take_up
take_up-candidates change [] rs kept = refl
take_up-candidates change (o ∷ os) rs kept =
    take_up-candidates change os _ kept
    ∙ update_at-candidates o.index _ rs (λ r. ground (arith, kept o r))

streaks-candidates : (rs : List RouteState) → candidates (map without_streak rs) ≡ candidates rs
streaks-candidates [] = refl
streaks-candidates (r ∷ rs) = ap (λ k. r.candidate ∷ k) (streaks-candidates rs)

only_streak-candidates :
    (best : Option ℕ) (i : ℕ) (rs : List RouteState)
    → candidates (only_streak best i rs) ≡ candidates rs
unfolding only_streak
only_streak-candidates best i [] = refl
only_streak-candidates best i (r ∷ rs) = elim (Bool-cases (some i == best)) [
  | inl is_best ↦ rw is_best (ap (λ k. r.candidate ∷ k) (only_streak-candidates best (i + 1) rs))
  | inr other ↦ rw other (ap (λ k. r.candidate ∷ k) (only_streak-candidates best (i + 1) rs))
]

at-InRange : (rs : List RouteState) (i : ℕ) (r : RouteState) → at rs i ≡ some r → i < length rs
at-InRange [] i r h = ground (arith, h)
at-InRange (s ∷ rs) i r h = ground (arith, h, at-InRange rs (i - 1) r)

-- The fastest route is one of the pool.
fastest-InRange :
    (rs : List RouteState) (now : Time) (excluded : Option ℕ)
    → InRange (fastest_healthy rs now excluded) rs
fastest-InRange rs now excluded =
    go (fastest_healthy rs now excluded) (fastest_healthy-IsFastest now excluded rs)
  where
    go : (o : Option ℕ) → IsFastest now excluded rs o → InRange o rs
    go none h = tt
    go (some i) h = at-InRange rs i h.0 h.1

-- New routes for a pool, and then another active route.
set_active-Moves :
    (p q : RoutePool) (index : Option ℕ)
    → candidates q.routes ≡ candidates p.routes
    → q.active ≡ p.active
    → q.generation ≡ p.generation
    → InRange index q.routes
    → Moves p (set_active index q)
unfolding set_active
set_active-Moves p q index same active generation in_range = elim (Bool-cases (q.active == index)) [
  | inl kept ↦ rw kept (record { same_candidates = same; counted = inl (active, generation) })
  | inr other ↦ rw other (record {
    same_candidates = same;
    counted =
        inr (
          λ eq. ground (arith, other, active, eq),
          ap (λ g. (g + 1) % 2 ^ 64) generation,
          in_range,
        );
  })
]

-- Both branches of a conditional.
both_branches {ℓ} :
    {A : Type 0} (P : A → Type ℓ) (b : Bool) {x y : A} → P x → P y → P (if b then x else y)
both_branches P true h k = h
both_branches P false h k = k

still :
    (p q : RoutePool)
    → candidates q.routes ≡ candidates p.routes
    → q.active ≡ p.active
    → q.generation ≡ p.generation
    → Moves p q
still p q same active generation = record {
  same_candidates = same;
  counted = inl (active, generation);
}

-- Clearing the streaks afterwards changes nothing of this.
reset-Moves : (p q : RoutePool) → Moves p q → Moves p (reset_fast_streaks q)
unfolding reset_fast_streaks
reset-Moves p q m = record {
  same_candidates = streaks-candidates q.routes ∙ m.same_candidates;
  counted = elim m.counted [
    | inl kept ↦ inl kept
    | inr (apart, next, in_range) ↦ inr (apart, next, resized q.active in_range)
  ];
}
  where
    sizes : length (map without_streak q.routes) ≡ length q.routes
    sizes = candidates-length (map without_streak q.routes) q.routes (streaks-candidates q.routes)

    resized : (o : Option ℕ) → InRange o q.routes → InRange o (map without_streak q.routes)
    resized none h = tt
    resized (some i) h = rw sizes h

selected-Moves :
    (p q : RoutePool) (o : Option ℕ)
    → candidates q.routes ≡ candidates p.routes
    → q.active ≡ p.active
    → q.generation ≡ p.generation
    → InRange o q.routes
    → Moves p (selected o q).1
selected-Moves p q none same active generation in_range = still p q same active generation
selected-Moves p q (some i) same active generation in_range =
    set_active-Moves p q (some i) same active generation in_range

initialized-Moves :
    (now : Time) (os : List RouteProbeObservation) (p : RoutePool)
    → Moves p (finish_initialize now os p).1
unfolding finish_initialize
initialized-Moves now os p =
    selected-Moves p _ _ (take_up-candidates _ os p.routes (λ o r. ground arith)) refl refl
      (fastest-InRange _ now none)

replaced-Moves :
    (now : Time) (excluded expected : ℕ) (os : List RouteProbeObservation) (p : RoutePool)
    → Moves p (finish_replacement now excluded expected os p).1
unfolding finish_replacement
replaced-Moves now excluded expected os p =
    let same = take_up-candidates _ os p.routes (λ o r. ground arith) in
    let moved = selected-Moves p _ _ same refl refl (fastest-InRange _ now (some excluded)) in
    elim (Bool-cases (p.generation != expected || is_some p.active)) [
      | inl stale ↦ rw stale (still p _ same refl refl)
      | inr fresh ↦ rw fresh moved
    ]

reported-Moves :
    (o : Option ℕ) (r : Option RouteState) (s : RouteSnapshot) (p : RoutePool)
    → Moves p (report_on o r s p).1
reported-Moves (some i) (some r) s p = elim (Bool-cases (r.candidate == s.candidate)) [
  | inl named ↦ rw named (still p _ (update_at-candidates i _ p.routes (λ r. refl)) refl refl)
  | inr other ↦ rw other (still p p refl refl refl)
]
reported-Moves (some i) none s p = still p p refl refl refl
reported-Moves none r s p = still p p refl refl refl

replace_active-Moves :
    (left : ℕ) (o : Option ℕ) (p q : RoutePool)
    → candidates q.routes ≡ candidates p.routes
    → q.active ≡ p.active
    → q.generation ≡ p.generation
    → InRange o q.routes
    → Moves p (replace_active left o q).1
replace_active-Moves left none p q same active generation in_range =
    reset-Moves p _ (set_active-Moves p q none same active generation tt)
replace_active-Moves left (some i) p q same active generation in_range =
    reset-Moves p _ (set_active-Moves p q (some i) same active generation in_range)

failed_route-candidate :
    (until : Time) (r : RouteState) → (failed_route until r).candidate ≡ r.candidate
unfolding failed_route
failed_route-candidate until r = refl

failure_at-Moves :
    (o : Option ℕ) (now later : Time) (s : RouteSnapshot) (p : RoutePool)
    → Moves p (failure_at o now later s p).1
failure_at-Moves none now later s p = still p p refl refl refl
failure_at-Moves (some i) now later s p =
    let same = update_at-candidates i _ p.routes (λ r. failed_route-candidate _ r) in
    let moved = replace_active-Moves i _ p _ same refl refl (fastest-InRange _ now (some i)) in
    elim (Bool-cases (s.generation != 0 && (s.generation != p.generation || p.active != some i))) [
      | inl stale ↦ rw stale (still p p refl refl refl)
      | inr fresh ↦ rw fresh (elim (Bool-cases (p.initialized && p.active == some i)) [
        | inl was_active ↦ rw was_active moved
        | inr idle ↦ rw idle (still p _ same refl refl)
      ])
    ]

probing-Moves : (now : Time) (p : RoutePool) → Moves p (start_probe now p).1
unfolding start_probe
probing-Moves now p = still p (start_probe now p).1 (ground arith) (ground arith) (ground arith)

reconcile-Moves :
    (now : Time) (o : Option ℕ) (r : Option RouteState) (p q : RoutePool)
    → candidates q.routes ≡ candidates p.routes
    → q.active ≡ p.active
    → q.generation ≡ p.generation
    → Moves p (reconcile now o r q).1
reconcile-Moves now (some i) (some r) p q same active generation =
    let moved =
      set_active-Moves p q _ same active generation (fastest-InRange q.routes now (some i)) in
    elim (Bool-cases (r.healthy && is_eligible now r)) [
      | inl well ↦ rw well (still p q same active generation)
      | inr ill ↦ rw ill (reset-Moves p _ moved)
    ]
reconcile-Moves now (some i) none p q same active generation = still p q same active generation
reconcile-Moves now none r p q same active generation = still p q same active generation

elect-Moves :
    (o : Option ℕ) (p q : RoutePool)
    → candidates q.routes ≡ candidates p.routes
    → q.active ≡ p.active
    → q.generation ≡ p.generation
    → InRange o q.routes
    → Moves p (elect o q).1
elect-Moves none p q same active generation in_range = still p q same active generation
elect-Moves (some i) p q same active generation in_range =
    set_active-Moves p q (some i) same active generation in_range

abbrev IsBelow : ℕ → Option (ℕ × RouteState) → Type 0
IsBelow n none = Unit
IsBelow n (some (i, r)) = i < n

-- A faster route that is found is one of the pool, or the one that was found before.
best_faster-InRange :
    (now : Time) (active : ℕ) (latency : ℤ) (observed : List ℕ) (i : ℕ)
    (best : Option (ℕ × RouteState)) (rs : List RouteState) (n : ℕ)
    → i + length rs ≡ n
    → IsBelow n best
    → IsBelow n (best_faster now active latency observed i best rs)
unfolding best_faster
best_faster-InRange now active latency observed i best [] n eq below = below
best_faster-InRange now active latency observed i best (r ∷ rs) n eq below =
    both_branches (IsBelow n) _
      (best_faster-InRange now active latency observed (i + 1) (some (i, r)) rs n
        (omega (arith, eq)) (omega (arith, eq)))
      (best_faster-InRange now active latency observed (i + 1) best rs n (omega (arith, eq)) below)

promote-Moves :
    (o : Option (ℕ × RouteState)) (p q : RoutePool)
    → candidates q.routes ≡ candidates p.routes
    → q.active ≡ p.active
    → q.generation ≡ p.generation
    → IsBelow (length q.routes) o
    → Moves p (promote o q).1
promote-Moves none p q same active generation below =
    still p _ (only_streak-candidates none 0 q.routes ∙ same) active generation
promote-Moves (some (i, r)) p q same active generation below =
    let streaks = only_streak-candidates (some i) 0 q.routes in
    let longer =
      update_at-candidates i longer_streak (only_streak (some i) 0 q.routes) (λ r. refl) in
    let size = candidates-length _ q.routes (longer ∙ streaks) in
    let moved =
      set_active-Moves p _ (some i) (longer ∙ streaks ∙ same) active generation (rw size below) in
    elim (Bool-cases (leb 2 (r.fast_streak + 1))) [
      | inl twice ↦ rw twice (reset-Moves p _ moved)
      | inr once ↦ rw once (still p _ (longer ∙ streaks ∙ same) active generation)
    ]

settle-Moves :
    (now : Time) (observed : List ℕ) (o : Option ℕ) (r : Option RouteState) (p q : RoutePool)
    → candidates q.routes ≡ candidates p.routes
    → q.active ≡ p.active
    → q.generation ≡ p.generation
    → Moves p (settle now observed o r q).1
settle-Moves now observed (some i) (some r) p q same active generation =
    let left =
      set_active-Moves p q _ same active generation (fastest-InRange q.routes now (some i)) in
    let faster =
      promote-Moves _ p q same active generation
        (best_faster-InRange now i r.latency observed 0 none q.routes _ (omega arith) tt) in
    let unmoved = still p q same active generation in
    elim (Bool-cases r.healthy) [
      | inr ill ↦ rw ill (reset-Moves p _ left)
      | inl well ↦ rw well (elim (Bool-cases (any (λ j. j == i) observed)) [
        | inr unseen ↦ rw unseen (reset-Moves p q unmoved)
        | inl seen ↦ rw seen (elim (Bool-cases (ltb_ℤ (pos 0) r.latency)) [
          | inr untimed ↦ rw untimed unmoved
          | inl timed ↦ rw timed faster
        ])
      ])
    ]
settle-Moves now observed (some i) none p q same active generation =
    elect-Moves _ p q same active generation (fastest-InRange q.routes now none)
settle-Moves now observed none r p q same active generation =
    elect-Moves _ p q same active generation (fastest-InRange q.routes now none)

probed-Moves :
    (start : ProbeStart) (os : List RouteProbeObservation) (p : RoutePool)
    → Moves p (finish_probe start os p).1
unfolding finish_probe reconcile_active_health
probed-Moves start os p =
    let same = take_up-candidates _ os p.routes (λ o r. ground arith) in
    let reconciled = reconcile-Moves start.now p.active _ p _ same refl refl in
    let settled = settle-Moves start.now _ p.active _ p _ same refl refl in
    elim (Bool-cases (p.generation != start.generation || p.active != start.active)) [
      | inl stale ↦ rw stale reconciled
      | inr fresh ↦ rw fresh settled
    ]

-- Every critical section of a pool's methods keeps the routes, and either keeps the active route and
-- its generation, or changes it to another route of the pool or to none and takes the next generation.
pub route_step-Moves : (c : RouteCall) (p : RoutePool) → Moves p (route_step c p)
unfolding route_step report_snapshot_success report_snapshot_failure
route_step-Moves (initialized now os) p = initialized-Moves now os p
route_step-Moves (succeeded s) p =
    both_branches {A = Bool × RoutePool} (λ x. Moves p x.1) (s.generation != p.generation)
      (still p p refl refl refl) (reported-Moves p.active _ s p)
route_step-Moves (failed now later s) p =
    failure_at-Moves (index_of s.candidate 0 p.routes) now later s p
route_step-Moves (replaced now excluded expected os) p = replaced-Moves now excluded expected os p
route_step-Moves (probing now) p = probing-Moves now p
route_step-Moves (probed start os) p = probed-Moves start os p

Moves-InRange :
    (p q : RoutePool) → Moves p q → InRange p.active p.routes → InRange q.active q.routes
Moves-InRange p q m h = elim m.counted [
  | inl (same, generation) ↦
      let sizes = candidates-length q.routes p.routes m.same_candidates in
      rw same (resized p.active sizes h)
  | inr (apart, next, in_range) ↦ in_range
]
  where
    resized :
        (o : Option ℕ) → length q.routes ≡ length p.routes → InRange o p.routes → InRange o q.routes
    resized none sizes h = tt
    resized (some i) sizes h = rw sizes h

-- In any order of the critical sections the routes of a pool stay, and its active route is one of them
-- if it was one before.
pub route_run-InRange :
    (cs : List RouteCall) (p : RoutePool)
    → InRange p.active p.routes
    → (candidates (route_run cs p).routes ≡ candidates p.routes)
      × InRange (route_run cs p).active (route_run cs p).routes
unfolding route_run
route_run-InRange [] p h = (refl, h)
route_run-InRange (c ∷ cs) p h =
    let one = route_step-Moves c p in
    let rest = route_run-InRange cs (route_step c p) (Moves-InRange p (route_step c p) one h) in
    (rest.0 ∙ one.same_candidates, rest.1)
