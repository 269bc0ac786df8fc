-- ===== src/Routes/Generations.antt =====
-- internal/hostcmd/route_pool.go: what the generation of a pool tells a request that comes back.
use remote_dev_skillkit.Prelude.{
  ℕ, suc, ◌+◌, ◌<◌, ◌≤◌, ◌%◌, ◌^◌, List, [], ◌∷◌, length, ◌≡◌, ◌≢◌, ◌⊎◌, inl, inr, refl, sym, ap,
  ◌∙◌, arith,
}
use remote_dev_skillkit.Routes.{RoutePool}
use remote_dev_skillkit.Routes.Moves.{RouteCall, route_step, route_run, Moves, route_step-Moves}

wrapped_twice : (g k : ℕ) → ((g + 1) % 2 ^ 64 + k) % 2 ^ 64 ≡ (g + (k + 1)) % 2 ^ 64
wrapped_twice g k = omega arith

not_round : (g k : ℕ) → g < 2 ^ 64 → 0 < k → k < 2 ^ 64 → (g + k) % 2 ^ 64 ≢ g
not_round g k small some_ few h = omega (arith, small, some_, few, h)

-- No change of the active route, or some number of them, one for each critical section at most.
Changes : ℕ → RoutePool → RoutePool → Type 0
Changes n p q =
    ((q.active ≡ p.active) × (q.generation ≡ p.generation))
    ⊎ ((k : ℕ) × (0 < k) × (k ≤ n) × (q.generation ≡ (p.generation + k) % 2 ^ 64))

one_more : (n : ℕ) (p q r : RoutePool) → Moves p q → Changes n q r → Changes (suc n) p r
unfolding Changes
one_more n p q r m rest = elim m.counted [
  | inl (same, still) ↦ elim rest [
    | inl (same', still') ↦ inl (same' ∙ same, still' ∙ still)
    | inr (k, some_, few, count) ↦
        inr (k, some_, omega (arith, few), count ∙ ap (λ g. (g + k) % 2 ^ 64) still)
  ]
  | inr (apart, next, in_range) ↦ elim rest [
    | inl (same', still') ↦ inr (1, omega arith, omega arith, still' ∙ next)
    | inr (k, some_, few, count) ↦ inr (
      k + 1,
      omega arith,
      omega (arith, few),
      count ∙ ap (λ g. (g + k) % 2 ^ 64) next ∙ wrapped_twice p.generation k,
    )
  ]
]

route_run-Changes : (cs : List RouteCall) (p : RoutePool) → Changes (length cs) p (route_run cs p)
unfolding route_run Changes
route_run-Changes [] p = inl (refl, refl)
route_run-Changes (c ∷ cs) p =
    one_more (length cs) p (route_step c p) (route_run cs (route_step c p)) (route_step-Moves c p)
      (route_run-Changes cs (route_step c p))

-- After fewer than 2 ^ 64 critical sections in any order, a pool whose generation, a uint64, is the one
-- that it had before has the active route that it had before.
pub route_run-generation :
    (cs : List RouteCall) (p : RoutePool)
    → p.generation < 2 ^ 64
    → length cs < 2 ^ 64
    → (route_run cs p).generation ≡ p.generation
    → (route_run cs p).active ≡ p.active
unfolding Changes
route_run-generation cs p small few same = elim (route_run-Changes cs p) [
  | inl (active, still) ↦ active
  | inr (k, some_, most, count) ↦
      absurd (not_round p.generation k small some_ (omega (arith, most, few)) (sym count ∙ same))
]
