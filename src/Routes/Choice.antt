-- ===== src/Routes/Choice.antt =====
-- internal/hostcmd/route_pool.go: what the choice of the fastest route answers.
use native.Mathlib.Decide.{ℕ_discrete}
use remote_dev_skillkit.Prelude.{
  ℕ, ◌+◌, ◌-◌, ◌≤◌, true, false, Option, none, some, List, [], ◌∷◌, ◌==◌, ◌≡◌, refl, arith, ◌⊎◌,
  inl, inr, Bool-cases, ◌&&◌, sym, nat_eq, ap, ◌∙◌,
}
use remote_dev_skillkit.Prelude.Int.{◌≤ℤ◌}
use remote_dev_skillkit.ControlPlane.Session.{Time}
use remote_dev_skillkit.Routes.{RouteState}
use remote_dev_skillkit.Routes.Pool.{
  at, is_usable, beats, fastest_from, fastest_healthy, index_of_best,
}

-- A choice that is at least as good as the route `b` at `j`.
abbrev AsGood : ℕ → RouteState → Option (ℕ × RouteState) → Type 0
AsGood j b none = ⊥
AsGood j b (some (k, c)) = (c.latency ≤ℤ b.latency) × (c.latency ≡ b.latency → k ≤ j)

AsGood-beats :
    (i j k : ℕ) (r b c : RouteState)
    → beats i r (some (k, c)) ≡ true
    → AsGood j b (some (k, c))
    → AsGood j b (some (i, r))
AsGood-beats i j k r b c h good =
    (ground (arith, h, good.0), λ same. ground (arith, h, good.0, good.1, same))

AsGood-unbeaten :
    (i : ℕ) (r : RouteState) (best : Option (ℕ × RouteState))
    → beats i r best ≡ false
    → AsGood i r best
AsGood-unbeaten i r none h = ground (arith, h)
AsGood-unbeaten i r (some (k, c)) h = (ground (arith, h), λ same. ground (arith, h, same))

module _ (now : Time) (excluded : Option ℕ) where
  fastest_from-kept :
      (i : ℕ) (best : Option (ℕ × RouteState)) (rs : List RouteState) (j : ℕ) (b : RouteState)
      → AsGood j b best
      → AsGood j b (fastest_from now excluded i best rs)
  unfolding fastest_from
  fastest_from-kept i best [] j b good = good
  fastest_from-kept i none (r ∷ rs) j b good = elim good [ ]
  fastest_from-kept i (some (k, c)) (r ∷ rs) j b good =
      elim (Bool-cases (is_usable now excluded i r && beats i r (some (k, c)))) [
        | inl taken ↦ rw taken (
            fastest_from-kept (i + 1) (some (i, r)) rs j b
              (AsGood-beats i j k r b c (ground (arith, taken)) good))
        | inr left ↦ rw left (fastest_from-kept (i + 1) (some (k, c)) rs j b good)
      ]

  fastest_from-best :
      (i : ℕ) (best : Option (ℕ × RouteState)) (rs : List RouteState) (n j : ℕ) (b : RouteState)
      → i + n ≡ j
      → at rs n ≡ some b
      → is_usable now excluded j b ≡ true
      → AsGood j b (fastest_from now excluded i best rs)
  unfolding fastest_from
  fastest_from-best i best [] n j b eq found usable = ground (arith, found)
  fastest_from-best i best (r ∷ rs) n j b eq found usable = elim (Bool-cases (n == 0)) [
    | inl first ↦
        let same : r ≡ b = ground (arith, first, found) in
        let here : j ≡ i = ground (arith, first, eq) in
        elim (Bool-cases (is_usable now excluded i r && beats i r best)) [
          | inl taken ↦
              rw taken (fastest_from-kept (i + 1) (some (i, r)) rs j b (ground (arith, same, here)))
          | inr left ↦ rw left (
              fastest_from-kept (i + 1) best rs j b (
                rw (here, sym same)
                  (AsGood-unbeaten i r best (ground (arith, left, usable, here, same)))))
        ]
    | inr later ↦
        let rest : at rs (n - 1) ≡ some b = ground (arith, later, found) in
        let step : i + 1 + (n - 1) ≡ j = ground (arith, later, eq) in
        elim (Bool-cases (is_usable now excluded i r && beats i r best)) [
          | inl taken ↦ rw taken (fastest_from-best (i + 1) _ rs (n - 1) j b step rest usable)
          | inr left ↦ rw left (fastest_from-best (i + 1) best rs (n - 1) j b step rest usable)
        ]
  ]

  -- Where a choice comes from: the one before, or a usable route of the list.
  Found : ℕ → Option (ℕ × RouteState) → List RouteState → Option (ℕ × RouteState) → Type 0
  Found i best rs choice =
      (choice ≡ best)
      ⊎ ((n : ℕ) × (c : RouteState) × (choice ≡ some (i + n, c))
          × (at rs n ≡ some c)
          × (is_usable now excluded (i + n) c ≡ true))

  Found-tail :
      (i : ℕ) (best : Option (ℕ × RouteState)) (r : RouteState) (rs : List RouteState) (n : ℕ)
      (c : RouteState) (choice : Option (ℕ × RouteState))
      → choice ≡ some (i + 1 + n, c)
      → at rs n ≡ some c
      → is_usable now excluded (i + 1 + n) c ≡ true
      → Found i best (r ∷ rs) choice
  unfolding Found
  Found-tail i best r rs n c choice eq found usable =
      let shift : i + (n + 1) ≡ i + 1 + n = omega arith in
      let pred : n + 1 - 1 ≡ n = omega arith in
      inr (n + 1, c, rw shift eq, ground (arith, found, pred), rw shift usable)

  fastest_from-Found :
      (i : ℕ) (best : Option (ℕ × RouteState)) (rs : List RouteState)
      → Found i best rs (fastest_from now excluded i best rs)
  unfolding fastest_from Found ℕ_discrete
  fastest_from-Found i best [] = inl refl
  fastest_from-Found i best (r ∷ rs) =
      elim (Bool-cases (is_usable now excluded i r && beats i r best)) [
        | inl taken ↦ rw taken (elim (fastest_from-Found (i + 1) (some (i, r)) rs) [
          | inl same ↦
              let here : i + 0 ≡ i = omega arith in
              let usable : is_usable now excluded i r ≡ true = ground (arith, taken) in
              inr (0, r, rw here same, refl, rw here usable)
          | inr (n, c, eq, found, usable) ↦ Found-tail i best r rs n c _ eq found usable
        ])
        | inr left ↦ rw left (elim (fastest_from-Found (i + 1) best rs) [
          | inl same ↦ inl same
          | inr (n, c, eq, found, usable) ↦ Found-tail i best r rs n c _ eq found usable
        ])
      ]

  -- What a choice is: a usable route that no usable one is faster than, the first of those, and none
  -- only where no route is usable.
  abbrev pub IsFastest : List RouteState → Option ℕ → Type 0
  IsFastest rs none =
      (j : ℕ) (b : RouteState) → at rs j ≡ some b → is_usable now excluded j b ≡ false
  IsFastest rs (some i) =
      (c : RouteState) × (at rs i ≡ some c)
      × (is_usable now excluded i c ≡ true)
      × ((j : ℕ) (b : RouteState)
          → at rs j ≡ some b
          → is_usable now excluded j b ≡ true
          → (c.latency ≤ℤ b.latency) × (c.latency ≡ b.latency → i ≤ j))

  of_origin-IsFastest :
      (rs : List RouteState) (choice : Option (ℕ × RouteState))
      → Found 0 none rs choice
      → ((j : ℕ) (b : RouteState)
          → at rs j ≡ some b
          → is_usable now excluded j b ≡ true
          → AsGood j b choice)
      → IsFastest rs (index_of_best choice)
  unfolding Found
  of_origin-IsFastest rs none found best = λ j b at_j.
      elim (Bool-cases (is_usable now excluded j b)) [
        | inl usable ↦ elim (best j b at_j usable) [ ]
        | inr not_usable ↦ not_usable
      ]
  of_origin-IsFastest rs (some (k, c)) (inl same) best = ground (arith, same)
  of_origin-IsFastest rs (some (k, c)) (inr (n, d, eq, found, usable)) best =
      let index : n ≡ k = ground (arith, eq) in
      let route : d ≡ c = ground (arith, eq) in
      let here : 0 + n ≡ k = omega (arith, index) in
      (
        c,
        ground (arith, found, index, route),
        ap (λ x. is_usable now excluded x c) (sym here)
            ∙ ap (λ x. is_usable now excluded (0 + n) x) (sym route)
            ∙ usable,
        best,
      )

  -- `fastestHealthyLocked` answers the first of the routes with the least latency among those that are
  -- healthy, past their cooldown and not excluded, and -1 only where there is no such route.
  pub fastest_healthy-IsFastest :
      (rs : List RouteState) → IsFastest rs (fastest_healthy rs now excluded)
  unfolding fastest_healthy
  fastest_healthy-IsFastest rs =
      of_origin-IsFastest rs (fastest_from now excluded 0 none rs) (fastest_from-Found 0 none rs)
        (λ j b at_j usable. fastest_from-best 0 none rs j j b (omega arith) at_j usable)
