-- ===== src/ControlPlane/Events/Paging.antt =====
-- internal/controlplane/store.go: what a reader of a log gets, against a filter of the whole log.
use mathlib.Core.Path.{subst}
use remote_dev_skillkit.Prelude.{
  ℕ, zero, suc, ◌+◌, true, false, List, [], ◌∷◌, ◌≡◌, refl, ap, leb, keep, take, pos, ℤ, arith,
  Bool-cases, inl, inr, if◌then◌else◌, not, ◌&&◌,
}
use remote_dev_skillkit.Prelude.Int.{ltb_ℤ}
use remote_dev_skillkit.ControlPlane.Session.{Endpoint, Event}
use remote_dev_skillkit.ControlPlane.Events.{collect, is_shown, visible_events}

collect-all :
    (e : Endpoint) (after_seq : ℕ) (limit : ℤ) (taken : ℕ) (log : List Event)
    → ltb_ℤ (pos 0) limit ≡ false
    → collect e after_seq limit taken log ≡ keep (is_shown e after_seq) log
unfolding collect
collect-all e after_seq limit taken [] h = refl
collect-all e after_seq limit taken (x ∷ log) h = elim (Bool-cases (is_shown e after_seq x)) [
  | inl shown ↦ rw (shown, h) (ap (λ xs. x ∷ xs) (collect-all e after_seq limit (suc taken) log h))
  | inr hidden ↦ rw hidden (collect-all e after_seq limit taken log h)
]

collect-take :
    (e : Endpoint) (after_seq taken left : ℕ) (log : List Event)
    → collect e after_seq (pos (taken + suc left)) taken log
      ≡ take (suc left) (keep (is_shown e after_seq) log)
unfolding collect
collect-take e after_seq taken left [] = refl
collect-take e after_seq taken zero (x ∷ log) = elim (Bool-cases (is_shown e after_seq x)) [
  | inl shown ↦ rw (shown, full) refl
  | inr hidden ↦ rw hidden (collect-take e after_seq taken zero log)
]
  where
    full :
        (ltb_ℤ (pos 0) (pos (taken + 1)) && not (ltb_ℤ (pos (suc taken)) (pos (taken + 1)))) ≡ true
    full = ground arith
collect-take e after_seq taken (suc left) (x ∷ log) = elim (Bool-cases (is_shown e after_seq x)) [
  | inl shown ↦
      rw (shown, more)
        (ap (λ xs. x ∷ xs)
          (subst
            (λ n.
              collect e after_seq (pos n) (suc taken) log
              ≡ take (suc left) (keep (is_shown e after_seq) log))
            sum (collect-take e after_seq (suc taken) left log)))
  | inr hidden ↦ rw hidden (collect-take e after_seq taken (suc left) log)
]
  where
    more :
        (ltb_ℤ (pos 0) (pos (taken + suc (suc left)))
          && not (ltb_ℤ (pos (suc taken)) (pos (taken + suc (suc left)))))
        ≡ false
    more = ground arith

    sum : suc taken + suc left ≡ taken + suc (suc left)
    sum = omega arith

-- With a limit, a reader gets the first events of those that it may see after its cursor, as many
-- as the limit says.
pub visible_events-take :
    (log : List Event) (e : Endpoint) (after_seq left : ℕ)
    → visible_events log e after_seq (pos (suc left))
      ≡ take (suc left) (keep (is_shown e after_seq) log)
unfolding visible_events
visible_events-take log e after_seq left =
    subst
      (λ n. collect e after_seq (pos n) 0 log ≡ take (suc left) (keep (is_shown e after_seq) log))
      (omega arith) (collect-take e after_seq 0 left log)

-- Without a positive limit, a reader gets all events that it may see after its cursor.
pub visible_events-all :
    (log : List Event) (e : Endpoint) (after_seq : ℕ) (limit : ℤ)
    → ltb_ℤ (pos 0) limit ≡ false
    → visible_events log e after_seq limit ≡ keep (is_shown e after_seq) log
unfolding visible_events
visible_events-all log e after_seq limit h = collect-all e after_seq limit 0 log h

shown-kept :
    (e : Endpoint) (after_seq snapshot_seq : ℕ) (x : Event)
    → leb snapshot_seq after_seq ≡ true
    → is_shown e after_seq x ≡ true
    → leb snapshot_seq x.seq ≡ true
shown-kept e after_seq snapshot_seq x h shown = ground arith

collect-compacted :
    (log : List Event) (e : Endpoint) (after_seq snapshot_seq taken : ℕ) (limit : ℤ)
    → leb snapshot_seq after_seq ≡ true
    → collect e after_seq limit taken (keep (λ x. leb snapshot_seq x.seq) log)
      ≡ collect e after_seq limit taken log
unfolding collect
collect-compacted [] e after_seq snapshot_seq taken limit h = refl
collect-compacted (x ∷ log) e after_seq snapshot_seq taken limit h =
    elim (Bool-cases (is_shown e after_seq x)) [
      | inl shown ↦
          rw (shown-kept e after_seq snapshot_seq x h shown, shown)
            (ap
              (λ xs.
                x ∷ (if ltb_ℤ (pos 0) limit && not (ltb_ℤ (pos (suc taken)) limit) then [] else xs))
              (collect-compacted log e after_seq snapshot_seq (suc taken) limit h))
      | inr hidden ↦ elim (Bool-cases (leb snapshot_seq x.seq)) [
        | inl kept ↦
            rw (kept, hidden) (collect-compacted log e after_seq snapshot_seq taken limit h)
        | inr dropped ↦
            rw (dropped, hidden) (collect-compacted log e after_seq snapshot_seq taken limit h)
      ]
    ]

-- Compaction up to a snapshot takes nothing from a reader whose cursor is not before the snapshot.
pub visible_events-compacted :
    (log : List Event) (e : Endpoint) (after_seq snapshot_seq : ℕ) (limit : ℤ)
    → leb snapshot_seq after_seq ≡ true
    → visible_events (keep (λ x. leb snapshot_seq x.seq) log) e after_seq limit
      ≡ visible_events log e after_seq limit
unfolding visible_events
visible_events-compacted log e after_seq snapshot_seq limit h =
    collect-compacted log e after_seq snapshot_seq 0 limit h
