-- ===== src/Ecs/Systems/Refinement.antt =====
-- The systems of hECS act on each component as the counts say.
use happy.Base.{
  ℕ, ◌+◌, ◌-◌, ◌≡◌, refl, ap, ◌∙◌, Bool, true, false, ◌&&◌, List, [], ◌∷◌, ◌++◌, map, ◌==◌, nat_eq,
  arith, Bool-cases, inl, inr, ==→≡,
}
use happy.Ecs.Systems.{
  Kinds, System, Systems, Updater, Call, awoken, started, updated, destroyed, Event, filters,
  retires, awakens, starts_up, refreshes, tears_down, runs_custom, new_systems, refresh,
  update_filter, system_filter, system_operate, retire, step, run,
}
use happy.Ecs.Systems.Counting.{
  one_if, count, times-append, times-map, times-map_other, count-append, count-remove_each,
  count-push_back, unknown, observe, tally, no_calls, both, expect, expect_all, IsIdle,
}

count-push :
    (c d : ℕ) (b : Bool) (u : Updater)
    → (count c (update_filter b 0 d u).push ≡ count c u.push + one_if (d == c && b))
      × ((update_filter b 0 d u).components ≡ u.components)
      × ((update_filter b 0 d u).pop ≡ u.pop)
unfolding update_filter
count-push c d true u = (ground (arith, count-append c u.push (d ∷ [])), refl, refl)
count-push c d false u = (ground arith, refl, refl)

count-pop :
    (c d : ℕ) (b : Bool) (u : Updater)
    → (count c (update_filter b 1 d u).pop ≡ count c u.pop + one_if (d == c && b))
      × ((update_filter b 1 d u).components ≡ u.components)
      × ((update_filter b 1 d u).push ≡ u.push)
unfolding update_filter
count-pop c d true u = (ground (arith, count-append c u.pop (d ∷ [])), refl, refl)
count-pop c d false u = (ground arith, refl, refl)

module _ {S : Type 0} (api : System S) (kinds : Kinds) (c : ℕ) where
  -- The interfaces of a component are read at the component itself.
  at_self : (f : ℕ → Bool) (d : ℕ) → (d == c && f d) ≡ (d == c && f c)
  at_self f d = elim (Bool-cases (d == c)) [
    | inl e ↦ ap (λ x. d == c && f x) (==→≡ d c e)
    | inr n ↦ rw n refl
  ]

  filters-observe :
      (d : ℕ) (r : Systems S)
      → observe c (system_filter api kinds d r) ≡ (expect kinds c (filters d) (observe c r)).0
  unfolding system_filter
  filters-observe d r = ground (
    arith,
    count-push_back c d (kinds.awakes d) r.awake,
    count-push_back c d (kinds.starts d) r.start,
    count-push c d (kinds.updates d) r.update,
    at_self kinds.awakes d,
    at_self kinds.starts d,
    at_self kinds.updates d,
  )

  retires-observe :
      (d : ℕ) (r : Systems S)
      → observe c (retire api kinds d r) ≡ (expect kinds c (retires d) (observe c r)).0
  unfolding retire system_operate
  retires-observe d r = ground (
    arith,
    count-push_back c d (kinds.destroys d) r.destroy,
    count-pop c d (kinds.updates d) r.update,
    at_self kinds.destroys d,
    at_self kinds.updates d,
  )

  filters_Idle : (d : ℕ) (r : Systems S) → IsIdle r → IsIdle (system_filter api kinds d r)
  unfolding system_filter
  filters_Idle d r h = ground arith

  retires_Idle : (d : ℕ) (r : Systems S) → IsIdle r → IsIdle (retire api kinds d r)
  unfolding retire system_operate
  retires_Idle d r h = ground arith

  step-IsIdle : (e : Event) (r : Systems S) → IsIdle r → IsIdle (step api kinds e r).0
  unfolding step
  step-IsIdle (filters d) r h = filters_Idle d r h
  step-IsIdle (retires d) r h = retires_Idle d r h
  step-IsIdle awakens r h = (refl, h.1, h.2)
  step-IsIdle starts_up r h = (h.0, refl, h.2)
  step-IsIdle refreshes r h = h
  step-IsIdle tears_down r h = (h.0, h.1, refl)
  step-IsIdle runs_custom r h = h

  tally-awoken : (ds : List ℕ) → tally c (map awoken ds) ≡ record no_calls { awoken = count c ds }
  tally-awoken ds = ground (
    arith,
    times-map (awoken c) c awoken (λ d. refl) ds,
    times-map_other (started c) awoken (λ d. refl) ds,
    times-map_other (updated c) awoken (λ d. refl) ds,
    times-map_other (destroyed c) awoken (λ d. refl) ds,
  )

  tally-started :
      (ds : List ℕ) → tally c (map started ds) ≡ record no_calls { started = count c ds }
  tally-started ds = ground (
    arith,
    times-map (started c) c started (λ d. refl) ds,
    times-map_other (awoken c) started (λ d. refl) ds,
    times-map_other (updated c) started (λ d. refl) ds,
    times-map_other (destroyed c) started (λ d. refl) ds,
  )

  tally-updated :
      (ds : List ℕ) → tally c (map updated ds) ≡ record no_calls { updated = count c ds }
  tally-updated ds = ground (
    arith,
    times-map (updated c) c updated (λ d. refl) ds,
    times-map_other (started c) updated (λ d. refl) ds,
    times-map_other (awoken c) updated (λ d. refl) ds,
    times-map_other (destroyed c) updated (λ d. refl) ds,
  )

  tally-destroyed :
      (ds : List ℕ) → tally c (map destroyed ds) ≡ record no_calls { destroyed = count c ds }
  tally-destroyed ds = ground (
    arith,
    times-map (destroyed c) c destroyed (λ d. refl) ds,
    times-map_other (started c) destroyed (λ d. refl) ds,
    times-map_other (updated c) destroyed (λ d. refl) ds,
    times-map_other (awoken c) destroyed (λ d. refl) ds,
  )

  count-refresh :
      (u : Updater)
      → (count c (refresh u).components ≡ count c u.components + count c u.push - count c u.pop)
        × ((refresh u).push ≡ [])
        × ((refresh u).pop ≡ [])
  unfolding refresh
  count-refresh u = (
    omega (
      arith,
      count-remove_each c (u.components ++ u.push) u.pop,
      count-append c u.components u.push,
    ),
    refl,
    refl,
  )

  pub step-observe :
      (e : Event) (r : Systems S)
      → IsIdle r
      → (observe c (step api kinds e r).0 ≡ (expect kinds c e (observe c r)).0)
        × (tally c (step api kinds e r).1 ≡ (expect kinds c e (observe c r)).1)
  unfolding step
  step-observe (filters d) r h = (filters-observe d r, refl)
  step-observe (retires d) r h = (retires-observe d r, refl)
  step-observe awakens r h = (ground arith, tally-awoken r.awake.components)
  step-observe starts_up r h = (ground arith, tally-started r.start.components)
  step-observe refreshes r h = (
    ground (arith, count-refresh r.update),
    tally-updated (refresh r.update).components ∙ ground (arith, count-refresh r.update),
  )
  step-observe tears_down r h = (ground arith, tally-destroyed r.destroy.components)
  step-observe runs_custom r h = (refl, refl)

  tally-append : (xs ys : List Call) → tally c (xs ++ ys) ≡ both (tally c xs) (tally c ys)
  tally-append xs ys = ground (
    arith,
    times-append (awoken c) xs ys,
    times-append (started c) xs ys,
    times-append (updated c) xs ys,
    times-append (destroyed c) xs ys,
  )

  pub run-observe_from :
      (es : List Event) (r : Systems S)
      → IsIdle r
      → (observe c (run api kinds es r).0 ≡ (expect_all kinds c es (observe c r)).0)
        × (tally c (run api kinds es r).1 ≡ (expect_all kinds c es (observe c r)).1)
  unfolding run
  run-observe_from [] r h = (refl, refl)
  run-observe_from (e ∷ es) r h =
      let (state, calls) = step-observe e r h in
      let (state', calls') = run-observe_from es (step api kinds e r).0 (step-IsIdle e r h) in
      (
        state' ∙ ap (λ w. (expect_all kinds c es w).0) state,
        tally-append (step api kinds e r).1 (run api kinds es (step api kinds e r).0).1
            ∙ ap (λ t. both t (tally c (run api kinds es (step api kinds e r).0).1)) calls
            ∙ ap (both (expect kinds c e (observe c r)).1)
                (calls' ∙ ap (λ w. (expect_all kinds c es w).1) state),
      )

  -- Whatever is added and removed between the phases of a new runtime's frames, each component gets exactly the calls
  -- that the counts owe it: one of each kind for each time it was added or removed, and in each update phase one for
  -- each time that it is in the system.
  pub run-observe :
      (es : List Event)
      → tally c (run api kinds es new_systems).1 ≡ (expect_all kinds c es unknown).1
  unfolding new_systems
  run-observe es = (run-observe_from es new_systems (refl, refl, refl)).1
