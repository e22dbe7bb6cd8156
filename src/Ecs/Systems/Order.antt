-- ===== src/Ecs/Systems/Order.antt =====
-- The order of the calls in a frame of hECS/runtime.go.
use happy.Base.{
  ℕ, ◌≡◌, refl, ap, ◌∙◌, false, List, [], ◌∷◌, ◌++◌, map, ◌==◌, nat_eq, arith, ==_self, All,
}
use mathlib.Core.List.{append-nil}
use happy.Ecs.Systems.{
  Kinds, System, Systems, Call, awoken, started, updated, destroyed, Event, filters, retires,
  awakens, starts_up, refreshes, tears_down, runs_custom, frame, refresh, step, run,
}
use happy.Ecs.Systems.Counting.{one_if, Watch, unknown, observe, tally, expect_all, IsIdle}
use happy.Ecs.Systems.Refinement.{run-observe_from}

-- Only components are added and removed.
abbrev pub IsChange : Event → Type 0
IsChange (filters d) = Unit {0}
IsChange (retires d) = Unit {0}
IsChange _ = ⊥

-- Other components than `c` are added and removed.
abbrev pub IsAside : ℕ → Event → Type 0
IsAside c (filters d) = (d == c) ≡ false
IsAside c (retires d) = (d == c) ≡ false
IsAside c _ = ⊥

-- Calls of one kind after another.
abbrev pub IsOrdered : List Call → Type 0
IsOrdered calls =
    (aw : List ℕ) × (ss : List ℕ) × (us : List ℕ) × (ds : List ℕ) × (calls
      ≡ map awoken aw ++ (map started ss ++ (map updated us ++ map destroyed ds)))

module _ {S : Type 0} (api : System S) (kinds : Kinds) where
  -- Changes call nothing.
  run-change :
      (es fs : List Event) (r : Systems S)
      → All IsChange es
      → (r' : Systems S) × ((run api kinds (es ++ fs) r).1 ≡ (run api kinds fs r').1)
  unfolding run step
  run-change [] fs r h = (r, refl)
  run-change (filters d ∷ es) fs r h = run-change es fs (step api kinds (filters d) r).0 h.1
  run-change (retires d ∷ es) fs r h = run-change es fs (step api kinds (retires d) r).0 h.1
  run-change (awakens ∷ es) fs r h = absurd h.0
  run-change (starts_up ∷ es) fs r h = absurd h.0
  run-change (refreshes ∷ es) fs r h = absurd h.0
  run-change (tears_down ∷ es) fs r h = absurd h.0
  run-change (runs_custom ∷ es) fs r h = absurd h.0

  -- In a frame, with components added and removed between the phases, every call of Awake comes before every call of
  -- Start, these before those of Update, and these before those of Destroy.
  pub frame-IsOrdered :
      (after_awake after_start after_update : List Event) (r : Systems S)
      → All IsChange after_awake
      → All IsChange after_start
      → All IsChange after_update
      → IsOrdered (run api kinds (frame after_awake after_start after_update) r).1
  unfolding run step
  frame-IsOrdered es fs gs r he hf hg =
      let r1 : Systems S = (step api kinds awakens r).0 in
      let (r2, e2) =
        run-change es (starts_up ∷ (fs ++ (refreshes ∷ (gs ++ (tears_down ∷ runs_custom ∷ []))))) r1
          he in
      let (r3, e3) =
        run-change fs (refreshes ∷ (gs ++ (tears_down ∷ runs_custom ∷ [])))
          (step api kinds starts_up r2).0 hf in
      let (r4, e4) =
        run-change gs (tears_down ∷ runs_custom ∷ []) (step api kinds refreshes r3).0 hg in
      (
        r.awake.components,
        r2.start.components,
        (refresh r3.update).components,
        r4.destroy.components,
        ap (λ l. map awoken r.awake.components ++ l)
            (e2
              ∙ ap (λ l. map started r2.start.components ++ l)
                  (e3
                    ∙ ap (λ l. map updated (refresh r3.update).components ++ l)
                        (e4 ∙ append-nil (map destroyed r4.destroy.components)))),
      )

module _ (kinds : Kinds) (c : ℕ) where
  -- What is done to other components leaves the watch of this one.
  expect_all-aside :
      (es fs : List Event) (w : Watch)
      → All (IsAside c) es
      → expect_all kinds c (es ++ fs) w ≡ expect_all kinds c fs w
  expect_all-aside [] fs w h = refl
  expect_all-aside (filters d ∷ es) fs w h = ground (arith, h.0, expect_all-aside es fs w h.1)
  expect_all-aside (retires d ∷ es) fs w h = ground (arith, h.0, expect_all-aside es fs w h.1)
  expect_all-aside (awakens ∷ es) fs w h = absurd h.0
  expect_all-aside (starts_up ∷ es) fs w h = absurd h.0
  expect_all-aside (refreshes ∷ es) fs w h = absurd h.0
  expect_all-aside (tears_down ∷ es) fs w h = absurd h.0
  expect_all-aside (runs_custom ∷ es) fs w h = absurd h.0

module _ {S : Type 0} (api : System S) (kinds : Kinds) (c : ℕ) where
  open kinds use {awakes, starts, updates}

  -- The rest of a frame, from the point where the component waits for all that it is owed.
  expect_rest :
      (n : ℕ) (es fs gs : List Event)
      → All (IsAside c) es
      → All (IsAside c) fs
      → All (IsAside c) gs
      → (expect_all kinds c
          (es ++ (starts_up ∷ (fs ++ (refreshes ∷ (gs ++ (tears_down ∷ runs_custom ∷ []))))))
          (record unknown { awake = n; start = one_if (starts c); added = one_if (updates c) })).1
        ≡ record {
          awoken = 0;
          started = one_if (starts c);
          updated = one_if (updates c);
          destroyed = 0;
        }
  expect_rest n es fs gs he hf hg = ground (
    arith,
    expect_all-aside kinds c es
        (starts_up ∷ (fs ++ (refreshes ∷ (gs ++ (tears_down ∷ runs_custom ∷ [])))))
        (record unknown { awake = n; start = one_if (starts c); added = one_if (updates c) }) he,
    expect_all-aside kinds c fs (refreshes ∷ (gs ++ (tears_down ∷ runs_custom ∷ [])))
        (record unknown { awake = n; start = 0; added = one_if (updates c) }) hf,
    expect_all-aside kinds c gs (tears_down ∷ runs_custom ∷ [])
        (record unknown { awake = n; start = 0; live = one_if (updates c) }) hg,
  )

  -- A component that the systems do not know, added before a frame in which only other components are added and
  -- removed, gets one call of each of Awake, Start and Update that it implements, and none of Destroy.
  pub filters-frame :
      (es fs gs : List Event) (r : Systems S)
      → IsIdle r
      → observe c r ≡ unknown
      → All (IsAside c) es
      → All (IsAside c) fs
      → All (IsAside c) gs
      → tally c (run api kinds (filters c ∷ frame es fs gs) r).1 ≡ record {
        awoken = one_if (awakes c);
        started = one_if (starts c);
        updated = one_if (updates c);
        destroyed = 0;
      }
  filters-frame es fs gs r idle new he hf hg =
      (run-observe_from api kinds c (filters c ∷ frame es fs gs) r idle).1
      ∙ ap (λ w. (expect_all kinds c (filters c ∷ frame es fs gs) w).1) new
      ∙ ground (arith, ==_self c, expect_rest 0 es fs gs he hf hg)

  -- A component that the systems do not know, added between the calls of Awake and those of Start of a frame, is
  -- started and updated in that frame before it has been awoken.
  pub filters-early :
      (es fs gs : List Event) (r : Systems S)
      → IsIdle r
      → observe c r ≡ unknown
      → All (IsAside c) es
      → All (IsAside c) fs
      → All (IsAside c) gs
      → tally c (run api kinds (frame (filters c ∷ es) fs gs) r).1 ≡ record {
        awoken = 0;
        started = one_if (starts c);
        updated = one_if (updates c);
        destroyed = 0;
      }
  filters-early es fs gs r idle new he hf hg =
      (run-observe_from api kinds c (frame (filters c ∷ es) fs gs) r idle).1
      ∙ ap (λ w. (expect_all kinds c (frame (filters c ∷ es) fs gs) w).1) new
      ∙ ground (arith, ==_self c, expect_rest (one_if (awakes c)) es fs gs he hf hg)
