-- ===== src/Ecs/Components/Single.antt =====
-- `AddComponent` of hECS/object.go on a type that is unique within an object, and on one that is unique everywhere.
use happy.Base.{
  ℕ, zero, suc, ◌+◌, ◌≤◌, ◌≡◌, refl, sym, ◌∙◌, subst, Bool, true, false, none, some, List, [], ◌∷◌,
  ◌++◌, arith, if◌then◌else◌, Bool-cases, inl, inr, nat_eq, ◌==◌, ==→≡,
}
use happy.Ecs.Systems.Counting.{one_if}
use happy.Ecs.Objects.{Store, write, unique_component, root, get_runtime}
use happy.Ecs.Objects.Ancestry.{IsForest, Ends}
use happy.Ecs.Objects.Removal.{Finite}
use happy.Ecs.Components.{
  Types, Added, local, global, fits, start, get_components_in_children, is_taken, is_provided,
  append_component, add_component,
}
use happy.Ecs.Components.Iterating.{has_match}
use happy.Ecs.Components.Adding.{
  AreAlike, Rooted-alike, Finite-alike, get_runtime_total, is_taken_total,
}

module _ (types : Types) (t : ℕ) where
  open types use {type_of, unique, requires}

  abbrev pub count_type : List ℕ → ℕ
  count_type [] = 0
  count_type (c ∷ cs) = one_if (type_of c == t) + count_type cs

  count_type-append : (cs ds : List ℕ) → count_type (cs ++ ds) ≡ count_type cs + count_type ds
  count_type-append [] ds = omega arith
  count_type-append (c ∷ cs) ds = omega (arith, count_type-append cs ds)

  count_type_none : (cs : List ℕ) → has_match types (some t) cs ≡ false → count_type cs ≡ 0
  unfolding fits
  count_type_none [] h = refl
  count_type_none (c ∷ cs) h = ground (arith, h, count_type_none cs)

  -- No object has two components of the type.
  abbrev pub IsSingle : Store → Type 0
  IsSingle s = (i : ℕ) → count_type (s i).components ≤ 1

  IsSingle-alike : (s s' : Store) → AreAlike s s' → IsSingle s → IsSingle s'
  IsSingle-alike s s' alike h i = subst (λ cs. count_type cs ≤ 1) (sym (alike i).2) (h i)

  -- The component is of another type, or its object has none of its type.
  abbrev Fresh : Store → ℕ → ℕ → Type 0
  Fresh s o c = type_of c ≡ t → count_type (s o).components ≡ 0

  write-IsSingle :
      (s : Store) (o c : ℕ)
      → Fresh s o c
      → IsSingle s
      → IsSingle (write s o (record (s o) { components = (s o).components ++ c ∷ [] }))
  write-IsSingle s o c fresh h i = elim (Bool-cases (type_of c == t)) [
    | inl same ↦
        let empty : count_type (s o).components ≡ 0 = fresh (==→≡ (type_of c) t same) in
        ground (arith, same, empty, h i, count_type-append (s o).components (c ∷ []))
    | inr other ↦ ground (arith, other, h i, h o, count_type-append (s o).components (c ∷ []))
  ]

  append_component-IsSingle :
      (s : Store) (o c : ℕ) (b : Bool)
      → Fresh s o c
      → IsSingle s
      → IsSingle (append_component types s o c b).store
  unfolding append_component
  append_component-IsSingle s o c b fresh h = elim (Bool-cases (is_provided types s (requires c))) [
    | inl given ↦ rw given (write-IsSingle s o c fresh h)
    | inr lacking ↦ rw lacking h
  ]

  add_component_runs :
      (m o c : ℕ) (s s' : Store) (b taken : Bool)
      → get_runtime m s o ≡ some (s', b)
      → is_taken types m s' o c (unique c) ≡ some taken
      → add_component types m s o c
        ≡ some (
            if taken
            then record { store = s'; events = []; error = some unique_component }
            else append_component types s' o c b)
  unfolding add_component
  add_component_runs m o c s s' b taken e h = ground (arith, e, h)

  chosen-IsSingle :
      (s : Store) (o c : ℕ) (b taken : Bool)
      → (taken ≡ false → Fresh s o c)
      → IsSingle s
      → IsSingle
          (if taken
            then (record { store = s; events = []; error = some unique_component })
            else append_component types s o c b).store
  chosen-IsSingle s o c b true fresh h = h
  chosen-IsSingle s o c b false fresh h = append_component-IsSingle s o c b (fresh refl) h

  -- In a forest with finitely many objects below each, AddComponent ends, and if every component of a type is unique
  -- within its object, no object gets a second one of it, whatever component is added.
  pub add_component-IsSingle :
      (s : Store) (o c : ℕ)
      → ((d : ℕ) → type_of d ≡ t → unique d ≡ local)
      → IsForest s
      → ((i : ℕ) → Finite s i)
      → IsSingle s
      → (a : Added) × Ends (λ m. add_component types m s o c) a × IsSingle a.store
  add_component-IsSingle s o c unique_t forest finite h =
      let ((s', b), (n, runs), alike) = get_runtime_total s o (forest o) in
      let (taken, (k, tests), test) =
        is_taken_total types s' o c (unique c) (λ i. Rooted-alike s s' alike (forest i))
          (λ i. Finite-alike s s' alike (finite i)) in
      let h' : IsSingle s' = IsSingle-alike s s' alike h in
      (
        (if taken
            then record { store = s'; events = []; error = some unique_component }
            else append_component types s' o c b),
        (
          n + k,
          λ m l.
              add_component_runs m o c s s' b taken (runs m (omega arith)) (tests m (omega arith)),
        ),
        chosen-IsSingle s' o c b taken
            (λ free e. count_type_none (s' o).components (
              subst (λ u. has_match types (some u) (s' o).components ≡ false) e
                (sym (test (unique_t c e)) ∙ free)))
            h',
      )

  -- At a root without children AddComponent takes a globally unique component whatever the root has already: its own
  -- components are not searched. With one of the type there, there are two.
  pub add_component-root :
      (s : Store) (o c m : ℕ)
      → unique c ≡ global
      → type_of c ≡ t
      → requires c ≡ []
      → (s o).parent ≡ none
      → (s o).children ≡ []
      → (s o).runtime ≡ true
      → 1 ≤ m
      → (a : Added) × (add_component types m s o c ≡ some a)
        × (a.error ≡ none)
        × (count_type (a.store o).components ≡ count_type (s o).components + 1)
  unfolding add_component get_runtime root get_components_in_children start append_component
  add_component-root s o c zero u e r p q rt l = absurd (omega arith)
  add_component-root s o c (suc m) u e r p q rt l = (
    append_component types s o c true,
    ground (arith, u, e, r, p, q, rt),
    ground (arith, r),
    ground (arith, r, e, count_type-append (s o).components (c ∷ [])),
  )
