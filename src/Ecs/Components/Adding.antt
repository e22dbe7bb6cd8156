-- ===== src/Ecs/Components/Adding.antt =====
-- `AddComponent` of hECS/object.go: it ends, and keeps components of a locally unique type single.
use happy.Base.{
  ℕ, zero, suc, ◌+◌, ◌≤◌, ◌≡◌, refl, sym, ap, ◌∙◌, subst, Bool, true, false, Option, none, some,
  List, arith, Bool-cases, inl, inr, nat_eq,
}
use happy.Ecs.Objects.{Store, root, find_runtime, set_runtime, get_runtime}
use happy.Ecs.Objects.Ancestry.{Rooted, top, under, IsForest, Ends, root_total}
use happy.Ecs.Objects.Removal.{Finite, FiniteEach, node, nil, cons}
use happy.Ecs.Components.{
  Types, Next, Unique, nowhere, local, global, is_value, start, groups_of,
  get_components_in_children, has_component, is_taken,
}
use happy.Ecs.Components.Iterating.{has_match, has_component-match}
use happy.Ecs.Components.Descending.{objects_in_children-Under}

-- Two stores with the same objects, but for the runtime fields.
abbrev pub AreAlike : Store → Store → Type 0
AreAlike s s' =
    (i : ℕ)
    → ((s' i).parent ≡ (s i).parent)
      × ((s' i).children ≡ (s i).children)
      × ((s' i).components ≡ (s i).components)

module _ (s s' : Store) (alike : AreAlike s s') where
  pub Rooted-alike : {i : ℕ} → Rooted s i → Rooted s' i
  Rooted-alike {i} (top e) = top ((alike i).0 ∙ e)
  Rooted-alike {i} (under {j = j} e h) = under {j = j} ((alike i).0 ∙ e) (Rooted-alike h)

  mutual
    pub Finite-alike : {i : ℕ} → Finite s i → Finite s' i
    Finite-alike {i} (node h) = node (subst (FiniteEach s') (sym (alike i).1) (FiniteEach-alike h))

    FiniteEach-alike : {cs : List ℕ} → FiniteEach s cs → FiniteEach s' cs
    FiniteEach-alike nil = nil
    FiniteEach-alike (cons h hs) = cons (Finite-alike h) (FiniteEach-alike hs)

module _ (s : Store) where
  find_runtime-none : (m : ℕ) → 1 ≤ m → find_runtime m s none ≡ some false
  unfolding find_runtime
  find_runtime-none zero l = absurd (omega arith)
  find_runtime-none (suc m) l = refl

  find_runtime_here :
      (i m : ℕ) → (s i).runtime ≡ true → 1 ≤ m → find_runtime m s (some i) ≡ some true
  unfolding find_runtime
  find_runtime_here i zero e l = absurd (omega arith)
  find_runtime_here i (suc m) e l = ground (arith, e)

  find_runtime_up :
      (i n : ℕ) (p : Option ℕ) (b : Bool)
      → (s i).runtime ≡ false
      → (s i).parent ≡ p
      → ((m : ℕ) → n ≤ m → find_runtime m s p ≡ some b)
      → (m : ℕ) → suc n ≤ m
      → find_runtime m s (some i) ≡ some b
  unfolding find_runtime
  find_runtime_up i n p b e q h zero l = absurd (omega arith)
  find_runtime_up i n p b e q h (suc m) l = ground (arith, e, q, h m)

  find_runtime_from :
      (i : ℕ) (p : Option ℕ)
      → (s i).parent ≡ p
      → (b : Bool) × Ends (λ m. find_runtime m s p) b
      → (b : Bool) × Ends (λ m. find_runtime m s (some i)) b
  find_runtime_from i p q (b, (n, h)) = elim (Bool-cases (s i).runtime) [
    | inl e ↦ (true, (1, λ m. find_runtime_here i m e))
    | inr e ↦ (b, (suc n, find_runtime_up i n p b e q h))
  ]

  find_runtime_total : (i : ℕ) → Rooted s i → (b : Bool) × Ends (λ m. find_runtime m s (some i)) b
  find_runtime_total i (top q) = find_runtime_from i none q (false, (1, find_runtime-none))
  find_runtime_total i (under {j = j} q h) = find_runtime_from i (some j) q (find_runtime_total j h)

  find_parent_total :
      (i : ℕ) → Rooted s i → (b : Bool) × Ends (λ m. find_runtime m s (s i).parent) b
  find_parent_total i (top q) = (false, (1, λ m l. ap (find_runtime m s) q ∙ find_runtime-none m l))
  find_parent_total i (under {j = j} q h) =
      let (b, (n, ends)) = find_runtime_total j h in
      (b, (n, λ m l. ap (find_runtime m s) q ∙ ends m l))

  set_runtime_alike : (o : ℕ) (b : Bool) → AreAlike s (set_runtime s o b)
  unfolding set_runtime
  set_runtime_alike o b i = ground arith

  get_runtime_here : (o m : ℕ) → (s o).runtime ≡ true → get_runtime m s o ≡ some (s, true)
  unfolding get_runtime
  get_runtime_here o m e = ground (arith, e)

  get_runtime_found :
      (o m : ℕ) (b : Bool)
      → (s o).runtime ≡ false
      → find_runtime m s (s o).parent ≡ some b
      → get_runtime m s o ≡ some (set_runtime s o b, b)
  unfolding get_runtime
  get_runtime_found o m b e h = ground (arith, e, h)

  -- `Runtime` of an object of a forest ends, and changes no more than the runtime field.
  pub get_runtime_total :
      (o : ℕ) → Rooted s o → (r : Store × Bool) × Ends (λ m. get_runtime m s o) r × AreAlike s r.0
  get_runtime_total o h = elim (Bool-cases (s o).runtime) [
    | inl e ↦ ((s, true), (0, λ m l. get_runtime_here o m e), λ i. (refl, refl, refl))
    | inr e ↦
        let (b, (n, ends)) = find_parent_total o h in
        (
          (set_runtime s o b, b),
          (n, λ m l. get_runtime_found o m b e (ends m l)),
          set_runtime_alike o b,
        )
  ]

module _ (types : Types) (s : Store) where
  in_children_total :
      (o t : ℕ)
      → Finite s o
      → (n : Next) × Ends (λ m. get_components_in_children types m (some t) s o) n
  unfolding get_components_in_children
  in_children_total o t h =
      let (os, (n, ends), same) = objects_in_children-Under s o h in
      (start types (some t) (groups_of s os), (n, λ m l. ground (arith, ends m l)))

  is_taken_global :
      (o c r m : ℕ) (n : Next)
      → root m s o ≡ some r
      → get_components_in_children types m (some (types.type_of c)) s r ≡ some n
      → is_taken types m s o c global ≡ some (is_value types n)
  is_taken_global o c r m n e h = ground (arith, e, h)

  -- The test for uniqueness ends; the one within the object reads its components.
  pub is_taken_total :
      (o c : ℕ) (u : Unique)
      → IsForest s
      → ((i : ℕ) → Finite s i)
      → (b : Bool) × Ends (λ m. is_taken types m s o c u) b
        × (u ≡ local → b ≡ has_match types (some (types.type_of c)) (s o).components)
  is_taken_total o c nowhere f h = (false, (0, λ m l. refl), λ e. absurd (cc))
  is_taken_total o c local f h = (
    has_component types s o (types.type_of c),
    (0, λ m l. refl),
    λ e. has_component-match types s o (types.type_of c),
  )
  is_taken_total o c global f h =
      let (r, (k, ends), last, place) = root_total s o (f o) in
      let (n, (k', ends')) = in_children_total r (types.type_of c) (h r) in
      (
        is_value types n,
        (k + k', λ m l. is_taken_global o c r m n (ends m (omega arith)) (ends' m (omega arith))),
        λ e. absurd (cc),
      )
