-- ===== src/Ecs/Components/Descending.antt =====
-- `ObjectsInChildren` of hECS/iter_object_array.go visits the objects below an object.
use happy.Base.{
  ℕ, zero, suc, ◌+◌, ◌≤◌, ◌≡◌, ◌↔◌, refl, sym, subst, true, some, List, [], ◌∷◌, ◌++◌, arith,
  Bool-cases, inl, inr, All, All-append, All-contains, contains, contains-append, nat_eq, ◌==◌,
  ==_self, ==→≡,
}
use happy.Ecs.Objects.{Store}
use happy.Ecs.Objects.Ancestry.{Ends}
use happy.Ecs.Objects.Removal.{Finite, FiniteEach, node, nil, cons, Below, self, child}
use happy.Ecs.Components.{walk, objects_in_children}

-- How many objects there are.
abbrev mutual
  size : {s : Store} {o : ℕ} → Finite s o → ℕ
  size (node h) = suc (size_each h)

  size_each : {s : Store} {os : List ℕ} → FiniteEach s os → ℕ
  size_each nil = 0
  size_each (cons h hs) = size h + size_each hs

joined :
    {s : Store} {os ps : List ℕ} (h : FiniteEach s os) (k : FiniteEach s ps)
    → (j : FiniteEach s (os ++ ps)) × (size_each j ≡ size_each h + size_each k)
joined nil k = (k, omega arith)
joined (cons h hs) k = let (j, e) = joined hs k in (cons h j, omega arith)

module _ (s : Store) where
  walk_nil : (m : ℕ) → 1 ≤ m → walk m s [] ≡ some []
  unfolding walk
  walk_nil zero l = absurd (omega arith)
  walk_nil (suc m) l = refl

  walk_cons :
      (o n : ℕ) (os r : List ℕ)
      → ((m : ℕ) → n ≤ m → walk m s (os ++ (s o).children) ≡ some r)
      → (m : ℕ) → suc n ≤ m
      → walk m s (o ∷ os) ≡ some (o ∷ r)
  unfolding walk
  walk_cons o n os r h zero l = absurd (omega arith)
  walk_cons o n os r h (suc m) l = ground (arith, h m)

  -- The list has the objects of the queue, and with an object its children.
  abbrev IsClosed : List ℕ → List ℕ → Type 0
  IsClosed os r =
      ((c : ℕ) → contains os c ≡ true → contains r c ≡ true)
      × ((i c : ℕ) → contains r i ≡ true → contains (s i).children c ≡ true → contains r c ≡ true)

  IsClosed-cons :
      (o : ℕ) (os r : List ℕ) → IsClosed (os ++ (s o).children) r → IsClosed (o ∷ os) (o ∷ r)
  IsClosed-cons o os r (start, step) = (
    (λ c h. ground (arith, h, start c, contains-append os (s o).children c)),
    λ i c h inside. elim (Bool-cases (o == i)) [
      | inl same ↦
          let inside' : contains (s o).children c ≡ true =
            subst (λ k. contains (s k).children c ≡ true) (sym (==→≡ o i same)) inside in
          ground (arith, inside', start c, contains-append os (s o).children c)
      | inr other ↦ ground (arith, h, other, step i c, inside)
    ],
  )

  -- Below an object, and not the object itself unless there is a cycle.
  abbrev pub Under : ℕ → ℕ → Type 0
  Under o i = (p : ℕ) × Below s o p × (contains (s p).children i ≡ true)

  Under-child : (o i c : ℕ) → Under o i → contains (s i).children c ≡ true → Under o c
  Under-child o i c (p, b, inside) h = (i, child i b inside, h)

  Under-children :
      (o i : ℕ) (cs : List ℕ)
      → Below s o i
      → ((c : ℕ) → contains cs c ≡ true → contains (s i).children c ≡ true)
      → All (λ c. Under o c) cs
  Under-children o i [] b h = tt
  Under-children o i (c ∷ cs) b h = (
    (i, b, h c (ground (arith, ==_self c))),
    Under-children o i cs b (λ d k. h d (ground (arith, k))),
  )

  walked :
      (top n : ℕ) (os : List ℕ) (h : FiniteEach s os)
      → size_each h ≤ n
      → All (λ i. Under top i) os
      → (r : List ℕ) × ((m : ℕ) → suc n ≤ m → walk m s os ≡ some r)
        × IsClosed os r
        × All (λ i. Under top i) r
  walked top n [] nil l u =
      ([], (λ m k. walk_nil m (omega arith)), ((λ c q. q), λ i c q q'. absurd (cc)), tt)
  walked top zero (o ∷ os) (cons (node h) hs) l u = absurd (omega arith)
  walked top (suc n) (o ∷ os) (cons (node h) hs) l u =
      let (j, e) = joined hs h in
      let here : Under top o = u.0 in
      let fresh : All (λ i. Under top i) (s o).children =
        Under-children top o (s o).children (child o here.1 here.2) (λ c q. q) in
      let (r, runs, closed, all) =
        walked top n (os ++ (s o).children) j (omega arith)
          (All-append (λ i. Under top i) os (s o).children u.1 fresh) in
      (o ∷ r, walk_cons o (suc n) os r runs, IsClosed-cons o os r closed, (here, all))

  reached :
      (o : ℕ) (r : List ℕ)
      → IsClosed (s o).children r
      → (p : ℕ) → Below s o p
      → (i : ℕ) → contains (s p).children i ≡ true
      → contains r i ≡ true
  reached o r (start, step) p self i h = start i h
  reached o r (start, step) p (child {i = q} c b inside) i h =
      step p i (reached o r (start, step) q b p inside) h

  -- With finitely many objects below an object, the iterator over them ends, and has given exactly those that are
  -- reached from it through children.
  pub objects_in_children-Under :
      (o : ℕ)
      → Finite s o
      → (r : List ℕ) × Ends (λ m. objects_in_children m s o) r
        × ((i : ℕ) → (contains r i ≡ true) ↔ Under o i)
  unfolding objects_in_children
  objects_in_children-Under o (node h) =
      let (r, runs, closed, all) =
        walked o (size_each h) (s o).children h (omega arith)
          (Under-children o o (s o).children self (λ c q. q)) in
      (
        r,
        (suc (size_each h), runs),
        λ i.
            ((λ q. All-contains (λ k. Under o k) r i all q), λ u. reached o r closed u.0 u.1 i u.2),
      )
