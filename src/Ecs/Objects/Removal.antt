-- ===== src/Ecs/Objects/Removal.antt =====
-- What `_destroy` and `RemoveObject` of hECS/object.go leave behind.
use happy.Base.{
  ℕ, zero, suc, ◌+◌, ◌≤◌, ◌≡◌, ◌⊎◌, refl, sym, ap, ◌∙◌, subst, true, false, Option, some, List, [],
  ◌∷◌, ◌++◌, ◌==◌, nat_eq, arith, if◌then◌else◌, Bool-cases, inl, inr, ==→≡, ==_self, contains, All,
  All-contains,
}
use happy.Ecs.Systems.{Event}
use happy.Ecs.Objects.{Object, Store, write, disposed, retire_all, each, destroy_object}
use happy.Ecs.Objects.Ancestry.{Ends}

-- The children of an object, their children and so on are finitely many.
mutual
  pub data Finite (s : Store) : ℕ → Type 0 where
    node : {o : ℕ} → FiniteEach s (s o).children → Finite s o

  pub data FiniteEach (s : Store) : List ℕ → Type 0 where
    nil : FiniteEach s []
    cons : {c : ℕ} {cs : List ℕ} → Finite s c → FiniteEach s cs → FiniteEach s (c ∷ cs)

-- The object or one that is reached from it through children.
pub data Below (s : Store) (o : ℕ) : ℕ → Type 0 where
  self : Below s o o
  child : {i : ℕ} (c : ℕ) → Below s o i → contains (s i).children c ≡ true → Below s o c

module _ (s : Store) (o : ℕ) where
  -- In the middle of the destruction: an object is as it was, or it is below the one destroyed and emptied, and so are
  -- its children.
  abbrev pub IsGoing : Store → Type 0
  IsGoing s' =
      (i : ℕ)
      → (s' i ≡ s i)
        ⊎ (Below s o i × (s' i ≡ disposed (s i)) × All (λ c. s' c ≡ disposed (s c)) (s i).children)

  abbrev pub Keeps : Store → Store → Type 0
  Keeps s' s'' = (i : ℕ) → s' i ≡ disposed (s i) → s'' i ≡ disposed (s i)

  All-Keeps :
      (s' s'' : Store) (cs : List ℕ)
      → Keeps s' s''
      → All (λ c. s' c ≡ disposed (s c)) cs
      → All (λ c. s'' c ≡ disposed (s c)) cs
  All-Keeps s' s'' [] k h = tt
  All-Keeps s' s'' (c ∷ cs) k h = (k c h.0, All-Keeps s' s'' cs k h.1)

  children-Below :
      (i : ℕ) (cs : List ℕ)
      → Below s o i
      → ((c : ℕ) → contains cs c ≡ true → contains (s i).children c ≡ true)
      → All (λ c. Below s o c) cs
  children-Below i [] b inside = tt
  children-Below i (c ∷ cs) b inside = (
    child c b (inside c (ground (arith, ==_self c))),
    children-Below i cs b (λ d h. inside d (ground (arith, h))),
  )

  emptied : (i : ℕ) (s' : Store) → IsGoing s' → disposed (s' i) ≡ disposed (s i)
  emptied i s' g = elim (g i) [ inl e ↦ ap disposed e | inr (b, e, h) ↦ ap disposed e ]

  written_here : (i j : ℕ) (s' : Store) (x : Object) → (i == j) ≡ true → write s' i x j ≡ x
  written_here i j s' x e = ground (arith, e)

  written_there : (i j : ℕ) (s' : Store) (x : Object) → (i == j) ≡ false → write s' i x j ≡ s' j
  written_there i j s' x e = ground (arith, e)

  write-Keeps : (i : ℕ) (s' : Store) → IsGoing s' → Keeps s' (write s' i (disposed (s' i)))
  write-Keeps i s' g j h = elim (Bool-cases (i == j)) [
    | inl same ↦
        written_here i j s' (disposed (s' i)) same
        ∙ emptied i s' g
        ∙ ap (λ k. disposed (s k)) (==→≡ i j same)
    | inr other ↦ written_there i j s' (disposed (s' i)) other ∙ h
  ]

  -- Emptying an object whose children are emptied.
  write-IsGoing :
      (i : ℕ) (s' : Store)
      → IsGoing s'
      → Below s o i
      → All (λ c. s' c ≡ disposed (s c)) (s i).children
      → IsGoing (write s' i (disposed (s' i)))
  write-IsGoing i s' g b h j = elim (Bool-cases (i == j)) [
    | inl same ↦
        let e : i ≡ j = ==→≡ i j same in
        inr (
          subst (Below s o) e b,
          written_here i j s' (disposed (s' i)) same ∙ emptied i s' g ∙ ap (λ k. disposed (s k)) e,
          All-Keeps s' (write s' i (disposed (s' i))) (s j).children (write-Keeps i s' g)
              (subst (λ k. All (λ c. s' c ≡ disposed (s c)) (s k).children) e h),
        )
    | inr other ↦ elim (g j) [
      | inl e ↦ inl (written_there i j s' (disposed (s' i)) other ∙ e)
      | inr (b', e, h') ↦ inr (
        b',
        written_there i j s' (disposed (s' i)) other ∙ e,
        All-Keeps s' (write s' i (disposed (s' i))) (s j).children (write-Keeps i s' g) h',
      )
    ]
  ]

  each_nil : (m : ℕ) (s' : Store) → each (destroy_object m) s' [] ≡ some (s', [])
  unfolding each
  each_nil m s' = refl

  each_cons :
      (m c : ℕ) (cs : List ℕ) (s' s1 s2 : Store) (es es' : List Event)
      → destroy_object m s' c ≡ some (s1, es)
      → each (destroy_object m) s1 cs ≡ some (s2, es')
      → each (destroy_object m) s' (c ∷ cs) ≡ some (s2, es ++ es')
  unfolding each
  each_cons m c cs s' s1 s2 es es' h k = ground (arith, h, k)

  destroy_step :
      (m n i : ℕ) (s' s1 : Store) (es : List Event) (cs : List ℕ)
      → suc n ≤ m
      → (s' i).children ≡ cs
      → ((k : ℕ) → n ≤ k → each (destroy_object k) s' cs ≡ some (s1, es))
      → destroy_object m s' i
        ≡ some (
          write s1 i (disposed (s1 i)),
          (if (s' i).runtime then retire_all (s' i).components else []) ++ es,
        )
  unfolding destroy_object
  destroy_step zero n i s' s1 es cs l e h = absurd (omega arith)
  destroy_step (suc m) n i s' s1 es cs l e h = ground (arith, e, h m)

  -- What destroying the objects `cs` comes to, from a store in the middle of it.
  abbrev Done : Store → List ℕ → (ℕ → Option (Store × List Event)) → Type 0
  Done s' cs f =
      (r : Store × List Event) × Ends f r
      × IsGoing r.0
      × Keeps s' r.0
      × All (λ c. r.0 c ≡ disposed (s c)) cs

  -- The end of `_destroy`, when the loop over the children has left `s1`.
  destroy_closed :
      (i n : ℕ) (s' s1 : Store) (es : List Event) (cs : List ℕ)
      → (s' i).children ≡ cs
      → ((k : ℕ) → n ≤ k → each (destroy_object k) s' cs ≡ some (s1, es))
      → IsGoing s1
      → Keeps s' s1
      → Below s o i
      → All (λ c. s1 c ≡ disposed (s c)) (s i).children
      → Done s' (i ∷ []) (λ m. destroy_object m s' i)
  destroy_closed i n s' s1 es cs e ends g k b all = (
    (
      write s1 i (disposed (s1 i)),
      (if (s' i).runtime then retire_all (s' i).components else []) ++ es,
    ),
    (suc n, λ m l. destroy_step m n i s' s1 es cs l e ends),
    write-IsGoing i s1 g b all,
    (λ j q. write-Keeps i s1 g j (k j q)),
    (written_here i i s1 (disposed (s1 i)) (==_self i) ∙ emptied i s1 g, tt),
  )

  each_joined :
      (c : ℕ) (cs : List ℕ) (s' : Store)
      → (first : Done s' (c ∷ []) (λ m. destroy_object m s' c))
      → Done first.0.0 cs (λ m. each (destroy_object m) first.0.0 cs)
      → Done s' (c ∷ cs) (λ m. each (destroy_object m) s' (c ∷ cs))
  each_joined c cs s' (r, (n, ends), g, k, all) (r', (n', ends'), g', k', all') = (
    (r'.0, r.1 ++ r'.1),
    (
      n + n',
      λ m l. each_cons m c cs s' r.0 r'.0 r.1 r'.1 (ends m (omega arith)) (ends' m (omega arith)),
    ),
    g',
    (λ j q. k' j (k j q)),
    (k' c all.0, all'),
  )

mutual
  destroy-Done :
      (s : Store) (o i : ℕ) (s' : Store)
      → Finite s i
      → IsGoing s o s'
      → Below s o i
      → Done s o s' (i ∷ []) (λ m. destroy_object m s' i)
  destroy-Done s o i s' (node h) g b = elim (g i) [
    | inl e ↦
        let (r, (n, ends), g', k, all) =
          each-Done s o (s i).children s' h g (children-Below s o i (s i).children b (λ c q. q)) in
        destroy_closed s o i n s' r.0 r.1 (s i).children (ap (λ x. x.children) e) ends g' k b all
    | inr (b', e, all) ↦
        destroy_closed s o i 0 s' s' [] [] (ap (λ x. x.children) e) (λ m l. each_nil s o m s') g
          (λ j q. q) b all
  ]

  each-Done :
      (s : Store) (o : ℕ) (cs : List ℕ) (s' : Store)
      → FiniteEach s cs
      → IsGoing s o s'
      → All (λ c. Below s o c) cs
      → Done s o s' cs (λ m. each (destroy_object m) s' cs)
  each-Done s o [] s' nil g b = ((s', []), (0, λ m l. each_nil s o m s'), g, (λ j q. q), tt)
  each-Done s o (c ∷ cs) s' (cons h hs) g b =
      let first = destroy-Done s o c s' h g b.0 in
      each_joined s o c cs s' first (each-Done s o cs first.0.0 hs first.2 b.1)

Below-emptied :
    (s : Store) (o : ℕ) (s' : Store)
    → IsGoing s o s'
    → s' o ≡ disposed (s o)
    → (i : ℕ) → Below s o i
    → s' i ≡ disposed (s i)
Below-emptied s o s' g e i self = e
Below-emptied s o s' g e i (child {i = p} c b inside) =
    let up : s' p ≡ disposed (s p) = Below-emptied s o s' g e p b in
    elim (g p) [
      | inl same ↦
          let none_left : (s p).children ≡ [] = ap (λ x. x.children) (sym same ∙ up) in
          absurd (let bad : contains (s p).children c ≡ false = rw none_left refl in cc)
      | inr (b', e', all) ↦ All-contains (λ c. s' c ≡ disposed (s c)) (s p).children c all inside
    ]

-- The destruction of an object with finitely many objects below it ends. It empties the object and those below it,
-- which keep their identifiers and their parents, and leaves all others as they were.
pub destroy_object-Empties :
    (s : Store) (o : ℕ)
    → Finite s o
    → (r : Store × List Event) × Ends (λ m. destroy_object m s o) r
      × ((i : ℕ) → Below s o i → r.0 i ≡ disposed (s i))
      × ((i : ℕ) → (r.0 i ≡ s i) ⊎ Below s o i)
destroy_object-Empties s o h =
    let (r, ends, g, k, all) = destroy-Done s o o s h (λ i. inl refl) self in
    (
      r,
      ends,
      Below-emptied s o r.0 g all.0,
      λ i. elim (g i) [ inl e ↦ inl e | inr (b, e, rest) ↦ inr b ],
    )
