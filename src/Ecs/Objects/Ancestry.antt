-- ===== src/Ecs/Objects/Ancestry.antt =====
-- The parents of an object of hECS/object.go: the loops along them end in a forest, and `AddObject` keeps one.
use happy.Base.{
  ℕ, zero, suc, ◌≤◌, ◌≡◌, ◌⊎◌, ◌↔◌, refl, sym, ap, ◌∙◌, subst, Bool, true, false, Option, none,
  some, ◌==◌, nat_eq, arith, Bool-cases, inl, inr, ==→≡, ==→≢,
}
use happy.Ecs.Objects.{Store, root, has_parent}

-- The chain of parents from an object ends.
pub data Rooted (s : Store) : ℕ → Type 0 where
  top : {i : ℕ} → (s i).parent ≡ none → Rooted s i
  under : {i j : ℕ} → (s i).parent ≡ some j → Rooted s j → Rooted s i

abbrev pub IsForest : Store → Type 0
IsForest s = (i : ℕ) → Rooted s i

-- `a` is a parent of the object, or a parent's parent, and so on.
pub data Above (s : Store) (a : ℕ) : ℕ → Type 0 where
  direct : {i : ℕ} → (s i).parent ≡ some a → Above s a i
  further : {i j : ℕ} → (s i).parent ≡ some j → Above s a j → Above s a i

-- From some fuel on a loop gives the result.
abbrev pub Ends : {A : Type 0} → (ℕ → Option A) → A → Type 0
Ends f a = (n : ℕ) × ((m : ℕ) → n ≤ m → f m ≡ some a)

module _ (s : Store) where
  root_top : (i : ℕ) → (s i).parent ≡ none → (m : ℕ) → 1 ≤ m → root m s i ≡ some i
  unfolding root
  root_top i e zero h = absurd (omega arith)
  root_top i e (suc m) h = ground (arith, e)

  root_under :
      (i j n r : ℕ)
      → (s i).parent ≡ some j
      → ((m : ℕ) → n ≤ m → root m s j ≡ some r)
      → (m : ℕ) → suc n ≤ m
      → root m s i ≡ some r
  unfolding root
  root_under i j n r e ih zero h = absurd (omega arith)
  root_under i j n r e ih (suc m) h = ground (arith, e, ih m)

  -- In a forest Root ends, with an object that has no parent and is the object or above it.
  pub root_total :
      (i : ℕ)
      → Rooted s i
      → (r : ℕ) × Ends (λ m. root m s i) r × ((s r).parent ≡ none) × ((r ≡ i) ⊎ Above s r i)
  root_total i (top e) = (i, (1, root_top i e), e, inl refl)
  root_total i (under {j = j} e h) =
      let (r, (n, ends), last, place) = root_total j h in
      (
        r,
        (suc n, root_under i j n r e ends),
        last,
        inr (elim place [ inl same ↦ direct (e ∙ ap some (sym same)) | inr over ↦ further e over ]),
      )

  has_parent_top :
      (i x : ℕ) → (s i).parent ≡ none → (m : ℕ) → 1 ≤ m → has_parent m s i x ≡ some false
  unfolding has_parent
  has_parent_top i x e zero h = absurd (omega arith)
  has_parent_top i x e (suc m) h = ground (arith, e)

  has_parent_here :
      (i j x : ℕ)
      → (s i).parent ≡ some j
      → (j == x) ≡ true
      → (m : ℕ) → 1 ≤ m
      → has_parent m s i x ≡ some true
  unfolding has_parent
  has_parent_here i j x e same zero h = absurd (omega arith)
  has_parent_here i j x e same (suc m) h = ground (arith, e, same)

  has_parent_under :
      (i j x n : ℕ) (b : Bool)
      → (s i).parent ≡ some j
      → (j == x) ≡ false
      → ((m : ℕ) → n ≤ m → has_parent m s j x ≡ some b)
      → (m : ℕ) → suc n ≤ m
      → has_parent m s i x ≡ some b
  unfolding has_parent
  has_parent_under i j x n b e other ih zero h = absurd (omega arith)
  has_parent_under i j x n b e other ih (suc m) h = ground (arith, e, other, ih m)

  -- What is above an object is its parent or above it.
  pub Above-parent : {a i : ℕ} (j : ℕ) → (s i).parent ≡ some j → Above s a i → (a ≡ j) ⊎ Above s a j
  Above-parent j e (direct e') = inl (cc)
  Above-parent {a} j e (further {j = k} e' h) = inr (subst (Above s a) (cc) h)

  pub not-Above_top : {a i : ℕ} → (s i).parent ≡ none → ¬ Above s a i
  not-Above_top e (direct e') = cc
  not-Above_top e (further e' h) = cc

  pub has_parent_total :
      (i x : ℕ)
      → Rooted s i
      → (b : Bool) × Ends (λ m. has_parent m s i x) b × ((b ≡ true) ↔ Above s x i)
  has_parent_total i x (top e) =
      (false, (1, has_parent_top i x e), ((λ p. absurd (cc)), λ a. absurd (not-Above_top e a)))
  has_parent_total i x (under {j = j} e h) = elim (Bool-cases (j == x)) [
    | inl same ↦ (
      true,
      (1, has_parent_here i j x e same),
      ((λ p. direct (e ∙ ap some (==→≡ j x same))), λ a. refl),
    )
    | inr other ↦
        let (b, (n, ends), (up, down)) = has_parent_total j x h in
        (
          b,
          (suc n, has_parent_under i j x n b e other ends),
          (
            (λ p. further e (up p)),
            λ a. elim (Above-parent j e a) [
              | inl same ↦ absurd (==→≢ j x other (sym same))
              | inr over ↦ down over
            ],
          ),
        )
  ]
