-- ===== src/Ecs/Components/Iterating.antt =====
-- What the iterator of hECS/iter_filtered_component_array.go gives.
use happy.Base.{
  ℕ, zero, suc, ◌≤◌, ◌≡◌, ◌≢◌, refl, Bool, false, ◌||◌, Option, some, List, [], ◌∷◌, ◌++◌, arith,
  if◌then◌else◌, Bool-cases, inl, inr, All,
}
use happy.Ecs.Objects.{Store}
use happy.Ecs.Objects.Ancestry.{Ends}
use happy.Ecs.Components.{
  Next, value, ends, Types, fits, scan, start, drain, has_component, is_value, get_components,
}

module _ (types : Types) (t : Option ℕ) where
  -- The components that fit the type.
  abbrev pub matching : List ℕ → List ℕ
  matching [] = []
  matching (c ∷ cs) = if fits types t c then c ∷ matching cs else matching cs

  abbrev pub has_match : List ℕ → Bool
  has_match [] = false
  has_match (c ∷ cs) = fits types t c || has_match cs

  abbrev pub flatten : List (List ℕ) → List ℕ
  flatten [] = []
  flatten (g ∷ gs) = g ++ flatten gs

  drain-value :
      (c : ℕ) (cs ds : List ℕ) (gs : List (List ℕ)) (n : ℕ)
      → ((m : ℕ) → n ≤ m → drain types m t (scan types t cs gs) ≡ some (some ds))
      → (m : ℕ) → suc n ≤ m
      → drain types m t (value c cs gs) ≡ some (some (c ∷ ds))
  unfolding drain
  drain-value c cs ds gs n h zero l = absurd (omega arith)
  drain-value c cs ds gs n h (suc m) l = ground (arith, h m)

  drain_ends : (m : ℕ) → 1 ≤ m → drain types m t ends ≡ some (some [])
  unfolding drain
  drain_ends zero l = absurd (omega arith)
  drain_ends (suc m) l = refl

  abbrev Gives : Next → List ℕ → Type 0
  Gives n cs = Ends (λ m. drain types m t n) (some cs)

  Gives-next :
      (c : ℕ) (cs ds : List ℕ) (gs : List (List ℕ))
      → Gives (scan types t cs gs) ds
      → Gives
          (if fits types t c then value c cs gs else scan types t cs gs)
          (if fits types t c then c ∷ ds else ds)
  Gives-next c cs ds gs (n, h) = elim (Bool-cases (fits types t c)) [
    | inl fit ↦ rw fit (suc n, drain-value c cs ds gs n h)
    | inr other ↦ rw other (n, h)
  ]

  scan-Gives :
      (gs : List (List ℕ)) (cs : List ℕ)
      → All (λ g. g ≢ []) gs
      → Gives (scan types t cs gs) (matching (cs ++ flatten gs))
  unfolding scan
  scan-Gives gs (c ∷ cs) h = Gives-next c cs (matching (cs ++ flatten gs)) gs (scan-Gives gs cs h)
  scan-Gives [] [] h = (1, drain_ends)
  scan-Gives ([] ∷ gs) [] h = absurd (h.0 refl)
  scan-Gives ((c ∷ cs) ∷ gs) [] h =
      Gives-next c cs (matching (cs ++ flatten gs)) gs (scan-Gives gs cs h.1)

  -- An iterator over groups that are not empty gives the components of the type, group by group in their order, and
  -- ends without a panic.
  pub start-Gives :
      (gs : List (List ℕ))
      → All (λ g. g ≢ []) gs
      → Ends (λ m. drain types m t (start types t gs)) (some (matching (flatten gs)))
  unfolding start scan
  start-Gives [] h = (1, drain_ends)
  start-Gives ([] ∷ gs) h = absurd (h.0 refl)
  start-Gives ((c ∷ cs) ∷ gs) h = scan-Gives gs (c ∷ cs) h.1

  is_value-scan : (cs : List ℕ) → is_value types (scan types t cs []) ≡ has_match cs
  unfolding scan
  is_value-scan [] = refl
  is_value-scan (c ∷ cs) = ground (arith, is_value-scan cs)

  pub is_value-start : (cs : List ℕ) → is_value types (start types t (cs ∷ [])) ≡ has_match cs
  unfolding start scan
  is_value-start [] = refl
  is_value-start (c ∷ cs) = is_value-scan (c ∷ cs)

pub has_component-match :
    (types : Types) (s : Store) (o t : ℕ)
    → has_component types s o t ≡ has_match types (some t) (s o).components
unfolding has_component get_components
has_component-match types s o t = is_value-start types (some t) (s o).components
