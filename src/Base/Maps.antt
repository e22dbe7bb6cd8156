-- ===== src/Base/Maps.antt =====
-- Go's `map[K]V`: an association list with one entry to a key, in an order that nothing fixes.
use Prim.Native.Nat.{suc}
use mathlib.Core.Path.{◌≡◌, refl, ap, subst}
use mathlib.Core.Logic.{inl, inr}
use mathlib.Core.Bool.{Bool, true, false}
use mathlib.Core.Option.{Option, none, some}
use mathlib.Core.List.{List, [], ◌∷◌}
use native.Mathlib.Omega.{arith}
use happy.Base.Tests.{Eq, ◌==◌, if◌then◌else◌, Bool-cases, ==→≡, ==_self}
use happy.Base.Lists.{length, contains, IsDistinct}

abbrev pub Map {ℓ κ} : Type ℓ → Type κ → Type (ℓ ⊔ κ)
Map K V = List (K × V)

abbrev pub is_some {κ} : {V : Type κ} → Option V → Bool
is_some none = false
is_some (some v) = true

module _ {ℓ κ} {K : Type ℓ} {V : Type κ} where
  abbrev pub keys : Map K V → List K
  keys [] = []
  keys ((k, v) ∷ m) = k ∷ keys m

module _ {ℓ κ} {K : Type ℓ} {V : Type κ} ⦃e : Eq K⦄ where
  -- v, ok := m[k]
  unfoldable pub lookup : Map K V → K → Option V
  lookup [] k = none
  lookup ((j, v) ∷ m) k = if j == k then some v else lookup m k

  -- m[k] = v
  unfoldable pub insert : Map K V → K → V → Map K V
  insert [] k v = (k, v) ∷ []
  insert ((j, w) ∷ m) k v = if j == k then (k, v) ∷ m else (j, w) ∷ insert m k v

  -- delete(m, k)
  unfoldable pub delete : Map K V → K → Map K V
  delete [] k = []
  delete ((j, w) ∷ m) k = let rest = delete m k in if j == k then rest else (j, w) ∷ rest

  pub lookup-insert :
      (m : Map K V) (k j : K) (v : V)
      → lookup (insert m k v) j ≡ (if k == j then some v else lookup m j)
  unfolding lookup insert
  lookup-insert [] k j v = refl
  lookup-insert ((i, w) ∷ m) k j v =
      ground (arith, e.beq_iff k j, e.beq_iff i k, e.beq_iff i j, lookup-insert m k j v)

  pub lookup-delete :
      (m : Map K V) (k j : K) → lookup (delete m k) j ≡ (if k == j then none else lookup m j)
  unfolding lookup delete
  lookup-delete [] k j = ground arith
  lookup-delete ((i, w) ∷ m) k j =
      ground (arith, e.beq_iff k j, e.beq_iff i k, e.beq_iff i j, lookup-delete m k j)

  pub contains-keys : (m : Map K V) (k : K) → contains (keys m) k ≡ is_some (lookup m k)
  unfolding lookup
  contains-keys [] k = refl
  contains-keys ((j, v) ∷ m) k = ground (arith, contains-keys m k)

  -- One entry to a key, as Go keeps it.
  abbrev pub IsMap : Map K V → Type 0
  IsMap m = IsDistinct (keys m)

  delete_absent : (m : Map K V) (k : K) → contains (keys m) k ≡ false → delete m k ≡ m
  unfolding delete
  delete_absent [] k h = refl
  delete_absent ((j, w) ∷ m) k h = ground (arith, delete_absent m k)

  pub length-delete :
      (m : Map K V) (k : K)
      → IsMap m
      → contains (keys m) k ≡ true
      → suc (length (delete m k)) ≡ length m
  unfolding delete
  length-delete [] k d h = cc
  length-delete ((j, w) ∷ m) k d h = elim (Bool-cases (j == k)) [
    | inl same ↦ rw same (
        ap (λ (l : Map K V). suc (length l))
          (delete_absent m k (subst (λ i. contains (keys m) i ≡ false) (==→≡ j k same) d.0)))
    | inr other ↦ rw other (ap suc (length-delete m k d.1 (ground arith)))
  ]

  pub IsMap-delete : (m : Map K V) (k : K) → IsMap m → IsMap (delete m k)
  unfolding delete
  IsMap-delete [] k d = tt
  IsMap-delete ((j, w) ∷ m) k d = ground (
    arith,
    IsMap-delete m k d.1,
    contains-keys m j,
    contains-keys (delete m k) j,
    lookup-delete m k j,
  )

  pub IsMap-insert : (m : Map K V) (k : K) (v : V) → IsMap m → IsMap (insert m k v)
  unfolding insert
  IsMap-insert [] k v d = (refl, tt)
  IsMap-insert ((j, w) ∷ m) k v d = ground (
    arith,
    e.beq_iff j k,
    e.beq_iff k j,
    IsMap-insert m k v d.1,
    contains-keys m j,
    contains-keys m k,
    contains-keys (insert m k v) j,
    lookup-insert m k j v,
  )

  -- Of two maps of one size, one that agrees wherever the other has a key agrees everywhere.
  pub lookup_of_size :
      (m n : Map K V) (k : K)
      → IsMap m
      → IsMap n
      → length m ≡ length n
      → ((j : K) (v : V) → lookup m j ≡ some v → lookup n j ≡ some v)
      → lookup m k ≡ lookup n k
  unfolding lookup
  lookup_of_size [] [] k dm dn size sub = refl
  lookup_of_size [] (b ∷ n) k dm dn size sub = absurd (omega arith)
  lookup_of_size ((a, w) ∷ m) n k dm dn size sub =
      let here : lookup n a ≡ some w = sub a w (ground (arith, ==_self a)) in
      let there : contains (keys n) a ≡ true = ground (arith, contains-keys n a) in
      let rest : lookup m k ≡ lookup (delete n a) k =
        lookup_of_size m (delete n a) k dm.1 (IsMap-delete n a dn)
          (omega (arith, length-delete n a dn there))
          (λ j v p.
            ground (arith, lookup-delete n a j, contains-keys m j, dm.0, e.beq_iff a j, sub j v)) in
      ground (arith, rest, lookup-delete n a k, e.beq_iff a k)
