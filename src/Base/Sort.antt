-- ===== src/Base/Sort.antt =====
-- Go's package sort, as far as the source uses it: `sort.Search`, and `sort.Sort` on numbers.
use Prim.Native.Nat.{ℕ, zero, suc, ◌+◌, ◌-◌, ◌/◌, ◌≤◌, ◌<◌}
use mathlib.Core.Path.{◌≡◌, refl}
use mathlib.Core.Logic.{inl, inr}
use mathlib.Core.Bool.{Bool, true, false, ◌||◌}
use mathlib.Core.List.{List, [], ◌∷◌}
use mathlib.Core.Option.{some}
use native.Mathlib.Omega.{arith}
use happy.Base.Tests.{nat_eq, ◌==◌, ltb, leb, if◌then◌else◌, Bool-cases, leb→le, leb→lt}
use happy.Base.Lists.{length, get_elem?, All, All-get, contains}

-- `for i < j { h := (i + j) / 2; if !f(h) { i = h + 1 } else { j = h } }`. Each round shrinks
-- `j - i`, so fuel `j - i` ends the loop by its test.
unfoldable pub search_loop : ℕ → (ℕ → Bool) → ℕ → ℕ → ℕ
search_loop zero f i j = i
search_loop (suc fuel) f i j =
    let h = (i + j) / 2 in
    let right = search_loop fuel f (h + 1) j in
    let left = search_loop fuel f i h in if ltb i j then (if f h then left else right) else i

unfoldable pub search : ℕ → (ℕ → Bool) → ℕ
unfolding search_loop
search n f = search_loop n f 0 n

-- `r` splits [0, n) into indices where `f` fails and indices where it holds.
abbrev pub Splits : (ℕ → Bool) → ℕ → ℕ → Type 0
Splits f n r = (r ≤ n) × ((k : ℕ) → k < r → f k ≡ false) × ((k : ℕ) → r ≤ k → k < n → f k ≡ true)

abbrev pub IsMonotone : (ℕ → Bool) → ℕ → Type 0
IsMonotone f n = (a b : ℕ) → a ≤ b → b < n → f a ≡ true → f b ≡ true

module _ (f : ℕ → Bool) (n : ℕ) (mono : IsMonotone f n) where
  search_loop-Splits :
      (fuel i j : ℕ)
      → i ≤ j
      → j ≤ n
      → j - i ≤ fuel
      → ((k : ℕ) → k < i → f k ≡ false)
      → ((k : ℕ) → j ≤ k → k < n → f k ≡ true)
      → Splits f n (search_loop fuel f i j)
  unfolding search_loop
  search_loop-Splits zero i j le jn enough below above =
      (omega arith, below, λ k a b. above k (omega arith) b)
  search_loop-Splits (suc fuel) i j le jn enough below above = elim (Bool-cases (ltb i j)) [
    | inr stop ↦ rw stop (ground arith, below, λ k a b. above k (ground arith) b)
    | inl go ↦ rw go (elim (Bool-cases (f ((i + j) / 2))) [
      | inl hit ↦ rw hit (
          search_loop-Splits fuel i ((i + j) / 2) (ground arith) (ground arith) (ground arith) below
            (λ k a b. mono ((i + j) / 2) k a b hit))
      | inr miss ↦ rw miss (
          search_loop-Splits fuel ((i + j) / 2 + 1) j (ground arith) jn (ground arith)
            (λ k a. elim (Bool-cases (f k)) [
              | inl yes' ↦ cc (miss, mono k ((i + j) / 2) (omega arith) (ground arith) yes')
              | inr no' ↦ no'
            ])
            above)
    ])
  ]

  -- `sort.Search` on a monotone test returns the first index at which it holds, or `n`.
  pub search-Splits : Splits f n (search n f)
  unfolding search
  search-Splits =
      search_loop-Splits n 0 n (omega arith) (omega arith) (omega arith) (λ k a. elim a [ ])
        (λ k a b. absurd (omega arith))

unfoldable pub insert_sorted : ℕ → List ℕ → List ℕ
insert_sorted x [] = x ∷ []
insert_sorted x (y ∷ ys) = if leb x y then x ∷ y ∷ ys else y ∷ insert_sorted x ys

-- `sort.Sort` of numbers by `<`. Equal numbers are one value, so any correct sort is this function.
unfoldable pub sort : List ℕ → List ℕ
unfolding insert_sorted
sort [] = []
sort (x ∷ xs) = insert_sorted x (sort xs)

abbrev pub IsSorted : List ℕ → Type 0
IsSorted [] = Unit {0}
IsSorted (x ∷ xs) = All (λ y. x ≤ y) xs × IsSorted xs

All-le : {x y : ℕ} (xs : List ℕ) → x ≤ y → All (λ z. y ≤ z) xs → All (λ z. x ≤ z) xs
All-le [] h a = tt
All-le (z ∷ xs) h a = (omega arith, All-le xs h a.1)

All-insert_sorted :
    (z x : ℕ) (xs : List ℕ) → z ≤ x → All (λ y. z ≤ y) xs → All (λ y. z ≤ y) (insert_sorted x xs)
unfolding insert_sorted
All-insert_sorted z x [] h a = (h, tt)
All-insert_sorted z x (y ∷ ys) h a = ground (arith, All-insert_sorted z x ys h a.1)

insert_sorted-IsSorted : (x : ℕ) (xs : List ℕ) → IsSorted xs → IsSorted (insert_sorted x xs)
unfolding insert_sorted
insert_sorted-IsSorted x [] s = (tt, tt)
insert_sorted-IsSorted x (y ∷ ys) s = elim (Bool-cases (leb x y)) [
  | inl le ↦ rw le ((leb→le x y le, All-le ys (leb→le x y le) s.0), s)
  | inr gt ↦
      rw gt (
        All-insert_sorted y x ys (omega (arith, leb→lt x y gt)) s.0,
        insert_sorted-IsSorted x ys s.1,
      )
]

pub sort-IsSorted : (xs : List ℕ) → IsSorted (sort xs)
unfolding sort
sort-IsSorted [] = tt
sort-IsSorted (x ∷ xs) = insert_sorted-IsSorted x (sort xs) (sort-IsSorted xs)

contains-insert_sorted :
    (x a : ℕ) (xs : List ℕ) → contains (insert_sorted x xs) a ≡ (x == a || contains xs a)
unfolding insert_sorted
contains-insert_sorted x a [] = refl
contains-insert_sorted x a (y ∷ ys) = ground (arith, contains-insert_sorted x a ys)

pub contains-sort : (a : ℕ) (xs : List ℕ) → contains (sort xs) a ≡ contains xs a
unfolding sort
contains-sort a [] = refl
contains-sort a (x ∷ xs) = ground (arith, contains-insert_sorted x a (sort xs), contains-sort a xs)

length-insert_sorted : (x : ℕ) (xs : List ℕ) → length (insert_sorted x xs) ≡ suc (length xs)
unfolding insert_sorted
length-insert_sorted x [] = refl
length-insert_sorted x (y ∷ ys) = ground (arith, length-insert_sorted x ys)

pub length-sort : (xs : List ℕ) → length (sort xs) ≡ length xs
unfolding sort
length-sort [] = refl
length-sort (x ∷ xs) = omega (arith, length-insert_sorted x (sort xs), length-sort xs)

IsSorted-get_le :
    (xs : List ℕ) (x j : ℕ) {b : ℕ} → All (λ y. x ≤ y) xs → get_elem? xs j ≡ some b → x ≤ b
IsSorted-get_le xs x j a e = All-get (λ y. x ≤ y) xs j a e

-- A sorted list ascends along its indices.
pub IsSorted-get :
    (xs : List ℕ) (i j : ℕ) {a b : ℕ}
    → IsSorted xs
    → i ≤ j
    → get_elem? xs i ≡ some a
    → get_elem? xs j ≡ some b
    → a ≤ b
IsSorted-get [] i j s h p q = cc
IsSorted-get (x ∷ xs) zero zero s h p q = ground arith
IsSorted-get (x ∷ xs) zero (suc j) s h p q = ground (arith, IsSorted-get_le xs x j s.0 q)
IsSorted-get (x ∷ xs) (suc i) zero s h p q = absurd (omega arith)
IsSorted-get (x ∷ xs) (suc i) (suc j) s h p q = IsSorted-get xs i j s.1 (omega arith) p q
