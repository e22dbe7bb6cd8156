-- ===== src/Cluster/Logs/Bounds.antt =====
-- What `NodeLogs` of hCluster/MasterService.go keeps.
use mathlib.Core.List.{append_assoc, append-nil}
use happy.Base.{
  ℕ, zero, suc, ◌-◌, ◌≤◌, ◌<◌, ◌≡◌, refl, ap, ◌∙◌, false, Option, none, some, List, [], ◌∷◌, ◌++◌,
  length, length-append, drop, ltb, ltb→lt, ltb→le, arith, inl, inr, Bool-cases,
}
use happy.Cluster.Logs.{NodeLog, NodeLogs, add, slide}

-- Entries added one after the other.
pub add_all : NodeLogs → List NodeLog → Option NodeLogs
add_all n [] = some n
add_all n (l ∷ ls) = elim (add n l) [ none ↦ none | some m ↦ add_all m ls ]

-- The newest `k` of the entries.
abbrev pub last : ℕ → List NodeLog → List NodeLog
last k xs = drop (length xs - k) xs

drop_snoc :
    (m : ℕ) (xs : List NodeLog) (l : NodeLog)
    → m ≤ length xs
    → drop m (xs ++ l ∷ []) ≡ drop m xs ++ l ∷ []
drop_snoc zero xs l h = refl
drop_snoc (suc m) [] l h = elim h [ ]
drop_snoc (suc m) (x ∷ xs) l h = drop_snoc m xs l (omega arith)

slide-drop :
    (m : ℕ) (xs : List NodeLog) (l : NodeLog)
    → m < length xs
    → slide (drop m xs) l ≡ some (drop (suc m) xs ++ l ∷ [])
unfolding slide
slide-drop m [] l h = elim h [ ]
slide-drop zero (x ∷ xs) l h = refl
slide-drop (suc m) (x ∷ xs) l h = slide-drop m xs l (omega arith)

length-drop : (m : ℕ) (xs : List NodeLog) → length (drop m xs) ≡ length xs - m
length-drop zero xs = omega arith
length-drop (suc m) [] = omega arith
length-drop (suc m) (x ∷ xs) = omega (arith, length-drop m xs)

add-last :
    (k : ℕ) (xs : List NodeLog) (l : NodeLog)
    → add (record { buffer_size = suc k; logs = last (suc k) xs }) l
      ≡ some (record { buffer_size = suc k; logs = last (suc k) (xs ++ l ∷ []) })
unfolding add
add-last k xs l = elim (Bool-cases (ltb (length xs) (suc k))) [
  | inl few ↦
      let start : length xs - suc k ≡ 0 = ground arith in
      let next : length (xs ++ l ∷ []) - suc k ≡ 0 =
        omega (arith, length-append {0} xs (l ∷ []), ltb→lt _ _ few) in
      rw (start, next) (rw few refl)
  | inr many ↦
      let le = ltb→le _ _ many in
      let m = length xs - suc k in
      let next : length (xs ++ l ∷ []) - suc k ≡ suc m =
        omega (arith, length-append {0} xs (l ∷ []), le) in
      let full : ltb (length (last (suc k) xs)) (suc k) ≡ false =
        ground (arith, length-drop m xs) in
      rw full (
        rw (slide-drop m xs l (omega (arith, le)), next, drop_snoc (suc m) xs l (omega (arith, le)))
          refl)
]

add_all-last_from :
    (k : ℕ) (xs ls : List NodeLog)
    → add_all (record { buffer_size = suc k; logs = last (suc k) xs }) ls
      ≡ some (record { buffer_size = suc k; logs = last (suc k) (xs ++ ls) })
unfolding add_all
add_all-last_from k xs [] = rw append-nil refl
add_all-last_from k xs (l ∷ ls) =
    rw (add-last k xs l, add_all)
      (add_all-last_from k (xs ++ l ∷ []) ls
        ∙ ap (λ ys. some (record { buffer_size = suc k; logs = last (suc k) ys }))
            (append_assoc xs (l ∷ []) ls))

-- A log of positive size never panics, and after any entries it holds exactly the newest of them, as
-- many as its size says, oldest first.
pub add_all-last :
    (k : ℕ) (ls : List NodeLog)
    → add_all (record { buffer_size = suc k; logs = [] }) ls
      ≡ some (record { buffer_size = suc k; logs = last (suc k) ls })
add_all-last k ls = let e : 0 - suc k ≡ 0 = omega arith in rw e at (add_all-last_from k [] ls)
