-- ===== src/Iter/Examples.antt =====
-- Tests of hCommon/iter and the theorems on short lists.
use happy.Base.{ℕ, List, [], ◌∷◌}
use happy.Iter.{Iterator, ListIter, from_list, list_iterator, join, join_iterator}
use happy.Iter.Drain.{Gives, GivesEach, from_list-Gives, join-Gives}

abbrev lists : Iterator ℕ ℕ
lists = list_iterator

abbrev parts : List (ListIter ℕ)
parts = from_list (1 ∷ 2 ∷ []) ∷ from_list [] ∷ from_list (3 ∷ []) ∷ []

parts-GivesEach : GivesEach lists parts ((1 ∷ 2 ∷ []) ∷ [] ∷ (3 ∷ []) ∷ [])
parts-GivesEach =
    (from_list-Gives ℕ (1 ∷ 2 ∷ []), (from_list-Gives ℕ [], (from_list-Gives ℕ (3 ∷ []), tt)))

join-Gives_example : Gives (join_iterator lists 0) (join parts) (1 ∷ 2 ∷ 3 ∷ [])
join-Gives_example = join-Gives lists 0 parts ((1 ∷ 2 ∷ []) ∷ [] ∷ (3 ∷ []) ∷ []) parts-GivesEach
