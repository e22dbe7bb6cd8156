-- ===== src/Ecs/Examples.antt =====
-- Tests of package hECS, and the theorems on a few objects and components.
use happy.Base.{
  ℕ, zero, suc, ◌≡◌, ◌↔◌, ◌⊎◌, refl, true, false, Option, none, some, List, [], ◌∷◌, contains,
  nat_eq, arith,
}
use happy.Ecs.Systems.{
  Kinds, System, Call, Event, awoken, started, updated, destroyed, filters, retires, frame,
  new_systems, remove_first, remove_each, refresh, update_filter, step, run,
}
use happy.Ecs.Systems.Counting.{unknown, observe, tally, expect_all}
use happy.Ecs.Systems.Refinement.{run-observe}
use happy.Ecs.Systems.Order.{filters-early}
use happy.Ecs.Objects.{
  Store, Error, bad_object, disposed, destroy_object, remove_object, add_object, find_object,
  get_object, found,
}
use happy.Ecs.Objects.Ancestry.{top, under, IsForest, Ends}
use happy.Ecs.Objects.Attaching.{IsAttached, add_object-IsForest}
use happy.Ecs.Objects.Removal.{Finite, node, nil, cons, Below, destroy_object-Empties}
use happy.Ecs.Objects.Orphans.{remove_object-add_object}
use happy.Ecs.Components.{Types, Added, local, drain, start, objects_in_children, add_component}
use happy.Ecs.Components.Iterating.{matching, flatten, start-Gives}
use happy.Ecs.Components.Descending.{Under, objects_in_children-Under}
use happy.Ecs.Components.Single.{IsSingle, add_component-IsSingle}

abbrev plain : System ℕ
plain = record {
  name = λ s. "plain";
  filter = λ c s. s;
  independent_filter = λ o c s. s;
  update_frame = λ s. s;
}

-- Every component implements every interface.
abbrev every : Kinds
every = record { awakes = λ c. true; starts = λ c. true; updates = λ c. true; destroys = λ c. true }

-- A component is added twice and removed once: it is updated in both frames.
abbrev twice : List Call
twice = (run plain every (filters 7 ∷ filters 7 ∷ retires 7 ∷ frame [] [] []) new_systems).1

twice_calls : twice ≡ awoken 7 ∷ awoken 7 ∷ started 7 ∷ started 7 ∷ updated 7 ∷ destroyed 7 ∷ []
unfolding run step new_systems refresh remove_each remove_first update_filter
twice_calls = refl

run-observe_example :
    tally 7 (run plain every (filters 7 ∷ frame (retires 7 ∷ []) [] []) new_systems).1
    ≡ (expect_all every 7 (filters 7 ∷ frame (retires 7 ∷ []) [] []) unknown).1
run-observe_example = run-observe plain every 7 (filters 7 ∷ frame (retires 7 ∷ []) [] [])

fresh-unknown : observe 5 (new_systems {S = ℕ}) ≡ unknown
unfolding new_systems
fresh-unknown = refl

filters-early_example :
    tally 5 (run plain every (frame (filters 5 ∷ filters 6 ∷ []) [] []) new_systems).1
    ≡ record { awoken = 0; started = 1; updated = 1; destroyed = 0 }
filters-early_example =
    filters-early plain every 5 (filters 6 ∷ []) [] [] new_systems
      (unfold new_systems in (refl, refl, refl)) fresh-unknown (refl, tt) tt tt

-- An object 0 with the child 1, and others that stand alone.
abbrev family : Store
family zero = record {
  id = "r";
  name = "root";
  runtime = true;
  components = 3 ∷ [];
  children = 1 ∷ [];
  parent = none;
}
family (suc zero) = record {
  id = "c";
  name = "child";
  runtime = true;
  components = 4 ∷ [];
  children = [];
  parent = some 0;
}
family (suc (suc i)) = record {
  id = "o";
  name = "other";
  runtime = false;
  components = [];
  children = [];
  parent = none;
}

family-IsForest : IsForest family
family-IsForest zero = top refl
family-IsForest (suc zero) = under {j = 0} refl (top refl)
family-IsForest (suc (suc i)) = top refl

family-Finite : (i : ℕ) → Finite family i
family-Finite zero = node (cons (node nil) nil)
family-Finite (suc zero) = node nil
family-Finite (suc (suc i)) = node nil

find_child : find_object family 0 ("child" ∷ []) ≡ found 1
unfolding find_object get_object
find_child = refl

-- The child as a new parent of the root.
add_object-IsForest_example : (r : Store × Option Error) × IsAttached family 1 0 r
add_object-IsForest_example = add_object-IsForest family 1 0 family-IsForest

destroy_object-Empties_example :
    (r : Store × List Event) × Ends (λ m. destroy_object m family 0) r
    × ((i : ℕ) → Below family 0 i → r.0 i ≡ disposed (family i))
    × ((i : ℕ) → (r.0 i ≡ family i) ⊎ Below family 0 i)
destroy_object-Empties_example = destroy_object-Empties family 0 (family-Finite 0)

remove_object-add_object_example :
    (r : Store × List Event × Option Error) × Ends (λ m. remove_object m family 0 1) r
    × (r.2 ≡ none)
    × ((q m : ℕ) → add_object m r.0 q 1 ≡ some (r.0, some bad_object))
remove_object-add_object_example =
    remove_object-add_object family 0 1 0 (λ e. absurd (omega (arith, e))) refl refl
      (family-Finite 1)

-- Every component is of the type 1, of which an object may have one.
abbrev types : Types
types = record {
  type_of = λ c. 1;
  is_interface = λ t. false;
  implements = λ t u. false;
  unique = λ c. local;
  requires = λ c. [];
}

start-Gives_example :
    Ends
      (λ m. drain types m (some 1) (start types (some 1) ((3 ∷ []) ∷ (4 ∷ 5 ∷ []) ∷ [])))
      (some (matching types (some 1) (flatten types (some 1) ((3 ∷ []) ∷ (4 ∷ 5 ∷ []) ∷ []))))
start-Gives_example =
    start-Gives types (some 1) ((3 ∷ []) ∷ (4 ∷ 5 ∷ []) ∷ [])
      ((λ e. absurd (cc)), ((λ e. absurd (cc)), tt))

objects_in_children-Under_example :
    (r : List ℕ) × Ends (λ m. objects_in_children m family 0) r
    × ((i : ℕ) → (contains r i ≡ true) ↔ Under family 0 i)
objects_in_children-Under_example = objects_in_children-Under family 0 (family-Finite 0)

family-IsSingle : IsSingle types 1 family
family-IsSingle zero = omega arith
family-IsSingle (suc zero) = omega arith
family-IsSingle (suc (suc i)) = omega arith

add_component-IsSingle_example :
    (a : Added) × Ends (λ m. add_component types m family 1 9) a × IsSingle types 1 a.store
add_component-IsSingle_example =
    add_component-IsSingle types 1 family 1 9 (λ d e. refl) family-IsForest family-Finite
      family-IsSingle
