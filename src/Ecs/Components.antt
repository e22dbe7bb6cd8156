-- ===== src/Ecs/Components.antt =====
-- The components of an object of hECS/object.go, with the iterators of hECS/iter_filtered_component_array.go and
-- hECS/iter_object_array.go. A type is a number; what reflection says of the types and what the interfaces of a
-- component answer are parameters.
pub mod Iterating
pub mod Descending
pub mod Adding
pub mod Single
use happy.Base.{
  ℕ, zero, suc, ◌+◌, Bool, true, false, not, ◌||◌, ◌&&◌, String, Option, none, some, List, [], ◌∷◌,
  ◌++◌, ◌==◌, nat_eq, string_eq, if◌then◌else◌,
}
use happy.Ecs.Systems.{Event, filters, retires}
use happy.Ecs.Objects.{
  Object, Store, write, Error, end_iteration, unique_component, missing_component, root,
  get_runtime, find_object, Found, found, fails, take_out,
}

-- What `Next` of an iterator over components gives: a component and the iterator's next state, the end, or a panic.
-- The state is what is left of the current group, if there is one, and the groups left.
pub data Next : Type 0 where
  value : ℕ → List ℕ → List (List ℕ) → Next
  ends : Next
  panics : Next

-- UNIQUE_TYPE_NONE, UNIQUE_TYPE_LOCAL and UNIQUE_TYPE_GLOBAL; a component that is no IUnique is of the first kind.
pub data Unique : Type 0 where
  nowhere : Unique
  local : Unique
  global : Unique

-- `type_of` is the type of a component; `requires` what its `GetRequire` asks of which objects.
pub record Types : Type 0 where
  pub type_of : ℕ → ℕ
  pub is_interface : ℕ → Bool
  pub implements : ℕ → ℕ → Bool
  pub unique : ℕ → Unique
  pub requires : ℕ → List (ℕ × List ℕ)

-- What `AddComponent` leaves: the store, what it asks of the systems, and the error that it logs. `Initialize` of the
-- component is called after it in any case.
pub record Added : Type 0 where
  pub store : Store
  pub events : List Event
  pub error : Option Error

-- `ObjectIter`: the queue of objects; an object that is taken from the front puts its children at the end. The list
-- holds what `Next` gives up to the end.
unfoldable pub walk : ℕ → Store → List ℕ → Option (List ℕ)
walk zero s values = none
walk (suc fuel) s [] = some []
walk (suc fuel) s (o ∷ values) = elim (walk fuel s (values ++ (s o).children)) [
  | none ↦ none
  | some os ↦ some (o ∷ os)
]

-- `Objects` and `ObjectsInChildren`.
unfoldable pub objects : Store → ℕ → List ℕ
objects s o = (s o).children

unfoldable pub objects_in_children : ℕ → Store → ℕ → Option (List ℕ)
unfolding walk
objects_in_children fuel s o = walk fuel s (s o).children

-- The groups that `GetComponentsInChildren` adds: those that are not empty.
unfoldable pub groups_of : Store → List ℕ → List (List ℕ)
groups_of s [] = []
groups_of s (o ∷ os) =
    let rest = groups_of s os in elim ((s o).components) [ [] ↦ rest | c ∷ cs ↦ (c ∷ cs) ∷ rest ]

module _ (types : Types) where
  open types use {type_of, is_interface, implements, unique, requires}

  -- The test of `Next` on a value; `none` is the nil type, which everything fits.
  unfoldable pub fits : Option ℕ → ℕ → Bool
  fits none c = true
  fits (some t) c = type_of c == t || is_interface (type_of c) && implements (type_of c) t

  -- The loop of `Next` inside a group. A group that is taken after another is read at 0 without a test.
  unfoldable pub scan : Option ℕ → List ℕ → List (List ℕ) → Next
  unfolding fits
  scan t (c ∷ cs) groups =
      let later = scan t cs groups in if fits t c then value c cs groups else later
  scan t [] [] = ends
  scan t [] ([] ∷ groups) = panics
  scan t [] ((c ∷ cs) ∷ groups) =
      let later = scan t cs groups in if fits t c then value c cs groups else later

  -- The first `Next`: an empty group that comes first is passed over.
  unfoldable pub start : Option ℕ → List (List ℕ) → Next
  unfolding scan
  start t [] = ends
  start t ([] ∷ groups) = scan t [] groups
  start t ((c ∷ cs) ∷ groups) = scan t (c ∷ cs) groups

  -- What the iterator gives from a state on, up to the end; the first `none` is a panic, the fuel is the second.
  unfoldable pub drain : ℕ → Option ℕ → Next → Option (Option (List ℕ))
  unfolding scan
  drain zero t n = none
  drain (suc fuel) t ends = some (some [])
  drain (suc fuel) t panics = some none
  drain (suc fuel) t (value c cs groups) = elim (drain fuel t (scan t cs groups)) [
    | none ↦ none
    | some none ↦ some none
    | some (some ds) ↦ some (some (c ∷ ds))
  ]

  -- `GetComponents` and `AllComponents`: one group.
  unfoldable pub get_components : Option ℕ → Store → ℕ → Next
  unfolding start
  get_components t s o = start t ((s o).components ∷ [])

  unfoldable pub get_components_in_children : ℕ → Option ℕ → Store → ℕ → Option Next
  unfolding objects_in_children groups_of start
  get_components_in_children fuel t s o = elim (objects_in_children fuel s o) [
    | none ↦ none
    | some os ↦ some (start t (groups_of s os))
  ]

  -- `_, err := it.Next(); err == nil`.
  abbrev pub is_value : Next → Bool
  is_value (value c cs groups) = true
  is_value ends = false
  is_value panics = false

  unfoldable pub has_component : Store → ℕ → ℕ → Bool
  unfolding get_components
  has_component s o t = is_value (get_components (some t) s o)

  -- `Find`: the first component of the type, at the object that the names lead to. One group gives no panic.
  abbrev pub first_value : Next → Found
  first_value (value c cs groups) = found c
  first_value ends = fails end_iteration
  first_value panics = fails end_iteration

  unfoldable pub find : Store → ℕ → ℕ → List String → Found
  unfolding get_components find_object
  find s o t [] = first_value (get_components (some t) s o)
  find s o t (n ∷ ns) = elim (find_object s o (n ∷ ns)) [
    | fails e ↦ fails e
    | found c ↦ first_value (get_components (some t) s c)
  ]

  -- The checks of `AddComponent`.
  abbrev pub is_taken : ℕ → Store → ℕ → ℕ → Unique → Option Bool
  is_taken fuel s o c nowhere = some false
  is_taken fuel s o c local = some (has_component s o (type_of c))
  is_taken fuel s o c global = elim (root fuel s o) [
    | none ↦ none
    | some r ↦ elim (get_components_in_children fuel (some (type_of c)) s r) [
      | none ↦ none
      | some n ↦ some (is_value n)
    ]
  ]

  unfoldable pub has_all : Store → ℕ → List ℕ → Bool
  unfolding has_component
  has_all s o [] = true
  has_all s o (t ∷ ts) = has_component s o t && has_all s o ts

  unfoldable pub is_provided : Store → List (ℕ × List ℕ) → Bool
  unfolding has_all
  is_provided s [] = true
  is_provided s ((o, ts) ∷ more) = has_all s o ts && is_provided s more

  -- The action of `AddComponent` under the lock, after the test for uniqueness, with what `_runtime` finds.
  unfoldable pub append_component : Store → ℕ → ℕ → Bool → Added
  unfolding is_provided
  append_component s o c has_runtime =
      if is_provided s (requires c)
      then record {
        store = write s o (record (s o) { components = (s o).components ++ c ∷ [] });
        events = if has_runtime then filters c ∷ [] else [];
        error = none;
      }
      else record { store = s; events = []; error = some missing_component }

  unfoldable pub add_component : ℕ → Store → ℕ → ℕ → Option Added
  unfolding get_runtime root get_components_in_children has_component append_component
  add_component fuel s o c = elim (get_runtime fuel s o) [
    | none ↦ none
    | some (s', has_runtime) ↦ elim (is_taken fuel s' o c (unique c)) [
      | none ↦ none
      | some taken ↦
          if taken
          then some (record { store = s'; events = []; error = some unique_component })
          else some (append_component s' o c has_runtime)
    ]
  ]
