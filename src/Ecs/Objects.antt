-- ===== src/Ecs/Objects.antt =====
-- The objects of hECS/object.go, a store in which a reference to an object is a number. A component is a number too; what
-- an operation asks of the systems is the list of events that it returns. There is one runtime, and `runtime` says
-- whether the field is set. An operation under the object's lock is one step. The loops along parents and children take
-- fuel, and `none` is a loop that has not ended.
pub mod Ancestry
pub mod Removal
pub mod Orphans
pub mod Attaching
use happy.Base.{
  ℕ, zero, suc, ◌+◌, Bool, true, false, ◌||◌, ◌&&◌, String, Option, none, some, List, [], ◌∷◌, ◌++◌,
  ◌==◌, nat_eq, string_eq, if◌then◌else◌,
}
use happy.Ecs.Systems.{Event, filters, retires}

pub record Object : Type 0 where
  pub id : String
  pub name : String
  pub runtime : Bool
  pub components : List ℕ
  pub children : List ℕ
  pub parent : Option ℕ

abbrev pub Store : Type 0
Store = ℕ → Object

abbrev pub write : Store → ℕ → Object → Store
write s o x i = if o == i then x else s i

-- The errors of hECS/errors.go that the operations give, `ErrEndIteration`, and that of an object without a runtime.
pub data Error : Type 0 where
  bad_object : Error
  no_match : Error
  bad_value : Error
  unique_component : Error
  missing_component : Error
  no_runtime : Error
  end_iteration : Error

-- `NewObject`; the identifier is what `GetUUID` gives.
unfoldable pub new_object : String → String → Object
new_object id name = record {
  id = id;
  name = name;
  runtime = false;
  components = [];
  children = [];
  parent = none;
}

-- `Root`.
unfoldable pub root : ℕ → Store → ℕ → Option ℕ
root zero s i = none
root (suc fuel) s i = elim ((s i).parent) [ none ↦ some i | some j ↦ root fuel s j ]

-- `HasParent` for an object that is not nil.
unfoldable pub has_parent : ℕ → Store → ℕ → ℕ → Option Bool
has_parent zero s i object = none
has_parent (suc fuel) s i object = elim ((s i).parent) [
  | none ↦ some false
  | some j ↦ elim (j == object) [ true ↦ some true | false ↦ has_parent fuel s j object ]
]

-- The loop of `_runtime` along the parents.
unfoldable pub find_runtime : ℕ → Store → Option ℕ → Option Bool
find_runtime zero s marker = none
find_runtime (suc fuel) s none = some false
find_runtime (suc fuel) s (some i) = elim ((s i).runtime) [
  | true ↦ some true
  | false ↦ find_runtime fuel s (s i).parent
]

-- `_runtime`, which keeps in the object what it finds.
unfoldable pub set_runtime : Store → ℕ → Bool → Store
set_runtime s o found = if found then write s o (record (s o) { runtime = true }) else s

unfoldable pub get_runtime : ℕ → Store → ℕ → Option (Store × Bool)
unfolding find_runtime set_runtime
get_runtime fuel s o =
    if (s o).runtime then some (s, true) else (elim (find_runtime fuel s (s o).parent) [
      | none ↦ none
      | some found ↦ some (set_runtime s o found, found)
    ])

-- The end of `AddObject`.
unfoldable pub attach : Store → ℕ → ℕ → Store
attach s o x =
    let s' : Store = write s x (record (s x) { parent = some o; runtime = (s o).runtime }) in
    write s' o (record (s' o) { children = (s' o).children ++ x ∷ [] })

-- `AddObject`: the store, and the error if there is one.
unfoldable pub add_object : ℕ → Store → ℕ → ℕ → Option (Store × Option Error)
unfolding has_parent attach
add_object fuel s o x = elim ((s x).parent) [
  | some p ↦ some (s, some bad_object)
  | none ↦ if o == x then some (s, some bad_object) else (elim (has_parent fuel s o x) [
    | none ↦ none
    | some cyclic ↦ if cyclic then some (s, some bad_object) else some (attach s o x, none)
  ])
]

-- `_dispose`.
abbrev pub disposed : Object → Object
disposed x = record x { name = ""; runtime = false; components = []; children = [] }

unfoldable pub retire_all : List ℕ → List Event
retire_all [] = []
retire_all (c ∷ cs) = retires c ∷ retire_all cs

-- `_destroy`: the components of an object that has a runtime are taken out of the systems, then the children are
-- destroyed, then the object is emptied. The parent field stays. `each` is the loop over the children.
unfoldable pub each :
    (Store → ℕ → Option (Store × List Event)) → Store → List ℕ → Option (Store × List Event)
each f s [] = some (s, [])
each f s (c ∷ cs) = elim (f s c) [
  | none ↦ none
  | some (s', es) ↦ elim (each f s' cs) [ none ↦ none | some (s'', es') ↦ some (s'', es ++ es') ]
]

unfoldable pub destroy_object : ℕ → Store → ℕ → Option (Store × List Event)
unfolding retire_all each
destroy_object zero s o = none
destroy_object (suc fuel) s o = elim (each (destroy_object fuel) s (s o).children) [
  | none ↦ none
  | some (s', es) ↦ some (
    write s' o (disposed (s' o)),
    (if (s o).runtime then retire_all (s o).components else []) ++ es,
  )
]

-- The first element that is `x`, taken out: `append(cs[:i], cs[i+1:]...)`; `none` if there is none.
unfoldable pub take_out : List ℕ → ℕ → Option (List ℕ)
take_out [] x = none
take_out (c ∷ cs) x =
    let rest = take_out cs x in
    if c == x then some cs else (elim rest [ none ↦ none | some r ↦ some (c ∷ r) ])

-- `RemoveObject`. A child that is not there is no error.
unfoldable pub remove_object : ℕ → Store → ℕ → ℕ → Option (Store × List Event × Option Error)
unfolding take_out destroy_object
remove_object fuel s o x =
    if o == x then some (s, [], some bad_object) else (elim (take_out (s o).children x) [
      | none ↦ some (s, [], none)
      | some rest ↦ elim (destroy_object fuel (write s o (record (s o) { children = rest })) x) [
        | none ↦ none
        | some (s', es) ↦ some (s', es, none)
      ]
    ])

-- `Destroy`. `RemoveObject` gives no ErrNoThisChild, so that what it gives is returned.
unfoldable pub destroy : ℕ → Store → ℕ → Option (Store × List Event × Option Error)
unfolding remove_object destroy_object
destroy fuel s o = elim ((s o).parent) [
  | some p ↦ remove_object fuel s p o
  | none ↦ elim (destroy_object fuel s o) [ none ↦ none | some (s', es) ↦ some (s', es, none) ]
]

-- `RemoveComponent`: the component is taken out; without a runtime that is all, and an error is logged.
abbrev pub kept : List ℕ → Option (List ℕ) → List ℕ
kept cs none = cs
kept cs (some rest) = rest

unfoldable pub remove_component : Store → ℕ → ℕ → Store × List Event × Option Error
unfolding take_out
remove_component s o c =
    let s' : Store =
      write s o
        (record (s o) { components = kept (s o).components (take_out (s o).components c) }) in
    if (s o).runtime then (s', retires c ∷ [], none) else (s', [], some no_runtime)

-- `GetObject`, `HasObject` and `FindObject`.
unfoldable pub get_named : Store → List ℕ → String → Option ℕ
get_named s [] name = none
get_named s (c ∷ cs) name = if (s c).name == name then some c else get_named s cs name

unfoldable pub get_object : Store → ℕ → String → Option ℕ
unfolding get_named
get_object s o name = get_named s (s o).children name

unfoldable pub has_named : Store → List ℕ → String → Bool
has_named s [] name = false
has_named s (c ∷ cs) name = if (s c).name == name then true else has_named s cs name

unfoldable pub has_object : Store → ℕ → String → Bool
unfolding has_named
has_object s o name = has_named s (s o).children name

unfoldable pub find_loop : Store → ℕ → List String → Option ℕ
unfolding get_object
find_loop s cursor [] = some cursor
find_loop s cursor (n ∷ ns) = elim (get_object s cursor n) [
  | none ↦ none
  | some c ↦ find_loop s c ns
]

-- What a look-up gives: the object, or the error.
pub data Found : Type 0 where
  found : ℕ → Found
  fails : Error → Found

unfoldable pub find_object : Store → ℕ → List String → Found
unfolding find_loop
find_object s o [] = fails bad_value
find_object s o (n ∷ ns) = elim (find_loop s o (n ∷ ns)) [
  | none ↦ fails no_match
  | some c ↦ found c
]

unfoldable pub rename : Store → ℕ → String → Store
rename s o name = write s o (record (s o) { name = name })
