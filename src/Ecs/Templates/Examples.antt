-- ===== src/Ecs/Templates/Examples.antt =====
-- Tests of hECS/object_factory.go, and the theorem on an object with a child.
use happy.Base.{
  ℕ, ◌≡◌, refl, Bool, true, false, String, some, [], ◌∷◌, contains, nat_eq, string_eq, not,
}
use happy.Base.Maps.{Map, lookup, insert}
use happy.Ecs.Templates.{
  ObjectTemplate, object_template, no_templates, Tree, tree, no_trees, tree_and, Components,
  Provider, reads, fails, panics, register, serialize, deserialize, deserialize_component,
  deserialize_components,
}
use happy.Ecs.Templates.Reading.{IsRestored, IsStorable, deserialize-serialize}

-- A component is its state, and an object has none twice.
abbrev states : Components ℕ ℕ
states = record {
  type_name = λ c. "*game.Health";
  serialize_state = λ c. some (some c);
  accepts = λ cs c. not (contains cs c);
}

abbrev health : Bool → Provider ℕ ℕ
health typed = record { new = 0; has_type = typed; is_persist = true; deserialize_state = λ d. d }

abbrev handlers : Bool → Map String (Provider ℕ ℕ)
handlers typed = ("*game.Health", health typed) ∷ []

registered : register "*game.Health" (health true) [] ≡ handlers true
unfolding register insert
registered = refl

abbrev player : Tree ℕ
player = tree "player" (3 ∷ 4 ∷ []) (tree_and (tree "pet" (3 ∷ []) no_trees) no_trees)

health-IsRestored : (c : ℕ) → IsRestored states (handlers true) c
unfolding lookup
health-IsRestored c = (some c, health true, refl, refl, refl, refl)

player-IsStorable : IsStorable states (handlers true) player
unfolding IsStorable
player-IsStorable = (
  (health-IsRestored 3, (health-IsRestored 4, tt)),
  (refl, (refl, tt)),
  (((health-IsRestored 3, tt), (refl, tt), tt), tt),
)

-- A provider that does not set the type of what it makes.
untyped :
    deserialize states (handlers false) (
      object_template "player"
        ((record { type_name = "*game.Health"; state = some 3 }) ∷ [])
        no_templates)
    ≡ panics
unfolding deserialize deserialize_components deserialize_component lookup
untyped = refl

unknown_type :
    deserialize states (handlers true) (
      object_template "player"
        ((record { type_name = "*game.Mana"; state = some 3 }) ∷ [])
        no_templates)
    ≡ fails
unfolding deserialize deserialize_components deserialize_component lookup
unknown_type = refl

deserialize-serialize_example :
    (t : ObjectTemplate ℕ) × (serialize states player ≡ some t)
    × (deserialize states (handlers true) t ≡ reads player)
deserialize-serialize_example =
    deserialize-serialize states (handlers true) player player-IsStorable
