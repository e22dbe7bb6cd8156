-- ===== src/Ecs/Templates.antt =====
-- hECS/object_factory.go and the templates of hECS/template.go. An object that is read from a template is new, as are its
-- children, so it is the tree of them as a value. The components and their data are parameters; the encoding of a
-- template as JSON is not modelled.
pub mod Reading
mod Examples
use happy.Base.{
  Bool, true, false, not, ◌&&◌, ◌||◌, String, Option, none, some, List, [], ◌∷◌, ◌++◌, string_eq,
  ◌==◌, if◌then◌else◌,
}
use happy.Base.Maps.{Map, lookup, insert}

-- `state` is the field Data, which is nil for a component that does not persist.
pub record ComponentTemplate (D : Type 0) : Type 0 where
  pub type_name : String
  pub state : Option D

mutual
  pub data ObjectTemplate (D : Type 0) : Type 0 where
    object_template : String → List (ComponentTemplate D) → ObjectTemplates D → ObjectTemplate D

  pub data ObjectTemplates (D : Type 0) : Type 0 where
    no_templates : ObjectTemplates D
    template_and : ObjectTemplate D → ObjectTemplates D → ObjectTemplates D

-- The tree of an object: its name, its components and its children.
mutual
  pub data Tree (C : Type 0) : Type 0 where
    tree : String → List C → Trees C → Tree C

  pub data Trees (C : Type 0) : Type 0 where
    no_trees : Trees C
    tree_and : Tree C → Trees C → Trees C

-- What a component answers: `typeName` of its type, its `Serialize` (`some none` if it is no IPersist), and whether
-- AddComponent takes it beside the components that an object has.
pub record Components (C D : Type 0) : Type 0 where
  pub type_name : C → String
  pub serialize_state : C → Option (Option D)
  pub accepts : List C → C → Bool

-- A ComponentProvider: `has_type` says whether what `New` gives answers its type, which a ComponentBase does only once
-- `Init` has been called.
pub record Provider (C D : Type 0) : Type 0 where
  pub new : C
  pub has_type : Bool
  pub is_persist : Bool
  pub deserialize_state : Option D → Option C

-- What reading comes to: a value, an error, or a panic.
pub data Read (A : Type 0) : Type 0 where
  reads : A → Read A
  fails : Read A
  panics : Read A

abbrev pub and_then : {A B : Type 0} → Read A → (A → Read B) → Read B
and_then (reads a) f = f a
and_then fails f = fails
and_then panics f = panics

abbrev pub read_state : {A : Type 0} → Option A → Read A
read_state none = fails
read_state (some a) = reads a

abbrev pub then_some : {A B : Type 0} → Option A → (A → Option B) → Option B
then_some (some a) f = f a
then_some none f = none

-- `Register`.
unfoldable pub register :
    {C D : Type 0} → String → Provider C D → Map String (Provider C D) → Map String (Provider C D)
unfolding insert
register name p handlers = insert handlers name p

module _ {C D : Type 0} (components : Components C D) where
  open components use {type_name, serialize_state, accepts}

  unfoldable pub serialize_component : C → Option (ComponentTemplate D)
  serialize_component c =
      then_some (serialize_state c) (λ d. some (record { type_name = type_name c; state = d }))

  unfoldable pub serialize_components : List C → Option (List (ComponentTemplate D))
  unfolding serialize_component
  serialize_components [] = some []
  serialize_components (c ∷ cs) =
      then_some (serialize_component c)
        (λ t. then_some (serialize_components cs) (λ ts. some (t ∷ ts)))

  -- `Serialize`.
  unfoldable mutual
    unfolding serialize_components

    pub serialize : Tree C → Option (ObjectTemplate D)
    serialize (tree name cs ks) =
        then_some (serialize_components cs)
          (λ ts. then_some (serialize_each ks) (λ os. some (object_template name ts os)))

    pub serialize_each : Trees C → Option (ObjectTemplates D)
    serialize_each no_trees = some no_templates
    serialize_each (tree_and k ks) =
        then_some (serialize k)
          (λ o. then_some (serialize_each ks) (λ os. some (template_and o os)))

  -- `AddComponent` on the new object; a component that is refused is logged. `Initialize`, which is called on either, is
  -- not modelled: it is that of components which neither add nor remove others there.
  abbrev pub add_to : List C → C → List C
  add_to cs c = if accepts cs c then cs ++ c ∷ [] else cs

  module _ (handlers : Map String (Provider C D)) where
    abbrev pub use_provider : Option (Provider C D) → Option D → Read C
    use_provider none d = fails
    use_provider (some p) d =
        if p.has_type
        then if p.is_persist then read_state (p.deserialize_state d) else reads p.new
        else panics

    unfoldable pub deserialize_component : ComponentTemplate D → Read C
    unfolding lookup
    deserialize_component t = use_provider (lookup handlers t.type_name) t.state

    unfoldable pub deserialize_components : List C → List (ComponentTemplate D) → Read (List C)
    unfolding deserialize_component
    deserialize_components cs [] = reads cs
    deserialize_components cs (t ∷ ts) =
        and_then (deserialize_component t) (λ c. deserialize_components (add_to cs c) ts)

    -- `Deserialize`; `AddObject` of a new child gives no error.
    unfoldable mutual
      unfolding deserialize_components

      pub deserialize : ObjectTemplate D → Read (Tree C)
      deserialize (object_template name ts os) =
          and_then (deserialize_components [] ts)
            (λ cs. and_then (deserialize_each os) (λ ks. reads (tree name cs ks)))

      pub deserialize_each : ObjectTemplates D → Read (Trees C)
      deserialize_each no_templates = reads no_trees
      deserialize_each (template_and o os) =
          and_then (deserialize o)
            (λ k. and_then (deserialize_each os) (λ ks. reads (tree_and k ks)))
