-- ===== src/Ecs/Templates/Reading.antt =====
-- Templates of hECS/object_factory.go that are written and read back.
use happy.Base.{
  ◌≡◌, refl, sym, ap, ◌∙◌, Bool, true, false, String, Option, some, List, [], ◌∷◌, ◌++◌, All,
  string_eq, if◌then◌else◌,
}
use happy.Base.Maps.{Map, lookup}
use happy.Ecs.Templates.{
  ComponentTemplate, ObjectTemplate, object_template, ObjectTemplates, no_templates, template_and,
  Tree, tree, Trees, no_trees, tree_and, Components, Provider, reads, panics, and_then, read_state,
  then_some, serialize_component, serialize_components, serialize, serialize_each, add_to,
  use_provider, deserialize_component, deserialize_components, deserialize, deserialize_each,
}

-- `prior ++ c ∷ cs`, one by one.
append_one :
    {A : Type 0}
    → (prior : List A) (c : A) (cs : List A) → (prior ++ c ∷ []) ++ cs ≡ prior ++ c ∷ cs
append_one [] c cs = refl
append_one (a ∷ prior) c cs = ap (λ l. a ∷ l) (append_one prior c cs)

append_nothing : {A : Type 0} → (prior : List A) → prior ++ [] ≡ prior
append_nothing [] = refl
append_nothing (a ∷ prior) = ap (λ l. a ∷ l) (append_nothing prior)

module _ {C D : Type 0} (components : Components C D) (handlers : Map String (Provider C D)) where
  open components use {type_name, serialize_state, accepts}

  -- A provider gives the component back from its state, or its `New` is the component.
  abbrev pub Restores : Provider C D → Bool → Option D → C → Type 0
  Restores p true d c = p.deserialize_state d ≡ some c
  Restores p false d c = p.new ≡ c

  -- A component that can be written, and whose provider, which gives it its type, gives it back.
  abbrev pub IsRestored : C → Type 0
  IsRestored c =
      (d : Option D) × (p : Provider C D) × (serialize_state c ≡ some d)
      × (lookup handlers (type_name c) ≡ some p)
      × (p.has_type ≡ true)
      × Restores p p.is_persist d c

  -- AddComponent takes each of the components beside those before it.
  abbrev pub AreTaken : List C → List C → Type 0
  AreTaken prior [] = Unit
  AreTaken prior (c ∷ cs) = (accepts prior c ≡ true) × AreTaken (prior ++ c ∷ []) cs

  unfoldable mutual
    pub IsStorable : Tree C → Type 0
    IsStorable (tree name cs ks) = All IsRestored cs × AreTaken [] cs × AreStorable ks

    pub AreStorable : Trees C → Type 0
    AreStorable no_trees = Unit
    AreStorable (tree_and k ks) = IsStorable k × AreStorable ks

  state_read :
      (p : Provider C D) (b : Bool) (d : Option D) (c : C)
      → Restores p b d c
      → (if b then read_state (p.deserialize_state d) else reads p.new) ≡ reads c
  state_read p true d c h = ap read_state h
  state_read p false d c h = ap reads h

  used_provider :
      (p : Provider C D) (b : Bool) (d : Option D) (c : C)
      → p.has_type ≡ b
      → b ≡ true
      → Restores p p.is_persist d c
      → (if b
          then if p.is_persist then read_state (p.deserialize_state d) else reads p.new
          else panics)
        ≡ reads c
  used_provider p true d c e t h = state_read p p.is_persist d c h
  used_provider p false d c e t h = absurd (cc)

  component-Restored :
      (c : C)
      → IsRestored c
      → (t : ComponentTemplate D) × (serialize_component components c ≡ some t)
        × (deserialize_component components handlers t ≡ reads c)
  unfolding serialize_component deserialize_component
  component-Restored c (d, p, written, found, typed, restores) = (
    record { type_name = type_name c; state = d },
    ap (λ o. then_some o (λ d. some (record { type_name = type_name c; state = d }))) written,
    ap (λ o. use_provider components handlers o d) found
        ∙ used_provider p p.has_type d c refl typed restores,
  )

  components-AreRestored :
      (prior cs : List C)
      → All IsRestored cs
      → AreTaken prior cs
      → (ts : List (ComponentTemplate D)) × (serialize_components components cs ≡ some ts)
        × (deserialize_components components handlers prior ts ≡ reads (prior ++ cs))
  unfolding serialize_components deserialize_components
  components-AreRestored prior [] h k = ([], refl, ap reads (sym (append_nothing prior)))
  components-AreRestored prior (c ∷ cs) (h, hs) (taken, k) =
      let (t, written, back) = component-Restored c h in
      let (ts, all_written, all_back) = components-AreRestored (prior ++ c ∷ []) cs hs k in
      (
        t ∷ ts,
        ap
              (λ o.
                then_some o
                  (λ t. then_some (serialize_components components cs) (λ ts. some (t ∷ ts))))
              written
            ∙ ap (λ o. then_some o (λ ts. some (t ∷ ts))) all_written,
        ap
              (λ r.
                and_then r
                  (λ c. deserialize_components components handlers (add_to components prior c) ts))
              back
            ∙ ap
                (λ (b : Bool).
                  deserialize_components components handlers (if b then prior ++ c ∷ [] else prior)
                    ts)
                taken
            ∙ all_back
            ∙ ap reads (append_one prior c cs),
      )

  mutual
    unfolding serialize deserialize IsStorable

    reads_back :
        (k : Tree C)
        → IsStorable k
        → (t : ObjectTemplate D) × (serialize components k ≡ some t)
          × (deserialize components handlers t ≡ reads k)
    reads_back (tree name cs ks) (h, taken, hs) =
        let (ts, written, back) = components-AreRestored [] cs h taken in
        let (os, kids_written, kids_back) = reads_back_each ks hs in
        (
          object_template name ts os,
          ap
                (λ o. then_some o (λ ts.
                  then_some (serialize_each components ks)
                    (λ os. some (object_template name ts os))))
                written
              ∙ ap (λ o. then_some o (λ os. some (object_template name ts os))) kids_written,
          ap
                (λ r. and_then r (λ cs.
                  and_then (deserialize_each components handlers os)
                    (λ ks. reads (tree name cs ks))))
                back
              ∙ ap (λ r. and_then r (λ ks. reads (tree name cs ks))) kids_back,
        )

    reads_back_each :
        (ks : Trees C)
        → AreStorable ks
        → (os : ObjectTemplates D) × (serialize_each components ks ≡ some os)
          × (deserialize_each components handlers os ≡ reads ks)
    reads_back_each no_trees h = (no_templates, refl, refl)
    reads_back_each (tree_and k ks) (h, hs) =
        let (o, written, back) = reads_back k h in
        let (os, all_written, all_back) = reads_back_each ks hs in
        (
          template_and o os,
          ap
                (λ r.
                  then_some r (λ o.
                    then_some (serialize_each components ks) (λ os. some (template_and o os))))
                written
              ∙ ap (λ r. then_some r (λ os. some (template_and o os))) all_written,
          ap
                (λ r. and_then r (λ k.
                  and_then (deserialize_each components handlers os) (λ ks. reads (tree_and k ks))))
                back
              ∙ ap (λ r. and_then r (λ ks. reads (tree_and k ks))) all_back,
        )

  -- A tree whose components can be written and are given back by providers that set their type, and which AddComponent
  -- takes in their order, is written to a template from which the very tree is read.
  pub deserialize-serialize :
      (k : Tree C)
      → IsStorable k
      → (t : ObjectTemplate D) × (serialize components k ≡ some t)
        × (deserialize components handlers t ≡ reads k)
  deserialize-serialize k h = reads_back k h
