-- ===== src/HashRing/Weights.antt =====
-- What each change of hCommon/hashring.go does to a ring whose nodes have weights: `UpdateWithWeights`,
-- `AddWeightedNode`, `UpdateWeightedNode`, `RemoveNode`.
use happy.Base.{
  ℕ, ◌≤◌, ◌≡◌, refl, sym, String, Bool, true, false, not, ◌&&◌, Option, none, some, List, [], ◌∷◌,
  ◌++◌, length, contains, contains-append, ◌==◌, nat_eq, string_eq, ==→≡, if◌then◌else◌, arith, inl,
  inr, Bool-cases, Option-cases,
}
use happy.Base.Int.{ℤ, pos, leb_ℤ, int_eq, beq_ℤ_iff}
use happy.Base.Maps.{
  Map, IsMap, IsMap-insert, IsMap-delete, keys, lookup, insert, delete, is_some, lookup-insert,
  lookup-delete, contains-keys, lookup_of_size,
}
use happy.HashRing.{
  HashRing, build, new_with_weights, some_changed, update_with_weights, add_weighted_node,
  update_weighted_node, remove_node, without, is_unchanged,
}
use happy.HashRing.Update.{unchanged}

-- The calls that change a ring, or replace it by another.
pub data Change : Type 0 where
  adds : String → ℤ → Change
  updates : String → ℤ → Change
  removes : String → Change
  reweighs : Map String ℤ → Change

-- What a change does to the weights of the nodes: the specification, with no list and no ring.
abbrev pub is_positive : ℤ → Bool
is_positive weight = not (leb_ℤ weight (pos 0))

abbrev pub act : Change → (String → Option ℤ) → String → Option ℤ
act (adds node weight) f k =
    if node == k && (is_positive weight && not (is_some (f k))) then some weight else f k
act (updates node weight) f k =
    if node == k && (is_positive weight && is_some (f k)) then some weight else f k
act (removes node) f k = if node == k then none else f k
act (reweighs weights) f k = lookup weights k

abbrev pub acts : List Change → (String → Option ℤ) → String → Option ℤ
acts [] f = f
acts (c ∷ cs) f = acts cs (act c f)

-- The weights that are given are a map.
abbrev pub HasMap : Change → Type 0
HasMap (reweighs weights) = IsMap weights
HasMap _ = Unit

contains-without :
    (nodes : List String) (node k : String)
    → contains (without nodes node) k ≡ (not (node == k) && contains nodes k)
unfolding without
contains-without [] node k = ground arith
contains-without (x ∷ nodes) node k = ground (
  arith,
  contains-without nodes node k,
  string_eq.beq_iff x node,
  string_eq.beq_iff x k,
  string_eq.beq_iff node k,
)

length-without : (nodes : List String) (node : String) → length (without nodes node) ≤ length nodes
unfolding without
length-without [] node = omega arith
length-without (x ∷ nodes) node = ground (arith, length-without nodes node)

-- A list that keeps its length has lost nothing.
without_absent :
    (nodes : List String) (node : String)
    → length (without nodes node) ≡ length nodes
    → contains nodes node ≡ false
unfolding without
without_absent [] node e = refl
without_absent (x ∷ nodes) node e = elim (Bool-cases (x == node)) [
  | inl same ↦ absurd (ground (arith, same, e, length-without nodes node))
  | inr other ↦ ground (arith, other, e, without_absent nodes node)
]

was_known : (o : Option ℤ) (weight : ℤ) → is_unchanged o weight ≡ false → is_some o ≡ true
was_known none weight e = absurd (cc)
was_known (some old) weight e = refl

branches {ℓ κ} :
    {A : Type ℓ} (P : A → Type κ) (b : Bool) (x y : A)
    → (b ≡ true → P x)
    → (b ≡ false → P y)
    → P (if b then x else y)
branches P true x y hx hy = hx refl
branches P false x y hx hy = hy refl

module _ (digest : String → List ℕ) where
  -- The ring is the one that is made from scratch of its nodes and weights, and its nodes are those with a weight.
  pub record IsWeighted (h : HashRing) : Type 0 where
    pub own : h ≡ build digest h.nodes h.weights
    pub is_map : IsMap h.weights
    pub covers : (k : String) → contains h.nodes k ≡ is_some (lookup h.weights k)

  -- A ring with the weights `f`.
  abbrev pub Weighs : (String → Option ℤ) → HashRing → Type 0
  Weighs f h = IsWeighted h × ((k : String) → lookup h.weights k ≡ f k)

  pub build-Weighs :
      (nodes : List String) (weights : Map String ℤ) (f : String → Option ℤ)
      → IsMap weights
      → ((k : String) → contains nodes k ≡ is_some (lookup weights k))
      → ((k : String) → lookup weights k ≡ f k)
      → Weighs f (build digest nodes weights)
  unfolding build
  build-Weighs nodes weights f d c e = (record { own = refl; is_map = d; covers = c }, e)

  pub adds-Weighs :
      (h : HashRing) (node : String) (weight : ℤ)
      → IsWeighted h
      → Weighs (act (adds node weight) (lookup h.weights)) (add_weighted_node digest h node weight)
  unfolding add_weighted_node
  adds-Weighs h node weight v =
      branches (Weighs (act (adds node weight) (lookup h.weights))) (leb_ℤ weight (pos 0)) _ _
        (λ low. (v, λ k. ground (arith, low)))
        (λ high.
          branches (Weighs (act (adds node weight) (lookup h.weights))) (contains h.nodes node) _ _
            (λ known. (v, λ k. ground (arith, known, v.covers k, string_eq.beq_iff node k)))
            (λ new.
              build-Weighs (h.nodes ++ node ∷ []) (insert h.weights node weight) _
                (IsMap-insert h.weights node weight v.is_map)
                (λ k. ground (
                  arith,
                  contains-append h.nodes (node ∷ []) k,
                  lookup-insert h.weights node k weight,
                  v.covers k,
                ))
                (λ k. ground (
                  arith,
                  high,
                  new,
                  lookup-insert h.weights node k weight,
                  v.covers k,
                  string_eq.beq_iff node k,
                ))))

  kept_weight :
      (h : HashRing) (node : String) (weight : ℤ) (k : String)
      → is_unchanged (lookup h.weights node) weight ≡ true
      → lookup h.weights k ≡ act (updates node weight) (lookup h.weights) k
  kept_weight h node weight k same = elim (Option-cases (lookup h.weights node)) [
    | inl e ↦ ground (arith, e, string_eq.beq_iff node k)
    | inr (old, e) ↦ ground (arith, same, e, string_eq.beq_iff node k, beq_ℤ_iff old weight)
  ]

  pub updates-Weighs :
      (h : HashRing) (node : String) (weight : ℤ)
      → IsWeighted h
      → Weighs
          (act (updates node weight) (lookup h.weights))
          (update_weighted_node digest h node weight)
  unfolding update_weighted_node
  updates-Weighs h node weight v =
      branches (Weighs (act (updates node weight) (lookup h.weights))) (leb_ℤ weight (pos 0)) _ _
        (λ low. (v, λ k. ground (arith, low)))
        (λ high.
          branches (Weighs (act (updates node weight) (lookup h.weights)))
            (is_unchanged (lookup h.weights node) weight) _ _
            (λ same. (v, λ k. kept_weight h node weight k same))
            (λ new.
              build-Weighs h.nodes (insert h.weights node weight) _
                (IsMap-insert h.weights node weight v.is_map)
                (λ k. ground (
                  arith,
                  lookup-insert h.weights node k weight,
                  was_known (lookup h.weights node) weight new,
                  v.covers k,
                  string_eq.beq_iff node k,
                ))
                (λ k. ground (
                  arith,
                  high,
                  lookup-insert h.weights node k weight,
                  was_known (lookup h.weights node) weight new,
                  string_eq.beq_iff node k,
                ))))

  pub removes-Weighs :
      (h : HashRing) (node : String)
      → IsWeighted h
      → Weighs (act (removes node) (lookup h.weights)) (remove_node digest h node)
  unfolding remove_node
  removes-Weighs h node v =
      branches (Weighs (act (removes node) (lookup h.weights)))
        (length (without h.nodes node) == length h.nodes) _ _
        (λ same. (
          v,
          λ k. ground (
            arith,
            without_absent h.nodes node (==→≡ _ _ same),
            v.covers k,
            string_eq.beq_iff node k,
          ),
        ))
        (λ less.
          build-Weighs (without h.nodes node) (delete h.weights node) _
            (IsMap-delete h.weights node v.is_map)
            (λ k.
              ground (
                arith,
                contains-without h.nodes node k,
                lookup-delete h.weights node k,
                v.covers k,
              ))
            (λ k. lookup-delete h.weights node k))

  pub reweighs-Weighs :
      (h : HashRing) (weights : Map String ℤ)
      → IsWeighted h
      → IsMap weights
      → Weighs (lookup weights) (update_with_weights digest h weights)
  unfolding update_with_weights new_with_weights
  reweighs-Weighs h weights v d =
      let built : Weighs (lookup weights) (build digest (keys weights) weights) =
        build-Weighs (keys weights) weights (lookup weights) d (contains-keys weights)
          (λ k. refl) in
      branches (Weighs (lookup weights)) (not (length weights == length h.weights)) _ _
        (λ resized. built)
        (λ sized.
          branches (Weighs (lookup weights)) (some_changed h.weights weights) _ _ (λ changed. built)
            (λ kept. (
              v,
              λ k. sym (
                  lookup_of_size weights h.weights k d v.is_map
                    (==→≡ (length weights) (length h.weights) (ground (arith, sized)))
                    (λ j w e. unchanged h.weights weights j w kept e)),
            )))
