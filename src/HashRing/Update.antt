-- ===== src/HashRing/Update.antt =====
-- The changes of hCommon/hashring.go: `UpdateWithWeights`, `AddWeightedNode`, `UpdateWeightedNode`,
-- `RemoveNode`.
use happy.Base.{
  ℕ, ◌≡◌, refl, sym, ap, ◌∙◌, String, false, none, some, List, [], ◌∷◌, ◌++◌, length, length-append,
  contains, ◌==◌, nat_eq, string_eq, ==_self, ==→≡, arith, inl, inr, Bool-cases,
}
use happy.Base.Int.{ℤ, pos, leb_ℤ, int_eq, beq_ℤ_iff}
use happy.Base.Maps.{Map, IsMap, keys, lookup, insert, delete, lookup_of_size}
use happy.HashRing.{
  HashRing, build, new_with_weights, some_changed, update_with_weights, add_weighted_node,
  remove_node, without,
}

pub unchanged :
    (old new : Map String ℤ) (k : String) (w : ℤ)
    → some_changed old new ≡ false
    → lookup new k ≡ some w
    → lookup old k ≡ some w
unfolding some_changed lookup
unchanged old [] k w h e = cc
unchanged old ((node, new_weight) ∷ rest) k w h e = elim (Bool-cases (node == k)) [
  | inl same ↦ ground (arith, string_eq.beq_iff node k, beq_ℤ_iff w new_weight)
  | inr other ↦ unchanged old rest k w (ground arith) (ground arith)
]

without-snoc :
    (nodes : List String) (node : String)
    → contains nodes node ≡ false
    → without (nodes ++ node ∷ []) node ≡ nodes
unfolding without
without-snoc [] node h = ground (arith, ==_self node)
without-snoc (x ∷ nodes) node h = ground (arith, without-snoc nodes node)

delete-insert :
    (m : Map String ℤ) (k : String) (w : ℤ) → lookup m k ≡ none → delete (insert m k w) k ≡ m
unfolding delete insert lookup
delete-insert [] k w h = ground (arith, ==_self k)
delete-insert ((j, v) ∷ m) k w h = ground (arith, delete-insert m k w)

module _ (digest : String → List ℕ) where
  pub weights-build :
      (nodes : List String) (weights : Map String ℤ)
      → (build digest nodes weights).weights ≡ weights
  unfolding build
  weights-build nodes weights = refl

  pub nodes-build :
      (nodes : List String) (weights : Map String ℤ) → (build digest nodes weights).nodes ≡ nodes
  unfolding build
  nodes-build nodes weights = refl

  -- Whether it rebuilds the ring or keeps it, after `UpdateWithWeights` the ring has exactly the
  -- weights that were given, at every node.
  pub lookup-update_with_weights :
      (h : HashRing) (weights : Map String ℤ) (k : String)
      → IsMap h.weights
      → IsMap weights
      → lookup (update_with_weights digest h weights).weights k ≡ lookup weights k
  unfolding update_with_weights new_with_weights
  lookup-update_with_weights h weights k dh dw =
      elim (Bool-cases (length weights == length h.weights)) [
        | inr resized ↦ rw resized (ap (λ m. lookup m k) (weights-build (keys weights) weights))
        | inl same ↦ rw same (elim (Bool-cases (some_changed h.weights weights)) [
          | inl changed ↦ rw changed (ap (λ m. lookup m k) (weights-build (keys weights) weights))
          | inr kept ↦ rw kept (
              sym (
                lookup_of_size weights h.weights k dw dh (==→≡ _ _ same)
                  (λ j v e. unchanged h.weights weights j v kept e)))
        ])
      ]

  pub add_new :
      (h : HashRing) (node : String) (weight : ℤ)
      → leb_ℤ weight (pos 0) ≡ false
      → contains h.nodes node ≡ false
      → add_weighted_node digest h node weight
        ≡ build digest (h.nodes ++ node ∷ []) (insert h.weights node weight)
  unfolding add_weighted_node
  add_new h node weight p c = rw p (rw c refl)

  pub add_weighted_node-build :
      (nodes : List String) (weights : Map String ℤ) (node : String) (weight : ℤ)
      → leb_ℤ weight (pos 0) ≡ false
      → contains nodes node ≡ false
      → add_weighted_node digest (build digest nodes weights) node weight
        ≡ build digest (nodes ++ node ∷ []) (insert weights node weight)
  unfolding build
  add_weighted_node-build nodes weights node weight p c =
      add_new (build digest nodes weights) node weight p c

  pub remove_present :
      (h : HashRing) (node : String) (nodes : List String)
      → without h.nodes node ≡ nodes
      → (length nodes == length h.nodes) ≡ false
      → remove_node digest h node ≡ build digest nodes (delete h.weights node)
  unfolding remove_node
  remove_present h node nodes e ne = rw e (rw ne refl)

  -- Adding a new node to a ring that a constructor built, and removing it, gives that very ring.
  pub remove_node-add_weighted_node :
      (nodes : List String) (weights : Map String ℤ) (node : String) (weight : ℤ)
      → leb_ℤ weight (pos 0) ≡ false
      → contains nodes node ≡ false
      → lookup weights node ≡ none
      → let h = build digest nodes weights in
        remove_node digest (add_weighted_node digest h node weight) node ≡ h
  unfolding build
  remove_node-add_weighted_node nodes weights node weight p c l =
      ap (λ r. remove_node digest r node) (add_weighted_node-build nodes weights node weight p c)
      ∙ remove_present (build digest (nodes ++ node ∷ []) (insert weights node weight)) node nodes
          (without-snoc nodes node c) (ground (arith, length-append nodes (node ∷ [])))
      ∙ ap (build digest nodes) (delete-insert weights node weight l)
