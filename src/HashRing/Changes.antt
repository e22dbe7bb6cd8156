-- ===== src/HashRing/Changes.antt =====
-- Histories of the changes of hCommon/hashring.go: `UpdateWithWeights`, `AddWeightedNode`, `UpdateWeightedNode`,
-- `RemoveNode`.
use mathlib.Core.Path.{fun_ext}
use happy.Base.{ℕ, ◌≡◌, refl, ap, ◌∙◌, String, Option, List, [], ◌∷◌, All, nat_eq, string_eq}
use happy.Base.Int.{ℤ, int_eq}
use happy.Base.Maps.{Map, IsMap, keys, lookup, contains-keys}
use happy.HashRing.{
  HashRing, build, new_with_weights, update_with_weights, add_weighted_node, update_weighted_node,
  remove_node,
}
use happy.HashRing.Weights.{
  Change, adds, updates, removes, reweighs, act, acts, HasMap, IsWeighted, Weighs, build-Weighs,
  adds-Weighs, updates-Weighs, removes-Weighs, reweighs-Weighs,
}

module _ (digest : String → List ℕ) where
  unfoldable pub change : Change → HashRing → HashRing
  change (adds node weight) h = add_weighted_node digest h node weight
  change (updates node weight) h = update_weighted_node digest h node weight
  change (removes node) h = remove_node digest h node
  change (reweighs weights) h = update_with_weights digest h weights

  unfoldable pub changes : List Change → HashRing → HashRing
  unfolding change
  changes [] h = h
  changes (c ∷ cs) h = changes cs (change c h)

  act-eq :
      (cs : List Change) (f g : String → Option ℤ)
      → ((k : String) → f k ≡ g k)
      → (k : String) → acts cs f k ≡ acts cs g k
  act-eq cs f g h k = ap (λ x. acts cs x k) (fun_ext h)

  change-Weighs :
      (h : HashRing) (c : Change)
      → IsWeighted digest h
      → HasMap c
      → Weighs digest (act c (lookup h.weights)) (change c h)
  unfolding change
  change-Weighs h (adds node weight) v d = adds-Weighs digest h node weight v
  change-Weighs h (updates node weight) v d = updates-Weighs digest h node weight v
  change-Weighs h (removes node) v d = removes-Weighs digest h node v
  change-Weighs h (reweighs weights) v d = reweighs-Weighs digest h weights v d

  changes_from :
      (cs : List Change) (h : HashRing)
      → IsWeighted digest h
      → All HasMap cs
      → Weighs digest (acts cs (lookup h.weights)) (changes cs h)
  unfolding changes
  changes_from [] h v d = (v, λ k. refl)
  changes_from (c ∷ cs) h v d =
      let (w, e) = change-Weighs h c v d.0 in
      let (x, f) = changes_from cs (change c h) w d.1 in
      (x, λ k. f k ∙ act-eq cs (lookup (change c h).weights) (act c (lookup h.weights)) e k)

  -- On a ring made with weights, after any additions, updates, removals and replacements of all weights, given as maps,
  -- each node has exactly the weight that the calls say: an addition counts for a positive weight and a node without one,
  -- an update for a positive weight and a node with one, a removal takes the weight away, a replacement gives each node
  -- the weight in the new map. The nodes of the ring are those with a weight, and the ring is the one that is made from
  -- scratch of its nodes and weights: no key of an earlier one stays.
  pub changes-Weighs :
      (weights : Map String ℤ) (cs : List Change)
      → IsMap weights
      → All HasMap cs
      → Weighs digest (acts cs (lookup weights)) (changes cs (new_with_weights digest weights))
  unfolding new_with_weights
  changes-Weighs weights cs d ds =
      let (v, e) =
        build-Weighs digest (keys weights) weights (lookup weights) d (contains-keys weights)
          (λ k. refl) in
      let (x, f) = changes_from cs (build digest (keys weights) weights) v ds in
      (
        x,
        λ k.
            f k
            ∙ act-eq cs (lookup (build digest (keys weights) weights).weights) (lookup weights) e k,
      )
