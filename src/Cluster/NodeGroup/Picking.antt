-- ===== src/Cluster/NodeGroup/Picking.antt =====
-- Which node `MinLoadClient` of hCluster/NodeID.go picks.
use happy.Base.{
  subst, ℕ, ◌≡◌, ◌≢◌, refl, sym, ap, true, false, Option, none, some, List, [], ◌∷◌, All,
}
use happy.Cluster.Types.{InquiryReply, Floats}
use happy.Cluster.Selector.{load_of, select_min_load}
use happy.Cluster.Selector.MinLoad.{IsBest, select_min_load-IsBest}
use happy.Cluster.NodeGroup.{Choice, fails, panics, chosen, node_at, min_load_node}

module _ (num : Floats) {D : Type 0} where
  open num use {Float, one, le}

  -- What the choice says of the nodes.
  abbrev pub IsPicked : List (InquiryReply Float D) → Choice (InquiryReply Float D) → Type 0
  IsPicked rs fails = rs ≡ []
  IsPicked rs panics = (rs ≢ []) × All (λ r. le (load_of num r) one ≡ false) rs
  IsPicked rs (chosen r) =
      (le (load_of num r) one ≡ true) × All (λ s. le (load_of num r) (load_of num s) ≡ true) rs

module _ (num : Floats) {D : Type 0}
    (total : (a b : num.Float) → num.le a b ≡ false → num.le b a ≡ true)
    (trans : (a b c : num.Float) → num.le a b ≡ true → num.le b c ≡ true → num.le a c ≡ true) where
  open num use {Float, one, le}

  node_at-IsPicked :
      (rs : List (InquiryReply Float D)) (i : Option ℕ) (m : Float)
      → rs ≢ []
      → IsBest num rs m i
      → IsPicked num rs (elim i [ none ↦ panics | some j ↦ node_at num rs j ])
  node_at-IsPicked rs none m some_node (start, over) = (some_node, over)
  node_at-IsPicked rs (some i) m some_node ((s, e, l), fits, best) =
      let found : node_at num rs i ≡ chosen s =
        ap
          (λ o. elim o as (λ x. Choice (InquiryReply Float D)) [
            | none ↦ panics
            | some r ↦ chosen r
          ])
          e in
      subst (IsPicked num rs) (sym found) (
        subst (λ a. (le a one ≡ true) × All (λ t. le a (load_of num t) ≡ true) rs) (sym l)
          (fits, best))

  -- On loads that are numbers, `MinLoadClient` of no node is an error; of nodes it panics, if every load is above 1, and
  -- otherwise asks for a node with a load of at most 1 that no node undercuts.
  pub min_load_node-IsPicked :
      (rs : List (InquiryReply Float D)) → IsPicked num rs (min_load_node num rs)
  unfolding min_load_node
  min_load_node-IsPicked [] = refl
  min_load_node-IsPicked (r ∷ rs) =
      let (m, best) = select_min_load-IsBest num total trans (r ∷ rs) in
      node_at-IsPicked (r ∷ rs) (select_min_load num (r ∷ rs)) m (λ e. absurd cc) best
