-- ===== src/Cluster/NodeGroup.antt =====
-- `NodeIDGroup` of hCluster/NodeID.go, the nodes that a query has found, with `SourceGroup.DoQuery` of
-- hCluster/Selector.go. What `GetNodeClient` of the node component gives is a parameter. A nil slice of nodes reads
-- like an empty one.
pub mod Picking
use happy.Base.{
  ℕ, zero, suc, String, Bool, true, false, ◌||◌, Option, none, some, List, [], ◌∷◌, ◌++◌, get_elem?,
  ◌==◌, string_eq, if◌then◌else◌,
}
use happy.Cluster.Types.{InquiryReply, Floats}
use happy.Cluster.Selector.{random, select_min_load}

-- What a choice comes to: an error, a panic, or a value.
pub data Choice (A : Type 0) : Type 0 where
  fails : Choice A
  panics : Choice A
  chosen : A → Choice A

module _ {C : Type 0} where
  abbrev client_of : (String → Option C) → Choice String → Choice C
  client_of get_node_client fails = fails
  client_of get_node_client panics = panics
  client_of get_node_client (chosen addr) = elim (get_node_client addr) [
    | none ↦ fails
    | some c ↦ chosen c
  ]

  abbrev at_least_one : List C → Choice (List C)
  at_least_one [] = fails
  at_least_one (c ∷ cs) = chosen (c ∷ cs)

module _ {F D : Type 0} where
  -- `Nodes` appends to a slice of as many empty strings as there are nodes.
  unfoldable pub blanks : List (InquiryReply F D) → List String
  blanks [] = []
  blanks (r ∷ rs) = "" ∷ blanks rs

  unfoldable pub addresses : List (InquiryReply F D) → List String
  addresses [] = []
  addresses (r ∷ rs) = r.node ∷ addresses rs

  unfoldable pub nodes : List (InquiryReply F D) → List String
  unfolding blanks addresses
  nodes rs = blanks rs ++ addresses rs

  -- `RandOne`; `draw` is what `rand.Intn` gives, an index out of range panics.
  unfoldable pub rand_one : ℕ → List (InquiryReply F D) → Choice String
  rand_one draw [] = fails
  rand_one draw (r ∷ rs) = elim (get_elem? (r ∷ rs) draw) [ none ↦ panics | some s ↦ chosen s.node ]

  module _ {C : Type 0} (get_node_client : String → Option C) where
    unfoldable pub rand_client : ℕ → List (InquiryReply F D) → Choice C
    unfolding rand_one
    rand_client draw rs = client_of get_node_client (rand_one draw rs)

    -- The loop of `Clients`: a node that gives no client is passed over.
    unfoldable pub reachable : List (InquiryReply F D) → List C
    reachable [] = []
    reachable (r ∷ rs) =
        let others = reachable rs in
        elim (get_node_client r.node) [ none ↦ others | some c ↦ c ∷ others ]

    unfoldable pub clients : List (InquiryReply F D) → Choice (List C)
    unfolding reachable
    clients rs = at_least_one (reachable rs)

module _ (num : Floats) {D : Type 0} where
  open num use {Float}

  -- `SourceGroup.DoQuery`: `none` is -1.
  unfoldable pub source_query : ℕ → String → List (InquiryReply Float D) → Option ℕ
  unfolding random select_min_load
  source_query draw typ rs =
      if typ == "Default" || typ == "Random"
      then random draw rs
      else if typ == "MinLoad"
      then select_min_load num rs
      else if typ == "Custom"
      then (elim rs [ [] ↦ none | r ∷ others ↦ some 0 ])
      else none

  -- `this.nodes[index]`.
  abbrev pub node_at : List (InquiryReply Float D) → ℕ → Choice (InquiryReply Float D)
  node_at rs i = elim (get_elem? rs i) [ none ↦ panics | some r ↦ chosen r ]

  -- `SelectOneNodeInfo`: a `NodeInfoDetail` has the fields of a reply.
  unfoldable pub select_one_node_info :
      ℕ → String → List (InquiryReply Float D) → Choice (InquiryReply Float D)
  unfolding source_query
  select_one_node_info draw typ rs = elim (source_query draw typ rs) [
    | none ↦ fails
    | some i ↦ node_at rs i
  ]

  -- The node whose client `MinLoadClient` asks for; -1 is no index.
  unfoldable pub min_load_node : List (InquiryReply Float D) → Choice (InquiryReply Float D)
  unfolding select_min_load
  min_load_node [] = fails
  min_load_node (r ∷ rs) = elim (select_min_load num (r ∷ rs)) [
    | none ↦ panics
    | some i ↦ node_at (r ∷ rs) i
  ]
