-- ===== src/HashRing/WellFormed.antt =====
-- What `generateCircle` of hCommon/hashring.go builds: sorted keys, each owned by one of the nodes.
use happy.Base.{
  ℕ, zero, suc, ◌+◌, ◌≡◌, refl, ◌∙◌, String, true, some, List, [], ◌∷◌, contains, contains-append,
  nat_eq, string_eq, ==_self, arith,
}
use happy.Base.Int.{ℤ}
use happy.Base.Maps.{Map, is_some, lookup, lookup-insert}
use happy.Base.Sort.{IsSorted, sort-IsSorted, contains-sort}
use happy.HashRing.{
  HashRing, HashKey, Circle, no_circle, add_key, add_replicas, add_nodes, factor, build,
}

-- The keys are those of the map, and each is owned by a node of the list.
pub record IsCircle (nodes : List String) (c : Circle) : Type 0 where
  pub owned : (k : HashKey) → contains c.sorted_keys k ≡ is_some (lookup c.ring k)
  pub member : (k : HashKey) (n : String) → lookup c.ring k ≡ some n → contains nodes n ≡ true

add_key-IsCircle :
    (nodes : List String) (c : Circle) (key : HashKey) (node : String)
    → contains nodes node ≡ true
    → IsCircle nodes c
    → IsCircle nodes (add_key c key node)
unfolding add_key
add_key-IsCircle nodes c key node h v = record {
  owned = λ k. ground (
    arith,
    lookup-insert c.ring key k node,
    contains-append c.sorted_keys (key ∷ []) k,
    v.owned k,
  );
  member = λ k n e. ground (arith, lookup-insert c.ring key k node, v.member k n);
}

module _ (digest : String → List ℕ) (nodes : List String) where
  add_replicas-IsCircle :
      (left j : ℕ) (node : String) (c : Circle)
      → contains nodes node ≡ true
      → IsCircle nodes c
      → IsCircle nodes (add_replicas digest left j node c)
  unfolding add_replicas
  add_replicas-IsCircle zero j node c h v = v
  add_replicas-IsCircle (suc left) j node c h v = add_replicas-IsCircle left (j + 1) node _ h (
      add_key-IsCircle nodes _ _ node h
        (add_key-IsCircle nodes _ _ node h (add_key-IsCircle nodes c _ node h v)))

  add_nodes-IsCircle :
      (weights : Map String ℤ) (all rest : List String) (c : Circle)
      → ((n : String) → contains rest n ≡ true → contains nodes n ≡ true)
      → IsCircle nodes c
      → IsCircle nodes (add_nodes digest weights all rest c)
  unfolding add_nodes
  add_nodes-IsCircle weights all [] c sub v = v
  add_nodes-IsCircle weights all (node ∷ rest) c sub v =
      add_nodes-IsCircle weights all rest _ (λ n h. sub n (ground arith))
        (add_replicas-IsCircle (factor weights all node) 0 node c
          (sub node (ground (arith, ==_self node))) v)

-- The ring as the lookups need it: as `IsCircle`, and the keys ascend.
pub record IsWellFormed (h : HashRing) : Type 0 where
  pub sorted : IsSorted h.sorted_keys
  pub owned : (k : HashKey) → contains h.sorted_keys k ≡ is_some (lookup h.ring k)
  pub member : (k : HashKey) (n : String) → lookup h.ring k ≡ some n → contains h.nodes n ≡ true

no_circle-IsCircle : (nodes : List String) → IsCircle nodes no_circle
unfolding lookup
no_circle-IsCircle nodes = record { owned = λ k. refl; member = λ k n e. cc }

-- Whatever the digest, the nodes and the weights, a ring that a constructor returns is well formed:
-- its keys ascend, they are exactly the keys of its map, and each is owned by one of its nodes.
pub build-IsWellFormed :
    (digest : String → List ℕ) (nodes : List String) (weights : Map String ℤ)
    → IsWellFormed (build digest nodes weights)
unfolding build
build-IsWellFormed digest nodes weights =
    let c = add_nodes digest weights nodes nodes no_circle in
    let v =
      add_nodes-IsCircle digest nodes weights nodes nodes no_circle (λ n h. h)
        (no_circle-IsCircle nodes) in
    record {
      sorted = sort-IsSorted c.sorted_keys;
      owned = λ k. contains-sort k c.sorted_keys ∙ v.owned k;
      member = v.member;
    }
