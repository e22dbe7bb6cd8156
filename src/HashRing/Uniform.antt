-- ===== src/HashRing/Uniform.antt =====
-- Rings of hCommon/hashring.go without weights, or with all weights 1: forty rounds of three keys a node.
use happy.Base.{
  ℕ, zero, suc, ◌+◌, ◌*◌, ◌≡◌, ◌≢◌, refl, ap, String, true, some, List, [], ◌∷◌, length,
  length-append, contains, nat_eq, string_eq, ==_self, arith, inl, inr,
}
use native.Mathlib.Nat.{mul-div_cancel}
use happy.Base.Int.{ℤ, pos, ◌+ℤ◌, scale}
use happy.Base.Maps.{Map, is_some, lookup}
use happy.Base.Sort.{length-sort}
use happy.HashRing.{
  HashKey, Circle, no_circle, or_one, total_weight, quotient, factor, add_key, replica_key,
  add_replicas, add_nodes, build, new_hash_ring, get_node,
}
use happy.HashRing.WellFormed.{build-IsWellFormed}
use happy.HashRing.Lookup.{get_node-member}

-- Every node counts as weight 1, named in the map or not.
abbrev pub IsUniform : Map String ℤ → Type 0
IsUniform weights = (n : String) → or_one (lookup weights n) ≡ pos 1

pub none-IsUniform : IsUniform []
unfolding lookup
none-IsUniform n = refl

total_weight-uniform :
    (weights : Map String ℤ) (nodes : List String)
    → IsUniform weights
    → total_weight weights nodes ≡ pos (length nodes)
unfolding total_weight ◌+ℤ◌
total_weight-uniform weights [] u = refl
total_weight-uniform weights (n ∷ nodes) u =
    rw (u n, total_weight-uniform weights nodes u) (ground arith)

scale_one : (n : ℕ) → scale n (pos 1) ≡ pos n
unfolding scale
scale_one n = ground arith

quotient_uniform : (n : ℕ) → n ≢ 0 → quotient (scale (40 * n) (pos 1)) (pos n) ≡ 40
unfolding quotient
quotient_uniform zero h = absurd (h refl)
quotient_uniform (suc n) h = rw scale_one (mul-div_cancel 40 (omega arith))

factor-uniform :
    (weights : Map String ℤ) (nodes : List String) (node : String)
    → IsUniform weights
    → length nodes ≢ 0
    → factor weights nodes node ≡ 40
unfolding factor
factor-uniform weights nodes node u h =
    rw (u node, total_weight-uniform weights nodes u) (quotient_uniform (length nodes) h)

module _ (digest : String → List ℕ) where
  -- The nodes of a uniform ring, added one after the other.
  unfoldable pub add_uniform : List String → Circle → Circle
  add_uniform [] c = c
  add_uniform (node ∷ rest) c = add_uniform rest (add_replicas digest 40 0 node c)

  pub add_nodes-uniform :
      (weights : Map String ℤ) (all rest : List String) (c : Circle)
      → IsUniform weights
      → length all ≢ 0
      → add_nodes digest weights all rest c ≡ add_uniform rest c
  unfolding add_nodes add_uniform
  add_nodes-uniform weights all [] c u h = refl
  add_nodes-uniform weights all (node ∷ rest) c u h =
      rw (factor-uniform weights all node u h)
        (add_nodes-uniform weights all rest (add_replicas digest 40 0 node c) u h)

  length-add_key :
      (c : Circle) (key : HashKey) (node : String)
      → length (add_key c key node).sorted_keys ≡ length c.sorted_keys + 1
  unfolding add_key
  length-add_key c key node = length-append c.sorted_keys (key ∷ [])

  length-add_replicas :
      (left j : ℕ) (node : String) (c : Circle)
      → length (add_replicas digest left j node c).sorted_keys ≡ length c.sorted_keys + 3 * left
  unfolding add_replicas
  length-add_replicas zero j node c = omega arith
  length-add_replicas (suc left) j node c =
      let k = replica_key digest node j in
      let c₁ = add_key c (k 0) node in
      let c₂ = add_key c₁ (k 1) node in
      let c₃ = add_key c₂ (k 2) node in
      omega (
        arith,
        length-add_replicas left (j + 1) node c₃,
        length-add_key c (k 0) node,
        length-add_key c₁ (k 1) node,
        length-add_key c₂ (k 2) node,
      )

  length-add_uniform :
      (nodes : List String) (c : Circle)
      → length (add_uniform nodes c).sorted_keys ≡ length c.sorted_keys + 120 * length nodes
  unfolding add_uniform
  length-add_uniform [] c = omega arith
  length-add_uniform (n ∷ nodes) c =
      omega (
        arith,
        length-add_uniform nodes (add_replicas digest 40 0 n c),
        length-add_replicas 40 0 n c,
      )

  -- A ring of uniform weights has 120 keys for each of its nodes, collisions counted.
  pub length-build :
      (nodes : List String) (weights : Map String ℤ)
      → IsUniform weights
      → length (build digest nodes weights).sorted_keys ≡ 120 * length nodes
  unfolding build
  length-build [] weights u = refl
  length-build (n ∷ nodes) weights u =
      let all = n ∷ nodes in
      omega (
        arith,
        length-sort (add_nodes digest weights all all no_circle).sorted_keys,
        ap (λ (c : Circle). length c.sorted_keys)
            (add_nodes-uniform weights all all no_circle u (omega arith)),
        length-add_uniform all no_circle,
      )

  owned_by_some :
      (keys : List HashKey) (m : Map HashKey String)
      → ((k : HashKey) → contains keys k ≡ is_some (lookup m k))
      → length keys ≢ 0
      → length m ≢ 0
  unfolding lookup
  owned_by_some [] m owned h e = h refl
  owned_by_some (k ∷ keys) [] owned h e = ground (arith, owned k, ==_self k)
  owned_by_some (k ∷ keys) (kv ∷ m) owned h e = omega arith

  pub ring-build :
      (nodes : List String) (weights : Map String ℤ)
      → IsUniform weights
      → length nodes ≢ 0
      → length (build digest nodes weights).ring ≢ 0
  ring-build nodes weights u ne =
      let h = build digest nodes weights in
      owned_by_some h.sorted_keys h.ring (build-IsWellFormed digest nodes weights).owned
        (omega (arith, length-build nodes weights u))

  -- On a ring of at least one node, without weights, every text has a node: `GetNode` neither panics
  -- nor says `false`, and returns one of the nodes.
  pub get_node-new_hash_ring :
      (nodes : List String) (s : String)
      → length nodes ≢ 0
      → (n : String) × (get_node digest (new_hash_ring digest nodes) s ≡ some (some n))
        × (contains nodes n ≡ true)
  unfolding new_hash_ring
  get_node-new_hash_ring nodes s h =
      let v = build-IsWellFormed digest nodes [] in
      elim (get_node-member digest (build digest nodes []) v s) [
        | inl (empty, _) ↦ absurd (ring-build nodes [] none-IsUniform h empty)
        | inr (n, e, m) ↦ (n, e, (unfold build in m))
      ]
