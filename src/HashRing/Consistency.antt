-- ===== src/HashRing/Consistency.antt =====
-- What makes the ring of hCommon/hashring.go consistent: a new node takes texts over, and no text moves
-- between the old nodes.
use happy.Base.{
  ℕ, zero, suc, ◌+◌, ◌≤◌, ◌<◌, ◌≡◌, ◌≢◌, ◌⊎◌, refl, sym, ap, ◌∙◌, String, true, false, some, List,
  [], ◌∷◌, ◌++◌, length, length-append, get_elem?, get_or, get_elem?-eq-get_or, get_elem?_lt,
  contains, contains-append, contains-get, contains_at, nat_eq, string_eq, arith, inl, inr,
}
use happy.Base.Int.{ℤ, pos}
use happy.Base.Maps.{Map, lookup, insert, lookup-insert}
use happy.Base.Sort.{IsSorted, sort, contains-sort, IsSorted-get}
use happy.HashRing.{
  HashRing, HashKey, Circle, no_circle, or_empty, owner, add_key, replica_key, add_replicas, build,
  new_hash_ring, add_node, get_node, gen_key,
}
use happy.HashRing.WellFormed.{IsWellFormed, build-IsWellFormed}
use happy.HashRing.Lookup.{IsSuccessor, get_node_pos-IsSuccessor}
use happy.HashRing.Update.{add_weighted_node-build}
use happy.HashRing.Uniform.{IsUniform, none-IsUniform, add_uniform, add_nodes-uniform, ring-build}

-- The key that serves `key`: the least above it, or the least of all where none is above it.
abbrev pub IsNext : List HashKey → HashKey → HashKey → Type 0
IsNext ks key r =
    (contains ks r ≡ true)
    × (((key < r) × ((k : HashKey) → contains ks k ≡ true → key < k → r ≤ k))
        ⊎ (((k : HashKey) → contains ks k ≡ true → k ≤ key)
            × ((k : HashKey) → contains ks k ≡ true → r ≤ k)))

IsNext-unique : (ks : List HashKey) (key r s : HashKey) → IsNext ks key r → IsNext ks key s → r ≡ s
IsNext-unique ks key r s (cr, inl (a, b)) (cs, inl (c, d)) = omega (arith, b s cs c, d r cr a)
IsNext-unique ks key r s (cr, inl (a, b)) (cs, inr (c, d)) = omega (arith, c r cr)
IsNext-unique ks key r s (cr, inr (a, b)) (cs, inl (c, d)) = omega (arith, a s cs)
IsNext-unique ks key r s (cr, inr (a, b)) (cs, inr (c, d)) = omega (arith, b s cs, d r cr)

IsNext-shrink :
    (ks ls : List HashKey) (key r : HashKey)
    → ((k : HashKey) → contains ks k ≡ true → contains ls k ≡ true)
    → contains ks r ≡ true
    → IsNext ls key r
    → IsNext ks key r
IsNext-shrink ks ls key r sub c (_, inl (a, b)) = (c, inl (a, λ k m. b k (sub k m)))
IsNext-shrink ks ls key r sub c (_, inr (a, b)) =
    (c, inr (λ k m. a k (sub k m), λ k m. b k (sub k m)))

module _ (xs : List HashKey) (sorted : IsSorted xs) where
  sorted_ranks :
      (i j : ℕ) {k : HashKey} → i ≤ j → j < length xs → get_elem? xs j ≡ some k → get_or xs i 0 ≤ k
  sorted_ranks i j le lt e =
      IsSorted-get xs i j sorted le (get_elem?-eq-get_or xs i 0 (omega arith)) e

  IsSuccessor→IsNext :
      (key : HashKey) (i : ℕ) → i < length xs → IsSuccessor xs key i → IsNext xs key (get_or xs i 0)
  IsSuccessor→IsNext key i lt (inl (less, before)) = (
    contains-get xs i (get_elem?-eq-get_or xs i 0 lt),
    inl (
      less,
      λ k c above.
          let (j, e) = contains_at xs c in
          let read : get_or xs j 0 ≡ k =
            ground (arith, get_elem?-eq-get_or xs j 0 (get_elem?_lt xs j e)) in
          sorted_ranks i j (ground (arith, before j)) (get_elem?_lt xs j e) e,
    ),
  )
  IsSuccessor→IsNext key i lt (inr (first, all)) = (
    contains-get xs i (get_elem?-eq-get_or xs i 0 lt),
    inr (
      λ k c.
          let (j, e) = contains_at xs c in
          ground
            (arith, all j (get_elem?_lt xs j e), get_elem?-eq-get_or xs j 0 (get_elem?_lt xs j e)),
      λ k c.
          let (j, e) = contains_at xs c in sorted_ranks i j (omega arith) (get_elem?_lt xs j e) e,
    ),
  )

module _ (digest : String → List ℕ) (h : HashRing) (v : IsWellFormed h) (s : String) where
  -- `GetNode` answers with the owner of the next key.
  get_node-IsNext :
      length h.ring ≢ 0
      → (r : HashKey) × IsNext h.sorted_keys (gen_key digest s) r
        × (get_node digest h s ≡ some (some (or_empty (lookup h.ring r))))
  unfolding get_node owner
  get_node-IsNext ne =
      let (i, e, lt, next) = get_node_pos-IsSuccessor digest h v s ne in
      let at = get_elem?-eq-get_or h.sorted_keys i 0 lt in
      (
        get_or h.sorted_keys i 0,
        IsSuccessor→IsNext h.sorted_keys v.sorted (gen_key digest s) i lt next,
        rw (e, get_node) (rw (at, owner) refl),
      )

-- After the keys of `node` have been added to `c`, every key is that node's, or an old one with its
-- old owner.
record Extends (node : String) (c d : Circle) : Type 0 where
  keeps : (k : HashKey) → contains c.sorted_keys k ≡ true → contains d.sorted_keys k ≡ true
  owns :
      (k : HashKey)
      → contains d.sorted_keys k ≡ true
      → (lookup d.ring k ≡ some node)
        ⊎ ((contains c.sorted_keys k ≡ true) × (lookup d.ring k ≡ lookup c.ring k))

add_key-Extends :
    (node : String) (c d : Circle) (key : HashKey)
    → Extends node c d
    → Extends node c (add_key d key node)
unfolding add_key
add_key-Extends node c d key x = record {
  keeps = λ k m. ground (arith, x.keeps k, contains-append d.sorted_keys (key ∷ []) k);
  owns = λ k m. ground (
    arith,
    x.owns k,
    contains-append d.sorted_keys (key ∷ []) k,
    lookup-insert d.ring key k node,
  );
}

module _ (digest : String → List ℕ) where
  add_replicas-Extends :
      (left j : ℕ) (node : String) (c d : Circle)
      → Extends node c d
      → Extends node c (add_replicas digest left j node d)
  unfolding add_replicas
  add_replicas-Extends zero j node c d x = x
  add_replicas-Extends (suc left) j node c d x = add_replicas-Extends left (j + 1) node c _ (
      add_key-Extends node c _ _
        (add_key-Extends node c _ _ (add_key-Extends node c d (replica_key digest node j 0) x)))

  add_uniform-append :
      (nodes : List String) (node : String) (c : Circle)
      → add_uniform digest (nodes ++ node ∷ []) c
        ≡ add_replicas digest 40 0 node (add_uniform digest nodes c)
  unfolding add_uniform
  add_uniform-append [] node c = refl
  add_uniform-append (n ∷ nodes) node c =
      add_uniform-append nodes node (add_replicas digest 40 0 n c)

  -- `Extends` for two rings.
  record Grows (node : String) (g h : HashRing) : Type 0 where
    keeps : (k : HashKey) → contains g.sorted_keys k ≡ true → contains h.sorted_keys k ≡ true
    owns :
        (k : HashKey)
        → contains h.sorted_keys k ≡ true
        → (lookup h.ring k ≡ some node)
          ⊎ ((contains g.sorted_keys k ≡ true) × (lookup h.ring k ≡ lookup g.ring k))

  get_node-Grows :
      (node : String) (g h : HashRing) (s : String)
      → IsWellFormed g
      → IsWellFormed h
      → length g.ring ≢ 0
      → length h.ring ≢ 0
      → Grows node g h
      → (get_node digest h s ≡ get_node digest g s) ⊎ (get_node digest h s ≡ some (some node))
  get_node-Grows node g h s vg vh ng nh x =
      let (q, next_q, answer_q) = get_node-IsNext digest g vg s ng in
      let (r, next_r, answer_r) = get_node-IsNext digest h vh s nh in
      elim (x.owns r next_r.0) [
        | inl new ↦ inr (answer_r ∙ ap (λ o. some (some (or_empty o))) new)
        | inr (old, same) ↦
            let met : r ≡ q =
              IsNext-unique g.sorted_keys (gen_key digest s) r q
                (IsNext-shrink g.sorted_keys h.sorted_keys (gen_key digest s) r x.keeps old next_r)
                next_q in
            inl (
              answer_r
              ∙ ap (λ o. some (some (or_empty o))) (same ∙ ap (lookup g.ring) met)
              ∙ sym answer_q)
      ]

  -- A ring of uniform weights, through the nodes added one after the other.
  build-uniform :
      (nodes : List String) (weights : Map String ℤ)
      → IsUniform weights
      → length nodes ≢ 0
      → let c = add_uniform digest nodes no_circle in
        build digest nodes weights ≡ record {
          ring = c.ring;
          sorted_keys = sort c.sorted_keys;
          nodes = nodes;
          weights = weights;
        }
  unfolding build
  build-uniform nodes weights u ne =
      rw (add_nodes-uniform digest weights nodes nodes no_circle u ne) refl

  build-Grows :
      (nodes : List String) (node : String) (v w : Map String ℤ)
      → IsUniform v
      → IsUniform w
      → length nodes ≢ 0
      → Grows node (build digest nodes v) (build digest (nodes ++ node ∷ []) w)
  build-Grows nodes node v w uv uw ne =
      let c = add_uniform digest nodes no_circle in
      let d = add_replicas digest 40 0 node c in
      let x =
        add_replicas-Extends 40 0 node c c
          (record { keeps = λ k m. m; owns = λ k m. inr (m, refl) }) in
      rw
        (
          build-uniform nodes v uv ne,
          build-uniform (nodes ++ node ∷ []) w uw (ground (arith, length-append nodes (node ∷ []))),
          add_uniform-append nodes node no_circle,
        )
        (record {
          keeps = λ k m.
              ground
                (arith, x.keeps k, contains-sort k c.sorted_keys, contains-sort k d.sorted_keys);
          owns = λ k m.
              ground
                (arith, x.owns k, contains-sort k c.sorted_keys, contains-sort k d.sorted_keys);
        })

  one-IsUniform : (node : String) → IsUniform (insert [] node (pos 1))
  unfolding insert lookup
  one-IsUniform node n = ground arith

  -- Consistency: on a ring without weights that has a node, adding a new node sends each text to the
  -- node that it had before, or to the new one.
  pub get_node-add_node :
      (nodes : List String) (node s : String)
      → length nodes ≢ 0
      → contains nodes node ≡ false
      → let h = new_hash_ring digest nodes in
        (get_node digest (add_node digest h node) s ≡ get_node digest h s)
        ⊎ (get_node digest (add_node digest h node) s ≡ some (some node))
  unfolding new_hash_ring add_node
  get_node-add_node nodes node s ne new =
      let one = insert [] node (pos 1) in
      let more = nodes ++ node ∷ [] in
      rw (add_weighted_node-build digest nodes [] node (pos 1) refl new) (
        get_node-Grows node (build digest nodes []) (build digest more one) s
          (build-IsWellFormed digest nodes []) (build-IsWellFormed digest more one)
          (ring-build digest nodes [] none-IsUniform ne)
          (ring-build digest more one (one-IsUniform node)
            (omega (arith, length-append {0} nodes (node ∷ []))))
          (build-Grows nodes node [] one none-IsUniform (one-IsUniform node) ne))
