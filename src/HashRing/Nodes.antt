-- ===== src/HashRing/Nodes.antt =====
-- `GetNodes` of hCommon/hashring.go: distinct nodes, in the order of the ring.
use happy.Base.{
  ℕ, zero, suc, ◌+◌, ◌%◌, ◌≤◌, ◌<◌, ◌≡◌, ◌≢◌, refl, String, true, false, List, [], ◌∷◌, ◌++◌,
  length, length-append, get_or, contains, contains-append, IsDistinct, ◌==◌, nat_eq, string_eq,
  ==_self, ==→≡, ==→≢, ltb, ltb→le, ltb→lt, if◌then◌else◌, arith, inl, inr, Bool-cases,
}
use happy.Base.Maps.{lookup}
use happy.Base.{some, Option-cases, subst}
use happy.HashRing.WellFormed.{IsWellFormed}
use happy.HashRing.Lookup.{get_node_pos-IsSuccessor}
use happy.HashRing.{HashRing, or_empty, collect_nodes, get_nodes, get_node_pos}

-- The node that owns the key at an index, counted around the ring.
abbrev pub node_at : HashRing → ℕ → String
node_at h i = or_empty (lookup h.ring (get_or h.sorted_keys (i % length h.sorted_keys) 0))

IsDistinct-snoc :
    (xs : List String) (a : String)
    → IsDistinct xs
    → contains xs a ≡ false
    → IsDistinct (xs ++ a ∷ [])
IsDistinct-snoc [] a d h = (refl, tt)
IsDistinct-snoc (x ∷ xs) a d h = (
  ground (arith, contains-append xs (a ∷ []) x, string_eq.beq_iff x a, string_eq.beq_iff a x),
  IsDistinct-snoc xs a d.1 (ground arith),
)

abbrev grow : List String → String → List String
grow result val = if contains result val then result else result ++ val ∷ []

grow-IsDistinct : (xs : List String) (a : String) → IsDistinct xs → IsDistinct (grow xs a)
grow-IsDistinct xs a d = elim (Bool-cases (contains xs a)) [
  | inl old ↦ rw old d
  | inr new ↦ rw new (IsDistinct-snoc xs a d new)
]

contains-grow_old :
    (xs : List String) (a b : String) → contains xs b ≡ true → contains (grow xs a) b ≡ true
contains-grow_old xs a b h = ground (arith, contains-append xs (a ∷ []) b)

contains-grow_new : (xs : List String) (a : String) → contains (grow xs a) a ≡ true
contains-grow_new xs a = ground (arith, contains-append xs (a ∷ []) a, ==_self a)

length-grow : (xs : List String) (a : String) → length (grow xs a) ≤ length xs + 1
length-grow xs a = ground (arith, length-append xs (a ∷ []))

module _ (h : HashRing) (size : ℕ) where
  collect_nodes-IsDistinct :
      (left i : ℕ) (xs : List String) → IsDistinct xs → IsDistinct (collect_nodes h size left i xs)
  unfolding collect_nodes
  collect_nodes-IsDistinct zero i xs d = d
  collect_nodes-IsDistinct (suc left) i xs d =
      elim (Bool-cases (length (grow xs (node_at h i)) == size)) [
        | inl full ↦ rw full (grow-IsDistinct xs (node_at h i) d)
        | inr more ↦ rw more (
            collect_nodes-IsDistinct left (i + 1) (grow xs (node_at h i))
              (grow-IsDistinct xs (node_at h i) d))
      ]

  -- The loop keeps what it has collected.
  contains-collect_nodes :
      (left i : ℕ) (xs : List String) (b : String)
      → contains xs b ≡ true
      → contains (collect_nodes h size left i xs) b ≡ true
  unfolding collect_nodes
  contains-collect_nodes zero i xs b c = c
  contains-collect_nodes (suc left) i xs b c =
      elim (Bool-cases (length (grow xs (node_at h i)) == size)) [
        | inl full ↦ rw full (contains-grow_old xs (node_at h i) b c)
        | inr more ↦ rw more (
            contains-collect_nodes left (i + 1) (grow xs (node_at h i)) b
              (contains-grow_old xs (node_at h i) b c))
      ]

  -- It stops at `size` nodes, if it starts below.
  length-collect_nodes :
      (left i : ℕ) (xs : List String)
      → length xs < size
      → length (collect_nodes h size left i xs) ≤ size
  unfolding collect_nodes
  length-collect_nodes zero i xs lt = omega arith
  length-collect_nodes (suc left) i xs lt =
      elim (Bool-cases (length (grow xs (node_at h i)) == size)) [
        | inl full ↦ rw full (ground arith)
        | inr more ↦ rw more (
            length-collect_nodes left (i + 1) (grow xs (node_at h i)) (
              omega (
                arith,
                length-grow xs (node_at h i),
                ==→≢ (length (grow xs (node_at h i))) size more,
              )))
      ]

  -- If it does not stop at `size` nodes, it has visited every index.
  collect_nodes-covers :
      (left i j : ℕ) (xs : List String)
      → (length (collect_nodes h size left i xs) == size) ≡ false
      → i ≤ j
      → j < i + left
      → contains (collect_nodes h size left i xs) (node_at h j) ≡ true
  unfolding collect_nodes
  collect_nodes-covers zero i j xs short le lt = absurd (omega arith)
  collect_nodes-covers (suc left) i j xs short le lt =
      let ys = grow xs (node_at h i) in
      elim (Bool-cases (length ys == size)) [
        | inl full ↦ absurd (ground (arith, rw full at short))
        | inr more ↦
            let short' : (length (collect_nodes h size left (i + 1) ys) == size) ≡ false =
              rw more at short in
            rw more (elim (Bool-cases (i == j)) [
              | inl here ↦
                  subst (λ k. contains (collect_nodes h size left (i + 1) ys) (node_at h k) ≡ true)
                    (==→≡ i j here)
                    (contains-collect_nodes left (i + 1) ys (node_at h i)
                      (contains-grow_new xs (node_at h i)))
              | inr later ↦
                  collect_nodes-covers left (i + 1) j ys short' (omega (arith, ==→≢ i j later))
                    (omega arith)
            ])
      ]

wraps : (j n : ℕ) → 0 < n → (j + n) % n ≡ j % n
wraps j n h = grind arith

module _ (digest : String → List ℕ) (h : HashRing) (s : String) (size : ℕ) where
  get_nodes_at :
      (r : ℕ)
      → get_node_pos digest h s ≡ some r
      → size ≤ length h.nodes
      → let ns = collect_nodes h size (length h.sorted_keys) r [] in
        get_nodes digest h s size ≡ (ns, length ns == size)
  unfolding get_nodes
  get_nodes_at r e enough = rw (e, get_nodes) (ground arith)

  -- `GetNodes` with a positive size returns distinct nodes, at most `size` of them, and says `true` exactly
  -- where it returns `size`.
  pub get_nodes-IsDistinct :
      0 < size
      → IsDistinct (get_nodes digest h s size).0
        × (length (get_nodes digest h s size).0 ≤ size)
        × ((get_nodes digest h s size).1 ≡ (length (get_nodes digest h s size).0 == size))
  unfolding get_nodes
  get_nodes-IsDistinct p = elim (Option-cases (get_node_pos digest h s)) [
    | inl e ↦ rw (e, get_nodes) (tt, ground arith, ground arith)
    | inr (r, e) ↦ elim (Bool-cases (ltb (length h.nodes) size)) [
      | inl few ↦ rw (e, get_nodes) (rw few (tt, ground arith, ground arith))
      | inr enough ↦ rw (get_nodes_at r e (ground arith)) (
        collect_nodes-IsDistinct h size (length h.sorted_keys) r [] tt,
        length-collect_nodes h size (length h.sorted_keys) r [] p,
        refl,
      )
    ]
  ]

  -- Where `GetNodes` says `false` though a well-formed ring has keys and as many nodes as were asked
  -- for, it has been all around: every key's owner is among the nodes returned.
  pub get_nodes-covers :
      (j : ℕ)
      → IsWellFormed h
      → length h.ring ≢ 0
      → size ≤ length h.nodes
      → (get_nodes digest h s size).1 ≡ false
      → j < length h.sorted_keys
      → contains (get_nodes digest h s size).0 (node_at h j) ≡ true
  get_nodes-covers j v ne enough short jl =
      let (r, e, lt, _) = get_node_pos-IsSuccessor digest h v s ne in
      let n = length h.sorted_keys in
      let missed = rw (get_nodes_at r e enough) at short in
      rw (get_nodes_at r e enough) (elim (Bool-cases (ltb j r)) [
        | inl before ↦
            subst
              (λ k.
                contains (collect_nodes h size n r [])
                  (or_empty (lookup h.ring (get_or h.sorted_keys k 0)))
                ≡ true)
              (wraps j n (omega arith))
              (collect_nodes-covers h size n r (j + n) [] missed (omega arith)
                (ground (arith, ltb→lt j r before)))
        | inr after ↦ collect_nodes-covers h size n r j [] missed (ltb→le j r after) (omega arith)
      ])
