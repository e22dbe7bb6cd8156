-- ===== src/HashRing/Examples.antt =====
-- Tests of hCommon/hashring.go and the theorems on small rings. The digest is a toy: six texts have bytes of
-- their own.
use happy.Base.{
  ℕ, ◌<◌, ◌≡◌, ◌≢◌, refl, String, true, false, none, some, List, [], ◌∷◌, length, ◌==◌, nat_eq,
  string_eq, if◌then◌else◌, arith, ◌⊎◌,
}
use happy.Base.Int.{ℤ, pos, ◌+ℤ◌}
use happy.Base.Sort.{search}
use happy.Base.Maps.{lookup}
use happy.HashRing.{
  HashRing, new_with_weights, collect_nodes, hash_val, factor, build, new_hash_ring, get_node_pos,
  get_node, get_nodes, gen_key, add_node,
}
use happy.HashRing.WellFormed.{IsWellFormed, build-IsWellFormed}
use happy.HashRing.Lookup.{IsSuccessor, get_node_pos-IsSuccessor}
use happy.HashRing.Weights.{Change, adds, updates, removes, acts, Weighs}
use happy.HashRing.Changes.{changes, changes-Weighs}
use happy.HashRing.Consistency.{get_node-add_node}

abbrev digest : String → List ℕ
digest s =
    if s == "a-0"
    then 1 ∷ 0 ∷ 0 ∷ 0 ∷ 5 ∷ 0 ∷ 0 ∷ 0 ∷ 9 ∷ 0 ∷ 0 ∷ 0 ∷ 0 ∷ 0 ∷ 0 ∷ 0 ∷ []
    else if s == "b-0"
    then 3 ∷ 0 ∷ 0 ∷ 0 ∷ 7 ∷ 0 ∷ 0 ∷ 0 ∷ 0 ∷ 1 ∷ 0 ∷ 0 ∷ 0 ∷ 0 ∷ 0 ∷ 0 ∷ []
    else if s == "k"
    then 6 ∷ 0 ∷ 0 ∷ 0 ∷ []
    else 2 ∷ 0 ∷ 0 ∷ 0 ∷ 2 ∷ 0 ∷ 0 ∷ 0 ∷ 2 ∷ 0 ∷ 0 ∷ 0 ∷ []

-- A ring of three keys, as `generateCircle` would leave it.
abbrev small : HashRing
small = record {
  ring = (1, "a") ∷ (3, "b") ∷ (5, "a") ∷ [];
  sorted_keys = 1 ∷ 3 ∷ 5 ∷ [];
  nodes = "a" ∷ "b" ∷ [];
  weights = [];
}

hash_val_four : hash_val (4 ∷ 3 ∷ 2 ∷ 1 ∷ []) ≡ 16909060
unfolding hash_val
hash_val_four = refl

gen_key_k : gen_key digest "k" ≡ 6
unfolding gen_key hash_val
gen_key_k = refl

get_node_wraps : get_node digest small "k" ≡ some (some "a")
unfolding get_node get_node_pos gen_key hash_val search lookup
get_node_wraps = refl

get_nodes_two : get_nodes digest small "k" 2 ≡ ("a" ∷ "b" ∷ [], true)
unfolding get_nodes get_node_pos gen_key hash_val search collect_nodes lookup
get_nodes_two = refl

factor_half : factor (("a", pos 3) ∷ []) ("a" ∷ "b" ∷ []) "a" ≡ 60
unfolding factor lookup ◌+ℤ◌
factor_half = refl

build-IsWellFormed_example : IsWellFormed (build digest ("a" ∷ "b" ∷ []) (("a", pos 3) ∷ []))
build-IsWellFormed_example = build-IsWellFormed digest ("a" ∷ "b" ∷ []) (("a", pos 3) ∷ [])

small-IsWellFormed : IsWellFormed small
unfolding lookup
small-IsWellFormed = record {
  sorted = ((omega arith, (omega arith, tt)), ((omega arith, tt), (tt, tt)));
  owned = λ k. ground arith;
  member = λ k n e. ground (arith, string_eq.beq_iff "a" n, string_eq.beq_iff "b" n);
}

small_occupied : length small.ring ≢ 0
small_occupied p = omega (arith, p)

get_node_pos_example :
    (r : ℕ) × (get_node_pos digest small "k" ≡ some r)
    × (r < 3)
    × IsSuccessor (1 ∷ 3 ∷ 5 ∷ []) (gen_key digest "k") r
get_node_pos_example = get_node_pos-IsSuccessor digest small small-IsWellFormed "k" small_occupied

-- A ring that has lost the keys of one node.
abbrev lonely : HashRing
lonely = record {
  ring = (1, "a") ∷ (5, "a") ∷ [];
  sorted_keys = 1 ∷ 5 ∷ [];
  nodes = "a" ∷ "b" ∷ [];
  weights = [];
}

lonely-IsWellFormed : IsWellFormed lonely
unfolding lookup
lonely-IsWellFormed = record {
  sorted = ((omega arith, tt), (tt, tt));
  owned = λ k. ground arith;
  member = λ k n e. ground (arith, string_eq.beq_iff "a" n, string_eq.beq_iff "b" n);
}

lonely_short : (get_nodes digest lonely "k" 2).1 ≡ false
unfolding get_nodes get_node_pos gen_key hash_val search collect_nodes lookup
lonely_short = refl

no_weight : lookup {K = String} {V = ℤ} [] "b" ≡ none
unfolding lookup
no_weight = refl

-- A node is added, another is updated, and the first is removed.
abbrev history : List Change
history = adds "c" (pos 2) ∷ updates "b" (pos 3) ∷ removes "a" ∷ []

changes-Weighs_example :
    Weighs digest
      (acts history (lookup (("a", pos 1) ∷ ("b", pos 1) ∷ [])))
      (changes digest history (new_with_weights digest (("a", pos 1) ∷ ("b", pos 1) ∷ [])))
changes-Weighs_example =
    changes-Weighs digest (("a", pos 1) ∷ ("b", pos 1) ∷ []) history (refl, (refl, tt))
      (tt, (tt, (tt, tt)))

get_node-add_node_example :
    (get_node digest (add_node digest (new_hash_ring digest ("a" ∷ [])) "b") "k"
      ≡ get_node digest (new_hash_ring digest ("a" ∷ [])) "k")
    ⊎ (get_node digest (add_node digest (new_hash_ring digest ("a" ∷ [])) "b") "k"
        ≡ some (some "b"))
get_node-add_node_example = get_node-add_node digest ("a" ∷ []) "b" "k" (λ p. omega (arith, p)) refl
