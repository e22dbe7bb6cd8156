-- ===== src/HashRing.antt =====
-- hCommon/hashring.go: the consistent-hash ring. The digest (crypto/md5) is a parameter: sixteen bytes
-- to a text. `none` is a run-time panic, an index out of range.
pub mod WellFormed
pub mod Lookup
pub mod Nodes
pub mod Update
pub mod Weights
pub mod Changes
pub mod Uniform
pub mod Consistency
mod Examples
use Prim.Native.Nat.{bit_or}
use Prim.Native.String.{◌++◌ as str_append}
use happy.Base.{
  ℕ, zero, suc, ◌+◌, ◌*◌, ◌/◌, ◌%◌, ◌^◌, String, Bool, true, false, not, ◌||◌, Option, none, some,
  List, [], ◌∷◌, ◌++◌, length, get_elem?, get_or, take, drop, contains, ltb, if◌then◌else◌, ◌==◌,
  nat_eq, string_eq,
}
use happy.Base.Int.{ℤ, pos, negsuc, ◌+ℤ◌, scale, leb_ℤ, int_eq}
use happy.Base.Maps.{Map, keys, lookup, insert, delete}
use happy.Base.Sort.{search, sort}
use happy.Base.Text.{itoa}

-- `HashKey` is a uint32.
abbrev pub HashKey : Type 0
HashKey = ℕ

pub record HashRing : Type 0 where
  pub ring : Map HashKey String
  pub sorted_keys : List HashKey
  pub nodes : List String
  pub weights : Map String ℤ

-- `HashKey(b) << k` in 32 bits
abbrev shl32 : ℕ → ℕ → ℕ
shl32 b k = b * 2 ^ k % 2 ^ 32

-- Four bytes, the least significant first.
unfoldable pub hash_val : List ℕ → HashKey
hash_val b_key =
    bit_or
      (bit_or (bit_or (shl32 (get_or b_key 3 0) 24) (shl32 (get_or b_key 2 0) 16))
        (shl32 (get_or b_key 1 0) 8))
      (get_or b_key 0 0)

-- A missing key of a Go map reads as the zero value.
abbrev pub or_empty : Option String → String
or_empty none = ""
or_empty (some s) = s

abbrev pub or_one : Option ℤ → ℤ
or_one none = pos 1
or_one (some w) = w

-- The first loop of `generateCircle`.
unfoldable pub total_weight : Map String ℤ → List String → ℤ
total_weight weights [] = pos 0
total_weight weights (node ∷ rest) = or_one (lookup weights node) +ℤ total_weight weights rest

-- `int(math.Floor(float64(a) / float64(b)))` as the bound of a loop from 0: no round where the quotient
-- is negative or not a number (int of NaN and of an infinity is the least int64).
unfoldable pub quotient : ℤ → ℤ → ℕ
quotient (pos a) (pos zero) = 0
quotient (pos a) (pos (suc b)) = a / suc b
quotient (negsuc a) (negsuc b) = suc a / suc b
quotient _ _ = 0

unfoldable pub factor : Map String ℤ → List String → String → ℕ
unfolding total_weight quotient scale
factor weights nodes node =
    quotient (scale (40 * length nodes) (or_one (lookup weights node))) (total_weight weights nodes)

-- The two fields that the loops of `generateCircle` write.
pub record Circle : Type 0 where
  pub ring : Map HashKey String
  pub sorted_keys : List HashKey

abbrev pub no_circle : Circle
no_circle = record { ring = []; sorted_keys = [] }

unfoldable pub add_key : Circle → HashKey → String → Circle
add_key c key node = record {
  ring = insert c.ring key node;
  sorted_keys = c.sorted_keys ++ key ∷ [];
}

-- `!ok || oldWeight != newWeight` for some entry of the new weights
unfoldable pub some_changed : Map String ℤ → Map String ℤ → Bool
some_changed old [] = false
some_changed old ((node, new_weight) ∷ rest) =
    elim (lookup old node) [ none ↦ true | some w ↦ not (w == new_weight) ] || some_changed old rest

unfoldable pub above : List HashKey → HashKey → ℕ → Bool
above nodes key i = ltb key (get_or nodes i 0)

-- `none` is a panic; `some none` is `("", false)`.
unfoldable pub owner : HashRing → ℕ → Option (Option String)
owner h idx = elim (get_elem? h.sorted_keys idx) [
  | none ↦ none
  | some key ↦ some (some (or_empty (lookup h.ring key)))
]

-- The loop of `GetNodes`, with the rounds left and `i`. `returnedValues` holds just the nodes in
-- `resultSlice`, so one list stands for both. `i % len` is in range: the loop runs `len` rounds.
unfoldable pub collect_nodes : HashRing → ℕ → ℕ → ℕ → List String → List String
collect_nodes h size zero i result = result
collect_nodes h size (suc left) i result =
    let key = get_or h.sorted_keys (i % length h.sorted_keys) 0 in
    let val = or_empty (lookup h.ring key) in
    let result' = if contains result val then result else result ++ val ∷ [] in
    let more = collect_nodes h size left (i + 1) result' in
    if length result' == size then result' else more

abbrev pub is_unchanged : Option ℤ → ℤ → Bool
is_unchanged none weight = true
is_unchanged (some old_weight) weight = old_weight == weight

unfoldable pub without : List String → String → List String
without [] node = []
without (e_node ∷ rest) node =
    let kept = without rest node in if e_node == node then kept else e_node ∷ kept

module _ (digest : String → List ℕ) where
  -- bKey[i*4 : i*4+4]
  unfoldable pub replica_key : String → ℕ → ℕ → HashKey
  unfolding hash_val itoa
  replica_key node j i =
      hash_val (take 4 (drop (i * 4) (digest (str_append node (str_append "-" (itoa j))))))

  -- `for j := 0; j < factor; j++`, with the rounds left and `j`; the inner loop is written out.
  unfoldable pub add_replicas : ℕ → ℕ → String → Circle → Circle
  unfolding add_key replica_key
  add_replicas zero j node c = c
  add_replicas (suc left) j node c = add_replicas left (j + 1) node (
      add_key (add_key (add_key c (replica_key node j 0) node) (replica_key node j 1) node)
        (replica_key node j 2) node)

  unfoldable pub add_nodes : Map String ℤ → List String → List String → Circle → Circle
  unfolding add_replicas factor
  add_nodes weights nodes [] c = c
  add_nodes weights nodes (node ∷ rest) c =
      add_nodes weights nodes rest (add_replicas (factor weights nodes node) 0 node c)

  unfoldable pub generate_circle : HashRing → HashRing
  unfolding add_nodes sort
  generate_circle h =
      let c =
        add_nodes h.weights h.nodes h.nodes
          (record { ring = h.ring; sorted_keys = h.sorted_keys }) in
      record h { ring = c.ring; sorted_keys = sort c.sorted_keys }

  -- `&HashRing{…}` with empty maps, then `generateCircle`: the end of every constructor.
  unfoldable pub build : List String → Map String ℤ → HashRing
  unfolding generate_circle
  build nodes weights =
      generate_circle (record { ring = []; sorted_keys = []; nodes = nodes; weights = weights })

  unfoldable pub new_hash_ring : List String → HashRing
  new_hash_ring nodes = build nodes []

  unfoldable pub new_with_weights : Map String ℤ → HashRing
  new_with_weights weights = build (keys weights) weights

  unfoldable pub update_with_weights : HashRing → Map String ℤ → HashRing
  update_with_weights h weights =
      if not (length weights == length h.weights)
      then new_with_weights weights
      else if some_changed h.weights weights
      then new_with_weights weights
      else h

  unfoldable pub gen_key : String → HashKey
  unfolding hash_val
  gen_key key = hash_val (take 4 (digest key))

  -- `some none` is `(0, false)`. The test reads only indices below the length.
  unfoldable pub get_node_pos : HashRing → String → Option ℕ
  unfolding above
  get_node_pos h string_key =
      let idx = search (length h.sorted_keys) (above h.sorted_keys (gen_key string_key)) in
      if length h.ring == 0 then none else if idx == length h.sorted_keys then some 0 else some idx

  unfoldable pub get_node : HashRing → String → Option (Option String)
  unfolding get_node_pos owner
  get_node h string_key = elim (get_node_pos h string_key) [
    | none ↦ some none
    | some idx ↦ owner h idx
  ]

  unfoldable pub get_nodes : HashRing → String → ℕ → List String × Bool
  get_nodes h string_key size = elim (get_node_pos h string_key) [
    | none ↦ ([], false)
    | some idx ↦
        if ltb (length h.nodes) size
        then ([], false)
        else let result = collect_nodes h size (length h.sorted_keys) idx [] in
          (result, length result == size)
  ]

  unfoldable pub add_weighted_node : HashRing → String → ℤ → HashRing
  add_weighted_node h node weight =
      if leb_ℤ weight (pos 0)
      then h
      else if contains h.nodes node
      then h
      else build (h.nodes ++ node ∷ []) (insert h.weights node weight)

  unfoldable pub add_node : HashRing → String → HashRing
  unfolding add_weighted_node
  add_node h node = add_weighted_node h node (pos 1)

  unfoldable pub update_weighted_node : HashRing → String → ℤ → HashRing
  update_weighted_node h node weight =
      if leb_ℤ weight (pos 0)
      then h
      else if is_unchanged (lookup h.weights node) weight
      then h
      else build h.nodes (insert h.weights node weight)

  unfoldable pub remove_node : HashRing → String → HashRing
  remove_node h node =
      let nodes = without h.nodes node in
      if length nodes == length h.nodes then h else build nodes (delete h.weights node)
