-- ===== src/HashRing/Lookup.antt =====
-- The lookups of hCommon/hashring.go: `GetNodePos`, `GetNode`.
use happy.Base.{
  ℕ, ◌≤◌, ◌<◌, ◌≡◌, ◌≢◌, ◌⊎◌, refl, sym, ◌∙◌, String, true, none, some, List, [], ◌∷◌, length,
  get_or, get_elem?-eq-get_or, get_elem?_in, contains, contains-get, ◌==◌, nat_eq, string_eq,
  ==_self, ==→≡, ==→≢, ltb→le, ltb→lt, if◌then◌else◌, arith, inl, inr, Bool-cases, Option-cases,
}
use happy.Base.Maps.{Map, is_some, lookup}
use happy.Base.Sort.{IsSorted, IsSorted-get, IsMonotone, Splits, search, search-Splits}
use happy.HashRing.{HashRing, HashKey, get_node_pos, get_node, gen_key, above, owner}
use happy.HashRing.WellFormed.{IsWellFormed}

above-IsMonotone :
    (xs : List HashKey) (key : HashKey) → IsSorted xs → IsMonotone (above xs key) (length xs)
unfolding above
above-IsMonotone xs key s a b h lt e = ground (
  arith,
  IsSorted-get xs a b s h (get_elem?-eq-get_or xs a 0 (omega arith))
      (get_elem?-eq-get_or xs b 0 lt),
)

-- `r` is the first of the keys above `key`, or the first of all if no key is above it.
abbrev pub IsSuccessor : List HashKey → HashKey → ℕ → Type 0
IsSuccessor xs key r =
    ((key < get_or xs r 0) × ((i : ℕ) → i < r → get_or xs i 0 ≤ key))
    ⊎ ((r ≡ 0) × ((i : ℕ) → i < length xs → get_or xs i 0 ≤ key))

occupied_keys :
    (m : Map HashKey String) (ks : List HashKey)
    → ((k : HashKey) → contains ks k ≡ is_some (lookup m k))
    → length m ≢ 0
    → 0 < length ks
unfolding lookup
occupied_keys [] ks owned ne = absurd (ne refl)
occupied_keys ((k, n) ∷ m) [] owned ne = ground (arith, owned k, ==_self k)
occupied_keys (kn ∷ m) (k ∷ ks) owned ne = omega arith

module _ (digest : String → List ℕ) (h : HashRing) (v : IsWellFormed h) where
  search-IsSuccessor :
      (key : HashKey) (r : ℕ)
      → 0 < length h.sorted_keys
      → Splits (above h.sorted_keys key) (length h.sorted_keys) r
      → (if r == length h.sorted_keys then 0 else r) < length h.sorted_keys
        × IsSuccessor h.sorted_keys key (if r == length h.sorted_keys then 0 else r)
  unfolding above
  search-IsSuccessor key r ne s = elim (Bool-cases (r == length h.sorted_keys)) [
    | inl end ↦
        rw end
          (ne, inr (refl, λ i lt. ltb→le key (get_or h.sorted_keys i 0) (s.1 i (ground arith))))
    | inr inside ↦ rw inside (
      ground arith,
      inl (
        ltb→lt key _ (s.2 r (omega arith) (ground arith)),
        λ i lt. ltb→le key (get_or h.sorted_keys i 0) (s.1 i lt),
      ),
    )
  ]

  -- On a ring with keys the position is in range, and it is the clockwise successor of the text's key,
  -- around the end to the first key if none is larger.
  pub get_node_pos-IsSuccessor :
      (s : String)
      → length h.ring ≢ 0
      → (r : ℕ) × (get_node_pos digest h s ≡ some r)
        × (r < length h.sorted_keys)
        × IsSuccessor h.sorted_keys (gen_key digest s) r
  unfolding get_node_pos
  get_node_pos-IsSuccessor s ne =
      let key = gen_key digest s in
      let idx = search (length h.sorted_keys) (above h.sorted_keys key) in
      let found =
        search-IsSuccessor key idx (occupied_keys h.ring h.sorted_keys v.owned ne)
          (search-Splits _ _ (above-IsMonotone h.sorted_keys key v.sorted)) in
      (if idx == length h.sorted_keys then 0 else idx, ground arith, found.0, found.1)

  get_node_pos_empty : (s : String) → (length h.ring == 0) ≡ true → get_node_pos digest h s ≡ none
  unfolding get_node_pos
  get_node_pos_empty s empty = rw empty refl

  owner-member :
      (r : ℕ)
      → r < length h.sorted_keys
      → (n : String) × (owner h r ≡ some (some n)) × (contains h.nodes n ≡ true)
  unfolding owner
  owner-member r lt =
      let (key, at) = get_elem?_in h.sorted_keys r lt in
      let held : is_some (lookup h.ring key) ≡ true =
        sym (v.owned key) ∙ contains-get h.sorted_keys r at in
      elim (Option-cases (lookup h.ring key)) [
        | inl e ↦ cc (rw e at held)
        | inr (n, e) ↦ (n, rw (at, owner, e) refl, v.member key n e)
      ]

  -- `GetNode` never panics: it answers `false` exactly on a ring without keys, and otherwise it returns
  -- one of the ring's nodes.
  pub get_node-member :
      (s : String)
      → ((length h.ring ≡ 0) × (get_node digest h s ≡ some none))
        ⊎ ((n : String) × (get_node digest h s ≡ some (some n)) × (contains h.nodes n ≡ true))
  unfolding get_node
  get_node-member s = elim (Bool-cases (length h.ring == 0)) [
    | inl empty ↦ inl (==→≡ _ _ empty, rw (get_node_pos_empty s empty, get_node) refl)
    | inr full ↦
        let (r, e, lt, _) = get_node_pos-IsSuccessor s (==→≢ _ _ full) in
        let (n, o, m) = owner-member r lt in inr (n, rw (e, get_node) o, m)
  ]
