-- ===== src/Cluster/Selector.antt =====
-- hCluster/Selector.go, with `GenRandom` of hCommon/utils.go. The map's order of iteration is that of its
-- entries. `panics` stands for a run-time panic.
pub mod MinLoad
pub mod Query
pub mod Panics
pub mod Hosts
use happy.Base.{
  ℕ, zero, suc, ◌+◌, ◌-◌, String, Bool, true, false, not, ◌&&◌, ◌||◌, Option, none, some, List, [],
  ◌∷◌, ◌++◌, length, get_elem?, contains, ltb, ◌==◌, nat_eq, string_eq, if◌then◌else◌,
}
use happy.Base.Maps.{Map, lookup}
use happy.Cluster.Types.{NodeInfo, InquiryReply, Floats}
use happy.Cluster.Balancer.{Balancer, Balancers, Pools}

-- The loop of `GenRandom`, over the results of `r.Intn`: it draws until it has `count` numbers.
-- `none`: the draws have run out.
unfoldable pub draw_distinct : ℕ → ℕ → List ℕ → List ℕ → Option (List ℕ)
draw_distinct start count nums [] = if ltb (length nums) count then none else some nums
draw_distinct start count nums (draw ∷ draws) =
    let num = draw + start in
    let nums' = if contains nums num then nums else nums ++ num ∷ [] in
    let rest = draw_distinct start count nums' draws in
    if ltb (length nums) count then rest else some nums

-- `some none` is nil: the range, which takes in `end`, has fewer than `count` numbers.
unfoldable pub gen_random : ℕ → ℕ → ℕ → List ℕ → Option (Option (List ℕ))
unfolding draw_distinct
gen_random start end count draws =
    if ltb (end + 1) start || ltb (end + 1 - start) count
    then some none
    else elim (draw_distinct start count [] draws) [ none ↦ none | some nums ↦ some (some nums) ]

module _ {F D : Type 0} where
  -- The loop `for i, info := range this { if host == info.Node { return i } }`.
  unfoldable pub index_of : String → List (InquiryReply F D) → Option ℕ
  index_of host [] = none
  index_of host (r ∷ rs) =
      let rest = index_of host rs in
      if host == r.node then some 0 else elim rest [ none ↦ none | some i ↦ some (suc i) ]

  -- `CHashingBLW` and `SpecialIP`: the body of the test in `SpecialIP` is empty, so its loop returns 0
  -- in its first round.
  unfoldable pub c_hashing_blw : List (InquiryReply F D) → Option ℕ
  c_hashing_blw rs = some 0

  unfoldable pub special_ip : String → List (InquiryReply F D) → Option ℕ
  special_ip host [] = none
  special_ip host (r ∷ rs) = some 0

  -- `Random` with one draw: `none` is -1.
  unfoldable pub random : ℕ → List (InquiryReply F D) → Option ℕ
  unfolding gen_random
  random draw rs = elim (gen_random 0 (length rs) 1 (draw ∷ [])) [
    | some (some (num ∷ nums)) ↦ some num
    | _ ↦ none
  ]

  module _ (b : Balancer) where
    -- `Polling`: the host that the balancer names, if it is among the nodes.
    unfoldable pub polling : b.Pool → List (InquiryReply F D) → b.Pool × Option ℕ
    polling p rs =
        let (p', host) = b.balance p "" in (p', elim host [ none ↦ none | some h ↦ index_of h rs ])

    -- `P2C` and `CHashingBL`: the same with a key, and `Done(key)` deferred.
    unfoldable pub balanced : String → b.Pool → List (InquiryReply F D) → b.Pool × Option ℕ
    balanced key p rs =
        let (p', host) = b.balance p key in
        (b.done p' key, elim host [ none ↦ none | some h ↦ index_of h rs ])

pub data QueryError : Type 0 where
  no_available_node : QueryError
  no_node : QueryError
  index_missing : QueryError
  type_unknown : QueryError

pub data Outcome (F D : Type 0) : Type 0 where
  panics : Outcome F D
  answers : List (InquiryReply F D) → Option QueryError → Outcome F D

abbrev or_one : (num : Floats) → Option num.Float → num.Float
or_one num none = num.one
or_one num (some v) = v

module _ (num : Floats) {D : Type 0} where
  open num use {Float, one, load, le}

  unfoldable pub load_of : InquiryReply Float D → Float
  load_of r = load (or_one num (lookup r.info "cpu")) (or_one num (lookup r.info "mem"))

  -- The loop of `SelectMinLoad` from index `i`, with `min` and `index`; `none` is -1.
  unfoldable pub min_load_loop : ℕ → Float → Option ℕ → List (InquiryReply Float D) → Option ℕ
  unfolding load_of
  min_load_loop i min index [] = index
  min_load_loop i min index (r ∷ rs) =
      let sum = load_of r in
      let found = le sum min in
      min_load_loop (i + 1) (if found then sum else min) (if found then some i else index) rs

  unfoldable pub select_min_load : List (InquiryReply Float D) → Option ℕ
  unfolding min_load_loop
  select_min_load rs = min_load_loop 0 one none rs

  -- The first loop of `DoQuery`: the nodes of the application that have the role.
  unfoldable pub matches : NodeInfo Float D → String → String → Bool
  matches info app role = info.app_name == app && contains info.role role

  unfoldable pub reply_of : Bool → String × NodeInfo Float D → InquiryReply Float D
  reply_of detail (name, info) = record {
    node = name;
    info = if detail then info.info else [];
    custom_data = info.custom_data;
  }

  unfoldable pub collect :
      Bool → String → String → Map String (NodeInfo Float D) → List (InquiryReply Float D)
  unfolding matches reply_of
  collect detail app role [] = []
  collect detail app role ((name, info) ∷ rest) =
      let others = collect detail app role rest in
      if matches info app role then reply_of detail (name, info) ∷ others else others

  -- `reply = []*InquiryReply{reply[index]}`; an index out of range panics.
  unfoldable pub pick : List (InquiryReply Float D) → ℕ → Option QueryError → Outcome Float D
  pick rs i err = elim (get_elem? rs i) [ none ↦ panics | some r ↦ answers (r ∷ []) err ]

  -- The cases that report an index of -1, and the one that does not.
  unfoldable pub pick_or_fail :
      List (InquiryReply Float D) → Option ℕ → Option QueryError → Outcome Float D
  unfolding pick
  pick_or_fail rs none err = answers rs (some index_missing)
  pick_or_fail rs (some i) err = pick rs i err

  unfoldable pub pick_or_all :
      List (InquiryReply Float D) → Option ℕ → Option QueryError → Outcome Float D
  unfolding pick
  pick_or_all rs none err = answers rs err
  pick_or_all rs (some i) err = pick rs i err

  -- The error before the `switch`: nil once a node has matched.
  unfoldable pub found_error : List (InquiryReply Float D) → Option QueryError
  found_error [] = some no_node
  found_error (r ∷ rs) = none

  -- The cases of the `switch`: `Custom`, where `selector[0]` panics with no selector function, then
  -- `ConstHashingBoundLoadWithWeight` and `SpecialIp`, and below the three that use a balancer. `query[3]` of
  -- a shorter query panics.
  -- The index that the selector function returns; `none` stands for a negative one, which is out of range.
  unfoldable pub pick_custom :
      Option ℕ → List (InquiryReply Float D) → Option QueryError → Outcome Float D
  unfolding pick
  pick_custom none rs err = panics
  pick_custom (some i) rs err = pick rs i err

  unfoldable pub select_custom :
      List (List (InquiryReply Float D) → Option ℕ)
      → List (InquiryReply Float D)
      → Option QueryError
      → Outcome Float D
  unfolding pick_custom
  select_custom [] rs err = panics
  select_custom (f ∷ fs) rs err = pick_custom (f rs) rs err

  unfoldable pub select_keyed :
      List String
      → (String → Option ℕ)
      → List (InquiryReply Float D)
      → Option QueryError
      → Outcome Float D
  select_keyed query find rs err = elim (get_elem? query 3) [
    | none ↦ panics
    | some key ↦ pick_or_fail rs (find key) err
  ]

  module _ (lib : Balancers) where
    unfoldable pub select_p2c :
        List String
        → Pools lib
        → List (InquiryReply Float D)
        → Option QueryError
        → Pools lib × Outcome Float D
    select_p2c query p rs err = elim (get_elem? query 3) [
      | none ↦ (p, panics)
      | some key ↦
          let (q, i) = balanced lib.p2c key p.p2c rs in
          (record p { p2c = q }, pick_or_fail rs i err)
    ]

    unfoldable pub select_bounded :
        List String
        → Pools lib
        → List (InquiryReply Float D)
        → Option QueryError
        → Pools lib × Outcome Float D
    select_bounded query p rs err = elim (get_elem? query 3) [
      | none ↦ (p, panics)
      | some key ↦
          let (q, i) = balanced lib.bounded key p.bounded rs in
          (record p { bounded = q }, pick_or_fail rs i err)
    ]

    unfoldable pub select_polling :
        Pools lib → List (InquiryReply Float D) → Option QueryError → Pools lib × Outcome Float D
    select_polling p rs err =
        let (q, i) = polling lib.r2 p.r2 rs in (record p { r2 = q }, pick_or_fail rs i err)

    module _ (selector : List (List (InquiryReply Float D) → Option ℕ)) (draw : ℕ) where
      unfoldable pub select :
          List String
          → String
          → Pools lib
          → List (InquiryReply Float D)
          → Option QueryError
          → Pools lib × Outcome Float D
      select query typ p rs err =
          if typ == "MinLoad"
          then (p, pick_or_all rs (select_min_load rs) err)
          else if typ == "Group"
          then (p, answers rs err)
          else if typ == "Custom"
          then (p, select_custom selector rs err)
          else if typ == "Default" || typ == "Random"
          then (p, pick_or_fail rs (random draw rs) err)
          else if typ == "Polling"
          then select_polling p rs err
          else if typ == "P2C"
          then select_p2c query p rs err
          else if typ == "ConstHashingBoundLoad"
          then select_bounded query p rs err
          else if typ == "ConstHashingBoundLoadWithWeight"
          then (p, select_keyed query (λ key. c_hashing_blw rs) rs err)
          else if typ == "SpecialIp"
          then (p, select_keyed query (λ key. special_ip key rs) rs err)
          else (p, answers rs (some type_unknown))

      -- `DoQuery`: a query has an application, a role and a selection type, and a key for some types.
      unfoldable pub do_query :
          Map String (NodeInfo Float D)
          → Pools lib
          → List String
          → Bool
          → Pools lib × Outcome Float D
      do_query nodes p (app ∷ role ∷ typ ∷ keys) detail =
          let rs = collect detail app role nodes in
          if typ == ""
          then (p, answers [] (some no_available_node))
          else select (app ∷ role ∷ typ ∷ keys) typ p rs (found_error rs)
      do_query nodes p _ detail = (p, answers [] (some no_available_node))
