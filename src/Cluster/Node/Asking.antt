-- ===== src/Cluster/Node/Asking.antt =====
-- What the queries of hCluster/NodeComponent.go find, with the selector of the master and of the location servers
-- behind them.
use happy.Base.{
  ℕ, ◌≡◌, ◌⊎◌, inl, inr, sym, ap, ◌∙◌, subst, String, Bool, true, false, Option, none, some, List,
  [], ◌∷◌, All, contains, arith, string_eq,
}
use happy.Base.Maps.{Map, lookup, IsMap}
use happy.Cluster.Types.{NodeInfo, InquiryReply, Floats}
use happy.Cluster.Balancer.{Balancers, Pools}
use happy.Cluster.Selector.{Outcome, panics, answers, found_error, do_query}
use happy.Cluster.Selector.Query.{
  Answered, IsWanted, names, is_wanted, do_query-IsWanted, do_query-group,
}
use happy.Cluster.NodeGroup
use happy.Cluster.NodeGroup.{Choice, fails, chosen}
use happy.Cluster.Node.{Node, or_fail, get_node, get_node_group_from_master, get_node_group}
use happy.Cluster.Node.Choosing.{Chooses, Asks, Honest, get_node-Chooses}

pub get_node_group_asks :
    {L C F D : Type 0} (ask : L → List String → Option (List (InquiryReply F D)))
    (ask_master : List String → Option (List (InquiryReply F D))) (app role : String) (draw : ℕ)
    (n : Node L C)
    → n.is_online ≡ true
    → n.is_location_mode ≡ false
    → (get_node_group app ask draw ask_master true role n).1
      ≡ or_fail (ask_master (app ∷ role ∷ "Group" ∷ []))
unfolding get_node_group get_node_group_from_master
get_node_group_asks ask ask_master app role draw n on off = ground (arith, on, off)

-- The answer of a server that selects from a map of nodes: an error where `DoQuery` gives one or panics.
abbrev pub served : {F D : Type 0} → Outcome F D → Option (List (InquiryReply F D))
served panics = none
served (answers rs none) = some rs
served (answers rs (some err)) = none

module _ (num : Floats) {D : Type 0} (lib : Balancers) where
  open num use {Float}

  abbrev pub inquire :
      Map String (NodeInfo Float D)
      → Pools lib
      → ℕ
      → List String
      → Option (List (InquiryReply Float D))
  inquire nodes p draw args = served (do_query num lib [] draw nodes p args false).1

  -- A node of the map with the application and the role.
  abbrev pub Serves : Map String (NodeInfo Float D) → String → String → String → Type 0
  Serves nodes app role name =
      (info : NodeInfo Float D) × (lookup nodes name ≡ some info)
      × (info.app_name ≡ app)
      × (contains info.role role ≡ true)

  served-All :
      (P : InquiryReply Float D → Type 0) (o : Outcome Float D) (rs : List (InquiryReply Float D))
      → Answered P o
      → served o ≡ some rs
      → All P rs
  served-All P panics rs h e = absurd (cc)
  served-All P (answers qs none) rs h e = subst (All P) (cc) h
  served-All P (answers qs (some err)) rs h e = absurd (cc)

  All-Serves :
      (nodes : Map String (NodeInfo Float D)) (app role : String) (Q : String → Type 0)
      (q : (name : String) → Serves nodes app role name → Q name) (rs : List (InquiryReply Float D))
      → All (IsWanted num false app role nodes) rs
      → All (λ r. Q r.node) rs
  All-Serves nodes app role Q q [] h = tt
  All-Serves nodes app role Q q (r ∷ rs) h = (
    let (info, at, name, has, i, d) = h.0 in q r.node (info, at, name, has),
    All-Serves nodes app role Q q rs h.1,
  )

  inquire-Honest :
      (nodes : Map String (NodeInfo Float D)) (p : Pools lib) (draw : ℕ) (app role : String)
      (Q : String → Type 0)
      → ((name : String) → Serves nodes app role name → Q name)
      → IsMap nodes
      → Honest Q (inquire nodes p draw) app role
  unfolding do_query
  inquire-Honest nodes p draw app role Q q d [] rs e = absurd (let bad : none ≡ some rs = e in cc)
  inquire-Honest nodes p draw app role Q q d (typ ∷ params) rs e =
      All-Serves nodes app role Q q rs (
        served-All (IsWanted num false app role nodes)
          (do_query num lib [] draw nodes p (app ∷ role ∷ typ ∷ params) false).1 rs
          (do_query-IsWanted num lib [] draw nodes p app role typ params false d) e)

  -- The node that GetNode finds, if it finds one, has the application and the role: either in the map of the location
  -- server that the number `draw` picks among the node's location clients, in location mode, or in the map of the
  -- master; whatever the selection types, the balancers of each server and the numbers that each server draws. Any other
  -- result is an error or a panic. The condition is that the nodes of every server are a map.
  pub get_node-Serves :
      {L C : Type 0} (known : L → Map String (NodeInfo Float D)) (pools : L → Pools lib)
      (draws : L → ℕ) (nodes : Map String (NodeInfo Float D)) (p : Pools lib) (app role : String)
      (draw draw_master : ℕ) (connects : Bool) (ts : List String) (n : Node L C)
      → ((c : L) → IsMap (known c))
      → IsMap nodes
      → Chooses
          (λ name.
            ((c : L) × Asks n draw c × Serves (known c) app role name) ⊎ Serves nodes app role name)
          (get_node app
            (λ c. inquire (known c) (pools c) (draws c))
            draw
            (inquire nodes p draw_master)
            connects
            role
            ts
            n).1
  get_node-Serves known pools draws nodes p app role draw draw_master connects ts n d e =
      let P : String → Type 0 = λ name.
        ((c : _) × Asks n draw c × Serves (known c) app role name) ⊎ Serves nodes app role name in
      get_node-Chooses P app role (λ c. inquire (known c) (pools c) (draws c)) draw
        (inquire nodes p draw_master) connects ts n
        (λ c asks.
          inquire-Honest (known c) (pools c) (draws c) app role P (λ name s. inl (c, asks, s))
            (d c))
        (inquire-Honest nodes p draw_master app role P (λ name s. inr s) e)

  -- What a group says of the nodes that are wanted.
  abbrev pub IsGroup :
      Map String (NodeInfo Float D)
      → String
      → String
      → Choice (List (InquiryReply Float D))
      → Type 0
  IsGroup nodes app role fails = (name : String) → is_wanted num app role nodes name ≡ false
  IsGroup nodes app role NodeGroup.panics = ⊥
  IsGroup nodes app role (chosen rs) =
      (name : String) → contains (names rs) name ≡ is_wanted num app role nodes name

  found-IsGroup :
      (nodes : Map String (NodeInfo Float D)) (app role : String) (rs : List (InquiryReply Float D))
      → ((name : String) → contains (names rs) name ≡ is_wanted num app role nodes name)
      → IsGroup nodes app role (or_fail (served (answers rs (found_error num rs))))
  unfolding found_error
  found-IsGroup nodes app role [] h = λ name. sym (h name)
  found-IsGroup nodes app role (r ∷ rs) h = h

  -- Without a location server, GetNodeGroup of a node that is online and reaches the master is the group of all the
  -- nodes of the application with the role and of no others, or an error if there is none.
  pub get_node_group-IsGroup :
      {L C : Type 0} (ask : L → List String → Option (List (InquiryReply Float D)))
      (nodes : Map String (NodeInfo Float D)) (p : Pools lib) (app role : String) (draw : ℕ)
      (n : Node L C)
      → n.is_online ≡ true
      → n.is_location_mode ≡ false
      → IsMap nodes
      → IsGroup nodes app role (get_node_group app ask draw (inquire nodes p draw) true role n).1
  get_node_group-IsGroup ask nodes p app role draw n on off d =
      let (rs, e, same) = do_query-group num lib [] draw nodes p app role false d in
      subst (IsGroup nodes app role)
        (sym (
          get_node_group_asks ask (inquire nodes p draw) app role draw n on off
          ∙ ap (λ r. or_fail (served r.1)) e))
        (found-IsGroup nodes app role rs same)
