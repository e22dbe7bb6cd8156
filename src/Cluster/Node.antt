-- ===== src/Cluster/Node.antt =====
-- hCluster/NodeComponent.go: how a node finds other nodes and keeps connections to them. A call of a server is a
-- function from its arguments; `none` is a call that fails. The RPC server of the node is not modelled.
pub mod Asking
pub mod Choosing
pub mod Clients
pub mod Connecting
use happy.Base.{
  ℕ, zero, suc, ◌+◌, ◌-◌, String, Bool, true, false, not, ◌&&◌, Option, none, some, List, [], ◌∷◌,
  ◌++◌, get_elem?, ltb, ◌==◌, nat_eq, string_eq, if◌then◌else◌,
}
use happy.Base.Maps.{Map, lookup, insert, delete, is_some}
use happy.Cluster.Types.{InquiryReply}
use happy.Cluster.NodeGroup.{Choice, fails, panics, chosen, nodes, clients}

-- `L` are the clients of location servers, `C` those of other nodes. `location_clients` is nil at first.
pub record Node (L C : Type 0) : Type 0 where
  pub is_online : Bool
  pub is_location_mode : Bool
  pub location_clients : Option (List L)
  pub rpc_client : Map String C
  pub client_getting : Map String ℕ

-- `args[2+i] = selectorType[i]`: one type too many is a panic.
unfoldable pub overlay : List String → List String → Option (List String)
overlay [] args = some args
overlay (t ∷ ts) [] = none
overlay (t ∷ ts) (a ∷ args) = elim (overlay ts args) [ none ↦ none | some rest ↦ some (t ∷ rest) ]

unfoldable pub query_args : String → String → List String → Option (List String)
unfolding overlay
query_args app role selector_types = elim (overlay selector_types ("Default" ∷ "" ∷ [])) [
  | none ↦ none
  | some rest ↦ some (app ∷ role ∷ rest)
]

-- `locationBroken`; the getter that it starts is below.
unfoldable pub location_broken : {L C : Type 0} → Node L C → Node L C
location_broken n = record n { location_clients = none }

-- The first node of a reply.
abbrev pub first_of : {F D : Type 0} → List (InquiryReply F D) → Choice String
first_of [] = fails
first_of (r ∷ rs) = chosen r.node

abbrev pub or_fail : {A : Type 0} → Option A → Choice A
or_fail none = fails
or_fail (some a) = chosen a

-- `or_else a b`: the second where the first is an error.
abbrev pub or_else : {A : Type 0} → Choice A → Choice A → Choice A
or_else fails d = d
or_else panics d = panics
or_else (chosen a) d = chosen a

abbrev pub asked_master :
    {F D : Type 0}
    → (List String → Option (List (InquiryReply F D)))
    → Option (List String)
    → Choice String
asked_master ask none = panics
asked_master ask (some args) = elim (ask args) [ none ↦ fails | some rs ↦ first_of rs ]

abbrev pub keep_clients : {L C : Type 0} → Choice (List L) → Node L C → Node L C × Bool
keep_clients (chosen cs) n = (record n { location_clients = some cs }, true)
keep_clients fails n = (n, false)
keep_clients panics n = (n, false)

module _ {L C F D : Type 0} (app : String)
    (ask_location : L → List String → Option (List (InquiryReply F D))) (draw : ℕ) where
  -- A location server at random: `none` is a panic of `rand.Intn`, which no list of clients that is kept gives.
  abbrev pub asked_location : Option (List String) → L → Node L C → Node L C × Choice String
  asked_location none c n = (n, panics)
  asked_location (some args) c n = elim (ask_location c args) [
    | none ↦ (location_broken n, fails)
    | some rs ↦ (n, first_of rs)
  ]

  unfoldable pub get_node_from_location : String → List String → Node L C → Node L C × Choice String
  unfolding query_args location_broken
  get_node_from_location role selector_types n = elim (n.location_clients) [
    | none ↦ (n, fails)
    | some cs ↦ elim (get_elem? cs draw) [
      | none ↦ (n, panics)
      | some c ↦ asked_location (query_args app role selector_types) c n
    ]
  ]

  unfoldable pub get_node_group_from_location :
      String → Node L C → Node L C × Choice (List (InquiryReply F D))
  unfolding location_broken
  get_node_group_from_location role n = elim (n.location_clients) [
    | none ↦ (n, fails)
    | some cs ↦ elim (get_elem? cs draw) [
      | none ↦ (n, panics)
      | some c ↦ elim (ask_location c (app ∷ role ∷ "Group" ∷ [])) [
        | none ↦ (location_broken n, fails)
        | some rs ↦ (n, chosen rs)
      ]
    ]
  ]

-- `ask_master` is a call of the master, with the connection to it that `GetNodeClient` makes.
module _ {L C F D : Type 0} (app : String)
    (ask_master : List String → Option (List (InquiryReply F D))) where
  -- The panic of too many types comes after the connection is made; `connects` says whether it is.
  unfoldable pub get_node_from_master : Bool → String → List String → Node L C → Choice String
  unfolding query_args
  get_node_from_master connects role selector_types n =
      if n.is_online
      then if connects then asked_master ask_master (query_args app role selector_types) else fails
      else fails

  unfoldable pub get_node_group_from_master :
      Bool → String → Node L C → Choice (List (InquiryReply F D))
  get_node_group_from_master connects role n =
      if n.is_online
      then if connects then or_fail (ask_master (app ∷ role ∷ "Group" ∷ [])) else fails
      else fails

  -- A round of the getter of `InitLocationServerGetter`; the Boolean is false if it tries again a second later.
  unfoldable pub location_round : Bool → (String → Option L) → Node L C → Node L C × Bool
  unfolding get_node_group_from_master clients
  location_round connects client_of n =
      if n.is_online
      then (elim (get_node_group_from_master connects "location" n) [
        | chosen [] ↦ (n, false)
        | chosen (r ∷ rs) ↦ keep_clients (clients client_of (r ∷ rs)) n
        | fails ↦ (n, false)
        | panics ↦ (n, false)
      ])
      else (n, false)

module _ {L C F D : Type 0} (app : String)
    (ask_location : L → List String → Option (List (InquiryReply F D))) (draw : ℕ)
    (ask_master : List String → Option (List (InquiryReply F D))) where
  unfoldable pub get_node : Bool → String → List String → Node L C → Node L C × Choice String
  unfolding get_node_from_location get_node_from_master
  get_node connects role selector_types n =
      if n.is_location_mode
      then (let (n', found) = get_node_from_location app ask_location draw role selector_types n in
          (n', or_else found (get_node_from_master app ask_master connects role selector_types n')))
      else (n, get_node_from_master app ask_master connects role selector_types n)

  unfoldable pub get_node_group :
      Bool → String → Node L C → Node L C × Choice (List (InquiryReply F D))
  unfolding get_node_group_from_location get_node_group_from_master
  get_node_group connects role n =
      if n.is_location_mode
      then (let (n', found) = get_node_group_from_location app ask_location draw role n in
          (n', or_else found (get_node_group_from_master app ask_master connects role n')))
      else (n, get_node_group_from_master app ask_master connects role n)
