-- ===== src/Gate.antt =====
-- The gates of package hBaseComponent: the requests that hBaseComponent/SelectGateComponent.go answers, and how
-- hBaseComponent/DefaultGateComponent.go counts its sessions to close. What the calls of other nodes give is a parameter.
-- The pages and the logs are not modelled.
pub mod Choosing
pub mod Closing
mod Examples
use happy.Base.{
  ℕ, zero, suc, ◌+◌, ◌-◌, ◌<◌, String, Bool, true, false, not, ◌&&◌, Option, none, some, List, [],
  ◌∷◌, ◌++◌, ltb, ◌==◌, nat_eq, string_eq, ◌≡◌, if◌then◌else◌,
}
use happy.Base.Maps.{Map, lookup}
use happy.Cluster.Types.{InquiryReply, Floats}
use happy.Cluster.NodeGroup
use happy.Cluster.NodeGroup.{Choice, fails, chosen, select_one_node_info}

-- What a request comes to: 405, an error or a message in the body, an address, or a panic, which the router recovers.
pub data Response : Type 0 where
  not_allowed : Response
  error : Response
  address : String → Response
  message : String → Response
  panics : Response

-- The address of a gate: `nodeInfoDetail.CustomData["netAddr"].(string)`.
unfoldable pub address_of : {F D : Type 0} → (D → Option String) → InquiryReply F D → Response
unfolding lookup
address_of as_text r = elim (lookup r.custom_data "netAddr") [
  | none ↦ panics
  | some d ↦ elim (as_text d) [ none ↦ panics | some addr ↦ address addr ]
]

module _ (num : Floats) {D : Type 0} (as_text : D → Option String) where
  open num use {Float}

  -- The end of `getUsableGate`: where no gate is selected an error is written, and then nil is read.
  abbrev pub usable : Choice (InquiryReply Float D) → Response
  usable fails = panics
  usable NodeGroup.panics = panics
  usable (chosen r) = address_of as_text r

  abbrev pub usable_of : ℕ → Choice (List (InquiryReply Float D)) → Response
  usable_of draw fails = error
  usable_of draw NodeGroup.panics = panics
  usable_of draw (chosen rs) = usable (select_one_node_info num draw "MinLoad" rs)

  -- `group` is what `GetNodeGroup("gate")` gives.
  unfoldable pub get_usable_gate : String → ℕ → Choice (List (InquiryReply Float D)) → Response
  unfolding select_one_node_info address_of
  get_usable_gate method draw group = if method == "POST" then usable_of draw group else not_allowed

-- `GetMasterClient`: the client is kept, and not asked whether it is still open.
unfoldable pub get_master_client : {C : Type 0} → Option C → Option C → Option C
get_master_client none connected = connected
get_master_client (some master) connected = some master

-- What `closeOnLineNode` calls, with the result of each: the status is set before the node is told.
pub data Call : Type 0 where
  set_node_status : String → String → Call
  close_self : String → String → Call

module _ (master : Option (Unit {0})) (set_status : Option (Unit {0})) (client : Option (Unit {0}))
    (tell : Option (Unit {0})) where
  abbrev pub tell_node : String → String → List Call × Response
  tell_node name addr = elim client [
    | none ↦ (set_node_status addr "WebClose" ∷ [], error)
    | some c ↦ elim tell [
      | none ↦ (set_node_status addr "WebClose" ∷ close_self addr name ∷ [], error)
      | some r ↦ (set_node_status addr "WebClose" ∷ close_self addr name ∷ [], message "ok")
    ]
  ]

  abbrev pub close_node : String → Option String → List Call × Response
  close_node name none = ([], message "no exists")
  close_node name (some addr) = elim master [
    | none ↦ ([], error)
    | some m ↦ elim set_status [
      | none ↦ (set_node_status addr "WebClose" ∷ [], error)
      | some r ↦ tell_node name addr
    ]
  ]

  -- `closeOnLineNode`; `node_define` has the address of each node that is configured.
  unfoldable pub close_online_node : String → String → Map String String → List Call × Response
  unfolding lookup
  close_online_node method name node_define =
      if method == "POST" then close_node name (lookup node_define name) else ([], not_allowed)

-- The sessions of a gate: `accept_num`, the flag that `CheckClose` sets, how many sessions have been counted off and
-- have yet to run the deferred function of `OnDropped`, and the calls of Add and Done of the wait group.
pub record Sessions : Type 0 where
  pub accept_num : ℕ
  pub is_close_server : Bool
  pub dropping : ℕ
  pub added : ℕ
  pub done : ℕ

unfoldable pub on_connected : Sessions → Sessions
on_connected g = record g { accept_num = g.accept_num + 1 }

unfoldable pub on_dropped : Sessions → Sessions
on_dropped g = record g { accept_num = g.accept_num - 1; dropping = g.dropping + 1 }

-- The deferred function.
unfoldable pub on_dropped_end : Sessions → Sessions
on_dropped_end g =
    if g.is_close_server && g.accept_num == 0
    then record g { dropping = g.dropping - 1; done = g.done + 1 }
    else record g { dropping = g.dropping - 1 }

unfoldable pub check_close : Sessions → Sessions
check_close g = record g {
  is_close_server = true;
  added = if ltb 0 g.accept_num then g.added + 1 else g.added;
}

pub data Step : Sessions → Sessions → Type 0 where
  connects : (g : Sessions) → Step g (on_connected g)
  drops : (g : Sessions) → 0 < g.accept_num → Step g (on_dropped g)
  ends : (g : Sessions) → 0 < g.dropping → Step g (on_dropped_end g)
  closes : (g : Sessions) → g.is_close_server ≡ false → Step g (check_close g)

pub data Steps (g : Sessions) : Sessions → Type 0 where
  here : Steps g g
  next : {h k : Sessions} → Steps g h → Step h k → Steps g k
