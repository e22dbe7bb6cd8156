-- ===== src/Launcher.antt =====
-- hBaseComponent/LauncherComponent.go: the configuration of a node that it overrides, the roles of a node, and what it asks
-- the master for when a node shuts down and starts. An address is the list of its bytes. The components and the waiting
-- for them are not modelled.
pub mod Statuses
pub mod Closing
mod Examples
use happy.Base.{
  ℕ, Bool, true, false, not, ◌&&◌, String, Option, none, some, List, [], ◌∷◌, ◌++◌, map, contains,
  get_or, string_eq, nat_eq, ◌==◌, if◌then◌else◌,
}
use happy.Base.Maps.{Map, lookup}
use happy.Actor.{Str, colon, str_equal, split}

-- What the file says of a node.
pub record NodeConfig : Type 0 where
  pub local_address : Str
  pub role : List String
  pub net_alias : Str
  pub net_addr : Str
  pub work_id : ℕ

-- The parts of the cluster's configuration that are overridden.
pub record ClusterConfig : Type 0 where
  pub work_name : String
  pub local_address : Str
  pub role : List String
  pub net_listen_address_alias : Str
  pub net_listen_address : Str
  pub work_id : ℕ
  pub is_location_mode : Bool
  pub node_define : Map String NodeConfig

abbrev pub is_empty : Str → Bool
is_empty [] = true
is_empty (b ∷ bs) = false

-- The texts "ws://" and "/ws".
abbrev pub ws_prefix : Str
ws_prefix = 119 ∷ 115 ∷ 58 ∷ 47 ∷ 47 ∷ []

abbrev pub ws_suffix : Str
ws_suffix = 47 ∷ 119 ∷ 115 ∷ []

abbrev pub override_net : NodeConfig → ClusterConfig → ClusterConfig
override_net s c =
    if not (is_empty s.net_alias)
    then record c { net_listen_address_alias = s.net_alias; net_listen_address = s.net_addr }
    else if not (is_empty s.net_addr)
    then record c {
      net_listen_address = s.net_addr;
      net_listen_address_alias = ws_prefix ++ s.net_addr ++ ws_suffix;
    }
    else c

-- `OverrideNodeDefine`: `none` is the panic for a name that is not defined.
abbrev pub override_with : String → Option NodeConfig → ClusterConfig → Option ClusterConfig
override_with name none c = none
override_with name (some s) c =
    some
      (record (override_net s
        (record c { work_name = name; local_address = s.local_address; role = s.role })) {
          work_id = s.work_id;
        })

unfoldable pub override_node_define : String → ClusterConfig → Option ClusterConfig
unfolding lookup
override_node_define name c = override_with name (lookup c.node_define name) c

unfoldable pub override_node_port : Str → ClusterConfig → ClusterConfig
unfolding split
override_node_port port c = record c {
  local_address = get_or (split c.local_address) 0 [] ++ colon ∷ port;
}

unfoldable pub override_node_roles : List String → ClusterConfig → ClusterConfig
override_node_roles roles c = record c { role = roles }

-- `Serve`: a node without roles, or with "single" first, gets all groups that have been added, and "modle".
abbrev pub is_single : List String → Bool
is_single [] = true
is_single (r ∷ rs) = r == "single"

abbrev pub has_location : ClusterConfig → Bool
has_location c = c.is_location_mode && not (is_single c.role)

-- The groups that are added to those of the user.
unfoldable pub own_groups : ClusterConfig → List String
own_groups c =
    if has_location c then "master" ∷ "child" ∷ "location" ∷ [] else "master" ∷ "child" ∷ []

unfoldable pub serve_roles : List String → ClusterConfig → List String
serve_roles all_groups c = if is_single c.role then all_groups ++ "modle" ∷ [] else c.role

-- The call of `SetNodeStatus` with which `Serve` asks the master when the node shuts down, if any. `ask` is the master's
-- `GetNodeStatus`; `none` is a master that is not reached. The address is that of the configuration both times.
unfoldable pub closing_status : (Str → Option String) → ClusterConfig → Option (Str × String)
closing_status ask c = elim (ask c.local_address) [
  | none ↦ none
  | some status ↦ if status == "WebClose" then some (c.local_address, "WaitPm2Close") else none
]

-- `CheckNodeStatus`: whether a node that starts waits to be closed again.
unfoldable pub waits_to_close : (Str → Option String) → ClusterConfig → Bool
waits_to_close ask c = elim (ask c.local_address) [
  | none ↦ false
  | some status ↦ status == "WaitPm2Close"
]
