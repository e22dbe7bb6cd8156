-- ===== src/Launcher/Examples.antt =====
-- Tests of hBaseComponent/LauncherComponent.go, and the theorem on a node that reports after its status was set.
use happy.Base.{ℕ, String, if◌then◌else◌, ◌≡◌, refl, true, false, none, some, [], ◌∷◌, string_eq}
use happy.Base.Maps.{lookup, insert}
use happy.Actor.{Str, split, str_equal}
use happy.Cluster.Child.{address_from}
use happy.Cluster.Master.{
  Master, report_node_info, update_node_info, new_master, set_node_status, get_node_status, step,
  steps,
}
use happy.Cluster.Examples.{balancers, no_hosts, percent, node}
use happy.Launcher.{
  NodeConfig, ClusterConfig, override_node_define, override_node_port, own_groups, serve_roles,
  closing_status, waits_to_close,
}
use happy.Launcher.Closing.{ask, closing_status-steps}

abbrev gate : NodeConfig
gate = record {
  local_address = 49 ∷ 58 ∷ 50 ∷ [];
  role = "gate" ∷ [];
  net_alias = [];
  net_addr = 58 ∷ 57 ∷ [];
  work_id = 4;
}

abbrev config : ClusterConfig
config = record {
  work_name = "";
  local_address = 48 ∷ 58 ∷ 49 ∷ [];
  role = [];
  net_listen_address_alias = [];
  net_listen_address = [];
  work_id = 0;
  is_location_mode = true;
  node_define = ("gate1", gate) ∷ [];
}

-- The alias is "ws://:9/ws".
overridden :
    override_node_define "gate1" config
    ≡ some (record config {
      work_name = "gate1";
      local_address = 49 ∷ 58 ∷ 50 ∷ [];
      role = "gate" ∷ [];
      net_listen_address_alias = 119 ∷ 115 ∷ 58 ∷ 47 ∷ 47 ∷ 58 ∷ 57 ∷ 47 ∷ 119 ∷ 115 ∷ [];
      net_listen_address = 58 ∷ 57 ∷ [];
      work_id = 4;
    })
unfolding override_node_define lookup
overridden = refl

undefined_name : override_node_define "gate2" config ≡ none
unfolding override_node_define lookup
undefined_name = refl

port : (override_node_port (55 ∷ []) config).local_address ≡ 48 ∷ 58 ∷ 55 ∷ []
unfolding override_node_port split
port = refl

-- A single node in location mode has no location group.
single : own_groups config ≡ "master" ∷ "child" ∷ []
unfolding own_groups
single = refl

all_roles : serve_roles ("gate" ∷ []) config ≡ "gate" ∷ "modle" ∷ []
unfolding serve_roles
all_roles = refl

-- The status of "a" has been set from the page.
abbrev asked : Master percent ℕ balancers
asked = set_node_status percent balancers "a" "WebClose" (new_master percent balancers no_hosts)

-- The master's name of the configured address, and of any other.
abbrev text : Str → String
text s = if str_equal s config.local_address then "a" else "b"

kept_status :
    closing_status (ask percent balancers text asked) config
    ≡ some (config.local_address, "WaitPm2Close")
unfolding closing_status get_node_status set_node_status insert lookup str_equal
kept_status = refl

abbrev reported : Master percent ℕ balancers
reported = update_node_info percent balancers 7 (node "a" "app" []) asked

-- The node connects from "0:9".
abbrev remote : Str
remote = 48 ∷ 58 ∷ 57 ∷ []

own_address : address_from remote config.local_address ≡ config.local_address
unfolding address_from split
own_address = refl

own_name : "a" ≡ text (address_from remote config.local_address)
unfolding address_from split str_equal
own_name = refl

closing_status-steps_example :
    (closing_status (ask percent balancers text reported) config ≡ none)
    × (waits_to_close (ask percent balancers text reported) config ≡ false)
unfolding steps step
closing_status-steps_example =
    closing_status-steps percent balancers text config remote
      (report_node_info 7 (node "a" "app" [])) [] asked reported own_address own_name tt refl
