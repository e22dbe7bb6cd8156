-- ===== src/Cluster/Examples/Mastering.antt =====
-- Tests of hCluster/MasterComponent.go and the theorems on a few events.
use happy.Base.{
  ℕ, ◌≡◌, refl, String, false, none, some, List, [], ◌∷◌, ltb, if◌then◌else◌, string_eq,
}
use happy.Base.Maps.{lookup, insert}
use happy.Cluster.Master.{
  Master, Event, report_node_info, timeout_check, set_status, new_master, update_node_info,
  get_node_status, steps, Operation, inquires, operate, node_inquiry,
}
use happy.Cluster.Master.Invariant.{IsTied, update_node_info-IsTied}
use happy.Cluster.Master.Refinement.{
  watch, rounds, operate-watch, Goes, steps-silent, new_master-IsTied,
}
use happy.Cluster.Selector.{do_query, select, collect}
use happy.Cluster.Examples.{balancers, no_hosts, no_hosts-Serves, percent, node}

abbrev master : Master percent ℕ balancers
master = new_master percent balancers no_hosts

master-IsTied : IsTied master
master-IsTied = new_master-IsTied no_hosts no_hosts-Serves

status_reported :
    get_node_status percent balancers "a"
      (update_node_info percent balancers 7 (node "a" "app" []) master)
    ≡ "Online"
unfolding get_node_status update_node_info insert lookup
status_reported = refl

status_unknown : get_node_status percent balancers "b" master ≡ "Offline"
unfolding get_node_status lookup
status_unknown = refl

-- The master has one node, and is asked for all of its kind.
abbrev known : Master percent ℕ balancers
known = update_node_info percent balancers 7 (node "a" "app" ("gate" ∷ [])) master

abbrev inquiry : Operation ℕ ℕ
inquiry = inquires 0 ("app" ∷ "gate" ∷ "Group" ∷ []) false

inquiry-Goes : Goes inquiry known
unfolding node_inquiry do_query select collect
inquiry-Goes = tt

operate-watch_example :
    (m : Master percent ℕ balancers) × (operate percent balancers inquiry known ≡ some m)
    × IsTied m
    × ((a : String) → watch m a ≡ watch known a)
operate-watch_example =
    operate-watch inquiry known
      (update_node_info-IsTied 7 (node "a" "app" ("gate" ∷ [])) master master-IsTied) inquiry-Goes

-- Three rounds, a report of another node and a status.
abbrev events : List (Event ℕ ℕ)
events =
    timeout_check 8
    ∷ report_node_info 9 (node "b" "app" [])
    ∷ timeout_check 10
    ∷ set_status "a" "WebClose"
    ∷ timeout_check 11
    ∷ []

steps-silent_example :
    (m : Master percent ℕ balancers) × (steps percent balancers
        (report_node_info 7 (node "a" "app" []) ∷ events)
        master
      ≡ some m)
    × (lookup m.nodes "a"
        ≡ (if ltb 3 (rounds events) then none else some (record (node "a" "app" []) { time = 7 })))
steps-silent_example =
    steps-silent 7 (node "a" "app" []) events master master-IsTied
      (tt, (refl, (tt, (tt, (tt, tt)))))
