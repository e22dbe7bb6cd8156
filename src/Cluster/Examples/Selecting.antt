-- ===== src/Cluster/Examples/Selecting.antt =====
-- Tests of hCluster/Selector.go, hCluster/ComponentGroup.go and `NodeLogs`, and the theorems on a few nodes.
use happy.Base.{
  ℕ, ◌≡◌, refl, String, true, false, some, List, [], ◌∷◌, length, contains, string_eq, arith, ◌↔◌,
}
use happy.Base.Maps.{Map, lookup, IsMap}
use happy.Cluster.Types.{NodeInfo, InquiryReply}
use happy.Cluster.Logs.{NodeLog}
use happy.Cluster.Selector.{
  panics, answers, gen_random, draw_distinct, select_min_load, matches, collect, found_error,
  do_query,
}
use happy.Cluster.Selector.MinLoad.{IsBest, select_min_load-IsBest}
use happy.Cluster.Selector.Query.{
  Answered, IsWanted, names, is_wanted, do_query-IsWanted, do_query-group,
}
use happy.Cluster.Selector.Panics.{do_query-random}
use happy.Cluster.NodeGroup.{chosen, min_load_node}
use happy.Cluster.Groups.{complete}
use happy.Cluster.Examples.{balancers, no_hosts, percent, node, reply}

abbrev loads : List (InquiryReply ℕ ℕ)
loads = reply "a" 90 50 ∷ reply "b" 20 30 ∷ reply "c" 100 100 ∷ []

select_min_load-loads : select_min_load percent loads ≡ some 1
unfolding select_min_load lookup
select_min_load-loads = refl

gen_random_two : gen_random 3 7 2 (4 ∷ 4 ∷ 0 ∷ []) ≡ some (some (7 ∷ 3 ∷ []))
unfolding gen_random draw_distinct
gen_random_two = refl

select_min_load-IsBest_example : (m : ℕ) × IsBest percent loads m (select_min_load percent loads)
select_min_load-IsBest_example =
    select_min_load-IsBest percent (λ a b h. ground arith) (λ a b c h k. ground arith) loads

abbrev nodes : Map String (NodeInfo ℕ ℕ)
nodes =
    ("a", node "a" "app" ("gate" ∷ []))
    ∷ ("b", node "b" "app" ("room" ∷ "gate" ∷ []))
    ∷ ("c", node "c" "app" ("room" ∷ []))
    ∷ []

nodes-IsMap : IsMap nodes
nodes-IsMap = (refl, (refl, (refl, tt)))

do_query-IsWanted_example :
    Answered
      (IsWanted percent false "app" "gate" nodes)
      (do_query percent balancers [] 1 nodes no_hosts ("app" ∷ "gate" ∷ "Random" ∷ []) false).1
do_query-IsWanted_example =
    do_query-IsWanted percent balancers [] 1 nodes no_hosts "app" "gate" "Random" [] false
      nodes-IsMap

do_query-group_example :
    (rs : List (InquiryReply ℕ ℕ)) × (do_query percent balancers [] 0 nodes no_hosts
        ("app" ∷ "gate" ∷ "Group" ∷ [])
        true
      ≡ (no_hosts, answers rs (found_error percent rs)))
    × ((name : String) → contains (names rs) name ≡ is_wanted percent "app" "gate" nodes name)
do_query-group_example =
    do_query-group percent balancers [] 0 nodes no_hosts "app" "gate" true nodes-IsMap

collect_two : length (collect percent false "app" "gate" nodes) ≡ 2
unfolding collect matches
collect_two = refl

do_query-random_example :
    ((do_query percent balancers [] 2 nodes no_hosts ("app" ∷ "gate" ∷ "Default" ∷ "" ∷ []) false).1
      ≡ panics)
    ↔ (2 ≡ length (collect percent false "app" "gate" nodes))
do_query-random_example =
    do_query-random percent balancers [] 2 nodes no_hosts "app" "gate" "" false "Default" refl
      (omega (arith, collect_two))

complete_roles : complete ("gate" ∷ []) ≡ "gate" ∷ "child" ∷ []
unfolding complete
complete_roles = refl

abbrev groups : Map String (List ℕ)
groups = ("master", 1 ∷ []) ∷ ("child", 2 ∷ []) ∷ ("gate", 3 ∷ []) ∷ []

abbrev log : String → NodeLog
log name = record { time = 3; log = name; typ = 0 }

min_load_node-picks : min_load_node percent loads ≡ chosen (reply "b" 20 30)
unfolding min_load_node lookup
min_load_node-picks = refl
