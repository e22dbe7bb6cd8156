-- ===== src/Cluster/Examples/Locating.antt =====
-- The theorems on hCluster/LocationComponent.go on a few nodes.
use happy.Base.{ℕ, ◌≡◌, refl, String, true, none, some, [], ◌∷◌, string_eq}
use happy.Base.Maps.{Map, lookup, is_some}
use happy.Cluster.Types.{NodeInfo}
use happy.Cluster.Balancer.{Serves}
use happy.Cluster.Master.{NodeInfoSyncReply}
use happy.Cluster.Location.{Location, update_bl, syncs}
use happy.Cluster.Location.Sync.{update_bl-Serves, knows, syncs-stale}
use happy.Cluster.Examples.{balancers, no_hosts, no_hosts-Serves, percent, node}

abbrev two : Map String (NodeInfo ℕ ℕ)
two = ("a", node "a" "app" []) ∷ ("b", node "b" "app" []) ∷ []

abbrev one_left : Map String (NodeInfo ℕ ℕ)
one_left = ("b", node "b" "app" []) ∷ []

update_bl-two :
    update_bl balancers
      (some two)
      one_left
      (record { r2 = "b" ∷ "a" ∷ []; p2c = "b" ∷ "a" ∷ []; bounded = "b" ∷ "a" ∷ [] })
    ≡ record { r2 = "b" ∷ []; p2c = "b" ∷ []; bounded = "b" ∷ [] }
unfolding update_bl lookup
update_bl-two = refl

update_bl-Serves_example :
    Serves balancers (update_bl balancers none two no_hosts) (λ a. is_some (lookup two a))
update_bl-Serves_example = update_bl-Serves balancers none two no_hosts no_hosts-Serves

abbrev sent : Map String (NodeInfo ℕ ℕ) → NodeInfoSyncReply percent ℕ
sent nodes = record { nodes = nodes; node_log = record { buffer_size = 20; logs = [] } }

abbrev synced : Location percent ℕ balancers
synced = record { reply = some (sent two); connected = true; pools = no_hosts }

-- The master has closed "a", then the connection fails.
syncs-stale_example :
    ((syncs percent balancers (some (sent one_left) ∷ none ∷ []) synced).pools ≡ no_hosts)
    × ((a : String)
        → knows synced a ≡ true
        → knows (syncs percent balancers (some (sent one_left) ∷ none ∷ []) synced) a ≡ true)
syncs-stale_example = syncs-stale (some (sent one_left) ∷ none ∷ []) synced (sent two) refl
