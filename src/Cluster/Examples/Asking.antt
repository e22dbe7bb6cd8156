-- ===== src/Cluster/Examples/Asking.antt =====
-- The theorems on hCluster/NodeComponent.go, for a node that knows a location server and one that connects.
use happy.Base.{ℕ, ◌≡◌, ◌≤◌, ◌⊎◌, refl, String, true, false, some, [], ◌∷◌, string_eq}
use happy.Base.Maps.{Map, lookup}
use happy.Cluster.Types.{NodeInfo}
use happy.Cluster.Node.{Node, get_node}
use happy.Cluster.Node.Choosing.{Chooses, Asks}
use happy.Cluster.Node.Asking.{inquire, Serves, get_node-Serves}
use happy.Cluster.Node.Clients.{begin_get, Net, connects_one, asks, here, next}
use happy.Cluster.Node.Connecting.{Steps-exclusive}
use happy.Cluster.Examples.{balancers, no_hosts, percent, node}

abbrev old_nodes : Map String (NodeInfo ℕ ℕ)
old_nodes = ("a", node "a" "app" ("gate" ∷ [])) ∷ []

abbrev new_nodes : Map String (NodeInfo ℕ ℕ)
new_nodes = ("a", node "a" "app" ("gate" ∷ [])) ∷ ("b", node "b" "app" ("room" ∷ [])) ∷ []

abbrev asker : Node ℕ ℕ
asker = record {
  is_online = true;
  is_location_mode = true;
  location_clients = some (0 ∷ []);
  rpc_client = [];
  client_getting = [];
}

get_node-Serves_example :
    Chooses
      (λ name.
        ((c : ℕ) × Asks asker 0 c × Serves percent balancers old_nodes "app" "room" name)
        ⊎ Serves percent balancers new_nodes "app" "room" name)
      (get_node "app"
        (λ c. inquire percent balancers old_nodes no_hosts c)
        0
        (inquire percent balancers new_nodes no_hosts 5)
        true
        "room"
        ("MinLoad" ∷ [])
        asker).1
get_node-Serves_example =
    get_node-Serves percent balancers (λ c. old_nodes) (λ c. no_hosts) (λ c. c) new_nodes no_hosts
      "app" "room" 0 5 true ("MinLoad" ∷ []) asker (λ c. (refl, tt)) (refl, (refl, tt))

abbrev net : Net ℕ ℕ
net = record { node = asker; connecting = λ a. 0 }

-- After one goroutine has asked for a client of "b", which it has to make, and then another.
abbrev asked : Net ℕ ℕ → Net ℕ ℕ
asked t = record {
  node = (begin_get (λ c. false) "b" t.node).0;
  connecting = connects_one (begin_get (λ c. false) "b" t.node).1 "b" t.connecting;
}

Steps-exclusive_example : (asked (asked net)).connecting "b" ≤ 1
Steps-exclusive_example =
    Steps-exclusive (λ c. false) net (asked (asked net)) (λ a. refl) refl
      (next (next here (asks net "b")) (asks (asked net) "b")) "b"

abbrev counting : Node ℕ ℕ
counting = record asker { client_getting = ("b", 40) ∷ [] }

no_client : (c : ℕ) → lookup counting.rpc_client "b" ≡ some c → false ≡ true
unfolding lookup
no_client c e = cc

counted : lookup counting.client_getting "b" ≡ some 40
unfolding lookup
counted = refl
