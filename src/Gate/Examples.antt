-- ===== src/Gate/Examples.antt =====
-- Tests of package hBaseComponent's gates, and the theorem on a map with two gates.
use happy.Base.{
  ℕ, ◌≡◌, refl, String, true, false, Option, none, some, List, [], ◌∷◌, ◌++◌, string_eq,
}
use happy.Base.Maps.{Map, lookup}
use happy.Cluster.Types.{NodeInfo, InquiryReply}
use happy.Cluster.Selector.{collect, matches, reply_of}
use happy.Cluster.Node.{Node, get_node_group}
use happy.Cluster.Node.Asking.{inquire}
use happy.Cluster.Examples.{balancers, no_hosts, percent, node}
use happy.Gate.{address, address_of, get_usable_gate, close_online_node, set_node_status, error}
use happy.Gate.Choosing.{get_usable_gate-last}

-- With a load, which the replies leave out.
abbrev gate : String → ℕ → NodeInfo ℕ ℕ
gate name addr = record (node name "app" ("gate" ∷ [])) {
  info = ("cpu", addr) ∷ [];
  custom_data = ("netAddr", addr) ∷ [];
}

abbrev gates : Map String (NodeInfo ℕ ℕ)
gates = ("a", gate "a" 1) ∷ ("b", gate "b" 2) ∷ []

abbrev asker : Node ℕ ℕ
asker = record {
  is_online = true;
  is_location_mode = false;
  location_clients = none;
  rpc_client = [];
  client_getting = [];
}

abbrev gates_found : List (InquiryReply ℕ ℕ)
gates_found = record { node = "a"; info = []; custom_data = ("netAddr", 1) ∷ [] } ∷ []

abbrev last_gate : InquiryReply ℕ ℕ
last_gate = record { node = "b"; info = []; custom_data = ("netAddr", 2) ∷ [] }

-- A number stands for a text.
abbrev as_text : ℕ → Option String
as_text d = some "10.0.0.2:80"

collected : collect percent false "app" "gate" gates ≡ gates_found ++ last_gate ∷ []
unfolding collect matches reply_of
collected = refl

last_gate_address : address_of as_text last_gate ≡ address "10.0.0.2:80"
unfolding address_of lookup
last_gate_address = refl

get_usable_gate-last_example :
    get_usable_gate percent as_text "POST" 0
      (get_node_group {L = ℕ} "app"
        (λ c args. none)
        0
        (inquire percent balancers gates no_hosts 0)
        true
        "gate"
        asker).1
    ≡ address_of as_text last_gate
get_usable_gate-last_example =
    get_usable_gate-last percent refl refl as_text balancers (λ c args. none) gates no_hosts "app" 0
      0 asker gates_found last_gate refl refl collected

-- A node whose status cannot be set is not told to close.
close_unset :
    close_online_node
      (some tt)
      none
      (some tt)
      (some tt)
      "POST"
      "gate1"
      (("gate1", "10.0.0.1:90") ∷ [])
    ≡ (set_node_status "10.0.0.1:90" "WebClose" ∷ [], error)
unfolding close_online_node lookup
close_unset = refl
