-- ===== src/Cluster/Examples/Reporting.antt =====
-- The theorems on hCluster/ChildComponent.go, for a node that connects twice and one that is closed in a round.
use happy.Base.{ℕ, ◌≤◌, ◌≡◌, refl, true, false, none, some, [], ◌∷◌, length}
use happy.Actor.{split}
use happy.Cluster.Child.{
  Config, Child, address_from, connect_to_master, make_report, send_report, destroy, sends, here,
  next,
}
use happy.Cluster.Child.Reporting.{reports, Steps-IsClosing}

-- The texts "1:2", "3:2" and "0:2".
abbrev config : Config
config = record {
  role = "gate" ∷ [];
  local_address = 48 ∷ 58 ∷ 50 ∷ [];
  net_listen_address_alias = 57 ∷ [];
}

abbrev reporting : Child ℕ
reporting = record {
  local_addr = 49 ∷ 58 ∷ 50 ∷ [];
  net_addr = 57 ∷ [];
  has_master = true;
  close = false;
  report_collecter = some (("cpu", 30) ∷ []);
  reported_addr = some (49 ∷ 58 ∷ 50 ∷ []);
  is_online = true;
  round = none;
  sent = [];
  closed_at = [];
}

abbrev again : Child ℕ
again = connect_to_master config (some (51 ∷ 58 ∷ 55 ∷ [])) reporting

moves : again.local_addr ≡ 51 ∷ 58 ∷ 50 ∷ []
unfolding connect_to_master address_from split
moves = refl

-- A node that is closed after it has made up a report, and that sends it.
abbrev closing : Child ℕ
closing = destroy (make_report reporting)

-- The report follows the one that says that the node is closed.
closed_before : closing.closed_at ≡ (49 ∷ 58 ∷ 50 ∷ []) ∷ []
unfolding make_report destroy
closed_before = refl

sent_after : length (send_report (49 ∷ 58 ∷ 50 ∷ []) closing).sent ≡ 1
unfolding make_report destroy send_report
sent_after = refl

Steps-IsClosing_example :
    ((send_report (49 ∷ 58 ∷ 50 ∷ []) closing).close ≡ true)
    × (reports (send_report (49 ∷ 58 ∷ 50 ∷ []) closing) ≤ reports closing)
unfolding make_report destroy
Steps-IsClosing_example =
    Steps-IsClosing config closing refl (next here (sends closing (49 ∷ 58 ∷ 50 ∷ []) refl))
