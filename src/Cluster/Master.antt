-- ===== src/Cluster/Master.antt =====
-- `MasterComponent` of hCluster/MasterComponent.go, with the services of hCluster/MasterService.go that call
-- it. Each operation runs under the component's lock and is one step; `now` is the clock's reading. `none` is
-- a panic. `Balancers` holds the package variables of hCluster/Selector.go.
pub mod Invariant
pub mod Timeout
pub mod Refinement
use happy.Base.{
  ℕ, zero, suc, ◌+◌, String, Bool, true, false, Option, none, some, List, [], ◌∷◌, ltb, string_eq,
  if◌then◌else◌,
}
use happy.Base.Maps.{Map, lookup, insert, delete, is_some}
use happy.Cluster.Types.{NodeInfo, Floats}
use happy.Cluster.Balancer.{Balancers, Pools, add_host, remove_host}
use happy.Cluster.Logs.{NodeLog, NodeLogs, add}
use happy.Cluster.Selector.{Outcome, panics, answers, do_query}

pub record Master (num : Floats) (D : Type 0) (lib : Balancers) : Type 0 where
  pub nodes : Map String (NodeInfo num.Float D)
  pub node_status : Map String String
  pub node_log : NodeLogs
  pub timeout_checking : Map String ℕ
  pub pools : Pools lib

-- `NodeInfoSyncReply`: copies of the nodes and of the log.
pub record NodeInfoSyncReply (num : Floats) (D : Type 0) : Type 0 where
  pub nodes : Map String (NodeInfo num.Float D)
  pub node_log : NodeLogs

-- What changes the nodes, their status or the log.
pub data Event (F D : Type 0) : Type 0 where
  report_node_info : ℕ → NodeInfo F D → Event F D
  report_node_close : ℕ → String → Event F D
  timeout_check : ℕ → Event F D
  set_status : String → String → Event F D

-- An event, or a query with the number that is drawn for it.
pub data Operation (F D : Type 0) : Type 0 where
  changes : Event F D → Operation F D
  inquires : ℕ → List String → Bool → Operation F D

-- A panic in a handler ends the process.
abbrev pub unless_panics : {A F D : Type 0} → A → Outcome F D → Option A
unless_panics a panics = none
unless_panics a (answers rs err) = some a

module _ (num : Floats) {D : Type 0} (lib : Balancers) where
  open num use {Float}

  -- The state that `Awake` makes, with the pools of the package.
  abbrev pub new_master : Pools lib → Master num D lib
  new_master pools = record {
    nodes = [];
    node_status = [];
    node_log = record { buffer_size = 20; logs = [] };
    timeout_checking = [];
    pools = pools;
  }

  unfoldable pub update_node_info : ℕ → NodeInfo Float D → Master num D lib → Master num D lib
  unfolding lookup insert add_host
  update_node_info now args m =
      let addr = args.address in
      record {
        nodes = insert m.nodes addr (record args { time = now });
        node_status = insert m.node_status addr "Online";
        node_log = m.node_log;
        timeout_checking = insert m.timeout_checking addr 0;
        pools = if is_some (lookup m.nodes addr) then m.pools else add_host lib m.pools addr;
      }

  -- `NodeClose` as far as its three `delete`.
  unfoldable pub forget : String → Master num D lib → Master num D lib
  unfolding lookup delete remove_host
  forget addr m = record {
    nodes = delete m.nodes addr;
    node_status = delete m.node_status addr;
    node_log = m.node_log;
    timeout_checking = delete m.timeout_checking addr;
    pools = if is_some (lookup m.nodes addr) then remove_host lib m.pools addr else m.pools;
  }

  unfoldable pub node_close : ℕ → String → Master num D lib → Option (Master num D lib)
  unfolding add forget
  node_close now addr m = elim (add m.node_log (record { time = now; log = addr; typ = 0 })) [
    | none ↦ none
    | some log ↦ some (record (forget addr m) { node_log = log })
  ]

  -- The loop of `TimeoutCheck` after a sleep, over the entries of `timeoutChecking`. A round changes or
  -- deletes the entry it is at and no other.
  unfoldable pub timeout_one : ℕ → String × ℕ → Master num D lib → Option (Master num D lib)
  unfolding node_close insert
  timeout_one now (addr, count) m =
      let m' : Master num D lib = record m {
        timeout_checking = insert m.timeout_checking addr (count + 1);
      } in
      if ltb 3 (count + 1) then node_close now addr m' else some m'

  unfoldable pub timeout_each : ℕ → List (String × ℕ) → Master num D lib → Option (Master num D lib)
  unfolding timeout_one
  timeout_each now [] m = some m
  timeout_each now (e ∷ es) m = elim (timeout_one now e m) [
    | none ↦ none
    | some m' ↦ timeout_each now es m'
  ]

  unfoldable pub timeout_round : ℕ → Master num D lib → Option (Master num D lib)
  unfolding timeout_each
  timeout_round now m = timeout_each now m.timeout_checking m

  unfoldable pub set_node_status : String → String → Master num D lib → Master num D lib
  unfolding insert
  set_node_status addr status m = record m { node_status = insert m.node_status addr status }

  unfoldable pub get_node_status : String → Master num D lib → String
  unfolding lookup
  get_node_status addr m = elim (lookup m.node_status addr) [
    | none ↦ "Offline"
    | some status ↦ status
  ]

  -- `NodeInquiry`: `DoQuery` with no selector function.
  unfoldable pub node_inquiry :
      ℕ → List String → Bool → Master num D lib → Master num D lib × Outcome Float D
  unfolding do_query
  node_inquiry draw args detail m =
      let (pools, outcome) = do_query num lib [] draw m.nodes m.pools args detail in
      (record m { pools = pools }, outcome)

  -- `NodeInfoSync`: `none` is the error of a wrong argument.
  unfoldable pub node_info_sync : String → Master num D lib → Option (NodeInfoSyncReply num D)
  node_info_sync args m =
      if string_eq.beq args "sync"
      then some (record { nodes = m.nodes; node_log = m.node_log })
      else none

  unfoldable pub step : Event Float D → Master num D lib → Option (Master num D lib)
  unfolding update_node_info node_close timeout_round set_node_status
  step (report_node_info now args) m = some (update_node_info now args m)
  step (report_node_close now addr) m = node_close now addr m
  step (timeout_check now) m = timeout_round now m
  step (set_status addr status) m = some (set_node_status addr status m)

  unfoldable pub steps : List (Event Float D) → Master num D lib → Option (Master num D lib)
  unfolding step
  steps [] m = some m
  steps (e ∷ es) m = elim (step e m) [ none ↦ none | some m' ↦ steps es m' ]

  unfoldable pub operate : Operation Float D → Master num D lib → Option (Master num D lib)
  unfolding step node_inquiry
  operate (changes e) m = step e m
  operate (inquires draw args detail) m =
      let (m', outcome) = node_inquiry draw args detail m in unless_panics m' outcome
