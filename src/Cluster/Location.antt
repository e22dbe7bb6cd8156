-- ===== src/Cluster/Location.antt =====
-- `LocationComponent` of hCluster/LocationComponent.go. The pools are the package variables of
-- hCluster/Selector.go.
pub mod Sync
use happy.Base.{
  ℕ, String, Bool, true, false, Option, none, some, List, [], ◌∷◌, length, ◌==◌, nat_eq, string_eq,
  if◌then◌else◌,
}
use happy.Base.Maps.{Map, lookup, insert, is_some}
use happy.Cluster.Types.{NodeInfo, Floats}
use happy.Cluster.Balancer.{Balancers, Pools, add_host, remove_host}
use happy.Cluster.Logs.{NodeLog, NodeLogs, get}
use happy.Cluster.Selector.{Outcome, do_query}
use happy.Cluster.Master.{NodeInfoSyncReply}

-- `reply` is the variable of `DoLocationSync`. From the first sync on, `Nodes` and `NodeLog` are the map and
-- the log that it points to; before, they are nil. `connected`: `master` is not nil.
pub record Location (num : Floats) (D : Type 0) (lib : Balancers) : Type 0 where
  pub reply : Option (NodeInfoSyncReply num D)
  pub connected : Bool
  pub pools : Pools lib

module _ {A : Type 0} (lib : Balancers) where
  -- The loops of `UpdateBL`, over the entries of a map.
  unfoldable pub open_all : Map String A → Pools lib → Pools lib
  unfolding add_host
  open_all [] p = p
  open_all ((addr, v) ∷ es) p = open_all es (add_host lib p addr)

  unfoldable pub close_missing : Map String A → Map String A → Pools lib → Pools lib
  unfolding lookup remove_host
  close_missing [] next p = p
  close_missing ((addr, v) ∷ es) next p =
      close_missing es next (if is_some (lookup next addr) then p else remove_host lib p addr)

  unfoldable pub open_new : Map String A → Map String A → Pools lib → Pools lib
  unfolding lookup add_host
  open_new [] cur p = p
  open_new ((addr, v) ∷ es) cur p =
      open_new es cur (if is_some (lookup cur addr) then p else add_host lib p addr)

  unfoldable pub update_bl : Option (Map String A) → Map String A → Pools lib → Pools lib
  unfolding open_all close_missing open_new
  update_bl none next p = open_all next p
  update_bl (some cur) next p = open_new next cur (close_missing cur next p)

-- What gob does to a map that the receiver has already: it sets the entries that are sent.
unfoldable pub merge : {A : Type 0} → Map String A → Map String A → Map String A
unfolding insert
merge old [] = old
merge old ((k, v) ∷ sent) = merge (insert old k v) sent

-- A field that is zero or an empty list is not sent, and what was there stays.
abbrev pub merge_log : NodeLogs → NodeLogs → NodeLogs
merge_log old sent = record {
  buffer_size = if sent.buffer_size == 0 then old.buffer_size else sent.buffer_size;
  logs = if length sent.logs == 0 then old.logs else sent.logs;
}

module _ (num : Floats) {D : Type 0} (lib : Balancers) where
  open num use {Float}

  -- The call's reply is decoded into `reply`, which keeps what it had.
  unfoldable pub decode :
      Option (NodeInfoSyncReply num D) → NodeInfoSyncReply num D → NodeInfoSyncReply num D
  unfolding merge
  decode none sent = sent
  decode (some old) sent = record {
    nodes = merge old.nodes sent.nodes;
    node_log = merge_log old.node_log sent.node_log;
  }

  unfoldable pub current :
      Option (NodeInfoSyncReply num D)
      → NodeInfoSyncReply num D
      → Option (Map String (NodeInfo Float D))
  current none next = none
  current (some old) next = some next.nodes

  -- A round of `DoLocationSync` with a client: what the call returns, `none` an error. From the second sync
  -- on `this.Nodes` is the map that the call has just decoded into.
  unfoldable pub sync : Option (NodeInfoSyncReply num D) → Location num D lib → Location num D lib
  unfolding decode current update_bl
  sync none l = record l { connected = false }
  sync (some sent) l =
      let next = decode l.reply sent in
      record {
        reply = some next;
        connected = true;
        pools = update_bl lib (current l.reply next) next.nodes l.pools;
      }

  unfoldable pub syncs :
      List (Option (NodeInfoSyncReply num D)) → Location num D lib → Location num D lib
  unfolding sync
  syncs [] l = l
  syncs (r ∷ rs) l = syncs rs (sync r l)

  -- `NodeInquiry` and `NodeLogInquiry`: `none` is the error of a location that waits to sync.
  unfoldable pub node_inquiry :
      ℕ → List String → Bool → Location num D lib → Location num D lib × Option (Outcome Float D)
  unfolding do_query
  node_inquiry draw args detail l = elim l.reply [
    | none ↦ (l, none)
    | some r ↦
        let (pools, outcome) = do_query num lib [] draw r.nodes l.pools args detail in
        (record l { pools = pools }, some outcome)
  ]

  unfoldable pub node_log_inquiry : ℕ → Location num D lib → Option (List NodeLog)
  unfolding get
  node_log_inquiry args l = elim l.reply [ none ↦ none | some r ↦ some (get r.node_log args) ]
