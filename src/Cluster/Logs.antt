-- ===== src/Cluster/Logs.antt =====
-- `NodeLogs` of hCluster/MasterService.go: the bounded log of closed nodes. `none` is a panic.
pub mod Bounds
use happy.Base.{ℕ, String, Option, none, some, List, [], ◌∷◌, ◌++◌, length, ltb, if◌then◌else◌}

pub record NodeLog : Type 0 where
  pub time : ℕ
  pub log : String
  pub typ : ℕ

pub record NodeLogs : Type 0 where
  pub buffer_size : ℕ
  pub logs : List NodeLog

-- `this.Logs[1:]` of an empty slice panics.
unfoldable pub slide : List NodeLog → NodeLog → Option (List NodeLog)
slide [] log = none
slide (l ∷ ls) log = some (ls ++ log ∷ [])

unfoldable pub add : NodeLogs → NodeLog → Option NodeLogs
unfolding slide
add n log =
    if ltb (length n.logs) n.buffer_size
    then some (record n { logs = n.logs ++ log ∷ [] })
    else elim (slide n.logs log) [ none ↦ none | some ls ↦ some (record n { logs = ls }) ]

-- The loop of `Get`: the logs from the first that is later than the time.
unfoldable pub later : List NodeLog → ℕ → List NodeLog
later [] time = []
later (l ∷ ls) time = if ltb time l.time then l ∷ ls else later ls time

unfoldable pub get : NodeLogs → ℕ → List NodeLog
unfolding later
get n time = later n.logs time
