-- ===== src/Cluster/Child.antt =====
-- hCluster/ChildComponent.go: how a node reports to the master. An address is the list of its bytes. The loop of `DoReport`
-- waits for the master and the address, then takes the address once and for all. A round of it makes up a report under
-- the lock and sends it after that: `round` is the report that is made up and not sent. `sent` and `closed_at` record
-- the calls of the master, with the address that they give.
pub mod Reporting
use happy.Base.{
  ℕ, zero, suc, ◌+◌, Bool, true, false, not, ◌&&◌, ◌||◌, Option, none, some, List, [], ◌∷◌, ◌++◌,
  contains, nat_eq, string_eq, String, ◌==◌, ◌≡◌, ◌≢◌, get_or, if◌then◌else◌,
}
use happy.Base.Maps.{Map}
use happy.Actor.{Str, colon, split}

-- The parts of the configuration that are read, and the collector's report.
pub record Config : Type 0 where
  pub role : List String
  pub local_address : Str
  pub net_listen_address_alias : Str

pub record Child (F : Type 0) : Type 0 where
  pub local_addr : Str
  pub net_addr : Str
  pub has_master : Bool
  pub close : Bool
  pub report_collecter : Option (Map String F)
  pub reported_addr : Option Str
  pub is_online : Bool
  pub round : Option (Map String F)
  pub sent : List (Str × Map String F)
  pub closed_at : List Str

-- `strings.Split(a, ":")[0]` and `[1]`; an address has two parts.
unfoldable pub address_from : Str → Str → Str
unfolding split
address_from remote config = get_or (split remote) 0 [] ++ colon ∷ get_or (split config) 1 []

module _ {F : Type 0} where
  -- A round of `ConnectToMaster`: the local address of the connection, if it is made, and what follows the loop.
  unfoldable pub connect_to_master : Config → Option Str → Child F → Child F
  unfolding address_from
  connect_to_master config none c = record c { has_master = false }
  connect_to_master config (some local) c = record c {
    has_master = true;
    local_addr = address_from local config.local_address;
    net_addr = if contains config.role "gate" then config.net_listen_address_alias else c.net_addr;
    is_online = true;
  }

  -- `OnDropped`, up to the connecting.
  unfoldable pub on_dropped : Child F → Child F
  on_dropped c = if c.close then c else record c { is_online = false }

  -- `AddReportInfo`; there is one collector, whatever the field.
  unfoldable pub add_report_info : Map String F → Child F → Child F
  add_report_info m c = record c { report_collecter = some m }

  abbrev pub collected : Option (Map String F) → Map String F
  collected none = []
  collected (some m) = m

  -- The end of the wait in `DoReport`.
  unfoldable pub start_report : Child F → Child F
  start_report c = record c { reported_addr = some c.local_addr }

  -- The first part of a round of the loop of `DoReport`.
  unfoldable pub make_report : Child F → Child F
  make_report c = if c.close then c else record c { round = some (collected c.report_collecter) }

  -- The second part, for the address that the loop has taken.
  abbrev pub send_made : Str → Option (Map String F) → Child F → Child F
  send_made addr none c = c
  send_made addr (some m) c =
      if c.has_master
      then record c { round = none; sent = (addr, m) ∷ c.sent }
      else record c { round = none }

  unfoldable pub send_report : Str → Child F → Child F
  send_report addr c = send_made addr c.round c

  -- `Destroy`, with `ReportClose`.
  unfoldable pub destroy : Child F → Child F
  destroy c =
      if c.has_master
      then record c { close = true; closed_at = c.local_addr ∷ c.closed_at }
      else record c { close = true }

  pub data Step (config : Config) : Child F → Child F → Type 0 where
    tries : (c : Child F) (o : Option Str) → Step config c (connect_to_master config o c)
    drops : (c : Child F) → Step config c (on_dropped c)
    collects : (c : Child F) (m : Map String F) → Step config c (add_report_info m c)
    starts :
        (c : Child F)
        → c.reported_addr ≡ none
        → c.has_master ≡ true
        → c.local_addr ≢ []
        → Step config c (start_report c)
    makes :
        (c : Child F) (addr : Str)
        → c.reported_addr ≡ some addr
        → c.round ≡ none
        → Step config c (make_report c)
    sends :
        (c : Child F) (addr : Str)
        → c.reported_addr ≡ some addr
        → Step config c (send_report addr c)
    destroys : (c : Child F) → Step config c (destroy c)

  pub data Steps (config : Config) (c : Child F) : Child F → Type 0 where
    here : Steps config c c
    next : {d e : Child F} → Steps config c d → Step config d e → Steps config c e
