-- ===== src/Launcher/Closing.antt =====
-- A node is closed from the page of hBaseComponent/SelectGateComponent.go, which sets its status at the master of
-- hCluster/MasterComponent.go; hBaseComponent/LauncherComponent.go reads the status when the node shuts down and starts. Both
-- use the address of the configuration; the node reports under the address that hCluster/ChildComponent.go makes of its
-- connection's IP and the configured port.
use happy.Base.{
  ℕ, ◌≡◌, ◌⊎◌, inl, inr, sym, ap, ◌∙◌, subst, Bool, false, if◌then◌else◌, String, Option, none,
  some, List, ◌∷◌, All, string_eq, ◌==◌, Option-cases, arith,
}
use happy.Base.Maps.{lookup, lookup-insert}
use happy.Cluster.Types.{NodeInfo, Floats}
use happy.Cluster.Balancer.{Balancers}
use happy.Cluster.Master.{Master, Event, update_node_info, get_node_status, step, steps}
use happy.Actor.{Str}
use happy.Cluster.Child.{address_from}
use happy.Launcher.{ClusterConfig, closing_status, waits_to_close}
use happy.Launcher.Statuses.{
  IsUnmarked, IsHeardFrom, LeavesStatus, heard-IsUnmarked, later_of, steps-IsUnmarked,
}

-- What a node asks for and waits for at the status that it reads.
closing_status_read :
    (ask : Str → Option String) (c : ClusterConfig) (status : String)
    → ask c.local_address ≡ some status
    → closing_status ask c
      ≡ (if status == "WebClose" then some (c.local_address, "WaitPm2Close") else none)
unfolding closing_status
closing_status_read ask c status e =
    ap
      (λ o. elim o as (λ x. Option (Str × String)) [
        | none ↦ none
        | some s ↦ if s == "WebClose" then some (c.local_address, "WaitPm2Close") else none
      ])
      e

waits_to_close_read :
    (ask : Str → Option String) (c : ClusterConfig) (status : String)
    → ask c.local_address ≡ some status
    → waits_to_close ask c ≡ (status == "WaitPm2Close")
unfolding waits_to_close
waits_to_close_read ask c status e =
    ap (λ o. elim o as (λ x. Bool) [ none ↦ false | some s ↦ s == "WaitPm2Close" ]) e

unmarked_read :
    (ask : Str → Option String) (c : ClusterConfig)
    → (ask c.local_address ≡ some "Offline") ⊎ (ask c.local_address ≡ some "Online")
    → (closing_status ask c ≡ none) × (waits_to_close ask c ≡ false)
unmarked_read ask c (inl e) =
    (closing_status_read ask c "Offline" e, waits_to_close_read ask c "Offline" e)
unmarked_read ask c (inr e) =
    (closing_status_read ask c "Online" e, waits_to_close_read ask c "Online" e)

module _ (num : Floats) {D : Type 0} (lib : Balancers) where
  open num use {Float}

  -- `GetNodeStatus` of the master, which names addresses by their texts.
  abbrev pub ask : (Str → String) → Master num D lib → Str → Option String
  ask text m a = some (get_node_status num lib (text a) m)

  unmarked_status :
      (text : Str → String) (c : ClusterConfig) (m : Master num D lib)
      → IsUnmarked (lookup m.node_status (text c.local_address))
      → (closing_status (ask text m) c ≡ none) × (waits_to_close (ask text m) c ≡ false)
  unfolding get_node_status
  unmarked_status text c m (inl e) =
      unmarked_read (ask text m) c (inl (ap some (ground (arith, e))))
  unmarked_status text c m (inr e) =
      unmarked_read (ask text m) c (inr (ap some (ground (arith, e))))

  -- Where a node's connection to the master comes from the IP of its configured address, so that it reports under that
  -- very address: once the node has reported to the master, or has been closed there, whatever status it had before, the
  -- status that is read under its configured address afterwards neither makes it ask for WaitPm2Close when it shuts down
  -- nor wait when it starts, until the status of that address is set again. The status that a request to close it has
  -- set is lost.
  pub closing_status-steps :
      (text : Str → String) (c : ClusterConfig) (remote : Str) (e : Event Float D)
      (es : List (Event Float D)) (m m' : Master num D lib)
      → address_from remote c.local_address ≡ c.local_address
      → IsHeardFrom num lib (text (address_from remote c.local_address)) e
      → All (LeavesStatus num lib (text c.local_address)) es
      → steps num lib (e ∷ es) m ≡ some m'
      → (closing_status (ask text m') c ≡ none) × (waits_to_close (ask text m') c ≡ false)
  unfolding steps
  closing_status-steps text c remote e es m m' same heard leaves run =
      let heard' : IsHeardFrom num lib (text c.local_address) e =
        subst (λ a. IsHeardFrom num lib (text a) e) same heard in
      elim (Option-cases (step num lib e m)) [
        | inl f ↦ absurd (let bad : none ≡ some m' = sym (ap (later_of num lib es) f) ∙ run in cc)
        | inr (k, f) ↦ unmarked_status text c m' (
            steps-IsUnmarked num lib es (text c.local_address) k m' leaves
              (sym (ap (later_of num lib es) f) ∙ run)
              (heard-IsUnmarked num lib e (text c.local_address) m k heard' f))
      ]

  -- A node that reports under another address, as one that is configured with 0.0.0.0 does, leaves the request to close
  -- it, and asks for WaitPm2Close when it shuts down.
  pub closing_status-report :
      (text : Str → String) (c : ClusterConfig) (now : ℕ) (args : NodeInfo Float D)
      (m : Master num D lib)
      → (args.address == text c.local_address) ≡ false
      → lookup m.node_status (text c.local_address) ≡ some "WebClose"
      → closing_status (ask text (update_node_info num lib now args m)) c
        ≡ some (c.local_address, "WaitPm2Close")
  unfolding get_node_status update_node_info
  closing_status-report text c now args m other asked =
      closing_status_read (ask text (update_node_info num lib now args m)) c "WebClose" (
        ap some (
          ground (
            arith,
            lookup-insert m.node_status args.address (text c.local_address) "Online",
            other,
            asked,
          )))
