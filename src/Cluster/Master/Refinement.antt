-- ===== src/Cluster/Master/Refinement.antt =====
-- What the master of hCluster/MasterComponent.go promises: a watch over nodes that report.
use mathlib.Core.Path.{fun_ext}
use happy.Base.{
  ℕ, suc, Bool, ◌+◌, ◌≤◌, ◌≡◌, refl, ap, ◌∙◌, String, false, Option, none, some, List, [], ◌∷◌, ltb,
  ◌==◌, string_eq, if◌then◌else◌, arith, inl, inr, Bool-cases, ==_self, All,
}
use happy.Base.Maps.{lookup, lookup-insert, is_some}
use happy.Cluster.Types.{NodeInfo, Floats}
use happy.Cluster.Balancer.{Balancers, Pools, Serves}
use happy.Cluster.Master.{
  Master, Event, report_node_info, report_node_close, timeout_check, set_status, update_node_info,
  set_node_status, step, steps, new_master, Operation, changes, inquires, operate, node_inquiry,
  unless_panics,
}
use happy.Cluster.Master.Invariant.{
  IsTied, node_close-IsTied, update_node_info-IsTied, set_node_status-IsTied,
}
use happy.Cluster.Master.Timeout.{timeout_round-Ages}
use happy.Cluster.Selector.{Outcome, panics, answers}
use happy.Cluster.Selector.Panics.{Returns}
use happy.Cluster.Selector.Hosts.{do_query-Serves}

-- The abstract state: at an address a node with the number of rounds since its last report.
abbrev pub Watch : Type 0 → Type 0 → Type 0
Watch F D = String → Option (NodeInfo F D × ℕ)

module _ {F D : Type 0} where
  abbrev pub grow : Option (NodeInfo F D × ℕ) → Option (NodeInfo F D × ℕ)
  grow none = none
  grow (some (info, rounds)) = if ltb rounds 3 then some (info, rounds + 1) else none

  -- A report starts the count anew; a close removes; a round removes who has missed three before.
  abbrev pub observe : Event F D → Watch F D → Watch F D
  observe (report_node_info now args) w a =
      if args.address == a then some (record args { time = now }, 0) else w a
  observe (report_node_close now addr) w a = if addr == a then none else w a
  observe (timeout_check now) w a = grow (w a)
  observe (set_status addr status) w a = w a

  abbrev pub observe_operation : Operation F D → Watch F D → Watch F D
  observe_operation (changes e) w = observe e w
  observe_operation (inquires draw args detail) w = w

  abbrev pub observe_all : List (Event F D) → Watch F D → Watch F D
  observe_all [] w = w
  observe_all (e ∷ es) w = observe_all es (observe e w)

  -- Neither a report nor a close of this address.
  abbrev pub Quiet : String → Event F D → Type 0
  Quiet a (report_node_info now args) = (args.address == a) ≡ false
  Quiet a (report_node_close now addr) = (addr == a) ≡ false
  Quiet a _ = Unit

  abbrev pub rounds : List (Event F D) → ℕ
  rounds [] = 0
  rounds (timeout_check now ∷ es) = suc (rounds es)
  rounds (report_node_info now args ∷ es) = rounds es
  rounds (report_node_close now addr ∷ es) = rounds es
  rounds (set_status addr status ∷ es) = rounds es

  observe_all_absent :
      (es : List (Event F D)) (w : Watch F D) (a : String)
      → All (Quiet a) es
      → w a ≡ none
      → observe_all es w a ≡ none
  observe_all_absent [] w a q h = h
  observe_all_absent (report_node_info now args ∷ es) w a q h =
      observe_all_absent es _ a q.1 (ground (arith, q.0, h))
  observe_all_absent (report_node_close now addr ∷ es) w a q h =
      observe_all_absent es _ a q.1 (ground (arith, q.0, h))
  observe_all_absent (timeout_check now ∷ es) w a q h =
      observe_all_absent es _ a q.1 (ground (arith, h))
  observe_all_absent (set_status addr status ∷ es) w a q h = observe_all_absent es _ a q.1 h

  observe_all-Quiet :
      (es : List (Event F D)) (w : Watch F D) (a : String) (info : NodeInfo F D) (c : ℕ)
      → All (Quiet a) es
      → c ≤ 3
      → w a ≡ some (info, c)
      → observe_all es w a ≡ (if ltb 3 (c + rounds es) then none else some (info, c + rounds es))
  observe_all-Quiet [] w a info c q le h = ground (arith, h)
  observe_all-Quiet (report_node_info now args ∷ es) w a info c q le h =
      observe_all-Quiet es _ a info c q.1 le (ground (arith, q.0, h))
  observe_all-Quiet (report_node_close now addr ∷ es) w a info c q le h =
      observe_all-Quiet es _ a info c q.1 le (ground (arith, q.0, h))
  observe_all-Quiet (timeout_check now ∷ es) w a info c q le h = elim (Bool-cases (ltb c 3)) [
    | inl young ↦
        let rest =
          observe_all-Quiet es (observe (timeout_check now) w) a info (c + 1) q.1 (ground arith)
            (ground (arith, h)) in
        ground (arith, rest)
    | inr old ↦
        let rest =
          observe_all_absent es (observe (timeout_check now) w) a q.1 (ground (arith, h)) in
        ground (arith, rest)
  ]
  observe_all-Quiet (set_status addr status ∷ es) w a info c q le h =
      observe_all-Quiet es _ a info c q.1 le h

  observe_all-eq :
      (es : List (Event F D)) (w u : Watch F D)
      → ((a : String) → w a ≡ u a)
      → (a : String) → observe_all es w a ≡ observe_all es u a
  observe_all-eq es w u h a = ap (λ x. observe_all es x a) (fun_ext h)

abbrev both : {A B : Type 0} → Option A → Option B → Option (A × B)
both none y = none
both (some x) none = none
both (some x) (some y) = some (x, y)

module _ {num : Floats} {D : Type 0} {lib : Balancers} where
  open num use {Float}

  -- The abstract state of a master: its two maps read together.
  abbrev pub watch : Master num D lib → Watch Float D
  watch m a = both (lookup m.nodes a) (lookup m.timeout_checking a)

  report-watch :
      (now : ℕ) (args : NodeInfo Float D) (m : Master num D lib) (a : String)
      → watch (update_node_info num lib now args m) a
        ≡ observe (report_node_info now args) (watch m) a
  unfolding update_node_info
  report-watch now args m a = ground (
    arith,
    lookup-insert m.nodes args.address a (record args { time = now }),
    lookup-insert m.timeout_checking args.address a 0,
  )

  status-watch :
      (addr status : String) (m : Master num D lib) (a : String)
      → watch (set_node_status num lib addr status m) a ≡ watch m a
  unfolding set_node_status
  status-watch addr status m a = refl

  -- Every event on a consistent master goes through, and acts as on the abstract watch.
  step-watch :
      (e : Event Float D) (m : Master num D lib)
      → IsTied m
      → (m' : Master num D lib) × (step num lib e m ≡ some m')
        × IsTied m'
        × ((a : String) → watch m' a ≡ observe e (watch m) a)
  unfolding step
  step-watch (report_node_info now args) m v = (
    update_node_info num lib now args m,
    refl,
    update_node_info-IsTied now args m v,
    report-watch now args m,
  )
  step-watch (report_node_close now addr) m v =
      let (m', e, v', (n, t)) = node_close-IsTied now addr m v in
      (m', e, v', λ a. ground (arith, n a, t a))
  step-watch (timeout_check now) m v =
      let (m', e, v', (n, t)) = timeout_round-Ages now m v in
      (m', e, v', λ a. ground (arith, n a, t a, v.tied a))
  step-watch (set_status addr status) m v = (
    set_node_status num lib addr status m,
    refl,
    set_node_status-IsTied addr status m v,
    status-watch addr status m,
  )

  -- A query goes through where `DoQuery` does not panic.
  abbrev pub Goes : Operation Float D → Master num D lib → Type 0
  Goes (changes e) m = Unit
  Goes (inquires draw args detail) m = Returns (node_inquiry num lib draw args detail m).1

  inquiry-IsTied :
      (draw : ℕ) (args : List String) (detail : Bool) (m : Master num D lib)
      → IsTied m
      → IsTied (node_inquiry num lib draw args detail m).0
  unfolding node_inquiry
  inquiry-IsTied draw args detail m v = record {
    nodes_map = v.nodes_map;
    timeouts_map = v.timeouts_map;
    tied = v.tied;
    named = v.named;
    status = v.status;
    log = v.log;
    serves =
        do_query-Serves num lib (λ a. is_some (lookup m.nodes a)) [] draw m.nodes m.pools args
          detail v.serves;
  }

  inquiry-watch :
      (draw : ℕ) (args : List String) (detail : Bool) (m : Master num D lib) (a : String)
      → watch (node_inquiry num lib draw args detail m).0 a ≡ watch m a
  unfolding node_inquiry
  inquiry-watch draw args detail m a = refl

  unless_panics_lem :
      (m : Master num D lib) (o : Outcome Float D) → Returns o → unless_panics m o ≡ some m
  unless_panics_lem m panics r = absurd r
  unless_panics_lem m (answers rs err) r = refl

  -- A report, a close, a round of the timeout check, a status and a query, except a query on which DoQuery panics, go
  -- through on a consistent master, whatever their arguments; they leave it consistent, and their effect on the nodes
  -- and their counts is that of the abstract watch, on which a query has none.
  pub operate-watch :
      (o : Operation Float D) (m : Master num D lib)
      → IsTied m
      → Goes o m
      → (m' : Master num D lib) × (operate num lib o m ≡ some m')
        × IsTied m'
        × ((a : String) → watch m' a ≡ observe_operation o (watch m) a)
  unfolding operate
  operate-watch (changes e) m v g = step-watch e m v
  operate-watch (inquires draw args detail) m v g = (
    (node_inquiry num lib draw args detail m).0,
    unless_panics_lem (node_inquiry num lib draw args detail m).0
        (node_inquiry num lib draw args detail m).1 g,
    inquiry-IsTied draw args detail m v,
    inquiry-watch draw args detail m,
  )

  steps_next :
      (e : Event Float D) (es : List (Event Float D)) (m m' : Master num D lib)
      → step num lib e m ≡ some m'
      → steps num lib (e ∷ es) m ≡ steps num lib es m'
  unfolding steps
  steps_next e es m m' h =
      ap
        (λ (o : Option (Master num D lib)). elim o as (λ x. Option (Master num D lib)) [
          | none ↦ none
          | some n ↦ steps num lib es n
        ])
        h

  -- The same for any sequence of events.
  pub steps-watch :
      (es : List (Event Float D)) (m : Master num D lib)
      → IsTied m
      → (m' : Master num D lib) × (steps num lib es m ≡ some m')
        × IsTied m'
        × ((a : String) → watch m' a ≡ observe_all es (watch m) a)
  unfolding steps
  steps-watch [] m v = (m, refl, v, λ a. refl)
  steps-watch (e ∷ es) m v =
      let (m1, p1, v1, w1) = step-watch e m v in
      let (m2, p2, v2, w2) = steps-watch es m1 v1 in
      (
        m2,
        steps_next e es m m1 p1 ∙ p2,
        v2,
        λ a. w2 a ∙ observe_all-eq es (watch m1) (observe e (watch m)) w1 a,
      )

  -- A node that reports and then neither reports nor closes is known to the master, with what it reported,
  -- until the fourth round of the timeout check that follows, and not after it: whatever else happens.
  pub steps-silent :
      (now : ℕ) (args : NodeInfo Float D) (es : List (Event Float D)) (m : Master num D lib)
      → IsTied m
      → All (Quiet args.address) es
      → (m' : Master num D lib) × (steps num lib (report_node_info now args ∷ es) m ≡ some m')
        × (lookup m'.nodes args.address
            ≡ (if ltb 3 (rounds es) then none else some (record args { time = now })))
  steps-silent now args es m v q =
      let (m', p, v', w) = steps-watch (report_node_info now args ∷ es) m v in
      let a = args.address in
      let seen =
        observe_all-Quiet es (observe (report_node_info now args) (watch m)) a
          (record args { time = now }) 0 q (omega arith) (ground (arith, ==_self a)) in
      (m', p, ground (arith, w a, seen, v'.tied a))

  -- A new master whose pools have no host is consistent.
  pub new_master-IsTied :
      (pools : Pools lib)
      → Serves lib pools (λ a. false)
      → IsTied {D = D} (new_master num lib pools)
  unfolding lookup
  new_master-IsTied pools v = record {
    nodes_map = tt;
    timeouts_map = tt;
    tied = λ a. refl;
    named = λ a info e. cc;
    status = λ a h. cc;
    serves = v;
    log = (omega arith, omega arith);
  }
