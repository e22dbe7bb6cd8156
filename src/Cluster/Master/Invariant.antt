-- ===== src/Cluster/Master/Invariant.antt =====
-- The master's state is consistent: MasterComponent of hCluster/MasterComponent.go.
use happy.Base.{
  ℕ, ◌≤◌, ◌<◌, ◌≡◌, refl, ap, String, true, false, not, ◌&&◌, ◌||◌, Option, none, some, List, [],
  ◌∷◌, length, length-append, ltb, ltb→lt, ltb→le, ◌++◌, ◌==◌, string_eq, if◌then◌else◌, arith, inl,
  inr, Bool-cases,
}
use happy.Base.Maps.{
  lookup, insert, is_some, IsMap, lookup-insert, lookup-delete, IsMap-insert, IsMap-delete,
}
use happy.Cluster.Types.{NodeInfo, Floats}
use happy.Cluster.Balancer.{Balancers, Serves, join-Serves, leave-Serves, Serves-eq}
use happy.Cluster.Logs.{NodeLog, NodeLogs, add, slide}
use happy.Cluster.Master.{Master, update_node_info, forget, node_close, set_node_status}

abbrev pub IsLog : NodeLogs → Type 0
IsLog n = (0 < n.buffer_size) × (length n.logs ≤ n.buffer_size)

slide-length :
    (ls : List NodeLog) (l : NodeLog)
    → 0 < length ls
    → (ls' : List NodeLog) × (slide ls l ≡ some ls') × (length ls' ≡ length ls)
unfolding slide
slide-length [] l h = absurd (omega arith)
slide-length (k ∷ ls) l h = (ls ++ l ∷ [], refl, omega (arith, length-append {0} ls (l ∷ [])))

add_few :
    (n : NodeLogs) (l : NodeLog)
    → ltb (length n.logs) n.buffer_size ≡ true
    → add n l ≡ some (record n { logs = n.logs ++ l ∷ [] })
unfolding add
add_few n l few = rw few refl

add_full :
    (n : NodeLogs) (l : NodeLog) (ls : List NodeLog)
    → ltb (length n.logs) n.buffer_size ≡ false
    → slide n.logs l ≡ some ls
    → add n l ≡ some (record n { logs = ls })
unfolding add
add_full n l ls full e = rw (full, e) refl

add-IsLog :
    (n : NodeLogs) (l : NodeLog) → IsLog n → (n' : NodeLogs) × (add n l ≡ some n') × IsLog n'
add-IsLog n l v = elim (Bool-cases (ltb (length n.logs) n.buffer_size)) [
  | inl few ↦ (
    record n { logs = n.logs ++ l ∷ [] },
    add_few n l few,
    (v.0, omega (arith, length-append {0} n.logs (l ∷ []), ltb→lt _ _ few)),
  )
  | inr full ↦
      let (ls, e, size) = slide-length n.logs l (omega (arith, v.0, ltb→le _ _ full)) in
      (record n { logs = ls }, add_full n l ls full e, (v.0, omega (arith, size, v.1)))
]

module _ {num : Floats} {D : Type 0} {lib : Balancers} where
  open num use {Float}

  -- The nodes are the addresses that are watched, each under its own address and with a status; the
  -- three balancers have them as their hosts, and the log keeps to its size.
  pub record IsTied (m : Master num D lib) : Type 0 where
    pub nodes_map : IsMap m.nodes
    pub timeouts_map : IsMap m.timeout_checking
    pub tied : (a : String) → is_some (lookup m.nodes a) ≡ is_some (lookup m.timeout_checking a)
    pub named :
        (a : String) (info : NodeInfo Float D) → lookup m.nodes a ≡ some info → info.address ≡ a
    pub status :
        (a : String) → is_some (lookup m.nodes a) ≡ true → is_some (lookup m.node_status a) ≡ true
    pub serves : Serves lib m.pools (λ a. is_some (lookup m.nodes a))
    pub log : IsLog m.node_log

  pub update_node_info-IsTied :
      (now : ℕ) (args : NodeInfo Float D) (m : Master num D lib)
      → IsTied m
      → IsTied (update_node_info num lib now args m)
  unfolding update_node_info
  update_node_info-IsTied now args m v =
      let addr = args.address in
      record {
        nodes_map = IsMap-insert m.nodes addr (record args { time = now }) v.nodes_map;
        timeouts_map = IsMap-insert m.timeout_checking addr 0 v.timeouts_map;
        tied = λ a. ground (
          arith,
          v.tied a,
          lookup-insert m.nodes addr a (record args { time = now }),
          lookup-insert m.timeout_checking addr a 0,
        );
        named = λ a info e. ground (
          arith,
          v.named a info,
          lookup-insert m.nodes addr a (record args { time = now }),
          string_eq.beq_iff addr a,
          e,
        );
        status = λ a h. ground (
          arith,
          v.status a,
          lookup-insert m.nodes addr a (record args { time = now }),
          lookup-insert m.node_status addr a "Online",
          h,
        );
        serves =
            Serves-eq lib (update_node_info num lib now args m).pools
              (λ a. addr == a || is_some (lookup m.nodes a))
              (λ a. is_some (lookup (update_node_info num lib now args m).nodes a))
              (λ a. ground (arith, lookup-insert m.nodes addr a (record args { time = now })))
              (join-Serves lib m.pools (λ a. is_some (lookup m.nodes a)) addr v.serves);
        log = v.log;
      }

  forget-IsTied : (addr : String) (m : Master num D lib) → IsTied m → IsTied (forget num lib addr m)
  unfolding forget
  forget-IsTied addr m v = record {
    nodes_map = IsMap-delete m.nodes addr v.nodes_map;
    timeouts_map = IsMap-delete m.timeout_checking addr v.timeouts_map;
    tied = λ a.
        ground
          (arith, v.tied a, lookup-delete m.nodes addr a, lookup-delete m.timeout_checking addr a);
    named = λ a info e. ground (arith, v.named a info, lookup-delete m.nodes addr a, e);
    status = λ a h.
        ground
          (arith, v.status a, lookup-delete m.nodes addr a, lookup-delete m.node_status addr a, h);
    serves =
        Serves-eq lib (forget num lib addr m).pools
          (λ a. not (addr == a) && is_some (lookup m.nodes a))
          (λ a. is_some (lookup (forget num lib addr m).nodes a))
          (λ a. ground (arith, lookup-delete m.nodes addr a))
          (leave-Serves lib m.pools (λ a. is_some (lookup m.nodes a)) addr v.serves);
    log = v.log;
  }

  -- What closing a node does to the maps.
  abbrev pub Forgets : String → Master num D lib → Master num D lib → Type 0
  Forgets addr m m' =
      ((a : String) → lookup m'.nodes a ≡ (if addr == a then none else lookup m.nodes a))
      × ((a : String)
          → lookup m'.timeout_checking a
            ≡ (if addr == a then none else lookup m.timeout_checking a))

  node_close_logged :
      (now : ℕ) (addr : String) (m : Master num D lib) (log : NodeLogs)
      → add m.node_log (record { time = now; log = addr; typ = 0 }) ≡ some log
      → node_close num lib now addr m ≡ some (record (forget num lib addr m) { node_log = log })
  unfolding node_close
  node_close_logged now addr m log e =
      ap
        (λ (o : Option NodeLogs). elim o as (λ x. Option (Master num D lib)) [
          | none ↦ none
          | some l ↦ some (record (forget num lib addr m) { node_log = l })
        ])
        e

  forget-Forgets : (addr : String) (m : Master num D lib) → Forgets addr m (forget num lib addr m)
  unfolding forget
  forget-Forgets addr m =
      (λ a. lookup-delete m.nodes addr a, λ a. lookup-delete m.timeout_checking addr a)

  pub node_close-IsTied :
      (now : ℕ) (addr : String) (m : Master num D lib)
      → IsTied m
      → (m' : Master num D lib) × (node_close num lib now addr m ≡ some m')
        × IsTied m'
        × Forgets addr m m'
  node_close-IsTied now addr m v =
      let (log, e, fits) =
        add-IsLog m.node_log (record { time = now; log = addr; typ = 0 }) v.log in
      let f = forget-IsTied addr m v in
      (
        record (forget num lib addr m) { node_log = log },
        node_close_logged now addr m log e,
        record {
          nodes_map = f.nodes_map;
          timeouts_map = f.timeouts_map;
          tied = f.tied;
          named = f.named;
          status = f.status;
          serves = f.serves;
          log = fits;
        },
        forget-Forgets addr m,
      )

  pub set_node_status-IsTied :
      (addr status : String) (m : Master num D lib)
      → IsTied m
      → IsTied (set_node_status num lib addr status m)
  unfolding set_node_status
  set_node_status-IsTied addr status m v = record {
    nodes_map = v.nodes_map;
    timeouts_map = v.timeouts_map;
    tied = v.tied;
    named = v.named;
    status = λ a h. ground (arith, v.status a h, lookup-insert m.node_status addr a status);
    serves = v.serves;
    log = v.log;
  }

  pub count-IsTied :
      (addr : String) (count : ℕ) (m : Master num D lib)
      → IsTied m
      → is_some (lookup m.timeout_checking addr) ≡ true
      → IsTied (record m { timeout_checking = insert m.timeout_checking addr count })
  count-IsTied addr count m v known = record {
    nodes_map = v.nodes_map;
    timeouts_map = IsMap-insert m.timeout_checking addr count v.timeouts_map;
    tied = λ a. ground (
      arith,
      v.tied a,
      v.tied addr,
      known,
      lookup-insert m.timeout_checking addr a count,
      string_eq.beq_iff addr a,
    );
    named = v.named;
    status = v.status;
    serves = v.serves;
    log = v.log;
  }
