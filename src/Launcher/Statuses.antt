-- ===== src/Launcher/Statuses.antt =====
-- What the events at the master of hCluster/MasterComponent.go do to the status of a node.
use happy.Base.{
  ℕ, ◌+◌, ◌≡◌, ◌≢◌, ◌⊎◌, inl, inr, sym, ap, ◌∙◌, subst, String, Option, none, some, List, [], ◌∷◌,
  All, ltb, string_eq, ◌==◌, ==_self, Option-cases, Bool-cases, arith,
}
use happy.Base.Maps.{Map, lookup, insert, delete, lookup-insert, lookup-delete}
use happy.Cluster.Types.{Floats}
use happy.Cluster.Balancer.{Balancers}
use happy.Cluster.Logs.{add}
use happy.Cluster.Master.{
  Master, Event, report_node_info, report_node_close, timeout_check, set_status, update_node_info,
  forget, node_close, timeout_one, timeout_each, timeout_round, set_node_status, step, steps,
}
use happy.Cluster.Master.Timeout.{timeout_one_late, timeout_one_early}

-- A status that is absent or "Online".
abbrev pub IsUnmarked : Option String → Type 0
IsUnmarked o = (o ≡ none) ⊎ (o ≡ some "Online")

delete-IsUnmarked :
    (s : Map String String) (a addr : String)
    → IsUnmarked (lookup s addr)
    → IsUnmarked (lookup (delete s a) addr)
delete-IsUnmarked s a addr h = elim (Bool-cases (a == addr)) [
  | inl same ↦ inl (ground (arith, same, lookup-delete s a addr))
  | inr other ↦ subst IsUnmarked (sym (ground (arith, other, lookup-delete s a addr))) h
]

online-IsUnmarked :
    (s : Map String String) (a addr : String)
    → IsUnmarked (lookup s addr)
    → IsUnmarked (lookup (insert s a "Online") addr)
online-IsUnmarked s a addr h = elim (Bool-cases (a == addr)) [
  | inl same ↦ inr (ground (arith, same, lookup-insert s a addr "Online"))
  | inr other ↦ subst IsUnmarked (sym (ground (arith, other, lookup-insert s a addr "Online"))) h
]

module _ (num : Floats) {D : Type 0} (lib : Balancers) where
  open num use {Float}

  -- The node reports, or is closed at the master.
  abbrev pub IsHeardFrom : String → Event Float D → Type 0
  IsHeardFrom addr (report_node_info now args) = args.address ≡ addr
  IsHeardFrom addr (report_node_close now a) = a ≡ addr
  IsHeardFrom addr (timeout_check now) = ⊥
  IsHeardFrom addr (set_status a s) = ⊥

  abbrev pub LeavesStatus : String → Event Float D → Type 0
  LeavesStatus addr (report_node_info now args) = Unit
  LeavesStatus addr (report_node_close now a) = Unit
  LeavesStatus addr (timeout_check now) = Unit
  LeavesStatus addr (set_status a s) = a ≢ addr

  node_close-status :
      (now : ℕ) (a : String) (m m' : Master num D lib)
      → node_close num lib now a m ≡ some m'
      → m'.node_status ≡ delete m.node_status a
  unfolding node_close forget
  node_close-status now a m m' e =
      elim (Option-cases (add m.node_log (record { time = now; log = a; typ = 0 }))) [
        | inl f ↦ absurd (let bad : none ≡ some m' = sym (ground (arith, f)) ∙ e in cc)
        | inr (log, f) ↦
            let done : some (record (forget num lib a m) { node_log = log }) ≡ some m' =
              sym (ground (arith, f)) ∙ e in
            let same : record (forget num lib a m) { node_log = log } ≡ m' = cc in
            sym (ap (λ (k : Master num D lib). k.node_status) same)
      ]

  closed-IsUnmarked :
      (now : ℕ) (a addr : String) (m m' : Master num D lib)
      → node_close num lib now a m ≡ some m'
      → IsUnmarked (lookup m.node_status addr)
      → IsUnmarked (lookup m'.node_status addr)
  closed-IsUnmarked now a addr m m' e h =
      subst (λ s. IsUnmarked (lookup s addr)) (sym (node_close-status now a m m' e))
        (delete-IsUnmarked m.node_status a addr h)

  timeout_one-IsUnmarked :
      (now : ℕ) (e : String × ℕ) (addr : String) (m m' : Master num D lib)
      → timeout_one num lib now e m ≡ some m'
      → IsUnmarked (lookup m.node_status addr)
      → IsUnmarked (lookup m'.node_status addr)
  timeout_one-IsUnmarked now (a, c) addr m m' e h = elim (Bool-cases (ltb 3 (c + 1))) [
    | inl late ↦
        closed-IsUnmarked now a addr
          (record m { timeout_checking = insert m.timeout_checking a (c + 1) }) m'
          (sym (timeout_one_late now a c m late) ∙ e) h
    | inr early ↦
        let done : some (record m { timeout_checking = insert m.timeout_checking a (c + 1) })
            ≡ some m' =
          sym (timeout_one_early now a c m early) ∙ e in
        let same : record m { timeout_checking = insert m.timeout_checking a (c + 1) } ≡ m' = cc in
        subst (λ (k : Master num D lib). IsUnmarked (lookup k.node_status addr)) same h
  ]

  -- The rounds that follow one.
  abbrev rest_of : ℕ → List (String × ℕ) → Option (Master num D lib) → Option (Master num D lib)
  rest_of now es o = elim o as (λ x. Option (Master num D lib)) [
    | none ↦ none
    | some k ↦ timeout_each num lib now es k
  ]

  timeout_each-IsUnmarked :
      (now : ℕ) (es : List (String × ℕ)) (addr : String) (m m' : Master num D lib)
      → timeout_each num lib now es m ≡ some m'
      → IsUnmarked (lookup m.node_status addr)
      → IsUnmarked (lookup m'.node_status addr)
  unfolding timeout_each
  timeout_each-IsUnmarked now [] addr m m' e h =
      let same : m ≡ m' = cc in
      subst (λ (k : Master num D lib). IsUnmarked (lookup k.node_status addr)) same h
  timeout_each-IsUnmarked now (x ∷ es) addr m m' e h =
      elim (Option-cases (timeout_one num lib now x m)) [
        | inl f ↦ absurd (let bad : none ≡ some m' = sym (ap (λ o. rest_of now es o) f) ∙ e in cc)
        | inr (k, f) ↦
            timeout_each-IsUnmarked now es addr k m' (sym (ap (λ o. rest_of now es o) f) ∙ e)
              (timeout_one-IsUnmarked now x addr m k f h)
      ]

  step-IsUnmarked :
      (e : Event Float D) (addr : String) (m m' : Master num D lib)
      → LeavesStatus addr e
      → step num lib e m ≡ some m'
      → IsUnmarked (lookup m.node_status addr)
      → IsUnmarked (lookup m'.node_status addr)
  unfolding step update_node_info set_node_status timeout_round
  step-IsUnmarked (report_node_info now args) addr m m' l e h =
      let same : update_node_info num lib now args m ≡ m' = cc in
      subst (λ (k : Master num D lib). IsUnmarked (lookup k.node_status addr)) same
        (online-IsUnmarked m.node_status args.address addr h)
  step-IsUnmarked (report_node_close now a) addr m m' l e h = closed-IsUnmarked now a addr m m' e h
  step-IsUnmarked (timeout_check now) addr m m' l e h =
      timeout_each-IsUnmarked now m.timeout_checking addr m m' e h
  step-IsUnmarked (set_status a s) addr m m' l e h =
      let same : set_node_status num lib a s m ≡ m' = cc in
      subst (λ (k : Master num D lib). IsUnmarked (lookup k.node_status addr)) same
        (subst IsUnmarked
          (sym (ground (arith, l, string_eq.beq_iff a addr, lookup-insert m.node_status a addr s)))
          h)

  pub heard-IsUnmarked :
      (e : Event Float D) (addr : String) (m m' : Master num D lib)
      → IsHeardFrom addr e
      → step num lib e m ≡ some m'
      → IsUnmarked (lookup m'.node_status addr)
  unfolding step update_node_info
  heard-IsUnmarked (report_node_info now args) addr m m' l e =
      let same : update_node_info num lib now args m ≡ m' = cc in
      subst (λ (k : Master num D lib). IsUnmarked (lookup k.node_status addr)) same
        (inr
          (ground (arith, l, ==_self addr, lookup-insert m.node_status args.address addr "Online")))
  heard-IsUnmarked (report_node_close now a) addr m m' l e =
      subst (λ s. IsUnmarked (lookup s addr)) (sym (node_close-status now a m m' e))
        (inl (ground (arith, l, ==_self addr, lookup-delete m.node_status a addr)))
  heard-IsUnmarked (timeout_check now) addr m m' l e = absurd l
  heard-IsUnmarked (set_status a s) addr m m' l e = absurd l

  abbrev pub later_of : List (Event Float D) → Option (Master num D lib) → Option (Master num D lib)
  later_of es o = elim o as (λ x. Option (Master num D lib)) [
    | none ↦ none
    | some k ↦ steps num lib es k
  ]

  pub steps-IsUnmarked :
      (es : List (Event Float D)) (addr : String) (m m' : Master num D lib)
      → All (LeavesStatus addr) es
      → steps num lib es m ≡ some m'
      → IsUnmarked (lookup m.node_status addr)
      → IsUnmarked (lookup m'.node_status addr)
  unfolding steps
  steps-IsUnmarked [] addr m m' l e h =
      let same : m ≡ m' = cc in
      subst (λ (k : Master num D lib). IsUnmarked (lookup k.node_status addr)) same h
  steps-IsUnmarked (x ∷ es) addr m m' (l, ls) e h = elim (Option-cases (step num lib x m)) [
    | inl f ↦ absurd (let bad : none ≡ some m' = sym (ap (later_of es) f) ∙ e in cc)
    | inr (k, f) ↦
        steps-IsUnmarked es addr k m' ls (sym (ap (later_of es) f) ∙ e)
          (step-IsUnmarked x addr m k l f h)
  ]
