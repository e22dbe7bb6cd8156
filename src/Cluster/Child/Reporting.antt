-- ===== src/Cluster/Child/Reporting.antt =====
-- What a node reports, after hCluster/ChildComponent.go.
use happy.Base.{
  ℕ, ◌+◌, ◌≤◌, ◌≡◌, refl, sym, ◌∙◌, subst, String, true, Option, none, some, [], length, All, arith,
  Bool-cases, inl, inr,
}
use happy.Base.Maps.{Map}
use happy.Actor.{Str}
use happy.Cluster.Child.{
  Config, Child, connect_to_master, on_dropped, add_report_info, start_report, make_report,
  send_made, send_report, destroy, Step, tries, drops, collects, starts, makes, sends, destroys,
  Steps, here, next,
}

module _ {F : Type 0} where
  -- The reports that have been sent or are made up.
  abbrev pub pending : Option (Map String F) → ℕ
  pending none = 0
  pending (some m) = 1

  abbrev pub reports : Child F → ℕ
  reports c = length c.sent + pending c.round

  abbrev pub IsClosing : ℕ → Child F → Type 0
  IsClosing n d = (d.close ≡ true) × (reports d ≤ n)

  send_made-IsClosing :
      (n : ℕ) (addr : Str) (r : Option (Map String F)) (d : Child F)
      → d.round ≡ r
      → IsClosing n d
      → IsClosing n (send_made addr r d)
  send_made-IsClosing n addr none d e h = h
  send_made-IsClosing n addr (some m) d e h =
      let few : length d.sent + 1 ≤ n = subst (λ r. length d.sent + pending r ≤ n) e h.1 in
      elim (Bool-cases d.has_master) [
        | inl up ↦ rw up (h.0, omega (few, arith))
        | inr down ↦ rw down (h.0, omega (few, arith))
      ]

  abbrev pub IsReporting : Str → Child F → Type 0
  IsReporting addr d = (d.reported_addr ≡ some addr) × All (λ s. s.0 ≡ addr) d.sent

  send_made-IsReporting :
      (addr a : Str) (r : Option (Map String F)) (d : Child F)
      → d.reported_addr ≡ some a
      → IsReporting addr d
      → IsReporting addr (send_made a r d)
  send_made-IsReporting addr a none d e h = h
  send_made-IsReporting addr a (some m) d e h =
      let same : a ≡ addr = (let both : some a ≡ some addr = sym e ∙ h.0 in cc) in
      elim (Bool-cases d.has_master) [ inl up ↦ rw up (h.0, (same, h.1)) | inr down ↦ rw down h ]

module _ {F : Type 0} (config : Config) where
  Step-IsClosing : (n : ℕ) {d e : Child F} → Step config d e → IsClosing n d → IsClosing n e
  unfolding connect_to_master on_dropped add_report_info start_report make_report send_report
      destroy
  Step-IsClosing n (tries d none) h = h
  Step-IsClosing n (tries d (some a)) h = h
  Step-IsClosing n (drops d) h = rw h.0 (refl, h.1)
  Step-IsClosing n (collects d m) h = h
  Step-IsClosing n (starts d u m l) h = h
  Step-IsClosing n (makes d addr e u) h = rw h.0 (refl, h.1)
  Step-IsClosing n (sends d addr e) h = send_made-IsClosing n addr d.round d refl h
  Step-IsClosing n (destroys d) h = elim (Bool-cases d.has_master) [
    | inl up ↦ rw up (refl, h.1)
    | inr down ↦ rw down (refl, h.1)
  ]

  -- A node that is closed stays so and sends at most one report more, which is made up already: none if there is no such
  -- report.
  pub Steps-IsClosing :
      (c : Child F) {d : Child F}
      → c.close ≡ true
      → Steps config c d
      → (d.close ≡ true) × (reports d ≤ reports c)
  Steps-IsClosing c closed here = (closed, omega arith)
  Steps-IsClosing c closed (next r st) = Step-IsClosing (reports c) st (Steps-IsClosing c closed r)

  Step-IsReporting :
      (addr : Str) {d e : Child F} → Step config d e → IsReporting addr d → IsReporting addr e
  unfolding connect_to_master on_dropped add_report_info start_report make_report send_report
      destroy
  Step-IsReporting addr (tries d none) h = h
  Step-IsReporting addr (tries d (some a)) h = h
  Step-IsReporting addr (drops d) h = ground (arith, h.0, h.1)
  Step-IsReporting addr (collects d m) h = h
  Step-IsReporting addr (starts d n m l) h = absurd (let bad : none ≡ some addr = sym n ∙ h.0 in cc)
  Step-IsReporting addr (makes d a e u) h = ground (arith, h.0, h.1)
  Step-IsReporting addr (sends d a e) h = send_made-IsReporting addr a d.round d e h
  Step-IsReporting addr (destroys d) h = ground (arith, h.0, h.1)

  Steps-IsReporting-from :
      (addr : Str) (c : Child F) {d : Child F}
      → IsReporting addr c
      → Steps config c d
      → IsReporting addr d
  Steps-IsReporting-from addr c h here = h
  Steps-IsReporting-from addr c h (next r st) =
      Step-IsReporting addr st (Steps-IsReporting-from addr c h r)

  -- All reports give the address that the node had when its reporting started, whatever address it gets by connecting
  -- again.
  pub Steps-IsReporting :
      (addr : Str) (c : Child F) {d : Child F}
      → c.reported_addr ≡ some addr
      → c.sent ≡ []
      → Steps config c d
      → All (λ s. s.0 ≡ addr) d.sent
  Steps-IsReporting addr c taken fresh r =
      (Steps-IsReporting-from addr c (taken, subst (λ l. All (λ s. s.0 ≡ addr) l) (sym fresh) tt)
        r).1
