-- ===== src/Cluster/Node/Connecting.antt =====
-- Who connects in `GetNodeClient` of hCluster/NodeComponent.go, and how long the others wait.
use happy.Base.{
  ℕ, zero, suc, ◌+◌, ◌≤◌, ◌≡◌, refl, sym, ap, ◌∙◌, subst, String, Bool, true, false, Option, none,
  some, [], ltb, ◌==◌, string_eq, if◌then◌else◌, arith, Option-cases, Bool-cases, inl, inr, ==_self,
}
use happy.Base.Maps.{Map, lookup, insert, lookup-insert, lookup-delete}
use happy.Cluster.Node.{Node}
use happy.Cluster.Node.Clients.{
  Attempt, returns, gives_up, waits, begin_absent, begin_get, retry, end_get, client_callback, Net,
  change, connects_one, Step, asks, asks_late, stores, connected, closes, Steps, here, next, Getter,
  checks, enters, GetterSteps, start, later,
}

abbrev pub one_if_some : Option ℕ → ℕ
one_if_some none = 0
one_if_some (some k) = 1

one_at_most : (o : Option ℕ) → one_if_some o ≤ 1
one_at_most none = omega arith
one_at_most (some k) = omega arith

lookup_nothing : (m : Map String ℕ) (a : String) → m ≡ [] → lookup m a ≡ none
unfolding lookup
lookup_nothing m a e = ap (λ l. lookup l a) e

ended_last : (o : Option ℕ) (k : ℕ) → suc k ≡ one_if_some o → k ≡ 0
ended_last none k h = absurd (omega arith)
ended_last (some j) k h = omega arith

module _ {L C : Type 0} (is_closed : C → Bool) where
  -- One goroutine connects to an address that has a count, and none to any other.
  abbrev pub IsExclusive : Net L C → Type 0
  IsExclusive t = (a : String) → t.connecting a ≡ one_if_some (lookup t.node.client_getting a)

  absent-IsExclusive :
      (t : Net L C) (addr : String) (o : Option ℕ)
      → lookup t.node.client_getting addr ≡ o
      → IsExclusive t
      → IsExclusive (record {
        node = (begin_absent addr o t.node).0;
        connecting = connects_one (begin_absent addr o t.node).1 addr t.connecting;
      })
  absent-IsExclusive t addr none e h a = ground (
    arith,
    e,
    h a,
    h addr,
    lookup-insert t.node.client_getting addr a 0,
    string_eq.beq_iff addr a,
  )
  absent-IsExclusive t addr (some k) e h a = elim (Bool-cases (ltb 100 k)) [
    | inl many ↦ rw many (h a)
    | inr few ↦ rw few (
        ground (
          arith,
          e,
          h a,
          h addr,
          lookup-insert t.node.client_getting addr a (k + 1),
          string_eq.beq_iff addr a,
        ))
  ]

  begin_absent_case :
      (t : Net L C) (addr : String)
      → lookup t.node.rpc_client addr ≡ none
      → begin_get is_closed addr t.node
        ≡ begin_absent addr (lookup t.node.client_getting addr) t.node
  unfolding begin_get
  begin_absent_case t addr e = ground (arith, e)

  begin_found_case :
      (t : Net L C) (addr : String) (c : C)
      → lookup t.node.rpc_client addr ≡ some c
      → begin_get is_closed addr t.node ≡ (
          if is_closed c
          then begin_absent addr (lookup t.node.client_getting addr) t.node
          else (t.node, returns c))
  unfolding begin_get
  begin_found_case t addr c e = ground (arith, e)

  -- The state after a round that came to `r`.
  abbrev after : Net L C → String → Node L C × Attempt C → Net L C
  after t addr r = record { node = r.0; connecting = connects_one r.1 addr t.connecting }

  asks-IsExclusive :
      (t : Net L C) (addr : String)
      → IsExclusive t
      → IsExclusive (after t addr (begin_get is_closed addr t.node))
  asks-IsExclusive t addr h =
      let absent : IsExclusive
          (after t addr (begin_absent addr (lookup t.node.client_getting addr) t.node)) =
        absent-IsExclusive t addr (lookup t.node.client_getting addr) refl h in
      elim (Option-cases (lookup t.node.rpc_client addr)) [
        | inl e ↦
            subst (λ r. IsExclusive (after t addr r)) (sym (begin_absent_case t addr e)) absent
        | inr (c, e) ↦
            subst (λ r. IsExclusive (after t addr r)) (sym (begin_found_case t addr c e))
              (elim (is_closed c)
                as (λ b. IsExclusive (
                  after t addr (
                    if b
                    then begin_absent addr (lookup t.node.client_getting addr) t.node
                    else (t.node, returns c)))) [ true ↦ absent | false ↦ h ])
      ]

  end_get_getting :
      (n : Node L C) (addr a : String) (c : Option C)
      → lookup (end_get addr c n).client_getting a
        ≡ (if addr == a then none else lookup n.client_getting a)
  unfolding end_get
  end_get_getting n addr a none = lookup-delete n.client_getting addr a
  end_get_getting n addr a (some c) = lookup-delete n.client_getting addr a

  ended_IsExclusive :
      (t : Net L C) (addr : String) (c : Option C) (k : ℕ)
      → t.connecting addr ≡ suc k
      → IsExclusive t
      → IsExclusive
          (record { node = end_get addr c t.node; connecting = change t.connecting addr k })
  ended_IsExclusive t addr c k e h a = elim (Bool-cases (addr == a)) [
    | inl same ↦
        let gone : lookup (end_get addr c t.node).client_getting a ≡ none =
          end_get_getting t.node addr a c ∙ ground (arith, same) in
        rw same (
          ended_last (lookup t.node.client_getting addr) k (sym e ∙ h addr)
          ∙ ap one_if_some (sym gone))
    | inr other ↦
        let kept : lookup (end_get addr c t.node).client_getting a
            ≡ lookup t.node.client_getting a =
          end_get_getting t.node addr a c ∙ ground (arith, other) in
        rw other (h a ∙ ap one_if_some (sym kept))
  ]

  callback_getting :
      (n : Node L C) (addr : String) → (client_callback addr n).client_getting ≡ n.client_getting
  unfolding client_callback
  callback_getting n addr = refl

  Step-IsExclusive : {t u : Net L C} → Step is_closed t u → IsExclusive t → IsExclusive u
  Step-IsExclusive (asks t addr) h = asks-IsExclusive t addr h
  Step-IsExclusive (asks_late t addr) h =
      absent-IsExclusive t addr (lookup t.node.client_getting addr) refl h
  Step-IsExclusive (stores t addr c) h = h
  Step-IsExclusive (connected t addr c k e) h = ended_IsExclusive t addr c k e h
  Step-IsExclusive (closes t addr) h =
      λ a. h a ∙ ap (λ m. one_if_some (lookup m a)) (sym (callback_getting t.node addr))

  Steps-IsExclusive_from : {t u : Net L C} → Steps is_closed t u → IsExclusive t → IsExclusive u
  Steps-IsExclusive_from here h = h
  Steps-IsExclusive_from (next r st) h = Step-IsExclusive st (Steps-IsExclusive_from r h)

  pub Steps-exclusive :
      (t u : Net L C)
      → ((a : String) → t.connecting a ≡ 0)
      → t.node.client_getting ≡ []
      → Steps is_closed t u
      → (a : String) → u.connecting a ≤ 1
  Steps-exclusive t u idle none_known r a =
      let start_ok : IsExclusive t =
        λ b. idle b ∙ ap one_if_some (sym (lookup_nothing t.node.client_getting b none_known)) in
      subst (λ k. k ≤ 1) (sym (Steps-IsExclusive_from r start_ok a))
        (one_at_most (lookup u.node.client_getting a))

  retry_round :
      (rounds : ℕ) (addr : String) (n n' : Node L C)
      → begin_get is_closed addr n ≡ (n', waits)
      → retry is_closed (suc rounds) addr n ≡ retry is_closed rounds addr n'
  unfolding retry
  retry_round rounds addr n n' e = ground (arith, e)

  retry_last :
      (rounds : ℕ) (addr : String) (n : Node L C)
      → begin_get is_closed addr n ≡ (n, gives_up)
      → retry is_closed (suc rounds) addr n ≡ (n, gives_up)
  unfolding retry
  retry_last rounds addr n e = ground (arith, e)

  -- No client for the address that is open.
  abbrev IsUnconnected : Node L C → String → Type 0
  IsUnconnected n addr = (c : C) → lookup n.rpc_client addr ≡ some c → is_closed c ≡ true

  begin_counted :
      (addr : String) (n : Node L C) (o : Option ℕ)
      → IsUnconnected n addr
      → lookup n.client_getting addr ≡ o
      → begin_get is_closed addr n ≡ begin_absent addr o n
  unfolding begin_get
  begin_counted addr n o closed e = elim (Option-cases (lookup n.rpc_client addr)) [
    | inl absent ↦ ground (arith, absent, e)
    | inr (c, there) ↦ ground (arith, there, e, closed c there)
  ]

  retry_waits :
      (left k rounds : ℕ) (addr : String) (n : Node L C)
      → IsUnconnected n addr
      → lookup n.client_getting addr ≡ some k
      → 101 ≤ k + left
      → suc left ≤ rounds
      → (n' : Node L C) × (retry is_closed rounds addr n ≡ (n', gives_up))
  retry_waits left k zero addr n closed e b l = absurd (omega arith)
  retry_waits zero k (suc rounds) addr n closed e b l =
      (n, retry_last rounds addr n (begin_counted addr n (some k) closed e ∙ ground arith))
  retry_waits (suc left) k (suc rounds) addr n closed e b l = elim (Bool-cases (ltb 100 k)) [
    | inl many ↦ (
      n,
      retry_last rounds addr n (begin_counted addr n (some k) closed e ∙ ground (arith, many)),
    )
    | inr few ↦
        let n1 : Node L C = record n { client_getting = insert n.client_getting addr (k + 1) } in
        let (n', r) =
          retry_waits left (k + 1) rounds addr n1 closed
            (ground (arith, lookup-insert n.client_getting addr addr (k + 1), ==_self addr))
            (omega arith) (omega arith) in
        (
          n',
          retry_round rounds addr n n1
                (begin_counted addr n (some k) closed e ∙ ground (arith, few))
              ∙ r,
        )
  ]

  -- While another goroutine is connecting to the address, with no open client to it, a caller of GetNodeClient gives up
  -- after 102 rounds at most.
  pub retry-gives_up :
      (k rounds : ℕ) (addr : String) (n : Node L C)
      → ((c : C) → lookup n.rpc_client addr ≡ some c → is_closed c ≡ true)
      → lookup n.client_getting addr ≡ some k
      → 102 ≤ rounds
      → (n' : Node L C) × (retry is_closed rounds addr n ≡ (n', gives_up))
  retry-gives_up k rounds addr n closed e l =
      retry_waits 101 k rounds addr n closed e (omega arith) (omega arith)

abbrev idle_getter : Getter
idle_getter = record { is_getting = false; checked = 0; running = 0 }

checked_all :
    (n : ℕ) → GetterSteps idle_getter (record { is_getting = false; checked = n; running = 0 })
checked_all zero = start
checked_all (suc n) =
    subst (GetterSteps idle_getter) (ground arith) (
      later (checked_all n) (checks (record { is_getting = false; checked = n; running = 0 }) refl))

entered :
    (k r : ℕ) (b : Bool)
    → GetterSteps idle_getter (record { is_getting = b; checked = suc k; running = r })
    → GetterSteps idle_getter (record { is_getting = true; checked = 0; running = k + r + 1 })
entered zero r b h =
    subst (GetterSteps idle_getter) (ground arith)
      (later h (enters (record { is_getting = b; checked = 1; running = r }) 0 refl))
entered (suc k) r b h = subst (GetterSteps idle_getter) (ground arith) (
    entered k (r + 1) true (
      later h
        (enters (record { is_getting = b; checked = suc (suc k); running = r }) (suc k) refl)))

-- Nothing keeps the getter of location servers from running more than once at a time: for every number there are steps
-- of goroutines after which that many are in its loop.
pub getter-runs :
    (n : ℕ)
    → GetterSteps
        (record { is_getting = false; checked = 0; running = 0 })
        (record { is_getting = true; checked = 0; running = suc n })
getter-runs n =
    subst (GetterSteps idle_getter) (ground arith) (entered n 0 false (checked_all (suc n)))
