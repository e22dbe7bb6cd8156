-- ===== src/Cluster/Master/Timeout.antt =====
-- A round of `TimeoutCheck` of hCluster/MasterComponent.go.
use happy.Base.{
  ℕ, ◌+◌, ◌≡◌, refl, ap, ◌∙◌, String, true, false, Option, none, some, [], ◌∷◌, ltb, string_eq,
  if◌then◌else◌, arith, inl, inr, Bool-cases, ==_self,
}
use happy.Base.Maps.{Map, lookup, insert, IsMap, lookup-insert, contains-keys}
use happy.Cluster.Types.{Floats}
use happy.Cluster.Balancer.{Balancers}
use happy.Cluster.Master.{Master, node_close, timeout_one, timeout_each, timeout_round}
use happy.Cluster.Master.Invariant.{IsTied, node_close-IsTied, count-IsTied}

-- What a round leaves of a count, and of a node with that count. A node that is not on the round's list is
-- left as it is.
abbrev pub aged : Option ℕ → Option ℕ → Option ℕ
aged none old = old
aged (some c) old = if ltb 3 (c + 1) then none else some (c + 1)

abbrev pub kept : {A : Type 0} → Option ℕ → Option A → Option A
kept none old = old
kept (some c) old = if ltb 3 (c + 1) then none else old

module _ {num : Floats} {D : Type 0} {lib : Balancers} where
  open num use {Float}

  abbrev pub Ages : Map String ℕ → Master num D lib → Master num D lib → Type 0
  Ages es m m' =
      ((a : String) → lookup m'.nodes a ≡ kept (lookup es a) (lookup m.nodes a))
      × ((a : String)
          → lookup m'.timeout_checking a ≡ aged (lookup es a) (lookup m.timeout_checking a))

  pub timeout_one_late :
      (now : ℕ) (a : String) (c : ℕ) (m : Master num D lib)
      → ltb 3 (c + 1) ≡ true
      → timeout_one num lib now (a, c) m
        ≡ node_close num lib now a
            (record m { timeout_checking = insert m.timeout_checking a (c + 1) })
  unfolding timeout_one
  timeout_one_late now a c m late = rw late refl

  pub timeout_one_early :
      (now : ℕ) (a : String) (c : ℕ) (m : Master num D lib)
      → ltb 3 (c + 1) ≡ false
      → timeout_one num lib now (a, c) m
        ≡ some (record m { timeout_checking = insert m.timeout_checking a (c + 1) })
  unfolding timeout_one
  timeout_one_early now a c m early = rw early refl

  timeout_one-Ages :
      (now : ℕ) (a : String) (c : ℕ) (m : Master num D lib)
      → IsTied m
      → lookup m.timeout_checking a ≡ some c
      → (m' : Master num D lib) × (timeout_one num lib now (a, c) m ≡ some m')
        × IsTied m'
        × Ages ((a, c) ∷ []) m m'
  unfolding lookup
  timeout_one-Ages now a c m v at =
      let m1 : Master num D lib = record m {
        timeout_checking = insert m.timeout_checking a (c + 1);
      } in
      let v1 : IsTied m1 = count-IsTied a (c + 1) m v (ground (arith, at)) in
      elim (Bool-cases (ltb 3 (c + 1))) [
        | inl late ↦
            let (m', e, v', (n, t)) = node_close-IsTied now a m1 v1 in
            (
              m',
              timeout_one_late now a c m late ∙ e,
              v',
              (
                λ b. ground (arith, n b, late),
                λ b. ground (arith, t b, lookup-insert m.timeout_checking a b (c + 1), late),
              ),
            )
        | inr early ↦ (
          m1,
          timeout_one_early now a c m early,
          v1,
          (
            λ b. ground (arith, early),
            λ b. ground (arith, lookup-insert m.timeout_checking a b (c + 1), early),
          ),
        )
      ]

  timeout_each_next :
      (now : ℕ) (e : String × ℕ) (es : Map String ℕ) (m m' : Master num D lib)
      → timeout_one num lib now e m ≡ some m'
      → timeout_each num lib now (e ∷ es) m ≡ timeout_each num lib now es m'
  unfolding timeout_each
  timeout_each_next now e es m m' h =
      ap
        (λ (o : Option (Master num D lib)). elim o as (λ x. Option (Master num D lib)) [
          | none ↦ none
          | some n ↦ timeout_each num lib now es n
        ])
        h

  timeout_each-Ages :
      (now : ℕ) (es : Map String ℕ) (m : Master num D lib)
      → IsTied m
      → IsMap es
      → ((a : String) (c : ℕ) → lookup es a ≡ some c → lookup m.timeout_checking a ≡ some c)
      → (m' : Master num D lib) × (timeout_each num lib now es m ≡ some m')
        × IsTied m'
        × Ages es m m'
  unfolding timeout_each lookup
  timeout_each-Ages now [] m v d sub = (m, refl, v, (λ a. refl, λ a. refl))
  timeout_each-Ages now ((a, c) ∷ es) m v d sub =
      let (m1, e1, v1, (n1, t1)) =
        timeout_one-Ages now a c m v (sub a c (ground (arith, ==_self a))) in
      let (m2, e2, v2, (n2, t2)) = timeout_each-Ages now es m1 v1 d.1 (λ b k at.
        ground (arith, t1 b, sub b k, at, contains-keys es b, d.0, string_eq.beq_iff a b)) in
      (
        m2,
        timeout_each_next now (a, c) es m m1 e1 ∙ e2,
        v2,
        (
          λ b. ground (arith, n2 b, n1 b, contains-keys es b, d.0, string_eq.beq_iff a b),
          λ b. ground (arith, t2 b, t1 b, contains-keys es b, d.0, string_eq.beq_iff a b),
        ),
      )

  -- A round of the check on a consistent master goes through. It leaves every node whose count was below 3,
  -- with its count one higher, and closes the others; no node else is touched.
  pub timeout_round-Ages :
      (now : ℕ) (m : Master num D lib)
      → IsTied m
      → (m' : Master num D lib) × (timeout_round num lib now m ≡ some m')
        × IsTied m'
        × Ages m.timeout_checking m m'
  unfolding timeout_round
  timeout_round-Ages now m v =
      timeout_each-Ages now m.timeout_checking m v v.timeouts_map (λ a c e. e)
