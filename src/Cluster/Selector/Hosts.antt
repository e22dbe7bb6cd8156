-- ===== src/Cluster/Selector/Hosts.antt =====
-- `Selector.DoQuery` of hCluster/Selector.go: the hosts of its balancers.
use happy.Base.{
  ℕ, ◌∙◌, String, Bool, true, false, ◌||◌, Option, none, some, List, [], ◌∷◌, get_elem?, ◌==◌,
  string_eq, if◌then◌else◌,
}
use happy.Base.Maps.{Map}
use happy.Cluster.Types.{NodeInfo, InquiryReply, Floats}
use happy.Cluster.Balancer.{Balancers, Pools, Serves}
use happy.Cluster.Selector.{
  QueryError, Outcome, panics, polling, balanced, collect, pick_or_fail, found_error, select_p2c,
  select_bounded, select_polling, select, do_query,
}

first_of :
    {A B : Type 0} (P : A → Type 0) (b : Bool) (x y : A × B)
    → P x.0
    → P y.0
    → P (if b then x else y).0
first_of P true x y hx hy = hx
first_of P false x y hx hy = hy

module _ (num : Floats) {D : Type 0} (lib : Balancers) (f : String → Bool) where
  open num use {Float}

  select_polling-Serves :
      (p : Pools lib) (rs : List (InquiryReply Float D)) (err : Option QueryError)
      → Serves lib p f
      → Serves lib (select_polling num lib p rs err).0 f
  unfolding select_polling polling
  select_polling-Serves p rs err v = record {
    r2 = λ a. lib.r2.has_host-balance p.r2 "" a ∙ v.r2 a;
    p2c = v.p2c;
    bounded = v.bounded;
  }

  select_p2c-Serves :
      (query : List String) (p : Pools lib) (rs : List (InquiryReply Float D))
      (err : Option QueryError)
      → Serves lib p f
      → Serves lib (select_p2c num lib query p rs err).0 f
  unfolding select_p2c balanced
  select_p2c-Serves query p rs err v =
      elim (get_elem? query 3)
        as (λ k.
          Serves lib
            (elim k as (λ x. Pools lib × Outcome Float D) [
              | none ↦ (p, panics)
              | some key ↦
                  let (q, i) = balanced lib.p2c key p.p2c rs in
                  (record p { p2c = q }, pick_or_fail num rs i err)
            ]).0
            f) [
              | none ↦ v
              | some key ↦ record {
                r2 = v.r2;
                p2c = λ a.
                    lib.p2c.has_host-done (lib.p2c.balance p.p2c key).0 key a
                    ∙ lib.p2c.has_host-balance p.p2c key a
                    ∙ v.p2c a;
                bounded = v.bounded;
              }
            ]

  select_bounded-Serves :
      (query : List String) (p : Pools lib) (rs : List (InquiryReply Float D))
      (err : Option QueryError)
      → Serves lib p f
      → Serves lib (select_bounded num lib query p rs err).0 f
  unfolding select_bounded balanced
  select_bounded-Serves query p rs err v =
      elim (get_elem? query 3)
        as (λ k.
          Serves lib
            (elim k as (λ x. Pools lib × Outcome Float D) [
              | none ↦ (p, panics)
              | some key ↦
                  let (q, i) = balanced lib.bounded key p.bounded rs in
                  (record p { bounded = q }, pick_or_fail num rs i err)
            ]).0
            f) [
              | none ↦ v
              | some key ↦ record {
                r2 = v.r2;
                p2c = v.p2c;
                bounded = λ a.
                    lib.bounded.has_host-done (lib.bounded.balance p.bounded key).0 key a
                    ∙ lib.bounded.has_host-balance p.bounded key a
                    ∙ v.bounded a;
              }
            ]

  select-Serves :
      (selector : List (List (InquiryReply Float D) → Option ℕ)) (draw : ℕ) (query : List String)
      (typ : String) (p : Pools lib) (rs : List (InquiryReply Float D)) (err : Option QueryError)
      → Serves lib p f
      → Serves lib (select num lib selector draw query typ p rs err).0 f
  unfolding select
  select-Serves selector draw query typ p rs err v =
      let P : Pools lib → Type 0 = λ q. Serves lib q f in
      first_of P (typ == "MinLoad") _ _ v (
        first_of P (typ == "Group") _ _ v (
          first_of P (typ == "Custom") _ _ v (
            first_of P (typ == "Default" || typ == "Random") _ _ v (
              first_of P (typ == "Polling") _ _ (select_polling-Serves p rs err v) (
                first_of P (typ == "P2C") _ _ (select_p2c-Serves query p rs err v) (
                  first_of P (typ == "ConstHashingBoundLoad") _ _
                    (select_bounded-Serves query p rs err v)
                    (first_of P (typ == "ConstHashingBoundLoadWithWeight") _ _ v
                      (first_of P (typ == "SpecialIp") _ _ v v))))))))

  -- A query neither adds a host to a balancer nor removes one.
  pub do_query-Serves :
      (selector : List (List (InquiryReply Float D) → Option ℕ)) (draw : ℕ)
      (nodes : Map String (NodeInfo Float D)) (p : Pools lib) (args : List String) (detail : Bool)
      → Serves lib p f
      → Serves lib (do_query num lib selector draw nodes p args detail).0 f
  unfolding do_query
  do_query-Serves selector draw nodes p [] detail v = v
  do_query-Serves selector draw nodes p (app ∷ []) detail v = v
  do_query-Serves selector draw nodes p (app ∷ role ∷ []) detail v = v
  do_query-Serves selector draw nodes p (app ∷ role ∷ typ ∷ keys) detail v =
      let rs = collect num detail app role nodes in
      first_of (λ (q : Pools lib). Serves lib q f) (typ == "") _ _ v
        (select-Serves selector draw (app ∷ role ∷ typ ∷ keys) typ p rs (found_error num rs) v)
