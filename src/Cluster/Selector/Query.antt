-- ===== src/Cluster/Selector/Query.antt =====
-- `Selector.DoQuery` of hCluster/Selector.go: which nodes it answers with.
use happy.Base.{
  ℕ, ◌≡◌, refl, sym, ap, ◌∙◌, subst, String, Bool, true, false, ◌||◌, ◌&&◌, Option, none, some,
  List, [], ◌∷◌, get_elem?, contains, All, All-get, ◌==◌, string_eq, ==→≡, ==_self, if◌then◌else◌,
  arith, inl, inr, Bool-cases, Option-cases,
}
use happy.Base.Maps.{Map, lookup, keys, IsMap, contains-keys}
use happy.Cluster.Types.{NodeInfo, InquiryReply, Floats}
use happy.Cluster.Balancer.{Balancers, Pools}
use happy.Cluster.Selector.{
  QueryError, Outcome, panics, answers, polling, balanced, random, select_min_load, matches,
  reply_of, collect, pick, pick_custom, pick_or_fail, pick_or_all, found_error, select_p2c,
  select_bounded, select_polling, select_custom, select_keyed, select, do_query, c_hashing_blw,
  special_ip,
}

module _ {F D : Type 0} where
  abbrev pub Answered : (InquiryReply F D → Type 0) → Outcome F D → Type 0
  Answered P panics = Unit
  Answered P (answers rs err) = All P rs

  abbrev pub names : List (InquiryReply F D) → List String
  names [] = []
  names (r ∷ rs) = r.node ∷ names rs

either : {A : Type 0} (P : A → Type 0) (b : Bool) (x y : A) → P x → P y → P (if b then x else y)
either P true x y hx hy = hx
either P false x y hx hy = hy

module _ (num : Floats) {D : Type 0} where
  open num use {Float}

  -- The application and the role of a query.
  abbrev pub fits : NodeInfo Float D → String → String → Bool
  fits info app role = info.app_name == app && contains info.role role

  -- Has the map a node of this name that the query is for?
  abbrev pub is_wanted : String → String → Map String (NodeInfo Float D) → String → Bool
  is_wanted app role nodes name = elim (lookup nodes name) [
    | none ↦ false
    | some info ↦ fits info app role
  ]

  matches-fits :
      (info : NodeInfo Float D) (app role : String) → matches num info app role ≡ fits info app role
  unfolding matches
  matches-fits info app role = refl

  node-reply_of :
      (detail : Bool) (name : String) (info : NodeInfo Float D)
      → (reply_of num detail (name, info)).node ≡ name
  unfolding reply_of
  node-reply_of detail name info = refl

  is_wanted-cons :
      (app role : String) (k : String) (info : NodeInfo Float D)
      (nodes : Map String (NodeInfo Float D)) (name : String)
      → is_wanted app role ((k, info) ∷ nodes) name
        ≡ (if k == name then fits info app role else is_wanted app role nodes name)
  unfolding lookup
  is_wanted-cons app role k info nodes name =
      let M : Bool → Type 0 = λ b.
        elim (if b then some info else lookup nodes name) [
          | none ↦ false
          | some i ↦ fits i app role
        ]
        ≡ (if b then fits info app role else is_wanted app role nodes name) in
      elim (Bool-cases (k == name)) [
        | inl same ↦ subst M (sym same) refl
        | inr other ↦ subst M (sym other) refl
      ]

  is_wanted_absent :
      (app role : String) (nodes : Map String (NodeInfo Float D)) (name : String)
      → contains (keys nodes) name ≡ false
      → is_wanted app role nodes name ≡ false
  is_wanted_absent app role nodes name h = elim (Option-cases (lookup nodes name)) [
    | inl e ↦ ap (λ o. elim o as (λ x. Bool) [ none ↦ false | some info ↦ fits info app role ]) e
    | inr (info, e) ↦ absurd (ground (arith, contains-keys nodes name, e))
  ]

  pub contains-collect :
      (detail : Bool) (app role : String) (nodes : Map String (NodeInfo Float D)) (name : String)
      → IsMap nodes
      → contains (names (collect num detail app role nodes)) name ≡ is_wanted app role nodes name
  unfolding collect
  contains-collect detail app role [] name d = (unfold lookup in refl)
  contains-collect detail app role ((k, info) ∷ nodes) name d =
      let rest = contains-collect detail app role nodes name d.1 in
      let absent = is_wanted_absent app role nodes k d.0 in
      let cons = is_wanted-cons app role k info nodes name in
      let means = matches-fits info app role in
      elim (Bool-cases (matches num info app role)) [
        | inl good ↦ elim (Bool-cases (k == name)) [
          | inl same ↦ rw (good, node-reply_of detail k info, same, cons, same) (sym good ∙ means)
          | inr other ↦ rw (good, node-reply_of detail k info, other, cons, other) rest
        ]
        | inr misses ↦ elim (Bool-cases (k == name)) [
          | inl same ↦
              rw (misses, cons, same)
                (rest
                  ∙ subst (λ n. is_wanted app role nodes n ≡ false) (==→≡ k name same) absent
                  ∙ sym misses
                  ∙ means)
          | inr other ↦ rw (misses, cons, other) rest
        ]
      ]

  -- What is true of a reply that is built from a wanted node.
  abbrev pub IsWanted :
      Bool → String → String → Map String (NodeInfo Float D) → InquiryReply Float D → Type 0
  IsWanted detail app role nodes r =
      (info : NodeInfo Float D) × (lookup nodes r.node ≡ some info)
      × (info.app_name ≡ app)
      × (contains info.role role ≡ true)
      × (r.info ≡ (if detail then info.info else []))
      × (r.custom_data ≡ info.custom_data)

  reply_of-IsWanted :
      (detail : Bool) (app role : String) (all : Map String (NodeInfo Float D)) (k : String)
      (info : NodeInfo Float D)
      → lookup all k ≡ some info
      → matches num info app role ≡ true
      → IsWanted detail app role all (reply_of num detail (k, info))
  unfolding reply_of matches
  reply_of-IsWanted detail app role all k info e good = (
    info,
    e,
    ground (arith, string_eq.beq_iff info.app_name app, good),
    ground (arith, good),
    refl,
    refl,
  )

  collect-IsWanted :
      (detail : Bool) (app role : String) (all nodes : Map String (NodeInfo Float D))
      → ((name : String) (info : NodeInfo Float D)
          → lookup nodes name ≡ some info
          → lookup all name ≡ some info)
      → IsMap nodes
      → All (IsWanted detail app role all) (collect num detail app role nodes)
  unfolding collect lookup
  collect-IsWanted detail app role all [] sub d = tt
  collect-IsWanted detail app role all ((k, info) ∷ nodes) sub d =
      let rest =
        collect-IsWanted detail app role all nodes
          (λ name i e.
            sub name i (ground (arith, contains-keys nodes name, string_eq.beq_iff k name, d.0, e)))
          d.1 in
      elim (Bool-cases (matches num info app role)) [
        | inl good ↦ rw good (
          reply_of-IsWanted detail app role all k info (sub k info (rw (==_self k) refl)) good,
          rest,
        )
        | inr misses ↦ rw misses rest
      ]

  module _ (P : InquiryReply Float D → Type 0) where
    pick-Answered :
        (rs : List (InquiryReply Float D)) (i : ℕ) (err : Option QueryError)
        → All P rs
        → Answered P (pick num rs i err)
    unfolding pick
    pick-Answered rs i err h =
        let M : Option (InquiryReply Float D) → Type 0 = λ o.
          Answered P
            (elim o as (λ x. Outcome Float D) [ none ↦ panics | some a ↦ answers (a ∷ []) err ]) in
        elim (Option-cases (get_elem? rs i)) [
          | inl e ↦ subst M (sym e) tt
          | inr (r, e) ↦ subst M (sym e) (All-get P rs i h e, tt)
        ]

    pick_or_fail-Answered :
        (rs : List (InquiryReply Float D)) (i : Option ℕ) (err : Option QueryError)
        → All P rs
        → Answered P (pick_or_fail num rs i err)
    unfolding pick_or_fail
    pick_or_fail-Answered rs none err h = h
    pick_or_fail-Answered rs (some i) err h = pick-Answered rs i err h

    pick_or_all-Answered :
        (rs : List (InquiryReply Float D)) (i : Option ℕ) (err : Option QueryError)
        → All P rs
        → Answered P (pick_or_all num rs i err)
    unfolding pick_or_all
    pick_or_all-Answered rs none err h = h
    pick_or_all-Answered rs (some i) err h = pick-Answered rs i err h

    pick_custom-Answered :
        (i : Option ℕ) (rs : List (InquiryReply Float D)) (err : Option QueryError)
        → All P rs
        → Answered P (pick_custom num i rs err)
    unfolding pick_custom
    pick_custom-Answered none rs err h = tt
    pick_custom-Answered (some i) rs err h = pick-Answered rs i err h

    select_custom-Answered :
        (fs : List (List (InquiryReply Float D) → Option ℕ)) (rs : List (InquiryReply Float D))
        (err : Option QueryError)
        → All P rs
        → Answered P (select_custom num fs rs err)
    unfolding select_custom
    select_custom-Answered [] rs err h = tt
    select_custom-Answered (f ∷ fs) rs err h = pick_custom-Answered (f rs) rs err h

    select_keyed-Answered :
        (query : List String) (find : String → Option ℕ) (rs : List (InquiryReply Float D))
        (err : Option QueryError)
        → All P rs
        → Answered P (select_keyed num query find rs err)
    unfolding select_keyed
    select_keyed-Answered query find rs err h =
        elim (get_elem? query 3)
          as (λ o. Answered P (elim o as (λ x. Outcome Float D) [
            | none ↦ panics
            | some key ↦ pick_or_fail num rs (find key) err
          ])) [ none ↦ tt | some key ↦ pick_or_fail-Answered rs (find key) err h ]

    module _ (lib : Balancers) where
      select_p2c-Answered :
          (query : List String) (p : Pools lib) (rs : List (InquiryReply Float D))
          (err : Option QueryError)
          → All P rs
          → Answered P (select_p2c num lib query p rs err).1
      unfolding select_p2c
      select_p2c-Answered query p rs err h =
          elim (get_elem? query 3)
            as (λ o.
              Answered P
                (elim o as (λ x. Pools lib × Outcome Float D) [
                  | none ↦ (p, panics)
                  | some key ↦
                      let (q, i) = balanced lib.p2c key p.p2c rs in
                      (record p { p2c = q }, pick_or_fail num rs i err)
                ]).1) [
                  | none ↦ tt
                  | some key ↦ pick_or_fail-Answered rs (balanced lib.p2c key p.p2c rs).1 err h
                ]

      select_bounded-Answered :
          (query : List String) (p : Pools lib) (rs : List (InquiryReply Float D))
          (err : Option QueryError)
          → All P rs
          → Answered P (select_bounded num lib query p rs err).1
      unfolding select_bounded
      select_bounded-Answered query p rs err h =
          elim (get_elem? query 3)
            as (λ o.
              Answered P
                (elim o as (λ x. Pools lib × Outcome Float D) [
                  | none ↦ (p, panics)
                  | some key ↦
                      let (q, i) = balanced lib.bounded key p.bounded rs in
                      (record p { bounded = q }, pick_or_fail num rs i err)
                ]).1) [
                  | none ↦ tt
                  | some key ↦
                      pick_or_fail-Answered rs (balanced lib.bounded key p.bounded rs).1 err h
                ]

      select_polling-Answered :
          (p : Pools lib) (rs : List (InquiryReply Float D)) (err : Option QueryError)
          → All P rs
          → Answered P (select_polling num lib p rs err).1
      unfolding select_polling
      select_polling-Answered p rs err h = pick_or_fail-Answered rs (polling lib.r2 p.r2 rs).1 err h

      module _ (selector : List (List (InquiryReply Float D) → Option ℕ)) (draw : ℕ) where
        select-Answered :
            (query : List String) (typ : String) (p : Pools lib) (rs : List (InquiryReply Float D))
            (err : Option QueryError)
            → All P rs
            → Answered P (select num lib selector draw query typ p rs err).1
        unfolding select
        select-Answered query typ p rs err h =
            let when = either (λ (o : Pools lib × Outcome Float D). Answered P o.1) in
            when (typ == "MinLoad") _ _ (pick_or_all-Answered rs (select_min_load num rs) err h) (
              when (typ == "Group") _ _ h (
                when (typ == "Custom") _ _ (select_custom-Answered selector rs err h) (
                  when (typ == "Default" || typ == "Random") _ _
                    (pick_or_fail-Answered rs (random draw rs) err h)
                    (when (typ == "Polling") _ _ (select_polling-Answered p rs err h) (
                      when (typ == "P2C") _ _ (select_p2c-Answered query p rs err h) (
                        when (typ == "ConstHashingBoundLoad") _ _
                          (select_bounded-Answered query p rs err h)
                          (when (typ == "ConstHashingBoundLoadWithWeight") _ _
                            (select_keyed-Answered query (λ key. c_hashing_blw rs) rs err h)
                            (when (typ == "SpecialIp") _ _
                              (select_keyed-Answered query (λ key. special_ip key rs) rs err h)
                              h))))))))

  -- `DoQuery` answers, whatever the selection type, selector function, number drawn and balancer's choice, only
  -- with replies that are built from a node of the map whose application is the query's and that has the
  -- query's role.
  pub do_query-IsWanted :
      (lib : Balancers) (selector : List (List (InquiryReply Float D) → Option ℕ)) (draw : ℕ)
      (nodes : Map String (NodeInfo Float D)) (p : Pools lib) (app role typ : String)
      (params : List String) (detail : Bool)
      → IsMap nodes
      → Answered
          (IsWanted detail app role nodes)
          (do_query num lib selector draw nodes p (app ∷ role ∷ typ ∷ params) detail).1
  unfolding do_query
  do_query-IsWanted lib selector draw nodes p app role typ params detail d =
      let rs = collect num detail app role nodes in
      either (λ (o : Pools lib × Outcome Float D). Answered (IsWanted detail app role nodes) o.1)
        (typ == "") _ _ tt
        (select-Answered (IsWanted detail app role nodes) lib selector draw
          (app ∷ role ∷ typ ∷ params) typ p rs (found_error num rs)
          (collect-IsWanted detail app role nodes nodes (λ name info e. e) d))

  -- A query of type Group answers with all nodes that are wanted and no others: a name is in the answer
  -- exactly if the map has a node of that name, with the query's application and role.
  pub do_query-group :
      (lib : Balancers) (selector : List (List (InquiryReply Float D) → Option ℕ)) (draw : ℕ)
      (nodes : Map String (NodeInfo Float D)) (p : Pools lib) (app role : String) (detail : Bool)
      → IsMap nodes
      → (rs : List (InquiryReply Float D)) × (do_query num lib selector draw nodes p
            (app ∷ role ∷ "Group" ∷ [])
            detail
          ≡ (p, answers rs (found_error num rs)))
        × ((name : String) → contains (names rs) name ≡ is_wanted app role nodes name)
  unfolding do_query select
  do_query-group lib selector draw nodes p app role detail d = (
    collect num detail app role nodes,
    refl,
    λ name. contains-collect detail app role nodes name d,
  )
