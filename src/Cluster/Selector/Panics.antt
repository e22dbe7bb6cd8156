-- ===== src/Cluster/Selector/Panics.antt =====
-- `Selector.DoQuery` of hCluster/Selector.go: when it panics.
use happy.Base.{
  ℕ, zero, suc, ◌+◌, ◌≤◌, ◌<◌, ◌≡◌, refl, sym, ap, ◌∙◌, subst, String, Bool, true, Option, none,
  some, List, [], ◌∷◌, All-contains, length, get_elem?, get_elem?_in, get_elem?_lt, contains,
  string_eq, arith, inl, inr, Bool-cases, Option-cases, ◌↔◌,
}
use happy.Base.Maps.{Map}
use happy.Cluster.Types.{NodeInfo, InquiryReply, Floats}
use happy.Cluster.Balancer.{Balancer, Balancers, Pools}
use happy.Cluster.Selector.{
  QueryError, Outcome, panics, answers, index_of, gen_random, draw_distinct, polling, balanced,
  random, load_of, min_load_loop, select_min_load, collect, pick, pick_or_fail, pick_or_all,
  found_error, select_p2c, select_bounded, select_polling, select, do_query,
}

-- The index, if any, is one of a list of this length.
abbrev Within : ℕ → Option ℕ → Type 0
Within n none = Unit
Within n (some i) = i < n

module _ {F D : Type 0} where
  abbrev pub Returns : Outcome F D → Type 0
  Returns panics = ⊥
  Returns (answers rs err) = Unit

  panics≢answers :
      {rs : List (InquiryReply F D)} {err : Option QueryError} → panics ≡ answers rs err → ⊥
  panics≢answers p = cc

  random_lem : (draw : ℕ) (rs : List (InquiryReply F D)) → random draw rs ≡ some draw
  unfolding random gen_random draw_distinct
  random_lem draw rs = ground arith

  index_of-Within :
      (host : String) (rs : List (InquiryReply F D)) → Within (length rs) (index_of host rs)
  unfolding index_of
  index_of-Within host [] = tt
  index_of-Within host (r ∷ rs) = ground (arith, index_of-Within host rs)

  polling-Within :
      (b : Balancer) (p : b.Pool) (rs : List (InquiryReply F D))
      → Within (length rs) (polling b p rs).1
  unfolding polling
  polling-Within b p rs =
      elim (b.balance p "").1
        as (λ host.
          Within (length rs)
            (elim host as (λ x. Option ℕ) [ none ↦ none | some h ↦ index_of h rs ])) [
              | none ↦ tt
              | some h ↦ index_of-Within h rs
            ]

  balanced-Within :
      (b : Balancer) (key : String) (p : b.Pool) (rs : List (InquiryReply F D))
      → Within (length rs) (balanced b key p rs).1
  unfolding balanced
  balanced-Within b key p rs =
      elim (b.balance p key).1
        as (λ host.
          Within (length rs)
            (elim host as (λ x. Option ℕ) [ none ↦ none | some h ↦ index_of h rs ])) [
              | none ↦ tt
              | some h ↦ index_of-Within h rs
            ]

module _ (num : Floats) {D : Type 0} where
  open num use {Float}

  min_load_loop-Within :
      (i n : ℕ) (min : Float) (index : Option ℕ) (rs : List (InquiryReply Float D))
      → i + length rs ≤ n
      → Within n index
      → Within n (min_load_loop num i min index rs)
  unfolding min_load_loop
  min_load_loop-Within i n min index [] h w = w
  min_load_loop-Within i n min index (r ∷ rs) h w = elim (Bool-cases (num.le (load_of num r) min)) [
    | inl found ↦
        rw found
          (min_load_loop-Within (i + 1) n (load_of num r) (some i) rs (omega arith) (omega arith))
    | inr passed ↦ rw passed (min_load_loop-Within (i + 1) n min index rs (omega arith) w)
  ]

  pick_at :
      (rs : List (InquiryReply Float D)) (i : ℕ) (err : Option QueryError)
      (r : InquiryReply Float D)
      → get_elem? rs i ≡ some r
      → pick num rs i err ≡ answers (r ∷ []) err
  unfolding pick
  pick_at rs i err r at =
      ap (λ o. elim o as (λ x. Outcome Float D) [ none ↦ panics | some a ↦ answers (a ∷ []) err ])
        at

  pick_out :
      (rs : List (InquiryReply Float D)) (i : ℕ) (err : Option QueryError)
      → get_elem? rs i ≡ none
      → pick num rs i err ≡ panics
  unfolding pick
  pick_out rs i err out =
      ap (λ o. elim o as (λ x. Outcome Float D) [ none ↦ panics | some a ↦ answers (a ∷ []) err ])
        out

  get_elem?-out : (rs : List (InquiryReply Float D)) (i : ℕ) → get_elem? rs i ≡ none → length rs ≤ i
  get_elem?-out [] i h = omega arith
  get_elem?-out (r ∷ rs) zero h = cc
  get_elem?-out (r ∷ rs) (suc i) h = omega (arith, get_elem?-out rs i h)

  pick_panics :
      (rs : List (InquiryReply Float D)) (i : ℕ) (err : Option QueryError)
      → i ≤ length rs
      → (pick num rs i err ≡ panics) ↔ (i ≡ length rs)
  pick_panics rs i err h = elim (Option-cases (get_elem? rs i)) [
    | inl out ↦ (λ p. omega (arith, get_elem?-out rs i out), λ p. pick_out rs i err out)
    | inr (r, at) ↦ (
      λ p. absurd (panics≢answers (sym p ∙ pick_at rs i err r at)),
      λ p. absurd (omega (arith, get_elem?_lt rs i at)),
    )
  ]

  pick-Returns :
      (rs : List (InquiryReply Float D)) (i : ℕ) (err : Option QueryError)
      → i < length rs
      → Returns (pick num rs i err)
  pick-Returns rs i err h =
      let (r, at) = get_elem?_in rs i h in subst Returns (sym (pick_at rs i err r at)) tt

  pick_or_fail-Returns :
      (rs : List (InquiryReply Float D)) (i : Option ℕ) (err : Option QueryError)
      → Within (length rs) i
      → Returns (pick_or_fail num rs i err)
  unfolding pick_or_fail
  pick_or_fail-Returns rs none err w = tt
  pick_or_fail-Returns rs (some i) err w = pick-Returns rs i err w

  pick_or_all-Returns :
      (rs : List (InquiryReply Float D)) (i : Option ℕ) (err : Option QueryError)
      → Within (length rs) i
      → Returns (pick_or_all num rs i err)
  unfolding pick_or_all
  pick_or_all-Returns rs none err w = tt
  pick_or_all-Returns rs (some i) err w = pick-Returns rs i err w

  module _ (lib : Balancers) (selector : List (List (InquiryReply Float D) → Option ℕ)) (draw : ℕ)
      (nodes : Map String (NodeInfo Float D)) (p : Pools lib) (app role key : String)
      (detail : Bool) where
    abbrev outcome : String → Outcome Float D
    outcome typ = (do_query num lib selector draw nodes p (app ∷ role ∷ typ ∷ key ∷ []) detail).1

    min_load-Returns : Returns (outcome "MinLoad")
    unfolding do_query select select_min_load
    min_load-Returns =
        let rs = collect num detail app role nodes in
        pick_or_all-Returns rs (select_min_load num rs) (found_error num rs)
          (min_load_loop-Within 0 (length rs) num.one none rs (omega arith) tt)

    group-Returns : Returns (outcome "Group")
    unfolding do_query select
    group-Returns = tt

    polling-Returns : Returns (outcome "Polling")
    unfolding do_query select select_polling
    polling-Returns =
        let rs = collect num detail app role nodes in
        pick_or_fail-Returns rs (polling lib.r2 p.r2 rs).1 (found_error num rs)
          (polling-Within lib.r2 p.r2 rs)

    p2c-Returns : Returns (outcome "P2C")
    unfolding do_query select select_p2c
    p2c-Returns =
        let rs = collect num detail app role nodes in
        pick_or_fail-Returns rs (balanced lib.p2c key p.p2c rs).1 (found_error num rs)
          (balanced-Within lib.p2c key p.p2c rs)

    bounded-Returns : Returns (outcome "ConstHashingBoundLoad")
    unfolding do_query select select_bounded
    bounded-Returns =
        let rs = collect num detail app role nodes in
        pick_or_fail-Returns rs (balanced lib.bounded key p.bounded rs).1 (found_error num rs)
          (balanced-Within lib.bounded key p.bounded rs)

    -- `DoQuery` with a key returns, with no panic, whatever nodes there are and whatever host the balancer
    -- names, for the selection types MinLoad, Group, Polling, P2C and ConstHashingBoundLoad.
    pub do_query-Returns :
        (typ : String)
        → contains ("MinLoad" ∷ "Group" ∷ "Polling" ∷ "P2C" ∷ "ConstHashingBoundLoad" ∷ []) typ
          ≡ true
        → Returns (outcome typ)
    do_query-Returns typ h =
        All-contains (λ t. Returns (outcome t))
          ("MinLoad" ∷ "Group" ∷ "Polling" ∷ "P2C" ∷ "ConstHashingBoundLoad" ∷ []) typ
          (
            min_load-Returns,
            (group-Returns, (polling-Returns, (p2c-Returns, (bounded-Returns, tt)))),
          )
          h

    default-pick :
        outcome "Default"
        ≡ pick num
            (collect num detail app role nodes)
            draw
            (found_error num (collect num detail app role nodes))
    unfolding do_query select pick_or_fail
    default-pick = rw (random_lem draw (collect num detail app role nodes)) refl

    random-pick :
        outcome "Random"
        ≡ pick num
            (collect num detail app role nodes)
            draw
            (found_error num (collect num detail app role nodes))
    unfolding do_query select pick_or_fail
    random-pick = rw (random_lem draw (collect num detail app role nodes)) refl

    -- `DoQuery` with the selection type Default or Random and a number drawn by `Intn` panics exactly if the
    -- number is that of the nodes found, which `GenRandom` takes in: always, if there is none.
    pub do_query-random :
        (typ : String)
        → contains ("Default" ∷ "Random" ∷ []) typ ≡ true
        → draw ≤ length (collect num detail app role nodes)
        → (outcome typ ≡ panics) ↔ (draw ≡ length (collect num detail app role nodes))
    do_query-random typ h range =
        let rs = collect num detail app role nodes in
        let picked : outcome typ ≡ pick num rs draw (found_error num rs) =
          All-contains (λ t. outcome t ≡ pick num rs draw (found_error num rs))
            ("Default" ∷ "Random" ∷ []) typ (default-pick, (random-pick, tt)) h in
        rw picked (pick_panics rs draw (found_error num rs) range)
