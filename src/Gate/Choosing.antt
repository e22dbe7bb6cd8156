-- ===== src/Gate/Choosing.antt =====
-- Which gate `getUsableGate` of hBaseComponent/SelectGateComponent.go names.
use happy.Base.{
  ℕ, ◌+◌, ◌≡◌, refl, ap, ◌∙◌, subst, String, true, false, Option, none, some, List, [], ◌∷◌, ◌++◌,
  All, length, get_elem?, arith, string_eq, Bool-cases, inl, inr,
}
use happy.Base.Maps.{Map, lookup}
use happy.Cluster.Types.{NodeInfo, InquiryReply, Floats}
use happy.Cluster.Balancer.{Balancers, Pools}
use happy.Cluster.Selector.{
  min_load_loop, select_min_load, reply_of, matches, collect, answers, found_error, select,
  do_query,
}
use happy.Cluster.NodeGroup
use happy.Cluster.NodeGroup.{Choice, fails, chosen, node_at, source_query, select_one_node_info}
use happy.Cluster.Node.{Node, or_fail, get_node_group}
use happy.Cluster.Node.Asking.{served, inquire, get_node_group_asks}
use happy.Gate.{address_of, usable, get_usable_gate}

module _ (num : Floats) {D : Type 0} (whole : num.le (num.load num.one num.one) num.one ≡ true)
    (equal : num.le (num.load num.one num.one) (num.load num.one num.one) ≡ true) where
  open num use {Float, one, load, le}

  -- Replies without the information on which the load is computed.
  abbrev IsBare : List (InquiryReply Float D) → Type 0
  IsBare rs = All (λ r. r.info ≡ []) rs

  bare_round :
      (q : InquiryReply Float D) (rs : List (InquiryReply Float D)) (i : ℕ) (min : Float)
      (index : Option ℕ)
      → q.info ≡ []
      → le (load one one) min ≡ true
      → min_load_loop num i min index (q ∷ rs)
        ≡ min_load_loop num (i + 1) (load one one) (some i) rs
  unfolding min_load_loop lookup
  bare_round q rs i min index e l = rw e (rw l refl)

  min_load_loop_bare :
      (rs : List (InquiryReply Float D)) (i : ℕ) (r : InquiryReply Float D) (min : Float)
      (index : Option ℕ)
      → IsBare rs
      → r.info ≡ []
      → le (load one one) min ≡ true
      → min_load_loop num i min index (rs ++ r ∷ []) ≡ some (i + length rs)
  unfolding min_load_loop
  min_load_loop_bare [] i r min index h e l =
      bare_round r [] i min index e l ∙ ap some (omega arith)
  min_load_loop_bare (q ∷ rs) i r min index h e l =
      bare_round q (rs ++ r ∷ []) i min index h.0 l
      ∙ (min_load_loop_bare rs (i + 1) r (load one one) (some i) h.1 e equal
          ∙ ap some (omega arith))

  select_min_load_bare :
      (rs : List (InquiryReply Float D)) (r : InquiryReply Float D)
      → IsBare rs
      → r.info ≡ []
      → select_min_load num (rs ++ r ∷ []) ≡ some (length rs)
  unfolding select_min_load
  select_min_load_bare rs r h e =
      min_load_loop_bare rs 0 r one none h e whole ∙ ap some (omega arith)

  get_last :
      (rs : List (InquiryReply Float D)) (r : InquiryReply Float D)
      → get_elem? (rs ++ r ∷ []) (length rs) ≡ some r
  get_last [] r = refl
  get_last (q ∷ rs) r = get_last rs r

  collect-IsBare :
      (app role : String) (nodes : Map String (NodeInfo Float D))
      → IsBare (collect num false app role nodes)
  unfolding collect reply_of
  collect-IsBare app role [] = tt
  collect-IsBare app role ((name, info) ∷ nodes) = elim (Bool-cases (matches num info app role)) [
    | inl fits ↦ rw fits (refl, collect-IsBare app role nodes)
    | inr other ↦ rw other (collect-IsBare app role nodes)
  ]

  IsBare-parts :
      (rs : List (InquiryReply Float D)) (r : InquiryReply Float D)
      → IsBare (rs ++ r ∷ [])
      → IsBare rs × (r.info ≡ [])
  IsBare-parts [] r h = (tt, h.0)
  IsBare-parts (q ∷ rs) r h = let (rest, last) = IsBare-parts rs r h.1 in ((h.0, rest), last)

  source_query_min_load :
      (draw : ℕ) (rs : List (InquiryReply Float D))
      → source_query num draw "MinLoad" rs ≡ select_min_load num rs
  unfolding source_query
  source_query_min_load draw rs = refl

  select_one_last :
      (draw : ℕ) (rs : List (InquiryReply Float D)) (r : InquiryReply Float D)
      → IsBare rs
      → r.info ≡ []
      → select_one_node_info num draw "MinLoad" (rs ++ r ∷ []) ≡ chosen r
  unfolding select_one_node_info
  select_one_last draw rs r h e =
      ap
        (λ o. elim o as (λ x. Choice (InquiryReply Float D)) [
          | none ↦ fails
          | some i ↦ node_at num (rs ++ r ∷ []) i
        ])
        (source_query_min_load draw (rs ++ r ∷ []) ∙ select_min_load_bare rs r h e)
      ∙ ap
          (λ o. elim o as (λ x. Choice (InquiryReply Float D)) [
            | none ↦ NodeGroup.panics
            | some q ↦ chosen q
          ])
          (get_last rs r)

  group_asked :
      (lib : Balancers) (nodes : Map String (NodeInfo Float D)) (p : Pools lib) (app role : String)
      (draw : ℕ)
      → inquire num lib nodes p draw (app ∷ role ∷ "Group" ∷ [])
        ≡ served (
            answers
              (collect num false app role nodes)
              (found_error num (collect num false app role nodes)))
  unfolding do_query select
  group_asked lib nodes p app role draw = refl

  found_last :
      (rs : List (InquiryReply Float D)) (r : InquiryReply Float D)
      → found_error num (rs ++ r ∷ []) ≡ none
  unfolding found_error
  found_last [] r = refl
  found_last (q ∷ rs) r = refl

  get_usable_gate_chosen :
      (as_text : D → Option String) (draw : ℕ) (rs : List (InquiryReply Float D))
      (r : InquiryReply Float D)
      → IsBare rs
      → r.info ≡ []
      → get_usable_gate num as_text "POST" draw (chosen (rs ++ r ∷ [])) ≡ address_of as_text r
  unfolding get_usable_gate
  get_usable_gate_chosen as_text draw rs r h e =
      ap (usable num as_text) (select_one_last draw rs r h e)

  -- Without a location server and with the master reached, the gate that getUsableGate names is the last one of the
  -- master's map, whatever the loads: the group comes without the information on which SelectMinLoad computes them. This
  -- is for floating-point numbers in which the load of 1 and 1 is at most 1 and at most itself.
  pub get_usable_gate-last :
      {L C : Type 0} (as_text : D → Option String) (lib : Balancers)
      (ask : L → List String → Option (List (InquiryReply Float D)))
      (nodes : Map String (NodeInfo Float D)) (p : Pools lib) (app : String) (draw draw' : ℕ)
      (n : Node L C) (rs : List (InquiryReply Float D)) (r : InquiryReply Float D)
      → n.is_online ≡ true
      → n.is_location_mode ≡ false
      → collect num false app "gate" nodes ≡ rs ++ r ∷ []
      → get_usable_gate num as_text "POST" draw'
          (get_node_group app ask draw (inquire num lib nodes p draw) true "gate" n).1
        ≡ address_of as_text r
  get_usable_gate-last as_text lib ask nodes p app draw draw' n rs r on off found =
      let (bare, last) = IsBare-parts rs r (subst IsBare found (collect-IsBare app "gate" nodes)) in
      ap (get_usable_gate num as_text "POST" draw') (
        get_node_group_asks ask (inquire num lib nodes p draw) app "gate" draw n on off
        ∙ ap or_fail (
            group_asked lib nodes p app "gate" draw
            ∙ ap (λ qs. served (answers qs (found_error num qs))) found
            ∙ ap (λ o. served (answers (rs ++ r ∷ []) o)) (found_last rs r)))
      ∙ get_usable_gate_chosen as_text draw' rs r bare last
