-- ===== src/Cluster/Node/Choosing.antt =====
-- What `GetNode` of hCluster/NodeComponent.go finds, for any property of the nodes that the servers answer with.
use happy.Base.{
  ℕ, ◌≡◌, inl, inr, refl, sym, ap, ◌∙◌, subst, String, Bool, true, false, Option, none, some, List,
  [], ◌∷◌, All, get_elem?, if◌then◌else◌, arith, string_eq, Bool-cases, Option-cases,
}
use happy.Cluster.Types.{InquiryReply}
use happy.Cluster.NodeGroup
use happy.Cluster.NodeGroup.{Choice, fails, chosen}
use happy.Cluster.Node.{
  Node, overlay, query_args, first_of, or_else, asked_master, asked_location, location_broken,
  get_node_from_location, get_node_from_master, get_node,
}

-- A choice is an error or a panic, or has the property.
abbrev pub Chooses : {A : Type 0} → (A → Type 0) → Choice A → Type 0
Chooses P fails = Unit {0}
Chooses P NodeGroup.panics = Unit {0}
Chooses P (chosen a) = P a

or_else-Chooses :
    {A : Type 0} (P : A → Type 0) (a b : Choice A)
    → Chooses P a
    → Chooses P b
    → Chooses P (or_else a b)
or_else-Chooses P fails b h k = k
or_else-Chooses P NodeGroup.panics b h k = tt
or_else-Chooses P (chosen a) b h k = h

Chooses-eq : {A : Type 0} (P : A → Type 0) (c : Choice A) (a : A) → Chooses P c → c ≡ chosen a → P a
Chooses-eq P fails a h e = absurd (cc)
Chooses-eq P NodeGroup.panics a h e = absurd (cc)
Chooses-eq P (chosen b) a h e = subst P (cc) h

branches :
    {A : Type 0} (P : A → Type 0) (b : Bool) (x y : A)
    → (b ≡ true → P x)
    → (b ≡ false → P y)
    → P (if b then x else y)
branches P true x y hx hy = hx refl
branches P false x y hx hy = hy refl

-- The client of a location server that the number drawn picks.
abbrev pub drawn : {L : Type 0} → Option (List L) → ℕ → Option L
drawn none draw = none
drawn (some cs) draw = get_elem? cs draw

-- In location mode, the server that a node asks for this number drawn.
abbrev pub Asks : {L C : Type 0} → Node L C → ℕ → L → Type 0
Asks n draw c = (n.is_location_mode ≡ true) × (drawn n.location_clients draw ≡ some c)

-- The arguments of a query start with the application and the role.
Starts : String → String → List String → Type 0
Starts app role args = (rest : List String) × (args ≡ app ∷ role ∷ rest)

query_args-Starts :
    (app role : String) (ts args : List String)
    → query_args app role ts ≡ some args
    → Starts app role args
unfolding query_args Starts
query_args-Starts app role ts args e = elim (Option-cases (overlay ts ("Default" ∷ "" ∷ []))) [
  | inl bad ↦ absurd (ground (arith, bad, e))
  | inr (rest, good) ↦ (rest, ground (arith, good, e))
]

module _ {F D : Type 0} (P : String → Type 0) where
  first_of-Chooses :
      (rs : List (InquiryReply F D)) → All (λ r. P r.node) rs → Chooses P (first_of rs)
  first_of-Chooses [] h = tt
  first_of-Chooses (r ∷ rs) h = h.0

  -- What a server answers to arguments for the role.
  abbrev pub Honest : (List String → Option (List (InquiryReply F D))) → String → String → Type 0
  Honest ask app role =
      (rest : List String) (rs : List (InquiryReply F D))
      → ask (app ∷ role ∷ rest) ≡ some rs
      → All (λ r. P r.node) rs

  Honest-args :
      (ask : List String → Option (List (InquiryReply F D))) (app role : String)
      (args : List String) (rs : List (InquiryReply F D))
      → Honest ask app role
      → Starts app role args
      → ask args ≡ some rs
      → All (λ r. P r.node) rs
  unfolding Starts
  Honest-args ask app role args rs h (rest, e) q = h rest rs (ap ask (sym e) ∙ q)

  answer-Chooses :
      (o : Option (List (InquiryReply F D)))
      → ((rs : List (InquiryReply F D)) → o ≡ some rs → All (λ r. P r.node) rs)
      → Chooses P (elim o as (λ x. Choice String) [ none ↦ fails | some rs ↦ first_of rs ])
  answer-Chooses none h = tt
  answer-Chooses (some rs) h = first_of-Chooses rs (h rs refl)

  asked_call :
      {L C : Type 0} (o : Option (List (InquiryReply F D))) (c : L) (n : Node L C)
      → ((rs : List (InquiryReply F D)) → o ≡ some rs → All (λ r. P r.node) rs)
      → Chooses P
          (elim o as (λ x. Node L C × Choice String) [
            | none ↦ (location_broken n, fails)
            | some rs ↦ (n, first_of rs)
          ]).1
  asked_call none c n h = tt
  asked_call (some rs) c n h = first_of-Chooses rs (h rs refl)

  asked_master-Chooses :
      (ask : List String → Option (List (InquiryReply F D))) (app role : String)
      (o : Option (List String))
      → Honest ask app role
      → ((args : List String) → o ≡ some args → Starts app role args)
      → Chooses P (asked_master ask o)
  asked_master-Chooses ask app role none h k = tt
  asked_master-Chooses ask app role (some args) h k =
      answer-Chooses (ask args) (λ rs q. Honest-args ask app role args rs h (k args refl) q)

  module _ {L C : Type 0} (app role : String) where
    master-Chooses :
        (ask : List String → Option (List (InquiryReply F D))) (connects : Bool) (ts : List String)
        (n : Node L C)
        → Honest ask app role
        → Chooses P (get_node_from_master app ask connects role ts n)
    unfolding get_node_from_master
    master-Chooses ask connects ts n h = elim (Bool-cases n.is_online) [
      | inr off ↦ rw off tt
      | inl on ↦ elim (Bool-cases connects) [
        | inr off ↦ rw (on, off) tt
        | inl up ↦
            rw (on, up)
              (asked_master-Chooses ask app role (query_args app role ts) h
                (query_args-Starts app role ts))
      ]
    ]

    asked_location-Chooses :
        (ask : L → List String → Option (List (InquiryReply F D))) (draw : ℕ)
        (o : Option (List String)) (c : L) (n : Node L C)
        → Honest (ask c) app role
        → ((args : List String) → o ≡ some args → Starts app role args)
        → Chooses P (asked_location app ask draw o c n).1
    asked_location-Chooses ask draw none c n h k = tt
    asked_location-Chooses ask draw (some args) c n h k =
        asked_call (ask c args) c n (λ rs q. Honest-args (ask c) app role args rs h (k args refl) q)

    drawn-Chooses :
        (ask : L → List String → Option (List (InquiryReply F D))) (draw : ℕ) (ts : List String)
        (n : Node L C) (o : Option L)
        → ((c : L) → o ≡ some c → Honest (ask c) app role)
        → Chooses P
            (elim o as (λ x. Node L C × Choice String) [
              | none ↦ (n, NodeGroup.panics)
              | some c ↦ asked_location app ask draw (query_args app role ts) c n
            ]).1
    drawn-Chooses ask draw ts n none h = tt
    drawn-Chooses ask draw ts n (some c) h =
        asked_location-Chooses ask draw (query_args app role ts) c n (h c refl)
          (query_args-Starts app role ts)

    clients-Chooses :
        (ask : L → List String → Option (List (InquiryReply F D))) (draw : ℕ) (ts : List String)
        (n : Node L C) (o : Option (List L))
        → ((c : L) → drawn o draw ≡ some c → Honest (ask c) app role)
        → Chooses P
            (elim o as (λ x. Node L C × Choice String) [
              | none ↦ (n, fails)
              | some cs ↦ elim (get_elem? cs draw) [
                | none ↦ (n, NodeGroup.panics)
                | some c ↦ asked_location app ask draw (query_args app role ts) c n
              ]
            ]).1
    clients-Chooses ask draw ts n none h = tt
    clients-Chooses ask draw ts n (some cs) h = drawn-Chooses ask draw ts n (get_elem? cs draw) h

    location-Chooses :
        (ask : L → List String → Option (List (InquiryReply F D))) (draw : ℕ) (ts : List String)
        (n : Node L C)
        → ((c : L) → drawn n.location_clients draw ≡ some c → Honest (ask c) app role)
        → Chooses P (get_node_from_location app ask draw role ts n).1
    unfolding get_node_from_location
    location-Chooses ask draw ts n h = clients-Chooses ask draw ts n n.location_clients h

    -- If every answer of the location server that is asked, in location mode, and every answer of the master names nodes
    -- with a property, the node that GetNode finds has it.
    pub get_node-Chooses :
        (ask_location : L → List String → Option (List (InquiryReply F D))) (draw : ℕ)
        (ask : List String → Option (List (InquiryReply F D))) (connects : Bool) (ts : List String)
        (n : Node L C)
        → ((c : L) → Asks n draw c → Honest (ask_location c) app role)
        → Honest ask app role
        → Chooses P (get_node app ask_location draw ask connects role ts n).1
    unfolding get_node
    get_node-Chooses ask_location draw ask connects ts n h k =
        branches (λ (r : Node L C × Choice String). Chooses P r.1) n.is_location_mode _ _
          (λ located.
            or_else-Chooses P (get_node_from_location app ask_location draw role ts n).1 _
              (location-Chooses ask_location draw ts n (λ c e. h c (located, e)))
              (master-Chooses ask connects ts
                (get_node_from_location app ask_location draw role ts n).0 k))
          (λ alone. master-Chooses ask connects ts n k)
