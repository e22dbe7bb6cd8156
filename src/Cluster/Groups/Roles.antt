-- ===== src/Cluster/Groups/Roles.antt =====
-- Which roles a node has in the end: `AttachGroupsTo` of hCluster/ComponentGroup.go.
use happy.Base.{
  ◌≡◌, refl, sym, ap, String, Bool, true, false, not, ◌&&◌, ◌||◌, none, some, List, [], ◌∷◌, ◌++◌,
  ◌==◌, string_eq, if◌then◌else◌, contains, contains-append, IsDistinct, arith, inl, inr,
  Bool-cases, Option-cases, ==→≡,
}
use happy.Base.Maps.{Map, lookup, is_some, keys}
use happy.Cluster.Groups.{has_role, has_other, drop_child, complete, attach_each, attach_groups_to}

has_role_lem : (role : String) (names : List String) → has_role role names ≡ contains names role
unfolding has_role
has_role_lem role [] = refl
has_role_lem role (name ∷ names) = ap (λ b. name == role || b) (has_role_lem role names)

has_other_lem :
    (names : List String) (a : String)
    → (a == "master" || a == "child") ≡ false
    → contains names a ≡ true
    → has_other names ≡ true
unfolding has_other
has_other_lem [] a h c = cc
has_other_lem (name ∷ names) a h c =
    ground (arith, has_other_lem names a h, string_eq.beq_iff name a)

contains-drop_child :
    (names : List String) (a : String)
    → IsDistinct names
    → contains (drop_child names) a ≡ (not ("child" == a) && contains names a)
unfolding drop_child
contains-drop_child [] a d = ground arith
contains-drop_child (name ∷ names) a d = ground (
  arith,
  contains-drop_child names a d.1,
  string_eq.beq_iff name "child",
  string_eq.beq_iff name a,
  string_eq.beq_iff "child" a,
  d.0,
)

-- Is this role one of the node's in the end?
abbrev pub is_role : List String → String → Bool
is_role names a =
    if "child" == a
    then has_other names || contains names "child" && not (contains names "master")
    else contains names a
      || "master" == a
        && not (has_other names)
        && not (contains names "master")
        && not (contains names "child")

complete-cases :
    (child master other : Bool) (names : List String) (a : String)
    → contains names "child" ≡ child
    → contains names "master" ≡ master
    → IsDistinct names
    → contains
        (let names1 =
            if not other && not master && not child then names ++ "master" ∷ [] else names in
          let names2 = if other && not child then names1 ++ "child" ∷ [] else names1 in
          if not other && master && child then drop_child names2 else names2)
        a
      ≡ (if "child" == a
          then other || child && not master
          else contains names a || "master" == a && not other && not master && not child)
complete-cases true true true names a c m d = ground (arith, c, string_eq.beq_iff "child" a)
complete-cases true true false names a c m d = ground (arith, contains-drop_child names a d)
complete-cases true false true names a c m d = ground (arith, c, string_eq.beq_iff "child" a)
complete-cases true false false names a c m d = ground (arith, c, string_eq.beq_iff "child" a)
complete-cases false true true names a c m d =
    ground (arith, contains-append names ("child" ∷ []) a, string_eq.beq_iff "child" a)
complete-cases false true false names a c m d = ground (arith, c, string_eq.beq_iff "child" a)
complete-cases false false true names a c m d =
    ground (arith, contains-append names ("child" ∷ []) a, string_eq.beq_iff "child" a)
complete-cases false false false names a c m d = elim (Bool-cases ("child" == a)) [
  | inl is ↦ rw (contains-append names ("master" ∷ []) a, sym (==→≡ "child" a is)) (rw c refl)
  | inr isnt ↦ ground (arith, isnt, contains-append names ("master" ∷ []) a)
]

-- The roles that a node ends up with, when none is given twice: the ones given, with "master" where none is
-- given, and with "child" exactly if some role is neither "master" nor "child", or "child" is given without "master".
pub contains-complete :
    (names : List String) (a : String)
    → IsDistinct names
    → contains (complete names) a ≡ is_role names a
unfolding complete
contains-complete names a d =
    rw (has_role_lem "child" names, has_role_lem "master" names)
      (complete-cases (contains names "child") (contains names "master") (has_other names) names a
        refl refl d)

attach_each_missing :
    {C : Type 0} (groups : Map String (List C)) (name : String) (names : List String)
    → lookup groups name ≡ none
    → attach_each groups (name ∷ names) ≡ attach_each groups names
unfolding attach_each
attach_each_missing {C} groups name names e =
    ap
      (λ o. elim o as (λ x. List (String × List C)) [
        | none ↦ attach_each groups names
        | some g ↦ (name, g) ∷ attach_each groups names
      ])
      e

attach_each_found :
    {C : Type 0} (groups : Map String (List C)) (name : String) (names : List String)
    (content : List C)
    → lookup groups name ≡ some content
    → attach_each groups (name ∷ names) ≡ (name, content) ∷ attach_each groups names
unfolding attach_each
attach_each_found {C} groups name names content e =
    ap
      (λ o. elim o as (λ x. List (String × List C)) [
        | none ↦ attach_each groups names
        | some g ↦ (name, g) ∷ attach_each groups names
      ])
      e

contains-attach_each :
    {C : Type 0} (groups : Map String (List C)) (names : List String) (a : String)
    → contains (keys (attach_each groups names)) a ≡ (contains names a && is_some (lookup groups a))
contains-attach_each groups [] a = (unfold attach_each in refl)
contains-attach_each groups (name ∷ names) a = elim (Option-cases (lookup groups name)) [
  | inl e ↦
      rw (attach_each_missing groups name names e)
        (ground (arith, contains-attach_each groups names a, e, string_eq.beq_iff name a))
  | inr (g, e) ↦
      rw (attach_each_found groups name names g e)
        (ground (arith, contains-attach_each groups names a, e, string_eq.beq_iff name a))
]

-- `AttachGroupsTo` with no role given twice attaches a group exactly if it is the group of one of the node's
-- roles in the end and has been added.
pub contains-attach_groups_to :
    {C : Type 0} (groups : Map String (List C)) (names : List String) (a : String)
    → IsDistinct names
    → contains (keys (attach_groups_to groups names)) a
      ≡ (is_role names a && is_some (lookup groups a))
unfolding attach_groups_to
contains-attach_groups_to groups names a d =
    rw (contains-attach_each groups (complete names) a, contains-complete names a d) refl
