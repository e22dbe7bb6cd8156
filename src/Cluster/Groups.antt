-- ===== src/Cluster/Groups.antt =====
-- `ComponentGroups` of hCluster/ComponentGroup.go: the groups of components that a node's roles ask for. `C`
-- stands for a component. The object that the groups are attached to is the list of the children that it gets,
-- each with its name and components; the tree of package hEcs is not modelled.
pub mod Roles
use happy.Base.{
  ℕ, String, Bool, true, false, not, ◌&&◌, ◌||◌, Option, none, some, List, [], ◌∷◌, ◌++◌, ◌==◌,
  string_eq, if◌then◌else◌,
}
use happy.Base.Maps.{Map, lookup, insert, keys}

-- The flags of the first loop of `AttachGroupsTo`.
unfoldable pub has_role : String → List String → Bool
has_role role [] = false
has_role role (name ∷ names) = name == role || has_role role names

unfoldable pub has_other : List String → Bool
has_other [] = false
has_other (name ∷ names) = not (name == "master" || name == "child") || has_other names

-- The loop that takes out the first "child".
unfoldable pub drop_child : List String → List String
drop_child [] = []
drop_child (name ∷ names) =
    let rest = drop_child names in if name == "child" then names else name ∷ rest

-- The three steps that complete the roles. The flags are those of the roles given.
unfoldable pub complete : List String → List String
unfolding has_role has_other drop_child
complete names =
    let child = has_role "child" names in
    let master = has_role "master" names in
    let other = has_other names in
    let names1 = if not other && not master && not child then names ++ "master" ∷ [] else names in
    let names2 = if other && not child then names1 ++ "child" ∷ [] else names1 in
    if not other && master && child then drop_child names2 else names2

module _ {C : Type 0} where
  -- `AddGroup`; `group` is nil before the first, which reads like the empty map.
  unfoldable pub add_group : String → List C → Map String (List C) → Map String (List C)
  unfolding insert
  add_group name content groups = insert groups name content

  -- The last loop: a name without a group is reported in the log only.
  unfoldable pub attach_each : Map String (List C) → List String → List (String × List C)
  unfolding lookup
  attach_each groups [] = []
  attach_each groups (name ∷ names) =
      let rest = attach_each groups names in
      elim (lookup groups name) [ none ↦ rest | some content ↦ (name, content) ∷ rest ]

  unfoldable pub attach_groups_to : Map String (List C) → List String → List (String × List C)
  unfolding complete attach_each
  attach_groups_to groups names = attach_each groups (complete names)
