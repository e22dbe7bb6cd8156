-- ===== src/Actor/Proxy.antt =====
-- The registry of hActor/ActorProxyComponent.go and the cache of hActor/ActorServiceCaller.go. An actor is a number, and
-- `ids` holds the addresses of the actors, which `Register` completes in place. The calls to other nodes are
-- parameters.
pub mod Registry
use happy.Base.{
  ℕ, String, Bool, true, false, Option, none, some, List, [], ◌∷◌, set, if◌then◌else◌, nat_eq, ◌==◌,
}
use happy.Base.Maps.{Map, lookup, insert, delete, is_some}
use happy.Actor.{Str, ActorId, to_string, set_node_id, get_node_id, set_local_actor_id}
use happy.Actor.Address.{str_eq}

pub record Proxy : Type 0 where
  pub node_id : Str
  pub ids : Map ℕ ActorId
  pub local_actors : Map Str ℕ
  pub services : Map Str ℕ

-- Where `Emit` sends a message: to a local actor, to nobody (`ErrNoThisActor`), or to another node. `invalid` is the
-- panic of an address with less than two parts.
pub data Route : Type 0 where
  to_actor : ℕ → Route
  no_actor : Route
  to_node : Str → Route
  invalid : Route

-- The address that `Register` gives an actor: a new local part, and the node's. `none` is an error or a panic.
unfoldable pub new_id : Str → Str → ActorId → Option ActorId
unfolding set_local_actor_id set_node_id
new_id node_id uuid id = elim (set_local_actor_id uuid id) [
  | none ↦ none
  | some id' ↦ set_node_id node_id id'
]

-- `Register`. Where `SetNodeID` fails nothing is stored.
unfoldable pub store : Proxy → ℕ → ActorId → Proxy
unfolding insert to_string
store p actor id = record p {
  ids = insert p.ids actor id;
  local_actors = insert p.local_actors (to_string id) actor;
}

unfoldable pub register : Str → ℕ → Proxy → Option Proxy
unfolding lookup new_id store
register uuid actor p = elim (lookup p.ids actor) [
  | none ↦ none
  | some id ↦ elim (new_id p.node_id uuid id) [ none ↦ none | some id' ↦ some (store p actor id') ]
]

unfoldable pub unregister : ℕ → Proxy → Proxy
unfolding lookup delete to_string
unregister actor p = elim (lookup p.ids actor) [
  | none ↦ p
  | some id ↦
      if is_some (lookup p.local_actors (to_string id))
      then record p { local_actors = delete p.local_actors (to_string id) }
      else p
]

-- `LocalTell`, as far as the actor that it tells.
unfoldable pub local_tell : ActorId → Proxy → Route
unfolding lookup to_string
local_tell id p = elim (lookup p.local_actors (to_string id)) [
  | none ↦ no_actor
  | some actor ↦ to_actor actor
]

unfoldable pub emit : ActorId → Proxy → Route
unfolding get_node_id local_tell
emit id p = elim (get_node_id id) [
  | none ↦ invalid
  | some node ↦ if node == p.node_id then local_tell id p else to_node node
]

-- `RegisterService`: `none` is the error of a service that is there.
unfoldable pub register_service : ℕ → Str → Proxy → Option Proxy
unfolding lookup insert
register_service actor service p =
    if is_some (lookup p.services service)
    then none
    else some (record p { services = insert p.services service actor })

unfoldable pub unregister_service : Str → Proxy → Proxy
unfolding delete
unregister_service service p = record p { services = delete p.services service }

unfoldable pub get_local_actor_service : Str → Proxy → Option ℕ
unfolding lookup
get_local_actor_service service p = lookup p.services service

-- `GetActorService`: a local service, or what the query at the node of a role gives, for a role that is not empty.
unfoldable pub get_actor_service :
    {S : Type 0} → (ℕ → S) → (Str → Str → Option S) → Str → Str → Proxy → Option S
unfolding get_local_actor_service
get_actor_service local_service remote_service role service p =
    elim (get_local_actor_service service p) [
      | some actor ↦ some (local_service actor)
      | none ↦ elim role [ [] ↦ none | c ∷ cs ↦ remote_service (c ∷ cs) service ]
    ]

module _ {S R : Type 0} (find : Option S) (second : S → Option R) where
  -- `Call` of `ActorServiceCaller` after the cache has failed: `find` is what `GetActorService` gives, `second` what
  -- a call of the service found comes to.
  unfoldable pub call_found : Str → Map Str S → Map Str S × Option R
  unfolding insert delete
  call_found name cache = elim find [
    | none ↦ (cache, none)
    | some s ↦ elim (second s) [
      | none ↦ (delete (insert cache name s) name, none)
      | some res ↦ (insert cache name s, some res)
    ]
  ]

module _ {S R : Type 0} (find : Option S) (first second : S → Option R) where
  -- `Call`, `CallWait` and `CallWithSelectType`; `first` is what a call of the cached service comes to.
  unfoldable pub call : Str → Map Str S → Map Str S × Option R
  unfolding lookup delete call_found
  call name cache = elim (lookup cache name) [
    | none ↦ call_found find second name cache
    | some s ↦ elim (first s) [
      | none ↦ call_found find second name (delete cache name)
      | some res ↦ (cache, some res)
    ]
  ]
