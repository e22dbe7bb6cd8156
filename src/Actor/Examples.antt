-- ===== src/Actor/Examples.antt =====
-- Tests of package hActor's addresses and groups, and the theorems on short ones.
use happy.Base.{if◌then◌else◌, ◌==◌, ◌≡◌, refl, ℕ, Option, none, some, [], ◌∷◌, nat_eq}
use happy.Actor.{Str, ActorId, parse, split, set_node_id, equal, has, get}
use happy.Actor.Address.{str_eq}
use happy.Actor.Proxy.{Proxy, to_actor, register, emit}
use happy.Actor.Proxy.Registry.{register-emit}
use happy.Base.Maps.{lookup}
use happy.Actor.Group.{IsUnrepeated}

-- "1:2:x"
abbrev written : Str
written = 49 ∷ 58 ∷ 50 ∷ 58 ∷ 120 ∷ []

abbrev id : ActorId
id = (49 ∷ []) ∷ (50 ∷ []) ∷ (120 ∷ []) ∷ []

abbrev other : ActorId
other = (49 ∷ []) ∷ (50 ∷ []) ∷ (121 ∷ []) ∷ []

parse-written : parse written ≡ some id
unfolding parse split
parse-written = refl

set_node_id-id : set_node_id (51 ∷ 58 ∷ 52 ∷ []) id ≡ some ((51 ∷ []) ∷ (52 ∷ []) ∷ (120 ∷ []) ∷ [])
unfolding set_node_id split
set_node_id-id = refl

get_nothing : get (id ∷ other ∷ []) ≡ []
unfolding get
get_nothing = refl

group-IsUnrepeated : IsUnrepeated (id ∷ other ∷ [])
unfolding has equal
group-IsUnrepeated = (refl, (refl, tt))

-- A node of the address "1:2" with one actor, whose address is empty before it is registered.
abbrev proxy : Proxy
proxy = record {
  node_id = 49 ∷ 58 ∷ 50 ∷ [];
  ids = (4, [] ∷ [] ∷ [] ∷ []) ∷ [];
  local_actors = [];
  services = [];
}

proxy_known : lookup proxy.ids 4 ≡ some ([] ∷ [] ∷ [] ∷ [])
unfolding lookup
proxy_known = refl

register-emit_example :
    (p : Proxy) × (register (120 ∷ []) 4 proxy ≡ some p)
    × (lookup p.ids 4 ≡ some id)
    × (emit id p ≡ to_actor 4)
register-emit_example =
    register-emit (49 ∷ []) (50 ∷ []) (120 ∷ []) [] [] [] 4 proxy refl refl refl proxy_known

-- The cached service 1 fails, and the one found, 2, answers twice its number.
abbrev works : ℕ → Option ℕ
works s = if s == 2 then some 4 else none
