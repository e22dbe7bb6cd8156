-- ===== src/Actor/Proxy/Registry.antt =====
-- An actor that is registered can be reached, and the cache of services: hActor/ActorProxyComponent.go and
-- hActor/ActorServiceCaller.go.
use happy.Base.{
  ℕ, ◌≡◌, refl, sym, ap, ◌∙◌, subst, false, Option, none, some, [], ◌∷◌, ◌++◌, contains, nat_eq,
  ◌==◌, ==_self, if◌then◌else◌, arith,
}
use happy.Base.Maps.{Map, lookup, insert, delete, is_some, lookup-insert, lookup-delete}
use happy.Actor.{
  Str, ActorId, colon, to_string, split, with_node, set_node_id, get_node_id, set_local_actor_id,
}
use happy.Actor.Address.{str_eq, split-join, split-plain}
use happy.Actor.Proxy.{
  Proxy, Route, to_actor, no_actor, to_node, new_id, store, register, local_tell, emit, call_found,
  call,
}

new_id_plain :
    (ip port uuid a b c : Str)
    → contains ip colon ≡ false
    → contains port colon ≡ false
    → new_id (ip ++ colon ∷ port) uuid (a ∷ b ∷ c ∷ []) ≡ some (ip ∷ port ∷ uuid ∷ [])
unfolding new_id set_local_actor_id set_node_id
new_id_plain ip port uuid a b c hi hp =
    let parts : split (ip ++ colon ∷ port) ≡ ip ∷ port ∷ [] =
      split-join ip port hi ∙ ap (λ ps. ip ∷ ps) (split-plain port hp) in
    ap (λ ps. with_node ps (uuid ∷ [])) parts

register_found :
    (uuid : Str) (actor : ℕ) (p : Proxy) (id id' : ActorId)
    → lookup p.ids actor ≡ some id
    → new_id p.node_id uuid id ≡ some id'
    → register uuid actor p ≡ some (store p actor id')
unfolding register
register_found uuid actor p id id' h e =
    ap
      (λ (o : Option ActorId). elim o as (λ x. Option Proxy) [
        | none ↦ none
        | some i ↦ elim (new_id p.node_id uuid i) as (λ x. Option Proxy) [
          | none ↦ none
          | some i' ↦ some (store p actor i')
        ]
      ])
      h
    ∙ ap
        (λ (o : Option ActorId). elim o as (λ x. Option Proxy) [
          | none ↦ none
          | some i' ↦ some (store p actor i')
        ])
        e

local_tell_stored :
    (p : Proxy) (actor : ℕ) (id : ActorId) → local_tell id (store p actor id) ≡ to_actor actor
unfolding local_tell store
local_tell_stored p actor id =
    let there : lookup (insert p.local_actors (to_string id) actor) (to_string id) ≡ some actor =
      ground (
        arith,
        lookup-insert p.local_actors (to_string id) (to_string id) actor,
        ==_self (to_string id),
      ) in
    ap (λ (o : Option ℕ). elim o as (λ x. Route) [ none ↦ no_actor | some a ↦ to_actor a ]) there

emit_local :
    (p : Proxy) (ip port local : Str)
    → p.node_id ≡ ip ++ colon ∷ port
    → emit (ip ∷ port ∷ local ∷ []) p ≡ local_tell (ip ∷ port ∷ local ∷ []) p
unfolding emit get_node_id
emit_local p ip port local h =
    subst
      (λ n.
        (if (ip ++ colon ∷ port) == n
          then local_tell (ip ∷ port ∷ local ∷ []) p
          else to_node (ip ++ colon ∷ port))
        ≡ local_tell (ip ∷ port ∷ local ∷ []) p)
      (sym h) (rw (==_self (ip ++ colon ∷ port)) refl)

-- An actor that is registered on a node with an address of two parts has an address on that node, and a message to
-- that address goes to this actor, without the network.
pub register-emit :
    (ip port uuid a b c : Str) (actor : ℕ) (p : Proxy)
    → contains ip colon ≡ false
    → contains port colon ≡ false
    → p.node_id ≡ ip ++ colon ∷ port
    → lookup p.ids actor ≡ some (a ∷ b ∷ c ∷ [])
    → (p' : Proxy) × (register uuid actor p ≡ some p')
      × (lookup p'.ids actor ≡ some (ip ∷ port ∷ uuid ∷ []))
      × (emit (ip ∷ port ∷ uuid ∷ []) p' ≡ to_actor actor)
unfolding store
register-emit ip port uuid a b c actor p hi hp node known =
    let id : ActorId = ip ∷ port ∷ uuid ∷ [] in
    let made : new_id p.node_id uuid (a ∷ b ∷ c ∷ []) ≡ some id =
      ap (λ n. new_id n uuid (a ∷ b ∷ c ∷ [])) node ∙ new_id_plain ip port uuid a b c hi hp in
    (
      store p actor id,
      register_found uuid actor p (a ∷ b ∷ c ∷ []) id known made,
      ground (arith, lookup-insert p.ids actor actor id, ==_self actor),
      emit_local (store p actor id) ip port uuid node ∙ local_tell_stored p actor id,
    )

module _ {S R : Type 0} (name : Str) where
  -- A call answers, or the name is not in the cache.
  abbrev pub IsCached : Map Str S × Option R → Type 0
  IsCached (cache, res) = is_some (lookup cache name) ≡ is_some res

  second-IsCached :
      (o : Option R) (cache : Map Str S) (s : S)
      → IsCached (elim o as (λ x. Map Str S × Option R) [
        | none ↦ (delete (insert cache name s) name, none)
        | some res ↦ (insert cache name s, some res)
      ])
  second-IsCached none cache s =
      ground (arith, lookup-delete (insert cache name s) name name, ==_self name)
  second-IsCached (some res) cache s = ground (arith, lookup-insert cache name name s, ==_self name)

  call_found-IsCached :
      (find : Option S) (second : S → Option R) (cache : Map Str S)
      → lookup cache name ≡ none
      → IsCached (call_found find second name cache)
  unfolding call_found
  call_found-IsCached none second cache h = ap is_some h
  call_found-IsCached (some s) second cache h = second-IsCached (second s) cache s

  first-IsCached :
      (o : Option R) (find : Option S) (first second : S → Option R) (cache : Map Str S) (s : S)
      → lookup cache name ≡ some s
      → IsCached (elim o as (λ x. Map Str S × Option R) [
        | none ↦ call_found find second name (delete cache name)
        | some res ↦ (cache, some res)
      ])
  first-IsCached none find first second cache s h =
      call_found-IsCached find second (delete cache name)
        (ground (arith, lookup-delete cache name name, ==_self name))
  first-IsCached (some res) find first second cache s h = ap is_some h

  call-IsCached' :
      (o : Option S) (find : Option S) (first second : S → Option R) (cache : Map Str S)
      → lookup cache name ≡ o
      → IsCached (elim o as (λ x. Map Str S × Option R) [
        | none ↦ call_found find second name cache
        | some s ↦ elim (first s) as (λ x. Map Str S × Option R) [
          | none ↦ call_found find second name (delete cache name)
          | some res ↦ (cache, some res)
        ]
      ])
  call-IsCached' none find first second cache h = call_found-IsCached find second cache h
  call-IsCached' (some s) find first second cache h =
      first-IsCached (first s) find first second cache s h

  -- After a call, whatever the services answer, the cache has a service of the name exactly if the call was
  -- answered.
  pub call-IsCached :
      (find : Option S) (first second : S → Option R) (cache : Map Str S)
      → IsCached (call find first second name cache)
  unfolding call
  call-IsCached find first second cache =
      call-IsCached' (lookup cache name) find first second cache refl
