-- ===== src/Actor.antt =====
-- Package hActor: the addresses of actors (hActor/ActorID.go) and groups of them (hActor/ActorIDGroup.go).
-- A string is the list of its bytes. `none` is an error, or a panic where it says so.
pub mod Address
pub mod Group
pub mod Proxy
pub mod Dispatch
mod Examples
use happy.Base.{
  ℕ, zero, suc, ◌+◌, Bool, true, false, not, ◌&&◌, Option, none, some, List, [], ◌∷◌, ◌++◌, length,
  get_elem?, set, take, ◌==◌, nat_eq, if◌then◌else◌, ltb,
}

abbrev pub Str : Type 0
Str = List ℕ

abbrev pub ActorId : Type 0
ActorId = List Str

-- The byte ':'.
abbrev pub colon : ℕ
colon = 58

unfoldable pub str_equal : Str → Str → Bool
str_equal [] [] = true
str_equal [] (y ∷ ys) = false
str_equal (x ∷ xs) [] = false
str_equal (x ∷ xs) (y ∷ ys) = x == y && str_equal xs ys

unfoldable pub empty_actor_id : ActorId
empty_actor_id = [] ∷ [] ∷ [] ∷ []

-- The loop of `Equal`, over two addresses of one length.
unfoldable pub equal_loop : ActorId → ActorId → Bool
unfolding str_equal
equal_loop [] target = true
equal_loop (value ∷ values) [] = false
equal_loop (value ∷ values) (t ∷ ts) = if str_equal value t then equal_loop values ts else false

unfoldable pub equal : ActorId → ActorId → Bool
unfolding equal_loop
equal id target = if length id == length target then equal_loop id target else false

-- The loop of `String`: a colon after every part but the last.
unfoldable pub join_loop : ActorId → Str
join_loop [] = []
join_loop (value ∷ []) = value
join_loop (value ∷ v ∷ values) = value ++ colon ∷ join_loop (v ∷ values)

-- "unknown" for an address without parts.
unfoldable pub to_string : ActorId → Str
unfolding join_loop
to_string [] = 117 ∷ 110 ∷ 107 ∷ 110 ∷ 111 ∷ 119 ∷ 110 ∷ []
to_string (value ∷ values) = join_loop (value ∷ values)

abbrev first_part : ℕ → List Str → List Str
first_part c [] = (c ∷ []) ∷ []
first_part c (p ∷ ps) = (c ∷ p) ∷ ps

-- `strings.Split(address, ":")`.
unfoldable pub split : Str → List Str
split [] = [] ∷ []
split (c ∷ cs) = let rest = split cs in if c == colon then [] ∷ rest else first_part c rest

unfoldable pub parse : Str → Option ActorId
unfolding split
parse address = let arr = split address in if length arr == 3 then some arr else none

-- `SetNodeID` on an address of two parts at least, as `EmptyActorID` and `Parse` make it; of a shorter one it
-- panics.
abbrev pub with_node : List Str → ActorId → Option ActorId
with_node (ip ∷ port ∷ []) rest = some (ip ∷ port ∷ rest)
with_node _ rest = none

unfoldable pub set_node_id : Str → ActorId → Option ActorId
unfolding split
set_node_id address (a ∷ b ∷ rest) = with_node (split address) rest
set_node_id address _ = none

-- The parts of an address; an index out of range panics.
unfoldable pub set_local_actor_id : Str → ActorId → Option ActorId
set_local_actor_id id this = if ltb 2 (length this) then some (set this 2 id) else none

unfoldable pub get_node_id : ActorId → Option Str
get_node_id (ip ∷ port ∷ rest) = some (ip ++ colon ∷ port)
get_node_id _ = none

unfoldable pub get_local_actor_id : ActorId → Option Str
get_local_actor_id this = get_elem? this 2

-- `isRepeated` and `Has`.
unfoldable pub has : List ActorId → ActorId → Bool
unfolding equal
has [] id = false
has (value ∷ actors) id = if equal value id then true else has actors id

unfoldable pub add : List ActorId → ActorId → List ActorId
unfolding has
add actors id = if not (has actors id) then actors ++ id ∷ [] else actors

unfoldable pub sub : List ActorId → ActorId → List ActorId
unfolding equal
sub [] id = []
sub (value ∷ actors) id =
    let rest = sub actors id in if equal value id then actors else value ∷ rest

-- `copy` into a slice of length 0 copies as many elements as the slice has.
unfoldable pub get : List ActorId → List ActorId
get actors = take 0 actors

-- `RndOne`; `draw` is what `rand.Intn` gives.
unfoldable pub rnd_one : ℕ → List ActorId → Option ActorId
rnd_one draw [] = none
rnd_one draw (a ∷ actors) = get_elem? (a ∷ actors) draw
