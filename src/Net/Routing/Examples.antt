-- ===== src/Net/Routing/Examples.antt =====
-- Tests of hNet/baseApi.go, and the theorem on an API with one message.
use happy.Base.{
  ℕ, ◌≡◌, refl, sym, ◌∙◌, ap, Bool, true, Option, none, some, List, [], ◌∷◌, nat_eq, ◌==◌, ==→≡,
  Bool-cases, inl, inr, arith,
}
use happy.Base.Maps.{lookup, insert}
use happy.Net.Session.{Session, new_session, emit, is_close, write_message}
use happy.Net.Routing.{
  Tables, Method, fails, calls, sends, new_tables, set_mt2id, add_route, register, register_round,
  register_each, register_group, route_message, reply_as, reply, repeated,
}
use happy.Net.Routing.Routes.{Change, sets, registers_group, apply_all}
use happy.Net.Routing.Delivery.{IsDelivered, reply-route_message}

-- The type of sessions is 0, and 1 that of the only message, whose number is 1001.
abbrev all_exported : ℕ → Bool
all_exported t = true

abbrev one_type : ℕ → ℕ
one_type v = 1

abbrev one_byte : ℕ → Option (List ℕ)
one_byte v = some (v ∷ [])

abbrev read_byte : ℕ → List ℕ → Option ℕ
read_byte t [] = none
read_byte t (b ∷ bs) = some b

abbrev login : Method
login = record { is_exported = true; func = 7; params = 9 ∷ 0 ∷ 1 ∷ [] }

abbrev changes : List (Change 0 all_exported)
changes = sets ((1, 1001) ∷ []) ∷ registers_group true (login ∷ []) ∷ []

abbrev session : Session ℕ ℕ
session = new_session "s" true

numbers : (apply_all 0 all_exported changes new_tables).mt2id ≡ (1, 1001) ∷ []
unfolding new_tables set_mt2id register_group register_each register_round add_route lookup insert
numbers = refl

-- The handler is called with the byte that was sent.
routed :
    route_message read_byte true (apply_all 0 all_exported changes new_tables) 1001 (5 ∷ [])
    ≡ calls 7 5
unfolding new_tables set_mt2id register_group register_each register_round add_route lookup insert
    route_message
routed = refl

-- A function is registered without a receiver, and its call fails.
abbrev function : Tables
function =
    (register 0 all_exported true (record { func = 8; params = 0 ∷ 1 ∷ [] })
      (set_mt2id ((1, 1001) ∷ []) new_tables)).0

function_fails : route_message read_byte true function 1001 (5 ∷ []) ≡ fails
unfolding new_tables set_mt2id register add_route lookup insert route_message
function_fails = refl

-- A second handler for a type is a panic.
second_repeated :
    (register 0 all_exported true
      (record { func = 8; params = 0 ∷ 1 ∷ [] })
      (apply_all 0 all_exported changes new_tables)).1
    ≡ some repeated
unfolding new_tables set_mt2id register_group register_each register_round register add_route lookup
    insert
second_repeated = refl

only_one : (a id : ℕ) → lookup {K = ℕ} ((1, 1001) ∷ []) a ≡ some id → (a ≡ 1) × (id ≡ 1001)
unfolding lookup
only_one a id h = elim (Bool-cases (1 == a)) [
  | inl same ↦
      let got : some 1001 ≡ some id = sym (ground (arith, same)) ∙ h in
      (sym (==→≡ 1 a same), sym cc)
  | inr other ↦ absurd (let bad : none ≡ some id = sym (ground (arith, other)) ∙ h in cc)
]

given :
    (a id : ℕ)
    → lookup (apply_all 0 all_exported changes new_tables).mt2id a ≡ some id
    → (a ≡ 1) × (id ≡ 1001)
given a id h = only_one a id (sym (ap (λ m. lookup m a) numbers) ∙ h)

read_back : (w : ℕ) (bytes : List ℕ) → one_byte w ≡ some bytes → read_byte 1 bytes ≡ some w
read_back w bytes e = let same : w ∷ [] ≡ bytes = cc in ap (read_byte 1) (sym same)

replied :
    reply one_type one_byte true (apply_all 0 all_exported changes new_tables) session 5
    ≡ sends (write_message 1001 (5 ∷ []))
unfolding new_tables set_mt2id register_group register_each register_round add_route lookup insert
    reply reply_as new_session is_close emit
replied = refl

reply-route_message_example :
    IsDelivered one_type one_byte read_byte
      (apply_all 0 all_exported changes new_tables)
      5
      (write_message 1001 (5 ∷ []))
reply-route_message_example =
    reply-route_message one_type one_byte read_byte 0 all_exported changes session 5
      (write_message 1001 (5 ∷ [])) (λ a b id p q. (given a id p).0 ∙ sym (given b id q).0)
      (λ a id p. omega (arith, (given a id p).1)) read_back replied
