-- ===== src/Net/Session.antt =====
-- hNet/session.go, the messages of hNet/td.go and those that `WriteMessage` of hNet/websocketHandler.go makes. A byte is a
-- number below 256. Each operation holds the session's lock; `RemoveProperty` unlocks it as a reader, which is a fatal
-- error of the program.
pub mod Framing
use happy.Base.{
  ℕ, zero, suc, ◌+◌, ◌-◌, ◌*◌, ◌/◌, ◌%◌, ◌^◌, String, Bool, true, false, not, ◌&&◌, Option, none,
  some, List, [], ◌∷◌, ◌++◌, string_eq, nat_eq, ◌==◌, if◌then◌else◌,
}
use happy.Base.Maps.{Map, lookup, insert}

-- `V` are the values of properties, `F` the functions to call afterwards. `conn` says whether there is a connection.
pub record Session (V F : Type 0) : Type 0 where
  pub id : String
  pub properties : Map String V
  pub conn : Bool
  pub post_processing : List F

-- What an operation comes to: the process ends in `crashes`.
pub data Outcome (A : Type 0) : Type 0 where
  returns : A → Outcome A
  crashes : Outcome A

module _ {V F : Type 0} where
  unfoldable pub new_session : String → Bool → Session V F
  new_session id conn = record { id = id; properties = []; conn = conn; post_processing = [] }

  unfoldable pub add_post_processing : F → Session V F → Session V F
  add_post_processing f s = record s { post_processing = s.post_processing ++ f ∷ [] }

  -- The functions that are called, in their order.
  unfoldable pub post_processing_calls : Session V F → List F
  post_processing_calls s = s.post_processing

  unfoldable pub set_property : String → V → Session V F → Session V F
  unfolding insert
  set_property key value s = record s { properties = insert s.properties key value }

  unfoldable pub get_property : String → Session V F → Option V
  unfolding lookup
  get_property key s = lookup s.properties key

  unfoldable pub remove_property : String → Session V F → Outcome (Session V F)
  remove_property key s = crashes

  unfoldable pub is_close : Session V F → Bool
  is_close s = not s.conn

  -- `Emit`: `none` is the error of a session without a connection; else what is written.
  unfoldable pub emit : ℕ → List ℕ → Session V F → Option (ℕ × List ℕ)
  emit message_type message s = if s.conn then some (message_type, message) else none

-- `binary.BigEndian`, for a uint32.
unfoldable pub put_uint32 : ℕ → List ℕ
put_uint32 v = v / 16777216 % 256 ∷ v / 65536 % 256 ∷ v / 256 % 256 ∷ v % 256 ∷ []

-- `WriteMessage`.
unfoldable pub write_message : ℕ → List ℕ → List ℕ
unfolding put_uint32
write_message message_type message = put_uint32 message_type ++ message

-- `Decode`; fewer than four bytes panic.
unfoldable pub decode : List ℕ → Option (ℕ × List ℕ)
decode (a ∷ b ∷ c ∷ d ∷ message) = some (((a * 256 + b) * 256 + c) * 256 + d, message)
decode _ = none
