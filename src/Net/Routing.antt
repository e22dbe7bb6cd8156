-- ===== src/Net/Routing.antt =====
-- hNet/baseApi.go: how a logic API finds the handler of a message and the number of a reply. Types and handlers are
-- numbers; `Message` are the values of messages, with the protocol's marshalling and what reflection says of types as
-- parameters. `Route` and `Reply` recover from panics once they have found the API initialised, and `fails` is a panic
-- that is recovered from. The tables of the package are shared by all APIs.
pub mod Routes
pub mod Delivery
mod Examples
use happy.Base.{
  ℕ, zero, suc, Bool, true, false, not, String, Option, none, some, List, [], ◌∷◌, ◌++◌, ◌==◌,
  nat_eq, string_eq, if◌then◌else◌,
}
use happy.Base.Maps.{Map, lookup, insert, delete}
use happy.Net.Session.{Session, emit, is_close, write_message}

-- `has_resv` says whether there is a receiver: the zero Value is none.
pub record MethodType : Type 0 where
  pub has_resv : Bool
  pub method : ℕ
  pub args_type : ℕ

-- `route` and `mt2id`.
pub record Tables : Type 0 where
  pub route : Map ℕ MethodType
  pub mt2id : Map ℕ ℕ

-- A handler function and a method of an API, with the types of what they take: of a method the receiver is the first.
pub record Handler : Type 0 where
  pub func : ℕ
  pub params : List ℕ

pub record Method : Type 0 where
  pub is_exported : Bool
  pub func : ℕ
  pub params : List ℕ

pub data Error : Type 0 where
  not_init : Error
  handler_param_wrong : Error
  repeated : Error

-- What `Init` needs, and the sessions that are connected.
pub record ApiBase (V F : Type 0) : Type 0 where
  pub has_instance : Bool
  pub has_protoc : Bool
  pub has_parent : Bool
  pub is_init : Bool
  pub sess_map : Map String (Session V F)

unfoldable pub new_tables : Tables
new_tables = record { route = []; mt2id = [] }

-- `SetMT2ID`: a type that has a number keeps it.
abbrev pub set_id : Option ℕ → ℕ → ℕ → Tables → Tables
set_id (some v) typ id t = t
set_id none typ id t = record t { mt2id = insert t.mt2id typ id }

unfoldable pub set_mt2id : List (ℕ × ℕ) → Tables → Tables
unfolding lookup insert
set_mt2id [] t = t
set_mt2id ((typ, id) ∷ more) t = set_mt2id more (set_id (lookup t.mt2id typ) typ id t)

-- The end of `Register` and of a round of `RegisterGroup`: the number of the argument's type gets the handler.
abbrev pub route_at : Option MethodType → ℕ → MethodType → Tables → Tables × Option Error
route_at (some old) index mt t = (t, some repeated)
route_at none index mt t = (record t { route = insert t.route index mt }, none)

abbrev pub route_to : Option ℕ → MethodType → Tables → Tables × Option Error
route_to none mt t = (t, none)
route_to (some index) mt t = route_at (lookup t.route index) index mt t

unfoldable pub add_route : MethodType → Tables → Tables × Option Error
unfolding lookup insert
add_route mt t = route_to (lookup t.mt2id mt.args_type) mt t

-- What a loop comes to after a round: a panic ends it.
abbrev pub or_stop : Tables × Option Error → Tables × Option Error → Tables × Option Error
or_stop (t, some e) rest = (t, some e)
or_stop (t, none) rest = rest

-- `st` is the type of sessions, and `exported` is `IsExportedOrBuiltinType`.
module _ (st : ℕ) (exported : ℕ → Bool) where
  -- `Register`, after the test of `checkInit`.
  abbrev pub register_with : ℕ → List ℕ → Tables → Tables × Option Error
  register_with func (sess_type ∷ args_type ∷ []) t =
      if sess_type == st
      then if exported args_type
        then add_route (record { has_resv = false; method = func; args_type = args_type }) t
        else (t, none)
      else (t, none)
  register_with func [] t = (t, some handler_param_wrong)
  register_with func (a ∷ []) t = (t, some handler_param_wrong)
  register_with func (a ∷ b ∷ c ∷ ps) t = (t, some handler_param_wrong)

  unfoldable pub register : Bool → Handler → Tables → Tables × Option Error
  unfolding add_route
  register is_init h t = if is_init then register_with h.func h.params t else (t, some not_init)

  -- A round of the loop of `RegisterGroup`, for an argument type that is a pointer, as messages are: the log that follows
  -- takes its element type.
  abbrev pub register_method : ℕ → List ℕ → Tables → Tables × Option Error
  register_method func (receiver ∷ sess_type ∷ args_type ∷ []) t =
      if sess_type == st
      then if exported args_type
        then add_route (record { has_resv = true; method = func; args_type = args_type }) t
        else (t, none)
      else (t, none)
  register_method func [] t = (t, none)
  register_method func (a ∷ []) t = (t, none)
  register_method func (a ∷ b ∷ []) t = (t, none)
  register_method func (a ∷ b ∷ c ∷ d ∷ ps) t = (t, none)

  unfoldable pub register_round : Method → Tables → Tables × Option Error
  unfolding add_route
  register_round m t = if m.is_exported then register_method m.func m.params t else (t, none)

  -- The loop.
  unfoldable pub register_each : List Method → Tables → Tables × Option Error
  unfolding register_round
  register_each [] t = (t, none)
  register_each (m ∷ ms) t =
      let rest = register_each ms (register_round m t).0 in or_stop (register_round m t) rest

  unfoldable pub register_group : Bool → List Method → Tables → Tables × Option Error
  unfolding register_each
  register_group is_init ms t = if is_init then register_each ms t else (t, some not_init)

  -- `Init`, for an instance with these methods; `parent` says whether one is given.
  unfoldable pub init :
      {V F : Type 0}
      → Bool
      → List Method
      → ApiBase V F
      → Tables
      → ApiBase V F × Tables × Option Error
  unfolding register_group
  init parent ms a t =
      let a' : ApiBase _ _ = if parent then record a { has_parent = true } else a in
      if a'.has_protoc
      then if a'.has_parent
        then if a'.has_instance
          then (let (t', e) = register_group true ms t in (record a' { is_init = true }, t', e))
          else (a', t, some not_init)
        else (a', t, some not_init)
      else (a', t, some not_init)

-- What `Route` comes to: a panic, a message that is passed over, or the call of a handler.
pub data Routed (Message : Type 0) : Type 0 where
  panics : Routed Message
  not_found : Routed Message
  bad_message : Routed Message
  fails : Routed Message
  calls : ℕ → Message → Routed Message

-- What `Reply` comes to: `nothing` is a reply to a session that is closed.
pub data Replied : Type 0 where
  panics : Replied
  fails : Replied
  nothing : Replied
  sends : List ℕ → Replied

module _ {Message : Type 0} (unmarshal : ℕ → List ℕ → Option Message) where
  -- `IsNil` of the zero Value panics.
  abbrev pub call_handler : MethodType → Option Message → Routed Message
  call_handler mt none = bad_message
  call_handler mt (some v) = if mt.has_resv then calls mt.method v else fails

  abbrev pub route_by : Option MethodType → List ℕ → Routed Message
  route_by none bytes = not_found
  route_by (some mt) bytes = call_handler mt (unmarshal mt.args_type bytes)

  unfoldable pub route_message : Bool → Tables → ℕ → List ℕ → Routed Message
  unfolding lookup
  route_message is_init t message_id bytes =
      if is_init then route_by (lookup t.route message_id) bytes else Routed.panics

-- The bytes that go out: `Emit` of the session, whose connection frames them.
abbrev pub framed : Option (ℕ × List ℕ) → Replied
framed none = nothing
framed (some (message_type, bytes)) = sends (write_message message_type bytes)

-- `Reply` for the number of the message's type and what it is marshalled to.
module _ {V F : Type 0} where
  unfoldable pub reply_as : Option ℕ → Option (List ℕ) → Session V F → Replied
  unfolding is_close emit
  reply_as none bytes sess = fails
  reply_as (some id) none sess = fails
  reply_as (some id) (some bytes) sess =
      if is_close sess then nothing else framed (emit id bytes sess)

module _ {V F Message : Type 0} (type_of : Message → ℕ) (marshal : Message → Option (List ℕ)) where
  unfoldable pub reply : Bool → Tables → Session V F → Message → Replied
  unfolding lookup reply_as
  reply is_init t sess v =
      if is_init then reply_as (lookup t.mt2id (type_of v)) (marshal v) sess else Replied.panics

module _ {V F : Type 0} where
  unfoldable pub on_connect : Session V F → ApiBase V F → ApiBase V F
  unfolding insert
  on_connect s a = record a { sess_map = insert a.sess_map s.id s }

  unfoldable pub on_disconnect : Session V F → ApiBase V F → ApiBase V F
  unfolding delete
  on_disconnect s a = record a { sess_map = delete a.sess_map s.id }
