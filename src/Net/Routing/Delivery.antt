-- ===== src/Net/Routing/Delivery.antt =====
-- From `Reply` of hNet/baseApi.go on one side to `Route` on the other, through the framing of hNet/session.go's connection.
use happy.Base.{
  ℕ, ◌<◌, ◌^◌, ◌≡◌, refl, sym, ap, ◌∙◌, Bool, true, Option, none, some, List, Bool-cases, inl, inr,
  nat_eq, if◌then◌else◌, arith,
}
use happy.Base.Maps.{lookup}
use happy.Net.Session.{Session, emit, is_close, write_message, decode}
use happy.Net.Session.Framing.{decode-write_message}
use happy.Net.Routing.{
  MethodType, Tables, Routed, not_found, fails, calls, sends, nothing, call_handler, route_by,
  route_message, reply_as, reply, new_tables,
}
use happy.Net.Routing.Routes.{Change, apply_all, apply_all-IsRouted}

module _ {V F : Type 0} where
  reply_as-sends :
      (o : Option ℕ) (m : Option (List ℕ)) (s : Session V F) (out : List ℕ)
      → reply_as o m s ≡ sends out
      → (id : ℕ) × (bytes : List ℕ) × (o ≡ some id)
        × (m ≡ some bytes)
        × (out ≡ write_message id bytes)
  unfolding reply_as is_close emit
  reply_as-sends none m s out h = absurd (cc)
  reply_as-sends (some id) none s out h = absurd (cc)
  reply_as-sends (some id) (some bytes) s out h = elim (Bool-cases s.conn) [
    | inl open_ ↦
        let sent : sends (write_message id bytes) ≡ sends out = sym (ground (arith, open_)) ∙ h in
        (id, bytes, refl, refl, cc)
    | inr shut ↦ absurd (let bad : nothing ≡ sends out = sym (ground (arith, shut)) ∙ h in cc)
  ]

-- What becomes of a value at the handler that there is: one without a receiver cannot be called.
abbrev pub handled : {Message : Type 0} → Option MethodType → Message → Routed Message
handled none v = not_found
handled (some mt) v = if mt.has_resv then calls mt.method v else fails

module _ {Message : Type 0} (type_of : Message → ℕ) (marshal : Message → Option (List ℕ))
    (unmarshal : ℕ → List ℕ → Option Message) where
  -- What the peer makes of the bytes.
  abbrev pub IsDelivered : Tables → Message → List ℕ → Type 0
  IsDelivered t v out =
      (id : ℕ) × (bytes : List ℕ) × (decode out ≡ some (id, bytes))
      × (lookup t.mt2id (type_of v) ≡ some id)
      × ((mt : MethodType) → lookup t.route id ≡ some mt → mt.args_type ≡ type_of v)
      × (route_message unmarshal true t id bytes ≡ handled (lookup t.route id) v)

  route_by-handled :
      (o : Option MethodType) (bytes : List ℕ) (v : Message)
      → unmarshal (type_of v) bytes ≡ some v
      → ((mt : MethodType) → o ≡ some mt → mt.args_type ≡ type_of v)
      → route_by unmarshal o bytes ≡ handled o v
  route_by-handled none bytes v back typed = refl
  route_by-handled (some mt) bytes v back typed =
      ap (call_handler unmarshal mt) (ap (λ a. unmarshal a bytes) (typed mt refl) ∙ back)

  -- Whatever has been registered, if no two types have the same number, the numbers are of 32 bits, and the protocol
  -- unmarshals what it has marshalled, then what a reply sends is decoded, by a peer with the same tables, to the number of
  -- the message's type, and the very message is given to the handler for that number, if there is one, which takes that
  -- type; a handler without a receiver fails.
  pub reply-route_message :
      {V F : Type 0} (st : ℕ) (exported : ℕ → Bool) (cs : List (Change st exported))
      (s : Session V F) (v : Message) (out : List ℕ)
      → ((a b id : ℕ)
          → lookup (apply_all st exported cs new_tables).mt2id a ≡ some id
          → lookup (apply_all st exported cs new_tables).mt2id b ≡ some id
          → a ≡ b)
      → ((a id : ℕ) → lookup (apply_all st exported cs new_tables).mt2id a ≡ some id → id < 2 ^ 32)
      → ((w : Message) (bytes : List ℕ)
          → marshal w ≡ some bytes
          → unmarshal (type_of w) bytes ≡ some w)
      → reply type_of marshal true (apply_all st exported cs new_tables) s v ≡ sends out
      → IsDelivered (apply_all st exported cs new_tables) v out
  unfolding reply route_message
  reply-route_message st exported cs s v out distinct small codec h =
      let t : Tables = apply_all st exported cs new_tables in
      let (id, bytes, numbered, marshalled, framed_out) =
        reply_as-sends (lookup t.mt2id (type_of v)) (marshal v) s out h in
      let typed : (mt : MethodType) → lookup t.route id ≡ some mt → mt.args_type ≡ type_of v =
        λ mt e.
          distinct mt.args_type (type_of v) id (apply_all-IsRouted st exported cs id mt e)
            numbered in
      (
        id,
        bytes,
        ap decode framed_out ∙ decode-write_message id bytes (small (type_of v) id numbered),
        numbered,
        typed,
        route_by-handled (lookup t.route id) bytes v (codec v bytes marshalled) typed,
      )
