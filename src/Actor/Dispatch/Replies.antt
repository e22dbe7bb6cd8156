-- ===== src/Actor/Dispatch/Replies.antt =====
-- What `Tell` of hActor/ActorComponent.go gets for a reply.
use happy.Base.{◌≡◌, refl, ◌∙◌, true, false, Option, none, some, List, [], ◌∷◌, arith}
use happy.Actor.Dispatch.{
  Error, timeout, failed, MessageInfo, reply, reply_error, reply_success, catch, handle,
}

module _ {E : Type 0} where
  -- The error of a handler's outcome.
  abbrev pub error_of : Option E → Option (Error E) → Option (Error E)
  error_of none old = old
  error_of (some e) old = some (failed e)

  handle_done :
      (hs : List (Option E)) (m : MessageInfo E)
      → m.is_done ≡ true
      → (m' : MessageInfo E) × (handle hs m ≡ some m') × (m'.result ≡ m.result)
  unfolding handle reply reply_success reply_error
  handle_done [] m d = (m, refl, refl)
  handle_done (none ∷ hs) m d =
      let (m', e, same) = handle_done hs m d in (m', ground (arith, d, e), same)
  handle_done (some x ∷ hs) m d =
      let (m', e, same) = handle_done hs (record m { err = some (failed x) }) d in
      (m', ground (arith, d, e), same)

  -- The reply that a first handler gives to a `Tell` that waits.
  catch_waiting :
      (h : Option E) (m : MessageInfo E)
      → m.needs_reply ≡ true
      → m.is_done ≡ false
      → m.result ≡ none
      → catch h m
        ≡ some
            (record m { is_done = true; err = error_of h m.err; result = some (error_of h m.err) })
  unfolding reply reply_success reply_error
  catch_waiting none m n d r = ground (arith, n, d, r)
  catch_waiting (some e) m n d r = ground (arith, n, d, r)

  catch_late :
      (h : Option E) (m : MessageInfo E) (r : Option (Error E))
      → m.needs_reply ≡ true
      → m.is_done ≡ false
      → m.result ≡ some r
      → catch h m ≡ none
  unfolding reply reply_success reply_error
  catch_late none m r n d e = ground (arith, n, d, e)
  catch_late (some x) m r n d e = ground (arith, n, d, e)

  handle_first :
      (h : Option E) (hs : List (Option E)) (m m' : MessageInfo E)
      → catch h m ≡ some m'
      → handle (h ∷ hs) m ≡ handle hs m'
  unfolding handle
  handle_first h hs m m' e = ground (arith, e)

  handle_blocks :
      (h : Option E) (hs : List (Option E)) (m : MessageInfo E)
      → catch h m ≡ none
      → handle (h ∷ hs) m ≡ none
  unfolding handle
  handle_blocks h hs m e = ground (arith, e)

  -- While Tell waits for a reply, handling its message by one handler or more ends, and Tell returns what the first of
  -- them comes to. Where Tell has returned for the time-out, handling the message never ends.
  pub handle-result :
      (h : Option E) (hs : List (Option E)) (m : MessageInfo E)
      → m.needs_reply ≡ true
      → m.is_done ≡ false
      → (m.result ≡ none
          → (m' : MessageInfo E) × (handle (h ∷ hs) m ≡ some m')
            × (m'.result ≡ some (error_of h m.err)))
        × (m.result ≡ some (some timeout) → handle (h ∷ hs) m ≡ none)
  handle-result h hs m n d = (
    (λ r.
        let replied : MessageInfo E = record m {
          is_done = true;
          err = error_of h m.err;
          result = some (error_of h m.err);
        } in
        let (m', e, same) = handle_done hs replied refl in
        (m', handle_first h hs m replied (catch_waiting h m n d r) ∙ e, same)),
    λ r. handle_blocks h hs m (catch_late h m (some timeout) n d r),
  )
