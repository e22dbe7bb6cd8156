-- ===== src/Actor/Dispatch.antt =====
-- The messages of an actor of the type ACTOR_TYPE_SYNC: hActor/ActorComponent.go and hActor/ActorMessageInfo.go. A
-- message is a number; `handlers` gives what the handlers for it, in the order of the components, come to, and an error
-- and a panic of one are the same. `accepted`, `handled` and `crashed` record what happened. `Destroy` is received once.
pub mod Replies
pub mod Queueing
mod Examples
use happy.Base.{
  ℕ, zero, suc, ◌+◌, ◌<◌, ◌≡◌, Bool, true, false, not, ◌&&◌, Option, none, some, List, [], ◌∷◌,
  ◌++◌, length, contains, ◌==◌, nat_eq, if◌then◌else◌,
}

-- ErrTimeout, or the error of a handler.
pub data Error (E : Type 0) : Type 0 where
  timeout : Error E
  failed : E → Error E

-- `result` is what `Tell` has returned, if it has: no error or one. `needs_reply` is `done != nil`.
pub record MessageInfo (E : Type 0) : Type 0 where
  pub needs_reply : Bool
  pub is_wait_call : Bool
  pub is_done : Bool
  pub err : Option (Error E)
  pub result : Option (Option (Error E))

pub data Stage : Type 0 where
  selecting : Stage
  stuck : ℕ → Stage
  returned : Stage

pub record ActorComponent (E : Type 0) : Type 0 where
  pub active : Bool
  pub closed : Bool
  pub stage : Stage
  pub sending : ℕ → Bool
  pub queue_receive : List ℕ
  pub infos : ℕ → MessageInfo E
  pub accepted : List ℕ
  pub handled : List ℕ
  pub crashed : List ℕ

abbrev pub change {ℓ} : {A : Type ℓ} → (ℕ → A) → ℕ → A → ℕ → A
change f m a i = if m == i then a else f i

module _ {E : Type 0} where
  -- `this.done <- struct{}{}`: `Tell` takes it and returns, or it has returned and the send blocks for ever (`none`).
  unfoldable pub reply : MessageInfo E → Option (MessageInfo E)
  reply m =
      if m.needs_reply && not m.is_done
      then (elim (m.result) [
        | none ↦ some (record m { is_done = true; result = some m.err })
        | some r ↦ none
      ])
      else some m

  unfoldable pub reply_error : E → MessageInfo E → Option (MessageInfo E)
  unfolding reply
  reply_error e m = reply (record m { err = some (failed e) })

  unfoldable pub reply_success : MessageInfo E → Option (MessageInfo E)
  unfolding reply
  reply_success m = reply m

  -- `Catch`.
  abbrev pub catch : Option E → MessageInfo E → Option (MessageInfo E)
  catch none m = reply_success m
  catch (some e) m = reply_error e m

  -- `handle`.
  unfoldable pub handle : List (Option E) → MessageInfo E → Option (MessageInfo E)
  unfolding reply_success reply_error
  handle [] m = some m
  handle (h ∷ hs) m = elim (catch h m) [ none ↦ none | some m' ↦ handle hs m' ]

  -- `dispatch` with a message that it has taken from the queue.
  abbrev pub dispatched : ℕ → List ℕ → Option (MessageInfo E) → ActorComponent E → ActorComponent E
  dispatched m rest none a = record a { queue_receive = rest; stage = stuck m }
  dispatched m rest (some info) a = record a {
    queue_receive = rest;
    infos = change a.infos m info;
    handled = a.handled ++ m ∷ [];
  }

  -- The end of the wait in `Tell`.
  abbrev pub timed_out : MessageInfo E → MessageInfo E
  timed_out info = record info { err = some timeout; result = some (some timeout) }

  module _ (handlers : ℕ → List (Option E)) where
    -- `tells`: `Tell` has found the actor active; `sends` and `crashes`: it sends, on an open or a closed channel.
    -- `closes`: the dispatcher receives the signal of `Destroy`.
    pub data Step : ActorComponent E → ActorComponent E → Type 0 where
      tells :
          (a : ActorComponent E) (m : ℕ)
          → a.active ≡ true
          → Step a (record a { sending = change a.sending m true })
      sends :
          (a : ActorComponent E) (m : ℕ)
          → a.sending m ≡ true
          → a.closed ≡ false
          → length a.queue_receive < 20
          → Step a (record a {
            sending = change a.sending m false;
            queue_receive = a.queue_receive ++ m ∷ [];
            accepted = a.accepted ++ m ∷ [];
          })
      crashes :
          (a : ActorComponent E) (m : ℕ)
          → a.sending m ≡ true
          → a.closed ≡ true
          → Step a (record a { sending = change a.sending m false; crashed = m ∷ a.crashed })
      times_out :
          (a : ActorComponent E) (m : ℕ)
          → contains a.accepted m ≡ true
          → (a.infos m).needs_reply ≡ true
          → (a.infos m).is_wait_call ≡ false
          → (a.infos m).result ≡ none
          → Step a (record a { infos = change a.infos m (timed_out (a.infos m)) })
      takes :
          (a : ActorComponent E) (m : ℕ) (rest : List ℕ)
          → a.stage ≡ selecting
          → a.queue_receive ≡ m ∷ rest
          → Step a (dispatched m rest (handle (handlers m) (a.infos m)) a)
      closes :
          (a : ActorComponent E)
          → a.stage ≡ selecting
          → a.closed ≡ false
          → Step a (record a { active = false; closed = true })
      ends :
          (a : ActorComponent E)
          → a.stage ≡ selecting
          → a.closed ≡ true
          → a.queue_receive ≡ []
          → Step a (record a { stage = returned })

    pub data Steps (a : ActorComponent E) : ActorComponent E → Type 0 where
      here : Steps a a
      next : {b c : ActorComponent E} → Steps a b → Step b c → Steps a c
