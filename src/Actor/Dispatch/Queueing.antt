-- ===== src/Actor/Dispatch/Queueing.antt =====
-- The queue of a synchronous actor of hActor/ActorComponent.go.
use happy.Base.{
  ℕ, ◌≤◌, ◌≡◌, refl, sym, ap, ◌∙◌, subst, true, false, Option, none, some, List, [], ◌∷◌, ◌++◌,
  length, length-append, arith, nat_eq, ==_self,
}
use mathlib.Core.List.{append_assoc}
use happy.Actor.Dispatch.{
  timeout, MessageInfo, Stage, selecting, stuck, returned, ActorComponent, change, handle,
  dispatched, Step, tells, sends, crashes, times_out, takes, closes, ends, Steps, here, next,
}
use happy.Actor.Dispatch.Replies.{handle-result}

-- The message that the dispatcher cannot let go of.
abbrev pub in_hand : Stage → List ℕ
in_hand selecting = []
in_hand (stuck m) = m ∷ []
in_hand returned = []

module _ {E : Type 0} (handlers : ℕ → List (Option E)) where
  -- The messages accepted are those handled, then the one in hand, then those in the queue, of which there are at most
  -- twenty.
  abbrev pub IsQueue : ActorComponent E → Type 0
  IsQueue a =
      (a.accepted ≡ a.handled ++ (in_hand a.stage ++ a.queue_receive))
      × (length a.queue_receive ≤ 20)

  dispatched-IsQueue :
      (a : ActorComponent E) (m : ℕ) (rest : List ℕ) (o : Option (MessageInfo E))
      → a.stage ≡ selecting
      → a.queue_receive ≡ m ∷ rest
      → IsQueue a
      → IsQueue (dispatched m rest o a)
  dispatched-IsQueue a m rest none s q (order, short) = (
    order ∙ ap (λ st. a.handled ++ (in_hand st ++ a.queue_receive)) s ∙ ap (λ l. a.handled ++ l) q,
    omega (arith, ap length q),
  )
  dispatched-IsQueue a m rest (some info) s q (order, short) = (
    order
        ∙ ap (λ st. a.handled ++ (in_hand st ++ a.queue_receive)) s
        ∙ ap (λ l. a.handled ++ l) q
        ∙ sym (append_assoc a.handled (m ∷ []) rest)
        ∙ ap (λ st. (a.handled ++ m ∷ []) ++ (in_hand st ++ rest)) (sym s),
    omega (arith, ap length q),
  )

  Step-IsQueue : {a b : ActorComponent E} → Step handlers a b → IsQueue a → IsQueue b
  Step-IsQueue (tells a m on) h = h
  Step-IsQueue (sends a m s open_ room) (order, short) = (
    ap (λ l. l ++ m ∷ []) order
        ∙ append_assoc a.handled (in_hand a.stage ++ a.queue_receive) (m ∷ [])
        ∙ ap (λ l. a.handled ++ l) (append_assoc (in_hand a.stage) a.queue_receive (m ∷ [])),
    omega (arith, length-append {0} a.queue_receive (m ∷ [])),
  )
  Step-IsQueue (crashes a m s c) h = h
  Step-IsQueue (times_out a m i n w r) h = h
  Step-IsQueue (takes a m rest s q) h =
      dispatched-IsQueue a m rest (handle (handlers m) (a.infos m)) s q h
  Step-IsQueue (closes a s c) h = h
  Step-IsQueue (ends a s c q) (order, short) =
      (order ∙ ap (λ st. a.handled ++ (in_hand st ++ a.queue_receive)) s, short)

  -- From an actor that has accepted nothing, after any steps the messages accepted are, in order, those handled, then
  -- the one that the dispatcher is stuck with, if it is, then those in the queue, at most twenty.
  pub Steps-IsQueue :
      {a b : ActorComponent E}
      → a.accepted ≡ []
      → a.handled ≡ []
      → a.queue_receive ≡ []
      → a.stage ≡ selecting
      → Steps handlers a b
      → IsQueue b
  Steps-IsQueue {a} e h q s here = (
    e
        ∙ sym (
            ap (λ l. l ++ (in_hand a.stage ++ a.queue_receive)) h
            ∙ ap (λ st. in_hand st ++ a.queue_receive) s
            ∙ q),
    omega (arith, ap length q),
  )
  Steps-IsQueue e h q s (next r st) = Step-IsQueue st (Steps-IsQueue e h q s r)

  -- What stays as it is once the dispatcher is stuck.
  abbrev pub IsStuck : ActorComponent E → ActorComponent E → ℕ → Type 0
  IsStuck a b m = (b.stage ≡ stuck m) × (b.handled ≡ a.handled) × (b.closed ≡ a.closed)

  Step-IsStuck :
      (a : ActorComponent E) {b c : ActorComponent E} (m : ℕ)
      → Step handlers b c
      → IsStuck a b m
      → IsStuck a c m
  Step-IsStuck a m (tells b k on) h = h
  Step-IsStuck a m (sends b k s o r) h = h
  Step-IsStuck a m (crashes b k s c) h = h
  Step-IsStuck a m (times_out b k i n w r) h = h
  Step-IsStuck a m (takes b k rest s q) h =
      absurd (let bad : stuck m ≡ selecting = sym h.0 ∙ s in cc)
  Step-IsStuck a m (closes b s c) h = absurd (let bad : stuck m ≡ selecting = sym h.0 ∙ s in cc)
  Step-IsStuck a m (ends b s c q) h = absurd (let bad : stuck m ≡ selecting = sym h.0 ∙ s in cc)

  Steps-IsStuck :
      (a : ActorComponent E) {b : ActorComponent E} (m : ℕ)
      → a.stage ≡ stuck m
      → Steps handlers a b
      → IsStuck a b m
  Steps-IsStuck a m s here = (s, refl, refl)
  Steps-IsStuck a m s (next r st) = Step-IsStuck a m st (Steps-IsStuck a m s r)

  stuck_at :
      (a : ActorComponent E) (m : ℕ) (rest : List ℕ) (o : Option (MessageInfo E))
      → o ≡ none
      → (dispatched m rest o a ≡ record a { queue_receive = rest; stage = stuck m })
  stuck_at a m rest o e = ap (λ x. dispatched m rest x a) e

  -- A synchronous actor that takes a message with a handler whose Tell has timed out never does anything again: after
  -- any steps from there it has handled nothing more and has not received the signal of Destroy.
  pub times_out-IsStuck :
      (a b : ActorComponent E) (m : ℕ) (rest : List ℕ) (h : Option E) (hs : List (Option E))
      → handlers m ≡ h ∷ hs
      → (a.infos m).needs_reply ≡ true
      → (a.infos m).is_done ≡ false
      → (a.infos m).result ≡ some (some timeout)
      → Steps handlers (dispatched m rest (handle (handlers m) (a.infos m)) a) b
      → IsStuck a b m
  times_out-IsStuck a b m rest h hs e n d r run =
      let blocks : handle (handlers m) (a.infos m) ≡ none =
        ap (λ l. handle l (a.infos m)) e ∙ (handle-result h hs (a.infos m) n d).1 r in
      let there = stuck_at a m rest (handle (handlers m) (a.infos m)) blocks in
      let run' : Steps handlers (record a { queue_receive = rest; stage = stuck m }) b =
        subst (λ x. Steps handlers x b) there run in
      Steps-IsStuck (record a { queue_receive = rest; stage = stuck m }) m refl run'

  -- A Tell that has found a synchronous actor active, and has yet to send when the dispatcher receives the signal of
  -- Destroy, can crash: it sends on the closed channel.
  pub tells-crashes :
      (a : ActorComponent E) (m : ℕ)
      → a.active ≡ true
      → a.closed ≡ false
      → a.stage ≡ selecting
      → (b : ActorComponent E) × Steps handlers a b × (b.crashed ≡ m ∷ a.crashed)
  tells-crashes a m on open_ s =
      let told : ActorComponent E = record a { sending = change a.sending m true } in
      let shut : ActorComponent E = record told { active = false; closed = true } in
      (
        record shut { sending = change shut.sending m false; crashed = m ∷ shut.crashed },
        next (next (next here (tells a m on)) (closes told s open_))
            (crashes shut m (ground (arith, ==_self m)) refl),
        refl,
      )
