-- ===== src/SyncQueue/Order.antt =====
-- The order of the items of hCommon/syncQueue.go: first in, first out, none lost and none made up.
use happy.Base.{
  ◌-◌, ◌<◌, ◌≡◌, refl, ◌∙◌, sym, ap, Option, none, some, List, [], ◌∷◌, ◌++◌, length, arith, ltb,
  if◌then◌else◌, inl, inr, Bool-cases, nat_eq,
}
use mathlib.Core.List.{append_assoc, append-nil}
use happy.SyncQueue.{
  Buffers, State, Event, Popped, blocked, returned, pops, wakes, peaks, removes, try_pops, closes,
  pushes, new_sync_queue, pop, wake, remove, try_pop, push, close, signal, step, run,
}

abbrev of_option : {V : Type 0} → Option V → List V
of_option none = []
of_option (some v) = v ∷ []

module _ {V : Type 0} (api : Buffers V) where
  open api use {Buffer, count, peek, contents}

  -- What goes in: a push on an open queue.
  unfoldable pub entered : State Buffer → Event V → List V
  entered q (pushes v) = if q.closed then [] else v ∷ []
  entered q _ = []

  abbrev of_popped : Popped V → List V
  of_popped blocked = []
  of_popped (returned o) = of_option o

  -- What the callers get; `Remove` drops the item that `Peak` shows.
  unfoldable pub delivered : State Buffer → Event V → List V
  delivered q pops = of_popped (pop api q).1
  delivered q wakes = of_popped (wake api q).1
  delivered q try_pops = of_option (try_pop api q).1.0
  delivered q removes = of_option (try_pop api q).1.0
  delivered q _ = []

  front :
      (b : Buffer) (xs : List V)
      → contents b ≡ xs
      → 0 < count b
      → of_option (peek b) ++ contents (api.remove b) ≡ xs
  front b [] e h = absurd (omega (arith, api.count-contents b, ap length e))
  front b (v ∷ vs) e h = rw (api.peek-contents b v vs e, api.contents-remove b v vs e)

  pop_order :
      (q : State Buffer)
      → of_popped (pop api q).1 ++ contents (pop api q).0.buffer ≡ contents q.buffer
  unfolding pop
  pop_order q = ground (arith, front q.buffer (contents q.buffer) refl)

  wake_order :
      (q : State Buffer)
      → of_popped (wake api q).1 ++ contents (wake api q).0.buffer ≡ contents q.buffer
  unfolding wake
  wake_order q = elim (Bool-cases (ltb 0 q.woken)) [
    | inl some' ↦ rw some' (pop_order (record q { woken = q.woken - 1 }))
    | inr none' ↦ rw none' refl
  ]

  push_order :
      (q : State Buffer) (v : V)
      → contents q.buffer ++ (if q.closed then [] else v ∷ []) ≡ contents (push api q v).buffer
  unfolding push signal
  push_order q v = ground (arith, api.contents-add q.buffer v, append-nil (contents q.buffer))

  -- Each call moves the items of the buffer past its end one way: what went in stands behind them,
  -- what comes out stood in front.
  step_order :
      (q : State Buffer) (e : Event V)
      → contents q.buffer ++ entered q e ≡ delivered q e ++ contents (step api q e).buffer
  unfolding step entered delivered
  step_order q pops = append-nil (contents q.buffer) ∙ sym (pop_order q)
  step_order q wakes = append-nil (contents q.buffer) ∙ sym (wake_order q)
  step_order q peaks = append-nil (contents q.buffer)
  step_order q removes =
      append-nil (contents q.buffer)
      ∙ (unfold remove try_pop in ground (arith, front q.buffer (contents q.buffer) refl))
  step_order q try_pops =
      append-nil (contents q.buffer)
      ∙ (unfold try_pop in ground (arith, front q.buffer (contents q.buffer) refl))
  step_order q closes = append-nil (contents q.buffer) ∙ (unfold close signal in ground arith)
  step_order q (pushes v) = push_order q v

  unfoldable pub all_entered : State Buffer → List (Event V) → List V
  unfolding entered
  all_entered q [] = []
  all_entered q (e ∷ es) = entered q e ++ all_entered (step api q e) es

  unfoldable pub all_delivered : State Buffer → List (Event V) → List V
  unfolding delivered
  all_delivered q [] = []
  all_delivered q (e ∷ es) = delivered q e ++ all_delivered (step api q e) es

  new_empty : contents (new_sync_queue api).buffer ≡ []
  unfolding new_sync_queue
  new_empty = api.contents-new

  run_order :
      (q : State Buffer) (es : List (Event V))
      → contents q.buffer ++ all_entered q es ≡ all_delivered q es ++ contents (run api q es).buffer
  unfolding run all_entered all_delivered
  run_order q [] = append-nil (contents q.buffer)
  run_order q (e ∷ es) =
      let q' = step api q e in
      sym (append_assoc (contents q.buffer) (entered q e) (all_entered q' es))
      ∙ ap (λ xs. xs ++ all_entered q' es) (step_order q e)
      ∙ append_assoc (delivered q e) (contents q'.buffer) (all_entered q' es)
      ∙ ap (λ xs. delivered q e ++ xs) (run_order q' es)
      ∙ sym (append_assoc (delivered q e) (all_delivered q' es) (contents (run api q' es).buffer))

  -- After any interleaving of calls on a new queue, the items pushed while it was open are, in order,
  -- those that were handed out and then those that are still in the buffer.
  pub run-new_order :
      (es : List (Event V))
      → let q = new_sync_queue api in
        all_entered q es ≡ all_delivered q es ++ contents (run api q es).buffer
  run-new_order es =
      let q = new_sync_queue api in
      sym (ap (λ xs. xs ++ all_entered q es) new_empty) ∙ run_order q es
