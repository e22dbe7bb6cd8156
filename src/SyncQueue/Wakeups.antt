-- ===== src/SyncQueue/Wakeups.antt =====
-- Who wakes up in hCommon/syncQueue.go.
use happy.Base.{
  ℕ, suc, ◌+◌, ◌≤◌, ◌<◌, ◌≡◌, refl, ◌∙◌, ap, true, false, List, [], ◌∷◌, length, length-append,
  arith,
}
use happy.SyncQueue.{
  Buffers, State, Event, pops, wakes, peaks, removes, try_pops, closes, pushes, new_sync_queue, pop,
  wake, remove, try_pop, push, close, signal, step, run,
}

module _ {V : Type 0} (api : Buffers V) where
  -- While the queue is open and a goroutine waits, each item in the buffer has a goroutine woken for it.
  abbrev pub IsServed : State api.Buffer → Type 0
  IsServed q = q.closed ≡ false → 0 < q.waiting → api.count q.buffer ≤ q.woken

  count-add : (b : api.Buffer) (v : V) → api.count (api.add b v) ≡ api.count b + 1
  count-add b v =
      api.count-contents (api.add b v)
      ∙ ap length (api.contents-add b v)
      ∙ length-append (api.contents b) (v ∷ [])
      ∙ omega (arith, api.count-contents b)

  count_remove :
      (b : api.Buffer) (xs : List V)
      → api.contents b ≡ xs
      → 0 < api.count b
      → api.count (api.remove b) + 1 ≡ api.count b
  count_remove b [] e h = absurd (omega (arith, api.count-contents b, ap length e))
  count_remove b (v ∷ vs) e h = omega (
    arith,
    api.count-contents b,
    ap length e,
    api.count-contents (api.remove b),
    ap length (api.contents-remove b v vs e),
  )

  count-remove : (b : api.Buffer) → 0 < api.count b → api.count (api.remove b) + 1 ≡ api.count b
  count-remove b = count_remove b (api.contents b) refl

  pop-IsServed : (q : State api.Buffer) → IsServed q → IsServed (pop api q).0
  unfolding pop
  pop-IsServed q v c w = ground (arith, v, count-remove q.buffer)

  -- A woken goroutine finds an item, or goes back to waiting with none left.
  wake-IsServed : (q : State api.Buffer) → IsServed q → IsServed (wake api q).0
  unfolding wake pop
  wake-IsServed q v c w = ground (arith, v, count-remove q.buffer)

  -- No wake-up is lost: every call, in any order, keeps the queue served.
  pub step-IsServed : (q : State api.Buffer) (e : Event V) → IsServed q → IsServed (step api q e)
  unfolding step remove try_pop push close signal
  step-IsServed q pops v = pop-IsServed q v
  step-IsServed q wakes v = wake-IsServed q v
  step-IsServed q peaks v = v
  step-IsServed q removes v = λ c w. ground (arith, v, count-remove q.buffer)
  step-IsServed q try_pops v = λ c w. ground (arith, v, count-remove q.buffer)
  step-IsServed q closes v = λ c w. ground (arith, v)
  step-IsServed q (pushes x) v = λ c w. ground (arith, v, count-add q.buffer x)

  run-IsServed : (q : State api.Buffer) (es : List (Event V)) → IsServed q → IsServed (run api q es)
  unfolding run
  run-IsServed q [] v = v
  run-IsServed q (e ∷ es) v = run-IsServed (step api q e) es (step-IsServed q e v)

  -- After any calls on a new queue, while it is open and a goroutine waits, each item in the buffer has
  -- a goroutine that was woken for it and has yet to look.
  pub run-new_served :
      (es : List (Event V))
      → (run api (new_sync_queue api) es).closed ≡ false
      → 0 < (run api (new_sync_queue api) es).waiting
      → api.count (run api (new_sync_queue api) es).buffer ≤ (run api (new_sync_queue api) es).woken
  run-new_served es =
      run-IsServed (new_sync_queue api) es (unfold new_sync_queue in λ c w. omega arith)

  step-waiting :
      (q : State api.Buffer) (e : Event V)
      → q.closed ≡ true
      → (step api q e).closed ≡ true × ((step api q e).waiting ≡ q.waiting)
  unfolding step pop wake remove try_pop push close signal
  step-waiting q (pushes x) c = ground arith
  step-waiting q e c = ground arith

  run-waiting :
      (q : State api.Buffer) (es : List (Event V))
      → q.closed ≡ true
      → (run api q es).waiting ≡ q.waiting
  unfolding run
  run-waiting q [] c = refl
  run-waiting q (e ∷ es) c =
      let (closed, same) = step-waiting q e c in run-waiting (step api q e) es closed ∙ same

  -- The bug: `Close` signals one goroutine where it should wake all. Of the goroutines that wait when
  -- an open queue is closed, all but one wait for ever, whatever is called afterwards.
  pub run-close-waiting :
      (q : State api.Buffer) (es : List (Event V)) (n : ℕ)
      → q.closed ≡ false
      → q.waiting ≡ suc n
      → (run api (close api q) es).waiting ≡ n
  run-close-waiting q es n c w =
      run-waiting (close api q) es (unfold close signal in ground arith)
      ∙ (unfold close signal in ground arith)
