-- ===== src/SyncQueue.antt =====
-- hCommon/syncQueue.go: the queue that blocks. The buffer is gopkg.in/eapache/queue.v1, a parameter with
-- its documented behaviour. Each operation holds the lock from its start to its end or to `Wait`, so an
-- interleaving is a sequence of operations; the state counts the goroutines in `Wait` and those that a
-- `Signal` has woken and that have not yet tested the queue again.
pub mod Order
pub mod Wakeups
mod Examples
use happy.Base.{
  ℕ, zero, suc, ◌+◌, ◌-◌, ◌≡◌, Bool, true, false, not, ◌&&◌, Option, none, some, List, [], ◌∷◌,
  ◌++◌, length, ltb, ◌==◌, nat_eq, if◌then◌else◌,
}

-- The package queue: a FIFO buffer. `Peek` and `Remove` panic on an empty one; no call here makes that.
pub record Buffers (V : Type 0) : Type 1 where
  pub Buffer : Type 0
  pub new : Buffer
  pub count : Buffer → ℕ
  pub peek : Buffer → Option V
  pub remove : Buffer → Buffer
  pub add : Buffer → V → Buffer
  pub contents : Buffer → List V
  pub contents-new : contents new ≡ []
  pub count-contents : (b : Buffer) → count b ≡ length (contents b)
  pub contents-add : (b : Buffer) (v : V) → contents (add b v) ≡ contents b ++ v ∷ []
  pub peek-contents : (b : Buffer) (v : V) (vs : List V) → contents b ≡ v ∷ vs → peek b ≡ some v
  pub contents-remove :
      (b : Buffer) (v : V) (vs : List V) → contents b ≡ v ∷ vs → contents (remove b) ≡ vs

pub record State (B : Type 0) : Type 0 where
  pub buffer : B
  pub closed : Bool
  pub waiting : ℕ
  pub woken : ℕ

-- `Signal` wakes one of the goroutines that wait, if any does.
unfoldable pub signal : {B : Type 0} → State B → State B
signal q = if ltb 0 q.waiting then record q { waiting = q.waiting - 1; woken = q.woken + 1 } else q

-- What a call of `Pop` has come to: it waits, or it has returned a value or nil.
pub data Popped (V : Type 0) : Type 0 where
  blocked : Popped V
  returned : Option V → Popped V

-- The calls, and a woken goroutine that goes on with its `Pop`.
pub data Event (V : Type 0) : Type 0 where
  pops wakes peaks removes try_pops closes : Event V
  pushes : V → Event V

module _ {V : Type 0} (api : Buffers V) where
  open api use {Buffer, count, peek, add, remove as remove_front}

  unfoldable pub new_sync_queue : State Buffer
  new_sync_queue = record { buffer = api.new; closed = false; waiting = 0; woken = 0 }

  -- `for buffer.Length() == 0 && !q.closed { c.Wait() }` up to the next wait, and what follows the loop.
  unfoldable pub pop : State Buffer → State Buffer × Popped V
  pop q =
      if count q.buffer == 0 && not q.closed
      then (record q { waiting = q.waiting + 1 }, blocked)
      else if ltb 0 (count q.buffer)
      then (record q { buffer = remove_front q.buffer }, returned (peek q.buffer))
      else (q, returned none)

  -- A woken goroutine takes the lock again and goes round the loop.
  unfoldable pub wake : State Buffer → State Buffer × Popped V
  unfolding pop
  wake q = if ltb 0 q.woken then pop (record q { woken = q.woken - 1 }) else (q, blocked)

  unfoldable pub peak : State Buffer → Option V × Bool
  peak q =
      if ltb 0 (count q.buffer)
      then (peek q.buffer, true)
      else if q.closed
      then (none, true)
      else (none, false)

  unfoldable pub remove : State Buffer → State Buffer × Bool
  remove q =
      if ltb 0 (count q.buffer)
      then (record q { buffer = remove_front q.buffer }, true)
      else if q.closed
      then (q, true)
      else (q, false)

  unfoldable pub try_pop : State Buffer → State Buffer × (Option V × Bool)
  try_pop q =
      if ltb 0 (count q.buffer)
      then (record q { buffer = remove_front q.buffer }, (peek q.buffer, true))
      else if q.closed
      then (q, (none, true))
      else (q, (none, false))

  unfoldable pub push : State Buffer → V → State Buffer
  unfolding signal
  push q v = if not q.closed then signal (record q { buffer = add q.buffer v }) else q

  unfoldable pub len : State Buffer → ℕ
  len q = count q.buffer

  unfoldable pub close : State Buffer → State Buffer
  unfolding signal
  close q = if not q.closed then signal (record q { closed = true }) else q

  unfoldable pub step : State Buffer → Event V → State Buffer
  step q pops = (pop q).0
  step q wakes = (wake q).0
  step q peaks = q
  step q removes = (remove q).0
  step q try_pops = (try_pop q).0
  step q closes = close q
  step q (pushes v) = push q v

  unfoldable pub run : State Buffer → List (Event V) → State Buffer
  unfolding step
  run q [] = q
  run q (e ∷ es) = run (step q e) es
