-- ===== src/SyncQueue/Examples.antt =====
-- Tests of hCommon/syncQueue.go and the theorems on a buffer that is a list.
use happy.Base.{
  ℕ, ◌<◌, ◌≡◌, refl, ap, false, Option, none, some, List, [], ◌∷◌, ◌++◌, length, arith,
}
use happy.SyncQueue.{
  Buffers, State, Event, pops, wakes, closes, pushes, new_sync_queue, pop, wake, push, close,
  signal, step, run,
}
use happy.SyncQueue.Order.{all_entered, all_delivered, run-new_order}
use happy.SyncQueue.Wakeups.{run-close-waiting}

abbrev front : List ℕ → Option ℕ
front [] = none
front (x ∷ xs) = some x

abbrev rest : List ℕ → List ℕ
rest [] = []
rest (x ∷ xs) = xs

-- The package queue on lists.
abbrev lists : Buffers ℕ
lists = record {
  Buffer = List ℕ;
  new = [];
  count = length;
  peek = front;
  remove = rest;
  add = λ b v. b ++ v ∷ [];
  contents = λ b. b;
  contents-new = refl;
  count-contents = λ b. refl;
  contents-add = λ b v. refl;
  peek-contents = λ b v vs e. ap front e;
  contents-remove = λ b v vs e. ap rest e;
}

-- Two goroutines wait, two items come, and the goroutines go on.
abbrev exchange : List (Event ℕ)
exchange = pops ∷ pops ∷ pushes 7 ∷ pushes 8 ∷ wakes ∷ []

run-exchange :
    run lists (new_sync_queue lists) exchange
    ≡ record { buffer = 8 ∷ []; closed = false; waiting = 0; woken = 1 }
unfolding run step new_sync_queue pop push wake signal
run-exchange = refl

run-new_order_example :
    all_entered lists (new_sync_queue lists) exchange
    ≡ all_delivered lists (new_sync_queue lists) exchange
      ++ (run lists (new_sync_queue lists) exchange).buffer
run-new_order_example = run-new_order lists exchange

-- One item for two goroutines that wait.
abbrev short : List (Event ℕ)
short = pops ∷ pops ∷ pushes 7 ∷ []

short_open : (run lists (new_sync_queue lists) short).closed ≡ false
unfolding run step new_sync_queue pop push signal
short_open = refl

short_waiting : 0 < (run lists (new_sync_queue lists) short).waiting
unfolding run step new_sync_queue pop push signal
short_waiting = omega arith

-- Three goroutines wait when the queue is closed.
abbrev crowded : State (List ℕ)
crowded = record { buffer = []; closed = false; waiting = 3; woken = 0 }

run-close-waiting_example :
    (run lists (close lists crowded) (wakes ∷ closes ∷ wakes ∷ [])).waiting ≡ 2
run-close-waiting_example =
    run-close-waiting lists crowded (wakes ∷ closes ∷ wakes ∷ []) 2 refl refl
