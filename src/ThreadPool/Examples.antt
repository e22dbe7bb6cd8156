-- ===== src/ThreadPool/Examples.antt =====
-- Tests of hCommon/threadpool/threadpool.go and the theorems on small pools.
use happy.Base.{◌≡◌, ◌≢◌, refl, true, [], ◌∷◌, ◌++◌, arith, inr}
use happy.Base.Int.{pos}
use happy.ThreadPool.{
  Task, ThreadPool, runs, finishes, new_pool, has_room, run, active_up, wait_returns, step, steps,
}
use happy.ThreadPool.Invariant.{IsPool, limited}
use happy.ThreadPool.Waiting.{submitted, limited-queue}

abbrev first_task : Task
first_task = record { task = 1; postprocessing = [] }

abbrev second_task : Task
second_task = record { task = 2; postprocessing = 20 ∷ [] }

-- One thread runs the first task, the second is pending.
abbrev busy : ThreadPool
busy = record {
  max_threads = pos 1;
  active = 1;
  any_locked = true;
  pending = second_task ∷ [];
  running = first_task ∷ [];
  started = first_task ∷ [];
  finished = [];
  posted = [];
}

busy_reached : steps (limited (pos 1)) (runs first_task ∷ runs second_task ∷ []) ≡ busy
unfolding steps step run active_up has_room limited new_pool
busy_reached = refl

busy-IsPool : IsPool busy
unfolding has_room
busy-IsPool = record {
  count = record { counted = refl; locked = refl; bounded = λ n e. ground (arith, e) };
  busy = inr refl;
}

limited-queue_example :
    (steps (limited (pos 1)) (runs first_task ∷ runs second_task ∷ finishes 0 ∷ [])).started
      ++ (steps (limited (pos 1)) (runs first_task ∷ runs second_task ∷ finishes 0 ∷ [])).pending
    ≡ submitted (runs first_task ∷ runs second_task ∷ finishes 0 ∷ [])
limited-queue_example = limited-queue (pos 1) (runs first_task ∷ runs second_task ∷ finishes 0 ∷ [])

idle_returns : wait_returns (limited (pos 1)) ≡ true
unfolding wait_returns limited new_pool
idle_returns = refl

limited_one : (limited (pos 1)).max_threads ≢ pos 0
unfolding limited
limited_one e = ground (arith, e)
