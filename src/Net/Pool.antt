-- ===== src/Net/Pool.antt =====
-- The goroutine pool of hNet/gPool.go, with the loop of `recv` in hNet/websocketHandler.go, which adds the serial jobs: a
-- session reads its messages one after another, and its `wid` is that of its loop. A message is a number, and so is a
-- session; a worker id of -1 is `none`. The objects of the `sync.Pool` are not cleared, so a parallel job has the worker
-- id that the object had. Panics of the code are `none`.
pub mod Choosing
pub mod Queues
pub mod Sessions
pub mod Serial
pub mod Stale
use happy.Base.{
  ℕ, zero, suc, ◌+◌, ◌-◌, ◌%◌, ◌^◌, ◌<◌, ◌≤◌, ◌≡◌, Bool, true, false, Option, none, some, List, [],
  ◌∷◌, ◌++◌, length, ltb, ◌==◌, nat_eq, if◌then◌else◌,
}

-- `session` is the session in `Args`; a parallel job has none.
pub record Job : Type 0 where
  pub worker_id : Option ℕ
  pub session : Option ℕ
  pub task : ℕ

-- A call of the job's function by a worker.
pub record Run : Type 0 where
  pub worker : ℕ
  pub job : Job

-- `queues` are the workers' channels, of ten places; `holding` is the job that a worker has taken and passes on. `wids` has the `wid` of each session's loop. `received` records the
-- messages that each session has read, and `handled` the jobs in the order in which the workers start them; a worker
-- starts a job when the one before has ended.
pub record Pool : Type 0 where
  pub num_workers : ℕ
  pub job_queue_len : ℕ
  pub job_queue : List Job
  pub queues : ℕ → List Job
  pub holding : ℕ → Option Job
  pub wids : ℕ → Option ℕ
  pub received : ℕ → List ℕ
  pub handled : List Run

abbrev pub change {ℓ} : {A : Type ℓ} → (ℕ → A) → ℕ → A → ℕ → A
change f w a i = if w == i then a else f i

unfoldable pub sum_of : List ℕ → ℕ
sum_of [] = 0
sum_of (c ∷ cs) = c + sum_of cs

-- `sum % p.numWorkers` on int32, for the sum of the runes with its wrap-around; a negative index, and no workers, panic.
unfoldable pub worker_of : ℕ → List ℕ → Option ℕ
unfolding sum_of
worker_of zero runes = none
worker_of (suc k) runes =
    let sum = sum_of runes % 2 ^ 32 in
    if ltb sum (2 ^ 31)
    then some (sum % suc k)
    else if (2 ^ 32 - sum) % suc k == 0
    then some 0
    else none

-- The worker that `AddJobSerial` chooses; `none` for `wid` is a negative number.
unfoldable pub serial_worker : ℕ → Option ℕ → List ℕ → Option ℕ
unfolding worker_of
serial_worker n none runes = worker_of n runes
serial_worker n (some wid) runes = if ltb wid n then some wid else worker_of n runes

-- The session's `wid` after the call: the callback is called where `wid` is no worker.
unfoldable pub called_back : ℕ → Option ℕ → ℕ → Option ℕ
called_back n none w = some w
called_back n (some wid) w = if ltb wid n then some wid else some w

-- `workerQueue[w].jobQueue <- job`, with room.
unfoldable pub enqueue : ℕ → Job → Pool → Pool
enqueue w job p = record p { queues = change p.queues w (p.queues w ++ job ∷ []) }

-- A round of a session's loop, for a message and the worker that `AddJobSerial` chooses.
unfoldable pub receive : ℕ → ℕ → ℕ → Pool → Pool
unfolding enqueue called_back
receive s w task p =
    enqueue w (record { worker_id = some w; session = some s; task = task })
      (record p {
        wids = change p.wids s (called_back p.num_workers (p.wids s) w);
        received = change p.received s (p.received s ++ task ∷ []);
      })

-- The call of the job's function.
unfoldable pub run : ℕ → Job → Pool → Pool
run w job p = record p { handled = p.handled ++ (record { worker = w; job = job }) ∷ [] }

unfoldable pub run_own : ℕ → Job → List Job → Pool → Pool
unfolding run
run_own w job rest p = run w job (record p { queues = change p.queues w rest })

unfoldable pub run_shared : ℕ → Job → List Job → Pool → Pool
unfolding run
run_shared w job rest p = run w job (record p { job_queue = rest })

-- A worker that has taken a job from the pool's queue: a job with a worker's id is passed on to that worker.
abbrev pub in_range : ℕ → Option ℕ → Option ℕ
in_range n none = none
in_range n (some v) = if ltb v n then some v else none

-- A session that reads a message and adds it with `AddJobSerial`, `AddJobParallel` with the id that the object from the
-- pool has, and the two receptions of a worker, which
-- holds a job that it passes on until the other's channel has room. A send to a full channel waits. `runes_of` has the runes of each
-- session's id.
pub data Step (runes_of : ℕ → List ℕ) : Pool → Pool → Type 0 where
  serial :
      (p : Pool) (s w task : ℕ)
      → serial_worker p.num_workers (p.wids s) (runes_of s) ≡ some w
      → length (p.queues w) < 10
      → Step runes_of p (receive s w task p)
  parallel :
      (p : Pool) (task : ℕ) (id : Option ℕ)
      → length p.job_queue < p.job_queue_len
      → Step runes_of p (record p {
        job_queue = p.job_queue ++ (record { worker_id = id; session = none; task = task }) ∷ [];
      })
  takes_own :
      (p : Pool) (w : ℕ) (job : Job) (rest : List Job)
      → w < p.num_workers
      → p.holding w ≡ none
      → p.queues w ≡ job ∷ rest
      → Step runes_of p (run_own w job rest p)
  takes_shared :
      (p : Pool) (w : ℕ) (job : Job) (rest : List Job)
      → w < p.num_workers
      → p.holding w ≡ none
      → p.job_queue ≡ job ∷ rest
      → in_range p.num_workers job.worker_id ≡ none
      → Step runes_of p (run_shared w job rest p)
  picks_up :
      (p : Pool) (w v : ℕ) (job : Job) (rest : List Job)
      → w < p.num_workers
      → p.holding w ≡ none
      → p.job_queue ≡ job ∷ rest
      → in_range p.num_workers job.worker_id ≡ some v
      → Step runes_of p (record p { job_queue = rest; holding = change p.holding w (some job) })
  passes_on :
      (p : Pool) (w v : ℕ) (job : Job)
      → p.holding w ≡ some job
      → in_range p.num_workers job.worker_id ≡ some v
      → length (p.queues v) < 10
      → Step runes_of p (enqueue v job (record p { holding = change p.holding w none }))

pub data Steps (runes_of : ℕ → List ℕ) (p : Pool) : Pool → Type 0 where
  here : Steps runes_of p p
  next : {q r : Pool} → Steps runes_of p q → Step runes_of q r → Steps runes_of p r

unfoldable pub new_pool : ℕ → ℕ → Pool
new_pool n len = record {
  num_workers = n;
  job_queue_len = len;
  job_queue = [];
  queues = λ w. [];
  holding = λ w. none;
  wids = λ s. none;
  received = λ s. [];
  handled = [];
}
