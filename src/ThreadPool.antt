-- ===== src/ThreadPool.antt =====
-- hCommon/threadpool/threadpool.go. A task is a number; `running` lists the goroutines that `run` has
-- started and that have not ended, `started`, `finished` and `posted` record what has happened, for
-- the statements. A task that panics is recovered, and ends like any other.
pub mod Invariant
pub mod Waiting
mod Examples
use happy.Base.{
  ℕ, zero, suc, ◌+◌, ◌-◌, Bool, true, false, not, ◌||◌, Option, none, some, List, [], ◌∷◌, ◌++◌,
  length, get_elem?, ltb, ◌==◌, nat_eq, if◌then◌else◌,
}
use happy.Base.Int.{ℤ, pos, negsuc, ltb_ℤ}

pub record Task : Type 0 where
  pub task : ℕ
  pub postprocessing : List ℕ

pub record ThreadPool : Type 0 where
  pub max_threads : ℤ
  pub active : ℕ
  pub any_locked : Bool
  pub pending : List Task
  pub running : List Task
  pub started : List Task
  pub finished : List Task
  pub posted : List ℕ

-- `New`: no limit.
unfoldable pub new_pool : ThreadPool
new_pool = record {
  max_threads = negsuc 0;
  active = 0;
  any_locked = false;
  pending = [];
  running = [];
  started = [];
  finished = [];
  posted = [];
}

unfoldable pub has_room : ThreadPool → Bool
has_room p = ltb_ℤ p.max_threads (pos 0) || ltb_ℤ (pos p.active) p.max_threads

unfoldable pub active_up : ThreadPool → ThreadPool × Bool
unfolding has_room
active_up p =
    if has_room p
    then (
      record p {
        active = p.active + 1;
        any_locked = if p.active + 1 == 1 then true else p.any_locked;
      },
      true,
    )
    else (p, false)

unfoldable pub active_down : ThreadPool → ThreadPool
active_down p = record p {
  active = p.active - 1;
  any_locked = if p.active - 1 == 0 then false else p.any_locked;
}

-- `run`, and `Run`, which takes the pool's lock around it.
unfoldable pub run : ThreadPool → Task → ThreadPool
unfolding active_up
run p t =
    let (p', up) = active_up p in
    if up
    then record p' { running = p'.running ++ t ∷ []; started = p'.started ++ t ∷ [] }
    else record p' { pending = p'.pending ++ t ∷ [] }

start_front : ThreadPool → List Task → ThreadPool
start_front p [] = p
start_front p (t ∷ rest) = run (record p { pending = rest }) t

unfoldable pub next_task : ThreadPool → ThreadPool
unfolding start_front
next_task p = start_front p p.pending

abbrev pub remove_at : List Task → ℕ → List Task
remove_at [] i = []
remove_at (t ∷ ts) zero = ts
remove_at (t ∷ ts) (suc i) = t ∷ remove_at ts i

post : List ℕ → List ℕ → List ℕ
post [] posted = posted
post (f ∷ fs) posted = posted ++ f ∷ []

-- The goroutine of a task up to `activeDown`: the task has returned or panicked.
unfoldable pub end_task : ThreadPool → ℕ → Task → ThreadPool
unfolding active_down
end_task p i t =
    active_down (record p { running = remove_at p.running i; finished = p.finished ++ t ∷ [] })

-- Its deferred function, under the pool's lock; only the first postprocessing is called.
unfoldable pub finish : ThreadPool → ℕ → ThreadPool
unfolding end_task post
finish p i = elim (get_elem? p.running i) [
  | none ↦ p
  | some t ↦
      let q = end_task p i t in next_task (record q { posted = post t.postprocessing q.posted })
]

-- `Wait` takes the lock `any` and gives it back: it returns exactly when that lock is free.
unfoldable pub wait_returns : ThreadPool → Bool
wait_returns p = not p.any_locked

pub data Event : Type 0 where
  runs : Task → Event
  finishes : ℕ → Event

unfoldable pub step : ThreadPool → Event → ThreadPool
step p (runs t) = run p t
step p (finishes i) = finish p i

unfoldable pub steps : ThreadPool → List Event → ThreadPool
unfolding step
steps p [] = p
steps p (e ∷ es) = steps (step p e) es
