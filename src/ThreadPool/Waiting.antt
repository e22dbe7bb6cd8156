-- ===== src/ThreadPool/Waiting.antt =====
-- The order of the tasks of hCommon/threadpool/threadpool.go, and when `Wait` returns.
use mathlib.Core.List.{append_assoc, append-nil}
use happy.Base.{
  ℕ, ◌+◌, ◌≡◌, ◌≢◌, ◌⊎◌, refl, sym, ap, ◌∙◌, true, false, not, some, List, [], ◌∷◌, ◌++◌, length,
  get_elem?, nat_eq, arith, inl, inr, Bool-cases, Option-cases,
}
use happy.Base.Int.{ℤ, pos}
use happy.ThreadPool.{
  Task, ThreadPool, Event, runs, finishes, has_room, active_down, run, start_front, next_task,
  remove_at, end_task, finish, post, step, steps, new_pool, wait_returns,
}
use happy.ThreadPool.Invariant.{
  IsPool, step-IsPool, limited, limited-IsPool, full, limit_room, run_room, run_full, started_run,
  end_task-room,
}

abbrev pub submitted : List Event → List Task
submitted [] = []
submitted (runs t ∷ es) = t ∷ submitted es
submitted (finishes i ∷ es) = submitted es

abbrev queue : ThreadPool → List Task
queue p = p.started ++ p.pending

run-queue : (p : ThreadPool) (t : Task) → IsPool p → queue (run p t) ≡ queue p ++ t ∷ []
unfolding started_run
run-queue p t v = elim (Bool-cases (has_room p)) [
  | inl room ↦
      rw (run_room p t room)
        (elim v.busy [ inl empty ↦ rw (empty, append-nil, append-nil) refl | inr none' ↦ cc ])
  | inr none' ↦ rw (run_full p t none') (sym (append_assoc p.started p.pending (t ∷ [])))
]

next_task-queue :
    (p : ThreadPool) (ts : List Task)
    → p.pending ≡ ts
    → (ts ≡ []) ⊎ ((n : ℕ) × (p.max_threads ≡ pos n) × (p.active + 1 ≡ n))
    → queue (next_task p) ≡ queue p
unfolding next_task start_front started_run
next_task-queue p [] e h = rw (e, start_front) (ap (λ ts. p.started ++ ts) e)
next_task-queue p (t ∷ rest) e (inl empty) = cc
next_task-queue p (t ∷ rest) e (inr (n, limit, one)) =
    let q = record p { pending = rest } in
    rw (e, start_front)
      (rw (run_room q t (limit_room n q limit ∙ ground arith))
        (append_assoc p.started (t ∷ []) rest))

finish-queue : (p : ThreadPool) (i : ℕ) → IsPool p → queue (finish p i) ≡ queue p
unfolding finish end_task active_down
finish-queue p i v = elim (Option-cases (get_elem? p.running i)) [
  | inl e ↦ rw (e, finish) refl
  | inr (t, e) ↦
      let q = end_task p i t in
      rw (e, finish)
        (next_task-queue (record q { posted = post t.postprocessing q.posted }) p.pending refl
          (end_task-room p i t e v))
]

steps-queue :
    (p : ThreadPool) (es : List Event) → IsPool p → queue (steps p es) ≡ queue p ++ submitted es
unfolding steps step
steps-queue p [] v = sym (append-nil (queue p))
steps-queue p (runs t ∷ es) v =
    steps-queue (run p t) es (unfold step in step-IsPool p (runs t) v)
    ∙ ap (λ ts. ts ++ submitted es) (run-queue p t v)
    ∙ append_assoc (queue p) (t ∷ []) (submitted es)
steps-queue p (finishes i ∷ es) v =
    steps-queue (finish p i) es (unfold step in step-IsPool p (finishes i) v)
    ∙ ap (λ ts. ts ++ submitted es) (finish-queue p i v)

-- On a new pool with any limit, whatever tasks are run and end, the tasks submitted are, in order, those
-- that were started and then those that are pending: tasks start first in, first out, each once.
pub limited-queue :
    (max : ℤ) (es : List Event)
    → (steps (limited max) es).started ++ (steps (limited max) es).pending ≡ submitted es
limited-queue max es =
    steps-queue (limited max) es (limited-IsPool max) ∙ (unfold limited new_pool in refl)

-- Between the calls `Wait` returns only when no task runs and none is pending, unless the limit is 0.
pub wait_returns-idle :
    (p : ThreadPool)
    → IsPool p
    → p.max_threads ≢ pos 0
    → wait_returns p ≡ true
    → (length p.running ≡ 0) × (p.pending ≡ [])
unfolding wait_returns
wait_returns-idle p v ne w =
    let idle : p.active ≡ 0 = ground (arith, v.count.locked) in
    (
      omega (arith, v.count.counted, idle),
      elim v.busy [
        | inl empty ↦ empty
        | inr none' ↦
            let (n, limit, le) = full p none' in
            absurd (ne (limit ∙ ap pos (omega (arith, le, idle))))
      ],
    )

next_task_room :
    (p : ThreadPool) (u : Task) (ts : List Task)
    → p.pending ≡ u ∷ ts
    → has_room (record p { pending = ts }) ≡ true
    → next_task p ≡ started_run (record p { pending = ts }) u
unfolding next_task start_front
next_task_room p u ts e room = rw (e, start_front) (run_room (record p { pending = ts }) u room)

started_last :
    (p : ThreadPool) (u : Task)
    → p.active ≡ 0
    → p.running ≡ []
    → (not (started_run p u).any_locked ≡ false) × ((started_run p u).running ≡ u ∷ [])
unfolding started_run
started_last p u idle none' = (ground arith, rw none' refl)

-- The bug: with one thread, `Wait` returns although tasks are pending. When the running task ends,
-- `activeDown` frees the lock `any` before `nextTask` starts the next one and takes it again.
pub end_task-wait_returns :
    (p : ThreadPool) (t u : Task) (ts : List Task)
    → IsPool p
    → p.max_threads ≡ pos 1
    → p.running ≡ t ∷ []
    → p.pending ≡ u ∷ ts
    → (wait_returns (end_task p 0 t) ≡ true)
      × ((end_task p 0 t).pending ≡ u ∷ ts)
      × (wait_returns (finish p 0) ≡ false)
      × ((finish p 0).running ≡ u ∷ [])
unfolding wait_returns finish end_task active_down
end_task-wait_returns p t u ts v limit r e =
    let one : p.active ≡ 1 = omega (arith, v.count.counted, ap length r) in
    let q = end_task p 0 t in
    let s = record q { posted = post t.postprocessing q.posted } in
    let at : get_elem? p.running 0 ≡ some t = rw r refl in
    let next : next_task s ≡ started_run (record s { pending = ts }) u =
      next_task_room s u ts e (limit_room 1 (record s { pending = ts }) limit ∙ ground arith) in
    let (w, g) =
      started_last (record s { pending = ts }) u (omega (arith, one))
        (ap (λ rs. remove_at rs 0) r) in
    (ground arith, e, rw (at, finish) (rw next w), rw (at, finish) (rw next g))
