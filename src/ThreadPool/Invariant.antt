-- ===== src/ThreadPool/Invariant.antt =====
-- What hCommon/threadpool/threadpool.go keeps: the count of goroutines, its bound, and the order of tasks.
use happy.Base.{
  ℕ, zero, suc, ◌+◌, ◌≤◌, ◌≡◌, ◌⊎◌, refl, ◌∙◌, true, false, ◌||◌, some, List, [], ◌∷◌, ◌++◌, length,
  length-append, get_elem?, ltb, ◌==◌, nat_eq, if◌then◌else◌, arith, inl, inr, Bool-cases,
  Option-cases,
}
use happy.Base.Int.{ℤ, pos, negsuc, ltb_ℤ}
use happy.ThreadPool.{
  Task, ThreadPool, Event, runs, finishes, has_room, active_up, active_down, run, start_front,
  next_task, remove_at, end_task, finish, post, step, steps, new_pool,
}

pub record IsCounted (p : ThreadPool) : Type 0 where
  -- `active` counts the goroutines, and `any` is locked while there is one.
  pub counted : p.active ≡ length p.running
  pub locked : p.any_locked ≡ ltb 0 p.active
  -- Within the limit, if there is one.
  pub bounded : (n : ℕ) → p.max_threads ≡ pos n → p.active ≤ n

pub record IsPool (p : ThreadPool) : Type 0 where
  pub count : IsCounted p
  -- Nothing is pending while there is room.
  pub busy : (p.pending ≡ []) ⊎ (has_room p ≡ false)

pub full :
    (p : ThreadPool) → has_room p ≡ false → (n : ℕ) × (p.max_threads ≡ pos n) × (n ≤ p.active)
unfolding has_room
full p h = full_at p.max_threads p.active h
  where
    full_at :
        (m : ℤ) (a : ℕ)
        → (ltb_ℤ m (pos 0) || ltb_ℤ (pos a) m) ≡ false
        → (n : ℕ) × (m ≡ pos n) × (n ≤ a)
    full_at (pos n) a h = (n, refl, ground arith)
    full_at (negsuc n) a h = absurd (ground arith)

pub limit_room : (n : ℕ) (p : ThreadPool) → p.max_threads ≡ pos n → has_room p ≡ ltb p.active n
unfolding has_room
limit_room n p e = rw e (ground arith)

unfoldable pub started_run : ThreadPool → Task → ThreadPool
started_run p t = record p {
  active = p.active + 1;
  any_locked = if p.active + 1 == 1 then true else p.any_locked;
  running = p.running ++ t ∷ [];
  started = p.started ++ t ∷ [];
}

pub run_room : (p : ThreadPool) (t : Task) → has_room p ≡ true → run p t ≡ started_run p t
unfolding run active_up started_run
run_room p t e = rw e refl

pub run_full :
    (p : ThreadPool) (t : Task)
    → has_room p ≡ false
    → run p t ≡ record p { pending = p.pending ++ t ∷ [] }
unfolding run active_up
run_full p t e = rw e refl

started_run-IsCounted :
    (p : ThreadPool) (t : Task) → has_room p ≡ true → IsCounted p → IsCounted (started_run p t)
unfolding started_run
started_run-IsCounted p t e v = record {
  counted = omega (arith, v.counted, length-append p.running (t ∷ []));
  locked = ground (arith, v.locked);
  bounded = λ n m. ground (arith, limit_room n p m);
}

run-IsCounted : (p : ThreadPool) (t : Task) → IsCounted p → IsCounted (run p t)
run-IsCounted p t v = elim (Bool-cases (has_room p)) [
  | inl room ↦ rw (run_room p t room) (started_run-IsCounted p t room v)
  | inr none' ↦
      rw (run_full p t none')
        (record { counted = v.counted; locked = v.locked; bounded = v.bounded })
]

run-IsPool : (p : ThreadPool) (t : Task) → IsPool p → IsPool (run p t)
run-IsPool p t v = record {
  count = run-IsCounted p t v.count;
  busy = elim (Bool-cases (has_room p)) [
    | inl room ↦ rw (run_room p t room) (inl (unfold started_run in ground (arith, v.busy)))
    | inr none' ↦ rw (run_full p t none') (inr (unfold has_room in none'))
  ];
}

length-remove_at :
    (ts : List Task) (i : ℕ) {t : Task}
    → get_elem? ts i ≡ some t
    → length (remove_at ts i) + 1 ≡ length ts
length-remove_at [] i e = cc
length-remove_at (x ∷ ts) zero e = omega arith
length-remove_at (x ∷ ts) (suc i) e = omega (arith, length-remove_at ts i e)

end_task-IsCounted :
    (p : ThreadPool) (i : ℕ) (t : Task)
    → get_elem? p.running i ≡ some t
    → IsCounted p
    → IsCounted (end_task p i t)
unfolding end_task active_down
end_task-IsCounted p i t e v = record {
  counted = omega (arith, v.counted, length-remove_at p.running i e);
  locked = ground (arith, v.locked, v.counted, length-remove_at p.running i e);
  bounded = λ n m. omega (arith, v.bounded n m);
}

next_task-IsPool :
    (p : ThreadPool) (ts : List Task)
    → p.pending ≡ ts
    → IsCounted p
    → (ts ≡ []) ⊎ ((n : ℕ) × (p.max_threads ≡ pos n) × (p.active + 1 ≡ n))
    → IsPool (next_task p)
unfolding next_task start_front
next_task-IsPool p [] e v h = rw (e, start_front) (record { count = v; busy = inl e })
next_task-IsPool p (t ∷ rest) e v (inl empty) = cc
next_task-IsPool p (t ∷ rest) e v (inr (n, limit, one)) =
    let q = record p { pending = rest } in
    let v' : IsCounted q = record { counted = v.counted; locked = v.locked; bounded = v.bounded } in
    let room : has_room q ≡ true = limit_room n q limit ∙ ground arith in
    rw (e, start_front)
      (rw (run_room q t room) (record {
        count = started_run-IsCounted q t room v';
        busy = inr (
            limit_room n (started_run q t) (unfold started_run in limit)
            ∙ (unfold started_run in ground arith));
      }))

-- The pool as `next_task` finds it: free of pending tasks, or just below its limit.
pub end_task-room :
    (p : ThreadPool) (i : ℕ) (t : Task)
    → get_elem? p.running i ≡ some t
    → IsPool p
    → (p.pending ≡ []) ⊎ ((n : ℕ) × (p.max_threads ≡ pos n) × ((end_task p i t).active + 1 ≡ n))
unfolding end_task active_down
end_task-room p i t e v = elim v.busy [
  | inl empty ↦ inl empty
  | inr none' ↦
      let (n, limit, above) = full p none' in
      inr (
        n,
        limit,
        omega (
          arith,
          v.count.bounded n limit,
          above,
          v.count.counted,
          length-remove_at p.running i e,
        ),
      )
]

finish-IsPool : (p : ThreadPool) (i : ℕ) → IsPool p → IsPool (finish p i)
unfolding finish
finish-IsPool p i v = elim (Option-cases (get_elem? p.running i)) [
  | inl e ↦ rw (e, finish) v
  | inr (t, e) ↦
      let q = end_task p i t in
      let c = end_task-IsCounted p i t e v.count in
      let r = record q { posted = post t.postprocessing q.posted } in
      rw (e, finish)
        (next_task-IsPool r p.pending (unfold end_task in refl)
          (record { counted = c.counted; locked = c.locked; bounded = c.bounded })
          (end_task-room p i t e v))
]

-- Every step keeps the pool: `active` counts the goroutines and is within the limit, `any` is locked
-- exactly while there is one, and no task is pending while there is room.
pub step-IsPool : (p : ThreadPool) (e : Event) → IsPool p → IsPool (step p e)
unfolding step
step-IsPool p (runs t) v = run-IsPool p t v
step-IsPool p (finishes i) v = finish-IsPool p i v

pub steps-IsPool : (p : ThreadPool) (es : List Event) → IsPool p → IsPool (steps p es)
unfolding steps
steps-IsPool p [] v = v
steps-IsPool p (e ∷ es) v = steps-IsPool (step p e) es (step-IsPool p e v)

-- A new pool with any limit, as the runtime sets it.
unfoldable pub limited : ℤ → ThreadPool
limited max = record new_pool { max_threads = max }

pub limited-IsPool : (max : ℤ) → IsPool (limited max)
unfolding limited new_pool
limited-IsPool max = record {
  count = record { counted = refl; locked = refl; bounded = λ n e. omega arith };
  busy = inl refl;
}
