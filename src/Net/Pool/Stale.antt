-- ===== src/Net/Pool/Stale.antt =====
-- The parallel jobs of hNet/gPool.go whose object was used before.
use happy.Base.{
  ℕ, ◌≡◌, sym, ap, ◌∙◌, none, some, List, [], ◌∷◌, ◌++◌, ==_self, ◌⊎◌, nat_eq, arith, inl, inr,
  ◌==◌, ==→≡, Bool-cases,
}
use happy.Net.Pool.{
  Job, Pool, in_range, enqueue, receive, run, run_own, Step, serial, parallel, takes_own,
  takes_shared, picks_up, passes_on, run_shared,
}

-- A parallel job whose object has the id of a worker, from an earlier use, is not run by the worker that takes it: a step
-- leaves it at the front of the pool's queue, or a worker holds it.
pub Step-stale :
    (runes_of : ℕ → List ℕ) (p q : Pool) (job : Job) (rest : List Job) (v : ℕ)
    → p.job_queue ≡ job ∷ rest
    → in_range p.num_workers job.worker_id ≡ some v
    → Step runes_of p q
    → ((later : List Job) × (q.job_queue ≡ job ∷ later)) ⊎ ((w : ℕ) × (q.holding w ≡ some job))
unfolding enqueue run_own receive run
Step-stale runes_of p q job rest v f e (serial p' s w task c room) = inl (rest, f)
Step-stale runes_of p q job rest v f e (parallel p' task id room) = inl (
  rest ++ (record { worker_id = id; session = none; task = task }) ∷ [],
  ap (λ l. l ++ (record { worker_id = id; session = none; task = task }) ∷ []) f,
)
Step-stale runes_of p q job rest v f e (takes_own p' w j r l h k) = inl (rest, f)
Step-stale runes_of p q job rest v f e (takes_shared p' w j r l h k o) =
    let same : job ≡ j = cc in
    absurd (
      let bad : none ≡ some v =
        sym o ∙ ap (λ x. in_range p.num_workers x.worker_id) (sym same) ∙ e in
      cc)
Step-stale runes_of p q job rest v f e (picks_up p' w u j r l h k o) =
    let same : job ≡ j = cc in inr (w, rw (==_self w) (ap some (sym same)))
Step-stale runes_of p q job rest v f e (passes_on p' w u j h o room) = inl (rest, f)

-- A job that a worker holds stays there until the worker of its id has room, and then goes to that one.
pub Step-held :
    (runes_of : ℕ → List ℕ) (p q : Pool) (job : Job) (w v : ℕ)
    → p.holding w ≡ some job
    → in_range p.num_workers job.worker_id ≡ some v
    → Step runes_of p q
    → (q.holding w ≡ some job) ⊎ (q.queues v ≡ p.queues v ++ job ∷ [])
unfolding enqueue run_own run_shared receive run
Step-held runes_of p q job w v f e (serial p' s u task c room) = inl f
Step-held runes_of p q job w v f e (parallel p' task id room) = inl f
Step-held runes_of p q job w v f e (takes_own p' u j r l h k) = inl f
Step-held runes_of p q job w v f e (takes_shared p' u j r l h k o) = inl f
Step-held runes_of p q job w v f e (picks_up p' u x j r l h k o) = elim (Bool-cases (u == w)) [
  | inl same ↦ absurd (let bad : none ≡ some job = sym h ∙ ap p.holding (==→≡ u w same) ∙ f in cc)
  | inr other ↦ inl (rw other f)
]
Step-held runes_of p q job w v f e (passes_on p' u x j h o room) = elim (Bool-cases (u == w)) [
  | inl same ↦
      let both : some j ≡ some job = sym h ∙ ap p.holding (==→≡ u w same) ∙ f in
      let at : j ≡ job = cc in
      let ids : some x ≡ some v = sym o ∙ ap (λ y. in_range p.num_workers y.worker_id) at ∙ e in
      let id : x ≡ v = cc in inr (ground (arith, id, at, ==_self v))
  | inr other ↦ inl (rw other f)
]
