-- ===== src/Net/Pool/Serial.antt =====
-- The messages of a session of hNet/websocketHandler.go in the pool of hNet/gPool.go.
use happy.Base.{
  Option, ℕ, suc, ◌%◌, ◌^◌, ◌<◌, ◌≤◌, ◌≡◌, All-append, refl, sym, ap, ◌∙◌, subst, none, some, List,
  [], ◌∷◌, ◌++◌, All, ◌==◌, nat_eq, arith, Bool-cases, inl, inr, ==→≡,
}
use happy.Net.Pool.{
  Job, Pool, change, sum_of, serial_worker, called_back, enqueue, receive, run, run_own, run_shared,
  Step, serial, parallel, takes_own, takes_shared, picks_up, passes_on, Steps, here, next, new_pool,
}
use happy.Net.Pool.Choosing.{mod-lt, in_range-lt, serial_worker-same, called_back-same}
use happy.Net.Pool.Queues.{enqueue-other}
use happy.Net.Pool.Sessions.{
  IsPool, IsSerial, is_from-none, quiet-IsSerial, run-other, receive-own, receive-other,
  run_own-IsSerial,
}

-- The worker that is chosen for a session is the one of its id.
same_worker :
    (k s w : ℕ) (runes : List ℕ) (p : Pool)
    → sum_of runes < 2 ^ 31
    → IsPool k p
    → IsSerial (sum_of runes % suc k) s p
    → serial_worker p.num_workers (p.wids s) runes ≡ some w
    → sum_of runes % suc k ≡ w
same_worker k s w runes p small i v c =
    let both : some w ≡ some (sum_of runes % suc k) =
      sym c
      ∙ ap (λ n. serial_worker n (p.wids s) runes) i.size
      ∙ serial_worker-same k (p.wids s) runes small v.wid in
    cc

queued :
    (u : ℕ) (job : Job) (p : Pool)
    → ((enqueue u job p).received ≡ p.received)
      × ((enqueue u job p).wids ≡ p.wids)
      × ((enqueue u job p).handled ≡ p.handled)
unfolding enqueue
queued u job p = (refl, refl, refl)

-- A step keeps the order of a session.
Step-IsSerial :
    (runes_of : ℕ → List ℕ) (k s : ℕ) {p q : Pool}
    → sum_of (runes_of s) < 2 ^ 31
    → IsPool k p
    → Step runes_of p q
    → IsSerial (sum_of (runes_of s) % suc k) s p
    → IsSerial (sum_of (runes_of s) % suc k) s q
unfolding run_shared
Step-IsSerial runes_of k s small i (serial p t w task c room) v = elim (Bool-cases (t == s)) [
  | inr other ↦ receive-other (sum_of (runes_of s) % suc k) s t w task p other v
  | inl same ↦
      let W : ℕ = sum_of (runes_of s) % suc k in
      subst
        (λ r.
          serial_worker p.num_workers (p.wids r) (runes_of r) ≡ some w
          → IsSerial W s (receive r w task p))
        (sym (==→≡ t s same))
        (λ c.
          subst (λ x. IsSerial W s (receive s x task p))
            (same_worker k s w (runes_of s) p small i v c)
            (receive-own W s task p
              (ap (λ n. called_back n (p.wids s) W) i.size
                ∙ called_back-same k (p.wids s) (runes_of s) v.wid)
              v))
        c
]
Step-IsSerial runes_of k s small i (parallel p task id room) v =
    quiet-IsSerial (sum_of (runes_of s) % suc k) s p _ refl refl refl (λ u. refl) v
Step-IsSerial runes_of k s small i (takes_own p u job rest l f q) v =
    run_own-IsSerial (sum_of (runes_of s) % suc k) s u job rest p q v
Step-IsSerial runes_of k s small i (takes_shared p u job rest l f q e) v =
    run-other (sum_of (runes_of s) % suc k) s u job (record p { job_queue = rest })
      (is_from-none s job.session (subst (All (λ j. j.session ≡ none)) q i.parallel).0)
      (quiet-IsSerial (sum_of (runes_of s) % suc k) s p _ refl refl refl (λ u. refl) v)
Step-IsSerial runes_of k s small i (picks_up p w u job rest l f q e) v =
    quiet-IsSerial (sum_of (runes_of s) % suc k) s p _ refl refl refl (λ u. refl) v
Step-IsSerial runes_of k s small i (passes_on p w u job f e room) v =
    let left : Pool = record p { holding = change p.holding w none } in
    quiet-IsSerial (sum_of (runes_of s) % suc k) s p (enqueue u job left)
      (ap (λ f. f s) (queued u job left).0) (ap (λ f. f s) (queued u job left).1)
      (queued u job left).2
      (λ z. enqueue-other s z u job left (is_from-none s job.session (i.held w job f))) v

-- What the workers hold, after one takes or leaves a job.
change-held :
    (w : ℕ) (f : ℕ → Option Job) (o : Option Job)
    → ((j : Job) → o ≡ some j → j.session ≡ none)
    → ((v : ℕ) (j : Job) → f v ≡ some j → j.session ≡ none)
    → (v : ℕ) (j : Job) → change f w o v ≡ some j
    → j.session ≡ none
change-held w f o h hs v j = elim (Bool-cases (w == v)) [
  | inl same ↦ rw same (h j)
  | inr other ↦ rw other (hs v j)
]

change-range :
    (k u : ℕ) (f : ℕ → List Job) (js : List Job)
    → u < suc k
    → ((v : ℕ) → suc k ≤ v → f v ≡ [])
    → (v : ℕ) → suc k ≤ v
    → change f u js v ≡ []
change-range k u f js l h v m = elim (Bool-cases (u == v)) [
  | inl same ↦ absurd (omega (arith, ==→≡ u v same))
  | inr other ↦ rw other (h v m)
]

enqueue-IsPool :
    (k u : ℕ) (job : Job) (p : Pool) → u < suc k → IsPool k p → IsPool k (enqueue u job p)
unfolding enqueue
enqueue-IsPool k u job p l i = record {
  size = i.size;
  parallel = i.parallel;
  held = i.held;
  range = change-range k u p.queues (p.queues u ++ job ∷ []) l i.range;
}

-- A step keeps the pool.
Step-IsPool :
    (runes_of : ℕ → List ℕ) (k : ℕ) {p q : Pool}
    → ((s : ℕ) → sum_of (runes_of s) < 2 ^ 31)
    → ((s : ℕ) → IsSerial (sum_of (runes_of s) % suc k) s p)
    → Step runes_of p q
    → IsPool k p
    → IsPool k q
unfolding receive run_own run_shared run
Step-IsPool runes_of k small v (serial p t w task c room) i =
    enqueue-IsPool k w (record { worker_id = some w; session = some t; task = task }) _
      (subst (λ x. x < suc k) (same_worker k t w (runes_of t) p (small t) i (v t) c)
        (mod-lt (sum_of (runes_of t)) k))
      (record { size = i.size; parallel = i.parallel; held = i.held; range = i.range })
Step-IsPool runes_of k small v (parallel p task id room) i = record {
  size = i.size;
  parallel =
      All-append (λ j. j.session ≡ none) p.job_queue
        ((record { worker_id = id; session = none; task = task }) ∷ []) i.parallel (refl, tt);
  held = i.held;
  range = i.range;
}
Step-IsPool runes_of k small v (takes_own p u job rest l f q) i = record {
  size = i.size;
  parallel = i.parallel;
  held = i.held;
  range = change-range k u p.queues rest (subst (λ n. u < n) i.size l) i.range;
}
Step-IsPool runes_of k small v (takes_shared p u job rest l f q e) i = record {
  size = i.size;
  parallel = (subst (All (λ j. j.session ≡ none)) q i.parallel).1;
  held = i.held;
  range = i.range;
}
Step-IsPool runes_of k small v (picks_up p w u job rest l f q e) i =
    let none_from = subst (All (λ j. j.session ≡ none)) q i.parallel in
    record {
      size = i.size;
      parallel = none_from.1;
      held =
          change-held w p.holding (some job)
            (λ j t. let same : job ≡ j = cc in subst (λ j. j.session ≡ none) same none_from.0)
            i.held;
      range = i.range;
    }
Step-IsPool runes_of k small v (passes_on p w u job f e room) i =
    enqueue-IsPool k u job (record p { holding = change p.holding w none })
      (subst (λ n. u < n) i.size (in_range-lt p.num_workers job.worker_id u e))
      (record {
        size = i.size;
        parallel = i.parallel;
        held = change-held w p.holding none (λ j t. absurd (cc)) i.held;
        range = i.range;
      })

new_pool-IsPool : (k len : ℕ) → IsPool k (new_pool (suc k) len)
unfolding new_pool
new_pool-IsPool k len = record {
  size = refl;
  parallel = tt;
  held = λ w j e. absurd (cc);
  range = λ v m. refl;
}

new_pool-IsSerial : (n len w s : ℕ) → IsSerial w s (new_pool n len)
unfolding new_pool
new_pool-IsSerial n len w s = record {
  order = refl;
  one = tt;
  elsewhere = λ v o. refl;
  wid = inl refl;
}

-- On a new pool with at least one worker, for sessions whose ids have runes that add up to less than 2 ^ 31, whatever
-- messages are read, whatever parallel jobs are added and whichever worker is scheduled: the messages that a session has
-- read are, in that order and each once, those handled and then those that wait at one worker, which is the one at the
-- index of the sum of its id's runes modulo the number of workers; that worker has handled all of them, and none waits
-- elsewhere. No job is sent to a worker that does not exist.
pub Steps-IsSerial :
    (runes_of : ℕ → List ℕ) (k len : ℕ) {q : Pool}
    → ((s : ℕ) → sum_of (runes_of s) < 2 ^ 31)
    → Steps runes_of (new_pool (suc k) len) q
    → IsPool k q × ((s : ℕ) → IsSerial (sum_of (runes_of s) % suc k) s q)
Steps-IsSerial runes_of k len small here =
    (new_pool-IsPool k len, λ s. new_pool-IsSerial (suc k) len (sum_of (runes_of s) % suc k) s)
Steps-IsSerial runes_of k len small (next r st) =
    let (i, v) = Steps-IsSerial runes_of k len small r in
    (Step-IsPool runes_of k small v st i, λ s. Step-IsSerial runes_of k s (small s) i st (v s))
