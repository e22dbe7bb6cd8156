-- ===== src/Net/Pool/Sessions.antt =====
-- A session of hNet/websocketHandler.go in the pool of hNet/gPool.go: what each operation does to its messages.
use happy.Base.{
  ℕ, suc, ◌≤◌, ◌≡◌, refl, sym, ap, ◌∙◌, subst, true, false, Option, none, some, List, [], ◌∷◌, ◌++◌,
  All, ◌==◌, nat_eq, Bool-cases, inl, inr, ==→≡, ==_self, ◌⊎◌,
}
use mathlib.Core.List.{append_assoc}
use happy.Net.Pool.{Job, Pool, change, called_back, receive, run, run_own}
use happy.Net.Pool.Queues.{
  is_from, waiting_of, handled_of, AreBy, handled_of-snoc, AreBy-snoc, append_not, enqueue-other,
  enqueue-elsewhere, enqueue-own, take-other,
}

-- The pool has `suc k` workers and no job for any other; what waits in its own queue, and what a worker
-- holds to pass it on, is of no session.
pub record IsPool (k : ℕ) (p : Pool) : Type 0 where
  pub size : p.num_workers ≡ suc k
  pub parallel : All (λ j. j.session ≡ none) p.job_queue
  pub held : (w : ℕ) (j : Job) → p.holding w ≡ some j → j.session ≡ none
  pub range : (v : ℕ) → suc k ≤ v → p.queues v ≡ []

-- The messages of session `s` are, in the order in which they were read, those handled and then those that wait at
-- worker `w`; the worker has handled them all, and none waits elsewhere.
pub record IsSerial (w s : ℕ) (p : Pool) : Type 0 where
  pub order : p.received s ≡ handled_of s p.handled ++ waiting_of s (p.queues w)
  pub one : AreBy s w p.handled
  pub elsewhere : (v : ℕ) → (w == v) ≡ false → waiting_of s (p.queues v) ≡ []
  pub wid : (p.wids s ≡ none) ⊎ (p.wids s ≡ some w)

pub is_from-none : (s : ℕ) (o : Option ℕ) → o ≡ none → is_from s o ≡ false
is_from-none s o e = rw e refl

-- Nothing but the queue of one worker changes, and the queues of the session stay.
pub quiet-IsSerial :
    (w s : ℕ) (p q : Pool)
    → q.received s ≡ p.received s
    → q.wids s ≡ p.wids s
    → q.handled ≡ p.handled
    → ((v : ℕ) → waiting_of s (q.queues v) ≡ waiting_of s (p.queues v))
    → IsSerial w s p
    → IsSerial w s q
quiet-IsSerial w s p q r i h e v = record {
  order = r ∙ v.order ∙ (rw (h, e w) refl);
  one = subst (AreBy s w) (sym h) v.one;
  elsewhere = λ u o. e u ∙ v.elsewhere u o;
  wid = subst (λ o. (o ≡ none) ⊎ (o ≡ some w)) (sym i) v.wid;
}

-- A job of another session, or of none, that a worker starts.
pub run-other :
    (w s u : ℕ) (job : Job) (p : Pool)
    → is_from s job.session ≡ false
    → IsSerial w s p
    → IsSerial w s (run u job p)
unfolding run
run-other w s u job p e v = record {
  order =
      v.order
      ∙ ap (λ l. l ++ waiting_of s (p.queues w))
          (sym (
            handled_of-snoc s p.handled (record { worker = u; job = job })
            ∙ append_not job.task e));
  one =
      AreBy-snoc s w p.handled (record { worker = u; job = job }) v.one
        (λ t. absurd (let bad : true ≡ false = sym t ∙ e in cc));
  elsewhere = v.elsewhere;
  wid = v.wid;
}

pub receive-own :
    (w s task : ℕ) (p : Pool)
    → called_back p.num_workers (p.wids s) w ≡ some w
    → IsSerial w s p
    → IsSerial w s (receive s w task p)
unfolding receive
receive-own w s task p c v =
    let job : Job = record { worker_id = some w; session = some s; task = task } in
    record {
      order = rw (==_self s) (
          ap (λ l. l ++ task ∷ []) v.order
          ∙ append_assoc (handled_of s p.handled) (waiting_of s (p.queues w)) (task ∷ [])
          ∙ ap (λ l. handled_of s p.handled ++ l) (sym (enqueue-own s w job p (==_self s))));
      one = v.one;
      elsewhere = λ u o. enqueue-elsewhere s u w job p o ∙ v.elsewhere u o;
      wid = inr (rw (==_self s) c);
    }

pub receive-other :
    (w s t u task : ℕ) (p : Pool)
    → (t == s) ≡ false
    → IsSerial w s p
    → IsSerial w s (receive t u task p)
unfolding receive
receive-other w s t u task p o v =
    quiet-IsSerial w s p (receive t u task p) (rw o refl) (rw o refl) refl
      (λ i. enqueue-other s i u (record { worker_id = some u; session = some t; task = task }) p o)
      v

take_own :
    (w s : ℕ) (job : Job) (rest : List Job) (p : Pool)
    → p.queues w ≡ job ∷ rest
    → is_from s job.session ≡ true
    → IsSerial w s p
    → IsSerial w s (run_own w job rest p)
unfolding run_own run
take_own w s job rest p q e v = record {
  order =
      v.order
      ∙ ap (λ l. handled_of s p.handled ++ waiting_of s l) q
      ∙ rw (==_self w, handled_of-snoc s p.handled (record { worker = w; job = job }), e)
          (sym (append_assoc (handled_of s p.handled) (job.task ∷ []) (waiting_of s rest)));
  one = AreBy-snoc s w p.handled (record { worker = w; job = job }) v.one (λ t. refl);
  elsewhere = λ u o. rw o (v.elsewhere u o);
  wid = v.wid;
}

-- A worker starts a job of its own queue.
pub run_own-IsSerial :
    (w s u : ℕ) (job : Job) (rest : List Job) (p : Pool)
    → p.queues u ≡ job ∷ rest
    → IsSerial w s p
    → IsSerial w s (run_own u job rest p)
unfolding run_own
run_own-IsSerial w s u job rest p q v = elim (Bool-cases (is_from s job.session)) [
  | inr other ↦
      run-other w s u job (record p { queues = change p.queues u rest }) other
        (quiet-IsSerial w s p (record p { queues = change p.queues u rest }) refl refl refl
          (λ i. take-other s i u job rest p q other) v)
  | inl own ↦ elim (Bool-cases (w == u)) [
    | inl same ↦
        let e : w ≡ u = ==→≡ w u same in
        subst (λ i. p.queues i ≡ job ∷ rest → IsSerial w s (run_own i job rest p)) e
          (λ q. take_own w s job rest p q own v) q
    | inr far ↦ absurd (
        let bad : job.task ∷ waiting_of s rest ≡ [] =
          sym (ap (waiting_of s) q ∙ rw own refl) ∙ v.elsewhere u far in
        cc)
  ]
]
