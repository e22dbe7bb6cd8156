-- ===== src/Net/Pool/Queues.antt =====
-- The jobs of one session in the queues of hNet/gPool.go and among those that its workers have started.
use happy.Base.{
  ℕ, ◌≡◌, refl, ap, ◌∙◌, Bool, true, false, Option, none, some, List, [], ◌∷◌, ◌++◌, ◌==◌, nat_eq,
  if◌then◌else◌, arith, Bool-cases, inl, inr, ==→≡, ==_self, sym,
}
use happy.Net.Pool.{Job, Run, Pool, change, enqueue}

abbrev pub is_from : ℕ → Option ℕ → Bool
is_from s none = false
is_from s (some t) = t == s

abbrev pub waiting_of : ℕ → List Job → List ℕ
waiting_of s [] = []
waiting_of s (j ∷ js) =
    let rest = waiting_of s js in if is_from s j.session then j.task ∷ rest else rest

abbrev pub handled_of : ℕ → List Run → List ℕ
handled_of s [] = []
handled_of s (r ∷ rs) =
    let rest = handled_of s rs in if is_from s r.job.session then r.job.task ∷ rest else rest

-- The worker has started every job of the session.
abbrev pub AreBy : ℕ → ℕ → List Run → Type 0
AreBy s w [] = Unit
AreBy s w (r ∷ rs) = (is_from s r.job.session ≡ true → r.worker ≡ w) × AreBy s w rs

pub waiting_of-snoc :
    (s : ℕ) (js : List Job) (j : Job)
    → waiting_of s (js ++ j ∷ [])
      ≡ waiting_of s js ++ (if is_from s j.session then j.task ∷ [] else [])
waiting_of-snoc s [] j = refl
waiting_of-snoc s (k ∷ js) j = ground (arith, waiting_of-snoc s js j)

pub handled_of-snoc :
    (s : ℕ) (rs : List Run) (r : Run)
    → handled_of s (rs ++ r ∷ [])
      ≡ handled_of s rs ++ (if is_from s r.job.session then r.job.task ∷ [] else [])
handled_of-snoc s [] r = refl
handled_of-snoc s (k ∷ rs) r = ground (arith, handled_of-snoc s rs r)

pub AreBy-snoc :
    (s w : ℕ) (rs : List Run) (r : Run)
    → AreBy s w rs
    → (is_from s r.job.session ≡ true → r.worker ≡ w)
    → AreBy s w (rs ++ r ∷ [])
AreBy-snoc s w [] r h k = (k, tt)
AreBy-snoc s w (q ∷ rs) r h k = (h.0, AreBy-snoc s w rs r h.1 k)

append_none : (xs : List ℕ) → xs ++ [] ≡ xs
append_none [] = refl
append_none (x ∷ xs) = ap (λ l. x ∷ l) (append_none xs)

pub append_not :
    {xs : List ℕ} (x : ℕ) {b : Bool} → b ≡ false → xs ++ (if b then x ∷ [] else []) ≡ xs
append_not {xs = xs} x e = rw e (append_none xs)

-- A job of another session, or of none, leaves what waits for this one.
pub enqueue-other :
    (s v w : ℕ) (job : Job) (p : Pool)
    → is_from s job.session ≡ false
    → waiting_of s ((enqueue w job p).queues v) ≡ waiting_of s (p.queues v)
unfolding enqueue
enqueue-other s v w job p e = elim (Bool-cases (w == v)) [
  | inl same ↦ rw same (
      waiting_of-snoc s (p.queues w) job
      ∙ append_not job.task e
      ∙ ap (λ i. waiting_of s (p.queues i)) (==→≡ w v same))
  | inr other ↦ rw other refl
]

pub enqueue-elsewhere :
    (s v w : ℕ) (job : Job) (p : Pool)
    → (w == v) ≡ false
    → waiting_of s ((enqueue w job p).queues v) ≡ waiting_of s (p.queues v)
unfolding enqueue
enqueue-elsewhere s v w job p e = rw e refl

pub enqueue-own :
    (s w : ℕ) (job : Job) (p : Pool)
    → is_from s job.session ≡ true
    → waiting_of s ((enqueue w job p).queues w) ≡ waiting_of s (p.queues w) ++ job.task ∷ []
unfolding enqueue
enqueue-own s w job p e = rw (==_self w) (waiting_of-snoc s (p.queues w) job ∙ rw e refl)

-- A job of another session, taken from the front.
pub take-other :
    (s v w : ℕ) (job : Job) (rest : List Job) (p : Pool)
    → p.queues w ≡ job ∷ rest
    → is_from s job.session ≡ false
    → waiting_of s (change p.queues w rest v) ≡ waiting_of s (p.queues v)
take-other s v w job rest p q e = elim (Bool-cases (w == v)) [
  | inl same ↦ rw same (
      sym (
        ap (λ i. waiting_of s (p.queues i)) (sym (==→≡ w v same))
        ∙ ap (waiting_of s) q
        ∙ rw e refl))
  | inr other ↦ rw other refl
]
