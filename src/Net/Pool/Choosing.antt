-- ===== src/Net/Pool/Choosing.antt =====
-- Which worker `AddJobSerial` of hNet/gPool.go chooses.
use happy.Base.{
  ℕ, suc, ◌%◌, ◌^◌, ◌<◌, ◌≡◌, refl, sym, ◌∙◌, subst, true, false, Option, none, some, List, ltb,
  ltb→lt, ◌⊎◌, nat_eq, arith, Bool-cases, inl, inr,
}
use happy.Net.Pool.{sum_of, worker_of, serial_worker, called_back, in_range}

sum_small : (n sum : ℕ) → sum < 2 ^ 31 → (ltb (sum % 2 ^ 32) (2 ^ 31) ≡ true) × (sum % 2 ^ 32 ≡ sum)
sum_small n sum h = (ground arith, ground arith)

worker_of_small :
    (k : ℕ) (runes : List ℕ)
    → sum_of runes < 2 ^ 31
    → worker_of (suc k) runes ≡ some (sum_of runes % suc k)
unfolding worker_of
worker_of_small k runes h =
    let (small, same) = sum_small k (sum_of runes) h in rw (small, same) refl

serial_worker_given :
    (k v : ℕ) (runes : List ℕ)
    → ltb v (suc k) ≡ true
    → serial_worker (suc k) (some v) runes ≡ some v
unfolding serial_worker
serial_worker_given k v runes h = rw h refl

serial_worker_chosen :
    (k v : ℕ) (runes : List ℕ)
    → ltb v (suc k) ≡ false
    → serial_worker (suc k) (some v) runes ≡ worker_of (suc k) runes
unfolding serial_worker
serial_worker_chosen k v runes h = ground (arith, h)

serial_worker-none : (n : ℕ) (runes : List ℕ) → serial_worker n none runes ≡ worker_of n runes
unfolding serial_worker
serial_worker-none n runes = refl

pub mod-lt : (a k : ℕ) → a % suc k < suc k
mod-lt a k = grind arith

-- AddJobSerial of a pool with workers, for an id whose runes add up to less than 2 ^ 31, chooses one of the workers, and
-- without a worker of the caller's it is the one that the id alone decides.
pub serial_worker-lt :
    (k : ℕ) (wid : Option ℕ) (runes : List ℕ)
    → sum_of runes < 2 ^ 31
    → (w : ℕ) × (serial_worker (suc k) wid runes ≡ some w)
      × (w < suc k)
      × (wid ≡ none → w ≡ sum_of runes % suc k)
serial_worker-lt k none runes h = (
  sum_of runes % suc k,
  serial_worker-none (suc k) runes ∙ worker_of_small k runes h,
  mod-lt (sum_of runes) k,
  λ e. refl,
)
serial_worker-lt k (some v) runes h = elim (Bool-cases (ltb v (suc k))) [
  | inl given ↦ (v, serial_worker_given k v runes given, ltb→lt v (suc k) given, λ e. absurd (cc))
  | inr out ↦ (
    sum_of runes % suc k,
    serial_worker_chosen k v runes out ∙ worker_of_small k runes h,
    mod-lt (sum_of runes) k,
    λ e. refl,
  )
]

-- The worker of an id, with the `wid` of a session that has none or has that worker.
pub serial_worker-same :
    (k : ℕ) (wid : Option ℕ) (runes : List ℕ)
    → sum_of runes < 2 ^ 31
    → (wid ≡ none) ⊎ (wid ≡ some (sum_of runes % suc k))
    → serial_worker (suc k) wid runes ≡ some (sum_of runes % suc k)
serial_worker-same k wid runes h (inl e) =
    rw e (serial_worker-none (suc k) runes ∙ worker_of_small k runes h)
serial_worker-same k wid runes h (inr e) =
    rw e
      (serial_worker_given k (sum_of runes % suc k) runes (ground (arith, mod-lt (sum_of runes) k)))

pub called_back-same :
    (k : ℕ) (wid : Option ℕ) (runes : List ℕ)
    → (wid ≡ none) ⊎ (wid ≡ some (sum_of runes % suc k))
    → called_back (suc k) wid (sum_of runes % suc k) ≡ some (sum_of runes % suc k)
unfolding called_back
called_back-same k wid runes (inl e) = rw e refl
called_back-same k wid runes (inr e) = rw e (ground (arith, mod-lt (sum_of runes) k))

pub in_range-lt : (n : ℕ) (id : Option ℕ) (v : ℕ) → in_range n id ≡ some v → v < n
in_range-lt n none v e = absurd (cc)
in_range-lt n (some u) v e = elim (Bool-cases (ltb u n)) [
  | inl within ↦
      let same : some u ≡ some v = sym (rw within refl) ∙ e in
      let at : u ≡ v = cc in subst (λ x. x < n) at (ltb→lt u n within)
  | inr out ↦ absurd (let bad : none ≡ some v = sym (rw out refl) ∙ e in cc)
]
