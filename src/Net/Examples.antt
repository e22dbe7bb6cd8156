-- ===== src/Net/Examples.antt =====
-- Tests of hNet/gPool.go, and the theorem on a short run.
use happy.Base.{ℕ, zero, suc, ◌%◌, ◌^◌, ◌<◌, ◌≡◌, refl, none, some, List, [], ◌∷◌, arith}
use happy.Net.Pool.{
  Pool, sum_of, worker_of, serial_worker, called_back, enqueue, receive, run_own, serial, takes_own,
  Steps, here, next, new_pool,
}
use happy.Net.Pool.Sessions.{IsPool, IsSerial}
use happy.Net.Pool.Serial.{Steps-IsSerial}

-- The runes of the id "ab", for three workers.
worker_of_ab : worker_of 3 (97 ∷ 98 ∷ []) ≡ some 0
unfolding worker_of
worker_of_ab = refl

-- A sum that wraps around to a negative number.
worker_of_negative : worker_of 3 (2147483648 ∷ []) ≡ none
unfolding worker_of
worker_of_negative = refl

-- Session 0 has the id "ab", all others "b".
abbrev runes_of : ℕ → List ℕ
runes_of zero = 97 ∷ 98 ∷ []
runes_of (suc s) = 98 ∷ []

small : (s : ℕ) → sum_of (runes_of s) < 2 ^ 31
unfolding sum_of
small zero = omega arith
small (suc s) = omega arith

-- Two messages of session 0, of which the worker has started one.
abbrev read : Pool
read = receive 0 0 51 (receive 0 0 50 (new_pool 3 8))

abbrev started : Pool
started =
    run_own 0 (record { worker_id = some 0; session = some 0; task = 50 })
      ((record { worker_id = some 0; session = some 0; task = 51 }) ∷ []) read

started_steps : Steps runes_of (new_pool 3 8) started
unfolding new_pool enqueue receive called_back serial_worker worker_of
started_steps =
    next
      (next (next here (serial (new_pool 3 8) 0 0 50 refl (omega arith)))
        (serial (receive 0 0 50 (new_pool 3 8)) 0 0 51 refl (omega arith)))
      (takes_own read 0 (record { worker_id = some 0; session = some 0; task = 50 }) _ (omega arith)
        refl refl)

Steps-IsSerial_example : IsPool 2 started × ((s : ℕ) → IsSerial (sum_of (runes_of s) % 3) s started)
Steps-IsSerial_example = Steps-IsSerial runes_of 2 8 small started_steps
