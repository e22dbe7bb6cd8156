-- ===== src/Rpc/Heartbeat/Examples.antt =====
-- The theorems on the heartbeat of hRpc/client.go, for a client with two misses.
use happy.Base.{◌≡◌, refl, true, false, [], ◌∷◌, arith}
use happy.Rpc.Heartbeat.{
  Heart, calling, waiting, new_heart, counted, Steps, here, next, ticks, calls, times_out,
}
use happy.Rpc.Heartbeat.Counting.{IsCounted, Steps-IsCounted}
use happy.Rpc.Heartbeat.Locking.{IsLocked, missing, misses-IsLocked}

misses-IsLocked_example :
    (t : Heart) × Steps (missing 2 (false ∷ false ∷ true ∷ [])) t
    × IsLocked t
    × ((u : Heart) → Steps t u → u ≡ t)
misses-IsLocked_example = misses-IsLocked 2 (false ∷ false ∷ true ∷ []) (omega arith)

-- A call that is not answered.
abbrev missed : Heart
missed = counted false (record (new_heart false) { stage = waiting })

Steps-IsCounted_example : IsCounted missed
unfolding new_heart counted
Steps-IsCounted_example = Steps-IsCounted false (
    next
      (next (next here (ticks (new_heart false) refl))
        (calls (record (new_heart false) { stage = calling }) refl refl refl))
      (times_out (record (new_heart false) { stage = waiting }) refl))

missed_once : missed.ping_count ≡ 1
unfolding new_heart counted
missed_once = refl
