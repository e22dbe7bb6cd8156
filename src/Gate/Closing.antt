-- ===== src/Gate/Closing.antt =====
-- How hBaseComponent/DefaultGateComponent.go waits for its sessions.
use happy.Base.{ℕ, zero, suc, ◌+◌, ◌≡◌, refl, subst, true, false, arith, nat_eq}
use happy.Gate.{
  Sessions, on_connected, on_dropped, on_dropped_end, check_close, connects, drops, ends, closes,
  Steps, here, next,
}

abbrev pub idle : Sessions
idle = record { accept_num = 0; is_close_server = false; dropping = 0; added = 0; done = 0 }

-- A gate that is told to close with sessions: the wait group has been added to once.
abbrev closing : ℕ → ℕ → ℕ → Sessions
closing open_ leaving finished = record {
  accept_num = open_;
  is_close_server = true;
  dropping = leaving;
  added = 1;
  done = finished;
}

connect_all : (n : ℕ) → Steps idle (record idle { accept_num = n })
unfolding on_connected
connect_all zero = here
connect_all (suc n) =
    subst (Steps idle) (ground arith)
      (next (connect_all n) (connects (record idle { accept_num = n })))

closed_all : (n : ℕ) → Steps idle (closing (suc n) 0 0)
unfolding check_close
closed_all n =
    subst (Steps idle) (ground arith)
      (next (connect_all (suc n)) (closes (record idle { accept_num = suc n }) refl))

drop_each :
    (k leaving : ℕ) → Steps idle (closing k leaving 0) → Steps idle (closing 0 (leaving + k) 0)
unfolding on_dropped
drop_each zero leaving h = subst (λ l. Steps idle (closing 0 l 0)) (omega arith) h
drop_each (suc k) leaving h =
    subst (λ l. Steps idle (closing 0 l 0)) (omega arith)
      (drop_each k (leaving + 1) (
        subst (Steps idle) (ground arith)
          (next h (drops (closing (suc k) leaving 0) (omega arith)))))

end_each :
    (k finished : ℕ) → Steps idle (closing 0 k finished) → Steps idle (closing 0 0 (finished + k))
unfolding on_dropped_end
end_each zero finished h = subst (λ d. Steps idle (closing 0 0 d)) (omega arith) h
end_each (suc k) finished h =
    subst (λ d. Steps idle (closing 0 0 d)) (omega arith)
      (end_each k (finished + 1) (
        subst (Steps idle) (ground arith)
          (next h (ends (closing 0 (suc k) finished) (omega arith)))))

-- A gate that is told to close while it has sessions adds to the wait group once; if all are counted off before the
-- first of them runs its deferred function, each takes off from it, and with two sessions or more the group's counter
-- falls below zero, which panics.
pub check_close-overdone :
    (n : ℕ) → (g : Sessions) × Steps idle g × (g.added ≡ 1) × (g.done ≡ suc n)
check_close-overdone n = (
  closing 0 0 (suc n),
  subst (λ d. Steps idle (closing 0 0 d)) (omega arith)
      (end_each (suc n) 0 (
        subst (λ l. Steps idle (closing 0 l 0)) (omega arith)
          (drop_each (suc n) 0 (closed_all n)))),
  refl,
  refl,
)
