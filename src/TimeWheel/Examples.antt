-- ===== src/TimeWheel/Examples.antt =====
-- Tests of hTimer/timeWheel.go and the theorems on small wheels.
use happy.Base.{◌≡◌, refl, sym, subst, ◌∙◌, some, [], ◌∷◌, nat_eq, arith}
use happy.Base.Maps.{lookup}
use happy.TimeWheel.{TimeWheel, Timers, channels, new_time_wheel, after, after_global, tick, ticks}
use happy.TimeWheel.Firing.{IsWheel}
use happy.TimeWheel.Global.{IsTimers, new_time_wheel-IsWheel, Fires, after_global-Fires}

-- A wheel of five slots and a period of 10.
abbrev small : TimeWheel
small = record {
  t = 10;
  max_t = 50;
  time_wheel = 0 ∷ 1 ∷ 2 ∷ 3 ∷ 4 ∷ [];
  curr_pos = 0;
  next_channel = 5;
  closed = [];
}

new_time_wheel-small : new_time_wheel 10 5 ≡ some small
unfolding new_time_wheel channels
new_time_wheel-small = refl

after_three : after small 35 ≡ some 2
unfolding after
after_three = refl

ticks_three : (ticks 3 small).closed ≡ 2 ∷ 1 ∷ 0 ∷ []
unfolding ticks tick
ticks_three = refl

small-IsWheel : IsWheel small
small-IsWheel =
    let (w, made, whole, _, _) = new_time_wheel-IsWheel 10 5 (omega arith) (omega arith) in
    let same : small ≡ w = some_inj (sym new_time_wheel-small ∙ made) in
    subst IsWheel (sym same) whole
  where
    some_inj : {a b : TimeWheel} → some a ≡ some b → a ≡ b
    some_inj e = cc

-- The package's state before the first call, with an accuracy of 3.
abbrev timers : Timers
timers = record { timer_map = []; accuracy = 3 }

timers-IsTimers : IsTimers 3 timers
unfolding lookup
timers-IsTimers = record { exact = refl; wheels = λ t w e. absurd cc }

after_global-Fires_example : Fires 3 (omega arith) timers 12 (after_global timers 12)
after_global-Fires_example =
    after_global-Fires 3 (omega arith) timers 12 timers-IsTimers (omega arith)
