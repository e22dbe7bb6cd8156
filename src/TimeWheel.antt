-- ===== src/TimeWheel.antt =====
-- hTimer/timeWheel.go: the time wheel, and the wheels by duration behind `After`. A `time.Duration` is a
-- number of nanoseconds, not negative; a channel is a number, and `closed` lists those that are closed.
-- `none` is a panic. The ticker's deliveries are calls of `tick`, the body of the loop in `run`.
pub mod Firing
pub mod Global
mod Examples
use happy.Base.{
  ℕ, zero, suc, ◌+◌, ◌-◌, ◌*◌, ◌/◌, ◌%◌, Option, none, some, List, [], ◌∷◌, length, get_elem?, set,
  leb, ltb, ◌==◌, nat_eq, if◌then◌else◌,
}
use happy.Base.Maps.{Map, lookup, insert}

pub record TimeWheel : Type 0 where
  pub t : ℕ
  pub max_t : ℕ
  pub time_wheel : List ℕ
  pub curr_pos : ℕ
  pub next_channel : ℕ
  pub closed : List ℕ

-- `size` new channels, numbered from `c`
unfoldable pub channels : ℕ → ℕ → List ℕ
channels zero c = []
channels (suc size) c = c ∷ channels size (c + 1)

-- `time.NewTicker` panics on a period of 0.
unfoldable pub new_time_wheel : ℕ → ℕ → Option TimeWheel
unfolding channels
new_time_wheel t size =
    if t == 0
    then none
    else some (record {
      t = t;
      max_t = t * size;
      time_wheel = channels size 0;
      curr_pos = 0;
      next_channel = size;
      closed = [];
    })

-- How many ticks the wheel passes over before the one that closes the channel.
unfoldable pub slot_offset : TimeWheel → ℕ → ℕ
slot_offset w timeout = let pos = timeout / w.t in if ltb 0 pos then pos - 1 else pos

unfoldable pub after : TimeWheel → ℕ → Option ℕ
unfolding slot_offset
after w timeout =
    if leb w.max_t timeout
    then none
    else get_elem? w.time_wheel ((w.curr_pos + slot_offset w timeout) % length w.time_wheel)

-- One round of `run`. On an empty wheel it panics; the wheel is then left as it is.
unfoldable pub tick : TimeWheel → TimeWheel
tick w = elim (get_elem? w.time_wheel w.curr_pos) [
  | none ↦ w
  | some oldest_c ↦ record w {
    time_wheel = set w.time_wheel w.curr_pos w.next_channel;
    curr_pos = (w.curr_pos + 1) % length w.time_wheel;
    next_channel = w.next_channel + 1;
    closed = oldest_c ∷ w.closed;
  }
]

unfoldable pub ticks : ℕ → TimeWheel → TimeWheel
unfolding tick
ticks zero w = w
ticks (suc n) w = ticks n (tick w)

-- The package's variables.
pub record Timers : Type 0 where
  pub timer_map : Map ℕ TimeWheel
  pub accuracy : ℕ

unfoldable pub set_accuracy : Timers → ℕ → Timers
set_accuracy s a = record s { accuracy = a }

-- The channel, beside the wheels that the call leaves; `none` is a panic. Division by an accuracy of 0
-- panics too: `t / 0` is 0 here, and the ticker refuses it.
unfoldable pub after_global : Timers → ℕ → Option (ℕ × Timers)
after_global s t = elim (lookup s.timer_map t) [
  | some v ↦ elim (after v t) [ none ↦ none | some c ↦ some (c, s) ]
  | none ↦ elim (new_time_wheel (t / s.accuracy) (s.accuracy + 1)) [
    | none ↦ none
    | some v ↦ elim (after v t) [
      | none ↦ none
      | some c ↦ some (c, record s { timer_map = insert s.timer_map t v })
    ]
  ]
]
