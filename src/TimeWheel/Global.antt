-- ===== src/TimeWheel/Global.antt =====
-- `After` of package hTimer: the wheels made on demand, one to a duration.
use native.Mathlib.Nat.{
  le-div_iff_mul-le, mul_comm, mul-div-le, lt-mul-div-succ, add-mul-div_left, div-eq_of_lt,
}
use happy.Base.{
  ℕ, zero, suc, ◌+◌, ◌-◌, ◌*◌, ◌/◌, ◌≤◌, ◌<◌, ◌≡◌, refl, sym, ap, ◌∙◌, subst, Option, none, some,
  [], length, get_elem?, contains, leb, ◌==◌, nat_eq, ==_self, ==→≡, arith, inl, inr, Bool-cases,
  Option-cases,
}
use mathlib.Core.Path.{subst₂}
use happy.Base.Maps.{lookup, insert, lookup-insert}
use happy.TimeWheel.{TimeWheel, Timers, channels, new_time_wheel, after, after_global, ticks}
use happy.TimeWheel.Firing.{IsWheel, after_closes}

length-channels : (size c : ℕ) → length (channels size c) ≡ size
unfolding channels
length-channels zero c = refl
length-channels (suc size) c = ap suc (length-channels size (c + 1))

get-channels : (size c i d : ℕ) → get_elem? (channels size c) i ≡ some d → (d ≡ c + i) × (i < size)
unfolding channels
get-channels zero c i d e = cc
get-channels (suc size) c zero d e = ground arith
get-channels (suc size) c (suc i) d e = omega (arith, get-channels size (c + 1) i d e)

pub new_time_wheel-IsWheel :
    (t size : ℕ)
    → 0 < t
    → 0 < size
    → (w : TimeWheel) × (new_time_wheel t size ≡ some w)
      × IsWheel w
      × (w.t ≡ t)
      × (length w.time_wheel ≡ size)
unfolding new_time_wheel
new_time_wheel-IsWheel t size p q = (
  record {
    t = t;
    max_t = t * size;
    time_wheel = channels size 0;
    curr_pos = 0;
    next_channel = size;
    closed = [];
  },
  ground arith,
  record {
    period = p;
    reach = ap (λ n. t * n) (sym (length-channels size 0));
    within = omega (arith, length-channels size 0);
    fresh = λ i c e. omega (arith, get-channels size 0 i c e);
    spent = λ c m. cc;
    open_slots = λ i c e. refl;
    distinct = λ i j c e f. omega (arith, get-channels size 0 i c e, get-channels size 0 j c f);
  },
  refl,
  length-channels size 0,
)

-- The wheels are whole, each with the period that its duration asks for.
pub record IsTimers (a : ℕ) (s : Timers) : Type 0 where
  pub exact : s.accuracy ≡ a
  pub wheels :
      (t : ℕ) (w : TimeWheel)
      → lookup s.timer_map t ≡ some w
      → IsWheel w × (w.t ≡ t / a) × (length w.time_wheel ≡ a + 1)

quotient_of : (q a r : ℕ) → r < q → (r + q * a) / q ≡ a
quotient_of q a r h = add-mul-div_left r a (omega arith) ∙ rw (div-eq_of_lt h) (omega arith)

-- `t / (t / a)` is `a` for all durations of at least `a * a`.
div-div : (a t : ℕ) → 0 < a → a * a ≤ t → (t < t / a * (a + 1)) × (t / (t / a) ≡ a)
div-div a t p h =
    let q = t / a in
    let large : a ≤ q = (le-div_iff_mul-le {x = a} {y = t} p).1 h in
    let low : a * q ≤ t = mul-div-le t a in
    let high : t < a * q + a = omega (arith, lt-mul-div-succ t p) in
    let swap = mul_comm q a in
    (
      omega (arith, large, low, high, swap),
      ap (λ (m : ℕ). m / q) (omega (arith, low, swap))
          ∙ quotient_of q a (t - q * a) (omega (arith, large, low, high, swap)),
    )

module _ (a : ℕ) (pos : 0 < a) where
  abbrev pub Fires : Timers → ℕ → Option (ℕ × Timers) → Type 0
  Fires s t none = ⊥
  Fires s t (some (c, s')) =
      IsTimers a s'
      × ((w : TimeWheel) × (lookup s'.timer_map t ≡ some w)
          × ((n : ℕ) → contains (ticks n w).closed c ≡ leb a n))

  insert-IsTimers :
      (s : Timers) (t : ℕ) (w : TimeWheel)
      → IsTimers a s
      → IsWheel w
      → w.t ≡ t / a
      → length w.time_wheel ≡ a + 1
      → IsTimers a (record s { timer_map = insert s.timer_map t w })
  insert-IsTimers s t w v whole period size = record {
    exact = v.exact;
    wheels = λ u x e. elim (Bool-cases (t == u)) [
      | inl same ↦
          let at : t ≡ u = ==→≡ t u same in
          let new : w ≡ x = ground (arith, lookup-insert s.timer_map t u w) in
          subst₂ (λ u x. IsWheel x × (x.t ≡ u / a) × (length x.time_wheel ≡ a + 1)) at new
            (whole, period, size)
      | inr other ↦ v.wheels u x (ground (arith, lookup-insert s.timer_map t u w))
    ];
  }

  wheel_fires :
      (t : ℕ) (w : TimeWheel)
      → a * a ≤ t
      → IsWheel w
      → w.t ≡ t / a
      → length w.time_wheel ≡ a + 1
      → (c : ℕ) × (after w t ≡ some c) × ((n : ℕ) → contains (ticks n w).closed c ≡ leb a n)
  wheel_fires t w large v period size =
      let (short, exact) = div-div a t pos large in
      let (c, e, closes) = after_closes w t v (
        subst (λ m. t < m)
          (sym (v.reach ∙ ap (λ m. m * length w.time_wheel) period ∙ ap (λ m. t / a * m) size))
          short) in
      (c, e, λ n. closes n ∙ rw (period, exact) (ground arith))

  pub after_global-Fires :
      (s : Timers) (t : ℕ) → IsTimers a s → a * a ≤ t → Fires s t (after_global s t)
  unfolding after_global
  after_global-Fires s t v large = elim (Option-cases (lookup s.timer_map t)) [
    | inr (w, e) ↦
        let (whole, period, size) = v.wheels t w e in
        let (c, found, closes) = wheel_fires t w large whole period size in
        rw (e, after_global) (rw (found, after_global) (v, (w, e, closes)))
    | inl e ↦
        let (w, made, whole, period, size) =
          new_time_wheel-IsWheel (t / a) (a + 1)
            (omega (arith, (le-div_iff_mul-le {x = a} {y = t} pos).1 large)) (omega arith) in
        let made' : new_time_wheel (t / s.accuracy) (s.accuracy + 1) ≡ some w =
          subst (λ b. new_time_wheel (t / b) (b + 1) ≡ some w) (sym v.exact) made in
        let (c, found, closes) = wheel_fires t w large whole period size in
        let here : lookup (insert s.timer_map t w) t ≡ some w =
          ground (arith, lookup-insert s.timer_map t t w, ==_self t) in
        rw (e, after_global)
          (rw (made', after_global)
            (rw (found, after_global)
              (insert-IsTimers s t w v whole period size, (w, here, closes))))
  ]
