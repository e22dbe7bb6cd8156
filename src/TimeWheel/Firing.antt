-- ===== src/TimeWheel/Firing.antt =====
-- When a channel of hTimer/timeWheel.go closes.
use happy.Base.{
  ℕ, zero, suc, ◌+◌, ◌-◌, ◌*◌, ◌/◌, ◌%◌, ◌<◌, ◌≡◌, ◌≢◌, ◌⊎◌, refl, sym, ap, ◌∙◌, subst, true, false,
  ◌&&◌, some, List, [], ◌∷◌, length, get_elem?, get_elem?_in, get_elem?-set_ne, length-set, set,
  contains, leb, ltb, ltb→lt, ltb→le, nat_eq, ==_self, if◌then◌else◌, arith, inl, inr, Bool-cases,
}
use native.Mathlib.Nat.{
  mul_comm, div-lt_iff_lt-mul, mod-lt, mod-add-mod, mod-eq_of_lt, mod-eq-sub-mod,
}
use happy.TimeWheel.{TimeWheel, slot_offset, after, tick, ticks}

-- The channels on the wheel are open and differ; the wheel turns within its slots.
pub record IsWheel (w : TimeWheel) : Type 0 where
  pub period : 0 < w.t
  pub reach : w.max_t ≡ w.t * length w.time_wheel
  pub within : w.curr_pos < length w.time_wheel
  pub fresh : (i c : ℕ) → get_elem? w.time_wheel i ≡ some c → c < w.next_channel
  pub spent : (c : ℕ) → contains w.closed c ≡ true → c < w.next_channel
  pub open_slots : (i c : ℕ) → get_elem? w.time_wheel i ≡ some c → contains w.closed c ≡ false
  pub distinct :
      (i j c : ℕ) → get_elem? w.time_wheel i ≡ some c → get_elem? w.time_wheel j ≡ some c → i ≡ j

wrap : (a n : ℕ) → a < n + n → a % n ≡ (if ltb a n then a else a - n)
wrap a n h = elim (Bool-cases (ltb a n)) [
  | inl less ↦ rw less (mod-eq_of_lt (ltb→lt a n less))
  | inr more ↦
      rw more (mod-eq-sub-mod (ltb→le a n more) ∙ mod-eq_of_lt (omega (arith, ltb→le a n more)))
]

get-set :
    (xs : List ℕ) (i j v c : ℕ)
    → get_elem? (set xs i v) j ≡ some c
    → ((i ≡ j) × (v ≡ c)) ⊎ ((i ≢ j) × (get_elem? xs j ≡ some c))
get-set [] i j v c e = cc
get-set (x ∷ xs) zero zero v c e = inl (refl, ground arith)
get-set (x ∷ xs) zero (suc j) v c e = inr (omega arith, e)
get-set (x ∷ xs) (suc i) zero v c e = inr (omega arith, e)
get-set (x ∷ xs) (suc i) (suc j) v c e = elim (get-set xs i j v c e) [
  | inl (p, q) ↦ inl (ap suc p, q)
  | inr (p, q) ↦ inr (omega arith, q)
]

-- `tick` where it closes `c`.
abbrev turned : TimeWheel → ℕ → TimeWheel
turned w c = record w {
  time_wheel = set w.time_wheel w.curr_pos w.next_channel;
  curr_pos = (w.curr_pos + 1) % length w.time_wheel;
  next_channel = w.next_channel + 1;
  closed = c ∷ w.closed;
}

module _ (w : TimeWheel) (v : IsWheel w) where
  tick-turned : (c : ℕ) × (get_elem? w.time_wheel w.curr_pos ≡ some c) × (tick w ≡ turned w c)
  unfolding tick
  tick-turned =
      let (c, e) = get_elem?_in w.time_wheel w.curr_pos v.within in (c, e, rw (e, tick) refl)

  module _ (c : ℕ) (oldest : get_elem? w.time_wheel w.curr_pos ≡ some c) where
    turned_open :
        (i d : ℕ)
        → get_elem? (turned w c).time_wheel i ≡ some d
        → (d < w.next_channel + 1) × (contains (c ∷ w.closed) d ≡ false)
    turned_open i d e = elim (get-set w.time_wheel w.curr_pos i w.next_channel d e) [
      | inl (p, q) ↦ ground (arith, v.spent d, v.fresh w.curr_pos c oldest)
      | inr (p, q) ↦
          ground (arith, v.fresh i d q, v.open_slots i d q, v.distinct w.curr_pos i c oldest)
    ]

    turned_distinct :
        (i j d : ℕ)
        → get_elem? (turned w c).time_wheel i ≡ some d
        → get_elem? (turned w c).time_wheel j ≡ some d
        → i ≡ j
    turned_distinct i j d e f = elim (get-set w.time_wheel w.curr_pos i w.next_channel d e) [
      | inl (p, q) ↦ elim (get-set w.time_wheel w.curr_pos j w.next_channel d f) [
        | inl (p', q') ↦ omega arith
        | inr (p', q') ↦ absurd (omega (arith, v.fresh j d q'))
      ]
      | inr (p, q) ↦ elim (get-set w.time_wheel w.curr_pos j w.next_channel d f) [
        | inl (p', q') ↦ absurd (omega (arith, v.fresh i d q))
        | inr (p', q') ↦ v.distinct i j d q q'
      ]
    ]

    turned-IsWheel : IsWheel (turned w c)
    turned-IsWheel = record {
      period = v.period;
      reach = v.reach ∙ ap (λ n. w.t * n) (sym (length-set w.time_wheel w.curr_pos w.next_channel));
      within = omega (
        arith,
        length-set w.time_wheel w.curr_pos w.next_channel,
        v.within,
        mod-lt (w.curr_pos + 1) {m = length w.time_wheel} (omega (arith, v.within)),
      );
      fresh = λ i d e. (turned_open i d e).0;
      spent = λ d m. ground (arith, v.spent d, v.fresh w.curr_pos c oldest);
      open_slots = λ i d e. (turned_open i d e).1;
      distinct = turned_distinct;
    }

  pub tick-IsWheel : IsWheel (tick w)
  tick-IsWheel = let (c, oldest, e) = tick-turned in rw e (turned-IsWheel c oldest)

tick-closed :
    (w : TimeWheel) (c : ℕ) → contains w.closed c ≡ true → contains (tick w).closed c ≡ true
unfolding tick
tick-closed w c h = ground arith

ticks-closed :
    (n : ℕ) (w : TimeWheel) (c : ℕ)
    → contains w.closed c ≡ true
    → contains (ticks n w).closed c ≡ true
unfolding ticks
ticks-closed zero w c h = h
ticks-closed (suc n) w c h = ticks-closed n (tick w) c (tick-closed w c h)

slot_ne : (p k n : ℕ) → p < n → suc k < n → p ≢ (p + suc k) % n
slot_ne p k n a b e = ground (arith, wrap (p + suc k) n)

slot_shift : (p k n : ℕ) → ((p + 1) % n + k) % n ≡ (p + suc k) % n
slot_shift p k n = mod-add-mod (p + 1) n k ∙ ap (λ (m : ℕ). m % n) (omega arith)

slot_turned :
    (w : TimeWheel) (k c c' : ℕ)
    → IsWheel w
    → suc k < length w.time_wheel
    → get_elem? w.time_wheel ((w.curr_pos + suc k) % length w.time_wheel) ≡ some c
    → let u = turned w c' in
      get_elem? u.time_wheel ((u.curr_pos + k) % length u.time_wheel) ≡ some c
slot_turned w k c c' v lt e =
    rw
      (
        length-set w.time_wheel w.curr_pos w.next_channel,
        slot_shift w.curr_pos k (length w.time_wheel),
        get_elem?-set_ne w.time_wheel w.curr_pos ((w.curr_pos + suc k) % length w.time_wheel)
            w.next_channel (slot_ne w.curr_pos k (length w.time_wheel) v.within lt),
      )
      e

-- A channel `k` slots ahead closes at tick `k + 1`, and not before.
ticks_close :
    (n k c : ℕ) (w : TimeWheel)
    → IsWheel w
    → k < length w.time_wheel
    → get_elem? w.time_wheel ((w.curr_pos + k) % length w.time_wheel) ≡ some c
    → contains (ticks n w).closed c ≡ ltb k n
unfolding ticks
ticks_close zero k c w v lt e = v.open_slots _ c e ∙ ground arith
ticks_close (suc n) zero c w v lt e =
    let (c', oldest, t) = tick-turned w v in
    let here : (w.curr_pos + 0) % length w.time_wheel ≡ w.curr_pos =
      ap (λ (m : ℕ). m % length w.time_wheel) (omega arith) ∙ mod-eq_of_lt v.within in
    let same : c' ≡ c = ground (arith, rw here at e) in
    ticks-closed n (tick w) c (rw t (ground (arith, ==_self c))) ∙ ground arith
ticks_close (suc n) (suc k) c w v lt e =
    let (c', oldest, t) = tick-turned w v in
    ap (λ u. contains (ticks n u).closed c) t
    ∙ (ticks_close n k c (turned w c') (turned-IsWheel w v c' oldest)
          (omega (arith, length-set w.time_wheel w.curr_pos w.next_channel))
          (slot_turned w k c c' v lt e)
        ∙ ground arith)

slot_offset-lt :
    (w : TimeWheel) (timeout : ℕ)
    → IsWheel w
    → timeout < w.max_t
    → slot_offset w timeout < length w.time_wheel
unfolding slot_offset
slot_offset-lt w timeout v lt = ground (
  arith,
  v.within,
  (div-lt_iff_lt-mul {x = timeout} {y = length w.time_wheel} v.period).1
      (subst (λ (m : ℕ). timeout < m) (v.reach ∙ mul_comm w.t (length w.time_wheel)) lt),
)

lt→leb : (m n : ℕ) → n < m → leb m n ≡ false
lt→leb m n h = ground arith

-- `After` within the wheel's reach returns a channel that is closed after `n` ticks exactly if `n` is
-- at least the timeout in periods, and at least 1.
pub after_closes :
    (w : TimeWheel) (timeout : ℕ)
    → IsWheel w
    → timeout < w.max_t
    → (c : ℕ) × (after w timeout ≡ some c)
      × ((n : ℕ) → contains (ticks n w).closed c ≡ (ltb 0 n && leb (timeout / w.t) n))
unfolding after slot_offset
after_closes w timeout v lt =
    let len = length w.time_wheel in
    let k = slot_offset w timeout in
    let inside : k < len = slot_offset-lt w timeout v lt in
    let (c, e) =
      get_elem?_in w.time_wheel ((w.curr_pos + k) % len)
        (mod-lt (w.curr_pos + k) (omega (arith, v.within))) in
    (c, rw (lt→leb w.max_t timeout lt) e, λ n. ticks_close n k c w v inside e ∙ ground arith)
