-- ===== src/Ecs/Systems/Counting.antt =====
-- What the systems of hECS owe each component, as counts.
use happy.Base.{
  ℕ, ◌+◌, ◌-◌, ◌≡◌, refl, Bool, true, false, List, [], ◌∷◌, ◌++◌, map, ◌==◌, nat_eq, arith, ◌&&◌,
}
use happy.Ecs.Systems.{
  Kinds, Systems, Queue, Call, awoken, started, updated, destroyed, Event, filters, retires,
  awakens, starts_up, refreshes, tears_down, runs_custom, remove_first, remove_each, push_back,
}

abbrev pub one_if : Bool → ℕ
one_if true = 1
one_if false = 0

abbrev pub count : ℕ → List ℕ → ℕ
count c [] = 0
count c (d ∷ ds) = one_if (d == c) + count c ds

abbrev pub same : Call → Call → Bool
same (awoken c) (awoken d) = d == c
same (started c) (started d) = d == c
same (updated c) (updated d) = d == c
same (destroyed c) (destroyed d) = d == c
same _ _ = false

-- How often a call is made.
abbrev pub times : Call → List Call → ℕ
times a [] = 0
times a (b ∷ bs) = one_if (same a b) + times a bs

pub times-append : (a : Call) (xs ys : List Call) → times a (xs ++ ys) ≡ times a xs + times a ys
times-append a [] ys = omega arith
times-append a (x ∷ xs) ys = omega (arith, times-append a xs ys)

pub times-map :
    (a : Call) (c : ℕ) (f : ℕ → Call) (h : (d : ℕ) → same a (f d) ≡ (d == c)) (ds : List ℕ)
    → times a (map f ds) ≡ count c ds
times-map a c f h [] = refl
times-map a c f h (d ∷ ds) = ground (arith, h d, times-map a c f h ds)

pub times-map_other :
    (a : Call) (f : ℕ → Call) (h : (d : ℕ) → same a (f d) ≡ false) (ds : List ℕ)
    → times a (map f ds) ≡ 0
times-map_other a f h [] = refl
times-map_other a f h (d ∷ ds) = ground (arith, h d, times-map_other a f h ds)

pub count-append : (c : ℕ) (xs ys : List ℕ) → count c (xs ++ ys) ≡ count c xs + count c ys
count-append c [] ys = omega arith
count-append c (x ∷ xs) ys = omega (arith, count-append c xs ys)

pub count-remove_first :
    (c p : ℕ) (xs : List ℕ) → count c (remove_first xs p) ≡ count c xs - one_if (p == c)
unfolding remove_first
count-remove_first c p [] = ground arith
count-remove_first c p (x ∷ xs) = ground (arith, count-remove_first c p xs)

pub count-remove_each :
    (c : ℕ) (xs ps : List ℕ) → count c (remove_each xs ps) ≡ count c xs - count c ps
unfolding remove_each
count-remove_each c xs [] = omega arith
count-remove_each c xs (p ∷ ps) =
    omega (arith, count-remove_each c (remove_first xs p) ps, count-remove_first c p xs)

-- The abstract view of one component: the calls it is owed, and its place in the update system.
pub record Watch : Type 0 where
  pub awake : ℕ
  pub start : ℕ
  pub live : ℕ
  pub added : ℕ
  pub removed : ℕ
  pub destroy : ℕ

-- The calls a component gets.
pub record Tally : Type 0 where
  pub awoken : ℕ
  pub started : ℕ
  pub updated : ℕ
  pub destroyed : ℕ

-- A component that no system knows.
abbrev pub unknown : Watch
unknown = record { awake = 0; start = 0; live = 0; added = 0; removed = 0; destroy = 0 }

abbrev pub observe : {S : Type 0} → ℕ → Systems S → Watch
observe c r = record {
  awake = count c r.awake.components;
  start = count c r.start.components;
  live = count c r.update.components;
  added = count c r.update.push;
  removed = count c r.update.pop;
  destroy = count c r.destroy.components;
}

abbrev pub tally : ℕ → List Call → Tally
tally c calls = record {
  awoken = times (awoken c) calls;
  started = times (started c) calls;
  updated = times (updated c) calls;
  destroyed = times (destroyed c) calls;
}

abbrev pub no_calls : Tally
no_calls = record { awoken = 0; started = 0; updated = 0; destroyed = 0 }

abbrev pub both : Tally → Tally → Tally
both a b = record {
  awoken = a.awoken + b.awoken;
  started = a.started + b.started;
  updated = a.updated + b.updated;
  destroyed = a.destroyed + b.destroyed;
}

module _ (kinds : Kinds) (c : ℕ) where
  open kinds use {awakes, starts, updates, destroys}

  -- Adding a component owes it what it implements; it is updated from the next refresh on, as often as it has been
  -- added and not removed.
  abbrev pub expect : Event → Watch → Watch × Tally
  expect (filters d) w = (
    record w {
      awake = w.awake + one_if (d == c && awakes c);
      start = w.start + one_if (d == c && starts c);
      added = w.added + one_if (d == c && updates c);
    },
    no_calls,
  )
  expect (retires d) w = (
    record w {
      removed = w.removed + one_if (d == c && updates c);
      destroy = w.destroy + one_if (d == c && destroys c);
    },
    no_calls,
  )
  expect awakens w = (record w { awake = 0 }, record no_calls { awoken = w.awake })
  expect starts_up w = (record w { start = 0 }, record no_calls { started = w.start })
  expect refreshes w =
      let live = w.live + w.added - w.removed in
      (record w { live = live; added = 0; removed = 0 }, record no_calls { updated = live })
  expect tears_down w = (record w { destroy = 0 }, record no_calls { destroyed = w.destroy })
  expect runs_custom w = (w, no_calls)

  abbrev pub expect_all : List Event → Watch → Watch × Tally
  expect_all [] w = (w, no_calls)
  expect_all (e ∷ es) w =
      let (w', t) = expect e w in let (w'', t') = expect_all es w' in (w'', both t t')

-- Between the phases the second lists are empty.
abbrev pub IsIdle : {S : Type 0} → Systems S → Type 0
IsIdle r = (r.awake.temp ≡ []) × (r.start.temp ≡ []) × (r.destroy.temp ≡ [])

pub count-push_back :
    (c d : ℕ) (b : Bool) (q : Queue)
    → count c (push_back b d q).components ≡ count c q.components + one_if (d == c && b)
count-push_back c d true q = ground (arith, count-append c q.components (d ∷ []))
count-push_back c d false q = ground arith
