-- ===== src/Rpc/Heartbeat/Locking.antt =====
-- How the mutex of hRpc/client.go is held for ever.
use happy.Base.{
  ◌-◌, ℕ, zero, suc, ◌+◌, ◌≤◌, ◌≡◌, refl, sym, ◌∙◌, subst, Bool, true, false, List, ◌∷◌, arith,
}
use happy.Rpc.Heartbeat.{
  Stage, selecting, calling, waiting, giving_up, closing_itself, returned, Heart, counted,
  close_itself, Step, ticks, receives, refused, calls, answered, times_out, gives_up, closes, shuts,
  Steps, here, next,
}

-- The heartbeat neither receives from the channel nor will.
abbrev pub IsDeaf : Stage → Type 0
IsDeaf selecting = ⊥
IsDeaf waiting = ⊥
IsDeaf calling = Unit
IsDeaf giving_up = Unit
IsDeaf closing_itself = Unit
IsDeaf returned = Unit

abbrev pub IsLocked : Heart → Type 0
IsLocked h = (h.sender ≡ true) × IsDeaf h.stage

no_step : {h i : Heart} → Step h i → IsLocked h → i ≡ h
no_step (ticks h e) k = absurd (subst IsDeaf e k.1)
no_step (receives h e s) k = absurd (subst IsDeaf e k.1)
no_step (refused h e s c) k = absurd (let bad : true ≡ false = sym k.0 ∙ s in cc)
no_step (calls h e s c) k = absurd (let bad : true ≡ false = sym k.0 ∙ s in cc)
no_step (answered h ok e s) k = absurd (let bad : true ≡ false = sym k.0 ∙ s in cc)
no_step (times_out h e) k = absurd (subst IsDeaf e k.1)
no_step (gives_up h e s) k = absurd (let bad : true ≡ false = sym k.0 ∙ s in cc)
no_step (closes h s c) k = absurd (let bad : true ≡ false = sym k.0 ∙ s in cc)
no_step (shuts h s) k = absurd (let bad : true ≡ false = sym k.0 ∙ s in cc)

Steps-locked : (h : Heart) {i : Heart} → IsLocked h → Steps h i → i ≡ h
Steps-locked h k here = refl
Steps-locked h k (next r s) =
    let same = Steps-locked h k r in no_step s (subst IsLocked (sym same) k) ∙ same

-- A client whose heartbeat is in the select, with `n` calls failed in a row.
abbrev pub missing : ℕ → List Bool → Heart
missing n rs = record {
  stage = selecting;
  ping_count = n;
  closing = false;
  shutdown = false;
  sender = false;
  results = rs;
}

-- One more call that is not answered in time.
abbrev missed : Heart → Heart
missed h = counted false (record h { stage = waiting })

misses_one :
    {h : Heart} (n : ℕ) (rs : List Bool) → Steps h (missing n rs) → Steps h (missed (missing n rs))
misses_one n rs r =
    next
      (next (next r (ticks (missing n rs) refl))
        (calls (record (missing n rs) { stage = calling }) refl refl refl))
      (times_out (record (missing n rs) { stage = waiting }) refl)

misses_few :
    {h : Heart} (n : ℕ) (rs : List Bool)
    → n ≤ 2
    → Steps h (missing n rs)
    → Steps h (missing (n + 1) (false ∷ rs))
unfolding counted
misses_few {h} n rs few r = subst (Steps h) (ground (arith, few)) (misses_one n rs r)

-- The fourth miss: the heartbeat closes the client.
abbrev locked : List Bool → Heart
locked rs = close_itself (missed (missing 3 rs))

locks : {h : Heart} (rs : List Bool) → Steps h (missing 3 rs) → Steps h (locked rs)
unfolding counted
locks rs r = next (misses_one 3 rs r) (gives_up (missed (missing 3 rs)) refl refl)

misses_up_to :
    {h : Heart} (m n : ℕ) (rs : List Bool)
    → n + m ≡ 3
    → Steps h (missing n rs)
    → (qs : List Bool) × Steps h (locked qs)
misses_up_to {h} zero n rs e r =
    (rs, locks rs (subst (λ k. Steps h (missing k rs)) (omega (arith, e)) r))
misses_up_to (suc m) n rs e r =
    misses_up_to m (n + 1) (false ∷ rs) (omega (arith, e)) (misses_few n rs (omega (arith, e)) r)

-- Calls of the heartbeat that are not answered in time can bring a client with at most three misses to a state in which
-- a Close holds the mutex, and the heartbeat does not receive; and there no step is possible any more, so that the mutex
-- is held for ever.
pub misses-IsLocked :
    (n : ℕ) (rs : List Bool)
    → n ≤ 3
    → (t : Heart) × Steps (missing n rs) t × IsLocked t × ((u : Heart) → Steps t u → u ≡ t)
unfolding counted close_itself
misses-IsLocked n rs few =
    let (qs, r) = misses_up_to {h = missing n rs} (3 - n) n rs (omega (arith, few)) here in
    (locked qs, r, (refl, tt), λ u s. Steps-locked (locked qs) (refl, tt) s)
