-- ===== src/Rpc/Heartbeat/Counting.antt =====
-- When the heartbeat of hRpc/client.go gives up.
use happy.Base.{
  ℕ, suc, ◌+◌, ◌≤◌, ◌<◌, ◌≡◌, refl, subst, Bool, true, false, List, [], ◌∷◌, ltb, arith, Bool-cases,
  inl, inr,
}
use happy.Rpc.Heartbeat.{
  Stage, selecting, calling, waiting, giving_up, closing_itself, returned, Heart, new_heart,
  counted, close_itself, Step, ticks, receives, refused, calls, answered, times_out, gives_up,
  closes, shuts, Steps, here, next,
}

-- How many of the last calls have failed in a row.
abbrev pub misses : List Bool → ℕ
misses [] = 0
misses (true ∷ rs) = 0
misses (false ∷ rs) = suc (misses rs)

abbrev pub IsInTime : Stage → ℕ → Type 0
IsInTime selecting n = n ≤ 3
IsInTime calling n = n ≤ 3
IsInTime waiting n = n ≤ 3
IsInTime giving_up n = 3 < n
IsInTime closing_itself n = 3 < n
IsInTime returned n = Unit

abbrev pub IsCounted : Heart → Type 0
IsCounted h = (h.ping_count ≡ misses h.results) × IsInTime h.stage (misses h.results)

counted-IsCounted : (ok : Bool) (h : Heart) → IsCounted h → IsCounted (counted ok h)
unfolding counted
counted-IsCounted true h k = (refl, omega arith)
counted-IsCounted false h k = elim (Bool-cases (ltb 3 (h.ping_count + 1))) [
  | inl many ↦ rw many (ground (arith, many, k.0))
  | inr few ↦ rw few (ground (arith, few, k.0))
]

close_itself-IsCounted :
    (h : Heart) → h.stage ≡ giving_up → IsCounted h → IsCounted (close_itself h)
unfolding close_itself
close_itself-IsCounted h e k = elim (Bool-cases h.closing) [
  | inl shut ↦ rw shut (k.0, tt)
  | inr open_ ↦ rw open_ (k.0, subst (λ s. IsInTime s (misses h.results)) e k.1)
]

Step-IsCounted : {h i : Heart} → Step h i → IsCounted h → IsCounted i
Step-IsCounted (ticks h e) k = (k.0, subst (λ s. IsInTime s (misses h.results)) e k.1)
Step-IsCounted (receives h e s) k = (k.0, tt)
Step-IsCounted (refused h e s c) k = counted-IsCounted false h k
Step-IsCounted (calls h e s c) k = (k.0, subst (λ s. IsInTime s (misses h.results)) e k.1)
Step-IsCounted (answered h ok e s) k = counted-IsCounted ok h k
Step-IsCounted (times_out h e) k = counted-IsCounted false h k
Step-IsCounted (gives_up h e s) k = close_itself-IsCounted h e k
Step-IsCounted (closes h s c) k = k
Step-IsCounted (shuts h s) k = k

-- Whatever happens to a new client, the heartbeat goes on only while at most three of its last calls have failed in a
-- row, and gives up, to close the client, only if four have.
pub Steps-IsCounted : (debug_mode : Bool) {h : Heart} → Steps (new_heart debug_mode) h → IsCounted h
unfolding new_heart
Steps-IsCounted true here = (refl, tt)
Steps-IsCounted false here = (refl, omega arith)
Steps-IsCounted debug_mode (next r s) = Step-IsCounted s (Steps-IsCounted debug_mode r)
