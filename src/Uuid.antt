-- ===== src/Uuid.antt =====
-- hCommon/uuid.go. A string is the list of its bytes; what the random sources give is an argument. The numbers
-- stay below 2^63, so `int64` is ℕ.
pub mod Unique
mod Examples
use happy.Base.{
  ℕ, zero, suc, ◌+◌, ◌-◌, ◌*◌, ◌/◌, ◌%◌, ◌^◌, Bool, List, [], ◌∷◌, ◌++◌, map, ltb, if◌then◌else◌,
}

-- `digits[i]`: the ASCII digits, then the upper-case and the lower-case letters.
unfoldable pub digit : ℕ → ℕ
digit i = if ltb i 10 then 48 + i else if ltb i 36 then 55 + i else 61 + i

abbrev pub base : ℕ
base = 62

abbrev pub pre_len : ℕ
pre_len = 12

abbrev pub seq_len : ℕ
seq_len = 10

abbrev pub max_seq : ℕ
max_seq = 839299365868340224

abbrev pub min_inc : ℕ
min_inc = 33

abbrev pub max_inc : ℕ
max_inc = 333

pub record Uuid : Type 0 where
  pub pre : List ℕ
  pub seq : ℕ
  pub inc : ℕ

-- What `rand.Read`, `Int63n(maxSeq)` and `Int63n(maxInc-minInc)` give.
pub record Draw : Type 0 where
  pub bytes : List ℕ
  pub start : ℕ
  pub step : ℕ

unfoldable pub randomize_prefix : List ℕ → List ℕ
unfolding digit
randomize_prefix bytes = map (λ b. digit (b % base)) bytes

-- `NewUUID`, and what `Next` does to an exhausted one: `RandomizePrefix` and `resetSequential`.
unfoldable pub new_uuid : Draw → Uuid
unfolding randomize_prefix
new_uuid d = record { pre = randomize_prefix d.bytes; seq = d.start; inc = min_inc + d.step }

-- The loop of `Next` that fills the last `n` bytes, from the last one up.
unfoldable pub encode : ℕ → ℕ → List ℕ → List ℕ
unfolding digit
encode zero l bs = bs
encode (suc n) l bs = encode n (l / base) (digit (l % base) ∷ bs)

unfoldable pub advance : Draw → Uuid → Uuid
unfolding new_uuid
advance d u = if ltb (u.seq + u.inc) max_seq then record u { seq = u.seq + u.inc } else new_uuid d

unfoldable pub next : Draw → Uuid → Uuid × List ℕ
unfolding advance encode
next d u = let u' = advance d u in (u', u'.pre ++ encode seq_len u'.seq [])

-- The calls of `Next` one after the other, each with its draw.
unfoldable pub nexts : List Draw → Uuid → Uuid
unfolding next
nexts [] u = u
nexts (d ∷ ds) u = nexts ds (next d u).0
