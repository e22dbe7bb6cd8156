-- ===== src/Uuid/Examples.antt =====
-- Tests of hCommon/uuid.go and the theorems on short states.
use happy.Base.{ℕ, ◌^◌, ◌≡◌, ◌≢◌, refl, List, [], ◌∷◌, arith}
use happy.Uuid.{Uuid, Draw, base, seq_len, max_seq, digit, encode, next, nexts}
use happy.Uuid.Unique.{next-distinct}

max_seq_power : max_seq ≡ base ^ seq_len
max_seq_power = refl

encode_small : encode 3 3905 [] ≡ 49 ∷ 48 ∷ 122 ∷ []
unfolding encode digit
encode_small = refl

abbrev zeros : List ℕ
zeros = 48 ∷ 48 ∷ 48 ∷ 48 ∷ 48 ∷ 48 ∷ 48 ∷ 48 ∷ 48 ∷ 48 ∷ 48 ∷ 48 ∷ []

abbrev fresh : Uuid
fresh = record { pre = zeros; seq = 5; inc = 40 }

abbrev draw : Draw
draw = record { bytes = zeros; start = 9; step = 3 }

-- The first two calls.
next-distinct_example : (next draw (nexts [] fresh)).1 ≢ (next draw (nexts (draw ∷ []) fresh)).1
next-distinct_example =
    next-distinct fresh [] (draw ∷ []) draw draw (omega arith) (omega arith) (omega arith)
      (λ p. omega (arith, p))
