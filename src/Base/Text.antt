-- ===== src/Base/Text.antt =====
-- Go's strings, as far as the source uses them: `fmt.Sprintf("%d", n)` of a count.
use Prim.Native.Nat.{ℕ, zero, suc, ◌/◌, ◌%◌}
use Prim.Native.String.{String, ◌++◌}
use mathlib.Core.List.{List, [], ◌∷◌}
use mathlib.Core.Path.{◌≡◌, refl}
use happy.Base.Tests.{ltb, if◌then◌else◌}
use happy.Base.Lists.{get_or}

abbrev digit_texts : List String
digit_texts = "0" ∷ "1" ∷ "2" ∷ "3" ∷ "4" ∷ "5" ∷ "6" ∷ "7" ∷ "8" ∷ "9" ∷ []

decimal : ℕ → ℕ → String
decimal zero n = ""
decimal (suc fuel) n =
    let high = decimal fuel (n / 10) in
    let low = get_or digit_texts (n % 10) "0" in if ltb n 10 then low else high ++ low

-- `%d`. A number has at most as many digits as its successor says, so the fuel is enough.
unfoldable pub itoa : ℕ → String
unfolding decimal
itoa n = decimal (suc n) n

itoa_runs : itoa 4070 ≡ "4070"
unfolding itoa
itoa_runs = refl
