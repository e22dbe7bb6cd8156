-- ===== src/Uuid/Unique.antt =====
-- The strings of hCommon/uuid.go differ.
use mathlib.Core.List.{append_cancel_left}
use native.Mathlib.Nat.{div-lt_iff_lt-mul, mod-lt, div-add-mod', pow-suc, pow-zero, mul-div_cancel}
use happy.Base.{
  ℕ, zero, suc, ◌+◌, ◌-◌, ◌*◌, ◌/◌, ◌%◌, ◌^◌, ◌≤◌, ◌<◌, ◌≡◌, ◌≢◌, refl, sym, ap, ◌∙◌, List, [], ◌∷◌,
  ◌++◌, map, length, length-append, ltb, lt→ltb, ltb→lt, if◌then◌else◌, arith, inl, inr, Bool-cases,
}
use happy.Uuid.{
  digit, base, pre_len, seq_len, max_seq, min_inc, max_inc, Uuid, Draw, randomize_prefix, new_uuid,
  encode, advance, next, nexts,
}

-- The value of a digit, and of a list of digits.
abbrev value : ℕ → ℕ
value c = if ltb c 58 then c - 48 else if ltb c 91 then c - 55 else c - 61

abbrev decode : ℕ → List ℕ → ℕ
decode acc [] = acc
decode acc (c ∷ cs) = decode (acc * base + value c) cs

value-digit : (i : ℕ) → i < base → value (digit i) ≡ i
unfolding digit
value-digit i h = ground arith

decode-encode : (n l : ℕ) (bs : List ℕ) → l < base ^ n → decode 0 (encode n l bs) ≡ decode l bs
unfolding encode
decode-encode zero l bs h = ap (λ x. decode x bs) (omega (arith, pow-zero base))
decode-encode (suc n) l bs h =
    let rest : decode 0 (encode n (l / base) (digit (l % base) ∷ bs))
        ≡ decode (l / base) (digit (l % base) ∷ bs) =
      decode-encode n (l / base) (digit (l % base) ∷ bs) (
        (div-lt_iff_lt-mul {k = base} {x = l} {y = base ^ n} (omega arith)).1
          (omega (arith, pow-suc base n, h))) in
    let back : l / base * base + value (digit (l % base)) ≡ l =
      ap (λ v. l / base * base + v) (value-digit (l % base) (mod-lt l (omega arith)))
      ∙ div-add-mod' l base in
    rest ∙ ap (λ x. decode x bs) back

-- Two numbers below the largest have different digits.
pub encode-injective :
    (l k : ℕ) → l < max_seq → k < max_seq → encode seq_len l [] ≡ encode seq_len k [] → l ≡ k
encode-injective l k hl hk e =
    sym (decode-encode seq_len l [] hl) ∙ ap (decode 0) e ∙ decode-encode seq_len k [] hk

length-encode : (n l : ℕ) (bs : List ℕ) → length (encode n l bs) ≡ n + length bs
unfolding encode
length-encode zero l bs = omega arith
length-encode (suc n) l bs = omega (arith, length-encode n (l / base) (digit (l % base) ∷ bs))

-- What every state keeps, and what a draw is.
abbrev pub IsUuid : Uuid → Type 0
IsUuid u = (length u.pre ≡ pre_len) × (u.seq < max_seq) × (min_inc ≤ u.inc) × (u.inc < max_inc)

abbrev pub IsDraw : Draw → Type 0
IsDraw d = (length d.bytes ≡ pre_len) × (d.start < max_seq) × (d.step < max_inc - min_inc)

length-map : {A B : Type 0} (f : A → B) (xs : List A) → length (map f xs) ≡ length xs
length-map f [] = refl
length-map f (x ∷ xs) = ap suc (length-map f xs)

pub new_uuid-IsUuid : (d : Draw) → IsDraw d → IsUuid (new_uuid d)
unfolding new_uuid randomize_prefix
new_uuid-IsUuid d (b, s, i) =
    (length-map (λ b. digit (b % base)) d.bytes ∙ b, s, omega arith, omega (arith, i))

pub advance-IsUuid : (d : Draw) (u : Uuid) → IsDraw d → IsUuid u → IsUuid (advance d u)
unfolding advance
advance-IsUuid d u v (p, s, low, high) = elim (Bool-cases (ltb (u.seq + u.inc) max_seq)) [
  | inl fits ↦ rw fits (p, ltb→lt _ _ fits, low, high)
  | inr full ↦ rw full (new_uuid-IsUuid d v)
]

-- A state keeps its form, and every string has the 22 bytes of `totalLen`.
pub next-IsUuid :
    (d : Draw) (u : Uuid)
    → IsDraw d
    → IsUuid u
    → IsUuid (next d u).0 × (length (next d u).1 ≡ pre_len + seq_len)
unfolding next
next-IsUuid d u v w =
    let w' = advance-IsUuid d u v w in
    (
      w',
      omega (
        arith,
        length-append {0} (advance d u).pre (encode seq_len (advance d u).seq []),
        length-encode seq_len (advance d u).seq [],
        w'.0,
      ),
    )

advance_fits :
    (d : Draw) (u : Uuid) → u.seq + u.inc < max_seq → advance d u ≡ record u { seq = u.seq + u.inc }
unfolding advance
advance_fits d u h = rw (lt→ltb _ _ h) refl

nexts_fit :
    (ds : List Draw) (u : Uuid)
    → u.seq + length ds * u.inc < max_seq
    → nexts ds u ≡ record u { seq = u.seq + length ds * u.inc }
unfolding nexts next
nexts_fit [] u h = ap (λ s. record u { seq = s }) (omega arith)
nexts_fit (d ∷ ds) u h =
    let u1 : Uuid = record u { seq = u.seq + u.inc } in
    ap (nexts ds) (advance_fits d u (omega (arith, h)))
    ∙ nexts_fit ds u1 (omega (arith, h))
    ∙ ap (λ s. record u { seq = s }) (omega arith)

next_fits :
    (ds : List Draw) (d : Draw) (u : Uuid)
    → u.seq + suc (length ds) * u.inc < max_seq
    → (next d (nexts ds u)).1 ≡ u.pre ++ encode seq_len (u.seq + suc (length ds) * u.inc) []
unfolding next
next_fits ds d u h =
    let v : Uuid = record u { seq = u.seq + length ds * u.inc } in
    let state : advance d (nexts ds u) ≡ record u { seq = u.seq + suc (length ds) * u.inc } =
      ap (advance d) (nexts_fit ds u (omega (arith, h)))
      ∙ advance_fits d v (omega (arith, h))
      ∙ ap (λ s. record u { seq = s }) (omega arith) in
    ap (λ (w : Uuid). w.pre ++ encode seq_len w.seq []) state

-- As long as the sequential part is not used up, no two calls of `Next` give the same string: the call after
-- the calls `ds` and the call after `es` differ, if these are not equally many.
pub next-distinct :
    (u : Uuid) (ds es : List Draw) (d e : Draw)
    → 0 < u.inc
    → u.seq + suc (length ds) * u.inc < max_seq
    → u.seq + suc (length es) * u.inc < max_seq
    → length ds ≢ length es
    → (next d (nexts ds u)).1 ≢ (next e (nexts es u)).1
next-distinct u ds es d e h hd he differ same =
    let digits_same =
      append_cancel_left u.pre _ _ (sym (next_fits ds d u hd) ∙ same ∙ next_fits es e u he) in
    let seq_same : u.seq + suc (length ds) * u.inc ≡ u.seq + suc (length es) * u.inc =
      encode-injective _ _ hd he digits_same in
    let product : suc (length ds) * u.inc ≡ suc (length es) * u.inc = omega (arith, seq_same) in
    let count : suc (length ds) ≡ suc (length es) =
      sym (mul-div_cancel (suc (length ds)) h)
      ∙ ap (λ x. x / u.inc) product
      ∙ mul-div_cancel (suc (length es)) h in
    differ (omega (arith, count))
