-- ===== src/Actor/Address.antt =====
-- The written form of an actor's address: hActor/ActorID.go.
use happy.Base.{
  Eq, ℕ, ◌≡◌, refl, sym, ap, ◌∙◌, true, false, some, List, [], ◌∷◌, ◌++◌, length, ◌==◌, nat_eq,
  arith, inl, inr, Bool-cases, All, contains, ◌↔◌, ==→≡, ==→≢,
}
use happy.Actor.{
  Str, ActorId, colon, str_equal, equal_loop, equal, join_loop, to_string, split, parse,
}

-- No part has a colon.
abbrev pub IsPlain : ActorId → Type 0
IsPlain ps = All (λ p. contains p colon ≡ false) ps

pub split-plain : (p : Str) → contains p colon ≡ false → split p ≡ p ∷ []
unfolding split
split-plain [] h = refl
split-plain (c ∷ cs) h = ground (arith, split-plain cs (ground arith), h)

pub split-join :
    (p : Str) (s : Str) → contains p colon ≡ false → split (p ++ colon ∷ s) ≡ p ∷ split s
unfolding split
split-join [] s h = refl
split-join (c ∷ cs) s h = ground (arith, split-join cs s (ground arith), h)

split-join_loop : (p : Str) (ps : List Str) → IsPlain (p ∷ ps) → split (join_loop (p ∷ ps)) ≡ p ∷ ps
unfolding join_loop
split-join_loop p [] h = split-plain p h.0
split-join_loop p (q ∷ ps) h =
    split-join p (join_loop (q ∷ ps)) h.0 ∙ ap (λ r. p ∷ r) (split-join_loop q ps h.1)

-- An address of three parts without colons is read back from its string as it was.
pub parse-to_string :
    (ip port local : Str)
    → contains ip colon ≡ false
    → contains port colon ≡ false
    → contains local colon ≡ false
    → parse (to_string (ip ∷ port ∷ local ∷ [])) ≡ some (ip ∷ port ∷ local ∷ [])
unfolding parse to_string
parse-to_string ip port local hi hp hl =
    rw (split-join_loop ip (port ∷ local ∷ []) (hi, (hp, (hl, tt)))) refl

join_loop-first :
    (c : ℕ) (p : Str) (ps : List Str) → join_loop ((c ∷ p) ∷ ps) ≡ c ∷ join_loop (p ∷ ps)
unfolding join_loop
join_loop-first c p [] = refl
join_loop-first c p (q ∷ ps) = refl

split-parts : (s : Str) → (p : Str) × (ps : List Str) × (split s ≡ p ∷ ps)
unfolding split
split-parts [] = ([], [], refl)
split-parts (c ∷ cs) =
    let (p, ps, e) = split-parts cs in
    elim (Bool-cases (c == colon)) [
      | inl sep ↦ ([], split cs, rw sep refl)
      | inr plain ↦ (c ∷ p, ps, rw (plain, e) refl)
    ]

join_loop-split : (s : Str) → join_loop (split s) ≡ s
unfolding split join_loop
join_loop-split [] = refl
join_loop-split (c ∷ cs) =
    let (p, ps, e) = split-parts cs in
    let rest : join_loop (p ∷ ps) ≡ cs = sym (ap join_loop e) ∙ join_loop-split cs in
    elim (Bool-cases (c == colon)) [
      | inl sep ↦ rw (sep, e) (ap (λ r. colon ∷ r) rest ∙ ap (λ d. d ∷ cs) (sym (==→≡ c colon sep)))
      | inr plain ↦ rw (plain, e) (join_loop-first c p ps ∙ ap (λ r. c ∷ r) rest)
    ]

to_string-split : (s : Str) → to_string (split s) ≡ s
unfolding to_string
to_string-split s =
    let (p, ps, e) = split-parts s in ap to_string e ∙ sym (ap join_loop e) ∙ join_loop-split s

-- What `Parse` accepts it prints as it was.
pub to_string-parse :
    (s : Str) (id : ActorId) → parse s ≡ some id → (to_string id ≡ s) × (length id ≡ 3)
unfolding parse
to_string-parse s id h = elim (Bool-cases (length (split s) == 3)) [
  | inl three ↦
      let same : split s ≡ id = ground (arith, h, three) in
      (ap to_string (sym same) ∙ to_string-split s, ap length (sym same) ∙ ==→≡ _ _ three)
  | inr other ↦ absurd (ground (arith, h, other))
]

pub str_equal_iff : (s t : Str) → (str_equal s t ≡ true) ↔ (s ≡ t)
unfolding str_equal
str_equal_iff [] [] = (λ h. refl, λ h. refl)
str_equal_iff [] (y ∷ ys) = (λ h. cc, λ h. cc)
str_equal_iff (x ∷ xs) [] = (λ h. cc, λ h. cc)
str_equal_iff (x ∷ xs) (y ∷ ys) = ground (arith, str_equal_iff xs ys)

equal_loop_iff : (a b : ActorId) → length a ≡ length b → (equal_loop a b ≡ true) ↔ (a ≡ b)
unfolding equal_loop
equal_loop_iff [] [] h = (λ e. refl, λ e. refl)
equal_loop_iff [] (y ∷ ys) h = absurd (omega (arith, h))
equal_loop_iff (x ∷ xs) [] h = absurd (omega (arith, h))
equal_loop_iff (x ∷ xs) (y ∷ ys) h =
    ground (arith, str_equal_iff x y, equal_loop_iff xs ys (omega (arith, h)))

-- `Equal` holds exactly of addresses with the same parts.
pub equal_iff : (a b : ActorId) → (equal a b ≡ true) ↔ (a ≡ b)
unfolding equal
equal_iff a b = elim (Bool-cases (length a == length b)) [
  | inl same ↦ rw same (equal_loop_iff a b (==→≡ _ _ same))
  | inr other ↦ rw other ((λ h. absurd cc), (λ h. absurd (==→≢ _ _ other (ap length h))))
]

-- Strings of bytes compare as Go's do.
instance abbrev pub str_eq : Eq Str
str_eq = record { beq_iff = str_equal_iff; beq = str_equal }
