-- ===== src/Iter/Drain.antt =====
-- What the iterators of hCommon/iter give.
use mathlib.Core.List.{append_assoc}
use happy.Base.{
  ℕ, suc, ◌≡◌, refl, sym, ap, ◌∙◌, subst, false, Option, none, some, List, [], ◌∷◌, ◌++◌, get_elem?,
  length, length-append, arith,
}
use happy.Iter.{
  advance, Result, value, ends, fails, Iterator, ListIter, JoinIter, from_list, list_next,
  from_value, value_next, list_iterator, value_iterator, next_iterator, next_value, join_next, join,
  join_iterator, drain, collect, count,
}

get_at : {A : Type 0} (pre xs : List A) (x : A) → get_elem? (pre ++ x ∷ xs) (length pre) ≡ some x
get_at [] xs x = refl
get_at (p ∷ pre) xs x = get_at pre xs x

get_end : {A : Type 0} (pre : List A) → get_elem? (pre ++ []) (length pre) ≡ none
get_end [] = refl
get_end (p ∷ pre) = get_end pre

abbrev pub concat : {A : Type 0} → List (List A) → List A
concat [] = []
concat (vs ∷ vss) = vs ++ concat vss

module _ {A E : Type 0} where
  -- From this state the iterator gives exactly these values and then `ErrEndIteration`.
  abbrev pub Gives : (I : Iterator A E) → I.State → List A → Type 0
  Gives I s [] = (I.next s).1 ≡ ends
  Gives I s (v ∷ vs) = ((I.next s).1 ≡ value v) × Gives I (I.next s).0 vs

  abbrev pub GivesEach : (I : Iterator A E) → List I.State → List (List A) → Type 0
  GivesEach I [] [] = Unit
  GivesEach I [] (vs ∷ vss) = ⊥
  GivesEach I (s ∷ ss) [] = ⊥
  GivesEach I (s ∷ ss) (vs ∷ vss) = Gives I s vs × GivesEach I ss vss

  list_next_at :
      (pre xs : List A) (x : A) (c : Option ℕ)
      → advance c ≡ length pre
      → list_next {E = E} (record { container = pre ++ x ∷ xs; cursor = c; ended = false })
        ≡ (record { container = pre ++ x ∷ xs; cursor = some (length pre); ended = false }, value x)
  unfolding list_next
  list_next_at pre xs x c h =
      rw (h, get_at pre xs x)
        (ap (λ k. (record { container = pre ++ x ∷ xs; cursor = some k; ended = false }, value x))
          h)

  list_next_end :
      (pre : List A) (c : Option ℕ)
      → advance c ≡ length pre
      → (list_next {E = E} (record { container = pre ++ []; cursor = c; ended = false })).1 ≡ ends
  unfolding list_next
  list_next_end pre c h = rw (h, get_end pre) refl

module _ {A : Type 0} (E : Type 0) where
  -- An iterator over one value gives it.
  pub from_value-Gives : (v : A) → Gives (value_iterator {A = A} {E = E}) (from_value v) (v ∷ [])
  unfolding value_next from_value
  from_value-Gives v = (refl, refl)

  list_next-Gives :
      (pre xs : List A) (c : Option ℕ)
      → advance c ≡ length pre
      → Gives
          (list_iterator {A = A} {E = E})
          (record { container = pre ++ xs; cursor = c; ended = false })
          xs
  list_next-Gives pre [] c h = list_next_end pre c h
  list_next-Gives pre (x ∷ xs) c h =
      let I = list_iterator {A = A} {E = E} in
      let now = list_next_at {E = E} pre xs x c h in
      let next : suc (length pre) ≡ length (pre ++ x ∷ []) =
        omega (arith, length-append {0} pre (x ∷ [])) in
      let more = list_next-Gives (pre ++ x ∷ []) xs (some (length pre)) next in
      (
        ap (λ (p : ListIter A × Result A E). p.1) now,
        subst (λ (p : ListIter A × Result A E). Gives I p.0 xs) (sym now)
            (subst
              (λ ys.
                Gives I (record { container = ys; cursor = some (length pre); ended = false }) xs)
              (append_assoc pre (x ∷ []) xs) more),
      )

  -- An iterator over a list gives its elements in order.
  pub from_list-Gives : (xs : List A) → Gives (list_iterator {A = A} {E = E}) (from_list xs) xs
  unfolding from_list
  from_list-Gives xs = list_next-Gives [] xs none refl

module _ {A E : Type 0} where
  -- The same of what a call of `Next` returned.
  abbrev Continues : (J : Iterator A E) → J.State × Result A E → List A → Type 0
  Continues J p [] = p.1 ≡ ends
  Continues J p (v ∷ vs) = (p.1 ≡ value v) × Gives J p.0 vs

  Continues-Gives :
      (J : Iterator A E) (s : J.State) (vs : List A) → Continues J (J.next s) vs → Gives J s vs
  Continues-Gives J s [] h = h
  Continues-Gives J s (v ∷ vs) h = h

  module _ (I : Iterator A E) (nil : A) where
    next_iterator_ends :
        (s : I.State) (rest : List I.State)
        → (I.next s).1 ≡ ends
        → next_iterator I nil (s ∷ rest) ≡ next_iterator I nil rest
    unfolding next_iterator
    next_iterator_ends s rest h =
        ap
          (λ (r : Result A E). elim r as (λ x. JoinIter I.State A E × Result A E) [
            | value v ↦ (record { rest = rest; current = some (I.next s).0; err = none }, value v)
            | ends ↦ next_iterator I nil rest
            | fails e ↦ (record { rest = rest; current = some (I.next s).0; err = none }, value nil)
          ])
          h

    next_iterator-value :
        (s : I.State) (rest : List I.State) (v : A)
        → (I.next s).1 ≡ value v
        → next_iterator I nil (s ∷ rest)
          ≡ (record { rest = rest; current = some (I.next s).0; err = none }, value v)
    unfolding next_iterator
    next_iterator-value s rest v h =
        ap
          (λ (r : Result A E). elim r as (λ x. JoinIter I.State A E × Result A E) [
            | value v ↦ (record { rest = rest; current = some (I.next s).0; err = none }, value v)
            | ends ↦ next_iterator I nil rest
            | fails e ↦ (record { rest = rest; current = some (I.next s).0; err = none }, value nil)
          ])
          h

    join_next_current :
        (s : I.State) (rest : List I.State)
        → join_next I nil (record { rest = rest; current = some s; err = none })
          ≡ next_iterator I nil (s ∷ rest)
    unfolding join_next next_value
    join_next_current s rest = refl

    join_next_start : (ss : List I.State) → join_next I nil (join ss) ≡ next_iterator I nil ss
    unfolding join_next next_value join
    join_next_start ss = refl

    current-Continues :
        (s : I.State) (vs : List A) (rest : List I.State) (ws : List A)
        → Gives I s vs
        → Continues (join_iterator I nil) (next_iterator I nil rest) ws
        → Continues (join_iterator I nil) (next_iterator I nil (s ∷ rest)) (vs ++ ws)
    current-Continues s [] rest ws g h =
        subst (λ p. Continues (join_iterator I nil) p ws) (sym (next_iterator_ends s rest g)) h
    current-Continues s (v ∷ vs) rest ws g h =
        subst (λ p. Continues (join_iterator I nil) p (v ∷ vs ++ ws))
          (sym (next_iterator-value s rest v g.0))
          (
            refl,
            Continues-Gives (join_iterator I nil)
                (record { rest = rest; current = some (I.next s).0; err = none }) (vs ++ ws)
                (subst (λ p. Continues (join_iterator I nil) p (vs ++ ws))
                  (sym (join_next_current (I.next s).0 rest))
                  (current-Continues (I.next s).0 vs rest ws g.1 h)),
          )

    rest-Continues :
        (rest : List I.State) (vss : List (List A))
        → GivesEach I rest vss
        → Continues (join_iterator I nil) (next_iterator I nil rest) (concat vss)
    rest-Continues [] [] g = (unfold next_iterator in refl)
    rest-Continues [] (vs ∷ vss) g = elim g [ ]
    rest-Continues (s ∷ rest) [] g = elim g [ ]
    rest-Continues (s ∷ rest) (vs ∷ vss) g =
        current-Continues s vs rest (concat vss) g.0 (rest-Continues rest vss g.1)

    -- `Join` of iterators that each give their values and end gives all these values, in the order of the
    -- iterators, and ends.
    pub join-Gives :
        (ss : List I.State) (vss : List (List A))
        → GivesEach I ss vss
        → Gives (join_iterator I nil) (join ss) (concat vss)
    join-Gives ss vss g = Continues-Gives (join_iterator I nil) (join ss) (concat vss) (
        subst (λ p. Continues (join_iterator I nil) p (concat vss)) (sym (join_next_start ss))
          (rest-Continues ss vss g))

  drain-Gives :
      (I : Iterator A E) (s : I.State) (vs : List A)
      → Gives I s vs
      → drain I (suc (length vs)) s ≡ some (vs, ends)
  unfolding drain
  drain-Gives I s [] g =
      ap
        (λ (r : Result A E). elim r as (λ x. Option (List A × Result A E)) [
          | value v ↦ none
          | ends ↦ some ([], ends)
          | fails e ↦ some ([], fails e)
        ])
        g
  drain-Gives I s (v ∷ vs) g =
      let more : Option (List A × Result A E) = drain I (suc (length vs)) (I.next s).0 in
      ap
        (λ (r : Result A E). elim r as (λ x. Option (List A × Result A E)) [
          | value w ↦ elim more as (λ x. Option (List A × Result A E)) [
            | none ↦ none
            | some (ws, e) ↦ some (w ∷ ws, e)
          ]
          | ends ↦ some ([], ends)
          | fails e ↦ some ([], fails e)
        ])
        g.0
      ∙ ap
          (λ (o : Option (List A × Result A E)). elim o as (λ x. Option (List A × Result A E)) [
            | none ↦ none
            | some (ws, e) ↦ some (v ∷ ws, e)
          ])
          (drain-Gives I (I.next s).0 vs g.1)

  -- `Collect` and `Count` of an iterator that gives its values and ends are always the error
  -- `ErrEndIteration`, with no values and 0, however many there are. The fuel is one more than the values.
  pub collect_ends :
      (I : Iterator A E) (s : I.State) (vs : List A)
      → Gives I s vs
      → (collect I (suc (length vs)) s ≡ some (none, some ends))
        × (count I (suc (length vs)) s ≡ some (0, some ends))
  unfolding collect count
  collect_ends I s vs g = (
    ap
        (λ (o : Option (List A × Result A E)).
          elim o as (λ x. Option (Option (List A) × Option (Result A E))) [
            | none ↦ none
            | some (ws, ends) ↦ some (none, some ends)
            | some (ws, r) ↦ some (some ws, none)
          ])
        (drain-Gives I s vs g),
    ap
        (λ (o : Option (List A × Result A E)). elim o as (λ x. Option (ℕ × Option (Result A E))) [
          | none ↦ none
          | some (ws, ends) ↦ some (0, some ends)
          | some (ws, r) ↦ some (length ws, none)
        ])
        (drain-Gives I s vs g),
  )
