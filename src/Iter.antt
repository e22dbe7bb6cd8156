-- ===== src/Iter.antt =====
-- hCommon/iter: iterators over a list (list_iter.go), one value (value_iter.go) and other iterators
-- (join_iter.go), with the two functions of utils.go.
pub mod Drain
mod Examples
use happy.Base.{
  ℕ, zero, suc, ◌+◌, Bool, true, false, Option, none, some, List, [], ◌∷◌, ◌++◌, get_elem?, length,
  if◌then◌else◌,
}

-- What `Next` returns: a value, `ErrEndIteration`, or another error.
pub data Result (A E : Type 0) : Type 0 where
  value : A → Result A E
  ends : Result A E
  fails : E → Result A E

-- The interface `Iter`: a state and its `Next`.
pub record Iterator (A E : Type 0) : Type 1 where
  pub State : Type 0
  pub next : State → State × Result A E

pub record ListIter (A : Type 0) : Type 0 where
  pub container : List A
  pub cursor : Option ℕ
  pub ended : Bool

pub record ValueIter (A : Type 0) : Type 0 where
  pub val : A
  pub ended : Bool

-- `rest` are the iterators after the cursor, all of them at the start; `current` is the state of the one at the
-- cursor, unless it has ended. `err` is an error as `next` returns it.
pub record JoinIter (S A E : Type 0) : Type 0 where
  pub rest : List S
  pub current : Option S
  pub err : Option (Result A E)

unfoldable pub from_list : {A : Type 0} → List A → ListIter A
from_list container = record { container = container; cursor = none; ended = false }

unfoldable pub from_value : {A : Type 0} → A → ValueIter A
from_value v = record { val = v; ended = false }

abbrev pub advance : Option ℕ → ℕ
advance none = 0
advance (some i) = suc i

module _ {A E : Type 0} where
  unfoldable pub list_next : ListIter A → ListIter A × Result A E
  list_next it =
      if it.ended then (it, ends) else (elim (get_elem? it.container (advance it.cursor)) [
        | none ↦ (record it { cursor = none; ended = true }, ends)
        | some v ↦ (record it { cursor = some (advance it.cursor) }, value v)
      ])

  unfoldable pub value_next : ValueIter A → ValueIter A × Result A E
  value_next it = if it.ended then (it, ends) else (record it { ended = true }, value it.val)

  abbrev pub list_iterator : Iterator A E
  list_iterator = record { State = ListIter A; next = list_next }

  abbrev pub value_iterator : Iterator A E
  value_iterator = record { State = ValueIter A; next = value_next }

  -- `nextValue` with no current iterator. An error other than the end is lost: nil is returned as a value,
  -- and the iterator stays current.
  unfoldable pub next_iterator :
      (I : Iterator A E) (nil : A) → List I.State → JoinIter I.State A E × Result A E
  next_iterator I nil [] = (record { rest = []; current = none; err = some ends }, ends)
  next_iterator I nil (s ∷ rest) =
      let later = next_iterator I nil rest in
      let (s', r) = I.next s in
      elim r [
        | value v ↦ (record { rest = rest; current = some s'; err = none }, value v)
        | ends ↦ later
        | fails e ↦ (record { rest = rest; current = some s'; err = none }, value nil)
      ]

  unfoldable pub next_value :
      (I : Iterator A E) (nil : A)
      → List I.State
      → Option I.State
      → JoinIter I.State A E × Result A E
  unfolding next_iterator
  next_value I nil rest none = next_iterator I nil rest
  next_value I nil rest (some s) = next_iterator I nil (s ∷ rest)

  unfoldable pub join_next :
      (I : Iterator A E) (nil : A) → JoinIter I.State A E → JoinIter I.State A E × Result A E
  unfolding next_value
  join_next I nil j = elim j.err [ some e ↦ (j, e) | none ↦ next_value I nil j.rest j.current ]

  -- `Join(a, b)` with `Add` for the rest.
  unfoldable pub join : {S : Type 0} → List S → JoinIter S A E
  join ss = record { rest = ss; current = none; err = none }

  unfoldable pub join_add : {S : Type 0} → S → JoinIter S A E → JoinIter S A E
  join_add s j = record j { rest = j.rest ++ s ∷ [] }

  abbrev pub join_iterator : Iterator A E → A → Iterator A E
  join_iterator I nil = record { State = JoinIter I.State A E; next = join_next I nil }

  -- The loop of `Count` and `Collect`: the values until an error, and the error. `none`: out of fuel.
  unfoldable pub drain : (I : Iterator A E) → ℕ → I.State → Option (List A × Result A E)
  drain I zero s = none
  drain I (suc n) s =
      let (s', r) = I.next s in
      let more = drain I n s' in
      elim r [
        | value v ↦ elim more [ none ↦ none | some (vs, e) ↦ some (v ∷ vs, e) ]
        | ends ↦ some ([], ends)
        | fails e ↦ some ([], fails e)
      ]

  -- `Collect`: the values, or the error. The test on the error is the code's.
  unfoldable pub collect :
      (I : Iterator A E) → ℕ → I.State → Option (Option (List A) × Option (Result A E))
  unfolding drain
  collect I n s = elim (drain I n s) [
    | none ↦ none
    | some (vs, ends) ↦ some (none, some ends)
    | some (vs, r) ↦ some (some vs, none)
  ]

  -- `Count`, with the same test.
  unfoldable pub count : (I : Iterator A E) → ℕ → I.State → Option (ℕ × Option (Result A E))
  unfolding drain
  count I n s = elim (drain I n s) [
    | none ↦ none
    | some (vs, ends) ↦ some (0, some ends)
    | some (vs, r) ↦ some (length vs, none)
  ]
