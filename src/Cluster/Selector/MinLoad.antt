-- ===== src/Cluster/Selector/MinLoad.antt =====
-- `SelectMinLoad` of hCluster/Selector.go.
use mathlib.Core.List.{append_assoc, append-nil}
use happy.Base.{
  ℕ, zero, suc, ◌+◌, ◌≡◌, refl, sym, subst, true, false, Option, none, some, List, [], ◌∷◌, ◌++◌,
  length, length-append, get_elem?, All, All-append, inl, inr, Bool-cases,
}
use happy.Cluster.Types.{InquiryReply, Floats}
use happy.Cluster.Selector.{load_of, min_load_loop, select_min_load}

get_append :
    {A : Type 0} (xs : List A) (i : ℕ) (a b : A)
    → get_elem? xs i ≡ some a
    → get_elem? (xs ++ b ∷ []) i ≡ some a
get_append [] i a b e = cc
get_append (x ∷ xs) zero a b e = e
get_append (x ∷ xs) (suc i) a b e = get_append xs i a b e

get_last : {A : Type 0} (xs : List A) (b : A) → get_elem? (xs ++ b ∷ []) (length xs) ≡ some b
get_last [] b = refl
get_last (x ∷ xs) b = get_last xs b

le_self :
    (num : Floats) (a : num.Float) → (num.le a a ≡ false → num.le a a ≡ true) → num.le a a ≡ true
le_self num a h = elim (Bool-cases (num.le a a)) [ inl e ↦ e | inr e ↦ h e ]

module _ (num : Floats) {D : Type 0} where
  open num use {Float, one, le}

  -- What the loop knows after the replies `rs`.
  abbrev pub IsBest : List (InquiryReply Float D) → Float → Option ℕ → Type 0
  IsBest rs min none = (min ≡ one) × All (λ r. le (load_of num r) one ≡ false) rs
  IsBest rs min (some i) =
      ((r : InquiryReply Float D) × (get_elem? rs i ≡ some r) × (load_of num r ≡ min))
      × (le min one ≡ true)
      × All (λ r. le min (load_of num r) ≡ true) rs

module _ (num : Floats) {D : Type 0}
    (total : (a b : num.Float) → num.le a b ≡ false → num.le b a ≡ true)
    (trans : (a b c : num.Float) → num.le a b ≡ true → num.le b c ≡ true → num.le a c ≡ true) where
  open num use {Float, one, le}

  All-worse :
      (a b : Float) (rs : List (InquiryReply Float D))
      → le a b ≡ true
      → All (λ r. le b (load_of num r) ≡ true) rs
      → All (λ r. le a (load_of num r) ≡ true) rs
  All-worse a b [] h v = tt
  All-worse a b (r ∷ rs) h v = (trans a b (load_of num r) h v.0, All-worse a b rs h v.1)

  All-over :
      (a : Float) (rs : List (InquiryReply Float D))
      → le a one ≡ true
      → All (λ r. le (load_of num r) one ≡ false) rs
      → All (λ r. le a (load_of num r) ≡ true) rs
  All-over a [] h v = tt
  All-over a (r ∷ rs) h v =
      (trans a one (load_of num r) h (total (load_of num r) one v.0), All-over a rs h v.1)

  found-IsBest :
      (rs : List (InquiryReply Float D)) (min : Float) (index : Option ℕ) (r : InquiryReply Float D)
      → IsBest num rs min index
      → le (load_of num r) min ≡ true
      → IsBest num (rs ++ r ∷ []) (load_of num r) (some (length rs))
  found-IsBest rs min none r (start, over) h =
      let below : le (load_of num r) one ≡ true =
        subst (λ m. le (load_of num r) m ≡ true) start h in
      (
        (r, get_last rs r, refl),
        below,
        All-append (λ r'. le (load_of num r) (load_of num r') ≡ true) rs (r ∷ [])
            (All-over (load_of num r) rs below over)
            (le_self num (load_of num r) (total (load_of num r) (load_of num r)), tt),
      )
  found-IsBest rs min (some i) r (at, fits, best) h = (
    (r, get_last rs r, refl),
    trans (load_of num r) min one h fits,
    All-append (λ r'. le (load_of num r) (load_of num r') ≡ true) rs (r ∷ [])
        (All-worse (load_of num r) min rs h best)
        (le_self num (load_of num r) (total (load_of num r) (load_of num r)), tt),
  )

  passed-IsBest :
      (rs : List (InquiryReply Float D)) (min : Float) (index : Option ℕ) (r : InquiryReply Float D)
      → IsBest num rs min index
      → le (load_of num r) min ≡ false
      → IsBest num (rs ++ r ∷ []) min index
  passed-IsBest rs min none r (start, over) h = (
    start,
    All-append (λ r'. le (load_of num r') one ≡ false) rs (r ∷ []) over
        (subst (λ m. le (load_of num r) m ≡ false) start h, tt),
  )
  passed-IsBest rs min (some i) r ((s, e, l), fits, best) h = (
    (s, get_append rs i s r e, l),
    fits,
    All-append (λ r'. le min (load_of num r') ≡ true) rs (r ∷ []) best
        (total (load_of num r) min h, tt),
  )

  loop-IsBest :
      (seen rs : List (InquiryReply Float D)) (min : Float) (index : Option ℕ)
      → IsBest num seen min index
      → (m : Float) × IsBest num (seen ++ rs) m (min_load_loop num (length seen) min index rs)
  unfolding min_load_loop
  loop-IsBest seen [] min index v = (min, rw append-nil v)
  loop-IsBest seen (r ∷ rs) min index v =
      let step : length seen + 1 ≡ length (seen ++ r ∷ []) = sym (length-append seen (r ∷ [])) in
      subst
        (λ xs. (m : Float) × IsBest num xs m (min_load_loop num (length seen) min index (r ∷ rs)))
        (append_assoc seen (r ∷ []) rs)
        (elim (Bool-cases (le (load_of num r) min)) [
          | inl found ↦
              rw (found, step)
                (loop-IsBest (seen ++ r ∷ []) rs (load_of num r) (some (length seen))
                  (found-IsBest seen min index r v found))
          | inr passed ↦
              rw (passed, step)
                (loop-IsBest (seen ++ r ∷ []) rs min index
                  (passed-IsBest seen min index r v passed))
        ])

  -- `SelectMinLoad` on loads that are numbers: -1 only if every load is above 1, and otherwise the index
  -- of a reply with a load of at most 1 that no reply undercuts.
  pub select_min_load-IsBest :
      (rs : List (InquiryReply Float D)) → (m : Float) × IsBest num rs m (select_min_load num rs)
  unfolding select_min_load
  select_min_load-IsBest rs = loop-IsBest [] rs one none (refl, tt)
