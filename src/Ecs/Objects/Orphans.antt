-- ===== src/Ecs/Objects/Orphans.antt =====
-- A child that `RemoveObject` of hECS/object.go has removed.
use happy.Base.{
  ℕ, ◌≡◌, ◌≢◌, refl, sym, ap, ◌∙◌, subst, true, false, Option, none, some, List, [], ◌∷◌, ◌==◌,
  nat_eq, arith, Bool-cases, Option-cases, inl, inr, ==→≡, ≢→==, contains,
}
use happy.Ecs.Systems.{Event}
use happy.Ecs.Objects.{
  Store, write, Error, bad_object, destroy_object, take_out, remove_object, add_object,
}
use happy.Ecs.Objects.Ancestry.{Ends}
use happy.Ecs.Objects.Removal.{Finite, FiniteEach, node, nil, cons, self, destroy_object-Empties}

take_out_in :
    (cs : List ℕ) (x : ℕ) → contains cs x ≡ true → (rest : List ℕ) × (take_out cs x ≡ some rest)
unfolding take_out
take_out_in [] x h = cc
take_out_in (c ∷ cs) x h = elim (Bool-cases (c == x)) [
  | inl same ↦ (cs, ground (arith, same))
  | inr other ↦
      let (rest, e) = take_out_in cs x (ground (arith, h, other)) in
      (c ∷ rest, ground (arith, other, e))
]

FiniteEach-take_out :
    (s : Store) (cs : List ℕ) (x : ℕ) (rest : List ℕ)
    → FiniteEach s cs
    → take_out cs x ≡ some rest
    → FiniteEach s rest
unfolding take_out
FiniteEach-take_out s [] x rest h e = cc
FiniteEach-take_out s (c ∷ cs) x rest (cons h hs) e = elim (Bool-cases (c == x)) [
  | inl same ↦ subst (FiniteEach s) (ground (arith, same, e)) hs
  | inr other ↦ elim (Option-cases (take_out cs x)) [
    | inl gone ↦ absurd (ground (arith, other, gone, e))
    | inr (r, e') ↦
        subst (FiniteEach s) (ground (arith, other, e', e))
          (cons h (FiniteEach-take_out s cs x r hs e'))
  ]
]

module _ (s : Store) (o x : ℕ) (rest : List ℕ) (out : take_out (s o).children x ≡ some rest) where
  abbrev cut : Store
  cut = write s o (record (s o) { children = rest })

  mutual
    Finite-cut : {i : ℕ} → Finite s i → Finite cut i
    Finite-cut {i} (node h) = elim (Bool-cases (o == i)) [
      | inl same ↦
          let e : o ≡ i = ==→≡ o i same in
          node (
            subst (FiniteEach cut) (ground (arith, same)) (
              FiniteEach-take_out cut (s o).children x rest
                (subst (λ k. FiniteEach cut (s k).children) (sym e) (FiniteEach-cut h)) out))
      | inr other ↦ node (subst (FiniteEach cut) (ground (arith, other)) (FiniteEach-cut h))
    ]

    FiniteEach-cut : {cs : List ℕ} → FiniteEach s cs → FiniteEach cut cs
    FiniteEach-cut nil = nil
    FiniteEach-cut (cons h hs) = cons (Finite-cut h) (FiniteEach-cut hs)

  remove_object_out :
      (m : ℕ) (s' : Store) (es : List Event)
      → (o == x) ≡ false
      → destroy_object m cut x ≡ some (s', es)
      → remove_object m s o x ≡ some (s', es, none)
  unfolding remove_object
  remove_object_out m s' es other e = ground (arith, other, out, e)

  cut_parent : (i : ℕ) → (cut i).parent ≡ (s i).parent
  cut_parent i = ground arith

add_object_owned :
    (s : Store) (o x p m : ℕ)
    → (s x).parent ≡ some p
    → add_object m s o x ≡ some (s, some bad_object)
unfolding add_object
add_object_owned s o x p m e = ground (arith, e)

-- RemoveObject of a child with finitely many objects below it ends without an error. As the child keeps its parent,
-- AddObject of it then gives ErrBadObject, at any object.
pub remove_object-add_object :
    (s : Store) (o x p : ℕ)
    → o ≢ x
    → contains (s o).children x ≡ true
    → (s x).parent ≡ some p
    → Finite s x
    → (r : Store × List Event × Option Error) × Ends (λ m. remove_object m s o x) r
      × (r.2 ≡ none)
      × ((q m : ℕ) → add_object m r.0 q x ≡ some (r.0, some bad_object))
remove_object-add_object s o x p other inside owned fin =
    let (rest, out) = take_out_in (s o).children x inside in
    let (r, (n, ends), emptied, others) =
      destroy_object-Empties (cut s o x rest out) x (Finite-cut s o x rest out fin) in
    let parent : (r.0 x).parent ≡ some p =
      ap (λ y. y.parent) (emptied x self) ∙ cut_parent s o x rest out x ∙ owned in
    (
      (r.0, r.1, none),
      (n, λ m l. remove_object_out s o x rest out m r.0 r.1 (≢→== o x other) (ends m l)),
      refl,
      λ q m. add_object_owned r.0 q x p m parent,
    )
