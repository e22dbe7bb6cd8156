-- ===== src/Ecs/Objects/Attaching.antt =====
-- `AddObject` of hECS/object.go makes no cycle.
use happy.Base.{
  ℕ, ◌≤◌, ◌≡◌, ◌≢◌, ◌↔◌, refl, sym, ap, ◌∙◌, Bool, true, false, Option, none, some, ◌==◌, nat_eq,
  arith, if◌then◌else◌, Bool-cases, Option-cases, inl, inr, ==→≡, ==→≢, ≢→==,
}
use happy.Ecs.Objects.{Store, Error, bad_object, has_parent, attach, add_object}
use happy.Ecs.Objects.Ancestry.{
  Rooted, top, under, Above, direct, further, IsForest, Ends, has_parent_total,
}

module _ (s : Store) (o x : ℕ) where
  pub attach_parent : (i : ℕ) → (attach s o x i).parent ≡ (if x == i then some o else (s i).parent)
  unfolding attach
  attach_parent i = ground arith

  -- A chain of parents that does not meet the object stays.
  attach_clear : {i : ℕ} → (x == i) ≡ false → ¬ Above s x i → Rooted s i → Rooted (attach s o x) i
  attach_clear {i} other clear (top e) = top (attach_parent i ∙ ground (arith, other, e))
  attach_clear {i} other clear (under {j = j} e h) =
      under {j = j} (attach_parent i ∙ ground (arith, other, e)) (
        attach_clear (≢→== x j (λ same. clear (direct (e ∙ ap some (sym same)))))
          (λ a. clear (further e a)) h)

  attach-Rooted : {i : ℕ} → Rooted (attach s o x) o → Rooted s i → Rooted (attach s o x) i
  attach-Rooted {i} ho (top e) = elim (Bool-cases (x == i)) [
    | inl same ↦ under {j = o} (attach_parent i ∙ ground (arith, same)) ho
    | inr other ↦ top (attach_parent i ∙ ground (arith, other, e))
  ]
  attach-Rooted {i} ho (under {j = j} e h) = elim (Bool-cases (x == i)) [
    | inl same ↦ under {j = o} (attach_parent i ∙ ground (arith, same)) ho
    | inr other ↦ under {j = j} (attach_parent i ∙ ground (arith, other, e)) (attach-Rooted ho h)
  ]

  -- The object may be attached: it has no parent, and is not the new parent or above it.
  abbrev pub IsFree : Type 0
  IsFree = ((s x).parent ≡ none) × (o ≢ x) × (¬ Above s x o)

  attach-IsForest : IsFree → IsForest s → IsForest (attach s o x)
  attach-IsForest free h i =
      attach-Rooted (attach_clear (≢→== x o (λ e. free.1 (sym e))) free.2 (h o)) (h i)

  add_object_owned :
      (p : ℕ) → (s x).parent ≡ some p → (m : ℕ) → add_object m s o x ≡ some (s, some bad_object)
  unfolding add_object
  add_object_owned p e m = ground (arith, e)

  add_object_self :
      (s x).parent ≡ none
      → (o == x) ≡ true
      → (m : ℕ) → add_object m s o x ≡ some (s, some bad_object)
  unfolding add_object
  add_object_self e same m = ground (arith, e, same)

  add_object_other :
      (m : ℕ) (b : Bool)
      → (s x).parent ≡ none
      → (o == x) ≡ false
      → has_parent m s o x ≡ some b
      → add_object m s o x ≡ some (if b then (s, some bad_object) else (attach s o x, none))
  unfolding add_object
  add_object_other m b e other h = ground (arith, e, other, h)

  -- What the theorem says of a result.
  abbrev pub IsAttached : Store × Option Error → Type 0
  IsAttached r =
      Ends (λ m. add_object m s o x) r
      × IsForest r.0
      × ((r.1 ≡ none) ↔ IsFree)
      × (r.1 ≢ none → r.0 ≡ s)

  IsAttached-other :
      (b : Bool) (n : ℕ)
      → IsForest s
      → (s x).parent ≡ none
      → (o == x) ≡ false
      → ((m : ℕ) → n ≤ m → has_parent m s o x ≡ some b)
      → ((b ≡ true) ↔ Above s x o)
      → (r : Store × Option Error) × IsAttached r
  IsAttached-other true n h alone other ends (up, down) = (
    (s, some bad_object),
    (
      (n, λ m l. add_object_other m true alone other (ends m l)),
      h,
      ((λ q. absurd (cc)), λ free. absurd (free.2 (up refl))),
      λ q. refl,
    ),
  )
  IsAttached-other false n h alone other ends (up, down) =
      let free : IsFree =
        (alone, ==→≢ o x other, λ a. absurd (let bad : false ≡ true = down a in cc)) in
      (
        (attach s o x, none),
        (
          (n, λ m l. add_object_other m false alone other (ends m l)),
          attach-IsForest free h,
          ((λ q. free), λ q. refl),
          λ q. absurd (q refl),
        ),
      )

  -- AddObject on a forest ends and leaves a forest. It gives no error exactly if the object has no parent and is
  -- neither the new parent nor above it; with an error nothing is changed.
  pub add_object-IsForest : IsForest s → (r : Store × Option Error) × IsAttached r
  add_object-IsForest h = elim (Option-cases (s x).parent) [
    | inr (p, owned) ↦ (
      (s, some bad_object),
      (
        (0, λ m l. add_object_owned p owned m),
        h,
        ((λ q. absurd (cc)), λ free. absurd (let alone : (s x).parent ≡ none = free.0 in cc)),
        λ q. refl,
      ),
    )
    | inl alone ↦ elim (Bool-cases (o == x)) [
      | inl same ↦ (
        (s, some bad_object),
        (
          (0, λ m l. add_object_self alone same m),
          h,
          ((λ q. absurd (cc)), λ free. absurd (free.1 (==→≡ o x same))),
          λ q. refl,
        ),
      )
      | inr other ↦
          let (b, (n, ends), iff) = has_parent_total s o x (h o) in
          IsAttached-other b n h alone other ends iff
    ]
  ]
