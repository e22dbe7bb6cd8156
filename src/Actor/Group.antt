-- ===== src/Actor/Group.antt =====
-- Groups of actors: hActor/ActorIDGroup.go.
use happy.Base.{◌≡◌, refl, false, not, ◌&&◌, ◌||◌, List, [], ◌∷◌, ◌++◌, arith, inl, inr, Bool-cases}
use happy.Actor.{ActorId, equal, has, add, sub}
use happy.Actor.Address.{equal_iff}

-- No address twice.
abbrev pub IsUnrepeated : List ActorId → Type 0
IsUnrepeated [] = Unit {0}
IsUnrepeated (a ∷ ids) = (has ids a ≡ false) × IsUnrepeated ids

has-append : (ids bs : List ActorId) (b : ActorId) → has (ids ++ bs) b ≡ (has ids b || has bs b)
unfolding has
has-append [] bs b = refl
has-append (a ∷ ids) bs b = ground (arith, has-append ids bs b)

IsUnrepeated-append :
    (ids : List ActorId) (a : ActorId)
    → IsUnrepeated ids
    → has ids a ≡ false
    → IsUnrepeated (ids ++ a ∷ [])
unfolding has
IsUnrepeated-append [] a d h = (refl, tt)
IsUnrepeated-append (b ∷ ids) a d h = (
  ground (arith, has-append ids (a ∷ []) b, d.0, h, equal_iff a b, equal_iff b a),
  IsUnrepeated-append ids a d.1 (ground (arith, h)),
)

-- `Add` puts an address into the group, keeps the others, and keeps every address in it once.
pub has-add :
    (ids : List ActorId) (a b : ActorId)
    → IsUnrepeated ids
    → (has (add ids a) b ≡ (equal a b || has ids b)) × IsUnrepeated (add ids a)
unfolding add has
has-add ids a b d = elim (Bool-cases (has ids a)) [
  | inl there ↦ rw there (ground (arith, equal_iff a b, there), d)
  | inr new ↦ rw new (ground (arith, has-append ids (a ∷ []) b), IsUnrepeated-append ids a d new)
]

-- `Sub` takes an address out of a group that has each address once, and keeps the others.
pub has-sub :
    (ids : List ActorId) (a b : ActorId)
    → IsUnrepeated ids
    → (has (sub ids a) b ≡ (not (equal a b) && has ids b)) × IsUnrepeated (sub ids a)
unfolding sub has
has-sub [] a b d = (ground arith, tt)
has-sub (c ∷ ids) a b d =
    let rest = has-sub ids a b d.1 in
    let self = has-sub ids a c d.1 in
    elim (Bool-cases (equal c a)) [
      | inl found ↦
          rw found (ground (arith, equal_iff c a, equal_iff c b, equal_iff a b, d.0, found), d.1)
      | inr other ↦ rw other (
        ground (arith, rest.0, equal_iff c a, equal_iff c b, equal_iff a b, other),
        (ground (arith, self.0, d.0), rest.1),
      )
    ]
