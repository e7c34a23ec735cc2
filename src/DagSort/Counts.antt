-- ===== src/DagSort/Counts.antt =====
-- How often names stand in lists, the groups by their names, and the order that the sort promises.
use mathlib.Core.List.{Perm}
use mathlib.Core.List.Perm
use clash_rs.Prelude.{
  ℕ, suc, ◌+◌, Bool-cases, Option, none, some, List, [], ◌∷◌, ◌++◌, ◌≡◌, inl, inr, refl, length,
  if◌then◌else◌, arith,
}
use clash_rs.Prelude.Text.{Text, text_eq, text_eq_iff}
use clash_rs.DagSort.{Group, edges_of}

abbrev pub count : Text → List Text → ℕ
count q [] = 0
count q (p ∷ ps) = if text_eq p q then suc (count q ps) else count q ps

-- How many edges lead to a name.
abbrev pub refs : Text → List Group → ℕ
refs q [] = 0
refs q (g ∷ gs) = count q (edges_of g) + refs q gs

abbrev pub group_named : Text → List Group → Option Group
group_named q [] = none
group_named q (g ∷ gs) = if text_eq g.name q then some g else group_named q gs

abbrev pub drop_group : Text → List Group → List Group
drop_group q [] = []
drop_group q (g ∷ gs) = if text_eq g.name q then gs else g ∷ drop_group q gs

-- No two groups have the same name.
abbrev pub Distinct : List Group → Type 0
Distinct [] = Unit
Distinct (g ∷ gs) = (group_named g.name gs ≡ none) × Distinct gs

abbrev pub All {ℓ} : (Group → Type ℓ) → List Group → Type ℓ
All P [] = Unit
All P (g ∷ gs) = P g × All P gs

-- No group refers to itself or to a group behind it.
abbrev pub Ordered : List Group → Type 0
Ordered [] = Unit
Ordered (g ∷ gs) = All (λ h. count h.name (edges_of g) ≡ 0) (g ∷ gs) × Ordered gs

pub count-append : (q : Text) (ps rs : List Text) → count q (ps ++ rs) ≡ count q ps + count q rs
count-append q [] rs = omega arith
count-append q (p ∷ ps) rs = ground (arith, count-append q ps rs)

module _ (q : Text) where
  pub group_named-name : (gs : List Group) {g : Group} → group_named q gs ≡ some g → g.name ≡ q
  group_named-name [] {g} h = absurd (ground (arith, h))
  group_named-name (x ∷ gs) {g} h =
      ground (arith, text_eq_iff x.name q, group_named-name gs {g = g})

  pub refs-drop_group :
      (p : Text) (gs : List Group) {g : Group}
      → group_named q gs ≡ some g
      → refs p gs ≡ count p (edges_of g) + refs p (drop_group q gs)
  refs-drop_group p [] h = absurd (ground (arith, h))
  refs-drop_group p (x ∷ gs) {g} h = elim (Bool-cases (text_eq x.name q)) [
    | inl same ↦ let e : x ≡ g = ground (arith, same, h) in rw (same, e) refl
    | inr other ↦
        let rest : group_named q gs ≡ some g = ground (arith, other, h) in
        rw other (omega (arith, refs-drop_group p gs rest))
  ]

  pub length-drop_group :
      (gs : List Group) {g : Group}
      → group_named q gs ≡ some g
      → length gs ≡ suc (length (drop_group q gs))
  length-drop_group [] h = absurd (ground (arith, h))
  length-drop_group (x ∷ gs) {g} h = ground (arith, length-drop_group gs {g = g})

  pub drop_group-perm :
      (gs : List Group) {g : Group} → group_named q gs ≡ some g → Perm gs (g ∷ drop_group q gs)
  drop_group-perm [] h = absurd (ground (arith, h))
  drop_group-perm (x ∷ gs) {g} h = elim (Bool-cases (text_eq x.name q)) [
    | inl same ↦ let e : x ≡ g = ground (arith, same, h) in rw (same, e) (Perm.refl (g ∷ gs))
    | inr other ↦
        let rest : group_named q gs ≡ some g = ground (arith, other, h) in
        rw other
          (Perm.trans (Perm.cons x (drop_group-perm gs rest)) (Perm.swap g x (drop_group q gs)))
  ]

  pub drop_group-All {ℓ} :
      (P : Group → Type ℓ) (gs : List Group) → All P gs → All P (drop_group q gs)
  drop_group-All P [] h = h
  drop_group-All P (x ∷ gs) (h, hs) = elim (Bool-cases (text_eq x.name q)) [
    | inl same ↦ rw same hs
    | inr other ↦ rw other (h, drop_group-All P gs hs)
  ]

  pub group_named-drop_group :
      (p : Text) (gs : List Group)
      → Distinct gs
      → group_named p (drop_group q gs) ≡ (if text_eq q p then none else group_named p gs)
  group_named-drop_group p [] d = ground arith
  group_named-drop_group p (x ∷ gs) (fresh, d) = ground (
    arith,
    text_eq_iff x.name q,
    text_eq_iff q p,
    text_eq_iff x.name p,
    group_named-drop_group p gs d,
  )

  pub drop_group-Distinct : (gs : List Group) → Distinct gs → Distinct (drop_group q gs)
  drop_group-Distinct [] d = d
  drop_group-Distinct (x ∷ gs) (fresh, d) = elim (Bool-cases (text_eq x.name q)) [
    | inl same ↦ rw same d
    | inr other ↦ rw other (
      ground (arith, group_named-drop_group x.name gs d, fresh, text_eq_iff q x.name),
      drop_group-Distinct gs d,
    )
  ]
