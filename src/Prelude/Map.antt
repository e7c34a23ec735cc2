-- ===== src/Prelude/Map.antt =====
-- A `HashMap` with text keys, as an association list with one entry for each key.
use clash_rs.Prelude.{
  suc, length, ap, ◌≤◌, ◌<◌, inl, inr, Bool-cases, Option, none, some, List, [], ◌∷◌, ◌≡◌, refl,
  if◌then◌else◌, arith,
}
use clash_rs.Prelude.Text.{Text, text_eq, text_eq_iff}

abbrev pub Map {ℓ} : Type ℓ → Type ℓ
Map V = List (Text × V)

module _ {ℓ} {V : Type ℓ} where
  unfoldable pub get : Map V → Text → Option V
  get [] k = none
  get ((j, v) ∷ m) k = if text_eq j k then some v else get m k

  unfoldable pub insert : Map V → Text → V → Map V
  insert [] k v = (k, v) ∷ []
  insert ((j, w) ∷ m) k v = if text_eq j k then (k, v) ∷ m else (j, w) ∷ insert m k v

  unfoldable pub remove : Map V → Text → Map V
  remove [] k = []
  remove ((j, w) ∷ m) k = let rest = remove m k in if text_eq j k then rest else (j, w) ∷ rest

  pub get-insert :
      (m : Map V) (k : Text) (v : V) (j : Text)
      → get (insert m k v) j ≡ (if text_eq k j then some v else get m j)
  unfolding get insert
  get-insert [] k v j = refl
  get-insert ((i, w) ∷ m) k v j =
      ground (arith, get-insert m k v j, text_eq_iff k j, text_eq_iff i k, text_eq_iff i j)

  pub get-remove :
      (m : Map V) (k j : Text) → get (remove m k) j ≡ (if text_eq k j then none else get m j)
  unfolding get remove
  get-remove [] k j = ground arith
  get-remove ((i, w) ∷ m) k j =
      ground (arith, get-remove m k j, text_eq_iff k j, text_eq_iff i k, text_eq_iff i j)

  pub length-insert :
      (m : Map V) (k : Text) (v w : V) → get m k ≡ some w → length (insert m k v) ≡ length m
  unfolding get insert
  length-insert [] k v w h = absurd (ground (arith, h))
  length-insert ((j, x) ∷ m) k v w h = elim (Bool-cases (text_eq j k)) [
    | inl same ↦ rw same refl
    | inr other ↦
        let rest : get m k ≡ some w = ground (arith, other, h) in
        rw other (ap suc (length-insert m k v w rest))
  ]

  length-remove-le : (m : Map V) (k : Text) → length (remove m k) ≤ length m
  unfolding remove
  length-remove-le [] k = omega arith
  length-remove-le ((j, x) ∷ m) k = elim (Bool-cases (text_eq j k)) [
    | inl same ↦ rw same (omega (arith, length-remove-le m k))
    | inr other ↦ rw other (omega (arith, length-remove-le m k))
  ]

  pub length-remove :
      (m : Map V) (k : Text) (w : V) → get m k ≡ some w → length (remove m k) < length m
  unfolding get remove
  length-remove [] k w h = absurd (ground (arith, h))
  length-remove ((j, x) ∷ m) k w h = elim (Bool-cases (text_eq j k)) [
    | inl same ↦ rw same (omega (arith, length-remove-le m k))
    | inr other ↦
        let rest : get m k ≡ some w = ground (arith, other, h) in
        rw other (omega (arith, length-remove m k w rest))
  ]
