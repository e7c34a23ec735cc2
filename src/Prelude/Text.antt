-- ===== src/Prelude/Text.antt =====
-- Texts as lists of bytes, with the `str` methods that the program calls.
use Prim.Native.Char.{code}
use clash_rs.Prelude.{
  ℕ, ◌≡◌, refl, ◌↔◌, Bool, true, false, ◌&&◌, ◌||◌, List, [], ◌∷◌, ◌++◌, reverse, reverse-append,
  String, ◌==◌, ==_iff, if◌then◌else◌, Bool-cases, inl, inr, arith,
}

abbrev pub Text : Type 0
Text = List ℕ

-- The code points of a literal, which are its bytes where it is ASCII.
abbrev pub codes : String → Text
codes String.[] = []
codes (String.◌∷◌ c s) = code c ∷ codes s

abbrev pub text_eq : Text → Text → Bool
text_eq [] [] = true
text_eq [] (b ∷ t) = false
text_eq (a ∷ s) [] = false
text_eq (a ∷ s) (b ∷ t) = a == b && text_eq s t

pub text_eq_iff : (s t : Text) → (text_eq s t ≡ true) ↔ (s ≡ t)
text_eq_iff [] [] = ground arith
text_eq_iff [] (b ∷ t) = ground arith
text_eq_iff (a ∷ s) [] = ground arith
text_eq_iff (a ∷ s) (b ∷ t) = ground (arith, text_eq_iff s t, ==_iff a b)

pub text_eq_refl : (s : Text) → text_eq s s ≡ true
text_eq_refl s = (text_eq_iff s s).1 refl

-- `str::starts_with` and `str::ends_with` for a text.
abbrev pub starts_with : Text → Text → Bool
starts_with s [] = true
starts_with [] (b ∷ p) = false
starts_with (a ∷ s) (b ∷ p) = a == b && starts_with s p

abbrev pub ends_with : Text → Text → Bool
ends_with s p = starts_with (reverse s) (reverse p)

-- `str::contains` for a text.
abbrev pub contains : Text → Text → Bool
contains [] p = starts_with [] p
contains (a ∷ s) p = starts_with (a ∷ s) p || contains s p

-- `str::split` at one byte: always at least one part.
abbrev pub cons_first : ℕ → List Text → List Text
cons_first c [] = (c ∷ []) ∷ []
cons_first c (p ∷ ps) = (c ∷ p) ∷ ps

abbrev pub split_on : ℕ → Text → List Text
split_on sep [] = [] ∷ []
split_on sep (c ∷ s) = if c == sep then [] ∷ split_on sep s else cons_first c (split_on sep s)

abbrev pub is_empty : Text → Bool
is_empty [] = true
is_empty (c ∷ s) = false

pub starts_with-append : (p s : Text) → starts_with (p ++ s) p ≡ true
starts_with-append [] s = refl
starts_with-append (a ∷ p) s = ground (arith, starts_with-append p s, ==_iff a a)

pub ends_with-append : (s p : Text) → ends_with (s ++ p) p ≡ true
ends_with-append s p = rw (reverse-append s p) (starts_with-append (reverse p) (reverse s))

-- There is always a first part.
pub split_on-cons : (sep : ℕ) (s : Text) → (p : Text) × (ps : List Text) × (split_on sep s ≡ p ∷ ps)
split_on-cons sep [] = ([], [], refl)
split_on-cons sep (c ∷ s) = elim (Bool-cases (c == sep)) [
  | inl e ↦ ([], split_on sep s, rw e)
  | inr e ↦ let (p, ps, h) = split_on-cons sep s in (c ∷ p, ps, rw (e, h))
]

cons_first-append :
    (c : ℕ) {ps : List Text} {q : Text} {qs : List Text} (rest : List Text)
    → ps ≡ q ∷ qs
    → cons_first c (ps ++ rest) ≡ cons_first c ps ++ rest
cons_first-append c rest h = rw h

-- Splitting commutes with joining at the separator.
pub split_on-append :
    (sep : ℕ) (s t : Text) → split_on sep (s ++ (sep ∷ t)) ≡ split_on sep s ++ split_on sep t
split_on-append sep [] t = rw ((==_iff sep sep).1 refl)
split_on-append sep (c ∷ s) t = elim (Bool-cases (c == sep)) [
  | inl e ↦ rw (e, split_on-append sep s t)
  | inr e ↦
      rw (e, split_on-append sep s t) (cons_first-append c (split_on sep t) (split_on-cons sep s).2)
]
