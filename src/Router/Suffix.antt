-- ===== src/Router/Suffix.antt =====
-- clash-lib/src/app/router/rules/domain_suffix.rs and rules/geodata/str_matcher.rs: which domains a
-- suffix matches.
use mathlib.Core.List.{reverse-cons}
use clash_rs.Prelude.{
  some, get_elem?, ℕ, suc, ◌+◌, ◌-◌, ◌==◌, ==_iff, ltb, Bool, true, false, ◌||◌, [], ◌∷◌, ◌++◌, ◌≡◌,
  refl, sym, ap, ◌∙◌, ◌⊎◌, inl, inr, ◌↔◌, reverse, append_assoc, reverse-append, length,
  length-append, Bool-cases, arith,
}
use clash_rs.Prelude.Text.{
  text_eq_refl, Text, codes, text_eq, text_eq_iff, starts_with, ends_with, ends_with-append,
}
use clash_rs.Router.{suffix_matches}
use clash_rs.Router.Geosite.{domain_matches}

starts_with-split : (s p : Text) → starts_with s p ≡ true → (rest : Text) × (s ≡ p ++ rest)
starts_with-split s [] h = (s, refl)
starts_with-split [] (b ∷ p) h = absurd (cc h)
starts_with-split (a ∷ s) (b ∷ p) h =
    let split = starts_with-split s p (ground arith) in
    (split.0, grind (arith, split.1, ==_iff a b))

reverse-reverse : (s : Text) → reverse (reverse s) ≡ s
reverse-reverse [] = refl
reverse-reverse (a ∷ s) =
    rw (reverse-cons a s, reverse-append (reverse s) (a ∷ []), reverse-reverse s)

pub ends_with-split : (s p : Text) → ends_with s p ≡ true → (l : Text) × (s ≡ l ++ p)
ends_with-split s p h =
    let split = starts_with-split (reverse s) (reverse p) h in
    (
      reverse split.0,
      cc (
        ap reverse split.1,
        reverse-reverse s,
        reverse-append (reverse p) split.0,
        reverse-reverse p,
      ),
    )

or_true : (b : Bool) → (b || true) ≡ true
or_true b = ground arith

-- A `DOMAIN-SUFFIX` rule matches the suffix itself and the domains that end in a dot and the suffix,
-- and no others.
pub suffix_matches_iff :
    (suffix d : Text)
    → (suffix_matches suffix d ≡ true)
      ↔ ((d ≡ suffix) ⊎ ((l : Text) × (d ≡ l ++ (codes "." ++ suffix))))
unfolding suffix_matches
suffix_matches_iff suffix d = (
  λ h. elim (Bool-cases (ends_with d (codes "." ++ suffix))) [
    | inl e ↦ inr (ends_with-split d (codes "." ++ suffix) e)
    | inr e ↦ inl ((text_eq_iff d suffix).0 (cc (h, e)))
  ],
  λ h. elim h [
    | inl e ↦ rw (e, text_eq_refl suffix) (or_true (ends_with suffix (codes "." ++ suffix)))
    | inr (l, e) ↦ rw (e, ends_with-append l (codes "." ++ suffix)) refl
  ],
)

starts_with-both : (p s q : Text) → starts_with (p ++ s) (p ++ q) ≡ starts_with s q
starts_with-both [] s q = refl
starts_with-both (a ∷ p) s q = ground (arith, starts_with-both p s q, ==_iff a a)

get_elem?-middle : (m : Text) (c : ℕ) (s : Text) → get_elem? (m ++ (c ∷ s)) (length m) ≡ some c
get_elem?-middle [] c s = refl
get_elem?-middle (a ∷ m) c s = get_elem?-middle m c s

-- A text is empty or has a last byte.
last_or_empty : (l : Text) → (l ≡ []) ⊎ ((m : Text) × (c : ℕ) × (l ≡ m ++ (c ∷ [])))
last_or_empty [] = inl refl
last_or_empty (a ∷ l) = elim (last_or_empty l) [
  | inl e ↦ inr ([], a, rw e refl)
  | inr (m, c, e) ↦ inr (a ∷ m, c, rw e refl)
]

ends_with-after : (m : Text) (c : ℕ) (s : Text) → ends_with (m ++ (c ∷ s)) s ≡ true
ends_with-after m c s = rw (sym (append_assoc m (c ∷ []) s)) (ends_with-append (m ++ (c ∷ [])) s)

domain_matches-at :
    (s d : Text) (i c : ℕ)
    → ends_with d s ≡ true
    → length d ≡ i + suc (length s)
    → get_elem? d i ≡ some c
    → domain_matches s d ≡ (c == b'.')
domain_matches-at s d i c h len e =
    let differ : (length s == length d) ≡ false = ground arith in
    let longer : ltb (length d) (length s + 1) ≡ false = ground arith in
    let index : length d - length s - 1 ≡ i = omega arith in rw (h, differ, longer, index, e) refl

-- What stands before the suffix decides, in both matchers.
module _ (m : Text) (c : ℕ) (s : Text) where
  ends_with-dot : ends_with (m ++ (c ∷ s)) (b'.' ∷ s) ≡ (c == b'.')
  ends_with-dot =
      rw
        (
          reverse-append m (c ∷ s),
          reverse-cons c s,
          reverse-cons b'.' s,
          append_assoc (reverse s) (c ∷ []) (reverse m),
          starts_with-both (reverse s) (c ∷ reverse m) (b'.' ∷ []),
        )
        (ground arith)

  text_eq-longer : text_eq (m ++ (c ∷ s)) s ≡ false
  text_eq-longer = elim (Bool-cases (text_eq (m ++ (c ∷ s)) s)) [
    | inl e ↦
        absurd
          (omega (arith, ap length ((text_eq_iff (m ++ (c ∷ s)) s).0 e), length-append m (c ∷ s)))
    | inr e ↦ e
  ]

  suffix_matches-before : suffix_matches s (m ++ (c ∷ s)) ≡ (c == b'.')
  unfolding suffix_matches
  suffix_matches-before = rw (ends_with-dot, text_eq-longer) (ground arith)

  domain_matches-before : domain_matches s (m ++ (c ∷ s)) ≡ (c == b'.')
  domain_matches-before =
      domain_matches-at s (m ++ (c ∷ s)) (length m) c (ends_with-after m c s)
        (omega (arith, length-append m (c ∷ s))) (get_elem?-middle m c s)

suffix_matches-none : (s d : Text) → ends_with d s ≡ false → suffix_matches s d ≡ false
suffix_matches-none s d h = elim (Bool-cases (suffix_matches s d)) [
  | inr e ↦ e
  | inl e ↦ elim ((suffix_matches_iff s d).0 e) [
    | inl same ↦ cc (h, same, ends_with-append [] s)
    | inr (l, after) ↦ cc (h, after, ends_with-after l b'.' s)
  ]
]

domain_matches_self : (s : Text) → domain_matches s s ≡ suffix_matches s s
unfolding suffix_matches
domain_matches_self s =
    rw (ends_with-append [] s, text_eq_refl s, (==_iff (length s) (length s)).1 refl)
      (sym (or_true (ends_with s (codes "." ++ s))))

-- The `DomainMatcher` of a geosite group and the `DOMAIN-SUFFIX` rule match the same domains.
pub domain_matches-suffix_matches :
    (suffix d : Text) → domain_matches suffix d ≡ suffix_matches suffix d
domain_matches-suffix_matches suffix d = elim (Bool-cases (ends_with d suffix)) [
  | inr e ↦ rw e (sym (suffix_matches-none suffix d e))
  | inl e ↦
      let split = ends_with-split d suffix e in
      elim (last_or_empty split.0) [
        | inl h ↦ rw (split.1, h) (domain_matches_self suffix)
        | inr (m, c, h) ↦
            rw (split.1, h, append_assoc m (c ∷ []) suffix)
              (domain_matches-before m c suffix ∙ sym (suffix_matches-before m c suffix))
      ]
]
