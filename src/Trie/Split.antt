-- ===== src/Trie/Split.antt =====
-- Which domains `valid_and_split_domain` accepts, and how they join at a dot.
use clash_rs.Prelude.{
  ℕ, ◌≡◌, refl, false, ◌||◌, some, List, [], ◌∷◌, ◌++◌, reverse, reverse-append, any, ◌∙◌,
  Bool-cases, inl, inr, arith, sym, ◌≢◌,
}
use mathlib.Core.List.{reverse-cons}
use clash_rs.Prelude.Text.{Text, is_empty, ends_with, split_on, split_on-append, starts_with}
use clash_rs.Trie.{check_parts, valid_and_split_domain, domain_step}

check_parts-inv :
    (qs : List Text) {p : Text} {ps : List Text}
    → check_parts qs ≡ some (p ∷ ps)
    → (qs ≡ p ∷ ps) × (any is_empty ps ≡ false)
check_parts-inv [] h = cc
check_parts-inv (q ∷ []) h = ground arith
check_parts-inv (q ∷ r ∷ rs) h = ground arith

-- What is known of an accepted domain.
pub valid_and_split_domain-inv :
    (s : Text) {p : Text} {ps : List Text}
    → valid_and_split_domain s ≡ some (p ∷ ps)
    → (split_on b'.' s ≡ p ∷ ps)
      × (any is_empty ps ≡ false)
      × (s ≢ [])
      × (ends_with s domain_step ≡ false)
unfolding valid_and_split_domain
valid_and_split_domain-inv [] h = cc
valid_and_split_domain-inv (c ∷ s) h = elim (Bool-cases (ends_with (c ∷ s) domain_step)) [
  | inl e ↦ cc (rw e at h)
  | inr e ↦
      let (split, full) = check_parts-inv (split_on b'.' (c ∷ s)) (rw e at h) in
      (split, full, ground arith, e)
]

starts_with-one :
    (b : ℕ) (s t : Text) → s ≢ [] → starts_with (s ++ t) (b ∷ []) ≡ starts_with s (b ∷ [])
starts_with-one b [] t h = absurd (h refl)
starts_with-one b (c ∷ []) [] h = refl
starts_with-one b (c ∷ []) (d ∷ t) h = refl
starts_with-one b (c ∷ e ∷ s) t h = refl

append-ne-nil : (s : Text) (c : ℕ) → s ++ (c ∷ []) ≢ []
append-ne-nil [] c h = cc
append-ne-nil (b ∷ s) c h = cc

reverse-ne-nil : (c : ℕ) (s : Text) → reverse (c ∷ s) ≢ []
reverse-ne-nil c s h = append-ne-nil (reverse s) c (sym (reverse-cons c s) ∙ h)

-- The last byte of a join is that of its second part.
ends_with-join : (l d : Text) → d ≢ [] → ends_with (l ++ d) domain_step ≡ ends_with d domain_step
ends_with-join l [] h = absurd (h refl)
ends_with-join l (c ∷ d) h =
    rw (reverse-append l (c ∷ d))
      (starts_with-one b'.' (reverse (c ∷ d)) (reverse l) (reverse-ne-nil c d))

any-append : (xs ys : List Text) → any is_empty (xs ++ ys) ≡ (any is_empty xs || any is_empty ys)
any-append [] ys = refl
any-append (x ∷ xs) ys = ground (arith, any-append xs ys)

check_parts-some :
    (p : Text) (ps : List Text)
    → ps ≢ []
    → any is_empty ps ≡ false
    → check_parts (p ∷ ps) ≡ some (p ∷ ps)
check_parts-some p [] ne h = absurd (ne refl)
check_parts-some p (q ∷ qs) ne h = ground arith

valid_and_split_domain-some :
    (s : Text) {p : Text} {ps : List Text}
    → ends_with s domain_step ≡ false
    → split_on b'.' s ≡ p ∷ ps
    → ps ≢ []
    → any is_empty ps ≡ false
    → valid_and_split_domain s ≡ some (p ∷ ps)
unfolding valid_and_split_domain
valid_and_split_domain-some [] e split ne h = ground arith
valid_and_split_domain-some (c ∷ s) {p} {ps} e split ne h =
    rw (e, split) (check_parts-some p ps ne h)

join-ne-nil : (p : Text) (xs ps : List Text) → xs ++ (p ∷ ps) ≢ []
join-ne-nil p [] ps h = cc
join-ne-nil p (x ∷ xs) ps h = cc

-- Two accepted domains joined at a dot are accepted, and the labels are joined.
pub valid_and_split_domain-join :
    (l d : Text) {x p : Text} {xs ps : List Text}
    → valid_and_split_domain l ≡ some (x ∷ xs)
    → valid_and_split_domain d ≡ some (p ∷ ps)
    → is_empty p ≡ false
    → valid_and_split_domain (l ++ (b'.' ∷ d)) ≡ some (x ∷ (xs ++ (p ∷ ps)))
valid_and_split_domain-join l d {x} {p} {xs} {ps} hl hd hp =
    let (split_l, full_l, _, _) = valid_and_split_domain-inv l hl in
    let (split_d, full_d, ne, last) = valid_and_split_domain-inv d hd in
    valid_and_split_domain-some (l ++ (b'.' ∷ d))
      (ends_with-join l (b'.' ∷ d) (λ h. cc) ∙ ends_with-join (b'.' ∷ []) d ne ∙ last)
      (rw (split_on-append b'.' l d, split_l, split_d)) (join-ne-nil p xs ps)
      (ground (arith, any-append xs (p ∷ ps)))
