-- ===== src/Trie/Domains.antt =====
-- What a caller of the trie sees: the insertions as writes at label paths, and which domains a
-- search finds.
use clash_rs.Trie.Split.{valid_and_split_domain-join}
use mathlib.Core.List.{reverse-cons}
use clash_rs.Prelude.{
  ◌∙◌, reverse-append, subst, sym, ◌≡◌, refl, true, false, Option, none, some, List, [], ◌∷◌, ◌++◌,
  reverse, ◌≢◌, is_some, if◌then◌else◌, Option-cases, inl, inr, arith,
}
use clash_rs.Prelude.Text.{codes, Text, text_eq, is_empty}
use clash_rs.Trie.{
  Node, node, get_data, with_data, insert_parts, search_parts, insert, search, search_inner,
  insert_inner, valid_and_split_domain, complex_wildcard, dot_wildcard,
}
use clash_rs.Trie.Paths.{path_eq_refl, data_at, path_eq, data_at-insert_inner}
use clash_rs.Trie.Search.{Matches, search_inner_sound, search_inner_complete}

module _ {ℓ} {T : Type ℓ} where
  -- `insert` of a domain that is accepted and does not begin with the label `+` returns true, writes
  -- the data at the domain's path and leaves every other path alone.
  pub insert-plain :
      (t : Node T) (domain : Text) (v : T) (q : List Text) {p : Text} {ps : List Text}
      → valid_and_split_domain domain ≡ some (p ∷ ps)
      → text_eq p complex_wildcard ≡ false
      → ((insert t domain v).1 ≡ true)
        × (data_at (insert t domain v).0 q
            ≡ (if path_eq (reverse (p ∷ ps)) q then some v else data_at t q))
  unfolding insert insert_parts
  insert-plain t domain v q {p} {ps} h ne =
      (ground arith, rw (h, insert, ne) (data_at-insert_inner t (reverse (p ∷ ps)) q v))

  -- `insert` of `+.d` writes the data at the path of `d` and at that path with the empty label
  -- added, and nowhere else.
  pub insert-plus :
      (t : Node T) (domain : Text) (v : T) (q : List Text) {ps : List Text}
      → valid_and_split_domain domain ≡ some (complex_wildcard ∷ ps)
      → data_at (insert t domain v).0 q ≡ (
          if path_eq (reverse (dot_wildcard ∷ ps)) q
          then some v
          else if path_eq (reverse ps) q
          then some v
          else data_at t q)
  unfolding insert insert_parts
  insert-plus t domain v q {ps} h =
      rw (h, insert)
        (ground (
          arith,
          data_at-insert_inner t (reverse ps) q v,
          data_at-insert_inner (insert_inner t (reverse ps) v) (reverse (dot_wildcard ∷ ps)) q v,
        ))

  with_data-inv :
      (o : Option (Node T)) {m : Node T}
      → with_data o ≡ some m
      → (o ≡ some m) × ((v : T) × (get_data m ≡ some v))
  with_data-inv none h = cc
  with_data-inv (some (node none cs)) h = cc
  with_data-inv (some (node (some v) cs)) {m} h = (h, (v, ground arith))

  search_parts-inv :
      (t : Node T) (parts : List Text) {m : Node T}
      → search_parts t parts ≡ some m
      → (search_inner t (reverse parts) ≡ some m) × ((v : T) × (get_data m ≡ some v))
  unfolding search_parts
  search_parts-inv t [] h = cc
  search_parts-inv t ([] ∷ ps) h = cc
  search_parts-inv t ((c ∷ p) ∷ ps) h = with_data-inv (search_inner t (reverse ((c ∷ p) ∷ ps))) h

  -- A domain that the search finds was accepted, and a stored path matches its labels: the data
  -- that the search returns is the data of that path.
  pub search_sound :
      (t : Node T) (domain : Text) {m : Node T}
      → search t domain ≡ some m
      → (parts : List Text) × (q : List Text) × (v : T) × (valid_and_split_domain domain
          ≡ some parts)
        × Matches q (reverse parts)
        × (get_data m ≡ some v)
        × (data_at t q ≡ some v)
  unfolding search search_parts
  search_sound t domain {m} h = elim (Option-cases (valid_and_split_domain domain)) [
    | inl e ↦ cc (rw (e, search) at h)
    | inr (parts, e) ↦
        let found : search_parts t parts ≡ some m = rw (e, search) at h in
        let (n, value) = search_parts-inv t parts found in
        let (v, d) = value in
        let (q, mq, s) = search_inner_sound t (reverse parts) n d in (parts, q, v, e, mq, d, s)
  ]

  -- If a stored path matches the labels of an accepted domain whose first label is not empty, the
  -- search finds a node with data.
  pub search_complete :
      (t : Node T) (domain : Text) (q : List Text) {p : Text} {ps : List Text} {v : T}
      → valid_and_split_domain domain ≡ some (p ∷ ps)
      → is_empty p ≡ false
      → Matches q (reverse (p ∷ ps))
      → data_at t q ≡ some v
      → is_some (search t domain) ≡ true
  unfolding search search_parts
  search_complete t domain q {p} {ps} h full m stored =
      rw (h, search, full) (search_inner_complete t q (reverse (p ∷ ps)) m stored)

Matches-refl : (ps : List Text) → Matches ps ps
Matches-refl [] = tt
Matches-refl (p ∷ ps) = inl (refl, Matches-refl ps)

-- The empty label at the end of a path stands for the labels that are left.
Matches-rest : (r ls : List Text) → ls ≢ [] → Matches (r ++ (dot_wildcard ∷ [])) (r ++ ls)
Matches-rest [] [] ne = absurd (ne refl)
Matches-rest [] (l ∷ ls) ne = inr (inr (refl, refl))
Matches-rest (p ∷ r) ls ne = inl (refl, Matches-rest r ls ne)

reverse-ne-nil {ℓ} : {A : Type ℓ} (x : A) (xs : List A) → reverse (x ∷ xs) ≢ []
reverse-ne-nil {A = A} x xs h = snoc-ne-nil (reverse xs) (sym (reverse-cons x xs) ∙ h)
  where
    snoc-ne-nil : (ys : List A) → ys ++ (x ∷ []) ≢ []
    snoc-ne-nil [] e = cc
    snoc-ne-nil (y ∷ ys) e = cc

-- The path of `+.d` matches every domain that is joined in front of `d`.
Matches-subdomain :
    (x : Text) (xs ps : List Text)
    → Matches (reverse (dot_wildcard ∷ ps)) (reverse (x ∷ (xs ++ ps)))
Matches-subdomain x xs ps =
    subst (λ q. Matches q (reverse (x ∷ (xs ++ ps)))) (sym (reverse-cons dot_wildcard ps))
      (subst (λ ls. Matches (reverse ps ++ (dot_wildcard ∷ [])) ls)
        (sym (reverse-append (x ∷ xs) ps))
        (Matches-rest (reverse ps) (reverse (x ∷ xs)) (reverse-ne-nil x xs)))

module _ {ℓ} {T : Type ℓ} where
  -- After the insertion of `+.d`, for an accepted domain `d` whose first label is not empty, the
  -- search finds data at `d` and at `l.d` for every accepted `l` whose first label is not empty,
  -- whatever the trie held before.
  pub search-insert_plus :
      (t : Node T) (d l : Text) (v : T) {p x : Text} {ps xs : List Text}
      → valid_and_split_domain d ≡ some (p ∷ ps)
      → is_empty p ≡ false
      → valid_and_split_domain l ≡ some (x ∷ xs)
      → is_empty x ≡ false
      → let t' = (insert t (codes "+." ++ d) v).0 in
        (is_some (search t' d) ≡ true) × (is_some (search t' (l ++ (b'.' ∷ d))) ≡ true)
  search-insert_plus t d l v {p} {x} {ps} {xs} hd full hl full_l =
      let plus : valid_and_split_domain (codes "+") ≡ some (complex_wildcard ∷ []) =
        unfold valid_and_split_domain in refl in
      let h = valid_and_split_domain-join (codes "+") d plus hd full in
      let t' = (insert t (codes "+." ++ d) v).0 in
      let written = λ (q : List Text). insert-plus t (codes "+." ++ d) v q h in
      (
        search_complete t' d (reverse (p ∷ ps)) {v = v} hd full (Matches-refl (reverse (p ∷ ps)))
            (ground (arith, written (reverse (p ∷ ps)), path_eq_refl (reverse (p ∷ ps)))),
        search_complete t' (l ++ (b'.' ∷ d)) (reverse (dot_wildcard ∷ (p ∷ ps))) {v = v}
            (valid_and_split_domain-join l d hl hd full) full_l (Matches-subdomain x xs (p ∷ ps))
            (rw (
              written (reverse (dot_wildcard ∷ (p ∷ ps))),
              path_eq_refl (reverse (dot_wildcard ∷ (p ∷ ps))),
            )),
      )
