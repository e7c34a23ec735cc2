-- ===== src/Trie/Search.antt =====
-- `search_inner` against the relation of a stored path to the labels of a domain.
use clash_rs.Prelude.{
  ◌≡◌, refl, true, Option, none, some, List, [], ◌∷◌, ◌⊎◌, inl, inr, is_some, or_else, arith,
  Option-cases, ◌∙◌,
}
use clash_rs.Prelude.Text.{Text}
use clash_rs.Trie.{Node, get_data, get_child, with_data, search_inner, wildcard, dot_wildcard, node}
use clash_rs.Trie.Paths.{data_at}

-- Which labels (the last one of the domain first) a stored path stands for: each label of the path
-- is that of the domain or `*`, and a path may end in the empty label, which stands for one or more
-- labels.
abbrev pub Matches : List Text → List Text → Type 0
Matches [] [] = Unit
Matches [] (p ∷ ps) = ⊥
Matches (q ∷ qs) [] = ⊥
Matches (q ∷ qs) (p ∷ ps) =
    ((q ≡ p) × Matches qs ps) ⊎ ((q ≡ wildcard) × Matches qs ps) ⊎ ((q ≡ dot_wildcard) × (qs ≡ []))

module _ {ℓ} {T : Type ℓ} where
  or_else-cases :
      (a b c : Option (Node T)) {m : Node T}
      → or_else a (or_else b c) ≡ some m
      → (a ≡ some m) ⊎ (b ≡ some m) ⊎ (c ≡ some m)
  or_else-cases none none c h = inr (inr h)
  or_else-cases none (some b) c h = inr (inl h)
  or_else-cases (some a) b c h = inl h

  with_data-inv : (o : Option (Node T)) {m : Node T} → with_data o ≡ some m → o ≡ some m
  with_data-inv none h = h
  with_data-inv (some (node none cs)) h = cc
  with_data-inv (some (node (some d) cs)) h = h

  descend-inv :
      (o : Option (Node T)) (f : Node T → Option (Node T)) {m : Node T}
      → let found : Option (Node T) = elim o [ none ↦ none | some c ↦ with_data (f c) ] in
        found ≡ some m → (c : Node T) × (o ≡ some c) × (f c ≡ some m)
  descend-inv none f h = cc
  descend-inv (some c) f h = (c, refl, with_data-inv (f c) h)

  data_at-child :
      (n c : Node T) (q : Text) (qs : List Text)
      → get_child n q ≡ some c
      → data_at n (q ∷ qs) ≡ data_at c qs
  unfolding data_at
  data_at-child n c q qs e = ground arith

  -- A node that the search returns with data holds the data of a stored path that matches.
  pub search_inner_sound :
      (n : Node T) (ps : List Text) {m : Node T} {v : T}
      → search_inner n ps ≡ some m
      → get_data m ≡ some v
      → (q : List Text) × Matches q ps × (data_at n q ≡ some v)
  unfolding search_inner data_at
  search_inner_sound n [] h d = ([], tt, ground arith)
  search_inner_sound n (p ∷ ps) {m} {v} h d =
      elim (or_else-cases _ _ (get_child n dot_wildcard) h) [
        | inl a ↦
            let (c, e, s) = descend-inv (get_child n p) (λ c. search_inner c ps) a in
            let (q, mq, f) = search_inner_sound c ps s d in
            (p ∷ q, inl (refl, mq), data_at-child n c p q e ∙ f)
        | inr (inl b) ↦
            let (c, e, s) = descend-inv (get_child n wildcard) (λ c. search_inner c ps) b in
            let (q, mq, f) = search_inner_sound c ps s d in
            (wildcard ∷ q, inr (inl (refl, mq)), data_at-child n c wildcard q e ∙ f)
        | inr (inr e) ↦
            (dot_wildcard ∷ [], inr (inr (refl, refl)), data_at-child n m dot_wildcard [] e ∙ d)
      ]

  -- If a stored path matches the labels, the search returns a node with data.
  pub search_inner_complete :
      (n : Node T) (q ps : List Text) {v : T}
      → Matches q ps
      → data_at n q ≡ some v
      → is_some (with_data (search_inner n ps)) ≡ true
  unfolding search_inner data_at
  search_inner_complete n [] [] m h = ground arith
  search_inner_complete n [] (p ∷ ps) m h = elim m [ ]
  search_inner_complete n (q ∷ qs) [] m h = elim m [ ]
  search_inner_complete n (q ∷ qs) (p ∷ ps) {v} m h = elim (Option-cases (get_child n q)) [
    | inl e ↦ ground arith
    | inr (c, e) ↦ ground (arith, search_inner_complete c qs ps {v = v})
  ]
