-- ===== src/Trie/Paths.antt =====
-- The trie as a map from reversed label paths to data: what `insert_inner` changes.
use clash_rs.Prelude.{
  ◌≡◌, refl, Bool, true, false, ◌&&◌, Option, none, some, List, [], ◌∷◌, if◌then◌else◌, arith,
}
use clash_rs.Prelude.Text.{Text, text_eq, text_eq_iff, text_eq_refl}
use clash_rs.Trie.{
  Node, node, Children, nil, cons, new, get_data, get_key, insert_key, get_child, child_or_new,
  insert_inner,
}

abbrev pub path_eq : List Text → List Text → Bool
path_eq [] [] = true
path_eq [] (q ∷ qs) = false
path_eq (p ∷ ps) [] = false
path_eq (p ∷ ps) (q ∷ qs) = text_eq p q && path_eq ps qs

pub path_eq_refl : (ps : List Text) → path_eq ps ps ≡ true
path_eq_refl [] = refl
path_eq_refl (p ∷ ps) = ground (arith, path_eq_refl ps, text_eq_refl p)

module _ {ℓ} {T : Type ℓ} where
  -- The data stored at a path.
  unfoldable pub data_at : Node T → List Text → Option T
  data_at n [] = get_data n
  data_at n (p ∷ ps) = elim (get_child n p) [ none ↦ none | some c ↦ data_at c ps ]

  pub data_at-new : (ps : List Text) → data_at new ps ≡ none
  unfolding data_at get_key
  data_at-new [] = refl
  data_at-new (p ∷ ps) = refl

  get_key-insert_key :
      (s r : Text) (c : Node T) (cs : Children T)
      → get_key r (insert_key s c cs) ≡ (if text_eq s r then some c else get_key r cs)
  unfolding get_key insert_key
  get_key-insert_key s r c nil = refl
  get_key-insert_key s r c (cons k d cs) =
      ground (arith, get_key-insert_key s r c cs, text_eq_iff k s, text_eq_iff k r, text_eq_iff s r)

  -- `insert_inner` stores the data at its path and leaves every other path alone.
  pub data_at-insert_inner :
      (n : Node T) (ps qs : List Text) (v : T)
      → data_at (insert_inner n ps v) qs ≡ (if path_eq ps qs then some v else data_at n qs)
  unfolding data_at insert_inner
  data_at-insert_inner (node d cs) [] [] v = refl
  data_at-insert_inner (node d cs) [] (q ∷ qs) v = refl
  data_at-insert_inner (node d cs) (p ∷ ps) [] v = refl
  data_at-insert_inner (node d cs) (p ∷ ps) (q ∷ qs) v =
      let n = node d cs in
      ground (
        arith,
        get_key-insert_key p q (insert_inner (child_or_new n p) ps v) cs,
        data_at-insert_inner (child_or_new n p) ps qs v,
        text_eq_iff p q,
        data_at-new qs,
      )
