-- ===== src/Trie/Examples.antt =====
-- Runs of the trie on the inputs of its own tests, and the theorems at concrete inputs.
use clash_rs.Prelude.{◌≡◌, refl, true, false, some, List, [], ◌∷◌, reverse, is_some, inl, inr, ℕ}
use clash_rs.Prelude.Text.{Text, codes}
use clash_rs.Trie.{
  Children, Node, get_data, new, insert, search, valid_and_split_domain, insert_inner, search_inner,
  get_key, insert_key, complex_wildcard,
}
use clash_rs.Trie.Paths.{data_at}
use clash_rs.Trie.Search.{Matches}
use clash_rs.Trie.Domains.{search_sound, search_complete, search-insert_plus}

-- `*.dev` and `+.cn` beside a plain domain.
tree : Node ℕ
unfolding insert insert_inner insert_key get_key valid_and_split_domain
tree = (insert (insert (insert new (codes "a.com") 1).0 (codes "*.dev") 2).0 (codes "+.cn") 3).0

searches :
    (is_some (search tree (codes "a.com")) ≡ true)
    × (is_some (search tree (codes "b.com")) ≡ false)
    × (is_some (search tree (codes "x.dev")) ≡ true)
    × (is_some (search tree (codes "x.y.dev")) ≡ false)
    × (is_some (search tree (codes "cn")) ≡ true)
    × (is_some (search tree (codes "x.y.cn")) ≡ true)
    × (is_some (search tree (codes "a.com.")) ≡ false)
unfolding tree search search_inner get_key valid_and_split_domain
searches = (refl, refl, refl, refl, refl, refl, refl)

split_x_dev : valid_and_split_domain (codes "x.dev") ≡ some (codes "x" ∷ codes "dev" ∷ [])
unfolding valid_and_split_domain
split_x_dev = refl

split_a_com : valid_and_split_domain (codes "a.com") ≡ some (codes "a" ∷ codes "com" ∷ [])
unfolding valid_and_split_domain
split_a_com = refl

split_plus_cn : valid_and_split_domain (codes "+.cn") ≡ some (complex_wildcard ∷ codes "cn" ∷ [])
unfolding valid_and_split_domain
split_plus_cn = refl

split_cn : valid_and_split_domain (codes "cn") ≡ some (codes "cn" ∷ [])
unfolding valid_and_split_domain
split_cn = refl

found_node : Node ℕ
found_node = Node.node (some 2) Children.nil

found_x_dev : search tree (codes "x.dev") ≡ some found_node
unfolding tree search search_inner get_key valid_and_split_domain found_node
found_x_dev = refl

search_sound_example :
    (parts : List Text) × (q : List Text) × (v : ℕ) × (valid_and_split_domain (codes "x.dev")
      ≡ some parts)
    × Matches q (reverse parts)
    × (get_data found_node ≡ some v)
    × (data_at tree q ≡ some v)
search_sound_example = search_sound tree (codes "x.dev") found_x_dev

stored_dev : data_at tree (codes "dev" ∷ codes "*" ∷ []) ≡ some 2
unfolding tree data_at get_key
stored_dev = refl

search_complete_example : is_some (search tree (codes "x.dev")) ≡ true
search_complete_example =
    search_complete tree (codes "x.dev") (codes "dev" ∷ codes "*" ∷ []) split_x_dev refl
      (inl (refl, inr (inl (refl, tt)))) stored_dev

search-insert_plus_example :
    (is_some (search (insert tree (codes "+.a.com") 7).0 (codes "a.com")) ≡ true)
    × (is_some (search (insert tree (codes "+.a.com") 7).0 (codes "x.dev.a.com")) ≡ true)
search-insert_plus_example =
    search-insert_plus tree (codes "a.com") (codes "x.dev") 7 split_a_com refl split_x_dev refl
