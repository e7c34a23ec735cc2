-- ===== src/Trie.antt =====
-- clash-lib/src/common/trie.rs: the domain trie behind the fake-ip filter, the name-server policy,
-- the fallback domain filter and the geosite groups.
--
-- A domain is a text (its bytes). A node's `HashMap` of children is an association list with one
-- entry for each key. The loops of `insert_inner` and `search_inner` run from the last label to
-- the first, so here they take the labels reversed. `Arc` leaves no trace.
pub mod Paths
pub mod Search
mod Split
pub mod Domains
mod Examples
use clash_rs.Prelude.{
  ◌==◌, Bool, true, false, ◌&&◌, Option, none, some, List, [], ◌∷◌, ◌++◌, reverse, is_some, or_else,
  if◌then◌else◌, any, not,
}
use clash_rs.Prelude.Text.{Text, codes, text_eq, ends_with, split_on, is_empty}

mutual
  pub data Node {ℓ} (T : Type ℓ) : Type ℓ where
    node : Option T → Children T → Node T

  pub data Children {ℓ} (T : Type ℓ) : Type ℓ where
    nil : Children T
    cons : Text → Node T → Children T → Children T

abbrev pub domain_step : Text
domain_step = codes "."

abbrev pub complex_wildcard : Text
complex_wildcard = codes "+"

abbrev pub dot_wildcard : Text
dot_wildcard = []

abbrev pub wildcard : Text
wildcard = codes "*"

module _ {ℓ} {T : Type ℓ} where
  abbrev pub new : Node T
  new = node none nil

  abbrev pub get_data : Node T → Option T
  get_data (node d cs) = d

  -- `HashMap::get` and `HashMap::insert`
  unfoldable pub get_key : Text → Children T → Option (Node T)
  get_key s nil = none
  get_key s (cons k c cs) = if text_eq k s then some c else get_key s cs

  unfoldable pub insert_key : Text → Node T → Children T → Children T
  insert_key s c nil = cons s c nil
  insert_key s c (cons k d cs) = if text_eq k s then cons s c cs else cons k d (insert_key s c cs)

  abbrev pub get_child : Node T → Text → Option (Node T)
  get_child (node d cs) s = get_key s cs

  abbrev pub add_child : Node T → Text → Node T → Node T
  add_child (node d cs) s c = node d (insert_key s c cs)

  abbrev pub set_data : Node T → T → Node T
  set_data (node d cs) v = node (some v) cs

  -- The child to go on with: the one that is there, or a new one.
  abbrev pub child_or_new : Node T → Text → Node T
  child_or_new n s = elim (get_child n s) [ none ↦ new | some c ↦ c ]

  unfoldable pub insert_inner : Node T → List Text → T → Node T
  insert_inner n [] v = set_data n v
  insert_inner n (p ∷ ps) v = add_child n p (insert_inner (child_or_new n p) ps v)

  -- `if let Some(n) = … && n.data.is_some()`
  abbrev pub with_data : Option (Node T) → Option (Node T)
  with_data none = none
  with_data (some n) = if is_some (get_data n) then some n else none

  unfoldable pub search_inner : Node T → List Text → Option (Node T)
  search_inner n [] = some n
  search_inner n (p ∷ ps) =
      let exact : Option (Node T) = elim (get_child n p) [
        | none ↦ none
        | some c ↦ with_data (search_inner c ps)
      ] in
      let starred : Option (Node T) = elim (get_child n wildcard) [
        | none ↦ none
        | some c ↦ with_data (search_inner c ps)
      ] in
      or_else exact (or_else starred (get_child n dot_wildcard))

-- `none` is the source's `(None, false)`.
abbrev pub check_parts : List Text → Option (List Text)
check_parts [] = none
check_parts (p ∷ []) = if is_empty p then none else some (p ∷ [])
check_parts (p ∷ ps) = if any is_empty ps then none else some (p ∷ ps)

unfoldable pub valid_and_split_domain : Text → Option (List Text)
valid_and_split_domain domain =
    if not (is_empty domain) && ends_with domain domain_step
    then none
    else check_parts (split_on b'.' domain)

module _ {ℓ} {T : Type ℓ} where
  -- The two writes for `+.d`, the one write for any other domain.
  unfoldable pub insert_parts : Node T → List Text → T → Node T
  unfolding insert_inner
  insert_parts t [] v = t
  insert_parts t (p ∷ ps) v =
      if text_eq p complex_wildcard
      then insert_inner (insert_inner t (reverse ps) v) (reverse (dot_wildcard ∷ ps)) v
      else insert_inner t (reverse (p ∷ ps)) v

  unfoldable pub insert : Node T → Text → T → Node T × Bool
  unfolding insert_parts
  insert t domain v = elim (valid_and_split_domain domain) [
    | none ↦ (t, false)
    | some parts ↦ (insert_parts t parts v, true)
  ]

  unfoldable pub search_parts : Node T → List Text → Option (Node T)
  unfolding search_inner
  search_parts t [] = none
  search_parts t (p ∷ ps) =
      if is_empty p then none else with_data (search_inner t (reverse (p ∷ ps)))

  unfoldable pub search : Node T → Text → Option (Node T)
  unfolding search_parts
  search t domain = elim (valid_and_split_domain domain) [
    | none ↦ none
    | some parts ↦ search_parts t parts
  ]
