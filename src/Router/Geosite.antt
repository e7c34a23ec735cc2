-- ===== src/Router/Geosite.antt =====
-- clash-lib/src/app/router/rules/geodata: the domain matchers of a geosite rule.
--
-- `is_match` and `compile` are the `regex` crate; `compile` gives `none` where it reports an error.
use clash_rs.Prelude.{
  ◌&&◌, leb, ◌||◌, any, map, reverse, ℕ, [], ◌∷◌, ◌++◌, is_some, ◌+◌, ◌-◌, ◌==◌, ltb, Bool, true,
  false, not, Option, none, some, List, if◌then◌else◌, length, get_elem?,
}
use clash_rs.Prelude.Text.{split_on, codes, Text, text_eq, ends_with, contains}
use clash_rs.Trie
use clash_rs.Trie.{Node}

-- `geodata_proto::domain::Type`
pub data DomainType : Type 0 where
  plain regex domain full : DomainType

pub record Domain : Type 0 where
  pub typ : DomainType
  pub value : Text
  -- the keys of its attributes
  pub attribute : List Text

pub data Matcher (Regex : Type 0) : Type 0 where
  full_matcher : Text → Matcher Regex
  sub_str_matcher : Text → Matcher Regex
  domain_matcher : Text → Matcher Regex
  regex_matcher : Regex → Matcher Regex

-- `DomainMatcher::matches`: the byte before the suffix is a dot. Its `i32` difference of lengths is
-- the test below, for texts shorter than 2 GiB.
abbrev pub domain_matches : Text → Text → Bool
domain_matches pattern url =
    if not (ends_with url pattern)
    then false
    else if length pattern == length url
    then true
    else if ltb (length url) (length pattern + 1)
    then false
    else elim (get_elem? url (length url - length pattern - 1)) [
      | none ↦ false
      | some b ↦ b == b'.'
    ]

module _ {Regex : Type 0} (is_match : Regex → Text → Bool) where
  unfoldable pub matches : Matcher Regex → Text → Bool
  matches (full_matcher d) url = text_eq d url
  matches (sub_str_matcher d) url = contains url d
  matches (domain_matcher d) url = domain_matches d url
  matches (regex_matcher r) url = is_match r url

module _ {Regex : Type 0} (compile : Text → Option Regex) where
  unfoldable pub try_new_matcher : Text → DomainType → Option (Matcher Regex)
  try_new_matcher d plain = some (sub_str_matcher d)
  try_new_matcher d regex = elim (compile d) [ none ↦ none | some r ↦ some (regex_matcher r) ]
  try_new_matcher d domain = some (domain_matcher d)
  try_new_matcher d full = some (full_matcher d)

-- `SuccinctMatcherGroup`
pub record DomainGroup (Regex : Type 0) : Type 0 where
  pub set : Node (Unit {0})
  pub other_matchers : List (Matcher Regex)
  pub not : Bool

module _ {Regex : Type 0} (is_match : Regex → Text → Bool) where
  unfoldable pub group_apply : DomainGroup Regex → Text → Bool
  unfolding matches
  group_apply group host =
      let result = is_some (Trie.search group.set host) in
      let result_of_set =
        if result then true else any (λ m. matches is_match m host) group.other_matchers in
      if group.not then not result_of_set else result_of_set

module _ {Regex : Type 0} (compile : Text → Option Regex) where
  -- One round of the loop of `try_new`, from the trie and the other matchers so far.
  unfoldable pub add_domain : Domain → DomainGroup Regex → Option (DomainGroup Regex)
  unfolding try_new_matcher
  add_domain d group = elim d.typ [
    | DomainType.plain ↦ elim (try_new_matcher compile d.value plain) [
      | none ↦ none
      | some m ↦ some (record group { other_matchers = group.other_matchers ++ (m ∷ []) })
    ]
    | DomainType.regex ↦ elim (try_new_matcher compile d.value regex) [
      | none ↦ none
      | some m ↦ some (record group { other_matchers = group.other_matchers ++ (m ∷ []) })
    ]
    | DomainType.domain ↦
        some (record group { set = (Trie.insert group.set (codes "+." ++ d.value) tt).0 })
    | DomainType.full ↦ some (record group { set = (Trie.insert group.set d.value tt).0 })
  ]

  unfoldable pub add_domains : List Domain → DomainGroup Regex → Option (DomainGroup Regex)
  unfolding add_domain
  add_domains [] group = some group
  add_domains (d ∷ ds) group = elim (add_domain d group) [ none ↦ none | some g ↦ add_domains ds g ]

  unfoldable pub try_new : List Domain → Bool → Option (DomainGroup Regex)
  unfolding add_domains
  try_new domains negated =
      add_domains domains (record { set = Trie.new; other_matchers = []; not = negated })

-- `trim` and `to_lowercase` on ASCII texts.
abbrev is_space : ℕ → Bool
is_space b = b == 32 || (leb 9 b && leb b 13)

abbrev trim_start : Text → Text
trim_start [] = []
trim_start (b ∷ s) = if is_space b then trim_start s else b ∷ s

abbrev pub trim : Text → Text
trim s = reverse (trim_start (reverse (trim_start s)))

abbrev pub to_lowercase : Text → Text
to_lowercase s = map (λ b. if leb 65 b && leb b 90 then b + 32 else b) s

-- `BooleanAttrMatcher` and `AndAttrMatcher`
abbrev pub attr_matches : Text → Domain → Bool
attr_matches key d = any (λ a. text_eq (to_lowercase a) (to_lowercase key)) d.attribute

abbrev pub and_attr_matches : List Text → Domain → Bool
and_attr_matches [] d = true
and_attr_matches (key ∷ keys) d =
    if not (attr_matches key d) then false else and_attr_matches keys d

abbrev attrs_of : List Text → List Text
attrs_of [] = []
attrs_of (p ∷ ps) = split_on b',' p

abbrev code_and_attrs : Bool → List Text → Option (Bool × Text × List Text)
code_and_attrs negated [] = none
code_and_attrs negated (code ∷ parts) = some (negated, code, attrs_of parts)

abbrev parse_code : Text → Option (Bool × Text × List Text)
parse_code [] = none
parse_code (b ∷ code) =
    if b == b'!'
    then code_and_attrs true (split_on b'@' code)
    else code_and_attrs false (split_on b'@' (b ∷ code))

-- Whether the code is negated, the code and the attributes that are asked for.
unfoldable pub parse : Text → Option (Bool × Text × List Text)
parse country_code = parse_code (to_lowercase (trim country_code))

abbrev filter : (Domain → Bool) → List Domain → List Domain
filter p [] = []
filter p (d ∷ ds) = let rest = filter p ds in if p d then d ∷ rest else rest

module _ {Regex : Type 0} (compile : Text → Option Regex) where
  -- `GeoSiteMatcher::new`, with the loader's `get`; `none` is one of its errors.
  unfoldable pub geo_site_new :
      Text → Option (Text → Option (List Domain)) → Option (DomainGroup Regex)
  unfolding parse try_new
  geo_site_new country_code loader = elim (parse country_code) [
    | none ↦ none
    | some (negated, code, attrs) ↦ elim loader [
      | none ↦ none
      | some lookup ↦ elim (lookup code) [
        | none ↦ none
        | some list ↦ try_new compile (filter (λ d. and_attr_matches attrs d) list) negated
      ]
    ]
  ]
