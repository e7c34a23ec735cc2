-- ===== src/Dns.antt =====
-- clash-lib/src/app/dns: DNS messages, the filters of the fallback, and the resolver's state.
--
-- A message keeps what the code reads of one of the crate `hickory-proto`: a question, the flag for
-- recursion, and the answers. A name is the text that `to_ascii` gives.
pub mod Enhanced
pub mod Resolve
pub mod Server
pub mod Filters
pub mod Fallback
pub mod Cached
pub mod FakeIps
mod Examples
use clash_rs.Prelude.{
  is_some, ℕ, ◌+◌, ◌%◌, ◌==◌, Bool, true, false, not, Option, none, some, List, [], ◌∷◌, any,
  reverse, if◌then◌else◌,
}
use clash_rs.Prelude.Text.{Text, text_eq}
use clash_rs.Session.{IpAddr, v4, v6}
use clash_rs.Router.{Mmdb, holds}
use clash_rs.Trie
use clash_rs.Trie.{Node}

pub data RecordType : Type 0 where
  type_a type_aaaa type_txt type_other : RecordType

pub data RecordData : Type 0 where
  a_data : ℕ → RecordData
  aaaa_data : ℕ → RecordData
  other_data : RecordData

pub record Query : Type 0 where
  pub name : Text
  pub query_type : RecordType
  pub class_in : Bool

pub record Message : Type 0 where
  pub query : Option Query
  pub recursion_desired : Bool
  pub nx_domain : Bool
  pub answers : List RecordData

-- `str::trim_end_matches` for a byte, on the reversed text
abbrev pub drop_first : ℕ → Text → Text
drop_first c [] = []
drop_first c (b ∷ s) = let rest = drop_first c s in if b == c then rest else b ∷ s

abbrev pub trim_end_matches : Text → ℕ → Text
trim_end_matches s c = reverse (drop_first c (reverse s))

abbrev pub is_ip_type : RecordType → Bool
is_ip_type type_a = true
is_ip_type type_aaaa = true
is_ip_type t = false

abbrev pub is_ip_request : Query → Bool
is_ip_request q = if q.class_in then is_ip_type q.query_type else false

abbrev pub domain_name_of_query : Option Query → Option Text
domain_name_of_query none = none
domain_name_of_query (some q) = some (trim_end_matches q.name b'.')

abbrev pub domain_name_of_message : Message → Option Text
domain_name_of_message m = domain_name_of_query m.query

abbrev pub ip_list : List RecordData → List IpAddr
ip_list [] = []
ip_list (a_data x ∷ rs) = v4 x ∷ ip_list rs
ip_list (aaaa_data x ∷ rs) = v6 x ∷ ip_list rs
ip_list (other_data ∷ rs) = ip_list rs

abbrev pub ip_list_of_message : Message → List IpAddr
ip_list_of_message m = ip_list m.answers

-- `build_dns_response_message`, of which the answers are added later
abbrev pub response_to : Message → List RecordData → Message
response_to m answers = record m { nx_domain = false; answers = answers }

-- The filters of `FallbackIPFilter`: a country code with the database, and a network.
pub data IpFilter : Type 1 where
  geo_ip_filter : Text → Option Mmdb → IpFilter
  ip_net_filter : (IpAddr → Bool) → IpFilter

-- The database knows the country of the address, and it has the code.
abbrev pub in_country : Text → Option Mmdb → IpAddr → Bool
in_country code mmdb ip =
    holds mmdb (λ db. holds (db.lookup_country ip) (λ country. text_eq country code))

-- `FallbackIPFilter::apply`
abbrev pub ip_filter_apply : IpFilter → IpAddr → Bool
ip_filter_apply (geo_ip_filter code mmdb) ip = not (in_country code mmdb ip)
ip_filter_apply (ip_net_filter contains) ip = contains ip

-- `DomainFilter`: the data of the trie is never read.
abbrev pub DomainFilter : Type 0
DomainFilter = Node (Option Text)

abbrev pub insert_domains : DomainFilter → List Text → DomainFilter
insert_domains f [] = f
insert_domains f (d ∷ ds) = insert_domains (Trie.insert f d none).0 ds

unfoldable pub new_domain_filter : List Text → DomainFilter
new_domain_filter domains = insert_domains Trie.new domains

unfoldable pub domain_filter_apply : DomainFilter → Text → Bool
domain_filter_apply f domain = is_some (Trie.search f domain)
