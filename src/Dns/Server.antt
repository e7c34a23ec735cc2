-- ===== src/Dns/Server.antt =====
-- clash-lib/src/app/dns/{resolver/enhanced.rs, server/handler.rs}: the resolution of a host name and
-- the answers of the DNS server.
--
-- `Names` is what the standard library and `hickory-proto` parse. The random choice of an address is
-- the argument `index`. The cache of reverse lookups (`lru_time_cache`) is not modelled,
-- and an error keeps its cause where the server wraps it.
use clash_rs.Prelude.{
  ℕ, ◌%◌, Bool, true, false, not, ◌||◌, Option, none, some, is_some, List, [], ◌∷◌, length,
  get_elem?, if◌then◌else◌,
}
use clash_rs.Prelude.Text.{Text}
use clash_rs.Prelude.Outcome.{Outcome, ok, err, panic}
use clash_rs.Session.{IpAddr, v4, v6}
use clash_rs.Trie
use clash_rs.Trie.{Node}
use clash_rs.FakeIp
use clash_rs.FakeIp.{Store, FakeDns, Fault, range}
use clash_rs.Dns.{type_a, type_aaaa, a_data, Query, Message, response_to, trim_end_matches}
use clash_rs.Dns.Enhanced.{
  DnsError, invalid_query, ipv6_disabled, out_of_fuel, EnhancedResolver, Lru, State, Reply,
}
use clash_rs.Dns.Resolve.{is_aaaa, lookup_name, exchange}

pub record Names : Type 0 where
  -- the fully qualified name of a host, as `to_ascii` gives it
  pub parse_name : Text → Option Text
  pub parse_v4 : Text → Option ℕ
  pub parse_v6 : Text → Option ℕ

-- An address of the other family is unreachable code.
abbrev pub v4_of : Option IpAddr → Outcome DnsError (Option ℕ)
v4_of none = panic
v4_of (some (v4 x)) = ok (some x)
v4_of (some (v6 x)) = panic

abbrev pub v6_of : Option IpAddr → Outcome DnsError (Option ℕ)
v6_of none = panic
v6_of (some (v6 x)) = ok (some x)
v6_of (some (v4 x)) = panic

-- `get_data().map(…)` of an entry of `hosts`
abbrev pub host_v4 : Option IpAddr → Outcome DnsError (Option ℕ)
host_v4 none = ok none
host_v4 (some ip) = v4_of (some ip)

abbrev pub host_v6 : Option IpAddr → Outcome DnsError (Option ℕ)
host_v6 none = ok none
host_v6 (some ip) = v6_of (some ip)

abbrev pub host_entry : Bool → Option (Node IpAddr) → Text → Option (Node IpAddr)
host_entry true (some hosts) host = Trie.search hosts host
host_entry enhanced hosts host = none

abbrev pub Resolved : (Client Stats S L : Type 0) → Type 0
Resolved Client Stats S L = Outcome DnsError (Option ℕ) × State Client Stats S L

abbrev pub chosen :
    {Client Stats S L : Type 0}
    → (Option IpAddr → Outcome DnsError (Option ℕ))
    → ℕ
    → Outcome DnsError (List IpAddr) × State Client Stats S L
    → Resolved Client Stats S L
chosen family index (ok ips, st) = (family (get_elem? ips (index % length ips)), st)
chosen family index (err e, st) = (err e, st)
chosen family index (panic, st) = (panic, st)

abbrev pub fake_v4 :
    {Client Stats S L : Type 0}
    → State Client Stats S L
    → Outcome Fault (IpAddr × FakeDns S)
    → Resolved Client Stats S L
fake_v4 st (ok (ip, d)) = (v4_of (some ip), record st { fake_dns = some d })
fake_v4 st (err e) = (err out_of_fuel, st)
fake_v4 st panic = (panic, st)

abbrev pub wants_aaaa : Option Query → Bool
wants_aaaa none = false
wants_aaaa (some q) = is_aaaa q.query_type

abbrev pub enabled_pool : {S : Type 0} → Bool → Option (FakeDns S) → Option (FakeDns S)
enabled_pool true d = d
enabled_pool false d = none

module _ {Client Stats S L : Type 0} (net : ℕ → List Client → Message → Outcome DnsError Message)
    (pool : Store S) (lru : Lru L) (r : EnhancedResolver Client) (names : Names) (index : ℕ) where
  abbrev pub v4_by_pool :
      ℕ → Text → State Client Stats S L → Option (FakeDns S) → Resolved Client Stats S L
  v4_by_pool now host st none =
      chosen v4_of index (lookup_name net pool lru r now type_a st (names.parse_name host))
  v4_by_pool now host st (some d) =
      if FakeIp.should_skip d host
      then chosen v4_of index (lookup_name net pool lru r now type_a st (names.parse_name host))
      else fake_v4 st (FakeIp.lookup pool (range d) d host)

  abbrev pub v4_by_literal :
      Bool → ℕ → Text → State Client Stats S L → Option ℕ → Resolved Client Stats S L
  v4_by_literal enhanced now host st (some x) = (ok (some x), st)
  v4_by_literal enhanced now host st none =
      v4_by_pool now host st (enabled_pool enhanced st.fake_dns)

  abbrev pub v4_by_hosts :
      Bool → ℕ → Text → State Client Stats S L → Option (Node IpAddr) → Resolved Client Stats S L
  v4_by_hosts enhanced now host st (some n) = (host_v4 (Trie.get_data n), st)
  v4_by_hosts enhanced now host st none = v4_by_literal enhanced now host st (names.parse_v4 host)

  unfoldable pub resolve_v4 : Text → Bool → ℕ → State Client Stats S L → Resolved Client Stats S L
  resolve_v4 host enhanced now st =
      v4_by_hosts enhanced now host st (host_entry enhanced r.hosts host)

  abbrev pub v6_by_literal :
      ℕ → Text → State Client Stats S L → Option ℕ → Resolved Client Stats S L
  v6_by_literal now host st (some x) = (ok (some x), st)
  v6_by_literal now host st none =
      chosen v6_of index (lookup_name net pool lru r now type_aaaa st (names.parse_name host))

  abbrev pub v6_by_hosts :
      ℕ → Text → State Client Stats S L → Option (Node IpAddr) → Resolved Client Stats S L
  v6_by_hosts now host st (some n) = (host_v6 (Trie.get_data n), st)
  v6_by_hosts now host st none = v6_by_literal now host st (names.parse_v6 host)

  unfoldable pub resolve_v6 : Text → Bool → ℕ → State Client Stats S L → Resolved Client Stats S L
  resolve_v6 host enhanced now st =
      if not st.ipv6
      then (err ipv6_disabled, st)
      else v6_by_hosts now host st (host_entry enhanced r.hosts host)

  abbrev pub v4_answer : Message → Resolved Client Stats S L → Reply Client Stats S L
  v4_answer req (ok (some x), st) = (ok (response_to req (a_data x ∷ [])), st)
  v4_answer req (ok none, st) = (ok (record (response_to req []) { nx_domain = true }), st)
  v4_answer req (err e, st) = (err e, st)
  v4_answer req (panic, st) = (panic, st)

  abbrev pub answer_query :
      Message → Bool → ℕ → State Client Stats S L → Option Query → Reply Client Stats S L
  answer_query req enhanced now st none = (err invalid_query, st)
  answer_query req enhanced now st (some q) =
      v4_answer req (resolve_v4 (trim_end_matches q.name b'.') enhanced now st)

  -- `exchange_with_resolver` of the DNS server
  unfoldable pub exchange_with_resolver :
      Message → Bool → ℕ → State Client Stats S L → Reply Client Stats S L
  exchange_with_resolver req enhanced now st =
      if wants_aaaa req.query || not (is_some st.fake_dns)
      then exchange net pool lru r now req st
      else answer_query req enhanced now st req.query

module _ {Client Stats S L : Type 0} (pool : Store S) where
  abbrev pub reverse_in :
      State Client Stats S L → Option (FakeDns S) → IpAddr → Option Text × State Client Stats S L
  reverse_in st none ip = (none, st)
  reverse_in st (some d) ip =
      let (host, d) = FakeIp.reverse_lookup pool d ip in (host, record st { fake_dns = some d })

  unfoldable pub reverse_lookup :
      IpAddr → State Client Stats S L → Option Text × State Client Stats S L
  reverse_lookup ip st = reverse_in st st.fake_dns ip

abbrev pub fake_in : {S : Type 0} → Option (FakeDns S) → IpAddr → Bool
fake_in none ip = false
fake_in (some d) ip = FakeIp.is_fake_ip d ip

unfoldable pub is_fake_ip : {Client Stats S L : Type 0} → IpAddr → State Client Stats S L → Bool
is_fake_ip ip st = fake_in st.fake_dns ip
