-- ===== src/FakeIp/Examples.antt =====
-- The pool of the subnet 192.168.0.0/29 over an empty cache file, and the theorems about it.
use clash_rs.Prelude.{
  inr, inl, Bool-cases, ◌≡◌, refl, List, [], ◌∷◌, Option, none, some, true, if◌then◌else◌, ◌==◌,
  arith,
}
use clash_rs.Prelude.Text.{text_eq, text_eq_iff, Text, codes}
use clash_rs.Prelude.Outcome.{ok}
use clash_rs.Prelude.Map
use clash_rs.Prelude.Map.{Map}
use clash_rs.Profile.{get_fake_ip, set_ip_to_host, set_host_to_ip, CacheFile, empty_db}
use clash_rs.Session.{IpAddr, v4, v6, domain, socks_ip}
use clash_rs.Session.Convert.{try_from_host}
use clash_rs.Session.State.{Session, tcp}
use clash_rs.Router.{
  Env, Rule, domain_rule, match_route, route_from, prepare, resolve_step, asn_step, apply,
}
use clash_rs.Dispatcher.{
  rule, dispatch_stream, lookup_destination, expect_host, connect, choose, outbound_or_direct,
  dispatch_stream-fake,
}
use clash_rs.FakeIp.{
  err, ℕ, is_fake_ip, should_skip, false, get, get_loop, reverse_lookup, FakeDns, IpNet, new,
  lookup,
}
use clash_rs.Dns.Server
use clash_rs.Dns.{type_a, Query, Message, a_data, response_to}
use clash_rs.Dns.Enhanced.{EnhancedResolver, Lru, State, no_record}
use clash_rs.Dns.Server.{Names, exchange_with_resolver}
use clash_rs.Dns.FakeIps.{reverse_lookup-exchange}
use clash_rs.FakeIp.Laws.{IsLawful}
use clash_rs.FakeIp.Loop.{lookup_total}
use clash_rs.FakeIp.Pool.{lookup-LookedUp, lookup_gateway, LookedUp, IsValid}
use clash_rs.FakeIp.FileStore.{
  exist, get_by_host, pub_by_host, get_by_ip, put_by_ip, file_store, file_view, file_store-IsLawful,
  IsApart,
}

-- A family and a number for the text of an address.
abbrev print_ip : IpAddr → Text
print_ip (v4 a) = b'4' ∷ a ∷ []
print_ip (v6 a) = b'6' ∷ a ∷ []

abbrev parse_ip : Text → Option IpAddr
parse_ip (f ∷ a ∷ []) = if f == b'4' then some (v4 a) else if f == b'6' then some (v6 a) else none
parse_ip _ = none

parse-print : (ip : IpAddr) → parse_ip (print_ip ip) ≡ some ip
parse-print (v4 a) = refl
parse-print (v6 a) = refl

abbrev Stats : Type 0
Stats = Unit {0}

abbrev file : CacheFile Stats
file = record { db = empty_db; store_selected = true }

abbrev net : IpNet
net = record { network = v4 0xc0a80000; prefix_len = 29; contains = λ ip. true }

abbrev pool : FakeDns (CacheFile Stats)
pool = record {
  max = 0xc0a80007;
  min = 0xc0a80002;
  gateway = 0xc0a80001;
  offset = 0;
  skipped_hostnames = none;
  ipnet = net;
  store = file;
}

new-pool : new net none file ≡ ok pool
unfolding new
new-pool = refl

file_store-IsLawful_example :
    IsLawful (file_view {Stats = Stats} print_ip parse_ip) (file_store print_ip parse_ip)
file_store-IsLawful_example = file_store-IsLawful print_ip parse_ip parse-print

file-IsApart : IsApart print_ip parse_ip file
unfolding Map.get
file-IsApart = record { no_hosts = λ ip. refl; no_ips = λ h e. refl }

pool-IsValid :
    IsValid
      (file_store print_ip parse_ip)
      (file_view print_ip parse_ip)
      file_store-IsLawful_example
      pool
unfolding Map.get
pool-IsValid = record { in_range = omega arith; stored = file-IsApart; back = λ h ip e. cc }

lookup_total_example :
    (ip : IpAddr) × (d : FakeDns (CacheFile Stats)) × (lookup
        (file_store print_ip parse_ip)
        5
        pool
        (codes "foo.com")
      ≡ ok (ip, d))
lookup_total_example =
    lookup_total (file_store print_ip parse_ip) pool (codes "foo.com") (omega arith)

abbrev last_pool : FakeDns (CacheFile Stats)
last_pool = record pool { offset = 4 }

last_pool-IsValid :
    IsValid
      (file_store print_ip parse_ip)
      (file_view print_ip parse_ip)
      file_store-IsLawful_example
      last_pool
unfolding Map.get
last_pool-IsValid = record { in_range = omega arith; stored = file-IsApart; back = λ h ip e. cc }

lookup-LookedUp_example :
    (ip : IpAddr) × (d : FakeDns (CacheFile Stats)) × (lookup
        (file_store print_ip parse_ip)
        5
        pool
        (codes "foo.com")
      ≡ ok (ip, d))
    × LookedUp
        (file_store print_ip parse_ip)
        (file_view print_ip parse_ip)
        file_store-IsLawful_example
        pool
        (codes "foo.com")
        ip
        d
lookup-LookedUp_example =
    lookup-LookedUp (file_store print_ip parse_ip) (file_view print_ip parse_ip)
      file_store-IsLawful_example pool (codes "foo.com") pool-IsValid refl

-- The pool once `foo.com` has its address.
abbrev paired : CacheFile Stats
paired = record {
  db = record empty_db {
    ip_to_host = (print_ip (v4 0xc0a80002), codes "foo.com") ∷ [];
    host_to_ip = (codes "foo.com", print_ip (v4 0xc0a80002)) ∷ [];
  };
  store_selected = true;
}

abbrev used_pool : FakeDns (CacheFile Stats)
used_pool = record pool { offset = 1; store = paired }

lookup_runs :
    lookup (file_store print_ip parse_ip) 5 pool (codes "foo.com") ≡ ok (v4 0xc0a80002, used_pool)
unfolding lookup get get_loop get_by_host pub_by_host get_by_ip put_by_ip exist get_fake_ip
    set_ip_to_host set_host_to_ip Map.get Map.insert
lookup_runs = refl

used_back :
    (h : Text) (ip : IpAddr)
    → (file_view print_ip parse_ip).host_view paired h ≡ some ip
    → (file_view print_ip parse_ip).ip_view paired ip ≡ some h
unfolding Map.get
used_back h ip e = elim (Bool-cases (text_eq (codes "foo.com") h)) [
  | inl same ↦
      ground (
        arith,
        text_eq_iff (codes "foo.com") h,
        text_eq_iff (print_ip (v4 0xc0a80002)) (print_ip ip),
      )
  | inr other ↦ ground (arith, other)
]

paired-IsApart : IsApart print_ip parse_ip paired
unfolding Map.get
paired-IsApart = record {
  no_hosts = foo_is_no_ip;
  no_ips = λ h e. ground (arith, text_eq_iff (print_ip (v4 0xc0a80002)) h);
}
  where
    foo_is_no_ip : (ip : IpAddr) → Map.get paired.db.host_to_ip (print_ip ip) ≡ none
    foo_is_no_ip (v4 a) = refl
    foo_is_no_ip (v6 a) = refl

used_pool-IsValid :
    IsValid
      (file_store print_ip parse_ip)
      (file_view print_ip parse_ip)
      file_store-IsLawful_example
      used_pool
used_pool-IsValid = record { in_range = omega arith; stored = paired-IsApart; back = used_back }

foo_assigned :
    (file_view print_ip parse_ip).host_view paired (codes "foo.com") ≡ some (v4 0xc0a80002)
unfolding Map.get
foo_assigned = refl

lookup_gateway_example :
    (d : FakeDns (CacheFile Stats)) × (lookup
        (file_store print_ip parse_ip)
        5
        last_pool
        (codes "foo.com")
      ≡ ok (v4 0xc0a80001, d))
unfolding Map.get
lookup_gateway_example =
    lookup_gateway (file_store print_ip parse_ip) (file_view print_ip parse_ip)
      file_store-IsLawful_example 4 last_pool (codes "foo.com") last_pool-IsValid refl refl
      (omega arith) (omega arith) (omega arith) (omega arith) refl

abbrev foo_question : Query
foo_question = record { name = codes "foo.com."; query_type = type_a; class_in = true }

abbrev request : Message
request = record {
  query = some foo_question;
  recursion_desired = true;
  nx_domain = false;
  answers = [];
}

abbrev resolver : EnhancedResolver Stats
resolver = record {
  hosts = none;
  main = [];
  fallback = none;
  fallback_domain_filters = none;
  fallback_ip_filters = none;
  policy = none;
  geo_ip_cache_expiration = none;
  geo_ip_code = none;
  mmdb = none;
  match_noproxy = false;
}

abbrev no_lru : Lru Stats
no_lru = record { get = λ l q now. none; insert_records = λ l q rs now. l }

abbrev no_names : Names
no_names = record { parse_name = λ h. none; parse_v4 = λ h. none; parse_v6 = λ h. none }

abbrev dns_state : State Stats Stats (CacheFile Stats) Stats
dns_state = record {
  asked = [];
  store = none;
  fake_dns = some pool;
  lru_cache = none;
  ipv6 = false;
}

reverse_lookup-exchange_example :
    (x : ℕ) × (st' : State Stats Stats (CacheFile Stats) Stats) × (exchange_with_resolver
        (λ n cs m. err no_record)
        (file_store print_ip parse_ip)
        no_lru
        resolver
        no_names
        0
        request
        true
        100
        dns_state
      ≡ (ok (response_to request (a_data x ∷ [])), st'))
    × ((Server.reverse_lookup (file_store print_ip parse_ip) (v4 x) st').0 ≡ some (codes "foo.com"))
unfolding should_skip Map.get
reverse_lookup-exchange_example =
    reverse_lookup-exchange (λ n cs m. err no_record) (file_store print_ip parse_ip)
      (file_view print_ip parse_ip) file_store-IsLawful_example no_lru resolver no_names 0 100
      request foo_question dns_state pool refl refl refl pool-IsValid refl refl refl refl
      (λ old e. cc)

-- No regular expressions, networks or processes.
abbrev env : Env
env = record {
  Regex = Text;
  is_match = text_eq;
  compile = λ s. some s;
  IpNet = Text;
  contains_ip = λ n ip. false;
  parse_net = λ s. none;
  parse_ip = λ s. none;
  find_process_name = λ src dst net. none;
  resolve = λ n d. none;
}

abbrev handlers : Map Text
handlers = (codes "DIRECT", codes "direct") ∷ (codes "PROXY", codes "proxy") ∷ []

abbrev rules : List (Rule env)
rules = domain_rule (codes "foo.com") (codes "PROXY") ∷ []

abbrev sess : Session
sess = record {
  id = 1;
  network = tcp;
  source = record { ip = v4 1; port = 50000 };
  destination = socks_ip (v4 0xc0a80002) 443;
  resolved_ip = none;
  so_mark = none;
  iface = none;
  asn = none;
}

abbrev used_state : State Stats Stats (CacheFile Stats) Stats
used_state = record dns_state { fake_dns = some used_pool }

dispatch_runs :
    (dispatch_stream
      (file_store print_ip parse_ip)
      (λ ip. none)
      env
      handlers
      none
      rules
      rule
      sess
      used_state).0
    ≡ ok (
      codes "proxy",
      record sess { destination = domain (codes "foo.com") 443 },
      some (domain_rule (codes "foo.com") (codes "PROXY")),
    )
unfolding dispatch_stream lookup_destination expect_host connect choose outbound_or_direct
    match_route route_from prepare resolve_step asn_step apply Server.reverse_lookup
    Server.is_fake_ip is_fake_ip reverse_lookup get_by_ip get_fake_ip try_from_host Map.get
dispatch_runs = refl

dispatch_stream-fake_example :
    (dispatch_stream
      (file_store print_ip parse_ip)
      (λ ip. none)
      env
      handlers
      none
      rules
      rule
      sess
      used_state).0
    ≡ (dispatch_stream
        (file_store print_ip parse_ip)
        (λ ip. none)
        env
        handlers
        none
        rules
        rule
        (record sess { destination = domain (codes "foo.com") 443 })
        used_state).0
dispatch_stream-fake_example =
    dispatch_stream-fake (file_store print_ip parse_ip) (λ ip. none) env handlers none rules
      (file_view print_ip parse_ip) file_store-IsLawful_example used_state used_pool sess rule
      (codes "foo.com") 0xc0a80002 443 refl used_pool-IsValid foo_assigned refl
