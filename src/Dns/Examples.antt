-- ===== src/Dns/Examples.antt =====
-- clash-lib/src/app/dns: runs at concrete inputs. A client is a number; the main servers, the group
-- 1, answer with 10.0.0.1, and the fallback, the group 2, with 10.0.0.2.
use clash_rs.Prelude.{
  ℕ, true, false, Option, none, some, List, [], ◌∷◌, ◌≡◌, ◌⊎◌, refl, ◌==◌, if◌then◌else◌, arith,
}
use clash_rs.Prelude.Text.{Text, codes}
use clash_rs.Prelude.Outcome.{Outcome, ok, panic}
use clash_rs.Prelude.Map
use clash_rs.Session.{IpAddr, v4, v6}
use clash_rs.Router.{Mmdb}
use clash_rs.Profile.{CacheFile, empty_db, get_domain_geoip}
use clash_rs.FakeIp.{Store}
use clash_rs.Dns.{type_a, Query, Message, a_data, response_to, geo_ip_filter}
use clash_rs.Dns.Enhanced.{
  DnsError, EnhancedResolver, Lru, State, foreign, match_policy, should_only_query_fallback,
  should_ip_fallback, geoip_trust, ip_exchange,
}
use clash_rs.Dns.Fallback.{IsFrom, IsClean, ip_exchange_safe}
use clash_rs.Dns.Cached.{geoip_trust-ip_exchange}
use clash_rs.Dns.Filters.{DefFilter, DnsConfig, filter_of_def, new, should_ip_fallback-new}

abbrev Stats : Type 0
Stats = Unit {0}

abbrev address : Query
address = record { name = codes "a.com."; query_type = type_a; class_in = true }

abbrev message : Message
message = record { query = some address; recursion_desired = true; nx_domain = false; answers = [] }

abbrev answer : ℕ → Message
answer x = response_to message (a_data x ∷ [])

abbrev answer_of : List ℕ → Outcome DnsError Message
answer_of [] = panic
answer_of (c ∷ cs) = if c == 1 then ok (answer 0x0a000001) else ok (answer 0x0a000002)

abbrev net : ℕ → List ℕ → Message → Outcome DnsError Message
net n clients m = answer_of clients

-- The main servers' address is in US, the other one is unknown.
abbrev country_of : IpAddr → Option Text
country_of (v4 x) = if x == 0x0a000001 then some (codes "US") else none
country_of (v6 x) = none

abbrev db : Mmdb
db = record { lookup_country = country_of; lookup_asn = λ ip. none }

abbrev file : CacheFile Stats
file = record { db = empty_db; store_selected = true }

abbrev resolver : EnhancedResolver ℕ
resolver = record {
  hosts = none;
  main = 1 ∷ [];
  fallback = some (2 ∷ []);
  fallback_domain_filters = none;
  fallback_ip_filters = some (geo_ip_filter (codes "CN") (some db) ∷ []);
  policy = none;
  geo_ip_cache_expiration = none;
  geo_ip_code = some (codes "CN");
  mmdb = some db;
  match_noproxy = false;
}

abbrev alone : EnhancedResolver ℕ
alone = record resolver { fallback = none }

abbrev no_pool : Store Stats
no_pool = record {
  get_by_host = λ s h. (none, s);
  pub_by_host = λ s h ip. s;
  get_by_ip = λ s ip. (none, s);
  put_by_ip = λ s ip h. s;
  del_by_ip = λ s ip. s;
  exist = λ s ip. (false, s);
}

abbrev no_lru : Lru Stats
no_lru = record { get = λ l q now. none; insert_records = λ l q rs now. l }

abbrev start : State ℕ Stats Stats Stats
start = record { asked = []; store = some file; fake_dns = none; lru_cache = none; ipv6 = false }

abbrev checked_state : State ℕ Stats Stats Stats
checked_state = (ip_exchange net no_pool resolver 100 message start).1

-- The cache knows the domain to be in US until the time 200.
abbrev abroad : State ℕ Stats Stats Stats
abroad = record start {
  store = some (record {
    db = record empty_db {
      domain_geoip = (codes "a.com", record { code = codes "US"; expires_at = 200 }) ∷ [];
    };
    store_selected = true;
  });
}

exchanged :
    ip_exchange net no_pool resolver 100 message start ≡ (ok (answer 0x0a000002), checked_state)
unfolding ip_exchange match_policy should_only_query_fallback should_ip_fallback geoip_trust
    get_domain_geoip Map.get
exchanged = refl

ip_exchange_safe_example :
    IsFrom net (2 ∷ []) message (answer 0x0a000002) checked_state.asked
    ⊎ (IsFrom net (1 ∷ []) message (answer 0x0a000002) checked_state.asked
        × IsClean resolver (answer 0x0a000002) (geoip_trust resolver 100 message start)
        × (should_only_query_fallback resolver message ≡ false))
unfolding match_policy
ip_exchange_safe_example =
    ip_exchange_safe net no_pool resolver message (answer 0x0a000002) (2 ∷ []) checked_state 100
      start refl refl refl exchanged

geoip_trust-ip_exchange_example :
    geoip_trust resolver 200 message (ip_exchange net no_pool resolver 100 message start).1
    ≡ foreign (codes "a.com")
unfolding match_policy should_only_query_fallback geoip_trust get_domain_geoip Map.get
geoip_trust-ip_exchange_example =
    geoip_trust-ip_exchange net no_pool resolver 100 message (answer 0x0a000001) start (2 ∷ [])
      (v4 0x0a000001) [] refl refl refl refl refl refl 200 86500 db file (codes "CN")
      (codes "a.com") (codes "US") refl refl refl refl refl (omega arith) refl refl (omega arith)

abbrev no_geo : DefFilter
no_geo = record {
  geo_ip = false;
  geo_ip_code = codes "CN";
  geo_ip_cache_expiration = none;
  match_noproxy = false;
  ip_cidr = [];
  domain = [];
}

abbrev config : DnsConfig ℕ
config = record {
  hosts = none;
  nameserver = 1 ∷ [];
  fallback = 2 ∷ [];
  fallback_filter = filter_of_def (λ s. none) (λ s. s) no_geo;
  nameserver_policy = [];
}

-- The address is refused although the filter for countries is off.
should_ip_fallback-new_example :
    should_ip_fallback (new (λ ns. ns) config (some db)) (v4 0x0a000001) ≡ true
should_ip_fallback-new_example =
    should_ip_fallback-new (λ ns. ns) (λ s. none) (λ s. s) no_geo config (some db) (v4 0x0a000001)
      [] refl refl
