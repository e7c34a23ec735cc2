-- ===== src/Dns/Filters.antt =====
-- clash-lib/src/app/dns/{config.rs, resolver/enhanced.rs}: the configured filter of the fallback, and
-- `EnhancedResolver::new`, which makes the filters and the policy from the configuration.
--
-- `make_client` is `make_clients` for one server, which opens sockets. A network of the crate `ipnet`
-- is its `contains`. The parser of networks and `to_uppercase` are arguments.
use clash_rs.Prelude.{
  ℕ, Bool, not, ◌||◌, Option, none, some, is_some, List, [], ◌∷◌, any, map, ◌≡◌, refl, ap,
  if◌then◌else◌,
}
use clash_rs.Prelude.Text.{Text}
use clash_rs.Session.{IpAddr}
use clash_rs.Router.{Mmdb}
use clash_rs.Trie
use clash_rs.Trie.{Node}
use clash_rs.Dns.{
  IpFilter, geo_ip_filter, ip_net_filter, ip_filter_apply, in_country, DomainFilter,
  new_domain_filter,
}
use clash_rs.Dns.Enhanced.{should_ip_fallback, EnhancedResolver}

pub record FallbackFilter : Type 0 where
  pub geo_ip : Bool
  pub geo_ip_code : Text
  pub geo_ip_cache_expiration : Option ℕ
  pub ip_cidr : Option (List (IpAddr → Bool))
  pub domain : List Text
  pub match_noproxy : Bool

-- `FallbackFilter` of config/def.rs
pub record DefFilter : Type 0 where
  pub geo_ip : Bool
  pub geo_ip_code : Text
  pub geo_ip_cache_expiration : Option ℕ
  pub match_noproxy : Bool
  pub ip_cidr : List Text
  pub domain : List Text

module _ (parse_net : Text → Option (IpAddr → Bool)) where
  abbrev pub cons_net :
      Option (IpAddr → Bool) → Option (List (IpAddr → Bool)) → Option (List (IpAddr → Bool))
  cons_net (some net) (some nets) = some (net ∷ nets)
  cons_net net nets = none

  abbrev pub parse_fallback_ip_cidr : List Text → Option (List (IpAddr → Bool))
  parse_fallback_ip_cidr [] = some []
  parse_fallback_ip_cidr (ip ∷ ips) = cons_net (parse_net ip) (parse_fallback_ip_cidr ips)

  -- `From<def::FallbackFilter>`
  abbrev pub filter_of_def : (Text → Text) → DefFilter → FallbackFilter
  filter_of_def to_uppercase c = record {
    geo_ip = c.geo_ip;
    geo_ip_code = to_uppercase c.geo_ip_code;
    geo_ip_cache_expiration = c.geo_ip_cache_expiration;
    ip_cidr = parse_fallback_ip_cidr c.ip_cidr;
    domain = c.domain;
    match_noproxy = c.match_noproxy;
  }

pub record DnsConfig (NameServer : Type 0) : Type 0 where
  pub hosts : Option (Node IpAddr)
  pub nameserver : List NameServer
  pub fallback : List NameServer
  pub fallback_filter : FallbackFilter
  pub nameserver_policy : List (Text × NameServer)

abbrev pub net_filters : Option (List (IpAddr → Bool)) → List IpFilter
net_filters none = []
net_filters (some nets) = map ip_net_filter nets

unfoldable pub new_ip_filters : FallbackFilter → Option Mmdb → Option (List IpFilter)
new_ip_filters f mmdb =
    if is_some f.ip_cidr || f.geo_ip
    then some (geo_ip_filter f.geo_ip_code mmdb ∷ net_filters f.ip_cidr)
    else none

abbrev pub new_domain_filters : List Text → Option (List DomainFilter)
new_domain_filters [] = none
new_domain_filters (d ∷ ds) = some (new_domain_filter (d ∷ ds) ∷ [])

module _ {NameServer Client : Type 0} (make_client : NameServer → Client) where
  abbrev pub insert_policy : Node (List Client) → List (Text × NameServer) → Node (List Client)
  insert_policy p [] = p
  insert_policy p ((domain, ns) ∷ rest) =
      insert_policy (Trie.insert p domain (make_client ns ∷ [])).0 rest

  abbrev pub new_policy : List (Text × NameServer) → Option (Node (List Client))
  new_policy [] = none
  new_policy (entry ∷ rest) = some (insert_policy Trie.new (entry ∷ rest))

  abbrev pub new_fallback : List NameServer → Option (List Client)
  new_fallback [] = none
  new_fallback (ns ∷ rest) = some (map make_client (ns ∷ rest))

  unfoldable pub new : DnsConfig NameServer → Option Mmdb → EnhancedResolver Client
  unfolding new_ip_filters
  new cfg mmdb = record {
    hosts = cfg.hosts;
    main = map make_client cfg.nameserver;
    fallback = new_fallback cfg.fallback;
    fallback_domain_filters = new_domain_filters cfg.fallback_filter.domain;
    fallback_ip_filters = new_ip_filters cfg.fallback_filter mmdb;
    policy = new_policy cfg.nameserver_policy;
    geo_ip_cache_expiration = cfg.fallback_filter.geo_ip_cache_expiration;
    geo_ip_code = if cfg.fallback_filter.geo_ip then some cfg.fallback_filter.geo_ip_code else none;
    mmdb = if cfg.fallback_filter.geo_ip then mmdb else none;
    match_noproxy = cfg.fallback_filter.match_noproxy;
  }

  any-net_filters :
      (nets : List (IpAddr → Bool)) (ip : IpAddr)
      → any (λ f. ip_filter_apply f ip) (map ip_net_filter nets)
        ≡ any (λ contains. contains ip) nets
  any-net_filters [] ip = refl
  any-net_filters (n ∷ nets) ip = ap (λ b. n ip || b) (any-net_filters nets ip)

  -- When the networks of the configured filter can be parsed, the resolver made of the configuration
  -- refuses an address if and only if it is not known to be in the country or is in one of the
  -- networks. The switch `geoip` plays no part.
  pub should_ip_fallback-new :
      (parse_net : Text → Option (IpAddr → Bool)) (to_uppercase : Text → Text) (c : DefFilter)
      (cfg : DnsConfig NameServer) (mmdb : Option Mmdb) (ip : IpAddr) (nets : List (IpAddr → Bool))
      → cfg.fallback_filter ≡ filter_of_def parse_net to_uppercase c
      → parse_fallback_ip_cidr parse_net c.ip_cidr ≡ some nets
      → should_ip_fallback (new cfg mmdb) ip
        ≡ not (in_country (to_uppercase c.geo_ip_code) mmdb ip)
          || any (λ contains. contains ip) nets
  unfolding should_ip_fallback new new_ip_filters
  should_ip_fallback-new parse_net to_uppercase c cfg mmdb ip nets made parsed =
      rw (made, parsed, any-net_filters nets ip)
