-- ===== src/Router.antt =====
-- clash-lib/src/app/router: the rules and the choice of the first one that applies.
--
-- `Rule` has a constructor for each implementation of the trait `RuleMatcher`, with its fields.
-- `Env` holds what is not part of the program: the crates `regex`, `ipnet`, `maxminddb` and
-- `sock2proc`, `str::parse::<IpAddr>` and the DNS resolver's answers, one for each call. A rule set
-- holds the `search` of its provider.
pub mod Geosite
pub mod Config
pub mod First
pub mod Resolve
pub mod Suffix
mod Examples
use clash_rs.Prelude.{
  ℕ, suc, ◌+◌, ◌==◌, Bool, true, false, ◌&&◌, ◌||◌, not, Option, none, some, is_some, or_else, List,
  [], ◌∷◌, ◌++◌, if◌then◌else◌,
}
use clash_rs.Prelude.Text.{Text, codes, text_eq, ends_with, contains}
use clash_rs.Session.{
  IpAddr, SocketAddr, SocksAddr, domain, ip, port_of, is_domain, domain_of, try_into_socket_addr,
}
use clash_rs.Session.Convert.{ip_of}
use clash_rs.Session.State.{Session, Network, tcp, udp}
use clash_rs.Router.Geosite.{DomainGroup, group_apply}

-- The two lookups of an `MmdbLookup`; `none` is an error.
pub record Mmdb : Type 0 where
  pub lookup_country : IpAddr → Option Text
  pub lookup_asn : IpAddr → Option Text

pub record Env : Type 1 where
  pub Regex : Type 0
  pub is_match : Regex → Text → Bool
  pub compile : Text → Option Regex
  pub IpNet : Type 0
  pub contains_ip : IpNet → IpAddr → Bool
  pub parse_net : Text → Option IpNet
  pub parse_ip : Text → Option IpAddr
  pub find_process_name : SocketAddr → Option SocketAddr → Network → Option Text
  -- the answer to the n-th call of the resolver; `none` is an error or `Ok(None)`
  pub resolve : ℕ → Text → Option IpAddr

abbrev pub network_eq : Network → Network → Bool
network_eq tcp tcp = true
network_eq tcp udp = false
network_eq udp tcp = false
network_eq udp udp = true

unfoldable pub suffix_matches : Text → Text → Bool
suffix_matches suffix d = ends_with d (codes "." ++ suffix) || text_eq d suffix

abbrev pub no_rule : Text
no_rule = codes "MATCH"

-- The rules that look at the destination's domain never apply to an address.
abbrev pub on_domain : SocksAddr → (Text → Bool) → Bool
on_domain (SocksAddr.ip a) f = false
on_domain (domain d p) f = f d

abbrev pub holds {ℓ} : {A : Type ℓ} → Option A → (A → Bool) → Bool
holds none f = false
holds (some a) f = f a

module _ (env : Env) where
  open env use {Regex, is_match, IpNet, contains_ip, parse_ip, find_process_name, resolve}

  pub data Rule : Type 0 where
    domain_rule : (domain target : Text) → Rule
    domain_regex : (regex : Regex) (target : Text) → Rule
    domain_suffix : (suffix target : Text) → Rule
    domain_keyword : (keyword target : Text) → Rule
    ip_cidr : (ipnet : IpNet) (target : Text) (match_src no_resolve : Bool) → Rule
    geo_ip : (target country_code : Text) (no_resolve : Bool) (mmdb : Option Mmdb) → Rule
    geo_site : (country_code target : Text) (matcher : DomainGroup Regex) → Rule
    port_rule : (port : ℕ) (target : Text) (is_src : Bool) → Rule
    process : (name target : Text) (name_only : Bool) → Rule
    rule_set : (rule_set target : Text) (search : Session → Bool) → Rule
    final_rule : (target : Text) → Rule
    network_rule : (network : Network) (target : Text) → Rule

  abbrev pub target_of : Rule → Text
  target_of (domain_rule d t) = t
  target_of (domain_regex r t) = t
  target_of (domain_suffix s t) = t
  target_of (domain_keyword k t) = t
  target_of (ip_cidr n t m r) = t
  target_of (geo_ip t c n m) = t
  target_of (geo_site c t m) = t
  target_of (port_rule p t s) = t
  target_of (process n t o) = t
  target_of (rule_set r t s) = t
  target_of (final_rule t) = t
  target_of (network_rule n t) = t

  abbrev pub should_resolve_ip : Rule → Bool
  should_resolve_ip (ip_cidr n t m no_resolve) = not no_resolve
  should_resolve_ip (geo_ip t c no_resolve m) = not no_resolve
  should_resolve_ip _ = false

  -- `sess.resolved_ip.or(sess.destination.ip())`
  abbrev pub maybe_ip : Session → Option IpAddr
  maybe_ip sess = or_else sess.resolved_ip (ip_of parse_ip sess.destination)

  abbrev pub ip_cidr_apply : IpNet → Bool → Session → Bool
  ip_cidr_apply n match_src sess =
      if match_src
      then contains_ip n sess.source.ip
      else holds (maybe_ip sess) (λ a. contains_ip n a)

  abbrev pub geo_ip_apply : Text → Option Mmdb → Session → Bool
  geo_ip_apply code mmdb sess =
      holds (maybe_ip sess)
        (λ a. holds mmdb (λ db. holds (db.lookup_country a) (λ country. text_eq country code)))

  abbrev pub port_apply : ℕ → Bool → Session → Bool
  port_apply p is_src sess = if is_src then sess.source.port == p else port_of sess.destination == p

  abbrev pub process_apply : Text → Bool → Session → Bool
  process_apply name name_only sess =
      holds (find_process_name sess.source (try_into_socket_addr sess.destination) sess.network)
        (λ proc. if name_only then text_eq proc name else contains proc name)

  unfoldable pub apply : Rule → Session → Bool
  unfolding suffix_matches
  apply (domain_rule d t) sess = on_domain sess.destination (λ host. text_eq d host)
  apply (domain_regex r t) sess = on_domain sess.destination (λ host. is_match r host)
  apply (domain_suffix s t) sess = on_domain sess.destination (λ host. suffix_matches s host)
  apply (domain_keyword k t) sess = on_domain sess.destination (λ host. contains host k)
  apply (ip_cidr n t match_src no_resolve) sess = ip_cidr_apply n match_src sess
  apply (geo_ip t code no_resolve mmdb) sess = geo_ip_apply code mmdb sess
  apply (geo_site c t matcher) sess =
      on_domain sess.destination (λ host. group_apply is_match matcher host)
  apply (port_rule p t is_src) sess = port_apply p is_src sess
  apply (process name t name_only) sess = process_apply name name_only sess
  apply (rule_set r t search) sess = search sess
  apply (final_rule t) sess = true
  apply (network_rule n t) sess = network_eq sess.network n

  -- The session with the loop's other variables: whether it was resolved here, and how often the
  -- resolver was asked.
  pub record Progress : Type 0 where
    pub sess : Session
    pub sess_resolved : Bool
    pub asked : ℕ

  abbrev pub answered : Progress → Option IpAddr → Progress
  answered st none = record st { asked = st.asked + 1 }
  answered st (some a) = record {
    sess = record st.sess { resolved_ip = some a };
    sess_resolved = true;
    asked = st.asked + 1;
  }

  unfoldable pub resolve_step : Rule → Progress → Progress
  resolve_step r st =
      if should_resolve_ip r && not st.sess_resolved
      then elim (domain_of st.sess.destination) [
        | none ↦ st
        | some d ↦ answered st (resolve st.asked d)
      ]
      else st

  abbrev pub asn_or : Option Text → Option Text → Option Text
  asn_or (some country) asn = some country
  asn_or none asn = asn

  abbrev pub asn_at : Mmdb → Session → Option IpAddr → Session
  asn_at db sess none = sess
  asn_at db sess (some a) =
      let asn = asn_or (db.lookup_country a) sess.asn in
      record sess { asn = if is_some asn then asn else db.lookup_asn a }

  unfoldable pub asn_step : Option Mmdb → Session → Session
  asn_step none sess = sess
  asn_step (some db) sess = asn_at db sess (maybe_ip sess)

  -- What the loop does to the session before it asks whether the rule applies.
  unfoldable pub prepare : Option Mmdb → Rule → Progress → Progress
  prepare asn_mmdb r st =
      let resolved = resolve_step r st in record resolved { sess = asn_step asn_mmdb resolved.sess }

  -- The target, the rule and what the session has become.
  unfoldable pub route_from : Option Mmdb → List Rule → Progress → Text × Option Rule × Progress
  route_from asn_mmdb [] st = (no_rule, none, st)
  route_from asn_mmdb (r ∷ rules) st =
      let st' = prepare asn_mmdb r st in
      let rest = route_from asn_mmdb rules st' in
      if apply r st'.sess then (target_of r, some r, st') else rest

  unfoldable pub match_route : Option Mmdb → List Rule → Session → Text × Option Rule × Progress
  unfolding route_from
  match_route asn_mmdb rules sess =
      route_from asn_mmdb rules (record { sess = sess; sess_resolved = false; asked = 0 })
