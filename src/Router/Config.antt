-- ===== src/Router/Config.antt =====
-- clash-lib/src/config/internal/rule.rs and `map_rule_type` of clash-lib/src/app/router/mod.rs: the
-- lines of the configuration's rules.
--
-- The parsers of regular expressions, networks and ports are parameters. A port that does not parse
-- and a missing rule provider end the process, here `panic`.
use clash_rs.Prelude.Outcome.{Outcome, ok, err, panic, ok_or, or_panic, ◌>>=◌}
use clash_rs.Prelude.{
  arith, ◌||◌, ◌≡◌, ℕ, Bool, true, false, Option, none, some, List, [], ◌∷◌, map, any,
  if◌then◌else◌,
}
use clash_rs.Prelude.Text.{Text, codes, text_eq, split_on}
use clash_rs.Session.State.{Session, Network, tcp, udp}
use clash_rs.Router.{target_of, Env, Rule, Mmdb}
use clash_rs.Router.Geosite.{Domain, geo_site_new, trim}

module _ (env : Env) where
  open env use {Regex, compile, IpNet, parse_net}

  pub data RuleType : Type 0 where
    domain : (domain target : Text) → RuleType
    domain_suffix : (domain_suffix target : Text) → RuleType
    domain_regex : (regex : Regex) (target : Text) → RuleType
    domain_keyword : (domain_keyword target : Text) → RuleType
    geo_ip : (target country_code : Text) (no_resolve : Bool) → RuleType
    geo_site : (target country_code : Text) → RuleType
    ip_cidr : (ipnet : IpNet) (target : Text) (no_resolve : Bool) → RuleType
    src_cidr : (ipnet : IpNet) (target : Text) (no_resolve : Bool) → RuleType
    src_port : (target : Text) (port : ℕ) → RuleType
    dst_port : (target : Text) (port : ℕ) → RuleType
    process_name : (process_name target : Text) → RuleType
    process_path : (process_path target : Text) → RuleType
    rule_set : (rule_set target : Text) → RuleType
    match_all : (target : Text) → RuleType
    network : (network : Network) (target : Text) → RuleType

  abbrev pub rule_target : RuleType → Text
  rule_target (domain d t) = t
  rule_target (domain_suffix s t) = t
  rule_target (domain_regex r t) = t
  rule_target (domain_keyword k t) = t
  rule_target (geo_ip t c n) = t
  rule_target (geo_site t c) = t
  rule_target (ip_cidr i t n) = t
  rule_target (src_cidr i t n) = t
  rule_target (src_port t p) = t
  rule_target (dst_port t p) = t
  rule_target (process_name p t) = t
  rule_target (process_path p t) = t
  rule_target (rule_set r t) = t
  rule_target (match_all t) = t
  rule_target (network n t) = t

  -- `params.contains(&"no-resolve")`
  abbrev no_resolve_of : Option (List Text) → Bool
  no_resolve_of none = false
  no_resolve_of (some params) = any (λ p. text_eq p (codes "no-resolve")) params

  -- The constructor that `new` chooses for the name of a rule; `none` is an unsupported one.
  pub data Proto : Type 0 where
    p_domain p_regex p_suffix p_keyword p_geosite p_geoip p_cidr p_src_cidr p_src_port p_dst_port
          p_process_name p_process_path p_rule_set p_match p_network :
        Proto

  abbrev pub protos : List (Text × Proto)
  protos =
      (codes "DOMAIN", p_domain)
      ∷ (codes "DOMAIN-REGEX", p_regex)
      ∷ (codes "DOMAIN-SUFFIX", p_suffix)
      ∷ (codes "DOMAIN-KEYWORD", p_keyword)
      ∷ (codes "GEOSITE", p_geosite)
      ∷ (codes "GEOIP", p_geoip)
      ∷ (codes "IP-CIDR", p_cidr)
      ∷ (codes "IP-CIDR6", p_cidr)
      ∷ (codes "SRC-IP-CIDR", p_src_cidr)
      ∷ (codes "SRC-PORT", p_src_port)
      ∷ (codes "DST-PORT", p_dst_port)
      ∷ (codes "PROCESS-NAME", p_process_name)
      ∷ (codes "PROCESS-PATH", p_process_path)
      ∷ (codes "RULE-SET", p_rule_set)
      ∷ (codes "MATCH", p_match)
      ∷ (codes "NETWORK", p_network)
      ∷ []

  abbrev pub proto_of : List (Text × Proto) → Text → Option Proto
  proto_of [] s = none
  proto_of ((name, p) ∷ ps) s = if text_eq s name then some p else proto_of ps s

  abbrev network_of : Text → Option Network
  network_of s =
      if text_eq s (codes "TCP") || text_eq s (codes "tcp")
      then some tcp
      else if text_eq s (codes "UDP") || text_eq s (codes "udp")
      then some udp
      else none

  pub data Error : Type 0 where
    invalid_config : Error

  module _ (parse_port : Text → Option ℕ) where
    abbrev pub new_of : Proto → Text → Text → Option (List Text) → Outcome Error RuleType
    new_of p_domain payload target params = ok (domain payload target)
    new_of p_regex payload target params =
        ok_or invalid_config (compile payload) >>= λ r. ok (domain_regex r target)
    new_of p_suffix payload target params = ok (domain_suffix payload target)
    new_of p_keyword payload target params = ok (domain_keyword payload target)
    new_of p_geosite payload target params = ok (geo_site target payload)
    new_of p_geoip payload target params = ok (geo_ip target payload (no_resolve_of params))
    new_of p_cidr payload target params = ok_or invalid_config (parse_net payload) >>= λ n.
        ok (ip_cidr n target (no_resolve_of params))
    new_of p_src_cidr payload target params = ok_or invalid_config (parse_net payload) >>= λ n.
        ok (src_cidr n target (no_resolve_of params))
    new_of p_src_port payload target params =
        or_panic (parse_port payload) >>= λ p. ok (src_port target p)
    new_of p_dst_port payload target params =
        or_panic (parse_port payload) >>= λ p. ok (dst_port target p)
    new_of p_process_name payload target params = ok (process_name payload target)
    new_of p_process_path payload target params = ok (process_path payload target)
    new_of p_rule_set payload target params = ok (rule_set payload target)
    new_of p_match payload target params = ok (match_all target)
    new_of p_network payload target params =
        ok_or invalid_config (network_of payload) >>= λ n. ok (network n target)

    unfoldable pub new : Text → Text → Text → Option (List Text) → Outcome Error RuleType
    new proto payload target params =
        ok_or invalid_config (proto_of protos proto) >>= λ p. new_of p payload target params

    abbrev pub from_parts : List Text → Outcome Error RuleType
    unfolding new
    from_parts [] = err invalid_config
    from_parts (proto ∷ []) = err invalid_config
    from_parts (proto ∷ target ∷ []) = new proto [] target none
    from_parts (proto ∷ payload ∷ target ∷ []) = new proto payload target none
    from_parts (proto ∷ payload ∷ target ∷ params) = new proto payload target (some params)

    -- `TryFrom<String>`
    unfoldable pub try_from : Text → Outcome Error RuleType
    try_from line = from_parts (map trim (split_on b',' line))

  -- `map_rule_type`, with the geosite loader's `get` and the providers' `search`; it panics for a
  -- geosite rule that does not load and for a rule set without its provider.
  unfoldable pub map_rule_type :
      Option Mmdb
      → Option (Text → Option (List Domain))
      → Option (Text → Option (Session → Bool))
      → RuleType
      → Outcome Error (Rule env)
  map_rule_type mmdb geodata registry (domain d t) = ok (Rule.domain_rule d t)
  map_rule_type mmdb geodata registry (domain_suffix s t) = ok (Rule.domain_suffix s t)
  map_rule_type mmdb geodata registry (domain_regex r t) = ok (Rule.domain_regex r t)
  map_rule_type mmdb geodata registry (domain_keyword k t) = ok (Rule.domain_keyword k t)
  map_rule_type mmdb geodata registry (geo_ip t c n) = ok (Rule.geo_ip t c n mmdb)
  map_rule_type mmdb geodata registry (geo_site t c) =
      or_panic (geo_site_new compile c geodata) >>= λ m. ok (Rule.geo_site c t m)
  map_rule_type mmdb geodata registry (ip_cidr i t n) = ok (Rule.ip_cidr i t false n)
  map_rule_type mmdb geodata registry (src_cidr i t n) = ok (Rule.ip_cidr i t true n)
  map_rule_type mmdb geodata registry (src_port t p) = ok (Rule.port_rule p t true)
  map_rule_type mmdb geodata registry (dst_port t p) = ok (Rule.port_rule p t false)
  map_rule_type mmdb geodata registry (process_name p t) = ok (Rule.process p t true)
  map_rule_type mmdb geodata registry (process_path p t) = ok (Rule.process p t false)
  map_rule_type mmdb geodata registry (rule_set r t) = elim registry [
    | none ↦ panic
    | some search_of ↦ or_panic (search_of r) >>= λ search. ok (Rule.rule_set r t search)
  ]
  map_rule_type mmdb geodata registry (match_all t) = ok (Rule.final_rule t)
  map_rule_type mmdb geodata registry (network n t) = ok (Rule.network_rule n t)

  -- The rule that `map_rule_type` makes of a configured rule keeps its target.
  pub target_of-map_rule_type :
      (mmdb : Option Mmdb) (geodata : Option (Text → Option (List Domain)))
      (registry : Option (Text → Option (Session → Bool))) (rule : RuleType) (made : Rule env)
      → map_rule_type mmdb geodata registry rule ≡ ok made
      → target_of env made ≡ rule_target rule
  unfolding map_rule_type
  target_of-map_rule_type mmdb geodata registry (domain d t) made h = ground arith
  target_of-map_rule_type mmdb geodata registry (domain_suffix s t) made h = ground arith
  target_of-map_rule_type mmdb geodata registry (domain_regex r t) made h = ground arith
  target_of-map_rule_type mmdb geodata registry (domain_keyword k t) made h = ground arith
  target_of-map_rule_type mmdb geodata registry (geo_ip t c n) made h = ground arith
  target_of-map_rule_type mmdb geodata registry (geo_site t c) made h = ground arith
  target_of-map_rule_type mmdb geodata registry (ip_cidr i t n) made h = ground arith
  target_of-map_rule_type mmdb geodata registry (src_cidr i t n) made h = ground arith
  target_of-map_rule_type mmdb geodata registry (src_port t p) made h = ground arith
  target_of-map_rule_type mmdb geodata registry (dst_port t p) made h = ground arith
  target_of-map_rule_type mmdb geodata registry (process_name p t) made h = ground arith
  target_of-map_rule_type mmdb geodata registry (process_path p t) made h = ground arith
  target_of-map_rule_type mmdb geodata registry (rule_set r t) made h = ground arith
  target_of-map_rule_type mmdb geodata registry (match_all t) made h = ground arith
  target_of-map_rule_type mmdb geodata registry (network n t) made h = ground arith
