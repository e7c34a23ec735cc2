-- ===== src/Router/Examples.antt =====
-- A small configuration, a session for www.a.io, and the theorems about them.
use clash_rs.Prelude.{◌≡◌, refl, ℕ, ◌==◌, true, false, none, some, is_some, List, [], ◌∷◌}
use clash_rs.Prelude.Text.{Text, codes, text_eq}
use clash_rs.Prelude.Outcome.{ok}
use clash_rs.Session.{IpAddr, v4, domain}
use clash_rs.Session.Convert
use clash_rs.Session.State.{Session, tcp}
use clash_rs.Router.{
  Env, Rule, Progress, match_route, route_from, apply, prepare, resolve_step, asn_step,
  suffix_matches,
}
use clash_rs.Router.First.{Routed, match_route-Routed, answered_rule}
use clash_rs.Router.Resolve.{Asked, match_route-Asked}
use clash_rs.Router.Config
use clash_rs.Router.Config.{map_rule_type, target_of-map_rule_type, rule_target, try_from}

-- A network is the number of its only address; the resolver knows no name.
abbrev env : Env
env = record {
  Regex = Text;
  is_match = text_eq;
  compile = λ s. some s;
  IpNet = ℕ;
  contains_ip = λ n ip. elim ip [ IpAddr.v4 a ↦ a == n | IpAddr.v6 a ↦ false ];
  parse_net = λ s. none;
  parse_ip = λ s. none;
  find_process_name = λ src dst net. none;
  resolve = λ n d. none;
}

abbrev sess : Session
sess = record {
  id = 1;
  network = tcp;
  source = record { ip = v4 1; port = 50000 };
  destination = domain (codes "www.a.io") 443;
  resolved_ip = none;
  so_mark = none;
  iface = none;
  asn = none;
}

abbrev rules : List (Rule env)
rules =
    Rule.ip_cidr 7 (codes "LAN") false false
    ∷ Rule.domain_suffix (codes "a.io") (codes "PROXY")
    ∷ Rule.final_rule (codes "DIRECT")
    ∷ []

abbrev start : Progress env
start = record { sess = sess; sess_resolved = false; asked = 0 }

routed : match_route env none rules sess ≡ (
  codes "PROXY",
  some (Rule.domain_suffix (codes "a.io") (codes "PROXY")),
  record start { asked = 1 },
)
unfolding match_route apply prepare resolve_step asn_step route_from suffix_matches Convert.ip_of
routed = refl

match_route-Routed_example : Routed env none rules start (match_route env none rules sess)
match_route-Routed_example = match_route-Routed env none rules sess

rule_chosen : is_some (answered_rule env none (match_route env none rules sess)) ≡ true
unfolding match_route apply prepare resolve_step asn_step route_from suffix_matches Convert.ip_of
rule_chosen = refl

match_route-Asked_example : Asked env none sess (match_route env none rules sess).2
match_route-Asked_example = match_route-Asked env none sess rules

abbrev line : Text
line = codes " DOMAIN-SUFFIX , a.io,PROXY"

parsed : try_from env (λ s. none) line ≡ ok (Config.domain_suffix (codes "a.io") (codes "PROXY"))
unfolding try_from Config.new
parsed = refl

made_suffix :
    map_rule_type env none none none (Config.domain_suffix (codes "a.io") (codes "PROXY"))
    ≡ ok (Rule.domain_suffix (codes "a.io") (codes "PROXY"))
unfolding map_rule_type
made_suffix = refl
