-- ===== src/Dispatcher.antt =====
-- clash-lib/src/app/dispatcher/dispatcher_impl.rs: where `dispatch_stream` sends a stream, up to the
-- connection of the outbound handler. Dispatcher.Datagrams is `dispatch_datagram`.
--
-- `cached_for` is the resolver's cache of reverse lookups, and `parse_ip` is `str::parse::<IpAddr>`.
-- The handlers are the map of the outbound manager. The connection of a handler is I/O.
pub mod Datagrams
mod Examples
use clash_rs.Prelude.{List, ℕ, true, Option, none, some, ◌≡◌, refl, if◌then◌else◌}
use clash_rs.Prelude.Text.{Text, codes}
use clash_rs.Prelude.Map
use clash_rs.Prelude.Map.{Map}
use clash_rs.Prelude.Outcome.{Outcome, ok, err, panic, or_panic, ◌>>=◌}
use clash_rs.Session.{IpAddr, v4, SocketAddr, SocksAddr, domain, socks_ip}
use clash_rs.Session.Convert.{try_from_host}
use clash_rs.Session.State.{Session}
use clash_rs.FakeIp
use clash_rs.FakeIp.{Store, FakeDns}
use clash_rs.FakeIp.Laws.{View, IsLawful}
use clash_rs.FakeIp.Pool.{IsValid, reverse_lookup_host}
use clash_rs.Dns.Enhanced.{State}
use clash_rs.Dns.Server.{is_fake_ip, reverse_lookup}
use clash_rs.Router.{Env, Mmdb, Rule, match_route}

pub data RunMode : Type 0 where
  global : RunMode
  rule : RunMode
  direct : RunMode

abbrev proxy_global : Text
proxy_global = codes "GLOBAL"

abbrev proxy_direct : Text
proxy_direct = codes "DIRECT"

-- The destination of the stream could not be found.
pub data Unresolved : Type 0 where
  unresolved : Unresolved

module _ (parse_ip : Text → Option IpAddr) where
  unfoldable pub expect_host : Text → ℕ → Outcome Unresolved SocksAddr
  expect_host host port = elim (try_from_host parse_ip host port) [
    | ok a ↦ ok a
    | err e ↦ panic
    | panic ↦ panic
  ]

  abbrev fake_host : Option Text → ℕ → Outcome Unresolved SocksAddr
  fake_host none port = err unresolved
  fake_host (some host) port = expect_host host port

  abbrev cached_host : Option Text → SocketAddr → Outcome Unresolved SocksAddr
  cached_host none a = ok (SocksAddr.ip a)
  cached_host (some host) a = expect_host host a.port

module _ {Client Stats S L : Type 0} (pool : Store S) (cached_for : IpAddr → Option Text)
    (parse_ip : Text → Option IpAddr) where
  abbrev by_pool :
      Option (FakeDns S)
      → SocketAddr
      → State Client Stats S L
      → Outcome Unresolved SocksAddr × State Client Stats S L
  by_pool none a st = (cached_host parse_ip (cached_for a.ip) a, st)
  by_pool (some d) a st =
      let (host, st') = reverse_lookup pool a.ip st in
      if is_fake_ip a.ip st
      then (fake_host parse_ip host a.port, st')
      else (ok (SocksAddr.ip a), st)

  -- The function `reverse_lookup` of the dispatcher.
  unfoldable pub lookup_destination :
      SocksAddr → State Client Stats S L → Outcome Unresolved SocksAddr × State Client Stats S L
  lookup_destination (SocksAddr.ip a) st = by_pool st.fake_dns a st
  lookup_destination (domain host port) st = (expect_host parse_ip host port, st)

module _ (env : Env) where
  unfoldable pub choose :
      Option Mmdb → List (Rule env) → RunMode → Session → Text × Option (Rule env) × Session
  choose asn_mmdb rules global sess = (proxy_global, none, sess)
  choose asn_mmdb rules rule sess =
      let (name, matched, p) = match_route env asn_mmdb rules sess in (name, matched, p.sess)
  choose asn_mmdb rules direct sess = (proxy_direct, none, sess)

module _ {Handler : Type 0} (handlers : Map Handler) where
  unfoldable pub outbound_or_direct : Text → Outcome Unresolved Handler
  outbound_or_direct name = elim (Map.get handlers name) [
    | some h ↦ ok h
    | none ↦ or_panic (Map.get handlers proxy_direct)
  ]

module _ {Handler : Type 0} (env : Env) (handlers : Map Handler) (asn_mmdb : Option Mmdb)
    (rules : List (Rule env)) where
  -- The handler that is asked to connect, the session that it is given, and the rule.
  unfoldable pub connect :
      RunMode → Session → SocksAddr → Outcome Unresolved (Handler × Session × Option (Rule env))
  unfolding choose outbound_or_direct
  connect mode sess dest =
      let (name, matched, sess') =
        choose env asn_mmdb rules mode (record sess { destination = dest }) in
      (do h ← outbound_or_direct handlers name; ok (h, sess', matched))

module _ {Client Stats S L Handler : Type 0} (pool : Store S) (cached_for : IpAddr → Option Text)
    (env : Env) (handlers : Map Handler) (asn_mmdb : Option Mmdb) (rules : List (Rule env)) where
  unfoldable pub dispatch_stream :
      RunMode
      → Session
      → State Client Stats S L
      → Outcome Unresolved (Handler × Session × Option (Rule env)) × State Client Stats S L
  unfolding lookup_destination connect
  dispatch_stream mode sess st =
      let (dest, st') = lookup_destination pool cached_for env.parse_ip sess.destination st in
      ((do a ← dest; connect env handlers asn_mmdb rules mode sess a), st')

  -- With a valid pool of fake addresses, a stream to the fake address of a host, inside the
  -- pool's subnet, goes in every mode to the handler that a stream to the host itself goes to,
  -- with the same session and rule, where both are dispatched from the same state of the resolver.
  pub dispatch_stream-fake :
      (view : View S) (lawful : IsLawful view pool) (st : State Client Stats S L) (d : FakeDns S)
      (sess : Session) (mode : RunMode) (host : Text) (x port : ℕ)
      → st.fake_dns ≡ some d
      → IsValid pool view lawful d
      → view.host_view d.store host ≡ some (v4 x)
      → d.ipnet.contains (v4 x) ≡ true
      → (dispatch_stream mode (record sess { destination = socks_ip (v4 x) port }) st).0
        ≡ (dispatch_stream mode (record sess { destination = domain host port }) st).0
  unfolding dispatch_stream lookup_destination reverse_lookup is_fake_ip FakeIp.is_fake_ip connect
  dispatch_stream-fake view lawful st d sess mode host x port enabled valid assigned inside =
      simp (enabled, inside, reverse_lookup_host pool view lawful d host (v4 x) valid refl assigned)
        refl
