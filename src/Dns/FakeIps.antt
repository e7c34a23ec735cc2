-- ===== src/Dns/FakeIps.antt =====
-- clash-lib/src/app/dns: the DNS server with fake addresses, and the way back from them.
use clash_rs.Prelude.{
  ℕ, true, false, none, some, Option-cases, List, [], ◌∷◌, ◌≡◌, inl, inr, refl, sym, ap, ◌∙◌, arith,
}
use clash_rs.Prelude.Text.{Text}
use clash_rs.Prelude.Outcome.{Outcome, ◌>>=◌, ok, err, panic, ok-injective}
use clash_rs.Session.{IpAddr, v4, v6}
use clash_rs.FakeIp
use clash_rs.FakeIp.{Store, FakeDns, Fault, range, is_ipv4, ip_at, get_loop}
use clash_rs.FakeIp.Laws.{View, IsLawful}
use clash_rs.FakeIp.Pool.{IsValid, lookup-LookedUp, reverse_lookup_host}
use clash_rs.Dns.{Query, Message, a_data, response_to, trim_end_matches}
use clash_rs.Dns.Enhanced.{DnsError, EnhancedResolver, Lru, State}
use clash_rs.Dns.Resolve.{is_aaaa}
use clash_rs.Dns.Server.{Names, host_entry, resolve_v4, exchange_with_resolver, reverse_lookup}

module _ {S : Type 0} (pool : Store S) where
  given : Text → FakeDns S → Outcome Fault (IpAddr × FakeDns S)
  given host d = ok (ip_at d, record d { store = pool.put_by_ip d.store (ip_at d) host })

  kept : Text → IpAddr × FakeDns S → Outcome Fault (IpAddr × FakeDns S)
  kept host (ip, d) = ok (ip, record d { store = pool.pub_by_host d.store host ip })

  new_v4 :
      (o : Outcome Fault (FakeDns S)) (host : Text) (ip : IpAddr) (d' : FakeDns S)
      → ((o >>= given host) >>= kept host) ≡ ok (ip, d')
      → is_ipv4 ip ≡ true
  unfolding given kept
  new_v4 (ok d) host ip d' e =
      let same : ip_at d ≡ ip = ap (λ x. x.0) (ok-injective e) in rw (← same) refl
  new_v4 (err x) host ip d' e = absurd (ground (arith, e))
  new_v4 panic host ip d' e = absurd (ground (arith, e))

  -- A fresh address is an IPv4 address.
  lookup_v4 :
      (fuel : ℕ) (d : FakeDns S) (host : Text) (ip : IpAddr) (d' : FakeDns S)
      → ((old : IpAddr) → (pool.get_by_host d.store host).0 ≡ some old → is_ipv4 old ≡ true)
      → FakeIp.lookup pool fuel d host ≡ ok (ip, d')
      → is_ipv4 ip ≡ true
  unfolding FakeIp.lookup FakeIp.get given kept
  lookup_v4 fuel d host ip d' old e =
      let store = (pool.get_by_host d.store host).1 in
      elim (Option-cases (pool.get_by_host d.store host).0) [
        | inl fresh ↦
            new_v4 (get_loop pool fuel d.offset (record d { store = store })) host ip d'
              (sym (rw (FakeIp.lookup, fresh) refl) ∙ e)
        | inr (a, found) ↦
            let known : FakeIp.lookup pool fuel d host ≡ ok (a, record d { store = store }) =
              rw (FakeIp.lookup, found) refl in
            let same : a ≡ ip = ap (λ x. x.0) (ok-injective (sym known ∙ e)) in
            rw (← same) (old a found)
      ]

v4_number : (ip : IpAddr) → is_ipv4 ip ≡ true → (x : ℕ) × (ip ≡ v4 x)
v4_number (v4 x) h = (x, refl)
v4_number (v6 x) h = absurd (ground (arith, h))

module _ {Client Stats S L : Type 0} (net : ℕ → List Client → Message → Outcome DnsError Message)
    (pool : Store S) (view : View S) (lawful : IsLawful view pool) (lru : Lru L)
    (r : EnhancedResolver Client) (names : Names) (index now : ℕ) where
  -- With a valid pool of fake addresses, let a question that is not for an IPv6 address have a host
  -- name that is no literal, not in `hosts` and not skipped, and that has no IPv6 address in the
  -- pool. The DNS server answers with one address, whose reverse lookup is the host name.
  pub reverse_lookup-exchange :
      (req : Message) (q : Query) (st : State Client Stats S L) (d : FakeDns S)
      → req.query ≡ some q
      → is_aaaa q.query_type ≡ false
      → st.fake_dns ≡ some d
      → IsValid pool view lawful d
      → view.IsHost (trim_end_matches q.name b'.')
      → host_entry true r.hosts (trim_end_matches q.name b'.') ≡ none
      → names.parse_v4 (trim_end_matches q.name b'.') ≡ none
      → FakeIp.should_skip d (trim_end_matches q.name b'.') ≡ false
      → ((old : IpAddr)
          → view.host_view d.store (trim_end_matches q.name b'.') ≡ some old
          → is_ipv4 old ≡ true)
      → (x : ℕ) × (st' : State Client Stats S L) × (exchange_with_resolver net pool lru r names
            index req true now st
          ≡ (ok (response_to req (a_data x ∷ [])), st'))
        × ((reverse_lookup pool (v4 x) st').0 ≡ some (trim_end_matches q.name b'.'))
  unfolding exchange_with_resolver resolve_v4 reverse_lookup
  reverse_lookup-exchange req q st d asked four enabled valid is_host no_host no_literal kept v4s =
      let host = trim_end_matches q.name b'.' in
      let (ip, d', found, done) = lookup-LookedUp pool view lawful d host valid is_host in
      let is_v4 =
        lookup_v4 pool (range d) d host ip d'
          (λ old e. v4s old (sym (lawful.get_host d.store host valid.stored is_host) ∙ e)) found in
      let (x, same) = v4_number ip is_v4 in
      (
        x,
        record st { fake_dns = some d' },
        simp (asked, four, enabled, no_host, no_literal, kept, found, same) refl,
        reverse_lookup_host pool view lawful d' host (v4 x) done.valid refl
            (rw (← same) done.assigned),
      )
