-- ===== src/Dns/Cached.antt =====
-- clash-lib/src/app/dns/resolver/enhanced.rs: what the cache of countries remembers of a query.
use native.Mathlib.Nat.{mod-eq_of_lt}
use clash_rs.Prelude.{
  ℕ, ◌+◌, ◌*◌, ◌^◌, ◌<◌, ltb, Bool, true, false, ◌||◌, not, Bool-cases, Option, none, some,
  unwrap_or, List, ◌∷◌, ◌≡◌, inl, inr, refl, ap, ◌∙◌, length, if◌then◌else◌, arith,
}
use clash_rs.Prelude.Text.{Text, text_eq, text_eq_refl}
use clash_rs.Prelude.Outcome.{Outcome, ok, err, panic}
use clash_rs.Prelude.Map.{get-insert}
use clash_rs.Session.{IpAddr}
use clash_rs.Router.{Mmdb}
use clash_rs.FakeIp.{Store, FakeDns, Fault}
use clash_rs.Profile.{CacheFile, get_domain_geoip, set_domain_geoip}
use clash_rs.Dns.{Message, domain_name_of_message, ip_list_of_message}
use clash_rs.Dns.Enhanced.{
  update_for, DnsError, EnhancedResolver, State, Reply, unknown, trusted, foreign, match_policy,
  should_only_query_fallback, should_ip_fallback, geoip_trust, update_geoip_cache, fake_answer,
  fake_or, ask, trusted_or, ip_exchange,
}

get-set :
    {Stats : Type 0} (store : CacheFile Stats) (domain code : Text) (at : ℕ)
    → store.store_selected ≡ true
    → get_domain_geoip
        (set_domain_geoip store domain (record { code = code; expires_at = at }))
        domain
      ≡ some (record { code = code; expires_at = at })
unfolding get_domain_geoip set_domain_geoip
get-set store domain code at on =
    rw
      (
        on,
        get-insert store.db.domain_geoip domain (record { code = code; expires_at = at }) domain,
        text_eq_refl domain,
      )
      refl

module _ {Client Stats S L : Type 0} (net : ℕ → List Client → Message → Outcome DnsError Message)
    (pool : Store S) (r : EnhancedResolver Client) where
  store-fake_answer :
      (m : Message) (st : State Client Stats S L) (res : Outcome Fault (IpAddr × FakeDns S))
      → (fake_answer pool m st res).1.store ≡ st.store
  store-fake_answer m st (ok (ip, d)) = refl
  store-fake_answer m st (err e) = refl
  store-fake_answer m st panic = refl

  store-fake_or :
      (rest : Reply Client Stats S L) (b : Bool) (d : Option (FakeDns S)) (m : Message)
      (domain : Text) (st : State Client Stats S L)
      → rest.1.store ≡ st.store
      → (fake_or pool rest b d m domain st).1.store ≡ st.store
  store-fake_or rest true (some d) m domain st h = store-fake_answer m st _
  store-fake_or rest true none m domain st h = h
  store-fake_or rest false d m domain st h = h

  store-trusted_or :
      (skip : Bool) (m main_result : Message) (ip : IpAddr) (fallback : List Client)
      (st : State Client Stats S L)
      → (trusted_or net pool r skip m main_result ip fallback st).1.store ≡ st.store
  store-trusted_or skip m main_result ip fallback st =
      elim (Bool-cases (skip || not (should_ip_fallback r ip))) [
        | inl e ↦ rw e refl
        | inr e ↦
            rw e
              (store-fake_or (ask net pool r fallback m st) r.match_noproxy st.fake_dns m _ st refl)
      ]

module _ {Client Stats S L : Type 0} (net : ℕ → List Client → Message → Outcome DnsError Message)
    (pool : Store S) (r : EnhancedResolver Client) (now : ℕ) (m reply : Message)
    (st : State Client Stats S L) (fallback : List Client) (ip : IpAddr) (ips : List IpAddr)
    (chosen : r.fallback ≡ some fallback) (no_policy : match_policy r m ≡ ok none)
    (no_filter : should_only_query_fallback r m ≡ false)
    (nothing : geoip_trust r now m st ≡ unknown)
    (answered : net (length st.asked) r.main m ≡ ok reply)
    (first : ip_list_of_message reply ≡ ip ∷ ips) where
  ip_exchange-trusted_or :
      ip_exchange net pool r now m st
      ≡ trusted_or net pool r false m reply ip fallback
          (update_for r now (domain_name_of_message m) ip (record st { asked = r.main ∷ st.asked }))
  unfolding ip_exchange
  ip_exchange-trusted_or = rw (no_policy, no_filter, nothing, chosen, answered, first) refl

  module _ (later at : ℕ) (db : Mmdb) (store : CacheFile Stats) (code domain country : Text)
      (known_mmdb : r.mmdb ≡ some db) (known_store : st.store ≡ some store)
      (named : domain_name_of_message m ≡ some domain)
      (located : db.lookup_country ip ≡ some country)
      (expires : now + unwrap_or (24 * 3600) r.geo_ip_cache_expiration ≡ at)
      (small : at < 2 ^ 64) where
    store-ip_exchange :
        (ip_exchange net pool r now m st).1.store
        ≡ some (set_domain_geoip store domain (record { code = country; expires_at = at }))
    unfolding update_geoip_cache
    store-ip_exchange =
        ap (λ x. x.1.store) ip_exchange-trusted_or
        ∙ store-trusted_or net pool r false m reply ip fallback (
            update_for r now (domain_name_of_message m) ip
              (record st { asked = r.main ∷ st.asked }))
        ∙ rw (named, known_mmdb, known_store, located, expires, mod-eq_of_lt small) refl

    -- Let the resolver have a fallback, a country database and a configured country, and a cache file
    -- that keeps selections (`store_selected`), let the time of expiry fit into 64 bits, and let the
    -- main servers answer an address query, of which the policy, the domain filters and the cache of
    -- countries say nothing, with an address whose country is known. Before that time the cache trusts
    -- the domain if that is the configured country, and else knows it to be abroad.
    pub geoip_trust-ip_exchange :
        r.geo_ip_code ≡ some code
        → store.store_selected ≡ true
        → later < at
        → geoip_trust r later m (ip_exchange net pool r now m st).1
          ≡ (if text_eq country code then trusted else foreign domain)
    unfolding geoip_trust
    geoip_trust-ip_exchange known_code on soon =
        let fresh : ltb later at ≡ true = ground arith in
        rw (store-ip_exchange, known_code, named, get-set store domain country at on, fresh) refl
