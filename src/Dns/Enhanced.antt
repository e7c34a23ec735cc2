-- ===== src/Dns/Enhanced.antt =====
-- clash-lib/src/app/dns/resolver/enhanced.rs: which name servers the resolver asks.
--
-- `net` is `batch_exchange`: what the network gives to the n-th group of servers that is asked. The
-- state keeps the groups that were asked, the last one first, beside the cache file, the fake-IP
-- pool and the cache of records, which are shared and change. `Lru` is the crate's cache of records.
-- `now` is the time in seconds. A future that is not awaited asks nobody.
use clash_rs.Prelude.{
  ℕ, ◌+◌, ◌*◌, ◌%◌, ◌^◌, ltb, Bool, true, false, not, ◌||◌, Option, none, some, unwrap_or, List, [],
  ◌∷◌, any, length, if◌then◌else◌,
}
use clash_rs.Prelude.Text.{Text, text_eq}
use clash_rs.Prelude.Outcome.{Outcome, ok, err, panic}
use clash_rs.Session.{IpAddr, v4, v6}
use clash_rs.Router.{Mmdb}
use clash_rs.Trie
use clash_rs.Trie.{Node}
use clash_rs.FakeIp
use clash_rs.FakeIp.{Store, FakeDns, Fault, range}
use clash_rs.Profile.{CacheFile, GeoIpCacheEntry, get_domain_geoip, set_domain_geoip}
use clash_rs.Dns.{
  RecordData, a_data, aaaa_data, Query, Message, domain_name_of_message, ip_list_of_message,
  response_to, IpFilter, ip_filter_apply, DomainFilter, domain_filter_apply,
}

pub data DnsError : Type 0 where
  no_answer invalid_query invalid_domain no_record ipv6_disabled out_of_fuel : DnsError

pub record EnhancedResolver (Client : Type 0) : Type 1 where
  pub hosts : Option (Node IpAddr)
  pub main : List Client
  pub fallback : Option (List Client)
  pub fallback_domain_filters : Option (List DomainFilter)
  pub fallback_ip_filters : Option (List IpFilter)
  pub policy : Option (Node (List Client))
  pub geo_ip_cache_expiration : Option ℕ
  pub geo_ip_code : Option Text
  pub mmdb : Option Mmdb
  pub match_noproxy : Bool

-- The cache of records: a cached error is `none`.
pub record Lru (L : Type 0) : Type 0 where
  pub get : L → Query → ℕ → Option (Option (List RecordData))
  pub insert_records : L → Query → List RecordData → ℕ → L

pub record State (Client Stats S L : Type 0) : Type 0 where
  pub asked : List (List Client)
  pub store : Option (CacheFile Stats)
  pub fake_dns : Option (FakeDns S)
  pub lru_cache : Option L
  pub ipv6 : Bool

abbrev pub Reply : (Client Stats S L : Type 0) → Type 0
Reply Client Stats S L = Outcome DnsError Message × State Client Stats S L

-- What the cache of countries says of a domain.
pub data Trust : Type 0 where
  unknown trusted : Trust
  foreign : Text → Trust

abbrev pub entry_trust : ℕ → Text → Text → Option GeoIpCacheEntry → Trust
entry_trust now code domain none = unknown
entry_trust now code domain (some entry) =
    if ltb now entry.expires_at
    then if text_eq entry.code code then trusted else foreign domain
    else unknown

abbrev pub cached_trust :
    {Stats : Type 0} → ℕ → Option (CacheFile Stats) → Option Text → Option Text → Trust
cached_trust now (some store) (some code) (some domain) =
    entry_trust now code domain (get_domain_geoip store domain)
cached_trust now store code domain = unknown

abbrev pub some_data {ℓ} : {A : Type ℓ} → Option A → Outcome DnsError (Option A)
some_data none = panic
some_data (some a) = ok (some a)

abbrev pub found_policy {ℓ} : {A : Type ℓ} → Option (Node A) → Outcome DnsError (Option A)
found_policy none = ok none
found_policy (some n) = some_data (Trie.get_data n)

abbrev pub any_ip_filter : Option (List IpFilter) → IpAddr → Bool
any_ip_filter none ip = false
any_ip_filter (some filters) ip = any (λ f. ip_filter_apply f ip) filters

module _ {Client : Type 0} where
  abbrev pub domain_policy :
      Option (List Client)
      → Option (List DomainFilter)
      → Option (Node (List Client))
      → Option Text
      → Outcome DnsError (Option (List Client))
  domain_policy (some fallback) (some filters) (some policy) (some domain) =
      found_policy (Trie.search policy domain)
  domain_policy fallback filters policy domain = ok none

  unfoldable pub match_policy :
      EnhancedResolver Client → Message → Outcome DnsError (Option (List Client))
  match_policy r m =
      domain_policy r.fallback r.fallback_domain_filters r.policy (domain_name_of_message m)

  abbrev pub any_domain_filter :
      Option (List Client) → Option (List DomainFilter) → Option Text → Bool
  any_domain_filter (some fallback) (some filters) (some domain) =
      any (λ f. domain_filter_apply f domain) filters
  any_domain_filter fallback filters domain = false

  unfoldable pub should_only_query_fallback : EnhancedResolver Client → Message → Bool
  should_only_query_fallback r m =
      any_domain_filter r.fallback r.fallback_domain_filters (domain_name_of_message m)

  unfoldable pub should_ip_fallback : EnhancedResolver Client → IpAddr → Bool
  should_ip_fallback r ip = any_ip_filter r.fallback_ip_filters ip

module _ {Stats : Type 0} where
  abbrev pub set_country : ℕ → ℕ → Text → Option Text → CacheFile Stats → CacheFile Stats
  set_country now expiration domain none store = store
  set_country now expiration domain (some code) store =
      set_domain_geoip store domain
        (record { code = code; expires_at = (now + expiration) % 2 ^ 64 })

  abbrev pub update_store :
      ℕ → ℕ → Text → IpAddr → Option Mmdb → Option (CacheFile Stats) → Option (CacheFile Stats)
  update_store now expiration domain ip (some mmdb) (some store) =
      some (set_country now expiration domain (mmdb.lookup_country ip) store)
  update_store now expiration domain ip mmdb store = store

module _ {Client Stats S L : Type 0} (r : EnhancedResolver Client) where
  unfoldable pub update_geoip_cache :
      ℕ → Text → IpAddr → State Client Stats S L → State Client Stats S L
  update_geoip_cache now domain ip st = record st {
    store =
        update_store now (unwrap_or (24 * 3600) r.geo_ip_cache_expiration) domain ip r.mmdb
          st.store;
  }

  -- The branch of `ip_exchange` before the answers are checked
  abbrev pub update_for : ℕ → Option Text → IpAddr → State Client Stats S L → State Client Stats S L
  update_for now none ip st = st
  update_for now (some domain) ip st = update_geoip_cache now domain ip st

  unfoldable pub geoip_trust : ℕ → Message → State Client Stats S L → Trust
  geoip_trust now m st = cached_trust now st.store r.geo_ip_code (domain_name_of_message m)

abbrev pub address_record : IpAddr → RecordData
address_record (v4 x) = a_data x
address_record (v6 x) = aaaa_data x

module _ {Client Stats S L : Type 0} (pool : Store S) where
  abbrev pub fake_answer :
      Message → State Client Stats S L → Outcome Fault (IpAddr × FakeDns S) → Reply Client Stats S L
  fake_answer m st (ok (ip, d)) =
      (ok (response_to m (address_record ip ∷ [])), record st { fake_dns = some d })
  fake_answer m st (err e) = (err out_of_fuel, st)
  fake_answer m st panic = (panic, st)

  -- The answer made of a fake address, where the pool is on. The pool's search has enough fuel.
  abbrev pub fake_reply :
      Message → Text → State Client Stats S L → FakeDns S → Reply Client Stats S L
  fake_reply m domain st d = fake_answer m st (FakeIp.lookup pool (range d) d domain)

  abbrev pub fake_or :
      Reply Client Stats S L
      → Bool
      → Option (FakeDns S)
      → Message
      → Text
      → State Client Stats S L
      → Reply Client Stats S L
  fake_or rest true (some d) m domain st = fake_reply m domain st d
  fake_or rest match_noproxy fake_dns m domain st = rest

module _ {Client Stats S L : Type 0} (net : ℕ → List Client → Message → Outcome DnsError Message)
    (pool : Store S) (r : EnhancedResolver Client) where
  -- `batch_exchange`
  abbrev pub ask : List Client → Message → State Client Stats S L → Reply Client Stats S L
  ask clients m st = (net (length st.asked) clients m, record st { asked = clients ∷ st.asked })

  -- `self.fallback.as_ref().unwrap()`
  abbrev pub ask_fallback :
      Option (List Client) → Message → State Client Stats S L → Reply Client Stats S L
  ask_fallback none m st = (panic, st)
  ask_fallback (some clients) m st = ask clients m st

  abbrev pub trusted_or :
      Bool
      → Message
      → Message
      → IpAddr
      → List Client
      → State Client Stats S L
      → Reply Client Stats S L
  trusted_or skip_ip_check m main_result ip fallback st =
      if skip_ip_check || not (should_ip_fallback r ip)
      then (ok main_result, st)
      else fake_or pool (ask fallback m st) r.match_noproxy st.fake_dns m
          (unwrap_or [] (domain_name_of_message m)) st

  abbrev pub checked :
      ℕ
      → Bool
      → Message
      → Message
      → List IpAddr
      → List Client
      → State Client Stats S L
      → Reply Client Stats S L
  checked now skip_ip_check m main_result [] fallback st = ask fallback m st
  checked now skip_ip_check m main_result (ip ∷ ips) fallback st =
      trusted_or skip_ip_check m main_result ip fallback
        (if skip_ip_check then st else update_for r now (domain_name_of_message m) ip st)

  abbrev pub after_main :
      ℕ → Bool → Message → List Client → Reply Client Stats S L → Reply Client Stats S L
  after_main now skip_ip_check m fallback (ok main_result, st) =
      checked now skip_ip_check m main_result (ip_list_of_message main_result) fallback st
  after_main now skip_ip_check m fallback (err e, st) = ask fallback m st
  after_main now skip_ip_check m fallback (panic, st) = (panic, st)

  abbrev pub query_main :
      ℕ → Bool → Message → Option (List Client) → State Client Stats S L → Reply Client Stats S L
  query_main now skip_ip_check m none st = ask r.main m st
  query_main now skip_ip_check m (some fallback) st =
      after_main now skip_ip_check m fallback (ask r.main m st)

  abbrev pub by_trust : ℕ → Message → State Client Stats S L → Trust → Reply Client Stats S L
  by_trust now m st unknown = query_main now false m r.fallback st
  by_trust now m st trusted = query_main now true m r.fallback st
  by_trust now m st (foreign domain) =
      fake_or pool (ask_fallback r.fallback m st) r.match_noproxy st.fake_dns m domain st

  abbrev pub by_policy :
      ℕ
      → Message
      → State Client Stats S L
      → Outcome DnsError (Option (List Client))
      → Reply Client Stats S L
  by_policy now m st (ok (some matched)) = ask matched m st
  by_policy now m st (ok none) =
      if should_only_query_fallback r m
      then ask_fallback r.fallback m st
      else by_trust now m st (geoip_trust r now m st)
  by_policy now m st (err e) = (err e, st)
  by_policy now m st panic = (panic, st)

  unfoldable pub ip_exchange : ℕ → Message → State Client Stats S L → Reply Client Stats S L
  ip_exchange now m st = by_policy now m st (match_policy r m)
