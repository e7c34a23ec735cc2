-- ===== src/Dns/Fallback.antt =====
-- clash-lib/src/app/dns/resolver/enhanced.rs: which servers the answer to an address query is from.
use clash_rs.Dns.Resolve.{with_cache, exchange_no_cache}
use clash_rs.Prelude.{
  ℕ, Bool, true, false, Bool-cases, Option, none, some, List, [], ◌∷◌, ◌≡◌, ◌≢◌, ◌⊎◌, inl, inr,
  refl, sym, ap, ◌∙◌, length, if◌then◌else◌, arith,
}
use clash_rs.Prelude.Outcome.{ok-injective, Outcome, ok, err, panic}
use clash_rs.Session.{IpAddr}
use clash_rs.FakeIp.{Store}
use clash_rs.Dns.{is_ip_request, Query, domain_name_of_message, Text, Message, ip_list_of_message}
use clash_rs.Dns.Enhanced.{
  Lru, update_for, update_geoip_cache, DnsError, EnhancedResolver, State, Reply, Trust, unknown,
  trusted, foreign, match_policy, should_only_query_fallback, should_ip_fallback, geoip_trust, ask,
  trusted_or, checked, after_main, by_trust, ip_exchange,
}

module _ {Client : Type 0} where
  -- The reply is an answer of these servers, which were the last to be asked.
  abbrev pub IsFrom :
      (ℕ → List Client → Message → Outcome DnsError Message)
      → List Client
      → Message
      → Message
      → List (List Client)
      → Type 0
  IsFrom net clients m reply asked =
      (before : List (List Client)) × (asked ≡ clients ∷ before)
      × (net (length before) clients m ≡ ok reply)

  -- The first address of the reply passes the filters, or the cache of countries trusts the domain.
  abbrev pub IsClean : EnhancedResolver Client → Message → Trust → Type 0
  IsClean r reply trust =
      (ip : IpAddr) × (ips : List IpAddr) × (ip_list_of_message reply ≡ ip ∷ ips)
      × ((trust ≡ trusted) ⊎ (should_ip_fallback r ip ≡ false))

module _ {Client Stats S L : Type 0} (net : ℕ → List Client → Message → Outcome DnsError Message)
    (pool : Store S) (r : EnhancedResolver Client) (m reply : Message) (fallback : List Client)
    (st' : State Client Stats S L) where
  from-ask :
      (clients : List Client) (st : State Client Stats S L)
      → ask net pool r clients m st ≡ (ok reply, st')
      → IsFrom net clients m reply st'.asked
  from-ask clients st e = (st.asked, sym (ap (λ x. x.1.asked) e), ap (λ x. x.0) e)

  asked-update :
      (now : ℕ) (skip : Bool) (domain : Option Text) (ip : IpAddr) (st : State Client Stats S L)
      → (if skip then st else update_for r now domain ip st).asked ≡ st.asked
  unfolding update_geoip_cache
  asked-update now true domain ip st = refl
  asked-update now false none ip st = refl
  asked-update now false (some domain) ip st = refl

  module _ (no_fakes : r.match_noproxy ≡ false) (trust : Trust) where
    abbrev Safe : Type 0
    Safe =
        IsFrom net fallback m reply st'.asked
        ⊎ (IsFrom net r.main m reply st'.asked × IsClean r reply trust)

    no_panic : ◌≢◌ {A = Outcome DnsError Message} panic (ok reply)
    no_panic e = ground (arith, e)

    kept :
        (main_result : Message) (ip : IpAddr) (ips : List IpAddr) (st : State Client Stats S L)
        → ip_list_of_message main_result ≡ ip ∷ ips
        → IsFrom net r.main m main_result st.asked
        → ((trust ≡ trusted) ⊎ (should_ip_fallback r ip ≡ false))
        → ◌≡◌ {A = Reply Client Stats S L} (ok main_result, st) (ok reply, st')
        → IsFrom net r.main m reply st'.asked × IsClean r reply trust
    kept main_result ip ips st first (before, asked, answer) clean e =
        let same : main_result ≡ reply = ok-injective (ap (λ x. x.0) e) in
        (
          (before, ap (λ x. x.1.asked) (sym e) ∙ asked, answer ∙ ap ok same),
          (ip, ips, ap ip_list_of_message (sym same) ∙ first, clean),
        )

    trusted_or-clean :
        (skip : Bool) (main_result : Message) (ip : IpAddr) (st : State Client Stats S L)
        → should_ip_fallback r ip ≡ false
        → trusted_or net pool r skip m main_result ip fallback st ≡ (ok main_result, st)
    trusted_or-clean true main_result ip st f = refl
    trusted_or-clean false main_result ip st f = rw f refl

    safe-trusted_or :
        (skip : Bool) (main_result : Message) (ip : IpAddr) (ips : List IpAddr)
        (st : State Client Stats S L)
        → (skip ≡ true → trust ≡ trusted)
        → ip_list_of_message main_result ≡ ip ∷ ips
        → IsFrom net r.main m main_result st.asked
        → trusted_or net pool r skip m main_result ip fallback st ≡ (ok reply, st')
        → Safe
    safe-trusted_or skip main_result ip ips st skips first from e =
        elim (Bool-cases (should_ip_fallback r ip)) [
          | inl f ↦ elim (Bool-cases skip) [
            | inl s ↦
                inr (kept main_result ip ips st first from (inl (skips s)) (sym (rw s refl) ∙ e))
            | inr s ↦ inl (from-ask fallback st (sym (rw (s, f, no_fakes) refl) ∙ e))
          ]
          | inr f ↦ inr (
              kept main_result ip ips st first from (inr f)
                (sym (trusted_or-clean skip main_result ip st f) ∙ e))
        ]

    safe-checked :
        (now : ℕ) (skip : Bool) (main_result : Message) (ips : List IpAddr)
        (st : State Client Stats S L)
        → (skip ≡ true → trust ≡ trusted)
        → ip_list_of_message main_result ≡ ips
        → IsFrom net r.main m main_result st.asked
        → checked net pool r now skip m main_result ips fallback st ≡ (ok reply, st')
        → Safe
    safe-checked now skip main_result [] st skips first from e = inl (from-ask fallback st e)
    safe-checked now skip main_result (ip ∷ ips) st skips first from e =
        safe-trusted_or skip main_result ip ips
          (if skip then st else update_for r now (domain_name_of_message m) ip st) skips first
          (from.0, asked-update now skip (domain_name_of_message m) ip st ∙ from.1, from.2) e

    safe-after_main :
        (now : ℕ) (skip : Bool) (res : Outcome DnsError Message) (st : State Client Stats S L)
        → (skip ≡ true → trust ≡ trusted)
        → net (length st.asked) r.main m ≡ res
        → after_main net pool r now skip m fallback (res, record st { asked = r.main ∷ st.asked })
          ≡ (ok reply, st')
        → Safe
    safe-after_main now skip (ok main_result) st skips answer e =
        safe-checked now skip main_result (ip_list_of_message main_result) _ skips refl
          (st.asked, refl, answer) e
    safe-after_main now skip (err x) st skips answer e = inl (from-ask fallback _ e)
    safe-after_main now skip panic st skips answer e = absurd (no_panic (ap (λ x. x.0) e))

  safe-by_trust :
      (now : ℕ) (st : State Client Stats S L) (trust : Trust) (no_fakes : r.match_noproxy ≡ false)
      → r.fallback ≡ some fallback
      → by_trust net pool r now m st trust ≡ (ok reply, st')
      → Safe no_fakes trust
  safe-by_trust now st unknown no_fakes chosen e =
      safe-after_main no_fakes unknown now false (net (length st.asked) r.main m) st
        (λ h. absurd (ground (arith, h))) refl (sym (rw chosen refl) ∙ e)
  safe-by_trust now st trusted no_fakes chosen e =
      safe-after_main no_fakes trusted now true (net (length st.asked) r.main m) st (λ h. refl) refl
        (sym (rw chosen refl) ∙ e)
  safe-by_trust now st (foreign domain) no_fakes chosen e =
      inl (from-ask fallback st (sym (rw (no_fakes, chosen) refl) ∙ e))

  -- With a fallback and no policy for the domain, where no fake address is to be made: an answer to
  -- an address query is the last one of the fallback, or one of the main servers that the domain
  -- filters leave to them, whose first address passes the filters or whose domain the cache of
  -- countries trusts.
  pub ip_exchange_safe :
      (now : ℕ) (st : State Client Stats S L)
      → r.fallback ≡ some fallback
      → r.match_noproxy ≡ false
      → match_policy r m ≡ ok none
      → ip_exchange net pool r now m st ≡ (ok reply, st')
      → IsFrom net fallback m reply st'.asked
        ⊎ (IsFrom net r.main m reply st'.asked
            × IsClean r reply (geoip_trust r now m st)
            × (should_only_query_fallback r m ≡ false))
  unfolding ip_exchange
  ip_exchange_safe now st chosen no_fakes no_policy e =
      elim (Bool-cases (should_only_query_fallback r m)) [
        | inl f ↦ inl (from-ask fallback st (sym (rw (no_policy, f, chosen) refl) ∙ e))
        | inr f ↦
            elim (safe-by_trust now st (geoip_trust r now m st) no_fakes chosen
              (sym (rw (no_policy, f) refl) ∙ e)) [
                | inl from ↦ inl from
                | inr (from, clean) ↦ inr (from, clean, f)
              ]
      ]

module _ {Client Stats S L : Type 0} (net : ℕ → List Client → Message → Outcome DnsError Message)
    (pool : Store S) (lru : Lru L) (r : EnhancedResolver Client) (now : ℕ) (q : Query) (m : Message)
    (st : State Client Stats S L) (alone : r.fallback ≡ none) where
  no_policy : match_policy r m ≡ ok none
  unfolding match_policy
  no_policy = rw alone refl

  no_domain_filter : should_only_query_fallback r m ≡ false
  unfolding should_only_query_fallback
  no_domain_filter = rw alone refl

  -- Without a fallback the policy is not looked at: unless the cache of countries knows the domain to
  -- be abroad, every question goes to the main servers, and their answer to the cache.
  pub exchange_no_cache-main :
      ((domain : Text) → geoip_trust r now m st ≢ foreign domain)
      → exchange_no_cache net pool lru r now q m st
        ≡ with_cache lru now q (ask net pool r r.main m st)
  unfolding exchange_no_cache ip_exchange
  exchange_no_cache-main home = elim (Bool-cases (is_ip_request q)) [
    | inl e ↦
        rw (e, no_policy, no_domain_filter)
          (ap (with_cache lru now q) (asks_main (geoip_trust r now m st) home))
    | inr e ↦ rw (e, no_policy) refl
  ]
    where
      asks_main :
          (trust : Trust)
          → ((domain : Text) → trust ≢ foreign domain)
          → by_trust net pool r now m st trust ≡ ask net pool r r.main m st
      asks_main unknown h = rw alone refl
      asks_main trusted h = rw alone refl
      asks_main (foreign domain) h = absurd (h domain refl)

  -- Without a fallback, when the cache of countries knows the domain of an address query to be abroad
  -- and no fake address is to be made, the resolver panics.
  pub exchange_no_cache-panics :
      (domain : Text)
      → is_ip_request q ≡ true
      → r.match_noproxy ≡ false
      → geoip_trust r now m st ≡ foreign domain
      → (exchange_no_cache net pool lru r now q m st).0 ≡ panic
  unfolding exchange_no_cache ip_exchange
  exchange_no_cache-panics domain e no_fakes abroad =
      rw (e, no_policy, no_domain_filter, abroad, no_fakes, alone) refl
