-- ===== src/Router/Resolve.antt =====
-- clash-lib/src/app/router/mod.rs: when `match_route` asks the resolver, and what it keeps.
use clash_rs.Prelude.{
  ◌==◌, ==_iff, ap, ap, ℕ, ◌+◌, ◌-◌, ◌<◌, true, false, Option, none, some, List, [], ◌∷◌, ◌≡◌, refl,
  ◌⊎◌, inl, inr, Bool-cases, Option-cases, if◌then◌else◌, arith,
}
use clash_rs.Prelude.Text.{Text}
use clash_rs.Session.{IpAddr, domain_of}
use clash_rs.Session.State.{Session}
use clash_rs.Router.{
  asn_at, maybe_ip, answered, Env, Rule, Mmdb, Progress, apply, prepare, resolve_step, asn_step,
  route_from, match_route, should_resolve_ip,
}

module _ (env : Env) (asn_mmdb : Option Mmdb) (start : Session) where
  -- All the calls of the resolver failed, or the last one, and no other, gave the address that the
  -- session holds. The rest of what the rules read is as it was.
  pub record Asked (st : Progress env) : Type 0 where
    pub destination_kept : st.sess.destination ≡ start.destination
    pub source_kept : st.sess.source ≡ start.source
    pub network_kept : st.sess.network ≡ start.network
    pub failed_before :
        (d : Text) (k : ℕ)
        → domain_of start.destination ≡ some d
        → k + (if st.sess_resolved then 1 else 0) < st.asked
        → env.resolve k d ≡ none
    pub last_answer :
        st.sess_resolved ≡ true
        → (d : Text) × (domain_of start.destination ≡ some d)
          × (env.resolve (st.asked - 1) d ≡ st.sess.resolved_ip)
    pub ip_kept : st.sess_resolved ≡ false → st.sess.resolved_ip ≡ start.resolved_ip
    pub only_domains :
        domain_of start.destination ≡ none → (st.asked ≡ 0) × (st.sess_resolved ≡ false)

  start-Asked : Asked (record { sess = start; sess_resolved = false; asked = 0 })
  start-Asked = record {
    destination_kept = refl;
    source_kept = refl;
    network_kept = refl;
    failed_before = λ d k e h. absurd (omega arith);
    last_answer = λ h. absurd (cc h);
    ip_kept = λ h. refl;
    only_domains = λ h. (refl, refl);
  }

  add_sub : (n : ℕ) → n + 1 - 1 ≡ n
  add_sub n = omega arith

  failed_at :
      {st : Progress env}
      → Asked st
      → st.sess_resolved ≡ false
      → (d : Text) (k : ℕ) → domain_of start.destination ≡ some d
      → k < st.asked
      → env.resolve k d ≡ none
  failed_at a open_yet d k e h = a.failed_before d k e (rw open_yet (omega arith))

  domain_kept :
      {st : Progress env} {d : Text}
      → Asked st
      → domain_of st.sess.destination ≡ some d
      → domain_of start.destination ≡ some d
  domain_kept a e = cc (e, ap domain_of a.destination_kept)

  failed-Asked :
      {st : Progress env}
      → Asked st
      → (d : Text) → domain_of st.sess.destination ≡ some d
      → st.sess_resolved ≡ false
      → env.resolve st.asked d ≡ none
      → Asked (answered env st none)
  failed-Asked {st} a d e open_yet failed = record {
    destination_kept = a.destination_kept;
    source_kept = a.source_kept;
    network_kept = a.network_kept;
    failed_before = λ d' k e' h. elim (Bool-cases (k == st.asked)) [
      | inl last ↦ grind (arith, (==_iff k st.asked).0 last, domain_kept a e, e', failed)
      | inr earlier ↦ failed_at a open_yet d' k e' (ground (arith, h, open_yet, earlier))
    ];
    last_answer = λ h. absurd (cc (h, open_yet));
    ip_kept = a.ip_kept;
    only_domains = λ h. absurd (ground (arith, domain_kept a e, h));
  }

  answered-Asked :
      {st : Progress env}
      → Asked st
      → (d : Text) (ip : IpAddr) → domain_of st.sess.destination ≡ some d
      → st.sess_resolved ≡ false
      → env.resolve st.asked d ≡ some ip
      → Asked (answered env st (some ip))
  answered-Asked {st} a d ip e open_yet answer = record {
    destination_kept = a.destination_kept;
    source_kept = a.source_kept;
    network_kept = a.network_kept;
    failed_before = λ d' k e' h. failed_at a open_yet d' k e' (omega (arith, h));
    last_answer = λ h. (d, domain_kept a e, rw (add_sub st.asked) answer);
    ip_kept = λ h. absurd (cc h);
    only_domains = λ h. absurd (ground (arith, domain_kept a e, h));
  }

  resolve_step-cases :
      (r : Rule env) (st : Progress env)
      → (resolve_step env r st ≡ st)
        ⊎ ((d : Text) × (domain_of st.sess.destination ≡ some d)
            × (st.sess_resolved ≡ false)
            × (resolve_step env r st ≡ answered env st (env.resolve st.asked d)))
  unfolding resolve_step
  resolve_step-cases r st = elim (Bool-cases (should_resolve_ip env r)) [
    | inr e ↦ inl (rw e refl)
    | inl e ↦ elim (Bool-cases st.sess_resolved) [
      | inl h ↦ inl (simp (e, h))
      | inr h ↦ elim (Option-cases (domain_of st.sess.destination)) [
        | inl n ↦ inl (simp (e, h, n))
        | inr (d, n) ↦ inr (d, n, h, simp (e, h, n))
      ]
    ]
  ]

  resolve_step-Asked : (r : Rule env) {st : Progress env} → Asked st → Asked (resolve_step env r st)
  resolve_step-Asked r {st} a = elim (resolve_step-cases r st) [
    | inl same ↦ rw same a
    | inr (d, n, h, step) ↦ elim (Option-cases (env.resolve st.asked d)) [
      | inl e ↦ rw (step, e) (failed-Asked a d n h e)
      | inr (ip, e) ↦ rw (step, e) (answered-Asked a d ip n h e)
    ]
  ]

  asn_at-asn :
      (db : Mmdb) (sess : Session) (ip : Option IpAddr)
      → (x : Option Text) × (asn_at env db sess ip ≡ record sess { asn = x })
  asn_at-asn db sess none = (sess.asn, refl)
  asn_at-asn db sess (some a) = (_, refl)

  asn_step-asn :
      (mmdb : Option Mmdb) (sess : Session)
      → (x : Option Text) × (asn_step env mmdb sess ≡ record sess { asn = x })
  unfolding asn_step
  asn_step-asn none sess = (sess.asn, refl)
  asn_step-asn (some db) sess = asn_at-asn db sess (maybe_ip env sess)

  asn-Asked :
      {st : Progress env} (x : Option Text)
      → Asked st
      → Asked (record st { sess = record st.sess { asn = x } })
  asn-Asked x a = record {
    destination_kept = a.destination_kept;
    source_kept = a.source_kept;
    network_kept = a.network_kept;
    failed_before = a.failed_before;
    last_answer = a.last_answer;
    ip_kept = a.ip_kept;
    only_domains = a.only_domains;
  }

  prepare-Asked : (r : Rule env) {st : Progress env} → Asked st → Asked (prepare env asn_mmdb r st)
  unfolding prepare
  prepare-Asked r {st} a =
      let changed = asn_step-asn asn_mmdb (resolve_step env r st).sess in
      rw changed.1 (asn-Asked changed.0 (resolve_step-Asked r a))

  route_from-Asked :
      (rules : List (Rule env)) {st : Progress env}
      → Asked st
      → Asked (route_from env asn_mmdb rules st).2
  unfolding route_from
  route_from-Asked [] a = a
  route_from-Asked (r ∷ rules) {st} a =
      elim (Bool-cases (apply env r (prepare env asn_mmdb r st).sess)) [
        | inl e ↦ rw e (prepare-Asked r a)
        | inr e ↦ rw e (route_from-Asked rules (prepare-Asked r a))
      ]

  -- Routing keeps the session's source, destination and network. It does not ask the resolver when the
  -- destination is an address, asks again only after a failure, and keeps the address of the one
  -- answer it gets; without an answer it keeps the address that the session had.
  pub match_route-Asked : (rules : List (Rule env)) → Asked (match_route env asn_mmdb rules start).2
  unfolding match_route
  match_route-Asked rules = route_from-Asked rules start-Asked
