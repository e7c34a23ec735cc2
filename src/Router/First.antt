-- ===== src/Router/First.antt =====
-- clash-lib/src/app/router/mod.rs: which rule `match_route` chooses.
use clash_rs.Prelude.{
  append_assoc, sym, true, false, Option, none, some, is_some, List, [], ◌∷◌, ◌++◌, ◌≡◌, refl, inl,
  inr, Bool-cases,
}
use clash_rs.Prelude.Text.{Text}
use clash_rs.Session.State.{Session}
use clash_rs.Router.{
  Env, Rule, Mmdb, Progress, apply, prepare, route_from, match_route, target_of, no_rule,
}

module _ (env : Env) (asn_mmdb : Option Mmdb) where
  -- The rules were tried one after the other and none applied.
  pub data Skipped : List (Rule env) → Progress env → Progress env → Type 0 where
    done : {st : Progress env} → Skipped [] st st
    skip :
        {r : Rule env} {rules : List (Rule env)} {st st' : Progress env}
        → apply env r (prepare env asn_mmdb r st).sess ≡ false
        → Skipped rules (prepare env asn_mmdb r st) st'
        → Skipped (r ∷ rules) st st'

  -- The meaning of a list of rules: the first rule that applies gives the target, and where none
  -- applies the target is `MATCH`.
  pub data Routed
      : List (Rule env) → Progress env → Text × Option (Rule env) × Progress env → Type 0 where
    matched :
        {pre : List (Rule env)} {r : Rule env} {st mid : Progress env}
        → Skipped pre st mid
        → (post : List (Rule env)) → apply env r (prepare env asn_mmdb r mid).sess ≡ true
        → Routed (pre ++ (r ∷ post)) st (target_of env r, some r, prepare env asn_mmdb r mid)
    unmatched :
        {rules : List (Rule env)} {st st' : Progress env}
        → Skipped rules st st'
        → Routed rules st (no_rule, none, st')

  Routed-skip :
      {r : Rule env} {rules : List (Rule env)} {st : Progress env}
      {res : Text × Option (Rule env) × Progress env}
      → apply env r (prepare env asn_mmdb r st).sess ≡ false
      → Routed rules (prepare env asn_mmdb r st) res
      → Routed (r ∷ rules) st res
  Routed-skip h (matched s post a) = matched (skip h s) post a
  Routed-skip h (unmatched s) = unmatched (skip h s)

  route_from-Routed :
      (rules : List (Rule env)) (st : Progress env)
      → Routed rules st (route_from env asn_mmdb rules st)
  unfolding route_from
  route_from-Routed [] st = unmatched done
  route_from-Routed (r ∷ rules) st =
      elim (Bool-cases (apply env r (prepare env asn_mmdb r st).sess)) [
        | inl h ↦ rw h (matched done rules h)
        | inr h ↦ rw h (Routed-skip h (route_from-Routed rules (prepare env asn_mmdb r st)))
      ]

  route_from-Skipped :
      {pre : List (Rule env)} {st mid : Progress env}
      → Skipped pre st mid
      → (post : List (Rule env))
      → route_from env asn_mmdb (pre ++ post) st ≡ route_from env asn_mmdb post mid
  unfolding route_from
  route_from-Skipped done post = refl
  route_from-Skipped (skip h s) post = rw (h, route_from-Skipped s post)

  route_from-none :
      {rules : List (Rule env)} {st st' : Progress env}
      → Skipped rules st st'
      → route_from env asn_mmdb rules st ≡ (no_rule, none, st')
  unfolding route_from
  route_from-none done = refl
  route_from-none (skip h s) = rw (h, route_from-none s)

  Routed-route_from :
      {rules : List (Rule env)} {st : Progress env} {res : Text × Option (Rule env) × Progress env}
      → Routed rules st res
      → route_from env asn_mmdb rules st ≡ res
  unfolding route_from
  Routed-route_from (matched {r = r} s post h) = rw (route_from-Skipped s (r ∷ post), h)
  Routed-route_from (unmatched s) = route_from-none s

  -- `match_route` returns the target of the first rule that applies to the session as it is at that
  -- rule's turn, with the rule, and `MATCH` and no rule where none applies: its result is one that
  -- the relation `Routed` gives to the rules and the session.
  pub match_route-Routed :
      (rules : List (Rule env)) (sess : Session)
      → Routed rules
          (record { sess = sess; sess_resolved = false; asked = 0 })
          (match_route env asn_mmdb rules sess)
  unfolding match_route
  match_route-Routed rules sess = route_from-Routed rules _

  -- `Routed` relates no other result to the rules and the session: every result that it relates to
  -- them is the one that `match_route` returns.
  pub match_route_unique :
      (rules : List (Rule env)) (sess : Session) (res : Text × Option (Rule env) × Progress env)
      → Routed rules (record { sess = sess; sess_resolved = false; asked = 0 }) res
      → match_route env asn_mmdb rules sess ≡ res
  unfolding match_route
  match_route_unique rules sess res h = Routed-route_from h

  abbrev pub answered_rule : Text × Option (Rule env) × Progress env → Option (Rule env)
  answered_rule res = res.1

  route_from-append :
      (rules more : List (Rule env)) (st : Progress env)
      → is_some (answered_rule (route_from env asn_mmdb rules st)) ≡ true
      → route_from env asn_mmdb (rules ++ more) st ≡ route_from env asn_mmdb rules st
  unfolding route_from
  route_from-append [] more st h = absurd (cc h)
  route_from-append (r ∷ rules) more st h =
      elim (Bool-cases (apply env r (prepare env asn_mmdb r st).sess)) [
        | inl e ↦ rw e
        | inr e ↦ rw (e, route_from-append rules more (prepare env asn_mmdb r st) (cc (h, e)))
      ]

  -- Where one of the rules applies, the rules added after them do not change the result.
  pub match_route-append :
      (rules more : List (Rule env)) (sess : Session)
      → is_some (answered_rule (match_route env asn_mmdb rules sess)) ≡ true
      → match_route env asn_mmdb (rules ++ more) sess ≡ match_route env asn_mmdb rules sess
  unfolding match_route
  match_route-append rules more sess h = route_from-append rules more _ h

  route_from-final :
      (pre post : List (Rule env)) (t : Text) (st : Progress env)
      → is_some (answered_rule (route_from env asn_mmdb (pre ++ (Rule.final_rule t ∷ post)) st))
        ≡ true
  unfolding route_from apply
  route_from-final [] post t st = refl
  route_from-final (r ∷ pre) post t st =
      elim (Bool-cases (apply env r (prepare env asn_mmdb r st).sess)) [
        | inl e ↦ rw e
        | inr e ↦ rw e (route_from-final pre post t (prepare env asn_mmdb r st))
      ]

  -- Rules with a `MATCH` rule among them always choose a rule, and the rules after it never matter.
  pub match_route-final :
      (pre post : List (Rule env)) (t : Text) (sess : Session)
      → is_some (answered_rule (match_route env asn_mmdb (pre ++ (Rule.final_rule t ∷ post)) sess))
          ≡ true
        × (match_route env asn_mmdb (pre ++ (Rule.final_rule t ∷ post)) sess
            ≡ match_route env asn_mmdb (pre ++ (Rule.final_rule t ∷ [])) sess)
  unfolding match_route
  match_route-final pre post t sess = (
    route_from-final pre post t _,
    rw (sym (append_assoc pre (Rule.final_rule t ∷ []) post)) (
        match_route-append (pre ++ (Rule.final_rule t ∷ [])) post sess
          (route_from-final pre [] t _)),
  )
