-- ===== src/Groups/Fastest/Minimum.antt =====
-- clash-lib/src/proxy/group/urltest/mod.rs: the delay of the proxy that the search returns.
use clash_rs.Prelude.{
  ap, ◌∙◌, ◌⊎◌, subst, ◌≤◌, leb, ◌&&◌, ◌≡◌, refl, ℕ, ◌+◌, ◌*◌, ltb, Bool, true, false, ◌||◌,
  Bool-cases, Option-cases, inl, inr, Option, none, some, unwrap_or, List, [], ◌∷◌, arith,
}
use clash_rs.Prelude.Text.{text_eq_refl, Text}
use clash_rs.Prelude.Map.{Map}
use clash_rs.ProxyManager.{ProxyState, alive, last_delay}
use clash_rs.Groups.{has_name, Proxy, get_proxies_from_providers}
use clash_rs.Groups.Fastest.{
  Search, max_delay, faster, slower_than, store_index, seen, fastest_step, fastest_loop,
  first_search, search_from, fastest_from, fastest,
}

abbrev pub at_least : ℕ → Option ℕ → Bool
at_least d none = true
at_least d (some e) = leb d e

-- No proxy of the list has a delay below `d`.
abbrev pub none_below : Map ProxyState → ℕ → List Proxy → Bool
none_below m d [] = true
none_below m d (p ∷ ps) = at_least d (last_delay m p.name) && none_below m d ps

-- The search's proxy has the name of one of the list and the search's delay, and no proxy of the
-- list has a smaller one.
pub record IsFastest (m : Map ProxyState) (ps : List Proxy) (st : Search) : Type 0 where
  pub own_delay : unwrap_or max_delay (last_delay m st.fastest.name) ≡ st.fastest_delay
  pub one_of : has_name st.fastest.name ps ≡ true
  pub none_faster : none_below m st.fastest_delay ps ≡ true

abbrev Step : Map ProxyState → Proxy → Search → Search → Type 0
Step m p st st' =
    (st'.fastest_delay ≤ st.fastest_delay)
    × (at_least st'.fastest_delay (last_delay m p.name) ≡ true)
    × (unwrap_or max_delay (last_delay m st'.fastest.name) ≡ st'.fastest_delay)

has_name-cons :
    (n : Text) (p : Proxy) (ps : List Proxy) → has_name n ps ≡ true → has_name n (p ∷ ps) ≡ true
has_name-cons n p ps h = ground arith

has_name-at : {n : Text} (p : Proxy) → n ≡ p.name → (ps : List Proxy) → has_name n (p ∷ ps) ≡ true
has_name-at p e ps = rw (e, text_eq_refl p.name) refl

module _ (m : Map ProxyState) (tolerance : ℕ) (proxies : List Proxy) (current : Text) where
  dead-last_delay : (name : Text) → alive m name ≡ false → last_delay m name ≡ none
  unfolding last_delay
  dead-last_delay name e = rw e refl

  faster-Step :
      (p : Proxy) (st : Search)
      → unwrap_or max_delay (last_delay m st.fastest.name) ≡ st.fastest_delay
      → Step m p st (faster m tolerance proxies current p (last_delay m p.name) st)
  faster-Step p st own = elim (Option-cases (last_delay m p.name)) [
    | inl e ↦ rw e (omega arith, refl, own)
    | inr (d, e) ↦ elim (Bool-cases (ltb d st.fastest_delay)) [
      | inl less ↦ rw (e, less) (ground arith, ground arith, rw e refl)
      | inr more ↦ rw (e, more) (omega arith, ground arith, own)
    ]
  ]

  Step-store_index :
      (p : Proxy) (st st' : Search)
      → Step m p st st'
      → Step m p st (store_index m tolerance proxies current st')
  Step-store_index p st st' h =
      elim (Bool-cases (
        st'.fast_not_exist
        || (alive m st'.fastest.name
            || slower_than m tolerance proxies current (st'.fastest_delay + tolerance * 1000000)
                (last_delay m current)))) [ inl e ↦ rw e h | inr e ↦ rw e h ]

  fastest_step-Step :
      (p : Proxy) (st : Search)
      → unwrap_or max_delay (last_delay m st.fastest.name) ≡ st.fastest_delay
      → Step m p st (fastest_step m tolerance proxies current p st)
  unfolding fastest_step
  fastest_step-Step p st own = elim (Bool-cases (alive m p.name)) [
    | inl e ↦
        rw e (Step-store_index p st _ (faster-Step p (seen m tolerance proxies current p st) own))
    | inr e ↦ rw (e, dead-last_delay p.name e) (omega arith, refl, own)
  ]

  at_least-le : (a b : ℕ) (o : Option ℕ) → a ≤ b → at_least b o ≡ true → at_least a o ≡ true
  at_least-le a b none h e = refl
  at_least-le a b (some d) h e = ground arith

  fastest_loop-lower :
      (ps : List Proxy) (st : Search)
      → unwrap_or max_delay (last_delay m st.fastest.name) ≡ st.fastest_delay
      → let st' = fastest_loop m tolerance proxies current ps st in
        (st'.fastest_delay ≤ st.fastest_delay)
        × (none_below m st'.fastest_delay ps ≡ true)
        × (unwrap_or max_delay (last_delay m st'.fastest.name) ≡ st'.fastest_delay)
  unfolding fastest_loop
  fastest_loop-lower [] st own = (omega arith, refl, own)
  fastest_loop-lower (p ∷ ps) st own =
      let (below, least, own') = fastest_step-Step p st own in
      let (below', least', own'') =
        fastest_loop-lower ps (fastest_step m tolerance proxies current p st) own' in
      (
        omega (arith, below, below'),
        rw (least', at_least-le _ _ (last_delay m p.name) below' least) refl,
        own'',
      )

  store_index-fastest :
      (st : Search) → (store_index m tolerance proxies current st).fastest ≡ st.fastest
  store_index-fastest st =
      elim (Bool-cases (
        st.fast_not_exist
        || (alive m st.fastest.name
            || slower_than m tolerance proxies current (st.fastest_delay + tolerance * 1000000)
                (last_delay m current)))) [ inl e ↦ rw e refl | inr e ↦ rw e refl ]

  faster-fastest :
      (p : Proxy) (o : Option ℕ) (st : Search)
      → ((faster m tolerance proxies current p o st).fastest ≡ st.fastest)
        ⊎ ((faster m tolerance proxies current p o st).fastest ≡ p)
  faster-fastest p none st = inl refl
  faster-fastest p (some d) st = elim (Bool-cases (ltb d st.fastest_delay)) [
    | inl e ↦ inr (rw e refl)
    | inr e ↦ inl (rw e refl)
  ]

  fastest_step-fastest :
      (p : Proxy) (st : Search)
      → ((fastest_step m tolerance proxies current p st).fastest ≡ st.fastest)
        ⊎ ((fastest_step m tolerance proxies current p st).fastest ≡ p)
  unfolding fastest_step
  fastest_step-fastest p st = elim (Bool-cases (alive m p.name)) [
    | inr e ↦ inl (rw e refl)
    | inl e ↦
        let next : Search =
          faster m tolerance proxies current p (last_delay m p.name)
            (seen m tolerance proxies current p st) in
        elim (faster-fastest p (last_delay m p.name) (seen m tolerance proxies current p st)) [
          | inl same ↦ inl (rw e (store_index-fastest next ∙ same))
          | inr it ↦ inr (rw e (store_index-fastest next ∙ it))
        ]
  ]

  fastest_loop-one_of :
      (ps : List Proxy) (st : Search)
      → ((fastest_loop m tolerance proxies current ps st).fastest ≡ st.fastest)
        ⊎ (has_name (fastest_loop m tolerance proxies current ps st).fastest.name ps ≡ true)
  unfolding fastest_loop
  fastest_loop-one_of [] st = inl refl
  fastest_loop-one_of (p ∷ ps) st =
      let next : Search = fastest_step m tolerance proxies current p st in
      elim (fastest_loop-one_of ps next) [
        | inr there ↦ inr (has_name-cons _ p ps there)
        | inl same ↦ elim (fastest_step-fastest p st) [
          | inl first_same ↦ inl (same ∙ first_same)
          | inr it ↦ inr (has_name-at p (ap (λ q. q.name) (same ∙ it)) ps)
        ]
      ]

at_least-own : (o : Option ℕ) → at_least (unwrap_or max_delay o) o ≡ true
at_least-own none = refl
at_least-own (some d) = ground arith

search_from-IsFastest :
    (m : Map ProxyState) (tolerance index : ℕ) (p : Proxy) (ps : List Proxy)
    (current : Option Proxy) {st : Search}
    → search_from m tolerance index p ps current ≡ some st
    → IsFastest m (p ∷ ps) st
unfolding search_from
search_from-IsFastest m tolerance index p ps none h = absurd (cc h)
search_from-IsFastest m tolerance index p ps (some current) {st} h =
    let (below, least, own) =
      fastest_loop-lower m tolerance (p ∷ ps) current.name ps (first_search m index p) refl in
    let result : fastest_loop m tolerance (p ∷ ps) current.name ps (first_search m index p) ≡ st =
      cc h in
    subst (IsFastest m (p ∷ ps)) result (record {
      own_delay = own;
      one_of =
          elim (fastest_loop-one_of m tolerance (p ∷ ps) current.name ps (first_search m index p)) [
            | inl same ↦ has_name-at p (ap (λ q. q.name) same) ps
            | inr there ↦ has_name-cons _ p ps there
          ];
      none_faster =
          rw
            (
              least,
              at_least-le m tolerance (p ∷ ps) current.name _ _ (last_delay m p.name) below
                  (at_least-own (last_delay m p.name)),
            )
            refl;
    })

-- Where the search of the url-test group returns, it returns a proxy of least delay: it has the name
-- of a proxy of the providers, and its last delay, or the greatest duration where it has none, is at
-- most the last delay of every proxy of the providers that has one.
pub fastest-IsFastest :
    (m : Map ProxyState) (tolerance index : ℕ) (providers : List (List Proxy)) {st : Search}
    → fastest m tolerance index providers ≡ some st
    → IsFastest m (get_proxies_from_providers providers) st
unfolding fastest fastest_from
fastest-IsFastest m tolerance index providers h = from (get_proxies_from_providers providers) h
  where
    from :
        (ps : List Proxy) {st : Search}
        → fastest_from m tolerance index ps ≡ some st
        → IsFastest m ps st
    from [] h = absurd (cc h)
    from (p ∷ ps) h = search_from-IsFastest m tolerance index p ps _ h
