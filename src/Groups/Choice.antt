-- ===== src/Groups/Choice.antt =====
-- clash-lib/src/proxy/group: which proxy the groups choose.
use clash_rs.Prelude.{
  subst, ◌≢◌, ℕ, zero, suc, ◌+◌, ◌%◌, ◌^◌, ◌<◌, ◌≤◌, true, Option, none, some, List, [], ◌∷◌, ◌++◌,
  ◌≡◌, refl, sym, ap, ◌⊎◌, inl, inr, Bool-cases, length, get_elem?, first, arith,
}
use clash_rs.Prelude.Text.{Text, text_eq, text_eq_iff}
use clash_rs.Prelude.Map.{Map}
use clash_rs.ProxyManager.{ProxyState, alive}
use clash_rs.Groups.{
  set_index, Proxy, position, Selector, select, selected_proxy, get_proxies_from_providers,
  first_alive, find_alive_proxy, strategy_rr,
}
use native.Mathlib.Nat.{mod-eq_of_lt, mod-add-mod}

position-cases :
    (n : Text) (ps : List Proxy)
    → (position n ps ≡ none)
      ⊎ ((i : ℕ) × (p : Proxy) × (position n ps ≡ some i)
          × (i < length ps)
          × (get_elem? ps i ≡ some p)
          × (p.name ≡ n))
position-cases n [] = inl refl
position-cases n (p ∷ ps) = elim (Bool-cases (text_eq p.name n)) [
  | inl e ↦ inr (0, p, simp e, omega arith, refl, (text_eq_iff p.name n).0 e)
  | inr e ↦ elim (position-cases n ps) [
    | inl none_there ↦ inl (simp (e, none_there))
    | inr (i, q, found_at, below, there, same) ↦
        inr (suc i, q, simp (e, found_at), omega arith, there, same)
  ]
]

select-none :
    (h : Selector) (name : Text) {h' : Selector}
    → position name (get_proxies_from_providers h.providers) ≡ none
    → select h name ≢ some h'
unfolding select
select-none h name none_there e = cc (e, ap (set_index h) none_there)

-- Among at most 65536 proxies, when `select` accepts a name, the group's proxy is one of its proxies
-- with that name.
pub selected_proxy-select :
    (h : Selector) (name : Text) {h' : Selector}
    → length (get_proxies_from_providers h.providers) ≤ 2 ^ 16
    → select h name ≡ some h'
    → (p : Proxy) × (selected_proxy h' ≡ some p) × (p.name ≡ name)
unfolding select selected_proxy
selected_proxy-select h name {h'} few e =
    elim (position-cases name (get_proxies_from_providers h.providers)) [
      | inl none_there ↦ absurd (select-none h name none_there e)
      | inr (i, p, found_at, below, there, same) ↦
          let index : i % 2 ^ 16 ≡ i = mod-eq_of_lt (omega arith) in
          let chosen : record h { current_selected_index = i } ≡ h' =
            cc (e, ap (set_index h) found_at, index) in
          (p, rw⁻¹ chosen (rw there refl), same)
    ]

-- The first proxy that is alive, or the first of all when none is.
pub data FirstAlive (m : Map ProxyState) : List Proxy → Option Proxy → Type 0 where
  found :
      (pre : List Proxy) (p : Proxy) (post : List Proxy)
      → first_alive m pre ≡ none
      → alive m p.name ≡ true
      → FirstAlive m (pre ++ (p ∷ post)) (some p)
  all_dead : (ps : List Proxy) → first_alive m ps ≡ none → FirstAlive m ps (first ps)

first_alive-cases :
    (m : Map ProxyState) (ps : List Proxy)
    → (first_alive m ps ≡ none)
      ⊎ ((pre : List Proxy) × (p : Proxy) × (post : List Proxy) × (ps ≡ pre ++ (p ∷ post))
          × (first_alive m ps ≡ some p)
          × (first_alive m pre ≡ none)
          × (alive m p.name ≡ true))
first_alive-cases m [] = inl refl
first_alive-cases m (q ∷ ps) = elim (Bool-cases (alive m q.name)) [
  | inl e ↦ inr ([], q, ps, refl, simp e, refl, e)
  | inr e ↦ elim (first_alive-cases m ps) [
    | inl dead ↦ inl (simp (e, dead))
    | inr (pre, p, post, split, chosen, dead, lives) ↦
        inr (q ∷ pre, p, post, ap (λ x. q ∷ x) split, simp (e, chosen), simp (e, dead), lives)
  ]
]

-- `find_alive_proxy` chooses the first proxy that is alive, and the first of all when none is.
pub find_alive_proxy-FirstAlive :
    (m : Map ProxyState) (providers : List (List Proxy))
    → FirstAlive m (get_proxies_from_providers providers) (find_alive_proxy m providers)
unfolding find_alive_proxy
find_alive_proxy-FirstAlive m providers =
    elim (first_alive-cases m (get_proxies_from_providers providers)) [
      | inl dead ↦ rw dead (all_dead (get_proxies_from_providers providers) dead)
      | inr (pre, p, post, split, chosen, dead, lives) ↦
          rw chosen
            (subst (λ ps. FirstAlive m ps (some p)) (sym split) (found pre p post dead lives))
    ]

-- The index that the round-robin strategy has after some calls on the same proxies.
abbrev pub index_after : ℕ → ℕ → List Proxy → ℕ
index_after zero index ps = index
index_after (suc k) index ps = (strategy_rr (index_after k index ps) ps).0

-- On the same proxies, and from an index among theirs, the round-robin strategy goes around them:
-- after `k` calls its index has advanced by `k`, modulo their number.
pub index_after-strategy_rr :
    (k index : ℕ) (ps : List Proxy)
    → index < length ps
    → index_after k index ps ≡ (index + k) % length ps
unfolding strategy_rr
index_after-strategy_rr zero index ps h =
    let same : index + 0 ≡ index = omega arith in rw same (sym (mod-eq_of_lt h))
index_after-strategy_rr (suc k) index ps h =
    let next : index + suc k ≡ (index + k) + 1 = omega arith in
    rw (index_after-strategy_rr k index ps h, next) (mod-add-mod (index + k) (length ps) 1)
