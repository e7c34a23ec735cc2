-- ===== src/Groups/Providers.antt =====
-- clash-lib/src/proxy/utils/provider_helper.rs: the proxies of a group, each name once.
use clash_rs.Prelude.{
  Bool, true, not, ◌&&◌, List, [], ◌∷◌, ◌++◌, ◌≡◌, refl, sym, ap, ◌∙◌, Bool-cases, inl, inr, arith,
}
use clash_rs.Prelude.Text.{Text, text_eq, text_eq_iff, text_eq_refl}
use clash_rs.Groups.{Proxy, has_text, has_name, retain, collect, get_proxies_from_providers}

-- The proxies of all providers, one provider after the other.
abbrev pub all_proxies : List (List Proxy) → List Proxy
all_proxies [] = []
all_proxies (provider ∷ providers) = provider ++ all_proxies providers

abbrev pub distinct : List Proxy → Bool
distinct [] = true
distinct (p ∷ ps) = not (has_name p.name ps) && distinct ps

retain-append :
    (seen : List Text) (ps qs : List Proxy)
    → (retain seen (ps ++ qs)).0 ≡ (retain seen ps).0 ++ (retain (retain seen ps).1 qs).0
unfolding retain
retain-append seen [] qs = refl
retain-append seen (p ∷ ps) qs = elim (Bool-cases (has_text p.name seen)) [
  | inl e ↦ rw e (retain-append seen ps qs)
  | inr e ↦ rw e (ap (λ x. p ∷ x) (retain-append (p.name ∷ seen) ps qs))
]

collect-all :
    (seen : List Text) (providers : List (List Proxy))
    → collect seen providers ≡ (retain seen (all_proxies providers)).0
unfolding collect retain
collect-all seen [] = refl
collect-all seen (provider ∷ providers) =
    ap (λ x. (retain seen provider).0 ++ x) (collect-all (retain seen provider).1 providers)
    ∙ sym (retain-append seen provider (all_proxies providers))

has_text-eq :
    (a b : Text) (seen : List Text) → text_eq a b ≡ true → has_text a seen ≡ has_text b seen
has_text-eq a b seen e = ap (λ n. has_text n seen) ((text_eq_iff a b).0 e)

has_name-retain :
    (n : Text) (seen : List Text) (ps : List Proxy)
    → has_name n (retain seen ps).0 ≡ (not (has_text n seen) && has_name n ps)
unfolding retain
has_name-retain n seen [] = ground arith
has_name-retain n seen (p ∷ ps) = ground (
  arith,
  has_name-retain n seen ps,
  has_name-retain n (p.name ∷ seen) ps,
  has_text-eq p.name n seen,
)

distinct-retain : (seen : List Text) (ps : List Proxy) → distinct (retain seen ps).0 ≡ true
unfolding retain
distinct-retain seen [] = refl
distinct-retain seen (p ∷ ps) = ground (
  arith,
  distinct-retain seen ps,
  distinct-retain (p.name ∷ seen) ps,
  has_name-retain p.name (p.name ∷ seen) ps,
  text_eq_refl p.name,
)

-- The proxies of a group have different names, and their names are those of the providers' proxies.
pub get_proxies_from_providers-distinct :
    (providers : List (List Proxy)) (n : Text)
    → (distinct (get_proxies_from_providers providers) ≡ true)
      × (has_name n (get_proxies_from_providers providers) ≡ has_name n (all_proxies providers))
unfolding get_proxies_from_providers
get_proxies_from_providers-distinct providers n = (
  rw (collect-all [] providers) (distinct-retain [] (all_proxies providers)),
  rw (collect-all [] providers) (has_name-retain n [] (all_proxies providers)),
)
