-- ===== src/Groups.antt =====
-- clash-lib/src/proxy/group and clash-lib/src/proxy/utils/provider_helper.rs: the choice of a proxy.
--
-- A provider is the list of its proxies; `touch` starts a health check in the background, which is
-- I/O. Where the source would index an empty list of proxies, `none` stands for its panic.
pub mod Providers
pub mod Choice
pub mod Fastest
mod Examples
use clash_rs.Prelude.{
  or_else, ℕ, zero, suc, ◌+◌, ◌%◌, ◌^◌, ◌==◌, Bool, true, false, not, ◌||◌, Option, none, some,
  unwrap_or, List, [], ◌∷◌, ◌++◌, if◌then◌else◌, length, get_elem?, first, any,
}
use clash_rs.Prelude.Text.{Text, text_eq}
use clash_rs.Prelude.Map.{Map}
use clash_rs.ProxyManager.{ProxyState, alive}

-- What the groups read of an `AnyOutboundHandler`.
pub record Proxy : Type 0 where
  pub name : Text
  pub udp : Bool

abbrev pub has_text : Text → List Text → Bool
has_text n [] = false
has_text n (s ∷ ss) = text_eq s n || has_text n ss

abbrev pub has_name : Text → List Proxy → Bool
has_name n [] = false
has_name n (p ∷ ps) = text_eq p.name n || has_name n ps

-- `retain(|p| proxy_names.insert(p.name()))`: what is kept and the set of names.
unfoldable pub retain : List Text → List Proxy → List Proxy × List Text
retain seen [] = ([], seen)
retain seen (p ∷ ps) =
    let old = retain seen ps in
    let new = retain (p.name ∷ seen) ps in if has_text p.name seen then old else (p ∷ new.0, new.1)

unfoldable pub collect : List Text → List (List Proxy) → List Proxy
unfolding retain
collect seen [] = []
collect seen (provider ∷ providers) =
    (retain seen provider).0 ++ collect (retain seen provider).1 providers

unfoldable pub get_proxies_from_providers : List (List Proxy) → List Proxy
unfolding collect
get_proxies_from_providers providers = collect [] providers

-- `position(|p| p.name() == name)`
abbrev pub position : Text → List Proxy → Option ℕ
position n [] = none
position n (p ∷ ps) =
    let rest = position n ps in
    if text_eq p.name n then some 0 else elim rest [ none ↦ none | some i ↦ some (suc i) ]

-- The handler of the selector group; its index is an `AtomicU16`.
pub record Selector : Type 0 where
  pub providers : List (List Proxy)
  pub current_selected_index : ℕ

-- The initial choice is looked up in the first provider only.
unfoldable pub new : List (List Proxy) → Option Text → Option Selector
new providers selected = elim (first providers) [
  | none ↦ none
  | some proxies ↦ some (record {
    providers = providers;
    current_selected_index =
        unwrap_or 0 (elim selected [ none ↦ none | some s ↦ position s proxies ]) % 2 ^ 16;
  })
]

unfoldable pub selected_proxy : Selector → Option Proxy
selected_proxy h =
    let proxies = get_proxies_from_providers h.providers in
    or_else (get_elem? proxies h.current_selected_index) (first proxies)

abbrev pub set_index : Selector → Option ℕ → Option Selector
set_index h none = none
set_index h (some i) = some (record h { current_selected_index = i % 2 ^ 16 })

-- `none` is the error for an unknown name.
unfoldable pub select : Selector → Text → Option Selector
select h name = set_index h (position name (get_proxies_from_providers h.providers))

-- `find_alive_proxy` of the fallback group
abbrev pub first_alive : Map ProxyState → List Proxy → Option Proxy
first_alive m [] = none
first_alive m (p ∷ ps) = let rest = first_alive m ps in if alive m p.name then some p else rest

unfoldable pub find_alive_proxy : Map ProxyState → List (List Proxy) → Option Proxy
find_alive_proxy m providers =
    let proxies = get_proxies_from_providers providers in
    or_else (first_alive m proxies) (first proxies)

-- `strategy_rr`: the new index and the proxy.
unfoldable pub strategy_rr : ℕ → List Proxy → ℕ × Option Proxy
strategy_rr index proxies =
    let next = (index + 1) % length proxies in (next, get_elem? proxies next)
