-- ===== src/Groups/Examples.antt =====
-- Two providers with a name in common, a registry, and the theorems about them.
use clash_rs.Prelude.{◌≡◌, refl, true, none, some, List, [], ◌∷◌, arith}
use clash_rs.Prelude.Text.{Text, codes}
use clash_rs.Prelude.Map
use clash_rs.Prelude.Map.{Map}
use clash_rs.ProxyManager
use clash_rs.ProxyManager.{report_alive, ProxyState, tested, last_delay, delay_history}
use clash_rs.ProxyManager.History.{IsBounded}
use clash_rs.Groups.{
  alive, Proxy, Selector, get_proxies_from_providers, collect, retain, select, has_name,
}
use clash_rs.Groups.Providers.{all_proxies, distinct, get_proxies_from_providers-distinct}
use clash_rs.Groups.Fastest.{Search, fastest, fastest_from, search_from, fastest_loop, fastest_step}
use clash_rs.Groups.Fastest.Minimum.{IsFastest, fastest-IsFastest}

abbrev proxy : Text → Proxy
proxy name = record { name = name; udp = true }

abbrev providers : List (List Proxy)
providers =
    (proxy (codes "a") ∷ proxy (codes "b") ∷ []) ∷ (proxy (codes "b") ∷ proxy (codes "c") ∷ []) ∷ []

abbrev selector : Selector
selector = record { providers = providers; current_selected_index = 0 }

abbrev on_c : Selector
on_c = record { providers = providers; current_selected_index = 2 }

abbrev three : List Proxy
three = proxy (codes "a") ∷ proxy (codes "b") ∷ proxy (codes "c") ∷ []

once_each : get_proxies_from_providers providers ≡ three
unfolding get_proxies_from_providers collect retain
once_each = refl

picked : select selector (codes "c") ≡ some on_c
unfolding select get_proxies_from_providers collect retain
picked = refl

abbrev registry : Map ProxyState
registry = tested [] (codes "a") 5 none

registry-IsBounded : IsBounded []
unfolding delay_history Map.get
registry-IsBounded = record { at_most_ten = λ name. omega arith }

get_proxies_from_providers-distinct_example :
    (distinct (get_proxies_from_providers providers) ≡ true)
    × (has_name (codes "c") (get_proxies_from_providers providers)
        ≡ has_name (codes "c") (all_proxies providers))
get_proxies_from_providers-distinct_example =
    get_proxies_from_providers-distinct providers (codes "c")

abbrev measured : Map ProxyState
measured = tested (tested [] (codes "a") 5 (some 30)) (codes "c") 6 (some 10)

abbrev search_end : Search
search_end = record {
  fastest = proxy (codes "c");
  fastest_delay = 10;
  fast_not_exist = true;
  fastest_proxy_index = 2;
}

searched : fastest measured 0 0 providers ≡ some search_end
unfolding fastest fastest_from search_from fastest_loop fastest_step get_proxies_from_providers
    collect retain tested last_delay ProxyManager.alive report_alive delay_history Map.get
    Map.insert
searched = refl

fastest-IsFastest_example : IsFastest measured (get_proxies_from_providers providers) search_end
fastest-IsFastest_example = fastest-IsFastest measured 0 0 providers searched
