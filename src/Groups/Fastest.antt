-- ===== src/Groups/Fastest.antt =====
-- clash-lib/src/proxy/group/urltest/mod.rs: the fastest proxy of a group.
--
-- `none` stands for the panic of an empty list and of an index out of range, which the source meets
-- only with 65536 proxies or more. The sum of a delay and the tolerance is not bounded here.
pub mod Minimum
use clash_rs.Prelude.{
  ap, ◌∙◌, ◌⊎◌, subst, ◌≤◌, leb, ◌&&◌, ◌≡◌, refl, ℕ, ◌+◌, ◌-◌, ◌*◌, ◌%◌, ◌^◌, min, ltb, Bool, true,
  false, ◌||◌, Bool-cases, Option-cases, inl, inr, Option, none, some, unwrap_or, List, [], ◌∷◌,
  if◌then◌else◌, length, get_elem?, arith,
}
use clash_rs.Prelude.Text.{text_eq_refl, Text, text_eq}
use clash_rs.Prelude.Map.{Map}
use clash_rs.ProxyManager.{ProxyState, alive, last_delay}
use clash_rs.Groups.{has_name, Proxy, position, get_proxies_from_providers}

-- `Duration::from_secs(u64::MAX)`
abbrev pub max_delay : ℕ
max_delay = (2 ^ 64 - 1) * 1000000000

-- The loop's variables, with the index that the handler keeps.
pub record Search : Type 0 where
  pub fastest : Proxy
  pub fastest_delay : ℕ
  pub fast_not_exist : Bool
  pub fastest_proxy_index : ℕ

module _ (m : Map ProxyState) (tolerance : ℕ) (proxies : List Proxy) (current : Text) where
  abbrev pub faster : Proxy → Option ℕ → Search → Search
  faster p none st = st
  faster p (some d) st =
      if ltb d st.fastest_delay then record st { fastest = p; fastest_delay = d } else st

  abbrev pub slower_than : ℕ → Option ℕ → Bool
  slower_than d none = false
  slower_than d (some e) = ltb d e

  abbrev pub store_index : Search → Search
  store_index st =
      if st.fast_not_exist
        || (alive m st.fastest.name
            || slower_than (st.fastest_delay + tolerance * 1000000) (last_delay m current))
      then record st {
        fastest_proxy_index = unwrap_or 0 (position st.fastest.name proxies) % 2 ^ 16;
      }
      else st

  abbrev pub seen : Proxy → Search → Search
  seen p st = record st {
    fast_not_exist = if text_eq p.name current then false else st.fast_not_exist;
  }

  unfoldable pub fastest_step : Proxy → Search → Search
  fastest_step p st =
      if alive m p.name then store_index (faster p (last_delay m p.name) (seen p st)) else seen p st

  unfoldable pub fastest_loop : List Proxy → Search → Search
  unfolding fastest_step
  fastest_loop [] st = st
  fastest_loop (p ∷ ps) st = fastest_loop ps (fastest_step p st)

abbrev pub first_search : Map ProxyState → ℕ → Proxy → Search
first_search m index p = record {
  fastest = p;
  fastest_delay = unwrap_or max_delay (last_delay m p.name);
  fast_not_exist = true;
  fastest_proxy_index = index;
}

-- The search with the proxy at the handler's index, which is cut to the last one.
unfoldable pub search_from :
    Map ProxyState → ℕ → ℕ → Proxy → List Proxy → Option Proxy → Option Search
unfolding fastest_loop
search_from m tolerance index p ps none = none
search_from m tolerance index p ps (some current) =
    some (fastest_loop m tolerance (p ∷ ps) current.name ps (first_search m index p))

unfoldable pub fastest_from : Map ProxyState → ℕ → ℕ → List Proxy → Option Search
unfolding search_from
fastest_from m tolerance index [] = none
fastest_from m tolerance index (p ∷ ps) =
    search_from m tolerance index p ps
      (get_elem? (p ∷ ps) (min index ((length (p ∷ ps) + 2 ^ 16 - 1) % 2 ^ 16)))

-- The handler's new index is in the result.
unfoldable pub fastest : Map ProxyState → ℕ → ℕ → List (List Proxy) → Option Search
unfolding fastest_from
fastest m tolerance index providers =
    fastest_from m tolerance index (get_proxies_from_providers providers)
