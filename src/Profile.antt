-- ===== src/Profile.antt =====
-- clash-lib/src/app/profile/mod.rs: the cache file, which keeps the selected proxies, the fake IP
-- addresses and the countries of domains.
--
-- The reader-writer lock makes each call atomic, so a call is a function on the database. Reading
-- and writing the YAML file is not modelled; the statistics of the smart group are an abstract type.
use clash_rs.Prelude.{ℕ, Bool, Option, none, [], or_else, if◌then◌else◌}
use clash_rs.Prelude.Text.{Text}
use clash_rs.Prelude.Map
use clash_rs.Prelude.Map.{Map}

pub record GeoIpCacheEntry : Type 0 where
  pub code : Text
  pub expires_at : ℕ

pub record Db (Stats : Type 0) : Type 0 where
  pub selected : Map Text
  pub ip_to_host : Map Text
  pub host_to_ip : Map Text
  pub smart_stats : Map Stats
  pub smart_policy_priority : Map Text
  pub domain_geoip : Map GeoIpCacheEntry

pub record CacheFile (Stats : Type 0) : Type 0 where
  pub db : Db Stats
  pub store_selected : Bool

module _ {Stats : Type 0} where
  abbrev pub empty_db : Db Stats
  empty_db = record {
    selected = [];
    ip_to_host = [];
    host_to_ip = [];
    smart_stats = [];
    smart_policy_priority = [];
    domain_geoip = [];
  }

  unfoldable pub set_selected : CacheFile Stats → Text → Text → CacheFile Stats
  set_selected f group server =
      if f.store_selected
      then record f { db = record f.db { selected = Map.insert f.db.selected group server } }
      else f

  unfoldable pub get_selected : CacheFile Stats → Text → Option Text
  get_selected f group = if f.store_selected then Map.get f.db.selected group else none

  unfoldable pub set_ip_to_host : CacheFile Stats → Text → Text → CacheFile Stats
  set_ip_to_host f ip host = record f {
    db = record f.db { ip_to_host = Map.insert f.db.ip_to_host ip host };
  }

  unfoldable pub set_host_to_ip : CacheFile Stats → Text → Text → CacheFile Stats
  set_host_to_ip f host ip = record f {
    db = record f.db { host_to_ip = Map.insert f.db.host_to_ip host ip };
  }

  unfoldable pub get_fake_ip : CacheFile Stats → Text → Option Text
  get_fake_ip f ip_or_host =
      or_else (Map.get f.db.ip_to_host ip_or_host) (Map.get f.db.host_to_ip ip_or_host)

  unfoldable pub delete_fake_ip_pair : CacheFile Stats → Text → Text → CacheFile Stats
  delete_fake_ip_pair f ip host = record f {
    db = record f.db {
      ip_to_host = Map.remove f.db.ip_to_host ip;
      host_to_ip = Map.remove f.db.host_to_ip host;
    };
  }

  unfoldable pub set_smart_stats : CacheFile Stats → Text → Stats → CacheFile Stats
  set_smart_stats f group stats = record f {
    db = record f.db { smart_stats = Map.insert f.db.smart_stats group stats };
  }

  unfoldable pub get_smart_stats : CacheFile Stats → Text → Option Stats
  get_smart_stats f group = Map.get f.db.smart_stats group

  unfoldable pub get_domain_geoip : CacheFile Stats → Text → Option GeoIpCacheEntry
  get_domain_geoip f domain = if f.store_selected then Map.get f.db.domain_geoip domain else none

  unfoldable pub set_domain_geoip : CacheFile Stats → Text → GeoIpCacheEntry → CacheFile Stats
  set_domain_geoip f domain entry =
      if f.store_selected
      then record f {
        db = record f.db { domain_geoip = Map.insert f.db.domain_geoip domain entry };
      }
      else f
