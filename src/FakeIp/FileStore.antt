-- ===== src/FakeIp/FileStore.antt =====
-- clash-lib/src/app/dns/fakeip/file_store.rs: the store that keeps its pairs in the cache file.
--
-- `print_ip` and `parse_ip` are `IpAddr::to_string` and `str::parse::<IpAddr>`.
use clash_rs.Prelude.{
  Bool, true, Option, none, some, is_some, unwrap_or, if◌then◌else◌, [], ◌≡◌, refl, sym, ap, ◌∙◌,
  ◌≢◌, ◌⊎◌, inl, inr, Bool-cases, arith,
}
use clash_rs.Prelude.Text.{Text, text_eq, text_eq_iff}
use clash_rs.Prelude.Map
use clash_rs.Prelude.Map.{get-insert, get-remove}
use clash_rs.Profile.{CacheFile, get_fake_ip, set_host_to_ip, set_ip_to_host, delete_fake_ip_pair}
use clash_rs.Session.{IpAddr}
use clash_rs.FakeIp.{Store}
use clash_rs.FakeIp.Laws.{View, Same, IsLawful, ip_eq, ip_eq_iff}

abbrev pub and_then : {A B : Type 0} → Option A → (A → Option B) → Option B
and_then none f = none
and_then (some a) f = f a

-- Two addresses have the same text only if they are equal.
text_eq-print_ip :
    (print_ip : IpAddr → Text) (parse_ip : Text → Option IpAddr)
    → ((ip : IpAddr) → parse_ip (print_ip ip) ≡ some ip)
    → (a b : IpAddr) → text_eq (print_ip a) (print_ip b) ≡ ip_eq a b
text_eq-print_ip print_ip parse_ip parse-print a b = elim (Bool-cases (ip_eq a b)) [
  | inl e ↦ rw e (ground (arith, ip_eq_iff a b, text_eq_iff (print_ip a) (print_ip b)))
  | inr e ↦ rw e (
      ground
        (arith, ip_eq_iff a b, text_eq_iff (print_ip a) (print_ip b), parse-print a, parse-print b))
]

module _ {Stats : Type 0} (print_ip : IpAddr → Text) (parse_ip : Text → Option IpAddr) where
  unfoldable pub get_by_host : CacheFile Stats → Text → Option IpAddr
  get_by_host f host = and_then (get_fake_ip f host) parse_ip

  unfoldable pub pub_by_host : CacheFile Stats → Text → IpAddr → CacheFile Stats
  pub_by_host f host ip = set_host_to_ip f host (print_ip ip)

  unfoldable pub get_by_ip : CacheFile Stats → IpAddr → Option Text
  get_by_ip f ip = get_fake_ip f (print_ip ip)

  unfoldable pub put_by_ip : CacheFile Stats → IpAddr → Text → CacheFile Stats
  put_by_ip f ip host = set_ip_to_host f (print_ip ip) host

  unfoldable pub del_by_ip : CacheFile Stats → IpAddr → CacheFile Stats
  unfolding get_by_ip
  del_by_ip f ip =
      let host = unwrap_or [] (get_by_ip f ip) in delete_fake_ip_pair f (print_ip ip) host

  unfoldable pub exist : CacheFile Stats → IpAddr → Bool
  exist f ip = is_some (get_fake_ip f (print_ip ip))

  -- The methods that only read leave the cache file as it is.
  abbrev pub file_store : Store (CacheFile Stats)
  file_store = record {
    get_by_host = λ f host. (get_by_host f host, f);
    pub_by_host = pub_by_host;
    get_by_ip = λ f ip. (get_by_ip f ip, f);
    put_by_ip = put_by_ip;
    del_by_ip = del_by_ip;
    exist = λ f ip. (exist f ip, f);
  }

  -- The two maps do not share keys: the keys of one are addresses, those of the other are not.
  pub record IsApart (f : CacheFile Stats) : Type 0 where
    pub no_hosts : (ip : IpAddr) → Map.get f.db.host_to_ip (print_ip ip) ≡ none
    pub no_ips : (h : Text) → parse_ip h ≡ none → Map.get f.db.ip_to_host h ≡ none

  abbrev pub file_view : View (CacheFile Stats)
  file_view = record {
    host_view = λ f h. and_then (Map.get f.db.host_to_ip h) parse_ip;
    ip_view = λ f ip. Map.get f.db.ip_to_host (print_ip ip);
    IsStored = IsApart;
    IsHost = λ h. parse_ip h ≡ none;
  }

  module _ (parse-print : (ip : IpAddr) → parse_ip (print_ip ip) ≡ some ip) where
    Same-refl : (f : CacheFile Stats) → IsApart f → Same file_view f f
    Same-refl f s = record { stored = s; hosts = λ h. refl; ips = λ ip. refl }

    pub_stored :
        (f : CacheFile Stats) (h : Text) (ip : IpAddr)
        → IsApart f
        → parse_ip h ≡ none
        → IsApart (pub_by_host f h ip)
    unfolding pub_by_host set_host_to_ip
    pub_stored f h ip s host = record {
      no_hosts = λ a. ground (
        arith,
        get-insert f.db.host_to_ip h (print_ip ip) (print_ip a),
        text_eq_iff h (print_ip a),
        parse-print a,
        s.no_hosts a,
      );
      no_ips = s.no_ips;
    }

    put_stored :
        (f : CacheFile Stats) (ip : IpAddr) (h : Text) → IsApart f → IsApart (put_by_ip f ip h)
    unfolding put_by_ip set_ip_to_host
    put_stored f ip h s = record {
      no_hosts = s.no_hosts;
      no_ips = λ g host. ground (
        arith,
        get-insert f.db.ip_to_host (print_ip ip) h g,
        text_eq_iff (print_ip ip) g,
        parse-print ip,
        s.no_ips g,
      );
    }

    module _ (f : CacheFile Stats) (ip : IpAddr) (s : IsApart f) where
      get_by_ip_view : get_by_ip f ip ≡ Map.get f.db.ip_to_host (print_ip ip)
      unfolding get_by_ip get_fake_ip
      get_by_ip_view = ground (arith, s.no_hosts ip)

      del_stored : IsApart (del_by_ip f ip)
      unfolding del_by_ip delete_fake_ip_pair
      del_stored = record {
        no_hosts = λ a. ground (
          arith,
          get-remove f.db.host_to_ip (unwrap_or [] (get_by_ip f ip)) (print_ip a),
          s.no_hosts a,
        );
        no_ips = λ g host. ground (arith, get-remove f.db.ip_to_host (print_ip ip) g, s.no_ips g);
      }

      del_ip :
          (j : IpAddr)
          → Map.get (del_by_ip f ip).db.ip_to_host (print_ip j)
            ≡ (if ip_eq ip j then none else Map.get f.db.ip_to_host (print_ip j))
      unfolding del_by_ip delete_fake_ip_pair
      del_ip j = ground (
        arith,
        get-remove f.db.ip_to_host (print_ip ip) (print_ip j),
        text_eq-print_ip print_ip parse_ip parse-print ip j,
      )

      of_host :
          (o : Option Text) (g : Text)
          → o ≡ Map.get f.db.ip_to_host (print_ip ip)
          → text_eq (unwrap_or [] o) g ≡ true
          → (g ≡ []) ⊎ (Map.get f.db.ip_to_host (print_ip ip) ≡ some g)
      of_host none g same e = inl (sym ((text_eq_iff [] g).0 e))
      of_host (some h) g same e = inr (sym same ∙ ap some ((text_eq_iff h g).0 e))

      del_host :
          (g : Text)
          → ((and_then (Map.get (del_by_ip f ip).db.host_to_ip g) parse_ip ≡ none)
              × ((g ≡ []) ⊎ (Map.get f.db.ip_to_host (print_ip ip) ≡ some g)))
            ⊎ ((and_then (Map.get (del_by_ip f ip).db.host_to_ip g) parse_ip
                  ≡ and_then (Map.get f.db.host_to_ip g) parse_ip)
                × (Map.get f.db.ip_to_host (print_ip ip) ≢ some g))
      unfolding del_by_ip delete_fake_ip_pair
      del_host g =
          let host = unwrap_or [] (get_by_ip f ip) in
          let got = get-remove f.db.host_to_ip host g in
          elim (Bool-cases (text_eq host g)) [
            | inl e ↦ inl (ground (arith, got), of_host (get_by_ip f ip) g get_by_ip_view e)
            | inr e ↦
                inr ((ground (arith, got)), ground (arith, got, get_by_ip_view, text_eq_iff host g))
          ]

    -- The file store is lawful over every cache file whose two maps are apart, for host names that
    -- are not addresses.
    pub file_store-IsLawful : IsLawful file_view file_store
    unfolding get_by_host pub_by_host put_by_ip exist get_fake_ip set_host_to_ip set_ip_to_host
    file_store-IsLawful = record {
      get_host = λ f h s host. ground (arith, s.no_ips h host);
      get_host_same = λ f h s. Same-refl f s;
      get_ip = λ f ip s. get_by_ip_view f ip s;
      get_ip_same = λ f ip s. Same-refl f s;
      exist_ip = λ f ip s. ground (arith, s.no_hosts ip);
      exist_same = λ f ip s. Same-refl f s;
      pub_stored = pub_stored;
      pub_host = λ f h ip g s.
          ground (arith, get-insert f.db.host_to_ip h (print_ip ip) g, parse-print ip);
      pub_ip = λ f h ip j s. refl;
      put_stored = put_stored;
      put_host = λ f ip h g s. refl;
      put_ip = λ f ip h j s. ground (
        arith,
        get-insert f.db.ip_to_host (print_ip ip) h (print_ip j),
        text_eq-print_ip print_ip parse_ip parse-print ip j,
      );
      del_stored = del_stored;
      del_ip = λ f ip j s. del_ip f ip s j;
      del_host = λ f ip g s. del_host f ip s g;
    }
