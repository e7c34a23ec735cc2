-- ===== src/FakeIp/Laws.antt =====
-- What the pool asks of a store: two views, and how each method of the trait `Store` changes them.
-- A store that drops entries by itself is not one of these.
use clash_rs.Prelude.{
  Bool, true, false, [], Option, none, some, is_some, if◌then◌else◌, ◌==◌, ◌≡◌, ◌↔◌, ◌⊎◌, ◌≢◌,
  arith,
}
use clash_rs.Prelude.Text.{Text, text_eq}
use clash_rs.Session.{IpAddr, v4, v6}
use clash_rs.FakeIp.{Store}

abbrev pub ip_eq : IpAddr → IpAddr → Bool
ip_eq (v4 a) (v4 b) = a == b
ip_eq (v4 a) (v6 b) = false
ip_eq (v6 a) (v4 b) = false
ip_eq (v6 a) (v6 b) = a == b

pub ip_eq_iff : (a b : IpAddr) → (ip_eq a b ≡ true) ↔ (a ≡ b)
ip_eq_iff (v4 a) (v4 b) = ground arith
ip_eq_iff (v4 a) (v6 b) = ground arith
ip_eq_iff (v6 a) (v4 b) = ground arith
ip_eq_iff (v6 a) (v6 b) = ground arith

-- The two maps that a store stands for, the states that it reaches, and the names that it takes for
-- host names.
pub record View (S : Type 0) : Type 1 where
  pub host_view : S → Text → Option IpAddr
  pub ip_view : S → IpAddr → Option Text
  pub IsStored : S → Type 0
  pub IsHost : Text → Type 0

module _ {S : Type 0} (w : View S) where
  open w use {host_view, ip_view, IsStored, IsHost}

  -- The two states stand for the same maps.
  pub record Same (s t : S) : Type 0 where
    pub stored : IsStored t
    pub hosts : (h : Text) → host_view t h ≡ host_view s h
    pub ips : (ip : IpAddr) → ip_view t ip ≡ ip_view s ip

  pub record IsLawful (st : Store S) : Type 0 where
    pub get_host :
        (s : S) (h : Text) → IsStored s → IsHost h → (st.get_by_host s h).0 ≡ host_view s h
    pub get_host_same : (s : S) (h : Text) → IsStored s → Same s (st.get_by_host s h).1
    pub get_ip : (s : S) (ip : IpAddr) → IsStored s → (st.get_by_ip s ip).0 ≡ ip_view s ip
    pub get_ip_same : (s : S) (ip : IpAddr) → IsStored s → Same s (st.get_by_ip s ip).1
    pub exist_ip : (s : S) (ip : IpAddr) → IsStored s → (st.exist s ip).0 ≡ is_some (ip_view s ip)
    pub exist_same : (s : S) (ip : IpAddr) → IsStored s → Same s (st.exist s ip).1
    pub pub_stored :
        (s : S) (h : Text) (ip : IpAddr) → IsStored s → IsHost h → IsStored (st.pub_by_host s h ip)
    pub pub_host :
        (s : S) (h : Text) (ip : IpAddr) (g : Text)
        → IsStored s
        → host_view (st.pub_by_host s h ip) g ≡ (if text_eq h g then some ip else host_view s g)
    pub pub_ip :
        (s : S) (h : Text) (ip j : IpAddr)
        → IsStored s
        → ip_view (st.pub_by_host s h ip) j ≡ ip_view s j
    pub put_stored : (s : S) (ip : IpAddr) (h : Text) → IsStored s → IsStored (st.put_by_ip s ip h)
    pub put_host :
        (s : S) (ip : IpAddr) (h g : Text)
        → IsStored s
        → host_view (st.put_by_ip s ip h) g ≡ host_view s g
    pub put_ip :
        (s : S) (ip : IpAddr) (h : Text) (j : IpAddr)
        → IsStored s
        → ip_view (st.put_by_ip s ip h) j ≡ (if ip_eq ip j then some h else ip_view s j)
    pub del_stored : (s : S) (ip : IpAddr) → IsStored s → IsStored (st.del_by_ip s ip)
    pub del_ip :
        (s : S) (ip j : IpAddr)
        → IsStored s
        → ip_view (st.del_by_ip s ip) j ≡ (if ip_eq ip j then none else ip_view s j)
    -- The host of the address is forgotten, and no other but perhaps the empty name.
    pub del_host :
        (s : S) (ip : IpAddr) (g : Text)
        → IsStored s
        → ((host_view (st.del_by_ip s ip) g ≡ none) × ((g ≡ []) ⊎ (ip_view s ip ≡ some g)))
          ⊎ ((host_view (st.del_by_ip s ip) g ≡ host_view s g) × (ip_view s ip ≢ some g))
