-- ===== src/FakeIp/Pool.antt =====
-- The pool over a lawful store: a lookup returns an address that no other host has, and that leads
-- back to the host.
use clash_rs.Prelude.{
  zero, suc, [], refl, ◌==◌, ◌^◌, ◌+◌, Bool-cases, Option-cases, ◌≤◌, ◌<◌, ◌≡◌, ◌⊎◌, inl, inr, ◌∙◌,
  sym, none, some, if◌then◌else◌, arith,
}
use clash_rs.Prelude.Text.{Text, text_eq, text_eq_iff}
use clash_rs.Session.{IpAddr}
use clash_rs.FakeIp.{
  v4, u32_add, suc, true, ok, is_ipv4, get, ℕ, reverse_lookup, lookup, false, get_loop, Store,
  FakeDns, range, advance, ip_at,
}
use clash_rs.FakeIp.Loop.{advance_offset, ahead_step, ahead, advance-lt}
use clash_rs.FakeIp.Laws.{View, Same, IsLawful, ip_eq, ip_eq_iff}

module _ {S : Type 0} (st : Store S) (w : View S) (lawful : IsLawful w st) where
  open w use {host_view, ip_view, IsStored, IsHost}

  -- Every address that a host has leads back to that host.
  pub record IsValid (d : FakeDns S) : Type 0 where
    pub in_range : d.offset < range d
    pub stored : IsStored d.store
    pub back :
        (h : Text) (ip : IpAddr) → host_view d.store h ≡ some ip → ip_view d.store ip ≡ some h

  -- In a valid pool two hosts never have the same address.
  pub IsValid-unique :
      {d : FakeDns S} (g h : Text) {ip : IpAddr}
      → IsValid d
      → host_view d.store g ≡ some ip
      → host_view d.store h ≡ some ip
      → g ≡ h
  IsValid-unique g h {ip} v eg eh = some-eq (sym (v.back g ip eg) ∙ v.back h ip eh)
    where
      some-eq : {a b : Text} → some a ≡ some b → a ≡ b
      some-eq e = cc

  -- What `d'` has of the address of a host: it is kept, or it is gone, and then `a` led to the host in
  -- `d`, or the host is the empty name.
  abbrev pub KeptBut : FakeDns S → IpAddr → FakeDns S → Text → Type 0
  KeptBut d a d' h =
      (host_view d'.store h ≡ host_view d.store h)
      ⊎ ((host_view d'.store h ≡ none) × ((h ≡ []) ⊎ (ip_view d.store a ≡ some h)))

  -- What the loop has done: the address at the new offset is free, no host has a new address, and only
  -- the host of that address has lost it.
  pub record Freed (d d' : FakeDns S) : Type 0 where
    pub valid : IsValid d'
    pub free : ip_view d'.store (ip_at d') ≡ none
    pub kept : (h : Text) → KeptBut d (ip_at d') d' h

  -- Reading leaves a valid pool valid.
  IsValid-Same :
      (d : FakeDns S) (s : S) → IsValid d → Same w d.store s → IsValid (record d { store = s })
  IsValid-Same d s v same = record {
    in_range = v.in_range;
    stored = same.stored;
    back = λ h ip e. same.ips ip ∙ v.back h ip (sym (same.hosts h) ∙ e);
  }

  IsValid-advance : (d : FakeDns S) → IsValid d → IsValid (advance d)
  IsValid-advance d v = record {
    in_range = advance-lt d v.in_range;
    stored = v.stored;
    back = v.back;
  }

  module _ (d : FakeDns S) (a : IpAddr) (v : IsValid d) where
    del_back :
        (h : Text) (ip : IpAddr)
        → host_view (st.del_by_ip d.store a) h ≡ some ip
        → ip_view (st.del_by_ip d.store a) ip ≡ some h
    del_back h ip e = elim (lawful.del_host d.store a h v.stored) [
      | inl (gone, why) ↦ cc
      | inr (same, other) ↦
          ground
            (arith, lawful.del_ip d.store a ip v.stored, ip_eq_iff a ip, v.back h ip (sym same ∙ e))
    ]

    -- Deleting an address leaves a valid pool valid.
    del-IsValid : IsValid (record d { store = st.del_by_ip d.store a })
    del-IsValid = record {
      in_range = v.in_range;
      stored = lawful.del_stored d.store a v.stored;
      back = del_back;
    }

    del_free : ip_view (st.del_by_ip d.store a) a ≡ none
    del_free = ground (arith, lawful.del_ip d.store a a v.stored, ip_eq_iff a a)

    del_kept : (h : Text) → KeptBut d a (record d { store = st.del_by_ip d.store a }) h
    del_kept h = elim (lawful.del_host d.store a h v.stored) [
      | inl gone ↦ inr gone
      | inr (same, other) ↦ inl same
    ]

    -- The store of a pool whose free address `a` is given to `host`.
    claimed : Text → S
    claimed host = st.pub_by_host (st.put_by_ip d.store a host) host a

    module _ (host : Text) (is_host : IsHost host) (free : ip_view d.store a ≡ none) where
      put_stored : IsStored (st.put_by_ip d.store a host)
      put_stored = lawful.put_stored d.store a host v.stored

      claimed_hosts :
          (h : Text)
          → host_view (claimed host) h ≡ (if text_eq host h then some a else host_view d.store h)
      unfolding claimed
      claimed_hosts h = ground (
        arith,
        lawful.pub_host (st.put_by_ip d.store a host) host a h put_stored,
        lawful.put_host d.store a host h v.stored,
      )

      claimed_ips :
          (ip : IpAddr)
          → ip_view (claimed host) ip ≡ (if ip_eq a ip then some host else ip_view d.store ip)
      unfolding claimed
      claimed_ips ip =
          lawful.pub_ip (st.put_by_ip d.store a host) host a ip put_stored
          ∙ lawful.put_ip d.store a host ip v.stored

      claimed_back :
          (h : Text) (ip : IpAddr)
          → host_view (claimed host) h ≡ some ip
          → ip_view (claimed host) ip ≡ some h
      claimed_back h ip e =
          ground (
            arith,
            claimed_hosts h,
            claimed_ips ip,
            ip_eq_iff a ip,
            text_eq_iff host h,
            v.back h ip,
          )

      claimed-IsValid : IsValid (record d { store = claimed host })
      unfolding claimed
      claimed-IsValid = record {
        in_range = v.in_range;
        stored = lawful.pub_stored (st.put_by_ip d.store a host) host a put_stored is_host;
        back = claimed_back;
      }

  Freed-after :
      (d e d' : FakeDns S)
      → ((h : Text) → host_view e.store h ≡ host_view d.store h)
      → ((a : IpAddr) → ip_view e.store a ≡ ip_view d.store a)
      → Freed e d'
      → Freed d d'
  Freed-after d e d' same same_ips f = record {
    valid = f.valid;
    free = f.free;
    kept = λ h. elim (f.kept h) [
      | inl k ↦ inl (k ∙ same h)
      | inr (gone, inl empty) ↦ inr (gone, inl empty)
      | inr (gone, inr led) ↦ inr (gone, inr (sym (same_ips (ip_at d')) ∙ led))
    ];
  }

  get_loop_frees :
      (fuel current : ℕ) (d : FakeDns S)
      → IsValid d
      → current < range d
      → ahead (range d) current d.offset ≤ fuel
      → (d' : FakeDns S) × (get_loop st fuel current d ≡ ok d') × Freed d d'
  unfolding get_loop
  get_loop_frees zero current d v k m = absurd (ground (arith, v.in_range))
  get_loop_frees (suc fuel) current d v k m =
      let next = advance d in
      let vn = IsValid-advance d v in
      let (used, store) = st.exist next.store (ip_at next) in
      let same = lawful.exist_same next.store (ip_at next) v.stored in
      let vs = IsValid-Same next store vn same in
      let last = advance next in
      let vl = IsValid-advance next vn in
      let rest = get_loop_frees fuel current (record next { store = store }) vs k in
      elim (Bool-cases (next.offset == current)) [
        | inl e ↦ (
          record last { store = st.del_by_ip last.store (ip_at last) },
          ground arith,
          record {
            valid = del-IsValid last (ip_at last) vl;
            free = del_free last (ip_at last) vl;
            kept = del_kept last (ip_at last) vl;
          },
        )
        | inr e ↦ elim (Bool-cases used) [
          | inl u ↦
              let (d', r, f) = rest (
                ground (
                  arith,
                  ahead_step (range d) current d.offset v.in_range k,
                  advance_offset d v.in_range,
                )) in
              (
                d',
                ground arith,
                Freed-after d (record next { store = store }) d' same.hosts same.ips f,
              )
          | inr u ↦ (
            record next { store = store },
            ground arith,
            record {
              valid = vs;
              free =
                  ground (
                    arith,
                    same.ips (ip_at next),
                    lawful.exist_ip next.store (ip_at next) v.stored,
                  );
              kept = λ h. inl (same.hosts h);
            },
          )
        ]
      ]

  -- What a lookup of `host` has done to the pool `d`.
  pub record LookedUp (d : FakeDns S) (host : Text) (ip : IpAddr) (d' : FakeDns S) : Type 0 where
    pub valid : IsValid d'
    pub assigned : host_view d'.store host ≡ some ip
    pub kept : (h : Text) → text_eq host h ≡ false → KeptBut d ip d' h

  -- For a valid pool and a host name that is one, `lookup` returns an address, with as much fuel as
  -- there are addresses; the pool stays valid, the host has the address, and every other host keeps
  -- its address, but for the one that the returned address led back to, and perhaps the empty name,
  -- which may have lost theirs.
  pub lookup-LookedUp :
      (d : FakeDns S) (host : Text)
      → IsValid d
      → IsHost host
      → (ip : IpAddr) × (d' : FakeDns S) × (lookup st (range d) d host ≡ ok (ip, d'))
        × LookedUp d host ip d'
  unfolding lookup get claimed
  lookup-LookedUp d host v is_host =
      let (found, store) = st.get_by_host d.store host in
      let same = lawful.get_host_same d.store host v.stored in
      let vs = IsValid-Same d store v same in
      let known = lawful.get_host d.store host v.stored is_host in
      elim (Option-cases found) [
        | inl e ↦
            let (d', r, f) =
              get_loop_frees (range d) d.offset (record d { store = store }) vs v.in_range
                (ground (arith, v.in_range)) in
            let hosts = claimed_hosts d' (ip_at d') f.valid host is_host f.free in
            (
              ip_at d',
              record d' { store = claimed d' (ip_at d') f.valid host },
              ground arith,
              record {
                valid = claimed-IsValid d' (ip_at d') f.valid host is_host f.free;
                assigned = ground (arith, hosts host, text_eq_iff host host);
                kept = λ h ne.
                    let claims : host_view (claimed d' (ip_at d') f.valid host) h
                        ≡ host_view d'.store h =
                      hosts h ∙ rw ne refl in
                    elim (f.kept h) [
                      | inl k ↦ inl (claims ∙ k ∙ same.hosts h)
                      | inr (gone, inl empty) ↦ inr (claims ∙ gone, inl empty)
                      | inr (gone, inr led) ↦
                          inr (claims ∙ gone, inr (sym (same.ips (ip_at d')) ∙ led))
                    ];
              },
            )
        | inr (ip, e) ↦ (
          ip,
          record d { store = store },
          ground arith,
          record {
            valid = vs;
            assigned = same.hosts host ∙ sym known ∙ e;
            kept = λ h ne. inl (same.hosts h);
          },
        )
      ]

  -- A host that has an address gets the same address again, and no host's address changes.
  pub lookup_known :
      (fuel : ℕ) (d : FakeDns S) (host : Text) {ip : IpAddr}
      → IsValid d
      → IsHost host
      → host_view d.store host ≡ some ip
      → (d' : FakeDns S) × (lookup st fuel d host ≡ ok (ip, d'))
        × ((h : Text) → host_view d'.store h ≡ host_view d.store h)
  unfolding lookup
  lookup_known fuel d host v is_host e = (
    record d { store = (st.get_by_host d.store host).1 },
    ground (arith, lawful.get_host d.store host v.stored is_host),
    (lawful.get_host_same d.store host v.stored).hosts,
  )

  -- In a valid pool the reverse lookup of a host's IPv4 address is the host.
  pub reverse_lookup_host :
      (d : FakeDns S) (host : Text) (ip : IpAddr)
      → IsValid d
      → is_ipv4 ip ≡ true
      → host_view d.store host ≡ some ip
      → (reverse_lookup st d ip).0 ≡ some host
  unfolding reverse_lookup
  reverse_lookup_host d host ip v four e =
      ground (arith, lawful.get_ip d.store ip v.stored, v.back host ip e)

  gateway_at :
      (d next : FakeDns S)
      → next.offset ≡ 0
      → d.gateway < 2 ^ 32
      → d.min ≡ u32_add d.gateway 1
      → next.min ≡ d.min
      → ip_at next ≡ v4 d.gateway
  gateway_at d next z small below same_min = ground arith

  -- In a valid pool of at least two addresses, when the offset is the last one, the gateway address
  -- before the first one is free and the host has no address, the lookup gives out the gateway
  -- address.
  pub lookup_gateway :
      (fuel : ℕ) (d : FakeDns S) (host : Text)
      → IsValid d
      → IsHost host
      → host_view d.store host ≡ none
      → 1 < range d
      → d.offset + 1 ≡ range d
      → d.gateway < 2 ^ 32
      → d.min ≡ u32_add d.gateway 1
      → ip_view d.store (v4 d.gateway) ≡ none
      → (d' : FakeDns S) × (lookup st (suc fuel) d host ≡ ok (v4 d.gateway, d'))
  unfolding lookup get get_loop
  lookup_gateway fuel d host v is_host unknown wide last small below free =
      let (found, s) = st.get_by_host d.store host in
      let same = lawful.get_host_same d.store host v.stored in
      let next = advance (record d { store = s }) in
      let (used, t) = st.exist s (ip_at next) in
      let zero_next : next.offset ≡ 0 = ground (arith, advance_offset d v.in_range) in
      let addr : ip_at next ≡ v4 d.gateway = gateway_at d next zero_next small below refl in
      let unused : used ≡ false =
        ground (arith, addr, lawful.exist_ip s (ip_at next) same.stored, same.ips (v4 d.gateway)) in
      (
        record next { store = st.pub_by_host (st.put_by_ip t (ip_at next) host) host (ip_at next) },
        ground (arith, zero_next, addr, unused, lawful.get_host d.store host v.stored is_host),
      )
