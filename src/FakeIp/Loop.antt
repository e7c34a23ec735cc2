-- ===== src/FakeIp/Loop.antt =====
-- The loop of `get` ends: it comes back to the offset at which it began.
use native.Mathlib.Nat.{mod_self}
use clash_rs.Prelude.{
  ℕ, zero, suc, ◌+◌, ◌-◌, ◌%◌, ◌^◌, ◌≤◌, ◌<◌, ◌≡◌, ltb, ◌==◌, if◌then◌else◌, arith, true, false,
  Bool-cases, inl, inr, Option-cases,
}
use clash_rs.Prelude.Outcome.{ok}
use clash_rs.Prelude.Text.{Text}
use clash_rs.Session.{IpAddr}
use clash_rs.FakeIp.{Store, FakeDns, u32_add, range, advance, ip_at, get_loop, get, lookup}

-- The offset after `o`, without the remainder.
abbrev pub offset_after : ℕ → ℕ → ℕ
offset_after n o = if o + 1 == n then 0 else o + 1

last_offset : (n o : ℕ) → n < 2 ^ 32 → (o + 1 == n) ≡ true → u32_add o 1 ≡ n
last_offset n o k e = ground arith

pub offset_after_lem : (n o : ℕ) → o < n → n < 2 ^ 32 → u32_add o 1 % n ≡ offset_after n o
offset_after_lem n o h k = elim (Bool-cases (o + 1 == n)) [
  | inl e ↦ rw e (rw (last_offset n o k e, mod_self))
  | inr e ↦ rw e (grind arith)
]

-- How many steps from the offset `o` until the loop is back at `current`.
abbrev pub ahead : ℕ → ℕ → ℕ → ℕ
ahead n current o = if ltb o current then current - o else current + n - o

pub ahead_step :
    (n current o : ℕ)
    → o < n
    → current < n
    → (offset_after n o == current) ≡ false
    → (offset_after n o < n) × (ahead n current (offset_after n o) < ahead n current o)
ahead_step n current o h k ne = ground arith

module _ {S : Type 0} (d : FakeDns S) (h : d.offset < range d) where
  pub advance_offset : (advance d).offset ≡ offset_after (range d) d.offset
  advance_offset = offset_after_lem (range d) d.offset h (omega arith)

  pub advance-lt : (advance d).offset < range d
  advance-lt = omega arith

module _ {S : Type 0} (st : Store S) where
  pub get_loop_total :
      (fuel current : ℕ) (d : FakeDns S)
      → d.offset < range d
      → current < range d
      → ahead (range d) current d.offset ≤ fuel
      → (d' : FakeDns S) × (get_loop st fuel current d ≡ ok d')
  unfolding get_loop
  get_loop_total zero current d h k m = absurd (ground arith)
  get_loop_total (suc fuel) current d h k m =
      let next = advance d in
      let (used, store) = st.exist next.store (ip_at next) in
      let rest = get_loop_total fuel current (record next { store = store }) in
      elim (Bool-cases (next.offset == current)) [
        | inl e ↦ (
          record (advance next) { store = st.del_by_ip next.store (ip_at (advance next)) },
          ground arith,
        )
        | inr e ↦ elim (Bool-cases used) [
          | inl u ↦
              let (d', r) =
                rest (advance-lt d h) k
                  (ground (arith, ahead_step (range d) current d.offset h k, advance_offset d h)) in
              (d', ground arith)
          | inr u ↦ (record next { store = store }, ground arith)
        ]
      ]

  -- From an offset in range, as many rounds as there are addresses are enough for `lookup` to
  -- return an address.
  pub lookup_total :
      (d : FakeDns S) (host : Text)
      → d.offset < range d
      → (ip : IpAddr) × (d' : FakeDns S) × (lookup st (range d) d host ≡ ok (ip, d'))
  unfolding lookup get
  lookup_total d host h =
      let (found, store) = st.get_by_host d.store host in
      elim (Option-cases found) [
        | inl e ↦
            let (d', r) =
              get_loop_total (range d) d.offset (record d { store = store }) h h (ground arith) in
            (
              ip_at d',
              record d' {
                store = st.pub_by_host (st.put_by_ip d'.store (ip_at d') host) host (ip_at d');
              },
              ground arith,
            )
        | inr (ip, e) ↦ (ip, record d { store = store }, ground arith)
      ]
