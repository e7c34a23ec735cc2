-- ===== src/FakeIp.antt =====
-- clash-lib/src/app/dns/fakeip/mod.rs: the pool of fake IP addresses.
--
-- `u32` arithmetic wraps around. `Store` is the trait of the same name: its methods take the store
-- mutably, so each returns the store beside its result. `IpNet` holds what the code reads of an
-- `ipnet::IpNet`. The `loop` of `get` takes fuel, whose end is the error `out_of_fuel`; a division by
-- zero and an `unreachable!` are panics.
pub mod Laws
pub mod Loop
pub mod Pool
pub mod FileStore
mod Examples
use clash_rs.Prelude.{
  ℕ, zero, suc, ◌+◌, ◌-◌, ◌%◌, ◌^◌, ◌==◌, Bool, true, false, Option, none, some, is_some,
  if◌then◌else◌,
}
use clash_rs.Prelude.Text.{Text}
use clash_rs.Prelude.Outcome.{Outcome, ok, err, panic, ◌>>=◌}
use clash_rs.Session.{IpAddr, v4, v6}
use clash_rs.Trie
use clash_rs.Trie.{Node}

pub record Store (S : Type 0) : Type 0 where
  pub get_by_host : S → Text → Option IpAddr × S
  pub pub_by_host : S → Text → IpAddr → S
  pub get_by_ip : S → IpAddr → Option Text × S
  pub put_by_ip : S → IpAddr → Text → S
  pub del_by_ip : S → IpAddr → S
  pub exist : S → IpAddr → Bool × S

pub record IpNet : Type 0 where
  pub network : IpAddr
  pub prefix_len : ℕ
  pub contains : IpAddr → Bool

pub record FakeDns (S : Type 0) : Type 0 where
  pub max : ℕ
  pub min : ℕ
  pub gateway : ℕ
  pub offset : ℕ
  pub skipped_hostnames : Option (Node Bool)
  pub ipnet : IpNet
  pub store : S

pub data Fault : Type 0 where
  out_of_fuel : Fault

abbrev pub u32_add : ℕ → ℕ → ℕ
u32_add a b = (a + b) % 2 ^ 32

abbrev pub u32_sub : ℕ → ℕ → ℕ
u32_sub a b = (a + 2 ^ 32 - b) % 2 ^ 32

-- `1 << n`, whose shift amount is taken modulo the width
abbrev pub u32_shl_one : ℕ → ℕ
u32_shl_one n = 2 ^ (n % 32)

abbrev pub is_ipv4 : IpAddr → Bool
is_ipv4 (v4 a) = true
is_ipv4 (v6 a) = false

-- The number of addresses that the offset runs through.
module _ {S : Type 0} where
  -- The number of addresses that the offset runs through.
  abbrev pub range : FakeDns S → ℕ
  range d = u32_sub d.max d.min

  -- `Ipv4Addr::from(self.min + self.offset - 1)`
  abbrev pub ip_at : FakeDns S → IpAddr
  ip_at d = v4 (u32_sub (u32_add d.min d.offset) 1)

  -- `self.offset = (self.offset + 1) % (self.max - self.min)`
  abbrev pub advance : FakeDns S → FakeDns S
  advance d = record d { offset = u32_add d.offset 1 % range d }

  unfoldable pub new : IpNet → Option (Node Bool) → S → Outcome Fault (FakeDns S)
  new ipnet skipped_hostnames store = elim ipnet.network [
    | v6 a ↦ panic
    | v4 a ↦
        let min = u32_add a 2 in
        let total = u32_sub (u32_shl_one (32 - ipnet.prefix_len)) 2 in
        ok (record {
          max = u32_sub (u32_add min total) 1;
          min = min;
          gateway = u32_sub min 1;
          offset = 0;
          skipped_hostnames = skipped_hostnames;
          ipnet = ipnet;
          store = store;
        })
  ]

module _ {S : Type 0} (st : Store S) where
  open st use {get_by_host, pub_by_host, get_by_ip, put_by_ip, del_by_ip, exist}

  -- The `loop` of `get`, with the offset at which it began.
  unfoldable pub get_loop : ℕ → ℕ → FakeDns S → Outcome Fault (FakeDns S)
  get_loop zero current d = err out_of_fuel
  get_loop (suc fuel) current d =
      let next = advance d in
      let last = advance next in
      let (used, store) = exist next.store (ip_at next) in
      let rest = get_loop fuel current (record next { store = store }) in
      if range d == 0
      then panic
      else if next.offset == current
      then ok (record last { store = del_by_ip last.store (ip_at last) })
      else if used
      then rest
      else ok (record next { store = store })

  unfoldable pub get : ℕ → FakeDns S → Text → Outcome Fault (IpAddr × FakeDns S)
  get fuel d host = do
    d ← get_loop fuel d.offset d
    ok (ip_at d, record d { store = put_by_ip d.store (ip_at d) host })

  unfoldable pub lookup : ℕ → FakeDns S → Text → Outcome Fault (IpAddr × FakeDns S)
  lookup fuel d host =
      let (found, store) = get_by_host d.store host in
      elim found [
        | some ip ↦ ok (ip, record d { store = store })
        | none ↦ do
          (ip, d) ← get fuel (record d { store = store }) host
          ok (ip, record d { store = pub_by_host d.store host ip })
      ]

  unfoldable pub reverse_lookup : FakeDns S → IpAddr → Option Text × FakeDns S
  reverse_lookup d ip =
      if is_ipv4 ip
      then (let (host, store) = get_by_ip d.store ip in (host, record d { store = store }))
      else (none, d)

  unfoldable pub exist_ip : FakeDns S → IpAddr → Bool × FakeDns S
  exist_ip d ip =
      if is_ipv4 ip
      then (let (used, store) = exist d.store ip in (used, record d { store = store }))
      else (false, d)

module _ {S : Type 0} where
  unfoldable pub should_skip : FakeDns S → Text → Bool
  should_skip d domain = elim d.skipped_hostnames [
    | none ↦ false
    | some host ↦ is_some (Trie.search host domain)
  ]

  unfoldable pub is_fake_ip : FakeDns S → IpAddr → Bool
  is_fake_ip d ip = if is_ipv4 ip then d.ipnet.contains ip else false
