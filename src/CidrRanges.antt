-- ===== src/CidrRanges.antt =====
-- clash-lib/src/app/remote_content_manager/providers/rule_provider/mrs.rs: the conversion of a range
-- of addresses into CIDR blocks.
--
-- An address is a number. The sums and differences of words wrap around, as they do in a release
-- build; a build that checks for overflow panics on the range of all addresses. The loops have fuel.
-- A network of the crate `ipnet` is an address with the length of its prefix, which `IpNet::new` refuses
-- if it is longer than an address.
pub mod Blocks
pub mod Covers
pub mod Nets
mod Examples
use clash_rs.Prelude.{
  ℕ, zero, suc, ◌+◌, ◌-◌, ◌%◌, ◌/◌, ◌^◌, min, Bool, true, false, leb, ◌&&◌, List, [], ◌∷◌, ltb,
  ◌==◌, ◌||◌, if◌then◌else◌,
}
use clash_rs.Session.{IpAddr, v4, v6}
use clash_rs.Prelude.Outcome.{Outcome, ok, err, ◌>>=◌}

pub record Cidr : Type 0 where
  pub addr : ℕ
  pub prefix_len : ℕ

pub data CidrError : Type 0 where
  prefix_too_long out_of_fuel different_families : CidrError

-- `trailing_zeros` and `leading_zeros` of a word of that width.
unfoldable pub trailing_zeros : ℕ → ℕ → ℕ
trailing_zeros zero x = 0
trailing_zeros (suc w) x = let rest = trailing_zeros w (x / 2) in if x % 2 == 0 then suc rest else 0

unfoldable pub leading_zeros : ℕ → ℕ → ℕ
leading_zeros zero x = 0
leading_zeros (suc w) x = let rest = leading_zeros w x in if ltb x (2 ^ w) then suc rest else 0

-- The largest block that starts at `current`, for addresses of that width.
unfoldable pub block_size_bits : ℕ → ℕ → ℕ → ℕ
unfolding trailing_zeros leading_zeros
block_size_bits w current end =
    let zeros = if current == 0 then w else trailing_zeros w current in
    let remaining_ips = (end - current + 1) % 2 ^ w in
    let max_block_size_bits = (w - 1 + 2 ^ 32 - leading_zeros w remaining_ips) % 2 ^ 32 in
    min zeros max_block_size_bits

-- `IpNet::new`
abbrev pub ip_net : ℕ → ℕ → ℕ → Outcome CidrError Cidr
ip_net w addr prefix_len =
    if ltb w prefix_len
    then err prefix_too_long
    else ok (record { addr = addr; prefix_len = prefix_len })

unfoldable pub blocks_v4 : ℕ → ℕ → ℕ → Outcome CidrError (List Cidr)
unfolding block_size_bits
blocks_v4 zero current end = err out_of_fuel
blocks_v4 (suc fuel) current end =
    let bits = block_size_bits 32 current end in
    let next = current + 2 ^ bits in
    let rest = blocks_v4 fuel (next % 2 ^ 32) end in
    if ltb end current then ok [] else (do
      cidr ← ip_net 32 current (32 - bits)
      cidrs ← if ltb end next || ltb (2 ^ 32 - 1) next then ok [] else rest
      ok (cidr ∷ cidrs))

unfoldable pub range_to_cidrs_v4 : ℕ → ℕ → Outcome CidrError (List Cidr)
unfolding blocks_v4
range_to_cidrs_v4 start end = blocks_v4 (suc (end - start)) start end

-- The shift of `1u128` takes its amount modulo 128.
unfoldable pub blocks_v6 : ℕ → ℕ → ℕ → Outcome CidrError (List Cidr)
unfolding block_size_bits
blocks_v6 zero current end = err out_of_fuel
blocks_v6 (suc fuel) current end =
    let bits = block_size_bits 128 current end in
    let next = current + 2 ^ (bits % 128) in
    let rest = blocks_v6 fuel next end in
    if ltb end current then ok [] else (do
      cidr ← ip_net 128 current (128 - bits)
      cidrs ← if leb next (2 ^ 128 - 1) && leb next end then rest else ok []
      ok (cidr ∷ cidrs))

unfoldable pub range_to_cidrs_v6 : ℕ → ℕ → Outcome CidrError (List Cidr)
unfolding blocks_v6
range_to_cidrs_v6 start end = blocks_v6 (suc (end - start)) start end

-- `IpNet`
pub data IpNet : Type 0 where
  net_v4 net_v6 : Cidr → IpNet

abbrev pub all_v4 : List Cidr → List IpNet
all_v4 [] = []
all_v4 (c ∷ cs) = net_v4 c ∷ all_v4 cs

abbrev pub all_v6 : List Cidr → List IpNet
all_v6 [] = []
all_v6 (c ∷ cs) = net_v6 c ∷ all_v6 cs

-- `start > end`: every IPv4 address is below every IPv6 address.
abbrev pub above : IpAddr → IpAddr → Bool
above (v4 a) (v4 b) = ltb b a
above (v4 a) (v6 b) = false
above (v6 a) (v4 b) = true
above (v6 a) (v6 b) = ltb b a

abbrev pub normalize : IpAddr → IpAddr
normalize (v4 a) = v4 a
normalize (v6 a) = if a / 2 ^ 32 == 0xffff then v4 (a % 2 ^ 32) else v6 a

abbrev pub nets_between : IpAddr → IpAddr → Outcome CidrError (List IpNet)
nets_between (v4 a) (v4 b) = do cidrs ← range_to_cidrs_v4 a b; ok (all_v4 cidrs)
nets_between (v6 a) (v6 b) = do cidrs ← range_to_cidrs_v6 a b; ok (all_v6 cidrs)
nets_between (v4 a) (v6 b) = err different_families
nets_between (v6 a) (v4 b) = err different_families

abbrev pub range_to_cidrs : IpAddr → IpAddr → Outcome CidrError (List IpNet)
range_to_cidrs start end =
    if above start end then ok [] else nets_between (normalize start) (normalize end)
