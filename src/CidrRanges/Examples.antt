-- ===== src/CidrRanges/Examples.antt =====
-- The range from 192.168.1.1 to 192.168.1.5, as mapped addresses and as IPv4 addresses.
use clash_rs.Prelude.{ℕ, ◌+◌, List, [], ◌∷◌, ◌≡◌, refl, arith}
use clash_rs.Prelude.Outcome.{ok, err}
use clash_rs.Session.{IpAddr, v4, v6}
use clash_rs.CidrRanges.{
  IpNet, net_v4, different_families, range_to_cidrs, range_to_cidrs_v4, blocks_v4, block_size_bits,
  trailing_zeros, leading_zeros,
}
use clash_rs.CidrRanges.Nets.{in_nets, within, range_to_cidrs-within}

abbrev mapped : ℕ → IpAddr
mapped a = v6 (0xffff00000000 + a)

-- 192.168.1.1/32, 192.168.1.2/31, 192.168.1.4/31
three_blocks :
    range_to_cidrs (mapped 3232235777) (mapped 3232235781)
    ≡ ok (
        net_v4 (record { addr = 3232235777; prefix_len = 32 })
        ∷ (net_v4 (record { addr = 3232235778; prefix_len = 31 })
            ∷ (net_v4 (record { addr = 3232235780; prefix_len = 31 }) ∷ [])))
unfolding range_to_cidrs_v4 blocks_v4 block_size_bits trailing_zeros leading_zeros
three_blocks = refl

mixed : range_to_cidrs (v6 7) (mapped 5) ≡ err different_families
mixed = refl

range_to_cidrs-within_example :
    (nets : List IpNet) × (range_to_cidrs (v4 3232235777) (v4 3232235781) ≡ ok nets)
    × ((x : IpAddr) → in_nets x nets ≡ within (v4 3232235777) (v4 3232235781) x)
range_to_cidrs-within_example =
    range_to_cidrs-within (v4 3232235777) (v4 3232235781) refl (omega arith, omega arith)
