-- ===== src/RuleSet/Examples.antt =====
-- A file with the range from 192.168.1.1 to 192.168.1.5, as mapped addresses.
use clash_rs.Prelude.{◌+◌, take, List, [], ◌∷◌, ◌≡◌, refl, arith}
use clash_rs.Prelude.Outcome.{ok, err}
use clash_rs.Session.{IpAddr}
use clash_rs.CidrRanges.{IpNet}
use clash_rs.CidrRanges.Nets.{in_nets}
use clash_rs.RuleSet.{
  cidr_trie, domain, ipcidr, behavior_mismatch, truncated, read_bytes, read_u64_length, read_ranges,
  parse_ipcidr_payload, rules_mrs_parse,
}
use clash_rs.RuleSet.Format.{Range, file, within_any, rules_mrs_parse-within}

abbrev ranges : List Range
ranges = (0xffff00000000 + 3232235777, 0xffff00000000 + 3232235781) ∷ []

other_behavior : rules_mrs_parse domain (file 1 ranges) ≡ err behavior_mismatch
unfolding rules_mrs_parse read_bytes
other_behavior = refl

cut_short : rules_mrs_parse ipcidr (take 40 (file 1 ranges)) ≡ err truncated
unfolding rules_mrs_parse read_bytes parse_ipcidr_payload read_u64_length read_ranges
cut_short = refl

rules_mrs_parse-within_example :
    (nets : List IpNet) × (rules_mrs_parse ipcidr (file 1 ranges) ≡ ok (cidr_trie nets))
    × ((x : IpAddr) → in_nets x nets ≡ within_any x ranges)
rules_mrs_parse-within_example =
    rules_mrs_parse-within 1 ranges (omega arith) (omega arith)
      ((omega arith, omega arith, refl, (omega arith, omega arith)), tt)
