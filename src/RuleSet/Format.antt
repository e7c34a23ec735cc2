-- ===== src/RuleSet/Format.antt =====
-- The networks of a rule set of address ranges.
use clash_rs.Prelude.{
  ℕ, suc, ◌<◌, ◌^◌, ◌||◌, Bool, false, leb, List, [], ◌∷◌, ◌++◌, ◌≡◌, refl, sym, ap, subst, take,
  drop, ◌∙◌, length, length-append, take-append, drop-append, append_assoc, arith,
}
use clash_rs.Prelude.Text.{Text}
use clash_rs.Prelude.Words.{be_bytes, from_be, from_be-be_bytes, length-be_bytes}
use clash_rs.Prelude.Outcome.{ok}
use clash_rs.Session.{IpAddr, v6}
use clash_rs.CidrRanges.{IpNet, above, normalize, range_to_cidrs}
use clash_rs.CidrRanges.Nets.{in_nets, within, IsPart, range_to_cidrs-within}
use clash_rs.RuleSet.{
  cidr_trie, ipcidr, mrs_magic_bytes, read_bytes, read_u64_length, read_ranges,
  parse_ipcidr_payload, rules_mrs_parse,
}

abbrev pub Range : Type 0
Range = ℕ × ℕ

abbrev pub ranges_of : List Range → Text
ranges_of [] = []
ranges_of ((a, b) ∷ rs) = be_bytes 16 a ++ (be_bytes 16 b ++ ranges_of rs)

-- The file of a set of address ranges, as the format describes it.
abbrev pub file : ℕ → List Range → Text
file count rs =
    mrs_magic_bytes
    ++ (1 ∷ (be_bytes 8 count ++ (be_bytes 8 0 ++ (1 ∷ (be_bytes 8 (length rs) ++ ranges_of rs)))))

-- Ranges that go up, of one family, and not of all its addresses.
abbrev pub AllRanges : List Range → Type 0
AllRanges [] = Unit
AllRanges ((a, b) ∷ rs) =
    ((a < 256 ^ 16)
      × (b < 256 ^ 16)
      × (above (v6 a) (v6 b) ≡ false)
      × IsPart (normalize (v6 a)) (normalize (v6 b)))
    × AllRanges rs

abbrev pub within_any : IpAddr → List Range → Bool
within_any x [] = false
within_any x ((a, b) ∷ rs) = within (normalize (v6 a)) (normalize (v6 b)) x || within_any x rs

read_bytes-append :
    (xs rest : Text) (n : ℕ) → length xs ≡ n → read_bytes n (xs ++ rest) ≡ ok (xs, rest)
unfolding read_bytes
read_bytes-append xs rest n len =
    rw (← len) (ground (arith, length-append xs rest, take-append xs rest, drop-append xs rest))

in_nets-append :
    (x : IpAddr) (ms ns : List IpNet) → in_nets x (ms ++ ns) ≡ (in_nets x ms || in_nets x ns)
in_nets-append x [] ns = refl
in_nets-append x (m ∷ ms) ns = ground (arith, in_nets-append x ms ns)

read_range :
    (n : ℕ) (xs ys : Text) (here rest : List IpNet) (tail : Text)
    → length xs ≡ 16
    → length ys ≡ 16
    → range_to_cidrs (v6 (from_be xs)) (v6 (from_be ys)) ≡ ok here
    → read_ranges n tail ≡ ok rest
    → read_ranges (suc n) (xs ++ (ys ++ tail)) ≡ ok (here ++ rest)
unfolding read_ranges
read_range n xs ys here rest tail size_xs size_ys made read =
    let size : length (xs ++ ys) ≡ 32 = omega (arith, length-append xs ys) in
    let first : take 16 (xs ++ ys) ≡ xs =
      subst (λ k. take k (xs ++ ys) ≡ xs) size_xs (take-append xs ys) in
    let second : drop 16 (xs ++ ys) ≡ ys =
      subst (λ k. drop k (xs ++ ys) ≡ ys) size_xs (drop-append xs ys) in
    rw
      (
        ← append_assoc xs ys tail,
        read_bytes-append (xs ++ ys) tail 32 size,
        first,
        second,
        made,
        read,
      )
      refl

parse_file :
    (cnt extra len tail : Text) (nets : List IpNet)
    → length cnt ≡ 8
    → length extra ≡ 8
    → length len ≡ 8
    → from_be cnt < 2 ^ 63
    → from_be extra ≡ 0
    → from_be len < 2 ^ 63
    → read_ranges (from_be len) tail ≡ ok nets
    → rules_mrs_parse ipcidr (mrs_magic_bytes ++ (1 ∷ (cnt ++ (extra ++ (1 ∷ (len ++ tail))))))
      ≡ ok (cidr_trie nets)
unfolding rules_mrs_parse parse_ipcidr_payload read_u64_length
parse_file cnt extra len tail nets size_cnt size_extra size_len small none_extra few read =
    let small_cnt : leb (2 ^ 63) (from_be cnt) ≡ false = ground (arith, small) in
    let small_len : leb (2 ^ 63) (from_be len) ≡ false = ground (arith, few) in
    rw
      (
        read_bytes-append mrs_magic_bytes (1 ∷ (cnt ++ (extra ++ (1 ∷ (len ++ tail))))) 4 refl,
        read_bytes-append (1 ∷ []) (cnt ++ (extra ++ (1 ∷ (len ++ tail)))) 1 refl,
        read_bytes-append cnt (extra ++ (1 ∷ (len ++ tail))) 8 size_cnt,
        small_cnt,
        read_bytes-append extra (1 ∷ (len ++ tail)) 8 size_extra,
        none_extra,
        read_bytes-append (1 ∷ []) (len ++ tail) 1 refl,
        read_bytes-append len tail 8 size_len,
        small_len,
        read,
      )
      refl

read_ranges-within :
    (rs : List Range)
    → AllRanges rs
    → (nets : List IpNet) × (read_ranges (length rs) (ranges_of rs) ≡ ok nets)
      × ((x : IpAddr) → in_nets x nets ≡ within_any x rs)
unfolding read_ranges
read_ranges-within [] all = ([], refl, λ x. refl)
read_ranges-within ((a, b) ∷ rs) ((fits_a, fits_b, order, part), all) =
    let tail = ranges_of rs in
    let (here, made, exact) = range_to_cidrs-within (v6 a) (v6 b) order part in
    let (rest, read, exact_rest) = read_ranges-within rs all in
    (
      here ++ rest,
      read_range (length rs) (be_bytes 16 a) (be_bytes 16 b) here rest tail (length-be_bytes 16 a)
          (length-be_bytes 16 b)
          (ap (λ c. range_to_cidrs (v6 c) (v6 (from_be (be_bytes 16 b))))
              (from_be-be_bytes 16 a fits_a)
            ∙ ap (λ c. range_to_cidrs (v6 a) (v6 c)) (from_be-be_bytes 16 b fits_b)
            ∙ made)
          read,
      λ x.
          in_nets-append x here rest
          ∙ ap (λ c. c || in_nets x rest) (exact x)
          ∙ ap (λ c. within (normalize (v6 a)) (normalize (v6 b)) x || c) (exact_rest x),
    )

-- A file of address ranges, each of one family and not of all its addresses, is read as networks that
-- have exactly the addresses of the ranges, whatever its count of rules.
pub rules_mrs_parse-within :
    (count : ℕ) (rs : List Range)
    → count < 2 ^ 63
    → length rs < 2 ^ 63
    → AllRanges rs
    → (nets : List IpNet) × (rules_mrs_parse ipcidr (file count rs) ≡ ok (cidr_trie nets))
      × ((x : IpAddr) → in_nets x nets ≡ within_any x rs)
rules_mrs_parse-within count rs small few all =
    let (nets, read, exact) = read_ranges-within rs all in
    let same_count = from_be-be_bytes 8 count (omega (arith, small)) in
    let same_len = from_be-be_bytes 8 (length rs) (omega (arith, few)) in
    (
      nets,
      parse_file (be_bytes 8 count) (be_bytes 8 0) (be_bytes 8 (length rs)) (ranges_of rs) nets
          (length-be_bytes 8 count) refl (length-be_bytes 8 (length rs))
          (subst (λ n. n < 2 ^ 63) (sym same_count) small) refl
          (subst (λ n. n < 2 ^ 63) (sym same_len) few)
          (subst (λ n. read_ranges n (ranges_of rs) ≡ ok nets) (sym same_len) read),
      exact,
    )
