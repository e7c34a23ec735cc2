-- ===== src/CidrRanges/Nets.antt =====
-- Which addresses the networks of a range have.
use clash_rs.Prelude.{
  ℕ, suc, ◌-◌, ◌<◌, ◌^◌, Bool, true, false, Bool-cases, ltb, ◌||◌, List, [], ◌∷◌, ◌≡◌, inl, inr,
  refl, ap, ◌∙◌, arith,
}
use clash_rs.Prelude.Outcome.{ok}
use clash_rs.Session.{IpAddr, v4, v6}
use clash_rs.CidrRanges.{
  Cidr, IpNet, net_v4, net_v6, all_v4, all_v6, above, normalize, nets_between, range_to_cidrs,
  range_to_cidrs_v4, range_to_cidrs_v6, blocks_v4, blocks_v6,
}
use clash_rs.CidrRanges.Covers.{
  has_prefix, covered, between, Covers, range_to_cidrs_v4-Covers, range_to_cidrs_v6-Covers,
}

abbrev pub in_net : IpAddr → IpNet → Bool
in_net (v4 x) (net_v4 c) = has_prefix 32 x c
in_net (v6 x) (net_v6 c) = has_prefix 128 x c
in_net (v4 x) (net_v6 c) = false
in_net (v6 x) (net_v4 c) = false

abbrev pub in_nets : IpAddr → List IpNet → Bool
in_nets x [] = false
in_nets x (n ∷ ns) = in_net x n || in_nets x ns

abbrev pub within : IpAddr → IpAddr → IpAddr → Bool
within (v4 a) (v4 b) (v4 x) = between a b x
within (v6 a) (v6 b) (v6 x) = between a b x
within (v4 a) (v4 b) (v6 x) = false
within (v6 a) (v6 b) (v4 x) = false
within (v4 a) (v6 b) x = false
within (v6 a) (v4 b) x = false

-- Two addresses of one family, which are not the ends of all its addresses.
abbrev pub IsPart : IpAddr → IpAddr → Type 0
IsPart (v4 a) (v4 b) = (b < 2 ^ 32) × (suc (b - a) < 2 ^ 32)
IsPart (v6 a) (v6 b) = (b < 2 ^ 128) × (suc (b - a) < 2 ^ 128)
IsPart (v4 a) (v6 b) = ⊥
IsPart (v6 a) (v4 b) = ⊥

in_nets-all_v4 :
    (x : ℕ) (cs : List Cidr)
    → (in_nets (v4 x) (all_v4 cs) ≡ covered 32 x cs) × (in_nets (v6 x) (all_v4 cs) ≡ false)
in_nets-all_v4 x [] = (refl, refl)
in_nets-all_v4 x (c ∷ cs) =
    let (same, none_there) = in_nets-all_v4 x cs in
    (ap (λ b. has_prefix 32 x c || b) same, none_there)

in_nets-all_v6 :
    (x : ℕ) (cs : List Cidr)
    → (in_nets (v6 x) (all_v6 cs) ≡ covered 128 x cs) × (in_nets (v4 x) (all_v6 cs) ≡ false)
in_nets-all_v6 x [] = (refl, refl)
in_nets-all_v6 x (c ∷ cs) =
    let (same, none_there) = in_nets-all_v6 x cs in
    (ap (λ b. has_prefix 128 x c || b) same, none_there)

empty_v4 : (a b : ℕ) → ltb b a ≡ true → range_to_cidrs_v4 a b ≡ ok []
unfolding range_to_cidrs_v4 blocks_v4
empty_v4 a b h = rw h refl

empty_v6 : (a b : ℕ) → ltb b a ≡ true → range_to_cidrs_v6 a b ≡ ok []
unfolding range_to_cidrs_v6 blocks_v6
empty_v6 a b h = rw h refl

none_between : (a b x : ℕ) → ltb b a ≡ true → covered 32 x [] ≡ between a b x
none_between a b x h = ground (arith, h)

range_v4 : (a b : ℕ) → b < 2 ^ 32 → suc (b - a) < 2 ^ 32 → Covers 32 a b (range_to_cidrs_v4 a b)
range_v4 a b word part = elim (Bool-cases (ltb b a)) [
  | inl down ↦ ([], empty_v4 a b down, λ x. none_between a b x down)
  | inr up ↦ range_to_cidrs_v4-Covers a b (ground (arith, up)) word part
]

range_v6 : (a b : ℕ) → b < 2 ^ 128 → suc (b - a) < 2 ^ 128 → Covers 128 a b (range_to_cidrs_v6 a b)
range_v6 a b word part = elim (Bool-cases (ltb b a)) [
  | inl down ↦ ([], empty_v6 a b down, λ x. none_between a b x down)
  | inr up ↦ range_to_cidrs_v6-Covers a b (ground (arith, up)) word part
]

nets_between-within :
    (s e : IpAddr)
    → IsPart s e
    → (nets : List IpNet) × (nets_between s e ≡ ok nets)
      × ((x : IpAddr) → in_nets x nets ≡ within s e x)
nets_between-within (v4 a) (v4 b) (word, part) =
    let (cidrs, made, all) = range_v4 a b word part in (all_v4 cidrs, rw made refl, exact cidrs all)
  where
    exact :
        (cs : List Cidr)
        → ((x : ℕ) → covered 32 x cs ≡ between a b x)
        → (x : IpAddr) → in_nets x (all_v4 cs) ≡ within (v4 a) (v4 b) x
    exact cs all (v4 x) = (in_nets-all_v4 x cs).0 ∙ all x
    exact cs all (v6 x) = (in_nets-all_v4 x cs).1
nets_between-within (v6 a) (v6 b) (word, part) =
    let (cidrs, made, all) = range_v6 a b word part in (all_v6 cidrs, rw made refl, exact cidrs all)
  where
    exact :
        (cs : List Cidr)
        → ((x : ℕ) → covered 128 x cs ≡ between a b x)
        → (x : IpAddr) → in_nets x (all_v6 cs) ≡ within (v6 a) (v6 b) x
    exact cs all (v6 x) = (in_nets-all_v6 x cs).0 ∙ all x
    exact cs all (v4 x) = (in_nets-all_v6 x cs).1
nets_between-within (v4 a) (v6 b) x = elim x [ ]
nets_between-within (v6 a) (v4 b) x = elim x [ ]

-- For a start that is not above the end, where the two, with mapped addresses taken for IPv4, are of one
-- family and not its first and last address, the networks have exactly the addresses between them.
pub range_to_cidrs-within :
    (start end : IpAddr)
    → above start end ≡ false
    → IsPart (normalize start) (normalize end)
    → (nets : List IpNet) × (range_to_cidrs start end ≡ ok nets)
      × ((x : IpAddr) → in_nets x nets ≡ within (normalize start) (normalize end) x)
range_to_cidrs-within start end order part =
    let (nets, made, all) = nets_between-within (normalize start) (normalize end) part in
    (nets, rw order made, all)
