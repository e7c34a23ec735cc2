-- ===== src/CidrRanges/Covers.antt =====
-- Which addresses the blocks of a range have.
use native.Mathlib.Nat.{mod-eq_of_lt}
use clash_rs.Prelude.{
  ℕ, zero, suc, ◌+◌, ◌-◌, ◌%◌, ◌/◌, ◌^◌, ◌<◌, ◌≤◌, Bool, true, false, Bool-cases, ltb, leb, ◌==◌,
  ◌&&◌, ◌||◌, List, [], ◌∷◌, ◌≡◌, inl, inr, refl, sym, ap, subst, ◌∙◌, arith,
}
use clash_rs.Prelude.Outcome.{Outcome, ok}
use clash_rs.CidrRanges.{
  Cidr, CidrError, block_size_bits, ip_net, blocks_v4, blocks_v6, range_to_cidrs_v4,
  range_to_cidrs_v6,
}
use clash_rs.CidrRanges.Blocks.{pow_pos, block_size_bits-fits, same_prefix}

-- The address has the prefix of the block.
abbrev pub has_prefix : ℕ → ℕ → Cidr → Bool
has_prefix w x c = x / 2 ^ (w - c.prefix_len) == c.addr / 2 ^ (w - c.prefix_len)

abbrev pub covered : ℕ → ℕ → List Cidr → Bool
covered w x [] = false
covered w x (c ∷ cs) = has_prefix w x c || covered w x cs

abbrev pub between : ℕ → ℕ → ℕ → Bool
between start end x = leb start x && leb x end

module _ (w : ℕ) (small : w < 2 ^ 32) (current end : ℕ) (le : current ≤ end)
    (part : suc (end - current) < 2 ^ w) where
  abbrev bits : ℕ
  bits = block_size_bits w current end

  abbrev pub block : Cidr
  block = record { addr = current; prefix_len = w - bits }

  pub bits_lt : bits < w
  bits_lt = (block_size_bits-fits w current end small le part).0

  pub next_le : (current < current + 2 ^ bits) × (current + 2 ^ bits ≤ suc end)
  next_le = (omega (arith, pow_pos bits), (block_size_bits-fits w current end small le part).2)

  pub ip_net-block : ip_net w current (w - bits) ≡ ok block
  ip_net-block = let fits : ltb w (w - bits) ≡ false = ground arith in rw fits refl

  pub has_prefix-block :
      (x : ℕ) → has_prefix w x block ≡ (leb current x && ltb x (current + 2 ^ bits))
  has_prefix-block x =
      let (k, multiple) = (block_size_bits-fits w current end small le part).1 in
      let size : w - (w - bits) ≡ bits = omega (arith, bits_lt) in
      ap (λ n. x / 2 ^ n == current / 2 ^ n) size
      ∙ subst (λ a. (x / 2 ^ bits == a / 2 ^ bits) ≡ (leb a x && ltb x (a + 2 ^ bits)))
          (sym multiple) (same_prefix bits k x)

  pub covered-last :
      end < current + 2 ^ bits → (x : ℕ) → covered w x (block ∷ []) ≡ between current end x
  covered-last last x = ground (arith, has_prefix-block x, next_le.1, last)

  pub covered-cons :
      (cidrs : List Cidr)
      → ((x : ℕ) → covered w x cidrs ≡ between (current + 2 ^ bits) end x)
      → (x : ℕ) → covered w x (block ∷ cidrs) ≡ between current end x
  covered-cons cidrs rest x = ground (arith, has_prefix-block x, rest x, next_le.0, next_le.1)

abbrev pub Covers : ℕ → ℕ → ℕ → Outcome CidrError (List Cidr) → Type 0
Covers w start end result =
    (cidrs : List Cidr) × (result ≡ ok cidrs) × ((x : ℕ) → covered w x cidrs ≡ between start end x)

and_false : (b : Bool) → (b && false) ≡ false
and_false true = refl
and_false false = refl

lt_of : (a b : ℕ) → ltb a b ≡ true → a < b
lt_of a b h = ground (arith, h)

le_of : (a b : ℕ) → ltb a b ≡ false → b ≤ a
le_of a b h = ground (arith, h)

not_above : (a b : ℕ) → b ≤ a → ltb a b ≡ false
not_above a b h = ground (arith, h)

not_below : (a b : ℕ) → ltb a b ≡ true → leb b a ≡ false
not_below a b h = ground (arith, h)

is_le : (a b : ℕ) → a ≤ b → leb a b ≡ true
is_le a b h = ground (arith, h)

module _ (fuel current end : ℕ) (le : current ≤ end) (word : end < 2 ^ 32)
    (part : suc (end - current) < 2 ^ 32) where
  abbrev next : ℕ
  next = current + 2 ^ block_size_bits 32 current end

  blocks_v4-last :
      ltb end next ≡ true
      → blocks_v4 (suc fuel) current end ≡ ok (block 32 (omega arith) current end le part ∷ [])
  unfolding blocks_v4
  blocks_v4-last last =
      rw (not_above end current le, ip_net-block 32 (omega arith) current end le part, last) refl

  blocks_v4-next :
      (cidrs : List Cidr)
      → next ≤ end
      → blocks_v4 fuel next end ≡ ok cidrs
      → blocks_v4 (suc fuel) current end ≡ ok (block 32 (omega arith) current end le part ∷ cidrs)
  unfolding blocks_v4
  blocks_v4-next cidrs more rest =
      let same : next % 2 ^ 32 ≡ next = mod-eq_of_lt (omega (arith, more, word)) in
      let small_next : next ≤ 2 ^ 32 - 1 = omega (arith, more, word) in
      rw
        (
          not_above end current le,
          ip_net-block 32 (omega arith) current end le part,
          not_above end next more,
          not_above (2 ^ 32 - 1) next small_next,
          same,
          rest,
        )
        refl

blocks_v4-Covers :
    (fuel current end : ℕ)
    → current ≤ end
    → end < 2 ^ 32
    → suc (end - current) < 2 ^ 32
    → end - current < fuel
    → Covers 32 current end (blocks_v4 fuel current end)
blocks_v4-Covers zero current end le word part enough = absurd (omega (arith, enough))
blocks_v4-Covers (suc fuel) current end le word part enough =
    let next = current + 2 ^ block_size_bits 32 current end in
    let (up, fits) = next_le 32 (omega arith) current end le part in
    elim (Bool-cases (ltb end next)) [
      | inl last ↦ (
        block 32 (omega arith) current end le part ∷ [],
        blocks_v4-last fuel current end le word part last,
        covered-last 32 (omega arith) current end le part (lt_of end next last),
      )
      | inr more ↦
          let le' : next ≤ end = le_of end next more in
          let (cidrs, rest, all) =
            blocks_v4-Covers fuel next end le' word (omega (arith, up, part))
              (omega (arith, up, enough)) in
          (
            block 32 (omega arith) current end le part ∷ cidrs,
            blocks_v4-next fuel current end le word part cidrs le' rest,
            covered-cons 32 (omega arith) current end le part cidrs all,
          )
    ]

blocks_v6-Covers :
    (fuel current end : ℕ)
    → current ≤ end
    → end < 2 ^ 128
    → suc (end - current) < 2 ^ 128
    → end - current < fuel
    → Covers 128 current end (blocks_v6 fuel current end)
unfolding blocks_v6
blocks_v6-Covers zero current end le word part enough = absurd (omega (arith, enough))
blocks_v6-Covers (suc fuel) current end le word part enough =
    let next = current + 2 ^ block_size_bits 128 current end in
    let (up, fits) = next_le 128 (omega arith) current end le part in
    let made = ip_net-block 128 (omega arith) current end le part in
    let here : ltb end current ≡ false = not_above end current le in
    let shift : block_size_bits 128 current end % 128 ≡ block_size_bits 128 current end =
      mod-eq_of_lt (bits_lt 128 (omega arith) current end le part) in
    elim (Bool-cases (ltb end next)) [
      | inl last ↦
          let over : leb next end ≡ false = not_below end next last in
          (
            block 128 (omega arith) current end le part ∷ [],
            rw (here, made, shift, over, and_false (leb next (2 ^ 128 - 1))) refl,
            covered-last 128 (omega arith) current end le part (lt_of end next last),
          )
      | inr more ↦
          let le' : next ≤ end = le_of end next more in
          let word' : leb next (2 ^ 128 - 1) ≡ true =
            is_le next (2 ^ 128 - 1) (omega (arith, le', word)) in
          let (cidrs, rest, all) =
            blocks_v6-Covers fuel next end le' word (omega (arith, up, part))
              (omega (arith, up, enough)) in
          (
            block 128 (omega arith) current end le part ∷ cidrs,
            rw (here, made, shift, word', is_le next end le', rest) refl,
            covered-cons 128 (omega arith) current end le part cidrs all,
          )
    ]

-- The blocks of a range of IPv4 addresses, but for that of all addresses, have exactly the addresses of
-- the range.
pub range_to_cidrs_v4-Covers :
    (start end : ℕ)
    → start ≤ end
    → end < 2 ^ 32
    → suc (end - start) < 2 ^ 32
    → Covers 32 start end (range_to_cidrs_v4 start end)
unfolding range_to_cidrs_v4
range_to_cidrs_v4-Covers start end le word part =
    blocks_v4-Covers (suc (end - start)) start end le word part (omega arith)

-- The blocks of a range of IPv6 addresses, but for that of all addresses, have exactly the addresses of
-- the range.
pub range_to_cidrs_v6-Covers :
    (start end : ℕ)
    → start ≤ end
    → end < 2 ^ 128
    → suc (end - start) < 2 ^ 128
    → Covers 128 start end (range_to_cidrs_v6 start end)
unfolding range_to_cidrs_v6
range_to_cidrs_v6-Covers start end le word part =
    blocks_v6-Covers (suc (end - start)) start end le word part (omega arith)
