-- ===== src/CidrRanges/Blocks.antt =====
-- How large a block is, and which addresses it has.
use native.Mathlib.Nat.{div-mul-le_self, lt-div-mul-add, pow-le-pow_right, mod-eq_of_lt}
use clash_rs.Prelude.{
  ℕ, zero, suc, ◌+◌, ◌-◌, ◌*◌, ◌%◌, ◌/◌, ◌^◌, ◌<◌, ◌≤◌, min, Bool-cases, ltb, leb, ◌==◌, ◌&&◌, ◌≡◌,
  inl, inr, ap, subst, ◌∙◌, if◌then◌else◌, arith,
}
use clash_rs.CidrRanges.{trailing_zeros, leading_zeros, block_size_bits}

pub pow_pos : (b : ℕ) → 0 < 2 ^ b
pow_pos zero = omega arith
pow_pos (suc b) = omega (arith, pow_pos b)

double : (k b : ℕ) → k * 2 ^ suc b ≡ 2 * (k * 2 ^ b)
double k b = grind arith

-- A word is a multiple of the powers of two up to its trailing zeros.
pub trailing_zeros-multiple : (w x b : ℕ) → b ≤ trailing_zeros w x → (k : ℕ) × (x ≡ k * 2 ^ b)
unfolding trailing_zeros
trailing_zeros-multiple w x zero h = (x, omega arith)
trailing_zeros-multiple zero x (suc b) h = absurd (omega (arith, h))
trailing_zeros-multiple (suc w) x (suc b) h = elim (Bool-cases (x % 2 == 0)) [
  | inl even ↦
      let few : b ≤ trailing_zeros w (x / 2) = ground (arith, h, even) in
      let (k, half) = trailing_zeros-multiple w (x / 2) b few in
      let even' : x % 2 ≡ 0 = ground (arith, even) in
      let twice : x ≡ 2 * (x / 2) = omega (arith, even') in
      (k, omega (arith, twice, half, double k b))
  | inr odd ↦ absurd (ground (arith, h, odd))
]

-- The power of two of a word's highest bit is at most the word.
pub leading_zeros-highest :
    (w r : ℕ) → 0 < r → r < 2 ^ w → (m : ℕ) × (w ≡ suc (leading_zeros w r + m)) × (2 ^ m ≤ r)
unfolding leading_zeros
leading_zeros-highest zero r h k = absurd (omega (arith, h, k))
leading_zeros-highest (suc w) r h k = elim (Bool-cases (ltb r (2 ^ w))) [
  | inl below ↦
      let (m, same, fits) = leading_zeros-highest w r h (ground (arith, below)) in
      (m, ground (arith, same, below), fits)
  | inr above ↦ (w, ground (arith, above), ground (arith, above))
]

multiple :
    (w current m : ℕ)
    → (k : ℕ) × (current ≡ k * 2 ^ min (if current == 0 then w else trailing_zeros w current) m)
multiple w current m = elim (Bool-cases (current == 0)) [
  | inl zero_ ↦ (0, ground (arith, zero_))
  | inr other ↦
      rw other (trailing_zeros-multiple w current (min (trailing_zeros w current) m) (omega arith))
]

-- The block starts at a multiple of its size, and fits into the range.
pub block_size_bits-fits :
    (w current end : ℕ)
    → w < 2 ^ 32
    → current ≤ end
    → suc (end - current) < 2 ^ w
    → (block_size_bits w current end < w)
      × ((k : ℕ) × (current ≡ k * 2 ^ block_size_bits w current end))
      × (current + 2 ^ block_size_bits w current end ≤ suc end)
unfolding block_size_bits
block_size_bits-fits w current end small le part =
    let remaining = suc (end - current) in
    let whole : (end - current + 1) % 2 ^ w ≡ remaining =
      ap (λ n. n % 2 ^ w) (omega arith) ∙ mod-eq_of_lt part in
    let (m, same, fits) = leading_zeros-highest w remaining (omega arith) part in
    let bits : (w - 1 + 2 ^ 32 - leading_zeros w remaining) % 2 ^ 32 ≡ m =
      omega (arith, same, small) in
    let zeros = if current == 0 then w else trailing_zeros w current in
    let room : 2 ^ min zeros m ≤ 2 ^ m = pow-le-pow_right (omega arith) (omega arith) in
    rw (whole, bits) (omega (arith, same), multiple w current m, omega (arith, room, fits))

step_le : (d q k : ℕ) → q < k → q * d + d ≤ k * d
step_le d q zero h = absurd (omega (arith, h))
step_le d q (suc k) h = elim (Bool-cases (ltb q k)) [
  | inl less ↦ omega (arith, step_le d q k (ground (arith, less)))
  | inr last ↦ let e : q ≡ k = ground (arith, last, h) in rw e (omega arith)
]

same_multiple : (d q k x : ℕ) → q * d ≤ x → x < q * d + d → k * d ≤ x → x < k * d + d → q ≡ k
same_multiple d q k x a b c e = elim (Bool-cases (ltb q k)) [
  | inl less ↦ absurd (omega (arith, step_le d q k (ground (arith, less)), b, c))
  | inr more ↦ elim (Bool-cases (ltb k q)) [
    | inl less ↦ absurd (omega (arith, step_le d k q (ground (arith, less)), e, a))
    | inr same ↦ ground (arith, more, same)
  ]
]

-- The prefix of a block says which addresses it has.
pub same_prefix :
    (b k x : ℕ)
    → (x / 2 ^ b == k * 2 ^ b / 2 ^ b) ≡ (leb (k * 2 ^ b) x && ltb x (k * 2 ^ b + 2 ^ b))
same_prefix b k x =
    let whole : k * 2 ^ b / 2 ^ b ≡ k =
      same_multiple (2 ^ b) (k * 2 ^ b / 2 ^ b) k (k * 2 ^ b) (div-mul-le_self (k * 2 ^ b) (2 ^ b))
        (lt-div-mul-add (pow_pos b)) (omega arith) (omega (arith, pow_pos b)) in
    let low = div-mul-le_self x (2 ^ b) in
    let high : x < x / 2 ^ b * 2 ^ b + 2 ^ b = lt-div-mul-add (pow_pos b) in
    elim (Bool-cases (x / 2 ^ b == k)) [
      | inl same ↦
          let e : x / 2 ^ b ≡ k = ground (arith, same) in
          let low' : k * 2 ^ b ≤ x = subst (λ q. q * 2 ^ b ≤ x) e low in
          let high' : x < k * 2 ^ b + 2 ^ b = subst (λ q. x < q * 2 ^ b + 2 ^ b) e high in
          rw (whole, same) (ground (arith, low', high'))
      | inr other ↦
          let apart : (k * 2 ^ b ≤ x) → (x < k * 2 ^ b + 2 ^ b) → ⊥ =
            λ l h. ground (arith, other, same_multiple (2 ^ b) (x / 2 ^ b) k x low high l h) in
          rw (whole, other) (ground (arith, apart))
    ]
