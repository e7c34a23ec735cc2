-- ===== src/Prelude/Words.antt =====
-- Big-endian words: `put_u16`, `get_u32`, `octets` and their kin.
use native.Mathlib.Nat.{pow-suc}
use clash_rs.Prelude.{
  ℕ, zero, suc, ◌+◌, ◌*◌, ◌/◌, ◌%◌, ◌^◌, ◌<◌, ◌≡◌, refl, List, [], ◌∷◌, ◌++◌, length, length-append,
  arith,
}

-- The `n` bytes of a word, the highest first.
abbrev pub be_bytes : ℕ → ℕ → List ℕ
be_bytes zero x = []
be_bytes (suc n) x = be_bytes n (x / 256) ++ (x % 256 ∷ [])

abbrev pub from_be_acc : ℕ → List ℕ → ℕ
from_be_acc acc [] = acc
from_be_acc acc (b ∷ bs) = from_be_acc (acc * 256 + b) bs

abbrev pub from_be : List ℕ → ℕ
from_be bs = from_be_acc 0 bs

pub length-be_bytes : (n x : ℕ) → length (be_bytes n x) ≡ n
length-be_bytes zero x = refl
length-be_bytes (suc n) x =
    omega (arith, length-append (be_bytes n (x / 256)) (x % 256 ∷ []), length-be_bytes n (x / 256))

from_be_acc-append :
    (acc b : ℕ) (bs : List ℕ) → from_be_acc acc (bs ++ (b ∷ [])) ≡ from_be_acc acc bs * 256 + b
from_be_acc-append acc b [] = refl
from_be_acc-append acc b (c ∷ bs) = from_be_acc-append (acc * 256 + c) b bs

-- Reading the bytes of a word that fits gives the word back.
pub from_be-be_bytes : (n x : ℕ) → x < 256 ^ n → from_be (be_bytes n x) ≡ x
from_be-be_bytes zero x h = omega arith
from_be-be_bytes (suc n) x h = omega (
  arith,
  from_be_acc-append 0 (x % 256) (be_bytes n (x / 256)),
  from_be-be_bytes n (x / 256) (omega (arith, pow-suc 256 n)),
)
