-- ===== src/Hysteria2/Salamander.antt =====
-- clash-lib/src/proxy/hysteria2/salamander.rs: the packets hidden behind a hash of a salt.
--
-- The hash Blake2b-256 of the crate `blake2` and the random salt are arguments.
use clash_rs.Hysteria2.Defrag.{all_below}
use clash_rs.RingBuffer.Slices.{take-at, drop-at}
use Prim.Native.Nat.{bit_xor}
use clash_rs.Prelude.{
  false, length-append, ◌+◌, arith, ◌<◌, ap, ℕ, zero, suc, ◌%◌, ◌==◌, ltb, leb, Bool, true, ◌&&◌,
  [], ◌∷◌, ◌++◌, ◌≡◌, refl, if◌then◌else◌, get_or, length, take, drop,
}
use clash_rs.Prelude.Text.{Text}
use clash_rs.Prelude.Outcome.{err, Outcome, ok, panic}

-- The loop of `obfs` from the index `i` on
abbrev pub xor_from : Text → ℕ → Text → Text
xor_from res i [] = []
xor_from res i (v ∷ bytes) = bit_xor v (get_or res (i % 32) 0) ∷ xor_from res (suc i) bytes

module _ (hash : Text → Text) (key : Text) where
  abbrev pub obfs : Text → Text → Text
  obfs salt bytes = xor_from (hash (key ++ salt)) 0 bytes

  abbrev pub encrypt : Text → Text → Text
  encrypt salt bytes = salt ++ obfs salt bytes

  -- In place: the salt stays in front. The assertion panics on a packet that has nothing behind it.
  unfoldable pub decrypt {ℓ} : {E : Type ℓ} → Text → Outcome E Text
  decrypt bytes =
      if leb (length bytes) 8
      then panic
      else ok (take 8 bytes ++ obfs (take 8 bytes) (drop 8 bytes))

  -- `poll_recv` on one packet: a short one is passed on as it is.
  abbrev pub without_salt {ℓ} : {E : Type ℓ} → Outcome E Text → Outcome E Text
  without_salt (ok bytes) = ok (drop 8 bytes)
  without_salt (err e) = err e
  without_salt panic = panic

  unfoldable pub recv {ℓ} : {E : Type ℓ} → Text → Outcome E Text
  unfolding decrypt
  recv bytes = if ltb 8 (length bytes) then without_salt (decrypt bytes) else ok bytes

abbrev all_pairs : ℕ → ℕ → Bool
all_pairs zero y = true
all_pairs (suc n) y = (bit_xor (bit_xor n y) y == n) && all_pairs n y

abbrev all_keys : ℕ → ℕ → Bool
all_keys m zero = true
all_keys m (suc n) = all_pairs m n && all_keys m n

table : all_keys 256 256 ≡ true
table = refl

pairs_sound : (n x y : ℕ) → all_pairs n y ≡ true → x < n → bit_xor (bit_xor x y) y ≡ x
pairs_sound zero x y h lt = absurd (omega arith)
pairs_sound (suc n) x y h lt = ground (arith, pairs_sound n x y)

keys_sound : (m n y : ℕ) → all_keys m n ≡ true → y < n → all_pairs m y ≡ true
keys_sound m zero y h lt = absurd (omega arith)
keys_sound m (suc n) y h lt = ground (arith, keys_sound m n y)

xor_twice : (x y : ℕ) → x < 256 → y < 256 → bit_xor (bit_xor x y) y ≡ x
xor_twice x y h k = pairs_sound 256 x y (keys_sound 256 256 y table k) h

get_or_below : (n : ℕ) (xs : Text) (i : ℕ) → 0 < n → all_below n xs ≡ true → get_or xs i 0 < n
get_or_below n [] i pos h = pos
get_or_below n (x ∷ xs) zero pos h = ground arith
get_or_below n (x ∷ xs) (suc i) pos h =
    let rest : all_below n xs ≡ true = ground arith in get_or_below n xs i pos rest

xor_from_twice :
    (res : Text) (i : ℕ) (bytes : Text)
    → all_below 256 res ≡ true
    → all_below 256 bytes ≡ true
    → xor_from res i (xor_from res i bytes) ≡ bytes
xor_from_twice res i [] hr hb = refl
xor_from_twice res i (v ∷ bytes) hr hb =
    let (low, rest) : (v < 256) × (all_below 256 bytes ≡ true) = ground arith in
    rw (
      xor_twice v (get_or res (i % 32) 0) low (get_or_below 256 res (i % 32) (omega arith) hr),
      xor_from_twice res (suc i) bytes hr rest,
    )

length-xor_from : (res : Text) (i : ℕ) (bytes : Text) → length (xor_from res i bytes) ≡ length bytes
length-xor_from res i [] = refl
length-xor_from res i (v ∷ bytes) = ap suc (length-xor_from res (suc i) bytes)

-- With a hash that gives bytes and a salt of eight bytes, the receiver gets back every packet of
-- bytes but the empty one.
pub recv-encrypt :
    {E : Type 0} (hash : Text → Text) (key salt bytes : Text)
    → ((s : Text) → all_below 256 (hash s) ≡ true)
    → length salt ≡ 8
    → all_below 256 bytes ≡ true
    → 0 < length bytes
    → recv hash key {E = E} (encrypt hash key salt bytes) ≡ ok bytes
unfolding recv decrypt
recv-encrypt hash key salt bytes hash_bytes eight is_bytes some_bytes =
    let hidden = obfs hash key salt bytes in
    let len : length (salt ++ hidden) ≡ 8 + length bytes =
      omega (arith, length-append salt hidden, length-xor_from (hash (key ++ salt)) 0 bytes) in
    let long : ltb 8 (length (salt ++ hidden)) ≡ true = ground arith in
    let not_short : leb (length (salt ++ hidden)) 8 ≡ false = ground arith in
    rw (
      long,
      not_short,
      take-at 8 salt hidden eight,
      drop-at 8 salt hidden eight,
      xor_from_twice (hash (key ++ salt)) 0 bytes (hash_bytes (key ++ salt)) is_bytes,
      drop-at 8 salt bytes eight,
    )
