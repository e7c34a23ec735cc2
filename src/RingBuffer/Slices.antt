-- ===== src/RingBuffer/Slices.antt =====
-- clash-netstack/src/ring_buffer.rs: lists cut at known places.
use clash_rs.Prelude.{
  ◌∙◌, leb, Bool-cases, inl, inr, ap, min, ℕ, zero, suc, ◌+◌, ◌≤◌, List, [], ◌∷◌, ◌++◌, ◌≡◌, refl,
  sym, append_assoc, length, length-append, length-take, take, drop, take-append, drop-append,
  take-append-drop, arith,
}
use clash_rs.RingBuffer.{write_slice, slice}

module _ {ℓ} {A : Type ℓ} where
  -- The two parts of a list cut at `n`.
  pub cut : (n : ℕ) (xs : List A) → n ≤ length xs → (u v : List A) × (xs ≡ u ++ v) × (length u ≡ n)
  cut n xs h = (take n xs, drop n xs, sym (take-append-drop n xs), omega (arith, length-take n xs))

  pub take-at : (n : ℕ) (u v : List A) → length u ≡ n → take n (u ++ v) ≡ u
  take-at n u v h = rw⁻¹ h (take-append u v)

  pub drop-at : (n : ℕ) (u v : List A) → length u ≡ n → drop n (u ++ v) ≡ v
  drop-at n u v h = rw⁻¹ h (drop-append u v)

  pub take-all : (n : ℕ) (xs : List A) → length xs ≤ n → take n xs ≡ xs
  take-all zero [] h = refl
  take-all (suc n) [] h = refl
  take-all zero (x ∷ xs) h = absurd (omega arith)
  take-all (suc n) (x ∷ xs) h = rw (take-all n xs (omega arith))

zero_add : (n : ℕ) → 0 + n ≡ n
zero_add n = omega arith

suc_add : (m n : ℕ) → suc m + n ≡ suc (m + n)
suc_add m n = omega arith

module _ {ℓ} {A : Type ℓ} where
  take-nil : (n : ℕ) → take {A = A} n [] ≡ []
  take-nil zero = refl
  take-nil (suc n) = refl

  pub take-add : (m n : ℕ) (xs : List A) → take (m + n) xs ≡ take m xs ++ take n (drop m xs)
  take-add zero n xs = rw (zero_add n)
  take-add (suc m) n [] = rw (take-nil (suc m + n), take-nil n)
  take-add (suc m) n (x ∷ xs) = rw (suc_add m n, take-add m n xs)

module _ {ℓ} {A : Type ℓ} where
  drop-all : (n : ℕ) (xs : List A) → length xs ≤ n → drop n xs ≡ []
  drop-all zero [] h = refl
  drop-all (suc n) [] h = refl
  drop-all zero (x ∷ xs) h = absurd (omega arith)
  drop-all (suc n) (x ∷ xs) h = drop-all n xs (omega arith)

  pub drop-drop : (m n : ℕ) (xs : List A) → drop n (drop m xs) ≡ drop (m + n) xs
  drop-drop zero n xs = rw (zero_add n)
  drop-drop (suc m) n [] = rw (suc_add m n) (drop-all n [] (omega arith))
  drop-drop (suc m) n (x ∷ xs) = rw (suc_add m n, drop-drop m n xs)

  -- Past its end, a list cut further is cut at its end.
  pub take-min : (n : ℕ) (xs : List A) → take n xs ≡ take (min n (length xs)) xs
  take-min n xs = elim (Bool-cases (leb n (length xs))) [
    | inl e ↦ let same : n ≡ min n (length xs) = ground arith in ap (λ k. take k xs) same
    | inr e ↦ take-all n xs (ground arith) ∙ sym (take-all (min n (length xs)) xs (ground arith))
  ]

  pub drop-min : (n : ℕ) (xs : List A) → drop n xs ≡ drop (min n (length xs)) xs
  drop-min n xs = elim (Bool-cases (leb n (length xs))) [
    | inl e ↦ let same : n ≡ min n (length xs) = ground arith in ap (λ k. drop k xs) same
    | inr e ↦ drop-all n xs (ground arith) ∙ sym (drop-all (min n (length xs)) xs (ground arith))
  ]

-- Overwriting the middle part of a buffer.
pub write_slice-middle :
    (pos : ℕ) (u v w bytes : List ℕ)
    → length u ≡ pos
    → length bytes ≡ length v
    → write_slice (u ++ (v ++ w)) pos bytes ≡ u ++ (bytes ++ w)
write_slice-middle pos u v w bytes h len = rw (
  take-at pos u (v ++ w) h,
  sym (append_assoc u v w),
  drop-at (pos + length bytes) (u ++ v) w (omega (arith, length-append u v)),
)

pub slice-middle :
    (pos n : ℕ) (u v w : List ℕ) → length u ≡ pos → length v ≡ n → slice (u ++ (v ++ w)) pos n ≡ v
slice-middle pos n u v w h len = rw (drop-at pos u (v ++ w) h) (take-at n v w len)
