-- ===== src/RingBuffer/Fill.antt =====
-- clash-netstack/src/ring_buffer.rs: `enqueue_slice` on a ring that holds a queue.
use clash_rs.Prelude.{
  ltb, subst, ◌∙◌, ◌≤◌, ℕ, ◌+◌, ◌-◌, ◌%◌, ◌<◌, ◌==◌, leb, min, true, false, List, [], ◌++◌, ◌≡◌,
  refl, sym, ap, append_assoc, append-nil, length, length-append, length-take, length-drop, take,
  drop, Bool-cases, inl, inr, arith,
}
use clash_rs.RingBuffer.{Ring, enqueue_slice, filled, available_space, write_slice, slice}
use clash_rs.RingBuffer.Slices.{take-add, cut, write_slice-middle}
use clash_rs.RingBuffer.Queue.{
  Holds, straight, wrapped, straight_ring, wrapped_ring, Holds-straight, Holds-wrapped,
  available_space-Holds,
}
use native.Mathlib.Nat.{mod-eq_of_lt, mod_self, mod-eq-sub-mod}

abbrev after_fill : Ring → List ℕ → ℕ → Ring
after_fill r bytes n = record r {
  buffer = filled r bytes n;
  write_pos = (r.write_pos + n) % r.capacity;
}

-- One write, and the two writes around the end of the buffer.
filled-one :
    (r : Ring) (bytes u v w : List ℕ) (n : ℕ)
    → n ≤ length bytes
    → r.write_pos + n ≤ r.capacity
    → r.buffer ≡ u ++ (v ++ w)
    → length u ≡ r.write_pos
    → length v ≡ n
    → filled r bytes n ≡ u ++ (take n bytes ++ w)
filled-one r bytes u v w n hn fits e hu hv =
    let test : leb (r.write_pos + n) r.capacity ≡ true = ground arith in
    rw (test, e)
      (write_slice-middle r.write_pos u v w (take n bytes) hu (omega (arith, length-take n bytes)))

filled-two :
    (r : Ring) (bytes v w b : List ℕ) (n : ℕ)
    → n ≤ length bytes
    → r.capacity < r.write_pos + n
    → r.buffer ≡ (v ++ w) ++ b
    → length (v ++ w) ≡ r.write_pos
    → length b ≡ r.capacity - r.write_pos
    → length v ≡ n - length b
    → filled r bytes n ≡ slice bytes (length b) (n - length b) ++ (w ++ take (length b) bytes)
filled-two r bytes v w b n hn over e hu hb hv =
    let test : leb (r.write_pos + n) r.capacity ≡ false = ground arith in
    let part : List ℕ = slice bytes (length b) (n - length b) in
    let inner : write_slice r.buffer r.write_pos (take (length b) bytes)
        ≡ v ++ (w ++ take (length b) bytes) =
      ap (λ x. write_slice x r.write_pos (take (length b) bytes))
        (e ∙ ap (λ y. (v ++ w) ++ y) (sym (append-nil b)))
      ∙ write_slice-middle r.write_pos (v ++ w) b [] (take (length b) bytes) hu
          (omega (arith, length-take (length b) bytes))
      ∙ append_assoc v w (take (length b) bytes ++ [])
      ∙ ap (λ x. v ++ (w ++ x)) (append-nil (take (length b) bytes)) in
    rw (test, sym hb, inner)
      (write_slice-middle 0 [] v (w ++ take (length b) bytes) part refl (
        omega (
          arith,
          length-take (n - length b) (drop (length b) bytes),
          length-drop (length b) bytes,
        )))

filled-straight :
    (a q b : List ℕ) (bytes : List ℕ) (n : ℕ)
    → n ≤ length bytes
    → n < length b
    → Holds (after_fill (straight_ring a q b) bytes n) (q ++ take n bytes)
filled-straight a q b bytes n h₁ h₂ =
    let (b₁, b₂, e, len) = cut n b (omega arith) in
    let lb : length b ≡ n + length b₂ = omega (arith, ap length e, length-append b₁ b₂, len) in
    let lq : length (q ++ take n bytes) ≡ length q + n =
      omega (arith, length-append q (take n bytes), length-take n bytes) in
    Holds-straight a (q ++ take n bytes) b₂ (omega arith)
      (filled-one (straight_ring a q b) bytes (a ++ q) b₁ b₂ n h₁ (omega arith)
          (ap (λ x. a ++ (q ++ x)) e ∙ sym (append_assoc a q (b₁ ++ b₂))) (length-append a q) len
        ∙ append_assoc a q (take n bytes ++ b₂)
        ∙ ap (λ x. a ++ x) (sym (append_assoc q (take n bytes) b₂)))
      (omega arith) (mod-eq_of_lt (omega arith) ∙ omega arith) refl

filled-to_end :
    (a q b : List ℕ) (bytes : List ℕ) (n : ℕ)
    → n ≤ length bytes
    → n ≡ length b
    → 0 < length b
    → 0 < length a
    → Holds (after_fill (straight_ring a q b) bytes n) (q ++ take n bytes)
filled-to_end a q b bytes n h₁ h₂ hb ha =
    let lq : length (q ++ take n bytes) ≡ length q + n =
      omega (arith, length-append q (take n bytes), length-take n bytes) in
    let full : length a + length q + n ≡ length a + (length q + length b) = omega arith in
    subst (λ c. Holds (after_fill (straight_ring a q b) bytes n) c) (append-nil (q ++ take n bytes))
      (Holds-wrapped {r = after_fill (straight_ring a q b) bytes n} [] a (q ++ take n bytes) ha
        (omega arith)
        (filled-one (straight_ring a q b) bytes (a ++ q) b [] n h₁ (omega arith)
            (rw (append-nil b) (sym (append_assoc a q b))) (length-append a q) (sym h₂)
          ∙ rw (append-nil (take n bytes)) (append_assoc a q (take n bytes)))
        (omega arith) (rw full (mod_self (length a + (length q + length b)))) (omega arith))

filled-around :
    (a q b : List ℕ) (bytes : List ℕ) (n : ℕ)
    → n ≤ length bytes
    → length b < n
    → 0 < length b
    → n < length a + length b
    → Holds (after_fill (straight_ring a q b) bytes n) (q ++ take n bytes)
filled-around a q b bytes n h₁ h₂ hb ha =
    let (a₁, a₂, e, len) = cut (n - length b) a (omega arith) in
    let first : List ℕ = take (length b) bytes in
    let part : List ℕ = slice bytes (length b) (n - length b) in
    let la : length a ≡ (n - length b) + length a₂ =
      omega (arith, ap length e, length-append a₁ a₂, len) in
    let lp : length part ≡ n - length b =
      omega
        (arith, length-take (n - length b) (drop (length b) bytes), length-drop (length b) bytes) in
    let lq : length (q ++ first) ≡ length q + length b =
      omega (arith, length-append q first, length-take (length b) bytes) in
    let sum : n ≡ length b + (n - length b) = omega arith in
    let whole : take n bytes ≡ first ++ part =
      ap (λ k. take k bytes) sum ∙ take-add (length b) (n - length b) bytes in
    subst (λ c. Holds (after_fill (straight_ring a q b) bytes n) c)
      (append_assoc q first part ∙ ap (λ x. q ++ x) (sym whole))
      (Holds-wrapped {r = after_fill (straight_ring a q b) bytes n} part a₂ (q ++ first)
        (omega arith) (omega arith)
        (filled-two (straight_ring a q b) bytes a₁ (a₂ ++ q) b n h₁ (omega arith)
            (ap (λ x. x ++ (q ++ b)) e
              ∙ append_assoc a₁ a₂ (q ++ b)
              ∙ ap (λ x. a₁ ++ x) (sym (append_assoc a₂ q b))
              ∙ sym (append_assoc a₁ (a₂ ++ q) b))
            (omega (arith, length-append a₁ (a₂ ++ q), length-append a₂ q)) (omega arith) len
          ∙ ap (λ x. part ++ x) (append_assoc a₂ q first))
        (omega arith) (mod-eq-sub-mod (omega arith) ∙ mod-eq_of_lt (omega arith) ∙ omega arith)
        (omega arith))

filled-wrapped :
    (q₂ g q₁ : List ℕ) (bytes : List ℕ) (n : ℕ)
    → 0 < length q₁
    → n ≤ length bytes
    → n < length g
    → Holds (after_fill (wrapped_ring q₂ g q₁) bytes n) ((q₁ ++ q₂) ++ take n bytes)
filled-wrapped q₂ g q₁ bytes n hq h₁ h₂ =
    let (g₁, g₂, e, len) = cut n g (omega arith) in
    let lg : length g ≡ n + length g₂ = omega (arith, ap length e, length-append g₁ g₂, len) in
    let lq : length (q₂ ++ take n bytes) ≡ length q₂ + n =
      omega (arith, length-append q₂ (take n bytes), length-take n bytes) in
    subst (λ c. Holds (after_fill (wrapped_ring q₂ g q₁) bytes n) c)
      (sym (append_assoc q₁ q₂ (take n bytes)))
      (Holds-wrapped {r = after_fill (wrapped_ring q₂ g q₁) bytes n} (q₂ ++ take n bytes) g₂ q₁
        (omega arith) hq
        (filled-one (wrapped_ring q₂ g q₁) bytes q₂ g₁ (g₂ ++ q₁) n h₁ (omega arith)
            (rw e (ap (λ x. q₂ ++ x) (append_assoc g₁ g₂ q₁))) refl len
          ∙ sym (append_assoc q₂ (take n bytes) (g₂ ++ q₁)))
        (omega arith) (mod-eq_of_lt (omega arith) ∙ omega arith) (omega arith))

filled-Holds :
    {r : Ring} {q : List ℕ}
    → Holds r q
    → (bytes : List ℕ) (n : ℕ) → n ≤ length bytes
    → n ≤ available_space r
    → Holds (after_fill r bytes n) (q ++ take n bytes)
filled-Holds (straight a q b hb) bytes n h₁ h₂ = elim (Bool-cases (ltb n (length b))) [
  | inl e ↦ filled-straight a q b bytes n h₁ (ground arith)
  | inr e ↦ elim (Bool-cases (n == length b)) [
    | inl same ↦ filled-to_end a q b bytes n h₁ (ground arith) hb (ground arith)
    | inr more ↦ filled-around a q b bytes n h₁ (ground arith) hb (ground arith)
  ]
]
filled-Holds (wrapped q₂ g q₁ hg hq) bytes n h₁ h₂ =
    filled-wrapped q₂ g q₁ bytes n hq h₁ (ground arith)

-- `enqueue_slice` adds the first bytes that fit, at most `capacity - 1` in all, and returns their
-- number.
pub enqueue_slice-Holds :
    {r : Ring} {q : List ℕ}
    → Holds r q
    → (bytes : List ℕ)
    → ((enqueue_slice r bytes).1 ≡ min (length bytes) (r.capacity - 1 - length q))
      × Holds (enqueue_slice r bytes).0 (q ++ take (enqueue_slice r bytes).1 bytes)
unfolding enqueue_slice
enqueue_slice-Holds {r} {q} h bytes =
    let room : available_space r ≡ r.capacity - 1 - length q =
      omega (arith, available_space-Holds h) in
    elim (Bool-cases (min (length bytes) (available_space r) == 0)) [
      | inl e ↦ rw e (ground arith, rw (append-nil q) h)
      | inr e ↦ rw e (
        ap (λ k. min (length bytes) k) room,
        filled-Holds h bytes (min (length bytes) (available_space r)) (omega arith) (omega arith),
      )
    ]
