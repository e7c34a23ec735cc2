-- ===== src/RingBuffer/Read.antt =====
-- clash-netstack/src/ring_buffer.rs: `dequeue_slice` on a ring that holds a queue.
use clash_rs.Prelude.{
  length-take, ltb, ◌∙◌, ◌≤◌, ℕ, ◌+◌, ◌-◌, ◌%◌, ◌<◌, ◌==◌, leb, min, true, false, List, [], ◌++◌,
  ◌≡◌, refl, sym, ap, append_assoc, append-nil, length, length-append, take, drop, Bool-cases, inl,
  inr, arith,
}
use clash_rs.RingBuffer.{Ring, dequeue_slice, copied}
use clash_rs.RingBuffer.Slices.{cut, take-at, drop-at, take-min, drop-min, slice-middle}
use clash_rs.RingBuffer.Queue.{
  Holds, straight, wrapped, straight_ring, wrapped_ring, Holds-straight, Holds-wrapped,
  available_data-Holds,
}
use native.Mathlib.Nat.{mod-eq_of_lt, mod_self, mod-eq-sub-mod}

abbrev after_read : Ring → ℕ → Ring
after_read r n = record r { read_pos = (r.read_pos + n) % r.capacity }

-- What is read and what is left, for a queue that begins with the bytes that are read.
abbrev Reads : Ring → ℕ → List ℕ → Type 0
Reads r n q =
    (u v : List ℕ) × (q ≡ u ++ v) × (length u ≡ n) × (copied r n ≡ u) × Holds (after_read r n) v

copied-one :
    (r : Ring) (u v w : List ℕ) (n : ℕ)
    → r.read_pos + n ≤ r.capacity
    → r.buffer ≡ u ++ (v ++ w)
    → length u ≡ r.read_pos
    → length v ≡ n
    → copied r n ≡ v
copied-one r u v w n fits e hu hv =
    let test : leb (r.read_pos + n) r.capacity ≡ true = ground arith in
    rw (test, e) (slice-middle r.read_pos n u v w hu hv)

Reads-first :
    (q₂ g q₁ : List ℕ) (n : ℕ)
    → 0 < length g
    → n < length q₁
    → Reads (wrapped_ring q₂ g q₁) n (q₁ ++ q₂)
Reads-first q₂ g q₁ n hg h =
    let (x, y, e, len) = cut n q₁ (omega arith) in
    let lq : length q₁ ≡ n + length y = omega (arith, ap length e, length-append x y, len) in
    let lgx : length (g ++ x) ≡ length g + n = omega (arith, length-append g x, len) in
    let whole : q₂ ++ (g ++ q₁) ≡ (q₂ ++ g) ++ (x ++ y) =
      sym (append_assoc q₂ g q₁) ∙ ap (λ z. (q₂ ++ g) ++ z) e in
    (
      x,
      y ++ q₂,
      ap (λ z. z ++ q₂) e ∙ append_assoc x y q₂,
      len,
      copied-one (wrapped_ring q₂ g q₁) (q₂ ++ g) x y n (omega arith) whole (length-append q₂ g)
          len,
      Holds-wrapped q₂ (g ++ x) y (omega arith) (omega arith)
          (ap (λ z. q₂ ++ (g ++ z)) e ∙ ap (λ z. q₂ ++ z) (sym (append_assoc g x y))) (omega arith)
          refl (mod-eq_of_lt (omega arith) ∙ omega arith),
    )

Reads-to_end :
    (q₂ g q₁ : List ℕ) (n : ℕ)
    → 0 < length g
    → 0 < length q₁
    → n ≡ length q₁
    → Reads (wrapped_ring q₂ g q₁) n (q₁ ++ q₂)
Reads-to_end q₂ g q₁ n hg hq h =
    let full : length q₂ + length g + n ≡ length q₂ + (length g + length q₁) = omega arith in
    let lgq : length (g ++ q₁) ≡ length g + length q₁ = length-append g q₁ in
    (
      q₁,
      q₂,
      refl,
      sym h,
      copied-one (wrapped_ring q₂ g q₁) (q₂ ++ g) q₁ [] n (omega arith)
          (sym (append_assoc q₂ g q₁) ∙ ap (λ z. (q₂ ++ g) ++ z) (sym (append-nil q₁)))
          (length-append q₂ g) (sym h),
      Holds-straight [] q₂ (g ++ q₁) (omega arith) refl (omega arith) (omega arith)
          (rw full (mod_self (length q₂ + (length g + length q₁)))),
    )

copied-two :
    (r : Ring) (u v x w : List ℕ) (n : ℕ)
    → r.capacity < r.read_pos + n
    → r.buffer ≡ u ++ v
    → r.buffer ≡ x ++ w
    → length u ≡ r.read_pos
    → length x ≡ n - (r.capacity - r.read_pos)
    → copied r n ≡ v ++ x
copied-two r u v x w n over e e' hu hx =
    let test : leb (r.read_pos + n) r.capacity ≡ false = ground arith in
    let front : drop r.read_pos r.buffer ≡ v =
      ap (λ z. drop r.read_pos z) e ∙ drop-at r.read_pos u v hu in
    let back : take (n - (r.capacity - r.read_pos)) r.buffer ≡ x =
      ap (λ z. take (n - (r.capacity - r.read_pos)) z) e'
      ∙ take-at (n - (r.capacity - r.read_pos)) x w hx in
    rw (test, front, back) refl

Reads-around :
    (q₂ g q₁ : List ℕ) (n : ℕ)
    → 0 < length g
    → 0 < length q₁
    → length q₁ < n
    → n ≤ length q₁ + length q₂
    → Reads (wrapped_ring q₂ g q₁) n (q₁ ++ q₂)
Reads-around q₂ g q₁ n hg hq h h' =
    let (x, y, e, len) = cut (n - length q₁) q₂ (omega arith) in
    let lq : length q₂ ≡ (n - length q₁) + length y =
      omega (arith, ap length e, length-append x y, len) in
    let lgq : length (g ++ q₁) ≡ length g + length q₁ = length-append g q₁ in
    let whole : q₂ ++ (g ++ q₁) ≡ x ++ (y ++ (g ++ q₁)) =
      ap (λ z. z ++ (g ++ q₁)) e ∙ append_assoc x y (g ++ q₁) in
    (
      q₁ ++ x,
      y,
      ap (λ z. q₁ ++ z) e ∙ sym (append_assoc q₁ x y),
      omega (arith, length-append q₁ x, len),
      copied-two (wrapped_ring q₂ g q₁) (q₂ ++ g) q₁ x (y ++ (g ++ q₁)) n (omega arith)
          (sym (append_assoc q₂ g q₁)) whole (length-append q₂ g) (omega arith),
      Holds-straight x y (g ++ q₁) (omega arith) whole (omega arith) (omega arith)
          (mod-eq-sub-mod (omega arith) ∙ mod-eq_of_lt (omega arith) ∙ omega arith),
    )

read-Reads : {r : Ring} {q : List ℕ} → Holds r q → (n : ℕ) → n ≤ length q → Reads r n q
read-Reads (straight a q b hb) n h =
    let (x, y, e, len) = cut n q h in
    let lq : length q ≡ n + length y = omega (arith, ap length e, length-append x y, len) in
    let lax : length (a ++ x) ≡ length a + n = omega (arith, length-append a x, len) in
    (
      x,
      y,
      e,
      len,
      copied-one (straight_ring a q b) a x (y ++ b) n (omega arith)
          (ap (λ z. a ++ (z ++ b)) e ∙ ap (λ z. a ++ z) (append_assoc x y b)) refl len,
      Holds-straight (a ++ x) y b hb
          (ap (λ z. a ++ (z ++ b)) e
            ∙ ap (λ z. a ++ z) (append_assoc x y b)
            ∙ sym (append_assoc a x (y ++ b)))
          (omega arith) (omega arith) (mod-eq_of_lt (omega arith) ∙ omega arith),
    )
read-Reads (wrapped q₂ g q₁ hg hq) n h = elim (Bool-cases (ltb n (length q₁))) [
  | inl e ↦ Reads-first q₂ g q₁ n hg (ground arith)
  | inr e ↦ elim (Bool-cases (n == length q₁)) [
    | inl same ↦ Reads-to_end q₂ g q₁ n hg hq (ground arith)
    | inr more ↦ Reads-around q₂ g q₁ n hg hq (ground arith) (omega (arith, length-append q₁ q₂))
  ]
]

-- `dequeue_slice` moves the first bytes of the queue to the front of the caller's slice, as many as
-- there are and fit, leaves the rest of the slice alone and returns their number.
pub dequeue_slice-Holds :
    {r : Ring} {q : List ℕ}
    → Holds r q
    → (buf : List ℕ)
    → ((dequeue_slice r buf).2 ≡ min (length buf) (length q))
      × ((dequeue_slice r buf).1 ≡ take (length buf) q ++ drop (length q) buf)
      × Holds (dequeue_slice r buf).0 (drop (length buf) q)
unfolding dequeue_slice
dequeue_slice-Holds {r} {q} h buf =
    let buf_left : drop (length q) buf ≡ drop (min (length buf) (length q)) buf =
      drop-min (length q) buf ∙ ap (λ n. drop n buf) (omega arith) in
    elim (Bool-cases (min (length buf) (length q) == 0)) [
      | inl none_read ↦
          let zero_read : min (length buf) (length q) ≡ 0 = ground arith in
          rw
            (
              available_data-Holds h,
              none_read,
              take-min (length buf) q,
              drop-min (length buf) q,
              buf_left,
              zero_read,
            )
            (refl, refl, h)
      | inr some_read ↦
          let (u, v, e, len, out, rest) =
            read-Reads h (min (length buf) (length q)) (omega arith) in
          rw
            (
              available_data-Holds h,
              some_read,
              out,
              buf_left,
              take-min (length buf) q
                  ∙ ap (λ z. take (min (length buf) (length q)) z) e
                  ∙ take-at (min (length buf) (length q)) u v len,
              drop-min (length buf) q
                  ∙ ap (λ z. drop (min (length buf) (length q)) z) e
                  ∙ drop-at (min (length buf) (length q)) u v len,
            )
            (refl, refl, rest)
    ]

-- The bytes that a call hands over.
pub dequeue_slice-taken :
    {r : Ring} {q : List ℕ}
    → Holds r q
    → (buf : List ℕ) → take (dequeue_slice r buf).2 (dequeue_slice r buf).1 ≡ take (length buf) q
dequeue_slice-taken {q = q} h buf =
    let (count, out, rest) = dequeue_slice-Holds h buf in
    rw (count, out)
      (take-at (min (length buf) (length q)) (take (length buf) q) (drop (length q) buf)
        (length-take (length buf) q))
