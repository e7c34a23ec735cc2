-- ===== src/RingBuffer/Steps.antt =====
-- clash-netstack/src/ring_buffer.rs: the calls of the two threads in any order.
use clash_rs.Prelude.{
  sym, ap, ◌∙◌, ◌+◌, ◌==◌, take-append-drop, Bool-cases, inl, inr, false, length-append, ◌+◌, [], ℕ,
  ◌<◌, List, ◌++◌, ◌≡◌, refl, append_assoc, length, take, drop, arith,
}
use clash_rs.RingBuffer.{Ring, new, enqueue_slice, dequeue_slice, is_empty, is_full}
use native.Mathlib.Nat.{mod-eq_of_lt, mod_self}
use clash_rs.RingBuffer.Queue.{Holds, new-Holds, straight, wrapped}
use clash_rs.RingBuffer.Fill.{enqueue_slice-Holds}
use clash_rs.RingBuffer.Read.{dequeue_slice-taken, dequeue_slice-Holds}

-- The calls from a new ring to the present one, with all the bytes that went in and came out.
pub data Reached (capacity : ℕ) : Ring → List ℕ → List ℕ → Type 0 where
  started : Reached capacity (new capacity) [] []
  wrote :
      {r : Ring} {written read : List ℕ}
      → Reached capacity r written read
      → (bytes : List ℕ)
      → Reached capacity
          (enqueue_slice r bytes).0
          (written ++ take (enqueue_slice r bytes).1 bytes)
          read
  took :
      {r : Ring} {written read : List ℕ}
      → Reached capacity r written read
      → (buf : List ℕ)
      → Reached capacity
          (dequeue_slice r buf).0
          written
          (read ++ take (dequeue_slice r buf).2 (dequeue_slice r buf).1)

-- In every order of the two threads' calls on a ring of positive capacity, what was read is the beginning of what was written, and
-- the ring holds the rest: no byte is lost, doubled or reordered.
pub Reached-Holds :
    {capacity : ℕ} {r : Ring} {written read : List ℕ}
    → 0 < capacity
    → Reached capacity r written read
    → (q : List ℕ) × Holds r q × (written ≡ read ++ q)
Reached-Holds h started = ([], new-Holds _ h, refl)
Reached-Holds h (wrote {r = r} {read = read} s bytes) =
    let (q, holds, e) = Reached-Holds h s in
    (
      _,
      (enqueue_slice-Holds holds bytes).1,
      ap (λ x. x ++ take (enqueue_slice r bytes).1 bytes) e
          ∙ append_assoc read q (take (enqueue_slice r bytes).1 bytes),
    )
Reached-Holds h (took {read = read} s buf) =
    let (q, holds, e) = Reached-Holds h s in
    (
      _,
      (dequeue_slice-Holds holds buf).2,
      e
          ∙ ap (λ x. read ++ x) (sym (take-append-drop (length buf) q))
          ∙ sym (append_assoc read (take (length buf) q) (drop (length buf) q))
          ∙ ap (λ x. (read ++ x) ++ drop (length buf) q) (sym (dequeue_slice-taken holds buf)),
    )

-- `is_empty` holds of a ring with a queue exactly if the queue has no byte.
pub is_empty-Holds : {r : Ring} {q : List ℕ} → Holds r q → is_empty r ≡ (length q == 0)
unfolding is_empty
is_empty-Holds (straight a q b hb) = ground arith
is_empty-Holds (wrapped q₂ g q₁ hg hq) = ground (arith, length-append q₁ q₂)

one_more : (a q : ℕ) {b : ℕ} → 0 < b → (b == 1) ≡ false → a + q + 1 < a + (q + b)
one_more a q h e = ground arith

-- `is_full` holds of a ring with a queue exactly if the queue has `capacity - 1` bytes.
pub is_full-Holds : {r : Ring} {q : List ℕ} → Holds r q → is_full r ≡ (length q + 1 == r.capacity)
unfolding is_full
is_full-Holds (straight a q b hb) = elim (Bool-cases (length b == 1)) [
  | inl e ↦
      let full : length a + length q + 1 ≡ length a + (length q + length b) = ground arith in
      rw (full, mod_self (length a + (length q + length b))) (ground arith)
  | inr e ↦ rw (mod-eq_of_lt (one_more (length a) (length q) hb e)) (ground arith)
]
is_full-Holds (wrapped q₂ g q₁ hg hq) =
    let room : length q₂ + 1 < length q₂ + (length g + length q₁) = omega arith in
    rw (mod-eq_of_lt room) (ground (arith, length-append q₁ q₂))
