-- ===== src/RingBuffer/Examples.antt =====
-- A ring of four bytes that holds at most three, and the theorems about its calls.
use clash_rs.Prelude.{◌≡◌, refl, List, ℕ, [], ◌∷◌, ◌++◌, take, arith}
use clash_rs.RingBuffer.{Ring, new, enqueue_slice, dequeue_slice}
use clash_rs.RingBuffer.Queue.{Holds, new-Holds}
use clash_rs.RingBuffer.Fill.{enqueue_slice-Holds}
use clash_rs.RingBuffer.Steps.{Reached, Reached-Holds, started, wrote, took}

abbrev four : List ℕ
four = 1 ∷ 2 ∷ 3 ∷ 4 ∷ []

abbrev two : List ℕ
two = 0 ∷ 0 ∷ []

abbrev empty_ring : Ring
empty_ring = record { buffer = 0 ∷ 0 ∷ 0 ∷ 0 ∷ []; capacity = 4; write_pos = 0; read_pos = 0 }

abbrev full_ring : Ring
full_ring = record { buffer = 1 ∷ 2 ∷ 3 ∷ 0 ∷ []; capacity = 4; write_pos = 3; read_pos = 0 }

abbrev wrapped_around : Ring
wrapped_around = record { buffer = 6 ∷ 2 ∷ 3 ∷ 5 ∷ []; capacity = 4; write_pos = 1; read_pos = 2 }

new-empty_ring : new 4 ≡ empty_ring
unfolding new
new-empty_ring = refl

fills : enqueue_slice empty_ring four ≡ (full_ring, 3)
unfolding enqueue_slice
fills = refl

reads : dequeue_slice full_ring two ≡ (record full_ring { read_pos = 2 }, 1 ∷ 2 ∷ [], 2)
unfolding dequeue_slice
reads = refl

wraps : enqueue_slice (record full_ring { read_pos = 2 }) (5 ∷ 6 ∷ 7 ∷ []) ≡ (wrapped_around, 2)
unfolding enqueue_slice
wraps = refl

empty-Holds : Holds empty_ring []
unfolding new
empty-Holds = new-Holds 4 (omega arith)

full-Holds : Holds full_ring (1 ∷ 2 ∷ 3 ∷ [])
unfolding enqueue_slice
full-Holds = (enqueue_slice-Holds empty-Holds four).1

abbrev first_ring : Ring
first_ring = (enqueue_slice (new 4) four).0

calls :
    Reached 4
      (dequeue_slice first_ring two).0
      ([] ++ take (enqueue_slice (new 4) four).1 four)
      ([] ++ take (dequeue_slice first_ring two).2 (dequeue_slice first_ring two).1)
calls = took (wrote started four) two

Reached-Holds_example :
    (q : List ℕ) × Holds (dequeue_slice first_ring two).0 q
    × ([] ++ take (enqueue_slice (new 4) four).1 four
        ≡ ([] ++ take (dequeue_slice first_ring two).2 (dequeue_slice first_ring two).1) ++ q)
Reached-Holds_example = Reached-Holds {capacity = 4} (omega arith) calls
