-- ===== src/Hysteria2/Fragments.antt =====
-- clash-lib/src/proxy/hysteria2/codec.rs: the datagrams that `Fragments` makes of a payload.
use native.Mathlib.Nat.{suc-mul, zero-mul, div-lt_iff_lt-mul, lt-div-mul-add}
use clash_rs.Prelude.{
  ℕ, zero, suc, ◌+◌, ◌-◌, ◌*◌, ◌≤◌, ◌<◌, ◌≡◌, refl, sym, ap, ◌∙◌, min, ltb, true, false, some, List,
  [], ◌∷◌, ◌++◌, length, length-drop, drop, take, arith,
}
use clash_rs.Prelude.Text.{Text}
use clash_rs.RingBuffer.Slices.{take-add, take-min, drop-min, drop-drop}
use clash_rs.Hysteria2.{Codecs, Iter, div_ceil, header, next, collect}

abbrev pub chunk_size : Iter → ℕ
chunk_size it = it.max_pkt_size - it.fixed_size

-- The payload of the fragment `j`.
abbrev pub chunk : Iter → ℕ → Text
chunk it j = take (chunk_size it) (drop (j * chunk_size it) it.payload)

abbrev pub chunks : Iter → ℕ → ℕ → Text
chunks it j zero = []
chunks it j (suc c) = chunk it j ++ chunks it (suc j) c

-- The iterator when `j` fragments have been taken.
abbrev pub at : Iter → ℕ → Iter
at it j = record it {
  next_frag_id = j;
  next_frag_start = min (j * chunk_size it) (length it.payload);
}

module _ (codecs : Codecs) where
  abbrev pub datagram : Iter → ℕ → Text
  datagram it j = header codecs it j ++ chunk it j

  abbrev pub datagrams : Iter → ℕ → ℕ → List Text
  datagrams it j zero = []
  datagrams it j (suc c) = datagram it j ∷ datagrams it (suc j) c

chunk_start :
    (m start : ℕ) (p : Text)
    → start ≤ length p
    → take (min (start + m) (length p) - start) (drop start p) ≡ take m (drop start p)
chunk_start m start p h =
    let same : min (start + m) (length p) - start ≡ min m (length (drop start p)) =
      omega (arith, length-drop start p) in
    ap (λ k. take k (drop start p)) same ∙ sym (take-min m (drop start p))

module _ (codecs : Codecs) (it : Iter) where
  -- Each step writes the next datagram.
  next-at :
      (j : ℕ)
      → j < it.frag_total
      → next codecs (at it j) ≡ some (datagram codecs it j, at it (suc j))
  unfolding next
  next-at j h =
      let start = min (j * chunk_size it) (length it.payload) in
      let test : ltb j it.frag_total ≡ true = ground arith in
      let piece : take (min (start + chunk_size it) (length it.payload) - start)
            (drop start it.payload)
          ≡ chunk it j =
        chunk_start (chunk_size it) start it.payload (omega arith)
        ∙ ap (take (chunk_size it)) (sym (drop-min (j * chunk_size it) it.payload)) in
      let end : min (start + chunk_size it) (length it.payload)
          ≡ min (suc j * chunk_size it) (length it.payload) =
        omega (arith, suc-mul j (chunk_size it)) in
      let number : j + 1 ≡ suc j = omega arith in rw (test, piece, end, number)

  -- The loop over the iterator writes all datagrams when it has as many rounds.
  pub collect-at :
      (fuel j c : ℕ)
      → j + c ≡ it.frag_total
      → c ≤ fuel
      → collect codecs fuel (at it j) ≡ datagrams codecs it j c
  unfolding collect
  collect-at zero j zero total enough = refl
  collect-at zero j (suc c) total enough = absurd (omega arith)
  collect-at (suc fuel) j zero total enough =
      let test : ltb j it.frag_total ≡ false = ground arith in rw test refl
  collect-at (suc fuel) j (suc c) total enough =
      rw (next-at j (omega arith)) (
        ap (λ ds. datagram codecs it j ∷ ds)
          (collect-at fuel (suc j) c (omega arith) (omega arith)))

  -- The chunks of the payload are the payload.
  pub chunks-drop :
      (j c : ℕ) → chunks it j c ≡ take (c * chunk_size it) (drop (j * chunk_size it) it.payload)
  chunks-drop j zero =
      let none_left : 0 * chunk_size it ≡ 0 = zero-mul (chunk_size it) in rw none_left refl
  chunks-drop j (suc c) =
      let m = chunk_size it in
      let count : suc c * m ≡ m + c * m = omega (arith, suc-mul c m) in
      let start : suc j * m ≡ j * m + m = suc-mul j m in
      rw (
        count,
        take-add m (c * m) (drop (j * m) it.payload),
        drop-drop (j * m) m it.payload,
        chunks-drop (suc j) c,
        start,
      )

pub div_ceil-bounds :
    (n m : ℕ) → 0 < m → n ≤ 255 * m → (div_ceil n m < 256) × (n ≤ div_ceil n m * m)
div_ceil-bounds n m pos h =
    ((div-lt_iff_lt-mul pos).1 (omega arith), omega (arith, lt-div-mul-add {a = n + m - 1} pos))
