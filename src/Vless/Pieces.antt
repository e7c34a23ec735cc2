-- ===== src/Vless/Pieces.antt =====
-- clash-lib/src/proxy/vless/datagram.rs: packets that do not come whole, and the loop of a poll.
use clash_rs.Prelude.{
  Bool-cases, inl, inr, take-all, drop-all, ℕ, zero, suc, ◌+◌, ◌-◌, ◌%◌, ◌/◌, ◌*◌, ◌^◌, ◌<◌, ◌≤◌,
  ◌==◌, min, false, some, List, [], ◌∷◌, ◌++◌, ◌≡◌, refl, length, length-append, arith, ltb,
}
use clash_rs.Prelude.Text.{Text}
use clash_rs.Prelude.Words.{be_bytes}
use clash_rs.Session.{SocksAddr}
use clash_rs.Streams.{Input, read_some}
use clash_rs.Vless.{Reader, Next, item, waiting, closed, read_data, read_header, poll_next}

module _ (remote : SocksAddr) (later : List Text) where
  -- One poll for each element of the fuel is enough: a round of the loop takes two bytes.
  read_header_total :
      (fuel : ℕ) (bytes : Text)
      → length bytes < fuel
      → (r : Next × Reader) × (read_header remote fuel (record { avail = bytes; later = later })
          ≡ some r)
  unfolding read_header read_some
  read_header_total zero bytes h = absurd (omega arith)
  read_header_total (suc fuel) [] h = by_later later
    where
      by_later :
          (ls : List Text)
          → (r : Next × Reader) × (read_header remote (suc fuel) (record { avail = []; later = ls })
              ≡ some r)
      by_later [] = (
        (closed, record { remaining_bytes = 0; input = record { avail = []; later = [] } }),
        refl,
      )
      by_later (c ∷ cs) = (
        (waiting, record { remaining_bytes = 0; input = record { avail = c; later = cs } }),
        refl,
      )
  read_header_total (suc fuel) (b ∷ []) h =
      ((closed, record { remaining_bytes = 0; input = record { avail = []; later = later } }), refl)
  read_header_total (suc fuel) (a ∷ (b ∷ bytes)) h =
      let n = (0 + a) * 256 + b in
      let rest : Input = record { avail = bytes; later = later } in
      elim (Bool-cases (n == 0)) [
        | inl skip ↦ let (r, ends) = read_header_total fuel bytes (omega arith) in (r, rw skip ends)
        | inr more ↦ elim (Bool-cases (ltb 8192 n)) [
          | inl long ↦
              ((closed, record { remaining_bytes = 0; input = rest }), rw (more, long) refl)
          | inr short ↦ (read_data remote n rest, rw (more, short) refl)
        ]
      ]

  -- Fuel for one round more than there are bytes is enough for every poll to return.
  pub poll_next_total :
      (fuel n : ℕ) (bytes : Text)
      → length bytes < fuel
      → (r : Next × Reader) × (poll_next remote fuel
            (record { remaining_bytes = n; input = record { avail = bytes; later = later } })
          ≡ some r)
  unfolding poll_next
  poll_next_total fuel n bytes h = elim (Bool-cases (n == 0)) [
    | inl none_left ↦ let (r, ends) = read_header_total fuel bytes h in (r, rw none_left ends)
    | inr more ↦ (read_data remote n (record { avail = bytes; later = later }), rw more refl)
  ]

  -- A packet whose payload comes in two parts is returned as two packets.
  pub poll_next-pieces :
      (fuel : ℕ) (b c : ℕ) (bs cs : Text)
      → length (b ∷ bs) + length (c ∷ cs) ≤ 8192
      → let whole = (b ∷ bs) ++ (c ∷ cs) in
        let first : Input = record {
          avail = be_bytes 2 (length whole % 2 ^ 16) ++ (b ∷ bs);
          later = (c ∷ cs) ∷ later;
        } in
        let packet = λ (bytes : Text).
          item (record { payload = bytes; src_addr = remote; dst_addr = remote }) in
        (r s : Reader) × (poll_next remote
            (suc fuel)
            (record { remaining_bytes = 0; input = first })
          ≡ some (packet (b ∷ bs), r))
        × (poll_next remote (suc fuel) r ≡ some (waiting, s))
        × (poll_next remote (suc fuel) s
            ≡ some (
              packet (c ∷ cs),
              record { remaining_bytes = 0; input = record { avail = []; later = later } },
            ))
  unfolding poll_next read_header read_some read_data
  poll_next-pieces fuel b c bs cs h =
      let total = suc (length (bs ++ c ∷ cs)) in
      let value : (0 + total % 65536 / 256 % 256) * 256 + total % 65536 % 256 ≡ total =
        omega (arith, length-append bs (c ∷ cs)) in
      let some_left : (total == 0) ≡ false = ground arith in
      let small : ltb 8192 total ≡ false = ground (arith, length-append bs (c ∷ cs)) in
      let now : min total 65536 ≡ total = omega (arith, length-append bs (c ∷ cs)) in
      let left : total - suc (length bs) ≡ suc (length cs) =
        omega (arith, length-append bs (c ∷ cs)) in
      let still : (suc (length cs) == 0) ≡ false = ground arith in
      let then_all : min (suc (length cs)) 65536 ≡ suc (length cs) = omega arith in
      let nothing : suc (length cs) - suc (length cs) ≡ 0 = omega arith in
      (
        record {
          remaining_bytes = suc (length cs);
          input = record { avail = []; later = (c ∷ cs) ∷ later };
        },
        record {
          remaining_bytes = suc (length cs);
          input = record { avail = c ∷ cs; later = later };
        },
        rw
            (
              value,
              some_left,
              small,
              now,
              take-all (length (bs ++ c ∷ cs)) bs (omega (arith, length-append bs (c ∷ cs))),
              drop-all (length (bs ++ c ∷ cs)) bs (omega (arith, length-append bs (c ∷ cs))),
              left,
            )
            refl,
        rw still refl,
        rw
            (
              still,
              then_all,
              take-all (length cs) cs (omega arith),
              drop-all (length cs) cs (omega arith),
              nothing,
            )
            refl,
      )
