-- ===== src/Streams.antt =====
-- clash-lib/src/proxy/datagram.rs, and the streams of tokio as the UDP outbounds over a stream use
-- them: what each poll of the stream below does is chosen by the environment.
use clash_rs.Prelude.{
  ℕ, zero, suc, ap, List, [], ◌∷◌, ◌++◌, length, take, drop, leb, if◌then◌else◌, ◌≡◌, refl, arith,
  length-append, take-append, drop-append, take-append-drop,
}
use clash_rs.Prelude.Text.{Text}
use clash_rs.Session.{SocksAddr}

-- The field `payload` is the source's `data`.
pub record UdpPacket : Type 0 where
  pub payload : Text
  pub src_addr : SocksAddr
  pub dst_addr : SocksAddr

-- A call of `poll_write` takes that many bytes, or all that there are if they are fewer.
pub data Accept : Type 0 where
  wrote : ℕ → Accept
  blocked failed : Accept

-- What a `poll_*` that yields no value returns.
pub data Polled : Type 0 where
  pending done broken : Polled

-- `while !payload.is_empty()`, with a call of `poll_write` for each element of the script; the
-- stream is blocked where the script ends. The second part is what the stream below took.
unfoldable pub drain : List Accept → Text → Polled × Text
drain script [] = (done, [])
drain [] (b ∷ bs) = (pending, [])
drain (blocked ∷ script) (b ∷ bs) = (pending, [])
drain (failed ∷ script) (b ∷ bs) = (broken, [])
drain (wrote n ∷ script) (b ∷ bs) =
    let (r, out) = drain script (drop n (b ∷ bs)) in (r, take n (b ∷ bs) ++ out)

-- A loop that ends well has written every byte, once and in order.
pub drain-done :
    (script : List Accept) (bs : Text) → (drain script bs).0 ≡ done → (drain script bs).1 ≡ bs
unfolding drain
drain-done [] [] h = refl
drain-done (a ∷ script) [] h = refl
drain-done [] (b ∷ bs) h = absurd (ground (arith, h))
drain-done (blocked ∷ script) (b ∷ bs) h = absurd (ground (arith, h))
drain-done (failed ∷ script) (b ∷ bs) h = absurd (ground (arith, h))
drain-done (wrote n ∷ script) (b ∷ bs) h =
    rw (drain-done script (drop n (b ∷ bs)) h) (take-append-drop n (b ∷ bs))

-- `write_all`: a call of `poll_write` that takes nothing is an error.
unfoldable pub write_all : List Accept → Text → Polled × Text
write_all script [] = (done, [])
write_all [] (b ∷ bs) = (pending, [])
write_all (blocked ∷ script) (b ∷ bs) = (pending, [])
write_all (failed ∷ script) (b ∷ bs) = (broken, [])
write_all (wrote zero ∷ script) (b ∷ bs) = (broken, [])
write_all (wrote (suc n) ∷ script) (b ∷ bs) =
    let (r, out) = write_all script (drop n bs) in (r, b ∷ (take n bs ++ out))

-- A `write_all` that ends well has written every byte, once and in order.
pub write_all-done :
    (script : List Accept) (bs : Text)
    → (write_all script bs).0 ≡ done
    → (write_all script bs).1 ≡ bs
unfolding write_all
write_all-done [] [] h = refl
write_all-done (a ∷ script) [] h = refl
write_all-done [] (b ∷ bs) h = absurd (ground (arith, h))
write_all-done (blocked ∷ script) (b ∷ bs) h = absurd (ground (arith, h))
write_all-done (failed ∷ script) (b ∷ bs) h = absurd (ground (arith, h))
write_all-done (wrote zero ∷ script) (b ∷ bs) h = absurd (ground (arith, h))
write_all-done (wrote (suc n) ∷ script) (b ∷ bs) h =
    rw (write_all-done script (drop n bs) h) (ap (λ t. b ∷ t) (take-append-drop n bs))

-- The bytes that can be read: those that are there, and those of each later arrival. The stream
-- ends behind the last arrival.
pub record Input : Type 0 where
  pub avail : Text
  pub later : List Text

pub data Got : Type 0 where
  got : Text → Got
  eof wait : Got

-- One poll of a new `read_u8`, `read_u16`, `read_exact`: the future is dropped when it is pending,
-- and with it the bytes that it has taken.
unfoldable pub read : ℕ → Input → Got × Input
read n i =
    if leb n (length i.avail)
    then (got (take n i.avail), record i { avail = drop n i.avail })
    else elim i.later [
      | [] ↦ (eof, record { avail = []; later = [] })
      | c ∷ cs ↦ (wait, record { avail = c; later = cs })
    ]

pub read-append :
    (xs rest : Text) (later : List Text) (n : ℕ)
    → length xs ≡ n
    → read n (record { avail = xs ++ rest; later = later })
      ≡ (got xs, record { avail = rest; later = later })
unfolding read
read-append xs rest later n len =
    rw (← len) (ground (arith, length-append xs rest, take-append xs rest, drop-append xs rest))

-- `poll_read` into a buffer of that size: as many bytes as are there, and none at the end of the
-- stream.
unfoldable pub read_some : ℕ → Input → Got × Input
read_some n i = elim i.avail [
  | b ∷ bs ↦ (got (take n (b ∷ bs)), record i { avail = drop n (b ∷ bs) })
  | [] ↦ elim i.later [
    | [] ↦ (got [], record { avail = []; later = [] })
    | c ∷ cs ↦ (wait, record { avail = c; later = cs })
  ]
]
