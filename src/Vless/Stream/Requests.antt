-- ===== src/Vless/Stream/Requests.antt =====
-- clash-lib/src/proxy/vless/stream.rs: what the polls that write put on the stream below.
use clash_rs.Prelude.{
  true, false, Bool-cases, List, [], ◌∷◌, ◌++◌, ◌≡◌, ◌⊎◌, inl, inr, refl, sym, ap, ◌∙◌, append-nil,
  append_assoc, length, take, take-all, ℕ, min, leb, arith,
}
use clash_rs.Prelude.Text.{Text}
use clash_rs.Streams.{
  Accept, wrote, blocked, failed, Polled, pending, done, broken, write_all, write_all-done,
}
use clash_rs.Vless.Stream.{
  VlessStream, Written, ready, write_pending, write_failed, build_handshake_header, after_write_all,
  inner_write, poll_write, send_handshake_with_data,
}

abbrev pub Call : Type 0
Call = List Accept × Text

-- The bytes of a call that its result says are written.
abbrev pub accepted_of : Written → Text → Text
accepted_of (ready n) bytes = take n bytes
accepted_of write_pending bytes = []
accepted_of write_failed bytes = []

abbrev and_then :
    Written × VlessStream → Text → (VlessStream → Text × VlessStream) → Text × VlessStream
and_then (r, s) bytes k = (accepted_of r bytes ++ (k s).0, (k s).1)

-- The calls of `poll_write`, whatever each returned: the bytes that they say are written.
unfoldable pub poll_all : List Call → VlessStream → Text × VlessStream
poll_all [] s = ([], s)
poll_all ((script, bytes) ∷ calls) s =
    and_then (poll_write script bytes s) bytes (λ s'. poll_all calls s')

abbrev repeats_if : Polled × Text → Text → Text
repeats_if (done, out) rest = []
repeats_if (pending, out) rest = out ++ rest
repeats_if (broken, out) rest = out ++ rest

-- What the calls that did not get the request written put on the stream below.
unfoldable pub repeats : Text → List Call → Text
repeats header [] = []
repeats header ((script, bytes) ∷ calls) =
    repeats_if (write_all script (header ++ bytes)) (repeats header calls)

take-min {ℓ} : {A : Type ℓ} (n : ℕ) (xs : List A) → take n xs ≡ take (min n (length xs)) xs
take-min n xs = elim (Bool-cases (leb (length xs) n)) [
  | inl short ↦
      let e : min n (length xs) ≡ length xs = ground (arith, short) in
      rw e (take-all n xs (ground (arith, short)) ∙ sym (take-all (length xs) xs (omega arith)))
  | inr long ↦ let e : min n (length xs) ≡ n = ground (arith, long) in rw e refl
]

module _ (s : VlessStream) where
  abbrev pub unsent : Text → VlessStream
  unsent w = record s { wire = w; handshake_sent = false }

  abbrev pub sent : Text → VlessStream
  sent w = record s { wire = w; handshake_sent = true }

  inner_write-accepted :
      (script : List Accept) (bytes w : Text)
      → (inner_write script bytes (sent w)).1
        ≡ sent (w ++ accepted_of (inner_write script bytes (sent w)).0 bytes)
  inner_write-accepted [] bytes w = rw (append-nil w) refl
  inner_write-accepted (blocked ∷ script) bytes w = rw (append-nil w) refl
  inner_write-accepted (failed ∷ script) bytes w = rw (append-nil w) refl
  inner_write-accepted (wrote n ∷ script) bytes w = rw (take-min n bytes) refl

  -- Behind the request each call adds the bytes that it says are written.
  pub poll_all-sent :
      (calls : List Call) (w : Text)
      → (poll_all calls (sent w)).1 ≡ sent (w ++ (poll_all calls (sent w)).0)
  unfolding poll_all poll_write
  poll_all-sent [] w = rw (append-nil w) refl
  poll_all-sent ((script, bytes) ∷ calls) w =
      let now = accepted_of (inner_write script bytes (sent w)).0 bytes in
      rw (inner_write-accepted script bytes w) (
        poll_all-sent calls (w ++ now)
        ∙ ap sent (append_assoc w now (poll_all calls (sent (w ++ now))).0))

  abbrev Ends : Text → Text → Text × VlessStream → Type 0
  Ends w before r =
      (r ≡ ([], unsent (w ++ before)))
      ⊎ ((acc : Text) × (r ≡ (acc, sent (w ++ (before ++ (build_handshake_header s ++ acc))))))

  Ends-again :
      (w out before : Text) (r : Text × VlessStream)
      → Ends (w ++ out) before r
      → Ends w (out ++ before) r
  Ends-again w out before r (inl e) = inl (e ∙ ap (λ t. ([], unsent t)) (append_assoc w out before))
  Ends-again w out before r (inr (acc, e)) =
      let rest = build_handshake_header s ++ acc in
      inr (
        acc,
        e
            ∙ ap (λ t. (acc, sent t))
                (append_assoc w out (before ++ rest)
                  ∙ ap (λ t. w ++ t) (sym (append_assoc out before rest))),
      )

  after_write_all-Ends :
      (q : Polled × Text) (bytes w before : Text) (calls : List Call)
      → (q.0 ≡ done → q.1 ≡ build_handshake_header s ++ bytes)
      → ((v : Text) → Ends v before (poll_all calls (unsent v)))
      → Ends w
          (repeats_if q before)
          (and_then (after_write_all (length bytes) q (unsent w)) bytes (λ s'. poll_all calls s'))
  after_write_all-Ends (done, out) bytes w before calls all later =
      let rest = poll_all calls (sent (w ++ out)) in
      let header = build_handshake_header s in
      inr (
        bytes ++ rest.0,
        rw (take-all (length bytes) bytes (omega arith), poll_all-sent calls (w ++ out))
            (ap (λ t. (bytes ++ rest.0, sent t))
              (append_assoc w out rest.0
                ∙ ap (λ t. w ++ (t ++ rest.0)) (all refl)
                ∙ ap (λ t. w ++ t) (append_assoc header bytes rest.0))),
      )
  after_write_all-Ends (pending, out) bytes w before calls all later =
      Ends-again w out before (poll_all calls (unsent (w ++ out))) (later (w ++ out))
  after_write_all-Ends (broken, out) bytes w before calls all later =
      Ends-again w out before (poll_all calls (unsent (w ++ out))) (later (w ++ out))

  -- Whatever the calls return, the stream below has what the attempts to write the request left there,
  -- and behind it, once one succeeded, the request and every byte that the calls say is written.
  pub poll_all-unsent :
      (calls : List Call) (w : Text)
      → (poll_all calls (unsent w) ≡ ([], unsent (w ++ repeats (build_handshake_header s) calls)))
        ⊎ ((acc : Text) × (poll_all calls (unsent w) ≡ (
          acc,
          sent (
              w ++ (repeats (build_handshake_header s) calls ++ (build_handshake_header s ++ acc))),
        )))
  unfolding poll_all poll_write send_handshake_with_data repeats
  poll_all-unsent [] w = inl (rw (append-nil w) refl)
  poll_all-unsent ((script, bytes) ∷ calls) w =
      after_write_all-Ends (write_all script (build_handshake_header s ++ bytes)) bytes w
        (repeats (build_handshake_header s) calls) calls
        (write_all-done script (build_handshake_header s ++ bytes)) (poll_all-unsent calls)
