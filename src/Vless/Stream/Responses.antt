-- ===== src/Vless/Stream/Responses.antt =====
-- clash-lib/src/proxy/vless/stream.rs: what the polls that read make of the response.
use clash_rs.Prelude.{
  ℕ, suc, ◌<◌, true, false, List, [], ◌∷◌, ◌++◌, ◌≡◌, refl, ap, length, leb, ◌==◌, arith,
}
use clash_rs.Prelude.Text.{Text}
use clash_rs.Streams.{read, read-append}
use clash_rs.Vless.Stream.{
  VlessStream, Readout, bytes, inner_read, read_pending, read_failed, invalid_version,
  receive_response, poll_read,
}

-- The request is sent, and the response is still to come.
abbrev pub waiting : VlessStream → Text → List Text → VlessStream
waiting s avail later = record s {
  input = record { avail = avail; later = later };
  handshake_sent = true;
  response_received = false;
}

-- The response has come.
abbrev pub opened : VlessStream → Text → List Text → VlessStream
opened s avail later = record s {
  input = record { avail = avail; later = later };
  handshake_sent = true;
  response_received = true;
  handshake_done = true;
}

-- The polls that read, with the sizes of their buffers.
unfoldable pub read_all : List ℕ → VlessStream → List Readout × VlessStream
read_all [] s = ([], s)
read_all (size ∷ sizes) s =
    let (r, s') = poll_read size s in let (rs, t) = read_all sizes s' in (r ∷ rs, t)

suc_not_zero : (n : ℕ) → (suc n == 0) ≡ false
suc_not_zero n = ground arith

receive_response-opened :
    (s : VlessStream) (info rest : Text) (later : List Text)
    → receive_response (waiting s (0 ∷ (length info ∷ (info ++ rest))) later)
      ≡ (bytes [], opened s rest later)
unfolding receive_response
receive_response-opened s [] rest later = rw (read-append (0 ∷ (0 ∷ [])) rest later 2 refl) refl
receive_response-opened s (b ∷ info) rest later =
    rw
      (
        read-append (0 ∷ (length (b ∷ info) ∷ [])) ((b ∷ info) ++ rest) later 2 refl,
        suc_not_zero (length info),
        read-append (b ∷ info) rest later (length (b ∷ info)) refl,
      )
      refl

-- When the response is there as a whole, the polls read what they would without it.
pub read_all-response :
    (s : VlessStream) (info rest : Text) (later : List Text) (size : ℕ) (sizes : List ℕ)
    → read_all (size ∷ sizes) (waiting s (0 ∷ (length info ∷ (info ++ rest))) later)
      ≡ read_all (size ∷ sizes) (opened s rest later)
unfolding poll_read read_all
read_all-response s info rest later size sizes =
    ap (λ q. let t = read_all sizes (inner_read size q).1 in ((inner_read size q).0 ∷ t.0, t.1))
      (receive_response-opened s info rest later)

-- When the response's additional information, which begins with another byte than zero, comes after
-- its length, two or more bytes of it at once, the second poll takes it for a response and fails.
pub poll_read-late_info :
    (s : VlessStream) (version len : ℕ) (info : Text) (later : List Text) (n size : ℕ)
    → 0 < version
    → ((poll_read size (waiting s (0 ∷ (suc n ∷ [])) ((version ∷ (len ∷ info)) ∷ later))).0
        ≡ read_pending)
      × ((poll_read size
            (poll_read size (waiting s (0 ∷ (suc n ∷ [])) ((version ∷ (len ∷ info)) ∷ later))).1).0
          ≡ read_failed invalid_version)
unfolding poll_read receive_response read
poll_read-late_info s version len info later n size h =
    let wrong : (version == 0) ≡ false = ground (arith, h) in
    let none_there : leb (suc n) 0 ≡ false = ground arith in
    let there : leb 2 (suc (suc (length info))) ≡ true = ground arith in
    rw (suc_not_zero n, none_there, there, wrong) (refl, refl)
