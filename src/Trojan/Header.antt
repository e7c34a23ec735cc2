-- ===== src/Trojan/Header.antt =====
-- clash-lib/src/proxy/trojan/{mod.rs, inbound.rs}: the header of a trojan stream, as the client
-- writes it (`inner_proxy_stream`) and as the server reads it (`listen_tcp`,
-- `handle_trojan_stream`).
--
-- `sha224` is the digest of the `sha2` crate. The server compares the hash as a text that
-- `from_utf8_lossy` makes, which is the hexadecimal digest only if the bytes are.
use clash_rs.Session.Codec.{read_from-write_buf, read_exact-append, IsEncodable}
use clash_rs.Prelude.{
  true, false, sym, ◌∙◌, take-take, inr, inl, take-append, drop-append, Bool-cases, subst,
  append_assoc, length-append, ◌-◌, ℕ, ◌/◌, ◌%◌, ◌+◌, ◌*◌, Bool, [], ◌∷◌, ◌++◌, ◌==◌, ltb, length,
  take, drop, if◌then◌else◌, ◌≡◌, refl, arith,
}
use clash_rs.Prelude.Text.{text_eq_iff, text_eq_refl, Text, text_eq}
use clash_rs.Prelude.Outcome.{Outcome, ok, err, ◌>>=◌}
use clash_rs.Session.{SocksAddr, write_buf, read_from}
use clash_rs.Session.Buffer.{IoError, other, read_u8, read_exact}
use clash_rs.Trojan.{crlf}

abbrev pub hex_digit : ℕ → ℕ
hex_digit n = if ltb n 10 then b'0' + n else b'a' + (n - 10)

-- `encode_hex` of utils.rs
abbrev pub encode_hex : Text → Text
encode_hex [] = []
encode_hex (b ∷ s) = hex_digit (b / 16) ∷ (hex_digit (b % 16) ∷ encode_hex s)

length-encode_hex : (s : Text) → length (encode_hex s) ≡ 2 * length s
length-encode_hex [] = refl
length-encode_hex (b ∷ s) = omega (arith, length-encode_hex s)

hash_checked :
    (mark hash : Bool) (k : Outcome IoError (SocksAddr × Text)) {x : SocksAddr × Text}
    → (if mark then (if hash then k else err other) else err other) ≡ ok x
    → hash ≡ true
hash_checked true true k h = refl
hash_checked true false k h = absurd (ground (arith, h))
hash_checked false hash k h = absurd (ground (arith, h))

module _ (sha224 : Text → Text) where
  -- What `inner_proxy_stream` writes: 3 is the command for UDP, 1 the one for TCP.
  unfoldable pub header : Text → Bool → SocksAddr → Text
  header password udp dest =
      encode_hex (sha224 password) ++ (crlf ++ ((if udp then 3 else 1) ∷ (write_buf dest ++ crlf)))

  -- The destination of the session that the server dispatches, and the rest of the stream. The
  -- server gives up on the stream where this is an error.
  unfoldable pub handshake : Text → Text → Outcome IoError (SocksAddr × Text)
  handshake password s = do
    (buf, s) ← read_exact 58 s
    if text_eq (drop 56 buf) crlf
        then (if text_eq (take 56 buf) (encode_hex (sha224 password))
            then (do
              (cmd, s) ← read_u8 s
              if cmd == 1
                  then (do
                    (dest, s) ← read_from s
                    (mark, s) ← read_exact 2 s
                    if text_eq mark crlf then ok (dest, s) else err other)
                  else err other)
            else err other)
        else err other

  module _ (hash t : Text) (size : length hash ≡ 56) where
    read_exact-hash : read_exact 58 (hash ++ (crlf ++ t)) ≡ ok (hash ++ crlf, t)
    read_exact-hash =
        rw (← append_assoc hash crlf t)
          (read_exact-append (hash ++ crlf) t 58 (omega (arith, length-append hash crlf, size)))

    drop-hash : drop 56 (hash ++ crlf) ≡ crlf
    drop-hash = subst (λ n. drop n (hash ++ crlf) ≡ crlf) size (drop-append hash crlf)

    take-hash : take 56 (hash ++ crlf) ≡ hash
    take-hash = subst (λ n. take n (hash ++ crlf) ≡ hash) size (take-append hash crlf)

  module _ (digest_length : (s : Text) → length (sha224 s) ≡ 28) where
    handshake-command :
        (password : Text) (cmd : ℕ) (dest : SocksAddr) (rest : Text)
        → IsEncodable dest
        → handshake password
            (encode_hex (sha224 password) ++ (crlf ++ (cmd ∷ (write_buf dest ++ (crlf ++ rest)))))
          ≡ (if cmd == 1 then ok (dest, rest) else err other)
    unfolding handshake
    handshake-command password cmd dest rest fits =
        let hash = encode_hex (sha224 password) in
        let t : Text = cmd ∷ (write_buf dest ++ (crlf ++ rest)) in
        let size : length hash ≡ 56 =
          omega (arith, length-encode_hex (sha224 password), digest_length password) in
        rw
          (
            read_exact-hash hash t size,
            drop-hash hash t size,
            take-hash hash t size,
            text_eq_refl hash,
            read_from-write_buf dest (crlf ++ rest) fits,
            read_exact-append crlf rest 2 refl,
          )
          refl

    -- With a digest of 28 bytes and an encodable destination, the server reads what the client
    -- writes for its password: it has the destination of a TCP request and leaves what is behind
    -- the header, and refuses a UDP request.
    pub handshake-header :
        (password : Text) (udp : Bool) (dest : SocksAddr) (rest : Text)
        → IsEncodable dest
        → handshake password (header password udp dest ++ rest)
          ≡ (if udp then err other else ok (dest, rest))
    unfolding header
    handshake-header password true dest rest fits =
        rw
          (
            append_assoc (encode_hex (sha224 password)) (crlf ++ (3 ∷ (write_buf dest ++ crlf)))
                rest,
            append_assoc (write_buf dest) crlf rest,
          )
          (handshake-command password 3 dest rest fits)
    handshake-header password false dest rest fits =
        rw
          (
            append_assoc (encode_hex (sha224 password)) (crlf ++ (1 ∷ (write_buf dest ++ crlf)))
                rest,
            append_assoc (write_buf dest) crlf rest,
          )
          (handshake-command password 1 dest rest fits)

  -- A server that dispatches a session has read the hexadecimal digest of its own password.
  pub handshake-authenticated :
      (password s : Text) (dest : SocksAddr) (rest : Text)
      → handshake password s ≡ ok (dest, rest)
      → take 56 s ≡ encode_hex (sha224 password)
  unfolding handshake read_exact
  handshake-authenticated password s dest rest h =
      let hash = encode_hex (sha224 password) in
      elim (Bool-cases (ltb (length s) 58)) [
        | inl short ↦ absurd (ground (arith, short, h))
        | inr long ↦
            let same =
              hash_checked (text_eq (drop 56 (take 58 s)) crlf) (text_eq (take 56 (take 58 s)) hash)
                _ (rw long at h) in
            sym (take-take 56 58 s (omega arith)) ∙ (text_eq_iff (take 56 (take 58 s)) hash).0 same
      ]
