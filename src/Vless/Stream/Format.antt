-- ===== src/Vless/Stream/Format.antt =====
-- clash-lib/src/proxy/vless/stream.rs: `build_handshake_header` can be read back.
use clash_rs.Prelude.{
  ℕ, ◌%◌, ◌<◌, ◌^◌, Bool, true, false, ◌∷◌, ◌++◌, ◌≡◌, refl, ap, append_assoc, length, ◌==◌, arith,
  if◌then◌else◌,
}
use native.Mathlib.Nat.{mod-eq_of_lt}
use clash_rs.Prelude.Text.{Text}
use clash_rs.Prelude.Words.{be_bytes}
use clash_rs.Prelude.Outcome.{Outcome, ok, err, ◌>>=◌}
use clash_rs.Session.{SocksAddr, IpAddr, v4, v6, socks_ip, domain}
use clash_rs.Session.Buffer.{IoError, invalid_atyp, read_u8, read_be, read_exact}
use clash_rs.Session.Codec.{IsEncodable, IpFits, read_exact-append, read_be-be_bytes}
use clash_rs.Vless.Stream.{VlessStream, write_ip_vmess, write_to_buf_vmess, build_handshake_header}

abbrev read_address : ℕ → ℕ → Text → Outcome IoError (SocksAddr × Text)
read_address port atyp s =
    if atyp == 1
    then (do (a, s) ← read_be 4 s; ok (socks_ip (v4 a) port, s))
    else if atyp == 3
    then (do (a, s) ← read_be 16 s; ok (socks_ip (v6 a) port, s))
    else if atyp == 2
    then (do (len, s) ← read_u8 s; (d, s) ← read_exact len s; ok (domain d port, s))
    else err invalid_atyp

-- A reader of the destination: the port, the type of the address, the address.
read_destination : Text → Outcome IoError (SocksAddr × Text)
read_destination s = do (port, s) ← read_be 2 s; (atyp, s) ← read_u8 s; read_address port atyp s

read_destination-vmess :
    (a : SocksAddr) (rest : Text)
    → IsEncodable a
    → read_destination (write_to_buf_vmess a ++ rest) ≡ ok (a, rest)
unfolding read_destination write_to_buf_vmess
read_destination-vmess (SocksAddr.ip a) rest (fits, port) = read_ip-vmess a.ip a.port fits port
  where
    read_ip-vmess :
        (i : IpAddr) (p : ℕ)
        → IpFits i
        → p < 256 ^ 2
        → read_destination (write_ip_vmess i p ++ rest) ≡ ok (socks_ip i p, rest)
    read_ip-vmess (v4 i) p h k = rw (
      append_assoc (be_bytes 2 p) (1 ∷ be_bytes 4 i) rest,
      read_be-be_bytes 2 p (1 ∷ (be_bytes 4 i ++ rest)) k,
      read_be-be_bytes 4 i rest h,
    )
    read_ip-vmess (v6 i) p h k = rw (
      append_assoc (be_bytes 2 p) (3 ∷ be_bytes 16 i) rest,
      read_be-be_bytes 2 p (3 ∷ (be_bytes 16 i ++ rest)) k,
      read_be-be_bytes 16 i rest h,
    )
read_destination-vmess (domain d p) rest (len, utf8, port) = rw (
  append_assoc (be_bytes 2 p) (2 ∷ (length d % 256) ∷ d) rest,
  read_be-be_bytes 2 p (2 ∷ ((length d % 256) ∷ (d ++ rest))) port,
  mod-eq_of_lt len,
  read_exact-append d rest (length d) refl,
)

abbrev Request : Type 0
Request = Text × ℕ × SocksAddr × Text

abbrev read_request : Text → Outcome IoError Request
read_request s = do
  (version, s) ← read_u8 s
  (uuid, s) ← read_exact 16 s
  (info, s) ← read_u8 s
  (cmd, s) ← read_u8 s
  (dest, s) ← read_destination s
  ok (uuid, cmd, dest, s)

read_request-header :
    (s : VlessStream) (d : Text)
    → length s.uuid ≡ 16
    → IsEncodable s.destination
    → read_request (build_handshake_header s ++ d)
      ≡ ok (s.uuid, (if s.is_udp then 2 else 1), s.destination, d)
read_request-header s d size fits =
    let cmd : ℕ = if s.is_udp then 2 else 1 in
    rw
      (
        append_assoc s.uuid (0 ∷ (cmd ∷ write_to_buf_vmess s.destination)) d,
        read_exact-append s.uuid (0 ∷ (cmd ∷ (write_to_buf_vmess s.destination ++ d))) 16 size,
        read_destination-vmess s.destination d fits,
      )
      refl

ok-inj : {a b : Request} (x y : Outcome IoError Request) → x ≡ ok a → x ≡ y → y ≡ ok b → a ≡ b
ok-inj x y e f g = cc

command_eq : (a b : Bool) → ◌≡◌ {A = ℕ} (if a then 2 else 1) (if b then 2 else 1) → a ≡ b
command_eq true true h = refl
command_eq true false h = absurd (omega (arith, h))
command_eq false true h = absurd (omega (arith, h))
command_eq false false h = refl

-- Requests of streams with a UUID of 16 bytes and an encodable destination that begin with the same
-- bytes, whatever data follows, have the same UUID, command and destination, and the data are equal.
pub build_handshake_header_injective :
    (s t : VlessStream) (d e : Text)
    → length s.uuid ≡ 16
    → length t.uuid ≡ 16
    → IsEncodable s.destination
    → IsEncodable t.destination
    → build_handshake_header s ++ d ≡ build_handshake_header t ++ e
    → (s.uuid ≡ t.uuid) × (s.is_udp ≡ t.is_udp) × (s.destination ≡ t.destination) × (d ≡ e)
build_handshake_header_injective s t d e size size' fits fits' same =
    let eq =
      ok-inj (read_request (build_handshake_header s ++ d))
        (read_request (build_handshake_header t ++ e)) (read_request-header s d size fits)
        (ap read_request same) (read_request-header t e size' fits') in
    (
      ap (λ r. r.0) eq,
      command_eq s.is_udp t.is_udp (ap (λ r. r.1) eq),
      ap (λ r. r.2) eq,
      ap (λ r. r.3) eq,
    )
