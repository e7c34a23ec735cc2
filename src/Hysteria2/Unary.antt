-- ===== src/Hysteria2/Unary.antt =====
-- clash-lib/src/proxy/hysteria2/codec.rs: concrete codecs that have the laws.
--
-- The integers are those of QUIC (RFC 9000, 16). A port is printed in the unary system, and a
-- socket address as its family, its number and its port.
use clash_rs.Prelude.{
  ℕ, zero, suc, ◌+◌, ◌-◌, ◌*◌, ◌%◌, ◌/◌, ◌^◌, ◌≤◌, ◌<◌, ◌==◌, ltb, Bool-cases, inl, inr, true,
  false, Option, none, some, [], ◌∷◌, ◌++◌, ◌≡◌, refl, if◌then◌else◌, length, take, drop, replicate,
  length-append, length-replicate, arith,
}
use clash_rs.Prelude.Text.{Text, codes}
use clash_rs.Prelude.Words.{be_bytes, from_be, length-be_bytes, from_be-be_bytes}
use clash_rs.RingBuffer.Slices.{take-at, drop-at}
use clash_rs.Session.{IpAddr, v4, v6, SocketAddr}
use clash_rs.Session.Buffer.{is_utf8, is_utf8-append}
use clash_rs.Hysteria2.{Codecs, var_size, rsplit_once}
use clash_rs.Hysteria2.Laws.{Laws}
use clash_rs.Hysteria2.Packet.{rsplit_once-append}
use clash_rs.Hysteria2.Slots.{mem}

abbrev encode_var : ℕ → Text
encode_var n =
    if ltb n (2 ^ 6)
    then be_bytes 1 n
    else if ltb n (2 ^ 14)
    then be_bytes 2 (n + 2 ^ 14)
    else if ltb n (2 ^ 30)
    then be_bytes 4 (n + 2 ^ 31)
    else be_bytes 8 (n + 3 * 2 ^ 62)

abbrev read_var : ℕ → ℕ → Text → Option (ℕ × Text)
read_var k tag s = if ltb (length s) k then none else some (from_be (take k s) - tag, drop k s)

abbrev decode_var : Text → Option (ℕ × Text)
decode_var [] = none
decode_var (b ∷ s) =
    if ltb b 64
    then read_var 1 0 (b ∷ s)
    else if ltb b 128
    then read_var 2 (2 ^ 14) (b ∷ s)
    else if ltb b 192
    then read_var 4 (2 ^ 31) (b ∷ s)
    else read_var 8 (3 * 2 ^ 62) (b ∷ s)

read_var-be_bytes :
    (k tag n : ℕ) (rest : Text)
    → n + tag < 256 ^ k
    → read_var k tag (be_bytes k (n + tag) ++ rest) ≡ some (n, rest)
read_var-be_bytes k tag n rest h =
    let long : ltb (length (be_bytes k (n + tag) ++ rest)) k ≡ false =
      ground (arith, length-append (be_bytes k (n + tag)) rest, length-be_bytes k (n + tag)) in
    let back : n + tag - tag ≡ n = omega arith in
    rw (
      long,
      take-at k (be_bytes k (n + tag)) rest (length-be_bytes k (n + tag)),
      drop-at k (be_bytes k (n + tag)) rest (length-be_bytes k (n + tag)),
      from_be-be_bytes k (n + tag) h,
      back,
    )

one_byte : (n : ℕ) (rest : Text) → n < 2 ^ 6 → decode_var (be_bytes 1 n ++ rest) ≡ some (n, rest)
one_byte n rest h =
    let low : ltb (n % 256) 64 ≡ true = ground arith in
    let long : ltb (suc (length rest)) 1 ≡ false = ground arith in
    let back : 0 * 256 + n % 256 - 0 ≡ n = omega arith in rw (low, long, back)

two_bytes :
    (n : ℕ) (rest : Text)
    → 2 ^ 6 ≤ n
    → n < 2 ^ 14
    → decode_var (be_bytes 2 (n + 2 ^ 14) ++ rest) ≡ some (n, rest)
two_bytes n rest low high =
    let a : ltb ((n + 2 ^ 14) / 256 % 256) 64 ≡ false = ground arith in
    let b : ltb ((n + 2 ^ 14) / 256 % 256) 128 ≡ true = ground arith in
    rw (a, b) (read_var-be_bytes 2 (2 ^ 14) n rest (omega arith))

four_bytes :
    (n : ℕ) (rest : Text)
    → 2 ^ 14 ≤ n
    → n < 2 ^ 30
    → decode_var (be_bytes 4 (n + 2 ^ 31) ++ rest) ≡ some (n, rest)
four_bytes n rest low high =
    let x = (n + 2 ^ 31) / 256 / 256 / 256 % 256 in
    let a : ltb x 64 ≡ false = ground arith in
    let b : ltb x 128 ≡ false = ground arith in
    let c : ltb x 192 ≡ true = ground arith in
    rw (a, b, c) (read_var-be_bytes 4 (2 ^ 31) n rest (omega arith))

eight_bytes :
    (n : ℕ) (rest : Text)
    → n < 2 ^ 62
    → decode_var (be_bytes 8 (n + 3 * 2 ^ 62) ++ rest) ≡ some (n, rest)
eight_bytes n rest high =
    let x = (n + 3 * 2 ^ 62) / 256 / 256 / 256 / 256 / 256 / 256 / 256 % 256 in
    let low : 192 ≤ x = omega arith in
    let a : ltb x 64 ≡ false = ground arith in
    let b : ltb x 128 ≡ false = ground arith in
    let c : ltb x 192 ≡ false = ground arith in
    rw (a, b, c) (read_var-be_bytes 8 (3 * 2 ^ 62) n rest (omega arith))

decode_var-encode_var :
    (n : ℕ) (rest : Text) → n < 2 ^ 62 → decode_var (encode_var n ++ rest) ≡ some (n, rest)
decode_var-encode_var n rest h = elim (Bool-cases (ltb n (2 ^ 6))) [
  | inl e ↦ rw e (one_byte n rest (ground arith))
  | inr e ↦ elim (Bool-cases (ltb n (2 ^ 14))) [
    | inl f ↦ rw (e, f) (two_bytes n rest (ground arith) (ground arith))
    | inr f ↦ elim (Bool-cases (ltb n (2 ^ 30))) [
      | inl g ↦ rw (e, f, g) (four_bytes n rest (ground arith) (ground arith))
      | inr g ↦ rw (e, f, g) (eight_bytes n rest h)
    ]
  ]
]

length-encode_var : (n size : ℕ) → var_size n ≡ some size → length (encode_var n) ≡ size
length-encode_var n size e = ground arith

abbrev print_port : ℕ → Text
print_port p = replicate p b'1'

abbrev parse_port : Text → Option ℕ
parse_port s = some (length s)

abbrev family : IpAddr → ℕ
family (v4 a) = b'4'
family (v6 a) = b'6'

abbrev number : IpAddr → ℕ
number (v4 a) = a
number (v6 a) = a

abbrev host : SocketAddr → Text
host a = family a.ip ∷ replicate (number a.ip) b'1'

abbrev print_socket : SocketAddr → Text
print_socket a = host a ++ (codes ":" ++ print_port a.port)

abbrev socket_of : Option (Text × Text) → Option SocketAddr
socket_of none = none
socket_of (some ([], p)) = none
socket_of (some (c ∷ s, p)) =
    if c == b'4'
    then some (record { ip = v4 (length s); port = length p })
    else if c == b'6'
    then some (record { ip = v6 (length s); port = length p })
    else none

abbrev parse_socket : Text → Option SocketAddr
parse_socket s = socket_of (rsplit_once b':' s)

print_port_without_colon : (p : ℕ) → mem b':' (print_port p) ≡ false
print_port_without_colon zero = refl
print_port_without_colon (suc p) = print_port_without_colon p

print_port_is_utf8 : (p : ℕ) → is_utf8 (print_port p) ≡ true
unfolding is_utf8
print_port_is_utf8 zero = refl
print_port_is_utf8 (suc p) = is_utf8-append (b'1' ∷ []) (print_port p) refl (print_port_is_utf8 p)

host_is_utf8 : (i : IpAddr) → is_utf8 (family i ∷ replicate (number i) b'1') ≡ true
unfolding is_utf8
host_is_utf8 (v4 a) = is_utf8-append (b'4' ∷ []) (print_port a) refl (print_port_is_utf8 a)
host_is_utf8 (v6 a) = is_utf8-append (b'6' ∷ []) (print_port a) refl (print_port_is_utf8 a)

parse_socket-print_socket : (a : SocketAddr) → parse_socket (print_socket a) ≡ some a
parse_socket-print_socket a =
    rw (rsplit_once-append b':' (host a) (print_port a.port) (print_port_without_colon a.port))
      (back a.ip)
  where
    back :
        (i : IpAddr)
        → socket_of (some (family i ∷ replicate (number i) b'1', print_port a.port))
          ≡ some (record { ip = i; port = a.port })
    back (v4 x) = rw (length-replicate {A = ℕ} x b'1', length-replicate {A = ℕ} a.port b'1')
    back (v6 x) = rw (length-replicate {A = ℕ} x b'1', length-replicate {A = ℕ} a.port b'1')

abbrev pub unary : Codecs
unary = record {
  encode_var = encode_var;
  decode_var = decode_var;
  print_socket = print_socket;
  parse_socket = parse_socket;
  print_port = print_port;
  parse_port = parse_port;
}

colon_is_utf8 : is_utf8 (codes ":") ≡ true
unfolding is_utf8
colon_is_utf8 = refl

pub unary-Laws : Laws unary
unary-Laws = record {
  decode_var-encode_var = decode_var-encode_var;
  length-encode_var = length-encode_var;
  parse_port-print_port = λ p h. rw (length-replicate {A = ℕ} p b'1');
  port_without_colon = print_port_without_colon;
  port_is_utf8 = print_port_is_utf8;
  socket_host = host;
  print_socket-host = λ a. refl;
  socket_is_utf8 = λ a.
      is_utf8-append (host a) (codes ":" ++ print_port a.port) (host_is_utf8 a.ip)
        (is_utf8-append (codes ":") (print_port a.port) colon_is_utf8 (print_port_is_utf8 a.port));
  parse_socket-print_socket = λ a h. parse_socket-print_socket a;
}
