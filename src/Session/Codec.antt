-- ===== src/Session/Codec.antt =====
-- The SOCKS5 encoding of an address and its three readers.
use native.Mathlib.Nat.{mod-eq_of_lt}
use clash_rs.Prelude.{
  refl, ==_iff, false, ◌∷◌, ◌%◌, ◌+◌, ltb, ◌≤◌, append_assoc, ℕ, ◌<◌, ◌^◌, ◌≡◌, true, ◌++◌, length,
  length-append, take-append, drop-append, arith,
}
use clash_rs.Prelude.Text.{Text}
use clash_rs.Prelude.Words.{be_bytes, length-be_bytes, from_be-be_bytes}
use clash_rs.Prelude.Outcome.{ok}
use clash_rs.Session.Buffer.{read_exact, read_be, copy_bytes, get_be, is_utf8}
use clash_rs.Session.{
  peek_domain, peek_ip, peek_read, socks_ip, read_from, write_ip, IpAddr, v4, v6, SocksAddr, domain,
  write_buf, size, ip_size,
}

abbrev pub IpFits : IpAddr → Type 0
IpFits (v4 a) = a < 256 ^ 4
IpFits (v6 a) = a < 256 ^ 16

-- What every address has in the source by its types, and the length that one byte can tell.
abbrev pub IsEncodable : SocksAddr → Type 0
IsEncodable (SocksAddr.ip a) = IpFits a.ip × (a.port < 256 ^ 2)
IsEncodable (domain d p) = (length d < 256) × (is_utf8 d ≡ true) × (p < 256 ^ 2)

module _ (xs rest : Text) (n : ℕ) (len : length xs ≡ n) where
  pub read_exact-append : read_exact n (xs ++ rest) ≡ ok (xs, rest)
  unfolding read_exact
  read_exact-append =
      rw (← len) (ground (arith, length-append xs rest, take-append xs rest, drop-append xs rest))

  pub copy_bytes-append : copy_bytes n (xs ++ rest) ≡ ok (xs, rest)
  unfolding copy_bytes
  copy_bytes-append =
      rw (← len) (ground (arith, length-append xs rest, take-append xs rest, drop-append xs rest))

module _ (n x : ℕ) (rest : Text) (fits : x < 256 ^ n) where
  pub read_be-be_bytes : read_be n (be_bytes n x ++ rest) ≡ ok (x, rest)
  unfolding read_be
  read_be-be_bytes =
      rw (read_exact-append (be_bytes n x) rest n (length-be_bytes n x), from_be-be_bytes n x fits)

  pub get_be-be_bytes : get_be n (be_bytes n x ++ rest) ≡ ok (x, rest)
  unfolding get_be
  get_be-be_bytes =
      rw (copy_bytes-append (be_bytes n x) rest n (length-be_bytes n x), from_be-be_bytes n x fits)

-- `size` is the number of bytes that `write_buf` appends, for every address.
pub length-write_buf : (a : SocksAddr) → length (write_buf a) ≡ size a
unfolding write_buf size
length-write_buf (SocksAddr.ip a) = length-write_ip a.ip a.port
  where
    length-write_ip : (i : IpAddr) (p : ℕ) → length (write_ip i p) ≡ ip_size i
    length-write_ip (v4 i) p = omega (
      arith,
      length-append (be_bytes 4 i) (be_bytes 2 p),
      length-be_bytes 4 i,
      length-be_bytes 2 p,
    )
    length-write_ip (v6 i) p = omega (
      arith,
      length-append (be_bytes 16 i) (be_bytes 2 p),
      length-be_bytes 16 i,
      length-be_bytes 2 p,
    )
length-write_buf (domain d p) = omega (arith, length-append d (be_bytes 2 p), length-be_bytes 2 p)

-- `read_from` reads back what `write_buf` wrote of an encodable address, and leaves the rest of the
-- stream.
pub read_from-write_buf :
    (a : SocksAddr) (rest : Text) → IsEncodable a → read_from (write_buf a ++ rest) ≡ ok (a, rest)
unfolding read_from write_buf
read_from-write_buf (SocksAddr.ip a) rest (fits, port) = read_ip-write_ip a.ip a.port rest fits port
  where
    read_ip-write_ip :
        (i : IpAddr) (p : ℕ) (rest : Text)
        → IpFits i
        → p < 256 ^ 2
        → read_from (write_ip i p ++ rest) ≡ ok (socks_ip i p, rest)
    read_ip-write_ip (v4 i) p rest h k = rw (
      append_assoc (be_bytes 4 i) (be_bytes 2 p) rest,
      read_be-be_bytes 4 i (be_bytes 2 p ++ rest) h,
      read_be-be_bytes 2 p rest k,
    )
    read_ip-write_ip (v6 i) p rest h k = rw (
      append_assoc (be_bytes 16 i) (be_bytes 2 p) rest,
      read_be-be_bytes 16 i (be_bytes 2 p ++ rest) h,
      read_be-be_bytes 2 p rest k,
    )
read_from-write_buf (domain d p) rest (len, utf8, port) = rw (
  mod-eq_of_lt len,
  append_assoc d (be_bytes 2 p) rest,
  read_exact-append d (be_bytes 2 p ++ rest) (length d) refl,
  (==_iff (length d) (length d)).1 refl,
  utf8,
  read_be-be_bytes 2 p rest port,
)

-- A test that a buffer is too short fails on one that begins with enough bytes.
long_enough :
    (xs ys rest : Text) (n : ℕ)
    → n ≤ length xs + length ys
    → ltb (length (xs ++ ys ++ rest)) n ≡ false
long_enough xs ys rest n h = ground (arith, length-append (xs ++ ys) rest, length-append xs ys)

peek_ip-be_bytes :
    (n : ℕ) (family : ℕ → IpAddr) (x p : ℕ) (rest : Text)
    → x < 256 ^ n
    → p < 256 ^ 2
    → peek_ip n family (be_bytes n x ++ be_bytes 2 p ++ rest) ≡ ok (socks_ip (family x) p)
unfolding peek_ip
peek_ip-be_bytes n family x p rest h k = rw (
  long_enough (be_bytes n x) (be_bytes 2 p) rest (n + 2)
      (omega (arith, length-be_bytes n x, length-be_bytes 2 p)),
  append_assoc (be_bytes n x) (be_bytes 2 p) rest,
  get_be-be_bytes n x (be_bytes 2 p ++ rest) h,
  get_be-be_bytes 2 p rest k,
)

peek_domain-bytes :
    (d : Text) (p : ℕ) (rest : Text)
    → IsEncodable (domain d p)
    → peek_domain (length d % 256 ∷ (d ++ be_bytes 2 p ++ rest)) ≡ ok (domain d p)
unfolding peek_domain
peek_domain-bytes d p rest (len, utf8, port) = rw (
  mod-eq_of_lt len,
  long_enough d (be_bytes 2 p) rest (length d) (omega arith),
  append_assoc d (be_bytes 2 p) rest,
  copy_bytes-append d (be_bytes 2 p ++ rest) (length d) refl,
  get_be-be_bytes 2 p rest port,
  utf8,
)

two_bytes : (b c : ℕ) (s : Text) → ltb (length (b ∷ c ∷ s)) 2 ≡ false
two_bytes b c s = ground arith

-- `peek_read` returns the encodable address that `write_buf` put at the front of a buffer.
pub peek_read-write_buf :
    (a : SocksAddr) (rest : Text) → IsEncodable a → peek_read (write_buf a ++ rest) ≡ ok a
unfolding peek_read write_buf
peek_read-write_buf (SocksAddr.ip a) rest (fits, port) = peek_ip-write_ip a.ip a.port rest fits port
  where
    peek_ip-write_ip :
        (i : IpAddr) (p : ℕ) (rest : Text)
        → IpFits i
        → p < 256 ^ 2
        → peek_read (write_ip i p ++ rest) ≡ ok (socks_ip i p)
    peek_ip-write_ip (v4 i) p rest h k = rw two_bytes (peek_ip-be_bytes 4 v4 i p rest h k)
    peek_ip-write_ip (v6 i) p rest h k = rw two_bytes (peek_ip-be_bytes 16 v6 i p rest h k)
peek_read-write_buf (domain d p) rest e = rw two_bytes (peek_domain-bytes d p rest e)
