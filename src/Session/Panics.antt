-- ===== src/Session/Panics.antt =====
-- `TryFrom<&[u8]>` on whole addresses, and the buffers on which the readers of session.rs panic or
-- lose the address.
use clash_rs.Session.Codec.{IpFits, IsEncodable}
use native.Mathlib.Nat.{mod-eq_of_lt}
use clash_rs.Prelude.{
  append_assoc, false, ℕ, ◌+◌, ◌%◌, ◌<◌, ◌≤◌, ◌≡◌, ◌≢◌, ◌^◌, refl, true, [], ◌∷◌, ◌++◌, ltb, length,
  length-append, take, take-append, drop-append, arith, length-take, ap, ◌-◌,
}
use clash_rs.Prelude.Text.{Text}
use clash_rs.Prelude.Words.{be_bytes, length-be_bytes, from_be-be_bytes}
use clash_rs.Prelude.Outcome.{ok, panic}
use clash_rs.Session.Buffer.{read_exact, copy_bytes, get_be, is_utf8, slice}
use clash_rs.Session.{
  type_v6, v6, type_v4, v4, write_ip, SocksAddr, IpAddr, domain, write_buf, read_from, peek_read,
  socks_ip, type_domain,
}
use clash_rs.Session.Convert.{slice_domain, try_from, slice_ip}

slice-append :
    (pre xs rest : Text) (from to : ℕ)
    → length pre ≡ from
    → from + length xs ≡ to
    → slice from to (pre ++ (xs ++ rest)) ≡ ok xs
unfolding slice
slice-append pre xs rest from to hf ht =
    rw (← ht, ← hf)
      (ground (
        arith,
        length-append pre (xs ++ rest),
        length-append xs rest,
        drop-append pre (xs ++ rest),
        take-append xs rest,
        ap (λ n. take n (xs ++ rest)) (sub_left (length pre) (length xs)),
      ))
  where
    sub_left : (a b : ℕ) → a + b - a ≡ b
    sub_left a b = omega arith

slice_ip-be_bytes :
    (atyp n : ℕ) (family : ℕ → IpAddr) (x p : ℕ) (rest : Text)
    → x < 256 ^ n
    → p < 256 ^ 2
    → slice_ip n family (atyp ∷ (be_bytes n x ++ (be_bytes 2 p ++ rest)))
      ≡ ok (socks_ip (family x) p)
unfolding slice_ip
slice_ip-be_bytes atyp n family x p rest h k = rw (
  enough,
  slice-append (atyp ∷ []) (be_bytes n x) (be_bytes 2 p ++ rest) 1 (1 + n) refl
      (ap (λ m. 1 + m) (length-be_bytes n x)),
  slice-append (atyp ∷ be_bytes n x) (be_bytes 2 p) rest (1 + n) (1 + n + 2)
      (omega (arith, length-be_bytes n x)) (omega (arith, length-be_bytes 2 p)),
  from_be-be_bytes n x h,
  from_be-be_bytes 2 p k,
)
  where
    enough : ltb (length (atyp ∷ (be_bytes n x ++ (be_bytes 2 p ++ rest)))) (1 + n + 2) ≡ false
    enough = ground (
      arith,
      length-append (be_bytes n x) (be_bytes 2 p ++ rest),
      length-append (be_bytes 2 p) rest,
      length-be_bytes n x,
      length-be_bytes 2 p,
    )

slice-short : (from to : ℕ) (buf : Text) → length buf < to → slice from to buf ≡ panic
unfolding slice
slice-short from to buf h = ground arith

slice_domain-bytes :
    (d : Text) (p : ℕ) (rest : Text)
    → IsEncodable (domain d p)
    → slice_domain (type_domain ∷ length d ∷ (d ++ (be_bytes 2 p ++ rest))) ≡ ok (domain d p)
unfolding slice_domain
slice_domain-bytes d p rest (len, utf8, port) = ground (
  arith,
  length-append d (be_bytes 2 p ++ rest),
  length-append (be_bytes 2 p) rest,
  length-be_bytes 2 p,
  slice-append (type_domain ∷ length d ∷ []) d (be_bytes 2 p ++ rest) 2 (length d + 2) refl
      (omega arith),
  slice-append (type_domain ∷ length d ∷ d) (be_bytes 2 p) rest (length d + 2) (length d + 4)
      (omega arith) (omega (arith, length-be_bytes 2 p)),
  from_be-be_bytes 2 p port,
  utf8,
)

-- `TryFrom<&[u8]>` returns the encodable address that `write_buf` put at the front of a buffer.
pub try_from-write_buf :
    (a : SocksAddr) (rest : Text) → IsEncodable a → try_from (write_buf a ++ rest) ≡ ok a
unfolding try_from write_buf
try_from-write_buf (SocksAddr.ip a) rest (fits, port) = try_from-write_ip a.ip a.port rest fits port
  where
    try_from-write_ip :
        (i : IpAddr) (p : ℕ) (rest : Text)
        → IpFits i
        → p < 256 ^ 2
        → try_from (write_ip i p ++ rest) ≡ ok (socks_ip i p)
    try_from-write_ip (v4 i) p rest h k = slice_ip-be_bytes type_v4 4 v4 i p rest h k
    try_from-write_ip (v6 i) p rest h k = slice_ip-be_bytes type_v6 16 v6 i p rest h k
try_from-write_buf (domain d p) rest e =
    rw (mod-eq_of_lt e.0, append_assoc d (be_bytes 2 p) rest) (slice_domain-bytes d p rest e)

-- A UTF-8 domain address whose last port byte is missing passes the length check of `TryFrom<&[u8]>`, and
-- the read of the port panics.
pub try_from-panics :
    (d : Text) (b : ℕ)
    → is_utf8 d ≡ true
    → try_from (type_domain ∷ length d ∷ (d ++ (b ∷ []))) ≡ panic
unfolding try_from
try_from-panics d b utf8 = ground (
  arith,
  length-append d (b ∷ []),
  slice-append (type_domain ∷ length d ∷ []) d (b ∷ []) 2 (length d + 2) refl (omega arith),
  slice-short (length d + 2) (length d + 4) (type_domain ∷ length d ∷ (d ++ (b ∷ [])))
      (omega (arith, length-append d (b ∷ []))),
  utf8,
)

-- A domain address with fewer than two bytes for the port passes the length check of `peek_read`,
-- and the read of the port panics.
pub peek_read-panics :
    (d port : Text) → length port < 2 → peek_read (type_domain ∷ length d ∷ (d ++ port)) ≡ panic
unfolding peek_read get_be copy_bytes
peek_read-panics d port short =
    ground (arith, length-append d port, take-append d port, drop-append d port)

-- The length of a domain is written as one byte: one of 256 bytes or more is not read back.
pub read_from-write_buf_long :
    (d : Text) (p : ℕ) → 256 ≤ length d → read_from (write_buf (domain d p)) ≢ ok (domain d p, [])
unfolding read_from write_buf read_exact
read_from-write_buf_long d p long h =
    let port = be_bytes 2 p in
    let n = length d % 256 in ground (arith, length-append d port, length-take n (d ++ port))
