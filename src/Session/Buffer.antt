-- ===== src/Session/Buffer.antt =====
-- The standard library's and the `bytes` crate's reads, as session.rs uses them, on lists of bytes.
use clash_rs.Prelude.{
  arith, ◌++◌, ◌≡◌, ◌-◌, ◌||◌, ℕ, zero, suc, Bool, true, false, ◌&&◌, Option, none, some, [], ◌∷◌,
  ltb, leb, ◌==◌, if◌then◌else◌, length, take, drop,
}
use clash_rs.Prelude.Text.{Text}
use clash_rs.Prelude.Words.{from_be}
use clash_rs.Prelude.Outcome.{Outcome, ok, err, panic, ◌>>=◌}

-- The errors of session.rs; `other` is an `io::Error::other` with a message.
pub data IoError : Type 0 where
  other unexpected_eof invalid_domain invalid_atyp insuff_bytes domain_too_long : IoError

-- `AsyncReadExt`: a read past the end of the stream is an error.
abbrev pub read_u8 : Text → Outcome IoError (ℕ × Text)
read_u8 [] = err unexpected_eof
read_u8 (b ∷ s) = ok (b, s)

unfoldable pub read_exact : ℕ → Text → Outcome IoError (Text × Text)
read_exact n s = if ltb (length s) n then err unexpected_eof else ok (take n s, drop n s)

unfoldable pub read_be : ℕ → Text → Outcome IoError (ℕ × Text)
unfolding read_exact
read_be n s = do (bs, s) ← read_exact n s; ok (from_be bs, s)

-- `Buf`: a read past the end of the buffer panics.
abbrev pub get_u8 : Text → Outcome IoError (ℕ × Text)
get_u8 [] = panic
get_u8 (b ∷ s) = ok (b, s)

unfoldable pub copy_bytes : ℕ → Text → Outcome IoError (Text × Text)
copy_bytes n s = if ltb (length s) n then panic else ok (take n s, drop n s)

unfoldable pub get_be : ℕ → Text → Outcome IoError (ℕ × Text)
unfolding copy_bytes
get_be n s = do (bs, s) ← copy_bytes n s; ok (from_be bs, s)

-- `&buf[from..to]` panics if the range leaves the buffer.
unfoldable pub slice : ℕ → ℕ → Text → Outcome IoError Text
slice from to s =
    if ltb (length s) to || ltb to from then panic else ok (take (to - from) (drop from s))

-- `String::from_utf8`: how many continuation bytes follow a first byte, and the range of the next.
abbrev pub utf8_lead : ℕ → Option (ℕ × ℕ × ℕ)
utf8_lead b =
    if ltb b 0x80
    then some (0, 0x80, 0xbf)
    else if ltb b 0xc2
    then none
    else if ltb b 0xe0
    then some (1, 0x80, 0xbf)
    else if ltb b 0xe1
    then some (2, 0xa0, 0xbf)
    else if b == 0xed
    then some (2, 0x80, 0x9f)
    else if ltb b 0xf0
    then some (2, 0x80, 0xbf)
    else if b == 0xf0
    then some (3, 0x90, 0xbf)
    else if ltb b 0xf4
    then some (3, 0x80, 0xbf)
    else if b == 0xf4
    then some (3, 0x80, 0x8f)
    else none

utf8_from : ℕ → ℕ → ℕ → Text → Bool
utf8_from zero lo hi [] = true
utf8_from (suc n) lo hi [] = false
utf8_from zero lo hi (b ∷ s) = elim (utf8_lead b) [
  | none ↦ false
  | some (n, lo', hi') ↦ utf8_from n lo' hi' s
]
utf8_from (suc n) lo hi (b ∷ s) = leb lo b && leb b hi && utf8_from n 0x80 0xbf s

unfoldable pub is_utf8 : Text → Bool
unfolding utf8_from
is_utf8 s = utf8_from 0 0x80 0xbf s

utf8_from-append :
    (n lo hi : ℕ) (s t : Text)
    → utf8_from n lo hi s ≡ true
    → is_utf8 t ≡ true
    → utf8_from n lo hi (s ++ t) ≡ true
unfolding utf8_from is_utf8
utf8_from-append zero lo hi [] t h k = any_range t lo hi k
  where
    any_range : (t : Text) (lo hi : ℕ) → utf8_from 0 0x80 0xbf t ≡ true → utf8_from 0 lo hi t ≡ true
    any_range [] lo hi k = k
    any_range (b ∷ t) lo hi k = k
utf8_from-append (suc n) lo hi [] t h k = ground arith
utf8_from-append zero lo hi (b ∷ s) t h k =
    lead (utf8_lead b) (λ n lo' hi' e. utf8_from-append n lo' hi' s t e k) h
  where
    lead :
        (r : Option (ℕ × ℕ × ℕ))
        → ((n lo' hi' : ℕ) → utf8_from n lo' hi' s ≡ true → utf8_from n lo' hi' (s ++ t) ≡ true)
        → elim r [ none ↦ false | some (n, lo', hi') ↦ utf8_from n lo' hi' s ] ≡ true
        → elim r [ none ↦ false | some (n, lo', hi') ↦ utf8_from n lo' hi' (s ++ t) ] ≡ true
    lead none f h = h
    lead (some (n, lo', hi')) f h = f n lo' hi' h
utf8_from-append (suc n) lo hi (b ∷ s) t h k =
    let tail : utf8_from n 0x80 0xbf s ≡ true = ground arith in
    ground (arith, utf8_from-append n 0x80 0xbf s t tail k)

pub is_utf8-append : (s t : Text) → is_utf8 s ≡ true → is_utf8 t ≡ true → is_utf8 (s ++ t) ≡ true
unfolding is_utf8
is_utf8-append s t h k = utf8_from-append 0 0x80 0xbf s t h k
