-- ===== src/Hysteria2.antt =====
-- clash-lib/src/proxy/hysteria2/codec.rs: the UDP packets of Hysteria 2 and their fragments.
--
-- `Codecs` holds what is not part of the program: the variable-length integers of the crate
-- `quinn-proto`, and the printing and parsing of socket addresses and ports of the standard
-- library. Errors of `anyhow` are `other`. A read or a `split_to` past the end of a buffer panics.
pub mod Laws
pub mod Packet
pub mod Fragments
pub mod Slots
pub mod Defrag
pub mod Connection
pub mod Tcp
pub mod Salamander
mod Unary
mod Examples
use clash_rs.Prelude.{
  ℕ, zero, suc, ◌+◌, ◌-◌, ◌/◌, ◌%◌, ◌^◌, ◌==◌, ltb, leb, min, Bool, true, false, not, ◌&&◌, ◌||◌,
  Option, none, some, List, [], ◌∷◌, ◌++◌, if◌then◌else◌, length, set, get_or, replicate, drop,
  take,
}
use clash_rs.Prelude.Text.{Text, codes}
use clash_rs.Prelude.Words.{be_bytes}
use clash_rs.Prelude.Outcome.{Outcome, ok, err, panic, ◌>>=◌, ok_or}
use clash_rs.Session.{SocketAddr, SocksAddr, domain}
use clash_rs.Session.Buffer.{IoError, other, get_u8, get_be, copy_bytes, is_utf8}

pub record Codecs : Type 0 where
  pub encode_var : ℕ → Text
  pub decode_var : Text → Option (ℕ × Text)
  pub print_socket : SocketAddr → Text
  pub parse_socket : Text → Option SocketAddr
  pub print_port : ℕ → Text
  pub parse_port : Text → Option ℕ

-- `var_size`; `none` is the unreachable case of a number that has no encoding.
abbrev pub var_size : ℕ → Option ℕ
var_size x =
    if ltb x (2 ^ 6)
    then some 1
    else if ltb x (2 ^ 14)
    then some 2
    else if ltb x (2 ^ 30)
    then some 4
    else if ltb x (2 ^ 62)
    then some 8
    else none

pub record HysUdpPacket : Type 0 where
  pub session_id : ℕ
  pub pkt_id : ℕ
  pub frag_id : ℕ
  pub frag_count : ℕ
  pub addr : SocksAddr
  pub payload : Text

abbrev pub split_behind : ℕ → ℕ → Text → Option (Text × Text) → Option (Text × Text)
split_behind sep c s none = if c == sep then some ([], s) else none
split_behind sep c s (some (h, p)) = some (c ∷ h, p)

-- `str::rsplit_once` at a byte
abbrev pub rsplit_once : ℕ → Text → Option (Text × Text)
rsplit_once sep [] = none
rsplit_once sep (c ∷ s) = split_behind sep c s (rsplit_once sep s)

module _ (codecs : Codecs) where
  open codecs use {encode_var, decode_var, print_socket, parse_socket, print_port, parse_port}

  -- `Display` for `SocksAddr`
  abbrev pub to_string : SocksAddr → Text
  to_string (SocksAddr.ip a) = print_socket a
  to_string (domain host port) = host ++ (codes ":" ++ print_port port)

  abbrev pub socket_or : Text → ℕ → Option SocketAddr → SocksAddr
  socket_or host port none = domain host port
  socket_or host port (some a) = SocksAddr.ip a

  abbrev pub with_port : Text → Text → Option ℕ → Outcome IoError SocksAddr
  with_port text host none = err other
  with_port text host (some port) = ok (socket_or host port (parse_socket text))

  abbrev pub host_and_port : Text → Option (Text × Text) → Outcome IoError SocksAddr
  host_and_port text none = err other
  host_and_port text (some (host, port)) = with_port text host (parse_port port)

  unfoldable pub to_socksaddr : Text → Outcome IoError SocksAddr
  to_socksaddr bytes =
      if is_utf8 bytes then host_and_port bytes (rsplit_once b':' bytes) else err other

  unfoldable pub decode : Text → Outcome IoError HysUdpPacket
  unfolding to_socksaddr
  decode buf = if ltb (length buf) (4 + 2 + 1 + 1) then err other else (do
    (session_id, buf) ← get_be 4 buf
    (pkt_id, buf) ← get_be 2 buf
    (frag_id, buf) ← get_u8 buf
    (frag_count, buf) ← get_u8 buf
    (addr_len, buf) ← ok_or other (decode_var buf)
    (addr, bytes) ← copy_bytes addr_len buf
    a ← to_socksaddr addr
    ok (record {
      session_id = session_id;
      pkt_id = pkt_id;
      frag_id = frag_id;
      frag_count = frag_count;
      addr = a;
      payload = bytes;
    }))

-- The iterator's fields. `addr` is the text of the address.
pub record Iter : Type 0 where
  pub session_id : ℕ
  pub pkt_id : ℕ
  pub addr : Text
  pub frag_total : ℕ
  pub next_frag_id : ℕ
  pub next_frag_start : ℕ
  pub payload : Text
  pub max_pkt_size : ℕ
  pub fixed_size : ℕ

abbrev pub div_ceil : ℕ → ℕ → ℕ
div_ceil n m = (n + m - 1) / m

abbrev pub fixed_size_of : Text → ℕ → ℕ
fixed_size_of addr size = 4 + 2 + 1 + 1 + length addr + size

abbrev pub fragments_of : ℕ → ℕ → Text → ℕ → Text → ℕ → Iter
fragments_of session_id pkt_id addr max_pkt_size payload size = record {
  session_id = session_id;
  pkt_id = pkt_id;
  addr = addr;
  frag_total = div_ceil (length payload) (max_pkt_size - fixed_size_of addr size) % 2 ^ 8;
  next_frag_id = 0;
  next_frag_start = 0;
  payload = payload;
  max_pkt_size = max_pkt_size;
  fixed_size = fixed_size_of addr size;
}

-- The subtraction panics with overflow checks, the division by zero always.
abbrev pub with_size : ℕ → ℕ → Text → ℕ → Text → Option ℕ → Outcome IoError Iter
with_size session_id pkt_id addr max_pkt_size payload none = panic
with_size session_id pkt_id addr max_pkt_size payload (some size) =
    if leb max_pkt_size (fixed_size_of addr size)
    then panic
    else ok (fragments_of session_id pkt_id addr max_pkt_size payload size)

module _ (codecs : Codecs) where
  -- `Fragments::new`
  unfoldable pub new : ℕ → ℕ → SocksAddr → ℕ → Text → Outcome IoError Iter
  new session_id pkt_id a max_pkt_size payload =
      let addr = to_string codecs a in
      with_size session_id pkt_id addr max_pkt_size payload (var_size (length addr % 2 ^ 32))

  abbrev pub header : Iter → ℕ → Text
  header it frag_id =
      be_bytes 4 it.session_id
      ++ (be_bytes 2 it.pkt_id
          ++ (frag_id ∷ it.frag_total ∷ (codecs.encode_var (length it.addr % 2 ^ 32) ++ it.addr)))

  abbrev pub next_frag_end : Iter → ℕ
  next_frag_end it =
      min (it.next_frag_start + (it.max_pkt_size - it.fixed_size)) (length it.payload)

  -- `Iterator::next`
  unfoldable pub next : Iter → Option (Text × Iter)
  next it =
      if ltb it.next_frag_id it.frag_total
      then some (
        header it it.next_frag_id
            ++ take (next_frag_end it - it.next_frag_start) (drop it.next_frag_start it.payload),
        record it { next_frag_id = it.next_frag_id + 1; next_frag_start = next_frag_end it },
      )
      else none

  abbrev pub and_then : {A : Type 0} → Option (Text × A) → (A → List Text) → List Text
  and_then none f = []
  and_then (some (t, a)) f = t ∷ f a

  -- The `for` loop over the iterator, for at most so many rounds.
  unfoldable pub collect : ℕ → Iter → List Text
  unfolding next
  collect zero it = []
  collect (suc fuel) it = and_then (next it) (λ it'. collect fuel it')

pub record Defragger : Type 0 where
  pub pkt_id : ℕ
  pub frags : List (Option HysUdpPacket)
  pub cnt : ℕ

-- `Defragger::default`
abbrev pub default_defragger : Defragger
default_defragger = record { pkt_id = 0; frags = []; cnt = 0 }

abbrev pub is_none {ℓ} : {A : Type ℓ} → Option A → Bool
is_none none = true
is_none (some a) = false

abbrev pub join_payload : Text → Option Text → Option Text
join_payload s none = none
join_payload s (some t) = some (s ++ t)

-- The payloads one after the other; `unwrap` panics on a missing one.
abbrev pub rest_payload : List (Option HysUdpPacket) → Option Text
rest_payload [] = some []
rest_payload (none ∷ ps) = none
rest_payload (some p ∷ ps) = join_payload p.payload (rest_payload ps)

abbrev pub with_rest : HysUdpPacket → Option Text → Outcome IoError (Option HysUdpPacket)
with_rest p none = panic
with_rest p (some t) =
    ok (some (record p { frag_count = 1; frag_id = 0; payload = p.payload ++ t }))

abbrev pub join : List (Option HysUdpPacket) → Outcome IoError (Option HysUdpPacket)
join [] = panic
join (none ∷ ps) = panic
join (some p ∷ ps) = with_rest p (rest_payload ps)

-- The fragments with the new one: when all are there they are taken out and joined.
abbrev pub filled :
    Defragger → List (Option HysUdpPacket) → ℕ → Defragger × Outcome IoError (Option HysUdpPacket)
filled d frags cnt =
    if cnt == length frags
    then (record d { frags = []; cnt = cnt }, join frags)
    else (record d { frags = frags; cnt = cnt }, ok none)

unfoldable pub feed : Defragger → HysUdpPacket → Defragger × Outcome IoError (Option HysUdpPacket)
feed d p =
    if p.frag_count == 1
    then (d, ok (some p))
    else if leb p.frag_count p.frag_id
    then (d, ok none)
    else if not (p.pkt_id == d.pkt_id) || not (p.frag_count == length d.frags)
    then (
      record {
        pkt_id = p.pkt_id;
        frags = set (replicate p.frag_count none) p.frag_id (some p);
        cnt = 1;
      },
      ok none,
    )
    else if ltb p.frag_id (length d.frags) && is_none (get_or d.frags p.frag_id none)
    then filled d (set d.frags p.frag_id (some p)) ((d.cnt + 1) % 2 ^ 16)
    else (d, ok none)
