-- ===== src/Vless/Stream.antt =====
-- clash-lib/src/proxy/vless/stream.rs: the request in front of the first bytes of a VLESS stream, and
-- the response in front of the first bytes that are read; with `write_to_buf_vmess` of
-- clash-lib/src/proxy/vmess/vmess_impl/mod.rs.
--
-- `wire` is what the stream below has taken, and `input` what it will give. A poll makes a new future
-- of `send_handshake_with_data` or `receive_response` and drops it when it is pending, with what it
-- has written or read.
pub mod Requests
pub mod Responses
pub mod Format
mod Examples
use clash_rs.Prelude.{
  ℕ, ◌+◌, ◌%◌, min, Bool, true, false, not, ◌&&◌, List, [], ◌∷◌, ◌++◌, length, take, drop, ◌==◌,
  if◌then◌else◌,
}
use clash_rs.Prelude.Text.{Text}
use clash_rs.Prelude.Words.{be_bytes}
use clash_rs.Session.{SocksAddr, IpAddr, v4, v6, domain}
use clash_rs.Streams.{
  Accept, wrote, blocked, failed, Polled, pending, done, broken, write_all, Input, Got, got, eof,
  wait, read, read_some,
}

abbrev pub vless_version : ℕ
vless_version = 0

abbrev pub vless_command_tcp : ℕ
vless_command_tcp = 1

abbrev pub vless_command_udp : ℕ
vless_command_udp = 2

abbrev pub write_ip_vmess : IpAddr → ℕ → Text
write_ip_vmess (v4 a) p = be_bytes 2 p ++ 1 ∷ be_bytes 4 a
write_ip_vmess (v6 a) p = be_bytes 2 p ++ 3 ∷ be_bytes 16 a

unfoldable pub write_to_buf_vmess : SocksAddr → Text
write_to_buf_vmess (SocksAddr.ip a) = write_ip_vmess a.ip a.port
write_to_buf_vmess (domain d p) = be_bytes 2 p ++ 2 ∷ (length d % 256) ∷ d

pub record VlessStream : Type 0 where
  pub wire : Text
  pub input : Input
  pub handshake_done : Bool
  pub handshake_sent : Bool
  pub response_received : Bool
  pub uuid : Text
  pub destination : SocksAddr
  pub is_udp : Bool

abbrev pub build_handshake_header : VlessStream → Text
build_handshake_header s =
    vless_version
    ∷ (s.uuid
        ++ (0
            ∷ (if s.is_udp then vless_command_udp else vless_command_tcp)
            ∷ write_to_buf_vmess s.destination))

-- `Poll<io::Result<usize>>`
pub data Written : Type 0 where
  ready : ℕ → Written
  write_pending write_failed : Written

abbrev pub after_write_all : ℕ → Polled × Text → VlessStream → Written × VlessStream
after_write_all n (done, out) s =
    (ready n, record s { wire = s.wire ++ out; handshake_sent = true })
after_write_all n (pending, out) s = (write_pending, record s { wire = s.wire ++ out })
after_write_all n (broken, out) s = (write_failed, record s { wire = s.wire ++ out })

unfoldable pub send_handshake_with_data : List Accept → Text → VlessStream → Written × VlessStream
send_handshake_with_data script bytes s =
    if s.handshake_sent
    then (ready 0, s)
    else after_write_all (length bytes) (write_all script (build_handshake_header s ++ bytes)) s

-- The `poll_write` of the stream below.
abbrev pub inner_write : List Accept → Text → VlessStream → Written × VlessStream
inner_write [] bytes s = (write_pending, s)
inner_write (blocked ∷ script) bytes s = (write_pending, s)
inner_write (failed ∷ script) bytes s = (write_failed, s)
inner_write (wrote n ∷ script) bytes s =
    (ready (min n (length bytes)), record s { wire = s.wire ++ take n bytes })

unfoldable pub poll_write : List Accept → Text → VlessStream → Written × VlessStream
unfolding send_handshake_with_data
poll_write script bytes s =
    if s.handshake_sent then inner_write script bytes s else send_handshake_with_data script bytes s

pub data ReadError : Type 0 where
  unexpected_eof invalid_version : ReadError

-- `Poll<io::Result<()>>`, with the bytes that are read.
pub data Readout : Type 0 where
  bytes : Text → Readout
  read_pending : Readout
  read_failed : ReadError → Readout

abbrev responded : Input → VlessStream → Readout × VlessStream
responded i s = (bytes [], record s { input = i; response_received = true; handshake_done = true })

abbrev pub after_info : Got × Input → VlessStream → Readout × VlessStream
after_info (got info, i) s = responded i s
after_info (eof, i) s = (read_failed unexpected_eof, record s { input = i })
after_info (wait, i) s = (read_pending, record s { input = i })

-- The two bytes are the version and the length of the additional information.
abbrev pub after_response : Got × Input → VlessStream → Readout × VlessStream
after_response (got (version ∷ (len ∷ rest)), i) s =
    if version == vless_version
    then (if len == 0 then responded i s else after_info (read len i) s)
    else (read_failed invalid_version, record s { input = i })
after_response (got [], i) s = (read_failed unexpected_eof, record s { input = i })
after_response (got (version ∷ []), i) s = (read_failed unexpected_eof, record s { input = i })
after_response (eof, i) s = (read_failed unexpected_eof, record s { input = i })
after_response (wait, i) s = (read_pending, record s { input = i })

unfoldable pub receive_response : VlessStream → Readout × VlessStream
receive_response s =
    if s.response_received then (bytes [], s) else after_response (read 2 s.input) s

abbrev pub read_result : Got × Input → VlessStream → Readout × VlessStream
read_result (got bs, i) s = (bytes bs, record s { input = i })
read_result (eof, i) s = (bytes [], record s { input = i })
read_result (wait, i) s = (read_pending, record s { input = i })

-- The `poll_read` of the stream below, into a buffer of that size.
abbrev pub inner_read : ℕ → Readout × VlessStream → Readout × VlessStream
inner_read size (bytes bs, s) = read_result (read_some size s.input) s
inner_read size (read_pending, s) = (read_pending, s)
inner_read size (read_failed e, s) = (read_failed e, s)

unfoldable pub poll_read : ℕ → VlessStream → Readout × VlessStream
unfolding receive_response
poll_read size s =
    inner_read size
      (if s.handshake_sent && not s.response_received then receive_response s else (bytes [], s))
