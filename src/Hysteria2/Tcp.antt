-- ===== src/Hysteria2/Tcp.antt =====
-- clash-lib/src/proxy/hysteria2/codec.rs: `Hy2TcpCodec`, the request for a stream and its response.
--
-- The random padding of a request is an argument. The buffer that `decode` leaves behind is a result.
use clash_rs.Prelude.{
  ℕ, ◌%◌, ◌^◌, ◌<◌, ◌==◌, ltb, true, false, [], ◌∷◌, ◌++◌, append_assoc, ◌≡◌, if◌then◌else◌, length,
  take, drop, length-append, take-append, drop-append, arith,
}
use clash_rs.Prelude.Text.{Text}
use clash_rs.Prelude.Outcome.{Outcome, ok, err, ◌>>=◌, ok_or}
use clash_rs.Session.{SocksAddr}
use clash_rs.Session.Buffer.{is_utf8}
use clash_rs.Hysteria2.{Codecs, to_string}
use clash_rs.Hysteria2.Laws.{Laws}

pub record Hy2TcpResp : Type 0 where
  pub status : ℕ
  pub msg : Text

pub data TcpError : Type 0 where
  unexpected_eof invalid_data refused no_response : TcpError

abbrev pub get_status : Text → Outcome TcpError (ℕ × Text)
get_status [] = err unexpected_eof
get_status (b ∷ s) = ok (b, s)

-- `split_to` behind the check of the remaining bytes
abbrev pub split : ℕ → Text → Outcome TcpError (Text × Text)
split n src = if ltb (length src) n then err unexpected_eof else ok (take n src, drop n src)

abbrev pub from_utf8 : Text → Outcome TcpError Text
from_utf8 s = if is_utf8 s then ok s else err invalid_data

module _ (codecs : Codecs) where
  -- `Decoder::decode`
  unfoldable pub decode_resp : Text → Outcome TcpError (Hy2TcpResp × Text)
  decode_resp src = do
    (status, src) ← get_status src
    (msg_len, src) ← ok_or invalid_data (codecs.decode_var src)
    (msg, src) ← split msg_len src
    msg ← from_utf8 msg
    (padding_len, src) ← ok_or unexpected_eof (codecs.decode_var src)
    (padding, src) ← split padding_len src
    ok (record { status = status; msg = msg }, src)

  -- `Encoder::encode`
  unfoldable pub encode_request : Text → SocksAddr → Text
  encode_request padding item =
      let addr = to_string codecs item in
      codecs.encode_var 0x401
      ++ (codecs.encode_var (length addr % 2 ^ 32)
          ++ (addr ++ (codecs.encode_var (length padding % 2 ^ 32) ++ padding)))

  -- `connect_tcp`: what the response decides. The stream ends without one, or with half of one.
  abbrev pub accepted : Outcome TcpError (Hy2TcpResp × Text) → Outcome TcpError Text
  accepted (ok (resp, rest)) = if resp.status == 0 then ok rest else err refused
  accepted r = err no_response

  -- A response as the format tells it.
  abbrev pub response : Hy2TcpResp → Text → Text
  response resp padding =
      resp.status
      ∷ (codecs.encode_var (length resp.msg)
          ++ (resp.msg ++ (codecs.encode_var (length padding) ++ padding)))

split-append : (xs rest : Text) → split (length xs) (xs ++ rest) ≡ ok (xs, rest)
split-append xs rest =
    let long : ltb (length (xs ++ rest)) (length xs) ≡ false =
      ground (arith, length-append xs rest) in
    rw (long, take-append xs rest, drop-append xs rest)

-- `decode` reads a response whose message is UTF-8, skips the padding and leaves the bytes behind
-- it in the buffer.
pub decode_resp-response :
    (codecs : Codecs) (resp : Hy2TcpResp) (padding rest : Text)
    → Laws codecs
    → is_utf8 resp.msg ≡ true
    → length resp.msg < 2 ^ 62
    → length padding < 2 ^ 62
    → decode_resp codecs (response codecs resp padding ++ rest) ≡ ok (resp, rest)
unfolding decode_resp
decode_resp-response codecs resp padding rest laws utf8 msg pad = rw (
  append_assoc (codecs.encode_var (length resp.msg))
      (resp.msg ++ (codecs.encode_var (length padding) ++ padding)) rest,
  laws.decode_var-encode_var (length resp.msg)
      ((resp.msg ++ (codecs.encode_var (length padding) ++ padding)) ++ rest) msg,
  append_assoc resp.msg (codecs.encode_var (length padding) ++ padding) rest,
  split-append resp.msg ((codecs.encode_var (length padding) ++ padding) ++ rest),
  utf8,
  append_assoc (codecs.encode_var (length padding)) padding rest,
  laws.decode_var-encode_var (length padding) (padding ++ rest) pad,
  split-append padding rest,
)
