-- ===== src/Session/Examples.antt =====
-- The readers at concrete addresses, and the theorems at concrete inputs.
use clash_rs.Prelude.{◌≡◌, refl, [], ◌∷◌, ◌++◌, replicate, arith}
use clash_rs.Prelude.Text.{Text, codes}
use clash_rs.Prelude.Outcome.{ok}
use clash_rs.Session.Buffer.{is_utf8}
use clash_rs.Session.{SocksAddr, domain, write_buf, read_from}
use clash_rs.Session.Codec.{IsEncodable, read_from-write_buf}

abbrev host : SocksAddr
host = domain (codes "a.io") 443

host-IsEncodable : IsEncodable host
unfolding is_utf8
host-IsEncodable = (omega arith, refl, omega arith)

written : write_buf host ≡ 3 ∷ 4 ∷ 97 ∷ 46 ∷ 105 ∷ 111 ∷ 1 ∷ 187 ∷ []
unfolding write_buf
written = refl

read_from-write_buf_example : read_from (write_buf host ++ codes "rest") ≡ ok (host, codes "rest")
read_from-write_buf_example = read_from-write_buf host (codes "rest") host-IsEncodable

abbrev long_name : Text
long_name = replicate 256 97
