-- ===== src/Addr/Tests.antt =====
-- The theorems on addresses at concrete inputs; here no name is an IP literal.
use quic_proxy.Common.{◌≡◌, refl, true, Option, none, some, [], ◌∷◌, ◌++◌, ok, arith}
use quic_proxy.Common.Bytes.{Bytes}
use quic_proxy.Common.Utf8.{is_utf8}
use quic_proxy.Addr.{
  v4, IpAddr, ip, domain, encoded_len, write_to, decode, decode_v4, decode_v6, decode_domain,
  read_from,
}
use quic_proxy.Addr.Decode.{decode-write_to}
use quic_proxy.Addr.{from_str, parse_u16}
use quic_proxy.Addr.Parse.{from_str-domain}
use quic_proxy.Addr.Stream.{streamed, read_from-eq-decode}

abbrev no_ip : Bytes → Option IpAddr
no_ip name = none

abbrev host : Bytes
host = 97 ∷ 46 ∷ 98 ∷ []

host_text : is_utf8 host ≡ true
unfolding is_utf8
host_text = refl

decode-write_to_example :
    decode no_ip (write_to (domain host 443) [] ++ (1 ∷ 2 ∷ []))
    ≡ ok (some (domain host 443, encoded_len (domain host 443)))
decode-write_to_example =
    decode-write_to no_ip (domain host 443) (1 ∷ 2 ∷ []) (omega arith, omega arith, host_text, refl)

abbrev loopback : Bytes
loopback = 1 ∷ 127 ∷ 0 ∷ 0 ∷ 1 ∷ 0 ∷ 53 ∷ []

decoded_loopback : decode no_ip loopback ≡ ok (some (ip (v4 (127 ∷ 0 ∷ 0 ∷ 1 ∷ []) 53), 7))
unfolding decode decode_v4 decode_v6 decode_domain
decoded_loopback = refl

read_from-eq-decode_example : read_from no_ip loopback ≡ streamed loopback (decode no_ip loopback)
read_from-eq-decode_example = read_from-eq-decode no_ip loopback

-- "53"
abbrev digits : Bytes
digits = 53 ∷ 51 ∷ []

digits_read : parse_u16 digits ≡ some 53
unfolding parse_u16
digits_read = refl

from_str-domain_example : from_str (λ s. none) (host ++ (58 ∷ digits)) ≡ ok (domain host 53)
from_str-domain_example =
    from_str-domain (λ s. none) host digits 53 refl ((λ e. omega arith), ((λ e. omega arith), tt))
      digits_read (omega arith) (omega arith)
