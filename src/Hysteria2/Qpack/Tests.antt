-- ===== src/Hysteria2/Qpack/Tests.antt =====
-- The theorems on QPACK at concrete inputs.
use quic_proxy.Common.{◌≡◌, ◌≢◌, refl, true, List, [], ◌∷◌, ok, err, arith}
use quic_proxy.Common.Utf8.{is_utf8}
use quic_proxy.Hysteria2.Qpack.{
  text, out_of_fuel, bad_padding, read_int, huffman_loop, check_padding, huffman_decode,
  find_symbol, Field, encode_field_section, decode_field_section, decode_fields, read_field,
  read_indexed, read_prefixed,
}
use quic_proxy.Hysteria2.Qpack.Sections.{decode_field_section-encode}
use quic_proxy.Hysteria2.Qpack.Fuel.{decode_field_section-ne-out_of_fuel}
use quic_proxy.Hysteria2.Qpack.Padding.{huffman_decode-ne-bad_padding}

abbrev request : List Field
request = (text ":method", text "POST") ∷ (text "hysteria-auth", text "pw") ∷ []

request_text :
    (is_utf8 (text ":method") ≡ true)
    × (is_utf8 (text "POST") ≡ true)
    × (is_utf8 (text "hysteria-auth") ≡ true)
    × (is_utf8 (text "pw") ≡ true)
unfolding is_utf8
request_text = (refl, refl, refl, refl)

decode_field_section-encode_example :
    decode_field_section (encode_field_section request) ≡ ok request
decode_field_section-encode_example = decode_field_section-encode request (
  (request_text.0, request_text.1, omega arith, omega arith),
  ((request_text.2, request_text.3, omega arith, omega arith), tt),
)

decode_field_section-ne-out_of_fuel_example :
    decode_field_section (0 ∷ 0 ∷ 217 ∷ []) ≢ err out_of_fuel
decode_field_section-ne-out_of_fuel_example = decode_field_section-ne-out_of_fuel (0 ∷ 0 ∷ 217 ∷ [])

huffman_decode-ne-bad_padding_example : huffman_decode (24 ∷ []) ≢ err bad_padding
huffman_decode-ne-bad_padding_example = huffman_decode-ne-bad_padding (24 ∷ [])

-- `a` and three zero bits, which are no padding.
zero_padding : huffman_decode (24 ∷ []) ≡ ok (text "a")
unfolding huffman_decode huffman_loop find_symbol check_padding
zero_padding = refl

-- Row 25 of the static table, as a server answers.
status_found : decode_field_section (0 ∷ 0 ∷ 217 ∷ []) ≡ ok ((text ":status", text "200") ∷ [])
unfolding decode_field_section decode_fields read_field read_indexed read_int read_prefixed
status_found = refl
