-- ===== src/Hysteria2/Tests.antt =====
-- The theorems on Hysteria2 at concrete inputs.
use quic_proxy.Common.{
  ℕ, ◌≡◌, ◌≢◌, refl, true, none, some, List, [], ◌∷◌, ◌++◌, ok, length, replicate, arith, ◌<◌, ◌≤◌,
}
use quic_proxy.Common.Bytes.{Bytes, All}
use quic_proxy.Common.Utf8.{is_utf8}
use quic_proxy.Common.Assoc.{lookup, nat_eq}
use quic_proxy.Hysteria2.Varint.{varint_len, read_varint}
use quic_proxy.Hysteria2.Message.{
  UdpMessage, IsWire, pack, parse_udp_message, parse_udp_message-pack, udp_header_size,
}
use quic_proxy.Hysteria2.Fragments.{
  fragment_udp_payload, split_payload, split_loop, number_chunks, process_udp_datagram,
}
use quic_proxy.Hysteria2.Pending.{AllPending, process_udp_datagram-AllPending}
use quic_proxy.Hysteria2.Split.{fragment_udp_payload_fits}
use quic_proxy.Hysteria2.Collect.{deliver}
use quic_proxy.Hysteria2.Reassembly.{sent, IsDelivery, process_udp_datagram-fragments}
use quic_proxy.Hysteria2.Response.{
  ResponseReader, status, msg, done, parsed, wants_more, stuck, round, read_length, parse_loop,
  parse_step, feed, new_reader,
}
use quic_proxy.Hysteria2.Response.Rounds.{parse_step-ne-stuck}
use quic_proxy.Hysteria2.Response.Pieces.{parse_step-feed_more, parse_step-feed_parsed}
use quic_proxy.Hysteria2.Response.Frame.{response_frame, parse_step-frame}

-- "a:1"
abbrev place : Bytes
place = 97 ∷ 58 ∷ 49 ∷ []

place_text : is_utf8 place ≡ true
unfolding is_utf8
place_text = refl

abbrev part : ℕ → Bytes → UdpMessage
part i bytes = record {
  session_id = 7;
  packet_id = 9;
  frag_id = i;
  frag_count = 2;
  destination = place;
  payload = bytes;
}

abbrev two_parts : List UdpMessage
two_parts = part 0 (1 ∷ 2 ∷ []) ∷ part 1 (3 ∷ []) ∷ []

cut : fragment_udp_payload 7 9 place (1 ∷ 2 ∷ 3 ∷ []) 14 ≡ some two_parts
unfolding fragment_udp_payload split_payload split_loop number_chunks udp_header_size varint_len
cut = refl

-- The second part arrives first.
abbrev late : IsDelivery 2 100 ((100, 1) ∷ (105, 0) ∷ [])
late = record {
  in_range = (omega arith, (omega arith, tt));
  in_time = (omega arith, (omega arith, tt));
  distinct = (((λ p. omega arith), tt), (tt, tt));
}

process_udp_datagram-fragments_example :
    ((deliver (sent two_parts ((100, 1) ∷ (105, 0) ∷ [])) []).1
      ≡ replicate 1 (ok none) ++ (ok (some (place, 1 ∷ 2 ∷ 3 ∷ [])) ∷ []))
    × (lookup 9 (deliver (sent two_parts ((100, 1) ∷ (105, 0) ∷ [])) []).0 ≡ none)
unfolding lookup
process_udp_datagram-fragments_example =
    process_udp_datagram-fragments 7 9 place (1 ∷ 2 ∷ 3 ∷ []) 14 two_parts 100 1 ((105, 0) ∷ []) []
      cut (omega arith) (omega arith) (omega arith) (omega arith) (omega arith) place_text refl refl
      late

place_header : udp_header_size place < 14
unfolding udp_header_size varint_len
place_header = omega arith

fragment_udp_payload_fits_example : All (λ m. length (pack m) ≤ 14) two_parts
fragment_udp_payload_fits_example =
    fragment_udp_payload_fits 7 9 place (1 ∷ 2 ∷ 3 ∷ []) 14 place_header cut

part-IsWire : IsWire (part 0 (1 ∷ 2 ∷ []))
part-IsWire = record {
  session_fits = omega arith;
  packet_fits = omega arith;
  destination_some = omega arith;
  destination_max = omega arith;
  destination_text = place_text;
}

parse_udp_message-pack_example :
    parse_udp_message (pack (part 0 (1 ∷ 2 ∷ []))) ≡ ok (part 0 (1 ∷ 2 ∷ []))
parse_udp_message-pack_example = parse_udp_message-pack (part 0 (1 ∷ 2 ∷ [])) part-IsWire

parse_step-ne-stuck_example : (parse_step new_reader).1 ≢ stuck
parse_step-ne-stuck_example = parse_step-ne-stuck new_reader

-- A status byte and the length of a message of two bytes, of which none is there yet.
abbrev begun : ResponseReader
begun = record { buf = 1 ∷ 2 ∷ []; step = status; remote_error = none }

abbrev waiting : ResponseReader
waiting = record { buf = []; step = msg 2; remote_error = some [] }

begun_waits : parse_step begun ≡ (waiting, wants_more)
unfolding parse_step parse_loop round read_length read_varint
begun_waits = refl

parse_step-feed_more_example :
    parse_step (feed (104 ∷ 105 ∷ []) waiting) ≡ parse_step (feed (104 ∷ 105 ∷ []) begun)
parse_step-feed_more_example = parse_step-feed_more (104 ∷ 105 ∷ []) begun waiting begun_waits

abbrev accepted : ResponseReader
accepted = record { buf = 0 ∷ 0 ∷ 0 ∷ 42 ∷ []; step = status; remote_error = none }

abbrev finished : ResponseReader
finished = record { buf = 42 ∷ []; step = done; remote_error = none }

accepted_parsed : parse_step accepted ≡ (finished, parsed)
unfolding parse_step parse_loop round read_length read_varint
accepted_parsed = refl

parse_step-feed_parsed_example :
    parse_step (feed (43 ∷ []) accepted) ≡ (feed (43 ∷ []) finished, parsed)
parse_step-feed_parsed_example = parse_step-feed_parsed (43 ∷ []) accepted finished accepted_parsed

parse_step-frame_example :
    parse_step (feed (response_frame 1 place (0 ∷ 0 ∷ []) (42 ∷ [])) new_reader)
    ≡ (record { buf = 42 ∷ []; step = done; remote_error = some place }, parsed)
parse_step-frame_example =
    parse_step-frame 1 place (0 ∷ 0 ∷ []) (42 ∷ []) (omega arith) (omega arith) place_text

process_udp_datagram-AllPending_example :
    AllPending (process_udp_datagram 3 (pack (part 0 (1 ∷ 2 ∷ []))) []).0
process_udp_datagram-AllPending_example =
    process_udp_datagram-AllPending 3 (pack (part 0 (1 ∷ 2 ∷ []))) [] tt
