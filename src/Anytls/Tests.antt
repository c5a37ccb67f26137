-- ===== src/Anytls/Tests.antt =====
-- The theorems on AnyTLS at concrete inputs.
use quic_proxy.Common.{◌≡◌, refl, true, false, none, some, List, [], ◌∷◌, ◌++◌, ok, arith}
use quic_proxy.Common.Bytes.{Bytes}
use quic_proxy.Common.Utf8.{is_utf8}
use quic_proxy.Addr.{TargetAddr, domain}
use quic_proxy.Anytls.Frame.{syn, psh, Frame, append_frame, copy_from}
use quic_proxy.Anytls.Reader.{FrameReader, read_frame}
use quic_proxy.Anytls.Reader.Unread.{IsLive, unread, Reads, read_frame-Reads}
use quic_proxy.Anytls.Reader.Sequence.{
  append_frames, read_frames, Finished, read_frames-append_frames,
}
use quic_proxy.Anytls.Drain.{drain, copy_from-drain}
use quic_proxy.Anytls.Uot.{
  uot_write_target, next_packet, push, encode_uot_packet, decode_uot_packet,
}
use quic_proxy.Anytls.Packets.{decode_uot_packet-encode, next_packet-whole, next_packet-piece}

abbrev wire : Bytes
wire = 1 ∷ 0 ∷ 0 ∷ 0 ∷ 3 ∷ 0 ∷ 0 ∷ 2 ∷ 0 ∷ 0 ∷ 0 ∷ 3 ∷ 0 ∷ 2 ∷ 104 ∷ 105 ∷ []

abbrev two_frames : List Frame
two_frames = (syn, 3, []) ∷ (psh, 3, 104 ∷ 105 ∷ []) ∷ []

two_frames-wire : append_frames [] two_frames ≡ ok wire
unfolding append_frames append_frame
two_frames-wire = refl

-- The first piece ends inside the second header.
abbrev cut_stream : FrameReader
cut_stream = record {
  stream =
      (1 ∷ 0 ∷ 0 ∷ 0 ∷ 3 ∷ 0 ∷ 0 ∷ 2 ∷ 0 ∷ [])
      ∷ (0 ∷ 0 ∷ 3 ∷ 0 ∷ 2 ∷ 104 ∷ [])
      ∷ (105 ∷ 9 ∷ [])
      ∷ [];
  buf = [];
}

cut_stream-IsLive : IsLive cut_stream.stream
cut_stream-IsLive = ((λ p. cc), ((λ p. cc), ((λ p. cc), tt)))

read_frame-Reads_example : Reads (unread cut_stream) (read_frame cut_stream)
read_frame-Reads_example = read_frame-Reads cut_stream cut_stream-IsLive

read_frames-append_frames_example : Finished (9 ∷ []) two_frames (read_frames 2 cut_stream)
read_frames-append_frames_example =
    read_frames-append_frames two_frames wire (9 ∷ []) cut_stream (omega arith, (omega arith, tt))
      two_frames-wire cut_stream-IsLive refl

copy_from-drain_example :
    ((copy_from (1 ∷ 2 ∷ 3 ∷ []) 2).1 ++ (drain (copy_from (1 ∷ 2 ∷ 3 ∷ []) 2).0 (5 ∷ [])).1
      ≡ 1 ∷ 2 ∷ 3 ∷ [])
    × ((drain (copy_from (1 ∷ 2 ∷ 3 ∷ []) 2).0 (5 ∷ [])).0 ≡ [])
copy_from-drain_example = copy_from-drain (1 ∷ 2 ∷ 3 ∷ []) 2 (5 ∷ [])

abbrev name : TargetAddr
name = domain (97 ∷ []) 53

name_text : is_utf8 (97 ∷ []) ≡ true
unfolding is_utf8
name_text = refl

abbrev packet : Bytes
packet = 2 ∷ 1 ∷ 97 ∷ 0 ∷ 53 ∷ 0 ∷ 2 ∷ 7 ∷ 8 ∷ []

packet_encoded : encode_uot_packet (7 ∷ 8 ∷ []) (some name) ≡ ok packet
unfolding encode_uot_packet uot_write_target
packet_encoded = refl

decode_uot_packet-encode_example : decode_uot_packet packet false ≡ ok (some name, 7 ∷ 8 ∷ [])
decode_uot_packet-encode_example =
    decode_uot_packet-encode (7 ∷ 8 ∷ []) (some name) packet (omega arith, omega arith, name_text)
      packet_encoded

next_packet-whole_example :
    next_packet false (push packet (2 ∷ 9 ∷ [])) ≡ (2 ∷ 9 ∷ [], ok (some packet))
next_packet-whole_example =
    next_packet-whole (7 ∷ 8 ∷ []) (some name) packet (2 ∷ 9 ∷ [])
      (omega arith, omega arith, name_text) packet_encoded

next_packet-piece_example : next_packet false (2 ∷ 1 ∷ 97 ∷ []) ≡ (2 ∷ 1 ∷ 97 ∷ [], ok none)
next_packet-piece_example =
    next_packet-piece (7 ∷ 8 ∷ []) (some name) packet (2 ∷ 1 ∷ 97 ∷ [])
      (0 ∷ 53 ∷ 0 ∷ 2 ∷ 7 ∷ 8 ∷ []) (omega arith, omega arith, name_text) packet_encoded refl
      (λ p. cc)
