-- ===== src/Anytls/Padding/Tests.antt =====
-- The theorem on padding at a concrete input; two entries with the same range
-- draw different sizes.
use quic_proxy.Common.{
  ℕ, ◌≡◌, refl, true, List, [], ◌∷◌, ◌++◌, map, ok, length, arith, ◌≤◌, ltb, if◌then◌else◌, if_both,
  replicate,
}
use quic_proxy.Common.Bytes.{Bytes}
use quic_proxy.Common.Assoc.{lookup}
use quic_proxy.Anytls.Frame.{psh, Frame, append_frame}
use quic_proxy.Anytls.Reader.{FrameReader}
use quic_proxy.Anytls.Reader.Sequence.{append_frames, read_frames, Finished}
use quic_proxy.Anytls.Padding.{
  fixed, range, check_mark, Padder, payload_sizes, generate_record_payload_sizes, waste_record,
  last_record, write_records, write_left, write_with_padding,
}
use quic_proxy.Anytls.Padding.Frames.{padding, read_frames-write_with_padding}

-- The first entries draw the draw size, the later ones the greatest.
abbrev draw : ℕ → ℕ → ℕ → ℕ
draw i low high = if ltb i 3 then low else high

draw-in_range : (i low high : ℕ) → low ≤ high → (low ≤ draw i low high) × (draw i low high ≤ high)
draw-in_range i low high l =
    if_both (λ x. (low ≤ x) × (x ≤ high)) (ltb i 3) (omega arith, l) (l, omega arith)

abbrev padder : Padder
padder = record {
  send_padding = true;
  packet_count = 0;
  padding_scheme = record {
    stop_at = 8;
    policies = (0, fixed 4 ∷ check_mark ∷ range 14 20 ∷ range 14 20 ∷ []) ∷ [];
  };
}

abbrev hello : List Frame
hello = (psh, 3, 104 ∷ 105 ∷ []) ∷ []

abbrev hello_wire : Bytes
hello_wire = 2 ∷ 0 ∷ 0 ∷ 0 ∷ 3 ∷ 0 ∷ 2 ∷ 104 ∷ 105 ∷ []

hello_appended : append_frames [] hello ≡ ok hello_wire
unfolding append_frames append_frame
hello_appended = refl

abbrev records : List Bytes
records =
    (2 ∷ 0 ∷ 0 ∷ 0 ∷ [])
    ∷ (3 ∷ 0 ∷ 2 ∷ 104 ∷ 105 ∷ [])
    ∷ (0 ∷ 0 ∷ 0 ∷ 0 ∷ 0 ∷ 0 ∷ 2 ∷ 0 ∷ 0 ∷ [])
    ∷ (0 ∷ 0 ∷ 0 ∷ 0 ∷ 0 ∷ 0 ∷ 20 ∷ (replicate 20 0))
    ∷ []

hello_records : (write_with_padding draw hello_wire padder).1 ≡ records
unfolding write_with_padding generate_record_payload_sizes payload_sizes write_records write_left
    last_record waste_record lookup
hello_records = refl

abbrev cut_records : FrameReader
cut_records = record { stream = records ++ ((2 ∷ []) ∷ []); buf = [] }

read_frames-write_with_padding_example :
    (ns : List ℕ) × Finished
      (2 ∷ [])
      (hello ++ map padding ns)
      (read_frames (length (hello ++ map padding ns)) cut_records)
read_frames-write_with_padding_example =
    read_frames-write_with_padding draw hello hello_wire (2 ∷ []) padder cut_records draw-in_range
      ((omega arith, (tt, ((omega arith, omega arith), ((omega arith, omega arith), tt)))), tt)
      (omega arith, tt) hello_appended
      ((λ e. cc), ((λ e. cc), ((λ e. cc), ((λ e. cc), ((λ e. cc), tt))))) (rw hello_records)
