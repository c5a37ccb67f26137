-- ===== src/Anytls/Padding.antt =====
-- Writing under a padding scheme (src/proxy/outbound/anytls.rs: PaddingScheme, write_with_padding). A
-- scheme is what its text was parsed to. The random choices of a call are the parameter
-- `random_range`: what the draw for the entry with a number gives between two bounds.
-- Each list element of what is written is one write of the TLS stream, that is one record.
pub mod Frames
pub mod Tests
use quic_proxy.Common.{
  ℕ, suc, ◌+◌, ◌-◌, ◌*◌, ◌%◌, ◌^◌, ◌<◌, ◌≤◌, ◌≡◌, refl, sym, ◌∙◌, ap, Bool, true, false, Option,
  none, some, List, [], ◌∷◌, ◌++◌, map, Result, ok, err, length, take, drop, replicate, ltb, leb,
  if◌then◌else◌, is_empty, arith, append_assoc, append-nil, length-replicate, take-append-drop,
  Bool-cases, inl, inr,
}
use quic_proxy.Common.Bytes.{Bytes, All, be16, be32, concat}
use quic_proxy.Common.Assoc.{Assoc, nat_eq, lookup}
use quic_proxy.Anytls.Frame.{
  Command, waste, Frame, FrameError, to_u8, frame_header_size, append_frame,
}
use quic_proxy.Anytls.Reader.{FrameReader}
use quic_proxy.Anytls.Reader.Unread.{IsLive, unread}
use quic_proxy.Anytls.Reader.Sequence.{
  append_frames, read_frames, Finished, HasId, read_frames-append_frames,
}

pub data PaddingEntry : Type 0 where
  fixed : ℕ → PaddingEntry
  range : ℕ → ℕ → PaddingEntry
  check_mark : PaddingEntry

pub record PaddingScheme : Type 0 where
  pub stop_at : ℕ
  pub policies : Assoc ℕ (List PaddingEntry)

-- The state that write_with_padding uses.
pub record Padder : Type 0 where
  pub send_padding : Bool
  pub packet_count : ℕ
  pub padding_scheme : PaddingScheme

-- A size, or none for CHECK_MARK. The choice is that of the entry.
abbrev pub payload_size : (ℕ → ℕ → ℕ) → PaddingEntry → Option ℕ
payload_size random_range (fixed v) = some v
payload_size random_range (range low high) = some (random_range low high)
payload_size random_range check_mark = none

-- The sizes of the entries from number `i` on; each entry has its own draw.
unfoldable pub payload_sizes : (ℕ → ℕ → ℕ → ℕ) → ℕ → List PaddingEntry → List (Option ℕ)
payload_sizes random_range i [] = []
payload_sizes random_range i (entry ∷ entries) =
    payload_size (random_range i) entry ∷ payload_sizes random_range (suc i) entries

unfoldable pub generate_record_payload_sizes : (ℕ → ℕ → ℕ → ℕ) → PaddingScheme → ℕ → List (Option ℕ)
generate_record_payload_sizes random_range scheme pkt = elim (lookup pkt scheme.policies) [
  | none ↦ []
  | some entries ↦ payload_sizes random_range 0 entries
]

-- The header has the length as u16.
unfoldable pub waste_record : ℕ → Bytes
waste_record size = to_u8 waste ∷ (be32 0 ++ (be16 size ++ replicate size 0))

abbrev pub wrote : List Bytes → List Bytes × Bytes → List Bytes × Bytes
wrote writes (later, remaining) = (writes ++ later, remaining)

-- A record with the last of the payload, and padding if there is room for it.
unfoldable pub last_record : ℕ → Bytes → List Bytes
last_record target_size remaining =
    let padding_len = target_size - (length remaining + frame_header_size) in
    if ltb 0 padding_len then remaining ∷ waste_record padding_len ∷ [] else remaining ∷ []

-- The loop over the sizes: what is written, and what is left of the payload.
unfoldable pub write_records : List (Option ℕ) → Bytes → List Bytes × Bytes
write_records [] remaining = ([], remaining)
write_records (none ∷ sizes) remaining =
    let rest = write_records sizes remaining in if is_empty remaining then ([], remaining) else rest
write_records (some target_size ∷ sizes) remaining =
    let more = write_records sizes (drop target_size remaining) in
    let padding = write_records sizes [] in
    if ltb target_size (length remaining)
    then wrote (take target_size remaining ∷ []) more
    else if ltb 0 (length remaining)
    then wrote (last_record target_size remaining) padding
    else wrote (waste_record target_size ∷ []) padding

unfoldable pub write_left : List Bytes × Bytes → List Bytes
write_left (writes, remaining) = if is_empty remaining then writes else (writes ++ (remaining ∷ []))

unfoldable pub write_with_padding : (ℕ → ℕ → ℕ → ℕ) → Bytes → Padder → Padder × List Bytes
write_with_padding random_range payload p =
    let counted = record p { packet_count = (p.packet_count + 1) % 2 ^ 64 } in
    let sizes =
      generate_record_payload_sizes random_range p.padding_scheme (p.packet_count % 2 ^ 32) in
    if p.send_padding
    then if leb p.padding_scheme.stop_at p.packet_count
      then (record counted { send_padding = false }, payload ∷ [])
      else (counted, write_left (write_records sizes payload))
    else (p, payload ∷ [])
