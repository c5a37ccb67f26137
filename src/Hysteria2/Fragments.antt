-- ===== src/Hysteria2/Fragments.antt =====
-- Fragmentation and reassembly of UDP payloads (src/proxy/outbound/hysteria2/mod.rs:
-- fragment_udp_payload, Fragments, process_udp_datagram). The clock is an argument, in nanoseconds.
use quic_proxy.Common.{
  ℕ, zero, suc, ◌+◌, ◌-◌, Bool, true, false, ◌||◌, Option, none, some, List, [], ◌∷◌, ◌++◌, Result,
  ok, err, length, take, drop, set, replicate, any, ltb, leb, ◌==◌, not, if◌then◌else◌, max, min,
}
use quic_proxy.Common.Bytes.{Bytes, as_u8}
use quic_proxy.Common.Assoc.{Assoc, lookup, insert, remove, retain, nat_eq}
use quic_proxy.Hysteria2.Message.{
  UdpMessage, MessageError, bad_fragment, conflicting_count, udp_header_size, parse_udp_message,
}

abbrev pub udp_fragment_timeout : ℕ
udp_fragment_timeout = 10_000_000_000

abbrev pub udp_max_defrag_entries : ℕ
udp_max_defrag_entries = 64

-- `while !rest.is_empty() { take = rest.len().min(per_fragment); chunks.push(rest.split_to(take)) }`.
-- Each round takes a byte at least, so the length is enough fuel.
unfoldable pub split_loop : ℕ → ℕ → Bytes → List Bytes
split_loop zero per_fragment rest = []
split_loop (suc fuel) per_fragment [] = []
split_loop (suc fuel) per_fragment (b ∷ rest) =
    let n = min (length (b ∷ rest)) per_fragment in
    take n (b ∷ rest) ∷ split_loop fuel per_fragment (drop n (b ∷ rest))

unfoldable pub split_payload : Bytes → Bytes → ℕ → List Bytes
split_payload destination payload max_size =
    let header_size = udp_header_size destination in
    if leb (length payload + header_size) max_size
    then payload ∷ []
    else split_loop (length payload) (max (max_size - header_size) 1) payload

-- `chunks.into_iter().enumerate().map(…)`
unfoldable pub number_chunks : ℕ → ℕ → Bytes → ℕ → ℕ → List Bytes → List UdpMessage
number_chunks session_id packet_id destination frag_count index [] = []
number_chunks session_id packet_id destination frag_count index (chunk ∷ chunks) =
    record {
      session_id = session_id;
      packet_id = packet_id;
      frag_id = as_u8 index;
      frag_count = frag_count;
      destination = destination;
      payload = chunk;
    }
    ∷ number_chunks session_id packet_id destination frag_count (index + 1) chunks

unfoldable pub fragment_udp_payload : ℕ → ℕ → Bytes → Bytes → ℕ → Option (List UdpMessage)
fragment_udp_payload session_id packet_id destination payload max_size =
    let chunks = split_payload destination payload max_size in
    if ltb (length chunks) 256
    then some (number_chunks session_id packet_id destination (length chunks) 0 chunks)
    else none

pub record Fragments : Type 0 where
  pub count : ℕ
  pub parts : List (Option Bytes)
  pub created : ℕ

abbrev pub Defrag : Type 0
Defrag = Assoc ℕ Fragments

abbrev pub is_none {ℓ} : {A : Type ℓ} → Option A → Bool
is_none none = true
is_none (some a) = false

-- `for part in entry.parts.iter_mut() { if let Some(part) = part.take() { whole.put_slice(&part) } }`
unfoldable pub join_parts : List (Option Bytes) → Bytes
join_parts [] = []
join_parts (none ∷ parts) = join_parts parts
join_parts (some part ∷ parts) = part ++ join_parts parts

abbrev pub fresh_fragments : ℕ → ℕ → Fragments
fresh_fragments count now = record { count = count; parts = replicate count none; created = now }

-- `if defrag.len() >= UDP_MAX_DEFRAG_ENTRIES { defrag.retain(…) }`
unfoldable pub purge : ℕ → Defrag → Defrag
purge now defrag =
    if leb udp_max_defrag_entries (length defrag)
    then retain (λ v. ltb (now - v.created) udp_fragment_timeout) defrag
    else defrag

-- `defrag.entry(packet_id).or_insert_with(…)`
abbrev pub entry_or_insert : Option Fragments → ℕ → ℕ → Fragments
entry_or_insert none count now = fresh_fragments count now
entry_or_insert (some entry) count now = entry

-- `if now.duration_since(entry.created) > UDP_FRAGMENT_TIMEOUT { … }`
unfoldable pub renew : ℕ → ℕ → Fragments → Fragments
renew now count entry =
    if ltb udp_fragment_timeout (now - entry.created) then fresh_fragments count now else entry

-- A delivered packet is its destination and payload.
abbrev pub Outcome : Type 0
Outcome = Result MessageError (Option (Bytes × Bytes))

-- From the write of the part on.
unfoldable pub store_part : UdpMessage → Fragments → Defrag → Defrag × Outcome
store_part message entry defrag =
    let parts = set entry.parts message.frag_id (some message.payload) in
    if any parts is_none
    then (insert message.packet_id (record entry { parts = parts }) defrag, ok none)
    else (remove message.packet_id defrag, ok (some (message.destination, join_parts parts)))

unfoldable pub process_message : ℕ → UdpMessage → Defrag → Defrag × Outcome
process_message now message defrag =
    if message.frag_count == 0 || leb message.frag_count message.frag_id
    then (defrag, err bad_fragment)
    else if message.frag_count == 1
    then (defrag, ok (some (message.destination, message.payload)))
    else let purged = purge now defrag in
      let entry = entry_or_insert (lookup message.packet_id purged) message.frag_count now in
      if not (entry.count == message.frag_count)
      then (purged, err conflicting_count)
      else store_part message (renew now message.frag_count entry) purged

unfoldable pub process_udp_datagram : ℕ → Bytes → Defrag → Defrag × Outcome
process_udp_datagram now raw defrag = elim (parse_udp_message raw) [
  | ok message ↦ process_message now message defrag
  | err e ↦ (defrag, err e)
]
