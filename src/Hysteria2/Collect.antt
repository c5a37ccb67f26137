-- ===== src/Hysteria2/Collect.antt =====
-- Fragments of one packet that arrive one after the other
-- (src/proxy/outbound/hysteria2/mod.rs: process_udp_datagram).
use quic_proxy.Common.{
  ℕ, suc, ◌-◌, ◌<◌, ◌≤◌, ◌≡◌, refl, ap, ◌∙◌, Option, none, some, List, [], ◌∷◌, ◌++◌, length, set,
  replicate, get_or, arith, ok, ltb,
}
use quic_proxy.Common.Bytes.{concat, Bytes, All}
use quic_proxy.Common.Assoc.{
  lookup, insert, remove, nat_eq, lookup-retain_kept, lookup-retain-none, lookup-insert_self,
  lookup-remove_self,
}
use quic_proxy.Hysteria2.Message.{UdpMessage, IsWire, pack, parse_udp_message-pack}
use quic_proxy.Hysteria2.Fragments.{
  Defrag, Fragments, Outcome, purge, renew, store_part, process_message, process_udp_datagram,
  entry_or_insert, udp_fragment_timeout,
}
use quic_proxy.Hysteria2.Parts.{
  Agrees, missing, Agrees-set, missing-set, any-missing, any-missing_zero, join_parts-Agrees,
  Awaited, OtherIndex, Awaited-set,
}

-- Datagrams handled one after the other, each at its time.
pub deliver : List (ℕ × Bytes) → Defrag → Defrag × List Outcome
deliver [] d = (d, [])
deliver ((now, raw) ∷ rest) d =
    let (d', o) = process_udp_datagram now raw d in let (d'', os) = deliver rest d' in (d'', o ∷ os)

deliver-cons :
    (now : ℕ) (raw : Bytes) (rest : List (ℕ × Bytes)) (d : Defrag) {d' : Defrag} {o : Outcome}
    → process_udp_datagram now raw d ≡ (d', o)
    → deliver ((now, raw) ∷ rest) d ≡ ((deliver rest d').0, o ∷ (deliver rest d').1)
unfolding deliver
deliver-cons now raw rest d e = rw e

pub lookup-purge-none : (now k : ℕ) (d : Defrag) → lookup k d ≡ none → lookup k (purge now d) ≡ none
unfolding purge
lookup-purge-none now k d h = ground (
  arith,
  lookup-retain-none (λ (v : Fragments). ltb (now - v.created) udp_fragment_timeout) k d h,
)

lookup-purge_kept :
    (now k : ℕ) (v : Fragments) (d : Defrag)
    → lookup k d ≡ some v
    → now - v.created < udp_fragment_timeout
    → lookup k (purge now d) ≡ some v
unfolding purge
lookup-purge_kept now k v d h t = ground (
  arith,
  lookup-retain_kept (λ (v : Fragments). ltb (now - v.created) udp_fragment_timeout) k v d h,
)

abbrev pub Distinct : List (ℕ × ℕ) → Type 0
Distinct [] = Unit
Distinct (a ∷ rest) = OtherIndex a.1 rest × Distinct rest

module _ (session_id packet_id : ℕ) (destination : Bytes) (chunks : List Bytes) (created : ℕ) where
  -- The fragment that carries the chunk at place `i`.
  abbrev pub piece : ℕ → UdpMessage
  piece i = record {
    session_id = session_id;
    packet_id = packet_id;
    frag_id = i;
    frag_count = length chunks;
    destination = destination;
    payload = get_or chunks i [];
  }

  abbrev holding : List (Option Bytes) → Fragments
  holding parts = record { count = length chunks; parts = parts; created = created }

  abbrev filled : List (Option Bytes) → ℕ → List (Option Bytes)
  filled parts i = set parts i (some (get_or chunks i []))

  process-piece :
      (now i : ℕ) (parts : List (Option Bytes)) (d : Defrag)
      → 2 ≤ length chunks
      → i < length chunks
      → now - created < udp_fragment_timeout
      → entry_or_insert (lookup packet_id (purge now d)) (length chunks) now ≡ holding parts
      → process_message now (piece i) d ≡ store_part (piece i) (holding parts) (purge now d)
  unfolding process_message renew
  process-piece now i parts d two hi fresh e = rw e (ground arith)

  abbrev pub datagrams : List (ℕ × ℕ) → List (ℕ × Bytes)
  datagrams [] = []
  datagrams ((now, i) ∷ rest) = (now, pack (piece i)) ∷ datagrams rest

  -- Every arrival is of a chunk that there is, soon enough after the first.
  abbrev pub Timely : List (ℕ × ℕ) → Type 0
  Timely = All (λ a. (a.1 < length chunks) × (a.0 - created < udp_fragment_timeout))

  -- A destination and ids that the wire format can carry.
  abbrev pub Sendable : Type 0
  Sendable = (i : ℕ) → IsWire (piece i)

  receive-piece :
      (now i : ℕ) (parts : List (Option Bytes)) (d : Defrag)
      → Sendable
      → 2 ≤ length chunks
      → i < length chunks
      → now - created < udp_fragment_timeout
      → entry_or_insert (lookup packet_id (purge now d)) (length chunks) now ≡ holding parts
      → process_udp_datagram now (pack (piece i)) d
        ≡ store_part (piece i) (holding parts) (purge now d)
  unfolding process_udp_datagram
  receive-piece now i parts d w two hi fresh e =
      rw (process_udp_datagram, parse_udp_message-pack (piece i) (w i))
        (process-piece now i parts d two hi fresh e)

  store_more :
      (i : ℕ) (parts : List (Option Bytes)) (d : Defrag)
      → 0 < missing (filled parts i)
      → store_part (piece i) (holding parts) d
        ≡ (insert packet_id (holding (filled parts i)) d, ok none)
  unfolding store_part
  store_more i parts d h = rw (any-missing (filled parts i) h)

  store_last :
      (i : ℕ) (parts : List (Option Bytes)) (d : Defrag)
      → i < length chunks
      → Agrees chunks parts
      → missing (filled parts i) ≡ 0
      → store_part (piece i) (holding parts) d
        ≡ (remove packet_id d, ok (some (destination, concat chunks)))
  unfolding store_part
  store_last i parts d hi a h =
      let full = any-missing_zero (filled parts i) h in
      rw (full, join_parts-Agrees chunks (filled parts i) (Agrees-set chunks parts i hi a) full)

  abbrev pub Delivered : List (ℕ × ℕ) → Defrag × List Outcome → Type 0
  Delivered rest r =
      (r.1 ≡ replicate (length rest) (ok none) ++ (ok (some (destination, concat chunks)) ∷ []))
      × (lookup packet_id r.0 ≡ none)

  pub deliver_from :
      (now i : ℕ) (rest : List (ℕ × ℕ)) (parts : List (Option Bytes)) (d : Defrag)
      → Sendable
      → 2 ≤ length chunks
      → entry_or_insert (lookup packet_id (purge now d)) (length chunks) now ≡ holding parts
      → Agrees chunks parts
      → missing parts ≡ suc (length rest)
      → Awaited parts ((now, i) ∷ rest)
      → Distinct ((now, i) ∷ rest)
      → Timely ((now, i) ∷ rest)
      → Delivered rest (deliver (datagrams ((now, i) ∷ rest)) d)
  deliver_from now i [] parts d w two e a m aw ds t =
      let left : missing (filled parts i) ≡ 0 =
        omega (arith, missing-set parts i (get_or chunks i []) aw.0) in
      rw
        (deliver-cons now _ [] d (
          receive-piece now i parts d w two t.0.0 t.0.1 e
          ∙ store_last i parts (purge now d) t.0.0 a left))
        (unfold deliver in (refl, lookup-remove_self packet_id (purge now d)))
  deliver_from now i ((now', j) ∷ rest) parts d w two e a m aw ds t =
      let left : missing (filled parts i) ≡ suc (length rest) =
        omega (arith, missing-set parts i (get_or chunks i []) aw.0) in
      let d' = insert packet_id (holding (filled parts i)) (purge now d) in
      let kept =
        lookup-purge_kept now' packet_id (holding (filled parts i)) d'
          (lookup-insert_self packet_id _ (purge now d)) t.1.0.1 in
      let ih =
        deliver_from now' j rest (filled parts i) d' w two (rw kept)
          (Agrees-set chunks parts i t.0.0 a) left
          (Awaited-set parts i _ ((now', j) ∷ rest) ds.0 aw.1) ds.1 t.1 in
      rw
        (deliver-cons now _ (datagrams ((now', j) ∷ rest)) d (
          receive-piece now i parts d w two t.0.0 t.0.1 e
          ∙ store_more i parts (purge now d) (omega arith)))
        (ap (◌∷◌ (ok none)) ih.0, ih.1)
