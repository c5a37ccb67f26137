-- ===== src/Hysteria2/Pending.antt =====
-- The table of unfinished packets (src/proxy/outbound/hysteria2/mod.rs: process_udp_datagram).
use quic_proxy.Common.{
  ℕ, zero, suc, ◌-◌, ◌≡◌, inl, inr, refl, ap, Bool, true, Option, none, some, List, [], ◌∷◌, length,
  set, any, arith, ltb, Bool-cases, Result-cases, length-replicate,
}
use quic_proxy.Common.Bytes.{Bytes, All}
use quic_proxy.Common.Assoc.{lookup, insert, remove, retain, nat_eq}
use quic_proxy.Hysteria2.Message.{UdpMessage, parse_udp_message}
use quic_proxy.Hysteria2.Fragments.{
  Defrag, Fragments, purge, renew, store_part, process_message, process_udp_datagram, is_none,
  entry_or_insert, udp_fragment_timeout,
}

-- A packet that is being put together has a place for each of its fragments, and one of them has
-- not come yet.
abbrev pub IsPending : ℕ × Fragments → Type 0
IsPending (k, f) = (length f.parts ≡ f.count) × (any f.parts is_none ≡ true)

abbrev pub AllPending : Defrag → Type 0
AllPending = All IsPending

length-set : {A : Type 0} (xs : List A) (i : ℕ) (x : A) → length (set xs i x) ≡ length xs
length-set [] i x = refl
length-set (y ∷ ys) zero x = refl
length-set (y ∷ ys) (suc i) x = ap suc (length-set ys i x)

remove-AllPending : (k : ℕ) (d : Defrag) → AllPending d → AllPending (remove k d)
unfolding remove
remove-AllPending k [] h = tt
remove-AllPending k (e ∷ d) h = ground (arith, remove-AllPending k d h.1)

retain-AllPending : (p : Fragments → Bool) (d : Defrag) → AllPending d → AllPending (retain p d)
unfolding retain
retain-AllPending p [] h = tt
retain-AllPending p (e ∷ d) h = ground (arith, retain-AllPending p d h.1)

lookup-AllPending :
    (k : ℕ) (d : Defrag) (f : Fragments)
    → AllPending d
    → lookup k d ≡ some f
    → length f.parts ≡ f.count
unfolding lookup
lookup-AllPending k [] f h e = cc
lookup-AllPending k ((j, g) ∷ d) f h e = elim (Bool-cases (nat_eq.beq j k)) [
  | inl y ↦ ground (arith, h.0.0)
  | inr n ↦ lookup-AllPending k d f h.1 (ground arith)
]

purge-AllPending : (now : ℕ) (d : Defrag) → AllPending d → AllPending (purge now d)
unfolding purge
purge-AllPending now d h =
    ground (arith, retain-AllPending (λ v. ltb (now - v.created) udp_fragment_timeout) d h)

length-entry_or_insert :
    (o : Option Fragments) (count now : ℕ)
    → ((f : Fragments) → o ≡ some f → length f.parts ≡ f.count)
    → length (entry_or_insert o count now).parts ≡ (entry_or_insert o count now).count
length-entry_or_insert none count now h = length-replicate count none
length-entry_or_insert (some f) count now h = h f refl

length-renew :
    (now count : ℕ) (f : Fragments)
    → length f.parts ≡ f.count
    → length (renew now count f).parts ≡ (renew now count f).count
unfolding renew
length-renew now count f h = ground (arith, length-replicate {A = Option Bytes} count none)

store_part-AllPending :
    (m : UdpMessage) (f : Fragments) (d : Defrag)
    → length f.parts ≡ f.count
    → AllPending d
    → AllPending (store_part m f d).0
unfolding store_part insert
store_part-AllPending m f d h a =
    ground (arith, remove-AllPending m.packet_id d a, length-set f.parts m.frag_id (some m.payload))

process_message-AllPending :
    (now : ℕ) (m : UdpMessage) (d : Defrag) → AllPending d → AllPending (process_message now m d).0
unfolding process_message
process_message-AllPending now m d a =
    let p = purge-AllPending now d a in
    let entry = entry_or_insert (lookup m.packet_id (purge now d)) m.frag_count now in
    let l = length-renew now m.frag_count entry (
      length-entry_or_insert (lookup m.packet_id (purge now d)) m.frag_count now
        (λ f e. lookup-AllPending m.packet_id (purge now d) f p e)) in
    ground (arith, store_part-AllPending m (renew now m.frag_count entry) (purge now d) l p)

-- Whatever datagram arrives, every packet that is left in the table has a place for each of its
-- fragments and waits for one of them at least, if this held before.
pub process_udp_datagram-AllPending :
    (now : ℕ) (raw : Bytes) (d : Defrag)
    → AllPending d
    → AllPending (process_udp_datagram now raw d).0
unfolding process_udp_datagram
process_udp_datagram-AllPending now raw d a = elim (Result-cases (parse_udp_message raw)) [
  | inl (m, e) ↦ rw (e, process_udp_datagram) (process_message-AllPending now m d a)
  | inr (x, e) ↦ rw (e, process_udp_datagram) a
]
