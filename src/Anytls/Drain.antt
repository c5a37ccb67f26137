-- ===== src/Anytls/Drain.antt =====
-- The unread tail of a frame (src/proxy/anytls_proto.rs: StreamReadBuffer).
use quic_proxy.Common.{
  ℕ, zero, suc, ◌+◌, ◌≡◌, refl, sym, ap, ◌∙◌, List, [], ◌∷◌, ◌++◌, length, min, take, drop, leb,
  ◌==◌, false, arith, take_all, drop_all, drop-drop, Bool-cases, inl, inr,
}
use quic_proxy.Common.Bytes.{Bytes}
use quic_proxy.Anytls.Frame.{copy_to, copy_from}

-- Reads into buffers of the given sizes, one after the other: what is left, and what they got.
pub drain : Bytes → List ℕ → Bytes × Bytes
drain pending [] = (pending, [])
drain pending (n ∷ ns) =
    let (p, put, some_pending) = copy_to pending n in
    let (left, out) = drain p ns in (left, put ++ out)

-- The room of all the buffers.
abbrev pub total_room : List ℕ → ℕ
total_room [] = 0
total_room (n ∷ ns) = n + total_room ns

take-min : (xs : Bytes) (n : ℕ) → take (min (length xs) n) xs ≡ take n xs
take-min xs n = elim (Bool-cases (leb (length xs) n)) [
  | inl y ↦
      let short : min (length xs) n ≡ length xs = ground arith in
      rw short (take_all (length xs) xs (omega arith) ∙ sym (take_all n xs (ground arith)))
  | inr k ↦ let long : min (length xs) n ≡ n = ground arith in rw long
]

drop-min : (xs : Bytes) (n : ℕ) → drop (min (length xs) n) xs ≡ drop n xs
drop-min xs n = elim (Bool-cases (leb (length xs) n)) [
  | inl y ↦
      let short : min (length xs) n ≡ length xs = ground arith in
      rw short (drop_all (length xs) xs (omega arith) ∙ sym (drop_all n xs (ground arith)))
  | inr k ↦ let long : min (length xs) n ≡ n = ground arith in rw long
]

take-add : (n m : ℕ) (xs : Bytes) → take n xs ++ take m (drop n xs) ≡ take (n + m) xs
take-add zero m xs = let e : 0 + m ≡ m = omega arith in rw e
take-add (suc n) zero [] = let e : suc n + 0 ≡ suc n = omega arith in rw e
take-add (suc n) (suc m) [] = let e : suc n + suc m ≡ suc (n + suc m) = omega arith in rw e
take-add (suc n) m (x ∷ xs) =
    let e : suc n + m ≡ suc (n + m) = omega arith in rw e (ap (◌∷◌ x) (take-add n m xs))

-- A read takes what its buffer has room for.
copy_to-take :
    (pending : Bytes) (n : ℕ)
    → ((copy_to pending n).1 ≡ take n pending) × ((copy_to pending n).0 ≡ drop n pending)
unfolding copy_to
copy_to-take [] zero = (refl, refl)
copy_to-take [] (suc n) = (refl, refl)
copy_to-take (b ∷ rest) zero = (refl, refl)
copy_to-take (b ∷ rest) (suc n) =
    let room : (suc n == 0) ≡ false = ground arith in
    rw (room, copy_to) (take-min (b ∷ rest) (suc n), drop-min (b ∷ rest) (suc n))

drain-take :
    (ns : List ℕ) (pending : Bytes)
    → ((drain pending ns).1 ≡ take (total_room ns) pending)
      × ((drain pending ns).0 ≡ drop (total_room ns) pending)
unfolding drain
drain-take [] pending = (refl, refl)
drain-take (n ∷ ns) pending =
    let (now, left) = copy_to-take pending n in
    let (later, rest) = drain-take ns (copy_to pending n).0 in
    (
      ap (λ x. x ++ (drain (copy_to pending n).0 ns).1) now
          ∙ (ap (λ x. take n pending ++ x) (later ∙ ap (take (total_room ns)) left)
              ∙ take-add n (total_room ns) pending),
      rest ∙ (ap (drop (total_room ns)) left ∙ drop-drop (total_room ns) n pending),
    )

-- The first read and all later ones take of a frame, in its order, as many bytes as their buffers
-- have room for together, or the whole frame if it is shorter; what is pending after them is the rest
-- of the frame.
pub copy_from-drain :
    (payload : Bytes) (n : ℕ) (ns : List ℕ)
    → ((copy_from payload n).1 ++ (drain (copy_from payload n).0 ns).1
        ≡ take (total_room (n ∷ ns)) payload)
      × ((drain (copy_from payload n).0 ns).0 ≡ drop (total_room (n ∷ ns)) payload)
unfolding copy_from drain
copy_from-drain payload n ns = drain-take (n ∷ ns) payload
