-- ===== src/Shadowquic/Sender/News.antt =====
-- The context ids that were announced on a control stream (src/proxy/shadowquic_udp.rs:
-- create_sender).
use quic_proxy.Common.{
  ℕ, ◌+◌, ◌-◌, ◌^◌, ◌<◌, ◌≤◌, ◌≡◌, refl, ap, ◌⊎◌, Bool, true, List, [], ◌∷◌, ◌++◌, length, any,
  get_or, get_or-append_right, length-append, ◌||◌, arith, Bool-cases, inl, inr, ◌==◌, ==_iff,
}
use quic_proxy.Common.Bytes.{Bytes, be16, from_be16, from_be16-be16}
use quic_proxy.Shadowquic.Sender.{Output, control, datagram_out, uni, target_eq}

-- The id at the end of an announcement.
abbrev pub control_id : Bytes → ℕ
control_id b = from_be16 (get_or b (length b - 2) 0) (get_or b (length b - 1) 0)

-- The ids that were announced, in their order.
abbrev pub control_ids : List Output → List ℕ
control_ids [] = []
control_ids (control b ∷ os) = control_id b ∷ control_ids os
control_ids (datagram_out b ∷ os) = control_ids os
control_ids (uni n b ∷ os) = control_ids os

abbrev pub Among : ℕ → List ℕ → Type 0
Among n ns = any ns (λ m. m == n) ≡ true

-- From `lo` on, each greater than the one before, and below `hi`.
abbrev pub Increasing : ℕ → List ℕ → ℕ → Type 0
Increasing lo [] hi = lo ≤ hi
Increasing lo (n ∷ ns) hi = (lo ≤ n) × Increasing (n + 1) ns hi

pub Increasing-low :
    (lo low : ℕ) (ns : List ℕ) (hi : ℕ) → lo ≤ low → Increasing low ns hi → Increasing lo ns hi
Increasing-low lo low [] hi l h = omega arith
Increasing-low lo low (n ∷ ns) hi l h = let k = h.0 in (omega arith, h.1)

pub Increasing-le : (lo : ℕ) (ns : List ℕ) (hi : ℕ) → Increasing lo ns hi → lo ≤ hi
Increasing-le lo [] hi h = h
Increasing-le lo (n ∷ ns) hi h =
    let l = h.0 in let r = Increasing-le (n + 1) ns hi h.1 in omega arith

pub Increasing-high :
    (lo : ℕ) (ns : List ℕ) (hi high : ℕ) → Increasing lo ns hi → hi ≤ high → Increasing lo ns high
Increasing-high lo [] hi high h l = omega arith
Increasing-high lo (n ∷ ns) hi high h l = (h.0, Increasing-high (n + 1) ns hi high h.1 l)

pub Increasing-append :
    (lo : ℕ) (ns : List ℕ) (mid : ℕ) (ms : List ℕ) (hi : ℕ)
    → Increasing lo ns mid
    → Increasing mid ms hi
    → Increasing lo (ns ++ ms) hi
Increasing-append lo [] mid ms hi h k = Increasing-low lo mid ms hi h k
Increasing-append lo (n ∷ ns) mid ms hi h k = (h.0, Increasing-append (n + 1) ns mid ms hi h.1 k)

pub Among-bounds :
    (n lo : ℕ) (ns : List ℕ) (hi : ℕ) → Increasing lo ns hi → Among n ns → (lo ≤ n) × (n < hi)
Among-bounds n lo [] hi h a = cc
Among-bounds n lo (m ∷ ns) hi h a = elim (Bool-cases (m == n)) [
  | inl y ↦
      let low = h.0 in
      let rest = Increasing-le (m + 1) ns hi h.1 in
      let same : m ≡ n = (==_iff m n).0 y in (omega arith, omega arith)
  | inr f ↦
      let low = h.0 in let (l, r) = Among-bounds n (m + 1) ns hi h.1 (rw f at a) in (omega arith, r)
]

any-append : (p : ℕ → Bool) (xs ys : List ℕ) → any (xs ++ ys) p ≡ (any xs p || any ys p)
any-append p [] ys = refl
any-append p (x ∷ xs) ys = ground (arith, any-append p xs ys)

pub Among-append : (n : ℕ) (xs ys : List ℕ) → Among n (xs ++ ys) → Among n xs ⊎ Among n ys
Among-append n xs ys h =
    let e = any-append (λ m. m == n) xs ys in
    elim (Bool-cases (any xs (λ m. m == n))) [ inl y ↦ inl y | inr f ↦ inr (ground arith) ]

pub Among-left : (n : ℕ) (xs ys : List ℕ) → Among n xs → Among n (xs ++ ys)
Among-left n xs ys h = let e = any-append (λ m. m == n) xs ys in ground arith

pub Among-right : (n : ℕ) (xs ys : List ℕ) → Among n ys → Among n (xs ++ ys)
Among-right n xs ys h = let e = any-append (λ m. m == n) xs ys in ground arith

pub control_ids-append :
    (os ps : List Output) → control_ids (os ++ ps) ≡ control_ids os ++ control_ids ps
control_ids-append [] ps = refl
control_ids-append (control b ∷ os) ps = ap (◌∷◌ (control_id b)) (control_ids-append os ps)
control_ids-append (datagram_out b ∷ os) ps = control_ids-append os ps
control_ids-append (uni n b ∷ os) ps = control_ids-append os ps

pub control_id-announcement :
    (front : Bytes) (id : ℕ) → id < 2 ^ 16 → control_id (front ++ be16 id) ≡ id
control_id-announcement front id l =
    let long = length-append front (be16 id) in
    let first =
      get_or-append_right front (be16 id) (length (front ++ be16 id) - 2) 0 0 (omega arith) in
    let second =
      get_or-append_right front (be16 id) (length (front ++ be16 id) - 1) 1 0 (omega arith) in
    rw (first, second) (from_be16-be16 id l)
