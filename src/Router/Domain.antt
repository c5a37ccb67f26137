-- ===== src/Router/Domain.antt =====
-- Domain suffixes (src/proxy/router/rule.rs: domain_matches_suffix).
use quic_proxy.Common.{
  ℕ, zero, suc, ◌+◌, ◌-◌, ◌<◌, ◌≤◌, ◌≡◌, ◌≢◌, refl, sym, ap, ◌∙◌, ◌↔◌, ◌⊎◌, inl, inr, true, ◌||◌,
  [], ◌∷◌, ◌++◌, length, take, drop, get_or, ◌==◌, arith, Bool-cases, take-append-drop, drop-append,
  length-append, append_assoc, get_or-append_right, le→ltb,
}
use quic_proxy.Common.Bytes.{Bytes}
use quic_proxy.Router.{eq_ignore_ascii_case, domain_matches_suffix}

-- The name is the suffix, up to the case of ASCII letters, or ends in a dot and the suffix.
abbrev pub IsBelow : Bytes → Bytes → Type 0
IsBelow name suffix =
    (suffix ≢ [])
    × ((front : Bytes) × (tail : Bytes) × (name ≡ front ++ tail)
        × (eq_ignore_ascii_case tail suffix ≡ true)
        × ((front ≡ []) ⊎ ((label : Bytes) × (front ≡ label ++ (46 ∷ [])))))

take_next :
    (xs : Bytes) (n : ℕ) → n < length xs → take (suc n) xs ≡ take n xs ++ (get_or xs n 0 ∷ [])
take_next [] n h = absurd (omega arith)
take_next (x ∷ xs) zero h = refl
take_next (x ∷ xs) (suc n) h = ap (λ ys. x ∷ ys) (take_next xs n (omega arith))

same_length : (s t : Bytes) → eq_ignore_ascii_case s t ≡ true → length s ≡ length t
same_length [] [] e = refl
same_length [] (b ∷ t) e = cc
same_length (a ∷ s) [] e = cc
same_length (a ∷ s) (b ∷ t) e = ground (arith, same_length s t)

below : (name suffix : Bytes) → domain_matches_suffix name suffix ≡ true → IsBelow name suffix
unfolding domain_matches_suffix
below name [] e = cc
below name (b ∷ t) e =
    let suffix = b ∷ t in
    let start = length name - length suffix in
    let fits : length suffix ≤ length name = ground arith in
    let same : eq_ignore_ascii_case (drop start name) suffix ≡ true = ground arith in
    let edge : (start == 0 || get_or name (start - 1) 0 == 46) ≡ true = ground arith in
    (
      (λ p. cc),
      (
        take start name,
        drop start name,
        sym (take-append-drop start name),
        same,
        elim (Bool-cases (start == 0)) [
          | inl z ↦
              let none_left : start ≡ 0 = ground arith in inl (ap (λ n. take n name) none_left)
          | inr nz ↦
              let dot : get_or name (start - 1) 0 ≡ 46 = ground arith in
              let next : suc (start - 1) ≡ start = ground arith in
              let inside : start - 1 < length name = ground arith in
              let cut = take_next name (start - 1) inside in
              inr (take (start - 1) name, rw (next, dot) at cut)
        ],
      ),
    )

dotted :
    (name label tail : Bytes)
    → name ≡ (label ++ (46 ∷ [])) ++ tail
    → (front : Bytes) → front ≡ label ++ (46 ∷ [])
    → get_or name (length front - 1) 0 ≡ 46
dotted name label tail whole front e =
    let place : length front - 1 ≡ length label =
      rw e (omega (arith, length-append label (46 ∷ []))) in
    rw (place, whole, append_assoc label (46 ∷ []) tail)
      (get_or-append_right label (46 ∷ tail) (length label) 0 0 (omega arith))

above : (name suffix : Bytes) → IsBelow name suffix → domain_matches_suffix name suffix ≡ true
unfolding domain_matches_suffix
above name [] (some_suffix, w) = absurd (some_suffix refl)
above name (b ∷ t) (some_suffix, (front, tail, whole, same, edge)) =
    let suffix = b ∷ t in
    let lengths = same_length tail suffix same in
    let size : length name ≡ length front + length suffix =
      rw whole (omega (arith, length-append front tail)) in
    let start : length name - length suffix ≡ length front = omega arith in
    let fits : length suffix ≤ length name = omega arith in
    let rest : drop (length front) name ≡ tail =
      rw whole (drop-append (length front) front tail refl) in
    rw (le→ltb (length name) (length suffix) fits, start, rest, same)
      (elim edge [
        | inl e ↦ rw e refl
        | inr (label, e) ↦
            rw (dotted name label tail (whole ∙ ap (λ f. f ++ tail) e) front e) (ground arith)
      ])

-- domain_matches_suffix holds exactly when the suffix is not empty and the name is the suffix, up to
-- the case of ASCII letters, or ends in a dot and the suffix.
pub domain_matches_suffix_iff :
    (name suffix : Bytes) → (domain_matches_suffix name suffix ≡ true) ↔ IsBelow name suffix
domain_matches_suffix_iff name suffix = (below name suffix, above name suffix)
