-- ===== src/Hysteria2/Parts.antt =====
-- The parts of a packet that is being put together, against the chunks that were cut.
use quic_proxy.Common.{
  ℕ, zero, suc, ◌<◌, ◌≡◌, ◌≢◌, ◌⊎◌, inl, inr, refl, ap, ◌∙◌, true, false, Option, none, some, List,
  [], ◌∷◌, length, set, replicate, any, get_elem?, get_or, arith,
}
use quic_proxy.Common.Bytes.{concat, Bytes, All}
use quic_proxy.Hysteria2.Fragments.{is_none, join_parts}

-- Each part is missing or is the chunk of its place.
abbrev pub Agrees : List Bytes → List (Option Bytes) → Type 0
Agrees [] [] = Unit
Agrees (c ∷ cs) (p ∷ ps) = ((p ≡ none) ⊎ (p ≡ some c)) × Agrees cs ps
Agrees _ _ = ⊥

abbrev pub missing : List (Option Bytes) → ℕ
missing [] = 0
missing (none ∷ ps) = suc (missing ps)
missing (some p ∷ ps) = missing ps

pub Agrees-set :
    (cs : List Bytes) (ps : List (Option Bytes)) (i : ℕ)
    → i < length cs
    → Agrees cs ps
    → Agrees cs (set ps i (some (get_or cs i [])))
Agrees-set [] [] i h a = absurd (omega arith)
Agrees-set [] (p ∷ ps) i h a = absurd a
Agrees-set (c ∷ cs) [] i h a = absurd a
Agrees-set (c ∷ cs) (p ∷ ps) zero h a = (inr refl, a.1)
Agrees-set (c ∷ cs) (p ∷ ps) (suc i) h a = (a.0, Agrees-set cs ps i (omega arith) a.1)

pub Agrees-replicate : (cs : List Bytes) → Agrees cs (replicate (length cs) none)
Agrees-replicate [] = tt
Agrees-replicate (c ∷ cs) = (inl refl, Agrees-replicate cs)

pub missing-replicate : (n : ℕ) → missing (replicate n none) ≡ n
missing-replicate zero = refl
missing-replicate (suc n) = ap suc (missing-replicate n)

pub missing-set :
    (ps : List (Option Bytes)) (i : ℕ) (c : Bytes)
    → get_elem? ps i ≡ some none
    → missing ps ≡ suc (missing (set ps i (some c)))
missing-set [] i c h = cc
missing-set (p ∷ ps) zero c h = ground arith
missing-set (none ∷ ps) (suc i) c h = ap suc (missing-set ps i c h)
missing-set (some p ∷ ps) (suc i) c h = missing-set ps i c h

pub any-missing : (ps : List (Option Bytes)) → 0 < missing ps → any ps is_none ≡ true
any-missing [] h = absurd (omega arith)
any-missing (none ∷ ps) h = refl
any-missing (some p ∷ ps) h = any-missing ps h

pub any-missing_zero : (ps : List (Option Bytes)) → missing ps ≡ 0 → any ps is_none ≡ false
any-missing_zero [] h = refl
any-missing_zero (none ∷ ps) h = absurd (omega arith)
any-missing_zero (some p ∷ ps) h = any-missing_zero ps h

-- With no part missing, the parts joined are the chunks joined.
pub join_parts-Agrees :
    (cs : List Bytes) (ps : List (Option Bytes))
    → Agrees cs ps
    → any ps is_none ≡ false
    → join_parts ps ≡ concat cs
unfolding join_parts
join_parts-Agrees [] [] a h = refl
join_parts-Agrees [] (p ∷ ps) a h = absurd a
join_parts-Agrees (c ∷ cs) [] a h = absurd a
join_parts-Agrees (c ∷ cs) (none ∷ ps) a h = cc
join_parts-Agrees (c ∷ cs) (some p ∷ ps) a h = ground (arith, join_parts-Agrees cs ps a.1 h)

pub get_elem?-replicate :
    (n i : ℕ) → i < n → get_elem? (replicate {A = Option Bytes} n none) i ≡ some none
get_elem?-replicate zero i h = absurd (omega arith)
get_elem?-replicate (suc n) zero h = refl
get_elem?-replicate (suc n) (suc i) h = get_elem?-replicate n i (omega arith)

get_elem?-set_ne :
    (ps : List (Option Bytes)) (i j : ℕ) (v : Option Bytes)
    → i ≢ j
    → get_elem? (set ps i v) j ≡ get_elem? ps j
get_elem?-set_ne [] i j v h = refl
get_elem?-set_ne (x ∷ xs) zero zero v h = absurd (h refl)
get_elem?-set_ne (x ∷ xs) zero (suc j) v h = refl
get_elem?-set_ne (x ∷ xs) (suc i) zero v h = refl
get_elem?-set_ne (x ∷ xs) (suc i) (suc j) v h = get_elem?-set_ne xs i j v (λ e. h (ap suc e))

-- The places of a list of arrivals, each a time and an index, are all still missing.
abbrev pub Awaited : List (Option Bytes) → List (ℕ × ℕ) → Type 0
Awaited ps = All (λ a. get_elem? ps a.1 ≡ some none)

abbrev pub OtherIndex : ℕ → List (ℕ × ℕ) → Type 0
OtherIndex i = All (λ a. i ≢ a.1)

pub Awaited-set :
    (ps : List (Option Bytes)) (i : ℕ) (v : Option Bytes) (arrivals : List (ℕ × ℕ))
    → OtherIndex i arrivals
    → Awaited ps arrivals
    → Awaited (set ps i v) arrivals
Awaited-set ps i v [] o w = tt
Awaited-set ps i v (a ∷ rest) o w =
    (get_elem?-set_ne ps i a.1 v o.0 ∙ w.0, Awaited-set ps i v rest o.1 w.1)
