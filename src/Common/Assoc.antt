-- ===== src/Common/Assoc.antt =====
-- Hash maps (`HashMap`, `DashMap`) as association lists. The program never depends on the order of
-- a map's entries, so the order is not modelled.
use Prim.Native.Nat.{ℕ, ◌≤◌, ◌<◌}
use mathlib.Core.Path.{◌≡◌, refl, sym, ◌∙◌, subst}
use mathlib.Core.Logic.{◌↔◌, ◌≢◌, inl, inr}
use mathlib.Core.Bool.{Bool, true, false, ◌&&◌}
use mathlib.Core.Option.{Option, none, some}
use mathlib.Core.List.{List, [], ◌∷◌}
use native.Mathlib.Omega.{arith}
use quic_proxy.Common.Tests.{◌==◌ as nat_beq, ==_iff, if◌then◌else◌, Bool-cases}
use quic_proxy.Common.Lists.{length}

pub record Eq {ℓ} (A : Type ℓ) : Type ℓ where
  pub beq : A → A → Bool
  pub beq_iff : (a b : A) → (beq a b ≡ true) ↔ (a ≡ b)

instance abbrev pub nat_eq : Eq ℕ
nat_eq = record { beq = nat_beq; beq_iff = ==_iff }

abbrev pub bytes_beq : List ℕ → List ℕ → Bool
bytes_beq [] [] = true
bytes_beq (x ∷ xs) (y ∷ ys) = nat_beq x y && bytes_beq xs ys
bytes_beq _ _ = false

pub bytes_beq_iff : (a b : List ℕ) → (bytes_beq a b ≡ true) ↔ (a ≡ b)
bytes_beq_iff (x ∷ xs) (y ∷ ys) = ground (arith, bytes_beq_iff xs ys)
bytes_beq_iff _ _ = ground arith

instance abbrev pub bytes_eq : Eq (List ℕ)
bytes_eq = record { beq = bytes_beq; beq_iff = bytes_beq_iff }

pub beq_refl {ℓ} : {A : Type ℓ} ⦃e : Eq A⦄ (a : A) → e.beq a a ≡ true
beq_refl ⦃e⦄ a = (e.beq_iff a a).1 refl

pub beq_ne {ℓ} : {A : Type ℓ} ⦃e : Eq A⦄ (a b : A) → a ≢ b → e.beq a b ≡ false
beq_ne ⦃e⦄ a b h = elim (Bool-cases (e.beq a b)) [
  | inl t ↦ absurd (h ((e.beq_iff a b).0 t))
  | inr f ↦ f
]

abbrev pub Assoc {ℓ κ} : Type ℓ → Type κ → Type (ℓ ⊔ κ)
Assoc K V = List (K × V)

module _ {ℓ κ} {K : Type ℓ} {V : Type κ} ⦃e : Eq K⦄ where
  -- `m.get(k)`
  unfoldable pub lookup : K → Assoc K V → Option V
  lookup k [] = none
  lookup k ((j, v) ∷ m) = if e.beq j k then some v else lookup k m

  -- `m.remove(k)`
  unfoldable pub remove : K → Assoc K V → Assoc K V
  remove k [] = []
  remove k ((j, v) ∷ m) = let rest = remove k m in if e.beq j k then rest else (j, v) ∷ rest

  -- `m.insert(k, v)`
  unfoldable pub insert : K → V → Assoc K V → Assoc K V
  unfolding remove
  insert k v m = (k, v) ∷ remove k m

  -- `m.contains_key(k)`
  unfoldable pub contains_key : K → Assoc K V → Bool
  contains_key k [] = false
  contains_key k ((j, v) ∷ m) = let rest = contains_key k m in if e.beq j k then true else rest

-- `m.retain(p)` of a test on the value
unfoldable pub retain {ℓ κ} : {K : Type ℓ} {V : Type κ} → (V → Bool) → Assoc K V → Assoc K V
retain p [] = []
retain p ((j, v) ∷ m) = let rest = retain p m in if p v then (j, v) ∷ rest else rest

module _ {ℓ κ} {K : Type ℓ} {V : Type κ} ⦃e : Eq K⦄ where
  pub lookup-remove_self : (k : K) (m : Assoc K V) → lookup k (remove k m) ≡ none
  unfolding lookup remove
  lookup-remove_self k [] = refl
  lookup-remove_self k ((j, v) ∷ m) = ground (arith, lookup-remove_self k m)

  pub lookup-remove_ne : (k j : K) (m : Assoc K V) → k ≢ j → lookup j (remove k m) ≡ lookup j m
  unfolding lookup remove
  lookup-remove_ne k j [] h = refl
  lookup-remove_ne k j ((i, v) ∷ m) h =
      ground (arith, lookup-remove_ne k j m h, e.beq_iff i k, e.beq_iff i j)

  pub lookup-insert_self : (k : K) (v : V) (m : Assoc K V) → lookup k (insert k v m) ≡ some v
  unfolding lookup insert
  lookup-insert_self k v m = rw (beq_refl k)

  pub lookup-insert_ne :
      (k j : K) (v : V) (m : Assoc K V) → k ≢ j → lookup j (insert k v m) ≡ lookup j m
  unfolding insert
  lookup-insert_ne k j v m h = unfold lookup in rw (beq_ne k j h) (lookup-remove_ne k j m h)

  -- An entry that passes the test is kept, and no key is gained.
  pub lookup-retain_kept :
      (p : V → Bool) (k : K) (v : V) (m : Assoc K V)
      → lookup k m ≡ some v
      → p v ≡ true
      → lookup k (retain p m) ≡ some v
  unfolding lookup retain
  lookup-retain_kept p k v [] h t = cc
  lookup-retain_kept p k v ((j, w) ∷ m) h t = ground (arith, lookup-retain_kept p k v m)

  pub lookup-retain-none :
      (p : V → Bool) (k : K) (m : Assoc K V) → lookup k m ≡ none → lookup k (retain p m) ≡ none
  unfolding lookup retain
  lookup-retain-none p k [] h = refl
  lookup-retain-none p k ((j, w) ∷ m) h = ground (arith, lookup-retain-none p k m)

pub length-remove {ℓ κ} :
    {K : Type ℓ} {V : Type κ} ⦃e : Eq K⦄ (k : K) (m : Assoc K V) → length (remove k m) ≤ length m
unfolding remove
length-remove k [] = omega arith
length-remove k ((j, v) ∷ m) = ground (arith, length-remove k m)

pub length-retain {ℓ κ} :
    {K : Type ℓ} {V : Type κ} (p : V → Bool) (m : Assoc K V) → length (retain p m) ≤ length m
unfolding retain
length-retain p [] = omega arith
length-retain p ((j, v) ∷ m) = ground (arith, length-retain p m)

-- The removal of a key that is there makes room for one entry.
pub length-remove-some {ℓ κ} :
    {K : Type ℓ} {V : Type κ} ⦃e : Eq K⦄ (k : K) (v : V) (m : Assoc K V)
    → lookup k m ≡ some v
    → length (remove k m) < length m
unfolding lookup remove
length-remove-some k v [] h = cc h
length-remove-some ⦃e⦄ k v ((j, w) ∷ m) h = elim (Bool-cases (e.beq j k)) [
  | inl y ↦ rw y (omega (arith, length-remove k m))
  | inr n ↦ rw n (omega (arith, length-remove-some k v m (rw n at h)))
]

-- Every value of a map.
abbrev pub Values {ℓ κ μ} : {K : Type ℓ} {V : Type κ} → (V → Type μ) → Assoc K V → Type μ
Values P [] = Unit
Values P ((k, v) ∷ m) = P v × Values P m

module _ {ℓ κ μ} {K : Type ℓ} {V : Type κ} (P : V → Type μ) ⦃e : Eq K⦄ where
  pub remove-Values : (k : K) (m : Assoc K V) → Values P m → Values P (remove k m)
  unfolding remove
  remove-Values k [] h = h
  remove-Values k ((j, v) ∷ m) h = elim (Bool-cases (e.beq j k)) [
    | inl y ↦ rw y (remove-Values k m h.1)
    | inr n ↦ rw n (h.0, remove-Values k m h.1)
  ]

  pub lookup-Values : (k : K) (v : V) (m : Assoc K V) → lookup k m ≡ some v → Values P m → P v
  unfolding lookup
  lookup-Values k v [] h a = cc h
  lookup-Values k v ((j, w) ∷ m) h a = elim (Bool-cases (e.beq j k)) [
    | inl y ↦ let q : some w ≡ some v = rw y at h in let w_is_v : w ≡ v = cc in subst P w_is_v a.0
    | inr n ↦ lookup-Values k v m (rw n at h) a.1
  ]

pub lookup-remove-some {ℓ κ} :
    {K : Type ℓ} {V : Type κ} ⦃e : Eq K⦄ (k j : K) (v : V) (m : Assoc K V)
    → lookup j (remove k m) ≡ some v
    → lookup j m ≡ some v
lookup-remove-some ⦃e⦄ k j v m h = elim (Bool-cases (e.beq k j)) [
  | inl t ↦
      let l : lookup j (remove k m) ≡ none =
        subst (λ x. lookup x (remove k m) ≡ none) ((e.beq_iff k j).0 t) (lookup-remove_self k m) in
      cc
  | inr f ↦
      let apart : k ≢ j = λ q. let t = (e.beq_iff k j).1 q in cc in
      sym (lookup-remove_ne k j m apart) ∙ h
]
