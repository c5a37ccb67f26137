-- ===== src/Router/Selection.antt =====
-- The first rule that fits decides (src/proxy/router.rs: select_out).
use quic_proxy.Common.{
  ℕ, zero, suc, ◌+◌, ◌<◌, ◌≡◌, refl, ap, subst, ◌∙◌, ◌⊎◌, inl, inr, Bool, true, false, not, ◌&&◌,
  ◌||◌, Option, none, some, List, [], ◌∷◌, get_elem?, take, if◌then◌else◌, arith, Bool-cases,
}
use quic_proxy.Common.Bytes.{Bytes}
use quic_proxy.Addr.{TargetAddr}
use quic_proxy.Router.{
  RouterMode, NetworkType, Rule, Answers, Sniffed, nothing_sniffed, sniff_dns_target, matches,
  in_mode, is_some, or_else, Selected, context, Found, try_rule, select_loop, fakeip, finish,
  select_out,
}

module _ (env : Answers) (mode : RouterMode) (original : TargetAddr) (tag : Bytes)
    (network : Option NetworkType) (payload : Option Bytes) where
  -- A rule of the mode asks for a protocol.
  unfoldable pub needs_sniff : List Rule → Bool
  needs_sniff [] = false
  needs_sniff (r ∷ rules) = (in_mode mode r && is_some r.protocol) || needs_sniff rules

  -- What is known of the payload: all, or nothing.
  abbrev pub known : Bool → Sniffed env
  known true = sniff_dns_target env payload original
  known false = nothing_sniffed env

  abbrev answer : Bool → Rule → Bool × Option TargetAddr
  answer k r = matches env r (context env mode original tag network payload (known k))

  -- The answer of a rule that sees the payload exactly if `k`.
  abbrev pub Takes : Bool → Rule → Option TargetAddr → Type 0
  Takes k r resolved = (in_mode mode r ≡ true) × (answer k r ≡ (true, resolved))

  abbrev pub Refuses : Bool → Rule → Type 0
  Refuses k r = (in_mode mode r ≡ false) ⊎ ((answer k r).0 ≡ false)

  -- Each rule before the place `n` refuses, where the payload is known from the first rule of the
  -- mode on that asks for a protocol, or from the start if `k`.
  abbrev pub AllRefuse : Bool → List Rule → ℕ → Type 0
  AllRefuse k rules n =
      (m : ℕ) (q : Rule)
      → m < n
      → get_elem? rules m ≡ some q
      → Refuses (k || needs_sniff (take (suc m) rules)) q

  abbrev Chosen : Bool → List Rule → ℕ → Found env mode original tag network payload → Type 0
  Chosen k rules i (some (j, r, resolved), s) =
      (n : ℕ) × (j ≡ i + n)
      × (get_elem? rules n ≡ some r)
      × Takes (k || needs_sniff (take (suc n) rules)) r resolved
      × (s ≡ known (k || needs_sniff (take (suc n) rules)))
      × AllRefuse k rules n
  Chosen k rules i (none, s) =
      (s ≡ known (k || needs_sniff rules))
      × ((m : ℕ) (q : Rule)
          → get_elem? rules m ≡ some q
          → Refuses (k || needs_sniff (take (suc m) rules)) q)

  -- A rule that refuses, in front of the others.
  Chosen-lift :
      (k k' : Bool) (r : Rule) (rules : List Rule) (i : ℕ)
      (f : Found env mode original tag network payload)
      → ((xs : List Rule) → (k || needs_sniff (r ∷ xs)) ≡ (k' || needs_sniff xs))
      → Refuses (k || needs_sniff (r ∷ [])) r
      → Chosen k' rules (i + 1) f
      → Chosen k (r ∷ rules) i f
  Chosen-lift k k' r rules i (some (j, q, resolved), s) same refusal (n, hj, hq, t, hs, early) = (
    suc n,
    omega arith,
    hq,
    rw (same (take (suc n) rules)) t,
    rw (same (take (suc n) rules)) hs,
    first_refuses,
  )
    where
      first_refuses : AllRefuse k (r ∷ rules) (suc n)
      first_refuses zero p h e =
          let here : r ≡ p = cc in subst (λ x. Refuses (k || needs_sniff (r ∷ [])) x) here refusal
      first_refuses (suc m) p h e = rw (same (take (suc m) rules)) (early m p (omega arith) e)
  Chosen-lift k k' r rules i (none, s) same refusal (hs, early) =
      (rw (same rules) hs, first_refuses)
    where
      first_refuses :
          (m : ℕ) (q : Rule)
          → get_elem? (r ∷ rules) m ≡ some q
          → Refuses (k || needs_sniff (take (suc m) (r ∷ rules))) q
      first_refuses zero p e =
          let here : r ≡ p = cc in subst (λ x. Refuses (k || needs_sniff (r ∷ [])) x) here refusal
      first_refuses (suc m) p e = rw (same (take (suc m) rules)) (early m p e)

  after_sniff : (k p : Bool) → (if not k && p then known true else known k) ≡ known (k || p)
  after_sniff true p = refl
  after_sniff false true = refl
  after_sniff false false = refl

  or_assoc : (k p x : Bool) → (k || ((true && p) || x)) ≡ ((k || p) || x)
  or_assoc true p x = refl
  or_assoc false true x = refl
  or_assoc false false x = refl

  or_end : (k p : Bool) → (k || p) ≡ (k || (p || false))
  or_end true p = refl
  or_end false true = refl
  or_end false false = refl

  needs_on :
      (k : Bool) (r : Rule)
      → in_mode mode r ≡ true
      → (xs : List Rule)
      → (k || needs_sniff (r ∷ xs)) ≡ ((k || is_some r.protocol) || needs_sniff xs)
  unfolding needs_sniff
  needs_on k r on xs = rw on (or_assoc k (is_some r.protocol) (needs_sniff xs))

  needs_off :
      (k : Bool) (r : Rule)
      → in_mode mode r ≡ false
      → (xs : List Rule) → (k || needs_sniff (r ∷ xs)) ≡ (k || needs_sniff xs)
  unfolding needs_sniff
  needs_off k r off xs = rw off refl

  nothing_more : (k : Bool) → (k || needs_sniff []) ≡ k
  unfolding needs_sniff
  nothing_more true = refl
  nothing_more false = refl

  try_rule-Chosen :
      (k k' : Bool) (r : Rule) (rules : List Rule) (i : ℕ)
      (later : Found env mode original tag network payload) (x : Bool × Option TargetAddr)
      → in_mode mode r ≡ true
      → ((xs : List Rule) → (k || needs_sniff (r ∷ xs)) ≡ (k' || needs_sniff xs))
      → answer k' r ≡ x
      → Chosen k' rules (i + 1) later
      → Chosen k (r ∷ rules) i (if x.0 then (some (i, r, x.1), known k') else later)
  try_rule-Chosen k k' r rules i later (true, resolved) on same e c =
      let alone : (k || needs_sniff (r ∷ [])) ≡ k' = same [] ∙ nothing_more k' in
      (0, omega arith, refl, rw alone (on, e), rw alone refl, λ m q h. absurd (omega arith))
  try_rule-Chosen k k' r rules i later (false, resolved) on same e c =
      let alone : (k || needs_sniff (r ∷ [])) ≡ k' = same [] ∙ nothing_more k' in
      Chosen-lift k k' r rules i later same (rw alone (inr (ap (λ y. y.0) e))) c

  select_loop-Chosen :
      (rules : List Rule) (i : ℕ) (k : Bool)
      → Chosen k rules i (select_loop env mode original tag network payload rules i k (known k))
  unfolding select_loop try_rule
  select_loop-Chosen [] i k = (rw (nothing_more k) refl, λ m q e. cc)
  select_loop-Chosen (r ∷ rules) i k = elim (Bool-cases (in_mode mode r)) [
    | inr off ↦ rw off (
        Chosen-lift k k r rules i _ (needs_off k r off) (inl off)
          (select_loop-Chosen rules (i + 1) k))
    | inl on ↦
        rw (on, after_sniff k (is_some r.protocol))
          (try_rule-Chosen k (k || is_some r.protocol) r rules i _ _ on (needs_on k r on) refl
            (select_loop-Chosen rules (i + 1) (k || is_some r.protocol)))
  ]

  -- What select_out may answer: the first rule that takes the connection, with its outbound, the
  -- target that it resolved, else the sniffed one, else the original; or, where every rule refuses,
  -- the default outbound.
  abbrev pub FirstTaker : ℕ → List Rule → Selected → Type 0
  FirstTaker default_outbound rules x = elim x.matched_idx [
    | some n ↦
        (r : Rule) × (resolved : Option TargetAddr) × (get_elem? rules n ≡ some r)
        × Takes (needs_sniff (take (suc n) rules)) r resolved
        × AllRefuse false rules n
        × (x.outbound ≡ r.outbound)
        × (x.final_target
            ≡ or_else resolved
                (or_else (known (needs_sniff (take (suc n) rules))).override_target original))
        × (x.is_fakeip ≡ fakeip env mode original tag network payload r.dns original)
    | none ↦
        ((m : ℕ) (q : Rule)
          → get_elem? rules m ≡ some q
          → Refuses (needs_sniff (take (suc m) rules)) q)
        × (x.outbound ≡ default_outbound)
        × (x.final_target ≡ or_else (known (needs_sniff rules)).override_target original)
        × (x.is_fakeip ≡ false)
  ]

  finish-FirstTaker :
      (default_outbound : ℕ) (rules : List Rule) (f : Found env mode original tag network payload)
      → Chosen false rules 0 f
      → FirstTaker default_outbound rules
          (finish env mode original tag network payload default_outbound f)
  unfolding finish
  finish-FirstTaker d rules (some (j, r, resolved), s) (n, hj, hq, t, hs, early) =
      let place : n ≡ j = omega arith in
      let q : get_elem? rules j ≡ some r = rw place at hq in
      let u : Takes (needs_sniff (take (suc j) rules)) r resolved =
        subst (λ n. Takes (needs_sniff (take (suc n) rules)) r resolved) place t in
      let v : AllRefuse false rules j = subst (λ n. AllRefuse false rules n) place early in
      let w : s ≡ known (needs_sniff (take (suc j) rules)) =
        subst (λ n. s ≡ known (needs_sniff (take (suc n) rules))) place hs in
      (
        r,
        resolved,
        q,
        u,
        v,
        refl,
        ap (λ s. or_else resolved (or_else s.override_target original)) w,
        refl,
      )
  finish-FirstTaker d rules (none, s) (hs, early) =
      (early, refl, ap (λ s. or_else s.override_target original) hs, refl)

  -- select_out takes the first rule of the mode that matches, and the default outbound exactly when
  -- every rule refuses. The payload is sniffed once, for the first rule of the mode that asks for a
  -- protocol, and that rule and all later ones see what was sniffed.
  pub select_out-FirstTaker :
      (default_outbound : ℕ) (rules : List Rule)
      → FirstTaker default_outbound rules
          (select_out env mode original tag network payload default_outbound rules)
  unfolding select_out
  select_out-FirstTaker d rules = finish-FirstTaker d rules _ (select_loop-Chosen rules 0 false)
