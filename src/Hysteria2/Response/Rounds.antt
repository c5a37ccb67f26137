-- ===== src/Hysteria2/Response/Rounds.antt =====
-- The loop of the TCPResponse parser ends (src/proxy/outbound/hysteria2/mod.rs: parse_step).
use quic_proxy.Common.{
  ℕ, zero, suc, ◌<◌, ◌≤◌, ◌≡◌, refl, Option, [], ◌∷◌, arith, ◌≢◌, subst, inl, inr, ◌⊎◌,
}
use quic_proxy.Common.Bytes.{Bytes}
use quic_proxy.Hysteria2.Response.{
  ResponseStep, status, msg_len, msg, pad_len, pad, done, ResponseReader, ResponseError, Round,
  advance, complete, need_more, fail, parsed, wants_more, stuck, failed, round, read_length,
  parse_loop, parse_step,
}

abbrev pub rank : ResponseStep → ℕ
rank status = 5
rank msg_len = 4
rank (msg len) = 3
rank pad_len = 2
rank (pad len) = 1
rank done = 0

-- A round that goes on moves to the next step.
abbrev Falls : ℕ → Round → Type 0
Falls n (advance r) = rank r.step < n
Falls n _ = Unit

round-Falls : (s : ResponseStep) (buf : Bytes) (e : Option Bytes) → Falls (rank s) (round s buf e)
unfolding round read_length
round-Falls status [] e = tt
round-Falls status (b ∷ buf) e = omega arith
round-Falls msg_len [] e = tt
round-Falls msg_len (b ∷ buf) e = ground arith
round-Falls (msg len) buf e = ground arith
round-Falls pad_len [] e = tt
round-Falls pad_len (b ∷ buf) e = ground arith
round-Falls (pad len) buf e = ground arith
round-Falls done buf e = tt

pub Round-cases :
    (x : Round)
    → ((r : ResponseReader) × (x ≡ advance r))
      ⊎ ((x ≡ complete) ⊎ ((x ≡ need_more) ⊎ ((e : ResponseError) × (x ≡ fail e))))
Round-cases (advance r) = inl (r, refl)
Round-cases complete = inr (inl refl)
Round-cases need_more = inr (inr (inl refl))
Round-cases (fail e) = inr (inr (inr (e, refl)))

pub advance-Falls :
    (r r' : ResponseReader)
    → round r.step r.buf r.remote_error ≡ advance r'
    → rank r'.step < rank r.step
advance-Falls r r' e = subst (Falls (rank r.step)) e (round-Falls r.step r.buf r.remote_error)

parse_loop-ne-stuck :
    (fuel : ℕ) (r : ResponseReader) → rank r.step < fuel → (parse_loop fuel r).1 ≢ stuck
unfolding parse_loop
parse_loop-ne-stuck zero r h = absurd (omega arith)
parse_loop-ne-stuck (suc fuel) r h = elim (Round-cases (round r.step r.buf r.remote_error)) [
  | inl (r', e) ↦
      rw (parse_loop, e) (parse_loop-ne-stuck fuel r' (omega (arith, advance-Falls r r' e)))
  | inr (inl e) ↦ rw (parse_loop, e) (λ p. cc)
  | inr (inr (inl e)) ↦ rw (parse_loop, e) (λ p. cc)
  | inr (inr (inr (x, e))) ↦ rw (parse_loop, e) (λ p. cc)
]

pub rank-le : (s : ResponseStep) → rank s ≤ 5
rank-le s = ground arith

-- The parser always ends with an answer: its loop never runs out of fuel.
pub parse_step-ne-stuck : (r : ResponseReader) → (parse_step r).1 ≢ stuck
unfolding parse_step
parse_step-ne-stuck r = parse_loop-ne-stuck 7 r (omega (arith, rank-le r.step))

pub parse_loop-advance :
    (fuel : ℕ) (r : ResponseReader) {r' : ResponseReader}
    → round r.step r.buf r.remote_error ≡ advance r'
    → parse_loop (suc fuel) r ≡ parse_loop fuel r'
unfolding parse_loop
parse_loop-advance fuel r e = rw (parse_loop, e)

module _ (fuel : ℕ) (r : ResponseReader) where
  pub parse_loop-complete :
      round r.step r.buf r.remote_error ≡ complete → parse_loop (suc fuel) r ≡ (r, parsed)
  unfolding parse_loop
  parse_loop-complete e = rw (parse_loop, e)

  pub parse_loop-need_more :
      round r.step r.buf r.remote_error ≡ need_more → parse_loop (suc fuel) r ≡ (r, wants_more)
  unfolding parse_loop
  parse_loop-need_more e = rw (parse_loop, e)

  pub parse_loop-fail :
      {x : ResponseError}
      → round r.step r.buf r.remote_error ≡ fail x
      → parse_loop (suc fuel) r ≡ (r, failed x)
  unfolding parse_loop
  parse_loop-fail e = rw (parse_loop, e)

-- The parser never goes back to an earlier step.
pub rank-parse_loop :
    (fuel : ℕ) (r : ResponseReader) → rank (parse_loop fuel r).0.step ≤ rank r.step
unfolding parse_loop
rank-parse_loop zero r = omega arith
rank-parse_loop (suc fuel) r = elim (Round-cases (round r.step r.buf r.remote_error)) [
  | inl (r', e) ↦ rw (parse_loop, e) (omega (arith, advance-Falls r r' e, rank-parse_loop fuel r'))
  | inr (inl e) ↦ rw (parse_loop, e) (omega arith)
  | inr (inr (inl e)) ↦ rw (parse_loop, e) (omega arith)
  | inr (inr (inr (x, e))) ↦ rw (parse_loop, e) (omega arith)
]

-- Any fuel above the rank gives the same answer.
pub parse_loop_fuel :
    (f g : ℕ) (r : ResponseReader)
    → rank r.step < f
    → rank r.step < g
    → parse_loop f r ≡ parse_loop g r
unfolding parse_loop
parse_loop_fuel zero g r hf hg = absurd (omega arith)
parse_loop_fuel (suc f) zero r hf hg = absurd (omega arith)
parse_loop_fuel (suc f) (suc g) r hf hg = elim (Round-cases (round r.step r.buf r.remote_error)) [
  | inl (r', e) ↦
      let fall = advance-Falls r r' e in
      rw (parse_loop, e) (parse_loop_fuel f g r' (omega arith) (omega arith))
  | inr (inl e) ↦ rw (parse_loop, e)
  | inr (inr (inl e)) ↦ rw (parse_loop, e)
  | inr (inr (inr (x, e))) ↦ rw (parse_loop, e)
]
