-- ===== src/Poller/Circuit/Backoff.antt =====
-- How long a failing device is left alone.
use native.Mathlib.Nat.{pow-suc}
use wavecontrol.Prelude.{
  ℕ, zero, suc, ◌+◌, ◌-◌, ◌*◌, ◌%◌, ◌^◌, ◌≤◌, ◌<◌, min, Bool, true, false, some, ◌≡◌, refl, ap, ◌∙◌,
  arith, ltb, leb, if◌then◌else◌, passes, passes-at, ◌==◌, Text, ltb_ℤ, int_beq, int_beq_iff, ℤ,
  pos, nat_eq, int_eq, text_eq,
}
use wavecontrol.GoMap.{key_refl, lookup, lookup-insert}
use wavecontrol.Poller.Circuit.{
  max_failures, base_backoff, max_backoff, Circuits, or_new, skips_at, should_skip, shifted_backoff,
  backoff, add_duration, fail, record_failure, CircuitBreaker,
}

-- A minute, doubled with each failure behind the third, and fifteen minutes at most.
abbrev pub doubling : ℕ → ℕ
doubling k = min (base_backoff * 2 ^ k) max_backoff

backoff_table : passes (λ k. int_beq (backoff k) (pos (doubling k))) 0 28 ≡ true
unfolding passes backoff shifted_backoff
backoff_table = refl

backoff-doubling : (k : ℕ) → k < 28 → backoff k ≡ pos (doubling k)
backoff-doubling k h =
    let agrees = λ (j : ℕ). int_beq (backoff j) (pos (doubling j)) in
    (int_beq_iff _ _).0 (passes-at agrees 0 28 k backoff_table (omega arith) (omega arith))

pow_shift : (j : ℕ) → 2 ^ (j + 53) ≡ 2 ^ j * 9007199254740992
pow_shift zero = refl
pow_shift (suc j) =
    let e : suc j + 53 ≡ suc (j + 53) = omega arith in
    rw e (omega (arith, pow-suc 2 (j + 53), pow-suc 2 j, pow_shift j))

vanishing_bits : (j : ℕ) → base_backoff * (2 ^ (j + 53) % 2 ^ 64) % 2 ^ 64 ≡ 0
vanishing_bits j = rw (pow_shift j) (omega arith)

-- From 53 doublings on all bits are shifted out.
backoff_vanishes : (j : ℕ) → backoff (j + 53) ≡ pos 0
unfolding backoff shifted_backoff
backoff_vanishes j = rw (vanishing_bits j)

module _ (now : ℕ) (unreachable : Bool) (cb : CircuitBreaker) where
  retry_of :
      (k : ℕ)
      → cb.failures ≡ k + 2
      → (fail now unreachable cb).next_retry ≡ add_duration now (backoff k)
  unfolding fail
  retry_of k e =
      let armed : leb max_failures (cb.failures + 1) ≡ true = ground arith in
      let shift : cb.failures + 1 - max_failures ≡ k = omega arith in rw armed (rw shift)

  retry-doubling :
      (k : ℕ)
      → cb.failures ≡ k + 2
      → k < 28
      → (fail now unreachable cb).next_retry ≡ pos (now + doubling k)
  retry-doubling k e h = retry_of k e ∙ ap (add_duration now) (backoff-doubling k h)

  retry_vanishes : 55 ≤ cb.failures → (fail now unreachable cb).next_retry ≡ pos now
  retry_vanishes h =
      let j = cb.failures - 55 in
      retry_of (j + 53) (omega arith)
      ∙ ap (add_duration now) (backoff_vanishes j)
      ∙ ap pos (omega arith)

module _ (now : ℕ) (ip : Text) (unreachable : Bool) (circuits : Circuits) where
  pub should_skip-record_failure :
      (t : ℕ) (q : Text)
      → should_skip t q (record_failure now ip unreachable circuits) ≡ (
          if ip == q
          then ltb_ℤ (pos t) (fail now unreachable (or_new (lookup ip circuits))).next_retry
          else should_skip t q circuits)
  unfolding should_skip record_failure
  should_skip-record_failure t q =
      rw (lookup-insert ip q (fail now unreachable (or_new (lookup ip circuits))) circuits)
        (split (ip == q))
    where
      split :
          (same : Bool)
          → skips_at t (
              if same
              then some (fail now unreachable (or_new (lookup ip circuits)))
              else lookup q circuits)
            ≡ (if same
                then ltb_ℤ (pos t) (fail now unreachable (or_new (lookup ip circuits))).next_retry
                else skips_at t (lookup q circuits))
      split true = refl
      split false = refl

-- The third failure in a row and the next twenty-seven arm the breaker of their device: it is
-- skipped for a minute, two, four, eight and then fifteen, and other devices are not affected.
pub record_failure-doubling :
    (now : ℕ) (ip : Text) (unreachable : Bool) (circuits : Circuits) (k : ℕ)
    → (or_new (lookup ip circuits)).failures ≡ k + 2
    → k < 28
    → (t : ℕ) (q : Text)
    → should_skip t q (record_failure now ip unreachable circuits)
      ≡ (if ip == q then ltb t (now + doubling k) else should_skip t q circuits)
record_failure-doubling now ip unreachable circuits k failures h t q =
    let cb = or_new (lookup ip circuits) in
    should_skip-record_failure now ip unreachable circuits t q
    ∙ ap (λ (r : ℤ). if ip == q then ltb_ℤ (pos t) r else should_skip t q circuits)
        (retry-doubling now unreachable cb k failures h)
    ∙ ap (λ (b : Bool). if ip == q then b else should_skip t q circuits) (ground arith)

-- From the fifty-sixth failure in a row on the backoff is zero: the breaker does not skip the
-- device at any later time, although the device still counts as failing.
pub record_failure-disarmed :
    (now : ℕ) (ip : Text) (unreachable : Bool) (circuits : Circuits)
    → 55 ≤ (or_new (lookup ip circuits)).failures
    → (t : ℕ) → now ≤ t
    → (should_skip t ip (record_failure now ip unreachable circuits) ≡ false)
      × (56 ≤ (or_new (lookup ip (record_failure now ip unreachable circuits))).failures)
record_failure-disarmed now ip unreachable circuits h t later =
    let cb = or_new (lookup ip circuits) in
    (
      should_skip-record_failure now ip unreachable circuits t ip
          ∙ rw (key_refl ip) (rw (retry_vanishes now unreachable cb h) (ground arith)),
      unfold record_failure fail in rw (lookup-insert, key_refl) (omega arith),
    )
