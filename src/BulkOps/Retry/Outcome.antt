-- ===== src/BulkOps/Retry/Outcome.antt =====
-- Which attempt is the last one, and what comes of it.
use wavecontrol.Prelude.{
  ℕ, zero, suc, ◌+◌, ◌≤◌, ◌<◌, Bool, true, false, ◌&&◌, ◌||◌, not, inl, inr, Option, none, some,
  ◌≡◌, refl, ap, ◌∙◌, subst, arith, nat_beq, if◌then◌else◌, nat_beq_iff, Bool-cases, Text, is_empty,
  leb_ℤ, ltb_ℤ, ℤ, pos, negsuc,
}
use wavecontrol.BulkOps.Match.{is_retryable}
use wavecontrol.BulkOps.Retry.{
  status_success, status_failed, status_skipped, after_failure, after_attempt, attempts_from,
  execute_with_retry, OpResult, World,
}

module _ (w : World) (max_retries : ℤ) where
  -- Whether another attempt follows one with the given outcome.
  abbrev pub goes_with : ℕ → Option Text → Bool
  goes_with attempt none = false
  goes_with attempt (some err) =
      not (w.cancelled attempt)
      && (ltb_ℤ (pos attempt) max_retries && is_retryable err)
      && not (w.cancelled_in_backoff attempt)

  abbrev pub goes_on : ℕ → Bool
  goes_on attempt = goes_with attempt (w.op attempt)

  -- The status of an operation whose last attempt has the given outcome.
  abbrev pub verdict_of : ℕ → Option Text → Text
  verdict_of attempt none = status_success
  verdict_of attempt (some err) =
      if w.cancelled attempt
        || ((ltb_ℤ (pos attempt) max_retries && is_retryable err) && w.cancelled_in_backoff attempt)
      then status_skipped
      else status_failed

  -- The number of attempts of the result is that of the first attempt, from the given one on, behind
  -- which no other follows, and its status is by what happened at that attempt.
  pub record EndsAt (first : ℕ) (r : OpResult) : Type 0 where
    pub from : first ≤ r.attempts
    pub bound : leb_ℤ (pos r.attempts) max_retries ≡ true
    pub earlier : (k : ℕ) → first ≤ k → k < r.attempts → goes_on k ≡ true
    pub last : goes_on r.attempts ≡ false
    pub status : r.status ≡ verdict_of r.attempts (w.op r.attempts)

  EndsAt-later :
      (first : ℕ) (r : OpResult) → goes_on first ≡ true → EndsAt (suc first) r → EndsAt first r
  EndsAt-later first r now h = record {
    from = omega (arith, h.from);
    bound = h.bound;
    earlier = λ k from to. elim (Bool-cases (nat_beq first k)) [
      | inl same ↦ (let e = (nat_beq_iff first k).0 same in subst (λ j. goes_on j ≡ true) e now)
      | inr other ↦ h.earlier k (ground arith) to
    ];
    last = h.last;
    status = h.status;
  }

  module _ (left attempt : ℕ) (e : max_retries ≡ pos (left + attempt)) where
    stop-EndsAt :
        (r : OpResult) (found : Option Text)
        → w.op attempt ≡ found
        → r.attempts ≡ attempt
        → goes_with attempt found ≡ false
        → r.status ≡ verdict_of attempt found
        → EndsAt attempt r
    stop-EndsAt r found op at stops is = record {
      from = omega (arith, at);
      bound = rw (e, at) (ground arith);
      earlier = λ k from to. absurd (omega (arith, at));
      last = rw at (rw op stops);
      status = rw at (rw op is);
    }

    failing-EndsAt :
        (failed : OpResult) (err : Text) (again : OpResult × ℕ)
        → w.op attempt ≡ some err
        → failed.attempts ≡ attempt
        → (ltb_ℤ (pos attempt) max_retries ≡ true → EndsAt (suc attempt) again.0)
        → EndsAt attempt (after_failure w max_retries attempt err failed again).0
    unfolding after_failure
    failing-EndsAt failed err again fails at rest = elim (Bool-cases (w.cancelled attempt)) [
      | inl stopped ↦ rw stopped (stop-EndsAt _ (some err) fails at (rw stopped) (rw stopped))
      | inr runs ↦ elim (Bool-cases (ltb_ℤ (pos attempt) max_retries && is_retryable err)) [
        | inr final ↦
            rw (runs, final)
              (stop-EndsAt _ (some err) fails at (rw (runs, final)) (rw (runs, final)))
        | inl retries ↦ elim (Bool-cases (w.cancelled_in_backoff attempt)) [
          | inl stopped ↦
              rw (runs, retries, stopped)
                (stop-EndsAt _ (some err) fails at (rw (runs, retries, stopped))
                  (rw (runs, retries, stopped)))
          | inr waits ↦
              rw (runs, retries, waits)
                (EndsAt-later attempt _ (rw fails (rw (runs, retries, waits)))
                  (rest (ground arith)))
        ]
      ]
    ]

    after_attempt-EndsAt :
        (r : OpResult) (found : Option Text) (again : OpResult → OpResult × ℕ)
        → w.op attempt ≡ found
        → ((failed : OpResult)
            → ltb_ℤ (pos attempt) max_retries ≡ true
            → EndsAt (suc attempt) (again failed).0)
        → EndsAt attempt (after_attempt w max_retries attempt found r again).0
    after_attempt-EndsAt r none again ok rest = stop-EndsAt _ none ok refl refl refl
    after_attempt-EndsAt r (some err) again fails rest =
        let failed = record r { attempts = attempt; error = err } in
        failing-EndsAt failed err (again failed) fails refl (rest failed)

  attempts_from-EndsAt :
      (left attempt : ℕ) (r : OpResult)
      → max_retries ≡ pos (left + attempt)
      → EndsAt attempt (attempts_from w max_retries (suc left) attempt r).0
  unfolding attempts_from
  attempts_from-EndsAt zero attempt r e =
      after_attempt-EndsAt zero attempt e r (w.op attempt) _ refl
        (λ failed more. absurd (ground (arith, e, more)))
  attempts_from-EndsAt (suc n) attempt r e =
      after_attempt-EndsAt (suc n) attempt e r (w.op attempt) _ refl
        (λ failed more. attempts_from-EndsAt n (suc attempt) failed (rw e (ap pos (omega arith))))

-- With a retry limit of at least one, an operation is attempted up to and including the first attempt
-- that succeeds, is cancelled, fails for good or is the last one allowed, and no further; its status
-- is success, skipped or failed by what happened there. Its other fields are left open: the error is
-- that of the last attempt that failed, also where a later one succeeded.
pub execute_with_retry-EndsAt :
    (w : World) (max_retries device_id : ℤ) (now : ℕ)
    → ltb_ℤ (pos 0) max_retries ≡ true
    → EndsAt w max_retries 1 (execute_with_retry w max_retries device_id now).0
unfolding execute_with_retry
execute_with_retry-EndsAt w (pos (suc n)) device_id now h =
    attempts_from-EndsAt w (pos (suc n)) n 1 _ (ap pos (omega arith))
execute_with_retry-EndsAt w (pos zero) device_id now h = absurd (ground (arith, h))
execute_with_retry-EndsAt w (negsuc n) device_id now h = absurd (ground (arith, h))

verdict_of-nonempty :
    (w : World) (max_retries : ℤ) (attempt : ℕ) (found : Option Text)
    → is_empty (verdict_of w max_retries attempt found) ≡ false
verdict_of-nonempty w max_retries attempt none = refl
verdict_of-nonempty w max_retries attempt (some err) = ground arith

-- The result has a status exactly if the retry limit is at least one: below that the operation is
-- not attempted, and its result is none of success, failed and skipped.
pub status-execute_with_retry :
    (w : World) (max_retries device_id : ℤ) (now : ℕ)
    → let r = (execute_with_retry w max_retries device_id now).0 in
      (is_empty r.status ≡ not (ltb_ℤ (pos 0) max_retries))
      × (nat_beq r.attempts 0 ≡ not (ltb_ℤ (pos 0) max_retries))
unfolding execute_with_retry attempts_from
status-execute_with_retry w (pos (suc n)) device_id now =
    let h = execute_with_retry-EndsAt w (pos (suc n)) device_id now (ground arith) in
    let r = (execute_with_retry w (pos (suc n)) device_id now).0 in
    (
      ap is_empty h.status
          ∙ verdict_of-nonempty w (pos (suc n)) r.attempts (w.op r.attempts)
          ∙ ground arith,
      ground (arith, h.from),
    )
status-execute_with_retry w (pos zero) device_id now = (ground arith, ground arith)
status-execute_with_retry w (negsuc n) device_id now = (ground arith, ground arith)
