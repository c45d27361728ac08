-- ===== src/BulkOps/Examples.antt =====
-- Concrete runs of the bulk operations.
use wavecontrol.Prelude.{
  ◌*◌, true, false, not, none, some, ◌≡◌, refl, leb, nat_beq, if◌then◌else◌, codes, text_beq,
  is_empty, to_lower, ltb_ℤ, pos, contains,
}
use wavecontrol.BulkOps.Match.{
  same_folded, matches_lower, scan, contains_lower, contains_folded, any_in, is_retryable,
}
use wavecontrol.BulkOps.Match.Fold.{contains_folded-to_lower}
use wavecontrol.BulkOps.Retry.{after_failure, attempts_from, execute_with_retry, World}
use wavecontrol.BulkOps.Retry.Outcome.{execute_with_retry-EndsAt, status-execute_with_retry, EndsAt}

contains_folded-to_lower_example :
    contains_folded (codes "Read: I/O Timeout") (codes "timeout")
    ≡ contains (to_lower (codes "Read: I/O Timeout")) (to_lower (codes "timeout"))
contains_folded-to_lower_example =
    contains_folded-to_lower (codes "Read: I/O Timeout") (codes "timeout")

timeout_is_retryable : is_retryable (codes "Timeout") ≡ true
unfolding is_retryable any_in contains_folded contains_lower scan matches_lower same_folded text_beq
timeout_is_retryable = refl

-- A device that answers at the third attempt.
abbrev third_answers : World
third_answers = record {
  op = λ k. if leb 3 k then none else some (codes "timeout");
  cancelled = λ k. false;
  cancelled_in_backoff = λ k. false;
  ended_at = λ k. 100 * k;
  format_int = λ k. codes "";
}

three_attempts : (execute_with_retry third_answers (pos 3) (pos 7) 10).0.attempts ≡ 3
unfolding execute_with_retry attempts_from after_failure is_retryable any_in contains_folded
    contains_lower scan matches_lower same_folded text_beq
three_attempts = refl

execute_with_retry-EndsAt_example :
    EndsAt third_answers (pos 3) 1 (execute_with_retry third_answers (pos 3) (pos 7) 10).0
execute_with_retry-EndsAt_example = execute_with_retry-EndsAt third_answers (pos 3) (pos 7) 10 refl

status-execute_with_retry_example :
    let r = (execute_with_retry third_answers (pos 0) (pos 7) 10).0 in
    (is_empty r.status ≡ not (ltb_ℤ (pos 0) (pos 0)))
    × (nat_beq r.attempts 0 ≡ not (ltb_ℤ (pos 0) (pos 0)))
status-execute_with_retry_example = status-execute_with_retry third_answers (pos 0) (pos 7) 10
