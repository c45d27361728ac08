-- ===== src/BulkOps/Retry.antt =====
-- internal/bulkops/controller.go, `executeWithRetry`: one operation with its repetitions.
pub mod Outcome
use wavecontrol.Prelude.{
  ℕ, zero, suc, ◌-◌, Bool, ◌&&◌, [], ◌++◌, Option, none, some, if◌then◌else◌, Text, codes, pos_part,
  ltb_ℤ, ℤ, pos,
}
use wavecontrol.BulkOps.Match.{is_retryable}

abbrev pub status_success : Text
status_success = codes "success"

abbrev pub status_failed : Text
status_failed = codes "failed"

abbrev pub status_skipped : Text
status_skipped = codes "skipped"

pub record OpResult : Type 0 where
  pub device_id : ℤ
  pub status : Text
  pub message : Text
  pub error : Text
  pub attempts : ℕ
  pub duration : ℕ
  pub started_at : ℕ
  pub completed_at : ℕ

-- What happens around the attempts, which count from 1: the error of the operation, whether the
-- job's context is cancelled when an attempt has failed, whether it is cancelled during the backoff
-- behind it, and the time at which an attempt ends. The length of the backoff, which has a random
-- part, enters only by these.
pub record World : Type 0 where
  pub op : ℕ → Option Text
  pub cancelled : ℕ → Bool
  pub cancelled_in_backoff : ℕ → Bool
  pub ended_at : ℕ → ℕ
  pub format_int : ℕ → Text

abbrev pub finish : ℕ → OpResult → OpResult
finish now r = record r { completed_at = now; duration = now - r.started_at }

module _ (w : World) (max_retries : ℤ) where
  abbrev pub fail_finally : ℕ → OpResult → OpResult
  fail_finally attempt r = finish (w.ended_at attempt) (record r {
    status = status_failed;
    message = codes "Failed after " ++ w.format_int attempt ++ codes " attempts";
  })

  -- Behind an attempt that failed with the given error: `again` is the rest of the loop.
  unfoldable pub after_failure : ℕ → Text → OpResult → OpResult × ℕ → OpResult × ℕ
  after_failure attempt err failed again =
      if w.cancelled attempt
      then (record failed { status = status_skipped; message = codes "Job cancelled" }, 0)
      else if ltb_ℤ (pos attempt) max_retries && is_retryable err
      then (if w.cancelled_in_backoff attempt
          then (
            record failed {
              status = status_skipped;
              message = codes "Job cancelled during backoff";
            },
            1,
          )
          else (again.0, suc again.1))
      else (fail_finally attempt failed, 0)

  abbrev pub after_attempt : ℕ → Option Text → OpResult → (OpResult → OpResult × ℕ) → OpResult × ℕ
  after_attempt attempt none r again =
      (finish (w.ended_at attempt) (record r { attempts = attempt; status = status_success }), 0)
  after_attempt attempt (some err) r again =
      let failed = record r { attempts = attempt; error = err } in
      after_failure attempt err failed (again failed)

  -- The loop from the given attempt on, with `left` attempts to go; it answers the result and by how
  -- much `retriedOps` grows.
  unfoldable pub attempts_from : ℕ → ℕ → OpResult → OpResult × ℕ
  attempts_from zero attempt r = (r, 0)
  attempts_from (suc left) attempt r =
      after_attempt attempt (w.op attempt) r λ failed. attempts_from left (suc attempt) failed

  unfoldable pub execute_with_retry : ℤ → ℕ → OpResult × ℕ
  execute_with_retry device_id now = attempts_from (pos_part max_retries) 1 (record {
    device_id = device_id;
    status = [];
    message = [];
    error = [];
    attempts = 0;
    duration = 0;
    started_at = now;
    completed_at = 0;
  })
