-- ===== src/Poller/Circuit/Sweep.antt =====
-- A sweep forgets old failures, and never lets a device out of its backoff early.
use wavecontrol.Prelude.{
  ℕ, ◌+◌, ◌-◌, ◌≤◌, ◌<◌, Bool, true, false, List, [], ◌∷◌, inl, inr, Option, none, some, ◌≡◌, refl,
  sym, arith, leb, if◌then◌else◌, Bool-cases, tests, Text, leb_ℤ, ltb_ℤ, ℤ, pos, negsuc, nat_eq,
  int_eq, text_eq,
}
use wavecontrol.GoMap.{lookup, AllValues, AllValues-insert, AllValues-delete, AllValues-lookup}
use wavecontrol.GoMap.Unique.{filter_some, lookup-retain, AllValues-retain}
use wavecontrol.Poller.Circuit.{
  max_failures, max_backoff, Circuits, or_new, skips_at, should_skip, record_success,
  shifted_backoff, backoff, add_duration, fail, record_failure, is_fresh, clean_circuit_breakers,
  CircuitBreaker,
}
use wavecontrol.Poller.Circuit.Streak.{step, after, IsUnique-after, Event, succeeded, failed, swept}

-- A breaker is armed from its third failure on, for at most fifteen minutes from the last one.
record IsShort (cb : CircuitBreaker) : Type 0 where
  unarmed : cb.failures < max_failures → cb.next_retry ≡ pos 0
  short : leb_ℤ cb.next_retry (pos (cb.last_fail + max_backoff)) ≡ true

backoff-le : (k : ℕ) → leb_ℤ (backoff k) (pos max_backoff) ≡ true
unfolding backoff
backoff-le k = capped (shifted_backoff k)
  where
    capped :
        (d : ℤ)
        → leb_ℤ (if ltb_ℤ (pos max_backoff) d then pos max_backoff else d) (pos max_backoff) ≡ true
    capped (pos n) = ground arith
    capped (negsuc n) = ground arith

add_duration-le :
    (t : ℕ) (d : ℤ)
    → leb_ℤ d (pos max_backoff) ≡ true
    → leb_ℤ (add_duration t d) (pos (t + max_backoff)) ≡ true
add_duration-le t (pos n) h = ground arith
add_duration-le t (negsuc n) h = ground arith

fail-IsShort :
    (now : ℕ) (unreachable : Bool) (cb : CircuitBreaker)
    → IsShort cb
    → IsShort (fail now unreachable cb)
unfolding fail
fail-IsShort now unreachable cb h = elim (Bool-cases (leb max_failures (cb.failures + 1))) [
  | inl armed ↦ record {
    unarmed = λ few. absurd (omega tests);
    short =
        rw armed (add_duration-le now (backoff (cb.failures + 1 - max_failures)) (backoff-le _));
  }
  | inr few ↦
      let zero_retry : cb.next_retry ≡ pos 0 = h.unarmed (omega tests) in
      record { unarmed = λ _. rw few zero_retry; short = rw few (rw zero_retry (ground arith)) }
]

or_new-IsShort : (ip : Text) (s : Circuits) → AllValues IsShort s → IsShort (or_new (lookup ip s))
or_new-IsShort ip s a = go (lookup ip s) refl
  where
    go : (found : Option CircuitBreaker) → lookup ip s ≡ found → IsShort (or_new found)
    go none e = record { unarmed = λ _. refl; short = ground arith }
    go (some cb) e = AllValues-lookup IsShort ip s cb e a

AllShort-after : (events : List Event) → AllValues IsShort (after events)
unfolding after step record_success record_failure clean_circuit_breakers
AllShort-after [] = tt
AllShort-after (succeeded ip ∷ older) =
    AllValues-delete IsShort ip (after older) (AllShort-after older)
AllShort-after (failed now ip unreachable ∷ older) =
    AllValues-insert IsShort ip _ (after older)
      (fail-IsShort now unreachable _ (or_new-IsShort ip (after older) (AllShort-after older)))
      (AllShort-after older)
AllShort-after (swept now ∷ older) =
    AllValues-retain IsShort (is_fresh now) (after older) (AllShort-after older)

stale_elapsed :
    (now t : ℕ) (ip : Text) (cb : CircuitBreaker)
    → IsShort cb
    → now ≤ t
    → is_fresh now ip cb ≡ false
    → skips_at t (some cb) ≡ false
stale_elapsed now t ip cb h later stale = ground (arith, h.short)

-- After any events, sweeping at a time `now` changes the answer of `shouldSkip` for no device, then
-- or later: an entry that it forgets has served its backoff.
pub should_skip-clean :
    (events : List Event) (now t : ℕ) (ip : Text)
    → now ≤ t
    → should_skip t ip (clean_circuit_breakers now (after events)) ≡ should_skip t ip (after events)
unfolding should_skip clean_circuit_breakers
should_skip-clean events now t ip later =
    rw (lookup-retain (is_fresh now) ip (after events) (IsUnique-after events))
      (go (lookup ip (after events)) refl)
  where
    go :
        (found : Option CircuitBreaker)
        → lookup ip (after events) ≡ found
        → skips_at t (filter_some (is_fresh now ip) found) ≡ skips_at t found
    go none e = refl
    go (some cb) e = elim (Bool-cases (is_fresh now ip cb)) [
      | inl fresh ↦ rw fresh
      | inr stale ↦ rw stale (
          sym (
            stale_elapsed now t ip cb
              (AllValues-lookup IsShort ip (after events) cb e (AllShort-after events)) later
              stale))
    ]
