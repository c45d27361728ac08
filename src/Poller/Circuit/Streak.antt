-- ===== src/Poller/Circuit/Streak.antt =====
-- When a device that cannot be reached is called offline.
use wavecontrol.Prelude.{
  ℕ, ◌+◌, Bool, ◌&&◌, not, List, [], ◌∷◌, Option, none, some, ◌≡◌, refl, arith, ltb, leb,
  if◌then◌else◌, ◌==◌, Text, text_beq_iff, nat_eq, int_eq, text_eq,
}
use wavecontrol.GoMap.{lookup, lookup-insert, lookup-delete}
use wavecontrol.GoMap.Unique.{
  filter_some, IsUnique, IsUnique-insert, IsUnique-delete, lookup-retain, IsUnique-retain,
}
use wavecontrol.Poller.Circuit.{
  sweep_age, Circuits, or_new, record_success, fail, record_failure, get_device_status, is_fresh,
  clean_circuit_breakers, CircuitBreaker, unknown, offline,
}

pub data Event : Type 0 where
  succeeded : Text → Event
  failed : ℕ → Text → Bool → Event
  swept : ℕ → Event

unfoldable pub step : Event → Circuits → Circuits
step (succeeded ip) s = record_success ip s
step (failed now ip unreachable) s = record_failure now ip unreachable s
step (swept now) s = clean_circuit_breakers now s

-- The state behind a history of events, the newest first.
unfoldable pub after : List Event → Circuits
after [] = []
after (event ∷ older) = step event (after older)

-- The time of the device's last failure, unless a success or a sweep has forgotten it.
pub last_failure : Text → List Event → Option ℕ
last_failure ip [] = none
last_failure ip (succeeded j ∷ older) =
    let rest = last_failure ip older in if j == ip then none else rest
last_failure ip (failed now j unreachable ∷ older) =
    let rest = last_failure ip older in if j == ip then some now else rest
last_failure ip (swept now ∷ older) =
    filter_some (λ t. not (ltb (t + sweep_age) now)) (last_failure ip older)

-- The polls in a row, up to now, at which the device could not be reached, since the last poll at
-- which it answered and since the last sweep that has forgotten the device.
pub streak : Text → List Event → ℕ
unfolding last_failure
streak ip [] = 0
streak ip (succeeded j ∷ older) = let rest = streak ip older in if j == ip then 0 else rest
streak ip (failed now j unreachable ∷ older) =
    let rest = streak ip older in if j == ip then (if unreachable then rest + 1 else 0) else rest
streak ip (swept now ∷ older) =
    let rest = streak ip older in
    elim (last_failure ip (swept now ∷ older)) [ none ↦ 0 | some t ↦ rest ]

abbrev last_of : Option CircuitBreaker → Option ℕ
last_of none = none
last_of (some cb) = some cb.last_fail

abbrev count_of : Option CircuitBreaker → ℕ
count_of none = 0
count_of (some cb) = cb.unreachable

IsUnique-step : (event : Event) (s : Circuits) → IsUnique s → IsUnique (step event s)
unfolding step
IsUnique-step (succeeded ip) s u = unfold record_success in IsUnique-delete ip s u
IsUnique-step (failed now ip unreachable) s u = unfold record_failure in IsUnique-insert ip _ s u
IsUnique-step (swept now) s u = unfold clean_circuit_breakers in IsUnique-retain (is_fresh now) s u

pub IsUnique-after : (events : List Event) → IsUnique (after events)
unfolding after
IsUnique-after [] = tt
IsUnique-after (event ∷ older) = IsUnique-step event (after older) (IsUnique-after older)

-- The breaker of a device holds its last failure and its streak.
record Tracks (ip : Text) (events : List Event) : Type 0 where
  last : last_of (lookup ip (after events)) ≡ last_failure ip events
  count : count_of (lookup ip (after events)) ≡ streak ip events

Tracks-after : (ip : Text) (events : List Event) → Tracks ip events
unfolding after step record_success record_failure fail clean_circuit_breakers last_failure streak
Tracks-after ip [] = unfold lookup in record { last = refl; count = refl }
Tracks-after ip (succeeded j ∷ older) =
    let s = after older in
    let ih = Tracks-after ip older in
    record {
      last = ground (arith, lookup-delete j ip s, ih.last);
      count = ground (arith, lookup-delete j ip s, ih.count);
    }
Tracks-after ip (failed now j unreachable ∷ older) =
    let s = after older in
    let cb = fail now unreachable (or_new (lookup j s)) in
    let ih = Tracks-after ip older in
    record {
      last = ground (arith, lookup-insert j ip cb s, ih.last);
      count = ground (arith, lookup-insert j ip cb s, ih.count, text_beq_iff j ip);
    }
Tracks-after ip (swept now ∷ older) =
    let s = after older in
    let ih = Tracks-after ip older in
    let left = lookup-retain (is_fresh now) ip s (IsUnique-after older) in
    record { last = ground (arith, left, ih.last); count = ground (arith, left, ih.last, ih.count) }

-- A device that cannot be reached is offline where at least two polls before this one in a row could
-- not reach it either, and unknown else; one that answered with an error is unknown. Polls from
-- before a sweep that has forgotten the device, which is one more than 30 minutes after its last
-- failure, do not count.
pub get_device_status-streak :
    (ip : Text) (unreachable : Bool) (events : List Event)
    → get_device_status ip unreachable (after events)
      ≡ (if unreachable && leb 2 (streak ip events) then offline else unknown)
unfolding get_device_status
get_device_status-streak ip unreachable events = ground (arith, (Tracks-after ip events).count)
