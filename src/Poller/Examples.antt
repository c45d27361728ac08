-- ===== src/Poller/Examples.antt =====
-- Concrete runs of the poller's bookkeeping.
use wavecontrol.Prelude.{
  ◌+◌, ◌≤◌, true, false, ◌&&◌, ◌||◌, not, List, [], ◌∷◌, ◌≡◌, refl, arith, ltb, leb, if◌then◌else◌,
  ◌==◌, Text, codes, text_beq, is_empty, to_lower, pos, is_space, trim_left, trim_right, trim,
  trim_space, nat_eq, int_eq, text_eq,
}
use wavecontrol.GoMap.{insert, lookup}
use wavecontrol.GoMap.Unique.{retain}
use wavecontrol.Poller.Circuit.{
  Circuits, or_new, should_skip, shifted_backoff, backoff, fail, record_failure, get_device_status,
  clean_circuit_breakers, unknown, offline,
}
use wavecontrol.Poller.Circuit.Backoff.{doubling, record_failure-doubling, record_failure-disarmed}
use wavecontrol.Poller.Circuit.Streak.{
  step, after, streak, get_device_status-streak, Event, failed, swept,
}
use wavecontrol.Poller.Circuit.Sweep.{should_skip-clean}
use wavecontrol.Poller.Peers.{
  accept_peer_snapshot, after_polls, last_empty, accept_peer_snapshot-last_empty,
}
use wavecontrol.Poller.CanonicalMac.{
  normalize_mac, canonicalize_device_mac, canonicalize_device_mac_preferred,
}
use wavecontrol.Poller.CanonicalMac.Identity.{
  names_some, names, canonicalize_device_mac-mismatch, canonicalize_device_mac_preferred-absent,
}

abbrev tower : Text
tower = codes "10.0.0.1"

abbrev station : Text
station = codes "10.0.0.2"

-- A device with two failures, and one with sixty.
abbrev failing : Circuits
failing =
    (tower, record { failures = 2; unreachable = 2; last_fail = 5; next_retry = pos 0 })
    ∷ (station, record { failures = 60; unreachable = 0; last_fail = 9; next_retry = pos 9 })
    ∷ []

record_failure-doubling_example :
    should_skip 100 tower (record_failure 40 tower true failing)
    ≡ (if tower == tower then ltb 100 (40 + doubling 0) else should_skip 100 tower failing)
record_failure-doubling_example =
    record_failure-doubling 40 tower true failing 0 (unfold lookup text_beq in refl) (omega arith)
      100 tower

record_failure-disarmed_example :
    (should_skip 50 station (record_failure 40 station false failing) ≡ false)
    × (56 ≤ (or_new (lookup station (record_failure 40 station false failing))).failures)
record_failure-disarmed_example =
    record_failure-disarmed 40 station false failing (unfold lookup text_beq in omega arith) 50
      (omega arith)

-- Two polls that do not reach the tower, with an error of the station between, and a sweep.
abbrev events : List Event
events = swept 90 ∷ failed 80 tower true ∷ failed 70 station false ∷ failed 60 tower true ∷ []

get_device_status-streak_example :
    get_device_status tower true (after events)
    ≡ (if true && leb 2 (streak tower events) then offline else unknown)
get_device_status-streak_example = get_device_status-streak tower true events

third_is_offline : get_device_status tower true (after events) ≡ offline
unfolding get_device_status after step record_failure fail clean_circuit_breakers retain lookup
    insert backoff shifted_backoff text_beq
third_is_offline = refl

should_skip-clean_example :
    should_skip 99 tower (clean_circuit_breakers 95 (after events))
    ≡ should_skip 99 tower (after events)
should_skip-clean_example = should_skip-clean events 95 99 tower (omega arith)

accept_peer_snapshot-last_empty_example :
    (accept_peer_snapshot (pos 3) 0 (after_polls ((pos 4, 2) ∷ (pos 3, 0) ∷ []))).1
    ≡ (ltb 0 0 || last_empty (pos 3) ((pos 4, 2) ∷ (pos 3, 0) ∷ []))
accept_peer_snapshot-last_empty_example =
    accept_peer_snapshot-last_empty (pos 3) 0 ((pos 4, 2) ∷ (pos 3, 0) ∷ [])

abbrev expected_mac : Text
expected_mac = codes "AA:01"

abbrev seen_macs : List Text
seen_macs = codes " bb:02 " ∷ [] ∷ codes "BB:02" ∷ []

canonicalize_device_mac-mismatch_example :
    let r = canonicalize_device_mac expected_mac seen_macs in
    let exp = normalize_mac expected_mac in
    (r.mismatch ≡ (not (is_empty exp) && names_some seen_macs && not (names exp seen_macs)))
    × (is_empty exp ≡ false → r.canonical ≡ exp)
    × (is_empty exp ≡ true → is_empty r.canonical ≡ not (names_some seen_macs))
canonicalize_device_mac-mismatch_example = canonicalize_device_mac-mismatch expected_mac seen_macs

canonicalize_device_mac_preferred-absent_example :
    canonicalize_device_mac_preferred expected_mac (codes " ") seen_macs
    ≡ canonicalize_device_mac expected_mac seen_macs
canonicalize_device_mac_preferred-absent_example =
    canonicalize_device_mac_preferred-absent expected_mac (codes " ") seen_macs
      (unfold normalize_mac trim_space trim is_space trim_left trim_right to_lower in refl)
