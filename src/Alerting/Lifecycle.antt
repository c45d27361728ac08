-- ===== src/Alerting/Lifecycle.antt =====
-- internal/alerting: failed deliveries with their backoff, abandoned claims, and the alerts from
-- their creation to their resolution. `fails` is as in Alerting.Outbox.
pub mod Sound
pub mod Marks
pub mod Enqueue
pub mod Closing
pub mod Tries
pub mod Reach
pub mod Recovery
pub mod Backoff
pub mod Queue
use wavecontrol.Prelude.{
  ℕ, ◌+◌, ◌-◌, ◌*◌, ◌^◌, min, max, Bool, true, false, ◌&&◌, ◌||◌, List, [], ◌∷◌, ◌++◌, Option, none,
  some, ltb, leb, if◌then◌else◌, ◌==◌, Text, codes, text_beq, ℤ, nat_eq, int_eq, text_eq,
}
use wavecontrol.GoMap.{GoMap, insert, lookup}
use wavecontrol.Alerting.Outbox.{
  is_trigger, same_event, is_sending, is_sent, is_waiting, is_resolved, closed_row, is_there,
  sysmon, max_attempts, any, update_where, is_current, update_alert, note_failed, AlertStatus,
  active, acknowledged, resolved, Event, on_triggered, on_resolved, DeliveryStatus, pending, failed,
  dead, AlertRow, Delivery, Tables,
}

-- In nanoseconds.
abbrev pub second : ℕ
second = 1000000000

-- `1<<min(attempts-1, top)` times the unit, and at most the limit.
abbrev pub doubled : ℕ → ℕ → ℕ → ℕ → ℕ
doubled attempts top unit limit = min (2 ^ min (max attempts 1 - 1) top * unit) limit

unfoldable pub notification_failure_policy : Text → ℕ → DeliveryStatus × ℕ
unfolding text_beq
notification_failure_policy channel attempts =
    if channel == sysmon then (failed, doubled attempts 4 (5 * second) (60 * second)) else (
      if leb max_attempts (max attempts 1) then dead else failed,
      doubled attempts 8 (30 * second) (30 * 60 * second),
    )

abbrev pub set_back : ℕ → Text → DeliveryStatus → ℕ → Delivery → Delivery
set_back now message status backoff d = record d {
  status = status;
  last_error = some message;
  next_attempt_at = now + backoff;
  updated_at = now;
}

abbrev pub record_failure : ℕ → Delivery → Text → DeliveryStatus → ℕ → Tables → Tables
record_failure now item message status backoff t =
    if any (is_current item) t.outbox
    then record t {
      outbox = update_where (is_current item) (set_back now message status backoff) t.outbox;
      alerts = update_alert item.alert_id (note_failed message item.event) t.alerts;
    }
    else t

-- The message is that of the delivery, cut by `truncateError`; a trigger whose alert is closed is
-- not repeated.
abbrev pub fail_item : ℕ → Delivery → Text → Option AlertRow → Tables → Tables
fail_item now item message none t = t
fail_item now item message (some a) t =
    let policy = notification_failure_policy item.channel item.attempts in
    if is_trigger item.event && is_resolved a.status
    then record_failure now item (codes "alert closed before delivery completed: " ++ message) dead
        policy.1 t
    else record_failure now item message policy.0 policy.1 t

unfoldable pub mark_notification_failed : Bool → ℕ → Delivery → Text → Tables → Tables
unfolding lookup
mark_notification_failed fails now item message t =
    if fails then t else fail_item now item message (lookup item.alert_id t.alerts) t

abbrev pub stale_after : ℕ
stale_after = 5 * 60 * second

-- `AND o.status='sending' AND o.updated_at < NOW() - INTERVAL '5 minutes'`, with the join.
abbrev pub is_stale : ℕ → GoMap ℤ AlertRow → Delivery → Bool
is_stale now alerts d =
    is_there (lookup d.alert_id alerts)
    && is_sending d.status
    && ltb (d.updated_at + stale_after) now

abbrev pub release : ℕ → GoMap ℤ AlertRow → Delivery → Delivery
release now alerts d =
    let closed = is_trigger d.event && closed_row (lookup d.alert_id alerts) in
    record d {
      status = if closed then dead else failed;
      last_error = some (
          if closed
          then codes "delivery claim expired after the alert closed"
          else codes "recovered stale sending claim");
      next_attempt_at = now;
      updated_at = now;
    }

unfoldable pub recover_stale_notification_claims : Bool → ℕ → Tables → Tables
unfolding lookup
recover_stale_notification_claims fails now t =
    if fails
    then t
    else record t { outbox = update_where (is_stale now t.alerts) (release now t.alerts) t.outbox }

-- `UPDATE alerts SET status='acknowledged' ... WHERE id=$2 AND status='active'`; false is
-- `ErrNotFound`.
abbrev pub acknowledge_if : AlertStatus → ℤ → AlertRow → Tables → Tables × Bool
acknowledge_if active id a t =
    (record t { alerts = insert id (record a { status = acknowledged }) t.alerts }, true)
acknowledge_if other id a t = (t, false)

abbrev pub acknowledge_row : ℤ → Option AlertRow → Tables → Tables × Bool
acknowledge_row id none t = (t, false)
acknowledge_row id (some a) t = acknowledge_if a.status id a t

unfoldable pub acknowledge_alert : Bool → ℤ → Tables → Tables × Bool
unfolding lookup insert
acknowledge_alert fails id t =
    if fails then (t, false) else acknowledge_row id (lookup id t.alerts) t

abbrev pub same_delivery : ℤ → Text → Event → Delivery → Bool
same_delivery id channel event d =
    d.alert_id == id && d.channel == channel && same_event event d.event

-- A new row of the outbox, with the defaults of its columns.
abbrev pub new_delivery : ℕ → ℕ → ℤ → Text → Event → Bool → Delivery
new_delivery now row id channel event notify_recovery = record {
  id = row;
  alert_id = id;
  channel = channel;
  event = event;
  payload = some notify_recovery;
  status = pending;
  attempts = 0;
  next_attempt_at = now;
  updated_at = now;
  last_error = none;
}

abbrev pub append_delivery : ℕ → ℤ → Text → Event → Bool → Tables → Tables
append_delivery now id channel event notify_recovery t = record t {
  outbox = t.outbox ++ new_delivery now t.next_id id channel event notify_recovery ∷ [];
  next_id = t.next_id + 1;
}

-- `ON CONFLICT (alert_id, channel, event) DO NOTHING`
unfoldable pub enqueue_trigger : ℕ → ℤ → Bool → Text → Tables → Tables
unfolding text_beq
enqueue_trigger now id notify_recovery channel t =
    if any (same_delivery id channel on_triggered) t.outbox
    then t
    else append_delivery now id channel on_triggered notify_recovery t

unfoldable pub enqueue_triggers : ℕ → ℤ → Bool → List Text → Tables → Tables
unfolding enqueue_trigger
enqueue_triggers now id notify_recovery [] t = t
enqueue_triggers now id notify_recovery (channel ∷ channels) t =
    enqueue_triggers now id notify_recovery channels
      (enqueue_trigger now id notify_recovery channel t)

-- The recovery of one channel: `ON CONFLICT ... DO UPDATE` leaves a recovery that is sent as it is.
abbrev pub renew : ℕ → Bool → Delivery → Delivery
renew now notify_recovery d =
    if is_sent d.status
    then record d { payload = some notify_recovery; updated_at = now }
    else record d {
      payload = some notify_recovery;
      status = pending;
      attempts = 0;
      next_attempt_at = now;
      last_error = none;
      updated_at = now;
    }

unfoldable pub enqueue_recovery : ℕ → ℤ → Text → Bool → Tables → Tables
unfolding text_beq
enqueue_recovery now id channel notify_recovery t =
    if any (same_delivery id channel on_resolved) t.outbox
    then record t {
      outbox =
          update_where (same_delivery id channel on_resolved) (renew now notify_recovery) t.outbox;
    }
    else append_delivery now id channel on_resolved notify_recovery t

-- Whether the recovery is wanted: the rule that is known decides, else the payload of the trigger.
-- None is a payload that cannot be rebuilt.
abbrev pub wants_recovery : Option Bool → Option Bool → Option Bool
wants_recovery (some rule) payload = some rule
wants_recovery none payload = payload

abbrev pub recover_if : Option Bool → ℕ → ℤ → Text → Tables → Option (Tables × Bool)
recover_if none now id channel t = none
recover_if (some false) now id channel t = some (t, false)
recover_if (some true) now id channel t = some (enqueue_recovery now id channel true t, true)

abbrev pub recover_trigger : ℕ → ℤ → Option Bool → Delivery → Tables → Option (Tables × Bool)
recover_trigger now id rule trigger t =
    if is_sent trigger.status || is_sending trigger.status
    then recover_if (wants_recovery rule trigger.payload) now id trigger.channel t
    else some (t, false)

abbrev pub or_enqueued : Bool → Option (Tables × Bool) → Option (Tables × Bool)
or_enqueued now none = none
or_enqueued now (some (t, later)) = some (t, now || later)

-- An error ends the loop.
abbrev pub and_then :
    Option (Tables × Bool) → (Tables → Option (Tables × Bool)) → Option (Tables × Bool)
and_then none rest = none
and_then (some (t, queued)) rest = or_enqueued queued (rest t)

unfoldable pub recover_triggers :
    ℕ → ℤ → Option Bool → List Delivery → Tables → Option (Tables × Bool)
recover_triggers now id rule [] t = some (t, false)
recover_triggers now id rule (trigger ∷ triggers) t =
    and_then (recover_trigger now id rule trigger t)
      (λ after. recover_triggers now id rule triggers after)

unfoldable pub triggers_of : ℤ → List Delivery → List Delivery
triggers_of id [] = []
triggers_of id (d ∷ outbox) =
    let rest = triggers_of id outbox in
    if d.alert_id == id && is_trigger d.event then d ∷ rest else rest

-- `WHERE alert_id=$1 AND event='triggered' AND status IN ('pending','failed')`
abbrev pub cancel_triggers : ℕ → ℤ → List Delivery → List Delivery
cancel_triggers now id =
    update_where (λ d. d.alert_id == id && is_trigger d.event && is_waiting d.status)
      (λ d. record d {
        status = dead;
        last_error = some (codes "alert closed before trigger delivery");
        updated_at = now;
      })

abbrev pub close_row : ℕ → ℤ → Option Bool → Option AlertRow → Tables → Option (Tables × Bool)
close_row now id rule none t = none
close_row now id rule (some a) t =
    if is_resolved a.status
    then some (t, false)
    else recover_triggers now id rule (triggers_of id t.outbox) (record t {
      alerts = insert id (record a { status = resolved; recovery_notify_error = none }) t.alerts;
      outbox = cancel_triggers now id t.outbox;
    })

-- `resolveAlertTx`: none is an error, and the transaction around it is rolled back. `rule` is
-- `NotifyRecovery` of the rule that the caller has or that the table has under `rule_id`. The other
-- answer is whether a recovery was enqueued.
unfoldable pub resolve_alert_tx : Bool → ℕ → ℤ → Option Bool → Tables → Option (Tables × Bool)
unfolding lookup insert triggers_of recover_triggers
resolve_alert_tx fails now id rule t =
    if fails then none else close_row now id rule (lookup id t.alerts) t

-- The alert that `handleTriggered` inserts, with one trigger for each of its channels.
unfoldable pub open_alert : ℕ → ℤ → AlertRow → Bool → List Text → Tables → Tables
unfolding insert enqueue_triggers
open_alert now id a notify_recovery channels t =
    enqueue_triggers now id notify_recovery channels (record t { alerts = insert id a t.alerts })
