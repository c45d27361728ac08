-- ===== src/Alerting/Outbox.antt =====
-- internal/alerting/notifications.go: the tables `alerts` and `alert_notification_outbox` behind the
-- notification workers and the resolution of alerts. Each function is one transaction; `fails` says
-- that a statement of it, or its commit, has an error, and the transaction is rolled back then.
use wavecontrol.Prelude.{
  ℕ, ◌+◌, Bool, true, false, ◌&&◌, ◌||◌, not, List, [], ◌∷◌, map, Option, none, some, ltb, leb,
  nat_beq, if◌then◌else◌, ◌==◌, Text, codes, text_beq, ℤ, nat_eq, int_eq, text_eq,
}
use wavecontrol.GoMap.{GoMap, lookup}

pub data AlertStatus : Type 0 where
  active acknowledged resolved : AlertStatus

pub data Event : Type 0 where
  on_triggered on_resolved : Event

pub data DeliveryStatus : Type 0 where
  pending sending sent failed dead : DeliveryStatus

-- The columns that the notifications read or write.
pub record AlertRow : Type 0 where
  pub rule_id : Option ℤ
  pub device_id : ℤ
  pub status : AlertStatus
  pub triggered_at : ℕ
  pub notified_at : Option ℕ
  pub notify_error : Option Text
  pub recovery_notified_at : Option ℕ
  pub recovery_notify_error : Option Text

-- The payload is what is read of it again: `Rule.NotifyRecovery`, or none where it is no JSON.
pub record Delivery : Type 0 where
  pub id : ℕ
  pub alert_id : ℤ
  pub channel : Text
  pub event : Event
  pub payload : Option Bool
  pub status : DeliveryStatus
  pub attempts : ℕ
  pub next_attempt_at : ℕ
  pub updated_at : ℕ
  pub last_error : Option Text

-- `next_id` is the sequence of the outbox.
pub record Tables : Type 0 where
  pub alerts : GoMap ℤ AlertRow
  pub outbox : List Delivery
  pub next_id : ℕ

abbrev pub is_trigger : Event → Bool
is_trigger on_triggered = true
is_trigger on_resolved = false

abbrev pub same_event : Event → Event → Bool
same_event on_triggered e = is_trigger e
same_event on_resolved e = not (is_trigger e)

abbrev pub is_sending : DeliveryStatus → Bool
is_sending sending = true
is_sending other = false

abbrev pub is_sent : DeliveryStatus → Bool
is_sent sent = true
is_sent other = false

-- `status IN ('pending','failed')`
abbrev pub is_waiting : DeliveryStatus → Bool
is_waiting pending = true
is_waiting failed = true
is_waiting other = false

abbrev pub is_resolved : AlertStatus → Bool
is_resolved resolved = true
is_resolved other = false

abbrev pub closed_row : Option AlertRow → Bool
closed_row none = false
closed_row (some a) = is_resolved a.status

abbrev pub open_row : Option AlertRow → Bool
open_row none = false
open_row (some a) = not (is_resolved a.status)

abbrev pub is_there {ℓ} : {A : Type ℓ} → Option A → Bool
is_there none = false
is_there (some a) = true

abbrev pub sysmon : Text
sysmon = codes "sysmon"

abbrev pub max_attempts : ℕ
max_attempts = 8

abbrev pub any {ℓ} : {A : Type ℓ} → (A → Bool) → List A → Bool
any p [] = false
any p (x ∷ xs) = p x || any p xs

-- `UPDATE alert_notification_outbox SET ... WHERE ...`
abbrev pub update_where : (Delivery → Bool) → (Delivery → Delivery) → List Delivery → List Delivery
update_where p f outbox = map (λ d. if p d then f d else d) outbox

-- A trigger that is being sent holds back the recovery on its channel.
unfoldable pub trigger_in_flight : Delivery → List Delivery → Bool
unfolding text_beq
trigger_in_flight d outbox =
    any
      (λ t.
        t.alert_id == d.alert_id
        && t.channel == d.channel
        && is_trigger t.event
        && is_sending t.status)
      outbox

-- The condition of the claim.
unfoldable pub is_claimable : Bool → ℕ → Tables → Delivery → Bool
unfolding text_beq trigger_in_flight lookup
is_claimable sysmon_only now t d =
    let alert = lookup d.alert_id t.alerts in
    is_waiting d.status
    && leb d.next_attempt_at now
    && (if sysmon_only then d.channel == sysmon else not (d.channel == sysmon))
    && (d.channel == sysmon || ltb d.attempts max_attempts)
    && is_there alert
    && (not (is_trigger d.event) || open_row alert)
    && not (not (is_trigger d.event) && trigger_in_flight d t.outbox)

-- `ORDER BY next_attempt_at, id LIMIT 1`
abbrev pub earlier : Delivery → Delivery → Bool
earlier a b =
    ltb a.next_attempt_at b.next_attempt_at
    || nat_beq a.next_attempt_at b.next_attempt_at && ltb a.id b.id

abbrev pub prefer : Delivery → Option Delivery → Delivery
prefer d none = d
prefer d (some e) = if earlier e d then e else d

unfoldable pub first_claimable : (Delivery → Bool) → List Delivery → Option Delivery
first_claimable p [] = none
first_claimable p (d ∷ outbox) =
    let rest = first_claimable p outbox in if p d then some (prefer d rest) else rest

abbrev pub bury : ℕ → Delivery → Delivery
bury now e = record e {
  status = dead;
  attempts = max_attempts;
  last_error = some (codes "invalid notification payload");
  updated_at = now;
}

abbrev pub send : ℕ → ℕ → Delivery → Delivery
send now attempts e = record e { status = sending; attempts = attempts; updated_at = now }

-- The row is dead where its payload is no JSON, and is being sent else.
abbrev pub claim_payload : ℕ → Option Bool → Delivery → Tables → Tables × Option Delivery
claim_payload now none d t =
    (record t { outbox = update_where (λ e. nat_beq e.id d.id) (bury now) t.outbox }, none)
claim_payload now (some notify_recovery) d t = (
  record t { outbox = update_where (λ e. nat_beq e.id d.id) (send now (d.attempts + 1)) t.outbox },
  some (record d { attempts = d.attempts + 1 }),
)

abbrev pub claim_row : ℕ → Option Delivery → Tables → Tables × Option Delivery
claim_row now none t = (t, none)
claim_row now (some d) t = claim_payload now d.payload d t

-- The text of the JSON error, behind that of the source, is left out.
-- The item that the worker is to deliver, if there is one; its attempts count this one.
unfoldable pub claim_notification : Bool → Bool → ℕ → Tables → Tables × Option Delivery
unfolding is_claimable first_claimable
claim_notification fails sysmon_only now t =
    if fails
    then (t, none)
    else claim_row now (first_claimable (is_claimable sysmon_only now t) t.outbox) t

-- The claim that an item stands for is still the current one.
abbrev pub is_current : Delivery → Delivery → Bool
is_current item d = nat_beq d.id item.id && is_sending d.status && nat_beq d.attempts item.attempts

abbrev pub update_alert : ℤ → (AlertRow → AlertRow) → GoMap ℤ AlertRow → GoMap ℤ AlertRow
update_alert id f alerts = map (λ e. if e.0 == id then (e.0, f e.1) else e) alerts

abbrev pub note_sent : ℕ → Event → AlertRow → AlertRow
note_sent now on_triggered a = record a { notified_at = some now; notify_error = none }
note_sent now on_resolved a = record a {
  recovery_notified_at = some now;
  recovery_notify_error = none;
}

abbrev pub note_failed : Text → Event → AlertRow → AlertRow
note_failed message on_triggered a = record a { notify_error = some message }
note_failed message on_resolved a = record a { recovery_notify_error = some message }

abbrev pub all_sent : Delivery → List Delivery → Bool
all_sent item outbox = not (
    any
      (λ o. o.alert_id == item.alert_id && same_event item.event o.event && not (is_sent o.status))
      outbox)

abbrev pub deliver : ℕ → Delivery → Delivery
deliver now d = record d { status = sent; last_error = none; updated_at = now }

abbrev pub note_all_sent : ℕ → Delivery → Tables → Tables
note_all_sent now item t =
    if all_sent item t.outbox
    then record t { alerts = update_alert item.alert_id (note_sent now item.event) t.alerts }
    else t

-- A claim that is no longer the current one changes nothing.
unfoldable pub mark_notification_sent : Bool → ℕ → Delivery → Tables → Tables
mark_notification_sent fails now item t =
    if fails || not (any (is_current item) t.outbox)
    then t
    else note_all_sent now item
        (record t { outbox = update_where (is_current item) (deliver now) t.outbox })
