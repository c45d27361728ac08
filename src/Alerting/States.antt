-- ===== src/Alerting/States.antt =====
-- internal/alerting/manager.go: `handleTriggered` and `handleResolved` with the states in memory
-- and in the table `alert_states`. A key "rule:device" is the pair of the two ids.
pub mod Mirror
pub mod Durable
use wavecontrol.Prelude.{
  ℕ, ◌+◌, ◌*◌, Bool, true, false, ◌&&◌, ◌||◌, not, List, [], ◌∷◌, ◌↔◌, Option, none, some, ◌≡◌, ap,
  ap₂, arith, ltb, nat_beq, if◌then◌else◌, length, ◌==◌, Comparable, pos_part, int_beq, int_beq_iff,
  ℤ, nat_eq, int_eq, text_eq,
}
use wavecontrol.GoMap.{GoMap, insert, lookup, delete}
use wavecontrol.Alerting.Rule.{unique_channels, Rule}
use wavecontrol.Alerting.Outbox.{is_resolved, active, AlertRow, Tables}
use wavecontrol.Alerting.Lifecycle.{second, and_then, resolve_alert_tx, open_alert}

abbrev pub Key : Type 0
Key = ℤ × ℤ

abbrev pub same_key : Key → Key → Bool
same_key k j = int_beq k.0 j.0 && int_beq k.1 j.1

and_true : (a b : Bool) → (a && b) ≡ true → (a ≡ true) × (b ≡ true)
and_true a b h = ground arith

pub same_key_iff : (k j : Key) → (same_key k j ≡ true) ↔ (k ≡ j)
same_key_iff (a, b) (c, d) = (
  λ h.
      ap₂ (λ (x y : ℤ). (x, y)) ((int_beq_iff a c).0 (and_true (int_beq a c) (int_beq b d) h).0)
        ((int_beq_iff b d).0 (and_true (int_beq a c) (int_beq b d) h).1),
  λ e. rw ((int_beq_iff a c).1 (ap (λ k. k.0) e), (int_beq_iff b d).1 (ap (λ k. k.1) e)),
)

instance abbrev pub key_eq : Comparable Key
key_eq = record { same = same_key; same_iff = same_key_iff }

-- An entry of `states`, and a row of `alert_states`; the time of the check is left out.
pub record AlertState (V : Type 0) : Type 0 where
  pub first_triggered_at : ℕ
  pub last_value : V
  pub notified : Bool

pub record World (V : Type 0) : Type 0 where
  pub states : GoMap Key (AlertState V)
  pub last_notified : GoMap Key ℕ
  pub rows : GoMap Key (AlertState V)
  pub tables : Tables

-- Which statements have an error: the first one, the encoding of the payload, or one of the
-- transaction.
pub record Faults : Type 0 where
  pub exec : Bool
  pub marshal : Bool
  pub tx : Bool

abbrev pub is_recent : Option ℕ → ℕ → ℕ → Bool
is_recent none window now = false
is_recent (some t) window now = ltb now (t + window)

module _ {V : Type 0} where
  -- `UPDATE ... WHERE rule_id=$2 AND device_id=$3`, and `if cur := m.states[key]; cur != nil`.
  unfoldable pub adjust :
      Key → (AlertState V → AlertState V) → GoMap Key (AlertState V) → GoMap Key (AlertState V)
  adjust key f [] = []
  adjust key f ((k, s) ∷ m) =
      let rest = adjust key f m in if k == key then (k, f s) ∷ rest else (k, s) ∷ rest

  module _ {F : Type 0} (rule : Rule F) (device_id : ℤ) (f : Faults) (value : V) (now : ℕ) where
    abbrev pub key : Key
    key = (rule.id, device_id)

    abbrev pub new_alert : AlertRow
    new_alert = record {
      rule_id = some rule.id;
      device_id = device_id;
      status = active;
      triggered_at = now;
      notified_at = if nat_beq (length rule.notify_channels) 0 then some now else none;
      notify_error = none;
      recovery_notified_at = none;
      recovery_notify_error = none;
    }

    abbrev pub durable : AlertState V → AlertState V
    durable s = record s { last_value = value; notified = true }

    -- The transaction, and what follows it; the answer is whether the worker is woken.
    abbrev pub commit : ℤ → World V → World V × Bool
    commit id w = if f.marshal || f.tx then (w, false) else (
      record w {
        tables =
            open_alert now id new_alert rule.notify_recovery (unique_channels rule.notify_channels)
              w.tables;
        rows = adjust key durable w.rows;
        states = adjust key (λ s. record s { notified = true }) w.states;
        last_notified = insert key now w.last_notified;
      },
      true,
    )

    abbrev pub decide : ℤ → AlertState V → World V → World V × Bool
    decide id s w =
        if ltb now (s.first_triggered_at + pos_part rule.duration_seconds * second) || s.notified
        then (w, false)
        else if is_recent (lookup key w.last_notified) (pos_part rule.cooldown_seconds * second) now
        then (w, false)
        else commit id w

    abbrev pub new_state : AlertState V
    new_state = record { first_triggered_at = now; last_value = value; notified = false }

    abbrev pub see_value : AlertState V → AlertState V
    see_value s = record s { last_value = value }

    abbrev pub enter : ℤ → Option (AlertState V) → World V → World V × Bool
    enter id none w =
        let seen = insert key new_state w.states in
        if f.exec
        then (record w { states = delete key seen }, false)
        else decide id new_state (record w { states = seen; rows = insert key new_state w.rows })
    enter id (some s) w =
        let seen = record w { states = insert key (see_value s) w.states } in
        if f.exec
        then (seen, false)
        else decide id (see_value s) (record seen { rows = adjust key see_value w.rows })

    -- `id` is what the sequence of `alerts` gives to a new alert.
    unfoldable pub handle_triggered : ℤ → World V → World V × Bool
    unfolding insert lookup delete adjust unique_channels open_alert
    handle_triggered id w = enter id (lookup key w.states) w

-- `WHERE rule_id=$1 AND device_id=$2 AND status IN ('active','acknowledged') ORDER BY id`
abbrev pub is_of : ℤ → ℤ → AlertRow → Bool
is_of rule_id device_id a =
    (elim a.rule_id [ none ↦ false | some r ↦ r == rule_id ])
    && a.device_id == device_id
    && not (is_resolved a.status)

unfoldable pub open_ids : ℤ → ℤ → GoMap ℤ AlertRow → List ℤ
open_ids rule_id device_id [] = []
open_ids rule_id device_id ((id, a) ∷ alerts) =
    let rest = open_ids rule_id device_id alerts in
    if is_of rule_id device_id a then id ∷ rest else rest

unfoldable pub resolve_all : ℕ → Option Bool → List ℤ → Tables → Option (Tables × Bool)
unfolding resolve_alert_tx
resolve_all now recovery [] t = some (t, false)
resolve_all now recovery (id ∷ ids) t =
    and_then (resolve_alert_tx false now id recovery t)
      (λ after. resolve_all now recovery ids after)

module _ {V F : Type 0} (rule : Rule F) (device_id : ℤ) (fails : Bool) (now : ℕ) where
  abbrev pub drop_state : Option (Tables × Bool) → World V → World V × Bool
  drop_state none w = (w, false)
  drop_state (some (t, queued)) w = (
    record w {
      tables = t;
      rows = delete (rule.id, device_id) w.rows;
      states = delete (rule.id, device_id) w.states;
    },
    queued,
  )

  abbrev pub leave : Option (AlertState V) → World V → World V × Bool
  leave none w = (w, false)
  leave (some s) w =
      if fails
      then (w, false)
      else if s.notified
      then drop_state
          (resolve_all now (some rule.notify_recovery) (open_ids rule.id device_id w.tables.alerts)
            w.tables)
          w
      else drop_state (some (w.tables, false)) w

  -- `fails`: an error of the transaction. The answer is whether a recovery was enqueued.
  unfoldable pub handle_resolved : World V → World V × Bool
  unfolding lookup delete open_ids resolve_all
  handle_resolved w = leave (lookup (rule.id, device_id) w.states) w
