-- ===== src/Alerting/Clearing.antt =====
-- internal/alerting/manager.go: what ends states from outside of an evaluation. `ResolveAlert`,
-- `ResolveDeviceAlerts` with `ClearDeviceState`, and what `UpdateRule` and `DeleteRule` do to the
-- states of their rule (`resetRuleStateTx`, `clearRuleStateMemory`).
pub mod Runs
pub mod Cooldown
use wavecontrol.Prelude.{
  ℕ, Bool, false, ◌&&◌, ◌||◌, not, List, [], ◌∷◌, Option, none, some, if◌then◌else◌, ◌==◌, leb_ℤ, ℤ,
  pos, nat_eq, int_eq, text_eq,
}
use wavecontrol.GoMap.{GoMap, lookup, delete}
use wavecontrol.GoMap.Unique.{retain}
use wavecontrol.Alerting.Outbox.{is_resolved, AlertRow, Tables}
use wavecontrol.Alerting.Lifecycle.{and_then, resolve_alert_tx}
use wavecontrol.Alerting.States.{Key, World, key_eq}

-- `SELECT id FROM alerts WHERE ... AND status IN ('active','acknowledged') ORDER BY id`
unfoldable pub ids_where : (AlertRow → Bool) → GoMap ℤ AlertRow → List ℤ
ids_where p [] = []
ids_where p ((id, a) ∷ alerts) =
    let rest = ids_where p alerts in if p a && not (is_resolved a.status) then id ∷ rest else rest

-- The stored rule of an alert, which decides on its recovery, is found by the id of the alert; none
-- where there is no such rule any more.
unfoldable pub resolve_each : ℕ → (ℤ → Option Bool) → List ℤ → Tables → Option (Tables × Bool)
unfolding resolve_alert_tx
resolve_each now recovery [] t = some (t, false)
resolve_each now recovery (id ∷ ids) t =
    and_then (resolve_alert_tx false now id (recovery id) t)
      (λ after. resolve_each now recovery ids after)

abbrev pub of_device : ℤ → AlertRow → Bool
of_device device_id a = a.device_id == device_id

abbrev pub of_rule : ℤ → AlertRow → Bool
of_rule rule_id a = elim a.rule_id [ none ↦ false | some r ↦ r == rule_id ]

module _ {V : Type 0} where
  -- The keys whose entries a loop over the maps in memory deletes.
  abbrev pub forget : (Key → Bool) → World V → World V
  forget gone w = record w {
    states = retain (λ k s. not (gone k)) w.states;
    last_notified = retain (λ k t. not (gone k)) w.last_notified;
  }

  -- The key starts with "rule:".
  unfoldable pub clear_rule_state_memory : ℤ → World V → World V
  unfolding retain
  clear_rule_state_memory rule_id w = forget (λ k. k.0 == rule_id) w

  -- The key ends with ":device", and the device of a state is that of its key.
  unfoldable pub clear_device_state : ℤ → World V → World V
  unfolding retain
  clear_device_state device_id w = forget (λ k. k.1 == device_id) w

  abbrev pub delete_rows : (Key → Bool) → World V → World V
  delete_rows gone w = record w { rows = retain (λ k s. not (gone k)) w.rows }

  abbrev pub silence_done : ℤ → Option (Tables × Bool) → World V → World V
  silence_done device_id none w = w
  silence_done device_id (some (t, queued)) w =
      clear_device_state device_id (delete_rows (λ k. k.1 == device_id) (record w { tables = t }))

  unfoldable pub resolve_device_alerts : Bool → ℕ → (ℤ → Option Bool) → ℤ → World V → World V
  unfolding clear_device_state ids_where resolve_each
  resolve_device_alerts fails now recovery device_id w =
      if leb_ℤ device_id (pos 0) || fails
      then w
      else silence_done device_id
          (resolve_each now recovery (ids_where (of_device device_id) w.tables.alerts) w.tables) w

  abbrev pub reset_done : ℤ → Option (Tables × Bool) → World V → World V
  reset_done rule_id none w = w
  reset_done rule_id (some (t, queued)) w =
      clear_rule_state_memory rule_id (delete_rows (λ k. k.0 == rule_id) (record w { tables = t }))

  -- The alerts of the rule are resolved with the rule as it was; `fails` covers the write of the
  -- rule, which is in the same transaction.
  unfoldable pub reset_rule_state : Bool → ℕ → Bool → ℤ → World V → World V
  unfolding clear_rule_state_memory ids_where resolve_each
  reset_rule_state fails now notify_recovery rule_id w =
      if fails
      then w
      else reset_done rule_id
          (resolve_each now (λ id. some notify_recovery)
            (ids_where (of_rule rule_id) w.tables.alerts) w.tables)
          w

  -- `lastNotified` stays, so that the cooldown goes on.
  abbrev pub drop_key : Option ℤ → ℤ → World V → World V
  drop_key none device_id w = w
  drop_key (some rule_id) device_id w = record w {
    rows = delete (rule_id, device_id) w.rows;
    states = delete (rule_id, device_id) w.states;
  }

  abbrev pub resolved_by_hand : AlertRow → Option (Tables × Bool) → World V → World V
  resolved_by_hand a none w = w
  resolved_by_hand a (some (t, queued)) w = drop_key a.rule_id a.device_id (record w { tables = t })

  abbrev pub resolve_row : ℕ → ℤ → Option Bool → Option AlertRow → World V → World V
  resolve_row now id recovery none w = w
  resolve_row now id recovery (some a) w =
      if is_resolved a.status
      then w
      else resolved_by_hand a (resolve_alert_tx false now id recovery w.tables) w

  -- The alert that an operator resolves.
  unfoldable pub resolve_alert : Bool → ℕ → ℤ → Option Bool → World V → World V
  unfolding lookup delete resolve_alert_tx
  resolve_alert fails now id recovery w =
      if fails then w else resolve_row now id recovery (lookup id w.tables.alerts) w
