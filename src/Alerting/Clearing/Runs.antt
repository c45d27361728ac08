-- ===== src/Alerting/Clearing/Runs.antt =====
-- The states in memory and in the table through every call that changes them.
use wavecontrol.Prelude.{
  ℕ, Bool, ◌||◌, not, List, [], ◌∷◌, inl, inr, Option, none, some, ◌≡◌, refl, arith, if◌then◌else◌,
  Bool-cases, ◌==◌, leb_ℤ, ℤ, pos, nat_eq, int_eq, text_eq,
}
use wavecontrol.GoMap.{GoMap, lookup}
use wavecontrol.GoMap.Unique.{retain}
use wavecontrol.Alerting.Rule.{Rule}
use wavecontrol.Alerting.Outbox.{is_resolved, AlertRow, Tables}
use wavecontrol.Alerting.States.{
  Key, same_key_iff, handle_triggered, handle_resolved, AlertState, World, Faults, key_eq,
}
use wavecontrol.Alerting.States.Mirror.{AreMirrored, Mirrors, Mirrors-write, delete-IsWrite}
use wavecontrol.Alerting.States.Durable.{enter-Mirrors, leave-Mirrors}
use wavecontrol.Alerting.Clearing.{
  clear_rule_state_memory, clear_device_state, silence_done, resolve_device_alerts, reset_done,
  reset_rule_state, drop_key, resolved_by_hand, resolve_row, resolve_alert,
}

-- A loop that deletes by the key needs no keys that are unique.
lookup-retain_keys :
    {A : Type 0} (gone : Key → Bool) (q : Key) (m : GoMap Key A)
    → lookup q (retain (λ k a. not (gone k)) m) ≡ (if gone q then none else lookup q m)
unfolding lookup retain
lookup-retain_keys gone q [] = elim (Bool-cases (gone q)) [ inl e ↦ rw e | inr e ↦ rw e ]
lookup-retain_keys gone q ((p, a) ∷ m) =
    ground (arith, lookup-retain_keys gone q m, same_key_iff p q)

module _ {V : Type 0} where
  retain-AreMirrored :
      (gone : Key → Bool) (states rows : GoMap Key (AlertState V))
      → AreMirrored states rows
      → AreMirrored (retain (λ k s. not (gone k)) states) (retain (λ k s. not (gone k)) rows)
  retain-AreMirrored gone states rows h q = elim (Bool-cases (gone q)) [
    | inl e ↦ rw (lookup-retain_keys gone q states, lookup-retain_keys gone q rows, e) tt
    | inr e ↦ rw (lookup-retain_keys gone q states, lookup-retain_keys gone q rows, e) (h q)
  ]

  silence_done-Mirrors :
      (device_id : ℤ) (r : Option (Tables × Bool)) (w : World V)
      → Mirrors w
      → Mirrors (silence_done device_id r w)
  unfolding clear_device_state
  silence_done-Mirrors device_id none w h = h
  silence_done-Mirrors device_id (some (t, queued)) w h =
      retain-AreMirrored (λ k. k.1 == device_id) w.states w.rows h

  reset_done-Mirrors :
      (rule_id : ℤ) (r : Option (Tables × Bool)) (w : World V)
      → Mirrors w
      → Mirrors (reset_done rule_id r w)
  unfolding clear_rule_state_memory
  reset_done-Mirrors rule_id none w h = h
  reset_done-Mirrors rule_id (some (t, queued)) w h =
      retain-AreMirrored (λ k. k.0 == rule_id) w.states w.rows h

  drop_key-Mirrors :
      (rule_id : Option ℤ) (device_id : ℤ) (w : World V)
      → Mirrors w
      → Mirrors (drop_key rule_id device_id w)
  drop_key-Mirrors none device_id w h = h
  drop_key-Mirrors (some rule_id) device_id w h =
      let k : Key = (rule_id, device_id) in
      Mirrors-write k none none w.states w.rows _ _ (delete-IsWrite k w.states)
        (delete-IsWrite k w.rows) tt h

  resolved_by_hand-Mirrors :
      (a : AlertRow) (r : Option (Tables × Bool)) (w : World V)
      → Mirrors w
      → Mirrors (resolved_by_hand a r w)
  resolved_by_hand-Mirrors a none w h = h
  resolved_by_hand-Mirrors a (some (t, queued)) w h =
      drop_key-Mirrors a.rule_id a.device_id (record w { tables = t }) h

  resolve_row-Mirrors :
      (now : ℕ) (id : ℤ) (recovery : Option Bool) (found : Option AlertRow) (w : World V)
      → Mirrors w
      → Mirrors (resolve_row now id recovery found w)
  resolve_row-Mirrors now id recovery none w h = h
  resolve_row-Mirrors now id recovery (some a) w h = elim (Bool-cases (is_resolved a.status)) [
    | inl e ↦ rw e h
    | inr e ↦ rw e (resolved_by_hand-Mirrors a _ w h)
  ]

-- A call that changes the states, for any rule and device.
pub data Act (V F : Type 0) : Type 0 where
  rise : Rule F → ℤ → Faults → V → ℕ → ℤ → Act V F
  fall : Rule F → ℤ → Bool → ℕ → Act V F
  silence : Bool → ℕ → (ℤ → Option Bool) → ℤ → Act V F
  reset : Bool → ℕ → Bool → ℤ → Act V F
  by_hand : Bool → ℕ → ℤ → Option Bool → Act V F

module _ {V F : Type 0} where
  abbrev pub act : Act V F → World V → World V
  act (rise rule device_id f value now id) w = (handle_triggered rule device_id f value now id w).0
  act (fall rule device_id fails now) w = (handle_resolved rule device_id fails now w).0
  act (silence fails now recovery device_id) w =
      resolve_device_alerts fails now recovery device_id w
  act (reset fails now notify_recovery rule_id) w =
      reset_rule_state fails now notify_recovery rule_id w
  act (by_hand fails now id recovery) w = resolve_alert fails now id recovery w

  unfoldable pub acts : List (Act V F) → World V → World V
  acts [] w = w
  acts (a ∷ l) w = acts l (act a w)

  act-Mirrors : (a : Act V F) (w : World V) → Mirrors w → Mirrors (act a w)
  unfolding handle_triggered handle_resolved resolve_device_alerts reset_rule_state resolve_alert
  act-Mirrors (rise rule device_id f value now id) w h =
      enter-Mirrors rule device_id f value now id (lookup (rule.id, device_id) w.states) w refl h
  act-Mirrors (fall rule device_id fails now) w h =
      leave-Mirrors rule device_id fails now (lookup (rule.id, device_id) w.states) w h
  act-Mirrors (silence fails now recovery device_id) w h =
      elim (Bool-cases (leb_ℤ device_id (pos 0) || fails)) [
        | inl e ↦ rw e h
        | inr e ↦ rw e (silence_done-Mirrors device_id _ w h)
      ]
  act-Mirrors (reset fails now notify_recovery rule_id) w h = elim (Bool-cases fails) [
    | inl e ↦ rw e h
    | inr e ↦ rw e (reset_done-Mirrors rule_id _ w h)
  ]
  act-Mirrors (by_hand fails now id recovery) w h = elim (Bool-cases fails) [
    | inl e ↦ rw e h
    | inr e ↦ rw e (resolve_row-Mirrors now id recovery (lookup id w.tables.alerts) w h)
  ]

  -- However the conditions of the rules come and go, devices are silenced, rules are changed or deleted
  -- and alerts resolved by hand, and whichever statements fail: each state in
  -- memory stays in the table `alert_states` with its first time and with whether its alert was
  -- created, where this held at first, so that a restart neither forgets nor repeats an alert.
  pub acts-Mirrors : (l : List (Act V F)) (w : World V) → Mirrors w → Mirrors (acts l w)
  unfolding acts
  acts-Mirrors [] w h = h
  acts-Mirrors (a ∷ l) w h = acts-Mirrors l (act a w) (act-Mirrors a w h)
