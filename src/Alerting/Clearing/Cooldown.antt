-- ===== src/Alerting/Clearing/Cooldown.antt =====
-- The times at which alerts of one rule and device are opened.
use wavecontrol.Prelude.{
  ℕ, ◌+◌, ◌*◌, ◌≤◌, Bool, true, false, ◌||◌, List, [], ◌∷◌, inl, inr, Option, none, some, ◌≡◌, refl,
  ap, ◌∙◌, arith, ltb, Bool-cases, pos_part, ℤ, nat_eq, int_eq, text_eq,
}
use wavecontrol.GoMap.{GoMap, insert, lookup, lookup-insert}
use wavecontrol.Alerting.Rule.{Rule}
use wavecontrol.Alerting.Lifecycle.{second}
use wavecontrol.Alerting.States.{
  Key, same_key, same_key_iff, is_recent, commit, decide, new_state, see_value, enter,
  handle_triggered, drop_state, leave, handle_resolved, AlertState, World, Faults, key_eq,
}
use wavecontrol.Alerting.Outbox.{is_resolved, AlertRow, Tables}
use wavecontrol.Alerting.Clearing.{drop_key, resolved_by_hand, resolve_row, resolve_alert}

-- A call for the rule and the device, with what it depends on, or the resolution of any alert by
-- an operator.
pub data Call (V : Type 0) : Type 0 where
  triggered : Faults → V → ℕ → ℤ → Call V
  resolved_call : Bool → ℕ → Call V
  resolved_by_operator : Bool → ℕ → ℤ → Option Bool → Call V

-- The times of the alerts that were opened, the newest one first.
abbrev pub note : Bool → ℕ → List ℕ → List ℕ
note false now times = times
note true now times = now ∷ times

abbrev pub newest : List ℕ → Option ℕ
newest [] = none
newest (t ∷ times) = some t

abbrev pub IsSpaced : ℕ → List ℕ → Type 0
IsSpaced gap [] = Unit
IsSpaced gap (t ∷ []) = Unit
IsSpaced gap (t ∷ u ∷ times) = (u + gap ≤ t) × IsSpaced gap (u ∷ times)

IsSpaced-note :
    (gap now : ℕ) (times : List ℕ)
    → is_recent (newest times) gap now ≡ false
    → IsSpaced gap times
    → IsSpaced gap (now ∷ times)
IsSpaced-note gap now [] late s = tt
IsSpaced-note gap now (t ∷ times) late s = (ground (arith, late), s)

pub lookup-insert_same :
    {A : Type 0} (k : Key) (a : A) (m : GoMap Key A) → lookup k (insert k a m) ≡ some a
lookup-insert_same k a m =
    let same : same_key k k ≡ true = (same_key_iff k k).1 refl in
    lookup-insert k k a m ∙ rw same refl

module _ {V F : Type 0} (rule : Rule F) (device_id : ℤ) where
  abbrev pub step : Call V → World V × List ℕ → World V × List ℕ
  step (triggered f value now id) (w, times) =
      let r = handle_triggered rule device_id f value now id w in (r.0, note r.1 now times)
  step (resolved_call fails now) (w, times) =
      ((handle_resolved rule device_id fails now w).0, times)
  step (resolved_by_operator fails now id recovery) (w, times) =
      (resolve_alert fails now id recovery w, times)

  unfoldable pub calls : List (Call V) → World V × List ℕ → World V × List ℕ
  calls [] s = s
  calls (c ∷ cs) s = calls cs (step c s)

module _ {V : Type 0} where
  drop_key-last_notified :
      (rule_id : Option ℤ) (device_id : ℤ) (w : World V)
      → (drop_key rule_id device_id w).last_notified ≡ w.last_notified
  drop_key-last_notified none device_id w = refl
  drop_key-last_notified (some rule_id) device_id w = refl

  resolved_by_hand-last_notified :
      (a : AlertRow) (r : Option (Tables × Bool)) (w : World V)
      → (resolved_by_hand a r w).last_notified ≡ w.last_notified
  resolved_by_hand-last_notified a none w = refl
  resolved_by_hand-last_notified a (some (t, queued)) w =
      drop_key-last_notified a.rule_id a.device_id (record w { tables = t })

  resolve_row-last_notified :
      (now : ℕ) (id : ℤ) (recovery : Option Bool) (found : Option AlertRow) (w : World V)
      → (resolve_row now id recovery found w).last_notified ≡ w.last_notified
  resolve_row-last_notified now id recovery none w = refl
  resolve_row-last_notified now id recovery (some a) w = elim (Bool-cases (is_resolved a.status)) [
    | inl e ↦ rw e
    | inr e ↦ rw e (resolved_by_hand-last_notified a _ w)
  ]

  resolve_alert-last_notified :
      (fails : Bool) (now : ℕ) (id : ℤ) (recovery : Option Bool) (w : World V)
      → (resolve_alert fails now id recovery w).last_notified ≡ w.last_notified
  unfolding resolve_alert
  resolve_alert-last_notified true now id recovery w = refl
  resolve_alert-last_notified false now id recovery w =
      resolve_row-last_notified now id recovery (lookup id w.tables.alerts) w

module _ {V F : Type 0} (rule : Rule F) (device_id : ℤ) where
  abbrev IsTracked : World V × List ℕ → Type 0
  IsTracked (w, times) =
      (lookup (rule.id, device_id) w.last_notified ≡ newest times)
      × IsSpaced (pos_part rule.cooldown_seconds * second) times

  abbrev Kept : ℕ → List ℕ → World V × Bool → Type 0
  Kept now times r = IsTracked (r.0, note r.1 now times)

  commit-Kept :
      (f : Faults) (value : V) (now : ℕ) (id : ℤ) (w : World V) (times : List ℕ)
      → is_recent (newest times) (pos_part rule.cooldown_seconds * second) now ≡ false
      → IsTracked (w, times)
      → Kept now times (commit rule device_id f value now id w)
  commit-Kept f value now id w times late (e, s) = elim (Bool-cases (f.marshal || f.tx)) [
    | inl c ↦ rw c (e, s)
    | inr c ↦ rw c (
      lookup-insert_same (rule.id, device_id) now w.last_notified,
      IsSpaced-note (pos_part rule.cooldown_seconds * second) now times late s,
    )
  ]

  decide-Kept :
      (f : Faults) (value : V) (now : ℕ) (id : ℤ) (a : AlertState V) (w : World V) (times : List ℕ)
      → IsTracked (w, times)
      → Kept now times (decide rule device_id f value now id a w)
  decide-Kept f value now id a w times (e, s) =
      elim (Bool-cases
        (ltb now (a.first_triggered_at + pos_part rule.duration_seconds * second) || a.notified)) [
          | inl c ↦ rw c (e, s)
          | inr c ↦
              rw c
                (elim (Bool-cases (
                  is_recent (lookup (rule.id, device_id) w.last_notified)
                    (pos_part rule.cooldown_seconds * second) now)) [
                      | inl d ↦ rw d (e, s)
                      | inr d ↦ rw d (commit-Kept f value now id w times (rw e at d) (e, s))
                    ])
        ]

  enter-Kept :
      (f : Faults) (value : V) (now : ℕ) (id : ℤ) (found : Option (AlertState V)) (w : World V)
      (times : List ℕ)
      → IsTracked (w, times)
      → Kept now times (enter rule device_id f value now id found w)
  enter-Kept f value now id none w times h = elim (Bool-cases f.exec) [
    | inl c ↦ rw c h
    | inr c ↦ rw c (decide-Kept f value now id (new_state rule device_id f value now) _ times h)
  ]
  enter-Kept f value now id (some a) w times h = elim (Bool-cases f.exec) [
    | inl c ↦ rw c h
    | inr c ↦ rw c (decide-Kept f value now id (see_value rule device_id f value now a) _ times h)
  ]

  drop_state-last_notified :
      (fails : Bool) (now : ℕ) (r : Option (Tables × Bool)) (w : World V)
      → (drop_state rule device_id fails now r w).0.last_notified ≡ w.last_notified
  drop_state-last_notified fails now none w = refl
  drop_state-last_notified fails now (some (t, queued)) w = refl

  leave-last_notified :
      (fails : Bool) (now : ℕ) (found : Option (AlertState V)) (w : World V)
      → (leave rule device_id fails now found w).0.last_notified ≡ w.last_notified
  leave-last_notified fails now none w = refl
  leave-last_notified fails now (some a) w = elim (Bool-cases fails) [
    | inl c ↦ rw c
    | inr c ↦ rw c (elim (Bool-cases a.notified) [
      | inl d ↦ rw d (drop_state-last_notified fails now _ w)
      | inr d ↦ rw d
    ])
  ]

  step-IsTracked :
      (c : Call V) (s : World V × List ℕ) → IsTracked s → IsTracked (step rule device_id c s)
  unfolding handle_triggered handle_resolved
  step-IsTracked (triggered f value now id) (w, times) h =
      enter-Kept f value now id (lookup (rule.id, device_id) w.states) w times h
  step-IsTracked (resolved_call fails now) (w, times) (e, s) = (
    ap (lookup (rule.id, device_id))
          (leave-last_notified fails now (lookup (rule.id, device_id) w.states) w)
        ∙ e,
    s,
  )
  step-IsTracked (resolved_by_operator fails now id recovery) (w, times) (e, s) = (
    ap (lookup (rule.id, device_id)) (resolve_alert-last_notified fails now id recovery w) ∙ e,
    s,
  )

  calls-IsTracked :
      (cs : List (Call V)) (s : World V × List ℕ)
      → IsTracked s
      → IsTracked (calls rule device_id cs s)
  unfolding calls
  calls-IsTracked [] s h = h
  calls-IsTracked (c ∷ cs) s h = calls-IsTracked cs (step rule device_id c s) (step-IsTracked c s h)

  -- However the condition of a rule comes and goes on a device, whichever alerts operators resolve and
  -- whichever statements fail: where
  -- none of its alerts is known at first, two alerts in a row are at least the cooldown of the rule
  -- apart.
  pub calls-IsSpaced :
      (cs : List (Call V)) (w : World V)
      → lookup (rule.id, device_id) w.last_notified ≡ none
      → IsSpaced (pos_part rule.cooldown_seconds * second) (calls rule device_id cs (w, [])).1
  calls-IsSpaced cs w h = (calls-IsTracked cs (w, []) (h, tt)).1
