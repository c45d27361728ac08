-- ===== src/Alerting/States/Durable.antt =====
-- The states in memory and the rows of `alert_states`.
use wavecontrol.Prelude.{
  ℕ, ◌+◌, ◌*◌, Bool, true, false, ◌||◌, inl, inr, Option, none, some, ◌≡◌, refl, subst, ltb,
  Bool-cases, pos_part, ℤ, nat_eq, int_eq, text_eq,
}
use wavecontrol.GoMap.{insert, lookup}
use wavecontrol.Alerting.Rule.{Rule}
use wavecontrol.Alerting.Outbox.{Tables}
use wavecontrol.Alerting.Lifecycle.{second}
use wavecontrol.Alerting.States.{
  Key, is_recent, durable, commit, decide, new_state, see_value, enter, drop_state, leave,
  AlertState, World, Faults, key_eq,
}
use wavecontrol.Alerting.States.Mirror.{
  over, Matches, Mirrors, Mirrors-write, insert-IsWrite, delete-IsWrite, adjust-IsWrite,
  keep-IsWrite, Matches-over, Matches-seen, Matches-see, twice-IsWrite, again-IsWrite,
}

module _ {V F : Type 0} (rule : Rule F) (device_id : ℤ) where
  commit-Mirrors :
      (f : Faults) (value : V) (now : ℕ) (id : ℤ) (w : World V)
      → Mirrors w
      → Mirrors (commit rule device_id f value now id w).0
  commit-Mirrors f value now id w h = elim (Bool-cases (f.marshal || f.tx)) [
    | inl c ↦ rw c h
    | inr c ↦ rw c (
        let k : Key = (rule.id, device_id) in
        let mark : AlertState V → AlertState V = λ s. record s { notified = true } in
        let save = durable rule device_id f value now in
        Mirrors-write k (over mark (lookup k w.states)) (over save (lookup k w.rows)) w.states
          w.rows _ _ (adjust-IsWrite k mark w.states) (adjust-IsWrite k save w.rows)
          (Matches-over mark save (lookup k w.states) (lookup k w.rows) (λ s r a b. (a, refl))
            (h k))
          h)
  ]

  decide-Mirrors :
      (f : Faults) (value : V) (now : ℕ) (id : ℤ) (s : AlertState V) (w : World V)
      → Mirrors w
      → Mirrors (decide rule device_id f value now id s w).0
  decide-Mirrors f value now id s w h =
      elim (Bool-cases
        (ltb now (s.first_triggered_at + pos_part rule.duration_seconds * second) || s.notified)) [
          | inl c ↦ rw c h
          | inr c ↦
              rw c
                (elim (Bool-cases (
                  is_recent (lookup (rule.id, device_id) w.last_notified)
                    (pos_part rule.cooldown_seconds * second) now)) [
                      | inl d ↦ rw d h
                      | inr d ↦ rw d (commit-Mirrors f value now id w h)
                    ])
        ]

  see_value-Mirrors :
      (value : V) (f : Faults) (now : ℕ) (s : AlertState V) (w : World V)
      → lookup (rule.id, device_id) w.states ≡ some s
      → Mirrors w
      → Mirrors (record w {
        states = insert (rule.id, device_id) (see_value rule device_id f value now s) w.states;
      })
  see_value-Mirrors value f now s w e h =
      let k : Key = (rule.id, device_id) in
      let seen : AlertState V = see_value rule device_id f value now s in
      Mirrors-write k (some seen) (lookup k w.rows) w.states w.rows _ _
        (insert-IsWrite k seen w.states) (keep-IsWrite k w.rows)
        (Matches-seen s seen (lookup k w.rows) refl refl
          (subst (λ o. Matches o (lookup k w.rows)) e (h k)))
        h

  pub enter-Mirrors :
      (f : Faults) (value : V) (now : ℕ) (id : ℤ) (found : Option (AlertState V)) (w : World V)
      → lookup (rule.id, device_id) w.states ≡ found
      → Mirrors w
      → Mirrors (enter rule device_id f value now id found w).0
  enter-Mirrors f value now id none w e h =
      let k : Key = (rule.id, device_id) in
      let s : AlertState V = new_state rule device_id f value now in
      elim (Bool-cases f.exec) [
        | inl c ↦ rw c (
            Mirrors-write k none (lookup k w.rows) w.states w.rows _ _ (twice-IsWrite k s w.states)
              (keep-IsWrite k w.rows) tt h)
        | inr c ↦ rw c (
            decide-Mirrors f value now id s _ (
              Mirrors-write k (some s) (some s) w.states w.rows _ _ (insert-IsWrite k s w.states)
                (insert-IsWrite k s w.rows) (refl, refl) h))
      ]
  enter-Mirrors f value now id (some s) w e h =
      let k : Key = (rule.id, device_id) in
      let see : AlertState V → AlertState V = see_value rule device_id f value now in
      let seen = see_value-Mirrors value f now s w e h in
      elim (Bool-cases f.exec) [
        | inl c ↦ rw c seen
        | inr c ↦ rw c (
            decide-Mirrors f value now id (see s) _ (
              Mirrors-write k (some (see s)) (over see (lookup k w.rows))
                (insert k (see s) w.states) w.rows _ _ (again-IsWrite k (see s) w.states)
                (adjust-IsWrite k see w.rows)
                (Matches-see see s (lookup k w.rows) (λ r. refl) (λ r. refl)
                  (subst (λ o. Matches o (lookup k w.rows)) e (h k)))
                seen))
      ]

  drop_state-Mirrors :
      (fails : Bool) (now : ℕ) (r : Option (Tables × Bool)) (w : World V)
      → Mirrors w
      → Mirrors (drop_state rule device_id fails now r w).0
  drop_state-Mirrors fails now none w h = h
  drop_state-Mirrors fails now (some (t, queued)) w h =
      let k : Key = (rule.id, device_id) in
      Mirrors-write k none none w.states w.rows _ _ (delete-IsWrite k w.states)
        (delete-IsWrite k w.rows) tt h

  pub leave-Mirrors :
      (fails : Bool) (now : ℕ) (found : Option (AlertState V)) (w : World V)
      → Mirrors w
      → Mirrors (leave rule device_id fails now found w).0
  leave-Mirrors fails now none w h = h
  leave-Mirrors fails now (some s) w h = elim (Bool-cases fails) [
    | inl c ↦ rw c h
    | inr c ↦ rw c (elim (Bool-cases s.notified) [
      | inl d ↦ rw d (drop_state-Mirrors fails now _ w h)
      | inr d ↦ rw d (drop_state-Mirrors fails now (some (w.tables, false)) w h)
    ])
  ]
