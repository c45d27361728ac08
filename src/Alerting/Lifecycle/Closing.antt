-- ===== src/Alerting/Lifecycle/Closing.antt =====
-- The creation, the acknowledgement and the resolution of alerts keep the rows sound.
use wavecontrol.Prelude.{
  ℕ, Bool, true, false, ◌&&◌, ◌||◌, not, List, [], ◌∷◌, inl, inr, Option, none, some, ◌≡◌, refl,
  sym, ◌∙◌, arith, if◌then◌else◌, Bool-cases, ◌==◌, Text, codes, int_beq, int_beq_iff, ℤ, nat_eq,
  int_eq, text_eq,
}
use wavecontrol.GoMap.{GoMap, key_refl, insert, lookup, lookup-insert}
use wavecontrol.Alerting.Outbox.{
  is_trigger, is_sending, is_sent, is_waiting, is_resolved, closed_row, AlertStatus, active,
  acknowledged, resolved, dead, AlertRow, Delivery, Tables,
}
use wavecontrol.Alerting.Lifecycle.{
  acknowledge_if, acknowledge_row, acknowledge_alert, wants_recovery, recover_if, recover_trigger,
  or_enqueued, and_then, recover_triggers, triggers_of, cancel_triggers, close_row,
  resolve_alert_tx, open_alert,
}
use wavecontrol.Alerting.Lifecycle.Sound.{closed_ok, AreRows, All-update_where, or_true, Key, IsRow}
use wavecontrol.Alerting.Lifecycle.Marks.{AreRows-alerts}
use wavecontrol.Alerting.Lifecycle.Enqueue.{
  IsSound, enqueue_triggers-IsOpening, enqueue_recovery-IsSound,
}

module _ (held : List Delivery) where
  -- What a result that is no error leaves behind.
  abbrev pub Leaves : (Tables → Type 0) → Option (Tables × Bool) → Type 0
  Leaves P none = Unit
  Leaves P (some (t, queued)) = P t

  or_enqueued-Leaves :
      (P : Tables → Type 0) (queued : Bool) (r : Option (Tables × Bool))
      → Leaves P r
      → Leaves P (or_enqueued queued r)
  or_enqueued-Leaves P queued none h = tt
  or_enqueued-Leaves P queued (some (t, later)) h = h

  pub and_then-Leaves :
      (P Q : Tables → Type 0) (first : Option (Tables × Bool))
      (rest : Tables → Option (Tables × Bool))
      → Leaves P first
      → ((t : Tables) → P t → Leaves Q (rest t))
      → Leaves Q (and_then first rest)
  and_then-Leaves P Q none rest h k = tt
  and_then-Leaves P Q (some (t, queued)) rest h k = or_enqueued-Leaves Q queued (rest t) (k t h)

  recover_if-IsSound :
      (wanted : Option Bool) (now : ℕ) (id : ℤ) (channel : Text) (t : Tables)
      → IsSound held t
      → Leaves (IsSound held) (recover_if wanted now id channel t)
  recover_if-IsSound none now id channel t s = tt
  recover_if-IsSound (some false) now id channel t s = s
  recover_if-IsSound (some true) now id channel t s =
      enqueue_recovery-IsSound held now id channel true t s

  recover_trigger-IsSound :
      (now : ℕ) (id : ℤ) (rule : Option Bool) (trigger : Delivery) (t : Tables)
      → IsSound held t
      → Leaves (IsSound held) (recover_trigger now id rule trigger t)
  recover_trigger-IsSound now id rule trigger t s =
      elim (Bool-cases (is_sent trigger.status || is_sending trigger.status)) [
        | inl c ↦
            rw c
              (recover_if-IsSound (wants_recovery rule trigger.payload) now id trigger.channel t s)
        | inr c ↦ rw c s
      ]

  recover_triggers-IsSound :
      (now : ℕ) (id : ℤ) (rule : Option Bool) (triggers : List Delivery) (t : Tables)
      → IsSound held t
      → Leaves (IsSound held) (recover_triggers now id rule triggers t)
  unfolding recover_triggers
  recover_triggers-IsSound now id rule [] t s = s
  recover_triggers-IsSound now id rule (trigger ∷ triggers) t s =
      and_then-Leaves (IsSound held) (IsSound held) (recover_trigger now id rule trigger t)
        (λ after. recover_triggers now id rule triggers after)
        (recover_trigger-IsSound now id rule trigger t s)
        (λ after k. recover_triggers-IsSound now id rule triggers after k)

  closed_row-insert :
      (id q : ℤ) (a : AlertRow) (alerts : GoMap ℤ AlertRow)
      → closed_row (lookup q (insert id a alerts))
        ≡ (if id == q then is_resolved a.status else closed_row (lookup q alerts))
  closed_row-insert id q a alerts = elim (Bool-cases (id == q)) [
    | inl e ↦ rw (lookup-insert id q a alerts, e)
    | inr e ↦ rw (lookup-insert id q a alerts, e)
  ]

  closing_row :
      (id : ℤ) (a : AlertRow) (alerts : GoMap ℤ AlertRow) (d : Delivery)
      → closed_ok alerts d ≡ true
      → (d.alert_id == id && is_trigger d.event && is_waiting d.status) ≡ false
      → closed_ok (insert id a alerts) d ≡ true
  closing_row id a alerts d ok miss = elim (Bool-cases (id == d.alert_id)) [
    | inl e ↦
        (let same : int_beq d.alert_id id ≡ true =
            ground (arith, e, int_beq_iff d.alert_id id, int_beq_iff id d.alert_id) in
          let idle : (is_trigger d.event && is_waiting d.status) ≡ false =
            ground (arith, miss, same) in
          ground (arith, idle))
    | inr e ↦ rw (closed_row-insert id d.alert_id a alerts, e) ok
  ]

  cancel-IsRow :
      (reg : ℕ → Key) (now : ℕ) (id : ℤ) (a : AlertRow) (t : Tables)
      → AreRows reg t
      → AreRows reg
          (record t { alerts = insert id a t.alerts; outbox = cancel_triggers now id t.outbox })
  cancel-IsRow reg now id a t rows =
      All-update_where (IsRow reg t.next_id t.alerts) (IsRow reg t.next_id (insert id a t.alerts))
        (λ d. d.alert_id == id && is_trigger d.event && is_waiting d.status)
        (λ d. record d {
          status = dead;
          last_error = some (codes "alert closed before trigger delivery");
          updated_at = now;
        })
        t.outbox
        (λ d r e. record {
          known = r.known;
          given = r.given;
          closed =
              or_true
                (not (is_trigger d.event && closed_row (lookup d.alert_id (insert id a t.alerts))));
          bounded = r.bounded;
        })
        (λ d r e. record {
          known = r.known;
          given = r.given;
          closed = closing_row id a t.alerts d r.closed e;
          bounded = r.bounded;
        })
        rows

  close_row-IsSound :
      (now : ℕ) (id : ℤ) (rule : Option Bool) (found : Option AlertRow) (t : Tables)
      → IsSound held t
      → Leaves (IsSound held) (close_row now id rule found t)
  close_row-IsSound now id rule none t s = tt
  close_row-IsSound now id rule (some a) t s = elim (Bool-cases (is_resolved a.status)) [
    | inl e ↦ rw e s
    | inr e ↦ rw e (
        let b : AlertRow = record a { status = resolved; recovery_notify_error = none } in
        recover_triggers-IsSound now id rule (triggers_of id t.outbox)
          (record t { alerts = insert id b t.alerts; outbox = cancel_triggers now id t.outbox })
          (s.0, cancel-IsRow s.0 now id b t s.1, s.2))
  ]

  pub resolve_alert_tx-IsSound :
      (fails : Bool) (now : ℕ) (id : ℤ) (rule : Option Bool) (t : Tables)
      → IsSound held t
      → Leaves (IsSound held) (resolve_alert_tx fails now id rule t)
  unfolding resolve_alert_tx
  resolve_alert_tx-IsSound true now id rule t s = tt
  resolve_alert_tx-IsSound false now id rule t s =
      close_row-IsSound now id rule (lookup id t.alerts) t s

  -- An alert that is not closed may be written again where it is not closed.
  insert-IsSound :
      (id : ℤ) (a : AlertRow) (t : Tables)
      → closed_row (lookup id t.alerts) ≡ false
      → is_resolved a.status ≡ false
      → IsSound held t
      → IsSound held (record t { alerts = insert id a t.alerts })
  insert-IsSound id a t opened stays (reg, rows, h) = (
    reg,
    AreRows-alerts reg t (insert id a t.alerts)
        (λ q. closed_row-insert id q a t.alerts ∙ elim (Bool-cases (id == q)) [
          | inl e ↦
              (let same : id ≡ q = ground (arith, int_beq_iff id q, e) in
                rw (e, stays) (sym (rw same at opened)))
          | inr e ↦ rw e refl
        ])
        rows,
    h,
  )

  pub open_alert-IsSound :
      (now : ℕ) (id : ℤ) (a : AlertRow) (notify : Bool) (channels : List Text) (t : Tables)
      → lookup id t.alerts ≡ none
      → a.status ≡ active
      → IsSound held t
      → IsSound held (open_alert now id a notify channels t)
  unfolding open_alert
  open_alert-IsSound now id a notify channels t fresh new s =
      (enqueue_triggers-IsOpening held now id notify channels
        (record t { alerts = insert id a t.alerts })
        (
          rw (closed_row-insert id id a t.alerts, key_refl id, new) refl,
          insert-IsSound id a t (rw fresh refl) (rw new refl) s,
        )).1

  acknowledge_if-IsSound :
      (status : AlertStatus) (id : ℤ) (a : AlertRow) (t : Tables)
      → a.status ≡ status
      → lookup id t.alerts ≡ some a
      → IsSound held t
      → IsSound held (acknowledge_if status id a t).0
  acknowledge_if-IsSound active id a t e found s =
      insert-IsSound id (record a { status = acknowledged }) t (rw (found, e) refl) refl s
  acknowledge_if-IsSound acknowledged id a t e found s = s
  acknowledge_if-IsSound resolved id a t e found s = s

  acknowledge_row-IsSound :
      (id : ℤ) (found : Option AlertRow) (t : Tables)
      → lookup id t.alerts ≡ found
      → IsSound held t
      → IsSound held (acknowledge_row id found t).0
  acknowledge_row-IsSound id none t e s = s
  acknowledge_row-IsSound id (some a) t e s = acknowledge_if-IsSound a.status id a t refl e s

  pub acknowledge_alert-IsSound :
      (fails : Bool) (id : ℤ) (t : Tables)
      → IsSound held t
      → IsSound held (acknowledge_alert fails id t).0
  unfolding acknowledge_alert
  acknowledge_alert-IsSound true id t s = s
  acknowledge_alert-IsSound false id t s = acknowledge_row-IsSound id (lookup id t.alerts) t refl s
