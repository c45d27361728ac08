-- ===== src/Alerting/Lifecycle/Marks.antt =====
-- The transactions of the workers keep the rows sound.
use wavecontrol.Prelude.{
  ℕ, Bool, true, false, ◌&&◌, ◌||◌, not, [], ◌∷◌, ◌++◌, inl, inr, Option, none, some, ◌≡◌, refl,
  sym, ap, ◌∙◌, arith, ltb, Bool-cases, All-imp, ◌==◌, Text, codes, text_beq, ℤ, nat_eq, int_eq,
  text_eq,
}
use wavecontrol.GoMap.{GoMap, lookup}
use wavecontrol.Alerting.Outbox.{
  is_trigger, is_waiting, is_resolved, closed_row, sysmon, max_attempts, any, update_where,
  is_claimable, first_claimable, claim_row, claim_notification, is_current, update_alert, note_sent,
  note_failed, all_sent, deliver, note_all_sent, mark_notification_sent, Event, on_triggered,
  on_resolved, DeliveryStatus, dead, AlertRow, Delivery, Tables,
}
use wavecontrol.Alerting.Lifecycle.Sound.{
  key_of, AreRows, or_true, done-IsRow, OfSome, first_claimable-OfSome, AreRows-update,
  claim_payload-AreRows, Key, IsRow, IsHeld,
}
use wavecontrol.Alerting.Lifecycle.{
  notification_failure_policy, set_back, record_failure, fail_item, mark_notification_failed,
  is_stale, release, recover_stale_notification_claims,
}

closed_row-update_alert :
    (q id : ℤ) (f : AlertRow → AlertRow) (alerts : GoMap ℤ AlertRow)
    → ((a : AlertRow) → (f a).status ≡ a.status)
    → closed_row (lookup q (update_alert id f alerts)) ≡ closed_row (lookup q alerts)
unfolding lookup
closed_row-update_alert q id f [] same = refl
closed_row-update_alert q id f ((k, a) ∷ alerts) same = elim (Bool-cases (k == id)) [
  | inl e ↦ elim (Bool-cases (k == q)) [
    | inl r ↦ rw (e, r) (ap is_resolved (same a))
    | inr r ↦ rw (e, r) (closed_row-update_alert q id f alerts same)
  ]
  | inr e ↦ elim (Bool-cases (k == q)) [
    | inl r ↦ rw (e, r)
    | inr r ↦ rw (e, r) (closed_row-update_alert q id f alerts same)
  ]
]

pub is_claimable-bound :
    (sysmon_only : Bool) (now : ℕ) (t : Tables) (d : Delivery)
    → is_claimable sysmon_only now t d ≡ true
    → (text_beq d.channel sysmon || ltb d.attempts max_attempts) ≡ true
unfolding is_claimable
is_claimable-bound sysmon_only now t d h = ground arith

module _ (reg : ℕ → Key) where
  -- The rows do not see a change of the alerts that closes and opens none.
  pub AreRows-alerts :
      (t : Tables) (alerts : GoMap ℤ AlertRow)
      → ((q : ℤ) → closed_row (lookup q alerts) ≡ closed_row (lookup q t.alerts))
      → AreRows reg t
      → AreRows reg (record t { alerts = alerts })
  AreRows-alerts t alerts same a =
      All-imp t.outbox
        (λ d r. record {
          known = r.known;
          given = r.given;
          closed = rw (same d.alert_id) r.closed;
          bounded = r.bounded;
        })
        a

  note_sent-status : (now : ℕ) (e : Event) (a : AlertRow) → (note_sent now e a).status ≡ a.status
  note_sent-status now on_triggered a = refl
  note_sent-status now on_resolved a = refl

  note_failed-status :
      (message : Text) (e : Event) (a : AlertRow) → (note_failed message e a).status ≡ a.status
  note_failed-status message on_triggered a = refl
  note_failed-status message on_resolved a = refl

  note_all_sent-AreRows :
      (now : ℕ) (item : Delivery) (t : Tables)
      → AreRows reg t
      → AreRows reg (note_all_sent now item t)
  note_all_sent-AreRows now item t a = elim (Bool-cases (all_sent item t.outbox)) [
    | inl e ↦ rw e (
        AreRows-alerts t (update_alert item.alert_id (note_sent now item.event) t.alerts)
          (λ q.
            closed_row-update_alert q item.alert_id (note_sent now item.event) t.alerts
              (note_sent-status now item.event))
          a)
    | inr e ↦ rw e a
  ]

  pub mark_notification_sent-AreRows :
      (fails : Bool) (now : ℕ) (item : Delivery) (t : Tables)
      → AreRows reg t
      → AreRows reg (mark_notification_sent fails now item t)
  unfolding mark_notification_sent
  mark_notification_sent-AreRows fails now item t a =
      let marked =
        AreRows-update reg t (is_current item) (deliver now)
          (λ d r h. done-IsRow reg t.next_id t.alerts d (deliver now d) r refl refl refl r.bounded)
          a in
      elim (Bool-cases (fails || not (any (is_current item) t.outbox))) [
        | inl e ↦ rw e a
        | inr e ↦ rw e (note_all_sent-AreRows now item _ marked)
      ]

  -- A row that is set back waits again, unless it is a trigger of a closed alert.
  record_failure-AreRows :
      (now : ℕ) (item : Delivery) (message : Text) (status : DeliveryStatus) (backoff : ℕ)
      (t : Tables)
      → IsHeld reg t.next_id item
      → (not (is_trigger item.event && closed_row (lookup item.alert_id t.alerts))
          || not (is_waiting status))
        ≡ true
      → AreRows reg t
      → AreRows reg (record_failure now item message status backoff t)
  record_failure-AreRows now item message status backoff t held ok a =
      let f = set_back now message status backoff in
      let marked =
        AreRows-update reg t (is_current item) f
          (λ d r h.
            (let ids : d.id ≡ item.id = ground (arith, h) in
              let key : key_of d ≡ key_of item = sym r.known ∙ ap reg ids ∙ held.held_key in
              record {
                known = r.known;
                given = r.given;
                closed = rw (ap (λ k. k.alert_id) key, ap (λ k. k.event) key) ok;
                bounded = r.bounded;
              }))
          a in
      elim (Bool-cases (any (is_current item) t.outbox)) [
        | inl e ↦ rw e (
            AreRows-alerts (record t { outbox = update_where (is_current item) f t.outbox })
              (update_alert item.alert_id (note_failed message item.event) t.alerts)
              (λ q.
                closed_row-update_alert q item.alert_id (note_failed message item.event) t.alerts
                  (note_failed-status message item.event))
              marked)
        | inr e ↦ rw e a
      ]

  fail_item-AreRows :
      (now : ℕ) (item : Delivery) (message : Text) (found : Option AlertRow) (t : Tables)
      → lookup item.alert_id t.alerts ≡ found
      → IsHeld reg t.next_id item
      → AreRows reg t
      → AreRows reg (fail_item now item message found t)
  fail_item-AreRows now item message none t e held a = a
  fail_item-AreRows now item message (some alert) t e held a =
      elim (Bool-cases (is_trigger item.event && is_resolved alert.status)) [
        | inl c ↦ rw c (
            record_failure-AreRows now item
              (codes "alert closed before delivery completed: " ++ message) dead
              (notification_failure_policy item.channel item.attempts).1 t held
              (or_true (not (is_trigger item.event && closed_row (lookup item.alert_id t.alerts))))
              a)
        | inr c ↦ rw c (
            record_failure-AreRows now item message
              (notification_failure_policy item.channel item.attempts).0
              (notification_failure_policy item.channel item.attempts).1 t held (rw (e, c) refl) a)
      ]

  pub mark_notification_failed-AreRows :
      (fails : Bool) (now : ℕ) (item : Delivery) (message : Text) (t : Tables)
      → IsHeld reg t.next_id item
      → AreRows reg t
      → AreRows reg (mark_notification_failed fails now item message t)
  unfolding mark_notification_failed
  mark_notification_failed-AreRows true now item message t held a = a
  mark_notification_failed-AreRows false now item message t held a =
      fail_item-AreRows now item message (lookup item.alert_id t.alerts) t refl held a

  release-IsRow :
      (now next : ℕ) (alerts : GoMap ℤ AlertRow) (d : Delivery)
      → IsRow reg next alerts d
      → IsRow reg next alerts (release now alerts d)
  release-IsRow now next alerts d r = record {
    known = r.known;
    given = r.given;
    closed = ground arith;
    bounded = r.bounded;
  }

  pub recover_stale-AreRows :
      (fails : Bool) (now : ℕ) (t : Tables)
      → AreRows reg t
      → AreRows reg (recover_stale_notification_claims fails now t)
  unfolding recover_stale_notification_claims
  recover_stale-AreRows true now t a = a
  recover_stale-AreRows false now t a =
      AreRows-update reg t (is_stale now t.alerts) (release now t.alerts)
        (λ d r h. release-IsRow now t.next_id t.alerts d r) a

  claim_row-AreRows :
      (sysmon_only : Bool) (now : ℕ) (t : Tables) (o : Option Delivery)
      → AreRows reg t
      → OfSome (λ d. IsRow reg t.next_id t.alerts d × (is_claimable sysmon_only now t d ≡ true)) o
      → AreRows reg (claim_row now o t).0 × OfSome (IsHeld reg t.next_id) (claim_row now o t).1
  claim_row-AreRows sysmon_only now t none a h = (a, tt)
  claim_row-AreRows sysmon_only now t (some d) a h =
      claim_payload-AreRows reg now d.payload d t h.0 (is_claimable-bound sysmon_only now t d h.1) a

  pub claim_notification-AreRows :
      (fails sysmon_only : Bool) (now : ℕ) (t : Tables)
      → AreRows reg t
      → AreRows reg (claim_notification fails sysmon_only now t).0
        × OfSome (IsHeld reg t.next_id) (claim_notification fails sysmon_only now t).1
  unfolding claim_notification
  claim_notification-AreRows true sysmon_only now t a = (a, tt)
  claim_notification-AreRows false sysmon_only now t a =
      claim_row-AreRows sysmon_only now t
        (first_claimable (is_claimable sysmon_only now t) t.outbox) a
        (first_claimable-OfSome (IsRow reg t.next_id t.alerts) (is_claimable sysmon_only now t)
          t.outbox a)
