-- ===== src/Alerting/Lifecycle/Tries/Enqueued.antt =====
-- New alerts, acknowledgements and resolutions keep the count of the claims.
use wavecontrol.Prelude.{
  ℕ, Bool, true, false, ◌||◌, List, [], ◌∷◌, inl, inr, Option, none, some, ◌≡◌, arith, Bool-cases,
  All-append, All-imp, Text, ℤ, nat_eq, int_eq, text_eq,
}
use wavecontrol.GoMap.{lookup}
use wavecontrol.Alerting.Outbox.{
  is_sending, is_sent, is_resolved, any, AlertStatus, active, acknowledged, resolved, Event,
  on_triggered, on_resolved, AlertRow, Delivery, Tables,
}
use wavecontrol.Alerting.Lifecycle.{
  acknowledge_if, acknowledge_row, acknowledge_alert, same_delivery, new_delivery, append_delivery,
  enqueue_trigger, enqueue_triggers, renew, enqueue_recovery, wants_recovery, recover_if,
  recover_trigger, recover_triggers, triggers_of, cancel_triggers, close_row, resolve_alert_tx,
  open_alert,
}
use wavecontrol.Alerting.Lifecycle.Closing.{Leaves, and_then-Leaves}
use wavecontrol.Alerting.Lifecycle.Tries.{
  tries-older, IsCounted, AreCounted-update, if-AreCounted, alerts-AreCounted, AreCounted,
}

module _ (claims : List Delivery) where
  -- A new row has an id that nothing was given out under.
  append-AreCounted :
      (now : ℕ) (id : ℤ) (channel : Text) (event : Event) (notify : Bool) (t : Tables)
      → AreCounted claims t
      → AreCounted claims (append_delivery now id channel event notify t)
  append-AreCounted now id channel event notify t c = record {
    rows =
        All-append (IsCounted claims) t.outbox
          (new_delivery now t.next_id id channel event notify ∷ []) c.rows
          (λ e. (let none = tries-older t.next_id claims c.older in omega (arith, none)), tt);
    older = All-imp claims (λ item less. omega (arith, less)) c.older;
  }

  enqueue_trigger-AreCounted :
      (now : ℕ) (id : ℤ) (notify : Bool) (channel : Text) (t : Tables)
      → AreCounted claims t
      → AreCounted claims (enqueue_trigger now id notify channel t)
  unfolding enqueue_trigger
  enqueue_trigger-AreCounted now id notify channel t c =
      if-AreCounted claims (any (same_delivery id channel on_triggered) t.outbox) t _ c
        (append-AreCounted now id channel on_triggered notify t c)

  enqueue_triggers-AreCounted :
      (now : ℕ) (id : ℤ) (notify : Bool) (channels : List Text) (t : Tables)
      → AreCounted claims t
      → AreCounted claims (enqueue_triggers now id notify channels t)
  unfolding enqueue_triggers
  enqueue_triggers-AreCounted now id notify [] t c = c
  enqueue_triggers-AreCounted now id notify (channel ∷ channels) t c =
      enqueue_triggers-AreCounted now id notify channels (enqueue_trigger now id notify channel t)
        (enqueue_trigger-AreCounted now id notify channel t c)

  pub open_alert-AreCounted :
      (now : ℕ) (id : ℤ) (a : AlertRow) (notify : Bool) (channels : List Text) (t : Tables)
      → AreCounted claims t
      → AreCounted claims (open_alert now id a notify channels t)
  unfolding open_alert
  open_alert-AreCounted now id a notify channels t c =
      enqueue_triggers-AreCounted now id notify channels _ (alerts-AreCounted claims t _ c)

  -- A recovery starts again with no attempts; a trigger is never renewed.
  renew-IsCounted :
      (now : ℕ) (notify : Bool) (id : ℤ) (channel : Text) (d : Delivery)
      → same_delivery id channel on_resolved d ≡ true
      → IsCounted claims (renew now notify d)
  renew-IsCounted now notify id channel d hit = elim (Bool-cases (is_sent d.status)) [
    | inl e ↦ rw e (λ trigger. absurd (ground (arith, hit, trigger)))
    | inr e ↦ rw e (λ trigger. absurd (ground (arith, hit, trigger)))
  ]

  enqueue_recovery-AreCounted :
      (now : ℕ) (id : ℤ) (channel : Text) (notify : Bool) (t : Tables)
      → AreCounted claims t
      → AreCounted claims (enqueue_recovery now id channel notify t)
  unfolding enqueue_recovery
  enqueue_recovery-AreCounted now id channel notify t c =
      if-AreCounted claims (any (same_delivery id channel on_resolved) t.outbox) _ _
        (AreCounted-update claims t (same_delivery id channel on_resolved) (renew now notify)
          (λ d h hit. renew-IsCounted now notify id channel d hit) c)
        (append-AreCounted now id channel on_resolved notify t c)

  recover_if-AreCounted :
      (wanted : Option Bool) (now : ℕ) (id : ℤ) (channel : Text) (t : Tables)
      → AreCounted claims t
      → Leaves claims (AreCounted claims) (recover_if wanted now id channel t)
  recover_if-AreCounted none now id channel t c = tt
  recover_if-AreCounted (some false) now id channel t c = c
  recover_if-AreCounted (some true) now id channel t c =
      enqueue_recovery-AreCounted now id channel true t c

  recover_trigger-AreCounted :
      (now : ℕ) (id : ℤ) (rule : Option Bool) (trigger : Delivery) (t : Tables)
      → AreCounted claims t
      → Leaves claims (AreCounted claims) (recover_trigger now id rule trigger t)
  recover_trigger-AreCounted now id rule trigger t c =
      elim (Bool-cases (is_sent trigger.status || is_sending trigger.status)) [
        | inl e ↦
            rw e (
              recover_if-AreCounted (wants_recovery rule trigger.payload) now id trigger.channel t
                c)
        | inr e ↦ rw e c
      ]

  recover_triggers-AreCounted :
      (now : ℕ) (id : ℤ) (rule : Option Bool) (triggers : List Delivery) (t : Tables)
      → AreCounted claims t
      → Leaves claims (AreCounted claims) (recover_triggers now id rule triggers t)
  unfolding recover_triggers
  recover_triggers-AreCounted now id rule [] t c = c
  recover_triggers-AreCounted now id rule (trigger ∷ triggers) t c =
      and_then-Leaves claims (AreCounted claims) (AreCounted claims)
        (recover_trigger now id rule trigger t)
        (λ after. recover_triggers now id rule triggers after)
        (recover_trigger-AreCounted now id rule trigger t c)
        (λ after k. recover_triggers-AreCounted now id rule triggers after k)

  close_row-AreCounted :
      (now : ℕ) (id : ℤ) (rule : Option Bool) (found : Option AlertRow) (t : Tables)
      → AreCounted claims t
      → Leaves claims (AreCounted claims) (close_row now id rule found t)
  close_row-AreCounted now id rule none t c = tt
  close_row-AreCounted now id rule (some a) t c = elim (Bool-cases (is_resolved a.status)) [
    | inl e ↦ rw e c
    | inr e ↦ rw e (
        recover_triggers-AreCounted now id rule (triggers_of id t.outbox) _ (
          alerts-AreCounted claims (record t { outbox = cancel_triggers now id t.outbox }) _
            (AreCounted-update claims t _ _ (λ d h hit. h) c)))
  ]

  pub resolve_alert_tx-AreCounted :
      (fails : Bool) (now : ℕ) (id : ℤ) (rule : Option Bool) (t : Tables)
      → AreCounted claims t
      → Leaves claims (AreCounted claims) (resolve_alert_tx fails now id rule t)
  unfolding resolve_alert_tx
  resolve_alert_tx-AreCounted true now id rule t c = tt
  resolve_alert_tx-AreCounted false now id rule t c =
      close_row-AreCounted now id rule (lookup id t.alerts) t c

  acknowledge_if-AreCounted :
      (status : AlertStatus) (id : ℤ) (a : AlertRow) (t : Tables)
      → AreCounted claims t
      → AreCounted claims (acknowledge_if status id a t).0
  acknowledge_if-AreCounted active id a t c = alerts-AreCounted claims t _ c
  acknowledge_if-AreCounted acknowledged id a t c = c
  acknowledge_if-AreCounted resolved id a t c = c

  acknowledge_row-AreCounted :
      (id : ℤ) (found : Option AlertRow) (t : Tables)
      → AreCounted claims t
      → AreCounted claims (acknowledge_row id found t).0
  acknowledge_row-AreCounted id none t c = c
  acknowledge_row-AreCounted id (some a) t c = acknowledge_if-AreCounted a.status id a t c

  pub acknowledge_alert-AreCounted :
      (fails : Bool) (id : ℤ) (t : Tables)
      → AreCounted claims t
      → AreCounted claims (acknowledge_alert fails id t).0
  unfolding acknowledge_alert
  acknowledge_alert-AreCounted true id t c = c
  acknowledge_alert-AreCounted false id t c = acknowledge_row-AreCounted id (lookup id t.alerts) t c
