-- ===== src/Alerting/Lifecycle/Tries.antt =====
-- How often a trigger has been given to a worker.
pub mod Enqueued
pub mod Bound
use wavecontrol.Prelude.{
  ℕ, ◌+◌, ◌≤◌, ◌<◌, Bool, true, false, ◌&&◌, ◌||◌, not, List, [], ◌∷◌, ◌++◌, Option, none, some,
  ◌≡◌, refl, sym, subst, arith, nat_beq, if◌then◌else◌, All, Text, codes, text_beq, ℤ, nat_eq,
  int_eq, text_eq,
}
use wavecontrol.GoMap.{GoMap, lookup}
use wavecontrol.Alerting.Outbox.{
  is_trigger, is_resolved, sysmon, any, update_where, is_current, update_alert, note_failed,
  all_sent, deliver, note_all_sent, mark_notification_sent, DeliveryStatus, sent, dead, AlertRow,
  Delivery, Tables,
}
use wavecontrol.Alerting.Lifecycle.{
  notification_failure_policy, set_back, record_failure, fail_item, mark_notification_failed,
  is_stale, release, recover_stale_notification_claims,
}
use wavecontrol.Alerting.Lifecycle.Sound.{All-update_where}

-- How many of the items that were given out are claims of the row with the id.
unfoldable pub tries : ℕ → List Delivery → ℕ
tries id [] = 0
tries id (item ∷ claims) =
    let rest = tries id claims in if nat_beq item.id id then rest + 1 else rest

pub tries-older :
    (n : ℕ) (claims : List Delivery) → All (λ item. item.id < n) claims → tries n claims ≡ 0
unfolding tries
tries-older n [] a = refl
tries-older n (item ∷ claims) (h, a) =
    let other : nat_beq item.id n ≡ false = ground (arith, h) in rw other (tries-older n claims a)

abbrev pub is_counted : Delivery → Bool
is_counted d = is_trigger d.event && not (text_beq d.channel sysmon)

module _ (claims : List Delivery) where
  -- The attempts of a trigger count each time that it was given out, unless it is one of sysmon.
  abbrev pub IsCounted : Delivery → Type 0
  IsCounted d = is_counted d ≡ true → tries d.id claims ≤ d.attempts

  -- No item that was given out has an id that is still to come.
  pub record AreCounted (t : Tables) : Type 0 where
    pub rows : All IsCounted t.outbox
    pub older : All (λ item. item.id < t.next_id) claims

  AreCounted-outbox :
      (t u : Tables) → u.next_id ≡ t.next_id → All IsCounted u.outbox → AreCounted t → AreCounted u
  AreCounted-outbox t u e a c = record {
    rows = a;
    older = subst (λ n. All (λ item. item.id < n) claims) (sym e) c.older;
  }

  -- A change that keeps the id, the event and the attempts of each row.
  pub AreCounted-update :
      (t : Tables) (p : Delivery → Bool) (f : Delivery → Delivery)
      → ((d : Delivery) → IsCounted d → p d ≡ true → IsCounted (f d))
      → AreCounted t
      → AreCounted (record t { outbox = update_where p f t.outbox })
  AreCounted-update t p f hit c =
      AreCounted-outbox t (record t { outbox = update_where p f t.outbox }) refl
        (All-update_where IsCounted IsCounted p f t.outbox hit (λ d h e. h) c.rows) c

  pub if-AreCounted :
      (c : Bool) (a b : Tables) → AreCounted a → AreCounted b → AreCounted (if c then a else b)
  if-AreCounted true a b h k = h
  if-AreCounted false a b h k = k

  pub alerts-AreCounted :
      (t : Tables) (alerts : GoMap ℤ AlertRow)
      → AreCounted t
      → AreCounted (record t { alerts = alerts })
  alerts-AreCounted t alerts c = record { rows = c.rows; older = c.older }

  pub mark_notification_sent-AreCounted :
      (fails : Bool) (now : ℕ) (item : Delivery) (t : Tables)
      → AreCounted t
      → AreCounted (mark_notification_sent fails now item t)
  unfolding mark_notification_sent
  mark_notification_sent-AreCounted fails now item t c =
      let marked = AreCounted-update t (is_current item) (deliver now) (λ d h e. h) c in
      let sent = record t { outbox = update_where (is_current item) (deliver now) t.outbox } in
      if-AreCounted (fails || not (any (is_current item) t.outbox)) t (note_all_sent now item sent)
        c
        (if-AreCounted (all_sent item sent.outbox) _ sent (alerts-AreCounted sent _ marked) marked)

  record_failure-AreCounted :
      (now : ℕ) (item : Delivery) (message : Text) (status : DeliveryStatus) (backoff : ℕ)
      (t : Tables)
      → AreCounted t
      → AreCounted (record_failure now item message status backoff t)
  record_failure-AreCounted now item message status backoff t c =
      let f = set_back now message status backoff in
      let marked = AreCounted-update t (is_current item) f (λ d h e. h) c in
      if-AreCounted (any (is_current item) t.outbox) _ t
        (alerts-AreCounted (record t { outbox = update_where (is_current item) f t.outbox })
          (update_alert item.alert_id (note_failed message item.event) t.alerts) marked)
        c

  fail_item-AreCounted :
      (now : ℕ) (item : Delivery) (message : Text) (found : Option AlertRow) (t : Tables)
      → AreCounted t
      → AreCounted (fail_item now item message found t)
  fail_item-AreCounted now item message none t c = c
  fail_item-AreCounted now item message (some a) t c =
      let policy = notification_failure_policy item.channel item.attempts in
      let told = codes "alert closed before delivery completed: " ++ message in
      if-AreCounted (is_trigger item.event && is_resolved a.status) _ _
        (record_failure-AreCounted now item told dead policy.1 t c)
        (record_failure-AreCounted now item message policy.0 policy.1 t c)

  pub mark_notification_failed-AreCounted :
      (fails : Bool) (now : ℕ) (item : Delivery) (message : Text) (t : Tables)
      → AreCounted t
      → AreCounted (mark_notification_failed fails now item message t)
  unfolding mark_notification_failed
  mark_notification_failed-AreCounted true now item message t c = c
  mark_notification_failed-AreCounted false now item message t c =
      fail_item-AreCounted now item message (lookup item.alert_id t.alerts) t c

  pub recover_stale-AreCounted :
      (fails : Bool) (now : ℕ) (t : Tables)
      → AreCounted t
      → AreCounted (recover_stale_notification_claims fails now t)
  unfolding recover_stale_notification_claims
  recover_stale-AreCounted true now t c = c
  recover_stale-AreCounted false now t c =
      AreCounted-update t (is_stale now t.alerts) (release now t.alerts) (λ d h e. h) c
