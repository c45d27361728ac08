-- ===== src/Alerting/Lifecycle/Recovery.antt =====
-- What `resolveAlertTx` enqueues.
use wavecontrol.Prelude.{
  ℕ, Bool, true, false, ◌&&◌, ◌||◌, List, [], ◌∷◌, ◌++◌, inl, inr, Option, none, some, ◌≡◌, refl,
  sym, ap, ◌∙◌, subst, arith, Bool-cases, All, ◌==◌, Text, text_beq, text_beq_iff, ℤ, nat_eq,
  int_eq, text_eq,
}
use wavecontrol.Alerting.Outbox.{
  is_trigger, is_sending, is_sent, is_resolved, any, update_where, resolved, on_resolved, AlertRow,
  Delivery, Tables,
}
use wavecontrol.Alerting.Lifecycle.{
  same_delivery, new_delivery, renew, enqueue_recovery, wants_recovery, recover_if, recover_trigger,
  recover_triggers, triggers_of, cancel_triggers, close_row, resolve_alert_tx,
}
use wavecontrol.Alerting.Lifecycle.Sound.{or_true}
use wavecontrol.Alerting.Lifecycle.Closing.{Leaves, and_then-Leaves}
use wavecontrol.GoMap.{key_refl, insert, lookup}

-- A recovery of the alert stands in the outbox for the channel.
abbrev pub has_recovery : ℤ → Text → Tables → Bool
has_recovery id channel t = any (same_delivery id channel on_resolved) t.outbox

any-append {ℓ} : {A : Type ℓ} (p : A → Bool) (l m : List A) → any p (l ++ m) ≡ (any p l || any p m)
any-append p [] m = refl
any-append p (x ∷ l) m = ground (arith, any-append p l m)

any-update_where :
    (p q : Delivery → Bool) (f : Delivery → Delivery) (outbox : List Delivery)
    → ((d : Delivery) → q (f d) ≡ q d)
    → any q (update_where p f outbox) ≡ any q outbox
any-update_where p q f [] same = refl
any-update_where p q f (d ∷ outbox) same = elim (Bool-cases (p d)) [
  | inl e ↦ rw (e, same d, any-update_where p q f outbox same)
  | inr e ↦ rw (e, any-update_where p q f outbox same)
]

renew-same_delivery :
    (now : ℕ) (notify : Bool) (id : ℤ) (channel : Text) (d : Delivery)
    → same_delivery id channel on_resolved (renew now notify d)
      ≡ same_delivery id channel on_resolved d
renew-same_delivery now notify id channel d = elim (Bool-cases (is_sent d.status)) [
  | inl e ↦ rw e
  | inr e ↦ rw e
]

last_or : (a b : Bool) → (b || (true && (a && true) || false)) ≡ (a || b)
last_or a b = ground arith

known_channel :
    (id : ℤ) (channel q : Text) (t : Tables)
    → has_recovery id channel t ≡ true
    → has_recovery id q t ≡ (text_beq channel q || has_recovery id q t)
known_channel id channel q t h = elim (Bool-cases (text_beq channel q)) [
  | inl e ↦ rw e (rw ((text_beq_iff channel q).0 e) at h)
  | inr e ↦ rw e
]

-- A recovery that is enqueued is there, and the other ones stay.
enqueue_recovery-has :
    (now : ℕ) (id : ℤ) (channel q : Text) (notify : Bool) (t : Tables)
    → has_recovery id q (enqueue_recovery now id channel notify t)
      ≡ (text_beq channel q || has_recovery id q t)
unfolding enqueue_recovery
enqueue_recovery-has now id channel q notify t =
    let kept =
      any-update_where (same_delivery id channel on_resolved) (same_delivery id q on_resolved)
        (renew now notify) t.outbox (renew-same_delivery now notify id q) in
    let fresh = new_delivery now t.next_id id channel on_resolved notify in
    let added = any-append (same_delivery id q on_resolved) t.outbox (fresh ∷ []) in
    elim (Bool-cases (has_recovery id channel t)) [
      | inl e ↦ rw e (kept ∙ known_channel id channel q t e)
      | inr e ↦ rw (e, added, key_refl id) (last_or (text_beq channel q) (has_recovery id q t))
    ]

recover_if-keeps :
    (wanted : Option Bool) (now : ℕ) (id : ℤ) (channel q : Text) (t : Tables)
    → has_recovery id q t ≡ true
    → Leaves [] (λ after. has_recovery id q after ≡ true) (recover_if wanted now id channel t)
recover_if-keeps none now id channel q t h = tt
recover_if-keeps (some false) now id channel q t h = h
recover_if-keeps (some true) now id channel q t h =
    enqueue_recovery-has now id channel q true t ∙ rw h (or_true (text_beq channel q))

recover_trigger-keeps :
    (now : ℕ) (id : ℤ) (rule : Option Bool) (trigger : Delivery) (q : Text) (t : Tables)
    → has_recovery id q t ≡ true
    → Leaves [] (λ after. has_recovery id q after ≡ true) (recover_trigger now id rule trigger t)
recover_trigger-keeps now id rule trigger q t h =
    elim (Bool-cases (is_sent trigger.status || is_sending trigger.status)) [
      | inl c ↦
          rw c (recover_if-keeps (wants_recovery rule trigger.payload) now id trigger.channel q t h)
      | inr c ↦ rw c h
    ]

recover_triggers-keeps :
    (now : ℕ) (id : ℤ) (rule : Option Bool) (triggers : List Delivery) (q : Text) (t : Tables)
    → has_recovery id q t ≡ true
    → Leaves [] (λ after. has_recovery id q after ≡ true) (recover_triggers now id rule triggers t)
unfolding recover_triggers
recover_triggers-keeps now id rule [] q t h = h
recover_triggers-keeps now id rule (trigger ∷ triggers) q t h =
    and_then-Leaves [] (λ after. has_recovery id q after ≡ true)
      (λ after. has_recovery id q after ≡ true) (recover_trigger now id rule trigger t)
      (λ after. recover_triggers now id rule triggers after)
      (recover_trigger-keeps now id rule trigger q t h)
      (λ after k. recover_triggers-keeps now id rule triggers q after k)

-- A trigger that may have reached its channel.
abbrev pub has_left : Delivery → Bool
has_left d = is_sent d.status || is_sending d.status

abbrev Recovers : ℤ → List Delivery → Tables → Type 0
Recovers id triggers after =
    All (λ d. has_left d ≡ true → has_recovery id d.channel after ≡ true) triggers

recover_trigger-has :
    (now : ℕ) (id : ℤ) (trigger : Delivery) (t : Tables)
    → Leaves []
        (λ after. has_left trigger ≡ true → has_recovery id trigger.channel after ≡ true)
        (recover_trigger now id (some true) trigger t)
recover_trigger-has now id trigger t =
    elim (Bool-cases (is_sent trigger.status || is_sending trigger.status)) [
      | inl c ↦ rw c (λ h.
          enqueue_recovery-has now id trigger.channel trigger.channel true t
          ∙ rw (key_refl trigger.channel) refl)
      | inr c ↦ rw c (λ h. absurd cc)
    ]

Leaves-both :
    (P Q : Tables → Type 0) (r : Option (Tables × Bool))
    → Leaves [] P r
    → Leaves [] Q r
    → Leaves [] (λ t. P t × Q t) r
Leaves-both P Q none h k = tt
Leaves-both P Q (some (t, queued)) h k = (h, k)

Leaves-imp :
    (P Q : Tables → Type 0) (r : Option (Tables × Bool))
    → ((t : Tables) → P t → Q t)
    → Leaves [] P r
    → Leaves [] Q r
Leaves-imp P Q none f h = tt
Leaves-imp P Q (some (t, queued)) f h = f t h

Leaves-unit : (r : Option (Tables × Bool)) → Leaves [] (λ t. Unit) r
Leaves-unit none = tt
Leaves-unit (some (t, queued)) = tt

-- Where the trigger has left its recovery is there before the rest, and stays.
first_kept :
    (now : ℕ) (id : ℤ) (trigger : Delivery) (triggers : List Delivery) (t : Tables)
    → (has_left trigger ≡ true → has_recovery id trigger.channel t ≡ true)
    → Leaves []
        (λ after. has_left trigger ≡ true → has_recovery id trigger.channel after ≡ true)
        (recover_triggers now id (some true) triggers t)
first_kept now id trigger triggers t h = elim (Bool-cases (has_left trigger)) [
  | inl e ↦
      Leaves-imp (λ after. has_recovery id trigger.channel after ≡ true)
        (λ after. has_left trigger ≡ true → has_recovery id trigger.channel after ≡ true)
        (recover_triggers now id (some true) triggers t) (λ after k l. k)
        (recover_triggers-keeps now id (some true) triggers trigger.channel t (h e))
  | inr e ↦
      Leaves-imp (λ after. Unit)
        (λ after. has_left trigger ≡ true → has_recovery id trigger.channel after ≡ true)
        (recover_triggers now id (some true) triggers t) (λ after k l. absurd cc)
        (Leaves-unit (recover_triggers now id (some true) triggers t))
]

recover_triggers-Recovers :
    (now : ℕ) (id : ℤ) (triggers : List Delivery) (t : Tables)
    → Leaves [] (Recovers id triggers) (recover_triggers now id (some true) triggers t)
unfolding recover_triggers
recover_triggers-Recovers now id [] t = tt
recover_triggers-Recovers now id (trigger ∷ triggers) t =
    and_then-Leaves []
      (λ after. has_left trigger ≡ true → has_recovery id trigger.channel after ≡ true)
      (Recovers id (trigger ∷ triggers)) (recover_trigger now id (some true) trigger t)
      (λ after. recover_triggers now id (some true) triggers after)
      (recover_trigger-has now id trigger t)
      (λ after k.
        Leaves-both (λ t. has_left trigger ≡ true → has_recovery id trigger.channel t ≡ true)
          (Recovers id triggers) (recover_triggers now id (some true) triggers after)
          (first_kept now id trigger triggers after k)
          (recover_triggers-Recovers now id triggers after))

triggers_of-All :
    (id : ℤ) (P : Delivery → Type 0) (outbox : List Delivery)
    → All P (triggers_of id outbox)
    → All (λ d. (d.alert_id == id && is_trigger d.event) ≡ true → P d) outbox
unfolding triggers_of
triggers_of-All id P [] h = tt
triggers_of-All id P (d ∷ outbox) h = elim (Bool-cases (d.alert_id == id && is_trigger d.event)) [
  | inl e ↦
      (let kept : All P (d ∷ triggers_of id outbox) = rw e at h in
        (λ hit. kept.0, triggers_of-All id P outbox kept.1))
  | inr e ↦
      (let rest : All P (triggers_of id outbox) = rw e at h in
        (λ hit. absurd cc, triggers_of-All id P outbox rest))
]

close_row-Recovers :
    (now : ℕ) (id : ℤ) (a : AlertRow) (t : Tables)
    → is_resolved a.status ≡ false
    → Leaves [] (Recovers id (triggers_of id t.outbox)) (close_row now id (some true) (some a) t)
close_row-Recovers now id a t h = rw h (
    recover_triggers-Recovers now id (triggers_of id t.outbox) (record t {
      alerts = insert id (record a { status = resolved; recovery_notify_error = none }) t.alerts;
      outbox = cancel_triggers now id t.outbox;
    }))

-- When an alert that is not resolved yet is resolved, and its rule is known and wants recoveries,
-- each of its triggers that was sent or is being sent has a recovery on its channel afterwards.
pub resolve_alert_tx-has_recovery :
    (now : ℕ) (id : ℤ) (a : AlertRow) (t after : Tables) (queued : Bool)
    → lookup id t.alerts ≡ some a
    → is_resolved a.status ≡ false
    → resolve_alert_tx false now id (some true) t ≡ some (after, queued)
    → All
        (λ d.
          (d.alert_id == id && is_trigger d.event) ≡ true
          → has_left d ≡ true
          → has_recovery id d.channel after ≡ true)
        t.outbox
unfolding resolve_alert_tx
resolve_alert_tx-has_recovery now id a t after queued found h e =
    let closed : close_row now id (some true) (some a) t ≡ some (after, queued) =
      ap (λ o. close_row now id (some true) o t) (sym found) ∙ e in
    triggers_of-All id (λ d. has_left d ≡ true → has_recovery id d.channel after ≡ true) t.outbox
      (subst (Leaves [] (Recovers id (triggers_of id t.outbox))) closed
        (close_row-Recovers now id a t h))
