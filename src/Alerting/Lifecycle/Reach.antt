-- ===== src/Alerting/Lifecycle/Reach.antt =====
-- The workers and the manager together: every order in which their transactions can take place.
use wavecontrol.Prelude.{
  ℕ, zero, suc, Bool, true, false, ◌&&◌, ◌||◌, not, List, [], ◌∷◌, ◌++◌, Option, none, some,
  some-injective, ◌≡◌, refl, sym, subst, if◌then◌else◌, get_elem?, All, Text, codes, ℤ, pos, nat_eq,
  int_eq, text_eq,
}
use wavecontrol.GoMap.{lookup}
use wavecontrol.Alerting.Outbox.{
  is_trigger, is_resolved, any, update_where, is_claimable, first_claimable, claim_payload,
  claim_row, claim_notification, is_current, all_sent, deliver, mark_notification_sent, active,
  on_resolved, DeliveryStatus, dead, AlertRow, Delivery, Tables,
}
use wavecontrol.Alerting.Lifecycle.{
  notification_failure_policy, record_failure, fail_item, mark_notification_failed,
  recover_stale_notification_claims, acknowledge_alert, resolve_alert_tx, open_alert,
}
use wavecontrol.Alerting.Lifecycle.Sound.{OfSome, Key, IsHeld}
use wavecontrol.Alerting.Lifecycle.Marks.{
  mark_notification_sent-AreRows, mark_notification_failed-AreRows, recover_stale-AreRows,
  claim_notification-AreRows,
}
use wavecontrol.Alerting.Lifecycle.Enqueue.{IsSound}
use wavecontrol.Alerting.Lifecycle.Closing.{
  Leaves, resolve_alert_tx-IsSound, open_alert-IsSound, acknowledge_alert-IsSound,
}

-- The tables, and every item that a worker has ever been given. A worker may report on its item at
-- any later moment, also when the claim has been taken back in between.
pub record State : Type 0 where
  pub tables : Tables
  pub held : List Delivery

abbrev pub start : State
start = record { tables = record { alerts = []; outbox = []; next_id = 0 }; held = [] }

abbrev pub take_item : Option Delivery → List Delivery → List Delivery
take_item none held = held
take_item (some item) held = item ∷ held

abbrev pub claim_step : Tables × Option Delivery → List Delivery → State
claim_step (t, item) held = record { tables = t; held = take_item item held }

-- The id of a new alert comes from the sequence of the table, so that no alert has it.
pub data Step (s u : State) : Type 0 where
  claim :
      (fails sysmon_only : Bool) (now : ℕ)
      → u ≡ claim_step (claim_notification fails sysmon_only now s.tables) s.held
      → Step s u
  report_sent :
      (fails : Bool) (now i : ℕ) (item : Delivery)
      → get_elem? s.held i ≡ some item
      → u ≡ record s { tables = mark_notification_sent fails now item s.tables }
      → Step s u
  report_failed :
      (fails : Bool) (now i : ℕ) (item : Delivery) (message : Text)
      → get_elem? s.held i ≡ some item
      → u ≡ record s { tables = mark_notification_failed fails now item message s.tables }
      → Step s u
  take_back :
      (fails : Bool) (now : ℕ)
      → u ≡ record s { tables = recover_stale_notification_claims fails now s.tables }
      → Step s u
  acknowledge :
      (fails : Bool) (id : ℤ)
      → u ≡ record s { tables = (acknowledge_alert fails id s.tables).0 }
      → Step s u
  resolve :
      (now : ℕ) (id : ℤ) (rule : Option Bool) (after : Tables) (queued : Bool)
      → resolve_alert_tx false now id rule s.tables ≡ some (after, queued)
      → u ≡ record s { tables = after }
      → Step s u
  trigger :
      (now : ℕ) (id : ℤ) (a : AlertRow) (notify : Bool) (channels : List Text)
      → lookup id s.tables.alerts ≡ none
      → a.status ≡ active
      → u ≡ record s { tables = open_alert now id a notify channels s.tables }
      → Step s u

pub data Run (s : State) : State → Type 0 where
  stop : Run s s
  more : {u v : State} → Run s u → Step u v → Run s v

All-get_elem? {ℓ κ} :
    {A : Type ℓ} (P : A → Type κ) (l : List A) (i : ℕ) (x : A)
    → All P l
    → get_elem? l i ≡ some x
    → P x
All-get_elem? P [] i x a h = absurd cc
All-get_elem? P (y ∷ l) zero x a h = subst P (some-injective _ _ h) a.0
All-get_elem? P (y ∷ l) (suc i) x a h = All-get_elem? P l i x a.1 h

abbrev pub IsSoundState : State → Type 0
IsSoundState s = IsSound s.held s.tables

-- The items that are held stay claims of rows, since the ids of the rows only grow.
take_item-All {κ} :
    (P : Delivery → Type κ) (item : Option Delivery) (held : List Delivery)
    → OfSome P item
    → All P held
    → All P (take_item item held)
take_item-All P none held h a = a
take_item-All P (some item) held h a = (h, a)

if_next :
    (n : ℕ) (c : Bool) (a b : Tables)
    → a.next_id ≡ n
    → b.next_id ≡ n
    → (if c then a else b).next_id ≡ n
if_next n true a b h k = h
if_next n false a b h k = k

claim_payload-next :
    (now : ℕ) (payload : Option Bool) (d : Delivery) (t : Tables)
    → (claim_payload now payload d t).0.next_id ≡ t.next_id
claim_payload-next now none d t = refl
claim_payload-next now (some b) d t = refl

claim_row-next :
    (now : ℕ) (o : Option Delivery) (t : Tables) → (claim_row now o t).0.next_id ≡ t.next_id
claim_row-next now none t = refl
claim_row-next now (some d) t = claim_payload-next now d.payload d t

claim_notification-next :
    (fails sysmon_only : Bool) (now : ℕ) (t : Tables)
    → (claim_notification fails sysmon_only now t).0.next_id ≡ t.next_id
unfolding claim_notification
claim_notification-next true sysmon_only now t = refl
claim_notification-next false sysmon_only now t =
    claim_row-next now (first_claimable (is_claimable sysmon_only now t) t.outbox) t

mark_notification_sent-next :
    (fails : Bool) (now : ℕ) (item : Delivery) (t : Tables)
    → (mark_notification_sent fails now item t).next_id ≡ t.next_id
unfolding mark_notification_sent
mark_notification_sent-next fails now item t =
    if_next t.next_id (fails || not (any (is_current item) t.outbox)) t _ refl (
      if_next t.next_id (all_sent item (update_where (is_current item) (deliver now) t.outbox)) _ _
        refl refl)

record_failure-next :
    (now : ℕ) (item : Delivery) (message : Text) (status : DeliveryStatus) (backoff : ℕ)
    (t : Tables)
    → (record_failure now item message status backoff t).next_id ≡ t.next_id
record_failure-next now item message status backoff t =
    if_next t.next_id (any (is_current item) t.outbox) _ t refl refl

fail_item-next :
    (now : ℕ) (item : Delivery) (message : Text) (found : Option AlertRow) (t : Tables)
    → (fail_item now item message found t).next_id ≡ t.next_id
fail_item-next now item message none t = refl
fail_item-next now item message (some a) t =
    let policy = notification_failure_policy item.channel item.attempts in
    let closed = codes "alert closed before delivery completed: " ++ message in
    if_next t.next_id (is_trigger item.event && is_resolved a.status) _ _
      (record_failure-next now item closed dead policy.1 t)
      (record_failure-next now item message policy.0 policy.1 t)

mark_notification_failed-next :
    (fails : Bool) (now : ℕ) (item : Delivery) (message : Text) (t : Tables)
    → (mark_notification_failed fails now item message t).next_id ≡ t.next_id
unfolding mark_notification_failed
mark_notification_failed-next true now item message t = refl
mark_notification_failed-next false now item message t =
    fail_item-next now item message (lookup item.alert_id t.alerts) t

recover_stale-next :
    (fails : Bool) (now : ℕ) (t : Tables)
    → (recover_stale_notification_claims fails now t).next_id ≡ t.next_id
unfolding recover_stale_notification_claims
recover_stale-next true now t = refl
recover_stale-next false now t = refl

same_next :
    (reg : ℕ → Key) (t u : Tables) (held : List Delivery)
    → u.next_id ≡ t.next_id
    → All (IsHeld reg t.next_id) held
    → All (IsHeld reg u.next_id) held
same_next reg t u held e h = subst (λ n. All (IsHeld reg n) held) (sym e) h

pub Step-IsSoundState : (s u : State) → Step s u → IsSoundState s → IsSoundState u
Step-IsSoundState s u (claim fails sysmon_only now e) (reg, rows, h) =
    let after = claim_notification fails sysmon_only now s.tables in
    let next = claim_notification-next fails sysmon_only now s.tables in
    let sound = claim_notification-AreRows reg fails sysmon_only now s.tables rows in
    rw e (
      reg,
      sound.0,
      same_next reg s.tables after.0 (take_item after.1 s.held) next
          (take_item-All (IsHeld reg s.tables.next_id) after.1 s.held sound.1 h),
    )
Step-IsSoundState s u (report_sent fails now i item k e) (reg, rows, h) = rw e (
  reg,
  mark_notification_sent-AreRows reg fails now item s.tables rows,
  same_next reg s.tables (mark_notification_sent fails now item s.tables) s.held
      (mark_notification_sent-next fails now item s.tables) h,
)
Step-IsSoundState s u (report_failed fails now i item message k e) (reg, rows, h) = rw e (
  reg,
  mark_notification_failed-AreRows reg fails now item message s.tables
      (All-get_elem? (IsHeld reg s.tables.next_id) s.held i item h k) rows,
  same_next reg s.tables (mark_notification_failed fails now item message s.tables) s.held
      (mark_notification_failed-next fails now item message s.tables) h,
)
Step-IsSoundState s u (take_back fails now e) (reg, rows, h) = rw e (
  reg,
  recover_stale-AreRows reg fails now s.tables rows,
  same_next reg s.tables (recover_stale_notification_claims fails now s.tables) s.held
      (recover_stale-next fails now s.tables) h,
)
Step-IsSoundState s u (acknowledge fails id e) h =
    rw e (acknowledge_alert-IsSound s.held fails id s.tables h)
Step-IsSoundState s u (resolve now id rule after queued r e) h = rw e (
    subst (Leaves s.held (IsSound s.held)) r
      (resolve_alert_tx-IsSound s.held false now id rule s.tables h))
Step-IsSoundState s u (trigger now id a notify channels fresh new e) h =
    rw e (open_alert-IsSound s.held now id a notify channels s.tables fresh new h)

pub Run-IsSoundState : (s u : State) → Run s u → IsSoundState s → IsSoundState u
Run-IsSoundState s u stop h = h
Run-IsSoundState s _ (more {u = m} {v} r st) h = Step-IsSoundState m v st (Run-IsSoundState s m r h)

pub start-IsSoundState : IsSoundState start
start-IsSoundState = (λ i. record { alert_id = pos 0; channel = []; event = on_resolved }, tt, tt)
