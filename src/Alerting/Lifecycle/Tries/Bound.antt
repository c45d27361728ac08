-- ===== src/Alerting/Lifecycle/Tries/Bound.antt =====
-- The claims of the workers, and how many of them a trigger can have.
use wavecontrol.Prelude.{
  ℕ, ◌+◌, ◌≤◌, Bool, true, false, ◌&&◌, ◌||◌, not, List, [], ◌∷◌, Option, none, some, ◌≡◌, refl,
  sym, ap, ◌∙◌, subst, arith, ltb, nat_beq, All, All-imp, text_beq,
}
use wavecontrol.Alerting.Outbox.{
  is_trigger, sysmon, max_attempts, is_claimable, first_claimable, bury, send, claim_payload,
  claim_row, claim_notification, Delivery, Tables,
}
use wavecontrol.Alerting.Lifecycle.Sound.{
  key_of, closed_ok, attempts_ok, All-update_where, OfSome, first_claimable-OfSome, Key, IsRow,
}
use wavecontrol.Alerting.Lifecycle.Marks.{is_claimable-bound}
use wavecontrol.Alerting.Lifecycle.Closing.{Leaves}
use wavecontrol.Alerting.Lifecycle.Tries.{
  tries, is_counted, IsCounted, mark_notification_sent-AreCounted,
  mark_notification_failed-AreCounted, recover_stale-AreCounted, AreCounted,
}
use wavecontrol.Alerting.Lifecycle.Reach.{
  start, take_item, IsSoundState, Step-IsSoundState, Run-IsSoundState, start-IsSoundState, State,
  Step, claim, report_sent, report_failed, take_back, acknowledge, resolve, trigger, Run, stop,
  more,
}
use wavecontrol.Alerting.Lifecycle.Tries.Enqueued.{
  open_alert-AreCounted, resolve_alert_tx-AreCounted, acknowledge_alert-AreCounted,
}

All-both {ℓ κ} :
    {A : Type ℓ} (P Q : A → Type κ) (l : List A) → All P l → All Q l → All (λ x. P x × Q x) l
All-both P Q [] a b = tt
All-both P Q (x ∷ l) (p, a) (q, b) = ((p, q), All-both P Q l a b)

module _ (reg : ℕ → Key) (held : List Delivery) (t : Tables) where
  abbrev Both : Delivery → Type 0
  Both d = IsCounted held d × IsRow reg t.next_id t.alerts d

  counted_key : (d e : Delivery) → key_of d ≡ key_of e → is_counted d ≡ is_counted e
  counted_key d e h = ap {A = Key} (λ k. is_trigger k.event && not (text_beq k.channel sysmon)) h

  -- Rows of the same id are the same notification.
  same_counted :
      (d e : Delivery) → Both d → Both e → nat_beq e.id d.id ≡ true → is_counted e ≡ is_counted d
  same_counted d e (c, r) (b, q) same =
      let ids : e.id ≡ d.id = ground (arith, same) in
      counted_key e d (sym q.known ∙ ap reg ids ∙ r.known)

  send-IsCounted :
      (now : ℕ) (d e item : Delivery)
      → item.id ≡ d.id
      → Both d
      → Both e
      → nat_beq e.id d.id ≡ true
      → IsCounted (item ∷ held) (send now (d.attempts + 1) e)
  unfolding tries
  send-IsCounted now d e item is h k same counts =
      let ids : e.id ≡ d.id = ground (arith, same) in
      let mine : is_counted d ≡ true = sym (same_counted d e h k same) ∙ counts in
      let bound = h.0 mine in
      let hit : nat_beq item.id e.id ≡ true = ground (arith, is, same) in
      let moved : tries e.id held ≤ d.attempts =
        subst (λ i. tries i held ≤ d.attempts) (sym ids) bound in
      rw hit (omega (arith, moved))

  other-IsCounted :
      (d e item : Delivery)
      → item.id ≡ d.id
      → IsCounted held e
      → nat_beq e.id d.id ≡ false
      → IsCounted (item ∷ held) e
  unfolding tries
  other-IsCounted d e item is h other counts =
      let miss : nat_beq item.id e.id ≡ false = ground (arith, is, other) in rw miss (h counts)

  bury-IsCounted :
      (now : ℕ) (d e : Delivery)
      → (text_beq d.channel sysmon || ltb d.attempts max_attempts) ≡ true
      → Both d
      → Both e
      → nat_beq e.id d.id ≡ true
      → IsCounted held (bury now e)
  bury-IsCounted now d e room h k same counts =
      let ids : e.id ≡ d.id = ground (arith, same) in
      let mine : is_counted d ≡ true = sym (same_counted d e h k same) ∙ counts in
      let bound = h.0 mine in
      let few : d.attempts ≤ 8 = ground (arith, room, mine) in rw ids (omega (arith, bound, few))

  abbrev Claimed : Tables × Option Delivery → Type 0
  Claimed r = All (IsCounted (take_item r.1 held)) r.0.outbox

  claim_payload-Claimed :
      (now : ℕ) (payload : Option Bool) (d : Delivery)
      → (text_beq d.channel sysmon || ltb d.attempts max_attempts) ≡ true
      → Both d
      → All Both t.outbox
      → Claimed (claim_payload now payload d t)
  claim_payload-Claimed now none d room h a =
      All-update_where Both (IsCounted held) (λ e. nat_beq e.id d.id) (bury now) t.outbox
        (λ e k same. bury-IsCounted now d e room h k same) (λ e k other. k.0) a
  claim_payload-Claimed now (some b) d room h a =
      let item = record d { attempts = d.attempts + 1 } in
      All-update_where Both (IsCounted (item ∷ held)) (λ e. nat_beq e.id d.id)
        (send now (d.attempts + 1)) t.outbox (λ e k same. send-IsCounted now d e item refl h k same)
        (λ e k other. other-IsCounted d e item refl k.0 other) a

  claim_row-Claimed :
      (sysmon_only : Bool) (now : ℕ) (o : Option Delivery)
      → OfSome (λ d. Both d × (is_claimable sysmon_only now t d ≡ true)) o
      → All Both t.outbox
      → Claimed (claim_row now o t)
  claim_row-Claimed sysmon_only now none h a = All-imp t.outbox (λ d k. k.0) a
  claim_row-Claimed sysmon_only now (some d) h a =
      claim_payload-Claimed now d.payload d (is_claimable-bound sysmon_only now t d h.1) h.0 a

  claim_notification-Claimed :
      (fails sysmon_only : Bool) (now : ℕ)
      → All Both t.outbox
      → Claimed (claim_notification fails sysmon_only now t)
  unfolding claim_notification
  claim_notification-Claimed true sysmon_only now a = All-imp t.outbox (λ d k. k.0) a
  claim_notification-Claimed false sysmon_only now a =
      let p = is_claimable sysmon_only now t in
      claim_row-Claimed sysmon_only now (first_claimable p t.outbox)
        (first_claimable-OfSome Both p t.outbox a) a

abbrev IsCountedState : State → Type 0
IsCountedState s = AreCounted s.held s.tables

Step-IsCountedState :
    (s u : State) → Step s u → IsSoundState s → IsSoundState u → IsCountedState s → IsCountedState u
Step-IsCountedState s u (claim fails sysmon_only now e) (reg, rows, h) (reg', rows', h') c =
    let r = claim_notification fails sysmon_only now s.tables in
    let both =
      All-both (IsCounted s.held) (IsRow reg s.tables.next_id s.tables.alerts) s.tables.outbox
        c.rows rows in
    let next = ap {A = State} (λ x. x.tables.next_id) e in
    record {
      rows = rw e (claim_notification-Claimed reg s.held s.tables fails sysmon_only now both);
      older = All-imp u.held (λ d k. k.held_id) h';
    }
Step-IsCountedState s u (report_sent fails now i item k e) a b c =
    rw e (mark_notification_sent-AreCounted s.held fails now item s.tables c)
Step-IsCountedState s u (report_failed fails now i item message k e) a b c =
    rw e (mark_notification_failed-AreCounted s.held fails now item message s.tables c)
Step-IsCountedState s u (take_back fails now e) a b c =
    rw e (recover_stale-AreCounted s.held fails now s.tables c)
Step-IsCountedState s u (acknowledge fails id e) a b c =
    rw e (acknowledge_alert-AreCounted s.held fails id s.tables c)
Step-IsCountedState s u (resolve now id rule after queued r e) a b c = rw e (
    subst (Leaves s.held (AreCounted s.held)) r
      (resolve_alert_tx-AreCounted s.held false now id rule s.tables c))
Step-IsCountedState s u (trigger now id a notify channels fresh new e) x y c =
    rw e (open_alert-AreCounted s.held now id a notify channels s.tables c)

Run-IsCountedState : (s : State) → Run start s → IsCountedState s
Run-IsCountedState s stop = record { rows = tt; older = tt }
Run-IsCountedState _ (more {u = m} {v} r st) =
    let sound = Run-IsSoundState start m r start-IsSoundState in
    Step-IsCountedState m v st sound (Step-IsSoundState m v st sound) (Run-IsCountedState m r)

at_most_8 :
    (held : List Delivery) (d : Delivery)
    → IsCounted held d
    → attempts_ok d ≡ true
    → is_counted d ≡ true
    → tries d.id held ≤ 8
at_most_8 held d c ok counts =
    let bound = c counts in
    let few : d.attempts ≤ 8 = ground (arith, ok, counts) in omega (arith, bound, few)

-- Whatever the order of claims, reports, recoveries of claims, acknowledgements, resolutions and
-- new alerts from empty tables on, and whichever transactions fail: no trigger of a resolved alert
-- waits for its delivery; the row of a notification for another channel than sysmon has at most 8
-- attempts; and of all the items that workers have been given at most 8 are for any one trigger on
-- another channel than sysmon.
pub Run-AreRows :
    (s : State)
    → Run start s
    → All
        (λ d.
          (closed_ok s.tables.alerts d ≡ true)
          × (attempts_ok d ≡ true)
          × (is_counted d ≡ true → tries d.id s.held ≤ 8))
        s.tables.outbox
Run-AreRows s r =
    let (reg, rows, h) = Run-IsSoundState start s r start-IsSoundState in
    let counted = Run-IsCountedState s r in
    All-imp s.tables.outbox
      (λ d (c, row). (row.closed, row.bounded, at_most_8 s.held d c row.bounded))
      (All-both (IsCounted s.held) (IsRow reg s.tables.next_id s.tables.alerts) s.tables.outbox
        counted.rows rows)
