-- ===== src/Alerting/Lifecycle/Enqueue.antt =====
-- New rows of the outbox, and recoveries that are renewed, keep the rows sound.
use wavecontrol.Prelude.{
  ℕ, ◌+◌, ◌<◌, Bool, true, false, ◌&&◌, not, List, [], ◌∷◌, inl, inr, ◌≡◌, refl, ◌∙◌, arith,
  nat_beq, if◌then◌else◌, Bool-cases, All, All-append, All-imp, Text, text_beq, ℤ, nat_eq, int_eq,
  text_eq,
}
use wavecontrol.GoMap.{lookup}
use wavecontrol.Alerting.Outbox.{
  is_trigger, is_sent, closed_row, sysmon, any, Event, on_triggered, on_resolved, Delivery, Tables,
}
use wavecontrol.Alerting.Lifecycle.{
  same_delivery, new_delivery, append_delivery, enqueue_trigger, enqueue_triggers, renew,
  enqueue_recovery,
}
use wavecontrol.Alerting.Lifecycle.Sound.{AreRows, or_true, AreRows-update, Key, IsRow, IsHeld}

-- The rows are sound, and the items of the workers are claims that were given out for rows.
abbrev pub IsSound : List Delivery → Tables → Type 0
IsSound held t = (reg : ℕ → Key) × AreRows reg t × All (IsHeld reg t.next_id) held

module _ (held : List Delivery) where
  -- A row with a new id.
  extend : (ℕ → Key) → ℕ → Key → ℕ → Key
  extend reg next key i = if nat_beq i next then key else reg i

  extend-old :
      (reg : ℕ → Key) (next : ℕ) (key : Key) (i : ℕ) → i < next → extend reg next key i ≡ reg i
  unfolding extend
  extend-old reg next key i h = let other : nat_beq i next ≡ false = ground arith in rw other

  extend-new : (reg : ℕ → Key) (next : ℕ) (key : Key) → extend reg next key next ≡ key
  unfolding extend
  extend-new reg next key = let same : nat_beq next next ≡ true = ground arith in rw same

  pub append-IsSound :
      (now : ℕ) (id : ℤ) (channel : Text) (event : Event) (notify : Bool) (t : Tables)
      → not (is_trigger event && closed_row (lookup id t.alerts)) ≡ true
      → IsSound held t
      → IsSound held (append_delivery now id channel event notify t)
  append-IsSound now id channel event notify t opened (reg, a, h) =
      let key : Key = record { alert_id = id; channel = channel; event = event } in
      let next = t.next_id in
      (
        extend reg next key,
        All-append (IsRow (extend reg next key) (next + 1) t.alerts) t.outbox
            (new_delivery now next id channel event notify ∷ [])
            (All-imp t.outbox
              (λ d r. record {
                known = extend-old reg next key d.id r.given ∙ r.known;
                given = (let less = r.given in omega arith);
                closed = r.closed;
                bounded = r.bounded;
              })
              a)
            (
              record {
                known = extend-new reg next key;
                given = omega arith;
                closed = rw opened refl;
                bounded = or_true (text_beq channel sysmon);
              },
              tt,
            ),
        All-imp held
            (λ d r. record {
              held_key = extend-old reg next key d.id r.held_id ∙ r.held_key;
              held_id = (let less = r.held_id in omega arith);
            })
            h,
      )

  -- What an alert that is open sees of a change: it stays open, and the rows stay sound.
  abbrev pub IsOpening : ℤ → Tables → Type 0
  IsOpening id t = (closed_row (lookup id t.alerts) ≡ false) × IsSound held t

  enqueue_trigger-IsOpening :
      (now : ℕ) (id : ℤ) (notify : Bool) (channel : Text) (t : Tables)
      → IsOpening id t
      → IsOpening id (enqueue_trigger now id notify channel t)
  unfolding enqueue_trigger
  enqueue_trigger-IsOpening now id notify channel t (opened, s) =
      elim (Bool-cases (any (same_delivery id channel on_triggered) t.outbox)) [
        | inl e ↦ rw e (opened, s)
        | inr e ↦
            rw e (opened, append-IsSound now id channel on_triggered notify t (rw opened refl) s)
      ]

  pub enqueue_triggers-IsOpening :
      (now : ℕ) (id : ℤ) (notify : Bool) (channels : List Text) (t : Tables)
      → IsOpening id t
      → IsOpening id (enqueue_triggers now id notify channels t)
  unfolding enqueue_triggers
  enqueue_triggers-IsOpening now id notify [] t s = s
  enqueue_triggers-IsOpening now id notify (channel ∷ channels) t s =
      enqueue_triggers-IsOpening now id notify channels (enqueue_trigger now id notify channel t)
        (enqueue_trigger-IsOpening now id notify channel t s)

  renew-IsRow :
      (reg : ℕ → Key) (now : ℕ) (notify : Bool) (id : ℤ) (channel : Text) (t : Tables)
      (d : Delivery)
      → IsRow reg t.next_id t.alerts d
      → same_delivery id channel on_resolved d ≡ true
      → IsRow reg t.next_id t.alerts (renew now notify d)
  renew-IsRow reg now notify id channel t d r hit =
      let bound = r.bounded in
      let never : is_trigger d.event ≡ false = ground (arith, hit) in
      elim (Bool-cases (is_sent d.status)) [
        | inl e ↦ rw e (record {
          known = r.known;
          given = r.given;
          closed = rw never refl;
          bounded = r.bounded;
        })
        | inr e ↦ rw e (record {
          known = r.known;
          given = r.given;
          closed = rw never refl;
          bounded = or_true (text_beq d.channel sysmon);
        })
      ]

  pub enqueue_recovery-IsSound :
      (now : ℕ) (id : ℤ) (channel : Text) (notify : Bool) (t : Tables)
      → IsSound held t
      → IsSound held (enqueue_recovery now id channel notify t)
  unfolding enqueue_recovery
  enqueue_recovery-IsSound now id channel notify t (reg, a, h) =
      elim (Bool-cases (any (same_delivery id channel on_resolved) t.outbox)) [
        | inl e ↦ rw e (
          reg,
          AreRows-update reg t (same_delivery id channel on_resolved) (renew now notify)
              (λ d r hit. renew-IsRow reg now notify id channel t d r hit) a,
          h,
        )
        | inr e ↦ rw e (append-IsSound now id channel on_resolved notify t refl (reg, a, h))
      ]
