-- ===== src/Alerting/Lifecycle/Sound.antt =====
-- What holds of every row of the outbox, and what each transaction does to it.
use wavecontrol.Prelude.{
  ℕ, ◌+◌, ◌<◌, Bool, true, false, ◌&&◌, ◌||◌, not, List, [], ◌∷◌, inl, inr, Option, none, some, ◌≡◌,
  refl, sym, ap, ◌∙◌, arith, ltb, leb, nat_beq, Bool-cases, All, Text, text_beq, ℤ, nat_eq, int_eq,
  text_eq,
}
use wavecontrol.GoMap.{GoMap, lookup}
use wavecontrol.Alerting.Outbox.{
  is_trigger, is_waiting, closed_row, sysmon, max_attempts, update_where, earlier, prefer,
  first_claimable, bury, send, claim_payload, Event, AlertRow, Delivery, Tables,
}

-- The columns of a row that never change.
pub record Key : Type 0 where
  pub alert_id : ℤ
  pub channel : Text
  pub event : Event

abbrev pub key_of : Delivery → Key
key_of d = record { alert_id = d.alert_id; channel = d.channel; event = d.event }

-- A trigger of a closed alert does not wait for its delivery.
abbrev pub closed_ok : GoMap ℤ AlertRow → Delivery → Bool
closed_ok alerts d =
    not (is_trigger d.event && closed_row (lookup d.alert_id alerts)) || not (is_waiting d.status)

abbrev pub attempts_ok : Delivery → Bool
attempts_ok d = text_beq d.channel sysmon || leb d.attempts max_attempts

-- The row has been given out under its id, and is sound in both respects.
pub record IsRow (reg : ℕ → Key) (next : ℕ) (alerts : GoMap ℤ AlertRow) (d : Delivery)
    : Type 0 where
  pub known : reg d.id ≡ key_of d
  pub given : d.id < next
  pub closed : closed_ok alerts d ≡ true
  pub bounded : attempts_ok d ≡ true

abbrev pub AreRows : (ℕ → Key) → Tables → Type 0
AreRows reg t = All (IsRow reg t.next_id t.alerts) t.outbox

pub All-update_where {κ} :
    (P Q : Delivery → Type κ) (p : Delivery → Bool) (f : Delivery → Delivery)
    (outbox : List Delivery)
    → ((d : Delivery) → P d → p d ≡ true → Q (f d))
    → ((d : Delivery) → P d → p d ≡ false → Q d)
    → All P outbox
    → All Q (update_where p f outbox)
All-update_where P Q p f [] hit miss a = tt
All-update_where P Q p f (d ∷ outbox) hit miss (h, a) = elim (Bool-cases (p d)) [
  | inl e ↦ rw e (hit d h e, All-update_where P Q p f outbox hit miss a)
  | inr e ↦ rw e (miss d h e, All-update_where P Q p f outbox hit miss a)
]

pub or_true : (b : Bool) → (b || true) ≡ true
or_true true = refl
or_true false = refl

-- A change that keeps the columns of the key, and leaves nothing waiting.
pub done-IsRow :
    (reg : ℕ → Key) (next : ℕ) (alerts : GoMap ℤ AlertRow) (d e : Delivery)
    → IsRow reg next alerts d
    → e.id ≡ d.id
    → key_of e ≡ key_of d
    → is_waiting e.status ≡ false
    → attempts_ok e ≡ true
    → IsRow reg next alerts e
done-IsRow reg next alerts d e r id key w b = record {
  known = ap reg id ∙ r.known ∙ sym key;
  given = rw id r.given;
  closed = rw w (or_true (not (is_trigger e.event && closed_row (lookup e.alert_id alerts))));
  bounded = b;
}

-- What holds of the item that a worker has been given.
abbrev pub OfSome {κ} : (Delivery → Type κ) → Option Delivery → Type κ
OfSome P none = Unit
OfSome P (some d) = P d

pub record IsHeld (reg : ℕ → Key) (next : ℕ) (item : Delivery) : Type 0 where
  pub held_key : reg item.id ≡ key_of item
  pub held_id : item.id < next

prefer-OfSome {κ} :
    (P : Delivery → Type κ) (d : Delivery) (o : Option Delivery) → P d → OfSome P o → P (prefer d o)
prefer-OfSome P d none h k = h
prefer-OfSome P d (some e) h k = elim (Bool-cases (earlier e d)) [ inl c ↦ rw c k | inr c ↦ rw c h ]

pub first_claimable-OfSome {κ} :
    (P : Delivery → Type κ) (p : Delivery → Bool) (outbox : List Delivery)
    → All P outbox
    → OfSome (λ d. P d × (p d ≡ true)) (first_claimable p outbox)
unfolding first_claimable
first_claimable-OfSome P p [] a = tt
first_claimable-OfSome P p (d ∷ outbox) a =
    let rest = first_claimable-OfSome P p outbox a.1 in
    elim (Bool-cases (p d)) [
      | inl e ↦
          rw e (prefer-OfSome (λ d. P d × (p d ≡ true)) d (first_claimable p outbox) (a.0, e) rest)
      | inr e ↦ rw e rest
    ]

module _ (reg : ℕ → Key) where
  pub AreRows-update :
      (t : Tables) (p : Delivery → Bool) (f : Delivery → Delivery)
      → ((d : Delivery)
          → IsRow reg t.next_id t.alerts d
          → p d ≡ true
          → IsRow reg t.next_id t.alerts (f d))
      → AreRows reg t
      → AreRows reg (record t { outbox = update_where p f t.outbox })
  AreRows-update t p f hit a =
      All-update_where (IsRow reg t.next_id t.alerts) (IsRow reg t.next_id t.alerts) p f t.outbox
        hit (λ d h e. h) a

  same_channel :
      (next : ℕ) (alerts : GoMap ℤ AlertRow) (d e : Delivery)
      → IsRow reg next alerts d
      → IsRow reg next alerts e
      → nat_beq e.id d.id ≡ true
      → e.channel ≡ d.channel
  same_channel next alerts d e r q same =
      let ids : e.id ≡ d.id = ground (arith, same) in
      ap (λ k. k.channel) (sym q.known ∙ ap reg ids ∙ r.known)

  pub claim_payload-AreRows :
      (now : ℕ) (payload : Option Bool) (d : Delivery) (t : Tables)
      → IsRow reg t.next_id t.alerts d
      → (text_beq d.channel sysmon || ltb d.attempts max_attempts) ≡ true
      → AreRows reg t
      → AreRows reg (claim_payload now payload d t).0
        × OfSome (IsHeld reg t.next_id) (claim_payload now payload d t).1
  claim_payload-AreRows now none d t r c a = (
    AreRows-update t (λ e. nat_beq e.id d.id) (bury now)
        (λ e q same.
          done-IsRow reg t.next_id t.alerts e (bury now e) q refl refl refl
            (or_true (text_beq e.channel sysmon)))
        a,
    tt,
  )
  claim_payload-AreRows now (some b) d t r c a = (
    AreRows-update t (λ e. nat_beq e.id d.id) (send now (d.attempts + 1))
        (λ e q same.
          (let channel = same_channel t.next_id t.alerts d e r q same in
            done-IsRow reg t.next_id t.alerts e (send now (d.attempts + 1) e) q refl refl refl
              (rw channel (ground (arith, c)))))
        a,
    record { held_key = r.known; held_id = r.given },
  )
