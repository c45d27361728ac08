-- ===== src/Alerting/Lifecycle/Queue.antt =====
-- Which notification a worker claims.
use wavecontrol.Prelude.{
  ℕ, suc, ◌+◌, Bool, true, false, not, List, [], ◌∷◌, map, inl, inr, Option, none, some, ◌≡◌, refl,
  sym, ap, ◌∙◌, subst, arith, nat_beq, if◌then◌else◌, Bool-cases, get_elem?, All, All-imp, codes,
}
use wavecontrol.Alerting.Outbox.{
  is_there, any, is_claimable, earlier, prefer, first_claimable, bury, send, claim_payload,
  claim_row, claim_notification, sending, dead, Delivery, Tables,
}

abbrev pub IsIn {ℓ} : {A : Type ℓ} → List A → A → Type ℓ
IsIn l x = (i : ℕ) × (get_elem? l i ≡ some x)

-- The row is one of the outbox and passes, and none that passes comes before it.
abbrev pub IsFirst : (Delivery → Bool) → List Delivery → Delivery → Type 0
IsFirst p outbox e =
    IsIn outbox e × (p e ≡ true) × All (λ d. p d ≡ true → earlier d e ≡ false) outbox

abbrev FirstOf : (Delivery → Bool) → List Delivery → Option Delivery → Type 0
FirstOf p outbox none = All (λ d. p d ≡ false) outbox
FirstOf p outbox (some e) = IsFirst p outbox e

earlier_irrefl : (d : Delivery) → earlier d d ≡ false
earlier_irrefl d = ground arith

earlier_asym : (e d : Delivery) → earlier e d ≡ true → earlier d e ≡ false
earlier_asym e d h = ground arith

-- What is not before the later one of two rows is not before the earlier one.
earlier_trans : (d e f : Delivery) → earlier e d ≡ false → earlier f e ≡ false → earlier f d ≡ false
earlier_trans d e f h k = ground arith

prefer-FirstOf :
    (p : Delivery → Bool) (d : Delivery) (outbox : List Delivery) (o : Option Delivery)
    → p d ≡ true
    → FirstOf p outbox o
    → IsFirst p (d ∷ outbox) (prefer d o)
prefer-FirstOf p d outbox none h a =
    ((0, refl), h, (λ k. earlier_irrefl d, All-imp outbox (λ x miss hit. absurd cc) a))
prefer-FirstOf p d outbox (some e) h ((i, at), k, a) = elim (Bool-cases (earlier e d)) [
  | inl c ↦
      (let kept : prefer d (some e) ≡ e = rw c in
        subst (IsFirst p (d ∷ outbox)) (sym kept) ((suc i, at), k, (λ hit. earlier_asym e d c, a)))
  | inr c ↦
      (let newer : prefer d (some e) ≡ d = rw c in
        subst (IsFirst p (d ∷ outbox)) (sym newer) (
          (0, refl),
          h,
          (
            λ hit. earlier_irrefl d,
            All-imp outbox (λ x rest hit. earlier_trans d e x c (rest hit)) a,
          ),
        ))
]

skip :
    (p : Delivery → Bool) (d : Delivery) (outbox : List Delivery) (o : Option Delivery)
    → p d ≡ false
    → FirstOf p outbox o
    → FirstOf p (d ∷ outbox) o
skip p d outbox none h a = (h, a)
skip p d outbox (some e) h ((i, at), k, a) = ((suc i, at), k, (λ hit. absurd cc, a))

first_claimable-FirstOf :
    (p : Delivery → Bool) (outbox : List Delivery) → FirstOf p outbox (first_claimable p outbox)
unfolding first_claimable
first_claimable-FirstOf p [] = tt
first_claimable-FirstOf p (d ∷ outbox) = elim (Bool-cases (p d)) [
  | inl e ↦
      rw e
        (prefer-FirstOf p d outbox (first_claimable p outbox) e (first_claimable-FirstOf p outbox))
  | inr e ↦ rw e (skip p d outbox (first_claimable p outbox) e (first_claimable-FirstOf p outbox))
]

any-none : (p : Delivery → Bool) (l : List Delivery) → All (λ d. p d ≡ false) l → any p l ≡ false
any-none p [] a = refl
any-none p (d ∷ l) (h, a) = rw (h, any-none p l a)

found-IsFirst :
    (p : Delivery → Bool) (outbox : List Delivery) (o : Option Delivery)
    → FirstOf p outbox o
    → any p outbox ≡ true
    → (e : Delivery) × (o ≡ some e) × IsFirst p outbox e
found-IsFirst p outbox none a h = let never = any-none p outbox a in absurd cc
found-IsFirst p outbox (some e) f h = (e, refl, f)

-- A row under the given id that the worker sends now, or that is dead where its payload is no JSON.
abbrev pub taken : ℕ → Option Bool → Delivery → Delivery → Delivery
taken now payload e d =
    if not (nat_beq d.id e.id)
    then d
    else if is_there payload
    then record d { status = sending; attempts = e.attempts + 1; updated_at = now }
    else record d {
      status = dead;
      attempts = 8;
      last_error = some (codes "invalid notification payload");
      updated_at = now;
    }

abbrev pub handed : Option Bool → Delivery → Option Delivery
handed payload e = if is_there payload then some (record e { attempts = e.attempts + 1 }) else none

flip_if : (b : Bool) (x y : Delivery) → (if b then x else y) ≡ (if not b then y else x)
flip_if true x y = refl
flip_if false x y = refl

claim_payload-taken :
    (now : ℕ) (payload : Option Bool) (e : Delivery) (t : Tables)
    → claim_payload now payload e t
      ≡ (record t { outbox = map (taken now payload e) t.outbox }, handed payload e)
claim_payload-taken now none e t =
    ap {A = Delivery → Delivery} (λ f. (record t { outbox = map f t.outbox }, none))
      (λ i d. flip_if (nat_beq d.id e.id) (bury now d) d i)
claim_payload-taken now (some b) e t =
    ap {A = Delivery → Delivery}
      (λ f. (record t { outbox = map f t.outbox }, some (record e { attempts = e.attempts + 1 })))
      (λ i d. flip_if (nat_beq d.id e.id) (send now (e.attempts + 1) d) d i)

-- Where the transaction does not fail and some row of the outbox may be claimed, the claim takes
-- one of them, the first by the time of its next attempt and its id. The worker gets that row with
-- its attempts counted up by one, and the row of the table has the same count and is being sent;
-- where the payload is no JSON the worker gets nothing and the row is dead with 8 attempts. No row
-- with another id changes.
pub claim_notification-IsFirst :
    (sysmon_only : Bool) (now : ℕ) (t : Tables)
    → any (is_claimable sysmon_only now t) t.outbox ≡ true
    → (e : Delivery) × IsFirst (is_claimable sysmon_only now t) t.outbox e
      × (claim_notification false sysmon_only now t
          ≡ (record t { outbox = map (taken now e.payload e) t.outbox }, handed e.payload e))
unfolding claim_notification
claim_notification-IsFirst sysmon_only now t h =
    let p = is_claimable sysmon_only now t in
    let (e, found, first) =
      found-IsFirst p t.outbox (first_claimable p t.outbox) (first_claimable-FirstOf p t.outbox)
        h in
    (e, first, ap (λ o. claim_row now o t) found ∙ claim_payload-taken now e.payload e t)
