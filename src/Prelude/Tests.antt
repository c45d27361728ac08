-- ===== src/Prelude/Tests.antt =====
-- Boolean tests on the native numbers and the branch that reads them.
use Prim.Native.Nat.{ℕ, zero, suc, ◌+◌, ◌≤◌, ◌<◌, compare, Ordering}
use mathlib.Core.Bool.{Bool, true, false, ◌&&◌}
use mathlib.Core.Logic.{◌↔◌, ◌⊎◌, inl, inr}
use mathlib.Core.Path.{◌≡◌, refl}
use native.Mathlib.Omega.{arith}

abbrev pub ltb : ℕ → ℕ → Bool
ltb a b = elim (compare a b) [ Ordering.lt ↦ true | _ ↦ false ]

abbrev pub leb : ℕ → ℕ → Bool
leb a b = elim (compare a b) [ Ordering.gt ↦ false | _ ↦ true ]

abbrev pub nat_beq : ℕ → ℕ → Bool
nat_beq a b = elim (compare a b) [ Ordering.eq ↦ true | _ ↦ false ]

infix 1 if◌then◌else◌
abbrev pub if◌then◌else◌ {ℓ} : {A : Type ℓ} → Bool → A → A → A
if true then x else y = x
if false then x else y = y

pub ltb→lt : (a b : ℕ) → ltb a b ≡ true → a < b
ltb→lt a b h = ground arith

pub lt→ltb : (a b : ℕ) → a < b → ltb a b ≡ true
lt→ltb a b h = ground arith

pub leb→le : (a b : ℕ) → leb a b ≡ true → a ≤ b
leb→le a b h = ground arith

pub ltb→le : (a b : ℕ) → ltb a b ≡ false → b ≤ a
ltb→le a b h = ground arith

pub leb→lt : (a b : ℕ) → leb a b ≡ false → b < a
leb→lt a b h = ground arith

pub nat_beq_iff : (a b : ℕ) → (nat_beq a b ≡ true) ↔ (a ≡ b)
nat_beq_iff a b = (λ h. ground arith, λ h. ground arith)

-- To split on a computed test and keep the equation.
pub Bool-cases : (b : Bool) → (b ≡ true) ⊎ (b ≡ false)
Bool-cases true = inl refl
Bool-cases false = inr refl

-- The first part of a pair that a test chooses.
pub if-fst {ℓ κ} :
    {A : Type ℓ} {B : Type κ} (c : Bool) (p q : A × B)
    → (if c then p else q).0 ≡ (if c then p.0 else q.0)
if-fst true p q = refl
if-fst false p q = refl

-- Whether a test passes for the `count` numbers from `start` on, by evaluation.
unfoldable pub passes : (ℕ → Bool) → ℕ → ℕ → Bool
passes test start zero = true
passes test start (suc count) = test start && passes test (start + 1) count

pub passes-at :
    (test : ℕ → Bool) (start count k : ℕ)
    → passes test start count ≡ true
    → start ≤ k
    → k < start + count
    → test k ≡ true
unfolding passes
passes-at test start zero k h from to = absurd (omega arith)
passes-at test start (suc count) k h from to = ground (arith, passes-at test (start + 1) count k)

pub ruleset tests = (arith, ltb→lt, lt→ltb, leb→le, ltb→le, leb→lt)
