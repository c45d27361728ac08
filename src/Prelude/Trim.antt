-- ===== src/Prelude/Trim.antt =====
-- Laws of `strings.TrimSpace` and `strings.Trim`.
use Prim.Native.Nat.{ℕ}
use mathlib.Core.Bool.{Bool, false}
use mathlib.Core.List.{[], ◌∷◌, map}
use mathlib.Core.Logic.{inl, inr}
use mathlib.Core.Path.{◌≡◌, refl, ap, ◌∙◌}
use native.Mathlib.Omega.{arith}
use wavecontrol.Prelude.Tests.{Bool-cases}
use wavecontrol.Prelude.Lists.{All}
use wavecontrol.Prelude.Texts.{Text, to_lower, lower_byte, to_lower_idem}
use wavecontrol.Prelude.Strings.{is_space, trim_left, trim_right, trim_step, trim, trim_space}

trim_right_of_none : (p : ℕ → Bool) (s : Text) → All (λ c. p c ≡ false) s → trim_right p s ≡ s
unfolding trim_right
trim_right_of_none p [] h = refl
trim_right_of_none p (x ∷ []) h = rw h.0
trim_right_of_none p (x ∷ y ∷ s) h = ap (trim_step p x) (trim_right_of_none p (y ∷ s) h.1)

-- Text in which no byte is trimmed stays as it is.
pub trim_of_none : (p : ℕ → Bool) (s : Text) → All (λ c. p c ≡ false) s → trim p s ≡ s
unfolding trim
trim_of_none p [] h = refl
trim_of_none p (c ∷ s) h = rw h.0 (trim_right_of_none p (c ∷ s) h)

pub trim_space_of_none : (s : Text) → All (λ c. is_space c ≡ false) s → trim_space s ≡ s
unfolding trim_space
trim_space_of_none s h = trim_of_none is_space s h

-- Trimming twice is trimming once, and goes past a change of letters.
trim_step-kept : (p : ℕ → Bool) (c : ℕ) (r : Text) → p c ≡ false → trim_step p c r ≡ c ∷ r
trim_step-kept p c [] h = rw h
trim_step-kept p c (d ∷ r) h = refl

trim_step_idem :
    (p : ℕ → Bool) (c : ℕ) (r : Text)
    → trim_right p r ≡ r
    → trim_right p (trim_step p c r) ≡ trim_step p c r
unfolding trim_right
trim_step_idem p c [] e = elim (Bool-cases (p c)) [ inl h ↦ rw h | inr h ↦ rw (h, h) ]
trim_step_idem p c (d ∷ r) e = ap (trim_step p c) e

trim_right_idem : (p : ℕ → Bool) (s : Text) → trim_right p (trim_right p s) ≡ trim_right p s
unfolding trim_right
trim_right_idem p [] = refl
trim_right_idem p (c ∷ s) = trim_step_idem p c (trim_right p s) (trim_right_idem p s)

-- What `trim_left` leaves starts with a byte that stays.
abbrev StartsKept : (ℕ → Bool) → Text → Type 0
StartsKept p [] = Unit
StartsKept p (c ∷ s) = p c ≡ false

trim_left-StartsKept : (p : ℕ → Bool) (s : Text) → StartsKept p (trim_left p s)
unfolding trim_left
trim_left-StartsKept p [] = tt
trim_left-StartsKept p (c ∷ s) = elim (Bool-cases (p c)) [
  | inl h ↦ rw h (trim_left-StartsKept p s)
  | inr h ↦ rw h h
]

trim_left_of_StartsKept : (p : ℕ → Bool) (s : Text) → StartsKept p s → trim_left p s ≡ s
unfolding trim_left
trim_left_of_StartsKept p [] h = refl
trim_left_of_StartsKept p (c ∷ s) h = rw h

trim_right-StartsKept : (p : ℕ → Bool) (s : Text) → StartsKept p s → StartsKept p (trim_right p s)
unfolding trim_right
trim_right-StartsKept p [] h = tt
trim_right-StartsKept p (c ∷ s) h = rw (trim_step-kept p c (trim_right p s) h) h

pub trim_idem : (p : ℕ → Bool) (s : Text) → trim p (trim p s) ≡ trim p s
unfolding trim
trim_idem p s =
    let starts = trim_right-StartsKept p (trim_left p s) (trim_left-StartsKept p s) in
    ap (trim_right p) (trim_left_of_StartsKept p (trim_right p (trim_left p s)) starts)
    ∙ trim_right_idem p (trim_left p s)

module _ (p : ℕ → Bool) (f : ℕ → ℕ) (same : (c : ℕ) → p (f c) ≡ p c) where
  trim_left-map : (s : Text) → trim_left p (map f s) ≡ map f (trim_left p s)
  unfolding trim_left
  trim_left-map [] = refl
  trim_left-map (c ∷ s) = elim (Bool-cases (p c)) [
    | inl h ↦ rw (same c, h) (trim_left-map s)
    | inr h ↦ rw (same c, h)
  ]

  trim_step-map : (c : ℕ) (r : Text) → trim_step p (f c) (map f r) ≡ map f (trim_step p c r)
  trim_step-map c [] = elim (Bool-cases (p c)) [ inl h ↦ rw (same c, h) | inr h ↦ rw (same c, h) ]
  trim_step-map c (d ∷ r) = refl

  trim_right-map : (s : Text) → trim_right p (map f s) ≡ map f (trim_right p s)
  unfolding trim_right
  trim_right-map [] = refl
  trim_right-map (c ∷ s) =
      ap (trim_step p (f c)) (trim_right-map s) ∙ trim_step-map c (trim_right p s)

  pub trim-map : (s : Text) → trim p (map f s) ≡ map f (trim p s)
  unfolding trim
  trim-map s = ap (trim_right p) (trim_left-map s) ∙ trim_right-map (trim_left p s)

is_space-lower_byte : (c : ℕ) → is_space (lower_byte c) ≡ is_space c
unfolding is_space
is_space-lower_byte c = ground arith

-- `ToLower(TrimSpace(s))` done again changes nothing.
pub to_lower-trim_space_idem :
    (s : Text) → to_lower (trim_space (to_lower (trim_space s))) ≡ to_lower (trim_space s)
unfolding trim_space to_lower
to_lower-trim_space_idem s =
    ap to_lower (trim-map is_space lower_byte is_space-lower_byte (trim is_space s))
    ∙ ap (λ t. to_lower (to_lower t)) (trim_idem is_space s)
    ∙ to_lower_idem (trim is_space s)
