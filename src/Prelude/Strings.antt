-- ===== src/Prelude/Strings.antt =====
-- What the program uses of Go's package `strings`, over the bytes of ASCII texts.
use Prim.Native.Nat.{ℕ, suc}
use mathlib.Core.Bool.{Bool, true, false, ◌&&◌, ◌||◌}
use mathlib.Core.List.{List, [], ◌∷◌, ◌++◌}
use mathlib.Core.Logic.{inl, inr}
use mathlib.Core.Option.{Option, none, some}
use mathlib.Core.Path.{◌≡◌, refl, ap}
use native.Mathlib.Omega.{arith}
use wavecontrol.Prelude.Tests.{nat_beq, leb, if◌then◌else◌, Bool-cases}
use wavecontrol.Prelude.Lists.{length, take, drop, All, All-drop}
use wavecontrol.Prelude.Texts.{Text}

-- `unicode.IsSpace` on ASCII: tab, newline, vertical tab, form feed, carriage return, space.
unfoldable pub is_space : ℕ → Bool
is_space c = leb 9 c && leb c 13 || nat_beq c 32

unfoldable pub trim_left : (ℕ → Bool) → Text → Text
trim_left p [] = []
trim_left p (c ∷ s) = let rest = trim_left p s in if p c then rest else c ∷ s

abbrev pub trim_step : (ℕ → Bool) → ℕ → Text → Text
trim_step p c [] = if p c then [] else c ∷ []
trim_step p c (d ∷ r) = c ∷ d ∷ r

unfoldable pub trim_right : (ℕ → Bool) → Text → Text
trim_right p [] = []
trim_right p (c ∷ s) = trim_step p c (trim_right p s)

-- `strings.TrimSpace`; `strings.Trim` has another set of bytes.
unfoldable pub trim : (ℕ → Bool) → Text → Text
unfolding trim_left trim_right
trim p s = trim_right p (trim_left p s)

unfoldable pub trim_space : Text → Text
unfolding trim is_space
trim_space = trim is_space

unfoldable pub has_prefix : Text → Text → Bool
has_prefix s [] = true
has_prefix [] (c ∷ p) = false
has_prefix (d ∷ s) (c ∷ p) = nat_beq d c && has_prefix s p

unfoldable pub trim_prefix : Text → Text → Text
unfolding has_prefix
trim_prefix s p = if has_prefix s p then drop (length p) s else s

-- `h[:i]` for the first `i` whose byte is in the set, or `h` if there is none.
unfoldable pub before_any : (ℕ → Bool) → Text → Text
before_any p [] = []
before_any p (c ∷ s) = let rest = before_any p s in if p c then [] else c ∷ rest

-- `strings.IndexByte` and `strings.LastIndex` for one byte.
unfoldable pub index_byte : ℕ → Text → Option ℕ
index_byte b [] = none
index_byte b (c ∷ s) = elim (nat_beq c b) [
  | true ↦ some 0
  | false ↦ elim (index_byte b s) [ none ↦ none | some i ↦ some (suc i) ]
]

unfoldable pub last_index_byte : ℕ → Text → Option ℕ
last_index_byte b [] = none
last_index_byte b (c ∷ s) = elim (last_index_byte b s) [
  | some i ↦ some (suc i)
  | none ↦ if nat_beq c b then some 0 else none
]

unfoldable pub has_byte : ℕ → Text → Bool
has_byte b [] = false
has_byte b (c ∷ s) = nat_beq c b || has_byte b s

-- `strings.Contains`.
unfoldable pub contains : Text → Text → Bool
unfolding has_prefix
contains [] p = has_prefix [] p
contains (c ∷ s) p = has_prefix (c ∷ s) p || contains s p

module _ {κ} (P : ℕ → Type κ) where
  pub All-trim_left : (p : ℕ → Bool) (s : Text) → All P s → All P (trim_left p s)
  unfolding trim_left
  All-trim_left p [] h = h
  All-trim_left p (c ∷ s) h = elim (Bool-cases (p c)) [
    | inl e ↦ rw e (All-trim_left p s h.1)
    | inr e ↦ rw e h
  ]

  trim_right-cons : (p : ℕ → Bool) (c : ℕ) (r : Text) → P c → All P r → All P (trim_step p c r)
  trim_right-cons p c [] h k = elim (Bool-cases (p c)) [ inl e ↦ rw e tt | inr e ↦ rw e (h, tt) ]
  trim_right-cons p c (d ∷ r) h k = (h, k)

  pub All-trim_right : (p : ℕ → Bool) (s : Text) → All P s → All P (trim_right p s)
  unfolding trim_right
  All-trim_right p [] h = h
  All-trim_right p (c ∷ s) h = trim_right-cons p c (trim_right p s) h.0 (All-trim_right p s h.1)

  pub All-trim : (p : ℕ → Bool) (s : Text) → All P s → All P (trim p s)
  unfolding trim
  All-trim p s h = All-trim_right p (trim_left p s) (All-trim_left p s h)

  pub All-before_any : (p : ℕ → Bool) (s : Text) → All P s → All P (before_any p s)
  unfolding before_any
  All-before_any p [] h = h
  All-before_any p (c ∷ s) h = elim (Bool-cases (p c)) [
    | inl e ↦ rw e tt
    | inr e ↦ rw e (h.0, All-before_any p s h.1)
  ]

pub before_any-none : (p : ℕ → Bool) (s : Text) → All (λ c. p c ≡ false) (before_any p s)
unfolding before_any
before_any-none p [] = tt
before_any-none p (c ∷ s) = elim (Bool-cases (p c)) [
  | inl e ↦ rw e tt
  | inr e ↦ rw e (e, before_any-none p s)
]

-- `h[i+1:]` for the last index of the byte, or `h` if there is none.
abbrev pub behind : Text → Option ℕ → Text
behind s none = s
behind s (some i) = drop (suc i) s

abbrev pub Lacks : ℕ → Text → Type 0
Lacks b = All (λ c. nat_beq c b ≡ false)

behind-cons :
    (b c : ℕ) (s : Text) (found : Option ℕ)
    → Lacks b (behind s found)
    → Lacks b (
        behind
          (c ∷ s)
          (elim found [ some i ↦ some (suc i) | none ↦ if nat_beq c b then some 0 else none ]))
behind-cons b c s (some i) h = h
behind-cons b c s none h = elim (Bool-cases (nat_beq c b)) [ inl e ↦ rw e h | inr e ↦ rw e (e, h) ]

-- No occurrence is left behind the last one.
pub behind-last_index_byte :
    (b : ℕ) (s : Text) → All (λ c. nat_beq c b ≡ false) (behind s (last_index_byte b s))
unfolding last_index_byte
behind-last_index_byte b [] = tt
behind-last_index_byte b (c ∷ s) =
    behind-cons b c s (last_index_byte b s) (behind-last_index_byte b s)

pub All-behind {κ} :
    (P : ℕ → Type κ) (s : Text) (found : Option ℕ) → All P s → All P (behind s found)
All-behind P s none h = h
All-behind P s (some i) h = All-drop P (suc i) s h

-- The pieces of `a ++ c ∷ b` where no byte of `a` is one that is looked for.
pub before_any-append :
    (p : ℕ → Bool) (a : Text) (c : ℕ) (b : Text)
    → All (λ x. p x ≡ false) a
    → p c ≡ true
    → before_any p (a ++ c ∷ b) ≡ a
unfolding before_any
before_any-append p [] c b h e = rw e
before_any-append p (x ∷ a) c b h e = rw h.0 (ap (◌∷◌ x) (before_any-append p a c b h.1 e))

pub last_index_byte-none : (c : ℕ) (s : Text) → Lacks c s → last_index_byte c s ≡ none
unfolding last_index_byte
last_index_byte-none c [] h = refl
last_index_byte-none c (x ∷ s) h = rw (last_index_byte-none c s h.1, h.0)

pub last_index_byte-append :
    (a : Text) (c : ℕ) (b : Text) → Lacks c b → last_index_byte c (a ++ c ∷ b) ≡ some (length a)
unfolding last_index_byte
last_index_byte-append [] c b h =
    let same : nat_beq c c ≡ true = ground arith in rw (last_index_byte-none c b h, same)
last_index_byte-append (x ∷ a) c b h = rw (last_index_byte-append a c b h)

pub drop-append {ℓ} :
    {A : Type ℓ} (a : List A) (x : A) (b : List A) → drop (suc (length a)) (a ++ x ∷ b) ≡ b
drop-append [] x b = refl
drop-append (y ∷ a) x b = drop-append a x b

pub take-append {ℓ} : {A : Type ℓ} (a b : List A) → take (length a) (a ++ b) ≡ a
take-append [] b = refl
take-append (y ∷ a) b = ap (◌∷◌ y) (take-append a b)

pub has_byte-Lacks : (c : ℕ) (s : Text) → Lacks c s → has_byte c s ≡ false
unfolding has_byte
has_byte-Lacks c [] h = refl
has_byte-Lacks c (x ∷ s) h = rw (h.0, has_byte-Lacks c s h.1)
