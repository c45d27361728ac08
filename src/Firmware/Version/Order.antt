-- ===== src/Firmware/Version/Order.antt =====
-- Comparing versions in the other direction.
use wavecontrol.Prelude.{
  ℕ, zero, suc, ◌+◌, ◌-◌, ◌<◌, Bool, true, false, ◌&&◌, not, List, [], ◌∷◌, inl, inr, Option, none,
  some, ◌≡◌, refl, sym, ap, arith, ltb, leb, nat_beq, if◌then◌else◌, Bool-cases, length, Text,
  to_lower, pos_part, neg_part, int_beq, sub_ℤ, ℤ, pos, negsuc,
}
use wavecontrol.Firmware.Version.{
  atoi, text_compare, split_version, is_prerelease, compare_texts, compare_read, compare_part,
  or_else, any_prerelease, compare_parts, bare, compare_versions,
}

abbrev pub neg_ℤ : ℤ → ℤ
neg_ℤ (pos zero) = pos zero
neg_ℤ (pos (suc n)) = negsuc n
neg_ℤ (negsuc n) = pos (suc n)

abbrev over : Option ℤ → Option ℤ
over none = none
over (some r) = some (neg_ℤ r)

text_compare-flip : (s t : Text) → text_compare t s ≡ neg_ℤ (text_compare s t)
unfolding text_compare
text_compare-flip [] [] = refl
text_compare-flip [] (b ∷ t) = refl
text_compare-flip (a ∷ s) [] = refl
text_compare-flip (a ∷ s) (b ∷ t) = elim (Bool-cases (ltb a b)) [
  | inl e ↦ (let other : ltb b a ≡ false = ground (arith, e) in rw (e, other))
  | inr e ↦ elim (Bool-cases (ltb b a)) [
    | inl d ↦ rw (e, d)
    | inr d ↦ rw (e, d) (text_compare-flip s t)
  ]
]

neg_idem : (n : ℤ) → int_beq (neg_ℤ n) (pos 0) ≡ int_beq n (pos 0)
neg_idem (pos zero) = refl
neg_idem (pos (suc n)) = ground arith
neg_idem (negsuc n) = ground arith

neg_ℤ-pos : (n : ℕ) → 0 < n → neg_ℤ (pos n) ≡ negsuc (n - 1)
neg_ℤ-pos zero h = absurd (omega arith)
neg_ℤ-pos (suc n) h = ap negsuc (omega arith)

sub-flip :
    (up down : ℕ)
    → (if leb up down then pos (down - up) else negsuc (up - down - 1))
      ≡ neg_ℤ (if leb down up then pos (up - down) else negsuc (down - up - 1))
sub-flip up down = elim (Bool-cases (leb down up)) [
  | inl e ↦ elim (Bool-cases (leb up down)) [
    | inl d ↦
        (let none_left : up - down ≡ 0 = ground (arith, e, d) in
          let none_back : down - up ≡ 0 = ground (arith, e, d) in rw (e, d, none_left, none_back))
    | inr d ↦ rw (e, d) (sym (neg_ℤ-pos (up - down) (ground (arith, d))))
  ]
  | inr e ↦
      (let back : leb up down ≡ true = ground (arith, e) in
        rw (e, back) (ap pos (ground (arith, e))))
]

sub_ℤ-flip : (m n : ℤ) → sub_ℤ n m ≡ neg_ℤ (sub_ℤ m n)
sub_ℤ-flip m n = sub-flip (pos_part m + neg_part n) (pos_part n + neg_part m)

swap_flags :
    (cmp : ℤ) (p q : Bool)
    → (if q && not p
        then some (negsuc 0)
        else if not q && p
        then some (pos 1)
        else some (neg_ℤ cmp))
      ≡ over (if p && not q then some (negsuc 0) else if not p && q then some (pos 1) else some cmp)
swap_flags cmp true true = refl
swap_flags cmp true false = refl
swap_flags cmp false true = refl
swap_flags cmp false false = refl

swap_texts :
    (cmp back : ℤ) (p q : Bool)
    → back ≡ neg_ℤ cmp
    → (if int_beq back (pos 0)
        then none
        else if q && not p
        then some (negsuc 0)
        else if not q && p
        then some (pos 1)
        else some back)
      ≡ over (
          if int_beq cmp (pos 0)
          then none
          else if p && not q
          then some (negsuc 0)
          else if not p && q
          then some (pos 1)
          else some cmp)
swap_texts cmp back p q e = elim (Bool-cases (int_beq cmp (pos 0))) [
  | inl z ↦ rw (e, neg_idem cmp, z)
  | inr z ↦ rw (e, neg_idem cmp, z) (swap_flags cmp p q)
]

compare_texts-flip : (a b : Text) → compare_texts b a ≡ over (compare_texts a b)
compare_texts-flip a b =
    swap_texts (text_compare (to_lower a) (to_lower b)) (text_compare (to_lower b) (to_lower a))
      (is_prerelease a) (is_prerelease b) (text_compare-flip (to_lower a) (to_lower b))

nat_beq-swap : (m n : ℕ) → nat_beq m n ≡ nat_beq n m
nat_beq-swap m n = ground arith

int_beq-swap : (m n : ℤ) → int_beq m n ≡ int_beq n m
int_beq-swap (pos m) (pos n) = nat_beq-swap m n
int_beq-swap (pos m) (negsuc n) = refl
int_beq-swap (negsuc m) (pos n) = refl
int_beq-swap (negsuc m) (negsuc n) = nat_beq-swap m n

compare_read-flip :
    (m n : Option ℤ) (a b : Text) → compare_read n m b a ≡ over (compare_read m n a b)
compare_read-flip (some m) (some n) a b = elim (Bool-cases (int_beq m n)) [
  | inl e ↦ rw (int_beq-swap n m, e)
  | inr e ↦ rw (int_beq-swap n m, e) (ap some (sub_ℤ-flip m n))
]
compare_read-flip (some m) none a b = compare_texts-flip a b
compare_read-flip none (some n) a b = compare_texts-flip a b
compare_read-flip none none a b = compare_texts-flip a b

or_else-flip :
    (x y : Option ℤ) (r s : ℤ) → y ≡ over x → s ≡ neg_ℤ r → or_else y s ≡ neg_ℤ (or_else x r)
or_else-flip none y r s h k = rw h k
or_else-flip (some n) y r s h k = rw h

longer-flip :
    (pre : Bool) (n : ℕ)
    → (if pre then negsuc 0 else sub_ℤ (pos (suc n)) (pos 0))
      ≡ neg_ℤ (if pre then pos 1 else sub_ℤ (pos 0) (pos (suc n)))
longer-flip true n = refl
longer-flip false n = sub_ℤ-flip (pos 0) (pos (suc n))

shorter-flip :
    (pre : Bool) (n : ℕ)
    → (if pre then pos 1 else sub_ℤ (pos 0) (pos (suc n)))
      ≡ neg_ℤ (if pre then negsuc 0 else sub_ℤ (pos (suc n)) (pos 0))
shorter-flip true n = refl
shorter-flip false n = sub_ℤ-flip (pos (suc n)) (pos 0)

compare_parts-flip : (xs ys : List Text) → compare_parts ys xs ≡ neg_ℤ (compare_parts xs ys)
unfolding compare_parts compare_part
compare_parts-flip [] [] = refl
compare_parts-flip [] (b ∷ ys) = longer-flip (any_prerelease (b ∷ ys)) (length ys)
compare_parts-flip (a ∷ xs) [] = shorter-flip (any_prerelease (a ∷ xs)) (length xs)
compare_parts-flip (a ∷ xs) (b ∷ ys) =
    or_else-flip (compare_part a b) (compare_part b a) (compare_parts xs ys) (compare_parts ys xs)
      (compare_read-flip (atoi a) (atoi b) a b) (compare_parts-flip xs ys)

-- Exchanging two versions, whatever their texts are, exchanges newer and older: the result of the
-- comparison is negated.
pub compare_versions-flip : (a b : Text) → compare_versions b a ≡ neg_ℤ (compare_versions a b)
unfolding compare_versions
compare_versions-flip a b = compare_parts-flip (split_version (bare a)) (split_version (bare b))
